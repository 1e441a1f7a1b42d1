-- ===== src/Bricola/PeerTable/Expiry.antt =====
-- src/bricola/mdns/PeerTable.cpp, Expire and Peers: which peers go, and what an observer is told.
use campiello.Common.{
  ℕ, ◌<◌, ◌≡◌, refl, Bool, true, false, List, [], ◌∷◌, if◌then◌else◌, leb, All, arith, map,
}
use campiello.Bricola.PeerTable.{
  Peer, PeerEntry, PeerTable, peer_lost, expire_peers, expire, announced_peers,
}

-- The peers of a list that are stale at a moment, or that are not.
abbrev pub stale : Bool → ℕ → List Peer → List Peer
stale b now [] = []
stale b now (p ∷ peers) =
    let rest = stale b now peers in
    if leb p.expires_at now then (if b then p ∷ rest else rest) else if b then rest else p ∷ rest

abbrev LiveAt : ℕ → List ℕ × PeerEntry → Type 0
LiveAt now (key, e) = now < e.peer.expires_at

announced_peers-expire :
    (now : ℕ) (peers : List (List ℕ × PeerEntry))
    → announced_peers (expire_peers now peers).0 ≡ stale false now (announced_peers peers)
unfolding expire_peers announced_peers
announced_peers-expire now [] = refl
announced_peers-expire now ((key, e) ∷ peers) = ground (arith, announced_peers-expire now peers)

events-expire :
    (now : ℕ) (peers : List (List ℕ × PeerEntry))
    → (expire_peers now peers).1 ≡ map peer_lost (stale true now (announced_peers peers))
unfolding expire_peers announced_peers
events-expire now [] = refl
events-expire now ((key, e) ∷ peers) = ground (arith, events-expire now peers)

expire-LiveAt :
    (now : ℕ) (peers : List (List ℕ × PeerEntry)) → All (LiveAt now) (expire_peers now peers).0
unfolding expire_peers
expire-LiveAt now [] = tt
expire-LiveAt now ((key, e) ∷ peers) = ground (arith, expire-LiveAt now peers)

expire-still :
    (now : ℕ) (peers : List (List ℕ × PeerEntry))
    → All (LiveAt now) peers
    → expire_peers now peers ≡ (peers, [])
unfolding expire_peers
expire-still now [] h = refl
expire-still now ((key, e) ∷ peers) (k, h) = ground (arith, expire-still now peers h)

-- After Expire the peers that were announced and are not stale at the moment are announced, in their
-- order; the observer is told, in their order, of the loss of those that were announced and are stale,
-- and of nothing else; and Expire at the same moment again changes nothing and tells nothing.
pub expire-stale :
    (now : ℕ) (t : PeerTable)
    → let a = expire now t in
      (announced_peers a.0.peers ≡ stale false now (announced_peers t.peers))
      × (a.1 ≡ map peer_lost (stale true now (announced_peers t.peers)))
      × (expire now a.0 ≡ (a.0, []))
unfolding expire
expire-stale now t = (
  announced_peers-expire now t.peers,
  events-expire now t.peers,
  rw (expire-still now (expire_peers now t.peers).0 (expire-LiveAt now t.peers)) refl,
)
