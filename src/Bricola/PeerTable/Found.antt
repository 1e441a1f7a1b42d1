-- ===== src/Bricola/PeerTable/Found.antt =====
-- src/bricola/mdns/PeerTable.cpp, Ingest: of which peers an observer is told.
use campiello.Common.{
  ℕ, ◌≡◌, inl, inr, Bool-cases, true, Option, none, some, List, [], ◌∷◌, ◌++◌, All, arith,
}
use campiello.Bricola.MdnsWire.{DnsMessage}
use campiello.Bricola.Keys.{find_key}
use campiello.Bricola.PeerTable.{
  Peer, PeerEntry, PeerTable, PeerEvent, peer_found, peer_updated, peer_lost, connectable, publish,
  lost_event, expire_peers, has_expired,
}
use campiello.Bricola.PeerTable.Ingest.{
  Pass, removal, remove_all, published, settle, publish_all, ingest_records, ingest_message,
}

-- A peer is found only where it can be connected to.
abbrev pub IsHonest : PeerEvent → Type 0
IsHonest (peer_found p) = connectable p ≡ true
IsHonest (peer_updated p) = Unit
IsHonest (peer_lost p) = Unit

pub All-append :
    (xs ys : List PeerEvent) → All IsHonest xs → All IsHonest ys → All IsHonest (xs ++ ys)
All-append [] ys h k = k
All-append (x ∷ xs) ys (p, h) k = (p, All-append xs ys h k)

lost_event-IsHonest : (e : PeerEntry) → All IsHonest (lost_event e)
lost_event-IsHonest e = ground arith

publish-IsHonest : (e : PeerEntry) → All IsHonest (publish e).1
unfolding publish
publish-IsHonest e = ground arith

removal-IsHonest :
    (key : List ℕ) (pass : Pass) (o : Option PeerEntry) → All IsHonest (removal key pass o).1
removal-IsHonest key pass none = tt
removal-IsHonest key pass (some e) = lost_event-IsHonest e

remove_all-IsHonest : (keys : List (List ℕ)) (pass : Pass) → All IsHonest (remove_all keys pass).1
unfolding remove_all
remove_all-IsHonest [] pass = tt
remove_all-IsHonest (key ∷ keys) pass =
    let step = removal key pass (find_key key pass.peers) in
    All-append step.1 (remove_all keys step.0).1
      (removal-IsHonest key pass (find_key key pass.peers)) (remove_all-IsHonest keys step.0)

published-IsHonest : (old : Option Peer) (e : PeerEntry) → All IsHonest (published old e).1
published-IsHonest old e = ground (arith, publish-IsHonest e)

module _ (hosts : List (List ℕ × List (List ℕ))) (src : List ℕ)
    (before : List (List ℕ × Peer)) where
  settle-IsHonest :
      (key : List ℕ) (peers : List (List ℕ × PeerEntry)) (o : Option PeerEntry)
      → All IsHonest (settle hosts src before key peers o).1
  settle-IsHonest key peers none = tt
  settle-IsHonest key peers (some e) = published-IsHonest (find_key key before) _

  publish_all-IsHonest :
      (keys : List (List ℕ)) (peers : List (List ℕ × PeerEntry))
      → All IsHonest (publish_all hosts src before keys peers).1
  unfolding publish_all
  publish_all-IsHonest [] peers = tt
  publish_all-IsHonest (key ∷ keys) peers =
      let step = settle hosts src before key peers (find_key key peers) in
      All-append step.1 (publish_all hosts src before keys step.0).1
        (settle-IsHonest key peers (find_key key peers)) (publish_all-IsHonest keys step.0)

pub ingest_message-IsHonest :
    (buf src : List ℕ) (now : ℕ) (t : PeerTable) (o : Option DnsMessage)
    → All IsHonest (ingest_message buf src now t o).1
unfolding ingest_records
ingest_message-IsHonest buf src now t none = tt
ingest_message-IsHonest buf src now t (some m) =
    All-append _ _ (remove_all-IsHonest _ _) (publish_all-IsHonest _ _ _ _ _)

pub expire-IsHonest :
    (now : ℕ) (peers : List (List ℕ × PeerEntry)) → All IsHonest (expire_peers now peers).1
unfolding expire_peers
expire-IsHonest now [] = tt
expire-IsHonest now ((key, e) ∷ peers) = elim (Bool-cases (has_expired now e)) [
  | inl b ↦ rw b (
      All-append (lost_event e) (expire_peers now peers).1 (lost_event-IsHonest e)
        (expire-IsHonest now peers))
  | inr b ↦ rw b (expire-IsHonest now peers)
]
