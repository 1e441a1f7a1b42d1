-- ===== src/Bricola/PeerTable/Watch.antt =====
-- src/bricola/mdns/PeerTable.cpp: what an observer knows of one peer, and what Expire tells it.
use campiello.Common.{
  ℕ, ◌≡◌, refl, sym, subst, inl, inr, Bool, true, false, Option, none, some, List, [], ◌∷◌, ◌++◌,
  if◌then◌else◌, bytes_eq, bytes_eq_sound, Bool-cases, arith,
}
use campiello.Bricola.Keys.{find_key}
use campiello.Bricola.Keys.Laws.{Distinct, Each}
use campiello.Bricola.PeerTable.{
  PeerEntry, PeerEvent, peer_found, peer_updated, peer_lost, has_expired, expire_peers,
}

-- Found only while it is not known, updated and lost only while it is: none where this was broken.
abbrev pub on_found : Option Bool → Option Bool
on_found none = none
on_found (some known) = if known then none else some true

abbrev pub on_updated : Option Bool → Option Bool
on_updated none = none
on_updated (some known) = if known then some true else none

abbrev pub on_lost : Option Bool → Option Bool
on_lost none = none
on_lost (some known) = if known then some false else none

-- What an observer knows of the peer with a key, after an event.
abbrev pub watch : List ℕ → Option Bool → PeerEvent → Option Bool
watch k known (peer_found p) = if bytes_eq p.key k then on_found known else known
watch k known (peer_updated p) = if bytes_eq p.key k then on_updated known else known
watch k known (peer_lost p) = if bytes_eq p.key k then on_lost known else known

unfoldable pub watch_all : List ℕ → Option Bool → List PeerEvent → Option Bool
watch_all k known [] = known
watch_all k known (e ∷ events) = watch_all k (watch k known e) events

abbrev pub announced_of : Option PeerEntry → Bool
announced_of none = false
announced_of (some e) = e.announced

-- Whether `Peers` lists the peer with a key.
abbrev pub announced_in : List ℕ → List (List ℕ × PeerEntry) → Bool
announced_in k peers = announced_of (find_key k peers)

abbrev pub IsKeyed : List ℕ → PeerEntry → Type 0
IsKeyed k e = e.peer.key ≡ k

abbrev pub IsTable : List (List ℕ × PeerEntry) → Type 0
IsTable peers = Distinct peers × Each IsKeyed peers

pub watch_all-append :
    (k : List ℕ) (known : Option Bool) (xs ys : List PeerEvent)
    → watch_all k known (xs ++ ys) ≡ watch_all k (watch_all k known xs) ys
unfolding watch_all
watch_all-append k known [] ys = refl
watch_all-append k known (x ∷ xs) ys = watch_all-append k (watch k known x) xs ys

find-expire_none :
    (now : ℕ) (k : List ℕ) (peers : List (List ℕ × PeerEntry))
    → find_key k peers ≡ none
    → find_key k (expire_peers now peers).0 ≡ none
unfolding find_key expire_peers
find-expire_none now k [] h = refl
find-expire_none now k ((j, e) ∷ peers) h = ground (arith, find-expire_none now k peers)

pub expire-IsTable :
    (now : ℕ) (peers : List (List ℕ × PeerEntry))
    → IsTable peers
    → IsTable (expire_peers now peers).0
unfolding expire_peers
expire-IsTable now [] h = h
expire-IsTable now ((j, e) ∷ peers) ((f, d), (q, h)) =
    let rest = expire-IsTable now peers (d, h) in
    elim (Bool-cases (has_expired now e)) [
      | inl b ↦ rw b rest
      | inr b ↦ rw b ((find-expire_none now j peers f, rest.0), (q, rest.1))
    ]

-- The events of other peers.
expire-silent :
    (now : ℕ) (k : List ℕ) (known : Option Bool) (peers : List (List ℕ × PeerEntry))
    → Each IsKeyed peers
    → find_key k peers ≡ none
    → watch_all k known (expire_peers now peers).1 ≡ known
unfolding find_key expire_peers watch_all
expire-silent now k known [] h f = refl
expire-silent now k known ((j, e) ∷ peers) (q, h) f =
    ground (arith, expire-silent now k known peers h)

pub expire-watch :
    (now : ℕ) (k : List ℕ) (peers : List (List ℕ × PeerEntry))
    → IsTable peers
    → watch_all k (some (announced_in k peers)) (expire_peers now peers).1
      ≡ some (announced_in k (expire_peers now peers).0)
unfolding find_key expire_peers watch_all
expire-watch now k [] h = refl
expire-watch now k ((j, e) ∷ peers) ((f, d), (q, h)) =
    let rest = expire-watch now k peers (d, h) in
    elim (Bool-cases (bytes_eq j k)) [
      | inl b ↦
          let gone : find_key k peers ≡ none =
            subst (λ x. find_key x peers ≡ none) (bytes_eq_sound j k b) f in
          let after = find-expire_none now k peers gone in
          let silent = expire-silent now k (some e.announced) peers h gone in
          let own : bytes_eq e.peer.key k ≡ true = subst (λ x. bytes_eq x k ≡ true) (sym q) b in
          ground (arith, rest)
      | inr b ↦
          let other : bytes_eq e.peer.key k ≡ false = subst (λ x. bytes_eq x k ≡ false) (sym q) b in
          ground (arith, rest)
    ]
