-- ===== src/Bricola/PeerTable/Kept.antt =====
-- src/bricola/mdns/PeerTable.cpp, Ingest: the steps after which an observer knows what the table announces.
use campiello.Common.{
  ℕ, ◌≡◌, ◌≢◌, refl, sym, ap, ◌∙◌, subst, inl, inr, Bool, true, false, not, ◌||◌, Option, none,
  some, List, [], ◌∷◌, ◌++◌, bytes_eq, bytes_eq_sound, bytes_eq_refl, Bool-cases, arith, is_empty,
}
use campiello.Bricola.Keys.{find_key, put_key, erase_key}
use campiello.Bricola.Keys.Laws.{
  find_key-Each, put_key-Each, erase_key-Each, put_key-Distinct, erase_key-Distinct, find-put_key,
  find-put_other, find-erase_key, find-erase_other, apart_lem, bytes_eq_apart,
}
use campiello.Bricola.PeerTable.{
  Peer, PeerEntry, PeerEvent, lost_event, publish, attach_addresses, with_addresses, lower,
}
use campiello.Bricola.PeerTable.Ingest.{
  Pass, removal, remove_all, published, or_sender, settle, publish_all, has_changed,
}
use campiello.Bricola.PeerTable.Watch.{
  watch_all, watch_all-append, announced_of, announced_in, IsKeyed, IsTable,
}

-- A step from a table to a table that announces the same of a peer, up to what it tells.
abbrev pub Tells :
    List ℕ → List (List ℕ × PeerEntry) → List PeerEvent → List (List ℕ × PeerEntry) → Type 0
Tells k peers events after =
    IsTable after × (watch_all k (some (announced_in k peers)) events ≡ some (announced_in k after))

-- An entry under its key in the place of what the table has there.
pub put_key-Tells :
    (k key : List ℕ) (was : Bool) (e : PeerEntry) (events : List PeerEvent)
    (peers : List (List ℕ × PeerEntry))
    → IsTable peers
    → announced_in key peers ≡ was
    → e.peer.key ≡ key
    → watch_all key (some was) events ≡ some e.announced
    → ((j : List ℕ) (known : Option Bool) → key ≢ j → watch_all j known events ≡ known)
    → Tells k peers events (put_key key e peers)
put_key-Tells k key was e events peers (d, h) before own told others = (
  (put_key-Distinct key e peers d, put_key-Each IsKeyed key e peers own h),
  elim (Bool-cases (bytes_eq key k)) [
    | inl b ↦
        subst
          (λ x.
            watch_all x (some (announced_in x peers)) events
            ≡ some (announced_in x (put_key key e peers)))
          (bytes_eq_sound key k b) (rw (before, find-put_key key e peers) told)
    | inr b ↦
        let apart = apart_lem key k b in
        rw (find-put_other k key e peers (λ s. apart (sym s)))
          (others k (some (announced_in k peers)) apart)
  ],
)

lost_event-watch :
    (e : PeerEntry) (key : List ℕ)
    → e.peer.key ≡ key
    → watch_all key (some e.announced) (lost_event e) ≡ some false
unfolding watch_all
lost_event-watch e key own =
    let mine : bytes_eq e.peer.key key ≡ true =
      subst (λ x. bytes_eq e.peer.key x ≡ true) own (bytes_eq_refl e.peer.key) in
    ground arith

lost_event-others :
    (e : PeerEntry) (key : List ℕ)
    → e.peer.key ≡ key
    → (j : List ℕ) (known : Option Bool) → key ≢ j
    → watch_all j known (lost_event e) ≡ known
unfolding watch_all
lost_event-others e key own j known apart =
    let other : bytes_eq e.peer.key j ≡ false =
      subst (λ x. bytes_eq x j ≡ false) (sym own) (bytes_eq_apart key j apart) in
    ground arith

publish-watch :
    (e : PeerEntry) (key : List ℕ)
    → e.peer.key ≡ key
    → watch_all key (some e.announced) (publish e).1 ≡ some (publish e).0.announced
unfolding watch_all publish
publish-watch e key own =
    let mine : bytes_eq e.peer.key key ≡ true =
      subst (λ x. bytes_eq e.peer.key x ≡ true) own (bytes_eq_refl e.peer.key) in
    ground arith

publish-others :
    (e : PeerEntry) (key : List ℕ)
    → e.peer.key ≡ key
    → (j : List ℕ) (known : Option Bool) → key ≢ j
    → watch_all j known (publish e).1 ≡ known
unfolding watch_all publish
publish-others e key own j known apart =
    let other : bytes_eq e.peer.key j ≡ false =
      subst (λ x. bytes_eq x j ≡ false) (sym own) (bytes_eq_apart key j apart) in
    ground arith

publish-key : (e : PeerEntry) → (publish e).0.peer.key ≡ e.peer.key
unfolding publish
publish-key e = ground arith

with_addresses-key : (p : Peer) (o : Option (List (List ℕ))) → (with_addresses p o).key ≡ p.key
with_addresses-key p none = refl
with_addresses-key p (some ips) = refl

attach-key :
    (hosts : List (List ℕ × List (List ℕ))) (p : Peer) → (attach_addresses hosts p).key ≡ p.key
unfolding attach_addresses
attach-key hosts p = elim (Bool-cases (is_empty p.hostname)) [
  | inl b ↦ rw b refl
  | inr b ↦ rw b (with_addresses-key p (find_key (lower p.hostname) hosts))
]

removal-Tells :
    (k key : List ℕ) (pass : Pass) (o : Option PeerEntry)
    → find_key key pass.peers ≡ o
    → IsTable pass.peers
    → Tells k pass.peers (removal key pass o).1 (removal key pass o).0.peers
unfolding watch_all
removal-Tells k key pass none f h = (h, refl)
removal-Tells k key pass (some e) f (d, h) =
    let own = find_key-Each IsKeyed key e pass.peers h f in
    (
      (erase_key-Distinct key pass.peers d, erase_key-Each IsKeyed key pass.peers h),
      elim (Bool-cases (bytes_eq key k)) [
        | inl b ↦
            subst
              (λ x.
                watch_all x (some (announced_in x pass.peers)) (lost_event e)
                ≡ some (announced_in x (erase_key key pass.peers)))
              (bytes_eq_sound key k b)
              (rw (f, find-erase_key key pass.peers) (lost_event-watch e key own))
        | inr b ↦
            let apart = apart_lem key k b in
            rw (find-erase_other k key pass.peers (λ s. apart (sym s)))
              (lost_event-others e key own k (some (announced_in k pass.peers)) apart)
      ],
    )

module _ (old : Option Peer) (e : PeerEntry) (key : List ℕ) where
  published-watch :
      e.peer.key ≡ key
      → watch_all key (some e.announced) (published old e).1 ≡ some (published old e).0.announced
  unfolding watch_all
  published-watch own = elim (Bool-cases (has_changed old e.peer || not e.announced)) [
    | inl b ↦ rw b (publish-watch e key own)
    | inr b ↦ rw b refl
  ]

  published-others :
      e.peer.key ≡ key
      → (j : List ℕ) (known : Option Bool) → key ≢ j
      → watch_all j known (published old e).1 ≡ known
  unfolding watch_all
  published-others own j known apart =
      elim (Bool-cases (has_changed old e.peer || not e.announced)) [
        | inl b ↦ rw b (publish-others e key own j known apart)
        | inr b ↦ rw b refl
      ]

  published-key : e.peer.key ≡ key → (published old e).0.peer.key ≡ key
  published-key own = elim (Bool-cases (has_changed old e.peer || not e.announced)) [
    | inl b ↦ rw b (publish-key e ∙ own)
    | inr b ↦ rw b own
  ]

or_sender-key : (src : List ℕ) (p : Peer) → (or_sender src p).key ≡ p.key
or_sender-key src p = ground arith

module _ (k : List ℕ) where
  pub Tells-chain :
      (a b c : List (List ℕ × PeerEntry)) (xs ys : List PeerEvent)
      → Tells k a xs b
      → Tells k b ys c
      → Tells k a (xs ++ ys) c
  Tells-chain a b c xs ys (h, p) (i, q) =
      (i, rw (watch_all-append k (some (announced_in k a)) xs ys, p) q)

  settle-Tells :
      (hosts : List (List ℕ × List (List ℕ))) (src : List ℕ) (before : List (List ℕ × Peer))
      (key : List ℕ) (peers : List (List ℕ × PeerEntry)) (o : Option PeerEntry)
      → find_key key peers ≡ o
      → IsTable peers
      → Tells k peers
          (settle hosts src before key peers o).1
          (settle hosts src before key peers o).0
  unfolding watch_all
  settle-Tells hosts src before key peers none f h = (h, refl)
  settle-Tells hosts src before key peers (some e) f h =
      let now = record e { peer = or_sender src (attach_addresses hosts e.peer) } in
      let old = find_key key before in
      let own : now.peer.key ≡ key =
        or_sender-key src (attach_addresses hosts e.peer)
        ∙ (attach-key hosts e.peer ∙ find_key-Each IsKeyed key e peers h.1 f) in
      put_key-Tells k key e.announced (published old now).0 (published old now).1 peers h
        (ap announced_of f) (published-key old now key own) (published-watch old now key own)
        (published-others old now key own)

  pub publish_all-Tells :
      (hosts : List (List ℕ × List (List ℕ))) (src : List ℕ) (before : List (List ℕ × Peer))
      (keys : List (List ℕ)) (peers : List (List ℕ × PeerEntry))
      → IsTable peers
      → Tells k peers
          (publish_all hosts src before keys peers).1
          (publish_all hosts src before keys peers).0
  unfolding publish_all watch_all
  publish_all-Tells hosts src before [] peers h = (h, refl)
  publish_all-Tells hosts src before (key ∷ keys) peers h =
      let step = settle hosts src before key peers (find_key key peers) in
      let first = settle-Tells hosts src before key peers (find_key key peers) refl h in
      Tells-chain peers step.0 (publish_all hosts src before keys step.0).0 step.1
        (publish_all hosts src before keys step.0).1 first
        (publish_all-Tells hosts src before keys step.0 first.0)

  pub remove_all-Tells :
      (keys : List (List ℕ)) (pass : Pass)
      → IsTable pass.peers
      → Tells k pass.peers (remove_all keys pass).1 (remove_all keys pass).0.peers
  unfolding remove_all watch_all
  remove_all-Tells [] pass h = (h, refl)
  remove_all-Tells (key ∷ keys) pass h =
      let step = removal key pass (find_key key pass.peers) in
      let first = removal-Tells k key pass (find_key key pass.peers) refl h in
      Tells-chain pass.peers step.0.peers (remove_all keys step.0).0.peers step.1
        (remove_all keys step.0).1 first (remove_all-Tells keys step.0 first.0)
