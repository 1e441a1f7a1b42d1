-- ===== src/Fondamenta/Discovery/Aggregation.antt =====
-- A query over all peers: no result twice, and no more than the quota.
use campiello.Common.{
  ℕ, ◌≤◌, ◌<◌, ◌≡◌, refl, sym, ap, ◌∙◌, Bool, true, false, inl, inr, Bool-cases, Option, none, some,
  List, [], ◌∷◌, ◌++◌, map, length, length-append, bytes_eq, leb, if◌then◌else◌, arith,
}
use campiello.Trust.Store.Pins.{bytes_eq-swap}
use campiello.Wire.Listing.{Entry}
use campiello.Fondamenta.PeerBackend.{BackendResult, ok, status, PeerSource}
use campiello.Fondamenta.Discovery.QueryAggregator.{
  AggregatedEntry, has, dedup_key, Aggregate, no_results, add_hit, add_hits, peer_answered,
  peer_asked, ask_peers, aggregate_query, default_query_quota,
}
use campiello.Fondamenta.Discovery.PathRouter.{
  router_read_dir, classify_query, predicate_folder, is_top, name_hits,
}
use campiello.Fondamenta.Discovery.Names.{Apart, name_hits-Apart}

-- No string stands twice.
unfoldable pub Different : List (List ℕ) → Type 0
Different [] = Unit {0}
Different (x ∷ xs) = (has x xs ≡ false) × Different xs

abbrev pub key_of : AggregatedEntry → List ℕ
key_of a = dedup_key a.peer a.entry

abbrev pub keys_of : List AggregatedEntry → List (List ℕ)
keys_of out = map key_of out

has-append : (x y : List ℕ) (ys : List (List ℕ)) → has x (ys ++ (y ∷ [])) ≡ has x (y ∷ ys)
unfolding has
has-append x y [] = refl
has-append x y (z ∷ ys) = elim (Bool-cases (bytes_eq x z)) [
  | inl e ↦ elim (Bool-cases (bytes_eq x y)) [
    | inl f ↦ simp (e, f) refl
    | inr f ↦ simp (e, f, e) refl
  ]
  | inr e ↦ elim (Bool-cases (bytes_eq x y)) [
    | inl f ↦ simp (e, f) (has-append x y ys ∙ simp f refl)
    | inr f ↦ simp (e, f, e) (has-append x y ys ∙ simp f refl)
  ]
]

has-cons :
    (x y : List ℕ) (ys zs : List (List ℕ)) → has x ys ≡ has x zs → has x (y ∷ ys) ≡ has x (y ∷ zs)
unfolding has
has-cons x y ys zs e = ap (λ b. if bytes_eq x y then true else b) e

append-Different :
    (x : List ℕ) (xs : List (List ℕ)) → Different xs → has x xs ≡ false → Different (xs ++ (x ∷ []))
unfolding Different has
append-Different x [] d h = (refl, tt)
append-Different x (y ∷ xs) d h = elim (Bool-cases (bytes_eq x y)) [
  | inl e ↦ let clash : true ≡ false = sym (simp e refl) ∙ h in absurd (cc clash)
  | inr e ↦
      let apart : bytes_eq y x ≡ false = bytes_eq-swap x y e in
      let h' : has x xs ≡ false = sym (simp e refl) ∙ h in
      (has-append y x xs ∙ (simp apart d.0), append-Different x xs d.1 h')
]

map-append :
    (out : List AggregatedEntry) (a : AggregatedEntry)
    → keys_of (out ++ (a ∷ [])) ≡ keys_of out ++ (key_of a ∷ [])
map-append [] a = refl
map-append (b ∷ out) a = ap (λ l. key_of b ∷ l) (map-append out a)

-- At most the quota, no result twice, and what was seen are the keys of the results.
record Gathered (quota : ℕ) (a : Aggregate) : Type 0 where
  few : length a.out ≤ quota
  different : Different (keys_of a.out)
  seen : (x : List ℕ) → has x (keys_of a.out) ≡ has x a.seen

add_hit-Gathered :
    (quota : ℕ) (peer : List ℕ) (e : Entry) (a : Aggregate)
    → length a.out < quota
    → Gathered quota a
    → Gathered quota (add_hit peer e a)
add_hit-Gathered quota peer e a room g = go (has (dedup_key peer e) a.seen) refl
  where
    new : AggregatedEntry
    new = record { peer = peer; entry = e }

    go :
        (b : Bool)
        → has (dedup_key peer e) a.seen ≡ b
        → Gathered quota (
            if b then a else record { out = a.out ++ (new ∷ []); seen = dedup_key peer e ∷ a.seen })
    go true h = g
    go false h = record {
      few = omega (arith, room, length-append a.out (new ∷ []));
      different = rw (map-append a.out new) (
          append-Different (dedup_key peer e) (keys_of a.out) g.different
            (g.seen (dedup_key peer e) ∙ h));
      seen = λ x. rw (map-append a.out new) (
          has-append x (key_of new) (keys_of a.out)
          ∙ has-cons x (key_of new) (keys_of a.out) a.seen (g.seen x));
    }

add_hits-Gathered :
    (quota : ℕ) (peer : List ℕ) (hits : List Entry) (a : Aggregate)
    → Gathered quota a
    → Gathered quota (add_hits quota peer hits a)
unfolding add_hits
add_hits-Gathered quota peer [] a g = g
add_hits-Gathered quota peer (e ∷ hits) a g = elim (Bool-cases (leb quota (length a.out))) [
  | inl full ↦ simp full g
  | inr room ↦ simp room (
      add_hits-Gathered quota peer hits (add_hit peer e a)
        (add_hit-Gathered quota peer e a (ground (arith, room)) g))
]

module _ {S B : Type 0} (source : PeerSource S B) where
  answered-Gathered :
      (quota : ℕ) (peer : List ℕ) (a : Aggregate) (r : BackendResult (List Entry) × S)
      → Gathered quota a
      → Gathered quota (peer_answered source quota peer a r).0
  answered-Gathered quota peer a (status code, s) g = g
  answered-Gathered quota peer a (ok hits, s) g = add_hits-Gathered quota peer hits a g

  asked-Gathered :
      (quota : ℕ) (predicate peer : List ℕ) (a : Aggregate) (r : Option B × S)
      → Gathered quota a
      → Gathered quota (peer_asked source quota predicate peer a r).0
  asked-Gathered quota predicate peer a (none, s) g = g
  asked-Gathered quota predicate peer a (some backend, s) g =
      answered-Gathered quota peer a (source.query_at backend predicate s) g

  ask_peers-Gathered :
      (quota : ℕ) (predicate : List ℕ) (peers : List (List ℕ)) (a : Aggregate) (s : S)
      → Gathered quota a
      → Gathered quota (ask_peers source quota predicate peers a s).0
  unfolding ask_peers
  ask_peers-Gathered quota predicate [] a s g = g
  ask_peers-Gathered quota predicate (peer ∷ peers) a s g =
      let next = peer_asked source quota predicate peer a (source.backend_for peer s) in
      elim (Bool-cases (leb quota (length a.out))) [
        | inl full ↦ simp full g
        | inr room ↦ simp room (
            ask_peers-Gathered quota predicate peers next.0 next.1
              (asked-Gathered quota predicate peer a (source.backend_for peer s) g))
      ]

  aggregate-Gathered :
      (predicate : List ℕ) (quota : ℕ) (s : S)
      → (length (aggregate_query source predicate quota s).0 ≤ quota)
        × Different (keys_of (aggregate_query source predicate quota s).0)
  unfolding aggregate_query Different
  aggregate-Gathered predicate quota s =
      let names = source.peer_names s in
      let g =
        ask_peers-Gathered quota predicate names.0 no_results names.1
          (record { few = omega arith; different = tt; seen = λ x. refl }) in
      (g.few, g.different)

-- Whatever the peers answer, a query over all of them gives at most its quota of results, none of them
-- twice for one peer, and the folder of a predicate lists one entry for each result that the default
-- quota of 4096 lets through, under names that are all different.
pub aggregate_query-bounds :
    {S B : Type 0} (source : PeerSource S B) (predicate path : List ℕ) (quota : ℕ) (s : S)
    → is_top path ≡ false
    → classify_query path ≡ predicate_folder predicate
    → (length (aggregate_query source predicate quota s).0 ≤ quota)
      × Different (keys_of (aggregate_query source predicate quota s).0)
      × ((entries : List Entry) × ((router_read_dir source path s).0 ≡ ok entries)
          × Apart [] entries
          × (length entries ≡ length (aggregate_query source predicate default_query_quota s).0)
          × (length entries ≤ default_query_quota))
unfolding router_read_dir
aggregate_query-bounds source predicate path quota s top kind =
    let g = aggregate-Gathered source predicate quota s in
    let hits = (aggregate_query source predicate default_query_quota s).0 in
    let n = name_hits-Apart hits [] in
    (
      g.0,
      g.1,
      (
        name_hits hits [],
        simp (top, kind) refl,
        n.0,
        n.1,
        omega (arith, n.1, (aggregate-Gathered source predicate default_query_quota s).0),
      ),
    )
