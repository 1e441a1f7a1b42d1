-- ===== src/Fondamenta/Discovery/QueryAggregator.antt =====
-- src/fondamenta/discovery/QueryAggregator.cpp: one query over all peers, and the names of its results.
use campiello.Common.{
  ℕ, zero, suc, Bool, true, false, Option, none, some, List, [], ◌∷◌, ◌++◌, map, if◌then◌else◌,
  ◌==◌, leb, bytes_eq, length,
}
use campiello.Common.Text.{codes}
use campiello.Common.Decimal.{to_string}
use campiello.Wire.Listing.{Entry}
use campiello.Fondamenta.PeerBackend.{BackendResult, ok, status, PeerSource}

pub record AggregatedEntry : Type 0 where
  pub peer : List ℕ
  pub entry : Entry

abbrev pub default_query_quota : ℕ
default_query_quota = 4096

-- A set of byte strings: membership.
unfoldable pub has : List ℕ → List (List ℕ) → Bool
has x [] = false
has x (y ∷ ys) = if bytes_eq x y then true else has x ys

-- The key under which a result is known: the peer, a zero byte and the path.
unfoldable pub dedup_key : List ℕ → Entry → List ℕ
dedup_key peer e = peer ++ (0 ∷ e.name)

-- `out` and `seen`.
pub record Aggregate : Type 0 where
  pub out : List AggregatedEntry
  pub seen : List (List ℕ)

abbrev pub no_results : Aggregate
no_results = record { out = []; seen = [] }

abbrev pub add_hit : List ℕ → Entry → Aggregate → Aggregate
add_hit peer e a = if has (dedup_key peer e) a.seen then a else record {
  out = a.out ++ (record { peer = peer; entry = e } ∷ []);
  seen = dedup_key peer e ∷ a.seen;
}

-- The loop over the results of one peer.
unfoldable pub add_hits : ℕ → List ℕ → List Entry → Aggregate → Aggregate
add_hits quota peer [] a = a
add_hits quota peer (e ∷ hits) a =
    let rest = add_hits quota peer hits (add_hit peer e a) in
    if leb quota (length a.out) then a else rest

module _ {S B : Type 0} (source : PeerSource S B) where
  abbrev pub peer_answered : ℕ → List ℕ → Aggregate → BackendResult (List Entry) × S → Aggregate × S
  peer_answered quota peer a (status code, s) = (a, s)
  peer_answered quota peer a (ok hits, s) = (add_hits quota peer hits a, s)

  abbrev pub peer_asked : ℕ → List ℕ → List ℕ → Aggregate → Option B × S → Aggregate × S
  peer_asked quota predicate peer a (none, s) = (a, s)
  peer_asked quota predicate peer a (some backend, s) =
      peer_answered quota peer a (source.query_at backend predicate s)

  -- The loop over the peers.
  unfoldable pub ask_peers : ℕ → List ℕ → List (List ℕ) → Aggregate → S → Aggregate × S
  ask_peers quota predicate [] a s = (a, s)
  ask_peers quota predicate (peer ∷ peers) a s =
      let next = peer_asked quota predicate peer a (source.backend_for peer s) in
      let rest = ask_peers quota predicate peers next.0 next.1 in
      if leb quota (length a.out) then (a, s) else rest

  -- `AggregateQuery`
  unfoldable pub aggregate_query : List ℕ → ℕ → S → List AggregatedEntry × S
  aggregate_query predicate quota s =
      let names = source.peer_names s in
      let r = ask_peers quota predicate names.0 no_results names.1 in (r.0.out, r.1)

-- '/' becomes '-'.
abbrev pub flat_char : ℕ → ℕ
flat_char c = if c == 0x2f then 0x2d else c

unfoldable pub leaf_base : List ℕ → List ℕ → List ℕ
leaf_base peer path = peer ++ (codes " - " ++ map flat_char path)

-- The base, and behind it `base (2)`, `base (3)` and so on.
unfoldable pub candidate : List ℕ → ℕ → List ℕ
candidate base zero = base
candidate base (suc i) = base ++ (codes " (" ++ (to_string (suc (suc i)) ++ codes ")"))

-- `while (true)` from the candidate `i` on; `fuel` rounds at most.
unfoldable pub fresh_name : ℕ → ℕ → List ℕ → List (List ℕ) → Option (List ℕ)
fresh_name zero i base used = none
fresh_name (suc fuel) i base used =
    let rest = fresh_name fuel (suc i) base used in
    if has (candidate base i) used then rest else some (candidate base i)

-- `QueryLeafName`; a name is left over by then, so the base that stands for a missing one is not met.
abbrev pub or_base : List ℕ → Option (List ℕ) → List ℕ
or_base base none = base
or_base base (some name) = name

unfoldable pub query_leaf_name : List ℕ → List ℕ → List (List ℕ) → List ℕ × List (List ℕ)
query_leaf_name peer path used =
    let base = leaf_base peer path in
    let name = or_base base (fresh_name (suc (length used)) 0 base used) in (name, name ∷ used)
