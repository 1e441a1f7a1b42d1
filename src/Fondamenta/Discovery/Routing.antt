-- ===== src/Fondamenta/Discovery/Routing.antt =====
-- A path below a peer goes to the peer's backend, and a handle to the backend that opened it.
use campiello.Common.{
  ◌+◌, ◌%◌, ◌^◌, subst, ℕ, suc, ◌≡◌, ◌≢◌, refl, sym, ap, ◌∙◌, Bool, true, false, Option, none, some,
  List, [], ◌∷◌, ◌++◌, length, take, drop, take-append, drop-append, leb, bytes_eq, bytes_eq_sound,
  is_empty, if◌then◌else◌, ◌==◌, arith,
}
use campiello.Common.Text.{codes}
use campiello.Common.Table.{insert}
use campiello.Server.FileServer.Paths.{contains, slash, starts_with}
use campiello.Server.FileServer.Within.{starts_with-split}
use campiello.Fondamenta.PeerBackend.{
  BackendResult, BackendStatus, not_found_status, transport_error_status, ok, status, PeerSource,
}
use campiello.Fondamenta.Discovery.QueryAggregator.{has}
use campiello.Fondamenta.Discovery.PathRouter.{
  open_backend, query_dir, no_query, find_first, up, query_prefix, classify_query, split_at, is_top,
  split_peer, PathRouter, with_backend, at_peer, stat_kind, stat_split, router_stat, read_dir_kind,
  read_dir_split, router_read_dir, open_at_peer, open_kind, open_split, router_open, router_opened,
}

find_first-slash :
    (name rest : List ℕ)
    → contains slash name ≡ false
    → find_first slash (name ++ (slash ∷ rest)) ≡ some (length name)
unfolding find_first contains
find_first-slash [] rest h = refl
find_first-slash (c ∷ name) rest h =
    let other : (c == slash) ≡ false = ground (arith, h) in
    let more : contains slash name ≡ false = ground (arith, h) in
    simp other (ap up (find_first-slash name rest more))

-- The path of `rest` below a peer.
abbrev pub below : List ℕ → List ℕ → List ℕ
below peer rest = slash ∷ (peer ++ (slash ∷ rest))

split_at-some :
    (i : ℕ) (names : List ℕ)
    → split_at names (some (suc i)) ≡ some (take (suc i) names, drop (suc i) names)
split_at-some i names = let inside : (suc i == 0) ≡ false = ground arith in simp inside refl

split_peer-below :
    (peer rest : List ℕ)
    → contains slash peer ≡ false
    → is_empty peer ≡ false
    → split_peer (below peer rest) ≡ some (peer, slash ∷ rest)
unfolding split_peer is_top
split_peer-below [] rest h n = cc
split_peer-below (c ∷ peer) rest h n =
    ap (split_at (c ∷ (peer ++ (slash ∷ rest)))) (find_first-slash (c ∷ peer) rest h)
    ∙ split_at-some (length peer) (c ∷ (peer ++ (slash ∷ rest)))
    ∙ ap (λ (l : List ℕ × List ℕ). some l)
        (ap (λ l. (l, drop (length peer) (peer ++ (slash ∷ rest))))
            (ap (λ l. c ∷ l) (take-append peer (slash ∷ rest)))
          ∙ ap (λ l. (c ∷ peer, l)) (drop-append peer (slash ∷ rest)))

query_root-split : split_peer (codes "/.query") ≡ some (query_dir, codes "/")
unfolding split_peer is_top find_first
query_root-split = refl

-- Only the paths below `.query` are of a query.
first : (p q r t : List ℕ) → ◌≡◌ {A = Option (List ℕ × List ℕ)} (some (p, r)) (some (q, t)) → p ≡ q
first p q r t e = cc

classify-below :
    (peer rest : List ℕ)
    → contains slash peer ≡ false
    → is_empty peer ≡ false
    → peer ≢ query_dir
    → classify_query (below peer rest) ≡ no_query
unfolding classify_query contains
classify-below peer rest h n other =
    let split = split_peer-below peer rest h n in
    let root : bytes_eq (below peer rest) (codes "/.query") ≡ false =
      not-true (bytes_eq (below peer rest) (codes "/.query")) (λ e. other (
        first peer query_dir (slash ∷ rest) _ (
          sym split
          ∙ ap split_peer (bytes_eq_sound (below peer rest) (codes "/.query") e)
          ∙ query_root-split))) in
    let prefix : starts_with query_prefix (below peer rest) ≡ false =
      not-true (starts_with query_prefix (below peer rest)) (λ e. other (
        first peer query_dir (slash ∷ rest) _ (
          sym split
          ∙ ap split_peer (starts_with-split query_prefix (below peer rest) e)
          ∙ split_peer-below query_dir (drop 8 (below peer rest)) refl refl))) in
    simp (root, prefix) (both-no (leb (length (below peer rest)) (length query_prefix)))
  where
    not-true : (b : Bool) → (b ≡ true → ⊥) → b ≡ false
    not-true true k = absurd (k refl)
    not-true false k = refl

    both-no : (b : Bool) → (if b then no_query else no_query) ≡ no_query
    both-no true = refl
    both-no false = refl

module _ {S B : Type 0} (source : PeerSource S B) (peer : List ℕ) (s : S) where
  -- What the source names, and the backend that it gives for the peer behind that.
  abbrev pub named : List (List ℕ) × S
  named = source.peer_names s

  abbrev pub offered : Option B × S
  offered = source.backend_for peer named.1

  -- How a call for a peer ends: the peer is not named, it has no backend, or the backend answers.
  pub data Delegates {A : Type 0} (ask : B → S → BackendResult A × S)
      : BackendResult A × S → Type 0 where
    unnamed : has peer named.0 ≡ false → Delegates ask (status not_found_status, named.1)
    unreachable :
        has peer named.0 ≡ true
        → offered.0 ≡ none
        → Delegates ask (status transport_error_status, offered.1)
    delegated :
        (b : B) → has peer named.0 ≡ true → offered.0 ≡ some b → Delegates ask (ask b offered.1)

  -- The same for Open, with the router behind it: a handle of its own stands for the backend's.
  pub data Opens (rest : List ℕ) (r : PathRouter B)
      : BackendResult (ℕ × ℕ) × PathRouter B × S → Type 0 where
    nobody : has peer named.0 ≡ false → Opens rest r (status not_found_status, r, named.1)
    silent :
        has peer named.0 ≡ true
        → offered.0 ≡ none
        → Opens rest r (status transport_error_status, r, offered.1)
    declined :
        (b : B) (code : BackendStatus) (t : S)
        → has peer named.0 ≡ true
        → offered.0 ≡ some b
        → source.open_at b rest offered.1 ≡ (status code, t)
        → Opens rest r (status code, r, t)
    given :
        (b : B) (backend_handle size : ℕ) (t : S)
        → has peer named.0 ≡ true
        → offered.0 ≡ some b
        → source.open_at b rest offered.1 ≡ (ok (backend_handle, size), t)
        → Opens rest r (
          ok (r.next_handle, size),
          record {
            opens =
                insert r.next_handle
                  (record { backend = b; backend_handle = backend_handle })
                  r.opens;
            next_handle = (r.next_handle + 1) % 2 ^ 64;
          },
          t,
        )

  at_peer-Delegates :
      {A : Type 0} (ask : B → S → BackendResult A × S)
      → Delegates ask
          (at_peer source peer (λ t. with_backend source ask (source.backend_for peer t)) named)
  at_peer-Delegates ask = go (has peer named.0) refl offered.0 refl
    where
      go :
          (b : Bool)
          → has peer named.0 ≡ b
          → (o : Option B) → offered.0 ≡ o
          → Delegates ask (
              if b
              then with_backend source ask (o, offered.1)
              else (status not_found_status, named.1))
      go false h o e = unnamed h
      go true h none e = unreachable h e
      go true h (some b) e = delegated b h e

  open_at_peer-Opens :
      (rest : List ℕ) (r : PathRouter B) → Opens rest r (open_at_peer source peer rest r named)
  open_at_peer-Opens rest r = go (has peer named.0) refl offered.0 refl
    where
      answered :
          (b : B) (a : BackendResult (ℕ × ℕ) × S)
          → has peer named.0 ≡ true
          → offered.0 ≡ some b
          → source.open_at b rest offered.1 ≡ a
          → Opens rest r (router_opened source b r a)
      answered b (status code, t) h e d = declined b code t h e d
      answered b (ok (backend_handle, size), t) h e d = given b backend_handle size t h e d

      go :
          (b : Bool)
          → has peer named.0 ≡ b
          → (o : Option B) → offered.0 ≡ o
          → Opens rest r (
              if b
              then open_backend source rest r (o, offered.1)
              else (status not_found_status, r, named.1))
      go false h o e = nobody h
      go true h none e = silent h e
      go true h (some b) e = answered b (source.open_at b rest offered.1) h e refl

pub opens-below :
    {S B : Type 0} (source : PeerSource S B) (peer rest : List ℕ) (r : PathRouter B) (s : S)
    → contains slash peer ≡ false
    → is_empty peer ≡ false
    → peer ≢ query_dir
    → is_empty rest ≡ false
    → router_open source (below peer rest) r s
      ≡ open_at_peer source peer (slash ∷ rest) r (source.peer_names s)
unfolding router_open
opens-below source peer [] r s h n other full = cc
opens-below source peer (c ∷ rest) r s h n other full =
    ap (open_kind source (below peer (c ∷ rest)) r s) (classify-below peer (c ∷ rest) h n other)
    ∙ ap (λ o. open_split source o r s) (split_peer-below peer (c ∷ rest) h n)

-- A path `/<peer>/<rest>`, of a peer with a name that is neither empty nor `.query` and has no slash, is
-- served by the backend that the source gives for the peer at that moment, with the path `/<rest>`:
-- Stat, ReadDir and Open, where the rest is not empty. A peer that the source does not name is not
-- found, and one without a backend is a transport error, each without another call of the source. An
-- opened file gets the router's next handle.
pub router-Delegates :
    {S B : Type 0} (source : PeerSource S B) (peer rest : List ℕ) (r : PathRouter B) (s : S)
    → contains slash peer ≡ false
    → is_empty peer ≡ false
    → peer ≢ query_dir
    → is_empty rest ≡ false
    → let path = below peer rest in
      Delegates source peer s (λ b t. source.stat_at b (slash ∷ rest) t) (router_stat source path s)
      × Delegates source peer s
          (λ b t. source.read_dir_at b (slash ∷ rest) t)
          (router_read_dir source path s)
      × Opens source peer s (slash ∷ rest) r (router_open source path r s)
unfolding router_stat router_read_dir router_open is_top
router-Delegates source peer [] r s h n other full = cc
router-Delegates source [] (c ∷ rest) r s h n other full = cc
router-Delegates source (p ∷ peer) (c ∷ rest) r s h n other full =
    let kind = classify-below (p ∷ peer) (c ∷ rest) h n other in
    let split = split_peer-below (p ∷ peer) (c ∷ rest) h n in
    let path = below (p ∷ peer) (c ∷ rest) in
    (
      subst (λ a. Delegates source (p ∷ peer) s (λ b t. source.stat_at b (slash ∷ (c ∷ rest)) t) a)
          (sym (ap (stat_kind source path s) kind ∙ ap (λ o. stat_split source o s) split))
          (at_peer-Delegates source (p ∷ peer) s (λ b t. source.stat_at b (slash ∷ (c ∷ rest)) t)),
      subst
          (λ a.
            Delegates source (p ∷ peer) s (λ b t. source.read_dir_at b (slash ∷ (c ∷ rest)) t) a)
          (sym (ap (read_dir_kind source path s) kind ∙ ap (λ o. read_dir_split source o s) split))
          (at_peer-Delegates source (p ∷ peer) s
            (λ b t. source.read_dir_at b (slash ∷ (c ∷ rest)) t)),
      subst (λ a. Opens source (p ∷ peer) s (slash ∷ (c ∷ rest)) r a)
          (sym (opens-below source (p ∷ peer) (c ∷ rest) r s h n other refl))
          (open_at_peer-Opens source (p ∷ peer) s (slash ∷ (c ∷ rest)) r),
    )
