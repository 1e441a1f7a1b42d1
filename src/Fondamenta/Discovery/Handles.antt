-- ===== src/Fondamenta/Discovery/Handles.antt =====
-- The handles of the router: from Open to Close, behind any calls of it.
use campiello.Common.{
  ℕ, suc, ◌+◌, ◌%◌, ◌^◌, ◌<◌, ◌≤◌, ◌≡◌, ◌≢◌, refl, ap, ◌∙◌, subst, Bool, true, false, Option, none,
  some, List, [], ◌∷◌, length, bytes_eq, is_empty, if◌then◌else◌, All, arith,
}
use campiello.Common.Text.{codes}
use campiello.Common.Table.{
  lookup, insert, lookup-fresh, lookup-insert, lookup-remove, lookup-insert_removed, All-remove,
  All-weaken,
}
use campiello.Server.FileServer.Paths.{contains, slash}
use campiello.Fondamenta.PeerBackend.{BackendResult, ok, status, bad_handle_status, PeerSource}
use campiello.Fondamenta.Discovery.QueryAggregator.{has}
use campiello.Fondamenta.Discovery.PathRouter.{
  query_dir, classify_query, QueryKind, no_query, query_root, predicate_folder, result_leaf,
  split_peer, OpenHandle, PathRouter, new_router, open_backend, open_at_peer, open_kind, open_split,
  router_open, router_opened, router_read, read_handle, router_close, close_handle,
}
use campiello.Fondamenta.Discovery.Routing.{below, opens-below}

-- A call of the router that concerns handles.
pub data RouterCall : Type 0 where
  opens_path : List ℕ → RouterCall
  reads : ℕ → ℕ → ℕ → RouterCall
  closes : ℕ → RouterCall

module _ {S B : Type 0} (source : PeerSource S B) where
  unfoldable pub call_router : RouterCall → PathRouter B → S → PathRouter B × S
  call_router (opens_path path) r s = let a = router_open source path r s in (a.1, a.2)
  call_router (reads handle offset n) r s = (r, (router_read source handle offset n r s).1)
  call_router (closes handle) r s = let a = router_close source handle r s in (a.1, a.2)

  unfoldable pub call_routers : List RouterCall → PathRouter B → S → PathRouter B × S
  call_routers [] r s = (r, s)
  call_routers (c ∷ calls) r s = let a = call_router c r s in call_routers calls a.0 a.1

  -- Every handle is below the next one, which is at most a bound.
  abbrev IsFresh : ℕ → PathRouter B → Type 0
  IsFresh k r = All (λ (e : ℕ × OpenHandle B). e.0 < r.next_handle) r.opens × (r.next_handle ≤ k)

  IsFresh-later : (k : ℕ) (r : PathRouter B) → IsFresh k r → IsFresh (suc k) r
  IsFresh-later k r (h, b) = (h, omega arith)

  router_opened-IsFresh :
      (k : ℕ) (backend : B) (r : PathRouter B) (a : BackendResult (ℕ × ℕ) × S)
      → suc k < 2 ^ 64
      → IsFresh k r
      → IsFresh (suc k) (router_opened source backend r a).1
  router_opened-IsFresh k backend r (status code, s) n h = IsFresh-later k r h
  router_opened-IsFresh k backend r (ok (backend_handle, size), s) n (h, b) =
      let next : (r.next_handle + 1) % 2 ^ 64 ≡ r.next_handle + 1 = omega arith in
      rw next (
        (
          omega arith,
          All-remove _ r.next_handle r.opens (All-weaken _ _ r.opens (λ e l. omega (arith, l)) h),
        ),
        omega arith,
      )

  open_backend-IsFresh :
      (k : ℕ) (rest : List ℕ) (r : PathRouter B) (o : Option B × S)
      → suc k < 2 ^ 64
      → IsFresh k r
      → IsFresh (suc k) (open_backend source rest r o).1
  open_backend-IsFresh k rest r (none, s) n h = IsFresh-later k r h
  open_backend-IsFresh k rest r (some b, s) n h =
      router_opened-IsFresh k b r (source.open_at b rest s) n h

  if-IsFresh :
      (k : ℕ) (b : Bool) (x y : BackendResult (ℕ × ℕ) × PathRouter B × S)
      → IsFresh k x.1
      → IsFresh k y.1
      → IsFresh k (if b then x else y).1
  if-IsFresh k true x y h i = h
  if-IsFresh k false x y h i = i

  open_split-IsFresh :
      (k : ℕ) (o : Option (List ℕ × List ℕ)) (r : PathRouter B) (s : S)
      → suc k < 2 ^ 64
      → IsFresh k r
      → IsFresh (suc k) (open_split source o r s).1
  open_split-IsFresh k none r s n h = IsFresh-later k r h
  open_split-IsFresh k (some (peer, rest)) r s n h =
      let later = IsFresh-later k r h in
      let names = source.peer_names s in
      if-IsFresh (suc k) (bytes_eq rest (codes "/")) _ (open_at_peer source peer rest r names) later
        (if-IsFresh (suc k) (has peer names.0)
          (open_backend source rest r (source.backend_for peer names.1)) _
          (open_backend-IsFresh k rest r (source.backend_for peer names.1) n h) later)

  open_kind-IsFresh :
      (k : ℕ) (path : List ℕ) (r : PathRouter B) (s : S) (kind : QueryKind)
      → suc k < 2 ^ 64
      → IsFresh k r
      → IsFresh (suc k) (open_kind source path r s kind).1
  open_kind-IsFresh k path r s no_query n h = open_split-IsFresh k (split_peer path) r s n h
  open_kind-IsFresh k path r s query_root n h = IsFresh-later k r h
  open_kind-IsFresh k path r s (predicate_folder predicate) n h = IsFresh-later k r h
  open_kind-IsFresh k path r s (result_leaf predicate leaf) n h = IsFresh-later k r h

  close_handle-IsFresh :
      (k handle : ℕ) (r : PathRouter B) (s : S) (o : Option (OpenHandle B))
      → IsFresh k r
      → IsFresh (suc k) (close_handle source handle r s o).1
  close_handle-IsFresh k handle r s none h = IsFresh-later k r h
  close_handle-IsFresh k handle r s (some e) (h, b) = (All-remove _ handle r.opens h, omega arith)

  call_router-IsFresh :
      (k : ℕ) (c : RouterCall) (r : PathRouter B) (s : S)
      → suc k < 2 ^ 64
      → IsFresh k r
      → IsFresh (suc k) (call_router c r s).0
  unfolding call_router router_open router_close
  call_router-IsFresh k (opens_path path) r s n h =
      open_kind-IsFresh k path r s (classify_query path) n h
  call_router-IsFresh k (reads handle offset length) r s n h = IsFresh-later k r h
  call_router-IsFresh k (closes handle) r s n h =
      close_handle-IsFresh k handle r s (lookup handle r.opens) h

  call_routers-IsFresh :
      (k : ℕ) (calls : List RouterCall) (r : PathRouter B) (s : S)
      → k + length calls < 2 ^ 64
      → IsFresh k r
      → IsFresh (k + length calls) (call_routers calls r s).0
  unfolding call_routers
  call_routers-IsFresh k [] r s n (h, b) = (h, omega arith)
  call_routers-IsFresh k (c ∷ calls) r s n h =
      let a = call_router c r s in
      let rest =
        call_routers-IsFresh (suc k) calls a.0 a.1 (omega (arith, n))
          (call_router-IsFresh k c r s (omega (arith, n)) h) in
      (rest.0, omega (arith, rest.1))

  opened-handles :
      (backend : B) (r : PathRouter B) (backend_handle offset n other : ℕ) (t : S)
      → other ≢ r.next_handle
      → let handle = r.next_handle in
        let opened : PathRouter B = record {
          opens =
              insert handle (record { backend = backend; backend_handle = backend_handle }) r.opens;
          next_handle = (handle + 1) % 2 ^ 64;
        } in
        let closed = router_close source handle opened t in
        (router_read source handle offset n opened t
          ≡ source.read_at backend backend_handle offset n t)
        × (closed.0 ≡ (source.close_at backend backend_handle t).0)
        × (closed.2 ≡ (source.close_at backend backend_handle t).1)
        × (router_read source handle offset n closed.1 t ≡ (status bad_handle_status, t))
        × (lookup other closed.1.opens ≡ lookup other r.opens)
  unfolding router_read router_close
  opened-handles backend r backend_handle offset n other t apart =
      let handle = r.next_handle in
      let here : OpenHandle B = record { backend = backend; backend_handle = backend_handle } in
      let opened : PathRouter B = record {
        opens = insert handle here r.opens;
        next_handle = (handle + 1) % 2 ^ 64;
      } in
      let found = lookup-insert handle here r.opens in
      let close = ap (close_handle source handle opened t) found in
      (
        ap (read_handle source offset n t) found,
        ap (λ c. c.0) close,
        ap (λ c. c.2) close,
        ap (λ c. router_read source handle offset n c.1 t) close
            ∙ ap (read_handle source offset n t) (lookup-remove handle opened.opens),
        ap (λ c. lookup other c.1.opens) close
            ∙ lookup-insert_removed other handle here r.opens apart,
      )

  -- On a router that any calls of Open, Read and Close, fewer than 2^64 - 1, have brought about: where a peer
  -- that is named, whose name is neither empty nor `.query` and has no slash, has a backend, and this opens
  -- the non-empty rest of a path below the peer, Open gives a handle that was not in use, with the size that the backend tells; Read and Close by it call this backend with its own
  -- handle, whatever the backends number theirs. After Close it is a bad handle, and every other handle is
  -- what it was before Open.
  pub router-handles :
      (calls : List RouterCall) (start : S) (peer rest : List ℕ) (backend : B)
      (backend_handle size offset n other : ℕ) (r : PathRouter B) (s offered opened_at t : S)
      → suc (length calls) < 2 ^ 64
      → call_routers calls new_router start ≡ (r, s)
      → contains slash peer ≡ false
      → is_empty peer ≡ false
      → peer ≢ query_dir
      → is_empty rest ≡ false
      → has peer (source.peer_names s).0 ≡ true
      → source.backend_for peer (source.peer_names s).1 ≡ (some backend, offered)
      → source.open_at backend (slash ∷ rest) offered ≡ (ok (backend_handle, size), opened_at)
      → other ≢ r.next_handle
      → let handle = r.next_handle in
        let opened : PathRouter B = record {
          opens =
              insert handle (record { backend = backend; backend_handle = backend_handle }) r.opens;
          next_handle = (handle + 1) % 2 ^ 64;
        } in
        let closed = router_close source handle opened t in
        (router_open source (below peer rest) r s ≡ (ok (handle, size), opened, opened_at))
        × (lookup handle r.opens ≡ none)
        × (router_read source handle offset n opened t
            ≡ source.read_at backend backend_handle offset n t)
        × (closed.0 ≡ (source.close_at backend backend_handle t).0)
        × (closed.2 ≡ (source.close_at backend backend_handle t).1)
        × (router_read source handle offset n closed.1 t ≡ (status bad_handle_status, t))
        × (lookup other closed.1.opens ≡ lookup other r.opens)
  router-handles calls start peer rest backend backend_handle size offset n other r s offered
        opened_at t few reached h i j k names gives opens apart =
      let fresh =
        subst (λ (a : PathRouter B × S). IsFresh (1 + length calls) a.0) reached
          (call_routers-IsFresh 1 calls new_router start (omega (arith, few)) (tt, omega arith)) in
      let handles = opened-handles backend r backend_handle offset n other t apart in
      let open_is : router_open source (below peer rest) r s ≡ (
        ok (r.next_handle, size),
        record {
          opens =
              insert r.next_handle (record { backend = backend; backend_handle = backend_handle })
                r.opens;
          next_handle = (r.next_handle + 1) % 2 ^ 64;
        },
        opened_at,
      ) =
        opens-below source peer rest r s h i j k ∙ rw (names, gives, opens) refl in
      (
        open_is,
        lookup-fresh r.next_handle r.opens fresh.0,
        handles.0,
        handles.1,
        handles.2,
        handles.3,
        handles.4,
      )
