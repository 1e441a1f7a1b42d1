-- ===== src/Tests/Discovery.antt =====
-- The discovery folder over two peers.
use campiello.Common.{
  ℕ, ◌+◌, ◌%◌, ◌^◌, ◌≤◌, ◌⊎◌, ◌≡◌, refl, ap, true, none, some, List, [], ◌∷◌, length, if◌then◌else◌,
  bytes_eq, arith,
}
use campiello.Common.Text.{codes}
use campiello.Common.Decimal.{to_string, digits_of}
use campiello.Common.Table.{lookup, insert}
use campiello.Wire.Fields.Post.{Held}
use campiello.Wire.Listing.{Entry}
use campiello.Server.FileServer.Paths.{contains, starts_with}
use campiello.Fondamenta.PeerBackend.{ok, status, bad_handle_status, PeerSource}
use campiello.Fondamenta.Discovery.QueryAggregator.{
  has, aggregate_query, default_query_quota, query_leaf_name, leaf_base, fresh_name, candidate,
}
use campiello.Fondamenta.Discovery.PathRouter.{
  PathRouter, new_router, split_peer, router_stat, router_read_dir, router_open, router_read,
  router_close, is_top, classify_query, find_first, dir_entry,
}
use campiello.Fondamenta.Discovery.Names.{Apart}
use campiello.Fondamenta.Discovery.Aggregation.{Different, keys_of, aggregate_query-bounds}
use campiello.Fondamenta.Discovery.Routing.{Delegates, Opens, router-Delegates}
use campiello.Fondamenta.Discovery.Handles.{
  RouterCall, opens_path, reads, closes, call_router, call_routers, router-handles,
}
use campiello.Trust.Store.{PinnedPeer}
use campiello.Fondamenta.Discovery.ConnectionManager.{
  PeerEndpoint, Ask, ask_all, manager_backend_for,
}
use campiello.Fondamenta.Discovery.Pinning.{EveryConn, Pinned, keys_named, manager_backend_for-keys}

-- Backend 1 is the den's, 2 the attic's; each finds the same file twice.
abbrev source : PeerSource (Unit {0}) ℕ
source = record {
  peer_names = λ s. (codes "den" ∷ codes "attic" ∷ [], s);
  backend_for = λ name s. (if bytes_eq name (codes "den") then some 1 else some 2, s);
  stat_at = λ b path s. (ok (dir_entry path), s);
  read_dir_at = λ b path s. (ok [], s);
  open_at = λ b path s. (ok (9, 12), s);
  read_at = λ b handle offset n s. (ok (b ∷ handle ∷ []), s);
  close_at = λ b handle s. (ok tt, s);
  query_at = λ b predicate s. (ok (dir_entry (codes "a/b") ∷ dir_entry (codes "a/b") ∷ []), s);
}

aggregate_query-bounds_example :
    (length (aggregate_query source (codes "x") 3 tt).0 ≤ 3)
    × Different (keys_of (aggregate_query source (codes "x") 3 tt).0)
    × ((entries : List Entry) × ((router_read_dir source (codes "/.query/x") tt).0 ≡ ok entries)
        × Apart [] entries
        × (length entries ≡ length (aggregate_query source (codes "x") default_query_quota tt).0)
        × (length entries ≤ default_query_quota))
unfolding is_top classify_query find_first starts_with
aggregate_query-bounds_example =
    aggregate_query-bounds source (codes "x") (codes "/.query/x") 3 tt refl refl

router-Delegates_example :
    Delegates source
      (codes "den")
      tt
      (λ b t. source.stat_at b (codes "/a") t)
      (router_stat source (codes "/den/a") tt)
    × Delegates source
        (codes "den")
        tt
        (λ b t. source.read_dir_at b (codes "/a") t)
        (router_read_dir source (codes "/den/a") tt)
    × Opens source
        (codes "den")
        tt
        (codes "/a")
        new_router
        (router_open source (codes "/den/a") new_router tt)
unfolding contains
router-Delegates_example =
    router-Delegates source (codes "den") (codes "a") new_router tt refl refl
      (λ e. absurd (omega (arith, ap length e))) refl

-- The router behind an Open, a Read and the Close of it.
abbrev calls : List RouterCall
calls = opens_path (codes "/attic/b") ∷ reads 1 0 4 ∷ closes 1 ∷ []

abbrev router : PathRouter ℕ
router = (call_routers source calls new_router tt).0

abbrev one_open : PathRouter ℕ
one_open = record {
  opens = insert router.next_handle (record { backend = 1; backend_handle = 9 }) router.opens;
  next_handle = (router.next_handle + 1) % 2 ^ 64;
}

router-handles_example :
    (router_open source (codes "/den/a") router tt ≡ (ok (router.next_handle, 12), one_open, tt))
    × (lookup router.next_handle router.opens ≡ none)
    × (router_read source router.next_handle 4 2 one_open tt ≡ source.read_at 1 9 4 2 tt)
    × ((router_close source router.next_handle one_open tt).0 ≡ (source.close_at 1 9 tt).0)
    × ((router_close source router.next_handle one_open tt).2 ≡ (source.close_at 1 9 tt).1)
    × (router_read source router.next_handle 4 2
          (router_close source router.next_handle one_open tt).1
          tt
        ≡ (status bad_handle_status, tt))
    × (lookup 7 (router_close source router.next_handle one_open tt).1.opens
        ≡ lookup 7 router.opens)
unfolding contains has router_open router_close classify_query split_peer is_top find_first
    starts_with call_router call_routers lookup
router-handles_example =
    router-handles source calls tt (codes "den") (codes "a") 1 9 12 4 2 7 router tt tt tt tt
      (omega arith) refl refl refl (λ e. absurd (omega (arith, ap length e))) refl refl refl refl
      (omega arith)

-- A connection is its peer's key.
abbrev den : PeerEndpoint
den = record { name = codes "den"; address = codes "10.0.0.2"; port = 8 }

abbrev ask_den : ℕ → Ask ℕ
ask_den key = record {
  name = codes "den";
  endpoints = den ∷ [];
  attempt = record { link = some key; greets = true };
}

abbrev key_of : ℕ → List ℕ
key_of key = key ∷ []

abbrev known : List PinnedPeer
known = record { fingerprint = 8 ∷ []; name = codes "den" } ∷ []

manager_backend_for-keys_example :
    let a =
      manager_backend_for key_of
        (ask_den 9)
        (ask_all key_of (ask_den 7 ∷ []) (record { trust = known; conns = [] })).1 in
    EveryConn (Pinned key_of a.1.trust) a.1.conns
    × Held (Pinned key_of a.1.trust) a.0
    × ((keys_named (codes "den") known ≡ [])
        ⊎ (keys_named (codes "den") a.1.trust ≡ keys_named (codes "den") known))
manager_backend_for-keys_example =
    manager_backend_for-keys key_of (codes "den") known (ask_den 7 ∷ []) (ask_den 9)

-- Two results of one name get different names.
second_name :
    (query_leaf_name (codes "den") (codes "a/b") (codes "den - a-b" ∷ [])).0 ≡ codes "den - a-b (2)"
unfolding query_leaf_name leaf_base fresh_name candidate has to_string digits_of
second_name = refl
