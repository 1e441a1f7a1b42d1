-- ===== src/Fondamenta/Discovery/PathRouter.antt =====
-- src/fondamenta/discovery/PathRouter.h and PathRouter.cpp: the root lists the peers, a path below a peer
-- goes to its backend, and `/.query/<predicate>` lists a query over all peers.
use campiello.Common.{
  ℕ, suc, ◌+◌, ◌%◌, ◌^◌, Bool, ◌||◌, Option, none, some, List, [], ◌∷◌, ◌++◌, map, if◌then◌else◌,
  ◌==◌, leb, bytes_eq, is_empty, length, take, drop,
}
use campiello.Common.Int.{pos}
use campiello.Common.Text.{codes}
use campiello.Common.Table.{lookup, insert, remove}
use campiello.Wire.Listing.{Stat, Entry}
use campiello.Server.FileServer.Paths.{contains, slash, starts_with}
use campiello.Fondamenta.PeerBackend.{
  not_found_status, not_a_directory_status, is_a_directory_status, unsupported_status,
  bad_handle_status, transport_error_status, BackendResult, ok, status, PeerSource,
}
use campiello.Fondamenta.Discovery.QueryAggregator.{
  AggregatedEntry, default_query_quota, has, aggregate_query, query_leaf_name,
}

-- `FillDirStat` and `FillFileStat`: S_IFDIR | 0555 and S_IFREG | 0444.
abbrev pub synthetic_stat : ℕ → Stat
synthetic_stat mode = record { mode = mode; size = 0; mtime = pos 0; crtime = pos 0; inode = 0 }

abbrev pub dir_entry : List ℕ → Entry
dir_entry name = record { name = name; stat = synthetic_stat 0o040555; attrs = [] }

abbrev pub file_entry : List ℕ → Entry
file_entry name = record { name = name; stat = synthetic_stat 0o100444; attrs = [] }

abbrev pub query_dir : List ℕ
query_dir = codes ".query"

pub data QueryKind : Type 0 where
  no_query query_root : QueryKind
  predicate_folder : List ℕ → QueryKind
  result_leaf : List ℕ → List ℕ → QueryKind

abbrev pub up : Option ℕ → Option ℕ
up none = none
up (some i) = some (suc i)

-- `find('/')`
unfoldable pub find_first : ℕ → List ℕ → Option ℕ
find_first c [] = none
find_first c (x ∷ xs) = let rest = up (find_first c xs) in if x == c then some 0 else rest

-- What stands behind "/.query/".
abbrev pub query_below : List ℕ → Option ℕ → QueryKind
query_below rest none = if is_empty rest then no_query else predicate_folder rest
query_below rest (some i) =
    if is_empty (take i rest)
      || (is_empty (drop (suc i) rest) || contains slash (drop (suc i) rest))
    then no_query
    else result_leaf (take i rest) (drop (suc i) rest)

abbrev pub query_prefix : List ℕ
query_prefix = codes "/.query/"

-- `ClassifyQuery`
unfoldable pub classify_query : List ℕ → QueryKind
classify_query path =
    let rest = drop (length query_prefix) path in
    if bytes_eq path (codes "/.query")
    then query_root
    else if leb (length path) (length query_prefix)
    then no_query
    else if starts_with query_prefix path
    then query_below rest (find_first slash rest)
    else no_query

-- The path without a slash at its front.
abbrev pub unrooted : List ℕ → List ℕ
unrooted [] = []
unrooted (c ∷ path) = if c == slash then path else c ∷ path

abbrev pub split_at : List ℕ → Option ℕ → Option (List ℕ × List ℕ)
split_at names none = if is_empty names then none else some (names, codes "/")
split_at names (some i) = if i == 0 then none else some (take i names, drop i names)

unfoldable pub is_top : List ℕ → Bool
is_top path = is_empty path || bytes_eq path (codes "/")

-- `SplitPeer`
unfoldable pub split_peer : List ℕ → Option (List ℕ × List ℕ)
split_peer path =
    let names = unrooted path in
    if is_top path then none else split_at names (find_first slash names)

pub record OpenHandle (B : Type 0) : Type 0 where
  pub backend : B
  pub backend_handle : ℕ

pub record PathRouter (B : Type 0) : Type 0 where
  pub opens : List (ℕ × OpenHandle B)
  pub next_handle : ℕ

abbrev pub new_router : {B : Type 0} → PathRouter B
new_router = record { opens = []; next_handle = 1 }

-- `QueryLeafName` of each result, with the names used so far.
unfoldable pub name_hits : List AggregatedEntry → List (List ℕ) → List Entry
name_hits [] used = []
name_hits (a ∷ hits) used =
    let named = query_leaf_name a.peer a.entry.name used in
    record a.entry { name = named.0 } ∷ name_hits hits named.1

module _ {S B : Type 0} (source : PeerSource S B) where
  -- Behind `BackendFor`.
  abbrev pub with_backend :
      {A : Type 0} → (B → S → BackendResult A × S) → Option B × S → BackendResult A × S
  with_backend f (none, s) = (status transport_error_status, s)
  with_backend f (some backend, s) = f backend s

  -- Behind `PeerExists`: the peers of this moment.
  abbrev pub at_peer :
      {A : Type 0} → List ℕ → (S → BackendResult A × S) → List (List ℕ) × S → BackendResult A × S
  at_peer peer f (names, s) = if has peer names then f s else (status not_found_status, s)

  abbrev pub stat_split : Option (List ℕ × List ℕ) → S → BackendResult Entry × S
  stat_split none s = (status not_found_status, s)
  stat_split (some (peer, rest)) s =
      at_peer peer
        (λ t.
          if bytes_eq rest (codes "/")
          then (ok (dir_entry peer), t)
          else with_backend (λ b u. source.stat_at b rest u) (source.backend_for peer t))
        (source.peer_names s)

  abbrev pub stat_kind : List ℕ → S → QueryKind → BackendResult Entry × S
  stat_kind path s no_query = stat_split (split_peer path) s
  stat_kind path s query_root = (ok (dir_entry query_dir), s)
  stat_kind path s (predicate_folder predicate) = (ok (dir_entry predicate), s)
  stat_kind path s (result_leaf predicate leaf) = (ok (file_entry leaf), s)

  unfoldable pub router_stat : List ℕ → S → BackendResult Entry × S
  router_stat path s =
      if is_top path
      then (ok (dir_entry (codes "/")), s)
      else stat_kind path s (classify_query path)

  abbrev pub read_dir_split : Option (List ℕ × List ℕ) → S → BackendResult (List Entry) × S
  read_dir_split none s = (status not_found_status, s)
  read_dir_split (some (peer, rest)) s =
      at_peer peer
        (λ t. with_backend (λ b u. source.read_dir_at b rest u) (source.backend_for peer t))
        (source.peer_names s)

  abbrev pub read_dir_kind : List ℕ → S → QueryKind → BackendResult (List Entry) × S
  read_dir_kind path s no_query = read_dir_split (split_peer path) s
  read_dir_kind path s query_root = (ok [], s)
  read_dir_kind path s (predicate_folder predicate) =
      let r = aggregate_query source predicate default_query_quota s in (ok (name_hits r.0 []), r.1)
  read_dir_kind path s (result_leaf predicate leaf) = (status not_a_directory_status, s)

  unfoldable pub router_read_dir : List ℕ → S → BackendResult (List Entry) × S
  router_read_dir path s =
      let names = source.peer_names s in
      if is_top path
      then (ok (map dir_entry names.0 ++ (dir_entry query_dir ∷ [])), names.1)
      else read_dir_kind path s (classify_query path)

  -- Behind the backend's Open: a handle of the router for the backend's.
  abbrev pub router_opened :
      B → PathRouter B → BackendResult (ℕ × ℕ) × S → BackendResult (ℕ × ℕ) × PathRouter B × S
  router_opened backend r (status code, s) = (status code, r, s)
  router_opened backend r (ok (backend_handle, size), s) = (
    ok (r.next_handle, size),
    record {
      opens =
          insert r.next_handle (record { backend = backend; backend_handle = backend_handle })
            r.opens;
      next_handle = (r.next_handle + 1) % 2 ^ 64;
    },
    s,
  )

  abbrev pub open_backend :
      List ℕ → PathRouter B → Option B × S → BackendResult (ℕ × ℕ) × PathRouter B × S
  open_backend rest r (none, s) = (status transport_error_status, r, s)
  open_backend rest r (some backend, s) = router_opened backend r (source.open_at backend rest s)

  abbrev pub open_at_peer :
      List ℕ → List ℕ → PathRouter B → List (List ℕ) × S → BackendResult (ℕ × ℕ) × PathRouter B × S
  open_at_peer peer rest r (names, s) =
      if has peer names
      then open_backend rest r (source.backend_for peer s)
      else (status not_found_status, r, s)

  abbrev pub open_split :
      Option (List ℕ × List ℕ) → PathRouter B → S → BackendResult (ℕ × ℕ) × PathRouter B × S
  open_split none r s = (status is_a_directory_status, r, s)
  open_split (some (peer, rest)) r s =
      if bytes_eq rest (codes "/")
      then (status is_a_directory_status, r, s)
      else open_at_peer peer rest r (source.peer_names s)

  abbrev pub open_kind :
      List ℕ → PathRouter B → S → QueryKind → BackendResult (ℕ × ℕ) × PathRouter B × S
  open_kind path r s no_query = open_split (split_peer path) r s
  open_kind path r s query_root = (status is_a_directory_status, r, s)
  open_kind path r s (predicate_folder predicate) = (status is_a_directory_status, r, s)
  open_kind path r s (result_leaf predicate leaf) = (status unsupported_status, r, s)

  unfoldable pub router_open : List ℕ → PathRouter B → S → BackendResult (ℕ × ℕ) × PathRouter B × S
  router_open path r s = open_kind path r s (classify_query path)

  abbrev pub read_handle : ℕ → ℕ → S → Option (OpenHandle B) → BackendResult (List ℕ) × S
  read_handle offset length s none = (status bad_handle_status, s)
  read_handle offset length s (some h) = source.read_at h.backend h.backend_handle offset length s

  unfoldable pub router_read : ℕ → ℕ → ℕ → PathRouter B → S → BackendResult (List ℕ) × S
  router_read handle offset length r s = read_handle offset length s (lookup handle r.opens)

  abbrev pub close_handle :
      ℕ → PathRouter B → S → Option (OpenHandle B) → BackendResult (Unit {0}) × PathRouter B × S
  close_handle handle r s none = (status bad_handle_status, r, s)
  close_handle handle r s (some h) =
      let a = source.close_at h.backend h.backend_handle s in
      (a.0, record r { opens = remove handle r.opens }, a.1)

  unfoldable pub router_close : ℕ → PathRouter B → S → BackendResult (Unit {0}) × PathRouter B × S
  router_close handle r s = close_handle handle r s (lookup handle r.opens)
