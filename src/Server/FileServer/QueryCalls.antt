-- ===== src/Server/FileServer/QueryCalls.antt =====
-- The requests on live queries, on the calls that they make, their replies and the server behind them.
use campiello.Common.{
  ℕ, ◌≡◌, refl, inl, true, Option, none, some, List, [], ◌∷◌, leb, length, drop, All,
}
use campiello.Common.Table.{lookup}
use campiello.Wire.MessageType
use campiello.Wire.Error.{internal, invalid_request, unsupported}
use campiello.Wire.Fields.Post.{Held}
use campiello.Wire.Listing.{Entry}
use campiello.Wire.Query.{
  decode_query_open_request, decode_query_close_request, make_query_result_reply,
  make_query_close_reply,
}
use campiello.Server.Posix.{Volume, no_root, no_queries, volume, done, call, delete_query, ◌>>=◌}
use campiello.Server.Posix.Every.{Every, Every-bind, Every-if}
use campiello.Server.FileServer.Paths.{starts_with}
use campiello.Server.FileServer.Attrs.{build_entry}
use campiello.Server.FileServer.Files.{FileServer, QuerySession}
use campiello.Server.FileServer.Tree.{push_entry}
use campiello.Server.FileServer.Queries.{
  inside, query_result_quota, match_entry, matches, close_found, close_query_session, keep_query,
  settle_query, query_fetched, query_made, query_on, query_open_decoded, handle_query_open,
  query_close_decoded, handle_query_close,
}
use campiello.Server.FileServer.Allowed.{IsServer, After, at}
use campiello.Server.FileServer.Within.{within-inside}
use campiello.Server.FileServer.Resolving.{AnyResult, build_entry-Makes}
use campiello.Server.FileServer.TreeCalls.{error-IsReply}
use campiello.Server.FileServer.FileCalls.{Settled, Goes, unchanged}

module _ (Canonical : List ℕ → Type 0) (s : FileServer) (h : IsServer s) where
  inside_entry-Goes :
      (real : List ℕ)
      → Canonical real
      → starts_with (inside s.root) real ≡ true
      → Goes Canonical s h AnyResult (build_entry real (drop (length (inside s.root)) real))
  inside_entry-Goes real c e =
      build_entry-Makes Canonical s.root s.writable s.open_files real _
        (at real c, within-inside s.root real e)

  match_entry-Goes :
      (ref : Option (List ℕ))
      → Held Canonical ref
      → Goes Canonical s h AnyResult (match_entry s.root ref)
  unfolding Every
  match_entry-Goes none c = tt
  match_entry-Goes (some real) c =
      Every-if _ _ _ (starts_with (inside s.root) real) _ _ (λ e. inside_entry-Goes real c e)
        (λ e. tt)

  matches-Goes :
      (refs : List (Option (List ℕ))) (entries : List Entry)
      → All (Held Canonical) refs
      → Goes Canonical s h AnyResult (matches s.root refs entries)
  unfolding Every matches
  matches-Goes [] entries c = tt
  matches-Goes (ref ∷ refs) entries c =
      Every-if _ _ _ (leb query_result_quota (length entries)) (done entries)
        (match_entry s.root ref >>= (λ e. matches s.root refs (push_entry entries e))) (λ e. tt)
        (λ e.
          Every-bind _ _ AnyResult AnyResult (λ e. matches s.root refs (push_entry entries e))
            (match_entry s.root ref) (match_entry-Goes ref c.0)
            (λ e k. matches-Goes refs (push_entry entries e) c.1))

  -- The sessions are no part of what the invariant speaks of.
  with_queries : (queries : List (ℕ × QuerySession)) → After s (record s { queries = queries })
  with_queries queries = record {
    server = record {
      few = h.few;
      distinct = h.distinct;
      below = h.below;
      authorised = h.authorised;
    };
    root = refl;
    writable = refl;
    next = (unchanged s h).next;
  }

  -- A server that differs in its sessions only.
  abbrev Requeried : FileServer → Type 0
  Requeried t = (queries : List (ℕ × QuerySession)) × (t ≡ record s { queries = queries })

  close_query-Goes : (id : ℕ) → Goes Canonical s h Requeried (close_query_session id s)
  unfolding Every close_query_session
  close_query-Goes id = go (lookup id s.queries)
    where
      go : (q : Option QuerySession) → Goes Canonical s h Requeried (close_found id s q)
      go none = (s.queries, refl)
      go (some q) = (tt, λ o p. (_, refl))

  settle-Goes : (id query : ℕ) → Goes Canonical s h Requeried (settle_query id query s)
  unfolding Every
  settle-Goes id query =
      Every-if _ _ _ s.sink (close_query_session id s >>= (λ t. done (keep_query id query t)))
        (call (delete_query query) (λ u. done s))
        (λ e.
          Every-bind _ _ Requeried Requeried (λ t. done (keep_query id query t))
            (close_query_session id s) (close_query-Goes id)
            (λ t r. ((keep_query id query t).queries, cc r.1)))
        (λ e. (tt, λ o p. (s.queries, refl)))

  Requeried-After : (t : FileServer) → Requeried t → After s t
  Requeried-After t r = rw r.1 (with_queries r.0)

  fetched-Goes :
      (id query : ℕ) (o : Option (List (Option (List ℕ))))
      → Held (All (Held Canonical)) o
      → Goes Canonical s h (Settled MessageType.query_result s) (query_fetched id query s o)
  unfolding Every
  fetched-Goes id query none c = (tt, λ o p. (error-IsReply _ invalid_request, unchanged s h))
  fetched-Goes id query (some refs) c =
      Every-bind _ _ AnyResult _
        (λ entries.
          settle_query id query s >>= (λ t. done (make_query_result_reply id entries true 0, t)))
        (matches s.root refs []) (matches-Goes refs [] c)
        (λ entries k.
          Every-bind _ _ Requeried _ (λ t. done (make_query_result_reply id entries true 0, t))
            (settle_query id query s) (settle-Goes id query)
            (λ t r. ((refl, inl refl), Requeried-After t r)))

  made-Goes :
      (id : ℕ) (o : Option ℕ)
      → Goes Canonical s h (Settled MessageType.query_result s) (query_made id s o)
  unfolding Every
  made-Goes id none = (error-IsReply _ invalid_request, unchanged s h)
  made-Goes id (some query) = (tt, λ o p. fetched-Goes id query o p)

  on-Goes :
      (id : ℕ) (predicate : List ℕ) (o : Volume)
      → Goes Canonical s h (Settled MessageType.query_result s) (query_on id predicate s o)
  unfolding Every
  on-Goes id predicate no_root = (error-IsReply _ internal, unchanged s h)
  on-Goes id predicate no_queries = (error-IsReply _ unsupported, unchanged s h)
  on-Goes id predicate volume = (tt, λ o p. made-Goes id o)

  query_open-Goes :
      (o : Option (ℕ × List ℕ))
      → Goes Canonical s h (Settled MessageType.query_result s) (query_open_decoded s o)
  unfolding Every
  query_open-Goes none = (error-IsReply _ invalid_request, unchanged s h)
  query_open-Goes (some (id, predicate)) = (refl, λ o p. on-Goes id predicate o)

  pub handle_query_open-Goes :
      (payload : List ℕ)
      → Goes Canonical s h (Settled MessageType.query_result s) (handle_query_open payload s)
  unfolding handle_query_open
  handle_query_open-Goes payload = query_open-Goes (decode_query_open_request payload)

  query_close-Goes :
      (o : Option ℕ)
      → Goes Canonical s h (Settled MessageType.query_close s) (query_close_decoded s o)
  unfolding Every
  query_close-Goes none = (error-IsReply _ invalid_request, unchanged s h)
  query_close-Goes (some id) =
      Every-bind _ _ Requeried _ (λ t. done (make_query_close_reply 0, t))
        (close_query_session id s) (close_query-Goes id)
        (λ t r. ((refl, inl refl), Requeried-After t r))

  pub handle_query_close-Goes :
      (payload : List ℕ)
      → Goes Canonical s h (Settled MessageType.query_close s) (handle_query_close payload s)
  unfolding handle_query_close
  handle_query_close-Goes payload = query_close-Goes (decode_query_close_request payload)
