-- ===== src/Server/FileServer/Queries.antt =====
-- src/traghetto/server/FileServer.cpp, as built for Haiku: live queries. The looper thread that hosts the
-- handlers of updates is not modelled: an update is a call of `push_query_update`.
use campiello.Common.{
  ℕ, Bool, true, Option, none, some, List, [], ◌∷◌, if◌then◌else◌, leb, is_empty, length, drop,
  ◌++◌,
}
use campiello.Common.Int.{ℤ, pos}
use campiello.Common.Text.{codes}
use campiello.Common.Table.{lookup, remove, insert}
use campiello.Wire.Frame.{Frame}
use campiello.Wire.Error.{internal, invalid_request, unsupported}
use campiello.Wire.Listing.{Entry}
use campiello.Wire.Query.{
  decode_query_open_request, decode_query_close_request, make_query_result_reply, make_query_update,
  make_query_close_reply,
}
use campiello.Server.Posix.{
  Volume, no_root, no_queries, volume, Program, done, call, close_fd, query_volume, new_query,
  fetch_query, delete_query, ref_path, ◌>>=◌,
}
use campiello.Server.FileServer.Paths.{error_frame, starts_with}
use campiello.Server.FileServer.Attrs.{build_entry}
use campiello.Server.FileServer.Files.{FileServer, QuerySession, OpenFile, Answered}
use campiello.Server.FileServer.Tree.{push_entry}

abbrev pub query_result_quota : ℕ
query_result_quota = 4096

-- `fRoot + "/"`
abbrev pub inside : List ℕ → List ℕ
inside root = root ++ codes "/"

-- A path inside the root makes an entry, named by what stands behind the root.
abbrev pub match_entry : List ℕ → Option (List ℕ) → Program (Option Entry)
match_entry root none = done none
match_entry root (some real) =
    if starts_with (inside root) real
    then build_entry real (drop (length (inside root)) real)
    else done none

-- The loop of `HandleQueryOpen` over the matches.
unfoldable pub matches : List ℕ → List (Option (List ℕ)) → List Entry → Program (List Entry)
matches root [] entries = done entries
matches root (ref ∷ refs) entries =
    if leb query_result_quota (length entries)
    then done entries
    else match_entry root ref >>= (λ e. matches root refs (push_entry entries e))

abbrev pub close_found : ℕ → FileServer → Option QuerySession → Program FileServer
close_found id s none = done s
close_found id s (some q) =
    call (delete_query q.query) (λ u. done (record s { queries = remove id s.queries }))

-- `CloseQuerySession`
unfoldable pub close_query_session : ℕ → FileServer → Program FileServer
close_query_session id s = close_found id s (lookup id s.queries)

abbrev pub keep_query : ℕ → ℕ → FileServer → FileServer
keep_query id query s = record s { queries = insert id (record { query = query }) s.queries }

-- A live query replaces one of the same id; another one is done.
abbrev pub settle_query : ℕ → ℕ → FileServer → Program FileServer
settle_query id query s =
    if s.sink
    then close_query_session id s >>= (λ t. done (keep_query id query t))
    else call (delete_query query) (λ u. done s)

abbrev pub query_fetched : ℕ → ℕ → FileServer → Option (List (Option (List ℕ))) → Answered
query_fetched id query s none =
    call (delete_query query) (λ u. done (error_frame invalid_request, s))
query_fetched id query s (some refs) = matches s.root refs [] >>= (λ entries.
    settle_query id query s >>= (λ t. done (make_query_result_reply id entries true 0, t)))

abbrev pub query_made : ℕ → FileServer → Option ℕ → Answered
query_made id s none = done (error_frame invalid_request, s)
query_made id s (some query) = call (fetch_query query s.sink) (λ o. query_fetched id query s o)

abbrev pub query_on : ℕ → List ℕ → FileServer → Volume → Answered
query_on id predicate s no_root = done (error_frame internal, s)
query_on id predicate s no_queries = done (error_frame unsupported, s)
query_on id predicate s volume = call (new_query predicate) (λ o. query_made id s o)

abbrev pub query_open_decoded : FileServer → Option (ℕ × List ℕ) → Answered
query_open_decoded s none = done (error_frame invalid_request, s)
query_open_decoded s (some (id, predicate)) =
    call (query_volume s.root) (λ o. query_on id predicate s o)

unfoldable pub handle_query_open : List ℕ → FileServer → Answered
handle_query_open payload s = query_open_decoded s (decode_query_open_request payload)

abbrev pub query_close_decoded : FileServer → Option ℕ → Answered
query_close_decoded s none = done (error_frame invalid_request, s)
query_close_decoded s (some id) =
    close_query_session id s >>= (λ t. done (make_query_close_reply 0, t))

unfoldable pub handle_query_close : List ℕ → FileServer → Answered
handle_query_close payload s = query_close_decoded s (decode_query_close_request payload)

-- `wire::Entry{}` with a name.
abbrev pub only_named : List ℕ → Entry
only_named name = record {
  name = name;
  stat = record { mode = 0; size = 0; mtime = pos 0; crtime = pos 0; inode = 0 };
  attrs = [];
}

abbrev pub or_named : List ℕ → Option Entry → Entry
or_named name none = only_named name
or_named name (some e) = e

-- `PushFrame`: what the sink is given.
abbrev pub push_frame : FileServer → Frame → Option Frame
push_frame s f = if s.sink then some f else none

abbrev pub update_at : FileServer → ℕ → Bool → Option (List ℕ) → Program (Option Frame)
update_at s id added none = done none
update_at s id added (some real) =
    let name = drop (length (inside s.root)) real in
    if starts_with (inside s.root) real
    then if added
      then build_entry real name
        >>= (λ e. done (push_frame s (make_query_update id added (or_named name e) 0)))
      else done (push_frame s (make_query_update id added (only_named name) 0))
    else done none

-- `PushQueryUpdate`, told whether the opcode is B_ENTRY_CREATED.
unfoldable pub push_query_update : FileServer → ℕ → Bool → ℤ → ℤ → List ℕ → Program (Option Frame)
push_query_update s id added device directory name =
    if is_empty name
    then done none
    else call (ref_path device directory name) (λ o. update_at s id added o)

-- `CloseAllQuerySessions`, by its calls.
unfoldable pub close_all_queries : List (ℕ × QuerySession) → Program (Unit {0})
close_all_queries [] = done tt
close_all_queries ((id, q) ∷ queries) = call (delete_query q.query) (λ u. close_all_queries queries)

unfoldable pub close_all_files : List (ℕ × OpenFile) → Program (Unit {0})
close_all_files [] = done tt
close_all_files ((handle, f) ∷ files) = call (close_fd f.fd) (λ u. close_all_files files)

-- `~FileServer`
unfoldable pub shut_down : FileServer → Program (Unit {0})
shut_down s = close_all_queries s.queries >>= (λ u. close_all_files s.open_files)
