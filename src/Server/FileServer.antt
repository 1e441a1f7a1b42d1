-- ===== src/Server/FileServer.antt =====
-- src/traghetto/server/FileServer.h and FileServer.cpp: what serves the shared tree to a peer. The parts
-- are in the child modules; here are the dispatch on the type of a request, the requests of one
-- connection, and the factory that makes a server for each connection.
pub mod Paths
pub mod Attrs
pub mod Files
pub mod Tree
pub mod Queries
pub mod Within
pub mod Allowed
pub mod Resolving
pub mod TreeCalls
pub mod ListCalls
pub mod TreeServes
pub mod FileCalls
pub mod HandleCalls
pub mod QueryCalls
pub mod Safety
pub mod Sessions
pub mod ReadOnly
pub mod Handles
use campiello.Common.{ℕ, Bool, Option, none, some, List, [], ◌∷◌, if◌then◌else◌, ◌==◌, is_empty}
use campiello.Wire.MessageType
use campiello.Wire.Frame.{Frame}
use campiello.Wire.Handshake.{NodeIdentity, make_welcome}
use campiello.Wire.Error.{unsupported}
use campiello.Server.Posix.{Program, done, call, realpath, ◌>>=◌}
use campiello.Server.FileServer.Paths.{error_frame}
use campiello.Server.FileServer.Files.{
  FileServer, Answered, new_server, handle_open, handle_read, handle_write, handle_close,
}
use campiello.Server.FileServer.Tree.{
  handle_stat, handle_list, handle_mkdir, handle_unlink, handle_rename, handle_truncate,
  handle_read_attrs, handle_write_attrs,
}
use campiello.Server.FileServer.Queries.{handle_query_open, handle_query_close}

-- A handler that leaves the server as it is.
abbrev pub keep : FileServer → Program Frame → Answered
keep s m = m >>= (λ reply. done (reply, s))

-- `FileServer::Handle`
unfoldable pub handle_request : Frame → FileServer → Answered
handle_request request s =
    if request.type == MessageType.hello
    then done (make_welcome s.node_id 0, s)
    else if request.type == MessageType.stat_message
    then keep s (handle_stat request.payload s)
    else if request.type == MessageType.list
    then keep s (handle_list request.payload s)
    else if request.type == MessageType.open_file
    then handle_open request.payload s
    else if request.type == MessageType.read
    then keep s (handle_read request.payload s)
    else if request.type == MessageType.write_message
    then keep s (handle_write request.payload s)
    else if request.type == MessageType.close
    then handle_close request.payload s
    else if request.type == MessageType.mkdir
    then keep s (handle_mkdir request.payload s)
    else if request.type == MessageType.unlink
    then keep s (handle_unlink request.payload s)
    else if request.type == MessageType.rename
    then keep s (handle_rename request.payload s)
    else if request.type == MessageType.truncate
    then keep s (handle_truncate request.payload s)
    else if request.type == MessageType.read_attrs
    then keep s (handle_read_attrs request.payload s)
    else if request.type == MessageType.write_attrs
    then keep s (handle_write_attrs request.payload s)
    else if request.type == MessageType.query_open
    then handle_query_open request.payload s
    else if request.type == MessageType.query_close
    then handle_query_close request.payload s
    else done (error_frame unsupported, s)

-- The requests of one connection, in order: their replies and the server behind them.
unfoldable pub handle_requests : List Frame → FileServer → Program (List Frame × FileServer)
handle_requests [] s = done ([], s)
handle_requests (request ∷ requests) s =
    handle_request request s
    >>= (λ a. handle_requests requests a.1 >>= (λ b. done (a.0 ∷ b.0, b.1)))

pub record FileServerFactory : Type 0 where
  pub root : List ℕ
  pub node_id : NodeIdentity
  pub writable : Bool

abbrev pub canonical_root : Option (List ℕ) → List ℕ
canonical_root none = []
canonical_root (some root) = root

unfoldable pub new_factory : List ℕ → NodeIdentity → Bool → Program FileServerFactory
new_factory root id writable =
    call (realpath root)
      (λ o. done (record { root = canonical_root o; node_id = id; writable = writable }))

-- `Create`
abbrev pub create_server : FileServerFactory → Option FileServer
create_server f = if is_empty f.root then none else some (new_server f.root f.node_id f.writable)
