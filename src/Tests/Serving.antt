-- ===== src/Tests/Serving.antt =====
-- A file server at concrete requests, on a system that says yes to everything.
use campiello.Common.{ℕ, ◌≡◌, refl, true, false, none, some, List, [], ◌∷◌, length, All, arith}
use campiello.Common.Int.{pos}
use campiello.Common.Text.{codes}
use campiello.Common.Table.{lookup}
use campiello.Wire.Frame.{Frame}
use campiello.Wire.Handshake.{NodeIdentity}
use campiello.Wire.Error.{bad_handle}
use campiello.Wire.FileOps.{
  make_open_request, make_read_request, make_write_request, make_close_request, make_close_reply,
  make_open_reply,
}
use campiello.Wire.Listing.{make_list_request}
use campiello.Wire.Namespace.{make_mkdir_request, make_rename_request}
use campiello.Server.Posix.{
  failed, returned, FileStat, volume, enoent, Call, Answer, realpath, lstat, list_dir, open_path,
  pread, pwrite, close_fd, make_dir, remove_dir, unlink_path, rename_path, truncate_path, attr_dir,
  stat_attr, get_attr, put_attr, query_volume, new_query, fetch_query, delete_query, ref_path, run,
  calls,
}
use campiello.Server.FileServer.{handle_request, handle_requests}
use campiello.Server.FileServer.Paths.{
  starts_with, root_prefix, find_last_of, contains, leaf_name, trim_slashes, is_rooted, is_within,
  error_frame,
}
use campiello.Server.FileServer.Files.{FileServer, new_server, read_reply_of}
use campiello.Server.FileServer.Attrs.{as_uint64}
use campiello.Server.FileServer.Allowed.{Promise, Allowed}
use campiello.Server.FileServer.FileCalls.{Settled}
use campiello.Server.FileServer.Safety.{reply_type}
use campiello.Server.FileServer.Sessions.{
  Permitted, SessionEnd, new_server-IsServer, handle_requests-Permitted, handle_request-Allowed,
}
use campiello.Server.FileServer.ReadOnly.{changes, handle_requests-read_only}
use campiello.Server.FileServer.Handles.{open-read-close}

abbrev folder : FileStat
folder = record {
  is_dir = true;
  mode = 0o040755;
  size = pos 0;
  mtime = pos 9;
  crtime = pos 9;
  inode = pos 4;
}

abbrev pub system : (c : Call) → Unit {0} → Answer c × Unit {0}
system (realpath path) w = (some path, w)
system (lstat path) w = (some folder, w)
system (list_dir path) w = (some (codes "." ∷ codes "notes" ∷ []), w)
system (open_path path flags) w = (returned 5, w)
system (pread fd size offset) w = (some (codes "hi"), w)
system (pwrite fd bytes offset) w = (returned (length bytes), w)
system (close_fd fd) w = (tt, w)
system (make_dir path mode) w = (returned tt, w)
system (remove_dir path) w = (returned tt, w)
system (unlink_path path) w = (failed enoent, w)
system (rename_path source target) w = (returned tt, w)
system (truncate_path path size) w = (returned tt, w)
system (attr_dir path) w = (none, w)
system (stat_attr fd name) w = (none, w)
system (get_attr fd name type size) w = (none, w)
system (put_attr fd name type value) w = (record { count = none; errno = enoent }, w)
system (query_volume path) w = (volume, w)
system (new_query predicate) w = (some 3, w)
system (fetch_query query live) w = (some (some (codes "/srv/notes") ∷ none ∷ []), w)
system (delete_query query) w = (tt, w)
system (ref_path device directory name) w = (none, w)

abbrev Named : List ℕ → Type 0
Named path = Unit {0}

system-Promise : (c : Call) (w : Unit {0}) → Promise Named c (system c w).0
unfolding contains
system-Promise (realpath path) w = tt
system-Promise (lstat path) w = tt
system-Promise (list_dir path) w = ((refl, refl), ((refl, refl), tt))
system-Promise (open_path path flags) w = tt
system-Promise (pread fd size offset) w = tt
system-Promise (pwrite fd bytes offset) w = tt
system-Promise (close_fd fd) w = tt
system-Promise (make_dir path mode) w = tt
system-Promise (remove_dir path) w = tt
system-Promise (unlink_path path) w = tt
system-Promise (rename_path source target) w = tt
system-Promise (truncate_path path size) w = tt
system-Promise (attr_dir path) w = tt
system-Promise (stat_attr fd name) w = tt
system-Promise (get_attr fd name type size) w = tt
system-Promise (put_attr fd name type value) w = tt
system-Promise (query_volume path) w = tt
system-Promise (new_query predicate) w = tt
system-Promise (fetch_query query live) w = (tt, (tt, tt))
system-Promise (delete_query query) w = tt
system-Promise (ref_path device directory name) w = tt

abbrev pub owner : NodeIdentity
owner = record { version = 1; fingerprint = []; caps = []; node = codes "den" }

abbrev pub root : List ℕ
root = codes "/srv"

abbrev pub server : FileServer
server = new_server root owner true

abbrev session : List Frame
session =
    make_open_request (codes "/new") 2 1
    ∷ make_write_request 1 0 (codes "hi") 2
    ∷ make_list_request (codes "/") 3
    ∷ make_mkdir_request (codes "/box/") 0o755 4
    ∷ make_rename_request (codes "/box") (codes "/crate") 5
    ∷ make_close_request 1 6
    ∷ []

handle_requests-Permitted_example :
    All (Permitted Named root true) (calls system (handle_requests session server) tt)
    × SessionEnd session server (run system (handle_requests session server) tt).0
handle_requests-Permitted_example =
    handle_requests-Permitted Named system tt session server system-Promise
      (new_server-IsServer root owner true) (omega arith)

handle_request-Allowed_example :
    All
      (Allowed Named root true [])
      (calls system (handle_request (make_list_request (codes "/") 3) server) tt)
    × Settled
        (reply_type 0x10)
        server
        (run system (handle_request (make_list_request (codes "/") 3) server) tt).0
handle_request-Allowed_example =
    handle_request-Allowed Named system tt (make_list_request (codes "/") 3) server system-Promise
      (new_server-IsServer root owner true) (omega arith)

handle_requests-read_only_example :
    All
      (λ (c : Call). changes c ≡ false)
      (calls system (handle_requests session (new_server root owner false)) tt)
handle_requests-read_only_example =
    handle_requests-read_only Named system tt session root owner system-Promise (omega arith)

-- The same system, where every path is a file of 12 bytes.
abbrev note : FileStat
note = record {
  is_dir = false;
  mode = 0o100644;
  size = pos 12;
  mtime = pos 9;
  crtime = pos 9;
  inode = pos 4;
}

abbrev of_files : (c : Call) → Unit {0} → Answer c × Unit {0}
of_files (lstat path) w = (some note, w)
of_files c w = system c w

open-read-close_example :
    let a =
      run of_files
        (handle_requests
          (make_open_request (codes "/a") 1 7
            ∷ make_read_request 1 4 2 8
            ∷ make_close_request 1 9
            ∷ make_read_request 1 4 2 10
            ∷ [])
          server)
        tt in
    (a.0.0
      ≡ make_open_reply 1 (as_uint64 (pos 12)) 0
        ∷ read_reply_of (of_files (pread 5 2 (pos 4)) tt).0
        ∷ make_close_reply 0
        ∷ error_frame bad_handle
        ∷ [])
    × (lookup 1 server.open_files ≡ none)
    × (lookup 1 a.0.1.open_files ≡ none)
    × (lookup 2 a.0.1.open_files ≡ lookup 2 server.open_files)
unfolding is_within starts_with root_prefix is_rooted contains
open-read-close_example =
    open-read-close of_files tt tt tt tt server (codes "/a") (codes "/srv/a") note 1 5 4 2 7 8 9 10
      2 (new_server-IsServer root owner true) (omega arith) (omega arith) (omega arith)
      (omega arith) (omega arith) refl refl refl refl refl refl refl (omega arith) (omega arith)
      (omega arith)

trimmed : trim_slashes (codes "/a/b//") ≡ codes "/a/b"
unfolding trim_slashes
trimmed = refl

leaves :
    (leaf_name (codes "/a/b/") ≡ codes "b")
    × (leaf_name (codes "//") ≡ codes ".")
    × (leaf_name (codes "b") ≡ codes "b")
unfolding leaf_name trim_slashes find_last_of
leaves = (refl, refl, refl)

-- `/srv2` is not within `/srv`.
within_root :
    (is_within root (codes "/srv/a") ≡ true)
    × (is_within root (codes "/srv2") ≡ false)
    × (is_within (codes "/") (codes "/a") ≡ true)
unfolding is_within starts_with root_prefix
within_root = (refl, refl, refl)
