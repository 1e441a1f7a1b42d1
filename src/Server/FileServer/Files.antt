-- ===== src/Server/FileServer/Files.antt =====
-- src/traghetto/server/FileServer.h and FileServer.cpp: the state of a FileServer, and the requests on
-- open files.
use campiello.Common.{
  ℕ, ◌+◌, ◌-◌, ◌/◌, ◌%◌, ◌^◌, Bool, true, false, not, ◌&&◌, Option, none, some, List, [],
  if◌then◌else◌, ◌==◌, ltb, leb, length,
}
use campiello.Common.Int.{ℤ, pos, negsuc}
use campiello.Common.Table.{lookup, remove, insert}
use campiello.Wire.MessageType
use campiello.Wire.Frame.{Frame, message}
use campiello.Wire.Handshake.{NodeIdentity}
use campiello.Wire.Error.{
  access_denied, is_a_directory, invalid_request, io_error, bad_handle, too_many_open,
}
use campiello.Wire.FileOps.{
  decode_open_request, decode_read_request, decode_write_request, decode_close_request,
  encode_open_reply, encode_read_reply, encode_write_reply, encode_ok,
}
use campiello.Server.Posix.{
  Returned, failed, returned, FileStat, OpenFlags, Program, done, call, lstat, open_path, pread,
  pwrite, close_fd, ◌>>=◌,
}
use campiello.Server.FileServer.Paths.{
  error_frame, errno_to_code, Resolution, refused, got, resolve, resolve_for_create,
}
use campiello.Server.FileServer.Attrs.{as_uint64, read_only}

abbrev pub max_open_handles : ℕ
max_open_handles = 256

pub record OpenFile : Type 0 where
  pub fd : ℕ
  pub writable : Bool

-- A live query: its BQuery.
pub record QuerySession : Type 0 where
  pub query : ℕ

-- `sink` tells whether a frame sink is installed.
pub record FileServer : Type 0 where
  pub root : List ℕ
  pub node_id : NodeIdentity
  pub writable : Bool
  pub open_files : List (ℕ × OpenFile)
  pub next_handle : ℕ
  pub sink : Bool
  pub queries : List (ℕ × QuerySession)

abbrev pub new_server : List ℕ → NodeIdentity → Bool → FileServer
new_server root id writable = record {
  root = root;
  node_id = id;
  writable = writable;
  open_files = [];
  next_handle = 1;
  sink = false;
  queries = [];
}

-- A reply, and the server behind it.
abbrev pub Answered : Type 0
Answered = Program (Frame × FileServer)

-- `(off_t)` of a uint64_t.
abbrev pub as_off : ℕ → ℤ
as_off n = if ltb n (2 ^ 63) then pos n else negsuc (2 ^ 64 - 1 - n)

-- `mode & kOpenWrite` and `mode & kOpenRead`
abbrev pub wants_write : ℕ → Bool
wants_write mode = mode / 2 % 2 == 1

abbrev pub wants_read : ℕ → Bool
wants_read mode = mode % 2 == 1

abbrev pub write_flags : ℕ → OpenFlags
write_flags mode = record {
  for_read = wants_read mode;
  for_write = true;
  create = true;
  cut = true;
  no_follow = true;
}

-- `uint64_t handle = fNextHandle++; fOpen[handle] = ...` and the reply.
abbrev pub opened : Bool → ℕ → FileServer → ℕ → Frame × FileServer
opened writable size s fd = (
  message MessageType.open_file 0 (encode_open_reply s.next_handle size),
  record s {
    next_handle = (s.next_handle + 1) % 2 ^ 64;
    open_files = insert s.next_handle (record { fd = fd; writable = writable }) s.open_files;
  },
)

abbrev pub open_written : FileServer → Returned ℕ → Answered
open_written s (failed e) = done (error_frame (errno_to_code e), s)
open_written s (returned fd) = done (opened true 0 s fd)

-- Behind `ResolveForCreate`.
abbrev pub open_target : ℕ → FileServer → Resolution (List ℕ) → Answered
open_target mode s (refused code) = done (error_frame code, s)
open_target mode s (got path) = call (open_path path (write_flags mode)) (λ o. open_written s o)

abbrev pub open_read : ℕ → FileServer → Returned ℕ → Answered
open_read size s (failed e) = done (error_frame io_error, s)
open_read size s (returned fd) = done (opened false size s fd)

-- Behind `lstat`.
abbrev pub open_found : List ℕ → FileServer → Option FileStat → Answered
open_found path s none = done (error_frame io_error, s)
open_found path s (some st) =
    if st.is_dir
    then done (error_frame is_a_directory, s)
    else call (open_path path read_only) (λ o. open_read (as_uint64 st.size) s o)

-- Behind `Resolve`.
abbrev pub open_source : FileServer → Resolution (List ℕ) → Answered
open_source s (refused code) = done (error_frame code, s)
open_source s (got path) = call (lstat path) (λ o. open_found path s o)

abbrev pub open_decoded : FileServer → Option (List ℕ × ℕ) → Answered
open_decoded s none = done (error_frame invalid_request, s)
open_decoded s (some (path, mode)) =
    if wants_write mode && not s.writable
    then done (error_frame access_denied, s)
    else if leb max_open_handles (length s.open_files)
    then done (error_frame too_many_open, s)
    else if wants_write mode
    then resolve_for_create s.root path >>= (λ a. open_target mode s a)
    else resolve s.root path >>= (λ a. open_source s a)

unfoldable pub handle_open : List ℕ → FileServer → Answered
handle_open payload s = open_decoded s (decode_open_request payload)

abbrev pub read_reply_of : Option (List ℕ) → Frame
read_reply_of none = error_frame io_error
read_reply_of (some bytes) = message MessageType.read 0 (encode_read_reply bytes)

-- Behind `fOpen.find`.
abbrev pub read_file : ℕ → ℕ → Option OpenFile → Program Frame
read_file offset length none = done (error_frame bad_handle)
read_file offset length (some f) =
    call (pread f.fd length (as_off offset)) (λ o. done (read_reply_of o))

abbrev pub read_decoded : FileServer → Option (ℕ × ℕ × ℕ) → Program Frame
read_decoded s none = done (error_frame invalid_request)
read_decoded s (some (handle, offset, length)) =
    read_file offset length (lookup handle s.open_files)

unfoldable pub handle_read : List ℕ → FileServer → Program Frame
handle_read payload s = read_decoded s (decode_read_request payload)

abbrev pub write_reply_of : Returned ℕ → Frame
write_reply_of (failed e) = error_frame (errno_to_code e)
write_reply_of (returned n) = message MessageType.write_message 0 (encode_write_reply n)

abbrev pub write_file : ℕ → List ℕ → Option OpenFile → Program Frame
write_file offset bytes none = done (error_frame bad_handle)
write_file offset bytes (some f) =
    if f.writable
    then call (pwrite f.fd bytes (as_off offset)) (λ o. done (write_reply_of o))
    else done (error_frame access_denied)

abbrev pub write_decoded : FileServer → Option (ℕ × ℕ × List ℕ) → Program Frame
write_decoded s none = done (error_frame invalid_request)
write_decoded s (some (handle, offset, bytes)) =
    write_file offset bytes (lookup handle s.open_files)

unfoldable pub handle_write : List ℕ → FileServer → Program Frame
handle_write payload s = write_decoded s (decode_write_request payload)

abbrev pub close_file : ℕ → FileServer → Option OpenFile → Answered
close_file handle s none = done (error_frame bad_handle, s)
close_file handle s (some f) = call (close_fd f.fd) (λ u.
    done
      (message MessageType.close 0 encode_ok, record s { open_files = remove handle s.open_files }))

abbrev pub close_decoded : FileServer → Option ℕ → Answered
close_decoded s none = done (error_frame invalid_request, s)
close_decoded s (some handle) = close_file handle s (lookup handle s.open_files)

unfoldable pub handle_close : List ℕ → FileServer → Answered
handle_close payload s = close_decoded s (decode_close_request payload)
