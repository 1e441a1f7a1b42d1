-- ===== src/Server/FileServer/Tree.antt =====
-- src/traghetto/server/FileServer.cpp: the requests on paths of the shared tree.
use campiello.Common.{
  ℕ, ◌%◌, ◌||◌, ◌&&◌, not, Bool, true, false, Option, none, some, List, [], ◌∷◌, ◌++◌,
  if◌then◌else◌, leb, bytes_eq, length,
}
use campiello.Common.Text.{codes}
use campiello.Wire.MessageType
use campiello.Wire.Frame.{Frame, message}
use campiello.Wire.Error.{
  ErrorCode, not_found, access_denied, not_a_directory, invalid_request, io_error,
}
use campiello.Wire.Attributes.{Attr, decode_write_attrs_request}
use campiello.Wire.AttrOps.{make_read_attrs_reply, make_write_attrs_reply}
use campiello.Wire.Listing.{
  Entry, max_entries_per_reply, decode_path_request, encode_stat_reply, encode_listing,
}
use campiello.Wire.Namespace.{
  decode_mkdir_request, decode_rename_request, decode_truncate_request, make_mkdir_reply,
  make_unlink_reply, make_rename_reply, make_truncate_reply,
}
use campiello.Server.Posix.{
  Returned, failed, returned, FileStat, Program, done, call, lstat, list_dir, make_dir, remove_dir,
  unlink_path, rename_path, truncate_path, ◌>>=◌,
}
use campiello.Server.FileServer.Paths.{
  error_frame, errno_to_code, leaf_name, valid_attr_name, or_error, resolve, resolve_for_create,
}
use campiello.Server.FileServer.Attrs.{read_attrs_of, write_attrs_to, build_entry}
use campiello.Server.FileServer.Files.{FileServer, as_off}

abbrev pub stat_reply_of : Option Entry → Frame
stat_reply_of none = error_frame io_error
stat_reply_of (some entry) = message MessageType.stat_message 0 (encode_stat_reply entry)

abbrev pub stat_decoded : List ℕ → Option (List ℕ) → Program Frame
stat_decoded root none = done (error_frame invalid_request)
stat_decoded root (some path) = resolve root path >>= (λ a.
    or_error a (λ real. build_entry real (leaf_name path) >>= (λ e. done (stat_reply_of e))))

unfoldable pub handle_stat : List ℕ → FileServer → Program Frame
handle_stat payload s = stat_decoded s.root (decode_path_request payload)

abbrev pub push_entry : List Entry → Option Entry → List Entry
push_entry entries none = entries
push_entry entries (some e) = entries ++ (e ∷ [])

-- `.` and `..`
abbrev pub is_dots : List ℕ → Bool
is_dots name = bytes_eq name (codes ".") || bytes_eq name (codes "..")

-- `real + "/" + de->d_name`
abbrev pub path_in : List ℕ → List ℕ → List ℕ
path_in path name = path ++ (codes "/" ++ name)

abbrev pub named_entry : List ℕ → List ℕ → Program (Option Entry)
named_entry path name = if is_dots name then done none else build_entry (path_in path name) name

-- The loop of `HandleList` over the names in the directory.
unfoldable pub list_each : List ℕ → List (List ℕ) → List Entry → Program (List Entry)
list_each path [] entries = done entries
list_each path (name ∷ names) entries =
    if not (is_dots name) && leb max_entries_per_reply (length entries)
    then done entries
    else named_entry path name >>= (λ e. list_each path names (push_entry entries e))

abbrev pub list_names : List ℕ → Option (List (List ℕ)) → Program Frame
list_names path none = done (error_frame io_error)
list_names path (some names) =
    list_each path names []
    >>= (λ entries. done (message MessageType.list 0 (encode_listing entries)))

abbrev pub list_found : List ℕ → Option FileStat → Program Frame
list_found path none = done (error_frame io_error)
list_found path (some st) =
    if st.is_dir
    then call (list_dir path) (λ o. list_names path o)
    else done (error_frame not_a_directory)

abbrev pub list_decoded : List ℕ → Option (List ℕ) → Program Frame
list_decoded root none = done (error_frame invalid_request)
list_decoded root (some path) =
    resolve root path >>= (λ a. or_error a (λ real. call (lstat real) (λ o. list_found real o)))

unfoldable pub handle_list : List ℕ → FileServer → Program Frame
handle_list payload s = list_decoded s.root (decode_path_request payload)

-- `return 0` of a call, or its error.
abbrev pub acknowledge : Frame → Returned (Unit {0}) → Frame
acknowledge reply (failed e) = error_frame (errno_to_code e)
acknowledge reply (returned u) = reply

-- `if (!fWritable) return Error(kAccessDenied);`
abbrev pub if_writable : FileServer → Program Frame → Program Frame
if_writable s m = if s.writable then m else done (error_frame access_denied)

abbrev pub mkdir_decoded : List ℕ → Option (List ℕ × ℕ) → Program Frame
mkdir_decoded root none = done (error_frame invalid_request)
mkdir_decoded root (some (path, mode)) = resolve_for_create root path >>= (λ a.
    or_error a (λ real.
      call (make_dir real (mode % 0o1000)) (λ o. done (acknowledge (make_mkdir_reply 0) o))))

unfoldable pub handle_mkdir : List ℕ → FileServer → Program Frame
handle_mkdir payload s = if_writable s (mkdir_decoded s.root (decode_mkdir_request payload))

abbrev pub unlink_found : List ℕ → Option FileStat → Program Frame
unlink_found path none = done (error_frame not_found)
unlink_found path (some st) =
    if st.is_dir
    then call (remove_dir path) (λ o. done (acknowledge (make_unlink_reply 0) o))
    else call (unlink_path path) (λ o. done (acknowledge (make_unlink_reply 0) o))

abbrev pub unlink_decoded : List ℕ → Option (List ℕ) → Program Frame
unlink_decoded root none = done (error_frame invalid_request)
unlink_decoded root (some path) =
    resolve_for_create root path
    >>= (λ a. or_error a (λ real. call (lstat real) (λ o. unlink_found real o)))

unfoldable pub handle_unlink : List ℕ → FileServer → Program Frame
handle_unlink payload s = if_writable s (unlink_decoded s.root (decode_path_request payload))

abbrev pub rename_decoded : List ℕ → Option (List ℕ × List ℕ) → Program Frame
rename_decoded root none = done (error_frame invalid_request)
rename_decoded root (some (source, target)) = resolve_for_create root source >>= (λ a.
    or_error a (λ from_real. resolve_for_create root target >>= (λ b. or_error b (λ to_real.
      call (rename_path from_real to_real) (λ o. done (acknowledge (make_rename_reply 0) o))))))

unfoldable pub handle_rename : List ℕ → FileServer → Program Frame
handle_rename payload s = if_writable s (rename_decoded s.root (decode_rename_request payload))

abbrev pub truncate_decoded : List ℕ → Option (List ℕ × ℕ) → Program Frame
truncate_decoded root none = done (error_frame invalid_request)
truncate_decoded root (some (path, size)) = resolve root path >>= (λ a. or_error a (λ real.
    call (truncate_path real (as_off size)) (λ o. done (acknowledge (make_truncate_reply 0) o))))

unfoldable pub handle_truncate : List ℕ → FileServer → Program Frame
handle_truncate payload s =
    if_writable s (truncate_decoded s.root (decode_truncate_request payload))

abbrev pub read_attrs_decoded : List ℕ → Option (List ℕ) → Program Frame
read_attrs_decoded root none = done (error_frame invalid_request)
read_attrs_decoded root (some path) = resolve root path >>= (λ a.
    or_error a (λ real. read_attrs_of real >>= (λ attrs. done (make_read_attrs_reply attrs 0))))

unfoldable pub handle_read_attrs : List ℕ → FileServer → Program Frame
handle_read_attrs payload s = read_attrs_decoded s.root (decode_path_request payload)

-- `for (const wire::Attr& a : attrs) if (!ValidAttrName(a.name)) ...`
unfoldable pub all_valid : List Attr → Bool
all_valid [] = true
all_valid (a ∷ attrs) = if valid_attr_name a.name then all_valid attrs else false

abbrev pub write_attrs_result : Option ErrorCode → Frame
write_attrs_result none = make_write_attrs_reply 0
write_attrs_result (some code) = error_frame code

abbrev pub write_attrs_decoded : List ℕ → Option (List ℕ × List Attr) → Program Frame
write_attrs_decoded root none = done (error_frame invalid_request)
write_attrs_decoded root (some (path, attrs)) =
    if all_valid attrs
    then resolve root path >>= (λ a.
      or_error a (λ real. write_attrs_to real attrs >>= (λ e. done (write_attrs_result e))))
    else done (error_frame invalid_request)

unfoldable pub handle_write_attrs : List ℕ → FileServer → Program Frame
handle_write_attrs payload s =
    if_writable s (write_attrs_decoded s.root (decode_write_attrs_request payload))
