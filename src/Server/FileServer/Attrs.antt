-- ===== src/Server/FileServer/Attrs.antt =====
-- src/traghetto/server/FileServer.cpp, as built for Haiku: the attributes of a file, and the entry that
-- STAT, LIST and queries answer with.
use campiello.Common.{
  ℕ, ◌-◌, ◌*◌, ◌%◌, ◌^◌, true, false, Option, none, some, List, [], ◌∷◌, ◌++◌, if◌then◌else◌, ◌==◌,
  ltb, leb, length,
}
use campiello.Common.Int.{ℤ, pos, negsuc}
use campiello.Wire.Error.{ErrorCode}
use campiello.Wire.Attributes.{Attr, max_attrs}
use campiello.Wire.Listing.{Stat, Entry}
use campiello.Server.Posix.{
  Returned, failed, returned, FileStat, AttrInfo, OpenFlags, AttrWritten, Program, done, call,
  lstat, open_path, close_fd, attr_dir, stat_attr, get_attr, put_attr, ◌>>=◌,
}
use campiello.Server.FileServer.Paths.{errno_to_code}

abbrev pub max_served_attr_value : ℕ
max_served_attr_value = 1024 * 1024

-- `static_cast<uint64_t>` of a signed number.
abbrev pub as_uint64 : ℤ → ℕ
as_uint64 (pos n) = n % 2 ^ 64
as_uint64 (negsuc n) = 2 ^ 64 - 1 - n % 2 ^ 64

-- O_RDONLY
abbrev pub read_only : OpenFlags
read_only = record {
  for_read = true;
  for_write = false;
  create = false;
  cut = false;
  no_follow = false;
}

-- `info.size < 0 || (size_t)info.size > kMaxServedAttrValue`, or the size.
abbrev pub served_size : ℤ → Option ℕ
served_size (pos n) = if ltb max_served_attr_value n then none else some n
served_size (negsuc n) = none

abbrev pub push_value : List ℕ → ℕ → List Attr → Option (List ℕ) → List Attr
push_value name type attrs none = attrs
push_value name type attrs (some value) =
    attrs ++ (record { name = name; type = type; value = value } ∷ [])

-- Behind the test on the size; an empty value is not read.
abbrev pub read_value_of : ℕ → List ℕ → ℕ → List Attr → Option ℕ → Program (List Attr)
read_value_of fd name type attrs none = done attrs
read_value_of fd name type attrs (some size) =
    if size == 0
    then done (push_value name type attrs (some []))
    else call (get_attr fd name type size) (λ o. done (push_value name type attrs o))

-- Behind `fs_stat_attr`.
abbrev pub read_one : ℕ → List ℕ → List Attr → Option AttrInfo → Program (List Attr)
read_one fd name attrs none = done attrs
read_one fd name attrs (some info) = read_value_of fd name info.type attrs (served_size info.size)

-- The loop of `ReadAttrs` over the names in the attribute directory.
unfoldable pub read_each : ℕ → List (List ℕ) → List Attr → Program (List Attr)
read_each fd [] attrs = done attrs
read_each fd (name ∷ names) attrs =
    if leb max_attrs (length attrs)
    then done attrs
    else call (stat_attr fd name)
        (λ o. read_one fd name attrs o >>= (λ more. read_each fd names more))

abbrev pub read_opened : List (List ℕ) → Returned ℕ → Program (List Attr)
read_opened names (failed e) = done []
read_opened names (returned fd) =
    read_each fd names [] >>= (λ attrs. call (close_fd fd) (λ u. done attrs))

abbrev pub read_listed : List ℕ → Option (List (List ℕ)) → Program (List Attr)
read_listed path none = done []
read_listed path (some names) = call (open_path path read_only) (λ o. read_opened names o)

-- `ReadAttrs`
unfoldable pub read_attrs_of : List ℕ → Program (List Attr)
read_attrs_of path = call (attr_dir path) (λ o. read_listed path o)

-- `n < 0 || (size_t)n != a.value.size()`: the error code that is reported, if any.
abbrev pub written_error : ℕ → Option ℕ → ErrorCode → Option ErrorCode
written_error size none code = some code
written_error size (some n) code = if n == size then none else some code

abbrev pub write_error : ℕ → AttrWritten → Option ErrorCode
write_error size w = written_error size w.count (errno_to_code w.errno)

abbrev pub write_next :
    (Unit {0} → Program (Option ErrorCode)) → Option ErrorCode → Program (Option ErrorCode)
write_next rest none = rest tt
write_next rest (some code) = done (some code)

-- The loop of `WriteAttrs`, which ends at the first error.
unfoldable pub write_each : ℕ → List Attr → Program (Option ErrorCode)
write_each fd [] = done none
write_each fd (a ∷ attrs) =
    call (put_attr fd a.name a.type a.value)
      (λ w. write_next (λ u. write_each fd attrs) (write_error (length a.value) w))

abbrev pub write_opened : List Attr → Returned ℕ → Program (Option ErrorCode)
write_opened attrs (failed e) = done (some (errno_to_code e))
write_opened attrs (returned fd) =
    write_each fd attrs >>= (λ error. call (close_fd fd) (λ u. done error))

-- `WriteAttrs`
unfoldable pub write_attrs_to : List ℕ → List Attr → Program (Option ErrorCode)
write_attrs_to path attrs = call (open_path path read_only) (λ o. write_opened attrs o)

abbrev pub stat_of_file : FileStat → Stat
stat_of_file st = record {
  mode = st.mode;
  size = as_uint64 st.size;
  mtime = st.mtime;
  crtime = st.crtime;
  inode = as_uint64 st.inode;
}

abbrev pub built : List ℕ → List ℕ → Option FileStat → Program (Option Entry)
built path name none = done none
built path name (some st) =
    read_attrs_of path
    >>= (λ attrs. done (some (record { name = name; stat = stat_of_file st; attrs = attrs })))

-- `BuildEntry`
unfoldable pub build_entry : List ℕ → List ℕ → Program (Option Entry)
build_entry path name = call (lstat path) (λ o. built path name o)
