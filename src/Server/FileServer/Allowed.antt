-- ===== src/Server/FileServer/Allowed.antt =====
-- What a file server may ask of the system: paths within the shared root, changes on a writable server
-- only, reads and writes of files that it has opened.
use campiello.Common.{
  ℕ, ◌+◌, ◌≤◌, ◌<◌, ◌≡◌, ◌⊎◌, Bool, true, false, not, ◌&&◌, ◌||◌, some, List, ◌++◌, is_empty,
  length, All,
}
use campiello.Common.Table.{lookup, Distinct}
use campiello.Wire.Fields.Post.{Held}
use campiello.Wire.Frame.{Frame}
use campiello.Wire.Error.{ErrorCode}
use campiello.Server.Posix.{
  Call, Answer, OpenFlags, realpath, lstat, list_dir, open_path, pread, pwrite, close_fd, make_dir,
  remove_dir, unlink_path, rename_path, truncate_path, attr_dir, stat_attr, get_attr, put_attr,
  query_volume, new_query, fetch_query, delete_query, ref_path,
}
use campiello.Server.FileServer.Paths.{
  error_frame, contains, slash, is_rooted, is_within, is_plain, join,
}
use campiello.Server.FileServer.Tree.{path_in}
use campiello.Server.FileServer.Files.{FileServer, OpenFile, max_open_handles}

-- A name in a directory: not empty and without a slash.
abbrev pub IsDirName : List ℕ → Type 0
IsDirName name = (is_empty name ≡ false) × (contains slash name ≡ false)

-- What the system's answers satisfy: `realpath` and BPath give canonical paths, and the names in a
-- directory are names.
abbrev pub Promise : (List ℕ → Type 0) → (c : Call) → Answer c → Type 0
Promise Canonical (realpath path) o = Held Canonical o
Promise Canonical (lstat path) o = Unit {0}
Promise Canonical (list_dir path) o = Held (All IsDirName) o
Promise Canonical (open_path path flags) o = Unit {0}
Promise Canonical (pread fd size offset) o = Unit {0}
Promise Canonical (pwrite fd bytes offset) o = Unit {0}
Promise Canonical (close_fd fd) o = Unit {0}
Promise Canonical (make_dir path mode) o = Unit {0}
Promise Canonical (remove_dir path) o = Unit {0}
Promise Canonical (unlink_path path) o = Unit {0}
Promise Canonical (rename_path source target) o = Unit {0}
Promise Canonical (truncate_path path size) o = Unit {0}
Promise Canonical (attr_dir path) o = Unit {0}
Promise Canonical (stat_attr fd name) o = Unit {0}
Promise Canonical (get_attr fd name type size) o = Unit {0}
Promise Canonical (put_attr fd name type value) o = Unit {0}
Promise Canonical (query_volume root) o = Unit {0}
Promise Canonical (new_query predicate) o = Unit {0}
Promise Canonical (fetch_query query live) o = Held (All (Held Canonical)) o
Promise Canonical (delete_query query) o = Unit {0}
Promise Canonical (ref_path device directory name) o = Held Canonical o

-- A canonical path, or a plain name in a directory whose path is canonical and within the root.
pub data Place (Canonical : List ℕ → Type 0) (root : List ℕ) : List ℕ → Type 0 where
  at : (path : List ℕ) → Canonical path → Place Canonical root path
  child :
      (parent leaf : List ℕ)
      → Canonical parent
      → is_within root parent ≡ true
      → is_plain leaf ≡ true
      → Place Canonical root (join parent leaf)
  listed :
      (parent leaf : List ℕ)
      → Canonical parent
      → is_within root parent ≡ true
      → is_plain leaf ≡ true
      → Place Canonical root (path_in parent leaf)

abbrev pub Placed : (List ℕ → Type 0) → List ℕ → List ℕ → Type 0
Placed Canonical root path = Place Canonical root path × (is_within root path ≡ true)

-- An `open` that can change a file needs a writable server, and does not follow a link.
abbrev pub open_allowed : Bool → OpenFlags → Bool
open_allowed writable flags =
    not (flags.for_write || flags.create || flags.cut) || (writable && flags.no_follow)

-- An open file with this descriptor.
abbrev pub Holds : List (ℕ × OpenFile) → ℕ → Type 0
Holds files fd = (handle : ℕ) × (f : OpenFile) × (lookup handle files ≡ some f) × (f.fd ≡ fd)

abbrev pub HoldsWritable : List (ℕ × OpenFile) → ℕ → Type 0
HoldsWritable files fd =
    (handle : ℕ) × (f : OpenFile) × (lookup handle files ≡ some f)
    × (f.fd ≡ fd)
    × (f.writable ≡ true)

abbrev pub Allowed : (List ℕ → Type 0) → List ℕ → Bool → List (ℕ × OpenFile) → Call → Type 0
Allowed Canonical root writable files (realpath path) =
    (q : List ℕ) × (path ≡ root ++ q) × (is_rooted q ≡ true)
Allowed Canonical root writable files (lstat path) = Placed Canonical root path
Allowed Canonical root writable files (list_dir path) = Placed Canonical root path
Allowed Canonical root writable files (open_path path flags) =
    Placed Canonical root path × (open_allowed writable flags ≡ true)
Allowed Canonical root writable files (pread fd size offset) = Holds files fd
Allowed Canonical root writable files (pwrite fd bytes offset) =
    HoldsWritable files fd × (writable ≡ true)
Allowed Canonical root writable files (close_fd fd) = Unit {0}
Allowed Canonical root writable files (make_dir path mode) =
    Placed Canonical root path × (writable ≡ true)
Allowed Canonical root writable files (remove_dir path) =
    Placed Canonical root path × (writable ≡ true)
Allowed Canonical root writable files (unlink_path path) =
    Placed Canonical root path × (writable ≡ true)
Allowed Canonical root writable files (rename_path source target) =
    Placed Canonical root source × Placed Canonical root target × (writable ≡ true)
Allowed Canonical root writable files (truncate_path path size) =
    Placed Canonical root path × (writable ≡ true)
Allowed Canonical root writable files (attr_dir path) = Placed Canonical root path
Allowed Canonical root writable files (stat_attr fd name) = Unit {0}
Allowed Canonical root writable files (get_attr fd name type size) = Unit {0}
Allowed Canonical root writable files (put_attr fd name type value) = writable ≡ true
Allowed Canonical root writable files (query_volume path) = path ≡ root
Allowed Canonical root writable files (new_query predicate) = Unit {0}
Allowed Canonical root writable files (fetch_query query live) = Unit {0}
Allowed Canonical root writable files (delete_query query) = Unit {0}
Allowed Canonical root writable files (ref_path device directory name) = Unit {0}

-- Handles are distinct, below the next one and few, and a file is open for writing on a writable server
-- only.
pub record IsServer (s : FileServer) : Type 0 where
  pub few : length s.open_files ≤ max_open_handles
  pub distinct : Distinct s.open_files
  pub below : All (λ (e : ℕ × OpenFile). e.0 < s.next_handle) s.open_files
  pub authorised : All (λ (e : ℕ × OpenFile). (not e.1.writable || s.writable) ≡ true) s.open_files

-- A reply of the given type or an ERROR, with no request id yet.
abbrev pub IsReply : ℕ → Frame → Type 0
IsReply type f =
    (f.request_id ≡ 0) × ((f.type ≡ type) ⊎ ((code : ErrorCode) × (f ≡ error_frame code)))

-- The server behind a request.
pub record After (s t : FileServer) : Type 0 where
  pub server : IsServer t
  pub root : t.root ≡ s.root
  pub writable : t.writable ≡ s.writable
  pub next : t.next_handle ≤ s.next_handle + 1
