-- ===== src/Server/FileServer/Paths.antt =====
-- src/traghetto/server/FileServer.cpp: the error replies, the checks on names, and the resolution of a
-- peer's path to one within the shared root.
use campiello.Common.{
  ℕ, suc, Bool, true, false, not, ◌&&◌, ◌||◌, Option, none, some, List, [], ◌∷◌, ◌++◌,
  if◌then◌else◌, ◌==◌, ltb, leb, bytes_eq, is_empty, length, take, drop,
}
use campiello.Common.Text.{codes}
use campiello.Wire.MessageType
use campiello.Wire.Frame.{Frame, message}
use campiello.Wire.Error.{
  ErrorCode, not_found, access_denied, not_a_directory, is_a_directory, invalid_request, io_error,
  no_space, encode_error,
}
use campiello.Wire.Attributes.{max_attr_name_bytes}
use campiello.Server.Posix.{
  Errno, enoent, eacces, eperm, erofs, eloop, enotdir, eisdir, enospc, edquot, other_errno, Program,
  done, call, realpath, ◌>>=◌,
}

-- `Error`
abbrev pub error_frame : ErrorCode → Frame
error_frame code = message MessageType.error_message 0 (encode_error code [])

abbrev pub errno_to_code : Errno → ErrorCode
errno_to_code enoent = not_found
errno_to_code eacces = access_denied
errno_to_code eperm = access_denied
errno_to_code erofs = access_denied
errno_to_code eloop = access_denied
errno_to_code enotdir = not_a_directory
errno_to_code eisdir = is_a_directory
errno_to_code enospc = no_space
errno_to_code edquot = no_space
errno_to_code (other_errno e) = io_error

-- `find` on a std::string, as a test.
unfoldable pub contains : ℕ → List ℕ → Bool
contains c [] = false
contains c (x ∷ xs) = (x == c) || contains c xs

abbrev later : Bool → Option ℕ → Option ℕ
later here (some i) = some (suc i)
later true none = some 0
later false none = none

-- `find_last_of` for one character.
unfoldable pub find_last_of : ℕ → List ℕ → Option ℕ
find_last_of c [] = none
find_last_of c (x ∷ xs) = later (x == c) (find_last_of c xs)

-- '/'
abbrev pub slash : ℕ
slash = 0x2f

-- The path without the slashes at its end, of which one is left where nothing else is.
unfoldable pub trim_slashes : List ℕ → List ℕ
trim_slashes [] = []
trim_slashes (c ∷ path) =
    let rest = trim_slashes path in if bytes_eq rest (codes "/") then c ∷ [] else c ∷ rest

-- `substr(slash + 1)`, where npos + 1 is 0.
abbrev pub behind : Option ℕ → List ℕ → List ℕ
behind none path = path
behind (some i) path = drop (suc i) path

unfoldable pub leaf_name : List ℕ → List ℕ
leaf_name path =
    let trimmed = trim_slashes path in
    if bytes_eq trimmed (codes "/") then codes "." else behind (find_last_of slash trimmed) trimmed

-- The loop of `ValidAttrName`.
unfoldable pub no_control : List ℕ → Bool
no_control [] = true
no_control (c ∷ name) = if ltb c 0x20 || (c == 0x7f) then false else no_control name

unfoldable pub valid_attr_name : List ℕ → Bool
valid_attr_name name =
    if is_empty name || ltb max_attr_name_bytes (length name) then false else no_control name

-- A result, or the code of the error that ends the request.
pub data Resolution (A : Type 0) : Type 0 where
  refused : ErrorCode → Resolution A
  got : A → Resolution A

-- `if (!Resolve(...)) return Error(err);` and what comes behind it.
abbrev pub or_error : Resolution (List ℕ) → (List ℕ → Program Frame) → Program Frame
or_error (refused code) f = done (error_frame code)
or_error (got path) f = f path

-- `reqPath[0] == '/'`
abbrev pub starts_rooted : List ℕ → Bool
starts_rooted [] = false
starts_rooted (c ∷ path) = c == slash

-- The first test of `Resolve` and `ResolveForCreate`.
unfoldable pub is_rooted : List ℕ → Bool
is_rooted path = starts_rooted path && not (contains 0 path)

-- `real.size() >= prefix.size() && real.compare(0, prefix.size(), prefix) == 0`
unfoldable pub starts_with : List ℕ → List ℕ → Bool
starts_with front path =
    leb (length front) (length path) && bytes_eq (take (length front) path) front

unfoldable pub root_prefix : List ℕ → List ℕ
root_prefix root = if bytes_eq root (codes "/") then codes "/" else root ++ codes "/"

-- The root itself, or strictly under it.
unfoldable pub is_within : List ℕ → List ℕ → Bool
is_within root path = bytes_eq path root || starts_with (root_prefix root) path

abbrev pub resolved : List ℕ → Option (List ℕ) → Resolution (List ℕ)
resolved root none = refused not_found
resolved root (some path) = if is_within root path then got path else refused access_denied

unfoldable pub resolve : List ℕ → List ℕ → Program (Resolution (List ℕ))
resolve root path =
    if is_rooted path
    then call (realpath (root ++ path)) (λ o. done (resolved root o))
    else done (refused invalid_request)

unfoldable pub join : List ℕ → List ℕ → List ℕ
join parent leaf =
    if bytes_eq parent (codes "/") then codes "/" ++ leaf else parent ++ (codes "/" ++ leaf)

abbrev pub joined : List ℕ → Resolution (List ℕ) → Resolution (List ℕ)
joined leaf (refused code) = refused code
joined leaf (got parent) = got (join parent leaf)

-- `(slash == 0) ? "/" : trimmed.substr(0, slash)`, where substr(0, npos) is the whole string.
abbrev pub parent_of : Option ℕ → List ℕ → List ℕ
parent_of none path = path
parent_of (some i) path = if i == 0 then codes "/" else take i path

-- The test on the leaf.
unfoldable pub is_plain : List ℕ → Bool
is_plain leaf =
    not (is_empty leaf)
    && not (bytes_eq leaf (codes "."))
    && not (bytes_eq leaf (codes ".."))
    && not (contains slash leaf)

unfoldable pub resolve_for_create : List ℕ → List ℕ → Program (Resolution (List ℕ))
resolve_for_create root path =
    let trimmed = trim_slashes path in
    let at = find_last_of slash trimmed in
    let leaf = behind at trimmed in
    if is_rooted path
    then if is_plain leaf
      then resolve root (parent_of at trimmed) >>= (λ parent. done (joined leaf parent))
      else done (refused invalid_request)
    else done (refused invalid_request)
