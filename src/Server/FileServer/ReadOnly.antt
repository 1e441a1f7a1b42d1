-- ===== src/Server/FileServer/ReadOnly.antt =====
-- A server that is made read-only.
use campiello.Common.{
  ℕ, ◌+◌, ◌<◌, ◌^◌, ◌≡◌, refl, Bool, true, false, ◌||◌, List, [], ◌∷◌, length, All, arith,
}
use campiello.Wire.Frame.{Frame}
use campiello.Wire.Handshake.{NodeIdentity}
use campiello.Server.Posix.{
  Call, Answer, calls, realpath, lstat, list_dir, open_path, pread, pwrite, close_fd, make_dir,
  remove_dir, unlink_path, rename_path, truncate_path, attr_dir, stat_attr, get_attr, put_attr,
  query_volume, new_query, fetch_query, delete_query, ref_path,
}
use campiello.Server.FileServer.{handle_requests}
use campiello.Server.FileServer.Files.{new_server}
use campiello.Server.FileServer.Allowed.{Promise}
use campiello.Server.FileServer.Sessions.{Permitted, new_server-IsServer, handle_requests-Permitted}

-- What can change a file, a directory or an attribute.
abbrev pub changes : Call → Bool
changes (open_path path flags) = flags.for_write || flags.create || flags.cut
changes (pwrite fd bytes offset) = true
changes (make_dir path mode) = true
changes (remove_dir path) = true
changes (unlink_path path) = true
changes (rename_path source target) = true
changes (truncate_path path size) = true
changes (put_attr fd name type value) = true
changes c = false

Permitted-changes :
    (Canonical : List ℕ → Type 0) (root : List ℕ) (c : Call)
    → Permitted Canonical root false c
    → changes c ≡ false
Permitted-changes Canonical root (realpath path) h = refl
Permitted-changes Canonical root (lstat path) h = refl
Permitted-changes Canonical root (list_dir path) h = refl
Permitted-changes Canonical root (open_path path flags) h = ground (arith, h.1)
Permitted-changes Canonical root (pread fd size offset) h = refl
Permitted-changes Canonical root (pwrite fd bytes offset) h = cc
Permitted-changes Canonical root (close_fd fd) h = refl
Permitted-changes Canonical root (make_dir path mode) h = cc (h.1)
Permitted-changes Canonical root (remove_dir path) h = cc (h.1)
Permitted-changes Canonical root (unlink_path path) h = cc (h.1)
Permitted-changes Canonical root (rename_path source target) h = cc (h.2)
Permitted-changes Canonical root (truncate_path path size) h = cc (h.1)
Permitted-changes Canonical root (attr_dir path) h = refl
Permitted-changes Canonical root (stat_attr fd name) h = refl
Permitted-changes Canonical root (get_attr fd name type size) h = refl
Permitted-changes Canonical root (put_attr fd name type value) h = cc
Permitted-changes Canonical root (query_volume path) h = refl
Permitted-changes Canonical root (new_query predicate) h = refl
Permitted-changes Canonical root (fetch_query query live) h = refl
Permitted-changes Canonical root (delete_query query) h = refl
Permitted-changes Canonical root (ref_path device directory name) h = refl

All-unchanging :
    (Canonical : List ℕ → Type 0) (root : List ℕ) (log : List Call)
    → All (Permitted Canonical root false) log
    → All (λ c. changes c ≡ false) log
All-unchanging Canonical root [] h = tt
All-unchanging Canonical root (c ∷ log) h =
    (Permitted-changes Canonical root c h.0, All-unchanging Canonical root log h.1)

-- A server that is made read-only makes no call that can change a file, a directory or an attribute,
-- whatever a peer requests, as long as the handles do not run out, and whatever the system answers, its
-- directories listing names.
pub handle_requests-read_only :
    {S : Type 0} (Canonical : List ℕ → Type 0) (system : (c : Call) → S → Answer c × S) (w : S)
    (requests : List Frame) (root : List ℕ) (id : NodeIdentity)
    → ((c : Call) (v : S) → Promise Canonical c (system c v).0)
    → 1 + length requests < 2 ^ 64
    → All
        (λ (c : Call). changes c ≡ false)
        (calls system (handle_requests requests (new_server root id false)) w)
handle_requests-read_only Canonical system w requests root id kept n =
    All-unchanging Canonical root _
      (handle_requests-Permitted Canonical system w requests (new_server root id false) kept
        (new_server-IsServer root id false) n).0
