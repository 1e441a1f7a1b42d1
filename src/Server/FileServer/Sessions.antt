-- ===== src/Server/FileServer/Sessions.antt =====
-- What a file server asks of the system while it serves the requests of a connection.
use campiello.Common.{
  ℕ, ◌+◌, ◌<◌, ◌^◌, ◌≡◌, refl, ◌∙◌, Bool, true, List, [], ◌∷◌, length, All, arith,
}
use campiello.Common.Table.{Distinct}
use campiello.Wire.Frame.{Frame}
use campiello.Wire.Handshake.{NodeIdentity}
use campiello.Server.Posix.{
  Call, Answer, Program, done, run, calls, realpath, lstat, list_dir, open_path, pread, pwrite,
  close_fd, make_dir, remove_dir, unlink_path, rename_path, truncate_path, attr_dir, stat_attr,
  get_attr, put_attr, query_volume, new_query, fetch_query, delete_query, ref_path, ◌>>=◌,
}
use campiello.Server.Posix.Every.{Every, Every-bind, Every-run, Every-allow}
use campiello.Server.FileServer.{handle_request, handle_requests}
use campiello.Server.FileServer.Files.{FileServer, OpenFile, new_server}
use campiello.Server.FileServer.Allowed.{Promise, Allowed, IsReply, IsServer}
use campiello.Server.FileServer.FileCalls.{Settled}
use campiello.Server.FileServer.Safety.{reply_type, handle_request-Goes}

-- What is allowed whichever files are open.
abbrev pub Permitted : (List ℕ → Type 0) → List ℕ → Bool → Call → Type 0
Permitted Canonical root writable (pread fd size offset) = Unit {0}
Permitted Canonical root writable (pwrite fd bytes offset) = writable ≡ true
Permitted Canonical root writable c = Allowed Canonical root writable [] c

Allowed-Permitted :
    (Canonical : List ℕ → Type 0) (root : List ℕ) (writable : Bool) (files : List (ℕ × OpenFile))
    (c : Call)
    → Allowed Canonical root writable files c
    → Permitted Canonical root writable c
Allowed-Permitted Canonical root writable files (realpath path) h = h
Allowed-Permitted Canonical root writable files (lstat path) h = h
Allowed-Permitted Canonical root writable files (list_dir path) h = h
Allowed-Permitted Canonical root writable files (open_path path flags) h = h
Allowed-Permitted Canonical root writable files (pread fd size offset) h = tt
Allowed-Permitted Canonical root writable files (pwrite fd bytes offset) h = h.1
Allowed-Permitted Canonical root writable files (close_fd fd) h = h
Allowed-Permitted Canonical root writable files (make_dir path mode) h = h
Allowed-Permitted Canonical root writable files (remove_dir path) h = h
Allowed-Permitted Canonical root writable files (unlink_path path) h = h
Allowed-Permitted Canonical root writable files (rename_path source target) h = h
Allowed-Permitted Canonical root writable files (truncate_path path size) h = h
Allowed-Permitted Canonical root writable files (attr_dir path) h = h
Allowed-Permitted Canonical root writable files (stat_attr fd name) h = h
Allowed-Permitted Canonical root writable files (get_attr fd name type size) h = h
Allowed-Permitted Canonical root writable files (put_attr fd name type value) h = h
Allowed-Permitted Canonical root writable files (query_volume path) h = h
Allowed-Permitted Canonical root writable files (new_query predicate) h = h
Allowed-Permitted Canonical root writable files (fetch_query query live) h = h
Allowed-Permitted Canonical root writable files (delete_query query) h = h
Allowed-Permitted Canonical root writable files (ref_path device directory name) h = h

-- One reply for each request, of the type that it asks for or an ERROR, and without a request id.
abbrev pub Replies : List Frame → List Frame → Type 0
Replies [] [] = Unit {0}
Replies [] (reply ∷ replies) = ⊥
Replies (request ∷ requests) [] = ⊥
Replies (request ∷ requests) (reply ∷ replies) =
    IsReply (reply_type request.type) reply × Replies requests replies

-- What holds behind the requests.
pub record SessionEnd (requests : List Frame) (s : FileServer) (a : List Frame × FileServer)
    : Type 0 where
  pub replies : Replies requests a.0
  pub server : IsServer a.1
  pub root : a.1.root ≡ s.root
  pub writable : a.1.writable ≡ s.writable

module _ (Canonical : List ℕ → Type 0) where
  abbrev Keeps : FileServer → {A : Type 0} → (A → Type 0) → Program A → Type 0
  Keeps s Q m = Every (Promise Canonical) (Permitted Canonical s.root s.writable) Q m

  Keeps-After :
      (s t : FileServer) {A : Type 0} (Q : A → Type 0) (m : Program A)
      → t.root ≡ s.root
      → t.writable ≡ s.writable
      → Keeps t Q m
      → Keeps s Q m
  Keeps-After s t Q m r w h = rw (← r, ← w) h

  handle_requests-Keeps :
      (requests : List Frame) (s : FileServer)
      → IsServer s
      → s.next_handle + length requests < 2 ^ 64
      → Keeps s (SessionEnd requests s) (handle_requests requests s)
  unfolding Every handle_requests
  handle_requests-Keeps [] s h n = record { replies = tt; server = h; root = refl; writable = refl }
  handle_requests-Keeps (request ∷ requests) s h n =
      Every-bind _ _ (Settled (reply_type request.type) s) (SessionEnd (request ∷ requests) s)
        (λ a. handle_requests requests a.1 >>= (λ b. done (a.0 ∷ b.0, b.1)))
        (handle_request request s)
        (Every-allow (Promise Canonical) (Allowed Canonical s.root s.writable s.open_files)
          (Permitted Canonical s.root s.writable) (Settled (reply_type request.type) s)
          (handle_request request s) (Allowed-Permitted Canonical s.root s.writable s.open_files)
          (handle_request-Goes Canonical s h request (omega (arith, n))))
        (λ a k.
          Every-bind _ _ (SessionEnd requests a.1) (SessionEnd (request ∷ requests) s)
            (λ b. done (a.0 ∷ b.0, b.1)) (handle_requests requests a.1)
            (Keeps-After s a.1 (SessionEnd requests a.1) (handle_requests requests a.1) k.1.root
              k.1.writable
              (handle_requests-Keeps requests a.1 k.1.server (omega (arith, n, k.1.next))))
            (λ b r. record {
              replies = (k.0, r.replies);
              server = r.server;
              root = r.root ∙ k.1.root;
              writable = r.writable ∙ k.1.writable;
            }))

pub new_server-IsServer :
    (root : List ℕ) (id : NodeIdentity) (w : Bool) → IsServer (new_server root id w)
unfolding Distinct
new_server-IsServer root id w = record {
  few = omega arith;
  distinct = tt;
  below = tt;
  authorised = tt;
}

-- Whatever the system does, if its `realpath` and BPath answer paths that have a property `Canonical`
-- and its directories list names, then whatever a peer requests one by one, as long as the handles do
-- not run out: a path that the server gives to `realpath` is the root with a rooted path behind it that
-- has no zero byte; each other path that it gives to a call passes the test of `Resolve` and is
-- canonical or a plain name in a canonical directory that passes it; a call that changes something is
-- made by a writable server only, and an `open` that can change something does not follow a link. Each
-- request gets one reply, of its type or an ERROR. Behind the requests at most 256 files are open under
-- distinct handles, below the next one, and only a writable server has one open for writing.
pub handle_requests-Permitted :
    {S : Type 0} (Canonical : List ℕ → Type 0) (system : (c : Call) → S → Answer c × S) (w : S)
    (requests : List Frame) (s : FileServer)
    → ((c : Call) (v : S) → Promise Canonical c (system c v).0)
    → IsServer s
    → s.next_handle + length requests < 2 ^ 64
    → All (Permitted Canonical s.root s.writable) (calls system (handle_requests requests s) w)
      × SessionEnd requests s (run system (handle_requests requests s) w).0
handle_requests-Permitted Canonical system w requests s kept h n =
    Every-run _ _ (SessionEnd requests s) system (handle_requests requests s) w kept
      (handle_requests-Keeps Canonical requests s h n)

-- On a server with at most 256 files open under distinct handles below the next one, which is not the
-- last uint64_t, and only on a writable one open for writing, and for a system whose `realpath` and BPath
-- answer paths with a property `Canonical` and whose directories list names: a request makes calls as
-- `handle_requests-Permitted` says, and besides it reads and writes by descriptors of open files only, and
-- writes by one that was opened for writing; it is answered by its type or an ERROR, the table of open
-- files is as described again, and the root and the policy are the same.
pub handle_request-Allowed :
    {S : Type 0} (Canonical : List ℕ → Type 0) (system : (c : Call) → S → Answer c × S) (w : S)
    (request : Frame) (s : FileServer)
    → ((c : Call) (v : S) → Promise Canonical c (system c v).0)
    → IsServer s
    → s.next_handle + 1 < 2 ^ 64
    → All
        (Allowed Canonical s.root s.writable s.open_files)
        (calls system (handle_request request s) w)
      × Settled (reply_type request.type) s (run system (handle_request request s) w).0
handle_request-Allowed Canonical system w request s kept h n =
    Every-run _ _ (Settled (reply_type request.type) s) system (handle_request request s) w kept
      (handle_request-Goes Canonical s h request n)
