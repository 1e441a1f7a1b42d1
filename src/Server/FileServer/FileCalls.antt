-- ===== src/Server/FileServer/FileCalls.antt =====
-- OPEN, on the calls that it makes, its reply and the table of open files.
use campiello.Common.{
  ℕ, ◌+◌, ◌%◌, ◌<◌, ◌^◌, ◌≡◌, refl, inl, Bool, true, false, not, ◌&&◌, ◌||◌, Option, none, some,
  List, leb, length, arith,
}
use campiello.Common.Table.{
  remove, lookup-remove, length-remove, All-remove, All-weaken, Distinct, remove-Distinct,
}
use campiello.Wire.MessageType
use campiello.Wire.Frame.{Frame}
use campiello.Wire.Error.{access_denied, is_a_directory, too_many_open}
use campiello.Wire.FileOps.{decode_open_request}
use campiello.Server.Posix.{Returned, failed, returned, FileStat, Program, done, call, open_path}
use campiello.Server.Posix.Every.{Every, Every-bind, Every-if}
use campiello.Server.FileServer.Paths.{
  Resolution, refused, got, error_frame, resolve, resolve_for_create,
}
use campiello.Server.FileServer.Attrs.{as_uint64, read_only}
use campiello.Server.FileServer.Files.{
  FileServer, max_open_handles, wants_write, opened, open_written, open_target, open_read,
  open_found, open_source, open_decoded, handle_open,
}
use campiello.Server.FileServer.Allowed.{Placed, IsReply, IsServer, After, at}
use campiello.Server.FileServer.Resolving.{
  Gives, Inner, Makes, resolve-Makes, resolve_for_create-Makes,
}
use campiello.Server.FileServer.TreeCalls.{error-IsReply}

-- A reply of the type, and a server as it may be behind the request.
abbrev pub Settled : ℕ → FileServer → (Frame × FileServer) → Type 0
Settled type s a = IsReply type a.0 × After s a.1

pub unchanged : (s : FileServer) → IsServer s → After s s
unchanged s h = record { server = h; root = refl; writable = refl; next = omega arith }

opened-Settled :
    (writable : Bool) (size : ℕ) (s : FileServer) (fd : ℕ)
    → IsServer s
    → s.next_handle + 1 < 2 ^ 64
    → length s.open_files < max_open_handles
    → (not writable || s.writable) ≡ true
    → Settled MessageType.open_file s (opened writable size s fd)
unfolding Distinct
opened-Settled writable size s fd h n room w =
    let next : (s.next_handle + 1) % 2 ^ 64 ≡ s.next_handle + 1 = omega arith in
    (
      (refl, inl refl),
      record {
        server = record {
          few = omega (arith, length-remove s.next_handle s.open_files);
          distinct = (
            lookup-remove s.next_handle s.open_files,
            remove-Distinct s.next_handle s.open_files h.distinct,
          );
          below = (
            omega (arith, next),
            All-weaken (λ e. e.0 < s.next_handle) (λ e. e.0 < (s.next_handle + 1) % 2 ^ 64)
                (remove s.next_handle s.open_files) (λ e k. omega (arith, next))
                (All-remove (λ e. e.0 < s.next_handle) s.next_handle s.open_files h.below),
          );
          authorised = (
            w,
            All-remove (λ e. (not e.1.writable || s.writable) ≡ true) s.next_handle s.open_files
                h.authorised,
          );
        };
        root = refl;
        writable = refl;
        next = omega (arith, next);
      },
    )

module _ (Canonical : List ℕ → Type 0) (s : FileServer) (h : IsServer s) where
  abbrev pub Goes : {A : Type 0} → (A → Type 0) → Program A → Type 0
  Goes Q m = Makes Canonical s.root s.writable s.open_files Q m

  open_written-Goes :
      (o : Returned ℕ)
      → s.next_handle + 1 < 2 ^ 64
      → length s.open_files < max_open_handles
      → s.writable ≡ true
      → Goes (Settled MessageType.open_file s) (open_written s o)
  unfolding Every
  open_written-Goes (failed e) n room w = (error-IsReply _ _, unchanged s h)
  open_written-Goes (returned fd) n room w = opened-Settled true 0 s fd h n room w

  open_target-Goes :
      (mode : ℕ) (a : Resolution (List ℕ))
      → s.next_handle + 1 < 2 ^ 64
      → length s.open_files < max_open_handles
      → s.writable ≡ true
      → Gives (Placed Canonical s.root) a
      → Goes (Settled MessageType.open_file s) (open_target mode s a)
  unfolding Every
  open_target-Goes mode (refused code) n room w g = (error-IsReply _ code, unchanged s h)
  open_target-Goes mode (got path) n room w g =
      ((g, simp w refl), λ o p. open_written-Goes o n room w)

  open_read-Goes :
      (size : ℕ) (o : Returned ℕ)
      → s.next_handle + 1 < 2 ^ 64
      → length s.open_files < max_open_handles
      → Goes (Settled MessageType.open_file s) (open_read size s o)
  unfolding Every
  open_read-Goes size (failed e) n room = (error-IsReply _ _, unchanged s h)
  open_read-Goes size (returned fd) n room = opened-Settled false size s fd h n room refl

  open_found-Goes :
      (path : List ℕ) (o : Option FileStat)
      → s.next_handle + 1 < 2 ^ 64
      → length s.open_files < max_open_handles
      → Placed Canonical s.root path
      → Goes (Settled MessageType.open_file s) (open_found path s o)
  unfolding Every
  open_found-Goes path none n room g = (error-IsReply _ _, unchanged s h)
  open_found-Goes path (some st) n room g =
      Every-if _ _ _ st.is_dir (done (error_frame is_a_directory, s))
        (call (open_path path read_only) (λ o. open_read (as_uint64 st.size) s o))
        (λ e. (error-IsReply _ _, unchanged s h))
        (λ e. ((g, refl), λ o p. open_read-Goes (as_uint64 st.size) o n room))

  open_source-Goes :
      (a : Resolution (List ℕ))
      → s.next_handle + 1 < 2 ^ 64
      → length s.open_files < max_open_handles
      → Gives (Inner Canonical s.root) a
      → Goes (Settled MessageType.open_file s) (open_source s a)
  unfolding Every
  open_source-Goes (refused code) n room g = (error-IsReply _ code, unchanged s h)
  open_source-Goes (got path) n room g =
      ((at path g.0, g.1), λ o p. open_found-Goes path o n room (at path g.0, g.1))

  open-Goes :
      (o : Option (List ℕ × ℕ))
      → s.next_handle + 1 < 2 ^ 64
      → Goes (Settled MessageType.open_file s) (open_decoded s o)
  unfolding Every
  open-Goes none n = (error-IsReply _ _, unchanged s h)
  open-Goes (some (path, mode)) n =
      Every-if _ _ _ (wants_write mode && not s.writable) _ _
        (λ e. (error-IsReply _ access_denied, unchanged s h))
        (λ able.
          Every-if _ _ _ (leb max_open_handles (length s.open_files)) _ _
            (λ e. (error-IsReply _ too_many_open, unchanged s h))
            (λ few.
              let room : length s.open_files < max_open_handles = ground (arith, few) in
              Every-if _ _ _ (wants_write mode) _ _
                (λ e.
                  let w : s.writable ≡ true = ground (arith, e, able) in
                  Every-bind _ _ (Gives (Placed Canonical s.root)) _ (λ a. open_target mode s a)
                    (resolve_for_create s.root path)
                    (resolve_for_create-Makes Canonical s.root s.writable s.open_files path)
                    (λ a g. open_target-Goes mode a n room w g))
                (λ e.
                  Every-bind _ _ (Gives (Inner Canonical s.root)) _ (λ a. open_source s a)
                    (resolve s.root path)
                    (resolve-Makes Canonical s.root s.writable s.open_files path)
                    (λ a g. open_source-Goes a n room g))))

  pub handle_open-Goes :
      (payload : List ℕ)
      → s.next_handle + 1 < 2 ^ 64
      → Goes (Settled MessageType.open_file s) (handle_open payload s)
  unfolding handle_open
  handle_open-Goes payload n = open-Goes (decode_open_request payload) n
