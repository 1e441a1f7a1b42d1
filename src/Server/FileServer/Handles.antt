-- ===== src/Server/FileServer/Handles.antt =====
-- The life of a handle: from OPEN to CLOSE.
use campiello.Common.{
  ℕ, ◌+◌, ◌<◌, ◌≤◌, ◌^◌, ◌≡◌, ◌≢◌, refl, ap, ◌∙◌, Bool, true, false, List, ◌++◌, if◌then◌else◌,
  length, leb, none, some, [], ◌∷◌, Option, arith,
}
use campiello.Common.Int.{ℤ, pos}
use campiello.Common.Table.{
  lookup, lookup-fresh, remove, lookup-remove, lookup-insert, lookup-insert_removed,
}
use campiello.Wire.Cbor.Head.{IsU64}
use campiello.Wire.Error.{bad_handle, access_denied, is_a_directory}
use campiello.Wire.Frame.{Frame}
use campiello.Wire.FileOps.{
  max_path_bytes, max_read_length, make_open_request, make_open_reply, make_read_request,
  make_close_request, make_close_reply,
}
use campiello.Wire.FileOps.RoundTrip.{decode-encode_numbers, decode-encode_open_request}
use campiello.Server.Posix.{
  realpath, lstat, open_path, FileStat, Call, Answer, returned, Program, run, done, call, pread,
  close_fd, ◌>>=◌,
}
use campiello.Server.FileServer.{handle_request, handle_requests, keep}
use campiello.Server.FileServer.Paths.{
  error_frame, is_rooted, is_within, resolve, resolved, got, refused,
}
use campiello.Server.FileServer.Files.{
  FileServer, OpenFile, max_open_handles, wants_write, open_decoded, open_source, open_found,
  open_read, handle_open, as_off, opened, handle_read, handle_close, read_decoded, read_file,
  read_reply_of, close_decoded, close_file,
}
use campiello.Server.FileServer.Attrs.{as_uint64, read_only}
use campiello.Server.FileServer.Allowed.{IsServer}

pub as_off_small : (offset : ℕ) → offset < 2 ^ 63 → as_off offset ≡ pos offset
as_off_small offset h = ground arith

pub read-found :
    (s : FileServer) (handle offset n id : ℕ) (f : Option OpenFile)
    → IsU64 handle
    → IsU64 offset
    → n ≤ max_read_length
    → lookup handle s.open_files ≡ f
    → handle_request (make_read_request handle offset n id) s ≡ keep s (read_file offset n f)
unfolding handle_request handle_read
read-found s handle offset n id f h k m e =
    ap (λ o. keep s (read_decoded s o)) (decode-encode_numbers handle offset n h k m).1
    ∙ ap (λ g. keep s (read_file offset n g)) e

close-found :
    (s : FileServer) (handle id : ℕ) (f : Option OpenFile)
    → IsU64 handle
    → lookup handle s.open_files ≡ f
    → handle_request (make_close_request handle id) s ≡ close_file handle s f
unfolding handle_request handle_close
close-found s handle id f h e =
    ap (close_decoded s) (decode-encode_numbers handle 0 0 h (omega arith) (omega arith)).3
    ∙ ap (close_file handle s) e

-- The server behind the CLOSE of a handle.
abbrev pub closed : ℕ → FileServer → FileServer
closed handle s = record s { open_files = remove handle s.open_files }

read-close-read :
    (s : FileServer) (handle offset n i j k : ℕ) (f : OpenFile)
    → IsU64 handle
    → IsU64 offset
    → n ≤ max_read_length
    → lookup handle s.open_files ≡ some f
    → handle_requests
        (make_read_request handle offset n i
          ∷ make_close_request handle j
          ∷ make_read_request handle offset n k
          ∷ [])
        s
      ≡ call (pread f.fd n (as_off offset)) (λ o. call (close_fd f.fd) (λ u.
        done (read_reply_of o ∷ make_close_reply 0 ∷ error_frame bad_handle ∷ [], closed handle s)))
unfolding handle_requests
read-close-read s handle offset n i j k f h l m e =
    rw
      (
        read-found s handle offset n i (some f) h l m e,
        close-found s handle j (some f) h e,
        read-found (closed handle s) handle offset n k none h l m
            (lookup-remove handle s.open_files),
      )
      refl

-- The program of an OPEN for reading.
open-found :
    (s : FileServer) (path : List ℕ) (mode id : ℕ)
    → 1 ≤ length path
    → length path ≤ max_path_bytes
    → mode < 2 ^ 32
    → wants_write mode ≡ false
    → length s.open_files < max_open_handles
    → is_rooted path ≡ true
    → handle_request (make_open_request path mode id) s
      ≡ call (realpath (s.root ++ path)) (λ o. open_source s (resolved s.root o))
unfolding handle_request handle_open resolve
open-found s path mode id p q m reads few rooted =
    let room : leb max_open_handles (length s.open_files) ≡ false = ground arith in
    ap (open_decoded s) (decode-encode_open_request path mode (omega arith, q) m)
    ∙ rw (reads, room, rooted) refl

run-call :
    {A S : Type 0} (system : (c : Call) → S → Answer c × S) (c : Call) (k : Answer c → Program A)
    (w : S) (end : Answer c × S)
    → system c w ≡ end
    → run system (call c k) w ≡ run system (k end.0) end.1
unfolding run
run-call system c k w end e = ap (λ p. run system (k p.0) p.1) e

-- An OPEN for reading whose three calls succeed goes on behind the new handle.
run-open :
    {A S : Type 0} (system : (c : Call) → S → Answer c × S) (w w1 w2 w3 : S) (s : FileServer)
    (path real : List ℕ) (st : FileStat) (fd : ℕ) (after : Frame × FileServer → Program A)
    → system (realpath path) w ≡ (some real, w1)
    → is_within s.root real ≡ true
    → system (lstat real) w1 ≡ (some st, w2)
    → st.is_dir ≡ false
    → system (open_path real read_only) w2 ≡ (returned fd, w3)
    → run system (call (realpath path) (λ o. open_source s (resolved s.root o)) >>= after) w
      ≡ run system (after (opened false (as_uint64 st.size) s fd)) w3
run-open system w w1 w2 w3 s path real st fd after real_is within stat_is file open_is =
    run-call system (realpath path) (λ o. open_source s (resolved s.root o) >>= after) w _ real_is
    ∙ ap
        (λ (b : Bool).
          run system (open_source s (if b then got real else refused access_denied) >>= after) w1)
        within
    ∙ run-call system (lstat real) (λ o. open_found real s o >>= after) w1 _ stat_is
    ∙ ap
        (λ (b : Bool).
          run system
            ((if b
                then done (error_frame is_a_directory, s)
                else call (open_path real read_only) (λ o. open_read (as_uint64 st.size) s o))
              >>= after)
            w2)
        file
    ∙ run-call system (open_path real read_only) (λ o. open_read (as_uint64 st.size) s o >>= after)
        w2 _ open_is

-- An OPEN for reading of a rooted path of 1 to 1024 bytes, with a uint32_t mode, on a server with less than
-- 256 files open under distinct handles below the next one, which is not the last uint64_t, where the system
-- gives the path below the root as a real one within the root that is a file, and opens it: the reply tells the next handle,
-- which was not in use, and the size of the file. READ by it, at an offset below 2^63 and with a length of
-- at most 1 MiB, gives what pread answers for the descriptor, the offset and the length; CLOSE is
-- acknowledged, after which READ by the handle is refused as a bad handle; and every other handle has the
-- file that it had before OPEN.
pub open-read-close :
    {S : Type 0} (system : (c : Call) → S → Answer c × S) (w w1 w2 w3 : S) (s : FileServer)
    (path real : List ℕ) (st : FileStat) (mode fd offset n h i j k other : ℕ)
    → IsServer s
    → length s.open_files < max_open_handles
    → s.next_handle + 1 < 2 ^ 64
    → 1 ≤ length path
    → length path ≤ max_path_bytes
    → mode < 2 ^ 32
    → wants_write mode ≡ false
    → is_rooted path ≡ true
    → system (realpath (s.root ++ path)) w ≡ (some real, w1)
    → is_within s.root real ≡ true
    → system (lstat real) w1 ≡ (some st, w2)
    → st.is_dir ≡ false
    → system (open_path real read_only) w2 ≡ (returned fd, w3)
    → offset < 2 ^ 63
    → n ≤ max_read_length
    → other ≢ s.next_handle
    → let handle = s.next_handle in
      let a =
        run system
          (handle_requests
            (make_open_request path mode h
              ∷ make_read_request handle offset n i
              ∷ make_close_request handle j
              ∷ make_read_request handle offset n k
              ∷ [])
            s)
          w in
      (a.0.0
        ≡ make_open_reply handle (as_uint64 st.size) 0
          ∷ read_reply_of (system (pread fd n (pos offset)) w3).0
          ∷ make_close_reply 0
          ∷ error_frame bad_handle
          ∷ [])
      × (lookup handle s.open_files ≡ none)
      × (lookup handle a.0.1.open_files ≡ none)
      × (lookup other a.0.1.open_files ≡ lookup other s.open_files)
unfolding run handle_requests
open-read-close {S = S} system w w1 w2 w3 s path real st mode fd offset n h i j k other server few
      next p q m reads rooted real_is within stat_is file open_is o l apart =
    let size = as_uint64 st.size in
    let kept : OpenFile = record { fd = fd; writable = false } in
    let ends = (opened false size s fd).1 in
    let requests =
      make_read_request s.next_handle offset n i
      ∷ make_close_request s.next_handle j
      ∷ make_read_request s.next_handle offset n k
      ∷ [] in
    let after : Frame × FileServer → Program (List Frame × FileServer) =
      λ a. handle_requests requests a.1 >>= (λ b. done (a.0 ∷ b.0, b.1)) in
    let rest =
      read-close-read ends s.next_handle offset n i j k kept (omega arith) (omega arith) l
        (lookup-insert s.next_handle kept s.open_files) in
    let finish : List Frame × FileServer → Program (List Frame × FileServer) =
      λ b. done (make_open_reply s.next_handle size 0 ∷ b.0, b.1) in
    let replies : ℤ → List Frame = λ z.
      make_open_reply s.next_handle size 0
      ∷ read_reply_of (system (pread fd n z) w3).0
      ∷ make_close_reply 0
      ∷ error_frame bad_handle
      ∷ [] in
    let whole =
      ap (λ (m : Program (Frame × FileServer)). (run system (m >>= after) w).0)
        (open-found s path mode h p q m reads few rooted)
      ∙ ap (λ (a : (List Frame × FileServer) × S). a.0)
          (run-open system w w1 w2 w3 s (s.root ++ path) real st fd after real_is within stat_is
            file open_is)
      ∙ ap (λ (m : Program (List Frame × FileServer)). (run system (m >>= finish) w3).0) rest
      ∙ ap (λ (z : ℤ). (replies z, closed s.next_handle ends)) (as_off_small offset o) in
    (
      ap (λ (a : List Frame × FileServer). a.0) whole,
      lookup-fresh s.next_handle s.open_files server.below,
      ap (λ (a : List Frame × FileServer). lookup s.next_handle a.1.open_files) whole
          ∙ lookup-remove s.next_handle ends.open_files,
      ap (λ (a : List Frame × FileServer). lookup other a.1.open_files) whole
          ∙ lookup-insert_removed other s.next_handle kept s.open_files apart,
    )
