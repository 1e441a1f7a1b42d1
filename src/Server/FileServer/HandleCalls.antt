-- ===== src/Server/FileServer/HandleCalls.antt =====
-- READ, WRITE and CLOSE, on the calls that they make, their replies and the table of open files.
use campiello.Common.{ℕ, ◌<◌, ◌≡◌, refl, inl, true, not, ◌||◌, Option, none, some, List, arith}
use campiello.Common.Table.{lookup, remove, length-remove, All-remove, All-lookup, remove-Distinct}
use campiello.Wire.MessageType
use campiello.Wire.Error.{access_denied}
use campiello.Wire.FileOps.{decode_read_request, decode_write_request, decode_close_request}
use campiello.Server.Posix.{Returned, failed, returned}
use campiello.Server.Posix.Every.{Every, Every-if}
use campiello.Server.FileServer.Files.{
  FileServer, OpenFile, read_reply_of, read_file, read_decoded, handle_read, write_reply_of,
  write_file, write_decoded, handle_write, close_file, close_decoded, handle_close,
}
use campiello.Server.FileServer.Allowed.{IsReply, IsServer, After}
use campiello.Server.FileServer.TreeCalls.{error-IsReply}
use campiello.Server.FileServer.FileCalls.{Settled, Goes, unchanged}

read_reply_of-IsReply : (o : Option (List ℕ)) → IsReply MessageType.read (read_reply_of o)
read_reply_of-IsReply none = error-IsReply _ _
read_reply_of-IsReply (some bytes) = (refl, inl refl)

write_reply_of-IsReply : (o : Returned ℕ) → IsReply MessageType.write_message (write_reply_of o)
write_reply_of-IsReply (failed e) = error-IsReply _ _
write_reply_of-IsReply (returned n) = (refl, inl refl)

module _ (Canonical : List ℕ → Type 0) (s : FileServer) (h : IsServer s) where
  read-Goes :
      (o : Option (ℕ × ℕ × ℕ)) → Goes Canonical s h (IsReply MessageType.read) (read_decoded s o)
  unfolding Every
  read-Goes none = error-IsReply _ _
  read-Goes (some (handle, offset, size)) = go (lookup handle s.open_files) refl
    where
      go :
          (f : Option OpenFile)
          → lookup handle s.open_files ≡ f
          → Goes Canonical s h (IsReply MessageType.read) (read_file offset size f)
      go none e = error-IsReply _ _
      go (some f) e = ((handle, f, e, refl), λ o p. read_reply_of-IsReply o)

  write-Goes :
      (o : Option (ℕ × ℕ × List ℕ))
      → Goes Canonical s h (IsReply MessageType.write_message) (write_decoded s o)
  unfolding Every
  write-Goes none = error-IsReply _ _
  write-Goes (some (handle, offset, bytes)) = go (lookup handle s.open_files) refl
    where
      go :
          (f : Option OpenFile)
          → lookup handle s.open_files ≡ f
          → Goes Canonical s h (IsReply MessageType.write_message) (write_file offset bytes f)
      go none e = error-IsReply _ _
      go (some f) e =
          Every-if _ _ _ f.writable _ _
            (λ w.
              let may : (not f.writable || s.writable) ≡ true =
                All-lookup (λ e. (not e.1.writable || s.writable) ≡ true) handle f s.open_files
                  h.authorised e in
              (((handle, f, e, refl, w), ground (arith, w, may)), λ o p. write_reply_of-IsReply o))
            (λ w. error-IsReply _ access_denied)

  removed-After : (handle : ℕ) → After s (record s { open_files = remove handle s.open_files })
  removed-After handle = record {
    server = record {
      few = omega (arith, h.few, length-remove handle s.open_files);
      distinct = remove-Distinct handle s.open_files h.distinct;
      below = All-remove (λ e. e.0 < s.next_handle) handle s.open_files h.below;
      authorised =
          All-remove (λ e. (not e.1.writable || s.writable) ≡ true) handle s.open_files
            h.authorised;
    };
    root = refl;
    writable = refl;
    next = omega arith;
  }

  close-Goes : (o : Option ℕ) → Goes Canonical s h (Settled MessageType.close s) (close_decoded s o)
  unfolding Every
  close-Goes none = (error-IsReply _ _, unchanged s h)
  close-Goes (some handle) = go (lookup handle s.open_files)
    where
      go :
          (f : Option OpenFile)
          → Goes Canonical s h (Settled MessageType.close s) (close_file handle s f)
      go none = (error-IsReply _ _, unchanged s h)
      go (some f) = (tt, λ o p. ((refl, inl refl), removed-After handle))

  pub handle_read-Goes :
      (payload : List ℕ) → Goes Canonical s h (IsReply MessageType.read) (handle_read payload s)
  unfolding handle_read
  handle_read-Goes payload = read-Goes (decode_read_request payload)

  pub handle_write-Goes :
      (payload : List ℕ)
      → Goes Canonical s h (IsReply MessageType.write_message) (handle_write payload s)
  unfolding handle_write
  handle_write-Goes payload = write-Goes (decode_write_request payload)

  pub handle_close-Goes :
      (payload : List ℕ) → Goes Canonical s h (Settled MessageType.close s) (handle_close payload s)
  unfolding handle_close
  handle_close-Goes payload = close-Goes (decode_close_request payload)
