-- ===== src/Fondamenta/CnpBackend/Denied.antt =====
-- A backend that asks a read-only file server for changes.
use campiello.Common.{ℕ, ◌≡◌, ap, ◌∙◌, Bool, false, List, if◌then◌else◌}
use campiello.Wire.MessageType
use campiello.Wire.Frame.{Frame}
use campiello.Wire.Error.{access_denied}
use campiello.Wire.FileOps.{decode_ok}
use campiello.Wire.Attributes.{Attr}
use campiello.Wire.AttrOps.{make_write_attrs_request}
use campiello.Wire.Namespace.{
  make_mkdir_request, make_unlink_request, make_rename_request, make_truncate_request,
}
use campiello.Dispatch.{with_id, request}
use campiello.Server.Posix.{Call, Answer, Program, done, run}
use campiello.Server.FileServer.{handle_request, keep}
use campiello.Server.FileServer.Paths.{error_frame}
use campiello.Server.FileServer.Files.{FileServer}
use campiello.Server.FileServer.Tree.{
  if_writable, handle_mkdir, handle_unlink, handle_rename, handle_truncate, handle_write_attrs,
}
use campiello.Fondamenta.PeerBackend.{BackendResult, status, access_denied_status}
use campiello.Fondamenta.CnpBackend.{
  CnpBackend, from_error_code, on_reply, exchange, mkdir_peer, unlink_peer, rename_peer,
  truncate_peer, write_attrs_peer,
}
use campiello.Fondamenta.CnpBackend.EndToEnd.{
  Course, Carries, received, exchange-serving, on_reply-error,
}

denied-code :
    (type : ℕ) → on_reply type decode_ok (error_frame access_denied) ≡ status access_denied_status
unfolding from_error_code
denied-code type = on_reply-error type decode_ok access_denied

-- A read-only server's replies, whatever the payload.
module _ {S : Type 0} (system : (c : Call) → S → Answer c × S) where
  locked-reply :
      (s : FileServer) (w : S) (m : Program Frame)
      → s.writable ≡ false
      → (run system (keep s (if_writable s m)) w).0.0 ≡ error_frame access_denied
  unfolding run
  locked-reply s w m e =
      ap
        (λ (v : Bool).
          (run system (keep s (if v then m else done (error_frame access_denied))) w).0.0)
        e

  run-mkdir :
      (request : Frame) (s : FileServer) (w : S)
      → s.writable ≡ false
      → (run system (keep s (handle_mkdir request.payload s)) w).0.0 ≡ error_frame access_denied
  unfolding handle_mkdir
  run-mkdir request s w e = locked-reply s w _ e

  run-unlink :
      (request : Frame) (s : FileServer) (w : S)
      → s.writable ≡ false
      → (run system (keep s (handle_unlink request.payload s)) w).0.0 ≡ error_frame access_denied
  unfolding handle_unlink
  run-unlink request s w e = locked-reply s w _ e

  run-rename :
      (request : Frame) (s : FileServer) (w : S)
      → s.writable ≡ false
      → (run system (keep s (handle_rename request.payload s)) w).0.0 ≡ error_frame access_denied
  unfolding handle_rename
  run-rename request s w e = locked-reply s w _ e

  run-truncate :
      (request : Frame) (s : FileServer) (w : S)
      → s.writable ≡ false
      → (run system (keep s (handle_truncate request.payload s)) w).0.0 ≡ error_frame access_denied
  unfolding handle_truncate
  run-truncate request s w e = locked-reply s w _ e

  run-write_attrs :
      (request : Frame) (s : FileServer) (w : S)
      → s.writable ≡ false
      → (run system (keep s (handle_write_attrs request.payload s)) w).0.0
        ≡ error_frame access_denied
  unfolding handle_write_attrs
  run-write_attrs request s w e = locked-reply s w _ e

-- CnpBackend's Mkdir, Unlink, Rename, Truncate and WriteAttrs, of a server that shares read-only and takes
-- the request as the first of a connection that carries the reply, are denied access, whatever the paths
-- and values and whatever the system does. A connection carries the reply where the request is sent, no
-- reply is stashed under its id and none is pushed under it before the reply, and the server's writer did
-- not fail and has ended.
pub changes-denied :
    {S : Type 0} (system : (c : Call) → S → Answer c × S) (path target : List ℕ) (mode size : ℕ)
    (attrs : List Attr) (send : Frame → Bool) (b : CnpBackend) (k : Course) (s : FileServer) (w : S)
    → Carries system send (make_mkdir_request path mode 0) b k s w
    → Carries system send (make_unlink_request path 0) b k s w
    → Carries system send (make_rename_request path target 0) b k s w
    → Carries system send (make_truncate_request path size 0) b k s w
    → Carries system send (make_write_attrs_request path attrs 0) b k s w
    → s.writable ≡ false
    → let through : Frame → List Frame = λ r. received system r b k s w in
      let denied : BackendResult (Unit {0}) = status access_denied_status in
      ((mkdir_peer path mode send (through (make_mkdir_request path mode 0)) b).0 ≡ denied)
      × ((unlink_peer path send (through (make_unlink_request path 0)) b).0 ≡ denied)
      × ((rename_peer path target send (through (make_rename_request path target 0)) b).0 ≡ denied)
      × ((truncate_peer path size send (through (make_truncate_request path size 0)) b).0 ≡ denied)
      × ((write_attrs_peer path attrs send (through (make_write_attrs_request path attrs 0)) b).0
          ≡ denied)
unfolding handle_request
changes-denied system path target mode size attrs send b k s w c1 c2 c3 c4 c5 locked =
    let id = b.client.next_id in
    let refused : (r : Frame) (type : ℕ)
        → Carries system send r b k s w
        → (run system (handle_request (with_id id r) s) w).0.0 ≡ error_frame access_denied
        → (exchange r type decode_ok send (received system r b k s w) b).0
          ≡ status access_denied_status =
      λ r type c e.
        exchange-serving system r type decode_ok send b k s w c
        ∙ ap (on_reply type decode_ok) e
        ∙ denied-code type in
    (
      refused (make_mkdir_request path mode 0) MessageType.mkdir c1
          (run-mkdir system (make_mkdir_request path mode id) s w locked),
      refused (make_unlink_request path 0) MessageType.unlink c2
          (run-unlink system (make_unlink_request path id) s w locked),
      refused (make_rename_request path target 0) MessageType.rename c3
          (run-rename system (make_rename_request path target id) s w locked),
      refused (make_truncate_request path size 0) MessageType.truncate c4
          (run-truncate system (make_truncate_request path size id) s w locked),
      refused (make_write_attrs_request path attrs 0) MessageType.write_attrs c5
          (run-write_attrs system (make_write_attrs_request path attrs id) s w locked),
    )
