-- ===== src/Fondamenta/CnpBackend/EndToEnd.antt =====
-- A backend that talks to a file server.
use campiello.Common.{ℕ, ◌==◌, false, All, ◌≡◌, ap, Bool, true, Option, none, some, List, [], arith}
use campiello.Common.Int.{pos}
use campiello.Wire.MessageType
use campiello.Wire.Frame.{Frame}
use campiello.Wire.Error.{ErrorCode, error_number}
use campiello.Wire.Error.Messages.{decode-encode_error}
use campiello.Dispatch.{with_id, find_pending}
use campiello.Dispatch.FrameWriter.{FrameWriter, returned}
use campiello.Dispatch.Serve.{Turn, Served}
use campiello.Dispatch.Serve.Growth.{Pushes}
use campiello.Dispatch.Serve.Delivery.{first_served, request-serve}
use campiello.Server.Posix.{Call, Answer, pread, run}
use campiello.Server.FileServer.{handle_request}
use campiello.Server.FileServer.Paths.{error_frame}
use campiello.Server.FileServer.Files.{FileServer, OpenFile}
use campiello.Fondamenta.PeerBackend.{BackendResult, ok, status, io_error_status, bad_handle_status}
use campiello.Fondamenta.CnpBackend.{
  CnpBackend, from_error_code, from_error_frame, error_status, on_reply, on_requested, exchange,
}

-- A file server on a system, as the handler of a connection.
abbrev pub serving :
    {S : Type 0}
    → ((c : Call) → S → Answer c × S)
    → Frame
    → FileServer × S
    → Frame × (FileServer × S)
serving system r (s, w) = let a = run system (handle_request r s) w in (a.0.0, (a.0.1, a.1))

-- How a connection goes whose first request is the backend's: what bounds its writer, the turns around
-- the reply, the requests behind it, and the turns at the end.
pub record Course : Type 0 where
  pub max_queued : ℕ
  pub before : List Turn
  pub behind : List Turn
  pub served : List Served
  pub before_stop : List Turn
  pub joining : List Turn

-- The server's writer where the connection has ended.
abbrev pub final_writer :
    {S : Type 0}
    → ((c : Call) → S → Answer c × S)
    → Frame
    → CnpBackend
    → Course
    → FileServer
    → S
    → FrameWriter
final_writer system r b k s w =
    first_served (serving system) k.max_queued (with_id b.client.next_id r) k.before k.behind
      k.served k.before_stop k.joining (s, w)

-- What a backend receives for its request.
abbrev pub received :
    {S : Type 0}
    → ((c : Call) → S → Answer c × S)
    → Frame
    → CnpBackend
    → Course
    → FileServer
    → S
    → List Frame
received system r b k s w = (final_writer system r b k s w).sent

-- The connection carries the reply to a request: the request is sent, no reply to it is stashed or pushed
-- under its id before the reply, and the server's writer did not fail and has ended.
pub record Carries {S : Type 0} (system : (c : Call) → S → Answer c × S) (send : Frame → Bool)
    (r : Frame) (b : CnpBackend) (k : Course) (s : FileServer) (w : S) : Type 0 where
  pub sent : send (with_id b.client.next_id r) ≡ true
  pub free : find_pending b.client.next_id b.client.pending ≡ none
  pub apart : All (Pushes (λ f. (f.request_id == b.client.next_id) ≡ false)) k.before
  pub ended : (final_writer system r b k s w).thread ≡ returned
  pub up : (final_writer system r b k s w).failed ≡ false

-- An operation's result is what it makes of the server's reply.
pub exchange-serving :
    {A S : Type 0} (system : (c : Call) → S → Answer c × S) (r : Frame) (type : ℕ)
    (decode : List ℕ → Option A) (send : Frame → Bool) (b : CnpBackend) (k : Course)
    (s : FileServer) (w : S)
    → Carries system send r b k s w
    → (exchange r type decode send (received system r b k s w) b).0
      ≡ on_reply type decode (run system (handle_request (with_id b.client.next_id r) s) w).0.0
unfolding on_reply from_error_frame
exchange-serving system r type decode send b k s w h =
    let (pushed, rest, e) =
      request-serve (serving system) k.max_queued k.before k.behind k.served k.before_stop k.joining
        (s, w) send r b.client h.sent h.free h.apart h.ended h.up in
    ap (λ q. (on_requested type decode b q).0) e

pub on_reply-error :
    {A : Type 0} (type : ℕ) (decode : List ℕ → Option A) (code : ErrorCode)
    → on_reply type decode (error_frame code) ≡ status (from_error_code (error_number code))
unfolding on_reply from_error_frame
on_reply-error type decode code =
    ap (λ o. status (error_status o)) (decode-encode_error code [] (omega arith))

-- What a READ by a handle comes to, by the system's answer.
abbrev pub read_outcome : Option (List ℕ) → BackendResult (List ℕ)
read_outcome none = status io_error_status
read_outcome (some bytes) = ok bytes

abbrev pub file_outcome :
    {S : Type 0}
    → ((c : Call) → S → Answer c × S)
    → S
    → ℕ
    → ℕ
    → Option OpenFile
    → BackendResult (List ℕ)
file_outcome system w offset n none = status bad_handle_status
file_outcome system w offset n (some f) = read_outcome (system (pread f.fd n (pos offset)) w).0
