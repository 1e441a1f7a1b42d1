-- ===== src/Dispatch/Serve.antt =====
-- src/traghetto/dispatch/Dispatch.cpp, ServeConnection: it answers requests in order, through the writer of
-- the connection. Between its own calls of the writer the writer's thread and the pushes of the handler
-- take turns, as a list of turns says.
pub mod Steps
pub mod Growth
pub mod Delivery
use campiello.Common.{ℕ, Bool, true, false, ◌&&◌, List, [], ◌∷◌, if◌then◌else◌}
use campiello.Wire.Frame.{Frame}
use campiello.Dispatch.{with_id}
use campiello.Dispatch.FrameWriter.{
  Thread, unstarted, waiting, returned, sending, broken, FrameWriter, new_writer, start,
  enqueue_frame, request_stop, awake, run_section, send_frame,
}

-- The section of the thread under the mutex, its Send with what that returns, or a frame that the handler
-- pushes through the sink.
pub data Turn : Type 0 where
  section : Turn
  send_ends : Bool → Turn
  push : Frame → Turn

abbrev pub is_waiting : Thread → Bool
is_waiting unstarted = false
is_waiting waiting = true
is_waiting returned = false
is_waiting (sending f) = false
is_waiting (broken f) = false

abbrev pub end_send : Bool → Thread → FrameWriter → FrameWriter
end_send ok unstarted w = w
end_send ok waiting w = w
end_send ok returned w = w
end_send ok (sending f) w = send_frame ok f w
end_send ok (broken f) w = w

-- A turn that is not due changes nothing.
abbrev pub turn : Turn → FrameWriter → FrameWriter
turn section w = if is_waiting w.thread && awake w then run_section w else w
turn (send_ends ok) w = end_send ok w.thread w
turn (push f) w = enqueue_frame f w

unfoldable pub turns : List Turn → FrameWriter → FrameWriter
turns [] w = w
turns (t ∷ more) w = turns more (turn t w)

-- A received request, with the turns up to the Enqueue of its reply and those from there to the test of
-- Failed.
pub record Served : Type 0 where
  pub request : Frame
  pub before_enqueue : List Turn
  pub before_test : List Turn

-- `writer.Enqueue(reply)` and the turns around it.
abbrev pub answer : Served → Frame → FrameWriter → FrameWriter
answer v reply w =
    turns v.before_test
      (enqueue_frame (with_id v.request.request_id reply) (turns v.before_enqueue w))

-- `for (;;)`: the writer and the handler's state where the loop ends.
unfoldable pub serve :
    {S : Type 0} → (Frame → S → Frame × S) → List Served → S → FrameWriter → FrameWriter × S
serve handle [] s w = (w, s)
serve handle (v ∷ served) s w =
    let next = handle v.request s in
    let answered = answer v next.0 w in
    let rest = serve handle served next.1 answered in
    if answered.failed then (answered, next.1) else rest

-- `ServeConnection`: the turns behind the loop are those up to Stop, and those while Stop joins.
unfoldable pub serve_connection :
    {S : Type 0}
    → (Frame → S → Frame × S)
    → ℕ
    → List Served
    → List Turn
    → List Turn
    → S
    → FrameWriter × S
serve_connection handle max_queued served before_stop joining s =
    let looped = serve handle served s (start (new_writer max_queued)) in
    (turns joining (request_stop (turns before_stop looped.0)), looped.1)
