-- ===== src/Tests/Dispatch.antt =====
-- Requests and replies at concrete frames.
use campiello.Common.{length, ◌≤◌, ℕ, suc, ◌≡◌, refl, Bool, true, List, [], ◌∷◌, ◌++◌}
use campiello.Wire.MessageType
use campiello.Wire.Frame.{Frame}
use campiello.Dispatch.{with_id, find_pending, new_client, replied, take_id, request}
use campiello.Dispatch.FrameWriter.{
  FrameWriter, new_writer, start, enqueue_frame, request_stop, run_section, send_frame, starts,
  enqueues, stops, runs, sends, Reachable, new, then_step,
}
use campiello.Dispatch.FrameWriter.Steps.{in_flight}
use campiello.Dispatch.FrameWriter.Order.{Drained, Reachable-order}
use campiello.Dispatch.Serve.{Turn, section, send_ends, push, turns, serve, serve_connection}
use campiello.Dispatch.Serve.Delivery.{first_served, request-serve}
use campiello.Dispatch.Replies.{RequestEnds, keep_all, latest_of, request-Ends, request-finds}

abbrev ask : Frame
ask = record { version = 1; type = MessageType.stat_message; request_id = 0; payload = [] }

abbrev always : Frame → Bool
always f = true

-- A handler that echoes under a wrong id.
abbrev echo : Frame → ℕ → Frame × ℕ
echo f n = (with_id 99 f, suc n)

request-Ends_example :
    RequestEnds 1 (request always ask (with_id 3 ask ∷ with_id 1 ask ∷ []) new_client)
request-Ends_example = request-Ends always ask (with_id 3 ask ∷ with_id 1 ask ∷ []) new_client

request-finds_example :
    (request always ask ((with_id 3 ask ∷ []) ++ (with_id 1 ask ∷ [])) new_client
      ≡ replied
          (with_id 1 ask)
          []
          (record (take_id new_client) { pending = keep_all (with_id 3 ask ∷ []) [] }))
    × (find_pending 3 (keep_all (with_id 3 ask ∷ []) [])
        ≡ latest_of 3 (with_id 3 ask ∷ []) (find_pending 3 []))
unfolding find_pending
request-finds_example =
    request-finds always ask (with_id 3 ask ∷ []) (with_id 1 ask) [] new_client 3 refl refl
      (refl, tt) refl

-- The handler pushes a frame before its reply; the thread sends both.
abbrev pushes_first : List Turn
pushes_first = push (with_id 0 ask) ∷ section ∷ []

abbrev sends_both : List Turn
sends_both = send_ends true ∷ section ∷ send_ends true ∷ []

abbrev connection : FrameWriter
connection = first_served echo 4 (with_id 1 ask) pushes_first sends_both [] [] (section ∷ []) 0

request-serve_example :
    (pushed : List Frame) × (rest : List Frame) × (request always ask connection.sent new_client
      ≡ replied
          (with_id 1 (with_id 99 (with_id 1 ask)))
          rest
          (record (take_id new_client) { pending = keep_all pushed [] }))
unfolding find_pending turns serve serve_connection
request-serve_example =
    request-serve echo 4 pushes_first sends_both [] [] (section ∷ []) 0 always ask new_client refl
      refl (refl, (tt, tt)) refl refl

-- A writer that is started, accepts a frame, sends it, is stopped and returns.
abbrev sending_writer : FrameWriter
sending_writer = run_section (enqueue_frame ask (start (new_writer 4)))

abbrev stopped_writer : FrameWriter
stopped_writer = run_section (request_stop (send_frame true ask sending_writer))

stopped_writer-Reachable : Reachable 4 stopped_writer
stopped_writer-Reachable =
    then_step
      (then_step
        (then_step (then_step (then_step (then_step new starts) (enqueues ask)) (runs refl refl))
          (sends true ask refl))
        stops)
      (runs refl refl)

Reachable-order_example :
    (stopped_writer.accepted
      ≡ stopped_writer.sent ++ (in_flight stopped_writer.thread ++ stopped_writer.queue))
    × (length stopped_writer.queue ≤ 4)
    × Drained stopped_writer.thread stopped_writer
Reachable-order_example = Reachable-order 4 stopped_writer stopped_writer-Reachable
