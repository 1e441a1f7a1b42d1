-- ===== src/Dispatch/FrameWriter/Order.antt =====
-- Frames are sent in the order in which they were queued, and Stop drains the queue.
use campiello.Common.{
  ℕ, ◌≤◌, ◌≡◌, ◌⊎◌, inl, inr, sym, ap, ◌∙◌, true, List, ◌++◌, append-nil, length,
}
use campiello.Wire.Frame.{Frame}
use campiello.Dispatch.FrameWriter.{
  Thread, unstarted, waiting, returned, sending, broken, FrameWriter, Reachable,
}
use campiello.Dispatch.FrameWriter.Steps.{in_flight, Rests, Reachable-Sound}

-- Where the thread has returned from its section, the writer failed or all that was accepted is sent.
unfoldable pub Drained : Thread → FrameWriter → Type 0
Drained unstarted w = Unit {0}
Drained waiting w = Unit {0}
Drained returned w = (w.failed ≡ true) ⊎ ((w.stop ≡ true) × (w.sent ≡ w.accepted))
Drained (sending f) w = Unit {0}
Drained (broken f) w = w.failed ≡ true

Sound-Drained :
    (t : Thread) (w : FrameWriter)
    → Rests t w
    → w.accepted ≡ w.sent ++ (in_flight t ++ w.queue)
    → Drained t w
unfolding Drained
Sound-Drained unstarted w r e = tt
Sound-Drained waiting w r e = tt
Sound-Drained returned w (st, inl down) e = inl down
Sound-Drained returned w (st, inr (stopped, empty)) e =
    inr (stopped, sym (e ∙ ap (λ (l : List Frame). w.sent ++ l) empty ∙ append-nil w.sent))
Sound-Drained (sending f) w r e = tt
Sound-Drained (broken f) w r e = r.1

-- However Start, Enqueue and Stop of any threads interleave with the writer's thread and whatever its
-- Sends return: the frames accepted are, in their order, those sent, the one in flight or lost in a
-- failed Send, and those queued, at most the limit; and a thread that has returned leaves a writer that
-- failed, or that was stopped and has sent all that it accepted.
pub Reachable-order :
    (n : ℕ) (w : FrameWriter)
    → Reachable n w
    → (w.accepted ≡ w.sent ++ (in_flight w.thread ++ w.queue))
      × (length w.queue ≤ n)
      × Drained w.thread w
Reachable-order n w r =
    let s = Reachable-Sound n w r in (s.order, s.room, Sound-Drained w.thread w s.rests s.order)
