-- ===== src/Dispatch/FrameWriter.antt =====
-- src/traghetto/dispatch/FrameWriter.cpp: the queue of a connection and the thread that sends from it.
-- A section under `fMutex` is one step, a Send of the thread is another, and the steps of all threads
-- interleave in any order.
pub mod Steps
pub mod Order
use campiello.Common.{
  ℕ, ◌≡◌, Bool, true, false, List, [], ◌∷◌, ◌++◌, if◌then◌else◌, ◌||◌, leb, not, is_empty, length,
}
use campiello.Wire.Frame.{Frame}

-- Where the thread is: not started, before the section of `Run` under the mutex, at its Send, or
-- returned, from the section or because its Send of a frame failed.
pub data Thread : Type 0 where
  unstarted waiting returned : Thread
  sending broken : Frame → Thread

-- `accepted` and `sent` log the frames that were queued and those whose Send returned true.
pub record FrameWriter : Type 0 where
  pub max_queued : ℕ
  pub queue : List Frame
  pub stop : Bool
  pub started : Bool
  pub failed : Bool
  pub thread : Thread
  pub accepted : List Frame
  pub sent : List Frame

abbrev pub new_writer : ℕ → FrameWriter
new_writer max_queued = record {
  max_queued = max_queued;
  queue = [];
  stop = false;
  started = false;
  failed = false;
  thread = unstarted;
  accepted = [];
  sent = [];
}

-- `Start`
abbrev pub start : FrameWriter → FrameWriter
start w = if w.started then w else record w { started = true; thread = waiting }

-- `Enqueue`
abbrev pub enqueue_frame : Frame → FrameWriter → FrameWriter
enqueue_frame f w =
    if w.stop || w.failed
    then w
    else if leb w.max_queued (length w.queue)
    then record w { failed = true }
    else record w { queue = w.queue ++ (f ∷ []); accepted = w.accepted ++ (f ∷ []) }

-- `Stop` up to the join.
abbrev pub request_stop : FrameWriter → FrameWriter
request_stop w = record w { stop = true }

-- The condition of `fCv.wait`.
abbrev pub awake : FrameWriter → Bool
awake w = not (is_empty w.queue) || w.stop || w.failed

-- `frame = std::move(fQueue.front()); fQueue.pop_front();`, or the end of the thread.
abbrev pub take_frame : List Frame → FrameWriter → FrameWriter
take_frame [] w = if w.stop then record w { thread = returned } else w
take_frame (f ∷ rest) w = record w { thread = sending f; queue = rest }

-- The section of `Run` under the mutex, behind the wait.
abbrev pub run_section : FrameWriter → FrameWriter
run_section w = if w.failed then record w { thread = returned } else take_frame w.queue w

-- The Send of `Run`.
abbrev pub send_frame : Bool → Frame → FrameWriter → FrameWriter
send_frame true f w = record w { thread = waiting; sent = w.sent ++ (f ∷ []) }
send_frame false f w = record w { thread = broken f; failed = true }

-- One step of any thread.
pub data Step : FrameWriter → FrameWriter → Type 0 where
  starts : {w : FrameWriter} → Step w (start w)
  enqueues : {w : FrameWriter} (f : Frame) → Step w (enqueue_frame f w)
  stops : {w : FrameWriter} → Step w (request_stop w)
  runs : {w : FrameWriter} → w.thread ≡ waiting → awake w ≡ true → Step w (run_section w)
  sends :
      {w : FrameWriter} (ok : Bool) (f : Frame) → w.thread ≡ sending f → Step w (send_frame ok f w)

-- The states that a new writer gets to.
pub data Reachable (max_queued : ℕ) : FrameWriter → Type 0 where
  new : Reachable max_queued (new_writer max_queued)
  then_step : {w w' : FrameWriter} → Reachable max_queued w → Step w w' → Reachable max_queued w'
