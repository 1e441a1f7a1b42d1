-- ===== src/Dispatch/Serve/Steps.antt =====
-- A connection takes its writer through steps of the writer only.
use campiello.Common.{
  ℕ, ◌≡◌, refl, Bool, true, false, ◌&&◌, Bool-cases, inl, inr, List, [], ◌∷◌, if◌then◌else◌, arith,
}
use campiello.Wire.Frame.{Frame}
use campiello.Dispatch.FrameWriter.{
  Thread, unstarted, waiting, returned, sending, broken, FrameWriter, new_writer, start, awake,
  starts, enqueues, stops, runs, sends, Reachable, new, then_step,
}
use campiello.Dispatch.Serve.{
  Turn, section, send_ends, push, is_waiting, end_send, turn, turns, Served, answer, serve,
  serve_connection,
}

-- Every turn is a step of the writer, or none.
is_waiting_lem : (t : Thread) → is_waiting t ≡ true → t ≡ waiting
is_waiting_lem unstarted h = cc
is_waiting_lem waiting h = refl
is_waiting_lem returned h = cc
is_waiting_lem (sending f) h = cc
is_waiting_lem (broken f) h = cc

end_send-Reachable :
    (n : ℕ) (ok : Bool) (t : Thread) (w : FrameWriter)
    → w.thread ≡ t
    → Reachable n w
    → Reachable n (end_send ok t w)
end_send-Reachable n ok unstarted w e r = r
end_send-Reachable n ok waiting w e r = r
end_send-Reachable n ok returned w e r = r
end_send-Reachable n ok (sending f) w e r = then_step r (sends ok f e)
end_send-Reachable n ok (broken f) w e r = r

turn-Reachable : (n : ℕ) (t : Turn) (w : FrameWriter) → Reachable n w → Reachable n (turn t w)
turn-Reachable n section w r = elim (Bool-cases (is_waiting w.thread && awake w)) [
  | inl due ↦ rw due (then_step r (runs (is_waiting_lem w.thread (ground arith)) (ground arith)))
  | inr idle ↦ rw idle r
]
turn-Reachable n (send_ends ok) w r = end_send-Reachable n ok w.thread w refl r
turn-Reachable n (push f) w r = then_step r (enqueues f)

turns-Reachable :
    (n : ℕ) (ts : List Turn) (w : FrameWriter) → Reachable n w → Reachable n (turns ts w)
unfolding turns
turns-Reachable n [] w r = r
turns-Reachable n (t ∷ ts) w r = turns-Reachable n ts (turn t w) (turn-Reachable n t w r)

if-Reachable :
    {S : Type 0} (n : ℕ) (b : Bool) (x y : FrameWriter × S)
    → Reachable n x.0
    → Reachable n y.0
    → Reachable n (if b then x else y).0
if-Reachable n true x y h k = h
if-Reachable n false x y h k = k

serve-Reachable :
    {S : Type 0} (n : ℕ) (handle : Frame → S → Frame × S) (served : List Served) (s : S)
    (w : FrameWriter)
    → Reachable n w
    → Reachable n (serve handle served s w).0
unfolding serve
serve-Reachable n handle [] s w r = r
serve-Reachable n handle (v ∷ served) s w r =
    let next = handle v.request s in
    let answered = answer v next.0 w in
    let after =
      turns-Reachable n v.before_test _
        (then_step (turns-Reachable n v.before_enqueue w r) (enqueues _)) in
    if-Reachable n answered.failed _ _ after (serve-Reachable n handle served next.1 answered after)

pub serve_connection-Reachable :
    {S : Type 0} (n : ℕ) (handle : Frame → S → Frame × S) (served : List Served)
    (before_stop joining : List Turn) (s : S)
    → Reachable n (serve_connection handle n served before_stop joining s).0
unfolding serve_connection
serve_connection-Reachable n handle served before_stop joining s = turns-Reachable n joining _ (
    then_step
      (turns-Reachable n before_stop _
        (serve-Reachable n handle served s (start (new_writer n)) (then_step new starts)))
      stops)
