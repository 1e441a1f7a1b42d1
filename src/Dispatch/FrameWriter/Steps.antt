-- ===== src/Dispatch/FrameWriter/Steps.antt =====
-- What every step of the writer keeps.
use campiello.Common.{
  ℕ, ◌≤◌, ◌≡◌, ◌⊎◌, inl, inr, refl, sym, ap, ◌∙◌, subst, Bool, true, false, List, [], ◌∷◌, ◌++◌,
  append_assoc, if◌then◌else◌, ◌||◌, leb, length, length-append, arith,
}
use campiello.Wire.Frame.{Frame}
use campiello.Dispatch.FrameWriter.{
  Thread, unstarted, waiting, returned, sending, broken, FrameWriter, new_writer, start,
  enqueue_frame, request_stop, take_frame, run_section, send_frame, Step, starts, enqueues, stops,
  runs, sends, Reachable, new, then_step,
}

-- The frame that the thread took from the queue and that is not sent.
abbrev pub in_flight : Thread → List Frame
in_flight unstarted = []
in_flight waiting = []
in_flight returned = []
in_flight (sending f) = f ∷ []
in_flight (broken f) = f ∷ []

-- What holds where the thread is.
abbrev pub Rests : Thread → FrameWriter → Type 0
Rests unstarted w = w.started ≡ false
Rests waiting w = w.started ≡ true
Rests returned w = (w.started ≡ true) × ((w.failed ≡ true) ⊎ ((w.stop ≡ true) × (w.queue ≡ [])))
Rests (sending f) w = w.started ≡ true
Rests (broken f) w = (w.started ≡ true) × (w.failed ≡ true)

pub record Sound (max_queued : ℕ) (w : FrameWriter) : Type 0 where
  pub limit : w.max_queued ≡ max_queued
  pub order : w.accepted ≡ w.sent ++ (in_flight w.thread ++ w.queue)
  pub room : length w.queue ≤ max_queued
  pub rests : Rests w.thread w

new_writer-Sound : (max_queued : ℕ) → Sound max_queued (new_writer max_queued)
new_writer-Sound max_queued = record {
  limit = refl;
  order = refl;
  room = omega arith;
  rests = refl;
}

Sound-if :
    (n : ℕ) (b : Bool) (w w' : FrameWriter)
    → (b ≡ true → Sound n w)
    → (b ≡ false → Sound n w')
    → Sound n (if b then w else w')
Sound-if n true w w' h k = h refl
Sound-if n false w w' h k = k refl

not_started-in_flight :
    (t : Thread) (w : FrameWriter) → Rests t w → w.started ≡ false → in_flight t ≡ []
not_started-in_flight unstarted w r h = refl
not_started-in_flight waiting w r h = cc
not_started-in_flight returned w r h = absurd (cc r.0)
not_started-in_flight (sending f) w r h = absurd (cc)
not_started-in_flight (broken f) w r h = absurd (cc r.0)

start-Sound : (n : ℕ) (w : FrameWriter) → Sound n w → Sound n (start w)
start-Sound n w s =
    Sound-if n w.started _ _ (λ _. s)
      (λ not_started. record {
        limit = s.limit;
        order =
            s.order
            ∙ ap (λ (l : List Frame). w.sent ++ (l ++ w.queue))
                (not_started-in_flight w.thread w s.rests not_started);
        room = s.room;
        rests = refl;
      })

Rests-pushed :
    (t : Thread) (w : FrameWriter) (f : Frame)
    → w.stop ≡ false
    → w.failed ≡ false
    → Rests t w
    → Rests t (record w { queue = w.queue ++ (f ∷ []); accepted = w.accepted ++ (f ∷ []) })
Rests-pushed unstarted w f s e r = r
Rests-pushed waiting w f s e r = r
Rests-pushed returned w f s e (st, inl failed) = absurd (cc)
Rests-pushed returned w f s e (st, inr (stopped, empty)) = absurd (cc)
Rests-pushed (sending g) w f s e r = r
Rests-pushed (broken g) w f s e r = r

Rests-failed : (t : Thread) (w : FrameWriter) → Rests t w → Rests t (record w { failed = true })
Rests-failed unstarted w r = r
Rests-failed waiting w r = r
Rests-failed returned w r = (r.0, inl refl)
Rests-failed (sending f) w r = r
Rests-failed (broken f) w r = (r.0, refl)

Rests-stopped : (t : Thread) (w : FrameWriter) → Rests t w → Rests t (record w { stop = true })
Rests-stopped unstarted w r = r
Rests-stopped waiting w r = r
Rests-stopped returned w (st, inl failed) = (st, inl failed)
Rests-stopped returned w (st, inr (stopped, empty)) = (st, inr (refl, empty))
Rests-stopped (sending f) w r = r
Rests-stopped (broken f) w r = r

enqueue_frame-Sound :
    (n : ℕ) (f : Frame) (w : FrameWriter) → Sound n w → Sound n (enqueue_frame f w)
enqueue_frame-Sound n f w s =
    Sound-if n (w.stop || w.failed) _ _ (λ _. s)
      (λ open_.
        Sound-if n (leb w.max_queued (length w.queue)) _ _
          (λ _. record {
            limit = s.limit;
            order = s.order;
            room = s.room;
            rests = Rests-failed w.thread w s.rests;
          })
          (λ free. record {
            limit = s.limit;
            order =
                ap (λ (l : List Frame). l ++ (f ∷ [])) s.order
                ∙ append_assoc w.sent (in_flight w.thread ++ w.queue) (f ∷ [])
                ∙ ap (λ (l : List Frame). w.sent ++ l)
                    (append_assoc (in_flight w.thread) w.queue (f ∷ []));
            room = ground (arith, s.limit, length-append w.queue (f ∷ []));
            rests = Rests-pushed w.thread w f (ground arith) (ground arith) s.rests;
          }))

request_stop-Sound : (n : ℕ) (w : FrameWriter) → Sound n w → Sound n (request_stop w)
request_stop-Sound n w s = record {
  limit = s.limit;
  order = s.order;
  room = s.room;
  rests = Rests-stopped w.thread w s.rests;
}

take_frame-Sound :
    (n : ℕ) (queue : List Frame) (w : FrameWriter)
    → w.queue ≡ queue
    → w.thread ≡ waiting
    → Sound n w
    → Sound n (take_frame queue w)
take_frame-Sound n [] w e t s =
    Sound-if n w.stop _ _
      (λ stopped. record {
        limit = s.limit;
        order = s.order ∙ ap (λ (x : Thread). w.sent ++ (in_flight x ++ w.queue)) t;
        room = s.room;
        rests = (subst (λ (x : Thread). Rests x w) t s.rests, inr (stopped, e));
      })
      (λ _. s)
take_frame-Sound n (f ∷ rest) w e t s = record {
  limit = s.limit;
  order =
      s.order
      ∙ ap (λ (x : Thread). w.sent ++ (in_flight x ++ w.queue)) t
      ∙ ap (λ (l : List Frame). w.sent ++ l) e;
  room = omega (arith, s.room, ap length e);
  rests = subst (λ (x : Thread). Rests x w) t s.rests;
}

run_section-Sound :
    (n : ℕ) (w : FrameWriter) → w.thread ≡ waiting → Sound n w → Sound n (run_section w)
run_section-Sound n w t s =
    Sound-if n w.failed _ _
      (λ down. record {
        limit = s.limit;
        order = s.order ∙ ap (λ (x : Thread). w.sent ++ (in_flight x ++ w.queue)) t;
        room = s.room;
        rests = (subst (λ (x : Thread). Rests x w) t s.rests, inl down);
      })
      (λ _. take_frame-Sound n w.queue w refl t s)

send_frame-Sound :
    (n : ℕ) (ok : Bool) (f : Frame) (w : FrameWriter)
    → w.thread ≡ sending f
    → Sound n w
    → Sound n (send_frame ok f w)
send_frame-Sound n true f w t s = record {
  limit = s.limit;
  order =
      s.order
      ∙ ap (λ (x : Thread). w.sent ++ (in_flight x ++ w.queue)) t
      ∙ sym (append_assoc w.sent (f ∷ []) w.queue);
  room = s.room;
  rests = subst (λ (x : Thread). Rests x w) t s.rests;
}
send_frame-Sound n false f w t s = record {
  limit = s.limit;
  order = s.order ∙ ap (λ (x : Thread). w.sent ++ (in_flight x ++ w.queue)) t;
  room = s.room;
  rests = (subst (λ (x : Thread). Rests x w) t s.rests, refl);
}

Step-Sound : (n : ℕ) (w w' : FrameWriter) → Step w w' → Sound n w → Sound n w'
Step-Sound n w w' starts s = start-Sound n w s
Step-Sound n w w' (enqueues f) s = enqueue_frame-Sound n f w s
Step-Sound n w w' stops s = request_stop-Sound n w s
Step-Sound n w w' (runs t a) s = run_section-Sound n w t s
Step-Sound n w w' (sends ok f t) s = send_frame-Sound n ok f w t s

pub Reachable-Sound : (n : ℕ) (w : FrameWriter) → Reachable n w → Sound n w
Reachable-Sound n w new = new_writer-Sound n
Reachable-Sound n w (then_step {w = v} r step) = Step-Sound n v w step (Reachable-Sound n v r)
