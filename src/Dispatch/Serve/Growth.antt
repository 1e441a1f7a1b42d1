-- ===== src/Dispatch/Serve/Growth.antt =====
-- What a writer that does not fail has accepted.
use campiello.Common.{
  ◌≡◌, refl, sym, ap, ◌∙◌, Bool, true, false, ◌&&◌, ◌||◌, List, [], ◌∷◌, ◌++◌, append_assoc,
  append-nil, if◌then◌else◌, All, leb, length,
}
use campiello.Wire.Frame.{Frame}
use campiello.Dispatch.{with_id}
use campiello.Dispatch.FrameWriter.{
  Thread, unstarted, waiting, returned, sending, broken, FrameWriter, enqueue_frame, awake,
  take_frame,
}
use campiello.Dispatch.Serve.{
  Turn, section, send_ends, push, is_waiting, end_send, turn, turns, Served, answer, serve,
}

-- What a turn pushes has the property.
abbrev pub Pushes : (Frame → Type 0) → Turn → Type 0
Pushes P section = Unit {0}
Pushes P (send_ends ok) = Unit {0}
Pushes P (push f) = P f

All-append : (P : Frame → Type 0) (xs ys : List Frame) → All P xs → All P ys → All P (xs ++ ys)
All-append P [] ys h k = k
All-append P (x ∷ xs) ys (p, h) k = (p, All-append P xs ys h k)

-- A writer that has not failed is one that had not failed, behind more frames with a property.
abbrev pub Grows : (Frame → Type 0) → FrameWriter → FrameWriter → Type 0
Grows P w x =
    (w.failed ≡ false) × ((more : List Frame) × (x.accepted ≡ w.accepted ++ more) × All P more)

module _ (P : Frame → Type 0) where
  Grows-same : (w x : FrameWriter) → w.failed ≡ false → x.accepted ≡ w.accepted → Grows P w x
  Grows-same w x h e = (h, ([], e ∙ sym (append-nil w.accepted), tt))

  pub Grows-chain : (w x y : FrameWriter) → Grows P w x → Grows P x y → Grows P w y
  Grows-chain w x y (h, (more, e, a)) (k, (rest, d, b)) = (
    h,
    (
      more ++ rest,
      d ∙ (ap (λ (l : List Frame). l ++ rest) e ∙ append_assoc w.accepted more rest),
      All-append P more rest a b,
    ),
  )

  Grows-if :
      (b : Bool) (w x y : FrameWriter)
      → (x.failed ≡ false → Grows P w x)
      → (y.failed ≡ false → Grows P w y)
      → (if b then x else y).failed ≡ false
      → Grows P w (if b then x else y)
  Grows-if true w x y h k e = h e
  Grows-if false w x y h k e = k e

  pub enqueue_frame-Grows :
      (f : Frame) (w : FrameWriter)
      → P f
      → (enqueue_frame f w).failed ≡ false
      → Grows P w (enqueue_frame f w)
  enqueue_frame-Grows f w p h =
      Grows-if (w.stop || w.failed) w _ _ (λ e. Grows-same w w e refl)
        (λ e.
          Grows-if (leb w.max_queued (length w.queue)) w _ _ (λ d. absurd (cc d))
            (λ d. (d, (f ∷ [], refl, (p, tt)))) e)
        h

  take_frame-Grows :
      (queue : List Frame) (w : FrameWriter)
      → (take_frame queue w).failed ≡ false
      → Grows P w (take_frame queue w)
  take_frame-Grows [] w h =
      Grows-if w.stop w _ _ (λ e. (e, ([], sym (append-nil w.accepted), tt)))
        (λ e. Grows-same w w e refl) h
  take_frame-Grows (f ∷ queue) w h = (h, ([], sym (append-nil w.accepted), tt))

  end_send-Grows :
      (ok : Bool) (t : Thread) (w : FrameWriter)
      → (end_send ok t w).failed ≡ false
      → Grows P w (end_send ok t w)
  end_send-Grows ok unstarted w h = Grows-same w w h refl
  end_send-Grows ok waiting w h = Grows-same w w h refl
  end_send-Grows ok returned w h = Grows-same w w h refl
  end_send-Grows true (sending f) w h = (h, ([], sym (append-nil w.accepted), tt))
  end_send-Grows false (sending f) w h = absurd (cc h)
  end_send-Grows ok (broken f) w h = Grows-same w w h refl

  turn-Grows :
      (t : Turn) (w : FrameWriter) → Pushes P t → (turn t w).failed ≡ false → Grows P w (turn t w)
  turn-Grows section w p h =
      Grows-if (is_waiting w.thread && awake w) w _ _
        (λ e.
          Grows-if w.failed w _ _ (λ d. (d, ([], sym (append-nil w.accepted), tt)))
            (λ d. take_frame-Grows w.queue w d) e)
        (λ e. Grows-same w w e refl) h
  turn-Grows (send_ends ok) w p h = end_send-Grows ok w.thread w h
  turn-Grows (push f) w p h = enqueue_frame-Grows f w p h

  pub turns-Grows :
      (ts : List Turn) (w : FrameWriter)
      → All (Pushes P) ts
      → (turns ts w).failed ≡ false
      → Grows P w (turns ts w)
  unfolding turns
  turns-Grows [] w p h = Grows-same w w h refl
  turns-Grows (t ∷ ts) w (p, q) h =
      let rest = turns-Grows ts (turn t w) q h in
      Grows-chain w (turn t w) (turns ts (turn t w)) (turn-Grows t w p rest.0) rest

-- Frames of any kind.
abbrev pub Any : Frame → Type 0
Any f = Unit {0}

Pushes-Any : (ts : List Turn) → All (Pushes Any) ts
Pushes-Any [] = tt
Pushes-Any (section ∷ ts) = (tt, Pushes-Any ts)
Pushes-Any (send_ends ok ∷ ts) = (tt, Pushes-Any ts)
Pushes-Any (push f ∷ ts) = (tt, Pushes-Any ts)

pub later-Grows :
    (ts : List Turn) (w : FrameWriter) → (turns ts w).failed ≡ false → Grows Any w (turns ts w)
later-Grows ts w h = turns-Grows Any ts w (Pushes-Any ts) h

answer-Grows :
    (v : Served) (reply : Frame) (w : FrameWriter)
    → (answer v reply w).failed ≡ false
    → Grows Any w (answer v reply w)
answer-Grows v reply w h =
    let queued = turns v.before_enqueue w in
    let told = enqueue_frame (with_id v.request.request_id reply) queued in
    let answered = answer v reply w in
    let behind = later-Grows v.before_test told h in
    let taken = enqueue_frame-Grows Any (with_id v.request.request_id reply) queued tt behind.0 in
    Grows-chain Any w queued answered (later-Grows v.before_enqueue w taken.0)
      (Grows-chain Any queued told answered taken behind)

stays-or-goes :
    {S : Type 0} (b : Bool) (w x : FrameWriter) (t : S) (y : FrameWriter × S)
    → (x.failed ≡ false → Grows Any w x)
    → (y.0.failed ≡ false → Grows Any w y.0)
    → (if b then (x, t) else y).0.failed ≡ false
    → Grows Any w (if b then (x, t) else y).0
stays-or-goes true w x t y h k e = h e
stays-or-goes false w x t y h k e = k e

serve-Grows :
    {S : Type 0} (handle : Frame → S → Frame × S) (served : List Served) (s : S) (w : FrameWriter)
    → (serve handle served s w).0.failed ≡ false
    → Grows Any w (serve handle served s w).0
unfolding serve
serve-Grows handle [] s w h = Grows-same Any w w h refl
serve-Grows handle (v ∷ served) s w h =
    let next = handle v.request s in
    let answered = answer v next.0 w in
    let rest = serve handle served next.1 answered in
    stays-or-goes answered.failed w answered next.1 rest (answer-Grows v next.0 w)
      (λ e.
        let more = serve-Grows handle served next.1 answered e in
        Grows-chain Any w answered rest.0 (answer-Grows v next.0 w more.0) more)
      h

-- From the answer to the first request on.
pub answered-Grows :
    {S : Type 0} (handle : Frame → S → Frame × S) (v : Served) (served : List Served) (s : S)
    (w : FrameWriter)
    → (serve handle (v ∷ served) s w).0.failed ≡ false
    → Grows Any (answer v (handle v.request s).0 w) (serve handle (v ∷ served) s w).0
unfolding serve
answered-Grows handle v served s w h =
    let next = handle v.request s in
    let answered = answer v next.0 w in
    stays-or-goes answered.failed answered answered next.1 (serve handle served next.1 answered)
      (λ e. Grows-same Any answered answered e refl) (serve-Grows handle served next.1 answered) h

-- The turns leave the writer unstopped.
Stop-if :
    (b : Bool) (x y : FrameWriter)
    → x.stop ≡ false
    → y.stop ≡ false
    → (if b then x else y).stop ≡ false
Stop-if true x y h k = h
Stop-if false x y h k = k

enqueue_frame-stop :
    (f : Frame) (w : FrameWriter) → w.stop ≡ false → (enqueue_frame f w).stop ≡ false
enqueue_frame-stop f w h =
    Stop-if (w.stop || w.failed) _ _ h (Stop-if (leb w.max_queued (length w.queue)) _ _ h h)

take_frame-stop :
    (queue : List Frame) (w : FrameWriter) → w.stop ≡ false → (take_frame queue w).stop ≡ false
take_frame-stop [] w h = Stop-if w.stop _ _ h h
take_frame-stop (f ∷ queue) w h = h

end_send-stop :
    (ok : Bool) (t : Thread) (w : FrameWriter) → w.stop ≡ false → (end_send ok t w).stop ≡ false
end_send-stop ok unstarted w h = h
end_send-stop ok waiting w h = h
end_send-stop ok returned w h = h
end_send-stop true (sending f) w h = h
end_send-stop false (sending f) w h = h
end_send-stop ok (broken f) w h = h

turn-stop : (t : Turn) (w : FrameWriter) → w.stop ≡ false → (turn t w).stop ≡ false
turn-stop section w h =
    Stop-if (is_waiting w.thread && awake w) _ _
      (Stop-if w.failed _ _ h (take_frame-stop w.queue w h)) h
turn-stop (send_ends ok) w h = end_send-stop ok w.thread w h
turn-stop (push f) w h = enqueue_frame-stop f w h

pub turns-stop : (ts : List Turn) (w : FrameWriter) → w.stop ≡ false → (turns ts w).stop ≡ false
unfolding turns
turns-stop [] w h = h
turns-stop (t ∷ ts) w h = turns-stop ts (turn t w) (turn-stop t w h)

either-way :
    {A : Type 0} (Q : A → Type 0) (b : Bool) (x y : A)
    → (b ≡ true → Q x)
    → (b ≡ false → Q y)
    → Q (if b then x else y)
either-way Q true x y h k = h refl
either-way Q false x y h k = k refl

-- What is enqueued in a writer that goes on was accepted.
pub enqueue_frame-accepted :
    (f : Frame) (w : FrameWriter)
    → w.stop ≡ false
    → (enqueue_frame f w).failed ≡ false
    → (enqueue_frame f w).accepted ≡ w.accepted ++ (f ∷ [])
enqueue_frame-accepted f w s h =
    either-way Q (w.stop || w.failed) _ _ (λ shut e. absurd (not_shut w.stop w.failed shut s e))
      (λ free.
        either-way Q (leb w.max_queued (length w.queue)) _ _ (λ full e. absurd (cc e))
          (λ room e. refl))
      h
  where
    Q : FrameWriter → Type 0
    Q x = x.failed ≡ false → x.accepted ≡ w.accepted ++ (f ∷ [])

    not_shut : (a b : Bool) → (a || b) ≡ true → a ≡ false → b ≡ false → ⊥
    not_shut true b h k l = cc
    not_shut false true h k l = cc
    not_shut false false h k l = cc
