-- ===== src/Dispatch/Serve/Delivery.antt =====
-- What a connection sends, and the client's request that it answers.
use campiello.Common.{
  ℕ, ◌≡◌, refl, ap, ◌∙◌, subst, Bool, true, false, inl, inr, none, List, [], ◌∷◌, ◌++◌,
  append_assoc, ◌==◌, All,
}
use campiello.Wire.Frame.{Frame}
use campiello.Dispatch.{with_id, find_pending, Client, replied, take_id, request}
use campiello.Dispatch.Replies.{keep_all, request-finds}
use campiello.Dispatch.FrameWriter.{
  returned, FrameWriter, new_writer, start, enqueue_frame, request_stop,
}
use campiello.Dispatch.FrameWriter.Order.{Drained, Reachable-order}
use campiello.Dispatch.Serve.{Turn, turns, Served, serve, serve_connection}
use campiello.Dispatch.Serve.Steps.{serve_connection-Reachable}
use campiello.Dispatch.Serve.Growth.{
  Pushes, Grows-chain, Any, turns-Grows, later-Grows, enqueue_frame-Grows, answered-Grows,
  turns-stop, enqueue_frame-accepted,
}

-- A connection whose first request is one of a client, sent under the id that the client chose.
abbrev pub first_served :
    {S : Type 0}
    → (Frame → S → Frame × S)
    → ℕ
    → Frame
    → List Turn
    → List Turn
    → List Served
    → List Turn
    → List Turn
    → S
    → FrameWriter
first_served handle max_queued asked before behind served before_stop joining s =
    (serve_connection handle max_queued
      (record { request = asked; before_enqueue = before; before_test = behind } ∷ served)
      before_stop joining s).0

first_served-accepted :
    {S : Type 0} (P : Frame → Type 0) (handle : Frame → S → Frame × S) (n : ℕ) (asked : Frame)
    (before behind : List Turn) (served : List Served) (before_stop joining : List Turn) (s : S)
    → All (Pushes P) before
    → (first_served handle n asked before behind served before_stop joining s).failed ≡ false
    → (pushed : List Frame) × (rest : List Frame) × ((first_served handle n asked before behind
          served before_stop joining s).accepted
        ≡ pushed ++ (with_id asked.request_id (handle asked s).0 ∷ rest))
      × All P pushed
unfolding serve_connection
first_served-accepted P handle n asked before behind served before_stop joining s p up =
    let v : Served = record { request = asked; before_enqueue = before; before_test = behind } in
    let reply = with_id asked.request_id (handle asked s).0 in
    let opened = start (new_writer n) in
    let queued = turns before opened in
    let told = enqueue_frame reply queued in
    let answered = turns behind told in
    let looped = (serve handle (v ∷ served) s opened).0 in
    let ended = turns joining (request_stop (turns before_stop looped)) in
    let joins = later-Grows joining (request_stop (turns before_stop looped)) up in
    let stops_at = later-Grows before_stop looped joins.0 in
    let serves = answered-Grows handle v served s opened stops_at.0 in
    let later =
      Grows-chain Any answered looped ended serves
        (Grows-chain Any looped (turns before_stop looped) ended stops_at joins) in
    let tests = later-Grows behind told later.0 in
    let taken = enqueue_frame-accepted reply queued (turns-stop before opened refl) tests.0 in
    let early = turns-Grows P before opened p (enqueue_frame-Grows Any reply queued tt tests.0).0 in
    let all = Grows-chain Any told answered ended tests later in
    let pushed = early.1.0 in
    let rest = all.1.0 in
    (
      pushed,
      rest,
      all.1.1
          ∙ (ap (λ (l : List Frame). l ++ rest)
                (taken ∙ ap (λ (l : List Frame). l ++ (reply ∷ [])) early.1.1)
              ∙ append_assoc pushed (reply ∷ []) rest),
      early.1.2,
    )

-- A request that a client sends, with no reply to it stashed, and that a server takes first on a
-- connection whose writer does not fail and whose thread has returned, is answered by what the server's
-- handler makes of it, under the id that the client chose, whatever the handler wrote there, whatever
-- turns the writer's thread takes and whatever requests come behind, where the handler pushes no frame
-- with this id before the reply. What it pushes before is stashed.
pub request-serve :
    {S : Type 0} (handle : Frame → S → Frame × S) (n : ℕ) (before behind : List Turn)
    (served : List Served) (before_stop joining : List Turn) (s : S) (send : Frame → Bool)
    (r : Frame) (c : Client)
    → send (with_id c.next_id r) ≡ true
    → find_pending c.next_id c.pending ≡ none
    → All (Pushes (λ f. (f.request_id == c.next_id) ≡ false)) before
    → (first_served handle n
        (with_id c.next_id r)
        before
        behind
        served
        before_stop
        joining
        s).thread
      ≡ returned
    → (first_served handle n
        (with_id c.next_id r)
        before
        behind
        served
        before_stop
        joining
        s).failed
      ≡ false
    → (pushed : List Frame) × (rest : List Frame) × (request send r
          (first_served handle n
            (with_id c.next_id r)
            before
            behind
            served
            before_stop
            joining
            s).sent
          c
        ≡ replied
            (with_id c.next_id (handle (with_id c.next_id r) s).0)
            rest
            (record (take_id c) { pending = keep_all pushed c.pending }))
unfolding Drained
request-serve handle n before behind served before_stop joining s send r c sent free others ended
      up =
    let asked = with_id c.next_id r in
    let reply = with_id c.next_id (handle asked s).0 in
    let w = first_served handle n asked before behind served before_stop joining s in
    let (pushed, rest, e, apart) =
      first_served-accepted _ handle n asked before behind served before_stop joining s others up in
    let drained =
      subst (λ t. Drained t w) ended
        (Reachable-order n w (serve_connection-Reachable n handle _ before_stop joining s)).2 in
    let all : w.sent ≡ w.accepted = elim drained [
      | inl down ↦ absurd (cc)
      | inr (stopped, d) ↦ d
    ] in
    (
      pushed,
      rest,
      ap (λ (l : List Frame). request send r l c) (all ∙ e)
          ∙ (request-finds send r pushed reply rest c 0 sent free apart refl).0,
    )
