-- ===== src/Server/GatedHandler/Gate.antt =====
-- Which requests the gate lets through.
use campiello.Common.{
  ℕ, suc, ◌≡◌, ◌⊎◌, inl, inr, refl, ap, ap₂, ◌∙◌, Bool, true, false, Bool-cases, Option, none, some,
  List, [], ◌∷◌, ◌++◌, ◌==◌, All, map, length,
}
use campiello.Wire.MessageType
use campiello.Wire.Frame.{Frame}
use campiello.Wire.Handshake.{NodeIdentity, decode_node_identity}
use campiello.Wire.Error.{access_denied, invalid_request, make_error}
use campiello.Trust.Fingerprint.{equals}
use campiello.Trust.Pairing.{Pairing, admit}
use campiello.Server.GatedHandler.{
  GatedHandler, Handled, Event, let_in, claimed, handle, handle_all, inner_all, identity_opens,
  opens, put_reply,
}

-- An ERROR reply that refuses.
abbrev pub IsRefusal : Frame → Type 0
IsRefusal f = (f ≡ make_error access_denied [] 0) ⊎ (f ≡ make_error invalid_request [] 0)

-- A handler that has not moved, and refused.
Refuses : {S : Type 0} → GatedHandler S → Handled S → Type 0
Refuses g h = IsRefusal h.reply × (h.handler ≡ g)

-- A handler that let the request through.
Lets : {S : Type 0} → (Frame → S → Frame × S) → Frame → GatedHandler S → Handled S → Type 0
Lets handle_inner request g h =
    (h.reply ≡ (handle_inner request g.inner).0)
    × (h.handler
        ≡ record { peer = g.peer; inner = (handle_inner request g.inner).1; admitted = true })

module _ {S : Type 0} (handle_inner : Frame → S → Frame × S) where
  let_in-shut :
      (request : Frame) (g : GatedHandler S) (x : Bool × Pairing)
      → x.0 ≡ false
      → Refuses g (let_in handle_inner request g x)
  unfolding Refuses
  let_in-shut request g (true, pairing) h = cc
  let_in-shut request g (false, pairing) h = (inl refl, refl)

  let_in-open :
      (request : Frame) (g : GatedHandler S) (x : Bool × Pairing)
      → x.0 ≡ true
      → Lets handle_inner request g (let_in handle_inner request g x)
  unfolding Lets
  let_in-open request g (true, pairing) h = (refl, refl)
  let_in-open request g (false, pairing) h = cc

  claimed-shut :
      (e : Event) (g : GatedHandler S) (o : Option NodeIdentity)
      → identity_opens e g.peer o ≡ false
      → Refuses g (claimed handle_inner e.moment e.request e.pairing g o)
  unfolding Refuses
  claimed-shut e g none h = (inr refl, refl)
  claimed-shut e g (some id) h = elim (Bool-cases (equals id.fingerprint g.peer)) [
    | inl own ↦
        simp own (let_in-shut e.request g (admit e.moment g.peer id.node e.pairing) (simp own at h))
    | inr other ↦ simp other (inl refl, refl)
  ]

  claimed-open :
      (e : Event) (g : GatedHandler S) (o : Option NodeIdentity)
      → identity_opens e g.peer o ≡ true
      → Lets handle_inner e.request g (claimed handle_inner e.moment e.request e.pairing g o)
  unfolding Lets
  claimed-open e g none h = cc
  claimed-open e g (some id) h = elim (Bool-cases (equals id.fingerprint g.peer)) [
    | inl own ↦
        simp own (let_in-open e.request g (admit e.moment g.peer id.node e.pairing) (simp own at h))
    | inr other ↦ absurd (cc (simp other at h))
  ]

  handle-shut :
      (e : Event) (g : GatedHandler S)
      → g.admitted ≡ false
      → opens e g.peer ≡ false
      → Refuses g (handle handle_inner e.moment e.request e.pairing g)
  unfolding handle opens Refuses
  handle-shut e g a h = elim (Bool-cases (e.request.type == MessageType.hello)) [
    | inl hello ↦
        simp (a, hello)
          (claimed-shut e g (decode_node_identity e.request.payload) (simp hello at h))
    | inr other ↦ simp (a, other) (inl refl, refl)
  ]

  handle-open :
      (e : Event) (g : GatedHandler S)
      → (g.admitted ≡ true) ⊎ ((g.admitted ≡ false) × (opens e g.peer ≡ true))
      → Lets handle_inner e.request g (handle handle_inner e.moment e.request e.pairing g)
  unfolding handle opens Lets
  handle-open e g (inl a) = simp a (refl, refl)
  handle-open e g (inr (a, h)) = elim (Bool-cases (e.request.type == MessageType.hello)) [
    | inl hello ↦
        simp (a, hello)
          (claimed-open e g (decode_node_identity e.request.payload) (simp hello at h))
    | inr other ↦ absurd (cc (simp other at h))
  ]

  handle_all-serving :
      (events : List Event) (peer : List ℕ) (s : S)
      → handle_all handle_inner events (record { peer = peer; inner = s; admitted = true }) ≡ (
        (inner_all handle_inner (map (λ e. e.request) events) s).0,
        record {
          peer = peer;
          inner = (inner_all handle_inner (map (λ e. e.request) events) s).1;
          admitted = true;
        },
      )
  unfolding handle_all inner_all handle
  handle_all-serving [] peer s = refl
  handle_all-serving (e ∷ events) peer s =
      ap (put_reply (handle_inner e.request s).0)
        (handle_all-serving events peer (handle_inner e.request s).1)

  -- While no request opens the gate, whatever the requests are, the inner handler is not called and its
  -- state stays, the peer is not admitted, and every reply is an ERROR frame that refuses.
  pub handle_all-shut :
      (events : List Event) (g : GatedHandler S)
      → g.admitted ≡ false
      → All (λ e. opens e g.peer ≡ false) events
      → ((handle_all handle_inner events g).1 ≡ g)
        × All IsRefusal (handle_all handle_inner events g).0
        × (length (handle_all handle_inner events g).0 ≡ length events)
  unfolding handle_all Refuses
  handle_all-shut [] g a h = (refl, tt, refl)
  handle_all-shut (e ∷ events) g a h =
      let first = handle-shut e g a h.0 in
      let more = handle_all-shut events g a h.1 in
      simp first.1 (more.0, (first.0, more.1), ap suc more.2)

  handle_all-append :
      (before after : List Event) (g : GatedHandler S)
      → handle_all handle_inner (before ++ after) g ≡ (
        (handle_all handle_inner before g).0
            ++ (handle_all handle_inner after (handle_all handle_inner before g).1).0,
        (handle_all handle_inner after (handle_all handle_inner before g).1).1,
      )
  unfolding handle_all
  handle_all-append [] after g = refl
  handle_all-append (e ∷ before) after g =
      let h = handle handle_inner e.moment e.request e.pairing g in
      ap (put_reply h.reply) (handle_all-append before after h.handler)

  handle_all-first :
      (e : Event) (after : List Event) (g : GatedHandler S)
      → g.admitted ≡ false
      → opens e g.peer ≡ true
      → handle_all handle_inner (e ∷ after) g ≡ (
        (inner_all handle_inner (map (λ b. b.request) (e ∷ after)) g.inner).0,
        record {
          peer = g.peer;
          inner = (inner_all handle_inner (map (λ b. b.request) (e ∷ after)) g.inner).1;
          admitted = true;
        },
      )
  unfolding handle_all inner_all Lets
  handle_all-first e after g a h =
      let first = handle-open e g (inr (a, h)) in
      ap₂ (λ (r : Frame) (k : GatedHandler S). put_reply r (handle_all handle_inner after k))
        first.0 first.1
      ∙ ap (put_reply (handle_inner e.request g.inner).0)
          (handle_all-serving after g.peer (handle_inner e.request g.inner).1)

  -- Once a request opens the gate, it and all requests behind it are answered by the inner handler, in
  -- order and from the state that it had at the start, and the peer stays admitted; the requests before
  -- it were refused, each with an ERROR frame.
  pub handle_all-opens :
      (before : List Event) (e : Event) (after : List Event) (g : GatedHandler S)
      → g.admitted ≡ false
      → All (λ b. opens b g.peer ≡ false) before
      → opens e g.peer ≡ true
      → (refusals : List Frame) × (length refusals ≡ length before)
        × All IsRefusal refusals
        × (handle_all handle_inner (before ++ (e ∷ after)) g ≡ (
          refusals ++ (inner_all handle_inner (map (λ b. b.request) (e ∷ after)) g.inner).0,
          record {
            peer = g.peer;
            inner = (inner_all handle_inner (map (λ b. b.request) (e ∷ after)) g.inner).1;
            admitted = true;
          },
        ))
  handle_all-opens before e after g a shut h =
      let (still, refused, count) = handle_all-shut before g a shut in
      let refusals = (handle_all handle_inner before g).0 in
      (
        refusals,
        count,
        refused,
        handle_all-append before (e ∷ after) g
            ∙ ap
                (λ (k : GatedHandler S). (
                  refusals ++ (handle_all handle_inner (e ∷ after) k).0,
                  (handle_all handle_inner (e ∷ after) k).1,
                ))
                still
            ∙ ap (λ (x : List Frame × GatedHandler S). (refusals ++ x.0, x.1))
                (handle_all-first e after g a h),
      )
