-- ===== src/Trust/Pairing/Admission.antt =====
-- Whom Admit lets in, and how often it asks.
use campiello.Common.{
  ℕ, ◌≡◌, ◌≢◌, ◌⊎◌, refl, sym, ap, ◌∙◌, Bool, true, false, Bool-cases, inl, inr, List, [], ◌∷◌,
  bytes_eq, bytes_eq_refl, arith, subst,
}
use campiello.Trust.TokenBucket.{TokenBucket, try_take}
use campiello.Trust.Store.{
  PinnedPeer, TrustDecision, trusted, unknown, key_changed, is_some, is_trusted, pin, evaluate_name,
  evaluate,
}
use campiello.Trust.Store.Pins.{find-pin}
use campiello.Trust.Pairing.{
  Pairing, Moment, no_fingerprint, save, answered, rate_limited, decided, admit,
}

decision_differs : key_changed ≢ trusted
decision_differs e = cc

is_trusted-pin :
    (fp name : List ℕ) (peers : List PinnedPeer) → is_trusted fp (pin fp name peers) ≡ true
is_trusted-pin fp name peers = ap is_some (find-pin fp name fp peers) ∙ simp (bytes_eq_refl fp) refl

-- Why a peer was let in: it was pinned and nothing changed, or the user was asked for it and allowed
-- it, and it was pinned.
abbrev pub Reason : Moment → List ℕ → List ℕ → Pairing → Pairing → Type 0
Reason m fp name p p' =
    ((is_trusted fp p.store ≡ true) × (p' ≡ p))
    ⊎ ((m.allow ≡ true)
        × (p'.prompts
            ≡ record { name = name; fingerprint = fp; decision = evaluate fp name p.store }
              ∷ p.prompts)
        × (p'.store ≡ pin fp name p.store))

-- How a call of Admit may end.
unfoldable pub AdmitEnds : Moment → List ℕ → List ℕ → Pairing → Bool × Pairing → Type 0
AdmitEnds m fp name p (true, p') = (is_trusted fp p'.store ≡ true) × Reason m fp name p p'
AdmitEnds m fp name p (false, p') = (p'.store ≡ p.store) × (p'.file ≡ p.file)

save-store : (writable : Bool) (p : Pairing) → (save writable p).store ≡ p.store
save-store writable p = ground arith

pub save-prompts : (writable : Bool) (p : Pairing) → (save writable p).prompts ≡ p.prompts
save-prompts writable p = ground arith

pub save-bucket : (writable : Bool) (p : Pairing) → (save writable p).bucket ≡ p.bucket
save-bucket writable p = ground arith

answered-Ends :
    (m : Moment) (fp name : List ℕ) (p q : Pairing)
    → q.store ≡ p.store
    → q.file ≡ p.file
    → q.prompts
      ≡ record { name = name; fingerprint = fp; decision = evaluate fp name p.store } ∷ p.prompts
    → AdmitEnds m fp name p (answered m fp name q)
unfolding AdmitEnds
answered-Ends m fp name p q s f a = elim (Bool-cases m.allow) [
  | inl allowed ↦
      let q' = record q { store = pin fp name q.store } in
      let pinned : (save m.writable q').store ≡ pin fp name p.store =
        save-store m.writable q' ∙ ap (pin fp name) s in
      simp allowed (
        ap (is_trusted fp) pinned ∙ is_trusted-pin fp name p.store,
        inr (refl, save-prompts m.writable q' ∙ a, pinned),
      )
  | inr refused ↦ simp refused (s, f)
]

rate_limited-Ends :
    (m : Moment) (fp name : List ℕ) (p : Pairing) (d : TrustDecision) (t : Bool × TokenBucket)
    → evaluate fp name p.store ≡ d
    → AdmitEnds m fp name p (rate_limited m fp name d p t)
unfolding AdmitEnds
rate_limited-Ends m fp name p d (false, b) e = (refl, refl)
rate_limited-Ends m fp name p d (true, b) e = answered-Ends m fp name p _ refl refl (
    ap (λ (x : TrustDecision). record { name = name; fingerprint = fp; decision = x } ∷ p.prompts)
      (sym e))

evaluate_name-differs :
    {A : Type 0} (name : List ℕ) (peers : List PinnedPeer) → evaluate_name name peers ≡ trusted → A
unfolding evaluate_name
evaluate_name-differs name [] e = cc
evaluate_name-differs name (p ∷ peers) e = elim (Bool-cases (bytes_eq p.name name)) [
  | inl same ↦ absurd (decision_differs (simp same at e))
  | inr other ↦ evaluate_name-differs name peers (simp other at e)
]

evaluate-trusted :
    (fp name : List ℕ) (peers : List PinnedPeer)
    → evaluate fp name peers ≡ trusted
    → is_trusted fp peers ≡ true
unfolding evaluate
evaluate-trusted fp name peers e = elim (Bool-cases (is_trusted fp peers)) [
  | inl known ↦ known
  | inr new ↦ evaluate_name-differs name peers (simp new at e)
]

decided-Ends :
    (m : Moment) (fp name : List ℕ) (p : Pairing) (d : TrustDecision)
    → evaluate fp name p.store ≡ d
    → AdmitEnds m fp name p (decided m fp name p d)
unfolding AdmitEnds
decided-Ends m fp name p trusted e =
    let known = evaluate-trusted fp name p.store e in (known, inl (known, refl))
decided-Ends m fp name p unknown e =
    rate_limited-Ends m fp name p unknown (try_take m.now p.bucket) e
decided-Ends m fp name p key_changed e =
    rate_limited-Ends m fp name p key_changed (try_take m.now p.bucket) e

-- Every call of Admit ends in one of these ways. If it answers true, the fingerprint is now pinned, and
-- either it was before and nothing has changed, or the prompt was raised with the decision of Evaluate,
-- the user allowed it, and the fingerprint was pinned with the claimed name. If it answers false, the
-- store and its file are as they were.
pub admit-Ends :
    (m : Moment) (fp name : List ℕ) (p : Pairing) → AdmitEnds m fp name p (admit m fp name p)
unfolding admit AdmitEnds
admit-Ends m fp name p = elim (Bool-cases (bytes_eq fp no_fingerprint)) [
  | inl zeros ↦ simp zeros (refl, refl)
  | inr real ↦ simp real (decided-Ends m fp name p (evaluate fp name p.store) refl)
]

-- The fingerprint of 32 zero bytes is never admitted and changes nothing. Any other that was admitted
-- once is admitted by every later call on the same pairing, under any name, at any moment, without a
-- prompt and without a change.
pub admit-again :
    (m m' : Moment) (fp name name' : List ℕ) (p p' : Pairing)
    → admit m fp name p ≡ (true, p')
    → (admit m no_fingerprint name p ≡ (false, p)) × (admit m' fp name' p' ≡ (true, p'))
unfolding admit evaluate AdmitEnds
admit-again m m' fp name name' p p' e =
    let ends = subst (λ (x : Bool × Pairing). AdmitEnds m fp name p x) e (admit-Ends m fp name p) in
    (
      refl,
      elim (Bool-cases (bytes_eq fp no_fingerprint)) [
        | inl zeros ↦ absurd (cc (simp zeros at e))
        | inr real ↦ simp (real, ends.0) refl
      ],
    )
