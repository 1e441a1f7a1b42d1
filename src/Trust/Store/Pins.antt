-- ===== src/Trust/Store/Pins.antt =====
-- The store is a map from fingerprints to peers.
use campiello.Common.{
  ℕ, ◌≡◌, ◌≢◌, ◌⊎◌, subst, refl, sym, ap, ◌∙◌, true, false, Bool-cases, inl, inr, none, some, List,
  [], ◌∷◌, if◌then◌else◌, bytes_eq, bytes_eq_sound, bytes_eq_refl, arith, All,
}
use campiello.Trust.Store.{
  PinnedPeer, TrustDecision, trusted, unknown, key_changed, pin, forget, find, is_trusted,
  evaluate_name, evaluate,
}

bytes_eq_complete : (xs ys : List ℕ) → xs ≡ ys → bytes_eq xs ys ≡ true
bytes_eq_complete xs ys e = ap (bytes_eq xs) (sym e) ∙ bytes_eq_refl xs

bytes_eq_differ : (xs ys : List ℕ) → bytes_eq xs ys ≡ false → xs ≢ ys
bytes_eq_differ xs ys h e = cc (bytes_eq_complete xs ys e)

bytes_eq-apart :
    (xs ys zs : List ℕ) → bytes_eq xs ys ≡ false → bytes_eq xs zs ≡ true → bytes_eq ys zs ≡ false
bytes_eq-apart xs ys zs h k = elim (Bool-cases (bytes_eq ys zs)) [
  | inl same ↦
      absurd (bytes_eq_differ xs ys h (bytes_eq_sound xs zs k ∙ sym (bytes_eq_sound ys zs same)))
  | inr other ↦ other
]

pub bytes_eq-swap : (xs ys : List ℕ) → bytes_eq xs ys ≡ false → bytes_eq ys xs ≡ false
bytes_eq-swap xs ys h = bytes_eq-apart xs ys xs h (bytes_eq_refl xs)

-- No fingerprint is pinned twice.
unfoldable pub Unique : List PinnedPeer → Type 0
Unique [] = Unit {0}
Unique (p ∷ peers) = (find p.fingerprint peers ≡ none) × Unique peers

pub find-pin :
    (fp name fp' : List ℕ) (peers : List PinnedPeer)
    → find fp' (pin fp name peers) ≡ (
        if bytes_eq fp fp' then some (record { fingerprint = fp; name = name }) else find fp' peers)
unfolding find pin
find-pin fp name fp' [] = refl
find-pin fp name fp' (p ∷ peers) = elim (Bool-cases (bytes_eq p.fingerprint fp)) [
  | inl same ↦ let e = bytes_eq_sound p.fingerprint fp same in ground (arith, e)
  | inr other ↦ elim (Bool-cases (bytes_eq p.fingerprint fp')) [
    | inl this ↦
        let apart = bytes_eq-apart p.fingerprint fp fp' other this in simp (other, this, apart) refl
    | inr that ↦ simp (other, that) (find-pin fp name fp' peers)
  ]
]

pub pin-Unique :
    (fp name : List ℕ) (peers : List PinnedPeer) → Unique peers → Unique (pin fp name peers)
unfolding Unique find pin
pin-Unique fp name [] h = (refl, tt)
pin-Unique fp name (p ∷ peers) h = elim (Bool-cases (bytes_eq p.fingerprint fp)) [
  | inl same ↦ simp same h
  | inr other ↦
      let new : bytes_eq fp p.fingerprint ≡ false = bytes_eq-swap p.fingerprint fp other in
      simp other (find-pin fp name p.fingerprint peers ∙ simp new h.0, pin-Unique fp name peers h.1)
]

-- A fingerprint that is not pinned stays so when a peer is forgotten.
find-forget-none :
    (fp fp' : List ℕ) (peers : List PinnedPeer)
    → find fp' peers ≡ none
    → find fp' (forget fp peers).1 ≡ none
unfolding find forget
find-forget-none fp fp' [] h = refl
find-forget-none fp fp' (p ∷ peers) h = ground (arith, find-forget-none fp fp' peers)

pub forget-Unique :
    (fp : List ℕ) (peers : List PinnedPeer) → Unique peers → Unique (forget fp peers).1
unfolding Unique find forget
forget-Unique fp [] h = tt
forget-Unique fp (p ∷ peers) h = elim (Bool-cases (bytes_eq p.fingerprint fp)) [
  | inl same ↦ simp same h.1
  | inr other ↦ simp other (find-forget-none fp p.fingerprint peers h.0, forget-Unique fp peers h.1)
]

find-forget :
    (fp fp' : List ℕ) (peers : List PinnedPeer)
    → Unique peers
    → find fp' (forget fp peers).1 ≡ (if bytes_eq fp fp' then none else find fp' peers)
unfolding Unique find forget
find-forget fp fp' [] h = ground arith
find-forget fp fp' (p ∷ peers) h = elim (Bool-cases (bytes_eq p.fingerprint fp)) [
  | inl same ↦
      let e : p.fingerprint ≡ fp = bytes_eq_sound p.fingerprint fp same in
      elim (Bool-cases (bytes_eq fp fp')) [
        | inl this ↦
            let gone : find fp' peers ≡ none =
              subst (λ (x : List ℕ). find x peers ≡ none) (e ∙ bytes_eq_sound fp fp' this) h.0 in
            simp (same, this) gone
        | inr that ↦
            let apart : bytes_eq p.fingerprint fp' ≡ false =
              subst (λ (x : List ℕ). bytes_eq x fp' ≡ false) (sym e) that in
            simp (same, that, apart) refl
      ]
  | inr other ↦ elim (Bool-cases (bytes_eq p.fingerprint fp')) [
    | inl this ↦
        let apart = bytes_eq-apart p.fingerprint fp fp' other this in simp (other, this, apart) refl
    | inr that ↦ simp (other, that) (find-forget fp fp' peers h.1)
  ]
]

forget-found : (fp : List ℕ) (peers : List PinnedPeer) → (forget fp peers).0 ≡ is_trusted fp peers
unfolding find forget
forget-found fp [] = refl
forget-found fp (p ∷ peers) = ground (arith, forget-found fp peers)

-- On a store that pins no fingerprint twice, Pin and Forget act as on a map from fingerprints: after
-- Pin the fingerprint has the given name, after Forget it has none, every other fingerprint is looked up
-- as before, Forget tells whether the fingerprint was there, and still none is pinned twice.
pub find-pin-forget :
    (fp name fp' : List ℕ) (peers : List PinnedPeer)
    → Unique peers
    → (find fp' (pin fp name peers) ≡ (
        if bytes_eq fp fp'
        then some (record { fingerprint = fp; name = name })
        else find fp' peers))
      × (find fp' (forget fp peers).1 ≡ (if bytes_eq fp fp' then none else find fp' peers))
      × ((forget fp peers).0 ≡ is_trusted fp peers)
      × Unique (pin fp name peers)
      × Unique (forget fp peers).1
find-pin-forget fp name fp' peers h = (
  find-pin fp name fp' peers,
  find-forget fp fp' peers h,
  forget-found fp peers,
  pin-Unique fp name peers h,
  forget-Unique fp peers h,
)

-- Some peer has `P`.
unfoldable pub Some : (PinnedPeer → Type 0) → List PinnedPeer → Type 0
Some P [] = ⊥
Some P (p ∷ peers) = P p ⊎ Some P peers

-- What each decision says of the store.
unfoldable pub Means : List ℕ → List ℕ → List PinnedPeer → TrustDecision → Type 0
Means fp name peers trusted = Some (λ p. p.fingerprint ≡ fp) peers
Means fp name peers key_changed =
    All (λ p. p.fingerprint ≢ fp) peers × Some (λ p. p.name ≡ name) peers
Means fp name peers unknown = All (λ p. (p.fingerprint ≢ fp) × (p.name ≢ name)) peers

find-Some :
    (fp : List ℕ) (peers : List PinnedPeer)
    → is_trusted fp peers ≡ true
    → Some (λ p. p.fingerprint ≡ fp) peers
unfolding find Some
find-Some fp [] h = cc
find-Some fp (p ∷ peers) h = elim (Bool-cases (bytes_eq p.fingerprint fp)) [
  | inl same ↦ inl (bytes_eq_sound p.fingerprint fp same)
  | inr other ↦ inr (find-Some fp peers (simp other at h))
]

find-All :
    (fp : List ℕ) (peers : List PinnedPeer)
    → is_trusted fp peers ≡ false
    → All (λ p. p.fingerprint ≢ fp) peers
unfolding find
find-All fp [] h = tt
find-All fp (p ∷ peers) h = elim (Bool-cases (bytes_eq p.fingerprint fp)) [
  | inl same ↦ absurd (ground arith)
  | inr other ↦ (bytes_eq_differ p.fingerprint fp other, find-All fp peers (simp other at h))
]

-- A peer with another fingerprint and another name does not change what a decision says.
Means-cons :
    (fp name : List ℕ) (p : PinnedPeer) (peers : List PinnedPeer) (d : TrustDecision)
    → p.fingerprint ≢ fp
    → p.name ≢ name
    → Means fp name peers d
    → Means fp name (p ∷ peers) d
unfolding Means Some
Means-cons fp name p peers trusted h k m = inr m
Means-cons fp name p peers key_changed h k m = ((h, m.0), inr m.1)
Means-cons fp name p peers unknown h k m = ((h, k), m)

evaluate_name-Means :
    (fp name : List ℕ) (peers : List PinnedPeer)
    → All (λ p. p.fingerprint ≢ fp) peers
    → Means fp name peers (evaluate_name name peers)
unfolding evaluate_name Means Some
evaluate_name-Means fp name [] h = tt
evaluate_name-Means fp name (p ∷ peers) h = elim (Bool-cases (bytes_eq p.name name)) [
  | inl same ↦ simp same (h, inl (bytes_eq_sound p.name name same))
  | inr other ↦ simp other (
      Means-cons fp name p peers (evaluate_name name peers) h.0 (bytes_eq_differ p.name name other)
        (evaluate_name-Means fp name peers h.1))
]

-- Evaluate answers trusted only if the fingerprint is pinned; key changed only if it is not and a peer
-- of the claimed name is pinned; unknown only if neither the fingerprint nor the name is.
pub evaluate-Means :
    (fp name : List ℕ) (peers : List PinnedPeer) → Means fp name peers (evaluate fp name peers)
unfolding evaluate Means
evaluate-Means fp name peers = elim (Bool-cases (is_trusted fp peers)) [
  | inl known ↦ simp known (find-Some fp peers known)
  | inr new ↦ simp new (evaluate_name-Means fp name peers (find-All fp peers new))
]
