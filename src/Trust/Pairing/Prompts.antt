-- ===== src/Trust/Pairing/Prompts.antt =====
-- How often Admit raises the prompt.
use campiello.Common.{
  ℕ, suc, ◌+◌, ◌*◌, ◌≤◌, ◌≡◌, refl, ap, ◌∙◌, subst, Bool, true, false, Bool-cases, inl, inr, List,
  [], ◌∷◌, if◌then◌else◌, ltb, bytes_eq, length, arith, map,
}
use campiello.Trust.TokenBucket.{
  TokenBucket, Spent, at_least_one, try_take, try_take-Spent, try_take-last, latest,
}
use campiello.Trust.Store.{PinnedPeer, TrustDecision, trusted, unknown, key_changed, pin, evaluate}
use campiello.Trust.Pairing.{
  Pairing, Moment, no_fingerprint, answered, rate_limited, decided, admit, new_pairing,
}
use campiello.Trust.Pairing.Admission.{save-prompts, save-bucket}

-- What one call does to the bucket and to the count of prompts.
pub record Asked (p p' : Pairing) (now : ℕ) : Type 0 where
  pub pace : p'.bucket.refill_ms ≡ p.bucket.refill_ms
  pub later : p'.bucket.last ≤ (if ltb p.bucket.last now then now else p.bucket.last)
  pub earned :
      length p'.prompts * p.bucket.refill_ms + p'.bucket.credit + p.bucket.last
      ≤ length p.prompts * p.bucket.refill_ms + p.bucket.credit + p'.bucket.last

Asked-same : (p : Pairing) (now : ℕ) → Asked p p now
Asked-same p now = record { pace = refl; later = ground arith; earned = omega arith }

answered-bucket :
    (m : Moment) (fp name : List ℕ) (q : Pairing)
    → ((answered m fp name q).1.bucket ≡ q.bucket) × ((answered m fp name q).1.prompts ≡ q.prompts)
answered-bucket m fp name q = elim (Bool-cases m.allow) [
  | inl allowed ↦
      let q' = record q { store = pin fp name q.store } in
      simp allowed (save-bucket m.writable q', save-prompts m.writable q')
  | inr refused ↦ simp refused (refl, refl)
]

one_more : (n r c l c' l' : ℕ) → 1 * r + c' + l ≤ c + l' → suc n * r + c' + l ≤ n * r + c + l'
one_more n r c l c' l' h = grind arith

rate_limited-Asked :
    (m : Moment) (fp name : List ℕ) (d : TrustDecision) (p : Pairing) (t : Bool × TokenBucket)
    → Spent p.bucket t.0 t.1
    → t.1.last ≡ (if ltb p.bucket.last m.now then m.now else p.bucket.last)
    → Asked p (rate_limited m fp name d p t).1 m.now
rate_limited-Asked m fp name d p (false, b) s l = record {
  pace = s.refill_ms;
  later = omega (arith, l);
  earned = omega (arith, s.earned);
}
rate_limited-Asked m fp name d p (true, b) s l =
    let q = record p {
      bucket = b;
      prompts = record { name = name; fingerprint = fp; decision = d } ∷ p.prompts;
    } in
    let (bucket, prompts) = answered-bucket m fp name q in
    record {
      pace = ap (λ (x : TokenBucket). x.refill_ms) bucket ∙ s.refill_ms;
      later = omega (arith, l, ap (λ (x : TokenBucket). x.last) bucket);
      earned =
          simp (bucket, prompts)
            (one_more (length p.prompts) p.bucket.refill_ms p.bucket.credit p.bucket.last b.credit
              b.last s.earned);
    }

decided-Asked :
    (m : Moment) (fp name : List ℕ) (p : Pairing) (d : TrustDecision)
    → Asked p (decided m fp name p d).1 m.now
decided-Asked m fp name p trusted = Asked-same p m.now
decided-Asked m fp name p unknown =
    rate_limited-Asked m fp name unknown p (try_take m.now p.bucket) (try_take-Spent m.now p.bucket)
      (try_take-last m.now p.bucket)
decided-Asked m fp name p key_changed =
    rate_limited-Asked m fp name key_changed p (try_take m.now p.bucket)
      (try_take-Spent m.now p.bucket) (try_take-last m.now p.bucket)

admit-Asked : (m : Moment) (fp name : List ℕ) (p : Pairing) → Asked p (admit m fp name p).1 m.now
unfolding admit
admit-Asked m fp name p = elim (Bool-cases (bytes_eq fp no_fingerprint)) [
  | inl zeros ↦ simp zeros (Asked-same p m.now)
  | inr real ↦ simp real (decided-Asked m fp name p (evaluate fp name p.store))
]

-- Calls of Admit in a row.
pub record Attempt : Type 0 where
  pub moment : Moment
  pub fingerprint : List ℕ
  pub name : List ℕ

unfoldable pub admits : List Attempt → Pairing → Pairing
admits [] p = p
admits (a ∷ attempts) p = admits attempts (admit a.moment a.fingerprint a.name p).1

abbrev pub times : List Attempt → List ℕ
times attempts = map (λ a. a.moment.now) attempts

latest_mono : (ts : List ℕ) (a b : ℕ) → a ≤ b → latest a ts ≤ latest b ts
unfolding latest
latest_mono [] a b h = h
latest_mono (t ∷ ts) a b h = latest_mono ts _ _ (ground arith)

admits-earned :
    (attempts : List Attempt) (p : Pairing)
    → length (admits attempts p).prompts * p.bucket.refill_ms + p.bucket.last
      ≤ length p.prompts * p.bucket.refill_ms
        + p.bucket.credit
        + latest p.bucket.last (times attempts)
unfolding admits latest
admits-earned [] p = omega arith
admits-earned (a ∷ attempts) p =
    let p1 = (admit a.moment a.fingerprint a.name p).1 in
    let one = admit-Asked a.moment a.fingerprint a.name p in
    let more : length (admits attempts p1).prompts * p.bucket.refill_ms + p1.bucket.last
        ≤ length p1.prompts * p.bucket.refill_ms
          + p1.bucket.credit
          + latest p1.bucket.last (times attempts) =
      subst
        (λ (r : ℕ).
          length (admits attempts p1).prompts * r + p1.bucket.last
          ≤ length p1.prompts * r + p1.bucket.credit + latest p1.bucket.last (times attempts))
        one.pace (admits-earned attempts p1) in
    omega (arith, one.earned, more, latest_mono (times attempts) p1.bucket.last _ one.later)

-- However many peers try to connect, and whatever they claim, the prompts that a new Pairing raises are
-- at most the burst plus one for each full refill period up to the latest time that the clock has shown
-- (both limits raised to one if below; the credit is exact, without the rounding of a double).
pub prompts-bound :
    (burst refill_ms start : ℕ) (has_path : Bool) (store : List PinnedPeer)
    (attempts : List Attempt)
    → length (admits attempts (new_pairing burst refill_ms start has_path store)).prompts
          * at_least_one refill_ms
        + start
      ≤ at_least_one burst * at_least_one refill_ms + latest start (times attempts)
prompts-bound burst refill_ms start has_path store attempts =
    omega (arith, admits-earned attempts (new_pairing burst refill_ms start has_path store))
