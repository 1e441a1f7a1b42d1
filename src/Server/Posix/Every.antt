-- ===== src/Server/Posix/Every.antt =====
-- What holds of every call that a program makes and of its result, whatever the calls answer.
use campiello.Common.{◌≡◌, refl, Bool, true, false, if◌then◌else◌, All}
use campiello.Server.Posix.{Call, Answer, Program, done, call, run, calls, ◌>>=◌}

-- `promise` is what an answer is known to satisfy, `allowed` what is shown of each call.
module _ (promise : (c : Call) → Answer c → Type 0) (allowed : Call → Type 0) where
  unfoldable pub Every : {A : Type 0} → (A → Type 0) → Program A → Type 0
  Every Q (done a) = Q a
  Every Q (call c k) = allowed c × ((o : Answer c) → promise c o → Every Q (k o))

  pub Every-bind :
      {A B : Type 0} (P : A → Type 0) (Q : B → Type 0) (f : A → Program B) (m : Program A)
      → Every P m
      → ((a : A) → P a → Every Q (f a))
      → Every Q (m >>= f)
  unfolding Every
  Every-bind P Q f (done a) h k = k a h
  Every-bind P Q f (call c m) h k = (h.0, λ o p. Every-bind P Q f (m o) (h.1 o p) k)

  pub Every-weaken :
      {A : Type 0} (P Q : A → Type 0) (m : Program A)
      → ((a : A) → P a → Q a)
      → Every P m
      → Every Q m
  unfolding Every
  Every-weaken P Q (done a) k h = k a h
  Every-weaken P Q (call c m) k h = (h.0, λ o p. Every-weaken P Q (m o) k (h.1 o p))

  pub Every-if :
      {A : Type 0} (Q : A → Type 0) (b : Bool) (m n : Program A)
      → (b ≡ true → Every Q m)
      → (b ≡ false → Every Q n)
      → Every Q (if b then m else n)
  Every-if Q true m n h k = h refl
  Every-if Q false m n h k = k refl

  pub Every-run :
      {A S : Type 0} (Q : A → Type 0) (system : (c : Call) → S → Answer c × S) (m : Program A)
      (w : S)
      → ((c : Call) (v : S) → promise c (system c v).0)
      → Every Q m
      → All allowed (calls system m w) × Q (run system m w).0
  unfolding Every run calls
  Every-run Q system (done a) w kept h = (tt, h)
  Every-run Q system (call c k) w kept h =
      let (o, v) = system c w in
      let rest =
        Every-run Q system (k (system c w).0) (system c w).1 kept (h.1 (system c w).0 (kept c w)) in
      ((h.0, rest.0), rest.1)

-- A program that may make some calls may make more.
pub Every-allow :
    {A : Type 0} (promise : (c : Call) → Answer c → Type 0) (allowed more : Call → Type 0)
    (Q : A → Type 0) (m : Program A)
    → ((c : Call) → allowed c → more c)
    → Every promise allowed Q m
    → Every promise more Q m
unfolding Every
Every-allow promise allowed more Q (done a) k h = h
Every-allow promise allowed more Q (call c m) k h =
    (k c h.0, λ o p. Every-allow promise allowed more Q (m o) k (h.1 o p))
