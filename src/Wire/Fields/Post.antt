-- ===== src/Wire/Fields/Post.antt =====
-- What a decoder's result satisfies, on any payload, however it was made.
use campiello.Common.{
  ℕ, zero, suc, ◌≡◌, refl, subst, Bool, true, false, arith, if◌then◌else◌, Option, none, some, List,
}
use campiello.Wire.Cbor.Monad.{CborReader, M, pure, when, repeat, continue, reader, ◌>>=◌}
use campiello.Wire.Cbor.Reader.{read_text, read_map_header, skip}
use campiello.Wire.Cbor.Safe.{
  Safe, Safe-bind, Safe-pure, Safe-when, Safe-repeat, read_text-Safe, read_map_header-Safe,
}
use campiello.Wire.Cbor.Ends.{skip-Safe}
use campiello.Wire.Fields.{
  is_none, once, store, ignore, entry, read_fields, accept, read_map, whole, decode,
}

-- The field, if it is there, satisfies `P`.
abbrev pub Held : {A : Type 0} → (A → Type 0) → Option A → Type 0
Held P none = Unit
Held P (some a) = P a

-- Whatever `m` reads satisfies `P`.
pub record Post {A : Type 0} (m : M A) (P : A → Type 0) : Type 0 where
  pub at : (r : CborReader) → Held P (m r).0

module _ {A : Type 0} where
  pub Post-pure : (P : A → Type 0) (a : A) → P a → Post (pure a) P
  Post-pure P a h = record { at = λ r. h }

  pub Post-when : (P : A → Type 0) (b : Bool) (m : M A) → (b ≡ true → Post m P) → Post (when b m) P
  Post-when P true m h = record { at = λ r. (h refl).at r }
  Post-when P false m h = record { at = λ r. tt }

  pub Post-if :
      (P : A → Type 0) (b : Bool) (m n : M A) → Post m P → Post n P → Post (if b then m else n) P
  Post-if P true m n p q = p
  Post-if P false m n p q = q

  pub Post-accept : (P : A → Type 0) (o : Option A) → Held P o → Post (accept o) P
  Post-accept P none h = record { at = λ r. tt }
  Post-accept P (some a) h = Post-pure P a h

  Held-weaken : (P Q : A → Type 0) (o : Option A) → ((a : A) → P a → Q a) → Held P o → Held Q o
  Held-weaken P Q none f h = tt
  Held-weaken P Q (some a) f h = f a h

  pub Post-weaken : (P Q : A → Type 0) (m : M A) → ((a : A) → P a → Q a) → Post m P → Post m Q
  Post-weaken P Q m f p = record { at = λ r. Held-weaken P Q (m r).0 f (p.at r) }

  -- No claim on what is read.
  pub Post-any : (m : M A) → Post m (λ a. Unit)
  Post-any m = record { at = λ r. anything (m r).0 }
    where
      anything : (o : Option A) → Held (λ a. Unit) o
      anything none = tt
      anything (some a) = tt

module _ {A B : Type 0} (P : B → Type 0) (Q : A → Type 0) (f : A → M B) where
  continue-Held :
      (x : Option A × CborReader)
      → ((a : A) → Q a → Post (f a) P)
      → Held Q x.0
      → Held P (continue f x).0
  continue-Held (none, r) h q = tt
  continue-Held (some a, r) h q = (h a q).at r

  pub Post-bind : (m : M A) → Post m Q → ((a : A) → Q a → Post (f a) P) → Post (m >>= f) P
  Post-bind m p h = record { at = λ r. continue-Held (m r) h (p.at r) }

pub Post-repeat :
    {S : Type 0} (P : S → Type 0) (step : S → M S)
    → ((s : S) → P s → Post (step s) P)
    → (n : ℕ) (s : S) → P s
    → Post (repeat n step s) P
unfolding repeat
Post-repeat P step keep zero s h = Post-pure P s h
Post-repeat P step keep (suc n) s h =
    Post-bind P P (repeat n step) (step s) (keep s h) (Post-repeat P step keep n)

module _ {S : Type 0} (P : S → Type 0) where
  -- An unknown key leaves the fields as they are.
  pub Post-ignore : (s : S) → P s → Post (ignore s) P
  Post-ignore s h =
      Post-bind P (λ u. Unit) (λ u. pure s) skip (Post-any skip) (λ u _. Post-pure P s h)

  -- A stored field passed its test.
  pub Post-once :
      {A C : Type 0} (o : Option C) (m : M A) (test : A → Bool) (f : A → S)
      → ((a : A) → test a ≡ true → P (f a))
      → Post (once o (store m test f)) P
  Post-once o m test f h = Post-when P (is_none o) (store m test f) (λ _.
      Post-bind P (λ a. Unit) (λ v. when (test v) (pure (f v))) m (Post-any m)
        (λ a _. Post-when P (test a) (pure (f a)) (λ t. Post-pure P (f a) (h a t))))

  -- The same, where the read itself promises `Q`.
  pub Post-read :
      {A C : Type 0} (Q : A → Type 0) (o : Option C) (m : M A) (test : A → Bool) (f : A → S)
      → Post m Q
      → ((a : A) → Q a → test a ≡ true → P (f a))
      → Post (once o (store m test f)) P
  Post-read Q o m test f p h = Post-when P (is_none o) (store m test f) (λ _.
      Post-bind P Q (λ v. when (test v) (pure (f v))) m p
        (λ a q. Post-when P (test a) (pure (f a)) (λ t. Post-pure P (f a) (h a q t))))

module _ {S B : Type 0} (I : S → Type 0) (P : B → Type 0) where
  pub Post-map :
      (value : S → List ℕ → M S) (start : S) (finish : S → Option B)
      → ((s : S) (key : List ℕ) → I s → Post (value s key) I)
      → I start
      → ((s : S) → I s → Held P (finish s))
      → Post (read_map value start finish) P
  unfolding read_map
  Post-map value start finish keep h done =
      Post-bind P I (λ s. accept (finish s)) (read_map_header >>= read_fields value start)
        (Post-bind I (λ n. Unit) (read_fields value start) read_map_header
          (Post-any read_map_header)
          (λ n _.
            Post-repeat I (entry value)
              (λ s i.
                Post-bind I (λ k. Unit) (value s) read_text (Post-any read_text)
                  (λ k _. keep s k i))
              n start h))
        (λ s i. Post-accept P (finish s) (done s i))

pub decode-Post :
    {B : Type 0} (P : B → Type 0) (m : M B) (payload : List ℕ) (b : B)
    → Post m P
    → decode m payload ≡ some b
    → P b
unfolding decode
decode-Post {B} P m payload b p e = from (m (reader payload)) (p.at (reader payload)) e
  where
    from : (x : Option B × CborReader) → Held P x.0 → whole x ≡ some b → P b
    from (none, r) h e = absurd (cc)
    from (some c, r) h e = let same : c ≡ b = ground arith in subst P same h

Safe-accept : {B : Type 0} (o : Option B) → Safe (accept o)
Safe-accept none = record { at = λ r h. ground arith }
Safe-accept (some b) = Safe-pure b

-- A decoder stays within its payload, whatever the payload is.
pub Safe-map :
    {S B : Type 0} (value : S → List ℕ → M S) (start : S) (finish : S → Option B)
    → ((s : S) (key : List ℕ) → Safe (value s key))
    → Safe (read_map value start finish)
unfolding read_map
Safe-map value start finish safe =
    Safe-bind (λ s. accept (finish s)) (λ s. Safe-accept (finish s))
      (read_map_header >>= read_fields value start)
      (Safe-bind (read_fields value start)
        (λ n.
          Safe-repeat n (entry value) (λ s. Safe-bind (value s) (safe s) read_text read_text-Safe)
            start)
        read_map_header read_map_header-Safe)

pub Safe-if : {A : Type 0} (b : Bool) (m n : M A) → Safe m → Safe n → Safe (if b then m else n)
Safe-if true m n p q = p
Safe-if false m n p q = q

pub Safe-ignore : {S : Type 0} (s : S) → Safe (ignore s)
Safe-ignore s = Safe-bind (λ u. pure s) (λ u. Safe-pure s) skip skip-Safe

pub Safe-once :
    {A C S : Type 0} (o : Option C) (m : M A) (test : A → Bool) (f : A → S)
    → Safe m
    → Safe (once o (store m test f))
Safe-once o m test f h = Safe-when (is_none o) (store m test f) (
    Safe-bind (λ v. when (test v) (pure (f v)))
      (λ v. Safe-when (test v) (pure (f v)) (Safe-pure (f v))) m h)
