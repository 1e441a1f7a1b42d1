-- ===== src/Common/Table.antt =====
-- `std::map<uint64_t, A>` as a list of keys with their values: `find`, `erase`, `m[key] = value`.
use Prim.Native.Nat.{ℕ, ◌≤◌, ◌<◌}
use mathlib.Core.Path.{◌≡◌, refl, sym, ◌∙◌}
use mathlib.Core.Logic.{◌≢◌, inl, inr}
use mathlib.Core.Bool.{true, false}
use mathlib.Core.Option.{Option, none, some}
use mathlib.Core.List.{List, [], ◌∷◌}
use native.Mathlib.Omega.{arith}
use campiello.Common.Tests.{◌==◌, if◌then◌else◌, Bool-cases}
use campiello.Common.Lists.{length, All}

module _ {A : Type 0} where
  unfoldable pub lookup : ℕ → List (ℕ × A) → Option A
  lookup k [] = none
  lookup k ((j, a) ∷ table) = if j == k then some a else lookup k table

  unfoldable pub remove : ℕ → List (ℕ × A) → List (ℕ × A)
  remove k [] = []
  remove k ((j, a) ∷ table) = let rest = remove k table in if j == k then rest else (j, a) ∷ rest

  abbrev pub insert : ℕ → A → List (ℕ × A) → List (ℕ × A)
  insert k a table = (k, a) ∷ remove k table

  pub lookup-remove : (k : ℕ) (table : List (ℕ × A)) → lookup k (remove k table) ≡ none
  unfolding lookup remove
  lookup-remove k [] = refl
  lookup-remove k ((j, a) ∷ table) = elim (Bool-cases (j == k)) [
    | inl e ↦ simp e (lookup-remove k table)
    | inr e ↦ simp (e, e) (lookup-remove k table)
  ]

  pub lookup-remove_other :
      (i k : ℕ) (table : List (ℕ × A)) → i ≢ k → lookup i (remove k table) ≡ lookup i table
  unfolding lookup remove
  lookup-remove_other i k [] h = refl
  lookup-remove_other i k ((j, a) ∷ table) h = elim (Bool-cases (j == k)) [
    | inl e ↦
        let apart : (j == i) ≡ false = ground (arith, h, e) in
        simp (e, apart) (lookup-remove_other i k table h)
    | inr e ↦ elim (Bool-cases (j == i)) [
      | inl d ↦ simp (e, d) refl
      | inr d ↦ simp (e, d) (lookup-remove_other i k table h)
    ]
  ]

  pub lookup-insert : (k : ℕ) (a : A) (table : List (ℕ × A)) → lookup k (insert k a table) ≡ some a
  unfolding lookup
  lookup-insert k a table = let same : (k == k) ≡ true = ground arith in simp same refl

  -- A key that is inserted and removed leaves the other keys with their values.
  pub lookup-insert_removed :
      (i k : ℕ) (a : A) (table : List (ℕ × A))
      → i ≢ k
      → lookup i (remove k (insert k a table)) ≡ lookup i table
  unfolding lookup
  lookup-insert_removed i k a table h =
      let apart : (k == i) ≡ false = ground (arith, h) in
      lookup-remove_other i k (insert k a table) h ∙ simp apart (lookup-remove_other i k table h)

  pub length-remove : (k : ℕ) (table : List (ℕ × A)) → length (remove k table) ≤ length table
  unfolding remove
  length-remove k [] = omega arith
  length-remove k ((j, a) ∷ table) = elim (Bool-cases (j == k)) [
    | inl e ↦ simp e (omega (arith, length-remove k table))
    | inr e ↦ simp e (omega (arith, length-remove k table))
  ]

  -- Every pair of the table has the property.
  pub All-remove :
      (P : ℕ × A → Type 0) (k : ℕ) (table : List (ℕ × A)) → All P table → All P (remove k table)
  unfolding remove
  All-remove P k [] h = tt
  All-remove P k ((j, a) ∷ table) h = elim (Bool-cases (j == k)) [
    | inl e ↦ simp e (All-remove P k table h.1)
    | inr e ↦ simp e (h.0, All-remove P k table h.1)
  ]

  pub All-weaken :
      (P Q : ℕ × A → Type 0) (table : List (ℕ × A))
      → ((e : ℕ × A) → P e → Q e)
      → All P table
      → All Q table
  All-weaken P Q [] k h = tt
  All-weaken P Q (e ∷ table) k h = (k e h.0, All-weaken P Q table k h.1)

  pub All-lookup :
      (P : ℕ × A → Type 0) (k : ℕ) (a : A) (table : List (ℕ × A))
      → All P table
      → lookup k table ≡ some a
      → P (k, a)
  unfolding lookup
  All-lookup P k a [] h e = cc
  All-lookup P k a ((j, b) ∷ table) h e = elim (Bool-cases (j == k)) [
    | inl d ↦
        let same : j ≡ k = ground (arith, d) in
        let value : some b ≡ some a = sym (simp d refl) ∙ e in
        let b_a : b ≡ a = cc in rw (← same, ← b_a) h.0
    | inr d ↦ All-lookup P k a table h.1 (sym (simp d refl) ∙ e)
  ]

  pub lookup-fresh :
      (k : ℕ) (table : List (ℕ × A)) → All (λ (e : ℕ × A). e.0 < k) table → lookup k table ≡ none
  unfolding lookup
  lookup-fresh k [] h = refl
  lookup-fresh k ((j, a) ∷ table) h =
      let apart : (j == k) ≡ false = ground (arith, h.0) in simp apart (lookup-fresh k table h.1)

  -- No key stands twice.
  unfoldable pub Distinct : List (ℕ × A) → Type 0
  Distinct [] = Unit {0}
  Distinct ((k, a) ∷ table) = (lookup k table ≡ none) × Distinct table

  pub remove-Distinct : (k : ℕ) (table : List (ℕ × A)) → Distinct table → Distinct (remove k table)
  unfolding Distinct remove
  remove-Distinct k [] h = tt
  remove-Distinct k ((j, a) ∷ table) h = elim (Bool-cases (j == k)) [
    | inl e ↦ simp e (remove-Distinct k table h.1)
    | inr e ↦
        let apart : j ≢ k = ground (arith, e) in
        simp e (lookup-remove_other j k table apart ∙ h.0, remove-Distinct k table h.1)
  ]
