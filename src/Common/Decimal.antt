-- ===== src/Common/Decimal.antt =====
-- `std::to_string` of a natural number.
use Prim.Native.Nat.{ℕ, zero, suc, ◌+◌, ◌-◌, ◌*◌, ◌/◌, ◌%◌, ◌≤◌}
use mathlib.Core.Path.{◌≡◌, refl, sym, ap, ◌∙◌}
use mathlib.Core.Logic.{inl, inr}
use mathlib.Core.List.{List, [], ◌∷◌, ◌++◌}
use native.Mathlib.Omega.{arith}
use campiello.Common.Tests.{ltb, if◌then◌else◌, Bool-cases}

-- A digit is left by each round, and a number of n has at most n rounds.
unfoldable pub digits_of : ℕ → ℕ → List ℕ
digits_of zero n = (48 + n % 10) ∷ []
digits_of (suc fuel) n =
    let front = digits_of fuel (n / 10) in
    if ltb n 10 then (48 + n) ∷ [] else front ++ ((48 + n % 10) ∷ [])

unfoldable pub to_string : ℕ → List ℕ
to_string n = digits_of n n

-- The number that digits stand for, behind those that stand for `acc`.
unfoldable pub value_of : ℕ → List ℕ → ℕ
value_of acc [] = acc
value_of acc (c ∷ cs) = value_of (acc * 10 + (c - 48)) cs

pub value_of-last :
    (acc : ℕ) (xs : List ℕ) (c : ℕ)
    → value_of acc (xs ++ (c ∷ [])) ≡ value_of acc xs * 10 + (c - 48)
unfolding value_of
value_of-last acc [] c = refl
value_of-last acc (x ∷ xs) c = value_of-last (acc * 10 + (x - 48)) xs c

value_of-digits_of : (fuel n : ℕ) → n ≤ fuel → value_of 0 (digits_of fuel n) ≡ n
unfolding value_of digits_of
value_of-digits_of zero n h = omega arith
value_of-digits_of (suc fuel) n h = elim (Bool-cases (ltb n 10)) [
  | inl e ↦ simp e (omega arith)
  | inr e ↦
      let rest = value_of-digits_of fuel (n / 10) (ground (arith, h, e)) in
      simp e (value_of-last 0 (digits_of fuel (n / 10)) (48 + n % 10) ∙ omega (arith, rest))
]

pub value_of-to_string : (n : ℕ) → value_of 0 (to_string n) ≡ n
unfolding to_string
value_of-to_string n = value_of-digits_of n n (omega arith)

pub to_string-injective : (n m : ℕ) → to_string n ≡ to_string m → n ≡ m
to_string-injective n m e = sym (value_of-to_string n) ∙ ap (value_of 0) e ∙ value_of-to_string m
