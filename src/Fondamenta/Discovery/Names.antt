-- ===== src/Fondamenta/Discovery/Names.antt =====
-- The names of query results: one that is not in use is found, so the results of a folder have different
-- names.
use campiello.Common.{
  ℕ, zero, suc, ◌+◌, ◌-◌, ◌*◌, ◌≤◌, ◌<◌, ◌≡◌, ◌≢◌, ◌⊎◌, inl, inr, refl, sym, ap, ◌∙◌, true, false,
  Bool-cases, none, some, Option-cases, List, [], ◌∷◌, ◌++◌, length, length-append, drop,
  drop-append, bytes_eq, bytes_eq_sound, if◌then◌else◌, arith, ltb,
}
use campiello.Common.Text.{codes}
use campiello.Common.Decimal.{to_string, value_of, value_of-last, value_of-to_string}
use campiello.Wire.Listing.{Entry}
use campiello.Fondamenta.Discovery.QueryAggregator.{
  AggregatedEntry, has, leaf_base, candidate, fresh_name, or_base, query_leaf_name,
}
use campiello.Fondamenta.Discovery.PathRouter.{name_hits}

unfoldable erase : List ℕ → List (List ℕ) → List (List ℕ)
erase x [] = []
erase x (y ∷ ys) = let rest = erase x ys in if bytes_eq x y then ys else y ∷ rest

length-erase :
    (x : List ℕ) (ys : List (List ℕ)) → has x ys ≡ true → suc (length (erase x ys)) ≡ length ys
unfolding erase has
length-erase x [] h = cc
length-erase x (y ∷ ys) h = elim (Bool-cases (bytes_eq x y)) [
  | inl e ↦ simp e refl
  | inr e ↦ simp e (ap suc (length-erase x ys (sym (simp e refl) ∙ h)))
]

has-erase :
    (x y : List ℕ) (ys : List (List ℕ)) → x ≢ y → has x ys ≡ true → has x (erase y ys) ≡ true
unfolding erase has
has-erase x y [] d h = cc
has-erase x y (z ∷ ys) d h = elim (Bool-cases (bytes_eq x z)) [
  | inl e ↦ elim (Bool-cases (bytes_eq y z)) [
    | inl f ↦ absurd (d (bytes_eq_sound x z e ∙ sym (bytes_eq_sound y z f)))
    | inr f ↦ simp (f, e) refl
  ]
  | inr e ↦ elim (Bool-cases (bytes_eq y z)) [
    | inl f ↦ simp f (sym (simp e refl) ∙ h)
    | inr f ↦ simp (f, e) (has-erase x y ys d (sym (simp e refl) ∙ h))
  ]
]

-- More different strings than a list is long are not all in it.
pigeons :
    (c : ℕ → List ℕ) (n i : ℕ) (ys : List (List ℕ))
    → ((j k : ℕ) → c j ≡ c k → j ≡ k)
    → ((j : ℕ) → i ≤ j → j < i + n → has (c j) ys ≡ true)
    → n ≤ length ys
pigeons c zero i ys inj h = omega arith
pigeons c (suc n) i ys inj h =
    let rest = pigeons c n (suc i) (erase (c i) ys) inj (λ j l u.
      has-erase (c j) (c i) ys (λ e. absurd (omega (arith, inj j i e, l)))
        (h j (omega (arith, l)) (omega (arith, u)))) in
    omega (arith, rest, length-erase (c i) ys (h i (omega arith) (omega arith)))

suffix-injective : (n m : ℕ) → to_string n ++ codes ")" ≡ to_string m ++ codes ")" → n ≡ m
suffix-injective n m e =
    let v : (k : ℕ) → value_of 0 (to_string k ++ codes ")") ≡ k * 10 + (41 - 48) = λ k.
      value_of-last 0 (to_string k) 41
      ∙ ap (λ (t : ℕ). t * 10 + (41 - 48)) (value_of-to_string k) in
    omega (arith, sym (v n) ∙ ap (value_of 0) e ∙ v m)

candidate-injective : (base : List ℕ) (i j : ℕ) → candidate base i ≡ candidate base j → i ≡ j
unfolding candidate
candidate-injective base zero zero e = refl
candidate-injective base zero (suc j) e = absurd (
    omega (
      arith,
      ap length e,
      length-append base (codes " (" ++ (to_string (suc (suc j)) ++ codes ")")),
    ))
candidate-injective base (suc i) zero e = absurd (
    omega (
      arith,
      ap length e,
      length-append base (codes " (" ++ (to_string (suc (suc i)) ++ codes ")")),
    ))
candidate-injective base (suc i) (suc j) e =
    let tails =
      sym (drop-append base (codes " (" ++ (to_string (suc (suc i)) ++ codes ")")))
      ∙ ap (drop (length base)) e
      ∙ drop-append base (codes " (" ++ (to_string (suc (suc j)) ++ codes ")")) in
    omega (arith, suffix-injective (suc (suc i)) (suc (suc j)) (ap (drop 2) tails))

le_cases : (i j : ℕ) → i ≤ j → (i ≡ j) ⊎ (suc i ≤ j)
le_cases i j h = elim (Bool-cases (ltb i j)) [
  | inl e ↦ inr (ground (arith, e))
  | inr e ↦ inl (ground (arith, e, h))
]

-- Where no name is found, every candidate that was tried is in use.
fresh_name-none :
    (fuel i : ℕ) (base : List ℕ) (used : List (List ℕ)) (j : ℕ)
    → fresh_name fuel i base used ≡ none
    → i ≤ j
    → j < i + fuel
    → has (candidate base j) used ≡ true
unfolding fresh_name
fresh_name-none zero i base used j e l u = absurd (omega arith)
fresh_name-none (suc fuel) i base used j e l u = elim (Bool-cases (has (candidate base i) used)) [
  | inl t ↦ elim (le_cases i j l) [
    | inl same ↦ rw (← same) t
    | inr less ↦
        fresh_name-none fuel (suc i) base used j (sym (simp t refl) ∙ e) less (omega (arith, u))
  ]
  | inr f ↦ let clash : some (candidate base i) ≡ none = sym (simp f refl) ∙ e in absurd (cc clash)
]

fresh_name-some :
    (fuel i : ℕ) (base : List ℕ) (used : List (List ℕ)) (name : List ℕ)
    → fresh_name fuel i base used ≡ some name
    → has name used ≡ false
unfolding fresh_name
fresh_name-some zero i base used name e = cc
fresh_name-some (suc fuel) i base used name e = elim (Bool-cases (has (candidate base i) used)) [
  | inl t ↦ fresh_name-some fuel (suc i) base used name (sym (simp t refl) ∙ e)
  | inr f ↦
      let found : some (candidate base i) ≡ some name = sym (simp f refl) ∙ e in
      let same : candidate base i ≡ name = cc in rw (← same) f
]

-- `QueryLeafName` ends with a name that is not in use.
pub query_leaf_name-fresh :
    (peer path : List ℕ) (used : List (List ℕ))
    → has (query_leaf_name peer path used).0 used ≡ false
unfolding query_leaf_name
query_leaf_name-fresh peer path used =
    let base = leaf_base peer path in
    elim (Option-cases (fresh_name (suc (length used)) 0 base used)) [
      | inl e ↦ absurd (
          omega (
            arith,
            pigeons (candidate base) (suc (length used)) 0 used (candidate-injective base)
                (λ j l u. fresh_name-none (suc (length used)) 0 base used j e l u),
          ))
      | inr (name, e) ↦
          rw (ap (or_base base) e) (fresh_name-some (suc (length used)) 0 base used name e)
    ]

-- No name stands twice, or among those in use.
unfoldable pub Apart : List (List ℕ) → List Entry → Type 0
Apart used [] = Unit {0}
Apart used (e ∷ entries) = (has e.name used ≡ false) × Apart (e.name ∷ used) entries

pub name_hits-Apart :
    (hits : List AggregatedEntry) (used : List (List ℕ))
    → Apart used (name_hits hits used) × (length (name_hits hits used) ≡ length hits)
unfolding name_hits Apart query_leaf_name
name_hits-Apart [] used = (tt, refl)
name_hits-Apart (a ∷ hits) used =
    let rest = name_hits-Apart hits (query_leaf_name a.peer a.entry.name used).1 in
    ((query_leaf_name-fresh a.peer a.entry.name used, rest.0), ap suc rest.1)
