-- ===== src/Bricola/Keys/Laws.antt =====
-- Maps with strings as keys: what is found after a change.
use campiello.Common.{
  ℕ, ◌≡◌, ◌≢◌, refl, sym, subst, ◌∙◌, inl, inr, false, none, some, List, [], ◌∷◌, bytes_eq,
  bytes_eq_sound, bytes_eq_refl, Bool-cases, Option-cases, arith,
}
use campiello.Bricola.Keys.{key_before, find_key, replace_key, insert_key, put_key, erase_key}

pub bytes_eq_apart : (j k : List ℕ) → j ≢ k → bytes_eq j k ≡ false
bytes_eq_apart j k h = elim (Bool-cases (bytes_eq j k)) [
  | inl e ↦ absurd (h (bytes_eq_sound j k e))
  | inr e ↦ e
]

pub apart_lem : (j k : List ℕ) → bytes_eq j k ≡ false → j ≢ k
apart_lem j k h e =
    let same : bytes_eq j j ≡ false = subst (λ x. bytes_eq j x ≡ false) (sym e) h in
    let clash = bytes_eq_refl j in cc

module _ {A : Type 0} where
  -- No key stands twice.
  abbrev pub Distinct : List (List ℕ × A) → Type 0
  Distinct [] = Unit
  Distinct ((k, a) ∷ table) = (find_key k table ≡ none) × Distinct table

  find-replace_key :
      (k : List ℕ) (a b : A) (table : List (List ℕ × A))
      → find_key k table ≡ some b
      → find_key k (replace_key k a table) ≡ some a
  unfolding find_key replace_key
  find-replace_key k a b [] h = cc
  find-replace_key k a b ((j, c) ∷ table) h = ground (arith, find-replace_key k a b table)

  find-replace_other :
      (i k : List ℕ) (a : A) (table : List (List ℕ × A))
      → i ≢ k
      → find_key i (replace_key k a table) ≡ find_key i table
  unfolding find_key replace_key
  find-replace_other i k a [] h = refl
  find-replace_other i k a ((j, c) ∷ table) h =
      ground (arith, bytes_eq_sound j k, bytes_eq_apart j i, find-replace_other i k a table h)

  find-insert_key :
      (k : List ℕ) (a : A) (table : List (List ℕ × A))
      → find_key k table ≡ none
      → find_key k (insert_key k a table) ≡ some a
  unfolding find_key insert_key
  find-insert_key k a [] h = ground (arith, bytes_eq_refl k)
  find-insert_key k a ((j, c) ∷ table) h =
      ground (arith, bytes_eq_refl k, find-insert_key k a table)

  find-insert_other :
      (i k : List ℕ) (a : A) (table : List (List ℕ × A))
      → i ≢ k
      → find_key i (insert_key k a table) ≡ find_key i table
  unfolding find_key insert_key
  find-insert_other i k a [] h = ground (arith, bytes_eq_apart k i (λ e. h (sym e)))
  find-insert_other i k a ((j, c) ∷ table) h =
      ground (arith, bytes_eq_apart k i (λ e. h (sym e)), find-insert_other i k a table h)

  pub find-put_key :
      (k : List ℕ) (a : A) (table : List (List ℕ × A)) → find_key k (put_key k a table) ≡ some a
  unfolding put_key
  find-put_key k a table = elim (Option-cases (find_key k table)) [
    | inl e ↦ simp e (find-insert_key k a table e)
    | inr (b, e) ↦ simp e (find-replace_key k a b table e)
  ]

  pub find-put_other :
      (i k : List ℕ) (a : A) (table : List (List ℕ × A))
      → i ≢ k
      → find_key i (put_key k a table) ≡ find_key i table
  unfolding put_key
  find-put_other i k a table h = elim (Option-cases (find_key k table)) [
    | inl e ↦ simp e (find-insert_other i k a table h)
    | inr (b, e) ↦ simp e (find-replace_other i k a table h)
  ]

  pub find-erase_key :
      (k : List ℕ) (table : List (List ℕ × A)) → find_key k (erase_key k table) ≡ none
  unfolding find_key erase_key
  find-erase_key k [] = refl
  find-erase_key k ((j, c) ∷ table) = ground (arith, find-erase_key k table)

  pub find-erase_other :
      (i k : List ℕ) (table : List (List ℕ × A))
      → i ≢ k
      → find_key i (erase_key k table) ≡ find_key i table
  unfolding find_key erase_key
  find-erase_other i k [] h = refl
  find-erase_other i k ((j, c) ∷ table) h =
      ground (arith, bytes_eq_sound j k, bytes_eq_apart j i, find-erase_other i k table h)

  replace_key-Distinct :
      (k : List ℕ) (a : A) (table : List (List ℕ × A))
      → Distinct table
      → Distinct (replace_key k a table)
  unfolding replace_key
  replace_key-Distinct k a [] h = tt
  replace_key-Distinct k a ((j, c) ∷ table) (f, h) = elim (Bool-cases (bytes_eq j k)) [
    | inl e ↦ rw e (f, h)
    | inr e ↦
        rw e
          (find-replace_other j k a table (apart_lem j k e) ∙ f, replace_key-Distinct k a table h)
  ]

  insert_key-Distinct :
      (k : List ℕ) (a : A) (table : List (List ℕ × A))
      → find_key k table ≡ none
      → Distinct table
      → Distinct (insert_key k a table)
  unfolding insert_key find_key
  insert_key-Distinct k a [] e h = (refl, tt)
  insert_key-Distinct k a ((j, c) ∷ table) e (f, h) =
      let apart : bytes_eq j k ≡ false = ground arith in
      let rest : find_key k table ≡ none = ground arith in
      elim (Bool-cases (key_before k j)) [
        | inl b ↦ rw b (e, (f, h))
        | inr b ↦ rw b (
          find-insert_other j k a table (apart_lem j k apart) ∙ f,
          insert_key-Distinct k a table rest h,
        )
      ]

  pub erase_key-Distinct :
      (k : List ℕ) (table : List (List ℕ × A)) → Distinct table → Distinct (erase_key k table)
  unfolding erase_key
  erase_key-Distinct k [] h = tt
  erase_key-Distinct k ((j, c) ∷ table) (f, h) = elim (Bool-cases (bytes_eq j k)) [
    | inl e ↦ rw e (erase_key-Distinct k table h)
    | inr e ↦ rw e (find-erase_other j k table (apart_lem j k e) ∙ f, erase_key-Distinct k table h)
  ]

  pub put_key-Distinct :
      (k : List ℕ) (a : A) (table : List (List ℕ × A))
      → Distinct table
      → Distinct (put_key k a table)
  unfolding put_key
  put_key-Distinct k a table h = elim (Option-cases (find_key k table)) [
    | inl e ↦ rw e (insert_key-Distinct k a table e h)
    | inr (b, e) ↦ rw e (replace_key-Distinct k a table h)
  ]

  -- A property of a key with its value, of all that stand in a map.
  module _ (P : List ℕ → A → Type 0) where
    abbrev pub Each : List (List ℕ × A) → Type 0
    Each [] = Unit
    Each ((k, a) ∷ table) = P k a × Each table

    pub find_key-Each :
        (k : List ℕ) (a : A) (table : List (List ℕ × A))
        → Each table
        → find_key k table ≡ some a
        → P k a
    unfolding find_key
    find_key-Each k a [] h e = cc
    find_key-Each k a ((j, c) ∷ table) (p, h) e = elim (Bool-cases (bytes_eq j k)) [
      | inl b ↦
          let same : c ≡ a = ground (arith, e, b) in
          subst (λ x. P x a) (bytes_eq_sound j k b) (subst (λ x. P j x) same p)
      | inr b ↦ find_key-Each k a table h (ground (arith, e, b))
    ]

    replace_key-Each :
        (k : List ℕ) (a : A) (table : List (List ℕ × A))
        → P k a
        → Each table
        → Each (replace_key k a table)
    unfolding replace_key
    replace_key-Each k a [] p h = tt
    replace_key-Each k a ((j, c) ∷ table) p (q, h) = elim (Bool-cases (bytes_eq j k)) [
      | inl b ↦ rw b (subst (λ x. P x a) (sym (bytes_eq_sound j k b)) p, h)
      | inr b ↦ rw b (q, replace_key-Each k a table p h)
    ]

    insert_key-Each :
        (k : List ℕ) (a : A) (table : List (List ℕ × A))
        → P k a
        → Each table
        → Each (insert_key k a table)
    unfolding insert_key
    insert_key-Each k a [] p h = (p, tt)
    insert_key-Each k a ((j, c) ∷ table) p (q, h) = elim (Bool-cases (key_before k j)) [
      | inl b ↦ rw b (p, (q, h))
      | inr b ↦ rw b (q, insert_key-Each k a table p h)
    ]

    pub put_key-Each :
        (k : List ℕ) (a : A) (table : List (List ℕ × A))
        → P k a
        → Each table
        → Each (put_key k a table)
    unfolding put_key
    put_key-Each k a table p h = elim (Option-cases (find_key k table)) [
      | inl e ↦ rw e (insert_key-Each k a table p h)
      | inr (b, e) ↦ rw e (replace_key-Each k a table p h)
    ]

    pub erase_key-Each :
        (k : List ℕ) (table : List (List ℕ × A)) → Each table → Each (erase_key k table)
    unfolding erase_key
    erase_key-Each k [] h = tt
    erase_key-Each k ((j, c) ∷ table) (q, h) = elim (Bool-cases (bytes_eq j k)) [
      | inl b ↦ rw b (erase_key-Each k table h)
      | inr b ↦ rw b (q, erase_key-Each k table h)
    ]
