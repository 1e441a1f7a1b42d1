-- ===== src/Bricola/Keys.antt =====
-- `std::map` and `std::set` with strings as keys, in the order of their keys; used by
-- src/bricola/mdns/PeerTable.cpp.
pub mod Laws
use campiello.Common.{
  ℕ, Bool, true, false, ◌&&◌, ◌||◌, Option, none, some, List, [], ◌∷◌, if◌then◌else◌, ◌==◌, ltb,
  bytes_eq,
}

-- `<` on std::string
unfoldable pub key_before : List ℕ → List ℕ → Bool
key_before xs [] = false
key_before [] (y ∷ ys) = true
key_before (x ∷ xs) (y ∷ ys) = ltb x y || ((x == y) && key_before xs ys)

module _ {A : Type 0} where
  unfoldable pub find_key : List ℕ → List (List ℕ × A) → Option A
  find_key k [] = none
  find_key k ((j, a) ∷ table) = if bytes_eq j k then some a else find_key k table

  unfoldable pub replace_key : List ℕ → A → List (List ℕ × A) → List (List ℕ × A)
  replace_key k a [] = []
  replace_key k a ((j, b) ∷ table) =
      let rest = replace_key k a table in if bytes_eq j k then (j, a) ∷ table else (j, b) ∷ rest

  unfoldable pub insert_key : List ℕ → A → List (List ℕ × A) → List (List ℕ × A)
  insert_key k a [] = (k, a) ∷ []
  insert_key k a ((j, b) ∷ table) =
      let rest = insert_key k a table in
      if key_before k j then (k, a) ∷ (j, b) ∷ table else (j, b) ∷ rest

  abbrev pub put_at : List ℕ → A → List (List ℕ × A) → Option A → List (List ℕ × A)
  put_at k a table none = insert_key k a table
  put_at k a table (some b) = replace_key k a table

  -- `table[k] = a`
  unfoldable pub put_key : List ℕ → A → List (List ℕ × A) → List (List ℕ × A)
  put_key k a table = put_at k a table (find_key k table)

  unfoldable pub erase_key : List ℕ → List (List ℕ × A) → List (List ℕ × A)
  erase_key k [] = []
  erase_key k ((j, a) ∷ table) =
      let rest = erase_key k table in if bytes_eq j k then rest else (j, a) ∷ rest

unfoldable pub is_member : List ℕ → List (List ℕ) → Bool
is_member k [] = false
is_member k (j ∷ members) = bytes_eq j k || is_member k members

-- `insert` of a set
unfoldable pub add_member : List ℕ → List (List ℕ) → List (List ℕ)
add_member k [] = k ∷ []
add_member k (j ∷ members) =
    let rest = add_member k members in
    if bytes_eq j k then j ∷ members else if key_before k j then k ∷ j ∷ members else j ∷ rest

unfoldable pub erase_member : List ℕ → List (List ℕ) → List (List ℕ)
erase_member k [] = []
erase_member k (j ∷ members) =
    let rest = erase_member k members in if bytes_eq j k then rest else j ∷ rest
