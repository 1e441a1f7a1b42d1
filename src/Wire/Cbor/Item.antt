-- ===== src/Wire/Cbor/Item.antt =====
-- The CBOR items that `CborWriter` can write, as trees.
use Prim.Native.Nat.{bit_or}
use campiello.Wire.Word.{be_bytes}
use campiello.Common.{◌*◌, ◌^◌, ◌%◌}
use campiello.Common.{
  ℕ, suc, ◌+◌, ◌/◌, ◌≤◌, ◌<◌, ◌≡◌, Bool, Bool-cases, inl, inr, ltb, leb, List, ◌++◌, length,
  length-append, arith,
}
use campiello.Common.{[], ◌∷◌}
use campiello.Wire.Cbor.Writer.{
  write_type_and_arg, write_uint, write_bytes, write_text, write_bool, write_null, array_header,
  map_header,
}
use campiello.Wire.Cbor.Head.{IsU64, initial_byte}

mutual
  pub data Item : Type 0 where
    uint : ℕ → Item
    negative : ℕ → Item
    byte_string : List ℕ → Item
    text : List ℕ → Item
    array : Items → Item
    map : Pairs → Item
    bool : Bool → Item
    null : Item

  pub data Items : Type 0 where
    nil : Items
    cons : Item → Items → Items

  pub data Pairs : Type 0 where
    end : Pairs
    pair : Item → Item → Pairs → Pairs

unfoldable pub count : Items → ℕ
count nil = 0
count (cons x xs) = suc (count xs)

unfoldable pub count_pairs : Pairs → ℕ
count_pairs end = 0
count_pairs (pair k v ps) = suc (count_pairs ps)

-- The canonical encoding.
unfoldable mutual
  pub encode : Item → List ℕ
  encode (uint v) = write_uint v
  encode (negative n) = write_type_and_arg 1 n
  encode (byte_string b) = write_bytes b
  encode (text s) = write_text s
  encode (array xs) = array_header (count xs) ++ encode_items xs
  encode (map ps) = map_header (count_pairs ps) ++ encode_pairs ps
  encode (bool b) = write_bool b
  encode null = write_null

  pub encode_items : Items → List ℕ
  encode_items nil = []
  encode_items (cons x xs) = encode x ++ encode_items xs

  pub encode_pairs : Pairs → List ℕ
  encode_pairs end = []
  encode_pairs (pair k v ps) = encode k ++ (encode v ++ encode_pairs ps)

-- The rounds that `Skip` makes for an item.
unfoldable mutual
  pub nodes : Item → ℕ
  nodes (array xs) = suc (nodes_items xs)
  nodes (map ps) = suc (nodes_pairs ps)
  nodes _ = 1

  pub nodes_items : Items → ℕ
  nodes_items nil = 0
  nodes_items (cons x xs) = nodes x + nodes_items xs

  pub nodes_pairs : Pairs → ℕ
  nodes_pairs end = 0
  nodes_pairs (pair k v ps) = nodes k + (nodes v + nodes_pairs ps)

-- Numbers are uint64_t values; lengths and counts are bounded by the buffer that holds the item.
unfoldable mutual
  pub IsItem : Item → Type 0
  IsItem (uint v) = IsU64 v
  IsItem (negative n) = IsU64 n
  IsItem (array xs) = IsItems xs
  IsItem (map ps) = IsPairs ps
  IsItem _ = Unit

  pub IsItems : Items → Type 0
  IsItems nil = Unit
  IsItems (cons x xs) = IsItem x × IsItems xs

  pub IsPairs : Pairs → Type 0
  IsPairs end = Unit
  IsPairs (pair k v ps) = IsItem k × IsItem v × IsPairs ps

-- A head has a first byte, whose upper three bits are the major type.
pub head-cons :
    (major arg : ℕ)
    → major < 8
    → (b : ℕ) × (bs : List ℕ) × (write_type_and_arg major arg ≡ b ∷ bs) × (b / 32 ≡ major)
unfolding write_type_and_arg
head-cons major arg h = elim (Bool-cases (ltb arg 24)) [
  | inl a ↦ (
    bit_or (major * 2 ^ 5 % 256) arg,
    [],
    rw a,
    rw (initial_byte major arg h (ground arith)) (ground arith),
  )
  | inr a ↦ elim (Bool-cases (leb arg 0xff)) [
    | inl b ↦ (
      bit_or (major * 2 ^ 5 % 256) 24,
      be_bytes 1 arg,
      rw (a, b),
      rw (initial_byte major 24 h (omega arith)) (omega arith),
    )
    | inr b ↦ elim (Bool-cases (leb arg 0xffff)) [
      | inl c ↦ (
        bit_or (major * 2 ^ 5 % 256) 25,
        be_bytes 2 arg,
        rw (a, b, c),
        rw (initial_byte major 25 h (omega arith)) (omega arith),
      )
      | inr c ↦ elim (Bool-cases (leb arg 0xffff_ffff)) [
        | inl d ↦ (
          bit_or (major * 2 ^ 5 % 256) 26,
          be_bytes 4 arg,
          rw (a, b, c, d),
          rw (initial_byte major 26 h (omega arith)) (omega arith),
        )
        | inr d ↦ (
          bit_or (major * 2 ^ 5 % 256) 27,
          be_bytes 8 arg,
          rw (a, b, c, d),
          rw (initial_byte major 27 h (omega arith)) (omega arith),
        )
      ]
    ]
  ]
]

-- Every item takes at least one byte, and at least as many as `Skip` makes rounds.
pub head-pos : (major arg : ℕ) → 1 ≤ length (write_type_and_arg major arg)
unfolding write_type_and_arg
head-pos major arg = ground arith

pub encode-pos : (i : Item) → 1 ≤ length (encode i)
unfolding encode write_uint write_bytes write_text write_bool write_null array_header map_header
encode-pos (uint v) = head-pos 0 v
encode-pos (negative n) = head-pos 1 n
encode-pos (byte_string b) =
    omega (arith, head-pos 2 (length b), length-append (write_type_and_arg 2 (length b)) b)
encode-pos (text s) =
    omega (arith, head-pos 3 (length s), length-append (write_type_and_arg 3 (length s)) s)
encode-pos (array xs) = omega (
  arith,
  head-pos 4 (count xs),
  length-append (write_type_and_arg 4 (count xs)) (encode_items xs),
)
encode-pos (map ps) = omega (
  arith,
  head-pos 5 (count_pairs ps),
  length-append (write_type_and_arg 5 (count_pairs ps)) (encode_pairs ps),
)
encode-pos (bool b) = omega arith
encode-pos null = omega arith

-- So a count never exceeds the bytes of what it counts.
pub count-le : (xs : Items) → count xs ≤ length (encode_items xs)
unfolding count encode
count-le nil = omega arith
count-le (cons x xs) =
    omega (arith, encode-pos x, count-le xs, length-append (encode x) (encode_items xs))

pub count_pairs-le : (ps : Pairs) → count_pairs ps * 2 ≤ length (encode_pairs ps)
unfolding count_pairs encode
count_pairs-le end = omega arith
count_pairs-le (pair k v ps) = omega (
  arith,
  encode-pos k,
  encode-pos v,
  count_pairs-le ps,
  length-append (encode k) (encode v ++ encode_pairs ps),
  length-append (encode v) (encode_pairs ps),
)

mutual
  unfolding encode nodes write_uint write_bytes write_text write_bool write_null array_header
      map_header

  nodes-le-item : (i : Item) → nodes i ≤ length (encode i)
  nodes-le-item (uint v) = omega (arith, head-pos 0 v)
  nodes-le-item (negative n) = omega (arith, head-pos 1 n)
  nodes-le-item (byte_string b) =
      omega (arith, head-pos 2 (length b), length-append (write_type_and_arg 2 (length b)) b)
  nodes-le-item (text s) =
      omega (arith, head-pos 3 (length s), length-append (write_type_and_arg 3 (length s)) s)
  nodes-le-item (array xs) = omega (
    arith,
    head-pos 4 (count xs),
    nodes-le-items xs,
    length-append (write_type_and_arg 4 (count xs)) (encode_items xs),
  )
  nodes-le-item (map ps) = omega (
    arith,
    head-pos 5 (count_pairs ps),
    nodes-le-pairs ps,
    length-append (write_type_and_arg 5 (count_pairs ps)) (encode_pairs ps),
  )
  nodes-le-item (bool b) = omega arith
  nodes-le-item null = omega arith

  nodes-le-items : (xs : Items) → nodes_items xs ≤ length (encode_items xs)
  nodes-le-items nil = omega arith
  nodes-le-items (cons x xs) =
      omega (arith, nodes-le-item x, nodes-le-items xs, length-append (encode x) (encode_items xs))

  nodes-le-pairs : (ps : Pairs) → nodes_pairs ps ≤ length (encode_pairs ps)
  nodes-le-pairs end = omega arith
  nodes-le-pairs (pair k v ps) = omega (
    arith,
    nodes-le-item k,
    nodes-le-item v,
    nodes-le-pairs ps,
    length-append (encode k) (encode v ++ encode_pairs ps),
    length-append (encode v) (encode_pairs ps),
  )

pub nodes-le : (i : Item) → nodes i ≤ length (encode i)
nodes-le i = nodes-le-item i
