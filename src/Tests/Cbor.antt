-- ===== src/Tests/Cbor.antt =====
-- The CBOR codec at concrete items.
use campiello.Common.{suc, ◌≡◌, refl, none, some, [], ◌∷◌, ◌++◌, length, arith}
use campiello.Common.Text.{codes}
use campiello.Wire.Word.{be_bytes}
use campiello.Wire.Cbor.Monad.{reader, advance, remaining}
use campiello.Wire.Cbor.Writer.{
  write_type_and_arg, write_uint, write_text, write_null, map_header, array_header,
}
use campiello.Wire.Cbor.Reader.{read_argument, read_head, skip_item, skip_loop, skip}
use campiello.Wire.Cbor.Item.{
  Item, uint, text, array, map, null, nil, cons, end, pair, encode, count, count_pairs, IsItem,
}
use campiello.Wire.Cbor.Skip.{skip-encode}
use campiello.Wire.Cbor.Safe.{Moves}
use campiello.Wire.Cbor.Ends.{skip-ends}

-- {"a": [500, null]}
abbrev nested : Item
nested = map (pair (text (codes "a")) (array (cons (uint 500) (cons null nil))) end)

nested_bytes : encode nested ≡ 0xa1 ∷ 0x61 ∷ 0x61 ∷ 0x82 ∷ 0x19 ∷ 0x01 ∷ 0xf4 ∷ 0xf6 ∷ []
unfolding encode count count_pairs write_uint write_text write_null map_header array_header
    write_type_and_arg be_bytes
nested_bytes = refl

-- An indefinite-length array, a float and a tag are refused.
refused_items :
    ((skip (reader (0x9f ∷ 0x01 ∷ 0xff ∷ []))).0 ≡ none)
    × ((skip (reader (0xf9 ∷ 0x3c ∷ 0x00 ∷ []))).0 ≡ none)
    × ((skip (reader (0xc0 ∷ 0x01 ∷ []))).0 ≡ none)
unfolding skip skip_loop skip_item read_head read_argument
refused_items = (refl, refl, refl)

skip-encode_example :
    skip (reader (encode nested ++ (7 ∷ [])))
    ≡ (some tt, advance (length (encode nested)) (reader (encode nested ++ (7 ∷ []))))
unfolding encode count count_pairs write_uint write_text write_null map_header array_header
    write_type_and_arg be_bytes IsItem
skip-encode_example =
    skip-encode nested (reader (encode nested ++ (7 ∷ []))) (7 ∷ []) (omega arith) (omega arith)
      refl refl

-- Nesting deeper than the buffer can hold.
skip-ends_example :
    (skip_loop (suc (remaining (reader (0x81 ∷ 0x81 ∷ [])))) 1 (reader (0x81 ∷ 0x81 ∷ []))
      ≡ some (skip (reader (0x81 ∷ 0x81 ∷ []))))
    × Moves (reader (0x81 ∷ 0x81 ∷ [])) (skip (reader (0x81 ∷ 0x81 ∷ []))).1
skip-ends_example = skip-ends (reader (0x81 ∷ 0x81 ∷ [])) (omega arith)
