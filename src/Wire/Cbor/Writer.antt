-- ===== src/Wire/Cbor/Writer.antt =====
-- `CborWriter`. The writer only appends to `fBuf`, so a write is the bytes that it appends, and a
-- sequence of writes is `++`.
use Prim.Native.Nat.{bit_or}
use campiello.Common.{ℕ, ◌*◌, ◌^◌, ◌%◌, Bool, List, [], ◌∷◌, ◌++◌, ltb, leb, if◌then◌else◌, length}
use campiello.Common.Int.{ℤ, pos, negsuc}
use campiello.Wire.Word.{be_bytes}

-- `WriteTypeAndArg`; `hi` is `majorType << 5` as a uint8_t.
unfoldable pub write_type_and_arg : ℕ → ℕ → List ℕ
write_type_and_arg major_type arg =
    let hi = major_type * 2 ^ 5 % 256 in
    if ltb arg 24
    then bit_or hi arg ∷ []
    else if leb arg 0xff
    then bit_or hi 24 ∷ be_bytes 1 arg
    else if leb arg 0xffff
    then bit_or hi 25 ∷ be_bytes 2 arg
    else if leb arg 0xffff_ffff
    then bit_or hi 26 ∷ be_bytes 4 arg
    else bit_or hi 27 ∷ be_bytes 8 arg

unfoldable pub write_uint : ℕ → List ℕ
write_uint v = write_type_and_arg 0 v

-- `~v` is `n` for the negative -(n + 1).
unfoldable pub write_int : ℤ → List ℕ
write_int (pos n) = write_type_and_arg 0 n
write_int (negsuc n) = write_type_and_arg 1 n

unfoldable pub write_bytes : List ℕ → List ℕ
write_bytes b = write_type_and_arg 2 (length b) ++ b

unfoldable pub write_text : List ℕ → List ℕ
write_text s = write_type_and_arg 3 (length s) ++ s

unfoldable pub write_bool : Bool → List ℕ
write_bool b = (if b then 0xf5 else 0xf4) ∷ []

unfoldable pub write_null : List ℕ
write_null = 0xf6 ∷ []

unfoldable pub array_header : ℕ → List ℕ
array_header count = write_type_and_arg 4 count

unfoldable pub map_header : ℕ → List ℕ
map_header count = write_type_and_arg 5 count
