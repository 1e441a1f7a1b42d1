-- ===== src/Wire/Cbor/Reader.antt =====
-- `CborReader`. A read past the last byte would read 0; the guards rule it out.
use campiello.Common.{
  ℕ, zero, suc, ◌+◌, ◌-◌, ◌*◌, ◌/◌, ◌%◌, ◌^◌, Bool, true, false, ◌||◌, Option, none, some, List,
  ltb, ◌==◌, if◌then◌else◌, get_or, take,
}
use campiello.Common.Int.{ℤ, pos, negsuc}
use campiello.Wire.Word.{from_be}
use campiello.Wire.Cbor.Monad.{CborReader, fail, advance, remaining, stopped, unread, M, ◌>>=◌}

-- The number of bytes that hold the argument, by the switch on the additional information.
abbrev pub arg_size : ℕ → Option ℕ
arg_size ai =
    if ai == 24
    then some 1
    else if ai == 25
    then some 2
    else if ai == 26
    then some 4
    else if ai == 27
    then some 8
    else none

-- `ReadHead` behind the initial byte `ib`.
unfoldable pub read_argument : ℕ → M (ℕ × ℕ)
read_argument ib r =
    if ltb (ib % 32) 24 then (some (ib / 32, ib % 32), r) else elim (arg_size (ib % 32)) [
      | none ↦ (none, fail r)
      | some n ↦
          if ltb (remaining r) n
          then (none, fail r)
          else (some (ib / 32, from_be 0 (take n (unread r))), advance n r)
    ]

-- `ReadHead`: the major type and the argument.
unfoldable pub read_head : M (ℕ × ℕ)
read_head r =
    if stopped r then (none, fail r) else read_argument (get_or r.bytes r.pos 0) (advance 1 r)

pub data ItemType : Type 0 where
  uint neg_int bytes text array map bool null invalid : ItemType

-- `Peek`
unfoldable pub peek : CborReader → ItemType
peek r =
    let ib = get_or r.bytes r.pos 0 in
    if stopped r
    then invalid
    else if ib / 32 == 0
    then uint
    else if ib / 32 == 1
    then neg_int
    else if ib / 32 == 2
    then bytes
    else if ib / 32 == 3
    then text
    else if ib / 32 == 4
    then array
    else if ib / 32 == 5
    then map
    else if ib == 0xf4 || ib == 0xf5
    then bool
    else if ib == 0xf6
    then null
    else invalid

abbrev pub uint_of_head : ℕ × ℕ → M ℕ
uint_of_head (major, arg) r = if major == 0 then (some arg, r) else (none, fail r)

unfoldable pub read_uint : M ℕ
read_uint = read_head >>= uint_of_head

-- INT64_MAX is 2 ^ 63 - 1.
abbrev pub int_of_head : ℕ × ℕ → M ℤ
int_of_head (major, arg) r =
    if ltb (2 ^ 63 - 1) arg
    then (none, fail r)
    else if major == 0
    then (some (pos arg), r)
    else if major == 1
    then (some (negsuc arg), r)
    else (none, fail r)

unfoldable pub read_int : M ℤ
read_int = read_head >>= int_of_head

-- A byte or text string of `arg` bytes behind its head.
abbrev pub string_of_head : ℕ → ℕ × ℕ → M (List ℕ)
string_of_head wanted (major, arg) r =
    if major == wanted
    then if ltb (remaining r) arg
      then (none, fail r)
      else (some (take arg (unread r)), advance arg r)
    else (none, fail r)

unfoldable pub read_bytes : M (List ℕ)
read_bytes = read_head >>= string_of_head 2

unfoldable pub read_text : M (List ℕ)
read_text = read_head >>= string_of_head 3

unfoldable pub read_bool : M Bool
read_bool r =
    let ib = get_or r.bytes r.pos 0 in
    if stopped r
    then (none, fail r)
    else if ib == 0xf5
    then (some true, advance 1 r)
    else if ib == 0xf4
    then (some false, advance 1 r)
    else (none, fail r)

unfoldable pub read_null : M (Unit {0})
read_null r =
    if stopped r
    then (none, fail r)
    else if get_or r.bytes r.pos 0 == 0xf6
    then (some tt, advance 1 r)
    else (none, fail r)

-- A count may not exceed the bytes that are left.
abbrev pub header_of_head : ℕ → ℕ × ℕ → M ℕ
header_of_head wanted (major, arg) r =
    if major == wanted
    then if ltb (remaining r) arg then (none, fail r) else (some arg, r)
    else (none, fail r)

unfoldable pub read_array_header : M ℕ
read_array_header = read_head >>= header_of_head 4

unfoldable pub read_map_header : M ℕ
read_map_header = read_head >>= header_of_head 5

abbrev pub uint64_max : ℕ
uint64_max = 2 ^ 64 - 1

-- The switch of `Skip` behind a head, with `pending` items still owed.
abbrev pub skip_body : ℕ → ℕ × ℕ → M ℕ
skip_body pending (major, arg) r =
    if major == 0 || major == 1
    then (some pending, r)
    else if major == 2 || major == 3
    then if ltb (remaining r) arg then (none, fail r) else (some pending, advance arg r)
    else if major == 4
    then if ltb (remaining r) arg || ltb (uint64_max - pending) arg
      then (none, fail r)
      else (some (pending + arg), r)
    else if major == 5
    then if ltb (remaining r) arg || ltb ((uint64_max - pending) / 2) arg
      then (none, fail r)
      else (some (pending + arg * 2), r)
    else (none, fail r)

-- One round of `Skip` with `pending + 1` items owed: the new number of items owed.
unfoldable pub skip_item : ℕ → M ℕ
skip_item pending r =
    let ib = get_or r.bytes r.pos 0 in
    if stopped r
    then (none, fail r)
    else if ib / 32 == 7
    then if ib == 0xf4 || ib == 0xf5 || ib == 0xf6
      then (some pending, advance 1 r)
      else (none, fail r)
    else (read_head >>= skip_body pending) r

-- The loop goes on while a round succeeds.
abbrev pub skip_next :
    (ℕ → CborReader → Option (Option (Unit {0}) × CborReader))
    → Option ℕ × CborReader
    → Option (Option (Unit {0}) × CborReader)
skip_next loop (none, r) = some (none, r)
skip_next loop (some owed, r) = loop owed r

-- The loop of `Skip`; `none` means that the fuel ran out.
unfoldable pub skip_loop : ℕ → ℕ → CborReader → Option (Option (Unit {0}) × CborReader)
skip_loop fuel zero r = some (some tt, r)
skip_loop zero (suc pending) r = none
skip_loop (suc fuel) (suc pending) r = skip_next (skip_loop fuel) (skip_item pending r)

-- The answer of `Skip`; the first case is where the fuel ran out.
abbrev pub skip_answer :
    CborReader → Option (Option (Unit {0}) × CborReader) → Option (Unit {0}) × CborReader
skip_answer r none = (none, fail r)
skip_answer r (some answer) = answer

-- `Skip`. Each round consumes a byte, so a round more than there are bytes is enough.
unfoldable pub skip : M (Unit {0})
skip r = skip_answer r (skip_loop (suc (remaining r)) 1 r)
