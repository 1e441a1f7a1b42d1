-- ===== src/Wire/Cbor/Head.antt =====
-- Each read of `CborReader` on what the matching write of `CborWriter` appended.
use Prim.Native.Nat.{bit_or}
use campiello.Common.{
  ℕ, ◌+◌, ◌*◌, ◌/◌, ◌%◌, ◌^◌, ◌≤◌, ◌<◌, ◌≡◌, refl, sym, ap, ◌∙◌, Bool, true, false, Bool-cases, inl,
  inr, some, List, [], ◌∷◌, ◌++◌, length, length-append, take, take-append, ltb, leb, arith,
}
use campiello.Common.Int.{ℤ, pos, negsuc}
use campiello.Common.Bits.{bit_or-shift}
use campiello.Wire.Word.{be_bytes, from_be, length-be_bytes, from_be-be_bytes}
use campiello.Wire.Cbor.Monad.{CborReader, advance, remaining, unread, ◌>>=◌}
use campiello.Wire.Cbor.Writer.{
  write_type_and_arg, write_uint, write_int, write_bytes, write_text, write_bool, write_null,
  array_header, map_header,
}
use campiello.Wire.Cbor.Reader.{
  arg_size, read_argument, read_head, uint_of_head, int_of_head, string_of_head, header_of_head,
  read_uint, read_int, read_bytes, read_text, read_bool, read_null, read_array_header,
  read_map_header,
}
use campiello.Wire.Cbor.Reads.{
  Reads, Reads-bind, Reads-last, remaining-unread, unread-advance, stopped-cons, byte_under,
}

abbrev pub IsU64 : ℕ → Type 0
IsU64 v = v < 2 ^ 64

pub initial_byte :
    (major low : ℕ) → major < 8 → low < 32 → bit_or (major * 2 ^ 5 % 256) low ≡ major * 32 + low
initial_byte major low h k =
    let fits : major * 2 ^ 5 % 256 ≡ major * 2 ^ 5 = omega arith in
    rw fits (bit_or-shift 5 major low k)

read_argument_short :
    (major arg : ℕ) (r : CborReader)
    → major < 8
    → arg < 24
    → read_argument (major * 32 + arg) r ≡ (some (major, arg), r)
unfolding read_argument
read_argument_short major arg r h k = ground arith

read_argument_long :
    (n ai major arg : ℕ) (r : CborReader) (rest : List ℕ)
    → arg_size ai ≡ some n
    → 24 ≤ ai
    → ai < 32
    → arg < 256 ^ n
    → IsU64 arg
    → unread r ≡ be_bytes n arg ++ rest
    → read_argument (major * 32 + ai) r ≡ (some (major, arg), advance n r)
unfolding read_argument
read_argument_long n ai major arg r rest e lo hi fits word u =
    ground (arith, low, high, size, room, value)
  where
    low : (major * 32 + ai) % 32 ≡ ai
    low = omega arith

    high : (major * 32 + ai) / 32 ≡ major
    high = omega arith

    size : arg_size ((major * 32 + ai) % 32) ≡ some n
    size = rw low e

    room : n ≤ remaining r
    room = omega (
      arith,
      remaining-unread r,
      ap length u,
      length-append (be_bytes n arg) rest,
      length-be_bytes n arg,
    )

    value : from_be 0 (take n (unread r)) ≡ arg
    value = rw u (
        ap (λ (k : ℕ). from_be 0 (take k (be_bytes n arg ++ rest))) (sym (length-be_bytes n arg))
        ∙ ap (from_be 0) (take-append (be_bytes n arg) rest)
        ∙ from_be-be_bytes n arg fits word)

-- One initial byte and what `read_argument` does behind it.
read_head-cons :
    (r : CborReader) (b : ℕ) (rest : List ℕ)
    → r.error ≡ false
    → unread r ≡ b ∷ rest
    → read_head r ≡ read_argument b (advance 1 r)
unfolding read_head
read_head-cons r b rest e u = rw (stopped-cons r e u, byte_under r u)

module _ (major : ℕ) (h : major < 8) where
  read_head-short :
      (arg : ℕ) → arg < 24 → Reads read_head 0 (bit_or (major * 2 ^ 5 % 256) arg ∷ []) (major, arg)
  read_head-short arg k = record {
    at = λ r rest e u room.
        let u' : unread r ≡ (major * 32 + arg) ∷ rest =
          u ∙ ap (λ (b : ℕ). b ∷ rest) (initial_byte major arg h (omega arith)) in
        read_head-cons r (major * 32 + arg) rest e u'
        ∙ read_argument_short major arg (advance 1 r) h k;
  }

  read_head-long :
      (n ai arg : ℕ)
      → arg_size ai ≡ some n
      → 24 ≤ ai
      → ai < 32
      → arg < 256 ^ n
      → IsU64 arg
      → Reads read_head 0 (bit_or (major * 2 ^ 5 % 256) ai ∷ be_bytes n arg) (major, arg)
  read_head-long n ai arg e lo hi fits word = record {
    at = λ r rest ok u room.
        let u' : unread r ≡ (major * 32 + ai) ∷ (be_bytes n arg ++ rest) =
          u ∙ ap (λ (b : ℕ). b ∷ (be_bytes n arg ++ rest)) (initial_byte major ai h hi) in
        read_head-cons r (major * 32 + ai) (be_bytes n arg ++ rest) ok u'
        ∙ read_argument_long n ai major arg (advance 1 r) rest e lo hi fits word
            (unread-advance r ((major * 32 + ai) ∷ []) (be_bytes n arg ++ rest) u')
        ∙ ground (arith, length-be_bytes n arg);
  }

  -- A head that `WriteTypeAndArg` wrote is read back by `ReadHead`, for each width of the argument.
  pub read_head-write_type_and_arg :
      (arg : ℕ) → IsU64 arg → Reads read_head 0 (write_type_and_arg major arg) (major, arg)
  unfolding write_type_and_arg
  read_head-write_type_and_arg arg word = elim (Bool-cases (ltb arg 24)) [
    | inl a ↦ rw a (read_head-short arg (ground arith))
    | inr a ↦ elim (Bool-cases (leb arg 0xff)) [
      | inl b ↦
          rw (a, b) (read_head-long 1 24 arg refl (omega arith) (omega arith) (ground arith) word)
      | inr b ↦ elim (Bool-cases (leb arg 0xffff)) [
        | inl c ↦
            rw (a, b, c)
              (read_head-long 2 25 arg refl (omega arith) (omega arith) (ground arith) word)
        | inr c ↦ elim (Bool-cases (leb arg 0xffff_ffff)) [
          | inl d ↦
              rw (a, b, c, d)
                (read_head-long 4 26 arg refl (omega arith) (omega arith) (ground arith) word)
          | inr d ↦
              rw (a, b, c, d)
                (read_head-long 8 27 arg refl (omega arith) (omega arith) (ground arith) word)
        ]
      ]
    ]
  ]

  -- The string behind a head, and the header of a container.
  string-Reads :
      (s : List ℕ)
      → IsU64 (length s)
      → Reads (read_head >>= string_of_head major) 0 (write_type_and_arg major (length s) ++ s) s
  string-Reads s word =
      Reads-bind (string_of_head major) (read_head-write_type_and_arg (length s) word)
        (record {
          at = λ r rest e u room. ground (
            arith,
            remaining-unread r,
            ap length u,
            length-append s rest,
            ap (take (length s)) u,
            take-append s rest,
          );
        })
        (omega arith)

  header-Reads :
      (count : ℕ)
      → IsU64 count
      → Reads (read_head >>= header_of_head major) count (write_type_and_arg major count) count
  header-Reads count word =
      Reads-last (header_of_head major) (read_head-write_type_and_arg count word)
        (record { at = λ r rest e u room. ground (arith, remaining-unread r, ap length u) })
        (omega arith)

pub uint-Reads : (v : ℕ) → IsU64 v → Reads read_uint 0 (write_uint v) v
unfolding read_uint write_uint
uint-Reads v h =
    Reads-last uint_of_head (read_head-write_type_and_arg 0 (omega arith) v h)
      (record { at = λ r rest e u room. ground arith }) (omega arith)

-- An int64_t: `negsuc n` is -(n + 1).
abbrev pub IsI64 : ℤ → Type 0
IsI64 (pos n) = n < 2 ^ 63
IsI64 (negsuc n) = n < 2 ^ 63

pub int-Reads : (v : ℤ) → IsI64 v → Reads read_int 0 (write_int v) v
unfolding read_int write_int
int-Reads (pos n) h =
    Reads-last int_of_head (read_head-write_type_and_arg 0 (omega arith) n (omega arith))
      (record { at = λ r rest e u room. ground arith }) (omega arith)
int-Reads (negsuc n) h =
    Reads-last int_of_head (read_head-write_type_and_arg 1 (omega arith) n (omega arith))
      (record { at = λ r rest e u room. ground arith }) (omega arith)

pub bytes-Reads : (b : List ℕ) → IsU64 (length b) → Reads read_bytes 0 (write_bytes b) b
unfolding read_bytes write_bytes
bytes-Reads b h = string-Reads 2 (omega arith) b h

pub text-Reads : (s : List ℕ) → IsU64 (length s) → Reads read_text 0 (write_text s) s
unfolding read_text write_text
text-Reads s h = string-Reads 3 (omega arith) s h

pub bool-Reads : (b : Bool) → Reads read_bool 0 (write_bool b) b
unfolding read_bool write_bool
bool-Reads true = record {
  at = λ r rest e u room. ground (arith, stopped-cons r e u, byte_under r u);
}
bool-Reads false = record {
  at = λ r rest e u room. ground (arith, stopped-cons r e u, byte_under r u);
}

pub null-Reads : Reads read_null 0 write_null tt
unfolding read_null write_null
null-Reads = record { at = λ r rest e u room. ground (arith, stopped-cons r e u, byte_under r u) }

pub array_header-Reads :
    (count : ℕ) → IsU64 count → Reads read_array_header count (array_header count) count
unfolding read_array_header array_header
array_header-Reads count h = header-Reads 4 (omega arith) count h

pub map_header-Reads :
    (count : ℕ) → IsU64 count → Reads read_map_header count (map_header count) count
unfolding read_map_header map_header
map_header-Reads count h = header-Reads 5 (omega arith) count h
