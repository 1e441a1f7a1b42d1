-- ===== src/Wire/Cbor/Safe.antt =====
-- Reads on arbitrary, hostile bytes: no read moves the reader backwards or past its buffer, whether
-- it succeeds or fails, and `Skip` ends.
use campiello.Common.{
  ℕ, zero, suc, ◌≤◌, ◌≡◌, ap, Bool, true, false, Option, none, some, length, get_or, arith,
}
use campiello.Wire.Cbor.Monad.{CborReader, advance, M, pure, when, continue, repeat, ◌>>=◌}
use campiello.Wire.Cbor.Reader.{
  read_argument, read_head, uint_of_head, int_of_head, string_of_head, header_of_head, read_uint,
  read_int, read_bytes, read_text, read_bool, read_null, read_array_header, read_map_header,
}

-- From `r` to `r'` the buffer is the same, and the position has moved forward within it.
pub record Moves (r r' : CborReader) : Type 0 where
  pub same : r'.bytes ≡ r.bytes
  pub forward : r.pos ≤ r'.pos
  pub inside : r'.pos ≤ length r.bytes

pub record Safe {A : Type 0} (m : M A) : Type 0 where
  pub at : (r : CborReader) → r.pos ≤ length r.bytes → Moves r (m r).1

pub Moves-trans : {r s t : CborReader} → Moves r s → Moves s t → Moves r t
Moves-trans p q = ground (arith, ap length p.same)

module _ {A : Type 0} where
  pub Safe-pure : (a : A) → Safe (pure a)
  Safe-pure a = record { at = λ r h. ground arith }

  pub Safe-when : (b : Bool) (m : M A) → Safe m → Safe (when b m)
  Safe-when true m s = record { at = λ r h. s.at r h }
  Safe-when false m s = record { at = λ r h. ground arith }

module _ {A B : Type 0} (f : A → M B) (safe : (a : A) → Safe (f a)) where
  continue-Moves :
      (r : CborReader) (x : Option A × CborReader) → Moves r x.1 → Moves r (continue f x).1
  continue-Moves r (none, r') p = p
  continue-Moves r (some a, r') p =
      Moves-trans p ((safe a).at r' (ground (arith, ap length p.same)))

  pub Safe-bind : (m : M A) → Safe m → Safe (m >>= f)
  Safe-bind m s = record { at = λ r h. continue-Moves r (m r) (s.at r h) }

pub Safe-repeat :
    {S : Type 0} (n : ℕ) (step : S → M S)
    → ((s : S) → Safe (step s))
    → (s : S) → Safe (repeat n step s)
unfolding repeat
Safe-repeat zero step safe s = Safe-pure s
Safe-repeat (suc n) step safe s =
    Safe-bind (repeat n step) (Safe-repeat n step safe) (step s) (safe s)

pub read_argument-Moves :
    (ib : ℕ) (r : CborReader) → r.pos ≤ length r.bytes → Moves r (read_argument ib r).1
unfolding read_argument
read_argument-Moves ib r h = ground arith

pub read_head-Safe : Safe read_head
unfolding read_head
read_head-Safe = record {
  at = λ r h. ground (arith, read_argument-Moves (get_or r.bytes r.pos 0) (advance 1 r));
}

pub read_uint-Safe : Safe read_uint
unfolding read_uint
read_uint-Safe =
    Safe-bind uint_of_head (λ (a, b). record { at = λ r h. ground arith }) read_head read_head-Safe

pub read_int-Safe : Safe read_int
unfolding read_int
read_int-Safe =
    Safe-bind int_of_head (λ (a, b). record { at = λ r h. ground arith }) read_head read_head-Safe

string-Safe : (wanted : ℕ) → Safe (read_head >>= string_of_head wanted)
string-Safe wanted =
    Safe-bind (string_of_head wanted) (λ (a, b). record { at = λ r h. ground arith }) read_head
      read_head-Safe

header-Safe : (wanted : ℕ) → Safe (read_head >>= header_of_head wanted)
header-Safe wanted =
    Safe-bind (header_of_head wanted) (λ (a, b). record { at = λ r h. ground arith }) read_head
      read_head-Safe

pub read_bytes-Safe : Safe read_bytes
unfolding read_bytes
read_bytes-Safe = string-Safe 2

pub read_text-Safe : Safe read_text
unfolding read_text
read_text-Safe = string-Safe 3

pub read_array_header-Safe : Safe read_array_header
unfolding read_array_header
read_array_header-Safe = header-Safe 4

pub read_map_header-Safe : Safe read_map_header
unfolding read_map_header
read_map_header-Safe = header-Safe 5

pub read_bool-Safe : Safe read_bool
unfolding read_bool
read_bool-Safe = record { at = λ r h. ground arith }

pub read_null-Safe : Safe read_null
unfolding read_null
read_null-Safe = record { at = λ r h. ground arith }
