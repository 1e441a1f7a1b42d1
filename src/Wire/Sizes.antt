-- ===== src/Wire/Sizes.antt =====
-- How long written payloads are.
use campiello.Common.{ℕ, ◌+◌, ◌≤◌, List, ◌++◌, length, length-append, arith}
use campiello.Wire.Word.{length-be_bytes}
use campiello.Wire.Cbor.Writer.{write_type_and_arg, write_text}

pub head-short : (major arg : ℕ) → length (write_type_and_arg major arg) ≤ 9
unfolding write_type_and_arg
head-short major arg = ground (
  arith,
  length-be_bytes 1 arg,
  length-be_bytes 2 arg,
  length-be_bytes 4 arg,
  length-be_bytes 8 arg,
)

pub text-short : (s : List ℕ) → length (write_text s) ≤ length s + 9
unfolding write_text
text-short s =
    omega (arith, head-short 3 (length s), length-append (write_type_and_arg 3 (length s)) s)

pub append-short :
    (xs ys : List ℕ) {n m : ℕ} → length xs ≤ n → length ys ≤ m → length (xs ++ ys) ≤ n + m
append-short xs ys h k = omega (arith, length-append xs ys)

pub key-short : (s : List ℕ) (n : ℕ) → length s ≤ n → length (write_text s) ≤ n + 9
key-short s n h = omega (arith, text-short s)
