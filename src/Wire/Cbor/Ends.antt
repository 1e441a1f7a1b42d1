-- ===== src/Wire/Cbor/Ends.antt =====
-- `Skip` on arbitrary bytes: it ends, within the buffer, however deep the nesting is; and a reader
-- with a latched error stays as it is.
use campiello.Common.{
  ℕ, zero, suc, ◌+◌, ◌≤◌, ◌<◌, ◌≡◌, ◌≢◌, refl, ap, true, false, Option, none, some, length, arith,
}
use campiello.Wire.Cbor.Monad.{CborReader, remaining, at_end, M, continue, ◌>>=◌}
use campiello.Wire.Cbor.Reader.{
  read_argument, read_head, skip_body, skip_item, skip_next, skip_loop, skip, peek, invalid,
  read_uint, read_int, read_bytes, read_text, read_bool, read_null, read_array_header,
  read_map_header, uint_of_head, int_of_head, string_of_head, header_of_head,
}
use campiello.Wire.Cbor.Safe.{Moves, Moves-trans, Safe, read_head-Safe}

-- The result of a round: it moves within the buffer, and a success consumes a byte.
record Round (r : CborReader) (x : Option ℕ × CborReader) : Type 0 where
  moves : Moves r x.1
  shorter : x.0 ≢ none → r.pos < x.1.pos

skip_body-Moves : (k : ℕ) (h : ℕ × ℕ) → Safe (skip_body k h)
skip_body-Moves k (major, arg) = record { at = λ r h. ground arith }

continue_head-Round :
    (k : ℕ) (r : CborReader) (x : Option (ℕ × ℕ) × CborReader)
    → Moves r x.1
    → (x.0 ≢ none → r.pos < x.1.pos)
    → Round r (continue (skip_body k) x)
continue_head-Round k r (none, r') p q = record { moves = p; shorter = λ e. absurd (e refl) }
continue_head-Round k r (some h, r') p q =
    let inside : r'.pos ≤ length r'.bytes = omega (arith, ap length p.same, p.inside) in
    let m = (skip_body-Moves k h).at r' inside in
    let before = q (λ e. cc) in record { moves = Moves-trans p m; shorter = λ _. omega arith }

read_head-shorter : (r : CborReader) → (read_head r).0 ≢ none → r.pos < (read_head r).1.pos
unfolding read_head read_argument
read_head-shorter r h = ground arith

skip_item-Round : (k : ℕ) (r : CborReader) → r.pos ≤ length r.bytes → Round r (skip_item k r)
unfolding skip_item
skip_item-Round k r h =
    let head =
      continue_head-Round k r (read_head r) (read_head-Safe.at r h) (read_head-shorter r) in
    ground (arith, head)

-- The loop's answer: there is one, and it moves within the buffer.
Answers : CborReader → Option (Option (Unit {0}) × CborReader) → Type 0
Answers r x = (a : Option (Unit {0}) × CborReader) × (x ≡ some a) × Moves r a.1

skip_next-Answers :
    (loop : ℕ → CborReader → Option (Option (Unit {0}) × CborReader)) (r : CborReader)
    (x : Option ℕ × CborReader)
    → Round r x
    → ((owed : ℕ) (r' : CborReader) → Moves r r' → r.pos < r'.pos → Answers r' (loop owed r'))
    → Answers r (skip_next loop x)
unfolding Answers
skip_next-Answers loop r (none, r') p next = ((none, r'), refl, p.moves)
skip_next-Answers loop r (some owed, r') p next =
    let (a, e, m) = next owed r' p.moves (p.shorter (λ e. cc)) in (a, e, Moves-trans p.moves m)

skip_loop-Answers :
    (fuel pending : ℕ) (r : CborReader)
    → r.pos ≤ length r.bytes
    → length r.bytes < r.pos + fuel
    → Answers r (skip_loop fuel pending r)
unfolding skip_loop
skip_loop-Answers fuel zero r h enough = unfold Answers in ((some tt, r), refl, ground arith)
skip_loop-Answers zero (suc pending) r h enough = absurd (omega arith)
skip_loop-Answers (suc fuel) (suc pending) r h enough =
    skip_next-Answers (skip_loop fuel) r (skip_item pending r) (skip_item-Round pending r h)
      λ owed r' m shorter.
        skip_loop-Answers fuel owed r' (omega (arith, ap length m.same, m.inside))
          (omega (arith, ap length m.same))

-- `Skip` ends on every input: a round more than there are unread bytes is always enough for its
-- loop, whose answer is that of `Skip`, and it leaves the reader within its buffer.
pub skip-ends :
    (r : CborReader)
    → r.pos ≤ length r.bytes
    → (skip_loop (suc (remaining r)) 1 r ≡ some (skip r)) × Moves r (skip r).1
unfolding skip Answers
skip-ends r h =
    let (a, e, m) = skip_loop-Answers (suc (remaining r)) 1 r h (omega arith) in rw e (refl, m)

pub skip-Safe : Safe skip
skip-Safe = record { at = λ r h. (skip-ends r h).1 }

-- `m` fails on a reader with a latched error, and leaves it as it is.
abbrev pub Latches : {A : Type 0} → M A → Type 0
Latches m = (r : CborReader) → r.error ≡ true → m r ≡ (none, r)

read_head-Latches : Latches read_head
unfolding read_head
read_head-Latches r e = ground arith

behind_head : {A : Type 0} (f : ℕ × ℕ → M A) → Latches (read_head >>= f)
behind_head f r e = ap (continue f) (read_head-Latches r e)

skip-Latches : Latches skip
unfolding skip skip_loop skip_item
skip-Latches r e = ground arith

-- An error is for good: once it is latched, each read fails and changes nothing, `Peek` sees no item
-- and the reader is not at its end.
pub reads-Latch :
    Latches read_uint
    × Latches read_int
    × Latches read_bytes
    × Latches read_text
    × Latches read_bool
    × Latches read_null
    × Latches read_array_header
    × Latches read_map_header
    × Latches skip
    × ((r : CborReader) → r.error ≡ true → (peek r ≡ invalid) × (at_end r ≡ false))
unfolding read_uint read_int read_bytes read_text read_bool read_null read_array_header
    read_map_header peek
reads-Latch = (
  behind_head uint_of_head,
  behind_head int_of_head,
  behind_head (string_of_head 2),
  behind_head (string_of_head 3),
  λ r e. ground arith,
  λ r e. ground arith,
  behind_head (header_of_head 4),
  behind_head (header_of_head 5),
  skip-Latches,
  λ r e. ground arith,
)
