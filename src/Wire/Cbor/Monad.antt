-- ===== src/Wire/Cbor/Monad.antt =====
-- The reader's state, its primitive moves, and the sequencing of reads.
use campiello.Common.{
  ℕ, zero, suc, ◌+◌, ◌-◌, Bool, true, false, Option, none, some, List, drop, length, leb, ◌||◌,
  if◌then◌else◌,
}

pub record CborReader : Type 0 where
  pub bytes : List ℕ
  pub pos : ℕ
  pub error : Bool

-- `explicit CborReader(const std::vector<uint8_t>& b)`
abbrev pub reader : List ℕ → CborReader
reader b = record { bytes = b; pos = 0; error = false }

-- `Fail`
abbrev pub fail : CborReader → CborReader
fail r = record r { error = true }

-- `fPos += n`
abbrev pub advance : ℕ → CborReader → CborReader
advance n r = record r { pos = r.pos + n }

-- `fLen - fPos`. No read moves `fPos` behind `fLen`, so the subtraction on size_t does not wrap.
abbrev pub remaining : CborReader → ℕ
remaining r = length r.bytes - r.pos

-- `fError || fPos >= fLen`
abbrev pub stopped : CborReader → Bool
stopped r = r.error || leb (length r.bytes) r.pos

-- What the reader has not consumed.
abbrev pub unread : CborReader → List ℕ
unread r = drop r.pos r.bytes

-- `AtEnd`
abbrev pub at_end : CborReader → Bool
at_end r = if r.error then false else leb (length r.bytes) r.pos

-- A read: its result, `none` where the source returns `false`, and the reader afterwards.
abbrev pub M : Type 0 → Type 0
M A = CborReader → Option A × CborReader

abbrev pub pure : {A : Type 0} → A → M A
pure a r = (some a, r)

-- `return false` with the reader as it is.
abbrev pub reject : {A : Type 0} → M A
reject r = (none, r)

-- `Fail(); return false`
abbrev pub failed : {A : Type 0} → M A
failed r = (none, fail r)

abbrev pub continue : {A B : Type 0} → (A → M B) → Option A × CborReader → Option B × CborReader
continue f (none, r) = (none, r)
continue f (some a, r) = f a r

-- A read, and what comes behind it if it succeeds.
infixl 5 ◌>>=◌
abbrev pub ◌>>=◌ : {A B : Type 0} → M A → (A → M B) → M B
◌>>=◌ m f r = continue f (m r)

-- `if (!ok) return false;`
abbrev pub when : {A : Type 0} → Bool → M A → M A
when b m r = if b then m r else (none, r)

-- `for (i = 0; i < n; ++i)` over a state, left at the first failure.
unfoldable pub repeat : {S : Type 0} → ℕ → (S → M S) → S → M S
repeat zero step s = pure s
repeat (suc n) step s = step s >>= repeat n step
