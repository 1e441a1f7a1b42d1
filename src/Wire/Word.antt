-- ===== src/Wire/Word.antt =====
-- Big-endian words, as Cbor.cpp and FrameCodec.cpp write and read them.
use Prim.Native.Nat.{bit_or}
use campiello.Common.{
  ℕ, zero, suc, ◌+◌, ◌*◌, ◌/◌, ◌%◌, ◌^◌, ◌<◌, ◌≡◌, refl, sym, ap, ◌∙◌, arith, List, [], ◌∷◌, ◌++◌,
  length, All,
}
use campiello.Common.Bits.{bit_or-shift}
use native.Mathlib.Nat.{pow-suc, div-div-eq-div-mul, mul_comm}

abbrev pub IsByte : ℕ → Type 0
IsByte b = b < 256

-- `for (shift = 8 * (n - 1); shift >= 0; shift -= 8) push_back((arg >> shift) & 0xFF)`; the
-- source writes the loops of one, two and four rounds out.
unfoldable pub be_bytes : ℕ → ℕ → List ℕ
be_bytes zero arg = []
be_bytes (suc n) arg = (arg / 256 ^ n % 256) ∷ be_bytes n arg

-- `v = (v << 8) | b` on a uint64_t.
abbrev pub shift_in : ℕ → ℕ → ℕ
shift_in v b = bit_or (v * 2 ^ 8 % 2 ^ 64) b

unfoldable pub from_be : ℕ → List ℕ → ℕ
from_be v [] = v
from_be v (b ∷ bs) = from_be (shift_in v b) bs

pub length-be_bytes : (n v : ℕ) → length (be_bytes n v) ≡ n
unfolding be_bytes
length-be_bytes zero v = refl
length-be_bytes (suc n) v = ap suc (length-be_bytes n v)

pub be_bytes-IsByte : (n v : ℕ) → All IsByte (be_bytes n v)
unfolding be_bytes
be_bytes-IsByte zero v = tt
be_bytes-IsByte (suc n) v = (omega arith, be_bytes-IsByte n v)

top_byte : (n v : ℕ) → v / 256 ^ suc n ≡ v / 256 / 256 ^ n
top_byte n v =
    ap (λ (t : ℕ). v / t) (pow-suc 256 n ∙ mul_comm (256 ^ n) 256)
    ∙ sym (div-div-eq-div-mul v 256 (256 ^ n))

-- The last byte written is the lowest.
be_bytes-snoc : (n v : ℕ) → be_bytes (suc n) v ≡ be_bytes n (v / 256) ++ (v % 256 ∷ [])
unfolding be_bytes
be_bytes-snoc zero v = ground arith
be_bytes-snoc (suc n) v = ground (arith, be_bytes-snoc n v, top_byte n v)

from_be-snoc :
    (v : ℕ) (bs : List ℕ) (b : ℕ) → from_be v (bs ++ (b ∷ [])) ≡ shift_in (from_be v bs) b
unfolding from_be
from_be-snoc v [] b = refl
from_be-snoc v (x ∷ bs) b = from_be-snoc (shift_in v x) bs b

shift_in-add : (v b : ℕ) → v * 256 < 2 ^ 64 → b < 256 → shift_in v b ≡ v * 256 + b
shift_in-add v b h k =
    let fits : v * 2 ^ 8 % 2 ^ 64 ≡ v * 2 ^ 8 = omega arith in rw fits (bit_or-shift 8 v b k)

-- Reading the big-endian bytes of a number that fits them, and a uint64_t, gives it back.
pub from_be-be_bytes : (n v : ℕ) → v < 256 ^ n → v < 2 ^ 64 → from_be 0 (be_bytes n v) ≡ v
from_be-be_bytes zero v h k = unfold be_bytes from_be in omega arith
from_be-be_bytes (suc n) v h k =
    let ih = from_be-be_bytes n (v / 256) (omega (arith, pow-suc 256 n)) (omega arith) in
    rw (be_bytes-snoc n v, from_be-snoc 0 (be_bytes n (v / 256)) (v % 256), ih)
      (omega (arith, shift_in-add (v / 256) (v % 256) (omega arith) (omega arith)))
