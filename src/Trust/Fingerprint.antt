-- ===== src/Trust/Fingerprint.antt =====
-- src/traghetto/tls/Fingerprint.cpp: fingerprints of 32 bytes and their hexadecimal text.
use campiello.Common.{
  ℕ, suc, ◌+◌, ◌-◌, ◌*◌, ◌/◌, ◌%◌, ◌<◌, ◌≡◌, refl, ap, Bool, Option, none, some, List, [], ◌∷◌,
  if◌then◌else◌, leb, ltb, ◌==◌, ◌&&◌, length, arith, All, bytes_eq,
}
use campiello.Wire.Word.{IsByte}

-- `fp.size()`
abbrev pub fingerprint_size : ℕ
fingerprint_size = 32

pub record IsFingerprint (fp : List ℕ) : Type 0 where
  pub size : length fp ≡ fingerprint_size
  pub bytes : All IsByte fp

-- `kHex[n]`
unfoldable pub hex_digit : ℕ → ℕ
hex_digit n = if ltb n 10 then 0x30 + n else 0x61 + (n - 10)

unfoldable pub to_hex : List ℕ → List ℕ
to_hex [] = []
to_hex (b ∷ fp) = hex_digit (b / 16) ∷ hex_digit (b % 16) ∷ to_hex fp

-- The lambda `nibble`; `none` is -1.
unfoldable pub nibble : ℕ → Option ℕ
nibble c =
    if leb 0x30 c && leb c 0x39
    then some (c - 0x30)
    else if leb 0x61 c && leb c 0x66
    then some (c - 0x61 + 10)
    else if leb 0x41 c && leb c 0x46
    then some (c - 0x41 + 10)
    else none

abbrev pub hex_byte : Option ℕ → Option ℕ → Option ℕ
hex_byte none lo = none
hex_byte (some h) none = none
hex_byte (some h) (some l) = some (h * 16 + l)

abbrev pub put_byte : Option ℕ → Option (List ℕ) → Option (List ℕ)
put_byte none rest = none
put_byte (some b) none = none
put_byte (some b) (some rest) = some (b ∷ rest)

-- The loop of `FromHex` over pairs of characters.
unfoldable pub from_hex_pairs : List ℕ → Option (List ℕ)
from_hex_pairs [] = some []
from_hex_pairs (c ∷ []) = none
from_hex_pairs (c ∷ d ∷ hex) = put_byte (hex_byte (nibble c) (nibble d)) (from_hex_pairs hex)

unfoldable pub from_hex : List ℕ → Option (List ℕ)
from_hex hex = if length hex == fingerprint_size * 2 then from_hex_pairs hex else none

-- `Equals`
abbrev pub equals : List ℕ → List ℕ → Bool
equals bytes fp = bytes_eq bytes fp

pub length-to_hex : (fp : List ℕ) → length (to_hex fp) ≡ length fp * 2
unfolding to_hex
length-to_hex [] = refl
length-to_hex (b ∷ fp) = omega (arith, length-to_hex fp)

nibble-hex_digit : (n : ℕ) → n < 16 → nibble (hex_digit n) ≡ some n
unfolding nibble hex_digit
nibble-hex_digit n h = ground arith

pairs-to_hex : (fp : List ℕ) → All IsByte fp → from_hex_pairs (to_hex fp) ≡ some fp
unfolding from_hex_pairs to_hex
pairs-to_hex [] h = refl
pairs-to_hex (b ∷ fp) h =
    let hi = nibble-hex_digit (b / 16) (omega (arith, h.0)) in
    let lo = nibble-hex_digit (b % 16) (omega arith) in
    let again : b / 16 * 16 + b % 16 ≡ b = omega arith in
    rw (hi, lo, pairs-to_hex fp h.1, again) refl

-- A fingerprint is read back from its hexadecimal text.
pub from_hex-to_hex : (fp : List ℕ) → IsFingerprint fp → from_hex (to_hex fp) ≡ some fp
unfolding from_hex
from_hex-to_hex fp h = ground (arith, pairs-to_hex fp h.bytes, length-to_hex fp, h.size)

nibble-small : (c n : ℕ) → nibble c ≡ some n → n < 16
unfolding nibble
nibble-small c n h = ground arith

put_byte-Bytes :
    (b : Option ℕ) (rest : Option (List ℕ)) (fp : List ℕ) (n : ℕ)
    → ((c : ℕ) → b ≡ some c → IsByte c)
    → ((l : List ℕ) → rest ≡ some l → All IsByte l × (length l * 2 ≡ n))
    → put_byte b rest ≡ some fp
    → All IsByte fp × (length fp * 2 ≡ suc (suc n))
put_byte-Bytes none rest fp n h k e = cc
put_byte-Bytes (some b) none fp n h k e = cc
put_byte-Bytes (some b) (some rest) [] n h k e = cc
put_byte-Bytes (some b) (some rest) (c ∷ fp) n h k e =
    let same : b ≡ c = ground arith in
    let more = k fp (ground arith) in ((h c (ap some same), more.0), omega (arith, more.1))

hex_byte-IsByte : (c d n : ℕ) → hex_byte (nibble c) (nibble d) ≡ some n → IsByte n
hex_byte-IsByte c d n e = of_nibbles (nibble c) (nibble d) refl refl e
  where
    of_nibbles : (h l : Option ℕ) → nibble c ≡ h → nibble d ≡ l → hex_byte h l ≡ some n → IsByte n
    of_nibbles none l p q f = cc
    of_nibbles (some h) none p q f = cc
    of_nibbles (some h) (some l) p q f = ground (arith, nibble-small c h p, nibble-small d l q)

from_hex_pairs-Bytes :
    (hex fp : List ℕ) → from_hex_pairs hex ≡ some fp → All IsByte fp × (length fp * 2 ≡ length hex)
unfolding from_hex_pairs
from_hex_pairs-Bytes [] [] e = (tt, refl)
from_hex_pairs-Bytes [] (b ∷ fp) e = cc
from_hex_pairs-Bytes (c ∷ []) fp e = cc
from_hex_pairs-Bytes (c ∷ d ∷ hex) fp e =
    put_byte-Bytes (hex_byte (nibble c) (nibble d)) (from_hex_pairs hex) fp (length hex)
      (hex_byte-IsByte c d) (from_hex_pairs-Bytes hex) e

-- Whatever the text, what FromHex accepts is a fingerprint of 32 bytes.
pub from_hex-IsFingerprint : (hex fp : List ℕ) → from_hex hex ≡ some fp → IsFingerprint fp
unfolding from_hex
from_hex-IsFingerprint hex fp e =
    let accepted : from_hex_pairs hex ≡ some fp = ground arith in
    let size : length hex ≡ 64 = ground arith in
    let (bytes, len) = from_hex_pairs-Bytes hex fp accepted in
    record { size = omega (arith, len, size); bytes = bytes }
