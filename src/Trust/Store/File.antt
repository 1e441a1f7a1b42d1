-- ===== src/Trust/Store/File.antt =====
-- A saved store is loaded as it was.
use campiello.Common.{
  subst, Bool-cases, inl, inr, none, ℕ, ◌≡◌, refl, sym, ap, ap₂, ◌∙◌, false, Option, some, List, [],
  ◌∷◌, ◌++◌, map, ◌==◌, length, length-append, take, drop, take-append, drop-append, All, arith,
  ltb, ◌≤◌, ◌<◌, ◌/◌, ◌%◌,
}
use campiello.Wire.Word.{IsByte}
use campiello.Trust.Fingerprint.{
  IsFingerprint, hex_digit, to_hex, from_hex, length-to_hex, from_hex-to_hex,
  from_hex-IsFingerprint,
}
use campiello.Trust.Store.{
  PinnedPeer, one_line, save_line, save_text, get_lines, strip_return, name_behind, peer_of,
  load_line, push_peer, load_lines, load_text,
}

-- Neither of the characters that end a line.
pub record Plain (c : ℕ) : Type 0 where
  pub feed : (c == 10) ≡ false
  pub return : (c == 13) ≡ false

All-append : (P : ℕ → Type 0) (xs ys : List ℕ) → All P xs → All P ys → All P (xs ++ ys)
All-append P [] ys h k = k
All-append P (x ∷ xs) ys h k = (h.0, All-append P xs ys h.1 k)

hex_digit-Plain : (n : ℕ) → n < 16 → Plain (hex_digit n)
unfolding hex_digit
hex_digit-Plain n h = record { feed = ground arith; return = ground arith }

to_hex-Plain : (fp : List ℕ) → All IsByte fp → All Plain (to_hex fp)
unfolding to_hex
to_hex-Plain [] h = tt
to_hex-Plain (b ∷ fp) h = (
  hex_digit-Plain (b / 16) (omega (arith, h.0)),
  (hex_digit-Plain (b % 16) (omega arith), to_hex-Plain fp h.1),
)

name-Plain : (name : List ℕ) → All Plain (map one_line name)
name-Plain [] = tt
name-Plain (c ∷ name) = (record { feed = ground arith; return = ground arith }, name-Plain name)

save_line-Plain : (p : PinnedPeer) → IsFingerprint p.fingerprint → All Plain (save_line p)
unfolding save_line
save_line-Plain p h =
    All-append Plain (to_hex p.fingerprint) (32 ∷ map one_line p.name)
      (to_hex-Plain p.fingerprint h.bytes)
      (record { feed = refl; return = refl }, name-Plain p.name)

get_lines-line :
    (line text : List ℕ) → All Plain line → get_lines (line ++ (10 ∷ text)) ≡ line ∷ get_lines text
unfolding get_lines
get_lines-line [] text h = refl
get_lines-line (c ∷ line) text h = simp (h.0.feed, get_lines-line line text h.1) refl

strip_return-Plain : (line : List ℕ) → All Plain line → strip_return line ≡ line
unfolding strip_return
strip_return-Plain [] h = refl
strip_return-Plain (c ∷ []) h = simp h.0.return refl
strip_return-Plain (c ∷ d ∷ line) h = ap (◌∷◌ c) (strip_return-Plain (d ∷ line) h.1)

-- A peer as it comes back from the file.
abbrev pub saved : PinnedPeer → PinnedPeer
saved p = record p { name = map one_line p.name }

not_short : (line : List ℕ) → 64 ≤ length line → ltb (length line) 64 ≡ false
not_short line h = ground arith

load_line-save_line :
    (p : PinnedPeer) → IsFingerprint p.fingerprint → load_line (save_line p) ≡ some (saved p)
unfolding load_line save_line
load_line-save_line p h =
    let size : length (to_hex p.fingerprint) ≡ 64 =
      omega (arith, length-to_hex p.fingerprint, h.size) in
    let name = 32 ∷ map one_line p.name in
    let front : take 64 (to_hex p.fingerprint ++ name) ≡ to_hex p.fingerprint =
      ap (λ (n : ℕ). take n (to_hex p.fingerprint ++ name)) (sym size)
      ∙ take-append (to_hex p.fingerprint) name in
    let back : drop 64 (to_hex p.fingerprint ++ name) ≡ name =
      ap (λ (n : ℕ). drop n (to_hex p.fingerprint ++ name)) (sym size)
      ∙ drop-append (to_hex p.fingerprint) name in
    let parsed = ap₂ (λ (l m : List ℕ). peer_of (from_hex l) (name_behind m)) front back in
    let long =
      not_short (to_hex p.fingerprint ++ name)
        (omega (arith, size, length-append (to_hex p.fingerprint) name)) in
    simp long (
      parsed
      ∙ ap (λ (o : Option (List ℕ)). peer_of o (name_behind name))
          (from_hex-to_hex p.fingerprint h))

-- What SaveToFile writes of peers with fingerprints of 32 bytes, LoadFromFile reads back: the same
-- peers in the same order, each with its name, in which the characters that would end a line have
-- become spaces.
pub load_text-save_text :
    (peers : List PinnedPeer)
    → All (λ p. IsFingerprint p.fingerprint) peers
    → load_text (save_text peers) ≡ map saved peers
unfolding load_text save_text load_lines get_lines
load_text-save_text [] h = refl
load_text-save_text (p ∷ peers) h =
    let plain = save_line-Plain p h.0 in
    ap load_lines (get_lines-line (save_line p) (save_text peers) plain)
    ∙ ap₂ push_peer
        (ap load_line (strip_return-Plain (save_line p) plain) ∙ load_line-save_line p h.0)
        (load_text-save_text peers h.1)

load_line-IsFingerprint :
    (line : List ℕ) (p : PinnedPeer) → load_line line ≡ some p → IsFingerprint p.fingerprint
unfolding load_line
load_line-IsFingerprint line p e = elim (Bool-cases (ltb (length line) 64)) [
  | inl short ↦ absurd (cc (simp short at e))
  | inr long ↦ of_hex (from_hex (take 64 line)) refl (simp long at e)
]
  where
    of_hex :
        (o : Option (List ℕ))
        → from_hex (take 64 line) ≡ o
        → peer_of o (name_behind (drop 64 line)) ≡ some p
        → IsFingerprint p.fingerprint
    of_hex none h f = cc
    of_hex (some fp) h f =
        let same : fp ≡ p.fingerprint = ground arith in
        subst IsFingerprint same (from_hex-IsFingerprint (take 64 line) fp h)

push_peer-IsFingerprint :
    (o : Option PinnedPeer) (line : List ℕ) (peers : List PinnedPeer)
    → load_line line ≡ o
    → All (λ p. IsFingerprint p.fingerprint) peers
    → All (λ p. IsFingerprint p.fingerprint) (push_peer o peers)
push_peer-IsFingerprint none line peers h k = k
push_peer-IsFingerprint (some p) line peers h k = (load_line-IsFingerprint line p h, k)

load_lines-IsFingerprint :
    (lines : List (List ℕ)) → All (λ p. IsFingerprint p.fingerprint) (load_lines lines)
unfolding load_lines
load_lines-IsFingerprint [] = tt
load_lines-IsFingerprint (line ∷ lines) =
    push_peer-IsFingerprint (load_line (strip_return line)) (strip_return line) (load_lines lines)
      refl (load_lines-IsFingerprint lines)

-- Whatever the text of a file, every peer that LoadFromFile makes of it has a fingerprint of 32 bytes,
-- and what SaveToFile writes of these peers is loaded to them again, up to the characters of a name that
-- would end a line.
pub load_text-again :
    (text : List ℕ)
    → All (λ p. IsFingerprint p.fingerprint) (load_text text)
      × (load_text (save_text (load_text text)) ≡ map saved (load_text text))
unfolding load_text
load_text-again text =
    let valid = load_lines-IsFingerprint (get_lines text) in
    (valid, load_text-save_text (load_lines (get_lines text)) valid)
