-- ===== src/Wire/Cbor/Rounds.antt =====
-- One round of the loop of `Skip`, for each kind of item.
use campiello.Common.{if◌then◌else◌}
use campiello.Common.{
  ℕ, suc, ◌+◌, ◌*◌, ◌≤◌, ◌<◌, ◌≡◌, refl, ap, ◌∙◌, Bool, true, false, some, List, ◌∷◌, ◌++◌, length,
  length-append, length-drop, arith, ◌^◌, ◌⊎◌, inl, inr,
}
use campiello.Wire.Cbor.Monad.{CborReader, advance, unread, continue}
use campiello.Wire.Cbor.Writer.{write_type_and_arg}
use campiello.Wire.Cbor.Reader.{skip_body, skip_item, skip_loop, skip_next}
use campiello.Wire.Cbor.Reads.{remaining-unread, unread-advance, stopped-cons, byte_under}
use campiello.Wire.Cbor.Head.{IsU64, read_head-write_type_and_arg}
use campiello.Wire.Cbor.Item.{head-cons}

-- One round at a head: the switch over its major type, behind it.
pub skip_item-head :
    (major arg k : ℕ) (r : CborReader) (rest : List ℕ)
    → major < 7
    → IsU64 arg
    → r.error ≡ false
    → unread r ≡ write_type_and_arg major arg ++ rest
    → skip_item k r ≡ skip_body k (major, arg) (advance (length (write_type_and_arg major arg)) r)
unfolding skip_item
skip_item-head major arg k r rest h word e u =
    let (b, bs, shape, high) = head-cons major arg (omega arith) in
    let u' : unread r ≡ b ∷ (bs ++ rest) = u ∙ ap (λ (w : List ℕ). w ++ rest) shape in
    ground (
      arith,
      stopped-cons r e u',
      byte_under r u',
      high,
      ap (continue (skip_body k))
          ((read_head-write_type_and_arg major (omega arith) arg word).at r rest e u (omega arith)),
    )

-- A round at a string, and at the header of a container.
pub skip_item-string :
    (major k : ℕ) (s : List ℕ) (r : CborReader) (rest : List ℕ)
    → (major ≡ 2) ⊎ (major ≡ 3)
    → IsU64 (length s)
    → r.error ≡ false
    → unread r ≡ write_type_and_arg major (length s) ++ (s ++ rest)
    → skip_item k r ≡ (some k, advance (length (write_type_and_arg major (length s) ++ s)) r)
skip_item-string major k s r rest kind word e u =
    let after = unread-advance r (write_type_and_arg major (length s)) (s ++ rest) u in
    skip_item-head major (length s) k r (s ++ rest) (ground arith) word e u
    ∙ ground (
      arith,
      remaining-unread (advance (length (write_type_and_arg major (length s))) r),
      ap length after,
      length-append s rest,
      length-append (write_type_and_arg major (length s)) s,
    )

pub skip_item-array :
    (n k : ℕ) (r : CborReader) (rest : List ℕ)
    → n ≤ length rest
    → k + n < 2 ^ 64
    → r.error ≡ false
    → unread r ≡ write_type_and_arg 4 n ++ rest
    → skip_item k r ≡ (some (k + n), advance (length (write_type_and_arg 4 n)) r)
skip_item-array n k r rest room small e u =
    let after = unread-advance r (write_type_and_arg 4 n) rest u in
    skip_item-head 4 n k r rest (omega arith) (omega arith) e u
    ∙ ground
        (arith, remaining-unread (advance (length (write_type_and_arg 4 n)) r), ap length after)

pub skip_item-map :
    (n k : ℕ) (r : CborReader) (rest : List ℕ)
    → n ≤ length rest
    → k + n * 2 < 2 ^ 64
    → r.error ≡ false
    → unread r ≡ write_type_and_arg 5 n ++ rest
    → skip_item k r ≡ (some (k + n * 2), advance (length (write_type_and_arg 5 n)) r)
skip_item-map n k r rest room small e u =
    let after = unread-advance r (write_type_and_arg 5 n) rest u in
    skip_item-head 5 n k r rest (omega arith) (omega arith) e u
    ∙ ground
        (arith, remaining-unread (advance (length (write_type_and_arg 5 n)) r), ap length after)

pub skip_item-simple :
    (b k : ℕ) (r : CborReader) (rest : List ℕ)
    → (b ≡ 0xf4) ⊎ ((b ≡ 0xf5) ⊎ (b ≡ 0xf6))
    → r.error ≡ false
    → unread r ≡ b ∷ rest
    → skip_item k r ≡ (some k, advance 1 r)
unfolding skip_item
skip_item-simple b k r rest kind e u = ground (arith, stopped-cons r e u, byte_under r u)

pub skip_loop_round :
    (fuel g pending p owed : ℕ) (r r' : CborReader)
    → fuel ≡ suc g
    → pending ≡ suc p
    → skip_item p r ≡ (some owed, r')
    → skip_loop fuel pending r ≡ skip_loop g owed r'
unfolding skip_loop
skip_loop_round fuel g pending p owed r r' ef ep e = rw (ef, ep) (ap (skip_next (skip_loop g)) e)

pub length-unread : (r : CborReader) → length (unread r) ≤ length r.bytes
length-unread r = omega (arith, length-drop r.pos r.bytes)

pub string_fits :
    (major : ℕ) (s : List ℕ) (r : CborReader) (rest : List ℕ)
    → length r.bytes < 2 ^ 63
    → unread r ≡ (write_type_and_arg major (length s) ++ s) ++ rest
    → IsU64 (length s)
string_fits major s r rest small u = omega (
  arith,
  length-unread r,
  ap length u,
  length-append (write_type_and_arg major (length s) ++ s) rest,
  length-append (write_type_and_arg major (length s)) s,
)

pub bool_byte :
    (b : Bool) → let c : ℕ = if b then 0xf5 else 0xf4 in (c ≡ 0xf4) ⊎ ((c ≡ 0xf5) ⊎ (c ≡ 0xf6))
bool_byte true = inr (inl refl)
bool_byte false = inl refl
