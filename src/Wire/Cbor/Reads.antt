-- ===== src/Wire/Cbor/Reads.antt =====
-- What a read does on the bytes that a writer wrote, and the rules that put such facts together.
use campiello.Common.{
  ℕ, ◌+◌, ◌≤◌, ◌≡◌, sym, ap, ◌∙◌, Bool, true, false, some, List, [], ◌∷◌, ◌++◌, append_assoc,
  length, length-append, length-drop, drop, drop-drop, drop-append, get_or, get_or-drop, arith,
}
use campiello.Wire.Cbor.Monad.{
  CborReader, advance, remaining, stopped, unread, M, pure, when, continue, ◌>>=◌,
}

-- `m` reads `a` off the bytes `bs` and consumes exactly these, on a reader with no error whose
-- buffer goes on for at least `k` bytes behind them.
pub record Reads {A : Type 0} (m : M A) (k : ℕ) (bs : List ℕ) (a : A) : Type 0 where
  pub at :
      (r : CborReader) (rest : List ℕ)
      → r.error ≡ false
      → unread r ≡ bs ++ rest
      → k ≤ length rest
      → m r ≡ (some a, advance (length bs) r)

pub remaining-unread : (r : CborReader) → remaining r ≡ length (unread r)
remaining-unread r = sym (length-drop r.pos r.bytes)

pub unread-advance :
    (r : CborReader) (bs rest : List ℕ)
    → unread r ≡ bs ++ rest
    → unread (advance (length bs) r) ≡ rest
unread-advance r bs rest e =
    drop-drop (length bs) r.pos r.bytes ∙ ap (drop (length bs)) e ∙ drop-append bs rest

-- The guard of each read, and the byte under the reader.
pub stopped-cons :
    (r : CborReader) {b : ℕ} {rest : List ℕ}
    → r.error ≡ false
    → unread r ≡ b ∷ rest
    → stopped r ≡ false
stopped-cons r e u = ground (arith, remaining-unread r, ap length u)

pub byte_under :
    (r : CborReader) {b : ℕ} {rest : List ℕ} → unread r ≡ b ∷ rest → get_or r.bytes r.pos 0 ≡ b
byte_under r u = get_or-drop r.pos r.bytes 0 u

pub advance-advance : (n m : ℕ) (r : CborReader) → advance m (advance n r) ≡ advance (n + m) r
advance-advance n m r = ground arith

pub advance-append :
    (xs ys : List ℕ) (r : CborReader)
    → advance (length ys) (advance (length xs) r) ≡ advance (length (xs ++ ys)) r
advance-append xs ys r = ground (arith, length-append xs ys)

module _ {A : Type 0} where
  pub Reads-pure : (a : A) → Reads (pure a) 0 [] a
  Reads-pure a = record { at = λ r rest e u h. ground arith }

  pub Reads-when :
      {b : Bool} {m : M A} {k : ℕ} {bs : List ℕ} {a : A}
      → b ≡ true
      → Reads m k bs a
      → Reads (when b m) k bs a
  Reads-when e p = record { at = λ r rest ok u h. rw e (p.at r rest ok u h) }

module _ {A B : Type 0} {m : M A} (f : A → M B) where
  pub Reads-bind :
      {k j : ℕ} {xs ys : List ℕ} {a : A} {b : B}
      → Reads m k xs a
      → Reads (f a) j ys b
      → k ≤ length ys + j
      → Reads (m >>= f) j (xs ++ ys) b
  Reads-bind {k} {j} {xs} {ys} {a} {b} p q fits = record {
    at = λ r rest e u h.
        let u' : unread r ≡ xs ++ (ys ++ rest) = u ∙ append_assoc xs ys rest in
        let first = p.at r (ys ++ rest) e u' (omega (arith, length-append ys rest)) in
        let second = q.at (advance (length xs) r) rest e (unread-advance r xs (ys ++ rest) u') h in
        ap (continue f) first ∙ second ∙ ground (arith, length-append xs ys);
  }

  -- The same, where what follows consumes nothing.
  pub Reads-last :
      {k j : ℕ} {xs : List ℕ} {a : A} {b : B}
      → Reads m k xs a
      → Reads (f a) j [] b
      → k ≤ j
      → Reads (m >>= f) j xs b
  Reads-last {k} {j} {xs} {a} {b} p q fits = record {
    at = λ r rest e u h.
        let first = p.at r rest e u (omega arith) in
        let second = q.at (advance (length xs) r) rest e (unread-advance r xs rest u) h in
        ap (continue f) first ∙ second ∙ ground arith;
  }
