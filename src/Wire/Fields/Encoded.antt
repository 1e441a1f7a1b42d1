-- ===== src/Wire/Fields/Encoded.antt =====
-- Decoding what was encoded, field by field.
use campiello.Common.{
  ℕ, suc, ◌≤◌, ◌≡◌, refl, sym, ap, ◌∙◌, Bool, true, Option, some, List, [], ◌++◌, append-nil,
  append_assoc, length, length-append, arith,
}
use campiello.Wire.Cbor.Monad.{M, pure, when, repeat, reader}
use campiello.Wire.Cbor.Writer.{write_type_and_arg, write_text, map_header}
use campiello.Wire.Cbor.Reads.{Reads, Reads-bind, Reads-last, Reads-pure, Reads-when}
use campiello.Wire.Cbor.Head.{IsU64, text-Reads, map_header-Reads}
use campiello.Wire.Cbor.Item.{head-pos}
use campiello.Wire.Fields.{store, entry, read_fields, accept, read_map, whole, decode}

-- The rounds of the loop on `body` take the fields from `s` to `t`, and there are as many bytes.
pub record Entries {S : Type 0} (value : S → List ℕ → M S) (n : ℕ) (s : S) (body : List ℕ) (t : S)
    : Type 0 where
  pub reads : Reads (read_fields value s n) 0 body t
  pub room : n ≤ length body

pub text-pos : (key : List ℕ) → 1 ≤ length (write_text key)
unfolding write_text
text-pos key =
    omega (arith, head-pos 3 (length key), length-append (write_type_and_arg 3 (length key)) key)

module _ {S : Type 0} (value : S → List ℕ → M S) where
  pub Entries-last :
      (key : List ℕ) {s t : S} {bs : List ℕ}
      → IsU64 (length key)
      → Reads (value s key) 0 bs t
      → Entries value 1 s (write_text key ++ bs) t
  unfolding repeat
  Entries-last key {s} {t} {bs} h p = record {
    reads =
        Reads-last (repeat 0 (entry value))
          (Reads-bind (value s) (text-Reads key h) p (omega arith)) (Reads-pure t) (omega arith);
    room = omega (arith, text-pos key, length-append (write_text key) bs);
  }

  pub Entries-cons :
      (key : List ℕ) {n : ℕ} {s t u : S} {bs more : List ℕ}
      → IsU64 (length key)
      → Reads (value s key) 0 bs t
      → Entries value n t more u
      → Entries value (suc n) s (write_text key ++ (bs ++ more)) u
  unfolding repeat
  Entries-cons key {n} {s} {t} {u} {bs} {more} h p q = record {
    reads = rw (← append_assoc (write_text key) bs more) (
        Reads-bind (repeat n (entry value))
          (Reads-bind (value s) (text-Reads key h) p (omega arith)) q.reads (omega arith));
    room = omega (
      arith,
      q.room,
      text-pos key,
      length-append (write_text key) (bs ++ more),
      length-append bs more,
    );
  }

  pub Reads-map :
      {B : Type 0} (finish : S → Option B) {n : ℕ} {s t : S} {body : List ℕ} {b : B}
      → IsU64 n
      → Entries value n s body t
      → finish t ≡ some b
      → Reads (read_map value s finish) 0 (map_header n ++ body) b
  unfolding read_map
  Reads-map finish {n} {s} {t} {body} {b} h p e =
      Reads-last (λ u. accept (finish u))
        (Reads-bind (read_fields value s) (map_header-Reads n h) p.reads (omega (arith, p.room)))
        (rw e (Reads-pure b)) (omega arith)

-- A field that was not there is stored if its value passes the test.
pub Reads-once :
    {A S : Type 0} (f : A → S) (test : A → Bool) {m : M A} {bs : List ℕ} {a : A}
    → test a ≡ true
    → Reads m 0 bs a
    → Reads (when true (store m test f)) 0 bs (f a)
Reads-once f test {a = a} t p =
    Reads-when refl (
      Reads-last (λ v. when (test v) (pure (f v))) p (Reads-when t (Reads-pure (f a)))
        (omega arith))

-- A payload that consists of what `m` reads decodes to it.
pub decode-Reads :
    {B : Type 0} (m : M B) {bs : List ℕ} {b : B} → Reads m 0 bs b → decode m bs ≡ some b
unfolding decode
decode-Reads m {bs} {b} p =
    ap whole (p.at (reader bs) [] refl (sym (append-nil bs)) (omega arith)) ∙ ground arith
