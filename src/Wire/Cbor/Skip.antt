-- ===== src/Wire/Cbor/Skip.antt =====
-- `Skip` consumes one item of the writer exactly.
use campiello.Common.{
  ℕ, suc, ◌+◌, ◌-◌, ◌*◌, ◌≤◌, ◌<◌, ◌≡◌, refl, ap, ◌∙◌, false, some, List, ◌++◌, append_assoc,
  length, length-append, arith, ◌^◌, inl, inr,
}
use campiello.Wire.Cbor.Monad.{CborReader, advance, remaining, unread}
use campiello.Wire.Cbor.Writer.{
  write_type_and_arg, write_uint, write_bytes, write_text, write_bool, write_null, array_header,
  map_header,
}
use campiello.Wire.Cbor.Reader.{skip_loop, skip_answer, skip}
use campiello.Wire.Cbor.Reads.{remaining-unread, unread-advance, advance-append}
use campiello.Wire.Cbor.Item.{
  Item, Items, Pairs, uint, negative, byte_string, text, array, map, bool, null, nil, cons, end,
  pair, count, count_pairs, encode, encode_items, encode_pairs, nodes, nodes_items, nodes_pairs,
  IsItem, IsItems, IsPairs, nodes-le, count-le, count_pairs-le, encode-pos,
}
use campiello.Wire.Cbor.Rounds.{
  skip_item-head, skip_item-string, skip_item-array, skip_item-map, skip_item-simple,
  skip_loop_round, length-unread, string_fits, bool_byte,
}

-- The loop on items that the writer wrote: their rounds consume them, and the items owed go down
-- by what they are.
mutual
  unfolding encode nodes count count_pairs IsItem write_uint write_bytes write_text write_bool
      write_null array_header map_header

  skip_loop-encode :
      (i : Item) (fuel f pending k : ℕ) (r : CborReader) (rest : List ℕ)
      → IsItem i
      → fuel ≡ nodes i + f
      → pending ≡ suc k
      → k ≤ length rest
      → length r.bytes < 2 ^ 63
      → r.error ≡ false
      → unread r ≡ encode i ++ rest
      → skip_loop fuel pending r ≡ skip_loop f k (advance (length (encode i)) r)
  skip_loop-encode (uint v) fuel f pending k r rest w ef ep room small e u =
      skip_loop_round fuel f pending k k r _ (omega arith) ep
        (skip_item-head 0 v k r rest (omega arith) w e u)
  skip_loop-encode (negative n) fuel f pending k r rest w ef ep room small e u =
      skip_loop_round fuel f pending k k r _ (omega arith) ep
        (skip_item-head 1 n k r rest (omega arith) w e u)
  skip_loop-encode (byte_string b) fuel f pending k r rest w ef ep room small e u =
      skip_loop_round fuel f pending k k r _ (omega arith) ep (
        skip_item-string 2 k b r rest (inl refl) (string_fits 2 b r rest small u) e
          (u ∙ append_assoc _ b rest))
  skip_loop-encode (text s) fuel f pending k r rest w ef ep room small e u =
      skip_loop_round fuel f pending k k r _ (omega arith) ep (
        skip_item-string 3 k s r rest (inr refl) (string_fits 3 s r rest small u) e
          (u ∙ append_assoc _ s rest))
  skip_loop-encode (array xs) fuel f pending k r rest w ef ep room small e u =
      let h = write_type_and_arg 4 (count xs) in
      let u1 : unread r ≡ h ++ (encode_items xs ++ rest) =
        u ∙ append_assoc h (encode_items xs) rest in
      skip_loop_round fuel (nodes_items xs + f) pending k (k + count xs) r (advance (length h) r)
        (omega arith) ep
        (skip_item-array (count xs) k r (encode_items xs ++ rest)
          (omega (arith, count-le xs, length-append (encode_items xs) rest))
          (omega (
            arith,
            count-le xs,
            length-unread r,
            ap length u1,
            length-append h (encode_items xs ++ rest),
            length-append (encode_items xs) rest,
          ))
          e u1)
      ∙ skip_loop-encode_items xs (nodes_items xs + f) f (k + count xs) k (advance (length h) r)
          rest w refl (omega arith) room small e (unread-advance r h (encode_items xs ++ rest) u1)
      ∙ ap (skip_loop f k) (advance-append h (encode_items xs) r)
  skip_loop-encode (map ps) fuel f pending k r rest w ef ep room small e u =
      let h = write_type_and_arg 5 (count_pairs ps) in
      let u1 : unread r ≡ h ++ (encode_pairs ps ++ rest) =
        u ∙ append_assoc h (encode_pairs ps) rest in
      skip_loop_round fuel (nodes_pairs ps + f) pending k (k + count_pairs ps * 2) r
        (advance (length h) r) (omega arith) ep
        (skip_item-map (count_pairs ps) k r (encode_pairs ps ++ rest)
          (omega (arith, count_pairs-le ps, length-append (encode_pairs ps) rest))
          (omega (
            arith,
            count_pairs-le ps,
            length-unread r,
            ap length u1,
            length-append h (encode_pairs ps ++ rest),
            length-append (encode_pairs ps) rest,
          ))
          e u1)
      ∙ skip_loop-encode_pairs ps (nodes_pairs ps + f) f (k + count_pairs ps * 2) k
          (advance (length h) r) rest w refl (omega arith) room small e
          (unread-advance r h (encode_pairs ps ++ rest) u1)
      ∙ ap (skip_loop f k) (advance-append h (encode_pairs ps) r)
  skip_loop-encode (bool b) fuel f pending k r rest w ef ep room small e u =
      skip_loop_round fuel f pending k k r _ (omega arith) ep
        (skip_item-simple _ k r rest (bool_byte b) e u)
  skip_loop-encode null fuel f pending k r rest w ef ep room small e u =
      skip_loop_round fuel f pending k k r _ (omega arith) ep
        (skip_item-simple 0xf6 k r rest (inr (inr refl)) e u)

  skip_loop-encode_items :
      (xs : Items) (fuel f pending k : ℕ) (r : CborReader) (rest : List ℕ)
      → IsItems xs
      → fuel ≡ nodes_items xs + f
      → pending ≡ count xs + k
      → k ≤ length rest
      → length r.bytes < 2 ^ 63
      → r.error ≡ false
      → unread r ≡ encode_items xs ++ rest
      → skip_loop fuel pending r ≡ skip_loop f k (advance (length (encode_items xs)) r)
  skip_loop-encode_items nil fuel f pending k r rest w ef ep room small e u =
      let ef' : fuel ≡ f = omega arith in
      let ep' : pending ≡ k = omega arith in rw (ef', ep') (ap (skip_loop f k) (ground arith))
  skip_loop-encode_items (cons x xs) fuel f pending k r rest w ef ep room small e u =
      let u1 : unread r ≡ encode x ++ (encode_items xs ++ rest) =
        u ∙ append_assoc (encode x) (encode_items xs) rest in
      skip_loop-encode x fuel (nodes_items xs + f) pending (count xs + k) r
        (encode_items xs ++ rest) w.0 (omega arith) (omega arith)
        (omega (arith, count-le xs, length-append (encode_items xs) rest)) small e u1
      ∙ skip_loop-encode_items xs (nodes_items xs + f) f (count xs + k) k
          (advance (length (encode x)) r) rest w.1 refl refl room small e
          (unread-advance r (encode x) (encode_items xs ++ rest) u1)
      ∙ ap (skip_loop f k) (advance-append (encode x) (encode_items xs) r)

  skip_loop-encode_pairs :
      (ps : Pairs) (fuel f pending k : ℕ) (r : CborReader) (rest : List ℕ)
      → IsPairs ps
      → fuel ≡ nodes_pairs ps + f
      → pending ≡ k + count_pairs ps * 2
      → k ≤ length rest
      → length r.bytes < 2 ^ 63
      → r.error ≡ false
      → unread r ≡ encode_pairs ps ++ rest
      → skip_loop fuel pending r ≡ skip_loop f k (advance (length (encode_pairs ps)) r)
  skip_loop-encode_pairs end fuel f pending k r rest w ef ep room small e u =
      let ef' : fuel ≡ f = omega arith in
      let ep' : pending ≡ k = omega arith in rw (ef', ep') (ap (skip_loop f k) (ground arith))
  skip_loop-encode_pairs (pair a b ps) fuel f pending k r rest w ef ep room small e u =
      let u1 : unread r ≡ encode a ++ ((encode b ++ encode_pairs ps) ++ rest) =
        u ∙ append_assoc (encode a) (encode b ++ encode_pairs ps) rest in
      let r1 = advance (length (encode a)) r in
      let v1 : unread r1 ≡ encode b ++ (encode_pairs ps ++ rest) =
        unread-advance r (encode a) ((encode b ++ encode_pairs ps) ++ rest) u1
        ∙ append_assoc (encode b) (encode_pairs ps) rest in
      let owed = k + count_pairs ps * 2 in
      let fits : owed ≤ length (encode_pairs ps ++ rest) =
        omega (arith, count_pairs-le ps, length-append (encode_pairs ps) rest) in
      let fits' : suc owed ≤ length ((encode b ++ encode_pairs ps) ++ rest) = omega (
        arith,
        fits,
        encode-pos b,
        length-append (encode_pairs ps) rest,
        length-append (encode b ++ encode_pairs ps) rest,
        length-append (encode b) (encode_pairs ps),
      ) in
      skip_loop-encode a fuel (nodes b + (nodes_pairs ps + f)) pending (suc owed) r
        ((encode b ++ encode_pairs ps) ++ rest) w.0 (omega arith) (omega arith) fits' small e u1
      ∙ skip_loop-encode b (nodes b + (nodes_pairs ps + f)) (nodes_pairs ps + f) (suc owed) owed r1
          (encode_pairs ps ++ rest) w.1 refl refl fits small e v1
      ∙ skip_loop-encode_pairs ps (nodes_pairs ps + f) f owed k (advance (length (encode b)) r1)
          rest w.2 refl refl room small e
          (unread-advance r1 (encode b) (encode_pairs ps ++ rest) v1)
      ∙ ap (skip_loop f k) (
          ap (advance (length (encode_pairs ps))) (advance-append (encode a) (encode b) r)
          ∙ advance-append (encode a ++ encode b) (encode_pairs ps) r
          ∙ ap (λ (t : List ℕ). advance (length t) r)
              (append_assoc (encode a) (encode b) (encode_pairs ps)))

-- `Skip` on one item that the writer wrote consumes that item exactly, whatever follows it, in a
-- buffer shorter than 2 ^ 63 bytes.
pub skip-encode :
    (i : Item) (r : CborReader) (rest : List ℕ)
    → IsItem i
    → length r.bytes < 2 ^ 63
    → r.error ≡ false
    → unread r ≡ encode i ++ rest
    → skip r ≡ (some tt, advance (length (encode i)) r)
unfolding skip skip_loop
skip-encode i r rest w small e u = ap (skip_answer r) run
  where
    spare : suc (remaining r) ≡ nodes i + (suc (remaining r) - nodes i)
    spare =
        omega (arith, nodes-le i, remaining-unread r, ap length u, length-append (encode i) rest)

    run : skip_loop (suc (remaining r)) 1 r ≡ some (some tt, advance (length (encode i)) r)
    run =
        skip_loop-encode i (suc (remaining r)) (suc (remaining r) - nodes i) 1 0 r rest w spare refl
          (omega arith) small e u
