-- ===== src/Bricola/MdnsWire/Names.antt =====
-- src/bricola/mdns/MdnsWire.cpp, EncodeName and DecodeName: names without pointers.
use campiello.Common.{
  ℕ, zero, suc, ◌+◌, ◌-◌, ◌≤◌, ◌<◌, ◌≡◌, ◌≢◌, refl, sym, ap, ◌∙◌, Option, some, List, [], ◌∷◌, ◌++◌,
  length, take, drop, get_or, arith, All, append_assoc, append-nil, length-append, length-drop,
  drop-drop, get_or-drop, drop-append, take-append,
}
use campiello.Bricola.MdnsWire.{
  dot, append_label, name_loop, decode_name_into, decode_name, encode_labels, encode_name,
}

-- A label that the source encodes: 1 to 63 bytes, none of them a dot.
abbrev pub IsLabel : List ℕ → Type 0
IsLabel label = All (λ c. c ≢ dot) label × (1 ≤ length label) × (length label ≤ 63)

abbrev pub dotted_from : List ℕ → List (List ℕ) → List ℕ
dotted_from label [] = label
dotted_from label (more ∷ labels) = label ++ (dot ∷ dotted_from more labels)

-- The labels with dots in between.
abbrev pub dotted : List (List ℕ) → List ℕ
dotted [] = []
dotted (label ∷ labels) = dotted_from label labels

-- The labels as they stand in a message.
abbrev pub wire : List (List ℕ) → List ℕ
wire [] = 0 ∷ []
wire (label ∷ labels) = length label ∷ label ++ wire labels

encode_labels-append :
    (label before after : List ℕ)
    → All (λ c. c ≢ dot) label
    → encode_labels before (label ++ after) ≡ encode_labels (before ++ label) after
unfolding encode_labels
encode_labels-append [] before after h = ap (λ b. encode_labels b after) (sym (append-nil before))
encode_labels-append (c ∷ label) before after (n, h) = ground (
  arith,
  encode_labels-append label (before ++ (c ∷ [])) after h,
  append_assoc before (c ∷ []) label,
)

encode_labels-dotted_from :
    (label : List ℕ) (labels : List (List ℕ))
    → IsLabel label
    → All IsLabel labels
    → encode_labels [] (dotted_from label labels) ≡ wire (label ∷ labels)
unfolding encode_labels
encode_labels-dotted_from [] labels (n, a, b) h = absurd (omega arith)
encode_labels-dotted_from (c ∷ label) [] (n, a, b) h =
    ground (arith, encode_labels-append (c ∷ label) [] [] n, append-nil (c ∷ label))
encode_labels-dotted_from (c ∷ label) (more ∷ labels) (n, a, b) (k, h) = ground (
  arith,
  encode_labels-append (c ∷ label) [] (dot ∷ dotted_from more labels) n,
  encode_labels-dotted_from more labels k h,
)

pub encode_name-dotted :
    (labels : List (List ℕ)) → All IsLabel labels → encode_name (dotted labels) ≡ wire labels
unfolding encode_name encode_labels
encode_name-dotted [] h = refl
encode_name-dotted (label ∷ labels) (k, h) = encode_labels-dotted_from label labels k h

-- What the loop has appended behind some labels.
abbrev labels_onto : List ℕ → List (List ℕ) → List ℕ
labels_onto out [] = out
labels_onto out (label ∷ labels) = labels_onto (append_label out label) labels

labels_onto-dotted_from :
    (out : List ℕ) (label : List ℕ) (labels : List (List ℕ))
    → All IsLabel labels
    → 1 ≤ length label
    → labels_onto (out ++ label) labels ≡ out ++ dotted_from label labels
unfolding append_label
labels_onto-dotted_from out [] labels h n = absurd (omega arith)
labels_onto-dotted_from out (c ∷ label) [] h n = refl
labels_onto-dotted_from [] (c ∷ label) (more ∷ labels) (k, h) n =
    rw
      (
        sym (append_assoc (c ∷ label) (dot ∷ []) more),
        labels_onto-dotted_from ((c ∷ label) ++ (dot ∷ [])) more labels h k.1,
      )
      (append_assoc (c ∷ label) (dot ∷ []) (dotted_from more labels))
labels_onto-dotted_from (o ∷ out) (c ∷ label) (more ∷ labels) (k, h) n =
    let before = (o ∷ out) ++ (c ∷ label) in
    ap (λ l. labels_onto l labels) (sym (append_assoc before (dot ∷ []) more))
    ∙ (labels_onto-dotted_from (before ++ (dot ∷ [])) more labels h k.1
        ∙ (append_assoc before (dot ∷ []) (dotted_from more labels)
            ∙ append_assoc (o ∷ out) (c ∷ label) (dot ∷ dotted_from more labels)))

drop-suc : (n : ℕ) (xs : List ℕ) {x : ℕ} {ys : List ℕ} → drop n xs ≡ x ∷ ys → drop (n + 1) xs ≡ ys
drop-suc n xs e = rw (drop-drop 1 n xs, e) refl

module _ (jump : ℕ → List ℕ → Option (ℕ × List ℕ)) (buf : List ℕ) (start : ℕ) (after : List ℕ) where
  name_loop-wire :
      (labels : List (List ℕ)) (fuel offset : ℕ) (out : List ℕ)
      → All IsLabel labels
      → length labels < fuel
      → drop offset buf ≡ wire labels ++ after
      → name_loop jump fuel buf start offset out
        ≡ some (offset + length (wire labels) - start, labels_onto out labels)
  unfolding name_loop
  name_loop-wire labels zero offset out h f e = absurd (omega arith)
  name_loop-wire [] (suc fuel) offset out h f e =
      let size : get_or buf offset 0 ≡ 0 = get_or-drop offset buf 0 e in
      let inside : length buf - offset ≡ suc (length after) =
        sym (length-drop offset buf) ∙ ap length e in
      ground arith
  name_loop-wire (label ∷ labels) (suc fuel) offset out ((n, a, b), h) f e =
      let size : get_or buf offset 0 ≡ length label = get_or-drop offset buf 0 e in
      let rest : drop (offset + 1) buf ≡ label ++ (wire labels ++ after) =
        drop-suc offset buf e ∙ append_assoc label (wire labels) after in
      let inside : length buf - offset ≡ suc (length (label ++ (wire labels ++ after))) =
        sym (length-drop offset buf)
        ∙ (ap length e ∙ ap (λ l. suc (length l)) (append_assoc label (wire labels) after)) in
      let front : take (length label) (drop (offset + 1) buf) ≡ label =
        ap (take (length label)) rest ∙ take-append label (wire labels ++ after) in
      let behind : drop (offset + 1 + length label) buf ≡ wire labels ++ after =
        drop-drop (length label) (offset + 1) buf
        ∙ (ap (drop (length label)) rest ∙ drop-append label (wire labels ++ after)) in
      let next =
        name_loop-wire labels fuel (offset + 1 + length label) (append_label out label) h
          (omega arith) behind in
      rw (size, front)
        (ground (
          arith,
          length-append label (wire labels ++ after),
          length-append label (wire labels),
          next,
        ))

length-wire : (labels : List (List ℕ)) → length labels < length (wire labels)
length-wire [] = omega arith
length-wire (label ∷ labels) = omega (arith, length-wire labels, length-append label (wire labels))

labels_onto-dotted :
    (labels : List (List ℕ)) → All IsLabel labels → labels_onto [] labels ≡ dotted labels
unfolding append_label
labels_onto-dotted [] h = refl
labels_onto-dotted (label ∷ labels) ((n, a, b), h) = labels_onto-dotted_from [] label labels h a

pub decode_name-wire :
    (labels : List (List ℕ)) (buf after : List ℕ) (offset : ℕ)
    → All IsLabel labels
    → drop offset buf ≡ wire labels ++ after
    → decode_name buf offset ≡ some (length (wire labels), dotted labels)
unfolding decode_name decode_name_into
decode_name-wire labels buf after offset h e =
    let inside : length buf - offset ≡ length (wire labels ++ after) =
      sym (length-drop offset buf) ∙ ap length e in
    let run =
      name_loop-wire (λ ptr more. decode_name_into 20 buf ptr more) buf offset after labels
        (suc (length buf)) offset [] h
        (omega (arith, length-wire labels, length-append (wire labels) after)) e in
    ground (arith, labels_onto-dotted labels h, run)

-- More rounds than the bytes from the offset on do not change what the loop does.
name_loop_fuel :
    (jump : ℕ → List ℕ → Option (ℕ × List ℕ)) (buf : List ℕ) (start fuel more offset : ℕ)
    (out : List ℕ)
    → length buf < offset + fuel
    → length buf < offset + more
    → name_loop jump fuel buf start offset out ≡ name_loop jump more buf start offset out
unfolding name_loop
name_loop_fuel jump buf start zero zero offset out h k = refl
name_loop_fuel jump buf start zero (suc more) offset out h k = ground arith
name_loop_fuel jump buf start (suc fuel) zero offset out h k = ground arith
name_loop_fuel jump buf start (suc fuel) (suc more) offset out h k =
    let size = get_or buf offset 0 in
    let rest =
      name_loop_fuel jump buf start fuel more (offset + 1 + size)
        (append_label out (take size (drop (offset + 1) buf))) (omega arith) (omega arith) in
    rw rest refl
