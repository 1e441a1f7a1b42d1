-- ===== src/Wire/Frame/Prefix.antt =====
-- `Next` where the buffer holds a whole frame, and where it holds a part of one.
use campiello.Common.{
  ℕ, ◌+◌, ◌≤◌, ◌<◌, ◌≡◌, refl, ap, ◌∙◌, none, List, [], ◌++◌, append-nil, ltb, length,
  length-append, length-drop, take, drop, take-append, arith, get_or-append_left, Bool-cases, inl,
  inr,
}
use campiello.Wire.Word.{be_bytes}
use campiello.Wire.Frame.{
  Frame, FrameParser, frame, need_more, header_size, read_u32_be, next_at, next, encode_frame,
}
use campiello.Wire.Frame.Header.{
  IsFrame, IsHeader, wire_bytes, wire_bytes-IsHeader, encode_frame-wire_bytes,
}

-- What the parser has not yet turned into frames.
abbrev pub buffered : FrameParser → List ℕ
buffered p = drop p.read_pos p.buffer

pub length-wire_bytes : (f : Frame) → length (wire_bytes f) ≡ 12 + length f.payload
unfolding be_bytes
length-wire_bytes f = omega arith

-- The payload behind a header.
payload-wire_bytes :
    (f : Frame) (rest : List ℕ)
    → take (length f.payload) (drop header_size (wire_bytes f ++ rest)) ≡ f.payload
unfolding be_bytes
payload-wire_bytes f rest = take-append f.payload rest

next-eq :
    (p : FrameParser) (h : List ℕ)
    → p.error ≡ none
    → buffered p ≡ h
    → next p ≡ next_at h (length h) p
unfolding next
next-eq p h e u = rw (e, next) (ground (arith, ap length u, length-drop p.read_pos p.buffer))

next_at-whole :
    (f : Frame) (rest : List ℕ) (p : FrameParser)
    → IsFrame f
    → next_at (wire_bytes f ++ rest) (length (wire_bytes f ++ rest)) p
      ≡ (frame f, record p { read_pos = p.read_pos + length (wire_bytes f) })
unfolding next_at
next_at-whole f rest p v =
    let h = wire_bytes-IsHeader f rest v in
    ground (
      arith,
      h,
      v,
      length-append (wire_bytes f) rest,
      length-wire_bytes f,
      payload-wire_bytes f rest,
      ap (λ (n : ℕ). take n (drop header_size (wire_bytes f ++ rest))) h.size,
    )

-- A word of a header is read off any front that holds it.
read_u32_be-front :
    (front later : List ℕ) (i : ℕ)
    → i + 3 < length front
    → read_u32_be front i ≡ read_u32_be (front ++ later) i
unfolding read_u32_be
read_u32_be-front front later i h = rw (
  get_or-append_left front later i 0 (omega arith),
  get_or-append_left front later (i + 1) 0 (omega arith),
  get_or-append_left front later (i + 2) 0 (omega arith),
  get_or-append_left front later (i + 3) 0 h,
)

front-IsHeader :
    (f : Frame) (front later : List ℕ)
    → IsFrame f
    → front ++ later ≡ wire_bytes f
    → 12 ≤ length front
    → IsHeader f front
front-IsHeader f front later v e h =
    let whole : IsHeader f (front ++ later) =
      rw e (rw (append-nil (wire_bytes f)) at (wire_bytes-IsHeader f [] v)) in
    record {
      first = get_or-append_left front later 0 0 (omega arith) ∙ whole.first;
      second = get_or-append_left front later 1 0 (omega arith) ∙ whole.second;
      version = get_or-append_left front later 2 0 (omega arith) ∙ whole.version;
      type = get_or-append_left front later 3 0 (omega arith) ∙ whole.type;
      id = read_u32_be-front front later 4 (omega arith) ∙ whole.id;
      size = read_u32_be-front front later 8 (omega arith) ∙ whole.size;
    }

next_at-short : (h : List ℕ) (n : ℕ) (p : FrameParser) → n < 12 → next_at h n p ≡ (need_more, p)
unfolding next_at
next_at-short h n p short = ground arith

next_at-header :
    (f : Frame) (h : List ℕ) (n : ℕ) (p : FrameParser)
    → IsFrame f
    → IsHeader f h
    → n < 12 + length f.payload
    → next_at h n p ≡ (need_more, p)
unfolding next_at
next_at-header f h n p v head short = ground (arith, head, v)

next_at-front :
    (f : Frame) (front later : List ℕ) (p : FrameParser)
    → IsFrame f
    → front ++ later ≡ wire_bytes f
    → length front < length (wire_bytes f)
    → next_at front (length front) p ≡ (need_more, p)
next_at-front f front later p v e short = elim (Bool-cases (ltb (length front) 12)) [
  | inl few ↦ next_at-short front (length front) p (ground arith)
  | inr enough ↦
      next_at-header f front (length front) p v (front-IsHeader f front later v e (ground arith))
        (omega (arith, length-wire_bytes f))
]

-- The buffer begins with the bytes of a frame: `Next` yields exactly that frame and consumes exactly
-- its bytes, whatever follows them.
pub next-encode_frame :
    (f : Frame) (rest : List ℕ) (p : FrameParser)
    → IsFrame f
    → p.error ≡ none
    → buffered p ≡ encode_frame f ++ rest
    → next p ≡ (frame f, record p { read_pos = p.read_pos + length (encode_frame f) })
next-encode_frame f rest p v e u =
    let bytes = encode_frame-wire_bytes f v in
    next-eq p (wire_bytes f ++ rest) e (u ∙ ap (λ (l : List ℕ). l ++ rest) bytes)
    ∙ next_at-whole f rest p v
    ∙ rw bytes refl

-- The buffer holds a proper front of a frame: `Next` asks for more, and changes nothing.
pub next-front :
    (f : Frame) (front later : List ℕ) (p : FrameParser)
    → IsFrame f
    → p.error ≡ none
    → buffered p ≡ front
    → front ++ later ≡ encode_frame f
    → length front < length (encode_frame f)
    → next p ≡ (need_more, p)
next-front f front later p v e u split short =
    next-eq p front e u
    ∙ next_at-front f front later p v (split ∙ encode_frame-wire_bytes f v)
        (omega (arith, ap length (encode_frame-wire_bytes f v)))

-- An empty buffer yields nothing.
pub next-empty : (p : FrameParser) → p.error ≡ none → buffered p ≡ [] → next p ≡ (need_more, p)
next-empty p e u = next-eq p [] e u ∙ next_at-short [] 0 p (omega arith)
