-- ===== src/Wire/Frame/Header.antt =====
-- `Next` on the bytes that `EncodeFrame` wrote.
use Prim.Native.Nat.{bit_or}
use campiello.Common.{
  ℕ, ◌+◌, ◌*◌, ◌/◌, ◌%◌, ◌^◌, ◌≤◌, ◌<◌, ◌≡◌, refl, ap, ◌∙◌, List, ◌∷◌, ◌++◌, length, get_or, arith,
}
use campiello.Common.Bits.{bit_or-shift}
use campiello.Wire.Word.{be_bytes}
use campiello.Wire.Frame.{
  Frame, magic0, magic1, protocol_version, max_payload_length, read_u32_be, write_u32_be,
  encode_frame_into, encode_frame,
}

-- A frame of this protocol version whose fields fit the header's.
pub record IsFrame (f : Frame) : Type 0 where
  pub current : f.version ≡ protocol_version
  pub id_fits : f.request_id < 2 ^ 32
  pub payload_fits : length f.payload ≤ max_payload_length

-- The bytes of a frame, in one list.
abbrev pub wire_bytes : Frame → List ℕ
wire_bytes f =
    magic0
    ∷ magic1
    ∷ f.version
    ∷ f.type
    ∷ (write_u32_be f.request_id ++ (write_u32_be (length f.payload % 2 ^ 32) ++ f.payload))

pub encode_frame-wire_bytes : (f : Frame) → IsFrame f → encode_frame f ≡ wire_bytes f
unfolding encode_frame encode_frame_into
encode_frame-wire_bytes f h = ground (arith, h.payload_fits)

-- Four bytes put together by shifts.
pub word_of_bytes :
    (a b c d : ℕ)
    → b < 256
    → c < 256
    → d < 256
    → bit_or (bit_or (bit_or (a * 2 ^ 24) (b * 2 ^ 16)) (c * 2 ^ 8)) d
      ≡ ((a * 256 + b) * 256 + c) * 256 + d
word_of_bytes a b c d hb hc hd =
    ap (λ (t : ℕ). bit_or (bit_or t (c * 2 ^ 8)) d) first
    ∙ ap (λ (t : ℕ). bit_or t d) second
    ∙ third
  where
    first : bit_or (a * 2 ^ 24) (b * 2 ^ 16) ≡ (a * 256 + b) * 2 ^ 16
    first = omega (arith, bit_or-shift 24 a (b * 2 ^ 16) (omega arith))

    second : bit_or ((a * 256 + b) * 2 ^ 16) (c * 2 ^ 8) ≡ ((a * 256 + b) * 256 + c) * 2 ^ 8
    second = omega (arith, bit_or-shift 16 (a * 256 + b) (c * 2 ^ 8) (omega arith))

    third : bit_or (((a * 256 + b) * 256 + c) * 2 ^ 8) d ≡ ((a * 256 + b) * 256 + c) * 256 + d
    third = omega (arith, bit_or-shift 8 ((a * 256 + b) * 256 + c) d hd)

-- The four bytes of a uint32_t, read back.
word_again :
    (v : ℕ)
    → v < 2 ^ 32
    → bit_or
        (bit_or
          (bit_or (v / 256 ^ 3 % 256 * 2 ^ 24) (v / 256 ^ 2 % 256 * 2 ^ 16))
          (v / 256 ^ 1 % 256 * 2 ^ 8))
        (v / 256 ^ 0 % 256)
      ≡ v
word_again v h =
    word_of_bytes (v / 256 ^ 3 % 256) (v / 256 ^ 2 % 256) (v / 256 ^ 1 % 256) (v / 256 ^ 0 % 256)
      (omega arith) (omega arith) (omega arith)
    ∙ omega arith

-- The fields of a header that begins with the bytes of a frame, however far the buffer reaches.
pub record IsHeader (f : Frame) (h : List ℕ) : Type 0 where
  pub first : get_or h 0 0 ≡ magic0
  pub second : get_or h 1 0 ≡ magic1
  pub version : get_or h 2 0 ≡ f.version
  pub type : get_or h 3 0 ≡ f.type
  pub id : read_u32_be h 4 ≡ f.request_id
  pub size : read_u32_be h 8 ≡ length f.payload

pub wire_bytes-IsHeader :
    (f : Frame) (rest : List ℕ) → IsFrame f → IsHeader f (wire_bytes f ++ rest)
unfolding read_u32_be be_bytes
wire_bytes-IsHeader f rest h = record {
  first = refl;
  second = refl;
  version = refl;
  type = refl;
  id = word_again f.request_id h.id_fits;
  size = word_again (length f.payload % 2 ^ 32) (omega arith) ∙ omega (arith, h.payload_fits);
}
