-- ===== src/Wire/Handshake/Frames.antt =====
-- HELLO and WELCOME as frames on the wire.
use campiello.Common.{
  ℕ, ◌*◌, ◌≤◌, ◌<◌, ◌^◌, ◌≡◌, refl, ap, none, some, List, [], ◌∷◌, ◌++◌, length, length-append,
  arith, All,
}
use campiello.Common.Text.{codes}
use campiello.Wire.Cbor.Writer.{write_text, write_uint, write_bytes, array_header, map_header}
use campiello.Wire.Arrays.{write_items}
use campiello.Wire.Sizes.{head-short, text-short, append-short, key-short}
use campiello.Wire.Frame.{FrameParser, ParseResult, frame, next, encode_frame, max_payload_length}
use campiello.Wire.Frame.Prefix.{buffered, next-encode_frame}
use campiello.Wire.Handshake.{
  NodeIdentity, encode_node_identity, decode_node_identity, make_hello, make_welcome,
}
use campiello.Wire.Handshake.RoundTrip.{IsIdentity, IsCap, decode-encode_node_identity}

caps-short :
    (caps : List (List ℕ))
    → All IsCap caps
    → length (write_items write_text caps) ≤ length caps * 41
unfolding write_items
caps-short [] h = omega arith
caps-short (c ∷ caps) h = omega (
  arith,
  h.0,
  text-short c,
  caps-short caps h.1,
  length-append (write_text c) (write_items write_text caps),
)

identity-short : (id : NodeIdentity) → IsIdentity id → length (encode_node_identity id) ≤ 2048
unfolding encode_node_identity map_header write_uint write_bytes array_header
identity-short id h =
    let print : length id.fingerprint ≤ 32 = omega (arith, h.fingerprint) in
    let whole = append-short _ _ (head-short 5 4) (
      append-short _ _ (key-short (codes "v") 1 (omega arith)) (
        append-short _ _ (head-short 0 id.version) (
          append-short _ _ (key-short (codes "fp") 2 (omega arith)) (
            append-short _ _ (append-short _ _ (head-short 2 (length id.fingerprint)) print) (
              append-short _ _ (key-short (codes "caps") 4 (omega arith)) (
                append-short _ _
                  (append-short _ _ (head-short 4 (length id.caps)) (caps-short id.caps h.each))
                  (append-short _ _ (key-short (codes "node") 4 (omega arith))
                    (key-short id.node 128 h.node)))))))) in
    omega (arith, whole, h.count)

-- Where the unconsumed buffer begins with the HELLO or the WELCOME of an identity that a node may
-- announce, with a uint32_t request id, Next yields a frame of that type and id whose payload decodes
-- to that identity, whatever follows it.
pub next-make_hello :
    (id : NodeIdentity) (request_id : ℕ) (rest rest' : List ℕ) (p q : FrameParser)
    → IsIdentity id
    → request_id < 2 ^ 32
    → p.error ≡ none
    → q.error ≡ none
    → buffered p ≡ encode_frame (make_hello id request_id) ++ rest
    → buffered q ≡ encode_frame (make_welcome id request_id) ++ rest'
    → ((next p).0 ≡ frame (make_hello id request_id))
      × ((next q).0 ≡ frame (make_welcome id request_id))
      × (decode_node_identity (make_hello id request_id).payload ≡ some id)
      × (decode_node_identity (make_welcome id request_id).payload ≡ some id)
next-make_hello id request_id rest rest' p q h r e e' u u' =
    let small : length (encode_node_identity id) ≤ max_payload_length =
      omega (arith, identity-short id h) in
    (
      ap (λ (x : ParseResult × FrameParser). x.0)
          (next-encode_frame (make_hello id request_id) rest p
            (record { current = refl; id_fits = r; payload_fits = small }) e u),
      ap (λ (x : ParseResult × FrameParser). x.0)
          (next-encode_frame (make_welcome id request_id) rest' q
            (record { current = refl; id_fits = r; payload_fits = small }) e' u'),
      decode-encode_node_identity id h,
      decode-encode_node_identity id h,
    )
