-- ===== src/Wire/Error/Messages.antt =====
-- What an ERROR reply encodes, its decoder gives back, and what it accepts.
use campiello.Common.{
  ℕ, ◌≤◌, ◌<◌, ◌^◌, ◌≡◌, refl, Option, none, some, List, [], ◌∷◌, length, arith, bytes_eq,
}
use campiello.Common.Text.{codes}
use campiello.Wire.Cbor.Reader.{read_uint, read_text}
use campiello.Wire.Cbor.Head.{uint-Reads, text-Reads}
use campiello.Wire.Fields.{at_most, fits_u32}
use campiello.Wire.Fields.Encoded.{Entries-last, Entries-cons, Reads-map, Reads-once, decode-Reads}
use campiello.Wire.Fields.Post.{Post, Held, Post-if, Post-ignore, Post-once, Post-map, decode-Post}
use campiello.Wire.Error.{
  ErrorCode, internal, not_found, access_denied, not_a_directory, is_a_directory, invalid_request,
  unsupported, io_error, no_space, bad_handle, too_many_open, error_number, encode_error,
  ErrorReply, ErrorFields, max_error_message_bytes, error_value, error_of, no_error, read_error,
  decode_error,
}

error_number-small : (code : ErrorCode) → error_number code < 12
error_number-small internal = omega arith
error_number-small not_found = omega arith
error_number-small access_denied = omega arith
error_number-small not_a_directory = omega arith
error_number-small is_a_directory = omega arith
error_number-small invalid_request = omega arith
error_number-small unsupported = omega arith
error_number-small io_error = omega arith
error_number-small no_space = omega arith
error_number-small bad_handle = omega arith
error_number-small too_many_open = omega arith

-- An ERROR reply with any of the codes and a message of at most 256 bytes, the empty one that is left
-- out included, is decoded to the number of the code and the message.
pub decode-encode_error :
    (code : ErrorCode) (text : List ℕ)
    → length text ≤ max_error_message_bytes
    → decode_error (encode_error code text)
      ≡ some (record { code = error_number code; text = text })
unfolding decode_error encode_error
decode-encode_error code [] h = decode-Reads _ (
    Reads-map error_value _ (omega arith)
      (Entries-last error_value (codes "code") (omega arith) (
        Reads-once _ fits_u32 (ground (arith, error_number-small code))
          (uint-Reads (error_number code) (omega (arith, error_number-small code)))))
      refl)
decode-encode_error code (x ∷ xs) h = decode-Reads _ (
    Reads-map error_value _ (omega arith)
      (Entries-cons error_value (codes "msg") (omega arith)
        (Reads-once _ (at_most max_error_message_bytes) (ground arith)
          (text-Reads (x ∷ xs) (omega arith)))
        (Entries-last error_value (codes "code") (omega arith) (
          Reads-once _ fits_u32 (ground (arith, error_number-small code))
            (uint-Reads (error_number code) (omega (arith, error_number-small code))))))
      refl)

BoundedError : ErrorReply → Type 0
BoundedError e = (e.code < 2 ^ 32) × (length e.text ≤ max_error_message_bytes)

ErrorHeld : ErrorFields → Type 0
ErrorHeld s = Held (λ c. c < 2 ^ 32) s.code × Held (λ m. length m ≤ max_error_message_bytes) s.text

error_value-Post :
    (s : ErrorFields) (key : List ℕ) → ErrorHeld s → Post (error_value s key) ErrorHeld
unfolding ErrorHeld
error_value-Post s key h =
    Post-if ErrorHeld (bytes_eq key (codes "code")) _ _
      (Post-once ErrorHeld s.code read_uint fits_u32 _ (λ c t. (ground arith, h.1)))
      (Post-if ErrorHeld (bytes_eq key (codes "msg")) _ _
        (Post-once ErrorHeld s.text read_text (at_most max_error_message_bytes) _
          (λ m t. (h.0, ground arith)))
        (Post-ignore ErrorHeld s h))

error_of-Held :
    (c : Option ℕ) (m : Option (List ℕ))
    → Held (λ n. n < 2 ^ 32) c
    → Held (λ t. length t ≤ max_error_message_bytes) m
    → Held BoundedError (error_of c m)
unfolding BoundedError
error_of-Held none m h k = tt
error_of-Held (some c) none h k = (h, omega arith)
error_of-Held (some c) (some m) h k = (h, k)

-- Whatever the payload, an ERROR reply that is accepted has a code that fits a uint32_t and a message
-- of at most 256 bytes.
pub decode_error-bounds :
    (payload : List ℕ) (e : ErrorReply)
    → decode_error payload ≡ some e
    → (e.code < 2 ^ 32) × (length e.text ≤ max_error_message_bytes)
unfolding decode_error ErrorHeld BoundedError
decode_error-bounds payload e h =
    decode-Post BoundedError read_error payload e
      (Post-map ErrorHeld BoundedError error_value no_error _ error_value-Post (tt, tt)
        (λ s k. error_of-Held s.code s.text k.0 k.1))
      h
