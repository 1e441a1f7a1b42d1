-- ===== src/Wire/FileOps/RoundTrip.antt =====
-- What a file message encodes, its decoder gives back.
use campiello.Common.{ℕ, ◌≤◌, ◌<◌, ◌^◌, ◌≡◌, refl, true, some, List, [], ◌∷◌, length, arith}
use campiello.Common.Text.{codes}
use campiello.Wire.Cbor.Head.{uint-Reads, text-Reads, bytes-Reads, IsU64}
use campiello.Wire.Fields.{within, at_most, fits_u32, any}
use campiello.Wire.Fields.Encoded.{Entries-last, Entries-cons, Reads-map, Reads-once, decode-Reads}
use campiello.Wire.FileOps.{
  max_path_bytes, max_read_length, max_write_length, fits_read, encode_open_request, open_value,
  decode_open_request, encode_open_reply, open_reply_value, decode_open_reply, encode_read_request,
  read_value, decode_read_request, encode_read_reply, read_reply_value, decode_read_reply,
  encode_write_request, write_value, decode_write_request, number_value, encode_write_reply,
  decode_write_reply, encode_close_request, decode_close_request,
}

abbrev pub IsPath : List ℕ → Type 0
IsPath p = (0 < length p) × (length p ≤ max_path_bytes)

pub within-intro :
    (limit : ℕ) (s : List ℕ) → 0 < length s → length s ≤ limit → within limit s ≡ true
within-intro limit [] h k = absurd (omega arith)
within-intro limit (x ∷ xs) h k = ground arith

-- An OPEN request with a path of 1 to 1024 bytes and a uint32_t mode is decoded as it was encoded.
pub decode-encode_open_request :
    (path : List ℕ) (mode : ℕ)
    → IsPath path
    → mode < 2 ^ 32
    → decode_open_request (encode_open_request path mode) ≡ some (path, mode)
unfolding decode_open_request encode_open_request
decode-encode_open_request path mode p m = decode-Reads _ (
    Reads-map open_value _ (omega arith)
      (Entries-cons open_value (codes "mode") (omega arith)
        (Reads-once _ fits_u32 (ground arith) (uint-Reads mode (omega arith)))
        (Entries-last open_value (codes "path") (omega arith) (
          Reads-once _ (within max_path_bytes) (within-intro max_path_bytes path p.0 p.1)
            (text-Reads path (omega arith)))))
      refl)

-- The replies and requests that carry only uint64_t numbers are decoded as they were encoded, and a
-- READ request if its length is one that a peer may ask for.
pub decode-encode_numbers :
    (handle n len : ℕ)
    → IsU64 handle
    → IsU64 n
    → len ≤ max_read_length
    → (decode_open_reply (encode_open_reply handle n) ≡ some (handle, n))
      × (decode_read_request (encode_read_request handle n len) ≡ some (handle, n, len))
      × (decode_write_reply (encode_write_reply n) ≡ some n)
      × (decode_close_request (encode_close_request handle) ≡ some handle)
unfolding decode_open_reply encode_open_reply decode_read_request encode_read_request
    decode_write_reply encode_write_reply decode_close_request encode_close_request
decode-encode_numbers handle n len h k m = (
  decode-Reads _ (
      Reads-map open_reply_value _ (omega arith)
        (Entries-cons open_reply_value (codes "size") (omega arith)
          (Reads-once _ any refl (uint-Reads n k))
          (Entries-last open_reply_value (codes "handle") (omega arith)
            (Reads-once _ any refl (uint-Reads handle h))))
        refl),
  decode-Reads _ (
      Reads-map read_value _ (omega arith)
        (Entries-cons read_value (codes "handle") (omega arith)
          (Reads-once _ any refl (uint-Reads handle h))
          (Entries-cons read_value (codes "length") (omega arith)
            (Reads-once _ fits_read (ground arith) (uint-Reads len (omega arith)))
            (Entries-last read_value (codes "offset") (omega arith)
              (Reads-once _ any refl (uint-Reads n k)))))
        refl),
  decode-Reads _ (
      Reads-map (number_value (codes "written")) _ (omega arith)
        (Entries-last (number_value (codes "written")) (codes "written") (omega arith)
          (Reads-once _ any refl (uint-Reads n k)))
        refl),
  decode-Reads _ (
      Reads-map (number_value (codes "handle")) _ (omega arith)
        (Entries-last (number_value (codes "handle")) (codes "handle") (omega arith)
          (Reads-once _ any refl (uint-Reads handle h)))
        refl),
)

-- The data of a READ reply and of a WRITE request, up to 1 MiB, are decoded as they were encoded.
pub decode-encode_data :
    (handle offset : ℕ) (bytes : List ℕ)
    → IsU64 handle
    → IsU64 offset
    → length bytes ≤ max_read_length
    → (decode_read_reply (encode_read_reply bytes) ≡ some bytes)
      × (decode_write_request (encode_write_request handle offset bytes)
          ≡ some (handle, offset, bytes))
unfolding decode_read_reply encode_read_reply decode_write_request encode_write_request
decode-encode_data handle offset bytes h k b = (
  decode-Reads _ (
      Reads-map read_reply_value _ (omega arith)
        (Entries-last read_reply_value (codes "data") (omega arith)
          (Reads-once _ (at_most max_read_length) (ground arith) (bytes-Reads bytes (omega arith))))
        refl),
  decode-Reads _ (
      Reads-map write_value _ (omega arith)
        (Entries-cons write_value (codes "data") (omega arith)
          (Reads-once _ (at_most max_write_length) (ground arith) (bytes-Reads bytes (omega arith)))
          (Entries-cons write_value (codes "handle") (omega arith)
            (Reads-once _ any refl (uint-Reads handle h))
            (Entries-last write_value (codes "offset") (omega arith)
              (Reads-once _ any refl (uint-Reads offset k)))))
        refl),
)

-- The payloads of OPEN, READ, WRITE and CLOSE, of requests and of replies, are decoded as they were
-- encoded, for a path of 1 to 1024 bytes, a uint32_t mode, uint64_t handles, offsets and sizes, a READ
-- request of at most 1 MiB and data of at most 1 MiB.
pub decode-encode_file_ops :
    (path bytes : List ℕ) (mode handle n len : ℕ)
    → IsPath path
    → length bytes ≤ max_read_length
    → mode < 2 ^ 32
    → IsU64 handle
    → IsU64 n
    → len ≤ max_read_length
    → (decode_open_request (encode_open_request path mode) ≡ some (path, mode))
      × (decode_open_reply (encode_open_reply handle n) ≡ some (handle, n))
      × (decode_read_request (encode_read_request handle n len) ≡ some (handle, n, len))
      × (decode_read_reply (encode_read_reply bytes) ≡ some bytes)
      × (decode_write_request (encode_write_request handle n bytes) ≡ some (handle, n, bytes))
      × (decode_write_reply (encode_write_reply n) ≡ some n)
      × (decode_close_request (encode_close_request handle) ≡ some handle)
decode-encode_file_ops path bytes mode handle n len p b m h k l =
    let numbers = decode-encode_numbers handle n len h k l in
    let data_ = decode-encode_data handle n bytes h k b in
    (
      decode-encode_open_request path mode p m,
      numbers.0,
      numbers.1,
      data_.0,
      data_.1,
      numbers.2,
      numbers.3,
    )
