-- ===== src/Tests/Messages.antt =====
-- The payload codecs at concrete messages.
use campiello.Common.{ℕ, ◌≤◌, ◌<◌, ◌^◌, ◌≡◌, refl, some, List, [], ◌∷◌, length, arith}
use campiello.Common.Text.{codes}
use campiello.Wire.Word.{from_be}
use campiello.Wire.Cbor.Monad.{repeat}
use campiello.Wire.Cbor.Reader.{read_argument, read_head, read_uint, read_text, read_map_header}
use campiello.Wire.Fields.{read_map, decode}
use campiello.Wire.FileOps.{
  max_read_length, max_write_length, encode_open_request, decode_open_request, encode_open_reply,
  decode_open_reply, encode_read_request, decode_read_request, encode_read_reply, decode_read_reply,
  encode_write_request, decode_write_request, encode_write_reply, decode_write_reply,
  encode_close_request, decode_close_request,
}
use campiello.Wire.FileOps.RoundTrip.{
  IsPath, decode-encode_file_ops, decode-encode_numbers, decode-encode_data,
}
use campiello.Wire.FileOps.Bounds.{decode_file_ops-bounds}

-- {"path": "/a", "mode": 1}
abbrev open_payload : List ℕ
open_payload =
    0xa2 ∷ 0x64 ∷ 0x70 ∷ 0x61 ∷ 0x74 ∷ 0x68 ∷ 0x62 ∷ 0x2f ∷ 0x61 ∷ 0x64 ∷ 0x6d ∷ 0x6f ∷ 0x64 ∷ 0x65
    ∷ 0x01 ∷ []

open_payload_accepted : decode_open_request open_payload ≡ some (codes "/a", 1)
unfolding decode_open_request decode read_map repeat read_map_header read_text read_uint read_head
    read_argument from_be
open_payload_accepted = refl

-- {"length": 5, "handle": 1, "offset": 2}, {"data": h'09'} and the same with a handle and an offset.
abbrev ask : List ℕ
ask = encode_read_request 1 2 5

abbrev reply : List ℕ
reply = encode_read_reply (9 ∷ [])

abbrev write : List ℕ
write = encode_write_request 1 2 (9 ∷ [])

decode_file_ops-bounds_example :
    (IsPath (codes "/a") × (1 < 2 ^ 32))
    × ((5 ≤ max_read_length)
        × (length {A = ℕ} (9 ∷ []) ≤ max_read_length)
        × (length {A = ℕ} (9 ∷ []) ≤ max_write_length))
decode_file_ops-bounds_example =
    decode_file_ops-bounds open_payload ask reply write (codes "/a") 1 1 1 2 2 5 (9 ∷ []) (9 ∷ [])
      open_payload_accepted
      (decode-encode_numbers 1 2 5 (omega arith) (omega arith) (omega arith)).1
      (decode-encode_data 1 2 (9 ∷ []) (omega arith) (omega arith) (omega arith)).0
      (decode-encode_data 1 2 (9 ∷ []) (omega arith) (omega arith) (omega arith)).1

decode-encode_file_ops_example :
    (decode_open_request (encode_open_request (codes "/doc") 3) ≡ some (codes "/doc", 3))
    × (decode_open_reply (encode_open_reply 8 4096) ≡ some (8, 4096))
    × (decode_read_request (encode_read_request 8 4096 512) ≡ some (8, 4096, 512))
    × (decode_read_reply (encode_read_reply (1 ∷ 2 ∷ [])) ≡ some (1 ∷ 2 ∷ []))
    × (decode_write_request (encode_write_request 8 4096 (1 ∷ 2 ∷ [])) ≡ some (8, 4096, 1 ∷ 2 ∷ []))
    × (decode_write_reply (encode_write_reply 4096) ≡ some 4096)
    × (decode_close_request (encode_close_request 8) ≡ some 8)
decode-encode_file_ops_example =
    decode-encode_file_ops (codes "/doc") (1 ∷ 2 ∷ []) 3 8 4096 512 (omega arith) (omega arith)
      (omega arith) (omega arith) (omega arith) (omega arith)
