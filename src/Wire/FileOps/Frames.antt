-- ===== src/Wire/FileOps/Frames.antt =====
-- The frames of file messages fit the envelope.
use campiello.Common.{ℕ, ◌+◌, ◌≤◌, ◌<◌, ◌^◌, refl, List, ◌++◌, length, arith}
use campiello.Common.Text.{codes}
use campiello.Wire.Cbor.Writer.{write_uint, write_bytes, write_text, map_header}
use campiello.Wire.Sizes.{head-short, append-short, key-short}
use campiello.Wire.Frame.{max_payload_length}
use campiello.Wire.Frame.Header.{IsFrame}
use campiello.Wire.FileOps.{
  max_read_length, encode_open_request, encode_open_reply, encode_read_request, encode_read_reply,
  encode_write_request, encode_write_reply, encode_close_request, encode_ok, make_open_request,
  make_open_reply, make_read_request, make_read_reply, make_write_request, make_write_reply,
  make_close_request, make_close_reply,
}
use campiello.Wire.FileOps.RoundTrip.{IsPath}

-- An entry with a short key, in front of `m` bytes.
entry-short :
    (key value rest : List ℕ) {n m : ℕ}
    → length key ≤ 7
    → length value ≤ n
    → length rest ≤ m
    → length (write_text key ++ (value ++ rest)) ≤ 16 + (n + m)
entry-short key value rest h k l = omega (
  arith,
  append-short (write_text key) (value ++ rest) (key-short key 7 h) (append-short value rest k l),
)

last-short :
    (key value : List ℕ) {n : ℕ}
    → length key ≤ 7
    → length value ≤ n
    → length (write_text key ++ value) ≤ 16 + n
last-short key value h k = omega (arith, append-short (write_text key) value (key-short key 7 h) k)

-- Every frame that the builders of the file messages make, with a path of at most 1024 bytes, data of
-- at most 1 MiB and a uint32_t request id, is of the current version and within the limit on payloads,
-- so that EncodeFrame accepts it.
pub make_file_frames-IsFrame :
    (path bytes : List ℕ) (handle offset n request_id : ℕ)
    → IsPath path
    → length bytes ≤ max_read_length
    → request_id < 2 ^ 32
    → (IsFrame (make_open_request path n request_id)
        × IsFrame (make_open_reply handle n request_id))
      × (IsFrame (make_read_request handle offset n request_id)
          × IsFrame (make_read_reply bytes request_id))
      × (IsFrame (make_write_request handle offset bytes request_id)
          × IsFrame (make_write_reply n request_id))
      × (IsFrame (make_close_request handle request_id) × IsFrame (make_close_reply request_id))
unfolding encode_open_request encode_open_reply encode_read_request encode_read_reply
    encode_write_request encode_write_reply encode_close_request encode_ok map_header write_uint
    write_bytes
make_file_frames-IsFrame path bytes handle offset n request_id p b r =
    let uint : (v : ℕ) → length (write_uint v) ≤ 9 = λ v. head-short 0 v in
    let data_ : length (write_bytes bytes) ≤ 9 + max_read_length =
      append-short _ _ (head-short 2 (length bytes)) b in
    let name : length (write_text path) ≤ 1024 + 9 = key-short path 1024 p.1 in
    let short : (payload : List ℕ) (type : ℕ)
        → length payload ≤ max_payload_length
        → IsFrame
            (record { version = 1; type = type; request_id = request_id; payload = payload }) =
      λ payload type h. record { current = refl; id_fits = r; payload_fits = h } in
    (
      (
        short _ _ (
            omega (
              arith,
              append-short _ _ (head-short 5 2) (
                  entry-short (codes "mode") (write_uint n) _ (omega arith) (uint n)
                    (last-short (codes "path") (write_text path) (omega arith) name)),
            )),
        short _ _ (
            omega (
              arith,
              append-short _ _ (head-short 5 2) (
                  entry-short (codes "size") (write_uint n) _ (omega arith) (uint n)
                    (last-short (codes "handle") (write_uint handle) (omega arith) (uint handle))),
            )),
      ),
      (
        short _ _ (
            omega (
              arith,
              append-short _ _ (head-short 5 3) (
                  entry-short (codes "handle") (write_uint handle) _ (omega arith) (uint handle) (
                    entry-short (codes "length") (write_uint n) _ (omega arith) (uint n) (
                      last-short (codes "offset") (write_uint offset) (omega arith)
                        (uint offset)))),
            )),
        short _ _ (
            omega (
              arith,
              append-short _ _ (head-short 5 1)
                  (last-short (codes "data") (write_bytes bytes) (omega arith) data_),
            )),
      ),
      (
        short _ _ (
            omega (
              arith,
              append-short _ _ (head-short 5 3) (
                  entry-short (codes "data") (write_bytes bytes) _ (omega arith) data_ (
                    entry-short (codes "handle") (write_uint handle) _ (omega arith) (uint handle) (
                      last-short (codes "offset") (write_uint offset) (omega arith)
                        (uint offset)))),
            )),
        short _ _ (
            omega (
              arith,
              append-short _ _ (head-short 5 1)
                  (last-short (codes "written") (write_uint n) (omega arith) (uint n)),
            )),
      ),
      (
        short _ _ (
            omega (
              arith,
              append-short _ _ (head-short 5 1)
                  (last-short (codes "handle") (write_uint handle) (omega arith) (uint handle)),
            )),
        short _ _ (omega (arith, head-short 5 0)),
      ),
    )
