-- ===== src/Wire/FileOps.antt =====
-- src/traghetto/wire/FileOps.h and FileOps.cpp: OPEN, READ, WRITE and CLOSE. A decoder returns what
-- the source stores in its out parameters, in their order.
pub mod RoundTrip
pub mod Bounds
pub mod Frames
use campiello.Common.{
  ℕ, ◌*◌, Bool, true, Option, none, some, List, [], ◌∷◌, ◌++◌, if◌then◌else◌, leb, bytes_eq,
}
use campiello.Common.Text.{codes}
use campiello.Wire.Cbor.Monad.{CborReader, M, pure, when, reader, repeat, at_end, ◌>>=◌}
use campiello.Wire.Cbor.Writer.{write_uint, write_bytes, write_text, map_header}
use campiello.Wire.Cbor.Reader.{read_uint, read_bytes, read_text, read_map_header, skip}
use campiello.Wire.MessageType
use campiello.Wire.Frame.{Frame, message}
use campiello.Wire.Fields.{
  once, store, any, ignore, read_map, whole, decode, both, all_three, within, at_most, fits_u32,
}

abbrev pub max_path_bytes : ℕ
max_path_bytes = 1024

abbrev pub max_read_length : ℕ
max_read_length = 1024 * 1024

abbrev pub max_write_length : ℕ
max_write_length = 1024 * 1024

unfoldable pub encode_open_request : List ℕ → ℕ → List ℕ
encode_open_request path mode =
    map_header 2
    ++ (write_text (codes "mode")
        ++ (write_uint mode ++ (write_text (codes "path") ++ write_text path)))

pub record OpenFields : Type 0 where
  pub mode : Option ℕ
  pub path : Option (List ℕ)

abbrev pub open_value : OpenFields → List ℕ → M OpenFields
open_value s key =
    if bytes_eq key (codes "mode")
    then once s.mode (store read_uint fits_u32 (λ v. record s { mode = some v }))
    else if bytes_eq key (codes "path")
    then once s.path (store read_text (within max_path_bytes) (λ p. record s { path = some p }))
    else ignore s

abbrev pub read_open_request : M (List ℕ × ℕ)
read_open_request =
    read_map open_value (record { mode = none; path = none }) (λ s. both s.path s.mode)

unfoldable pub decode_open_request : List ℕ → Option (List ℕ × ℕ)
decode_open_request payload = decode read_open_request payload

unfoldable pub encode_open_reply : ℕ → ℕ → List ℕ
encode_open_reply handle size =
    map_header 2
    ++ (write_text (codes "size")
        ++ (write_uint size ++ (write_text (codes "handle") ++ write_uint handle)))

pub record OpenReplyFields : Type 0 where
  pub handle : Option ℕ
  pub size : Option ℕ

abbrev pub open_reply_value : OpenReplyFields → List ℕ → M OpenReplyFields
open_reply_value s key =
    if bytes_eq key (codes "handle")
    then once s.handle (store read_uint any (λ v. record s { handle = some v }))
    else if bytes_eq key (codes "size")
    then once s.size (store read_uint any (λ v. record s { size = some v }))
    else ignore s

abbrev pub read_open_reply : M (ℕ × ℕ)
read_open_reply =
    read_map open_reply_value (record { handle = none; size = none }) (λ s. both s.handle s.size)

unfoldable pub decode_open_reply : List ℕ → Option (ℕ × ℕ)
decode_open_reply payload = decode read_open_reply payload

unfoldable pub encode_read_request : ℕ → ℕ → ℕ → List ℕ
encode_read_request handle offset length =
    map_header 3
    ++ (write_text (codes "handle")
        ++ (write_uint handle
            ++ (write_text (codes "length")
                ++ (write_uint length ++ (write_text (codes "offset") ++ write_uint offset)))))

pub record ReadFields : Type 0 where
  pub handle : Option ℕ
  pub offset : Option ℕ
  pub length : Option ℕ

abbrev pub fits_read : ℕ → Bool
fits_read v = leb v max_read_length

abbrev pub read_value : ReadFields → List ℕ → M ReadFields
read_value s key =
    if bytes_eq key (codes "handle")
    then once s.handle (store read_uint any (λ v. record s { handle = some v }))
    else if bytes_eq key (codes "offset")
    then once s.offset (store read_uint any (λ v. record s { offset = some v }))
    else if bytes_eq key (codes "length")
    then once s.length (store read_uint fits_read (λ v. record s { length = some v }))
    else ignore s

abbrev pub read_read_request : M (ℕ × ℕ × ℕ)
read_read_request =
    read_map read_value (record { handle = none; offset = none; length = none })
      (λ s. all_three s.handle s.offset s.length)

unfoldable pub decode_read_request : List ℕ → Option (ℕ × ℕ × ℕ)
decode_read_request payload = decode read_read_request payload

unfoldable pub encode_read_reply : List ℕ → List ℕ
encode_read_reply bytes = map_header 1 ++ (write_text (codes "data") ++ write_bytes bytes)

abbrev pub read_reply_value : Option (List ℕ) → List ℕ → M (Option (List ℕ))
read_reply_value s key =
    if bytes_eq key (codes "data")
    then once s (store read_bytes (at_most max_read_length) some)
    else ignore s

abbrev pub read_read_reply : M (List ℕ)
read_read_reply = read_map read_reply_value none (λ s. s)

unfoldable pub decode_read_reply : List ℕ → Option (List ℕ)
decode_read_reply payload = decode read_read_reply payload

unfoldable pub encode_write_request : ℕ → ℕ → List ℕ → List ℕ
encode_write_request handle offset bytes =
    map_header 3
    ++ (write_text (codes "data")
        ++ (write_bytes bytes
            ++ (write_text (codes "handle")
                ++ (write_uint handle ++ (write_text (codes "offset") ++ write_uint offset)))))

pub record WriteFields : Type 0 where
  pub handle : Option ℕ
  pub offset : Option ℕ
  pub bytes : Option (List ℕ)

abbrev pub write_value : WriteFields → List ℕ → M WriteFields
write_value s key =
    if bytes_eq key (codes "handle")
    then once s.handle (store read_uint any (λ v. record s { handle = some v }))
    else if bytes_eq key (codes "offset")
    then once s.offset (store read_uint any (λ v. record s { offset = some v }))
    else if bytes_eq key (codes "data")
    then once s.bytes
        (store read_bytes (at_most max_write_length) (λ d. record s { bytes = some d }))
    else ignore s

abbrev pub read_write_request : M (ℕ × ℕ × List ℕ)
read_write_request =
    read_map write_value (record { handle = none; offset = none; bytes = none })
      (λ s. all_three s.handle s.offset s.bytes)

unfoldable pub decode_write_request : List ℕ → Option (ℕ × ℕ × List ℕ)
decode_write_request payload = decode read_write_request payload

-- The payloads of one number: WRITE's reply and CLOSE's request.
abbrev pub number_value : List ℕ → Option ℕ → List ℕ → M (Option ℕ)
number_value name s key = if bytes_eq key name then once s (store read_uint any some) else ignore s

unfoldable pub encode_write_reply : ℕ → List ℕ
encode_write_reply written = map_header 1 ++ (write_text (codes "written") ++ write_uint written)

unfoldable pub decode_write_reply : List ℕ → Option ℕ
decode_write_reply payload =
    decode (read_map (number_value (codes "written")) none (λ s. s)) payload

unfoldable pub encode_close_request : ℕ → List ℕ
encode_close_request handle = map_header 1 ++ (write_text (codes "handle") ++ write_uint handle)

unfoldable pub decode_close_request : List ℕ → Option ℕ
decode_close_request payload =
    decode (read_map (number_value (codes "handle")) none (λ s. s)) payload

unfoldable pub encode_ok : List ℕ
encode_ok = map_header 0

-- Every entry is skipped, its key read as text.
abbrev pub ok_value : Unit {0} → List ℕ → M (Unit {0})
ok_value s key = ignore s

unfoldable pub decode_ok : List ℕ → Option (Unit {0})
decode_ok payload = decode (read_map ok_value tt some) payload

abbrev pub make_open_request : List ℕ → ℕ → ℕ → Frame
make_open_request path mode request_id =
    message MessageType.open_file request_id (encode_open_request path mode)

abbrev pub make_open_reply : ℕ → ℕ → ℕ → Frame
make_open_reply handle size request_id =
    message MessageType.open_file request_id (encode_open_reply handle size)

abbrev pub make_read_request : ℕ → ℕ → ℕ → ℕ → Frame
make_read_request handle offset length request_id =
    message MessageType.read request_id (encode_read_request handle offset length)

abbrev pub make_read_reply : List ℕ → ℕ → Frame
make_read_reply bytes request_id = message MessageType.read request_id (encode_read_reply bytes)

abbrev pub make_write_request : ℕ → ℕ → List ℕ → ℕ → Frame
make_write_request handle offset bytes request_id =
    message MessageType.write_message request_id (encode_write_request handle offset bytes)

abbrev pub make_write_reply : ℕ → ℕ → Frame
make_write_reply written request_id =
    message MessageType.write_message request_id (encode_write_reply written)

abbrev pub make_close_request : ℕ → ℕ → Frame
make_close_request handle request_id =
    message MessageType.close request_id (encode_close_request handle)

abbrev pub make_close_reply : ℕ → Frame
make_close_reply request_id = message MessageType.close request_id encode_ok
