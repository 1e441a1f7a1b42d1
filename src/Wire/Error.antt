-- ===== src/Wire/Error.antt =====
-- src/traghetto/wire/Error.h and Error.cpp: the ERROR reply.
pub mod Messages
use campiello.Common.{ℕ, Option, none, some, List, [], ◌++◌, if◌then◌else◌, bytes_eq, is_empty}
use campiello.Common.Text.{codes}
use campiello.Wire.Cbor.Monad.{M}
use campiello.Wire.Cbor.Writer.{write_uint, write_text, map_header}
use campiello.Wire.Cbor.Reader.{read_uint, read_text}
use campiello.Wire.Fields.{once, store, ignore, read_map, decode, at_most, fits_u32}
use campiello.Wire.MessageType
use campiello.Wire.Frame.{Frame, message}

abbrev pub max_error_message_bytes : ℕ
max_error_message_bytes = 256

-- `enum class ErrorCode : uint32_t`
pub data ErrorCode : Type 0 where
  internal not_found access_denied not_a_directory is_a_directory invalid_request unsupported
        io_error no_space bad_handle too_many_open :
      ErrorCode

abbrev pub error_number : ErrorCode → ℕ
error_number internal = 1
error_number not_found = 2
error_number access_denied = 3
error_number not_a_directory = 4
error_number is_a_directory = 5
error_number invalid_request = 6
error_number unsupported = 7
error_number io_error = 8
error_number no_space = 9
error_number bad_handle = 10
error_number too_many_open = 11

-- An empty message is left out.
unfoldable pub encode_error : ErrorCode → List ℕ → List ℕ
encode_error code text =
    if is_empty text
    then map_header 1 ++ (write_text (codes "code") ++ write_uint (error_number code))
    else map_header 2
      ++ (write_text (codes "msg")
          ++ (write_text text ++ (write_text (codes "code") ++ write_uint (error_number code))))

pub record ErrorReply : Type 0 where
  pub code : ℕ
  pub text : List ℕ

pub record ErrorFields : Type 0 where
  pub code : Option ℕ
  pub text : Option (List ℕ)

abbrev pub error_value : ErrorFields → List ℕ → M ErrorFields
error_value s key =
    if bytes_eq key (codes "code")
    then once s.code (store read_uint fits_u32 (λ c. record s { code = some c }))
    else if bytes_eq key (codes "msg")
    then once s.text
        (store read_text (at_most max_error_message_bytes) (λ m. record s { text = some m }))
    else ignore s

-- The message is optional, and empty where it is missing.
abbrev pub error_of : Option ℕ → Option (List ℕ) → Option ErrorReply
error_of none text = none
error_of (some c) none = some (record { code = c; text = [] })
error_of (some c) (some m) = some (record { code = c; text = m })

abbrev pub no_error : ErrorFields
no_error = record { code = none; text = none }

abbrev pub read_error : M ErrorReply
read_error = read_map error_value no_error (λ s. error_of s.code s.text)

unfoldable pub decode_error : List ℕ → Option ErrorReply
decode_error payload = decode read_error payload

abbrev pub make_error : ErrorCode → List ℕ → ℕ → Frame
make_error code text request_id =
    message MessageType.error_message request_id (encode_error code text)
