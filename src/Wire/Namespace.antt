-- ===== src/Wire/Namespace.antt =====
-- src/traghetto/wire/Namespace.cpp: MKDIR, RENAME and TRUNCATE; UNLINK has the path request of Listing.
pub mod Messages
use campiello.Common.{ℕ, Option, none, some, List, ◌++◌, if◌then◌else◌, bytes_eq}
use campiello.Common.Text.{codes}
use campiello.Wire.Cbor.Monad.{M}
use campiello.Wire.Cbor.Writer.{write_uint, write_text, map_header}
use campiello.Wire.Cbor.Reader.{read_uint, read_text}
use campiello.Wire.MessageType
use campiello.Wire.Frame.{Frame, message}
use campiello.Wire.Fields.{once, store, any, ignore, read_map, decode, both, within, fits_u32}
use campiello.Wire.FileOps.{max_path_bytes, encode_ok}
use campiello.Wire.Listing.{encode_path_request}

unfoldable pub encode_mkdir_request : List ℕ → ℕ → List ℕ
encode_mkdir_request path mode =
    map_header 2
    ++ (write_text (codes "mode")
        ++ (write_uint mode ++ (write_text (codes "path") ++ write_text path)))

pub record MkdirFields : Type 0 where
  pub mode : Option ℕ
  pub path : Option (List ℕ)

abbrev pub mkdir_value : MkdirFields → List ℕ → M MkdirFields
mkdir_value s key =
    if bytes_eq key (codes "mode")
    then once s.mode (store read_uint fits_u32 (λ v. record s { mode = some v }))
    else if bytes_eq key (codes "path")
    then once s.path (store read_text (within max_path_bytes) (λ p. record s { path = some p }))
    else ignore s

abbrev pub read_mkdir_request : M (List ℕ × ℕ)
read_mkdir_request =
    read_map mkdir_value (record { mode = none; path = none }) (λ s. both s.path s.mode)

unfoldable pub decode_mkdir_request : List ℕ → Option (List ℕ × ℕ)
decode_mkdir_request payload = decode read_mkdir_request payload

unfoldable pub encode_rename_request : List ℕ → List ℕ → List ℕ
encode_rename_request from to =
    map_header 2
    ++ (write_text (codes "to")
        ++ (write_text to ++ (write_text (codes "from") ++ write_text from)))

pub record RenameFields : Type 0 where
  pub from : Option (List ℕ)
  pub to : Option (List ℕ)

abbrev pub rename_value : RenameFields → List ℕ → M RenameFields
rename_value s key =
    if bytes_eq key (codes "from")
    then once s.from (store read_text (within max_path_bytes) (λ f. record s { from = some f }))
    else if bytes_eq key (codes "to")
    then once s.to (store read_text (within max_path_bytes) (λ t. record s { to = some t }))
    else ignore s

abbrev pub read_rename_request : M (List ℕ × List ℕ)
read_rename_request =
    read_map rename_value (record { from = none; to = none }) (λ s. both s.from s.to)

unfoldable pub decode_rename_request : List ℕ → Option (List ℕ × List ℕ)
decode_rename_request payload = decode read_rename_request payload

unfoldable pub encode_truncate_request : List ℕ → ℕ → List ℕ
encode_truncate_request path size =
    map_header 2
    ++ (write_text (codes "path")
        ++ (write_text path ++ (write_text (codes "size") ++ write_uint size)))

pub record TruncateFields : Type 0 where
  pub path : Option (List ℕ)
  pub size : Option ℕ

abbrev pub truncate_value : TruncateFields → List ℕ → M TruncateFields
truncate_value s key =
    if bytes_eq key (codes "path")
    then once s.path (store read_text (within max_path_bytes) (λ p. record s { path = some p }))
    else if bytes_eq key (codes "size")
    then once s.size (store read_uint any (λ v. record s { size = some v }))
    else ignore s

abbrev pub read_truncate_request : M (List ℕ × ℕ)
read_truncate_request =
    read_map truncate_value (record { path = none; size = none }) (λ s. both s.path s.size)

unfoldable pub decode_truncate_request : List ℕ → Option (List ℕ × ℕ)
decode_truncate_request payload = decode read_truncate_request payload

abbrev pub make_mkdir_request : List ℕ → ℕ → ℕ → Frame
make_mkdir_request path mode request_id =
    message MessageType.mkdir request_id (encode_mkdir_request path mode)

abbrev pub make_unlink_request : List ℕ → ℕ → Frame
make_unlink_request path request_id =
    message MessageType.unlink request_id (encode_path_request path)

abbrev pub make_rename_request : List ℕ → List ℕ → ℕ → Frame
make_rename_request from to request_id =
    message MessageType.rename request_id (encode_rename_request from to)

abbrev pub make_truncate_request : List ℕ → ℕ → ℕ → Frame
make_truncate_request path size request_id =
    message MessageType.truncate request_id (encode_truncate_request path size)

abbrev pub make_mkdir_reply : ℕ → Frame
make_mkdir_reply request_id = message MessageType.mkdir request_id encode_ok

abbrev pub make_unlink_reply : ℕ → Frame
make_unlink_reply request_id = message MessageType.unlink request_id encode_ok

abbrev pub make_rename_reply : ℕ → Frame
make_rename_reply request_id = message MessageType.rename request_id encode_ok

abbrev pub make_truncate_reply : ℕ → Frame
make_truncate_reply request_id = message MessageType.truncate request_id encode_ok
