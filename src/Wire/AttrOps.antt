-- ===== src/Wire/AttrOps.antt =====
-- src/traghetto/wire/AttrOps.cpp: the frame builders of READ_ATTRS and WRITE_ATTRS.
use campiello.Common.{ℕ, List}
use campiello.Wire.MessageType
use campiello.Wire.Frame.{Frame, message}
use campiello.Wire.FileOps.{encode_ok}
use campiello.Wire.Attributes.{Attr, encode_read_attrs_reply, encode_write_attrs_request}
use campiello.Wire.Listing.{encode_path_request}

abbrev pub make_read_attrs_request : List ℕ → ℕ → Frame
make_read_attrs_request path request_id =
    message MessageType.read_attrs request_id (encode_path_request path)

abbrev pub make_read_attrs_reply : List Attr → ℕ → Frame
make_read_attrs_reply attrs request_id =
    message MessageType.read_attrs request_id (encode_read_attrs_reply attrs)

abbrev pub make_write_attrs_request : List ℕ → List Attr → ℕ → Frame
make_write_attrs_request path attrs request_id =
    message MessageType.write_attrs request_id (encode_write_attrs_request path attrs)

abbrev pub make_write_attrs_reply : ℕ → Frame
make_write_attrs_reply request_id = message MessageType.write_attrs request_id encode_ok
