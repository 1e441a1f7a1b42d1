-- ===== src/Fondamenta/CnpBackend.antt =====
-- src/fondamenta/backend/CnpBackend.h and CnpBackend.cpp: the operations on a peer's share, each a request
-- and the reading of its reply. What the channel's Receive returns during a call is a list of frames.
pub mod EndToEnd
pub mod Denied
use campiello.Common.{ℕ, ◌+◌, ◌%◌, ◌^◌, Bool, Option, none, some, List, if◌then◌else◌, ◌==◌}
use campiello.Wire.MessageType
use campiello.Wire.Frame.{Frame}
use campiello.Wire.Error.{
  ErrorReply, not_found, access_denied, not_a_directory, is_a_directory, unsupported, io_error,
  bad_handle, invalid_request, error_number, decode_error,
}
use campiello.Wire.FileOps.{
  decode_open_reply, decode_read_reply, decode_write_reply, decode_ok, make_open_request,
  make_read_request, make_write_request, make_close_request,
}
use campiello.Wire.Handshake.{NodeIdentity, decode_node_identity, make_hello}
use campiello.Wire.Attributes.{Attr, decode_read_attrs_reply}
use campiello.Wire.AttrOps.{make_read_attrs_request, make_write_attrs_request}
use campiello.Wire.Listing.{
  Entry, decode_stat_reply, decode_listing, make_stat_request, make_list_request,
}
use campiello.Wire.Namespace.{
  make_mkdir_request, make_unlink_request, make_rename_request, make_truncate_request,
}
use campiello.Wire.Query.{
  decode_query_result_reply, make_query_open_request, make_query_close_request,
}
use campiello.Dispatch.{Client, new_client, Requested, replied, failed, request}
use campiello.Fondamenta.PeerBackend.{
  BackendStatus, not_found_status, access_denied_status, not_a_directory_status,
  is_a_directory_status, unsupported_status, io_error_status, bad_handle_status,
  invalid_request_status, transport_error_status, protocol_error_status, BackendResult, ok, status,
}

pub record CnpBackend : Type 0 where
  pub client : Client
  pub next_query_id : ℕ

abbrev pub new_backend : CnpBackend
new_backend = record { client = new_client; next_query_id = 1 }

-- `FromErrorCode`, on the number in the reply.
unfoldable pub from_error_code : ℕ → BackendStatus
from_error_code code =
    if code == error_number not_found
    then not_found_status
    else if code == error_number access_denied
    then access_denied_status
    else if code == error_number not_a_directory
    then not_a_directory_status
    else if code == error_number is_a_directory
    then is_a_directory_status
    else if code == error_number unsupported
    then unsupported_status
    else if code == error_number io_error
    then io_error_status
    else if code == error_number bad_handle
    then bad_handle_status
    else if code == error_number invalid_request
    then invalid_request_status
    else io_error_status

abbrev pub error_status : Option ErrorReply → BackendStatus
error_status none = protocol_error_status
error_status (some reply) = from_error_code reply.code

-- `FromErrorFrame`
unfoldable pub from_error_frame : Frame → BackendStatus
from_error_frame f = error_status (decode_error f.payload)

abbrev pub or_protocol_error : {A : Type 0} → Option A → BackendResult A
or_protocol_error none = status protocol_error_status
or_protocol_error (some a) = ok a

-- What an operation makes of its reply: the type that it expects, and its decoder.
unfoldable pub on_reply : {A : Type 0} → ℕ → (List ℕ → Option A) → Frame → BackendResult A
on_reply type decode f =
    if f.type == MessageType.error_message
    then status (from_error_frame f)
    else if f.type == type
    then or_protocol_error (decode f.payload)
    else status protocol_error_status

abbrev pub with_client : Client → CnpBackend → CnpBackend
with_client c b = record b { client = c }

abbrev pub on_requested :
    {A : Type 0} → ℕ → (List ℕ → Option A) → CnpBackend → Requested → BackendResult A × CnpBackend
on_requested type decode b (failed c) = (status transport_error_status, with_client c b)
on_requested type decode b (replied f incoming c) = (on_reply type decode f, with_client c b)

-- An operation: what the channel sends, what it receives, and the backend.
abbrev pub Operation : Type 0 → Type 0
Operation A = (Frame → Bool) → List Frame → CnpBackend → BackendResult A × CnpBackend

abbrev pub exchange : {A : Type 0} → Frame → ℕ → (List ℕ → Option A) → Operation A
exchange r type decode send incoming b =
    on_requested type decode b (request send r incoming b.client)

-- `Ack`
abbrev pub ack : Frame → ℕ → Operation (Unit {0})
ack r type = exchange r type decode_ok

abbrev pub hello_peer : NodeIdentity → Operation NodeIdentity
hello_peer self = exchange (make_hello self 0) MessageType.welcome decode_node_identity

abbrev pub stat_peer : List ℕ → Operation Entry
stat_peer path = exchange (make_stat_request path 0) MessageType.stat_message decode_stat_reply

abbrev pub read_dir_peer : List ℕ → Operation (List Entry)
read_dir_peer path = exchange (make_list_request path 0) MessageType.list decode_listing

-- kOpenRead
abbrev pub open_peer : List ℕ → Operation (ℕ × ℕ)
open_peer path = exchange (make_open_request path 0x1 0) MessageType.open_file decode_open_reply

abbrev pub read_peer : ℕ → ℕ → ℕ → Operation (List ℕ)
read_peer handle offset length =
    exchange (make_read_request handle offset length 0) MessageType.read decode_read_reply

abbrev pub close_peer : ℕ → Operation (Unit {0})
close_peer handle = ack (make_close_request handle 0) MessageType.close

-- The size in the reply is dropped.
abbrev pub only_handle : Option (ℕ × ℕ) → Option ℕ
only_handle none = none
only_handle (some (handle, size)) = some handle

-- kOpenWrite
abbrev pub open_write_peer : List ℕ → Operation ℕ
open_write_peer path =
    exchange (make_open_request path 0x2 0) MessageType.open_file
      (λ payload. only_handle (decode_open_reply payload))

abbrev pub write_peer : ℕ → ℕ → List ℕ → Operation ℕ
write_peer handle offset bytes =
    exchange (make_write_request handle offset bytes 0) MessageType.write_message decode_write_reply

abbrev pub mkdir_peer : List ℕ → ℕ → Operation (Unit {0})
mkdir_peer path mode = ack (make_mkdir_request path mode 0) MessageType.mkdir

abbrev pub unlink_peer : List ℕ → Operation (Unit {0})
unlink_peer path = ack (make_unlink_request path 0) MessageType.unlink

abbrev pub rename_peer : List ℕ → List ℕ → Operation (Unit {0})
rename_peer source target = ack (make_rename_request source target 0) MessageType.rename

abbrev pub truncate_peer : List ℕ → ℕ → Operation (Unit {0})
truncate_peer path size = ack (make_truncate_request path size 0) MessageType.truncate

abbrev pub read_attrs_peer : List ℕ → Operation (List Attr)
read_attrs_peer path =
    exchange (make_read_attrs_request path 0) MessageType.read_attrs decode_read_attrs_reply

abbrev pub write_attrs_peer : List ℕ → List Attr → Operation (Unit {0})
write_attrs_peer path attrs = ack (make_write_attrs_request path attrs 0) MessageType.write_attrs

-- The result set of the query that was asked for, `done` or not.
abbrev pub query_hits : ℕ → Option (ℕ × List Entry × Bool) → Option (List Entry)
query_hits id none = none
query_hits id (some (reply_id, entries, is_done)) = if reply_id == id then some entries else none

abbrev pub client_behind : Requested → Client
client_behind (failed c) = c
client_behind (replied f incoming c) = c

-- A query that has results is closed; what comes of that is not looked at.
abbrev pub query_closed :
    ℕ
    → (Frame → Bool)
    → List Frame
    → CnpBackend
    → BackendResult (List Entry)
    → BackendResult (List Entry) × CnpBackend
query_closed id send incoming b (status s) = (status s, b)
query_closed id send incoming b (ok entries) = (
  ok entries,
  with_client (client_behind (request send (make_query_close_request id 0) incoming b.client)) b,
)

abbrev pub query_requested :
    ℕ → (Frame → Bool) → CnpBackend → Requested → BackendResult (List Entry) × CnpBackend
query_requested id send b (failed c) = (status transport_error_status, with_client c b)
query_requested id send b (replied f incoming c) = query_closed id send incoming (with_client c b) (
    on_reply MessageType.query_result (λ payload. query_hits id (decode_query_result_reply payload))
      f)

-- `Query`
unfoldable pub query_peer : List ℕ → Operation (List Entry)
query_peer predicate send incoming b =
    query_requested b.next_query_id send
      (record b { next_query_id = (b.next_query_id + 1) % 2 ^ 64 })
      (request send (make_query_open_request b.next_query_id predicate 0) incoming b.client)
