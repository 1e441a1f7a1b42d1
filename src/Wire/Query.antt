-- ===== src/Wire/Query.antt =====
-- src/traghetto/wire/Query.h and Query.cpp: QUERY_OPEN, QUERY_RESULT, QUERY_UPDATE and QUERY_CLOSE. A
-- decoder returns what the source stores in its out parameters, in their order.
pub mod Messages
pub mod Bounds
use campiello.Common.{ℕ, Bool, Option, none, some, List, ◌++◌, if◌then◌else◌, bytes_eq, length}
use campiello.Common.Text.{codes}
use campiello.Wire.Cbor.Monad.{M}
use campiello.Wire.Cbor.Writer.{write_uint, write_bool, write_text, map_header, array_header}
use campiello.Wire.Cbor.Reader.{read_uint, read_bool, read_text}
use campiello.Wire.MessageType
use campiello.Wire.Frame.{Frame, message}
use campiello.Wire.Fields.{once, store, any, ignore, read_map, decode, both, all_three, at_most}
use campiello.Wire.Arrays.{read_items, write_items}
use campiello.Wire.FileOps.{number_value}
use campiello.Wire.Listing.{Entry, max_entries_per_reply, write_entry, read_entry}

abbrev pub max_query_bytes : ℕ
max_query_bytes = 4096

unfoldable pub encode_query_open_request : ℕ → List ℕ → List ℕ
encode_query_open_request id query =
    map_header 2
    ++ (write_text (codes "query")
        ++ (write_text query ++ (write_text (codes "queryId") ++ write_uint id)))

pub record QueryOpenFields : Type 0 where
  pub query : Option (List ℕ)
  pub id : Option ℕ

abbrev pub query_open_value : QueryOpenFields → List ℕ → M QueryOpenFields
query_open_value s key =
    if bytes_eq key (codes "query")
    then once s.query (store read_text (at_most max_query_bytes) (λ q. record s { query = some q }))
    else if bytes_eq key (codes "queryId")
    then once s.id (store read_uint any (λ v. record s { id = some v }))
    else ignore s

abbrev pub read_query_open_request : M (ℕ × List ℕ)
read_query_open_request =
    read_map query_open_value (record { query = none; id = none }) (λ s. both s.id s.query)

unfoldable pub decode_query_open_request : List ℕ → Option (ℕ × List ℕ)
decode_query_open_request payload = decode read_query_open_request payload

unfoldable pub encode_query_result_reply : ℕ → List Entry → Bool → List ℕ
encode_query_result_reply id entries done =
    map_header 3
    ++ (write_text (codes "done")
        ++ (write_bool done
            ++ (write_text (codes "entries")
                ++ ((array_header (length entries) ++ write_items write_entry entries)
                    ++ (write_text (codes "queryId") ++ write_uint id)))))

pub record QueryResultFields : Type 0 where
  pub done : Option Bool
  pub entries : Option (List Entry)
  pub id : Option ℕ

abbrev pub query_result_value : QueryResultFields → List ℕ → M QueryResultFields
query_result_value s key =
    if bytes_eq key (codes "done")
    then once s.done (store read_bool any (λ d. record s { done = some d }))
    else if bytes_eq key (codes "entries")
    then once s.entries (
        store (read_items max_entries_per_reply read_entry) any
          (λ e. record s { entries = some e }))
    else if bytes_eq key (codes "queryId")
    then once s.id (store read_uint any (λ v. record s { id = some v }))
    else ignore s

abbrev pub no_query_result : QueryResultFields
no_query_result = record { done = none; entries = none; id = none }

abbrev pub read_query_result_reply : M (ℕ × List Entry × Bool)
read_query_result_reply =
    read_map query_result_value no_query_result (λ s. all_three s.id s.entries s.done)

unfoldable pub decode_query_result_reply : List ℕ → Option (ℕ × List Entry × Bool)
decode_query_result_reply payload = decode read_query_result_reply payload

unfoldable pub encode_query_update : ℕ → Bool → Entry → List ℕ
encode_query_update id added entry =
    map_header 3
    ++ (write_text (codes "added")
        ++ (write_bool added
            ++ (write_text (codes "entry")
                ++ (write_entry entry ++ (write_text (codes "queryId") ++ write_uint id)))))

pub record QueryUpdateFields : Type 0 where
  pub added : Option Bool
  pub entry : Option Entry
  pub id : Option ℕ

abbrev pub query_update_value : QueryUpdateFields → List ℕ → M QueryUpdateFields
query_update_value s key =
    if bytes_eq key (codes "added")
    then once s.added (store read_bool any (λ d. record s { added = some d }))
    else if bytes_eq key (codes "entry")
    then once s.entry (store read_entry any (λ e. record s { entry = some e }))
    else if bytes_eq key (codes "queryId")
    then once s.id (store read_uint any (λ v. record s { id = some v }))
    else ignore s

abbrev pub no_query_update : QueryUpdateFields
no_query_update = record { added = none; entry = none; id = none }

abbrev pub read_query_update : M (ℕ × Bool × Entry)
read_query_update =
    read_map query_update_value no_query_update (λ s. all_three s.id s.added s.entry)

unfoldable pub decode_query_update : List ℕ → Option (ℕ × Bool × Entry)
decode_query_update payload = decode read_query_update payload

unfoldable pub encode_query_close_request : ℕ → List ℕ
encode_query_close_request id = map_header 1 ++ (write_text (codes "queryId") ++ write_uint id)

unfoldable pub decode_query_close_request : List ℕ → Option ℕ
decode_query_close_request payload =
    decode (read_map (number_value (codes "queryId")) none (λ s. s)) payload

abbrev pub make_query_open_request : ℕ → List ℕ → ℕ → Frame
make_query_open_request id query request_id =
    message MessageType.query_open request_id (encode_query_open_request id query)

abbrev pub make_query_result_reply : ℕ → List Entry → Bool → ℕ → Frame
make_query_result_reply id entries done request_id =
    message MessageType.query_result request_id (encode_query_result_reply id entries done)

abbrev pub make_query_update : ℕ → Bool → Entry → ℕ → Frame
make_query_update id added entry request_id =
    message MessageType.query_update request_id (encode_query_update id added entry)

abbrev pub make_query_close_request : ℕ → ℕ → Frame
make_query_close_request id request_id =
    message MessageType.query_close request_id (encode_query_close_request id)

abbrev pub make_query_close_reply : ℕ → Frame
make_query_close_reply request_id = message MessageType.query_close request_id (map_header 0)
