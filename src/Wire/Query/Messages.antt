-- ===== src/Wire/Query/Messages.antt =====
-- The query messages are read as they were written.
use campiello.Common.{ℕ, ◌≤◌, ◌≡◌, refl, Bool, some, List, length, arith, All}
use campiello.Common.Text.{codes}
use campiello.Wire.Cbor.Head.{uint-Reads, bool-Reads, text-Reads, IsU64}
use campiello.Wire.Fields.{at_most, any}
use campiello.Wire.Fields.Encoded.{Entries-last, Entries-cons, Reads-map, Reads-once, decode-Reads}
use campiello.Wire.Arrays.{Reads-items}
use campiello.Wire.FileOps.{number_value}
use campiello.Wire.Listing.{Entry, max_entries_per_reply, write_entry, read_entry}
use campiello.Wire.Listing.RoundTrip.{IsEntry, entry-Reads}
use campiello.Wire.Query.{
  max_query_bytes, encode_query_open_request, query_open_value, decode_query_open_request,
  encode_query_result_reply, query_result_value, decode_query_result_reply, encode_query_update,
  query_update_value, decode_query_update, encode_query_close_request, decode_query_close_request,
}

-- QUERY_OPEN and QUERY_CLOSE requests, a batch of at most 65536 entries and an update are decoded to
-- the query id, the query of at most 4096 bytes, the entries and the flag that were encoded, for a
-- query id that is a uint64_t and entries with a name of 1 to 255 bytes, numbers that fit their types and
-- an attribute set that the protocol can carry.
pub decode-encode_query :
    (id : ℕ) (query : List ℕ) (entry : Entry) (entries : List Entry) (flag : Bool)
    → IsU64 id
    → length query ≤ max_query_bytes
    → IsEntry entry
    → All IsEntry entries
    → length entries ≤ max_entries_per_reply
    → (decode_query_open_request (encode_query_open_request id query) ≡ some (id, query))
      × (decode_query_result_reply (encode_query_result_reply id entries flag)
          ≡ some (id, entries, flag))
      × (decode_query_update (encode_query_update id flag entry) ≡ some (id, flag, entry))
      × (decode_query_close_request (encode_query_close_request id) ≡ some id)
unfolding decode_query_open_request encode_query_open_request decode_query_result_reply
    encode_query_result_reply decode_query_update encode_query_update decode_query_close_request
    encode_query_close_request
decode-encode_query id query entry entries flag u q h each count = (
  decode-Reads _ (
      Reads-map query_open_value _ (omega arith)
        (Entries-cons query_open_value (codes "query") (omega arith)
          (Reads-once _ (at_most max_query_bytes) (ground arith) (text-Reads query (omega arith)))
          (Entries-last query_open_value (codes "queryId") (omega arith)
            (Reads-once _ any refl (uint-Reads id u))))
        refl),
  decode-Reads _ (
      Reads-map query_result_value _ (omega arith)
        (Entries-cons query_result_value (codes "done") (omega arith)
          (Reads-once _ any refl (bool-Reads flag))
          (Entries-cons query_result_value (codes "entries") (omega arith)
            (Reads-once _ any refl (
              Reads-items IsEntry write_entry read_entry entry-Reads max_entries_per_reply entries
                each count (omega arith)))
            (Entries-last query_result_value (codes "queryId") (omega arith)
              (Reads-once _ any refl (uint-Reads id u)))))
        refl),
  decode-Reads _ (
      Reads-map query_update_value _ (omega arith)
        (Entries-cons query_update_value (codes "added") (omega arith)
          (Reads-once _ any refl (bool-Reads flag))
          (Entries-cons query_update_value (codes "entry") (omega arith)
            (Reads-once _ any refl (entry-Reads entry h).0)
            (Entries-last query_update_value (codes "queryId") (omega arith)
              (Reads-once _ any refl (uint-Reads id u)))))
        refl),
  decode-Reads _ (
      Reads-map (number_value (codes "queryId")) _ (omega arith)
        (Entries-last (number_value (codes "queryId")) (codes "queryId") (omega arith)
          (Reads-once _ any refl (uint-Reads id u)))
        refl),
)
