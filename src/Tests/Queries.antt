-- ===== src/Tests/Queries.antt =====
-- The query messages at concrete queries.
use campiello.Common.{ℕ, ◌≡◌, true, some, List, [], ◌∷◌, arith}
use campiello.Common.Int.{pos, negsuc}
use campiello.Common.Text.{codes}
use campiello.Wire.Listing.{Entry}
use campiello.Wire.Listing.RoundTrip.{IsEntry}
use campiello.Wire.Query.{
  encode_query_open_request, decode_query_open_request, encode_query_result_reply,
  decode_query_result_reply, encode_query_update, decode_query_update, encode_query_close_request,
  decode_query_close_request,
}
use campiello.Wire.Query.Messages.{decode-encode_query}

abbrev hit : Entry
hit = record {
  name = codes "mail/today";
  stat = record { mode = 0o100644; size = 3; mtime = pos 7; crtime = negsuc 1; inode = 2 };
  attrs = [];
}

hit-IsEntry : IsEntry hit
hit-IsEntry = record {
  named = omega arith;
  short = omega arith;
  stat = record {
    mode = omega arith;
    size = omega arith;
    mtime = omega arith;
    crtime = omega arith;
    inode = omega arith;
  };
  attrs = record { each = tt; count = omega arith };
}

abbrev query : List ℕ
query = codes "MAIL:status=New"

decode-encode_query_example :
    (decode_query_open_request (encode_query_open_request 7 query) ≡ some (7, query))
    × (decode_query_result_reply (encode_query_result_reply 7 (hit ∷ []) true)
        ≡ some (7, hit ∷ [], true))
    × (decode_query_update (encode_query_update 7 true hit) ≡ some (7, true, hit))
    × (decode_query_close_request (encode_query_close_request 7) ≡ some 7)
decode-encode_query_example =
    decode-encode_query 7 query hit (hit ∷ []) true (omega arith) (omega arith) hit-IsEntry
      (hit-IsEntry, tt) (omega arith)
