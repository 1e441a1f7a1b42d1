-- ===== src/Wire/Query/Bounds.antt =====
-- What the decoders of query messages accept, on any payload.
use campiello.Common.{ℕ, ◌≤◌, ◌≡◌, Bool, Option, none, some, List, length, arith, bytes_eq}
use campiello.Common.Text.{codes}
use campiello.Wire.Cbor.Reader.{read_uint, read_bool, read_text}
use campiello.Wire.Fields.{at_most, any, all_three, both}
use campiello.Wire.Fields.Post.{
  Post, Held, Post-if, Post-ignore, Post-once, Post-read, Post-map, decode-Post,
}
use campiello.Wire.Arrays.{AllWithin, Post-items, read_items}
use campiello.Wire.Listing.{Entry, max_entries_per_reply, read_entry}
use campiello.Wire.Listing.Bounds.{BoundedEntry, Listed, read_entry-Post}
use campiello.Wire.Query.{
  QueryOpenFields, QueryResultFields, QueryUpdateFields, max_query_bytes, query_open_value,
  read_query_open_request, decode_query_open_request, query_result_value, no_query_result,
  read_query_result_reply, decode_query_result_reply, query_update_value, no_query_update,
  read_query_update, decode_query_update,
}

Short : List ℕ → Type 0
Short query = length query ≤ max_query_bytes

ShortHeld : QueryOpenFields → Type 0
ShortHeld s = Held Short s.query

query_open_value-Post :
    (s : QueryOpenFields) (key : List ℕ) → ShortHeld s → Post (query_open_value s key) ShortHeld
unfolding ShortHeld Short
query_open_value-Post s key h =
    Post-if ShortHeld (bytes_eq key (codes "query")) _ _
      (Post-once ShortHeld s.query read_text (at_most max_query_bytes) _ (λ q t. ground arith))
      (Post-if ShortHeld (bytes_eq key (codes "queryId")) _ _
        (Post-once ShortHeld s.id read_uint any _ (λ v t. h)) (Post-ignore ShortHeld s h))

ShortQuery : (ℕ × List ℕ) → Type 0
ShortQuery a = Short a.1

both-Held : (i : Option ℕ) (q : Option (List ℕ)) → Held Short q → Held ShortQuery (both i q)
unfolding ShortQuery
both-Held none q h = tt
both-Held (some i) none h = tt
both-Held (some i) (some q) h = h

ListedHeld : QueryResultFields → Type 0
ListedHeld s = Held Listed s.entries

query_result_value-Post :
    (s : QueryResultFields) (key : List ℕ)
    → ListedHeld s
    → Post (query_result_value s key) ListedHeld
unfolding ListedHeld Listed
query_result_value-Post s key h =
    Post-if ListedHeld (bytes_eq key (codes "done")) _ _
      (Post-once ListedHeld s.done read_bool any _ (λ v t. h))
      (Post-if ListedHeld (bytes_eq key (codes "entries")) _ _
        (Post-read ListedHeld Listed s.entries (read_items max_entries_per_reply read_entry) any _
          (Post-items BoundedEntry read_entry read_entry-Post max_entries_per_reply) (λ a q t. q))
        (Post-if ListedHeld (bytes_eq key (codes "queryId")) _ _
          (Post-once ListedHeld s.id read_uint any _ (λ v t. h)) (Post-ignore ListedHeld s h)))

ListedResult : (ℕ × List Entry × Bool) → Type 0
ListedResult a = Listed a.1

result-Held :
    (i : Option ℕ) (e : Option (List Entry)) (d : Option Bool)
    → Held Listed e
    → Held ListedResult (all_three i e d)
unfolding ListedResult
result-Held none e d h = tt
result-Held (some i) none d h = tt
result-Held (some i) (some e) none h = tt
result-Held (some i) (some e) (some d) h = h

UpdateHeld : QueryUpdateFields → Type 0
UpdateHeld s = Held BoundedEntry s.entry

query_update_value-Post :
    (s : QueryUpdateFields) (key : List ℕ)
    → UpdateHeld s
    → Post (query_update_value s key) UpdateHeld
unfolding UpdateHeld
query_update_value-Post s key h =
    Post-if UpdateHeld (bytes_eq key (codes "added")) _ _
      (Post-once UpdateHeld s.added read_bool any _ (λ v t. h))
      (Post-if UpdateHeld (bytes_eq key (codes "entry")) _ _
        (Post-read UpdateHeld BoundedEntry s.entry read_entry any _ read_entry-Post (λ a q t. q))
        (Post-if UpdateHeld (bytes_eq key (codes "queryId")) _ _
          (Post-once UpdateHeld s.id read_uint any _ (λ v t. h)) (Post-ignore UpdateHeld s h)))

BoundedUpdate : (ℕ × Bool × Entry) → Type 0
BoundedUpdate a = BoundedEntry a.2

update-Held :
    (i : Option ℕ) (d : Option Bool) (e : Option Entry)
    → Held BoundedEntry e
    → Held BoundedUpdate (all_three i d e)
unfolding BoundedUpdate
update-Held none d e h = tt
update-Held (some i) none e h = tt
update-Held (some i) (some d) none h = tt
update-Held (some i) (some d) (some e) h = h

-- Whatever the payloads, the query of an accepted QUERY_OPEN has at most 4096 bytes, an accepted
-- QUERY_RESULT has at most 65536 entries, and each of them and the entry of an accepted QUERY_UPDATE
-- has a name of 1 to 255 bytes, a mode that fits a uint32_t and attributes within their bounds.
pub decode_query-bounds :
    (ask batch update : List ℕ) (i j k : ℕ) (query : List ℕ) (entries : List Entry)
    (done added : Bool) (entry : Entry)
    → decode_query_open_request ask ≡ some (i, query)
    → decode_query_result_reply batch ≡ some (j, entries, done)
    → decode_query_update update ≡ some (k, added, entry)
    → (length query ≤ max_query_bytes)
      × AllWithin BoundedEntry max_entries_per_reply entries
      × BoundedEntry entry
unfolding decode_query_open_request decode_query_result_reply decode_query_update ShortHeld Short
    ListedHeld UpdateHeld ShortQuery ListedResult BoundedUpdate Listed
decode_query-bounds ask batch update i j k query entries done added entry a b c = (
  decode-Post ShortQuery read_query_open_request ask (i, query)
      (Post-map ShortHeld ShortQuery query_open_value _ _ query_open_value-Post tt
        (λ s h. both-Held s.id s.query h))
      a,
  decode-Post ListedResult read_query_result_reply batch (j, entries, done)
      (Post-map ListedHeld ListedResult query_result_value no_query_result _ query_result_value-Post
        tt (λ s h. result-Held s.id s.entries s.done h))
      b,
  decode-Post BoundedUpdate read_query_update update (k, added, entry)
      (Post-map UpdateHeld BoundedUpdate query_update_value no_query_update _
        query_update_value-Post tt (λ s h. update-Held s.id s.added s.entry h))
      c,
)
