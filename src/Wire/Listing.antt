-- ===== src/Wire/Listing.antt =====
-- src/traghetto/wire/Listing.h and Listing.cpp: stats, directory entries, and the payloads of STAT and
-- LIST.
pub mod RoundTrip
pub mod Bounds
use campiello.Common.{ℕ, Option, none, some, List, ◌++◌, if◌then◌else◌, bytes_eq, length}
use campiello.Common.Int.{ℤ}
use campiello.Common.Text.{codes}
use campiello.Wire.Cbor.Monad.{M}
use campiello.Wire.Cbor.Writer.{write_uint, write_int, write_text, map_header, array_header}
use campiello.Wire.Cbor.Reader.{read_uint, read_int, read_text}
use campiello.Wire.MessageType
use campiello.Wire.Frame.{Frame, message}
use campiello.Wire.Fields.{
  once, store, any, ignore, read_map, decode, both, all_three, within, fits_u32,
}
use campiello.Wire.Arrays.{read_items, write_items}
use campiello.Wire.FileOps.{max_path_bytes}
use campiello.Wire.Attributes.{Attr, write_attr_set, read_attr_set}

abbrev pub max_entry_name_bytes : ℕ
max_entry_name_bytes = 255

abbrev pub max_entries_per_reply : ℕ
max_entries_per_reply = 65536

pub record Stat : Type 0 where
  pub mode : ℕ
  pub size : ℕ
  pub mtime : ℤ
  pub crtime : ℤ
  pub inode : ℕ

pub record Entry : Type 0 where
  pub name : List ℕ
  pub stat : Stat
  pub attrs : List Attr

unfoldable pub write_stat : Stat → List ℕ
write_stat s =
    map_header 5
    ++ (write_text (codes "m")
        ++ (write_uint s.mode
            ++ (write_text (codes "ct")
                ++ (write_int s.crtime
                    ++ (write_text (codes "mt")
                        ++ (write_int s.mtime
                            ++ (write_text (codes "sz")
                                ++ (write_uint s.size
                                    ++ (write_text (codes "ino") ++ write_uint s.inode)))))))))

pub record StatFields : Type 0 where
  pub mode : Option ℕ
  pub size : Option ℕ
  pub mtime : Option ℤ
  pub crtime : Option ℤ
  pub inode : Option ℕ

abbrev pub stat_value : StatFields → List ℕ → M StatFields
stat_value s key =
    if bytes_eq key (codes "m")
    then once s.mode (store read_uint fits_u32 (λ v. record s { mode = some v }))
    else if bytes_eq key (codes "sz")
    then once s.size (store read_uint any (λ v. record s { size = some v }))
    else if bytes_eq key (codes "mt")
    then once s.mtime (store read_int any (λ v. record s { mtime = some v }))
    else if bytes_eq key (codes "ct")
    then once s.crtime (store read_int any (λ v. record s { crtime = some v }))
    else if bytes_eq key (codes "ino")
    then once s.inode (store read_uint any (λ v. record s { inode = some v }))
    else ignore s

abbrev pub stat_of : Option (ℕ × ℕ × ℤ) → Option (ℤ × ℕ) → Option Stat
stat_of none rest = none
stat_of (some (m, sz, mt)) none = none
stat_of (some (m, sz, mt)) (some (ct, ino)) =
    some (record { mode = m; size = sz; mtime = mt; crtime = ct; inode = ino })

abbrev pub no_stat : StatFields
no_stat = record { mode = none; size = none; mtime = none; crtime = none; inode = none }

abbrev pub finish_stat : StatFields → Option Stat
finish_stat s = stat_of (all_three s.mode s.size s.mtime) (both s.crtime s.inode)

unfoldable pub read_stat : M Stat
read_stat = read_map stat_value no_stat finish_stat

unfoldable pub write_entry : Entry → List ℕ
write_entry e =
    map_header 3
    ++ (write_text (codes "name")
        ++ (write_text e.name
            ++ (write_text (codes "stat")
                ++ (write_stat e.stat ++ (write_text (codes "attrs") ++ write_attr_set e.attrs)))))

pub record EntryFields : Type 0 where
  pub name : Option (List ℕ)
  pub stat : Option Stat
  pub attrs : Option (List Attr)

abbrev pub entry_value : EntryFields → List ℕ → M EntryFields
entry_value s key =
    if bytes_eq key (codes "name")
    then once s.name
        (store read_text (within max_entry_name_bytes) (λ n. record s { name = some n }))
    else if bytes_eq key (codes "stat")
    then once s.stat (store read_stat any (λ t. record s { stat = some t }))
    else if bytes_eq key (codes "attrs")
    then once s.attrs (store read_attr_set any (λ a. record s { attrs = some a }))
    else ignore s

abbrev pub entry_of : Option (List ℕ × Stat × List Attr) → Option Entry
entry_of none = none
entry_of (some (n, t, a)) = some (record { name = n; stat = t; attrs = a })

abbrev pub no_entry : EntryFields
no_entry = record { name = none; stat = none; attrs = none }

unfoldable pub read_entry : M Entry
read_entry = read_map entry_value no_entry (λ s. entry_of (all_three s.name s.stat s.attrs))

unfoldable pub encode_path_request : List ℕ → List ℕ
encode_path_request path = map_header 1 ++ (write_text (codes "path") ++ write_text path)

abbrev pub path_value : Option (List ℕ) → List ℕ → M (Option (List ℕ))
path_value s key =
    if bytes_eq key (codes "path")
    then once s (store read_text (within max_path_bytes) some)
    else ignore s

abbrev pub read_path_request : M (List ℕ)
read_path_request = read_map path_value none (λ s. s)

unfoldable pub decode_path_request : List ℕ → Option (List ℕ)
decode_path_request payload = decode read_path_request payload

unfoldable pub encode_stat_reply : Entry → List ℕ
encode_stat_reply entry = write_entry entry

unfoldable pub decode_stat_reply : List ℕ → Option Entry
decode_stat_reply payload = decode read_entry payload

unfoldable pub encode_listing : List Entry → List ℕ
encode_listing entries =
    map_header 1
    ++ (write_text (codes "entries")
        ++ (array_header (length entries) ++ write_items write_entry entries))

abbrev pub listing_value : Option (List Entry) → List ℕ → M (Option (List Entry))
listing_value s key =
    if bytes_eq key (codes "entries")
    then once s (store (read_items max_entries_per_reply read_entry) any some)
    else ignore s

abbrev pub read_listing : M (List Entry)
read_listing = read_map listing_value none (λ s. s)

unfoldable pub decode_listing : List ℕ → Option (List Entry)
decode_listing payload = decode read_listing payload

abbrev pub make_stat_request : List ℕ → ℕ → Frame
make_stat_request path request_id =
    message MessageType.stat_message request_id (encode_path_request path)

abbrev pub make_stat_reply : Entry → ℕ → Frame
make_stat_reply entry request_id =
    message MessageType.stat_message request_id (encode_stat_reply entry)

abbrev pub make_list_request : List ℕ → ℕ → Frame
make_list_request path request_id = message MessageType.list request_id (encode_path_request path)

abbrev pub make_list_reply : List Entry → ℕ → Frame
make_list_reply entries request_id = message MessageType.list request_id (encode_listing entries)
