-- ===== src/Bricola/MdnsWire/Onto.antt =====
-- src/bricola/mdns/MdnsWire.cpp, AppendRecord and ParseRecords: records are read as they were written.
use campiello.Common.{
  ℕ, ◌+◌, ◌-◌, ◌/◌, ◌%◌, ◌^◌, ◌≤◌, ◌<◌, ◌≡◌, refl, sym, ap, ◌∙◌, Bool, some, List, [], ◌∷◌, ◌++◌,
  map, length, take, drop, arith, All, append_assoc, append-nil, length-append, length-drop,
  drop-drop, get_or-drop, drop-append, take-append,
}
use campiello.Bricola.MdnsWire.{
  DnsRecord, read_be16, read_be32, append_be16, append_be32, decode_name, parse_records,
  record_named, record_data,
}
use campiello.Bricola.MdnsWire.Records.{OutRecord, class_of, append_record, append_records}
use campiello.Bricola.MdnsWire.Names.{IsLabel, dotted, wire, encode_name-dotted, decode_name-wire}

-- A record as the source builds it, its name given by labels.
pub record NamedRecord : Type 0 where
  pub labels : List (List ℕ)
  pub type : ℕ
  pub ttl : ℕ
  pub cache_flush : Bool
  pub rdata : List ℕ

abbrev pub out_record : NamedRecord → OutRecord
out_record r = record {
  name = dotted r.labels;
  type = r.type;
  ttl = r.ttl;
  cache_flush = r.cache_flush;
  rdata = r.rdata;
}

abbrev pub IsRecord : NamedRecord → Type 0
IsRecord r = All IsLabel r.labels × (r.type < 2 ^ 16) × (r.ttl < 2 ^ 32) × (length r.rdata < 2 ^ 16)

-- The fixed part of a record behind its name, and what follows.
abbrev fixed_onto : NamedRecord → List ℕ → List ℕ
fixed_onto r rest =
    append_be16 r.type
    ++ (append_be16 (class_of r.cache_flush)
        ++ (append_be32 r.ttl ++ (append_be16 (length r.rdata) ++ rest)))

-- The record that a parser makes of what stands at an offset behind a name.
abbrev pub parsed_at : ℕ → List ℕ → NamedRecord → DnsRecord
parsed_at start name r = record {
  name = name;
  type = r.type;
  rrclass = class_of r.cache_flush;
  ttl = r.ttl;
  rdata_offset = start + 10;
  rdata = r.rdata;
}

abbrev pub parsed_record : ℕ → NamedRecord → DnsRecord
parsed_record offset r = parsed_at (offset + length (wire r.labels)) (dotted r.labels) r

abbrev pub record_size : NamedRecord → ℕ
record_size r = length (wire r.labels) + 10 + length r.rdata

abbrev pub parsed_records : ℕ → List NamedRecord → List DnsRecord
parsed_records offset [] = []
parsed_records offset (r ∷ records) =
    parsed_record offset r ∷ parsed_records (offset + record_size r) records

abbrev pub records_size : List NamedRecord → ℕ
records_size [] = 0
records_size (r ∷ records) = record_size r + records_size records

pub read_be16-append :
    (buf : List ℕ) (offset v : ℕ) (after : List ℕ)
    → drop offset buf ≡ append_be16 v ++ after
    → read_be16 buf offset ≡ v % 2 ^ 16
unfolding read_be16 append_be16
read_be16-append buf offset v after e = omega (
  arith,
  get_or-drop offset buf 0 e,
  get_or-drop (offset + 1) buf 0 (drop-drop 1 offset buf ∙ ap (drop 1) e),
)

read_be32-append :
    (buf : List ℕ) (offset v : ℕ) (after : List ℕ)
    → drop offset buf ≡ append_be32 v ++ after
    → read_be32 buf offset ≡ v % 2 ^ 32
unfolding read_be32 append_be32 append_be16
read_be32-append buf offset v after e = omega (
  arith,
  read_be16-append buf offset (v / 65536) _ e,
  read_be16-append buf (offset + 2) v _ (drop-drop 2 offset buf ∙ ap (drop 2) e),
)

-- What stands behind a front that is read.
pub drop-past :
    (front after buf : List ℕ) (offset : ℕ)
    → drop offset buf ≡ front ++ after
    → drop (offset + length front) buf ≡ after
drop-past front after buf offset e =
    drop-drop (length front) offset buf ∙ (ap (drop (length front)) e ∙ drop-append front after)

append_record-onto :
    (r : NamedRecord) (after : List ℕ)
    → IsRecord r
    → append_record (out_record r) ++ after ≡ wire r.labels ++ fixed_onto r (r.rdata ++ after)
unfolding append_record append_be16 append_be32
append_record-onto r after (h, t, l, d) =
    let size : length r.rdata % 2 ^ 16 ≡ length r.rdata = omega arith in
    rw (encode_name-dotted r.labels h, size)
      (append_assoc (wire r.labels) (fixed_onto r r.rdata) after)

record_data-onto :
    (buf : List ℕ) (start : ℕ) (name : List ℕ) (r : NamedRecord) (after : List ℕ)
    → IsRecord r
    → drop start buf ≡ fixed_onto r (r.rdata ++ after)
    → ((start + 10 + length r.rdata) ≤ length buf)
      × (record_data buf start name (read_be16 buf (start + 8))
          ≡ some (parsed_at start name r, start + 10 + length r.rdata))
      × (drop (start + 10 + length r.rdata) buf ≡ after)
unfolding append_be16 append_be32
record_data-onto buf start name r after (h, t, l, d) e =
    let type : read_be16 buf start ≡ r.type = read_be16-append buf start r.type _ e ∙ omega arith in
    let flush : read_be16 buf (start + 2) ≡ class_of r.cache_flush =
      read_be16-append buf (start + 2) (class_of r.cache_flush) _
        (drop-drop 2 start buf ∙ ap (drop 2) e)
      ∙ ground arith in
    let ttl : read_be32 buf (start + 4) ≡ r.ttl =
      read_be32-append buf (start + 4) r.ttl _ (drop-drop 4 start buf ∙ ap (drop 4) e)
      ∙ omega arith in
    let size : read_be16 buf (start + 8) ≡ length r.rdata =
      read_be16-append buf (start + 8) (length r.rdata) _ (drop-drop 8 start buf ∙ ap (drop 8) e)
      ∙ omega arith in
    let content : drop (start + 10) buf ≡ r.rdata ++ after =
      drop-drop 10 start buf ∙ ap (drop 10) e in
    let all : length buf - start ≡ 10 + length (r.rdata ++ after) =
      omega (arith, length-drop start buf, ap length e) in
    let inside : (start + 10 + length r.rdata) ≤ length buf =
      omega (arith, length-append r.rdata after) in
    let front : take (length r.rdata) (drop (start + 10) buf) ≡ r.rdata =
      ap (take (length r.rdata)) content ∙ take-append r.rdata after in
    (
      inside,
      rw (type, flush, ttl, size, front) (ground arith),
      drop-past r.rdata after buf (start + 10) content,
    )

record_named-onto :
    (buf : List ℕ) (offset : ℕ) (r : NamedRecord) (after : List ℕ)
    → IsRecord r
    → drop offset buf ≡ append_record (out_record r) ++ after
    → (record_named buf offset (decode_name buf offset)
        ≡ some (parsed_record offset r, offset + record_size r))
      × (drop (offset + record_size r) buf ≡ after)
record_named-onto buf offset r after h e =
    let whole = e ∙ append_record-onto r after h in
    let name = decode_name-wire r.labels buf _ offset h.0 whole in
    let rest =
      record_data-onto buf (offset + length (wire r.labels)) (dotted r.labels) r after h
        (drop-past (wire r.labels) _ buf offset whole) in
    let size : offset + record_size r ≡ offset + length (wire r.labels) + 10 + length r.rdata =
      omega arith in
    let fits = rest.0 in rw (name, size) (ground (arith, rest.1), rest.2)

pub parse_records-append :
    (records : List NamedRecord) (buf : List ℕ) (acc : List DnsRecord) (offset : ℕ) (after : List ℕ)
    → All IsRecord records
    → drop offset buf ≡ append_records (map out_record records) ++ after
    → (parse_records (length records) buf acc offset
        ≡ some (acc ++ parsed_records offset records, offset + records_size records))
      × (drop (offset + records_size records) buf ≡ after)
unfolding parse_records append_records
parse_records-append [] buf acc offset after h e =
    let size : offset + 0 ≡ offset = omega arith in rw (append-nil acc, size) (refl, e)
parse_records-append (r ∷ records) buf acc offset after (k, h) e =
    let first =
      record_named-onto buf offset r (append_records (map out_record records) ++ after) k (
        e
        ∙ append_assoc (append_record (out_record r)) (append_records (map out_record records))
            after) in
    let rest =
      parse_records-append records buf (acc ++ (parsed_record offset r ∷ []))
        (offset + record_size r) after h first.1 in
    let size : offset + (record_size r + records_size records)
        ≡ offset + record_size r + records_size records =
      omega arith in
    let order : acc ++ parsed_records offset (r ∷ records)
        ≡ (acc ++ (parsed_record offset r ∷ []))
          ++ parsed_records (offset + record_size r) records =
      sym (
        append_assoc acc (parsed_record offset r ∷ [])
          (parsed_records (offset + record_size r) records)) in
    rw (size, first.0, order) rest
