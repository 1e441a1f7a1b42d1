-- ===== src/Bricola/MdnsWire.antt =====
-- src/bricola/mdns/MdnsWire.h and MdnsWire.cpp: the DNS messages that announce peers and ask for them.
pub mod Names
pub mod Records
pub mod Onto
pub mod Messages
use campiello.Common.{
  ℕ, zero, suc, ◌+◌, ◌-◌, ◌*◌, ◌/◌, ◌%◌, ◌^◌, Bool, true, false, ◌&&◌, ◌||◌, Option, none, some,
  List, [], ◌∷◌, ◌++◌, if◌then◌else◌, ◌==◌, ltb, leb, length, take, drop, get_or, is_empty,
}
use campiello.Common.Text.{codes}
use campiello.Common.Decimal.{to_string}

abbrev pub type_a : ℕ
type_a = 1

abbrev pub type_ptr : ℕ
type_ptr = 12

abbrev pub type_txt : ℕ
type_txt = 16

abbrev pub type_srv : ℕ
type_srv = 33

abbrev pub class_in : ℕ
class_in = 1

abbrev pub class_flush_bit : ℕ
class_flush_bit = 0x8000

abbrev pub flags_response : ℕ
flags_response = 0x8400

-- Depths 0 to kMaxNameDepth.
abbrev pub name_levels : ℕ
name_levels = 21

pub record Question : Type 0 where
  pub name : List ℕ
  pub qtype : ℕ
  pub qclass : ℕ

pub record DnsRecord : Type 0 where
  pub name : List ℕ
  pub type : ℕ
  pub rrclass : ℕ
  pub ttl : ℕ
  pub rdata_offset : ℕ
  pub rdata : List ℕ

pub record DnsMessage : Type 0 where
  pub id : ℕ
  pub flags : ℕ
  pub questions : List Question
  pub answers : List DnsRecord
  pub authorities : List DnsRecord
  pub additionals : List DnsRecord

abbrev pub is_response : ℕ → Bool
is_response flags = leb 0x8000 flags

-- `ReadBE16` and `ReadBE32` at an offset of the buffer.
unfoldable pub read_be16 : List ℕ → ℕ → ℕ
read_be16 buf i = get_or buf i 0 * 256 + get_or buf (i + 1) 0

unfoldable pub read_be32 : List ℕ → ℕ → ℕ
read_be32 buf i = read_be16 buf i * 65536 + read_be16 buf (i + 2)

unfoldable pub append_be16 : ℕ → List ℕ
append_be16 v = v / 256 % 256 ∷ v % 256 ∷ []

unfoldable pub append_be32 : ℕ → List ℕ
append_be32 v = append_be16 (v / 65536) ++ append_be16 v

-- '.'
abbrev pub dot : ℕ
dot = 0x2e

unfoldable pub append_label : List ℕ → List ℕ → List ℕ
append_label out label = if is_empty out then label else out ++ (dot ∷ label)

-- Behind a compression pointer at `offset`.
abbrev pub jumped : ℕ → ℕ → Option (ℕ × List ℕ) → Option (ℕ × List ℕ)
jumped start offset none = none
jumped start offset (some (n, out)) = some (offset + 2 - start, out)

-- The loop of `DecodeNameInto`, with what a pointer leads to: the bytes consumed, and the name so far.
unfoldable pub name_loop :
    (ℕ → List ℕ → Option (ℕ × List ℕ)) → ℕ → List ℕ → ℕ → ℕ → List ℕ → Option (ℕ × List ℕ)
name_loop jump zero buf start offset out = none
name_loop jump (suc fuel) buf start offset out =
    let size = get_or buf offset 0 in
    let rest =
      name_loop jump fuel buf start (offset + 1 + size)
        (append_label out (take size (drop (offset + 1) buf))) in
    if leb (length buf) offset
    then none
    else if size == 0
    then some (offset + 1 - start, out)
    else if leb 0xc0 size
    then if leb (length buf) (offset + 1)
      then none
      else jumped start offset (jump (size % 64 * 256 + get_or buf (offset + 1) 0) out)
    else if leb 0x40 size
    then none
    else if ltb (length buf) (offset + 1 + size)
    then none
    else rest

-- `DecodeNameInto`, by the levels of pointers that are left.
unfoldable pub decode_name_into : ℕ → List ℕ → ℕ → List ℕ → Option (ℕ × List ℕ)
decode_name_into zero buf offset out = none
decode_name_into (suc levels) buf offset out =
    name_loop (λ ptr more. decode_name_into levels buf ptr more) (suc (length buf)) buf offset
      offset out

-- The bytes consumed and the name, or none where the source returns 0.
unfoldable pub decode_name : List ℕ → ℕ → Option (ℕ × List ℕ)
decode_name buf offset = decode_name_into name_levels buf offset []

-- A label of a length that is neither 0 nor above 63.
abbrev pub put_label : List ℕ → List ℕ
put_label label = if is_empty label || leb 64 (length label) then [] else length label ∷ label

-- The loop of `EncodeName`, with the label that has begun.
unfoldable pub encode_labels : List ℕ → List ℕ → List ℕ
encode_labels label [] = put_label label ++ (0 ∷ [])
encode_labels label (c ∷ name) =
    (if c == dot then put_label label else [])
    ++ encode_labels (if c == dot then [] else label ++ (c ∷ [])) name

unfoldable pub encode_name : List ℕ → List ℕ
encode_name name = encode_labels [] name

-- Behind the name of a question at `offset`.
abbrev pub question_at : List ℕ → ℕ → List ℕ → Option (Question × ℕ)
question_at buf offset name =
    if ltb (length buf) (offset + 4)
    then none
    else some (
      record { name = name; qtype = read_be16 buf offset; qclass = read_be16 buf (offset + 2) },
      offset + 4,
    )

abbrev pub question_named : List ℕ → ℕ → Option (ℕ × List ℕ) → Option (Question × ℕ)
question_named buf offset none = none
question_named buf offset (some (n, name)) = question_at buf (offset + n) name

abbrev pub push_item :
    {A : Type 0}
    → List A
    → (List A → ℕ → Option (List A × ℕ))
    → Option (A × ℕ)
    → Option (List A × ℕ)
push_item acc rest none = none
push_item acc rest (some (a, offset)) = rest (acc ++ (a ∷ [])) offset

-- The loop over the questions.
unfoldable pub parse_questions : ℕ → List ℕ → List Question → ℕ → Option (List Question × ℕ)
parse_questions zero buf acc offset = some (acc, offset)
parse_questions (suc n) buf acc offset =
    push_item acc (λ more next. parse_questions n buf more next)
      (question_named buf offset (decode_name buf offset))

-- Behind the fixed part of a record at `offset`.
abbrev pub record_data : List ℕ → ℕ → List ℕ → ℕ → Option (DnsRecord × ℕ)
record_data buf offset name size =
    if ltb (length buf) (offset + 10 + size)
    then none
    else some (
      record {
        name = name;
        type = read_be16 buf offset;
        rrclass = read_be16 buf (offset + 2);
        ttl = read_be32 buf (offset + 4);
        rdata_offset = offset + 10;
        rdata = take size (drop (offset + 10) buf);
      },
      offset + 10 + size,
    )

abbrev pub record_named : List ℕ → ℕ → Option (ℕ × List ℕ) → Option (DnsRecord × ℕ)
record_named buf offset none = none
record_named buf offset (some (n, name)) =
    if ltb (length buf) (offset + n + 10)
    then none
    else record_data buf (offset + n) name (read_be16 buf (offset + n + 8))

-- `ParseRecords`
unfoldable pub parse_records : ℕ → List ℕ → List DnsRecord → ℕ → Option (List DnsRecord × ℕ)
parse_records zero buf acc offset = some (acc, offset)
parse_records (suc n) buf acc offset =
    push_item acc (λ more next. parse_records n buf more next)
      (record_named buf offset (decode_name buf offset))

-- The four sections, one behind the other.
abbrev pub parsed_message :
    List ℕ
    → List Question
    → List DnsRecord
    → List DnsRecord
    → Option (List DnsRecord × ℕ)
    → Option DnsMessage
parsed_message buf questions answers authorities none = none
parsed_message buf questions answers authorities (some (additionals, offset)) = some (record {
  id = read_be16 buf 0;
  flags = read_be16 buf 2;
  questions = questions;
  answers = answers;
  authorities = authorities;
  additionals = additionals;
})

abbrev pub parse_additionals :
    List ℕ → List Question → List DnsRecord → Option (List DnsRecord × ℕ) → Option DnsMessage
parse_additionals buf questions answers none = none
parse_additionals buf questions answers (some (authorities, offset)) =
    parsed_message buf questions answers authorities
      (parse_records (read_be16 buf 10) buf [] offset)

abbrev pub parse_authorities :
    List ℕ → List Question → Option (List DnsRecord × ℕ) → Option DnsMessage
parse_authorities buf questions none = none
parse_authorities buf questions (some (answers, offset)) =
    parse_additionals buf questions answers (parse_records (read_be16 buf 8) buf [] offset)

abbrev pub parse_answers : List ℕ → Option (List Question × ℕ) → Option DnsMessage
parse_answers buf none = none
parse_answers buf (some (questions, offset)) =
    parse_authorities buf questions (parse_records (read_be16 buf 6) buf [] offset)

-- `Parse`
unfoldable pub parse : List ℕ → Option DnsMessage
parse buf =
    if ltb (length buf) 12
    then none
    else parse_answers buf (parse_questions (read_be16 buf 4) buf [] 12)
