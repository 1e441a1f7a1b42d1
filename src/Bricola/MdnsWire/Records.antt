-- ===== src/Bricola/MdnsWire/Records.antt =====
-- src/bricola/mdns/MdnsWire.cpp: the typed views of records, and the messages that are sent. What sscanf
-- makes of an address is a parameter.
use campiello.Common.{
  ℕ, zero, suc, ◌+◌, ◌%◌, ◌^◌, Bool, not, ◌||◌, Option, none, some, List, [], ◌∷◌, ◌++◌,
  if◌then◌else◌, ◌==◌, ltb, leb, length, take, drop, get_or, is_empty,
}
use campiello.Common.Text.{codes}
use campiello.Common.Decimal.{to_string}
use campiello.Bricola.MdnsWire.{
  DnsRecord, type_a, type_ptr, type_txt, type_srv, class_in, class_flush_bit, flags_response,
  read_be16, append_be16, append_be32, decode_name, encode_name,
}

-- "%u.%u.%u.%u"
unfoldable pub dotted_quad : List ℕ → List ℕ
dotted_quad r =
    to_string (get_or r 0 0)
    ++ (codes "."
        ++ (to_string (get_or r 1 0)
            ++ (codes "."
                ++ (to_string (get_or r 2 0) ++ (codes "." ++ to_string (get_or r 3 0))))))

unfoldable pub decode_a : DnsRecord → Option (List ℕ)
decode_a r =
    if not (r.type == type_a) || not (length r.rdata == 4) then none else some (dotted_quad r.rdata)

abbrev pub name_of : Option (ℕ × List ℕ) → Option (List ℕ)
name_of none = none
name_of (some (n, name)) = some name

unfoldable pub decode_ptr : List ℕ → DnsRecord → Option (List ℕ)
decode_ptr buf r = if r.type == type_ptr then name_of (decode_name buf r.rdata_offset) else none

pub record Srv : Type 0 where
  pub priority : ℕ
  pub weight : ℕ
  pub port : ℕ
  pub target : List ℕ

abbrev pub srv_of : List ℕ → Option (List ℕ) → Option Srv
srv_of rdata none = none
srv_of rdata (some target) = some (record {
  priority = read_be16 rdata 0;
  weight = read_be16 rdata 2;
  port = read_be16 rdata 4;
  target = target;
})

unfoldable pub decode_srv : List ℕ → DnsRecord → Option Srv
decode_srv buf r =
    if not (r.type == type_srv) || ltb (length r.rdata) 7
    then none
    else srv_of r.rdata (name_of (decode_name buf (r.rdata_offset + 6)))

abbrev pub before_char : ℕ → List ℕ × List ℕ → List ℕ × List ℕ
before_char c (key, value) = (c ∷ key, value)

-- At the first '='; all of it is the key where there is none.
unfoldable pub split_entry : List ℕ → List ℕ × List ℕ
split_entry [] = ([], [])
split_entry (c ∷ entry) =
    let rest = before_char c (split_entry entry) in if c == 0x3d then ([], entry) else rest

abbrev pub push_entry_of : List ℕ → List (List ℕ × List ℕ) → List (List ℕ × List ℕ)
push_entry_of entry pairs = if is_empty entry then pairs else pairs ++ (split_entry entry ∷ [])

-- The loop of `DecodeTxt`; each round takes a byte at least.
unfoldable pub txt_loop : ℕ → List ℕ → List (List ℕ × List ℕ) → Option (List (List ℕ × List ℕ))
txt_loop fuel [] pairs = some pairs
txt_loop zero (size ∷ r) pairs = none
txt_loop (suc fuel) (size ∷ r) pairs =
    let rest = txt_loop fuel (drop size r) (push_entry_of (take size r) pairs) in
    if ltb (length r) size then none else rest

unfoldable pub decode_txt : DnsRecord → Option (List (List ℕ × List ℕ))
decode_txt r = if r.type == type_txt then txt_loop (length r.rdata) r.rdata [] else none

pub record OutRecord : Type 0 where
  pub name : List ℕ
  pub type : ℕ
  pub ttl : ℕ
  pub cache_flush : Bool
  pub rdata : List ℕ

-- What sscanf reads as `%u.%u.%u.%u`, if it is that and nothing else.
abbrev pub Scan : Type 0
Scan = List ℕ → Option (List ℕ)

abbrev pub address_bytes : Option (List ℕ) → List ℕ
address_bytes none = []
address_bytes (some parts) =
    if leb 256 (get_or parts 0 0)
      || leb 256 (get_or parts 1 0)
      || leb 256 (get_or parts 2 0)
      || leb 256 (get_or parts 3 0)
    then []
    else get_or parts 0 0 ∷ get_or parts 1 0 ∷ get_or parts 2 0 ∷ get_or parts 3 0 ∷ []

abbrev pub make_a : Scan → List ℕ → List ℕ
make_a scan ipv4 = address_bytes (scan ipv4)

unfoldable pub make_srv : ℕ → ℕ → ℕ → List ℕ → List ℕ
make_srv priority weight port target =
    append_be16 priority ++ (append_be16 weight ++ (append_be16 port ++ encode_name target))

abbrev pub make_ptr : List ℕ → List ℕ
make_ptr target = encode_name target

abbrev pub txt_entry : List ℕ × List ℕ → List ℕ
txt_entry (key, value) = take 255 (if is_empty value then key else key ++ (0x3d ∷ value))

unfoldable pub txt_entries : List (List ℕ × List ℕ) → List ℕ
txt_entries [] = []
txt_entries (pair ∷ pairs) = length (txt_entry pair) ∷ (txt_entry pair ++ txt_entries pairs)

unfoldable pub make_txt : List (List ℕ × List ℕ) → List ℕ
make_txt pairs = if is_empty pairs then 0 ∷ [] else txt_entries pairs

unfoldable pub build_query : List ℕ → List ℕ
build_query service =
    append_be16 0
    ++ (append_be16 0
        ++ (append_be16 1
            ++ (append_be16 0
                ++ (append_be16 0
                    ++ (append_be16 0
                        ++ (encode_name service
                            ++ (append_be16 type_ptr ++ append_be16 class_in)))))))

abbrev pub class_of : Bool → ℕ
class_of flush = if flush then class_flush_bit + class_in else class_in

unfoldable pub append_record : OutRecord → List ℕ
append_record r =
    encode_name r.name
    ++ (append_be16 r.type
        ++ (append_be16 (class_of r.cache_flush)
            ++ (append_be32 r.ttl ++ (append_be16 (length r.rdata % 2 ^ 16) ++ r.rdata))))

unfoldable pub append_records : List OutRecord → List ℕ
append_records [] = []
append_records (r ∷ records) = append_record r ++ append_records records

unfoldable pub build_response : List OutRecord → List OutRecord → List ℕ
build_response answers additionals =
    append_be16 0
    ++ (append_be16 flags_response
        ++ (append_be16 0
            ++ (append_be16 (length answers % 2 ^ 16)
                ++ (append_be16 0
                    ++ (append_be16 (length additionals % 2 ^ 16)
                        ++ (append_records answers ++ append_records additionals))))))
