-- ===== src/Bricola/Responder.antt =====
-- src/bricola/mdns/Responder.h and Responder.cpp: how a node is announced, and which queries it answers.
pub mod Answers
use campiello.Common.{
  ℕ, zero, suc, ◌+◌, ◌%◌, ◌^◌, ◌≤◌, ◌<◌, ◌≡◌, refl, ap, Bool, true, false, not, ◌&&◌, ◌||◌, Option,
  none, some, List, [], ◌∷◌, ◌++◌, if◌then◌else◌, ◌==◌, leb, is_empty, All, arith, bytes_eq,
  bytes_eq_refl, Option-cases, ltb, length,
}
use campiello.Common.Text.{codes}
use campiello.Common.Decimal.{to_string}
use campiello.Bricola.MdnsWire.{
  Question, DnsRecord, DnsMessage, type_a, type_ptr, type_txt, type_srv, class_in, is_response,
  read_be16, parse, parse_answers, parse_authorities, parse_additionals, parsed_message,
  parse_questions, parse_records,
}
use campiello.Bricola.MdnsWire.Records.{
  OutRecord, Scan, make_a, make_ptr, make_srv, make_txt, build_query, build_response,
}

abbrev pub ptr_ttl : ℕ
ptr_ttl = 4500

abbrev pub txt_ttl : ℕ
txt_ttl = 4500

abbrev pub srv_ttl : ℕ
srv_ttl = 120

abbrev pub host_ttl : ℕ
host_ttl = 120

abbrev pub type_any : ℕ
type_any = 255

pub record ServiceInfo : Type 0 where
  pub instance_name : List ℕ
  pub hostname : List ℕ
  pub address : List ℕ
  pub port : ℕ
  pub protocol_version : ℕ
  pub bfs_attrs : Bool
  pub caps : List ℕ
  pub fingerprint_hex : List ℕ

pub record Responder : Type 0 where
  pub info : ServiceInfo
  pub service : List ℕ

abbrev pub set_port : ℕ → Responder → Responder
set_port port r = record r { info = record r.info { port = port } }

abbrev pub set_address : List ℕ → Responder → Responder
set_address ipv4 r = record r { info = record r.info { address = ipv4 } }

unfoldable pub instance_fqdn : Responder → List ℕ
instance_fqdn r = r.info.instance_name ++ (codes "." ++ r.service)

abbrev pub pointer : Responder → ℕ → OutRecord
pointer r ttl = record {
  name = r.service;
  type = type_ptr;
  ttl = ttl;
  cache_flush = false;
  rdata = make_ptr (instance_fqdn r);
}

abbrev pub location : Responder → OutRecord
location r = record {
  name = instance_fqdn r;
  type = type_srv;
  ttl = srv_ttl;
  cache_flush = true;
  rdata = make_srv 0 0 r.info.port r.info.hostname;
}

-- A pair that is left out where its value is empty.
abbrev pub optional_pair : List ℕ → List ℕ → List (List ℕ × List ℕ)
optional_pair key value = if is_empty value then [] else (key, value) ∷ []

unfoldable pub facts : ServiceInfo → List (List ℕ × List ℕ)
facts i =
    (codes "v", to_string i.protocol_version)
    ∷ (codes "node", i.instance_name)
    ∷ (codes "port", to_string i.port)
    ∷ (codes "bfs", if i.bfs_attrs then codes "1" else codes "0")
    ∷ (optional_pair (codes "caps") i.caps ++ optional_pair (codes "fp") i.fingerprint_hex)

abbrev pub description : Responder → OutRecord
description r = record {
  name = instance_fqdn r;
  type = type_txt;
  ttl = txt_ttl;
  cache_flush = true;
  rdata = make_txt (facts r.info);
}

abbrev pub host_record : Responder → List ℕ → List OutRecord
host_record r rdata =
    if is_empty rdata
    then []
    else record {
      name = r.info.hostname;
      type = type_a;
      ttl = host_ttl;
      cache_flush = true;
      rdata = rdata;
    }
      ∷ []

abbrev pub host_records : Scan → Responder → List OutRecord
host_records scan r =
    if is_empty r.info.address then [] else host_record r (make_a scan r.info.address)

unfoldable pub announce_packet : Scan → Responder → List ℕ
announce_packet scan r =
    build_response (pointer r ptr_ttl ∷ []) (location r ∷ description r ∷ host_records scan r)

unfoldable pub goodbye_packet : Responder → List ℕ
goodbye_packet r = build_response (pointer r 0 ∷ []) []

abbrev pub asks_for : Responder → Question → Bool
asks_for r q =
    bytes_eq q.name r.service
    && ((q.qtype == type_ptr) || (q.qtype == type_any))
    && (q.qclass % 2 ^ 15 == class_in)

-- The loop over the questions.
unfoldable pub answer_questions : Scan → Responder → List Question → List ℕ
answer_questions scan r [] = []
answer_questions scan r (q ∷ questions) =
    let rest = answer_questions scan r questions in
    if asks_for r q then announce_packet scan r else rest

abbrev pub answer_message : Scan → Responder → Option DnsMessage → List ℕ
answer_message scan r none = []
answer_message scan r (some m) =
    if is_response m.flags then [] else answer_questions scan r m.questions

unfoldable pub response_to : Scan → Responder → List ℕ → List ℕ
response_to scan r buf = if r.info.port == 0 then [] else answer_message scan r (parse buf)
