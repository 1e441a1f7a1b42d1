-- ===== src/Bricola/MdnsWire/Messages.antt =====
-- src/bricola/mdns/MdnsWire.cpp: the messages that are built are parsed to what they were built from.
use campiello.Common.{
  ℕ, ◌+◌, ◌^◌, ◌≤◌, ◌<◌, ◌≡◌, refl, sym, ap, ◌∙◌, false, some, List, [], ◌∷◌, ◌++◌, map, length,
  drop, arith, All, append-nil, length-drop, drop-drop, length-map, ltb,
}
use campiello.Bricola.MdnsWire.{
  read_be16, append_be16, parse_questions, parse_records, parse, type_ptr, class_in, flags_response,
}
use campiello.Bricola.MdnsWire.Records.{append_records, build_query, build_response}
use campiello.Bricola.MdnsWire.Names.{IsLabel, dotted, wire, encode_name-dotted, decode_name-wire}
use campiello.Bricola.MdnsWire.Onto.{
  NamedRecord, out_record, IsRecord, parsed_records, records_size, read_be16-append, drop-past,
  parse_records-append,
}

parse-question :
    (buf : List ℕ) (service : List (List ℕ)) (qtype qclass : ℕ)
    → All IsLabel service
    → qtype < 2 ^ 16
    → qclass < 2 ^ 16
    → 12 ≤ length buf
    → read_be16 buf 4 ≡ 1
    → read_be16 buf 6 ≡ 0
    → read_be16 buf 8 ≡ 0
    → read_be16 buf 10 ≡ 0
    → drop 12 buf ≡ wire service ++ (append_be16 qtype ++ append_be16 qclass)
    → parse buf
      ≡ some (record {
        id = read_be16 buf 0;
        flags = read_be16 buf 2;
        questions = record { name = dotted service; qtype = qtype; qclass = qclass } ∷ [];
        answers = [];
        authorities = [];
        additionals = [];
      })
unfolding parse parse_questions parse_records append_be16
parse-question buf service qtype qclass s t c size questions answers authorities additionals e =
    let start = 12 + length (wire service) in
    let name = decode_name-wire service buf _ 12 s e in
    let rest : drop start buf ≡ append_be16 qtype ++ append_be16 qclass =
      drop-past (wire service) _ buf 12 e in
    let type : read_be16 buf start ≡ qtype =
      read_be16-append buf start qtype _ rest ∙ omega arith in
    let class : read_be16 buf (start + 2) ≡ qclass =
      read_be16-append buf (start + 2) qclass [] (drop-drop 2 start buf ∙ ap (drop 2) rest)
      ∙ omega arith in
    let long : ltb (length buf) 12 ≡ false = ground arith in
    let fits : ltb (length buf) (start + 4) ≡ false =
      ground (arith, length-drop start buf, ap length rest) in
    rw (long, questions, name, fits, type, class, answers, authorities, additionals) refl

pub parse-build_query :
    (service : List (List ℕ))
    → All IsLabel service
    → parse (build_query (dotted service))
      ≡ some (record {
        id = 0;
        flags = 0;
        questions = record { name = dotted service; qtype = type_ptr; qclass = class_in } ∷ [];
        answers = [];
        authorities = [];
        additionals = [];
      })
unfolding build_query append_be16 read_be16
parse-build_query service s =
    parse-question (build_query (dotted service)) service type_ptr class_in s (omega arith)
      (omega arith) (omega arith) refl refl refl refl
      (ap (λ l. l ++ (append_be16 type_ptr ++ append_be16 class_in)) (encode_name-dotted service s))

-- What the header says, and the records behind it.
parse-header :
    (buf : List ℕ) (answers additionals : List NamedRecord)
    → All IsRecord answers
    → All IsRecord additionals
    → 12 ≤ length buf
    → read_be16 buf 4 ≡ 0
    → read_be16 buf 6 ≡ length answers
    → read_be16 buf 8 ≡ 0
    → read_be16 buf 10 ≡ length additionals
    → drop 12 buf
      ≡ append_records (map out_record answers) ++ append_records (map out_record additionals)
    → parse buf
      ≡ some (record {
        id = read_be16 buf 0;
        flags = read_be16 buf 2;
        questions = [];
        answers = parsed_records 12 answers;
        authorities = [];
        additionals = parsed_records (12 + records_size answers) additionals;
      })
unfolding parse parse_questions parse_records
parse-header buf answers additionals h k size questions first authorities last e =
    let before =
      parse_records-append answers buf [] 12 (append_records (map out_record additionals)) h e in
    let behind =
      parse_records-append additionals buf [] (12 + records_size answers) [] k
        (before.1 ∙ sym (append-nil (append_records (map out_record additionals)))) in
    let long : ltb (length buf) 12 ≡ false = ground arith in
    rw (long, questions, first, before.0, authorities, last, behind.0) refl

parse-build_response :
    (answers additionals : List NamedRecord)
    → All IsRecord answers
    → All IsRecord additionals
    → length answers < 2 ^ 16
    → length additionals < 2 ^ 16
    → parse (build_response (map out_record answers) (map out_record additionals))
      ≡ some (record {
        id = 0;
        flags = flags_response;
        questions = [];
        answers = parsed_records 12 answers;
        authorities = [];
        additionals = parsed_records (12 + records_size answers) additionals;
      })
unfolding build_response append_be16 read_be16
parse-build_response answers additionals h k n m =
    parse-header (build_response (map out_record answers) (map out_record additionals)) answers
      additionals h k (omega arith) refl (omega (arith, length-map out_record answers)) refl
      (omega (arith, length-map out_record additionals)) refl

-- A message that BuildResponse builds is parsed to a response with its answers and its additional
-- records, in order, each with the name, type, class, TTL and data it was built from and with the offset
-- at which its data stands, and a query of BuildQuery to one question for the PTR records of the
-- service, for names of labels of 1 to 63 bytes without dots, and types, TTLs, data and counts that their
-- fields can hold.
pub parse-build :
    (service : List (List ℕ)) (answers additionals : List NamedRecord)
    → All IsLabel service
    → All IsRecord answers
    → All IsRecord additionals
    → length answers < 2 ^ 16
    → length additionals < 2 ^ 16
    → (parse (build_query (dotted service))
        ≡ some (record {
          id = 0;
          flags = 0;
          questions = record { name = dotted service; qtype = type_ptr; qclass = class_in } ∷ [];
          answers = [];
          authorities = [];
          additionals = [];
        }))
      × (parse (build_response (map out_record answers) (map out_record additionals))
          ≡ some (record {
            id = 0;
            flags = flags_response;
            questions = [];
            answers = parsed_records 12 answers;
            authorities = [];
            additionals = parsed_records (12 + records_size answers) additionals;
          }))
parse-build service answers additionals s h k n m =
    (parse-build_query service s, parse-build_response answers additionals h k n m)
