-- ===== src/Bricola/Responder/Answers.antt =====
-- src/bricola/mdns/Responder.cpp, ResponseTo: what is answered.
use campiello.Common.{
  ℕ, ◌≤◌, ◌≡◌, refl, sym, subst, Bool, true, false, Option, none, some, List, [], ◌∷◌,
  if◌then◌else◌, ◌==◌, All, arith, bytes_eq_refl, ltb, length,
}
use campiello.Bricola.MdnsWire.{
  Question, DnsRecord, DnsMessage, read_be16, parse, parse_answers, append_be16, type_ptr, class_in,
  parse_authorities, parse_additionals, parsed_message, parse_questions, parse_records,
}
use campiello.Bricola.MdnsWire.Records.{Scan, build_query, build_response}
use campiello.Bricola.MdnsWire.Names.{IsLabel, dotted}
use campiello.Bricola.MdnsWire.Messages.{parse-build_query}
use campiello.Bricola.Responder.{
  Responder, set_port, announce_packet, goodbye_packet, answer_questions, answer_message,
  response_to,
}

Flagged : ℕ → Option DnsMessage → Type 0
Flagged n none = Unit
Flagged n (some m) = m.flags ≡ n

additionals-Flagged :
    (buf : List ℕ) (questions : List Question) (answers : List DnsRecord)
    (o : Option (List DnsRecord × ℕ))
    → Flagged (read_be16 buf 2) (parse_additionals buf questions answers o)
unfolding Flagged
additionals-Flagged buf questions answers none = tt
additionals-Flagged buf questions answers (some (authorities, offset)) =
    go (parse_records (read_be16 buf 10) buf [] offset)
  where
    go :
        (o : Option (List DnsRecord × ℕ))
        → Flagged (read_be16 buf 2) (parsed_message buf questions answers authorities o)
    go none = tt
    go (some (additionals, end)) = refl

authorities-Flagged :
    (buf : List ℕ) (questions : List Question) (o : Option (List DnsRecord × ℕ))
    → Flagged (read_be16 buf 2) (parse_authorities buf questions o)
unfolding Flagged
authorities-Flagged buf questions none = tt
authorities-Flagged buf questions (some (answers, offset)) =
    additionals-Flagged buf questions answers (parse_records (read_be16 buf 8) buf [] offset)

answers-Flagged :
    (buf : List ℕ) (o : Option (List Question × ℕ))
    → Flagged (read_be16 buf 2) (parse_answers buf o)
unfolding Flagged
answers-Flagged buf none = tt
answers-Flagged buf (some (questions, offset)) =
    authorities-Flagged buf questions (parse_records (read_be16 buf 6) buf [] offset)

parse-Flagged : (buf : List ℕ) → Flagged (read_be16 buf 2) (parse buf)
unfolding parse Flagged
parse-Flagged buf = go (ltb (length buf) 12)
  where
    go :
        (b : Bool)
        → Flagged
            (read_be16 buf 2)
            (if b then none else parse_answers buf (parse_questions (read_be16 buf 4) buf [] 12))
    go true = tt
    go false = answers-Flagged buf (parse_questions (read_be16 buf 4) buf [] 12)

answer_message-silent :
    (scan : Scan) (r : Responder) (n : ℕ) (o : Option DnsMessage)
    → Flagged n o
    → 0x8000 ≤ n
    → answer_message scan r o ≡ []
unfolding Flagged
answer_message-silent scan r n none h k = refl
answer_message-silent scan r n (some m) h k = ground arith

response_to-silent :
    (scan : Scan) (r : Responder) (buf : List ℕ)
    → 0x8000 ≤ read_be16 buf 2
    → response_to scan r buf ≡ []
unfolding response_to
response_to-silent scan r buf k =
    rw (answer_message-silent scan r (read_be16 buf 2) (parse buf) (parse-Flagged buf) k)
      (ground arith)

response_to-unset :
    (scan : Scan) (r : Responder) (message : List ℕ) → response_to scan (set_port 0 r) message ≡ []
unfolding response_to
response_to-unset scan r message = refl

response_to-own :
    (scan : Scan) (r : Responder)
    → (response_to scan r (announce_packet scan r) ≡ [])
      × (response_to scan r (goodbye_packet r) ≡ [])
unfolding announce_packet goodbye_packet build_response append_be16 read_be16
response_to-own scan r = (
  response_to-silent scan r (announce_packet scan r) (omega arith),
  response_to-silent scan r (goodbye_packet r) (omega arith),
)

response_to-build_query :
    (scan : Scan) (r : Responder) (labels : List (List ℕ))
    → All IsLabel labels
    → r.service ≡ dotted labels
    → response_to scan r (build_query r.service)
      ≡ (if r.info.port == 0 then [] else announce_packet scan r)
unfolding response_to answer_questions
response_to-build_query scan r labels h e =
    let question : List ℕ → DnsMessage = λ name. record {
      id = 0;
      flags = 0;
      questions = record { name = name; qtype = type_ptr; qclass = class_in } ∷ [];
      answers = [];
      authorities = [];
      additionals = [];
    } in
    let asked : parse (build_query r.service) ≡ some (question r.service) =
      subst (λ name. parse (build_query name) ≡ some (question name)) (sym e)
        (parse-build_query labels h) in
    rw (asked, bytes_eq_refl r.service) refl

-- A node whose port is set answers the query that a browser builds for its service with its
-- announcement, for a service name of labels of 1 to 63 bytes without dots; while the port is 0 it
-- answers no message at all, and it never answers a message with the response bit, so that announcements
-- and goodbyes go unanswered.
pub response_to-queries :
    (scan : Scan) (r : Responder) (labels : List (List ℕ)) (buf message : List ℕ)
    → All IsLabel labels
    → r.service ≡ dotted labels
    → 0x8000 ≤ read_be16 buf 2
    → (response_to scan r (build_query r.service)
        ≡ (if r.info.port == 0 then [] else announce_packet scan r))
      × (response_to scan (set_port 0 r) message ≡ [])
      × (response_to scan r buf ≡ [])
      × (response_to scan r (announce_packet scan r) ≡ [])
      × (response_to scan r (goodbye_packet r) ≡ [])
response_to-queries scan r labels buf message h e k = (
  response_to-build_query scan r labels h e,
  response_to-unset scan r message,
  response_to-silent scan r buf k,
  (response_to-own scan r).0,
  (response_to-own scan r).1,
)
