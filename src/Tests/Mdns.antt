-- ===== src/Tests/Mdns.antt =====
-- Discovery by mDNS at a concrete node.
use campiello.Common.{ℕ, ◌+◌, false, ◌≡◌, refl, true, none, some, List, [], ◌∷◌, map, arith, All}
use campiello.Common.Text.{codes}
use campiello.Bricola.MdnsWire.{parse, type_a, type_ptr, class_in, flags_response, read_be16}
use campiello.Bricola.MdnsWire.Records.{build_query, build_response}
use campiello.Bricola.MdnsWire.Names.{IsLabel, dotted}
use campiello.Bricola.MdnsWire.Onto.{
  NamedRecord, out_record, IsRecord, parsed_records, records_size,
}
use campiello.Bricola.MdnsWire.Messages.{parse-build}
use campiello.Bricola.PeerTable.{PeerEntry, PeerTable, peer_lost, expire, announced_peers}
use campiello.Bricola.PeerTable.Expiry.{stale, expire-stale}
use campiello.Bricola.PeerTable.Found.{IsHonest}
use campiello.Bricola.PeerTable.Watch.{watch_all, announced_in}
use campiello.Bricola.PeerTable.Observer.{
  PeerStep, datagram, sweep, run_steps, new_table, run_steps-watch,
}
use campiello.Bricola.Responder.{set_port, Responder, announce_packet, goodbye_packet, response_to}
use campiello.Bricola.Responder.Answers.{response_to-queries}

abbrev service_labels : List (List ℕ)
service_labels = codes "_campiello" ∷ codes "_tcp" ∷ codes "local" ∷ []

service_labels-IsLabel : All IsLabel service_labels
service_labels-IsLabel = (
  (ground arith, omega arith, omega arith),
  ((ground arith, omega arith, omega arith), ((ground arith, omega arith, omega arith), tt)),
)

abbrev host_a : NamedRecord
host_a = record {
  labels = codes "studio" ∷ codes "local" ∷ [];
  type = type_a;
  ttl = 120;
  cache_flush = true;
  rdata = 192 ∷ 168 ∷ 1 ∷ 7 ∷ [];
}

abbrev service_ptr : NamedRecord
service_ptr = record {
  labels = service_labels;
  type = type_ptr;
  ttl = 4500;
  cache_flush = true;
  rdata = 0 ∷ [];
}

host_a-IsRecord : IsRecord host_a
host_a-IsRecord = (
  ((ground arith, omega arith, omega arith), ((ground arith, omega arith, omega arith), tt)),
  omega arith,
  omega arith,
  omega arith,
)

service_ptr-IsRecord : IsRecord service_ptr
service_ptr-IsRecord = (service_labels-IsLabel, omega arith, omega arith, omega arith)

abbrev studio : Responder
studio = record {
  info = record {
    instance_name = codes "Studio";
    hostname = codes "studio.local";
    address = [];
    port = 4242;
    protocol_version = 1;
    bfs_attrs = true;
    caps = [];
    fingerprint_hex = [];
  };
  service = dotted service_labels;
}

parse-build_example :
    (parse (build_query (dotted service_labels))
      ≡ some (record {
        id = 0;
        flags = 0;
        questions =
            record { name = codes "_campiello._tcp.local"; qtype = type_ptr; qclass = class_in }
            ∷ [];
        answers = [];
        authorities = [];
        additionals = [];
      }))
    × (parse (build_response (map out_record (service_ptr ∷ [])) (map out_record (host_a ∷ [])))
        ≡ some (record {
          id = 0;
          flags = flags_response;
          questions = [];
          answers = parsed_records 12 (service_ptr ∷ []);
          authorities = [];
          additionals = parsed_records (12 + records_size (service_ptr ∷ [])) (host_a ∷ []);
        }))
parse-build_example =
    parse-build service_labels (service_ptr ∷ []) (host_a ∷ []) service_labels-IsLabel
      (service_ptr-IsRecord, tt) (host_a-IsRecord, tt) (omega arith) (omega arith)

-- A response without records.
abbrev silence : List ℕ
silence = 0 ∷ 0 ∷ 0x84 ∷ 0 ∷ 0 ∷ 0 ∷ 0 ∷ 0 ∷ 0 ∷ 0 ∷ 0 ∷ 0 ∷ []

response_to-queries_example :
    (response_to (λ text. none) studio (build_query (dotted service_labels))
      ≡ announce_packet (λ text. none) studio)
    × (response_to (λ text. none) (set_port 0 studio) (build_query (dotted service_labels)) ≡ [])
    × (response_to (λ text. none) studio silence ≡ [])
    × (response_to (λ text. none) studio (announce_packet (λ text. none) studio) ≡ [])
    × (response_to (λ text. none) studio (goodbye_packet studio) ≡ [])
unfolding read_be16
response_to-queries_example =
    response_to-queries (λ text. none) studio service_labels silence
      (build_query (dotted service_labels)) service_labels-IsLabel refl (omega arith)

abbrev studio_key : List ℕ
studio_key = codes "Studio._campiello._tcp.local"

-- The announcement, a sweep, the goodbye.
abbrev evening : List PeerStep
evening =
    datagram (announce_packet (λ text. none) studio) (codes "10.0.0.7") 1000
    ∷ sweep 2000
    ∷ datagram (goodbye_packet studio) (codes "10.0.0.7") 3000
    ∷ []

run_steps-watch_example :
    let r = run_steps evening (new_table (dotted service_labels)) in
    (watch_all studio_key (some false) r.1 ≡ some (announced_in studio_key r.0.peers))
    × All IsHonest r.1
run_steps-watch_example = run_steps-watch (dotted service_labels) evening studio_key

abbrev studio_entry : PeerEntry
studio_entry = record {
  peer = record {
    key = studio_key;
    friendly = codes "Studio";
    hostname = codes "studio.local";
    addresses = codes "10.0.0.7" ∷ [];
    port = 4242;
    protocol_version = 1;
    bfs_attrs = true;
    caps = [];
    fingerprint_hex = [];
    expires_at = 5000;
  };
  announced = true;
}

abbrev studio_table : PeerTable
studio_table = record {
  service = dotted service_labels;
  peers = (studio_key, studio_entry) ∷ [];
  host_addrs = [];
}

expire-stale_example :
    let a = expire 5000 studio_table in
    (announced_peers a.0.peers ≡ stale false 5000 (announced_peers studio_table.peers))
    × (a.1 ≡ map peer_lost (stale true 5000 (announced_peers studio_table.peers)))
    × (expire 5000 a.0 ≡ (a.0, []))
expire-stale_example = expire-stale 5000 studio_table
