-- ===== src/Bricola/PeerTable/Ingest.antt =====
-- src/bricola/mdns/PeerTable.cpp, Ingest: one datagram is folded into the table.
use campiello.Common.{
  ℕ, Bool, true, not, ◌&&◌, ◌||◌, Option, none, some, List, [], ◌∷◌, ◌++◌, if◌then◌else◌, ◌==◌, ltb,
  leb, is_empty, bytes_eq,
}
use campiello.Common.Text.{codes}
use campiello.Bricola.MdnsWire.{DnsRecord, DnsMessage, type_a, type_ptr, type_txt, type_srv, parse}
use campiello.Bricola.MdnsWire.Records.{Srv, decode_a, decode_ptr, decode_srv, decode_txt}
use campiello.Bricola.Keys.{find_key, put_key, erase_key, is_member, add_member, erase_member}
use campiello.Bricola.PeerTable.{
  Peer, PeerEntry, PeerTable, PeerEvent, lower, ends_with, parse_uint, content_equal, expiry_from,
  instance_suffix, new_peer, attach_addresses, publish, lost_event,
}

-- The variables of the second pass.
pub record Pass : Type 0 where
  pub peers : List (List ℕ × PeerEntry)
  pub touched : List (List ℕ)
  pub removed : List (List ℕ)
  pub before : List (List ℕ × Peer)

abbrev pub hosts_of : Option (List (List ℕ)) → List (List ℕ)
hosts_of none = []
hosts_of (some ips) = ips

abbrev pub host_resolved :
    List (List ℕ × List (List ℕ)) → List ℕ → Option (List ℕ) → List (List ℕ × List (List ℕ))
host_resolved hosts name none = hosts
host_resolved hosts name (some ip) =
    put_key name (add_member ip (hosts_of (find_key name hosts))) hosts

-- The first pass.
unfoldable pub harvest :
    List (List ℕ × List (List ℕ)) → List DnsRecord → List (List ℕ × List (List ℕ))
harvest hosts [] = hosts
harvest hosts (r ∷ records) =
    harvest (if r.type == type_a then host_resolved hosts (lower r.name) (decode_a r) else hosts)
      records

abbrev pub or_new : List ℕ → List ℕ → Option PeerEntry → PeerEntry
or_new service key none = new_peer service key
or_new service key (some e) = e

abbrev pub touched_entry : List ℕ → List ℕ → Pass → PeerEntry
touched_entry service key pass = or_new service key (find_key key pass.peers)

-- `touch`, and the change that is made to the peer.
unfoldable pub touch : List ℕ → List ℕ → (Peer → Peer) → Pass → Pass
touch service key change pass =
    let e = touched_entry service key pass in
    record pass {
      peers = put_key key (record e { peer = change e.peer }) pass.peers;
      touched = add_member key pass.touched;
      before = if is_member key pass.touched then pass.before else put_key key e.peer pass.before;
    }

abbrev pub remove_later : List ℕ → Pass → Pass
remove_later key pass = record pass { removed = add_member key pass.removed }

abbrev pub refreshed : ℕ → ℕ → Peer → Peer
refreshed now ttl p = record p {
  expires_at = if ltb p.expires_at (expiry_from now ttl) then expiry_from now ttl else p.expires_at;
}

abbrev pub ptr_target : List ℕ → ℕ → DnsRecord → Pass → Option (List ℕ) → Pass
ptr_target service now r pass none = pass
ptr_target service now r pass (some target) =
    if r.ttl == 0 then remove_later target pass else touch service target (refreshed now r.ttl) pass

abbrev pub located : ℕ → ℕ → Srv → Peer → Peer
located now ttl srv p = refreshed now ttl (record p { port = srv.port; hostname = srv.target })

abbrev pub srv_decoded : List ℕ → ℕ → DnsRecord → Pass → Option Srv → Pass
srv_decoded service now r pass none = pass
srv_decoded service now r pass (some srv) = touch service r.name (located now r.ttl srv) pass

abbrev pub version_of : Peer → Option ℕ → Peer
version_of p none = p
version_of p (some n) = if leb n 255 then record p { protocol_version = n } else p

abbrev pub port_of : Peer → Option ℕ → Peer
port_of p none = p
port_of p (some n) = if (p.port == 0) && leb n 0xffff then record p { port = n } else p

abbrev pub with_fact : Peer → List ℕ × List ℕ → Peer
with_fact p (key, value) =
    if bytes_eq key (codes "v")
    then version_of p (parse_uint value)
    else if bytes_eq key (codes "node")
    then if is_empty value then p else record p { friendly = value }
    else if bytes_eq key (codes "bfs")
    then record p { bfs_attrs = bytes_eq value (codes "1") }
    else if bytes_eq key (codes "caps")
    then record p { caps = value }
    else if bytes_eq key (codes "fp")
    then record p { fingerprint_hex = value }
    else if bytes_eq key (codes "port")
    then port_of p (parse_uint value)
    else p

-- The loop over the pairs of a TXT record.
unfoldable pub with_facts : List (List ℕ × List ℕ) → Peer → Peer
with_facts [] p = p
with_facts (pair ∷ pairs) p = with_facts pairs (with_fact p pair)

abbrev pub described : ℕ → ℕ → List (List ℕ × List ℕ) → Peer → Peer
described now ttl pairs p = refreshed now ttl (with_facts pairs p)

abbrev pub txt_decoded : List ℕ → ℕ → DnsRecord → Pass → Option (List (List ℕ × List ℕ)) → Pass
txt_decoded service now r pass none = pass
txt_decoded service now r pass (some pairs) = touch service r.name (described now r.ttl pairs) pass

-- A record of an instance of the service; TTL 0 is a goodbye.
abbrev pub instance_record : List ℕ → DnsRecord → Pass → Pass → Pass
instance_record service r pass next =
    if ends_with r.name (instance_suffix service)
    then if r.ttl == 0 then remove_later r.name pass else next
    else pass

unfoldable pub take_record : List ℕ → List ℕ → ℕ → DnsRecord → Pass → Pass
take_record service buf now r pass =
    if r.type == type_ptr
    then if bytes_eq r.name service then ptr_target service now r pass (decode_ptr buf r) else pass
    else if r.type == type_srv
    then instance_record service r pass (srv_decoded service now r pass (decode_srv buf r))
    else if r.type == type_txt
    then instance_record service r pass (txt_decoded service now r pass (decode_txt r))
    else pass

unfoldable pub take_records : List ℕ → List ℕ → ℕ → List DnsRecord → Pass → Pass
take_records service buf now [] pass = pass
take_records service buf now (r ∷ records) pass =
    take_records service buf now records (take_record service buf now r pass)

abbrev pub removal : List ℕ → Pass → Option PeerEntry → Pass × List PeerEvent
removal key pass none = (pass, [])
removal key pass (some e) = (
  record pass { peers = erase_key key pass.peers; touched = erase_member key pass.touched },
  lost_event e,
)

abbrev pub after_events : {A : Type 0} → List PeerEvent → A × List PeerEvent → A × List PeerEvent
after_events events (a, more) = (a, events ++ more)

-- The removals.
unfoldable pub remove_all : List (List ℕ) → Pass → Pass × List PeerEvent
remove_all [] pass = (pass, [])
remove_all (key ∷ keys) pass =
    let step = removal key pass (find_key key pass.peers) in
    after_events step.1 (remove_all keys step.0)

-- The sender's address, where there is no other.
abbrev pub or_sender : List ℕ → Peer → Peer
or_sender src p =
    if is_empty p.addresses && not (p.port == 0) && not (is_empty src)
    then record p { addresses = src ∷ [] }
    else p

abbrev pub has_changed : Option Peer → Peer → Bool
has_changed none p = true
has_changed (some old) p = not (content_equal old p)

abbrev pub published : Option Peer → PeerEntry → PeerEntry × List PeerEvent
published old e = if has_changed old e.peer || not e.announced then publish e else (e, [])

abbrev pub resolved_entry :
    List (List ℕ × List (List ℕ)) → List ℕ → Option Peer → PeerEntry → PeerEntry × List PeerEvent
resolved_entry hosts src old e =
    published old (record e { peer = or_sender src (attach_addresses hosts e.peer) })

abbrev pub settle :
    List (List ℕ × List (List ℕ))
    → List ℕ
    → List (List ℕ × Peer)
    → List ℕ
    → List (List ℕ × PeerEntry)
    → Option PeerEntry
    → List (List ℕ × PeerEntry) × List PeerEvent
settle hosts src before key peers none = (peers, [])
settle hosts src before key peers (some e) =
    let step = resolved_entry hosts src (find_key key before) e in
    (put_key key step.0 peers, step.1)

-- The loop over the peers that were touched.
unfoldable pub publish_all :
    List (List ℕ × List (List ℕ))
    → List ℕ
    → List (List ℕ × Peer)
    → List (List ℕ)
    → List (List ℕ × PeerEntry)
    → List (List ℕ × PeerEntry) × List PeerEvent
publish_all hosts src before [] peers = (peers, [])
publish_all hosts src before (key ∷ keys) peers =
    let step = settle hosts src before key peers (find_key key peers) in
    after_events step.1 (publish_all hosts src before keys step.0)

unfoldable pub ingest_records :
    List ℕ → List ℕ → ℕ → List DnsRecord → PeerTable → PeerTable × List PeerEvent
ingest_records buf src now records t =
    let hosts = harvest t.host_addrs records in
    let taken =
      take_records t.service buf now records
        (record { peers = t.peers; touched = []; removed = []; before = [] }) in
    let cleared = remove_all taken.removed taken in
    let told = publish_all hosts src cleared.0.before cleared.0.touched cleared.0.peers in
    (record t { peers = told.0; host_addrs = hosts }, cleared.1 ++ told.1)

abbrev pub ingest_message :
    List ℕ → List ℕ → ℕ → PeerTable → Option DnsMessage → PeerTable × List PeerEvent
ingest_message buf src now t none = (t, [])
ingest_message buf src now t (some m) = ingest_records buf src now (m.answers ++ m.additionals) t

unfoldable pub ingest : List ℕ → List ℕ → ℕ → PeerTable → PeerTable × List PeerEvent
ingest buf src now t = ingest_message buf src now t (parse buf)
