-- ===== src/Bricola/PeerTable.antt =====
-- src/bricola/mdns/Peer.h, PeerTable.h and PeerTable.cpp: the table of peers. The clock is a natural number of
-- milliseconds, whose sums with a TTL stay in an int64_t; what an observer is told is a list of events.
pub mod Expiry
pub mod Ingest
pub mod Found
pub mod Watch
pub mod Kept
pub mod Touched
pub mod Observer
use campiello.Common.{
  ℕ, zero, suc, ◌+◌, ◌-◌, ◌*◌, ◌%◌, ◌^◌, Bool, true, false, not, ◌&&◌, ◌||◌, Option, none, some,
  List, [], ◌∷◌, ◌++◌, if◌then◌else◌, ◌==◌, ltb, leb, length, take, drop, is_empty, bytes_eq, map,
}
use campiello.Common.Text.{codes}
use campiello.Bricola.MdnsWire.{DnsRecord, DnsMessage, type_a, type_ptr, type_txt, type_srv, parse}
use campiello.Bricola.MdnsWire.Records.{Srv, decode_a, decode_ptr, decode_srv, decode_txt}
use campiello.Bricola.Keys.{find_key, put_key, erase_key, is_member, add_member, erase_member}

pub record Peer : Type 0 where
  pub key : List ℕ
  pub friendly : List ℕ
  pub hostname : List ℕ
  pub addresses : List (List ℕ)
  pub port : ℕ
  pub protocol_version : ℕ
  pub bfs_attrs : Bool
  pub caps : List ℕ
  pub fingerprint_hex : List ℕ
  pub expires_at : ℕ

pub record PeerEntry : Type 0 where
  pub peer : Peer
  pub announced : Bool

pub record PeerTable : Type 0 where
  pub service : List ℕ
  pub peers : List (List ℕ × PeerEntry)
  pub host_addrs : List (List ℕ × List (List ℕ))

-- The calls of a PeerObserver.
pub data PeerEvent : Type 0 where
  peer_found : Peer → PeerEvent
  peer_updated : Peer → PeerEvent
  peer_lost : Peer → PeerEvent

abbrev pub lower_char : ℕ → ℕ
lower_char c = if leb 0x41 c && leb c 0x5a then c + 32 else c

abbrev pub lower : List ℕ → List ℕ
lower s = map lower_char s

unfoldable pub ends_with : List ℕ → List ℕ → Bool
ends_with s suffix =
    leb (length suffix) (length s) && bytes_eq (drop (length s - length suffix) s) suffix

-- Behind the characters of isspace.
unfoldable pub skip_spaces : List ℕ → List ℕ
skip_spaces [] = []
skip_spaces (c ∷ s) =
    let rest = skip_spaces s in if c == 0x20 || (leb 9 c && leb c 13) then rest else c ∷ s

-- The digits at the front, on top of a value, and how many there are.
unfoldable pub digits_value : ℕ → ℕ → List ℕ → ℕ × ℕ × List ℕ
digits_value count v [] = (count, v, [])
digits_value count v (c ∷ s) =
    if leb 0x30 c && leb c 0x39
    then digits_value (suc count) (v * 10 + (c - 0x30)) s
    else (count, v, c ∷ s)

-- A value of strtoul, of 64 bits.
abbrev pub as_ulong : Bool → ℕ → ℕ
as_ulong negative v =
    if leb (2 ^ 64) v then 2 ^ 64 - 1 else if negative then (2 ^ 64 - v) % 2 ^ 64 else v

-- Nothing may stand behind the digits, as `*end` sees it.
abbrev pub number_ended : Bool → ℕ × ℕ × List ℕ → Option ℕ
number_ended negative (zero, v, s) = none
number_ended negative (suc count, v, []) = some (as_ulong negative v)
number_ended negative (suc count, v, c ∷ s) = if c == 0 then some (as_ulong negative v) else none

abbrev pub signed_number : List ℕ → Option ℕ
signed_number [] = none
signed_number (c ∷ s) =
    if c == 0x2d
    then number_ended true (digits_value 0 0 s)
    else number_ended false (digits_value 0 0 (if c == 0x2b then s else c ∷ s))

-- `ParseUint`
unfoldable pub parse_uint : List ℕ → Option ℕ
parse_uint s = signed_number (skip_spaces s)

unfoldable pub addresses_eq : List (List ℕ) → List (List ℕ) → Bool
addresses_eq [] [] = true
addresses_eq [] (b ∷ bs) = false
addresses_eq (a ∷ more) [] = false
addresses_eq (a ∷ more) (b ∷ bs) = bytes_eq a b && addresses_eq more bs

abbrev pub bool_eq : Bool → Bool → Bool
bool_eq a b = if a then b else not b

unfoldable pub content_equal : Peer → Peer → Bool
content_equal a b =
    bytes_eq a.friendly b.friendly
    && bytes_eq a.hostname b.hostname
    && addresses_eq a.addresses b.addresses
    && (a.port == b.port)
    && (a.protocol_version == b.protocol_version)
    && bool_eq a.bfs_attrs b.bfs_attrs
    && bytes_eq a.caps b.caps
    && bytes_eq a.fingerprint_hex b.fingerprint_hex

abbrev pub expiry_from : ℕ → ℕ → ℕ
expiry_from now ttl = now + ttl * 1000

abbrev pub instance_suffix : List ℕ → List ℕ
instance_suffix service = codes "." ++ service

unfoldable pub friendly_label : List ℕ → List ℕ → List ℕ
friendly_label service fqdn =
    if ends_with fqdn (instance_suffix service)
    then take (length fqdn - length (instance_suffix service)) fqdn
    else fqdn

abbrev pub new_peer : List ℕ → List ℕ → PeerEntry
new_peer service key = record {
  peer = record {
    key = key;
    friendly = friendly_label service key;
    hostname = [];
    addresses = [];
    port = 0;
    protocol_version = 0;
    bfs_attrs = false;
    caps = [];
    fingerprint_hex = [];
    expires_at = 0;
  };
  announced = false;
}

-- The addresses that are not there yet, at the end.
unfoldable pub add_addresses : List (List ℕ) → List (List ℕ) → List (List ℕ)
add_addresses known [] = known
add_addresses known (ip ∷ ips) =
    add_addresses (if is_member ip known then known else known ++ (ip ∷ [])) ips

abbrev pub with_addresses : Peer → Option (List (List ℕ)) → Peer
with_addresses p none = p
with_addresses p (some ips) = record p { addresses = add_addresses p.addresses ips }

unfoldable pub attach_addresses : List (List ℕ × List (List ℕ)) → Peer → Peer
attach_addresses hosts p =
    if is_empty p.hostname then p else with_addresses p (find_key (lower p.hostname) hosts)

abbrev pub connectable : Peer → Bool
connectable p = not (p.port == 0) && not (is_empty p.addresses)

unfoldable pub publish : PeerEntry → PeerEntry × List PeerEvent
publish e =
    if e.announced
    then (e, peer_updated e.peer ∷ [])
    else if connectable e.peer
    then (record e { announced = true }, peer_found e.peer ∷ [])
    else (e, [])

-- An entry of `expire`.
abbrev pub has_expired : ℕ → PeerEntry → Bool
has_expired now e = leb e.peer.expires_at now

abbrev pub lost_event : PeerEntry → List PeerEvent
lost_event e = if e.announced then peer_lost e.peer ∷ [] else []

abbrev pub drop_expired :
    ℕ
    → List ℕ
    → PeerEntry
    → List (List ℕ × PeerEntry) × List PeerEvent
    → List (List ℕ × PeerEntry) × List PeerEvent
drop_expired now key e (kept, events) =
    if has_expired now e then (kept, lost_event e ++ events) else ((key, e) ∷ kept, events)

-- The loop of `Expire`.
unfoldable pub expire_peers :
    ℕ → List (List ℕ × PeerEntry) → List (List ℕ × PeerEntry) × List PeerEvent
expire_peers now [] = ([], [])
expire_peers now ((key, e) ∷ peers) = drop_expired now key e (expire_peers now peers)

unfoldable pub expire : ℕ → PeerTable → PeerTable × List PeerEvent
expire now t = (record t { peers = (expire_peers now t.peers).0 }, (expire_peers now t.peers).1)

-- `Peers`
unfoldable pub announced_peers : List (List ℕ × PeerEntry) → List Peer
announced_peers [] = []
announced_peers ((key, e) ∷ peers) =
    let rest = announced_peers peers in if e.announced then e.peer ∷ rest else rest
