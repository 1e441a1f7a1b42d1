-- ===== src/Bricola/PeerTable/Touched.antt =====
-- src/bricola/mdns/PeerTable.cpp, the second pass of Ingest: it announces nobody and loses nobody.
use campiello.Common.{
  ℕ, ◌≡◌, refl, ◌∙◌, Bool, true, false, Option, none, some, List, [], ◌∷◌, if◌then◌else◌, bytes_eq,
  ◌==◌, arith,
}
use campiello.Bricola.MdnsWire.{DnsRecord, type_ptr, type_srv, type_txt}
use campiello.Bricola.MdnsWire.Records.{Srv, decode_ptr, decode_srv, decode_txt}
use campiello.Bricola.Keys.{find_key}
use campiello.Bricola.Keys.Laws.{find_key-Each}
use campiello.Bricola.PeerTable.{Peer, PeerEntry, parse_uint, ends_with, instance_suffix}
use campiello.Bricola.PeerTable.Ingest.{
  Pass, touched_entry, or_new, touch, remove_later, refreshed, ptr_target, located, srv_decoded,
  with_fact, with_facts, version_of, port_of, described, txt_decoded, instance_record, take_record,
  take_records,
}
use campiello.Bricola.PeerTable.Watch.{watch_all, announced_of, IsKeyed, IsTable}
use campiello.Bricola.PeerTable.Kept.{Tells, put_key-Tells}

version_of-key : (p : Peer) (o : Option ℕ) → (version_of p o).key ≡ p.key
version_of-key p none = refl
version_of-key p (some n) = ground arith

port_of-key : (p : Peer) (o : Option ℕ) → (port_of p o).key ≡ p.key
port_of-key p none = refl
port_of-key p (some n) = ground arith

with_fact-key : (p : Peer) (pair : List ℕ × List ℕ) → (with_fact p pair).key ≡ p.key
with_fact-key p (key, value) =
    ground (arith, version_of-key p (parse_uint value), port_of-key p (parse_uint value))

with_facts-key : (pairs : List (List ℕ × List ℕ)) (p : Peer) → (with_facts pairs p).key ≡ p.key
unfolding with_facts
with_facts-key [] p = refl
with_facts-key (pair ∷ pairs) p = with_facts-key pairs (with_fact p pair) ∙ with_fact-key p pair

or_new-key :
    (service key : List ℕ) (o : Option PeerEntry)
    → ((e : PeerEntry) → o ≡ some e → e.peer.key ≡ key)
    → (or_new service key o).peer.key ≡ key
or_new-key service key none h = refl
or_new-key service key (some e) h = h e refl

or_new-announced :
    (service key : List ℕ) (o : Option PeerEntry)
    → announced_of o ≡ (or_new service key o).announced
or_new-announced service key none = refl
or_new-announced service key (some e) = refl

module _ (k service : List ℕ) where
  touch-Tells :
      (key : List ℕ) (change : Peer → Peer) (pass : Pass)
      → ((p : Peer) → (change p).key ≡ p.key)
      → IsTable pass.peers
      → Tells k pass.peers [] (touch service key change pass).peers
  unfolding touch watch_all
  touch-Tells key change pass c h =
      let e = touched_entry service key pass in
      put_key-Tells k key e.announced (record e { peer = change e.peer }) [] pass.peers h
        (or_new-announced service key (find_key key pass.peers))
        (c e.peer
          ∙ or_new-key service key (find_key key pass.peers)
              (λ e f. find_key-Each IsKeyed key e pass.peers h.1 f))
        refl (λ j known apart. refl)

  if-Tells :
      (b : Bool) (pass x y : Pass)
      → Tells k pass.peers [] x.peers
      → Tells k pass.peers [] y.peers
      → Tells k pass.peers [] (if b then x else y).peers
  if-Tells true pass x y h i = h
  if-Tells false pass x y h i = i

  stays : (pass : Pass) → IsTable pass.peers → Tells k pass.peers [] pass.peers
  unfolding watch_all
  stays pass h = (h, refl)

  ptr_target-Tells :
      (now : ℕ) (r : DnsRecord) (pass : Pass) (o : Option (List ℕ))
      → IsTable pass.peers
      → Tells k pass.peers [] (ptr_target service now r pass o).peers
  ptr_target-Tells now r pass none h = stays pass h
  ptr_target-Tells now r pass (some target) h =
      if-Tells (r.ttl == 0) pass _ _ (stays pass h)
        (touch-Tells target (refreshed now r.ttl) pass (λ p. refl) h)

  srv_decoded-Tells :
      (now : ℕ) (r : DnsRecord) (pass : Pass) (o : Option Srv)
      → IsTable pass.peers
      → Tells k pass.peers [] (srv_decoded service now r pass o).peers
  srv_decoded-Tells now r pass none h = stays pass h
  srv_decoded-Tells now r pass (some srv) h =
      touch-Tells r.name (located now r.ttl srv) pass (λ p. refl) h

  txt_decoded-Tells :
      (now : ℕ) (r : DnsRecord) (pass : Pass) (o : Option (List (List ℕ × List ℕ)))
      → IsTable pass.peers
      → Tells k pass.peers [] (txt_decoded service now r pass o).peers
  txt_decoded-Tells now r pass none h = stays pass h
  txt_decoded-Tells now r pass (some pairs) h =
      touch-Tells r.name (described now r.ttl pairs) pass (with_facts-key pairs) h

  instance_record-Tells :
      (r : DnsRecord) (pass next : Pass)
      → IsTable pass.peers
      → Tells k pass.peers [] next.peers
      → Tells k pass.peers [] (instance_record service r pass next).peers
  instance_record-Tells r pass next h i =
      if-Tells (ends_with r.name (instance_suffix service)) pass _ _
        (if-Tells (r.ttl == 0) pass (remove_later r.name pass) next (stays pass h) i) (stays pass h)

  take_record-Tells :
      (buf : List ℕ) (now : ℕ) (r : DnsRecord) (pass : Pass)
      → IsTable pass.peers
      → Tells k pass.peers [] (take_record service buf now r pass).peers
  unfolding take_record
  take_record-Tells buf now r pass h =
      if-Tells (r.type == type_ptr) pass _ _
        (if-Tells (bytes_eq r.name service) pass _ _
          (ptr_target-Tells now r pass (decode_ptr buf r) h) (stays pass h))
        (if-Tells (r.type == type_srv) pass _ _
          (instance_record-Tells r pass _ h (srv_decoded-Tells now r pass (decode_srv buf r) h))
          (if-Tells (r.type == type_txt) pass _ _
            (instance_record-Tells r pass _ h (txt_decoded-Tells now r pass (decode_txt r) h))
            (stays pass h)))

  pub take_records-Tells :
      (buf : List ℕ) (now : ℕ) (records : List DnsRecord) (pass : Pass)
      → IsTable pass.peers
      → Tells k pass.peers [] (take_records service buf now records pass).peers
  unfolding take_records watch_all
  take_records-Tells buf now [] pass h = stays pass h
  take_records-Tells buf now (r ∷ records) pass h =
      let first = take_record-Tells buf now r pass h in
      let rest = take_records-Tells buf now records (take_record service buf now r pass) first.0 in
      (rest.0, first.1 ∙ rest.1)
