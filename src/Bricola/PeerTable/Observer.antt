-- ===== src/Bricola/PeerTable/Observer.antt =====
-- src/bricola/mdns/PeerTable.cpp: calls of Ingest and Expire in a row, and the observer.
use campiello.Common.{ℕ, ◌≡◌, refl, false, Option, none, some, List, [], ◌∷◌, ◌++◌, All}
use campiello.Bricola.MdnsWire.{DnsMessage, DnsRecord, parse}
use campiello.Bricola.Keys.{find_key}
use campiello.Bricola.PeerTable.{PeerTable, PeerEvent, expire}
use campiello.Bricola.PeerTable.Ingest.{
  Pass, harvest, take_records, remove_all, publish_all, ingest_records, ingest_message, ingest,
  after_events,
}
use campiello.Bricola.PeerTable.Watch.{
  watch_all, announced_in, IsTable, expire-IsTable, expire-watch,
}
use campiello.Bricola.PeerTable.Kept.{Tells, Tells-chain, publish_all-Tells, remove_all-Tells}
use campiello.Bricola.PeerTable.Touched.{take_records-Tells}
use campiello.Bricola.PeerTable.Found.{
  IsHonest, All-append, ingest_message-IsHonest, expire-IsHonest,
}

-- The constructor.
unfoldable pub new_table : List ℕ → PeerTable
new_table service = record { service = service; peers = []; host_addrs = [] }

-- A datagram with its sender at a moment, or a moment at which the table is swept.
pub data PeerStep : Type 0 where
  datagram : List ℕ → List ℕ → ℕ → PeerStep
  sweep : ℕ → PeerStep

unfoldable pub run_step : PeerStep → PeerTable → PeerTable × List PeerEvent
run_step (datagram buf src now) t = ingest buf src now t
run_step (sweep now) t = expire now t

unfoldable pub run_steps : List PeerStep → PeerTable → PeerTable × List PeerEvent
run_steps [] t = (t, [])
run_steps (s ∷ steps) t = let step = run_step s t in after_events step.1 (run_steps steps step.0)

ingest_records-Tells :
    (k buf src : List ℕ) (now : ℕ) (records : List DnsRecord) (t : PeerTable)
    → IsTable t.peers
    → Tells k t.peers
        (ingest_records buf src now records t).1
        (ingest_records buf src now records t).0.peers
unfolding ingest_records watch_all
ingest_records-Tells k buf src now records t h =
    let hosts = harvest t.host_addrs records in
    let start : Pass = record { peers = t.peers; touched = []; removed = []; before = [] } in
    let taken = take_records t.service buf now records start in
    let cleared = remove_all taken.removed taken in
    let told = publish_all hosts src cleared.0.before cleared.0.touched cleared.0.peers in
    let first = take_records-Tells k t.service buf now records start h in
    let second = remove_all-Tells k taken.removed taken first.0 in
    let third =
      publish_all-Tells k hosts src cleared.0.before cleared.0.touched cleared.0.peers second.0 in
    Tells-chain k t.peers taken.peers told.0 [] (cleared.1 ++ told.1) first
      (Tells-chain k taken.peers cleared.0.peers told.0 cleared.1 told.1 second third)

ingest_message-Tells :
    (k buf src : List ℕ) (now : ℕ) (t : PeerTable) (o : Option DnsMessage)
    → IsTable t.peers
    → Tells k t.peers (ingest_message buf src now t o).1 (ingest_message buf src now t o).0.peers
unfolding watch_all
ingest_message-Tells k buf src now t none h = (h, refl)
ingest_message-Tells k buf src now t (some m) h =
    ingest_records-Tells k buf src now (m.answers ++ m.additionals) t h

run_step-Tells :
    (k : List ℕ) (s : PeerStep) (t : PeerTable)
    → IsTable t.peers
    → Tells k t.peers (run_step s t).1 (run_step s t).0.peers
unfolding run_step ingest expire
run_step-Tells k (datagram buf src now) t h = ingest_message-Tells k buf src now t (parse buf) h
run_step-Tells k (sweep now) t h = (expire-IsTable now t.peers h, expire-watch now k t.peers h)

run_steps-Tells :
    (k : List ℕ) (steps : List PeerStep) (t : PeerTable)
    → IsTable t.peers
    → Tells k t.peers (run_steps steps t).1 (run_steps steps t).0.peers
unfolding run_steps watch_all
run_steps-Tells k [] t h = (h, refl)
run_steps-Tells k (s ∷ steps) t h =
    let step = run_step s t in
    let first = run_step-Tells k s t h in
    Tells-chain k t.peers step.0.peers (run_steps steps step.0).0.peers step.1
      (run_steps steps step.0).1 first (run_steps-Tells k steps step.0 first.0)

run_step-IsHonest : (s : PeerStep) (t : PeerTable) → All IsHonest (run_step s t).1
unfolding run_step ingest expire
run_step-IsHonest (datagram buf src now) t = ingest_message-IsHonest buf src now t (parse buf)
run_step-IsHonest (sweep now) t = expire-IsHonest now t.peers

run_steps-IsHonest : (steps : List PeerStep) (t : PeerTable) → All IsHonest (run_steps steps t).1
unfolding run_steps
run_steps-IsHonest [] t = tt
run_steps-IsHonest (s ∷ steps) t =
    let step = run_step s t in
    All-append step.1 (run_steps steps step.0).1 (run_step-IsHonest s t)
      (run_steps-IsHonest steps step.0)

-- Whatever datagrams a new table ingests and whenever it is swept, an observer is told that a peer is
-- found only while it does not know it, and that it is updated or lost only while it knows it; it then
-- knows, of every key, whether the table announces a peer under it; and every peer that is found has a
-- port and an address.
pub run_steps-watch :
    (service : List ℕ) (steps : List PeerStep) (key : List ℕ)
    → let r = run_steps steps (new_table service) in
      (watch_all key (some false) r.1 ≡ some (announced_in key r.0.peers)) × All IsHonest r.1
unfolding new_table find_key
run_steps-watch service steps key = (
  (run_steps-Tells key steps (new_table service) (tt, tt)).1,
  run_steps-IsHonest steps (new_table service),
)
