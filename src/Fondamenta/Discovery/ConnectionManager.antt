-- ===== src/Fondamenta/Discovery/ConnectionManager.antt =====
-- src/fondamenta/discovery/ConnectionManager.h and ConnectionManager.cpp: the connections to peers, made
-- when they are asked for and kept by name. `L` is a connection with the backend on it, `fingerprint_of` the
-- key that it captured. What the directory lists, and how the TLS connect and the HELLO end, are
-- arguments of each call.
use campiello.Common.{
  ℕ, Bool, true, false, ◌||◌, Option, none, some, List, [], ◌∷◌, map, if◌then◌else◌, ◌==◌, bytes_eq,
  is_empty,
}
use campiello.Trust.Store.{PinnedPeer, TrustDecision, trusted, unknown, key_changed, pin, evaluate}

pub record PeerEndpoint : Type 0 where
  pub name : List ℕ
  pub address : List ℕ
  pub port : ℕ

-- How the calls of `Establish` end this time: the connect, and the HELLO on what it gives.
pub record ConnectAttempt (L : Type 0) : Type 0 where
  pub link : Option L
  pub greets : Bool

pub record ConnectionManager (L : Type 0) : Type 0 where
  pub trust : List PinnedPeer
  pub conns : List (List ℕ × L)

-- `fConns.find`
unfoldable pub find_conn : {L : Type 0} → List ℕ → List (List ℕ × L) → Option L
find_conn name [] = none
find_conn name ((other, l) ∷ conns) = if bytes_eq other name then some l else find_conn name conns

-- `fConns[name] = ...`
unfoldable pub put_conn : {L : Type 0} → List ℕ → L → List (List ℕ × L) → List (List ℕ × L)
put_conn name l [] = (name, l) ∷ []
put_conn name l ((other, k) ∷ conns) =
    let rest = put_conn name l conns in
    if bytes_eq other name then (other, l) ∷ conns else (other, k) ∷ rest

unfoldable pub find_endpoint : List ℕ → List PeerEndpoint → Option PeerEndpoint
find_endpoint name [] = none
find_endpoint name (e ∷ endpoints) =
    if bytes_eq e.name name then some e else find_endpoint name endpoints

abbrev pub endpoint_names : List PeerEndpoint → List (List ℕ)
endpoint_names endpoints = map (λ e. e.name) endpoints

-- A call of BackendFor, with what the directory lists and how an attempt ends at that moment.
pub record Ask (L : Type 0) : Type 0 where
  pub name : List ℕ
  pub endpoints : List PeerEndpoint
  pub attempt : ConnectAttempt L

module _ {L : Type 0} (fingerprint_of : L → List ℕ) where
  -- The HELLO, behind the decision on trust.
  abbrev pub greeted : PeerEndpoint → L → Bool → ConnectionManager L → Bool × ConnectionManager L
  greeted e l greets m =
      if greets then (true, record m { conns = put_conn e.name l m.conns }) else (false, m)

  abbrev pub judged :
      PeerEndpoint → L → Bool → ConnectionManager L → TrustDecision → Bool × ConnectionManager L
  judged e l greets m key_changed = (false, m)
  judged e l greets m unknown =
      greeted e l greets (record m { trust = pin (fingerprint_of l) e.name m.trust })
  judged e l greets m trusted = greeted e l greets m

  abbrev pub connected :
      PeerEndpoint → Bool → ConnectionManager L → Option L → Bool × ConnectionManager L
  connected e greets m none = (false, m)
  connected e greets m (some l) = judged e l greets m (evaluate (fingerprint_of l) e.name m.trust)

  unfoldable pub establish :
      PeerEndpoint → ConnectAttempt L → ConnectionManager L → Bool × ConnectionManager L
  establish e a m =
      if is_empty e.address || (e.port == 0) then (false, m) else connected e a.greets m a.link

  -- `return fConns[name].backend.get()`
  abbrev pub established : List ℕ → Bool × ConnectionManager L → Option L × ConnectionManager L
  established name (false, m) = (none, m)
  established name (true, m) = (find_conn name m.conns, m)

  abbrev pub at_endpoint :
      List ℕ
      → ConnectAttempt L
      → ConnectionManager L
      → Option PeerEndpoint
      → Option L × ConnectionManager L
  at_endpoint name a m none = (none, m)
  at_endpoint name a m (some e) = established name (establish e a m)

  abbrev pub cached : Ask L → ConnectionManager L → Option L → Option L × ConnectionManager L
  cached q m none = at_endpoint q.name q.attempt m (find_endpoint q.name q.endpoints)
  cached q m (some l) = (some l, m)

  -- `BackendFor`
  unfoldable pub manager_backend_for : Ask L → ConnectionManager L → Option L × ConnectionManager L
  manager_backend_for q m = cached q m (find_conn q.name m.conns)

  -- Calls of BackendFor.
  unfoldable pub ask_all :
      List (Ask L) → ConnectionManager L → List (Option L) × ConnectionManager L
  ask_all [] m = ([], m)
  ask_all (q ∷ asks) m =
      let a = manager_backend_for q m in let rest = ask_all asks a.1 in (a.0 ∷ rest.0, rest.1)

abbrev pub close_all : {L : Type 0} → ConnectionManager L → ConnectionManager L
close_all m = record m { conns = [] }
