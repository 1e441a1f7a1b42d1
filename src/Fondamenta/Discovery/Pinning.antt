-- ===== src/Fondamenta/Discovery/Pinning.antt =====
-- The client's connections and its store of pinned peers.
use campiello.Common.{
  ℕ, ◌≡◌, ◌≢◌, ◌⊎◌, subst, if◌then◌else◌, bytes_eq_sound, arith, refl, sym, ◌∙◌, inl, inr, Bool,
  true, false, ◌||◌, Bool-cases, Option, none, some, List, [], ◌∷◌, ◌==◌, is_empty, bytes_eq,
  bytes_eq_refl,
}
use campiello.Wire.Fields.Post.{Held}
use campiello.Trust.Store.{
  PinnedPeer, TrustDecision, trusted, unknown, key_changed, pin, find, is_trusted, evaluate,
  evaluate_name,
}
use campiello.Trust.Store.Pins.{find-pin}
use campiello.Fondamenta.Discovery.ConnectionManager.{
  PeerEndpoint, ConnectAttempt, Ask, ConnectionManager, find_conn, put_conn, find_endpoint, greeted,
  judged, connected, establish, established, at_endpoint, cached, manager_backend_for, ask_all,
}

-- A fingerprint that is pinned stays so when one is pinned.
trusted-pin :
    (fp name other : List ℕ) (peers : List PinnedPeer)
    → is_trusted other peers ≡ true
    → is_trusted other (pin fp name peers) ≡ true
trusted-pin fp name other peers h = elim (Bool-cases (bytes_eq fp other)) [
  | inl e ↦ rw (find-pin fp name other peers, e) refl
  | inr e ↦ rw (find-pin fp name other peers, e) h
]

pinned-trusted :
    (fp name : List ℕ) (peers : List PinnedPeer) → is_trusted fp (pin fp name peers) ≡ true
pinned-trusted fp name peers = rw (find-pin fp name fp peers, bytes_eq_refl fp) refl

evaluate_name-untrusted :
    (name : List ℕ) (peers : List PinnedPeer) → evaluate_name name peers ≢ trusted
unfolding evaluate_name
evaluate_name-untrusted name [] e = cc
evaluate_name-untrusted name (p ∷ peers) e = elim (Bool-cases (bytes_eq p.name name)) [
  | inl t ↦ let clash : key_changed ≡ trusted = sym (simp t refl) ∙ e in cc clash
  | inr f ↦ evaluate_name-untrusted name peers (sym (simp f refl) ∙ e)
]

evaluate-trusted :
    (fp name : List ℕ) (peers : List PinnedPeer)
    → evaluate fp name peers ≡ trusted
    → is_trusted fp peers ≡ true
unfolding evaluate
evaluate-trusted fp name peers e = elim (Bool-cases (is_trusted fp peers)) [
  | inl t ↦ t
  | inr f ↦ absurd (evaluate_name-untrusted name peers (sym (simp f refl) ∙ e))
]

module _ {L : Type 0} (P : L → Type 0) where
  -- Every connection has the property.
  unfoldable pub EveryConn : List (List ℕ × L) → Type 0
  EveryConn [] = Unit {0}
  EveryConn ((name, l) ∷ conns) = P l × EveryConn conns

  put_conn-Every :
      (name : List ℕ) (l : L) (conns : List (List ℕ × L))
      → EveryConn conns
      → P l
      → EveryConn (put_conn name l conns)
  unfolding put_conn EveryConn
  put_conn-Every name l [] h k = (k, tt)
  put_conn-Every name l ((other, j) ∷ conns) h k = elim (Bool-cases (bytes_eq other name)) [
    | inl e ↦ simp e (k, h.1)
    | inr e ↦ simp e (h.0, put_conn-Every name l conns h.1 k)
  ]

  find_conn-Held :
      (name : List ℕ) (conns : List (List ℕ × L)) → EveryConn conns → Held P (find_conn name conns)
  unfolding find_conn EveryConn
  find_conn-Held name [] h = tt
  find_conn-Held name ((other, l) ∷ conns) h = elim (Bool-cases (bytes_eq other name)) [
    | inl e ↦ simp e h.0
    | inr e ↦ simp e (find_conn-Held name conns h.1)
  ]

EveryConn-weaken :
    {L : Type 0} (P Q : L → Type 0) (conns : List (List ℕ × L))
    → ((l : L) → P l → Q l)
    → EveryConn P conns
    → EveryConn Q conns
unfolding EveryConn
EveryConn-weaken P Q [] k h = tt
EveryConn-weaken P Q ((name, l) ∷ conns) k h = (k l h.0, EveryConn-weaken P Q conns k h.1)

-- The keys that are pinned for a name.
abbrev pub keys_named : List ℕ → List PinnedPeer → List (List ℕ)
keys_named name [] = []
keys_named name (p ∷ peers) =
    let rest = keys_named name peers in if bytes_eq p.name name then p.fingerprint ∷ rest else rest

-- The name had no key at the start, or it has the keys that it had.
abbrev pub Remembers : List ℕ → List PinnedPeer → List PinnedPeer → Type 0
Remembers name start peers =
    (keys_named name start ≡ []) ⊎ (keys_named name peers ≡ keys_named name start)

keys_named-pin :
    (fp other name : List ℕ) (peers : List PinnedPeer)
    → is_trusted fp peers ≡ false
    → bytes_eq other name ≡ false
    → keys_named name (pin fp other peers) ≡ keys_named name peers
unfolding pin find
keys_named-pin fp other name [] h e = ground arith
keys_named-pin fp other name (p ∷ peers) h e = elim (Bool-cases (bytes_eq p.fingerprint fp)) [
  | inl same ↦ let clash : true ≡ false = sym (simp same refl) ∙ h in cc clash
  | inr differs ↦
      let rest : is_trusted fp peers ≡ false = sym (simp differs refl) ∙ h in
      let more = keys_named-pin fp other name peers rest e in rw differs (ground (arith, more))
]

evaluate_name-unknown :
    (name : List ℕ) (peers : List PinnedPeer)
    → evaluate_name name peers ≡ unknown
    → keys_named name peers ≡ []
unfolding evaluate_name
evaluate_name-unknown name [] h = refl
evaluate_name-unknown name (p ∷ peers) h = elim (Bool-cases (bytes_eq p.name name)) [
  | inl t ↦ let clash : key_changed ≡ unknown = sym (simp t refl) ∙ h in cc clash
  | inr f ↦ rw f (evaluate_name-unknown name peers (sym (simp f refl) ∙ h))
]

evaluate-unknown :
    (fp name : List ℕ) (peers : List PinnedPeer)
    → evaluate fp name peers ≡ unknown
    → (is_trusted fp peers ≡ false) × (keys_named name peers ≡ [])
unfolding evaluate
evaluate-unknown fp name peers e = elim (Bool-cases (is_trusted fp peers)) [
  | inl t ↦ let clash : trusted ≡ unknown = sym (simp t refl) ∙ e in cc clash
  | inr f ↦ (f, evaluate_name-unknown name peers (sym (simp f refl) ∙ e))
]

pin-Remembers :
    (fp other name : List ℕ) (start peers : List PinnedPeer)
    → evaluate fp other peers ≡ unknown
    → Remembers name start peers
    → Remembers name start (pin fp other peers)
pin-Remembers fp other name start peers e (inl h) = inl h
pin-Remembers fp other name start peers e (inr h) =
    let (new, free) = evaluate-unknown fp other peers e in
    elim (Bool-cases (bytes_eq other name)) [
      | inl same ↦
          inl (sym h ∙ subst (λ n. keys_named n peers ≡ []) (bytes_eq_sound other name same) free)
      | inr differs ↦ inr (keys_named-pin fp other name peers new differs ∙ h)
    ]

-- The key of the peer at the other end is pinned.
abbrev pub Pinned : {L : Type 0} → (L → List ℕ) → List PinnedPeer → L → Type 0
Pinned fingerprint_of peers l = is_trusted (fingerprint_of l) peers ≡ true

module _ {L : Type 0} (fingerprint_of : L → List ℕ) (name : List ℕ) (start : List PinnedPeer) where
  abbrev pub IsManager : ConnectionManager L → Type 0
  IsManager m = EveryConn (Pinned fingerprint_of m.trust) m.conns × Remembers name start m.trust

  greeted-Pinned :
      (e : PeerEndpoint) (l : L) (greets : Bool) (m : ConnectionManager L)
      → IsManager m
      → Pinned fingerprint_of m.trust l
      → IsManager (greeted fingerprint_of e l greets m).1
  greeted-Pinned e l true m (h, r) k =
      (put_conn-Every (Pinned fingerprint_of m.trust) e.name l m.conns h k, r)
  greeted-Pinned e l false m h k = h

  judged-Pinned :
      (e : PeerEndpoint) (l : L) (greets : Bool) (m : ConnectionManager L) (d : TrustDecision)
      → evaluate (fingerprint_of l) e.name m.trust ≡ d
      → IsManager m
      → IsManager (judged fingerprint_of e l greets m d).1
  judged-Pinned e l greets m key_changed d h = h
  judged-Pinned e l greets m trusted d h =
      greeted-Pinned e l greets m h (evaluate-trusted (fingerprint_of l) e.name m.trust d)
  judged-Pinned e l greets m unknown d (h, r) =
      let fp = fingerprint_of l in
      let more = pin fp e.name m.trust in
      greeted-Pinned e l greets (record m { trust = more })
        (
          EveryConn-weaken (Pinned fingerprint_of m.trust) (Pinned fingerprint_of more) m.conns
              (λ k t. trusted-pin fp e.name (fingerprint_of k) m.trust t) h,
          pin-Remembers fp e.name name start m.trust d r,
        )
        (pinned-trusted fp e.name m.trust)

  connected-Pinned :
      (e : PeerEndpoint) (greets : Bool) (m : ConnectionManager L) (o : Option L)
      → IsManager m
      → IsManager (connected fingerprint_of e greets m o).1
  connected-Pinned e greets m none h = h
  connected-Pinned e greets m (some l) h = judged-Pinned e l greets m _ refl h

  establish-Pinned :
      (e : PeerEndpoint) (a : ConnectAttempt L) (m : ConnectionManager L)
      → IsManager m
      → IsManager (establish fingerprint_of e a m).1
  unfolding establish
  establish-Pinned e a m h = elim (Bool-cases (is_empty e.address || (e.port == 0))) [
    | inl t ↦ simp t h
    | inr f ↦ simp f (connected-Pinned e a.greets m a.link h)
  ]

  -- What a call leaves and gives: only connections to pinned peers.
  abbrev pub GivesPinned : (Option L × ConnectionManager L) → Type 0
  GivesPinned a = IsManager a.1 × Held (Pinned fingerprint_of a.1.trust) a.0

  established-Pinned :
      (asked : List ℕ) (a : Bool × ConnectionManager L)
      → IsManager a.1
      → GivesPinned (established fingerprint_of asked a)
  established-Pinned asked (false, m) h = (h, tt)
  established-Pinned asked (true, m) h =
      (h, find_conn-Held (Pinned fingerprint_of m.trust) asked m.conns h.0)

  at_endpoint-Pinned :
      (asked : List ℕ) (a : ConnectAttempt L) (m : ConnectionManager L) (e : Option PeerEndpoint)
      → IsManager m
      → GivesPinned (at_endpoint fingerprint_of asked a m e)
  at_endpoint-Pinned asked a m none h = (h, tt)
  at_endpoint-Pinned asked a m (some e) h =
      established-Pinned asked (establish fingerprint_of e a m) (establish-Pinned e a m h)

  backend_for-Pinned :
      (q : Ask L) (m : ConnectionManager L)
      → IsManager m
      → GivesPinned (manager_backend_for fingerprint_of q m)
  unfolding manager_backend_for
  backend_for-Pinned q m h =
      go (find_conn q.name m.conns)
        (find_conn-Held (Pinned fingerprint_of m.trust) q.name m.conns h.0)
    where
      go :
          (o : Option L)
          → Held (Pinned fingerprint_of m.trust) o
          → GivesPinned (cached fingerprint_of q m o)
      go none k = at_endpoint-Pinned q.name q.attempt m (find_endpoint q.name q.endpoints) h
      go (some l) k = (h, k)

  ask_all-Pinned :
      (asks : List (Ask L)) (m : ConnectionManager L)
      → IsManager m
      → IsManager (ask_all fingerprint_of asks m).1
  unfolding ask_all
  ask_all-Pinned [] m h = h
  ask_all-Pinned (q ∷ asks) m h =
      ask_all-Pinned asks (manager_backend_for fingerprint_of q m).1 (backend_for-Pinned q m h).0

  -- After any calls of BackendFor on a manager without connections, whatever the directory lists and
  -- however the connect and the HELLO end at each of them: a call gives a connection only to a peer whose
  -- key is pinned in the client's store by then, every connection that is kept is to such a peer, and a name
  -- that had a key in the store at the start has exactly the keys that it had.
  pub manager_backend_for-keys :
      (asks : List (Ask L)) (q : Ask L)
      → let m = (ask_all fingerprint_of asks (record { trust = start; conns = [] })).1 in
        let a = manager_backend_for fingerprint_of q m in
        EveryConn (Pinned fingerprint_of a.1.trust) a.1.conns
        × Held (Pinned fingerprint_of a.1.trust) a.0
        × ((keys_named name start ≡ []) ⊎ (keys_named name a.1.trust ≡ keys_named name start))
  unfolding EveryConn
  manager_backend_for-keys asks q =
      let given =
        backend_for-Pinned q (ask_all fingerprint_of asks (record { trust = start; conns = [] })).1
          (ask_all-Pinned asks (record { trust = start; conns = [] }) (tt, inr refl)) in
      (given.0.0, given.1, given.0.1)
