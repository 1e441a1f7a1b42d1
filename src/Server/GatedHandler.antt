-- ===== src/Server/GatedHandler.antt =====
-- src/traghetto/server/GatedHandler.cpp: no request reaches the inner handler before the peer is paired.
-- The inner handler is a parameter: a function on its own state. The Pairing is shared with other
-- connections, so each call is given the Pairing that it meets.
pub mod Gate
use campiello.Common.{
  ℕ, ◌≡◌, ◌⊎◌, inl, inr, refl, sym, ap, ◌∙◌, Bool, true, false, Bool-cases, Option, none, some,
  List, [], ◌∷◌, if◌then◌else◌, ◌==◌, All, map, arith,
}
use campiello.Wire.MessageType
use campiello.Wire.Frame.{Frame}
use campiello.Wire.Handshake.{NodeIdentity, decode_node_identity}
use campiello.Wire.Error.{ErrorCode, access_denied, invalid_request, make_error}
use campiello.Trust.Fingerprint.{equals}
use campiello.Trust.Pairing.{Moment, Pairing, admit}

pub record GatedHandler (S : Type 0) : Type 0 where
  pub peer : List ℕ
  pub inner : S
  pub admitted : Bool

-- A reply, and the pairing and the handler behind it.
pub record Handled (S : Type 0) : Type 0 where
  pub reply : Frame
  pub pairing : Pairing
  pub handler : GatedHandler S

abbrev pub deny : {S : Type 0} → ErrorCode → Pairing → GatedHandler S → Handled S
deny code pairing g = record { reply = make_error code [] 0; pairing = pairing; handler = g }

-- `return fInner->Handle(request);`
abbrev pub forwarded : {S : Type 0} → Pairing → GatedHandler S → Frame × S → Handled S
forwarded pairing g (reply, s) = record {
  reply = reply;
  pairing = pairing;
  handler = record g { inner = s };
}

-- Behind `fPairing.Admit`.
abbrev pub let_in :
    {S : Type 0} → (Frame → S → Frame × S) → Frame → GatedHandler S → Bool × Pairing → Handled S
let_in handle_inner request g (true, pairing) =
    forwarded pairing (record g { admitted = true }) (handle_inner request g.inner)
let_in handle_inner request g (false, pairing) = deny access_denied pairing g

-- Behind `DecodeNodeIdentity`.
abbrev pub claimed :
    {S : Type 0}
    → (Frame → S → Frame × S)
    → Moment
    → Frame
    → Pairing
    → GatedHandler S
    → Option NodeIdentity
    → Handled S
claimed handle_inner m request pairing g none = deny invalid_request pairing g
claimed handle_inner m request pairing g (some id) =
    if equals id.fingerprint g.peer
    then let_in handle_inner request g (admit m g.peer id.node pairing)
    else deny access_denied pairing g

-- `Handle`
unfoldable pub handle :
    {S : Type 0} → (Frame → S → Frame × S) → Moment → Frame → Pairing → GatedHandler S → Handled S
handle handle_inner m request pairing g =
    if g.admitted
    then forwarded pairing g (handle_inner request g.inner)
    else if request.type == MessageType.hello
    then claimed handle_inner m request pairing g (decode_node_identity request.payload)
    else deny access_denied pairing g

-- A request, and what its call meets.
pub record Event : Type 0 where
  pub moment : Moment
  pub request : Frame
  pub pairing : Pairing

abbrev pub put_reply : {S : Type 0} → Frame → List Frame × S → List Frame × S
put_reply reply (replies, s) = (reply ∷ replies, s)

-- The requests of one connection, one after the other.
unfoldable pub handle_all :
    {S : Type 0}
    → (Frame → S → Frame × S)
    → List Event
    → GatedHandler S
    → List Frame × GatedHandler S
handle_all handle_inner [] g = ([], g)
handle_all handle_inner (e ∷ events) g =
    let h = handle handle_inner e.moment e.request e.pairing g in
    put_reply h.reply (handle_all handle_inner events h.handler)

-- The same requests given to the inner handler alone.
unfoldable pub inner_all : {S : Type 0} → (Frame → S → Frame × S) → List Frame → S → List Frame × S
inner_all handle_inner [] s = ([], s)
inner_all handle_inner (r ∷ requests) s =
    put_reply (handle_inner r s).0 (inner_all handle_inner requests (handle_inner r s).1)

-- A request that opens the gate for `peer`: a HELLO whose identity claims the peer's own fingerprint
-- and whom the pairing admits.
abbrev pub identity_opens : Event → List ℕ → Option NodeIdentity → Bool
identity_opens e peer none = false
identity_opens e peer (some id) =
    if equals id.fingerprint peer then (admit e.moment peer id.node e.pairing).0 else false

unfoldable pub opens : Event → List ℕ → Bool
opens e peer =
    if e.request.type == MessageType.hello
    then identity_opens e peer (decode_node_identity e.request.payload)
    else false
