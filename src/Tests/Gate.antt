-- ===== src/Tests/Gate.antt =====
-- The gate at a concrete peer: a request before the handshake, then the HELLO, then the request again.
use campiello.Common.{
  ℕ, suc, ◌≡◌, refl, ap, true, false, List, [], ◌∷◌, ◌++◌, length, map, arith, All,
}
use campiello.Common.Text.{codes}
use campiello.Wire.MessageType
use campiello.Wire.Frame.{Frame}
use campiello.Wire.Handshake.{NodeIdentity, make_hello}
use campiello.Wire.Handshake.RoundTrip.{IsIdentity, decode-encode_node_identity}
use campiello.Trust.Store.{find, evaluate}
use campiello.Trust.Pairing.{Moment, Pairing, new_pairing, admit}
use campiello.Server.GatedHandler.{
  GatedHandler, Event, handle_all, inner_all, opens, identity_opens,
}
use campiello.Server.GatedHandler.Gate.{IsRefusal, handle_all-shut, handle_all-opens}

abbrev own_key : List ℕ
own_key =
    1 ∷ 0 ∷ 0 ∷ 0 ∷ 0 ∷ 0 ∷ 0 ∷ 0 ∷ 0 ∷ 0 ∷ 0 ∷ 0 ∷ 0 ∷ 0 ∷ 0 ∷ 0 ∷ 0 ∷ 0 ∷ 0 ∷ 0 ∷ 0 ∷ 0 ∷ 0 ∷ 0
    ∷ 0 ∷ 0 ∷ 0 ∷ 0 ∷ 0 ∷ 0 ∷ 0 ∷ 9 ∷ []

abbrev identity : NodeIdentity
identity = record {
  version = 1;
  fingerprint = own_key;
  caps = codes "bfs" ∷ [];
  node = codes "casa";
}

identity-IsIdentity : IsIdentity identity
identity-IsIdentity = record {
  positive = omega arith;
  version = omega arith;
  fingerprint = refl;
  node = omega arith;
  each = omega arith;
  count = omega arith;
}

abbrev pairing : Pairing
pairing = new_pairing 5 15000 0 false (record { fingerprint = own_key; name = codes "casa" } ∷ [])

abbrev moment : Moment
moment = record { now = 50; allow = false; writable = true }

abbrev list_root : Frame
list_root = record { version = 1; type = MessageType.list; request_id = 2; payload = [] }

abbrev early : Event
early = record { moment = moment; request = list_root; pairing = pairing }

abbrev greeting : Event
greeting = record { moment = moment; request = make_hello identity 1; pairing = pairing }

-- A handler that counts its calls and echoes.
abbrev echo : Frame → ℕ → Frame × ℕ
echo request n = (request, suc n)

abbrev gate : GatedHandler ℕ
gate = record { peer = own_key; inner = 0; admitted = false }

greeting-opens : opens greeting own_key ≡ true
unfolding opens admit evaluate find
greeting-opens =
    ap (identity_opens greeting own_key) (decode-encode_node_identity identity identity-IsIdentity)

early_shut : opens early own_key ≡ false
unfolding opens
early_shut = refl

handle_all-shut_example :
    ((handle_all echo (early ∷ []) gate).1 ≡ gate)
    × All IsRefusal (handle_all echo (early ∷ []) gate).0
    × (length (handle_all echo (early ∷ []) gate).0 ≡ 1)
handle_all-shut_example = handle_all-shut echo (early ∷ []) gate refl (early_shut, tt)

handle_all-opens_example :
    (refusals : List Frame) × (length refusals ≡ 1)
    × All IsRefusal refusals
    × (handle_all echo ((early ∷ []) ++ (greeting ∷ early ∷ [])) gate ≡ (
      refusals ++ (inner_all echo (map (λ b. b.request) (greeting ∷ early ∷ [])) 0).0,
      record {
        peer = own_key;
        inner = (inner_all echo (map (λ b. b.request) (greeting ∷ early ∷ [])) 0).1;
        admitted = true;
      },
    ))
handle_all-opens_example =
    handle_all-opens echo (early ∷ []) greeting (early ∷ []) gate refl (early_shut, tt)
      greeting-opens
