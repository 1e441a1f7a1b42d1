-- ===== src/Wire/Handshake/RoundTrip.antt =====
-- The handshake reaches the other side as it was sent.
use campiello.Common.{ℕ, ◌≤◌, ◌<◌, ◌^◌, ◌≡◌, refl, some, List, length, arith, All}
use campiello.Common.Text.{codes}
use campiello.Wire.Cbor.Reads.{Reads, Reads-last, Reads-pure, Reads-when}
use campiello.Wire.Cbor.Monad.{pure, when}
use campiello.Wire.Cbor.Writer.{write_text}
use campiello.Wire.Cbor.Head.{uint-Reads, text-Reads, bytes-Reads}
use campiello.Wire.Fields.{at_most}
use campiello.Wire.Fields.Encoded.{
  Entries-last, Entries-cons, Reads-map, Reads-once, decode-Reads, text-pos,
}
use campiello.Wire.Arrays.{Reads-items}
use campiello.Wire.Handshake.{
  NodeIdentity, fingerprint_bytes, max_node_name_bytes, max_caps, max_cap_bytes,
  encode_node_identity, is_version, is_fingerprint, read_cap, identity_value, finish_identity,
  decode_node_identity,
}

abbrev pub IsCap : List ℕ → Type 0
IsCap c = length c ≤ max_cap_bytes

-- An identity that a node may announce.
pub record IsIdentity (id : NodeIdentity) : Type 0 where
  pub positive : 0 < id.version
  pub version : id.version < 2 ^ 32
  pub fingerprint : length id.fingerprint ≡ fingerprint_bytes
  pub node : length id.node ≤ max_node_name_bytes
  pub each : All IsCap id.caps
  pub count : length id.caps ≤ max_caps

cap-Reads : (c : List ℕ) → IsCap c → Reads read_cap 0 (write_text c) c × (1 ≤ length (write_text c))
cap-Reads c h = (
  Reads-last (λ v. when (at_most max_cap_bytes v) (pure v)) (text-Reads c (omega arith))
      (Reads-when (ground arith) (Reads-pure c)) (omega arith),
  text-pos c,
)

-- An identity with a positive uint32_t version, a fingerprint of 32 bytes, a name of at most 128 bytes
-- and at most 32 capabilities of at most 32 bytes is decoded as it was encoded.
pub decode-encode_node_identity :
    (id : NodeIdentity) → IsIdentity id → decode_node_identity (encode_node_identity id) ≡ some id
unfolding decode_node_identity encode_node_identity
decode-encode_node_identity id h = decode-Reads _ (
    Reads-map identity_value finish_identity (omega arith)
      (Entries-cons identity_value (codes "v") (omega arith)
        (Reads-once _ is_version (ground (arith, h.positive, h.version))
          (uint-Reads id.version (omega (arith, h.version))))
        (Entries-cons identity_value (codes "fp") (omega arith)
          (Reads-once _ is_fingerprint (ground (arith, h.fingerprint))
            (bytes-Reads id.fingerprint (omega (arith, h.fingerprint))))
          (Entries-cons identity_value (codes "caps") (omega arith)
            (Reads-when refl (
              Reads-last (λ c. pure _)
                (Reads-items IsCap write_text read_cap cap-Reads max_caps id.caps h.each h.count
                  (omega (arith, h.count)))
                (Reads-pure _) (omega arith)))
            (Entries-last identity_value (codes "node") (omega arith) (
              Reads-once _ (at_most max_node_name_bytes) (ground (arith, h.node))
                (text-Reads id.node (omega (arith, h.node))))))))
      refl)
