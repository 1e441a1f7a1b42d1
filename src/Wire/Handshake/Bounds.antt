-- ===== src/Wire/Handshake/Bounds.antt =====
-- What the handshake decoder accepts, on any payload.
use campiello.Common.{
  ℕ, ◌≤◌, ◌<◌, ◌^◌, ◌≡◌, Option, none, some, List, length, arith, bytes_eq, is_empty,
}
use campiello.Common.Text.{codes}
use campiello.Wire.Cbor.Monad.{pure, when}
use campiello.Wire.Cbor.Reader.{read_uint, read_bytes, read_text}
use campiello.Wire.Fields.{at_most, all_three}
use campiello.Wire.Fields.Post.{
  Post, Held, Post-if, Post-ignore, Post-once, Post-map, Post-bind, Post-any, Post-when, Post-pure,
  decode-Post,
}
use campiello.Wire.Arrays.{AllWithin, Post-items, read_items}
use campiello.Wire.Handshake.{
  NodeIdentity, IdentityFields, fingerprint_bytes, max_node_name_bytes, max_caps, max_cap_bytes,
  is_version, is_fingerprint, read_cap, identity_value, identity_of, no_identity, finish_identity,
  read_identity, decode_node_identity,
}
use campiello.Wire.Handshake.RoundTrip.{IsIdentity, IsCap}

IsVersion : ℕ → Type 0
IsVersion v = (0 < v) × (v < 2 ^ 32)

IsFingerprint : List ℕ → Type 0
IsFingerprint f = length f ≡ fingerprint_bytes

IsNode : List ℕ → Type 0
IsNode n = length n ≤ max_node_name_bytes

-- The fields read so far are within their bounds.
IdentityHeld : IdentityFields → Type 0
IdentityHeld s =
    Held IsVersion s.version
    × Held IsFingerprint s.fingerprint
    × Held IsNode s.node
    × AllWithin IsCap max_caps s.caps

read_cap-Post : Post read_cap IsCap
read_cap-Post =
    Post-bind IsCap (λ c. Unit) (λ c. when (at_most max_cap_bytes c) (pure c)) read_text
      (Post-any read_text)
      (λ c _.
        Post-when IsCap (at_most max_cap_bytes c) (pure c) (λ t. Post-pure IsCap c (ground arith)))

identity_value-Post :
    (s : IdentityFields) (key : List ℕ) → IdentityHeld s → Post (identity_value s key) IdentityHeld
unfolding IdentityHeld IsVersion IsFingerprint IsNode
identity_value-Post s key (hv, hf, hn, hc) =
    Post-if IdentityHeld (bytes_eq key (codes "v")) _ _
      (Post-once IdentityHeld s.version read_uint is_version _ (λ v t. (ground arith, hf, hn, hc)))
      (Post-if IdentityHeld (bytes_eq key (codes "fp")) _ _
        (Post-once IdentityHeld s.fingerprint read_bytes is_fingerprint _
          (λ f t. (hv, ground arith, hn, hc)))
        (Post-if IdentityHeld (bytes_eq key (codes "node")) _ _
          (Post-once IdentityHeld s.node read_text (at_most max_node_name_bytes) _
            (λ n t. (hv, hf, ground arith, hc)))
          (Post-if IdentityHeld (bytes_eq key (codes "caps")) _ _
            (Post-when IdentityHeld (is_empty s.caps) _ (λ t.
              Post-bind IdentityHeld (AllWithin IsCap max_caps) (λ c. pure (record s { caps = c }))
                (read_items max_caps read_cap) (Post-items IsCap read_cap read_cap-Post max_caps)
                (λ c q. Post-pure IdentityHeld (record s { caps = c }) (hv, hf, hn, q))))
            (Post-ignore IdentityHeld s (hv, hf, hn, hc)))))

identity_of-Held :
    (caps : List (List ℕ)) (v : Option ℕ) (f n : Option (List ℕ))
    → AllWithin IsCap max_caps caps
    → Held IsVersion v
    → Held IsFingerprint f
    → Held IsNode n
    → Held IsIdentity (identity_of caps (all_three v f n))
unfolding IsVersion IsFingerprint IsNode
identity_of-Held caps none f n c h k l = tt
identity_of-Held caps (some v) none n c h k l = tt
identity_of-Held caps (some v) (some f) none c h k l = tt
identity_of-Held caps (some v) (some f) (some n) c h k l = record {
  positive = h.0;
  version = h.1;
  fingerprint = k;
  node = l;
  each = c.0;
  count = c.1;
}

-- Whatever the payload, an identity that is accepted has a positive uint32_t version, a fingerprint of
-- exactly 32 bytes, a name of at most 128 bytes and at most 32 capabilities of at most 32 bytes.
pub decode_node_identity-bounds :
    (payload : List ℕ) (id : NodeIdentity) → decode_node_identity payload ≡ some id → IsIdentity id
unfolding decode_node_identity IdentityHeld
decode_node_identity-bounds payload id e =
    decode-Post IsIdentity read_identity payload id
      (Post-map IdentityHeld IsIdentity identity_value no_identity finish_identity
        identity_value-Post (tt, tt, tt, (tt, omega arith))
        (λ s h. identity_of-Held s.caps s.version s.fingerprint s.node h.3 h.0 h.1 h.2))
      e
