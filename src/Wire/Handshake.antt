-- ===== src/Wire/Handshake.antt =====
-- src/traghetto/wire/Handshake.h and Handshake.cpp: the identity that HELLO and WELCOME carry.
pub mod RoundTrip
pub mod Bounds
pub mod Frames
use campiello.Common.{
  ℕ, Bool, false, true, Option, none, some, List, [], ◌∷◌, ◌++◌, if◌then◌else◌, bytes_eq, length,
  leb, ◌==◌, not, ◌&&◌, is_empty,
}
use campiello.Common.Text.{codes}
use campiello.Wire.Cbor.Monad.{M, pure, when, ◌>>=◌}
use campiello.Wire.Cbor.Writer.{write_uint, write_bytes, write_text, map_header, array_header}
use campiello.Wire.Cbor.Reader.{read_uint, read_bytes, read_text}
use campiello.Wire.Fields.{once, store, ignore, read_map, decode, all_three, at_most}
use campiello.Wire.Arrays.{read_items, write_items}
use campiello.Wire.MessageType
use campiello.Wire.Frame.{Frame, message}

abbrev pub fingerprint_bytes : ℕ
fingerprint_bytes = 32

abbrev pub max_node_name_bytes : ℕ
max_node_name_bytes = 128

abbrev pub max_caps : ℕ
max_caps = 32

abbrev pub max_cap_bytes : ℕ
max_cap_bytes = 32

pub record NodeIdentity : Type 0 where
  pub version : ℕ
  pub fingerprint : List ℕ
  pub caps : List (List ℕ)
  pub node : List ℕ

-- The loop of `HasCap` over `caps`.
unfoldable pub has_cap : List (List ℕ) → List ℕ → Bool
has_cap [] cap = false
has_cap (c ∷ caps) cap = if bytes_eq c cap then true else has_cap caps cap

unfoldable pub encode_node_identity : NodeIdentity → List ℕ
encode_node_identity id =
    map_header 4
    ++ (write_text (codes "v")
        ++ (write_uint id.version
            ++ (write_text (codes "fp")
                ++ (write_bytes id.fingerprint
                    ++ (write_text (codes "caps")
                        ++ ((array_header (length id.caps) ++ write_items write_text id.caps)
                            ++ (write_text (codes "node") ++ write_text id.node)))))))

-- The fields read so far; `caps` is optional and starts empty.
pub record IdentityFields : Type 0 where
  pub version : Option ℕ
  pub fingerprint : Option (List ℕ)
  pub node : Option (List ℕ)
  pub caps : List (List ℕ)

abbrev pub is_version : ℕ → Bool
is_version v = not (v == 0) && leb v 0xffff_ffff

abbrev pub is_fingerprint : List ℕ → Bool
is_fingerprint f = length f == fingerprint_bytes

-- One round of the inner loop.
abbrev pub read_cap : M (List ℕ)
read_cap = store read_text (at_most max_cap_bytes) (λ c. c)

abbrev pub identity_value : IdentityFields → List ℕ → M IdentityFields
identity_value s key =
    if bytes_eq key (codes "v")
    then once s.version (store read_uint is_version (λ v. record s { version = some v }))
    else if bytes_eq key (codes "fp")
    then once s.fingerprint
        (store read_bytes is_fingerprint (λ f. record s { fingerprint = some f }))
    else if bytes_eq key (codes "node")
    then once s.node
        (store read_text (at_most max_node_name_bytes) (λ n. record s { node = some n }))
    else if bytes_eq key (codes "caps")
    then when (is_empty s.caps) (read_items max_caps read_cap >>= λ c. pure (record s { caps = c }))
    else ignore s

abbrev pub identity_of : List (List ℕ) → Option (ℕ × List ℕ × List ℕ) → Option NodeIdentity
identity_of caps none = none
identity_of caps (some (v, f, n)) =
    some (record { version = v; fingerprint = f; caps = caps; node = n })

abbrev pub no_identity : IdentityFields
no_identity = record { version = none; fingerprint = none; node = none; caps = [] }

abbrev pub finish_identity : IdentityFields → Option NodeIdentity
finish_identity s = identity_of s.caps (all_three s.version s.fingerprint s.node)

abbrev pub read_identity : M NodeIdentity
read_identity = read_map identity_value no_identity finish_identity

unfoldable pub decode_node_identity : List ℕ → Option NodeIdentity
decode_node_identity payload = decode read_identity payload

abbrev pub make_hello : NodeIdentity → ℕ → Frame
make_hello id request_id = message MessageType.hello request_id (encode_node_identity id)

abbrev pub make_welcome : NodeIdentity → ℕ → Frame
make_welcome id request_id = message MessageType.welcome request_id (encode_node_identity id)
