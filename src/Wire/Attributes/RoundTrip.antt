-- ===== src/Wire/Attributes/RoundTrip.antt =====
-- Attribute sets are read as they were written.
use campiello.Common.{
  ℕ, ◌≤◌, ◌<◌, ◌^◌, ◌≡◌, refl, some, List, ◌++◌, length, length-append, arith, All,
}
use campiello.Common.Text.{codes}
use campiello.Wire.Cbor.Writer.{write_type_and_arg, map_header}
use campiello.Wire.Cbor.Reads.{Reads}
use campiello.Wire.Cbor.Head.{uint-Reads, text-Reads, bytes-Reads, IsU64}
use campiello.Wire.Cbor.Item.{head-pos}
use campiello.Wire.Fields.{within, fits_u32, any}
use campiello.Wire.Fields.Encoded.{Entries-last, Entries-cons, Reads-map, Reads-once, decode-Reads}
use campiello.Wire.Arrays.{Reads-items}
use campiello.Wire.FileOps.{max_path_bytes}
use campiello.Wire.FileOps.RoundTrip.{IsPath, within-intro}
use campiello.Wire.Attributes.{
  Attr, max_attr_name_bytes, max_attrs, write_attr, write_attr_set, attr_value, read_attr,
  read_attr_set, encode_read_attrs_reply, read_attrs_value, decode_read_attrs_reply,
  encode_write_attrs_request, write_attrs_value, decode_write_attrs_request,
}

-- An attribute that the protocol can carry.
pub record IsAttr (a : Attr) : Type 0 where
  pub named : 0 < length a.name
  pub short : length a.name ≤ max_attr_name_bytes
  pub type : a.type < 2 ^ 32
  pub value : IsU64 (length a.value)

pub record IsAttrSet (attrs : List Attr) : Type 0 where
  pub each : All IsAttr attrs
  pub count : length attrs ≤ max_attrs

pub map_header-pos : (n : ℕ) (bs : List ℕ) → 1 ≤ length (map_header n ++ bs)
unfolding map_header
map_header-pos n bs = omega (arith, head-pos 5 n, length-append (write_type_and_arg 5 n) bs)

attr-Reads :
    (a : Attr) → IsAttr a → Reads read_attr 0 (write_attr a) a × (1 ≤ length (write_attr a))
unfolding read_attr write_attr
attr-Reads a h = (
  Reads-map attr_value _ (omega arith)
      (Entries-cons attr_value (codes "n") (omega arith)
        (Reads-once _ (within max_attr_name_bytes)
          (within-intro max_attr_name_bytes a.name h.named h.short)
          (text-Reads a.name (omega (arith, h.short))))
        (Entries-cons attr_value (codes "t") (omega arith)
          (Reads-once _ fits_u32 (ground (arith, h.type))
            (uint-Reads a.type (omega (arith, h.type))))
          (Entries-last attr_value (codes "v") (omega arith)
            (Reads-once _ any refl (bytes-Reads a.value h.value)))))
      refl,
  map_header-pos 3 _,
)

pub attr_set-Reads :
    (attrs : List Attr) → IsAttrSet attrs → Reads read_attr_set 0 (write_attr_set attrs) attrs
unfolding read_attr_set write_attr_set
attr_set-Reads attrs h =
    Reads-items IsAttr write_attr read_attr attr-Reads max_attrs attrs h.each h.count
      (omega (arith, h.count))

-- The attribute sets of a READ_ATTRS reply and of a WRITE_ATTRS request, and the path of the latter,
-- are decoded as they were encoded: up to 4096 attributes with names of 1 to 255 bytes, uint32_t types
-- and values whose length is a uint64_t, and a path of 1 to 1024 bytes.
pub decode-encode_attrs :
    (path : List ℕ) (attrs : List Attr)
    → IsPath path
    → IsAttrSet attrs
    → (decode_read_attrs_reply (encode_read_attrs_reply attrs) ≡ some attrs)
      × (decode_write_attrs_request (encode_write_attrs_request path attrs) ≡ some (path, attrs))
unfolding decode_read_attrs_reply encode_read_attrs_reply decode_write_attrs_request
    encode_write_attrs_request
decode-encode_attrs path attrs p h = (
  decode-Reads _ (
      Reads-map read_attrs_value _ (omega arith)
        (Entries-last read_attrs_value (codes "attrs") (omega arith)
          (Reads-once _ any refl (attr_set-Reads attrs h)))
        refl),
  decode-Reads _ (
      Reads-map write_attrs_value _ (omega arith)
        (Entries-cons write_attrs_value (codes "path") (omega arith)
          (Reads-once _ (within max_path_bytes) (within-intro max_path_bytes path p.0 p.1)
            (text-Reads path (omega arith)))
          (Entries-last write_attrs_value (codes "attrs") (omega arith)
            (Reads-once _ any refl (attr_set-Reads attrs h))))
        refl),
)
