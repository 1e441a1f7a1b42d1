-- ===== src/Wire/Attributes.antt =====
-- src/traghetto/wire/Attributes.h and Attributes.cpp: a set of typed attributes, and AttrOps.cpp, the
-- messages READ_ATTRS and WRITE_ATTRS that carry one.
pub mod RoundTrip
pub mod Bounds
use campiello.Common.{ℕ, Option, none, some, List, ◌++◌, if◌then◌else◌, bytes_eq, length}
use campiello.Common.Text.{codes}
use campiello.Wire.Cbor.Monad.{M}
use campiello.Wire.Cbor.Writer.{write_uint, write_bytes, write_text, map_header, array_header}
use campiello.Wire.Cbor.Reader.{read_uint, read_bytes, read_text}
use campiello.Wire.Fields.{
  once, store, any, ignore, read_map, decode, both, all_three, within, fits_u32,
}
use campiello.Wire.Arrays.{read_items, write_items}
use campiello.Wire.FileOps.{max_path_bytes}

abbrev pub max_attr_name_bytes : ℕ
max_attr_name_bytes = 255

abbrev pub max_attrs : ℕ
max_attrs = 4096

pub record Attr : Type 0 where
  pub name : List ℕ
  pub type : ℕ
  pub value : List ℕ

-- One round of `WriteAttrSet`.
unfoldable pub write_attr : Attr → List ℕ
write_attr a =
    map_header 3
    ++ (write_text (codes "n")
        ++ (write_text a.name
            ++ (write_text (codes "t")
                ++ (write_uint a.type ++ (write_text (codes "v") ++ write_bytes a.value)))))

unfoldable pub write_attr_set : List Attr → List ℕ
write_attr_set attrs = array_header (length attrs) ++ write_items write_attr attrs

pub record AttrFields : Type 0 where
  pub name : Option (List ℕ)
  pub type : Option ℕ
  pub value : Option (List ℕ)

abbrev pub attr_value : AttrFields → List ℕ → M AttrFields
attr_value s key =
    if bytes_eq key (codes "n")
    then once s.name
        (store read_text (within max_attr_name_bytes) (λ n. record s { name = some n }))
    else if bytes_eq key (codes "t")
    then once s.type (store read_uint fits_u32 (λ t. record s { type = some t }))
    else if bytes_eq key (codes "v")
    then once s.value (store read_bytes any (λ v. record s { value = some v }))
    else ignore s

abbrev pub attr_of : Option (List ℕ × ℕ × List ℕ) → Option Attr
attr_of none = none
attr_of (some (n, t, v)) = some (record { name = n; type = t; value = v })

abbrev pub no_attr : AttrFields
no_attr = record { name = none; type = none; value = none }

-- `ReadAttr`
unfoldable pub read_attr : M Attr
read_attr = read_map attr_value no_attr (λ s. attr_of (all_three s.name s.type s.value))

-- `ReadAttrSet`
unfoldable pub read_attr_set : M (List Attr)
read_attr_set = read_items max_attrs read_attr

unfoldable pub encode_read_attrs_reply : List Attr → List ℕ
encode_read_attrs_reply attrs = map_header 1 ++ (write_text (codes "attrs") ++ write_attr_set attrs)

abbrev pub read_attrs_value : Option (List Attr) → List ℕ → M (Option (List Attr))
read_attrs_value s key =
    if bytes_eq key (codes "attrs") then once s (store read_attr_set any some) else ignore s

abbrev pub read_read_attrs : M (List Attr)
read_read_attrs = read_map read_attrs_value none (λ s. s)

unfoldable pub decode_read_attrs_reply : List ℕ → Option (List Attr)
decode_read_attrs_reply payload = decode read_read_attrs payload

unfoldable pub encode_write_attrs_request : List ℕ → List Attr → List ℕ
encode_write_attrs_request path attrs =
    map_header 2
    ++ (write_text (codes "path")
        ++ (write_text path ++ (write_text (codes "attrs") ++ write_attr_set attrs)))

pub record WriteAttrsFields : Type 0 where
  pub path : Option (List ℕ)
  pub attrs : Option (List Attr)

abbrev pub write_attrs_value : WriteAttrsFields → List ℕ → M WriteAttrsFields
write_attrs_value s key =
    if bytes_eq key (codes "path")
    then once s.path (store read_text (within max_path_bytes) (λ p. record s { path = some p }))
    else if bytes_eq key (codes "attrs")
    then once s.attrs (store read_attr_set any (λ a. record s { attrs = some a }))
    else ignore s

abbrev pub read_write_attrs : M (List ℕ × List Attr)
read_write_attrs =
    read_map write_attrs_value (record { path = none; attrs = none }) (λ s. both s.path s.attrs)

unfoldable pub decode_write_attrs_request : List ℕ → Option (List ℕ × List Attr)
decode_write_attrs_request payload = decode read_write_attrs payload
