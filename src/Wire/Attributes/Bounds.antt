-- ===== src/Wire/Attributes/Bounds.antt =====
-- What the attribute decoders accept, on any payload.
use campiello.Common.{ℕ, ◌≤◌, ◌<◌, ◌^◌, ◌≡◌, Option, none, some, List, length, arith, bytes_eq}
use campiello.Common.Text.{codes}
use campiello.Wire.Cbor.Reader.{read_uint, read_bytes, read_text}
use campiello.Wire.Fields.{within, fits_u32, any, all_three}
use campiello.Wire.Fields.Post.{
  Post, Held, Post-if, Post-ignore, Post-once, Post-read, Post-map, decode-Post,
}
use campiello.Wire.Arrays.{AllWithin, Post-items}
use campiello.Wire.FileOps.{max_path_bytes}
use campiello.Wire.FileOps.RoundTrip.{IsPath}
use campiello.Wire.FileOps.Bounds.{within-elim, both-Held}
use campiello.Wire.Attributes.{
  Attr, AttrFields, max_attr_name_bytes, max_attrs, attr_value, attr_of, no_attr, read_attr,
  read_attr_set, read_attrs_value, read_read_attrs, decode_read_attrs_reply, WriteAttrsFields,
  write_attrs_value, read_write_attrs, decode_write_attrs_request,
}

IsName : List ℕ → Type 0
IsName n = (0 < length n) × (length n ≤ max_attr_name_bytes)

-- The name and the type of an accepted attribute are within their bounds.
pub record Bounded (a : Attr) : Type 0 where
  pub named : 0 < length a.name
  pub short : length a.name ≤ max_attr_name_bytes
  pub type : a.type < 2 ^ 32

AttrHeld : AttrFields → Type 0
AttrHeld s = Held IsName s.name × Held (λ t. t < 2 ^ 32) s.type

attr_value-Post : (s : AttrFields) (key : List ℕ) → AttrHeld s → Post (attr_value s key) AttrHeld
unfolding AttrHeld IsName
attr_value-Post s key h =
    Post-if AttrHeld (bytes_eq key (codes "n")) _ _
      (Post-once AttrHeld s.name read_text (within max_attr_name_bytes) _
        (λ n t. (within-elim max_attr_name_bytes n t, h.1)))
      (Post-if AttrHeld (bytes_eq key (codes "t")) _ _
        (Post-once AttrHeld s.type read_uint fits_u32 _ (λ v t. (h.0, ground arith)))
        (Post-if AttrHeld (bytes_eq key (codes "v")) _ _
          (Post-once AttrHeld s.value read_bytes any _ (λ v t. h)) (Post-ignore AttrHeld s h)))

attr_of-Held :
    (n : Option (List ℕ)) (t : Option ℕ) (v : Option (List ℕ))
    → Held IsName n
    → Held (λ m. m < 2 ^ 32) t
    → Held Bounded (attr_of (all_three n t v))
unfolding IsName
attr_of-Held none t v h k = tt
attr_of-Held (some n) none v h k = tt
attr_of-Held (some n) (some t) none h k = tt
attr_of-Held (some n) (some t) (some v) h k = record { named = h.0; short = h.1; type = k }

read_attr-Post : Post read_attr Bounded
unfolding read_attr AttrHeld
read_attr-Post =
    Post-map AttrHeld Bounded attr_value no_attr _ attr_value-Post (tt, tt)
      (λ s h. attr_of-Held s.name s.type s.value h.0 h.1)

BoundedSet : List Attr → Type 0
BoundedSet attrs = AllWithin Bounded max_attrs attrs

pub read_attr_set-Post : Post read_attr_set (AllWithin Bounded max_attrs)
unfolding read_attr_set
read_attr_set-Post = Post-items Bounded read_attr read_attr-Post max_attrs

reply_value-Post :
    (s : Option (List Attr)) (key : List ℕ)
    → Held BoundedSet s
    → Post (read_attrs_value s key) (Held BoundedSet)
unfolding BoundedSet
reply_value-Post s key h =
    Post-if (Held BoundedSet) (bytes_eq key (codes "attrs")) _ _
      (Post-read (Held BoundedSet) BoundedSet s read_attr_set any _ read_attr_set-Post (λ a q t. q))
      (Post-ignore (Held BoundedSet) s h)

WriteHeld : WriteAttrsFields → Type 0
WriteHeld s = Held IsPath s.path × Held BoundedSet s.attrs

write_value-Post :
    (s : WriteAttrsFields) (key : List ℕ) → WriteHeld s → Post (write_attrs_value s key) WriteHeld
unfolding WriteHeld BoundedSet
write_value-Post s key h =
    Post-if WriteHeld (bytes_eq key (codes "path")) _ _
      (Post-once WriteHeld s.path read_text (within max_path_bytes) _
        (λ p t. (within-elim max_path_bytes p t, h.1)))
      (Post-if WriteHeld (bytes_eq key (codes "attrs")) _ _
        (Post-read WriteHeld BoundedSet s.attrs read_attr_set any _ read_attr_set-Post
          (λ a q t. (h.0, q)))
        (Post-ignore WriteHeld s h))

-- Whatever the payloads, an accepted READ_ATTRS reply and an accepted WRITE_ATTRS request carry at most
-- 4096 attributes, each with a name of 1 to 255 bytes and a type that fits a uint32_t, and the path of
-- the request has 1 to 1024 bytes.
pub decode_attrs-bounds :
    (reply ask path : List ℕ) (attrs attrs' : List Attr)
    → decode_read_attrs_reply reply ≡ some attrs
    → decode_write_attrs_request ask ≡ some (path, attrs')
    → AllWithin Bounded max_attrs attrs × IsPath path × AllWithin Bounded max_attrs attrs'
unfolding decode_read_attrs_reply decode_write_attrs_request BoundedSet WriteHeld
decode_attrs-bounds reply ask path attrs attrs' r w =
    let sent =
      decode-Post (λ p. IsPath p.0 × BoundedSet p.1) read_write_attrs ask (path, attrs')
        (Post-map WriteHeld (λ p. IsPath p.0 × BoundedSet p.1) write_attrs_value _ _
          write_value-Post (tt, tt) (λ s h. both-Held IsPath BoundedSet s.path s.attrs h.0 h.1))
        w in
    (
      decode-Post BoundedSet read_read_attrs reply attrs
          (Post-map (Held BoundedSet) BoundedSet read_attrs_value _ _ reply_value-Post tt
            (λ s k. k))
          r,
      sent.0,
      sent.1,
    )
