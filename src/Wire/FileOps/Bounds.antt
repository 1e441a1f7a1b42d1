-- ===== src/Wire/FileOps/Bounds.antt =====
-- What the file message decoders accept, on any payload, hostile ones included.
use campiello.Common.{
  ℕ, ◌≤◌, ◌<◌, ◌^◌, ◌≡◌, true, Option, none, some, List, [], ◌∷◌, length, arith, bytes_eq,
}
use campiello.Common.Text.{codes}
use campiello.Wire.Cbor.Reader.{read_uint, read_text, read_bytes}
use campiello.Wire.Fields.{within, at_most, fits_u32, any, both, all_three}
use campiello.Wire.Fields.Post.{Post, Held, Post-if, Post-ignore, Post-once, Post-map, decode-Post}
use campiello.Wire.FileOps.{
  max_path_bytes, max_read_length, max_write_length, fits_read, OpenFields, open_value,
  read_open_request, decode_open_request, ReadFields, read_value, read_read_request,
  decode_read_request, read_reply_value, read_read_reply, decode_read_reply, WriteFields,
  write_value, read_write_request, decode_write_request,
}
use campiello.Wire.FileOps.RoundTrip.{IsPath}

pub within-elim :
    (limit : ℕ) (s : List ℕ) → within limit s ≡ true → (0 < length s) × (length s ≤ limit)
within-elim limit [] h = cc
within-elim limit (x ∷ xs) h = ground arith

-- The fields read so far are within their bounds.
OpenBounds : OpenFields → Type 0
OpenBounds s = Held (λ m. m < 2 ^ 32) s.mode × Held IsPath s.path

open_value-Post :
    (s : OpenFields) (key : List ℕ) → OpenBounds s → Post (open_value s key) OpenBounds
unfolding OpenBounds
open_value-Post s key h =
    Post-if OpenBounds (bytes_eq key (codes "mode")) _ _
      (Post-once OpenBounds s.mode read_uint fits_u32 _ (λ v t. (ground arith, h.1)))
      (Post-if OpenBounds (bytes_eq key (codes "path")) _ _
        (Post-once OpenBounds s.path read_text (within max_path_bytes) _
          (λ p t. (h.0, within-elim max_path_bytes p t)))
        (Post-ignore OpenBounds s h))

pub both-Held :
    {A B : Type 0} (P : A → Type 0) (Q : B → Type 0) (x : Option A) (y : Option B)
    → Held P x
    → Held Q y
    → Held (λ p. P p.0 × Q p.1) (both x y)
both-Held P Q none y h k = tt
both-Held P Q (some a) none h k = tt
both-Held P Q (some a) (some b) h k = (h, k)

decode_open_request-bounds :
    (payload path : List ℕ) (mode : ℕ)
    → decode_open_request payload ≡ some (path, mode)
    → IsPath path × (mode < 2 ^ 32)
unfolding decode_open_request OpenBounds
decode_open_request-bounds payload path mode e =
    decode-Post (λ p. IsPath p.0 × (p.1 < 2 ^ 32)) read_open_request payload (path, mode)
      (Post-map OpenBounds (λ p. IsPath p.0 × (p.1 < 2 ^ 32)) open_value _ _ open_value-Post
        (tt, tt) (λ s h. both-Held IsPath (λ m. m < 2 ^ 32) s.path s.mode h.1 h.0))
      e

ReadBounds : ReadFields → Type 0
ReadBounds s = Held (λ n. n ≤ max_read_length) s.length

read_value-Post :
    (s : ReadFields) (key : List ℕ) → ReadBounds s → Post (read_value s key) ReadBounds
unfolding ReadBounds
read_value-Post s key h =
    Post-if ReadBounds (bytes_eq key (codes "handle")) _ _
      (Post-once ReadBounds s.handle read_uint any _ (λ v t. h))
      (Post-if ReadBounds (bytes_eq key (codes "offset")) _ _
        (Post-once ReadBounds s.offset read_uint any _ (λ v t. h))
        (Post-if ReadBounds (bytes_eq key (codes "length")) _ _
          (Post-once ReadBounds s.length read_uint fits_read _ (λ v t. ground arith))
          (Post-ignore ReadBounds s h)))

all_three-Held :
    {A B C : Type 0} (P : C → Type 0) (x : Option A) (y : Option B) (z : Option C)
    → Held P z
    → Held (λ p. P p.2) (all_three x y z)
all_three-Held P none y z h = tt
all_three-Held P (some a) none z h = tt
all_three-Held P (some a) (some b) none h = tt
all_three-Held P (some a) (some b) (some c) h = h

Short : List ℕ → Type 0
Short d = length d ≤ max_read_length

reply_value-Post :
    (s : Option (List ℕ)) (key : List ℕ) → Held Short s → Post (read_reply_value s key) (Held Short)
unfolding Short
reply_value-Post s key h =
    Post-if (Held Short) (bytes_eq key (codes "data")) _ _
      (Post-once (Held Short) s read_bytes (at_most max_read_length) _ (λ v t. ground arith))
      (Post-ignore (Held Short) s h)

WriteBounds : WriteFields → Type 0
WriteBounds s = Held Short s.bytes

write_value-Post :
    (s : WriteFields) (key : List ℕ) → WriteBounds s → Post (write_value s key) WriteBounds
unfolding WriteBounds Short
write_value-Post s key h =
    Post-if WriteBounds (bytes_eq key (codes "handle")) _ _
      (Post-once WriteBounds s.handle read_uint any _ (λ v t. h))
      (Post-if WriteBounds (bytes_eq key (codes "offset")) _ _
        (Post-once WriteBounds s.offset read_uint any _ (λ v t. h))
        (Post-if WriteBounds (bytes_eq key (codes "data")) _ _
          (Post-once WriteBounds s.bytes read_bytes (at_most max_write_length) _
            (λ v t. ground arith))
          (Post-ignore WriteBounds s h)))

decode_data-bounds :
    (ask reply write : List ℕ) (h h' off off' len : ℕ) (bytes bytes' : List ℕ)
    → decode_read_request ask ≡ some (h, off, len)
    → decode_read_reply reply ≡ some bytes
    → decode_write_request write ≡ some (h', off', bytes')
    → (len ≤ max_read_length)
      × (length bytes ≤ max_read_length)
      × (length bytes' ≤ max_write_length)
unfolding decode_read_request decode_read_reply decode_write_request ReadBounds WriteBounds Short
decode_data-bounds ask reply write h h' off off' len bytes bytes' a r w = (
  decode-Post (λ p. p.2 ≤ max_read_length) read_read_request ask (h, off, len)
      (Post-map ReadBounds (λ p. p.2 ≤ max_read_length) read_value _ _ read_value-Post tt
        (λ s k. all_three-Held (λ n. n ≤ max_read_length) s.handle s.offset s.length k))
      a,
  decode-Post Short read_read_reply reply bytes
      (Post-map (Held Short) Short read_reply_value _ _ reply_value-Post tt (λ s k. k)) r,
  decode-Post (λ p. Short p.2) read_write_request write (h', off', bytes')
      (Post-map WriteBounds (λ p. Short p.2) write_value _ _ write_value-Post tt
        (λ s k. all_three-Held Short s.handle s.offset s.bytes k))
      w,
)

-- Whatever the payloads, an OPEN request that is accepted has a path of 1 to 1024 bytes and a mode that
-- fits a uint32_t, a READ request that is accepted asks for at most 1 MiB, and the data of an accepted
-- READ reply and of an accepted WRITE request are at most 1 MiB.
pub decode_file_ops-bounds :
    (op ask reply write path : List ℕ) (mode h h' off off' len : ℕ) (bytes bytes' : List ℕ)
    → decode_open_request op ≡ some (path, mode)
    → decode_read_request ask ≡ some (h, off, len)
    → decode_read_reply reply ≡ some bytes
    → decode_write_request write ≡ some (h', off', bytes')
    → (IsPath path × (mode < 2 ^ 32))
      × ((len ≤ max_read_length)
          × (length bytes ≤ max_read_length)
          × (length bytes' ≤ max_write_length))
decode_file_ops-bounds op ask reply write path mode h h' off off' len bytes bytes' o a r w = (
  decode_open_request-bounds op path mode o,
  decode_data-bounds ask reply write h h' off off' len bytes bytes' a r w,
)
