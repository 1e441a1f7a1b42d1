-- ===== src/Wire/Namespace/Messages.antt =====
-- What the namespace requests encode, their decoders give back, and what they accept.
use campiello.Common.{ℕ, ◌<◌, ◌^◌, ◌≡◌, refl, none, some, List, arith, bytes_eq}
use campiello.Common.Text.{codes}
use campiello.Wire.Cbor.Reads.{Reads}
use campiello.Wire.Cbor.Reader.{read_uint, read_text}
use campiello.Wire.Cbor.Writer.{write_text}
use campiello.Wire.Cbor.Head.{uint-Reads, text-Reads, IsU64}
use campiello.Wire.Fields.{within, fits_u32, any, once, store}
use campiello.Wire.Fields.Encoded.{Entries-last, Entries-cons, Reads-map, Reads-once, decode-Reads}
use campiello.Wire.Fields.Post.{Post, Held, Post-if, Post-ignore, Post-once, Post-map, decode-Post}
use campiello.Wire.FileOps.{max_path_bytes}
use campiello.Wire.FileOps.RoundTrip.{IsPath, within-intro}
use campiello.Wire.FileOps.Bounds.{within-elim, both-Held}
use campiello.Wire.Namespace.{
  encode_mkdir_request, MkdirFields, mkdir_value, read_mkdir_request, decode_mkdir_request,
  encode_rename_request, RenameFields, rename_value, read_rename_request, decode_rename_request,
  encode_truncate_request, TruncateFields, truncate_value, read_truncate_request,
  decode_truncate_request,
}

-- A path field that was not there is stored.
path-Reads :
    {S : Type 0} (f : List ℕ → S) (path : List ℕ)
    → IsPath path
    → Reads
        (once {A = ℕ} none (store read_text (within max_path_bytes) f))
        0
        (write_text path)
        (f path)
path-Reads f path p =
    Reads-once f (within max_path_bytes) (within-intro max_path_bytes path p.0 p.1)
      (text-Reads path (omega arith))

-- MKDIR, RENAME and TRUNCATE requests with paths of 1 to 1024 bytes, a uint32_t mode and a uint64_t
-- size are decoded as they were encoded.
pub decode-encode_namespace :
    (path to : List ℕ) (mode size : ℕ)
    → IsPath path
    → IsPath to
    → mode < 2 ^ 32
    → IsU64 size
    → (decode_mkdir_request (encode_mkdir_request path mode) ≡ some (path, mode))
      × (decode_rename_request (encode_rename_request path to) ≡ some (path, to))
      × (decode_truncate_request (encode_truncate_request path size) ≡ some (path, size))
unfolding decode_mkdir_request encode_mkdir_request decode_rename_request encode_rename_request
    decode_truncate_request encode_truncate_request
decode-encode_namespace path to mode size p q m u = (
  decode-Reads _ (
      Reads-map mkdir_value _ (omega arith)
        (Entries-cons mkdir_value (codes "mode") (omega arith)
          (Reads-once _ fits_u32 (ground arith) (uint-Reads mode (omega arith)))
          (Entries-last mkdir_value (codes "path") (omega arith) (path-Reads _ path p)))
        refl),
  decode-Reads _ (
      Reads-map rename_value _ (omega arith)
        (Entries-cons rename_value (codes "to") (omega arith) (path-Reads _ to q)
          (Entries-last rename_value (codes "from") (omega arith) (path-Reads _ path p)))
        refl),
  decode-Reads _ (
      Reads-map truncate_value _ (omega arith)
        (Entries-cons truncate_value (codes "path") (omega arith) (path-Reads _ path p) (
          Entries-last truncate_value (codes "size") (omega arith)
            (Reads-once _ any refl (uint-Reads size u))))
        refl),
)

MkdirHeld : MkdirFields → Type 0
MkdirHeld s = Held (λ m. m < 2 ^ 32) s.mode × Held IsPath s.path

mkdir_value-Post :
    (s : MkdirFields) (key : List ℕ) → MkdirHeld s → Post (mkdir_value s key) MkdirHeld
unfolding MkdirHeld
mkdir_value-Post s key h =
    Post-if MkdirHeld (bytes_eq key (codes "mode")) _ _
      (Post-once MkdirHeld s.mode read_uint fits_u32 _ (λ v t. (ground arith, h.1)))
      (Post-if MkdirHeld (bytes_eq key (codes "path")) _ _
        (Post-once MkdirHeld s.path read_text (within max_path_bytes) _
          (λ p t. (h.0, within-elim max_path_bytes p t)))
        (Post-ignore MkdirHeld s h))

RenameHeld : RenameFields → Type 0
RenameHeld s = Held IsPath s.from × Held IsPath s.to

rename_value-Post :
    (s : RenameFields) (key : List ℕ) → RenameHeld s → Post (rename_value s key) RenameHeld
unfolding RenameHeld
rename_value-Post s key h =
    Post-if RenameHeld (bytes_eq key (codes "from")) _ _
      (Post-once RenameHeld s.from read_text (within max_path_bytes) _
        (λ p t. (within-elim max_path_bytes p t, h.1)))
      (Post-if RenameHeld (bytes_eq key (codes "to")) _ _
        (Post-once RenameHeld s.to read_text (within max_path_bytes) _
          (λ p t. (h.0, within-elim max_path_bytes p t)))
        (Post-ignore RenameHeld s h))

TruncateHeld : TruncateFields → Type 0
TruncateHeld s = Held IsPath s.path × Held (λ n. Unit) s.size

truncate_value-Post :
    (s : TruncateFields) (key : List ℕ) → TruncateHeld s → Post (truncate_value s key) TruncateHeld
unfolding TruncateHeld
truncate_value-Post s key h =
    Post-if TruncateHeld (bytes_eq key (codes "path")) _ _
      (Post-once TruncateHeld s.path read_text (within max_path_bytes) _
        (λ p t. (within-elim max_path_bytes p t, h.1)))
      (Post-if TruncateHeld (bytes_eq key (codes "size")) _ _
        (Post-once TruncateHeld s.size read_uint any _ (λ v t. (h.0, tt)))
        (Post-ignore TruncateHeld s h))

-- Whatever the payloads, the paths of accepted MKDIR, RENAME and TRUNCATE requests have 1 to 1024
-- bytes, and the mode of an accepted MKDIR request fits a uint32_t.
pub decode_namespace-bounds :
    (make move cut path from to path' : List ℕ) (mode size : ℕ)
    → decode_mkdir_request make ≡ some (path, mode)
    → decode_rename_request move ≡ some (from, to)
    → decode_truncate_request cut ≡ some (path', size)
    → (IsPath path × (mode < 2 ^ 32)) × (IsPath from × IsPath to) × IsPath path'
unfolding decode_mkdir_request decode_rename_request decode_truncate_request MkdirHeld RenameHeld
    TruncateHeld
decode_namespace-bounds make move cut path from to path' mode size a b c = (
  decode-Post (λ p. IsPath p.0 × (p.1 < 2 ^ 32)) read_mkdir_request make (path, mode)
      (Post-map MkdirHeld (λ p. IsPath p.0 × (p.1 < 2 ^ 32)) mkdir_value _ _ mkdir_value-Post
        (tt, tt) (λ s h. both-Held IsPath (λ m. m < 2 ^ 32) s.path s.mode h.1 h.0))
      a,
  decode-Post (λ p. IsPath p.0 × IsPath p.1) read_rename_request move (from, to)
      (Post-map RenameHeld (λ p. IsPath p.0 × IsPath p.1) rename_value _ _ rename_value-Post
        (tt, tt) (λ s h. both-Held IsPath IsPath s.from s.to h.0 h.1))
      b,
  (decode-Post (λ p. IsPath p.0 × Unit {0}) read_truncate_request cut (path', size)
      (Post-map TruncateHeld (λ p. IsPath p.0 × Unit {0}) truncate_value _ _ truncate_value-Post
        (tt, tt) (λ s h. both-Held IsPath (λ n. Unit {0}) s.path s.size h.0 h.1))
      c).0,
)
