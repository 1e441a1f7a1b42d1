-- ===== src/Wire/Listing/Bounds.antt =====
-- What the listing decoders accept, on any payload.
use campiello.Common.{ℕ, ◌≤◌, ◌<◌, ◌^◌, ◌≡◌, Option, none, some, List, length, arith, bytes_eq}
use campiello.Common.Int.{ℤ}
use campiello.Common.Text.{codes}
use campiello.Wire.Cbor.Reader.{read_uint, read_int, read_text}
use campiello.Wire.Fields.{within, fits_u32, any, all_three, both}
use campiello.Wire.Fields.Post.{
  Post, Held, Post-if, Post-ignore, Post-once, Post-read, Post-map, decode-Post,
}
use campiello.Wire.Arrays.{AllWithin, Post-items, read_items}
use campiello.Wire.FileOps.{max_path_bytes}
use campiello.Wire.FileOps.RoundTrip.{IsPath}
use campiello.Wire.FileOps.Bounds.{within-elim}
use campiello.Wire.Attributes.{Attr, max_attrs, read_attr_set}
use campiello.Wire.Attributes.Bounds.{Bounded, read_attr_set-Post}
use campiello.Wire.Listing.{
  Stat, Entry, StatFields, EntryFields, max_entry_name_bytes, max_entries_per_reply, stat_value,
  stat_of, no_stat, finish_stat, read_stat, entry_value, entry_of, no_entry, read_entry, path_value,
  read_path_request, decode_path_request, decode_stat_reply, listing_value, read_listing,
  decode_listing,
}

IsMode : Stat → Type 0
IsMode s = s.mode < 2 ^ 32

ModeHeld : StatFields → Type 0
ModeHeld s = Held (λ m. m < 2 ^ 32) s.mode

stat_value-Post : (s : StatFields) (key : List ℕ) → ModeHeld s → Post (stat_value s key) ModeHeld
unfolding ModeHeld
stat_value-Post s key h =
    Post-if ModeHeld (bytes_eq key (codes "m")) _ _
      (Post-once ModeHeld s.mode read_uint fits_u32 _ (λ v t. ground arith))
      (Post-if ModeHeld (bytes_eq key (codes "sz")) _ _
        (Post-once ModeHeld s.size read_uint any _ (λ v t. h))
        (Post-if ModeHeld (bytes_eq key (codes "mt")) _ _
          (Post-once ModeHeld s.mtime read_int any _ (λ v t. h))
          (Post-if ModeHeld (bytes_eq key (codes "ct")) _ _
            (Post-once ModeHeld s.crtime read_int any _ (λ v t. h))
            (Post-if ModeHeld (bytes_eq key (codes "ino")) _ _
              (Post-once ModeHeld s.inode read_uint any _ (λ v t. h)) (Post-ignore ModeHeld s h)))))

stat_of-Held :
    (m sz : Option ℕ) (mt : Option ℤ) (rest : Option (ℤ × ℕ))
    → Held (λ n. n < 2 ^ 32) m
    → Held IsMode (stat_of (all_three m sz mt) rest)
unfolding IsMode
stat_of-Held none sz mt rest h = tt
stat_of-Held (some m) none mt rest h = tt
stat_of-Held (some m) (some sz) none rest h = tt
stat_of-Held (some m) (some sz) (some mt) none h = tt
stat_of-Held (some m) (some sz) (some mt) (some (ct, ino)) h = h

read_stat-Post : Post read_stat IsMode
unfolding read_stat ModeHeld
read_stat-Post =
    Post-map ModeHeld IsMode stat_value no_stat finish_stat stat_value-Post tt
      (λ s h. stat_of-Held s.mode s.size s.mtime (both s.crtime s.inode) h)

-- An accepted entry: the bounds on its name, its mode and its attributes.
pub record BoundedEntry (e : Entry) : Type 0 where
  pub named : 0 < length e.name
  pub short : length e.name ≤ max_entry_name_bytes
  pub mode : e.stat.mode < 2 ^ 32
  pub attrs : AllWithin Bounded max_attrs e.attrs

IsName : List ℕ → Type 0
IsName n = (0 < length n) × (length n ≤ max_entry_name_bytes)

EntryHeld : EntryFields → Type 0
EntryHeld s =
    Held IsName s.name × Held IsMode s.stat × Held (λ a. AllWithin Bounded max_attrs a) s.attrs

entry_value-Post :
    (s : EntryFields) (key : List ℕ) → EntryHeld s → Post (entry_value s key) EntryHeld
unfolding EntryHeld IsName
entry_value-Post s key h =
    Post-if EntryHeld (bytes_eq key (codes "name")) _ _
      (Post-once EntryHeld s.name read_text (within max_entry_name_bytes) _
        (λ n t. (within-elim max_entry_name_bytes n t, h.1, h.2)))
      (Post-if EntryHeld (bytes_eq key (codes "stat")) _ _
        (Post-read EntryHeld IsMode s.stat read_stat any _ read_stat-Post (λ a q t. (h.0, q, h.2)))
        (Post-if EntryHeld (bytes_eq key (codes "attrs")) _ _
          (Post-read EntryHeld (AllWithin Bounded max_attrs) s.attrs read_attr_set any _
            read_attr_set-Post (λ a q t. (h.0, h.1, q)))
          (Post-ignore EntryHeld s h)))

entry_of-Held :
    (n : Option (List ℕ)) (t : Option Stat) (a : Option (List Attr))
    → Held IsName n
    → Held IsMode t
    → Held (λ l. AllWithin Bounded max_attrs l) a
    → Held BoundedEntry (entry_of (all_three n t a))
unfolding IsName IsMode
entry_of-Held none t a h k l = tt
entry_of-Held (some n) none a h k l = tt
entry_of-Held (some n) (some t) none h k l = tt
entry_of-Held (some n) (some t) (some a) h k l = record {
  named = h.0;
  short = h.1;
  mode = k;
  attrs = l;
}

pub read_entry-Post : Post read_entry BoundedEntry
unfolding read_entry EntryHeld
read_entry-Post =
    Post-map EntryHeld BoundedEntry entry_value no_entry _ entry_value-Post (tt, tt, tt)
      (λ s h. entry_of-Held s.name s.stat s.attrs h.0 h.1 h.2)

unfoldable pub Listed : List Entry → Type 0
Listed entries = AllWithin BoundedEntry max_entries_per_reply entries

listing_value-Post :
    (s : Option (List Entry)) (key : List ℕ)
    → Held Listed s
    → Post (listing_value s key) (Held Listed)
unfolding Listed
listing_value-Post s key h =
    Post-if (Held Listed) (bytes_eq key (codes "entries")) _ _
      (Post-read (Held Listed) Listed s (read_items max_entries_per_reply read_entry) any _
        (Post-items BoundedEntry read_entry read_entry-Post max_entries_per_reply) (λ a q t. q))
      (Post-ignore (Held Listed) s h)

path_value-Post :
    (s : Option (List ℕ)) (key : List ℕ) → Held IsPath s → Post (path_value s key) (Held IsPath)
path_value-Post s key h =
    Post-if (Held IsPath) (bytes_eq key (codes "path")) _ _
      (Post-once (Held IsPath) s read_text (within max_path_bytes) _
        (λ p t. within-elim max_path_bytes p t))
      (Post-ignore (Held IsPath) s h)

-- Whatever the payloads, an accepted path request has a path of 1 to 1024 bytes, the entry of an
-- accepted STAT reply and each of the at most 65536 entries of an accepted LIST reply has a name of
-- 1 to 255 bytes, a mode that fits a uint32_t, and at most 4096 attributes within their bounds.
pub decode_listing-bounds :
    (ask stat list path : List ℕ) (entry : Entry) (entries : List Entry)
    → decode_path_request ask ≡ some path
    → decode_stat_reply stat ≡ some entry
    → decode_listing list ≡ some entries
    → IsPath path × BoundedEntry entry × AllWithin BoundedEntry max_entries_per_reply entries
unfolding decode_path_request decode_stat_reply decode_listing Listed
decode_listing-bounds ask stat list path entry entries a s l = (
  decode-Post IsPath read_path_request ask path
      (Post-map (Held IsPath) IsPath path_value _ _ path_value-Post tt (λ o k. k)) a,
  decode-Post BoundedEntry read_entry stat entry read_entry-Post s,
  decode-Post Listed read_listing list entries
      (Post-map (Held Listed) Listed listing_value _ _ listing_value-Post tt (λ o k. k)) l,
)
