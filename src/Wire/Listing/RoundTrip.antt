-- ===== src/Wire/Listing/RoundTrip.antt =====
-- Stats, entries and listings are read as they were written.
use campiello.Common.{ℕ, ◌≤◌, ◌<◌, ◌^◌, ◌≡◌, refl, some, List, length, arith, All}
use campiello.Common.Text.{codes}
use campiello.Wire.Cbor.Reads.{Reads}
use campiello.Wire.Cbor.Head.{uint-Reads, int-Reads, text-Reads, IsU64, IsI64}
use campiello.Wire.Fields.{within, fits_u32, any}
use campiello.Wire.Fields.Encoded.{Entries-last, Entries-cons, Reads-map, Reads-once, decode-Reads}
use campiello.Wire.Arrays.{Reads-items}
use campiello.Wire.FileOps.{max_path_bytes}
use campiello.Wire.FileOps.RoundTrip.{IsPath, within-intro}
use campiello.Wire.Attributes.RoundTrip.{IsAttrSet, attr_set-Reads, map_header-pos}
use campiello.Wire.Listing.{
  Stat, Entry, max_entry_name_bytes, max_entries_per_reply, write_stat, stat_value, finish_stat,
  read_stat, write_entry, entry_value, read_entry, encode_path_request, path_value,
  decode_path_request, encode_stat_reply, decode_stat_reply, encode_listing, listing_value,
  decode_listing,
}

-- What fits the machine integers of `struct Stat`.
pub record IsStat (s : Stat) : Type 0 where
  pub mode : s.mode < 2 ^ 32
  pub size : IsU64 s.size
  pub mtime : IsI64 s.mtime
  pub crtime : IsI64 s.crtime
  pub inode : IsU64 s.inode

pub record IsEntry (e : Entry) : Type 0 where
  pub named : 0 < length e.name
  pub short : length e.name ≤ max_entry_name_bytes
  pub stat : IsStat e.stat
  pub attrs : IsAttrSet e.attrs

stat-Reads : (s : Stat) → IsStat s → Reads read_stat 0 (write_stat s) s
unfolding read_stat write_stat
stat-Reads s h =
    Reads-map stat_value finish_stat (omega arith)
      (Entries-cons stat_value (codes "m") (omega arith)
        (Reads-once _ fits_u32 (ground (arith, h.mode)) (uint-Reads s.mode (omega (arith, h.mode))))
        (Entries-cons stat_value (codes "ct") (omega arith)
          (Reads-once _ any refl (int-Reads s.crtime h.crtime))
          (Entries-cons stat_value (codes "mt") (omega arith)
            (Reads-once _ any refl (int-Reads s.mtime h.mtime))
            (Entries-cons stat_value (codes "sz") (omega arith)
              (Reads-once _ any refl (uint-Reads s.size h.size))
              (Entries-last stat_value (codes "ino") (omega arith)
                (Reads-once _ any refl (uint-Reads s.inode h.inode)))))))
      refl

pub entry-Reads :
    (e : Entry) → IsEntry e → Reads read_entry 0 (write_entry e) e × (1 ≤ length (write_entry e))
unfolding read_entry write_entry
entry-Reads e h = (
  Reads-map entry_value _ (omega arith)
      (Entries-cons entry_value (codes "name") (omega arith)
        (Reads-once _ (within max_entry_name_bytes)
          (within-intro max_entry_name_bytes e.name h.named h.short)
          (text-Reads e.name (omega (arith, h.short))))
        (Entries-cons entry_value (codes "stat") (omega arith)
          (Reads-once _ any refl (stat-Reads e.stat h.stat))
          (Entries-last entry_value (codes "attrs") (omega arith)
            (Reads-once _ any refl (attr_set-Reads e.attrs h.attrs)))))
      refl,
  map_header-pos 3 _,
)

-- A path request with a path of 1 to 1024 bytes, a STAT reply and a LIST reply of at most 65536
-- entries are decoded as they were encoded. An entry has a name of 1 to 255 bytes, numbers that fit
-- their integer types, negative times included, and an attribute set that the protocol can carry.
pub decode-encode_listing :
    (path : List ℕ) (entry : Entry) (entries : List Entry)
    → IsPath path
    → IsEntry entry
    → All IsEntry entries
    → length entries ≤ max_entries_per_reply
    → (decode_path_request (encode_path_request path) ≡ some path)
      × (decode_stat_reply (encode_stat_reply entry) ≡ some entry)
      × (decode_listing (encode_listing entries) ≡ some entries)
unfolding decode_path_request encode_path_request decode_stat_reply encode_stat_reply decode_listing
    encode_listing
decode-encode_listing path entry entries p h each count = (
  decode-Reads _ (
      Reads-map path_value _ (omega arith)
        (Entries-last path_value (codes "path") (omega arith) (
          Reads-once _ (within max_path_bytes) (within-intro max_path_bytes path p.0 p.1)
            (text-Reads path (omega arith))))
        refl),
  decode-Reads read_entry (entry-Reads entry h).0,
  decode-Reads _ (
      Reads-map listing_value _ (omega arith)
        (Entries-last listing_value (codes "entries") (omega arith) (
          Reads-once _ any refl (
            Reads-items IsEntry write_entry read_entry entry-Reads max_entries_per_reply entries
              each count (omega arith))))
        refl),
)
