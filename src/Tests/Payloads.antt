-- ===== src/Tests/Payloads.antt =====
-- The payloads of attributes, listings, the handshake, errors and the namespace at concrete messages.
use campiello.Common.{ℕ, ◌≡◌, refl, none, some, List, [], ◌∷◌, ◌++◌, arith}
use campiello.Common.Int.{pos, negsuc}
use campiello.Common.Text.{codes}
use campiello.Wire.Arrays.{AllWithin}
use campiello.Wire.Frame.{FrameParser, frame, next, encode_frame}
use campiello.Wire.FileOps.RoundTrip.{IsPath}
use campiello.Wire.Attributes.{
  Attr, encode_read_attrs_reply, decode_read_attrs_reply, encode_write_attrs_request,
  decode_write_attrs_request,
}
use campiello.Wire.Attributes.RoundTrip.{IsAttrSet, decode-encode_attrs}
use campiello.Wire.Listing.{
  Entry, max_entries_per_reply, encode_path_request, decode_path_request, encode_stat_reply,
  decode_stat_reply, encode_listing, decode_listing,
}
use campiello.Wire.Listing.RoundTrip.{IsEntry, decode-encode_listing}
use campiello.Wire.Listing.Bounds.{BoundedEntry, decode_listing-bounds}
use campiello.Wire.Handshake.{
  NodeIdentity, encode_node_identity, decode_node_identity, make_hello, make_welcome,
}
use campiello.Wire.Handshake.RoundTrip.{IsIdentity, decode-encode_node_identity}
use campiello.Wire.Handshake.Frames.{next-make_hello}
use campiello.Wire.Error.{ErrorReply}
use campiello.Wire.Namespace.{
  encode_mkdir_request, decode_mkdir_request, encode_rename_request, decode_rename_request,
  encode_truncate_request, decode_truncate_request,
}
use campiello.Wire.Namespace.Messages.{decode-encode_namespace}

abbrev mime : Attr
mime = record { name = codes "BEOS:TYPE"; type = 0x4d494d53; value = codes "text/plain" }

abbrev attrs : List Attr
attrs = mime ∷ []

attrs-IsAttrSet : IsAttrSet attrs
attrs-IsAttrSet = record {
  each = (
    record { named = omega arith; short = omega arith; type = omega arith; value = omega arith },
    tt,
  );
  count = omega arith;
}

abbrev path : List ℕ
path = codes "/doc"

decode-encode_attrs_example :
    (decode_read_attrs_reply (encode_read_attrs_reply attrs) ≡ some attrs)
    × (decode_write_attrs_request (encode_write_attrs_request path attrs) ≡ some (path, attrs))
decode-encode_attrs_example = decode-encode_attrs path attrs (omega arith) attrs-IsAttrSet

-- A file from before 1970.
abbrev file : Entry
file = record {
  name = codes "a.txt";
  stat = record {
    mode = 0o100644;
    size = 5;
    mtime = pos 1700000000;
    crtime = negsuc 9;
    inode = 77;
  };
  attrs = attrs;
}

file-IsEntry : IsEntry file
file-IsEntry = record {
  named = omega arith;
  short = omega arith;
  stat = record {
    mode = omega arith;
    size = omega arith;
    mtime = omega arith;
    crtime = omega arith;
    inode = omega arith;
  };
  attrs = attrs-IsAttrSet;
}

decode-encode_listing_example :
    (decode_path_request (encode_path_request path) ≡ some path)
    × (decode_stat_reply (encode_stat_reply file) ≡ some file)
    × (decode_listing (encode_listing (file ∷ [])) ≡ some (file ∷ []))
decode-encode_listing_example =
    decode-encode_listing path file (file ∷ []) (omega arith) file-IsEntry (file-IsEntry, tt)
      (omega arith)

decode_listing-bounds_example :
    IsPath path × BoundedEntry file × AllWithin BoundedEntry max_entries_per_reply (file ∷ [])
decode_listing-bounds_example =
    decode_listing-bounds (encode_path_request path) (encode_stat_reply file)
      (encode_listing (file ∷ [])) path file (file ∷ []) decode-encode_listing_example.0
      decode-encode_listing_example.1 decode-encode_listing_example.2

abbrev identity : NodeIdentity
identity = record {
  version = 1;
  fingerprint =
      9 ∷ 9 ∷ 9 ∷ 9 ∷ 9 ∷ 9 ∷ 9 ∷ 9 ∷ 9 ∷ 9 ∷ 9 ∷ 9 ∷ 9 ∷ 9 ∷ 9 ∷ 9 ∷ 9 ∷ 9 ∷ 9 ∷ 9 ∷ 9 ∷ 9 ∷ 9 ∷ 9
      ∷ 9 ∷ 9 ∷ 9 ∷ 9 ∷ 9 ∷ 9 ∷ 9 ∷ 9 ∷ [];
  caps = codes "bfs" ∷ [];
  node = codes "casa";
}

identity-IsIdentity : IsIdentity identity
identity-IsIdentity = record {
  positive = omega arith;
  version = omega arith;
  fingerprint = refl;
  node = omega arith;
  each = omega arith;
  count = omega arith;
}

identity_decodes : decode_node_identity (encode_node_identity identity) ≡ some identity
identity_decodes = decode-encode_node_identity identity identity-IsIdentity

abbrev hello_parser : FrameParser
hello_parser = record {
  buffer = encode_frame (make_hello identity 1) ++ [];
  read_pos = 0;
  error = none;
}

abbrev welcome_parser : FrameParser
welcome_parser = record {
  buffer = encode_frame (make_welcome identity 1) ++ (0x43 ∷ []);
  read_pos = 0;
  error = none;
}

next-make_hello_example :
    ((next hello_parser).0 ≡ frame (make_hello identity 1))
    × ((next welcome_parser).0 ≡ frame (make_welcome identity 1))
    × (decode_node_identity (make_hello identity 1).payload ≡ some identity)
    × (decode_node_identity (make_welcome identity 1).payload ≡ some identity)
next-make_hello_example =
    next-make_hello identity 1 [] (0x43 ∷ []) hello_parser welcome_parser identity-IsIdentity
      (omega arith) refl refl refl refl

abbrev reply : ErrorReply
reply = record { code = 2; text = codes "no such file" }

decode-encode_namespace_example :
    (decode_mkdir_request (encode_mkdir_request path 0o755) ≡ some (path, 0o755))
    × (decode_rename_request (encode_rename_request path (codes "/new"))
        ≡ some (path, codes "/new"))
    × (decode_truncate_request (encode_truncate_request path 10) ≡ some (path, 10))
decode-encode_namespace_example =
    decode-encode_namespace path (codes "/new") 0o755 10 (omega arith) (omega arith) (omega arith)
      (omega arith)
