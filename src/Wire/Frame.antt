-- ===== src/Wire/Frame.antt =====
-- src/traghetto/wire/Frame.h, FrameCodec.h and FrameCodec.cpp: the frame envelope and its
-- incremental parser.
pub mod Header
pub mod Prefix
use Prim.Native.Nat.{bit_or}
use campiello.Common.{
  ℕ, zero, suc, ◌+◌, ◌-◌, ◌*◌, ◌^◌, ◌%◌, ◌≤◌, ◌<◌, ◌≡◌, Bool, not, ◌||◌, Option, none, some, List,
  [], ◌∷◌, ◌++◌, ltb, ◌==◌, if◌then◌else◌, length, get_or, take, drop,
}
use campiello.Wire.Word.{be_bytes}

abbrev pub magic0 : ℕ
magic0 = 0x43

abbrev pub magic1 : ℕ
magic1 = 0x4e

abbrev pub protocol_version : ℕ
protocol_version = 1

abbrev pub header_size : ℕ
header_size = 12

abbrev pub max_payload_length : ℕ
max_payload_length = 16 * 1024 * 1024

pub record Frame : Type 0 where
  pub version : ℕ
  pub type : ℕ
  pub request_id : ℕ
  pub payload : List ℕ

-- `Frame f;` with its type, request id and payload filled in, as every frame builder does.
abbrev pub message : ℕ → ℕ → List ℕ → Frame
message type request_id payload = record {
  version = protocol_version;
  type = type;
  request_id = request_id;
  payload = payload;
}

-- `ReadU32BE(p + i)`
unfoldable pub read_u32_be : List ℕ → ℕ → ℕ
read_u32_be p i =
    bit_or
      (bit_or (bit_or (get_or p i 0 * 2 ^ 24) (get_or p (i + 1) 0 * 2 ^ 16))
        (get_or p (i + 2) 0 * 2 ^ 8))
      (get_or p (i + 3) 0)

-- `WriteU32BE`: the bytes that it appends.
abbrev pub write_u32_be : ℕ → List ℕ
write_u32_be v = be_bytes 4 v

-- `EncodeFrame(frame, out)`; `none` is `false`, with `out` untouched.
unfoldable pub encode_frame_into : Frame → List ℕ → Option (List ℕ)
encode_frame_into f out =
    if ltb max_payload_length (length f.payload)
    then none
    else some (
        out
        ++ (magic0
            ∷ magic1
            ∷ f.version
            ∷ f.type
            ∷ (write_u32_be f.request_id
                ++ (write_u32_be (length f.payload % 2 ^ 32) ++ f.payload))))

-- `EncodeFrame(frame)`: an empty vector where the payload is too long.
unfoldable pub encode_frame : Frame → List ℕ
encode_frame f = elim (encode_frame_into f []) [ none ↦ [] | some out ↦ out ]

-- The messages of `Latch`.
pub data ParseError : Type 0 where
  bad_magic unsupported_version payload_too_long : ParseError

-- `error` is `fErrorMessage` where `fError` is set.
pub record FrameParser : Type 0 where
  pub buffer : List ℕ
  pub read_pos : ℕ
  pub error : Option ParseError

abbrev pub new_parser : FrameParser
new_parser = record { buffer = []; read_pos = 0; error = none }

pub data ParseResult : Type 0 where
  frame : Frame → ParseResult
  need_more : ParseResult
  error : ParseResult

-- `Feed`: consumed bytes are dropped first.
unfoldable pub feed : List ℕ → FrameParser → FrameParser
feed bytes p =
    if ltb 0 p.read_pos
    then record p { buffer = drop p.read_pos p.buffer ++ bytes; read_pos = 0 }
    else record p { buffer = p.buffer ++ bytes }

-- `Latch`
abbrev pub latch : ParseError → FrameParser → ParseResult × FrameParser
latch e p = (error, record p { error = some e })

-- `Next` behind the test of `fError`: `h` is the buffer from `fReadPos` on.
unfoldable pub next_at : List ℕ → ℕ → FrameParser → ParseResult × FrameParser
next_at h available p =
    let payload_len = read_u32_be h 8 in
    if ltb available header_size
    then (need_more, p)
    else if not (get_or h 0 0 == magic0) || not (get_or h 1 0 == magic1)
    then latch bad_magic p
    else if not (get_or h 2 0 == protocol_version)
    then latch unsupported_version p
    else if ltb max_payload_length payload_len
    then latch payload_too_long p
    else if ltb available (header_size + payload_len)
    then (need_more, p)
    else (
      frame (record {
        version = get_or h 2 0;
        type = get_or h 3 0;
        request_id = read_u32_be h 4;
        payload = take payload_len (drop header_size h);
      }),
      record p { read_pos = p.read_pos + (header_size + payload_len) },
    )

-- `Next`
unfoldable pub next : FrameParser → ParseResult × FrameParser
next p = elim p.error [
  | some e ↦ (error, p)
  | none ↦ next_at (drop p.read_pos p.buffer) (length p.buffer - p.read_pos) p
]
