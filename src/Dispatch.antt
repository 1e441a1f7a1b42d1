-- ===== src/Dispatch.antt =====
-- src/traghetto/dispatch/Dispatch.cpp: Client, which matches replies to requests by their id. The channel's Send is a test on the frame; what its
-- Receive returns is a list of frames, behind which it returns false.
pub mod Replies
pub mod Serve
pub mod FrameWriter
use campiello.Common.{
  ℕ, ◌+◌, ◌%◌, ◌^◌, Bool, true, false, Option, none, some, List, [], ◌∷◌, if◌then◌else◌, ◌==◌,
}
use campiello.Wire.Frame.{Frame}

abbrev pub with_id : ℕ → Frame → Frame
with_id id f = record f { request_id = id }

-- `fPending`, a map: `pending[id] = frame`, `find` and `erase`.
unfoldable pub find_pending : ℕ → List Frame → Option Frame
find_pending id [] = none
find_pending id (f ∷ pending) = if f.request_id == id then some f else find_pending id pending

unfoldable pub erase_pending : ℕ → List Frame → List Frame
erase_pending id [] = []
erase_pending id (f ∷ pending) =
    let rest = erase_pending id pending in if f.request_id == id then rest else f ∷ rest

-- The key of an entry is the request id of its frame.
abbrev pub keep_pending : Frame → List Frame → List Frame
keep_pending f pending = f ∷ erase_pending f.request_id pending

pub record Client : Type 0 where
  pub next_id : ℕ
  pub last_id : ℕ
  pub pending : List Frame

abbrev pub new_client : Client
new_client = record { next_id = 1; last_id = 0; pending = [] }

-- How `Request` ends: with a reply and what is still to be received, or with false.
pub data Requested : Type 0 where
  replied : Frame → List Frame → Client → Requested
  failed : Client → Requested

-- The loop of `Request`.
unfoldable pub await_reply : ℕ → List Frame → Client → Requested
await_reply id [] c = failed c
await_reply id (f ∷ incoming) c =
    let rest = await_reply id incoming (record c { pending = keep_pending f c.pending }) in
    if f.request_id == id then replied f incoming c else rest

-- Behind `fPending.find(id)`.
abbrev pub from_stash : ℕ → List Frame → Client → Option Frame → Requested
from_stash id incoming c none = await_reply id incoming c
from_stash id incoming c (some f) =
    replied f incoming (record c { pending = erase_pending id c.pending })

-- `uint32_t id = fNextId++; fLastId = id;`
abbrev pub take_id : Client → Client
take_id c = record { next_id = (c.next_id + 1) % 2 ^ 32; last_id = c.next_id; pending = c.pending }

-- `Request`
unfoldable pub request : (Frame → Bool) → Frame → List Frame → Client → Requested
request send r incoming c =
    if send (with_id c.next_id r)
    then from_stash c.next_id incoming (take_id c) (find_pending c.next_id c.pending)
    else failed (take_id c)
