-- ===== src/Dispatch/Replies.antt =====
-- Replies reach the request that they answer.
use campiello.Common.{
  ℕ, ◌+◌, ◌%◌, ◌^◌, ◌≡◌, refl, ap, ◌∙◌, Bool, true, false, Bool-cases, inl, inr, Option, none, some,
  List, [], ◌∷◌, ◌++◌, if◌then◌else◌, ◌==◌, All, arith,
}
use campiello.Wire.Frame.{Frame}
use campiello.Dispatch.{
  with_id, find_pending, erase_pending, keep_pending, Client, Requested, replied, failed,
  await_reply, from_stash, take_id, request,
}

find_pending-id :
    (id : ℕ) (pending : List Frame) (f : Frame)
    → find_pending id pending ≡ some f
    → f.request_id ≡ id
unfolding find_pending
find_pending-id id [] f e = cc
find_pending-id id (g ∷ pending) f e = ground (arith, find_pending-id id pending f)

find-erase :
    (id k : ℕ) (pending : List Frame)
    → find_pending k (erase_pending id pending) ≡ (if id == k then none else find_pending k pending)
unfolding find_pending erase_pending
find-erase id k [] = ground arith
find-erase id k (g ∷ pending) = ground (arith, find-erase id k pending)

-- The frames stashed while `Request` waits.
unfoldable pub keep_all : List Frame → List Frame → List Frame
keep_all [] pending = pending
keep_all (f ∷ fs) pending = keep_all fs (keep_pending f pending)

-- The latest frame with an id, if there is one.
unfoldable pub latest_of : ℕ → List Frame → Option Frame → Option Frame
latest_of id [] old = old
latest_of id (f ∷ fs) old = latest_of id fs (if f.request_id == id then some f else old)

find-keep :
    (k : ℕ) (f : Frame) (pending : List Frame)
    → find_pending k (keep_pending f pending)
      ≡ (if f.request_id == k then some f else find_pending k pending)
unfolding find_pending
find-keep k f pending = ground (arith, find-erase f.request_id k pending)

find-keep_all :
    (k : ℕ) (fs pending : List Frame)
    → find_pending k (keep_all fs pending) ≡ latest_of k fs (find_pending k pending)
unfolding keep_all latest_of
find-keep_all k [] pending = refl
find-keep_all k (f ∷ fs) pending =
    find-keep_all k fs (keep_pending f pending) ∙ ap (latest_of k fs) (find-keep k f pending)

await_reply-finds :
    (id : ℕ) (before : List Frame) (r : Frame) (after : List Frame) (c : Client)
    → All (λ f. (f.request_id == id) ≡ false) before
    → (r.request_id == id) ≡ true
    → await_reply id (before ++ (r ∷ after)) c
      ≡ replied r after (record c { pending = keep_all before c.pending })
unfolding await_reply keep_all
await_reply-finds id [] r after c h e = simp e refl
await_reply-finds id (f ∷ before) r after c h e =
    simp h.0
      (await_reply-finds id before r after (record c { pending = keep_pending f c.pending }) h.1 e)

-- How `Request` may end, where it sent the request under the given id.
unfoldable pub RequestEnds : ℕ → Requested → Type 0
RequestEnds id (replied r rest c) =
    (r.request_id ≡ id) × (c.last_id ≡ id) × (c.next_id ≡ (id + 1) % 2 ^ 32)
RequestEnds id (failed c) = (c.last_id ≡ id) × (c.next_id ≡ (id + 1) % 2 ^ 32)

await_reply-Ends :
    (id : ℕ) (incoming : List Frame) (c : Client)
    → c.last_id ≡ id
    → c.next_id ≡ (id + 1) % 2 ^ 32
    → RequestEnds id (await_reply id incoming c)
unfolding await_reply RequestEnds
await_reply-Ends id [] c l n = (l, n)
await_reply-Ends id (f ∷ incoming) c l n = elim (Bool-cases (f.request_id == id)) [
  | inl this ↦ simp this (ground (arith, this), l, n)
  | inr other ↦
      simp other
        (await_reply-Ends id incoming (record c { pending = keep_pending f c.pending }) l n)
]

from_stash-Ends :
    (id : ℕ) (incoming : List Frame) (c : Client) (o : Option Frame)
    → find_pending id c.pending ≡ o
    → c.last_id ≡ id
    → c.next_id ≡ (id + 1) % 2 ^ 32
    → RequestEnds id (from_stash id incoming c o)
unfolding RequestEnds
from_stash-Ends id incoming c none e l n = await_reply-Ends id incoming c l n
from_stash-Ends id incoming c (some f) e l n = (find_pending-id id c.pending f e, l, n)

-- Whatever the channel does and whatever was stashed, a reply that Request returns has the id under
-- which the request was sent, which is LastRequestId afterwards; and the next id is that id plus one, in
-- uint32_t, also where Request fails.
pub request-Ends :
    (send : Frame → Bool) (r : Frame) (incoming : List Frame) (c : Client)
    → RequestEnds c.next_id (request send r incoming c)
unfolding request RequestEnds
request-Ends send r incoming c = elim (Bool-cases (send (with_id c.next_id r))) [
  | inl sent ↦ simp sent (
      from_stash-Ends c.next_id incoming (take_id c) (find_pending c.next_id c.pending) refl refl
        refl)
  | inr broken ↦ simp broken (refl, refl)
]

-- Where a request is sent, no reply to it is stashed, and frames with other ids arrive before one with
-- its id, Request returns that one and leaves what comes behind it; and of the frames before it, the
-- latest with each id is stashed under that id, on top of what was stashed.
pub request-finds :
    (send : Frame → Bool) (r : Frame) (before : List Frame) (reply : Frame) (after : List Frame)
    (c : Client) (k : ℕ)
    → send (with_id c.next_id r) ≡ true
    → find_pending c.next_id c.pending ≡ none
    → All (λ f. (f.request_id == c.next_id) ≡ false) before
    → reply.request_id ≡ c.next_id
    → (request send r (before ++ (reply ∷ after)) c
        ≡ replied reply after (record (take_id c) { pending = keep_all before c.pending }))
      × (find_pending k (keep_all before c.pending) ≡ latest_of k before (find_pending k c.pending))
unfolding request
request-finds send r before reply after c k sent free others e = (
  simp (sent, free)
      (await_reply-finds c.next_id before reply after (take_id c) others (ground arith)),
  find-keep_all k before c.pending,
)
