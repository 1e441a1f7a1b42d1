-- ===== src/Trust/TokenBucket.antt =====
-- src/traghetto/trust/TokenBucket.cpp: the limit on pairing prompts. `fTokens` is a double; the model
-- keeps `fTokens * fRefillMs` as an exact number of milliseconds of credit, without the rounding.
use campiello.Common.{
  subst, ℕ, ◌+◌, ◌-◌, ◌*◌, ◌≤◌, ◌≡◌, Bool, true, false, List, [], ◌∷◌, if◌then◌else◌, leb, ltb,
  arith,
}

pub record TokenBucket : Type 0 where
  pub capacity : ℕ
  pub refill_ms : ℕ
  pub credit : ℕ
  pub last : ℕ

abbrev pub at_least_one : ℕ → ℕ
at_least_one n = if ltb n 1 then 1 else n

-- The constructor, at the time `now`. The bucket starts full.
abbrev pub new_bucket : ℕ → ℕ → ℕ → TokenBucket
new_bucket capacity refill_ms now = record {
  capacity = at_least_one capacity;
  refill_ms = at_least_one refill_ms;
  credit = at_least_one capacity * at_least_one refill_ms;
  last = now;
}

-- The refill of `TryTake` for the time since the last one.
unfoldable pub refill : ℕ → TokenBucket → TokenBucket
refill now b =
    let refilled = b.credit + (now - b.last) in
    if ltb b.last now
    then record b {
      credit =
          if ltb (b.capacity * b.refill_ms) refilled then b.capacity * b.refill_ms else refilled;
      last = now;
    }
    else b

abbrev pub take_token : TokenBucket → Bool × TokenBucket
take_token b =
    if leb b.refill_ms b.credit
    then (true, record b { credit = b.credit - b.refill_ms })
    else (false, b)

-- `TryTake` at the time `now`
unfoldable pub try_take : ℕ → TokenBucket → Bool × TokenBucket
try_take now b = take_token (refill now b)

abbrev pub as_number : Bool → ℕ
as_number true = 1
as_number false = 0

-- What a bucket keeps: its settings are at least one, and it holds at most its capacity.
pub record IsBucket (b : TokenBucket) : Type 0 where
  pub room : 1 ≤ b.capacity
  pub pace : 1 ≤ b.refill_ms
  pub full : b.credit ≤ b.capacity * b.refill_ms

pub new_bucket-IsBucket :
    (capacity refill_ms now : ℕ) → IsBucket (new_bucket capacity refill_ms now)
new_bucket-IsBucket capacity refill_ms now = record {
  room = ground arith;
  pace = ground arith;
  full = omega arith;
}

-- One call: the settings stay, the clock never goes back, and what is taken was earned.
pub record Spent (b : TokenBucket) (taken : Bool) (b' : TokenBucket) : Type 0 where
  pub capacity : b'.capacity ≡ b.capacity
  pub refill_ms : b'.refill_ms ≡ b.refill_ms
  pub later : b.last ≤ b'.last
  pub earned : as_number taken * b.refill_ms + b'.credit + b.last ≤ b.credit + b'.last

refill-Spent : (now : ℕ) (b : TokenBucket) → Spent b false (refill now b)
unfolding refill
refill-Spent now b = record {
  capacity = ground arith;
  refill_ms = ground arith;
  later = ground arith;
  earned = ground arith;
}

pub try_take-Spent : (now : ℕ) (b : TokenBucket) → Spent b (try_take now b).0 (try_take now b).1
unfolding try_take
try_take-Spent now b =
    let r = refill-Spent now b in
    record {
      capacity = ground (arith, r.capacity);
      refill_ms = ground (arith, r.refill_ms);
      later = ground (arith, r.later);
      earned = ground (arith, r.earned, r.refill_ms);
    }

try_take-IsBucket : (now : ℕ) (b : TokenBucket) → IsBucket b → IsBucket (try_take now b).1
unfolding try_take refill
try_take-IsBucket now b h = record {
  room = ground (arith, h.room);
  pace = ground (arith, h.pace);
  full = ground (arith, h.full);
}

-- Calls of `TryTake` at the given times, and how many of them took a token.
abbrev pub count_take : Bool → ℕ × TokenBucket → ℕ × TokenBucket
count_take taken (n, b) = (as_number taken + n, b)

unfoldable pub takes : List ℕ → TokenBucket → ℕ × TokenBucket
takes [] b = (0, b)
takes (now ∷ times) b = count_take (try_take now b).0 (takes times (try_take now b).1)

-- The latest time that the clock has shown.
unfoldable pub latest : ℕ → List ℕ → ℕ
latest last [] = last
latest last (now ∷ times) = latest (if ltb last now then now else last) times

pub try_take-last :
    (now : ℕ) (b : TokenBucket) → (try_take now b).1.last ≡ (if ltb b.last now then now else b.last)
unfolding try_take refill
try_take-last now b = ground arith

earned_twice :
    (a n r c1 l1 l c fin : ℕ)
    → a * r + c1 + l ≤ c + l1
    → n * r + l1 ≤ c1 + fin
    → (a + n) * r + l ≤ c + fin
earned_twice a n r c1 l1 l c fin h k = grind arith

takes-earned :
    (times : List ℕ) (b : TokenBucket)
    → (takes times b).0 * b.refill_ms + b.last ≤ b.credit + latest b.last times
unfolding takes latest
takes-earned [] b = omega arith
takes-earned (now ∷ times) b =
    let one = try_take-Spent now b in
    earned_twice (as_number (try_take now b).0) _ b.refill_ms (try_take now b).1.credit
      (try_take now b).1.last b.last b.credit _ one.earned
      (subst
        (λ (l : ℕ).
          (takes times (try_take now b).1).0 * b.refill_ms + (try_take now b).1.last
          ≤ (try_take now b).1.credit + latest l times)
        (try_take-last now b)
        (subst
          (λ (r : ℕ).
            (takes times (try_take now b).1).0 * r + (try_take now b).1.last
            ≤ (try_take now b).1.credit + latest (try_take now b).1.last times)
          one.refill_ms (takes-earned times (try_take now b).1)))

-- However often TryTake is called on a new bucket and whatever times the clock shows, the tokens taken
-- are at most the capacity plus one for each full refill period since the start (both settings raised
-- to one if below; the credit is exact, without the rounding of a double).
pub takes-bound :
    (capacity refill_ms start : ℕ) (times : List ℕ)
    → (takes times (new_bucket capacity refill_ms start)).0 * at_least_one refill_ms + start
      ≤ at_least_one capacity * at_least_one refill_ms + latest start times
takes-bound capacity refill_ms start times =
    takes-earned times (new_bucket capacity refill_ms start)

at_least-times : (n m : ℕ) → 1 ≤ n → m ≤ n * m
at_least-times n m h = grind arith

-- On a bucket whose settings are at least one and which holds at most its capacity, TryTake takes a
-- token where a refill period has passed since the last refill (with exact credit).
pub try_take-after_refill :
    (now : ℕ) (b : TokenBucket)
    → IsBucket b
    → b.last + b.refill_ms ≤ now
    → (try_take now b).0 ≡ true
unfolding try_take refill
try_take-after_refill now b h k =
    let full : b.refill_ms ≤ b.capacity * b.refill_ms =
      at_least-times b.capacity b.refill_ms h.room in
    ground (arith, h.pace)
