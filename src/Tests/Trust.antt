-- ===== src/Tests/Trust.antt =====
-- Fingerprints, the store, pairing and the gate at concrete data.
use campiello.Common.{
  ℕ, ◌+◌, ◌*◌, ◌≤◌, ◌≡◌, refl, true, false, none, some, List, [], ◌∷◌, length, map, bytes_eq,
  if◌then◌else◌, arith,
}
use campiello.Common.Text.{codes}
use campiello.Trust.Fingerprint.{IsFingerprint}
use campiello.Trust.TokenBucket.{
  at_least_one, new_bucket, new_bucket-IsBucket, refill, try_take, takes, latest,
  try_take-after_refill,
}
use campiello.Trust.Store.{
  PinnedPeer, pin, forget, find, is_trusted, evaluate, save_text, load_text,
}
use campiello.Trust.Store.Pins.{Unique, find-pin-forget}
use campiello.Trust.Store.File.{saved, load_text-save_text}
use campiello.Trust.Pairing.{Moment, Pairing, no_fingerprint, new_pairing, admit}
use campiello.Trust.Pairing.Admission.{AdmitEnds, admit-Ends, admit-again}
use campiello.Trust.Pairing.Prompts.{Attempt, admits, times, prompts-bound}

-- 32 bytes, the first of them `b`.
abbrev key : ℕ → List ℕ
key b =
    b ∷ 0xab ∷ 3 ∷ 4 ∷ 5 ∷ 6 ∷ 7 ∷ 8 ∷ 9 ∷ 10 ∷ 11 ∷ 12 ∷ 13 ∷ 14 ∷ 15 ∷ 16 ∷ 17 ∷ 18 ∷ 19 ∷ 20 ∷ 21
    ∷ 22 ∷ 23 ∷ 24 ∷ 25 ∷ 26 ∷ 27 ∷ 28 ∷ 29 ∷ 30 ∷ 31 ∷ 0xff ∷ []

key_1-IsFingerprint : IsFingerprint (key 1)
key_1-IsFingerprint = record { size = refl; bytes = omega arith }

three_of_four : (takes (5 ∷ 6 ∷ 7 ∷ 120 ∷ []) (new_bucket 2 100 5)).0 ≡ 3
unfolding takes try_take refill
three_of_four = refl

try_take-after_refill_example : (try_take 105 (new_bucket 2 100 5)).0 ≡ true
try_take-after_refill_example =
    try_take-after_refill 105 (new_bucket 2 100 5) (new_bucket-IsBucket 2 100 5) (omega arith)

abbrev peers : List PinnedPeer
peers =
    record { fingerprint = key 1; name = codes "casa" }
    ∷ record { fingerprint = key 2; name = codes "lavoro" }
    ∷ []

find-pin-forget_example :
    (find (key 2) (pin (key 1) (codes "studio") peers) ≡ (
      if bytes_eq (key 1) (key 2)
      then some (record { fingerprint = key 1; name = codes "studio" })
      else find (key 2) peers))
    × (find (key 2) (forget (key 1) peers).1
        ≡ (if bytes_eq (key 1) (key 2) then none else find (key 2) peers))
    × ((forget (key 1) peers).0 ≡ is_trusted (key 1) peers)
    × Unique (pin (key 1) (codes "studio") peers)
    × Unique (forget (key 1) peers).1
unfolding Unique find
find-pin-forget_example = find-pin-forget (key 1) (codes "studio") (key 2) peers (refl, (refl, tt))

load_text-save_text_example : load_text (save_text peers) ≡ map saved peers
load_text-save_text_example =
    load_text-save_text peers (
      record { size = refl; bytes = omega arith },
      (record { size = refl; bytes = omega arith }, tt),
    )

abbrev moment : Moment
moment = record { now = 50; allow = true; writable = true }

abbrev pairing : Pairing
pairing = new_pairing 5 15000 0 true peers

admit-Ends_example :
    AdmitEnds moment (key 3) (codes "casa") pairing (admit moment (key 3) (codes "casa") pairing)
admit-Ends_example = admit-Ends moment (key 3) (codes "casa") pairing

first_key_admitted : admit moment (key 1) (codes "casa") pairing ≡ (true, pairing)
unfolding admit evaluate find
first_key_admitted = refl

admit-again_example :
    (admit moment no_fingerprint (codes "casa") pairing ≡ (false, pairing))
    × (admit moment (key 1) (codes "altro") pairing ≡ (true, pairing))
admit-again_example =
    admit-again moment moment (key 1) (codes "casa") (codes "altro") pairing pairing
      first_key_admitted

abbrev attempts : List Attempt
attempts =
    record { moment = moment; fingerprint = key 3; name = codes "casa" }
    ∷ record { moment = moment; fingerprint = key 4; name = codes "casa" }
    ∷ []

prompts-bound_example :
    length (admits attempts (new_pairing 1 15000 0 true peers)).prompts * at_least_one 15000 + 0
    ≤ at_least_one 1 * at_least_one 15000 + latest 0 (times attempts)
prompts-bound_example = prompts-bound 1 15000 0 true peers attempts
