-- ===== src/Trust/Pairing.antt =====
-- src/traghetto/trust/Pairing.cpp: the decision to admit a peer. `fMutex` makes a call of Admit one
-- step. What the clock shows, what the user answers and whether the file can be written are arguments.
pub mod Admission
pub mod Prompts
use campiello.Common.{
  ℕ, Bool, true, false, Option, none, some, List, [], ◌∷◌, if◌then◌else◌, bytes_eq,
}
use campiello.Trust.TokenBucket.{TokenBucket, new_bucket, try_take}
use campiello.Trust.Store.{
  PinnedPeer, TrustDecision, trusted, unknown, key_changed, pin, evaluate, save_text,
}

-- One call of `Ask`.
pub record Prompt : Type 0 where
  pub name : List ℕ
  pub fingerprint : List ℕ
  pub decision : TrustDecision

-- `fStore`, `fPromptBucket`, whether `fStorePath` is set, the file's text, and the prompts raised so far.
pub record Pairing : Type 0 where
  pub store : List PinnedPeer
  pub bucket : TokenBucket
  pub has_path : Bool
  pub file : Option (List ℕ)
  pub prompts : List Prompt

-- The constructor, at the time `start`, on a store that was loaded; the file is left out until a save.
abbrev pub new_pairing : ℕ → ℕ → ℕ → Bool → List PinnedPeer → Pairing
new_pairing burst refill_ms start has_path store = record {
  store = store;
  bucket = new_bucket burst refill_ms start;
  has_path = has_path;
  file = none;
  prompts = [];
}

-- What one call meets: the clock, the user's answer if asked, and whether a write succeeds.
pub record Moment : Type 0 where
  pub now : ℕ
  pub allow : Bool
  pub writable : Bool

-- `kNone`: 32 zero bytes.
abbrev pub no_fingerprint : List ℕ
no_fingerprint =
    0 ∷ 0 ∷ 0 ∷ 0 ∷ 0 ∷ 0 ∷ 0 ∷ 0 ∷ 0 ∷ 0 ∷ 0 ∷ 0 ∷ 0 ∷ 0 ∷ 0 ∷ 0 ∷ 0 ∷ 0 ∷ 0 ∷ 0 ∷ 0 ∷ 0 ∷ 0 ∷ 0
    ∷ 0 ∷ 0 ∷ 0 ∷ 0 ∷ 0 ∷ 0 ∷ 0 ∷ 0 ∷ []

-- `if (!fStorePath.empty()) fStore.SaveToFile(fStorePath);`, whose result is not looked at.
abbrev pub save : Bool → Pairing → Pairing
save writable p =
    if p.has_path then if writable then record p { file = some (save_text p.store) } else p else p

-- Behind an answer to the prompt.
abbrev pub answered : Moment → List ℕ → List ℕ → Pairing → Bool × Pairing
answered m fp name p =
    if m.allow
    then (true, save m.writable (record p { store = pin fp name p.store }))
    else (false, p)

-- Behind `fPromptBucket.TryTake()`.
abbrev pub rate_limited :
    Moment → List ℕ → List ℕ → TrustDecision → Pairing → Bool × TokenBucket → Bool × Pairing
rate_limited m fp name d p (false, b) = (false, record p { bucket = b })
rate_limited m fp name d p (true, b) = answered m fp name (record p {
  bucket = b;
  prompts = record { name = name; fingerprint = fp; decision = d } ∷ p.prompts;
})

abbrev pub decided : Moment → List ℕ → List ℕ → Pairing → TrustDecision → Bool × Pairing
decided m fp name p trusted = (true, p)
decided m fp name p unknown = rate_limited m fp name unknown p (try_take m.now p.bucket)
decided m fp name p key_changed = rate_limited m fp name key_changed p (try_take m.now p.bucket)

-- `Admit`
unfoldable pub admit : Moment → List ℕ → List ℕ → Pairing → Bool × Pairing
admit m fp name p =
    if bytes_eq fp no_fingerprint
    then (false, p)
    else decided m fp name p (evaluate fp name p.store)
