-- ===== src/Wire/Fields.antt =====
-- The shape that every payload decoder of src/traghetto/wire has: a map header, a loop over its
-- entries that reads a key, dispatches on it and fills a field once, and a test that every mandatory
-- field was there. The message modules give the dispatch and the test.
pub mod Encoded
pub mod Post
use campiello.Common.{
  ℕ, Bool, true, false, Option, none, some, List, if◌then◌else◌, leb, not, ◌&&◌, is_empty, length,
}
use campiello.Wire.Cbor.Monad.{
  CborReader, M, pure, reject, when, repeat, continue, at_end, reader, ◌>>=◌,
}
use campiello.Wire.Cbor.Reader.{read_text, read_map_header, skip}

abbrev pub is_none : {A : Type 0} → Option A → Bool
is_none none = true
is_none (some a) = false

-- `if (haveX) return false;` where the field is `some` once it was read.
abbrev pub once : {A B : Type 0} → Option A → M B → M B
once o m = when (is_none o) m

-- Read a value, refuse it if the test fails, and store it.
abbrev pub store : {A S : Type 0} → M A → (A → Bool) → (A → S) → M S
store m test f = m >>= λ v. when (test v) (pure (f v))

abbrev pub any : {A : Type 0} → A → Bool
any a = true

-- An unknown key: its value is skipped.
abbrev pub ignore : {S : Type 0} → S → M S
ignore s = skip >>= λ u. pure s

-- One round of the loop: a key, and what its value does to the fields.
abbrev pub entry : {S : Type 0} → (S → List ℕ → M S) → S → M S
entry value s = read_text >>= value s

abbrev pub read_fields : {S : Type 0} → (S → List ℕ → M S) → S → ℕ → M S
read_fields value s n = repeat n (entry value) s

abbrev pub accept : {B : Type 0} → Option B → M B
accept none = reject
accept (some b) = pure b

-- The mandatory fields, if each of them was there.
abbrev pub both : {A B : Type 0} → Option A → Option B → Option (A × B)
both none b = none
both (some a) none = none
both (some a) (some b) = some (a, b)

abbrev pub all_three : {A B C : Type 0} → Option A → Option B → Option C → Option (A × B × C)
all_three none b c = none
all_three (some a) none c = none
all_three (some a) (some b) none = none
all_three (some a) (some b) (some c) = some (a, b, c)

-- A map inside a payload.
unfoldable pub read_map : {S B : Type 0} → (S → List ℕ → M S) → S → (S → Option B) → M B
read_map value start finish =
    (read_map_header >>= read_fields value start) >>= λ s. accept (finish s)

-- `if (r.HasError() || !r.AtEnd()) return false;`
abbrev pub whole : {B : Type 0} → Option B × CborReader → Option B
whole (none, r) = none
whole (some b, r) = if r.error then none else if at_end r then some b else none

-- A whole payload.
unfoldable pub decode : {B : Type 0} → M B → List ℕ → Option B
decode m payload = whole (m (reader payload))

-- `std::string` bounds that several messages share.
abbrev pub within : ℕ → List ℕ → Bool
within limit s = not (is_empty s) && leb (length s) limit

abbrev pub at_most : ℕ → List ℕ → Bool
at_most limit s = leb (length s) limit

abbrev pub fits_u32 : ℕ → Bool
fits_u32 v = leb v 0xffff_ffff
