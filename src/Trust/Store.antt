-- ===== src/Trust/Store.antt =====
-- src/traghetto/trust/TrustStore.cpp: the paired peers, in the order in which they were pinned.
pub mod Pins
pub mod File
use campiello.Common.{
  ℕ, Bool, true, false, Option, none, some, List, [], ◌∷◌, ◌++◌, if◌then◌else◌, bytes_eq, length,
  ltb, take, drop, map, ◌==◌, ◌||◌,
}
use campiello.Trust.Fingerprint.{to_hex, from_hex}

pub record PinnedPeer : Type 0 where
  pub fingerprint : List ℕ
  pub name : List ℕ

pub data TrustDecision : Type 0 where
  trusted unknown key_changed : TrustDecision

-- `Pin`: a peer that is there gets the new name, any other is appended.
unfoldable pub pin : List ℕ → List ℕ → List PinnedPeer → List PinnedPeer
pin fp name [] = record { fingerprint = fp; name = name } ∷ []
pin fp name (p ∷ peers) =
    if bytes_eq p.fingerprint fp then record p { name = name } ∷ peers else p ∷ pin fp name peers

-- `Forget`: the first peer with the fingerprint goes.
abbrev pub keep_first : PinnedPeer → Bool × List PinnedPeer → Bool × List PinnedPeer
keep_first p (found, peers) = (found, p ∷ peers)

unfoldable pub forget : List ℕ → List PinnedPeer → Bool × List PinnedPeer
forget fp [] = (false, [])
forget fp (p ∷ peers) =
    if bytes_eq p.fingerprint fp then (true, peers) else keep_first p (forget fp peers)

-- `Find`
unfoldable pub find : List ℕ → List PinnedPeer → Option PinnedPeer
find fp [] = none
find fp (p ∷ peers) = if bytes_eq p.fingerprint fp then some p else find fp peers

abbrev pub is_some : Option PinnedPeer → Bool
is_some none = false
is_some (some p) = true

-- `IsTrusted`
abbrev pub is_trusted : List ℕ → List PinnedPeer → Bool
is_trusted fp peers = is_some (find fp peers)

-- The second loop of `Evaluate`.
unfoldable pub evaluate_name : List ℕ → List PinnedPeer → TrustDecision
evaluate_name name [] = unknown
evaluate_name name (p ∷ peers) =
    if bytes_eq p.name name then key_changed else evaluate_name name peers

-- `Evaluate`
unfoldable pub evaluate : List ℕ → List ℕ → List PinnedPeer → TrustDecision
evaluate fp name peers = if is_trusted fp peers then trusted else evaluate_name name peers

-- A character of a name as `SaveToFile` writes it: 10 and 13 end a line, 32 is a space.
abbrev pub one_line : ℕ → ℕ
one_line c = if c == 10 || c == 13 then 32 else c

unfoldable pub save_line : PinnedPeer → List ℕ
save_line p = to_hex p.fingerprint ++ (32 ∷ map one_line p.name)

-- What `SaveToFile` writes.
unfoldable pub save_text : List PinnedPeer → List ℕ
save_text [] = []
save_text (p ∷ peers) = save_line p ++ (10 ∷ save_text peers)

-- `std::getline` until it fails.
abbrev pub put_char : ℕ → List (List ℕ) → List (List ℕ)
put_char c [] = (c ∷ []) ∷ []
put_char c (l ∷ lines) = (c ∷ l) ∷ lines

unfoldable pub get_lines : List ℕ → List (List ℕ)
get_lines [] = []
get_lines (c ∷ text) = if c == 10 then [] ∷ get_lines text else put_char c (get_lines text)

-- `if (!line.empty() && line.back() == '\r') line.pop_back();`
unfoldable pub strip_return : List ℕ → List ℕ
strip_return [] = []
strip_return (c ∷ []) = if c == 13 then [] else c ∷ []
strip_return (c ∷ d ∷ line) = c ∷ strip_return (d ∷ line)

-- The name behind the fingerprint, if a space stands between them.
abbrev pub name_behind : List ℕ → List ℕ
name_behind [] = []
name_behind (c ∷ name) = if c == 32 then name else []

abbrev pub peer_of : Option (List ℕ) → List ℕ → Option PinnedPeer
peer_of none name = none
peer_of (some fp) name = some (record { fingerprint = fp; name = name })

-- One line of `LoadFromFile`, without its carriage return; `none` skips it.
unfoldable pub load_line : List ℕ → Option PinnedPeer
load_line line =
    if ltb (length line) 64
    then none
    else peer_of (from_hex (take 64 line)) (name_behind (drop 64 line))

abbrev pub push_peer : Option PinnedPeer → List PinnedPeer → List PinnedPeer
push_peer none peers = peers
push_peer (some p) peers = p ∷ peers

unfoldable pub load_lines : List (List ℕ) → List PinnedPeer
load_lines [] = []
load_lines (line ∷ lines) = push_peer (load_line (strip_return line)) (load_lines lines)

-- What `LoadFromFile` makes of a file that it can open.
unfoldable pub load_text : List ℕ → List PinnedPeer
load_text text = load_lines (get_lines text)
