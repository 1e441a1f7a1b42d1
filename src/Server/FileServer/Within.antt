-- ===== src/Server/FileServer/Within.antt =====
-- The lexical test of `Resolve` on paths that are made of a path that passed it.
use campiello.Common.{
  ℕ, ◌≡◌, ◌⊎◌, inl, inr, refl, sym, ap, ◌∙◌, Bool, true, false, ◌&&◌, ◌||◌, Bool-cases, List, ◌++◌,
  append_assoc, length, length-append, take, drop, take-append, take-append-drop, leb, bytes_eq,
  bytes_eq_sound, bytes_eq_refl, arith,
}
use campiello.Common.Text.{codes}
use campiello.Server.FileServer.Paths.{starts_with, root_prefix, is_within, join}
use campiello.Server.FileServer.Tree.{path_in}
use campiello.Server.FileServer.Queries.{inside}

pub and_left : (a b : Bool) → a && b ≡ true → a ≡ true
and_left true b h = refl
and_left false b h = cc

pub and_right : (a b : Bool) → a && b ≡ true → b ≡ true
and_right true b h = h
and_right false b h = cc

or_cases : (a b : Bool) → a || b ≡ true → (a ≡ true) ⊎ (b ≡ true)
or_cases true b h = inl refl
or_cases false b h = inr h

or_right : (a b : Bool) → b ≡ true → a || b ≡ true
or_right true b h = refl
or_right false b h = h

starts_with-append : (front rest : List ℕ) → starts_with front (front ++ rest) ≡ true
unfolding starts_with
starts_with-append front rest =
    let long : leb (length front) (length (front ++ rest)) ≡ true =
      ground (arith, length-append front rest) in
    rw (long, take-append front rest) (bytes_eq_refl front)

pub starts_with-split :
    (front path : List ℕ) → starts_with front path ≡ true → path ≡ front ++ drop (length front) path
unfolding starts_with
starts_with-split front path h =
    let same = bytes_eq_sound (take (length front) path) front (and_right _ _ h) in
    sym (take-append-drop (length front) path) ∙ ap (λ l. l ++ drop (length front) path) same

starts_with-longer :
    (front path rest : List ℕ)
    → starts_with front path ≡ true
    → starts_with front (path ++ rest) ≡ true
starts_with-longer front path rest h =
    let whole : path ++ rest ≡ front ++ (drop (length front) path ++ rest) =
      ap (λ l. l ++ rest) (starts_with-split front path h)
      ∙ append_assoc front (drop (length front) path) rest in
    rw whole (starts_with-append front (drop (length front) path ++ rest))

root_prefix-child : (root rest : List ℕ) → starts_with (root_prefix root) (path_in root rest) ≡ true
unfolding root_prefix
root_prefix-child root rest = elim (Bool-cases (bytes_eq root (codes "/"))) [
  | inl e ↦
      let top = bytes_eq_sound root (codes "/") e in
      rw top (starts_with-append (codes "/") (codes "/" ++ rest))
  | inr e ↦
      rw (e, ← append_assoc root (codes "/") rest) (starts_with-append (root ++ codes "/") rest)
]

within-prefix :
    (root path : List ℕ) → starts_with (root_prefix root) path ≡ true → is_within root path ≡ true
unfolding is_within
within-prefix root path h = or_right (bytes_eq path root) (starts_with (root_prefix root) path) h

pub within-path_in :
    (root path name : List ℕ)
    → is_within root path ≡ true
    → is_within root (path_in path name) ≡ true
unfolding is_within
within-path_in root path name h = within-prefix root (path_in path name) (elim (or_cases _ _ h) [
  | inl e ↦ rw (bytes_eq_sound path root e) (root_prefix-child root name)
  | inr e ↦ starts_with-longer (root_prefix root) path (codes "/" ++ name) e
])

within-top :
    (root leaf : List ℕ)
    → is_within root (codes "/") ≡ true
    → is_within root (codes "/" ++ leaf) ≡ true
unfolding is_within root_prefix
within-top root leaf h = within-prefix root (codes "/" ++ leaf) (elim (or_cases _ _ h) [
  | inl e ↦ rw (← bytes_eq_sound (codes "/") root e) (starts_with-append (codes "/") leaf)
  | inr e ↦ starts_with-longer (root_prefix root) (codes "/") leaf e
])

pub within-join :
    (root parent leaf : List ℕ)
    → is_within root parent ≡ true
    → is_within root (join parent leaf) ≡ true
unfolding join
within-join root parent leaf h = elim (Bool-cases (bytes_eq parent (codes "/"))) [
  | inl e ↦
      let top = bytes_eq_sound parent (codes "/") e in rw top (within-top root leaf (rw (← top) h))
  | inr e ↦ rw e (within-path_in root parent leaf h)
]

pub within-inside :
    (root path : List ℕ) → starts_with (inside root) path ≡ true → is_within root path ≡ true
unfolding is_within
within-inside root path h =
    let whole : path ≡ path_in root (drop (length (inside root)) path) =
      starts_with-split (inside root) path h ∙ append_assoc root (codes "/") _ in
    within-prefix root path (rw whole (root_prefix-child root (drop (length (inside root)) path)))
