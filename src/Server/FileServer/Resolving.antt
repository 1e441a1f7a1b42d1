-- ===== src/Server/FileServer/Resolving.antt =====
-- The programs that resolve a path, read attributes and build an entry, on the calls that they make.
use campiello.Common.{
  ℕ, ◌≡◌, refl, inl, inr, Bool, true, Option, none, some, List, [], ◌∷◌, ◌++◌, leb, length,
  Bool-cases, ◌==◌,
}
use campiello.Wire.Fields.Post.{Held}
use campiello.Wire.Attributes.{Attr, max_attrs}
use campiello.Wire.Error.{ErrorCode, invalid_request}
use campiello.Server.Posix.{
  Returned, failed, returned, FileStat, AttrInfo, Program, done, call, realpath, close_fd,
  stat_attr, ◌>>=◌,
}
use campiello.Server.Posix.Every.{Every, Every-bind, Every-if}
use campiello.Server.FileServer.Paths.{
  Resolution, refused, got, is_rooted, is_within, is_plain, resolved, resolve, joined, parent_of,
  find_last_of, behind, slash, trim_slashes, resolve_for_create,
}
use campiello.Server.FileServer.Attrs.{
  read_each, read_one, read_value_of, read_opened, read_listed, read_attrs_of, served_size,
  write_each, write_next, write_error, write_opened, write_attrs_to, built, build_entry,
}
use campiello.Server.FileServer.Files.{OpenFile}
use campiello.Server.FileServer.Allowed.{Promise, Placed, Allowed, child}
use campiello.Server.FileServer.Within.{within-join}

-- What an attempt gives, if it gives something.
abbrev pub Gives : (List ℕ → Type 0) → Resolution (List ℕ) → Type 0
Gives P (refused code) = Unit {0}
Gives P (got path) = P path

abbrev pub Inner : (List ℕ → Type 0) → List ℕ → List ℕ → Type 0
Inner Canonical root path = Canonical path × (is_within root path ≡ true)

abbrev pub AnyResult : {A : Type 0} → A → Type 0
AnyResult a = Unit {0}

resolved-Gives :
    (Canonical : List ℕ → Type 0) (root : List ℕ) (o : Option (List ℕ))
    → Held Canonical o
    → Gives (Inner Canonical root) (resolved root o)
resolved-Gives Canonical root none h = tt
resolved-Gives Canonical root (some path) h = elim (Bool-cases (is_within root path)) [
  | inl e ↦ simp e (h, refl)
  | inr e ↦ simp e tt
]

joined-Gives :
    (Canonical : List ℕ → Type 0) (root leaf : List ℕ) (a : Resolution (List ℕ))
    → is_plain leaf ≡ true
    → Gives (Inner Canonical root) a
    → Gives (Placed Canonical root) (joined leaf a)
joined-Gives Canonical root leaf (refused code) p h = tt
joined-Gives Canonical root leaf (got parent) p h =
    (child parent leaf h.0 h.1 p, within-join root parent leaf h.1)

module _ (Canonical : List ℕ → Type 0) (root : List ℕ) (writable : Bool)
    (files : List (ℕ × OpenFile)) where
  abbrev pub Makes : {A : Type 0} → (A → Type 0) → Program A → Type 0
  Makes Q m = Every (Promise Canonical) (Allowed Canonical root writable files) Q m

  pub resolve-Makes : (path : List ℕ) → Makes (Gives (Inner Canonical root)) (resolve root path)
  unfolding resolve Every
  resolve-Makes path =
      Every-if _ _ _ (is_rooted path) (call (realpath (root ++ path)) (λ o. done (resolved root o)))
        (done (refused invalid_request))
        (λ e. ((path, refl, e), λ o p. resolved-Gives Canonical root o p)) (λ e. tt)

  pub resolve_for_create-Makes :
      (path : List ℕ) → Makes (Gives (Placed Canonical root)) (resolve_for_create root path)
  unfolding resolve_for_create Every
  resolve_for_create-Makes path =
      let trimmed = trim_slashes path in
      let place = find_last_of slash trimmed in
      let leaf = behind place trimmed in
      Every-if _ _ _ (is_rooted path) _ (done (refused invalid_request))
        (λ e.
          Every-if _ _ _ (is_plain leaf)
            (resolve root (parent_of place trimmed) >>= (λ parent. done (joined leaf parent)))
            (done (refused invalid_request))
            (λ p.
              Every-bind _ _ (Gives (Inner Canonical root)) (Gives (Placed Canonical root))
                (λ parent. done (joined leaf parent)) (resolve root (parent_of place trimmed))
                (resolve-Makes (parent_of place trimmed))
                (λ a g. joined-Gives Canonical root leaf a p g))
            (λ p. tt))
        (λ e. tt)

  read_value_of-Makes :
      (fd : ℕ) (name : List ℕ) (type : ℕ) (attrs : List Attr) (size : Option ℕ)
      → Makes AnyResult (read_value_of fd name type attrs size)
  unfolding Every
  read_value_of-Makes fd name type attrs none = tt
  read_value_of-Makes fd name type attrs (some size) =
      Every-if _ _ _ (size == 0) _ _ (λ e. tt) (λ e. (tt, λ o p. tt))

  read_one-Makes :
      (fd : ℕ) (name : List ℕ) (attrs : List Attr) (o : Option AttrInfo)
      → Makes AnyResult (read_one fd name attrs o)
  unfolding Every
  read_one-Makes fd name attrs none = tt
  read_one-Makes fd name attrs (some info) =
      read_value_of-Makes fd name info.type attrs (served_size info.size)

  read_each-Makes :
      (fd : ℕ) (names : List (List ℕ)) (attrs : List Attr)
      → Makes AnyResult (read_each fd names attrs)
  unfolding Every read_each
  read_each-Makes fd [] attrs = tt
  read_each-Makes fd (name ∷ names) attrs =
      Every-if _ _ _ (leb max_attrs (length attrs)) (done attrs)
        (call (stat_attr fd name)
          (λ o. read_one fd name attrs o >>= (λ more. read_each fd names more)))
        (λ e. tt)
        (λ e. (
          tt,
          λ o p.
              Every-bind _ _ AnyResult AnyResult (λ more. read_each fd names more)
                (read_one fd name attrs o) (read_one-Makes fd name attrs o)
                (λ more h. read_each-Makes fd names more),
        ))

  read_opened-Makes :
      (names : List (List ℕ)) (o : Returned ℕ) → Makes AnyResult (read_opened names o)
  unfolding Every
  read_opened-Makes names (failed e) = tt
  read_opened-Makes names (returned fd) =
      Every-bind _ _ AnyResult AnyResult (λ attrs. call (close_fd fd) (λ u. done attrs))
        (read_each fd names []) (read_each-Makes fd names []) (λ attrs h. (tt, λ o p. tt))

  read_listed-Makes :
      (path : List ℕ) (o : Option (List (List ℕ)))
      → Placed Canonical root path
      → Makes AnyResult (read_listed path o)
  unfolding Every
  read_listed-Makes path none h = tt
  read_listed-Makes path (some names) h = ((h, refl), λ o p. read_opened-Makes names o)

  pub read_attrs_of-Makes :
      (path : List ℕ) → Placed Canonical root path → Makes AnyResult (read_attrs_of path)
  unfolding Every read_attrs_of
  read_attrs_of-Makes path h = (h, λ o p. read_listed-Makes path o h)

  write_each-Makes :
      (fd : ℕ) (attrs : List Attr) → writable ≡ true → Makes AnyResult (write_each fd attrs)
  unfolding Every write_each
  write_each-Makes fd [] h = tt
  write_each-Makes fd (a ∷ attrs) h =
      (h, λ w p. go (write_error (length a.value) w) (write_each-Makes fd attrs h))
    where
      go :
          (e : Option ErrorCode)
          → Makes AnyResult (write_each fd attrs)
          → Makes AnyResult (write_next (λ u. write_each fd attrs) e)
      go none k = k
      go (some code) k = tt

  write_opened-Makes :
      (attrs : List Attr) (o : Returned ℕ)
      → writable ≡ true
      → Makes AnyResult (write_opened attrs o)
  unfolding Every
  write_opened-Makes attrs (failed e) h = tt
  write_opened-Makes attrs (returned fd) h =
      Every-bind _ _ AnyResult AnyResult (λ error. call (close_fd fd) (λ u. done error))
        (write_each fd attrs) (write_each-Makes fd attrs h) (λ error k. (tt, λ o p. tt))

  pub write_attrs_to-Makes :
      (path : List ℕ) (attrs : List Attr)
      → Placed Canonical root path
      → writable ≡ true
      → Makes AnyResult (write_attrs_to path attrs)
  unfolding Every write_attrs_to
  write_attrs_to-Makes path attrs h w = ((h, refl), λ o p. write_opened-Makes attrs o w)

  built-Makes :
      (path name : List ℕ) (o : Option FileStat)
      → Placed Canonical root path
      → Makes AnyResult (built path name o)
  unfolding Every
  built-Makes path name none h = tt
  built-Makes path name (some st) h =
      Every-bind _ _ AnyResult AnyResult _ (read_attrs_of path) (read_attrs_of-Makes path h)
        (λ attrs k. tt)

  pub build_entry-Makes :
      (path name : List ℕ) → Placed Canonical root path → Makes AnyResult (build_entry path name)
  unfolding Every build_entry
  build_entry-Makes path name h = (h, λ o p. built-Makes path name o h)
