-- ===== src/Server/FileServer/ListCalls.antt =====
-- LIST, on the calls that it makes and its reply.
use campiello.Common.{
  arith, ℕ, ◌≡◌, refl, inl, Bool, true, false, not, ◌&&◌, Option, none, some, List, [], ◌∷◌, leb,
  length, All,
}
use campiello.Wire.MessageType
use campiello.Wire.Frame.{message}
use campiello.Wire.Error.{not_a_directory}
use campiello.Wire.Fields.Post.{Held}
use campiello.Wire.Listing.{Entry, max_entries_per_reply, encode_listing}
use campiello.Server.Posix.{FileStat, done, call, list_dir, ◌>>=◌}
use campiello.Server.Posix.Every.{Every, Every-bind, Every-if}
use campiello.Server.FileServer.Paths.{error_frame, is_plain}
use campiello.Server.FileServer.Files.{OpenFile}
use campiello.Server.FileServer.Tree.{
  push_entry, is_dots, path_in, named_entry, list_each, list_names, list_found, list_decoded,
}
use campiello.Server.FileServer.Allowed.{IsReply, IsDirName, at, listed}
use campiello.Server.FileServer.Within.{within-path_in}
use campiello.Server.FileServer.Resolving.{Inner, AnyResult, Makes, build_entry-Makes}
use campiello.Server.FileServer.TreeCalls.{resolving, error-IsReply}

name-plain : (name : List ℕ) → IsDirName name → is_dots name ≡ false → is_plain name ≡ true
unfolding is_plain
name-plain name n d = ground (arith, n.0, n.1, d)

module _ (Canonical : List ℕ → Type 0) (root : List ℕ) (writable : Bool)
    (files : List (ℕ × OpenFile)) where
  entry-Does :
      (path name : List ℕ)
      → Inner Canonical root path
      → IsDirName name
      → Makes Canonical root writable files AnyResult (named_entry path name)
  unfolding Every
  entry-Does path name h n =
      Every-if _ _ _ (is_dots name) _ _ (λ e. tt)
        (λ e.
          build_entry-Makes Canonical root writable files (path_in path name) name
            (listed path name h.0 h.1 (name-plain name n e), within-path_in root path name h.1))

  list_each-Does :
      (path : List ℕ) (names : List (List ℕ)) (entries : List Entry)
      → Inner Canonical root path
      → All IsDirName names
      → Makes Canonical root writable files AnyResult (list_each path names entries)
  unfolding Every list_each
  list_each-Does path [] entries h n = tt
  list_each-Does path (name ∷ names) entries h n =
      Every-if _ _ _ (not (is_dots name) && leb max_entries_per_reply (length entries))
        (done entries)
        (named_entry path name >>= (λ e. list_each path names (push_entry entries e))) (λ e. tt)
        (λ e.
          Every-bind _ _ AnyResult AnyResult (λ e. list_each path names (push_entry entries e))
            (named_entry path name) (entry-Does path name h n.0)
            (λ e k. list_each-Does path names (push_entry entries e) h n.1))

  list_names-Does :
      (path : List ℕ) (o : Option (List (List ℕ)))
      → Inner Canonical root path
      → Held (All IsDirName) o
      → Makes Canonical root writable files (IsReply MessageType.list) (list_names path o)
  unfolding Every
  list_names-Does path none h n = error-IsReply _ _
  list_names-Does path (some names) h n =
      Every-bind _ _ AnyResult _
        (λ entries. done (message MessageType.list 0 (encode_listing entries)))
        (list_each path names []) (list_each-Does path names [] h n) (λ entries k. (refl, inl refl))

  list_found-Does :
      (path : List ℕ) (o : Option FileStat)
      → Inner Canonical root path
      → Makes Canonical root writable files (IsReply MessageType.list) (list_found path o)
  unfolding Every
  list_found-Does path none h = error-IsReply _ _
  list_found-Does path (some st) h =
      Every-if _ _ _ st.is_dir (call (list_dir path) (λ o. list_names path o))
        (done (error_frame not_a_directory))
        (λ e. ((at path h.0, h.1), λ o p. list_names-Does path o h p))
        (λ e. error-IsReply _ not_a_directory)

  pub list-Does :
      (o : Option (List ℕ))
      → Makes Canonical root writable files (IsReply MessageType.list) (list_decoded root o)
  unfolding Every
  list-Does none = error-IsReply _ _
  list-Does (some path) =
      resolving Canonical root writable files _ path _
        (λ real h. ((at real h.0, h.1), λ o p. list_found-Does real o h))
