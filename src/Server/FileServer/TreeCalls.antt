-- ===== src/Server/FileServer/TreeCalls.antt =====
-- The requests on paths, on the calls that they make and the replies that they give.
use campiello.Common.{ℕ, ◌≡◌, refl, inl, inr, Bool, true, Option, none, some, List}
use campiello.Wire.MessageType
use campiello.Wire.Frame.{Frame, message}
use campiello.Wire.Error.{ErrorCode, invalid_request}
use campiello.Wire.Attributes.{Attr}
use campiello.Wire.AttrOps.{make_read_attrs_reply}
use campiello.Wire.Listing.{Entry}
use campiello.Server.Posix.{Returned, failed, returned, FileStat, Program, done, ◌>>=◌}
use campiello.Server.Posix.Every.{Every, Every-bind, Every-if}
use campiello.Server.FileServer.Paths.{
  Resolution, refused, got, error_frame, errno_to_code, leaf_name, or_error, resolve,
  resolve_for_create,
}
use campiello.Server.FileServer.Attrs.{read_attrs_of, write_attrs_to, build_entry}
use campiello.Server.FileServer.Files.{OpenFile}
use campiello.Server.FileServer.Tree.{
  stat_reply_of, stat_decoded, acknowledge, mkdir_decoded, unlink_found, unlink_decoded,
  rename_decoded, truncate_decoded, read_attrs_decoded, all_valid, write_attrs_result,
  write_attrs_decoded,
}
use campiello.Server.FileServer.Allowed.{Placed, IsReply, at}
use campiello.Server.FileServer.Resolving.{
  Gives, Inner, AnyResult, Makes, resolve-Makes, resolve_for_create-Makes, read_attrs_of-Makes,
  write_attrs_to-Makes, build_entry-Makes,
}

pub error-IsReply : (type : ℕ) (code : ErrorCode) → IsReply type (error_frame code)
error-IsReply type code = (refl, inr (code, refl))

acknowledge-IsReply :
    (type : ℕ) (payload : List ℕ) (o : Returned (Unit {0}))
    → IsReply type (acknowledge (message type 0 payload) o)
acknowledge-IsReply type payload (failed e) = error-IsReply type (errno_to_code e)
acknowledge-IsReply type payload (returned u) = (refl, inl refl)

stat_reply_of-IsReply : (e : Option Entry) → IsReply MessageType.stat_message (stat_reply_of e)
stat_reply_of-IsReply none = error-IsReply _ _
stat_reply_of-IsReply (some e) = (refl, inl refl)

write_attrs_result-IsReply :
    (e : Option ErrorCode) → IsReply MessageType.write_attrs (write_attrs_result e)
write_attrs_result-IsReply none = (refl, inl refl)
write_attrs_result-IsReply (some code) = error-IsReply _ code

module _ (Canonical : List ℕ → Type 0) (root : List ℕ) (writable : Bool)
    (files : List (ℕ × OpenFile)) where
  abbrev pub Does : {A : Type 0} → (A → Type 0) → Program A → Type 0
  Does Q m = Makes Canonical root writable files Q m

  or_error-Does :
      (type : ℕ) (P : List ℕ → Type 0) (f : List ℕ → Program Frame) (a : Resolution (List ℕ))
      → Gives P a
      → ((path : List ℕ) → P path → Does (IsReply type) (f path))
      → Does (IsReply type) (or_error a f)
  unfolding Every
  or_error-Does type P f (refused code) g k = error-IsReply type code
  or_error-Does type P f (got path) g k = k path g

  pub resolving :
      (type : ℕ) (path : List ℕ) (f : List ℕ → Program Frame)
      → ((real : List ℕ) → Inner Canonical root real → Does (IsReply type) (f real))
      → Does (IsReply type) (resolve root path >>= (λ a. or_error a f))
  resolving type path f k =
      Every-bind _ _ (Gives (Inner Canonical root)) (IsReply type) (λ a. or_error a f)
        (resolve root path) (resolve-Makes Canonical root writable files path)
        (λ a g. or_error-Does type (Inner Canonical root) f a g k)

  creating :
      (type : ℕ) (path : List ℕ) (f : List ℕ → Program Frame)
      → ((real : List ℕ) → Placed Canonical root real → Does (IsReply type) (f real))
      → Does (IsReply type) (resolve_for_create root path >>= (λ a. or_error a f))
  creating type path f k =
      Every-bind _ _ (Gives (Placed Canonical root)) (IsReply type) (λ a. or_error a f)
        (resolve_for_create root path) (resolve_for_create-Makes Canonical root writable files path)
        (λ a g. or_error-Does type (Placed Canonical root) f a g k)

  pub stat-Does :
      (o : Option (List ℕ)) → Does (IsReply MessageType.stat_message) (stat_decoded root o)
  unfolding Every
  stat-Does none = error-IsReply _ _
  stat-Does (some path) = resolving _ path _ (λ real h.
      Every-bind _ _ AnyResult _ (λ e. done (stat_reply_of e)) (build_entry real (leaf_name path))
        (build_entry-Makes Canonical root writable files real (leaf_name path) (at real h.0, h.1))
        (λ e k. stat_reply_of-IsReply e))

  pub mkdir-Does :
      (o : Option (List ℕ × ℕ))
      → writable ≡ true
      → Does (IsReply MessageType.mkdir) (mkdir_decoded root o)
  unfolding Every
  mkdir-Does none w = error-IsReply _ _
  mkdir-Does (some (path, mode)) w =
      creating _ path _ (λ real h. ((h, w), λ o p. acknowledge-IsReply _ _ o))

  unlink_found-Does :
      (real : List ℕ) (o : Option FileStat)
      → Placed Canonical root real
      → writable ≡ true
      → Does (IsReply MessageType.unlink) (unlink_found real o)
  unfolding Every
  unlink_found-Does real none h w = error-IsReply _ _
  unlink_found-Does real (some st) h w =
      Every-if _ _ _ st.is_dir _ _ (λ e. ((h, w), λ o p. acknowledge-IsReply _ _ o))
        (λ e. ((h, w), λ o p. acknowledge-IsReply _ _ o))

  pub unlink-Does :
      (o : Option (List ℕ))
      → writable ≡ true
      → Does (IsReply MessageType.unlink) (unlink_decoded root o)
  unfolding Every
  unlink-Does none w = error-IsReply _ _
  unlink-Does (some path) w = creating _ path _ (λ real h. (h, λ o p. unlink_found-Does real o h w))

  pub rename-Does :
      (o : Option (List ℕ × List ℕ))
      → writable ≡ true
      → Does (IsReply MessageType.rename) (rename_decoded root o)
  unfolding Every
  rename-Does none w = error-IsReply _ _
  rename-Does (some (source, target)) w =
      creating _ source _
        (λ a h. creating _ target _ (λ b k. ((h, k, w), λ o p. acknowledge-IsReply _ _ o)))

  pub truncate-Does :
      (o : Option (List ℕ × ℕ))
      → writable ≡ true
      → Does (IsReply MessageType.truncate) (truncate_decoded root o)
  unfolding Every
  truncate-Does none w = error-IsReply _ _
  truncate-Does (some (path, size)) w =
      resolving _ path _ (λ real h. (((at real h.0, h.1), w), λ o p. acknowledge-IsReply _ _ o))

  pub read_attrs-Does :
      (o : Option (List ℕ)) → Does (IsReply MessageType.read_attrs) (read_attrs_decoded root o)
  unfolding Every
  read_attrs-Does none = error-IsReply _ _
  read_attrs-Does (some path) = resolving _ path _ (λ real h.
      Every-bind _ _ AnyResult _ (λ attrs. done (make_read_attrs_reply attrs 0))
        (read_attrs_of real)
        (read_attrs_of-Makes Canonical root writable files real (at real h.0, h.1))
        (λ attrs k. (refl, inl refl)))

  pub write_attrs-Does :
      (o : Option (List ℕ × List Attr))
      → writable ≡ true
      → Does (IsReply MessageType.write_attrs) (write_attrs_decoded root o)
  unfolding Every
  write_attrs-Does none w = error-IsReply _ _
  write_attrs-Does (some (path, attrs)) w =
      Every-if _ _ _ (all_valid attrs) _ _
        (λ e. resolving _ path _ (λ real h.
          Every-bind _ _ AnyResult _ (λ e. done (write_attrs_result e)) (write_attrs_to real attrs)
            (write_attrs_to-Makes Canonical root writable files real attrs (at real h.0, h.1) w)
            (λ e k. write_attrs_result-IsReply e)))
        (λ e. error-IsReply _ invalid_request)
