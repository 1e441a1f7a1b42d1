-- ===== src/Server/FileServer/TreeServes.antt =====
-- The requests on paths, of a file server.
use campiello.Common.{ℕ, ◌≡◌, true, List}
use campiello.Wire.MessageType
use campiello.Wire.Frame.{Frame}
use campiello.Wire.Error.{access_denied}
use campiello.Wire.Attributes.{decode_write_attrs_request}
use campiello.Wire.Listing.{decode_path_request}
use campiello.Wire.Namespace.{decode_mkdir_request, decode_rename_request, decode_truncate_request}
use campiello.Server.Posix.{Program}
use campiello.Server.Posix.Every.{Every, Every-if}
use campiello.Server.FileServer.Files.{FileServer}
use campiello.Server.FileServer.Tree.{
  handle_stat, handle_list, if_writable, handle_mkdir, handle_unlink, handle_rename,
  handle_truncate, handle_read_attrs, handle_write_attrs,
}
use campiello.Server.FileServer.Allowed.{IsReply}
use campiello.Server.FileServer.Resolving.{Makes}
use campiello.Server.FileServer.ListCalls.{list-Does}
use campiello.Server.FileServer.TreeCalls.{
  Does, error-IsReply, stat-Does, mkdir-Does, unlink-Does, rename-Does, truncate-Does,
  read_attrs-Does, write_attrs-Does,
}

-- The requests that need a writable server.
module _ (Canonical : List ℕ → Type 0) (s : FileServer) where
  if_writable-Does :
      (type : ℕ) (m : Program Frame)
      → (s.writable ≡ true → Does Canonical s.root s.writable s.open_files (IsReply type) m)
      → Does Canonical s.root s.writable s.open_files (IsReply type) (if_writable s m)
  unfolding Every
  if_writable-Does type m h =
      Every-if _ _ _ s.writable m _ h (λ e. error-IsReply type access_denied)

  abbrev pub Serves : ℕ → (List ℕ → FileServer → Program Frame) → Type 0
  Serves type handler =
      (payload : List ℕ)
      → Makes Canonical s.root s.writable s.open_files (IsReply type) (handler payload s)

  pub handle_stat-Serves : Serves MessageType.stat_message handle_stat
  unfolding handle_stat
  handle_stat-Serves payload = stat-Does Canonical _ _ _ (decode_path_request payload)

  pub handle_list-Serves : Serves MessageType.list handle_list
  unfolding handle_list
  handle_list-Serves payload = list-Does Canonical _ _ _ (decode_path_request payload)

  pub handle_mkdir-Serves : Serves MessageType.mkdir handle_mkdir
  unfolding handle_mkdir
  handle_mkdir-Serves payload =
      if_writable-Does _ _ (λ w. mkdir-Does Canonical _ _ _ (decode_mkdir_request payload) w)

  pub handle_unlink-Serves : Serves MessageType.unlink handle_unlink
  unfolding handle_unlink
  handle_unlink-Serves payload =
      if_writable-Does _ _ (λ w. unlink-Does Canonical _ _ _ (decode_path_request payload) w)

  pub handle_rename-Serves : Serves MessageType.rename handle_rename
  unfolding handle_rename
  handle_rename-Serves payload =
      if_writable-Does _ _ (λ w. rename-Does Canonical _ _ _ (decode_rename_request payload) w)

  pub handle_truncate-Serves : Serves MessageType.truncate handle_truncate
  unfolding handle_truncate
  handle_truncate-Serves payload =
      if_writable-Does _ _ (λ w. truncate-Does Canonical _ _ _ (decode_truncate_request payload) w)

  pub handle_read_attrs-Serves : Serves MessageType.read_attrs handle_read_attrs
  unfolding handle_read_attrs
  handle_read_attrs-Serves payload = read_attrs-Does Canonical _ _ _ (decode_path_request payload)

  pub handle_write_attrs-Serves : Serves MessageType.write_attrs handle_write_attrs
  unfolding handle_write_attrs
  handle_write_attrs-Serves payload =
      if_writable-Does _ _
        (λ w. write_attrs-Does Canonical _ _ _ (decode_write_attrs_request payload) w)
