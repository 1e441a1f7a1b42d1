-- ===== src/Server/FileServer/Safety.antt =====
-- What a file server asks of the system, whatever requests it serves and whatever the system answers.
use campiello.Common.{ℕ, ◌+◌, ◌<◌, ◌^◌, ◌≡◌, refl, inl, true, List, if◌then◌else◌, ◌==◌, arith}
use campiello.Wire.MessageType
use campiello.Wire.Frame.{Frame}
use campiello.Wire.Error.{unsupported}
use campiello.Server.Posix.{Program, done}
use campiello.Server.Posix.Every.{Every, Every-bind, Every-if}
use campiello.Server.FileServer.{keep, handle_request}
use campiello.Server.FileServer.Files.{FileServer}
use campiello.Server.FileServer.Allowed.{IsReply, IsServer}
use campiello.Server.FileServer.TreeCalls.{error-IsReply}
use campiello.Server.FileServer.TreeServes.{
  handle_stat-Serves, handle_list-Serves, handle_mkdir-Serves, handle_unlink-Serves,
  handle_rename-Serves, handle_truncate-Serves, handle_read_attrs-Serves, handle_write_attrs-Serves,
}
use campiello.Server.FileServer.FileCalls.{Settled, Goes, unchanged, handle_open-Goes}
use campiello.Server.FileServer.HandleCalls.{handle_read-Goes, handle_write-Goes, handle_close-Goes}
use campiello.Server.FileServer.QueryCalls.{handle_query_open-Goes, handle_query_close-Goes}

-- The type of the reply to a request, where it is no ERROR: the request's own, but for HELLO and
-- QUERY_OPEN.
abbrev pub reply_type : ℕ → ℕ
reply_type type =
    if type == MessageType.hello
    then MessageType.welcome
    else if type == MessageType.query_open
    then MessageType.query_result
    else type

module _ (Canonical : List ℕ → Type 0) (s : FileServer) (h : IsServer s) where
  -- A reply as the type of its request asks for.
  Fits : Frame → (Frame × FileServer) → Type 0
  Fits request a = Settled (reply_type request.type) s a

  branch :
      (type : ℕ) (request : Frame) (m : Program (Frame × FileServer))
      → (request.type == type) ≡ true
      → Goes Canonical s h (Settled (reply_type type) s) m
      → Goes Canonical s h (Fits request) m
  unfolding Fits
  branch type request m e k = let same : request.type ≡ type = ground (arith, e) in rw same k

  keep-Goes :
      (type : ℕ) (m : Program Frame)
      → Goes Canonical s h (IsReply type) m
      → Goes Canonical s h (Settled type s) (keep s m)
  unfolding Every
  keep-Goes type m k =
      Every-bind _ _ (IsReply type) (Settled type s) (λ reply. done (reply, s)) m k
        (λ reply r. (r, unchanged s h))

  choose :
      (type : ℕ) (request : Frame) (m n : Program (Frame × FileServer))
      → Goes Canonical s h (Settled (reply_type type) s) m
      → Goes Canonical s h (Fits request) n
      → Goes Canonical s h (Fits request) (if request.type == type then m else n)
  choose type request m n k l =
      Every-if _ _ (Fits request) (request.type == type) m n (λ e. branch type request m e k)
        (λ e. l)

  pub handle_request-Goes :
      (request : Frame)
      → s.next_handle + 1 < 2 ^ 64
      → Goes Canonical s h (Settled (reply_type request.type) s) (handle_request request s)
  unfolding handle_request Fits Every
  handle_request-Goes request n =
      let p = request.payload in
      choose MessageType.hello request _ _ ((refl, inl refl), unchanged s h)
        (choose MessageType.stat_message request _ _
          (keep-Goes _ _ (handle_stat-Serves Canonical s p))
          (choose MessageType.list request _ _ (keep-Goes _ _ (handle_list-Serves Canonical s p)) (
            choose MessageType.open_file request _ _ (handle_open-Goes Canonical s h p n) (
              choose MessageType.read request _ _ (keep-Goes _ _ (handle_read-Goes Canonical s h p))
                (choose MessageType.write_message request _ _
                  (keep-Goes _ _ (handle_write-Goes Canonical s h p))
                  (choose MessageType.close request _ _ (handle_close-Goes Canonical s h p) (
                    choose MessageType.mkdir request _ _
                      (keep-Goes _ _ (handle_mkdir-Serves Canonical s p))
                      (choose MessageType.unlink request _ _
                        (keep-Goes _ _ (handle_unlink-Serves Canonical s p))
                        (choose MessageType.rename request _ _
                          (keep-Goes _ _ (handle_rename-Serves Canonical s p))
                          (choose MessageType.truncate request _ _
                            (keep-Goes _ _ (handle_truncate-Serves Canonical s p))
                            (choose MessageType.read_attrs request _ _
                              (keep-Goes _ _ (handle_read_attrs-Serves Canonical s p))
                              (choose MessageType.write_attrs request _ _
                                (keep-Goes _ _ (handle_write_attrs-Serves Canonical s p))
                                (choose MessageType.query_open request _ _
                                  (handle_query_open-Goes Canonical s h p)
                                  (choose MessageType.query_close request _ _
                                    (handle_query_close-Goes Canonical s h p)
                                    (error-IsReply _ unsupported, unchanged s h)))))))))))))))
