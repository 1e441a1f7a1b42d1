-- ===== src/Tests/Backend.antt =====
-- A backend and a file server at concrete requests.
use campiello.Common.{Bool, ◌∷◌, ◌≡◌, refl, true, false, List, []}
use campiello.Common.Text.{codes}
use campiello.Wire.Frame.{Frame}
use campiello.Wire.AttrOps.{make_write_attrs_request}
use campiello.Wire.Namespace.{
  make_mkdir_request, make_unlink_request, make_rename_request, make_truncate_request,
}
use campiello.Dispatch.{find_pending}
use campiello.Dispatch.Serve.{section, send_ends, turns, serve, serve_connection}
use campiello.Server.FileServer.Files.{FileServer, opened, new_server}
use campiello.Fondamenta.PeerBackend.{BackendResult, status, access_denied_status}
use campiello.Fondamenta.CnpBackend.{
  new_backend, mkdir_peer, unlink_peer, rename_peer, truncate_peer, write_attrs_peer,
}
use campiello.Fondamenta.CnpBackend.EndToEnd.{Course, Carries, received}
use campiello.Fondamenta.CnpBackend.Denied.{changes-denied}
use campiello.Tests.Serving.{system, owner, root, server}

-- The server behind an OPEN: file 5 under handle 1.
abbrev holding : FileServer
holding = (opened true 12 server 5).1

-- The thread sends the reply, and returns when the connection ends.
abbrev course : Course
course = record {
  max_queued = 4096;
  before = [];
  behind = section ∷ send_ends true ∷ [];
  served = [];
  before_stop = [];
  joining = section ∷ [];
}

abbrev always : Frame → Bool
always f = true

course-Carries : (r : Frame) (s : FileServer) → Carries system always r new_backend course s tt
unfolding find_pending turns serve serve_connection
course-Carries r s = record { sent = refl; free = refl; apart = tt; ended = refl; up = refl }

abbrev locked : FileServer
locked = new_server root owner false

abbrev through : Frame → List Frame
through r = received system r new_backend course locked tt

abbrev denied : BackendResult (Unit {0})
denied = status access_denied_status

changes-denied_example :
    ((mkdir_peer
        (codes "/a")
        0o755
        always
        (through (make_mkdir_request (codes "/a") 0o755 0))
        new_backend).0
      ≡ denied)
    × ((unlink_peer
          (codes "/a")
          always
          (through (make_unlink_request (codes "/a") 0))
          new_backend).0
        ≡ denied)
    × ((rename_peer
          (codes "/a")
          (codes "/b")
          always
          (through (make_rename_request (codes "/a") (codes "/b") 0))
          new_backend).0
        ≡ denied)
    × ((truncate_peer
          (codes "/a")
          7
          always
          (through (make_truncate_request (codes "/a") 7 0))
          new_backend).0
        ≡ denied)
    × ((write_attrs_peer
          (codes "/a")
          []
          always
          (through (make_write_attrs_request (codes "/a") [] 0))
          new_backend).0
        ≡ denied)
changes-denied_example =
    changes-denied system (codes "/a") (codes "/b") 0o755 7 [] always new_backend course locked tt
      (course-Carries _ locked) (course-Carries _ locked) (course-Carries _ locked)
      (course-Carries _ locked) (course-Carries _ locked) refl
