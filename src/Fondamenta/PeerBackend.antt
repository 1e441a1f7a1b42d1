-- ===== src/Fondamenta/PeerBackend.antt =====
-- src/fondamenta/backend/PeerBackend.h and the PeerSource of discovery/PathRouter.h: what browses one
-- peer, and what gives a backend for each peer.
use campiello.Common.{ℕ, Option, List}
use campiello.Wire.Listing.{Entry}

-- `enum class BackendStatus`, without kOk.
pub data BackendStatus : Type 0 where
  not_found_status access_denied_status not_a_directory_status is_a_directory_status
        unsupported_status io_error_status bad_handle_status invalid_request_status
        transport_error_status protocol_error_status :
      BackendStatus

-- kOk with what the out parameters are set to, or another status.
pub data BackendResult (A : Type 0) : Type 0 where
  ok : A → BackendResult A
  status : BackendStatus → BackendResult A

-- A source of backends, on a state `S` that its calls may change; `B` is a pointer to a backend.
pub record PeerSource (S B : Type 0) : Type 0 where
  pub peer_names : S → List (List ℕ) × S
  pub backend_for : List ℕ → S → Option B × S
  pub stat_at : B → List ℕ → S → BackendResult Entry × S
  pub read_dir_at : B → List ℕ → S → BackendResult (List Entry) × S
  pub open_at : B → List ℕ → S → BackendResult (ℕ × ℕ) × S
  pub read_at : B → ℕ → ℕ → ℕ → S → BackendResult (List ℕ) × S
  pub close_at : B → ℕ → S → BackendResult (Unit {0}) × S
  pub query_at : B → List ℕ → S → BackendResult (List Entry) × S
