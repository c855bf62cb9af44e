-- ===== src/Common/Signaling.antt =====
-- crates/common/src/signaling.rs: the messages between a client and the server. A session id is a
-- number.
use remote_x.Prelude.{ℕ, Bool, List}
use remote_x.Common.Text.{Text}
use remote_x.Server.State.{ConnectFailure}

abbrev pub max_name_len : ℕ
max_name_len = 64

abbrev pub max_candidates : ℕ
max_candidates = 8

-- An authentication has the device id, the secret, the client's version, the device's name, its
-- addresses and whether it takes sessions.
pub data ClientToServer : Type 0 where
  register : Text → ClientToServer
  auth : Text → List ℕ → Text → Text → List Text → Bool → ClientToServer
  connect : Text → ClientToServer
  relay : ℕ → List ℕ → ClientToServer
  end_session : ℕ → Bool → ClientToServer
  session_mode : ℕ → Bool → ClientToServer
  query_presence : List Text → ClientToServer
  set_incoming_enabled : Bool → ClientToServer
  ping : ClientToServer

pub data ServerToClient : Type 0 where
  registered : Text → List ℕ → ServerToClient
  auth_ok : ℕ → ServerToClient
  auth_failed : Text → ServerToClient
  incoming : ℕ → Text → Text → Bool → ServerToClient
  session_ready : ℕ → Text → List Text → Bool → ServerToClient
  connect_failed : Text → ConnectFailure → ServerToClient
  relayed : ℕ → List ℕ → ServerToClient
  session_ended : ℕ → ServerToClient
  presence : List (Text × Bool) → ServerToClient
  pong : ServerToClient
  error : Text → ServerToClient
