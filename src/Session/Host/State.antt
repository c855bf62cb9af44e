-- ===== src/Session/Host/State.antt =====
-- crates/session/src/host.rs: the state of the host's side of a session, what happens to it and what
-- it does.
use remote_x.Prelude.{ℕ, Bool, List, Option}
use remote_x.Common.Text.{Text}
use remote_x.Common.Event.{DisplayInfo}
use remote_x.Common.Peer.{Permissions, Msg, HostStats, QualitySettings}
use remote_x.Input.Clipboard.{ClipboardSync}
use remote_x.Session.Adapt.{Adapter, Target}
use remote_x.Session.Bulk.{BulkGovernor}
use remote_x.Session.Transfer.State
use remote_x.Session.Transfer.State.{FilePolicy, FileManager}

pub data EndReason : Type 0 where
  peer_closed local_closed connection_lost was_kicked : EndReason

pub data HostCmd : Type 0 where
  set_permissions : Permissions → HostCmd
  says : Text → HostCmd
  kick : HostCmd
  approve_file : ℕ → Bool → HostCmd

pub data VideoCtl : Type 0 where
  select : ℕ → VideoCtl
  quality : QualitySettings → VideoCtl
  keyframe : VideoCtl
  target : Target → VideoCtl
  pause : Bool → VideoCtl
  elevated : Bool → VideoCtl

pub data VideoEvent (F : Type 0) : Type 0 where
  measured : HostStats F → VideoEvent F
  found_displays : List DisplayInfo → ℕ → VideoEvent F
  has_failed : VideoEvent F

-- What the session does besides: messages to the peer, calls of the video thread and of the input
-- thread's shared state, what the file manager does, and events for the user.
pub data Effect (F : Type 0) : Type 0 where
  sends : Msg F → Effect F
  controls : VideoCtl → Effect F
  shares_permissions : Permissions → Effect F
  shares_active : ℕ → Effect F
  shares_displays : List DisplayInfo → ℕ → Effect F
  shares_elevated : Bool → Effect F
  releases_all : Effect F
  transfers : State.Out → Effect F
  shows_permissions : Permissions → Effect F
  shows_chat : ℕ → Text → ℕ → Bool → Effect F
  caps_bulk : ℕ → Effect F

pub record HostState (F : Type 0) (B : Type 0) (D : Type 0) : Type 0 where
  pub perms : Permissions
  pub max_perms : Permissions
  pub displays : List DisplayInfo
  pub active : ℕ
  pub quality : QualitySettings
  pub adapter : Option (Adapter F)
  pub files : FileManager
  pub board : Option (ClipboardSync B D)
  pub governor : BulkGovernor F
  pub rtt_ms : F
  pub last_rx : ℕ
  pub last_bulk : ℕ
  pub last_dropped : ℕ
  -- `elevated_guard.is_some()`
  pub guard : Bool

-- The counters that a tick reads.
pub record Counters (F : Type 0) : Type 0 where
  pub bulk_bytes_sent : ℕ
  pub video_dropped : ℕ
  pub send_delay_ms : F
  pub elevated_lost : Bool
  pub input_queue_us : ℕ
  pub input_apply_us : ℕ
  pub stale_moves : ℕ

-- What the loop selects: a message of the peer or the end of its queue, a command of the owner (with
-- whether elevated control can begin), an event of the video thread, a tick, or the end of the link.
pub data Happening (F : Type 0) : Type 0 where
  receives : Msg F → Happening F
  queue_ended : Happening F
  commands : Bool → HostCmd → Happening F
  video_says : Counters F → VideoEvent F → Happening F
  clip_tick : Happening F
  adapt_tick : Counters F → Happening F
  probe_tick : Counters F → Happening F
  ping_tick : Happening F
  closed : Happening F
