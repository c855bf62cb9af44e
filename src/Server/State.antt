-- ===== src/Server/State.antt =====
-- server/src/hub.rs: the state behind the mutex, the configuration that it reads, and the results that
-- the hub's methods return. A channel's sender and a `Notify` are handles, known by a number. An
-- address is a number, and an `Instant` a number of nanoseconds.
use remote_x.Prelude.{ℕ, ◌+◌, ◌*◌, ◌%◌, ◌^◌, Bool, true, false, List, [], ◌∷◌, Option, none, some}
use remote_x.Common.Text.{Text, text_eq}
use remote_x.Prelude.Eq.{nat_eq}
use remote_x.Map
use remote_x.Map.{Map}
use remote_x.Security.Limiter
use remote_x.Security.Limiter.{AttemptLimiter}

pub record Conn : Type 0 where
  pub conn_id : ℕ
  pub tx : ℕ
  pub kick : ℕ
  pub name : Text
  pub ip : ℕ
  pub candidates : List Text
  pub incoming_enabled : Bool

pub data Mode : Type 0 where
  pending relayed direct : Mode

pub record Bucket (F : Type 0) : Type 0 where
  pub tokens : F
  pub last : ℕ

pub record Session (F : Type 0) : Type 0 where
  pub viewer : Text
  pub host : Text
  pub viewer_ip : ℕ
  pub created : ℕ
  pub last_activity : ℕ
  pub mode : Mode
  pub bytes : ℕ
  pub bucket : Bucket F

pub record Limiters : Type 0 where
  pub auth_fail_ip : AttemptLimiter ℕ
  pub register_ip : AttemptLimiter ℕ
  pub connect_src : AttemptLimiter Text
  pub enumerate_ip : AttemptLimiter ℕ
  pub pw_fail_viewer : AttemptLimiter Text
  pub pw_fail_ip : AttemptLimiter ℕ
  pub admin_fail_ip : AttemptLimiter ℕ

pub record Inner (F : Type 0) : Type 0 where
  pub devices : Map Text Conn
  pub sessions : Map ℕ (Session F)
  pub in_session : Map Text ℕ
  pub lim : Limiters

pub record Metrics : Type 0 where
  pub relay_bytes : ℕ
  -- Written by the sampler beside the hub alone.
  pub relay_bps : ℕ
  pub sessions_total : ℕ
  pub connects_rejected : ℕ
  pub auth_failures : ℕ
  pub errors : ℕ

pub record Config : Type 0 where
  pub max_sessions : ℕ
  pub max_relay_mbps_per_session : ℕ

pub record Hub (F : Type 0) : Type 0 where
  pub cfg : Config
  pub metrics : Metrics
  pub next_conn : ℕ
  pub inner : Inner F
  pub open inner use *

pub record Ended : Type 0 where
  pub session : ℕ
  pub viewer : Text
  pub host : Text
  pub mode : Mode
  pub bytes : ℕ
  pub notify : List ℕ

pub record Started : Type 0 where
  pub session : ℕ
  pub host_tx : ℕ
  pub host_name : Text
  pub viewer_name : Text
  pub same_network : Bool
  pub host_candidates : List Text
  pub replaced : Option Ended

pub data ConnectFailure : Type 0 where
  offline not_accepting rate_limited banned busy invalid_id : ConnectFailure

-- `AtomicU64::fetch_add`
abbrev pub fetch_add : ℕ → ℕ → ℕ
fetch_add a b = (a + b) % 2 ^ 64

abbrev pub seconds : ℕ → ℕ
seconds n = n * 1_000_000_000

abbrev minutes : ℕ → ℕ
minutes n = seconds (n * 60)

abbrev pub new_limiters : Limiters
new_limiters = record {
  auth_fail_ip = Limiter.new 10 (minutes 5) (minutes 15);
  register_ip = Limiter.new 30 (minutes 60) (minutes 15);
  connect_src = Limiter.new 30 (minutes 1) (minutes 5);
  enumerate_ip = Limiter.new 15 (minutes 10) (minutes 30);
  pw_fail_viewer = Limiter.new 5 (minutes 10) (minutes 30);
  pw_fail_ip = Limiter.new 10 (minutes 10) (minutes 30);
  admin_fail_ip = Limiter.new 5 (minutes 5) (minutes 15);
}

abbrev pub is_some {ℓ} : {A : Type ℓ} → Option A → Bool
is_some none = false
is_some (some a) = true

abbrev pub mode_beq : Mode → Mode → Bool
mode_beq pending pending = true
mode_beq relayed relayed = true
mode_beq direct direct = true
mode_beq _ _ = false

-- The outboxes of those among `ids` that are online.
unfoldable pub outboxes : Map Text Conn → List Text → List ℕ
outboxes devices [] = []
outboxes devices (id ∷ ids) = elim (Map.lookup id devices) [
  | none ↦ outboxes devices ids
  | some c ↦ c.tx ∷ outboxes devices ids
]

abbrev pub one {ℓ} : {A : Type ℓ} → Option A → List A
one none = []
one (some a) = a ∷ []

unfoldable pub sweep_limiters : ℕ → Limiters → Limiters
sweep_limiters now l = record {
  auth_fail_ip = Limiter.sweep now l.auth_fail_ip;
  register_ip = Limiter.sweep now l.register_ip;
  connect_src = Limiter.sweep now l.connect_src;
  enumerate_ip = Limiter.sweep now l.enumerate_ip;
  pw_fail_viewer = Limiter.sweep now l.pw_fail_viewer;
  pw_fail_ip = Limiter.sweep now l.pw_fail_ip;
  admin_fail_ip = Limiter.sweep now l.admin_fail_ip;
}
