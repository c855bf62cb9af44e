-- ===== src/Service/Broker.antt =====
-- crates/service/src/broker.rs: who may have elevated control, and when it ends. The process image,
-- the console session, the start of an agent, the random token, the agent's liveness and whether a
-- pipe takes a message are arguments. A call that locks the slot twice is two steps. An instant is a number of milliseconds.
pub mod Authority
pub mod Agents
mod Tests
use remote_x.Prelude.{
  ℕ, ◌+◌, ◌-◌, ◌*◌, Bool, true, false, not, List, [], ◌∷◌, ◌++◌, Option, none, some, ltb, leb,
  nat_beq, if◌then◌else◌, take, any,
}
use remote_x.Prelude.Result.{Result, ok, err}
use remote_x.Prelude.Eq.{nat_eq}
use remote_x.Map
use remote_x.Map.{Map}
use remote_x.Common.Text.{Text, codes}
use remote_x.Common.Event.{InputEvent, DisplayInfo}

pub data DenyReason : Type 0 where
  not_authorized no_active_session agent_unavailable already_granted not_granted : DenyReason

-- An agent is named by a number. A token is sixteen bytes, as one number.
pub record Grant : Type 0 where
  pub token : ℕ
  pub owner_pid : ℕ
  pub label : Text
  pub last_beat : ℕ
  pub agent : ℕ
  -- Which allocation it is: a thread can hold on to a grant that is over.
  pub serial : ℕ

pub record BrokerConfig : Type 0 where
  pub exe : Text
  pub allowed_ui : List Text
  pub enforce_console_session : Bool
  pub require_protected_install : Bool

-- What the broker asks of an agent.
pub data Effect : Type 0 where
  shutdown : ℕ → Effect
  inject_to : ℕ → InputEvent → DisplayInfo → Effect
  capture_from : ℕ → DisplayInfo → ℕ → ℕ → Effect
  ask_status : ℕ → Effect

abbrev pub grant_lapse_ms : ℕ
grant_lapse_ms = 10 * 1000

abbrev pub lower : ℕ → ℕ
lower c = if (if leb b'A' c then leb c b'Z' else false) then c + 32 else c

-- `eq_ignore_ascii_case`
unfoldable pub same_path : Text → Text → Bool
same_path [] [] = true
same_path [] (d ∷ t) = false
same_path (c ∷ s) [] = false
same_path (c ∷ s) (d ∷ t) = if nat_beq (lower c) (lower d) then same_path s t else false

-- `active` is `none` where there is no console session.
unfoldable pub caller_allowed : BrokerConfig → Option Text → ℕ → Option ℕ → Bool
unfolding same_path
caller_allowed cfg image session active = elim image [
  | none ↦ false
  | some path ↦
      if not (any (λ p. same_path p path) cfg.allowed_ui)
      then false
      else if cfg.enforce_console_session
      then (elim active [ none ↦ false | some a ↦ nat_beq a session ])
      else true
]

-- What the operating system tells of paths: the directory of a file, a name in lower case, and the
-- variables of the environment.
pub record Os : Type 0 where
  pub parent : Text → Option Text
  pub lowercase : Text → Text
  pub var : Text → Option Text

unfoldable pub is_prefix : Text → Text → Bool
is_prefix [] s = true
is_prefix (c ∷ p) [] = false
is_prefix (c ∷ p) (d ∷ s) = if nat_beq c d then is_prefix p s else false

unfoldable pub install_is_protected : Os → BrokerConfig → Bool
unfolding is_prefix
install_is_protected os cfg =
    if not cfg.require_protected_install
    then true
    else (let dir : Text = elim (os.parent cfg.exe) [ none ↦ [] | some p ↦ os.lowercase p ] in
        any (λ v. elim (os.var v) [ none ↦ false | some pf ↦ is_prefix (os.lowercase pf) dir ])
          (codes "programfiles" ∷ codes "programfiles(x86)" ∷ codes "programw6432" ∷ []))

unfoldable pub end_grant : Option Grant → Option Grant × List Effect
end_grant none = (none, [])
end_grant (some g) = (none, shutdown g.agent ∷ [])

-- What a thread has still to do when it has let go of the lock: an operation on the grant that it has
-- found, or the end of whatever grant is open by then.
pub data Work : Type 0 where
  injects : Grant → InputEvent → DisplayInfo → Work
  captures : Grant → DisplayInfo → ℕ → ℕ → Work
  asks : Grant → Work
  beats : Grant → Work
  ends : Work

-- The watchdog looks at the grant; where it finds it dead, the end comes with the next locking.
unfoldable pub sweep : ℕ → Bool → Option Grant → Option Work
sweep now alive none = none
sweep now alive (some g) =
    if (if ltb grant_lapse_ms (now - g.last_beat) then true else not alive) then some ends else none

-- `grant` up to the start of the agent, and from there on: another caller may come in between.
unfoldable pub grant_check : Os → BrokerConfig → Option Grant → Result Bool DenyReason
unfolding install_is_protected
grant_check os cfg slot =
    if not (install_is_protected os cfg)
    then err not_authorized
    else (elim slot [ none ↦ ok true | some g ↦ err already_granted ])

unfoldable pub grant_commit :
    ℕ
    → ℕ
    → Text
    → ℕ
    → ℕ
    → Option ℕ
    → Option Grant
    → Result ℕ DenyReason × Option Grant × List Effect
grant_commit serial pid label token now none slot = (err agent_unavailable, slot, [])
grant_commit serial pid label token now (some agent) (some g) =
    (err already_granted, some g, shutdown agent ∷ [])
grant_commit serial pid label token now (some agent) none = (
  ok token,
  some (record {
    token = token;
    owner_pid = pid;
    label = take 64 label;
    last_beat = now;
    agent = agent;
    serial = serial;
  }),
  [],
)

unfoldable pub current : ℕ → ℕ → Option Grant → Result Grant DenyReason
current token pid none = err not_granted
current token pid (some g) =
    if (if nat_beq g.token token then nat_beq g.owner_pid pid else false)
    then ok g
    else err not_authorized

unfoldable pub attach : ℕ → ℕ → Option Grant → Option DenyReason
unfolding current
attach token pid slot = elim (current token pid slot) [ err why ↦ some why | ok g ↦ none ]

-- The calls up to where they let go of the lock: the grant that the token names, and the work that is
-- left to do with it.
unfoldable pub revoke : ℕ → ℕ → Option Grant → Option Work
unfolding current
revoke token pid slot = elim (current token pid slot) [ err why ↦ none | ok g ↦ some ends ]

unfoldable pub owner_gone : ℕ → Option Grant → Option Work
owner_gone pid none = none
owner_gone pid (some g) = if nat_beq g.owner_pid pid then some ends else none

unfoldable pub with_current : (Grant → Work) → ℕ → ℕ → Option Grant → Result Work DenyReason
unfolding current
with_current work token pid slot = elim (current token pid slot) [
  | err why ↦ err why
  | ok g ↦ ok (work g)
]

unfoldable pub heartbeat : ℕ → ℕ → Option Grant → Result Work DenyReason
unfolding with_current
heartbeat token pid slot = with_current (λ g. beats g) token pid slot

unfoldable pub inject : ℕ → ℕ → InputEvent → DisplayInfo → Option Grant → Result Work DenyReason
unfolding with_current
inject token pid ev d slot = with_current (λ g. injects g ev d) token pid slot

unfoldable pub capture : ℕ → ℕ → DisplayInfo → ℕ → ℕ → Option Grant → Result Work DenyReason
unfolding with_current
capture token pid d w h slot = with_current (λ g. captures g d w h) token pid slot

unfoldable pub status : ℕ → ℕ → Option Grant → Result Work DenyReason
unfolding with_current
status token pid slot = with_current (λ g. asks g) token pid slot

-- The beat is noted in the grant that was found, which may be over by then.
unfoldable pub beat : Grant → ℕ → Option Grant → Option Grant
beat g now none = none
beat g now (some h) =
    if nat_beq h.serial g.serial then some (record h { last_beat = now }) else some h

-- The rest of a call. `sent` is whether the pipe took the message (and, where there is an answer, gave
-- a fitting one).
unfoldable pub answer : Bool → Option DenyReason
answer sent = if sent then none else some agent_unavailable

unfoldable pub finish :
    Work → ℕ → Bool → Option Grant → Option DenyReason × Option Grant × List Effect
unfolding end_grant beat answer
finish (injects g ev d) now sent slot = (answer sent, slot, inject_to g.agent ev d ∷ [])
finish (captures g d w h) now sent slot = (answer sent, slot, capture_from g.agent d w h ∷ [])
finish (asks g) now sent slot = (answer sent, slot, ask_status g.agent ∷ [])
finish (beats g) now sent slot = (none, beat g now slot, [])
finish ends now sent slot = let (slot', effects) = end_grant slot in (none, slot', effects)

-- The broker and its threads: the slot, what each thread that has let go of the lock has still to do,
-- and the number of the next allocation.
pub record Broker : Type 0 where
  pub slot : Option Grant
  pub working : Map ℕ Work
  pub next_serial : ℕ

-- Every locking of the slot, by a thread that is named by a number. Between the two lockings of one
-- call others may come.
pub data Call : Type 0 where
  call_sweep : ℕ → ℕ → Bool → Call
  call_commit : ℕ → Text → ℕ → ℕ → Option ℕ → Call
  call_revoke : ℕ → ℕ → ℕ → Call
  call_owner_gone : ℕ → ℕ → Call
  call_heartbeat : ℕ → ℕ → ℕ → Call
  call_inject : ℕ → ℕ → ℕ → InputEvent → DisplayInfo → Call
  call_capture : ℕ → ℕ → ℕ → DisplayInfo → ℕ → ℕ → Call
  call_status : ℕ → ℕ → ℕ → Call
  call_finish : ℕ → ℕ → Bool → Call

unfoldable pub hold : ℕ → Option Work → Broker → Broker
hold thread none b = b
hold thread (some w) b = record b { working = Map.insert thread w b.working }

abbrev pub found : Result Work DenyReason → Option Work
found (err why) = none
found (ok w) = some w

unfoldable pub step : Call → Broker → Broker × List Effect
unfolding sweep grant_commit revoke owner_gone heartbeat inject capture status finish hold
step (call_sweep thread now alive) b = (hold thread (sweep now alive b.slot) b, [])
step (call_commit pid label token now started) b =
    let (r, slot, effects) = grant_commit b.next_serial pid label token now started b.slot in
    (record b { slot = slot; next_serial = b.next_serial + 1 }, effects)
step (call_revoke thread token pid) b = (hold thread (revoke token pid b.slot) b, [])
step (call_owner_gone thread pid) b = (hold thread (owner_gone pid b.slot) b, [])
step (call_heartbeat thread token pid) b = (hold thread (found (heartbeat token pid b.slot)) b, [])
step (call_inject thread token pid ev d) b =
    (hold thread (found (inject token pid ev d b.slot)) b, [])
step (call_capture thread token pid d w h) b =
    (hold thread (found (capture token pid d w h b.slot)) b, [])
step (call_status thread token pid) b = (hold thread (found (status token pid b.slot)) b, [])
step (call_finish thread now sent) b =
    elim (Map.lookup thread b.working) as (λ x. Broker × List Effect) [
      | none ↦ (b, [])
      | some w ↦
          let (r, slot, effects) = finish w now sent b.slot in
          (record b { slot = slot; working = Map.remove thread b.working }, effects)
    ]
