-- ===== src/Service/Broker/Agents.antt =====
-- No agent is left behind: one that was started is the grant's or has been shut down.
use remote_x.Prelude.{
  ℕ, ◌+◌, ◌≡◌, Bool, List, [], ◌∷◌, ◌++◌, Option, none, some, arith, nat_beq, if◌then◌else◌, refl,
  option_both,
}
use remote_x.Prelude.Eq.{nat_eq}
use remote_x.Map
use remote_x.Common.Text.{Text}
use remote_x.Service.Broker.{
  Grant, Effect, shutdown, inject_to, capture_from, ask_status, end_grant, grant_commit, Work,
  injects, captures, asks, beats, ends, beat, finish, Broker, hold, Call, call_sweep, call_commit,
  call_revoke, call_owner_gone, call_heartbeat, call_inject, call_capture, call_status, call_finish,
  step,
}

abbrev pub one_if : Bool → ℕ
one_if b = if b then 1 else 0

-- How often an agent is started, is shut down, and is the grant's.
unfoldable pub started_by : ℕ → Call → ℕ
started_by a (call_commit pid label token now (some agent)) = one_if (nat_beq agent a)
started_by a c = 0

unfoldable pub shut_down : ℕ → List Effect → ℕ
shut_down a [] = 0
shut_down a (shutdown b ∷ es) = one_if (nat_beq b a) + shut_down a es
shut_down a (inject_to b ev d ∷ es) = shut_down a es
shut_down a (capture_from b d w h ∷ es) = shut_down a es
shut_down a (ask_status b ∷ es) = shut_down a es

unfoldable pub granted : ℕ → Option Grant → ℕ
granted a none = 0
granted a (some g) = one_if (nat_beq g.agent a)

unfoldable pub started : ℕ → List Call → ℕ
unfolding started_by
started a [] = 0
started a (c ∷ cs) = started_by a c + started a cs

unfoldable pub run_effects : List Call → Broker → Broker × List Effect
run_effects [] b = (b, [])
run_effects (c ∷ cs) b =
    let (b', es) = step c b in
    let (last_broker, rest) = run_effects cs b' in (last_broker, es ++ rest)

shut_down-append :
    (a : ℕ) (es fs : List Effect) → shut_down a (es ++ fs) ≡ shut_down a es + shut_down a fs
unfolding shut_down
shut_down-append a [] fs = omega arith
shut_down-append a (shutdown b ∷ es) fs = omega (arith, shut_down-append a es fs)
shut_down-append a (inject_to b ev d ∷ es) fs = shut_down-append a es fs
shut_down-append a (capture_from b d w h ∷ es) fs = shut_down-append a es fs
shut_down-append a (ask_status b ∷ es) fs = shut_down-append a es fs

finish-accounted :
    (a : ℕ) (w : Work) (now : ℕ) (sent : Bool) (slot : Option Grant)
    → shut_down a (finish w now sent slot).2 + granted a (finish w now sent slot).1 ≡ granted a slot
unfolding finish end_grant beat shut_down granted
finish-accounted a (injects g ev d) now sent slot = omega arith
finish-accounted a (captures g d w h) now sent slot = omega arith
finish-accounted a (asks g) now sent slot = omega arith
finish-accounted a (beats g) now sent none = ground arith
finish-accounted a (beats g) now sent (some h) = ground arith
finish-accounted a ends now sent none = ground arith
finish-accounted a ends now sent (some h) = ground arith

hold-slot : (thread : ℕ) (w : Option Work) (b : Broker) → (hold thread w b).slot ≡ b.slot
unfolding hold
hold-slot thread none b = refl
hold-slot thread (some w) b = refl

-- The locking that only looks at the grant.
hold-accounted :
    (a thread : ℕ) (w : Option Work) (b : Broker)
    → 0 + granted a (hold thread w b).slot ≡ 0 + granted a b.slot
hold-accounted a thread w b = rw (hold-slot thread w b) refl

commit-accounted :
    (a serial pid : ℕ) (label : Text) (token now agent : ℕ) (slot : Option Grant)
    → shut_down a (grant_commit serial pid label token now (some agent) slot).2
        + granted a (grant_commit serial pid label token now (some agent) slot).1
      ≡ one_if (nat_beq agent a) + granted a slot
unfolding grant_commit shut_down granted
commit-accounted a serial pid label token now agent none = omega arith
commit-accounted a serial pid label token now agent (some g) = omega arith

step-accounted :
    (a : ℕ) (c : Call) (b : Broker)
    → shut_down a (step c b).1 + granted a (step c b).0.slot ≡ started_by a c + granted a b.slot
unfolding step grant_commit started_by shut_down granted
step-accounted a (call_sweep thread now alive) b = hold-accounted a thread _ b
step-accounted a (call_commit pid label token now none) b = omega arith
step-accounted a (call_commit pid label token now (some agent)) b =
    commit-accounted a b.next_serial pid label token now agent b.slot
step-accounted a (call_revoke thread token pid) b = hold-accounted a thread _ b
step-accounted a (call_owner_gone thread pid) b = hold-accounted a thread _ b
step-accounted a (call_heartbeat thread token pid) b = hold-accounted a thread _ b
step-accounted a (call_inject thread token pid ev d) b = hold-accounted a thread _ b
step-accounted a (call_capture thread token pid d w h) b = hold-accounted a thread _ b
step-accounted a (call_status thread token pid) b = hold-accounted a thread _ b
step-accounted a (call_finish thread now sent) b =
    option_both
      (λ (r : Broker × List Effect). shut_down a r.1 + granted a r.0.slot ≡ 0 + granted a b.slot)
      (Map.lookup thread b.working) (λ e. omega arith)
      (λ w e. omega (arith, finish-accounted a w now sent b.slot))

-- Over any run of the broker's lockings, in which the two halves of a call may lie apart and two
-- callers may both have passed the first check of `grant`, an agent is shut down or ends up as the
-- open grant's exactly as often as it was started or was the grant's at the beginning: none runs on
-- without a grant, and none is shut down more often than it was started.
pub run_effects-accounted :
    (a : ℕ) (cs : List Call) (b : Broker)
    → shut_down a (run_effects cs b).1 + granted a (run_effects cs b).0.slot
      ≡ started a cs + granted a b.slot
unfolding run_effects started shut_down
run_effects-accounted a [] b = omega arith
run_effects-accounted a (c ∷ cs) b = omega (
  arith,
  shut_down-append a (step c b).1 (run_effects cs (step c b).0).1,
  step-accounted a c b,
  run_effects-accounted a cs (step c b).0,
)
