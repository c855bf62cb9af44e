-- ===== src/Service/Broker/Authority.antt =====
-- Nothing reaches an agent but for the process that was found to hold its grant.
use remote_x.Prelude.{
  ℕ, ◌≡◌, refl, sym, subst, ◌⊎◌, Bool, true, false, List, [], ◌∷◌, ◌++◌, Option, none, some, arith,
  All, All-append, nat_beq, if◌then◌else◌, inl, inr, if_both, option_both, ap, ◌∙◌, not, ltb, ◌-◌,
}
use remote_x.Prelude.Eq.{nat_eq, ◌==◌}
use remote_x.Prelude.Result.{Result, ok, err, result_both}
use remote_x.Map
use remote_x.Map.Laws.{lookup-insert, lookup-remove}
use remote_x.Common.Text.{Text}
use remote_x.Service.Broker.{
  DenyReason, grant_lapse_ms, Grant, Effect, shutdown, inject_to, capture_from, ask_status,
  end_grant, sweep, grant_commit, current, revoke, owner_gone, heartbeat, inject, capture, status,
  with_current, Work, injects, captures, asks, beats, ends, finish, Broker, hold, found, Call,
  call_sweep, call_commit, call_revoke, call_owner_gone, call_heartbeat, call_inject, call_capture,
  call_status, call_finish, step,
}

-- What a call asks for, given the agent: the thread, the token and the process that it presents, and
-- the request.
unfoldable pub asks_for : Call → ℕ → Option (ℕ × ℕ × ℕ × Effect)
asks_for (call_inject thread token pid ev d) agent = some (thread, token, pid, inject_to agent ev d)
asks_for (call_capture thread token pid d w h) agent =
    some (thread, token, pid, capture_from agent d w h)
asks_for (call_status thread token pid) agent = some (thread, token, pid, ask_status agent)
asks_for c agent = none

-- A call that was made while a grant was open: it asks, in this thread, for this request of the agent
-- of that grant, and presents the token of the grant and the process that owns it.
unfoldable pub Admits : ℕ → Effect → Option Grant × Call → Type 0
Admits thread e (slot, c) =
    (g : Grant) × (slot ≡ some g) × (asks_for c g.agent ≡ some (thread, g.token, g.owner_pid, e))

unfoldable pub Once : (Option Grant × Call → Type 0) → List (Option Grant × Call) → Type 0
Once P [] = ⊥
Once P (x ∷ xs) = P x ⊎ Once P xs

-- What was done before, the newest first, each call with the grant that it found; the call; and a
-- request that it makes of an agent.
abbrev pub Event : Type 0
Event = List (Option Grant × Call) × Call × Effect

-- A request other than to stop is made by a thread that finishes a call which was admitted before.
unfoldable pub IsOwned : Event → Type 0
IsOwned (past, c, shutdown a) = Unit
IsOwned (past, c, e) =
    (thread : ℕ) × (now : ℕ) × (sent : Bool) × (c ≡ call_finish thread now sent)
    × Once (Admits thread e) past

abbrev pub tag : List (Option Grant × Call) → Call → List Effect → List Event
tag past c [] = []
tag past c (e ∷ es) = (past, c, e) ∷ tag past c es

-- Every request of a run, with what came before it.
unfoldable pub run : List Call → Broker → List (Option Grant × Call) → List Event
run [] b past = []
run (c ∷ cs) b past =
    let (b', es) = step c b in let rest = run cs b' ((b.slot, c) ∷ past) in tag past c es ++ rest

-- The work that a thread has left was admitted.
unfoldable Backed : List (Option Grant × Call) → ℕ → Work → Type 0
Backed past thread (injects g ev d) = Once (Admits thread (inject_to g.agent ev d)) past
Backed past thread (captures g d w h) = Once (Admits thread (capture_from g.agent d w h)) past
Backed past thread (asks g) = Once (Admits thread (ask_status g.agent)) past
Backed past thread (beats g) = Unit
Backed past thread ends = Unit

unfoldable AllBacked : List (Option Grant × Call) → Broker → Type 0
AllBacked past b =
    (thread : ℕ) (w : Work) → Map.lookup thread b.working ≡ some w → Backed past thread w

Backed-more :
    (x : Option Grant × Call) (past : List (Option Grant × Call)) (thread : ℕ) (w : Work)
    → Backed past thread w
    → Backed (x ∷ past) thread w
unfolding Backed Once
Backed-more x past thread (injects g ev d) h = inr h
Backed-more x past thread (captures g d w k) h = inr h
Backed-more x past thread (asks g) h = inr h
Backed-more x past thread (beats g) h = tt
Backed-more x past thread ends h = tt

committed-AllBacked :
    (past : List (Option Grant × Call)) (x : Option Grant × Call) (b b' : Broker)
    → b'.working ≡ b.working
    → AllBacked past b
    → AllBacked (x ∷ past) b'
unfolding AllBacked
committed-AllBacked past x b b' same h t w e =
    Backed-more x past t w (h t w (ap (Map.lookup t) (sym same) ∙ e))

-- What is put down for a thread: nothing, or work that is backed.
unfoldable AreBacked : List (Option Grant × Call) → ℕ → Option Work → Type 0
AreBacked past thread none = Unit
AreBacked past thread (some w) = Backed past thread w

hold-AllBacked :
    (past : List (Option Grant × Call)) (x : Option Grant × Call) (thread : ℕ) (o : Option Work)
    (b : Broker)
    → AllBacked past b
    → AreBacked (x ∷ past) thread o
    → AllBacked (x ∷ past) (hold thread o b)
unfolding AllBacked AreBacked hold
hold-AllBacked past x thread none b h k t w e = Backed-more x past t w (h t w e)
hold-AllBacked past x thread (some v) b h k t w e =
    let P : Option Work → Type 0 = λ o. o ≡ some w → Backed (x ∷ past) t w in
    subst P (sym (lookup-insert thread t v b.working))
      (if_both P (thread == t)
        (λ q e'.
          subst (λ n. Backed (x ∷ past) n w) (ground (arith, q, nat_eq.beq_iff thread t))
            (subst (Backed (x ∷ past) thread) (ground (arith, e')) k))
        (λ q e'. Backed-more x past t w (h t w e')))
      e

-- Where the token and the process fit the grant, the work is backed by the call that found it.
with_current-AreBacked :
    (past : List (Option Grant × Call)) (thread token pid : ℕ) (slot : Option Grant) (c : Call)
    (work : Grant → Work)
    → ((g : Grant)
        → slot ≡ some g
        → g.token ≡ token
        → g.owner_pid ≡ pid
        → Backed ((slot, c) ∷ past) thread (work g))
    → AreBacked ((slot, c) ∷ past) thread (found (with_current work token pid slot))
unfolding with_current current AreBacked
with_current-AreBacked past thread token pid none c work k = tt
with_current-AreBacked past thread token pid (some g) c work k =
    if_both
      (λ (r : Result Grant DenyReason).
        AreBacked ((some g, c) ∷ past) thread
          (found (elim r [ err why ↦ err why | ok g' ↦ ok (work g') ])))
      (if nat_beq g.token token then nat_beq g.owner_pid pid else false)
      (λ q. k g refl (ground (arith, q)) (ground (arith, q))) (λ q. tt)

sweep-AreBacked :
    (past : List (Option Grant × Call)) (thread now : ℕ) (alive : Bool) (slot : Option Grant)
    → AreBacked past thread (sweep now alive slot)
unfolding sweep AreBacked Backed
sweep-AreBacked past thread now alive none = tt
sweep-AreBacked past thread now alive (some g) =
    if_both (AreBacked past thread)
      (if ltb grant_lapse_ms (now - g.last_beat) then true else not alive) (λ q. tt) (λ q. tt)

owner_gone-AreBacked :
    (past : List (Option Grant × Call)) (thread pid : ℕ) (slot : Option Grant)
    → AreBacked past thread (owner_gone pid slot)
unfolding owner_gone AreBacked Backed
owner_gone-AreBacked past thread pid none = tt
owner_gone-AreBacked past thread pid (some g) =
    if_both (AreBacked past thread) (nat_beq g.owner_pid pid) (λ q. tt) (λ q. tt)

revoke-AreBacked :
    (past : List (Option Grant × Call)) (thread token pid : ℕ) (slot : Option Grant)
    → AreBacked past thread (revoke token pid slot)
unfolding revoke AreBacked Backed
revoke-AreBacked past thread token pid slot =
    result_both (AreBacked past thread) (current token pid slot) (λ g e. tt) (λ why e. tt)

finish-AllBacked :
    (past : List (Option Grant × Call)) (x : Option Grant × Call) (thread : ℕ) (b b' : Broker)
    → b'.working ≡ Map.remove thread b.working
    → AllBacked past b
    → AllBacked (x ∷ past) b'
unfolding AllBacked
finish-AllBacked past x thread b b' same h t w e =
    Backed-more x past t w
      (h t w (ground (arith, e, ap (Map.lookup t) same, lookup-remove thread t b.working)))

step-AllBacked :
    (c : Call) (b : Broker) (past : List (Option Grant × Call))
    → AllBacked past b
    → AllBacked ((b.slot, c) ∷ past) (step c b).0
unfolding step heartbeat inject capture status asks_for Once Admits Backed
step-AllBacked (call_sweep thread now alive) b past h =
    let x : Option Grant × Call = (b.slot, call_sweep thread now alive) in
    hold-AllBacked past x thread (sweep now alive b.slot) b h
      (sweep-AreBacked (x ∷ past) thread now alive b.slot)
step-AllBacked (call_commit pid label token now started) b past h =
    committed-AllBacked past (b.slot, call_commit pid label token now started) b _ refl h
step-AllBacked (call_revoke thread token pid) b past h =
    let x : Option Grant × Call = (b.slot, call_revoke thread token pid) in
    hold-AllBacked past x thread (revoke token pid b.slot) b h
      (revoke-AreBacked (x ∷ past) thread token pid b.slot)
step-AllBacked (call_owner_gone thread pid) b past h =
    let x : Option Grant × Call = (b.slot, call_owner_gone thread pid) in
    hold-AllBacked past x thread (owner_gone pid b.slot) b h
      (owner_gone-AreBacked (x ∷ past) thread pid b.slot)
step-AllBacked (call_heartbeat thread token pid) b past h =
    let c : Call = call_heartbeat thread token pid in
    hold-AllBacked past (b.slot, c) thread (found (heartbeat token pid b.slot)) b h
      (with_current-AreBacked past thread token pid b.slot c (λ g. beats g) (λ g s t o. tt))
step-AllBacked (call_inject thread token pid ev d) b past h =
    let c : Call = call_inject thread token pid ev d in
    hold-AllBacked past (b.slot, c) thread (found (inject token pid ev d b.slot)) b h
      (with_current-AreBacked past thread token pid b.slot c (λ g. injects g ev d)
        (λ g s t o. inl (g, s, ground (arith, t, o))))
step-AllBacked (call_capture thread token pid d w k) b past h =
    let c : Call = call_capture thread token pid d w k in
    hold-AllBacked past (b.slot, c) thread (found (capture token pid d w k b.slot)) b h
      (with_current-AreBacked past thread token pid b.slot c (λ g. captures g d w k)
        (λ g s t o. inl (g, s, ground (arith, t, o))))
step-AllBacked (call_status thread token pid) b past h =
    let c : Call = call_status thread token pid in
    hold-AllBacked past (b.slot, c) thread (found (status token pid b.slot)) b h
      (with_current-AreBacked past thread token pid b.slot c (λ g. asks g)
        (λ g s t o. inl (g, s, ground (arith, t, o))))
step-AllBacked (call_finish thread now sent) b past h =
    let x : Option Grant × Call = (b.slot, call_finish thread now sent) in
    option_both (λ (r : Broker × List Effect). AllBacked (x ∷ past) r.0)
      (Map.lookup thread b.working) (λ e. committed-AllBacked past x b b refl h)
      (λ w e. finish-AllBacked past x thread b _ refl h)

finish-IsOwned :
    (past : List (Option Grant × Call)) (thread now : ℕ) (sent : Bool) (w : Work)
    (slot : Option Grant)
    → Backed past thread w
    → All IsOwned (tag past (call_finish thread now sent) (finish w now sent slot).2)
unfolding Backed IsOwned finish end_grant
finish-IsOwned past thread now sent (injects g ev d) slot h = ((thread, now, sent, refl, h), tt)
finish-IsOwned past thread now sent (captures g d w k) slot h = ((thread, now, sent, refl, h), tt)
finish-IsOwned past thread now sent (asks g) slot h = ((thread, now, sent, refl, h), tt)
finish-IsOwned past thread now sent (beats g) slot h = tt
finish-IsOwned past thread now sent ends none h = tt
finish-IsOwned past thread now sent ends (some g) h = (tt, tt)

commit-IsOwned :
    (past : List (Option Grant × Call)) (c : Call) (serial pid : ℕ) (label : Text) (token now : ℕ)
    (started : Option ℕ) (slot : Option Grant)
    → All IsOwned (tag past c (grant_commit serial pid label token now started slot).2)
unfolding grant_commit IsOwned
commit-IsOwned past c serial pid label token now none slot = tt
commit-IsOwned past c serial pid label token now (some agent) none = tt
commit-IsOwned past c serial pid label token now (some agent) (some g) = (tt, tt)

step-IsOwned :
    (c : Call) (b : Broker) (past : List (Option Grant × Call))
    → AllBacked past b
    → All IsOwned (tag past c (step c b).1)
unfolding step AllBacked
step-IsOwned (call_commit pid label token now started) b past h =
    commit-IsOwned past (call_commit pid label token now started) b.next_serial pid label token now
      started b.slot
step-IsOwned (call_finish thread now sent) b past h =
    option_both
      (λ (r : Broker × List Effect). All IsOwned (tag past (call_finish thread now sent) r.1))
      (Map.lookup thread b.working) (λ e. tt)
      (λ w e. finish-IsOwned past thread now sent w b.slot (h thread w e))
step-IsOwned (call_sweep thread now alive) b past h = tt
step-IsOwned (call_revoke thread token pid) b past h = tt
step-IsOwned (call_owner_gone thread pid) b past h = tt
step-IsOwned (call_heartbeat thread token pid) b past h = tt
step-IsOwned (call_inject thread token pid ev d) b past h = tt
step-IsOwned (call_capture thread token pid d w k) b past h = tt
step-IsOwned (call_status thread token pid) b past h = tt

run-backed :
    (cs : List Call) (b : Broker) (past : List (Option Grant × Call))
    → AllBacked past b
    → All IsOwned (run cs b past)
unfolding run
run-backed [] b past h = tt
run-backed (c ∷ cs) b past h =
    All-append IsOwned (tag past c (step c b).1) _ (step-IsOwned c b past h)
      (run-backed cs (step c b).0 ((b.slot, c) ∷ past) (step-AllBacked c b past h))

-- In every run of the broker's lockings in which at first no thread has work left, whatever is
-- injected, captured or asked of an agent is the second half of a call of the same thread: that call
-- was made before, for just that request, while a grant was open whose agent this is, and it
-- presented the token of that grant and the process that owns it. The grant may be over by the time
-- of the request.
pub run-IsOwned :
    (cs : List Call) (slot : Option Grant) (serial : ℕ)
    → All IsOwned (run cs (record { slot = slot; working = []; next_serial = serial }) [])
unfolding AllBacked Map.lookup
run-IsOwned cs slot serial =
    run-backed cs (record { slot = slot; working = []; next_serial = serial }) [] (λ t w e. cc)
