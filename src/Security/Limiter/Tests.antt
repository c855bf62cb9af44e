-- ===== src/Security/Limiter/Tests.antt =====
-- Runs of the limiter, and its theorems at concrete inputs.
use remote_x.Prelude.{ℕ, ◌≡◌, refl, true, false, none, some, [], ◌∷◌, arith}
use remote_x.Prelude.Eq.{nat_eq}
use remote_x.Map
use remote_x.Security.Limiter.{
  AttemptLimiter, Entry, asks, fails, succeeds, sweeps, run, locked, record_failure, new, sweep,
  step, counted, reaches, or_insert,
}
use remote_x.Security.Limiter.Bounds.{IsBounded, new-IsBounded, run-IsBounded}
use remote_x.Security.Limiter.Lockout.{
  recent_failures, locked-record_failure, sweep-invisible, stale_lock-forgets,
}

-- Three failures within 60, and a lockout of 300.
abbrev three : AttemptLimiter ℕ
three = new 3 60 300

abbrev twice_failed : AttemptLimiter ℕ
twice_failed = run three (fails 7 0 ∷ fails 7 1 ∷ [])

three-IsBounded : IsBounded three
three-IsBounded = new-IsBounded 3 60 300 (omega arith) (omega arith)

locks_after_threshold : (record_failure 7 2 twice_failed).0 ≡ true
unfolding record_failure run new counted reaches Map.lookup Map.insert Map.empty
locks_after_threshold = refl

old_failures_age_out : (record_failure 7 70 twice_failed).0 ≡ false
unfolding record_failure run new counted reaches Map.lookup Map.insert Map.empty
old_failures_age_out = refl

run-IsBounded_example : IsBounded (run three (fails 7 0 ∷ asks 7 9 ∷ sweeps 90 ∷ succeeds 8 ∷ []))
run-IsBounded_example =
    run-IsBounded three (fails 7 0 ∷ asks 7 9 ∷ sweeps 90 ∷ succeeds 8 ∷ []) three-IsBounded

locked-record_failure_example : (locked 7 202 (record_failure 7 2 twice_failed).1).0 ≡ some 100
unfolding run new step Map.empty record_failure reaches counted Map.lookup Map.insert
locked-record_failure_example = locked-record_failure 7 2 202 twice_failed locks_after_threshold

sweep-invisible_example :
    ((locked 7 30 (sweep 20 twice_failed)).0 ≡ (locked 7 30 twice_failed).0)
    × ((or_insert (Map.lookup 7 twice_failed.state)).locked_until ≡ none
        → recent_failures 7 30 (sweep 20 twice_failed) ≡ recent_failures 7 30 twice_failed)
sweep-invisible_example = sweep-invisible 7 20 30 twice_failed (omega arith)

-- Key 7 was locked until 300; nobody asked since.
abbrev stale : Entry
stale = record { failures = []; locked_until = some 300 }

abbrev stale_limiter : AttemptLimiter ℕ
stale_limiter = record three { state = (7, stale) ∷ [] }

stale_lock-forgets_example :
    recent_failures 7 302 (locked 7 302 (record_failure 7 301 stale_limiter).1).1 ≡ []
unfolding record_failure new counted reaches Map.lookup
stale_lock-forgets_example =
    stale_lock-forgets 7 301 302 300 stale_limiter stale refl refl (omega arith) (omega arith) refl
