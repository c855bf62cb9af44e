-- ===== src/Security/Limiter/Bounds.antt =====
-- What the limiter stores for a key.
use remote_x.Prelude.{
  ℕ, ◌+◌, ◌^◌, ◌≤◌, ◌<◌, ◌≡◌, false, some, List, [], ◌∷◌, arith, length, length-append,
  length-retain-le, Option-cases, inl, inr,
}
use remote_x.Prelude.Lists
use remote_x.Prelude.Eq.{Eq}
use remote_x.Map
use remote_x.Map.Laws.{lookup-insert, lookup-remove, lookup-retain, lookup-empty}
use remote_x.Security.Limiter.{
  Entry, AttemptLimiter, counted, reaches, recent, is_live, new, locked, record_failure,
  record_success, sweep, Call, asks, fails, succeeds, sweeps, step, run, or_insert, record_on,
}

-- An entry holds fewer failures than would lock its key.
pub record IsBounded {ℓ} {K : Type ℓ} ⦃eq : Eq K⦄ (l : AttemptLimiter K) : Type ℓ where
  pub positive : 0 < l.max_failures
  pub is_u32 : l.max_failures < 2 ^ 32
  pub below :
      (k : K) (e : Entry) → Map.lookup k l.state ≡ some e → length e.failures < l.max_failures

length-counted : (w now : ℕ) (e : Entry) → length (counted w now e) ≤ length e.failures + 1
unfolding counted
length-counted w now e = omega (
  arith,
  length-append (Lists.retain (recent w now) e.failures) (now ∷ []),
  length-retain-le (recent w now) e.failures,
)

counted-lt :
    (m : ℕ) (fs : List ℕ) → m < 2 ^ 32 → length fs ≤ m → reaches m fs ≡ false → length fs < m
unfolding reaches
counted-lt m fs u h r = ground arith

module _ {ℓ} {K : Type ℓ} ⦃eq : Eq K⦄ where
  pub new-IsBounded :
      (m window lockout : ℕ) → 0 < m → m < 2 ^ 32 → IsBounded (new {K = K} m window lockout)
  unfolding new
  new-IsBounded m window lockout p u = record {
    positive = p;
    is_u32 = u;
    below = λ k e h. cc (lookup-empty {V = Entry} k);
  }

  record_on-IsBounded :
      (key : K) (now : ℕ) (l : AttemptLimiter K) (e : Entry)
      → length e.failures < l.max_failures
      → IsBounded l
      → IsBounded (record_on key now l e).1
  unfolding record_on
  record_on-IsBounded key now l e small v = record {
    positive = ground (arith, v.positive);
    is_u32 = ground (arith, v.is_u32);
    below = λ k x h. ground (
      arith,
      v.positive,
      v.is_u32,
      v.below k x,
      length-counted l.window now e,
      counted-lt l.max_failures (counted l.window now e),
      lookup-insert key k (record e { failures = counted l.window now e }) l.state,
      lookup-insert key k (record { failures = []; locked_until = some (now + l.lockout) }) l.state,
    );
  }

  pub or_insert-small :
      (key : K) (l : AttemptLimiter K)
      → IsBounded l
      → length (or_insert (Map.lookup key l.state)).failures < l.max_failures
  or_insert-small key l v = elim (Option-cases (Map.lookup key l.state)) [
    | inl e ↦ rw e v.positive
    | inr (a, e) ↦ rw e (v.below key a e)
  ]

  pub record_failure-IsBounded :
      (key : K) (now : ℕ) (l : AttemptLimiter K)
      → IsBounded l
      → IsBounded (record_failure key now l).1
  unfolding record_failure
  record_failure-IsBounded key now l v =
      record_on-IsBounded key now l (or_insert (Map.lookup key l.state)) (or_insert-small key l v) v

  pub record_success-IsBounded :
      (key : K) (l : AttemptLimiter K) → IsBounded l → IsBounded (record_success key l)
  unfolding record_success
  record_success-IsBounded key l v = record {
    positive = v.positive;
    is_u32 = v.is_u32;
    below = λ k x h. ground (arith, v.below k x, lookup-remove key k l.state);
  }

  pub locked-IsBounded :
      (key : K) (now : ℕ) (l : AttemptLimiter K) → IsBounded l → IsBounded (locked key now l).1
  unfolding locked
  locked-IsBounded key now l v = record {
    positive = ground (arith, v.positive);
    is_u32 = ground (arith, v.is_u32);
    below = λ k x h. ground (arith, v.below k x, lookup-remove key k l.state);
  }

  pub sweep-IsBounded : (now : ℕ) (l : AttemptLimiter K) → IsBounded l → IsBounded (sweep now l)
  unfolding sweep
  sweep-IsBounded now l v = record {
    positive = v.positive;
    is_u32 = v.is_u32;
    below = λ k x h.
        ground (arith, v.below k x, lookup-retain (λ _ e. is_live l.window now e) k l.state);
  }

  step-IsBounded : (l : AttemptLimiter K) (c : Call K) → IsBounded l → IsBounded (step l c)
  unfolding step
  step-IsBounded l (asks key now) v = locked-IsBounded key now l v
  step-IsBounded l (fails key now) v = record_failure-IsBounded key now l v
  step-IsBounded l (succeeds key) v = record_success-IsBounded key l v
  step-IsBounded l (sweeps now) v = sweep-IsBounded now l v

  -- After any calls on a limiter that is bounded, each key's entry still holds fewer failures than
  -- the threshold, so the memory spent on a key is bounded and the 32-bit count never wraps.
  pub run-IsBounded :
      (l : AttemptLimiter K) (cs : List (Call K)) → IsBounded l → IsBounded (run l cs)
  unfolding run
  run-IsBounded l [] v = v
  run-IsBounded l (c ∷ cs) v = run-IsBounded (step l c) cs (step-IsBounded l c v)
