-- ===== src/Security/Limiter/Lockout.antt =====
-- When a key is locked out, and for how long.
use remote_x.Prelude.{
  ℕ, ◌+◌, ◌-◌, ◌≤◌, ◌≡◌, ◌≢◌, refl, true, false, none, some, List, [], ◌∷◌, arith, length,
  length-append, length-retain-le, ltb, leb, any, if◌then◌else◌,
}
use remote_x.Prelude.Lists
use remote_x.Prelude.Eq.{Eq, beq_refl, beq_ne}
use remote_x.Map
use remote_x.Map.Laws.{lookup-insert, lookup-remove, lookup-retain}
use remote_x.Security.Limiter.{
  Entry, AttemptLimiter, counted, reaches, recent, is_live, locked, record_failure, record_success,
  sweep, or_insert,
}
use remote_x.Security.Limiter.Bounds.{IsBounded, or_insert-small}

-- The failures of a key that fall within the window before `now`.
abbrev pub recent_failures {ℓ} : {K : Type ℓ} ⦃eq : Eq K⦄ → K → ℕ → AttemptLimiter K → List ℕ
recent_failures key now l =
    Lists.retain (recent l.window now) (or_insert (Map.lookup key l.state)).failures

module _ {ℓ} {K : Type ℓ} ⦃eq : Eq K⦄ where
  -- A failure that triggers a lockout locks its key for exactly `lockout` from then on: any later
  -- question is answered with the time that remains, and with nothing once the time is over.
  pub locked-record_failure :
      (key : K) (now later : ℕ) (l : AttemptLimiter K)
      → (record_failure key now l).0 ≡ true
      → (locked key later (record_failure key now l).1).0
        ≡ (if ltb later (now + l.lockout) then some (now + l.lockout - later) else none)
  unfolding record_failure locked
  locked-record_failure key now later l h = ground (
    arith,
    beq_refl key,
    lookup-insert key key (record { failures = []; locked_until = some (now + l.lockout) }) l.state,
  )

  -- In a bounded limiter a failure triggers a lockout exactly when, with it, the failures of its key
  -- within the window reach the threshold.
  pub record_failure-threshold :
      (key : K) (now : ℕ) (l : AttemptLimiter K)
      → IsBounded l
      → (record_failure key now l).0 ≡ leb l.max_failures (length (recent_failures key now l) + 1)
  unfolding record_failure reaches counted
  record_failure-threshold key now l v = ground (
    arith,
    v.is_u32,
    or_insert-small key l v,
    length-retain-le (recent l.window now) (or_insert (Map.lookup key l.state)).failures,
    length-append (recent_failures key now l) (now ∷ []),
  )

  -- Calls about one key change no answer about another.
  pub locked-other :
      (key other : K) (now later : ℕ) (l : AttemptLimiter K)
      → key ≢ other
      → ((locked other later (record_failure key now l).1).0 ≡ (locked other later l).0)
        × ((locked other later (record_success key l)).0 ≡ (locked other later l).0)
        × ((locked other later (locked key now l).1).0 ≡ (locked other later l).0)
  unfolding record_failure record_success locked
  locked-other key other now later l ne = (
    ground (
      arith,
      beq_ne key other ne,
      lookup-insert key other
          (record (or_insert (Map.lookup key l.state)) {
            failures = counted l.window now (or_insert (Map.lookup key l.state));
          })
          l.state,
      lookup-insert key other (record { failures = []; locked_until = some (now + l.lockout) })
          l.state,
    ),
    ground (arith, beq_ne key other ne, lookup-remove key other l.state),
    ground (arith, beq_ne key other ne, lookup-remove key other l.state),
  )

  -- A success forgets the key: it is not locked, and its next failure is counted as its first.
  pub record_success-forgets :
      (key : K) (later : ℕ) (l : AttemptLimiter K)
      → ((locked key later (record_success key l)).0 ≡ none)
        × (recent_failures key later (record_success key l) ≡ [])
  unfolding record_success locked
  record_success-forgets key later l = (
    ground (arith, beq_refl key, lookup-remove key key l.state),
    ground (arith, beq_refl key, lookup-remove key key l.state),
  )

retain-stale :
    (w now later : ℕ) (fs : List ℕ)
    → now ≤ later
    → any (recent w now) fs ≡ false
    → Lists.retain (recent w later) fs ≡ []
retain-stale w now later [] h e = refl
retain-stale w now later (f ∷ fs) h e = ground (arith, retain-stale w now later fs h)

module _ {ℓ} {K : Type ℓ} ⦃eq : Eq K⦄ where
  -- A sweep is not noticed: afterwards every key gets the answer that it would have got, and a key
  -- that no lockout was recorded for has the failures within the window that it had.
  pub sweep-invisible :
      (key : K) (now later : ℕ) (l : AttemptLimiter K)
      → now ≤ later
      → ((locked key later (sweep now l)).0 ≡ (locked key later l).0)
        × ((or_insert (Map.lookup key l.state)).locked_until ≡ none
            → recent_failures key later (sweep now l) ≡ recent_failures key later l)
  unfolding sweep locked is_live
  sweep-invisible key now later l h = (
    ground (arith, lookup-retain (λ _ e. is_live l.window now e) key l.state),
    λ n. ground (
      arith,
      lookup-retain (λ _ e. is_live l.window now e) key l.state,
      retain-stale l.window now later (or_insert (Map.lookup key l.state)).failures h,
    ),
  )

  -- Failures counted after a lockout has run out, and before anybody asks, are lost: the next
  -- question drops the entry with them.
  pub stale_lock-forgets :
      (key : K) (now later t : ℕ) (l : AttemptLimiter K) (e : Entry)
      → Map.lookup key l.state ≡ some e
      → e.locked_until ≡ some t
      → t ≤ now
      → now ≤ later
      → (record_failure key now l).0 ≡ false
      → recent_failures key later (locked key later (record_failure key now l).1).1 ≡ []
  unfolding record_failure locked
  stale_lock-forgets key now later t l e found lock expired after quiet = ground (
    arith,
    beq_refl key,
    lookup-insert key key (record e { failures = counted l.window now e }) l.state,
    lookup-remove key key (Map.insert key (record e { failures = counted l.window now e }) l.state),
  )
