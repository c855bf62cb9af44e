-- ===== src/Security/Limiter.antt =====
-- crates/security/src/limiter.rs: failure counting with temporary lockout.
-- An `Instant` and a `Duration` are numbers of nanoseconds; `duration_since` stops at 0, as `-` does.
pub mod Bounds
pub mod Lockout
mod Tests
use remote_x.Prelude.{
  ℕ, ◌+◌, ◌-◌, ◌%◌, ◌^◌, Bool, true, false, List, [], ◌∷◌, ◌++◌, Option, none, some, ltb, leb,
  length, any, if◌then◌else◌,
}
use remote_x.Prelude.Lists
use remote_x.Prelude.Eq.{Eq}
use remote_x.Map
use remote_x.Map.{Map}

pub record Entry : Type 0 where
  pub failures : List ℕ
  pub locked_until : Option ℕ

pub record AttemptLimiter {ℓ} (K : Type ℓ) : Type ℓ where
  pub max_failures : ℕ
  pub window : ℕ
  pub lockout : ℕ
  pub state : Map K Entry

-- `now.duration_since(t) < window`
abbrev pub recent : ℕ → ℕ → ℕ → Bool
recent window now t = ltb (now - t) window

abbrev pub fresh_entry : Entry
fresh_entry = record { failures = []; locked_until = none }

-- `entry(key).or_insert(..)`
abbrev pub or_insert : Option Entry → Entry
or_insert none = fresh_entry
or_insert (some e) = e

-- The failures that count after one more at `now`.
unfoldable pub counted : ℕ → ℕ → Entry → List ℕ
counted window now e = Lists.retain (recent window now) e.failures ++ now ∷ []

-- `len() as u32 >= max_failures`
unfoldable pub reaches : ℕ → List ℕ → Bool
reaches max_failures fs = leb max_failures (length fs % 2 ^ 32)

-- What `sweep` keeps.
unfoldable pub is_live : ℕ → ℕ → Entry → Bool
is_live window now e = elim e.locked_until [
  | some t ↦ ltb now t
  | none ↦ any (recent window now) e.failures
]

module _ {ℓ} {K : Type ℓ} where
  unfoldable pub new : ℕ → ℕ → ℕ → AttemptLimiter K
  new max_failures window lockout = record {
    max_failures = max_failures;
    window = window;
    lockout = lockout;
    state = Map.empty;
  }

  unfoldable pub len : AttemptLimiter K → ℕ
  len l = Map.len l.state

  abbrev with_state : AttemptLimiter K → Map K Entry → AttemptLimiter K
  with_state l m = record l { state = m }

module _ {ℓ} {K : Type ℓ} ⦃eq : Eq K⦄ where
  locked_entry : K → ℕ → AttemptLimiter K → Option Entry → Option ℕ × AttemptLimiter K
  locked_entry key now l none = (none, l)
  locked_entry key now l (some e) = elim e.locked_until [
    | none ↦ (none, l)
    | some t ↦
        if ltb now t then (some (t - now), l) else (none, with_state l (Map.remove key l.state))
  ]

  -- The remaining lockout, and the limiter after an expired lockout is forgotten.
  unfoldable pub locked : K → ℕ → AttemptLimiter K → Option ℕ × AttemptLimiter K
  unfolding locked_entry
  locked key now l = locked_entry key now l (Map.lookup key l.state)

  record_on : K → ℕ → AttemptLimiter K → Entry → Bool × AttemptLimiter K
  record_on key now l e =
      let fs = counted l.window now e in
      if reaches l.max_failures fs
      then (
        true,
        with_state l (
            Map.insert key (record { failures = []; locked_until = some (now + l.lockout) })
              l.state),
      )
      else (false, with_state l (Map.insert key (record e { failures = fs }) l.state))

  -- True if this failure triggered a lockout.
  unfoldable pub record_failure : K → ℕ → AttemptLimiter K → Bool × AttemptLimiter K
  unfolding record_on
  record_failure key now l = record_on key now l (or_insert (Map.lookup key l.state))

  unfoldable pub record_success : K → AttemptLimiter K → AttemptLimiter K
  record_success key l = with_state l (Map.remove key l.state)

  unfoldable pub sweep : ℕ → AttemptLimiter K → AttemptLimiter K
  sweep now l = with_state l (Map.retain (λ _ e. is_live l.window now e) l.state)

-- What a client may ask of a limiter, each call with the time that the clock shows.
pub data Call {ℓ} (K : Type ℓ) : Type ℓ where
  asks fails : K → ℕ → Call K
  succeeds : K → Call K
  sweeps : ℕ → Call K

module _ {ℓ} {K : Type ℓ} ⦃eq : Eq K⦄ where
  unfoldable pub step : AttemptLimiter K → Call K → AttemptLimiter K
  step l (asks key now) = (locked key now l).1
  step l (fails key now) = (record_failure key now l).1
  step l (succeeds key) = record_success key l
  step l (sweeps now) = sweep now l

  unfoldable pub run : AttemptLimiter K → List (Call K) → AttemptLimiter K
  unfolding step
  run l [] = l
  run l (c ∷ cs) = run (step l c) cs
