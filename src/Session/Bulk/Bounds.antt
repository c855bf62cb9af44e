-- ===== src/Session/Bulk/Bounds.antt =====
-- crates/session/src/bulk.rs: the range of the cap and how fast it moves.
use remote_x.Prelude.{ℕ, ◌+◌, ◌*◌, ◌/◌, ◌≤◌, max, List, [], ◌∷◌, if_both, arith}
use remote_x.Float.{Float}
use remote_x.Session.Bulk.{
  min_rate, max_rate, BulkGovernor, clamp, new, part, next_rate, floor_of, update, run,
}

module _ (single double : Float) where
  unfoldable pub InRange : BulkGovernor single.F → Type 0
  InRange g = (min_rate ≤ g.rate) × (g.rate ≤ max_rate)

  clamped : (n : ℕ) → (min_rate ≤ clamp n) × (clamp n ≤ max_rate)
  clamped n = (omega arith, omega arith)

  run-InRange :
      (samples : List single.F) (g : BulkGovernor single.F)
      → InRange g
      → InRange (run single double samples g)
  unfolding run update InRange
  run-InRange [] g h = h
  run-InRange (rtt ∷ samples) g h = run-InRange samples (update single double rtt g) (
      clamped (
        next_rate single double
          (single.fmax (single.sub rtt (floor_of single double rtt g.floor_ms)) (single.lit 0 0))
          g.rate))

  next_rate-le :
      ((n : ℕ) → part single double n (double.lit 5 1) ≤ n)
      → ((n : ℕ) → part single double n (double.lit 8 1) ≤ n)
      → (delay : single.F) (rate : ℕ)
      → next_rate single double delay rate ≤ rate + max (rate / 8) (16 * 1024)
  unfolding next_rate
  next_rate-le half most delay rate =
      let P : ℕ → Type 0 = λ n. n ≤ rate + max (rate / 8) (16 * 1024) in
      if_both P (single.lt (single.lit 60 0) delay) (λ e. omega (arith, half rate))
        (λ e.
          if_both P (single.lt (single.lit 25 0) delay) (λ e'. omega (arith, most rate))
            (λ e'.
              if_both P (single.lt (single.div (single.lit 25 0) (single.lit 2 0)) delay)
                (λ x. omega arith) (λ x. omega arith)))

  -- After any round-trip times the cap lies between its two limits, and one time more raises it by
  -- an eighth or by 16 kilobytes at most, whichever is more.
  pub run-new-InRange :
      ((n : ℕ) → part single double n (double.lit 5 1) ≤ n)
      → ((n : ℕ) → part single double n (double.lit 8 1) ≤ n)
      → (samples : List single.F) (rtt : single.F)
      → let g = run single double samples (new single double) in
        InRange g × ((update single double rtt g).rate ≤ g.rate + max (g.rate / 8) (16 * 1024))
  unfolding InRange new update
  run-new-InRange half most samples rtt =
      let g : BulkGovernor single.F = run single double samples (new single double) in
      let h : InRange g = run-InRange samples (new single double) (omega arith, omega arith) in
      (
        h,
        omega (
          arith,
          h.0,
          next_rate-le half most
              (single.fmax (single.sub rtt (floor_of single double rtt g.floor_ms))
                (single.lit 0 0))
              g.rate,
        ),
      )
