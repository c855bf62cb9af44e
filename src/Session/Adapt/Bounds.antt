-- ===== src/Session/Adapt/Bounds.antt =====
-- crates/session/src/adapt.rs: the range of the controller's state and of what it asks for.
use remote_x.Prelude.{
  ℕ, ◌+◌, ◌-◌, ◌*◌, ◌%◌, ◌^◌, ◌≤◌, ◌<◌, ◌≡◌, ◌&&◌, not, List, [], ◌∷◌, Option, ltb, leb, if_both,
  length, arith,
}
use remote_x.Float.{Float}
use remote_x.Session.Adapt.{
  Target, fps_steps, scale_steps, at, Sample, Adapter, target, auto_bitrate, auto_fps, auto_scale,
  differs, S, scale_cap, max_bitrate_for_scale, lowered, raised, degrade, improve, baseline,
  base_of, congested, clean, adjusted, update, run,
}

-- What the controller relies on of floating-point numbers: three quarters of a number, cut off,
-- are not more than it, 23 twentieths are not less, and a maximum with a 32-bit number is not less
-- than that number.
pub record FloatLaws (double : Float) : Type 0 where
  pub lowered_le : (n : ℕ) → double.to_u32 (double.mul (double.of_ℕ n) (double.lit 75 2)) ≤ n
  pub raised_ge :
      (n : ℕ) → n < 2 ^ 32 → n ≤ double.to_u32 (double.mul (double.of_ℕ n) (double.lit 115 2))
  pub at_least :
      (x : double.F) (n : ℕ) → n < 2 ^ 32 → n ≤ double.to_u32 (double.fmax x (double.of_ℕ n))

module _ (lo hi : ℕ) {F : Type 0} where
  -- The indices of the steps are in range, and the bitrate is between its two limits.
  unfoldable pub InRange : Adapter F → Type 0
  InRange a =
      (a.fps_idx < 3)
      × (a.scale_idx < 4)
      × (a.min_bitrate ≡ lo)
      × (a.max_bitrate ≡ hi)
      × (lo ≤ a.bitrate)
      × (a.bitrate ≤ hi)

-- What may be asked for.
unfoldable pub Within : ℕ → ℕ → Target → Type 0
Within lo hi t =
    (15 ≤ t.fps)
    × (t.fps ≤ 60)
    × (33 ≤ t.scale_percent)
    × (t.scale_percent ≤ 100)
    × (lo ≤ t.bitrate_kbps)
    × (t.bitrate_kbps ≤ hi)

module _ (single double : Float) (laws : FloatLaws double) (lo hi : ℕ) (ordered : lo ≤ hi)
    (small : hi < 2 ^ 32) where
  scale_cap_ge :
      (a : Adapter (S single double))
      → a.min_bitrate < 2 ^ 32
      → a.min_bitrate ≤ scale_cap single double a
  unfolding scale_cap
  scale_cap_ge a h =
      let f : double.F = double.div (double.of_ℕ (at scale_steps a.scale_idx)) (double.lit 100 0) in
      laws.at_least (double.mul (double.mul (double.of_ℕ a.max_bitrate) f) f) a.min_bitrate h

  lowered_le : (n : ℕ) → lowered single double n ≤ n
  unfolding lowered
  lowered_le n = laws.lowered_le n

  raised_ge : (n : ℕ) → n < 2 ^ 32 → n ≤ raised single double n
  unfolding raised
  raised_ge n = laws.raised_ge n

  max_bitrate_for_scale-InRange :
      (a : Adapter (S single double))
      → InRange lo hi a
      → InRange lo hi (max_bitrate_for_scale single double a)
  unfolding InRange max_bitrate_for_scale
  max_bitrate_for_scale-InRange a h =
      let room : a.min_bitrate ≤ scale_cap single double a =
        scale_cap_ge a (omega (arith, h.2, ordered, small)) in
      (h.0, h.1, h.2, h.3, omega (arith, h.2, h.4, room), omega (arith, h.5))

  degrade-InRange :
      (a : Adapter (S single double)) → InRange lo hi a → InRange lo hi (degrade single double a)
  unfolding degrade InRange
  degrade-InRange a h =
      if_both (InRange lo hi) (auto_bitrate a && ltb a.min_bitrate a.bitrate)
        (λ e. (
          h.0,
          h.1,
          h.2,
          h.3,
          omega (arith, h.2),
          omega (arith, h.2, h.5, ordered, lowered_le a.bitrate),
        ))
        (λ e.
          if_both (InRange lo hi) (auto_fps a && ltb (a.fps_idx + 1) (length fps_steps))
            (λ e'. (
              ground (arith, e'),
              h.1,
              h.2,
              h.3,
              omega (arith, h.4),
              omega (arith, h.2, h.5, ordered),
            ))
            (λ e'.
              if_both (InRange lo hi) (auto_scale a && ltb (a.scale_idx + 1) (length scale_steps))
                (λ e''.
                  max_bitrate_for_scale-InRange (record a { scale_idx = a.scale_idx + 1 })
                    (h.0, ground (arith, e''), h.2, h.3, h.4, h.5))
                (λ e''. h)))

  improve-InRange :
      (a : Adapter (S single double)) → InRange lo hi a → InRange lo hi (improve single double a)
  unfolding improve InRange
  improve-InRange a h =
      if_both (InRange lo hi) (ltb 0 a.scale_idx && auto_scale a)
        (λ e.
          max_bitrate_for_scale-InRange (record a { scale_idx = a.scale_idx - 1 })
            (h.0, omega (arith, h.1), h.2, h.3, h.4, h.5))
        (λ e.
          if_both (InRange lo hi)
            (ltb 0 a.fps_idx && auto_fps a && leb (a.min_bitrate * 2 % 2 ^ 32) a.bitrate)
            (λ e'. (omega (arith, h.0), h.1, h.2, h.3, h.4, h.5))
            (λ e'.
              if_both (InRange lo hi) (auto_bitrate a && ltb a.bitrate a.max_bitrate)
                (λ e''. (
                  h.0,
                  h.1,
                  h.2,
                  h.3,
                  omega (arith, h.3, h.4, ordered, raised_ge a.bitrate (omega (arith, h.5, small))),
                  omega (arith, h.3),
                ))
                (λ e''. h)))

  adjusted-InRange :
      (s : Sample (S single double)) (hold : ℕ) (a : Adapter (S single double))
      → InRange lo hi a
      → InRange lo hi (adjusted single double s hold a)
  unfolding adjusted InRange
  adjusted-InRange s hold a h =
      let base : S single double = base_of single double a.baseline_rtt in
      if_both (InRange lo hi) (congested single double s base && leb 1_500_000_000 hold)
        (λ e. degrade-InRange (record a { good_streak = 0 }) h)
        (λ e.
          if_both (InRange lo hi) (clean single double s base)
            (λ e'.
              if_both (InRange lo hi)
                (leb 6 ((a.good_streak + 1) % 2 ^ 32) && leb 5_000_000_000 hold)
                (λ e''. improve-InRange (record a { good_streak = 3 }) h) (λ e''. h))
            (λ e'. h))

  pub update-InRange :
      (s : Sample (S single double)) (now : ℕ) (a : Adapter (S single double))
      → InRange lo hi a
      → InRange lo hi (update single double s now a).1
  unfolding update InRange
  update-InRange s now a h =
      let P : Option Target × Adapter (S single double) → Type 0 = λ r. InRange lo hi r.1 in
      let a1 : Adapter (S single double) = record a {
        baseline_rtt = baseline single double s a.baseline_rtt;
      } in
      let a2 : Adapter (S single double) = adjusted single double s (now - a.last_change) a1 in
      let h2 : InRange lo hi a2 = adjusted-InRange s (now - a.last_change) a1 h in
      if_both P (not a.quality.adaptive) (λ e. h)
        (λ e. if_both P (differs (target a2) (target a)) (λ e'. h2) (λ e'. h2))

  pub run-InRange :
      (samples : List (Sample (S single double) × ℕ)) (a : Adapter (S single double))
      → InRange lo hi a
      → InRange lo hi (run single double samples a)
  unfolding run
  run-InRange [] a h = h
  run-InRange ((s, now) ∷ samples) a h =
      run-InRange samples (update single double s now a).1 (update-InRange s now a h)

  pub target-InRange : (a : Adapter (S single double)) → InRange lo hi a → Within lo hi (target a)
  unfolding InRange target at Within
  target-InRange a h = ground (arith, h)
