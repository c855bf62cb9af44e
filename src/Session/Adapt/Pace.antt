-- ===== src/Session/Adapt/Pace.antt =====
-- crates/session/src/adapt.rs: how often the controller changes its target, and what of the user's
-- settings it leaves alone.
use remote_x.Prelude.{
  ℕ, ◌+◌, ◌-◌, ◌*◌, ◌%◌, ◌^◌, ◌≤◌, ◌<◌, ◌≡◌, refl, true, false, ◌&&◌, not, List, [], ◌∷◌, Option,
  none, some, ltb, leb, if_both, Bool-cases, ltb→lt, length, arith, subst, sym, ap, ◌∙◌, inl, inr,
}
use remote_x.Float.{Float}
use remote_x.Session.Adapt.{
  Target, fps_steps, scale_steps, Sample, Adapter, target, auto_bitrate, auto_fps, auto_scale,
  differs, S, max_bitrate_for_scale, degrade, improve, baseline, base_of, congested, clean,
  adjusted, update,
}

abbrev hold_off : ℕ
hold_off = 1_500_000_000

differs-same : (t : Target) → differs t t ≡ false
unfolding differs
differs-same t = ground arith

module _ (single double : Float) where
  -- The targets that a run reports, with their times.
  unfoldable pub reports :
      List (Sample (S single double) × ℕ) → Adapter (S single double) → List (ℕ × Target)
  reports [] a = []
  reports ((s, now) ∷ samples) a =
      let (t, a') = update single double s now a in
      let rest = reports samples a' in elim t [ none ↦ rest | some u ↦ (now, u) ∷ rest ]

  -- Soon after a change a sample moves no part of the target.
  adjusted_early :
      (s : Sample (S single double)) (hold : ℕ) (a : Adapter (S single double))
      → hold < hold_off
      → target (adjusted single double s hold a) ≡ target a
  unfolding adjusted target
  adjusted_early s hold a early =
      let base : S single double = base_of single double a.baseline_rtt in
      let P : Adapter (S single double) → Type 0 = λ b. target b ≡ target a in
      if_both P (congested single double s base && leb 1_500_000_000 hold)
        (λ e. ground (arith, e, early))
        (λ e.
          if_both P (clean single double s base)
            (λ e'.
              if_both P (leb 6 ((a.good_streak + 1) % 2 ^ 32) && leb 5_000_000_000 hold)
                (λ e''. ground (arith, e'', early)) (λ e''. refl))
            (λ e'. refl))

  -- What no sample changes, and what none changes where the user has set it.
  unfoldable pub Keeps : Adapter (S single double) → Adapter (S single double) → Type 0
  Keeps a b =
      (b.quality ≡ a.quality)
      × (b.min_bitrate ≡ a.min_bitrate)
      × (b.last_change ≡ a.last_change)
      × (auto_fps a ≡ false → b.fps_idx ≡ a.fps_idx)
      × (auto_scale a ≡ false → b.scale_idx ≡ a.scale_idx)
      × (auto_bitrate a ≡ false → a.min_bitrate ≤ a.bitrate → b.bitrate ≤ a.bitrate)

  max_bitrate_for_scale-le :
      (a : Adapter (S single double)) → (max_bitrate_for_scale single double a).bitrate ≤ a.bitrate
  unfolding max_bitrate_for_scale
  max_bitrate_for_scale-le a = omega arith

  degrade-Keeps : (a : Adapter (S single double)) → Keeps a (degrade single double a)
  unfolding degrade Keeps max_bitrate_for_scale
  degrade-Keeps a =
      if_both (Keeps a) (auto_bitrate a && ltb a.min_bitrate a.bitrate)
        (λ e. (refl, refl, refl, λ x. refl, λ x. refl, λ x y. ground (arith, e, x)))
        (λ e.
          if_both (Keeps a) (auto_fps a && ltb (a.fps_idx + 1) (length fps_steps))
            (λ e'.
              (refl, refl, refl, λ x. ground (arith, e', x), λ x. refl, λ x y. omega (arith, y)))
            (λ e'.
              if_both (Keeps a) (auto_scale a && ltb (a.scale_idx + 1) (length scale_steps))
                (λ e''.
                  (refl, refl, refl, λ x. refl, λ x. ground (arith, e'', x), λ x y. omega arith))
                (λ e''. (refl, refl, refl, λ x. refl, λ x. refl, λ x y. omega arith))))

  improve-Keeps : (a : Adapter (S single double)) → Keeps a (improve single double a)
  unfolding improve Keeps max_bitrate_for_scale
  improve-Keeps a =
      if_both (Keeps a) (ltb 0 a.scale_idx && auto_scale a)
        (λ e. (refl, refl, refl, λ x. refl, λ x. ground (arith, e, x), λ x y. omega arith))
        (λ e.
          if_both (Keeps a)
            (ltb 0 a.fps_idx && auto_fps a && leb (a.min_bitrate * 2 % 2 ^ 32) a.bitrate)
            (λ e'. (refl, refl, refl, λ x. ground (arith, e', x), λ x. refl, λ x y. omega arith))
            (λ e'.
              if_both (Keeps a) (auto_bitrate a && ltb a.bitrate a.max_bitrate)
                (λ e''. (refl, refl, refl, λ x. refl, λ x. refl, λ x y. ground (arith, e'', x)))
                (λ e''. (refl, refl, refl, λ x. refl, λ x. refl, λ x y. omega arith))))

  adjusted-Keeps :
      (s : Sample (S single double)) (hold : ℕ) (a : Adapter (S single double))
      → Keeps a (adjusted single double s hold a)
  unfolding adjusted Keeps
  adjusted-Keeps s hold a =
      let base : S single double = base_of single double a.baseline_rtt in
      let same : Keeps a a = (refl, refl, refl, λ x. refl, λ x. refl, λ x y. omega arith) in
      if_both (Keeps a) (congested single double s base && leb 1_500_000_000 hold)
        (λ e. degrade-Keeps (record a { good_streak = 0 }))
        (λ e.
          if_both (Keeps a) (clean single double s base)
            (λ e'.
              if_both (Keeps a) (leb 6 ((a.good_streak + 1) % 2 ^ 32) && leb 5_000_000_000 hold)
                (λ e''. improve-Keeps (record a { good_streak = 3 })) (λ e''. same))
            (λ e'. same))

  -- A sample leaves the user's settings alone: the frame rate where it is set or where the preset
  -- is the best quality, the resolution where its height is set; and a bitrate that is set and is
  -- not below the least one is never raised.
  pub update-respects :
      (s : Sample (S single double)) (now : ℕ) (a : Adapter (S single double))
      → let b = (update single double s now a).1 in
        (b.quality ≡ a.quality)
        × (b.min_bitrate ≡ a.min_bitrate)
        × (auto_fps a ≡ false → b.fps_idx ≡ a.fps_idx)
        × (auto_scale a ≡ false → b.scale_idx ≡ a.scale_idx)
        × (auto_bitrate a ≡ false → a.min_bitrate ≤ a.bitrate → b.bitrate ≤ a.bitrate)
  unfolding update Keeps
  update-respects s now a =
      let P : Option Target × Adapter (S single double) → Type 0 = λ r.
        (r.1.quality ≡ a.quality)
        × (r.1.min_bitrate ≡ a.min_bitrate)
        × (auto_fps a ≡ false → r.1.fps_idx ≡ a.fps_idx)
        × (auto_scale a ≡ false → r.1.scale_idx ≡ a.scale_idx)
        × (auto_bitrate a ≡ false → a.min_bitrate ≤ a.bitrate → r.1.bitrate ≤ a.bitrate) in
      let a1 : Adapter (S single double) = record a {
        baseline_rtt = baseline single double s a.baseline_rtt;
      } in
      let a2 : Adapter (S single double) = adjusted single double s (now - a.last_change) a1 in
      let k : Keeps a1 a2 = adjusted-Keeps s (now - a.last_change) a1 in
      if_both P (not a.quality.adaptive)
        (λ e. (refl, refl, λ x. refl, λ x. refl, λ x y. omega arith))
        (λ e.
          if_both P (differs (target a2) (target a)) (λ e'. (k.0, k.1, k.3, k.4, k.5))
            (λ e'. (k.0, k.1, k.3, k.4, k.5)))

  -- Each report comes at least the hold-off after the one before.
  unfoldable pub IsPaced : ℕ → List (ℕ × Target) → Type 0
  IsPaced last [] = Unit
  IsPaced last ((now, t) ∷ rest) = (last + hold_off ≤ now) × IsPaced now rest

  -- A report sets the time of the last change and comes late enough; without one it stays.
  unfoldable pub Timed : ℕ → ℕ → Option Target × Adapter (S single double) → Type 0
  Timed last now (none, a) = a.last_change ≡ last
  Timed last now (some t, a) = (a.last_change ≡ now) × (last + hold_off ≤ now)

  update-Timed :
      (s : Sample (S single double)) (now : ℕ) (a : Adapter (S single double))
      → Timed a.last_change now (update single double s now a)
  unfolding update Timed Keeps target
  update-Timed s now a =
      let P : Option Target × Adapter (S single double) → Type 0 = Timed a.last_change now in
      let a1 : Adapter (S single double) = record a {
        baseline_rtt = baseline single double s a.baseline_rtt;
      } in
      let hold : ℕ = now - a.last_change in
      let a2 : Adapter (S single double) = adjusted single double s hold a1 in
      if_both P (not a.quality.adaptive) (λ e. refl)
        (λ e.
          if_both P (differs (target a2) (target a))
            (λ e'. elim (Bool-cases (ltb hold hold_off)) [
              | inl early ↦
                  let same : target a2 ≡ target a =
                    adjusted_early s hold a1 (ltb→lt hold hold_off early) in
                  let absurd : false ≡ true =
                    sym (differs-same (target a))
                    ∙ sym (ap (λ t. differs t (target a)) same)
                    ∙ e' in
                  ground (arith, absurd)
              | inr late ↦ (refl, ground (arith, late))
            ])
            (λ e'. (adjusted-Keeps s hold a1).2))

  -- One report more, or none.
  abbrev more : ℕ → Option Target → List (ℕ × Target) → List (ℕ × Target)
  more now t rest = elim t [ none ↦ rest | some u ↦ (now, u) ∷ rest ]

  more-IsPaced :
      (last now : ℕ) (r : Option Target × Adapter (S single double)) (rest : List (ℕ × Target))
      → Timed last now r
      → IsPaced r.1.last_change rest
      → IsPaced last (more now r.0 rest)
  unfolding Timed IsPaced
  more-IsPaced last now (none, a) rest h paced = subst (λ l. IsPaced l rest) h paced
  more-IsPaced last now (some t, a) rest h paced = (h.1, subst (λ l. IsPaced l rest) h.0 paced)

  -- Two changes of the target are never less than 1.5 seconds apart.
  pub reports-IsPaced :
      (samples : List (Sample (S single double) × ℕ)) (a : Adapter (S single double))
      → IsPaced a.last_change (reports samples a)
  unfolding reports IsPaced
  reports-IsPaced [] a = tt
  reports-IsPaced ((s, now) ∷ samples) a =
      more-IsPaced a.last_change now (update single double s now a)
        (reports samples (update single double s now a).1) (update-Timed s now a)
        (reports-IsPaced samples (update single double s now a).1)
