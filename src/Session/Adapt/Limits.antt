-- ===== src/Session/Adapt/Limits.antt =====
-- crates/session/src/adapt.rs: the targets of a controller over time, and the output dimensions.
use remote_x.Prelude.{
  ℕ, ◌*◌, ◌/◌, ◌%◌, ◌^◌, ◌≤◌, ◌<◌, ◌≡◌, refl, min, max, List, ltb, if◌then◌else◌, arith, ◌⊎◌, inl,
  inr,
}
use native.Mathlib.Nat.{div-le_of_le-mul, mul-le-mul_left, mod-le}
use remote_x.Float.{Float}
use remote_x.Common.Peer.{QualitySettings}
use remote_x.Session.Adapt.{
  fps_steps, at, Sample, Adapter, fps_cap, fps_place, target, S, new, ideal, run, capped_pixels,
  output_size,
}
use remote_x.Session.Adapt.Bounds.{InRange, FloatLaws, Within, run-InRange, target-InRange}

-- The bitrate to start with.
abbrev first : ℕ → ℕ → ℕ
first cap best = if ltb 0 cap then cap else min (max best 500) 60_000

fps_place-lt : (cap : ℕ) → fps_place cap < 3
unfolding fps_place
fps_place-lt cap = ground arith

first_ordered :
    (cap best : ℕ) → (cap ≡ 0) ⊎ (300 ≤ cap) → max (first cap best / 8) 300 ≤ first cap best
first_ordered cap best (inl e) = ground (arith, e)
first_ordered cap best (inr h) = ground (arith, h)

first_small : (cap best : ℕ) → cap < 2 ^ 32 → first cap best < 2 ^ 32
first_small cap best h = ground (arith, h)

-- Whatever is measured, the controller asks for 15 to 60 frames a second, for 33 to 100 percent of
-- the size, and for a bitrate that is not above the first one, nor below 300 or an eighth of the
-- first one, where the user's bitrate is left open or at least 300.
pub run-new-Within :
    (single double : Float) (q : QualitySettings) (w h now : ℕ)
    (samples : List (Sample (S single double) × ℕ))
    → FloatLaws double
    → (q.bitrate_kbps ≡ 0) ⊎ (300 ≤ q.bitrate_kbps)
    → q.bitrate_kbps < 2 ^ 32
    → Within
        (max ((new single double q w h now).bitrate / 8) 300)
        (new single double q w h now).bitrate
        (target (run single double samples (new single double q w h now)))
unfolding new InRange
run-new-Within single double q w h now samples laws open_or_large small =
    let a : Adapter (S single double) = new single double q w h now in
    let best : ℕ =
      ideal single double q (capped_pixels q w h) (at fps_steps (fps_place (fps_cap q))) in
    let hi : ℕ = first q.bitrate_kbps best in
    let lo : ℕ = max (hi / 8) 300 in
    let ordered : lo ≤ hi = first_ordered q.bitrate_kbps best open_or_large in
    let little : hi < 2 ^ 32 = first_small q.bitrate_kbps best small in
    target-InRange single double laws lo hi ordered little (run single double samples a) (
      run-InRange single double laws lo hi ordered little samples a
        (fps_place-lt (fps_cap q), omega arith, refl, refl, ordered, omega arith))

narrowed : (n w : ℕ) → n ≤ w → max (n % 2 ^ 32) 320 / 2 * 2 ≤ max w 320
narrowed n w h = omega (arith, mod-le n (2 ^ 32))

-- A part of the height gives no more than the width.
div-mul-le : (w k h : ℕ) → k ≤ h → 0 < h → w * k / h ≤ w
div-mul-le w k h le pos = div-le_of_le-mul h (omega (arith, mul-le-mul_left w le))

narrow_width :
    (w k h : ℕ) → k ≤ max h 180 → 180 ≤ h → max (w * k / max h 1 % 2 ^ 32) 320 / 2 * 2 ≤ max w 320
narrow_width w k h le tall =
    let part : w * k / max h 1 ≤ w = div-mul-le w k (max h 1) (omega arith) (omega arith) in
    narrowed (w * k / max h 1) w part

even_width : (n : ℕ) → (max n 320 / 2 * 2 % 2 ≡ 0) × (320 ≤ max n 320 / 2 * 2)
even_width n = (omega arith, omega arith)

even_height :
    (scaled most h : ℕ)
    → let k = min (max (if ltb 0 most then min scaled most else scaled) 180) (max h 180) in
      (k / 2 * 2 % 2 ≡ 0)
      × (180 ≤ k / 2 * 2)
      × (k / 2 * 2 ≤ max h 180)
      × (0 < most → k / 2 * 2 ≤ max most 180)
even_height scaled most h = ground arith

-- The output is even in both directions and at least 320 by 180; it is not higher than the display
-- or than the user's limit, where these leave 180 lines.
pub output_size-IsEven :
    (w h percent most : ℕ)
    → let out = output_size w h percent most in
      ((out.0 % 2 ≡ 0) × (320 ≤ out.0) × (180 ≤ h → out.0 ≤ max w 320))
      × ((out.1 % 2 ≡ 0) × (180 ≤ out.1) × (out.1 ≤ max h 180) × (0 < most → out.1 ≤ max most 180))
unfolding output_size
output_size-IsEven w h percent most =
    let k : ℕ =
      min
        (max
          (if ltb 0 most then min (h * percent % 2 ^ 32 / 100) most else h * percent % 2 ^ 32 / 100)
          180)
        (max h 180) in
    let wide : (max (w * k / max h 1 % 2 ^ 32) 320 / 2 * 2 % 2 ≡ 0)
        × (320 ≤ max (w * k / max h 1 % 2 ^ 32) 320 / 2 * 2) =
      even_width (w * k / max h 1 % 2 ^ 32) in
    (
      (wide.0, wide.1, λ tall. narrow_width w k h (omega arith) tall),
      even_height (h * percent % 2 ^ 32 / 100) most h,
    )
