-- ===== src/Session/Adapt.antt =====
-- crates/session/src/adapt.rs: the controller of the video budget. An instant is a number of
-- nanoseconds; `f32` and `f64` are two parameters.
pub mod Bounds
pub mod Limits
pub mod Pace
mod Tests
use remote_x.Prelude.{
  ℕ, suc, ◌+◌, ◌-◌, ◌*◌, ◌/◌, ◌%◌, ◌^◌, min, max, Bool, true, false, ◌&&◌, ◌||◌, not, List, [], ◌∷◌,
  Option, none, some, ltb, leb, nat_beq, if◌then◌else◌, get_elem?, length,
}
use remote_x.Float.{Float}
use remote_x.Common.Peer.{
  Preset, auto, best_quality, balanced, low_latency, low_bandwidth, QualitySettings,
}

pub record Target : Type 0 where
  pub bitrate_kbps : ℕ
  pub fps : ℕ
  pub scale_percent : ℕ

abbrev pub fps_steps : List ℕ
fps_steps = 60 ∷ 30 ∷ 15 ∷ []

abbrev pub scale_steps : List ℕ
scale_steps = 100 ∷ 75 ∷ 50 ∷ 33 ∷ []

-- An index outside the steps is an abort of the program; `new` and `update` keep theirs inside.
unfoldable pub at : List ℕ → ℕ → ℕ
at steps i = elim (get_elem? steps i) [ none ↦ 0 | some n ↦ n ]

pub record Sample (F : Type 0) : Type 0 where
  pub rtt_ms : F
  pub send_delay_ms : F
  pub dropped : ℕ

pub record Adapter (F : Type 0) : Type 0 where
  pub quality : QualitySettings
  pub native_pixels : ℕ
  pub max_bitrate : ℕ
  pub min_bitrate : ℕ
  pub bitrate : ℕ
  pub fps_idx : ℕ
  pub scale_idx : ℕ
  pub baseline_rtt : Option F
  pub good_streak : ℕ
  pub last_change : ℕ

unfoldable pub is_low_bandwidth : Preset → Bool
is_low_bandwidth low_bandwidth = true
is_low_bandwidth p = false

unfoldable pub is_best_quality : Preset → Bool
is_best_quality best_quality = true
is_best_quality p = false

unfoldable pub fps_cap : QualitySettings → ℕ
unfolding is_low_bandwidth
fps_cap q = if ltb 0 q.fps then q.fps else if is_low_bandwidth q.preset then 30 else 60

-- The place of the first step that is within the cap, or the last place.
unfoldable pub fps_place : ℕ → ℕ
fps_place cap = if leb 60 cap then 0 else if leb 30 cap then 1 else 2

-- Products of a width and two heights, in 64 bits.
unfoldable pub capped_pixels : QualitySettings → ℕ → ℕ → ℕ
unfolding is_low_bandwidth
capped_pixels q native_w native_h =
    if ltb 0 q.max_height && ltb q.max_height native_h
    then native_w * q.max_height * q.max_height % 2 ^ 64 / native_h
    else if is_low_bandwidth q.preset && ltb 720 native_h
    then native_w * 720 * 720 % 2 ^ 64 / native_h
    else native_w * native_h

-- Whether two targets differ, for the two that an update compares.
unfoldable pub differs : Target → Target → Bool
differs t u = not (
    nat_beq t.bitrate_kbps u.bitrate_kbps
    && nat_beq t.fps u.fps
    && nat_beq t.scale_percent u.scale_percent)

module _ {F : Type 0} where
  unfoldable pub target : Adapter F → Target
  unfolding at
  target a = record {
    bitrate_kbps = a.bitrate;
    fps = at fps_steps a.fps_idx;
    scale_percent = at scale_steps a.scale_idx;
  }

  abbrev pub auto_bitrate : Adapter F → Bool
  auto_bitrate a = nat_beq a.quality.bitrate_kbps 0

  unfoldable pub auto_fps : Adapter F → Bool
  unfolding is_best_quality
  auto_fps a = nat_beq a.quality.fps 0 && not (is_best_quality a.quality.preset)

  abbrev pub auto_scale : Adapter F → Bool
  auto_scale a = nat_beq a.quality.max_height 0

module _ (single double : Float) where
  abbrev pub S : Type 0
  S = single.F

  -- Bits per pixel.
  unfoldable pub preset_bpp : Preset → double.F
  preset_bpp auto = double.lit 4 2
  preset_bpp low_latency = double.lit 4 2
  preset_bpp balanced = double.lit 6 2
  preset_bpp best_quality = double.lit 10 2
  preset_bpp low_bandwidth = double.lit 15 3

  unfoldable pub ideal : QualitySettings → ℕ → ℕ → ℕ
  unfolding preset_bpp
  ideal q pixels fps = double.to_u32 (
      double.div
        (double.mul (double.mul (double.of_ℕ pixels) (double.of_ℕ fps)) (preset_bpp q.preset))
        (double.lit 1000 0))

  unfoldable pub new : QualitySettings → ℕ → ℕ → ℕ → Adapter S
  unfolding fps_cap fps_place capped_pixels ideal at
  new q native_w native_h now =
      let fps_idx = fps_place (fps_cap q) in
      let best = ideal q (capped_pixels q native_w native_h) (at fps_steps fps_idx) in
      let max_bitrate =
        if ltb 0 q.bitrate_kbps then q.bitrate_kbps else min (max best 500) 60_000 in
      record {
        quality = q;
        native_pixels = native_w * native_h;
        max_bitrate = max_bitrate;
        min_bitrate = max (max_bitrate / 8) 300;
        bitrate = max_bitrate;
        fps_idx = fps_idx;
        scale_idx = 0;
        baseline_rtt = none;
        good_streak = 0;
        last_change = now;
      }

  -- The bitrate that the scale allows.
  unfoldable pub scale_cap : Adapter S → ℕ
  unfolding at
  scale_cap a =
      let f = double.div (double.of_ℕ (at scale_steps a.scale_idx)) (double.lit 100 0) in
      double.to_u32 (
        double.fmax (double.mul (double.mul (double.of_ℕ a.max_bitrate) f) f)
          (double.of_ℕ a.min_bitrate))

  unfoldable pub max_bitrate_for_scale : Adapter S → Adapter S
  unfolding scale_cap
  max_bitrate_for_scale a = record a { bitrate = min a.bitrate (scale_cap a) }

  unfoldable pub lowered : ℕ → ℕ
  lowered bitrate = double.to_u32 (double.mul (double.of_ℕ bitrate) (double.lit 75 2))

  unfoldable pub raised : ℕ → ℕ
  raised bitrate = double.to_u32 (double.mul (double.of_ℕ bitrate) (double.lit 115 2))

  unfoldable pub degrade : Adapter S → Adapter S
  unfolding auto_fps max_bitrate_for_scale lowered
  degrade a =
      if auto_bitrate a && ltb a.min_bitrate a.bitrate
      then record a { bitrate = max (lowered a.bitrate) a.min_bitrate }
      else if auto_fps a && ltb (a.fps_idx + 1) (length fps_steps)
      then record a { fps_idx = a.fps_idx + 1; bitrate = max a.bitrate a.min_bitrate }
      else if auto_scale a && ltb (a.scale_idx + 1) (length scale_steps)
      then max_bitrate_for_scale (record a { scale_idx = a.scale_idx + 1 })
      else a

  unfoldable pub improve : Adapter S → Adapter S
  unfolding auto_fps max_bitrate_for_scale raised
  improve a =
      if ltb 0 a.scale_idx && auto_scale a
      then max_bitrate_for_scale (record a { scale_idx = a.scale_idx - 1 })
      else if ltb 0 a.fps_idx && auto_fps a && leb (a.min_bitrate * 2 % 2 ^ 32) a.bitrate
      then record a { fps_idx = a.fps_idx - 1 }
      else if auto_bitrate a && ltb a.bitrate a.max_bitrate
      then record a { bitrate = min (raised a.bitrate) a.max_bitrate }
      else a

  -- The round-trip time to compare with, which a sample moves.
  unfoldable pub baseline : Sample S → Option S → Option S
  baseline s b =
      if single.lt (single.lit 0 0) s.rtt_ms
      then (elim b [
        | none ↦ some s.rtt_ms
        | some r ↦ some (
            single.add (single.mul (single.fmin r s.rtt_ms) (single.lit 98 2))
              (single.mul (single.fmin s.rtt_ms (single.mul r (single.lit 3 0))) (single.lit 2 2)))
      ])
      else b

  unfoldable pub base_of : Option S → S
  base_of none = single.lit 0 0
  base_of (some r) = r

  unfoldable pub congested : Sample S → S → Bool
  congested s base =
      single.lt (single.lit 60 0) s.send_delay_ms
      || leb 3 s.dropped
      || (single.lt (single.lit 0 0) s.rtt_ms
          && single.lt (single.add (single.mul base (single.lit 2 0)) (single.lit 60 0)) s.rtt_ms)

  unfoldable pub clean : Sample S → S → Bool
  clean s base =
      single.lt s.send_delay_ms (single.lit 25 0)
      && nat_beq s.dropped 0
      && ((single.le s.rtt_ms (single.lit 0 0) && single.le (single.lit 0 0) s.rtt_ms)
          || single.lt s.rtt_ms (single.add (single.mul base (single.lit 15 1)) (single.lit 30 0)))

  -- The state after a sample, before it is seen whether the target changed.
  unfoldable pub adjusted : Sample S → ℕ → Adapter S → Adapter S
  unfolding base_of congested clean degrade improve
  adjusted s hold a =
      let base = base_of a.baseline_rtt in
      if congested s base && leb 1_500_000_000 hold
      then degrade (record a { good_streak = 0 })
      else if clean s base
      then (let n = (a.good_streak + 1) % 2 ^ 32 in
          if leb 6 n && leb 5_000_000_000 hold
          then improve (record a { good_streak = 3 })
          else record a { good_streak = n })
      else record a { good_streak = 0 }

  unfoldable pub update : Sample S → ℕ → Adapter S → Option Target × Adapter S
  unfolding baseline adjusted target differs
  update s now a =
      if not a.quality.adaptive
      then (none, a)
      else (let a1 = record a { baseline_rtt = baseline s a.baseline_rtt } in
          let a2 = adjusted s (now - a.last_change) a1 in
          if differs (target a2) (target a)
          then (some (target a2), record a2 { last_change = now })
          else (none, a2))

module _ (single double : Float) where
  -- One sample after another, each at its time.
  unfoldable pub run :
      List (Sample (S single double) × ℕ) → Adapter (S single double) → Adapter (S single double)
  unfolding update
  run [] a = a
  run ((s, now) ∷ samples) a = run samples (update single double s now a).1

-- Output dimensions: even, from 32-bit sizes.
unfoldable pub output_size : ℕ → ℕ → ℕ → ℕ → ℕ × ℕ
output_size native_w native_h scale_percent max_height =
    let scaled = native_h * scale_percent % 2 ^ 32 / 100 in
    let capped = if ltb 0 max_height then min scaled max_height else scaled in
    let h = min (max capped 180) (max native_h 180) in
    let w = native_w * h / max native_h 1 % 2 ^ 32 in (max w 320 / 2 * 2, h / 2 * 2)
