-- ===== src/Session/Adapt/Tests.antt =====
-- The controller on concrete samples, with thousandths for floating-point numbers.
use remote_x.Prelude.{ℕ, ◌/◌, ◌≤◌, ◌≡◌, refl, max, true, false, List, [], ◌∷◌, none, arith, inl}
use remote_x.Float.{thousandths}
use remote_x.Common.Peer.{QualitySettings, auto, low_bandwidth}
use remote_x.Session.Adapt.{
  at, Sample, Adapter, target, auto_bitrate, auto_fps, auto_scale, is_best_quality, new, degrade,
  improve, update, run,
}
use remote_x.Session.Adapt.Bounds.{FloatLaws, Within}
use remote_x.Session.Adapt.Limits.{run-new-Within}
use remote_x.Session.Adapt.Pace.{IsPaced, reports, update-respects, reports-IsPaced}

laws : FloatLaws thousandths
laws = record {
  lowered_le = λ n. omega arith;
  raised_ge = λ n h. omega (arith, h);
  at_least = λ x n h. omega (arith, h);
}

abbrev settings : QualitySettings
settings = record {
  preset = auto;
  fps = 0;
  max_height = 0;
  bitrate_kbps = 0;
  codec = none;
  hardware = true;
  adaptive = true;
}

abbrev bad : Sample ℕ
bad = record { rtt_ms = 200_000; send_delay_ms = 150_000; dropped = 5 }

abbrev samples : List (Sample ℕ × ℕ)
samples = (bad, 2_000_000_000) ∷ (bad, 2_500_000_000) ∷ (bad, 4_000_000_000) ∷ []

abbrev start : Adapter ℕ
start = new thousandths thousandths settings 1920 1080 0

run-new-Within_example :
    Within
      (max (start.bitrate / 8) 300)
      start.bitrate
      (target (run thousandths thousandths samples start))
run-new-Within_example =
    run-new-Within thousandths thousandths settings 1920 1080 0 samples laws (inl refl)
      (omega arith)

reports-IsPaced_example :
    IsPaced thousandths thousandths start.last_change
      (reports thousandths thousandths samples start)
reports-IsPaced_example = reports-IsPaced thousandths thousandths samples start

update-respects_example :
    let b = (update thousandths thousandths bad 2_000_000_000 start).1 in
    (b.quality ≡ start.quality)
    × (b.min_bitrate ≡ start.min_bitrate)
    × (auto_fps start ≡ false → b.fps_idx ≡ start.fps_idx)
    × (auto_scale start ≡ false → b.scale_idx ≡ start.scale_idx)
    × (auto_bitrate start ≡ false → start.min_bitrate ≤ start.bitrate → b.bitrate ≤ start.bitrate)
update-respects_example = update-respects thousandths thousandths bad 2_000_000_000 start

-- A preset for a low bandwidth starts at 30 frames a second, and recovery takes it to 60.
abbrev slow : Adapter ℕ
slow = record {
  quality = record settings { preset = low_bandwidth };
  native_pixels = 0;
  max_bitrate = 800;
  min_bitrate = 300;
  bitrate = 800;
  fps_idx = 1;
  scale_idx = 0;
  baseline_rtt = none;
  good_streak = 3;
  last_change = 0;
}

faster : (target (improve thousandths thousandths slow)).fps ≡ 60
unfolding target improve auto_fps at is_best_quality
faster = refl

-- A bitrate that the user sets below 300 is exceeded when the controller lowers the frame rate.
abbrev frugal : Adapter ℕ
frugal = record slow {
  quality = record settings { bitrate_kbps = 200 };
  max_bitrate = 200;
  bitrate = 200;
}

exceeds : (target (degrade thousandths thousandths frugal)).bitrate_kbps ≡ 300
unfolding target degrade auto_fps at is_best_quality
exceeds = refl
