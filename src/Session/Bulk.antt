-- ===== src/Session/Bulk.antt =====
-- crates/session/src/bulk.rs: the cap on the rate of bulk data. `f32` and `f64` are parameters.
pub mod Bounds
mod Tests
use remote_x.Prelude.{
  ℕ, ◌+◌, ◌*◌, ◌/◌, min, max, Bool, true, false, List, [], ◌∷◌, Option, none, some, if◌then◌else◌,
}
use remote_x.Float.{Float}

abbrev pub min_rate : ℕ
min_rate = 32 * 1024

abbrev pub start_rate : ℕ
start_rate = 64 * 1024

abbrev pub max_rate : ℕ
max_rate = 256 * 1024 * 1024

pub record BulkGovernor (F : Type 0) : Type 0 where
  pub floor_ms : Option F
  pub rate : ℕ

abbrev pub clamp : ℕ → ℕ
clamp n = min (max n min_rate) max_rate

module _ (single double : Float) where
  unfoldable pub new : BulkGovernor single.F
  new = record { floor_ms = none; rate = start_rate }

  unfoldable pub floor_of : single.F → Option single.F → single.F
  floor_of rtt none = rtt
  floor_of rtt (some f) =
      single.add (single.mul (single.fmin f rtt) (single.lit 995 3))
        (single.mul (single.fmax rtt (single.fmin f rtt)) (single.lit 5 3))

  -- A part of the rate, cut off.
  unfoldable pub part : ℕ → double.F → ℕ
  part rate f = double.to_u64 (double.mul (double.of_ℕ rate) f)

  unfoldable pub next_rate : single.F → ℕ → ℕ
  unfolding part
  next_rate delay rate =
      if single.lt (single.lit 60 0) delay
      then part rate (double.lit 5 1)
      else if single.lt (single.lit 25 0) delay
      then part rate (double.lit 8 1)
      else if single.lt (single.div (single.lit 25 0) (single.lit 2 0)) delay
      then rate
      else rate + max (rate / 8) (16 * 1024)

  unfoldable pub update : single.F → BulkGovernor single.F → BulkGovernor single.F
  unfolding floor_of next_rate
  update rtt g =
      let floor = floor_of rtt g.floor_ms in
      let delay = single.fmax (single.sub rtt floor) (single.lit 0 0) in
      record { floor_ms = some floor; rate = clamp (next_rate delay g.rate) }

  unfoldable pub run : List single.F → BulkGovernor single.F → BulkGovernor single.F
  unfolding update
  run [] g = g
  run (rtt ∷ samples) g = run samples (update rtt g)
