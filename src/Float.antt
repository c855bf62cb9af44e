-- ===== src/Float.antt =====
-- Floating-point numbers. The checker has none, so the type and what the code uses of it are a
-- parameter; no law is assumed here, and a theorem that needs one names it.
use Prim.Native.Nat.{ℕ, ◌+◌, ◌-◌, ◌*◌, ◌/◌, ◌^◌, min, max}
use mathlib.Core.Bool.{Bool}
use remote_x.Prelude.Tests.{ltb, leb}

pub record Float : Type 1 where
  pub F : Type 0
  -- The decimal literal `m / 10 ^ k`.
  pub lit : ℕ → ℕ → F
  pub add : F → F → F
  pub sub : F → F → F
  pub mul : F → F → F
  pub div : F → F → F
  pub neg : F → F
  pub fmin : F → F → F
  pub fmax : F → F → F
  pub lt : F → F → Bool
  pub le : F → F → Bool
  -- `n as f64`
  pub of_ℕ : ℕ → F
  -- `x as u32` and `x as u64`, which saturate
  pub to_u32 : F → ℕ
  pub to_u64 : F → ℕ
  -- `Duration::as_secs_f64` and `Duration::from_secs_f64`, in nanoseconds
  pub as_secs : ℕ → F
  pub from_secs : F → ℕ

-- Thousandths that stop at 0: enough to run the code in a test.
abbrev pub thousandths : Float
thousandths = record {
  F = ℕ;
  lit = λ m k. m * 1000 / 10 ^ k;
  add = λ x y. x + y;
  sub = λ x y. x - y;
  mul = λ x y. x * y / 1000;
  div = λ x y. x * 1000 / y;
  neg = λ x. 0;
  fmin = λ x y. min x y;
  fmax = λ x y. max x y;
  lt = ltb;
  le = leb;
  of_ℕ = λ n. n * 1000;
  to_u32 = λ x. min (x / 1000) (2 ^ 32 - 1);
  to_u64 = λ x. min (x / 1000) (2 ^ 64 - 1);
  as_secs = λ n. n / 1000000;
  from_secs = λ x. x * 1000000;
}
