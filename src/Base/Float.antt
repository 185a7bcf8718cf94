-- ===== src/Base/Float.antt =====
-- Go's `float64`, which has no model here: the operations that the code uses, as an interface,
-- and what it relies on. The values are those other than NaN; every law holds of IEEE 754
-- rounding to nearest on them.
use Prim.Native.Nat.{ℕ, ◌+◌, ◌-◌, ◌*◌, ◌/◌, ◌^◌, ◌≤◌, ◌<◌}
use mathlib.Core.Path.{◌≡◌}
use mathlib.Core.Bool.{Bool, true, false}
use native.Mathlib.Omega.{arith}
use adaptive_api_routing_gat.Base.Tests.{leb}
use adaptive_api_routing_gat.Base.Int.{ℤ, pos, pos_part, leb_ℤ}

pub record Float {ℓ} (R : Type ℓ) : Type ℓ where
  -- `float64(n)`
  pub of_int : ℤ → R
  pub add : R → R → R
  pub sub : R → R → R
  pub mul : R → R → R
  pub div : R → R → R
  -- `a <= b`
  pub le : R → R → Bool
  -- `Duration.Seconds()`
  pub seconds : ℤ → R

infix 50 ◌≼◌
abbrev pub ◌≼◌ {ℓ} : {R : Type ℓ} ⦃f : Float R⦄ → R → R → Type 0
◌≼◌ ⦃f⦄ a b = f.le a b ≡ true

-- Whole numbers up to 2 ^ 53 are exact.
pub record IsFloat {ℓ} (R : Type ℓ) ⦃f : Float R⦄ : Type ℓ where
  pub le_refl : (a : R) → a ≼ a
  pub le_trans : (a b c : R) → a ≼ b → b ≼ c → a ≼ c
  pub le_total : (a b : R) → f.le a b ≡ false → b ≼ a
  pub add_nonneg :
      (a b : R) → f.of_int (pos 0) ≼ a → f.of_int (pos 0) ≼ b → f.of_int (pos 0) ≼ f.add a b
  pub mul_nonneg :
      (a b : R)
      → f.le a (f.of_int (pos 0)) ≡ false
      → f.le b (f.of_int (pos 0)) ≡ false
      → f.of_int (pos 0) ≼ f.mul a b
  pub sub_one : (a : R) → f.of_int (pos 1) ≼ a → f.of_int (pos 0) ≼ f.sub a (f.of_int (pos 1))
  pub sub_le : (a : R) → f.sub a (f.of_int (pos 1)) ≼ a
  pub of_int-le :
      (a b : ℕ) → a ≤ 2 ^ 53 → b ≤ 2 ^ 53 → f.le (f.of_int (pos a)) (f.of_int (pos b)) ≡ leb a b
  pub of_int-mono : (a b : ℕ) → a ≤ b → f.of_int (pos a) ≼ f.of_int (pos b)
  pub of_int-sub :
      (n : ℕ) → n < 2 ^ 53 → f.sub (f.of_int (pos (n + 1))) (f.of_int (pos 1)) ≡ f.of_int (pos n)
  pub seconds_sign : (d : ℤ) → f.le (f.seconds d) (f.of_int (pos 0)) ≡ leb_ℤ d (pos 0)

-- The laws can be met: fixed-point numbers with nine decimals.
abbrev pub Nanos : Type 0
Nanos = ℕ

instance abbrev pub nanos_float : Float Nanos
nanos_float = record {
  of_int = λ z. pos_part z * 1_000_000_000;
  add = λ a b. a + b;
  sub = λ a b. a - b;
  mul = λ a b. a * b / 1_000_000_000;
  div = λ a b. a * 1_000_000_000 / b;
  le = leb;
  seconds = pos_part;
}

pub Nanos-IsFloat : IsFloat Nanos
Nanos-IsFloat = record {
  le_refl = λ a. ground arith;
  le_trans = λ a b c h k. ground arith;
  le_total = λ a b h. ground arith;
  add_nonneg = λ a b h k. ground arith;
  mul_nonneg = λ a b h k. ground arith;
  sub_one = λ a h. ground arith;
  sub_le = λ a. ground arith;
  of_int-le = λ a b h k. ground arith;
  of_int-mono = λ a b h. ground arith;
  of_int-sub = λ n h. ground arith;
  seconds_sign = λ d. ground arith;
}
