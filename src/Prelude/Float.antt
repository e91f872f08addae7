-- ===== src/Prelude/Float.antt =====
-- float64 and the parts of Go's `math` that the program uses. The language here has no floats, so
-- the number type and its operations are a parameter of every definition that computes with them;
-- nothing is assumed of the operations except where a theorem takes `OrderLaws`.
use Prim.Native.Nat.{ℕ, suc, ◌/◌}
use mathlib.Core.Path.{◌≡◌}
use mathlib.Core.Bool.{Bool, true, false, not}
use native.Mathlib.Omega.{arith}
use vehicle_positions.Prelude.Tests.{if◌then◌else◌}
use vehicle_positions.Prelude.Int.{ℤ, pos, negsuc, ◌+ℤ◌, ◌-ℤ◌, ◌*ℤ◌, ltb_ℤ, leb_ℤ}

pub record FloatOps (F : Type 0) : Type 0 where
  -- a constant of the source that is a whole number
  pub lit : ℕ → F
  pub neg : F → F
  pub add : F → F → F
  pub sub : F → F → F
  pub mul : F → F → F
  pub div : F → F → F
  -- `a < b` and `a <= b`; `a > b` is `lt b a`
  pub lt : F → F → Bool
  pub le : F → F → Bool
  pub is_nan : F → Bool
  -- math.Abs, math.Max, math.Min, math.Inf(1), math.Pi
  pub abs : F → F
  pub max : F → F → F
  pub min : F → F → F
  pub inf : F
  pub pi : F
  pub sin : F → F
  pub cos : F → F
  pub asin : F → F
  pub sqrt : F → F
  pub atan2 : F → F → F
  pub hypot : F → F → F
  -- math.Mod
  pub fmod : F → F → F
  -- `d.Seconds()`, `float64(d)` and `time.Duration(x)`
  pub seconds : ℤ → F
  pub of_duration : ℤ → F
  pub to_duration : F → ℤ

-- IEEE 754 comparison, for values that are not NaN: a total order, with `<` its strict part.
pub record OrderLaws {F : Type 0} (fl : FloatOps F) : Type 0 where
  pub le_refl : (a : F) → fl.is_nan a ≡ false → fl.le a a ≡ true
  pub le_trans : (a b c : F) → fl.le a b ≡ true → fl.le b c ≡ true → fl.le a c ≡ true
  pub lt_iff_not_le :
      (a b : F) → fl.is_nan a ≡ false → fl.is_nan b ≡ false → fl.lt a b ≡ not (fl.le b a)
  pub le_of_lt : (a b : F) → fl.lt a b ≡ true → fl.le a b ≡ true

abbrev abs_ℤ : ℤ → ℤ
abs_ℤ a = if ltb_ℤ a (pos 0) then pos 0 -ℤ a else a

-- Division rounded towards zero, and 0 where the divisor is 0.
quot : ℤ → ℤ → ℤ
quot (pos a) (pos b) = pos (a / b)
quot (pos a) (negsuc b) = pos 0 -ℤ pos (a / suc b)
quot (negsuc a) (pos b) = pos 0 -ℤ pos (suc a / b)
quot (negsuc a) (negsuc b) = pos (suc a / suc b)

-- Whole numbers in place of floats, on a flat earth (`cos` is 1): a concrete instance, at which the
-- definitions run.
unfoldable pub whole : FloatOps ℤ
unfolding quot ◌+ℤ◌ ◌-ℤ◌ ◌*ℤ◌
whole = record {
  lit = pos;
  neg = λ a. pos 0 -ℤ a;
  add = ◌+ℤ◌;
  sub = ◌-ℤ◌;
  mul = ◌*ℤ◌;
  div = quot;
  lt = ltb_ℤ;
  le = leb_ℤ;
  is_nan = λ a. false;
  abs = abs_ℤ;
  max = λ a b. if leb_ℤ a b then b else a;
  min = λ a b. if leb_ℤ a b then a else b;
  inf = pos 1_000_000_000_000_000_000;
  pi = pos 3;
  sin = λ a. a;
  cos = λ a. pos 1;
  asin = λ a. a;
  sqrt = λ a. a;
  atan2 = λ y x. pos 0;
  hypot = λ x y. abs_ℤ x +ℤ abs_ℤ y;
  fmod = λ x y. x;
  seconds = λ d. quot d (pos 1_000_000_000);
  of_duration = λ d. d;
  to_duration = λ x. x;
}

pub whole-OrderLaws : OrderLaws whole
unfolding whole
whole-OrderLaws = record {
  le_refl = λ a _. ground arith;
  le_trans = λ a b c h k. ground arith;
  lt_iff_not_le = λ a b _ _. ground arith;
  le_of_lt = λ a b h. ground arith;
}
