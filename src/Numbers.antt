-- ===== src/Numbers.antt =====
-- include/Analysis/Numbers.h: NumberType<T>, numbers with two values that stand for the infinities.
-- The template is generic in T, so the model is generic in the operations of T: `Scalar` is what the
-- code uses of a C++ arithmetic type. `double` is not modelled beyond that; for `int` there is
-- `int_scalar`, whose sums and products are those of C++ as long as they fit, since a signed overflow
-- has no meaning there.
pub mod Sums
pub mod Products
use program_partitioning_for.Base.{ℕ, Bool, true, false, not, ◌&&◌, ◌||◌, if◌then◌else◌}
use program_partitioning_for.Base.Int.{ℤ, pos, negsuc, ◌+ℤ◌, ◌*ℤ◌, negate, abs, ltb_ℤ, eqb_ℤ}

pub record Scalar : Type 1 where
  pub T : Type 0
  pub zero : T
  pub one : T
  -- POS_INFINITY and NEG_INFINITY, 100000 and -100000
  pub pos_infinity : T
  pub neg_infinity : T
  pub add : T → T → T
  pub mul : T → T → T
  -- -1 * x, and std::abs
  pub minus : T → T
  pub magnitude : T → T
  pub lt : T → T → Bool
  pub eq : T → T → Bool

abbrev pub int_scalar : Scalar
int_scalar = record {
  T = ℤ;
  zero = pos 0;
  one = pos 1;
  pos_infinity = pos 100000;
  neg_infinity = negsuc 99999;
  add = ◌+ℤ◌;
  mul = ◌*ℤ◌;
  minus = negate;
  magnitude = abs;
  lt = ltb_ℤ;
  eq = eqb_ℤ;
}

module _ (s : Scalar) where
  open s use {T, zero, one, pos_infinity, neg_infinity, add, mul, minus, magnitude, lt, eq}

  abbrev pub le : T → T → Bool
  le a b = lt a b || eq a b

  unfoldable pub is_pos_infinity : T → Bool
  is_pos_infinity a = eq a pos_infinity

  unfoldable pub is_neg_infinity : T → Bool
  is_neg_infinity a = eq a neg_infinity

  -- The end of safe_sum: a sum that wrapped is replaced by an infinity.
  unfoldable pub checked_sum : T → T → T
  checked_sum i1 i2 =
      let sum = add i1 i2 in
      if lt i1 zero && lt i2 zero
      then (if lt i1 sum then neg_infinity else sum)
      else (if lt zero i1 && lt zero i2 then (if lt sum i1 then pos_infinity else sum) else sum)

  unfoldable pub safe_sum : T → T → T
  unfolding is_pos_infinity is_neg_infinity checked_sum
  safe_sum i1 i2 =
      if (is_pos_infinity i1 && le zero i2) || (is_pos_infinity i2 && le zero i1)
      then pos_infinity
      else (if (is_pos_infinity i1 && is_neg_infinity i2)
            || (is_pos_infinity i2 && is_neg_infinity i1)
          then zero
          else (if (is_neg_infinity i1 && le i2 zero) || (is_neg_infinity i2 && le i1 zero)
              then neg_infinity
              else checked_sum i1 i2))

  -- The end of safe_mult.
  unfoldable pub checked_mult : T → T → T
  checked_mult i1 i2 =
      let mult = magnitude (mul i1 i2) in
      if lt mult (magnitude i1)
      then (if lt i1 zero || lt i2 zero then neg_infinity else pos_infinity)
      else mult

  unfoldable pub safe_mult : T → T → T
  unfolding is_pos_infinity is_neg_infinity checked_mult
  safe_mult i1 i2 =
      if eq i1 zero || eq i2 zero
      then zero
      else (if (is_pos_infinity i1 && not (is_neg_infinity i2))
            || (is_pos_infinity i2 && not (is_neg_infinity i1))
          then (if lt zero i2 then pos_infinity else neg_infinity)
          else (if (is_pos_infinity i1 && is_neg_infinity i2)
                || (is_pos_infinity i2 && is_neg_infinity i1)
              then neg_infinity
              else (if (is_neg_infinity i1 && not (is_pos_infinity i2))
                    || (is_neg_infinity i2 && not (is_pos_infinity i1))
                  then (if lt zero i1 then pos_infinity else neg_infinity)
                  else checked_mult i1 i2)))

  -- operator += and +, operator -= and -, operator *
  unfoldable pub plus : T → T → T
  unfolding safe_sum
  plus i1 i2 = safe_sum i1 i2

  unfoldable pub difference : T → T → T
  unfolding safe_sum
  difference i1 i2 = safe_sum i1 (minus i2)

  unfoldable pub times : T → T → T
  unfolding safe_mult
  times i1 i2 = safe_mult i1 i2

  -- operator ++: no saturation
  unfoldable pub increment : T → T
  increment i = add i one
