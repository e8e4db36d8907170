-- ===== src/CallGraph/Weights.antt =====
-- WeightFactor and Weight of include/Analysis/CallGraph.h: a weight is a vector with a slot for each
-- factor but `unknown`.
use program_partitioning_for.Base.{
  ℕ, ◌<◌, ◌≡◌, ◌≢◌, refl, Bool, true, List, [], ◌∷◌, arith, ltb, if◌then◌else◌, ◌==◌, get_or, set,
  length, get_or-set,
}
use program_partitioning_for.Numbers.{Scalar, plus, times}

-- WeightFactor::Factor
pub data Factor : Type 0 where
  sensitive sensitive_related size call_num arg_num arg_complexity ret_complexity unknown : Factor

-- The value of the enumerator.
unfoldable pub factor_index : Factor → ℕ
factor_index sensitive = 0
factor_index sensitive_related = 1
factor_index size = 2
factor_index call_num = 3
factor_index arg_num = 4
factor_index arg_complexity = 5
factor_index ret_complexity = 6
factor_index unknown = 7

-- m_name is never read or written.
pub record WeightFactor (T : Type 0) : Type 0 where
  pub factor : Factor
  pub value : T
  pub coeff : T

module _ {T : Type 0} where
  -- isDefined
  unfoldable pub is_defined : WeightFactor T → Bool
  unfolding factor_index
  is_defined w = ltb (factor_index w.factor) (factor_index unknown)

  unfoldable pub set_value : T → WeightFactor T → WeightFactor T
  set_value v w = record w { value = v }

  unfoldable pub set_coef : T → WeightFactor T → WeightFactor T
  set_coef c w = record w { coeff = c }

  -- addFactor: an `unknown` factor would be a write past the end.
  unfoldable pub add_factor : WeightFactor T → List (WeightFactor T) → List (WeightFactor T)
  unfolding factor_index
  add_factor w ws = set ws (factor_index w.factor) w

module _ (s : Scalar) where
  open s use {T, zero, one}

  -- WeightFactor(factor)
  unfoldable pub new_factor : Factor → WeightFactor T
  new_factor f = record { factor = f; value = zero; coeff = one }

  -- getWeight
  unfoldable pub factor_weight : WeightFactor T → T
  unfolding times
  factor_weight w = times s w.value w.coeff

  -- Weight()
  unfoldable pub new_weight : List (WeightFactor T)
  unfolding new_factor
  new_weight = let u = new_factor unknown in u ∷ u ∷ u ∷ u ∷ u ∷ u ∷ u ∷ []

  -- getFactor
  unfoldable pub get_factor : Factor → List (WeightFactor T) → WeightFactor T
  unfolding factor_index new_factor
  get_factor f ws = get_or ws (factor_index f) (new_factor unknown)

  -- hasFactor
  unfoldable pub has_factor : Factor → List (WeightFactor T) → Bool
  unfolding get_factor is_defined
  has_factor f ws = is_defined (get_factor f ws)

  sum_factors : T → List (WeightFactor T) → T
  unfolding factor_weight is_defined plus
  sum_factors weight [] = weight
  sum_factors weight (w ∷ ws) =
      sum_factors (if is_defined w then plus s weight (factor_weight w) else weight) ws

  -- getValue
  unfoldable pub get_value : List (WeightFactor T) → T
  unfolding sum_factors
  get_value ws = sum_factors zero ws

  factor_index_lt : (f : Factor) → f ≢ unknown → factor_index f < 7
  unfolding factor_index
  factor_index_lt unknown h = absurd (h refl)
  factor_index_lt _ h = omega arith

  pub get_factor-add_factor :
      (w : WeightFactor T) (ws : List (WeightFactor T)) (f : Factor)
      → length ws ≡ 7
      → w.factor ≢ unknown
      → get_factor f (add_factor w ws)
        ≡ (if factor_index w.factor == factor_index f then w else get_factor f ws)
  unfolding get_factor add_factor
  get_factor-add_factor w ws f l h =
      get_or-set ws (factor_index w.factor) (factor_index f) w (new_factor unknown)
        (omega (arith, factor_index_lt w.factor h))

  -- A weight with all its slots that gets a factor other than `unknown` has this factor, with the value
  -- and the coefficient given, and its other factors are as before.
  pub add_factor_lem :
      (w : WeightFactor T) (ws : List (WeightFactor T)) (f : Factor)
      → length ws ≡ 7
      → w.factor ≢ unknown
      → (has_factor w.factor (add_factor w ws) ≡ true)
        × (get_factor f (add_factor w ws)
            ≡ (if factor_index w.factor == factor_index f then w else get_factor f ws))
  unfolding has_factor is_defined
  add_factor_lem w ws f l h = (
    ground (arith, get_factor-add_factor w ws w.factor l h, factor_index_lt w.factor h),
    get_factor-add_factor w ws f l h,
  )
