-- ===== src/CallGraph/Infinite.antt =====
-- WeightAssigningHelper of lib/Analysis/CallGraph.cpp: the weight of the sensitive functions after the
-- normalization.
pub mod Assigned
pub mod Normalized
use program_partitioning_for.Base.{
  ℕ, zero, suc, ◌<◌, ◌≡◌, ◌⊎◌, refl, sym, ap, subst, ◌∙◌, Bool, true, false, List, [], ◌∷◌, ◌++◌,
  Option, none, some, arith, ◌==◌, if◌then◌else◌, find, put, find-put, keys, map, length,
  length-set, get_or-set, get_or, set, get_elem?, contains, Option-cases, Bool-cases, inl, inr,
  ==_iff,
}
use program_partitioning_for.Base.Options.{◌>>=◌, some_inv}
use program_partitioning_for.Llvm.{FunctionRef, BlockRef}
use program_partitioning_for.Pdg.{Pdg}
use program_partitioning_for.Numbers.{Scalar}
use program_partitioning_for.Partition.{Partition}
use program_partitioning_for.CallGraph.{CallGraph, Node, Edge}
use program_partitioning_for.CallGraph.Weights.{
  Factor, sensitive, sensitive_related, size, call_num, arg_num, arg_complexity, ret_complexity,
  unknown, WeightFactor, new_factor, set_value, set_coef, get_factor, factor_index, add_factor,
}
use program_partitioning_for.CallGraph.Assign.{
  FunctionData, assign_sensitive, assign_sensitive_related, assign_node_sizes, assign_call_num,
  assign_args, assign_returns, assign_in_calls, assign_out_calls, collect_function_call_site_data,
  minimum, maximum, add_to_node, with_value, related_factor,
}
use program_partitioning_for.CallGraph.Normalize.{
  Place, node_place, edge_place, weight_at, put_weight, value_at, put_value, values_at, scaled,
  scale_each, normalize_factor, normalize_all, assign_node_weights, assign_edge_weights,
  factor_weights, assign_weights, called_places, all_in_edge_places,
}

module _ (s : Scalar) where
  open s use {T}

  -- A weight with all its slots and the value for a sensitive function.
  abbrev pub IsInfinite : List (WeightFactor T) → Type 0
  IsInfinite ws = (length ws ≡ 7) × ((get_factor s sensitive ws).value ≡ s.pos_infinity)

  abbrev pub HasInfinite : FunctionRef → CallGraph T → Type 0
  HasInfinite f g = (n : Node T) × (find f g ≡ some n) × IsInfinite n.weight

  pub set-IsInfinite :
      (w : WeightFactor T) (ws : List (WeightFactor T)) (i : ℕ)
      → i < 7
      → ((i == 0) ≡ false) ⊎ (w.value ≡ s.pos_infinity)
      → IsInfinite ws
      → IsInfinite (set ws i w)
  unfolding get_factor factor_index
  set-IsInfinite w ws i h ok (l, v) =
      let slot = get_or-set ws i 0 w (new_factor s unknown) (omega (arith, h, l)) in
      (
        length-set ws i w ∙ l,
        elim (Bool-cases (i == 0)) [
          | inl e ↦
              subst (λ (x : WeightFactor T). x.value ≡ s.pos_infinity) (sym (rw e at slot))
                (infinite e ok)
          | inr e ↦ subst (λ (x : WeightFactor T). x.value ≡ s.pos_infinity) (sym (rw e at slot)) v
        ],
      )
    where
      infinite :
          (i == 0) ≡ true
          → ((i == 0) ≡ false) ⊎ (w.value ≡ s.pos_infinity)
          → w.value ≡ s.pos_infinity
      infinite e (inl n) = ground (arith, e, n)
      infinite e (inr same) = same

  pub put-HasInfinite :
      (f j : FunctionRef) (g : CallGraph T) (n n1 : Node T)
      → find j g ≡ some n
      → (IsInfinite n.weight → IsInfinite n1.weight)
      → HasInfinite f g
      → HasInfinite f (put j n1 g)
  put-HasInfinite f j g n n1 e keep (m, found, inf) = elim (Bool-cases (j == f)) [
    | inl same ↦
        let at_f : find f g ≡ some n = subst (λ x. find x g ≡ some n) ((==_iff j f).0 same) e in
        let one : m ≡ n = ground (arith, found, at_f) in
        (
          n1,
          find-put j n1 g f ∙ rw same refl,
          keep (subst (λ (x : Node T). IsInfinite x.weight) one inf),
        )
    | inr other ↦ (m, find-put j n1 g f ∙ rw other found, inf)
  ]

  -- A value for another factor, or the infinity, is written.
  pub put_value-HasInfinite :
      (f : FunctionRef) (factor : Factor) (p : Place) (v : T) (g : CallGraph T)
      → factor_index factor < 7
      → ((factor_index factor == 0) ≡ false) ⊎ (v ≡ s.pos_infinity)
      → HasInfinite f g
      → HasInfinite f (put_value s factor p v g)
  unfolding put_value weight_at put_weight
  put_value-HasInfinite f factor (node_place j) v g h ok inf = elim (Option-cases (find j g)) [
    | inl e ↦ rw (e, put_value) inf
    | inr (n, e) ↦
        let new = set n.weight (factor_index factor) (set_value v (get_factor s factor n.weight)) in
        rw (e, put_value)
          (rw (e, put_weight)
            (put-HasInfinite f j g n (record n { weight = new }) e
              (λ i.
                set-IsInfinite (set_value v (get_factor s factor n.weight)) n.weight
                  (factor_index factor) h ok i)
              inf))
  ]
  put_value-HasInfinite f factor (edge_place j i) v g h ok inf = elim (Option-cases (find j g)) [
    | inl e ↦ rw (e, put_value) inf
    | inr (n, e) ↦ elim (Option-cases (get_elem? n.in_edges i)) [
      | inl e' ↦ rw (e, put_value) (rw (e', put_value) inf)
      | inr (edge, e') ↦
          let new =
            set edge.weight (factor_index factor) (set_value v (get_factor s factor edge.weight)) in
          rw (e, put_value)
            (rw (e', put_value)
              (rw (e, put_weight)
                (rw (e', put_weight)
                  (put-HasInfinite f j g n
                    (record n { in_edges = set n.in_edges i (record edge { weight = new }) }) e
                    (λ x. x) inf))))
    ]
  ]

  -- The factors but the first, with places.
  abbrev pub AllOther : List (Factor × List Place) → Type 0
  AllOther [] = Unit {0}
  AllOther ((factor, ps) ∷ rest) =
      (factor_index factor < 7) × ((factor_index factor == 0) ≡ false) × AllOther rest

  -- A change of the first node and a change of the others.
  pub cons-HasInfinite :
      (f j : FunctionRef) (m m1 : Node T) (g g1 : CallGraph T)
      → (IsInfinite m.weight → IsInfinite m1.weight)
      → (HasInfinite f g → HasInfinite f g1)
      → HasInfinite f ((j, m) ∷ g)
      → HasInfinite f ((j, m1) ∷ g1)
  unfolding find
  cons-HasInfinite f j m m1 g g1 first others (n, found, inf) = elim (Bool-cases (j == f)) [
    | inl e ↦
        let same : n ≡ m = ground (arith, e, found) in
        (m1, rw (e, find) refl, first (subst (λ (x : Node T). IsInfinite x.weight) same inf))
    | inr e ↦
        let (n1, found1, inf1) = others (n, ground (arith, e, found), inf) in
        (n1, rw (e, find) found1, inf1)
  ]
