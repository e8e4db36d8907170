-- ===== src/CallGraph/Infinite/Normalized.antt =====
-- WeightAssigningHelper of lib/Analysis/CallGraph.cpp: the sensitive functions after the normalization.
use program_partitioning_for.Base.{
  ℕ, ◌<◌, ◌≡◌, ◌⊎◌, refl, sym, ap, subst, Bool, true, false, List, [], ◌∷◌, Option, some, arith,
  ◌==◌, keys, map, contains, Option-cases, Bool-cases, inl, inr,
}
use program_partitioning_for.Base.Options.{some_inv}
use program_partitioning_for.Llvm.{FunctionRef, BlockRef}
use program_partitioning_for.Pdg.{Pdg}
use program_partitioning_for.Numbers.{Scalar}
use program_partitioning_for.Partition.{Partition}
use program_partitioning_for.CallGraph.{CallGraph}
use program_partitioning_for.CallGraph.Weights.{
  Factor, sensitive, sensitive_related, size, call_num, arg_num, arg_complexity, ret_complexity,
  factor_index,
}
use program_partitioning_for.CallGraph.Assign.{
  FunctionData, collect_function_call_site_data, minimum, maximum,
}
use program_partitioning_for.CallGraph.Normalize.{
  Place, node_place, weight_at, value_at, put_value, values_at, scaled, scale_each,
  normalize_factor, normalize_all, assign_node_weights, assign_edge_weights, factor_weights,
  assign_weights, called_places, all_in_edge_places,
}
use program_partitioning_for.CallGraph.Infinite.{HasInfinite, put_value-HasInfinite, AllOther}
use program_partitioning_for.CallGraph.Infinite.Assigned.{
  HasSlots, assign_node_weights-HasInfinite, assign_edge_weights-keeps,
}

module _ (s : Scalar) where
  open s use {T}

  module _ (of_nat : ℕ → T) (divide : T → T → T) where
    scale_each-keeps :
        (f : FunctionRef) (factor : Factor) (low diff : T) (ps : List Place) (g : CallGraph T)
        → factor_index factor < 7
        → ((factor_index factor == 0) ≡ false)
          ⊎ ((d : T) → scaled s of_nat divide low diff d ≡ s.pos_infinity)
        → HasInfinite s f g
        → HasInfinite s f (scale_each s of_nat divide factor low diff ps g)
    unfolding scale_each
    scale_each-keeps f factor low diff [] g h ok inf = inf
    scale_each-keeps f factor low diff (p ∷ ps) g h ok inf =
        elim (Option-cases (value_at s factor p g)) [
          | inl e ↦ rw (e, scale_each) (scale_each-keeps f factor low diff ps g h ok inf)
          | inr (d, e) ↦
              rw (e, scale_each)
                (scale_each-keeps f factor low diff ps
                  (put_value s factor p (scaled s of_nat divide low diff d) g) h ok
                  (put_value-HasInfinite s f factor p (scaled s of_nat divide low diff d) g h
                    (at_value d ok) inf))
        ]
      where
        at_value :
            (d : T)
            → ((factor_index factor == 0) ≡ false)
              ⊎ ((d1 : T) → scaled s of_nat divide low diff d1 ≡ s.pos_infinity)
            → ((factor_index factor == 0) ≡ false)
              ⊎ (scaled s of_nat divide low diff d ≡ s.pos_infinity)
        at_value d (inl x) = inl x
        at_value d (inr x) = inr (x d)

    -- A value that every element of a list has.
    AllInfinite : List T → Type 0
    AllInfinite [] = Unit {0}
    AllInfinite (x ∷ xs) = (x ≡ s.pos_infinity) × AllInfinite xs

    minimum_infinite :
        (best : T) (xs : List T)
        → best ≡ s.pos_infinity
        → AllInfinite xs
        → minimum s of_nat divide best xs ≡ s.pos_infinity
    unfolding minimum AllInfinite
    minimum_infinite best [] b all = b
    minimum_infinite best (x ∷ xs) b (e, all) = elim (Bool-cases (s.lt x best)) [
      | inl c ↦ rw (c, minimum) (minimum_infinite x xs e all)
      | inr c ↦ rw (c, minimum) (minimum_infinite best xs b all)
    ]

    maximum_infinite :
        (best : T) (xs : List T)
        → best ≡ s.pos_infinity
        → AllInfinite xs
        → maximum s of_nat divide best xs ≡ s.pos_infinity
    unfolding maximum AllInfinite
    maximum_infinite best [] b all = b
    maximum_infinite best (x ∷ xs) b (e, all) = elim (Bool-cases (s.lt best x)) [
      | inl c ↦ rw (c, maximum) (maximum_infinite x xs e all)
      | inr c ↦ rw (c, maximum) (maximum_infinite best xs b all)
    ]

    value_at_infinite :
        (f : FunctionRef) (g : CallGraph T) (v : T)
        → HasInfinite s f g
        → value_at s sensitive (node_place f) g ≡ some v
        → v ≡ s.pos_infinity
    unfolding value_at weight_at
    value_at_infinite f g v (n, found, inf) h = ground (arith, h, found, inf.1)

    values_at_infinite :
        (fs : List FunctionRef) (g : CallGraph T) (vs : List T)
        → ((f : FunctionRef) → contains fs f ≡ true → HasInfinite s f g)
        → values_at s sensitive (map node_place fs) g ≡ some vs
        → AllInfinite vs
    unfolding values_at contains AllInfinite
    values_at_infinite [] g vs all h =
        let same : ◌≡◌ {A = List T} [] vs = ground (arith, h) in subst AllInfinite same tt
    values_at_infinite (f ∷ fs) g vs all h =
        let (v, first, h1) = some_inv (value_at s sensitive (node_place f) g) _ _ h in
        let (rest, others, h2) = some_inv (values_at s sensitive (map node_place fs) g) _ _ h1 in
        let same : ◌≡◌ {A = List T} (v ∷ rest) vs = ground (arith, h2) in
        subst AllInfinite same (
          value_at_infinite f g v (all f (ground arith)) first,
          values_at_infinite fs g rest (λ j c. all j (ground (arith, c))) others,
        )

    normalize_factor-keeps :
        (f : FunctionRef) (factor : Factor) (ps : List Place) (g g1 : CallGraph T)
        → factor_index factor < 7
        → (factor_index factor == 0) ≡ false
        → HasInfinite s f g
        → normalize_factor s of_nat divide factor ps g ≡ some g1
        → HasInfinite s f g1
    unfolding normalize_factor
    normalize_factor-keeps f factor [] g g1 h n inf e =
        let same : g ≡ g1 = ground (arith, e) in subst (HasInfinite s f) same inf
    normalize_factor-keeps f factor (p ∷ ps) g g1 h n inf e =
        let (v, first, e1) = some_inv (value_at s factor p g) _ _ e in
        let (vs, rest, e2) = some_inv (values_at s factor ps g) _ _ e1 in
        let low = minimum s of_nat divide v vs in
        let diff = s.add (maximum s of_nat divide v vs) (s.minus low) in
        let same : scale_each s of_nat divide factor low diff (p ∷ ps) g ≡ g1 =
          ground (arith, e2) in
        subst (HasInfinite s f) same (scale_each-keeps f factor low diff (p ∷ ps) g h (inl n) inf)

    scaled_infinite :
        (low high d : T)
        → s.eq (s.add s.pos_infinity (s.minus s.pos_infinity)) s.zero ≡ true
        → low ≡ s.pos_infinity
        → high ≡ s.pos_infinity
        → scaled s of_nat divide low (s.add high (s.minus low)) d ≡ s.pos_infinity
    unfolding scaled
    scaled_infinite low high d law l h =
        rw
          (subst (λ x. s.eq (s.add x (s.minus low)) s.zero ≡ true) (sym h)
            (subst (λ x. s.eq (s.add s.pos_infinity (s.minus x)) s.zero ≡ true) (sym l) law))
          l

    normalize_sensitive-keeps :
        (f : FunctionRef) (fs : List FunctionRef) (g g1 : CallGraph T)
        → s.eq (s.add s.pos_infinity (s.minus s.pos_infinity)) s.zero ≡ true
        → ((j : FunctionRef) → contains fs j ≡ true → HasInfinite s j g)
        → HasInfinite s f g
        → normalize_factor s of_nat divide sensitive (map node_place fs) g ≡ some g1
        → HasInfinite s f g1
    unfolding normalize_factor contains
    normalize_sensitive-keeps f [] g g1 law all inf e =
        let same : g ≡ g1 = ground (arith, e) in subst (HasInfinite s f) same inf
    normalize_sensitive-keeps f (j ∷ fs) g g1 law all inf e =
        let (v, first, e1) = some_inv (value_at s sensitive (node_place j) g) _ _ e in
        let (vs, rest, e2) = some_inv (values_at s sensitive (map node_place fs) g) _ _ e1 in
        let v_inf = value_at_infinite j g v (all j (ground arith)) first in
        let vs_inf = values_at_infinite fs g vs (λ i c. all i (ground (arith, c))) rest in
        let low = minimum s of_nat divide v vs in
        let high = maximum s of_nat divide v vs in
        let low_inf = minimum_infinite v vs v_inf vs_inf in
        let high_inf = maximum_infinite v vs v_inf vs_inf in
        let diff = s.add high (s.minus low) in
        let same : scale_each s of_nat divide sensitive low diff (node_place j ∷ map node_place fs)
              g
            ≡ g1 =
          ground (arith, e2) in
        subst (HasInfinite s f) same (
          scale_each-keeps f sensitive low diff (node_place j ∷ map node_place fs) g (omega arith)
            (inr (λ d. scaled_infinite low high d law low_inf high_inf)) inf)

    normalize_all-keeps :
        (f : FunctionRef) (places : List (Factor × List Place)) (g g1 : CallGraph T)
        → AllOther s places
        → HasInfinite s f g
        → normalize_all s of_nat divide places g ≡ some g1
        → HasInfinite s f g1
    unfolding normalize_all
    normalize_all-keeps f [] g g1 others inf e =
        let same : g ≡ g1 = ground (arith, e) in subst (HasInfinite s f) same inf
    normalize_all-keeps f ((factor, ps) ∷ places) g g1 (h, n, others) inf e =
        let (g2, first, rest) = some_inv (normalize_factor s of_nat divide factor ps g) _ _ e in
        normalize_all-keeps f places g2 g1 others
          (normalize_factor-keeps f factor ps g g2 h n inf first) rest

    factor_weights-keeps :
        (secure : Partition) (calls : List (FunctionRef × List (FunctionRef × T)))
        (g g1 : CallGraph T) (f : FunctionRef)
        → ((j : FunctionRef) → contains secure.partition j ≡ true → HasInfinite s j g)
        → contains secure.partition f ≡ true
        → s.eq (s.add s.pos_infinity (s.minus s.pos_infinity)) s.zero ≡ true
        → normalize_all s of_nat divide (factor_weights s of_nat divide secure calls g) g ≡ some g1
        → HasInfinite s f g1
    unfolding factor_weights normalize_all factor_index
    factor_weights-keeps secure calls g g1 f inf c law h =
        let (g2, first, rest) =
          some_inv (normalize_factor s of_nat divide sensitive (map node_place secure.partition) g)
            _ _ h in
        let others : List (Factor × List Place) =
          (sensitive_related, map node_place (keys secure.related_functions))
          ∷ (size, map node_place (keys g))
          ∷ (call_num, called_places calls g)
          ∷ (arg_num, all_in_edge_places g)
          ∷ (arg_complexity, all_in_edge_places g)
          ∷ (ret_complexity, all_in_edge_places g)
          ∷ [] in
        normalize_all-keeps f others g2 g1
          (
            omega arith,
            refl,
            (
              omega arith,
              refl,
              (
                omega arith,
                refl,
                (omega arith, refl, (omega arith, refl, (omega arith, refl, tt))),
              ),
            ),
          )
          (normalize_sensitive-keeps f secure.partition g g2 law inf (inf f c) first) rest

    -- Where infinity minus infinity is zero, as it is for the code's finite infinity, and the weights of the
    -- nodes have all their slots: when the weights are assigned and normalized, every function of the
    -- secure partition has a node whose sensitivity is still infinite.
    pub assign_weights-secure :
        (loops : FunctionRef → Option (BlockRef → Bool)) (pdg : Pdg) (d : FunctionData)
        (secure : Partition) (g g1 : CallGraph T) (f : FunctionRef)
        → s.eq (s.add s.pos_infinity (s.minus s.pos_infinity)) s.zero ≡ true
        → HasSlots s of_nat divide g
        → assign_weights s of_nat divide loops pdg d secure g ≡ some g1
        → contains secure.partition f ≡ true
        → value_at s sensitive (node_place f) g1 ≡ some s.pos_infinity
    unfolding assign_weights value_at weight_at
    assign_weights-secure loops pdg d secure g g1 f law slots h c =
        let calls = collect_function_call_site_data s of_nat divide loops pdg in
        let (g2, nodes, h1) = some_inv (assign_node_weights s of_nat divide d secure g) _ _ h in
        let (g3, edges, h2) = some_inv (assign_edge_weights s of_nat divide d calls g2) _ _ h1 in
        let inf : (j : FunctionRef) → contains secure.partition j ≡ true → HasInfinite s j g3 =
          λ j cj.
            assign_edge_weights-keeps s of_nat divide j d calls g2 g3
              (assign_node_weights-HasInfinite s of_nat divide j d secure g g2 slots nodes cj)
              edges in
        let (n, found, v) = factor_weights-keeps secure calls g3 g1 f inf c law h2 in
        rw (found, value_at) (ap some v.1)
