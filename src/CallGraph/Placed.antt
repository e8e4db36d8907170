-- ===== src/CallGraph/Placed.antt =====
-- WeightAssigningHelper of lib/Analysis/CallGraph.cpp: the normalization of places in the graph.
use program_partitioning_for.Base.{
  ℕ, zero, suc, ◌≡◌, refl, subst, ◌∙◌, Bool, true, false, List, [], ◌∷◌, Option, none, some, arith,
  ◌==◌, find, put, find-put, set, get_elem?, all, Option-cases, Bool-cases, inl, inr, ==_iff,
}
use program_partitioning_for.Base.Options.{◌>>=◌}
use program_partitioning_for.Llvm.{FunctionRef}
use program_partitioning_for.Numbers.{Scalar}
use program_partitioning_for.CallGraph.{CallGraph, Node}
use program_partitioning_for.CallGraph.Weights.{Factor, set_value, get_factor, factor_index}
use program_partitioning_for.CallGraph.Assign.{minimum, maximum}
use program_partitioning_for.CallGraph.Normalize.{
  Place, node_place, edge_place, weight_at, put_weight, value_at, put_value, values_at, scaled,
  scale_each, normalize_factor, normalize_all,
}

unfoldable pub is_some {ℓ} : {A : Type ℓ} → Option A → Bool
is_some none = false
is_some (some a) = true

get_elem?-set_some {ℓ} :
    {A : Type ℓ} (xs : List A) (i k : ℕ) (x : A)
    → is_some (get_elem? (set xs i x) k) ≡ is_some (get_elem? xs k)
unfolding is_some
get_elem?-set_some [] i k x = ground arith
get_elem?-set_some (y ∷ xs) zero zero x = refl
get_elem?-set_some (y ∷ xs) zero (suc k) x = refl
get_elem?-set_some (y ∷ xs) (suc i) zero x = refl
get_elem?-set_some (y ∷ xs) (suc i) (suc k) x = get_elem?-set_some xs i k x

module _ (s : Scalar) where
  open s use {T}

  -- The place is in the graph.
  unfoldable pub is_placed : CallGraph T → Place → Bool
  unfolding weight_at is_some
  is_placed g p = is_some (weight_at s p g)

  put-is_placed :
      (j : FunctionRef) (g : CallGraph T) (n n1 : Node T) (q : Place)
      → find j g ≡ some n
      → ((i : ℕ) → is_some (get_elem? n1.in_edges i) ≡ is_some (get_elem? n.in_edges i))
      → is_placed (put j n1 g) q ≡ is_placed g q
  unfolding is_placed weight_at is_some
  put-is_placed j g n n1 (node_place k) e same = elim (Bool-cases (j == k)) [
    | inl c ↦
        let at_k : find k g ≡ some n = subst (λ x. find x g ≡ some n) ((==_iff j k).0 c) e in
        ground (arith, find-put j n1 g k, c, at_k)
    | inr c ↦ ground (arith, find-put j n1 g k, c)
  ]
  put-is_placed j g n n1 (edge_place k i) e same = elim (Bool-cases (j == k)) [
    | inl c ↦
        let at_k : find k g ≡ some n = subst (λ x. find x g ≡ some n) ((==_iff j k).0 c) e in
        ground (arith, find-put j n1 g k, c, at_k, same i)
    | inr c ↦ ground (arith, find-put j n1 g k, c)
  ]

  put_value-is_placed :
      (factor : Factor) (p : Place) (v : T) (g : CallGraph T) (q : Place)
      → is_placed (put_value s factor p v g) q ≡ is_placed g q
  unfolding put_value weight_at put_weight
  put_value-is_placed factor (node_place j) v g q = elim (Option-cases (find j g)) [
    | inl e ↦ rw (e, put_value) refl
    | inr (n, e) ↦
        let new = set n.weight (factor_index factor) (set_value v (get_factor s factor n.weight)) in
        rw (e, put_value)
          (rw (e, put_weight) (put-is_placed j g n (record n { weight = new }) q e (λ i. refl)))
  ]
  put_value-is_placed factor (edge_place j i) v g q = elim (Option-cases (find j g)) [
    | inl e ↦ rw (e, put_value) refl
    | inr (n, e) ↦ elim (Option-cases (get_elem? n.in_edges i)) [
      | inl e' ↦ rw (e, put_value) (rw (e', put_value) refl)
      | inr (edge, e') ↦
          let new =
            set edge.weight (factor_index factor) (set_value v (get_factor s factor edge.weight)) in
          let edges = set n.in_edges i (record edge { weight = new }) in
          rw (e, put_value)
            (rw (e', put_value)
              (rw (e, put_weight)
                (rw (e', put_weight)
                  (put-is_placed j g n (record n { in_edges = edges }) q e
                    (λ k. get_elem?-set_some n.in_edges i k (record edge { weight = new }))))))
    ]
  ]

  value_at-is_placed :
      (factor : Factor) (p : Place) (g : CallGraph T)
      → is_placed g p ≡ true
      → (v : T) × (value_at s factor p g ≡ some v)
  unfolding is_placed value_at is_some
  value_at-is_placed factor p g h = elim (Option-cases (weight_at s p g)) [
    | inl e ↦ ground (arith, e, h)
    | inr (ws, e) ↦ ((get_factor s factor ws).value, rw (e, value_at) refl)
  ]

  values_at-is_placed :
      (factor : Factor) (ps : List Place) (g : CallGraph T)
      → all (is_placed g) ps ≡ true
      → (vs : List T) × (values_at s factor ps g ≡ some vs)
  unfolding values_at all
  values_at-is_placed factor [] g h = ([], refl)
  values_at-is_placed factor (p ∷ ps) g h =
      let (v, first) = value_at-is_placed factor p g (ground (arith, h)) in
      let (vs, rest) = values_at-is_placed factor ps g (ground (arith, h)) in
      (v ∷ vs, rw (first, ◌>>=◌) (rw (rest, ◌>>=◌) refl))

  all-is_placed :
      (ps : List Place) (g g1 : CallGraph T)
      → ((q : Place) → is_placed g1 q ≡ is_placed g q)
      → all (is_placed g) ps ≡ true
      → all (is_placed g1) ps ≡ true
  unfolding all
  all-is_placed [] g g1 same h = refl
  all-is_placed (p ∷ ps) g g1 same h =
      let rest = all-is_placed ps g g1 same (ground (arith, h)) in ground (arith, h, same p, rest)

  module _ (of_nat : ℕ → T) (divide : T → T → T) where
    scale_each-is_placed :
        (factor : Factor) (low diff : T) (ps : List Place) (g : CallGraph T) (q : Place)
        → is_placed (scale_each s of_nat divide factor low diff ps g) q ≡ is_placed g q
    unfolding scale_each
    scale_each-is_placed factor low diff [] g q = refl
    scale_each-is_placed factor low diff (p ∷ ps) g q =
        elim (Option-cases (value_at s factor p g)) [
          | inl e ↦ rw (e, scale_each) (scale_each-is_placed factor low diff ps g q)
          | inr (d, e) ↦
              let v = scaled s of_nat divide low diff d in
              rw (e, scale_each)
                (scale_each-is_placed factor low diff ps (put_value s factor p v g) q
                  ∙ put_value-is_placed factor p v g q)
        ]

    normalize_factor-ends :
        (factor : Factor) (ps : List Place) (g : CallGraph T)
        → all (is_placed g) ps ≡ true
        → (g1 : CallGraph T) × (normalize_factor s of_nat divide factor ps g ≡ some g1)
          × ((q : Place) → is_placed g1 q ≡ is_placed g q)
    unfolding normalize_factor all
    normalize_factor-ends factor [] g h = (g, refl, λ q. refl)
    normalize_factor-ends factor (p ∷ ps) g h =
        let (v, first) = value_at-is_placed factor p g (ground (arith, h)) in
        let (vs, rest) = values_at-is_placed factor ps g (ground (arith, h)) in
        let low = minimum s of_nat divide v vs in
        let diff = s.add (maximum s of_nat divide v vs) (s.minus low) in
        (
          scale_each s of_nat divide factor low diff (p ∷ ps) g,
          rw (first, ◌>>=◌) (rw (rest, ◌>>=◌) refl),
          scale_each-is_placed factor low diff (p ∷ ps) g,
        )

    -- Places of several factors.
    unfoldable pub are_placed : CallGraph T → List (Factor × List Place) → Bool
    unfolding all
    are_placed g places = all (λ (x : Factor × List Place). all (is_placed g) x.1) places

    are_placed-kept :
        (places : List (Factor × List Place)) (g g1 : CallGraph T)
        → ((q : Place) → is_placed g1 q ≡ is_placed g q)
        → are_placed g places ≡ true
        → are_placed g1 places ≡ true
    unfolding are_placed all
    are_placed-kept [] g g1 same h = refl
    are_placed-kept ((factor, ps) ∷ places) g g1 same h =
        let first = all-is_placed ps g g1 same (ground (arith, h)) in
        let rest = are_placed-kept places g g1 same (ground (arith, h)) in
        ground (arith, first, rest)

    pub normalize_all-ends :
        (places : List (Factor × List Place)) (g : CallGraph T)
        → are_placed g places ≡ true
        → (g1 : CallGraph T) × (normalize_all s of_nat divide places g ≡ some g1)
          × ((q : Place) → is_placed g1 q ≡ is_placed g q)
    unfolding normalize_all are_placed all
    normalize_all-ends [] g h = (g, refl, λ q. refl)
    normalize_all-ends ((factor, ps) ∷ places) g h =
        let (g1, first, same) = normalize_factor-ends factor ps g (ground (arith, h)) in
        let (g2, rest, same2) =
          normalize_all-ends places g1 (are_placed-kept places g g1 same (ground (arith, h))) in
        (g2, rw (first, ◌>>=◌) rest, λ q. same2 q ∙ same q)
