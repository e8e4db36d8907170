-- ===== src/CallGraph/Infinite/Assigned.antt =====
-- WeightAssigningHelper of lib/Analysis/CallGraph.cpp: the sensitive functions during the assignments.
use program_partitioning_for.Base.{
  ℕ, ◌<◌, ◌≡◌, refl, ap, subst, ◌∙◌, true, false, List, [], ◌∷◌, some, arith, ◌==◌, find, put,
  find-put, length, length-set, get_or-set, contains, Option-cases, Bool-cases, inl, inr,
}
use program_partitioning_for.Base.Options.{some_inv}
use program_partitioning_for.Llvm.{FunctionRef}
use program_partitioning_for.Numbers.{Scalar}
use program_partitioning_for.Partition.{Partition}
use program_partitioning_for.CallGraph.{CallGraph, Node, Edge}
use program_partitioning_for.CallGraph.Weights.{
  sensitive, size, unknown, WeightFactor, new_factor, set_value, set_coef, get_factor, factor_index,
  add_factor,
}
use program_partitioning_for.CallGraph.Assign.{
  FunctionData, assign_sensitive, assign_sensitive_related, assign_node_sizes, assign_call_num,
  assign_args, assign_returns, assign_in_calls, assign_out_calls, add_to_node, with_value,
  related_factor,
}
use program_partitioning_for.CallGraph.Normalize.{assign_node_weights, assign_edge_weights}
use program_partitioning_for.CallGraph.Infinite.{
  IsInfinite, HasInfinite, set-IsInfinite, put-HasInfinite, cons-HasInfinite,
}

module _ (s : Scalar) where
  open s use {T}

  module _ (of_nat : ℕ → T) (divide : T → T → T) where
    pub add_to_node-IsInfinite :
        (w : WeightFactor T) (n : Node T)
        → factor_index w.factor < 7
        → (factor_index w.factor == 0) ≡ false
        → IsInfinite s n.weight
        → IsInfinite s (add_to_node s of_nat divide w n).weight
    unfolding add_to_node add_factor
    add_to_node-IsInfinite w n h ok inf =
        set-IsInfinite s w n.weight (factor_index w.factor) h (inl ok) inf

    pub sensitive_node : Node T → Node T
    sensitive_node n =
        add_to_node s of_nat divide (with_value s of_nat divide sensitive s.pos_infinity) n

    pub sensitive_node-IsInfinite :
        (n : Node T) → length n.weight ≡ 7 → IsInfinite s (sensitive_node n).weight
    unfolding sensitive_node add_to_node add_factor set_value factor_index get_factor
    sensitive_node-IsInfinite n l =
        let w = with_value s of_nat divide sensitive s.pos_infinity in
        (
          length-set n.weight 0 w ∙ l,
          ap (λ (x : WeightFactor T). x.value)
              (get_or-set n.weight 0 0 w (new_factor s unknown) (omega (arith, l))),
        )

    pub assign_sensitive-keeps :
        (f : FunctionRef) (fs : List FunctionRef) (g g1 : CallGraph T)
        → HasInfinite s f g
        → assign_sensitive s of_nat divide fs g ≡ some g1
        → HasInfinite s f g1
    unfolding assign_sensitive sensitive_node
    assign_sensitive-keeps f [] g g1 inf h =
        let same : g ≡ g1 = ground (arith, h) in subst (HasInfinite s f) same inf
    assign_sensitive-keeps f (j ∷ fs) g g1 inf h = elim (Option-cases (find j g)) [
      | inl e ↦ ground (arith, e, h)
      | inr (n, e) ↦
          assign_sensitive-keeps f fs (put j (sensitive_node n) g) g1
            (put-HasInfinite s f j g n (sensitive_node n) e (λ i. sensitive_node-IsInfinite n i.0)
              inf)
            (rw (e, assign_sensitive) at h)
    ]

    -- Every weight in the nodes has all its slots.
    abbrev pub HasSlots : CallGraph T → Type 0
    HasSlots g = (f : FunctionRef) (n : Node T) → find f g ≡ some n → length n.weight ≡ 7

    pub put-HasSlots :
        (j : FunctionRef) (g : CallGraph T) (n1 : Node T)
        → length n1.weight ≡ 7
        → HasSlots g
        → HasSlots (put j n1 g)
    put-HasSlots j g n1 l slots f n h = elim (Bool-cases (j == f)) [
      | inl e ↦
          let same : n1 ≡ n = ground (arith, e, h, find-put j n1 g f) in
          subst (λ (x : Node T). length x.weight ≡ 7) same l
      | inr e ↦ slots f n (ground (arith, e, h, find-put j n1 g f))
    ]

    pub assign_sensitive-HasInfinite :
        (f : FunctionRef) (fs : List FunctionRef) (g g1 : CallGraph T)
        → HasSlots g
        → assign_sensitive s of_nat divide fs g ≡ some g1
        → contains fs f ≡ true
        → HasInfinite s f g1
    unfolding assign_sensitive sensitive_node contains
    assign_sensitive-HasInfinite f [] g g1 slots h c = ground (arith, c)
    assign_sensitive-HasInfinite f (j ∷ fs) g g1 slots h c = elim (Option-cases (find j g)) [
      | inl e ↦ ground (arith, e, h)
      | inr (n, e) ↦
          let inf = sensitive_node-IsInfinite n (slots j n e) in
          let rest = rw (e, assign_sensitive) at h in
          elim (Bool-cases (j == f)) [
            | inl e' ↦
                assign_sensitive-keeps f fs (put j (sensitive_node n) g) g1
                  (sensitive_node n, find-put j (sensitive_node n) g f ∙ rw e' refl, inf) rest
            | inr e' ↦
                assign_sensitive-HasInfinite f fs (put j (sensitive_node n) g) g1
                  (put-HasSlots j g (sensitive_node n) inf.0 slots) rest (ground (arith, c, e'))
          ]
    ]

    pub assign_sensitive_related-keeps :
        (f : FunctionRef) (rs : List (FunctionRef × ℕ)) (g g1 : CallGraph T)
        → HasInfinite s f g
        → assign_sensitive_related s of_nat divide rs g ≡ some g1
        → HasInfinite s f g1
    unfolding assign_sensitive_related related_factor set_coef set_value new_factor factor_index
    assign_sensitive_related-keeps f [] g g1 inf h =
        let same : g ≡ g1 = ground (arith, h) in subst (HasInfinite s f) same inf
    assign_sensitive_related-keeps f ((j, level) ∷ rs) g g1 inf h = elim (Option-cases (find j g)) [
      | inl e ↦ ground (arith, e, h)
      | inr (n, e) ↦
          let w = related_factor s of_nat divide level in
          assign_sensitive_related-keeps f rs (put j (add_to_node s of_nat divide w n) g) g1
            (put-HasInfinite s f j g n (add_to_node s of_nat divide w n) e
              (add_to_node-IsInfinite w n (omega arith) refl) inf)
            (rw (e, assign_sensitive_related) at h)
    ]

    pub assign_node_sizes-keeps :
        (f : FunctionRef) (d : FunctionData) (g : CallGraph T)
        → HasInfinite s f g
        → HasInfinite s f (assign_node_sizes s of_nat divide d g)
    unfolding assign_node_sizes find factor_index set_value new_factor
    assign_node_sizes-keeps f d [] inf = inf
    assign_node_sizes-keeps f d ((j, m) ∷ g) inf =
        let w = with_value s of_nat divide size (of_nat (d.function_size j)) in
        cons-HasInfinite s f j m (add_to_node s of_nat divide w m) g
          (assign_node_sizes s of_nat divide d g) (add_to_node-IsInfinite w m (omega arith) refl)
          (assign_node_sizes-keeps f d g) inf

    pub assign_args-keeps :
        (f : FunctionRef) (d : FunctionData) (g : CallGraph T)
        → HasInfinite s f g
        → HasInfinite s f (assign_args s of_nat divide d g)
    unfolding assign_args find
    assign_args-keeps f d [] inf = inf
    assign_args-keeps f d ((j, m) ∷ g) inf =
        cons-HasInfinite s f j m _ g (assign_args s of_nat divide d g) (λ x. x)
          (assign_args-keeps f d g) inf

    pub assign_returns-keeps :
        (f : FunctionRef) (d : FunctionData) (g : CallGraph T)
        → HasInfinite s f g
        → HasInfinite s f (assign_returns s of_nat divide d g)
    unfolding assign_returns find
    assign_returns-keeps f d [] inf = inf
    assign_returns-keeps f d ((j, m) ∷ g) inf =
        cons-HasInfinite s f j m _ g (assign_returns s of_nat divide d g) (λ x. x)
          (assign_returns-keeps f d g) inf

    pub assign_call_num_inv :
        (calls : List (FunctionRef × List (FunctionRef × T))) (j : FunctionRef) (m : Node T)
        (g g1 : CallGraph T)
        → assign_call_num s of_nat divide calls ((j, m) ∷ g) ≡ some g1
        → (es : List (Edge T)) × (g2 : CallGraph T) × (assign_call_num s of_nat divide calls g
            ≡ some g2)
          × (◌≡◌ {A = CallGraph T}
              ((
                j,
                record m {
                  in_edges = es;
                  out_edges = assign_out_calls s of_nat divide calls j m.out_edges;
                },
              )
                ∷ g2)
              g1)
    unfolding assign_call_num
    assign_call_num_inv calls j m g g1 h = elim (Option-cases (find j calls)) [
      | inl e ↦ elim (Option-cases (assign_call_num s of_nat divide calls g)) [
        | inl r ↦ ground (arith, h, e, r)
        | inr (g2, r) ↦ (m.in_edges, g2, r, ground (arith, h, e, r))
      ]
      | inr (callers, e) ↦
          elim (Option-cases (assign_in_calls s of_nat divide callers m.in_edges)) [
            | inl i ↦ ground (arith, h, e, i)
            | inr (es, i) ↦ elim (Option-cases (assign_call_num s of_nat divide calls g)) [
              | inl r ↦ ground (arith, h, e, i, r)
              | inr (g2, r) ↦ (es, g2, r, ground (arith, h, e, i, r))
            ]
          ]
    ]

    pub assign_call_num-keeps :
        (f : FunctionRef) (calls : List (FunctionRef × List (FunctionRef × T))) (g g1 : CallGraph T)
        → HasInfinite s f g
        → assign_call_num s of_nat divide calls g ≡ some g1
        → HasInfinite s f g1
    unfolding assign_call_num find
    assign_call_num-keeps f calls [] g1 inf h =
        let same : ◌≡◌ {A = CallGraph T} [] g1 = ground (arith, h) in
        subst (HasInfinite s f) same inf
    assign_call_num-keeps f calls ((j, m) ∷ g) g1 inf h =
        let (es, g2, rest, same) = assign_call_num_inv calls j m g g1 h in
        let m1 : Node T = record m {
          in_edges = es;
          out_edges = assign_out_calls s of_nat divide calls j m.out_edges;
        } in
        subst (HasInfinite s f) same (
          cons-HasInfinite s f j m m1 g g2 (λ x. x) (λ i. assign_call_num-keeps f calls g g2 i rest)
            inf)

    pub assign_node_weights-HasInfinite :
        (f : FunctionRef) (d : FunctionData) (secure : Partition) (g g1 : CallGraph T)
        → HasSlots g
        → assign_node_weights s of_nat divide d secure g ≡ some g1
        → contains secure.partition f ≡ true
        → HasInfinite s f g1
    unfolding assign_node_weights
    assign_node_weights-HasInfinite f d secure g g1 slots h c =
        let (g2, first, h1) =
          some_inv (assign_sensitive s of_nat divide secure.partition g) _ _ h in
        let (g3, related, h2) =
          some_inv (assign_sensitive_related s of_nat divide secure.related_functions g2) _ _ h1 in
        let same : assign_node_sizes s of_nat divide d g3 ≡ g1 = ground (arith, h2) in
        subst (HasInfinite s f) same (
          assign_node_sizes-keeps f d g3 (
            assign_sensitive_related-keeps f secure.related_functions g2 g3
              (assign_sensitive-HasInfinite f secure.partition g g2 slots first c) related))

    pub assign_edge_weights-keeps :
        (f : FunctionRef) (d : FunctionData) (calls : List (FunctionRef × List (FunctionRef × T)))
        (g g1 : CallGraph T)
        → HasInfinite s f g
        → assign_edge_weights s of_nat divide d calls g ≡ some g1
        → HasInfinite s f g1
    unfolding assign_edge_weights
    assign_edge_weights-keeps f d calls g g1 inf h =
        let (g2, first, h1) = some_inv (assign_call_num s of_nat divide calls g) _ _ h in
        let same : assign_returns s of_nat divide d (assign_args s of_nat divide d g2) ≡ g1 =
          ground (arith, h1) in
        subst (HasInfinite s f) same (
          assign_returns-keeps f d (assign_args s of_nat divide d g2)
            (assign_args-keeps f d g2 (assign_call_num-keeps f calls g g2 inf first)))
