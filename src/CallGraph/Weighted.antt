-- ===== src/CallGraph/Weighted.antt =====
-- WeightAssigningHelper of lib/Analysis/CallGraph.cpp: the calls in assignWeights that may fail.
use program_partitioning_for.Base.{
  ℕ, ◌≡◌, refl, sym, ap, subst, ◌∙◌, Bool, true, List, [], ◌∷◌, Option, some, arith, ◌==◌, find,
  put, find-put, keys, all, contains, IsUnique, Option-cases, Bool-cases, inl, inr, ==_iff,
}
use program_partitioning_for.Base.Options.{◌>>=◌}
use program_partitioning_for.Llvm.{FunctionRef, BlockRef}
use program_partitioning_for.Pdg.{Pdg}
use program_partitioning_for.Numbers.{Scalar}
use program_partitioning_for.Partition.{Partition}
use program_partitioning_for.CallGraph.{CallGraph, Node, Edge, has_function_node}
use program_partitioning_for.CallGraph.Weights.{sensitive}
use program_partitioning_for.CallGraph.Assign.{
  FunctionData, assign_sensitive, assign_sensitive_related, assign_node_sizes, assign_call_num,
  assign_args, assign_returns, assign_in_calls, assign_out_calls, collect_function_call_site_data,
  add_to_node, with_value, related_factor,
}
use program_partitioning_for.CallGraph.Normalize.{
  weight_at, node_place, assign_node_weights, assign_edge_weights, factor_weights, assign_weights,
}
use program_partitioning_for.CallGraph.Placed.{is_some, is_placed, are_placed, normalize_all-ends}
use program_partitioning_for.CallGraph.Located.{
  find_of_key, keys-put_found, AllFound, IsUnique-AllFound, all_in_edge_places-placed,
  called_places-placed, node_places-placed,
}

module _ (s : Scalar) where
  open s use {T}

  -- The in-edges are those of the first graph.
  abbrev SameEdges : CallGraph T → CallGraph T → Type 0
  SameEdges g g1 =
      (f : FunctionRef) (n1 : Node T)
      → find f g1 ≡ some n1
      → (n : Node T) × (find f g ≡ some n) × (n.in_edges ≡ n1.in_edges)

  SameEdges-trans : (a b c : CallGraph T) → SameEdges a b → SameEdges b c → SameEdges a c
  SameEdges-trans a b c ab bc f n h =
      let (n1, h1, e1) = bc f n h in let (n2, h2, e2) = ab f n1 h1 in (n2, h2, e2 ∙ e1)

  put-SameEdges :
      (j : FunctionRef) (g : CallGraph T) (n n1 : Node T)
      → find j g ≡ some n
      → n.in_edges ≡ n1.in_edges
      → SameEdges g (put j n1 g)
  put-SameEdges j g n n1 e same f m h = elim (Bool-cases (j == f)) [
    | inl c ↦
        let one : n1 ≡ m = ground (arith, c, h, find-put j n1 g f) in
        (
          n,
          subst (λ x. find x g ≡ some n) ((==_iff j f).0 c) e,
          same ∙ ap (λ (x : Node T). x.in_edges) one,
        )
    | inr c ↦ (m, ground (arith, c, h, find-put j n1 g f), refl)
  ]

  cons-SameEdges :
      (j : FunctionRef) (n n1 : Node T) (g g1 : CallGraph T)
      → n.in_edges ≡ n1.in_edges
      → SameEdges g g1
      → SameEdges ((j, n) ∷ g) ((j, n1) ∷ g1)
  unfolding find
  cons-SameEdges j n n1 g g1 same others f m h = elim (Bool-cases (j == f)) [
    | inl c ↦
        let one : n1 ≡ m = ground (arith, c, h) in
        (n, rw c refl, same ∙ ap (λ (x : Node T). x.in_edges) one)
    | inr c ↦ let (m1, found, e) = others f m (ground (arith, c, h)) in (m1, rw c found, e)
  ]

  -- In the calls' data of a function there is a number for the source of each in-edge of its node.
  abbrev pub HasCallers : List (FunctionRef × List (FunctionRef × T)) → CallGraph T → Type 0
  HasCallers calls g =
      (f : FunctionRef) (n : Node T) (callers : List (FunctionRef × T))
      → find f g ≡ some n
      → find f calls ≡ some callers
      → all (λ (e : Edge T). contains (keys callers) e.source) n.in_edges ≡ true

  HasCallers-SameEdges :
      (calls : List (FunctionRef × List (FunctionRef × T))) (g g1 : CallGraph T)
      → SameEdges g g1
      → HasCallers calls g
      → HasCallers calls g1
  HasCallers-SameEdges calls g g1 same ok f n callers h c =
      let (m, found, e) = same f n h in
      subst (λ es. all (λ (x : Edge T). contains (keys callers) x.source) es ≡ true) e
        (ok f m callers found c)

  module _ (of_nat : ℕ → T) (divide : T → T → T) where
    assign_sensitive-ends :
        (fs : List FunctionRef) (g : CallGraph T)
        → ((f : FunctionRef) → contains fs f ≡ true → contains (keys g) f ≡ true)
        → (g1 : CallGraph T) × (assign_sensitive s of_nat divide fs g ≡ some g1)
          × (keys g1 ≡ keys g)
          × SameEdges g g1
    unfolding assign_sensitive contains add_to_node
    assign_sensitive-ends [] g h = (g, refl, refl, λ f n e. (n, e, refl))
    assign_sensitive-ends (j ∷ fs) g h =
        let (n, found) = find_of_key j g (h j (ground arith)) in
        let n1 =
          add_to_node s of_nat divide (with_value s of_nat divide sensitive s.pos_infinity) n in
        let same_keys = keys-put_found j n1 n g found in
        let (g1, rest, k, same) =
          assign_sensitive-ends fs (put j n1 g)
            (λ f c. subst (λ ks. contains ks f ≡ true) (sym same_keys) (h f (ground (arith, c)))) in
        (
          g1,
          rw (found, assign_sensitive) rest,
          k ∙ same_keys,
          SameEdges-trans g (put j n1 g) g1 (put-SameEdges j g n n1 found refl) same,
        )

    assign_sensitive_related-ends :
        (rs : List (FunctionRef × ℕ)) (g : CallGraph T)
        → ((f : FunctionRef) → contains (keys rs) f ≡ true → contains (keys g) f ≡ true)
        → (g1 : CallGraph T) × (assign_sensitive_related s of_nat divide rs g ≡ some g1)
          × (keys g1 ≡ keys g)
          × SameEdges g g1
    unfolding assign_sensitive_related contains add_to_node keys
    assign_sensitive_related-ends [] g h = (g, refl, refl, λ f n e. (n, e, refl))
    assign_sensitive_related-ends ((j, level) ∷ rs) g h =
        let (n, found) = find_of_key j g (h j (ground arith)) in
        let n1 = add_to_node s of_nat divide (related_factor s of_nat divide level) n in
        let same_keys = keys-put_found j n1 n g found in
        let (g1, rest, k, same) =
          assign_sensitive_related-ends rs (put j n1 g)
            (λ f c. subst (λ ks. contains ks f ≡ true) (sym same_keys) (h f (ground (arith, c)))) in
        (
          g1,
          rw (found, assign_sensitive_related) rest,
          k ∙ same_keys,
          SameEdges-trans g (put j n1 g) g1 (put-SameEdges j g n n1 found refl) same,
        )

    assign_node_sizes-SameEdges :
        (d : FunctionData) (g : CallGraph T)
        → (keys (assign_node_sizes s of_nat divide d g) ≡ keys g)
          × SameEdges g (assign_node_sizes s of_nat divide d g)
    unfolding assign_node_sizes keys add_to_node
    assign_node_sizes-SameEdges d [] = (refl, λ f n e. (n, e, refl))
    assign_node_sizes-SameEdges d ((j, n) ∷ g) =
        let (k, same) = assign_node_sizes-SameEdges d g in
        (
          ap (λ ks. j ∷ ks) k,
          cons-SameEdges j n _ g (assign_node_sizes s of_nat divide d g) refl same,
        )

    assign_in_calls-ends :
        (callers : List (FunctionRef × T)) (es : List (Edge T))
        → all (λ (e : Edge T). contains (keys callers) e.source) es ≡ true
        → (es1 : List (Edge T)) × (assign_in_calls s of_nat divide callers es ≡ some es1)
    unfolding assign_in_calls all
    assign_in_calls-ends callers [] h = ([], refl)
    assign_in_calls-ends callers (e ∷ es) h =
        let (c, found) = find_of_key e.source callers (ground (arith, h)) in
        let (es1, rest) = assign_in_calls-ends callers es (ground (arith, h)) in
        elim (Option-cases (assign_in_calls s of_nat divide callers (e ∷ es))) [
          | inl missing ↦ ground (arith, missing, found, rest)
          | inr made ↦ made
        ]

    assign_call_num-ends :
        (calls : List (FunctionRef × List (FunctionRef × T))) (rest g : CallGraph T)
        → AllFound s rest g
        → HasCallers calls g
        → (g1 : CallGraph T) × (assign_call_num s of_nat divide calls rest ≡ some g1)
          × (keys g1 ≡ keys rest)
    unfolding assign_call_num keys
    assign_call_num-ends calls [] g found ok = ([], refl, refl)
    assign_call_num-ends calls ((f, n) ∷ rest) g (e, found) ok =
        let (g1, others, k) = assign_call_num-ends calls rest g found ok in
        elim (Option-cases (find f calls)) [
          | inl c ↦ (
            (f, record n { out_edges = assign_out_calls s of_nat divide calls f n.out_edges }) ∷ g1,
            rw (c, assign_call_num) (rw (others, assign_call_num) refl),
            ap (λ ks. f ∷ ks) k,
          )
          | inr (callers, c) ↦
              let (es, entered) = assign_in_calls-ends callers n.in_edges (ok f n callers e c) in
              (
                (
                  f,
                  record n {
                    in_edges = es;
                    out_edges = assign_out_calls s of_nat divide calls f n.out_edges;
                  },
                )
                    ∷ g1,
                rw (c, assign_call_num)
                    (rw (entered, assign_call_num) (rw (others, assign_call_num) refl)),
                ap (λ ks. f ∷ ks) k,
              )
        ]

    keys-assign_args :
        (d : FunctionData) (g : CallGraph T) → keys (assign_args s of_nat divide d g) ≡ keys g
    unfolding assign_args keys
    keys-assign_args d [] = refl
    keys-assign_args d ((f, n) ∷ g) = ap (λ ks. f ∷ ks) (keys-assign_args d g)

    keys-assign_returns :
        (d : FunctionData) (g : CallGraph T) → keys (assign_returns s of_nat divide d g) ≡ keys g
    unfolding assign_returns keys
    keys-assign_returns d [] = refl
    keys-assign_returns d ((f, n) ∷ g) = ap (λ ks. f ∷ ks) (keys-assign_returns d g)

    factor_weights-placed :
        (secure : Partition) (calls : List (FunctionRef × List (FunctionRef × T))) (g : CallGraph T)
        → IsUnique (keys g)
        → ((f : FunctionRef) → contains secure.partition f ≡ true → contains (keys g) f ≡ true)
        → ((f : FunctionRef)
            → contains (keys secure.related_functions) f ≡ true
            → contains (keys g) f ≡ true)
        → are_placed s of_nat divide g (factor_weights s of_nat divide secure calls g) ≡ true
    unfolding are_placed factor_weights all
    factor_weights-placed secure calls g u h r =
        let found = IsUnique-AllFound s g u in
        let edges = all_in_edge_places-placed s g g found in
        rw (node_places-placed s secure.partition g h) (
          rw (node_places-placed s (keys secure.related_functions) g r) (
            rw (node_places-placed s (keys g) g (λ f c. c))
              (rw (called_places-placed s calls g g found) (rw edges refl))))

    node-placed :
        (g g1 : CallGraph T) (f : FunctionRef)
        → is_placed s g1 (node_place f) ≡ is_placed s g (node_place f)
        → contains (keys g) f ≡ true
        → has_function_node f g1 ≡ true
    unfolding is_placed is_some weight_at has_function_node
    node-placed g g1 f same c = let (n, found) = find_of_key f g c in ground (arith, same, found)

    pub assign_weights-nodes :
        (loops : FunctionRef → Option (BlockRef → Bool)) (pdg : Pdg) (d : FunctionData)
        (secure : Partition) (g : CallGraph T)
        → IsUnique (keys g)
        → ((f : FunctionRef) → contains secure.partition f ≡ true → contains (keys g) f ≡ true)
        → ((f : FunctionRef)
            → contains (keys secure.related_functions) f ≡ true
            → contains (keys g) f ≡ true)
        → HasCallers (collect_function_call_site_data s of_nat divide loops pdg) g
        → (g1 : CallGraph T) × (assign_weights s of_nat divide loops pdg d secure g ≡ some g1)
          × ((f : FunctionRef) → contains (keys g) f ≡ true → has_function_node f g1 ≡ true)
    unfolding assign_weights assign_node_weights assign_edge_weights
    assign_weights-nodes loops pdg d secure g u h r ok =
        let calls = collect_function_call_site_data s of_nat divide loops pdg in
        let (g1, first, k1, e1) = assign_sensitive-ends secure.partition g h in
        let (g2, related, k2, e2) =
          assign_sensitive_related-ends secure.related_functions g1
            (λ f c. subst (λ ks. contains ks f ≡ true) (sym k1) (r f c)) in
        let (k3, e3) = assign_node_sizes-SameEdges d g2 in
        let g3 = assign_node_sizes s of_nat divide d g2 in
        let to3 : keys g3 ≡ keys g = k3 ∙ k2 ∙ k1 in
        let same = SameEdges-trans g g2 g3 (SameEdges-trans g g1 g2 e1 e2) e3 in
        let u3 = subst IsUnique (sym to3) u in
        let (g4, called, k4) =
          assign_call_num-ends calls g3 g3 (IsUnique-AllFound s g3 u3)
            (HasCallers-SameEdges calls g g3 same ok) in
        let g5 = assign_returns s of_nat divide d (assign_args s of_nat divide d g4) in
        let to5 : keys g5 ≡ keys g =
          keys-assign_returns d (assign_args s of_nat divide d g4)
          ∙ keys-assign_args d g4
          ∙ k4
          ∙ to3 in
        let places =
          factor_weights-placed secure calls g5 (subst IsUnique (sym to5) u)
            (λ f c. subst (λ ks. contains ks f ≡ true) (sym to5) (h f c))
            (λ f c. subst (λ ks. contains ks f ≡ true) (sym to5) (r f c)) in
        let (g6, last, same_places) = normalize_all-ends s of_nat divide _ g5 places in
        (
          g6,
          rw (first, ◌>>=◌) (rw (related, ◌>>=◌) (rw (called, ◌>>=◌) last)),
          λ f c.
              node-placed g5 g6 f (same_places (node_place f))
                (subst (λ ks. contains ks f ≡ true) (sym to5) c),
        )

    -- In a call graph with one node for each of its functions, which has all functions of the secure
    -- partition and all functions related to it, and where the data of the calls has a number for the source
    -- of every in-edge of a function that it knows: assigning and normalizing the weights ends, with no
    -- failed assertion and no read past the end.
    pub assign_weights-ends :
        (loops : FunctionRef → Option (BlockRef → Bool)) (pdg : Pdg) (d : FunctionData)
        (secure : Partition) (g : CallGraph T)
        → IsUnique (keys g)
        → ((f : FunctionRef) → contains secure.partition f ≡ true → contains (keys g) f ≡ true)
        → ((f : FunctionRef)
            → contains (keys secure.related_functions) f ≡ true
            → contains (keys g) f ≡ true)
        → HasCallers (collect_function_call_site_data s of_nat divide loops pdg) g
        → (g1 : CallGraph T) × (assign_weights s of_nat divide loops pdg d secure g ≡ some g1)
    assign_weights-ends loops pdg d secure g u h r ok =
        let (g1, ends, nodes) = assign_weights-nodes loops pdg d secure g u h r ok in (g1, ends)
