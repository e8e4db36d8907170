-- ===== src/CallGraph/Normalize.antt =====
-- WeightAssigningHelper of lib/Analysis/CallGraph.cpp: assignWeights, with the places in the graph that
-- m_factorWeights points to.
use program_partitioning_for.Base.{
  ℕ, suc, Bool, List, [], ◌∷◌, ◌++◌, Option, none, some, if◌then◌else◌, find, put, keys, map,
  get_elem?, set,
}
use program_partitioning_for.Base.Options.{◌>>=◌}
use program_partitioning_for.Llvm.{FunctionRef, BlockRef}
use program_partitioning_for.Pdg.{Pdg}
use program_partitioning_for.Numbers.{Scalar}
use program_partitioning_for.Partition.{Partition}
use program_partitioning_for.CallGraph.{CallGraph}
use program_partitioning_for.CallGraph.Weights.{
  Factor, sensitive, sensitive_related, size, call_num, arg_num, arg_complexity, ret_complexity,
  WeightFactor, set_value, get_factor, factor_index,
}
use program_partitioning_for.CallGraph.Assign.{
  FunctionData, assign_sensitive, assign_sensitive_related, assign_node_sizes, assign_call_num,
  assign_args, assign_returns, collect_function_call_site_data, minimum, maximum,
}

-- Where a pointer of m_factorWeights points: the value of a factor in the weight of a node, or of an
-- in-edge of a node.
pub data Place : Type 0 where
  node_place : FunctionRef → Place
  edge_place : FunctionRef → ℕ → Place

-- The in-edges of a node, from number `i` on.
unfoldable pub in_edge_places {ℓ} : {A : Type ℓ} → FunctionRef → ℕ → List A → List Place
in_edge_places f i [] = []
in_edge_places f i (e ∷ es) = edge_place f i ∷ in_edge_places f (suc i) es

module _ {T : Type 0} where
  unfoldable pub all_in_edge_places : CallGraph T → List Place
  unfolding in_edge_places
  all_in_edge_places [] = []
  all_in_edge_places ((f, n) ∷ g) = in_edge_places f 0 n.in_edges ++ all_in_edge_places g

  -- The places of assignCallNumWeights: nothing is pushed for functions without call sites' data.
  unfoldable pub called_places :
      List (FunctionRef × List (FunctionRef × T)) → CallGraph T → List Place
  unfolding in_edge_places
  called_places calls [] = []
  called_places calls ((f, n) ∷ g) =
      (elim (find f calls) [ none ↦ [] | some callers ↦ in_edge_places f 0 n.in_edges ])
      ++ called_places calls g

module _ (s : Scalar) where
  open s use {T}

  -- The weight at a place.
  unfoldable pub weight_at : Place → CallGraph T → Option (List (WeightFactor T))
  unfolding find
  weight_at (node_place f) g = elim (find f g) [ none ↦ none | some n ↦ some n.weight ]
  weight_at (edge_place f i) g = elim (find f g) [
    | none ↦ none
    | some n ↦ elim (get_elem? n.in_edges i) [ none ↦ none | some e ↦ some e.weight ]
  ]

  unfoldable pub put_weight : Place → List (WeightFactor T) → CallGraph T → CallGraph T
  unfolding find put
  put_weight (node_place f) ws g = elim (find f g) [
    | none ↦ g
    | some n ↦ put f (record n { weight = ws }) g
  ]
  put_weight (edge_place f i) ws g = elim (find f g) [
    | none ↦ g
    | some n ↦ elim (get_elem? n.in_edges i) [
      | none ↦ g
      | some e ↦ put f (record n { in_edges = set n.in_edges i (record e { weight = ws }) }) g
    ]
  ]

  -- *d
  unfoldable pub value_at : Factor → Place → CallGraph T → Option T
  unfolding weight_at get_factor
  value_at factor p g = elim (weight_at p g) [
    | none ↦ none
    | some ws ↦ some (get_factor s factor ws).value
  ]

  -- *d = v
  unfoldable pub put_value : Factor → Place → T → CallGraph T → CallGraph T
  unfolding weight_at put_weight get_factor set_value factor_index
  put_value factor p v g = elim (weight_at p g) [
    | none ↦ g
    | some ws ↦ put_weight p (set ws (factor_index factor) (set_value v (get_factor s factor ws))) g
  ]

  -- What the pointers point to; each of them points into the graph.
  unfoldable pub values_at : Factor → List Place → CallGraph T → Option (List T)
  unfolding ◌>>=◌ value_at
  values_at factor [] g = some []
  values_at factor (p ∷ ps) g = do
    v ← value_at factor p g
    vs ← values_at factor ps g
    some (v ∷ vs)

  module _ (of_nat : ℕ → T) (divide : T → T → T) where
    -- The function of the for_each.
    unfoldable pub scaled : T → T → T → T
    scaled low diff d = if s.eq diff s.zero then low else divide (s.add d (s.minus low)) diff

    unfoldable pub scale_each : Factor → T → T → List Place → CallGraph T → CallGraph T
    unfolding value_at put_value scaled
    scale_each factor low diff [] g = g
    scale_each factor low diff (p ∷ ps) g =
        scale_each factor low diff ps (elim (value_at factor p g) [
          | none ↦ g
          | some d ↦ put_value factor p (scaled low diff d) g
        ])

    -- normalizeWeights of the vector of one factor; a factor that nothing was pushed for is not in the map.
    unfoldable pub normalize_factor : Factor → List Place → CallGraph T → Option (CallGraph T)
    unfolding ◌>>=◌ values_at scale_each minimum maximum
    normalize_factor factor [] g = some g
    normalize_factor factor (p ∷ ps) g = do
      v ← value_at factor p g
      vs ← values_at factor ps g
      let low = minimum s of_nat divide v vs
      let diff = s.add (maximum s of_nat divide v vs) (s.minus low)
      some (scale_each factor low diff (p ∷ ps) g)

    -- normalizeWeights of the map m_factorWeights; the factors stand in different places.
    unfoldable pub normalize_all : List (Factor × List Place) → CallGraph T → Option (CallGraph T)
    unfolding ◌>>=◌ normalize_factor
    normalize_all [] g = some g
    normalize_all ((factor, ps) ∷ rest) g = do
      g1 ← normalize_factor factor ps g
      normalize_all rest g1

    -- assignNodeWeights
    unfoldable pub assign_node_weights :
        FunctionData → Partition → CallGraph T → Option (CallGraph T)
    unfolding ◌>>=◌ assign_sensitive assign_sensitive_related assign_node_sizes
    assign_node_weights d secure g = do
      g1 ← assign_sensitive s of_nat divide secure.partition g
      g2 ← assign_sensitive_related s of_nat divide secure.related_functions g1
      some (assign_node_sizes s of_nat divide d g2)

    -- assignEdgeWeights
    unfoldable pub assign_edge_weights :
        FunctionData
        → List (FunctionRef × List (FunctionRef × T))
        → CallGraph T
        → Option (CallGraph T)
    unfolding ◌>>=◌ assign_call_num assign_args assign_returns
    assign_edge_weights d calls g = do
      g1 ← assign_call_num s of_nat divide calls g
      some (assign_returns s of_nat divide d (assign_args s of_nat divide d g1))

    -- m_factorWeights after the assignments.
    unfoldable pub factor_weights :
        Partition
        → List (FunctionRef × List (FunctionRef × T))
        → CallGraph T
        → List (Factor × List Place)
    unfolding all_in_edge_places called_places keys
    factor_weights secure calls g =
        (sensitive, map node_place secure.partition)
        ∷ (sensitive_related, map node_place (keys secure.related_functions))
        ∷ (size, map node_place (keys g))
        ∷ (call_num, called_places calls g)
        ∷ (arg_num, all_in_edge_places g)
        ∷ (arg_complexity, all_in_edge_places g)
        ∷ (ret_complexity, all_in_edge_places g)
        ∷ []

    -- CallGraph::assignWeights, which is assignWeights of a new helper: none where an assertion fails, or a
    -- caller is missing in the data of the call sites.
    unfoldable pub assign_weights :
        (FunctionRef → Option (BlockRef → Bool))
        → Pdg
        → FunctionData
        → Partition
        → CallGraph T
        → Option (CallGraph T)
    unfolding ◌>>=◌ assign_node_weights assign_edge_weights factor_weights normalize_all
        collect_function_call_site_data
    assign_weights loops pdg d secure g = do
      let calls = collect_function_call_site_data s of_nat divide loops pdg
      g1 ← assign_node_weights d secure g
      g2 ← assign_edge_weights d calls g1
      normalize_all (factor_weights secure calls g2) g2
