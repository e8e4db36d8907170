-- ===== src/KernighanLin.antt =====
-- lib/Optimization/KLOptimizationPass.cpp and lib/Optimization/KLOptimizer.cpp: one pass of
-- Kernighan-Lin moves of functions from the insecure to the secure partition.
pub mod Prefix
pub mod Moves
pub mod Run
use Prim.Native.String.{String}
use text.Mathlib.Text.{◌==◌ as str_eq}
use program_partitioning_for.Base.{
  ℕ, zero, suc, ◌+◌, Bool, true, false, not, ◌&&◌, List, [], ◌∷◌, ◌++◌, Option, none, some,
  if◌then◌else◌, find, put, emplace, select, take, drop, remove_at, get_or, length,
}
use program_partitioning_for.Base.Options.{◌>>=◌}
use program_partitioning_for.Llvm.{FunctionRef, Module}
use program_partitioning_for.Numbers.{Scalar, plus, difference, le}
use program_partitioning_for.CallGraph.{CallGraph, Node, Edge, has_function_node}
use program_partitioning_for.CallGraph.Weights.{
  call_num, sensitive_related, size, get_factor, has_factor, factor_weight,
}
use program_partitioning_for.Partition.{
  Partition, add_to_partition, remove_from_partition, remove_related_function, contains_function,
}

-- The state of a pass. m_functionEdgeCosts and m_functionCosts are made before the moves begin.
pub record Pass (T : Type 0) : Type 0 where
  pub candidates : List FunctionRef
  pub move_gains : List T
  pub function_move_gains : List (FunctionRef × T)
  pub secure : Partition
  pub insecure : Partition

-- KLOptimizer::collectPassCandidates
unfoldable pub collect_pass_candidates : Module → Partition → List FunctionRef
collect_pass_candidates m insecure =
    select
      (λ f. not (m.is_declaration f) && not (m.is_intrinsic f) && not (str_eq (m.name f) "main"))
      insecure.partition

module _ (s : Scalar) where
  open s use {T}

  -- getWeight().getFactor(CALL_NUM).getWeight()
  abbrev call_weight : Edge T → T
  call_weight e = factor_weight s (get_factor s call_num e.weight)

  -- operator[] of a map of costs: a missing entry is a default-constructed Double.
  abbrev cost_of : FunctionRef → List (FunctionRef × T) → T
  cost_of f m = elim (find f m) [ none ↦ s.zero | some c ↦ c ]

  -- operator[] of the map of maps
  abbrev costs_of :
      FunctionRef → List (FunctionRef × List (FunctionRef × T)) → List (FunctionRef × T)
  costs_of f m = elim (find f m) [ none ↦ [] | some c ↦ c ]

  -- edgeCosts[...] += weight, over the in-edges and over the out-edges
  unfoldable pub add_in_costs : List (Edge T) → List (FunctionRef × T) → List (FunctionRef × T)
  add_in_costs [] m = m
  add_in_costs (e ∷ es) m =
      add_in_costs es (put e.source (plus s (cost_of e.source m) (call_weight e)) m)

  unfoldable pub add_out_costs : List (Edge T) → List (FunctionRef × T) → List (FunctionRef × T)
  add_out_costs [] m = m
  add_out_costs (e ∷ es) m =
      add_out_costs es (put e.sink (plus s (cost_of e.sink m) (call_weight e)) m)

  -- computeCandidateEdgeCosts
  unfoldable pub compute_candidate_edge_costs :
      CallGraph T
      → List FunctionRef
      → List (FunctionRef × List (FunctionRef × T))
      → List (FunctionRef × List (FunctionRef × T))
  unfolding add_in_costs add_out_costs
  compute_candidate_edge_costs g [] costs = costs
  compute_candidate_edge_costs g (f ∷ fs) costs =
      compute_candidate_edge_costs g fs (elim (find f g) [
        | none ↦ costs
        | some node ↦
            put f (add_out_costs node.out_edges (add_in_costs node.in_edges (costs_of f costs)))
              costs
      ])

  -- The cost of one node: what relates it to sensitive code, less its size, in plain arithmetic on T.
  unfoldable pub node_cost : Node T → T
  node_cost node =
      let related =
        if has_factor s sensitive_related node.weight
        then factor_weight s (get_factor s sensitive_related node.weight)
        else s.zero in
      let own_size =
        if has_factor s size node.weight
        then factor_weight s (get_factor s size node.weight)
        else s.zero in
      s.add related (s.minus own_size)

  -- computeNodeCosts
  unfoldable pub compute_node_costs :
      CallGraph T → List FunctionRef → List (FunctionRef × T) → List (FunctionRef × T)
  unfolding node_cost
  compute_node_costs g [] costs = costs
  compute_node_costs g (f ∷ fs) costs =
      compute_node_costs g fs
        (elim (find f g) [ none ↦ costs | some node ↦ emplace f (node_cost node) costs ])

  -- getFunctionCosts: the internal cost (calls within the insecure partition) and the external one.
  in_costs : Partition → List (Edge T) → T × T → T × T
  in_costs insecure [] acc = acc
  in_costs insecure (e ∷ es) (internal, external) = in_costs insecure es (
      if contains_function insecure e.source
      then (plus s internal (call_weight e), external)
      else (internal, plus s external (call_weight e)))

  out_costs : Partition → List (Edge T) → T × T → T × T
  out_costs insecure [] acc = acc
  out_costs insecure (e ∷ es) (internal, external) = out_costs insecure es (
      if contains_function insecure e.sink
      then (plus s internal (call_weight e), external)
      else (internal, plus s external (call_weight e)))

  unfoldable pub get_function_costs : Partition → Node T → T × T
  unfolding in_costs out_costs
  get_function_costs insecure node =
      out_costs insecure node.out_edges (in_costs insecure node.in_edges (s.zero, s.zero))

  -- One round of computeInitialMoveGains: none is the failed assertion that the candidate has a node.
  unfoldable pub initial_move_gain :
      CallGraph T → List (FunctionRef × T) → Partition → FunctionRef → Option T
  unfolding get_function_costs
  initial_move_gain g node_costs insecure f = elim (find f g) [
    | none ↦ none
    | some node ↦
        let costs = get_function_costs insecure node in
        some (plus s (difference s costs.1 costs.0) (cost_of f node_costs))
  ]

  -- computeInitialMoveGains
  unfoldable pub compute_initial_move_gains :
      CallGraph T → List (FunctionRef × T) → Partition → List FunctionRef → Option (List T)
  unfolding initial_move_gain ◌>>=◌
  compute_initial_move_gains g node_costs insecure [] = some []
  compute_initial_move_gains g node_costs insecure (f ∷ fs) = do
    gain ← initial_move_gain g node_costs insecure f
    gains ← compute_initial_move_gains g node_costs insecure fs
    some (gain ∷ gains)

  -- The other branch of computeMoveGains: twice the edge cost with the function moved last is added.
  unfoldable pub update_move_gains :
      List (FunctionRef × List (FunctionRef × T)) → FunctionRef → List FunctionRef → List T → List T
  update_move_gains edge_costs moved [] gains = gains
  update_move_gains edge_costs moved (f ∷ fs) [] = []
  update_move_gains edge_costs moved (f ∷ fs) (gain ∷ gains) =
      plus s gain (s.mul (s.add s.one s.one) (cost_of moved (costs_of f edge_costs)))
      ∷ update_move_gains edge_costs moved fs gains

  -- std::max_element: the position of the first of the greatest. `best` is the greatest so far, at
  -- position `at`, and the list begins at position `i`.
  unfoldable pub max_element_from : T → ℕ → ℕ → List T → ℕ
  max_element_from best at i [] = at
  max_element_from best at i (x ∷ xs) =
      max_element_from (if s.lt best x then x else best) (if s.lt best x then i else at) (i + 1) xs

  unfoldable pub max_element : List T → ℕ
  unfolding max_element_from
  max_element [] = 0
  max_element (x ∷ xs) = max_element_from x 0 1 xs

  -- moveFunction(idx)
  unfoldable pub move_function : ℕ → Pass T → Pass T
  move_function idx p =
      let f = get_or p.candidates idx 0 in
      record {
        candidates = remove_at idx p.candidates;
        move_gains = remove_at idx p.move_gains;
        function_move_gains = p.function_move_gains ++ (f, get_or p.move_gains idx s.zero) ∷ [];
        secure = add_to_partition f p.secure;
        insecure = remove_from_partition f p.insecure;
      }

  -- What a pass looks up: the graph, m_functionEdgeCosts and m_functionCosts.
  pub record Costs : Type 0 where
    pub graph : CallGraph T
    pub edge_costs : List (FunctionRef × List (FunctionRef × T))
    pub node_costs : List (FunctionRef × T)

  -- computeMoveGains: with no function moved yet the gains are made anew.
  unfoldable pub compute_move_gains : Costs → Option FunctionRef → Pass T → Option (List T)
  unfolding compute_initial_move_gains update_move_gains
  compute_move_gains c none p =
      compute_initial_move_gains c.graph c.node_costs p.insecure p.candidates
  compute_move_gains c (some moved) p =
      some (update_move_gains c.edge_costs moved p.candidates p.move_gains)

  -- The rest of a round of the `while` loop of `run`, with the gains.
  unfoldable pub move_best : List T → Pass T → Option FunctionRef × Pass T
  unfolding max_element move_function
  move_best gains p =
      let idx = max_element gains in
      (some (get_or p.candidates idx 0), move_function idx (record p { move_gains = gains }))

  -- One round of the loop; none is a failed assertion.
  unfoldable pub round : Costs → Option FunctionRef → Pass T → Option (Option FunctionRef × Pass T)
  unfolding ◌>>=◌ compute_move_gains move_best
  round c moved p = do gains ← compute_move_gains c moved p; some (move_best gains p)

  -- The loop; none means that an assertion failed, or that the fuel ran out.
  unfoldable pub move_loop : Costs → ℕ → Option FunctionRef → Pass T → Option (Pass T)
  move_loop c zero moved p = elim p.candidates [ [] ↦ some p | _ ∷ _ ↦ none ]
  move_loop c (suc fuel) moved p = elim p.candidates [
    | [] ↦ some p
    | _ ∷ _ ↦ elim (round c moved p) [ none ↦ none | some next ↦ move_loop c fuel next.0 next.1 ]
  ]

  -- The first loop of applyOptimization: how many moves to keep, idx + 1. `at` moves have been seen,
  -- with the sum `intmd`, and `best` of them had the greatest sum, `max_gain`.
  unfoldable pub best_prefix : T → T → ℕ → ℕ → List (FunctionRef × T) → ℕ
  best_prefix max_gain intmd best at [] = best
  best_prefix max_gain intmd best at ((f, gain) ∷ rest) =
      let sum = plus s intmd gain in
      best_prefix (if le s max_gain sum then sum else max_gain) sum
        (if le s max_gain sum then at + 1 else best) (at + 1) rest

  -- The second loop: a move is taken back.
  unfoldable pub revert_moves :
      List (FunctionRef × T) → Partition × Partition → Partition × Partition
  revert_moves [] (secure, insecure) = (secure, insecure)
  revert_moves ((f, gain) ∷ rest) (secure, insecure) =
      revert_moves rest (remove_from_partition f secure, add_to_partition f insecure)

  -- The third loop.
  unfoldable pub remove_related : List (FunctionRef × T) → Partition → Partition
  remove_related [] secure = secure
  remove_related ((f, gain) ∷ rest) secure = remove_related rest (remove_related_function f secure)

  -- applyOptimization: the two partitions after it.
  unfoldable pub apply_optimization : Pass T → Partition × Partition
  unfolding best_prefix revert_moves remove_related
  apply_optimization p =
      let kept = best_prefix s.zero s.zero 0 0 p.function_move_gains in
      let (secure, insecure) =
        revert_moves (drop kept p.function_move_gains) (p.secure, p.insecure) in
      (remove_related (take kept p.function_move_gains) secure, insecure)

  -- The state before the first round of `run`.
  unfoldable pub start_pass : List FunctionRef → Partition → Partition → Pass T
  start_pass candidates secure insecure = record {
    candidates = candidates;
    move_gains = [];
    function_move_gains = [];
    secure = secure;
    insecure = insecure;
  }

  unfoldable pub costs_for : CallGraph T → List FunctionRef → Costs
  unfolding compute_candidate_edge_costs compute_node_costs
  costs_for g candidates = record {
    graph = g;
    edge_costs = compute_candidate_edge_costs g candidates [];
    node_costs = compute_node_costs g candidates [];
  }

  -- setCandidates and run of a fresh KLOptimizationPass, with fuel for a round for each candidate.
  unfoldable pub run_pass :
      CallGraph T → List FunctionRef → Partition → Partition → Option (Partition × Partition)
  unfolding move_loop round start_pass costs_for apply_optimization
  run_pass g candidates secure insecure =
      elim (move_loop (costs_for g candidates) (length candidates) none
        (start_pass candidates secure insecure)) [
          | none ↦ none
          | some p ↦ some (apply_optimization p)
        ]

  -- KLOptimizer::run
  unfoldable pub run_optimizer :
      Module → CallGraph T → Partition → Partition → Option (Partition × Partition)
  unfolding collect_pass_candidates run_pass
  run_optimizer m g secure insecure =
      run_pass g (collect_pass_candidates m insecure) secure insecure
