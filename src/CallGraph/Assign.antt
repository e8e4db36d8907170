-- ===== src/CallGraph/Assign.antt =====
-- WeightAssigningHelper of lib/Analysis/CallGraph.cpp: the factors of the nodes and the edges.
use program_partitioning_for.Base.{
  ℕ, suc, ◌+◌, ◌*◌, ◌/◌, Bool, false, List, [], ◌∷◌, Option, none, some, ◌==◌, if◌then◌else◌, find,
  put,
}
use program_partitioning_for.Llvm.{FunctionRef, BlockRef, CallSite}
use program_partitioning_for.Pdg.{Pdg}
use program_partitioning_for.Numbers.{Scalar, is_pos_infinity, increment}
use program_partitioning_for.CallGraph.{CallGraph, Node, Edge}
use program_partitioning_for.CallGraph.Weights.{
  Factor, sensitive, sensitive_related, size, call_num, arg_num, arg_complexity, ret_complexity,
  WeightFactor, new_factor, set_value, set_coef, add_factor,
}

abbrev pub loop_cost : ℕ
loop_cost = 1000

-- The classes of llvm::Type that getTypeComplexity tells apart.
mutual
  pub data LlvmType : Type 0 where
    struct_type : LlvmTypes → LlvmType
    array_type vector_type : ℕ → LlvmType → LlvmType
    pointer_type function_type other_type : LlvmType

  pub data LlvmTypes : Type 0 where
    no_types : LlvmTypes
    more_types : LlvmType → LlvmTypes → LlvmTypes

-- getTypeComplexity, for types whose complexity is in the range of `int`.
unfoldable mutual
  pub get_type_complexity : LlvmType → ℕ
  get_type_complexity (struct_type ts) = sum_type_complexity ts
  get_type_complexity (array_type n t) = n * get_type_complexity t
  get_type_complexity (vector_type n t) = n * get_type_complexity t
  get_type_complexity pointer_type = 0
  get_type_complexity function_type = 0
  get_type_complexity other_type = 1

  pub sum_type_complexity : LlvmTypes → ℕ
  sum_type_complexity no_types = 0
  sum_type_complexity (more_types t ts) = get_type_complexity t + sum_type_complexity ts

-- getArgComplexity
unfoldable pub get_arg_complexity : List LlvmType → ℕ
unfolding get_type_complexity
get_arg_complexity [] = 0
get_arg_complexity (t ∷ ts) = get_type_complexity t + get_arg_complexity ts

-- What the weights depend on in a function: Utils::getFunctionSize and the types.
pub record FunctionData : Type 0 where
  pub function_size : FunctionRef → ℕ
  pub arg_types : FunctionRef → List LlvmType
  pub return_type : FunctionRef → LlvmType

abbrev count : List LlvmType → ℕ
count [] = 0
count (t ∷ ts) = suc (count ts)

-- `of_nat` and `divide` are the conversion from `int` and the division of `double`.
module _ (s : Scalar) (of_nat : ℕ → s.T) (divide : s.T → s.T → s.T) where
  open s use {T}

  -- One call site in collectFunctionCallSiteData.
  unfoldable pub add_call_site :
      (FunctionRef → Option (BlockRef → Bool))
      → CallSite
      → List (FunctionRef × T)
      → List (FunctionRef × T)
  add_call_site loops site costs =
      let calls : T = elim (find site.caller costs) [ none ↦ s.zero | some c ↦ c ] in
      let looped : Bool = elim (loops site.caller) [
        | none ↦ false
        | some has_loop ↦ has_loop site.parent
      ] in
      if looped
      then put site.caller (of_nat loop_cost) costs
      else (if is_pos_infinity s calls
          then put site.caller calls costs
          else put site.caller (increment s calls) costs)

  unfoldable pub add_call_sites :
      (FunctionRef → Option (BlockRef → Bool))
      → List CallSite
      → List (FunctionRef × T)
      → List (FunctionRef × T)
  unfolding add_call_site
  add_call_sites loops [] costs = costs
  add_call_sites loops (site ∷ sites) costs =
      add_call_sites loops sites (add_call_site loops site costs)

  collect_from :
      (FunctionRef → Option (BlockRef → Bool))
      → Pdg
      → List FunctionRef
      → List (FunctionRef × List (FunctionRef × T))
      → List (FunctionRef × List (FunctionRef × T))
  unfolding add_call_sites
  collect_from loops pdg [] acc = acc
  collect_from loops pdg (f ∷ fs) acc =
      let old : List (FunctionRef × T) = elim (find f acc) [ none ↦ [] | some costs ↦ costs ] in
      collect_from loops pdg fs (put f (add_call_sites loops (pdg.call_sites f) old) acc)

  -- collectFunctionCallSiteData
  unfoldable pub collect_function_call_site_data :
      (FunctionRef → Option (BlockRef → Bool)) → Pdg → List (FunctionRef × List (FunctionRef × T))
  unfolding collect_from
  collect_function_call_site_data loops pdg = collect_from loops pdg pdg.function_pdgs []

  abbrev pub with_value : Factor → T → WeightFactor T
  with_value factor v = set_value v (new_factor s factor)

  unfoldable pub add_to_node : WeightFactor T → Node T → Node T
  add_to_node w n = record n { weight = add_factor w n.weight }

  add_to_edge : WeightFactor T → Edge T → Edge T
  add_to_edge w e = record e { weight = add_factor w e.weight }

  -- assignSensitiveNodeWeights; none is a failed assertion of getFunctionNode.
  unfoldable pub assign_sensitive : List FunctionRef → CallGraph T → Option (CallGraph T)
  unfolding add_to_node
  assign_sensitive [] g = some g
  assign_sensitive (f ∷ fs) g = elim (find f g) [
    | none ↦ none
    | some n ↦ assign_sensitive fs (put f (add_to_node (with_value sensitive s.pos_infinity) n) g)
  ]

  -- The value in assignSensitiveRelatedNodeWeights: both divisions are divisions of `int`.
  unfoldable pub related_factor : ℕ → WeightFactor T
  related_factor level =
      set_coef (of_nat loop_cost)
        (with_value sensitive_related (of_nat (if level == 0 then 1 / loop_cost else 1 / level)))

  -- assignSensitiveRelatedNodeWeights
  unfoldable pub assign_sensitive_related :
      List (FunctionRef × ℕ) → CallGraph T → Option (CallGraph T)
  unfolding related_factor add_to_node
  assign_sensitive_related [] g = some g
  assign_sensitive_related ((f, level) ∷ rest) g = elim (find f g) [
    | none ↦ none
    | some n ↦ assign_sensitive_related rest (put f (add_to_node (related_factor level) n) g)
  ]

  -- assignNodeSizeWeights
  unfoldable pub assign_node_sizes : FunctionData → CallGraph T → CallGraph T
  unfolding add_to_node
  assign_node_sizes d [] = []
  assign_node_sizes d ((f, n) ∷ g) =
      (f, add_to_node (with_value size (of_nat (d.function_size f))) n) ∷ assign_node_sizes d g

  -- The first loop of assignCallNumWeights, over the in-edges of one node; a caller that is missing in the
  -- data would be a read past the end, which is none here.
  unfoldable pub assign_in_calls : List (FunctionRef × T) → List (Edge T) → Option (List (Edge T))
  unfolding add_to_edge
  assign_in_calls calls [] = some []
  assign_in_calls calls (e ∷ es) = elim (find e.source calls) [
    | none ↦ none
    | some c ↦ elim (assign_in_calls calls es) [
      | none ↦ none
      | some es' ↦ some (add_to_edge (with_value call_num c) e ∷ es')
    ]
  ]

  -- The second loop, over the out-edges.
  unfoldable pub assign_out_calls :
      List (FunctionRef × List (FunctionRef × T)) → FunctionRef → List (Edge T) → List (Edge T)
  unfolding add_to_edge
  assign_out_calls calls caller [] = []
  assign_out_calls calls caller (e ∷ es) =
      let rest = assign_out_calls calls caller es in
      elim (find e.sink calls) [
        | none ↦ e ∷ rest
        | some callers ↦ elim (find caller callers) [
          | none ↦ e ∷ rest
          | some c ↦ add_to_edge (with_value call_num c) e ∷ rest
        ]
      ]

  -- assignCallNumWeights, with both loops for each node: neither reads what the other writes.
  unfoldable pub assign_call_num :
      List (FunctionRef × List (FunctionRef × T)) → CallGraph T → Option (CallGraph T)
  unfolding assign_in_calls assign_out_calls
  assign_call_num calls [] = some []
  assign_call_num calls ((f, n) ∷ g) =
      let rest = assign_call_num calls g in
      let entered : Option (List (Edge T)) = elim (find f calls) [
        | none ↦ some n.in_edges
        | some callers ↦ assign_in_calls callers n.in_edges
      ] in
      elim entered [
        | none ↦ none
        | some es ↦ elim rest [
          | none ↦ none
          | some g' ↦ some (
              (f, record n { in_edges = es; out_edges = assign_out_calls calls f n.out_edges })
              ∷ g')
        ]
      ]

  assign_in_args : FunctionData → FunctionRef → List (Edge T) → List (Edge T)
  unfolding add_to_edge
  assign_in_args d f [] = []
  assign_in_args d f (e ∷ es) =
      add_to_edge (with_value arg_complexity (of_nat (get_arg_complexity (d.arg_types f))))
        (add_to_edge (with_value arg_num (of_nat (count (d.arg_types f)))) e)
      ∷ assign_in_args d f es

  -- assignArgWeights
  unfoldable pub assign_args : FunctionData → CallGraph T → CallGraph T
  unfolding assign_in_args
  assign_args d [] = []
  assign_args d ((f, n) ∷ g) =
      (f, record n { in_edges = assign_in_args d f n.in_edges }) ∷ assign_args d g

  assign_in_returns : FunctionData → FunctionRef → List (Edge T) → List (Edge T)
  unfolding add_to_edge
  assign_in_returns d f [] = []
  assign_in_returns d f (e ∷ es) =
      add_to_edge (with_value ret_complexity (of_nat (get_type_complexity (d.return_type f)))) e
      ∷ assign_in_returns d f es

  -- assignRetValueWeights
  unfoldable pub assign_returns : FunctionData → CallGraph T → CallGraph T
  unfolding assign_in_returns
  assign_returns d [] = []
  assign_returns d ((f, n) ∷ g) =
      (f, record n { in_edges = assign_in_returns d f n.in_edges }) ∷ assign_returns d g

  -- min_element and max_element of normalizeWeights, as values.
  unfoldable pub minimum : T → List T → T
  minimum best [] = best
  minimum best (x ∷ xs) = minimum (if s.lt x best then x else best) xs

  unfoldable pub maximum : T → List T → T
  maximum best [] = best
  maximum best (x ∷ xs) = maximum (if s.lt best x then x else best) xs

  scale : T → T → List T → List T
  scale low diff [] = []
  scale low diff (x ∷ xs) =
      (if s.eq diff s.zero then low else divide (s.add x (s.minus low)) diff) ∷ scale low diff xs

  -- normalizeWeights of the values of one factor; of no values it would read past the end.
  unfoldable pub normalize_weights : List T → List T
  unfolding minimum maximum scale
  normalize_weights [] = []
  normalize_weights (x ∷ xs) =
      let low = minimum x xs in
      let diff = s.add (maximum x xs) (s.minus low) in scale low diff (x ∷ xs)
