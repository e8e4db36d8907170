-- ===== src/Partitioner/Traversal.antt =====
-- The traversals of lib/Analysis/Partitioner.cpp: PartitionForAnnotation and the loops of the classes
-- derived from it. A std::list that is pushed to at its front and popped from at its back is a list
-- whose head is the back.
use Prim.Native.String.{String}
use program_partitioning_for.Base.{
  ℕ, zero, suc, ◌+◌, min, Bool, true, false, not, ◌&&◌, ◌||◌, List, [], ◌∷◌, ◌++◌, Option, none,
  some, ◌==◌, if◌then◌else◌, find, put, contains, insert, map,
}
use program_partitioning_for.Llvm.{FunctionRef, ValueRef, Module, null}
use program_partitioning_for.Pdg.{Pdg, PdgNodes, NodeRef}
use program_partitioning_for.Partition.{Partition, add_related_function}

-- Annotation of include/Utils/Annotation.h
pub record Annotation : Type 0 where
  pub annotation : String
  pub function : FunctionRef
  pub arguments : List ℕ
  pub is_return : Bool

-- The working list, processed_values, the list that traverseForward makes, and m_functionLevels and
-- m_partition.
pub record Walk : Type 0 where
  pub work : List NodeRef
  pub seen : List ValueRef
  pub result : List NodeRef
  pub levels : List (FunctionRef × ℕ)
  pub partition : Partition

-- The state in which a loop begins.
unfoldable pub start_walk : List NodeRef → List (FunctionRef × ℕ) → Partition → Walk
start_walk work levels p = record {
  work = work;
  seen = [];
  result = [];
  levels = levels;
  partition = p;
}

-- updateFunctionLevel
unfoldable pub update_function_level :
    FunctionRef → FunctionRef → List (FunctionRef × ℕ) → List (FunctionRef × ℕ)
update_function_level current new levels =
    if new == null || current == null then levels else elim (find current levels) [
      | none ↦ levels
      | some l ↦
          let level = if new == current then l else l + 1 in
          elim (find new levels) [
            | none ↦ put new level levels
            | some old ↦ put new (min level old) levels
          ]
    ]

-- PartitionForAnnotation::addRelatedFunction: none is the failed assertion.
unfoldable pub relate : FunctionRef → Walk → Option Walk
relate f w = elim (find f w.levels) [
  | none ↦ none
  | some level ↦ some (record w { partition = add_related_function f level w.partition })
]

-- canProcessNode
unfoldable pub can_process_node : PdgNodes → NodeRef → Bool
can_process_node ns n = not (ns.is_constant_node n) && not (ns.is_null_node n)

-- The loop over a node's edges at the end of each traversal: `others` are their other ends.
unfoldable pub push_nodes : PdgNodes → FunctionRef → List NodeRef → Walk → Walk
unfolding can_process_node update_function_level
push_nodes ns current [] w = w
push_nodes ns current (n ∷ others) w = push_nodes ns current others (
    if can_process_node ns n
    then record w {
      work = w.work ++ n ∷ [];
      levels = update_function_level current (ns.parent n) w.levels;
    }
    else w)

-- A function node ends a branch of the traversal.
unfoldable pub visit_function : Module → Annotation → FunctionRef → Walk → Option Walk
unfolding relate
visit_function m a f w = if f == a.function || m.is_declaration f then some w else relate f w

module _ (m : Module) (pdg : Pdg) (ns : PdgNodes) (a : Annotation) where
  -- One round of the loop in PartitionForReturnValue::traverse, for a node that was popped.
  unfoldable pub visit_return : NodeRef → Walk → Option Walk
  unfolding visit_function push_nodes
  visit_return n w =
      let value = ns.node_value n in
      let w' = if value == null then w else record w { seen = insert value w.seen } in
      if not (ns.is_llvm_node n) || (not (value == null) && contains w.seen value)
      then some w
      else elim (pdg.function_node n) [
        | some f ↦ visit_function m a f w'
        | none ↦ some (push_nodes ns (ns.parent n) (map (λ e. e.source) (pdg.in_edges n)) w')
      ]

  -- One round of the loop in traverseBackward.
  unfoldable pub visit_backward : NodeRef → Walk → Option Walk
  unfolding visit_function push_nodes
  visit_backward n w =
      let value = ns.node_value n in
      let w' = if ns.is_instruction_node n then record w { seen = insert value w.seen } else w in
      if not (ns.is_llvm_node n)
        || value == null
        || (ns.is_instruction_node n && contains w.seen value)
      then some w
      else elim (pdg.function_node n) [
        | some f ↦ visit_function m a f w'
        | none ↦ some (push_nodes ns (ns.parent n) (map (λ e. e.source) (pdg.in_edges n)) w')
      ]

  -- One edge of the loop in collectNodesForActualArg.
  unfoldable pub collect_formal : NodeRef → NodeRef → Walk → Option Walk
  unfolding relate update_function_level
  collect_formal n dest w = elim (ns.formal_arg_function dest) [
    | none ↦ some w
    | some f ↦
        let pushed = λ (v : Walk). record v { work = v.work ++ dest ∷ [] } in
        if not (pdg.has_function_pdg f)
        then some w
        else (if m.is_declaration f
            then some (pushed w)
            else elim (relate f
                (record w { levels = update_function_level (ns.parent n) f w.levels })) [
                  | none ↦ none
                  | some w' ↦ some (pushed w')
                ])
  ]

  unfoldable pub collect_formals : NodeRef → List NodeRef → Walk → Option Walk
  unfolding collect_formal
  collect_formals n [] w = some w
  collect_formals n (dest ∷ dests) w = elim (collect_formal n dest w) [
    | none ↦ none
    | some w' ↦ collect_formals n dests w'
  ]

  -- collectNodesForActualArg, for any node: nothing is collected for other classes of nodes.
  unfoldable pub collect_nodes_for_actual_arg : NodeRef → Walk → Option Walk
  unfolding collect_formals
  collect_nodes_for_actual_arg n w = elim (ns.actual_arg_is_pointer n) [
    | none ↦ some w
    | some false ↦ some w
    | some true ↦ collect_formals n (map (λ e. e.destination) (pdg.out_edges n)) w
  ]

  -- The value that a store instruction stores goes to the list for traverseBackward.
  unfoldable pub add_stored : ValueRef → Walk → Walk
  add_stored value w = elim (ns.store_operand value) [
    | none ↦ w
    | some operand ↦ elim (ns.node_of a.function operand) [
      | none ↦ w
      | some node ↦ record w { result = node ∷ w.result }
    ]
  ]

  -- One round of the loop in traverseForward.
  unfoldable pub visit_forward : NodeRef → Walk → Option Walk
  unfolding visit_function push_nodes collect_nodes_for_actual_arg add_stored
  visit_forward n w =
      let value = ns.node_value n in
      let w' = if ns.is_instruction_node n then record w { seen = insert value w.seen } else w in
      if not (ns.is_llvm_node n)
        || value == null
        || (ns.is_instruction_node n && contains w.seen value)
      then some w
      else elim (pdg.function_node n) [
        | some f ↦ visit_function m a f w'
        | none ↦ elim (collect_nodes_for_actual_arg n w') [
          | none ↦ none
          | some w'' ↦ some (
              push_nodes ns (ns.parent n) (map (λ e. e.destination) (pdg.out_edges n))
                (add_stored value w''))
        ]
      ]

-- A `while` loop over the working list; none is out of fuel, or a failed assertion of a round.
unfoldable pub walk : (NodeRef → Walk → Option Walk) → ℕ → Walk → Option Walk
walk visit zero w = elim w.work [ [] ↦ some w | _ ∷ _ ↦ none ]
walk visit (suc fuel) w = elim w.work [
  | [] ↦ some w
  | n ∷ rest ↦ elim (visit n (record w { work = rest })) [
    | none ↦ none
    | some w' ↦ walk visit fuel w'
  ]
]

-- collectFunctionReturnNodes: a node for each return instruction that has one, in reverse order.
unfoldable pub add_return_nodes :
    PdgNodes → FunctionRef → List ValueRef → List NodeRef → List NodeRef
add_return_nodes ns f [] acc = acc
add_return_nodes ns f (v ∷ vs) acc =
    add_return_nodes ns f vs (elim (ns.node_of f v) [ none ↦ acc | some n ↦ n ∷ acc ])

unfoldable pub return_nodes : PdgNodes → FunctionRef → List NodeRef
unfolding add_return_nodes
return_nodes ns f = add_return_nodes ns f (ns.return_insts f) []
