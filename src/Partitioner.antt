-- ===== src/Partitioner.antt =====
-- lib/Analysis/Partitioner.cpp: the two partitions that the annotations of a program lead to. Traversals
-- of the dependence graph (in Partitioner/Traversal) relate functions to an annotated one.
pub mod Traversal
pub mod Complement
pub mod Bounds
pub mod Returns
pub mod Functions
pub mod Annotated
use Prim.Native.String.{String}
use program_partitioning_for.Base.{
  ℕ, ◌≡◌, Bool, true, false, not, ◌&&◌, ◌||◌, List, [], ◌∷◌, Option, none, some, ◌==◌,
  if◌then◌else◌, any, map, select, emplace, contains,
}
use program_partitioning_for.Base.Options.{◌>>=◌}
use program_partitioning_for.Llvm.{FunctionRef, GlobalRef, Module, Signatures, null}
use program_partitioning_for.Pdg.{Pdg, PdgNodes, PdgEdge, NodeRef}
use program_partitioning_for.Partition.{
  Partition, empty, add_to_partition, add_partition_to_partition, contains_function, set_globals,
  set_in_interface, set_out_interface,
}
use program_partitioning_for.PartitionUtils.{compute_in_interface, compute_out_interface}
use Traversal.{
  Annotation, Walk, start_walk, visit_forward, visit_backward, visit_return, walk, return_nodes,
}

-- PartitionForFunction::partition
unfoldable pub partition_for_function : Annotation → Partition
partition_for_function a = if a.function == null then empty else add_to_partition a.function empty

-- Utils::getNodeParent of lib/Utils/Utils.cpp: none is a failed assertion, on a formal argument and on an
-- instruction node without an instruction; null where no class of nodes fits. The branch for formal
-- arguments is never reached.
unfoldable pub get_node_parent : Pdg → PdgNodes → NodeRef → Option FunctionRef
get_node_parent pdg ns n = elim (ns.formal_arg_function n) [
  | some f ↦ none
  | none ↦
      if not (ns.is_llvm_node n)
      then some null
      else (if ns.is_instruction_node n
          then ns.instruction_function n
          else elim (ns.va_arg_function n) [
            | some f ↦ some f
            | none ↦ elim (ns.actual_arg_caller n) [
              | some f ↦ some f
              | none ↦ elim (ns.block_function n) [
                | some f ↦ some f
                | none ↦ elim (pdg.function_node n) [
                  | some f ↦ some f
                  | none ↦ elim (ns.phi_function n) [ some f ↦ some f | none ↦ some null ]
                ]
              ]
            ]
          ])
]

-- The loops over the edges of a global in PartitionGlobals::partition: whether a node at their other ends
-- belongs to the partition.
unfoldable pub any_contained : Pdg → PdgNodes → Partition → List NodeRef → Option Bool
unfolding ◌>>=◌ get_node_parent
any_contained pdg ns p [] = some false
any_contained pdg ns p (n ∷ rest) = do
  f ← get_node_parent pdg ns n
  others ← any_contained pdg ns p rest
  some (contains_function p f || others)

-- One round of PartitionGlobals::partition: whether a global has an edge from or to the partition; none is
-- a failed assertion, which a global without a node makes too.
unfoldable pub is_referenced : Pdg → PdgNodes → Partition → GlobalRef → Option Bool
unfolding ◌>>=◌ any_contained
is_referenced pdg ns p g = do
  node ← ns.global_node g
  from ← any_contained pdg ns p (map (λ (e : PdgEdge). e.source) (pdg.in_edges node))
  to ← any_contained pdg ns p (map (λ (e : PdgEdge). e.destination) (pdg.out_edges node))
  some (from || to)

-- PartitionGlobals::partition and getReferencedGlobals, from the globals of the module.
unfoldable pub referenced_globals :
    Pdg → PdgNodes → Partition → List GlobalRef → Option (List GlobalRef)
unfolding ◌>>=◌ is_referenced
referenced_globals pdg ns p [] = some []
referenced_globals pdg ns p (g ∷ gs) = do
  found ← is_referenced pdg ns p g
  rest ← referenced_globals pdg ns p gs
  some (if found then g ∷ rest else rest)

-- The end of `partition` and of computeInsecurePartition, where `globals` are those found.
unfoldable pub with_globals : Pdg → Partition → List GlobalRef → Partition
with_globals pdg p globals =
    let q = set_globals globals p in
    set_out_interface (compute_out_interface q.partition pdg)
      (set_in_interface (compute_in_interface q.partition pdg) q)

unfoldable pub complete : Module → Pdg → PdgNodes → Partition → Option Partition
unfolding ◌>>=◌ referenced_globals with_globals
complete m pdg ns p = do
  globals ← referenced_globals pdg ns p m.globals
  some (with_globals pdg p globals)

-- The loop of computeInsecurePartition.
unfoldable pub add_others : Partition → List FunctionRef → Partition → Partition
add_others secure [] insecure = insecure
add_others secure (f ∷ fs) insecure =
    add_others secure fs
      (if contains_function secure f then insecure else add_to_partition f insecure)

-- Partitioner::computeInsecurePartition
unfoldable pub compute_insecure_partition :
    Module → Pdg → PdgNodes → Partition → Partition → Option Partition
unfolding complete add_others
compute_insecure_partition m pdg ns secure insecure =
    complete m pdg ns (add_others secure m.functions insecure)

module _ (m : Module) (types : Signatures) (pdg : Pdg) (ns : PdgNodes) where
  -- PartitionForReturnValue::canPartition
  unfoldable pub can_partition_return : Annotation → Bool
  can_partition_return a =
      a.is_return && not (types.returns_void a.function) && pdg.has_function_pdg a.function

  -- PartitionForReturnValue::traverse and partition; none: out of fuel, or a failed assertion.
  unfoldable pub partition_for_return : ℕ → Annotation → Option Partition
  unfolding can_partition_return
  partition_for_return fuel a =
      if can_partition_return a
      then elim (walk (visit_return m pdg ns a) fuel (
          start_walk (return_nodes ns a.function) (emplace a.function 0 [])
            (add_to_partition a.function empty))) [ none ↦ none | some w ↦ some w.partition ]
      else some empty

  -- The test of the types in PartitionForArguments::canPartition.
  all_pointers : FunctionRef → List ℕ → Bool
  all_pointers f args = not (any (λ i. not (types.arg_is_pointer f i)) args)

  -- PartitionForArguments::canPartition
  unfoldable pub can_partition_arguments : Annotation → Bool
  unfolding all_pointers
  can_partition_arguments a = elim a.arguments [
    | [] ↦ false
    | _ ∷ _ ↦ pdg.has_function_pdg a.function && all_pointers a.function a.arguments
  ]

  -- traverseForward, with the levels and the partition that it starts from
  unfoldable pub traverse_forward : ℕ → Annotation → NodeRef → Walk → Option Walk
  traverse_forward fuel a formal w =
      walk (visit_forward m pdg ns a) fuel
        (start_walk (formal ∷ []) (emplace (ns.parent formal) 0 w.levels) w.partition)

  -- traverseBackward over the nodes that the other one found
  unfoldable pub traverse_backward : ℕ → Annotation → Walk → Option Walk
  traverse_backward fuel a w =
      walk (visit_backward m pdg ns a) fuel (start_walk w.result w.levels w.partition)

  -- traverseForArgument
  unfoldable pub traverse_for_argument : ℕ → Annotation → ℕ → Walk → Option Walk
  unfolding traverse_forward traverse_backward
  traverse_for_argument fuel a i w = elim (ns.formal_arg_node a.function i) [
    | none ↦ some w
    | some formal ↦ elim (traverse_forward fuel a formal w) [
      | none ↦ none
      | some w' ↦ traverse_backward fuel a w'
    ]
  ]

  -- The loop of PartitionForArguments::traverse.
  unfoldable pub traverse_arguments : ℕ → Annotation → List ℕ → Walk → Option Walk
  traverse_arguments fuel a [] w = some w
  traverse_arguments fuel a (i ∷ is) w =
      elim (if types.arg_is_pointer a.function i
        then traverse_for_argument fuel a i w
        else some w) [ none ↦ none | some w' ↦ traverse_arguments fuel a is w' ]

  -- PartitionForArguments::partition
  unfoldable pub partition_for_arguments : ℕ → Annotation → Option Partition
  unfolding can_partition_arguments traverse_arguments traverse_for_argument
  partition_for_arguments fuel a =
      if can_partition_arguments a
      then elim (traverse_arguments fuel a a.arguments
          (start_walk [] [] (add_to_partition a.function empty))) [
            | none ↦ none
            | some w ↦ some w.partition
          ]
      else some empty

  -- One round of the loop in Partitioner::partition.
  unfoldable pub add_annotation : ℕ → Annotation → Partition → Option Partition
  unfolding partition_for_arguments partition_for_return partition_for_function
  add_annotation fuel a secure = elim (partition_for_arguments fuel a) [
    | none ↦ none
    | some args ↦ elim (partition_for_return fuel a) [
      | none ↦ none
      | some returns ↦ some (
          add_partition_to_partition returns (
            add_partition_to_partition args
              (add_partition_to_partition (partition_for_function a) secure)))
    ]
  ]

  unfoldable pub add_annotations : ℕ → List Annotation → Partition → Option Partition
  unfolding add_annotation
  add_annotations fuel [] secure = some secure
  add_annotations fuel (a ∷ rest) secure = elim (add_annotation fuel a secure) [
    | none ↦ none
    | some p ↦ add_annotations fuel rest p
  ]

  -- The end of Partitioner::partition, where `p` comes from the annotations.
  unfoldable pub finish : Partition → Option (Partition × Partition)
  unfolding ◌>>=◌ complete compute_insecure_partition
  finish p = do
    secure ← complete m pdg ns p
    insecure ← compute_insecure_partition m pdg ns secure empty
    some (secure, insecure)

  -- Partitioner::partition of a fresh Partitioner: the secure and the insecure partition.
  unfoldable pub partition : ℕ → List Annotation → Option (Partition × Partition)
  unfolding ◌>>=◌ add_annotations finish
  partition fuel annotations = do p ← add_annotations fuel annotations empty; finish p
