-- ===== src/PartitionExtractor/Globals.antt =====
-- GlobalVariableExtractorHelper of lib/Transforms/PartitionExtractor.cpp: the stores to a global after
-- which its setter is called. The setters are created by LLVM, which is a parameter.
use program_partitioning_for.Base.{
  ℕ, zero, suc, Bool, false, ◌&&◌, List, [], ◌∷◌, ◌++◌, Option, none, some, if◌then◌else◌, ◌==◌,
  insert,
}
use program_partitioning_for.Texts.{String, ◌<>◌}
use program_partitioning_for.Llvm.{FunctionRef, GlobalRef, ValueRef, null}
use program_partitioning_for.Pdg.{Pdg, PdgNodes, PdgEdge, NodeRef}
use program_partitioning_for.Partition.{Partition, contains_function}

-- What is read of globals and stores: hasGlobalVariableNode and getGlobalVariableNode, the name of a
-- global, StoreInst::getPointerOperand where it is a global, and the function of a store.
pub record GlobalUses : Type 0 where
  pub global_variable_node : GlobalRef → Option NodeRef
  pub global_name : GlobalRef → String
  pub stored_global : ValueRef → Option GlobalRef
  pub store_function : ValueRef → FunctionRef

-- addReachableNodes: the worklist stands from its back, where nodes are taken, to its front, where they
-- are added.
unfoldable pub add_reachable_nodes : List PdgEdge → List NodeRef → List NodeRef
add_reachable_nodes [] work = work
add_reachable_nodes (e ∷ es) work =
    add_reachable_nodes es (if e.is_control_edge then work else work ++ e.destination ∷ [])

-- Whether a value is a store to the global in a function of the partition.
unfoldable pub is_setter_store : GlobalUses → Partition → GlobalRef → ValueRef → Bool
is_setter_store u p global value = elim (u.stored_global value) [
  | none ↦ false
  | some g ↦ g == global && contains_function p (u.store_function value)
]

-- A node that is taken from the worklist, and the stores after which the setter is called so far; none: an
-- instruction node without a value, which is a failed assertion.
unfoldable pub look_at :
    PdgNodes → GlobalUses → Partition → GlobalRef → NodeRef → List ValueRef → Option (List ValueRef)
unfolding is_setter_store
look_at ns u p global node stores =
    if ns.is_instruction_node node
    then (if ns.node_value node == null
        then none
        else (if is_setter_store u p global (ns.node_value node)
            then some (stores ++ ns.node_value node ∷ [])
            else some stores))
    else some stores

-- How the search for the stores to a global ends: with the stores, at the assertion that an instruction node
-- has a value, or not within its rounds.
pub data Search : Type 0 where
  found : List ValueRef → Search
  assertion_failed out_of_rounds : Search

-- The loop of addGlobalSetter, with fuel for its rounds.
unfoldable pub search_stores :
    Pdg → PdgNodes → GlobalUses → Partition → GlobalRef → ℕ → List NodeRef → List ValueRef → Search
unfolding add_reachable_nodes look_at
search_stores pdg ns u p global fuel [] stores = found stores
search_stores pdg ns u p global zero (n ∷ work) stores = out_of_rounds
search_stores pdg ns u p global (suc fuel) (n ∷ work) stores =
    elim (look_at ns u p global n stores) [
      | none ↦ assertion_failed
      | some next ↦
          search_stores pdg ns u p global fuel (add_reachable_nodes (pdg.out_edges n) work) next
    ]

-- addGlobalSetter: the stores after which a call of the setter is put.
unfoldable pub add_global_setter : Pdg → PdgNodes → GlobalUses → Partition → ℕ → GlobalRef → Search
unfolding search_stores
add_global_setter pdg ns u p fuel global = elim (u.global_variable_node global) [
  | none ↦ found []
  | some node ↦ search_stores pdg ns u p global fuel (node ∷ []) []
]

-- The name in createGlobalSetterFunction.
unfoldable pub setter_name : GlobalUses → String → GlobalRef → String
setter_name u prefix global = "set_" <> prefix <> "_" <> u.global_name global

-- instrumentForGlobals and getGlobalSetters: the set of the setters, each made where its global has a
-- store; `create` is getOrInsertFunction. none: a search that does not end, or ends at an assertion.
unfoldable pub global_setters :
    Pdg
    → PdgNodes
    → GlobalUses
    → Partition
    → ℕ
    → (String → FunctionRef)
    → String
    → List GlobalRef
    → List FunctionRef
    → Option (List FunctionRef)
unfolding add_global_setter setter_name
global_setters pdg ns u p fuel create prefix [] setters = some setters
global_setters pdg ns u p fuel create prefix (g ∷ gs) setters =
    let rest = global_setters pdg ns u p fuel create prefix gs in
    elim (add_global_setter pdg ns u p fuel g) [
      | assertion_failed ↦ none
      | out_of_rounds ↦ none
      | found stores ↦
          rest (elim stores [
            | [] ↦ setters
            | s ∷ ss ↦ insert (create (setter_name u prefix g)) setters
          ])
    ]

-- PartitionExtractorPass::getGlobalSetters
unfoldable pub get_global_setters :
    Pdg
    → PdgNodes
    → GlobalUses
    → ℕ
    → (String → FunctionRef)
    → Bool
    → Partition × Partition
    → Option (List FunctionRef)
unfolding global_setters
get_global_setters pdg ns u fuel create is_enclave sides =
    let p = if is_enclave then sides.1 else sides.0 in
    let prefix = if is_enclave then "enclave" else "app" in
    global_setters pdg ns u p fuel create prefix p.partition_globals []
