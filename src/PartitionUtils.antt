-- ===== src/PartitionUtils.antt =====
-- lib/Utils/PartitionUtils.cpp: the functions of a set that are called from outside it, and the
-- functions outside a set that it calls.
pub mod Interfaces
use program_partitioning_for.Base.{
  ℕ, Bool, true, false, not, ◌&&◌, ◌||◌, List, [], ◌∷◌, none, some, ◌==◌, if◌then◌else◌, contains,
  insert, select, any,
}
use program_partitioning_for.Llvm.{FunctionRef, ValueRef, CallSite, null}
use program_partitioning_for.Pdg.{Pdg, PdgEdge, NodeRef}

-- The inner loop of computeInInterface, up to its `break`.
abbrev pub has_caller_outside : List FunctionRef → List CallSite → Bool
has_caller_outside functions = any (λ site. not (contains functions site.caller))

-- computeInInterface: null pointers and functions with no graph are passed over.
unfoldable pub compute_in_interface : List FunctionRef → Pdg → List FunctionRef
compute_in_interface functions pdg =
    select
      (λ f.
        not (f == null)
        && pdg.has_function_pdg f
        && has_caller_outside functions (pdg.call_sites f))
      functions

-- One edge out of a call's node: a callee outside the set is recorded.
unfoldable pub out_of_edge : Pdg → List FunctionRef → PdgEdge → List FunctionRef → List FunctionRef
out_of_edge pdg functions e acc =
    if e.is_control_edge
    then elim (pdg.function_node e.destination) [
      | none ↦ acc
      | some out_f ↦ if contains functions out_f then acc else insert out_f acc
    ]
    else acc

-- The loop over the edges out of a call's node.
unfoldable pub out_of_edges :
    Pdg → List FunctionRef → List PdgEdge → List FunctionRef → List FunctionRef
unfolding out_of_edge
out_of_edges pdg functions [] acc = acc
out_of_edges pdg functions (e ∷ es) acc =
    out_of_edges pdg functions es (out_of_edge pdg functions e acc)

-- The loop over the nodes of a function's graph.
unfoldable pub out_of_nodes :
    Pdg → List FunctionRef → List (ValueRef × NodeRef) → List FunctionRef → List FunctionRef
unfolding out_of_edges
out_of_nodes pdg functions [] acc = acc
out_of_nodes pdg functions ((val, node) ∷ nodes) acc = out_of_nodes pdg functions nodes (
    if pdg.is_call_inst val || pdg.is_invoke_inst val
    then out_of_edges pdg functions (pdg.out_edges node) acc
    else acc)

-- The loop over the functions.
unfoldable pub out_of_functions :
    Pdg → List FunctionRef → List FunctionRef → List FunctionRef → List FunctionRef
unfolding out_of_nodes
out_of_functions pdg functions [] acc = acc
out_of_functions pdg functions (f ∷ fs) acc = out_of_functions pdg functions fs (
    if not (f == null) && pdg.has_function_pdg f
    then out_of_nodes pdg functions (pdg.llvm_nodes f) acc
    else acc)

-- computeOutInterface
unfoldable pub compute_out_interface : List FunctionRef → Pdg → List FunctionRef
unfolding out_of_functions
compute_out_interface functions pdg = out_of_functions pdg functions functions []
