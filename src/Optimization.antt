-- ===== src/Optimization.antt =====
-- The optimizations of lib/Optimization and include/Optimization that are not Kernighan-Lin's, each by
-- what its `run` computes and what its `apply` does.
pub mod FunctionsMove
pub mod Ilp
use program_partitioning_for.Base.{
  ℕ, Bool, true, false, not, ◌&&◌, List, [], ◌∷◌, Option, none, some, if◌then◌else◌, contains,
  insert_all, select, any,
}
use program_partitioning_for.Llvm.{FunctionRef, GlobalRef, BlockRef, CallSite, Module}
use program_partitioning_for.Pdg.{Pdg}
use program_partitioning_for.Partition.{
  Partition, add_to_partition, add_set_to_partition, clear_related_functions, set_globals,
  contains_function,
}

-- LoopInfoGetter: the loop information of a function, where there is any, says of a block whether
-- getLoopFor finds a loop.
abbrev pub LoopInfoGetter : Type 0
LoopInfoGetter = FunctionRef → Option (BlockRef → Bool)

-- FunctionsMoveToPartitionOptimization::hasCallSiteOutsidePartition
unfoldable pub has_call_site_outside_partition : Partition → List CallSite → Bool
has_call_site_outside_partition p = any (λ site. not (contains_function p site.caller))

abbrev pub in_loop : Option (BlockRef → Bool) → BlockRef → Bool
in_loop none block = false
in_loop (some has_loop) block = has_loop block

-- FunctionsMoveToPartitionOptimization::hasCallSiteInLoop
unfoldable pub has_call_site_in_loop : LoopInfoGetter → Partition → List CallSite → Bool
has_call_site_in_loop loops p =
    any (λ site. contains_function p site.caller && in_loop (loops site.caller) site.parent)

-- computeFunctionsCalledFromPartitionOnly
unfoldable pub compute_functions_called_from_partition_only :
    Module → Pdg → Partition → List FunctionRef → List FunctionRef
unfolding has_call_site_outside_partition
compute_functions_called_from_partition_only m pdg p moved =
    select
      (λ f.
        not (contains moved f)
        && not (m.is_declaration f)
        && not (has_call_site_outside_partition p (pdg.call_sites f)))
      p.out_interface

-- computeFunctionsCalledFromPartitionLoops
unfoldable pub compute_functions_called_from_partition_loops :
    Module → Pdg → LoopInfoGetter → Partition → List FunctionRef → List FunctionRef
unfolding has_call_site_in_loop
compute_functions_called_from_partition_loops m pdg loops p moved =
    select
      (λ f.
        not (contains moved f)
        && not (m.is_declaration f)
        && has_call_site_in_loop loops p (pdg.call_sites f))
      p.out_interface

-- FunctionsMoveToPartitionOptimization::run: the functions to move; none where the assertion fails
-- that each function of the out-interface with a body has a graph.
unfoldable pub run_functions_move :
    Module → Pdg → LoopInfoGetter → Partition → Option (List FunctionRef)
unfolding compute_functions_called_from_partition_only compute_functions_called_from_partition_loops
run_functions_move m pdg loops p =
    if any (λ f. not (m.is_declaration f) && not (pdg.has_function_pdg f)) p.out_interface
    then none
    else (let moved = insert_all (compute_functions_called_from_partition_only m pdg p []) [] in
        some (insert_all (compute_functions_called_from_partition_loops m pdg loops p moved) moved))

-- FunctionsMoveToPartitionOptimization::apply
unfoldable pub apply_functions_move : List FunctionRef → Partition → Partition
apply_functions_move moved p = add_set_to_partition moved p

-- GlobalsMoveToPartitionOptimization::run: the partition's globals that the other side does not use.
unfoldable pub run_globals_move : Partition → List GlobalRef → List GlobalRef
run_globals_move p outside_uses = select (λ g. not (contains outside_uses g)) p.partition_globals

-- GlobalsMoveToPartitionOptimization::apply
unfoldable pub apply_globals_move : List GlobalRef → Partition → Partition
apply_globals_move moved p = set_globals moved p

-- DuplicateFunctionsOptimization::run: the functions that both sides moved; it has no `apply`.
unfoldable pub run_duplicate_functions : List FunctionRef → List FunctionRef → List FunctionRef
run_duplicate_functions secure_part_fs insecure_part_fs =
    select (λ f. contains insecure_part_fs f) secure_part_fs

add_related : List (FunctionRef × ℕ) → Partition → Partition
add_related [] p = p
add_related ((f, level) ∷ rest) p = add_related rest (add_to_partition f p)

-- StaticAnalysisOptimization::apply: getRelatedFunctions is a copy.
unfoldable pub apply_static_analysis : Partition → Partition
unfolding add_related
apply_static_analysis p = clear_related_functions (add_related p.related_functions p)
