-- ===== src/PartitionOptimizer/Names.antt =====
-- The options by name: getOptimizations of lib/Analysis/ProgramPartitionAnalysis.cpp, and what two of
-- the names come to.
use Prim.Native.String.{String}
use text.Mathlib.Text.{◌==◌ as str_eq}
use program_partitioning_for.Base.{
  ◌≡◌, refl, not, ◌&&◌, List, [], ◌∷◌, ◌++◌, none, some, if◌then◌else◌, contains-select,
}
use program_partitioning_for.Llvm.{FunctionRef, GlobalRef}
use program_partitioning_for.Numbers.{Scalar}
use program_partitioning_for.Partition.{
  Partition, contains_global, set_globals, set_in_interface, set_out_interface,
  remove_from_partition, remove_related_function,
}
use program_partitioning_for.Optimization.{run_globals_move, apply_globals_move}
use program_partitioning_for.PartitionOptimizer.{
  Optimization, functions_move_to, globals_move_to, duplicate_functions, kernighan_lin,
  static_analysis, ilp, Setting, run, settle,
}

-- getOptimizations: an unknown name gives no optimization, with a line in the log.
unfoldable pub get_optimizations : String → List Optimization
get_optimizations opt_name =
    if str_eq opt_name "search-based"
    then static_analysis ∷ []
    else (if str_eq opt_name "local"
        then functions_move_to ∷ globals_move_to ∷ []
        else (if str_eq opt_name "function-move"
            then functions_move_to ∷ []
            else (if str_eq opt_name "global-move"
                then globals_move_to ∷ []
                else (if str_eq opt_name "function-duplicate"
                    then duplicate_functions ∷ []
                    else (if str_eq opt_name "kl"
                        then kernighan_lin ∷ []
                        else (if str_eq opt_name "ilp" then ilp ∷ [] else []))))))

-- The name function-duplicate never runs through, nor do the optimizations of another name after it:
-- the optimizer casts the first two elements of its vector to the class that moves functions, and the
-- vector holds the new element alone.
pub function_duplicate_fails :
    (s : Scalar) (c : Setting s.T) (name : String) (secure insecure : Partition)
    → run s c (get_optimizations "function-duplicate" ++ get_optimizations name) secure insecure
      ≡ none
unfolding run get_optimizations
function_duplicate_fails s c name secure insecure = refl

settle-globals :
    (fs : List FunctionRef) (secure insecure : Partition)
    → ((settle fs (secure, insecure)).0.partition_globals ≡ secure.partition_globals)
      × ((settle fs (secure, insecure)).1.partition_globals ≡ insecure.partition_globals)
unfolding settle remove_from_partition remove_related_function
settle-globals [] secure insecure = (refl, refl)
settle-globals (f ∷ fs) secure insecure =
    settle-globals fs (remove_related_function f secure) (remove_from_partition f insecure)

-- The name global-move runs through and leaves each partition with those of its globals that the other
-- did not have: a global of both partitions is in neither afterwards.
pub global_move_lem :
    (s : Scalar) (c : Setting s.T) (secure insecure : Partition) (g : GlobalRef)
    → (after : Partition × Partition) × (run s c (get_optimizations "global-move") secure insecure
        ≡ some after)
      × (contains_global after.0 g ≡ (contains_global secure g && not (contains_global insecure g)))
      × (contains_global after.1 g ≡ (contains_global insecure g && not (contains_global secure g)))
unfolding run get_optimizations contains_global run_globals_move apply_globals_move set_globals
    set_in_interface set_out_interface
global_move_lem s c secure insecure g =
    let left = record secure {
      partition_globals = run_globals_move secure insecure.partition_globals;
    } in
    let right = record insecure {
      partition_globals = run_globals_move insecure secure.partition_globals;
    } in
    let kept = settle-globals left.partition left right in
    (
      _,
      refl,
      rw kept.0 (contains-select _ secure.partition_globals g),
      rw kept.1 (contains-select _ insecure.partition_globals g),
    )
