-- ===== src/PartitionOptimizer.antt =====
-- lib/Optimization/PartitionOptimizer.cpp: the optimizations that are asked for are made and run in
-- order, and applied together at the end.
pub mod Sides
pub mod Safety
pub mod Names
use Prim.Native.String.{String}
use program_partitioning_for.Base.{
  ℕ, Bool, true, false, List, [], ◌∷◌, ◌++◌, Option, none, some, if◌then◌else◌,
}
use program_partitioning_for.Llvm.{FunctionRef, GlobalRef, Module}
use program_partitioning_for.Pdg.{Pdg}
use program_partitioning_for.Numbers.{Scalar}
use program_partitioning_for.CallGraph.{CallGraph}
use program_partitioning_for.Partition.{
  Partition, remove_from_partition, remove_related_function, set_in_interface, set_out_interface,
}
use program_partitioning_for.PartitionUtils.{compute_in_interface, compute_out_interface}
use program_partitioning_for.KernighanLin.{run_optimizer}
use program_partitioning_for.Optimization.{
  LoopInfoGetter, run_functions_move, apply_functions_move, run_globals_move, apply_globals_move,
  run_duplicate_functions, apply_static_analysis,
}
use program_partitioning_for.Optimization.Ilp.{Solver, run_ilp, apply_ilp}

-- PartitionOptimizer::Optimization
pub data Optimization : Type 0 where
  functions_move_to globals_move_to duplicate_functions kernighan_lin static_analysis ilp opt_num :
      Optimization

-- An element of m_optimizations after its `run`: its class, and what `apply` will use. The Boolean says
-- whether its partition is the secure one.
pub data Pending : Type 0 where
  moves_functions : Bool → List FunctionRef → Pending
  moves_globals : Bool → List GlobalRef → Pending
  duplicates : List FunctionRef → Pending
  kernighan_lin_done : Pending
  adds_related : Pending
  ilp_found : List FunctionRef → Pending

pub record Optimizer : Type 0 where
  pub secure : Partition
  pub insecure : Partition
  pub optimizations : List Pending

-- What the optimizer is given besides the partitions; the solver stands for CPLEX.
pub record Setting (T : Type 0) : Type 0 where
  pub program : Module
  pub pdg : Pdg
  pub callgraph : CallGraph T
  pub loops : LoopInfoGetter
  pub solver : Solver T

unfoldable pub push : Pending → Optimizer → Optimizer
push x o = record o { optimizations = o.optimizations ++ x ∷ [] }

-- getMovedFunctions of the first two elements of m_optimizations, cast to the class that moves
-- functions: none where a cast fails, which is an assertion, or the vector is too short.
unfoldable pub moved_by_both : List Pending → Option (List FunctionRef × List FunctionRef)
moved_by_both (moves_functions a fs ∷ moves_functions b gs ∷ rest) = some (fs, gs)
moved_by_both _ = none

-- runDuplicateFunctionsOptimization, with the new element already at the end of the vector.
unfoldable pub run_duplicate : Optimizer → Option Optimizer
unfolding moved_by_both push
run_duplicate o = elim (moved_by_both (o.optimizations ++ duplicates [] ∷ [])) [
  | none ↦ none
  | some (fs, gs) ↦ some (push (duplicates (run_duplicate_functions fs gs)) o)
]

-- The loop in `apply`: what is secure is neither insecure nor related any more.
unfoldable pub settle : List FunctionRef → Partition × Partition → Partition × Partition
settle [] (secure, insecure) = (secure, insecure)
settle (f ∷ fs) (secure, insecure) =
    settle fs (remove_related_function f secure, remove_from_partition f insecure)

-- The end of `apply`.
unfoldable pub compute_interfaces : Pdg → Partition → Partition
compute_interfaces pdg p =
    set_out_interface (compute_out_interface p.partition pdg)
      (set_in_interface (compute_in_interface p.partition pdg) p)

-- One call of PartitionOptimization::apply.
unfoldable pub apply_pending : Pending → Partition × Partition → Partition × Partition
apply_pending (moves_functions true fs) (secure, insecure) =
    (apply_functions_move fs secure, insecure)
apply_pending (moves_functions false fs) (secure, insecure) =
    (secure, apply_functions_move fs insecure)
apply_pending (moves_globals true gs) (secure, insecure) = (apply_globals_move gs secure, insecure)
apply_pending (moves_globals false gs) (secure, insecure) = (secure, apply_globals_move gs insecure)
apply_pending (duplicates fs) sides = sides
apply_pending kernighan_lin_done sides = sides
apply_pending adds_related (secure, insecure) = (apply_static_analysis secure, insecure)
apply_pending (ilp_found fs) sides = apply_ilp fs sides

unfoldable pub apply_all : List Pending → Partition × Partition → Partition × Partition
unfolding apply_pending
apply_all [] sides = sides
apply_all (x ∷ xs) sides = apply_all xs (apply_pending x sides)

-- `apply`
unfoldable pub apply_optimizations : Pdg → Optimizer → Partition × Partition
unfolding apply_all settle compute_interfaces
apply_optimizations pdg o =
    let moved = apply_all o.optimizations (o.secure, o.insecure) in
    let settled = settle moved.0.partition moved in
    (compute_interfaces pdg settled.0, compute_interfaces pdg settled.1)

module _ (s : Scalar) (c : Setting s.T) where
  -- The two functions-move optimizers of one option: each sees its own partition.
  unfoldable pub run_both_moves : Optimizer → Option Optimizer
  unfolding push
  run_both_moves o = elim (run_functions_move c.program c.pdg c.loops o.secure) [
    | none ↦ none
    | some fs ↦ elim (run_functions_move c.program c.pdg c.loops o.insecure) [
      | none ↦ none
      | some gs ↦ some (push (moves_functions false gs) (push (moves_functions true fs) o))
    ]
  ]

  unfoldable pub run_kernighan_lin : Optimizer → Option Optimizer
  unfolding push
  run_kernighan_lin o = elim (run_optimizer s c.program c.callgraph o.secure o.insecure) [
    | none ↦ none
    | some (secure, insecure) ↦ some (record {
      secure = secure;
      insecure = insecure;
      optimizations = o.optimizations ++ kernighan_lin_done ∷ [];
    })
  ]

  -- One round of the loop of `run`, getOptimizerFor included: none is a failed assertion.
  unfoldable pub run_one : Optimization → Optimizer → Option Optimizer
  unfolding run_both_moves run_kernighan_lin run_duplicate push
  run_one functions_move_to o = run_both_moves o
  run_one globals_move_to o = some (
      push (moves_globals false (run_globals_move o.insecure o.secure.partition_globals))
        (push (moves_globals true (run_globals_move o.secure o.insecure.partition_globals)) o))
  run_one duplicate_functions o = run_duplicate o
  run_one kernighan_lin o = run_kernighan_lin o
  run_one static_analysis o = some (push adds_related o)
  run_one ilp o = some (push (ilp_found (run_ilp s c.solver c.program o.secure c.callgraph)) o)
  run_one opt_num o = none

  unfoldable pub run_each : List Optimization → Optimizer → Option Optimizer
  run_each [] o = some o
  run_each (opt ∷ opts) o = elim (run_one opt o) [ none ↦ none | some o' ↦ run_each opts o' ]

  -- PartitionOptimizer::run: the two partitions after it.
  unfoldable pub run : List Optimization → Partition → Partition → Option (Partition × Partition)
  unfolding run_each run_one apply_optimizations
  run opts secure insecure =
      elim (run_each opts (record { secure = secure; insecure = insecure; optimizations = [] })) [
        | none ↦ none
        | some o ↦ some (apply_optimizations c.pdg o)
      ]
