-- ===== src/Examples/Optimizers.antt =====
-- Examples for the optimizations and the optimizer that runs them.
use program_partitioning_for.Base.{
  ◌≡◌, ◌≢◌, refl, subst, find, put, insert, insert_all, select, any, true, false, Bool, not, ◌&&◌,
  ◌||◌, List, [], ◌∷◌, Option, none, some, arith, contains, keys, if◌then◌else◌, ◌==◌,
}
use program_partitioning_for.Base.Int.{ℤ, pos, ◌+ℤ◌, negate}
use program_partitioning_for.Numbers.{int_scalar, le}
use program_partitioning_for.CallGraph.{create}
use program_partitioning_for.Partition.{Partition, contains_function, contains_global}
use program_partitioning_for.Optimization.{LoopInfoGetter, run_functions_move}
use program_partitioning_for.Optimization.FunctionsMove.{
  is_called_inside_only, is_called_in_loop, run_functions_move_lem,
}
use program_partitioning_for.Optimization.Ilp.{
  Variable, node_var, edge_var, Constraint, at_most_one, at_least_one, at_most_zero,
  difference_at_most_one, Solver, create_model, run_ilp,
}
use program_partitioning_for.Optimization.Ilp.Solution.{Meets, MeetsAll, IsSound, run_ilp_eligible}
use program_partitioning_for.PartitionOptimizer.{
  Optimization, functions_move_to, globals_move_to, kernighan_lin, static_analysis, ilp, Setting,
  run,
}
use program_partitioning_for.PartitionOptimizer.Safety.{IsSettled, HasGraphs, run_correct}
use program_partitioning_for.PartitionOptimizer.Names.{get_optimizations, global_move_lem}
use program_partitioning_for.Examples.{program, graphs, call_graph, secure_side, insecure_side}
use program_partitioning_for.Examples.Graphs.{call_graph-nodes, sides-apart, insecure_side-IsUnique}

-- The function 2 calls 3 from a loop.
abbrev loops : LoopInfoGetter
loops f = if f == 2 then some (λ block. block == 21) else none

-- The functions 2 and 3 at 1, everything else at 0.
abbrev assignment : Variable → ℤ
assignment (node_var f) = if f == 2 || f == 3 then pos 1 else pos 0
assignment (edge_var f g) = pos 0

abbrev met : Constraint → Bool
met (at_most_one x) = le int_scalar (assignment x) (pos 1)
met (at_least_one x) = le int_scalar (pos 1) (assignment x)
met (at_most_zero x) = le int_scalar (assignment x) (pos 0)
met (difference_at_most_one x y z) =
    le int_scalar
      (int_scalar.add (int_scalar.add (assignment x) (int_scalar.minus (assignment y)))
        (assignment z))
      (pos 1)

unfoldable pub met_all : List Constraint → Bool
met_all [] = true
met_all (c ∷ cs) = met c && met_all cs

-- A solver that knows one assignment, and reports it where it meets the constraints.
abbrev solver : Solver ℤ
solver model = if met_all model.constraints then some assignment else none

met-Meets : (c : Constraint) → met c ≡ true → Meets int_scalar assignment c
met-Meets (at_most_one x) h = h
met-Meets (at_least_one x) h = h
met-Meets (at_most_zero x) h = h
met-Meets (difference_at_most_one x y z) h = h

met_all-MeetsAll : (cs : List Constraint) → met_all cs ≡ true → MeetsAll int_scalar assignment cs
unfolding met_all
met_all-MeetsAll [] h = tt
met_all-MeetsAll (c ∷ cs) h =
    (met-Meets c (ground (arith, h)), met_all-MeetsAll cs (ground (arith, h)))

from_some : {A : Type 0} (a : A) (P : A → Type 0) → P a → (b : A) → some a ≡ some b → P b
from_some {A = A} a P p b e = subst Holds e p
  where
    Holds : Option A → Type 0
    Holds none = Unit {0}
    Holds (some x) = P x

report :
    (b : Bool) (cs : List Constraint)
    → (b ≡ true → MeetsAll int_scalar assignment cs)
    → (value : Variable → ℤ) → (if b then some assignment else none) ≡ some value
    → MeetsAll int_scalar value cs
report true cs h value e = from_some assignment (λ v. MeetsAll int_scalar v cs) (h refl) value e
report false cs h value e = ground (arith, e)

solver-IsSound : IsSound int_scalar solver
solver-IsSound = record {
  feasible = λ model value solved.
      report (met_all model.constraints) model.constraints (met_all-MeetsAll model.constraints)
        value solved;
  one_exact = λ a low high. ground arith;
  one_positive = λ a low. ground arith;
}

run_ilp_eligible_example :
    (contains (keys call_graph) 3 ≡ true)
    × (program.is_declaration 3 ≡ false)
    × (program.name 3 ≢ "main")
unfolding create_model met_all create keys contains contains_function run_ilp find put insert ◌+ℤ◌
    negate
run_ilp_eligible_example =
    run_ilp_eligible int_scalar solver program secure_side call_graph assignment 3 solver-IsSound
      refl refl refl

run_functions_move_lem_example : contains (3 ∷ []) 3 ≡ (
    contains secure_side.out_interface 3
    && not (program.is_declaration 3)
    && (is_called_inside_only secure_side (graphs.call_sites 3)
        || is_called_in_loop loops secure_side (graphs.call_sites 3)))
unfolding run_functions_move any insert_all select contains contains_function insert
run_functions_move_lem_example =
    run_functions_move_lem program graphs loops secure_side (3 ∷ []) 3 refl

abbrev pub setting : Setting ℤ
setting = record {
  program = program;
  pdg = graphs;
  callgraph = call_graph;
  loops = loops;
  solver = solver;
}

pub program-HasGraphs : HasGraphs program graphs
program-HasGraphs f h = ground arith

abbrev pub options : List Optimization
options = kernighan_lin ∷ functions_move_to ∷ globals_move_to ∷ ilp ∷ static_analysis ∷ []

run_correct_example :
    (after : Partition × Partition) × (run int_scalar setting options secure_side insecure_side
      ≡ some after)
    × IsSettled graphs (secure_side, insecure_side) after
run_correct_example =
    run_correct int_scalar setting program-HasGraphs options secure_side insecure_side
      (tt, (tt, (tt, (tt, (tt, tt))))) (λ f h b. call_graph-nodes f h) insecure_side-IsUnique
      sides-apart

global_move_lem_example :
    (after : Partition × Partition) × (run int_scalar setting
        (get_optimizations "global-move")
        secure_side
        insecure_side
      ≡ some after)
    × (contains_global after.0 8
        ≡ (contains_global secure_side 8 && not (contains_global insecure_side 8)))
    × (contains_global after.1 8
        ≡ (contains_global insecure_side 8 && not (contains_global secure_side 8)))
global_move_lem_example = global_move_lem int_scalar setting secure_side insecure_side 8
