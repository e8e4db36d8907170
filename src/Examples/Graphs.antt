-- ===== src/Examples/Graphs.antt =====
-- Examples for the call graph and the Kernighan-Lin optimizer.
use program_partitioning_for.Base.{
  ℕ, ◌≤◌, ◌≡◌, ◌≢◌, refl, true, false, List, [], ◌∷◌, some, arith, find, put, length, contains,
  IsUnique,
}
use program_partitioning_for.Base.Int.{ℤ, pos, negsuc}
use program_partitioning_for.Numbers.{int_scalar, le}
use program_partitioning_for.CallGraph.{create, has_function_node}
use program_partitioning_for.CallGraph.Edges.{out_sinks}
use program_partitioning_for.CallGraph.Mirror.{IsMirrored, occurs, has_connection, create_correct}
use program_partitioning_for.Partition.{Partition, contains_function}
use program_partitioning_for.KernighanLin.{best_prefix, run_optimizer, collect_pass_candidates}
use program_partitioning_for.KernighanLin.Prefix.{IsOrdered, gain_after, best_prefix-greatest}
use program_partitioning_for.KernighanLin.Run.{HasMoved, eligible, run_optimizer_correct}
use program_partitioning_for.KernighanLin.Moves.{HasNodes}
use program_partitioning_for.Examples.{program, llvm_graph, call_graph, secure_side, insecure_side}

create_correct_example :
    IsMirrored (create int_scalar llvm_graph)
    × ((a : ℕ) → has_function_node a (create int_scalar llvm_graph) ≡ occurs llvm_graph a)
    × ((a b : ℕ)
        → contains (out_sinks (create int_scalar llvm_graph) a) b ≡ has_connection llvm_graph a b)
create_correct_example = create_correct int_scalar llvm_graph

le_refl : (a : ℤ) → le int_scalar a a ≡ true
le_refl a = ground arith

le_trans :
    (a b c : ℤ) → le int_scalar a b ≡ true → le int_scalar b c ≡ true → le int_scalar a c ≡ true
le_trans a b c p q = ground arith

le_total : (a b : ℤ) → le int_scalar a b ≡ false → le int_scalar b a ≡ true
le_total a b p = ground arith

int_scalar-IsOrdered : IsOrdered int_scalar
int_scalar-IsOrdered = record { le_refl = le_refl; le_trans = le_trans; le_total = le_total }

abbrev moves : List (ℕ × ℤ)
moves = (3, pos 4) ∷ (5, negsuc 1) ∷ (6, pos 3) ∷ (8, negsuc 8) ∷ []

best_prefix-greatest_example :
    (best_prefix int_scalar (pos 0) (pos 0) 0 0 moves ≤ length moves)
    × (le int_scalar
          (gain_after int_scalar (pos 0) 1 moves)
          (gain_after int_scalar (pos 0) (best_prefix int_scalar (pos 0) (pos 0) 0 0 moves) moves)
        ≡ true)
best_prefix-greatest_example =
    best_prefix-greatest int_scalar int_scalar-IsOrdered moves 1 (omega arith)

inside : (f : ℕ) → contains (3 ∷ []) f ≡ true → contains_function insecure_side f ≡ true
unfolding contains_function contains
inside f h = ground arith

outside : (f : ℕ) → contains (3 ∷ []) f ≡ true → contains_function secure_side f ≡ false
unfolding contains_function contains
outside f h = ground arith

pub sides-apart :
    (f : ℕ) → contains_function insecure_side f ≡ true → contains_function secure_side f ≡ false
unfolding contains_function contains
sides-apart f h = ground arith

pub insecure_side-IsUnique : IsUnique insecure_side.partition
unfolding contains
insecure_side-IsUnique = (refl, (refl, tt))

pub call_graph-nodes :
    (f : ℕ) → contains_function insecure_side f ≡ true → has_function_node f call_graph ≡ true
unfolding contains_function contains has_function_node create find put
call_graph-nodes f h = ground arith

candidates-HasNodes : HasNodes int_scalar call_graph (collect_pass_candidates program insecure_side)
candidates-HasNodes f h = call_graph-nodes f (eligible program insecure_side f h).0

run_optimizer_correct_example :
    (kept : List ℕ) × (secure' : Partition) × (insecure' : Partition) × (run_optimizer int_scalar
        program call_graph secure_side insecure_side
      ≡ some (secure', insecure'))
    × ((f : ℕ)
        → contains kept f ≡ true
        → (contains_function insecure_side f ≡ true)
          × (program.is_declaration f ≡ false)
          × (program.is_intrinsic f ≡ false)
          × (program.name f ≢ "main"))
    × HasMoved kept secure_side insecure_side secure' insecure'
run_optimizer_correct_example =
    run_optimizer_correct int_scalar program call_graph secure_side insecure_side
      insecure_side-IsUnique candidates-HasNodes sides-apart
