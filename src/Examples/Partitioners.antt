-- ===== src/Examples/Partitioners.antt =====
-- Examples for the partitions that the annotations lead to, and for the call-site data.
use program_partitioning_for.Base.{
  ◌≡◌, refl, true, false, not, ◌&&◌, ◌||◌, Bool, List, [], ◌∷◌, Option, none, some, arith, contains,
  all, ◌==◌, if◌then◌else◌,
}
use program_partitioning_for.Base.Int.{pos}
use program_partitioning_for.Llvm.{FunctionRef, BlockRef, CallSite, Signatures}
use program_partitioning_for.Pdg.{PdgNodes}
use program_partitioning_for.Numbers.{int_scalar}
use program_partitioning_for.Partition.{contains_function}
use program_partitioning_for.Partition.{Partition}
use program_partitioning_for.Partitioner.{get_node_parent, partition_for_return, partition}
use program_partitioning_for.Partitioner.Traversal.{Annotation, return_nodes, add_return_nodes}
use program_partitioning_for.Partitioner.Returns.{
  IsFinite, HasOwnReturns, partition_for_return-ends,
}
use program_partitioning_for.Partitioner.Complement.{IsComplete, HasSoundGlobals, is_sound_global}
use program_partitioning_for.Partitioner.Annotated.{AllTraceable, is_annotated, partition_correct}
use program_partitioning_for.CallGraph.Assign.{add_call_sites}
use program_partitioning_for.CallGraph.Calls.{calls_from, add_call_sites-count}
use program_partitioning_for.Examples.{program, graphs}

abbrev pub types : Signatures
types = record { arg_is_pointer = λ f i. true; returns_void = λ f. false }

-- The nodes 20 + f are instructions of the function f.
abbrev pub nodes : PdgNodes
nodes = record {
  is_llvm_node = λ n. true;
  is_instruction_node = λ n. n == 21 || n == 22 || n == 23;
  is_constant_node = λ n. false;
  is_null_node = λ n. false;
  node_value = λ n. if n == 21 then 11 else (if n == 22 then 12 else 13);
  parent = λ n.
      if n == 21 || n == 41
      then 1
      else (if n == 22 || n == 42 then 2 else (if n == 44 then 4 else 3));
  node_of = λ f v. if f == 3 && v == 13 then some 23 else none;
  formal_arg_node = λ f i. none;
  actual_arg_is_pointer = λ n. none;
  formal_arg_function = λ n. none;
  store_operand = λ v. none;
  return_insts = λ f. if f == 3 then 13 ∷ [] else [];
  global_node = λ g. some (if g == 7 then 22 else 23);
  instruction_function = λ n.
      if n == 21 then some 1 else (if n == 22 then some 2 else (if n == 23 then some 3 else none));
  va_arg_function = λ n. none;
  actual_arg_caller = λ n. none;
  block_function = λ n. none;
  phi_function = λ n. none;
}

abbrev no_loops : FunctionRef → Option (BlockRef → Bool)
no_loops f = some (λ block. false)

abbrev sites : List CallSite
sites =
    record { caller = 1; parent = 11 }
    ∷ record { caller = 2; parent = 21 }
    ∷ record { caller = 1; parent = 12 }
    ∷ []

add_call_sites-count_example :
    calls_from 1 (add_call_sites int_scalar pos (λ a b. a) no_loops sites []) ≡ pos 2
add_call_sites-count_example =
    add_call_sites-count pos (λ a b. a) no_loops sites 1 (λ f block. refl) (omega arith)

-- The function 3 with an annotated return value.
abbrev pub annotation : Annotation
annotation = record { annotation = "sensitive"; function = 3; arguments = []; is_return = true }

nodes-IsFinite : IsFinite program graphs nodes annotation (11 ∷ 12 ∷ 13 ∷ []) 1
unfolding contains
nodes-IsFinite = record {
  owned = λ n h. ground (arith, h);
  own_node = λ n f h. ground (arith, h);
  valued = λ n h p. (λ q. ground (arith, q), ground arith);
  bounded = λ n. ground arith;
}

nodes-HasOwnReturns : HasOwnReturns program graphs nodes annotation
nodes-HasOwnReturns v n h = ground (arith, h)

partition_for_return-ends_example :
    (p : Partition) × (partition_for_return program types graphs nodes 4 annotation ≡ some p)
unfolding return_nodes add_return_nodes
partition_for_return-ends_example =
    partition_for_return-ends program types graphs nodes annotation (11 ∷ 12 ∷ 13 ∷ []) 1 4
      nodes-IsFinite nodes-HasOwnReturns (omega arith)

abbrev pub annotations : List Annotation
annotations = annotation ∷ []

pub annotations-AllTraceable :
    AllTraceable program types graphs nodes (11 ∷ 12 ∷ 13 ∷ []) 1 4 annotations
unfolding return_nodes add_return_nodes
annotations-AllTraceable = (
  record {
    present = ground arith;
    no_arguments = refl;
    finite = nodes-IsFinite;
    own_returns = nodes-HasOwnReturns;
    enough = omega arith;
  },
  tt,
)

pub nodes-HasSoundGlobals : HasSoundGlobals program graphs nodes
unfolding all is_sound_global get_node_parent
nodes-HasSoundGlobals = refl

partition_correct_example :
    (secure insecure : Partition) × (partition program types graphs nodes 4 annotations
      ≡ some (secure, insecure))
    × ((f : FunctionRef) → contains_function secure f ≡ is_annotated annotations f)
    × ((f : FunctionRef)
        → contains_function insecure f
          ≡ (contains program.functions f && not (is_annotated annotations f)))
    × IsComplete program graphs nodes secure
    × IsComplete program graphs nodes insecure
partition_correct_example =
    partition_correct program types graphs nodes (11 ∷ 12 ∷ 13 ∷ []) 1 4 annotations
      annotations-AllTraceable nodes-HasSoundGlobals
