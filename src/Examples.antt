-- ===== src/Examples.antt =====
-- A small program for the examples: `main` (1) calls 2, which calls 3 from a loop, and 3 calls 4, which
-- has no body. The function 2 is secure, and it is related to 3.
pub mod Tables
pub mod Optimizers
pub mod Graphs
pub mod Partitioners
pub mod Sets
pub mod Enclaves
pub mod Extraction
pub mod Protos
pub mod Declarations
pub mod Analyses
use program_partitioning_for.Base.{
  ℕ, ◌+◌, Bool, true, false, not, ◌&&◌, List, [], ◌∷◌, Option, none, some, if◌then◌else◌, ◌==◌, ltb,
}
use program_partitioning_for.Llvm.{FunctionRef, CallSite, Module}
use program_partitioning_for.Pdg.{Pdg, PdgEdge}
use program_partitioning_for.Numbers.{int_scalar}
use program_partitioning_for.CallGraph.{CallGraph, LlvmNode, create}
use program_partitioning_for.Partition.{Partition}
use program_partitioning_for.Base.Int.{ℤ}

abbrev pub program : Module
program = record {
  functions = 1 ∷ 2 ∷ 3 ∷ 4 ∷ [];
  globals = 7 ∷ 8 ∷ [];
  is_declaration = λ f. f == 4;
  is_intrinsic = λ f. false;
  name = λ f. if f == 1 then "main" else "helper";
}

abbrev pub calls_of : FunctionRef → List CallSite
calls_of f =
    if f == 2
    then record { caller = 1; parent = 11 } ∷ []
    else (if f == 3
        then record { caller = 2; parent = 21 } ∷ []
        else (if f == 4 then record { caller = 3; parent = 31 } ∷ [] else []))

-- The call in function f is the value 10 + f at the node 20 + f, and the node of f itself is 40 + f.
-- The call in 3 depends on the function 2.
abbrev pub graphs : Pdg
graphs = record {
  has_function_pdg = λ f. not (f == 4);
  function_pdgs = 1 ∷ 2 ∷ 3 ∷ [];
  call_sites = calls_of;
  llvm_nodes = λ f. (10 + f, 20 + f) ∷ [];
  is_call_inst = λ v. ltb 10 v;
  is_invoke_inst = λ v. false;
  in_edges = λ n.
      if n == 23
      then record { is_control_edge = false; source = 42; destination = 23 } ∷ []
      else [];
  out_edges = λ n. record { is_control_edge = true; source = n; destination = n + 21 } ∷ [];
  function_node = λ n.
      if n == 42 then some 2 else (if n == 43 then some 3 else (if n == 44 then some 4 else none));
}

abbrev pub llvm_graph : List LlvmNode
llvm_graph =
    record { function = 0; callees = 1 ∷ [] }
    ∷ record { function = 1; callees = 2 ∷ [] }
    ∷ record { function = 2; callees = 3 ∷ 3 ∷ [] }
    ∷ record { function = 3; callees = 4 ∷ [] }
    ∷ []

abbrev pub call_graph : CallGraph ℤ
call_graph = create int_scalar llvm_graph

abbrev pub secure_side : Partition
secure_side = record {
  related_functions = (3, 1) ∷ [];
  partition = 2 ∷ [];
  in_interface = 2 ∷ [];
  out_interface = 3 ∷ [];
  partition_globals = 7 ∷ 8 ∷ [];
}

abbrev pub insecure_side : Partition
insecure_side = record {
  related_functions = [];
  partition = 1 ∷ 3 ∷ [];
  in_interface = 3 ∷ [];
  out_interface = 2 ∷ 4 ∷ [];
  partition_globals = 8 ∷ [];
}
