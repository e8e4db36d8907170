-- ===== src/ProgramPartition.antt =====
-- ProgramPartition of lib/Analysis/ProgramPartitionAnalysis.cpp: the partitioner's two partitions go to the
-- optimizer.
use program_partitioning_for.Base.{◌≡◌, true, false, List, Option, contains}
use program_partitioning_for.Llvm.{FunctionRef, Signatures}
use program_partitioning_for.Pdg.{PdgNodes}
use program_partitioning_for.Numbers.{Scalar}
use program_partitioning_for.Partition.{Partition}
use program_partitioning_for.CallGraph.{has_function_node}
use program_partitioning_for.PartitionOptimizer.{Optimization, Setting, run}

-- ProgramPartition::optimize, on the members m_securePartition and m_insecurePartition.
unfoldable pub optimize :
    (s : Scalar)
    → Setting s.T
    → List Optimization
    → Partition × Partition
    → Option (Partition × Partition)
optimize s c optimizations sides = run s c optimizations sides.0 sides.1

module _ (s : Scalar) (c : Setting s.T) (types : Signatures) (ns : PdgNodes) where
  -- The functions of the module that have a body have nodes in the call graph.
  abbrev pub HasNodes : Type 0
  HasNodes =
      (f : FunctionRef)
      → contains c.program.functions f ≡ true
      → c.program.is_declaration f ≡ false
      → has_function_node f c.callgraph ≡ true
