-- ===== src/ProgramPartitionAnalysis.antt =====
-- ProgramPartition::partition and ProgramPartitionAnalysis::runOnModule of
-- lib/Analysis/ProgramPartitionAnalysis.cpp: the annotations, the partitioner, the weights and the
-- optimizer, one after the other. The dump of the result and the statistics do not change it.
use program_partitioning_for.Base.{
  IsUnique, keys, ℕ, ◌≡◌, Bool, true, List, Option, some, contains, if◌then◌else◌,
}
use program_partitioning_for.Base.Options.{◌>>=◌}
use program_partitioning_for.Texts.{String, str_eq}
use program_partitioning_for.Llvm.{FunctionRef, BlockRef, Signatures}
use program_partitioning_for.Pdg.{PdgNodes}
use program_partitioning_for.Numbers.{Scalar}
use program_partitioning_for.Partition.{Partition}
use program_partitioning_for.CallGraph.{CallGraph}
use program_partitioning_for.CallGraph.Assign.{FunctionData}
use program_partitioning_for.CallGraph.Normalize.{assign_weights}
use program_partitioning_for.Partitioner.{partition}
use program_partitioning_for.Partitioner.Traversal.{Annotation}
use program_partitioning_for.PartitionOptimizer.{Setting}
use program_partitioning_for.CallGraph.Assign.{collect_function_call_site_data}
use program_partitioning_for.CallGraph.Weighted.{HasCallers}
use program_partitioning_for.PartitionOptimizer.Names.{get_optimizations}
use program_partitioning_for.ProgramPartition.{optimize}
use program_partitioning_for.Annotations.{
  AnnotationParser, new_annotation_parser, get_all_annotations, JsonItem, parse_json,
}
use program_partitioning_for.Annotations.Functions.{is_named}

-- What the analysis is given for a module besides the setting of the optimizer: the types, the nodes of
-- the dependence graph, and what the weights depend on.
pub record Inputs (T : Type 0) : Type 0 where
  pub types : Signatures
  pub nodes : PdgNodes
  pub loop_blocks : FunctionRef → Option (BlockRef → Bool)
  pub sizes : FunctionData
  pub get_function : String → FunctionRef

module _ (s : Scalar) (of_nat : ℕ → s.T) (divide : s.T → s.T → s.T) (c : Setting s.T)
    (x : Inputs s.T) where
  open s use {T}

  -- ProgramPartition::partition, from the annotations: both partitions and the weighted graph.
  unfoldable pub partition_program :
      ℕ → List Annotation → Option ((Partition × Partition) × CallGraph T)
  unfolding ◌>>=◌ partition assign_weights
  partition_program fuel annotations = do
    sides ← partition c.program x.types c.pdg x.nodes fuel annotations
    g ← assign_weights s of_nat divide x.loop_blocks c.pdg x.sizes sides.0 c.callgraph
    some (sides, g)

  -- The annotations that runOnModule gets from a parser: parseAnnotations is called, and
  -- getAllAnnotations then does not call it again.
  unfoldable pub read_annotations : (AnnotationParser → AnnotationParser) → List Annotation
  unfolding get_all_annotations
  read_annotations parse = (get_all_annotations parse (parse new_annotation_parser)).0

  -- runOnModule with the option `optimize`: the final partitions.
  unfoldable pub run_analysis_on_module :
      ℕ → (AnnotationParser → AnnotationParser) → String → Option (Partition × Partition)
  unfolding ◌>>=◌ partition_program read_annotations optimize get_optimizations
  run_analysis_on_module fuel parse opt = do
    (sides, g) ← partition_program fuel (read_annotations parse)
    (if str_eq opt ""
        then some sides
        else optimize s (record c { callgraph = g }) (get_optimizations opt) sides)

  -- What LLVM's functions give: every function of the module has one node in the call graph, and the file
  -- and the dependence graph name functions of the module only.
  pub record IsModuleGraph (fuel : ℕ) (items : List JsonItem) : Type 0 where
    pub nodes_unique : IsUnique (keys c.callgraph)
    pub nodes :
        (f : FunctionRef)
        → contains c.program.functions f ≡ true
        → contains (keys c.callgraph) f ≡ true
    pub named :
        (f : FunctionRef)
        → is_named x.get_function f items ≡ true
        → contains c.program.functions f ≡ true
    pub related :
        (sides : Partition × Partition)
        → partition c.program x.types c.pdg x.nodes fuel
            (read_annotations (parse_json x.get_function (some items)))
          ≡ some sides
        → (f : FunctionRef) → contains (keys sides.0.related_functions) f ≡ true
        → contains c.program.functions f ≡ true
    pub callers :
        HasCallers s
          (collect_function_call_site_data s of_nat divide x.loop_blocks c.pdg)
          c.callgraph
