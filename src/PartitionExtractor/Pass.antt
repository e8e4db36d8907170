-- ===== src/PartitionExtractor/Pass.antt =====
-- PartitionExtractorPass::runOnModule of lib/Transforms/PartitionExtractor.cpp.
use program_partitioning_for.Base.{ℕ, true, false, List, Option, none, some}
use program_partitioning_for.Texts.{String}
use program_partitioning_for.Llvm.{FunctionRef, Module}
use program_partitioning_for.Pdg.{Pdg, PdgNodes}
use program_partitioning_for.Partition.{Partition}
use program_partitioning_for.PartitionExtractor.{SlicedFunction, extract_partition, add_setters}
use program_partitioning_for.PartitionExtractor.Globals.{GlobalUses, get_global_setters}

-- runOnModule: the functions of the two modules, each of which may not be made. The setters for the enclave
-- stay in the secure partition.
unfoldable pub run_on_module :
    Module
    → Pdg
    → PdgNodes
    → GlobalUses
    → ℕ
    → (String → FunctionRef)
    → (List String → List SlicedFunction)
    → Partition × Partition
    → Option (Option (List SlicedFunction) × Option (List SlicedFunction))
unfolding get_global_setters extract_partition add_setters
run_on_module m pdg ns u fuel create clone sides =
    elim (get_global_setters pdg ns u fuel create true sides) [
      | none ↦ none
      | some enclave_setters ↦ elim (get_global_setters pdg ns u fuel create false sides) [
        | none ↦ none
        | some app_setters ↦
            elim (extract_partition m u.global_name clone enclave_setters true sides) [
              | none ↦ none
              | some enclave ↦
                  elim (extract_partition m u.global_name clone app_setters false
                    (add_setters enclave_setters sides.0, sides.1)) [
                      | none ↦ none
                      | some app ↦ some (enclave, app)
                    ]
            ]
      ]
    ]
