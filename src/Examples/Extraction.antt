-- ===== src/Examples/Extraction.antt =====
-- Examples for the extraction of modules. The node 50 of the global 7 leads to the instruction at the node
-- 21, a store in the function 2.
use program_partitioning_for.Base.{
  ℕ, ◌≡◌, refl, true, false, ◌&&◌, ◌||◌, List, [], ◌∷◌, none, some, arith, any, contains,
  if◌then◌else◌, ◌==◌,
}
use program_partitioning_for.Texts.{String, str_eq, contains_text}
use program_partitioning_for.Llvm.{ValueRef}
use program_partitioning_for.Pdg.{Pdg}
use program_partitioning_for.Partition.{contains_function}
use program_partitioning_for.PartitionExtractor.{extract}
use program_partitioning_for.PartitionExtractor.Names.{is_defined, extract_lem}
use program_partitioning_for.PartitionExtractor.Globals.{
  GlobalUses, add_global_setter, found, out_of_rounds,
}
use program_partitioning_for.PartitionExtractor.Setters.{
  add_global_setter_diverges, add_global_setter-ends,
}
use program_partitioning_for.Examples.{program, graphs, secure_side}
use program_partitioning_for.Examples.Partitioners.{nodes}

abbrev uses : GlobalUses
uses = record {
  global_variable_node = λ g. if g == 7 then some 50 else none;
  global_name = λ g. "key";
  stored_global = λ v. if v == 11 then some 7 else none;
  store_function = λ v. 2;
}

abbrev data_graph : Pdg
data_graph = record graphs {
  out_edges = λ n.
      if n == 50
      then record { is_control_edge = false; source = 50; destination = 21 } ∷ []
      else [];
}

-- Every node leads to itself.
abbrev loop_graph : Pdg
loop_graph = record graphs {
  out_edges = λ n. record { is_control_edge = false; source = n; destination = n } ∷ [];
}

nodes-valued : (n : ℕ) → nodes.is_instruction_node n ≡ true → (nodes.node_value n == 0) ≡ false
nodes-valued n h = ground (arith, h)

add_global_setter-ends_example :
    (stores : List ValueRef) × (add_global_setter data_graph nodes uses secure_side 2 7
      ≡ found stores)
    × ((v : ValueRef)
        → contains stores v ≡ true
        → (uses.stored_global v ≡ some 7)
          × (contains_function secure_side (uses.store_function v) ≡ true))
add_global_setter-ends_example =
    add_global_setter-ends data_graph nodes uses secure_side 7 (λ n. if n == 50 then 2 else 1) 2 50
      nodes-valued (λ n. ground arith) refl (omega arith)

add_global_setter_diverges_example :
    add_global_setter loop_graph nodes uses secure_side 1000 7 ≡ out_of_rounds
unfolding any
add_global_setter_diverges_example =
    add_global_setter_diverges loop_graph nodes uses secure_side 7 (λ n. true) 1000 50 nodes-valued
      (λ n h. refl) refl refl

extract_lem_example :
    (names : List String) × (extract program (λ g. "key") secure_side (4 ∷ []) ≡ some names)
    × ((n : String)
        → contains_text names n ≡ (
            any (λ f. is_defined program f && str_eq (program.name f) n) secure_side.partition
            || any (λ f. str_eq (program.name f) n) (4 ∷ [])
            || any (λ g. str_eq "key" n) secure_side.partition_globals))
unfolding any
extract_lem_example = extract_lem program (λ g. "key") secure_side (4 ∷ []) refl
