-- ===== src/Examples/Sets.antt =====
-- Examples for the partitions and their interfaces.
use program_partitioning_for.Base.{
  ℕ, ◌≡◌, ◌↔◌, ◌≢◌, refl, keys, true, false, List, [], ◌∷◌, contains,
}
use program_partitioning_for.Partition.{empty}
use program_partitioning_for.Partition.Refinement.{
  Call, sets_globals, adds, removes, adds_related, adds_partition, perform_all, view, step_all,
  Represents, perform_all_refines,
}
use program_partitioning_for.PartitionUtils.{compute_in_interface, compute_out_interface}
use program_partitioning_for.PartitionUtils.Interfaces.{
  CalledFromOutside, Calls, compute_in_interface_iff, compute_out_interface_iff,
}
use program_partitioning_for.Examples.{graphs, secure_side}

abbrev calls : List Call
calls =
    adds 3
    ∷ adds 3
    ∷ adds_related 5 2
    ∷ adds_partition secure_side
    ∷ removes 3
    ∷ sets_globals (7 ∷ 8 ∷ [])
    ∷ []

perform_all_refines_example : Represents (perform_all calls empty) (step_all calls (view empty))
unfolding contains keys
perform_all_refines_example =
    perform_all_refines calls empty (tt, (tt, (tt, ((refl, tt), (tt, (tt, tt))))))

compute_in_interface_iff_example : (contains (compute_in_interface (2 ∷ []) graphs) 2 ≡ true) ↔ (
    (contains (2 ∷ []) 2 ≡ true)
    × (◌≢◌ {A = ℕ} 2 0)
    × (graphs.has_function_pdg 2 ≡ true)
    × CalledFromOutside graphs (2 ∷ []) 2)
compute_in_interface_iff_example = compute_in_interface_iff (2 ∷ []) graphs 2

compute_out_interface_iff_example : (contains (compute_out_interface (2 ∷ []) graphs) 3 ≡ true) ↔ (
    (contains (2 ∷ []) 3 ≡ false)
    × ((f : ℕ) × (contains (2 ∷ []) f ≡ true)
        × (f ≢ 0)
        × (graphs.has_function_pdg f ≡ true)
        × Calls graphs f 3))
compute_out_interface_iff_example = compute_out_interface_iff (2 ∷ []) graphs 3
