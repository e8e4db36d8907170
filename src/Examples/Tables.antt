-- ===== src/Examples/Tables.antt =====
-- Examples for the numbers of calls: the function 2 calls the function 3 twice.
use program_partitioning_for.Base.{◌≡◌, refl, any, false, [], ◌∷◌, if◌then◌else◌, ◌==◌}
use program_partitioning_for.Base.Int.{pos}
use program_partitioning_for.OptimizationData.{FunctionBodies, new_row, get_call_num, fill_row}
use program_partitioning_for.OptimizationData.Counts.{edge_call, fill_row-calls}
use program_partitioning_for.Examples.{graphs}

abbrev bodies : FunctionBodies
bodies = record {
  call_instructions = λ f.
      if f == 2
      then record { node = 22; in_loop = false } ∷ record { node = 22; in_loop = false } ∷ []
      else [];
  block_sizes = λ f. 3 ∷ 4 ∷ [];
  initial_size = λ f. pos 0;
}

fill_row-calls_example :
    get_call_num 3 (fill_row graphs bodies (new_row bodies 2)).context_switch_num ≡ pos 2
unfolding edge_call any
fill_row-calls_example = fill_row-calls graphs 3 bodies 2 refl
