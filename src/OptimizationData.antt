-- ===== src/OptimizationData.antt =====
-- lib/Debug/ILPOptimizationData.cpp and OptimizationFactorsTable.cpp: the calls between functions, and the
-- linear program that is written from them.
pub mod Counts
use program_partitioning_for.Base.{
  ℕ, zero, suc, ◌+◌, ◌||◌, Bool, true, false, List, [], ◌∷◌, ◌++◌, Option, none, some,
  if◌then◌else◌, find, put,
}
use program_partitioning_for.Base.Int.{ℤ, pos, negsuc, eqb_ℤ, ◌+ℤ◌}
use program_partitioning_for.Texts.{String, ◌<>◌, str_eq, to_string, drop_last}
use program_partitioning_for.Llvm.{FunctionRef, Module}
use program_partitioning_for.Pdg.{Pdg, PdgEdge, NodeRef}
use program_partitioning_for.Partition.{Partition, contains_function}
use program_partitioning_for.ProtoFile.Writer.{int_to_string}

-- A call or invoke instruction: its node, and whether getLoopFor finds a loop for its block.
pub record CallInstruction : Type 0 where
  pub node : NodeRef
  pub in_loop : Bool

-- What a row is filled from: the calls in a function in their order, the sizes of its blocks, and what the
-- row's m_Fsize holds before it is filled, which the constructor leaves open.
pub record FunctionBodies : Type 0 where
  pub call_instructions : FunctionRef → List CallInstruction
  pub block_sizes : FunctionRef → List ℕ
  pub initial_size : FunctionRef → ℤ

-- getFunctionSize, with the sizes of the blocks.
unfoldable pub get_function_size : List ℕ → ℕ
get_function_size [] = 0
get_function_size (n ∷ ns) = n + get_function_size ns

-- ILPOptimizationDataRow; m_contextSwitchNum has -1 for a call in a loop.
pub record Row : Type 0 where
  pub function : FunctionRef
  pub size : ℤ
  pub context_switch_num : List (FunctionRef × ℤ)

abbrev pub new_row : FunctionBodies → FunctionRef → Row
new_row bodies f = record { function = f; size = bodies.initial_size f; context_switch_num = [] }

-- getCallNum; operator[] gives the same for a key that is missing.
unfoldable pub get_call_num : FunctionRef → List (FunctionRef × ℤ) → ℤ
unfolding find
get_call_num f m = elim (find f m) [ none ↦ pos 0 | some n ↦ n ]

-- The number after one more call.
unfoldable pub next_call_num : Bool → ℤ → ℤ
unfolding ◌+ℤ◌
next_call_num in_loop n =
    if eqb_ℤ n (negsuc 0) then n else (if in_loop then negsuc 0 else n +ℤ pos 1)

module _ (pdg : Pdg) where
  -- One out-edge of a call's node.
  unfoldable pub count_edge : Bool → PdgEdge → List (FunctionRef × ℤ) → List (FunctionRef × ℤ)
  unfolding get_call_num next_call_num put
  count_edge in_loop e m = elim e.is_control_edge [
    | false ↦ m
    | true ↦ elim (pdg.function_node e.destination) [
      | none ↦ m
      | some f ↦ put f (next_call_num in_loop (get_call_num f m)) m
    ]
  ]

  unfoldable pub count_edges : Bool → List PdgEdge → List (FunctionRef × ℤ) → List (FunctionRef × ℤ)
  unfolding count_edge
  count_edges in_loop [] m = m
  count_edges in_loop (e ∷ es) m = count_edges in_loop es (count_edge in_loop e m)

  unfoldable pub count_calls :
      List CallInstruction → List (FunctionRef × ℤ) → List (FunctionRef × ℤ)
  unfolding count_edges
  count_calls [] m = m
  count_calls (c ∷ cs) m = count_calls cs (count_edges c.in_loop (pdg.out_edges c.node) m)

  -- fillRow
  unfoldable pub fill_row : FunctionBodies → Row → Row
  unfolding count_calls get_function_size
  fill_row bodies row =
      if pdg.has_function_pdg row.function
      then record row {
        size = pos (get_function_size (bodies.block_sizes row.function));
        context_switch_num =
            count_calls (bodies.call_instructions row.function) row.context_switch_num;
      }
      else row

  -- The loop of collectOptimizationData, with the numbers of the functions from `idx` on.
  unfoldable pub collect_rows :
      FunctionBodies → Module → ℕ → List FunctionRef → List (FunctionRef × ℕ) × List Row
  unfolding fill_row
  collect_rows bodies m idx [] = ([], [])
  collect_rows bodies m idx (f ∷ fs) =
      let rest = collect_rows bodies m (suc idx) fs in
      let row =
        if m.is_declaration f then new_row bodies f else fill_row bodies (new_row bodies f) in
      ((f, idx) ∷ rest.0, row ∷ rest.1)

  -- collectOptimizationData
  unfoldable pub collect_optimization_data :
      FunctionBodies → Module → List (FunctionRef × ℕ) × List Row
  unfolding collect_rows
  collect_optimization_data bodies m = collect_rows bodies m 0 m.functions

-- The calls in a row's text.
unfoldable pub switches_text : Module → List (FunctionRef × ℤ) → String
switches_text m [] = ""
switches_text m ((f, n) ∷ rest) = m.name f <> " " <> int_to_string n <> "; " <> switches_text m rest

-- getRowAsString
unfoldable pub get_row_as_string : Module → Row → String
unfolding switches_text
get_row_as_string m row =
    m.name row.function
    <> " |"
    <> (if m.is_declaration row.function
        then ""
        else int_to_string row.size <> " |" <> switches_text m row.context_switch_num)
    <> "\n---------------------------------------------\n"

-- The first part of dumpTable: the rows with their numbers, from `i` on.
unfoldable pub numbered_rows : Module → ℕ → List Row → String
unfolding get_row_as_string
numbered_rows m i [] = ""
numbered_rows m i (row ∷ rows) =
    to_string i <> ") " <> get_row_as_string m row <> numbered_rows m (suc i) rows

-- The text once for each row; twice for each in the line below the heading.
unfoldable pub for_each_row : String → List Row → String
for_each_row text [] = ""
for_each_row text (row ∷ rows) = text <> for_each_row text rows

unfoldable pub heading : ℕ → List Row → String
heading i [] = ""
heading i (row ∷ rows) = to_string i <> " *" <> heading (suc i) rows

unfoldable pub call_cells : Row → List (FunctionRef × ℕ) → String
unfolding get_call_num
call_cells row [] = ""
call_cells row ((f, i) ∷ functions) =
    int_to_string (get_call_num f row.context_switch_num) <> " |" <> call_cells row functions

-- The lines of the calls, each with the line below it; `all` are all rows.
unfoldable pub call_lines : List (FunctionRef × ℕ) → List Row → ℕ → List Row → String
unfolding call_cells for_each_row
call_lines functions all i [] = ""
call_lines functions all i (row ∷ rows) =
    to_string i
    <> " *"
    <> call_cells row functions
    <> "\n"
    <> for_each_row " ---" all
    <> "\n"
    <> call_lines functions all (suc i) rows

-- dumpTable: the text of the file.
unfoldable pub dump_table : Module → List (FunctionRef × ℕ) → List Row → String
unfolding numbered_rows heading call_lines for_each_row
dump_table m functions rows =
    numbered_rows m 0 rows
    <> "   "
    <> heading 0 rows
    <> "\n"
    <> for_each_row " * *" rows
    <> "\n"
    <> call_lines functions rows 0 rows

-- The variable of a function, and of a call.
unfoldable pub variable_name : ℕ → String
variable_name idx = "v" <> to_string idx

unfoldable pub edge_name : ℕ → ℕ → String
edge_name idx callee = "f" <> to_string idx <> to_string callee

-- The number of a function; each function of the module has one.
unfoldable pub index_of : List (FunctionRef × ℕ) → FunctionRef → ℕ
unfolding find
index_of functions f = elim (find f functions) [ none ↦ 0 | some i ↦ i ]

module _ (functions : List (FunctionRef × ℕ)) where
  -- The objective's and the constraints' parts for the calls of one function.
  unfoldable pub call_objective : ℕ → List (FunctionRef × ℤ) → String
  unfolding index_of edge_name
  call_objective idx [] = ""
  call_objective idx ((callee, calls) ∷ rest) =
      (if eqb_ℤ calls (negsuc 0) then "100 " else int_to_string calls <> " ")
      <> "1.000000 "
      <> edge_name idx (index_of functions callee)
      <> " + "
      <> call_objective idx rest

  unfoldable pub call_constraints : ℕ → List (FunctionRef × ℤ) → String
  unfolding index_of edge_name variable_name
  call_constraints idx [] = ""
  call_constraints idx ((callee, calls) ∷ rest) =
      let j = index_of functions callee in
      edge_name idx j
      <> " - "
      <> variable_name idx
      <> " + "
      <> variable_name j
      <> " <= 1\n"
      <> edge_name idx j
      <> " + "
      <> variable_name idx
      <> " - "
      <> variable_name j
      <> " <= 1\n"
      <> call_constraints idx rest

  -- The objective, before the two characters at its end are taken away.
  unfoldable pub objective_text : List Row → String
  unfolding call_objective
  objective_text [] = ""
  objective_text (row ∷ rows) =
      call_objective (index_of functions row.function) row.context_switch_num <> objective_text rows

  module _ (m : Module) (secure : Partition) where
    is_fixed : FunctionRef → Bool
    is_fixed f = m.is_declaration f || str_eq (m.name f) "main"

    unfoldable pub constraints_text : List Row → String
    unfolding call_constraints is_fixed
    constraints_text [] = ""
    constraints_text (row ∷ rows) =
        let idx = index_of functions row.function in
        (if is_fixed row.function then variable_name idx <> "<= 0\n" else "")
        <> call_constraints idx row.context_switch_num
        <> constraints_text rows

    unfoldable pub bounds_text : List Row → String
    unfolding variable_name is_fixed contains_function
    bounds_text [] = ""
    bounds_text (row ∷ rows) =
        (if is_fixed row.function
          then ""
          else (if contains_function secure row.function then "1 <= " else "0 <= ")
            <> variable_name (index_of functions row.function)
            <> " <= 1\n")
        <> bounds_text rows

    unfoldable pub size_text : List Row → String
    unfolding variable_name
    size_text [] = ""
    size_text (row ∷ rows) =
        (if m.is_declaration row.function
          then ""
          else " - 100 "
            <> int_to_string row.size
            <> " "
            <> variable_name (index_of functions row.function))
        <> size_text rows

    -- dumpILPModule: the text of the file.
    unfoldable pub dump_ilp_module : List Row → String
    unfolding objective_text constraints_text bounds_text size_text drop_last
    dump_ilp_module rows =
        drop_last (drop_last ("Maximize\n" <> objective_text rows))
        <> size_text rows
        <> "\n"
        <> "Subject To\n"
        <> constraints_text rows
        <> "Bounds\n"
        <> bounds_text rows
        <> "end\n"
