-- ===== src/Examples/Analyses.antt =====
-- Examples for the annotations, the weights and the whole analysis.
use program_partitioning_for.Base.{
  ◌≡◌, refl, Bool, true, false, ◌*◌, List, [], ◌∷◌, Option, none, some, arith, if◌then◌else◌,
  contains, subst, sym, insert, find, keys, all, Bool-cases, inl, inr, ==_iff, ◌==◌, ℕ, put,
}
use program_partitioning_for.Base.Int.{ℤ, pos, ◌+ℤ◌, negate}
use program_partitioning_for.Texts.{String, str_eq}
use program_partitioning_for.Llvm.{FunctionRef, BlockRef}
use program_partitioning_for.Numbers.{int_scalar, is_pos_infinity, increment}
use program_partitioning_for.Partition.{Partition, empty}
use program_partitioning_for.Partitioner.{partition}
use program_partitioning_for.Partitioner.Annotated.{is_annotated}
use program_partitioning_for.Partitioner.Traversal.{Annotation}
use program_partitioning_for.CallGraph.{CallGraph, Edge, Node}
use program_partitioning_for.CallGraph.Weights.{sensitive, new_weight}
use program_partitioning_for.CallGraph.Assign.{
  FunctionData, other_type, collect_function_call_site_data,
}
use program_partitioning_for.CallGraph.Normalize.{node_place, value_at, assign_weights}
use program_partitioning_for.CallGraph.Infinite.Assigned.{HasSlots}
use program_partitioning_for.CallGraph.Weighted.{HasCallers, assign_weights-ends}
use program_partitioning_for.CallGraph.Infinite.Normalized.{assign_weights-secure}
use program_partitioning_for.Annotations.{
  new_annotation_parser, get_all_annotations, JsonItem, parse_json,
}
use program_partitioning_for.Annotations.Parsed.{first_entry, file_entries}
use program_partitioning_for.Annotations.Single.{all_for, at_most_one, parse_json-only_first}
use program_partitioning_for.Annotations.Functions.{is_named, get_all_annotations-named}
use program_partitioning_for.ProgramPartitionAnalysis.{Inputs, read_annotations}
use program_partitioning_for.Examples.{graphs}
use program_partitioning_for.PartitionOptimizer.{Setting}
use program_partitioning_for.Examples.Optimizers.{setting}
use program_partitioning_for.Examples.Partitioners.{nodes, types, annotations}

-- The function 3 under the name `decrypt`; nothing else is found.
abbrev get_function : String → FunctionRef
get_function s = if str_eq s "decrypt" then 3 else 0

-- The second entry of `decrypt` adds an argument.
abbrev items : List JsonItem
items =
    record {
      annotation = "sensitive";
      functions =
          record { function_name = "decrypt"; arguments = none; has_return = true }
          ∷ record { function_name = "missing"; arguments = none; has_return = false }
          ∷ record { function_name = "decrypt"; arguments = some (0 ∷ []); has_return = false }
          ∷ [];
    }
    ∷ []

parse_json-only_first_example :
    all_for "sensitive" 3 (parse_json get_function (some items) new_annotation_parser).annotations
    ≡ at_most_one (first_entry "sensitive" 3 (file_entries get_function items))
parse_json-only_first_example = parse_json-only_first get_function "sensitive" 3 items

get_all_annotations-named_example :
    is_annotated
      (get_all_annotations (parse_json get_function (some items)) new_annotation_parser).0
      3
    ≡ is_named get_function 3 items
get_all_annotations-named_example = get_all_annotations-named get_function 3 items

abbrev sizes : FunctionData
sizes = record {
  function_size = λ f. 10 * f;
  arg_types = λ f. other_type ∷ [];
  return_type = λ f. other_type;
}

abbrev no_loops : FunctionRef → Option (BlockRef → Bool)
no_loops f = none

-- A call of the function 2 by the function 1.
abbrev call : Edge ℤ
call = record { source = 1; sink = 2; weight = new_weight int_scalar }

abbrev small_graph : CallGraph ℤ
small_graph =
    (
      2,
      record {
        function = 2;
        in_edges = call ∷ [];
        out_edges = [];
        children = [];
        weight = new_weight int_scalar;
      },
    )
    ∷ []

abbrev only_two : Partition
only_two = record empty { partition = 2 ∷ [] }

abbrev the_graph : Option (CallGraph ℤ) → CallGraph ℤ
the_graph none = []
the_graph (some g) = g

abbrev weighted_graph : CallGraph ℤ
unfolding assign_weights contains insert is_pos_infinity ◌+ℤ◌ negate
weighted_graph =
    the_graph (assign_weights int_scalar pos (λ a b. a) no_loops graphs sizes only_two small_graph)

small_graph-weighted :
    assign_weights int_scalar pos (λ a b. a) no_loops graphs sizes only_two small_graph
    ≡ some weighted_graph
unfolding assign_weights contains insert is_pos_infinity ◌+ℤ◌ negate
small_graph-weighted = refl

small_graph-HasSlots : HasSlots int_scalar pos (λ a b. a) small_graph
unfolding find new_weight
small_graph-HasSlots f n h = ground (arith, h)

assign_weights-secure_example :
    value_at int_scalar sensitive (node_place 2) weighted_graph ≡ some (pos 100000)
unfolding contains ◌+ℤ◌ negate
assign_weights-secure_example =
    assign_weights-secure int_scalar pos (λ a b. a) no_loops graphs sizes only_two small_graph
      weighted_graph 2 refl small_graph-HasSlots small_graph-weighted refl

abbrev costs : List (ℕ × List (ℕ × ℤ))
costs = collect_function_call_site_data int_scalar pos (λ a b. a) no_loops graphs

costs_lem : find 2 costs ≡ some ((1, pos 1) ∷ [])
unfolding find collect_function_call_site_data is_pos_infinity ◌+ℤ◌ put increment
costs_lem = refl

small_graph-HasCallers :
    HasCallers int_scalar
      (collect_function_call_site_data int_scalar pos (λ a b. a) no_loops graphs)
      small_graph
unfolding find keys contains all
small_graph-HasCallers f n callers h c = elim (Bool-cases (2 == f)) [
  | inl e ↦
      let found = subst (λ k. find k small_graph ≡ some n) (sym ((==_iff 2 f).0 e)) h in
      let called = subst (λ k. find k costs ≡ some callers) (sym ((==_iff 2 f).0 e)) c in
      ground (arith, found, costs_lem, called)
  | inr e ↦ ground (arith, e, h)
]

assign_weights-ends_example :
    (g : CallGraph ℤ) × (assign_weights int_scalar pos
        (λ a b. a)
        no_loops
        graphs
        sizes
        only_two
        small_graph
      ≡ some g)
unfolding contains keys
assign_weights-ends_example =
    assign_weights-ends int_scalar pos (λ a b. a) no_loops graphs sizes only_two small_graph
      (refl, tt) (λ f h. ground (arith, h)) (λ f h. ground (arith, h)) small_graph-HasCallers

abbrev lonely : FunctionRef → Node ℤ
lonely f = record {
  function = f;
  in_edges = [];
  out_edges = [];
  children = [];
  weight = new_weight int_scalar;
}

-- The functions of the program, where 2 calls 3.
abbrev decrypt_graph : CallGraph ℤ
decrypt_graph =
    (1, lonely 1)
    ∷ (2, lonely 2)
    ∷ (3, record (lonely 3) { in_edges = record call { source = 2; sink = 3 } ∷ [] })
    ∷ (4, lonely 4)
    ∷ []

abbrev decrypt_setting : Setting ℤ
decrypt_setting = record setting { callgraph = decrypt_graph }

abbrev inputs : Inputs ℤ
inputs = record {
  types = types;
  nodes = nodes;
  loop_blocks = no_loops;
  sizes = sizes;
  get_function = get_function;
}

abbrev decrypt_annotations : List Annotation
decrypt_annotations =
    read_annotations int_scalar pos (λ a b. a) decrypt_setting inputs
      (parse_json get_function (some items))

abbrev sides : Partition × Partition
sides = (
  record {
    related_functions = [];
    partition = 3 ∷ [];
    in_interface = 3 ∷ [];
    out_interface = 4 ∷ [];
    partition_globals = 7 ∷ [];
  },
  record {
    related_functions = [];
    partition = 4 ∷ 2 ∷ 1 ∷ [];
    in_interface = [];
    out_interface = 3 ∷ [];
    partition_globals = 8 ∷ [];
  },
)
