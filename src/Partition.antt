-- ===== src/Partition.antt =====
-- lib/Analysis/Partition.cpp: one side of the partitioning, as sets of functions and globals with the
-- levels of the related functions. The sets hold pointers in the order of an iteration; what depends
-- on that order is not observable through the operations here. A level is never negative in the
-- program, so it is a natural number.
pub mod Levels
pub mod Membership
pub mod Refinement
use Prim.Native.String.{String}
use text.Mathlib.Text.{◌==◌ as str_eq}
use program_partitioning_for.Base.{
  ℕ, min, List, [], ◌∷◌, Bool, true, false, ◌||◌, Option, none, some, find, put, emplace,
  remove_key, contains, insert, insert_all, erase,
}
use program_partitioning_for.Llvm.{Module, FunctionRef, GlobalRef}

pub record Partition : Type 0 where
  pub related_functions : List (FunctionRef × ℕ)
  pub partition : List FunctionRef
  pub in_interface : List FunctionRef
  pub out_interface : List FunctionRef
  pub partition_globals : List GlobalRef

-- Partition()
abbrev pub empty : Partition
empty = record {
  related_functions = [];
  partition = [];
  in_interface = [];
  out_interface = [];
  partition_globals = [];
}

-- The setters; the overload that takes an rvalue has the same effect.
unfoldable pub set_partition : List FunctionRef → Partition → Partition
set_partition fs p = record p { partition = fs }

unfoldable pub set_in_interface : List FunctionRef → Partition → Partition
set_in_interface fs p = record p { in_interface = fs }

unfoldable pub set_out_interface : List FunctionRef → Partition → Partition
set_out_interface fs p = record p { out_interface = fs }

unfoldable pub set_globals : List GlobalRef → Partition → Partition
set_globals gs p = record p { partition_globals = gs }

-- addToPartition(llvm::Function*)
unfoldable pub add_to_partition : FunctionRef → Partition → Partition
add_to_partition f p = record p { partition = insert f p.partition }

-- addToPartition(const FunctionSet&)
unfoldable pub add_set_to_partition : List FunctionRef → Partition → Partition
add_set_to_partition fs p = record p { partition = insert_all fs p.partition }

-- addRelatedFunction: an entry that is there keeps its level.
unfoldable pub add_related_function : FunctionRef → ℕ → Partition → Partition
add_related_function f level p = record p {
  related_functions = emplace f level p.related_functions;
}

-- One round of the loop in addRelatedFunctions: of two levels the smaller one stays.
unfoldable pub merge_level : FunctionRef → ℕ → List (FunctionRef × ℕ) → List (FunctionRef × ℕ)
merge_level f level m = elim (find f m) [
  | none ↦ put f level m
  | some old ↦ put f (min old level) m
]

unfoldable pub merge_levels :
    List (FunctionRef × ℕ) → List (FunctionRef × ℕ) → List (FunctionRef × ℕ)
unfolding merge_level
merge_levels [] m = m
merge_levels ((f, level) ∷ rest) m = merge_levels rest (merge_level f level m)

-- addRelatedFunctions(const Partition&)
unfoldable pub add_related_functions : Partition → Partition → Partition
unfolding merge_levels
add_related_functions q p = record p {
  related_functions = merge_levels q.related_functions p.related_functions;
}

-- addToPartition(const Partition&)
unfoldable pub add_partition_to_partition : Partition → Partition → Partition
unfolding add_related_functions
add_partition_to_partition q p = add_related_functions q (record p {
  partition = insert_all q.partition p.partition;
  in_interface = insert_all q.in_interface p.in_interface;
  out_interface = insert_all q.out_interface p.out_interface;
  partition_globals = insert_all q.partition_globals p.partition_globals;
})

unfoldable pub remove_from_partition : FunctionRef → Partition → Partition
remove_from_partition f p = record p { partition = erase f p.partition }

unfoldable pub remove_related_function : FunctionRef → Partition → Partition
remove_related_function f p = record p { related_functions = remove_key f p.related_functions }

unfoldable pub clear_related_functions : Partition → Partition
clear_related_functions p = record p { related_functions = [] }

-- getFunctionRelationLevel: none is the code's -1.
unfoldable pub get_function_relation_level : FunctionRef → Partition → Option ℕ
get_function_relation_level f p = find f p.related_functions

-- contains(llvm::Function*)
unfoldable pub contains_function : Partition → FunctionRef → Bool
contains_function p f = contains p.partition f

any_with_name : Module → List FunctionRef → String → Bool
any_with_name m [] n = false
any_with_name m (f ∷ fs) n = str_eq (m.name f) n || any_with_name m fs n

-- containsFunctionWithName
unfoldable pub contains_function_with_name : Module → Partition → String → Bool
unfolding any_with_name
contains_function_with_name m p n = any_with_name m p.partition n

-- contains(llvm::GlobalVariable*), and references, which is the same search
unfoldable pub contains_global : Partition → GlobalRef → Bool
contains_global p g = contains p.partition_globals g

unfoldable pub references : Partition → GlobalRef → Bool
references p g = contains p.partition_globals g
