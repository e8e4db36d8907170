-- ===== src/Statistics.antt =====
-- lib/Analysis/PartitionStatistics.cpp and lib/Utils/Statistics.cpp: what is reported of two partitions,
-- as entries of a JSON object with three levels.
use program_partitioning_for.Base.{
  ℕ, ◌+◌, ◌*◌, Bool, ◌&&◌, List, [], ◌∷◌, Option, none, some, if◌then◌else◌, ◌==◌, find, length,
}
use program_partitioning_for.Texts.{String, ◌<>◌, str_eq, to_string}
use program_partitioning_for.Llvm.{FunctionRef, Module, null}
use program_partitioning_for.Numbers.{Scalar, plus, times}
use program_partitioning_for.CallGraph.{CallGraph, Edge, has_function_node}
use program_partitioning_for.CallGraph.Weights.{call_num, arg_num, get_factor}
use program_partitioning_for.Partition.{Partition, contains_function}

-- A value of the JSON object.
pub data Value (T : Type 0) : Type 0 where
  number : T → Value T
  unsigned : ℕ → Value T
  texts : List String → Value T

-- Statistics::key, with the three parts that JsonWriter::write uses.
abbrev pub Key : Type 0
Key = String × String × String

abbrev same_key : Key → Key → Bool
same_key j k = str_eq j.0 k.0 && str_eq j.1 k.1 && str_eq j.2 k.2

module _ {T : Type 0} where
  -- JsonWriter::write: an entry that is there is overwritten.
  unfoldable pub write_entry : Key → Value T → List (Key × Value T) → List (Key × Value T)
  write_entry k v [] = (k, v) ∷ []
  write_entry k v ((j, w) ∷ root) =
      let rest = write_entry k v root in if same_key j k then (j, v) ∷ root else (j, w) ∷ rest

  entry : String → String → Value T → List (Key × Value T) → List (Key × Value T)
  unfolding write_entry
  entry partition_name item v root = write_entry ("partition", partition_name, item) v root

-- The names of functions; none: a null function, for which the lambda of reportPartitionFunctions returns
-- nothing and the others read a null pointer.
unfoldable pub names_of : Module → List FunctionRef → Option (List String)
names_of m [] = some []
names_of m (f ∷ fs) = elim (names_of m fs) [
  | none ↦ none
  | some rest ↦ if f == null then none else some (m.name f ∷ rest)
]

unfoldable pub related_texts : Module → List (FunctionRef × ℕ) → Option (List String)
unfolding to_string
related_texts m [] = some []
related_texts m ((f, level) ∷ rest) = elim (related_texts m rest) [
  | none ↦ none
  | some seen ↦ if f == null then none else some ((m.name f <> "  " <> to_string level) ∷ seen)
]

-- The constructor: the size of the functions that have a body.
unfoldable pub module_size : Module → (FunctionRef → ℕ) → List FunctionRef → ℕ
module_size m function_size [] = 0
module_size m function_size (f ∷ fs) =
    let rest = module_size m function_size fs in
    if m.is_declaration f then rest else function_size f + rest

-- `of_nat` and `divide` are the conversion to `double` and its division.
module _ (s : Scalar) (of_nat : ℕ → s.T) (divide : s.T → s.T → s.T) where
  open s use {T}

  -- The values of the calls over edges of one direction to functions outside the partition.
  unfoldable pub ctx_switches_over : (Edge T → FunctionRef) → Partition → List (Edge T) → T → T
  unfolding get_factor plus
  ctx_switches_over other p [] n = n
  ctx_switches_over other p (e ∷ es) n =
      ctx_switches_over other p es (
        if contains_function p (other e)
        then n
        else plus s n (get_factor s call_num e.weight).value)

  -- getCtxSwitchesInFunction
  unfoldable pub get_ctx_switches_in_function : CallGraph T → Partition → FunctionRef → T
  unfolding ctx_switches_over
  get_ctx_switches_in_function g p f = elim (find f g) [
    | none ↦ s.zero
    | some n ↦
        ctx_switches_over (λ e. e.sink) p n.out_edges
          (ctx_switches_over (λ e. e.source) p n.in_edges s.zero)
  ]

  unfoldable pub args_passed_over : (Edge T → FunctionRef) → Partition → List (Edge T) → T → T
  unfolding get_factor plus times
  args_passed_over other p [] n = n
  args_passed_over other p (e ∷ es) n = args_passed_over other p es (
      if contains_function p (other e)
      then n
      else plus s n
          (times s (get_factor s call_num e.weight).value (get_factor s arg_num e.weight).value))

  -- getArgNumPassedFromFunction
  unfoldable pub get_arg_num_passed_from_function : CallGraph T → Partition → FunctionRef → T
  unfolding args_passed_over
  get_arg_num_passed_from_function g p f = elim (find f g) [
    | none ↦ s.zero
    | some n ↦
        args_passed_over (λ e. e.sink) p n.out_edges
          (args_passed_over (λ e. e.source) p n.in_edges s.zero)
  ]

  -- The loops of reportNumOfContextSwitches and repotArgsPassedAccrossPartition.
  unfoldable pub sum_over : (FunctionRef → T) → List FunctionRef → T → T
  unfolding plus
  sum_over count [] n = n
  sum_over count (f ∷ fs) n = sum_over count fs (plus s n (count f))

  -- The loop of reportSizeOfTCB.
  unfoldable pub tcb_size : CallGraph T → (FunctionRef → ℕ) → List FunctionRef → ℕ
  unfolding has_function_node
  tcb_size g function_size [] = 0
  tcb_size g function_size (f ∷ fs) =
      let rest = tcb_size g function_size fs in
      if has_function_node f g then function_size f + rest else rest

  portion : ℕ → ℕ → T
  portion part whole = divide (of_nat (part * 100)) (of_nat whole)

  unfoldable pub report_partition_functions :
      Module → String → Partition → List (Key × Value T) → Option (List (Key × Value T))
  unfolding names_of entry portion
  report_partition_functions m name p root = elim (names_of m p.partition) [
    | none ↦ none
    | some functions ↦ some (
        entry name "partition%" (number (portion (length p.partition) (length m.functions))) (
          entry name "partition_size" (unsigned (length functions))
            (entry name "partition_functions" (texts functions) root)))
  ]

  unfoldable pub report_security_related_functions :
      Module → String → Partition → List (Key × Value T) → Option (List (Key × Value T))
  unfolding related_texts entry portion
  report_security_related_functions m name p root = elim (related_texts m p.related_functions) [
    | none ↦ none
    | some related ↦ some (
        entry name "security_related%"
          (number (portion (length p.related_functions) (length m.functions)))
          (entry name "security_related_functions_size" (unsigned (length related))
            (entry name "security_related_functions" (texts related) root)))
  ]

  -- The key of the share holds the text m_partitionName in place of the partition's name.
  unfoldable pub report_in_interface :
      Module → String → Partition → List (Key × Value T) → Option (List (Key × Value T))
  unfolding names_of entry portion
  report_in_interface m name p root = elim (names_of m p.in_interface) [
    | none ↦ none
    | some in_interface ↦ some (
        entry "m_partitionName" "in_interface%"
          (number (portion (length p.in_interface) (length m.functions)))
          (entry name "in_interface_size" (unsigned (length in_interface))
            (entry name "in_interface" (texts in_interface) root)))
  ]

  unfoldable pub report_num_of_context_switches :
      CallGraph T → String → Partition → List (Key × Value T) → List (Key × Value T)
  unfolding entry sum_over get_ctx_switches_in_function
  report_num_of_context_switches g name p root =
      entry name "context_switches"
        (number (sum_over (get_ctx_switches_in_function g p) p.partition s.zero)) root

  unfoldable pub report_size_of_tcb :
      Module
      → (FunctionRef → ℕ)
      → CallGraph T
      → String
      → Partition
      → List (Key × Value T)
      → List (Key × Value T)
  unfolding entry tcb_size module_size portion
  report_size_of_tcb m function_size g name p root =
      let tcb : ℕ = tcb_size g function_size p.partition in
      entry name "TCB%" (number (portion tcb (module_size m function_size m.functions)))
        (entry name "TCB" (number (of_nat tcb)) root)

  unfoldable pub report_args_passed :
      CallGraph T → String → Partition → List (Key × Value T) → List (Key × Value T)
  unfolding entry sum_over get_arg_num_passed_from_function
  report_args_passed g name p root =
      entry name "args_passed"
        (number (sum_over (get_arg_num_passed_from_function g p) p.partition s.zero)) root

  -- report of one partition, which is called `name`.
  unfoldable pub report_partition :
      Module
      → (FunctionRef → ℕ)
      → CallGraph T
      → String
      → Partition
      → List (Key × Value T)
      → Option (List (Key × Value T))
  unfolding report_partition_functions report_security_related_functions report_in_interface
      report_num_of_context_switches report_size_of_tcb report_args_passed
  report_partition m function_size g name p root = elim (report_partition_functions m name p root) [
    | none ↦ none
    | some root1 ↦ elim (report_security_related_functions m name p root1) [
      | none ↦ none
      | some root2 ↦ elim (report_in_interface m name p root2) [
        | none ↦ none
        | some root3 ↦ some (
            report_args_passed g name p (
              report_size_of_tcb m function_size g name p
                (report_num_of_context_switches g name p root3)))
      ]
    ]
  ]

  -- report: of the secure partition, and then of the insecure one.
  unfoldable pub report :
      Module
      → (FunctionRef → ℕ)
      → CallGraph T
      → Partition
      → Partition
      → Option (List (Key × Value T))
  unfolding report_partition
  report m function_size g secure insecure =
      elim (report_partition m function_size g "secure_partition" secure []) [
        | none ↦ none
        | some root ↦ report_partition m function_size g "insecure_partition" insecure root
      ]
