-- ===== src/PartitionExtractor.antt =====
-- PartitionExtractor and PartitionExtractorPass of lib/Transforms/PartitionExtractor.cpp: what goes to the
-- two modules. LLVM's CloneModule, which makes a module with the bodies of the named functions, is a
-- parameter; the files that the modules are saved to are left out.
pub mod Names
pub mod Globals
pub mod Setters
pub mod Pass
use program_partitioning_for.Base.{
  Bool, true, false, not, ◌&&◌, ◌||◌, List, [], ◌∷◌, ◌++◌, Option, none, some, if◌then◌else◌, ◌==◌,
}
use program_partitioning_for.Texts.{String, ◌<>◌, contains_text}
use program_partitioning_for.Llvm.{FunctionRef, GlobalRef, Module, null}
use program_partitioning_for.Partition.{Partition, add_to_partition, contains_function_with_name}

-- std::unordered_set<std::string>::insert
unfoldable pub insert_text : String → List String → List String
unfolding contains_text
insert_text x s = if contains_text s x then s else s ++ x ∷ []

-- The tests at the start of the first loop of extract.
unfoldable pub is_extractable : Module → FunctionRef → Bool
is_extractable m f = not (f == null) && not (m.is_declaration f || m.is_intrinsic f)

-- The first loop of extract: whether something is extracted, and the names.
unfoldable pub extract_functions :
    Module → List FunctionRef → Bool × List String → Bool × List String
unfolding insert_text is_extractable
extract_functions m [] acc = acc
extract_functions m (f ∷ fs) acc =
    extract_functions m fs
      (if is_extractable m f then (true, insert_text (m.name f) acc.1) else acc)

-- The loops over m_additionalFunctions and over the globals.
unfoldable pub extract_names : (FunctionRef → String) → List FunctionRef → List String → List String
unfolding insert_text
extract_names name [] names = names
extract_names name (f ∷ fs) names = extract_names name fs (insert_text (name f) names)

abbrev pub is_none : List FunctionRef → Bool
is_none [] = true
is_none (f ∷ fs) = false

-- extract, up to createModule; none: nothing is extracted.
unfoldable pub extract :
    Module → (GlobalRef → String) → Partition → List FunctionRef → Option (List String)
unfolding extract_functions extract_names
extract m global_name p additional =
    let found = extract_functions m p.partition (false, []) in
    let names =
      extract_names global_name p.partition_globals (extract_names m.name additional found.1) in
    if found.0 || not (is_none additional) then some names else none

-- A function of a cloned module.
pub record SlicedFunction : Type 0 where
  pub name : String
  pub is_declaration : Bool
  pub user_empty : Bool

-- The test of the loop of createModule.
unfoldable pub is_unused : SlicedFunction → Bool
is_unused f = f.is_declaration && f.user_empty

-- The loop of createModule: after a function is erased, the one that follows it is passed over; where
-- none follows, the iterator is advanced past the end, which is none here.
unfoldable pub erase_unused : List SlicedFunction → Option (List SlicedFunction)
unfolding is_unused
erase_unused [] = some []
erase_unused (f ∷ []) = if is_unused f then none else some (f ∷ [])
erase_unused (f ∷ g ∷ fs) =
    let after_next = erase_unused fs in
    let next = erase_unused (g ∷ fs) in
    if is_unused f
    then elim after_next [ none ↦ none | some rest ↦ some (g ∷ rest) ]
    else elim next [ none ↦ none | some rest ↦ some (f ∷ rest) ]

-- createModule, with CloneModule as a parameter that is given the names to clone.
unfoldable pub create_module :
    (List String → List SlicedFunction) → List String → Option (List SlicedFunction)
unfolding erase_unused
create_module clone names = erase_unused (clone names)

-- renameInsecureCalls
unfoldable pub rename_insecure_calls :
    Module → String → List SlicedFunction → Partition → List SlicedFunction
unfolding contains_function_with_name
rename_insecure_calls m prefix [] insecure = []
rename_insecure_calls m prefix (f ∷ fs) insecure =
    (if f.is_declaration && contains_function_with_name m insecure f.name
      then record f { name = prefix <> f.name }
      else f)
    ∷ rename_insecure_calls m prefix fs insecure

-- The loop of extractPartition over the setters of globals.
unfoldable pub add_setters : List FunctionRef → Partition → Partition
unfolding add_to_partition
add_setters [] p = p
add_setters (f ∷ fs) p = add_setters fs (add_to_partition f p)

-- extractPartition: the functions of the module that is saved, if one is; the outer none is a failure.
unfoldable pub extract_partition :
    Module
    → (GlobalRef → String)
    → (List String → List SlicedFunction)
    → List FunctionRef
    → Bool
    → Partition × Partition
    → Option (Option (List SlicedFunction))
unfolding extract create_module rename_insecure_calls add_setters
extract_partition m global_name clone setters enclave sides =
    let p = add_setters setters (if enclave then sides.0 else sides.1) in
    elim (extract m global_name p setters) [
      | none ↦ some none
      | some names ↦ elim (create_module clone names) [
        | none ↦ none
        | some sliced ↦
            some (
              some (if enclave then rename_insecure_calls m "insecure_" sliced sides.1 else sliced))
      ]
    ]
