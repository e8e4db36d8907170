-- ===== src/PartitionExtractor/Names.antt =====
-- The names that PartitionExtractor::extract hands to LLVM for cloning.
use program_partitioning_for.Base.{
  ◌≡◌, refl, subst, Bool, true, false, not, ◌&&◌, ◌||◌, List, [], ◌∷◌, ◌++◌, some, arith,
  Bool-cases, inl, inr, any, ◌==◌,
}
use program_partitioning_for.Texts.{String, str_eq, str_eq-true, contains_text}
use program_partitioning_for.Llvm.{FunctionRef, GlobalRef, Module, null}
use program_partitioning_for.Partition.{Partition}
use program_partitioning_for.PartitionExtractor.{
  insert_text, is_extractable, extract_functions, extract_names, extract, is_none,
}

contains_text-push :
    (s : List String) (x n : String)
    → contains_text (s ++ x ∷ []) n ≡ (str_eq x n || contains_text s n)
unfolding contains_text
contains_text-push [] x n = refl
contains_text-push (y ∷ s) x n = ground (arith, contains_text-push s x n)

contains_text-same :
    (s : List String) (x n : String)
    → contains_text s x ≡ true
    → str_eq x n ≡ true
    → contains_text s n ≡ true
contains_text-same s x n h e = subst (λ y. contains_text s y ≡ true) (str_eq-true x n e) h

contains_text-insert_text :
    (x : String) (s : List String) (n : String)
    → contains_text (insert_text x s) n ≡ (str_eq x n || contains_text s n)
unfolding insert_text
contains_text-insert_text x s n = elim (Bool-cases (contains_text s x)) [
  | inl e ↦ rw (e, insert_text) (ground (arith, contains_text-same s x n e))
  | inr e ↦ rw (e, insert_text) (contains_text-push s x n)
]

-- A function with a body that is no intrinsic.
abbrev pub is_defined : Module → FunctionRef → Bool
is_defined m f = not (f == null) && not (m.is_declaration f) && not (m.is_intrinsic f)

is_extractable-defined : (m : Module) (f : FunctionRef) → is_extractable m f ≡ is_defined m f
unfolding is_extractable
is_extractable-defined m f = ground arith

extract_functions_lem :
    (m : Module) (fs : List FunctionRef) (acc : Bool × List String) (n : String)
    → ((extract_functions m fs acc).0 ≡ (any (is_defined m) fs || acc.0))
      × (contains_text (extract_functions m fs acc).1 n
          ≡ (any (λ f. is_defined m f && str_eq (m.name f) n) fs || contains_text acc.1 n))
unfolding extract_functions any
extract_functions_lem m [] acc n = (refl, refl)
extract_functions_lem m (f ∷ fs) acc n = elim (Bool-cases (is_extractable m f)) [
  | inl e ↦
      let (found, names) = extract_functions_lem m fs (true, insert_text (m.name f) acc.1) n in
      rw (e, extract_functions)
        (
          ground (arith, found, is_extractable-defined m f, e),
          ground (
            arith,
            names,
            contains_text-insert_text (m.name f) acc.1 n,
            is_extractable-defined m f,
            e,
          ),
        )
  | inr e ↦
      let (found, names) = extract_functions_lem m fs acc n in
      rw (e, extract_functions)
        (
          ground (arith, found, is_extractable-defined m f, e),
          ground (arith, names, is_extractable-defined m f, e),
        )
]

extract_names_lem :
    (name : FunctionRef → String) (fs : List FunctionRef) (names : List String) (n : String)
    → contains_text (extract_names name fs names) n
      ≡ (any (λ f. str_eq (name f) n) fs || contains_text names n)
unfolding extract_names any
extract_names_lem name [] names n = refl
extract_names_lem name (f ∷ fs) names n = ground (
  arith,
  extract_names_lem name fs (insert_text (name f) names) n,
  contains_text-insert_text (name f) names n,
)

-- Where the partition has a function with a body that is no intrinsic, or there are additional functions,
-- a module is made. The names that are cloned are exactly those of such functions of the partition, of
-- the additional functions, and of the partition's globals.
pub extract_lem :
    (m : Module) (global_name : GlobalRef → String) (p : Partition) (additional : List FunctionRef)
    → (any (is_defined m) p.partition || not (is_none additional)) ≡ true
    → (names : List String) × (extract m global_name p additional ≡ some names)
      × ((n : String)
          → contains_text names n ≡ (
              any (λ f. is_defined m f && str_eq (m.name f) n) p.partition
              || any (λ f. str_eq (m.name f) n) additional
              || any (λ g. str_eq (global_name g) n) p.partition_globals))
unfolding extract contains_text
extract_lem m global_name p additional h =
    let found = extract_functions m p.partition (false, []) in
    let names = extract_names m.name additional found.1 in
    let made : (found.0 || not (is_none additional)) ≡ true =
      ground (arith, h, (extract_functions_lem m p.partition (false, []) "").0) in
    (
      extract_names global_name p.partition_globals names,
      rw (made, extract) refl,
      λ n. ground (
        arith,
        extract_names_lem global_name p.partition_globals names n,
        extract_names_lem m.name additional found.1 n,
        (extract_functions_lem m p.partition (false, []) n).1,
      ),
    )
