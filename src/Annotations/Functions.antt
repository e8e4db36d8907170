-- ===== src/Annotations/Functions.antt =====
-- lib/Utils/JsonAnnotationParser.cpp and ModuleAnnotationParser.cpp: the functions that the parsed
-- annotations are of.
use program_partitioning_for.Base.{
  ℕ, ◌≡◌, refl, Bool, true, false, not, ◌&&◌, ◌||◌, List, [], ◌∷◌, ◌++◌, some, ◌==◌, any,
  any-append, Option-cases, arith, Bool-cases, inl, inr,
}
use program_partitioning_for.Texts.{String}
use program_partitioning_for.Llvm.{FunctionRef, null}
use program_partitioning_for.Partitioner.Traversal.{Annotation}
use program_partitioning_for.Partitioner.Annotated.{is_annotated}
use program_partitioning_for.Annotations.{
  new_annotation, same_annotation, insert_annotation, insert_at, new_annotation_parser,
  all_annotations, parse_once, get_all_annotations, JsonFunction, JsonItem, add_annotated_arguments,
  json_annotation, add_json_functions, add_json_items, parse_json,
}
use program_partitioning_for.Annotations.Parsed.{function_entries, file_entries}

-- The functions of the sets.
is_annotated_in : List (String × List Annotation) → FunctionRef → Bool
is_annotated_in [] f = false
is_annotated_in ((k, set) ∷ m) f = is_annotated set f || is_annotated_in m f

is_annotated-all_annotations :
    (m : List (String × List Annotation)) (all : List Annotation) (f : FunctionRef)
    → is_annotated (all_annotations m all) f ≡ (is_annotated_in m f || is_annotated all f)
unfolding all_annotations is_annotated_in
is_annotated-all_annotations [] all f = refl
is_annotated-all_annotations ((k, set) ∷ m) all f = ground (
  arith,
  is_annotated-all_annotations m (set ++ all) f,
  any-append (λ (a : Annotation). a.function == f) set all,
)

is_annotated-same :
    (a : Annotation) (set : List Annotation) (f : FunctionRef)
    → any (same_annotation a) set ≡ true
    → is_annotated set f ≡ ((a.function == f) || is_annotated set f)
unfolding any same_annotation
is_annotated-same a [] f e = ground (arith, e)
is_annotated-same a (b ∷ set) f e = ground (arith, e, is_annotated-same a set f)

is_annotated-insert_annotation :
    (a : Annotation) (set : List Annotation) (f : FunctionRef)
    → is_annotated (insert_annotation a set) f ≡ ((a.function == f) || is_annotated set f)
unfolding insert_annotation any
is_annotated-insert_annotation a set f = elim (Bool-cases (any (same_annotation a) set)) [
  | inl e ↦ rw e (is_annotated-same a set f e)
  | inr e ↦ rw e (ground (arith, any-append (λ (b : Annotation). b.function == f) set (a ∷ [])))
]

is_annotated-insert_at :
    (k : String) (a : Annotation) (m : List (String × List Annotation)) (f : FunctionRef)
    → is_annotated_in (insert_at k a m) f ≡ ((a.function == f) || is_annotated_in m f)
unfolding insert_at is_annotated_in any
is_annotated-insert_at k a [] f = ground (arith, is_annotated-insert_annotation a [] f)
is_annotated-insert_at k a ((j, set) ∷ m) f =
    ground (arith, is_annotated-insert_annotation a set f, is_annotated-insert_at k a m f)

function-add_annotated_arguments :
    (args : List ℕ) (a : Annotation) → (add_annotated_arguments args a).function ≡ a.function
unfolding add_annotated_arguments
function-add_annotated_arguments [] a = refl
function-add_annotated_arguments (arg ∷ args) a = function-add_annotated_arguments args _

function-json_annotation :
    (s : String) (j : JsonFunction) (f : FunctionRef) → (json_annotation s j f).function ≡ f
unfolding json_annotation new_annotation
function-json_annotation s j f = elim (Option-cases j.arguments) [
  | inl e ↦ rw (e, json_annotation) refl
  | inr (args, e) ↦
      rw (e, json_annotation) (function-add_annotated_arguments args (new_annotation s f))
]

module _ (get_function : String → FunctionRef) (f : FunctionRef) where
  is_annotated-add_json_functions :
      (s : String) (js : List JsonFunction) (m : List (String × List Annotation))
      → is_annotated_in (add_json_functions get_function s js m) f
        ≡ (is_annotated (function_entries get_function s js) f || is_annotated_in m f)
  unfolding add_json_functions any
  is_annotated-add_json_functions s [] m = refl
  is_annotated-add_json_functions s (j ∷ js) m =
      let g = get_function j.function_name in
      let a = json_annotation s j g in
      elim (Bool-cases (g == null)) [
        | inl e ↦ rw (e, add_json_functions) (is_annotated-add_json_functions s js m)
        | inr e ↦
            rw (e, add_json_functions)
              (ground (
                arith,
                is_annotated-add_json_functions s js (insert_at s a m),
                is_annotated-insert_at s a m f,
              ))
      ]

  is_annotated-add_json_items :
      (items : List JsonItem) (m : List (String × List Annotation))
      → is_annotated_in (add_json_items get_function items m) f
        ≡ (is_annotated (file_entries get_function items) f || is_annotated_in m f)
  unfolding add_json_items any
  is_annotated-add_json_items [] m = refl
  is_annotated-add_json_items (item ∷ items) m =
      let own = function_entries get_function item.annotation item.functions in
      ground (
        arith,
        is_annotated-add_json_items items
            (add_json_functions get_function item.annotation item.functions m),
        is_annotated-add_json_functions item.annotation item.functions m,
        any-append (λ (a : Annotation). a.function == f) own (file_entries get_function items),
      )

  -- A function of the module is named in the file.
  abbrev pub names_function : JsonFunction → Bool
  names_function j =
      not (get_function j.function_name == null) && (get_function j.function_name == f)

  abbrev pub is_named : List JsonItem → Bool
  is_named items = any (λ item. any names_function item.functions) items

  is_annotated-function_entries :
      (s : String) (js : List JsonFunction)
      → is_annotated (function_entries get_function s js) f ≡ any names_function js
  unfolding any
  is_annotated-function_entries s [] = refl
  is_annotated-function_entries s (j ∷ js) =
      let g = get_function j.function_name in
      ground (arith, is_annotated-function_entries s js, function-json_annotation s j g)

  is_annotated-file_entries :
      (items : List JsonItem) → is_annotated (file_entries get_function items) f ≡ is_named items
  unfolding any
  is_annotated-file_entries [] = refl
  is_annotated-file_entries (item ∷ items) =
      let own = function_entries get_function item.annotation item.functions in
      ground (
        arith,
        is_annotated-file_entries items,
        is_annotated-function_entries item.annotation item.functions,
        any-append (λ (a : Annotation). a.function == f) own (file_entries get_function items),
      )

  -- The functions of the annotations that a new parser of a file gives are exactly the functions of the
  -- module that the file names, whichever annotation names them.
  pub get_all_annotations-named :
      (items : List JsonItem)
      → is_annotated
          (get_all_annotations (parse_json get_function (some items)) new_annotation_parser).0
          f
        ≡ is_named items
  unfolding get_all_annotations parse_once parse_json is_annotated_in any
  get_all_annotations-named items = ground (
    arith,
    is_annotated-all_annotations (add_json_items get_function items []) [] f,
    is_annotated-add_json_items items [],
    is_annotated-file_entries items,
  )
