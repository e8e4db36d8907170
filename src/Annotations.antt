-- ===== src/Annotations.antt =====
-- include/Utils/AnnotationParser.h, lib/Utils/JsonAnnotationParser.cpp and ModuleAnnotationParser.cpp: the
-- annotations of a program. What is logged is left out.
pub mod Parsed
pub mod Single
pub mod Functions
use program_partitioning_for.Base.{
  ℕ, Bool, true, false, not, ◌&&◌, ◌||◌, List, [], ◌∷◌, ◌++◌, Option, none, some, ◌==◌,
  if◌then◌else◌, any,
}
use program_partitioning_for.Texts.{String, str_eq, find_text}
use program_partitioning_for.Llvm.{FunctionRef, null}
use program_partitioning_for.Partitioner.Traversal.{Annotation}

-- Annotation(annotation, F)
unfoldable pub new_annotation : String → FunctionRef → Annotation
new_annotation s f = record { annotation = s; function = f; arguments = []; is_return = false }

-- Annotation::operator ==
unfoldable pub same_annotation : Annotation → Annotation → Bool
same_annotation a b = (a.function == b.function) && str_eq a.annotation b.annotation

-- AnnotationParser::Annotations and insert: an element that is equal to one in the set is not taken.
unfoldable pub insert_annotation : Annotation → List Annotation → List Annotation
unfolding same_annotation any
insert_annotation a set = if any (same_annotation a) set then set else set ++ a ∷ []

-- m_annotations[key].insert(a)
unfoldable pub insert_at :
    String → Annotation → List (String × List Annotation) → List (String × List Annotation)
unfolding insert_annotation
insert_at key a [] = (key, insert_annotation a []) ∷ []
insert_at key a ((k, set) ∷ m) =
    if str_eq k key then (k, insert_annotation a set) ∷ m else (k, set) ∷ insert_at key a m

-- The members of AnnotationParser.
pub record AnnotationParser : Type 0 where
  pub parsed : Bool
  pub annotations : List (String × List Annotation)

abbrev pub new_annotation_parser : AnnotationParser
new_annotation_parser = record { parsed = false; annotations = [] }

-- getAllAnnotations puts each set before those that came earlier.
unfoldable pub all_annotations : List (String × List Annotation) → List Annotation → List Annotation
all_annotations [] all = all
all_annotations ((k, set) ∷ m) all = all_annotations m (set ++ all)

-- `parse` is parseAnnotations of the derived class.
module _ (parse : AnnotationParser → AnnotationParser) where
  unfoldable pub parse_once : AnnotationParser → AnnotationParser
  parse_once p = if p.parsed then p else parse p

  -- hasAnnotations
  unfoldable pub has_annotations : String → AnnotationParser → Bool × AnnotationParser
  unfolding parse_once find_text
  has_annotations s p =
      let q = parse_once p in
      (elim (find_text s q.annotations) [ none ↦ false | some set ↦ true ], q)

  -- getAnnotations: for a text without annotations it reads what find gives past the end, none here.
  unfoldable pub get_annotations :
      String → AnnotationParser → Option (List Annotation) × AnnotationParser
  unfolding parse_once find_text
  get_annotations s p = let q = parse_once p in (find_text s q.annotations, q)

  -- getAllAnnotations
  unfoldable pub get_all_annotations : AnnotationParser → List Annotation × AnnotationParser
  unfolding parse_once all_annotations
  get_all_annotations p = let q = parse_once p in (all_annotations q.annotations [], q)

-- An element of "functions" in the file: "function", "arguments" if it is there, and whether "return" is.
pub record JsonFunction : Type 0 where
  pub function_name : String
  pub arguments : Option (List ℕ)
  pub has_return : Bool

-- An element of the file: "annotation" and "functions".
pub record JsonItem : Type 0 where
  pub annotation : String
  pub functions : List JsonFunction

-- addAnnotatedArgument for each argument
unfoldable pub add_annotated_arguments : List ℕ → Annotation → Annotation
add_annotated_arguments [] a = a
add_annotated_arguments (arg ∷ args) a =
    add_annotated_arguments args (record a { arguments = a.arguments ++ arg ∷ [] })

-- The annotation that the body of the inner loop makes.
unfoldable pub json_annotation : String → JsonFunction → FunctionRef → Annotation
unfolding new_annotation add_annotated_arguments
json_annotation s j f =
    let a : Annotation = elim j.arguments [
      | none ↦ new_annotation s f
      | some args ↦ add_annotated_arguments args (new_annotation s f)
    ] in
    record a { is_return = j.has_return }

-- `get_function` is llvm::Module::getFunction: null if the module has no function of the name.
module _ (get_function : String → FunctionRef) where
  unfoldable pub add_json_functions :
      String → List JsonFunction → List (String × List Annotation) → List (String × List Annotation)
  unfolding json_annotation insert_at
  add_json_functions s [] m = m
  add_json_functions s (j ∷ js) m =
      let f = get_function j.function_name in
      add_json_functions s js (if f == null then m else insert_at s (json_annotation s j f) m)

  unfoldable pub add_json_items :
      List JsonItem → List (String × List Annotation) → List (String × List Annotation)
  unfolding add_json_functions
  add_json_items [] m = m
  add_json_items (item ∷ items) m =
      add_json_items items (add_json_functions item.annotation item.functions m)

  -- JsonAnnotationParser::parseAnnotations of what the file holds; none is a file that is not opened.
  unfoldable pub parse_json : Option (List JsonItem) → AnnotationParser → AnnotationParser
  unfolding add_json_items
  parse_json file p = record {
    parsed = true;
    annotations = elim file [
      | none ↦ p.annotations
      | some items ↦ add_json_items items p.annotations
    ];
  }

-- An operand of llvm.global.annotations: the function, if it annotates one, and the text.
pub record AnnotationOperand : Type 0 where
  pub function : Option FunctionRef
  pub text : String

unfoldable pub add_operands :
    List AnnotationOperand → List (String × List Annotation) → List (String × List Annotation)
unfolding new_annotation insert_at
add_operands [] m = m
add_operands (o ∷ os) m =
    add_operands os
      (elim o.function [ none ↦ m | some f ↦ insert_at o.text (new_annotation o.text f) m ])

-- ModuleAnnotationParser::parseAnnotations; none is a module without the global.
unfoldable pub parse_module : Option (List AnnotationOperand) → AnnotationParser → AnnotationParser
unfolding add_operands
parse_module global p = record {
  parsed = true;
  annotations = elim global [ none ↦ p.annotations | some os ↦ add_operands os p.annotations ];
}
