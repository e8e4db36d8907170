-- ===== src/Annotations/Parsed.antt =====
-- lib/Utils/JsonAnnotationParser.cpp and ModuleAnnotationParser.cpp: what the parsed annotations hold.
use program_partitioning_for.Base.{
  ℕ, ◌≡◌, refl, true, false, ◌&&◌, List, [], ◌∷◌, ◌++◌, Option, none, some, ◌==◌, if◌then◌else◌,
  any, Option-cases, ap, arith, subst, sym, ◌∙◌, Bool-cases, inl, inr, ==_iff,
}
use program_partitioning_for.Texts.{String, str_eq, str_eq-true}
use program_partitioning_for.Llvm.{FunctionRef, null}
use program_partitioning_for.Partitioner.Traversal.{Annotation}
use program_partitioning_for.Annotations.{
  new_annotation, same_annotation, insert_annotation, insert_at, new_annotation_parser,
  JsonFunction, JsonItem, add_annotated_arguments, json_annotation, add_json_functions,
  add_json_items, parse_json, AnnotationOperand, add_operands, parse_module,
}

-- The annotations of a file in its order, as they are written.
module _ (get_function : String → FunctionRef) where
  abbrev pub function_entries : String → List JsonFunction → List Annotation
  function_entries s [] = []
  function_entries s (j ∷ js) =
      let rest = function_entries s js in
      let f = get_function j.function_name in
      if f == null then rest else json_annotation s j f ∷ rest

  abbrev pub file_entries : List JsonItem → List Annotation
  file_entries [] = []
  file_entries (item ∷ items) =
      function_entries item.annotation item.functions ++ file_entries items

abbrev pub operand_entries : List AnnotationOperand → List Annotation
operand_entries [] = []
operand_entries (o ∷ os) =
    let rest = operand_entries os in
    elim o.function [ none ↦ rest | some f ↦ new_annotation o.text f ∷ rest ]

-- The first annotation of a function with a text.
unfoldable pub first_entry : String → FunctionRef → List Annotation → Option Annotation
first_entry s f [] = none
first_entry s f (a ∷ as') =
    if (a.function == f) && str_eq a.annotation s then some a else first_entry s f as'

-- The annotation of a function in the set of a text.
unfoldable pub lookup : String → FunctionRef → List (String × List Annotation) → Option Annotation
unfolding first_entry
lookup s f [] = none
lookup s f ((k, set) ∷ m) = if str_eq k s then first_entry s f set else lookup s f m

-- An earlier annotation goes before a later one.
abbrev pub or_else : Option Annotation → Option Annotation → Option Annotation
or_else (some a) b = some a
or_else none b = b

or_else-none : (a : Option Annotation) → a ≡ or_else a none
or_else-none none = refl
or_else-none (some a) = refl

pub first_entry-append :
    (s : String) (f : FunctionRef) (xs ys : List Annotation)
    → first_entry s f (xs ++ ys) ≡ or_else (first_entry s f xs) (first_entry s f ys)
unfolding first_entry
first_entry-append s f [] ys = refl
first_entry-append s f (a ∷ xs) ys = ground (arith, first_entry-append s f xs ys)

==_sym : (a b : ℕ) → (a == b) ≡ (b == a)
==_sym a b = ground arith

str_eq_sym : (s t : String) → str_eq s t ≡ str_eq t s
str_eq_sym s t = elim (Bool-cases (str_eq s t)) [
  | inl e ↦ subst (λ x. str_eq s x ≡ str_eq x s) (str_eq-true s t e) refl
  | inr e ↦ elim (Bool-cases (str_eq t s)) [
    | inl e' ↦ subst (λ x. str_eq x t ≡ str_eq t x) (str_eq-true t s e') refl
    | inr e' ↦ e ∙ sym e'
  ]
]

pub any_same :
    (a : Annotation) (set : List Annotation)
    → any (same_annotation a) set
      ≡ elim (first_entry a.annotation a.function set) [ none ↦ false | some b ↦ true ]
unfolding any same_annotation first_entry
any_same a [] = refl
any_same a (b ∷ set) =
    ground
      (arith, any_same a set, ==_sym a.function b.function, str_eq_sym a.annotation b.annotation)

first_entry_same :
    (s : String) (f : FunctionRef) (a : Annotation) (set : List Annotation)
    → any (same_annotation a) set ≡ true
    → first_entry s f set ≡ or_else (first_entry s f set) (first_entry s f (a ∷ []))
unfolding first_entry
first_entry_same s f a set e = elim (Bool-cases ((a.function == f) && str_eq a.annotation s)) [
  | inl c ↦
      let same : (a.function ≡ f) × (a.annotation ≡ s) = (
        (==_iff a.function f).0 (ground (arith, c)),
        str_eq-true a.annotation s (ground (arith, c)),
      ) in
      ground (
        arith,
        subst
            (λ x.
              any (same_annotation a) set
              ≡ elim (first_entry x f set) [ none ↦ false | some b ↦ true ])
            same.1
            (subst
              (λ x.
                any (same_annotation a) set
                ≡ elim (first_entry a.annotation x set) [ none ↦ false | some b ↦ true ])
              same.0 (any_same a set)),
        e,
      )
  | inr c ↦ rw c (or_else-none (first_entry s f set))
]

first_entry-insert_annotation :
    (s : String) (f : FunctionRef) (a : Annotation) (set : List Annotation)
    → first_entry s f (insert_annotation a set)
      ≡ or_else (first_entry s f set) (first_entry s f (a ∷ []))
unfolding insert_annotation
first_entry-insert_annotation s f a set = elim (Bool-cases (any (same_annotation a) set)) [
  | inl e ↦ rw e (first_entry_same s f a set e)
  | inr e ↦ rw e (first_entry-append s f set (a ∷ []))
]

first_entry_other :
    (s : String) (f : FunctionRef) (a : Annotation)
    → str_eq a.annotation s ≡ false
    → first_entry s f (a ∷ []) ≡ none
unfolding first_entry
first_entry_other s f a e = ground (arith, e)

lookup-insert_at :
    (s : String) (f : FunctionRef) (a : Annotation) (m : List (String × List Annotation))
    → lookup s f (insert_at a.annotation a m) ≡ or_else (lookup s f m) (first_entry s f (a ∷ []))
unfolding insert_at lookup insert_annotation any
lookup-insert_at s f a [] = elim (Bool-cases (str_eq a.annotation s)) [
  | inl e ↦ rw (e, lookup) refl
  | inr e ↦ rw (e, lookup) (ground arith)
]
lookup-insert_at s f a ((k, set) ∷ m) = elim (Bool-cases (str_eq k a.annotation)) [
  | inl e ↦ elim (Bool-cases (str_eq k s)) [
    | inl e' ↦ rw (e, insert_at) (rw (e', lookup) (first_entry-insert_annotation s f a set))
    | inr e' ↦
        let other = subst (λ x. str_eq x s ≡ false) (str_eq-true k a.annotation e) e' in
        rw (e, insert_at)
          (rw (e', lookup) (rw (first_entry_other s f a other) (or_else-none (lookup s f m))))
  ]
  | inr e ↦ elim (Bool-cases (str_eq k s)) [
    | inl e' ↦
        let other =
          str_eq_sym a.annotation s
          ∙ subst (λ x. str_eq x a.annotation ≡ false) (str_eq-true k s e') e in
        rw (e, insert_at)
          (rw (e', lookup)
            (rw (first_entry_other s f a other) (or_else-none (first_entry s f set))))
    | inr e' ↦ rw (e, insert_at) (rw (e', lookup) (lookup-insert_at s f a m))
  ]
]

new_annotation-annotation : (s : String) (f : FunctionRef) → (new_annotation s f).annotation ≡ s
unfolding new_annotation
new_annotation-annotation s f = refl

lookup-insert_at_text :
    (s : String) (f : FunctionRef) (t : String) (a : Annotation)
    (m : List (String × List Annotation))
    → a.annotation ≡ t
    → lookup s f (insert_at t a m) ≡ or_else (lookup s f m) (first_entry s f (a ∷ []))
lookup-insert_at_text s f t a m e =
    subst (λ x. lookup s f (insert_at x a m) ≡ or_else (lookup s f m) (first_entry s f (a ∷ []))) e
      (lookup-insert_at s f a m)

or_else_assoc : (a b c : Option Annotation) → or_else (or_else a b) c ≡ or_else a (or_else b c)
or_else_assoc none b c = refl
or_else_assoc (some x) b c = refl

add_annotated_arguments-annotation :
    (args : List ℕ) (a : Annotation) → (add_annotated_arguments args a).annotation ≡ a.annotation
unfolding add_annotated_arguments
add_annotated_arguments-annotation [] a = refl
add_annotated_arguments-annotation (arg ∷ args) a = add_annotated_arguments-annotation args _

json_annotation-annotation :
    (s : String) (j : JsonFunction) (f : FunctionRef) → (json_annotation s j f).annotation ≡ s
unfolding json_annotation new_annotation
json_annotation-annotation s j f = elim (Option-cases j.arguments) [
  | inl e ↦ rw (e, json_annotation) refl
  | inr (args, e) ↦
      rw (e, json_annotation) (add_annotated_arguments-annotation args (new_annotation s f))
]

first_entry-cons :
    (s : String) (f : FunctionRef) (a : Annotation) (rest : List Annotation)
    → first_entry s f (a ∷ rest) ≡ or_else (first_entry s f (a ∷ [])) (first_entry s f rest)
first_entry-cons s f a rest = first_entry-append s f (a ∷ []) rest

-- An annotation that is inserted goes before the later ones.
lookup_step :
    (s : String) (f : FunctionRef) (t : String) (a : Annotation) (entries : List Annotation)
    (m : List (String × List Annotation)) {o : Option Annotation}
    → a.annotation ≡ t
    → o ≡ or_else (lookup s f (insert_at t a m)) (first_entry s f entries)
    → o ≡ or_else (lookup s f m) (first_entry s f (a ∷ entries))
lookup_step s f t a entries m same h =
    h
    ∙ ap (λ x. or_else x (first_entry s f entries)) (lookup-insert_at_text s f t a m same)
    ∙ or_else_assoc (lookup s f m) (first_entry s f (a ∷ [])) (first_entry s f entries)
    ∙ ap (or_else (lookup s f m)) (sym (first_entry-cons s f a entries))

module _ (get_function : String → FunctionRef) (s : String) (f : FunctionRef) where
  lookup-add_json_functions :
      (t : String) (js : List JsonFunction) (m : List (String × List Annotation))
      → lookup s f (add_json_functions get_function t js m)
        ≡ or_else (lookup s f m) (first_entry s f (function_entries get_function t js))
  unfolding add_json_functions first_entry
  lookup-add_json_functions t [] m = or_else-none (lookup s f m)
  lookup-add_json_functions t (j ∷ js) m =
      elim (Bool-cases (get_function j.function_name == null)) [
        | inl e ↦ rw (e, add_json_functions) (lookup-add_json_functions t js m)
        | inr e ↦
            rw (e, add_json_functions)
              (lookup_step s f t (json_annotation t j (get_function j.function_name))
                (function_entries get_function t js) m
                (json_annotation-annotation t j (get_function j.function_name))
                (lookup-add_json_functions t js
                  (insert_at t (json_annotation t j (get_function j.function_name)) m)))
      ]

  lookup-add_json_items :
      (items : List JsonItem) (m : List (String × List Annotation))
      → lookup s f (add_json_items get_function items m)
        ≡ or_else (lookup s f m) (first_entry s f (file_entries get_function items))
  unfolding add_json_items first_entry
  lookup-add_json_items [] m = or_else-none (lookup s f m)
  lookup-add_json_items (item ∷ items) m =
      let own = function_entries get_function item.annotation item.functions in
      let others = file_entries get_function items in
      lookup-add_json_items items (add_json_functions get_function item.annotation item.functions m)
      ∙ ap (λ x. or_else x (first_entry s f others))
          (lookup-add_json_functions item.annotation item.functions m)
      ∙ or_else_assoc (lookup s f m) (first_entry s f own) (first_entry s f others)
      ∙ ap (or_else (lookup s f m)) (sym (first_entry-append s f own others))

  -- After a file is parsed by a new parser, the annotation of a function with a text is the first one in
  -- the file, with its arguments and its return value; what later entries say of the same function and
  -- text is lost.
  pub parse_json-first_entry :
      (items : List JsonItem)
      → lookup s f (parse_json get_function (some items) new_annotation_parser).annotations
        ≡ first_entry s f (file_entries get_function items)
  unfolding parse_json lookup
  parse_json-first_entry items = lookup-add_json_items items []

lookup-add_operands :
    (s : String) (f : FunctionRef) (os : List AnnotationOperand)
    (m : List (String × List Annotation))
    → lookup s f (add_operands os m) ≡ or_else (lookup s f m) (first_entry s f (operand_entries os))
unfolding add_operands first_entry
lookup-add_operands s f [] m = or_else-none (lookup s f m)
lookup-add_operands s f (o ∷ os) m = elim (Option-cases o.function) [
  | inl e ↦ rw (e, add_operands) (lookup-add_operands s f os m)
  | inr (g, e) ↦
      rw (e, add_operands)
        (lookup_step s f o.text (new_annotation o.text g) (operand_entries os) m
          (new_annotation-annotation o.text g)
          (lookup-add_operands s f os (insert_at o.text (new_annotation o.text g) m)))
]

-- After the module's global is parsed, the annotation of a function with a text is the first one among
-- its operands.
pub parse_module-first_entry :
    (s : String) (f : FunctionRef) (os : List AnnotationOperand)
    → lookup s f (parse_module (some os) new_annotation_parser).annotations
      ≡ first_entry s f (operand_entries os)
unfolding parse_module lookup
parse_module-first_entry s f os = lookup-add_operands s f os []
