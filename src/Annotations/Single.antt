-- ===== src/Annotations/Single.antt =====
-- lib/Utils/JsonAnnotationParser.cpp: how often a function stands in the set of a text.
use program_partitioning_for.Base.{
  ◌≡◌, refl, sym, ap, subst, ◌∙◌, true, false, ◌&&◌, List, [], ◌∷◌, ◌++◌, Option, none, some, ◌==◌,
  if◌then◌else◌, any, arith, Bool-cases, Option-cases, inl, inr, ==_iff,
}
use mathlib.Core.List.{append-nil}
use program_partitioning_for.Texts.{String, str_eq, str_eq-true}
use program_partitioning_for.Llvm.{FunctionRef, null}
use program_partitioning_for.Partitioner.Traversal.{Annotation}
use program_partitioning_for.Annotations.{
  same_annotation, insert_annotation, insert_at, new_annotation_parser, JsonFunction, JsonItem,
  json_annotation, add_json_functions, add_json_items, parse_json,
}
use program_partitioning_for.Annotations.Parsed.{
  first_entry, lookup, or_else, first_entry-append, any_same, file_entries, parse_json-first_entry,
}

-- All annotations of a function with a text.
unfoldable pub matching : String → FunctionRef → List Annotation → List Annotation
matching s f [] = []
matching s f (a ∷ as') =
    let rest = matching s f as' in
    if (a.function == f) && str_eq a.annotation s then a ∷ rest else rest

-- Those in the set of the text.
unfoldable pub all_for : String → FunctionRef → List (String × List Annotation) → List Annotation
unfolding matching
all_for s f [] = []
all_for s f ((k, set) ∷ m) = if str_eq k s then matching s f set else all_for s f m

abbrev pub at_most_one : Option Annotation → List Annotation
at_most_one none = []
at_most_one (some a) = a ∷ []

matching-append :
    (s : String) (f : FunctionRef) (xs ys : List Annotation)
    → matching s f (xs ++ ys) ≡ matching s f xs ++ matching s f ys
unfolding matching
matching-append s f [] ys = refl
matching-append s f (a ∷ xs) ys = elim (Bool-cases ((a.function == f) && str_eq a.annotation s)) [
  | inl e ↦ rw e (ap (λ r. a ∷ r) (matching-append s f xs ys))
  | inr e ↦ rw e (matching-append s f xs ys)
]

-- No function stands twice with a text.
HasSingle : List Annotation → Type 0
HasSingle set =
    (s : String) (f : FunctionRef) → matching s f set ≡ at_most_one (first_entry s f set)

own_entry :
    (a : Annotation) (set : List Annotation) (s : String) (f : FunctionRef)
    → any (same_annotation a) set ≡ false
    → ((a.function == f) && str_eq a.annotation s) ≡ true
    → first_entry s f set ≡ none
own_entry a set s f fresh c =
    let at_own : first_entry a.annotation a.function set ≡ none =
      elim (Option-cases (first_entry a.annotation a.function set)) [
        | inl e ↦ e
        | inr (b, e) ↦ ground (arith, any_same a set, fresh, e)
      ] in
    subst (λ x. first_entry x f set ≡ none) (str_eq-true a.annotation s (ground (arith, c)))
      (subst (λ x. first_entry a.annotation x set ≡ none)
        ((==_iff a.function f).0 (ground (arith, c))) at_own)

push-HasSingle :
    (a : Annotation) (set : List Annotation)
    → any (same_annotation a) set ≡ false
    → HasSingle set
    → HasSingle (set ++ a ∷ [])
unfolding HasSingle matching first_entry
push-HasSingle a set fresh single s f =
    elim (Bool-cases ((a.function == f) && str_eq a.annotation s)) [
      | inl c ↦
          let gone = own_entry a set s f fresh c in
          let empty = single s f ∙ ap at_most_one gone in
          let first : first_entry s f (set ++ a ∷ []) ≡ some a =
            ground (arith, first_entry-append s f set (a ∷ []), gone, c) in
          let matched : matching s f (set ++ a ∷ []) ≡ a ∷ [] =
            matching-append s f set (a ∷ []) ∙ rw c (ap (λ xs. xs ++ a ∷ []) empty) in
          matched ∙ sym (ap at_most_one first)
      | inr c ↦
          let first : first_entry s f (set ++ a ∷ []) ≡ first_entry s f set =
            first_entry-append s f set (a ∷ []) ∙ rw c (or_else-nothing (first_entry s f set)) in
          let matched : matching s f (set ++ a ∷ []) ≡ matching s f set =
            matching-append s f set (a ∷ []) ∙ rw c (append-nil (matching s f set)) in
          matched ∙ single s f ∙ sym (ap at_most_one first)
    ]
  where
    or_else-nothing : (o : Option Annotation) → or_else o none ≡ o
    or_else-nothing none = refl
    or_else-nothing (some b) = refl

insert_annotation-HasSingle :
    (a : Annotation) (set : List Annotation) → HasSingle set → HasSingle (insert_annotation a set)
unfolding insert_annotation
insert_annotation-HasSingle a set single = elim (Bool-cases (any (same_annotation a) set)) [
  | inl e ↦ rw e single
  | inr e ↦ rw e (push-HasSingle a set e single)
]

AllSingle : List (String × List Annotation) → Type 0
AllSingle [] = Unit {0}
AllSingle ((k, set) ∷ m) = HasSingle set × AllSingle m

all_for-lookup :
    (s : String) (f : FunctionRef) (m : List (String × List Annotation))
    → AllSingle m
    → all_for s f m ≡ at_most_one (lookup s f m)
unfolding all_for lookup AllSingle HasSingle
all_for-lookup s f [] all = refl
all_for-lookup s f ((k, set) ∷ m) (single, all) = elim (Bool-cases (str_eq k s)) [
  | inl e ↦ rw e (single s f)
  | inr e ↦ rw e (all_for-lookup s f m all)
]

nothing-HasSingle : HasSingle []
unfolding HasSingle matching first_entry
nothing-HasSingle s f = refl

insert_at-AllSingle :
    (k : String) (a : Annotation) (m : List (String × List Annotation))
    → AllSingle m
    → AllSingle (insert_at k a m)
unfolding insert_at AllSingle
insert_at-AllSingle k a [] all = (insert_annotation-HasSingle a [] nothing-HasSingle, tt)
insert_at-AllSingle k a ((j, set) ∷ m) (single, all) = elim (Bool-cases (str_eq j k)) [
  | inl e ↦ rw e (insert_annotation-HasSingle a set single, all)
  | inr e ↦ rw e (single, insert_at-AllSingle k a m all)
]

module _ (get_function : String → FunctionRef) where
  add_json_functions-AllSingle :
      (t : String) (js : List JsonFunction) (m : List (String × List Annotation))
      → AllSingle m
      → AllSingle (add_json_functions get_function t js m)
  unfolding add_json_functions
  add_json_functions-AllSingle t [] m all = all
  add_json_functions-AllSingle t (j ∷ js) m all =
      elim (Bool-cases (get_function j.function_name == null)) [
        | inl e ↦ rw (e, add_json_functions) (add_json_functions-AllSingle t js m all)
        | inr e ↦
            let a = json_annotation t j (get_function j.function_name) in
            rw (e, add_json_functions)
              (add_json_functions-AllSingle t js (insert_at t a m) (insert_at-AllSingle t a m all))
      ]

  add_json_items-AllSingle :
      (items : List JsonItem) (m : List (String × List Annotation))
      → AllSingle m
      → AllSingle (add_json_items get_function items m)
  unfolding add_json_items
  add_json_items-AllSingle [] m all = all
  add_json_items-AllSingle (item ∷ items) m all =
      add_json_items-AllSingle items
        (add_json_functions get_function item.annotation item.functions m)
        (add_json_functions-AllSingle item.annotation item.functions m all)

  -- After a file is parsed by a new parser, the set of a text holds at most one annotation of a function:
  -- the first one in the file, with its arguments and its return value. Later entries for the same function
  -- and text are lost.
  pub parse_json-only_first :
      (s : String) (f : FunctionRef) (items : List JsonItem)
      → all_for s f (parse_json get_function (some items) new_annotation_parser).annotations
        ≡ at_most_one (first_entry s f (file_entries get_function items))
  unfolding parse_json AllSingle
  parse_json-only_first s f items =
      all_for-lookup s f (add_json_items get_function items [])
        (add_json_items-AllSingle items [] tt)
      ∙ ap at_most_one (parse_json-first_entry get_function s f items)
