-- ===== src/CodeGen/Calls.antt =====
-- The text of a call: Function::getCallAsString of lib/CodeGen/Function.cpp.
use program_partitioning_for.Base.{
  ℕ, zero, suc, ◌≤◌, ◌≡◌, refl, ap, sym, false, List, [], ◌∷◌, some, if◌then◌else◌, arith, length,
  subst,
}
use program_partitioning_for.Texts.{
  String, ◌<>◌, str_eq, str_eq_refl, contains_text, append_empty, empty_append,
}
use program_partitioning_for.CodeGen.{
  CppVariable, Function, back, arguments_as_string, call_as_string,
}

-- The arguments, each with & where the parameter is a pointer, and a comma and a space between each two
-- of them.
unfoldable pub listed : List CppVariable → List String → String
listed [] arguments = ""
listed (p ∷ ps) [] = ""
listed (p ∷ ps) (a ∷ []) = (if p.type.is_ptr then "&" else "") <> a
listed (p ∷ ps) (a ∷ b ∷ arguments) =
    (if p.type.is_ptr then "&" else "") <> a <> ", " <> listed ps (b ∷ arguments)

-- Enough parameters for the arguments: nothing is read past the end.
pub arguments_as_string-some :
    (last : String) (ps : List CppVariable) (arguments : List String)
    → length arguments ≤ length ps
    → (text : String) × (arguments_as_string last ps arguments ≡ some text)
unfolding arguments_as_string
arguments_as_string-some last ps [] h = ("", refl)
arguments_as_string-some last [] (a ∷ arguments) h = ground (arith, h)
arguments_as_string-some last (p ∷ ps) (a ∷ arguments) h =
    let (rest, e) = arguments_as_string-some last ps arguments (omega arith) in
    (
      (if p.type.is_ptr then "&" else "") <> a <> (if str_eq a last then "" else ", ") <> rest,
      rw (e, arguments_as_string) refl,
    )

pub call_as_string-some :
    (f : Function) (arguments : List String)
    → length arguments ≤ length f.params
    → (text : String) × (call_as_string f arguments ≡ some text)
unfolding call_as_string
call_as_string-some f arguments h =
    let (rest, e) = arguments_as_string-some (back arguments) f.params arguments h in
    (f.name <> "(" <> rest <> ")", rw (e, call_as_string) refl)

-- The texts before the last one.
unfoldable pub front : List String → List String
front [] = []
front (a ∷ []) = []
front (a ∷ b ∷ rest) = a ∷ front (b ∷ rest)

arguments_as_string-listed :
    (ps : List CppVariable) (a : String) (arguments : List String)
    → length (a ∷ arguments) ≤ length ps
    → contains_text (front (a ∷ arguments)) (back (a ∷ arguments)) ≡ false
    → arguments_as_string (back (a ∷ arguments)) ps (a ∷ arguments)
      ≡ some (listed ps (a ∷ arguments))
unfolding arguments_as_string listed front back contains_text
arguments_as_string-listed [] a arguments h k = ground (arith, h)
arguments_as_string-listed (p ∷ ps) a [] h k =
    rw (str_eq_refl a, arguments_as_string)
      (ap (λ t. some ((if p.type.is_ptr then "&" else "") <> t)) (append_empty a))
arguments_as_string-listed (p ∷ ps) a (b ∷ arguments) h k =
    let different : str_eq a (back (b ∷ arguments)) ≡ false = ground (arith, k) in
    rw
      (
        arguments_as_string-listed ps b arguments (omega arith) (ground (arith, k)),
        arguments_as_string,
      )
      (rw different refl)

-- A call with at least one argument, no more arguments than parameters, and a last argument that is
-- written like none before it: the text is the function's name and, in parentheses, the arguments with
-- commas between them.
pub call_as_string_lem :
    (f : Function) (a : String) (arguments : List String)
    → length (a ∷ arguments) ≤ length f.params
    → contains_text (front (a ∷ arguments)) (back (a ∷ arguments)) ≡ false
    → call_as_string f (a ∷ arguments)
      ≡ some (f.name <> "(" <> listed f.params (a ∷ arguments) <> ")")
unfolding call_as_string
call_as_string_lem f a arguments h k =
    rw (arguments_as_string-listed f.params a arguments h k, call_as_string) refl

-- The same text as each of n arguments.
unfoldable pub same_arguments : ℕ → String → List String
same_arguments zero a = []
same_arguments (suc n) a = a ∷ same_arguments n a

-- n arguments with the text a, and nothing between them.
unfoldable pub side_by_side : List CppVariable → ℕ → String → String
side_by_side [] n a = ""
side_by_side (p ∷ ps) zero a = ""
side_by_side (p ∷ ps) (suc n) a = (if p.type.is_ptr then "&" else "") <> a <> side_by_side ps n a

back-same_arguments : (n : ℕ) (a : String) → back (same_arguments (suc n) a) ≡ a
unfolding back same_arguments
back-same_arguments zero a = refl
back-same_arguments (suc n) a = back-same_arguments n a

arguments_as_string_repeated :
    (ps : List CppVariable) (n : ℕ) (a : String)
    → n ≤ length ps
    → arguments_as_string a ps (same_arguments n a) ≡ some (side_by_side ps n a)
unfolding arguments_as_string same_arguments side_by_side
arguments_as_string_repeated [] zero a h = refl
arguments_as_string_repeated [] (suc n) a h = ground (arith, h)
arguments_as_string_repeated (p ∷ ps) zero a h = refl
arguments_as_string_repeated (p ∷ ps) (suc n) a h =
    rw (arguments_as_string_repeated ps n a (omega arith), arguments_as_string)
      (rw (str_eq_refl a)
        (ap (λ t. some ((if p.type.is_ptr then "&" else "") <> a <> t)) (empty_append _)))

-- Where all arguments of a call are written alike, such as those for parameters without names, and there
-- is at least one and no more of them than parameters, no comma is written: they stand side by side.
pub call_as_string_repeated :
    (f : Function) (n : ℕ) (a : String)
    → suc n ≤ length f.params
    → call_as_string f (same_arguments (suc n) a)
      ≡ some (f.name <> "(" <> side_by_side f.params (suc n) a <> ")")
unfolding call_as_string
call_as_string_repeated f n a h =
    let e =
      subst
        (λ last.
          arguments_as_string last f.params (same_arguments (suc n) a)
          ≡ some (side_by_side f.params (suc n) a))
        (sym (back-same_arguments n a)) (arguments_as_string_repeated f.params (suc n) a h) in
    rw (e, call_as_string) refl
