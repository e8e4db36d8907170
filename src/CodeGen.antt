-- ===== src/CodeGen.antt =====
-- include/CodeGen/Function.h and lib/CodeGen/Function.cpp: the types, variables and functions of
-- generated code, and their texts.
pub mod Scopes
pub mod Writer
pub mod Calls
pub mod FunctionNames
use program_partitioning_for.Base.{
  ℕ, ◌≡◌, refl, Bool, true, false, not, ◌&&◌, ◌||◌, List, [], ◌∷◌, ◌++◌, Option, none, some,
  if◌then◌else◌,
}
use program_partitioning_for.Texts.{String, ◌<>◌, str_eq, drop_last}

-- Type
pub record CppType : Type 0 where
  pub name : String
  pub qualifier : String
  pub is_ptr : Bool
  pub is_array : Bool

-- Variable
pub record CppVariable : Type 0 where
  pub type : CppType
  pub name : String

-- Function
pub record Function : Type 0 where
  pub name : String
  pub is_static : Bool
  pub is_extern : Bool
  pub decl_prefix : String
  pub return_type : CppType
  pub params : List CppVariable
  pub body : List String

-- Type{name}, and a type without qualifier that is no array.
unfoldable pub plain : String → CppType
plain name = record { name = name; qualifier = ""; is_ptr = false; is_array = false }

unfoldable pub pointer : String → CppType
pointer name = record { name = name; qualifier = ""; is_ptr = true; is_array = false }

-- Function(name), with the return type that its caller sets next.
unfoldable pub new_function : String → CppType → Function
new_function name type = record {
  name = name;
  is_static = false;
  is_extern = false;
  decl_prefix = "";
  return_type = type;
  params = [];
  body = [];
}

-- isVoidReturn
unfoldable pub is_void_return : Function → Bool
is_void_return f = str_eq f.return_type.name "void"

unfoldable pub add_param : CppVariable → Function → Function
add_param p f = record f { params = f.params ++ p ∷ [] }

unfoldable pub add_body : String → Function → Function
add_body instr f = record f { body = f.body ++ instr ∷ [] }

-- Type::getAsString
unfoldable pub type_as_string : CppType → String
type_as_string t =
    t.qualifier
    <> (if str_eq t.qualifier "" then "" else " ")
    <> t.name
    <> (if t.is_ptr then "*" else "")
    <> (if t.is_array then "[]" else "")

-- Variable::getAsString
unfoldable pub variable_as_string : CppVariable → String
unfolding type_as_string
variable_as_string v = type_as_string v.type <> " " <> v.name

-- The loop over m_params of getDeclarationAsString: a comma after every parameter but the last one.
unfoldable pub params_as_string : List CppVariable → String
unfolding variable_as_string
params_as_string [] = ""
params_as_string (p ∷ []) = variable_as_string p
params_as_string (p ∷ q ∷ ps) = variable_as_string p <> ", " <> params_as_string (q ∷ ps)

-- Function::getDeclarationAsString
unfoldable pub declaration_as_string : Function → String
unfolding type_as_string params_as_string
declaration_as_string f =
    (if f.is_static then "static " else "")
    <> (if f.is_extern then "extern " else "")
    <> (if str_eq f.decl_prefix "" then "" else f.decl_prefix <> " ")
    <> type_as_string f.return_type
    <> " "
    <> f.name
    <> "("
    <> params_as_string f.params
    <> ");"

-- The loops over m_body.
unfoldable pub lines_as_string : String → List String → String
lines_as_string end [] = ""
lines_as_string end (instr ∷ body) = "   " <> instr <> end <> lines_as_string end body

abbrev pub is_empty : List String → Bool
is_empty [] = true
is_empty (s ∷ ss) = false

-- Function::getDefinitionAsString()
unfoldable pub definition_as_string : Function → String
unfolding declaration_as_string lines_as_string
definition_as_string f =
    if f.is_extern && is_empty f.body
    then declaration_as_string f
    else drop_last (declaration_as_string f) <> " { \n" <> lines_as_string ";\n" f.body <> "}"

-- Function::getDefinitionAsString(className)
unfoldable pub member_definition_as_string : String → Function → String
unfolding type_as_string params_as_string lines_as_string
member_definition_as_string class_name f =
    type_as_string f.return_type
    <> " "
    <> class_name
    <> "::"
    <> f.name
    <> "("
    <> params_as_string f.params
    <> ") \n{\n"
    <> lines_as_string "\n" f.body
    <> "}"

-- The value of arguments.back(), which is not read where there are no arguments.
unfoldable pub back : List String → String
back [] = ""
back (a ∷ []) = a
back (a ∷ b ∷ as') = back (b ∷ as')

-- The loop of getCallAsString; none: a read past the end of m_params.
unfoldable pub arguments_as_string : String → List CppVariable → List String → Option String
arguments_as_string last ps [] = some ""
arguments_as_string last [] (a ∷ arguments) = none
arguments_as_string last (p ∷ ps) (a ∷ arguments) = elim (arguments_as_string last ps arguments) [
  | none ↦ none
  | some rest ↦
      some
        ((if p.type.is_ptr then "&" else "") <> a <> (if str_eq a last then "" else ", ") <> rest)
]

-- Function::getCallAsString
unfoldable pub call_as_string : Function → List String → Option String
unfolding arguments_as_string back
call_as_string f arguments = elim (arguments_as_string (back arguments) f.params arguments) [
  | none ↦ none
  | some rest ↦ some (f.name <> "(" <> rest <> ")")
]
