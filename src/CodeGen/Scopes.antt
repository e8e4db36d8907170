-- ===== src/CodeGen/Scopes.antt =====
-- include/CodeGen/Class.h, lib/CodeGen/Class.cpp and include/CodeGen/SourceFile.h: classes, scopes and
-- files of generated code. A scope is a value: the generators share no scope that still changes.
use program_partitioning_for.Base.{
  Bool, List, [], ◌∷◌, ◌++◌, ◌==◌, if◌then◌else◌, ℕ, suc, ◌+◌, length,
}
use program_partitioning_for.Texts.{String, ◌<>◌}
use program_partitioning_for.CodeGen.{CppVariable, Function}

-- Class::AccessSpecifier
pub data AccessSpecifier : Type 0 where
  public private protected : AccessSpecifier

-- Class; a map has one entry for each specifier.
pub record Class : Type 0 where
  pub name : String
  pub parents : List (AccessSpecifier × String)
  pub member_functions : List (AccessSpecifier × List Function)
  pub members : List (AccessSpecifier × List CppVariable)

-- accessSpecifierToString
unfoldable pub access_specifier_to_string : AccessSpecifier → String
access_specifier_to_string public = "public"
access_specifier_to_string private = "private"
access_specifier_to_string protected = "protected"

-- The loop of getClassDeclarationAsString from the element i on: a comma comes before an element that is
-- neither the first nor the last one.
unfoldable pub parents_as_string : ℕ → ℕ → List (AccessSpecifier × String) → String
unfolding access_specifier_to_string
parents_as_string size i [] = ""
parents_as_string size i ((access, parent) ∷ rest) =
    (if i == 0 then " : " else (if i + 1 == size then "" else ","))
    <> access_specifier_to_string access
    <> " "
    <> parent
    <> "\n"
    <> parents_as_string size (suc i) rest

-- Class::getClassDeclarationAsString
unfoldable pub class_declaration_as_string : Class → String
unfolding parents_as_string
class_declaration_as_string c =
    "class " <> c.name <> parents_as_string (length c.parents) 0 c.parents

mutual
  -- SourceScope: its name, scopes, classes, functions, and global variables with their values.
  pub data SourceScope : Type 0 where
    source_scope :
        String
        → SourceScopes
        → List Class
        → List Function
        → List (CppVariable × String)
        → SourceScope

  pub data SourceScopes : Type 0 where
    no_scopes : SourceScopes
    more_scopes : SourceScope → SourceScopes → SourceScopes

unfoldable pub append_scope : SourceScopes → SourceScope → SourceScopes
append_scope no_scopes s = more_scopes s no_scopes
append_scope (more_scopes t ts) s = more_scopes t (append_scope ts s)

-- SourceScope(name)
unfoldable pub new_scope : String → SourceScope
new_scope name = source_scope name no_scopes [] [] []

-- getName
unfoldable pub scope_name : SourceScope → String
scope_name (source_scope name subs classes functions globals) = name

-- getSubScopes
unfoldable pub sub_scopes : SourceScope → SourceScopes
sub_scopes (source_scope name subs classes functions globals) = subs

-- getClasses
unfoldable pub scope_classes : SourceScope → List Class
scope_classes (source_scope name subs classes functions globals) = classes

-- getFunctions
unfoldable pub scope_functions : SourceScope → List Function
scope_functions (source_scope name subs classes functions globals) = functions

-- getGlobalVariables
unfoldable pub scope_globals : SourceScope → List (CppVariable × String)
scope_globals (source_scope name subs classes functions globals) = globals

unfoldable pub add_subscope : SourceScope → SourceScope → SourceScope
unfolding append_scope
add_subscope s (source_scope name subs classes functions globals) =
    source_scope name (append_scope subs s) classes functions globals

unfoldable pub add_function : Function → SourceScope → SourceScope
add_function f (source_scope name subs classes functions globals) =
    source_scope name subs classes (functions ++ f ∷ []) globals

unfoldable pub add_global_variable : CppVariable × String → SourceScope → SourceScope
add_global_variable v (source_scope name subs classes functions globals) =
    source_scope name subs classes functions (globals ++ v ∷ [])

-- SourceFile: the scope that it is, and its own fields.
pub record SourceFile : Type 0 where
  pub scope : SourceScope
  pub is_header : Bool
  pub includes : List String
  pub macros : List String

unfoldable pub add_include : String → SourceFile → SourceFile
add_include i file = record file { includes = file.includes ++ i ∷ [] }

unfoldable pub add_macro : String → SourceFile → SourceFile
add_macro m file = record file { macros = file.macros ++ m ∷ [] }

unfoldable pub add_file_function : Function → SourceFile → SourceFile
unfolding add_function
add_file_function f file = record file { scope = add_function f file.scope }

unfoldable pub add_file_scope : SourceScope → SourceFile → SourceFile
unfolding add_subscope
add_file_scope s file = record file { scope = add_subscope s file.scope }

-- A file of which the name and the kind are set.
unfoldable pub new_file : String → Bool → SourceFile
unfolding new_scope
new_file name is_header = record {
  scope = new_scope name;
  is_header = is_header;
  includes = [];
  macros = [];
}
