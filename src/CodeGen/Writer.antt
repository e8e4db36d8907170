-- ===== src/CodeGen/Writer.antt =====
-- lib/CodeGen/FileWriter.cpp and SourceFileWriter.cpp: a source file is written to a stream. The lines to
-- the standard output are left out.
use program_partitioning_for.Base.{
  ℕ, zero, suc, ◌-◌, Bool, true, false, List, [], ◌∷◌, if◌then◌else◌,
}
use program_partitioning_for.Texts.{String, ◌<>◌, str_eq}
use program_partitioning_for.CodeGen.{
  Function, CppVariable, declaration_as_string, definition_as_string, member_definition_as_string,
  variable_as_string, is_empty,
}
use program_partitioning_for.CodeGen.Scopes.{
  AccessSpecifier, public, private, protected, Class, class_declaration_as_string, SourceScope,
  SourceScopes, source_scope, no_scopes, more_scopes, scope_name, SourceFile,
}

-- What a SourceFileWriter changes: the stream of its FileWriter, and m_indent, which endScope only
-- decrements after beginScope incremented it.
pub record Writer : Type 0 where
  pub stream : String
  pub indent : ℕ

-- FileWriter::writeIndent
unfoldable pub indent_text : ℕ → String
indent_text zero = ""
indent_text (suc n) = "   " <> indent_text n

-- FileWriter::write
unfoldable pub write_line : String → ℕ → Writer → Writer
unfolding indent_text
write_line s indent w = record w { stream = w.stream <> indent_text indent <> s <> "\n" }

-- FileWriter::writeNewLine
unfoldable pub write_new_line : Writer → Writer
write_new_line w = record w { stream = w.stream <> "\n" }

unfoldable pub begin_scope : Writer → Writer
begin_scope w = record w { indent = suc w.indent }

unfoldable pub end_scope : Writer → Writer
end_scope w = record w { indent = w.indent - 1 }

write_each : List String → Writer → Writer
unfolding write_line
write_each [] w = w
write_each (s ∷ ss) w = write_each ss (write_line s 0 w)

-- writeMacros
unfoldable pub write_macros : List String → Writer → Writer
unfolding write_each write_new_line
write_macros macros w =
    let written = write_each macros w in if is_empty macros then written else write_new_line written

write_each_include : List String → Writer → Writer
unfolding write_line
write_each_include [] w = w
write_each_include (s ∷ ss) w = write_each_include ss (write_line ("#include " <> s) 0 w)

-- writeIncludes
unfoldable pub write_includes : List String → Writer → Writer
unfolding write_each_include write_new_line
write_includes includes w = write_new_line (write_each_include includes w)

-- beginFile
unfoldable pub begin_file : SourceFile → Writer → Writer
unfolding write_macros write_includes
begin_file file w = write_includes file.includes (write_macros file.macros w)

-- writeFunctions: the declarations in a header, and otherwise the definitions.
unfoldable pub write_functions : Bool → List Function → Writer → Writer
unfolding write_line
write_functions is_header [] w = w
write_functions is_header (f ∷ fs) w = write_functions is_header fs (
    if is_header
    then write_line (declaration_as_string f) w.indent w
    else write_line (definition_as_string f <> "\n") w.indent w)

-- writeGlobals
unfoldable pub write_globals : List (CppVariable × String) → Writer → Writer
unfolding write_line
write_globals [] w = w
write_globals ((global, value) ∷ globals) w = write_globals globals (
    write_line
      ("static "
        <> variable_as_string global
        <> (if str_eq value "" then "" else " = " <> value)
        <> ";")
      w.indent w)

write_member_definitions : String → List Function → Writer → Writer
unfolding write_line
write_member_definitions name [] w = w
write_member_definitions name (f ∷ fs) w =
    write_member_definitions name fs
      (write_line (member_definition_as_string name f <> "\n") w.indent w)

-- writeClassDefinition
unfoldable pub write_class_definition :
    String → List (AccessSpecifier × List Function) → Writer → Writer
unfolding write_member_definitions
write_class_definition name [] w = w
write_class_definition name ((access, fs) ∷ rest) w =
    write_class_definition name rest (write_member_definitions name fs w)

-- The line that a specifier begins with, once; the one for `public` has no colon.
unfoldable pub access_line : AccessSpecifier → String
access_line public = "public"
access_line private = "private:"
access_line protected = "protected:"

write_member_declarations : List Function → Writer → Writer
unfolding write_line
write_member_declarations [] w = w
write_member_declarations (f ∷ fs) w =
    write_member_declarations fs (write_line (declaration_as_string f) w.indent w)

-- writeClassFunctionsDeclarations: a map has one entry for each specifier, so the line of a specifier
-- comes before its first function.
unfoldable pub write_class_functions_declarations :
    List (AccessSpecifier × List Function) → Writer → Writer
unfolding write_member_declarations write_line access_line
write_class_functions_declarations [] w = w
write_class_functions_declarations ((access, []) ∷ rest) w =
    write_class_functions_declarations rest w
write_class_functions_declarations ((access, f ∷ fs) ∷ rest) w =
    write_class_functions_declarations rest
      (write_member_declarations (f ∷ fs) (write_line (access_line access) 0 w))

members_text : List CppVariable → String
members_text [] = ""
members_text (v ∷ vs) = variable_as_string v <> "\n" <> members_text vs

abbrev same_access : AccessSpecifier → AccessSpecifier → Bool
same_access public public = true
same_access private private = true
same_access protected protected = true
same_access _ _ = false

-- The three streams of writeClassMembers: the members with one specifier.
unfoldable pub members_of : AccessSpecifier → List (AccessSpecifier × List CppVariable) → String
unfolding members_text
members_of access [] = ""
members_of access ((a, vs) ∷ rest) =
    (if same_access a access then members_text vs else "") <> members_of access rest

write_section : String → String → Writer → Writer
unfolding write_line
write_section line text w =
    if str_eq text "" then w else write_line text w.indent (write_line line 0 w)

-- writeClassMembers
unfoldable pub write_class_members : List (AccessSpecifier × List CppVariable) → Writer → Writer
unfolding write_section members_of
write_class_members members w = write_section "private:" (members_of private members) (
    write_section "protected:" (members_of protected members)
      (write_section "public:" (members_of public members) w))

-- writeClassDeclaration
unfoldable pub write_class_declaration : Class → Writer → Writer
unfolding write_line begin_scope end_scope write_class_functions_declarations write_class_members
write_class_declaration c w = write_line ("}; // class " <> c.name) 0 (
    end_scope (
      write_class_members c.members (
        write_class_functions_declarations c.member_functions
          (begin_scope (write_line (class_declaration_as_string c <> "{") 0 w)))))

-- writeClasses
unfoldable pub write_classes : Bool → List Class → Writer → Writer
unfolding write_class_declaration write_class_definition
write_classes is_header [] w = w
write_classes is_header (c ∷ cs) w = write_classes is_header cs (
    if is_header
    then write_class_declaration c w
    else write_class_definition c.name c.member_functions w)

unfoldable mutual
  unfolding write_line write_classes write_functions write_globals scope_name

  -- writeSourceScope
  pub write_source_scope : Bool → SourceScope → Writer → Writer
  write_source_scope is_header (source_scope name subs classes functions globals) w =
      write_sub_scopes is_header subs (
        write_globals globals
          (write_functions is_header functions (write_classes is_header classes w)))

  -- The loop over the scopes in it.
  pub write_sub_scopes : Bool → SourceScopes → Writer → Writer
  write_sub_scopes is_header no_scopes w = w
  write_sub_scopes is_header (more_scopes s rest) w = write_sub_scopes is_header rest (
      write_line ("} // namespace " <> scope_name s) 0
        (write_source_scope is_header s (write_line ("namespace " <> scope_name s <> " {\n") 0 w)))

-- write, of a new SourceFileWriter: the text of the file.
unfoldable pub write : SourceFile → String
unfolding begin_file write_source_scope
write file =
    (write_source_scope file.is_header file.scope
      (begin_file file (record { stream = ""; indent = 0 }))).stream
