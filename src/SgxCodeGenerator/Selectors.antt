-- ===== src/SgxCodeGenerator/Selectors.antt =====
-- generateInterfaceSelectors of SGXCodeGenerator.cpp: a number for each function that crosses the border.
use program_partitioning_for.Base.{
  ℕ, suc, ◌+◌, true, false, List, [], ◌∷◌, ◌++◌, none, some, length,
}
use program_partitioning_for.Texts.{String, ◌<>◌, to_string, find_text, emplace_text}
use program_partitioning_for.CodeGen.{CppVariable, Function}
use program_partitioning_for.CodeGen.Scopes.{
  SourceScope, SourceFile, new_scope, new_file, add_macro, add_include, add_global_variable,
  add_subscope, add_file_scope,
}

-- SGXCodeGenerator::FunctionSelector
pub record FunctionSelector : Type 0 where
  pub function_name : String
  pub selector_name : String
  pub selector_value : String

-- The text of the value with a number.
unfoldable pub selector_value_text : ℕ → String
unfolding to_string
selector_value_text i = "kSelectorUser" <> " + " <> to_string i

-- A loop over the functions: `suffix` ends the name of a selector, and the counter goes on also where
-- the map keeps an entry that is there.
unfoldable pub select_each :
    String → ℕ → List Function → List (String × FunctionSelector) → List (String × FunctionSelector)
unfolding emplace_text selector_value_text
select_each suffix i [] m = m
select_each suffix i (f ∷ fs) m = select_each suffix (suc i) fs (
    emplace_text f.name
      (record {
        function_name = f.name;
        selector_name = "k" <> f.name <> suffix;
        selector_value = selector_value_text i;
      })
      m)

-- m_ecallSelectors and m_ocallSelectors
unfoldable pub ecall_selectors : List Function → List (String × FunctionSelector)
unfolding select_each
ecall_selectors fs = select_each "EnclaveSelector" 1 fs []

unfoldable pub ocall_selectors : List Function → List (String × FunctionSelector)
unfolding select_each
ocall_selectors fs = select_each "OCallHandler" 1 fs []

-- m_selectorName of the entry that operator[] gives, which is empty where there was none.
unfoldable pub selector_name_of : List (String × FunctionSelector) → String → String
unfolding find_text
selector_name_of m name = elim (find_text name m) [ none ↦ "" | some s ↦ s.selector_name ]

abbrev pub constant : String → CppVariable
constant name = record {
  type = record { name = "uint64_t"; qualifier = "constexpr"; is_ptr = false; is_array = false };
  name = name;
}

-- The globals of the selectors.
unfoldable pub selector_globals : List (String × FunctionSelector) → List (CppVariable × String)
selector_globals [] = []
selector_globals ((name, s) ∷ m) = (constant s.selector_name, s.selector_value) ∷ selector_globals m

-- The global of the function that aborts the enclave.
unfoldable pub abort_global : List (String × FunctionSelector) → CppVariable × String
unfolding selector_value_text
abort_global m = (constant "kAbortEnclaveSelector", selector_value_text (length m + 1))

add_globals : List (CppVariable × String) → SourceScope → SourceScope
unfolding add_global_variable
add_globals [] s = s
add_globals (v ∷ vs) s = add_globals vs (add_global_variable v s)

-- m_interfaceSelectorsFile
unfoldable pub interface_selectors_file :
    List (String × FunctionSelector) → List (String × FunctionSelector) → SourceFile
unfolding add_globals add_subscope add_file_scope add_include add_macro new_file selector_globals
    abort_global new_scope
interface_selectors_file ecalls ocalls =
    let globals = selector_globals ecalls ++ abort_global ecalls ∷ selector_globals ocalls in
    let primitives = add_globals globals (new_scope "primitives") in
    add_file_scope (add_subscope primitives (new_scope "asylo")) (
      add_include "\"asylo/platform/primitives/primitives.h\"" (
        add_include "<cstdint>" (add_macro "#pragma once" (new_file "interface_selectors.h" true))))
