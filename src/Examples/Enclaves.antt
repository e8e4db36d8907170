-- ===== src/Examples/Enclaves.antt =====
-- Examples for the generated code: a function of the enclave with two parameters and a result, and one
-- that takes a text.
use mathlib.Core.List.{Permᴰ}
use mathlib.Core.List.Permᴰ
use program_partitioning_for.Base.{
  ℕ, ◌≡◌, refl, true, false, List, [], ◌∷◌, ◌++◌, map, none, some, if◌then◌else◌,
}
use program_partitioning_for.Texts.{String, ◌<>◌, str_eq, IsUniqueText, contains_text}
use program_partitioning_for.CodeGen.{CppType, Function, is_void_return}
use program_partitioning_for.CodeGen.Scopes.{SourceScope, new_scope, scope_functions}
use program_partitioning_for.SgxCodeGenerator.Stack.{
  wrapper_params, push_each, pop_each, received, given_back, reversed,
}
use program_partitioning_for.SgxCodeGenerator.Selectors.{ecall_selectors}
use program_partitioning_for.SgxCodeGenerator.Enclave.{generate_enclave_ecalls, asylo_enclave_init}
use program_partitioning_for.SgxCodeGenerator.Generate.{generate}
use program_partitioning_for.SgxCodeGenerator.Steps.{
  ParameterStack, run_steps, names, param_names, wrapper_pushes, wrapper_pops, handler_pops,
  handler_pushes, returned_names,
}
use program_partitioning_for.SgxCodeGenerator.Rendering.{texts}
use program_partitioning_for.SgxCodeGenerator.Arguments.{
  handler_pops-wrapper_pushes, wrapper_pops-handler_pushes,
}
use program_partitioning_for.SgxCodeGenerator.Numbering.{
  function_names, values_of, numbered, ecall_selectors_correct,
}
use program_partitioning_for.SgxCodeGenerator.Handlers.{registration, asylo_enclave_init_correct}
use program_partitioning_for.SgxCodeGenerator.Endings.{generate_ends}

abbrev int_type : CppType
int_type = record { name = "int"; qualifier = ""; is_ptr = false; is_array = false }

abbrev sealed : Function
sealed = record {
  name = "sealed";
  is_static = false;
  is_extern = false;
  decl_prefix = "";
  return_type = int_type;
  params =
      record { type = int_type; name = "key" } ∷ record { type = int_type; name = "count" } ∷ [];
  body = [];
}

abbrev report : Function
report = record {
  name = "report";
  is_static = false;
  is_extern = false;
  decl_prefix = "";
  return_type = record { name = "void"; qualifier = ""; is_ptr = false; is_array = false };
  params =
      record {
        type = record { name = "char"; qualifier = ""; is_ptr = false; is_array = true };
        name = "text";
      }
      ∷ [];
  body = [];
}

-- A list as a stack.
abbrev list_stack : ParameterStack ℕ
list_stack = record {
  T = List ℕ;
  push = λ v s. v ∷ s;
  pop = λ s. elim s [ [] ↦ none | v ∷ rest ↦ some (v, rest) ];
  pop-push = λ v s. refl;
}

-- The values of the wrapper's variables, and of the handler's.
abbrev outside : String → ℕ
outside x = if str_eq x "key" then 7 else 3

abbrev inside : String → ℕ
inside x = if str_eq x "key_param" then 8 else (if str_eq x "returnVal" then 1 else 4)

abbrev functions : List Function
functions = sealed ∷ report ∷ []

handler_pops-wrapper_pushes_example :
    (crossing : List ℕ) × (after : String → ℕ) × (run_steps list_stack
        (wrapper_pushes sealed)
        (outside, [])
      ≡ some (outside, crossing))
    × (run_steps list_stack (handler_pops true sealed) (inside, crossing) ≡ some (after, []))
    × (map after (param_names sealed.params) ≡ map outside (names sealed.params))
    × (push_each (wrapper_params sealed) ≡ texts (wrapper_pushes sealed))
    × (received true sealed ≡ texts (handler_pops true sealed))
unfolding contains_text
handler_pops-wrapper_pushes_example =
    handler_pops-wrapper_pushes list_stack true sealed outside inside [] (refl, (refl, tt))

wrapper_pops-handler_pushes_example :
    (crossing : List ℕ) × (after : String → ℕ) × (run_steps list_stack
        (handler_pushes int_type sealed)
        (inside, [])
      ≡ some (inside, crossing))
    × (run_steps list_stack (wrapper_pops sealed) (outside, crossing) ≡ some (after, []))
    × (map after (names (wrapper_params sealed)) ≡ reversed (map inside (returned_names sealed)))
    × (given_back int_type sealed ≡ texts (handler_pushes int_type sealed))
    × (pop_each (wrapper_params sealed) ≡ texts (wrapper_pops sealed))
unfolding contains_text wrapper_params is_void_return
wrapper_pops-handler_pushes_example =
    wrapper_pops-handler_pushes list_stack int_type sealed outside inside []
      (refl, (refl, (refl, tt)))

ecall_selectors_correct_example :
    (values_of (ecall_selectors functions) ≡ numbered 1 3)
    × IsUniqueText (values_of (ecall_selectors functions))
unfolding contains_text
ecall_selectors_correct_example = ecall_selectors_correct functions (refl, (refl, tt))

asylo_enclave_init_correct_example :
    (made : SourceScope) × (generate_enclave_ecalls functions (new_scope "") ≡ some made)
    × (function_names (scope_functions made)
        ≡ function_names (scope_functions (new_scope ""))
          ++ map (λ (f : Function). "secure_" <> f.name) functions)
    × ((lines : List String) × Permᴰ (map registration functions) lines
        × ((asylo_enclave_init (ecall_selectors functions)).body
            ≡ lines
              ++ " ASYLO_RETURN_IF_ERROR(TrustedPrimitives::RegisterEntryHandler(kAbortEnclaveSelector, EntryHandler{Abort}))"
                ∷ "return PrimitiveStatus::OkStatus()" ∷ []))
unfolding contains_text
asylo_enclave_init_correct_example =
    asylo_enclave_init_correct functions (new_scope "") (ecall_selectors functions)
      (refl, (refl, tt)) (Permᴰ.refl (ecall_selectors functions))

generate_ends_example :
    (selectors enclave driver : String) × (generate "vault" (sealed ∷ []) (report ∷ [])
      ≡ some (
          ("interface_selectors.h", selectors)
          ∷ ("vault" <> "_enclave.cc", enclave)
          ∷ ("vault" <> "_driver.cc", driver)
          ∷ []))
generate_ends_example = generate_ends "vault" (sealed ∷ []) (report ∷ [])
