-- ===== src/SgxCodeGenerator/Endings.antt =====
-- That SGXCodeGenerator::generate ends with three files.
use program_partitioning_for.Base.{
  suc, ◌≤◌, ◌≡◌, refl, ap, sym, subst, ◌∙◌, Bool, true, false, List, [], ◌∷◌, ◌++◌, Option, some,
  if◌then◌else◌, arith, length,
}
use program_partitioning_for.Texts.{String, ◌<>◌}
use program_partitioning_for.CodeGen.{CppVariable, Function, is_void_return, call_as_string}
use program_partitioning_for.CodeGen.Calls.{call_as_string-some}
use program_partitioning_for.CodeGen.Scopes.{
  SourceScope, SourceFile, source_scope, scope_name, new_scope, add_subscope, add_function,
  add_file_function, new_file, add_file_scope, add_include, add_macro, add_global_variable,
}
use program_partitioning_for.CodeGen.Writer.{write}
use program_partitioning_for.SgxCodeGenerator.Stack.{wrapper_params, wrapper_arguments}
use program_partitioning_for.SgxCodeGenerator.Selectors.{
  FunctionSelector, ecall_selectors, ocall_selectors, interface_selectors_file,
}
use program_partitioning_for.SgxCodeGenerator.Enclave.{
  generate_app_function, generate_app_function_wrapper, generate_app_functions,
  generate_enclave_runner, declare_each, enclave_abort_function, enclave_includes, add_includes,
}
use program_partitioning_for.SgxCodeGenerator.Driver.{
  generate_ocalls, generate_enclave_function, generate_enclave_functions, generate_ecall_wrapper,
  generate_app_driver, driver_start, ocall_registration, client, app_driver_main,
}
use program_partitioning_for.SgxCodeGenerator.Generate.{generate, written}
use program_partitioning_for.SgxCodeGenerator.Assignments.{length-push}
use program_partitioning_for.SgxCodeGenerator.Rendering.{generate_ocall_refines}
use program_partitioning_for.SgxCodeGenerator.Handlers.{generate_enclave_ecalls-names}

-- A step that cannot fail.
abbrev Succeeds {ℓ} : {A : Type ℓ} → Option A → Type ℓ
Succeeds {A = A} o = (a : A) × (o ≡ some a)

wrapper_arguments-length : (ps : List CppVariable) → length (wrapper_arguments ps) ≡ length ps
unfolding wrapper_arguments
wrapper_arguments-length [] = refl
wrapper_arguments-length (p ∷ ps) = ap suc (wrapper_arguments-length ps)

-- The arguments of a wrapper's call.
arguments_fit :
    (f : Function)
    → length (
        if is_void_return f
        then wrapper_arguments f.params
        else wrapper_arguments f.params ++ "returnVal" ∷ [])
      ≡ length (wrapper_params f)
unfolding wrapper_params
arguments_fit f = go (is_void_return f)
  where
    go :
        (b : Bool)
        → length (
            if b
            then wrapper_arguments f.params
            else wrapper_arguments f.params ++ "returnVal" ∷ [])
          ≡ length (
              if b
              then f.params
              else f.params
                ++ record { type = record f.return_type { is_ptr = true }; name = "returnVal" }
                  ∷ [])
    go true = wrapper_arguments-length f.params
    go false =
        length-push (wrapper_arguments f.params) "returnVal"
        ∙ ap suc (wrapper_arguments-length f.params)
        ∙ sym (length-push f.params _)

call_fits :
    (wrapper f : Function)
    → wrapper.params ≡ wrapper_params f
    → Succeeds (
        call_as_string wrapper (
          if is_void_return f
          then wrapper_arguments f.params
          else wrapper_arguments f.params ++ "returnVal" ∷ []))
call_fits wrapper f e =
    call_as_string-some wrapper _
      (subst (λ n. n ≤ length wrapper.params) (ap length e ∙ sym (arguments_fit f)) (omega arith))

add_function-name : (f : Function) (s : SourceScope) → scope_name (add_function f s) ≡ scope_name s
unfolding add_function scope_name
add_function-name f (source_scope name subs classes functions globals) = refl

add_subscope-name : (t s : SourceScope) → scope_name (add_subscope t s) ≡ scope_name s
unfolding add_subscope scope_name
add_subscope-name t (source_scope name subs classes functions globals) = refl

abbrev file_name : SourceFile → String
file_name file = scope_name file.scope

add_file_function-name :
    (f : Function) (file : SourceFile) → file_name (add_file_function f file) ≡ file_name file
unfolding add_file_function
add_file_function-name f file = add_function-name f file.scope

declare_each-name :
    (fs : List Function) (file : SourceFile) → file_name (declare_each fs file) ≡ file_name file
unfolding declare_each
declare_each-name [] file = refl
declare_each-name (f ∷ fs) file = declare_each-name fs _ ∙ add_file_function-name _ file

-- A step that ends with a file of the same name.
abbrev EndsNamed : SourceFile → Option (SourceFile × SourceScope) → Type 0
EndsNamed file o =
    (made : SourceFile × SourceScope) × (o ≡ some made) × (file_name made.0 ≡ file_name file)

generate_app_function-some :
    (ocalls : List (String × FunctionSelector)) (f : Function)
    → Succeeds (generate_app_function (generate_app_function_wrapper ocalls f) f)
unfolding generate_app_function generate_app_function_wrapper
generate_app_function-some ocalls f =
    let (call, e) = call_fits (generate_app_function_wrapper ocalls f) f refl in
    rw (e, generate_app_function) (_, refl)

generate_app_functions-ends :
    (ocalls : List (String × FunctionSelector)) (fs : List Function) (file : SourceFile)
    (s : SourceScope)
    → EndsNamed file (generate_app_functions ocalls fs file s)
unfolding generate_app_functions
generate_app_functions-ends ocalls [] file s = ((file, s), refl, refl)
generate_app_functions-ends ocalls (f ∷ fs) file s =
    let (redirect, made) = generate_app_function-some ocalls f in
    let (rest, ran, same) =
      generate_app_functions-ends ocalls fs (add_file_function redirect file)
        (add_function (generate_app_function_wrapper ocalls f) s) in
    (rest, rw (made, generate_app_functions) ran, same ∙ add_file_function-name redirect file)

generate_enclave_function-some :
    (ecalls : List (String × FunctionSelector)) (f : Function)
    → Succeeds (generate_enclave_function (generate_ecall_wrapper ecalls f) f)
unfolding generate_enclave_function generate_ecall_wrapper
generate_enclave_function-some ecalls f =
    let (call, e) = call_fits (generate_ecall_wrapper ecalls f) f refl in
    rw (e, generate_enclave_function) (_, refl)

generate_enclave_functions-ends :
    (ecalls : List (String × FunctionSelector)) (fs : List Function) (file : SourceFile)
    (s : SourceScope)
    → EndsNamed file (generate_enclave_functions ecalls fs file s)
unfolding generate_enclave_functions
generate_enclave_functions-ends ecalls [] file s = ((file, s), refl, refl)
generate_enclave_functions-ends ecalls (f ∷ fs) file s =
    let (redirect, made) = generate_enclave_function-some ecalls f in
    let (rest, ran, same) =
      generate_enclave_functions-ends ecalls fs (add_file_function redirect file)
        (add_function (generate_ecall_wrapper ecalls f) s) in
    (rest, rw (made, generate_enclave_functions) ran, same ∙ add_file_function-name redirect file)

generate_ocalls-some : (fs : List Function) (s : SourceScope) → Succeeds (generate_ocalls fs s)
unfolding generate_ocalls
generate_ocalls-some [] s = (s, refl)
generate_ocalls-some (f ∷ fs) s =
    let (handler, call, e, made, body, wrapper) = generate_ocall_refines [] f in
    rw (e, generate_ocalls) (generate_ocalls-some fs _)

generate_enclave_runner-ends :
    (prefix : String) (ecalls ocalls : List (String × FunctionSelector)) (fs gs : List Function)
    → (file : SourceFile) × (generate_enclave_runner prefix ecalls ocalls fs gs ≡ some file)
      × (file_name file ≡ prefix <> "_enclave.cc")
unfolding generate_enclave_runner new_file new_scope scope_name add_file_scope add_includes
    add_include
generate_enclave_runner-ends prefix ecalls ocalls fs gs =
    let start = add_includes enclave_includes (new_file (prefix <> "_enclave.cc") false) in
    let (handlers, ran, names) =
      generate_enclave_ecalls-names fs (add_function enclave_abort_function (new_scope "")) in
    let (made, ran', same) =
      generate_app_functions-ends ocalls gs (declare_each fs start) handlers in
    rw (ran, generate_enclave_runner)
      (rw (ran', generate_enclave_runner)
        (_, refl, add_subscope-name _ made.0.scope ∙ same ∙ declare_each-name fs start))

generate_app_driver-ends :
    (prefix : String) (ecalls ocalls : List (String × FunctionSelector)) (fs gs : List Function)
    → (file : SourceFile) × (generate_app_driver prefix ecalls ocalls fs gs ≡ some file)
      × (file_name file ≡ prefix <> "_driver.cc")
unfolding generate_app_driver new_file new_scope scope_name add_file_scope driver_start add_macro
    add_function add_file_function
generate_app_driver-ends prefix ecalls ocalls fs gs =
    let file = declare_each gs (driver_start prefix) in
    let (handlers, ran) = generate_ocalls-some gs (
      add_function (ocall_registration ocalls gs)
        (add_global_variable (client, "") (new_scope "primitives"))) in
    let (made, ran', same) =
      generate_enclave_functions-ends ecalls fs (add_file_function app_driver_main file) handlers in
    rw (ran, generate_app_driver)
      (rw (ran', generate_app_driver)
        (
          _,
          refl,
          add_subscope-name _ made.0.scope
              ∙ same
              ∙ add_file_function-name app_driver_main file
              ∙ declare_each-name gs (driver_start prefix),
        ))

interface_selectors_file-name :
    (ecalls ocalls : List (String × FunctionSelector))
    → file_name (interface_selectors_file ecalls ocalls) ≡ "interface_selectors.h"
unfolding interface_selectors_file add_file_scope add_subscope add_include add_macro new_file
    new_scope scope_name
interface_selectors_file-name ecalls ocalls = refl

written-named :
    (file : SourceFile) (name : String) → file_name file ≡ name → written file ≡ (name, write file)
unfolding written
written-named file name e = ap (λ n. (n, write file)) e

-- Whatever functions are given, no generated call reads past the parameters of the function that it
-- calls: the generator ends with three files, which are named after the program.
pub generate_ends :
    (program_name : String) (enclave_functions app_functions : List Function)
    → (selectors enclave driver : String) × (generate program_name enclave_functions app_functions
        ≡ some (
            ("interface_selectors.h", selectors)
            ∷ (program_name <> "_enclave.cc", enclave)
            ∷ (program_name <> "_driver.cc", driver)
            ∷ []))
unfolding generate
generate_ends program_name enclave_functions app_functions =
    let ecalls = ecall_selectors enclave_functions in
    let ocalls = ocall_selectors app_functions in
    let (enclave, ran, named) =
      generate_enclave_runner-ends program_name ecalls ocalls enclave_functions app_functions in
    let (driver, ran', named') =
      generate_app_driver-ends program_name ecalls ocalls enclave_functions app_functions in
    (
      write (interface_selectors_file ecalls ocalls),
      write enclave,
      write driver,
      rw (ran, generate)
          (rw (ran', generate)
            (cc (
              written-named (interface_selectors_file ecalls ocalls) "interface_selectors.h"
                  (interface_selectors_file-name ecalls ocalls),
              written-named enclave _ named,
              written-named driver _ named',
            ))),
    )
