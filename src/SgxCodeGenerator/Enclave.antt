-- ===== src/SgxCodeGenerator/Enclave.antt =====
-- generateEnclaveRunner of SGXCodeGenerator.cpp, and what it calls: the file of the enclave.
use program_partitioning_for.Base.{
  true, false, List, [], ◌∷◌, ◌++◌, Option, none, some, if◌then◌else◌,
}
use program_partitioning_for.Texts.{String, ◌<>◌}
use program_partitioning_for.CodeGen.{
  Function, new_function, plain, pointer, is_void_return, add_body, call_as_string, type_as_string,
}
use program_partitioning_for.CodeGen.Scopes.{
  SourceScope, SourceFile, new_scope, new_file, add_include, add_function, add_subscope,
  add_file_function, add_file_scope,
}
use program_partitioning_for.SgxCodeGenerator.Stack.{
  handler_body, wrapper_params, push_each, pop_each, wrapper_arguments,
}
use program_partitioning_for.SgxCodeGenerator.Selectors.{FunctionSelector, selector_name_of}

abbrev pub with_context : String → Function → Function
with_context stack f = record f {
  params =
      f.params
      ++ record { type = pointer "void"; name = "context" }
        ∷ record { type = pointer stack; name = "params" }
        ∷ [];
}

-- generateEnclaveAbortFunction
unfoldable pub enclave_abort_function : Function
unfolding add_body new_function plain pointer
enclave_abort_function = add_body "return PrimitiveStatus::OkStatus()" (
    add_body "TrustedPrimitives::BestEffortAbort(\"Aborting enclave\")"
      (with_context "TrustedParameterStack" (new_function "Abort" (plain "PrimitiveStatus"))))

-- generateEnclaveEcall, without the scope that the function goes to.
unfoldable pub generate_enclave_ecall : Function → Option Function
unfolding handler_body new_function plain pointer
generate_enclave_ecall f = elim (handler_body true f.return_type f) [
  | none ↦ none
  | some body ↦
      some
        (record (with_context "TrustedParameterStack"
          (new_function ("secure_" <> f.name) (plain "PrimitiveStatus"))) {
            body = body ++ "return PrimitiveStatus::OkStatus()" ∷ [];
          })
]

-- generateAppFunctionWrapperInEnclave
unfoldable pub generate_app_function_wrapper :
    List (String × FunctionSelector) → Function → Function
unfolding wrapper_params push_each pop_each selector_name_of new_function plain
generate_app_function_wrapper ocalls f = record (new_function f.name (plain "PrimitiveStatus")) {
  params = wrapper_params f;
  body =
      "TrustedParameterStack params" ∷ push_each (wrapper_params f)
      ++ ("ASYLO_RETURN_IF_ERROR(TrustedPrimitives::UntrustedCall("
          <> selector_name_of ocalls f.name
          <> ", &params))")
        ∷ pop_each (wrapper_params f)
      ++ "return PrimitiveStatus::OkStatus()" ∷ [];
}

-- generateAppFunctionInEnclave: the function that calls the wrapper, without the file it goes to.
unfoldable pub generate_app_function : Function → Function → Option Function
unfolding wrapper_arguments call_as_string is_void_return type_as_string
generate_app_function wrapper f =
    let arguments : List String =
      if is_void_return f
      then wrapper_arguments f.params
      else wrapper_arguments f.params ++ "returnVal" ∷ [] in
    elim (call_as_string wrapper arguments) [
      | none ↦ none
      | some call ↦ some (record f {
        name = "insecure_" <> f.name;
        body =
            if is_void_return f
            then f.body ++ ("asylo::primitives::" <> call) ∷ []
            else f.body
              ++ (type_as_string f.return_type <> " " <> "returnVal")
                ∷ ("asylo::primitives::" <> call)
                ∷ "return returnVal"
                ∷ [];
      })
    ]

-- The loop of generateAsyloEnclaveInitFunction: the selector and the handler of each entry, in the order
-- that the entries of m_ecallSelectors are run through in.
unfoldable pub register_each : List (String × FunctionSelector) → List String
register_each [] = []
register_each ((name, s) ∷ m) =
    (" ASYLO_RETURN_IF_ERROR(TrustedPrimitives::RegisterEntryHandler(" <> s.selector_name
      <> ", EntryHandler{" <> "secure_" <> s.function_name <> "}))")
    ∷ register_each m

abbrev extern_c : String → Function
extern_c name = record (new_function name (plain "PrimitiveStatus")) {
  is_extern = true;
  decl_prefix = "\"C\"";
}

-- generateAsyloEnclaveInitFunction, for the entries of m_ecallSelectors in the order of the iteration.
unfoldable pub asylo_enclave_init : List (String × FunctionSelector) → Function
unfolding register_each new_function plain
asylo_enclave_init ecalls = record (extern_c "asylo_enclave_init") {
  body =
      register_each ecalls
      ++ " ASYLO_RETURN_IF_ERROR(TrustedPrimitives::RegisterEntryHandler(kAbortEnclaveSelector, EntryHandler{Abort}))"
        ∷ "return PrimitiveStatus::OkStatus()" ∷ [];
}

-- generateAsyloEnclaveFiniFunction
unfoldable pub asylo_enclave_fini : Function
unfolding new_function plain
asylo_enclave_fini = record (extern_c "asylo_enclave_fini") {
  body = "return PrimitiveStatus::OkStatus()" ∷ [];
}

-- A loop that declares the functions of the program.
unfoldable pub declare_each : List Function → SourceFile → SourceFile
unfolding add_file_function
declare_each [] file = file
declare_each (f ∷ fs) file =
    declare_each fs (add_file_function (record f { is_extern = true }) file)

-- generateEnclaveEcalls
unfoldable pub generate_enclave_ecalls : List Function → SourceScope → Option SourceScope
unfolding generate_enclave_ecall add_function
generate_enclave_ecalls [] s = some s
generate_enclave_ecalls (f ∷ fs) s = elim (generate_enclave_ecall f) [
  | none ↦ none
  | some handler ↦ generate_enclave_ecalls fs (add_function handler s)
]

-- generateAppFunctionsInEnclave: the functions go to the file, the wrappers to the caller's scope.
unfoldable pub generate_app_functions :
    List (String × FunctionSelector)
    → List Function
    → SourceFile
    → SourceScope
    → Option (SourceFile × SourceScope)
unfolding generate_app_function_wrapper generate_app_function add_function add_file_function
generate_app_functions ocalls [] file s = some (file, s)
generate_app_functions ocalls (f ∷ fs) file s =
    let wrapper = generate_app_function_wrapper ocalls f in
    elim (generate_app_function wrapper f) [
      | none ↦ none
      | some redirect ↦
          generate_app_functions ocalls fs (add_file_function redirect file)
            (add_function wrapper s)
    ]

unfoldable pub add_includes : List String → SourceFile → SourceFile
unfolding add_include
add_includes [] file = file
add_includes (i ∷ is) file = add_includes is (add_include i file)

abbrev pub enclave_includes : List String
enclave_includes =
    "\"interface_selectors.h\"" ∷ "\"asylo/platform/primitives/extent.h\""
    ∷ "\"asylo/platform/primitives/primitive_status.h\""
    ∷ "\"asylo/platform/primitives/trusted_primitives.h\"" ∷ "\"asylo/util/status_macros.h\"" ∷ []

-- generateEnclaveRunner: m_enclaveFile.
unfoldable pub generate_enclave_runner :
    String
    → List (String × FunctionSelector)
    → List (String × FunctionSelector)
    → List Function
    → List Function
    → Option SourceFile
unfolding declare_each add_includes new_file new_scope generate_enclave_ecalls
    enclave_abort_function generate_app_functions asylo_enclave_init asylo_enclave_fini add_function
    add_subscope add_file_scope
generate_enclave_runner prefix ecalls ocalls enclave_functions app_functions =
    let file =
      declare_each enclave_functions
        (add_includes enclave_includes (new_file (prefix <> "_enclave.cc") false)) in
    elim (generate_enclave_ecalls enclave_functions
      (add_function enclave_abort_function (new_scope ""))) [
        | none ↦ none
        | some handlers ↦ elim (generate_app_functions ocalls app_functions file handlers) [
          | none ↦ none
          | some made ↦
              let primitives =
                add_function asylo_enclave_fini
                  (add_function (asylo_enclave_init ecalls) (new_scope "primitives")) in
              some (
                add_file_scope (add_subscope (add_subscope made.1 primitives) (new_scope "asylo"))
                  made.0)
        ]
      ]
