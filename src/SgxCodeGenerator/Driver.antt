-- ===== src/SgxCodeGenerator/Driver.antt =====
-- generateAppDriver of SGXCodeGenerator.cpp, and what it calls: the file of the program outside the
-- enclave.
use program_partitioning_for.Base.{
  true, false, List, [], ◌∷◌, ◌++◌, Option, none, some, if◌then◌else◌,
}
use program_partitioning_for.Texts.{String, ◌<>◌}
use program_partitioning_for.CodeGen.{
  CppVariable, Function, new_function, plain, pointer, is_void_return, call_as_string,
  type_as_string,
}
use program_partitioning_for.CodeGen.Scopes.{
  SourceScope, SourceFile, new_scope, new_file, add_include, add_macro, add_function, add_subscope,
  add_file_function, add_file_scope, add_global_variable,
}
use program_partitioning_for.SgxCodeGenerator.Stack.{
  handler_body, wrapper_params, push_each, pop_each, wrapper_arguments, value_type,
}
use program_partitioning_for.SgxCodeGenerator.Selectors.{FunctionSelector, selector_name_of}
use program_partitioning_for.SgxCodeGenerator.Enclave.{with_context, declare_each}

-- generateAppDriverMain
unfoldable pub app_driver_main : Function
unfolding new_function plain
app_driver_main = record (new_function "main" (plain "int")) {
  params =
      record { type = plain "int"; name = "argc" }
      ∷ record {
        type = record { name = "char"; qualifier = ""; is_ptr = true; is_array = true };
        name = "argv";
      }
      ∷ [];
  body =
      "google::ParseCommandLineFlags(&argc, &argv, true)" ∷ "asylo::primitives::registerOCalls()"
      ∷ "app_main()" ∷ "return 0" ∷ [];
}

-- The loop of generateOCallRegistration.
unfoldable pub register_ocalls_each : List (String × FunctionSelector) → List Function → List String
unfolding selector_name_of
register_ocalls_each ocalls [] = []
register_ocalls_each ocalls (f ∷ fs) =
    ("status = client->exit_call_provider()->RegisterExitHandler("
      <> selector_name_of ocalls f.name
      <> ", ExitHandler{"
      <> "insecure_"
      <> f.name
      <> "})")
    ∷ register_ocalls_each ocalls fs

-- generateOCallRegistration
unfoldable pub ocall_registration : List (String × FunctionSelector) → List Function → Function
unfolding register_ocalls_each new_function plain
ocall_registration ocalls app_functions = record (new_function "registerOCalls" (plain "Status")) {
  body =
      "ASYLO_ASSIGN_OR_RETURN(client, LoadEnclave<SimBackend>(FLAGS_enclave_path, absl::make_unique<DispatchTable>()));"
      ∷ "Status status"
      ∷ register_ocalls_each ocalls app_functions;
}

-- The client of the enclave.
abbrev pub client : CppVariable
client = record {
  type = record {
    name = "std::shared_ptr<EnclaveClient>";
    qualifier = "";
    is_ptr = false;
    is_array = false;
  };
  name = "client";
}

-- generateOCall, without the scope that the function goes to.
unfoldable pub generate_ocall : Function → Option Function
unfolding handler_body new_function plain pointer
generate_ocall f = elim (handler_body false (value_type f.return_type) f) [
  | none ↦ none
  | some body ↦
      some
        (record (with_context "UntrustedParameterStack"
          (record (new_function ("insecure_" <> f.name) (plain "Status")) {
            params = client ∷ [];
          })) { body = body ++ "PrimitiveStatus::OkStatus()" ∷ [] })
]

-- generateOCalls
unfoldable pub generate_ocalls : List Function → SourceScope → Option SourceScope
unfolding generate_ocall add_function
generate_ocalls [] s = some s
generate_ocalls (f ∷ fs) s = elim (generate_ocall f) [
  | none ↦ none
  | some handler ↦ generate_ocalls fs (add_function handler s)
]

-- generateEcallWrapper
unfoldable pub generate_ecall_wrapper : List (String × FunctionSelector) → Function → Function
unfolding wrapper_params push_each pop_each selector_name_of new_function plain
generate_ecall_wrapper ecalls f = record (new_function f.name (plain "Status")) {
  params = wrapper_params f;
  body =
      "UntrustedParameterStack params" ∷ push_each (wrapper_params f)
      ++ ("auto status = client->EnclaveCall(" <> selector_name_of ecalls f.name <> ", &params)")
        ∷ pop_each (wrapper_params f)
      ++ "return Status::OkStatus()" ∷ [];
}

-- generateEnclaveFunctionInDriver, without the file that the function goes to: it returns `returnVal` also
-- where it declares none.
unfoldable pub generate_enclave_function : Function → Function → Option Function
unfolding wrapper_arguments call_as_string is_void_return type_as_string
generate_enclave_function wrapper f =
    let arguments : List String =
      if is_void_return f
      then wrapper_arguments f.params
      else wrapper_arguments f.params ++ "returnVal" ∷ [] in
    elim (call_as_string wrapper arguments) [
      | none ↦ none
      | some call ↦ some (record f {
        body =
            (if is_void_return f
              then f.body
              else f.body ++ (type_as_string f.return_type <> " " <> "returnVal") ∷ [])
            ++ ("asylo::primitives::" <> call) ∷ "return returnVal" ∷ [];
      })
    ]

-- generateEnclaveFunctionsInDriver: the functions go to the file, the wrappers to the caller's scope.
unfoldable pub generate_enclave_functions :
    List (String × FunctionSelector)
    → List Function
    → SourceFile
    → SourceScope
    → Option (SourceFile × SourceScope)
unfolding generate_ecall_wrapper generate_enclave_function add_function add_file_function
generate_enclave_functions ecalls [] file s = some (file, s)
generate_enclave_functions ecalls (f ∷ fs) file s =
    let wrapper = generate_ecall_wrapper ecalls f in
    elim (generate_enclave_function wrapper f) [
      | none ↦ none
      | some redirect ↦
          generate_enclave_functions ecalls fs (add_file_function redirect file)
            (add_function wrapper s)
    ]

-- The file before the functions of the program.
unfoldable pub driver_start : String → SourceFile
unfolding add_macro add_include new_file add_file_function new_function plain
driver_start prefix =
    add_file_function (record (new_function "app_main" (plain "int")) { is_extern = true })
      (add_macro "DEFINE_string(enclave_path, \"\", \"Path to enclave binary\");"
        (record (new_file (prefix <> "_driver.cc") false) {
          includes =
              "\"interface_selectors.h\"" ∷ "\"gflags/gflags.h\""
              ∷ "\"asylo/platform/primitives/extent.h\""
              ∷ "\"asylo/platform/primitives/sim/untrusted_sim.h\""
              ∷ "\"asylo/platform/primitives/untrusted_primitives.h\""
              ∷ "\"asylo/platform/primitives/primitive_status.h\""
              ∷ "\"asylo/platform/primitives/util/dispatch_table.h\""
              ∷ "\"asylo/platform/primitives/trusted_primitives.h\""
              ∷ "\"asylo/util/status_macros.h\"" ∷ [];
        }))

-- generateAppDriver: m_appDriverFile.
unfoldable pub generate_app_driver :
    String
    → List (String × FunctionSelector)
    → List (String × FunctionSelector)
    → List Function
    → List Function
    → Option SourceFile
unfolding declare_each driver_start app_driver_main add_file_function new_scope add_global_variable
    ocall_registration generate_ocalls generate_enclave_functions add_subscope add_file_scope
    add_function
generate_app_driver prefix ecalls ocalls enclave_functions app_functions =
    let file =
      add_file_function app_driver_main (declare_each app_functions (driver_start prefix)) in
    let started =
      add_function (ocall_registration ocalls app_functions)
        (add_global_variable (client, "") (new_scope "primitives")) in
    elim (generate_ocalls app_functions started) [
      | none ↦ none
      | some handlers ↦ elim (generate_enclave_functions ecalls enclave_functions file handlers) [
        | none ↦ none
        | some made ↦ some (add_file_scope (add_subscope made.1 (new_scope "asylo")) made.0)
      ]
    ]
