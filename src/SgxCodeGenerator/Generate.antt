-- ===== src/SgxCodeGenerator/Generate.antt =====
-- SGXCodeGenerator::generate: the three files.
use program_partitioning_for.Base.{List, [], ◌∷◌, Option, none, some}
use program_partitioning_for.Texts.{String}
use program_partitioning_for.CodeGen.{Function}
use program_partitioning_for.CodeGen.Scopes.{SourceFile, scope_name}
use program_partitioning_for.CodeGen.Writer.{write}
use program_partitioning_for.SgxCodeGenerator.Selectors.{
  ecall_selectors, ocall_selectors, interface_selectors_file,
}
use program_partitioning_for.SgxCodeGenerator.Enclave.{generate_enclave_runner}
use program_partitioning_for.SgxCodeGenerator.Driver.{generate_app_driver}

-- A file of writeGeneratedFiles: its name and its text.
unfoldable pub written : SourceFile → String × String
unfolding scope_name write
written file = (scope_name file.scope, write file)

-- generate, with writeGeneratedFiles.
unfoldable pub generate : String → List Function → List Function → Option (List (String × String))
unfolding ecall_selectors ocall_selectors interface_selectors_file generate_enclave_runner
    generate_app_driver written
generate program_name enclave_functions app_functions =
    let ecalls = ecall_selectors enclave_functions in
    let ocalls = ocall_selectors app_functions in
    elim (generate_enclave_runner program_name ecalls ocalls enclave_functions app_functions) [
      | none ↦ none
      | some enclave ↦
          elim (generate_app_driver program_name ecalls ocalls enclave_functions app_functions) [
            | none ↦ none
            | some driver ↦ some (
                written (interface_selectors_file ecalls ocalls)
                ∷ written enclave
                ∷ written driver
                ∷ [])
          ]
    ]
