-- ===== src/ClangProto/Service.antt =====
-- lib/ClangTools/ProtoFileGenerator.cpp: the messages for the functions, and the service.
use program_partitioning_for.Base.{
  ℕ, zero, suc, true, false, ◌||◌, List, [], ◌∷◌, ◌++◌, none, some, find, emplace,
}
use program_partitioning_for.Texts.{String}
use program_partitioning_for.ProtoFile.{
  ProtoMessage, new_message, add_field, Rpc, ProtoFile, new_proto_file, add_message,
}
use program_partitioning_for.ProtoFile.Generator.{
  TypeRef, Outcome, done, undefined, unfinished, ◌>>=◌,
}
use program_partitioning_for.ClangProto.{
  VarDecl, ClangKind, ClangTypes, FunctionDecl, ClangGenerator, pointer_type, array_type,
  add_type_message, generate_message_field, generate_message_fields,
}

module _ (types : ClangTypes) where
  -- The type that a pointer points to goes first.
  unfoldable pub visit_pointee :
      (TypeRef → ClangGenerator → Outcome ClangGenerator)
      → ClangKind
      → ClangGenerator
      → Outcome ClangGenerator
  visit_pointee generate_for (pointer_type pointee) g = generate_for pointee g
  visit_pointee generate_for k g = done g

  -- The body of generateMessageForType, for a type with no message.
  unfoldable pub generate_new_message :
      (TypeRef → ClangGenerator → Outcome ClangGenerator)
      → ℕ
      → TypeRef
      → ClangGenerator
      → Outcome ClangGenerator
  unfolding visit_pointee generate_message_fields add_type_message ◌>>=◌
  generate_new_message generate_for fuel t g = do
    g1 ← visit_pointee generate_for (types.kind t) g
    elim (types.is_scalar t || types.is_array t) [
      | true ↦ done g1
      | false ↦
          generate_message_fields types generate_for fuel t (new_message (types.canonical_name t))
            g1
          >>= λ made. done (add_type_message t made.0 made.1)
    ]

  -- generateMessageForType
  unfoldable pub generate_message_for_type : ℕ → TypeRef → ClangGenerator → Outcome ClangGenerator
  unfolding generate_new_message find
  generate_message_for_type zero t g = unfinished
  generate_message_for_type (suc fuel) t g = elim (find t g.type_messages) [
    | none ↦ generate_new_message (generate_message_for_type fuel) fuel t g
    | some m ↦ done g
  ]

  -- The loop over the parameters.
  unfoldable pub generate_messages_for_params :
      ℕ → List VarDecl → ClangGenerator → Outcome ClangGenerator
  unfolding generate_message_for_type ◌>>=◌
  generate_messages_for_params fuel [] g = done g
  generate_messages_for_params fuel (d ∷ ds) g = do
    g1 ← generate_message_for_type fuel d.var_type g
    generate_messages_for_params fuel ds g1

  -- generateMessages, with generateMessagesForFunction
  unfoldable pub generate_messages : ℕ → List FunctionDecl → ClangGenerator → Outcome ClangGenerator
  unfolding generate_message_for_type generate_messages_for_params ◌>>=◌
  generate_messages fuel [] g = done g
  generate_messages fuel (f ∷ fs) g = do
    g1 ← generate_message_for_type fuel f.return_type g
    g2 ← generate_messages_for_params fuel f.params g1
    generate_messages fuel fs g2

  -- The fields for the parameters of a function, of which `i` are done.
  unfoldable pub generate_param_fields :
      ℕ → ℕ → List VarDecl → ProtoMessage → ClangGenerator → Outcome (ProtoMessage × ClangGenerator)
  unfolding generate_message_field generate_message_for_type add_field ◌>>=◌
  generate_param_fields fuel i [] msg g = done (msg, g)
  generate_param_fields fuel i (d ∷ ds) msg g = do
    (f, g1) ←
        generate_message_field types (generate_message_for_type fuel) fuel d.var_type d.name (suc i)
          g
    generate_param_fields fuel (suc i) ds (add_field f msg) g1

  -- The message with the parameters of a function is added.
  unfoldable pub add_input_message : FunctionDecl → ProtoMessage → ClangGenerator → ClangGenerator
  unfolding emplace add_message
  add_input_message f msg g = record g {
    function_input_messages = emplace f.function msg g.function_input_messages;
    proto_file = add_message msg g.proto_file;
  }

  -- generateRPCMessages
  unfoldable pub generate_rpc_messages :
      ℕ → List FunctionDecl → ClangGenerator → Outcome ClangGenerator
  unfolding generate_param_fields add_input_message ◌>>=◌
  generate_rpc_messages fuel [] g = done g
  generate_rpc_messages fuel (f ∷ fs) g = do
    (msg, g1) ← generate_param_fields fuel 0 f.params (new_message f.name) g
    generate_rpc_messages fuel fs (add_input_message f msg g1)

  -- The type that the output of a call is looked up for.
  unfoldable pub output_type : TypeRef → ClangKind → TypeRef
  output_type t (array_type element) = element
  output_type t k = t

  -- generateRPC: both lookups read what find gives, also past the end.
  unfoldable pub generate_rpc : FunctionDecl → ClangGenerator → Outcome Rpc
  unfolding find output_type ◌>>=◌
  generate_rpc f g = elim (find f.function g.function_input_messages) [
    | none ↦ undefined
    | some input ↦
        elim (find (output_type f.return_type (types.kind f.return_type)) g.type_messages) [
          | none ↦ undefined
          | some output ↦ done (record { name = f.name; input = input; output = output })
        ]
  ]

  unfoldable pub generate_rpcs : List FunctionDecl → ClangGenerator → Outcome (List Rpc)
  unfolding generate_rpc ◌>>=◌
  generate_rpcs [] g = done []
  generate_rpcs (f ∷ fs) g = do rpc ← generate_rpc f g; rpcs ← generate_rpcs fs g; done (rpc ∷ rpcs)

  -- generateService
  unfoldable pub generate_service : String → List FunctionDecl → ClangGenerator → Outcome ProtoFile
  unfolding generate_rpcs ◌>>=◌
  generate_service proto_name functions g = do
    rpcs ← generate_rpcs functions g
    done (record g.proto_file {
      services = g.proto_file.services ++ record { name = proto_name; rpcs = rpcs } ∷ [];
    })

  -- generate, of a new generator; `functions` is the set of functions in its order.
  unfoldable pub generate_clang_proto : ℕ → List FunctionDecl → String → Outcome ProtoFile
  unfolding generate_messages generate_rpc_messages generate_service ◌>>=◌
  generate_clang_proto fuel functions proto_name = do
    g1 ← generate_messages fuel functions (record {
      proto_file = record new_proto_file { version = "proto3"; package_name = proto_name };
      type_messages = [];
      function_input_messages = [];
    })
    g2 ← generate_rpc_messages fuel functions g1
    generate_service proto_name functions g2
