-- ===== src/Examples/Declarations.antt =====
-- Examples for the .proto files of declarations.
use program_partitioning_for.Base.{
  ◌≡◌, ◌≢◌, refl, true, false, ◌||◌, List, [], ◌∷◌, ◌++◌, none, some, ◌==◌, if◌then◌else◌, any,
}
use program_partitioning_for.ProtoFile.{Field, ProtoMessage, new_message, new_proto_file}
use program_partitioning_for.ProtoFile.Generator.{Outcome, done}
use program_partitioning_for.ProtoFile.Known.{is_numbered}
use program_partitioning_for.ClangProto.{
  VarDecl, elaborated_type, record_type, other_type, ClangTypes, FunctionDecl, ClangGenerator,
  generate_message_fields,
}
use program_partitioning_for.ClangProto.Service.{
  output_type, generate_clang_proto, generate_message_for_type,
}
use program_partitioning_for.ClangProto.Outputs.{generate_clang_proto-returns_scalar}
use program_partitioning_for.ClangProto.Elaborated.{names_of, generate_message_fields-elaborated}

abbrev point_fields : List VarDecl
point_fields = record { name = "x"; var_type = 1 } ∷ record { name = "y"; var_type = 1 } ∷ []

-- The types: 1 is int, 2 the struct Point of two of them, and 3 its name `struct Point`.
abbrev clang_types : ClangTypes
clang_types = record {
  kind = λ t.
      if t == 2
      then record_type (some point_fields)
      else (if t == 3 then elaborated_type 2 else other_type);
  is_scalar = λ t. t == 1;
  is_array = λ t. false;
  is_enumeral = λ t. false;
  is_signed_integer = λ t. t == 1;
  is_unsigned_integer = λ t. false;
  is_floating = λ t. false;
  structure = λ t. if t == 2 || t == 3 then some point_fields else none;
  canonical_name = λ t. if t == 1 then "int" else "struct Point";
}

-- int length(struct Point p), and struct Point origin()
abbrev declarations : List FunctionDecl
declarations =
    record { function = 2; name = "origin"; return_type = 3; params = [] }
    ∷ record {
      function = 1;
      name = "length";
      return_type = 1;
      params = record { name = "p"; var_type = 3 } ∷ [];
    }
    ∷ []

generate_clang_proto-returns_scalar_example :
    generate_clang_proto clang_types 9 declarations "service" ≢ done new_proto_file
unfolding any output_type
generate_clang_proto-returns_scalar_example =
    generate_clang_proto-returns_scalar clang_types 9 declarations "service" new_proto_file refl

abbrev start : ClangGenerator
start = record { proto_file = new_proto_file; type_messages = []; function_input_messages = [] }

abbrev the_message : Outcome (ProtoMessage × ClangGenerator) → ProtoMessage × ClangGenerator
the_message (done made) = made
the_message o = (new_message "", start)

abbrev elaborated_point : ProtoMessage × ClangGenerator
unfolding generate_message_fields generate_message_for_type
elaborated_point = the_message (
    generate_message_fields clang_types (generate_message_for_type clang_types 5) 3 3
      (new_message "struct Point") start)

elaborated_point_lem :
    generate_message_fields clang_types
      (generate_message_for_type clang_types 5)
      3
      3
      (new_message "struct Point")
      start
    ≡ done elaborated_point
unfolding generate_message_fields generate_message_for_type
elaborated_point_lem = refl

generate_message_fields-elaborated_example :
    (once again : List Field) × (elaborated_point.0.fields ≡ once ++ again)
    × (names_of once ≡ "x" ∷ "y" ∷ [])
    × (names_of again ≡ "x" ∷ "y" ∷ [])
    × (is_numbered 1 once ≡ true)
    × (is_numbered 1 again ≡ true)
generate_message_fields-elaborated_example =
    generate_message_fields-elaborated clang_types (generate_message_for_type clang_types 5) 1 3 2
      point_fields "struct Point" start elaborated_point.0 elaborated_point.1 refl refl refl
      elaborated_point_lem
