-- ===== src/ProtoFile/Writer.antt =====
-- lib/CodeGen/ProtoFileWriter.cpp: the text of a .proto file.
use program_partitioning_for.Base.{zero, suc, List, [], ◌∷◌}
use program_partitioning_for.Base.Int.{ℤ, pos, negsuc}
use program_partitioning_for.Texts.{String, ◌<>◌, to_string}
use program_partitioning_for.CodeGen.Writer.{Writer, write_line}
use program_partitioning_for.ProtoFile.{
  Field, ProtoEnum, ProtoMessage, Rpc, ProtoService, ProtoFile,
}

-- std::to_string of an integer
unfoldable pub int_to_string : ℤ → String
int_to_string (pos n) = to_string n
int_to_string (negsuc n) = "-" <> to_string (suc n)

-- m_writer.write(text), with the indent left out
abbrev pub put_line : String → Writer → Writer
put_line s w = write_line s 0 w

-- writeProtoVersion, writeProtoPackage
unfoldable pub begin_proto_file : ProtoFile → Writer → Writer
unfolding write_line
begin_proto_file file w =
    put_line ("package " <> file.package_name <> ";")
      (put_line ("syntax = \"" <> file.version <> "\";") w)

-- writeProtoImports
unfoldable pub write_proto_imports : List String → Writer → Writer
unfolding write_line
write_proto_imports [] w = w
write_proto_imports (import ∷ imports) w =
    write_proto_imports imports (put_line ("import \"" <> import <> "\";") w)

-- writeMessageField
unfoldable pub write_message_field : Field → Writer → Writer
unfolding write_line
write_message_field f w = put_line ";" (
    put_line (to_string f.number) (
      put_line " = " (
        put_line (f.name <> " ")
          (put_line (f.type_name <> " ") (put_line (f.attribute <> " ") w)))))

-- writeMessageFields
unfoldable pub write_message_fields : List Field → Writer → Writer
unfolding write_message_field
write_message_fields [] w = w
write_message_fields (f ∷ fs) w = write_message_fields fs (write_message_field f w)

-- A value of writeMessageEnum: -1 stands for no number.
unfoldable pub enum_value_text : String → ℤ → String
unfolding int_to_string
enum_value_text name (negsuc zero) = name <> ";"
enum_value_text name value = name <> " = " <> int_to_string value <> ";"

unfoldable pub write_enum_values : List (String × ℤ) → Writer → Writer
unfolding write_line enum_value_text
write_enum_values [] w = w
write_enum_values ((name, value) ∷ values) w =
    write_enum_values values (put_line (enum_value_text name value) w)

-- writeMessageEnum
unfoldable pub write_message_enum : ProtoEnum → Writer → Writer
unfolding write_line write_enum_values
write_message_enum en w =
    put_line "}" (write_enum_values en.values (put_line ("enum " <> en.name <> " {") w))

-- writeMessageEnums
unfoldable pub write_message_enums : List ProtoEnum → Writer → Writer
unfolding write_message_enum
write_message_enums [] w = w
write_message_enums (en ∷ enums) w = write_message_enums enums (write_message_enum en w)

-- writeProtoMessage
unfoldable pub write_proto_message : ProtoMessage → Writer → Writer
unfolding write_line write_message_fields write_message_enums
write_proto_message msg w = put_line "}" (
    write_message_enums msg.enums
      (write_message_fields msg.fields (put_line ("message " <> msg.name <> " {\n") w)))

-- writeProtoMessages
unfoldable pub write_proto_messages : List ProtoMessage → Writer → Writer
unfolding write_proto_message
write_proto_messages [] w = w
write_proto_messages (msg ∷ msgs) w = write_proto_messages msgs (write_proto_message msg w)

-- writeServiceRpc
unfoldable pub write_service_rpc : Rpc → Writer → Writer
unfolding write_line
write_service_rpc rpc w =
    put_line ("return (" <> rpc.output.name <> ") {}")
      (put_line ("(" <> rpc.input.name <> ") ") (put_line (rpc.name <> " ") (put_line "rpc " w)))

-- writeServiceRpcs
unfoldable pub write_service_rpcs : List Rpc → Writer → Writer
unfolding write_service_rpc
write_service_rpcs [] w = w
write_service_rpcs (rpc ∷ rpcs) w = write_service_rpcs rpcs (write_service_rpc rpc w)

-- writeProtoService
unfoldable pub write_proto_service : ProtoService → Writer → Writer
unfolding write_line write_service_rpcs
write_proto_service service w =
    put_line "}" (write_service_rpcs service.rpcs (put_line ("service " <> service.name <> " {") w))

-- writeProtoServices
unfoldable pub write_proto_services : List ProtoService → Writer → Writer
unfolding write_proto_service
write_proto_services [] w = w
write_proto_services (service ∷ services) w =
    write_proto_services services (write_proto_service service w)

-- write, of a new ProtoFileWriter: the text of the file.
unfoldable pub write_proto_file : ProtoFile → String
unfolding begin_proto_file write_proto_imports write_proto_messages write_proto_services
write_proto_file file =
    (write_proto_services file.services (
      write_proto_messages file.messages (
        write_proto_imports file.imports
          (begin_proto_file file (record { stream = ""; indent = 0 }))))).stream
