-- ===== src/ProtoFile/Generator.antt =====
-- lib/CodeGen/ProtoFileGenerator.cpp: the messages for the types in the interface of a partition.
use program_partitioning_for.Base.{
  ℕ, zero, suc, ◌+◌, List, [], ◌∷◌, Option, none, some, ◌==◌, if◌then◌else◌, find, emplace,
}
use program_partitioning_for.Texts.{String, ◌<>◌}
use program_partitioning_for.Llvm.{FunctionRef}
use program_partitioning_for.ProtoFile.{
  Field, new_field, ProtoMessage, new_message, add_field, ProtoFile, new_proto_file, add_message,
}

-- llvm::Type*
abbrev pub TypeRef : Type 0
TypeRef = ℕ

-- The classes of llvm::Type that the code asks for. A struct has no name if it is literal; the other
-- types (void, functions, labels) are neither scalars nor CompositeTypes, and a vector is a CompositeType.
pub data TypeKind : Type 0 where
  integer_type : ℕ → TypeKind
  float_type double_type other_type : TypeKind
  pointer_type array_type vector_type : TypeRef → TypeKind
  struct_type : Option String → List TypeRef → TypeKind

-- LLVM's types, and the types of a function.
pub record ProgramTypes : Type 0 where
  pub kind : TypeRef → TypeKind
  pub return_type : FunctionRef → TypeRef
  pub param_types : FunctionRef → List TypeRef

-- How a call ends: with a value, at an assertion, with an iterator at end() read, or not within the fuel.
pub data Outcome {ℓ} (A : Type ℓ) : Type ℓ where
  done : A → Outcome A
  asserted undefined unfinished : Outcome A

infixl 20 ◌>>=◌
unfoldable pub ◌>>=◌ {ℓ ℓ'} : {A : Type ℓ} {B : Type ℓ'} → Outcome A → (A → Outcome B) → Outcome B
done a >>= f = f a
asserted >>= f = asserted
undefined >>= f = undefined
unfinished >>= f = unfinished

-- StructType::getName, which asserts that the type is not literal.
unfoldable pub struct_name : Option String → Outcome String
struct_name none = asserted
struct_name (some name) = done name

-- getFieldName
unfoldable pub get_field_name : TypeKind → Outcome String
unfolding struct_name ◌>>=◌
get_field_name (struct_type name elements) = do n ← struct_name name; done (n <> "Value")
get_field_name (array_type element) = done "arrayValue"
get_field_name _ = done "value"

-- getMessageNameForScalar
unfoldable pub get_message_name_for_scalar : TypeKind → Outcome String
get_message_name_for_scalar (integer_type w) = done (
    if w == 1
    then "Bool"
    else (if w == 32 then "Integer32" else (if w == 64 then "Integer64" else "Integer")))
get_message_name_for_scalar float_type = done "Float"
get_message_name_for_scalar double_type = done "Double"
get_message_name_for_scalar _ = asserted

-- getScalarType
unfoldable pub get_scalar_type : TypeKind → Outcome String
get_scalar_type (integer_type w) =
    done (
      if w == 1
      then "bool"
      else (if w == 32 then "int32" else (if w == 64 then "int64" else "int")))
get_scalar_type float_type = done "float"
get_scalar_type double_type = done "double"
get_scalar_type _ = asserted

-- The members that change.
pub record Generator : Type 0 where
  pub proto_file : ProtoFile
  pub type_messages : List (TypeRef × ProtoMessage)

-- One call of getMessageNameForType; `again` is the call for the element type.
unfoldable pub message_name_step : (TypeRef → Outcome String) → TypeKind → Outcome String
unfolding get_message_name_for_scalar struct_name ◌>>=◌
message_name_step again (struct_type name elements) = struct_name name
message_name_step again (array_type element) = do n ← again element; done (n <> "Array")
message_name_step again (vector_type element) = asserted
message_name_step again k = get_message_name_for_scalar k

-- The type's message is looked up, and generated before if it is not there.
unfoldable pub field_of_message :
    (TypeRef → Generator → Outcome Generator)
    → TypeRef
    → Field
    → Generator
    → Outcome (Field × Generator)
unfolding find ◌>>=◌
field_of_message generate_for t field g = do
  g1 ← elim (find t g.type_messages) [ none ↦ generate_for t g | some m ↦ done g ]
  elim (find {V = ProtoMessage} t g1.type_messages) [
    | none ↦ undefined
    | some m ↦ done (record field { type_name = m.name }, g1)
  ]

-- One call of generateMessageField; `again` is the call for the type that is pointed to or the element
-- type, and `generate_for` is generateMessageForType.
unfoldable pub field_step :
    (TypeRef → Outcome (Field × Generator))
    → (TypeRef → Generator → Outcome Generator)
    → TypeRef
    → TypeKind
    → Field
    → Generator
    → Outcome (Field × Generator)
unfolding field_of_message get_scalar_type ◌>>=◌
field_step again generate_for t (pointer_type pointee) field g = again pointee
field_step again generate_for t (array_type element) field g = do
  (f, g1) ← again element
  done (record f { attribute = "repeated" }, g1)
field_step again generate_for t (vector_type element) field g =
    field_of_message generate_for t field g
field_step again generate_for t (struct_type name elements) field g =
    field_of_message generate_for t field g
field_step again generate_for t k field g = do
  s ← get_scalar_type k
  done (record field { type_name = s }, g)

-- The type that a pointer points to goes first.
unfoldable pub visit_pointee :
    (TypeRef → Generator → Outcome Generator) → TypeKind → Generator → Outcome Generator
visit_pointee generate_for (pointer_type pointee) g = generate_for pointee g
visit_pointee generate_for k g = done g

-- The end of generateMessageForType: the map keeps a message that is there.
unfoldable pub add_type_message : TypeRef → ProtoMessage → Generator → Generator
unfolding emplace add_message
add_type_message t msg g = record {
  type_messages = emplace t msg g.type_messages;
  proto_file = add_message msg g.proto_file;
}

module _ (types : ProgramTypes) where
  -- getMessageNameForType
  unfoldable pub get_message_name_for_type : ℕ → TypeRef → Outcome String
  unfolding message_name_step
  get_message_name_for_type zero t = unfinished
  get_message_name_for_type (suc fuel) t =
      message_name_step (get_message_name_for_type fuel) (types.kind t)

  -- generateMessageField
  unfoldable pub generate_message_field :
      (TypeRef → Generator → Outcome Generator)
      → ℕ
      → TypeRef
      → String
      → ℕ
      → Generator
      → Outcome (Field × Generator)
  unfolding field_step
  generate_message_field generate_for zero t name number g = unfinished
  generate_message_field generate_for (suc fuel) t name number g =
      field_step (λ u. generate_message_field generate_for fuel u name number g) generate_for t
        (types.kind t) (record new_field { number = number; name = name }) g

  -- The loop over the elements of a struct, of which `i` are done.
  unfoldable pub generate_struct_fields :
      (TypeRef → Generator → Outcome Generator)
      → ℕ
      → ℕ
      → List TypeRef
      → ProtoMessage
      → Generator
      → Outcome (ProtoMessage × Generator)
  unfolding generate_message_field get_field_name add_field ◌>>=◌
  generate_struct_fields generate_for fuel i [] msg g = done (msg, g)
  generate_struct_fields generate_for fuel i (t ∷ ts) msg g = do
    name ← get_field_name (types.kind t)
    (f, g1) ← generate_message_field generate_for fuel t name (i + 1) g
    generate_struct_fields generate_for fuel (suc i) ts (add_field f msg) g1

  -- generateMessageFields
  unfoldable pub generate_message_fields :
      (TypeRef → Generator → Outcome Generator)
      → ℕ
      → TypeRef
      → TypeKind
      → ProtoMessage
      → Generator
      → Outcome (ProtoMessage × Generator)
  unfolding generate_struct_fields generate_message_field add_field ◌>>=◌
  generate_message_fields generate_for fuel t (struct_type name elements) msg g =
      generate_struct_fields generate_for fuel 0 elements msg g
  generate_message_fields generate_for fuel t k msg g = do
    (f, g1) ← generate_message_field generate_for fuel t "value" 1 g
    done (add_field f msg, g1)

  -- The body of generateMessageForType, for a type with no message.
  unfoldable pub generate_new_message :
      (TypeRef → Generator → Outcome Generator) → ℕ → TypeRef → Generator → Outcome Generator
  unfolding visit_pointee get_message_name_for_type generate_message_fields add_type_message ◌>>=◌
  generate_new_message generate_for fuel t g = do
    g1 ← visit_pointee generate_for (types.kind t) g
    name ← get_message_name_for_type fuel t
    (msg, g2) ← generate_message_fields generate_for fuel t (types.kind t) (new_message name) g1
    done (add_type_message t msg g2)

  -- generateMessageForType
  unfoldable pub generate_message_for_type : ℕ → TypeRef → Generator → Outcome Generator
  unfolding generate_new_message find
  generate_message_for_type zero t g = unfinished
  generate_message_for_type (suc fuel) t g = elim (find t g.type_messages) [
    | none ↦ generate_new_message (generate_message_for_type fuel) fuel t g
    | some m ↦ done g
  ]

  -- The loop over the parameters.
  unfoldable pub generate_messages_for_types : ℕ → List TypeRef → Generator → Outcome Generator
  unfolding generate_message_for_type ◌>>=◌
  generate_messages_for_types fuel [] g = done g
  generate_messages_for_types fuel (t ∷ ts) g = do
    g1 ← generate_message_for_type fuel t g
    generate_messages_for_types fuel ts g1

  -- generateMessagesForFunction
  unfoldable pub generate_messages_for_function : ℕ → FunctionRef → Generator → Outcome Generator
  unfolding generate_message_for_type generate_messages_for_types ◌>>=◌
  generate_messages_for_function fuel f g = do
    g1 ← generate_message_for_type fuel (types.return_type f) g
    generate_messages_for_types fuel (types.param_types f) g1

  -- generateMessages
  unfoldable pub generate_messages : ℕ → List FunctionRef → Generator → Outcome Generator
  unfolding generate_messages_for_function ◌>>=◌
  generate_messages fuel [] g = done g
  generate_messages fuel (f ∷ fs) g = do
    g1 ← generate_messages_for_function fuel f g
    generate_messages fuel fs g1

  -- generate, of a new generator; `functions` is the partition in the order of its set.
  unfoldable pub generate_proto : ℕ → List FunctionRef → String → Outcome Generator
  unfolding generate_messages
  generate_proto fuel functions proto_name = generate_messages fuel functions (record {
    proto_file = record new_proto_file { version = "proto3"; package_name = proto_name };
    type_messages = [];
  })
