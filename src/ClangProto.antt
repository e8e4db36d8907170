-- ===== src/ClangProto.antt =====
-- lib/ClangTools/ProtoFileGenerator.cpp: the .proto file for functions of a source file, with messages for
-- the parameters of each function and a service. What is logged is left out.
pub mod Service
pub mod CompositeFields
pub mod CompositeMessages
pub mod Outputs
pub mod Elaborated
use program_partitioning_for.Base.{
  ℕ, zero, suc, Bool, true, false, ◌||◌, List, [], ◌∷◌, ◌++◌, Option, none, some, ◌==◌,
  if◌then◌else◌, find, emplace,
}
use program_partitioning_for.Base.Int.{ℤ, negsuc}
use program_partitioning_for.Texts.{String}
use program_partitioning_for.ProtoFile.{
  Field, new_field, ProtoEnum, ProtoMessage, new_message, add_field, Rpc, ProtoService, ProtoFile,
  new_proto_file, add_message,
}
use program_partitioning_for.ProtoFile.Generator.{
  TypeRef, Outcome, done, asserted, undefined, unfinished, ◌>>=◌,
}

-- clang::FieldDecl and ParmVarDecl
pub record VarDecl : Type 0 where
  pub name : String
  pub var_type : TypeRef

-- clang::EnumDecl: the enumerators, with the values of those that have an initializer.
pub record EnumDecl : Type 0 where
  pub name : String
  pub enumerators : List (String × Option ℤ)

-- The classes of clang::Type that the code casts to; a record has its definition's fields, if it has one.
pub data ClangKind : Type 0 where
  pointer_type array_type elaborated_type : TypeRef → ClangKind
  enum_type : EnumDecl → ClangKind
  record_type : Option (List VarDecl) → ClangKind
  other_type : ClangKind

-- clang's types: the class of a type, and what the type that it is an alias of is; `structure` has the
-- fields of getAsStructureType where isStructureType holds.
pub record ClangTypes : Type 0 where
  pub kind : TypeRef → ClangKind
  pub is_scalar : TypeRef → Bool
  pub is_array : TypeRef → Bool
  pub is_enumeral : TypeRef → Bool
  pub is_signed_integer : TypeRef → Bool
  pub is_unsigned_integer : TypeRef → Bool
  pub is_floating : TypeRef → Bool
  pub structure : TypeRef → Option (List VarDecl)
  pub canonical_name : TypeRef → String

-- clang::FunctionDecl
pub record FunctionDecl : Type 0 where
  pub function : ℕ
  pub name : String
  pub return_type : TypeRef
  pub params : List VarDecl

-- The members that change.
pub record ClangGenerator : Type 0 where
  pub proto_file : ProtoFile
  pub type_messages : List (TypeRef × ProtoMessage)
  pub function_input_messages : List (ℕ × ProtoMessage)

unfoldable pub enum_values : List (String × Option ℤ) → List (String × ℤ)
enum_values [] = []
enum_values ((name, value) ∷ rest) =
    (name, elim value [ none ↦ negsuc 0 | some v ↦ v ]) ∷ enum_values rest

-- generateMessageEnum: a type that is an alias of an enumeration is not of the class that it casts to.
unfoldable pub generate_message_enum : ClangKind → Outcome ProtoEnum
unfolding enum_values
generate_message_enum (enum_type d) =
    done (record { name = d.name; values = enum_values d.enumerators })
generate_message_enum _ = undefined

-- addEnum
unfoldable pub add_enum : ProtoEnum → ProtoMessage → ProtoMessage
add_enum en msg = record msg { enums = msg.enums ++ en ∷ [] }

-- The end of generateMessageForType: the map keeps a message that is there.
unfoldable pub add_type_message : TypeRef → ProtoMessage → ClangGenerator → ClangGenerator
unfolding emplace add_message
add_type_message t msg g = record g {
  type_messages = emplace t msg g.type_messages;
  proto_file = add_message msg g.proto_file;
}

module _ (types : ClangTypes) where
  -- getScalarType, whose end is reached without a value for the other scalar types.
  unfoldable pub get_scalar_type : TypeRef → Outcome String
  get_scalar_type t =
      if types.is_signed_integer t
      then done "int"
      else (if types.is_unsigned_integer t
          then done "unsigned"
          else (if types.is_floating t then done "float" else undefined))

  -- The last part of generateMessageField: the comparison of the iterator is always true.
  unfoldable pub field_of_message :
      (TypeRef → ClangGenerator → Outcome ClangGenerator)
      → TypeRef
      → Field
      → ClangGenerator
      → Outcome (Field × ClangGenerator)
  unfolding find ◌>>=◌
  field_of_message generate_for t field g = do
    g1 ← generate_for t g
    elim (find {V = ProtoMessage} t g1.type_messages) [
      | none ↦ undefined
      | some m ↦ done (record field { type_name = m.name }, g1)
    ]

  -- The branch for an enumeration, with getEnumType.
  unfoldable pub enum_field : ClangKind → Field → ClangGenerator → Outcome (Field × ClangGenerator)
  enum_field (enum_type d) field g =
      done (record field { attribute = "FILL ENUM"; type_name = d.name }, g)
  enum_field _ field g = undefined

  -- The branches for arrays and records.
  unfoldable pub composite_field :
      (TypeRef → Outcome (Field × ClangGenerator))
      → (TypeRef → ClangGenerator → Outcome ClangGenerator)
      → TypeRef
      → ClangKind
      → Field
      → ClangGenerator
      → Outcome (Field × ClangGenerator)
  unfolding field_of_message ◌>>=◌
  composite_field again generate_for t (array_type element) field g = do
    (f, g1) ← again element
    done (record f { attribute = "repeated" }, g1)
  composite_field again generate_for t k field g = field_of_message generate_for t field g

  -- One call of generateMessageField.
  unfoldable pub field_step :
      (TypeRef → Outcome (Field × ClangGenerator))
      → (TypeRef → ClangGenerator → Outcome ClangGenerator)
      → TypeRef
      → ClangKind
      → Field
      → ClangGenerator
      → Outcome (Field × ClangGenerator)
  unfolding enum_field composite_field get_scalar_type ◌>>=◌
  field_step again generate_for t (pointer_type pointee) field g = again pointee
  field_step again generate_for t k field g = elim (types.is_scalar t) [
    | true ↦ get_scalar_type t >>= λ s. done (record field { type_name = s }, g)
    | false ↦ elim (types.is_enumeral t) [
      | true ↦ enum_field k field g
      | false ↦ composite_field again generate_for t k field g
    ]
  ]

  -- generateMessageField
  unfoldable pub generate_message_field :
      (TypeRef → ClangGenerator → Outcome ClangGenerator)
      → ℕ
      → TypeRef
      → String
      → ℕ
      → ClangGenerator
      → Outcome (Field × ClangGenerator)
  unfolding field_step
  generate_message_field generate_for zero t name number g = unfinished
  generate_message_field generate_for (suc fuel) t name number g =
      field_step (λ u. generate_message_field generate_for fuel u name number g) generate_for t
        (types.kind t) (record new_field { number = number; name = name }) g

  -- The enumeration of a field goes into the message.
  unfoldable pub field_enum : TypeRef → ProtoMessage → Outcome ProtoMessage
  unfolding generate_message_enum add_enum ◌>>=◌
  field_enum t msg = elim (types.is_enumeral t) [
    | true ↦ generate_message_enum (types.kind t) >>= λ en. done (add_enum en msg)
    | false ↦ done msg
  ]

  -- The loop over the fields of a record, of which `i` are done.
  unfoldable pub generate_record_fields :
      (TypeRef → ClangGenerator → Outcome ClangGenerator)
      → ℕ
      → ℕ
      → List VarDecl
      → ProtoMessage
      → ClangGenerator
      → Outcome (ProtoMessage × ClangGenerator)
  unfolding generate_message_field field_enum add_field ◌>>=◌
  generate_record_fields generate_for fuel i [] msg g = done (msg, g)
  generate_record_fields generate_for fuel i (d ∷ ds) msg g = do
    msg1 ← field_enum d.var_type msg
    (f, g1) ← generate_message_field generate_for fuel d.var_type d.name (suc i) g
    generate_record_fields generate_for fuel (suc i) ds (add_field f msg1) g1

  -- The second part of generateMessageFields, after that for an ElaboratedType.
  unfoldable pub own_fields :
      (TypeRef → ClangGenerator → Outcome ClangGenerator)
      → ℕ
      → TypeRef
      → ClangKind
      → ProtoMessage
      → ClangGenerator
      → Outcome (ProtoMessage × ClangGenerator)
  unfolding generate_record_fields
  own_fields generate_for fuel t (record_type (some ds)) msg g =
      generate_record_fields generate_for fuel 0 ds msg g
  own_fields generate_for fuel t (record_type none) msg g = undefined
  own_fields generate_for fuel t k msg g = elim (types.structure t) [
    | none ↦ done (msg, g)
    | some ds ↦ generate_record_fields generate_for fuel 0 ds msg g
  ]

  -- generateMessageFields
  unfoldable pub generate_message_fields :
      (TypeRef → ClangGenerator → Outcome ClangGenerator)
      → ℕ
      → TypeRef
      → ProtoMessage
      → ClangGenerator
      → Outcome (ProtoMessage × ClangGenerator)
  unfolding own_fields ◌>>=◌
  generate_message_fields generate_for zero t msg g = unfinished
  generate_message_fields generate_for (suc fuel) t msg g = do
    (msg1, g1) ← elim (types.kind t) [
      | elaborated_type named ↦ generate_message_fields generate_for fuel named msg g
      | other ↦ done (msg, g)
    ]
    own_fields generate_for fuel t (types.kind t) msg1 g1
