-- ===== src/Examples/Protos.antt =====
-- Examples for the generated .proto files.
use program_partitioning_for.Base.{
  ℕ, ◌≡◌, ◌≢◌, ◌<◌, refl, Bool, true, ◌||◌, [], ◌∷◌, some, arith, contains, ◌==◌, if◌then◌else◌,
  all, any, subst, Bool-cases, ◌⊎◌, inl, inr,
}
use program_partitioning_for.Llvm.{FunctionRef}
use program_partitioning_for.ProtoFile.{ProtoMessage, new_proto_file}
use program_partitioning_for.ProtoFile.Generator.{
  TypeRef, TypeKind, integer_type, pointer_type, struct_type, other_type, ProgramTypes, Outcome,
  done, Generator, generate_proto,
}
use program_partitioning_for.ProtoFile.Known.{is_closed_message, is_numbered}
use program_partitioning_for.ProtoFile.Closed.{
  is_interface_type, generate_proto-closed, generate_proto-nameless,
}
use program_partitioning_for.ProtoFile.Ends.{generate_proto_ends}
use program_partitioning_for.ProtoFile.Layers.{IsLayered, is_message_kind, is_field_kind}
use program_partitioning_for.ProtoFile.Diverges.{generate_proto_diverges}

-- The types: 1 is a 32-bit integer, 2 a point of two of them, 3 a pointer to a point, 4 the node of a list
-- and 5 a pointer to such a node, and 6 is void.
abbrev type_kind : TypeRef → TypeKind
type_kind t =
    if t == 1
    then integer_type 32
    else (if t == 2
        then struct_type (some "Point") (1 ∷ 1 ∷ [])
        else (if t == 3
            then pointer_type 2
            else (if t == 4
                then struct_type (some "Node") (1 ∷ 5 ∷ [])
                else (if t == 5 then pointer_type 4 else other_type))))

-- The function 1 takes a point, 2 takes a pointer to a point and 3 returns a node.
abbrev program_types : ProgramTypes
program_types = record {
  kind = type_kind;
  return_type = λ f. if f == 3 then 4 else 1;
  param_types = λ f. if f == 1 then 2 ∷ [] else (if f == 2 then 3 ∷ [] else []);
}

abbrev the_generator : Outcome Generator → Generator
the_generator (done g) = g
the_generator o = record { proto_file = new_proto_file; type_messages = [] }

abbrev point_generator : Generator
unfolding generate_proto
point_generator = the_generator (generate_proto program_types 3 (1 ∷ []) "points")

point_generator_lem : generate_proto program_types 3 (1 ∷ []) "points" ≡ done point_generator
unfolding generate_proto
point_generator_lem = refl

generate_proto-closed_example :
    (all (is_closed_message point_generator.proto_file.messages) point_generator.proto_file.messages
      ≡ true)
    × (all (λ (m : ProtoMessage). is_numbered 1 m.fields) point_generator.proto_file.messages
        ≡ true)
generate_proto-closed_example =
    generate_proto-closed program_types 3 (1 ∷ []) "points" point_generator point_generator_lem

generate_proto-nameless_example :
    generate_proto program_types 9 (1 ∷ 2 ∷ []) "points" ≢ done point_generator
unfolding contains
generate_proto-nameless_example =
    generate_proto-nameless program_types 9 (1 ∷ 2 ∷ []) "points" 2 3 point_generator refl refl refl

abbrev rank : TypeRef → ℕ
rank t = if t == 2 then 1 else 0

abbrev is_plain : TypeRef → Bool
is_plain t = t == 1 || t == 2

plain_cases : (t : TypeRef) → is_plain t ≡ true → (1 ≡ t) ⊎ (2 ≡ t)
plain_cases t h = elim (Bool-cases (t == 1)) [
  | inl e ↦ inl (ground (arith, e))
  | inr e ↦ inr (ground (arith, e, h))
]

types-IsLayered : IsLayered program_types rank is_plain is_plain
unfolding all
types-IsLayered = record {
  messages = λ t h. elim (plain_cases t h) [
    | inl e ↦
        subst (λ u. is_message_kind program_types rank is_plain is_plain u (type_kind u) ≡ true) e
          refl
    | inr e ↦
        subst (λ u. is_message_kind program_types rank is_plain is_plain u (type_kind u) ≡ true) e
          refl
  ];
  fields = λ t h. elim (plain_cases t h) [
    | inl e ↦
        subst (λ u. is_field_kind program_types rank is_plain is_plain u (type_kind u) ≡ true) e
          refl
    | inr e ↦
        subst (λ u. is_field_kind program_types rank is_plain is_plain u (type_kind u) ≡ true) e
          refl
  ];
  message_field = λ t h. h;
}

interface_plain :
    (t : TypeRef) → is_interface_type program_types 1 t ≡ true → (is_plain t ≡ true) × (rank t < 2)
unfolding contains
interface_plain t i = (ground (arith, i), ground (arith, i))

only_function : (f : FunctionRef) → contains (1 ∷ []) f ≡ true → f ≡ 1
unfolding contains
only_function f c = ground (arith, c)

generate_proto_ends_example :
    (g : Generator) × (generate_proto program_types 3 (1 ∷ []) "points" ≡ done g)
generate_proto_ends_example =
    generate_proto_ends program_types rank is_plain is_plain types-IsLayered 2 (1 ∷ []) "points"
      (λ f t c i.
        interface_plain t
          (subst (λ g. is_interface_type program_types g t ≡ true) (only_function f c) i))

generate_proto_diverges_example :
    generate_proto program_types 50 (1 ∷ 3 ∷ []) "points" ≢ done point_generator
unfolding contains any
generate_proto_diverges_example =
    generate_proto_diverges program_types (λ t. t == 4) (λ t. t == 4 || t == 5)
      (λ t h. ground (arith, h)) (λ t h. ground (arith, h)) 50 (1 ∷ 3 ∷ []) "points" 3 4
      point_generator refl refl refl
