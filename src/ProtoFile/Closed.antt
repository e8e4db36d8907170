-- ===== src/ProtoFile/Closed.antt =====
-- lib/CodeGen/ProtoFileGenerator.cpp: the messages for the functions of a partition.
use program_partitioning_for.Base.{
  all, ℕ, zero, suc, ◌≡◌, ◌≢◌, refl, Bool, true, false, ◌||◌, List, [], ◌∷◌, none, some, arith,
  find, Option-cases, inl, inr, contains, subst, sym, ◌==◌, ==_iff, Bool-cases,
}
use program_partitioning_for.Texts.{String}
use program_partitioning_for.Llvm.{FunctionRef}
use program_partitioning_for.ProtoFile.{new_proto_file}
use program_partitioning_for.ProtoFile.Generator.{
  TypeRef, TypeKind, integer_type, float_type, double_type, other_type, pointer_type, array_type,
  vector_type, struct_type, ProgramTypes, Outcome, done, get_message_name_for_scalar, Generator,
  get_message_name_for_type, message_name_step, struct_name, generate_message_for_type,
  generate_messages_for_types, generate_messages_for_function, generate_messages, generate_proto,
}
use program_partitioning_for.ProtoFile.Known.{
  bind_inv, is_closed_message, is_numbered, IsKept, IsNamed, is_known, Extends, Extends-refl,
  Extends-trans, defines,
}
use program_partitioning_for.ProtoFile.Fields.{generate_message_for_type-Generates}

-- The types in the interface of a function.
abbrev pub is_interface_type : ProgramTypes → FunctionRef → TypeRef → Bool
is_interface_type types f t = (types.return_type f == t) || contains (types.param_types f) t

absurd_known {ℓ} :
    {A : Type ℓ} (g : Generator) (t : TypeRef)
    → find t g.type_messages ≡ none
    → is_known g t ≡ true
    → A
absurd_known g t e h = ground (arith, e, h)

-- A type that getMessageNameForType fails for: a pointer, a vector, void, or a literal struct.
abbrev pub is_nameless : TypeKind → Bool
is_nameless (pointer_type t) = true
is_nameless (vector_type t) = true
is_nameless (struct_type none ts) = true
is_nameless other_type = true
is_nameless _ = false

message_name_step-nameless :
    (again : TypeRef → Outcome String) (k : TypeKind) (s : String)
    → is_nameless k ≡ true
    → message_name_step again k ≢ done s
unfolding message_name_step get_message_name_for_scalar struct_name
message_name_step-nameless again (pointer_type t) s n h = ground (arith, h)
message_name_step-nameless again (vector_type t) s n h = ground (arith, h)
message_name_step-nameless again (struct_type none ts) s n h = ground (arith, h)
message_name_step-nameless again other_type s n h = ground (arith, h)
message_name_step-nameless again (struct_type (some name) ts) s n h = ground (arith, n)
message_name_step-nameless again (integer_type w) s n h = ground (arith, n)
message_name_step-nameless again float_type s n h = ground (arith, n)
message_name_step-nameless again double_type s n h = ground (arith, n)
message_name_step-nameless again (array_type t) s n h = ground (arith, n)

get_message_name_for_type-nameless :
    (types : ProgramTypes) (fuel : ℕ) (t : TypeRef) (s : String)
    → is_nameless (types.kind t) ≡ true
    → get_message_name_for_type types fuel t ≢ done s
unfolding get_message_name_for_type
get_message_name_for_type-nameless types zero t s n h = ground (arith, h)
get_message_name_for_type-nameless types (suc fuel) t s n h =
    message_name_step-nameless (get_message_name_for_type types fuel) (types.kind t) s n h

module _ (types : ProgramTypes) where
  generate_messages_for_types-Extends :
      (fuel : ℕ) (ts : List TypeRef) (g g1 : Generator)
      → IsKept types g
      → generate_messages_for_types types fuel ts g ≡ done g1
      → IsKept types g1
        × Extends g g1
        × ((t : TypeRef) → contains ts t ≡ true → is_known g1 t ≡ true)
  unfolding generate_messages_for_types contains
  generate_messages_for_types-Extends fuel [] g g1 kept h =
      let same : g ≡ g1 = ground (arith, h) in
      let (k, e) = subst (λ x. IsKept types x × Extends g x) same (kept, Extends-refl g) in
      (k, e, λ t c. ground (arith, c))
  generate_messages_for_types-Extends fuel (t ∷ ts) g g1 kept h =
      let (g2, first, rest) = bind_inv (generate_message_for_type types fuel t g) _ _ h in
      let (kept2, later2, found) =
        generate_message_for_type-Generates types fuel t g g2 kept first in
      let (kept1, later1, others) = generate_messages_for_types-Extends fuel ts g2 g1 kept2 rest in
      (
        kept1,
        Extends-trans later2 later1,
        λ u c. elim (Bool-cases (t == u)) [
          | inl e ↦ subst (λ x. is_known g1 x ≡ true) ((==_iff t u).0 e) (later1.known t found)
          | inr e ↦ others u (ground (arith, c, e))
        ],
      )

  generate_messages_for_function-Extends :
      (fuel : ℕ) (f : FunctionRef) (g g1 : Generator)
      → IsKept types g
      → generate_messages_for_function types fuel f g ≡ done g1
      → IsKept types g1
        × Extends g g1
        × ((t : TypeRef) → is_interface_type types f t ≡ true → is_known g1 t ≡ true)
  unfolding generate_messages_for_function
  generate_messages_for_function-Extends fuel f g g1 kept h =
      let (g2, returned, params) =
        bind_inv (generate_message_for_type types fuel (types.return_type f) g) _ _ h in
      let (kept2, later2, found) =
        generate_message_for_type-Generates types fuel (types.return_type f) g g2 kept returned in
      let (kept1, later1, others) =
        generate_messages_for_types-Extends fuel (types.param_types f) g2 g1 kept2 params in
      (
        kept1,
        Extends-trans later2 later1,
        λ t i. elim (Bool-cases (types.return_type f == t)) [
          | inl e ↦
              subst (λ x. is_known g1 x ≡ true) ((==_iff (types.return_type f) t).0 e)
                (later1.known (types.return_type f) found)
          | inr e ↦ others t (ground (arith, i, e))
        ],
      )

  generate_messages-Extends :
      (fuel : ℕ) (fs : List FunctionRef) (g g1 : Generator)
      → IsKept types g
      → generate_messages types fuel fs g ≡ done g1
      → IsKept types g1
        × Extends g g1
        × ((f : FunctionRef) (t : TypeRef)
            → contains fs f ≡ true
            → is_interface_type types f t ≡ true
            → is_known g1 t ≡ true)
  unfolding generate_messages contains
  generate_messages-Extends fuel [] g g1 kept h =
      let same : g ≡ g1 = ground (arith, h) in
      let (k, e) = subst (λ x. IsKept types x × Extends g x) same (kept, Extends-refl g) in
      (k, e, λ f t c. ground (arith, c))
  generate_messages-Extends fuel (f ∷ fs) g g1 kept h =
      let (g2, first, rest) = bind_inv (generate_messages_for_function types fuel f g) _ _ h in
      let (kept2, later2, interface) =
        generate_messages_for_function-Extends fuel f g g2 kept first in
      let (kept1, later1, others) = generate_messages-Extends fuel fs g2 g1 kept2 rest in
      (
        kept1,
        Extends-trans later2 later1,
        λ j t c i. elim (Bool-cases (f == j)) [
          | inl e ↦ later1.known t (
              interface t
                (subst (λ x. is_interface_type types x t ≡ true) (sym ((==_iff f j).0 e)) i))
          | inr e ↦ others j t (ground (arith, c, e)) i
        ],
      )

  pub generate_proto-IsKept :
      (fuel : ℕ) (functions : List FunctionRef) (proto_name : String) (g : Generator)
      → generate_proto types fuel functions proto_name ≡ done g
      → IsKept types g
        × ((f : FunctionRef) (t : TypeRef)
            → contains functions f ≡ true
            → is_interface_type types f t ≡ true
            → is_known g t ≡ true)
  unfolding generate_proto find all
  generate_proto-IsKept fuel functions proto_name g h =
      let start : Generator = record {
        proto_file = record new_proto_file { version = "proto3"; package_name = proto_name };
        type_messages = [];
      } in
      let (kept, later, found) =
        generate_messages-Extends fuel functions start g
          (record {
            named = λ t m e. ground (arith, e);
            defined = λ t m e. ground (arith, e);
            closed = refl;
            numbered = refl;
          })
          h in
      (kept, found)

  -- When the generation returns, the type of each field is one of the texts that getScalarType gives (bool,
  -- int32, int64, int, float and double, where int is no type of proto3) or the name of a message in the
  -- same file, and the fields of each message are numbered 1, 2, 3 and so on.
  pub generate_proto-closed :
      (fuel : ℕ) (functions : List FunctionRef) (proto_name : String) (g : Generator)
      → generate_proto types fuel functions proto_name ≡ done g
      → (all (is_closed_message g.proto_file.messages) g.proto_file.messages ≡ true)
        × (all (λ m. is_numbered 1 m.fields) g.proto_file.messages ≡ true)
  generate_proto-closed fuel functions proto_name g h =
      let (kept, found) = generate_proto-IsKept fuel functions proto_name g h in
      (kept.closed, kept.numbered)

  -- When the generation returns, the return type and each parameter type of every function in the
  -- partition has a message in the file, under the name that getMessageNameForType gives the type.
  pub generate_proto-interface_type :
      (fuel : ℕ) (functions : List FunctionRef) (proto_name : String) (g : Generator)
      (f : FunctionRef) (t : TypeRef)
      → generate_proto types fuel functions proto_name ≡ done g
      → contains functions f ≡ true
      → is_interface_type types f t ≡ true
      → (s : String) × IsNamed types t s × (defines g.proto_file.messages s ≡ true)
  generate_proto-interface_type fuel functions proto_name g f t h c i =
      let (kept, found) = generate_proto-IsKept fuel functions proto_name g h in
      elim (Option-cases (find t g.type_messages)) [
        | inl e ↦ absurd_known g t e (found f t c i)
        | inr (m, e) ↦ (m.name, kept.named t m e, kept.defined t m e)
      ]

  -- The generation never returns, whatever the fuel, for a partition with a function that returns void, or
  -- that returns or takes a pointer, a vector or a literal struct.
  pub generate_proto-nameless :
      (fuel : ℕ) (functions : List FunctionRef) (proto_name : String) (f : FunctionRef)
      (t : TypeRef) (g : Generator)
      → contains functions f ≡ true
      → is_interface_type types f t ≡ true
      → is_nameless (types.kind t) ≡ true
      → generate_proto types fuel functions proto_name ≢ done g
  generate_proto-nameless fuel functions proto_name f t g c i n h =
      let (s, (used, named), defined) =
        generate_proto-interface_type fuel functions proto_name g f t h c i in
      get_message_name_for_type-nameless types used t s n named
