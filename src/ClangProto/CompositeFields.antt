-- ===== src/ClangProto/CompositeFields.antt =====
-- lib/ClangTools/ProtoFileGenerator.cpp: the messages that are made with fields.
use program_partitioning_for.Base.{
  ℕ, zero, suc, ◌≡◌, subst, true, false, ◌||◌, List, [], ◌∷◌, none, some, arith, find, Option-cases,
  Bool-cases, inl, inr,
}
use program_partitioning_for.Texts.{String}
use program_partitioning_for.ProtoFile.{Field, new_field, ProtoMessage, add_field}
use program_partitioning_for.ProtoFile.Generator.{TypeRef, Outcome, done, ◌>>=◌}
use program_partitioning_for.ProtoFile.Known.{bind_inv}
use program_partitioning_for.ClangProto.{
  VarDecl, ClangKind, pointer_type, array_type, elaborated_type, enum_type, record_type, ClangTypes,
  ClangGenerator, get_scalar_type, field_of_message, enum_field, composite_field, field_step,
  generate_message_field, field_enum, generate_record_fields, own_fields, generate_message_fields,
}

module _ (types : ClangTypes) where
  -- No scalar or array type has a message.
  abbrev pub IsComposite : ClangGenerator → Type 0
  IsComposite g =
      (t : TypeRef) (m : ProtoMessage)
      → find t g.type_messages ≡ some m
      → (types.is_scalar t || types.is_array t) ≡ false

  abbrev pub Stays : (TypeRef → ClangGenerator → Outcome ClangGenerator) → Type 0
  Stays gen =
      (t : TypeRef) (g g1 : ClangGenerator) → IsComposite g → gen t g ≡ done g1 → IsComposite g1

  module _ (gen : TypeRef → ClangGenerator → Outcome ClangGenerator) (stays : Stays gen) where
    field_of_message-Stays :
        (t : TypeRef) (field : Field) (g : ClangGenerator) (f : Field) (g1 : ClangGenerator)
        → IsComposite g
        → field_of_message types gen t field g ≡ done (f, g1)
        → IsComposite g1
    unfolding field_of_message
    field_of_message-Stays t field g f g1 o h =
        let (g2, first, rest) = bind_inv (gen t g) _ _ h in
        elim (Option-cases (find t g2.type_messages)) [
          | inl e ↦ ground (arith, rest, e)
          | inr (m, e) ↦
              let same : g2 ≡ g1 = ground (arith, rest, e) in
              subst IsComposite same (stays t g g2 o first)
        ]

    composite_field-Stays :
        (again : TypeRef → Outcome (Field × ClangGenerator)) (t : TypeRef) (k : ClangKind)
        (field : Field) (g : ClangGenerator) (f : Field) (g1 : ClangGenerator)
        → IsComposite g
        → ((u : TypeRef) (f2 : Field) (g2 : ClangGenerator)
            → again u ≡ done (f2, g2)
            → IsComposite g2)
        → composite_field types again gen t k field g ≡ done (f, g1)
        → IsComposite g1
    unfolding composite_field
    composite_field-Stays again t (array_type u) field g f g1 o ok h =
        let ((f2, g2), first, rest) = bind_inv _ _ _ h in
        let same : g2 ≡ g1 = ground (arith, rest) in subst IsComposite same (ok u f2 g2 first)
    composite_field-Stays again t k field g f g1 o ok h = field_of_message-Stays t field g f g1 o h

    enum_field-Stays :
        (k : ClangKind) (field : Field) (g : ClangGenerator) (f : Field) (g1 : ClangGenerator)
        → IsComposite g
        → enum_field types k field g ≡ done (f, g1)
        → IsComposite g1
    unfolding enum_field
    enum_field-Stays (enum_type d) field g f g1 o h =
        let same : g ≡ g1 = ground (arith, h) in subst IsComposite same o
    enum_field-Stays k field g f g1 o h = ground (arith, h)

    scalar_or_other-Stays :
        (again : TypeRef → Outcome (Field × ClangGenerator)) (t : TypeRef) (k : ClangKind)
        (field : Field) (g : ClangGenerator) (f : Field) (g1 : ClangGenerator)
        → IsComposite g
        → ((u : TypeRef) (f2 : Field) (g2 : ClangGenerator)
            → again u ≡ done (f2, g2)
            → IsComposite g2)
        → (elim (types.is_scalar t) as (λ b. Outcome (Field × ClangGenerator)) [
          | true ↦ get_scalar_type types t >>= λ s. done (record field { type_name = s }, g)
          | false ↦ elim (types.is_enumeral t) [
            | true ↦ enum_field types k field g
            | false ↦ composite_field types again gen t k field g
          ]
        ])
          ≡ done (f, g1)
        → IsComposite g1
    scalar_or_other-Stays again t k field g f g1 o ok h = elim (Bool-cases (types.is_scalar t)) [
      | inl e ↦
          let (text, made, rest) = bind_inv (get_scalar_type types t) _ _ (rw e at h) in
          let same : g ≡ g1 = ground (arith, rest) in subst IsComposite same o
      | inr e ↦ elim (Bool-cases (types.is_enumeral t)) [
        | inl e' ↦ enum_field-Stays k field g f g1 o (rw e' at (rw e at h))
        | inr e' ↦ composite_field-Stays again t k field g f g1 o ok (rw e' at (rw e at h))
      ]
    ]

    field_step-Stays :
        (again : TypeRef → Outcome (Field × ClangGenerator)) (t : TypeRef) (k : ClangKind)
        (field : Field) (g : ClangGenerator) (f : Field) (g1 : ClangGenerator)
        → IsComposite g
        → ((u : TypeRef) (f2 : Field) (g2 : ClangGenerator)
            → again u ≡ done (f2, g2)
            → IsComposite g2)
        → field_step types again gen t k field g ≡ done (f, g1)
        → IsComposite g1
    unfolding field_step
    field_step-Stays again t (pointer_type u) field g f g1 o ok h = ok u f g1 h
    field_step-Stays again t k field g f g1 o ok h =
        scalar_or_other-Stays again t k field g f g1 o ok h

    pub generate_message_field-Stays :
        (fuel : ℕ) (t : TypeRef) (name : String) (number : ℕ) (g : ClangGenerator) (f : Field)
        (g1 : ClangGenerator)
        → IsComposite g
        → generate_message_field types gen fuel t name number g ≡ done (f, g1)
        → IsComposite g1
    unfolding generate_message_field
    generate_message_field-Stays zero t name number g f g1 o h = ground (arith, h)
    generate_message_field-Stays (suc fuel) t name number g f g1 o h =
        field_step-Stays (λ u. generate_message_field types gen fuel u name number g) t
          (types.kind t) (record new_field { number = number; name = name }) g f g1 o
          (λ u f2 g2. generate_message_field-Stays fuel u name number g f2 g2 o) h

    generate_record_fields-Stays :
        (fuel i : ℕ) (ds : List VarDecl) (msg : ProtoMessage) (g : ClangGenerator)
        (msg2 : ProtoMessage) (g2 : ClangGenerator)
        → IsComposite g
        → generate_record_fields types gen fuel i ds msg g ≡ done (msg2, g2)
        → IsComposite g2
    unfolding generate_record_fields
    generate_record_fields-Stays fuel i [] msg g msg2 g2 o h =
        let same : g ≡ g2 = ground (arith, h) in subst IsComposite same o
    generate_record_fields-Stays fuel i (d ∷ ds) msg g msg2 g2 o h =
        let (msg1, enum_done, h1) = bind_inv (field_enum types d.var_type msg) _ _ h in
        let ((f, g1), made, h2) =
          bind_inv (generate_message_field types gen fuel d.var_type d.name (suc i) g) _ _ h1 in
        generate_record_fields-Stays fuel (suc i) ds (add_field f msg1) g1 msg2 g2
          (generate_message_field-Stays fuel d.var_type d.name (suc i) g f g1 o made) h2

    structure_fields-Stays :
        (fuel : ℕ) (t : TypeRef) (msg : ProtoMessage) (g : ClangGenerator) (msg2 : ProtoMessage)
        (g2 : ClangGenerator)
        → IsComposite g
        → (elim (types.structure t) as (λ x. Outcome (ProtoMessage × ClangGenerator)) [
          | none ↦ done (msg, g)
          | some ds ↦ generate_record_fields types gen fuel 0 ds msg g
        ])
          ≡ done (msg2, g2)
        → IsComposite g2
    structure_fields-Stays fuel t msg g msg2 g2 o h = elim (Option-cases (types.structure t)) [
      | inl e ↦ let same : g ≡ g2 = ground (arith, h, e) in subst IsComposite same o
      | inr (ds, e) ↦ generate_record_fields-Stays fuel 0 ds msg g msg2 g2 o (rw e at h)
    ]

    own_fields-Stays :
        (fuel : ℕ) (t : TypeRef) (k : ClangKind) (msg : ProtoMessage) (g : ClangGenerator)
        (msg2 : ProtoMessage) (g2 : ClangGenerator)
        → IsComposite g
        → own_fields types gen fuel t k msg g ≡ done (msg2, g2)
        → IsComposite g2
    unfolding own_fields
    own_fields-Stays fuel t (record_type (some ds)) msg g msg2 g2 o h =
        generate_record_fields-Stays fuel 0 ds msg g msg2 g2 o h
    own_fields-Stays fuel t (record_type none) msg g msg2 g2 o h = ground (arith, h)
    own_fields-Stays fuel t k msg g msg2 g2 o h = structure_fields-Stays fuel t msg g msg2 g2 o h

    named_fields-Stays :
        (fuel : ℕ) (k : ClangKind) (msg : ProtoMessage) (g : ClangGenerator) (msg2 : ProtoMessage)
        (g2 : ClangGenerator)
        → ((u : TypeRef)
            → generate_message_fields types gen fuel u msg g ≡ done (msg2, g2)
            → IsComposite g2)
        → IsComposite g
        → (elim k as (λ x. Outcome (ProtoMessage × ClangGenerator)) [
          | elaborated_type named ↦ generate_message_fields types gen fuel named msg g
          | other ↦ done (msg, g)
        ])
          ≡ done (msg2, g2)
        → IsComposite g2
    named_fields-Stays fuel (elaborated_type u) msg g msg2 g2 ok o h = ok u h
    named_fields-Stays fuel k msg g msg2 g2 ok o h =
        let same : g ≡ g2 = ground (arith, h) in subst IsComposite same o

    pub generate_message_fields-Stays :
        (fuel : ℕ) (t : TypeRef) (msg : ProtoMessage) (g : ClangGenerator) (msg2 : ProtoMessage)
        (g2 : ClangGenerator)
        → IsComposite g
        → generate_message_fields types gen fuel t msg g ≡ done (msg2, g2)
        → IsComposite g2
    unfolding generate_message_fields
    generate_message_fields-Stays zero t msg g msg2 g2 o h = ground (arith, h)
    generate_message_fields-Stays (suc fuel) t msg g msg2 g2 o h =
        let ((msg1, g1), first, rest) = bind_inv _ _ _ h in
        own_fields-Stays fuel t (types.kind t) msg1 g1 msg2 g2
          (named_fields-Stays fuel (types.kind t) msg g msg1 g1
            (λ u. generate_message_fields-Stays fuel u msg g msg1 g1 o) o first)
          rest
