-- ===== src/ClangProto/Elaborated.antt =====
-- lib/ClangTools/ProtoFileGenerator.cpp: the fields of a type that is written with its keyword, `struct S`.
use mathlib.Core.List.{append-nil, append_assoc}
use program_partitioning_for.Base.{
  ℕ, zero, suc, ◌≡◌, refl, sym, ap, ◌∙◌, true, false, List, [], ◌∷◌, ◌++◌, some, arith, find,
  Option-cases, Bool-cases, inl, inr,
}
use program_partitioning_for.Texts.{String}
use program_partitioning_for.ProtoFile.{Field, new_field, ProtoMessage, new_message, add_field}
use program_partitioning_for.ProtoFile.Generator.{TypeRef, Outcome, done, ◌>>=◌}
use program_partitioning_for.ProtoFile.Known.{bind_inv, is_numbered}
use program_partitioning_for.ClangProto.{
  VarDecl, ClangKind, pointer_type, array_type, elaborated_type, enum_type, record_type, ClangTypes,
  ClangGenerator, get_scalar_type, field_of_message, enum_field, composite_field, field_step,
  generate_message_field, field_enum, add_enum, generate_message_enum, generate_record_fields,
  own_fields, generate_message_fields,
}

-- The names of fields, and of declared fields.
abbrev pub names_of : List Field → List String
names_of [] = []
names_of (f ∷ fs) = f.name ∷ names_of fs

abbrev pub declared_names : List VarDecl → List String
declared_names [] = []
declared_names (d ∷ ds) = d.name ∷ declared_names ds

module _ (types : ClangTypes) (gen : TypeRef → ClangGenerator → Outcome ClangGenerator) where
  -- The field has the number and the name that it began with.
  Labels : Field → Field → Type 0
  Labels field f = (f.number ≡ field.number) × (f.name ≡ field.name)

  field_of_message-number :
      (t : TypeRef) (field : Field) (g : ClangGenerator) (f : Field) (g1 : ClangGenerator)
      → field_of_message types gen t field g ≡ done (f, g1)
      → Labels field f
  unfolding field_of_message Labels
  field_of_message-number t field g f g1 h =
      let (g2, first, rest) = bind_inv (gen t g) _ _ h in
      elim (Option-cases (find t g2.type_messages)) [
        | inl e ↦ (ground (arith, rest, e), ground (arith, rest, e))
        | inr (m, e) ↦ (ground (arith, rest, e), ground (arith, rest, e))
      ]

  composite_field-number :
      (again : TypeRef → Outcome (Field × ClangGenerator)) (t : TypeRef) (k : ClangKind)
      (field : Field) (g : ClangGenerator) (f : Field) (g1 : ClangGenerator)
      → ((u : TypeRef) (f2 : Field) (g2 : ClangGenerator)
          → again u ≡ done (f2, g2)
          → Labels field f2)
      → composite_field types again gen t k field g ≡ done (f, g1)
      → Labels field f
  unfolding composite_field Labels
  composite_field-number again t (array_type u) field g f g1 ok h =
      let ((f2, g2), first, rest) = bind_inv (again u) _ _ h in
      let (number, name) = ok u f2 g2 first in
      (ground (arith, rest, number), ground (arith, rest, name))
  composite_field-number again t k field g f g1 ok h = field_of_message-number t field g f g1 h

  enum_field-number :
      (k : ClangKind) (field : Field) (g : ClangGenerator) (f : Field) (g1 : ClangGenerator)
      → enum_field types k field g ≡ done (f, g1)
      → Labels field f
  unfolding enum_field Labels
  enum_field-number (enum_type d) field g f g1 h = (ground (arith, h), ground (arith, h))
  enum_field-number k field g f g1 h = ground (arith, h)

  scalar_or_other-number :
      (again : TypeRef → Outcome (Field × ClangGenerator)) (t : TypeRef) (k : ClangKind)
      (field : Field) (g : ClangGenerator) (f : Field) (g1 : ClangGenerator)
      → ((u : TypeRef) (f2 : Field) (g2 : ClangGenerator)
          → again u ≡ done (f2, g2)
          → Labels field f2)
      → (elim (types.is_scalar t) as (λ b. Outcome (Field × ClangGenerator)) [
        | true ↦ get_scalar_type types t >>= λ s. done (record field { type_name = s }, g)
        | false ↦ elim (types.is_enumeral t) [
          | true ↦ enum_field types k field g
          | false ↦ composite_field types again gen t k field g
        ]
      ])
        ≡ done (f, g1)
      → Labels field f
  unfolding Labels
  scalar_or_other-number again t k field g f g1 ok h = elim (Bool-cases (types.is_scalar t)) [
    | inl e ↦
        let (text, made, rest) = bind_inv (get_scalar_type types t) _ _ (rw e at h) in
        (ground (arith, rest), ground (arith, rest))
    | inr e ↦ elim (Bool-cases (types.is_enumeral t)) [
      | inl e' ↦ enum_field-number k field g f g1 (rw e' at (rw e at h))
      | inr e' ↦ composite_field-number again t k field g f g1 ok (rw e' at (rw e at h))
    ]
  ]

  field_step-number :
      (again : TypeRef → Outcome (Field × ClangGenerator)) (t : TypeRef) (k : ClangKind)
      (field : Field) (g : ClangGenerator) (f : Field) (g1 : ClangGenerator)
      → ((u : TypeRef) (f2 : Field) (g2 : ClangGenerator)
          → again u ≡ done (f2, g2)
          → Labels field f2)
      → field_step types again gen t k field g ≡ done (f, g1)
      → Labels field f
  unfolding field_step Labels
  field_step-number again t (pointer_type u) field g f g1 ok h = ok u f g1 h
  field_step-number again t k field g f g1 ok h = scalar_or_other-number again t k field g f g1 ok h

  generate_message_field-number :
      (fuel : ℕ) (t : TypeRef) (name : String) (number : ℕ) (g : ClangGenerator) (f : Field)
      (g1 : ClangGenerator)
      → generate_message_field types gen fuel t name number g ≡ done (f, g1)
      → (f.number ≡ number) × (f.name ≡ name)
  unfolding generate_message_field Labels
  generate_message_field-number zero t name number g f g1 h = ground (arith, h)
  generate_message_field-number (suc fuel) t name number g f g1 h =
      field_step-number (λ u. generate_message_field types gen fuel u name number g) t
        (types.kind t) (record new_field { number = number; name = name }) g f g1
        (λ u f2 g2. generate_message_field-number fuel u name number g f2 g2) h

  field_enum-fields :
      (t : TypeRef) (msg msg1 : ProtoMessage)
      → field_enum types t msg ≡ done msg1
      → msg1.fields ≡ msg.fields
  unfolding field_enum add_enum
  field_enum-fields t msg msg1 h = elim (Bool-cases (types.is_enumeral t)) [
    | inl e ↦
        let (en, made, rest) =
          bind_inv (generate_message_enum (types.kind t)) _ _ (rw (e, field_enum) at h) in
        ground (arith, rest)
    | inr e ↦ ground (arith, rw (e, field_enum) at h)
  ]

  fields_same :
      (msg msg2 : ProtoMessage) (g g2 : ClangGenerator)
      → ◌≡◌ {A = Outcome (ProtoMessage × ClangGenerator)} (done (msg, g)) (done (msg2, g2))
      → msg2.fields ≡ msg.fields
  fields_same msg msg2 g g2 h = ground (arith, h)

  -- The fields that a loop adds, with their names, in the numbers from `i + 1` on.
  Adds : ℕ → List String → ProtoMessage → ProtoMessage → Type 0
  Adds i names msg msg2 =
      (fs : List Field) × (msg2.fields ≡ msg.fields ++ fs)
      × (is_numbered (suc i) fs ≡ true)
      × (names_of fs ≡ names)

  generate_record_fields-Adds :
      (fuel i : ℕ) (ds : List VarDecl) (msg : ProtoMessage) (g : ClangGenerator)
      (msg2 : ProtoMessage) (g2 : ClangGenerator)
      → generate_record_fields types gen fuel i ds msg g ≡ done (msg2, g2)
      → Adds i (declared_names ds) msg msg2
  unfolding generate_record_fields Adds is_numbered add_field
  generate_record_fields-Adds fuel i [] msg g msg2 g2 h =
      ([], fields_same msg msg2 g g2 h ∙ sym (append-nil msg.fields), refl, refl)
  generate_record_fields-Adds fuel i (d ∷ ds) msg g msg2 g2 h =
      let (msg1, enum_done, h1) = bind_inv (field_enum types d.var_type msg) _ _ h in
      let ((f, g1), made, h2) =
        bind_inv (generate_message_field types gen fuel d.var_type d.name (suc i) g) _ _ h1 in
      let (fs, added, numbered, l) =
        generate_record_fields-Adds fuel (suc i) ds (add_field f msg1) g1 msg2 g2 h2 in
      let (number, name) =
        generate_message_field-number fuel d.var_type d.name (suc i) g f g1 made in
      (
        f ∷ fs,
        added
            ∙ append_assoc msg1.fields (f ∷ []) fs
            ∙ ap (λ x. x ++ f ∷ fs) (field_enum-fields d.var_type msg msg1 enum_done),
        ground (arith, number, numbered),
        ap (λ n. n ∷ names_of fs) name ∙ ap (λ ns. d.name ∷ ns) l,
      )

  elaborated_fields :
      (fuel : ℕ) (t u : TypeRef) (ds : List VarDecl) (msg : ProtoMessage) (g : ClangGenerator)
      (msg2 : ProtoMessage) (g2 : ClangGenerator)
      → types.kind t ≡ elaborated_type u
      → types.structure t ≡ some ds
      → generate_message_fields types gen (suc fuel) t msg g ≡ done (msg2, g2)
      → (msg1 : ProtoMessage) × (g1 : ClangGenerator) × (generate_message_fields types gen fuel u
            msg g
          ≡ done (msg1, g1))
        × (generate_record_fields types gen fuel 0 ds msg1 g1 ≡ done (msg2, g2))
  unfolding generate_message_fields own_fields
  elaborated_fields fuel t u ds msg g msg2 g2 k s h =
      let ((msg1, g1), first, rest) =
        bind_inv (generate_message_fields types gen fuel u msg g) _ _ (rw k at h) in
      (msg1, g1, first, rw (s, own_fields) at rest)

  -- A struct that is written with its keyword, so that the type is an ElaboratedType, gets all its fields
  -- twice when they are generated: once for the type that it names and once for itself, both times
  -- under the declared names in their order and numbered from 1 on.
  pub generate_message_fields-elaborated :
      (fuel : ℕ) (t u : TypeRef) (ds : List VarDecl) (name : String) (g : ClangGenerator)
      (msg : ProtoMessage) (g1 : ClangGenerator)
      → types.kind t ≡ elaborated_type u
      → types.structure t ≡ some ds
      → types.kind u ≡ record_type (some ds)
      → generate_message_fields types gen (suc (suc fuel)) t (new_message name) g ≡ done (msg, g1)
      → (once again : List Field) × (msg.fields ≡ once ++ again)
        × (names_of once ≡ declared_names ds)
        × (names_of again ≡ declared_names ds)
        × (is_numbered 1 once ≡ true)
        × (is_numbered 1 again ≡ true)
  unfolding generate_message_fields own_fields Adds
  generate_message_fields-elaborated fuel t u ds name g msg g1 k s k' h =
      let (msg1, g2, first, second) =
        elaborated_fields (suc fuel) t u ds (new_message name) g msg g1 k s h in
      let inner : generate_record_fields types gen fuel 0 ds (new_message name) g
          ≡ done (msg1, g2) =
        rw (k', own_fields) at first in
      let (once, added, numbered, l) =
        generate_record_fields-Adds fuel 0 ds (new_message name) g msg1 g2 inner in
      let (again, added', numbered', l') =
        generate_record_fields-Adds (suc fuel) 0 ds msg1 g2 msg g1 second in
      (once, again, added' ∙ ap (λ x. x ++ again) added, l, l', numbered, numbered')
