-- ===== src/ProtoFile/Fields.antt =====
-- lib/CodeGen/ProtoFileGenerator.cpp: what generateMessageForType keeps, from the fields up.
use program_partitioning_for.Base.{
  all, all-append, ℕ, zero, suc, ◌+◌, ◌≡◌, refl, true, List, [], ◌∷◌, none, some, arith, find,
  length, length-append, Option-cases, inl, inr, subst,
}
use program_partitioning_for.Texts.{String}
use program_partitioning_for.ProtoFile.{Field, ProtoMessage, new_message, add_field, new_field}
use program_partitioning_for.ProtoFile.Generator.{
  TypeRef, TypeKind, pointer_type, array_type, vector_type, struct_type, ProgramTypes, Outcome,
  done, ◌>>=◌, get_field_name, get_scalar_type, Generator, get_message_name_for_type,
  field_of_message, field_step, generate_message_field, generate_struct_fields,
  generate_message_fields, visit_pointee, add_type_message, generate_new_message,
  generate_message_for_type,
}
use program_partitioning_for.ProtoFile.Known.{
  bind_inv, is_closed_field, is_numbered, is_numbered-push, get_scalar_type-text, IsKept, is_known,
  Extends, Extends-refl, Extends-trans, is_closed_fields_later, add_type_message-Extends,
  add_type_message-known, add_type_message-IsKept,
}

module _ (types : ProgramTypes) where
  -- A field that was made between two states of the generator.
  record Makes (g : Generator) (number : ℕ) (f : Field) (g1 : Generator) : Type 0 where
    kept : IsKept types g1
    extends : Extends g g1
    closed : is_closed_field g1.proto_file.messages f ≡ true
    numbered : f.number ≡ number

  -- What generateMessageForType does for the callers in it.
  abbrev pub Generates : (TypeRef → Generator → Outcome Generator) → Type 0
  Generates generate_for =
      (t : TypeRef) (g g1 : Generator)
      → IsKept types g
      → generate_for t g ≡ done g1
      → IsKept types g1 × Extends g g1 × (is_known g1 t ≡ true)

  module _ (generate_for : TypeRef → Generator → Outcome Generator)
      (gen : Generates generate_for) where
    visit_or_known :
        (t : TypeRef) (g g1 : Generator)
        → IsKept types g
        → (elim (find t g.type_messages) [ none ↦ generate_for t g | some m ↦ done g ]) ≡ done g1
        → IsKept types g1 × Extends g g1
    visit_or_known t g g1 k h = elim (Option-cases (find t g.type_messages)) [
      | inl e ↦ let (k1, later, found) = gen t g g1 k (ground (arith, h, e)) in (k1, later)
      | inr (m, e) ↦
          let same : g ≡ g1 = ground (arith, h, e) in
          subst (λ x. IsKept types x × Extends g x) same (k, Extends-refl g)
    ]

    field_of_message-Makes :
        (t : TypeRef) (field : Field) (g : Generator) (f : Field) (g1 : Generator)
        → IsKept types g
        → field_of_message generate_for t field g ≡ done (f, g1)
        → Makes g field.number f g1
    unfolding field_of_message
    field_of_message-Makes t field g f g1 k h =
        let (g2, first, then_found) = bind_inv _ _ _ h in
        let (kept, extends) = visit_or_known t g g2 k first in
        elim (Option-cases (find t g2.type_messages)) [
          | inl e ↦ ground (arith, then_found, e)
          | inr (m, e) ↦
              let same : ◌≡◌ {A = Field × Generator} (record field { type_name = m.name }, g2)
                  (f, g1) =
                ground (arith, then_found, e) in
              subst (λ x. Makes g field.number x.0 x.1) same
                (record {
                  kept = kept;
                  extends = extends;
                  closed = ground (arith, kept.defined t m e);
                  numbered = refl;
                })
        ]

    scalar_field-Makes :
        (k : TypeKind) (field : Field) (g : Generator) (f : Field) (g1 : Generator)
        → IsKept types g
        → ◌>>=◌ {B = Field × Generator}
            (get_scalar_type k)
            (λ s. done (record field { type_name = s }, g))
          ≡ done (f, g1)
        → Makes g field.number f g1
    scalar_field-Makes k field g f g1 kept h =
        let (s, text, rest) = bind_inv (get_scalar_type k) _ _ h in
        let same : ◌≡◌ {A = Field × Generator} (record field { type_name = s }, g) (f, g1) =
          ground (arith, rest) in
        subst (λ x. Makes g field.number x.0 x.1) same
          (record {
            kept = kept;
            extends = Extends-refl g;
            closed = ground (arith, get_scalar_type-text k s text);
            numbered = refl;
          })

    field_step-Makes :
        (again : TypeRef → Outcome (Field × Generator)) (t : TypeRef) (k : TypeKind) (field : Field)
        (g : Generator) (f : Field) (g1 : Generator)
        → IsKept types g
        → ((u : TypeRef) (f2 : Field) (g2 : Generator)
            → again u ≡ done (f2, g2)
            → Makes g field.number f2 g2)
        → field_step again generate_for t k field g ≡ done (f, g1)
        → Makes g field.number f g1
    unfolding field_step
    field_step-Makes again t (pointer_type u) field g f g1 kept ok h = ok u f g1 h
    field_step-Makes again t (array_type u) field g f g1 kept ok h =
        let ((f2, g2), first, rest) = bind_inv _ _ _ h in
        let made = ok u f2 g2 first in
        let same : ◌≡◌ {A = Field × Generator} (record f2 { attribute = "repeated" }, g2) (f, g1) =
          ground (arith, rest) in
        subst (λ x. Makes g field.number x.0 x.1) same
          (record {
            kept = made.kept;
            extends = made.extends;
            closed = made.closed;
            numbered = made.numbered;
          })
    field_step-Makes again t (vector_type u) field g f g1 kept ok h =
        field_of_message-Makes t field g f g1 kept h
    field_step-Makes again t (struct_type n us) field g f g1 kept ok h =
        field_of_message-Makes t field g f g1 kept h
    field_step-Makes again t k field g f g1 kept ok h = scalar_field-Makes k field g f g1 kept h

    generate_message_field-Makes :
        (fuel : ℕ) (t : TypeRef) (name : String) (number : ℕ) (g : Generator) (f : Field)
        (g1 : Generator)
        → IsKept types g
        → generate_message_field types generate_for fuel t name number g ≡ done (f, g1)
        → Makes g number f g1
    unfolding generate_message_field
    generate_message_field-Makes zero t name number g f g1 kept h = ground (arith, h)
    generate_message_field-Makes (suc fuel) t name number g f g1 kept h =
        field_step-Makes (λ u. generate_message_field types generate_for fuel u name number g) t
          (types.kind t) (record new_field { number = number; name = name }) g f g1 kept
          (λ u f2 g2. generate_message_field-Makes fuel u name number g f2 g2 kept) h

    -- A message under way: the fields so far.
    record Fills (g : Generator) (name : String) (msg : ProtoMessage) (g1 : Generator)
        : Type 0 where
      kept : IsKept types g1
      extends : Extends g g1
      closed : all (is_closed_field g1.proto_file.messages) msg.fields ≡ true
      numbered : is_numbered 1 msg.fields ≡ true
      same_name : msg.name ≡ name

    push_field-Fills :
        (g : Generator) (name : String) (msg : ProtoMessage) (g1 : Generator) (f : Field)
        (g2 : Generator)
        → Fills g name msg g1
        → Makes g1 (length msg.fields + 1) f g2
        → Fills g name (add_field f msg) g2
    unfolding add_field all
    push_field-Fills g name msg g1 f g2 a m = record {
      kept = m.kept;
      extends = Extends-trans a.extends m.extends;
      closed = ground (
        arith,
        all-append (is_closed_field g2.proto_file.messages) msg.fields (f ∷ []),
        is_closed_fields_later msg.fields m.extends a.closed,
        m.closed,
      );
      numbered = is_numbered-push 1 msg.fields f a.numbered (omega (arith, m.numbered));
      same_name = a.same_name;
    }

    length-add_field :
        (f : Field) (msg : ProtoMessage) {i : ℕ}
        → length msg.fields ≡ i
        → length (add_field f msg).fields ≡ suc i
    unfolding add_field
    length-add_field f msg e = omega (arith, e, length-append msg.fields (f ∷ []))

    generate_struct_fields-Fills :
        (fuel i : ℕ) (ts : List TypeRef) (name : String) (msg : ProtoMessage) (g g1 : Generator)
        (msg2 : ProtoMessage) (g2 : Generator)
        → Fills g name msg g1
        → length msg.fields ≡ i
        → generate_struct_fields types generate_for fuel i ts msg g1 ≡ done (msg2, g2)
        → Fills g name msg2 g2
    unfolding generate_struct_fields
    generate_struct_fields-Fills fuel i [] name msg g g1 msg2 g2 a e h =
        let same : ◌≡◌ {A = ProtoMessage × Generator} (msg, g1) (msg2, g2) = ground (arith, h) in
        subst (λ x. Fills g name x.0 x.1) same a
    generate_struct_fields-Fills fuel i (t ∷ ts) name msg g g1 msg2 g2 a e h =
        let (field_name, named, h1) = bind_inv (get_field_name (types.kind t)) _ _ h in
        let ((f, g3), made, h2) =
          bind_inv (generate_message_field types generate_for fuel t field_name (i + 1) g1) _ _
            h1 in
        let m = generate_message_field-Makes fuel t field_name (i + 1) g1 f g3 a.kept made in
        generate_struct_fields-Fills fuel (suc i) ts name (add_field f msg) g g3 msg2 g2
          (push_field-Fills g name msg g1 f g3 a (rw e m)) (length-add_field f msg e) h2

    single_field-Fills :
        (fuel : ℕ) (t : TypeRef) (name : String) (g g1 : Generator) (msg2 : ProtoMessage)
        (g2 : Generator)
        → Fills g name (new_message name) g1
        → ◌>>=◌ {B = ProtoMessage × Generator}
            (generate_message_field types generate_for fuel t "value" 1 g1)
            (λ made. done (add_field made.0 (new_message name), made.1))
          ≡ done (msg2, g2)
        → Fills g name msg2 g2
    single_field-Fills fuel t name g g1 msg2 g2 a h =
        let ((f, g3), made, h1) =
          bind_inv (generate_message_field types generate_for fuel t "value" 1 g1) _ _ h in
        let m = generate_message_field-Makes fuel t "value" 1 g1 f g3 a.kept made in
        let same : ◌≡◌ {A = ProtoMessage × Generator} (add_field f (new_message name), g3)
            (msg2, g2) =
          ground (arith, h1) in
        subst (λ x. Fills g name x.0 x.1) same
          (push_field-Fills g name (new_message name) g1 f g3 a m)

    generate_message_fields-Fills :
        (fuel : ℕ) (t : TypeRef) (k : TypeKind) (name : String) (g g1 : Generator)
        (msg2 : ProtoMessage) (g2 : Generator)
        → Fills g name (new_message name) g1
        → generate_message_fields types generate_for fuel t k (new_message name) g1
          ≡ done (msg2, g2)
        → Fills g name msg2 g2
    unfolding generate_message_fields
    generate_message_fields-Fills fuel t (struct_type n ts) name g g1 msg2 g2 a h =
        generate_struct_fields-Fills fuel 0 ts name (new_message name) g g1 msg2 g2 a refl h
    generate_message_fields-Fills fuel t k name g g1 msg2 g2 a h =
        single_field-Fills fuel t name g g1 msg2 g2 a h

    visit_pointee-Extends :
        (k : TypeKind) (g g1 : Generator)
        → IsKept types g
        → visit_pointee generate_for k g ≡ done g1
        → IsKept types g1 × Extends g g1
    unfolding visit_pointee
    visit_pointee-Extends (pointer_type u) g g1 kept h =
        let (k1, later, found) = gen u g g1 kept h in (k1, later)
    visit_pointee-Extends k g g1 kept h =
        let same : g ≡ g1 = ground (arith, h) in
        subst (λ x. IsKept types x × Extends g x) same (kept, Extends-refl g)

    generate_new_message-Generates :
        (fuel : ℕ) (t : TypeRef) (g g1 : Generator)
        → IsKept types g
        → generate_new_message types generate_for fuel t g ≡ done g1
        → IsKept types g1 × Extends g g1 × (is_known g1 t ≡ true)
    unfolding generate_new_message all is_numbered
    generate_new_message-Generates fuel t g g1 kept h =
        let (g2, visited, h1) = bind_inv (visit_pointee generate_for (types.kind t) g) _ _ h in
        let (kept2, later2) = visit_pointee-Extends (types.kind t) g g2 kept visited in
        let (name, named, h2) = bind_inv (get_message_name_for_type types fuel t) _ _ h1 in
        let ((msg, g3), filled, h3) =
          bind_inv
            (generate_message_fields types generate_for fuel t (types.kind t) (new_message name) g2)
            _ _ h2 in
        let a =
          generate_message_fields-Fills fuel t (types.kind t) name g2 g2 msg g3
            (record {
              kept = kept2;
              extends = Extends-refl g2;
              closed = refl;
              numbered = refl;
              same_name = refl;
            })
            filled in
        let same : add_type_message t msg g3 ≡ g1 = ground (arith, h3) in
        subst (λ x. IsKept types x × Extends g x × (is_known x t ≡ true)) same
          (
            add_type_message-IsKept types t msg g3 a.kept (fuel, rw a.same_name named) a.closed
                a.numbered,
            Extends-trans later2 (Extends-trans a.extends (add_type_message-Extends t msg g3)),
            add_type_message-known t msg g3,
          )

  -- A call that returns keeps what is known of the messages, and its type has a message then.
  pub generate_message_for_type-Generates :
      (fuel : ℕ) → Generates (generate_message_for_type types fuel)
  unfolding generate_message_for_type
  generate_message_for_type-Generates zero t g g1 kept h = ground (arith, h)
  generate_message_for_type-Generates (suc fuel) t g g1 kept h =
      elim (Option-cases (find t g.type_messages)) [
        | inl e ↦
            generate_new_message-Generates (generate_message_for_type types fuel)
              (generate_message_for_type-Generates fuel) fuel t g g1 kept (ground (arith, h, e))
        | inr (m, e) ↦
            let same : g ≡ g1 = ground (arith, h, e) in
            subst (λ x. IsKept types x × Extends g x × (is_known x t ≡ true)) same
              (kept, Extends-refl g, ground (arith, e))
      ]
