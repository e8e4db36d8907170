-- ===== src/ProtoFile/Diverges.antt =====
-- lib/CodeGen/ProtoFileGenerator.cpp: a struct that leads to itself, whose message is looked up again
-- before it is there.
use program_partitioning_for.Base.{
  ℕ, zero, suc, ◌+◌, ◌≡◌, ◌≢◌, refl, Bool, true, false, List, [], ◌∷◌, none, some, arith, find,
  find-emplace, Option-cases, inl, inr, contains, any, Bool-cases, ◌==◌, ==_iff, subst, sym,
}
use program_partitioning_for.Texts.{String}
use program_partitioning_for.Llvm.{FunctionRef}
use program_partitioning_for.ProtoFile.{Field, ProtoMessage, new_message, add_field, new_field}
use program_partitioning_for.ProtoFile.Generator.{
  TypeRef, TypeKind, integer_type, float_type, double_type, other_type, pointer_type, array_type,
  vector_type, struct_type, ProgramTypes, Outcome, done, ◌>>=◌, get_field_name, Generator,
  get_message_name_for_type, field_of_message, field_step, generate_message_field,
  generate_struct_fields, generate_message_fields, visit_pointee, add_type_message,
  generate_new_message, generate_message_for_type, generate_messages_for_types,
  generate_messages_for_function, generate_messages, generate_proto,
}
use program_partitioning_for.ProtoFile.Known.{bind_inv}
use program_partitioning_for.ProtoFile.Closed.{is_interface_type, generate_proto-IsKept}

-- A type that leads to a struct of `k`, through pointers and arrays.
abbrev pub leads_on : (TypeRef → Bool) → (TypeRef → Bool) → TypeRef → TypeKind → Bool
leads_on k leads t (pointer_type u) = leads u
leads_on k leads t (array_type u) = leads u
leads_on k leads t (struct_type n ts) = k t
leads_on k leads t _ = false

-- A struct with an element that leads on.
abbrev pub has_leading_element : (TypeRef → Bool) → TypeKind → Bool
has_leading_element leads (struct_type n ts) = any leads ts
has_leading_element leads _ = false

module _ (types : ProgramTypes) (k leads : TypeRef → Bool)
    (on : (t : TypeRef) → leads t ≡ true → leads_on k leads t (types.kind t) ≡ true)
    (turns : (t : TypeRef) → k t ≡ true → has_leading_element leads (types.kind t) ≡ true) where
  -- No struct of `k` has a message.
  abbrev IsOpen : Generator → Type 0
  IsOpen g = (t : TypeRef) → k t ≡ true → find t g.type_messages ≡ none

  abbrev Stays : (TypeRef → Generator → Outcome Generator) → Type 0
  Stays gen = (t : TypeRef) (g g1 : Generator) → IsOpen g → gen t g ≡ done g1 → IsOpen g1

  module _ (gen : TypeRef → Generator → Outcome Generator) (stays : Stays gen) where
    visit_or_known-IsOpen :
        (t : TypeRef) (g g1 : Generator)
        → IsOpen g
        → (elim (find t g.type_messages) [ none ↦ gen t g | some m ↦ done g ]) ≡ done g1
        → IsOpen g1
    visit_or_known-IsOpen t g g1 o h = elim (Option-cases (find t g.type_messages)) [
      | inl e ↦ stays t g g1 o (ground (arith, h, e))
      | inr (m, e) ↦ let same : g ≡ g1 = ground (arith, h, e) in subst IsOpen same o
    ]

    -- A field that was made leaves them open, and its type does not lead to one of them.
    abbrev Passes : TypeRef → Generator → Type 0
    Passes t g1 = IsOpen g1 × (leads t ≡ false)

    not_leading : (t : TypeRef) → leads_on k leads t (types.kind t) ≡ false → leads t ≡ false
    not_leading t h = ground (arith, h, on t)

    field_of_message-Passes :
        (t : TypeRef) (field : Field) (g : Generator) (f : Field) (g1 : Generator)
        → IsOpen g
        → field_of_message gen t field g ≡ done (f, g1)
        → IsOpen g1 × (k t ≡ false)
    unfolding field_of_message
    field_of_message-Passes t field g f g1 o h =
        let (g2, first, then_found) = bind_inv _ _ _ h in
        let o2 = visit_or_known-IsOpen t g g2 o first in
        elim (Option-cases (find t g2.type_messages)) [
          | inl e ↦ ground (arith, then_found, e)
          | inr (m, e) ↦
              let same : g2 ≡ g1 = ground (arith, then_found, e) in
              (subst IsOpen same o2, ground (arith, e, o2 t))
        ]

    field_step-Passes :
        (again : TypeRef → Outcome (Field × Generator)) (t : TypeRef) (kind : TypeKind)
        (field : Field) (g : Generator) (f : Field) (g1 : Generator)
        → IsOpen g
        → ((u : TypeRef) (f2 : Field) (g2 : Generator) → again u ≡ done (f2, g2) → Passes u g2)
        → field_step again gen t kind field g ≡ done (f, g1)
        → IsOpen g1 × (leads_on k leads t kind ≡ false)
    unfolding field_step
    field_step-Passes again t (pointer_type u) field g f g1 o ok h = ok u f g1 h
    field_step-Passes again t (array_type u) field g f g1 o ok h =
        let ((f2, g2), first, rest) = bind_inv _ _ _ h in
        let (o2, n) = ok u f2 g2 first in
        let same : g2 ≡ g1 = ground (arith, rest) in (subst IsOpen same o2, n)
    field_step-Passes again t (vector_type u) field g f g1 o ok h =
        let (o1, n) = field_of_message-Passes t field g f g1 o h in (o1, refl)
    field_step-Passes again t (struct_type n us) field g f g1 o ok h =
        field_of_message-Passes t field g f g1 o h
    field_step-Passes again t (integer_type w) field g f g1 o ok h =
        let same : g ≡ g1 = ground (arith, h) in (subst IsOpen same o, refl)
    field_step-Passes again t float_type field g f g1 o ok h =
        let same : g ≡ g1 = ground (arith, h) in (subst IsOpen same o, refl)
    field_step-Passes again t double_type field g f g1 o ok h =
        let same : g ≡ g1 = ground (arith, h) in (subst IsOpen same o, refl)
    field_step-Passes again t other_type field g f g1 o ok h = ground (arith, h)

    generate_message_field-Passes :
        (fuel : ℕ) (t : TypeRef) (name : String) (number : ℕ) (g : Generator) (f : Field)
        (g1 : Generator)
        → IsOpen g
        → generate_message_field types gen fuel t name number g ≡ done (f, g1)
        → Passes t g1
    unfolding generate_message_field
    generate_message_field-Passes zero t name number g f g1 o h = ground (arith, h)
    generate_message_field-Passes (suc fuel) t name number g f g1 o h =
        let (o1, n) =
          field_step-Passes (λ u. generate_message_field types gen fuel u name number g) t
            (types.kind t) (record new_field { number = number; name = name }) g f g1 o
            (λ u f2 g2. generate_message_field-Passes fuel u name number g f2 g2 o) h in
        (o1, not_leading t n)

    generate_struct_fields-Passes :
        (fuel i : ℕ) (ts : List TypeRef) (msg : ProtoMessage) (g : Generator) (msg2 : ProtoMessage)
        (g2 : Generator)
        → IsOpen g
        → generate_struct_fields types gen fuel i ts msg g ≡ done (msg2, g2)
        → IsOpen g2 × (any leads ts ≡ false)
    unfolding generate_struct_fields any
    generate_struct_fields-Passes fuel i [] msg g msg2 g2 o h =
        let same : g ≡ g2 = ground (arith, h) in (subst IsOpen same o, refl)
    generate_struct_fields-Passes fuel i (t ∷ ts) msg g msg2 g2 o h =
        let (name, named, h1) = bind_inv (get_field_name (types.kind t)) _ _ h in
        let ((f, g1), made, h2) =
          bind_inv (generate_message_field types gen fuel t name (i + 1) g) _ _ h1 in
        let (o1, n) = generate_message_field-Passes fuel t name (i + 1) g f g1 o made in
        let (o2, ns) =
          generate_struct_fields-Passes fuel (suc i) ts (add_field f msg) g1 msg2 g2 o1 h2 in
        (o2, ground (arith, n, ns))

    single_field-IsOpen :
        (fuel : ℕ) (t : TypeRef) (msg : ProtoMessage) (g : Generator) (msg2 : ProtoMessage)
        (g2 : Generator)
        → IsOpen g
        → ◌>>=◌ {B = ProtoMessage × Generator}
            (generate_message_field types gen fuel t "value" 1 g)
            (λ made. done (add_field made.0 msg, made.1))
          ≡ done (msg2, g2)
        → IsOpen g2
    single_field-IsOpen fuel t msg g msg2 g2 o h =
        let ((f, g1), made, h1) =
          bind_inv (generate_message_field types gen fuel t "value" 1 g) _ _ h in
        let (o1, n) = generate_message_field-Passes fuel t "value" 1 g f g1 o made in
        let same : g1 ≡ g2 = ground (arith, h1) in subst IsOpen same o1

    generate_message_fields-Passes :
        (fuel : ℕ) (t : TypeRef) (kind : TypeKind) (msg : ProtoMessage) (g : Generator)
        (msg2 : ProtoMessage) (g2 : Generator)
        → IsOpen g
        → generate_message_fields types gen fuel t kind msg g ≡ done (msg2, g2)
        → IsOpen g2 × (has_leading_element leads kind ≡ false)
    unfolding generate_message_fields
    generate_message_fields-Passes fuel t (struct_type n ts) msg g msg2 g2 o h =
        generate_struct_fields-Passes fuel 0 ts msg g msg2 g2 o h
    generate_message_fields-Passes fuel t kind msg g msg2 g2 o h =
        (single_field-IsOpen fuel t msg g msg2 g2 o h, refl)

    visit_pointee-IsOpen :
        (kind : TypeKind) (g g1 : Generator)
        → IsOpen g
        → visit_pointee gen kind g ≡ done g1
        → IsOpen g1
    unfolding visit_pointee
    visit_pointee-IsOpen (pointer_type u) g g1 o h = stays u g g1 o h
    visit_pointee-IsOpen kind g g1 o h =
        let same : g ≡ g1 = ground (arith, h) in subst IsOpen same o

    add_type_message-IsOpen :
        (t : TypeRef) (msg : ProtoMessage) (g : Generator)
        → IsOpen g
        → has_leading_element leads (types.kind t) ≡ false
        → IsOpen (add_type_message t msg g)
    unfolding add_type_message
    add_type_message-IsOpen t msg g o n u h = elim (Bool-cases (t == u)) [
      | inl e ↦
          let same : t ≡ u = (==_iff t u).0 e in
          ground (arith, n, turns t (subst (λ x. k x ≡ true) (sym same) h))
      | inr e ↦ ground (arith, find-emplace t msg g.type_messages u, e, o u h)
    ]

    generate_new_message-IsOpen :
        (fuel : ℕ) (t : TypeRef) (g g1 : Generator)
        → IsOpen g
        → generate_new_message types gen fuel t g ≡ done g1
        → IsOpen g1
    unfolding generate_new_message
    generate_new_message-IsOpen fuel t g g1 o h =
        let (g2, visited, h1) = bind_inv (visit_pointee gen (types.kind t) g) _ _ h in
        let o2 = visit_pointee-IsOpen (types.kind t) g g2 o visited in
        let (name, named, h2) = bind_inv (get_message_name_for_type types fuel t) _ _ h1 in
        let ((msg, g3), filled, h3) =
          bind_inv (generate_message_fields types gen fuel t (types.kind t) (new_message name) g2) _
            _ h2 in
        let (o3, n) =
          generate_message_fields-Passes fuel t (types.kind t) (new_message name) g2 msg g3 o2
            filled in
        let same : add_type_message t msg g3 ≡ g1 = ground (arith, h3) in
        subst IsOpen same (add_type_message-IsOpen t msg g3 o3 n)

  generate_message_for_type-IsOpen : (fuel : ℕ) → Stays (generate_message_for_type types fuel)
  unfolding generate_message_for_type
  generate_message_for_type-IsOpen zero t g g1 o h = ground (arith, h)
  generate_message_for_type-IsOpen (suc fuel) t g g1 o h =
      elim (Option-cases (find t g.type_messages)) [
        | inl e ↦
            generate_new_message-IsOpen (generate_message_for_type types fuel)
              (generate_message_for_type-IsOpen fuel) fuel t g g1 o (ground (arith, h, e))
        | inr (m, e) ↦ let same : g ≡ g1 = ground (arith, h, e) in subst IsOpen same o
      ]

  generate_messages_for_types-IsOpen :
      (fuel : ℕ) (ts : List TypeRef) (g g1 : Generator)
      → IsOpen g
      → generate_messages_for_types types fuel ts g ≡ done g1
      → IsOpen g1
  unfolding generate_messages_for_types
  generate_messages_for_types-IsOpen fuel [] g g1 o h =
      let same : g ≡ g1 = ground (arith, h) in subst IsOpen same o
  generate_messages_for_types-IsOpen fuel (t ∷ ts) g g1 o h =
      let (g2, first, rest) = bind_inv (generate_message_for_type types fuel t g) _ _ h in
      generate_messages_for_types-IsOpen fuel ts g2 g1
        (generate_message_for_type-IsOpen fuel t g g2 o first) rest

  generate_messages-IsOpen :
      (fuel : ℕ) (fs : List FunctionRef) (g g1 : Generator)
      → IsOpen g
      → generate_messages types fuel fs g ≡ done g1
      → IsOpen g1
  unfolding generate_messages generate_messages_for_function
  generate_messages-IsOpen fuel [] g g1 o h =
      let same : g ≡ g1 = ground (arith, h) in subst IsOpen same o
  generate_messages-IsOpen fuel (f ∷ fs) g g1 o h =
      let (g2, first, rest) = bind_inv (generate_messages_for_function types fuel f g) _ _ h in
      let (g3, returned, params) =
        bind_inv (generate_message_for_type types fuel (types.return_type f) g) _ _ first in
      generate_messages-IsOpen fuel fs g2 g1
        (generate_messages_for_types-IsOpen fuel (types.param_types f) g3 g2
          (generate_message_for_type-IsOpen fuel (types.return_type f) g g3 o returned) params)
        rest

  -- Let `k` be a set of structs each of which has an element that leads to a struct of the set, through
  -- pointers and arrays, such as a list's node with a pointer to the next one. Where a function of the
  -- partition returns or takes a struct of the set, the generation never returns, whatever the fuel.
  pub generate_proto_diverges :
      (fuel : ℕ) (functions : List FunctionRef) (proto_name : String) (f : FunctionRef)
      (t : TypeRef) (g : Generator)
      → contains functions f ≡ true
      → is_interface_type types f t ≡ true
      → k t ≡ true
      → generate_proto types fuel functions proto_name ≢ done g
  unfolding generate_proto find
  generate_proto_diverges fuel functions proto_name f t g c i h done_g =
      let (kept, found) = generate_proto-IsKept types fuel functions proto_name g done_g in
      ground
        (arith, found f t c i, generate_messages-IsOpen fuel functions _ g (λ u e. refl) done_g t h)
