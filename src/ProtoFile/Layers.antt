-- ===== src/ProtoFile/Layers.antt =====
-- lib/CodeGen/ProtoFileGenerator.cpp: types in layers, and the fields that are made of them.
use program_partitioning_for.Base.{
  all, ℕ, zero, suc, ◌+◌, ◌≡◌, ◌<◌, ◌≤◌, refl, Bool, true, false, ◌&&◌, ltb, List, [], ◌∷◌, none,
  some, arith, find, Option-cases, inl, inr, subst,
}
use program_partitioning_for.Texts.{String, ◌<>◌}
use program_partitioning_for.ProtoFile.{Field, ProtoMessage, add_field, new_field}
use program_partitioning_for.ProtoFile.Generator.{
  TypeRef, TypeKind, integer_type, float_type, double_type, other_type, pointer_type, array_type,
  vector_type, struct_type, ProgramTypes, Outcome, done, ◌>>=◌, struct_name, get_field_name,
  get_scalar_type, get_message_name_for_scalar, message_name_step, Generator,
  get_message_name_for_type, field_of_message, field_step, generate_message_field,
  generate_struct_fields, generate_message_fields,
}
use program_partitioning_for.ProtoFile.Known.{is_known}

module _ (types : ProgramTypes) (rank : TypeRef → ℕ) (message field : TypeRef → Bool) where
  -- What a type with a message consists of: scalars, arrays of such types, and named structs of types
  -- that a field can have; the parts have a lower rank.
  abbrev pub is_message_kind : TypeRef → TypeKind → Bool
  is_message_kind t (integer_type w) = true
  is_message_kind t float_type = true
  is_message_kind t double_type = true
  is_message_kind t (array_type u) = message u && ltb (rank u) (rank t)
  is_message_kind t (struct_type (some n) us) = all (λ u. field u && ltb (rank u) (rank t)) us
  is_message_kind t _ = false

  -- What a type that a field can have consists of: scalars, pointers to and arrays of such types, and
  -- structs with a message.
  abbrev pub is_field_kind : TypeRef → TypeKind → Bool
  is_field_kind t (integer_type w) = true
  is_field_kind t float_type = true
  is_field_kind t double_type = true
  is_field_kind t (pointer_type u) = field u && ltb (rank u) (rank t)
  is_field_kind t (array_type u) = field u && ltb (rank u) (rank t)
  is_field_kind t (struct_type (some n) us) = message t
  is_field_kind t _ = false

  -- `message` and `field` hold of types that consist of such types.
  pub record IsLayered : Type 0 where
    pub messages : (t : TypeRef) → message t ≡ true → is_message_kind t (types.kind t) ≡ true
    pub fields : (t : TypeRef) → field t ≡ true → is_field_kind t (types.kind t) ≡ true
    pub message_field : (t : TypeRef) → message t ≡ true → field t ≡ true

module _ (types : ProgramTypes) (rank : TypeRef → ℕ) (message field : TypeRef → Bool)
    (l : IsLayered types rank message field) where
  message_name_step-done :
      (again : TypeRef → Outcome String) (t : TypeRef) (k : TypeKind)
      → ((u : TypeRef) → message u ≡ true → rank u < rank t → (s : String) × (again u ≡ done s))
      → is_message_kind types rank message field t k ≡ true
      → (s : String) × (message_name_step again k ≡ done s)
  unfolding message_name_step get_message_name_for_scalar struct_name
  message_name_step-done again t (integer_type w) ok h = (_, refl)
  message_name_step-done again t float_type ok h = (_, refl)
  message_name_step-done again t double_type ok h = (_, refl)
  message_name_step-done again t (array_type u) ok h =
      let (s, e) = ok u (ground (arith, h)) (ground (arith, h)) in (s <> "Array", rw e refl)
  message_name_step-done again t (struct_type (some n) us) ok h = (n, refl)
  message_name_step-done again t (struct_type none us) ok h = ground (arith, h)
  message_name_step-done again t (pointer_type u) ok h = ground (arith, h)
  message_name_step-done again t (vector_type u) ok h = ground (arith, h)
  message_name_step-done again t other_type ok h = ground (arith, h)

  pub get_message_name_for_type-done :
      (fuel : ℕ) (t : TypeRef)
      → message t ≡ true
      → rank t < fuel
      → (s : String) × (get_message_name_for_type types fuel t ≡ done s)
  unfolding get_message_name_for_type
  get_message_name_for_type-done zero t m h = elim h [ ]
  get_message_name_for_type-done (suc fuel) t m h =
      message_name_step-done (get_message_name_for_type types fuel) t (types.kind t)
        (λ u mu r. get_message_name_for_type-done fuel u mu (omega (arith, r, h))) (l.messages t m)

  -- A call for a type with a message of a rank below `bound` returns, and then the type has its message.
  abbrev pub GenEnds : ℕ → (TypeRef → Generator → Outcome Generator) → Type 0
  GenEnds bound gen =
      (s : TypeRef) (g : Generator)
      → message s ≡ true
      → rank s < bound
      → (g1 : Generator) × (gen s g ≡ done g1) × (is_known g1 s ≡ true)

  abbrev is_struct : TypeKind → Bool
  is_struct (struct_type n us) = true
  is_struct _ = false

  module _ (bound : ℕ) (gen : TypeRef → Generator → Outcome Generator)
      (ends : GenEnds bound gen) where
    visit_or_known-done :
        (t : TypeRef) (g : Generator)
        → message t ≡ true
        → rank t < bound
        → (g1 : Generator) × ((elim (find t g.type_messages) [ none ↦ gen t g | some m ↦ done g ])
            ≡ done g1)
          × (is_known g1 t ≡ true)
    visit_or_known-done t g m r = elim (Option-cases (find t g.type_messages)) [
      | inl e ↦ rw e (ends t g m r)
      | inr (msg, e) ↦ (g, rw e refl, ground (arith, e))
    ]

    field_of_message-done :
        (t : TypeRef) (fld : Field) (g : Generator)
        → message t ≡ true
        → rank t < bound
        → (made : Field × Generator) × (field_of_message gen t fld g ≡ done made)
    unfolding field_of_message
    field_of_message-done t fld g m r =
        let (g1, first, known) = visit_or_known-done t g m r in
        elim (Option-cases (find t g1.type_messages)) [
          | inl e ↦ ground (arith, e, known)
          | inr (msg, e) ↦
              ((record fld { type_name = msg.name }, g1), rw (first, ◌>>=◌) (rw e refl))
        ]

    field_step-done :
        (again : TypeRef → Outcome (Field × Generator)) (t : TypeRef) (k : TypeKind) (fld : Field)
        (g : Generator)
        → ((u : TypeRef)
            → field u ≡ true
            → rank u < rank t
            → (made : Field × Generator) × (again u ≡ done made))
        → is_field_kind types rank message field t k ≡ true
        → (is_struct k ≡ true → rank t < bound)
        → (made : Field × Generator) × (field_step again gen t k fld g ≡ done made)
    unfolding field_step get_scalar_type
    field_step-done again t (integer_type w) fld g ok h r = (_, refl)
    field_step-done again t float_type fld g ok h r = (_, refl)
    field_step-done again t double_type fld g ok h r = (_, refl)
    field_step-done again t (pointer_type u) fld g ok h r =
        ok u (ground (arith, h)) (ground (arith, h))
    field_step-done again t (array_type u) fld g ok h r =
        let ((f, g1), e) = ok u (ground (arith, h)) (ground (arith, h)) in
        ((record f { attribute = "repeated" }, g1), rw (e, ◌>>=◌) refl)
    field_step-done again t (struct_type (some n) us) fld g ok h r =
        field_of_message-done t fld g h (r refl)
    field_step-done again t (struct_type none us) fld g ok h r = ground (arith, h)
    field_step-done again t (vector_type u) fld g ok h r = ground (arith, h)
    field_step-done again t other_type fld g ok h r = ground (arith, h)

    generate_message_field-done :
        (fuel : ℕ) (t : TypeRef) (name : String) (number : ℕ) (g : Generator)
        → field t ≡ true
        → rank t < fuel
        → rank t < bound
        → (made : Field × Generator) × (generate_message_field types gen fuel t name number g
            ≡ done made)
    unfolding generate_message_field
    generate_message_field-done zero t name number g f r b = elim r [ ]
    generate_message_field-done (suc fuel) t name number g f r b =
        field_step-done (λ u. generate_message_field types gen fuel u name number g) t
          (types.kind t) (record new_field { number = number; name = name }) g
          (λ u fu ru.
            generate_message_field-done fuel u name number g fu (omega (arith, ru, r))
              (omega (arith, ru, b)))
          (l.fields t f) (λ s. b)

    get_field_name-done :
        (t : TypeRef) (k : TypeKind)
        → is_field_kind types rank message field t k ≡ true
        → (s : String) × (get_field_name k ≡ done s)
    unfolding get_field_name struct_name
    get_field_name-done t (struct_type (some n) us) h = (n <> "Value", refl)
    get_field_name-done t (struct_type none us) h = ground (arith, h)
    get_field_name-done t (array_type u) h = (_, refl)
    get_field_name-done t (integer_type w) h = (_, refl)
    get_field_name-done t k h = ("value", refl)

    generate_struct_fields-done :
        (fuel i : ℕ) (t : TypeRef) (us : List TypeRef) (msg : ProtoMessage) (g : Generator)
        → rank t ≤ fuel
        → rank t ≤ bound
        → all (λ u. field u && ltb (rank u) (rank t)) us ≡ true
        → (made : ProtoMessage × Generator) × (generate_struct_fields types gen fuel i us msg g
            ≡ done made)
    unfolding generate_struct_fields all
    generate_struct_fields-done fuel i t [] msg g r b h = ((msg, g), refl)
    generate_struct_fields-done fuel i t (u ∷ us) msg g r b h =
        let fu : field u ≡ true = ground (arith, h) in
        let ru : rank u < rank t = ground (arith, h) in
        let (name, named) = get_field_name-done u (types.kind u) (l.fields u fu) in
        let ((f, g1), made) =
          generate_message_field-done fuel u name (i + 1) g fu (omega (arith, ru, r))
            (omega (arith, ru, b)) in
        let (result, rest) =
          generate_struct_fields-done fuel (suc i) t us (add_field f msg) g1 r b
            (ground (arith, h)) in
        (result, rw (named, ◌>>=◌) (rw (made, ◌>>=◌) rest))

    single_field-done :
        (fuel : ℕ) (t : TypeRef) (msg : ProtoMessage) (g : Generator)
        → field t ≡ true
        → is_struct (types.kind t) ≡ false
        → rank t < fuel
        → rank t ≤ bound
        → (made : ProtoMessage × Generator) × (◌>>=◌ {B = ProtoMessage × Generator}
              (generate_message_field types gen fuel t "value" 1 g)
              (λ made. done (add_field made.0 msg, made.1))
            ≡ done made)
    unfolding generate_message_field
    single_field-done zero t msg g f s r b = elim r [ ]
    single_field-done (suc fuel) t msg g f s r b =
        let ((fl, g1), made) =
          field_step-done (λ u. generate_message_field types gen fuel u "value" 1 g) t
            (types.kind t) (record new_field { number = 1; name = "value" }) g
            (λ u fu ru.
              generate_message_field-done fuel u "value" 1 g fu (omega (arith, ru, r))
                (omega (arith, ru, b)))
            (l.fields t f) (λ e. ground (arith, e, s)) in
        ((add_field fl msg, g1), rw (made, ◌>>=◌) refl)

    pub generate_message_fields-done :
        (fuel : ℕ) (t : TypeRef) (k : TypeKind) (msg : ProtoMessage) (g : Generator)
        → types.kind t ≡ k
        → message t ≡ true
        → rank t < fuel
        → rank t ≤ bound
        → (made : ProtoMessage × Generator) × (generate_message_fields types gen fuel t k msg g
            ≡ done made)
    unfolding generate_message_fields
    generate_message_fields-done fuel t (struct_type (some n) us) msg g e m r b =
        generate_struct_fields-done fuel 0 t us msg g (omega (arith, r)) b
          (subst (λ k. is_message_kind types rank message field t k ≡ true) e (l.messages t m))
    generate_message_fields-done fuel t (struct_type none us) msg g e m r b =
        ground (
          arith,
          subst (λ k. is_message_kind types rank message field t k ≡ true) e (l.messages t m),
        )
    generate_message_fields-done fuel t k msg g e m r b =
        single_field-done fuel t msg g (l.message_field t m) (rw e refl) r b
