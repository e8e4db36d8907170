-- ===== src/ProtoFile/Ends.antt =====
-- lib/CodeGen/ProtoFileGenerator.cpp: the generation for types that have messages.
use program_partitioning_for.Base.{
  ℕ, zero, suc, ◌≡◌, ◌<◌, ◌≤◌, refl, Bool, true, List, [], ◌∷◌, arith, find, Option-cases, inl, inr,
  contains,
}
use program_partitioning_for.Texts.{String}
use program_partitioning_for.Llvm.{FunctionRef}
use program_partitioning_for.ProtoFile.{new_message}
use program_partitioning_for.ProtoFile.Generator.{
  TypeRef, TypeKind, pointer_type, ProgramTypes, Outcome, done, ◌>>=◌, Generator, visit_pointee,
  add_type_message, generate_new_message, generate_message_for_type, generate_messages_for_types,
  generate_messages_for_function, generate_messages, generate_proto,
}
use program_partitioning_for.ProtoFile.Known.{is_known, add_type_message-known}
use program_partitioning_for.ProtoFile.Closed.{is_interface_type}
use program_partitioning_for.ProtoFile.Layers.{
  is_message_kind, IsLayered, GenEnds, get_message_name_for_type-done, generate_message_fields-done,
}

module _ (types : ProgramTypes) (rank : TypeRef → ℕ) (message field : TypeRef → Bool)
    (l : IsLayered types rank message field) where
  module _ (bound : ℕ) (gen : TypeRef → Generator → Outcome Generator)
      (ends : GenEnds types rank message field l bound gen) where
    visit_pointee-done :
        (t : TypeRef) (k : TypeKind) (g : Generator)
        → is_message_kind types rank message field t k ≡ true
        → visit_pointee gen k g ≡ done g
    unfolding visit_pointee
    visit_pointee-done t (pointer_type u) g h = ground (arith, h)
    visit_pointee-done t k g h = refl

    generate_new_message-done :
        (fuel : ℕ) (t : TypeRef) (g : Generator)
        → message t ≡ true
        → rank t < fuel
        → rank t ≤ bound
        → (g1 : Generator) × (generate_new_message types gen fuel t g ≡ done g1)
          × (is_known g1 t ≡ true)
    unfolding generate_new_message
    generate_new_message-done fuel t g m r b =
        let (name, named) = get_message_name_for_type-done types rank message field l fuel t m r in
        let ((msg, g1), filled) =
          generate_message_fields-done types rank message field l bound gen ends fuel t
            (types.kind t) (new_message name) g refl m r b in
        (
          add_type_message t msg g1,
          rw (visit_pointee-done t (types.kind t) g (l.messages t m), ◌>>=◌)
              (rw (named, ◌>>=◌) (rw (filled, ◌>>=◌) refl)),
          add_type_message-known t msg g1,
        )

  generate_message_for_type-GenEnds :
      (fuel : ℕ)
      → GenEnds types rank message field l fuel (generate_message_for_type types (suc fuel))
  unfolding generate_message_for_type
  generate_message_for_type-GenEnds zero t g m r = elim r [ ]
  generate_message_for_type-GenEnds (suc fuel) t g m r =
      elim (Option-cases (find t g.type_messages)) [
        | inl e ↦
            rw (e, generate_message_for_type)
              (generate_new_message-done fuel (generate_message_for_type types (suc fuel))
                (generate_message_for_type-GenEnds fuel) (suc fuel) t g m r (omega (arith, r)))
        | inr (msg, e) ↦ (g, rw (e, generate_message_for_type) refl, ground (arith, e))
      ]

  generate_messages_for_types-done :
      (fuel : ℕ) (ts : List TypeRef) (g : Generator)
      → ((t : TypeRef) → contains ts t ≡ true → (message t ≡ true) × (rank t < fuel))
      → (g1 : Generator) × (generate_messages_for_types types (suc fuel) ts g ≡ done g1)
  unfolding generate_messages_for_types contains
  generate_messages_for_types-done fuel [] g ok = (g, refl)
  generate_messages_for_types-done fuel (t ∷ ts) g ok =
      let (m, r) = ok t (ground arith) in
      let (g1, first, known) = generate_message_for_type-GenEnds fuel t g m r in
      let (g2, rest) =
        generate_messages_for_types-done fuel ts g1 (λ u c. ok u (ground (arith, c))) in
      (g2, rw (first, ◌>>=◌) rest)

  generate_messages-done :
      (fuel : ℕ) (fs : List FunctionRef) (g : Generator)
      → ((f : FunctionRef) (t : TypeRef)
          → contains fs f ≡ true
          → is_interface_type types f t ≡ true
          → (message t ≡ true) × (rank t < fuel))
      → (g1 : Generator) × (generate_messages types (suc fuel) fs g ≡ done g1)
  unfolding generate_messages generate_messages_for_function contains
  generate_messages-done fuel [] g ok = (g, refl)
  generate_messages-done fuel (f ∷ fs) g ok =
      let (m, r) = ok f (types.return_type f) (ground arith) (ground arith) in
      let (g1, first, known) = generate_message_for_type-GenEnds fuel (types.return_type f) g m r in
      let (g2, params) =
        generate_messages_for_types-done fuel (types.param_types f) g1
          (λ t c. ok f t (ground arith) (ground (arith, c))) in
      let (g3, rest) =
        generate_messages-done fuel fs g2 (λ j t c i. ok j t (ground (arith, c)) i) in
      (g3, rw (first, ◌>>=◌) (rw (params, ◌>>=◌) rest))

  -- Let every function of the partition return and take only integers, floats, doubles, named structs and
  -- arrays of such types, where the elements of a struct may also be pointers to and arrays of what its
  -- elements can be: no void, vectors, literal structs or types of another kind, and no pointers outside
  -- structs. Let the parts have a lower rank than the whole, and the types a rank below the fuel. Then the
  -- generation returns.
  pub generate_proto_ends :
      (fuel : ℕ) (functions : List FunctionRef) (proto_name : String)
      → ((f : FunctionRef) (t : TypeRef)
          → contains functions f ≡ true
          → is_interface_type types f t ≡ true
          → (message t ≡ true) × (rank t < fuel))
      → (g : Generator) × (generate_proto types (suc fuel) functions proto_name ≡ done g)
  unfolding generate_proto
  generate_proto_ends fuel functions proto_name ok = generate_messages-done fuel functions _ ok
