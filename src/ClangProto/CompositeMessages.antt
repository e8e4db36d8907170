-- ===== src/ClangProto/CompositeMessages.antt =====
-- lib/ClangTools/ProtoFileGenerator.cpp: the messages that are made with messages.
use program_partitioning_for.Base.{
  ℕ, zero, suc, ◌≡◌, subst, false, ◌||◌, List, [], ◌∷◌, arith, find, find-emplace, Option-cases,
  Bool-cases, inl, inr, ◌==◌, ==_iff,
}
use program_partitioning_for.ProtoFile.{ProtoMessage, new_message, add_field}
use program_partitioning_for.ProtoFile.Generator.{TypeRef, Outcome, done}
use program_partitioning_for.ProtoFile.Known.{bind_inv}
use program_partitioning_for.ClangProto.{
  VarDecl, ClangKind, pointer_type, ClangTypes, FunctionDecl, ClangGenerator, add_type_message,
  generate_message_field, generate_message_fields,
}
use program_partitioning_for.ClangProto.Service.{
  visit_pointee, generate_new_message, generate_message_for_type, generate_messages_for_params,
  generate_messages, generate_param_fields, add_input_message, generate_rpc_messages,
}
use program_partitioning_for.ClangProto.CompositeFields.{
  IsComposite, Stays, generate_message_field-Stays, generate_message_fields-Stays,
}

module _ (types : ClangTypes) where
  module _ (gen : TypeRef → ClangGenerator → Outcome ClangGenerator) (stays : Stays types gen) where
    visit_pointee-Stays :
        (k : ClangKind) (g g1 : ClangGenerator)
        → IsComposite types g
        → visit_pointee types gen k g ≡ done g1
        → IsComposite types g1
    unfolding visit_pointee
    visit_pointee-Stays (pointer_type u) g g1 o h = stays u g g1 o h
    visit_pointee-Stays k g g1 o h =
        let same : g ≡ g1 = ground (arith, h) in subst (IsComposite types) same o

    add_type_message-Stays :
        (t : TypeRef) (msg : ProtoMessage) (g : ClangGenerator)
        → (types.is_scalar t || types.is_array t) ≡ false
        → IsComposite types g
        → IsComposite types (add_type_message t msg g)
    unfolding add_type_message
    add_type_message-Stays t msg g c o u m h = elim (Bool-cases (t == u)) [
      | inl e ↦ subst (λ x. (types.is_scalar x || types.is_array x) ≡ false) ((==_iff t u).0 e) c
      | inr e ↦ o u m (ground (arith, find-emplace t msg g.type_messages u, e, h))
    ]

    generate_new_message-Stays :
        (fuel : ℕ) (t : TypeRef) (g g1 : ClangGenerator)
        → IsComposite types g
        → generate_new_message types gen fuel t g ≡ done g1
        → IsComposite types g1
    unfolding generate_new_message
    generate_new_message-Stays fuel t g g1 o h =
        let (g2, visited, h1) = bind_inv (visit_pointee types gen (types.kind t) g) _ _ h in
        let o2 = visit_pointee-Stays (types.kind t) g g2 o visited in
        elim (Bool-cases (types.is_scalar t || types.is_array t)) [
          | inl e ↦
              let same : g2 ≡ g1 = ground (arith, rw e at h1) in subst (IsComposite types) same o2
          | inr e ↦
              let ((msg, g3), made, h2) =
                bind_inv
                  (generate_message_fields types gen fuel t (new_message (types.canonical_name t))
                    g2)
                  _ _ (rw e at h1) in
              let same : add_type_message t msg g3 ≡ g1 = ground (arith, h2) in
              subst (IsComposite types) same (
                add_type_message-Stays t msg g3 e (
                  generate_message_fields-Stays types gen stays fuel t
                    (new_message (types.canonical_name t)) g2 msg g3 o2 made))
        ]

  generate_message_for_type-Stays : (fuel : ℕ) → Stays types (generate_message_for_type types fuel)
  unfolding generate_message_for_type
  generate_message_for_type-Stays zero t g g1 o h = ground (arith, h)
  generate_message_for_type-Stays (suc fuel) t g g1 o h =
      elim (Option-cases (find t g.type_messages)) [
        | inl e ↦
            generate_new_message-Stays (generate_message_for_type types fuel)
              (generate_message_for_type-Stays fuel) fuel t g g1 o (ground (arith, h, e))
        | inr (m, e) ↦ let same : g ≡ g1 = ground (arith, h, e) in subst (IsComposite types) same o
      ]

  generate_messages_for_params-Stays :
      (fuel : ℕ) (ds : List VarDecl) (g g1 : ClangGenerator)
      → IsComposite types g
      → generate_messages_for_params types fuel ds g ≡ done g1
      → IsComposite types g1
  unfolding generate_messages_for_params
  generate_messages_for_params-Stays fuel [] g g1 o h =
      let same : g ≡ g1 = ground (arith, h) in subst (IsComposite types) same o
  generate_messages_for_params-Stays fuel (d ∷ ds) g g1 o h =
      let (g2, first, rest) = bind_inv (generate_message_for_type types fuel d.var_type g) _ _ h in
      generate_messages_for_params-Stays fuel ds g2 g1
        (generate_message_for_type-Stays fuel d.var_type g g2 o first) rest

  pub generate_messages-Stays :
      (fuel : ℕ) (fs : List FunctionDecl) (g g1 : ClangGenerator)
      → IsComposite types g
      → generate_messages types fuel fs g ≡ done g1
      → IsComposite types g1
  unfolding generate_messages
  generate_messages-Stays fuel [] g g1 o h =
      let same : g ≡ g1 = ground (arith, h) in subst (IsComposite types) same o
  generate_messages-Stays fuel (f ∷ fs) g g1 o h =
      let (g2, first, h1) = bind_inv (generate_message_for_type types fuel f.return_type g) _ _ h in
      let (g3, params, rest) =
        bind_inv (generate_messages_for_params types fuel f.params g2) _ _ h1 in
      generate_messages-Stays fuel fs g3 g1
        (generate_messages_for_params-Stays fuel f.params g2 g3
          (generate_message_for_type-Stays fuel f.return_type g g2 o first) params)
        rest

  generate_param_fields-Stays :
      (fuel i : ℕ) (ds : List VarDecl) (msg : ProtoMessage) (g : ClangGenerator)
      (msg2 : ProtoMessage) (g2 : ClangGenerator)
      → IsComposite types g
      → generate_param_fields types fuel i ds msg g ≡ done (msg2, g2)
      → IsComposite types g2
  unfolding generate_param_fields
  generate_param_fields-Stays fuel i [] msg g msg2 g2 o h =
      let same : g ≡ g2 = ground (arith, h) in subst (IsComposite types) same o
  generate_param_fields-Stays fuel i (d ∷ ds) msg g msg2 g2 o h =
      let gen = generate_message_for_type types fuel in
      let ((f, g1), made, rest) =
        bind_inv (generate_message_field types gen fuel d.var_type d.name (suc i) g) _ _ h in
      generate_param_fields-Stays fuel (suc i) ds (add_field f msg) g1 msg2 g2
        (generate_message_field-Stays types gen (generate_message_for_type-Stays fuel) fuel
          d.var_type d.name (suc i) g f g1 o made)
        rest

  pub generate_rpc_messages-Stays :
      (fuel : ℕ) (fs : List FunctionDecl) (g g1 : ClangGenerator)
      → IsComposite types g
      → generate_rpc_messages types fuel fs g ≡ done g1
      → IsComposite types g1
  unfolding generate_rpc_messages add_input_message
  generate_rpc_messages-Stays fuel [] g g1 o h =
      let same : g ≡ g1 = ground (arith, h) in subst (IsComposite types) same o
  generate_rpc_messages-Stays fuel (f ∷ fs) g g1 o h =
      let ((msg, g2), made, rest) =
        bind_inv (generate_param_fields types fuel 0 f.params (new_message f.name) g) _ _ h in
      generate_rpc_messages-Stays fuel fs (add_input_message types f msg g2) g1
        (generate_param_fields-Stays fuel 0 f.params (new_message f.name) g msg g2 o made) rest
