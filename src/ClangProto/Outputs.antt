-- ===== src/ClangProto/Outputs.antt =====
-- lib/ClangTools/ProtoFileGenerator.cpp: the outputs of the calls.
use program_partitioning_for.Base.{
  ℕ, ◌≡◌, ◌≢◌, Bool, true, ◌||◌, List, [], ◌∷◌, arith, find, Option-cases, Bool-cases, inl, inr,
  any,
}
use program_partitioning_for.Texts.{String}
use program_partitioning_for.ProtoFile.{ProtoFile, Rpc}
use program_partitioning_for.ProtoFile.Generator.{done}
use program_partitioning_for.ProtoFile.Known.{bind_inv}
use program_partitioning_for.ClangProto.{ClangTypes, FunctionDecl, ClangGenerator}
use program_partitioning_for.ClangProto.Service.{
  generate_messages, generate_rpc_messages, output_type, generate_rpc, generate_rpcs,
  generate_service, generate_clang_proto,
}
use program_partitioning_for.ClangProto.CompositeFields.{IsComposite}
use program_partitioning_for.ClangProto.CompositeMessages.{
  generate_messages-Stays, generate_rpc_messages-Stays,
}

module _ (types : ClangTypes) where
  -- The function returns a scalar: no message is made for the type that its output is looked up for.
  abbrev pub returns_scalar : FunctionDecl → Bool
  returns_scalar f =
      let t = output_type types f.return_type (types.kind f.return_type) in
      types.is_scalar t || types.is_array t

  generate_rpc-scalar :
      (f : FunctionDecl) (g : ClangGenerator) (r : Rpc)
      → IsComposite types g
      → returns_scalar f ≡ true
      → generate_rpc types f g ≢ done r
  unfolding generate_rpc
  generate_rpc-scalar f g r o c h =
      let t = output_type types f.return_type (types.kind f.return_type) in
      elim (Option-cases (find f.function g.function_input_messages)) [
        | inl e ↦ ground (arith, e, h)
        | inr (input, e) ↦ elim (Option-cases (find t g.type_messages)) [
          | inl e' ↦ ground (arith, e, e', h)
          | inr (m, e') ↦ ground (arith, o t m e', c)
        ]
      ]

  generate_rpcs-scalar :
      (fs : List FunctionDecl) (g : ClangGenerator) (rs : List Rpc)
      → IsComposite types g
      → any returns_scalar fs ≡ true
      → generate_rpcs types fs g ≢ done rs
  unfolding generate_rpcs any
  generate_rpcs-scalar [] g rs o c h = ground (arith, c)
  generate_rpcs-scalar (f ∷ fs) g rs o c h =
      let (r, first, h1) = bind_inv (generate_rpc types f g) _ _ h in
      let (rest, others, h2) = bind_inv (generate_rpcs types fs g) _ _ h1 in
      elim (Bool-cases (returns_scalar f)) [
        | inl e ↦ generate_rpc-scalar f g r o e first
        | inr e ↦ generate_rpcs-scalar fs g rest o (ground (arith, c, e)) others
      ]

  -- The generation never gives a file for functions of which one returns a scalar type (such as an integer
  -- or a pointer) or an array of arrays: no such type has a message, and the output of the call is read
  -- past the end of the map.
  pub generate_clang_proto-returns_scalar :
      (fuel : ℕ) (functions : List FunctionDecl) (proto_name : String) (file : ProtoFile)
      → any returns_scalar functions ≡ true
      → generate_clang_proto types fuel functions proto_name ≢ done file
  unfolding generate_clang_proto generate_service find
  generate_clang_proto-returns_scalar fuel functions proto_name file c h =
      let (g1, messages, h1) = bind_inv (generate_messages types fuel functions _) _ _ h in
      let (g2, rpc_messages, h2) =
        bind_inv (generate_rpc_messages types fuel functions g1) _ _ h1 in
      let (rpcs, made, h3) = bind_inv (generate_rpcs types functions g2) _ _ h2 in
      generate_rpcs-scalar functions g2 rpcs
        (generate_rpc_messages-Stays types fuel functions g1 g2
          (generate_messages-Stays types fuel functions _ g1 (λ t m e. ground (arith, e)) messages)
          rpc_messages)
        c made
