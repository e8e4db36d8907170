-- ===== src/SgxCodeGenerator/Handlers.antt =====
-- The handlers of the enclave, and their registration.
use mathlib.Core.List.{append-nil, append_assoc, Permᴰ}
use mathlib.Core.List.Permᴰ.{nil, cons, swap, trans}
use program_partitioning_for.Base.{
  ℕ, suc, ◌≡◌, refl, ap, sym, ◌∙◌, true, List, [], ◌∷◌, ◌++◌, map, some, subst,
}
use program_partitioning_for.Texts.{String, ◌<>◌, IsUniqueText}
use program_partitioning_for.CodeGen.{new_function, Function}
use program_partitioning_for.CodeGen.Scopes.{
  SourceScope, source_scope, scope_functions, add_function,
}
use program_partitioning_for.SgxCodeGenerator.Selectors.{ecall_selectors, FunctionSelector}
use program_partitioning_for.SgxCodeGenerator.Enclave.{
  generate_enclave_ecall, generate_enclave_ecalls, register_each, asylo_enclave_init,
}
use program_partitioning_for.SgxCodeGenerator.Assignments.{map-push}
use program_partitioning_for.SgxCodeGenerator.Numbering.{
  function_names, entries, select_each-entries, AllFresh-empty,
}
use program_partitioning_for.SgxCodeGenerator.Rendering.{handler_body-texts}

-- The line that registers the handler of a function.
abbrev pub registration : Function → String
registration f =
    " ASYLO_RETURN_IF_ERROR(TrustedPrimitives::RegisterEntryHandler("
    <> ("k" <> f.name <> "EnclaveSelector")
    <> ", EntryHandler{"
    <> "secure_"
    <> f.name
    <> "}))"

-- The functions of a scope after one more.
add_function-names :
    (f : Function) (s : SourceScope)
    → function_names (scope_functions (add_function f s))
      ≡ function_names (scope_functions s) ++ f.name ∷ []
unfolding add_function scope_functions
add_function-names f (source_scope name subs classes functions globals) =
    map-push (λ (g : Function). g.name) functions f

generate_enclave_ecall-name :
    (f : Function)
    → (handler : Function) × (generate_enclave_ecall f ≡ some handler)
      × (handler.name ≡ "secure_" <> f.name)
unfolding generate_enclave_ecall new_function
generate_enclave_ecall-name f =
    let (call, e, made) = handler_body-texts true f.return_type f in
    rw (made, generate_enclave_ecall) (_, refl, refl)

-- The handlers go to the scope, in the order of their functions.
pub generate_enclave_ecalls-names :
    (fs : List Function) (s : SourceScope)
    → (made : SourceScope) × (generate_enclave_ecalls fs s ≡ some made)
      × (function_names (scope_functions made)
          ≡ function_names (scope_functions s) ++ map (λ (f : Function). "secure_" <> f.name) fs)
unfolding generate_enclave_ecalls
generate_enclave_ecalls-names [] s =
    (s, refl, sym (append-nil (function_names (scope_functions s))))
generate_enclave_ecalls-names (f ∷ fs) s =
    let (handler, made, named) = generate_enclave_ecall-name f in
    let (rest, ran, same) = generate_enclave_ecalls-names fs (add_function handler s) in
    let secure = map (λ (f : Function). "secure_" <> f.name) fs in
    (
      rest,
      rw (made, generate_enclave_ecalls) ran,
      same
          ∙ ap (λ xs. xs ++ secure) (add_function-names handler s)
          ∙ append_assoc (function_names (scope_functions s)) (handler.name ∷ []) secure
          ∙ ap (λ x. function_names (scope_functions s) ++ x ∷ secure) named,
    )

register_each-entries :
    (i : ℕ) (fs : List Function)
    → register_each (entries "EnclaveSelector" i fs) ≡ map registration fs
unfolding register_each entries
register_each-entries i [] = refl
register_each-entries i (f ∷ fs) = cc (register_each-entries (suc i) fs)

-- The line for an entry of the map.
abbrev entry_line : String × FunctionSelector → String
entry_line x =
    " ASYLO_RETURN_IF_ERROR(TrustedPrimitives::RegisterEntryHandler(" <> x.1.selector_name
    <> ", EntryHandler{" <> "secure_" <> x.1.function_name <> "}))"

register_each-Permᴰ :
    (ms order : List (String × FunctionSelector))
    → Permᴰ ms order
    → Permᴰ (register_each ms) (register_each order)
unfolding register_each
register_each-Permᴰ _ _ nil = nil
register_each-Permᴰ _ _ (cons e p) = cons (ap entry_line e) (register_each-Permᴰ _ _ p)
register_each-Permᴰ _ _ (swap e e') = swap (ap entry_line e) (ap entry_line e')
register_each-Permᴰ _ _ (trans p q) = trans (register_each-Permᴰ _ _ p) (register_each-Permᴰ _ _ q)

-- For functions of the enclave with different names, and whatever the order in which the map of the
-- selectors is run through: the initialization registers one handler for each function under the selector
-- that is named after the function, in some order, and then the handler that aborts; and the handlers that
-- it registers are made: the scope gets exactly them.
pub asylo_enclave_init_correct :
    (fs : List Function) (s : SourceScope) (order : List (String × FunctionSelector))
    → IsUniqueText (function_names fs)
    → Permᴰ (ecall_selectors fs) order
    → (made : SourceScope) × (generate_enclave_ecalls fs s ≡ some made)
      × (function_names (scope_functions made)
          ≡ function_names (scope_functions s) ++ map (λ (f : Function). "secure_" <> f.name) fs)
      × ((lines : List String) × Permᴰ (map registration fs) lines
          × ((asylo_enclave_init order).body
              ≡ lines
                ++ " ASYLO_RETURN_IF_ERROR(TrustedPrimitives::RegisterEntryHandler(kAbortEnclaveSelector, EntryHandler{Abort}))"
                  ∷ "return PrimitiveStatus::OkStatus()" ∷ []))
unfolding asylo_enclave_init ecall_selectors
asylo_enclave_init_correct fs s order u p =
    let (made, ran, same) = generate_enclave_ecalls-names fs s in
    let selected = select_each-entries "EnclaveSelector" 1 fs [] u (AllFresh-empty fs) in
    (
      made,
      ran,
      same,
      (
        register_each order,
        subst (λ lines. Permᴰ lines (register_each order))
            (ap register_each selected ∙ register_each-entries 1 fs)
            (register_each-Permᴰ (ecall_selectors fs) order p),
        refl,
      ),
    )
