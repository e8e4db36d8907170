-- ===== src/SgxCodeGenerator/Rendering.antt =====
-- The bodies of SGXCodeGenerator.cpp as instructions of the abstract machine.
use program_partitioning_for.Base.{
  ◌≡◌, refl, ap, sym, ◌∙◌, Bool, true, false, List, [], ◌∷◌, ◌++◌, map, some, if◌then◌else◌, arith,
  length, suc, subst, ◌≤◌,
}
use program_partitioning_for.Texts.{String, ◌<>◌}
use program_partitioning_for.CodeGen.{
  CppType, CppVariable, Function, is_void_return, call_as_string, new_function, plain,
}
use program_partitioning_for.CodeGen.Calls.{call_as_string-some}
use program_partitioning_for.SgxCodeGenerator.Stack.{
  value_type, reversed, pop_params, call_params, return_params, handler_body, received, given_back,
  wrapper_params, push_each, pop_each, get_push_alloc_str, get_pop_str,
}
use program_partitioning_for.SgxCodeGenerator.Steps.{
  Step, pushes, pops, says, step_text, push_step, pop_step, take_step, return_step, wrapper_pushes,
  wrapper_pops, handler_pops, handler_pushes, call_step,
}
use program_partitioning_for.SgxCodeGenerator.Selectors.{FunctionSelector, selector_name_of}
use program_partitioning_for.SgxCodeGenerator.Enclave.{with_context, generate_app_function_wrapper}
use program_partitioning_for.SgxCodeGenerator.Driver.{client, generate_ocall}

-- The texts of instructions.
unfoldable pub texts : List Step → List String
unfolding step_text
texts [] = []
texts (x ∷ xs) = step_text x ∷ texts xs

texts-append : (xs ys : List Step) → texts (xs ++ ys) ≡ texts xs ++ texts ys
unfolding texts
texts-append [] ys = refl
texts-append (x ∷ xs) ys = cc (texts-append xs ys)

pop_params-texts : (ps : List CppVariable) → texts (map take_step ps) ≡ pop_params ps
unfolding texts pop_params step_text
pop_params-texts [] = refl
pop_params-texts (p ∷ ps) = cc (pop_params-texts ps)

return_params-texts : (ps : List CppVariable) → texts (map return_step ps) ≡ return_params ps
unfolding texts return_params step_text
return_params-texts [] = refl
return_params-texts (p ∷ ps) = cc (return_params-texts ps)

pub push_each-texts : (ps : List CppVariable) → texts (map push_step ps) ≡ push_each ps
unfolding texts push_each step_text
push_each-texts [] = refl
push_each-texts (p ∷ ps) = cc (push_each-texts ps)

pub pop_each-texts : (ps : List CppVariable) → texts (map pop_step ps) ≡ pop_each ps
unfolding texts pop_each step_text
pop_each-texts [] = refl
pop_each-texts (p ∷ ps) = cc (pop_each-texts ps)

call_params-length : (ps : List CppVariable) → length (call_params ps) ≡ length ps
unfolding call_params
call_params-length [] = refl
call_params-length (p ∷ ps) = ap suc (call_params-length ps)

-- The body of a handler, of which the call is the text `call`.
abbrev pub handler_steps : Bool → CppType → Function → String → List Step
handler_steps is_new_var returned f call =
    handler_pops is_new_var f ++ call_step f call ∷ handler_pushes returned f

-- What a handler takes, and what it gives back.
pub received-texts :
    (is_new_var : Bool) (f : Function) → texts (handler_pops is_new_var f) ≡ received is_new_var f
unfolding handler_pops received texts step_text
received-texts is_new_var f =
    texts-append
      (if is_void_return f then [] else pops f.return_type "returnVal" true is_new_var ∷ [])
      (map take_step (reversed f.params))
    ∙ cc (go (is_void_return f), pop_params-texts (reversed f.params))
  where
    go :
        (b : Bool)
        → texts (if b then [] else pops f.return_type "returnVal" true is_new_var ∷ [])
          ≡ (if b then [] else get_pop_str f.return_type "returnVal" true is_new_var ∷ [])
    go true = refl
    go false = refl

pub given_back-texts :
    (returned : CppType) (f : Function) → texts (handler_pushes returned f) ≡ given_back returned f
unfolding handler_pushes given_back texts step_text
given_back-texts returned f =
    texts-append (if is_void_return f then [] else pushes returned "returnVal" true ∷ [])
      (map return_step f.params)
    ∙ cc (go (is_void_return f), return_params-texts f.params)
  where
    go :
        (b : Bool)
        → texts (if b then [] else pushes returned "returnVal" true ∷ [])
          ≡ (if b then [] else get_push_alloc_str returned "returnVal" true ∷ [])
    go true = refl
    go false = refl

handler_steps-texts :
    (is_new_var : Bool) (returned : CppType) (f : Function) (call : String)
    → received is_new_var f
        ++ (if is_void_return f then call else "returnVal" <> " = " <> call) ∷ given_back returned f
      ≡ texts (handler_steps is_new_var returned f call)
unfolding call_step texts step_text
handler_steps-texts is_new_var returned f call = cc (
  texts-append (handler_pops is_new_var f) (call_step f call ∷ handler_pushes returned f),
  received-texts is_new_var f,
  given_back-texts returned f,
)

pub handler_body-texts :
    (is_new_var : Bool) (returned : CppType) (f : Function)
    → (call : String) × (call_as_string f (call_params f.params) ≡ some call)
      × (handler_body is_new_var returned f
          ≡ some (texts (handler_steps is_new_var returned f call)))
unfolding handler_body
handler_body-texts is_new_var returned f =
    let (call, e) =
      call_as_string-some f (call_params f.params)
        (subst (λ n. n ≤ length f.params) (sym (call_params-length f.params)) (omega arith)) in
    (call, e, rw (e, handler_body) (ap some (handler_steps-texts is_new_var returned f call)))

wrapper-texts :
    (ps : List CppVariable) (start call end : String)
    → start ∷ push_each ps ++ call ∷ pop_each ps ++ end ∷ []
      ≡ texts (says start ∷ map push_step ps ++ says call ∷ map pop_step ps ++ says end ∷ [])
unfolding texts step_text
wrapper-texts ps start call end = cc (
  texts-append (map push_step ps ++ says call ∷ map pop_step ps) (says end ∷ []),
  texts-append (map push_step ps) (says call ∷ map pop_step ps),
  push_each-texts ps,
  pop_each-texts ps,
)

-- The two ends of a call out of the enclave, as instructions of the machine: the handler in the driver is
-- always generated, pops `returnVal` into a variable that it does not declare, and pushes it with its
-- type without the pointer; the wrapper in the enclave pushes, calls and pops.
pub generate_ocall_refines :
    (ocalls : List (String × FunctionSelector)) (f : Function)
    → (handler : Function) × (call : String) × (generate_ocall f ≡ some handler)
      × (call_as_string f (call_params f.params) ≡ some call)
      × (handler.body
          ≡ texts (
              handler_steps false (value_type f.return_type) f call
              ++ says "PrimitiveStatus::OkStatus()" ∷ []))
      × ((generate_app_function_wrapper ocalls f).body
          ≡ texts (
              says "TrustedParameterStack params" ∷ wrapper_pushes f
              ++ says (
                  "ASYLO_RETURN_IF_ERROR(TrustedPrimitives::UntrustedCall("
                  <> selector_name_of ocalls f.name
                  <> ", &params))")
                ∷ wrapper_pops f
              ++ says "return PrimitiveStatus::OkStatus()" ∷ []))
unfolding generate_ocall generate_app_function_wrapper wrapper_pushes wrapper_pops texts step_text
generate_ocall_refines ocalls f =
    let (call, e, made) = handler_body-texts false (value_type f.return_type) f in
    (
      record (with_context "UntrustedParameterStack"
          (record (new_function ("insecure_" <> f.name) (plain "Status")) {
            params = client ∷ [];
          })) {
            body =
                texts (handler_steps false (value_type f.return_type) f call)
                ++ "PrimitiveStatus::OkStatus()" ∷ [];
          },
      call,
      rw (made, generate_ocall) refl,
      e,
      sym (
          texts-append (handler_steps false (value_type f.return_type) f call)
            (says "PrimitiveStatus::OkStatus()" ∷ [])),
      wrapper-texts (wrapper_params f) "TrustedParameterStack params"
          ("ASYLO_RETURN_IF_ERROR(TrustedPrimitives::UntrustedCall("
            <> selector_name_of ocalls f.name
            <> ", &params))")
          "return PrimitiveStatus::OkStatus()",
    )
