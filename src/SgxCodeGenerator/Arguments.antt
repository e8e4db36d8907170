-- ===== src/SgxCodeGenerator/Arguments.antt =====
-- What arrives where: the values that cross the border of the enclave on the parameter stack.
use program_partitioning_for.Base.{
  ◌≡◌, refl, ap, sym, subst, ◌∙◌, Bool, true, false, List, [], ◌∷◌, ◌++◌, map, some, if◌then◌else◌,
  arith, length, suc,
}
use program_partitioning_for.Texts.{String, IsUniqueText}
use program_partitioning_for.CodeGen.{CppType, CppVariable, Function, is_void_return}
use program_partitioning_for.SgxCodeGenerator.Stack.{
  reversed, wrapper_params, param_name, value_type, push_each, pop_each, received, given_back,
}
use program_partitioning_for.SgxCodeGenerator.Rendering.{
  texts, push_each-texts, pop_each-texts, received-texts, given_back-texts,
}
use program_partitioning_for.SgxCodeGenerator.Steps.{
  pushes, pops, assign, ParameterStack, run_step, run_steps, names, param_names, take_step,
  return_step, wrapper_pushes, wrapper_pops, returned_names, handler_pops, handler_pushes,
}
use program_partitioning_for.SgxCodeGenerator.Assignments.{
  assign_all, assign_back, assign_all-map, assign_back-map, assign_all-reversed, length-reversed,
  length-push, map-push,
}
use program_partitioning_for.SgxCodeGenerator.ParamNames.{
  map-reversed, reversed-push, length-map, map-names, map-param_names, param_names-IsUniqueText,
}

module _ {V : Type 0} (st : ParameterStack V) where
  open st use {T, push, pop, pop-push}

  -- The first value is on the top.
  stacked : List V → T → T
  stacked [] s = s
  stacked (v ∷ vs) s = push v (stacked vs s)

  stacked-last : (vs : List V) (v : V) (s : T) → stacked (vs ++ v ∷ []) s ≡ stacked vs (push v s)
  unfolding stacked
  stacked-last [] v s = refl
  stacked-last (w ∷ vs) v s = ap (push w) (stacked-last vs v s)

  -- Pushes in order leave the last value on the top.
  push_all :
      (type : CppVariable → CppType) (name : CppVariable → String) (b : Bool)
      (ps : List CppVariable) (e : String → V) (s : T)
      → run_steps st (map (λ p. pushes (type p) (name p) b) ps) (e, s)
        ≡ some (e, stacked (reversed (map (λ p. e (name p)) ps)) s)
  unfolding run_steps run_step stacked reversed
  push_all type name b [] e s = refl
  push_all type name b (p ∷ ps) e s =
      push_all type name b ps e (push (e (name p)) s)
      ∙ ap (λ t. some (e, t))
          (sym (stacked-last (reversed (map (λ p. e (name p)) ps)) (e (name p)) s))

  pop_all :
      (name : CppVariable → String) (a b : Bool) (ps : List CppVariable) (vs : List V)
      (e : String → V) (s : T)
      → length ps ≡ length vs
      → run_steps st (map (λ (p : CppVariable). pops p.type (name p) a b) ps) (e, stacked vs s)
        ≡ some (assign_all (map name ps) vs e, s)
  unfolding run_steps run_step stacked assign_all
  pop_all name a b [] [] e s h = refl
  pop_all name a b [] (v ∷ vs) e s h = ground (arith, h)
  pop_all name a b (p ∷ ps) [] e s h = ground (arith, h)
  pop_all name a b (p ∷ ps) (v ∷ vs) e s h =
      rw (pop-push v (stacked vs s), run_steps)
        (pop_all name a b ps vs (assign (name p) v e) s (omega arith))

  take_all :
      (ps : List CppVariable) (e h : String → V) (s : T)
      → IsUniqueText (names ps)
      → (after : String → V) × (run_steps st
            (map take_step (reversed ps))
            (h, stacked (reversed (map (λ (p : CppVariable). e p.name) ps)) s)
          ≡ some (after, s))
        × (map after (param_names ps) ≡ map e (names ps))
  take_all ps e h s u =
      let vs = map (λ (p : CppVariable). e p.name) ps in
      let same : length ps ≡ length vs = sym (length-map _ ps) in
      (
        assign_back (param_names ps) vs h,
        pop_all param_name true true (reversed ps) (reversed vs) h s
              (length-reversed ps ∙ same ∙ sym (length-reversed vs))
            ∙ ap (λ xs. some (assign_all xs (reversed vs) h, s)) (map-reversed param_name ps)
            ∙ ap (λ after. some (after, s))
                (assign_all-reversed (param_names ps) vs h (length-map _ ps ∙ same)),
        assign_back-map (param_names ps) vs h (param_names-IsUniqueText ps u)
              (length-map _ ps ∙ same)
            ∙ map-names e ps,
      )

  handler_pops-take :
      (is_new_var : Bool) (f : Function) (e h : String → V) (s : T)
      → IsUniqueText (names f.params)
      → (after : String → V) × (run_steps st
            (handler_pops is_new_var f)
            (h, stacked (reversed (map (λ (p : CppVariable). e p.name) (wrapper_params f))) s)
          ≡ some (after, s))
        × (map after (param_names f.params) ≡ map e (names f.params))
  unfolding handler_pops wrapper_params run_steps run_step stacked
  handler_pops-take is_new_var f e h s u = go (is_void_return f)
    where
      value : CppVariable → V
      value p = e p.name

      result : CppVariable
      result = record { type = record f.return_type { is_ptr = true }; name = "returnVal" }

      go :
          (b : Bool)
          → (after : String → V) × (run_steps st
                ((if b then [] else pops f.return_type "returnVal" true is_new_var ∷ [])
                  ++ map take_step (reversed f.params))
                (
                  h,
                  stacked
                      (reversed (map value (if b then f.params else f.params ++ result ∷ [])))
                      s,
                )
              ≡ some (after, s))
            × (map after (param_names f.params) ≡ map e (names f.params))
      go true = take_all f.params e h s u
      go false =
          let vs = map value f.params in
          let (after, ran, same) = take_all f.params e (assign "returnVal" (e "returnVal") h) s u in
          (
            after,
            subst
                (λ us.
                  run_steps st
                    (pops f.return_type "returnVal" true is_new_var
                      ∷ map take_step (reversed f.params))
                    (h, stacked us s)
                  ≡ some (after, s))
                (sym
                  (ap reversed (map-push value f.params result) ∙ reversed-push vs (e "returnVal")))
                (rw (pop-push (e "returnVal") (stacked (reversed vs) s), run_steps) ran),
            same,
          )

  -- A call across the border: the parameters of a function have different names. A wrapper pushes its
  -- parameters, and the handler on the other side pops them: it runs through, leaves the stack as the
  -- wrapper found it, and then the handler's variables for the parameters have the values of the
  -- wrapper's parameters, each its own. The two sides are the instructions that the generator writes.
  pub handler_pops-wrapper_pushes :
      (is_new_var : Bool) (f : Function) (e h : String → V) (s : T)
      → IsUniqueText (names f.params)
      → (crossing : T) × (after : String → V) × (run_steps st (wrapper_pushes f) (e, s)
          ≡ some (e, crossing))
        × (run_steps st (handler_pops is_new_var f) (h, crossing) ≡ some (after, s))
        × (map after (param_names f.params) ≡ map e (names f.params))
        × (push_each (wrapper_params f) ≡ texts (wrapper_pushes f))
        × (received is_new_var f ≡ texts (handler_pops is_new_var f))
  unfolding wrapper_pushes
  handler_pops-wrapper_pushes is_new_var f e h s u =
      let (after, ran, same) = handler_pops-take is_new_var f e h s u in
      (
        stacked (reversed (map (λ (p : CppVariable). e p.name) (wrapper_params f))) s,
        after,
        push_all (λ p. p.type) (λ p. p.name) false (wrapper_params f) e s,
        ran,
        same,
        sym (push_each-texts (wrapper_params f)),
        sym (received-texts is_new_var f),
      )

  handler_pushes-all :
      (returned : CppType) (f : Function) (h : String → V) (s : T)
      → run_steps st (handler_pushes returned f) (h, s)
        ≡ some (h, stacked (reversed (map h (returned_names f))) s)
  unfolding handler_pushes run_steps run_step reversed
  handler_pushes-all returned f h s = go (is_void_return f)
    where
      go :
          (b : Bool)
          → run_steps st
              ((if b then [] else pushes returned "returnVal" true ∷ [])
                ++ map return_step f.params)
              (h, s)
            ≡ some (
              h,
              stacked
                  (reversed (map h ((if b then [] else "returnVal" ∷ []) ++ param_names f.params)))
                  s,
            )
      go true =
          push_all (λ p. value_type p.type) param_name true f.params h s
          ∙ ap (λ us. some (h, stacked (reversed us) s)) (map-param_names h f.params)
      go false =
          push_all (λ p. value_type p.type) param_name true f.params h (push (h "returnVal") s)
          ∙ ap (λ us. some (h, stacked (reversed us) (push (h "returnVal") s)))
              (map-param_names h f.params)
          ∙ ap (λ t. some (h, t))
              (sym (stacked-last (reversed (map h (param_names f.params))) (h "returnVal") s))

  returned_names-length :
      (f : Function) (h : String → V)
      → length (wrapper_params f) ≡ length (reversed (map h (returned_names f)))
  unfolding wrapper_params
  returned_names-length f h =
      go (is_void_return f)
      ∙ sym (length-map h (returned_names f))
      ∙ sym (length-reversed (map h (returned_names f)))
    where
      go :
          (b : Bool)
          → length (
              if b
              then f.params
              else f.params
                ++ record { type = record f.return_type { is_ptr = true }; name = "returnVal" }
                  ∷ [])
            ≡ length ((if b then [] else "returnVal" ∷ []) ++ param_names f.params)
      go true = sym (length-map param_name f.params)
      go false = length-push f.params _ ∙ ap suc (sym (length-map param_name f.params))

  -- The way back: no two parameters of a wrapper have one name. The handler pushes what is returned, if
  -- anything, and then its variables for the parameters; the wrapper pops its parameters, in the order of
  -- the call and `returnVal` last. It runs through and leaves the stack as the handler found it, and the
  -- values that its parameters get are those that the handler pushed, in the reversed order: `returnVal`
  -- gets what is returned, and the first parameter gets the value of the last one. The two sides are the instructions that the
  -- generator writes.
  pub wrapper_pops-handler_pushes :
      (returned : CppType) (f : Function) (e h : String → V) (s : T)
      → IsUniqueText (names (wrapper_params f))
      → (crossing : T) × (after : String → V) × (run_steps st (handler_pushes returned f) (h, s)
          ≡ some (h, crossing))
        × (run_steps st (wrapper_pops f) (e, crossing) ≡ some (after, s))
        × (map after (names (wrapper_params f)) ≡ reversed (map h (returned_names f)))
        × (given_back returned f ≡ texts (handler_pushes returned f))
        × (pop_each (wrapper_params f) ≡ texts (wrapper_pops f))
  unfolding wrapper_pops
  wrapper_pops-handler_pushes returned f e h s u =
      let vs = reversed (map h (returned_names f)) in
      let enough : length (wrapper_params f) ≡ length vs = returned_names-length f h in
      (
        stacked vs s,
        assign_all (names (wrapper_params f)) vs e,
        handler_pushes-all returned f h s,
        pop_all (λ p. p.name) false false (wrapper_params f) vs e s enough,
        assign_all-map (names (wrapper_params f)) vs e u (length-map _ (wrapper_params f) ∙ enough),
        sym (given_back-texts returned f),
        sym (pop_each-texts (wrapper_params f)),
      )
