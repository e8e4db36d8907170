-- ===== src/SgxCodeGenerator/Steps.antt =====
-- What the generated instructions for the parameter stack do: an abstract machine with the values of
-- the variables and Asylo's stack, which SGXCodeGenerator.cpp relies on being last in, first out.
use program_partitioning_for.Base.{
  ◌≡◌, Bool, true, false, List, [], ◌∷◌, ◌++◌, map, Option, none, some, if◌then◌else◌,
}
use program_partitioning_for.Texts.{String, ◌<>◌, str_eq}
use program_partitioning_for.CodeGen.{CppType, CppVariable, Function, is_void_return}
use program_partitioning_for.SgxCodeGenerator.Stack.{
  param_name, value_type, reversed, wrapper_params, get_push_alloc_str, get_pop_str,
}

-- An instruction: a push or a pop of a variable, by a pointer to the stack or not, or another one. A pop
-- may declare its variable.
pub data Step : Type 0 where
  pushes : CppType → String → Bool → Step
  pops : CppType → String → Bool → Bool → Step
  says : String → Step

-- The text of an instruction.
unfoldable pub step_text : Step → String
unfolding get_push_alloc_str get_pop_str
step_text (pushes type x is_stack_ptr) = get_push_alloc_str type x is_stack_ptr
step_text (pops type x is_stack_ptr is_new_var) = get_pop_str type x is_stack_ptr is_new_var
step_text (says text) = text

-- Asylo's parameter stack, for the values of variables: of a pointer, of what it points to, and of an
-- array, of its characters.
pub record ParameterStack (V : Type 0) : Type 1 where
  pub T : Type 0
  pub push : V → T → T
  pub pop : T → Option (V × T)
  pub pop-push : (v : V) (s : T) → pop (push v s) ≡ some (v, s)

-- A variable gets a value.
unfoldable pub assign {ℓ} : {V : Type ℓ} → String → V → (String → V) → String → V
assign x v e y = if str_eq x y then v else e y

module _ {V : Type 0} (st : ParameterStack V) where
  open st use {T, push, pop}

  -- An instruction on the variables and the stack; none: a pop from an empty stack.
  unfoldable pub run_step : Step → (String → V) × T → Option ((String → V) × T)
  unfolding assign
  run_step (pushes type x is_stack_ptr) (e, s) = some (e, push (e x) s)
  run_step (pops type x is_stack_ptr is_new_var) (e, s) = elim (pop s) [
    | none ↦ none
    | some r ↦ some (assign x r.0 e, r.1)
  ]
  run_step (says text) c = some c

  unfoldable pub run_steps : List Step → (String → V) × T → Option ((String → V) × T)
  unfolding run_step
  run_steps [] c = some c
  run_steps (x ∷ xs) c = elim (run_step x c) [ none ↦ none | some d ↦ run_steps xs d ]

-- The names of parameters in a wrapper, and in a handler.
abbrev pub names : List CppVariable → List String
names ps = map (λ (p : CppVariable). p.name) ps

abbrev pub param_names : List CppVariable → List String
param_names ps = map param_name ps

abbrev pub push_step : CppVariable → Step
push_step p = pushes p.type p.name false

abbrev pub pop_step : CppVariable → Step
pop_step p = pops p.type p.name false false

abbrev pub take_step : CppVariable → Step
take_step p = pops p.type (param_name p) true true

abbrev pub return_step : CppVariable → Step
return_step p = pushes (value_type p.type) (param_name p) true

-- What a wrapper pushes before the call and pops after it.
unfoldable pub wrapper_pushes : Function → List Step
unfolding wrapper_params
wrapper_pushes f = map push_step (wrapper_params f)

unfoldable pub wrapper_pops : Function → List Step
unfolding wrapper_params
wrapper_pops f = map pop_step (wrapper_params f)

-- What a handler pops before the call and pushes after it.
unfoldable pub handler_pops : Bool → Function → List Step
unfolding is_void_return reversed
handler_pops is_new_var f =
    (if is_void_return f then [] else pops f.return_type "returnVal" true is_new_var ∷ [])
    ++ map take_step (reversed f.params)

unfoldable pub handler_pushes : CppType → Function → List Step
unfolding is_void_return
handler_pushes returned f =
    (if is_void_return f then [] else pushes returned "returnVal" true ∷ [])
    ++ map return_step f.params

-- The instruction that calls the function.
unfoldable pub call_step : Function → String → Step
unfolding is_void_return
call_step f call = says (if is_void_return f then call else "returnVal" <> " = " <> call)

-- The variables that a handler pushes, in order.
abbrev pub returned_names : Function → List String
returned_names f = (if is_void_return f then [] else "returnVal" ∷ []) ++ param_names f.params
