-- ===== src/SgxCodeGenerator/Stack.antt =====
-- The instructions that SGXCodeGenerator.cpp makes to push a variable on Asylo's parameter stack and to
-- pop one from it, and the bodies that it makes of them.
use program_partitioning_for.Base.{
  Bool, true, false, List, [], ◌∷◌, ◌++◌, Option, none, some, if◌then◌else◌,
}
use program_partitioning_for.Texts.{String, ◌<>◌}
use program_partitioning_for.CodeGen.{
  CppType, CppVariable, Function, is_void_return, call_as_string,
}

-- How the stack is reached: it is a pointer or not.
unfoldable pub params_access : Bool → String
params_access is_stack_ptr = "params" <> (if is_stack_ptr then "->" else ".")

-- getPushAllocStrForArray
unfoldable pub get_push_alloc_str_for_array : CppType → String → Bool → String
unfolding params_access
get_push_alloc_str_for_array type var_name is_stack_ptr =
    "auto "
    <> var_name
    <> "_ext"
    <> " = "
    <> params_access is_stack_ptr
    <> "PushAlloc("
    <> "strlen("
    <> var_name
    <> ")"
    <> ");\n"
    <> "memcpy("
    <> var_name
    <> "_ext"
    <> ".As<"
    <> type.name
    <> ">(), "
    <> var_name
    <> ", "
    <> "strlen("
    <> var_name
    <> ")"
    <> ")"

-- getPushAllocStr
unfoldable pub get_push_alloc_str : CppType → String → Bool → String
unfolding get_push_alloc_str_for_array params_access
get_push_alloc_str type var_name is_stack_ptr =
    if type.is_array
    then get_push_alloc_str_for_array type var_name is_stack_ptr
    else "*"
      <> params_access is_stack_ptr
      <> "PushAlloc<"
      <> type.name
      <> ">() = "
      <> (if type.is_ptr then "*" else "")
      <> var_name

-- getPopStrForArray
unfoldable pub get_pop_str_for_array : CppType → String → Bool → Bool → String
unfolding params_access
get_pop_str_for_array type var_name is_stack_ptr is_new_var =
    (if is_new_var then type.name <> "* " else "")
    <> var_name
    <> " = reinterpret_cast<"
    <> type.name
    <> "*>("
    <> params_access is_stack_ptr
    <> "Pop()->data())"

-- getPopStr
unfoldable pub get_pop_str : CppType → String → Bool → Bool → String
unfolding get_pop_str_for_array params_access
get_pop_str type var_name is_stack_ptr is_new_var =
    if type.is_array
    then get_pop_str_for_array type var_name is_stack_ptr is_new_var
    else (if is_new_var then type.name <> " " else "")
      <> var_name
      <> " = "
      <> params_access is_stack_ptr
      <> "Pop<"
      <> type.name
      <> ">()"

-- The type as it is, but not a pointer.
abbrev pub value_type : CppType → CppType
value_type type = record type { is_ptr = false }

abbrev pub param_name : CppVariable → String
param_name p = p.name <> "_param"

-- A vector from its last element to the first one.
unfoldable pub reversed {ℓ} : {A : Type ℓ} → List A → List A
reversed [] = []
reversed (x ∷ xs) = reversed xs ++ x ∷ []

-- The loop of a handler over its reversed parameters.
unfoldable pub pop_params : List CppVariable → List String
unfolding get_pop_str
pop_params [] = []
pop_params (p ∷ ps) = get_pop_str p.type (param_name p) true true ∷ pop_params ps

-- What the loop puts in call_params, each at the index of its parameter.
unfoldable pub call_params : List CppVariable → List String
call_params [] = []
call_params (p ∷ ps) = param_name p ∷ call_params ps

-- The loop of a handler that gives the parameters back.
unfoldable pub return_params : List CppVariable → List String
unfolding get_push_alloc_str
return_params [] = []
return_params (p ∷ ps) =
    get_push_alloc_str (value_type p.type) (param_name p) true ∷ return_params ps

-- What a handler takes from the stack: the returned value, if there is one, and the parameters.
unfoldable pub received : Bool → Function → List String
unfolding is_void_return get_pop_str pop_params reversed
received is_new_var f =
    (if is_void_return f then [] else get_pop_str f.return_type "returnVal" true is_new_var ∷ [])
    ++ pop_params (reversed f.params)

-- What a handler puts on the stack: the returned value, if there is one, and the parameters.
unfoldable pub given_back : CppType → Function → List String
unfolding is_void_return get_push_alloc_str return_params
given_back returned f =
    (if is_void_return f then [] else get_push_alloc_str returned "returnVal" true ∷ [])
    ++ return_params f.params

-- The body of a handler but for its last instruction. The handlers of the enclave and of the driver
-- differ in whether they declare `returnVal` and in the type that they push it with.
unfoldable pub handler_body : Bool → CppType → Function → Option (List String)
unfolding received given_back call_params is_void_return call_as_string
handler_body is_new_var returned f = elim (call_as_string f (call_params f.params)) [
  | none ↦ none
  | some call ↦ some (
      received is_new_var f
      ++ (if is_void_return f then call else "returnVal" <> " = " <> call) ∷ given_back returned f)
]

-- The parameters of a wrapper: those of the function, and a pointer for what it returns.
unfoldable pub wrapper_params : Function → List CppVariable
unfolding is_void_return
wrapper_params f =
    if is_void_return f
    then f.params
    else f.params
      ++ record { type = record f.return_type { is_ptr = true }; name = "returnVal" } ∷ []

-- The loop of a wrapper that pushes its parameters in the call order.
unfoldable pub push_each : List CppVariable → List String
unfolding get_push_alloc_str
push_each [] = []
push_each (p ∷ ps) = get_push_alloc_str p.type p.name false ∷ push_each ps

-- The loop of a wrapper that pops its parameters after the call.
unfoldable pub pop_each : List CppVariable → List String
unfolding get_pop_str
pop_each [] = []
pop_each (p ∷ ps) = get_pop_str p.type p.name false false ∷ pop_each ps

-- The arguments of the call of a wrapper: a pointer is followed.
unfoldable pub wrapper_arguments : List CppVariable → List String
wrapper_arguments [] = []
wrapper_arguments (p ∷ ps) =
    (if p.type.is_ptr then "*" <> p.name else p.name) ∷ wrapper_arguments ps
