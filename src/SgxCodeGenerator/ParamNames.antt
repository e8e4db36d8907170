-- ===== src/SgxCodeGenerator/ParamNames.antt =====
-- The names of the variables of a handler and of a wrapper, and lists of them.
use text.Mathlib.TextLemmas.{append_cancel_right}
use program_partitioning_for.Base.{
  ◌≡◌, refl, ap, sym, subst, ◌∙◌, true, List, [], ◌∷◌, ◌++◌, map, length, suc, Bool-cases, inl, inr,
}
use program_partitioning_for.Texts.{
  String, ◌<>◌, str_eq, str_eq-true, str_eq_refl, contains_text, IsUniqueText,
}
use program_partitioning_for.CodeGen.{CppVariable}
use program_partitioning_for.SgxCodeGenerator.Stack.{reversed, param_name}
use program_partitioning_for.SgxCodeGenerator.Steps.{names, param_names}
use program_partitioning_for.SgxCodeGenerator.Assignments.{map-push}

pub map-reversed {ℓ ℓ'} :
    {A : Type ℓ} {B : Type ℓ'} (f : A → B) (xs : List A) → map f (reversed xs) ≡ reversed (map f xs)
unfolding reversed
map-reversed f [] = refl
map-reversed f (x ∷ xs) = map-push f (reversed xs) x ∙ ap (λ ys. ys ++ f x ∷ []) (map-reversed f xs)

pub reversed-push {ℓ} :
    {A : Type ℓ} (xs : List A) (x : A) → reversed (xs ++ x ∷ []) ≡ x ∷ reversed xs
unfolding reversed
reversed-push [] x = refl
reversed-push (y ∷ xs) x = ap (λ ys. ys ++ y ∷ []) (reversed-push xs x)

pub length-map {ℓ ℓ'} :
    {A : Type ℓ} {B : Type ℓ'} (f : A → B) (xs : List A) → length (map f xs) ≡ length xs
length-map f [] = refl
length-map f (x ∷ xs) = ap suc (length-map f xs)

pub map-names {ℓ} :
    {A : Type ℓ} (e : String → A) (ps : List CppVariable)
    → map (λ (p : CppVariable). e p.name) ps ≡ map e (names ps)
map-names e [] = refl
map-names e (p ∷ ps) = ap (◌∷◌ (e p.name)) (map-names e ps)

pub map-param_names {ℓ} :
    {A : Type ℓ} (e : String → A) (ps : List CppVariable)
    → map (λ (p : CppVariable). e (param_name p)) ps ≡ map e (param_names ps)
map-param_names e [] = refl
map-param_names e (p ∷ ps) = ap (◌∷◌ (e (param_name p))) (map-param_names e ps)

param_name-same : (s t : String) → str_eq (s <> "_param") (t <> "_param") ≡ str_eq s t
param_name-same s t = elim (Bool-cases (str_eq s t)) [
  | inl e ↦ rw (e, str_eq-true s t e) (str_eq_refl (t <> "_param"))
  | inr e ↦ elim (Bool-cases (str_eq (s <> "_param") (t <> "_param"))) [
    | inl k ↦
        k
        ∙ sym (
            subst (λ u. str_eq s u ≡ true)
              (append_cancel_right s t "_param" (str_eq-true (s <> "_param") (t <> "_param") k))
              (str_eq_refl s))
    | inr k ↦ k ∙ sym e
  ]
]

contains-param_names :
    (ps : List CppVariable) (x : String)
    → contains_text (param_names ps) (x <> "_param") ≡ contains_text (names ps) x
unfolding contains_text
contains-param_names [] x = refl
contains-param_names (p ∷ ps) x = cc (param_name-same p.name x, contains-param_names ps x)

pub param_names-IsUniqueText :
    (ps : List CppVariable) → IsUniqueText (names ps) → IsUniqueText (param_names ps)
param_names-IsUniqueText [] u = tt
param_names-IsUniqueText (p ∷ ps) u =
    (contains-param_names ps p.name ∙ u.0, param_names-IsUniqueText ps u.1)
