-- ===== src/SgxCodeGenerator/Assignments.antt =====
-- Variables that get values one after the other, in the order of their names or against it.
use program_partitioning_for.Base.{
  ◌≡◌, refl, ap, sym, ◌∙◌, false, ◌||◌, List, [], ◌∷◌, ◌++◌, map, arith, length, suc, Bool-cases,
  inl, inr,
}
use program_partitioning_for.Texts.{
  String, str_eq, str_eq-true, str_eq_refl, contains_text, IsUniqueText,
}
use program_partitioning_for.SgxCodeGenerator.Stack.{reversed}
use program_partitioning_for.SgxCodeGenerator.Steps.{assign}

-- The first name gets its value first.
unfoldable pub assign_all {ℓ} : {V : Type ℓ} → List String → List V → (String → V) → String → V
unfolding assign
assign_all [] vs e = e
assign_all (x ∷ xs) [] e = e
assign_all (x ∷ xs) (v ∷ vs) e = assign_all xs vs (assign x v e)

-- The first name gets its value last.
unfoldable pub assign_back {ℓ} : {V : Type ℓ} → List String → List V → (String → V) → String → V
unfolding assign
assign_back [] vs e = e
assign_back (x ∷ xs) [] e = e
assign_back (x ∷ xs) (v ∷ vs) e = assign x v (assign_back xs vs e)

pub length-push {ℓ} : {A : Type ℓ} (xs : List A) (x : A) → length (xs ++ x ∷ []) ≡ suc (length xs)
length-push [] x = refl
length-push (y ∷ xs) x = ap suc (length-push xs x)

pub length-reversed {ℓ} : {A : Type ℓ} (xs : List A) → length (reversed xs) ≡ length xs
unfolding reversed
length-reversed [] = refl
length-reversed (x ∷ xs) = length-push (reversed xs) x ∙ ap suc (length-reversed xs)

pub map-push {ℓ ℓ'} :
    {A : Type ℓ} {B : Type ℓ'} (f : A → B) (xs : List A) (x : A)
    → map f (xs ++ x ∷ []) ≡ map f xs ++ f x ∷ []
map-push f [] x = refl
map-push f (y ∷ ys) x = ap (◌∷◌ (f y)) (map-push f ys x)

module _ {ℓ} {V : Type ℓ} where
  assign-same : (x : String) (v : V) (e : String → V) → assign x v e x ≡ v
  unfolding assign
  assign-same x v e = rw (str_eq_refl x) refl

  -- Another variable keeps its value.
  assign_all-other :
      (xs : List String) (vs : List V) (e : String → V) (y : String)
      → contains_text xs y ≡ false
      → assign_all xs vs e y ≡ e y
  unfolding assign_all assign contains_text
  assign_all-other [] vs e y h = refl
  assign_all-other (x ∷ xs) [] e y h = refl
  assign_all-other (x ∷ xs) (v ∷ vs) e y h =
      assign_all-other xs vs (assign x v e) y (ground (arith, h)) ∙ rw (the_head h) refl
    where
      the_head : (str_eq x y || contains_text xs y) ≡ false → str_eq x y ≡ false
      the_head k = ground (arith, k)

  pub assign_all-map :
      (xs : List String) (vs : List V) (e : String → V)
      → IsUniqueText xs
      → length xs ≡ length vs
      → map (assign_all xs vs e) xs ≡ vs
  unfolding assign_all
  assign_all-map [] [] e u h = refl
  assign_all-map [] (v ∷ vs) e u h = ground (arith, h)
  assign_all-map (x ∷ xs) [] e u h = ground (arith, h)
  assign_all-map (x ∷ xs) (v ∷ vs) e u h = cc (
    assign_all-other xs vs (assign x v e) x u.0,
    assign-same x v e,
    assign_all-map xs vs (assign x v e) u.1 (omega arith),
  )

  assign-map-other :
      (xs : List String) (x : String) (v : V) (e : String → V)
      → contains_text xs x ≡ false
      → map (assign x v e) xs ≡ map e xs
  unfolding assign contains_text
  assign-map-other [] x v e h = refl
  assign-map-other (y ∷ ys) x v e h =
      let differs : str_eq x y ≡ false = other x y (ground (arith, h)) in
      let rest = assign-map-other ys x v e (ground (arith, h)) in rw differs (cc rest)
    where
      other : (a b : String) → str_eq b a ≡ false → str_eq a b ≡ false
      other a b k = elim (Bool-cases (str_eq a b)) [
        | inl e' ↦ ground (arith, k, str_eq-true a b e', str_eq_refl a)
        | inr e' ↦ e'
      ]

  pub assign_back-map :
      (xs : List String) (vs : List V) (e : String → V)
      → IsUniqueText xs
      → length xs ≡ length vs
      → map (assign_back xs vs e) xs ≡ vs
  unfolding assign_back
  assign_back-map [] [] e u h = refl
  assign_back-map [] (v ∷ vs) e u h = ground (arith, h)
  assign_back-map (x ∷ xs) [] e u h = ground (arith, h)
  assign_back-map (x ∷ xs) (v ∷ vs) e u h = cc (
    assign-same x v (assign_back xs vs e),
    assign-map-other xs x v (assign_back xs vs e) u.0,
    assign_back-map xs vs e u.1 (omega arith),
  )

  assign_all-last :
      (xs : List String) (vs : List V) (x : String) (v : V) (e : String → V)
      → length xs ≡ length vs
      → assign_all (xs ++ x ∷ []) (vs ++ v ∷ []) e ≡ assign x v (assign_all xs vs e)
  unfolding assign_all
  assign_all-last [] [] x v e h = refl
  assign_all-last [] (w ∷ vs) x v e h = ground (arith, h)
  assign_all-last (y ∷ xs) [] x v e h = ground (arith, h)
  assign_all-last (y ∷ xs) (w ∷ vs) x v e h = assign_all-last xs vs x v (assign y w e) (omega arith)

  -- Against the order of both the names and the values.
  pub assign_all-reversed :
      (xs : List String) (vs : List V) (e : String → V)
      → length xs ≡ length vs
      → assign_all (reversed xs) (reversed vs) e ≡ assign_back xs vs e
  unfolding assign_all assign_back reversed
  assign_all-reversed [] [] e h = refl
  assign_all-reversed [] (v ∷ vs) e h = ground (arith, h)
  assign_all-reversed (x ∷ xs) [] e h = ground (arith, h)
  assign_all-reversed (x ∷ xs) (v ∷ vs) e h =
      assign_all-last (reversed xs) (reversed vs) x v e
        (length-reversed xs ∙ omega arith ∙ sym (length-reversed vs))
      ∙ ap (assign x v) (assign_all-reversed xs vs e (omega arith))
