-- ===== src/Base/Lists.antt =====
-- Lists (std::vector, std::list) measured and indexed by native numbers, under the library's names.
use Prim.Native.Nat.{ℕ, zero, suc, ◌+◌, ◌<◌}
use mathlib.Core.Path.{◌≡◌, refl, sym}
use mathlib.Core.Logic.{◌⊎◌, inl, inr, ◌↔◌}
use mathlib.Core.List.{List, [], ◌∷◌, ◌++◌}
use mathlib.Core.Option.{Option, none, some}
use mathlib.Core.Bool.{Bool, true, false, not, ◌&&◌, ◌||◌}
use mathlib.Core.List.{Memᴰ}
use mathlib.Core.List.Memᴰ
use native.Mathlib.Omega.{arith}
use program_partitioning_for.Base.Tests.{Bool-cases, if◌then◌else◌, ◌==◌, ==_refl, ==_iff}
use program_partitioning_for.Base.Sets.{contains, IsUnique}

module _ {ℓ} {A : Type ℓ} where
  abbrev pub length : List A → ℕ
  length [] = 0
  length (x ∷ xs) = suc (length xs)

  abbrev pub get_elem? : List A → ℕ → Option A
  get_elem? [] i = none
  get_elem? (x ∷ xs) zero = some x
  get_elem? (x ∷ xs) (suc i) = get_elem? xs i

  abbrev pub get_or : List A → ℕ → A → A
  get_or [] i d = d
  get_or (x ∷ xs) zero d = x
  get_or (x ∷ xs) (suc i) d = get_or xs i d

  -- A write out of bounds, which has no meaning in C++, changes nothing.
  abbrev pub set : List A → ℕ → A → List A
  set [] i v = []
  set (x ∷ xs) zero v = v ∷ xs
  set (x ∷ xs) (suc i) v = x ∷ set xs i v

  abbrev pub take : ℕ → List A → List A
  take zero xs = []
  take (suc n) [] = []
  take (suc n) (x ∷ xs) = x ∷ take n xs

  abbrev pub drop : ℕ → List A → List A
  drop zero xs = xs
  drop (suc n) [] = []
  drop (suc n) (x ∷ xs) = drop n xs

  -- vector::erase at a position; past the end, which has no meaning in C++, it changes nothing.
  abbrev pub remove_at : ℕ → List A → List A
  remove_at i [] = []
  remove_at zero (x ∷ xs) = xs
  remove_at (suc i) (x ∷ xs) = x ∷ remove_at i xs

  pub take-append-drop : (n : ℕ) (xs : List A) → take n xs ++ drop n xs ≡ xs
  take-append-drop zero xs = refl
  take-append-drop (suc n) [] = refl
  take-append-drop (suc n) (x ∷ xs) = rw (take-append-drop n xs)

  pub length-remove_at :
      (i : ℕ) (xs : List A) → i < length xs → suc (length (remove_at i xs)) ≡ length xs
  length-remove_at i [] h = absurd (omega arith)
  length-remove_at zero (x ∷ xs) h = refl
  length-remove_at (suc i) (x ∷ xs) h = omega (arith, length-remove_at i xs)

  pub length-set : (xs : List A) (i : ℕ) (v : A) → length (set xs i v) ≡ length xs
  length-set [] i v = refl
  length-set (x ∷ xs) zero v = refl
  length-set (x ∷ xs) (suc i) v = omega (arith, length-set xs i v)

  pub get_or-set :
      (xs : List A) (i j : ℕ) (v d : A)
      → i < length xs
      → get_or (set xs i v) j d ≡ (if i == j then v else get_or xs j d)
  get_or-set [] i j v d h = absurd (omega arith)
  get_or-set (x ∷ xs) zero zero v d h = refl
  get_or-set (x ∷ xs) zero (suc j) v d h = ground arith
  get_or-set (x ∷ xs) (suc i) zero v d h = ground arith
  get_or-set (x ∷ xs) (suc i) (suc j) v d h = ground (arith, get_or-set xs i j v d)

  pub length-append : (xs ys : List A) → length (xs ++ ys) ≡ length xs + length ys
  length-append [] ys = omega arith
  length-append (x ∷ xs) ys = omega (arith, length-append xs ys)

  pub List-cases : (xs : List A) → (xs ≡ []) ⊎ ((x : A) × (rest : List A) × (xs ≡ x ∷ rest))
  List-cases [] = inl refl
  List-cases (x ∷ xs) = inr (x, xs, refl)

  -- A loop that returns true at the first element that passes.
  unfoldable pub any : (A → Bool) → List A → Bool
  any p [] = false
  any p (x ∷ xs) = p x || any p xs

  pub any_of_mem : (p : A → Bool) (xs : List A) {x : A} → Memᴰ x xs → p x ≡ true → any p xs ≡ true
  unfolding any
  any_of_mem p [] m e = absurd (Memᴰ.not-nil m)
  any_of_mem p (y ∷ ys) m e = elim (Memᴰ.cases_cons m) [
    | inl same ↦ rw (← same, e)
    | inr rest ↦ ground (arith, any_of_mem p ys rest e)
  ]

  pub mem_of_any :
      (p : A → Bool) (xs : List A) → any p xs ≡ true → (x : A) × Memᴰ x xs × (p x ≡ true)
  unfolding any
  mem_of_any p [] h = cc
  mem_of_any p (y ∷ ys) h = elim (Bool-cases (p y)) [
    | inl e ↦ (y, Memᴰ.head refl, e)
    | inr e ↦ let (x, m, px) = mem_of_any p ys (rw e at h) in (x, Memᴰ.tail m, px)
  ]

  pub any-false : (p : A → Bool) (xs : List A) → ((x : A) → p x ≡ false) → any p xs ≡ false
  unfolding any
  any-false p [] h = refl
  any-false p (x ∷ xs) h = rw (h x, any-false p xs h)

  -- A search succeeds exactly when some element passes.
  pub any_iff :
      (p : A → Bool) (xs : List A) → (any p xs ≡ true) ↔ ((x : A) × Memᴰ x xs × (p x ≡ true))
  any_iff p xs = (mem_of_any p xs, λ (x, m, e). any_of_mem p xs m e)

module _ {ℓ} {A : Type ℓ} where
  -- std::all_of
  unfoldable pub all : (A → Bool) → List A → Bool
  all p [] = true
  all p (x ∷ xs) = p x && all p xs

  pub all-append : (p : A → Bool) (xs ys : List A) → all p (xs ++ ys) ≡ (all p xs && all p ys)
  unfolding all
  all-append p [] ys = ground arith
  all-append p (x ∷ xs) ys = ground (arith, all-append p xs ys)

  pub all_weaken :
      (p q : A → Bool) (xs : List A)
      → ((x : A) → p x ≡ true → q x ≡ true)
      → all p xs ≡ true
      → all q xs ≡ true
  unfolding all
  all_weaken p q [] h a = refl
  all_weaken p q (x ∷ xs) h a = ground (arith, h x, all_weaken p q xs h, a)

  pub any-append : (p : A → Bool) (xs ys : List A) → any p (xs ++ ys) ≡ (any p xs || any p ys)
  unfolding any
  any-append p [] ys = ground arith
  any-append p (x ∷ xs) ys = ground (arith, any-append p xs ys)

pub contains_of_mem : {x : ℕ} (xs : List ℕ) → Memᴰ x xs → contains xs x ≡ true
unfolding contains
contains_of_mem [] m = absurd (Memᴰ.not-nil m)
contains_of_mem {x} (y ∷ ys) m = elim (Memᴰ.cases_cons m) [
  | inl same ↦ rw (same, ==_refl y)
  | inr rest ↦ ground (arith, contains_of_mem ys rest)
]

pub mem_of_contains : {x : ℕ} (xs : List ℕ) → contains xs x ≡ true → Memᴰ x xs
unfolding contains
mem_of_contains [] h = cc
mem_of_contains {x} (y ∷ ys) h = elim (Bool-cases (y == x)) [
  | inl e ↦ Memᴰ.head (sym ((==_iff y x).0 e))
  | inr e ↦ Memᴰ.tail (mem_of_contains ys (rw e at h))
]

pub contains-get_or : (i : ℕ) (xs : List ℕ) → i < length xs → contains xs (get_or xs i 0) ≡ true
unfolding contains
contains-get_or i [] h = absurd (omega arith)
contains-get_or zero (x ∷ xs) h = rw (==_refl x)
contains-get_or (suc i) (x ∷ xs) h = ground (arith, contains-get_or i xs)

-- Removing the element at a position of a set removes this element and no other.
pub contains-remove_at :
    (i : ℕ) (xs : List ℕ) (x : ℕ)
    → IsUnique xs
    → i < length xs
    → contains (remove_at i xs) x ≡ (not (get_or xs i 0 == x) && contains xs x)
unfolding contains
contains-remove_at i [] x u h = absurd (omega arith)
contains-remove_at zero (y ∷ ys) x u h = elim (Bool-cases (y == x)) [
  | inl e ↦ let same : y ≡ x = (==_iff y x).0 e in ground arith
  | inr e ↦ ground arith
]
contains-remove_at (suc i) (y ∷ ys) x u h = elim (Bool-cases (y == x)) [
  | inl e ↦ let same : y ≡ x = (==_iff y x).0 e in ground (arith, contains-get_or i ys)
  | inr e ↦ ground (arith, contains-remove_at i ys x)
]

pub remove_at-IsUnique :
    (i : ℕ) (xs : List ℕ) → IsUnique xs → i < length xs → IsUnique (remove_at i xs)
remove_at-IsUnique i [] u h = tt
remove_at-IsUnique zero (x ∷ xs) u h = u.1
remove_at-IsUnique (suc i) (x ∷ xs) u h =
    (ground (arith, contains-remove_at i xs x), remove_at-IsUnique i xs u.1 (omega arith))
