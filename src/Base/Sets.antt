-- ===== src/Base/Sets.antt =====
-- std::unordered_set of pointers: the elements in the order of an iteration. A pointer is a number.
use Prim.Native.Nat.{ℕ}
use mathlib.Core.Path.{◌≡◌, refl}
use mathlib.Core.Logic.{inl, inr}
use mathlib.Core.Bool.{Bool, true, false, not, ◌&&◌, ◌||◌}
use mathlib.Core.List.{List, [], ◌∷◌, ◌++◌}
use native.Mathlib.Omega.{arith}
use program_partitioning_for.Base.Tests.{◌==◌, if◌then◌else◌, Bool-cases}

-- find(x) != end()
unfoldable pub contains : List ℕ → ℕ → Bool
contains [] x = false
contains (y ∷ ys) x = y == x || contains ys x

-- insert(x): a set keeps one copy.
unfoldable pub insert : ℕ → List ℕ → List ℕ
insert x s = if contains s x then s else x ∷ s

-- insert(first, last)
unfoldable pub insert_all : List ℕ → List ℕ → List ℕ
insert_all [] s = s
insert_all (x ∷ xs) s = insert_all xs (insert x s)

-- erase(x)
unfoldable pub erase : ℕ → List ℕ → List ℕ
erase x [] = []
erase x (y ∷ ys) = let rest = erase x ys in if y == x then rest else y ∷ rest

-- The elements that pass a test, in order: a loop that inserts into a fresh set behind `if`.
unfoldable pub select : (ℕ → Bool) → List ℕ → List ℕ
select p [] = []
select p (x ∷ xs) = let rest = select p xs in if p x then x ∷ rest else rest

pub contains-insert :
    (x : ℕ) (s : List ℕ) (y : ℕ) → contains (insert x s) y ≡ (x == y || contains s y)
unfolding insert contains
contains-insert x s y = ground arith

pub contains-insert_all :
    (xs s : List ℕ) (y : ℕ) → contains (insert_all xs s) y ≡ (contains xs y || contains s y)
unfolding insert_all contains
contains-insert_all [] s y = refl
contains-insert_all (x ∷ xs) s y =
    ground (arith, contains-insert_all xs (insert x s) y, contains-insert x s y)

pub contains-erase :
    (x : ℕ) (s : List ℕ) (y : ℕ) → contains (erase x s) y ≡ (not (x == y) && contains s y)
unfolding erase contains
contains-erase x [] y = ground arith
contains-erase x (z ∷ zs) y = ground (arith, contains-erase x zs y)

pub contains-select :
    (p : ℕ → Bool) (s : List ℕ) (y : ℕ) → contains (select p s) y ≡ (contains s y && p y)
unfolding select contains
contains-select p [] y = refl
contains-select p (x ∷ xs) y = elim (Bool-cases (x == y)) [
  | inl e ↦ rw (same e) (ground (arith, contains-select p xs y))
  | inr e ↦ ground (arith, contains-select p xs y)
]
  where
    same : (x == y) ≡ true → x ≡ y
    same e = ground arith

pub contains-append :
    (xs ys : List ℕ) (y : ℕ) → contains (xs ++ ys) y ≡ (contains xs y || contains ys y)
unfolding contains
contains-append [] ys y = refl
contains-append (x ∷ xs) ys y = ground (arith, contains-append xs ys y)

-- No element stands twice: what every std::unordered_set guarantees.
abbrev pub IsUnique : List ℕ → Type 0
IsUnique [] = Unit
IsUnique (x ∷ xs) = (contains xs x ≡ false) × IsUnique xs

pub insert-IsUnique : (x : ℕ) (s : List ℕ) → IsUnique s → IsUnique (insert x s)
unfolding insert
insert-IsUnique x s u = ground arith

pub insert_all-IsUnique : (xs s : List ℕ) → IsUnique s → IsUnique (insert_all xs s)
unfolding insert_all
insert_all-IsUnique [] s u = u
insert_all-IsUnique (x ∷ xs) s u = insert_all-IsUnique xs (insert x s) (insert-IsUnique x s u)

pub erase-IsUnique : (x : ℕ) (s : List ℕ) → IsUnique s → IsUnique (erase x s)
unfolding erase
erase-IsUnique x [] u = tt
erase-IsUnique x (y ∷ ys) u = ground (arith, erase-IsUnique x ys, contains-erase x ys y)

pub select-IsUnique : (p : ℕ → Bool) (s : List ℕ) → IsUnique s → IsUnique (select p s)
unfolding select
select-IsUnique p [] u = tt
select-IsUnique p (y ∷ ys) u = ground (arith, select-IsUnique p ys, contains-select p ys y)

-- Erase every element of a list, one at a time.
unfoldable pub erase_all : List ℕ → List ℕ → List ℕ
erase_all [] s = s
erase_all (x ∷ xs) s = erase_all xs (erase x s)

pub contains-erase_all :
    (xs s : List ℕ) (y : ℕ) → contains (erase_all xs s) y ≡ (not (contains xs y) && contains s y)
unfolding erase_all contains
contains-erase_all [] s y = refl
contains-erase_all (x ∷ xs) s y =
    ground (arith, contains-erase_all xs (erase x s) y, contains-erase x s y)

pub erase_all-IsUnique : (xs s : List ℕ) → IsUnique s → IsUnique (erase_all xs s)
unfolding erase_all
erase_all-IsUnique [] s u = u
erase_all-IsUnique (x ∷ xs) s u = erase_all-IsUnique xs (erase x s) (erase-IsUnique x s u)

pub append-IsUnique :
    (xs : List ℕ) (y : ℕ) → IsUnique xs → contains xs y ≡ false → IsUnique (xs ++ y ∷ [])
unfolding contains
append-IsUnique [] y u h = (refl, tt)
append-IsUnique (x ∷ xs) y u h = ground (arith, append-IsUnique xs y, contains-append xs (y ∷ []) x)
