-- ===== src/Base/Maps.antt =====
-- std::unordered_map with pointers for keys: the entries in the order of an iteration.
use Prim.Native.Nat.{ℕ}
use mathlib.Core.Path.{◌≡◌, refl}
use mathlib.Core.Bool.{true, false}
use mathlib.Core.Option.{Option, none, some}
use mathlib.Core.List.{List, [], ◌∷◌}
use native.Mathlib.Omega.{arith}
use program_partitioning_for.Base.Tests.{◌==◌, if◌then◌else◌}
use program_partitioning_for.Base.Sets.{contains, IsUnique, erase, erase-IsUnique}

module _ {ℓ} {V : Type ℓ} where
  -- find(k): the value behind the iterator, none for end()
  unfoldable pub find : ℕ → List (ℕ × V) → Option V
  find k [] = none
  find k ((j, v) ∷ m) = if j == k then some v else find k m

  -- m[k] = v
  unfoldable pub put : ℕ → V → List (ℕ × V) → List (ℕ × V)
  put k v [] = (k, v) ∷ []
  put k v ((j, w) ∷ m) = if j == k then (k, v) ∷ m else (j, w) ∷ put k v m

  -- insert({k, v}): an entry that is there stays as it is.
  unfoldable pub emplace : ℕ → V → List (ℕ × V) → List (ℕ × V)
  unfolding put
  emplace k v m = elim (find k m) [ none ↦ put k v m | some w ↦ m ]

  -- erase(k)
  unfoldable pub remove_key : ℕ → List (ℕ × V) → List (ℕ × V)
  remove_key k [] = []
  remove_key k ((j, v) ∷ m) = let rest = remove_key k m in if j == k then rest else (j, v) ∷ rest

  unfoldable pub keys : List (ℕ × V) → List ℕ
  keys [] = []
  keys ((j, v) ∷ m) = j ∷ keys m

  pub find-put :
      (k : ℕ) (v : V) (m : List (ℕ × V)) (j : ℕ)
      → find j (put k v m) ≡ (if k == j then some v else find j m)
  unfolding find put
  find-put k v [] j = ground arith
  find-put k v ((i, w) ∷ m) j = ground (arith, find-put k v m j)

  pub find-emplace :
      (k : ℕ) (v : V) (m : List (ℕ × V)) (j : ℕ)
      → find j (emplace k v m)
        ≡ (if k == j then elim (find k m) [ none ↦ some v | some w ↦ some w ] else find j m)
  unfolding emplace
  find-emplace k v m j = ground (arith, find-put k v m j)

  pub find-remove_key :
      (k : ℕ) (m : List (ℕ × V)) (j : ℕ)
      → find j (remove_key k m) ≡ (if k == j then none else find j m)
  unfolding find remove_key
  find-remove_key k [] j = ground arith
  find-remove_key k ((i, w) ∷ m) j = ground (arith, find-remove_key k m j)

  pub keys-put :
      (k : ℕ) (v : V) (m : List (ℕ × V)) (j : ℕ)
      → contains (keys (put k v m)) j ≡ (if k == j then true else contains (keys m) j)
  unfolding keys put contains
  keys-put k v [] j = ground arith
  keys-put k v ((i, w) ∷ m) j = ground (arith, keys-put k v m j)

  pub keys-remove_key : (k : ℕ) (m : List (ℕ × V)) → keys (remove_key k m) ≡ erase k (keys m)
  unfolding keys remove_key erase
  keys-remove_key k [] = refl
  keys-remove_key k ((i, w) ∷ m) = ground (arith, keys-remove_key k m)

  pub put-IsUnique :
      (k : ℕ) (v : V) (m : List (ℕ × V)) → IsUnique (keys m) → IsUnique (keys (put k v m))
  unfolding keys put contains
  put-IsUnique k v [] u = (refl, tt)
  put-IsUnique k v ((i, w) ∷ m) u = ground (arith, put-IsUnique k v m, keys-put k v m i)

  pub emplace-IsUnique :
      (k : ℕ) (v : V) (m : List (ℕ × V)) → IsUnique (keys m) → IsUnique (keys (emplace k v m))
  unfolding emplace
  emplace-IsUnique k v m u = ground (arith, put-IsUnique k v m)

  pub remove_key-IsUnique :
      (k : ℕ) (m : List (ℕ × V)) → IsUnique (keys m) → IsUnique (keys (remove_key k m))
  remove_key-IsUnique k m u = rw (keys-remove_key k m) (erase-IsUnique k (keys m) u)

  pub find-none_of_key : (k : ℕ) (m : List (ℕ × V)) → contains (keys m) k ≡ false → find k m ≡ none
  unfolding find keys contains
  find-none_of_key k [] h = refl
  find-none_of_key k ((i, w) ∷ m) h = ground (arith, find-none_of_key k m)
