-- ===== src/CallGraph/Located.antt =====
-- WeightAssigningHelper of lib/Analysis/CallGraph.cpp: the places of a graph's nodes and in-edges.
use program_partitioning_for.Base.{
  ℕ, suc, ◌+◌, ◌≡◌, refl, sym, ap, subst, ◌∙◌, true, false, List, [], ◌∷◌, some, arith, ◌==◌, find,
  put, keys, map, get_elem?, all, all-append, contains, IsUnique, Option-cases, Bool-cases, inl,
  inr, ==_iff,
}
use program_partitioning_for.Llvm.{FunctionRef}
use program_partitioning_for.Numbers.{Scalar}
use program_partitioning_for.CallGraph.{CallGraph, Node, Edge}
use program_partitioning_for.CallGraph.Normalize.{
  node_place, in_edge_places, all_in_edge_places, called_places,
}
use program_partitioning_for.CallGraph.Placed.{is_some, is_placed}

pub find_of_key {ℓ} :
    {V : Type ℓ} (k : ℕ) (m : List (ℕ × V))
    → contains (keys m) k ≡ true
    → (v : V) × (find k m ≡ some v)
unfolding find keys contains
find_of_key k [] h = ground (arith, h)
find_of_key k ((j, v) ∷ m) h = elim (Bool-cases (j == k)) [
  | inl e ↦ (v, rw e refl)
  | inr e ↦ let (w, found) = find_of_key k m (ground (arith, e, h)) in (w, rw e found)
]

pub keys-put_found {ℓ} :
    {V : Type ℓ} (k : ℕ) (v w : V) (m : List (ℕ × V))
    → find k m ≡ some w
    → keys (put k v m) ≡ keys m
unfolding find keys put
keys-put_found k v w [] h = ground (arith, h)
keys-put_found k v w ((j, x) ∷ m) h = elim (Bool-cases (j == k)) [
  | inl e ↦ rw e (ap (λ i. i ∷ keys m) (sym ((==_iff j k).0 e)))
  | inr e ↦ rw e (ap (λ ks. j ∷ ks) (keys-put_found k v w m (rw e at h)))
]

module _ (s : Scalar) where
  open s use {T}

  -- Every node of the first graph is found in the second.
  abbrev pub AllFound : CallGraph T → CallGraph T → Type 0
  AllFound [] g = Unit {0}
  AllFound ((f, n) ∷ rest) g = (find f g ≡ some n) × AllFound rest g

  AllFound-cons :
      (rest : CallGraph T) (f : FunctionRef) (n : Node T) (g : CallGraph T)
      → contains (keys rest) f ≡ false
      → AllFound rest g
      → AllFound rest ((f, n) ∷ g)
  unfolding find keys contains
  AllFound-cons [] f n g h all = tt
  AllFound-cons ((j, m) ∷ rest) f n g h (found, all) =
      (ground (arith, h, found), AllFound-cons rest f n g (ground (arith, h)) all)

  pub IsUnique-AllFound : (g : CallGraph T) → IsUnique (keys g) → AllFound g g
  unfolding keys find
  IsUnique-AllFound [] u = tt
  IsUnique-AllFound ((f, n) ∷ g) (fresh, u) =
      (ground arith, AllFound-cons g f n g fresh (IsUnique-AllFound g u))

  in_edge_places-placed :
      (g : CallGraph T) (f : FunctionRef) (n : Node T) (i : ℕ) (es : List (Edge T))
      → find f g ≡ some n
      → ((k : ℕ) → is_some (get_elem? es k) ≡ true → is_some (get_elem? n.in_edges (i + k)) ≡ true)
      → all (is_placed s g) (in_edge_places f i es) ≡ true
  unfolding in_edge_places all is_placed is_some
  in_edge_places-placed g f n i [] e h = refl
  in_edge_places-placed g f n i (x ∷ es) e h =
      let first : is_some (get_elem? n.in_edges i) ≡ true =
        subst (λ k. is_some (get_elem? n.in_edges k) ≡ true) (omega arith) (h 0 refl) in
      let rest = in_edge_places-placed g f n (suc i) es e (λ k found.
        subst (λ j. is_some (get_elem? n.in_edges j) ≡ true) (omega arith) (h (suc k) found)) in
      ground (arith, e, first, rest)

  own_places-placed :
      (g : CallGraph T) (f : FunctionRef) (n : Node T)
      → find f g ≡ some n
      → all (is_placed s g) (in_edge_places f 0 n.in_edges) ≡ true
  own_places-placed g f n e =
      in_edge_places-placed g f n 0 n.in_edges e
        (λ k h. subst (λ j. is_some (get_elem? n.in_edges j) ≡ true) (omega arith) h)

  pub all_in_edge_places-placed :
      (rest g : CallGraph T)
      → AllFound rest g
      → all (is_placed s g) (all_in_edge_places rest) ≡ true
  unfolding all_in_edge_places all
  all_in_edge_places-placed [] g found = refl
  all_in_edge_places-placed ((f, n) ∷ rest) g (e, found) =
      all-append (is_placed s g) (in_edge_places f 0 n.in_edges) (all_in_edge_places rest)
      ∙ rw (own_places-placed g f n e) (all_in_edge_places-placed rest g found)

  pub called_places-placed :
      (calls : List (FunctionRef × List (FunctionRef × T))) (rest g : CallGraph T)
      → AllFound rest g
      → all (is_placed s g) (called_places calls rest) ≡ true
  unfolding called_places all
  called_places-placed calls [] g found = refl
  called_places-placed calls ((f, n) ∷ rest) g (e, found) = elim (Option-cases (find f calls)) [
    | inl c ↦ rw (c, called_places) (called_places-placed calls rest g found)
    | inr (callers, c) ↦
        rw (c, called_places)
          (all-append (is_placed s g) (in_edge_places f 0 n.in_edges) (called_places calls rest)
            ∙ rw (own_places-placed g f n e) (called_places-placed calls rest g found))
  ]

  pub node_places-placed :
      (fs : List FunctionRef) (g : CallGraph T)
      → ((f : FunctionRef) → contains fs f ≡ true → contains (keys g) f ≡ true)
      → all (is_placed s g) (map node_place fs) ≡ true
  unfolding all contains is_placed is_some
  node_places-placed [] g h = refl
  node_places-placed (f ∷ fs) g h =
      let (n, found) = find_of_key f g (h f (ground arith)) in
      let rest = node_places-placed fs g (λ j c. h j (ground (arith, c))) in
      ground (arith, found, rest)
