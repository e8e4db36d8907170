-- ===== src/OptimizationData/Counts.antt =====
-- lib/Debug/ILPOptimizationData.cpp: the numbers of the calls in a row.
use program_partitioning_for.Base.{
  ℕ, suc, ◌+◌, ◌≡◌, refl, sym, ◌∙◌, ap, Bool, true, false, ◌&&◌, List, [], ◌∷◌, ◌++◌, none, some,
  arith, ◌==◌, ==_iff, if◌then◌else◌, find, put, find-put, any, Bool-cases, Option-cases, inl, inr,
}
use program_partitioning_for.Base.Int.{ℤ, pos, negsuc, ◌+ℤ◌}
use program_partitioning_for.Llvm.{FunctionRef}
use program_partitioning_for.Pdg.{Pdg, PdgEdge}
use program_partitioning_for.OptimizationData.{
  CallInstruction, FunctionBodies, new_row, get_call_num, next_call_num, count_edge, count_edges,
  count_calls, fill_row,
}

module _ (pdg : Pdg) where
  -- The functions that an edge calls: at most one.
  unfoldable pub edge_call : Bool → PdgEdge → List (Bool × FunctionRef)
  edge_call in_loop e = elim e.is_control_edge [
    | false ↦ []
    | true ↦ elim (pdg.function_node e.destination) [ none ↦ [] | some f ↦ (in_loop, f) ∷ [] ]
  ]

  abbrev pub edge_calls : Bool → List PdgEdge → List (Bool × FunctionRef)
  edge_calls in_loop [] = []
  edge_calls in_loop (e ∷ es) = edge_call in_loop e ++ edge_calls in_loop es

  -- The calls of a function in their order, each with whether it stands in a loop.
  abbrev pub calls_of : List CallInstruction → List (Bool × FunctionRef)
  calls_of [] = []
  calls_of (c ∷ cs) = edge_calls c.in_loop (pdg.out_edges c.node) ++ calls_of cs

-- The number of a function after calls, from a number before them.
abbrev tally : FunctionRef → List (Bool × FunctionRef) → ℤ → ℤ
tally f [] n = n
tally f ((l, g) ∷ calls) n = tally f calls (if g == f then next_call_num l n else n)

tally-append :
    (f : FunctionRef) (xs ys : List (Bool × FunctionRef)) (n : ℤ)
    → tally f (xs ++ ys) n ≡ tally f ys (tally f xs n)
tally-append f [] ys n = refl
tally-append f ((l, g) ∷ xs) ys n = tally-append f xs ys (if g == f then next_call_num l n else n)

abbrev pub number_of_calls : FunctionRef → List (Bool × FunctionRef) → ℕ
number_of_calls f [] = 0
number_of_calls f ((l, g) ∷ calls) =
    let rest = number_of_calls f calls in if g == f then suc rest else rest

abbrev pub is_called_in_loop : FunctionRef → List (Bool × FunctionRef) → Bool
is_called_in_loop f calls = any (λ (c : Bool × FunctionRef). c.0 && (c.1 == f)) calls

tally_looped :
    (f : FunctionRef) (calls : List (Bool × FunctionRef)) → tally f calls (negsuc 0) ≡ negsuc 0
unfolding next_call_num
tally_looped f [] = refl
tally_looped f ((l, g) ∷ calls) = elim (Bool-cases (g == f)) [
  | inl e ↦ rw e (tally_looped f calls)
  | inr e ↦ rw e (tally_looped f calls)
]

next_counted : (n : ℕ) → next_call_num false (pos n) ≡ pos (suc n)
unfolding next_call_num ◌+ℤ◌
next_counted n = ground arith

next_looped : (n : ℕ) → next_call_num true (pos n) ≡ negsuc 0
unfolding next_call_num
next_looped n = ground arith

tally_counted :
    (f : FunctionRef) (calls : List (Bool × FunctionRef)) (n : ℕ)
    → tally f calls (pos n)
      ≡ (if is_called_in_loop f calls then negsuc 0 else pos (n + number_of_calls f calls))
unfolding any
tally_counted f [] n = ap pos (omega arith)
tally_counted f ((true, g) ∷ calls) n = elim (Bool-cases (g == f)) [
  | inl e ↦ rw e (ap (tally f calls) (next_looped n) ∙ tally_looped f calls)
  | inr e ↦ rw e (tally_counted f calls n)
]
tally_counted f ((false, g) ∷ calls) n = elim (Bool-cases (g == f)) [
  | inl e ↦ rw e (
      ap (tally f calls) (next_counted n)
      ∙ tally_counted f calls (suc n)
      ∙ ap (λ k. if is_called_in_loop f calls then negsuc 0 else pos k) (omega arith))
  | inr e ↦ rw e (tally_counted f calls n)
]

get_call_num-put :
    (f g : FunctionRef) (v : ℤ) (m : List (FunctionRef × ℤ))
    → get_call_num f (put g v m) ≡ (if g == f then v else get_call_num f m)
unfolding get_call_num
get_call_num-put f g v m = ground (arith, find-put g v m f)

get_call_num-next :
    (f : FunctionRef) (in_loop : Bool) (g : FunctionRef) (m : List (FunctionRef × ℤ))
    → get_call_num f (put g (next_call_num in_loop (get_call_num g m)) m)
      ≡ tally f ((in_loop, g) ∷ []) (get_call_num f m)
get_call_num-next f in_loop g m = elim (Bool-cases (g == f)) [
  | inl e ↦
      get_call_num-put f g (next_call_num in_loop (get_call_num g m)) m
      ∙ rw e (ap (λ k. next_call_num in_loop (get_call_num k m)) ((==_iff g f).0 e))
  | inr e ↦ get_call_num-put f g (next_call_num in_loop (get_call_num g m)) m ∙ rw e refl
]

module _ (pdg : Pdg) (f : FunctionRef) where
  -- The calls of one edge.
  get_call_num-count_edge :
      (in_loop : Bool) (e : PdgEdge) (m : List (FunctionRef × ℤ))
      → get_call_num f (count_edge pdg in_loop e m)
        ≡ tally f (edge_call pdg in_loop e) (get_call_num f m)
  unfolding count_edge edge_call
  get_call_num-count_edge in_loop e m = elim (Bool-cases e.is_control_edge) [
    | inl c ↦ elim (Option-cases (pdg.function_node e.destination)) [
      | inl n ↦ simp (c, n, count_edge, edge_call) refl
      | inr (g, n) ↦ simp (c, n, count_edge, edge_call) (get_call_num-next f in_loop g m)
    ]
    | inr c ↦ simp (c, count_edge, edge_call) refl
  ]

  get_call_num-count_edges :
      (in_loop : Bool) (es : List PdgEdge) (m : List (FunctionRef × ℤ))
      → get_call_num f (count_edges pdg in_loop es m)
        ≡ tally f (edge_calls pdg in_loop es) (get_call_num f m)
  unfolding count_edges
  get_call_num-count_edges in_loop [] m = refl
  get_call_num-count_edges in_loop (e ∷ es) m =
      get_call_num-count_edges in_loop es (count_edge pdg in_loop e m)
      ∙ ap (tally f (edge_calls pdg in_loop es)) (get_call_num-count_edge in_loop e m)
      ∙ sym
          (tally-append f (edge_call pdg in_loop e) (edge_calls pdg in_loop es) (get_call_num f m))

  get_call_num-count_calls :
      (cs : List CallInstruction) (m : List (FunctionRef × ℤ))
      → get_call_num f (count_calls pdg cs m) ≡ tally f (calls_of pdg cs) (get_call_num f m)
  unfolding count_calls
  get_call_num-count_calls [] m = refl
  get_call_num-count_calls (c ∷ cs) m =
      let edges = pdg.out_edges c.node in
      get_call_num-count_calls cs (count_edges pdg c.in_loop edges m)
      ∙ ap (tally f (calls_of pdg cs)) (get_call_num-count_edges c.in_loop edges m)
      ∙ sym (tally-append f (edge_calls pdg c.in_loop edges) (calls_of pdg cs) (get_call_num f m))

  -- In the row of a function with a graph, the number for a callee is -1 if some call of it stands in a
  -- loop, and otherwise the number of its calls, in the function's call and invoke instructions.
  pub fill_row-calls :
      (bodies : FunctionBodies) (g : FunctionRef)
      → pdg.has_function_pdg g ≡ true
      → get_call_num f (fill_row pdg bodies (new_row bodies g)).context_switch_num ≡ (
          let calls = calls_of pdg (bodies.call_instructions g) in
          if is_called_in_loop f calls then negsuc 0 else pos (number_of_calls f calls))
  unfolding fill_row get_call_num find
  fill_row-calls bodies g h =
      rw (h, fill_row)
        (get_call_num-count_calls (bodies.call_instructions g) []
          ∙ tally_counted f (calls_of pdg (bodies.call_instructions g)) 0
          ∙ ap
              (λ k.
                if is_called_in_loop f (calls_of pdg (bodies.call_instructions g))
                then negsuc 0
                else pos k)
              (omega arith))
