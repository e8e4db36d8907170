-- ===== src/Optimization/Ilp/Solution.antt =====
-- What a solution of the linear program moves.
use text.Mathlib.Text.{◌==◌ as str_eq}
use text.Mathlib.TextEquality.{eq_iff}
use program_partitioning_for.Base.{
  ◌≡◌, ◌≢◌, refl, ap, inl, inr, Bool, true, false, ◌&&◌, ◌||◌, List, [], ◌∷◌, ◌++◌, some, ◌==◌,
  ==_iff, arith, contains, keys, contains-insert, insert, Bool-cases,
}
use program_partitioning_for.Llvm.{FunctionRef, Module}
use program_partitioning_for.Numbers.{Scalar, le}
use program_partitioning_for.CallGraph.{CallGraph}
use program_partitioning_for.Partition.{Partition, contains_function}
use program_partitioning_for.Optimization.Ilp.{
  Variable, node_var, Constraint, at_most_one, at_least_one, at_most_zero, difference_at_most_one,
  IlpModel, Solver, node_constraints, edge_constraints, create_constraints, create_model, chosen,
  run_ilp,
}

picks-both : {c : Bool} {k v : Bool} → c ≡ ((k && v) || false) → c ≡ true → (k ≡ true) × (v ≡ true)
picks-both e h = (ground (arith, e, h), ground (arith, e, h))

module _ (s : Scalar) where
  open s use {T, zero, one}

  -- An assignment meets a constraint.
  abbrev pub Meets : (Variable → T) → Constraint → Type 0
  Meets value (at_most_one x) = le s (value x) one ≡ true
  Meets value (at_least_one x) = le s one (value x) ≡ true
  Meets value (at_most_zero x) = le s (value x) zero ≡ true
  Meets value (difference_at_most_one x y z) =
      le s (s.add (s.add (value x) (s.minus (value y))) (value z)) one ≡ true

  abbrev pub MeetsAll : (Variable → T) → List Constraint → Type 0
  MeetsAll value [] = Unit {0}
  MeetsAll value (c ∷ cs) = Meets value c × MeetsAll value cs

  -- What the code relies on: a solution that the solver reports meets the constraints, and the order of
  -- the numbers is that of 0 and 1.
  pub record IsSound (solve : Solver T) : Type 0 where
    pub feasible :
        (model : IlpModel T) (value : Variable → T)
        → solve model ≡ some value
        → MeetsAll value model.constraints
    pub one_exact : (a : T) → le s a one ≡ true → le s one a ≡ true → s.eq a one ≡ true
    pub one_positive : (a : T) → le s a zero ≡ true → s.eq a one ≡ false

  feasible-constraints :
      (solve : Solver T) (m : Module) (secure : Partition) (g : CallGraph T) (value : Variable → T)
      → IsSound solve
      → solve (create_model s m secure g) ≡ some value
      → MeetsAll value (create_constraints m secure g)
  unfolding create_model
  feasible-constraints solve m secure g value sound solved =
      sound.feasible (create_model s m secure g) value solved

  MeetsAll-append :
      (value : Variable → T) (cs ds : List Constraint)
      → MeetsAll value (cs ++ ds)
      → MeetsAll value cs × MeetsAll value ds
  MeetsAll-append value [] ds h = (tt, h)
  MeetsAll-append value (c ∷ cs) ds h =
      let (left, right) = MeetsAll-append value cs ds h.1 in ((h.0, left), right)

  node_constraints-met :
      (value : Variable → T) (m : Module) (secure : Partition) (g : CallGraph T) (f : FunctionRef)
      → MeetsAll value (create_constraints m secure g)
      → contains (keys g) f ≡ true
      → MeetsAll value (node_constraints m secure f)
  unfolding create_constraints keys contains
  node_constraints-met value m secure [] f h k = cc
  node_constraints-met value m secure ((a, n) ∷ g) f h k =
      let (here, rest) = MeetsAll-append value (node_constraints m secure a) _ h in
      let later = (MeetsAll-append value (edge_constraints n.out_edges) _ rest).1 in
      elim (Bool-cases (a == f)) [
        | inl e ↦ rw ((==_iff a f).0 e) at here
        | inr e ↦ node_constraints-met value m secure g f later (rw e at k)
      ]

  contains-chosen :
      (value : Variable → T) (g : CallGraph T) (acc : List FunctionRef) (f : FunctionRef)
      → contains (chosen s value g acc) f
        ≡ ((contains (keys g) f && s.eq (value (node_var f)) one) || contains acc f)
  unfolding chosen keys contains
  contains-chosen value [] acc f = refl
  contains-chosen value ((a, n) ∷ g) acc f = elim (Bool-cases (a == f)) [
    | inl e ↦
        let same : s.eq (value (node_var a)) one ≡ s.eq (value (node_var f)) one =
          ap (λ x. s.eq (value (node_var x)) one) ((==_iff a f).0 e) in
        ground (
          arith,
          same,
          contains-chosen value g acc f,
          contains-chosen value g (insert a acc) f,
          contains-insert a acc f,
        )
    | inr e ↦ ground (
      arith,
      contains-chosen value g acc f,
      contains-chosen value g (insert a acc) f,
      contains-insert a acc f,
    )
  ]

  run_ilp-solved :
      (solve : Solver T) (m : Module) (secure : Partition) (g : CallGraph T) (value : Variable → T)
      → solve (create_model s m secure g) ≡ some value
      → run_ilp s solve m secure g ≡ chosen s value g []
  unfolding run_ilp
  run_ilp-solved solve m secure g value solved = rw (solved, run_ilp) refl

  secure-node :
      (solve : Solver T) (value : Variable → T) (m : Module) (secure : Partition) (f : FunctionRef)
      → IsSound solve
      → MeetsAll value (node_constraints m secure f)
      → contains_function secure f ≡ true
      → s.eq (value (node_var f)) one ≡ true
  unfolding node_constraints
  secure-node solve value m secure f sound met inside =
      let (low, (high, _)) = rw inside at met in sound.one_exact (value (node_var f)) low high

  fixed-node :
      (solve : Solver T) (value : Variable → T) (m : Module) (secure : Partition) (f : FunctionRef)
      → IsSound solve
      → MeetsAll value (node_constraints m secure f)
      → contains_function secure f ≡ false
      → s.eq (value (node_var f)) one ≡ true
      → (m.is_declaration f || str_eq (m.name f) "main") ≡ false
  unfolding node_constraints
  fixed-node solve value m secure f sound met outside picked =
      elim (Bool-cases (m.is_declaration f || str_eq (m.name f) "main")) [
        | inl e ↦
            let (low, _) = rw e at (rw outside at met) in
            ground (arith, sound.one_positive (value (node_var f)) low)
        | inr e ↦ e
      ]

  picked-free :
      (solve : Solver T) (value : Variable → T) (m : Module) (secure : Partition) (g : CallGraph T)
      (f : FunctionRef)
      → IsSound solve
      → (contains (keys g) f ≡ true → MeetsAll value (node_constraints m secure f))
      → contains_function secure f ≡ false
      → (contains (keys g) f ≡ true) × (s.eq (value (node_var f)) one ≡ true)
      → (m.is_declaration f ≡ false) × (m.name f ≢ "main")
  picked-free solve value m secure g f sound met outside (known, one) =
      let fixed = fixed-node solve value m secure f sound (met known) outside one in
      (ground (arith, fixed), λ p. ground (arith, fixed, (eq_iff (m.name f) "main").1 p))

  -- With a solution that the solver is sound for, every secure function that has a node is among the
  -- functions that are moved to the secure partition.
  pub run_ilp_keeps :
      (solve : Solver T) (m : Module) (secure : Partition) (g : CallGraph T) (value : Variable → T)
      (f : FunctionRef)
      → IsSound solve
      → solve (create_model s m secure g) ≡ some value
      → contains (keys g) f ≡ true
      → contains_function secure f ≡ true
      → contains (run_ilp s solve m secure g) f ≡ true
  unfolding contains
  run_ilp_keeps solve m secure g value f sound solved known inside =
      let feasible = feasible-constraints solve m secure g value sound solved in
      let met = node_constraints-met value m secure g f feasible known in
      rw (run_ilp-solved solve m secure g value solved) (
        ground (
          arith,
          contains-chosen value g [] f,
          secure-node solve value m secure f sound met inside,
        ))

  -- With a solution that the solver is sound for, a function that is moved to the secure partition and
  -- was not secure has a node, is no declaration, and is not called `main`.
  pub run_ilp_eligible :
      (solve : Solver T) (m : Module) (secure : Partition) (g : CallGraph T) (value : Variable → T)
      (f : FunctionRef)
      → IsSound solve
      → solve (create_model s m secure g) ≡ some value
      → contains (run_ilp s solve m secure g) f ≡ true
      → contains_function secure f ≡ false
      → (contains (keys g) f ≡ true) × (m.is_declaration f ≡ false) × (m.name f ≢ "main")
  unfolding contains
  run_ilp_eligible solve m secure g value f sound solved picked outside =
      let feasible = feasible-constraints solve m secure g value sound solved in
      let met = node_constraints-met value m secure g f feasible in
      let same = run_ilp-solved solve m secure g value solved in
      let both = picks-both (contains-chosen value g [] f) (rw same at picked) in
      let (body, named) = picked-free solve value m secure g f sound met outside both in
      (both.0, body, named)
