-- ===== src/CallGraph/Calls.antt =====
-- What collectFunctionCallSiteData of lib/Analysis/CallGraph.cpp counts.
use program_partitioning_for.Base.{
  ℕ, suc, ◌+◌, ◌≤◌, ◌≡◌, refl, ap, ◌∙◌, Bool, true, false, List, [], ◌∷◌, Option, none, some, arith,
  find, put, find-put, keys, keys-put, contains, ◌==◌, if◌then◌else◌, Bool-cases, inl, inr, ==_iff,
  any,
}
use program_partitioning_for.Base.Int.{ℤ, pos, ◌+ℤ◌}
use program_partitioning_for.Llvm.{FunctionRef, BlockRef, CallSite}
use program_partitioning_for.Numbers.{Scalar, int_scalar, is_pos_infinity, increment}
use program_partitioning_for.CallGraph.Assign.{add_call_site, add_call_sites, loop_cost}

-- The number of call sites in a function.
abbrev pub sites_in : FunctionRef → List CallSite → ℕ
sites_in c [] = 0
sites_in c (site ∷ sites) = if site.caller == c then suc (sites_in c sites) else sites_in c sites

module _ (s : Scalar) (of_nat : ℕ → s.T) (divide : s.T → s.T → s.T) where
  keys-add_call_site :
      (loops : FunctionRef → Option (BlockRef → Bool)) (site : CallSite)
      (costs : List (FunctionRef × s.T)) (c : FunctionRef)
      → contains (keys (add_call_site s of_nat divide loops site costs)) c
        ≡ (if site.caller == c then true else contains (keys costs) c)
  unfolding add_call_site
  keys-add_call_site loops site costs c =
      let step = λ (v : s.T). keys-put site.caller v costs c in
      ground (
        arith,
        step (of_nat loop_cost),
        step (elim (find site.caller costs) [ none ↦ s.zero | some v ↦ v ]),
        step (increment s (elim (find site.caller costs) [ none ↦ s.zero | some v ↦ v ])),
      )

  -- The callers that the call-site data of a function lists are those it listed before and exactly the
  -- functions that hold one of the call sites.
  pub keys-add_call_sites :
      (loops : FunctionRef → Option (BlockRef → Bool)) (sites : List CallSite)
      (costs : List (FunctionRef × s.T)) (c : FunctionRef)
      → contains (keys (add_call_sites s of_nat divide loops sites costs)) c ≡ (
          if any (λ (site : CallSite). site.caller == c) sites
          then true
          else contains (keys costs) c)
  unfolding add_call_sites any
  keys-add_call_sites loops [] costs c = refl
  keys-add_call_sites loops (site ∷ sites) costs c = ground (
    arith,
    keys-add_call_sites loops sites (add_call_site s of_nat divide loops site costs) c,
    keys-add_call_site loops site costs c,
  )

-- The entry of a caller, which is 0 where there is none.
abbrev pub calls_from : FunctionRef → List (FunctionRef × ℤ) → ℤ
calls_from c costs = elim (find c costs) [ none ↦ pos 0 | some v ↦ v ]

calls_from-put :
    (c d : FunctionRef) (v : ℤ) (costs : List (FunctionRef × ℤ))
    → calls_from d (put c v costs) ≡ (if c == d then v else calls_from d costs)
calls_from-put c d v costs = ground (arith, find-put c v costs d)

-- No block is in a loop, by the loop information of any function.
abbrev pub HasNoLoops : (FunctionRef → Option (BlockRef → Bool)) → Type 0
HasNoLoops loops =
    (f : FunctionRef) (block : BlockRef)
    → (elim (loops f) as (λ x. Bool) [ none ↦ false | some has_loop ↦ has_loop block ]) ≡ false

module _ (of_nat : ℕ → ℤ) (divide : ℤ → ℤ → ℤ) where
  add_call_site-straight :
      (loops : FunctionRef → Option (BlockRef → Bool)) (site : CallSite)
      (costs : List (FunctionRef × ℤ)) (k : ℕ)
      → HasNoLoops loops
      → calls_from site.caller costs ≡ pos k
      → suc k ≤ 100000
      → add_call_site int_scalar of_nat divide loops site costs
        ≡ put site.caller (pos (suc k)) costs
  unfolding add_call_site increment is_pos_infinity ◌+ℤ◌
  add_call_site-straight loops site costs k straight h b =
      rw (straight site.caller site.parent, add_call_site) (rw (h, add_call_site) (ground arith))

  add_call_site-count :
      (loops : FunctionRef → Option (BlockRef → Bool)) (site : CallSite)
      (costs : List (FunctionRef × ℤ)) (c : FunctionRef) (k : ℕ)
      → HasNoLoops loops
      → calls_from c costs ≡ pos k
      → ((site.caller == c) ≡ true → suc k ≤ 100000)
      → calls_from c (add_call_site int_scalar of_nat divide loops site costs)
        ≡ pos (if site.caller == c then suc k else k)
  unfolding add_call_site
  add_call_site-count loops site costs c k straight h b = elim (Bool-cases (site.caller == c)) [
    | inl e ↦
        let own : calls_from site.caller costs ≡ pos k =
          ap (λ f. calls_from f costs) ((==_iff site.caller c).0 e) ∙ h in
        rw (add_call_site-straight loops site costs k straight own (b e))
          (ground (arith, calls_from-put site.caller c (pos (suc k)) costs))
    | inr e ↦
        let step = λ (v : ℤ). calls_from-put site.caller c v costs in
        let old = calls_from site.caller costs in
        ground (arith, step (of_nat loop_cost), step old, step (increment int_scalar old))
  ]

  add_call_sites-from :
      (loops : FunctionRef → Option (BlockRef → Bool)) (sites : List CallSite)
      (costs : List (FunctionRef × ℤ)) (c : FunctionRef) (k : ℕ)
      → HasNoLoops loops
      → calls_from c costs ≡ pos k
      → k + sites_in c sites ≤ 100000
      → calls_from c (add_call_sites int_scalar of_nat divide loops sites costs)
        ≡ pos (k + sites_in c sites)
  unfolding add_call_sites
  add_call_sites-from loops [] costs c k straight h b = ground (arith, h)
  add_call_sites-from loops (site ∷ sites) costs c k straight h b =
      let costs' = add_call_site int_scalar of_nat divide loops site costs in
      elim (Bool-cases (site.caller == c)) [
        | inl e ↦
            let now : calls_from c costs' ≡ pos (suc k) = ground (
              arith,
              add_call_site-count loops site costs c k straight h (λ q. ground (arith, b, e)),
              e,
            ) in
            let later =
              add_call_sites-from loops sites costs' c (suc k) straight now
                (ground (arith, b, e)) in
            ground (arith, later, e)
        | inr e ↦
            let now : calls_from c costs' ≡ pos k = ground (
              arith,
              add_call_site-count loops site costs c k straight h (λ q. ground (arith, q, e)),
              e,
            ) in
            let later =
              add_call_sites-from loops sites costs' c k straight now (ground (arith, b, e)) in
            ground (arith, later, e)
      ]

  -- Where no block is in a loop, and up to 100000 calls, the entry of a caller in the call-site data of a
  -- function is the number of the function's call sites that it holds.
  pub add_call_sites-count :
      (loops : FunctionRef → Option (BlockRef → Bool)) (sites : List CallSite) (c : FunctionRef)
      → HasNoLoops loops
      → sites_in c sites ≤ 100000
      → calls_from c (add_call_sites int_scalar of_nat divide loops sites [])
        ≡ pos (sites_in c sites)
  unfolding find
  add_call_sites-count loops sites c straight b =
      ground (arith, add_call_sites-from loops sites [] c 0 straight refl (omega arith))
