-- ===== src/SgxCodeGenerator/Numbering.antt =====
-- The numbers that generateInterfaceSelectors gives to the functions of the enclave.
use mathlib.Core.List.{append-nil, append_assoc}
use text.Mathlib.TextLemmas.{append_cancel_left}
use program_partitioning_for.Base.{
  ℕ, zero, suc, ◌+◌, ◌<◌, ◌≡◌, ◌⊎◌, inl, inr, refl, ap, sym, subst, ◌∙◌, true, false, List, [], ◌∷◌,
  ◌++◌, map, none, some, arith, length, Bool-cases,
}
use program_partitioning_for.Texts.{
  String, ◌<>◌, str_eq, str_eq-true, str_eq_refl, contains_text, IsUniqueText, to_string,
  to_string-injective, find_text, emplace_text,
}
use program_partitioning_for.CodeGen.{CppVariable, Function}
use program_partitioning_for.SgxCodeGenerator.Assignments.{map-push}
use program_partitioning_for.SgxCodeGenerator.Selectors.{
  FunctionSelector, selector_value_text, select_each, ecall_selectors, selector_globals,
  abort_global,
}

-- The texts of the values from i on, n of them.
unfoldable pub numbered : ℕ → ℕ → List String
unfolding selector_value_text
numbered i zero = []
numbered i (suc n) = selector_value_text i ∷ numbered (suc i) n

abbrev pub function_names : List Function → List String
function_names fs = map (λ (f : Function). f.name) fs

selector_value_text-injective :
    (i j : ℕ) → str_eq (selector_value_text i) (selector_value_text j) ≡ true → i ≡ j
unfolding selector_value_text
selector_value_text-injective i j h = to_string-injective i j (
    append_cancel_left " + " (to_string i) (to_string j) (
      append_cancel_left "kSelectorUser" (" + " <> to_string i) (" + " <> to_string j)
        (str_eq-true _ _ h)))

-- A smaller number is not among them.
contains-numbered :
    (i n k : ℕ) → k < i → contains_text (numbered i n) (selector_value_text k) ≡ false
unfolding numbered contains_text
contains-numbered i zero k h = refl
contains-numbered i (suc n) k h =
    elim (Bool-cases (str_eq (selector_value_text i) (selector_value_text k))) [
      | inl e ↦ ground (arith, h, selector_value_text-injective i k e)
      | inr e ↦ ground (arith, e, contains-numbered (suc i) n k (omega arith))
    ]

numbered-IsUniqueText : (i n : ℕ) → IsUniqueText (numbered i n)
unfolding numbered
numbered-IsUniqueText i zero = tt
numbered-IsUniqueText i (suc n) =
    (contains-numbered (suc i) n i (omega arith), numbered-IsUniqueText (suc i) n)

zero_plus : (i : ℕ) → zero + i ≡ i
zero_plus i = omega arith

numbered-push : (i n : ℕ) → numbered i n ++ selector_value_text (n + i) ∷ [] ≡ numbered i (suc n)
unfolding numbered
numbered-push i zero = ap (λ k. selector_value_text k ∷ []) (zero_plus i)
numbered-push i (suc n) = ap (◌∷◌ (selector_value_text i)) (
    ap (λ k. numbered (suc i) n ++ selector_value_text k ∷ []) {x = suc n + i} {y = n + suc i}
      (omega arith)
    ∙ numbered-push (suc i) n)

-- The entries where all names are different.
unfoldable pub entries : String → ℕ → List Function → List (String × FunctionSelector)
unfolding selector_value_text
entries suffix i [] = []
entries suffix i (f ∷ fs) =
    (
      f.name,
      record {
        function_name = f.name;
        selector_name = "k" <> f.name <> suffix;
        selector_value = selector_value_text i;
      },
    )
    ∷ entries suffix (suc i) fs

find_text-push :
    (k j : String) (s : FunctionSelector) (m : List (String × FunctionSelector))
    → find_text k m ≡ none
    → str_eq j k ≡ false
    → find_text k (m ++ (j, s) ∷ []) ≡ none
unfolding find_text
find_text-push k j s [] h e = rw e refl
find_text-push k j s ((i, r) ∷ m) h e = elim (Bool-cases (str_eq i k)) [
  | inl c ↦ ground (arith, rw c at h)
  | inr c ↦ rw c (find_text-push k j s m (rw c at h) e)
]

abbrev AllFresh : List Function → List (String × FunctionSelector) → Type 0
AllFresh [] m = Unit {0}
AllFresh (f ∷ fs) m = (find_text f.name m ≡ none) × AllFresh fs m

AllFresh-push :
    (fs : List Function) (x : String) (s : FunctionSelector) (m : List (String × FunctionSelector))
    → AllFresh fs m
    → contains_text (function_names fs) x ≡ false
    → AllFresh fs (m ++ (x, s) ∷ [])
unfolding contains_text
AllFresh-push [] x s m h c = tt
AllFresh-push (f ∷ fs) x s m h c = (
  find_text-push f.name x s m h.0 (differs (Bool-cases (str_eq x f.name))),
  AllFresh-push fs x s m h.1 (ground (arith, c)),
)
  where
    differs : ((str_eq x f.name ≡ true) ⊎ (str_eq x f.name ≡ false)) → str_eq x f.name ≡ false
    differs (inl e) = ground (arith, c, str_eq-true x f.name e, str_eq_refl x)
    differs (inr e) = e

emplace_text-fresh :
    (k : String) (s : FunctionSelector) (m : List (String × FunctionSelector))
    → find_text k m ≡ none
    → emplace_text k s m ≡ m ++ (k, s) ∷ []
unfolding emplace_text
emplace_text-fresh k s m h = rw (h, emplace_text) refl

emplace_text-found :
    (k : String) (s r : FunctionSelector) (m : List (String × FunctionSelector))
    → find_text k m ≡ some r
    → emplace_text k s m ≡ m
unfolding emplace_text
emplace_text-found k s r m h = rw (h, emplace_text) refl

find_text-head :
    (k j : String) (s : FunctionSelector) (m : List (String × FunctionSelector))
    → str_eq j k ≡ true
    → find_text k ((j, s) ∷ m) ≡ some s
unfolding find_text
find_text-head k j s m e = rw e refl

find_text-tail :
    (k j : String) (s : FunctionSelector) (m : List (String × FunctionSelector))
    → str_eq j k ≡ false
    → find_text k ((j, s) ∷ m) ≡ find_text k m
unfolding find_text
find_text-tail k j s m e = rw e refl

pub select_each-entries :
    (suffix : String) (i : ℕ) (fs : List Function) (m : List (String × FunctionSelector))
    → IsUniqueText (function_names fs)
    → AllFresh fs m
    → select_each suffix i fs m ≡ m ++ entries suffix i fs
unfolding select_each entries
select_each-entries suffix i [] m u h = sym (append-nil m)
select_each-entries suffix i (f ∷ fs) m u h =
    ap (select_each suffix (suc i) fs) (emplace_text-fresh f.name _ m h.0)
    ∙ select_each-entries suffix (suc i) fs _ u.1 (AllFresh-push fs f.name _ m h.1 u.0)
    ∙ append_assoc m (_ ∷ []) (entries suffix (suc i) fs)

pub AllFresh-empty : (fs : List Function) → AllFresh fs []
unfolding find_text
AllFresh-empty [] = tt
AllFresh-empty (f ∷ fs) = (refl, AllFresh-empty fs)

entries-values :
    (suffix : String) (i : ℕ) (fs : List Function)
    → map (λ (v : CppVariable × String). v.1) (selector_globals (entries suffix i fs))
      ≡ numbered i (length fs)
unfolding entries selector_globals numbered
entries-values suffix i [] = refl
entries-values suffix i (f ∷ fs) = cc (entries-values suffix (suc i) fs)

length-entries :
    (suffix : String) (i : ℕ) (fs : List Function) → length (entries suffix i fs) ≡ length fs
unfolding entries
length-entries suffix i [] = refl
length-entries suffix i (f ∷ fs) = ap suc (length-entries suffix (suc i) fs)

-- The values of the selectors of the enclave, the one for aborting at the end.
abbrev pub values_of : List (String × FunctionSelector) → List String
values_of m = map (λ (v : CppVariable × String). v.1) (selector_globals m ++ abort_global m ∷ [])

values_of-entries :
    (fs : List Function) → values_of (entries "EnclaveSelector" 1 fs) ≡ numbered 1 (suc (length fs))
unfolding abort_global
values_of-entries fs =
    let made = entries "EnclaveSelector" 1 fs in
    map-push (λ (v : CppVariable × String). v.1) (selector_globals made) (abort_global made)
    ∙ ap (λ xs. xs ++ selector_value_text (length made + 1) ∷ [])
        (entries-values "EnclaveSelector" 1 fs)
    ∙ ap (λ n. numbered 1 (length fs) ++ selector_value_text (n + 1) ∷ [])
        (length-entries "EnclaveSelector" 1 fs)
    ∙ numbered-push 1 (length fs)

-- Functions of the enclave with different names get the numbers from 1 on, one each and in their order,
-- and aborting the enclave gets the next one; so no two selectors of the enclave have one value.
pub ecall_selectors_correct :
    (fs : List Function)
    → IsUniqueText (function_names fs)
    → (values_of (ecall_selectors fs) ≡ numbered 1 (suc (length fs)))
      × IsUniqueText (values_of (ecall_selectors fs))
unfolding ecall_selectors
ecall_selectors_correct fs u =
    let made = select_each-entries "EnclaveSelector" 1 fs [] u (AllFresh-empty fs) in
    let values : values_of (ecall_selectors fs) ≡ numbered 1 (suc (length fs)) =
      ap values_of made ∙ values_of-entries fs in
    (values, subst IsUniqueText (sym values) (numbered-IsUniqueText 1 (suc (length fs))))

the_selector : ℕ → Function → FunctionSelector
the_selector i f = record {
  function_name = f.name;
  selector_name = "k" <> f.name <> "EnclaveSelector";
  selector_value = selector_value_text i;
}

three-selectors :
    (f g h : Function)
    → str_eq f.name g.name ≡ true
    → str_eq f.name h.name ≡ false
    → ecall_selectors (f ∷ g ∷ h ∷ [])
      ≡ (f.name, the_selector 1 f) ∷ (h.name, the_selector 3 h) ∷ []
unfolding the_selector ecall_selectors select_each emplace_text find_text
three-selectors f g h same other =
    let first = (f.name, the_selector 1 f) ∷ [] in
    ap (emplace_text h.name (the_selector 3 h)) (
      emplace_text-found g.name (the_selector 2 g) (the_selector 1 f) first
        (find_text-head g.name f.name (the_selector 1 f) [] same))
    ∙ emplace_text-fresh h.name (the_selector 3 h) first
        (find_text-tail h.name f.name (the_selector 1 f) [] other)

-- A function whose name stands already among those before it gets no selector, but its number is used:
-- the next function then has the number with which the enclave is aborted.
pub select_each_collides :
    (f g h : Function)
    → str_eq f.name g.name ≡ true
    → str_eq f.name h.name ≡ false
    → (s : FunctionSelector) × (find_text h.name (ecall_selectors (f ∷ g ∷ h ∷ [])) ≡ some s)
      × (s.selector_value ≡ (abort_global (ecall_selectors (f ∷ g ∷ h ∷ []))).1)
unfolding the_selector abort_global find_text
select_each_collides f g h same other = rw (three-selectors f g h same other) (
  the_selector 3 h,
  find_text-tail h.name f.name (the_selector 1 f) ((h.name, the_selector 3 h) ∷ []) other
      ∙ find_text-head h.name h.name (the_selector 3 h) [] (str_eq_refl h.name),
  refl,
)
