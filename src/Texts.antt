-- ===== src/Texts.antt =====
-- std::string for the code generators: texts, std::to_string, and maps from texts.
use Prim.Native.Char.{Char, code}
use Prim.Native.String.{◌++◌ as ◌<>◌}
use Prim.Native.String as S
use text.Mathlib.Text.{◌==◌ as str_eq}
use text.Mathlib.TextEquality.{eq_iff}
use text.Mathlib.TextLemmas.{append_assoc, append-nil, nil-append, cons-append}
use program_partitioning_for.Base.{
  ℕ, zero, suc, ◌+◌, ◌-◌, ◌*◌, ◌/◌, ◌≤◌, ◌<◌, ◌≡◌, refl, sym, ap, ◌∙◌, Bool, true, false, ◌||◌,
  List, [], ◌∷◌, ◌++◌, Option, none, some, arith, if◌then◌else◌, ltb, Bool-cases, inl, inr,
}
pub use Prim.Native.String.{String, ◌++◌ as ◌<>◌}
pub use text.Mathlib.Text.{◌==◌ as str_eq}

-- The digit of a number below 10.
unfoldable digit : ℕ → String
digit zero = "0"
digit (suc zero) = "1"
digit (suc (suc zero)) = "2"
digit (suc (suc (suc zero))) = "3"
digit (suc (suc (suc (suc zero)))) = "4"
digit (suc (suc (suc (suc (suc zero))))) = "5"
digit (suc (suc (suc (suc (suc (suc zero)))))) = "6"
digit (suc (suc (suc (suc (suc (suc (suc zero))))))) = "7"
digit (suc (suc (suc (suc (suc (suc (suc (suc zero)))))))) = "8"
digit (suc (suc (suc (suc (suc (suc (suc (suc (suc n))))))))) = "9"

to_digits : ℕ → ℕ → String
unfolding digit
to_digits zero n = digit n
to_digits (suc fuel) n =
    let rest = to_digits fuel (n / 10) in
    if ltb n 10 then digit n else rest <> digit (n - 10 * (n / 10))

-- std::to_string of a number that is not negative.
unfoldable pub to_string : ℕ → String
unfolding to_digits
to_string n = to_digits n n

-- The number that a text of digits stands for, after the number `seen`.
abbrev read : ℕ → String → ℕ
read seen S.[] = seen
read seen (S.◌∷◌ c s) = read (10 * seen + (code c - 48)) s

read-append : (seen : ℕ) (s t : String) → read seen (s <> t) ≡ read (read seen s) t
read-append seen S.[] t = ap (read seen) (nil-append t)
read-append seen (S.◌∷◌ c s) t =
    ap (read seen) (cons-append c s t) ∙ read-append (10 * seen + (code c - 48)) s t

read-digit : (seen n : ℕ) → n < 10 → read seen (digit n) ≡ 10 * seen + n
unfolding digit
read-digit seen zero h = omega arith
read-digit seen (suc zero) h = omega arith
read-digit seen (suc (suc zero)) h = omega arith
read-digit seen (suc (suc (suc zero))) h = omega arith
read-digit seen (suc (suc (suc (suc zero)))) h = omega arith
read-digit seen (suc (suc (suc (suc (suc zero))))) h = omega arith
read-digit seen (suc (suc (suc (suc (suc (suc zero)))))) h = omega arith
read-digit seen (suc (suc (suc (suc (suc (suc (suc zero))))))) h = omega arith
read-digit seen (suc (suc (suc (suc (suc (suc (suc (suc zero)))))))) h = omega arith
read-digit seen (suc (suc (suc (suc (suc (suc (suc (suc (suc n))))))))) h = omega arith

read-to_digits : (fuel n : ℕ) → n ≤ fuel → read 0 (to_digits fuel n) ≡ n
unfolding to_digits
read-to_digits zero n h = read-digit 0 n (omega arith) ∙ omega arith
read-to_digits (suc fuel) n h = elim (Bool-cases (ltb n 10)) [
  | inl e ↦ rw (e, to_digits) (read-digit 0 n (ground (arith, e)) ∙ omega arith)
  | inr e ↦
      rw (e, to_digits)
        (read-append 0 (to_digits fuel (n / 10)) (digit (n - 10 * (n / 10)))
          ∙ ap (λ k. read k (digit (n - 10 * (n / 10))))
              (read-to_digits fuel (n / 10) (ground (arith, e)))
          ∙ read-digit (n / 10) (n - 10 * (n / 10)) (omega arith)
          ∙ omega arith)
]

-- Numbers with the same text are the same.
pub to_string-injective : (m n : ℕ) → to_string m ≡ to_string n → m ≡ n
unfolding to_string
to_string-injective m n e =
    sym (read-to_digits m m (omega arith)) ∙ ap (read 0) e ∙ read-to_digits n n (omega arith)

-- Two texts are the same or not.
pub str_eq-true : (s t : String) → str_eq s t ≡ true → s ≡ t
str_eq-true s t h = (eq_iff s t).0 h

pub str_eq_refl : (s : String) → str_eq s s ≡ true
str_eq_refl s = (eq_iff s s).1 refl

-- Without the last character: substr(0, size() - 1), where that is one byte.
unfoldable pub drop_last : String → String
drop_last S.[] = ""
drop_last (S.◌∷◌ c S.[]) = ""
drop_last (S.◌∷◌ c (S.◌∷◌ d s)) = S.◌∷◌ c (drop_last (S.◌∷◌ d s))

pub drop_last-append : (s : String) (c : Char) → drop_last (s <> S.◌∷◌ c S.[]) ≡ s
unfolding drop_last
drop_last-append S.[] c = ap drop_last (nil-append (S.◌∷◌ c S.[]))
drop_last-append (S.◌∷◌ b S.[]) c =
    ap drop_last (cons-append b S.[] (S.◌∷◌ c S.[]) ∙ ap (S.◌∷◌ b) (nil-append (S.◌∷◌ c S.[])))
drop_last-append (S.◌∷◌ b (S.◌∷◌ d s)) c =
    ap drop_last (cons-append b (S.◌∷◌ d s) (S.◌∷◌ c S.[]))
    ∙ ap (λ t. drop_last (S.◌∷◌ b t)) (cons-append d s (S.◌∷◌ c S.[]))
    ∙ ap (S.◌∷◌ b)
        (ap drop_last (sym (cons-append d s (S.◌∷◌ c S.[]))) ∙ drop_last-append (S.◌∷◌ d s) c)

-- A vector of texts.
unfoldable pub contains_text : List String → String → Bool
contains_text [] s = false
contains_text (t ∷ ts) s = str_eq t s || contains_text ts s

-- No text stands twice.
abbrev pub IsUniqueText : List String → Type 0
IsUniqueText [] = Unit {0}
IsUniqueText (t ∷ ts) = (contains_text ts t ≡ false) × IsUniqueText ts

-- A map from texts; std::unordered_map::insert keeps an entry that is there.
module _ {ℓ} {V : Type ℓ} where
  unfoldable pub find_text : String → List (String × V) → Option V
  find_text k [] = none
  find_text k ((j, v) ∷ m) = if str_eq j k then some v else find_text k m

  unfoldable pub emplace_text : String → V → List (String × V) → List (String × V)
  unfolding find_text
  emplace_text k v m = elim (find_text k m) [ none ↦ m ++ (k, v) ∷ [] | some w ↦ m ]

pub append_empty : (s : String) → s <> "" ≡ s
append_empty s = append-nil s

pub append_assoc_lem : (s t u : String) → (s <> t) <> u ≡ s <> (t <> u)
append_assoc_lem s t u = append_assoc s t u

pub empty_append : (s : String) → "" <> s ≡ s
empty_append s = nil-append s
