-- ===== src/Prelude/Text/Equality.antt =====
-- Texts, their literals, and the test `a == b`.
use Prim.Native.Nat.{ℕ}
use Prim.Native.Char.{code}
use Prim.Native.String.{String}
use mathlib.Core.Path.{◌≡◌, refl, sym, ap₂, ◌∙◌}
use mathlib.Core.Logic.{◌↔◌, ◌⊎◌, inl, inr}
use mathlib.Core.Bool.{Bool, true, false, ◌&&◌, ◌||◌, false≢true}
use mathlib.Core.List.{List, [], ◌∷◌}
use native.Mathlib.Omega.{arith}
use opencode_go_cliproxyapi.Prelude.Tests.{◌==◌, ==_iff, and-true, Bool-cases}

abbrev pub Text : Type 0
Text = List ℕ

-- The bytes of an ASCII literal.
abbrev pub codes : String → Text
codes String.[] = []
codes (String.◌∷◌ c s) = code c ∷ codes s

unfoldable pub text_eq : Text → Text → Bool
text_eq [] [] = true
text_eq [] (y ∷ ys) = false
text_eq (x ∷ xs) [] = false
text_eq (x ∷ xs) (y ∷ ys) = (x == y) && text_eq xs ys

pub text_eq_refl : (a : Text) → text_eq a a ≡ true
unfolding text_eq
text_eq_refl [] = refl
text_eq_refl (x ∷ xs) = ground (arith, text_eq_refl xs)

pub text_eq_sound : (a b : Text) → text_eq a b ≡ true → a ≡ b
unfolding text_eq
text_eq_sound [] [] h = refl
text_eq_sound [] (y ∷ ys) h = absurd (false≢true h)
text_eq_sound (x ∷ xs) [] h = absurd (false≢true h)
text_eq_sound (x ∷ xs) (y ∷ ys) h =
    let parts = and-true (x == y) (text_eq xs ys) h in
    ap₂ (λ a b. a ∷ b) ((==_iff x y).0 parts.0) (text_eq_sound xs ys parts.1)

-- The form that `ground` is given at each pair of texts that is compared.
pub text_eq_iff : (a b : Text) → (text_eq a b ≡ true) ↔ (a ≡ b)
text_eq_iff a b = (text_eq_sound a b, λ e. rw e (text_eq_refl b))

pub text_eq-false : (a b : Text) → text_eq a b ≡ false → ¬ (a ≡ b)
text_eq-false a b h e = false≢true (sym h ∙ (text_eq_iff a b).1 e)

pub text_eq_of_ne : (a b : Text) → ¬ (a ≡ b) → text_eq a b ≡ false
text_eq_of_ne a b n = elim (Bool-cases (text_eq a b)) [
  | inl same ↦ absurd (n (text_eq_sound a b same))
  | inr other ↦ other
]

pub text_eq_comm : (a b : Text) → text_eq a b ≡ text_eq b a
unfolding text_eq
text_eq_comm [] [] = refl
text_eq_comm [] (y ∷ ys) = refl
text_eq_comm (x ∷ xs) [] = refl
text_eq_comm (x ∷ xs) (y ∷ ys) = ground (arith, text_eq_comm xs ys)

-- Two texts are equal or not.
pub Text-cases : (a b : Text) → (a ≡ b) ⊎ (¬ (a ≡ b))
Text-cases a b = elim (Bool-cases (text_eq a b)) [
  | inl same ↦ inl (text_eq_sound a b same)
  | inr other ↦ inr (text_eq-false a b other)
]

-- `slices.Contains`.
unfoldable pub mem_text : Text → List Text → Bool
mem_text t [] = false
mem_text t (x ∷ xs) = text_eq x t || mem_text t xs

-- No two elements are the same.
abbrev pub Distinct : List Text → Type 0
Distinct [] = Unit
Distinct (k ∷ ks) = (mem_text k ks ≡ false) × Distinct ks
