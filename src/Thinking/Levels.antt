-- ===== src/Thinking/Levels.antt =====
-- `SupportedLevels` of internal/thinking/thinking.go: the levels that it returns, and positions.
use opencode_go_cliproxyapi.Prelude.{
  Bool-cases, IsSubsequence, List, Option, [], arith, done, inl, inr, keep, length, none, refl,
  skip, some, suc, true, zero, ℕ, ◌&&◌, ◌<◌, ◌∷◌, ◌≡◌, ◌≤◌,
}
use opencode_go_cliproxyapi.Prelude.Text.{
  Text, Text-cases, codes, mem_text, text_eq, text_eq_of_ne, text_eq_refl,
}
use opencode_go_cliproxyapi.Thinking.{
  ThinkingSupport, at_position, canonical_levels, declared_levels, declares, default_levels,
  first_level, or_default_levels, position, supported_levels,
}

declared_levels-IsSubsequence :
    (ls canons : List Text) → IsSubsequence (declared_levels ls canons) canons
unfolding declared_levels
declared_levels-IsSubsequence ls [] = done
declared_levels-IsSubsequence ls (c ∷ cs) = elim (Bool-cases (declares ls c)) [
  | inl e ↦ rw e (keep c (declared_levels-IsSubsequence ls cs))
  | inr e ↦ rw e (skip c (declared_levels-IsSubsequence ls cs))
]

mem-subsequence :
    {xs ys : List Text} (t : Text)
    → IsSubsequence xs ys
    → mem_text t xs ≡ true
    → mem_text t ys ≡ true
unfolding mem_text
mem-subsequence t done h = h
mem-subsequence t (keep u s) h = ground (arith, mem-subsequence t s)
mem-subsequence t (skip u s) h = ground (arith, mem-subsequence t s)

default-IsSubsequence : IsSubsequence default_levels canonical_levels
default-IsSubsequence = search (done, keep, skip) depth 10

or_default_levels-IsSubsequence :
    (xs : List Text)
    → IsSubsequence xs canonical_levels
    → IsSubsequence (or_default_levels xs) canonical_levels
or_default_levels-IsSubsequence [] h = default-IsSubsequence
or_default_levels-IsSubsequence (x ∷ xs) h = h

-- The supported levels are canonical levels, in canonical order and without repetition.
pub supported_levels-IsSubsequence :
    (ts : Option ThinkingSupport) → IsSubsequence (supported_levels ts) canonical_levels
unfolding supported_levels
supported_levels-IsSubsequence none = default-IsSubsequence
supported_levels-IsSubsequence (some ts) =
    or_default_levels-IsSubsequence _ (declared_levels-IsSubsequence ts.levels canonical_levels)

pub mem-supported_canonical :
    (ts : Option ThinkingSupport) (t : Text)
    → mem_text t (supported_levels ts) ≡ true
    → mem_text t canonical_levels ≡ true
mem-supported_canonical ts t h = mem-subsequence t (supported_levels-IsSubsequence ts) h

or_default_levels-first :
    (xs : List Text)
    → (l : Text) × (first_level (or_default_levels xs) ≡ some l)
      × (mem_text l (or_default_levels xs) ≡ true)
unfolding mem_text text_eq
or_default_levels-first [] = (codes "low", refl, refl)
or_default_levels-first (x ∷ xs) = (x, refl, ground (arith, text_eq_refl x))

-- There is a first supported level.
pub supported_levels-first :
    (ts : Option ThinkingSupport)
    → (l : Text) × (first_level (supported_levels ts) ≡ some l)
      × (mem_text l (supported_levels ts) ≡ true)
unfolding supported_levels
supported_levels-first none = or_default_levels-first []
supported_levels-first (some ts) = or_default_levels-first _

pub mem-declared_levels :
    (ls canons : List Text) (t : Text)
    → mem_text t (declared_levels ls canons) ≡ (mem_text t canons && declares ls t)
unfolding mem_text declared_levels
mem-declared_levels ls [] t = refl
mem-declared_levels ls (c ∷ cs) t = elim (Text-cases c t) [
  | inl e ↦ rw e (ground (arith, text_eq_refl t, mem-declared_levels ls cs t))
  | inr n ↦ ground (arith, text_eq_of_ne c t n, mem-declared_levels ls cs t)
]

pub position_pos : (t : Text) (xs : List Text) → mem_text t xs ≡ true → 0 < position t xs
unfolding mem_text position
position_pos t [] h = cc
position_pos t (x ∷ xs) h = ground (arith, position_pos t xs)

pub position-le : (t : Text) (xs : List Text) → position t xs ≤ length xs
unfolding position
position-le t [] = omega arith
position-le t (x ∷ xs) = ground (arith, position-le t xs)

at_position-suc :
    (x : Text) (xs : List Text) (n : ℕ) → 0 < n → at_position (suc n) (x ∷ xs) ≡ at_position n xs
unfolding at_position
at_position-suc x xs zero h = elim h [ ]
at_position-suc x xs (suc n) h = refl

pub at_position-position :
    (t : Text) (xs : List Text) → mem_text t xs ≡ true → at_position (position t xs) xs ≡ some t
unfolding mem_text position at_position
at_position-position t [] h = cc
at_position-position t (x ∷ xs) h = elim (Text-cases x t) [
  | inl e ↦ rw e (rw (text_eq_refl t) refl)
  | inr n ↦
      let later : mem_text t xs ≡ true = ground (arith, text_eq_of_ne x t n) in
      let found = position_pos t xs later in
      ground (
        arith,
        text_eq_of_ne x t n,
        found,
        at_position-suc x xs (position t xs) found,
        at_position-position t xs later,
      )
]
