-- ===== src/Thinking/Effort.antt =====
-- `EffortFromBudget`, `BudgetFromEffort` and `ValidateEffort` of internal/thinking/thinking.go.
use opencode_go_cliproxyapi.Prelude.{
  Bool, Bool-cases, List, Option, [], and-true, false, if◌then◌else◌, inl, inr, refl, some, true,
  ◌&&◌, ◌∷◌, ◌≡◌,
}
use opencode_go_cliproxyapi.Prelude.Text.{Text, codes, mem_text, text_eq}
use opencode_go_cliproxyapi.Prelude.Int.{leb_ℤ, pos, ℤ}
use opencode_go_cliproxyapi.Thinking.{
  ThinkingSupport, allows_dynamic, allows_zero, budget_to_level, canonical_levels,
  clamp_to_supported, effort_from_budget, first_level, supported_levels,
}
use opencode_go_cliproxyapi.Thinking.Levels.{mem-supported_canonical, supported_levels-first}
use opencode_go_cliproxyapi.Thinking.Clamp.{IsNearest, clamp_to_supported-IsNearest}

IsCanonical-if :
    (b : Bool) (x y : Text)
    → mem_text x canonical_levels ≡ true
    → mem_text y canonical_levels ≡ true
    → mem_text (if b then x else y) canonical_levels ≡ true
IsCanonical-if true x y h k = h
IsCanonical-if false x y h k = k

pub budget_to_level-canonical : (b : ℤ) → mem_text (budget_to_level b) canonical_levels ≡ true
unfolding mem_text budget_to_level text_eq
budget_to_level-canonical b = IsCanonical-if (leb_ℤ b (pos 512)) _ _ refl (
    IsCanonical-if (leb_ℤ b (pos 1024)) _ _ refl (
      IsCanonical-if (leb_ℤ b (pos 8192)) _ _ refl
        (IsCanonical-if (leb_ℤ b (pos 24576)) _ _ refl refl)))

-- A canonical level is clamped to a nearest level that the model supports.
pub clamp_supported :
    (level : Text) (ts : Option ThinkingSupport)
    → mem_text level canonical_levels ≡ true
    → (r : Text) × (clamp_to_supported level (supported_levels ts) ≡ some r)
      × IsNearest level (supported_levels ts) r
clamp_supported level ts known =
    go (supported_levels ts) (supported_levels-first ts) (mem-supported_canonical ts)
  where
    go :
        (ls : List Text)
        → (l : Text) × (first_level ls ≡ some l) × (mem_text l ls ≡ true)
        → ((t : Text) → mem_text t ls ≡ true → mem_text t canonical_levels ≡ true)
        → (r : Text) × (clamp_to_supported level ls ≡ some r) × IsNearest level ls r
    go [] h k = cc (h.1)
    go (s ∷ ss) h k = clamp_to_supported-IsNearest level s ss known k

-- How `EffortFromBudget` answers: off, where a budget of at most 0 may switch thinking off; the
-- dynamic sentinel; the weakest supported level; or the level nearest to a positive budget's.
pub data AnswersBudget (b : ℤ) (ts : Option ThinkingSupport) (e : Text) : Type 0 where
  off :
      leb_ℤ b (pos 0) ≡ true
      → allows_zero ts ≡ true
      → mem_text e (supported_levels ts) ≡ true
      → e ≡ codes "none"
      → AnswersBudget b ts e
  dynamic :
      leb_ℤ b (pos 0) ≡ true
      → (allows_zero ts && mem_text (codes "none") (supported_levels ts)) ≡ false
      → allows_dynamic ts ≡ true
      → e ≡ codes "auto"
      → AnswersBudget b ts e
  weakest :
      leb_ℤ b (pos 0) ≡ true
      → (allows_zero ts && mem_text (codes "none") (supported_levels ts)) ≡ false
      → allows_dynamic ts ≡ false
      → first_level (supported_levels ts) ≡ some e
      → AnswersBudget b ts e
  nearest :
      leb_ℤ b (pos 0) ≡ false
      → IsNearest (budget_to_level b) (supported_levels ts) e
      → AnswersBudget b ts e

-- Whatever the budget and the model's capability, `EffortFromBudget` does not go out of range. For
-- a positive budget it returns the supported level nearest to the budget's standard level, the
-- weaker of two as near; otherwise "none" where that is supported and allowed, else "auto" where
-- the model is dynamic, else the weakest supported level.
pub effort_from_budget_total :
    (b : ℤ) (ts : Option ThinkingSupport)
    → (e : Text) × (effort_from_budget b ts ≡ some e) × AnswersBudget b ts e
unfolding effort_from_budget
effort_from_budget_total b ts = elim (Bool-cases (leb_ℤ b (pos 0))) [
  | inl low ↦ elim (Bool-cases (allows_zero ts && mem_text (codes "none") (supported_levels ts))) [
    | inl zero_ok ↦
        let (allowed, listed) = and-true (allows_zero ts) _ zero_ok in
        (codes "none", rw (low, zero_ok) refl, off low allowed listed refl)
    | inr not_zero ↦ elim (Bool-cases (allows_dynamic ts)) [
      | inl dyn ↦ (codes "auto", rw (low, not_zero, dyn) refl, dynamic low not_zero dyn refl)
      | inr static ↦
          let (l, first, listed) = supported_levels-first ts in
          (l, rw (low, not_zero, static) first, weakest low not_zero static first)
    ]
  ]
  | inr high ↦
      let (r, e, n) = clamp_supported (budget_to_level b) ts (budget_to_level-canonical b) in
      (r, rw high e, nearest high n)
]
