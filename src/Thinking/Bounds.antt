-- ===== src/Thinking/Bounds.antt =====
-- The range of a budget, and the way back from a budget to its level.
use opencode_go_cliproxyapi.Prelude.{
  Bool-cases, arith, if◌then◌else◌, inl, inr, ltb, refl, some, subst, true, ℕ, ◌<◌, ◌≡◌, ◌≤◌, ◌⊎◌,
}
use opencode_go_cliproxyapi.Prelude.Int.{leb_ℤ, negsuc, pos, ℤ}
use opencode_go_cliproxyapi.Thinking.{
  Budget, ThinkingSupport, budget, budget_from_effort, budget_of, budget_to_level, clamp_budget,
  clamp_to_supported, effort_from_budget, supported_levels,
}
use opencode_go_cliproxyapi.Prelude.Text.{Text, codes, mem_text, text_eq, to_lower, trim_space}
use opencode_go_cliproxyapi.Prelude.Dict.{lookup}
use opencode_go_cliproxyapi.Thinking.Budgets.{
  AnswersEffort, budget_from_effort_total, dynamic, minimal_budget, nearest_medium, off, own_budget,
  refused, weakest,
}

-- A budget between two bounds.
pub data IsBetween (m n : ℕ) : ℤ → Type 0 where
  between : (b : ℕ) → m ≤ b → b ≤ n → IsBetween m n (pos b)

module _ (m n : ℕ) (ts : ThinkingSupport) (hmin : ts.min ≡ pos m) (hmax : ts.max ≡ pos n)
    (hm : 0 < m) (hn : m ≤ n) where
  clamp_budget-eq :
      (k : ℕ)
      → clamp_budget (some ts) k ≡ (if ltb k m then pos m else if ltb n k then pos n else pos k)
  unfolding clamp_budget
  clamp_budget-eq k = ground arith

  clamp_budget-IsBetween : (k : ℕ) → IsBetween m n (clamp_budget (some ts) k)
  clamp_budget-IsBetween k = rw clamp_budget-eq (elim (Bool-cases (ltb k m)) [
    | inl low ↦ rw low (between m (omega arith) hn)
    | inr high ↦ elim (Bool-cases (ltb n k)) [
      | inl over ↦ rw (high, over) (between n hn (omega arith))
      | inr fits ↦ rw (high, fits) (between k (ground arith) (ground arith))
    ]
  ])

  budget_of-IsBetween : (l : Text) → IsBetween m n (budget_of (some ts) l)
  unfolding budget_of
  budget_of-IsBetween l = clamp_budget-IsBetween _

  -- Where the model declares positive bounds in order, a budget that `BudgetFromEffort` gives lies
  -- between them; but for "auto" it may be the dynamic sentinel -1, where the model is dynamic, and
  -- for "none" it is 0 where the model may switch thinking off.
  pub budget_from_effort-IsBetween :
      (effort : Text) (b : ℤ)
      → budget_from_effort effort (some ts) ≡ budget b
      → IsBetween m n b
        ⊎ ((b ≡ negsuc 0)
            × (to_lower (trim_space effort) ≡ codes "auto")
            × (ts.dynamic_allowed ≡ true))
        ⊎ ((b ≡ pos 0) × (to_lower (trim_space effort) ≡ codes "none") × (ts.zero_allowed ≡ true))
  budget_from_effort-IsBetween effort b h = sort (budget_from_effort_total effort (some ts)) h
    where
      sort :
          {e : Text} {r : Budget}
          → AnswersEffort e (some ts) r
          → r ≡ budget b
          → IsBetween m n b
            ⊎ ((b ≡ negsuc 0) × (e ≡ codes "auto") × (ts.dynamic_allowed ≡ true))
            ⊎ ((b ≡ pos 0) × (e ≡ codes "none") × (ts.zero_allowed ≡ true))
      sort (dynamic p q) eq = inr (inl (cc, p, q))
      sort (off p q) eq = inr (inr (cc, p, q))
      sort (minimal_budget p q) eq =
          inl (subst (IsBetween m n) (cc) (budget_of-IsBetween (codes "minimal")))
      sort (nearest_medium l p q s) eq = inl (subst (IsBetween m n) (cc) (budget_of-IsBetween l))
      sort (weakest l p q s) eq = inl (subst (IsBetween m n) (cc) (budget_of-IsBetween l))
      sort {e} (own_budget n1 n2 n3 q) eq = inl (subst (IsBetween m n) (cc) (budget_of-IsBetween e))
      sort (refused un n1 n2 n3) eq = cc

-- The levels that a budget can stand for, with their budgets.
pub data IsStandard : Text → ℕ → Type 0 where
  minimal : IsStandard (codes "minimal") 512
  low : IsStandard (codes "low") 1024
  medium : IsStandard (codes "medium") 8192
  high : IsStandard (codes "high") 24576
  xhigh : IsStandard (codes "xhigh") 32768

module _ (ts : ThinkingSupport) (no_min : leb_ℤ ts.min (pos 0) ≡ true)
    (no_max : leb_ℤ ts.max (pos 0) ≡ true) (zero_ok : ts.zero_allowed ≡ true) where
  unbounded : (k : ℕ) → clamp_budget (some ts) k ≡ pos k
  unfolding clamp_budget
  unbounded k = rw (no_min, no_max) refl

  -- Without bounds, and where the off state is allowed, the budget of a supported level from
  -- "minimal" to "xhigh" is the table's, and that budget gives the level back.
  pub effort-budget :
      {l : Text} {n : ℕ}
      → IsStandard l n
      → mem_text l (supported_levels (some ts)) ≡ true
      → (budget_from_effort l (some ts) ≡ budget (pos n))
        × (effort_from_budget (pos n) (some ts) ≡ some l)
  unfolding budget_from_effort budget_of trim_space to_lower text_eq lookup effort_from_budget
      budget_to_level clamp_to_supported
  effort-budget minimal m = (rw (zero_ok, unbounded) refl, rw m refl)
  effort-budget low m = (rw (m, unbounded) refl, rw m refl)
  effort-budget medium m = (rw (m, unbounded) refl, rw m refl)
  effort-budget high m = (rw (m, unbounded) refl, rw m refl)
  effort-budget xhigh m = (rw (m, unbounded) refl, rw m refl)
