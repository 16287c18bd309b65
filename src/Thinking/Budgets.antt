-- ===== src/Thinking/Budgets.antt =====
-- `BudgetFromEffort` and `ValidateEffort` of internal/thinking/thinking.go.
use opencode_go_cliproxyapi.Prelude.{
  Bool-cases, Option, [], false, if◌then◌else◌, inl, inr, none, not, or-false, or-true, refl, some,
  subst, sym, true, ◌||◌, ◌≡◌, ◌≢◌, ◌⊎◌,
}
use opencode_go_cliproxyapi.Prelude.Text.{
  Text, Text-cases, codes, mem_text, text_eq, text_eq-false, text_eq_iff, text_eq_of_ne,
  text_eq_sound, to_lower, trim_space,
}
use opencode_go_cliproxyapi.Prelude.Int.{negsuc, pos, ℤ}
use opencode_go_cliproxyapi.Thinking.{
  Budget, ThinkingSupport, admits, allows_dynamic, allows_zero, budget, budget_from_effort,
  budget_of, budget_of_level, budget_switch, canonical_levels, clamp_to_supported, first_level,
  supported_levels, unrepresentable, validate_effort,
}
use opencode_go_cliproxyapi.Thinking.Levels.{mem-supported_canonical, supported_levels-first}
use opencode_go_cliproxyapi.Thinking.Clamp.{IsNearest}
use opencode_go_cliproxyapi.Thinking.Effort.{clamp_supported}

-- How `BudgetFromEffort` answers for an effort in lower case.
pub data AnswersEffort (e : Text) (ts : Option ThinkingSupport) : Budget → Type 0 where
  dynamic : e ≡ codes "auto" → allows_dynamic ts ≡ true → AnswersEffort e ts (budget (negsuc 0))
  off : e ≡ codes "none" → allows_zero ts ≡ true → AnswersEffort e ts (budget (pos 0))
  minimal_budget :
      e ≡ codes "minimal"
      → allows_zero ts ≡ true
      → AnswersEffort e ts (budget (budget_of ts (codes "minimal")))
  nearest_medium :
      (l : Text)
      → e ≡ codes "auto"
      → allows_dynamic ts ≡ false
      → IsNearest (codes "medium") (supported_levels ts) l
      → AnswersEffort e ts (budget (budget_of ts l))
  weakest :
      (l : Text)
      → ((e ≡ codes "none") ⊎ (e ≡ codes "minimal"))
      → allows_zero ts ≡ false
      → first_level (supported_levels ts) ≡ some l
      → AnswersEffort e ts (budget (budget_of ts l))
  own_budget :
      e ≢ codes "auto"
      → e ≢ codes "none"
      → e ≢ codes "minimal"
      → mem_text e (supported_levels ts) ≡ true
      → AnswersEffort e ts (budget (budget_of ts e))
  refused :
      mem_text e (supported_levels ts) ≡ false
      → e ≢ codes "auto"
      → e ≢ codes "none"
      → e ≢ codes "minimal"
      → AnswersEffort e ts unrepresentable

empty-unsupported : (ts : Option ThinkingSupport) → mem_text [] (supported_levels ts) ≡ false
empty-unsupported ts = elim (Bool-cases (mem_text [] (supported_levels ts))) [
  | inl e ↦ absurd (never (mem-supported_canonical ts [] e))
  | inr e ↦ e
]
  where
    never : mem_text [] canonical_levels ≡ true → ⊥
    never h = unfold mem_text text_eq in cc

medium-canonical : mem_text (codes "medium") canonical_levels ≡ true
unfolding mem_text text_eq
medium-canonical = refl

clamped_answer :
    (e : Text) (ts : Option ThinkingSupport)
    → e ≡ codes "auto"
    → allows_dynamic ts ≡ false
    → AnswersEffort e ts
        (budget_of_level ts (clamp_to_supported (codes "medium") (supported_levels ts)))
clamped_answer e ts is_auto static =
    let (r, eq, n) = clamp_supported (codes "medium") ts medium-canonical in
    rw eq (nearest_medium r is_auto static n)

weakest_answer :
    (e : Text) (ts : Option ThinkingSupport)
    → ((e ≡ codes "none") ⊎ (e ≡ codes "minimal"))
    → allows_zero ts ≡ false
    → AnswersEffort e ts (budget_of_level ts (first_level (supported_levels ts)))
weakest_answer e ts which denied =
    let (l, first, listed) = supported_levels-first ts in rw first (weakest l which denied first)

off_answer :
    (e : Text) (ts : Option ThinkingSupport)
    → ((e ≡ codes "none") ⊎ (e ≡ codes "minimal"))
    → AnswersEffort e ts (
        if not (allows_zero ts)
        then budget_of_level ts (first_level (supported_levels ts))
        else if text_eq e (codes "none")
        then budget (pos 0)
        else budget (budget_of ts e))
off_answer e ts which = elim (Bool-cases (allows_zero ts)) [
  | inr denied ↦ rw denied (weakest_answer e ts which denied)
  | inl allowed ↦ elim (Text-cases e (codes "none")) [
    | inl is_none ↦ rw (allowed, (text_eq_iff e (codes "none")).1 is_none) (off is_none allowed)
    | inr not_none ↦ elim which [
      | inl is_none ↦ absurd (not_none is_none)
      | inr is_minimal ↦
          rw (allowed, text_eq_of_ne e (codes "none") not_none)
            (subst (λ t. AnswersEffort e ts (budget (budget_of ts t))) (sym is_minimal)
              (minimal_budget is_minimal allowed))
    ]
  ]
]

listed_answer :
    (e : Text) (ts : Option ThinkingSupport)
    → e ≢ codes "auto"
    → e ≢ codes "none"
    → e ≢ codes "minimal"
    → AnswersEffort e ts
        (if mem_text e (supported_levels ts) then budget (budget_of ts e) else unrepresentable)
listed_answer e ts n1 n2 n3 = elim (Bool-cases (mem_text e (supported_levels ts))) [
  | inl listed ↦ rw listed (own_budget n1 n2 n3 listed)
  | inr unlisted ↦ rw unlisted (refused unlisted n1 n2 n3)
]

auto_answer :
    (e : Text) (ts : Option ThinkingSupport)
    → e ≡ codes "auto"
    → AnswersEffort e ts (
        if allows_dynamic ts
        then budget (negsuc 0)
        else budget_of_level ts (clamp_to_supported (codes "medium") (supported_levels ts)))
auto_answer e ts is_auto = elim (Bool-cases (allows_dynamic ts)) [
  | inl dyn ↦ rw dyn (dynamic is_auto dyn)
  | inr static ↦ rw static (clamped_answer e ts is_auto static)
]

budget_switch_total :
    (e : Text) (ts : Option ThinkingSupport) → AnswersEffort e ts (budget_switch e ts)
unfolding budget_switch
budget_switch_total e ts = elim (Text-cases e []) [
  | inl empty ↦
      rw ((text_eq_iff e []).1 empty)
        (refused (rw empty (empty-unsupported ts)) (λ h. cc) (λ h. cc) (λ h. cc))
  | inr some_text ↦ elim (Text-cases e (codes "auto")) [
    | inl is_auto ↦
        rw (text_eq_of_ne e [] some_text, (text_eq_iff e (codes "auto")).1 is_auto)
          (auto_answer e ts is_auto)
    | inr not_auto ↦ elim (Bool-cases (text_eq e (codes "none") || text_eq e (codes "minimal"))) [
      | inl either ↦
          rw (text_eq_of_ne e [] some_text, text_eq_of_ne e (codes "auto") not_auto, either)
            (off_answer e ts (elim (or-true _ _ either) [
              | inl a ↦ inl (text_eq_sound e (codes "none") a)
              | inr b ↦ inr (text_eq_sound e (codes "minimal") b)
            ]))
      | inr neither ↦
          rw (text_eq_of_ne e [] some_text, text_eq_of_ne e (codes "auto") not_auto, neither)
            (listed_answer e ts not_auto (text_eq-false e (codes "none") (or-false _ _ neither).0)
              (text_eq-false e (codes "minimal") (or-false _ _ neither).1))
    ]
  ]
]

-- Whatever the effort and the model's capability, `BudgetFromEffort` does not go out of range. A
-- supported effort other than "auto", "none" and "minimal" gives its own clamped budget, and an
-- unsupported one is refused. "auto" gives the dynamic sentinel where the model is dynamic, and else
-- the clamped budget of the supported level nearest to "medium". Where the off state is allowed, "none"
-- gives 0 and "minimal" its own clamped budget; else both give that of the weakest supported level.
pub budget_from_effort_total :
    (effort : Text) (ts : Option ThinkingSupport)
    → AnswersEffort (to_lower (trim_space effort)) ts (budget_from_effort effort ts)
unfolding budget_from_effort
budget_from_effort_total effort ts = budget_switch_total (to_lower (trim_space effort)) ts

answer_of_admitted :
    {e : Text} {ts : Option ThinkingSupport} {r : Budget}
    → AnswersEffort e ts r
    → admits e ts ≡ true
    → (b : ℤ) × (r ≡ budget b)
unfolding admits
answer_of_admitted (dynamic p q) h = (negsuc 0, refl)
answer_of_admitted (off p q) h = (pos 0, refl)
answer_of_admitted {ts} (minimal_budget p q) h = (budget_of ts (codes "minimal"), refl)
answer_of_admitted {ts} (nearest_medium l p q n) h = (budget_of ts l, refl)
answer_of_admitted {ts} (weakest l p q n) h = (budget_of ts l, refl)
answer_of_admitted {e} {ts} (own_budget n1 n2 n3 m) h = (budget_of ts e, refl)
answer_of_admitted {e} {ts} (refused un n1 n2 n3) h =
    cc (rw (text_eq_of_ne e (codes "auto") n1, text_eq_of_ne e (codes "none") n2, un) at h)

-- What `ValidateEffort` accepts, `BudgetFromEffort` can represent: no effort passes validation and
-- is then refused, or goes out of range.
pub budget-validate_effort :
    (quote : Text → Text) (effort : Text) (ts : Option ThinkingSupport)
    → validate_effort quote effort ts ≡ none
    → (b : ℤ) × (budget_from_effort effort ts ≡ budget b)
unfolding validate_effort
budget-validate_effort quote effort ts h =
    answer_of_admitted (budget_from_effort_total effort ts)
      (elim (Bool-cases (admits (to_lower (trim_space effort)) ts)) [
        | inl e ↦ e
        | inr e ↦ cc (rw e at h)
      ])
