-- ===== src/Thinking/Samples.antt =====
-- Runs of internal/thinking/thinking.go, and the theorems at concrete inputs.
use opencode_go_cliproxyapi.Prelude.{[], arith, none, refl, some, true, ◌↔◌, ◌∷◌, ◌≡◌, ◌⊎◌}
use opencode_go_cliproxyapi.Prelude.Text.{Text, codes, mem_text, text_eq, to_lower, trim_space}
use opencode_go_cliproxyapi.Prelude.Dict.{lookup}
use opencode_go_cliproxyapi.Prelude.Int.{negsuc, pos, ℤ}
use opencode_go_cliproxyapi.Thinking.{
  ThinkingSupport, at_position, budget, budget_from_effort, budget_to_level, canonical_levels,
  clamp_to_supported, closer, closest, default_levels, effort_from_budget, position,
  supported_levels, validate_effort,
}
use opencode_go_cliproxyapi.Prelude.Text.Trim.{empty}
use opencode_go_cliproxyapi.Thinking.Declared.{Declares, supported_levels-Declares}
use opencode_go_cliproxyapi.Thinking.Effort.{AnswersBudget, effort_from_budget_total}
use opencode_go_cliproxyapi.Thinking.Budgets.{
  AnswersEffort, budget-validate_effort, budget_from_effort_total,
}
use opencode_go_cliproxyapi.Thinking.Bounds.{
  IsBetween, IsStandard, budget_from_effort-IsBetween, effort-budget,
}

abbrev two_levels : ThinkingSupport
two_levels = record {
  min = pos 2048;
  max = pos 16384;
  zero_allowed = true;
  dynamic_allowed = true;
  levels = codes " High" ∷ codes "LOW" ∷ [];
}

abbrev free : ThinkingSupport
free = record two_levels { min = pos 0; max = pos 0 }

-- As near to "low" as to "high": the weaker one.
tie : effort_from_budget (pos 8192) (some two_levels) ≡ some (codes "low")
unfolding effort_from_budget clamp_to_supported supported_levels budget_to_level mem_text position
    closest closer at_position text_eq trim_space
tie = refl

budget_of_high : budget_from_effort (codes " High ") (some two_levels) ≡ budget (pos 16384)
unfolding budget_from_effort supported_levels lookup mem_text text_eq trim_space to_lower
budget_of_high = refl

budget-IsBetween_example :
    IsBetween 2048 16384 (pos 16384)
    ⊎ ((pos 16384 ≡ negsuc 0)
        × (to_lower (trim_space (codes " High ")) ≡ codes "auto")
        × (two_levels.dynamic_allowed ≡ true))
    ⊎ ((pos 16384 ≡ pos 0)
        × (to_lower (trim_space (codes " High ")) ≡ codes "none")
        × (two_levels.zero_allowed ≡ true))
budget-IsBetween_example =
    budget_from_effort-IsBetween 2048 16384 two_levels refl refl (omega arith) (omega arith)
      (codes " High ") (pos 16384) budget_of_high

high_is_valid : validate_effort (λ t. t) (codes "HIGH") (some two_levels) ≡ none
unfolding validate_effort supported_levels mem_text text_eq trim_space to_lower
high_is_valid = refl

budget_validate_example : (b : ℤ) × (budget_from_effort (codes "HIGH") (some two_levels) ≡ budget b)
budget_validate_example =
    budget-validate_effort (λ t. t) (codes "HIGH") (some two_levels) high_is_valid

effort_from_budget_example :
    (e : Text) × (effort_from_budget (pos 8192) (some two_levels) ≡ some e)
    × AnswersBudget (pos 8192) (some two_levels) e
effort_from_budget_example = effort_from_budget_total (pos 8192) (some two_levels)

budget_from_effort_example :
    AnswersEffort
      (to_lower (trim_space (codes "Auto")))
      (some two_levels)
      (budget_from_effort (codes "Auto") (some two_levels))
budget_from_effort_example = budget_from_effort_total (codes "Auto") (some two_levels)

low_supported : mem_text (codes "low") (supported_levels (some free)) ≡ true
unfolding mem_text supported_levels text_eq trim_space
low_supported = refl

effort_budget_example :
    (budget_from_effort (codes "low") (some free) ≡ budget (pos 1024))
    × (effort_from_budget (pos 1024) (some free) ≡ some (codes "low"))
effort_budget_example = effort-budget free refl refl refl IsStandard.low low_supported

supported_levels_example : (mem_text (codes "low") (supported_levels (some free)) ≡ true) ↔ (
    (mem_text (codes "low") canonical_levels ≡ true)
    × (Declares free.levels (codes "low")
        ⊎ (((c : Text) → mem_text c canonical_levels ≡ true → ¬ Declares free.levels c)
            × (mem_text (codes "low") default_levels ≡ true))))
supported_levels_example = supported_levels-Declares free (codes "low")

-- The text "LOW" names the level "low".
low_declared : Declares free.levels (codes "low")
unfolding mem_text text_eq
low_declared = (
  codes "LOW",
  refl,
  record {
    before = [];
    word = codes "LOW";
    after = [];
    spaced = refl;
    blank_before = empty;
    blank_after = empty;
    folded = refl;
  },
)
