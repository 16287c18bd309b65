-- ===== src/Thinking.antt =====
-- internal/thinking/thinking.go: reasoning budgets and effort levels. A level is its text; a value
-- of type `int64` is an integer, whose bounds none of these functions reaches by arithmetic.
pub mod Levels
pub mod Declared
pub mod Clamp
pub mod Effort
pub mod Budgets
pub mod Bounds
mod Samples
use opencode_go_cliproxyapi.Prelude.{
  Bool, List, Option, [], false, if◌then◌else◌, ltb, map, none, not, or_default, some, suc, zero, ℕ,
  ◌&&◌, ◌++◌, ◌-◌, ◌==◌, ◌||◌, ◌∷◌,
}
use opencode_go_cliproxyapi.Prelude.Text.{
  Text, codes, lower_byte, mem_text, text_eq, to_lower, trim_space,
}
use opencode_go_cliproxyapi.Prelude.Dict.{Dict, lookup}
use opencode_go_cliproxyapi.ErrorClass.{ClassifiedError, unsupported}
use opencode_go_cliproxyapi.Prelude.Int.{leb_ℤ, negsuc, pos, ℤ}

-- The fields of the SDK's `pluginapi.ThinkingSupport` that the code reads.
pub record ThinkingSupport : Type 0 where
  pub min : ℤ
  pub max : ℤ
  pub zero_allowed : Bool
  pub dynamic_allowed : Bool
  pub levels : List Text

-- Weakest to strongest.
abbrev pub canonical_levels : List Text
canonical_levels =
    codes "none"
    ∷ codes "minimal"
    ∷ codes "low"
    ∷ codes "medium"
    ∷ codes "high"
    ∷ codes "xhigh"
    ∷ codes "max"
    ∷ []

-- A missing key reads as 0, as in Go.
abbrev pub level_budget_table : Dict ℕ
level_budget_table =
    (codes "minimal", 512)
    ∷ (codes "low", 1024)
    ∷ (codes "medium", 8192)
    ∷ (codes "high", 24576)
    ∷ (codes "xhigh", 32768)
    ∷ (codes "max", 128000)
    ∷ []

unfoldable pub budget_to_level : ℤ → Text
budget_to_level budget =
    if leb_ℤ budget (pos 512)
    then codes "minimal"
    else if leb_ℤ budget (pos 1024)
    then codes "low"
    else if leb_ℤ budget (pos 8192)
    then codes "medium"
    else if leb_ℤ budget (pos 24576)
    then codes "high"
    else codes "xhigh"

-- `slices.Index` plus one, so that Go's -1 is 0; differences and comparisons of two such
-- positions are those of the indexes.
unfoldable pub position : Text → List Text → ℕ
position t [] = 0
position t (x ∷ xs) =
    let rest = position t xs in if text_eq x t then 1 else if rest == 0 then 0 else suc rest

-- The element at a position, `none` where Go would panic on the index -1.
unfoldable pub at_position : ℕ → List Text → Option Text
at_position zero xs = none
at_position (suc n) [] = none
at_position (suc zero) (x ∷ xs) = some x
at_position (suc (suc n)) (x ∷ xs) = at_position (suc n) xs

abbrev pub distance : ℕ → ℕ → ℕ
distance a b = if ltb a b then b - a else a - b

-- One round of the loop of `clampToSupported`: the best position and its distance so far.
unfoldable pub closer : ℕ → ℕ × ℕ → ℕ → ℕ × ℕ
closer at (best, best_dist) idx =
    let dist = distance at idx in
    if ltb dist best_dist || (dist == best_dist && ltb idx best)
    then (idx, dist)
    else (best, best_dist)

unfoldable pub closest : ℕ → ℕ × ℕ → List Text → ℕ × ℕ
closest at best [] = best
closest at best (s ∷ supported) =
    closest at (closer at best (position s canonical_levels)) supported

-- `none` is the panic of an index out of range.
unfoldable pub clamp_to_supported : Text → List Text → Option Text
clamp_to_supported level supported =
    let best = closest (position level canonical_levels) (0, 8) supported in
    if mem_text level supported then some level else at_position best.0 canonical_levels

abbrev pub default_levels : List Text
default_levels = codes "low" ∷ codes "medium" ∷ codes "high" ∷ []

-- `strings.EqualFold(strings.TrimSpace(l), canon)`. No letter of a canonical level has a case
-- variant outside ASCII, so folding ASCII decides it.
unfoldable pub names_level : Text → Text → Bool
names_level canon l = text_eq (map lower_byte (trim_space l)) canon

-- The inner loop of `SupportedLevels`, up to its `break`.
unfoldable pub declares : List Text → Text → Bool
unfolding names_level
declares [] canon = false
declares (l ∷ ls) canon = names_level canon l || declares ls canon

unfoldable pub declared_levels : List Text → List Text → List Text
unfolding declares
declared_levels ls [] = []
declared_levels ls (canon ∷ canons) =
    let rest = declared_levels ls canons in if declares ls canon then canon ∷ rest else rest

abbrev pub or_default_levels : List Text → List Text
or_default_levels [] = default_levels
or_default_levels (x ∷ xs) = x ∷ xs

unfoldable pub supported_levels : Option ThinkingSupport → List Text
unfolding declared_levels
supported_levels none = default_levels
supported_levels (some ts) = or_default_levels (declared_levels ts.levels canonical_levels)

-- `ts != nil && ts.ZeroAllowed`, `ts != nil && ts.DynamicAllowed`.
abbrev pub allows_zero : Option ThinkingSupport → Bool
allows_zero none = false
allows_zero (some ts) = ts.zero_allowed

abbrev pub allows_dynamic : Option ThinkingSupport → Bool
allows_dynamic none = false
allows_dynamic (some ts) = ts.dynamic_allowed

-- `supported[0]`.
abbrev pub first_level : List Text → Option Text
first_level [] = none
first_level (x ∷ xs) = some x

unfoldable pub effort_from_budget : ℤ → Option ThinkingSupport → Option Text
effort_from_budget budget ts =
    let supported = supported_levels ts in
    if leb_ℤ budget (pos 0)
    then (if allows_zero ts && mem_text (codes "none") supported
        then some (codes "none")
        else if allows_dynamic ts
        then some (codes "auto")
        else first_level supported)
    else clamp_to_supported (budget_to_level budget) supported

-- The clamp of a budget into the declared bounds that are positive.
unfoldable pub clamp_budget : Option ThinkingSupport → ℕ → ℤ
clamp_budget none budget = pos budget
clamp_budget (some ts) budget =
    let raised =
      if not (leb_ℤ ts.min (pos 0)) && not (leb_ℤ ts.min (pos budget))
      then ts.min
      else pos budget in
    if not (leb_ℤ ts.max (pos 0)) && not (leb_ℤ raised ts.max) then ts.max else raised

-- The end of `BudgetFromEffort`: the table's value for the effort, clamped.
unfoldable pub budget_of : Option ThinkingSupport → Text → ℤ
unfolding clamp_budget
budget_of ts effort = clamp_budget ts (or_default (lookup effort level_budget_table) 0)

-- The results of `BudgetFromEffort`; `panic` is an index out of range.
pub data Budget : Type 0 where
  budget : ℤ → Budget
  unrepresentable : Budget
  panic : Budget

abbrev pub budget_of_level : Option ThinkingSupport → Option Text → Budget
budget_of_level ts none = panic
budget_of_level ts (some effort) = budget (budget_of ts effort)

-- The `switch` of `BudgetFromEffort`, for the trimmed effort in lower case.
unfoldable pub budget_switch : Text → Option ThinkingSupport → Budget
unfolding budget_of
budget_switch effort ts =
    let supported = supported_levels ts in
    if text_eq effort []
    then unrepresentable
    else if text_eq effort (codes "auto")
    then (if allows_dynamic ts
        then budget (negsuc 0)
        else budget_of_level ts (clamp_to_supported (codes "medium") supported))
    else if text_eq effort (codes "none") || text_eq effort (codes "minimal")
    then (if not (allows_zero ts)
        then budget_of_level ts (first_level supported)
        else if text_eq effort (codes "none")
        then budget (pos 0)
        else budget (budget_of ts effort))
    else if mem_text effort supported
    then budget (budget_of ts effort)
    else unrepresentable

unfoldable pub budget_from_effort : Text → Option ThinkingSupport → Budget
unfolding budget_switch
budget_from_effort effort ts = budget_switch (to_lower (trim_space effort)) ts

-- The `switch` of `ValidateEffort`.
unfoldable pub admits : Text → Option ThinkingSupport → Bool
admits e ts =
    let supported = supported_levels ts in
    if text_eq e (codes "auto")
    then allows_dynamic ts
    else if text_eq e (codes "none")
    then allows_zero ts || mem_text (codes "none") supported
    else mem_text e supported

-- `quote` is `fmt`'s verb %q. The result is nil, or the error.
unfoldable pub validate_effort :
    (Text → Text) → Text → Option ThinkingSupport → Option ClassifiedError
unfolding admits
validate_effort quote effort ts =
    if admits (to_lower (trim_space effort)) ts
    then none
    else some (record {
      class = unsupported;
      message =
          codes "reasoning_effort " ++ (quote effort ++ codes " is not supported for this model");
      status_code = 0;
      retryable = false;
    })
