-- ===== src/Catalog/Entry.antt =====
-- Entries and records of internal/catalog/catalog.go: `rawModel`, `ModelRecord`,
-- `UnsupportedModel`, `firstNonEmpty` and `normalizeThinking`.
use opencode_go_cliproxyapi.Prelude.{Bool, List, Option, [], false, none, or_default, some, ◌∷◌}
use opencode_go_cliproxyapi.Prelude.Text.{Text}
use opencode_go_cliproxyapi.Prelude.Int.{pos, ℤ}
use opencode_go_cliproxyapi.Thinking.{ThinkingSupport}
use opencode_go_cliproxyapi.Catalog.Route.{Route}

-- A pointer is an option.
pub record RawThinking : Type 0 where
  pub min : Option ℤ
  pub max : Option ℤ
  pub zero_allowed : Option Bool
  pub dynamic_allowed : Option Bool
  pub levels : List Text

pub record RawModel : Type 0 where
  pub id : Text
  pub display_name : Text
  pub context_length : ℤ
  pub max_output_tokens : ℤ
  pub input_modes : List Text
  pub output_modes : List Text
  pub input_modalities : List Text
  pub output_modalities : List Text
  pub thinking : Option RawThinking

pub record ModelRecord : Type 0 where
  pub public_id : Text
  pub upstream_id : Text
  pub display_name : Text
  pub protocol : Route
  pub endpoint_path : Text
  pub context_limit : ℤ
  pub output_limit : ℤ
  pub input_modes : List Text
  pub output_modes : List Text
  pub thinking : Option ThinkingSupport

pub record UnsupportedModel : Type 0 where
  pub upstream_id : Text
  pub reason : Text

abbrev pub first_non_empty : List Text → List Text → List Text
first_non_empty [] b = b
first_non_empty (x ∷ xs) b = x ∷ xs

unfoldable pub normalize_thinking : Option RawThinking → Option ThinkingSupport
normalize_thinking none = none
normalize_thinking (some rt) = some (record {
  min = or_default rt.min (pos 0);
  max = or_default rt.max (pos 0);
  zero_allowed = or_default rt.zero_allowed false;
  dynamic_allowed = or_default rt.dynamic_allowed false;
  levels = rt.levels;
})
