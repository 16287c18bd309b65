-- ===== src/Frames/Usage.antt =====
-- The usage blocks and the result envelopes of internal/adapter/shared/shared.go.
use opencode_go_cliproxyapi.Prelude.{
  List, Option, [], if◌then◌else◌, is_some, none, some, ℕ, ◌||◌, ◌∷◌,
}
use opencode_go_cliproxyapi.Prelude.Text.{Text, codes}
use opencode_go_cliproxyapi.Prelude.Int.{add_int64, leb_ℤ, pos, sub_int64, wrap_int64, ℤ}
use opencode_go_cliproxyapi.Prelude.Json.{
  Json, array, elements, member, no_member, number, object, optional_member, string,
}

pub record ResponsesInputDetails : Type 0 where
  pub cached_tokens : Option ℤ
  pub cache_write_tokens : Option ℤ

pub record ResponsesOutputDetails : Type 0 where
  pub reasoning_tokens : Option ℤ

pub record ResponsesUsage : Type 0 where
  pub input_tokens : ℤ
  pub output_tokens : ℤ
  pub total_tokens : ℤ
  pub input_details : Option ResponsesInputDetails
  pub output_details : Option ResponsesOutputDetails

pub record UsageDetails : Type 0 where
  pub cached_tokens : Option ℤ
  pub cache_write_tokens : Option ℤ
  pub reasoning_tokens : Option ℤ

-- The loop of `ClampSubtract`, and its end.
unfoldable pub subtract_parts : ℤ → List (Option ℤ) → ℤ
unfolding wrap_int64
subtract_parts value [] = value
subtract_parts value (none ∷ parts) = subtract_parts value parts
subtract_parts value (some part ∷ parts) = subtract_parts (sub_int64 value part) parts

unfoldable pub clamp_subtract : ℤ → List (Option ℤ) → ℤ
unfolding subtract_parts
clamp_subtract value parts =
    let rest = subtract_parts value parts in if leb_ℤ (pos 0) rest then rest else pos 0

-- `NewResponsesUsageFrom`.
unfoldable pub new_responses_usage : ℤ → ℤ → UsageDetails → ResponsesUsage
unfolding wrap_int64
new_responses_usage input_tokens output_tokens details = record {
  input_tokens = input_tokens;
  output_tokens = output_tokens;
  total_tokens = add_int64 input_tokens output_tokens;
  input_details =
      if is_some details.cached_tokens || is_some details.cache_write_tokens
      then some (record {
        cached_tokens = details.cached_tokens;
        cache_write_tokens = details.cache_write_tokens;
      })
      else none;
  output_details =
      if is_some details.reasoning_tokens
      then some (record { reasoning_tokens = details.reasoning_tokens })
      else none;
}

-- The JSON tags of the four structs.
abbrev pub input_details_json : ResponsesInputDetails → Json
input_details_json d = object (
    optional_member (codes "cached_tokens") number d.cached_tokens
      (optional_member (codes "cache_write_tokens") number d.cache_write_tokens no_member))

abbrev pub output_details_json : ResponsesOutputDetails → Json
output_details_json d =
    object (optional_member (codes "reasoning_tokens") number d.reasoning_tokens no_member)

unfoldable pub responses_usage_json : ResponsesUsage → Json
responses_usage_json u = object (
    member (codes "input_tokens") (number u.input_tokens) (
      member (codes "output_tokens") (number u.output_tokens) (
        member (codes "total_tokens") (number u.total_tokens) (
          optional_member (codes "input_tokens_details") input_details_json u.input_details (
            optional_member (codes "output_tokens_details") output_details_json u.output_details
              no_member)))))

-- `CCUsageFrom`.
unfoldable pub cc_usage : ℤ → ℤ → UsageDetails → Json
unfolding wrap_int64
cc_usage prompt_tokens completion_tokens details = object (
    member (codes "prompt_tokens") (number prompt_tokens) (
      member (codes "completion_tokens") (number completion_tokens) (
        member (codes "total_tokens") (number (add_int64 prompt_tokens completion_tokens)) (
          optional_member (codes "prompt_tokens_details")
            (λ n. object (member (codes "cached_tokens") (number n) no_member))
            details.cached_tokens
            (optional_member (codes "completion_tokens_details")
              (λ n. object (member (codes "reasoning_tokens") (number n) no_member))
              details.reasoning_tokens no_member)))))

-- `CCToolCallOpeningEntry`.
unfoldable pub cc_tool_call_opening : ℕ → Text → Text → Text → Json
cc_tool_call_opening index call_id name args_delta = object (
    member (codes "index") (number (pos index)) (
      member (codes "id") (string call_id) (
        member (codes "type") (string (codes "function")) (
          member (codes "function")
            (object (
              member (codes "name") (string name)
                (member (codes "arguments") (string args_delta) no_member)))
            no_member))))

-- `CompletionEnvelope`.
unfoldable pub completion_envelope : Text → Text → ℤ → List Json → Json → Json
completion_envelope id model created choices usage = object (
    member (codes "id") (string id) (
      member (codes "object") (string (codes "chat.completion")) (
        member (codes "created") (number created) (
          member (codes "model") (string model) (
            member (codes "choices") (array (elements choices))
              (member (codes "usage") usage no_member))))))

-- `ClaudeUsage`.
unfoldable pub claude_usage : ℤ → ℤ → Option ℤ → Option ℤ → Json
claude_usage input output cache_read cache_write = object (
    member (codes "input_tokens") (number input) (
      member (codes "output_tokens") (number output) (
        optional_member (codes "cache_read_input_tokens") number cache_read
          (optional_member (codes "cache_creation_input_tokens") number cache_write no_member))))

-- `NewClaudeResult`; a nil `content` is the empty list.
unfoldable pub new_claude_result :
    Text → Text → Text → ℤ → ℤ → Option ℤ → Option ℤ → List Json → Json
unfolding claude_usage
new_claude_result id model stop_reason input output cache_read cache_creation content = object (
    member (codes "id") (string id) (
      member (codes "type") (string (codes "message")) (
        member (codes "role") (string (codes "assistant")) (
          member (codes "model") (string model) (
            member (codes "content") (array (elements content)) (
              member (codes "stop_reason") (string stop_reason) (
                member (codes "usage") (claude_usage input output cache_read cache_creation)
                  no_member)))))))
