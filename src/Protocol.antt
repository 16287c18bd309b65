-- ===== src/Protocol.antt =====
-- The tables of internal/adapter/shared/shared.go that the protocol adapters share, the choice of a tool and
-- the errors for an upstream status; and, of internal/plugin/executor.go, the resolution of a request.
pub mod Reasons
pub mod Parts
pub mod Images
mod Samples
use opencode_go_cliproxyapi.Prelude.Outcome.{Outcome, err, ok}
use opencode_go_cliproxyapi.Prelude.{
  Bool, Option, [], false, if◌then◌else◌, is_empty, length, ltb, none, not, some, take, ℕ, ◌&&◌,
  ◌++◌, ◌||◌, ◌∷◌,
}
use opencode_go_cliproxyapi.Prelude.Text.{Text, codes, text_eq, trim_space}
use opencode_go_cliproxyapi.Prelude.Dict.{Dict}
use opencode_go_cliproxyapi.Redact.{redact}
use opencode_go_cliproxyapi.ErrorClass.{
  ClassifiedError, auth, from_status, invalid_model, translation_error,
}
use opencode_go_cliproxyapi.Catalog.Entry.{ModelRecord}
use opencode_go_cliproxyapi.Catalog.Manager.{Manager, lookup_model}

-- `ClaudeStopToFinish` and `FinishToClaudeStop`.
unfoldable pub claude_stop_to_finish : Text → Text
claude_stop_to_finish stop =
    if text_eq stop (codes "tool_use")
    then codes "tool_calls"
    else if text_eq stop (codes "max_tokens")
    then codes "length"
    else if text_eq stop (codes "refusal")
    then codes "content_filter"
    else codes "stop"

unfoldable pub finish_to_claude_stop : Text → Text
finish_to_claude_stop finish =
    if text_eq finish (codes "tool_calls")
    then codes "tool_use"
    else if text_eq finish (codes "length")
    then codes "max_tokens"
    else if text_eq finish (codes "content_filter")
    then codes "refusal"
    else codes "end_turn"

-- `TerminalReason`.
abbrev pub terminal_reason : Bool → Text → Text → Text
terminal_reason tool_calls_seen tool_reason status_reason =
    if tool_calls_seen then tool_reason else status_reason

-- The status of a Responses result against the reasons of the two other protocols.
unfoldable pub response_status_from_cc_finish : Text → Text
response_status_from_cc_finish finish =
    if text_eq finish (codes "length") then codes "incomplete" else codes "completed"

unfoldable pub response_status_from_claude_stop : Text → Text
response_status_from_claude_stop stop =
    if text_eq stop (codes "max_tokens") then codes "incomplete" else codes "completed"

unfoldable pub cc_finish_from_response_status : Text → Text
cc_finish_from_response_status status =
    if text_eq status (codes "incomplete") then codes "length" else codes "stop"

unfoldable pub claude_stop_from_response_status : Text → Text
claude_stop_from_response_status status =
    if text_eq status (codes "incomplete") then codes "max_tokens" else codes "end_turn"

-- `HasContent`, `DefaultArgs` and `ObjectSchema`.
abbrev pub has_content : Text → Bool
has_content raw = not (is_empty raw) && not (text_eq raw (codes "null"))

abbrev pub default_args : Text → Text
default_args args =
    let s = trim_space args in if text_eq s [] || text_eq s (codes "null") then codes "{}" else args

abbrev pub object_schema : Text → Text
object_schema raw =
    if not (has_content raw) then codes "{\"type\":\"object\",\"properties\":{}}" else raw

-- What `DecodeToolChoice` returns but for an error.
pub data ToolChoice : Type 0 where
  absent auto any no_tool : ToolChoice
  named : Text → ToolChoice

-- The fields of a choice that is a JSON object.
pub record ChoiceFields : Type 0 where
  pub type : Text
  pub name : Text
  pub function_name : Text

abbrev pub quoted : Text → Text
quoted t = 34 ∷ t ++ 34 ∷ []

-- A choice that is no object.
unfoldable pub decode_choice_text : Text → Text → Outcome ClassifiedError ToolChoice
decode_choice_text problem s =
    if text_eq s (quoted (codes "auto"))
    then ok auto
    else if text_eq s (quoted (codes "any")) || text_eq s (quoted (codes "required"))
    then ok any
    else if text_eq s (quoted (codes "none"))
    then ok no_tool
    else err (translation_error (codes "malformed tool_choice: " ++ problem))

unfoldable pub decode_choice_fields :
    (Text → Text) → ChoiceFields → Outcome ClassifiedError ToolChoice
decode_choice_fields quote c =
    let name = if is_empty c.function_name then c.name else c.function_name in
    if text_eq c.type (codes "auto")
    then ok auto
    else if text_eq c.type (codes "any") || text_eq c.type (codes "required")
    then ok any
    else if text_eq c.type (codes "none")
    then ok no_tool
    else if text_eq c.type (codes "tool") || text_eq c.type (codes "function")
    then (if is_empty name
        then err (translation_error (codes "malformed tool_choice: named tool requires a name"))
        else ok (named name))
    else err (translation_error (codes "unsupported tool_choice type " ++ quote c.type))

-- `DecodeToolChoice`, for the verb %q and the decoder of an object or its error.
unfoldable pub decode_tool_choice :
    (Text → Text) → (Text → Outcome Text ChoiceFields) → Text → Outcome ClassifiedError ToolChoice
decode_tool_choice quote decode raw =
    if not (has_content raw) then ok absent else elim (decode raw) [
      | err problem ↦ decode_choice_text problem (trim_space raw)
      | ok fields ↦ decode_choice_fields quote fields
    ]

-- `RedactedSnippet`.
unfoldable pub redacted_snippet : Text → Text
redacted_snippet s = let r = redact s in if ltb 256 (length r) then take 256 r ++ codes "..." else r

-- `UpstreamStatusError`, for the message that is found in the head of a body, or the empty one.
unfoldable pub upstream_status_error : (Text → Text) → ℕ → Text → ClassifiedError
upstream_status_error extract status body =
    let head = if ltb 4096 (length body) then take 4096 body else body in
    let msg = extract head in
    from_status status (redacted_snippet (if is_empty msg then head else msg))

-- The request of the executor, as far as its resolution reads it; an absent text is empty.
pub record Execution : Type 0 where
  pub auth_provider : Text
  pub attribute_key : Text
  pub metadata_key : Text
  pub model : Text
  pub canonical_session : Text
  pub headers : Dict Text

abbrev pub auth_error : Text → ClassifiedError
auth_error msg = record { class = auth; message = msg; status_code = 0; retryable = false }

-- The lookup in the snapshot, if there is one.
unfoldable pub routable : Option Manager → Text → Option ModelRecord
routable none model = none
routable (some m) model = if is_empty model then none else lookup_model m model

-- `resolveExecution`: the record and the key, or the error of the envelope.
unfoldable pub resolve_execution :
    Option Manager → Execution → Outcome ClassifiedError (ModelRecord × Text)
resolve_execution mgr req =
    let attribute = trim_space req.attribute_key in
    let key = if is_empty attribute then trim_space req.metadata_key else attribute in
    if not (text_eq req.auth_provider (codes "opencode-go"))
    then err (auth_error (codes "selected auth provider is not opencode-go"))
    else if is_empty key
    then err (auth_error (codes "selected auth has no api key"))
    else elim (routable mgr req.model) [
      | some rec ↦ ok (rec, key)
      | none ↦ err (record {
        class = invalid_model;
        message = codes "model not in routable catalog";
        status_code = 404;
        retryable = false;
      })
    ]
