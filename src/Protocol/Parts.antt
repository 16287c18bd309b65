-- ===== src/Protocol/Parts.antt =====
-- Content parts, their errors and the framing of events in internal/adapter/shared/shared.go, and the
-- session identifier of a request in internal/plugin/executor.go. The verb %q is a parameter.
use opencode_go_cliproxyapi.Prelude.Outcome.{Outcome, ok}
use opencode_go_cliproxyapi.Prelude.{
  Bool, List, Option, [], false, if◌then◌else◌, is_empty, none, not, or_default, some, ◌++◌, ◌∷◌,
}
use opencode_go_cliproxyapi.Prelude.Text.{Text, codes, mem_text, text_eq, trim_space}
use opencode_go_cliproxyapi.Prelude.Dict.{Dict, lookup}
use opencode_go_cliproxyapi.Prelude.Int.{leb_ℤ, pos, ℤ}
use opencode_go_cliproxyapi.ErrorClass.{ClassifiedError, translation_error, unsupported}

-- `SSEEvent`, for a body that is encoded.
unfoldable pub sse_event : Text → Text → Text
sse_event name body = codes "event: " ++ (name ++ (10 ∷ codes "data: " ++ (body ++ 10 ∷ 10 ∷ [])))

-- `IsSSEDone`.
unfoldable pub is_sse_done : Text → Bool
is_sse_done payload = text_eq (trim_space payload) (codes "[DONE]")

-- `ClaudeMaxTokens`.
unfoldable pub claude_max_tokens : ℤ → ℤ
claude_max_tokens max_tokens = if not (leb_ℤ max_tokens (pos 0)) then max_tokens else pos 4096

-- `JoinTexts`: a part is its text, if it has one that is a string.
unfoldable pub join_texts : List (Option Text) → Text
join_texts [] = []
join_texts (none ∷ parts) = join_texts parts
join_texts (some text ∷ parts) = text ++ join_texts parts

-- `IsContentPartType`.
unfoldable pub is_content_part_type : Text → Bool
is_content_part_type part_type = mem_text part_type (
    codes "text"
    ∷ codes "input_text"
    ∷ codes "output_text"
    ∷ codes "image_url"
    ∷ codes "input_image"
    ∷ [])

abbrev pub unsupported_error : Text → ClassifiedError
unsupported_error message = record {
  class = unsupported;
  message = message;
  status_code = 0;
  retryable = false;
}

module _ (quote : Text → Text) where
  unfoldable pub unsupported_format : Text → Text → ClassifiedError
  unsupported_format format target =
      unsupported_error (
        codes "source protocol " ++ (quote format ++ (codes " cannot be translated to " ++ target)))

  unfoldable pub unsupported_part_type : Text → Text → ClassifiedError
  unsupported_part_type part_type target =
      unsupported_error
        (codes "unsupported content block type " ++ (quote part_type ++ (codes " for " ++ target)))

  unfoldable pub unsupported_input_item_type : Text → ClassifiedError
  unsupported_input_item_type item_type =
      unsupported_error (codes "unsupported Responses input item type " ++ quote item_type)

  unfoldable pub validate_content_part : Text → Text → ClassifiedError
  validate_content_part part_type target =
      unsupported_error
        (codes "unsupported content part type " ++ (quote part_type ++ (codes " for " ++ target)))

  unfoldable pub validate_role : Text → Text → ClassifiedError
  validate_role role target =
      unsupported_error
        (codes "unsupported message role " ++ (quote role ++ (codes " for " ++ target)))

-- `SystemImageRejected`.
abbrev pub system_image_rejected : ClassifiedError
system_image_rejected = translation_error (codes "system messages cannot carry image content")

-- The headers that name a session, in their order.
abbrev pub session_headers : List Text
session_headers =
    codes "X-Session-Affinity"
    ∷ codes "X-Opencode-Session"
    ∷ codes "X-Session-Id"
    ∷ codes "X-Claude-Code-Session-Id"
    ∷ codes "Session-Id"
    ∷ []

-- The loop over the headers: the first that has a value.
unfoldable pub first_header : Dict Text → List Text → Text
first_header headers [] = []
first_header headers (name ∷ names) =
    let later = first_header headers names in
    let sid = or_default (lookup name headers) [] in if is_empty sid then later else sid

-- `resolveOpenCodeSessionID`, for the canonical session of the metadata (empty when it has none), the
-- first values of the headers, and the hash that is derived from the content.
unfoldable pub resolve_session_id :
    Text → Dict Text → Outcome ClassifiedError Text → Outcome ClassifiedError Text
unfolding first_header
resolve_session_id canonical headers derived =
    if not (is_empty canonical)
    then ok canonical
    else let sid = first_header headers session_headers in if is_empty sid then derived else ok sid
