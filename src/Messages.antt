-- ===== src/Messages.antt =====
-- `StreamConverter` of internal/adapter/messages/stream.go: its state, the events that it reads and
-- writes, and what is common to its targets. `json.Unmarshal` is a parameter.
pub mod ChatTarget
pub mod ResponsesTarget
pub mod Feed
pub mod Announce
pub mod Loop
pub mod RoleChunk
mod Samples
use opencode_go_cliproxyapi.Prelude.{
  Bool, List, Option, [], false, if◌then◌else◌, is_some, none, or_default, some, ℕ, ◌&&◌, ◌++◌,
  ◌||◌, ◌∷◌,
}
use opencode_go_cliproxyapi.Prelude.Text.{Text, codes, contains, text_eq, to_lower}
use opencode_go_cliproxyapi.Prelude.Int.{add_int64, leb_ℤ, pos, wrap_int64, ℤ}
use opencode_go_cliproxyapi.Prelude.Json.{Json}
use opencode_go_cliproxyapi.ErrorClass.{ClassifiedError, from_status, translation_error}
use opencode_go_cliproxyapi.Frames.{ChatChunk, ChatChunkBuilder, render_chunk}
use opencode_go_cliproxyapi.Frames.Responses.{ResponsesEmitter, ResponsesEvent, responses_frame}

-- A decoded `float64`, as far as it is looked at: whether it is not zero, and its conversion to `int64`.
pub record Count : Type 0 where
  pub nonzero : Bool
  pub int64 : ℤ

pub record UsageCounts : Type 0 where
  pub input_tokens : Count
  pub output_tokens : Count
  pub cache_read : Option Count
  pub cache_creation : Option Count

pub record StartMessage : Type 0 where
  pub id : Text
  pub model : Text
  pub usage : UsageCounts

pub record ContentBlock : Type 0 where
  pub type : Text
  pub id : Text
  pub name : Text

pub record DeltaBody : Type 0 where
  pub type : Text
  pub text : Text
  pub partial_json : Text
  pub stop_reason : Text

-- The fields `type` and `message` of an upstream error, empty where they are no texts.
pub record UpstreamError : Type 0 where
  pub type : Text
  pub message : Text

-- `sseEvent`, with the index converted to `int`.
pub record StreamEvent : Type 0 where
  pub type : Text
  pub index : ℤ
  pub message : StartMessage
  pub content_block : ContentBlock
  pub delta : DeltaBody
  pub usage : UsageCounts
  pub error : UpstreamError

-- `blockState`.
pub record BlockState : Type 0 where
  pub kind : Text
  pub id : Text
  pub name : Text
  pub ordinal : ℕ
  pub out_idx : ℕ
  pub emitted : Bool
  pub text : Text
  pub args : Text
  pub input_emitted : ℕ

unfoldable pub new_block : ContentBlock → BlockState
new_block block = record {
  kind = block.type;
  id = block.id;
  name = block.name;
  ordinal = 0;
  out_idx = 0;
  emitted = false;
  text = [];
  args = [];
  input_emitted = 0;
}

-- `StreamConverter` without its framer and its tools; `msg_idx` none is -1.
pub record Conversion : Type 0 where
  pub source_format : Text
  pub created : ℤ
  pub blocks : List (ℤ × BlockState)
  pub tool_ordinal : ℕ
  pub msg_id : Text
  pub model : Text
  pub prompt_tokens : ℤ
  pub completion_tokens : ℤ
  pub cache_read : Option ℤ
  pub cache_creation : Option ℤ
  pub stop_reason : Text
  pub tools_seen : Bool
  pub role_sent : Bool
  pub msg_idx : Option ℕ
  pub out_count : ℕ
  pub emitted : Bool
  pub flushed : Bool

-- `NewStreamConverter`.
unfoldable pub new_conversion : Text → ℤ → Conversion
new_conversion source_format now = record {
  source_format = source_format;
  created = now;
  blocks = [];
  tool_ordinal = 0;
  msg_id = [];
  model = [];
  prompt_tokens = pos 0;
  completion_tokens = pos 0;
  cache_read = none;
  cache_creation = none;
  stop_reason = [];
  tools_seen = false;
  role_sent = false;
  msg_idx = none;
  out_count = 0;
  emitted = false;
  flushed = false;
}

-- What a client receives: the upstream block as it is, or a call of one of the emitters.
pub data ClientEvent : Type 0 where
  verbatim : Text → ClientEvent
  chat_event : ChatChunkBuilder → ChatChunk → ClientEvent
  responses_event : ResponsesEmitter → ResponsesEvent → ClientEvent

abbrev pub client_text : (Json → Text) → ℤ → ClientEvent → Text
client_text marshal now (verbatim block) = block
client_text marshal now (chat_event b chunk) = marshal (render_chunk now b chunk)
client_text marshal now (responses_event e event) = responses_frame marshal now e event

-- What `dispatch` does and returns.
pub record Step : Type 0 where
  pub conv : Conversion
  pub events : List ClientEvent
  pub is_done : Bool
  pub error : Option ClassifiedError

abbrev pub go_on : Conversion → List ClientEvent → Step
go_on sc events = record { conv = sc; events = events; is_done = false; error = none }

abbrev pub failed : Conversion → ClassifiedError → Step
failed sc e = record { conv = sc; events = []; is_done = false; error = some e }

-- Whether the loop of `Feed` ends with a step.
abbrev pub stops : Step → Bool
stops step = step.is_done || is_some step.error

-- `sc.blocks[i]`, and the assignment to it.
abbrev pub eq_ℤ : ℤ → ℤ → Bool
eq_ℤ a b = leb_ℤ a b && leb_ℤ b a

unfoldable pub block_at : ℤ → List (ℤ × BlockState) → Option BlockState
block_at i [] = none
block_at i ((j, b) ∷ blocks) = if eq_ℤ j i then some b else block_at i blocks

unfoldable pub put_block : ℤ → BlockState → List (ℤ × BlockState) → List (ℤ × BlockState)
put_block i b [] = (i, b) ∷ []
put_block i b ((j, c) ∷ blocks) =
    if eq_ℤ j i then (i, b) ∷ blocks else (j, c) ∷ put_block i b blocks

abbrev pub or_zero : Option ℤ → ℤ
or_zero n = or_default n (pos 0)

-- `captureCache`.
unfoldable pub capture_cache : UsageCounts → Conversion → Conversion
capture_cache u sc = record sc {
  cache_read = elim u.cache_read [ some n ↦ some n.int64 | none ↦ sc.cache_read ];
  cache_creation = elim u.cache_creation [ some n ↦ some n.int64 | none ↦ sc.cache_creation ];
}

-- The case `message_start`, without what it emits.
unfoldable pub start_message : StartMessage → Conversion → Conversion
unfolding capture_cache
start_message m sc =
    capture_cache m.usage
      (record sc { msg_id = m.id; model = m.model; prompt_tokens = m.usage.input_tokens.int64 })

-- The usage of the case `message_delta`.
unfoldable pub take_usage : UsageCounts → Conversion → Conversion
unfolding capture_cache
take_usage u sc = capture_cache u (record sc {
  prompt_tokens = if u.input_tokens.nonzero then u.input_tokens.int64 else sc.prompt_tokens;
  completion_tokens = u.output_tokens.int64;
})

-- The prompt tokens with those of the cache.
unfoldable pub all_prompt_tokens : Conversion → ℤ
unfolding wrap_int64
all_prompt_tokens sc =
    add_int64 (add_int64 sc.prompt_tokens (or_zero sc.cache_read)) (or_zero sc.cache_creation)

-- `anthropicErrorStatus`.
unfoldable pub anthropic_error_status : Text → ℕ
anthropic_error_status t =
    if text_eq t (codes "invalid_request_error")
    then 400
    else if text_eq t (codes "authentication_error")
    then 401
    else if text_eq t (codes "permission_error")
    then 403
    else if text_eq t (codes "not_found_error")
    then 404
    else if text_eq t (codes "request_too_large")
    then 413
    else if text_eq t (codes "rate_limit_error")
    then 429
    else if text_eq t (codes "overloaded_error")
    then 503
    else 500

-- `sseError`.
unfoldable pub sse_error : UpstreamError → ClassifiedError
unfolding anthropic_error_status
sse_error e =
    let lowered = to_lower e.type in
    from_status (anthropic_error_status e.type) (
      if contains lowered (codes "gousagelimiterror")
        || contains lowered (codes "freeusagelimiterror")
      then e.type ++ (codes ": " ++ e.message)
      else e.message)

abbrev pub orphan_arguments : ClassifiedError
orphan_arguments =
    translation_error (codes "tool arguments fragment without a tool_use block start")

abbrev pub is_tool_use : BlockState → Bool
is_tool_use b = text_eq b.kind (codes "tool_use")

-- The block of a fragment, if it is that of a tool.
unfoldable pub tool_block_at : ℤ → Conversion → Option BlockState
unfolding block_at
tool_block_at i sc = elim (block_at i sc.blocks) [
  | none ↦ none
  | some b ↦ if is_tool_use b then some b else none
]
