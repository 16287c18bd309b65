-- ===== src/ChatStream.antt =====
-- `StreamConverter` of internal/adapter/chatcompletions/stream.go: its state, the chunks that it reads and
-- the events that it writes. The decoder, the verb %q and `strconv.Atoi` are parameters.
pub mod ClaudeTarget
pub mod ResponsesRoute
pub mod Feeding
pub mod Blocks
pub mod Streams
mod Samples
use opencode_go_cliproxyapi.Prelude.Outcome.{Outcome, err, ok}
use opencode_go_cliproxyapi.Prelude.{
  Bool, List, Option, [], false, if◌then◌else◌, none, some, suc, true, zero, ℕ, ◌&&◌, ◌++◌, ◌∷◌,
}
use opencode_go_cliproxyapi.Prelude.Text.{Text, codes, contains, cut_prefix, trim_space}
use opencode_go_cliproxyapi.Prelude.Int.{leb_ℤ, negsuc, pos, ℤ}
use opencode_go_cliproxyapi.ErrorClass.{
  ClassifiedError, from_status, translation_error, upstream_fallback,
}
use opencode_go_cliproxyapi.Protocol.{redacted_snippet}
use opencode_go_cliproxyapi.Frames.{ClaudeEmitter, ClaudeEvent}
use opencode_go_cliproxyapi.Frames.Responses.{ResponsesEmitter, ResponsesEvent}

-- `ccUsage`, with the token details that are there.
pub record ChunkUsage : Type 0 where
  pub prompt_tokens : ℤ
  pub completion_tokens : ℤ
  pub cached_tokens : Option ℤ
  pub reasoning_tokens : Option ℤ

-- `ccToolCallDelta`.
pub record ToolCallDelta : Type 0 where
  pub index : ℤ
  pub id : Text
  pub name : Text
  pub arguments : Text

-- `ccChunkChoice` with its `ccDelta`.
pub record ChunkChoice : Type 0 where
  pub content : Text
  pub tool_calls : List ToolCallDelta
  pub finish_reason : Text

-- The code of an error: a number, converted to `int`, a text, or something else.
pub data ErrorCode : Type 0 where
  numeric : ℤ → ErrorCode
  textual : Text → ErrorCode
  no_code : ErrorCode

-- `ccChunkError`.
pub record ChunkError : Type 0 where
  pub message : Text
  pub type : Text
  pub code : ErrorCode

-- `ccChunk`.
pub record Chunk : Type 0 where
  pub id : Text
  pub model : Text
  pub choices : List ChunkChoice
  pub usage : Option ChunkUsage
  pub error : Option ChunkError

-- `streamTool`.
pub record StreamTool : Type 0 where
  pub block_index : ℕ
  pub id : Text
  pub name : Text
  pub args : Text
  pub stopped : Bool
  pub input_emitted : ℕ

-- `StreamConverter` without its tool context. `tools` and `toolOrder` are one list, in the order of arrival;
-- `msg_index` none is -1, and an empty `held_finish` is none.
pub record ChatStream : Type 0 where
  pub source_format : Text
  pub line_buf : Text
  pub done : Bool
  pub started : Bool
  pub id : Text
  pub model : Text
  pub claude_em : ClaudeEmitter
  pub text_open : Bool
  pub text_index : ℕ
  pub next_index : ℕ
  pub msg_index : Option ℕ
  pub tools : List (ℤ × StreamTool)
  pub tools_seen : Bool
  pub usage : Option ChunkUsage
  pub finished : Bool
  pub held_finish : Text
  pub terminal_sent : Bool
  pub flushed : Bool
  pub resp_text : Text

unfoldable pub new_chat_stream : Text → ChatStream
new_chat_stream source_format = record {
  source_format = source_format;
  line_buf = [];
  done = false;
  started = false;
  id = [];
  model = [];
  claude_em = record { id = []; model = [] };
  text_open = false;
  text_index = 0;
  next_index = 0;
  msg_index = none;
  tools = [];
  tools_seen = false;
  usage = none;
  finished = false;
  held_finish = [];
  terminal_sent = false;
  flushed = false;
  resp_text = [];
}

-- What a client receives.
pub data ChatStreamEvent : Type 0 where
  passed : Text → ChatStreamEvent
  claude_said : ClaudeEmitter → ClaudeEvent → ChatStreamEvent
  responses_said : ResponsesEmitter → ResponsesEvent → ChatStreamEvent

-- A converter with the events that it has appended.
abbrev pub Written : Type 0
Written = ChatStream × List ChatStreamEvent

infixl 5 ◌then_write◌
abbrev pub ◌then_write◌ : Written → (ChatStream → Written) → Written
(sc, events) then_write go = let more = go sc in (more.0, events ++ more.1)

-- `sc.tools[i]`.
unfoldable pub tool_at : ℤ → List (ℤ × StreamTool) → Option StreamTool
tool_at i [] = none
tool_at i ((j, t) ∷ tools) = if leb_ℤ j i && leb_ℤ i j then some t else tool_at i tools

-- `sseData`, with the empty payload for a line that is none.
unfoldable pub sse_data : Text → Option Text
sse_data line = elim (cut_prefix line (codes "data:")) [
  | none ↦ none
  | some rest ↦ some (trim_space rest)
]

-- `chunkError`.
unfoldable pub code_status : (Text → Option ℤ) → ErrorCode → ℤ
code_status atoi (numeric n) = n
code_status atoi (textual c) = elim (atoi c) [
  | some n ↦ n
  | none ↦ if contains c (codes "rate_limit") then pos 429 else pos 0
]
code_status atoi no_code = pos 0

abbrev pub error_of_status : ℤ → Text → ClassifiedError
error_of_status (pos zero) message = upstream_fallback message
error_of_status (pos (suc n)) message = from_status (suc n) message
error_of_status (negsuc n) message = upstream_fallback message

abbrev pub is_zero : ℤ → Bool
is_zero (pos zero) = true
is_zero (pos (suc n)) = false
is_zero (negsuc n) = false

unfoldable pub chunk_error : (Text → Option ℤ) → ChunkError → ClassifiedError
unfolding code_status
chunk_error atoi e =
    let status = code_status atoi e.code in
    error_of_status
      (if is_zero status && contains e.type (codes "rate_limit") then pos 429 else status) e.message

-- What a converter takes from outside: the decoder of a chunk, and `strconv.Atoi`.
pub record ChunkDecoder : Type 0 where
  pub chunk_of : Text → Option Chunk
  pub atoi : Text → Option ℤ

-- `decodeChunk` without the capture of the usage.
unfoldable pub decode_chunk : ChunkDecoder → Text → Outcome ClassifiedError Chunk
decode_chunk decoder data_text = elim (decoder.chunk_of data_text) [
  | none ↦ err (
      translation_error
        (codes "malformed Chat Completions stream chunk: " ++ redacted_snippet data_text))
  | some chunk ↦ elim chunk.error [ some e ↦ err (chunk_error decoder.atoi e) | none ↦ ok chunk ]
]

-- The capture of the usage.
abbrev pub keep_usage : Chunk → ChatStream → ChatStream
keep_usage chunk sc = record sc { usage = elim chunk.usage [ none ↦ sc.usage | some u ↦ some u ] }
