-- ===== src/Messages/ChatTarget.antt =====
-- `dispatchOpenAI` of internal/adapter/messages/stream.go, for Chat Completions clients.
use opencode_go_cliproxyapi.Prelude.{
  Bool, List, Option, [], false, if◌then◌else◌, is_empty, none, not, some, suc, true, ◌++◌, ◌∷◌,
}
use opencode_go_cliproxyapi.Prelude.Text.{Text, codes, text_eq}
use opencode_go_cliproxyapi.Prelude.Int.{pos}
use opencode_go_cliproxyapi.Prelude.Json.{
  Json, array, elements, member, no_member, number, object, string,
}
use opencode_go_cliproxyapi.Protocol.{claude_stop_to_finish, terminal_reason}
use opencode_go_cliproxyapi.Frames.{ChatChunkBuilder, delta_chunk, finish_chunk, role_chunk}
use opencode_go_cliproxyapi.Frames.Usage.{cc_tool_call_opening, cc_usage}
use opencode_go_cliproxyapi.Messages.{
  BlockState, ClientEvent, Conversion, Step, StreamEvent, all_prompt_tokens, chat_event, failed,
  go_on, is_tool_use, new_block, orphan_arguments, put_block, sse_error, start_message, take_usage,
  tool_block_at,
}

-- `chatChunks`.
unfoldable pub chat_chunks : Conversion → ChatChunkBuilder
chat_chunks sc = record { id = sc.msg_id; model = sc.model; created = sc.created }

-- `emitRole`: the chunk, if it is due, and the converter after it.
unfoldable pub emit_role : Conversion → Conversion × List ClientEvent
unfolding chat_chunks
emit_role sc =
    if sc.role_sent
    then (sc, [])
    else (record sc { role_sent = true }, chat_event (chat_chunks sc) role_chunk ∷ [])

-- `emitChunk`.
unfoldable pub emit_chunk : Json → Text → Bool → Conversion → ClientEvent
unfolding chat_chunks
emit_chunk delta finish with_usage sc = chat_event (chat_chunks sc) (
    if is_empty finish
    then delta_chunk delta
    else finish_chunk finish (
        if with_usage
        then some (
            cc_usage (all_prompt_tokens sc) sc.completion_tokens (record {
              cached_tokens = sc.cache_read;
              cache_write_tokens = none;
              reasoning_tokens = none;
            }))
        else none))

-- The role chunk, if it is due, and a delta behind it.
unfoldable pub emit_delta : Json → Conversion → Step
unfolding emit_role emit_chunk
emit_delta delta sc =
    let begun = emit_role sc in go_on begun.0 (begun.1 ++ emit_chunk delta [] false begun.0 ∷ [])

-- The case `content_block_start`.
unfoldable pub open_block : StreamEvent → Conversion → Conversion
unfolding new_block put_block
open_block ev sc =
    let b = new_block ev.content_block in
    if is_tool_use b
    then record sc {
      tool_ordinal = suc sc.tool_ordinal;
      tools_seen = true;
      blocks = put_block ev.index (record b { ordinal = sc.tool_ordinal }) sc.blocks;
    }
    else record sc { blocks = put_block ev.index b sc.blocks }

-- The entry of `tool_calls` for a fragment.
unfoldable pub tool_call_entry : BlockState → Text → Json
tool_call_entry b fragment =
    if not b.emitted
    then cc_tool_call_opening b.ordinal b.id b.name fragment
    else object (
        member (codes "index") (number (pos b.ordinal)) (
          member (codes "function")
            (object (member (codes "arguments") (string fragment) no_member)) no_member))

-- The case `input_json_delta`, for the tool block of the index, if it is one.
unfoldable pub chat_arguments : Option BlockState → StreamEvent → Conversion → Step
unfolding emit_delta tool_call_entry put_block
chat_arguments none ev sc = failed sc orphan_arguments
chat_arguments (some b) ev sc =
    emit_delta
      (object (
        member (codes "tool_calls")
          (array (elements (tool_call_entry b ev.delta.partial_json ∷ []))) no_member))
      (record sc { blocks = put_block ev.index (record b { emitted = true }) sc.blocks })

-- The case `content_block_delta`.
unfoldable pub chat_delta : StreamEvent → Conversion → Step
unfolding chat_arguments emit_delta tool_block_at
chat_delta ev sc =
    if text_eq ev.delta.type (codes "text_delta")
    then emit_delta (object (member (codes "content") (string ev.delta.text) no_member)) sc
    else if text_eq ev.delta.type (codes "input_json_delta")
    then chat_arguments (tool_block_at ev.index sc) ev sc
    else go_on sc []

-- The case `message_delta`.
unfoldable pub chat_finish : StreamEvent → Conversion → Step
unfolding take_usage emit_chunk
chat_finish ev sc =
    let counted = take_usage ev.usage sc in
    go_on counted (
      emit_chunk (object no_member)
        (terminal_reason counted.tools_seen (codes "tool_calls")
          (claude_stop_to_finish ev.delta.stop_reason))
        true counted
      ∷ [])

-- `dispatchOpenAI`.
unfoldable pub dispatch_chat : Text → StreamEvent → Conversion → Step
unfolding start_message emit_role open_block chat_delta chat_finish
dispatch_chat etype ev sc =
    if text_eq etype (codes "message_start")
    then (let begun = emit_role (start_message ev.message sc) in go_on begun.0 begun.1)
    else if text_eq etype (codes "content_block_start")
    then go_on (open_block ev sc) []
    else if text_eq etype (codes "content_block_delta")
    then chat_delta ev sc
    else if text_eq etype (codes "message_delta")
    then chat_finish ev sc
    else if text_eq etype (codes "message_stop")
    then record { conv = sc; events = []; is_done = true; error = none }
    else if text_eq etype (codes "error")
    then failed sc (sse_error ev.error)
    else go_on sc []
