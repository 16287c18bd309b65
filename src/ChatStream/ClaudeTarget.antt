-- ===== src/ChatStream/ClaudeTarget.antt =====
-- The Messages target of internal/adapter/chatcompletions/stream.go: `claudeLine`, `claudeTerminal`,
-- `stopText` and `stopBlocks`.
use opencode_go_cliproxyapi.Prelude.{
  List, Option, [], false, if◌then◌else◌, is_empty, is_some, map, none, not, some, suc, true, ◌&&◌,
  ◌++◌, ◌∷◌,
}
use opencode_go_cliproxyapi.Prelude.Text.{Text, codes}
use opencode_go_cliproxyapi.Prelude.Int.{pos, ℤ}
use opencode_go_cliproxyapi.Prelude.Json.{Json, member, no_member, object, string}
use opencode_go_cliproxyapi.Protocol.{finish_to_claude_stop, terminal_reason}
use opencode_go_cliproxyapi.Frames.{
  ClaudeEmitter, ClaudeEvent, content_block_delta, content_block_start, content_block_stop,
  message_delta, message_start, message_stop,
}
use opencode_go_cliproxyapi.Frames.Usage.{clamp_subtract, claude_usage}
use opencode_go_cliproxyapi.ChatStream.{
  ChatStream, ChatStreamEvent, Chunk, ChunkChoice, ChunkUsage, StreamTool, ToolCallDelta, Written,
  claude_said, keep_usage, tool_at, ◌then_write◌,
}

abbrev pub said : ChatStream → ClaudeEvent → ChatStreamEvent
said sc event = claude_said sc.claude_em event

-- `stopText`.
unfoldable pub stop_text : ChatStream → Written
stop_text sc =
    if not sc.text_open
    then (sc, [])
    else (record sc { text_open = false }, said sc (content_block_stop (pos sc.text_index)) ∷ [])

-- The loop of `stopBlocks` over the tools.
abbrev pub put_tool :
    (ℤ × StreamTool)
    → List ClaudeEvent
    → List (ℤ × StreamTool) × List ClaudeEvent
    → List (ℤ × StreamTool) × List ClaudeEvent
put_tool tool events (tools, more) = (tool ∷ tools, events ++ more)

unfoldable pub stop_tools : List (ℤ × StreamTool) → List (ℤ × StreamTool) × List ClaudeEvent
stop_tools [] = ([], [])
stop_tools ((i, t) ∷ tools) =
    let rest = stop_tools tools in
    if t.stopped
    then put_tool (i, t) [] rest
    else put_tool (i, record t { stopped = true }) (content_block_stop (pos t.block_index) ∷ [])
        rest

unfoldable pub stop_all_tools : ChatStream → Written
unfolding stop_tools
stop_all_tools sc =
    let ended = stop_tools sc.tools in (record sc { tools = ended.0 }, map (said sc) ended.1)

-- `stopBlocks`.
unfoldable pub stop_blocks : ChatStream → Written
unfolding stop_text stop_all_tools
stop_blocks sc = stop_text sc then_write stop_all_tools

-- `claudeTerminal`.
unfoldable pub terminal_usage : Option ChunkUsage → Json
unfolding clamp_subtract claude_usage
terminal_usage none = claude_usage (clamp_subtract (pos 0) (none ∷ [])) (pos 0) none none
terminal_usage (some u) =
    claude_usage (clamp_subtract u.prompt_tokens (u.cached_tokens ∷ [])) u.completion_tokens
      u.cached_tokens none

unfoldable pub claude_terminal : ChatStream → Written
unfolding terminal_usage
claude_terminal sc = if is_empty sc.held_finish then (sc, []) else (
  record sc { held_finish = []; terminal_sent = true },
  said sc (
        message_delta
          (some (
            terminal_reason sc.tools_seen (codes "tool_use")
              (finish_to_claude_stop sc.held_finish)))
          (some (terminal_usage sc.usage)))
      ∷ [],
)

-- The first chunk with a choice.
unfoldable pub open_message : Chunk → ChatStream → Written
open_message chunk sc =
    if not sc.started && not (is_empty chunk.choices)
    then (let em : ClaudeEmitter = record { id = chunk.id; model = chunk.model } in
        (
          record sc { started = true; claude_em = em },
          claude_said em
                (message_start (elim chunk.usage [ none ↦ pos 0 | some u ↦ u.prompt_tokens ]))
              ∷ [],
        ))
    else (sc, [])

-- The text block, opened behind the end of all the others.
unfoldable pub start_text_block : ChatStream → Written
start_text_block sc = (
  record sc { text_index = sc.next_index; next_index = suc sc.next_index; text_open = true },
  said sc (
        content_block_start (pos sc.next_index) (codes "text")
          (member (codes "text") (string []) no_member))
      ∷ [],
)

unfoldable pub open_text : ChatStream → Written
unfolding start_text_block stop_blocks
open_text sc = if sc.text_open then (sc, []) else stop_blocks sc then_write start_text_block

unfoldable pub say_text : Text → ChatStream → Written
say_text content sc = (
  sc,
  said sc (
        content_block_delta (pos sc.text_index) (
          member (codes "type") (string (codes "text_delta"))
            (member (codes "text") (string content) no_member)))
      ∷ [],
)

unfoldable pub add_content : Text → ChatStream → Written
unfolding open_text say_text
add_content content sc =
    if is_empty content then (sc, []) else open_text sc then_write say_text content

-- A new tool, behind the end of all the blocks.
unfoldable pub start_tool_block : ToolCallDelta → ChatStream → Written
start_tool_block tc sc = (
  record sc {
    next_index = suc sc.next_index;
    tools_seen = true;
    tools =
        sc.tools
        ++ (
          tc.index,
          record {
            block_index = sc.next_index;
            id = tc.id;
            name = tc.name;
            args = [];
            stopped = false;
            input_emitted = 0;
          },
        )
          ∷ [];
  },
  said sc (
        content_block_start (pos sc.next_index) (codes "tool_use") (
          member (codes "id") (string tc.id) (
            member (codes "name") (string tc.name)
              (member (codes "input") (object no_member) no_member))))
      ∷ [],
)

unfoldable pub open_tool : ToolCallDelta → ChatStream → Written
unfolding start_tool_block stop_blocks tool_at
open_tool tc sc =
    if is_some (tool_at tc.index sc.tools)
    then (sc, [])
    else stop_blocks sc then_write start_tool_block tc

-- A fragment of arguments, for the tool that has the index by now.
unfoldable pub say_arguments : Option StreamTool → Text → ChatStream → Written
say_arguments none arguments sc = (sc, [])
say_arguments (some t) arguments sc = if is_empty arguments then (sc, []) else (
  sc,
  said sc (
        content_block_delta (pos t.block_index) (
          member (codes "type") (string (codes "input_json_delta"))
            (member (codes "partial_json") (string arguments) no_member)))
      ∷ [],
)

unfoldable pub add_tool_call : ToolCallDelta → ChatStream → Written
unfolding open_tool say_arguments tool_at
add_tool_call tc sc =
    open_tool tc sc then_write λ s. say_arguments (tool_at tc.index s.tools) tc.arguments s

unfoldable pub add_tool_calls : List ToolCallDelta → ChatStream → Written
unfolding add_tool_call
add_tool_calls [] sc = (sc, [])
add_tool_calls (tc ∷ tcs) sc = add_tool_call tc sc then_write add_tool_calls tcs

unfoldable pub hold_finish : Text → ChatStream → Written
unfolding stop_blocks
hold_finish reason sc =
    if not (is_empty reason) && not sc.finished
    then stop_blocks (record sc { finished = true; held_finish = reason })
    else (sc, [])

unfoldable pub claude_choice : List ChunkChoice → ChatStream → Written
unfolding add_content add_tool_calls hold_finish
claude_choice [] sc = (sc, [])
claude_choice (choice ∷ choices) sc =
    add_content choice.content sc
    then_write add_tool_calls choice.tool_calls
    then_write hold_finish choice.finish_reason

-- `claudeLine` behind the decoder.
unfoldable pub claude_chunk : Chunk → ChatStream → Written
unfolding claude_terminal open_message claude_choice
claude_chunk chunk sc =
    claude_terminal (keep_usage chunk sc)
    then_write open_message chunk
    then_write claude_choice chunk.choices

-- `claudeLine` for the end marker.
unfoldable pub claude_done : ChatStream → Written
unfolding stop_blocks claude_terminal
claude_done sc = stop_blocks (record sc { done = true }) then_write claude_terminal then_write λ s.
    (s, said s message_stop ∷ [])
