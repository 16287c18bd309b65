-- ===== src/ChatStream/Samples.antt =====
-- Runs of internal/adapter/chatcompletions/stream.go, and the theorem at a concrete stream.
use opencode_go_cliproxyapi.Prelude.{List, [], none, refl, ℕ, ◌∷◌, ◌≡◌}
use opencode_go_cliproxyapi.Prelude.Text.{Text, codes}
use opencode_go_cliproxyapi.Prelude.Int.{pos, ℤ}
use opencode_go_cliproxyapi.Frames.{
  content_block_delta, content_block_start, content_block_stop, message_delta, message_start,
  message_stop,
}
use opencode_go_cliproxyapi.ChatStream.{
  ChatStreamEvent, Chunk, ToolCallDelta, claude_said, new_chat_stream, passed, responses_said,
  tool_at, ◌then_write◌,
}
use opencode_go_cliproxyapi.ChatStream.ClaudeTarget.{
  add_content, add_tool_call, add_tool_calls, claude_choice, claude_chunk, claude_done,
  claude_terminal, hold_finish, open_message, open_text, open_tool, say_arguments, say_text,
  start_text_block, start_tool_block, stop_all_tools, stop_blocks, stop_text, stop_tools,
}
use opencode_go_cliproxyapi.ChatStream.Blocks.{Brackets}
use opencode_go_cliproxyapi.ChatStream.Streams.{claude_chunks, claude_stream-Brackets}

abbrev fragment : ℕ → Text → Text → ToolCallDelta
fragment i id arguments = record {
  index = pos i;
  id = id;
  name = codes "look";
  arguments = arguments;
}

abbrev chunk_of_choice : Text → List ToolCallDelta → Text → Chunk
chunk_of_choice content tool_calls finish_reason = record {
  id = codes "c";
  model = codes "m";
  choices =
      record { content = content; tool_calls = tool_calls; finish_reason = finish_reason } ∷ [];
  usage = none;
  error = none;
}

-- Two tools whose fragments are interleaved, a text between them, and the end.
abbrev interleaved : List Chunk
interleaved =
    chunk_of_choice [] (fragment 0 (codes "a") (codes "{") ∷ []) []
    ∷ chunk_of_choice (codes "hi") [] []
    ∷ chunk_of_choice [] (fragment 1 (codes "b") (codes "{}") ∷ fragment 0 [] (codes "}") ∷ []) []
    ∷ chunk_of_choice [] [] (codes "tool_calls")
    ∷ []

claude_stream-Brackets_example :
    let whole =
      claude_chunks interleaved (new_chat_stream (codes "claude")) then_write claude_done in
    Brackets none 0 whole.1 none whole.0.next_index
claude_stream-Brackets_example = claude_stream-Brackets (codes "claude") interleaved

-- The starts, the stops and the deltas of blocks, with their numbers.
data BlockEvent : Type 0 where
  opens closes extends : ℤ → BlockEvent

block_events : List ChatStreamEvent → List BlockEvent
block_events [] = []
block_events (claude_said em (content_block_start i kind extra) ∷ events) =
    opens i ∷ block_events events
block_events (claude_said em (content_block_stop i) ∷ events) = closes i ∷ block_events events
block_events (claude_said em (content_block_delta i delta) ∷ events) =
    extends i ∷ block_events events
block_events (claude_said em (message_start input) ∷ events) = block_events events
block_events (claude_said em (message_delta reason usage) ∷ events) = block_events events
block_events (claude_said em message_stop ∷ events) = block_events events
block_events (passed line ∷ events) = block_events events
block_events (responses_said em event ∷ events) = block_events events

-- The last fragment of the first tool goes to its block 0, which has been closed for the text.
late_fragment :
    block_events (claude_chunks interleaved (new_chat_stream (codes "claude"))).1
    ≡ opens (pos 0)
      ∷ extends (pos 0)
      ∷ closes (pos 0)
      ∷ opens (pos 1)
      ∷ extends (pos 1)
      ∷ closes (pos 1)
      ∷ opens (pos 2)
      ∷ extends (pos 2)
      ∷ extends (pos 0)
      ∷ closes (pos 2)
      ∷ []
unfolding block_events claude_chunks claude_chunk claude_terminal open_message claude_choice
    add_content open_text start_text_block say_text stop_blocks stop_text stop_all_tools stop_tools
    add_tool_calls add_tool_call open_tool start_tool_block say_arguments tool_at hold_finish
    new_chat_stream
late_fragment = refl
