-- ===== src/ChatStream/ResponsesRoute.antt =====
-- The Responses target of internal/adapter/chatcompletions/stream.go: `responsesLine` and
-- `responsesTerminal`.
use opencode_go_cliproxyapi.Prelude.{
  Bool, List, Option, [], false, if◌then◌else◌, is_empty, is_some, ltb, map, none, not, or_default,
  some, suc, true, ℕ, ◌&&◌, ◌++◌, ◌||◌, ◌∷◌,
}
use opencode_go_cliproxyapi.Prelude.Text.{Text, codes, text_eq}
use opencode_go_cliproxyapi.Prelude.Dict.{Dict}
use opencode_go_cliproxyapi.Prelude.Int.{leb_ℤ, pos, ℤ}
use opencode_go_cliproxyapi.Prelude.Json.{Json}
use opencode_go_cliproxyapi.Protocol.{default_args, response_status_from_cc_finish}
use opencode_go_cliproxyapi.ResponseTools.{Codec, ToolIdentity}
use opencode_go_cliproxyapi.Assembly.{
  Assembler, RespItem, add_text, append_function_call, new_assembler, render, reserve_text_slot,
}
use opencode_go_cliproxyapi.Frames.Usage.{ResponsesUsage, new_responses_usage}
use opencode_go_cliproxyapi.Frames.Responses.{
  ResponsesEmitter, ResponsesEvent, announce, completed, content_part_done, created, item_done,
  new_call, new_message, text_delta, text_done, tool_delta, tool_done,
}
use opencode_go_cliproxyapi.ChatStream.{
  ChatStream, ChatStreamEvent, Chunk, ChunkChoice, ChunkUsage, StreamTool, ToolCallDelta, Written,
  keep_usage, responses_said, tool_at, ◌then_write◌,
}

-- `responsesEm`, and events that it makes.
unfoldable pub route_em : ChatStream → ResponsesEmitter
route_em sc = record { id = sc.id; model = sc.model }

unfoldable pub respond_with : ChatStream → List ResponsesEvent → List ChatStreamEvent
unfolding route_em
respond_with sc events = map (responses_said (route_em sc)) events

-- An assignment through the pointer `sc.tools[i]`.
unfoldable pub put_stream_tool : ℤ → StreamTool → List (ℤ × StreamTool) → List (ℤ × StreamTool)
put_stream_tool i t [] = []
put_stream_tool i t ((j, u) ∷ tools) =
    if leb_ℤ j i && leb_ℤ i j then (j, t) ∷ tools else (j, u) ∷ put_stream_tool i t tools

-- `UsageDetails` of the terminal.
unfoldable pub route_usage : Option ChunkUsage → ResponsesUsage
unfolding new_responses_usage
route_usage none =
    new_responses_usage (pos 0) (pos 0)
      (record { cached_tokens = none; cache_write_tokens = none; reasoning_tokens = none })
route_usage (some u) = new_responses_usage u.prompt_tokens u.completion_tokens (record {
  cached_tokens = u.cached_tokens;
  cache_write_tokens = none;
  reasoning_tokens = u.reasoning_tokens;
})

module _ (marshal : Json → Text) (codec : Codec) (names : Dict ToolIdentity) where
  -- Whether the slot of the message is reserved in front of a tool.
  unfoldable pub reserves_before : Option ℕ → Bool → StreamTool → Bool
  reserves_before none reserved t = false
  reserves_before (some place) reserved t = not reserved && ltb place t.block_index

  -- The loop over the tools, with the variable `reserved`.
  unfoldable pub assemble_tools :
      Option ℕ → Bool → List (ℤ × StreamTool) → Assembler → Assembler × Bool
  unfolding reserves_before reserve_text_slot append_function_call
  assemble_tools place reserved [] a = (a, reserved)
  assemble_tools place reserved ((i, t) ∷ tools) a =
      let due = reserves_before place reserved t in
      let ready = if due then reserve_text_slot a else a in
      assemble_tools place (reserved || due) tools
        (append_function_call codec names t.id t.name (default_args t.args) ready)

  unfoldable pub terminal_assembler : ChatStream → Assembler
  unfolding assemble_tools reserve_text_slot add_text new_assembler
  terminal_assembler sc =
      let looped = assemble_tools sc.msg_index false sc.tools (new_assembler sc.id) in
      add_text sc.resp_text
        (if is_some sc.msg_index && not looped.1 then reserve_text_slot looped.0 else looped.0)

  -- The events of the items, the text of the message being that of the stream.
  unfoldable pub terminal_item_events : Text → ℕ → Option RespItem → List ResponsesEvent
  unfolding tool_done
  terminal_item_events text i none = []
  terminal_item_events text i (some item) =
      if text_eq item.kind (codes "message")
      then text_done item.id i text ∷ content_part_done item.id i text ∷ item_done i item ∷ []
      else if text_eq item.kind (codes "function_call")
          || text_eq item.kind (codes "custom_tool_call")
      then tool_done i item
      else []

  unfoldable pub terminal_items_events : Text → ℕ → List (Option RespItem) → List ResponsesEvent
  unfolding terminal_item_events
  terminal_items_events text i [] = []
  terminal_items_events text i (item ∷ items) =
      terminal_item_events text i item ++ terminal_items_events text (suc i) items

  -- `responsesTerminal`.
  unfoldable pub responses_terminal : ChatStream → Written
  unfolding terminal_items_events terminal_assembler render route_usage respond_with
  responses_terminal sc =
      if is_empty sc.held_finish
      then (sc, [])
      else let items = render marshal (terminal_assembler sc) in
        (
          record sc { held_finish = [] },
          respond_with sc (
              terminal_items_events sc.resp_text 0 items
              ++ completed (response_status_from_cc_finish sc.held_finish) (route_usage sc.usage)
                  items
                ∷ []),
        )

  unfoldable pub open_response : Chunk → ChatStream → Written
  unfolding respond_with
  open_response chunk sc =
      if not sc.started && not (is_empty chunk.choices)
      then (let begun : ChatStream = record sc {
        started = true;
        id = chunk.id;
        model = chunk.model;
      } in
          (begun, respond_with begun (created ∷ [])))
      else (sc, [])

  -- The message item, announced at its first text.
  unfoldable pub open_item : ChatStream → Written
  unfolding respond_with announce
  open_item sc = if is_some sc.msg_index then (sc, []) else (
    record sc { msg_index = some sc.next_index; next_index = suc sc.next_index },
    respond_with sc (announce codec names sc.next_index (new_message sc.id) ∷ []),
  )

  unfoldable pub respond_text : Text → ChatStream → Written
  unfolding respond_with
  respond_text content sc = (
    record sc { resp_text = sc.resp_text ++ content },
    respond_with sc (text_delta sc.id (pos (or_default sc.msg_index 0)) content ∷ []),
  )

  unfoldable pub respond_content : Text → ChatStream → Written
  unfolding open_item respond_text
  respond_content content sc =
      if is_empty content then (sc, []) else open_item sc then_write respond_text content

  unfoldable pub open_call : ToolCallDelta → ChatStream → Written
  unfolding respond_with announce tool_at
  open_call tc sc = if is_some (tool_at tc.index sc.tools) then (sc, []) else (
    record sc {
      next_index = suc sc.next_index;
      tools_seen = true;
      tools =
          sc.tools
          ++ (
            tc.index,
            record {
              block_index = sc.next_index;
              id = tc.id;
              name = tc.name;
              args = [];
              stopped = false;
              input_emitted = 0;
            },
          )
            ∷ [];
    },
    respond_with sc (
        announce codec names sc.next_index (
          new_call tc.id (record {
            kind = codes "function_call";
            name = tc.name;
            namespace = none;
            arguments = some [];
            input = none;
          }))
        ∷ []),
  )

  unfoldable pub respond_arguments : ℤ → Option StreamTool → Text → ChatStream → Written
  unfolding respond_with tool_delta put_stream_tool
  respond_arguments i none arguments sc = (sc, [])
  respond_arguments i (some t) arguments sc =
      if is_empty arguments
      then (sc, [])
      else let args = t.args ++ arguments in
        let sent =
          tool_delta codec names t.id t.block_index t.name arguments args t.input_emitted in
        (
          record sc {
            tools = put_stream_tool i (record t { args = args; input_emitted = sent.1 }) sc.tools;
          },
          respond_with sc (elim sent.0 [ none ↦ [] | some event ↦ event ∷ [] ]),
        )

  unfoldable pub respond_call : ToolCallDelta → ChatStream → Written
  unfolding open_call respond_arguments tool_at
  respond_call tc sc = open_call tc sc then_write λ s.
      respond_arguments tc.index (tool_at tc.index s.tools) tc.arguments s

  unfoldable pub respond_calls : List ToolCallDelta → ChatStream → Written
  unfolding respond_call
  respond_calls [] sc = (sc, [])
  respond_calls (tc ∷ tcs) sc = respond_call tc sc then_write respond_calls tcs

  unfoldable pub keep_finish : Text → ChatStream → Written
  keep_finish reason sc =
      if not (is_empty reason) && not sc.finished
      then (record sc { finished = true; held_finish = reason }, [])
      else (sc, [])

  unfoldable pub respond_choice : List ChunkChoice → ChatStream → Written
  unfolding respond_content respond_calls keep_finish
  respond_choice [] sc = (sc, [])
  respond_choice (choice ∷ choices) sc =
      respond_content choice.content sc
      then_write respond_calls choice.tool_calls
      then_write keep_finish choice.finish_reason

  -- `responsesLine` behind the decoder, and for the end marker.
  unfoldable pub responses_chunk : Chunk → ChatStream → Written
  unfolding responses_terminal open_response respond_choice
  responses_chunk chunk sc =
      responses_terminal (keep_usage chunk sc)
      then_write open_response chunk
      then_write respond_choice chunk.choices

  unfoldable pub responses_done : ChatStream → Written
  unfolding responses_terminal
  responses_done sc = responses_terminal (record sc { done = true })
