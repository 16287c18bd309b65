-- ===== src/Messages/ResponsesTarget.antt =====
-- `dispatchResponses` of internal/adapter/messages/stream.go, for Responses clients. The codec and the
-- encoder are parameters, and so is the decoder of a message's content.
use opencode_go_cliproxyapi.Prelude.{
  List, Option, [], if◌then◌else◌, is_some, map, none, some, suc, true, ℕ, ◌++◌, ◌||◌, ◌∷◌,
}
use opencode_go_cliproxyapi.Prelude.Text.{Text, codes, text_eq}
use opencode_go_cliproxyapi.Prelude.Dict.{Dict}
use opencode_go_cliproxyapi.Prelude.Int.{leb_ℤ, pos, ℤ}
use opencode_go_cliproxyapi.Prelude.Json.{Json}
use opencode_go_cliproxyapi.Protocol.{default_args, response_status_from_claude_stop}
use opencode_go_cliproxyapi.Protocol.Parts.{join_texts}
use opencode_go_cliproxyapi.ResponseTools.{Codec, ToolIdentity}
use opencode_go_cliproxyapi.Assembly.{
  Assembler, RespItem, add_text, append_function_call, new_assembler, render, reserve_text_slot,
}
use opencode_go_cliproxyapi.Frames.Usage.{new_responses_usage}
use opencode_go_cliproxyapi.Frames.Responses.{
  ResponsesEmitter, ResponsesEvent, announce, completed, content_part_done, created, item_done,
  new_call, new_message, text_delta, text_done, tool_delta, tool_done,
}
use opencode_go_cliproxyapi.Messages.{
  BlockState, ClientEvent, Conversion, Step, StreamEvent, all_prompt_tokens, block_at, failed,
  go_on, is_tool_use, new_block, orphan_arguments, put_block, responses_event, sse_error,
  start_message, take_usage, tool_block_at,
}

-- What the target takes from outside: `json.Marshal`, the texts of the parts of a content, none where it
-- does not decode, and the codec of the tools.
pub record ResponsesLibrary : Type 0 where
  pub marshal : Json → Text
  pub part_texts : Text → Option (List Text)
  pub codec : Codec

-- `responsesEm`.
unfoldable pub responses_em : Conversion → ResponsesEmitter
responses_em sc = record { id = sc.msg_id; model = sc.model }

-- At most one event.
abbrev pub option_list {ℓ} : {A : Type ℓ} → Option A → List A
option_list none = []
option_list (some a) = a ∷ []

unfoldable pub to_events : Conversion → List ResponsesEvent → List ClientEvent
unfolding responses_em
to_events sc events = map (responses_event (responses_em sc)) events

-- `sort.Ints` on the keys of the blocks.
unfoldable pub insert_block : ℤ × BlockState → List (ℤ × BlockState) → List (ℤ × BlockState)
insert_block (i, b) [] = (i, b) ∷ []
insert_block (i, b) ((j, c) ∷ blocks) =
    if leb_ℤ i j then (i, b) ∷ (j, c) ∷ blocks else (j, c) ∷ insert_block (i, b) blocks

unfoldable pub sort_blocks : List (ℤ × BlockState) → List (ℤ × BlockState)
unfolding insert_block
sort_blocks [] = []
sort_blocks (entry ∷ blocks) = insert_block entry (sort_blocks blocks)

-- The case `text_delta`.
unfoldable pub append_text : ℤ → Text → Conversion → Conversion
unfolding block_at put_block
append_text i fragment sc = elim (block_at i sc.blocks) [
  | none ↦ sc
  | some b ↦ record sc { blocks = put_block i (record b { text = b.text ++ fragment }) sc.blocks }
]

unfoldable pub text_fragment : StreamEvent → Conversion → Step
unfolding to_events append_text
text_fragment ev sc = go_on (append_text ev.index ev.delta.text sc) (
    to_events sc (
      text_delta sc.msg_id (elim sc.msg_idx [ some idx ↦ pos idx | none ↦ ev.index ]) ev.delta.text
      ∷ []))

module _ (lib : ResponsesLibrary) (names : Dict ToolIdentity) where
  -- One round of the loop of `outputItems`.
  unfoldable pub add_block : BlockState → Assembler → Assembler
  unfolding add_text reserve_text_slot append_function_call
  add_block b a =
      if text_eq b.kind (codes "text")
      then add_text b.text (reserve_text_slot a)
      else if is_tool_use b
      then append_function_call lib.codec names b.id b.name (default_args b.args) a
      else a

  unfoldable pub add_blocks : List (ℤ × BlockState) → Assembler → Assembler
  unfolding add_block
  add_blocks [] a = a
  add_blocks ((i, b) ∷ blocks) a = add_blocks blocks (add_block b a)

  -- `outputItems`.
  unfoldable pub output_items : Conversion → List (Option RespItem)
  unfolding add_blocks sort_blocks render new_assembler
  output_items sc =
      render lib.marshal (add_blocks (sort_blocks sc.blocks) (new_assembler sc.msg_id))

  -- `responsesMessageText`.
  unfoldable pub message_text : Text → Text
  unfolding join_texts
  message_text content = elim (lib.part_texts content) [
    | none ↦ []
    | some texts ↦ join_texts (map some texts)
  ]

  -- The events of one item, and the loop over the items.
  unfoldable pub item_events : ℕ → Option RespItem → List ResponsesEvent
  unfolding message_text tool_done
  item_events i none = []
  item_events i (some item) =
      if text_eq item.kind (codes "message")
      then text_done item.id i (message_text item.content)
        ∷ content_part_done item.id i (message_text item.content)
        ∷ item_done i item
        ∷ []
      else if text_eq item.kind (codes "function_call")
          || text_eq item.kind (codes "custom_tool_call")
      then tool_done i item
      else []

  unfoldable pub items_events : ℕ → List (Option RespItem) → List ResponsesEvent
  unfolding item_events
  items_events i [] = []
  items_events i (item ∷ items) = item_events i item ++ items_events (suc i) items

  -- `responsesCompleted`.
  unfoldable pub responses_completed : Conversion → List ClientEvent
  unfolding to_events items_events output_items
  responses_completed sc =
      let items = output_items sc in
      to_events sc (
        items_events 0 items
        ++ completed (response_status_from_claude_stop sc.stop_reason)
            (new_responses_usage (all_prompt_tokens sc) sc.completion_tokens (record {
              cached_tokens = sc.cache_read;
              cache_write_tokens = sc.cache_creation;
              reasoning_tokens = none;
            }))
            items
          ∷ [])

  -- The cases of `content_block_start`: a text, of which only the first is announced, and a tool.
  unfoldable pub start_text : StreamEvent → Conversion → Step
  unfolding to_events put_block new_block announce
  start_text ev sc =
      let opened = record sc {
        blocks = put_block ev.index (new_block ev.content_block) sc.blocks;
      } in
      if is_some sc.msg_idx
      then go_on opened []
      else go_on (record opened { msg_idx = some sc.out_count; out_count = suc sc.out_count })
          (to_events sc (announce lib.codec names sc.out_count (new_message sc.msg_id) ∷ []))

  unfoldable pub start_tool : StreamEvent → Conversion → Step
  unfolding to_events put_block new_block announce
  start_tool ev sc =
      let b = record (new_block ev.content_block) { out_idx = sc.out_count } in
      go_on
        (record sc {
          tools_seen = true;
          out_count = suc sc.out_count;
          blocks = put_block ev.index b sc.blocks;
        })
        (to_events sc (
          announce lib.codec names sc.out_count (
            new_call b.id (record {
              kind = codes "function_call";
              name = b.name;
              namespace = none;
              arguments = some [];
              input = none;
            }))
          ∷ []))

  unfoldable pub start_block : StreamEvent → Conversion → Step
  unfolding start_text start_tool put_block new_block
  start_block ev sc =
      if text_eq ev.content_block.type (codes "text")
      then start_text ev sc
      else if text_eq ev.content_block.type (codes "tool_use")
      then start_tool ev sc
      else go_on (record sc { blocks = put_block ev.index (new_block ev.content_block) sc.blocks })
          []

  -- The case `input_json_delta`, for the tool block of the index, if it is one.
  unfoldable pub arguments_to : Option BlockState → StreamEvent → Conversion → Step
  unfolding to_events tool_delta put_block
  arguments_to none ev sc = failed sc orphan_arguments
  arguments_to (some b) ev sc =
      let args = b.args ++ ev.delta.partial_json in
      let sent =
        tool_delta lib.codec names b.id b.out_idx b.name ev.delta.partial_json args
          b.input_emitted in
      go_on
        (record sc {
          blocks = put_block ev.index (record b { args = args; input_emitted = sent.1 }) sc.blocks;
        })
        (to_events sc (option_list sent.0))

  unfoldable pub arguments_fragment : StreamEvent → Conversion → Step
  unfolding arguments_to tool_block_at
  arguments_fragment ev sc = arguments_to (tool_block_at ev.index sc) ev sc

  unfoldable pub continue_block : StreamEvent → Conversion → Step
  unfolding text_fragment arguments_fragment
  continue_block ev sc =
      if text_eq ev.delta.type (codes "text_delta")
      then text_fragment ev sc
      else if text_eq ev.delta.type (codes "input_json_delta")
      then arguments_fragment ev sc
      else go_on sc []

  -- `dispatchResponses`.
  unfoldable pub dispatch_responses : Text → StreamEvent → Conversion → Step
  unfolding to_events start_message start_block continue_block take_usage responses_completed
  dispatch_responses etype ev sc =
      if text_eq etype (codes "message_start")
      then (let begun = start_message ev.message sc in go_on begun (to_events begun (created ∷ [])))
      else if text_eq etype (codes "content_block_start")
      then start_block ev sc
      else if text_eq etype (codes "content_block_delta")
      then continue_block ev sc
      else if text_eq etype (codes "message_delta")
      then go_on (record (take_usage ev.usage sc) { stop_reason = ev.delta.stop_reason }) []
      else if text_eq etype (codes "message_stop")
      then record { conv = sc; events = responses_completed sc; is_done = true; error = none }
      else if text_eq etype (codes "error")
      then failed sc (sse_error ev.error)
      else go_on sc []
