-- ===== src/Messages/Samples.antt =====
-- Runs of the converter of internal/adapter/messages/stream.go, and the theorems at a concrete stream.
use opencode_go_cliproxyapi.Prelude.{List, [], map, none, refl, some, take, ℕ, ◌∷◌, ◌≡◌}
use opencode_go_cliproxyapi.Prelude.Text.{Text, codes, text_eq}
use opencode_go_cliproxyapi.Prelude.Dict.{Dict, lookup}
use opencode_go_cliproxyapi.Prelude.Int.{pos}
use opencode_go_cliproxyapi.ResponseTools.{ToolIdentity, identity_of, restore_call}
use opencode_go_cliproxyapi.Assembly.{
  RespItem, add_text, append_function_call, call_item, message_item, new_assembler, render,
  reserve_text_slot,
}
use opencode_go_cliproxyapi.Frames.Responses.{announce, tool_delta, tool_done}
use opencode_go_cliproxyapi.Sse.Chunks.{joined}
use opencode_go_cliproxyapi.Messages.{block_at, new_block, new_conversion, put_block, tool_block_at}
use opencode_go_cliproxyapi.Messages.ResponsesTarget.{
  ResponsesLibrary, add_block, add_blocks, append_text, arguments_fragment, arguments_to,
  continue_block, dispatch_responses, insert_block, item_events, items_events, output_items,
  responses_completed, sort_blocks, start_block, start_text, start_tool, text_fragment, to_events,
}
use opencode_go_cliproxyapi.Messages.Feed.{
  Decoder, empty_event, empty_probe, feed_chunk, new_stream_converter,
}
use opencode_go_cliproxyapi.Messages.Loop.{dispatch_all, feed_chunks, feed_chunks-joined}
use opencode_go_cliproxyapi.Messages.RoleChunk.{LedByRole, dispatch_all-LedByRole, respond_chat}
use opencode_go_cliproxyapi.Messages.Announce.{
  Ascending, announcements, call_slot, item_slot, message_slot, number_from,
}
use opencode_go_cliproxyapi.Messages.Announce.Starts.{
  TypedEvent, announcements-output_items, opened, respond,
}

abbrev plain_library : ResponsesLibrary
plain_library = record {
  marshal = λ j. codes "json";
  part_texts = λ t. some (t ∷ []);
  codec = record { digest = λ t. take 12 t; input_of = λ t. none; quote = λ t. t };
}

abbrev no_names : Dict ToolIdentity
no_names = []

abbrev block_start : ℕ → Text → Text → TypedEvent
block_start i kind id = (
  codes "content_block_start",
  record empty_event {
    index = pos i;
    content_block = record { type = kind; id = id; name = codes "look" };
  },
)

abbrev block_delta : ℕ → Text → Text → TypedEvent
block_delta i kind fragment = (
  codes "content_block_delta",
  record empty_event {
    index = pos i;
    delta = record { type = kind; text = fragment; partial_json = fragment; stop_reason = [] };
  },
)

-- A thinking block, a tool, a text, another tool, and the end.
abbrev sample_events : List TypedEvent
sample_events =
    block_start 0 (codes "thinking") []
    ∷ block_start 1 (codes "tool_use") (codes "c1")
    ∷ block_delta 1 (codes "input_json_delta") (codes "{}")
    ∷ block_start 2 (codes "text") []
    ∷ block_delta 2 (codes "text_delta") (codes "hi")
    ∷ block_start 5 (codes "tool_use") (codes "c2")
    ∷ (codes "message_stop", empty_event)
    ∷ []

sample_opened : Ascending (opened sample_events)
unfolding Ascending opened text_eq
sample_opened = ((refl, (refl, (refl, tt))), ((refl, (refl, tt)), ((refl, tt), (tt, tt))))

-- The output has the call, the message and the other call.
announcements-output_items_example :
    let step =
      dispatch_all
        (respond plain_library no_names)
        sample_events
        (new_conversion (codes "openai-response") (pos 7)) in
    (items : List RespItem) × (output_items plain_library no_names step.conv ≡ map some items)
    × (announcements step.events ≡ number_from 0 (map item_slot items))
announcements-output_items_example =
    announcements-output_items plain_library no_names (codes "openai-response") (pos 7)
      sample_events sample_opened

sample_announcements :
    announcements
      (dispatch_all
        (respond plain_library no_names)
        sample_events
        (new_conversion (codes "openai-response") (pos 7))).events
    ≡ (0, call_slot (codes "c1")) ∷ (1, message_slot) ∷ (2, call_slot (codes "c2")) ∷ []
unfolding dispatch_all respond announcements new_conversion dispatch_responses text_eq start_block
    start_text start_tool continue_block text_fragment arguments_fragment arguments_to tool_block_at
    block_at put_block new_block to_events announce restore_call tool_delta append_text
    responses_completed items_events item_events tool_done identity_of lookup output_items
    sort_blocks insert_block add_blocks add_block render new_assembler reserve_text_slot add_text
    append_function_call call_item message_item
sample_announcements = refl

dispatch_all-LedByRole_example :
    let sc = new_conversion (codes "openai") (pos 7) in
    let step = dispatch_all respond_chat sample_events sc in
    LedByRole sc.role_sent step.events step.conv.role_sent
dispatch_all-LedByRole_example =
    dispatch_all-LedByRole sample_events (new_conversion (codes "openai") (pos 7))

-- Every payload is a text delta of the first block.
abbrev plain_decoder : Decoder
plain_decoder = record {
  event_of = λ t. some (block_delta 0 (codes "text_delta") t).1;
  probe_of = λ t. empty_probe;
}

abbrev cut_stream : List Text
cut_stream = codes "event: content_block_delta" ∷ (10 ∷ codes "data: x") ∷ (10 ∷ 10 ∷ []) ∷ []

feed_chunks-joined_example :
    let s = new_stream_converter (codes "openai") (pos 7) in
    feed_chunks plain_decoder (λ t. t) plain_library no_names cut_stream s
    ≡ (feed_chunk plain_decoder (λ t. t) plain_library no_names (joined cut_stream) s).1
feed_chunks-joined_example =
    feed_chunks-joined plain_decoder (λ t. t) plain_library no_names (codes "openai") (pos 7)
      cut_stream
