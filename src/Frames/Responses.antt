-- ===== src/Frames/Responses.antt =====
-- `ResponsesEventEmitter` of internal/adapter/shared/shared.go: a value for each call of the emitter, the
-- calls that decide which event is due, and the frame of an event.
use opencode_go_cliproxyapi.Prelude.{
  List, Option, [], drop, if◌then◌else◌, is_empty, leb, length, none, not, or_default, some, ℕ,
  ◌||◌, ◌∷◌,
}
use opencode_go_cliproxyapi.Prelude.Text.{Text, codes, text_eq}
use opencode_go_cliproxyapi.Prelude.Dict.{Dict}
use opencode_go_cliproxyapi.Prelude.Int.{pos, ℤ}
use opencode_go_cliproxyapi.Prelude.Json.{
  Json, Members, array, elements, member, no_element, no_member, nonempty_member, null, number,
  object, optional_member, raw_message, string,
}
use opencode_go_cliproxyapi.Protocol.Parts.{sse_event}
use opencode_go_cliproxyapi.ResponseTools.{
  CallItem, Codec, ToolIdentity, identity_of, restore_call, unwrap_input,
}
use opencode_go_cliproxyapi.Assembly.{RespItem}
use opencode_go_cliproxyapi.Frames.Usage.{ResponsesUsage, responses_usage_json}

-- The item that `ItemAdded` announces: a message with its id, or a call with its call id.
pub data Announced : Type 0 where
  new_message : (id : Text) → Announced
  new_call : (call_id : Text) → CallItem → Announced

-- The calls of the emitter; `item_added` holds the item that `RestoreCall` leaves.
pub data ResponsesEvent : Type 0 where
  created : ResponsesEvent
  item_added : (output_index : ℕ) → (item : Announced) → ResponsesEvent
  text_delta : (item_id : Text) → (output_index : ℤ) → (delta : Text) → ResponsesEvent
  args_delta : (item_id : Text) → (output_index : ℕ) → (delta : Text) → ResponsesEvent
  input_delta : (item_id : Text) → (output_index : ℕ) → (delta : Text) → ResponsesEvent
  input_done : (item_id : Text) → (output_index : ℕ) → (input : Text) → ResponsesEvent
  text_done : (item_id : Text) → (output_index : ℕ) → (text : Text) → ResponsesEvent
  content_part_done : (item_id : Text) → (output_index : ℕ) → (text : Text) → ResponsesEvent
  args_done : (item_id : Text) → (output_index : ℕ) → (name args : Text) → ResponsesEvent
  item_done : (output_index : ℕ) → (item : RespItem) → ResponsesEvent
  completed :
      (status : Text)
      → (usage : ResponsesUsage) → (output : List (Option RespItem)) → ResponsesEvent

module _ (codec : Codec) (names : Dict ToolIdentity) where
  -- `ItemAdded`: only calls are restored.
  unfoldable pub announce : ℕ → Announced → ResponsesEvent
  unfolding restore_call
  announce output_index (new_message id) = item_added output_index (new_message id)
  announce output_index (new_call call_id call) =
      item_added output_index (new_call call_id (restore_call codec names call).0)

  -- `ToolDelta`: the event, if one is due, and the bytes of the input that are out.
  unfoldable pub tool_delta : Text → ℕ → Text → Text → Text → ℕ → Option ResponsesEvent × ℕ
  unfolding identity_of
  tool_delta item_id output_index name fragment accumulated emitted =
      let input = unwrap_input codec accumulated in
      if not (identity_of names name).custom
      then (some (args_delta item_id output_index fragment), emitted)
      else if text_eq input accumulated || leb (length input) emitted
      then (none, emitted)
      else (some (input_delta item_id output_index (drop emitted input)), length input)

-- `ToolDone`.
unfoldable pub tool_done : ℕ → RespItem → List ResponsesEvent
tool_done output_index item =
    if text_eq item.kind (codes "custom_tool_call")
    then input_done item.call_id output_index (or_default item.input [])
      ∷ item_done output_index item
      ∷ []
    else args_done item.call_id output_index item.name item.arguments
      ∷ item_done output_index item
      ∷ []

-- The JSON tags of `RespItem`.
unfoldable pub resp_item_json : RespItem → Json
resp_item_json item = object (
    member (codes "type") (string item.kind) (
      nonempty_member (codes "id") item.id (
        nonempty_member (codes "role") item.role (
          optional_member (codes "content") raw_message
            (if is_empty item.content then none else some item.content)
            (nonempty_member (codes "call_id") item.call_id (
              nonempty_member (codes "name") item.name (
                nonempty_member (codes "arguments") item.arguments (
                  optional_member (codes "input") string item.input
                    (nonempty_member (codes "namespace") item.namespace no_member)))))))))

-- An item that is nil is `null`.
abbrev pub output_json : List (Option RespItem) → List Json
unfolding resp_item_json
output_json [] = []
output_json (none ∷ items) = null ∷ output_json items
output_json (some item ∷ items) = resp_item_json item ∷ output_json items

abbrev pub announced_json : Announced → Json
announced_json (new_message id) = object (
    member (codes "type") (string (codes "message")) (
      member (codes "id") (string id) (
        member (codes "role") (string (codes "assistant"))
          (member (codes "content") (array no_element) no_member))))
announced_json (new_call call_id call) = object (
    member (codes "type") (string call.kind) (
      member (codes "call_id") (string call_id) (
        member (codes "name") (string call.name) (
          optional_member (codes "namespace") string call.namespace (
            optional_member (codes "arguments") string call.arguments
              (optional_member (codes "input") string call.input no_member))))))

abbrev pub responses_event_type : ResponsesEvent → Text
responses_event_type created = codes "response.created"
responses_event_type (item_added i item) = codes "response.output_item.added"
responses_event_type (text_delta id i delta) = codes "response.output_text.delta"
responses_event_type (args_delta id i delta) = codes "response.function_call_arguments.delta"
responses_event_type (input_delta id i delta) = codes "response.custom_tool_call_input.delta"
responses_event_type (input_done id i input) = codes "response.custom_tool_call_input.done"
responses_event_type (text_done id i text) = codes "response.output_text.done"
responses_event_type (content_part_done id i text) = codes "response.content_part.done"
responses_event_type (args_done id i name args) = codes "response.function_call_arguments.done"
responses_event_type (item_done i item) = codes "response.output_item.done"
responses_event_type (completed status usage output) = codes "response.completed"

-- `ResponsesEventEmitter` without its tools.
pub record ResponsesEmitter : Type 0 where
  pub id : Text
  pub model : Text

abbrev pub item_ref : Text → ℤ → Members → Members
item_ref id i rest =
    member (codes "item_id") (string id) (member (codes "output_index") (number i) rest)

-- The members beside `type`, for the time of rendering.
unfoldable pub responses_event_body : ℤ → ResponsesEmitter → ResponsesEvent → Members
responses_event_body now e created =
    member (codes "response")
      (object (
        member (codes "id") (string e.id) (
          member (codes "object") (string (codes "response")) (
            member (codes "created_at") (number now)
              (member (codes "status") (string (codes "in_progress")) no_member)))))
      no_member
responses_event_body now e (item_added i item) =
    member (codes "output_index") (number (pos i))
      (member (codes "item") (announced_json item) no_member)
responses_event_body now e (text_delta id i delta) =
    item_ref id i (member (codes "delta") (string delta) no_member)
responses_event_body now e (args_delta id i delta) =
    item_ref id (pos i) (member (codes "delta") (string delta) no_member)
responses_event_body now e (input_delta id i delta) =
    item_ref id (pos i) (member (codes "delta") (string delta) no_member)
responses_event_body now e (input_done id i input) =
    item_ref id (pos i) (member (codes "input") (string input) no_member)
responses_event_body now e (text_done id i text) = item_ref id (pos i) (
    member (codes "content_index") (number (pos 0)) (member (codes "text") (string text) no_member))
responses_event_body now e (content_part_done id i text) = item_ref id (pos i) (
    member (codes "content_index") (number (pos 0)) (
      member (codes "part")
        (object (
          member (codes "type") (string (codes "output_text"))
            (member (codes "text") (string text) no_member)))
        no_member))
responses_event_body now e (args_done id i name args) =
    item_ref id (pos i)
      (member (codes "arguments") (string args) (nonempty_member (codes "name") name no_member))
responses_event_body now e (item_done i item) =
    member (codes "output_index") (number (pos i))
      (member (codes "item") (resp_item_json item) no_member)
responses_event_body now e (completed status usage output) =
    member (codes "response")
      (object (
        member (codes "id") (string e.id) (
          member (codes "object") (string (codes "response")) (
            member (codes "model") (string e.model) (
              member (codes "status") (string status) (
                member (codes "usage") (responses_usage_json usage)
                  (member (codes "output") (array (elements (output_json output))) no_member)))))))
      no_member

unfoldable pub responses_frame : (Json → Text) → ℤ → ResponsesEmitter → ResponsesEvent → Text
unfolding sse_event responses_event_body
responses_frame marshal now e event = sse_event (responses_event_type event) (
    marshal (
      object (
        member (codes "type") (string (responses_event_type event))
          (responses_event_body now e event))))
