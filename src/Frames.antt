-- ===== src/Frames.antt =====
-- What the stream synthesizers of internal/adapter/shared/shared.go emit for a Chat Completions client
-- (`ChatChunkBuilder`) and for a Messages client (`ClaudeEventEmitter`): a value for each call of an
-- emitter, and the JSON that the call renders. `json.Marshal` is a parameter.
pub mod Usage
pub mod Responses
use opencode_go_cliproxyapi.Prelude.{Option, [], if◌then◌else◌, is_empty, none, ◌&&◌, ◌∷◌}
use opencode_go_cliproxyapi.Prelude.Text.{Text, codes}
use opencode_go_cliproxyapi.Prelude.Int.{leb_ℤ, pos, ℤ}
use opencode_go_cliproxyapi.Prelude.Json.{
  Json, Members, array, elements, member, no_element, no_member, null, number, object,
  optional_member, string,
}
use opencode_go_cliproxyapi.Protocol.Parts.{sse_event}

-- `ChatChunkBuilder`, with the time of rendering for a zero `Created`.
pub record ChatChunkBuilder : Type 0 where
  pub id : Text
  pub model : Text
  pub created : ℤ

-- The calls `RoleChunk`, `Delta` and `Finish`.
pub data ChatChunk : Type 0 where
  role_chunk : ChatChunk
  delta_chunk : (delta : Json) → ChatChunk
  finish_chunk : (finish : Text) → (usage : Option Json) → ChatChunk

abbrev pub nullable_text : Text → Json
nullable_text finish = if is_empty finish then null else string finish

-- `frame`.
unfoldable pub chunk_frame : ℤ → ChatChunkBuilder → Json → Json → Option Json → Json
chunk_frame now b delta finish usage = object (
    member (codes "id") (string b.id) (
      member (codes "object") (string (codes "chat.completion.chunk")) (
        member (codes "created")
          (number (if leb_ℤ b.created (pos 0) && leb_ℤ (pos 0) b.created then now else b.created))
          (member (codes "model") (string b.model) (
            member (codes "choices")
              (array (
                elements (
                  object (
                    member (codes "index") (number (pos 0)) (
                      member (codes "delta") delta
                        (member (codes "finish_reason") finish no_member)))
                  ∷ [])))
              (optional_member (codes "usage") (λ u. u) usage no_member))))))

unfoldable pub render_chunk : ℤ → ChatChunkBuilder → ChatChunk → Json
unfolding chunk_frame
render_chunk now b role_chunk =
    chunk_frame now b
      (object (
        member (codes "role") (string (codes "assistant"))
          (member (codes "content") (string []) no_member)))
      null none
render_chunk now b (delta_chunk delta) = chunk_frame now b delta null none
render_chunk now b (finish_chunk finish usage) =
    chunk_frame now b (object no_member) (nullable_text finish) usage

-- `ClaudeEventEmitter`.
pub record ClaudeEmitter : Type 0 where
  pub id : Text
  pub model : Text

-- The calls of the emitter. `extra` holds the fields that the type of the block brings.
pub data ClaudeEvent : Type 0 where
  message_start : (input_tokens : ℤ) → ClaudeEvent
  content_block_start : (index : ℤ) → (block_type : Text) → (extra : Members) → ClaudeEvent
  content_block_delta : (index : ℤ) → (delta : Members) → ClaudeEvent
  content_block_stop : (index : ℤ) → ClaudeEvent
  message_delta : (stop_reason : Option Text) → (usage : Option Json) → ClaudeEvent
  message_stop : ClaudeEvent

abbrev pub claude_event_type : ClaudeEvent → Text
claude_event_type (message_start input_tokens) = codes "message_start"
claude_event_type (content_block_start index block_type extra) = codes "content_block_start"
claude_event_type (content_block_delta index delta) = codes "content_block_delta"
claude_event_type (content_block_stop index) = codes "content_block_stop"
claude_event_type (message_delta stop_reason usage) = codes "message_delta"
claude_event_type message_stop = codes "message_stop"

-- The members beside `type`.
unfoldable pub claude_event_body : ClaudeEmitter → ClaudeEvent → Members
claude_event_body e (message_start input_tokens) =
    member (codes "message")
      (object (
        member (codes "id") (string e.id) (
          member (codes "type") (string (codes "message")) (
            member (codes "role") (string (codes "assistant")) (
              member (codes "model") (string e.model) (
                member (codes "content") (array no_element) (
                  member (codes "usage")
                    (object (
                      member (codes "input_tokens") (number input_tokens)
                        (member (codes "output_tokens") (number (pos 0)) no_member)))
                    no_member)))))))
      no_member
claude_event_body e (content_block_start index block_type extra) =
    member (codes "index") (number index) (
      member (codes "content_block") (object (member (codes "type") (string block_type) extra))
        no_member)
claude_event_body e (content_block_delta index delta) =
    member (codes "index") (number index) (member (codes "delta") (object delta) no_member)
claude_event_body e (content_block_stop index) = member (codes "index") (number index) no_member
claude_event_body e (message_delta stop_reason usage) =
    member (codes "delta")
      (object (optional_member (codes "stop_reason") string stop_reason no_member))
      (optional_member (codes "usage") (λ u. u) usage no_member)
claude_event_body e message_stop = no_member

unfoldable pub claude_frame : (Json → Text) → ClaudeEmitter → ClaudeEvent → Text
unfolding sse_event claude_event_body
claude_frame marshal e event = sse_event (claude_event_type event) (
    marshal (
      object
        (member (codes "type") (string (claude_event_type event)) (claude_event_body e event))))
