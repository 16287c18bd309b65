-- ===== src/Protocol/Reasons.antt =====
-- The tables of stop and finish reasons of internal/adapter/shared/shared.go against one another.
use opencode_go_cliproxyapi.Prelude.{Bool-cases, [], if◌then◌else◌, inl, inr, refl, ◌∷◌, ◌≡◌}
use opencode_go_cliproxyapi.Prelude.Text.{
  Text, Text-cases, codes, mem_text, text_eq, text_eq_comm, text_eq_iff, text_eq_of_ne,
}
use opencode_go_cliproxyapi.Protocol.{
  claude_stop_to_finish, finish_to_claude_stop, response_status_from_cc_finish,
  response_status_from_claude_stop,
}

finish_again :
    (finish : Text)
    → claude_stop_to_finish (finish_to_claude_stop finish) ≡ (
        if mem_text finish
          (codes "tool_calls" ∷ codes "length" ∷ codes "content_filter" ∷ codes "stop" ∷ [])
        then finish
        else codes "stop")
unfolding finish_to_claude_stop claude_stop_to_finish text_eq mem_text
finish_again finish = elim (Text-cases finish (codes "tool_calls")) [
  | inl e ↦ rw e refl
  | inr n1 ↦ elim (Text-cases finish (codes "length")) [
    | inl e ↦ rw e refl
    | inr n2 ↦ elim (Text-cases finish (codes "content_filter")) [
      | inl e ↦ rw e refl
      | inr n3 ↦ elim (Text-cases finish (codes "stop")) [
        | inl e ↦ rw e refl
        | inr n4 ↦
            rw
              (
                text_eq_comm (codes "tool_calls") finish,
                text_eq_of_ne finish (codes "tool_calls") n1,
                text_eq_comm (codes "length") finish,
                text_eq_of_ne finish (codes "length") n2,
                text_eq_comm (codes "content_filter") finish,
                text_eq_of_ne finish (codes "content_filter") n3,
                text_eq_comm (codes "stop") finish,
                text_eq_of_ne finish (codes "stop") n4,
              )
              refl
      ]
    ]
  ]
]

stop_again :
    (stop : Text)
    → finish_to_claude_stop (claude_stop_to_finish stop) ≡ (
        if mem_text stop
          (codes "tool_use" ∷ codes "max_tokens" ∷ codes "refusal" ∷ codes "end_turn" ∷ [])
        then stop
        else codes "end_turn")
unfolding finish_to_claude_stop claude_stop_to_finish text_eq mem_text
stop_again stop = elim (Text-cases stop (codes "tool_use")) [
  | inl e ↦ rw e refl
  | inr n1 ↦ elim (Text-cases stop (codes "max_tokens")) [
    | inl e ↦ rw e refl
    | inr n2 ↦ elim (Text-cases stop (codes "refusal")) [
      | inl e ↦ rw e refl
      | inr n3 ↦ elim (Text-cases stop (codes "end_turn")) [
        | inl e ↦ rw e refl
        | inr n4 ↦
            rw
              (
                text_eq_comm (codes "tool_use") stop,
                text_eq_of_ne stop (codes "tool_use") n1,
                text_eq_comm (codes "max_tokens") stop,
                text_eq_of_ne stop (codes "max_tokens") n2,
                text_eq_comm (codes "refusal") stop,
                text_eq_of_ne stop (codes "refusal") n3,
                text_eq_comm (codes "end_turn") stop,
                text_eq_of_ne stop (codes "end_turn") n4,
              )
              refl
      ]
    ]
  ]
]

-- A finish reason that goes to Messages and back is the same again if it is one of the four that both
-- protocols have, and any other comes back as "stop"; a stop reason that goes to Chat Completions and back
-- likewise, and any other than its four comes back as "end_turn".
pub reasons_again :
    (reason : Text)
    → (claude_stop_to_finish (finish_to_claude_stop reason) ≡ (
        if mem_text reason
          (codes "tool_calls" ∷ codes "length" ∷ codes "content_filter" ∷ codes "stop" ∷ [])
        then reason
        else codes "stop"))
      × (finish_to_claude_stop (claude_stop_to_finish reason) ≡ (
          if mem_text reason
            (codes "tool_use" ∷ codes "max_tokens" ∷ codes "refusal" ∷ codes "end_turn" ∷ [])
          then reason
          else codes "end_turn"))
reasons_again reason = (finish_again reason, stop_again reason)

-- A Messages stop reason has the same Responses status whether it is mapped to it directly or by way
-- of its Chat Completions finish reason.
pub status_of_stop :
    (stop : Text)
    → response_status_from_cc_finish (claude_stop_to_finish stop)
      ≡ response_status_from_claude_stop stop
unfolding response_status_from_cc_finish response_status_from_claude_stop claude_stop_to_finish
    text_eq
status_of_stop stop = elim (Bool-cases (text_eq stop (codes "tool_use"))) [
  | inl e ↦ rw ((text_eq_iff stop (codes "tool_use")).0 e) refl
  | inr e1 ↦ elim (Bool-cases (text_eq stop (codes "max_tokens"))) [
    | inl e ↦ rw ((text_eq_iff stop (codes "max_tokens")).0 e) refl
    | inr e2 ↦ elim (Bool-cases (text_eq stop (codes "refusal"))) [
      | inl e ↦ rw ((text_eq_iff stop (codes "refusal")).0 e) refl
      | inr e3 ↦ rw (e1, e2, e3) refl
    ]
  ]
]
