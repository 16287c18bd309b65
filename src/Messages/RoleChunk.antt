-- ===== src/Messages/RoleChunk.antt =====
-- Chat Completions chunks of internal/adapter/messages/stream.go: the role comes once, and first.
use opencode_go_cliproxyapi.Prelude.{
  Bool, List, Option, [], arith, false, if_split, is_empty, none, refl, some, subst, sym, true,
  ◌++◌, ◌∷◌, ◌≡◌,
}
use opencode_go_cliproxyapi.Prelude.Text.{Text, codes, text_eq}
use opencode_go_cliproxyapi.Prelude.Json.{Json, no_member, object}
use opencode_go_cliproxyapi.Protocol.{claude_stop_to_finish, terminal_reason}
use opencode_go_cliproxyapi.Frames.{delta_chunk, finish_chunk, role_chunk}
use opencode_go_cliproxyapi.Messages.{
  BlockState, ClientEvent, Conversion, StartMessage, Step, StreamEvent, capture_cache, chat_event,
  failed, go_on, is_tool_use, new_block, orphan_arguments, put_block, responses_event, sse_error,
  start_message, stops, take_usage, tool_block_at, verbatim,
}
use opencode_go_cliproxyapi.Messages.ChatTarget.{
  chat_arguments, chat_delta, chat_finish, dispatch_chat, emit_chunk, emit_delta, emit_role,
  open_block,
}
use opencode_go_cliproxyapi.ErrorClass.{ClassifiedError}
use opencode_go_cliproxyapi.Messages.Loop.{dispatch_all}

-- In the chunks, from where the role has been sent or not to where it has been sent or not: a role chunk
-- comes only before it was sent, and a delta only after.
unfoldable pub LedByRole : Bool → List ClientEvent → Bool → Type 0
LedByRole before [] after = before ≡ after
LedByRole before (chat_event b role_chunk ∷ events) after =
    (before ≡ false) × LedByRole true events after
LedByRole before (chat_event b (delta_chunk delta) ∷ events) after =
    (before ≡ true) × LedByRole before events after
LedByRole before (chat_event b (finish_chunk finish usage) ∷ events) after =
    LedByRole before events after
LedByRole before (verbatim block ∷ events) after = ⊥
LedByRole before (responses_event em event ∷ events) after = ⊥

LedByRole-append :
    (events others : List ClientEvent) (a b c : Bool)
    → LedByRole a events b
    → LedByRole b others c
    → LedByRole a (events ++ others) c
unfolding LedByRole
LedByRole-append [] others a b c h k = subst (λ x. LedByRole x others c) (sym h) k
LedByRole-append (chat_event em role_chunk ∷ events) others a b c h k =
    (h.0, LedByRole-append events others true b c h.1 k)
LedByRole-append (chat_event em (delta_chunk delta) ∷ events) others a b c h k =
    (h.0, LedByRole-append events others a b c h.1 k)
LedByRole-append (chat_event em (finish_chunk finish usage) ∷ events) others a b c h k =
    LedByRole-append events others a b c h k
LedByRole-append (verbatim block ∷ events) others a b c h k = absurd h
LedByRole-append (responses_event em event ∷ events) others a b c h k = absurd h

abbrev Led : Conversion → Step → Type 0
unfolding LedByRole
Led sc step = LedByRole sc.role_sent step.events step.conv.role_sent

emit_role-LedByRole :
    (sc : Conversion) → LedByRole sc.role_sent (emit_role sc).1 (emit_role sc).0.role_sent
unfolding emit_role LedByRole
emit_role-LedByRole sc =
    if_split (λ (r : Conversion × List ClientEvent). LedByRole sc.role_sent r.1 r.0.role_sent)
      sc.role_sent _ _ (λ h. refl) (λ h. (h, refl))

emit_role-role_sent : (sc : Conversion) → (emit_role sc).0.role_sent ≡ true
unfolding emit_role
emit_role-role_sent sc =
    if_split (λ (r : Conversion × List ClientEvent). r.0.role_sent ≡ true) sc.role_sent _ _ (λ h. h)
      (λ h. refl)

emit_delta-Led : (delta : Json) (sc : Conversion) → Led sc (emit_delta delta sc)
unfolding emit_delta emit_chunk LedByRole Led
emit_delta-Led delta sc =
    LedByRole-append (emit_role sc).1 _ sc.role_sent (emit_role sc).0.role_sent _
      (emit_role-LedByRole sc) (emit_role-role_sent sc, refl)

silent-Led : (sc after : Conversion) → sc.role_sent ≡ after.role_sent → Led sc (go_on after [])
unfolding Led LedByRole
silent-Led sc after h = h

failed-Led : (sc : Conversion) (e : ClassifiedError) → Led sc (failed sc e)
unfolding Led LedByRole
failed-Led sc e = refl

started-Led :
    (m : StartMessage) (sc : Conversion)
    → Led sc (let begun = emit_role (start_message m sc) in go_on begun.0 begun.1)
unfolding Led start_message capture_cache
started-Led m sc = emit_role-LedByRole (start_message m sc)

open_block-role_sent :
    (ev : StreamEvent) (sc : Conversion) → sc.role_sent ≡ (open_block ev sc).role_sent
unfolding open_block
open_block-role_sent ev sc =
    if_split (λ (after : Conversion). sc.role_sent ≡ after.role_sent)
      (is_tool_use (new_block ev.content_block)) _ _ (λ h. refl) (λ h. refl)

chat_arguments-Led :
    (b : Option BlockState) (ev : StreamEvent) (sc : Conversion) → Led sc (chat_arguments b ev sc)
unfolding chat_arguments Led
chat_arguments-Led none ev sc = failed-Led sc orphan_arguments
chat_arguments-Led (some b) ev sc =
    emit_delta-Led _
      (record sc { blocks = put_block ev.index (record b { emitted = true }) sc.blocks })

chat_delta-Led : (ev : StreamEvent) (sc : Conversion) → Led sc (chat_delta ev sc)
unfolding chat_delta
chat_delta-Led ev sc =
    if_split (Led sc) (text_eq ev.delta.type (codes "text_delta")) _ _ (λ h. emit_delta-Led _ sc)
      (λ h.
        if_split (Led sc) (text_eq ev.delta.type (codes "input_json_delta")) _ _
          (λ k. chat_arguments-Led (tool_block_at ev.index sc) ev sc) (λ k. silent-Led sc sc refl))

-- A finish chunk has a reason.
terminal_reason-nonempty :
    (seen : Bool) (stop : Text)
    → is_empty (terminal_reason seen (codes "tool_calls") (claude_stop_to_finish stop)) ≡ false
unfolding claude_stop_to_finish
terminal_reason-nonempty seen stop = ground arith

emit_chunk-LedByRole :
    (delta : Json) (finish : Text) (with_usage : Bool) (sc : Conversion)
    → is_empty finish ≡ false
    → LedByRole sc.role_sent (emit_chunk delta finish with_usage sc ∷ []) sc.role_sent
unfolding emit_chunk LedByRole
emit_chunk-LedByRole delta [] with_usage sc h = cc
emit_chunk-LedByRole delta (c ∷ finish) with_usage sc h = refl

chat_finish-Led : (ev : StreamEvent) (sc : Conversion) → Led sc (chat_finish ev sc)
unfolding chat_finish Led take_usage capture_cache
chat_finish-Led ev sc =
    let counted = take_usage ev.usage sc in
    emit_chunk-LedByRole (object no_member) _ true counted
      (terminal_reason-nonempty counted.tools_seen ev.delta.stop_reason)

stopped-Led :
    (sc : Conversion) → Led sc (record { conv = sc; events = []; is_done = true; error = none })
unfolding Led LedByRole
stopped-Led sc = refl

-- One event.
dispatch_chat-Led :
    (etype : Text) (ev : StreamEvent) (sc : Conversion) → Led sc (dispatch_chat etype ev sc)
unfolding dispatch_chat
dispatch_chat-Led etype ev sc =
    if_split (Led sc) (text_eq etype (codes "message_start")) _ _ (λ h. started-Led ev.message sc)
      (λ h.
        if_split (Led sc) (text_eq etype (codes "content_block_start")) _ _
          (λ h. silent-Led sc (open_block ev sc) (open_block-role_sent ev sc))
          (λ h.
            if_split (Led sc) (text_eq etype (codes "content_block_delta")) _ _
              (λ h. chat_delta-Led ev sc)
              (λ h.
                if_split (Led sc) (text_eq etype (codes "message_delta")) _ _
                  (λ h. chat_finish-Led ev sc)
                  (λ h.
                    if_split (Led sc) (text_eq etype (codes "message_stop")) _ _
                      (λ h. stopped-Led sc)
                      (λ h.
                        if_split (Led sc) (text_eq etype (codes "error")) _ _
                          (λ h. failed-Led sc (sse_error ev.error))
                          (λ h. silent-Led sc sc refl))))))

unfoldable pub respond_chat : Text × StreamEvent → Conversion → Step
unfolding dispatch_chat
respond_chat (etype, ev) sc = dispatch_chat etype ev sc

-- Whatever decoded events a Chat Completions client's converter has dispatched, in any order and from any
-- state, up to the one that stops it: the chunks hold a role only if it was not sent before, at most once,
-- and every delta comes after a role has been sent; and the converter remembers whether one was.
pub dispatch_all-LedByRole :
    (events : List (Text × StreamEvent)) (sc : Conversion)
    → let step = dispatch_all respond_chat events sc in
      LedByRole sc.role_sent step.events step.conv.role_sent
unfolding dispatch_all respond_chat LedByRole
dispatch_all-LedByRole [] sc = refl
dispatch_all-LedByRole ((etype, ev) ∷ events) sc =
    let step = dispatch_chat etype ev sc in
    if_split (λ (s : Step). LedByRole sc.role_sent s.events s.conv.role_sent) (stops step) _ _
      (λ h. led step (dispatch_chat-Led etype ev sc))
      (λ h.
        LedByRole-append step.events (dispatch_all respond_chat events step.conv).events
          sc.role_sent step.conv.role_sent _ (led step (dispatch_chat-Led etype ev sc))
          (dispatch_all-LedByRole events step.conv))
  where
    led : (step : Step) → Led sc step → LedByRole sc.role_sent step.events step.conv.role_sent
    led step h = unfold Led in h
