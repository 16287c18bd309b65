-- ===== src/ChatStream/Feeding.antt =====
-- `Feed`, `handleLine`, `passthroughLine` and `Flush` of internal/adapter/chatcompletions/stream.go.
use opencode_go_cliproxyapi.Prelude.Outcome.{Outcome, err, ok, ◌>>=◌}
use opencode_go_cliproxyapi.Prelude.{
  Bool, List, Option, [], if◌then◌else◌, is_empty, length, none, or_default, some, suc, true, zero,
  ℕ, ◌++◌, ◌∷◌,
}
use opencode_go_cliproxyapi.Prelude.Text.{Text, codes, cut_byte, text_eq, trim_suffix}
use opencode_go_cliproxyapi.Prelude.Dict.{Dict}
use opencode_go_cliproxyapi.Prelude.Json.{Json}
use opencode_go_cliproxyapi.Catalog.Route.{chat_completions, endpoint_path}
use opencode_go_cliproxyapi.ErrorClass.{ClassifiedError}
use opencode_go_cliproxyapi.Protocol.Parts.{is_sse_done, unsupported_format}
use opencode_go_cliproxyapi.ResponseTools.{Codec, ToolIdentity}
use opencode_go_cliproxyapi.Frames.{message_stop}
use opencode_go_cliproxyapi.ChatStream.{
  ChatStream, ChatStreamEvent, Chunk, ChunkDecoder, Written, decode_chunk, passed, sse_data,
}
use opencode_go_cliproxyapi.ChatStream.ClaudeTarget.{
  claude_chunk, claude_done, claude_terminal, said,
}
use opencode_go_cliproxyapi.ChatStream.ResponsesRoute.{
  responses_chunk, responses_done, responses_terminal,
}

abbrev pub completions_path : Text
completions_path = endpoint_path chat_completions

-- A line's outcome: the converter with its events, or an error.
abbrev pub LineOutcome : Type 0
LineOutcome = Outcome ClassifiedError Written

-- `passthroughLine`, for the payload of a data line.
unfoldable pub pass_payload : Text → ChatStream → Written
unfolding is_sse_done
pass_payload payload sc =
    if is_sse_done payload
    then (record sc { done = true }, [])
    else if is_empty payload
    then (sc, [])
    else (sc, passed payload ∷ [])

-- What `claudeLine` and `responsesLine` share: no payload, the end, or a chunk.
unfoldable pub convert_payload :
    ChunkDecoder
    → (ChatStream → Written)
    → (Chunk → ChatStream → Written)
    → Text
    → ChatStream
    → LineOutcome
unfolding is_sse_done decode_chunk
convert_payload decoder on_done on_chunk payload sc =
    if is_empty payload
    then ok (sc, [])
    else if is_sse_done payload
    then ok (on_done sc)
    else decode_chunk decoder payload >>= λ chunk. ok (on_chunk chunk sc)

module _ (decoder : ChunkDecoder) (quote : Text → Text) (marshal : Json → Text) (codec : Codec)
    (names : Dict ToolIdentity) where
  -- `handleLine`, for the payload of the line, if it is a data line.
  unfoldable pub handle_payload : Option Text → ChatStream → LineOutcome
  unfolding pass_payload convert_payload claude_done claude_chunk responses_done responses_chunk
  handle_payload payload sc =
      if text_eq sc.source_format (codes "openai")
      then ok (elim payload [ none ↦ (sc, []) | some p ↦ pass_payload p sc ])
      else if text_eq sc.source_format (codes "claude")
      then convert_payload decoder claude_done claude_chunk (or_default payload []) sc
      else if text_eq sc.source_format (codes "openai-response")
      then convert_payload decoder (responses_done marshal codec names)
          (responses_chunk marshal codec names) (or_default payload []) sc
      else err (unsupported_format quote sc.source_format completions_path)

  unfoldable pub handle_line : Text → ChatStream → LineOutcome
  unfolding handle_payload sse_data
  handle_line line sc = handle_payload (sse_data line) sc

  -- What `Feed` returns with the converter: the events, and an error. Whether the stream is done is a field.
  abbrev pub LinesFed : Type 0
  LinesFed = Written × Option ClassifiedError

  abbrev pub put_written : List ChatStreamEvent → LinesFed → LinesFed
  put_written events ((sc, more), problem) = ((sc, events ++ more), problem)

  -- A round behind the line: the loop ends with an error or with the stream.
  unfoldable pub or_break : ChatStream → (ChatStream → LinesFed) → LineOutcome → LinesFed
  or_break sc go (err problem) = ((sc, []), some problem)
  or_break sc go (ok (after, events)) =
      if after.done then ((after, events), none) else put_written events (go after)

  -- The loop of `Feed`, on fuel.
  unfoldable pub feed_lines_within : ℕ → ChatStream → LinesFed
  unfolding or_break handle_line
  feed_lines_within zero sc = ((sc, []), none)
  feed_lines_within (suc n) sc = elim (cut_byte 10 sc.line_buf) [
    | none ↦ ((sc, []), none)
    | some (line, rest) ↦
        let cut = record sc { line_buf = rest } in
        or_break cut (feed_lines_within n) (handle_line (trim_suffix line (13 ∷ [])) cut)
  ]

  -- `Feed`: each round takes a byte of the buffer at least.
  unfoldable pub feed_lines : Text → ChatStream → LinesFed
  unfolding feed_lines_within
  feed_lines chunk sc =
      let filled = record sc { line_buf = sc.line_buf ++ chunk } in
      feed_lines_within (suc (length filled.line_buf)) filled

  -- The end of `Flush` for a Messages client.
  abbrev pub close_message : Bool → Written → Written
  close_message sent (sc, []) = (sc, if sent then said sc message_stop ∷ [] else [])
  close_message sent (sc, event ∷ events) = (sc, event ∷ events ++ said sc message_stop ∷ [])

  -- `Flush`.
  unfoldable pub flush_stream : ChatStream → Written
  unfolding claude_terminal responses_terminal
  flush_stream sc =
      if sc.flushed
      then (sc, [])
      else let closed = record sc { flushed = true } in
        if text_eq sc.source_format (codes "claude")
        then close_message closed.terminal_sent (claude_terminal closed)
        else if text_eq sc.source_format (codes "openai-response")
        then responses_terminal marshal codec names closed
        else (closed, [])
