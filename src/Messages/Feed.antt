-- ===== src/Messages/Feed.antt =====
-- `dispatch`, `Feed` and `Flush` of internal/adapter/messages/stream.go. The decoder and the verb %q are
-- parameters.
use opencode_go_cliproxyapi.Prelude.{
  List, Option, [], false, if◌then◌else◌, is_empty, length, none, not, some, suc, true, zero, ℕ,
  ◌++◌, ◌∷◌,
}
use opencode_go_cliproxyapi.Prelude.Text.{Text, codes, text_eq}
use opencode_go_cliproxyapi.Prelude.Dict.{Dict}
use opencode_go_cliproxyapi.Prelude.Int.{pos, ℤ}
use opencode_go_cliproxyapi.Catalog.Route.{endpoint_path, messages}
use opencode_go_cliproxyapi.ErrorClass.{translation_error}
use opencode_go_cliproxyapi.Protocol.{redacted_snippet}
use opencode_go_cliproxyapi.Protocol.Parts.{unsupported_format}
use opencode_go_cliproxyapi.ResponseTools.{ToolIdentity}
use opencode_go_cliproxyapi.Sse.{Frame, Framer, new_framer, next, push}
use opencode_go_cliproxyapi.Messages.{
  ClientEvent, Conversion, Step, StreamEvent, UpstreamError, UsageCounts, failed, go_on,
  new_conversion, sse_error, stops, verbatim,
}
use opencode_go_cliproxyapi.Messages.ChatTarget.{dispatch_chat}
use opencode_go_cliproxyapi.Messages.ResponsesTarget.{
  ResponsesLibrary, dispatch_responses, responses_completed,
}

-- What a passthrough reads of a payload: its `type` and its `error`, empty where they are missing.
pub record Probe : Type 0 where
  pub type : Text
  pub error : UpstreamError

-- `json.Unmarshal` into an `sseEvent`, and into a map that is probed.
pub record Decoder : Type 0 where
  pub event_of : Text → Option StreamEvent
  pub probe_of : Text → Probe

abbrev pub no_usage : UsageCounts
no_usage = record {
  input_tokens = record { nonzero = false; int64 = pos 0 };
  output_tokens = record { nonzero = false; int64 = pos 0 };
  cache_read = none;
  cache_creation = none;
}

-- The zero value of `sseEvent`.
abbrev pub empty_event : StreamEvent
empty_event = record {
  type = [];
  index = pos 0;
  message = record { id = []; model = []; usage = no_usage };
  content_block = record { type = []; id = []; name = [] };
  delta = record { type = []; text = []; partial_json = []; stop_reason = [] };
  usage = no_usage;
  error = record { type = []; message = [] };
}

abbrev pub empty_probe : Probe
empty_probe = record { type = []; error = record { type = []; message = [] } }

abbrev pub messages_path : Text
messages_path = endpoint_path messages

-- `StreamConverter`: its framer, and the rest.
pub record StreamConverter : Type 0 where
  pub framer : Framer
  pub conv : Conversion

-- `NewStreamConverter`, at a time.
unfoldable pub new_stream_converter : Text → ℤ → StreamConverter
unfolding new_framer new_conversion
new_stream_converter source_format now = record {
  framer = new_framer (text_eq source_format (codes "claude"));
  conv = new_conversion source_format now;
}

module _ (decoder : Decoder) (quote : Text → Text) (lib : ResponsesLibrary)
    (names : Dict ToolIdentity) where
  -- `dispatchClaude`.
  unfoldable pub dispatch_claude : Frame → Conversion → Step
  dispatch_claude frame sc =
      let probe =
        if is_empty frame.data_text then empty_probe else decoder.probe_of frame.data_text in
      let etype = if is_empty frame.event_type then probe.type else frame.event_type in
      if text_eq etype (codes "error") then failed sc (sse_error probe.error) else record {
        conv = sc;
        events = if is_empty frame.raw then [] else verbatim frame.raw ∷ [];
        is_done = text_eq etype (codes "message_stop");
        error = none;
      }

  -- The `switch` over the format of the client.
  unfoldable pub dispatch_to : Text → StreamEvent → Conversion → Step
  unfolding dispatch_chat dispatch_responses
  dispatch_to etype ev sc =
      if text_eq sc.source_format (codes "openai")
      then dispatch_chat etype ev sc
      else if text_eq sc.source_format (codes "openai-response")
      then dispatch_responses lib names etype ev sc
      else failed sc (unsupported_format quote sc.source_format messages_path)

  -- `dispatch` for a target that is converted.
  unfoldable pub dispatch_converted : Frame → Conversion → Step
  unfolding dispatch_to
  dispatch_converted frame sc =
      if is_empty frame.data_text
      then dispatch_to frame.event_type empty_event sc
      else elim (decoder.event_of frame.data_text) [
        | none ↦ failed sc (
            translation_error
              (codes "malformed SSE data JSON: " ++ redacted_snippet frame.data_text))
        | some ev ↦
            dispatch_to (if is_empty frame.event_type then ev.type else frame.event_type) ev sc
      ]

  unfoldable pub dispatch : Frame → Conversion → Step
  unfolding dispatch_claude dispatch_converted
  dispatch frame sc =
      if text_eq sc.source_format (codes "claude")
      then dispatch_claude frame sc
      else dispatch_converted frame sc

  -- The round of the loop of `Feed` behind `Next`: whether a client has been sent something is noted.
  unfoldable pub take_frame : Frame → Conversion → Step
  unfolding dispatch
  take_frame frame sc =
      let step = dispatch frame sc in
      if is_empty step.events
      then step
      else record step { conv = record step.conv { emitted = true } }

  -- What `Feed` returns, with the converter.
  abbrev pub with_framer : Framer → Step → StreamConverter × Step
  with_framer f step = (record { framer = f; conv = step.conv }, step)

  abbrev pub put_before : List ClientEvent → StreamConverter × Step → StreamConverter × Step
  put_before events (sc, step) = (sc, record step { events = events ++ step.events })

  unfoldable pub or_finish :
      (Framer → Conversion → StreamConverter × Step)
      → Conversion
      → Framer × Option Frame
      → StreamConverter × Step
  unfolding take_frame
  or_finish go sc (f, none) = with_framer f (go_on sc [])
  or_finish go sc (f, some frame) =
      let step = take_frame frame sc in
      if stops step then with_framer f step else put_before step.events (go f step.conv)

  -- The loop of `Feed`, on fuel.
  unfoldable pub feed_within : ℕ → Framer → Conversion → StreamConverter × Step
  unfolding or_finish next
  feed_within zero f sc = with_framer f (go_on sc [])
  feed_within (suc n) f sc = or_finish (feed_within n) sc (next f)

  -- `Feed`: each frame takes a byte of the buffer at least.
  unfoldable pub feed_chunk : Text → StreamConverter → StreamConverter × Step
  unfolding feed_within push
  feed_chunk chunk s = let f = push chunk s.framer in feed_within (suc (length f.buf)) f s.conv

  -- `Flush`.
  unfoldable pub flush : Conversion → Conversion × List ClientEvent
  unfolding responses_completed
  flush sc =
      if sc.flushed
      then (sc, [])
      else let closed = record sc { flushed = true } in
        if not sc.emitted
        then (closed, [])
        else if text_eq sc.source_format (codes "openai-response")
        then (closed, responses_completed lib names closed)
        else (closed, [])
