-- ===== src/Pump/Samples.antt =====
-- A run of `pumpStream` of internal/plugin/executor.go, and its theorem at a concrete stream.
use opencode_go_cliproxyapi.Prelude.{
  Bool, List, Option, [], false, none, refl, some, suc, true, ℕ, ◌++◌, ◌∷◌, ◌≡◌,
}
use opencode_go_cliproxyapi.Prelude.Text.{Text, codes}
use opencode_go_cliproxyapi.Pump.{
  Converter, Effect, Pump, Read, after_feed, after_loop, close_streams, closed_by_watchdog,
  insert_close, pump_stream, with_watchdog, downstream_closed, emit_all, emitted, end_round,
  flush_end, new_pump, pump, round, take_payload, upstream_closed,
}
use opencode_go_cliproxyapi.Redact.{redact, token_length}
use opencode_go_cliproxyapi.Pump.Watchdog.{IsClosed}
use opencode_go_cliproxyapi.Pump.Ends.{pump_stream-IsClosed}

-- A converter that passes on what it gets, and the host that takes every event.
abbrev echo : Converter ℕ
echo = record {
  feed = λ p n. (suc n, record { events = p ∷ []; is_done = false; error = none });
  flush = some (λ n. codes "end" ∷ []);
}

abbrev takes_all : ℕ → Option Text
takes_all n = none

abbrev read_of : Text → Bool → Read
read_of payload is_closed = record {
  payload = payload;
  read_error = [];
  is_closed = is_closed;
  error = none;
  aborted = false;
}

abbrev sample_trace : List Effect → Pump ℕ
sample_trace trace = record { conv = 2; total = 2; emits = 3; once = true; trace = trace }

flushed :
    pump echo takes_all 10 (read_of (codes "a") false ∷ read_of (codes "b") true ∷ []) (new_pump 0)
    ≡ some (
        sample_trace (
          emitted (codes "a")
          ∷ emitted (codes "b")
          ∷ emitted (codes "end")
          ∷ upstream_closed
          ∷ downstream_closed []
          ∷ []))
unfolding pump round take_payload after_feed end_round emit_all after_loop flush_end close_streams
flushed = refl

-- The read that the watchdog ends.
abbrev aborted_read : Read
aborted_read = record (read_of [] true) { aborted = true }

-- The watchdog closes the upstream stream, the read comes back, and the pump closes it again.
watchdog_run :
    pump_stream echo takes_all 10 (some 1) (read_of (codes "a") false ∷ aborted_read ∷ []) 0
    ≡ some (
        emitted (codes "a")
        ∷ closed_by_watchdog
        ∷ upstream_closed
        ∷ downstream_closed (codes "stream exceeded request-timeout")
        ∷ [])
unfolding pump_stream pump round take_payload after_feed end_round emit_all after_loop flush_end
    close_streams with_watchdog insert_close redact token_length
watchdog_run = refl

pump_stream-IsClosed_example :
    (trace : List Effect) × (pump_stream echo takes_all 10
        (some 1)
        (read_of (codes "a") false ∷ [] ++ aborted_read ∷ [])
        0
      ≡ some trace)
    × IsClosed (some 1) trace
pump_stream-IsClosed_example =
    pump_stream-IsClosed echo takes_all 10 (some 1) (read_of (codes "a") false ∷ []) [] aborted_read
      0 refl
