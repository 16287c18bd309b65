-- ===== src/Pump.antt =====
-- `pumpStream` and `emitAll` of internal/plugin/executor.go: the loop that reads the upstream stream,
-- converts it and emits events downstream.
--
-- The converter, the host's answers to reads and to emits, and the firing of the watchdog are parameters
-- or inputs. What is called on the host, but for the reads, is a trace. The watchdog is a goroutine of its
-- own: it sets the flag that a later read finds, and closes the upstream stream at any time behind that,
-- between two calls of the pump or after them all. The log line after a panic of it is left out.
pub mod Closes
pub mod Ends
mod Watchdog
mod Samples
use mathlib.Core.Option
use opencode_go_cliproxyapi.Prelude.{
  Bool, List, Option, [], false, if◌then◌else◌, is_empty, length, ltb, none, not, some, suc, true,
  zero, ℕ, ◌&&◌, ◌++◌, ◌+◌, ◌||◌, ◌∷◌,
}
use opencode_go_cliproxyapi.Prelude.Text.{Text, codes}
use opencode_go_cliproxyapi.Redact.{redact}

-- What `StreamRead` returns, and whether the watchdog has fired by then.
pub record Read : Type 0 where
  pub payload : Text
  pub read_error : Text
  pub is_closed : Bool
  pub error : Option Text
  pub aborted : Bool

pub data Effect : Type 0 where
  emitted : Text → Effect
  upstream_closed : Effect
  closed_by_watchdog : Effect
  downstream_closed : Text → Effect

-- The watchdog's `StreamClose`, behind so many calls of the pump.
unfoldable pub insert_close : ℕ → List Effect → List Effect
insert_close zero trace = closed_by_watchdog ∷ trace
insert_close (suc n) [] = closed_by_watchdog ∷ []
insert_close (suc n) (e ∷ trace) = e ∷ insert_close n trace

-- The host's view of a pump's calls; the watchdog has none of its own if it is stopped before it fires.
unfoldable pub with_watchdog : Option ℕ → List Effect → List Effect
unfolding insert_close
with_watchdog none trace = trace
with_watchdog (some n) trace = insert_close n trace

-- What `Feed` returns: the events, whether the stream is done, and an error's message.
pub record Fed : Type 0 where
  pub events : List Text
  pub is_done : Bool
  pub error : Option Text

-- A converter: `Feed`, and `Flush` where it has one.
pub record Converter (C : Type 0) : Type 0 where
  pub feed : Text → C → C × Fed
  pub flush : Option (C → List Text)

-- The variables of the loop. `once` is whether the closer has run, `emits` counts the emits.
pub record Pump (C : Type 0) : Type 0 where
  pub conv : C
  pub total : ℕ
  pub emits : ℕ
  pub once : Bool
  pub trace : List Effect

-- Where a round of the loop leads: out of the function, out of the loop, or to the next round.
pub data Verdict : Type 0 where
  returned : Verdict
  left : (conv_done : Bool) → (closed : Bool) → Verdict
  again : Verdict

module _ {C : Type 0} where
  -- `closeStreams`.
  unfoldable pub close_streams : Text → Pump C → Pump C
  close_streams msg p =
      if p.once
      then p
      else record p { once = true; trace = p.trace ++ upstream_closed ∷ downstream_closed msg ∷ [] }

  abbrev pub give_up : Text → Pump C → Pump C × Verdict
  give_up msg p = (close_streams (redact msg) p, returned)

  module _ (converter : Converter C) (emit_error : ℕ → Option Text) (limit : ℕ) where
    -- `emitAll`, with `StreamEmit` failing as the host says.
    unfoldable pub emit_all : List Text → Pump C → Pump C × Option Text
    emit_all [] p = (p, none)
    emit_all (event ∷ events) p =
        let sent =
          emit_all events
            (record p { emits = suc p.emits; trace = p.trace ++ emitted event ∷ [] }) in
        elim (emit_error p.emits) [
          | none ↦ sent
          | some e ↦ (record p { emits = suc p.emits }, some e)
        ]

    -- The end of a round, behind the emits.
    unfoldable pub end_round : Bool → Bool → Pump C × Option Text → Pump C × Verdict
    end_round is_done is_closed (p, some e) = give_up e p
    end_round is_done is_closed (p, none) =
        if is_done || is_closed then (p, left is_done is_closed) else (p, again)

    -- The round behind `Feed`.
    unfoldable pub after_feed : Bool → Pump C → C × Fed → Pump C × Verdict
    unfolding end_round emit_all
    after_feed is_closed p (conv, fed) = elim fed.error [
      | some e ↦ give_up e (record p { conv = conv })
      | none ↦ end_round fed.is_done is_closed (emit_all fed.events (record p { conv = conv }))
    ]

    -- The round behind the tests for the watchdog and for the errors of the read.
    unfoldable pub take_payload : Read → Pump C → Pump C × Verdict
    unfolding after_feed
    take_payload r p =
        let counted = record p { total = p.total + length r.payload } in
        if ltb limit counted.total
        then give_up (codes "stream exceeded max-response-bytes") counted
        else after_feed r.is_closed counted (converter.feed r.payload p.conv)

    -- One round of the loop.
    unfoldable pub round : Read → Pump C → Pump C × Verdict
    unfolding take_payload
    round r p =
        if r.aborted then give_up (codes "stream exceeded request-timeout") p else elim r.error [
          | some e ↦ give_up e p
          | none ↦ if not (is_empty r.read_error) then give_up r.read_error p else take_payload r p
        ]

    abbrev pub after_flush : Pump C × Option Text → Pump C
    after_flush (p, some e) = close_streams (redact e) p
    after_flush (p, none) = p

    -- The emits behind the loop, when the stream was closed before the converter was done.
    unfoldable pub flush_end : Option (C → List Text) → Pump C → Pump C
    unfolding emit_all
    flush_end none p = p
    flush_end (some flush) p = after_flush (emit_all (flush p.conv) p)

    unfoldable pub after_loop : Bool → Bool → Pump C → Pump C
    unfolding flush_end
    after_loop conv_done closed p =
        if not conv_done && closed then flush_end converter.flush p else p

    -- The loop over the host's answers to the reads, with the deferred closer; none when the pump still
    -- reads after them.
    unfoldable pub pump : List Read → Pump C → Option (Pump C)
    unfolding round after_loop
    pump [] p = none
    pump (r ∷ rs) p =
        let go_on = pump rs (round r p).0 in
        elim (round r p).1 [
          | returned ↦ some (close_streams [] (round r p).0)
          | left conv_done closed ↦
              some (close_streams [] (after_loop conv_done closed (round r p).0))
          | again ↦ go_on
        ]

  abbrev pub new_pump : C → Pump C
  new_pump conv = record { conv = conv; total = 0; emits = 0; once = false; trace = [] }

  -- `pumpStream`: the calls on the host, with when the watchdog closes the upstream stream, if it fires. A
  -- read that finds it fired goes with one that does.
  unfoldable pub pump_stream :
      Converter C → (ℕ → Option Text) → ℕ → Option ℕ → List Read → C → Option (List Effect)
  unfolding pump with_watchdog
  pump_stream converter emit_error limit watch reads conv =
      Option.map (λ (q : Pump C). with_watchdog watch q.trace)
        (pump converter emit_error limit reads (new_pump conv))
