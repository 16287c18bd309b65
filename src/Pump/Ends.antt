-- ===== src/Pump/Ends.antt =====
-- That `pumpStream` of internal/plugin/executor.go ends when the upstream stream does.
use mathlib.Core.Option
use opencode_go_cliproxyapi.Prelude.{
  Bool, Bool-cases, List, Option, Option-cases, [], ap, false, if_false, if_true, if◌then◌else◌,
  inl, inr, is_empty, length, ltb, none, not, refl, some, subst, sym, true, ℕ, ◌++◌, ◌+◌, ◌∙◌, ◌∷◌,
  ◌≡◌,
}
use opencode_go_cliproxyapi.Prelude.Text.{Text}
use opencode_go_cliproxyapi.Pump.{
  Converter, Effect, Fed, Pump, Read, Verdict, after_feed, after_loop, again, close_streams,
  end_round, give_up, left, new_pump, pump, pump_stream, returned, round, take_payload,
  with_watchdog,
}
use opencode_go_cliproxyapi.Pump.Watchdog.{IsClosed, with_watchdog-IsClosed}
use opencode_go_cliproxyapi.Pump.Closes.{
  IsOpen, IsShut, Standing, after_loop-IsShut, close_again, round-Standing,
}

abbrev is_again : Verdict → Bool
is_again returned = false
is_again (left done closed) = false
is_again again = true

module _ {C : Type 0} (converter : Converter C) (emit_error : ℕ → Option Text) (limit : ℕ) where
  end_round_closed :
      (d : Bool) (s : Pump C × Option Text)
      → is_again (end_round converter emit_error limit d true s).1 ≡ false
  unfolding end_round
  end_round_closed true (p, some e) = refl
  end_round_closed false (p, some e) = refl
  end_round_closed true (p, none) = refl
  end_round_closed false (p, none) = refl

  after_feed_closed :
      (p : Pump C) (s : C × Fed)
      → is_again (after_feed converter emit_error limit true p s).1 ≡ false
  unfolding after_feed
  after_feed_closed p (conv, fed) = elim (Option-cases fed.error) [
    | inr (e, eq) ↦ rw (eq, after_feed) refl
    | inl eq ↦ rw (eq, after_feed) (end_round_closed fed.is_done _)
  ]

  take_payload_closed :
      (r : Read) (p : Pump C)
      → r.is_closed ≡ true
      → is_again (take_payload converter emit_error limit r p).1 ≡ false
  unfolding take_payload
  take_payload_closed r p c = elim (Bool-cases (ltb limit (p.total + length r.payload))) [
    | inl e ↦ rw e refl
    | inr e ↦
        let counted : Pump C = record p { total = p.total + length r.payload } in
        let fed = converter.feed r.payload p.conv in
        rw e (
          subst
            (λ (b : Bool). is_again (after_feed converter emit_error limit b counted fed).1 ≡ false)
            (sym c) (after_feed_closed counted fed))
  ]

  read_errors_closed :
      (o : Option Text) (r : Read) (p : Pump C)
      → r.is_closed ≡ true
      → is_again
          (elim o as (λ _. Pump C × Verdict) [
            | some e ↦ give_up e p
            | none ↦
                if not (is_empty r.read_error)
                then give_up r.read_error p
                else take_payload converter emit_error limit r p
          ]).1
        ≡ false
  read_errors_closed (some e) r p c = refl
  read_errors_closed none r p c = elim (Bool-cases (not (is_empty r.read_error))) [
    | inl e ↦ ap (λ (s : Pump C × Verdict). is_again s.1) (if_true _ _ _ e)
    | inr e ↦
        ap (λ (s : Pump C × Verdict). is_again s.1) (if_false _ _ _ e) ∙ take_payload_closed r p c
  ]

  round_closed :
      (r : Read) (p : Pump C)
      → r.is_closed ≡ true
      → is_again (round converter emit_error limit r p).1 ≡ false
  unfolding round
  round_closed r p c = elim (Bool-cases r.aborted) [
    | inl e ↦ ap (λ (s : Pump C × Verdict). is_again s.1) (if_true _ _ _ e)
    | inr e ↦
        ap (λ (s : Pump C × Verdict). is_again s.1) (if_false _ _ _ e)
        ∙ read_errors_closed r.error r p c
  ]

  abbrev Ends : Option (Pump C) → Type 0
  Ends o = (q : Pump C) × (o ≡ some q) × IsShut q

  step-Ends :
      (s : Pump C × Verdict) (go_on : Option (Pump C))
      → Standing s
      → (is_again s.1 ≡ true → IsOpen s.0 → Ends go_on)
      → Ends (elim s.1 [
        | returned ↦ some (close_streams [] s.0)
        | left d c ↦ some (close_streams [] (after_loop converter emit_error limit d c s.0))
        | again ↦ go_on
      ])
  step-Ends (p, returned) go_on h later = (_, refl, close_again p h)
  step-Ends (p, left d c) go_on h later =
      (_, refl, after_loop-IsShut converter emit_error limit d c p h)
  step-Ends (p, again) go_on h later = later refl h

  pump-Ends :
      (before rest : List Read) (r : Read) (p : Pump C)
      → r.is_closed ≡ true
      → IsOpen p
      → Ends (pump converter emit_error limit (before ++ r ∷ rest) p)
  unfolding pump
  pump-Ends [] rest r p c h =
      step-Ends (round converter emit_error limit r p) _
        (round-Standing converter emit_error limit r p h) (λ e o. cc (sym e ∙ round_closed r p c))
  pump-Ends (x ∷ before) rest r p c h =
      step-Ends (round converter emit_error limit x p) _
        (round-Standing converter emit_error limit x p h)
        (λ e o. pump-Ends before rest r (round converter emit_error limit x p).0 c o)

  pump-IsShut :
      (before rest : List Read) (r : Read) (conv : C)
      → r.is_closed ≡ true
      → (q : Pump C) × (pump converter emit_error limit (before ++ r ∷ rest) (new_pump conv)
          ≡ some q)
        × IsShut q
  pump-IsShut before rest r conv c =
      pump-Ends before rest r (new_pump conv) c
        (record { first = refl; events = []; only_emits = refl })

  -- Once the host reports the upstream stream closed, the pump has ended, whatever came before, whatever
  -- failed, and whenever the watchdog fires. Among its own calls it has then, behind the emits, closed
  -- the upstream and the downstream stream, once each and in this order, with no message or a redacted
  -- one; and the upstream stream was closed once more exactly if the watchdog fires.
  pub pump_stream-IsClosed :
      (watch : Option ℕ) (before rest : List Read) (r : Read) (conv : C)
      → r.is_closed ≡ true
      → (trace : List Effect) × (pump_stream converter emit_error limit watch
            (before ++ r ∷ rest)
            conv
          ≡ some trace)
        × IsClosed watch trace
  unfolding pump_stream
  pump_stream-IsClosed watch before rest r conv c =
      let (q, ends, shut) = pump-IsShut before rest r conv c in
      (
        with_watchdog watch q.trace,
        ap (Option.map (λ (p : Pump C). with_watchdog watch p.trace)) ends,
        subst (λ (t : List Effect). IsClosed watch (with_watchdog watch t)) (sym shut.closes)
            (with_watchdog-IsClosed watch shut.events shut.message shut.discreet),
      )
