-- ===== src/Pump/Closes.antt =====
-- How `pumpStream` of internal/plugin/executor.go ends.
use opencode_go_cliproxyapi.Prelude.{
  Bool, Bool-cases, List, Option, Option-cases, [], ap, false, if_false, if_true, if◌then◌else◌,
  inl, inr, is_empty, length, ltb, map, none, not, refl, some, subst, suc, sym, true, ℕ, ◌&&◌, ◌++◌,
  ◌+◌, ◌||◌, ◌∙◌, ◌∷◌, ◌≡◌, ◌⊎◌,
}
use opencode_go_cliproxyapi.Prelude.Text.{Text, codes}
use opencode_go_cliproxyapi.Redact.{redact}
use opencode_go_cliproxyapi.Pump.{
  Converter, Effect, Fed, Pump, Read, Verdict, after_feed, after_flush, after_loop, again,
  close_streams, downstream_closed, emit_all, emitted, end_round, flush_end, give_up, left,
  returned, round, take_payload, upstream_closed,
}

abbrev closing : Text → List Effect
closing msg = upstream_closed ∷ downstream_closed msg ∷ []

map_last :
    (events : List Text) (e : Text)
    → map emitted (events ++ e ∷ []) ≡ map emitted events ++ emitted e ∷ []
map_last [] e = refl
map_last (x ∷ xs) e = ap (λ (t : List Effect). emitted x ∷ t) (map_last xs e)

module _ {C : Type 0} where
  -- Nothing has happened but emits.
  pub record IsOpen (p : Pump C) : Type 0 where
    pub first : p.once ≡ false
    pub events : List Text
    pub only_emits : p.trace ≡ map emitted events

  -- After the emits, the pump has closed each stream once, the upstream first; the downstream one with no
  -- message or with a redacted one.
  pub record IsShut (p : Pump C) : Type 0 where
    pub over : p.once ≡ true
    pub events : List Text
    pub message : Text
    pub closes : p.trace ≡ map emitted events ++ upstream_closed ∷ downstream_closed message ∷ []
    pub discreet : (message ≡ []) ⊎ ((raw : Text) × (message ≡ redact raw))

  close-IsShut :
      (msg : Text) (p : Pump C)
      → (msg ≡ []) ⊎ ((raw : Text) × (msg ≡ redact raw))
      → IsOpen p
      → IsShut (close_streams msg p)
  unfolding close_streams
  close-IsShut msg p d h = rw h.first (record {
    over = refl;
    events = h.events;
    message = msg;
    closes = ap (λ (t : List Effect). t ++ closing msg) h.only_emits;
    discreet = d;
  })

  close_streams-again : (msg : Text) (p : Pump C) → p.once ≡ true → close_streams msg p ≡ p
  unfolding close_streams
  close_streams-again msg p h =
      ap (λ (b : Bool). if b then p else record p { once = true; trace = p.trace ++ closing msg }) h

  pub close_again : (p : Pump C) → IsShut p → IsShut (close_streams [] p)
  close_again p h = subst IsShut (sym (close_streams-again [] p h.over)) h

  abbrev pub Standing : Pump C × Verdict → Type 0
  Standing (p, returned) = IsShut p
  Standing (p, left done closed) = IsOpen p
  Standing (p, again) = IsOpen p

  give_up-IsShut : (msg : Text) (p : Pump C) → IsOpen p → IsShut (give_up msg p).0
  give_up-IsShut msg p h = close-IsShut (redact msg) p (inr (msg, refl)) h

  module _ (converter : Converter C) (emit_error : ℕ → Option Text) (limit : ℕ) where
    emit_all-IsOpen :
        (events : List Text) (p : Pump C)
        → IsOpen p
        → IsOpen (emit_all converter emit_error limit events p).0
    unfolding emit_all
    emit_all-IsOpen [] p h = h
    emit_all-IsOpen (e ∷ es) p h =
        let next : Pump C = record p { emits = suc p.emits; trace = p.trace ++ emitted e ∷ [] } in
        let opened : IsOpen next = record {
          first = h.first;
          events = h.events ++ e ∷ [];
          only_emits =
              ap (λ (t : List Effect). t ++ emitted e ∷ []) h.only_emits
              ∙ sym (map_last h.events e);
        } in
        let ih = emit_all-IsOpen es next opened in
        elim (Option-cases (emit_error p.emits)) [
          | inl fine ↦ rw (fine, emit_all) ih
          | inr (msg, failed) ↦
              rw (failed, emit_all)
                (record { first = h.first; events = h.events; only_emits = h.only_emits })
        ]

    end_round-Standing :
        (d c : Bool) (r : Pump C × Option Text)
        → IsOpen r.0
        → Standing (end_round converter emit_error limit d c r)
    unfolding end_round
    end_round-Standing d c (p, some e) h = give_up-IsShut e p h
    end_round-Standing d c (p, none) h = elim (Bool-cases (d || c)) [
      | inl e ↦ rw e h
      | inr e ↦ rw e h
    ]

    after_feed-Standing :
        (c : Bool) (p : Pump C) (r : C × Fed)
        → IsOpen p
        → Standing (after_feed converter emit_error limit c p r)
    unfolding after_feed
    after_feed-Standing c p (conv, fed) h =
        let moved : IsOpen (record p { conv = conv }) = record {
          first = h.first;
          events = h.events;
          only_emits = h.only_emits;
        } in
        elim (Option-cases fed.error) [
          | inr (e, eq) ↦ rw (eq, after_feed) (give_up-IsShut e (record p { conv = conv }) moved)
          | inl eq ↦
              rw (eq, after_feed)
                (end_round-Standing fed.is_done c _
                  (emit_all-IsOpen fed.events (record p { conv = conv }) moved))
        ]

    take_payload-Standing :
        (r : Read) (p : Pump C) → IsOpen p → Standing (take_payload converter emit_error limit r p)
    unfolding take_payload
    take_payload-Standing r p h =
        let counted : Pump C = record p { total = p.total + length r.payload } in
        let same : IsOpen counted = record {
          first = h.first;
          events = h.events;
          only_emits = h.only_emits;
        } in
        elim (Bool-cases (ltb limit counted.total)) [
          | inl e ↦ rw e (give_up-IsShut (codes "stream exceeded max-response-bytes") counted same)
          | inr e ↦
              rw e (after_feed-Standing r.is_closed counted (converter.feed r.payload p.conv) same)
        ]

    read_errors-Standing :
        (o : Option Text) (r : Read) (p : Pump C)
        → IsOpen p
        → Standing (elim o [
          | some e ↦ give_up e p
          | none ↦
              if not (is_empty r.read_error)
              then give_up r.read_error p
              else take_payload converter emit_error limit r p
        ])
    read_errors-Standing (some e) r p h = give_up-IsShut e p h
    read_errors-Standing none r p h = elim (Bool-cases (not (is_empty r.read_error))) [
      | inl e ↦ subst Standing (sym (if_true _ _ _ e)) (give_up-IsShut r.read_error p h)
      | inr e ↦ subst Standing (sym (if_false _ _ _ e)) (take_payload-Standing r p h)
    ]

    pub round-Standing :
        (r : Read) (p : Pump C) → IsOpen p → Standing (round converter emit_error limit r p)
    unfolding round
    round-Standing r p h = elim (Bool-cases r.aborted) [
      | inl e ↦
          subst Standing (sym (if_true _ _ _ e))
            (give_up-IsShut (codes "stream exceeded request-timeout") p h)
      | inr e ↦ subst Standing (sym (if_false _ _ _ e)) (read_errors-Standing r.error r p h)
    ]

    flush_end-IsShut :
        (flush : Option (C → List Text)) (p : Pump C)
        → IsOpen p
        → IsShut (close_streams [] (flush_end converter emit_error limit flush p))
    unfolding flush_end
    flush_end-IsShut none p h = close-IsShut [] p (inl refl) h
    flush_end-IsShut (some flush) p h =
        after (emit_all converter emit_error limit (flush p.conv) p)
          (emit_all-IsOpen (flush p.conv) p h)
      where
        after :
            (s : Pump C × Option Text)
            → IsOpen s.0
            → IsShut (close_streams [] (after_flush converter emit_error limit s))
        after (q, some e) k = close_again _ (close-IsShut (redact e) q (inr (e, refl)) k)
        after (q, none) k = close-IsShut [] q (inl refl) k

    pub after_loop-IsShut :
        (d c : Bool) (p : Pump C)
        → IsOpen p
        → IsShut (close_streams [] (after_loop converter emit_error limit d c p))
    unfolding after_loop
    after_loop-IsShut d c p h = elim (Bool-cases (not d && c)) [
      | inl e ↦ rw e (flush_end-IsShut converter.flush p h)
      | inr e ↦ rw e (close-IsShut [] p (inl refl) h)
    ]
