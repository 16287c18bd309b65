-- ===== src/Messages/Loop.antt =====
-- The loop of `Feed` over a list: frames that have been read, or events that have been decoded.
use opencode_go_cliproxyapi.Prelude.{
  Bool, Bool-cases, List, Option, [], ap, append_assoc, false, if_false, if_true, if◌then◌else◌,
  inl, inr, length, none, refl, some, suc, sym, true, zero, ℕ, ◌++◌, ◌∙◌, ◌∷◌, ◌≡◌,
}
use opencode_go_cliproxyapi.Prelude.Text.{Text, codes, text_eq}
use opencode_go_cliproxyapi.Prelude.Dict.{Dict}
use opencode_go_cliproxyapi.ResponseTools.{ToolIdentity}
use opencode_go_cliproxyapi.Sse.{Frame, Framer, drain_within, feed, next, or_stop, push}
use opencode_go_cliproxyapi.Sse.Chunks.{feed_all, feed_all-joined, joined}
use opencode_go_cliproxyapi.Prelude.Int.{ℤ}
use opencode_go_cliproxyapi.Messages.{ClientEvent, Conversion, Step, go_on, stops}
use opencode_go_cliproxyapi.Messages.ResponsesTarget.{ResponsesLibrary}
use opencode_go_cliproxyapi.Messages.Feed.{
  Decoder, StreamConverter, feed_chunk, feed_within, new_stream_converter, or_finish, put_before,
  take_frame, with_framer,
}

abbrev pub put_events : List ClientEvent → Step → Step
put_events events step = record step { events = events ++ step.events }

-- A step, and what follows unless it is the last or fails.
abbrev pub then_step : Step → (Conversion → Step) → Step
then_step step go = if stops step then step else put_events step.events (go step.conv)

module _ {A : Type 0} (act : A → Conversion → Step) where
  unfoldable pub dispatch_all : List A → Conversion → Step
  dispatch_all [] sc = go_on sc []
  dispatch_all (x ∷ xs) sc =
      let step = act x sc in
      let rest = dispatch_all xs step.conv in
      if stops step then step else put_events step.events rest

put_events-then_step :
    (events : List ClientEvent) (step : Step) (go : Conversion → Step)
    → then_step (put_events events step) go ≡ put_events events (then_step step go)
put_events-then_step events step go = elim (Bool-cases (stops step)) [
  | inl h ↦ if_true _ _ _ h ∙ ap (put_events events) (sym (if_true _ _ _ h))
  | inr h ↦
      if_false _ _ _ h
      ∙ ap (λ es. record (go step.conv) { events = es })
          (append_assoc events step.events (go step.conv).events)
      ∙ ap (put_events events) (sym (if_false _ _ _ h))
]

then_step_assoc :
    (step : Step) (go more : Conversion → Step)
    → then_step (then_step step go) more ≡ then_step step (λ sc. then_step (go sc) more)
then_step_assoc step go more = elim (Bool-cases (stops step)) [
  | inl h ↦ ap (λ s. then_step s more) (if_true _ _ _ h) ∙ if_true _ _ _ h ∙ sym (if_true _ _ _ h)
  | inr h ↦
      ap (λ s. then_step s more) (if_false _ _ _ h)
      ∙ put_events-then_step step.events (go step.conv) more
      ∙ sym (if_false _ _ _ h)
]

module _ (decoder : Decoder) (quote : Text → Text) (lib : ResponsesLibrary)
    (names : Dict ToolIdentity) where
  abbrev act : Frame → Conversion → Step
  act frame sc = take_frame decoder quote lib names frame sc

  -- What the loop of `Feed` returns and leaves, against the frames that the framer reads.
  abbrev Agrees : StreamConverter × Step → Framer × List Frame → Conversion → Type 0
  unfolding dispatch_all
  Agrees r drained sc =
      (r.1 ≡ dispatch_all act drained.1 sc)
      × (r.0.conv ≡ r.1.conv)
      × (stops r.1 ≡ false → r.0.framer ≡ drained.0)

  branch-Agrees :
      (b : Bool) (step : Step) (g : Framer) (q : StreamConverter × Step)
      (drained : Framer × List Frame)
      → stops step ≡ b
      → Agrees q drained step.conv
      → let r =
          if b
          then with_framer decoder quote lib names g step
          else put_before decoder quote lib names step.events q in
        (r.1 ≡ (if b then step else put_events step.events (dispatch_all act drained.1 step.conv)))
        × (r.0.conv ≡ r.1.conv)
        × (stops r.1 ≡ false → r.0.framer ≡ drained.0)
  unfolding Agrees
  branch-Agrees true step g q drained e (h, k, l) = (refl, refl, λ t. cc)
  branch-Agrees false step g q drained e (h, k, l) = (ap (put_events step.events) h, k, l)

  or_finish-Agrees :
      (go : Framer → Conversion → StreamConverter × Step) (drain : Framer → Framer × List Frame)
      (sc : Conversion) (r : Framer × Option Frame)
      → ((g : Framer) (c : Conversion) → Agrees (go g c) (drain g) c)
      → Agrees (or_finish decoder quote lib names go sc r) (or_stop drain r) sc
  unfolding or_finish Agrees dispatch_all
  or_finish-Agrees go drain sc (g, none) h = (refl, refl, λ e. refl)
  or_finish-Agrees go drain sc (g, some frame) h =
      let step = take_frame decoder quote lib names frame sc in
      branch-Agrees (stops step) step g (go g step.conv) (drain g) refl (h g step.conv)

  feed_within-Agrees :
      (n : ℕ) (f : Framer) (sc : Conversion)
      → Agrees (feed_within decoder quote lib names n f sc) (drain_within n f) sc
  unfolding feed_within drain_within Agrees dispatch_all
  feed_within-Agrees zero f sc = (refl, refl, λ e. refl)
  feed_within-Agrees (suc n) f sc =
      or_finish-Agrees (feed_within decoder quote lib names n) (drain_within n) sc (next f)
        (feed_within-Agrees n)

  -- What `Feed` returns for a chunk is what comes of dispatching the frames that the framer reads of the
  -- chunk one after another, up to the one that ends the stream or fails: the loop leaves out no complete
  -- frame.
  pub feed_chunk-dispatch_all :
      (chunk : Text) (s : StreamConverter)
      → (feed_chunk decoder quote lib names chunk s).1
        ≡ dispatch_all act (feed chunk s.framer).1 s.conv
  unfolding feed_chunk feed Agrees
  feed_chunk-dispatch_all chunk s =
      (feed_within-Agrees (suc (length (push chunk s.framer).buf)) (push chunk s.framer) s.conv).0

  -- The chunks of a stream, fed one after another up to the one that ends the stream or fails.
  unfoldable pub feed_chunks : List Text → StreamConverter → Step
  unfolding feed_chunk
  feed_chunks [] s = go_on s.conv []
  feed_chunks (chunk ∷ chunks) s =
      let r = feed_chunk decoder quote lib names chunk s in
      let rest = feed_chunks chunks r.0 in if stops r.1 then r.1 else put_events r.1.events rest

  dispatch_all-append :
      (frames others : List Frame) (sc : Conversion)
      → dispatch_all act (frames ++ others) sc
        ≡ then_step (dispatch_all act frames sc) (dispatch_all act others)
  unfolding dispatch_all
  dispatch_all-append [] others sc = refl
  dispatch_all-append (frame ∷ frames) others sc =
      ap
        (λ rest.
          if stops (act frame sc) then act frame sc else put_events (act frame sc).events rest)
        (dispatch_all-append frames others (act frame sc).conv)
      ∙ sym (then_step_assoc (act frame sc) (dispatch_all act frames) (dispatch_all act others))

  feed_chunk-Agrees :
      (chunk : Text) (s : StreamConverter)
      → Agrees (feed_chunk decoder quote lib names chunk s) (feed chunk s.framer) s.conv
  unfolding feed_chunk feed
  feed_chunk-Agrees chunk s =
      let f = push chunk s.framer in feed_within-Agrees (suc (length f.buf)) f s.conv

  feed_chunks-dispatch_all :
      (chunks : List Text) (s : StreamConverter)
      → feed_chunks chunks s ≡ dispatch_all act (feed_all chunks s.framer).1 s.conv
  unfolding feed_chunks dispatch_all Agrees
  feed_chunks-dispatch_all [] s = refl
  feed_chunks-dispatch_all (chunk ∷ chunks) s =
      let r = feed_chunk decoder quote lib names chunk s in
      let fed = feed chunk s.framer in
      let later = dispatch_all act (feed_all chunks fed.0).1 in
      let (same, conv, framer) = feed_chunk-Agrees chunk s in
      (elim (Bool-cases (stops r.1)) [
        | inl h ↦ if_true _ _ _ h ∙ sym (if_true _ _ _ h)
        | inr h ↦
            if_false _ _ _ h
            ∙ ap (put_events r.1.events) (
                feed_chunks-dispatch_all chunks r.0
                ∙ ap (λ f. dispatch_all act (feed_all chunks f).1 r.0.conv) (framer h)
                ∙ ap later conv)
            ∙ sym (if_false _ _ _ h)
      ])
      ∙ ap (λ step. then_step step later) same
      ∙ sym (dispatch_all-append fed.1 (feed_all chunks fed.0).1 s.conv)

  -- However the bytes of an upstream stream are cut into chunks, a new converter gives the same events and
  -- ends in the same way, with the same state, as if it were fed all of them at once.
  pub feed_chunks-joined :
      (format : Text) (now : ℤ) (chunks : List Text)
      → let s = new_stream_converter format now in
        feed_chunks chunks s ≡ (feed_chunk decoder quote lib names (joined chunks) s).1
  unfolding new_stream_converter
  feed_chunks-joined format now chunks =
      let s = new_stream_converter format now in
      feed_chunks-dispatch_all chunks s
      ∙ ap (λ (r : Framer × List Frame). dispatch_all act r.1 s.conv)
          (feed_all-joined (text_eq format (codes "claude")) chunks)
      ∙ sym (feed_chunk-dispatch_all (joined chunks) s)
