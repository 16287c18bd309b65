-- ===== src/Messages/Announce/Starts.antt =====
-- Blocks that open with ascending indexes are announced at the next free position, and so every announced
-- position is that of the item in the rendered output.
use opencode_go_cliproxyapi.Prelude.{
  All-append_left, Bool, Bool-cases, List, [], ap, append-nil, append_assoc, arith, false, if_false,
  if_split, if_true, if◌then◌else◌, inl, inr, is_some, map, refl, some, subst, sym, true, ℕ, ◌++◌,
  ◌∙◌, ◌∷◌, ◌≡◌,
}
use opencode_go_cliproxyapi.Prelude.Text.{Text, codes, text_eq, text_eq_iff}
use opencode_go_cliproxyapi.Prelude.Int.{ℤ}
use opencode_go_cliproxyapi.Messages.{
  ClientEvent, Conversion, Step, StreamEvent, chat_event, go_on, is_tool_use, new_block,
  new_conversion, responses_event, stops, verbatim,
}
use opencode_go_cliproxyapi.Messages.Announce.{
  Ascending, Shape, Slot, announced_by, announcements, call_slot, has_text, is_text, item_slot,
  keys, message_slot, number_from, shape, slots,
}
use opencode_go_cliproxyapi.Prelude.Dict.{Dict}
use opencode_go_cliproxyapi.ResponseTools.{ToolIdentity}
use opencode_go_cliproxyapi.Messages.ResponsesTarget.{
  ResponsesLibrary, dispatch_responses, output_items, start_block, start_text, start_tool,
  to_events,
}
use opencode_go_cliproxyapi.Frames.Responses.{announce}
use opencode_go_cliproxyapi.Messages.Announce.Quiet.{Quiet, dispatch_responses-Quiet}
use opencode_go_cliproxyapi.Messages.Loop.{dispatch_all, put_events}
use opencode_go_cliproxyapi.Assembly.{RespItem}
use opencode_go_cliproxyapi.Messages.Announce.Opening.{
  PlacesAgree, opened-keys, opened_next, opened_silently, opened_with,
}
use opencode_go_cliproxyapi.Messages.Announce.Rendered.{output_items-slots}

-- A decoded event with its type.
abbrev pub TypedEvent : Type 0
TypedEvent = Text × StreamEvent

abbrev pub opens_block : Text → Bool
opens_block etype = text_eq etype (codes "content_block_start")

-- The indexes of the blocks that events open.
unfoldable pub opened : List TypedEvent → List ℤ
opened [] = []
opened ((etype, ev) ∷ events) =
    if opens_block etype then ev.index ∷ opened events else opened events

announcements-append :
    (events others : List ClientEvent)
    → announcements (events ++ others) ≡ announcements events ++ announcements others
unfolding announcements
announcements-append [] others = refl
announcements-append (verbatim block ∷ events) others = announcements-append events others
announcements-append (chat_event b chunk ∷ events) others = announcements-append events others
announcements-append (responses_event em event ∷ events) others =
    ap (λ more. announced_by event ++ more) (announcements-append events others)
    ∙ sym (append_assoc (announced_by event) (announcements events) (announcements others))

Ascending-append_left : (ks js : List ℤ) → Ascending (ks ++ js) → Ascending ks
unfolding Ascending
Ascending-append_left [] js h = tt
Ascending-append_left (k ∷ ks) js h = (All-append_left _ ks js h.0, Ascending-append_left ks js h.1)

-- The start of a block, with an index above those there are.
module _ (lib : ResponsesLibrary) (names : Dict ToolIdentity) where
  abbrev Continues : List (ℕ × Slot) → Conversion → Step → Type 0
  unfolding announcements PlacesAgree
  Continues announced sc step =
      PlacesAgree (shape step.conv) (announced ++ announcements step.events)

  start_text-Continues :
      (ev : StreamEvent) (sc : Conversion) (later : List ℤ) (announced : List (ℕ × Slot))
      → Ascending (keys sc.blocks ++ ev.index ∷ later)
      → PlacesAgree (shape sc) announced
      → is_text (new_block ev.content_block) ≡ true
      → Continues announced sc (start_text lib names ev sc)
  unfolding start_text slots to_events announce announcements Continues shape
  start_text-Continues ev sc later announced h a t =
      let b = new_block ev.content_block in
      if_split (Continues announced sc) (is_some sc.msg_idx) _ _
        (λ m.
          opened_silently ev.index b sc later h announced a (ground (arith, t, m, a.2))
            (ground (arith, t, m, a.2)))
        (λ m.
          opened_next ev.index b sc later h announced message_slot (some sc.out_count) a
            (ground (arith, t, m, a.2)) (ground (arith, t, m, a.2)))

  start_tool-Continues :
      (ev : StreamEvent) (sc : Conversion) (later : List ℤ) (announced : List (ℕ × Slot))
      → Ascending (keys sc.blocks ++ ev.index ∷ later)
      → PlacesAgree (shape sc) announced
      → is_text (new_block ev.content_block) ≡ false
      → is_tool_use (new_block ev.content_block) ≡ true
      → Continues announced sc (start_tool lib names ev sc)
  unfolding start_tool slots to_events announce announcements Continues shape
  start_tool-Continues ev sc later announced h a t u =
      let b = record (new_block ev.content_block) { out_idx = sc.out_count } in
      opened_next ev.index b sc later h announced (call_slot b.id) sc.msg_idx a
        (ground (arith, t, u)) (ground (arith, t, a.2))

  start_other-Continues :
      (ev : StreamEvent) (sc : Conversion) (later : List ℤ) (announced : List (ℕ × Slot))
      → Ascending (keys sc.blocks ++ ev.index ∷ later)
      → PlacesAgree (shape sc) announced
      → is_text (new_block ev.content_block) ≡ false
      → is_tool_use (new_block ev.content_block) ≡ false
      → Continues announced sc (go_on (opened_with ev.index (new_block ev.content_block) sc) [])
  unfolding slots announcements Continues
  start_other-Continues ev sc later announced h a t u =
      opened_silently ev.index (new_block ev.content_block) sc later h announced a
        (ground (arith, t, u)) (ground (arith, t, a.2))

  start_block-Continues :
      (ev : StreamEvent) (sc : Conversion) (later : List ℤ) (announced : List (ℕ × Slot))
      → Ascending (keys sc.blocks ++ ev.index ∷ later)
      → PlacesAgree (shape sc) announced
      → Continues announced sc (start_block lib names ev sc)
  unfolding start_block new_block
  start_block-Continues ev sc later announced h a =
      if_split (Continues announced sc) (text_eq ev.content_block.type (codes "text")) _ _
        (λ t. start_text-Continues ev sc later announced h a t)
        (λ t.
          if_split (Continues announced sc) (text_eq ev.content_block.type (codes "tool_use")) _ _
            (λ u. start_tool-Continues ev sc later announced h a t u)
            (λ u. start_other-Continues ev sc later announced h a t u))

  abbrev KeysOpened : ℤ → Conversion → Step → Type 0
  unfolding keys
  KeysOpened i sc step = keys step.conv.blocks ≡ keys sc.blocks ++ i ∷ []

  start_block-KeysOpened :
      (ev : StreamEvent) (sc : Conversion) (later : List ℤ)
      → Ascending (keys sc.blocks ++ ev.index ∷ later)
      → KeysOpened ev.index sc (start_block lib names ev sc)
  unfolding start_block start_text start_tool KeysOpened
  start_block-KeysOpened ev sc later h =
      let b = new_block ev.content_block in
      let P = KeysOpened ev.index sc in
      let k = opened-keys ev.index b sc later h in
      if_split P (text_eq ev.content_block.type (codes "text")) _ _
        (λ t. if_split P (is_some sc.msg_idx) _ _ (λ m. k) (λ m. k))
        (λ t.
          if_split P (text_eq ev.content_block.type (codes "tool_use")) _ _
            (λ u. opened-keys ev.index (record b { out_idx = sc.out_count }) sc later h) (λ u. k))

  dispatch_responses-opens_block :
      (etype : Text) (ev : StreamEvent) (sc : Conversion)
      → opens_block etype ≡ true
      → dispatch_responses lib names etype ev sc ≡ start_block lib names ev sc
  unfolding dispatch_responses text_eq
  dispatch_responses-opens_block etype ev sc t =
      ap (λ name. dispatch_responses lib names name ev sc)
        ((text_eq_iff etype (codes "content_block_start")).0 t)

  Quiet-Continues :
      (step : Step) (sc : Conversion) (announced : List (ℕ × Slot))
      → Quiet sc step
      → PlacesAgree (shape sc) announced
      → Continues announced sc step
  unfolding Continues Quiet
  Quiet-Continues step sc announced q a =
      subst (λ s. PlacesAgree s (announced ++ announcements step.events)) (sym q.1)
        (subst (PlacesAgree (shape sc))
          (sym (ap (λ more. announced ++ more) q.0 ∙ append-nil announced)) a)

  -- What one event keeps, when the indexes of all the blocks ascend.
  abbrev Kept : Conversion → List (ℕ × Slot) → List TypedEvent → Step → Type 0
  unfolding keys Continues Ascending
  Kept sc announced events step =
      Continues announced sc step × Ascending (keys step.conv.blocks ++ opened events)

  started-Kept :
      (ev : StreamEvent) (events : List TypedEvent) (sc : Conversion) (announced : List (ℕ × Slot))
      → Ascending (keys sc.blocks ++ ev.index ∷ opened events)
      → PlacesAgree (shape sc) announced
      → Kept sc announced events (start_block lib names ev sc)
  unfolding Kept
  started-Kept ev events sc announced h a = (
    start_block-Continues ev sc (opened events) announced h a,
    subst Ascending
        (sym (
          ap (λ ks. ks ++ opened events) (start_block-KeysOpened ev sc (opened events) h)
          ∙ append_assoc (keys sc.blocks) (ev.index ∷ []) (opened events)))
        h,
  )

  Quiet-Kept :
      (step : Step) (events : List TypedEvent) (sc : Conversion) (announced : List (ℕ × Slot))
      → Quiet sc step
      → Ascending (keys sc.blocks ++ opened events)
      → PlacesAgree (shape sc) announced
      → Kept sc announced events step
  unfolding Kept Quiet shape
  Quiet-Kept step events sc announced q h a = (
    Quiet-Continues step sc announced q a,
    subst (λ ks. Ascending (ks ++ opened events)) (sym (ap (λ (s : Shape). s.block_keys) q.1)) h,
  )

  dispatch_responses-Kept :
      (etype : Text) (ev : StreamEvent) (events : List TypedEvent) (sc : Conversion)
      (announced : List (ℕ × Slot))
      → Ascending (keys sc.blocks ++ opened ((etype, ev) ∷ events))
      → PlacesAgree (shape sc) announced
      → Kept sc announced events (dispatch_responses lib names etype ev sc)
  unfolding opened
  dispatch_responses-Kept etype ev events sc announced h a = elim (Bool-cases (opens_block etype)) [
    | inl t ↦
        subst (Kept sc announced events) (sym (dispatch_responses-opens_block etype ev sc t)) (
          started-Kept ev events sc announced
            (subst (λ ks. Ascending (keys sc.blocks ++ ks)) (if_true _ _ _ t) h) a)
    | inr t ↦
        Quiet-Kept (dispatch_responses lib names etype ev sc) events sc announced
          (dispatch_responses-Quiet lib names etype ev sc t)
          (subst (λ ks. Ascending (keys sc.blocks ++ ks)) (if_false _ _ _ t) h) a
  ]

  -- Events that have been decoded, in order.
  unfoldable pub respond : TypedEvent → Conversion → Step
  unfolding dispatch_responses
  respond (etype, ev) sc = dispatch_responses lib names etype ev sc

  -- What a run of events keeps.
  abbrev Ran : List (ℕ × Slot) → Step → Type 0
  unfolding keys announcements PlacesAgree Ascending
  Ran announced step =
      PlacesAgree (shape step.conv) (announced ++ announcements step.events)
      × Ascending (keys step.conv.blocks)

  Ran-put_events :
      (announced : List (ℕ × Slot)) (events : List ClientEvent) (rest : Step)
      → Ran (announced ++ announcements events) rest
      → Ran announced (put_events events rest)
  unfolding Ran
  Ran-put_events announced events rest (a, k) = (
    subst (PlacesAgree (shape rest.conv))
        (append_assoc announced (announcements events) (announcements rest.events)
          ∙ ap (λ more. announced ++ more) (sym (announcements-append events rest.events)))
        a,
    k,
  )

  dispatch_all-Ran :
      (events : List TypedEvent) (sc : Conversion) (announced : List (ℕ × Slot))
      → Ascending (keys sc.blocks ++ opened events)
      → PlacesAgree (shape sc) announced
      → Ran announced (dispatch_all respond events sc)
  unfolding dispatch_all respond opened Ran announcements
  dispatch_all-Ran [] sc announced h a = (
    subst (PlacesAgree (shape sc)) (sym (append-nil announced)) a,
    subst Ascending (append-nil (keys sc.blocks)) h,
  )
  dispatch_all-Ran ((etype, ev) ∷ events) sc announced h a =
      let step = dispatch_responses lib names etype ev sc in
      let k = dispatch_responses-Kept etype ev events sc announced h a in
      if_split (Ran announced) (stops step) _ _
        (λ t. (k.0, Ascending-append_left (keys step.conv.blocks) (opened events) k.1))
        (λ t.
          Ran-put_events announced step.events (dispatch_all respond events step.conv)
            (dispatch_all-Ran events step.conv (announced ++ announcements step.events) k.1 k.0))

  -- Let decoded events of an upstream Messages stream, whose blocks open with ascending indexes, be
  -- dispatched in order by a new converter to the Responses protocol, up to the one that stops it. Then the
  -- output that is rendered in the end consists of items, none of them nil; and the positions and items
  -- that have been announced by response.output_item.added are exactly the positions and items of that
  -- output, in order from 0: the message where the message is, and each call, under its call id.
  pub announcements-output_items :
      (format : Text) (now : ℤ) (events : List TypedEvent)
      → Ascending (opened events)
      → let step = dispatch_all respond events (new_conversion format now) in
        (items : List RespItem) × (output_items lib names step.conv ≡ map some items)
        × (announcements step.events ≡ number_from 0 (map item_slot items))
  unfolding new_conversion keys Ran shape slots has_text number_from PlacesAgree
  announcements-output_items format now events h =
      let step = dispatch_all respond events (new_conversion format now) in
      let ran = dispatch_all-Ran events (new_conversion format now) [] h (refl, refl, refl) in
      let rendered = output_items-slots lib names step.conv ran.1 in
      (rendered.0, rendered.1, ran.0.0 ∙ ap (number_from 0) (sym rendered.2))
