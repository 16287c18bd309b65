-- ===== src/Messages/Announce/Quiet.antt =====
-- The events that open no block: they announce nothing and leave every position as it is.
use opencode_go_cliproxyapi.Prelude.{
  All, All-append, Bool, List, Option, Option-cases, [], ap, arith, false, if_ind, if_ind_false,
  inl, inr, leb, length, map, none, not, refl, some, suc, true, ℕ, ◌++◌, ◌||◌, ◌∷◌, ◌≡◌,
}
use opencode_go_cliproxyapi.Prelude.Int.{negsuc, pos, ℤ}
use opencode_go_cliproxyapi.ErrorClass.{ClassifiedError}
use opencode_go_cliproxyapi.Messages.{
  BlockState, Conversion, StartMessage, Step, StreamEvent, UsageCounts, block_at, capture_cache,
  eq_ℤ, failed, go_on, put_block, responses_event, sse_error, start_message, take_usage,
  tool_block_at,
}
use opencode_go_cliproxyapi.Messages.Announce.{
  announced_by, announcements, has_text, keys, shape, slots,
}
use opencode_go_cliproxyapi.Prelude.Text.{Text, codes, text_eq}
use opencode_go_cliproxyapi.Prelude.Dict.{Dict}
use opencode_go_cliproxyapi.ResponseTools.{ToolIdentity, identity_of, unwrap_input}
use opencode_go_cliproxyapi.Assembly.{RespItem}
use opencode_go_cliproxyapi.Frames.Responses.{
  ResponsesEmitter, ResponsesEvent, created, tool_delta, tool_done,
}
use opencode_go_cliproxyapi.Messages.ResponsesTarget.{
  ResponsesLibrary, append_text, arguments_fragment, arguments_to, continue_block,
  dispatch_responses, item_events, items_events, option_list, output_items, responses_completed,
  responses_em, start_block, text_fragment, to_events,
}

unfoldable pub Quiet : Conversion → Step → Type 0
unfolding announcements
Quiet sc step = (announcements step.events ≡ []) × (shape step.conv ≡ shape sc)

pub eq_ℤ-eq : (a b : ℤ) → eq_ℤ a b ≡ true → a ≡ b
eq_ℤ-eq (pos a) (pos b) h = ap pos (ground (arith, h))
eq_ℤ-eq (pos a) (negsuc b) h = cc
eq_ℤ-eq (negsuc a) (pos b) h = cc
eq_ℤ-eq (negsuc a) (negsuc b) h = ap negsuc (ground (arith, h))

-- A block is replaced by one of its kind with its id.
slots-put_block :
    (i : ℤ) (b c : BlockState) (blocks : List (ℤ × BlockState)) (seen : Bool)
    → block_at i blocks ≡ some b
    → c.kind ≡ b.kind
    → c.id ≡ b.id
    → slots seen (put_block i c blocks) ≡ slots seen blocks
unfolding put_block block_at slots
slots-put_block i b c [] seen h k d = cc
slots-put_block i b c ((j, e) ∷ blocks) seen h k d =
    ground (arith, slots-put_block i b c blocks true, slots-put_block i b c blocks seen)

keys-put_block :
    (i : ℤ) (b c : BlockState) (blocks : List (ℤ × BlockState))
    → block_at i blocks ≡ some b
    → keys (put_block i c blocks) ≡ keys blocks
unfolding put_block block_at keys
keys-put_block i b c [] h = cc
keys-put_block i b c ((j, e) ∷ blocks) h = ground (arith, keys-put_block i b c blocks, eq_ℤ-eq j i)

has_text-put_block :
    (i : ℤ) (b c : BlockState) (blocks : List (ℤ × BlockState))
    → block_at i blocks ≡ some b
    → c.kind ≡ b.kind
    → has_text (put_block i c blocks) ≡ has_text blocks
unfolding put_block block_at has_text
has_text-put_block i b c [] h k = cc
has_text-put_block i b c ((j, e) ∷ blocks) h k = ground (arith, has_text-put_block i b c blocks)

shape-put_block :
    (i : ℤ) (b c : BlockState) (sc : Conversion)
    → block_at i sc.blocks ≡ some b
    → c.kind ≡ b.kind
    → c.id ≡ b.id
    → shape (record sc { blocks = put_block i c sc.blocks }) ≡ shape sc
unfolding shape
shape-put_block i b c sc h k d =
    rw
      (
        slots-put_block i b c sc.blocks false h k d,
        keys-put_block i b c sc.blocks h,
        has_text-put_block i b c sc.blocks h k,
      )
      refl

append_text-shape :
    (i : ℤ) (fragment : Text) (sc : Conversion) → shape (append_text i fragment sc) ≡ shape sc
unfolding append_text
append_text-shape i fragment sc = elim (Option-cases (block_at i sc.blocks)) [
  | inl h ↦ rw (h, append_text) refl
  | inr (b, h) ↦
      rw (h, append_text)
        (shape-put_block i b (record b { text = b.text ++ fragment }) sc h refl refl)
]

tool_block_at-some :
    (i : ℤ) (sc : Conversion) (b : BlockState)
    → tool_block_at i sc ≡ some b
    → block_at i sc.blocks ≡ some b
unfolding tool_block_at
tool_block_at-some i sc b h = ground arith

-- Events that announce nothing.
abbrev pub Silent : List ResponsesEvent → Type 0
Silent events = All (λ event. announced_by event ≡ []) events

pub announcements-Silent :
    (em : ResponsesEmitter) (events : List ResponsesEvent)
    → Silent events
    → announcements (map (responses_event em) events) ≡ []
unfolding announcements
announcements-Silent em [] h = refl
announcements-Silent em (event ∷ events) h = rw h.0 (announcements-Silent em events h.1)

text_fragment-Quiet : (ev : StreamEvent) (sc : Conversion) → Quiet sc (text_fragment ev sc)
unfolding Quiet text_fragment announcements to_events
text_fragment-Quiet ev sc = (refl, append_text-shape ev.index ev.delta.text sc)

module _ (lib : ResponsesLibrary) (names : Dict ToolIdentity) where
  -- The event of a fragment of arguments, if there is one.
  tool_delta-Silent :
      (id : Text) (i : ℕ) (name fragment args : Text) (n : ℕ)
      → Silent (option_list (tool_delta lib.codec names id i name fragment args n).0)
  unfolding tool_delta
  tool_delta-Silent id i name fragment args n =
      if_ind (λ (r : Option ResponsesEvent × ℕ). Silent (option_list r.0))
        (not (identity_of names name).custom) (refl, tt)
        (if_ind (λ (r : Option ResponsesEvent × ℕ). Silent (option_list r.0))
          (text_eq (unwrap_input lib.codec args) args
            || leb (length (unwrap_input lib.codec args)) n)
          tt (refl, tt))

  arguments_to-Quiet :
      (o : Option BlockState) (ev : StreamEvent) (sc : Conversion)
      → tool_block_at ev.index sc ≡ o
      → Quiet sc (arguments_to lib names o ev sc)
  unfolding Quiet arguments_to announcements to_events
  arguments_to-Quiet none ev sc h = (refl, refl)
  arguments_to-Quiet (some b) ev sc h =
      let args = b.args ++ ev.delta.partial_json in
      let sent =
        tool_delta lib.codec names b.id b.out_idx b.name ev.delta.partial_json args
          b.input_emitted in
      (
        announcements-Silent (responses_em sc) (option_list sent.0)
            (tool_delta-Silent b.id b.out_idx b.name ev.delta.partial_json args b.input_emitted),
        shape-put_block ev.index b (record b { args = args; input_emitted = sent.1 }) sc
            (tool_block_at-some ev.index sc b h) refl refl,
      )

  continue_block-Quiet :
      (ev : StreamEvent) (sc : Conversion) → Quiet sc (continue_block lib names ev sc)
  unfolding Quiet continue_block announcements arguments_fragment
  continue_block-Quiet ev sc =
      if_ind (Quiet sc) _ (text_fragment-Quiet ev sc) (
        if_ind (Quiet sc) _ (arguments_to-Quiet (tool_block_at ev.index sc) ev sc refl)
          (refl, refl))

  item_events-Silent : (i : ℕ) (item : Option RespItem) → Silent (item_events lib names i item)
  unfolding item_events tool_done
  item_events-Silent i none = tt
  item_events-Silent i (some item) = ground arith

  items_events-Silent :
      (i : ℕ) (items : List (Option RespItem)) → Silent (items_events lib names i items)
  unfolding items_events
  items_events-Silent i [] = tt
  items_events-Silent i (item ∷ items) =
      All-append _ (item_events lib names i item) (items_events lib names (suc i) items)
        (item_events-Silent i item) (items_events-Silent (suc i) items)

  pub responses_completed-silent :
      (sc : Conversion) → announcements (responses_completed lib names sc) ≡ []
  unfolding responses_completed to_events
  responses_completed-silent sc = announcements-Silent (responses_em sc) _ (
      All-append _ (items_events lib names 0 (output_items lib names sc)) _
        (items_events-Silent 0 (output_items lib names sc)) (refl, tt))

  started-Quiet :
      (m : StartMessage) (sc : Conversion)
      → let begun = start_message m sc in Quiet sc (go_on begun (to_events begun (created ∷ [])))
  unfolding Quiet start_message capture_cache announcements to_events shape
  started-Quiet m sc = (refl, refl)

  counted-Quiet :
      (u : UsageCounts) (reason : Text) (sc : Conversion)
      → Quiet sc (go_on (record (take_usage u sc) { stop_reason = reason }) [])
  unfolding Quiet take_usage capture_cache announcements shape
  counted-Quiet u reason sc = (refl, refl)

  stopped-Quiet :
      (sc : Conversion)
      → Quiet sc (record {
        conv = sc;
        events = responses_completed lib names sc;
        is_done = true;
        error = none;
      })
  unfolding Quiet
  stopped-Quiet sc = (responses_completed-silent sc, refl)

  failed-Quiet : (sc : Conversion) (e : ClassifiedError) → Quiet sc (failed sc e)
  unfolding Quiet announcements
  failed-Quiet sc e = (refl, refl)

  skipped-Quiet : (sc : Conversion) → Quiet sc (go_on sc [])
  unfolding Quiet announcements
  skipped-Quiet sc = (refl, refl)

  -- Every event but the start of a block.
  pub dispatch_responses-Quiet :
      (etype : Text) (ev : StreamEvent) (sc : Conversion)
      → text_eq etype (codes "content_block_start") ≡ false
      → Quiet sc (dispatch_responses lib names etype ev sc)
  unfolding dispatch_responses
  dispatch_responses-Quiet etype ev sc h = if_ind (Quiet sc) _ (started-Quiet ev.message sc) (
      if_ind_false (Quiet sc) _ (start_block lib names ev sc) h (
        if_ind (Quiet sc) _ (continue_block-Quiet ev sc) (
          if_ind (Quiet sc) _ (counted-Quiet ev.usage ev.delta.stop_reason sc) (
            if_ind (Quiet sc) _ (stopped-Quiet sc)
              (if_ind (Quiet sc) _ (failed-Quiet sc (sse_error ev.error)) (skipped-Quiet sc))))))
