-- ===== src/Messages/Announce/Rendered.antt =====
-- The output that is rendered has the slots that the blocks take.
use opencode_go_cliproxyapi.Prelude.{
  All, Bool-cases, List, [], ap, arith, false, if◌then◌else◌, inl, inr, map, refl, some, sym, true,
  ◌++◌, ◌∙◌, ◌∷◌, ◌≡◌,
}
use opencode_go_cliproxyapi.Prelude.Text.{Text, text_eq}
use opencode_go_cliproxyapi.Prelude.Dict.{Dict}
use opencode_go_cliproxyapi.Prelude.Int.{leb_ℤ, negsuc, pos, ℤ}
use opencode_go_cliproxyapi.Protocol.{default_args}
use opencode_go_cliproxyapi.ResponseTools.{ToolIdentity, identity_of}
use opencode_go_cliproxyapi.Assembly.{
  Assembler, RespItem, call_item, message_item, new_assembler, render,
}
use opencode_go_cliproxyapi.Assembly.Refinement.{
  AssemblerCall, all_calls, all_text, early_calls, expected_output, function_call, late_calls,
  more_text, perform, render-perform, reserve, reserves,
}
use opencode_go_cliproxyapi.Messages.{BlockState, Conversion, is_tool_use}
use opencode_go_cliproxyapi.Messages.ResponsesTarget.{
  ResponsesLibrary, add_block, add_blocks, insert_block, output_items, sort_blocks,
}
use opencode_go_cliproxyapi.Messages.Announce.{
  Ascending, call_slot, is_text, item_slot, keys, message_slot, slots,
}

leb_ℤ_total : (a b : ℤ) → leb_ℤ b a ≡ false → leb_ℤ a b ≡ true
leb_ℤ_total (pos a) (pos b) h = ground arith
leb_ℤ_total (pos a) (negsuc b) h = cc
leb_ℤ_total (negsuc a) (pos b) h = refl
leb_ℤ_total (negsuc a) (negsuc b) h = ground arith

-- An ascending list is sorted already.
insert_block-least :
    (i : ℤ) (b : BlockState) (blocks : List (ℤ × BlockState))
    → All (λ j. leb_ℤ j i ≡ false) (keys blocks)
    → insert_block (i, b) blocks ≡ (i, b) ∷ blocks
unfolding insert_block keys
insert_block-least i b [] h = refl
insert_block-least i b ((j, c) ∷ blocks) h = rw (leb_ℤ_total i j h.0) refl

sort_blocks-Ascending :
    (blocks : List (ℤ × BlockState)) → Ascending (keys blocks) → sort_blocks blocks ≡ blocks
unfolding sort_blocks keys Ascending
sort_blocks-Ascending [] h = refl
sort_blocks-Ascending ((i, b) ∷ blocks) h =
    ap (insert_block (i, b)) (sort_blocks-Ascending blocks h.1) ∙ insert_block-least i b blocks h.0

-- The calls of the assembler that a block makes.
block_calls : BlockState → List AssemblerCall
block_calls b =
    if is_text b
    then reserve ∷ more_text b.text ∷ []
    else if is_tool_use b
    then function_call b.id b.name (default_args b.args) ∷ []
    else []

all_block_calls : List (ℤ × BlockState) → List AssemblerCall
all_block_calls [] = []
all_block_calls ((i, b) ∷ blocks) = block_calls b ++ all_block_calls blocks

module _ (lib : ResponsesLibrary) (names : Dict ToolIdentity) where
  perform-block_calls :
      (b : BlockState) (rest : List AssemblerCall) (a : Assembler)
      → perform lib.codec names (block_calls b ++ rest) a
        ≡ perform lib.codec names rest (add_block lib names b a)
  unfolding add_block perform block_calls
  perform-block_calls b rest a = elim (Bool-cases (is_text b)) [
    | inl h ↦ rw h refl
    | inr h ↦ elim (Bool-cases (is_tool_use b)) [ inl k ↦ rw (h, k) refl | inr k ↦ rw (h, k) refl ]
  ]

  add_blocks-perform :
      (blocks : List (ℤ × BlockState)) (a : Assembler)
      → add_blocks lib names blocks a ≡ perform lib.codec names (all_block_calls blocks) a
  unfolding add_blocks all_block_calls perform
  add_blocks-perform [] a = refl
  add_blocks-perform ((i, b) ∷ blocks) a =
      add_blocks-perform blocks (add_block lib names b a)
      ∙ sym (perform-block_calls b (all_block_calls blocks) a)

  item_slot-call :
      (call_id name args : Text)
      → item_slot (call_item lib.codec names call_id name args) ≡ call_slot call_id
  unfolding item_slot call_item text_eq
  item_slot-call call_id name args = elim (Bool-cases (identity_of names name).custom) [
    | inl h ↦ rw h refl
    | inr h ↦ rw h refl
  ]

  all_calls-slots :
      (blocks : List (ℤ × BlockState))
      → map item_slot (all_calls lib.codec names (all_block_calls blocks)) ≡ slots true blocks
  unfolding all_block_calls block_calls all_calls slots
  all_calls-slots [] = refl
  all_calls-slots ((i, b) ∷ blocks) =
      ground (arith, all_calls-slots blocks, item_slot-call b.id b.name (default_args b.args))

  early_late-slots :
      (blocks : List (ℤ × BlockState)) (message : RespItem)
      → item_slot message ≡ message_slot
      → reserves (all_block_calls blocks) ≡ true
      → map item_slot (
          early_calls lib.codec names (all_block_calls blocks)
          ++ message ∷ late_calls lib.codec names (all_block_calls blocks))
        ≡ slots false blocks
  unfolding all_block_calls block_calls early_calls late_calls reserves slots
  early_late-slots [] message m h = cc
  early_late-slots ((i, b) ∷ blocks) message m h = ground (
    arith,
    all_calls-slots blocks,
    early_late-slots blocks message m,
    item_slot-call b.id b.name (default_args b.args),
  )

  unreserved-slots :
      (blocks : List (ℤ × BlockState))
      → reserves (all_block_calls blocks) ≡ false
      → (all_text (all_block_calls blocks) ≡ []) × (slots true blocks ≡ slots false blocks)
  unfolding all_block_calls block_calls all_text reserves slots
  unreserved-slots [] h = (refl, refl)
  unreserved-slots ((i, b) ∷ blocks) h = ground (arith, unreserved-slots blocks)

  item_slot-message : (id text : Text) → item_slot (message_item lib.marshal id text) ≡ message_slot
  unfolding item_slot message_item text_eq
  item_slot-message id text = refl

  expected_output-slots :
      (blocks : List (ℤ × BlockState)) (id : Text)
      → map item_slot (expected_output lib.codec names lib.marshal id (all_block_calls blocks))
        ≡ slots false blocks
  unfolding expected_output
  expected_output-slots blocks id =
      let calls = all_block_calls blocks in
      elim (Bool-cases (reserves calls)) [
        | inl h ↦ rw h (
            early_late-slots blocks (message_item lib.marshal id (all_text calls))
              (item_slot-message id (all_text calls)) h)
        | inr h ↦
            rw (h, (unreserved-slots blocks h).0)
              (all_calls-slots blocks ∙ (unreserved-slots blocks h).1)
      ]

  -- The rendered items have the slots of the blocks.
  pub output_items-slots :
      (sc : Conversion)
      → Ascending (keys sc.blocks)
      → (items : List RespItem) × (output_items lib names sc ≡ map some items)
        × (map item_slot items ≡ slots false sc.blocks)
  unfolding output_items
  output_items-slots sc h =
      let calls = all_block_calls sc.blocks in
      (
        expected_output lib.codec names lib.marshal sc.msg_id calls,
        ap (λ blocks. render lib.marshal (add_blocks lib names blocks (new_assembler sc.msg_id)))
              (sort_blocks-Ascending sc.blocks h)
            ∙ ap (render lib.marshal) (add_blocks-perform sc.blocks (new_assembler sc.msg_id))
            ∙ render-perform lib.codec names lib.marshal sc.msg_id calls,
        expected_output-slots sc.blocks sc.msg_id,
      )
