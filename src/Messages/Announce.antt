-- ===== src/Messages/Announce.antt =====
-- Output positions of internal/adapter/messages/stream.go: the items that are announced while a stream
-- runs, against the output that is rendered at its end.
pub mod Rendered
pub mod Quiet
pub mod Opening
pub mod Starts
use opencode_go_cliproxyapi.Prelude.{
  All, Bool, List, Option, [], false, if◌then◌else◌, suc, true, ℕ, ◌++◌, ◌∷◌, ◌≡◌,
}
use opencode_go_cliproxyapi.Prelude.Text.{Text, codes, text_eq}
use opencode_go_cliproxyapi.Prelude.Int.{leb_ℤ, ℤ}
use opencode_go_cliproxyapi.Assembly.{RespItem}
use opencode_go_cliproxyapi.Frames.Responses.{
  ResponsesEvent, args_delta, args_done, completed, content_part_done, created, input_delta,
  input_done, item_added, item_done, new_call, new_message, text_delta, text_done,
}
use opencode_go_cliproxyapi.Messages.{
  BlockState, ClientEvent, Conversion, chat_event, is_tool_use, responses_event, verbatim,
}

-- What stands at a position of the output: the message, or the call with an id.
pub data Slot : Type 0 where
  message_slot : Slot
  call_slot : (call_id : Text) → Slot

abbrev pub is_text : BlockState → Bool
is_text b = text_eq b.kind (codes "text")

-- The positions that the blocks take; the Boolean is whether there is a message already.
unfoldable pub slots : Bool → List (ℤ × BlockState) → List Slot
slots seen [] = []
slots seen ((i, b) ∷ blocks) =
    if is_text b
    then (if seen then slots true blocks else message_slot ∷ slots true blocks)
    else if is_tool_use b
    then call_slot b.id ∷ slots seen blocks
    else slots seen blocks

unfoldable pub has_text : List (ℤ × BlockState) → Bool
has_text [] = false
has_text ((i, b) ∷ blocks) = if is_text b then true else has_text blocks

unfoldable pub keys : List (ℤ × BlockState) → List ℤ
keys [] = []
keys ((i, b) ∷ blocks) = i ∷ keys blocks

unfoldable pub number_from : ℕ → List Slot → List (ℕ × Slot)
number_from n [] = []
number_from n (s ∷ rest) = (n, s) ∷ number_from (suc n) rest

-- The slot of a rendered item.
unfoldable pub item_slot : RespItem → Slot
item_slot item =
    if text_eq item.kind (codes "message") then message_slot else call_slot item.call_id

-- What an event announces, and what the events do, with the positions they name.
abbrev pub announced_by : ResponsesEvent → List (ℕ × Slot)
announced_by (item_added i (new_message id)) = (i, message_slot) ∷ []
announced_by (item_added i (new_call call_id call)) = (i, call_slot call_id) ∷ []
announced_by created = []
announced_by (text_delta id i delta) = []
announced_by (args_delta id i delta) = []
announced_by (input_delta id i delta) = []
announced_by (input_done id i input) = []
announced_by (text_done id i text) = []
announced_by (content_part_done id i text) = []
announced_by (args_done id i name args) = []
announced_by (item_done i item) = []
announced_by (completed status usage output) = []

unfoldable pub announcements : List ClientEvent → List (ℕ × Slot)
announcements [] = []
announcements (responses_event e event ∷ events) = announced_by event ++ announcements events
announcements (verbatim block ∷ events) = announcements events
announcements (chat_event b chunk ∷ events) = announcements events

-- Every key is below the ones behind it.
unfoldable pub Ascending : List ℤ → Type 0
Ascending [] = Unit
Ascending (k ∷ ks) = All (λ j. leb_ℤ j k ≡ false) ks × Ascending ks

-- The part of a converter that says where items stand.
pub record Shape : Type 0 where
  pub taken : List Slot
  pub block_keys : List ℤ
  pub with_text : Bool
  pub next_position : ℕ
  pub message_position : Option ℕ

abbrev pub shape : Conversion → Shape
unfolding slots has_text keys
shape sc = record {
  taken = slots false sc.blocks;
  block_keys = keys sc.blocks;
  with_text = has_text sc.blocks;
  next_position = sc.out_count;
  message_position = sc.msg_idx;
}
