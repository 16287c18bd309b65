-- ===== src/Assembly.antt =====
-- `OutputAssembler` of internal/adapter/shared/shared.go, which collects the output items of a Responses
-- answer, with the output items that it renders. `json.Marshal` and the tool context are parameters.
pub mod Refinement
mod Samples
use opencode_go_cliproxyapi.Prelude.{
  List, Option, [], if◌then◌else◌, is_empty, length, none, not, some, suc, zero, ℕ, ◌++◌, ◌∷◌,
}
use opencode_go_cliproxyapi.Prelude.Text.{Text, codes}
use opencode_go_cliproxyapi.Prelude.Dict.{Dict}
use opencode_go_cliproxyapi.Prelude.Json.{Json, array, elements, member, no_member, object, string}
use opencode_go_cliproxyapi.ResponseTools.{Codec, ToolIdentity, identity_of, unwrap_input}

-- `RespItem`, with the fields that an output item can have.
pub record RespItem : Type 0 where
  pub kind : Text
  pub id : Text
  pub role : Text
  pub content : Text
  pub call_id : Text
  pub name : Text
  pub arguments : Text
  pub input : Option Text
  pub namespace : Text

-- `item` stands for the zero value of the struct.
abbrev pub empty_item : RespItem
empty_item = record {
  kind = [];
  id = [];
  role = [];
  content = [];
  call_id = [];
  name = [];
  arguments = [];
  input = none;
  namespace = [];
}

-- `OutputAssembler`: an item that is not there yet is the nil of a reserved slot, and `text_slot` none is -1.
pub record Assembler : Type 0 where
  pub message_id : Text
  pub items : List (Option RespItem)
  pub text_slot : Option ℕ
  pub text : Text

unfoldable pub new_assembler : Text → Assembler
new_assembler message_id = record {
  message_id = message_id;
  items = [];
  text_slot = none;
  text = [];
}

-- `ReserveTextSlot`.
unfoldable pub reserve_text_slot : Assembler → Assembler
reserve_text_slot a = elim a.text_slot [
  | some slot ↦ a
  | none ↦ record a { text_slot = some (length a.items); items = a.items ++ none ∷ [] }
]

-- `AddText`.
unfoldable pub add_text : Text → Assembler → Assembler
add_text fragment a = record a { text = a.text ++ fragment }

-- `a.items[slot] = item`; a slot is always in range.
abbrev pub set_at {ℓ} : {A : Type ℓ} → ℕ → A → List A → List A
set_at n x [] = []
set_at zero x (y ∷ ys) = x ∷ ys
set_at (suc n) x (y ∷ ys) = y ∷ set_at n x ys

module _ (codec : Codec) (names : Dict ToolIdentity) where
  -- The item that `AppendFunctionCall` appends.
  unfoldable pub call_item : Text → Text → Text → RespItem
  unfolding identity_of
  call_item call_id name args =
      let identity = identity_of names name in
      if identity.custom
      then record empty_item {
        kind = codes "custom_tool_call";
        call_id = call_id;
        name = identity.name;
        namespace = identity.namespace;
        input = some (unwrap_input codec args);
      }
      else record empty_item {
        kind = codes "function_call";
        call_id = call_id;
        name = identity.name;
        namespace = identity.namespace;
        arguments = args;
      }

  -- `AppendFunctionCall`.
  unfoldable pub append_function_call : Text → Text → Text → Assembler → Assembler
  unfolding call_item
  append_function_call call_id name args a = record a {
    items = a.items ++ some (call_item call_id name args) ∷ [];
  }

module _ (marshal : Json → Text) where
  -- The message item, with its one `outputTextPart`.
  unfoldable pub message_item : Text → Text → RespItem
  message_item message_id text = record empty_item {
    kind = codes "message";
    id = message_id;
    role = codes "assistant";
    content = marshal (
        array (
          elements (
            object (
              member (codes "type") (string (codes "output_text"))
                (member (codes "text") (string text) no_member))
            ∷ [])));
  }

  -- `Render`.
  unfoldable pub render : Assembler → List (Option RespItem)
  unfolding message_item
  render a = elim a.text_slot [
    | some slot ↦ set_at slot (some (message_item a.message_id a.text)) a.items
    | none ↦
        if not (is_empty a.text) then some (message_item a.message_id a.text) ∷ a.items else a.items
  ]
