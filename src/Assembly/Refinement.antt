-- ===== src/Assembly/Refinement.antt =====
-- What the calls of an `OutputAssembler` come to: a description of the output that does not keep a state,
-- and that `Render` implements it.
use opencode_go_cliproxyapi.Prelude.{
  Bool, Bool-cases, List, [], ap, append-nil, append_assoc, false, if◌then◌else◌, inl, inr,
  is_empty, length, map, none, refl, some, sym, true, ◌++◌, ◌∙◌, ◌∷◌, ◌≡◌,
}
use opencode_go_cliproxyapi.Prelude.Text.{Text}
use opencode_go_cliproxyapi.Prelude.Dict.{Dict}
use opencode_go_cliproxyapi.Prelude.Json.{Json}
use opencode_go_cliproxyapi.ResponseTools.{Codec, ToolIdentity}
use opencode_go_cliproxyapi.Assembly.{
  Assembler, RespItem, add_text, append_function_call, call_item, message_item, new_assembler,
  render, reserve_text_slot, set_at,
}

-- A call of a method before `Render`.
pub data AssemblerCall : Type 0 where
  reserve : AssemblerCall
  more_text : (fragment : Text) → AssemblerCall
  function_call : (call_id name args : Text) → AssemblerCall

-- All the text, in order.
unfoldable pub all_text : List AssemblerCall → Text
all_text [] = []
all_text (more_text fragment ∷ calls) = fragment ++ all_text calls
all_text (reserve ∷ calls) = all_text calls
all_text (function_call call_id name args ∷ calls) = all_text calls

-- Whether a slot is ever reserved.
unfoldable pub reserves : List AssemblerCall → Bool
reserves [] = false
reserves (reserve ∷ calls) = true
reserves (more_text fragment ∷ calls) = reserves calls
reserves (function_call call_id name args ∷ calls) = reserves calls

map_append {ℓ κ} :
    {A : Type ℓ} {B : Type κ} (f : A → B) (xs ys : List A) → map f (xs ++ ys) ≡ map f xs ++ map f ys
map_append f [] ys = refl
map_append f (x ∷ xs) ys = ap (λ zs. f x ∷ zs) (map_append f xs ys)

set_at-length {ℓ} :
    {A : Type ℓ} (xs ys : List A) (x y : A) → set_at (length xs) x (xs ++ y ∷ ys) ≡ xs ++ x ∷ ys
set_at-length [] ys x y = refl
set_at-length (z ∷ xs) ys x y = ap (λ zs. z ∷ zs) (set_at-length xs ys x y)

module _ (codec : Codec) (names : Dict ToolIdentity) where
  -- All the function calls, in order; those before the first reservation, and those behind it.
  unfoldable pub all_calls : List AssemblerCall → List RespItem
  all_calls [] = []
  all_calls (reserve ∷ calls) = all_calls calls
  all_calls (more_text fragment ∷ calls) = all_calls calls
  all_calls (function_call call_id name args ∷ calls) =
      call_item codec names call_id name args ∷ all_calls calls

  unfoldable pub early_calls : List AssemblerCall → List RespItem
  early_calls [] = []
  early_calls (reserve ∷ calls) = []
  early_calls (more_text fragment ∷ calls) = early_calls calls
  early_calls (function_call call_id name args ∷ calls) =
      call_item codec names call_id name args ∷ early_calls calls

  unfoldable pub late_calls : List AssemblerCall → List RespItem
  unfolding all_calls
  late_calls [] = []
  late_calls (reserve ∷ calls) = all_calls calls
  late_calls (more_text fragment ∷ calls) = late_calls calls
  late_calls (function_call call_id name args ∷ calls) = late_calls calls

  -- The methods in sequence.
  unfoldable pub perform : List AssemblerCall → Assembler → Assembler
  unfolding reserve_text_slot add_text append_function_call
  perform [] a = a
  perform (reserve ∷ calls) a = perform calls (reserve_text_slot a)
  perform (more_text fragment ∷ calls) a = perform calls (add_text fragment a)
  perform (function_call call_id name args ∷ calls) a =
      perform calls (append_function_call codec names call_id name args a)

  -- The output: one message that holds all the text, at the place of the first reservation or in front,
  -- and every call.
  unfoldable pub expected_output : (Json → Text) → Text → List AssemblerCall → List RespItem
  unfolding early_calls late_calls all_calls all_text reserves
  expected_output marshal id calls =
      let message = message_item marshal id (all_text calls) in
      if reserves calls
      then early_calls calls ++ message ∷ late_calls calls
      else if is_empty (all_text calls)
      then all_calls calls
      else message ∷ all_calls calls

  abbrev pub reserved_at : Text → List RespItem → List RespItem → Text → Assembler
  reserved_at id xs ys t = record {
    message_id = id;
    items = map some xs ++ none ∷ map some ys;
    text_slot = some (length (map some xs));
    text = t;
  }

  abbrev pub unreserved : Text → List RespItem → Text → Assembler
  unreserved id xs t = record { message_id = id; items = map some xs; text_slot = none; text = t }

  append_call :
      (xs ys : List RespItem) (x : RespItem)
      → (map some xs ++ none ∷ map some ys) ++ some x ∷ []
        ≡ map some xs ++ none ∷ map some (ys ++ x ∷ [])
  append_call xs ys x = rw (append_assoc, map_append some ys (x ∷ [])) refl

  perform-reserved :
      (calls : List AssemblerCall) (id : Text) (xs ys : List RespItem) (t : Text)
      → perform calls (reserved_at id xs ys t)
        ≡ reserved_at id xs (ys ++ all_calls calls) (t ++ all_text calls)
  unfolding perform all_calls all_text reserve_text_slot add_text append_function_call
  perform-reserved [] id xs ys t = rw (append-nil ys, append-nil t) refl
  perform-reserved (reserve ∷ calls) id xs ys t = perform-reserved calls id xs ys t
  perform-reserved (more_text fragment ∷ calls) id xs ys t =
      perform-reserved calls id xs ys (t ++ fragment) ∙ rw (append_assoc t fragment) refl
  perform-reserved (function_call call_id name args ∷ calls) id xs ys t =
      let x = call_item codec names call_id name args in
      ap (λ items. perform calls (record (reserved_at id xs ys t) { items = items }))
        (append_call xs ys x)
      ∙ perform-reserved calls id xs (ys ++ x ∷ []) t
      ∙ rw (append_assoc ys (x ∷ [])) refl

  -- Where no slot is reserved, and where the first reservation is among the calls.
  perform-unreserved :
      (calls : List AssemblerCall) (id : Text) (xs : List RespItem) (t : Text)
      → reserves calls ≡ false
      → perform calls (unreserved id xs t)
        ≡ unreserved id (xs ++ all_calls calls) (t ++ all_text calls)
  unfolding perform all_calls all_text reserves reserve_text_slot add_text append_function_call
  perform-unreserved [] id xs t h = rw (append-nil xs, append-nil t) refl
  perform-unreserved (reserve ∷ calls) id xs t h = cc
  perform-unreserved (more_text fragment ∷ calls) id xs t h =
      perform-unreserved calls id xs (t ++ fragment) h ∙ rw (append_assoc t fragment) refl
  perform-unreserved (function_call call_id name args ∷ calls) id xs t h =
      let x = call_item codec names call_id name args in
      ap (λ items. perform calls (record (unreserved id xs t) { items = items }))
        (sym (map_append some xs (x ∷ [])))
      ∙ perform-unreserved calls id (xs ++ x ∷ []) t h
      ∙ rw (append_assoc xs (x ∷ [])) refl

  perform-reserves :
      (calls : List AssemblerCall) (id : Text) (xs : List RespItem) (t : Text)
      → reserves calls ≡ true
      → perform calls (unreserved id xs t)
        ≡ reserved_at id (xs ++ early_calls calls) (late_calls calls) (t ++ all_text calls)
  unfolding perform all_calls early_calls late_calls all_text reserves reserve_text_slot add_text
      append_function_call
  perform-reserves [] id xs t h = cc
  perform-reserves (reserve ∷ calls) id xs t h =
      perform-reserved calls id xs [] t ∙ rw (append-nil) refl
  perform-reserves (more_text fragment ∷ calls) id xs t h =
      perform-reserves calls id xs (t ++ fragment) h ∙ rw (append_assoc t fragment) refl
  perform-reserves (function_call call_id name args ∷ calls) id xs t h =
      let x = call_item codec names call_id name args in
      ap (λ items. perform calls (record (unreserved id xs t) { items = items }))
        (sym (map_append some xs (x ∷ [])))
      ∙ perform-reserves calls id (xs ++ x ∷ []) t h
      ∙ rw (append_assoc xs (x ∷ [])) refl

  render-reserved :
      (marshal : Json → Text) (id : Text) (xs ys : List RespItem) (t : Text)
      → render marshal (reserved_at id xs ys t) ≡ map some (xs ++ message_item marshal id t ∷ ys)
  unfolding render
  render-reserved marshal id xs ys t =
      set_at-length (map some xs) (map some ys) (some (message_item marshal id t)) none
      ∙ sym (map_append some xs (message_item marshal id t ∷ ys))

  render-unreserved :
      (marshal : Json → Text) (id : Text) (xs : List RespItem) (t : Text)
      → render marshal (unreserved id xs t)
        ≡ map some (if is_empty t then xs else message_item marshal id t ∷ xs)
  unfolding render
  render-unreserved marshal id xs [] = refl
  render-unreserved marshal id xs (c ∷ t) = refl

  -- After any sequence of calls on a new assembler, `Render` gives every function call in the order of
  -- arrival, none of them missing or nil, and at most one message, which holds all the text in order: at
  -- the place of the first reservation if there was one, even without text, and otherwise in front, if
  -- there is text.
  pub render-perform :
      (marshal : Json → Text) (id : Text) (calls : List AssemblerCall)
      → render marshal (perform calls (new_assembler id))
        ≡ map some (expected_output marshal id calls)
  unfolding render expected_output new_assembler
  render-perform marshal id calls = elim (Bool-cases (reserves calls)) [
    | inl h ↦
        ap (render marshal) (perform-reserves calls id [] [] h)
        ∙ render-reserved marshal id (early_calls calls) (late_calls calls) (all_text calls)
        ∙ rw h refl
    | inr h ↦
        ap (render marshal) (perform-unreserved calls id [] [] h)
        ∙ render-unreserved marshal id (all_calls calls) (all_text calls)
        ∙ rw h refl
  ]
