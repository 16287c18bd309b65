-- ===== src/ResponseTools/Restore.antt =====
-- `RestoreCall` of internal/adapter/shared/responses_tools.go undoes what `add` did to a tool's name.
use opencode_go_cliproxyapi.Prelude.Outcome.{ok}
use opencode_go_cliproxyapi.Prelude.{
  All-Member, Bool, Bool-cases, List, Member, [], ap, arith, false, if_false, if◌then◌else◌, inl,
  inr, is_empty, length, length-append, ltb, not, refl, some, suc, sym, take, true, zero, ℕ, ◌++◌,
  ◌||◌, ◌∙◌, ◌∷◌, ◌≡◌, ◌≤◌,
}
use opencode_go_cliproxyapi.Prelude.Text.{Text, codes, text_eq, text_eq_refl}
use opencode_go_cliproxyapi.Prelude.Dict.{Dict, lookup}
use opencode_go_cliproxyapi.ResponseTools.{
  CallItem, Codec, Registry, RespTool, Target, ToolDecl, ToolIdentity, add_tools, as_custom_call,
  identity_of, is_custom, no_tools, qualified_name, rename_call, restore_call,
}
use opencode_go_cliproxyapi.ResponseTools.Names.{Recorded, declared, identity_in}
use opencode_go_cliproxyapi.ResponseTools.Declarations.{add_tools-ok}

some_injective : {i j : ToolIdentity} → some i ≡ some j → i ≡ j
some_injective e = cc

length-take_le : {A : Type 0} (n : ℕ) (xs : List A) → length (take n xs) ≤ n
length-take_le zero xs = omega arith
length-take_le (suc n) [] = omega arith
length-take_le (suc n) (x ∷ xs) = omega (arith, length-take_le n xs)

module _ (codec : Codec) (target : Target) where
  recorded :
      (tools : List RespTool) (r : Registry)
      → add_tools codec target tools no_tools ≡ ok r
      → (namespace : Text) (d : ToolDecl) → Member (namespace, d) (declared tools)
      → Recorded codec r (namespace, d)
  recorded tools r h namespace d m =
      All-Member (Recorded codec r) (declared tools) (namespace, d)
        (add_tools-ok codec target tools no_tools r h).1 m

  identity_found :
      (names : Dict ToolIdentity) (wire : Text) (i : ToolIdentity)
      → lookup wire names ≡ some i
      → identity_of names wire ≡ i
  unfolding identity_of
  identity_found names wire i h = rw (h, identity_of) refl

  is_call : not (text_eq (codes "function_call") (codes "function_call")) ≡ false
  is_call = ap not (text_eq_refl (codes "function_call"))

  restored :
      (names : Dict ToolIdentity) (item : CallItem) (i : ToolIdentity)
      → item.kind ≡ codes "function_call"
      → lookup item.name names ≡ some i
      → restore_call codec names item ≡ (
        if i.custom then as_custom_call codec (rename_call i item) else rename_call i item,
        (i.custom, i.custom || not (text_eq i.name item.name)),
      )
  unfolding restore_call identity_of
  restored names item i k h =
      if_false _ _ _ (ap (λ (t : Text). not (text_eq t (codes "function_call"))) k ∙ is_call)
      ∙ ap
          (λ (j : ToolIdentity). (
            if j.custom then as_custom_call codec (rename_call j item) else rename_call j item,
            (j.custom, j.custom || not (text_eq j.name item.name)),
          ))
          (identity_found names item.name i h)

  custom_parts :
      (custom : Bool) (i : ToolIdentity) (item : CallItem)
      → item.kind ≡ codes "function_call"
      → let after =
          if custom then as_custom_call codec (rename_call i item) else rename_call i item in
        (after.name ≡ i.name)
        × (after.namespace ≡ (if is_empty i.namespace then item.namespace else some i.namespace))
        × (after.kind ≡ (if custom then codes "custom_tool_call" else codes "function_call"))
  custom_parts true i item k = (refl, refl, refl)
  custom_parts false i item k = (refl, refl, k)

  -- When the declarations of a request are accepted, a call to the flattened name of any of them is
  -- restored: to the declared name, in the declared namespace, and to a custom call exactly for a
  -- custom tool.
  pub restore_call-declared :
      (tools : List RespTool) (r : Registry)
      → add_tools codec target tools no_tools ≡ ok r
      → (namespace : Text) (d : ToolDecl) → Member (namespace, d) (declared tools)
      → (item : CallItem) → item.kind ≡ codes "function_call"
      → item.name ≡ qualified_name codec d.name namespace
      → ((restore_call codec r.names item).0.name ≡ d.name)
        × ((restore_call codec r.names item).0.namespace
            ≡ (if is_empty namespace then item.namespace else some namespace))
        × ((restore_call codec r.names item).0.kind
            ≡ (if is_custom d then codes "custom_tool_call" else codes "function_call"))
        × ((restore_call codec r.names item).1.0 ≡ is_custom d)
  restore_call-declared tools r h namespace d m item k wire =
      let hit : lookup item.name r.names ≡ some (identity_in namespace d) =
        ap (λ (t : Text). lookup t r.names) wire ∙ recorded tools r h namespace d m in
      rw (restored r.names item (identity_in namespace d) k hit) (
        let (named, placed, kind) = custom_parts (is_custom d) (identity_in namespace d) item k in
        (named, placed, kind, refl))

  -- No two declarations that are accepted share a name on the wire, unless they agree in name,
  -- namespace and kind of call.
  pub declared_apart :
      (tools : List RespTool) (r : Registry)
      → add_tools codec target tools no_tools ≡ ok r
      → (a b : Text) (d e : ToolDecl) → Member (a, d) (declared tools)
      → Member (b, e) (declared tools)
      → qualified_name codec d.name a ≡ qualified_name codec e.name b
      → (d.name ≡ e.name) × (a ≡ b) × (is_custom d ≡ is_custom e)
  declared_apart tools r h a b d e m n same =
      let one = recorded tools r h a d m in
      let two = recorded tools r h b e n in
      let eq : identity_in a d ≡ identity_in b e =
        some_injective (sym one ∙ ap (λ (t : Text). lookup t r.names) same ∙ two) in
      (
        ap (λ (i : ToolIdentity). i.name) eq,
        ap (λ (i : ToolIdentity). i.namespace) eq,
        ap (λ (i : ToolIdentity). i.custom) eq,
      )

-- A tool of a namespace has a name of at most 64 bytes on the wire, where the digest has 12 digits.
pub qualified_name-le :
    (codec : Codec)
    → ((t : Text) → length (codec.digest t) ≡ 12)
    → (name namespace : Text) → is_empty namespace ≡ false
    → length (qualified_name codec name namespace) ≤ 64
unfolding qualified_name
qualified_name-le codec digits name namespace h =
    let qualified = namespace ++ (codes "__" ++ name) in
    elim (Bool-cases (ltb 64 (length qualified))) [
      | inl long ↦
          rw (h, long)
            (omega (
              arith,
              length-append (take 50 qualified) (codes "__" ++ codec.digest qualified),
              length-append (codes "__") (codec.digest qualified),
              digits qualified,
              length-take_le 50 qualified,
            ))
      | inr short ↦ rw (h, short) (ground (arith, short))
    ]
