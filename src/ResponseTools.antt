-- ===== src/ResponseTools.antt =====
-- internal/adapter/shared/responses_tools.go: the tool declarations, the history and the calls of a
-- Responses conversation that is translated to a protocol with flat function names.
--
-- Of `Normalize`, the function `add` and the loop over the declarations are modelled; the loops over the
-- history and the checks of `tool_choice` are not. The hash and the JSON decoder are parameters.
pub mod Names
pub mod Declarations
pub mod Restore
mod Samples
use opencode_go_cliproxyapi.Prelude.Outcome.{Outcome, err, fail_if, ok, ◌>>=◌, ◌>>◌}
use opencode_go_cliproxyapi.Prelude.{
  Bool, List, Option, [], false, if◌then◌else◌, is_empty, length, ltb, none, not, or_default, some,
  take, true, ◌&&◌, ◌++◌, ◌||◌, ◌∷◌,
}
use opencode_go_cliproxyapi.Prelude.Text.{Text, codes, text_eq, trim_space}
use opencode_go_cliproxyapi.Prelude.Dict.{Dict, insert, lookup}
use opencode_go_cliproxyapi.ErrorClass.{ClassifiedError, translation_error, unsupported}

-- What the code takes from the standard library: the first 12 hexadecimal digits of a hash, the text of an
-- object `{"input": …}`, if a text is one, and the verb %q.
pub record Codec : Type 0 where
  pub digest : Text → Text
  pub input_of : Text → Option Text
  pub quote : Text → Text

-- `RespTool` without and with the declarations of a namespace, which is one level deep.
pub record ToolDecl : Type 0 where
  pub kind : Text
  pub name : Text
  pub description : Text
  pub parameters : Text

pub record RespTool : Type 0 where
  pub decl : ToolDecl
  pub tools : Option (List ToolDecl)

-- `responseToolIdentity`.
pub record ToolIdentity : Type 0 where
  pub name : Text
  pub namespace : Text
  pub custom : Bool

-- The variables of `Normalize`, with the map of the context.
pub record Registry : Type 0 where
  pub names : Dict ToolIdentity
  pub tools : List ToolDecl
  pub stripped_search : Bool

-- The arguments and options that the loops read: whether hosted tools are stripped, whether the target
-- is the native endpoint, and its label.
pub record Target : Type 0 where
  pub strip : Bool
  pub native : Bool
  pub label : Text

abbrev pub Translated : Type 0 → Type 0
Translated = Outcome ClassifiedError

abbrev pub custom_tool_parameters : Text
custom_tool_parameters =
    codes
      "{\"type\":\"object\",\"properties\":{\"input\":{\"type\":\"string\",\"description\":\"Raw freeform input for this tool.\"}},\"required\":[\"input\"]}"

unfoldable pub is_optional_hosted_tool : Text → Bool
is_optional_hosted_tool kind =
    text_eq kind (codes "web_search")
    || (text_eq kind (codes "web_search_preview")
        || (text_eq kind (codes "tool_search") || text_eq kind (codes "image_generation")))

-- `FunctionTool`.
unfoldable pub function_tool : (Text → Text) → Text → Text → Translated (Unit {0})
function_tool quote kind label = fail_if (not (text_eq kind (codes "function"))) (record {
  class = unsupported;
  message =
      codes "unsupported tool type "
      ++ (quote kind ++ (codes "; only function tools translate to " ++ label));
  status_code = 0;
  retryable = false;
})

unfoldable pub identity_eq : ToolIdentity → ToolIdentity → Bool
identity_eq a b =
    text_eq a.name b.name
    && (text_eq a.namespace b.namespace && (if a.custom then b.custom else not b.custom))

abbrev pub is_custom : ToolDecl → Bool
is_custom tool = text_eq tool.kind (codes "custom")

-- A custom tool becomes a function.
abbrev pub as_function : ToolDecl → ToolDecl
as_function tool =
    if is_custom tool
    then record tool { kind = codes "function"; parameters = custom_tool_parameters }
    else tool

-- The tools that a native endpoint gets as they are; two hosted ones are left out.
unfoldable pub pass_native : ToolDecl → Registry → Registry
pass_native tool r =
    if text_eq tool.kind (codes "tool_search") || text_eq tool.kind (codes "image_generation")
    then r
    else record r { tools = r.tools ++ tool ∷ [] }

module _ (codec : Codec) where
  -- `QualifiedResponseToolName`.
  unfoldable pub qualified_name : Text → Text → Text
  qualified_name name namespace =
      if is_empty namespace
      then name
      else let qualified = namespace ++ (codes "__" ++ name) in
        if ltb 64 (length qualified)
        then take 50 qualified ++ (codes "__" ++ codec.digest qualified)
        else qualified

  -- The end of `add`: the identity is recorded under its name on the wire.
  unfoldable pub register : ToolIdentity → ToolDecl → Registry → Translated Registry
  register identity tool r =
      let wire = qualified_name identity.name identity.namespace in
      elim (lookup wire r.names) [
        | some prev ↦
            if not (identity_eq prev identity)
            then err (
                translation_error (codes "Responses tool names collide after namespace conversion"))
            else ok r
        | none ↦ ok (record r {
          names = insert wire identity r.names;
          tools = r.tools ++ record tool { name = wire } ∷ [];
        })
      ]

  -- `add` behind the tests for a namespace and for a native tool.
  unfoldable pub add_function : Target → Text → Bool → ToolDecl → Registry → Translated Registry
  unfolding function_tool
  add_function target namespace custom tool r = do
    function_tool codec.quote tool.kind target.label
    fail_if (is_empty (trim_space tool.name))
        (translation_error (codes "function tool requires a name"))
    register (record { name = tool.name; namespace = namespace; custom = custom }) tool r

  -- `add` inside a namespace.
  unfoldable pub add_child : Target → Text → ToolDecl → Registry → Translated Registry
  add_child target namespace tool r =
      add_function target namespace (is_custom tool) (as_function tool) r

  unfoldable pub add_children : Target → Text → List ToolDecl → Registry → Translated Registry
  add_children target namespace [] r = ok r
  add_children target namespace (tool ∷ rest) r =
      add_child target namespace tool r >>= λ r'. add_children target namespace rest r'

  -- A namespace needs a name and a list of tools.
  unfoldable pub add_namespace :
      Target → Text → Option (List ToolDecl) → Registry → Translated Registry
  add_namespace target name none r =
      err (translation_error (codes "namespace tool requires a name and tools array"))
  add_namespace target name (some tools) r =
      if is_empty (trim_space name)
      then err (translation_error (codes "namespace tool requires a name and tools array"))
      else add_children target name tools r

  -- `add` for a declaration outside every namespace.
  unfoldable pub add_tool : Target → RespTool → Registry → Translated Registry
  add_tool target tool r =
      if target.strip && is_optional_hosted_tool tool.decl.kind
      then ok (record r { stripped_search = true })
      else if text_eq tool.decl.kind (codes "namespace")
      then add_namespace target tool.decl.name tool.tools r
      else if target.native && not (text_eq (as_function tool.decl).kind (codes "function"))
      then ok (pass_native tool.decl r)
      else add_function target [] (is_custom tool.decl) (as_function tool.decl) r

  unfoldable pub add_tools : Target → List RespTool → Registry → Translated Registry
  add_tools target [] r = ok r
  add_tools target (tool ∷ rest) r = add_tool target tool r >>= λ r'. add_tools target rest r'

abbrev pub no_tools : Registry
no_tools = record { names = []; tools = []; stripped_search = false }

-- `identity`, for the map of a context.
unfoldable pub identity_of : Dict ToolIdentity → Text → ToolIdentity
identity_of names wire = elim (lookup wire names) [
  | some identity ↦ identity
  | none ↦ record { name = wire; namespace = []; custom = false }
]

-- A function call of the model's answer, as far as `RestoreCall` reads and writes it.
pub record CallItem : Type 0 where
  pub kind : Text
  pub name : Text
  pub namespace : Option Text
  pub arguments : Option Text
  pub input : Option Text

-- `UnwrapCustomToolInput`.
abbrev pub unwrap_input : Codec → Text → Text
unwrap_input codec args = or_default (codec.input_of args) args

abbrev pub rename_call : ToolIdentity → CallItem → CallItem
rename_call identity item = record item {
  name = identity.name;
  namespace = if is_empty identity.namespace then item.namespace else some identity.namespace;
}

abbrev pub as_custom_call : Codec → CallItem → CallItem
as_custom_call codec item = record item {
  kind = codes "custom_tool_call";
  input = some (unwrap_input codec (or_default item.arguments []));
  arguments = none;
}

-- `RestoreCall`: the item, and its results `custom` and `changed`.
unfoldable pub restore_call : Codec → Dict ToolIdentity → CallItem → CallItem × (Bool × Bool)
unfolding identity_of
restore_call codec names item =
    if not (text_eq item.kind (codes "function_call"))
    then (item, (false, false))
    else let identity = identity_of names item.name in
      let renamed = rename_call identity item in
      (
        if identity.custom then as_custom_call codec renamed else renamed,
        (identity.custom, identity.custom || not (text_eq identity.name item.name)),
      )
