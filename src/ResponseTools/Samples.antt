-- ===== src/ResponseTools/Samples.antt =====
-- Runs of internal/adapter/shared/responses_tools.go, and the theorems at concrete declarations.
use opencode_go_cliproxyapi.Prelude.Outcome.{ok}
use opencode_go_cliproxyapi.Prelude.{
  List, [], false, inl, inr, length, none, refl, some, true, ◌∷◌, ◌≡◌, ◌≤◌,
}
use opencode_go_cliproxyapi.Prelude.Text.{Text, codes, text_eq, trim_space}
use opencode_go_cliproxyapi.Prelude.Dict.{insert, lookup}
use opencode_go_cliproxyapi.ResponseTools.{
  CallItem, Codec, Registry, RespTool, Target, ToolDecl, add_child, add_children, add_function,
  add_namespace, add_tool, add_tools, custom_tool_parameters, function_tool, identity_eq, is_custom,
  is_optional_hosted_tool, no_tools, qualified_name, register, restore_call,
}
use opencode_go_cliproxyapi.ResponseTools.Names.{identity_in}
use opencode_go_cliproxyapi.ResponseTools.Restore.{
  declared_apart, qualified_name-le, restore_call-declared,
}

abbrev sample_codec : Codec
sample_codec = record { digest = λ t. codes "0123456789ab"; input_of = λ t. none; quote = λ t. t }

abbrev chat : Target
chat = record { strip = true; native = false; label = codes "/v1/chat/completions" }

abbrev tool_of : Text → Text → ToolDecl
tool_of kind name = record { kind = kind; name = name; description = []; parameters = [] }

abbrev read_tool : ToolDecl
read_tool = tool_of (codes "function") (codes "read")

abbrev patch_tool : ToolDecl
patch_tool = tool_of (codes "custom") (codes "patch")

-- A hosted tool, a function, and a namespace of two tools.
abbrev sample_tools : List RespTool
sample_tools =
    record { decl = tool_of (codes "web_search") []; tools = none }
    ∷ record { decl = read_tool; tools = none }
    ∷ record {
      decl = tool_of (codes "namespace") (codes "fs");
      tools = some (read_tool ∷ patch_tool ∷ []);
    }
    ∷ []

abbrev sample_registry : Registry
sample_registry = record {
  names =
      (codes "read", identity_in [] read_tool)
      ∷ (codes "fs__read", identity_in (codes "fs") read_tool)
      ∷ (codes "fs__patch", identity_in (codes "fs") patch_tool)
      ∷ [];
  tools =
      read_tool
      ∷ tool_of (codes "function") (codes "fs__read")
      ∷ record (tool_of (codes "function") (codes "fs__patch")) {
        parameters = custom_tool_parameters;
      }
      ∷ [];
  stripped_search = true;
}

accepted : add_tools sample_codec chat sample_tools no_tools ≡ ok sample_registry
unfolding add_tools add_tool add_namespace add_children add_child add_function function_tool
    register qualified_name identity_eq is_optional_hosted_tool lookup insert text_eq trim_space
accepted = refl

abbrev patch_call : CallItem
patch_call = record {
  kind = codes "function_call";
  name = codes "fs__patch";
  namespace = none;
  arguments = some (codes "{}");
  input = none;
}

patch_wire : codes "fs__patch" ≡ qualified_name sample_codec (codes "patch") (codes "fs")
unfolding qualified_name
patch_wire = refl

restore_call-declared_example :
    ((restore_call sample_codec sample_registry.names patch_call).0.name ≡ codes "patch")
    × ((restore_call sample_codec sample_registry.names patch_call).0.namespace ≡ some (codes "fs"))
    × ((restore_call sample_codec sample_registry.names patch_call).0.kind
        ≡ codes "custom_tool_call")
    × ((restore_call sample_codec sample_registry.names patch_call).1.0 ≡ true)
unfolding text_eq
restore_call-declared_example =
    restore_call-declared sample_codec chat sample_tools sample_registry accepted (codes "fs")
      patch_tool (inr (inr (inl refl))) patch_call refl patch_wire

declared_apart_example :
    (codes "read" ≡ codes "read")
    × (codes "fs" ≡ codes "fs")
    × (is_custom read_tool ≡ is_custom read_tool)
unfolding text_eq
declared_apart_example =
    declared_apart sample_codec chat sample_tools sample_registry accepted (codes "fs") (codes "fs")
      read_tool read_tool (inr (inl refl)) (inr (inl refl)) refl

qualified_name-le_example : length (qualified_name sample_codec (codes "read") (codes "fs")) ≤ 64
qualified_name-le_example =
    qualified_name-le sample_codec (λ t. refl) (codes "read") (codes "fs") refl
