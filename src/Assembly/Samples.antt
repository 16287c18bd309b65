-- ===== src/Assembly/Samples.antt =====
-- Runs of `OutputAssembler`, and the theorems at a concrete answer.
use opencode_go_cliproxyapi.Prelude.{List, [], map, refl, some, take, true, ◌∷◌, ◌≡◌}
use opencode_go_cliproxyapi.Prelude.Text.{Text, codes, text_eq}
use opencode_go_cliproxyapi.Prelude.Dict.{Dict, lookup}
use opencode_go_cliproxyapi.Prelude.Json.{Json}
use opencode_go_cliproxyapi.ResponseTools.{Codec, ToolIdentity, identity_of}
use opencode_go_cliproxyapi.Assembly.{RespItem, call_item, message_item, new_assembler, render}
use opencode_go_cliproxyapi.Assembly.Refinement.{
  AssemblerCall, all_calls, all_text, early_calls, expected_output, function_call, late_calls,
  more_text, perform, render-perform, reserve, reserves,
}

abbrev plain_codec : Codec
plain_codec = record { digest = λ t. take 12 t; input_of = λ t. some t; quote = λ t. t }

abbrev plain_json : Json → Text
plain_json j = codes "json"

abbrev custom_patch : Dict ToolIdentity
custom_patch = (codes "patch", record { name = codes "patch"; namespace = []; custom = true }) ∷ []

-- A call, a text that reserves its place behind it, a call of a custom tool, and more text.
abbrev mixed_calls : List AssemblerCall
mixed_calls =
    function_call (codes "c1") (codes "look") (codes "{}")
    ∷ reserve
    ∷ more_text (codes "a")
    ∷ function_call (codes "c2") (codes "patch") (codes "diff")
    ∷ more_text (codes "b")
    ∷ []

mixed_output :
    map
      (λ (item : RespItem). item.kind)
      (expected_output plain_codec custom_patch plain_json (codes "m") mixed_calls)
    ≡ codes "function_call" ∷ codes "message" ∷ codes "custom_tool_call" ∷ []
unfolding expected_output early_calls late_calls all_calls call_item identity_of lookup text_eq
    reserves message_item all_text
mixed_output = refl

render-perform_example :
    render plain_json (perform plain_codec custom_patch mixed_calls (new_assembler (codes "m")))
    ≡ map some (expected_output plain_codec custom_patch plain_json (codes "m") mixed_calls)
render-perform_example = render-perform plain_codec custom_patch plain_json (codes "m") mixed_calls
