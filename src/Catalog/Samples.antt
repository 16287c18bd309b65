-- ===== src/Catalog/Samples.antt =====
-- Runs of internal/catalog/catalog.go, and the theorems at a concrete catalog.
use opencode_go_cliproxyapi.Prelude.{
  All, IsSubsequence, List, [], false, length, map, none, refl, some, true, ◌++◌, ◌+◌, ◌∷◌, ◌≡◌,
}
use opencode_go_cliproxyapi.Prelude.Text.{
  Text, codes, has_prefix, lower_byte, mem_text, text_eq, to_lower,
}
use opencode_go_cliproxyapi.Prelude.Dict.{insert, lookup}
use opencode_go_cliproxyapi.Prelude.Int.{pos}
use opencode_go_cliproxyapi.Config.{Config, public_id}
use opencode_go_cliproxyapi.Catalog.Route.{
  Library, chat_completions, protocol_enabled, resolve, resolve_family, route_of_prefix,
}
use opencode_go_cliproxyapi.Catalog.Entry.{ModelRecord, RawModel, UnsupportedModel}
use opencode_go_cliproxyapi.Catalog.Build.{
  Building, add_entries, add_entry, admit, build, duplicate_warning, final_endpoint, install,
  make_record, place,
}
use opencode_go_cliproxyapi.Catalog.Manager.{
  CatalogBody, Manager, entries, fail, http_status, install_body, new_manager, no_json, refresh,
  replied, swap,
}
use opencode_go_cliproxyapi.Catalog.Index.{IsConsistent, build-IsConsistent}
use opencode_go_cliproxyapi.Catalog.Records.{IsPublished, build-IsPublished, build-append}
use opencode_go_cliproxyapi.Catalog.Count.{build-accounts, repeated}
use opencode_go_cliproxyapi.Catalog.Refresh.{
  IsAfterFailure, IsServable, Reachable, Reachable-IsServable, created, refresh-again,
  refresh-failed, refreshed,
}

-- Every URL parses to the same one; nothing is escaped or quoted.
abbrev sample_library : Library
sample_library = record {
  parse_url = λ t. some (record {
    scheme = codes "https";
    host = codes "opencode.ai";
    raw_query = [];
    fragment = [];
    has_user = false;
  });
  path_escape = λ t. t;
  equal_fold = text_eq;
  quote = λ t. t;
}

abbrev sample_config : Config
sample_config = record {
  strip_hosted_web_search = true;
  base_url = codes "https://opencode.ai/v1";
  catalog_url = codes "https://opencode.ai/v1/models";
  console_url = [];
  model_prefix = record { enabled = true; value = codes "go" };
  api_keys = codes "sk-1" ∷ [];
  catalog = record { refresh_interval = pos 1; stale_while_unavailable = false };
  protocols = record { chat_completions = true; messages = false; responses = true; gemini = true };
  route_overrides = [];
  allow_http = false;
  request_timeout = pos 1;
  max_response_bytes = pos 1000;
}

abbrev entry : Text → RawModel
entry id = record {
  id = id;
  display_name = [];
  context_length = pos 1000;
  max_output_tokens = pos 100;
  input_modes = [];
  output_modes = [];
  input_modalities = [];
  output_modalities = [];
  thinking = none;
}

abbrev sample_entries : List RawModel
sample_entries =
    entry (codes "kimi-k2")
    ∷ entry (codes "claude-x")
    ∷ entry []
    ∷ entry (codes "kimi-k2")
    ∷ entry (codes "unknown")
    ∷ entry (codes "gemini-3")
    ∷ []

abbrev sample_build : Building
sample_build = build sample_library sample_config sample_entries []

published_ids :
    (map (λ (r : ModelRecord). r.public_id) sample_build.models
      ≡ codes "go/kimi-k2" ∷ codes "go/gemini-3" ∷ [])
    × (map (λ (r : ModelRecord). r.endpoint_path) sample_build.models
        ≡ codes "/v1/chat/completions" ∷ codes "/v1/models/gemini-3" ∷ [])
unfolding build add_entries add_entry resolve resolve_family route_of_prefix place admit install
    make_record final_endpoint protocol_enabled lookup insert has_prefix mem_text text_eq to_lower
    lower_byte public_id
published_ids = (refl, refl)

left_out :
    map (λ (u : UnsupportedModel). u.reason) sample_build.unsup
    ≡ codes "protocol messages disabled by config"
      ∷ codes "missing id"
      ∷ codes "no route determined"
      ∷ []
unfolding build add_entries add_entry resolve resolve_family route_of_prefix place admit install
    make_record final_endpoint protocol_enabled lookup insert has_prefix mem_text text_eq to_lower
    lower_byte public_id
left_out = refl

build-IsConsistent_example :
    IsConsistent
      (build sample_library sample_config sample_entries []).models
      (build sample_library sample_config sample_entries []).index
build-IsConsistent_example = build-IsConsistent sample_library sample_config sample_entries []

build-IsPublished_example :
    All
      (IsPublished sample_library sample_config)
      (build sample_library sample_config sample_entries []).models
build-IsPublished_example = build-IsPublished sample_library sample_config sample_entries []

build_accounts_example :
    let built = build sample_library sample_config sample_entries [] in
    (length built.models + length built.unsup + length (repeated [] sample_entries)
      ≡ length sample_entries)
    × IsSubsequence
        (map (duplicate_warning sample_library sample_config) (repeated [] sample_entries))
        built.warns
build_accounts_example = build-accounts sample_library sample_config sample_entries []

abbrev kimi : ModelRecord
kimi = make_record sample_library sample_config (entry (codes "kimi-k2")) chat_completions []

kimi_first :
    lookup
      (codes "go/kimi-k2")
      (build sample_library sample_config (entry (codes "kimi-k2") ∷ []) []).index
    ≡ some kimi
unfolding build add_entries add_entry resolve resolve_family route_of_prefix place admit install
    make_record final_endpoint protocol_enabled lookup insert has_prefix mem_text text_eq to_lower
    lower_byte public_id
kimi_first = refl

build_append_example :
    lookup
      (codes "go/kimi-k2")
      (build sample_library sample_config (entry (codes "kimi-k2") ∷ [] ++ sample_entries) []).index
    ≡ some kimi
build_append_example =
    build-append sample_library sample_config (codes "go/kimi-k2") kimi
      (entry (codes "kimi-k2") ∷ []) sample_entries [] kimi_first

-- A decoder that reads the empty body as no JSON and any other as the sample's entries.
abbrev decode : Text → CatalogBody
decode [] = no_json
decode (c ∷ s) = entries sample_entries

abbrev fresh : Manager
fresh = new_manager sample_config true

abbrev served : Manager
served = (refresh sample_library decode fresh (replied 200 (codes "{}"))).0

served-Reachable : Reachable sample_library decode served
served-Reachable = refreshed fresh (replied 200 (codes "{}")) (created sample_config true)

reachable_example : IsServable sample_library served
reachable_example = Reachable-IsServable sample_library decode served served-Reachable

gone : (refresh sample_library decode served (replied 503 [])).1 ≡ some (http_status 503)
unfolding refresh new_manager install_body swap fail
gone = refl

refresh_failed_example :
    IsAfterFailure served (refresh sample_library decode served (replied 503 [])).0
refresh_failed_example =
    refresh-failed sample_library decode served (replied 503 []) (http_status 503) gone

refresh_again_example :
    refresh sample_library decode
      (refresh sample_library decode fresh (replied 200 (codes "{}"))).0
      (replied 200 (codes "{}"))
    ≡ refresh sample_library decode fresh (replied 200 (codes "{}"))
refresh_again_example = refresh-again sample_library decode fresh (replied 200 (codes "{}"))
