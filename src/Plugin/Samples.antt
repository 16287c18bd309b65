-- ===== src/Plugin/Samples.antt =====
-- Runs of internal/plugin/plugin.go, and the theorems at a concrete plugin.
use opencode_go_cliproxyapi.Prelude.Outcome.{ok}
use opencode_go_cliproxyapi.Prelude.{
  Bool, List, [], false, length, map, none, refl, some, suc, true, zero, ℕ, ◌*◌, ◌+◌, ◌∷◌, ◌≡◌,
}
use opencode_go_cliproxyapi.Prelude.Text.{
  Text, codes, mem_text, text_eq, trim_right_byte, trim_space,
}
use opencode_go_cliproxyapi.Prelude.Int.{pos}
use opencode_go_cliproxyapi.Config.{
  Environment, RawConfig, Url, assemble, check_distinct, check_keys, check_overrides, duration_or,
  load, minute, valid_prefix, validate, validate_parts, validate_url,
}
use opencode_go_cliproxyapi.Catalog.Route.{Library}
use opencode_go_cliproxyapi.Catalog.Manager.{CatalogBody, data_missing, replied, transport_error}
use opencode_go_cliproxyapi.Plugin.Auth.{
  AuthEntry, AuthHost, AuthSave, auth_record, existing_names, key_file, materialize, save_keys,
  save_unlisted,
}
use opencode_go_cliproxyapi.Plugin.{
  Plugin, RefreshLoop, adopt, await_exit, close_stop, handle_lifecycle, new_plugin, register_loaded,
  register_unless, served_manager, start_loop, tick, tick_loop, ticks,
}
use opencode_go_cliproxyapi.Plugin.Loops.{Lives-Sound, Sound, called, fresh}
use opencode_go_cliproxyapi.Plugin.Records.{materialize-again}

abbrev https_url : Url
https_url = record {
  scheme = codes "https";
  host = codes "opencode.ai";
  raw_query = [];
  fragment = [];
  has_user = false;
}

abbrev plain_environment : Environment
plain_environment = record {
  expand_env = λ t. t;
  parse_duration = λ t. some (pos (60 * minute));
  parse_url = λ t. some https_url;
}

abbrev plain_urls : Library
plain_urls = record {
  parse_url = λ t. some https_url;
  path_escape = λ t. t;
  equal_fold = text_eq;
  quote = λ t. t;
}

abbrev plain_document : RawConfig
plain_document = record {
  strip_hosted_web_search = none;
  base_url = none;
  catalog_url = none;
  console_url = none;
  prefix_enabled = none;
  prefix_value = none;
  api_keys = codes "sk-1" ∷ codes "sk-22" ∷ codes "sk-33" ∷ [];
  refresh_interval = none;
  stale_while_unavailable = none;
  chat_completions = none;
  messages = none;
  responses = none;
  gemini = none;
  route_overrides = [];
  allow_http = false;
  request_timeout = none;
  max_response_bytes = none;
}

-- Every body has no data, and every digest is 64 times the length of a text.
abbrev plain_body : Text → CatalogBody
plain_body t = data_missing

repeat_byte : ℕ → ℕ → Text
repeat_byte zero c = []
repeat_byte (suc n) c = c ∷ repeat_byte n c

abbrev plain_digest : Text → Text
unfolding repeat_byte
plain_digest t = repeat_byte 64 (48 + length t)

plain_digest_sized : (t : Text) → length (plain_digest t) ≡ 64
unfolding repeat_byte plain_digest
plain_digest_sized t = refl

abbrev plain_host : List AuthEntry → AuthHost
plain_host listed = record { listed = ok listed; save_error = λ n. none }

-- A registration, another one while the catalog is down, with a late tick, and the end.
abbrev registered : Bool → Plugin
unfolding handle_lifecycle
registered has_bridge =
    (handle_lifecycle plain_urls plain_body plain_digest plain_environment
      (some (ok plain_document)) (plain_host []) (replied 200 []) [] (new_plugin has_bridge)).0

abbrev reregistered : Plugin
unfolding handle_lifecycle registered
reregistered =
    (handle_lifecycle plain_urls plain_body plain_digest plain_environment
      (some (ok plain_document)) (plain_host []) transport_error (transport_error ∷ [])
      (registered true)).0

Lives-Sound_example : Sound plain_urls plain_body plain_digest reregistered
unfolding reregistered registered
Lives-Sound_example = Lives-Sound plain_urls plain_body plain_digest reregistered (
    called (registered true) plain_environment (some (ok plain_document)) (plain_host [])
      transport_error (transport_error ∷ [])
      (called (new_plugin true) plain_environment (some (ok plain_document)) (plain_host [])
        (replied 200 []) [] (fresh true)))

two_loops : map (λ (loop : RefreshLoop). loop.exited) reregistered.loops ≡ true ∷ false ∷ []
unfolding reregistered registered handle_lifecycle register_loaded register_unless adopt new_plugin
    close_stop await_exit ticks tick tick_loop start_loop served_manager load duration_or validate
    validate_url assemble validate_parts text_eq trim_right_byte check_keys check_distinct mem_text
    check_overrides valid_prefix plain_digest
two_loops = refl

abbrev first_saves : List AuthSave
unfolding auth_record
first_saves =
    auth_record plain_digest (codes "sk-1") ∷ auth_record plain_digest (codes "sk-22") ∷ []

-- The last two keys have one digest here, so that one is known once the other is saved.
first_run : materialize plain_digest (plain_host []) plain_document.api_keys ≡ (first_saves, none)
unfolding materialize save_unlisted save_keys existing_names auth_record mem_text text_eq
    plain_digest repeat_byte first_saves
first_run = refl

abbrev listed_later : List AuthEntry
listed_later =
    record { name = key_file plain_digest (codes "sk-1"); id = [] }
    ∷ record { name = key_file plain_digest (codes "sk-22"); id = [] }
    ∷ []

materialize-again_example :
    materialize plain_digest
      (record (plain_host listed_later) { save_error = λ n. some [] })
      plain_document.api_keys
    ≡ ([], none)
unfolding existing_names plain_digest repeat_byte first_saves auth_record mem_text text_eq
    trim_space
materialize-again_example =
    materialize-again plain_digest plain_digest_sized (plain_host [])
      (record (plain_host listed_later) { save_error = λ n. some [] }) plain_document.api_keys []
      listed_later first_saves refl refl first_run (λ k known. cc) (refl, (refl, tt))
