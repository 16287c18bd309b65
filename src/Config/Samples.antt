-- ===== src/Config/Samples.antt =====
-- Runs of internal/config/config.go, and the theorems at a concrete configuration.
use opencode_go_cliproxyapi.Prelude.Outcome.{err, ok}
use opencode_go_cliproxyapi.Prelude.{[], false, none, refl, some, true, ◌*◌, ◌↔◌, ◌∷◌, ◌≡◌}
use opencode_go_cliproxyapi.Prelude.Text.{codes, has_prefix, mem_text, text_eq, trim_right_byte}
use opencode_go_cliproxyapi.Prelude.Int.{pos}
use opencode_go_cliproxyapi.Config.{
  Config, Environment, RawConfig, Url, assemble, check_distinct, check_keys, check_override,
  check_overrides, default_request_timeout, duration_or, is_positive, keys_duplicate, load, minute,
  valid_prefix, validate, validate_parts, validate_url,
}
use opencode_go_cliproxyapi.Config.Validity.{IsValid, load-IsValid, validate_iff}

-- Every URL parses to one over https; every duration is an hour; nothing is expanded.
abbrev home : Url
home = record {
  scheme = codes "https";
  host = codes "opencode.ai";
  raw_query = [];
  fragment = [];
  has_user = false;
}

abbrev sample_environment : Environment
sample_environment = record {
  expand_env = λ t. t;
  parse_duration = λ t. some (pos (60 * minute));
  parse_url = λ t. some home;
}

abbrev sample_raw : RawConfig
sample_raw = record {
  strip_hosted_web_search = none;
  base_url = none;
  catalog_url = none;
  console_url = some (codes "https://c/");
  prefix_enabled = none;
  prefix_value = none;
  api_keys = codes "sk-1" ∷ codes "sk-2" ∷ [];
  refresh_interval = some (codes "1h");
  stale_while_unavailable = none;
  chat_completions = none;
  messages = some false;
  responses = none;
  gemini = none;
  route_overrides =
      (codes "m", record { protocol = codes "messages"; endpoint = codes "/v1/messages" }) ∷ [];
  allow_http = false;
  request_timeout = none;
  max_response_bytes = none;
}

abbrev sample_config : Config
sample_config = assemble sample_environment sample_raw (pos (60 * minute)) default_request_timeout

trimmed :
    (sample_config.console_url ≡ codes "https://c")
    × (sample_config.catalog_url ≡ codes "https://opencode.ai/inference/go/v1/models")
unfolding assemble trim_right_byte
trimmed = (refl, refl)

loaded : load sample_environment (ok sample_raw) ≡ ok sample_config
unfolding load assemble duration_or validate validate_url validate_parts trim_right_byte text_eq
    check_keys check_distinct mem_text check_overrides check_override has_prefix valid_prefix
loaded = refl

repeated_key :
    load sample_environment (ok (record sample_raw { api_keys = codes "k" ∷ codes "k" ∷ [] }))
    ≡ err keys_duplicate
unfolding load assemble duration_or validate validate_url validate_parts trim_right_byte text_eq
    check_keys check_distinct mem_text
repeated_key = refl

load_example :
    IsValid sample_environment sample_config
    × (is_positive sample_config.request_timeout ≡ true)
    × (sample_config
        ≡ assemble sample_environment sample_raw sample_config.catalog.refresh_interval
            sample_config.request_timeout)
load_example = load-IsValid sample_environment sample_raw sample_config loaded

validate_example :
    (validate sample_environment sample_config ≡ ok tt) ↔ IsValid sample_environment sample_config
validate_example = validate_iff sample_environment sample_config
