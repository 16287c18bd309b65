-- ===== src/Config.antt =====
-- internal/config/config.go: the plugin's configuration, its defaults and its validation.
--
-- The YAML decoder, `os.ExpandEnv`, `time.ParseDuration` and `url.Parse` are parameters. A Go map
-- is a list of pairs in the order in which Go ranges over it, which decides only which of several
-- errors is reported. An error is told apart by its constructor in place of its text, and carries
-- the values that the text quotes.
pub mod Keys
pub mod Validity
mod Samples
use opencode_go_cliproxyapi.Prelude.Outcome.{Outcome, err, fail_if, ok, ◌>>=◌, ◌>>◌}
use opencode_go_cliproxyapi.Prelude.{
  Bool, List, Option, [], false, if◌then◌else◌, is_empty, leb, map, none, not, or_default, some,
  suc, true, ℕ, ◌&&◌, ◌*◌, ◌++◌, ◌==◌, ◌||◌, ◌∷◌,
}
use opencode_go_cliproxyapi.Prelude.Text.{
  Text, codes, has_prefix, mem_text, text_eq, trim_right_byte,
}
use opencode_go_cliproxyapi.Prelude.Dict.{Dict}
use opencode_go_cliproxyapi.Prelude.Int.{leb_ℤ, pos, ℤ}

-- Durations are in nanoseconds.
abbrev pub default_base_url : Text
default_base_url = codes "https://opencode.ai/inference/go/v1"

abbrev pub default_console_url : Text
default_console_url = codes "https://opencode.ai/console"

abbrev pub default_model_prefix : Text
default_model_prefix = codes "opencode-go"

abbrev pub minute : ℕ
minute = 60000000000

abbrev pub default_refresh_interval : ℤ
default_refresh_interval = pos (15 * minute)

abbrev pub default_request_timeout : ℤ
default_request_timeout = pos (5 * minute)

abbrev pub default_max_response_bytes : ℤ
default_max_response_bytes = pos 67108864

pub record ModelPrefix : Type 0 where
  pub enabled : Bool
  pub value : Text

pub record CatalogSettings : Type 0 where
  pub refresh_interval : ℤ
  pub stale_while_unavailable : Bool

pub record Protocols : Type 0 where
  pub chat_completions : Bool
  pub messages : Bool
  pub responses : Bool
  pub gemini : Bool

pub record RouteOverride : Type 0 where
  pub protocol : Text
  pub endpoint : Text

-- An `APIKey` is its value.
pub record Config : Type 0 where
  pub strip_hosted_web_search : Bool
  pub base_url : Text
  pub catalog_url : Text
  pub console_url : Text
  pub model_prefix : ModelPrefix
  pub api_keys : List Text
  pub catalog : CatalogSettings
  pub protocols : Protocols
  pub route_overrides : Dict RouteOverride
  pub allow_http : Bool
  pub request_timeout : ℤ
  pub max_response_bytes : ℤ

-- The decoded YAML. `none` is a nil pointer; the records `rawPrefix`, `rawCatalog` and
-- `rawProtocols` are spread out.
pub record RawConfig : Type 0 where
  pub strip_hosted_web_search : Option Bool
  pub base_url : Option Text
  pub catalog_url : Option Text
  pub console_url : Option Text
  pub prefix_enabled : Option Bool
  pub prefix_value : Option Text
  pub api_keys : List Text
  pub refresh_interval : Option Text
  pub stale_while_unavailable : Option Bool
  pub chat_completions : Option Bool
  pub messages : Option Bool
  pub responses : Option Bool
  pub gemini : Option Bool
  pub route_overrides : Dict RouteOverride
  pub allow_http : Bool
  pub request_timeout : Option Text
  pub max_response_bytes : Option ℤ

-- The parts of a `url.URL` that the code reads.
pub record Url : Type 0 where
  pub scheme : Text
  pub host : Text
  pub raw_query : Text
  pub fragment : Text
  pub has_user : Bool

pub data ConfigError : Type 0 where
  undecodable : Option Text → ConfigError
  invalid_duration : Text → ConfigError
  timeout_not_positive : ConfigError
  url_empty url_invalid : Text → ConfigError
  url_incomplete : Text → Text → Text → ConfigError
  url_has_extras : Text → ConfigError
  http_not_allowed : Text → ConfigError
  scheme_unsupported : Text → Text → ConfigError
  no_keys : ConfigError
  key_empty : ℕ → ConfigError
  keys_duplicate : ConfigError
  refresh_too_short : ConfigError
  max_bytes_not_positive : ConfigError
  override_protocol : Text → Text → ConfigError
  override_endpoint_empty override_endpoint_relative : Text → ConfigError
  prefix_invalid : Text → ConfigError

abbrev pub Checked : Type 0 → Type 0
Checked A = Outcome ConfigError A

abbrev pub is_positive : ℤ → Bool
is_positive z = not (leb_ℤ z (pos 0))

abbrev pub valid_protocols : List Text
valid_protocols =
    codes "chat-completions" ∷ codes "messages" ∷ codes "responses" ∷ codes "gemini" ∷ []

-- The external functions that the configuration rests on.
pub record Environment : Type 0 where
  pub expand_env : Text → Text
  pub parse_duration : Text → Option ℤ
  pub parse_url : Text → Option Url

-- `parseDuration`.
unfoldable pub duration_or : Environment → Text → Option Text → ℤ → Checked ℤ
duration_or env name none default = ok default
duration_or env name (some text) default = elim (env.parse_duration text) [
  | none ↦ err (invalid_duration name)
  | some d ↦ ok d
]

-- The checks of `validateURL` on a parsed URL.
unfoldable pub validate_parts : Text → Bool → Url → Checked (Unit {0})
validate_parts name allow_http u =
    if is_empty u.scheme || is_empty u.host
    then err (url_incomplete name u.scheme u.host)
    else if not (is_empty u.raw_query) || not (is_empty u.fragment) || u.has_user
    then err (url_has_extras name)
    else if text_eq u.scheme (codes "https")
    then ok tt
    else if text_eq u.scheme (codes "http")
    then fail_if (not allow_http) (http_not_allowed name)
    else err (scheme_unsupported name u.scheme)

unfoldable pub validate_url : Environment → Text → Text → Bool → Checked (Unit {0})
validate_url env name raw allow_http =
    if is_empty raw then err (url_empty name) else elim (env.parse_url raw) [
      | none ↦ err (url_invalid name)
      | some u ↦ validate_parts name allow_http u
    ]

abbrev pub is_alnum : ℕ → Bool
is_alnum c = (leb b'a' c && leb c b'z') || (leb b'A' c && leb c b'Z') || (leb b'0' c && leb c b'9')

abbrev pub is_prefix_byte : ℕ → Bool
is_prefix_byte c = is_alnum c || c == b'.' || c == b'_' || c == b'-'

unfoldable pub all_bytes : (ℕ → Bool) → Text → Bool
all_bytes p [] = true
all_bytes p (c ∷ s) = p c && all_bytes p s

-- `validPrefix`; a byte of a character outside ASCII fails the tests as the character does.
unfoldable pub valid_prefix : Text → Bool
unfolding all_bytes
valid_prefix [] = false
valid_prefix (c ∷ s) = is_alnum c && all_bytes is_prefix_byte s

-- The loop over the keys for empty values, from an index on.
unfoldable pub check_keys : ℕ → List Text → Checked (Unit {0})
check_keys i [] = ok tt
check_keys i (k ∷ ks) =
    let rest = check_keys (suc i) ks in if is_empty k then err (key_empty i) else rest

-- The loop over the keys with the map `seen`.
unfoldable pub check_distinct : List Text → List Text → Checked (Unit {0})
check_distinct seen [] = ok tt
check_distinct seen (k ∷ ks) =
    let rest = check_distinct (k ∷ seen) ks in if mem_text k seen then err keys_duplicate else rest

unfoldable pub check_override : Text → RouteOverride → Checked (Unit {0})
check_override name o =
    if not (mem_text o.protocol valid_protocols)
    then err (override_protocol name o.protocol)
    else if is_empty o.endpoint
    then err (override_endpoint_empty name)
    else fail_if (not (has_prefix o.endpoint (codes "/"))) (override_endpoint_relative name)

unfoldable pub check_overrides : Dict RouteOverride → Checked (Unit {0})
check_overrides [] = ok tt
check_overrides ((name, o) ∷ rest) = check_override name o >> check_overrides rest

unfoldable pub validate : Environment → Config → Checked (Unit {0})
validate env c = do
  validate_url env (codes "base-url") c.base_url c.allow_http
  validate_url env (codes "catalog-url") c.catalog_url c.allow_http
  validate_url env (codes "console-url") c.console_url c.allow_http
  fail_if (is_empty c.api_keys) no_keys
  check_keys 0 c.api_keys
  check_distinct [] c.api_keys
  fail_if (not (leb_ℤ (pos minute) c.catalog.refresh_interval)) refresh_too_short
  fail_if (not (is_positive c.max_response_bytes)) max_bytes_not_positive
  check_overrides c.route_overrides
  fail_if (c.model_prefix.enabled && not (valid_prefix c.model_prefix.value))
      (prefix_invalid c.model_prefix.value)

-- The catalog URL: the explicit one, or the one under the base URL.
unfoldable pub catalog_url_of : Option Text → Text → Text
catalog_url_of (some url) base = trim_right_byte b'/' url
catalog_url_of none base = trim_right_byte b'/' base ++ codes "/models"

-- The record that `Load` builds from the decoded YAML and the two durations.
unfoldable pub assemble : Environment → RawConfig → ℤ → ℤ → Config
unfolding catalog_url_of
assemble env raw refresh timeout =
    let base = or_default raw.base_url default_base_url in
    record {
      strip_hosted_web_search = or_default raw.strip_hosted_web_search true;
      base_url = base;
      catalog_url = catalog_url_of raw.catalog_url base;
      console_url = trim_right_byte b'/' (or_default raw.console_url default_console_url);
      model_prefix = record {
        enabled = or_default raw.prefix_enabled true;
        value = or_default raw.prefix_value default_model_prefix;
      };
      api_keys = map env.expand_env raw.api_keys;
      catalog = record {
        refresh_interval = refresh;
        stale_while_unavailable = or_default raw.stale_while_unavailable true;
      };
      protocols = record {
        chat_completions = or_default raw.chat_completions true;
        messages = or_default raw.messages true;
        responses = or_default raw.responses true;
        gemini = or_default raw.gemini true;
      };
      route_overrides = raw.route_overrides;
      allow_http = raw.allow_http;
      request_timeout = timeout;
      max_response_bytes = or_default raw.max_response_bytes default_max_response_bytes;
    }

-- `Load` behind the YAML decoder, which gives the raw configuration, or the line of its error.
unfoldable pub load : Environment → Outcome (Option Text) RawConfig → Checked Config
load env (err line) = err (undecodable line)
load env (ok raw) = do
  refresh ←
      duration_or env (codes "catalog.refresh-interval") raw.refresh_interval
        default_refresh_interval
  timeout ← duration_or env (codes "request-timeout") raw.request_timeout default_request_timeout
  fail_if (not (is_positive timeout)) timeout_not_positive
  validate env (assemble env raw refresh timeout)
  ok (assemble env raw refresh timeout)

-- `PublicID`.
unfoldable pub public_id : Config → Text → Text
public_id c upstream =
    if c.model_prefix.enabled then c.model_prefix.value ++ (codes "/" ++ upstream) else upstream
