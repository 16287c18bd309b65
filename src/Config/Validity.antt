-- ===== src/Config/Validity.antt =====
-- What `validate` and `Load` of internal/config/config.go accept.

use opencode_go_cliproxyapi.Prelude.Outcome.{Outcome-cases, err, fail_if, ok, ◌>>◌}
use opencode_go_cliproxyapi.Prelude.{
  All, Bool, Bool-cases, Option-cases, [], arith, false, inl, inr, is_empty, not, refl, some, subst,
  sym, true, ◌&&◌, ◌↔◌, ◌∙◌, ◌∷◌, ◌≡◌, ◌⊎◌,
}
use opencode_go_cliproxyapi.Prelude.Text.{
  Distinct, Text, codes, has_prefix, mem_text, text_eq, text_eq_iff,
}
use opencode_go_cliproxyapi.Prelude.Int.{leb_ℤ, pos, ℤ}
use opencode_go_cliproxyapi.Config.Keys.{
  Fresh-nil, check_distinct_complete, check_distinct_sound, check_keys_complete, check_keys_sound,
}
use opencode_go_cliproxyapi.Config.{
  Checked, Config, ConfigError, Environment, RawConfig, RouteOverride, Url, assemble,
  check_override, check_overrides, default_refresh_interval, default_request_timeout, duration_or,
  is_positive, load, minute, timeout_not_positive, valid_prefix, valid_protocols, validate,
  validate_parts, validate_url,
}
use opencode_go_cliproxyapi.Prelude.Dict.{Dict}

-- A URL that may be configured: absolute, with nothing but scheme, host and path, over https, or
-- over http where that is allowed.
pub record IsSafeUrl (env : Environment) (allow_http : Bool) (raw : Text) : Type 0 where
  pub url : Url
  pub present : is_empty raw ≡ false
  pub parsed : env.parse_url raw ≡ some url
  pub hosted : is_empty url.host ≡ false
  pub plain :
      (is_empty url.raw_query ≡ true) × (is_empty url.fragment ≡ true) × (url.has_user ≡ false)
  pub secure : (url.scheme ≡ codes "https") ⊎ ((url.scheme ≡ codes "http") × (allow_http ≡ true))

-- A route override names a known protocol and an endpoint that is a path.
abbrev pub IsRoutable : Text × RouteOverride → Type 0
IsRoutable (name, o) =
    (mem_text o.protocol valid_protocols ≡ true) × (has_prefix o.endpoint (codes "/") ≡ true)

pub record IsValid (env : Environment) (c : Config) : Type 0 where
  pub base : IsSafeUrl env c.allow_http c.base_url
  pub catalog : IsSafeUrl env c.allow_http c.catalog_url
  pub console : IsSafeUrl env c.allow_http c.console_url
  pub some_key : is_empty c.api_keys ≡ false
  pub keys_present : All (λ k. is_empty k ≡ false) c.api_keys
  pub keys_distinct : Distinct c.api_keys
  pub refresh : leb_ℤ (pos minute) c.catalog.refresh_interval ≡ true
  pub budget : is_positive c.max_response_bytes ≡ true
  pub overrides : All IsRoutable c.route_overrides
  pub prefix : (c.model_prefix.enabled && not (valid_prefix c.model_prefix.value)) ≡ false

>>-ok :
    {A : Type 0} (m : Checked (Unit {0})) (k : Checked A) {a : A}
    → (m >> k) ≡ ok a
    → (m ≡ ok tt) × (k ≡ ok a)
>>-ok (ok u) k h = (refl, h)
>>-ok (err e) k h = cc

fail_if-ok : (b : Bool) (e : ConfigError) → fail_if b e ≡ ok tt → b ≡ false
fail_if-ok true e h = cc
fail_if-ok false e h = refl

not-false : (b : Bool) → not b ≡ false → b ≡ true
not-false true h = refl
not-false false h = sym h

module _ (env : Environment) (name raw : Text) (allow_http : Bool) where
  validate_parts_sound :
      (u : Url)
      → is_empty raw ≡ false
      → env.parse_url raw ≡ some u
      → validate_parts name allow_http u ≡ ok tt
      → IsSafeUrl env allow_http raw
  unfolding validate_parts
  validate_parts_sound u present parsed h = record {
    url = u;
    present = present;
    parsed = parsed;
    hosted = ground arith;
    plain = ground arith;
    secure =
        ground (arith, text_eq_iff u.scheme (codes "https"), text_eq_iff u.scheme (codes "http"));
  }

  validate_url-parts :
      (u : Url)
      → is_empty raw ≡ false
      → env.parse_url raw ≡ some u
      → validate_url env name raw allow_http ≡ validate_parts name allow_http u
  unfolding validate_url
  validate_url-parts u present parsed = rw present (rw (parsed, validate_url) refl)

  validate_url_sound : validate_url env name raw allow_http ≡ ok tt → IsSafeUrl env allow_http raw
  unfolding validate_url
  validate_url_sound h = elim (Bool-cases (is_empty raw)) [
    | inl e ↦ cc (rw e at h)
    | inr present ↦ elim (Option-cases (env.parse_url raw)) [
      | inl none_e ↦ cc (rw (present, none_e, validate_url) at h)
      | inr (u, parsed) ↦
          validate_parts_sound u present parsed (sym (validate_url-parts u present parsed) ∙ h)
    ]
  ]

  validate_parts_complete :
      (s : IsSafeUrl env allow_http raw) → validate_parts name allow_http s.url ≡ ok tt
  unfolding validate_parts text_eq
  validate_parts_complete s =
      let (query, fragment, user) = s.plain in
      elim s.secure [
        | inl https ↦ rw (https, s.hosted, query, fragment, user) refl
        | inr (http, allowed) ↦ rw (http, s.hosted, query, fragment, user, allowed) refl
      ]

  validate_url_complete :
      IsSafeUrl env allow_http raw → validate_url env name raw allow_http ≡ ok tt
  validate_url_complete s = validate_url-parts s.url s.present s.parsed ∙ validate_parts_complete s

check_override_sound :
    (name : Text) (o : RouteOverride) → check_override name o ≡ ok tt → IsRoutable (name, o)
unfolding check_override
check_override_sound name o h = ground arith

slash-present : (e : Text) → has_prefix e (codes "/") ≡ true → is_empty e ≡ false
unfolding has_prefix
slash-present [] h = cc
slash-present (c ∷ s) h = refl

check_override_complete :
    (name : Text) (o : RouteOverride) → IsRoutable (name, o) → check_override name o ≡ ok tt
unfolding check_override
check_override_complete name o (known, path) = rw (known, slash-present o.endpoint path, path) refl

check_overrides_sound : (os : Dict RouteOverride) → check_overrides os ≡ ok tt → All IsRoutable os
unfolding check_overrides
check_overrides_sound [] h = tt
check_overrides_sound ((name, o) ∷ os) h =
    let (here, later) = >>-ok (check_override name o) (check_overrides os) h in
    (check_override_sound name o here, check_overrides_sound os later)

check_overrides_complete :
    (os : Dict RouteOverride) → All IsRoutable os → check_overrides os ≡ ok tt
unfolding check_overrides
check_overrides_complete [] h = refl
check_overrides_complete ((name, o) ∷ os) h =
    rw (check_override_complete name o h.0) (check_overrides_complete os h.1)

validate_sound : (env : Environment) (c : Config) → validate env c ≡ ok tt → IsValid env c
unfolding validate
validate_sound env c h =
    let (base, h1) = >>-ok _ _ h in
    let (catalog, h2) = >>-ok _ _ h1 in
    let (console, h3) = >>-ok _ _ h2 in
    let (some_key, h4) = >>-ok _ _ h3 in
    let (present, h5) = >>-ok _ _ h4 in
    let (distinct, h6) = >>-ok _ _ h5 in
    let (refresh, h7) = >>-ok _ _ h6 in
    let (budget, h8) = >>-ok _ _ h7 in
    let (overrides, prefix) = >>-ok _ _ h8 in
    record {
      base = validate_url_sound env _ _ _ base;
      catalog = validate_url_sound env _ _ _ catalog;
      console = validate_url_sound env _ _ _ console;
      some_key = fail_if-ok _ _ some_key;
      keys_present = check_keys_sound 0 _ present;
      keys_distinct = (check_distinct_sound [] _ distinct).1;
      refresh = not-false _ (fail_if-ok _ _ refresh);
      budget = not-false _ (fail_if-ok _ _ budget);
      overrides = check_overrides_sound _ overrides;
      prefix = fail_if-ok _ _ prefix;
    }

validate_complete : (env : Environment) (c : Config) → IsValid env c → validate env c ≡ ok tt
unfolding validate
validate_complete env c v =
    rw
      (
        validate_url_complete env (codes "base-url") _ _ v.base,
        validate_url_complete env (codes "catalog-url") _ _ v.catalog,
        validate_url_complete env (codes "console-url") _ _ v.console,
        v.some_key,
        check_keys_complete 0 _ v.keys_present,
        check_distinct_complete [] _ (Fresh-nil _) v.keys_distinct,
        v.refresh,
        v.budget,
        check_overrides_complete _ v.overrides,
        v.prefix,
      )
      refl

-- `validate` accepts a configuration exactly when its three URLs are safe, it has a key, no key is
-- empty or repeated, the catalog is refreshed at most once a minute, the byte budget is positive,
-- every override is routable, and a prefix that is switched on is a valid one.
pub validate_iff : (env : Environment) (c : Config) → (validate env c ≡ ok tt) ↔ IsValid env c
validate_iff env c = (validate_sound env c, validate_complete env c)

module _ (env : Environment) (raw : RawConfig) (c : Config) where
  checked-IsValid :
      (refresh timeout : ℤ)
      → (fail_if (not (is_positive timeout)) timeout_not_positive
          >> (validate env (assemble env raw refresh timeout)
              >> ok (assemble env raw refresh timeout)))
        ≡ ok c
      → IsValid env c
        × (is_positive c.request_timeout ≡ true)
        × (c ≡ assemble env raw c.catalog.refresh_interval c.request_timeout)
  unfolding assemble
  checked-IsValid refresh timeout h =
      let (positive, h1) =
        >>-ok (fail_if (not (is_positive timeout)) timeout_not_positive)
          (validate env (assemble env raw refresh timeout) >> ok (assemble env raw refresh timeout))
          h in
      let (valid, h2) =
        >>-ok (validate env (assemble env raw refresh timeout))
          (ok (assemble env raw refresh timeout)) h1 in
      let same : assemble env raw refresh timeout ≡ c = cc in
      subst
        (λ (d : Config).
          IsValid env d
          × (is_positive d.request_timeout ≡ true)
          × (d ≡ assemble env raw d.catalog.refresh_interval d.request_timeout))
        same
        (
          validate_sound env (assemble env raw refresh timeout) valid,
          not-false _ (fail_if-ok _ _ positive),
          refl,
        )

  -- What `Load` returns is valid, its request timeout is positive, and it is the record assembled
  -- from the decoded YAML with that timeout and with its refresh interval.
  pub load-IsValid :
      load env (ok raw) ≡ ok c
      → IsValid env c
        × (is_positive c.request_timeout ≡ true)
        × (c ≡ assemble env raw c.catalog.refresh_interval c.request_timeout)
  unfolding load
  load-IsValid h =
      elim (Outcome-cases (
        duration_or env (codes "catalog.refresh-interval") raw.refresh_interval
          default_refresh_interval)) [
            | inl (e, failed) ↦ cc (rw failed at h)
            | inr (refresh, e1) ↦
                elim (Outcome-cases (
                  duration_or env (codes "request-timeout") raw.request_timeout
                    default_request_timeout)) [
                      | inl (e, failed) ↦ cc (rw (e1, failed) at h)
                      | inr (timeout, e2) ↦ checked-IsValid refresh timeout (rw (e1, e2) at h)
                    ]
          ]
