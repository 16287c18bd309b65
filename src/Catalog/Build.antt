-- ===== src/Catalog/Build.antt =====
-- `swap` of internal/catalog/catalog.go: the loop that builds a snapshot from decoded entries.
use opencode_go_cliproxyapi.Prelude.{
  List, [], if◌then◌else◌, is_empty, none, not, some, ◌&&◌, ◌++◌, ◌∷◌,
}
use opencode_go_cliproxyapi.Prelude.Text.{Text, codes, mem_text}
use opencode_go_cliproxyapi.Prelude.Dict.{Dict, insert, lookup}
use opencode_go_cliproxyapi.Config.{Config, RouteOverride, public_id}
use opencode_go_cliproxyapi.Catalog.Route.{
  Library, Resolution, Route, by_family, endpoint_escapes_base, endpoint_path, gemini, overridden,
  protocol_enabled, resolve, route_text, to_route, unresolved,
}
use opencode_go_cliproxyapi.Catalog.Entry.{
  ModelRecord, RawModel, UnsupportedModel, first_non_empty, normalize_thinking,
}

-- The variables of the loop. The map `seen` is the list of its keys.
pub record Building : Type 0 where
  pub models : List ModelRecord
  pub index : Dict ModelRecord
  pub unsup : List UnsupportedModel
  pub warns : List Text
  pub seen : List Text

-- `unsup = append(unsup, …)` and `warns = append(warns, …)`.
abbrev pub exclude : Text → Text → Building → Building
exclude id reason b = record b {
  unsup = b.unsup ++ record { upstream_id = id; reason = reason } ∷ [];
}

abbrev pub warn : Text → Building → Building
warn text b = record b { warns = b.warns ++ text ∷ [] }

module _ (lib : Library) (cfg : Config) where
  abbrev pub duplicate_warning : Text → Text
  duplicate_warning id =
      codes "duplicate model " ++ (lib.quote id ++ codes " ignored; keeping first occurrence")

  abbrev pub override_warning : Text → RouteOverride → Text
  override_warning id o =
      codes "model "
      ++ (lib.quote id
          ++ (codes " routed via user override ("
              ++ (o.protocol ++ (codes " " ++ (o.endpoint ++ codes ")")))))

  abbrev pub disabled_reason : Route → Text
  disabled_reason r = codes "protocol " ++ (route_text r ++ codes " disabled by config")

  abbrev pub escape_reason : Text
  escape_reason = codes "resolved endpoint escapes the configured upstream host"

  abbrev pub clash_reason : Text → Text → Text
  clash_reason public upstream =
      codes "public id "
      ++ (lib.quote public ++ (codes " collides with upstream id " ++ lib.quote upstream))

  -- The endpoint of a record: the override's, or the route's own.
  unfoldable pub final_endpoint : Text → Route → Text → Text
  final_endpoint id route endpoint = if not (is_empty endpoint) then endpoint else elim route [
    | gemini ↦ codes "/v1/models" ++ (codes "/" ++ lib.path_escape id)
    | r ↦ endpoint_path r
  ]

  unfoldable pub make_record : RawModel → Route → Text → ModelRecord
  unfolding final_endpoint public_id
  make_record e route endpoint = record {
    public_id = public_id cfg e.id;
    upstream_id = e.id;
    display_name = if is_empty e.display_name then e.id else e.display_name;
    protocol = route;
    endpoint_path = final_endpoint e.id route endpoint;
    context_limit = e.context_length;
    output_limit = e.max_output_tokens;
    input_modes = first_non_empty e.input_modes e.input_modalities;
    output_modes = first_non_empty e.output_modes e.output_modalities;
    thinking = normalize_thinking e.thinking;
  }

  -- A clash of identifiers: a warning and an exclusion with the same text.
  abbrev pub clash : Text → Text → Building → Building
  clash id reason b = exclude id reason (warn reason b)

  -- The end of the loop's body: the record is installed unless an identifier of it is taken.
  unfoldable pub install : ModelRecord → Building → Building
  install rec b = elim (lookup rec.public_id b.index) [
    | some taken ↦ clash rec.upstream_id (clash_reason rec.public_id taken.upstream_id) b
    | none ↦ elim (lookup rec.upstream_id b.index) [
      | some taken ↦ clash rec.upstream_id (clash_reason taken.public_id rec.upstream_id) b
      | none ↦ record b {
        models = b.models ++ rec ∷ [];
        index = insert rec.upstream_id rec (insert rec.public_id rec b.index);
      }
    ]
  ]

  -- The gates on a resolved route and endpoint.
  unfoldable pub admit : RawModel → Route → Text → Building → Building
  admit e route endpoint b =
      if not (protocol_enabled cfg.protocols route)
      then exclude e.id (disabled_reason route) b
      else if not (is_empty endpoint) && endpoint_escapes_base lib cfg.base_url endpoint
      then exclude e.id escape_reason b
      else install (make_record e route endpoint) b

  -- The body behind the test for a duplicate, with the outcome of `resolve`.
  unfoldable pub place : RawModel → Resolution → Building → Building
  place e (overridden o) b =
      admit e (to_route o.protocol) o.endpoint (warn (override_warning e.id o) b)
  place e (by_family r) b = admit e r [] b
  place e unresolved b = exclude e.id (codes "no route determined") b

  -- One round of the loop of `swap`.
  unfoldable pub add_entry : RawModel → Building → Building
  add_entry e b =
      if is_empty e.id
      then exclude [] (codes "missing id") b
      else if mem_text e.id b.seen
      then warn (duplicate_warning e.id) b
      else place e (resolve cfg e.id) (record b { seen = e.id ∷ b.seen })

  unfoldable pub add_entries : List RawModel → Building → Building
  add_entries [] b = b
  add_entries (e ∷ es) b = add_entries es (add_entry e b)

  abbrev pub start : List Text → Building
  start warns = record { models = []; index = []; unsup = []; warns = warns; seen = [] }

  -- The variables at the end of the loop, from the entries and the caller's warnings.
  unfoldable pub build : List RawModel → List Text → Building
  unfolding add_entries
  build entries warns = add_entries entries (start warns)
