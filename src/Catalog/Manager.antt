-- ===== src/Catalog/Manager.antt =====
-- `Manager` of internal/catalog/catalog.go: `New`, `SeedFrom`, `Refresh`, `fail`, `swap`, `Lookup`.
use opencode_go_cliproxyapi.Prelude.{
  Bool, List, Option, [], if◌then◌else◌, length, ltb, none, not, some, ℕ, ◌*◌, ◌++◌, ◌==◌, ◌^◌, ◌∷◌,
}
use opencode_go_cliproxyapi.Prelude.Text.{Text, codes}
use opencode_go_cliproxyapi.Prelude.Dict.{Dict, lookup}
use opencode_go_cliproxyapi.Prelude.Int.{negsuc, pos, ℤ}
use opencode_go_cliproxyapi.Config.{Config}
use opencode_go_cliproxyapi.Catalog.Route.{Library}
use opencode_go_cliproxyapi.Catalog.Entry.{ModelRecord, RawModel, UnsupportedModel}
use opencode_go_cliproxyapi.Catalog.Build.{build}

-- `has_client` is whether the host client is not nil.
pub record Manager : Type 0 where
  pub cfg : Config
  pub has_client : Bool
  pub raw : List RawModel
  pub models : List ModelRecord
  pub index : Dict ModelRecord
  pub unsup : List UnsupportedModel
  pub warns : List Text

unfoldable pub new_manager : Config → Bool → Manager
new_manager cfg has_client = record {
  cfg = cfg;
  has_client = has_client;
  raw = [];
  models = [];
  index = [];
  unsup = [];
  warns = [];
}

-- The body of a response, decoded: no JSON object; an object with no `data`; `data` that is no list
-- of entries; or the entries (none for `null`).
pub data CatalogBody : Type 0 where
  no_json data_missing data_malformed : CatalogBody
  entries : List RawModel → CatalogBody

-- What the host client's `Do` returns: an error, or a status and a body.
pub data HostReply : Type 0 where
  transport_error : HostReply
  replied : ℕ → Text → HostReply

-- The category that `fail` is given.
pub data Failure : Type 0 where
  client_unavailable network_error too_large : Failure
  http_status : ℕ → Failure
  invalid_json : Failure

abbrev pub catalog_budget_floor : ℕ
catalog_budget_floor = 16 * 2 ^ 20

-- `max(m.cfg.MaxResponseBytes, catalogBudgetFloor)`.
abbrev pub fetch_budget : ℤ → ℕ
fetch_budget (pos n) = if ltb catalog_budget_floor n then n else catalog_budget_floor
fetch_budget (negsuc n) = catalog_budget_floor

abbrev pub missing_data_warning : Text
missing_data_warning =
    codes "upstream catalog response missing " ++ (34 ∷ codes "data" ++ (34 ∷ codes " field"))

-- `fail`: the manager, and the error's category.
unfoldable pub fail : Manager → Failure → Manager × Option Failure
fail m category =
    if m.cfg.catalog.stale_while_unavailable
    then (m, some category)
    else (record m { raw = []; models = []; index = []; unsup = []; warns = [] }, some category)

module _ (lib : Library) where
  unfoldable pub swap : Manager → List RawModel → List Text → Manager
  swap m es extra_warns =
      let b = build lib m.cfg es extra_warns in
      record m { raw = es; models = b.models; index = b.index; unsup = b.unsup; warns = b.warns }

  -- `m.SeedFrom(prev)`.
  unfoldable pub seed_from : Manager → Manager → Manager
  seed_from m prev = swap m prev.raw []

  -- The end of `Refresh`, for a decoded body.
  unfoldable pub install_body : Manager → CatalogBody → Manager × Option Failure
  install_body m no_json = fail m invalid_json
  install_body m data_missing = (swap m [] (missing_data_warning ∷ []), none)
  install_body m data_malformed = fail m invalid_json
  install_body m (entries es) = (swap m es [], none)

  -- `Refresh` with the host's reply, for the decoder of a body.
  unfoldable pub refresh : (Text → CatalogBody) → Manager → HostReply → Manager × Option Failure
  refresh decode m transport_error =
      if not m.has_client then fail m client_unavailable else fail m network_error
  refresh decode m (replied status body) =
      if not m.has_client
      then fail m client_unavailable
      else if ltb (fetch_budget m.cfg.max_response_bytes) (length body)
      then fail m too_large
      else if not (status == 200)
      then fail m (http_status status)
      else install_body m (decode body)

-- `Lookup`.
unfoldable pub lookup_model : Manager → Text → Option ModelRecord
lookup_model m id = lookup id m.index
