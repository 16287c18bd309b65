-- ===== src/Catalog/Step.antt =====
-- An induction over the loop of `swap` in internal/catalog/catalog.go: what each assignment of its
-- body keeps, the whole loop keeps.
use opencode_go_cliproxyapi.Prelude.{
  Bool-cases, List, Option-cases, [], false, inl, inr, is_empty, none, not, refl, true, ◌&&◌, ◌++◌,
  ◌∷◌, ◌≡◌,
}
use opencode_go_cliproxyapi.Prelude.Text.{Text, mem_text}
use opencode_go_cliproxyapi.Prelude.Dict.{insert, lookup}
use opencode_go_cliproxyapi.Config.{Config, RouteOverride, public_id}
use opencode_go_cliproxyapi.Catalog.Route.{
  Library, Resolution, Route, by_family, endpoint_escapes_base, overridden, protocol_enabled,
  resolve, to_route, unresolved,
}
use opencode_go_cliproxyapi.Catalog.Entry.{ModelRecord, RawModel}
use opencode_go_cliproxyapi.Catalog.Build.{
  Building, add_entries, add_entry, admit, exclude, install, make_record, place, warn,
}

-- The route and the endpoint that `resolve` gives an identifier.
pub data Routed (cfg : Config) (id : Text) : Route → Text → Type 0 where
  by_override :
      (o : RouteOverride)
      → resolve cfg id ≡ overridden o
      → Routed cfg id (to_route o.protocol) o.endpoint
  by_prefix : (r : Route) → resolve cfg id ≡ by_family r → Routed cfg id r []

-- A resolved entry that passes the gates.
pub record Passes (lib : Library) (cfg : Config) (e : RawModel) (route : Route) (endpoint : Text)
    : Type 0 where
  pub routed : Routed cfg e.id route endpoint
  pub named : is_empty e.id ≡ false
  pub enabled : protocol_enabled cfg.protocols route ≡ true
  pub contained :
      (not (is_empty endpoint) && endpoint_escapes_base lib cfg.base_url endpoint) ≡ false

-- The loop's variables after a record is installed.
abbrev pub installed : ModelRecord → Building → Building
installed rec b = record b {
  models = b.models ++ rec ∷ [];
  index = insert rec.upstream_id rec (insert rec.public_id rec b.index);
}

module _ (lib : Library) (cfg : Config) (P : Building → Type 0)
    (keep_exclude : (id reason : Text) (b : Building) → P b → P (exclude id reason b))
    (keep_warn : (text : Text) (b : Building) → P b → P (warn text b))
    (keep_seen : (id : Text) (b : Building) → P b → P (record b { seen = id ∷ b.seen }))
    (keep_install : (e : RawModel) (route : Route) (endpoint : Text) (b : Building)
      → Passes lib cfg e route endpoint
      → lookup (public_id cfg e.id) b.index ≡ none
      → lookup e.id b.index ≡ none
      → P b
      → P (installed (make_record lib cfg e route endpoint) b)) where
  install-keeps :
      (e : RawModel) (route : Route) (endpoint : Text) (b : Building)
      → Passes lib cfg e route endpoint
      → P b
      → P (install lib cfg (make_record lib cfg e route endpoint) b)
  unfolding install make_record
  install-keeps e route endpoint b passes h =
      elim (Option-cases (lookup (public_id cfg e.id) b.index)) [
        | inr (taken, e1) ↦ rw (e1, install) (keep_exclude _ _ _ (keep_warn _ b h))
        | inl free ↦ elim (Option-cases (lookup e.id b.index)) [
          | inr (taken, e2) ↦
              rw (free, install) (rw (e2, install) (keep_exclude _ _ _ (keep_warn _ b h)))
          | inl free2 ↦
              rw (free, install)
                (rw (free2, install) (keep_install e route endpoint b passes free free2 h))
        ]
      ]

  admit-keeps :
      (e : RawModel) (route : Route) (endpoint : Text) (b : Building)
      → is_empty e.id ≡ false
      → Routed cfg e.id route endpoint
      → P b
      → P (admit lib cfg e route endpoint b)
  unfolding admit
  admit-keeps e route endpoint b named routed h =
      elim (Bool-cases (protocol_enabled cfg.protocols route)) [
        | inr off ↦ rw off (keep_exclude _ _ b h)
        | inl on ↦
            elim (Bool-cases
              (not (is_empty endpoint) && endpoint_escapes_base lib cfg.base_url endpoint)) [
                | inl out ↦ rw (on, out) (keep_exclude _ _ b h)
                | inr inside ↦
                    rw (on, inside)
                      (install-keeps e route endpoint b
                        (record {
                          routed = routed;
                          named = named;
                          enabled = on;
                          contained = inside;
                        })
                        h)
              ]
      ]

  pub place-keeps :
      (e : RawModel) (r : Resolution) (b : Building)
      → is_empty e.id ≡ false
      → resolve cfg e.id ≡ r
      → P b
      → P (place lib cfg e r b)
  unfolding place
  place-keeps e (overridden o) b named eq h =
      admit-keeps e (to_route o.protocol) o.endpoint _ named (by_override o eq) (keep_warn _ b h)
  place-keeps e (by_family r) b named eq h = admit-keeps e r [] b named (by_prefix r eq) h
  place-keeps e unresolved b named eq h = keep_exclude _ _ b h

  pub add_entry-keeps : (e : RawModel) (b : Building) → P b → P (add_entry lib cfg e b)
  unfolding add_entry
  add_entry-keeps e b h = elim (Bool-cases (is_empty e.id)) [
    | inl nameless ↦ rw nameless (keep_exclude _ _ b h)
    | inr named ↦ elim (Bool-cases (mem_text e.id b.seen)) [
      | inl again ↦ rw (named, again) (keep_warn _ b h)
      | inr first ↦
          rw (named, first) (place-keeps e (resolve cfg e.id) _ named refl (keep_seen e.id b h))
    ]
  ]

  pub add_entries-keeps : (es : List RawModel) (b : Building) → P b → P (add_entries lib cfg es b)
  unfolding add_entries
  add_entries-keeps [] b h = h
  add_entries-keeps (e ∷ es) b h =
      add_entries-keeps es (add_entry lib cfg e b) (add_entry-keeps e b h)
