-- ===== src/Catalog/Records.antt =====
-- The records that `swap` of internal/catalog/catalog.go publishes.
use opencode_go_cliproxyapi.Prelude.{
  All, All-append, List, [], false, inl, inr, is_empty, not, refl, some, true, ◌&&◌, ◌++◌, ◌∙◌, ◌∷◌,
  ◌≡◌, ◌⊎◌,
}
use opencode_go_cliproxyapi.Prelude.Text.{Text}
use opencode_go_cliproxyapi.Prelude.Dict.{keys_differ, lookup, lookup-insert_ne, lookup-insert_new}
use opencode_go_cliproxyapi.Config.{Config, public_id}
use opencode_go_cliproxyapi.Catalog.Route.{Library, Route, endpoint_escapes_base, protocol_enabled}
use opencode_go_cliproxyapi.Catalog.Entry.{ModelRecord, RawModel}
use opencode_go_cliproxyapi.Catalog.Build.{
  Building, add_entries, add_entry, build, final_endpoint, make_record, start,
}
use opencode_go_cliproxyapi.Catalog.Step.{Passes, Routed, add_entries-keeps}

-- What a published record promises: its route is what the configuration gives its identifier, the
-- protocol is switched on, its public identifier is the configured one, and its endpoint is the
-- route's own, or an override's that keeps to the scheme and host of the base URL.
pub record IsPublished (lib : Library) (cfg : Config) (r : ModelRecord) : Type 0 where
  pub endpoint : Text
  pub routed : Routed cfg r.upstream_id r.protocol endpoint
  pub named : is_empty r.upstream_id ≡ false
  pub enabled : protocol_enabled cfg.protocols r.protocol ≡ true
  pub exposed : r.public_id ≡ public_id cfg r.upstream_id
  pub targeted :
      ((is_empty endpoint ≡ true)
        × (r.endpoint_path ≡ final_endpoint lib cfg r.upstream_id r.protocol []))
      ⊎ ((r.endpoint_path ≡ endpoint) × (endpoint_escapes_base lib cfg.base_url endpoint ≡ false))

module _ (lib : Library) (cfg : Config) where
  target_cases :
      (id : Text) (route : Route) (endpoint : Text)
      → (not (is_empty endpoint) && endpoint_escapes_base lib cfg.base_url endpoint) ≡ false
      → ((is_empty endpoint ≡ true)
          × (final_endpoint lib cfg id route endpoint ≡ final_endpoint lib cfg id route []))
        ⊎ ((final_endpoint lib cfg id route endpoint ≡ endpoint)
            × (endpoint_escapes_base lib cfg.base_url endpoint ≡ false))
  unfolding final_endpoint
  target_cases id route [] h = inl (refl, refl)
  target_cases id route (c ∷ s) h = inr (refl, h)

  make_record-IsPublished :
      (e : RawModel) (route : Route) (endpoint : Text)
      → Passes lib cfg e route endpoint
      → IsPublished lib cfg (make_record lib cfg e route endpoint)
  unfolding make_record
  make_record-IsPublished e route endpoint p = record {
    endpoint = endpoint;
    routed = p.routed;
    named = p.named;
    enabled = p.enabled;
    exposed = refl;
    targeted = target_cases e.id route endpoint p.contained;
  }

  -- Every model of a snapshot is routed by the override for its identifier or by its family, by a
  -- protocol that the configuration has on, under the configured public identifier, and to an
  -- endpoint that is the route's own or an override's that does not leave the base URL's host.
  pub build-IsPublished :
      (es : List RawModel) (warns : List Text)
      → All (IsPublished lib cfg) (build lib cfg es warns).models
  unfolding build
  build-IsPublished es warns =
      add_entries-keeps lib cfg (λ b. All (IsPublished lib cfg) b.models) (λ id reason b k. k)
        (λ text b k. k) (λ id b k. k)
        (λ e route endpoint b passes p u k.
          All-append (IsPublished lib cfg) b.models (make_record lib cfg e route endpoint ∷ []) k
            (make_record-IsPublished e route endpoint passes, tt))
        es (start lib cfg warns) tt

  kept_by_later :
      (id : Text) (r : ModelRecord) (es : List RawModel) (b : Building)
      → lookup id b.index ≡ some r
      → lookup id (add_entries lib cfg es b).index ≡ some r
  kept_by_later id r =
      add_entries-keeps lib cfg (λ b. lookup id b.index ≡ some r) (λ _ reason b k. k)
        (λ text b k. k) (λ _ b k. k)
        (λ e route endpoint b passes p u k.
          unfold make_record in
          lookup-insert_ne e.id id (make_record lib cfg e route endpoint) _
            (keys_differ e.id id r b.index u k)
          ∙ lookup-insert_new (public_id cfg e.id) id (make_record lib cfg e route endpoint) r
              b.index p k)

  add_entries-append :
      (xs ys : List RawModel) (b : Building)
      → add_entries lib cfg (xs ++ ys) b ≡ add_entries lib cfg ys (add_entries lib cfg xs b)
  unfolding add_entries
  add_entries-append [] ys b = refl
  add_entries-append (x ∷ xs) ys b = add_entries-append xs ys (add_entry lib cfg x b)

  -- The first entry to claim an identifier keeps it: whatever entries follow, an identifier that
  -- resolves goes on resolving to the same record.
  pub build-append :
      (id : Text) (r : ModelRecord) (xs ys : List RawModel) (warns : List Text)
      → lookup id (build lib cfg xs warns).index ≡ some r
      → lookup id (build lib cfg (xs ++ ys) warns).index ≡ some r
  unfolding build
  build-append id r xs ys warns h =
      rw (add_entries-append xs ys (start lib cfg warns)) (kept_by_later id r ys _ h)
