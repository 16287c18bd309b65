-- ===== src/Catalog/Refresh.antt =====
-- `Refresh`, `SeedFrom` and `fail` of internal/catalog/catalog.go, over any order of calls.
use opencode_go_cliproxyapi.Prelude.{
  All, Bool, Bool-cases, List, Option, [], ap, false, if◌then◌else◌, inl, inr, length, ltb, none,
  refl, some, sym, true, ◌==◌, ◌∙◌, ◌∷◌, ◌≡◌, ◌⊎◌,
}
use opencode_go_cliproxyapi.Prelude.Text.{Text}
use opencode_go_cliproxyapi.Config.{Config}
use opencode_go_cliproxyapi.Catalog.Route.{Library}
use opencode_go_cliproxyapi.Catalog.Entry.{RawModel}
use opencode_go_cliproxyapi.Catalog.Manager.{
  CatalogBody, Failure, HostReply, Manager, client_unavailable, data_malformed, data_missing,
  entries, fail, fetch_budget, http_status, install_body, invalid_json, lookup_model,
  missing_data_warning, network_error, new_manager, no_json, refresh, replied, seed_from, swap,
  too_large, transport_error,
}
use opencode_go_cliproxyapi.Catalog.Index.{IsConsistent, build-IsConsistent, empty-IsConsistent}
use opencode_go_cliproxyapi.Catalog.Records.{IsPublished, build-IsPublished}
use opencode_go_cliproxyapi.Prelude.Dict.{lookup}

-- What a snapshot promises, under the configuration of the manager that serves it.
pub record IsServable (lib : Library) (m : Manager) : Type 0 where
  pub consistent : IsConsistent m.models m.index
  pub published : All (IsPublished lib m.cfg) m.models

-- The managers that the program can hold: a new one, one after a refresh with any reply, and one
-- that was seeded from another when the configuration changed.
pub data Reachable (lib : Library) (decode : Text → CatalogBody) : Manager → Type 0 where
  created : (cfg : Config) (has_client : Bool) → Reachable lib decode (new_manager cfg has_client)
  refreshed :
      (m : Manager) (reply : HostReply)
      → Reachable lib decode m
      → Reachable lib decode (refresh lib decode m reply).0
  seeded :
      (m prev : Manager)
      → Reachable lib decode m
      → Reachable lib decode prev
      → Reachable lib decode (seed_from lib m prev)

-- The manager after a failure that does not keep the snapshot.
abbrev cleared : Manager → Manager
cleared m = record m { raw = []; models = []; index = []; unsup = []; warns = [] }

fail-kept :
    (m : Manager) (f : Failure)
    → m.cfg.catalog.stale_while_unavailable ≡ true
    → fail m f ≡ (m, some f)
unfolding fail
fail-kept m f h = ap (λ (b : Bool). if b then (m, some f) else (cleared m, some f)) h

fail-cleared :
    (m : Manager) (f : Failure)
    → m.cfg.catalog.stale_while_unavailable ≡ false
    → fail m f ≡ (cleared m, some f)
unfolding fail
fail-cleared m f h = ap (λ (b : Bool). if b then (m, some f) else (cleared m, some f)) h

fail-outcome :
    (m : Manager) (f : Failure) → (fail m f ≡ (m, some f)) ⊎ (fail m f ≡ (cleared m, some f))
fail-outcome m f = elim (Bool-cases m.cfg.catalog.stale_while_unavailable) [
  | inl stale ↦ inl (fail-kept m f stale)
  | inr fresh ↦ inr (fail-cleared m f fresh)
]

module _ (lib : Library) where
  swap-IsServable :
      (m : Manager) (es : List RawModel) (warns : List Text) → IsServable lib (swap lib m es warns)
  unfolding swap
  swap-IsServable m es warns = record {
    consistent = build-IsConsistent lib m.cfg es warns;
    published = build-IsPublished lib m.cfg es warns;
  }

  cleared-IsServable : (m : Manager) → IsServable lib (cleared m)
  cleared-IsServable m = record { consistent = empty-IsConsistent; published = tt }

  fail-IsServable : (m : Manager) (f : Failure) → IsServable lib m → IsServable lib (fail m f).0
  fail-IsServable m f h = elim (fail-outcome m f) [
    | inl kept ↦ rw kept h
    | inr gone ↦ rw gone (cleared-IsServable m)
  ]

  install_body-IsServable :
      (m : Manager) (body : CatalogBody)
      → IsServable lib m
      → IsServable lib (install_body lib m body).0
  unfolding install_body
  install_body-IsServable m no_json h = fail-IsServable m invalid_json h
  install_body-IsServable m data_missing h = swap-IsServable m [] (missing_data_warning ∷ [])
  install_body-IsServable m data_malformed h = fail-IsServable m invalid_json h
  install_body-IsServable m (entries es) h = swap-IsServable m es []

abbrev AlikeTo : Manager → Manager → Type 0
AlikeTo m m' = (m'.cfg ≡ m.cfg) × (m'.has_client ≡ m.has_client)

-- The manager after a failure, kept or emptied.
abbrev pub IsAfterFailure : Manager → Manager → Type 0
IsAfterFailure m m' =
    ((m.cfg.catalog.stale_while_unavailable ≡ true) × (m' ≡ m))
    ⊎ ((m.cfg.catalog.stale_while_unavailable ≡ false)
        × ((m'.models ≡ []) × ((id : Text) → lookup_model m' id ≡ none)))

fail-IsAfterFailure : (m : Manager) (f : Failure) → IsAfterFailure m (fail m f).0
fail-IsAfterFailure m f = elim (Bool-cases m.cfg.catalog.stale_while_unavailable) [
  | inl stale ↦ inl (stale, ap (λ (p : Manager × Option Failure). p.0) (fail-kept m f stale))
  | inr fresh ↦ inr (
    fresh,
    rw (fail-cleared m f fresh) (refl, λ id. unfold lookup_model in unfold lookup in refl),
  )
]

fail-AlikeTo : (m : Manager) (f : Failure) → AlikeTo m (fail m f).0
fail-AlikeTo m f = elim (fail-outcome m f) [
  | inl kept ↦ rw kept (refl, refl)
  | inr gone ↦ rw gone (refl, refl)
]

fail-again : (m : Manager) (f : Failure) → fail (fail m f).0 f ≡ fail m f
fail-again m f = elim (Bool-cases m.cfg.catalog.stale_while_unavailable) [
  | inl stale ↦ rw (fail-kept m f stale) (fail-kept m f stale)
  | inr fresh ↦ rw (fail-cleared m f fresh) (fail-cleared (cleared m) f fresh)
]

module _ (lib : Library) where
  install_body-AlikeTo : (m : Manager) (body : CatalogBody) → AlikeTo m (install_body lib m body).0
  unfolding install_body swap
  install_body-AlikeTo m no_json = fail-AlikeTo m invalid_json
  install_body-AlikeTo m data_missing = (refl, refl)
  install_body-AlikeTo m data_malformed = fail-AlikeTo m invalid_json
  install_body-AlikeTo m (entries es) = (refl, refl)

  install_body-again :
      (m : Manager) (body : CatalogBody)
      → install_body lib (install_body lib m body).0 body ≡ install_body lib m body
  unfolding install_body swap
  install_body-again m no_json = fail-again m invalid_json
  install_body-again m data_missing = refl
  install_body-again m data_malformed = fail-again m invalid_json
  install_body-again m (entries es) = refl

  install_body-IsAfterFailure :
      (m : Manager) (body : CatalogBody) (f : Failure)
      → (install_body lib m body).1 ≡ some f
      → IsAfterFailure m (install_body lib m body).0
  unfolding install_body
  install_body-IsAfterFailure m no_json f h = fail-IsAfterFailure m invalid_json
  install_body-IsAfterFailure m data_missing f h = cc
  install_body-IsAfterFailure m data_malformed f h = fail-IsAfterFailure m invalid_json
  install_body-IsAfterFailure m (entries es) f h = cc

-- The outcomes of a refresh, which depend on the configuration and the client only.
data Refreshed (lib : Library) (decode : Text → CatalogBody) (m : Manager) (reply : HostReply)
    : Type 0 where
  failed :
      (f : Failure)
      → ((m' : Manager) → AlikeTo m m' → refresh lib decode m' reply ≡ fail m' f)
      → Refreshed lib decode m reply
  decoded :
      (body : CatalogBody)
      → ((m' : Manager) → AlikeTo m m' → refresh lib decode m' reply ≡ install_body lib m' body)
      → Refreshed lib decode m reply

module _ (lib : Library) (decode : Text → CatalogBody) where
  refresh-cases : (m : Manager) (reply : HostReply) → Refreshed lib decode m reply
  unfolding refresh
  refresh-cases m transport_error = elim (Bool-cases m.has_client) [
    | inl on ↦ failed network_error (λ m' a. rw (a.1, on) refl)
    | inr off ↦ failed client_unavailable (λ m' a. rw (a.1, off) refl)
  ]
  refresh-cases m (replied status body) = elim (Bool-cases m.has_client) [
    | inr off ↦ failed client_unavailable (λ m' a. rw (a.1, off) refl)
    | inl on ↦ elim (Bool-cases (ltb (fetch_budget m.cfg.max_response_bytes) (length body))) [
      | inl over ↦ failed too_large (λ m' a. rw (a.1, on, a.0, over) refl)
      | inr fits ↦ elim (Bool-cases (status == 200)) [
        | inr bad ↦ failed (http_status status) (λ m' a. rw (a.1, on, a.0, fits, bad) refl)
        | inl good ↦ decoded (decode body) (λ m' a. rw (a.1, on, a.0, fits, good) refl)
      ]
    ]
  ]

  -- Whatever managers are created, refreshed with whatever replies and seeded from one another, in
  -- any order, each serves a snapshot whose index and models agree, and every model of it is
  -- routed, enabled, named and contained as the manager's own configuration says.
  pub Reachable-IsServable : (m : Manager) → Reachable lib decode m → IsServable lib m
  Reachable-IsServable m (created cfg has_client) =
      unfold new_manager in record { consistent = empty-IsConsistent; published = tt }
  Reachable-IsServable m (refreshed before reply reach) =
      let ih = Reachable-IsServable before reach in
      elim (refresh-cases before reply) [
        | failed f eq ↦ rw (eq before (refl, refl)) (fail-IsServable lib before f ih)
        | decoded body eq ↦ rw (eq before (refl, refl)) (install_body-IsServable lib before body ih)
      ]
  Reachable-IsServable m (seeded next prev r1 r2) =
      unfold seed_from in swap-IsServable lib next prev.raw []

  -- When a refresh fails, a configuration with stale_while_unavailable keeps the whole manager as
  -- it was, and one without serves no model: no identifier resolves any more.
  pub refresh-failed :
      (m : Manager) (reply : HostReply) (f : Failure)
      → (refresh lib decode m reply).1 ≡ some f
      → IsAfterFailure m (refresh lib decode m reply).0
  refresh-failed m reply f h = elim (refresh-cases m reply) [
    | failed g eq ↦ rw (eq m (refl, refl)) (fail-IsAfterFailure m g)
    | decoded body eq ↦
        let here = eq m (refl, refl) in
        rw here (
          install_body-IsAfterFailure lib m body f
            (sym (ap (λ (p : Manager × Option Failure). p.1) here) ∙ h))
  ]

  -- A refresh that is repeated with the same reply changes nothing more, whether it failed or not.
  pub refresh-again :
      (m : Manager) (reply : HostReply)
      → refresh lib decode (refresh lib decode m reply).0 reply ≡ refresh lib decode m reply
  refresh-again m reply = elim (refresh-cases m reply) [
    | failed f eq ↦ rw (eq m (refl, refl)) (eq (fail m f).0 (fail-AlikeTo m f) ∙ fail-again m f)
    | decoded body eq ↦ rw (eq m (refl, refl)) (
        eq (install_body lib m body).0 (install_body-AlikeTo lib m body)
        ∙ install_body-again lib m body)
  ]

  -- A refresh keeps the configuration.
  pub refresh-cfg : (m : Manager) (reply : HostReply) → (refresh lib decode m reply).0.cfg ≡ m.cfg
  refresh-cfg m reply = elim (refresh-cases m reply) [
    | failed f eq ↦ rw (eq m (refl, refl)) (fail-AlikeTo m f).0
    | decoded body eq ↦ rw (eq m (refl, refl)) (install_body-AlikeTo lib m body).0
  ]
