-- ===== src/Plugin.antt =====
-- `Manager` of internal/plugin/plugin.go: registration, reconfiguration, the refresh loops and shutdown.
--
-- A catalog manager is an object that the plugin and a loop share, so it stands in a store and both hold
-- its place. A pair of the channels stop and done is the place of the loop that was started with it. What
-- the host answers is an input, and so are the ticks that a loop still takes behind the closing of its
-- channel, before it sees it.
pub mod Auth
mod Ticks
pub mod Loops
pub mod Records
mod Samples
use opencode_go_cliproxyapi.Prelude.Outcome.{Outcome, err, ok}
use opencode_go_cliproxyapi.Prelude.{
  Bool, List, Option, [], false, get_elem?, if◌then◌else◌, is_empty, is_some, length, none, not,
  some, true, update_at, ℕ, ◌&&◌, ◌++◌, ◌∷◌,
}
use opencode_go_cliproxyapi.Prelude.Text.{Text}
use opencode_go_cliproxyapi.Config.{Config, ConfigError, Environment, RawConfig, load}
use opencode_go_cliproxyapi.Catalog.Route.{Library}
use opencode_go_cliproxyapi.Catalog.Entry.{ModelRecord, UnsupportedModel}
use opencode_go_cliproxyapi.Catalog.Manager.{
  CatalogBody, Failure, HostReply, Manager, new_manager, refresh, seed_from,
}
use opencode_go_cliproxyapi.Plugin.Auth.{AuthHost, materialize}

-- The goroutine of `startRefreshLoop`: the manager it refreshes, the configuration it has captured, whether
-- its channel stop is closed, and whether it has closed done.
pub record RefreshLoop : Type 0 where
  pub target : ℕ
  pub cfg : Config
  pub stop_closed : Bool
  pub exited : Bool

-- `Manager`; `cfg` none is the zero value, `stop` holds the place of a loop.
pub record Plugin : Type 0 where
  pub has_bridge : Bool
  pub cfg : Option Config
  pub mgr : Option ℕ
  pub stop : Option ℕ
  pub managers : List Manager
  pub loops : List RefreshLoop

-- `NewManager`.
unfoldable pub new_plugin : Bool → Plugin
new_plugin has_bridge = record {
  has_bridge = has_bridge;
  cfg = none;
  mgr = none;
  stop = none;
  managers = [];
  loops = [];
}

-- What `refreshOnce` logs.
pub data RefreshLog : Type 0 where
  refresh_failed : Failure → RefreshLog
  models_excluded : List UnsupportedModel → (warnings : List Text) → RefreshLog
  normalization_warnings : List Text → RefreshLog

-- The answers to a request.
pub data Answer : Type 0 where
  malformed_request : Answer
  invalid_config : ConfigError → Answer
  auth_materialization_failed : Text → Answer
  registration : Answer
  model_list : List ModelRecord → Answer
  shut_down : Answer

unfoldable pub refresh_logs : Bool → Manager → Option Failure → List RefreshLog
refresh_logs has_bridge m (some failure) = if has_bridge then refresh_failed failure ∷ [] else []
refresh_logs has_bridge m none =
    if not (is_empty m.unsup)
    then models_excluded m.unsup m.warns ∷ []
    else if not (is_empty m.warns)
    then normalization_warnings m.warns ∷ []
    else []

-- `m.mgr`, followed into the store.
unfoldable pub served_manager : Plugin → Option Manager
served_manager p = elim p.mgr [ none ↦ none | some place ↦ get_elem? p.managers place ]

-- `handleModels`.
unfoldable pub handle_models : Plugin → Answer
unfolding served_manager
handle_models p = elim (served_manager p) [ none ↦ model_list [] | some m ↦ model_list m.models ]

-- `closeStop`.
unfoldable pub close_stop : Plugin → Plugin × Option ℕ
close_stop p = elim p.stop [
  | none ↦ (p, none)
  | some i ↦ (
    record p {
      stop = none;
      loops = update_at (λ loop. record loop { stop_closed = true }) i p.loops;
    },
    some i,
  )
]

-- `startRefreshLoop`, behind the assignments to `cfg`, `mgr`, `stop` and `done`.
unfoldable pub start_loop : Config → Manager → Plugin → Plugin
start_loop cfg m p = record p {
  cfg = some cfg;
  managers = p.managers ++ m ∷ [];
  mgr = some (length p.managers);
  stop = some (length p.loops);
  loops =
      p.loops
      ++ record { target = length p.managers; cfg = cfg; stop_closed = false; exited = false } ∷ [];
}

-- Whether the snapshot of the manager before is taken over.
unfoldable pub seeds : Config → Option Failure → Manager → Bool
seeds cfg failure prev =
    is_some failure && (cfg.catalog.stale_while_unavailable && not (is_empty prev.models))

unfoldable pub seed_fresh : Library → Config → Option Failure → Manager → Option Manager → Manager
unfolding seeds
seed_fresh lib cfg failure fresh none = fresh
seed_fresh lib cfg failure fresh (some prev) =
    if seeds cfg failure prev then seed_from lib fresh prev else fresh

module _ (lib : Library) (decode : Text → CatalogBody) (digest : Text → Text) where
  -- `refreshOnce`: the manager, the error and what is logged.
  unfoldable pub refresh_once :
      Bool → HostReply → Manager → Manager × (Option Failure × List RefreshLog)
  unfolding refresh_logs
  refresh_once has_bridge reply m =
      let done = refresh lib decode m reply in
      (done.0, (done.1, refresh_logs has_bridge done.0 done.1))

  -- A tick of the loop at a place: it refreshes the manager that it has captured.
  unfoldable pub tick_loop : Option RefreshLoop → HostReply → Plugin → Plugin
  unfolding refresh_once
  tick_loop none reply p = p
  tick_loop (some loop) reply p = record p {
    managers = update_at (λ m. (refresh_once p.has_bridge reply m).0) loop.target p.managers;
  }

  unfoldable pub tick : ℕ → HostReply → Plugin → Plugin
  unfolding tick_loop
  tick i reply p = tick_loop (get_elem? p.loops i) reply p

  unfoldable pub ticks : ℕ → List HostReply → Plugin → Plugin
  unfolding tick
  ticks i [] p = p
  ticks i (reply ∷ replies) p = ticks i replies (tick i reply p)

  -- `<-oldDone`: the loop takes the ticks it still takes, and exits.
  unfoldable pub await_exit : List HostReply → Plugin × Option ℕ → Plugin
  unfolding ticks
  await_exit late (p, none) = p
  await_exit late (p, some i) =
      let ended = ticks i late p in
      record ended { loops = update_at (λ loop. record loop { exited = true }) i ended.loops }

  -- `handleLifecycle` behind the auth records.
  unfoldable pub adopt : Config → HostReply → List HostReply → Plugin → Plugin
  unfolding refresh_once close_stop await_exit served_manager seed_fresh start_loop
  adopt cfg reply late p =
      let fresh = refresh_once p.has_bridge reply (new_manager cfg p.has_bridge) in
      let retired = await_exit late (close_stop p) in
      start_loop cfg (seed_fresh lib cfg fresh.1.0 fresh.0 (served_manager retired)) retired

  -- The rest of it, for the error of the auth records.
  unfoldable pub register_unless :
      Option Text → Config → HostReply → List HostReply → Plugin → Plugin × Answer
  unfolding adopt
  register_unless (some problem) cfg reply late p = (p, auth_materialization_failed problem)
  register_unless none cfg reply late p = (adopt cfg reply late p, registration)

  unfoldable pub register_loaded :
      Outcome ConfigError Config → AuthHost → HostReply → List HostReply → Plugin → Plugin × Answer
  unfolding register_unless materialize
  register_loaded (err problem) auth reply late p = (p, invalid_config problem)
  register_loaded (ok cfg) auth reply late p =
      register_unless (if p.has_bridge then (materialize digest auth cfg.api_keys).1 else none) cfg
        reply late p

  -- `handleLifecycle`, for the decoded request, or none where it is malformed.
  unfoldable pub handle_lifecycle :
      Environment
      → Option (Outcome (Option Text) RawConfig)
      → AuthHost
      → HostReply
      → List HostReply
      → Plugin
      → Plugin × Answer
  unfolding register_loaded load
  handle_lifecycle env none auth reply late p = (p, malformed_request)
  handle_lifecycle env (some document) auth reply late p =
      register_loaded (load env document) auth reply late p

  -- `handleShutdown`, without the wait for the callbacks of the bridge.
  unfoldable pub handle_shutdown : List HostReply → Plugin → Plugin × Answer
  unfolding close_stop await_exit
  handle_shutdown late p =
      (record (await_exit late (close_stop p)) { cfg = none; mgr = none }, shut_down)
