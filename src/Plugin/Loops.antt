-- ===== src/Plugin/Loops.antt =====
-- The refresh loops of internal/plugin/plugin.go: at most one runs, and it refreshes what is served.
use opencode_go_cliproxyapi.Prelude.Outcome.{Outcome, err, ok}
use opencode_go_cliproxyapi.Prelude.{
  All, All-append, Bool, List, Option, [], ap, false, get_elem?, get_elem?-length, if_ind, if_split,
  length, none, refl, some, subst, sym, ℕ, ◌++◌, ◌∙◌, ◌∷◌, ◌≡◌,
}
use opencode_go_cliproxyapi.Prelude.Text.{Text}
use opencode_go_cliproxyapi.Config.{Config, ConfigError, Environment, RawConfig, load}
use opencode_go_cliproxyapi.Plugin.Auth.{AuthHost}
use opencode_go_cliproxyapi.Catalog.Route.{Library}
use opencode_go_cliproxyapi.Catalog.Manager.{
  CatalogBody, Failure, HostReply, Manager, new_manager, refresh, seed_from, swap,
}
use opencode_go_cliproxyapi.Catalog.Refresh.{Reachable, created, refresh-cfg, refreshed, seeded}
use opencode_go_cliproxyapi.Plugin.{
  Plugin, RefreshLoop, adopt, await_exit, close_stop, handle_lifecycle, handle_shutdown, new_plugin,
  refresh_once, register_loaded, register_unless, seed_fresh, seeds, served_manager, start_loop,
  tick,
}
use opencode_go_cliproxyapi.Plugin.Ticks.{
  Exited, after_ticks, after_ticks-Reachable, ended_loop, idle, none_running, retired, running_last,
  running_loop, serving, tick_last, with_loop,
}

module _ (lib : Library) (decode : Text → CatalogBody) (digest : Text → Text) where
  -- The plugin at any time: calls of the host, one at a time, and ticks of the loops that run.
  pub data Lives : Plugin → Type 0 where
    fresh : (has_bridge : Bool) → Lives (new_plugin has_bridge)
    called :
        (p : Plugin) (env : Environment) (document : Option (Outcome (Option Text) RawConfig))
        (auth : AuthHost) (reply : HostReply) (late : List HostReply)
        → Lives p
        → Lives (handle_lifecycle lib decode digest env document auth reply late p).0
    stopped :
        (p : Plugin) (late : List HostReply)
        → Lives p
        → Lives (handle_shutdown lib decode digest late p).0
    ticked :
        (p : Plugin) (i : ℕ) (loop : RefreshLoop) (reply : HostReply)
        → get_elem? p.loops i ≡ some loop
        → loop.stop_closed ≡ false
        → loop.exited ≡ false
        → Lives p
        → Lives (tick lib decode digest i reply p)

  -- Nothing runs, and nothing is served; or one loop runs, on the manager that is served, with the
  -- configuration that manager has, and its channel is the one that is held.
  pub data Sound : Plugin → Type 0 where
    sound_idle :
        (has_bridge : Bool) (managers : List Manager) (old : List RefreshLoop)
        → All Exited old
        → Sound (idle has_bridge managers old)
    sound_serving :
        (has_bridge : Bool) (older : List Manager) (m : Manager) (old : List RefreshLoop)
        (cfg : Config)
        → All Exited old
        → m.cfg ≡ cfg
        → Reachable lib decode m
        → Sound (serving has_bridge older m old cfg)

  seed_fresh-cfg :
      (cfg : Config) (failure : Option Failure) (m prev : Manager)
      → (seed_fresh lib cfg failure m (some prev)).cfg ≡ m.cfg
  unfolding seed_fresh seed_from swap
  seed_fresh-cfg cfg failure m prev =
      if_ind (λ (n : Manager). n.cfg ≡ m.cfg) (seeds cfg failure prev) refl refl

  seed_fresh-Reachable :
      (cfg : Config) (failure : Option Failure) (m prev : Manager)
      → Reachable lib decode m
      → Reachable lib decode prev
      → Reachable lib decode (seed_fresh lib cfg failure m (some prev))
  unfolding seed_fresh
  seed_fresh-Reachable cfg failure m prev r s =
      if_split (Reachable lib decode) (seeds cfg failure prev) _ _ (λ h. seeded m prev r s) (λ h. r)

  -- The manager that a registration starts with.
  abbrev first_manager : Bool → Config → HostReply → Manager
  first_manager b cfg reply = (refresh lib decode (new_manager cfg b) reply).0

  adopt-Sound :
      (p : Plugin) (cfg : Config) (reply : HostReply) (late : List HostReply)
      → Sound p
      → Sound (adopt lib decode digest cfg reply late p)
  unfolding adopt refresh_once close_stop await_exit served_manager start_loop new_manager
      seed_fresh
  adopt-Sound p cfg reply late (sound_idle b managers old h) =
      sound_serving b managers (first_manager b cfg reply) old cfg h
        (refresh-cfg lib decode (new_manager cfg b) reply)
        (refreshed (new_manager cfg b) reply (created cfg b))
  adopt-Sound p cfg reply late (sound_serving b older m old was h e r) =
      let first = first_manager b cfg reply in
      let failure = (refresh lib decode (new_manager cfg b) reply).1 in
      let prev = after_ticks lib decode digest late m in
      let next = seed_fresh lib cfg failure first (some prev) in
      let place = length older in
      let behind = with_loop b (some was) (some place) none older prev old (ended_loop place was) in
      subst Sound
        (sym (
          ap
            (λ (q : Plugin). start_loop cfg (seed_fresh lib cfg failure first (served_manager q)) q)
            (retired lib decode digest b older m old was late)
          ∙ ap (λ (o : Option Manager). start_loop cfg (seed_fresh lib cfg failure first o) behind)
              (get_elem?-length older [] prev)))
        (sound_serving b (older ++ prev ∷ []) next (old ++ ended_loop place was ∷ []) cfg
          (All-append Exited old (ended_loop place was ∷ []) h (refl, tt))
          (seed_fresh-cfg cfg failure first prev ∙ refresh-cfg lib decode (new_manager cfg b) reply)
          (seed_fresh-Reachable cfg failure first prev
            (refreshed (new_manager cfg b) reply (created cfg b))
            (after_ticks-Reachable lib decode digest late m r)))

  register_unless-Sound :
      (problem : Option Text) (p : Plugin) (cfg : Config) (reply : HostReply)
      (late : List HostReply)
      → Sound p
      → Sound (register_unless lib decode digest problem cfg reply late p).0
  unfolding register_unless
  register_unless-Sound none p cfg reply late s = adopt-Sound p cfg reply late s
  register_unless-Sound (some problem) p cfg reply late s = s

  register_loaded-Sound :
      (loaded : Outcome ConfigError Config) (p : Plugin) (auth : AuthHost) (reply : HostReply)
      (late : List HostReply)
      → Sound p
      → Sound (register_loaded lib decode digest loaded auth reply late p).0
  unfolding register_loaded
  register_loaded-Sound (err problem) p auth reply late s = s
  register_loaded-Sound (ok cfg) p auth reply late s = register_unless-Sound _ p cfg reply late s

  handle_lifecycle-Sound :
      (p : Plugin) (env : Environment) (document : Option (Outcome (Option Text) RawConfig))
      (auth : AuthHost) (reply : HostReply) (late : List HostReply)
      → Sound p
      → Sound (handle_lifecycle lib decode digest env document auth reply late p).0
  unfolding handle_lifecycle
  handle_lifecycle-Sound p env none auth reply late s = s
  handle_lifecycle-Sound p env (some document) auth reply late s =
      register_loaded-Sound (load env document) p auth reply late s

  handle_shutdown-Sound :
      (p : Plugin) (late : List HostReply)
      → Sound p
      → Sound (handle_shutdown lib decode digest late p).0
  unfolding handle_shutdown close_stop await_exit
  handle_shutdown-Sound p late (sound_idle b managers old h) = sound_idle b managers old h
  handle_shutdown-Sound p late (sound_serving b older m old cfg h e r) =
      let place = length older in
      subst Sound
        (sym (
          ap (λ (q : Plugin). record q { cfg = none; mgr = none })
            (retired lib decode digest b older m old cfg late)))
        (sound_idle b (older ++ after_ticks lib decode digest late m ∷ [])
          (old ++ ended_loop place cfg ∷ [])
          (All-append Exited old (ended_loop place cfg ∷ []) h (refl, tt)))

  tick-Sound :
      (p : Plugin) (i : ℕ) (loop : RefreshLoop) (reply : HostReply)
      → get_elem? p.loops i ≡ some loop
      → loop.exited ≡ false
      → Sound p
      → Sound (tick lib decode digest i reply p)
  tick-Sound p i loop reply g e (sound_idle b managers old h) =
      absurd (none_running old loop i h g e)
  tick-Sound p i loop reply g e (sound_serving b older m old cfg h k r) =
      let place = length older in
      subst Sound
        (sym (
          ap (λ n. tick lib decode digest n reply (serving b older m old cfg))
            (running_last old (running_loop place cfg) loop i h g e)
          ∙ tick_last lib decode digest b (some cfg) (some place) (some (length old)) older m old
              (running_loop place cfg) reply refl))
        (sound_serving b older (refresh lib decode m reply).0 old cfg h
          (refresh-cfg lib decode m reply ∙ k) (refreshed m reply r))

  -- Whatever the host calls and whenever loops tick: between two calls either no loop runs and nothing is
  -- served, or exactly one loop runs, it refreshes the very manager that is served, it has the
  -- configuration of the plugin and of that manager, and the channel that the plugin holds is its own.
  pub Lives-Sound : (p : Plugin) → Lives p → Sound p
  unfolding new_plugin
  Lives-Sound p (fresh has_bridge) = sound_idle has_bridge [] [] tt
  Lives-Sound p (called q env document auth reply late l) =
      handle_lifecycle-Sound q env document auth reply late (Lives-Sound q l)
  Lives-Sound p (stopped q late l) = handle_shutdown-Sound q late (Lives-Sound q l)
  Lives-Sound p (ticked q i loop reply g s e l) = tick-Sound q i loop reply g e (Lives-Sound q l)
