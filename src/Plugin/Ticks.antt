-- ===== src/Plugin/Ticks.antt =====
-- What the ticks of a refresh loop and the closing of its channel do (internal/plugin/plugin.go).
use opencode_go_cliproxyapi.Prelude.{
  All, Bool, List, Option, [], ap, false, get_elem?, get_elem?-length, length, none, refl, some,
  suc, sym, true, update_at, update_at-length, zero, ℕ, ◌++◌, ◌∙◌, ◌∷◌, ◌≡◌,
}
use opencode_go_cliproxyapi.Prelude.Text.{Text}
use opencode_go_cliproxyapi.Config.{Config}
use opencode_go_cliproxyapi.Catalog.Route.{Library}
use opencode_go_cliproxyapi.Catalog.Manager.{CatalogBody, HostReply, Manager, refresh}
use opencode_go_cliproxyapi.Catalog.Refresh.{Reachable, refreshed}
use opencode_go_cliproxyapi.Plugin.{
  Plugin, RefreshLoop, await_exit, close_stop, refresh_once, tick, tick_loop, ticks,
}

abbrev pub Exited : RefreshLoop → Type 0
Exited loop = loop.exited ≡ true

abbrev pub running_loop : ℕ → Config → RefreshLoop
running_loop target cfg = record { target = target; cfg = cfg; stop_closed = false; exited = false }

-- A plugin that has been registered, and one that has not or has been shut down.
abbrev pub serving : Bool → List Manager → Manager → List RefreshLoop → Config → Plugin
serving has_bridge older m old cfg = record {
  has_bridge = has_bridge;
  cfg = some cfg;
  mgr = some (length older);
  stop = some (length old);
  managers = older ++ m ∷ [];
  loops = old ++ running_loop (length older) cfg ∷ [];
}

abbrev pub idle : Bool → List Manager → List RefreshLoop → Plugin
idle has_bridge managers old = record {
  has_bridge = has_bridge;
  cfg = none;
  mgr = none;
  stop = none;
  managers = managers;
  loops = old;
}

-- A plugin one of whose loops has the place of the last manager.
abbrev pub with_loop :
    Bool
    → Option Config
    → Option ℕ
    → Option ℕ
    → List Manager
    → Manager
    → List RefreshLoop
    → RefreshLoop
    → Plugin
with_loop has_bridge cfg mgr stop older m old loop = record {
  has_bridge = has_bridge;
  cfg = cfg;
  mgr = mgr;
  stop = stop;
  managers = older ++ m ∷ [];
  loops = old ++ loop ∷ [];
}

-- The loop that ran is closed and waited for.
abbrev pub ended_loop : ℕ → Config → RefreshLoop
ended_loop target cfg = record { target = target; cfg = cfg; stop_closed = true; exited = true }

abbrev pub closed_loop : ℕ → Config → RefreshLoop
closed_loop target cfg = record { target = target; cfg = cfg; stop_closed = true; exited = false }

exited_of : Option RefreshLoop → Bool
exited_of none = true
exited_of (some loop) = loop.exited

not_running : (l loop : RefreshLoop) → Exited l → some l ≡ some loop → ¬ (loop.exited ≡ false)
unfolding exited_of
not_running l loop h g e = let wrong : true ≡ false = sym h ∙ ap exited_of g ∙ e in cc

-- A loop that runs is the last.
pub running_last :
    (old : List RefreshLoop) (last loop : RefreshLoop) (i : ℕ)
    → All Exited old
    → get_elem? (old ++ last ∷ []) i ≡ some loop
    → loop.exited ≡ false
    → i ≡ length old
running_last [] last loop zero h g e = refl
running_last [] last loop (suc i) h g e = cc
running_last (l ∷ old) last loop zero h g e = absurd (not_running l loop h.0 g e)
running_last (l ∷ old) last loop (suc i) h g e = ap suc (running_last old last loop i h.1 g e)

pub none_running :
    (old : List RefreshLoop) (loop : RefreshLoop) (i : ℕ)
    → All Exited old
    → get_elem? old i ≡ some loop
    → ¬ (loop.exited ≡ false)
none_running [] loop i h g e = cc
none_running (l ∷ old) loop zero h g e = not_running l loop h.0 g e
none_running (l ∷ old) loop (suc i) h g e = none_running old loop i h.1 g e

module _ (lib : Library) (decode : Text → CatalogBody) (digest : Text → Text) where
  -- The manager behind ticks.
  pub after_ticks : List HostReply → Manager → Manager
  after_ticks [] m = m
  after_ticks (reply ∷ replies) m = after_ticks replies (refresh lib decode m reply).0

  pub after_ticks-Reachable :
      (replies : List HostReply) (m : Manager)
      → Reachable lib decode m
      → Reachable lib decode (after_ticks replies m)
  unfolding after_ticks
  after_ticks-Reachable [] m r = r
  after_ticks-Reachable (reply ∷ replies) m r =
      after_ticks-Reachable replies (refresh lib decode m reply).0 (refreshed m reply r)

  pub tick_last :
      (b : Bool) (cfg : Option Config) (mgr stop : Option ℕ) (older : List Manager) (m : Manager)
      (old : List RefreshLoop) (loop : RefreshLoop) (reply : HostReply)
      → loop.target ≡ length older
      → tick lib decode digest (length old) reply (with_loop b cfg mgr stop older m old loop)
        ≡ with_loop b cfg mgr stop older (refresh lib decode m reply).0 old loop
  unfolding tick refresh_once
  tick_last b cfg mgr stop older m old loop reply t =
      let p = with_loop b cfg mgr stop older m old loop in
      let act = λ (n : Manager). (refresh lib decode n reply).0 in
      ap (λ o. tick_loop lib decode digest o reply p) (get_elem?-length old [] loop)
      ∙ ap (λ place. record p { managers = update_at act place p.managers }) t
      ∙ ap (λ ms. record p { managers = ms }) (update_at-length act older [] m)

  ticks_last :
      (b : Bool) (cfg : Option Config) (mgr stop : Option ℕ) (older : List Manager) (m : Manager)
      (old : List RefreshLoop) (loop : RefreshLoop) (replies : List HostReply)
      → loop.target ≡ length older
      → ticks lib decode digest (length old) replies (with_loop b cfg mgr stop older m old loop)
        ≡ with_loop b cfg mgr stop older (after_ticks replies m) old loop
  unfolding ticks after_ticks
  ticks_last b cfg mgr stop older m old loop [] t = refl
  ticks_last b cfg mgr stop older m old loop (reply ∷ replies) t =
      ap (ticks lib decode digest (length old) replies)
        (tick_last b cfg mgr stop older m old loop reply t)
      ∙ ticks_last b cfg mgr stop older (refresh lib decode m reply).0 old loop replies t

  pub retired :
      (b : Bool) (older : List Manager) (m : Manager) (old : List RefreshLoop) (cfg : Config)
      (late : List HostReply)
      → await_exit lib decode digest late (close_stop (serving b older m old cfg))
        ≡ with_loop b
            (some cfg)
            (some (length older))
            none
            older
            (after_ticks late m)
            old
            (ended_loop (length older) cfg)
  unfolding await_exit close_stop
  retired b older m old cfg late =
      let place = length older in
      ap
        (λ ls.
          await_exit lib decode digest late
            (record (serving b older m old cfg) { stop = none; loops = ls }, some (length old)))
        (update_at-length (λ loop. record loop { stop_closed = true }) old []
          (running_loop place cfg))
      ∙ ap
          (λ (p : Plugin). record p {
            loops = update_at (λ loop. record loop { exited = true }) (length old) p.loops;
          })
          (ticks_last b (some cfg) (some place) none older m old (closed_loop place cfg) late refl)
      ∙ ap
          (λ ls.
            record (with_loop b (some cfg) (some place) none older (after_ticks late m) old
              (closed_loop place cfg)) { loops = ls })
          (update_at-length (λ loop. record loop { exited = true }) old [] (closed_loop place cfg))
