-- ===== src/HostBridge/Samples.antt =====
-- A call of internal/plugin/hostbridge.go that times out with neither grace nor cleanup, step by step, and
-- the theorems at it.
use opencode_go_cliproxyapi.Prelude.{All, [], false, refl, true, ◌<◌, ◌↔◌, ◌∷◌, ◌≡◌}
use opencode_go_cliproxyapi.HostBridge.{
  Bridge, BridgeReach, Call, CallStep, begin_call, begins, callback_exits, deadline_without_grace,
  exit_callback, host_returns, maybe_release, moves, new_bridge, pump_starts, returned, sent,
  settle, then_step, time_out, wait_for_in_flight,
}
use opencode_go_cliproxyapi.HostBridge.Account.{is_over}
use opencode_go_cliproxyapi.HostBridge.Balance.{call_lets_go, done_positive, wait-is_over}
use opencode_go_cliproxyapi.HostBridge.Drain.{CallReach, CallSteps, begun, call-Ends, stepped}

abbrev start_call : Call
start_call = begin_call false false

-- The deadline has passed, and the host has not returned.
abbrev orphaned : Call
orphaned = record start_call { caller = returned; drained = true }

abbrev late : Call
late = record orphaned { callback = sent; pending = true }

-- One pump runs, and one call was made.
abbrev one_call : Call → Bridge
one_call c = record { in_flight = 2; pumps = 1; calls = c ∷ [] }

abbrev one_pump : Bridge
one_pump = record { in_flight = 1; pumps = 1; calls = [] }

orphaned_step : CallStep start_call (orphaned, false)
unfolding time_out settle maybe_release
orphaned_step = deadline_without_grace refl refl

late_step : CallStep orphaned (late, false)
late_step = host_returns refl

one_pump-reach : BridgeReach one_pump
one_pump-reach =
    then_step (record { in_flight = 0; pumps = 0; calls = [] }) _ new_bridge (pump_starts _)

orphaned_reach : BridgeReach (one_call orphaned)
orphaned_reach =
    then_step (one_call start_call) _ (then_step one_pump _ one_pump-reach (begins _ false false))
      (moves 2 1 [] [] start_call (orphaned, false) orphaned_step)

late_reach : BridgeReach (one_call late)
late_reach =
    then_step (one_call orphaned) _ orphaned_reach
      (moves 2 1 [] [] orphaned (late, false) late_step)

released : (exit_callback late).1 ≡ true
unfolding exit_callback maybe_release
released = refl

wait-is_over_example :
    (wait_for_in_flight (one_call orphaned) ≡ true)
    ↔ (((one_call orphaned).pumps ≡ 0) × All (λ c. is_over c ≡ true) (one_call orphaned).calls)
wait-is_over_example = wait-is_over (one_call orphaned) orphaned_reach

done_positive_example : 0 < 2
done_positive_example =
    done_positive (one_call late) late_reach
      (call_lets_go 2 1 [] [] late (exit_callback late) (callback_exits refl) released)

orphaned-CallReach : CallReach orphaned
orphaned-CallReach = stepped start_call (orphaned, false) (begun false false) orphaned_step

call-Ends_example : (c' : Call) × CallSteps orphaned c' × (c'.let_go ≡ true)
call-Ends_example = call-Ends orphaned orphaned-CallReach
