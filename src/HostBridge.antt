-- ===== src/HostBridge.antt =====
-- `callWithTimeoutResult` and `WaitForInFlight` of internal/plugin/hostbridge.go: how the bridge counts
-- its calls into the host.
--
-- A call is up to three goroutines: the caller, the callback that runs inside the host, and the cleanup
-- that receives a late result. The steps of the relation are what one goroutine does between two
-- points where another can be seen: a send or receive on `done`, a deadline, or a critical section of
-- `hs`. Results are not modelled, only whether `done` holds one. What `abandon` does stands between
-- two steps; a call that it makes itself is one more call of the bridge. The goroutine that `ExecuteStream`
-- of internal/plugin/executor.go starts for the pump of a stream holds a count of its own, from before it
-- starts until it returns; its calls into the host are calls of the bridge like any other.
pub mod Account
pub mod Balance
pub mod Drain
mod Samples
use opencode_go_cliproxyapi.Prelude.{
  Bool, List, [], false, if◌then◌else◌, not, suc, true, ℕ, ◌&&◌, ◌++◌, ◌-◌, ◌<◌, ◌==◌, ◌∷◌, ◌≡◌,
}

-- The caller is in the first `select`, in the one with the grace timer, or has returned.
pub data Caller : Type 0 where
  waiting in_grace returned : Caller

-- The callback runs inside the host, has sent its result (of the host or of a panic), or has run
-- its deferred function.
pub data Callback : Type 0 where
  inside_host sent gone : Callback

-- The goroutine that runs `abandon`.
pub data Cleanup : Type 0 where
  no_cleanup awaiting abandoning cleaned : Cleanup

-- One call: its goroutines, whether `done` holds a result, its arguments `grace` and `abandon`, and
-- the three flags that `hs` guards.
pub record Call : Type 0 where
  pub caller : Caller
  pub callback : Callback
  pub cleanup : Cleanup
  pub pending : Bool
  pub has_grace : Bool
  pub has_abandon : Bool
  pub exited : Bool
  pub drained : Bool
  pub let_go : Bool

abbrev pub begin_call : Bool → Bool → Call
begin_call has_grace has_abandon = record {
  caller = waiting;
  callback = inside_host;
  cleanup = no_cleanup;
  pending = false;
  has_grace = has_grace;
  has_abandon = has_abandon;
  exited = false;
  drained = false;
  let_go = false;
}

-- `maybeRelease`, with whether it called `b.inFlight.Done()`.
unfoldable pub maybe_release : Call → Call × Bool
maybe_release c =
    if c.exited && (c.drained && not c.let_go)
    then (record c { let_go = true }, true)
    else (c, false)

unfoldable pub settle : Call → Call × Bool
unfolding maybe_release
settle c = maybe_release (record c { drained = true })

-- The critical section of the callback's deferred function.
unfoldable pub exit_callback : Call → Call × Bool
unfolding maybe_release
exit_callback c = maybe_release (record c { callback = gone; exited = true })

-- The caller gives up: with `abandon` the cleanup starts, without it nothing is left to do.
unfoldable pub time_out : Call → Call × Bool
unfolding settle
time_out c =
    if c.has_abandon
    then (record c { caller = returned; cleanup = awaiting }, false)
    else settle (record c { caller = returned })

-- The steps of a call, with whether `b.inFlight.Done()` is called.
pub data CallStep (c : Call) : Call × Bool → Type 0 where
  host_returns :
      c.callback ≡ inside_host → CallStep c (record c { callback = sent; pending = true }, false)
  callback_exits : c.callback ≡ sent → CallStep c (exit_callback c)
  result_in_time :
      c.caller ≡ waiting
      → c.pending ≡ true
      → CallStep c (settle (record c { caller = returned; pending = false }))
  deadline_with_grace :
      c.caller ≡ waiting → c.has_grace ≡ true → CallStep c (record c { caller = in_grace }, false)
  deadline_without_grace : c.caller ≡ waiting → c.has_grace ≡ false → CallStep c (time_out c)
  result_in_grace :
      c.caller ≡ in_grace
      → c.pending ≡ true
      → CallStep c (settle (record c { caller = returned; pending = false }))
  grace_lapses : c.caller ≡ in_grace → CallStep c (time_out c)
  cleanup_receives :
      c.cleanup ≡ awaiting
      → c.pending ≡ true
      → CallStep c (record c { cleanup = abandoning; pending = false }, false)
  abandon_returns : c.cleanup ≡ abandoning → CallStep c (settle (record c { cleanup = cleaned }))

-- The bridge: the counter of `inFlight`, the pumps that run, and every call that was made.
pub record Bridge : Type 0 where
  pub in_flight : ℕ
  pub pumps : ℕ
  pub calls : List Call

-- `Done` on the counter; Go panics at 0, where this stays at 0.
abbrev pub done : Bool → ℕ → ℕ
done released n = if released then n - 1 else n

-- The goroutine of a pump is counted before it starts, and calls `Done` when it returns.
abbrev pub start_pump : Bridge → Bridge
start_pump b = record b { in_flight = suc b.in_flight; pumps = suc b.pumps }

abbrev pub end_pump : Bridge → Bridge
end_pump b = record b { in_flight = done true b.in_flight; pumps = b.pumps - 1 }

-- A step of the bridge: a call begins, with `b.inFlight.Add(1)`; one of the calls does a step; a pump is
-- started, with `m.bridge.inFlight.Add(1)`; or one that runs returns, with the deferred `Done`.
pub data BridgeStep : Bridge → Bridge → Type 0 where
  begins :
      (b : Bridge) (has_grace has_abandon : Bool)
      → BridgeStep b (record {
        in_flight = suc b.in_flight;
        pumps = b.pumps;
        calls = begin_call has_grace has_abandon ∷ b.calls;
      })
  moves :
      (n k : ℕ) (before after : List Call) (c : Call) (p : Call × Bool)
      → CallStep c p
      → BridgeStep
          (record { in_flight = n; pumps = k; calls = before ++ c ∷ after })
          (record { in_flight = done p.1 n; pumps = k; calls = before ++ p.0 ∷ after })
  pump_starts : (b : Bridge) → BridgeStep b (start_pump b)
  pump_returns : (b : Bridge) → 0 < b.pumps → BridgeStep b (end_pump b)

-- The bridges that can be reached from a new one.
pub data BridgeReach : Bridge → Type 0 where
  new_bridge : BridgeReach (record { in_flight = 0; pumps = 0; calls = [] })
  then_step : (b b' : Bridge) → BridgeReach b → BridgeStep b b' → BridgeReach b'

-- Whether `WaitForInFlight` can return true: the counter is 0.
abbrev pub wait_for_in_flight : Bridge → Bool
wait_for_in_flight b = b.in_flight == 0
