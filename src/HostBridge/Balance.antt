-- ===== src/HostBridge/Balance.antt =====
-- Shutdown against the calls in flight, in internal/plugin/hostbridge.go: `WaitForInFlight` returns true
-- only when the counter is 0.
use opencode_go_cliproxyapi.Prelude.{
  All, All-append, All-append_left, All-append_right, Bool, List, [], ap, arith, if◌then◌else◌,
  refl, true, ℕ, ◌&&◌, ◌++◌, ◌+◌, ◌<◌, ◌↔◌, ◌∙◌, ◌∷◌, ◌≡◌,
}
use opencode_go_cliproxyapi.HostBridge.{
  Bridge, BridgeReach, Call, CallStep, begin_call, begins, done, moves, new_bridge, pump_returns,
  pump_starts, then_step, wait_for_in_flight,
}
use opencode_go_cliproxyapi.HostBridge.Account.{IsAccounted, IsSpent, is_gone, is_over, step-Keeps}

-- A call that has not let go counts one.
abbrev held : Call → ℕ
held c = if c.let_go then 0 else 1

abbrev pub holding : List Call → ℕ
holding [] = 0
holding (c ∷ cs) = held c + holding cs

holding-append : (xs ys : List Call) → holding (xs ++ ys) ≡ holding xs + holding ys
holding-append [] ys = omega arith
holding-append (x ∷ xs) ys = omega (arith, holding-append xs ys)

record IsBalanced (b : Bridge) : Type 0 where
  accounted : All IsAccounted b.calls
  balanced : b.in_flight ≡ b.pumps + holding b.calls

All-replace :
    (xs ys : List Call) (c c' : Call)
    → IsAccounted c'
    → All IsAccounted (xs ++ c ∷ ys)
    → All IsAccounted (xs ++ c' ∷ ys)
All-replace xs ys c c' h all =
    All-append IsAccounted xs (c' ∷ ys) (All-append_left IsAccounted xs (c ∷ ys) all)
      (h, (All-append_right IsAccounted xs (c ∷ ys) all).1)

held-IsSpent :
    (c : Call) (p : Call × Bool) (n k : ℕ)
    → IsSpent c p
    → n ≡ k + held c
    → done p.1 n ≡ k + held p.0
held-IsSpent c p n k h e = ground (arith, h.0, h.1)

move-IsBalanced :
    (n k : ℕ) (xs ys : List Call) (c : Call) (p : Call × Bool)
    → CallStep c p
    → IsBalanced (record { in_flight = n; pumps = k; calls = xs ++ c ∷ ys })
    → IsBalanced (record { in_flight = done p.1 n; pumps = k; calls = xs ++ p.0 ∷ ys })
move-IsBalanced n k xs ys c p step h =
    let accounts = (All-append_right IsAccounted xs (c ∷ ys) h.accounted).0 in
    let (kept, spent) = step-Keeps c p step accounts in
    let one =
      held-IsSpent c p n (k + (holding xs + holding ys)) spent
        (omega (arith, h.balanced, holding-append xs (c ∷ ys))) in
    record {
      accounted = All-replace xs ys c p.0 kept h.accounted;
      balanced = omega (arith, one, holding-append xs (p.0 ∷ ys));
    }

begin_call-IsAccounted : (g a : Bool) → IsAccounted (begin_call g a)
begin_call-IsAccounted g a = record { exits = refl; drains = refl; cleans = refl; lets_go = refl }

reach-IsBalanced : (b : Bridge) → BridgeReach b → IsBalanced b
reach-IsBalanced b new_bridge = record { accounted = tt; balanced = refl }
reach-IsBalanced b (then_step b1 _ reach (begins _ g a)) =
    let h = reach-IsBalanced b1 reach in
    record {
      accounted = (begin_call-IsAccounted g a, h.accounted);
      balanced = omega (arith, h.balanced);
    }
reach-IsBalanced b (then_step b1 _ reach (moves n k xs ys c p step)) =
    move-IsBalanced n k xs ys c p step (reach-IsBalanced _ reach)
reach-IsBalanced b (then_step b1 _ reach (pump_starts _)) =
    let h = reach-IsBalanced b1 reach in
    record { accounted = h.accounted; balanced = omega (arith, h.balanced) }
reach-IsBalanced b (then_step b1 _ reach (pump_returns _ runs)) =
    let h = reach-IsBalanced b1 reach in
    record { accounted = h.accounted; balanced = omega (arith, h.balanced, runs) }

let_go-is_over : (c : Call) → IsAccounted c → c.let_go ≡ is_over c
let_go-is_over c h =
    h.lets_go
    ∙ ap (λ (b : Bool). b && c.drained) h.exits
    ∙ ap (λ (b : Bool). is_gone c.callback && b) h.drains

holding_zero :
    (cs : List Call) → All IsAccounted cs → (holding cs ≡ 0) ↔ All (λ c. is_over c ≡ true) cs
holding_zero [] h = (λ e. tt, λ a. refl)
holding_zero (c ∷ cs) h =
    let (sound, complete) = holding_zero cs h.1 in
    let same = let_go-is_over c h.0 in
    (
      λ e. (ground (arith, e, same), sound (ground (arith, e))),
      λ a. ground (arith, complete a.1, a.0, same),
    )

-- Whatever calls were made and pumps started, and in whatever order their goroutines ran,
-- `WaitForInFlight` can return true exactly when no pump of a stream runs and no goroutine of any call is
-- left: every callback has come back from the host, every caller has returned, and no cleanup of a late
-- result is still to be done.
pub wait-is_over :
    (b : Bridge)
    → BridgeReach b
    → (wait_for_in_flight b ≡ true) ↔ ((b.pumps ≡ 0) × All (λ c. is_over c ≡ true) b.calls)
wait-is_over b reach =
    let h = reach-IsBalanced b reach in
    let (sound, complete) = holding_zero b.calls h.accounted in
    let zero_iff = h.balanced in
    (
      λ w. (ground (arith, w, zero_iff), sound (ground (arith, w, zero_iff))),
      λ a. ground (arith, a.0, complete a.1, zero_iff),
    )

-- The next step of a bridge can be one that calls `Done`: a call lets go, or a pump returns.
pub data MayRelease : Bridge → Type 0 where
  call_lets_go :
      (n k : ℕ) (before after : List Call) (c : Call) (p : Call × Bool)
      → CallStep c p
      → p.1 ≡ true
      → MayRelease (record { in_flight = n; pumps = k; calls = before ++ c ∷ after })
  pump_lets_go : (b : Bridge) → 0 < b.pumps → MayRelease b

-- `Done` is never called on a counter at 0, where Go would panic: a call that lets go and a pump that
-- returns are still counted.
pub done_positive : (b : Bridge) → BridgeReach b → MayRelease b → 0 < b.in_flight
done_positive _ reach (call_lets_go n k xs ys c p step h) =
    let b = reach-IsBalanced _ reach in
    let accounts = (All-append_right IsAccounted xs (c ∷ ys) b.accounted).0 in
    let spent = (step-Keeps c p step accounts).1 in
    ground (arith, b.balanced, holding-append xs (c ∷ ys), spent.1, h)
done_positive b reach (pump_lets_go _ runs) =
    omega (arith, (reach-IsBalanced b reach).balanced, runs)
