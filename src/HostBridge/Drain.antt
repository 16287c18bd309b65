-- ===== src/HostBridge/Drain.antt =====
-- Every call of internal/plugin/hostbridge.go lets go of the counter once the host returns.
use opencode_go_cliproxyapi.Prelude.{
  Bool, Bool-cases, ap, arith, false, inl, inr, not, refl, true, ◌&&◌, ◌||◌, ◌∙◌, ◌≡◌, ◌⊎◌,
}
use opencode_go_cliproxyapi.HostBridge.{
  Call, CallStep, Callback, Caller, Cleanup, abandon_returns, abandoning, awaiting, begin_call,
  callback_exits, cleaned, cleanup_receives, deadline_with_grace, deadline_without_grace,
  exit_callback, gone, grace_lapses, host_returns, in_grace, inside_host, maybe_release, no_cleanup,
  result_in_grace, result_in_time, returned, sent, settle, time_out, waiting,
}
use opencode_go_cliproxyapi.HostBridge.Account.{
  IsAccounted, is_busy, is_gone, is_over, is_returned, is_started, step-Keeps, time_out_cleaned,
  time_out_settled,
}

abbrev pub is_inside : Callback → Bool
is_inside inside_host = true
is_inside sent = false
is_inside gone = false

abbrev is_awaiting : Cleanup → Bool
is_awaiting no_cleanup = false
is_awaiting awaiting = true
is_awaiting abandoning = false
is_awaiting cleaned = false

awaiting-IsStarted : (k : Cleanup) → (is_awaiting k && not (is_started k)) ≡ false
awaiting-IsStarted no_cleanup = refl
awaiting-IsStarted awaiting = refl
awaiting-IsStarted abandoning = refl
awaiting-IsStarted cleaned = refl

-- A goroutine that still waits for the result has it, or the callback is still to send it.
abbrev IsFed : Call → Type 0
IsFed c =
    ((not (is_returned c.caller) || is_awaiting c.cleanup)
      && (not (is_inside c.callback) && not c.pending))
    ≡ false

-- The calls that can be reached from the beginning of one, and its steps in a row.
pub data CallReach : Call → Type 0 where
  begun : (has_grace has_abandon : Bool) → CallReach (begin_call has_grace has_abandon)
  stepped : (c : Call) (p : Call × Bool) → CallReach c → CallStep c p → CallReach p.0

pub data CallSteps : Call → Call → Type 0 where
  at_rest : (c : Call) → CallSteps c c
  and_then : (c c' : Call) (p : Call × Bool) → CallStep c p → CallSteps p.0 c' → CallSteps c c'

maybe_release-IsFed : (c : Call) → IsFed c → IsFed (maybe_release c).0
unfolding maybe_release
maybe_release-IsFed c h = elim (Bool-cases (c.exited && (c.drained && not c.let_go))) [
  | inl e ↦ rw e h
  | inr e ↦ rw e h
]

return-IsFed :
    (c : Call) (pending : Bool)
    → is_returned c.caller ≡ false
    → IsAccounted c
    → IsFed (settle (record c { caller = returned; pending = pending })).0
unfolding settle
return-IsFed c pending at h =
    maybe_release-IsFed (record c { caller = returned; pending = pending; drained = true })
      (ground (arith, h.cleans, at, awaiting-IsStarted c.cleanup))

time_out-IsFed :
    (c : Call) → is_returned c.caller ≡ false → IsAccounted c → IsFed c → IsFed (time_out c).0
time_out-IsFed c at h fed = elim (Bool-cases c.has_abandon) [
  | inl e ↦ rw (time_out_cleaned c e) (ground (arith, fed, at))
  | inr e ↦ rw (time_out_settled c e) (return-IsFed c c.pending at h)
]

step-IsFed : (c : Call) (p : Call × Bool) → CallStep c p → IsAccounted c → IsFed c → IsFed p.0
unfolding exit_callback settle
step-IsFed c p (host_returns at) h fed = ground arith
step-IsFed c p (callback_exits at) h fed =
    maybe_release-IsFed (record c { callback = gone; exited = true })
      (ground (arith, fed, ap is_inside at))
step-IsFed c p (result_in_time at full) h fed = return-IsFed c false (ap is_returned at) h
step-IsFed c p (deadline_with_grace at grace) h fed = ground (arith, fed, ap is_returned at)
step-IsFed c p (deadline_without_grace at grace) h fed = time_out-IsFed c (ap is_returned at) h fed
step-IsFed c p (result_in_grace at full) h fed = return-IsFed c false (ap is_returned at) h
step-IsFed c p (grace_lapses at) h fed = time_out-IsFed c (ap is_returned at) h fed
step-IsFed c p (cleanup_receives at full) h fed = ground (arith, h.cleans, ap is_started at)
step-IsFed c p (abandon_returns at) h fed =
    maybe_release-IsFed (record c { cleanup = cleaned; drained = true })
      (ground (arith, h.cleans, ap is_started at))

reach-both : (c : Call) → CallReach c → IsAccounted c × IsFed c
reach-both c (begun g a) =
    (record { exits = refl; drains = refl; cleans = refl; lets_go = refl }, refl)
reach-both c (stepped c0 p reach step) =
    let (h, fed) = reach-both c0 reach in ((step-Keeps c0 p step h).0, step-IsFed c0 p step h fed)

-- A call with what is left of it.
abbrev Ends : Call → Type 0
Ends c = (c' : Call) × CallSteps c c' × (c'.let_go ≡ true)

one_more : (c : Call) (p : Call × Bool) → CallStep c p → Ends p.0 → Ends c
one_more c p step (c', steps, e) = (c', and_then c c' p step steps, e)

over-Ends : (c : Call) → CallReach c → is_over c ≡ true → Ends c
over-Ends c reach over =
    let h = (reach-both c reach).0 in
    (c, at_rest c, ground (arith, h.lets_go, h.exits, h.drains, over))

maybe_release-is_over : (c : Call) → is_over (maybe_release c).0 ≡ is_over c
unfolding maybe_release
maybe_release-is_over c = elim (Bool-cases (c.exited && (c.drained && not c.let_go))) [
  | inl e ↦ rw e refl
  | inr e ↦ rw e refl
]

gone_outside : (k : Callback) → (is_gone k && is_inside k) ≡ false
gone_outside inside_host = refl
gone_outside sent = refl
gone_outside gone = refl

started-is_busy : (k : Cleanup) → (not (is_started k) && is_busy k) ≡ false
started-is_busy no_cleanup = refl
started-is_busy awaiting = refl
started-is_busy abandoning = refl
started-is_busy cleaned = refl

-- The step after which a call is over.
last_step : (c : Call) (p : Call × Bool) → CallReach c → CallStep c p → is_over p.0 ≡ true → Ends c
last_step c p reach step over = one_more c p step (over-Ends p.0 (stepped c p reach step) over)

return-is_over :
    (c : Call) (pending : Bool)
    → CallReach c
    → is_gone c.callback ≡ true
    → is_returned c.caller ≡ false
    → is_over (settle (record c { caller = returned; pending = pending })).0 ≡ true
unfolding settle
return-is_over c pending reach g at =
    let h = (reach-both c reach).0 in
    maybe_release-is_over (record c { caller = returned; pending = pending; drained = true })
    ∙ ground (arith, h.cleans, at, g, started-is_busy c.cleanup)

abandoning-Ends :
    (c : Call) → CallReach c → is_gone c.callback ≡ true → c.cleanup ≡ abandoning → Ends c
unfolding settle
abandoning-Ends c reach g at =
    let h = (reach-both c reach).0 in
    last_step c (settle (record c { cleanup = cleaned })) reach (abandon_returns at) (
      maybe_release-is_over (record c { cleanup = cleaned; drained = true })
      ∙ ground (arith, h.cleans, g, ap is_started at))

Caller-cases : (k : Caller) → (k ≡ waiting) ⊎ ((k ≡ in_grace) ⊎ (k ≡ returned))
Caller-cases waiting = inl refl
Caller-cases in_grace = inr (inl refl)
Caller-cases returned = inr (inr refl)

Cleanup-cases : (k : Cleanup) → (is_busy k ≡ false) ⊎ ((k ≡ awaiting) ⊎ (k ≡ abandoning))
Cleanup-cases no_cleanup = inl refl
Cleanup-cases awaiting = inr (inl refl)
Cleanup-cases abandoning = inr (inr refl)
Cleanup-cases cleaned = inl refl

Callback-cases : (k : Callback) → (k ≡ inside_host) ⊎ ((k ≡ sent) ⊎ (k ≡ gone))
Callback-cases inside_host = inl refl
Callback-cases sent = inr (inl refl)
Callback-cases gone = inr (inr refl)

gone-Ends : (c : Call) → CallReach c → is_gone c.callback ≡ true → Ends c
gone-Ends c reach g =
    let fed = (reach-both c reach).1 in
    let outside = gone_outside c.callback in
    elim (Caller-cases c.caller) [
      | inl at ↦
          last_step c _ reach
            (result_in_time at (ground (arith, fed, outside, g, ap is_returned at)))
            (return-is_over c false reach g (ap is_returned at))
      | inr (inl at) ↦
          last_step c _ reach
            (result_in_grace at (ground (arith, fed, outside, g, ap is_returned at)))
            (return-is_over c false reach g (ap is_returned at))
      | inr (inr at) ↦ elim (Cleanup-cases c.cleanup) [
        | inl idle ↦ over-Ends c reach (ground (arith, g, idle, ap is_returned at))
        | inr (inl due) ↦
            let p : Call × Bool = (record c { cleanup = abandoning; pending = false }, false) in
            let step : CallStep c p =
              cleanup_receives due (ground (arith, fed, outside, g, ap is_awaiting due)) in
            one_more c p step (abandoning-Ends p.0 (stepped c p reach step) g refl)
        | inr (inr busy) ↦ abandoning-Ends c reach g busy
      ]
    ]

exit_callback-gone : (c : Call) → (exit_callback c).0.callback ≡ gone
unfolding exit_callback maybe_release
exit_callback-gone c = ground arith

sent-Ends : (c : Call) → CallReach c → c.callback ≡ sent → Ends c
sent-Ends c reach at = one_more c (exit_callback c) (callback_exits at) (
    gone-Ends (exit_callback c).0 (stepped c _ reach (callback_exits at))
      (ap is_gone (exit_callback-gone c)))

-- Wherever the goroutines of a call are, and however late the host returns, the call can always
-- run to where it has let go of the counter: no goroutine waits for a result that never comes.
pub call-Ends : (c : Call) → CallReach c → (c' : Call) × CallSteps c c' × (c'.let_go ≡ true)
call-Ends c reach = elim (Callback-cases c.callback) [
  | inl at ↦
      let p : Call × Bool = (record c { callback = sent; pending = true }, false) in
      one_more c p (host_returns at) (sent-Ends p.0 (stepped c p reach (host_returns at)) refl)
  | inr (inl at) ↦ sent-Ends c reach at
  | inr (inr at) ↦ gone-Ends c reach (ap is_gone at)
]
