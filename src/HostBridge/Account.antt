-- ===== src/HostBridge/Account.antt =====
-- The counter of calls in flight of internal/plugin/hostbridge.go against the calls themselves.
use opencode_go_cliproxyapi.Prelude.{
  Bool, Bool-cases, ap, arith, false, if◌then◌else◌, inl, inr, not, refl, true, ◌&&◌, ◌||◌, ◌∙◌,
  ◌≡◌,
}
use opencode_go_cliproxyapi.HostBridge.{
  Call, CallStep, Callback, Caller, Cleanup, abandon_returns, abandoning, awaiting, callback_exits,
  cleaned, cleanup_receives, deadline_with_grace, deadline_without_grace, exit_callback, gone,
  grace_lapses, host_returns, in_grace, inside_host, maybe_release, no_cleanup, result_in_grace,
  result_in_time, returned, sent, settle, time_out, waiting,
}

abbrev pub is_gone : Callback → Bool
is_gone inside_host = false
is_gone sent = false
is_gone gone = true

abbrev pub is_returned : Caller → Bool
is_returned waiting = false
is_returned in_grace = false
is_returned returned = true

-- A cleanup that still has something to do.
abbrev pub is_busy : Cleanup → Bool
is_busy no_cleanup = false
is_busy awaiting = true
is_busy abandoning = true
is_busy cleaned = false

abbrev pub is_started : Cleanup → Bool
is_started no_cleanup = false
is_started awaiting = true
is_started abandoning = true
is_started cleaned = true

-- No goroutine of the call is left.
abbrev pub is_over : Call → Bool
is_over c = is_gone c.callback && (is_returned c.caller && not (is_busy c.cleanup))

-- The flags say where the goroutines are, and a call has let go exactly when it is over.
pub record IsAccounted (c : Call) : Type 0 where
  pub exits : c.exited ≡ is_gone c.callback
  pub drains : c.drained ≡ (is_returned c.caller && not (is_busy c.cleanup))
  pub cleans : (not (is_started c.cleanup) || is_returned c.caller) ≡ true
  pub lets_go : c.let_go ≡ (c.exited && c.drained)

-- A step lets go at most once: when it calls `Done`, the call had not let go before.
abbrev pub IsSpent : Call → Call × Bool → Type 0
IsSpent c p = (p.0.let_go ≡ (c.let_go || p.1)) × ((c.let_go && p.1) ≡ false)

abbrev pub Keeps : Call → Call × Bool → Type 0
Keeps c p = IsAccounted p.0 × IsSpent c p

maybe_release-Keeps :
    (old c : Call)
    → c.exited ≡ is_gone c.callback
    → c.drained ≡ (is_returned c.caller && not (is_busy c.cleanup))
    → (not (is_started c.cleanup) || is_returned c.caller) ≡ true
    → c.let_go ≡ old.let_go
    → (c.let_go && not (c.exited && c.drained)) ≡ false
    → Keeps old (maybe_release c)
unfolding maybe_release
maybe_release-Keeps old c h1 h2 h3 h4 h5 =
    elim (Bool-cases (c.exited && (c.drained && not c.let_go))) [
      | inl e ↦ rw e (
        record { exits = h1; drains = h2; cleans = h3; lets_go = ground arith },
        (ground arith, ground arith),
      )
      | inr e ↦ rw e (
        record { exits = h1; drains = h2; cleans = h3; lets_go = ground arith },
        (ground arith, ground arith),
      )
    ]

settle-Keeps :
    (old c : Call)
    → c.exited ≡ is_gone c.callback
    → (is_returned c.caller && not (is_busy c.cleanup)) ≡ true
    → c.let_go ≡ old.let_go
    → (c.let_go && not c.exited) ≡ false
    → Keeps old (settle c)
unfolding settle
settle-Keeps old c h1 h2 h4 h5 =
    maybe_release-Keeps old (record c { drained = true }) h1 (ground arith) (ground arith) h4
      (ground arith)

-- Receiving the result, or giving up with no cleanup, from where the caller has not returned.
return-Keeps :
    (c : Call) (pending : Bool)
    → is_returned c.caller ≡ false
    → IsAccounted c
    → Keeps c (settle (record c { caller = returned; pending = pending }))
return-Keeps c pending at h =
    settle-Keeps c (record c { caller = returned; pending = pending }) h.exits (ground arith) refl
      (ground arith)

pub time_out_cleaned :
    (c : Call)
    → c.has_abandon ≡ true
    → time_out c ≡ (record c { caller = returned; cleanup = awaiting }, false)
unfolding time_out
time_out_cleaned c h =
    ap
      (λ (b : Bool).
        if b
        then (record c { caller = returned; cleanup = awaiting }, false)
        else settle (record c { caller = returned }))
      h

pub time_out_settled :
    (c : Call) → c.has_abandon ≡ false → time_out c ≡ settle (record c { caller = returned })
unfolding time_out
time_out_settled c h =
    ap
      (λ (b : Bool).
        if b
        then (record c { caller = returned; cleanup = awaiting }, false)
        else settle (record c { caller = returned }))
      h

time_out-Keeps : (c : Call) → is_returned c.caller ≡ false → IsAccounted c → Keeps c (time_out c)
time_out-Keeps c at h = elim (Bool-cases c.has_abandon) [
  | inl e ↦ rw (time_out_cleaned c e) (
    record { exits = h.exits; drains = ground arith; cleans = refl; lets_go = h.lets_go },
    (ground arith, ground arith),
  )
  | inr e ↦ rw (time_out_settled c e) (return-Keeps c c.pending at h)
]

exit_callback-Keeps :
    (c : Call) → is_gone c.callback ≡ false → IsAccounted c → Keeps c (exit_callback c)
unfolding exit_callback
exit_callback-Keeps c at h =
    maybe_release-Keeps c (record c { callback = gone; exited = true }) refl h.drains h.cleans refl
      (ground arith)

pub step-Keeps : (c : Call) (p : Call × Bool) → CallStep c p → IsAccounted c → Keeps c p
step-Keeps c p (host_returns at) h = (
  record {
    exits = h.exits ∙ ap is_gone at;
    drains = h.drains;
    cleans = h.cleans;
    lets_go = h.lets_go;
  },
  (ground arith, ground arith),
)
step-Keeps c p (callback_exits at) h = exit_callback-Keeps c (ap is_gone at) h
step-Keeps c p (result_in_time at full) h = return-Keeps c false (ap is_returned at) h
step-Keeps c p (deadline_with_grace at grace) h = (
  record {
    exits = h.exits;
    drains = ground (arith, h.drains, ap is_returned at);
    cleans = ground (arith, h.cleans, ap is_returned at);
    lets_go = h.lets_go;
  },
  (ground arith, ground arith),
)
step-Keeps c p (deadline_without_grace at grace) h = time_out-Keeps c (ap is_returned at) h
step-Keeps c p (result_in_grace at full) h = return-Keeps c false (ap is_returned at) h
step-Keeps c p (grace_lapses at) h = time_out-Keeps c (ap is_returned at) h
step-Keeps c p (cleanup_receives at full) h = (
  record {
    exits = h.exits;
    drains = ground (arith, h.drains, ap is_busy at);
    cleans = ground (arith, h.cleans, ap is_started at);
    lets_go = h.lets_go;
  },
  (ground arith, ground arith),
)
step-Keeps c p (abandon_returns at) h =
    settle-Keeps c (record c { cleanup = cleaned }) h.exits
      (ground (arith, h.cleans, ap is_started at)) refl
      (ground (arith, h.lets_go, h.drains, ap is_busy at))
