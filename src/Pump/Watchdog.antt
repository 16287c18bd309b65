-- ===== src/Pump/Watchdog.antt =====
-- The calls of `pumpStream` of internal/plugin/executor.go, and of its watchdog among them.
use opencode_go_cliproxyapi.Prelude.{
  List, Option, [], ap, if◌then◌else◌, is_some, map, none, refl, some, suc, zero, ℕ, ◌++◌, ◌∙◌, ◌∷◌,
  ◌≡◌, ◌⊎◌,
}
use opencode_go_cliproxyapi.Prelude.Text.{Text}
use opencode_go_cliproxyapi.Redact.{redact}
use opencode_go_cliproxyapi.Pump.{
  Effect, closed_by_watchdog, downstream_closed, emitted, insert_close, upstream_closed,
  with_watchdog,
}

-- The calls that the pump itself makes.
abbrev pub own_calls : List Effect → List Effect
own_calls [] = []
own_calls (emitted e ∷ t) = emitted e ∷ own_calls t
own_calls (upstream_closed ∷ t) = upstream_closed ∷ own_calls t
own_calls (closed_by_watchdog ∷ t) = own_calls t
own_calls (downstream_closed msg ∷ t) = downstream_closed msg ∷ own_calls t

-- How often the upstream stream is closed, by either.
abbrev pub upstream_closes : List Effect → ℕ
upstream_closes [] = 0
upstream_closes (emitted e ∷ t) = upstream_closes t
upstream_closes (upstream_closed ∷ t) = suc (upstream_closes t)
upstream_closes (closed_by_watchdog ∷ t) = suc (upstream_closes t)
upstream_closes (downstream_closed msg ∷ t) = upstream_closes t

own_calls-insert_close : (n : ℕ) (t : List Effect) → own_calls (insert_close n t) ≡ own_calls t
unfolding insert_close
own_calls-insert_close zero t = refl
own_calls-insert_close (suc n) [] = refl
own_calls-insert_close (suc n) (emitted e ∷ t) =
    ap (λ (s : List Effect). emitted e ∷ s) (own_calls-insert_close n t)
own_calls-insert_close (suc n) (upstream_closed ∷ t) =
    ap (λ (s : List Effect). upstream_closed ∷ s) (own_calls-insert_close n t)
own_calls-insert_close (suc n) (closed_by_watchdog ∷ t) = own_calls-insert_close n t
own_calls-insert_close (suc n) (downstream_closed msg ∷ t) =
    ap (λ (s : List Effect). downstream_closed msg ∷ s) (own_calls-insert_close n t)

upstream_closes-insert_close :
    (n : ℕ) (t : List Effect) → upstream_closes (insert_close n t) ≡ suc (upstream_closes t)
unfolding insert_close
upstream_closes-insert_close zero t = refl
upstream_closes-insert_close (suc n) [] = refl
upstream_closes-insert_close (suc n) (emitted e ∷ t) = upstream_closes-insert_close n t
upstream_closes-insert_close (suc n) (upstream_closed ∷ t) =
    ap suc (upstream_closes-insert_close n t)
upstream_closes-insert_close (suc n) (closed_by_watchdog ∷ t) =
    ap suc (upstream_closes-insert_close n t)
upstream_closes-insert_close (suc n) (downstream_closed msg ∷ t) = upstream_closes-insert_close n t

-- The emits and the two closes of a pump.
abbrev pub pump_calls : List Text → Text → List Effect
pump_calls events message = map emitted events ++ upstream_closed ∷ downstream_closed message ∷ []

own_calls-pump_calls :
    (events : List Text) (message : Text)
    → own_calls (pump_calls events message) ≡ pump_calls events message
own_calls-pump_calls [] message = refl
own_calls-pump_calls (e ∷ es) message =
    ap (λ (s : List Effect). emitted e ∷ s) (own_calls-pump_calls es message)

upstream_closes-pump_calls :
    (events : List Text) (message : Text) → upstream_closes (pump_calls events message) ≡ 1
upstream_closes-pump_calls [] message = refl
upstream_closes-pump_calls (e ∷ es) message = upstream_closes-pump_calls es message

-- Of its own calls, the pump makes the emits first, closes the upstream stream then, and the downstream
-- stream last, with no message or a redacted one. The upstream stream is closed twice where the watchdog
-- fires, and else once.
pub record IsClosed (watch : Option ℕ) (trace : List Effect) : Type 0 where
  pub events : List Text
  pub message : Text
  pub own : own_calls trace ≡ pump_calls events message
  pub closes : upstream_closes trace ≡ (if is_some watch then 2 else 1)
  pub discreet : (message ≡ []) ⊎ ((raw : Text) × (message ≡ redact raw))

pub with_watchdog-IsClosed :
    (watch : Option ℕ) (events : List Text) (message : Text)
    → (message ≡ []) ⊎ ((raw : Text) × (message ≡ redact raw))
    → IsClosed watch (with_watchdog watch (pump_calls events message))
unfolding with_watchdog
with_watchdog-IsClosed none events message d = record {
  events = events;
  message = message;
  own = own_calls-pump_calls events message;
  closes = upstream_closes-pump_calls events message;
  discreet = d;
}
with_watchdog-IsClosed (some n) events message d =
    let calls = pump_calls events message in
    record {
      events = events;
      message = message;
      own = own_calls-insert_close n calls ∙ own_calls-pump_calls events message;
      closes =
          upstream_closes-insert_close n calls ∙ ap suc (upstream_closes-pump_calls events message);
      discreet = d;
    }
