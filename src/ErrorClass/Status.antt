-- ===== src/ErrorClass/Status.antt =====
-- What internal/errclass/errclass.go promises of a classified status, and of what the host is told.
use opencode_go_cliproxyapi.Prelude.{arith, false, refl, true, ℕ, ◌↔◌, ◌≡◌, ◌≢◌, ◌≤◌, ◌⊎◌}
use opencode_go_cliproxyapi.Prelude.Text.{Text, codes, contains, to_lower}
use opencode_go_cliproxyapi.Redact.{redact}
use opencode_go_cliproxyapi.ErrorClass.{
  ClassifiedError, class_code, from_status, quota, request_error, to_envelope_error, translation,
  unsupported,
}

-- The statuses that are retried, and those that a quota message reclassifies.
abbrev pub IsTransient : ℕ → Type 0
IsTransient status =
    (status ≡ 401) ⊎ ((status ≡ 402) ⊎ ((status ≡ 403) ⊎ ((status ≡ 429) ⊎ (500 ≤ status))))

abbrev pub MayBeQuota : ℕ → Type 0
MayBeQuota status = (status ≡ 402) ⊎ ((status ≡ 403) ⊎ (status ≡ 429))

-- `FromStatus` marks an error retryable exactly for the statuses 401, 402, 403, 429 and those from
-- 500 on, whatever the message says.
pub from_status-retryable :
    (status : ℕ) (message : Text)
    → ((from_status status message).retryable ≡ true) ↔ IsTransient status
unfolding from_status
from_status-retryable status message = (λ h. ground arith, λ h. ground arith)

-- A quota message moves the statuses 402, 403 and 429 into the quota class, and no other status is
-- ever in it.
pub from_status-quota :
    (status : ℕ) (message : Text)
    → ((from_status status message).class ≡ quota)
      ↔ ((contains (to_lower (redact message)) (codes "quota") ≡ true) × MayBeQuota status)
unfolding from_status
from_status-quota status message = (λ h. ground arith, λ h. ground arith)

-- What the host is told of a classified status: the status itself, the code of its class, whether
-- to retry, and a message that has been redacted when it was classified and again here.
pub from_status-envelope :
    (status : ℕ) (message : Text)
    → let wire = to_envelope_error (from_status status message) in
      (wire.http_status ≡ status)
      × (wire.message ≡ redact (redact message))
      × (wire.code ≡ class_code (from_status status message).class)
      × (wire.retryable ≡ (from_status status message).retryable)
unfolding from_status to_envelope_error
from_status-envelope status message = (ground arith, ground arith, refl, refl)

-- A request that the plugin itself refuses, with no upstream status, is told to the host as a 400
-- that is not retried when it is unsupported or untranslatable, and as it is otherwise; an error that
-- has an upstream status is left alone.
pub request_error-cases :
    (e : ClassifiedError)
    → ((request_error e ≡ e)
        × ((e.status_code ≢ 0) ⊎ ((e.class ≢ unsupported) × (e.class ≢ translation))))
      ⊎ (((request_error e).status_code ≡ 400)
          × ((request_error e).retryable ≡ false)
          × (e.status_code ≡ 0)
          × ((e.class ≡ unsupported) ⊎ (e.class ≡ translation)))
unfolding request_error
request_error-cases e = ground arith
