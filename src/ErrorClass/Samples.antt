-- ===== src/ErrorClass/Samples.antt =====
-- Runs of internal/errclass/errclass.go, and theorems at concrete inputs.
use opencode_go_cliproxyapi.Prelude.{[], false, refl, true, ◌++◌, ◌↔◌, ◌∷◌, ◌≡◌, ◌≢◌, ◌⊎◌}
use opencode_go_cliproxyapi.Prelude.Text.{Text, codes, contains, to_lower}
use opencode_go_cliproxyapi.Redact.{
  bearer_redacted, cut_prefix_fold, find_api_key, find_bearer, find_query_key, redact, token_length,
}
use opencode_go_cliproxyapi.Redact.Doubled.{NoMatch, redact-doubled}
use opencode_go_cliproxyapi.Redact.Bearer.{redact_bearer, redact_bearer_lem}
use opencode_go_cliproxyapi.ErrorClass.{
  ClassifiedError, class_code, from_status, quota, request_error, to_envelope_error, translation,
  unsupported,
}
use opencode_go_cliproxyapi.ErrorClass.Status.{
  IsTransient, MayBeQuota, from_status-envelope, from_status-quota, from_status-retryable,
  request_error-cases,
}

redact_run :
    redact (codes "auth: Bearer sk-12, x-api-key: abcd12345; ?token=zz9&k=1")
    ≡ codes "auth: Bearer [redacted], x-api-key: [redacted]; ?token=[redacted]&k=1"
unfolding redact token_length
redact_run = refl

-- The whole of `redact` leaves the secret behind a doubled scheme.
doubled_run : redact (codes "Bearer Bearer sk-1") ≡ codes "Bearer [redacted] sk-1"
unfolding redact token_length
doubled_run = refl

quota_run : (from_status 403 (codes "Quota exceeded")).class ≡ quota
unfolding from_status redact token_length contains to_lower
quota_run = refl

redact_bearer_example :
    redact_bearer (codes "BEARER" ++ (codes " " ++ (codes "sk-12" ++ codes ", x")))
    ≡ bearer_redacted ++ redact_bearer (codes ", x")
redact_bearer_example =
    redact_bearer_lem (codes " ") b's' (codes "k-12") (codes ", x") (refl, tt)
      (refl, (refl, (refl, (refl, (refl, tt))))) refl (codes "BEARER") refl

abbrev secret : Text
secret = codes "sk-1"

no_bearer : NoMatch find_bearer (32 ∷ secret)
unfolding find_bearer cut_prefix_fold
no_bearer = (refl, (refl, (refl, (refl, (refl, tt)))))

no_key : NoMatch find_api_key (32 ∷ secret)
unfolding find_api_key cut_prefix_fold
no_key = (refl, (refl, (refl, (refl, (refl, tt)))))

no_query : NoMatch find_query_key (32 ∷ secret)
unfolding find_query_key
no_query = (refl, (refl, (refl, (refl, (refl, tt)))))

redact-doubled_example :
    redact (codes "Bearer" ++ (codes " " ++ (codes "Bearer" ++ 32 ∷ secret)))
    ≡ bearer_redacted ++ 32 ∷ secret
redact-doubled_example = redact-doubled secret no_bearer no_key no_query

from_status_retryable_example :
    ((from_status 503 (codes "down")).retryable ≡ true) ↔ IsTransient 503
from_status_retryable_example = from_status-retryable 503 (codes "down")

from_status_quota_example :
    ((from_status 429 (codes "quota")).class ≡ quota)
    ↔ ((contains (to_lower (redact (codes "quota"))) (codes "quota") ≡ true) × MayBeQuota 429)
from_status_quota_example = from_status-quota 429 (codes "quota")

from_status_envelope_example :
    let wire = to_envelope_error (from_status 401 (codes "no")) in
    (wire.http_status ≡ 401)
    × (wire.message ≡ redact (redact (codes "no")))
    × (wire.code ≡ class_code (from_status 401 (codes "no")).class)
    × (wire.retryable ≡ (from_status 401 (codes "no")).retryable)
from_status_envelope_example = from_status-envelope 401 (codes "no")

abbrev refused : ClassifiedError
refused = record { class = unsupported; message = []; status_code = 0; retryable = true }

request_error_example :
    ((request_error refused ≡ refused)
      × ((refused.status_code ≢ 0)
          ⊎ ((refused.class ≢ unsupported) × (refused.class ≢ translation))))
    ⊎ (((request_error refused).status_code ≡ 400)
        × ((request_error refused).retryable ≡ false)
        × (refused.status_code ≡ 0)
        × ((refused.class ≡ unsupported) ⊎ (refused.class ≡ translation)))
request_error_example = request_error-cases refused
