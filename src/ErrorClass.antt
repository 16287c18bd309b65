-- ===== src/ErrorClass.antt =====
-- internal/errclass/errclass.go: the classes of errors, their retryability and their wire form.
pub mod Status
mod Samples
use opencode_go_cliproxyapi.Prelude.{
  Bool, Option, [], false, if◌then◌else◌, leb, none, some, true, ℕ, ◌++◌, ◌==◌,
}
use opencode_go_cliproxyapi.Prelude.Text.{Text, codes, contains, to_lower}
use opencode_go_cliproxyapi.Redact.{redact}

pub data Class : Type 0 where
  auth invalid_model unsupported rate_limit quota billing upstream network translation : Class

-- The wire codes.
abbrev pub class_code : Class → Text
class_code auth = codes "auth_failure"
class_code invalid_model = codes "invalid_model"
class_code unsupported = codes "unsupported_protocol_or_parameter"
class_code rate_limit = codes "rate_limit"
class_code quota = codes "quota_exhaustion"
class_code billing = codes "billing"
class_code upstream = codes "upstream_server_failure"
class_code network = codes "timeout_or_network_failure"
class_code translation = codes "translation_failure"

-- The record `Error`; the status is a natural number.
pub record ClassifiedError : Type 0 where
  pub class : Class
  pub message : Text
  pub status_code : ℕ
  pub retryable : Bool

-- `Error.Error()`.
unfoldable pub error_text : ClassifiedError → Text
error_text e = class_code e.class ++ (codes ": " ++ e.message)

-- `FromStatus`'s local `quotaClass`, for its flag.
abbrev pub quota_class : Bool → Class → Class
quota_class is_quota base = if is_quota then quota else base

unfoldable pub from_status : ℕ → Text → ClassifiedError
from_status status message =
    let msg = redact message in
    let is_quota = contains (to_lower msg) (codes "quota") in
    if status == 401
    then record { class = auth; message = msg; status_code = status; retryable = true }
    else if status == 403
    then record {
      class = quota_class is_quota auth;
      message = msg;
      status_code = status;
      retryable = true;
    }
    else if status == 402
    then record {
      class = quota_class is_quota billing;
      message = msg;
      status_code = status;
      retryable = true;
    }
    else if status == 404
    then record { class = invalid_model; message = msg; status_code = status; retryable = false }
    else if status == 429
    then record {
      class = quota_class is_quota rate_limit;
      message = msg;
      status_code = status;
      retryable = true;
    }
    else if leb 500 status
    then record { class = upstream; message = msg; status_code = status; retryable = true }
    else record { class = unsupported; message = msg; status_code = status; retryable = false }

-- A nil error gives the empty message.
unfoldable pub from_network : Option Text → ClassifiedError
from_network cause = record {
  class = network;
  message = elim cause [ none ↦ [] | some text ↦ redact text ];
  status_code = 0;
  retryable = true;
}

unfoldable pub post_first_byte_network : Text → ClassifiedError
post_first_byte_network msg = record {
  class = network;
  message = redact msg;
  status_code = 0;
  retryable = false;
}

unfoldable pub translation_error : Text → ClassifiedError
translation_error msg = record {
  class = translation;
  message = redact msg;
  status_code = 0;
  retryable = false;
}

unfoldable pub upstream_fallback : Text → ClassifiedError
upstream_fallback msg = record {
  class = upstream;
  message = redact msg;
  status_code = 0;
  retryable = true;
}

-- The SDK's `pluginabi.Error`.
pub record WireError : Type 0 where
  pub code : Text
  pub message : Text
  pub retryable : Bool
  pub http_status : ℕ

unfoldable pub to_envelope_error : ClassifiedError → WireError
to_envelope_error e = record {
  code = class_code e.class;
  message = redact e.message;
  retryable = e.retryable;
  http_status = e.status_code;
}

-- The body of the `if` of `requestErrorEnvelope`, with its test of the status.
abbrev pub as_bad_request : ClassifiedError → ClassifiedError
as_bad_request e =
    if e.status_code == 0 then record e { status_code = 400; retryable = false } else e

-- internal/plugin/executor.go, `requestErrorEnvelope`: a request that the plugin itself refuses
-- reaches the host as a 400 that is not retried.
unfoldable pub request_error : ClassifiedError → ClassifiedError
request_error e = elim e.class [
  | unsupported ↦ as_bad_request e
  | translation ↦ as_bad_request e
  | _ ↦ e
]
