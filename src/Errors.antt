-- ===== src/Errors.antt =====
-- pkg/errors/errors.go. The texts of the codes are left out: a code is read only through `switch`.
use sentoris_proxy.Prelude.{ℕ, Bool, true, false, Option, none, some, String}
use sentoris_proxy.Domain.Value.{Fields, no_fields, field, text}

pub data ErrorCode : Type 0 where
  invalid_constraint bad_constraint_combination budget_exceeded missing_focus_fields : ErrorCode
  jcs_canonicalization_failed schema_violation state_transition_invalid : ErrorCode
  upstream_timeout upstream_disconnect upstream_error auth_required permission_denied : ErrorCode
  baseline_not_found rate_limited state_unavailable internal_error version_mismatch : ErrorCode
  invalid_method provider_not_found invalid_input : ErrorCode

pub record SentorisError : Type 0 where
  pub code : ErrorCode
  pub message : String
  pub param : String
  pub type : String
  pub details : Option Fields

unfoldable pub new_sentoris_error : ErrorCode → String → SentorisError
new_sentoris_error code message = record {
  code = code;
  message = message;
  param = "";
  type = "sentoris_error";
  details = none;
}

unfoldable pub with_param : String → SentorisError → SentorisError
with_param param e = record e { param = param }

unfoldable pub status_of : ErrorCode → ℕ
status_of invalid_constraint = 400
status_of bad_constraint_combination = 400
status_of missing_focus_fields = 400
status_of version_mismatch = 400
status_of auth_required = 401
status_of permission_denied = 403
status_of baseline_not_found = 404
status_of schema_violation = 422
status_of budget_exceeded = 429
status_of rate_limited = 429
status_of internal_error = 500
status_of state_transition_invalid = 500
status_of upstream_disconnect = 502
status_of state_unavailable = 503
status_of upstream_timeout = 504
status_of _ = 500

unfoldable pub http_status_code : SentorisError → ℕ
unfolding status_of
http_status_code e = status_of e.code

retries : ErrorCode → Bool
retries rate_limited = true
retries upstream_timeout = true
retries upstream_disconnect = true
retries state_unavailable = true
retries internal_error = true
retries _ = false

pub should_retry : SentorisError → Bool
unfolding retries
should_retry e = retries e.code

-- `WrapError` of an error that is not nil, which has the text `underlying`.
unfoldable pub wrap_error : (underlying : String) → ErrorCode → String → SentorisError
unfolding new_sentoris_error
wrap_error underlying code message = record (new_sentoris_error code message) {
  details = some (field "underlying_error" (text underlying) no_fields);
}
