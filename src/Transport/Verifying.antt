-- ===== src/Transport/Verifying.antt =====
-- `handleVerifyTrace` and `handleVerifyTraceByID` of internal/transport/http/handler.go. `get` is `Get` of
-- the trace store, none for its error; `now` is the time of the reply. `text_of_error` is `Error()`.
mod Laws
mod Tests
use sentoris_proxy.Prelude.{
  ℕ, Bool, true, false, not, ◌&&◌, ◌||◌, Option, none, some, List, [], ◌∷◌, String, Map, Result, ok,
  err, str_eq, if◌then◌else◌,
}
use sentoris_proxy.Domain.Trace.{Trace}
use sentoris_proxy.Errors.{invalid_method, invalid_input, baseline_not_found}
use sentoris_proxy.Transport.Chat.{Response, handle_error, handle_error_with_message, other}
use sentoris_proxy.Audit.Signer.{SignError}

-- An error, or the status 200 with the three fields.
pub data VerifyReply : Type 0 where
  failed_with : Response → VerifyReply
  verified : (trace_id : String) → (valid : Bool) → (verified_at : ℕ) → VerifyReply

module _ (get : String → Option Trace) (verify_trace : Trace → Result SignError Bool)
    (text_of_error : SignError → String) (now : ℕ) where
  unfoldable pub reply_of : (trace_id : String) → Result SignError Bool → VerifyReply
  reply_of trace_id (ok valid) = verified trace_id valid now
  reply_of trace_id (err e) =
      failed_with (handle_error_with_message [] "Verification failed" 500 (other (text_of_error e)))

  unfoldable pub verify_found : (trace_id : String) → Option Trace → VerifyReply
  unfolding reply_of
  verify_found trace_id none =
      failed_with (handle_error [] "Trace not found" 404 baseline_not_found)
  verify_found trace_id (some trace) =
      if str_eq trace.proofs.audit_signature ""
      then failed_with (handle_error [] "No audit signature found" 400 invalid_input)
      else reply_of trace_id (verify_trace trace)

  unfoldable pub handle_verify_trace_by_id : (method trace_id : String) → VerifyReply
  unfolding verify_found
  handle_verify_trace_by_id method trace_id =
      if str_eq method "GET"
      then verify_found trace_id (get trace_id)
      else failed_with (handle_error [] "Method not allowed" 405 invalid_method)

  -- The query has the text for a missing `trace_id` that is empty.
  unfoldable pub handle_verify_trace : (method trace_id : String) → VerifyReply
  unfolding verify_found
  handle_verify_trace method trace_id =
      if not (str_eq method "POST") && not (str_eq method "GET")
      then failed_with (handle_error [] "Method not allowed" 405 invalid_method)
      else if str_eq trace_id ""
      then failed_with (handle_error [] "trace_id is required" 400 invalid_input)
      else verify_found trace_id (get trace_id)
