-- ===== src/Transport/Verifying/Tests.antt =====
-- The endpoint over a store of one trace, signed.
use sentoris_proxy.Prelude.{◌≡◌, refl, Option, none, some, [], String, err, str_eq, if◌then◌else◌}
use sentoris_proxy.Domain.Trace.{Trace}
use sentoris_proxy.Audit.Signer.{SignError, trace_nil, with_signature}
use sentoris_proxy.Audit.Signer.Tests.{plain, signature}
use sentoris_proxy.Errors.{invalid_method, baseline_not_found}
use sentoris_proxy.Transport.Chat.{handle_error}
use sentoris_proxy.Transport.Verifying.{failed_with, handle_verify_trace_by_id, handle_verify_trace}

abbrev stored : String → Option Trace
stored trace_id = if str_eq trace_id "t" then some (with_signature signature plain) else none

abbrev show_error : SignError → String
show_error e = "failed"

post_refused :
    handle_verify_trace_by_id stored (λ found. err trace_nil) show_error 9 "POST" "t"
    ≡ failed_with (handle_error [] "Method not allowed" 405 invalid_method)
unfolding handle_verify_trace_by_id
post_refused = refl

unknown_trace :
    handle_verify_trace stored (λ found. err trace_nil) show_error 9 "POST" "u"
    ≡ failed_with (handle_error [] "Trace not found" 404 baseline_not_found)
unfolding handle_verify_trace
unknown_trace = refl
