-- ===== src/Transport/Verifying/Laws.antt =====
-- The endpoint against the signer: what is said of a trace that was signed.
use sentoris_proxy.Prelude.{
  ℕ, ◌≡◌, ◌≢◌, ◌↔◌, refl, Bool, true, false, Option, some, List, String, ok, str_eq, eq_iff, arith,
}
use sentoris_proxy.Prelude.Int.{ℤ}
use sentoris_proxy.Domain.Trace.{Trace}
use sentoris_proxy.Audit.Signer.{SignError, sign, verify, with_signature}
use sentoris_proxy.Audit.Signer.Laws.{verify-sign}
use sentoris_proxy.Transport.Verifying.{verified, handle_verify_trace_by_id}

module _ (sort : List String → List String) (show_int show_float : ℤ → List ℕ)
    (compute_sha256_hex : List ℕ → String) (format_time : ℕ → String) (get : String → Option Trace)
    (text_of_error : SignError → String) (now : ℕ) where
  -- If the store has, under an identifier, a trace that can be signed, with a signature that is not
  -- empty, a GET of it is answered with whether the signature is the trace's.
  pub handle_verify_trace_by_id-sign :
      (trace_id : String) (t : Trace) (s x : String)
      → sign sort show_int show_float compute_sha256_hex format_time (some t) ≡ ok s
      → x ≢ ""
      → get trace_id ≡ some (with_signature x t)
      → (valid : Bool) × (handle_verify_trace_by_id get
            (λ found. verify sort show_int show_float compute_sha256_hex format_time (some found))
            text_of_error
            now
            "GET"
            trace_id
          ≡ verified trace_id valid now)
        × ((valid ≡ true) ↔ (s ≡ x))
  unfolding handle_verify_trace_by_id with_signature
  handle_verify_trace_by_id-sign trace_id t s x signed named stored =
      let (valid, checked, same) =
        verify-sign sort show_int show_float compute_sha256_hex format_time t s x signed named in
      (valid, rw (stored, not_empty, checked) refl, same)
    where
      not_empty : str_eq x "" ≡ false
      not_empty = ground (arith, eq_iff x "")
