-- ===== src/Audit/Signer/Tests.antt =====
-- Signatures of small traces, with a toy digest and numbers left out.
use Prim.Native.String.{◌++◌ as append}
use sentoris_proxy.Prelude.{
  ℕ, ◌≡◌, ◌≢◌, ◌↔◌, refl, Bool, true, false, none, some, List, [], ◌∷◌, String, if◌then◌else◌, ◌==◌,
  ok, err,
}
use sentoris_proxy.Prelude.Int.{ℤ}
use sentoris_proxy.Domain.Value.{text, messages}
use sentoris_proxy.Domain.Trace.{Trace, init, no_observations, no_constraints_applied}
use sentoris_proxy.Audit.Signer.{
  SignError, trace_nil, sign, verify, with_signature, sign_trace, trace_to_map, input_to_map,
  output_to_map, observations_to_map, proofs_to_map, constraints_applied_to_map,
}
use sentoris_proxy.Prelude.Texts.{starts_with_char}
use sentoris_proxy.Prelude.{lookup}
use sentoris_proxy.Jcs.{canonicalize, canonicalize_and_hash, keys}
use sentoris_proxy.Jcs.Text.{canonicalize_string}
use sentoris_proxy.Jcs.Strip.{strip_non_signature_fields}
use sentoris_proxy.Audit.Signer.Laws.{verify-sign, sign-messages}

abbrev pub no_digits : ℤ → List ℕ
no_digits n = []

abbrev pub as_is : List String → List String
as_is ks = ks

abbrev pub show_time : ℕ → String
show_time at = "then"

-- A mark for each quotation mark and each a.
pub digest : List ℕ → String
digest [] = ""
digest (c ∷ cs) =
    let rest = digest cs in
    if c == b'"' then append "q" rest else if c == b'a' then append "a" rest else rest

abbrev pub plain : Trace
plain = record {
  trace_id = "t";
  parent_id = none;
  session_id = none;
  execution_state = init;
  model = "m";
  input = record { prompt = text "hi"; params = none; metadata = none; seed = none };
  output = record { response = none; truncated = false; finish_reason = "" };
  observations = no_observations;
  proofs = record { audit_signature = ""; proof_type = ""; canonicalization_method = "" };
  constraints_applied = no_constraints_applied;
  created_at = 7;
  ttl_expire_at = none;
  extensions = none;
}

abbrev asked : Trace
asked = record plain {
  input = record {
    prompt = messages (record { role = "user"; content = "hi" } ∷ []);
    params = none;
    metadata = none;
    seed = none;
  };
}

abbrev pub signature : String
signature = "qaqqqqaqqqqqqqqqqqqqqqqaqaqaqqqqaaqqqqaaqqaaqqq"

nil_is_refused : sign as_is no_digits no_digits digest show_time none ≡ err trace_nil
unfolding sign
nil_is_refused = refl

pub plain-signed : sign as_is no_digits no_digits digest show_time (some plain) ≡ ok signature
unfolding sign sign_trace canonicalize_and_hash canonicalize keys strip_non_signature_fields
    trace_to_map starts_with_char lookup with_signature input_to_map output_to_map
    observations_to_map proofs_to_map constraints_applied_to_map digest canonicalize_string
plain-signed = refl

verify-sign_example :
    (r : Bool) × (verify as_is no_digits no_digits digest show_time
        (some (with_signature "forged" plain))
      ≡ ok r)
    × ((r ≡ true) ↔ (signature ≡ "forged"))
verify-sign_example =
    verify-sign as_is no_digits no_digits digest show_time plain signature "forged" plain-signed
      named
  where
    named : ◌≢◌ {A = String} "forged" ""
    named e = cc

sign-messages_example :
    (e : SignError) × (sign as_is no_digits no_digits digest show_time (some asked) ≡ err e)
sign-messages_example =
    sign-messages as_is no_digits no_digits digest show_time (λ k ks held. held) asked
      (record { role = "user"; content = "hi" } ∷ []) refl
