-- ===== src/Audit/Signer/Laws.antt =====
-- A signature and its check, and the traces that have none.
use mathlib.Core.Option
use sentoris_proxy.Prelude.{
  ℕ, ◌≡◌, refl, ◌∙◌, ap, ◌≢◌, ◌↔◌, Bool, true, false, Option, none, some, List, String, ok, err,
  str_eq, eq_iff, arith, In,
}
use sentoris_proxy.Prelude.Int.{ℤ}
use sentoris_proxy.Prelude.Texts.{starts_with_char}
use sentoris_proxy.Domain.Value.{Value, object, messages, Message, Fields, get}
use sentoris_proxy.Domain.Trace.{Trace}
use sentoris_proxy.Jcs.{canonicalize, canonicalize_and_hash}
use sentoris_proxy.Jcs.Strip.{strip_non_signature_fields, is_dropped}
use sentoris_proxy.Jcs.Strip.Laws.{get-strip, strip_value}
use sentoris_proxy.Jcs.Failing.{Fails, object-Fails}
use sentoris_proxy.Audit.Signer.{
  SignError, canonicalization_failed, with_signature, sign, sign_trace, verify, trace_to_map,
  input_to_map, wrap, when_some, text_of,
}

get-input_to_map :
    (t : Trace) (ms : List Message)
    → t.input.prompt ≡ messages ms
    → get "prompt" (input_to_map t.input) ≡ some (messages ms)
unfolding input_to_map get
get-input_to_map t ms e = rw e refl

get-when_some :
    (j k : String) (o : Option Value) (m : Fields)
    → str_eq j k ≡ false
    → get k (when_some j o m) ≡ get k m
unfolding when_some get
get-when_some j k none m h = refl
get-when_some j k (some v) m h = rw h refl

get-trace_to_map :
    (format_time : ℕ → String) (t : Trace)
    → get "input" (trace_to_map format_time (with_signature "" t))
      ≡ some (object (input_to_map t.input))
unfolding trace_to_map get with_signature
get-trace_to_map format_time t =
    get-when_some "parent_id" "input" (text_of t.parent_id) _ refl
    ∙ get-when_some "session_id" "input" (text_of t.session_id) _ refl

module _ (sort : List String → List String) (show_int show_float : ℤ → List ℕ)
    (compute_sha256_hex : List ℕ → String) (format_time : ℕ → String) where
  sign-with_signature :
      (x : String) (t : Trace)
      → sign_trace sort show_int show_float compute_sha256_hex format_time (with_signature x t)
        ≡ sign_trace sort show_int show_float compute_sha256_hex format_time t
  unfolding sign_trace with_signature
  sign-with_signature x t = refl

  -- A trace that can be signed is verified with its own signature, and with a text other than the
  -- empty one only if that text is its signature.
  pub verify-sign :
      (t : Trace) (s x : String)
      → sign sort show_int show_float compute_sha256_hex format_time (some t) ≡ ok s
      → x ≢ ""
      → (r : Bool) × (verify sort show_int show_float compute_sha256_hex format_time
            (some (with_signature x t))
          ≡ ok r)
        × ((r ≡ true) ↔ (s ≡ x))
  unfolding sign verify with_signature
  verify-sign t s x signed named =
      (str_eq s x, rw (sign-with_signature x t, signed, not_empty) refl, eq_iff s x)
    where
      not_empty : str_eq x "" ≡ false
      not_empty = ground (arith, eq_iff x "")

  module _ (keeps : (k : String) (ks : List String) → In k ks → In k (sort ks)) where
    prompt-Fails :
        (t : Trace) (ms : List Message)
        → t.input.prompt ≡ messages ms
        → Fails (
            canonicalize sort show_int show_float
              (object (strip_non_signature_fields (input_to_map t.input))))
    unfolding canonicalize strip_value is_dropped starts_with_char
    prompt-Fails t ms e =
        object-Fails sort keeps show_int show_float "prompt"
          (strip_non_signature_fields (input_to_map t.input)) (messages ms)
          (get-strip "prompt" (input_to_map t.input) refl refl
            ∙ ap (Option.map strip_value) (get-input_to_map t ms e))
          (_, refl)

    -- A trace whose prompt is a list of messages, as that of each chat request is, cannot be signed.
    pub sign-messages :
        (t : Trace) (ms : List Message)
        → t.input.prompt ≡ messages ms
        → (e : SignError) × (sign sort show_int show_float compute_sha256_hex format_time (some t)
            ≡ err e)
    unfolding sign sign_trace canonicalize_and_hash wrap with_signature strip_value is_dropped
        starts_with_char
    sign-messages t ms e =
        let inner =
          object-Fails sort keeps show_int show_float "input"
            (strip_non_signature_fields (trace_to_map format_time (with_signature "" t)))
            (object (strip_non_signature_fields (input_to_map t.input)))
            (get-strip "input" (trace_to_map format_time (with_signature "" t)) refl refl
              ∙ ap (Option.map strip_value) (get-trace_to_map format_time t))
            (prompt-Fails t ms e) in
        (canonicalization_failed (inner.0), rw (inner.1) refl)
