-- ===== src/Governance/Sanitizer.antt =====
-- internal/service/governance/input_sanitizer.go. `matches` is `MatchString` of the package regexp, for
-- the text of a pattern. A text's code points are those of an ASCII text, where the code changes it.
mod Laws
mod Tests
use Prim.Native.String.{◌++◌ as append}
use sentoris_proxy.Prelude.{
  ℕ, Bool, true, false, not, ◌||◌, ◌&&◌, ◌==◌, List, [], ◌∷◌, ◌++◌, String, codes, str_eq, Map,
  if◌then◌else◌,
}
use sentoris_proxy.Prelude.Search.{contains_text, to_lower, replace_all}
use sentoris_proxy.Domain.Value.{Value, text, Fields, no_fields, field}

-- The patterns of `NewInputSanitizer`.
abbrev pub injection_patterns : List String
injection_patterns =
    "(?i)(ignore\\s+previous|ignore\\s+all|disregard\\s+previous|disregard\\s+all|reset\\s+prompt|forget\\s+instructions)"
    ∷ ("(?i)(system\\s+prompt|system\\s+role|as\\s+a\\s+system)"
        ∷ ("(?i)(execute\\s+command|run\\s+code|python\\s+code|javascript\\s+code)"
            ∷ ("(?i)(override\\s+settings|bypass\\s+filter|disable\\s+security)"
                ∷ ("(?i)(prompt\\s+injection|jailbreak|escape\\s+prompt)"
                    ∷ ("(?i)(BEGIN\\s+SYSTEM|END\\s+SYSTEM|<system>.*</system>)" ∷ [])))))

abbrev blocking_patterns : List String
blocking_patterns =
    "ignore previous"
    ∷ ("ignore all"
        ∷ ("disregard previous"
            ∷ ("disregard all"
                ∷ ("override settings" ∷ ("bypass filter" ∷ ("disable security" ∷ []))))))

unfoldable pub contains_any : List ℕ → List String → Bool
unfolding contains_text
contains_any s [] = false
contains_any s (part ∷ parts) = contains_text s (codes part) || contains_any s parts

unfoldable pub should_block : String → Bool
unfolding contains_any to_lower
should_block pattern = contains_any (to_lower (codes pattern)) blocking_patterns

-- The input, the texts of the warnings, and why the input is blocked.
pub record SanitizationResult : Type 0 where
  pub is_clean : Bool
  pub original_input : List ℕ
  pub sanitized_input : List ℕ
  pub warnings : List String
  pub blocked : Bool
  pub block_reason : String

abbrev pub fresh_result : List ℕ → SanitizationResult
fresh_result input = record {
  is_clean = true;
  original_input = input;
  sanitized_input = input;
  warnings = [];
  blocked = false;
  block_reason = "";
}

unfoldable pub redact : String → List ℕ → List ℕ
unfolding replace_all
redact part = replace_all (codes part) (codes "[REDACTED]")

unfoldable pub apply_basic_sanitization : List ℕ → List ℕ
unfolding redact
apply_basic_sanitization input = redact "data:" (
    redact "javascript:"
      (redact "</iframe>" (redact "<iframe>" (redact "</script>" (redact "<script>" input)))))

-- Two texts are the same.
unfoldable pub same_codes : List ℕ → List ℕ → Bool
same_codes [] [] = true
same_codes (a ∷ s) (b ∷ t) = a == b && same_codes s t
same_codes s t = false

module _ (matches : String → List ℕ → Bool) where
  -- A pattern that matches.
  unfoldable pub warn : String → SanitizationResult → SanitizationResult
  warn pattern result = record result {
    is_clean = false;
    warnings = result.warnings ++ (append "Potential injection pattern detected: " pattern ∷ []);
  }

  unfoldable pub block : SanitizationResult → SanitizationResult
  block result = record result {
    blocked = true;
    block_reason = "Detected malicious injection attempt";
  }

  -- The loop over the patterns, and what follows it.
  unfoldable pub check_patterns : List String → SanitizationResult → SanitizationResult
  unfolding should_block warn block apply_basic_sanitization
  check_patterns [] result = record result {
    sanitized_input = apply_basic_sanitization result.original_input;
  }
  check_patterns (pattern ∷ patterns) result =
      let hit = matches pattern result.original_input in
      let next = if hit then warn pattern result else result in
      let rest = check_patterns patterns next in
      if hit then (if should_block pattern then block (warn pattern result) else rest) else rest

  unfoldable pub sanitize : List ℕ → SanitizationResult
  unfolding check_patterns
  sanitize input = check_patterns injection_patterns (fresh_result input)

  -- One entry of a message.
  unfoldable pub sanitize_entry : String → List ℕ → List ℕ
  unfolding sanitize same_codes to_lower
  sanitize_entry key value =
      let result = sanitize value in
      if same_codes (to_lower (codes key)) (codes "content")
        || same_codes (to_lower (codes key)) (codes "prompt")
      then (if result.blocked then codes "[BLOCKED]" else result.sanitized_input)
      else value

  unfoldable pub sanitize_message : Map (List ℕ) → Map (List ℕ)
  unfolding sanitize_entry
  sanitize_message [] = []
  sanitize_message ((key, value) ∷ entries) =
      (key, sanitize_entry key value) ∷ sanitize_message entries

  unfoldable pub sanitize_messages : List (Map (List ℕ)) → List (Map (List ℕ))
  unfolding sanitize_message
  sanitize_messages [] = []
  sanitize_messages (msg ∷ msgs) = sanitize_message msg ∷ sanitize_messages msgs

  unfoldable pub is_potentially_malicious : List ℕ → Bool
  unfolding sanitize
  is_potentially_malicious input =
      let result = sanitize input in not result.is_clean || result.blocked

-- The length of the text makes no difference.
unfoldable pub redact_for_logging : String → String
redact_for_logging data_text = "[REDACTED]"

unfoldable pub is_sensitive : String → Bool
unfolding contains_any to_lower
is_sensitive key = contains_any (to_lower (codes key)) (
    "prompt"
    ∷ ("response"
        ∷ ("content"
            ∷ ("message" ∷ ("input" ∷ ("output" ∷ ("api_key" ∷ ("password" ∷ ("secret" ∷ [])))))))))

unfoldable pub redact_fields_for_logging : Fields → Fields
unfolding is_sensitive
redact_fields_for_logging no_fields = no_fields
redact_fields_for_logging (field k v rest) =
    let redacted = redact_fields_for_logging rest in
    field k (if is_sensitive k then text "[REDACTED]" else v) redacted
