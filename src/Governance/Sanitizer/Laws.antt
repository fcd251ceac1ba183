-- ===== src/Governance/Sanitizer/Laws.antt =====
-- What Sanitize does of the patterns that it has.
use sentoris_proxy.Prelude.{
  ℕ, ◌≡◌, refl, Bool, Bool-cases, false, inl, inr, not, ◌&&◌, ◌||◌, List, [], ◌∷◌, String, All,
  arith,
}
use sentoris_proxy.Prelude.Search.{contains_text, to_lower}
use sentoris_proxy.Governance.Sanitizer.{
  injection_patterns, fresh_result, should_block, contains_any, SanitizationResult, warn,
  check_patterns, apply_basic_sanitization, sanitize, is_potentially_malicious,
}

abbrev Passes : String → Type 0
Passes pattern = should_block pattern ≡ false

-- Each pattern has `\s+` where the texts to block have a space.
injection_patterns-Passes : All Passes injection_patterns
unfolding should_block contains_any contains_text to_lower
injection_patterns-Passes = (refl, (refl, (refl, (refl, (refl, (refl, tt))))))

module _ (matches : String → List ℕ → Bool) where
  -- Some of the patterns matches.
  pub any_matches : List String → List ℕ → Bool
  any_matches [] input = false
  any_matches (pattern ∷ patterns) input = matches pattern input || any_matches patterns input

  abbrev Found : List String → SanitizationResult → SanitizationResult → Type 0
  Found patterns before after =
      (after.blocked ≡ before.blocked)
      × (after.sanitized_input ≡ apply_basic_sanitization before.original_input)
      × (after.is_clean ≡ (before.is_clean && not (any_matches patterns before.original_input)))

  check_patterns-Found :
      (patterns : List String) (result : SanitizationResult)
      → All Passes patterns
      → Found patterns result (check_patterns matches patterns result)
  unfolding check_patterns any_matches warn
  check_patterns-Found [] result passes = (refl, refl, ground arith)
  check_patterns-Found (pattern ∷ patterns) result (p, ps) =
      elim (Bool-cases (matches pattern result.original_input)) [
        | inl hit ↦
            rw (hit, p)
              (let (b, s, c) = check_patterns-Found patterns (warn matches pattern result) ps in
                (b, s, ground arith))
        | inr miss ↦ rw miss (check_patterns-Found patterns result ps)
      ]

  -- Sanitize blocks no input, whichever patterns match it: the input goes on, with the texts of basic
  -- sanitization replaced, and it is clean if and only if no pattern matches.
  pub sanitize_lem :
      (input : List ℕ)
      → ((sanitize matches input).blocked ≡ false)
        × ((sanitize matches input).sanitized_input ≡ apply_basic_sanitization input)
        × ((sanitize matches input).is_clean ≡ not (any_matches injection_patterns input))
  unfolding sanitize
  sanitize_lem input =
      check_patterns-Found injection_patterns (fresh_result input) injection_patterns-Passes

  -- What is potentially malicious is what some pattern matches.
  pub is_potentially_malicious_lem :
      (input : List ℕ)
      → is_potentially_malicious matches input ≡ any_matches injection_patterns input
  unfolding is_potentially_malicious
  is_potentially_malicious_lem input =
      let (unblocked, _, clean) = sanitize_lem input in ground arith
