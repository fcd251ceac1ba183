-- ===== src/Governance/Sanitizer/Tests.antt =====
-- Inputs sanitized, with a toy matcher that finds every pattern in a text that starts with an i.
use sentoris_proxy.Prelude.{
  ℕ, ◌≡◌, refl, Bool, true, false, not, List, [], ◌∷◌, String, codes, ◌==◌,
}
use sentoris_proxy.Governance.Sanitizer.{
  sanitize, apply_basic_sanitization, injection_patterns, is_sensitive,
}
use sentoris_proxy.Governance.Sanitizer.Laws.{any_matches, sanitize_lem}

abbrev starts_with_i : String → List ℕ → Bool
starts_with_i pattern [] = false
starts_with_i pattern (c ∷ cs) = c == b'i'

script_replaced : apply_basic_sanitization (codes "a<script>b") ≡ codes "a[REDACTED]b"
unfolding apply_basic_sanitization
script_replaced = refl

capital_script_kept : apply_basic_sanitization (codes "<SCRIPT>") ≡ codes "<SCRIPT>"
unfolding apply_basic_sanitization
capital_script_kept = refl

api_key_is_sensitive : is_sensitive "API_KEY_2" ≡ true
unfolding is_sensitive
api_key_is_sensitive = refl

sanitize_lem_example :
    ((sanitize starts_with_i (codes "ignore all")).blocked ≡ false)
    × ((sanitize starts_with_i (codes "ignore all")).sanitized_input
        ≡ apply_basic_sanitization (codes "ignore all"))
    × ((sanitize starts_with_i (codes "ignore all")).is_clean
        ≡ not (any_matches starts_with_i injection_patterns (codes "ignore all")))
sanitize_lem_example = sanitize_lem starts_with_i (codes "ignore all")
