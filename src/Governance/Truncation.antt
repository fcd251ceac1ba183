-- ===== src/Governance/Truncation.antt =====
-- `TokenizerService` of internal/service/governance/budget_service.go. A text is its
-- code points. `count_tokens` is `CountTokens` of the tokenizer, which has an error or a number.
mod Laws
mod Tests
use sentoris_proxy.Prelude.{
  ℕ, zero, suc, ◌+◌, ◌≤◌, ◌<◌, ◌≡◌, refl, Bool, Bool-cases, true, false, not, inl, inr, ◌⊎◌, leb,
  Option, none, some, List, [], ◌∷◌, ◌++◌, String, Result, ok, err, length, take, take-all, str_eq,
  if◌then◌else◌, arith,
}
use sentoris_proxy.Domain.Trace.{Trace, ExecutionState}
use Prim.Native.String.{◌++◌ as append}

pub data TokenizerError : Type 0 where
  not_initialized : TokenizerError
  encoding_failed : TokenizerError

-- `testTokens, _ :=`: the number beside an error is 0.
unfoldable pub tokens_of : Result TokenizerError ℕ → ℕ
tokens_of (ok n) = n
tokens_of (err e) = 0

module _ (count_tokens : List ℕ → Result TokenizerError ℕ) where
  -- The loop, from i on down to 1.
  unfoldable pub longest : (max_tokens : ℕ) → List ℕ → (i : ℕ) → List ℕ
  unfolding tokens_of
  longest max_tokens runes zero = []
  longest max_tokens runes (suc i) =
      let shorter = longest max_tokens runes i in
      if leb (tokens_of (count_tokens (take (suc i) runes))) max_tokens
      then take (suc i) runes
      else shorter

  cut : Result TokenizerError ℕ → (max_tokens : ℕ) → List ℕ → List ℕ × Option TokenizerError
  unfolding longest
  cut (err e) max_tokens s = (s, some e)
  cut (ok tokens) max_tokens s =
      (if leb tokens max_tokens then s else longest max_tokens s (length s), none)

-- A service whose tokenizer could not be made has none.
unfoldable pub count : Option (List ℕ → Result TokenizerError ℕ) → List ℕ → Result TokenizerError ℕ
count none s = err not_initialized
count (some count_tokens) s = count_tokens s

unfoldable pub truncate :
    Option (List ℕ → Result TokenizerError ℕ)
    → List ℕ
    → (max_tokens : ℕ) → List ℕ × Option TokenizerError
unfolding cut
truncate none s max_tokens = (s, none)
truncate (some count_tokens) s max_tokens = cut count_tokens (count_tokens s) max_tokens s
