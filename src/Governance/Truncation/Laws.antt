-- ===== src/Governance/Truncation/Laws.antt =====
-- What Truncate leaves of a text.
use sentoris_proxy.Prelude.{
  ℕ, zero, suc, ◌≤◌, ◌<◌, ◌≡◌, refl, Bool-cases, true, false, inl, inr, ◌⊎◌, leb, none, some, List,
  Result, ok, length, take, take-all, arith,
}
use sentoris_proxy.Governance.Truncation.{TokenizerError, tokens_of, longest, truncate}

module _ (count_tokens : List ℕ → Result TokenizerError ℕ) where
  abbrev Fits : ℕ → List ℕ → Type 0
  Fits max_tokens s = tokens_of (count_tokens s) ≤ max_tokens

  -- The beginning of length i is the longest of those up to n that fits, if there is one.
  abbrev pub IsLongest : ℕ → List ℕ → (n i : ℕ) → Type 0
  IsLongest max_tokens s n i =
      (i ≤ n)
      × ((i ≡ 0) ⊎ Fits max_tokens (take i s))
      × ((j : ℕ) → i < j → j ≤ n → ¬ Fits max_tokens (take j s))

  longest-IsLongest :
      (max_tokens : ℕ) (s : List ℕ) (n : ℕ)
      → (i : ℕ) × (longest count_tokens max_tokens s n ≡ take i s) × IsLongest max_tokens s n i
  unfolding longest
  longest-IsLongest max_tokens s zero =
      (0, refl, (omega arith, inl refl, λ j more less fits. absurd (omega arith)))
  longest-IsLongest max_tokens s (suc n) =
      elim (Bool-cases (leb (tokens_of (count_tokens (take (suc n) s))) max_tokens)) [
        | inl fits ↦ (
          suc n,
          rw fits refl,
          (omega arith, inr (ground arith), λ j more less f. absurd (omega arith)),
        )
        | inr over ↦
            let (i, e, (bound, fit, least)) = longest-IsLongest max_tokens s n in
            (i, rw over e, (omega arith, fit, above i over least))
      ]
    where
      above :
          (i : ℕ)
          → leb (tokens_of (count_tokens (take (suc n) s))) max_tokens ≡ false
          → ((j : ℕ) → i < j → j ≤ n → ¬ Fits max_tokens (take j s))
          → (j : ℕ) → i < j
          → j ≤ suc n
          → ¬ Fits max_tokens (take j s)
      above i over least j more less fits = elim (Bool-cases (leb j n)) [
        | inl within ↦ least j more (ground arith) fits
        | inr last ↦
            let here : j ≡ suc n = ground arith in
            let fit : Fits max_tokens (take (suc n) s) = (rw here at fits) in absurd (ground arith)
      ]

  -- Where the tokenizer counts the text, what is left of it is its longest beginning of at most
  -- `max_tokens` tokens, or nothing if there is none, and no error.
  pub truncate_lem :
      (s : List ℕ) (max_tokens tokens : ℕ)
      → count_tokens s ≡ ok tokens
      → (i : ℕ) × (truncate (some count_tokens) s max_tokens ≡ (take i s, none))
        × IsLongest max_tokens s (length s) i
  unfolding truncate
  truncate_lem s max_tokens tokens counted = elim (Bool-cases (leb tokens max_tokens)) [
    | inl fits ↦ (
      length s,
      rw (counted, fits, take-all (length s) s (omega arith)) refl,
      (omega arith, inr (whole fits), λ j more less f. absurd (omega arith)),
    )
    | inr over ↦
        let (i, e, longest_one) = longest-IsLongest max_tokens s (length s) in
        (i, rw (counted, over, e) refl, longest_one)
  ]
    where
      whole : leb tokens max_tokens ≡ true → Fits max_tokens (take (length s) s)
      whole fits = rw (take-all (length s) s (omega arith), counted) (ground arith)
