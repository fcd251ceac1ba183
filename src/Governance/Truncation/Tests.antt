-- ===== src/Governance/Truncation/Tests.antt =====
-- Texts cut to so many tokens, where each character is one.
use sentoris_proxy.Prelude.{ℕ, ◌≡◌, refl, none, some, List, Result, ok, err, length, take, codes}
use sentoris_proxy.Governance.Truncation.{
  TokenizerError, not_initialized, encoding_failed, truncate, count,
}
use sentoris_proxy.Governance.Truncation.Laws.{IsLongest, truncate_lem}

abbrev each_character : List ℕ → Result TokenizerError ℕ
each_character s = ok (length s)

no_tokenizer : count none (codes "abc") ≡ err not_initialized
unfolding count
no_tokenizer = refl

left_whole_without_tokenizer : truncate none (codes "abc") 1 ≡ (codes "abc", none)
unfolding truncate
left_whole_without_tokenizer = refl

error_kept :
    truncate (some (λ s. err encoding_failed)) (codes "abc") 1 ≡ (codes "abc", some encoding_failed)
unfolding truncate
error_kept = refl

truncate_lem_example :
    (i : ℕ) × (truncate (some each_character) (codes "abc") 2 ≡ (take i (codes "abc"), none))
    × IsLongest each_character 2 (codes "abc") (length (codes "abc")) i
truncate_lem_example = truncate_lem each_character (codes "abc") 2 3 refl
