-- ===== src/Diff/Levenshtein/Tests.antt =====
-- Two words, and a text compared with an empty one.
use sentoris_proxy.Prelude.{ℕ, ◌≤◌, ◌≡◌, refl, List, [], ◌∷◌, codes}
use sentoris_proxy.Diff.Levenshtein.{levenshtein_distance, byte_length}
use sentoris_proxy.Diff.Levenshtein.Edits.{Edits}
use sentoris_proxy.Diff.Levenshtein.Laws.{levenshtein_distance-least}

abbrev kitten : List ℕ
kitten = codes "kitten"

abbrev sitting : List ℕ
sitting = codes "sitting"

kitten_to_sitting : levenshtein_distance kitten sitting ≡ 3
unfolding levenshtein_distance
kitten_to_sitting = refl

-- One character of two bytes.
nothing_to_e_acute : levenshtein_distance [] (233 ∷ []) ≡ 2
unfolding levenshtein_distance byte_length
nothing_to_e_acute = refl

levenshtein_distance-least_example :
    Edits kitten sitting (levenshtein_distance kitten sitting)
    × ((n : ℕ) → Edits kitten sitting n → levenshtein_distance kitten sitting ≤ n)
levenshtein_distance-least_example = levenshtein_distance-least kitten sitting (λ e. cc) (λ e. cc)
