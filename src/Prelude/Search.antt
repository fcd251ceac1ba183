-- ===== src/Prelude/Search.antt =====
-- `strings.Contains`, `strings.ToLower` and `strings.ReplaceAll` on texts as lists of code points. Of the
-- capital letters only the Latin ones have a small one here.
use Prim.Native.Nat.{ℕ, ◌+◌, ◌-◌}
use mathlib.Core.Bool.{Bool, true, false, ◌&&◌, ◌||◌}
use mathlib.Core.List.{List, [], ◌∷◌, ◌++◌}
use sentoris_proxy.Prelude.Lists.{length}
use sentoris_proxy.Prelude.Tests.{◌==◌, leb, if◌then◌else◌}

unfoldable pub has_prefix : (prefix s : List ℕ) → Bool
has_prefix [] s = true
has_prefix (p ∷ ps) [] = false
has_prefix (p ∷ ps) (c ∷ cs) = p == c && has_prefix ps cs

unfoldable pub contains_text : (s part : List ℕ) → Bool
unfolding has_prefix
contains_text [] part = has_prefix part []
contains_text (c ∷ cs) part = has_prefix part (c ∷ cs) || contains_text cs part

unfoldable pub to_lower : List ℕ → List ℕ
to_lower [] = []
to_lower (c ∷ cs) = (if leb b'A' c && leb c b'Z' then c + 32 else c) ∷ to_lower cs

-- From a place on, where `skip` characters are still those of the last place that was replaced.
replace_from : (old new s : List ℕ) → (skip : ℕ) → List ℕ
unfolding has_prefix
replace_from old new [] skip = []
replace_from old new (c ∷ cs) skip =
    let hit = skip == 0 && has_prefix old (c ∷ cs) in
    let rest = replace_from old new cs (if hit then length old - 1 else skip - 1) in
    if hit then new ++ rest else if skip == 0 then c ∷ rest else rest

-- For a text `old` that is not empty.
unfoldable pub replace_all : (old new s : List ℕ) → List ℕ
unfolding replace_from
replace_all old new s = replace_from old new s 0
