-- ===== src/Prelude/Texts.antt =====
-- What the code uses of Go's package `strings`, on texts as lists of code points.
use Prim.Native.Nat.{ℕ}
use Prim.Native.Char.{code}
use Prim.Native.String.{String}
use mathlib.Core.Bool.{Bool, false, ◌&&◌, ◌||◌}
use mathlib.Core.List.{List, [], ◌∷◌}
use text.Mathlib.Text.{◌==◌ as str_eq}
use sentoris_proxy.Prelude.Tests.{◌==◌, leb, if◌then◌else◌}

extend : List String → (String → String) → List String
extend [] f = f "" ∷ []
extend (p ∷ ps) f = f p ∷ ps

-- `strings.Split(s, sep)`, for a separator of one character.
unfoldable pub split : (sep : ℕ) → String → List String
unfolding extend
split sep String.[] = "" ∷ []
split sep (String.◌∷◌ c s) =
    let rest = split sep s in if code c == sep then "" ∷ rest else extend rest (String.◌∷◌ c)

-- `unicode.IsSpace`, in the Latin-1 range and beyond it.
abbrev pub is_space : ℕ → Bool
is_space c =
    (leb 9 c && leb c 13)
    || (c == 0x20
        || (c == 0x85
            || (c == 0xa0
                || (c == 0x1680
                    || ((leb 0x2000 c && leb c 0x200a)
                        || (c == 0x2028
                            || (c == 0x2029 || (c == 0x202f || (c == 0x205f || c == 0x3000)))))))))

unfoldable pub trim_left : (ℕ → Bool) → String → String
trim_left test String.[] = ""
trim_left test (String.◌∷◌ c s) =
    let rest = trim_left test s in if test (code c) then rest else String.◌∷◌ c s

unfoldable pub trim_right : (ℕ → Bool) → String → String
trim_right test String.[] = ""
trim_right test (String.◌∷◌ c s) =
    let rest = trim_right test s in
    if str_eq rest "" && test (code c) then "" else String.◌∷◌ c rest

-- `strings.TrimFunc(s, test)`, of which `TrimSpace` and `Trim` are instances.
unfoldable pub trim : (ℕ → Bool) → String → String
unfolding trim_left trim_right
trim test s = trim_right test (trim_left test s)

unfoldable pub trim_space : String → String
unfolding trim
trim_space s = trim is_space s

-- `strings.HasPrefix(s, prefix)`, for a prefix of one character.
unfoldable pub starts_with_char : ℕ → String → Bool
starts_with_char c String.[] = false
starts_with_char c (String.◌∷◌ d s) = code d == c

unfoldable pub ends_with_char : ℕ → String → Bool
ends_with_char c String.[] = false
ends_with_char c (String.◌∷◌ d s) = if str_eq s "" then code d == c else ends_with_char c s
