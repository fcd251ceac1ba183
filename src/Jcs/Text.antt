-- ===== src/Jcs/Text.antt =====
-- `canonicalizeString` of pkg/jcs/canonical.go. A text is its code points, and so is what is written:
-- a byte that is no UTF-8 has no code point and no reading here.
use Prim.Native.Char.{code}
use Prim.Native.String.{◌++◌ as append}
use sentoris_proxy.Prelude.{
  zero, suc, String, not, ◌&&◌, ◌||◌, ℕ, ◌+◌, ◌-◌, ◌/◌, ◌%◌, ◌==◌, ltb, List, [], ◌∷◌, ◌++◌,
  if◌then◌else◌,
}

-- A digit of `%04x`.
unfoldable pub hex_digit : ℕ → ℕ
hex_digit d = if ltb d 10 then b'0' + d else b'a' + (d - 10)

-- `fmt.Sprintf("\u%04x", r)` for a control character.
unfoldable pub unicode_escape : ℕ → List ℕ
unfolding hex_digit
unicode_escape r =
    b'\\' ∷ (b'u' ∷ (b'0' ∷ (b'0' ∷ (hex_digit (r / 16) ∷ (hex_digit (r % 16) ∷ [])))))

-- The `switch` on one rune.
unfoldable pub escape_rune : ℕ → List ℕ
unfolding unicode_escape
escape_rune r =
    if r == b'"'
    then b'\\' ∷ (b'"' ∷ [])
    else if r == b'\\'
    then b'\\' ∷ (b'\\' ∷ [])
    else if r == 10
    then b'\\' ∷ (b'n' ∷ [])
    else if r == 13
    then b'\\' ∷ (b'r' ∷ [])
    else if r == 9
    then b'\\' ∷ (b't' ∷ [])
    else if r == 8
    then b'\\' ∷ (b'b' ∷ [])
    else if r == 12
    then b'\\' ∷ (b'u' ∷ (b'0' ∷ (b'0' ∷ (b'0' ∷ (b'c' ∷ [])))))
    else if ltb r 32
    then unicode_escape r
    else r ∷ []

-- The loop, up to the closing quotation mark, with what follows.
unfoldable pub escape_runes : List ℕ → List ℕ → List ℕ
unfolding escape_rune
escape_runes [] rest = rest
escape_runes (r ∷ rs) rest = escape_rune r ++ escape_runes rs rest

unfoldable pub canonicalize_string : List ℕ → List ℕ
unfolding escape_runes
canonicalize_string s = b'"' ∷ escape_runes s (b'"' ∷ [])

-- The character at a place of a text, as a text.
char_at : ℕ → String → String
char_at n String.[] = ""
char_at zero (String.◌∷◌ c s) = String.◌∷◌ c ""
char_at (suc n) (String.◌∷◌ c s) = char_at n s

hex_text : ℕ → String
unfolding char_at
hex_text d = char_at d "0123456789abcdef"

-- `SanitizeResponse`: a control character, but for the three of a line's end and the tab, is written
-- as the text of its escape.
unfoldable pub sanitize_response : String → String
unfolding hex_text
sanitize_response String.[] = ""
sanitize_response (String.◌∷◌ c s) =
    let rest = sanitize_response s in
    let r = code c in
    if ltb r 32 && not (r == 10 || (r == 13 || r == 9))
    then append "\\u00" (append (hex_text (r / 16)) (append (hex_text (r % 16)) rest))
    else String.◌∷◌ c rest
