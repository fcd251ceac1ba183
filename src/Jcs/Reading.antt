-- ===== src/Jcs/Reading.antt =====
-- JSON strings as RFC 8259 describes them, read back: the canonical form of a text is that text.
use mathlib.Core.List.{append_assoc}
use sentoris_proxy.Prelude.{
  ℕ, ◌+◌, ◌-◌, ◌*◌, ◌/◌, ◌%◌, ◌<◌, ◌==◌, ◌≡◌, refl, ◌∙◌, ap, ltb, leb, ◌&&◌, Option, none, some,
  List, [], ◌∷◌, ◌++◌, if◌then◌else◌, arith,
}
use sentoris_proxy.Jcs.Text.{
  hex_digit, unicode_escape, escape_rune, escape_runes, canonicalize_string,
}

-- In the text, after a backslash, or after `\u` with some digits read.
pub data Mode : Type 0 where
  plain : Mode
  escaped : Mode
  hex : (digits value : ℕ) → Mode

-- What a character does: it ends the string, stands for a character, or goes on with an escape.
data Action : Type 0 where
  close : Action
  emit : ℕ → Action
  go : Mode → Action
  bad : Action

hex_value : ℕ → Option ℕ
hex_value c =
    if leb b'0' c && leb c b'9'
    then some (c - b'0')
    else if leb b'a' c && leb c b'f'
    then some (c - b'a' + 10)
    else none

short_escape : ℕ → Action
short_escape c =
    if c == b'"'
    then emit c
    else if c == b'\\'
    then emit c
    else if c == b'/'
    then emit c
    else if c == b'b'
    then emit 8
    else if c == b'f'
    then emit 12
    else if c == b'n'
    then emit 10
    else if c == b'r'
    then emit 13
    else if c == b't'
    then emit 9
    else if c == b'u'
    then go (hex 0 0)
    else bad

hex_step : (digits value : ℕ) → Option ℕ → Action
hex_step digits value none = bad
hex_step digits value (some d) =
    if digits == 3 then emit (value * 16 + d) else go (hex (digits + 1) (value * 16 + d))

action : Mode → ℕ → Action
unfolding short_escape hex_step hex_value
action plain c =
    if c == b'"' then close else if c == b'\\' then go escaped else if ltb c 32 then bad else emit c
action escaped c = short_escape c
action (hex digits value) c = hex_step digits value (hex_value c)

push : ℕ → Option (List ℕ × List ℕ) → Option (List ℕ × List ℕ)
push c none = none
push c (some (s, rest)) = some (c ∷ s, rest)

-- `cs` is what follows the character, and `read` reads it.
follow : (Mode → Option (List ℕ × List ℕ)) → List ℕ → Action → Option (List ℕ × List ℕ)
unfolding push
follow read cs close = some ([], cs)
follow read cs (emit d) = push d (read plain)
follow read cs (go m) = read m
follow read cs bad = none

-- The rest of a string, and what follows it.
pub read_string : Mode → List ℕ → Option (List ℕ × List ℕ)
unfolding action follow
read_string mode [] = none
read_string mode (c ∷ cs) = follow (λ m. read_string m cs) cs (action mode c)

pub read_json_string : List ℕ → Option (List ℕ × List ℕ)
unfolding read_string
read_json_string [] = none
read_json_string (c ∷ cs) = if c == b'"' then read_string plain cs else none

hex_value-hex_digit : (d : ℕ) → d < 16 → hex_value (hex_digit d) ≡ some d
unfolding hex_value hex_digit
hex_value-hex_digit d h = ground arith

read_hex :
    (digits value d : ℕ) (cs : List ℕ)
    → d < 16
    → read_string (hex digits value) (hex_digit d ∷ cs)
      ≡ follow (λ m. read_string m cs) cs (hex_step digits value (some d))
unfolding read_string action
read_hex digits value d cs h = rw (read_string, hex_value-hex_digit d h) refl

read-unicode_escape :
    (r : ℕ) (cs : List ℕ)
    → r < 32
    → read_string plain (unicode_escape r ++ cs) ≡ push r (read_string plain cs)
unfolding unicode_escape read_string hex_step
read-unicode_escape r cs h =
    read_hex 2 0 (r / 16) (hex_digit (r % 16) ∷ cs) (omega arith)
    ∙ read_hex 3 (0 * 16 + r / 16) (r % 16) cs (omega arith)
    ∙ ap (λ d. push d (read_string plain cs)) (omega arith)

read-escape_rune :
    (r : ℕ) (cs : List ℕ) → read_string plain (escape_rune r ++ cs) ≡ push r (read_string plain cs)
unfolding escape_rune read_string push
read-escape_rune r cs = ground (arith, read-unicode_escape r cs)

read-escape_runes :
    (rs rest : List ℕ) → read_string plain (escape_runes rs (b'"' ∷ rest)) ≡ some (rs, rest)
unfolding escape_runes read_string push
read-escape_runes [] rest = refl
read-escape_runes (r ∷ rs) rest =
    read-escape_rune r (escape_runes rs (b'"' ∷ rest)) ∙ rw (read-escape_runes rs rest) refl

escape_runes-append : (rs t rest : List ℕ) → escape_runes rs t ++ rest ≡ escape_runes rs (t ++ rest)
unfolding escape_runes
escape_runes-append [] t rest = refl
escape_runes-append (r ∷ rs) t rest =
    append_assoc (escape_rune r) (escape_runes rs t) rest
    ∙ ap (λ u. escape_rune r ++ u) (escape_runes-append rs t rest)

-- A reader of JSON strings reads the canonical form of a text as that text, and stops where the form
-- ends, whatever follows it.
pub read-canonicalize_string :
    (s rest : List ℕ) → read_json_string (canonicalize_string s ++ rest) ≡ some (s, rest)
unfolding read_json_string canonicalize_string
read-canonicalize_string s rest =
    rw (escape_runes-append s (b'"' ∷ []) rest) (read-escape_runes s rest)
