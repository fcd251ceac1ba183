-- ===== src/Diff/Levenshtein.antt =====
-- `LevenshteinDistance` of internal/service/diff/differ.go. A text is its code points, as `[]rune(s)`
-- gives them. The table is filled row by row, and a row is read only to fill the next one.
pub mod Edits
pub mod Laws
mod Tests
use sentoris_proxy.Prelude.{ℕ, suc, ◌+◌, ltb, ◌==◌, List, [], ◌∷◌, length, if◌then◌else◌}

-- `len(s)`, the bytes of UTF-8.
unfoldable pub byte_length : List ℕ → ℕ
byte_length [] = 0
byte_length (r ∷ rs) =
    let size = if ltb r 128 then 1 else if ltb r 2048 then 2 else if ltb r 65536 then 3 else 4 in
    size + byte_length rs

-- `dp[0][j] = j` from some column on.
unfoldable pub first_row : ℕ → List ℕ → List ℕ
first_row j [] = j ∷ []
first_row j (y ∷ ys) = j ∷ first_row (j + 1) ys

-- One cell from `dp[i-1][j-1]`, `dp[i-1][j]` and `dp[i][j-1]`.
unfoldable pub cell : (x y diagonal above left : ℕ) → ℕ
cell x y diagonal above left =
    if x == y
    then diagonal
    else (let least = if ltb left above then left else above in
        if ltb diagonal least then diagonal + 1 else least + 1)

-- The inner loop: the row above from column j-1 on, and `dp[i][j-1]`.
unfoldable pub fill_row : (x : ℕ) → (ys above : List ℕ) → (left : ℕ) → List ℕ
unfolding cell
fill_row x (y ∷ ys) (diagonal ∷ (over ∷ above)) left =
    let here = cell x y diagonal over left in here ∷ fill_row x ys (over ∷ above) here
fill_row x ys above left = []

-- The outer loop, which starts row i with `dp[i][0] = i`.
unfoldable pub fill_rows : (i : ℕ) → (xs ys row : List ℕ) → List ℕ
unfolding fill_row
fill_rows i [] ys row = row
fill_rows i (x ∷ xs) ys row = fill_rows (i + 1) xs ys (i ∷ fill_row x ys row i)

unfoldable pub last_cell : List ℕ → ℕ
last_cell [] = 0
last_cell (c ∷ []) = c
last_cell (c ∷ (d ∷ row)) = last_cell (d ∷ row)

-- Of two texts that are not empty.
unfoldable pub table_distance : List ℕ → List ℕ → ℕ
unfolding first_row fill_rows last_cell
table_distance r1 r2 = last_cell (fill_rows 1 r1 r2 (first_row 0 r2))

unfoldable pub levenshtein_distance : List ℕ → List ℕ → ℕ
unfolding byte_length table_distance
levenshtein_distance [] s2 = byte_length s2
levenshtein_distance (x ∷ s1) [] = byte_length (x ∷ s1)
levenshtein_distance (x ∷ s1) (y ∷ s2) = table_distance (x ∷ s1) (y ∷ s2)
