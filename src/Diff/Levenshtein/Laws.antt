-- ===== src/Diff/Levenshtein/Laws.antt =====
-- The table holds the distances of the texts' beginnings.
use mathlib.Core.List.{reverse_aux, reverse, reverse-reverse}
use sentoris_proxy.Prelude.{
  ℕ, suc, ◌+◌, ◌≤◌, ◌≡◌, ◌≢◌, refl, sym, ap, ◌∙◌, max, List, [], ◌∷◌, length, arith,
}
use sentoris_proxy.Diff.Levenshtein.{
  cell, fill_row, fill_rows, first_row, last_cell, table_distance, levenshtein_distance,
  byte_length,
}
use sentoris_proxy.Diff.Levenshtein.Edits.{
  Edits, done, keep, distance, distance-nil, distance-le-Edits, distance_attained, Edits-reverse,
}

-- The row of a beginning p, read backwards, from the column of q on.
row_from : (p q ys : List ℕ) → List ℕ
row_from p q [] = distance p q ∷ []
row_from p q (y ∷ ys) = distance p q ∷ row_from p (y ∷ q) ys

cell-distance :
    (x y : ℕ) (p q : List ℕ)
    → cell x y (distance p q) (distance p (y ∷ q)) (distance (x ∷ p) q) ≡ distance (x ∷ p) (y ∷ q)
unfolding cell distance
cell-distance x y p q = ground arith

fill_row-row :
    (x : ℕ) (p q ys : List ℕ)
    → distance (x ∷ p) q ∷ fill_row x ys (row_from p q ys) (distance (x ∷ p) q)
      ≡ row_from (x ∷ p) q ys
unfolding fill_row row_from
fill_row-row x p q [] = refl
fill_row-row x p q (y ∷ []) = rw (cell-distance x y p q) refl
fill_row-row x p q (y ∷ (z ∷ ys)) =
    rw (cell-distance x y p q)
      (ap (λ row. distance (x ∷ p) q ∷ row) (fill_row-row x p (y ∷ q) (z ∷ ys)))

first_row-row : (q ys : List ℕ) → first_row (length q) ys ≡ row_from [] q ys
unfolding first_row row_from distance
first_row-row q [] = refl
first_row-row q (y ∷ ys) =
    let next : length q + 1 ≡ length (y ∷ q) = omega arith in
    rw next (ap (λ row. length q ∷ row) (first_row-row (y ∷ q) ys))

fill_rows-row :
    (p xs : List ℕ) (i : ℕ) (ys : List ℕ)
    → i ≡ suc (length p)
    → fill_rows i xs ys (row_from p [] ys) ≡ row_from (reverse_aux xs p) [] ys
unfolding fill_rows
fill_rows-row p [] i ys e = refl
fill_rows-row p (x ∷ xs) i ys e = rw step (fill_rows-row (x ∷ p) xs (i + 1) ys (omega arith))
  where
    start : i ≡ distance (x ∷ p) []
    start = e ∙ sym (distance-nil (x ∷ p))

    step : i ∷ fill_row x ys (row_from p [] ys) i ≡ row_from (x ∷ p) [] ys
    step = rw start (fill_row-row x p [] ys)

last_cell-row : (p q ys : List ℕ) → last_cell (row_from p q ys) ≡ distance p (reverse_aux ys q)
unfolding last_cell row_from
last_cell-row p q [] = refl
last_cell-row p q (y ∷ []) = refl
last_cell-row p q (y ∷ (z ∷ ys)) = last_cell-row p (y ∷ q) (z ∷ ys)

pub table_distance-distance :
    (r1 r2 : List ℕ) → table_distance r1 r2 ≡ distance (reverse r1) (reverse r2)
unfolding table_distance
table_distance-distance r1 r2 =
    rw (first_row-row [] r2, fill_rows-row [] r1 1 r2 (omega arith))
      (last_cell-row (reverse r1) [] r2)

distance-least :
    (s t : List ℕ)
    → Edits s t (distance (reverse s) (reverse t))
      × ((n : ℕ) → Edits s t n → distance (reverse s) (reverse t) ≤ n)
distance-least s t = (attained, λ n e. omega (arith, distance-le-Edits (Edits-reverse e done)))
  where
    attained : Edits s t (distance (reverse s) (reverse t))
    attained =
        let e = Edits-reverse (distance_attained (reverse s) (reverse t)) done in
        rw (reverse-reverse s, reverse-reverse t, sum (distance (reverse s) (reverse t))) at e
      where
        sum : (n : ℕ) → n + 0 ≡ n
        sum n = omega arith

-- The distance of two texts that are not empty is the least number of changes of one character, each a
-- replacement, a removal or an insertion, that make the second of the first.
pub levenshtein_distance-least :
    (s1 s2 : List ℕ)
    → s1 ≢ []
    → s2 ≢ []
    → Edits s1 s2 (levenshtein_distance s1 s2)
      × ((n : ℕ) → Edits s1 s2 n → levenshtein_distance s1 s2 ≤ n)
unfolding levenshtein_distance
levenshtein_distance-least [] s2 p q = absurd (p refl)
levenshtein_distance-least (x ∷ s1) [] p q = absurd (q refl)
levenshtein_distance-least (x ∷ s1) (y ∷ s2) p q =
    rw (table_distance-distance (x ∷ s1) (y ∷ s2)) (distance-least (x ∷ s1) (y ∷ s2))

distance_bound : (s t : List ℕ) → distance s t ≤ max (length s) (length t)
unfolding distance
distance_bound [] t = omega arith
distance_bound (x ∷ s) [] = omega arith
distance_bound (x ∷ s) (y ∷ t) = ground (arith, distance_bound s t)

length-reverse_aux : (s r : List ℕ) → length (reverse_aux s r) ≡ length s + length r
length-reverse_aux [] r = omega arith
length-reverse_aux (x ∷ s) r = omega (arith, length-reverse_aux s (x ∷ r))

length-byte_length : (s : List ℕ) → length s ≤ byte_length s
unfolding byte_length
length-byte_length [] = omega arith
length-byte_length (r ∷ rs) = ground (arith, length-byte_length rs)

-- The distance is at most the number of bytes of the longer text.
pub levenshtein_distance_bound :
    (s1 s2 : List ℕ) → levenshtein_distance s1 s2 ≤ max (byte_length s1) (byte_length s2)
unfolding levenshtein_distance
levenshtein_distance_bound [] s2 = omega arith
levenshtein_distance_bound (x ∷ s1) [] = omega arith
levenshtein_distance_bound (x ∷ s1) (y ∷ s2) = omega (
  arith,
  table_distance-distance (x ∷ s1) (y ∷ s2),
  distance_bound (reverse (x ∷ s1)) (reverse (y ∷ s2)),
  length-reverse_aux (x ∷ s1) [],
  length-reverse_aux (y ∷ s2) [],
  length-byte_length (x ∷ s1),
  length-byte_length (y ∷ s2),
)

-- A text is at distance 0 from itself.
pub levenshtein_distance_self : (s : List ℕ) → levenshtein_distance s s ≡ 0
unfolding levenshtein_distance byte_length
levenshtein_distance_self [] = refl
levenshtein_distance_self (x ∷ s) = omega (
  arith,
  (distance-least (x ∷ s) (x ∷ s)).1 0 (kept (x ∷ s)),
  table_distance-distance (x ∷ s) (x ∷ s),
)
  where
    kept : (s : List ℕ) → Edits s s 0
    kept [] = done
    kept (x ∷ s) = keep x (kept s)
