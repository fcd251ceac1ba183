-- ===== src/Diff/Levenshtein/Edits.antt =====
-- Edits from one text to another, one character at a time, and the least number of changes, by
-- recursion from the ends of the texts.
use mathlib.Core.List.{reverse_aux}
use native.Mathlib.Decide.{dec_le}
use sentoris_proxy.Prelude.{
  ℕ, suc, ◌+◌, ◌≤◌, ◌==◌, ◌≡◌, refl, min, Bool, true, false, List, [], ◌∷◌, length, if◌then◌else◌,
  arith,
}

-- The changes are counted.
pub data Edits : List ℕ → List ℕ → ℕ → Type 0 where
  done : Edits [] [] 0
  keep : {s t : List ℕ} {n : ℕ} (x : ℕ) → Edits s t n → Edits (x ∷ s) (x ∷ t) n
  replace : {s t : List ℕ} {n : ℕ} (x y : ℕ) → Edits s t n → Edits (x ∷ s) (y ∷ t) (suc n)
  remove : {s t : List ℕ} {n : ℕ} (x : ℕ) → Edits s t n → Edits (x ∷ s) t (suc n)
  insert : {s t : List ℕ} {n : ℕ} (y : ℕ) → Edits s t n → Edits s (y ∷ t) (suc n)

unfoldable pub distance : List ℕ → List ℕ → ℕ
distance [] t = length t
distance (x ∷ s) [] = suc (length s)
distance (x ∷ s) (y ∷ t) =
    let both = distance s t in
    let without = distance s (y ∷ t) in
    let with = distance (x ∷ s) t in
    if x == y then both else min (min (suc without) (suc with)) (suc both)

pub distance-nil : (s : List ℕ) → distance s [] ≡ length s
unfolding distance
distance-nil [] = refl
distance-nil (x ∷ s) = refl

-- One more character in front of either text changes the distance by one at most.
near :
    (s t : List ℕ)
    → ((x : ℕ)
        → (distance (x ∷ s) t ≤ suc (distance s t)) × (distance s t ≤ suc (distance (x ∷ s) t)))
      × ((y : ℕ)
          → (distance s (y ∷ t) ≤ suc (distance s t)) × (distance s t ≤ suc (distance s (y ∷ t))))
unfolding distance
near [] [] = (λ x. omega arith, λ y. omega arith)
near [] (z ∷ t) = (λ x. ground (arith, (near [] t).0 x), λ y. omega arith)
near (z ∷ s) [] = (λ x. omega arith, λ y. ground (arith, distance-nil s, (near s []).1 y))
near (z ∷ s) (w ∷ t) = (
  λ x. ground (arith, (near (z ∷ s) t).1 w, (near (z ∷ s) t).0 x),
  λ y. ground (arith, (near s (w ∷ t)).0 z, (near s (w ∷ t)).1 y),
)

equal_self : (x : ℕ) → x == x ≡ true
equal_self x = ground arith

-- No edits make fewer changes than the distance.
pub distance-le-Edits : {s t : List ℕ} {n : ℕ} → Edits s t n → distance s t ≤ n
unfolding distance
distance-le-Edits done = omega arith
distance-le-Edits (keep x e) = rw (equal_self x) (distance-le-Edits e)
distance-le-Edits (replace x y e) = ground (arith, distance-le-Edits e)
distance-le-Edits (remove {s} {t = []} x e) = omega (arith, distance-le-Edits e, distance-nil s)
distance-le-Edits (remove {s} {t = y ∷ t} x e) = ground (arith, distance-le-Edits e, (near s t).1 y)
distance-le-Edits (insert {s = []} y e) = omega (arith, distance-le-Edits e)
distance-le-Edits (insert {s = x ∷ s} {t} y e) = ground (arith, distance-le-Edits e, (near s t).0 x)

removed : (s : List ℕ) → Edits s [] (length s)
removed [] = done
removed (x ∷ s) = remove x (removed s)

kept : {s t : List ℕ} {n : ℕ} (x y : ℕ) → x == y ≡ true → Edits s t n → Edits (x ∷ s) (y ∷ t) n
kept x y e edits = rw (← equal) (keep x edits)
  where
    equal : x ≡ y
    equal = ground arith

fewer : {s t : List ℕ} {a b : ℕ} → Edits s t a → Edits s t b → Edits s t (min a b)
fewer {a} {b} p q = elim (dec_le a b) [
  | yes h ↦ let first : min a b ≡ a = omega arith in rw first p
  | no h ↦ let second : min a b ≡ b = omega arith in rw second q
]

either :
    {s t : List ℕ} {a b : ℕ} (c : Bool)
    → (c ≡ true → Edits s t a)
    → Edits s t b
    → Edits s t (if c then a else b)
either true p q = p refl
either false p q = q

-- Some edits make as few.
pub distance_attained : (s t : List ℕ) → Edits s t (distance s t)
unfolding distance
distance_attained [] [] = done
distance_attained [] (y ∷ t) = insert y (distance_attained [] t)
distance_attained (x ∷ s) [] = remove x (removed s)
distance_attained (x ∷ s) (y ∷ t) =
    let both = distance_attained s t in
    let without = remove x (distance_attained s (y ∷ t)) in
    let with = insert y (distance_attained (x ∷ s) t) in
    either (x == y) (λ e. kept x y e both) (fewer (fewer without with) (replace x y both))

-- Edits of two pairs of texts, one after the other, the first read backwards.
later : {s t : List ℕ} (n m : ℕ) → Edits s t (n + suc m) → Edits s t (suc n + m)
later n m e = let equal_self : suc n + m ≡ n + suc m = omega arith in rw equal_self e

pub Edits-reverse :
    {s t p q : List ℕ} {n m : ℕ}
    → Edits s t n
    → Edits p q m
    → Edits (reverse_aux s p) (reverse_aux t q) (n + m)
Edits-reverse {m} done f = let sum : 0 + m ≡ m = omega arith in rw sum f
Edits-reverse (keep x e) f = Edits-reverse e (keep x f)
Edits-reverse {n = suc n} {m} (replace x y e) f = later n m (Edits-reverse e (replace x y f))
Edits-reverse {n = suc n} {m} (remove x e) f = later n m (Edits-reverse e (remove x f))
Edits-reverse {n = suc n} {m} (insert y e) f = later n m (Edits-reverse e (insert y f))
