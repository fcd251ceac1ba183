-- ===== src/Upstream/FaultTolerant/Search.antt =====
-- The substring search that classifies errors decides whether one byte string stands in another.
use sentoris_proxy.Prelude.{
  ℕ, zero, suc, ◌+◌, ◌-◌, ◌≤◌, ◌<◌, ◌≡◌, inl, inr, refl, ap, sym, ◌∙◌, ◌↔◌, true, List, [], ◌∷◌,
  ◌++◌, arith, length, length-append, le→leb, Bool-cases,
}
use mathlib.Core.List.{append-nil}
use sentoris_proxy.Upstream.FaultTolerant.{
  same_bytes, matches_here, contains_from, contains_helper, contains_bytes,
}

-- `substr` stands in `s`, with the bytes before it and after it.
abbrev pub Occurs : List ℕ → List ℕ → Type 0
Occurs substr s = (before : List ℕ) × (after : List ℕ) × (s ≡ before ++ (substr ++ after))

same_bytes_sound : (s t : List ℕ) → same_bytes s t ≡ true → s ≡ t
unfolding same_bytes
same_bytes_sound [] [] h = refl
same_bytes_sound [] (y ∷ ys) h = cc
same_bytes_sound (x ∷ xs) [] h = cc
same_bytes_sound (x ∷ xs) (y ∷ ys) h = ground (arith, same_bytes_sound xs ys)

matches_here_sound : (s t : List ℕ) → matches_here s t ≡ true → (after : List ℕ) × (s ≡ t ++ after)
unfolding matches_here
matches_here_sound s [] h = (s, refl)
matches_here_sound [] (y ∷ ys) h = cc
matches_here_sound (x ∷ xs) (y ∷ ys) h =
    let same : x ≡ y = ground arith in
    let (after, e) = matches_here_sound xs ys (ground arith) in (after, cc)

matches_here-append : (t after : List ℕ) → matches_here (t ++ after) t ≡ true
unfolding matches_here
matches_here-append [] after = refl
matches_here-append (y ∷ ys) after = ground (arith, matches_here-append ys after)

contains_from_sound : (rounds : ℕ) (s t : List ℕ) → contains_from rounds s t ≡ true → Occurs t s
unfolding contains_from
contains_from_sound zero s t h = cc
contains_from_sound (suc rounds) [] t h =
    let (after, e) = matches_here_sound [] t h in ([], after, e)
contains_from_sound (suc rounds) (x ∷ xs) t h = elim (Bool-cases (matches_here (x ∷ xs) t)) [
  | inl e ↦ let (after, p) = matches_here_sound (x ∷ xs) t e in ([], after, p)
  | inr e ↦
      let (before, after, p) = contains_from_sound rounds xs t (ground arith) in
      (x ∷ before, after, ap (λ r. x ∷ r) p)
]

contains_from-append :
    (before t after : List ℕ) (rounds : ℕ)
    → length before < rounds
    → contains_from rounds (before ++ (t ++ after)) t ≡ true
unfolding contains_from matches_here
contains_from-append [] t after zero h = absurd (omega arith)
contains_from-append [] [] [] (suc rounds) h = refl
contains_from-append [] [] (a ∷ after) (suc rounds) h = refl
contains_from-append [] (y ∷ ys) after (suc rounds) h =
    ground (arith, matches_here-append (y ∷ ys) after)
contains_from-append (x ∷ xs) t after zero h = absurd (omega arith)
contains_from-append (x ∷ xs) t after (suc rounds) h =
    ground (arith, contains_from-append xs t after rounds)

length-Occurs :
    (before t after : List ℕ)
    → length (before ++ (t ++ after)) ≡ length before + length t + length after
length-Occurs before t after =
    omega (arith, length-append before (t ++ after), length-append t after)

same_bytes_refl : (s : List ℕ) → same_bytes s s ≡ true
unfolding same_bytes
same_bytes_refl [] = refl
same_bytes_refl (x ∷ xs) = ground (arith, same_bytes_refl xs)

contains_bytes_sound : (s t : List ℕ) → contains_bytes s t ≡ true → Occurs t s
unfolding contains_bytes contains_helper
contains_bytes_sound s t h = elim (Bool-cases (same_bytes s t)) [
  | inl e ↦ ([], [], same_bytes_sound s t e ∙ sym (append-nil t))
  | inr e ↦ contains_from_sound (length s + 1 - length t) s t (ground arith)
]

contains_bytes_found :
    (s t : List ℕ)
    → length t ≤ length s
    → contains_from (length s + 1 - length t) s t ≡ true
    → contains_bytes s t ≡ true
unfolding contains_bytes contains_helper
contains_bytes_found [] [] h found = refl
contains_bytes_found [] (y ∷ ys) h found = absurd (omega arith)
contains_bytes_found (x ∷ xs) t h found = rw (found, le→leb _ _ h) (ground arith)

contains_bytes-append : (before t after : List ℕ) → contains_bytes (before ++ (t ++ after)) t ≡ true
contains_bytes-append before t after =
    let n = length-Occurs before t after in
    contains_bytes_found (before ++ (t ++ after)) t (omega arith) (
      contains_from-append before t after (length (before ++ (t ++ after)) + 1 - length t)
        (omega arith))

-- `contains(s, substr)` is true exactly when `substr` stands somewhere in `s`.
pub contains_bytes_iff : (s t : List ℕ) → (contains_bytes s t ≡ true) ↔ Occurs t s
contains_bytes_iff s t =
    (contains_bytes_sound s t, λ (before, after, e). rw e (contains_bytes-append before t after))
