-- ===== src/Security/KeyManager/Laws.antt =====
-- Which key a pool gives next_key, and how even the uses stay.
use sentoris_proxy.Prelude.{
  ℕ, suc, ◌≤◌, ◌≡◌, ◌≢◌, refl, sym, ◌∙◌, Bool-cases, true, false, inl, inr, ◌⊎◌, ltb, none, some,
  List, [], ◌∷◌, String, ok, str_eq, eq_iff, eq_refl, Map, lookup, holds, IsMap, lookup-holds,
  lookup-insert, holds-insert, insert-IsMap, insert, ◌++◌, if◌then◌else◌, arith,
}
use sentoris_proxy.Security.KeyManager.{
  KeyPool, Selected, select, choose, count_use, next_key, next_key_of, add_key,
}

lookup-later :
    (name : String) (uses : ℕ) (usage : Map ℕ) (k : String) (l : ℕ)
    → holds name usage ≡ false
    → lookup k usage ≡ some l
    → lookup k ((name, uses) ∷ usage) ≡ some l
unfolding lookup
lookup-later name uses usage k l fresh h =
    ground (arith, eq_iff name k, lookup-holds name usage fresh)

lookup-first :
    (name : String) (uses : ℕ) (usage : Map ℕ) → lookup name ((name, uses) ∷ usage) ≡ some uses
unfolding lookup
lookup-first name uses usage = rw (eq_refl name) refl

-- The least count of `usage` and of the start is selected, and its key.
abbrev IsLeast : (n : ℕ) → (key : String) → Map ℕ → Selected → Type 0
IsLeast n key usage s =
    (l : ℕ) × (s.least ≡ some l)
    × (l ≤ n)
    × ((j : String) → (m : ℕ) → lookup j usage ≡ some m → l ≤ m)
    × (((s.key ≡ key) × (l ≡ n)) ⊎ (lookup s.key usage ≡ some l))

-- One more entry at the front: the bound holds for it too.
least-entry :
    (name : String) (uses : ℕ) (usage : Map ℕ) (l : ℕ)
    → l ≤ uses
    → ((j : String) → (m : ℕ) → lookup j usage ≡ some m → l ≤ m)
    → (j : String) → (m : ℕ) → lookup j ((name, uses) ∷ usage) ≡ some m
    → l ≤ m
unfolding lookup
least-entry name uses usage l bound rest j m h = elim (Bool-cases (str_eq name j)) [
  | inl e ↦ let here : some uses ≡ some m = (rw e at h) in ground arith
  | inr e ↦ rest j m (rw e at h)
]

IsLeast-less :
    (n : ℕ) (key name : String) (uses : ℕ) (usage : Map ℕ) (s : Selected)
    → holds name usage ≡ false
    → ltb uses n ≡ true
    → IsLeast uses name usage s
    → IsLeast n key ((name, uses) ∷ usage) s
unfolding lookup
IsLeast-less n key name uses usage s fresh less (l, e, bound, least, origin) =
    (l, e, ground arith, least-entry name uses usage l bound least, inr (found origin))
  where
    found :
        ((s.key ≡ name) × (l ≡ uses)) ⊎ (lookup s.key usage ≡ some l)
        → lookup s.key ((name, uses) ∷ usage) ≡ some l
    found (inl (same, least_uses)) = rw (same, least_uses, eq_refl name) refl
    found (inr later) = lookup-later name uses usage s.key l fresh later

IsLeast-more :
    (n : ℕ) (key name : String) (uses : ℕ) (usage : Map ℕ) (s : Selected)
    → holds name usage ≡ false
    → ltb uses n ≡ false
    → IsLeast n key usage s
    → IsLeast n key ((name, uses) ∷ usage) s
IsLeast-more n key name uses usage s fresh more (l, e, bound, least, origin) =
    (l, e, bound, least-entry name uses usage l (ground arith) least, found origin)
  where
    found :
        ((s.key ≡ key) × (l ≡ n)) ⊎ (lookup s.key usage ≡ some l)
        → ((s.key ≡ key) × (l ≡ n)) ⊎ (lookup s.key ((name, uses) ∷ usage) ≡ some l)
    found (inl start) = inl start
    found (inr later) = inr (lookup-later name uses usage s.key l fresh later)

select-cons :
    (n : ℕ) (key name : String) (uses : ℕ) (usage : Map ℕ)
    → select (record { least = some n; key = key }) ((name, uses) ∷ usage)
      ≡ select
          (if ltb uses n
            then record { least = some uses; key = name }
            else record { least = some n; key = key })
          usage
unfolding select
select-cons n key name uses usage = refl

IsLeast-nil :
    (n : ℕ) (key : String) → IsLeast n key [] (select (record { least = some n; key = key }) [])
unfolding select lookup
IsLeast-nil n key = (n, refl, omega arith, λ j m e. absurd (clash e), inl (refl, refl))
  where
    clash : {m : ℕ} → none ≡ some m → ⊥
    clash e = cc

select-IsLeast :
    (n : ℕ) (key : String) (usage : Map ℕ)
    → IsMap usage
    → IsLeast n key usage (select (record { least = some n; key = key }) usage)
select-IsLeast n key [] h = IsLeast-nil n key
select-IsLeast n key ((name, uses) ∷ usage) (fresh, rest) = elim (Bool-cases (ltb uses n)) [
  | inl less ↦
      rw (select-cons n key name uses usage, less)
        (IsLeast-less n key name uses usage _ fresh less (select-IsLeast uses name usage rest))
  | inr more ↦
      rw (select-cons n key name uses usage, more)
        (IsLeast-more n key name uses usage _ fresh more (select-IsLeast n key usage rest))
]

-- What is selected of a map that has an entry.
select-least :
    (usage : Map ℕ)
    → usage ≢ []
    → IsMap usage
    → (l : ℕ) × (lookup (select (record { least = none; key = "" }) usage).key usage ≡ some l)
      × ((j : String) → (m : ℕ) → lookup j usage ≡ some m → l ≤ m)
unfolding select
select-least [] counted is_map = absurd (counted refl)
select-least ((name, uses) ∷ usage) counted (fresh, rest) =
    let (l, e, bound, least, origin) = select-IsLeast uses name usage rest in
    (l, found _ l origin, least-entry name uses usage l bound least)
  where
    found :
        (k : String) (l : ℕ)
        → ((k ≡ name) × (l ≡ uses)) ⊎ (lookup k usage ≡ some l)
        → lookup k ((name, uses) ∷ usage) ≡ some l
    found k l (inl (same, least_uses)) = rw (same, least_uses) (lookup-first name uses usage)
    found k l (inr later) = lookup-later name uses usage k l fresh later

-- The pool has keys and counts, one for a key, and none for the empty text.
abbrev pub IsWellKept : KeyPool → Type 0
IsWellKept p = (p.usage ≢ []) × (p.keys ≢ []) × IsMap p.usage × (holds "" p.usage ≡ false)

lookup-count_use :
    (key : String) (n : ℕ) (usage : Map ℕ)
    → lookup key usage ≡ some n
    → (j : String)
    → lookup j (count_use key usage) ≡ (if str_eq key j then some (suc n) else lookup j usage)
unfolding count_use
lookup-count_use key n usage here j = rw here (lookup-insert key j (suc n) usage)

insert-filled : (k : String) (n : ℕ) (m : Map ℕ) → insert k n m ≢ []
unfolding insert
insert-filled k n [] e = cc
insert-filled k n ((j, l) ∷ m) e = ground arith

-- A key that is not empty can be added.
add_key-IsWellKept :
    (p : KeyPool) (key : String)
    → IsMap p.usage
    → holds "" p.usage ≡ false
    → str_eq key "" ≡ false
    → IsWellKept (add_key key p)
unfolding add_key
add_key-IsWellKept p key is_map unnamed named = (
  insert-filled key 0 p.usage,
  snoc-filled p.keys,
  insert-IsMap key 0 p.usage is_map,
  holds-insert key "" 0 p.usage ∙ rw named unnamed,
)
  where
    snoc-filled : (ks : List String) → ks ++ (key ∷ []) ≢ []
    snoc-filled [] e = cc
    snoc-filled (k ∷ ks) e = cc

choose-IsWellKept :
    (p : KeyPool) (key : String) (n : ℕ)
    → IsWellKept p
    → lookup key p.usage ≡ some n
    → str_eq key "" ≡ false
    → IsWellKept (choose key p).1
unfolding choose count_use
choose-IsWellKept p key n (counted, full, is_map, unnamed) here named = rw here (
  insert-filled key (suc n) p.usage,
  full,
  insert-IsMap key (suc n) p.usage is_map,
  holds-insert key "" (suc n) p.usage ∙ rw named unnamed,
)

next_key_of-keys :
    (keys : List String) (p : KeyPool) (key : String)
    → keys ≢ []
    → str_eq key "" ≡ false
    → (select (record { least = none; key = "" }) p.usage).key ≡ key
    → next_key_of keys p ≡ ok (choose key p)
unfolding next_key_of
next_key_of-keys [] p key full named e = absurd (full refl)
next_key_of-keys (k ∷ keys) p key full named e = rw (e, named) refl

-- A pool that has keys and counts, one for a key and none for the empty text, gives the key that has
-- been used least, or one of these, and counts this use and no other; the pool is then again such a
-- pool.
pub next_key_lem :
    (p : KeyPool)
    → IsWellKept p
    → (key : String) × (used : KeyPool) × (n : ℕ) × (next_key p ≡ ok (key, used))
      × (lookup key p.usage ≡ some n)
      × ((j : String) → (m : ℕ) → lookup j p.usage ≡ some m → n ≤ m)
      × ((j : String)
          → lookup j used.usage ≡ (if str_eq key j then some (suc n) else lookup j p.usage))
      × IsWellKept used
unfolding next_key choose
next_key_lem p (counted, full, is_map, unnamed) =
    let (n, here, least) = select-least p.usage counted is_map in
    let key = (select (record { least = none; key = "" }) p.usage).key in
    (
      key,
      _,
      n,
      next_key_of-keys p.keys p key full (named key n here) refl,
      here,
      least,
      lookup-count_use key n p.usage here,
      choose-IsWellKept p key n (counted, full, is_map, unnamed) here (named key n here),
    )
  where
    named : (key : String) (n : ℕ) → lookup key p.usage ≡ some n → str_eq key "" ≡ false
    named key n here = ground (arith, eq_iff key "", lookup-holds "" p.usage unnamed)

-- No two counts differ by more than 1.
abbrev pub IsEven : KeyPool → Type 0
IsEven p =
    (j k : String) (m n : ℕ) → lookup j p.usage ≡ some m → lookup k p.usage ≡ some n → m ≤ suc n

-- A count after a use: it is the new one, or it was there.
count-cases :
    (key j : String) (n a : ℕ) (usage : Map ℕ)
    → (if str_eq key j then some (suc n) else lookup j usage) ≡ some a
    → (a ≡ suc n) ⊎ (lookup j usage ≡ some a)
count-cases key j n a usage h = elim (Bool-cases (str_eq key j)) [
  | inl e ↦ let now : some (suc n) ≡ some a = (rw e at h) in inl (ground arith)
  | inr e ↦ inr (rw e at h)
]

-- If no two counts of a pool differ by more than 1, and it has keys and counts, one for a key and none
-- for the empty text, the same holds when the next key has been given.
pub next_key-IsEven :
    (p : KeyPool)
    → IsWellKept p
    → IsEven p
    → (key : String) × (used : KeyPool) × (next_key p ≡ ok (key, used))
      × IsEven used
      × IsWellKept used
next_key-IsEven p kept even =
    let (key, used, n, e, here, least, counts, kept_now) = next_key_lem p kept in
    (
      key,
      used,
      e,
      λ j k a b ha hb.
          close key n j k a b here least (count-cases key j n a p.usage (sym (counts j) ∙ ha))
            (count-cases key k n b p.usage (sym (counts k) ∙ hb)),
      kept_now,
    )
  where
    close :
        (key : String) (n : ℕ) (j k : String) (a b : ℕ)
        → lookup key p.usage ≡ some n
        → ((i : String) → (m : ℕ) → lookup i p.usage ≡ some m → n ≤ m)
        → (a ≡ suc n) ⊎ (lookup j p.usage ≡ some a)
        → (b ≡ suc n) ⊎ (lookup k p.usage ≡ some b)
        → a ≤ suc b
    close key n j k a b here least (inl p) (inl q) = omega arith
    close key n j k a b here least (inl p) (inr q) = omega (arith, least k b q)
    close key n j k a b here least (inr p) (inl q) = omega (arith, even j key a n p here)
    close key n j k a b here least (inr p) (inr q) = even j k a b p q
