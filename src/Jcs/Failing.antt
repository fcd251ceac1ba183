-- ===== src/Jcs/Failing.antt =====
-- An object that holds a value of a type that has no canonical form has none itself.
use mathlib.Core.Option
use sentoris_proxy.Prelude.{
  ℕ, ◌≡◌, refl, ◌∙◌, ap, Bool, true, false, inl, inr, none, some, List, [], ◌∷◌, String, Map,
  lookup, ok, err, eq_iff, arith, In,
}
use sentoris_proxy.Prelude.Int.{ℤ}
use sentoris_proxy.Domain.Value.{Value, object, Fields, no_fields, field, get}
use sentoris_proxy.Jcs.{
  Canonical, JcsError, keys, canonicalize, canonicalize_fields, write_object, members, member,
  bracketed, join_members,
}
use sentoris_proxy.Jcs.Laws.{lookup-canonicalize_fields}

abbrev pub Fails : Canonical → Type 0
Fails c = (e : JcsError) × (c ≡ err e)

join_members-tail :
    (first : Bool) (m : Canonical) (ms : List Canonical)
    → Fails (join_members false ms)
    → Fails (join_members first (m ∷ ms))
unfolding join_members
join_members-tail first (ok c) ms (e, h) = (e, rw h refl)
join_members-tail first (err e) ms h = (e, refl)

join_members-head :
    (first : Bool) (m : Canonical) (ms : List Canonical)
    → Fails m
    → Fails (join_members first (m ∷ ms))
unfolding join_members
join_members-head first m ms (e, h) = (e, rw h refl)

member-Fails :
    (table : Map Canonical) (k : String) (c : Canonical)
    → lookup k table ≡ some c
    → Fails c
    → Fails (member table k)
unfolding member
member-Fails table k c here (e, h) = (e, rw (here, h) refl)

members-Fails :
    (first : Bool) (table : Map Canonical) (ks : List String) (k : String) (c : Canonical)
    → In k ks
    → lookup k table ≡ some c
    → Fails c
    → Fails (join_members first (members table ks))
unfolding members
members-Fails first table [] k c held here h = absurd held
members-Fails first table (j ∷ ks) k c (inl same) here h =
    join_members-head first (member table j) (members table ks)
      (member-Fails table j c (rw (← same) here) h)
members-Fails first table (j ∷ ks) k c (inr later) here h =
    join_members-tail first (member table j) (members table ks)
      (members-Fails false table ks k c later here h)

keys-get : (k : String) (fs : Fields) (v : Value) → get k fs ≡ some v → In k (keys fs)
unfolding keys get
keys-get k no_fields v h = absurd (no h)
  where
    no : {v : Value} → none ≡ some v → ⊥
    no e = cc
keys-get k (field j w rest) v h = ground (arith, eq_iff j k, keys-get k rest v)

module _ (sort : List String → List String)
    (keeps : (k : String) (ks : List String) → In k ks → In k (sort ks))
    (show_int show_float : ℤ → List ℕ) where
  pub object-Fails :
      (k : String) (fs : Fields) (v : Value)
      → get k fs ≡ some v
      → Fails (canonicalize sort show_int show_float v)
      → Fails (canonicalize sort show_int show_float (object fs))
  unfolding canonicalize write_object bracketed
  object-Fails k fs v here h =
      let inner =
        members-Fails true (canonicalize_fields sort show_int show_float fs) (sort (keys fs)) k
          (canonicalize sort show_int show_float v) (keeps k (keys fs) (keys-get k fs v here))
          (lookup-canonicalize_fields sort show_int show_float k fs
            ∙ ap (Option.map (canonicalize sort show_int show_float)) here)
          h in
      (inner.0, rw (inner.1) refl)
