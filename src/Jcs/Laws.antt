-- ===== src/Jcs/Laws.antt =====
-- The order of a map's fields does not show in the canonical form.
use mathlib.Core.List.{Perm}
use mathlib.Core.Option
use sentoris_proxy.Prelude.{ℕ, ◌≡◌, refl, sym, ◌∙◌, ap, List, [], ◌∷◌, String, Map, lookup, arith}
use sentoris_proxy.Prelude.Int.{ℤ}
use sentoris_proxy.Domain.Value.{object, Fields, no_fields, field, get}
use sentoris_proxy.Jcs.{
  Canonical, keys, canonicalize, canonicalize_fields, write_object, members, member, bracketed,
}

members-lookup :
    (s t : Map Canonical) (ks : List String)
    → ((k : String) → lookup k s ≡ lookup k t)
    → members s ks ≡ members t ks
unfolding members member
members-lookup s t [] h = refl
members-lookup s t (k ∷ ks) h = rw (h k, members-lookup s t ks h) refl

module _ (sort : List String → List String) (show_int show_float : ℤ → List ℕ) where
  pub lookup-canonicalize_fields :
      (k : String) (fs : Fields)
      → lookup k (canonicalize_fields sort show_int show_float fs)
        ≡ Option.map (canonicalize sort show_int show_float) (get k fs)
  unfolding canonicalize_fields lookup get
  lookup-canonicalize_fields k no_fields = refl
  lookup-canonicalize_fields k (field j v rest) = ground (arith, lookup-canonicalize_fields k rest)

  -- Two objects with the same value for each key, whose keys stand in any order, have one canonical
  -- form, or the same error, where `sort` puts the keys in one order however they stood.
  pub canonicalize_order :
      ((xs ys : List String) → Perm xs ys → sort xs ≡ sort ys)
      → (fs gs : Fields) → Perm (keys fs) (keys gs)
      → ((k : String) → get k fs ≡ get k gs)
      → canonicalize sort show_int show_float (object fs)
        ≡ canonicalize sort show_int show_float (object gs)
  unfolding canonicalize write_object
  canonicalize_order sorts fs gs perm same = rw (sorts (keys fs) (keys gs) perm) (
      ap (bracketed b'{' b'}') (
        members-lookup _ _ (sort (keys gs)) λ k.
          lookup-canonicalize_fields k fs
          ∙ ap (Option.map (canonicalize sort show_int show_float)) (same k)
          ∙ sym (lookup-canonicalize_fields k gs)))
