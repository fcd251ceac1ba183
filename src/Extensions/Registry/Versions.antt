-- ===== src/Extensions/Registry/Versions.antt =====
-- The order of versions, and which extensions a protocol version is compatible with.
use mathlib.Core.Path.{subst}
use sentoris_proxy.Prelude.{
  ◌≡◌, ◌≢◌, sym, ◌⊎◌, inl, inr, ◌↔◌, Bool-cases, true, false, [], ◌∷◌, String, arith, In,
}
use sentoris_proxy.Prelude.Int.{ℤ, pos, ◌-ℤ◌, ◌≤ℤ◌, ◌<ℤ◌, leb_ℤ, int_laws, eq_of_parts}
use sentoris_proxy.Extensions.Registry.{
  Entry, Registry, Version, same, compare_versions, get_compatible_extensions, min_version,
}

-- The version `w` is no later than `v`: by the first of the three numbers in which they differ.
abbrev pub NoLater : Version → Version → Type 0
NoLater w v =
    (w.major <ℤ v.major)
    ⊎ ((w.major ≡ v.major) × ((w.minor <ℤ v.minor) ⊎ ((w.minor ≡ v.minor) × (w.patch ≤ℤ v.patch))))

same_iff : (a b : ℤ) → (same a b ≡ true) ↔ (a ≡ b)
unfolding same
same_iff a b = ground (arith, eq_of_parts a b)

sub_nonneg : (a b : ℤ) → (pos 0 ≤ℤ a -ℤ b) ↔ (b ≤ℤ a)
sub_nonneg a b = (λ h. omega int_laws, λ h. omega int_laws)

sub_pos : (a b : ℤ) → a ≢ b → (pos 0 ≤ℤ a -ℤ b) ↔ (b <ℤ a)
sub_pos a b ne = ground (arith, sub_nonneg a b, eq_of_parts a b)

differ : (a b : ℤ) → same a b ≡ false → b ≢ a
differ a b h e = cc (h, (same_iff a b).1 (sym e))

-- The cases of the comparison, one for each number that can decide it.
iff_first : {A B C : Type 0} {P : Type 0} → P ↔ A → ¬ B → P ↔ (A ⊎ (B × C))
iff_first {A} {B} {C} {P} e not_b = (λ p. inl (e.0 p), λ s. from s)
  where
    from : A ⊎ (B × C) → P
    from (inl a) = e.1 a
    from (inr bc) = absurd (not_b bc.0)

iff_rest : {A B C : Type 0} {P : Type 0} → ¬ A → B → P ↔ C → P ↔ (A ⊎ (B × C))
iff_rest {A} {B} {C} {P} not_a b e = (λ p. inr (b, e.0 p), λ s. from s)
  where
    from : A ⊎ (B × C) → P
    from (inl a) = absurd (not_a a)
    from (inr bc) = e.1 bc.1

not_below : (a b : ℤ) → a ≡ b → ¬ (b <ℤ a)
not_below a b e h = omega (arith, rw e at h)

compare_nonneg : (v w : Version) → (pos 0 ≤ℤ compare_versions v w) ↔ NoLater w v
unfolding compare_versions
compare_nonneg v w = elim (Bool-cases (same v.major w.major)) [
  | inr major ↦
      let apart = differ v.major w.major major in
      rw major (iff_first (sub_pos v.major w.major (λ e. apart (sym e))) apart)
  | inl major ↦
      let equal = (same_iff v.major w.major).0 major in
      elim (Bool-cases (same v.minor w.minor)) [
        | inr minor ↦
            let apart = differ v.minor w.minor minor in
            rw (major, minor)
              (iff_rest (not_below v.major w.major equal) (sym equal)
                (iff_first (sub_pos v.minor w.minor (λ e. apart (sym e))) apart))
        | inl minor ↦
            let same_minor = (same_iff v.minor w.minor).0 minor in
            rw (major, minor)
              (iff_rest (not_below v.major w.major equal) (sym equal) (
                iff_rest (not_below v.minor w.minor same_minor) (sym same_minor)
                  (sub_nonneg v.patch w.patch)))
      ]
]

leb_iff : (a b : ℤ) → (leb_ℤ a b ≡ true) ↔ (a ≤ℤ b)
leb_iff a b = ground arith

-- The extension stands in the registry, under some name.
abbrev pub Registered : {H : Type 0} → Entry H → Registry H → Type 0
Registered e [] = ⊥
Registered e ((k, f) ∷ r) = (e ≡ f) ⊎ Registered e r

-- One more extension, which the test takes or leaves.
step_kept :
    {E : Type 0} (e f : E) (P : E → Type 0) {A B : Type 0}
    → P f
    → A ↔ (B × P e)
    → ((e ≡ f) ⊎ A) ↔ (((e ≡ f) ⊎ B) × P e)
step_kept {E} e f P {A} {B} fits ih = (λ m. to m, λ h. from h.1 h.0)
  where
    to : (e ≡ f) ⊎ A → ((e ≡ f) ⊎ B) × P e
    to (inl same_entry) = (inl same_entry, rw same_entry fits)
    to (inr later) = (inr (ih.0 later).0, (ih.0 later).1)

    from : P e → (e ≡ f) ⊎ B → (e ≡ f) ⊎ A
    from p (inl same_entry) = inl same_entry
    from p (inr later) = inr (ih.1 (later, p))

step_left :
    {E : Type 0} (e f : E) (P : E → Type 0) {A B : Type 0}
    → ¬ (P f)
    → A ↔ (B × P e)
    → A ↔ (((e ≡ f) ⊎ B) × P e)
step_left {E} e f P {A} {B} not_fits ih = (λ a. (inr (ih.0 a).0, (ih.0 a).1), λ h. from h.1 h.0)
  where
    from : P e → (e ≡ f) ⊎ B → A
    from p (inl same_entry) = absurd (not_fits (subst P same_entry p))
    from p (inr later) = ih.1 (later, p)

-- An extension stands among those that are compatible with a protocol version exactly when it is
-- registered and the version that it asks for, 1.0.0 if it names none, is no later by the first of
-- the three numbers that differs.
pub get_compatible_extensions_lem :
    {H : Type 0} (read_version : String → Version) (r : Registry H) (protocol : String)
    (e : Entry H)
    → In e (get_compatible_extensions read_version r protocol) ↔ (
        Registered e r
        × NoLater (read_version (min_version e.min_protocol_version)) (read_version protocol))
unfolding get_compatible_extensions
get_compatible_extensions_lem read_version [] protocol e = (λ h. absurd h, λ h. absurd h.0)
get_compatible_extensions_lem {H} read_version ((k, f) ∷ r) protocol e =
    elim (Bool-cases (leb_ℤ (pos 0) (compare_versions (read_version protocol) (asked f)))) [
      | inl fits ↦ rw fits (
          step_kept e f Fits ((compare_nonneg _ _).0 ((leb_iff (pos 0) _).0 fits))
            (get_compatible_extensions_lem read_version r protocol e))
      | inr too_late ↦ rw too_late (
          step_left e f Fits (λ fits. refused too_late fits)
            (get_compatible_extensions_lem read_version r protocol e))
    ]
  where
    asked : Entry H → Version
    asked g = read_version (min_version g.min_protocol_version)

    Fits : Entry H → Type 0
    Fits g = NoLater (asked g) (read_version protocol)

    refused :
        leb_ℤ (pos 0) (compare_versions (read_version protocol) (asked f)) ≡ false
        → NoLater (asked f) (read_version protocol)
        → ⊥
    refused too_late fits = cc (
      too_late,
      (leb_iff (pos 0) _).1 ((compare_nonneg (read_version protocol) (asked f)).1 fits),
    )
