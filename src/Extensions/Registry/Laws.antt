-- ===== src/Extensions/Registry/Laws.antt =====
-- The registry never holds an extension without its dependencies.
use sentoris_proxy.Prelude.{
  ◌≡◌, sym, ◌∙◌, ◌⊎◌, inl, inr, Bool, Bool-cases, true, false, none, some, List, [], ◌∷◌, String,
  ok, str_eq, eq_iff, contains, arith, lookup, insert, delete, holds, lookup-insert, lookup-delete,
  holds-insert, holds-delete_all,
}
use sentoris_proxy.Extensions.Registry.{
  Entry, Registry, first_conflict, first_missing, first_dependent, refuse_conflict, refuse_missing,
  refuse_dependent, remove, register,
}

module _ {H : Type 0} where
  -- Every dependency of a registered extension is registered.
  abbrev pub IsClosed : Registry H → Type 0
  IsClosed r =
      (k d : String) (e : Entry H)
      → lookup k r ≡ some e
      → contains e.dependencies d ≡ true
      → holds d r ≡ true

  first_missing-none :
      (ds : List String) (r : Registry H) (d : String)
      → first_missing ds r ≡ none
      → contains ds d ≡ true
      → holds d r ≡ true
  unfolding first_missing contains
  first_missing-none [] r d h c = absurd (cc)
  first_missing-none (x ∷ ds) r d h c = ground (arith, first_missing-none ds r d, eq_iff x d)

  first_conflict-none :
      (cs : List String) (r : Registry H) (c : String)
      → first_conflict cs r ≡ none
      → contains cs c ≡ true
      → holds c r ≡ false
  unfolding first_conflict contains
  first_conflict-none [] r c h m = absurd (cc)
  first_conflict-none (x ∷ cs) r c h m = ground (arith, first_conflict-none cs r c, eq_iff x c)

  first_dependent-none :
      (namespace : String) (r : Registry H) (k : String) (e : Entry H)
      → first_dependent namespace r ≡ none
      → lookup k r ≡ some e
      → contains e.dependencies namespace ≡ false
  unfolding first_dependent lookup
  first_dependent-none namespace [] k e h l = absurd (cc)
  first_dependent-none namespace ((j, f) ∷ r) k e h l =
      ground (arith, first_dependent-none namespace r k e)

  insert-IsClosed :
      (e : Entry H) (r : Registry H)
      → IsClosed r
      → first_missing e.dependencies r ≡ none
      → IsClosed (insert e.namespace e r)
  insert-IsClosed e r h m k d f l c =
      rw (holds-insert e.namespace d e r) (elim (Bool-cases (str_eq e.namespace d)) [
        | inl same ↦ rw same
        | inr other ↦ rw other (needed (Bool-cases (str_eq e.namespace k)))
      ])
    where
      needed : (str_eq e.namespace k ≡ true) ⊎ (str_eq e.namespace k ≡ false) → holds d r ≡ true
      needed (inl same) =
          let is_new : lookup k (insert e.namespace e r) ≡ some e =
            lookup-insert e.namespace k e r ∙ (rw same) in
          first_missing-none e.dependencies r d m (cc is_new)
      needed (inr other) =
          let is_old : lookup k (insert e.namespace e r) ≡ lookup k r =
            lookup-insert e.namespace k e r ∙ (rw other) in
          h k d f (sym is_old ∙ l) c

  remove-ok :
      (namespace : String) (r : Registry H) {s : Registry H}
      → remove namespace r ≡ ok s
      → (first_dependent namespace r ≡ none) × (s ≡ delete namespace r)
  unfolding remove refuse_dependent
  remove-ok namespace r h = ground (arith)

  lookup-delete-some :
      (namespace k : String) (r : Registry H) (e : Entry H)
      → lookup k (delete namespace r) ≡ some e
      → lookup k r ≡ some e
  lookup-delete-some namespace k r e l = elim (Bool-cases (str_eq namespace k)) [
    | inl same ↦
        let gone : lookup k (delete namespace r) ≡ none = lookup-delete namespace k r ∙ (rw same) in
        absurd (cc gone)
    | inr other ↦
        let kept : lookup k (delete namespace r) ≡ lookup k r =
          lookup-delete namespace k r ∙ (rw other) in
        sym kept ∙ l
  ]

  remove-IsClosed :
      (namespace : String) (r : Registry H) {s : Registry H}
      → IsClosed r
      → remove namespace r ≡ ok s
      → IsClosed s
  remove-IsClosed namespace r h ok_s =
      let checked = remove-ok namespace r ok_s in rw checked.1 (closed checked.0)
    where
      closed : first_dependent namespace r ≡ none → IsClosed (delete namespace r)
      closed independent k d e l c =
          let old = lookup-delete-some namespace k r e l in
          let unneeded = first_dependent-none namespace r k e independent old in
          elim (Bool-cases (str_eq namespace d)) [
            | inl same ↦ absurd (cc (unneeded, (eq_iff namespace d).0 same))
            | inr other ↦ rw (holds-delete_all namespace d r, other) (h k d e old c)
          ]

  module _ (matches : String → String → Bool) where
    -- The operations that change a registry, where they succeed.
    pub data Step (r : Registry H) : Registry H → Type 0 where
      registers : {s : Registry H} (e : Entry H) → register matches e r ≡ ok s → Step r s
      removes : {s : Registry H} (namespace : String) → remove namespace r ≡ ok s → Step r s

    pub data Reach (r : Registry H) : Registry H → Type 0 where
      here : Reach r r
      next : {s t : Registry H} → Reach r s → Step s t → Reach r t

    -- What a successful registration and a successful removal have checked.
    register-ok :
        (e : Entry H) (r : Registry H) {s : Registry H}
        → register matches e r ≡ ok s
        → (first_missing e.dependencies r ≡ none) × (s ≡ insert e.namespace e r)
    unfolding register refuse_conflict refuse_missing
    register-ok e r h = ground (arith)

    register-IsClosed :
        (e : Entry H) (r : Registry H) {s : Registry H}
        → IsClosed r
        → register matches e r ≡ ok s
        → IsClosed s
    register-IsClosed e r h ok_s =
        let checked = register-ok e r ok_s in rw checked.1 (insert-IsClosed e r h checked.0)

    Step-IsClosed : {r s : Registry H} → Step r s → IsClosed r → IsClosed s
    Step-IsClosed {r} (registers e ok_s) h = register-IsClosed e r h ok_s
    Step-IsClosed {r} (removes namespace ok_s) h = remove-IsClosed namespace r h ok_s

    -- After any registrations and removals that succeeded, from an empty registry and in any order,
    -- every dependency of every registered extension is registered.
    pub Reach-IsClosed : {r : Registry H} → Reach [] r → IsClosed r
    unfolding lookup
    Reach-IsClosed here = λ k d e l c. absurd (cc l)
    Reach-IsClosed (next reached st) = Step-IsClosed st (Reach-IsClosed reached)
