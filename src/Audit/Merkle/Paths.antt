-- ===== src/Audit/Merkle/Paths.antt =====
-- The proof of a single leaf leads from its hash to the root's.
use sentoris_proxy.Prelude.{
  ◌≡◌, refl, sym, ap, ◌∙◌, ◌⊎◌, inl, inr, true, false, Option, none, some, List, [], ◌∷◌, ◌++◌, map,
  String, length, In, str_eq, eq_iff, Bool-cases,
}
use mathlib.Core.Path.{subst}
use mathlib.Core.Option.{some-injective}
use sentoris_proxy.Audit.Merkle.{
  MerkleNode, leaf, parent, alone, node_hash, ProofNode, climb, sibling, path_up, build_proof,
  get_root_hash, combine, side, new_merkle_tree,
}
use sentoris_proxy.Audit.Merkle.Levels.{tree_leaves, WellHashed, new_merkle_tree_lem}

module _ (compute_hash : String → String) where
  -- How a reader of a proof recomputes the root: one element for each level, from the leaf upwards.
  pub follow : String → List ProofNode → String
  follow h [] = h
  follow h (p ∷ ps) = follow (side compute_hash p h) ps

  follow-append :
      (h : String) (ps : List ProofNode) (p : ProofNode)
      → follow h (ps ++ (p ∷ [])) ≡ side compute_hash p (follow h ps)
  unfolding follow
  follow-append h [] p = refl
  follow-append h (q ∷ ps) p = follow-append (side compute_hash q h) ps p

  climb_sound :
      (h : String) (l r : MerkleNode) (pl pr : Option (List ProofNode)) (ps : List ProofNode)
      → ((qs : List ProofNode) → pl ≡ some qs → follow h qs ≡ node_hash l)
      → ((qs : List ProofNode) → pr ≡ some qs → follow h qs ≡ node_hash r)
      → climb (sibling false r) (sibling true l) pl pr ≡ some ps
      → follow h ps ≡ combine compute_hash (node_hash l) (node_hash r)
  unfolding climb sibling
  climb_sound h l r (some qs) pr ps hl hr e =
      subst (λ p. follow h p ≡ combine compute_hash (node_hash l) (node_hash r))
        (some-injective _ _ e)
        (follow-append h qs (record { hash = node_hash r; is_left = false })
          ∙ (unfold side in ap (λ x. combine compute_hash x (node_hash r)) (hl qs refl)))
  climb_sound h l r none (some qs) ps hl hr e =
      subst (λ p. follow h p ≡ combine compute_hash (node_hash l) (node_hash r))
        (some-injective _ _ e)
        (follow-append h qs (record { hash = node_hash l; is_left = true })
          ∙ (unfold side in ap (λ x. combine compute_hash (node_hash l) x) (hr qs refl)))
  climb_sound h l r none none ps hl hr e = absurd (never e)
    where
      never : none ≡ some ps → ⊥
      never e = cc

  -- Following the path of a leaf recomputes the hash of the node that it was taken from.
  path_up_sound :
      (t : String) (n : MerkleNode) (ps : List ProofNode)
      → WellHashed compute_hash n
      → path_up t n ≡ some ps
      → follow t ps ≡ node_hash n
  unfolding path_up
  path_up_sound t (leaf h) ps w e = elim (Bool-cases (str_eq h t)) [
    | inl q ↦
        subst (λ p. follow t p ≡ node_hash (leaf h)) (some-injective _ _ (rw q at e))
          (unfold follow node_hash in sym ((eq_iff h t).0 q))
    | inr q ↦ absurd (never (rw q at e))
  ]
    where
      never : none ≡ some ps → ⊥
      never e = cc
  path_up_sound t (parent h l r) ps w e =
      climb_sound t l r (path_up t l) (path_up t r) ps (λ qs. path_up_sound t l qs w.1)
        (λ qs. path_up_sound t r qs w.2) e
      ∙ (unfold node_hash in sym w.0)
  path_up_sound t (alone h n) ps w e =
      climb_sound t n n (path_up t n) none ps (λ qs. path_up_sound t n qs w.1)
        (λ qs q. absurd (never q)) e
      ∙ (unfold node_hash in sym w.0)
    where
      never : {qs : List ProofNode} → none ≡ some qs → ⊥
      never e = cc

In-append : (a : String) (xs ys : List String) → In a (xs ++ ys) → In a xs ⊎ In a ys
In-append a [] ys h = inr h
In-append a (x ∷ xs) ys (inl e) = inl (inl e)
In-append a (x ∷ xs) ys (inr h) = elim (In-append a xs ys h) [ inl p ↦ inl (inr p) | inr q ↦ inr q ]

climb_found_left :
    (r l : ProofNode) (p : List ProofNode) (q : Option (List ProofNode))
    → (ps : List ProofNode) × (climb r l (some p) q ≡ some ps)
unfolding climb
climb_found_left r l p q = (p ++ (r ∷ []), refl)

climb_found_right :
    (r l : ProofNode) (p : Option (List ProofNode)) (q : List ProofNode)
    → (ps : List ProofNode) × (climb r l p (some q) ≡ some ps)
unfolding climb
climb_found_right r l (some p) q = (p ++ (r ∷ []), refl)
climb_found_right r l none q = (q ++ (l ∷ []), refl)

-- A hash among the leaves below a node has a path.
path_up_found :
    (t : String) (n : MerkleNode)
    → In t (tree_leaves n)
    → (ps : List ProofNode) × (path_up t n ≡ some ps)
unfolding path_up tree_leaves
path_up_found t (leaf h) (inl e) = ([], rw ((eq_iff h t).1 (sym e)))
path_up_found t (leaf h) (inr m) = absurd m
path_up_found t (parent h l r) m = elim (In-append t (tree_leaves l) (tree_leaves r) m) [
  | inl a ↦
      let (p, e) = path_up_found t l a in
      rw e (climb_found_left (sibling false r) (sibling true l) p (path_up t r))
  | inr b ↦
      let (q, e) = path_up_found t r b in
      rw e (climb_found_right (sibling false r) (sibling true l) (path_up t l) q)
]
path_up_found t (alone h n) m =
    let (p, e) = path_up_found t n m in
    rw e (climb_found_left (sibling false n) (sibling true n) p none)

module _ (sort : List String → List String) (compute_hash : String → String)
    (length-sort : (l : List String) → length (sort l) ≡ length l) where
  -- For a leaf of the tree, the proof that `buildProof` returns leads from the leaf's hash to the
  -- root hash, one sibling for each level.
  pub build_proof_lem :
      (s : String) (ss : List String) (target : String)
      → In target (map compute_hash (sort (s ∷ ss)))
      → let mt = new_merkle_tree sort compute_hash (s ∷ ss) in
        follow compute_hash target (build_proof mt target) ≡ get_root_hash mt
  unfolding build_proof get_root_hash
  build_proof_lem s ss target m =
      let (n, e, leaves, good) = new_merkle_tree_lem sort compute_hash length-sort s ss in
      let (ps, found) = path_up_found target n (subst (λ l. In target l) (sym leaves) m) in
      rw e (rw found (path_up_sound compute_hash target n ps good found))
