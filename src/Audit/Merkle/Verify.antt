-- ===== src/Audit/Merkle/Verify.antt =====
-- What `VerifyProof` recomputes, for proofs with all the leaves and for proofs of one signature.
use sentoris_proxy.Prelude.{
  ℕ, zero, suc, ◌≡◌, refl, sym, ap, ◌∙◌, List, [], ◌∷◌, map, String, length, str_eq, eq_refl,
}
use sentoris_proxy.Audit.Merkle.{
  MerkleNode, leaf, node_hash, MerkleTree, ProofNode, first, first_hash, combine, next_level,
  build_levels, leaves_of, new_merkle_tree, get_root_hash, generate_batch_proof, proof_level,
  proof_levels, compute_root_from_proof, verify_proof,
}
use sentoris_proxy.Audit.Merkle.Levels.{new_merkle_tree_lem}

module _ (compute_hash : String → String) where
  -- With no elements, a round of the verifier does to the hashes what a round of the builder does to
  -- the nodes.
  proof_level-next_level :
      (ns : List MerkleNode)
      → proof_level compute_hash (map node_hash ns) []
        ≡ (map node_hash (next_level compute_hash ns), [])
  unfolding proof_level next_level node_hash
  proof_level-next_level [] = refl
  proof_level-next_level (a ∷ []) = refl
  proof_level-next_level (a ∷ (b ∷ ns)) =
      ap (λ p. (combine compute_hash (node_hash a) (node_hash b) ∷ p.0, p.1))
        (proof_level-next_level ns)

  proof_levels-build_levels :
      (fuel : ℕ) (ns : List MerkleNode)
      → proof_levels compute_hash fuel (map node_hash ns) []
        ≡ map node_hash (build_levels compute_hash fuel ns)
  unfolding proof_levels build_levels
  proof_levels-build_levels zero ns = refl
  proof_levels-build_levels (suc fuel) [] = refl
  proof_levels-build_levels (suc fuel) (a ∷ []) = refl
  proof_levels-build_levels (suc fuel) (a ∷ (b ∷ ns)) =
      ap (λ p. proof_levels compute_hash fuel p.0 p.1) (proof_level-next_level (a ∷ (b ∷ ns)))
      ∙ proof_levels-build_levels fuel (next_level compute_hash (a ∷ (b ∷ ns)))

  -- A proof with one leaf hash is recomputed to that hash, whatever its elements are.
  compute_root-single :
      (h : String) (ps : List ProofNode) → compute_root_from_proof compute_hash (h ∷ []) ps ≡ h
  unfolding compute_root_from_proof
  compute_root-single h ps = refl

length-map_hash : (ns : List MerkleNode) → length (map node_hash ns) ≡ length ns
length-map_hash [] = refl
length-map_hash (n ∷ ns) = ap suc (length-map_hash ns)

map-leaf_hash :
    (f : String → String) (ss : List String) → map node_hash (map (λ s. leaf (f s)) ss) ≡ map f ss
unfolding node_hash
map-leaf_hash f [] = refl
map-leaf_hash f (s ∷ ss) = ap (λ r. f s ∷ r) (map-leaf_hash f ss)

module _ (sort : List String → List String) (compute_hash : String → String) where
  first_hash-first :
      (mt : MerkleTree) (ns : List MerkleNode)
      → mt.root ≡ first ns
      → first_hash (map node_hash ns) ≡ get_root_hash mt
  unfolding first first_hash get_root_hash
  first_hash-first mt [] e = rw e
  first_hash-first mt (n ∷ ns) e = rw e

  -- From all the leaf hashes of a tree and no elements, the verifier recomputes the root hash.
  pub compute_root-all_leaves :
      (s : String) (ss : List String)
      → compute_root_from_proof compute_hash (map compute_hash (sort (s ∷ ss))) []
        ≡ get_root_hash (new_merkle_tree sort compute_hash (s ∷ ss))
  unfolding compute_root_from_proof leaves_of
  compute_root-all_leaves s ss =
      let nodes : List MerkleNode = leaves_of sort compute_hash (s ∷ ss) in
      ap (λ l. first_hash (proof_levels compute_hash (length l) l []))
        (sym (map-leaf_hash compute_hash (sort (s ∷ ss))))
      ∙ ap (λ k. first_hash (proof_levels compute_hash k (map node_hash nodes) []))
          (length-map_hash nodes)
      ∙ ap first_hash (proof_levels-build_levels compute_hash (length nodes) nodes)
      ∙ first_hash-first (new_merkle_tree sort compute_hash (s ∷ ss))
          (build_levels compute_hash (length nodes) nodes) (unfold new_merkle_tree in refl)

  module _ (length-sort : (l : List String) → length (sort l) ≡ length l)
      (sort-single : (s : String) → sort (s ∷ []) ≡ s ∷ []) where
    -- A generated proof of one signature is accepted exactly when the hash of that signature is the
    -- root hash itself: its elements are never used.
    pub verify_proof-single :
        (s : String) (ss : List String) (sig : String)
        → let mt = new_merkle_tree sort compute_hash (s ∷ ss) in
          verify_proof compute_hash mt (generate_batch_proof sort compute_hash mt (sig ∷ []))
          ≡ str_eq (compute_hash sig) (get_root_hash mt)
    unfolding verify_proof generate_batch_proof get_root_hash
    verify_proof-single s ss sig =
        let (n, e, _, _) = new_merkle_tree_lem sort compute_hash length-sort s ss in
        rw (e, sort-single sig) (rw (eq_refl (node_hash n)) refl)
