-- ===== src/Audit/Merkle/Levels.antt =====
-- Building the tree ends in one root, over the given leaves in order, with every hash computed.
use sentoris_proxy.Prelude.{
  ℕ, zero, suc, ◌+◌, ◌*◌, ◌≤◌, ◌<◌, ◌≡◌, refl, sym, ap, ◌∙◌, some, List, [], ◌∷◌, ◌++◌, map, String,
  length, All, arith,
}
use mathlib.Core.List.{append_assoc, append-nil}
use sentoris_proxy.Audit.Merkle.{
  MerkleNode, leaf, parent, alone, node_hash, first, combine, next_level, build_levels, leaves_of,
  new_merkle_tree,
}

-- The hashes of the leaves below a node, from left to right.
unfoldable pub tree_leaves : MerkleNode → List String
tree_leaves (leaf h) = h ∷ []
tree_leaves (parent h l r) = tree_leaves l ++ tree_leaves r
tree_leaves (alone h n) = tree_leaves n

pub row_leaves : List MerkleNode → List String
row_leaves [] = []
row_leaves (n ∷ ns) = tree_leaves n ++ row_leaves ns

module _ (compute_hash : String → String) where
  -- Each inner node has the hash of its children's.
  abbrev pub WellHashed : MerkleNode → Type 0
  WellHashed (leaf h) = Unit
  WellHashed (parent h l r) =
      (h ≡ combine compute_hash (node_hash l) (node_hash r)) × WellHashed l × WellHashed r
  WellHashed (alone h n) = (h ≡ combine compute_hash (node_hash n) (node_hash n)) × WellHashed n

  length-next_level :
      (ns : List MerkleNode)
      → (2 * length (next_level compute_hash ns) ≤ length ns + 1)
        × (length ns ≤ 2 * length (next_level compute_hash ns))
  unfolding next_level
  length-next_level [] = omega arith
  length-next_level (a ∷ []) = omega arith
  length-next_level (a ∷ (b ∷ ns)) = omega (arith, length-next_level ns)

  next_level-WellHashed :
      (ns : List MerkleNode) → All WellHashed ns → All WellHashed (next_level compute_hash ns)
  unfolding next_level
  next_level-WellHashed [] h = tt
  next_level-WellHashed (a ∷ []) h = ((refl, h.0), tt)
  next_level-WellHashed (a ∷ (b ∷ ns)) h = ((refl, h.0, h.1.0), next_level-WellHashed ns h.1.1)

  row_leaves-next_level :
      (ns : List MerkleNode) → row_leaves (next_level compute_hash ns) ≡ row_leaves ns
  unfolding next_level row_leaves tree_leaves
  row_leaves-next_level [] = refl
  row_leaves-next_level (a ∷ []) = refl
  row_leaves-next_level (a ∷ (b ∷ ns)) = simp (append_assoc, row_leaves-next_level ns)

  -- With as much fuel as there are nodes the rounds end in a single node, which keeps the leaves
  -- and the hashes.
  build_levels_lem :
      (fuel : ℕ) (ns : List MerkleNode)
      → length ns ≤ fuel
      → 0 < length ns
      → All WellHashed ns
      → (n : MerkleNode) × (build_levels compute_hash fuel ns ≡ n ∷ [])
        × (tree_leaves n ≡ row_leaves ns)
        × WellHashed n
  unfolding build_levels row_leaves
  build_levels_lem zero ns h p w = absurd (omega arith)
  build_levels_lem (suc fuel) [] h p w = absurd (omega arith)
  build_levels_lem (suc fuel) (a ∷ []) h p w = (a, refl, sym (append-nil (tree_leaves a)), w.0)
  build_levels_lem (suc fuel) (a ∷ (b ∷ ns)) h p w =
      let all = a ∷ (b ∷ ns) in
      let (n, e, same, good) =
        build_levels_lem fuel (next_level compute_hash all) (omega (arith, length-next_level all))
          (omega (arith, length-next_level all)) (next_level-WellHashed all w) in
      (n, e, same ∙ row_leaves-next_level all, good)

row_leaves-leaf :
    (f : String → String) (ss : List String) → row_leaves (map (λ s. leaf (f s)) ss) ≡ map f ss
unfolding row_leaves tree_leaves
row_leaves-leaf f [] = refl
row_leaves-leaf f (s ∷ ss) = ap (λ r. f s ∷ r) (row_leaves-leaf f ss)

leaf-WellHashed :
    (f : String → String) (ss : List String) → All (WellHashed f) (map (λ s. leaf (f s)) ss)
leaf-WellHashed f [] = tt
leaf-WellHashed f (s ∷ ss) = (tt, leaf-WellHashed f ss)

length-map_leaf :
    (f : String → String) (ss : List String) → length (map (λ s. leaf (f s)) ss) ≡ length ss
length-map_leaf f [] = refl
length-map_leaf f (s ∷ ss) = ap suc (length-map_leaf f ss)

module _ (sort : List String → List String) (compute_hash : String → String)
    (length-sort : (l : List String) → length (sort l) ≡ length l) where
  -- The tree of at least one signature has a root; its leaves are the hashes of the sorted
  -- signatures, in order, and each inner node's hash is computed from its children's.
  pub new_merkle_tree_lem :
      (s : String) (ss : List String)
      → (n : MerkleNode) × ((new_merkle_tree sort compute_hash (s ∷ ss)).root ≡ some n)
        × (tree_leaves n ≡ map compute_hash (sort (s ∷ ss)))
        × WellHashed compute_hash n
  unfolding new_merkle_tree leaves_of
  new_merkle_tree_lem s ss =
      let sorted = sort (s ∷ ss) in
      let nodes : List MerkleNode = map (λ sig. leaf (compute_hash sig)) sorted in
      let count : length nodes ≡ suc (length ss) =
        length-map_leaf compute_hash sorted ∙ length-sort (s ∷ ss) in
      let (n, e, same, good) =
        build_levels_lem compute_hash (length nodes) nodes (omega arith) (omega arith)
          (leaf-WellHashed compute_hash sorted) in
      (n, ap first e, same ∙ row_leaves-leaf compute_hash sorted, good)
