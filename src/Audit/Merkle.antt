-- ===== src/Audit/Merkle.antt =====
-- internal/service/audit/merkle.go. A tree's nodes are shared pointers with a link to the parent;
-- here a tree is a data type, and the walk up the links from a leaf is the way down to it, reversed.
-- `sort.Strings` and SHA-256 in hexadecimal (`computeHash`) are libraries' and are parameters.
pub mod Levels
pub mod Paths
pub mod Verify
mod Tests
use sentoris_proxy.Prelude.{
  ℕ, zero, suc, Bool, true, false, Option, none, some, List, [], ◌∷◌, ◌++◌, map, String, length,
  str_eq, if◌then◌else◌,
}
use Prim.Native.String.{◌++◌ as str_append}

-- A node is a leaf, a parent of two nodes, or a parent whose left and right child are one node.
pub data MerkleNode : Type 0 where
  leaf : String → MerkleNode
  parent : String → MerkleNode → MerkleNode → MerkleNode
  alone : String → MerkleNode → MerkleNode

unfoldable pub node_hash : MerkleNode → String
node_hash (leaf h) = h
node_hash (parent h l r) = h
node_hash (alone h n) = h

pub record MerkleTree : Type 0 where
  pub root : Option MerkleNode
  pub leaves : List MerkleNode
  pub proof_type : String

pub record ProofNode : Type 0 where
  pub hash : String
  pub is_left : Bool

pub record BatchProof : Type 0 where
  pub root_hash : String
  pub proof_type : String
  pub leaf_hashes : List String
  pub proof_elements : List ProofNode

pub get_root_hash : MerkleTree → String
get_root_hash mt = elim mt.root [ none ↦ "" | some n ↦ node_hash n ]

-- One step of the walk, from the left child (whose sibling is `r`) or from the right one.
climb :
    (r l : ProofNode) → Option (List ProofNode) → Option (List ProofNode) → Option (List ProofNode)
climb r l (some p) q = some (p ++ (r ∷ []))
climb r l none (some q) = some (q ++ (l ∷ []))
climb r l none none = none

sibling : Bool → MerkleNode → ProofNode
sibling left n = record { hash = node_hash n; is_left = left }

-- `findLeafNode`, which takes the first leaf with the hash, and the loop of `buildProof` from there:
-- none if there is no such leaf. A node that is its parent's only child is its left child.
pub path_up : String → MerkleNode → Option (List ProofNode)
unfolding climb sibling
path_up target (leaf h) = if str_eq h target then some [] else none
path_up target (parent h l r) =
    climb (sibling false r) (sibling true l) (path_up target l) (path_up target r)
path_up target (alone h n) = climb (sibling false n) (sibling true n) (path_up target n) none

or_empty : Option (List ProofNode) → List ProofNode
or_empty none = []
or_empty (some p) = p

pub build_proof : MerkleTree → String → List ProofNode
unfolding path_up or_empty
build_proof mt target = elim mt.root [ none ↦ [] | some n ↦ or_empty (path_up target n) ]

-- The loop over the targets of `GenerateBatchProof`.
pub build_proofs : MerkleTree → List String → List ProofNode
unfolding build_proof
build_proofs mt [] = []
build_proofs mt (h ∷ hs) = build_proof mt h ++ build_proofs mt hs

first_hash : List String → String
first_hash [] = ""
first_hash (h ∷ hs) = h

module _ (compute_hash : String → String) where
  pub combine : String → String → String
  combine a b = compute_hash (str_append a b)

  -- One round of the loop of `NewMerkleTree`.
  pub next_level : List MerkleNode → List MerkleNode
  unfolding combine node_hash
  next_level [] = []
  next_level (a ∷ []) = alone (combine (node_hash a) (node_hash a)) a ∷ []
  next_level (a ∷ (b ∷ rest)) = parent (combine (node_hash a) (node_hash b)) a b ∷ next_level rest

  -- `for len(nodes) > 1`, with fuel for the rounds.
  pub build_levels : ℕ → List MerkleNode → List MerkleNode
  unfolding next_level
  build_levels zero nodes = nodes
  build_levels (suc fuel) [] = []
  build_levels (suc fuel) (a ∷ []) = a ∷ []
  build_levels (suc fuel) (a ∷ (b ∷ rest)) = build_levels fuel (next_level (a ∷ (b ∷ rest)))

  side : ProofNode → String → String
  side pn current = if pn.is_left then combine pn.hash current else combine current pn.hash

  -- One round of the loop of `computeRootFromProof`: the new hashes, and the elements not yet used.
  pub proof_level : List String → List ProofNode → List String × List ProofNode
  unfolding side combine
  proof_level [] ps = ([], ps)
  proof_level (a ∷ []) [] = (combine a a ∷ [], [])
  proof_level (a ∷ []) (p ∷ ps) = (combine a p.hash ∷ [], ps)
  proof_level (a ∷ (b ∷ rest)) [] = let (hs, qs) = proof_level rest [] in (combine a b ∷ hs, qs)
  proof_level (a ∷ (b ∷ rest)) (p ∷ ps) = let (hs, qs) = proof_level rest ps in (side p a ∷ hs, qs)

  pub proof_levels : ℕ → List String → List ProofNode → List String
  unfolding proof_level
  proof_levels zero hs ps = hs
  proof_levels (suc fuel) [] ps = []
  proof_levels (suc fuel) (a ∷ []) ps = a ∷ []
  proof_levels (suc fuel) (a ∷ (b ∷ rest)) ps =
      let (hs, qs) = proof_level (a ∷ (b ∷ rest)) ps in proof_levels fuel hs qs

  pub compute_root_from_proof : List String → List ProofNode → String
  unfolding proof_levels first_hash
  compute_root_from_proof hashes elements =
      first_hash (proof_levels (length hashes) hashes elements)

  pub verify_proof : MerkleTree → Option BatchProof → Bool
  unfolding compute_root_from_proof
  verify_proof mt none = false
  verify_proof mt (some proof) = elim mt.root [
    | none ↦ false
    | some n ↦
        if str_eq proof.root_hash (node_hash n)
        then str_eq (compute_root_from_proof proof.leaf_hashes proof.proof_elements) proof.root_hash
        else false
  ]

  -- `GetAggregateHash` of an extended tree over `previous_root`.
  pub get_aggregate_hash : MerkleTree → String → String
  unfolding combine node_hash
  get_aggregate_hash mt previous_root = elim mt.root [
    | none ↦ ""
    | some n ↦ combine (node_hash n) previous_root
  ]

first : List MerkleNode → Option MerkleNode
first [] = none
first (n ∷ ns) = some n

module _ (sort : List String → List String) (compute_hash : String → String) where
  pub leaves_of : List String → List MerkleNode
  leaves_of signatures = map (λ sig. leaf (compute_hash sig)) (sort signatures)

  pub new_merkle_tree : List String → MerkleTree
  unfolding leaves_of first build_levels
  new_merkle_tree [] = record { root = none; leaves = []; proof_type = "merkle_tree" }
  new_merkle_tree (s ∷ ss) =
      let nodes = leaves_of (s ∷ ss) in
      record {
        root = first (build_levels compute_hash (length nodes) nodes);
        leaves = nodes;
        proof_type = "merkle_tree";
      }

  pub generate_batch_proof : MerkleTree → List String → Option BatchProof
  unfolding build_proofs get_root_hash
  generate_batch_proof mt [] = none
  generate_batch_proof mt (t ∷ ts) =
      let hashes = map compute_hash (sort (t ∷ ts)) in
      elim mt.root [
        | none ↦ none
        | some n ↦ some (record {
          root_hash = get_root_hash mt;
          proof_type = mt.proof_type;
          leaf_hashes = hashes;
          proof_elements = build_proofs mt hashes;
        })
      ]

-- `AddSignature` of the builder.
pub add_signature : List String → String → List String
add_signature signatures signature =
    if str_eq signature "" then signatures else signatures ++ (signature ∷ [])
