-- ===== src/Audit/Merkle/Tests.antt =====
-- Trees over given signatures, with a toy hash that brackets its text, and a sort of sorted lists.
use sentoris_proxy.Prelude.{◌≡◌, refl, inl, inr, true, false, some, List, [], ◌∷◌, String, str_eq}
use Prim.Native.String.{◌++◌ as str_append}
use sentoris_proxy.Audit.Merkle.{
  MerkleNode, MerkleTree, new_merkle_tree, build_proof, get_root_hash, generate_batch_proof,
  verify_proof, add_signature,
}
use sentoris_proxy.Audit.Merkle.Levels.{tree_leaves, WellHashed, new_merkle_tree_lem}
use sentoris_proxy.Audit.Merkle.Paths.{follow, build_proof_lem}
use sentoris_proxy.Audit.Merkle.Verify.{verify_proof-single}

abbrev bracket : String → String
bracket s = str_append "<" (str_append s ">")

abbrev in_order : List String → List String
in_order l = l

abbrev three : MerkleTree
three = new_merkle_tree in_order bracket ("a" ∷ ("b" ∷ ("c" ∷ [])))

root_of_three : get_root_hash three ≡ "<<<a><b>><<c><c>>>"
unfolding new_merkle_tree get_root_hash
root_of_three = refl

proof_of_third :
    build_proof three "<c>"
    ≡ record { hash = "<c>"; is_left = false } ∷ (record { hash = "<<a><b>>"; is_left = true } ∷ [])
unfolding new_merkle_tree build_proof
proof_of_third = refl

proof_of_third_refused :
    verify_proof bracket three (generate_batch_proof in_order bracket three ("c" ∷ [])) ≡ false
unfolding new_merkle_tree generate_batch_proof verify_proof
proof_of_third_refused = refl

empty_signature_is_skipped : add_signature ("a" ∷ []) "" ≡ "a" ∷ []
unfolding add_signature
empty_signature_is_skipped = refl

new_merkle_tree_lem_example :
    (n : MerkleNode) × (three.root ≡ some n)
    × (tree_leaves n ≡ "<a>" ∷ ("<b>" ∷ ("<c>" ∷ [])))
    × WellHashed bracket n
new_merkle_tree_lem_example =
    new_merkle_tree_lem in_order bracket (λ l. refl) "a" ("b" ∷ ("c" ∷ []))

build_proof_lem_example : follow bracket "<c>" (build_proof three "<c>") ≡ get_root_hash three
build_proof_lem_example =
    build_proof_lem in_order bracket (λ l. refl) "a" ("b" ∷ ("c" ∷ [])) "<c>" (inr (inr (inl refl)))

verify_proof-single_example :
    verify_proof bracket three (generate_batch_proof in_order bracket three ("c" ∷ []))
    ≡ str_eq "<c>" (get_root_hash three)
verify_proof-single_example =
    verify_proof-single in_order bracket (λ l. refl) (λ s. refl) "a" ("b" ∷ ("c" ∷ [])) "c"
