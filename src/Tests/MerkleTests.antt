-- ===== src/Tests/MerkleTests.antt =====
-- merkle.go on three leaves.
use v2v_blockchain.Prelude.{
  ◌≡◌, ◌⊎◌, refl, true, false, some, List, [], ◌∷◌, ◌++◌, get_elem?, replicate, ok, arith,
}
use v2v_blockchain.Prelude.Int.{pos}
use v2v_blockchain.Prelude.Eq.{bytes_eq}
use v2v_blockchain.Bytes.{Hash, Collision}
use v2v_blockchain.Merkle.{
  MerkleTree, MerkleProof, new_merkle_tree_from_hashes, get_proof, verify_proof, get_root,
  calculate_merkle_root, leaf, pad_even, join_pairs, join_nodes, node_hash, parent_level, hash_pair,
  climb, get_last?, build_tree, build_tree_within, proof_loop, append_option,
}
use v2v_blockchain.Merkle.Complete.{tree_of, verify_proof-get_proof}
use v2v_blockchain.Merkle.Root.{get_root-calculate, calculate_merkle_root-repeat_last}
use v2v_blockchain.Merkle.Sound.{verify_proof_sound}
use v2v_blockchain.Tests.Samples.{sample_digest, sample_digest-size}

abbrev hash_a : Hash
hash_a = replicate 32 1

abbrev hash_b : Hash
hash_b = replicate 32 2

abbrev hash_c : Hash
hash_c = replicate 32 3

abbrev three : List Hash
three = hash_a ∷ hash_b ∷ hash_c ∷ []

verify_proof-get_proof_example :
    (t : MerkleTree) × (p : MerkleProof) × (new_merkle_tree_from_hashes sample_digest three ≡ ok t)
    × (get_proof sample_digest t (pos 2) ≡ ok p)
    × (get_elem? three 2 ≡ some p.leaf_hash)
    × (verify_proof sample_digest p (get_root t) ≡ ok true)
verify_proof-get_proof_example = verify_proof-get_proof sample_digest three 2 (omega arith)

get_root-calculate_example :
    (t : MerkleTree) × (new_merkle_tree_from_hashes sample_digest three ≡ ok t)
    × (get_root t ≡ calculate_merkle_root sample_digest three)
get_root-calculate_example = get_root-calculate sample_digest hash_a (hash_b ∷ hash_c ∷ [])

calculate_merkle_root-repeat_last_example :
    calculate_merkle_root sample_digest (hash_a ∷ hash_b ∷ hash_c ∷ hash_c ∷ [])
    ≡ calculate_merkle_root sample_digest three
unfolding get_last?
calculate_merkle_root-repeat_last_example =
    calculate_merkle_root-repeat_last sample_digest hash_a hash_b hash_c [] hash_c refl refl

abbrev genuine : MerkleProof
genuine = record {
  index = 2;
  leaf_hash = hash_c;
  hashes = hash_c ∷ sample_digest (hash_a ++ hash_b) ∷ [];
  flags = true ∷ false ∷ [];
}

abbrev tree_abc : MerkleTree
tree_abc = tree_of sample_digest (leaf hash_a [] ∷ leaf hash_b [] ∷ leaf hash_c [] ∷ [])

tree_abc-built : new_merkle_tree_from_hashes sample_digest three ≡ ok tree_abc
unfolding new_merkle_tree_from_hashes
tree_abc-built = refl

genuine-made : get_proof sample_digest tree_abc (pos 2) ≡ ok genuine
unfolding get_proof proof_loop node_hash parent_level pad_even join_pairs join_nodes hash_pair
    get_last? append_option
genuine-made = refl

genuine-accepted : verify_proof sample_digest genuine (get_root tree_abc) ≡ ok true
unfolding verify_proof climb hash_pair get_root build_tree build_tree_within parent_level pad_even
    join_pairs join_nodes node_hash bytes_eq get_last? append_option
genuine-accepted = refl

verify_proof_sound_example : (get_elem? three 2 ≡ some hash_c) ⊎ Collision sample_digest
verify_proof_sound_example =
    verify_proof_sound sample_digest sample_digest-size three 2 tree_abc genuine genuine
      (refl, (refl, (refl, tt))) tree_abc-built genuine-made refl (refl, (refl, tt)) refl refl
      genuine-accepted
