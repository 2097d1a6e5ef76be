-- ===== src/Merkle.antt =====
-- internal/core/blockchain/merkle.go and CalculateMerkleRoot of types.go. SHA-256 (crypto/sha256)
-- is the parameter `sum256`.
pub mod Levels
pub mod Complete
pub mod Root
pub mod Sizes
pub mod Sound
use v2v_blockchain.Prelude.{
  ℕ, zero, suc, ◌+◌, ◌-◌, ◌/◌, ◌%◌, Bool, true, false, Option, none, some, List, [], ◌∷◌, ◌++◌, map,
  length, get_elem?, ltb, leb, ◌==◌, if◌then◌else◌, Outcome, ok, err, panic, ◌>>=◌, or_panic,
}
use v2v_blockchain.Prelude.Eq.{bytes_eq}
use v2v_blockchain.Prelude.Int.{ℤ, pos, negsuc}
use v2v_blockchain.Bytes.{Bytes, Hash, empty_hash}

-- A leaf has no children; `item` is the `Data` field, empty when the tree is made from hashes.
pub data MerkleNode : Type 0 where
  leaf : Hash → Bytes → MerkleNode
  branch : MerkleNode → MerkleNode → Hash → MerkleNode

unfoldable pub node_hash : MerkleNode → Hash
node_hash (leaf h item) = h
node_hash (branch l r h) = h

pub record MerkleTree : Type 0 where
  pub root : Option MerkleNode
  pub leaves : List MerkleNode

pub record MerkleProof : Type 0 where
  pub index : ℕ
  pub leaf_hash : Hash
  pub hashes : List Hash
  pub flags : List Bool

pub data MerkleError : Type 0 where
  empty_data index_out_of_range : MerkleError

module _ {ℓ} {A : Type ℓ} where
  -- nodes[len(nodes)-1]
  unfoldable pub get_last? : List A → Option A
  get_last? [] = none
  get_last? (x ∷ []) = some x
  get_last? (x ∷ y ∷ xs) = get_last? (y ∷ xs)

  unfoldable pub append_option : List A → Option A → List A
  append_option xs none = xs
  append_option xs (some x) = xs ++ x ∷ []

  -- if len(nodes)%2 == 1 { nodes = append(nodes, nodes[len(nodes)-1]) }
  unfoldable pub pad_even : List A → List A
  unfolding get_last? append_option
  pad_even xs = if length xs % 2 == 1 then append_option xs (get_last? xs) else xs

  -- for i := 0; i < len(nodes); i += 2 { parents[i/2] = join(nodes[i], nodes[i+1]) }
  -- The length is even after `pad_even`, so the last clause is not reached.
  unfoldable pub join_pairs : (A → A → A) → List A → List A
  join_pairs join (x ∷ y ∷ xs) = join x y ∷ join_pairs join xs
  join_pairs join xs = []

module _ (sum256 : Bytes → Hash) where
  unfoldable pub hash_pair : Hash → Hash → Hash
  hash_pair left right = sum256 (left ++ right)

  unfoldable pub join_nodes : MerkleNode → MerkleNode → MerkleNode
  unfolding node_hash hash_pair
  join_nodes l r = branch l r (hash_pair (node_hash l) (node_hash r))

  unfoldable pub parent_level : List MerkleNode → List MerkleNode
  unfolding pad_even join_pairs join_nodes
  parent_level nodes = join_pairs join_nodes (pad_even nodes)

  -- The recursion runs on fuel; each level is shorter, so the number of nodes is enough.
  unfoldable pub build_tree_within : ℕ → List MerkleNode → Option MerkleNode
  build_tree_within zero nodes = none
  build_tree_within (suc fuel) [] = none
  build_tree_within (suc fuel) (node ∷ []) = some node
  build_tree_within (suc fuel) (node ∷ next ∷ rest) =
      build_tree_within fuel (parent_level (node ∷ next ∷ rest))

  unfoldable pub build_tree : List MerkleNode → Option MerkleNode
  unfolding build_tree_within parent_level
  build_tree nodes = build_tree_within (length nodes) nodes

  unfoldable pub new_merkle_tree : List Bytes → Outcome MerkleError MerkleTree
  unfolding build_tree
  new_merkle_tree [] = err empty_data
  new_merkle_tree (item ∷ rest) =
      let leaves = map (λ d. leaf (sum256 d) d) (item ∷ rest) in
      ok (record { root = build_tree leaves; leaves = leaves })

  unfoldable pub new_merkle_tree_from_hashes : List Hash → Outcome MerkleError MerkleTree
  unfolding build_tree
  new_merkle_tree_from_hashes [] = err empty_data
  new_merkle_tree_from_hashes (h ∷ rest) =
      let leaves = map (λ x. leaf x []) (h ∷ rest) in
      ok (record { root = build_tree leaves; leaves = leaves })

  -- The loop of GetProof: the hashes and flags are appended level by level.
  unfoldable pub proof_loop :
      ℕ → List MerkleNode → ℕ → List Hash → List Bool → Outcome MerkleError (List Hash × List Bool)
  proof_loop zero level index hashes flags = ok (hashes, flags)
  proof_loop (suc fuel) level index hashes flags =
      let padded = pad_even level in
      let next = parent_level level in
      let right = or_panic (get_elem? padded (index + 1)) >>= λ sibling.
      proof_loop fuel next (index / 2) (hashes ++ node_hash sibling ∷ []) (flags ++ true ∷ []) in
      let left = or_panic (get_elem? padded (index - 1)) >>= λ sibling.
      proof_loop fuel next (index / 2) (hashes ++ node_hash sibling ∷ []) (flags ++ false ∷ []) in
      if leb (length level) 1 then ok (hashes, flags) else if index % 2 == 0 then right else left

  unfoldable pub get_proof : MerkleTree → ℤ → Outcome MerkleError MerkleProof
  unfolding proof_loop node_hash parent_level
  get_proof t (negsuc n) = err index_out_of_range
  get_proof t (pos index) = if leb (length t.leaves) index then err index_out_of_range else (do
    node ← or_panic (get_elem? t.leaves index)
    siblings ← proof_loop (length t.leaves) t.leaves index [] []
    ok (record {
      index = index;
      leaf_hash = node_hash node;
      hashes = siblings.0;
      flags = siblings.1;
    }))

  -- The loop of Verify. `mp.Flags[i]` panics where there are fewer flags than hashes.
  unfoldable pub climb : Hash → List Hash → List Bool → Outcome MerkleError Hash
  unfolding hash_pair
  climb hash [] flags = ok hash
  climb hash (sibling ∷ hashes) [] = panic
  climb hash (sibling ∷ hashes) (true ∷ flags) = climb (hash_pair hash sibling) hashes flags
  climb hash (sibling ∷ hashes) (false ∷ flags) = climb (hash_pair sibling hash) hashes flags

  unfoldable pub verify_proof : MerkleProof → Hash → Outcome MerkleError Bool
  unfolding climb
  verify_proof p root = do hash ← climb p.leaf_hash p.hashes p.flags; ok (bytes_eq hash root)

  -- The loop of CalculateMerkleRoot over the transaction hashes.
  unfoldable pub merkle_root_within : ℕ → List Hash → Hash
  merkle_root_within zero hashes = empty_hash
  merkle_root_within (suc fuel) [] = empty_hash
  merkle_root_within (suc fuel) (h ∷ []) = h
  merkle_root_within (suc fuel) (h ∷ g ∷ rest) =
      merkle_root_within fuel (join_pairs hash_pair (pad_even (h ∷ g ∷ rest)))

  -- CalculateMerkleRoot, from the hashes of the transactions.
  unfoldable pub calculate_merkle_root : List Hash → Hash
  unfolding merkle_root_within hash_pair pad_even join_pairs
  calculate_merkle_root hashes = merkle_root_within (length hashes) hashes

-- GetRoot
unfoldable pub get_root : MerkleTree → Hash
unfolding node_hash
get_root t = elim t.root [ none ↦ empty_hash | some node ↦ node_hash node ]

-- VerifyTransaction, from the transaction's hash.
holds_leaf : List MerkleNode → Hash → Bool
holds_leaf [] h = false
holds_leaf (node ∷ nodes) h = if bytes_eq (node_hash node) h then true else holds_leaf nodes h

unfoldable pub verify_transaction : MerkleTree → Hash → Bool
unfolding holds_leaf node_hash
verify_transaction t h = holds_leaf t.leaves h

unfoldable pub get_leaf_hash : MerkleTree → ℤ → Outcome MerkleError Hash
unfolding node_hash
get_leaf_hash t (negsuc n) = err index_out_of_range
get_leaf_hash t (pos index) =
    if leb (length t.leaves) index
    then err index_out_of_range
    else (do node ← or_panic (get_elem? t.leaves index); ok (node_hash node))
