-- ===== src/Merkle/Complete.antt =====
-- merkle.go: GetProof and Verify on the trees that NewMerkleTree and NewMerkleTreeFromHashes make.
use v2v_blockchain.Prelude.{
  ℕ, zero, suc, ◌+◌, ◌-◌, ◌*◌, ◌/◌, ◌%◌, ◌<◌, ◌≤◌, ◌≡◌, refl, ap, Bool, true, false, some, List, [],
  ◌∷◌, ◌++◌, map, length, get_elem?, arith, ok, get_elem?-lt, inl, inr, ◌⊎◌, leb, get_elem?-map,
  length-map,
}
use mathlib.Core.Path.{subst}
use mathlib.Core.List.{append-nil, append_assoc}
use v2v_blockchain.Prelude.Int.{pos}
use v2v_blockchain.Prelude.Eq.{bytes_eq_iff}
use v2v_blockchain.Bytes.{Bytes, Hash}
use v2v_blockchain.Merkle.{
  MerkleNode, MerkleTree, MerkleProof, node_hash, pad_even, join_nodes, parent_level,
  build_tree_within, build_tree, proof_loop, climb, leaf, get_proof, get_root, new_merkle_tree,
  new_merkle_tree_from_hashes, verify_proof,
}
use v2v_blockchain.Merkle.Levels.{
  next_level, join_pairs-pad_even, length-next_level, sibling_left, sibling_right,
}

mod2 : (i : ℕ) → (i % 2 ≡ 0) ⊎ (i % 2 ≡ 1)
mod2 i = omega arith

two_or_more : (x y : MerkleNode) (rest : List MerkleNode) → leb (length (x ∷ y ∷ rest)) 1 ≡ false
two_or_more x y rest = ground arith

abbrev pub from_hash : Hash → MerkleNode
from_hash h = leaf h []

module _ (sum256 : Bytes → Hash) where
  pub parent_level-next_level :
      (nodes : List MerkleNode) → parent_level sum256 nodes ≡ next_level (join_nodes sum256) nodes
  unfolding parent_level
  parent_level-next_level nodes = join_pairs-pad_even (join_nodes sum256) nodes

  pub length-parent_level :
      (nodes : List MerkleNode)
      → length (parent_level sum256 nodes) * 2 ≡ length nodes + length nodes % 2
  length-parent_level nodes =
      rw (parent_level-next_level nodes) (length-next_level (join_nodes sum256) nodes)

  -- A proof of the entry at an index of a level: the loop appends `hashes` and `flags`, as many,
  -- and climbing by them from the entry's hash reaches the root.
  abbrev Climbs : ℕ → List MerkleNode → ℕ → MerkleNode → MerkleNode → Type 0
  Climbs fuel level index entry root =
      (hashes : List Hash) × (flags : List Bool) × ((hs : List Hash) (fs : List Bool)
        → proof_loop sum256 fuel level index hs fs ≡ ok (hs ++ hashes, fs ++ flags))
      × (climb sum256 (node_hash entry) hashes flags ≡ ok (node_hash root))
      × (length hashes ≡ length flags)

  Climbs-right :
      (fuel : ℕ) (x y : MerkleNode) (rest : List MerkleNode) (i : ℕ) (a b root : MerkleNode)
      → i % 2 ≡ 0
      → get_elem? (pad_even (x ∷ y ∷ rest)) (i + 1) ≡ some b
      → Climbs fuel (parent_level sum256 (x ∷ y ∷ rest)) (i / 2) (join_nodes sum256 a b) root
      → Climbs (suc fuel) (x ∷ y ∷ rest) i a root
  unfolding proof_loop climb join_nodes node_hash
  Climbs-right fuel x y rest i a b root even sibling (hashes, flags, runs, climbs, same) = (
    node_hash b ∷ hashes,
    true ∷ flags,
    λ hs fs.
        rw (two_or_more x y rest, even, sibling, runs (hs ++ node_hash b ∷ []) (fs ++ true ∷ []))
          (simp append_assoc),
    climbs,
    ap suc same,
  )

  Climbs-left :
      (fuel : ℕ) (x y : MerkleNode) (rest : List MerkleNode) (i : ℕ) (a b root : MerkleNode)
      → i % 2 ≡ 1
      → get_elem? (pad_even (x ∷ y ∷ rest)) (i - 1) ≡ some a
      → Climbs fuel (parent_level sum256 (x ∷ y ∷ rest)) (i / 2) (join_nodes sum256 a b) root
      → Climbs (suc fuel) (x ∷ y ∷ rest) i b root
  unfolding proof_loop climb join_nodes node_hash
  Climbs-left fuel x y rest i a b root odd sibling (hashes, flags, runs, climbs, same) = (
    node_hash a ∷ hashes,
    false ∷ flags,
    λ hs fs.
        rw (two_or_more x y rest, odd, sibling, runs (hs ++ node_hash a ∷ []) (fs ++ false ∷ []))
          (simp append_assoc),
    climbs,
    ap suc same,
  )

  Climbs-from_parent :
      (fuel : ℕ) (x y : MerkleNode) (rest : List MerkleNode) (i : ℕ) (entry : MerkleNode)
      → i < length (x ∷ y ∷ rest)
      → get_elem? (x ∷ y ∷ rest) i ≡ some entry
      → ((parent : MerkleNode)
          → get_elem? (parent_level sum256 (x ∷ y ∷ rest)) (i / 2) ≡ some parent
          → (root : MerkleNode) × (build_tree_within sum256 fuel
                (parent_level sum256 (x ∷ y ∷ rest))
              ≡ some root)
            × Climbs fuel (parent_level sum256 (x ∷ y ∷ rest)) (i / 2) parent root)
      → (root : MerkleNode) × (build_tree_within sum256 (suc fuel) (x ∷ y ∷ rest) ≡ some root)
        × Climbs (suc fuel) (x ∷ y ∷ rest) i entry root
  unfolding build_tree_within
  Climbs-from_parent fuel x y rest i entry here at above = elim (mod2 i) [
    | inl even ↦
        let (a, b, mine, sibling, up) =
          sibling_right (join_nodes sum256) (x ∷ y ∷ rest) i even here in
        let same : a ≡ entry = cc in
        let (root, built, climbs) =
          above (join_nodes sum256 a b) (rw (parent_level-next_level (x ∷ y ∷ rest)) up) in
        (
          root,
          built,
          subst (λ e. Climbs (suc fuel) (x ∷ y ∷ rest) i e root) same
              (Climbs-right fuel x y rest i a b root even sibling climbs),
        )
    | inr odd ↦
        let (a, b, mine, sibling, up) =
          sibling_left (join_nodes sum256) (x ∷ y ∷ rest) i odd here in
        let same : b ≡ entry = cc in
        let (root, built, climbs) =
          above (join_nodes sum256 a b) (rw (parent_level-next_level (x ∷ y ∷ rest)) up) in
        (
          root,
          built,
          subst (λ e. Climbs (suc fuel) (x ∷ y ∷ rest) i e root) same
              (Climbs-left fuel x y rest i a b root odd sibling climbs),
        )
  ]

  -- The tree of a level that fits the fuel has a root, and every entry climbs to it.
  pub level-Climbs :
      (fuel : ℕ) (level : List MerkleNode) (i : ℕ) (entry : MerkleNode)
      → length level ≤ fuel
      → i < length level
      → get_elem? level i ≡ some entry
      → (root : MerkleNode) × (build_tree_within sum256 fuel level ≡ some root)
        × Climbs fuel level i entry root
  unfolding build_tree_within proof_loop climb
  level-Climbs fuel [] i entry fits here at = absurd (omega arith)
  level-Climbs zero (x ∷ level) i entry fits here at = absurd (omega arith)
  level-Climbs (suc fuel) (x ∷ []) zero entry fits here at =
      (x, refl, ([], [], λ hs fs. simp append-nil, ground arith, refl))
  level-Climbs (suc fuel) (x ∷ []) (suc i) entry fits here at = absurd (omega arith)
  level-Climbs (suc fuel) (x ∷ y ∷ rest) i entry fits here at =
      Climbs-from_parent fuel x y rest i entry here at λ parent up.
        level-Climbs fuel (parent_level sum256 (x ∷ y ∷ rest)) (i / 2) parent
          (omega (arith, length-parent_level (x ∷ y ∷ rest)))
          (omega (arith, length-parent_level (x ∷ y ∷ rest))) up

  -- The tree over some leaves, as both constructors make it.
  abbrev pub tree_of : List MerkleNode → MerkleTree
  tree_of leaves = record { root = build_tree sum256 leaves; leaves = leaves }

  pub get_proof_lem :
      (leaves : List MerkleNode) (i : ℕ) (entry : MerkleNode)
      → get_elem? leaves i ≡ some entry
      → i < length leaves
      → (p : MerkleProof) × (get_proof sum256 (tree_of leaves) (pos i) ≡ ok p)
        × (p.leaf_hash ≡ node_hash entry)
        × (length p.hashes ≡ length p.flags)
        × (climb sum256 p.leaf_hash p.hashes p.flags ≡ ok (get_root (tree_of leaves)))
  unfolding get_proof build_tree get_root
  get_proof_lem leaves i entry at here =
      let (root, built, (hashes, flags, runs, climbs, same)) =
        level-Climbs (length leaves) leaves i entry (omega arith) here at in
      let inside : leb (length leaves) i ≡ false = ground arith in
      (
        record { index = i; leaf_hash = node_hash entry; hashes = hashes; flags = flags },
        rw (inside, at, runs [] []) refl,
        refl,
        same,
        rw built climbs,
      )

  -- Every proof that GetProof gives for an index of the tree over some hashes verifies against the
  -- tree's root, and is a proof of the hash at that index. Neither call fails or panics.
  pub verify_proof-get_proof :
      (hashes : List Hash) (i : ℕ)
      → i < length hashes
      → (t : MerkleTree) × (p : MerkleProof) × (new_merkle_tree_from_hashes sum256 hashes ≡ ok t)
        × (get_proof sum256 t (pos i) ≡ ok p)
        × (get_elem? hashes i ≡ some p.leaf_hash)
        × (verify_proof sum256 p (get_root t) ≡ ok true)
  unfolding new_merkle_tree_from_hashes verify_proof node_hash
  verify_proof-get_proof [] i here = absurd (omega arith)
  verify_proof-get_proof (h ∷ rest) i here =
      let (x, at) = get_elem?-lt (h ∷ rest) i here in
      let (p, proof, mine, same, climbs) =
        get_proof_lem (map from_hash (h ∷ rest)) i (from_hash x)
          (get_elem?-map from_hash (h ∷ rest) i at) (rw (length-map from_hash (h ∷ rest)) here) in
      (
        tree_of (map from_hash (h ∷ rest)),
        p,
        refl,
        proof,
        rw mine at,
        rw (climbs) (ap ok ((bytes_eq_iff _ _).1 refl)),
      )

  -- Every proof that GetProof gives for an index of the tree over some data items verifies against
  -- the tree's root, and is a proof of the SHA-256 digest of the item at that index. Neither call fails
  -- or panics.
  pub verify_proof-get_proof_item :
      (items : List Bytes) (i : ℕ) (item : Bytes)
      → get_elem? items i ≡ some item
      → i < length items
      → (t : MerkleTree) × (p : MerkleProof) × (new_merkle_tree sum256 items ≡ ok t)
        × (get_proof sum256 t (pos i) ≡ ok p)
        × (p.leaf_hash ≡ sum256 item)
        × (verify_proof sum256 p (get_root t) ≡ ok true)
  unfolding new_merkle_tree verify_proof node_hash
  verify_proof-get_proof_item [] i item at here = absurd (omega arith)
  verify_proof-get_proof_item (d ∷ rest) i item at here =
      let make : Bytes → MerkleNode = λ x. leaf (sum256 x) x in
      let (p, proof, mine, same, climbs) =
        get_proof_lem (map make (d ∷ rest)) i (make item) (get_elem?-map make (d ∷ rest) i at)
          (rw (length-map make (d ∷ rest)) here) in
      (
        tree_of (map make (d ∷ rest)),
        p,
        refl,
        proof,
        mine,
        rw (climbs) (ap ok ((bytes_eq_iff _ _).1 refl)),
      )
