-- ===== src/Merkle/Root.antt =====
-- merkle.go against CalculateMerkleRoot of types.go, and what the padding does to the root.
use mathlib.Core.Path.{subst}
use v2v_blockchain.Prelude.{
  ℕ, zero, suc, ◌+◌, ◌*◌, ◌%◌, ◌≤◌, ◌≡◌, refl, ap, Option, none, some, List, [], ◌∷◌, ◌++◌, map,
  length, arith, ok, ◌∙◌, sym, length-map, length-append, ◌==◌, true, false,
}
use v2v_blockchain.Bytes.{Bytes, Hash, empty_hash}
use v2v_blockchain.Merkle.{
  MerkleNode, MerkleTree, node_hash, pad_even, join_nodes, join_pairs, parent_level, hash_pair,
  build_tree_within, build_tree, merkle_root_within, calculate_merkle_root, get_root, get_last?,
  new_merkle_tree_from_hashes,
}
use v2v_blockchain.Merkle.Levels.{join_pairs-pad_even, length-next_level, map-next_level}
use v2v_blockchain.Merkle.Complete.{from_hash, parent_level-next_level}

module _ (sum256 : Bytes → Hash) where
  abbrev hash_of : Option MerkleNode → Hash
  hash_of none = empty_hash
  hash_of (some node) = node_hash node

  join_nodes-hash :
      (a b : MerkleNode)
      → node_hash (join_nodes sum256 a b) ≡ hash_pair sum256 (node_hash a) (node_hash b)
  unfolding join_nodes
  join_nodes-hash a b = refl

  map-parent_level :
      (nodes : List MerkleNode)
      → map node_hash (parent_level sum256 nodes)
        ≡ join_pairs (hash_pair sum256) (pad_even (map node_hash nodes))
  map-parent_level nodes =
      rw (parent_level-next_level sum256 nodes, join_pairs-pad_even)
        (map-next_level node_hash (join_nodes sum256) (hash_pair sum256) join_nodes-hash nodes)

  roots_agree :
      (fuel : ℕ) (nodes : List MerkleNode)
      → hash_of (build_tree_within sum256 fuel nodes)
        ≡ merkle_root_within sum256 fuel (map node_hash nodes)
  unfolding build_tree_within merkle_root_within
  roots_agree zero nodes = refl
  roots_agree (suc fuel) [] = refl
  roots_agree (suc fuel) (x ∷ []) = refl
  roots_agree (suc fuel) (x ∷ y ∷ rest) =
      rw (← map-parent_level (x ∷ y ∷ rest)) (roots_agree fuel (parent_level sum256 (x ∷ y ∷ rest)))

  from_hash-id : (hashes : List Hash) → map node_hash (map from_hash hashes) ≡ hashes
  unfolding node_hash
  from_hash-id [] = refl
  from_hash-id (h ∷ hashes) = ap (◌∷◌ h) (from_hash-id hashes)

  get_root-hash_of :
      (nodes : List MerkleNode)
      → get_root (record { root = build_tree sum256 nodes; leaves = nodes })
        ≡ hash_of (build_tree sum256 nodes)
  unfolding get_root
  get_root-hash_of nodes = ground arith

  -- The tree over some hashes has the root that CalculateMerkleRoot gives for them: the two
  -- computations of a block's Merkle root agree, on every non-empty list.
  pub get_root-calculate :
      (h : Hash) (rest : List Hash)
      → (t : MerkleTree) × (new_merkle_tree_from_hashes sum256 (h ∷ rest) ≡ ok t)
        × (get_root t ≡ calculate_merkle_root sum256 (h ∷ rest))
  unfolding new_merkle_tree_from_hashes
  get_root-calculate h rest = (
    record {
      root = build_tree sum256 (map from_hash (h ∷ rest));
      leaves = map from_hash (h ∷ rest);
    },
    refl,
    get_root-hash_of (map from_hash (h ∷ rest)) ∙ agree,
  )
    where
      agree :
          hash_of (build_tree sum256 (map from_hash (h ∷ rest)))
          ≡ calculate_merkle_root sum256 (h ∷ rest)
      agree =
          unfold build_tree calculate_merkle_root in
          subst
            (λ (n : ℕ).
              hash_of (build_tree_within sum256 n (map from_hash (h ∷ rest)))
              ≡ merkle_root_within sum256 (length (h ∷ rest)) (h ∷ rest))
            (sym (length-map from_hash (h ∷ rest)))
            (subst
              (λ hs.
                hash_of (build_tree_within sum256 (length (h ∷ rest)) (map from_hash (h ∷ rest)))
                ≡ merkle_root_within sum256 (length (h ∷ rest)) hs)
              (from_hash-id (h ∷ rest))
              (roots_agree (length (h ∷ rest)) (map from_hash (h ∷ rest))))

  above : List Hash → List Hash
  above hashes = join_pairs (hash_pair sum256) (pad_even hashes)

  length-above :
      (hashes : List Hash) → length (above hashes) * 2 ≡ length hashes + length hashes % 2
  unfolding above
  length-above hashes =
      rw (join_pairs-pad_even (hash_pair sum256) hashes)
        (length-next_level (hash_pair sum256) hashes)

  -- Any fuel that the list fits gives the same root.
  enough_fuel :
      (f g : ℕ) (hashes : List Hash)
      → length hashes ≤ f
      → length hashes ≤ g
      → merkle_root_within sum256 f hashes ≡ merkle_root_within sum256 g hashes
  unfolding merkle_root_within above
  enough_fuel zero zero hashes p q = refl
  enough_fuel zero (suc g) [] p q = refl
  enough_fuel (suc f) zero [] p q = refl
  enough_fuel zero (suc g) (x ∷ hashes) p q = absurd (omega arith)
  enough_fuel (suc f) zero (x ∷ hashes) p q = absurd (omega arith)
  enough_fuel (suc f) (suc g) [] p q = refl
  enough_fuel (suc f) (suc g) (x ∷ []) p q = refl
  enough_fuel (suc f) (suc g) (x ∷ y ∷ rest) p q =
      enough_fuel f g (above (x ∷ y ∷ rest)) (omega (arith, length-above (x ∷ y ∷ rest)))
        (omega (arith, length-above (x ∷ y ∷ rest)))

  pad_even-odd :
      (x : Hash) (hashes : List Hash)
      → length hashes % 2 ≡ 1
      → get_last? hashes ≡ some x
      → pad_even (hashes ++ x ∷ []) ≡ pad_even hashes
  unfolding pad_even
  pad_even-odd x hashes odd last =
      let even : (length (hashes ++ x ∷ []) % 2 == 1) ≡ false =
        ground (arith, length-append hashes (x ∷ [])) in
      let padded : (length hashes % 2 == 1) ≡ true = ground arith in rw (even, padded, last) refl

  -- The root does not tell a list of odd length, three or more, from the same list with its last
  -- hash repeated: a block's Merkle root does not fix its list of transactions.
  pub calculate_merkle_root-repeat_last :
      (a b c : Hash) (rest : List Hash) (x : Hash)
      → length (a ∷ b ∷ c ∷ rest) % 2 ≡ 1
      → get_last? (a ∷ b ∷ c ∷ rest) ≡ some x
      → calculate_merkle_root sum256 (a ∷ b ∷ c ∷ rest ++ x ∷ [])
        ≡ calculate_merkle_root sum256 (a ∷ b ∷ c ∷ rest)
  unfolding calculate_merkle_root above
  calculate_merkle_root-repeat_last a b c rest x odd last =
      ap
        (λ l.
          merkle_root_within sum256 (length (b ∷ c ∷ rest ++ x ∷ []))
            (join_pairs (hash_pair sum256) l))
        (pad_even-odd x (a ∷ b ∷ c ∷ rest) odd last)
      ∙ enough_fuel (length (b ∷ c ∷ rest ++ x ∷ [])) (length (b ∷ c ∷ rest))
          (above (a ∷ b ∷ c ∷ rest))
          (omega (arith, length-above (a ∷ b ∷ c ∷ rest), length-append rest (x ∷ [])))
          (omega (arith, length-above (a ∷ b ∷ c ∷ rest)))
