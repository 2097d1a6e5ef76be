-- ===== src/Merkle/Sound.antt =====
-- merkle.go: what an accepted proof shows. A forged leaf gives a collision of SHA-256.
use v2v_blockchain.Prelude.{
  ℕ, ◌<◌, ◌≡◌, sym, ap, ◌∙◌, ◌⊎◌, inl, inr, Bool, true, false, some, List, [], ◌∷◌, ◌++◌, length,
  All, get_elem?, arith, ok, leb, Bool-cases, ok-injective, >>=-eq-ok, or_panic, append-injective,
  length-map, get_elem?-map, get_elem?-lt, map,
}
use v2v_blockchain.Prelude.Int.{pos}
use v2v_blockchain.Prelude.Eq.{bytes_eq, bytes_eq_iff}
use v2v_blockchain.Bytes.{Bytes, Hash, Collision}
use v2v_blockchain.Merkle.{
  MerkleTree, MerkleProof, node_hash, hash_pair, climb, verify_proof, get_proof, proof_loop,
  get_root, new_merkle_tree_from_hashes,
}
use v2v_blockchain.Merkle.Complete.{from_hash, get_proof_lem, tree_of}
use v2v_blockchain.Merkle.Sizes.{IsHash, Sized, All-get_elem?, Sized-from_hash, proof_loop-IsHash}

module _ (sum256 : Bytes → Hash) where
  -- Equal digests of two pairs of 32-byte hashes: equal pairs, or a collision.
  hash_pair-injective :
      (a b c d : Hash)
      → IsHash a
      → IsHash c
      → hash_pair sum256 a b ≡ hash_pair sum256 c d
      → ((a ≡ c) × (b ≡ d)) ⊎ Collision sum256
  unfolding hash_pair
  hash_pair-injective a b c d ha hc e = elim (Bool-cases (bytes_eq (a ++ b) (c ++ d))) [
    | inl same ↦ inl (append-injective a b c d (ha ∙ sym hc) ((bytes_eq_iff _ _).0 same))
    | inr other ↦ inr (record {
      left = a ++ b;
      right = c ++ d;
      differ = λ p. ground (arith, bytes_eq_iff (a ++ b) (c ++ d));
      agree = e;
    })
  ]

  -- Two climbs on the same sides, through as many hashes, that end in one root.
  climb-injective :
      ((d : Bytes) → IsHash (sum256 d))
      → (flags : List Bool) (a b root : Hash) (hs gs : List Hash) → IsHash a
      → IsHash b
      → All IsHash hs
      → All IsHash gs
      → length hs ≡ length gs
      → climb sum256 a hs flags ≡ ok root
      → climb sum256 b gs flags ≡ ok root
      → (a ≡ b) ⊎ Collision sum256
  unfolding climb
  climb-injective size flags a b root [] [] ha hb hhs hgs same p q = inl (cc)
  climb-injective size flags a b root [] (g ∷ gs) ha hb hhs hgs same p q = absurd (omega arith)
  climb-injective size flags a b root (h ∷ hs) [] ha hb hhs hgs same p q = absurd (omega arith)
  climb-injective size [] a b root (h ∷ hs) (g ∷ gs) ha hb hhs hgs same p q = ground arith
  climb-injective size (true ∷ flags) a b root (h ∷ hs) (g ∷ gs) ha hb hhs hgs same p q =
      elim (climb-injective size flags (hash_pair sum256 a h) (hash_pair sum256 b g) root hs gs
        (size _) (size _) hhs.1 hgs.1 (omega arith) p q) [
          | inl e ↦ elim (hash_pair-injective a h b g ha hb e) [ inl r ↦ inl r.0 | inr c ↦ inr c ]
          | inr c ↦ inr c
        ]
  climb-injective size (false ∷ flags) a b root (h ∷ hs) (g ∷ gs) ha hb hhs hgs same p q =
      elim (climb-injective size flags (hash_pair sum256 h a) (hash_pair sum256 g b) root hs gs
        (size _) (size _) hhs.1 hgs.1 (omega arith) p q) [
          | inl e ↦ elim (hash_pair-injective h a g b hhs.0 hgs.0 e) [
            | inl r ↦ inl r.1
            | inr c ↦ inr c
          ]
          | inr c ↦ inr c
        ]

  get_proof-IsHash :
      ((d : Bytes) → IsHash (sum256 d))
      → (t : MerkleTree) (i : ℕ) (p : MerkleProof) → Sized t.leaves
      → get_proof sum256 t (pos i) ≡ ok p
      → All IsHash p.hashes
  unfolding get_proof
  get_proof-IsHash size t i p sized made = elim (Bool-cases (leb (length t.leaves) i)) [
    | inl outside ↦ absurd (ground arith)
    | inr inside ↦
        let (node, at, rest) = >>=-eq-ok (or_panic (get_elem? t.leaves i)) _ (rw inside at made) in
        let (r, run, out) =
          >>=-eq-ok (proof_loop sum256 (length t.leaves) t.leaves i [] []) _ rest in
        let e : r.0 ≡ p.hashes = ground arith in
        rw (← e) (proof_loop-IsHash sum256 size (length t.leaves) t.leaves i [] [] sized tt run)
  ]

  get_proof-inside :
      (t : MerkleTree) (i : ℕ) (p : MerkleProof)
      → get_proof sum256 t (pos i) ≡ ok p
      → i < length t.leaves
  unfolding get_proof
  get_proof-inside t i p made = elim (Bool-cases (leb (length t.leaves) i)) [
    | inl outside ↦ absurd (ground arith)
    | inr inside ↦ ground arith
  ]

  verify_proof-climb :
      (p : MerkleProof) (root : Hash)
      → verify_proof sum256 p root ≡ ok true
      → climb sum256 p.leaf_hash p.hashes p.flags ≡ ok root
  unfolding verify_proof
  verify_proof-climb p root accepted =
      let (hash, run, test) = >>=-eq-ok (climb sum256 p.leaf_hash p.hashes p.flags) _ accepted in
      let same : hash ≡ root = (bytes_eq_iff hash root).0 (cc) in run ∙ ap ok same

  sound_for_leaves :
      ((d : Bytes) → IsHash (sum256 d))
      → (hashes : List Hash) (i : ℕ) (genuine forged : MerkleProof) → All IsHash hashes
      → get_proof sum256 (tree_of sum256 (map from_hash hashes)) (pos i) ≡ ok genuine
      → IsHash forged.leaf_hash
      → All IsHash forged.hashes
      → forged.flags ≡ genuine.flags
      → length forged.hashes ≡ length genuine.hashes
      → verify_proof sum256 forged (get_root (tree_of sum256 (map from_hash hashes))) ≡ ok true
      → (get_elem? hashes i ≡ some forged.leaf_hash) ⊎ Collision sum256
  unfolding node_hash
  sound_for_leaves size hashes i genuine forged sized proof fl fh flags count accepted =
      let leaves = map from_hash hashes in
      let t = tree_of sum256 leaves in
      let inside : i < length leaves = get_proof-inside t i genuine proof in
      let (x, at) = get_elem?-lt hashes i (rw (← length-map from_hash hashes) inside) in
      let (p, again, mine, same, climbs) =
        get_proof_lem sum256 leaves i (from_hash x) (get_elem?-map from_hash hashes i at) inside in
      let e : genuine ≡ p = ok-injective (sym proof ∙ again) in
      let siblings : All IsHash p.hashes =
        get_proof-IsHash size t i p (Sized-from_hash hashes sized) again in
      let run = verify_proof-climb forged (get_root t) accepted in
      elim (climb-injective size forged.flags forged.leaf_hash p.leaf_hash (get_root t)
        forged.hashes p.hashes fl (rw mine (All-get_elem? IsHash hashes i sized at)) fh siblings
        (count ∙ ap (λ (q : MerkleProof). length q.hashes) e) run
        (rw (flags ∙ ap (λ (q : MerkleProof). q.flags) e) climbs)) [
          | inl same ↦ inl (at ∙ ap some (sym (same ∙ mine)))
          | inr collision ↦ inr collision
        ]

  -- A proof that Verify accepts against the root of the tree over some hashes, on the sides that
  -- GetProof gives for an index and with as many siblings, is a proof of the hash at that index:
  -- any other leaf hash comes with two different inputs of equal SHA-256 digest. (All hashes are
  -- 32-byte arrays, and so are all digests.)
  pub verify_proof_sound :
      ((d : Bytes) → IsHash (sum256 d))
      → (hashes : List Hash) (i : ℕ) (t : MerkleTree) (genuine forged : MerkleProof)
      → All IsHash hashes
      → new_merkle_tree_from_hashes sum256 hashes ≡ ok t
      → get_proof sum256 t (pos i) ≡ ok genuine
      → IsHash forged.leaf_hash
      → All IsHash forged.hashes
      → forged.flags ≡ genuine.flags
      → length forged.hashes ≡ length genuine.hashes
      → verify_proof sum256 forged (get_root t) ≡ ok true
      → (get_elem? hashes i ≡ some forged.leaf_hash) ⊎ Collision sum256
  unfolding new_merkle_tree_from_hashes
  verify_proof_sound size [] i t genuine forged sized made proof fl fh flags count accepted =
      absurd (cc)
  verify_proof_sound size (h ∷ rest) i t genuine forged sized made proof fl fh flags count
        accepted =
      let e : t ≡ tree_of sum256 (map from_hash (h ∷ rest)) = sym (ok-injective made) in
      sound_for_leaves size (h ∷ rest) i genuine forged sized (rw e at proof) fl fh flags count
        (rw e at accepted)
