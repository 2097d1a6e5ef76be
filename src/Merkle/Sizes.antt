-- ===== src/Merkle/Sizes.antt =====
-- merkle.go: every hash that GetProof puts into a proof is a 32-byte array.
use v2v_blockchain.Prelude.{
  ℕ, zero, suc, ◌+◌, ◌-◌, ◌/◌, ◌%◌, ◌≡◌, inl, inr, Bool, true, false, some, List, [], ◌∷◌, ◌++◌,
  length, All, get_elem?, arith, ok, Bool-cases, Option-cases, map, leb, ◌==◌,
}
use v2v_blockchain.Bytes.{Bytes, Hash}
use v2v_blockchain.Merkle.{MerkleNode, node_hash, pad_even, parent_level, proof_loop, join_nodes}
use v2v_blockchain.Merkle.Levels.{next_level, pad_even-cons}
use v2v_blockchain.Merkle.Complete.{parent_level-next_level, from_hash}

-- A value of Go's type [32]byte.
abbrev pub IsHash : Hash → Type 0
IsHash h = length h ≡ 32

abbrev pub Sized : List MerkleNode → Type 0
Sized nodes = All (λ node. IsHash (node_hash node)) nodes

-- What holds of the hashes collected so far and of the new ones holds of all.
pub All-append {ℓ κ} :
    {A : Type ℓ} (P : A → Type κ) (old new : List A) → All P old → All P new → All P (old ++ new)
All-append P (h ∷ old) new (first, rest) fresh = (first, All-append P old new rest fresh)
All-append P [] new none_old fresh = fresh

pub All-get_elem? {ℓ κ} :
    {A : Type ℓ} (P : A → Type κ) (xs : List A) (i : ℕ) {a : A}
    → All P xs
    → get_elem? xs i ≡ some a
    → P a
All-get_elem? P [] i all at = absurd (cc)
All-get_elem? P (x ∷ xs) zero {a} all at = let e : x ≡ a = cc in rw (← e) all.0
All-get_elem? P (x ∷ xs) (suc i) all at = All-get_elem? P xs i all.1 at

All-pad_even {ℓ κ} : {A : Type ℓ} (P : A → Type κ) (xs : List A) → All P xs → All P (pad_even xs)
All-pad_even P [] all = unfold pad_even in tt
All-pad_even P (x ∷ []) all = unfold pad_even in (all.0, (all.0, tt))
All-pad_even P (x ∷ y ∷ xs) all = rw pad_even-cons (all.0, (all.1.0, All-pad_even P xs all.1.1))

pub Sized-from_hash : (hashes : List Hash) → All IsHash hashes → Sized (map from_hash hashes)
unfolding node_hash
Sized-from_hash [] all = tt
Sized-from_hash (h ∷ hashes) all = (all.0, Sized-from_hash hashes all.1)

module _ (sum256 : Bytes → Hash) (size : (d : Bytes) → IsHash (sum256 d)) where
  Sized-next_level : (nodes : List MerkleNode) → Sized (next_level (join_nodes sum256) nodes)
  unfolding next_level join_nodes
  Sized-next_level [] = tt
  Sized-next_level (x ∷ []) = (size _, tt)
  Sized-next_level (x ∷ y ∷ nodes) = (size _, Sized-next_level nodes)

  Sized-parent_level : (nodes : List MerkleNode) → Sized (parent_level sum256 nodes)
  Sized-parent_level nodes = rw (parent_level-next_level sum256 nodes) (Sized-next_level nodes)

  pub proof_loop-IsHash :
      (fuel : ℕ) (level : List MerkleNode) (index : ℕ) (hs : List Hash) (fs : List Bool)
      {r : List Hash × List Bool}
      → Sized level
      → All IsHash hs
      → proof_loop sum256 fuel level index hs fs ≡ ok r
      → All IsHash r.0
  unfolding proof_loop
  proof_loop-IsHash zero level index hs fs {r} sized all run =
      let e : hs ≡ r.0 = ground arith in rw (← e) all
  proof_loop-IsHash (suc fuel) level index hs fs {r} sized all run =
      elim (Bool-cases (leb (length level) 1)) [
        | inl small ↦ let e : hs ≡ r.0 = ground arith in rw (← e) all
        | inr large ↦ elim (Bool-cases (index % 2 == 0)) [
          | inl even ↦ elim (Option-cases (get_elem? (pad_even level) (index + 1))) [
            | inl missing ↦ absurd (ground arith)
            | inr (b, at) ↦
                proof_loop-IsHash fuel (parent_level sum256 level) (index / 2)
                  (hs ++ node_hash b ∷ []) (fs ++ true ∷ []) (Sized-parent_level level)
                  (All-append IsHash hs (node_hash b ∷ []) all (
                    All-get_elem? (λ node. IsHash (node_hash node)) (pad_even level) (index + 1)
                        (All-pad_even (λ node. IsHash (node_hash node)) level sized) at,
                    tt,
                  ))
                  (rw (large, even, at) at run)
          ]
          | inr odd ↦ elim (Option-cases (get_elem? (pad_even level) (index - 1))) [
            | inl missing ↦ absurd (ground arith)
            | inr (b, at) ↦
                proof_loop-IsHash fuel (parent_level sum256 level) (index / 2)
                  (hs ++ node_hash b ∷ []) (fs ++ false ∷ []) (Sized-parent_level level)
                  (All-append IsHash hs (node_hash b ∷ []) all (
                    All-get_elem? (λ node. IsHash (node_hash node)) (pad_even level) (index - 1)
                        (All-pad_even (λ node. IsHash (node_hash node)) level sized) at,
                    tt,
                  ))
                  (rw (large, odd, at) at run)
          ]
        ]
      ]
