-- ===== src/Bytes.antt =====
-- internal/core/blockchain/types.go and hash.go: byte slices, hashes and addresses.
use v2v_blockchain.Prelude.{ℕ, ◌≡◌, ◌≢◌, Bool, List, replicate}
use v2v_blockchain.Prelude.Eq.{bytes_eq}

-- []byte: every entry is below 256 wherever a bound is needed.
abbrev pub Bytes : Type 0
Bytes = List ℕ

-- [32]byte
abbrev pub Hash : Type 0
Hash = Bytes

-- [20]byte
abbrev pub Address : Type 0
Address = Bytes

-- Hash{} and Address{}
abbrev pub empty_hash : Hash
empty_hash = replicate 32 0

abbrev pub empty_address : Address
empty_address = replicate 20 0

-- Hash.IsEmpty
abbrev pub is_empty : Hash → Bool
is_empty h = bytes_eq h empty_hash

-- Two different inputs on which a digest function agrees.
pub record Collision (digest : Bytes → Hash) : Type 0 where
  pub left : Bytes
  pub right : Bytes
  pub differ : left ≢ right
  pub agree : digest left ≡ digest right
