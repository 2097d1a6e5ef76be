-- ===== src/Tests/BlockTests.antt =====
-- types.go on a header, a transaction and a block.
use v2v_blockchain.Prelude.{
  ◌<◌, ◌≤◌, ◌≡◌, ◌≢◌, ◌⊎◌, refl, some, [], ◌∷◌, replicate, ok, err, panic, arith, some-eq,
}
use v2v_blockchain.Prelude.Eq.{bytes_eq}
use v2v_blockchain.Bytes.{Bytes, Collision}
use v2v_blockchain.Block.{
  Transaction, Block, serialize, deserialize, insufficient_data, invalid_length, transaction_hash,
  header_hash, sign_transaction, signed_transaction, verify_transaction_signature, sign_block,
  signed_block, verify_block_signature,
}
use v2v_blockchain.Block.RoundTrip.{IsHeader, deserialize-serialize, deserialize_short}
use v2v_blockchain.Block.Identity.{
  IsTransaction, SameContent, Signs, transaction_hash_binds, verify_transaction_signature-sign,
  verify_block_signature-sign,
}
use v2v_blockchain.Tests.Samples.{header_five, payment, block_five, sample_crypto, owner}

header_five-IsHeader : IsHeader header_five
header_five-IsHeader = record {
  hash = refl;
  prev_hash = refl;
  timestamp = omega arith;
  merkle_root = refl;
  validator = refl;
  tx_count = omega arith;
  height = omega arith;
  nonce = omega arith;
}

deserialize-serialize_example : deserialize (serialize header_five) [] ≡ ok header_five
deserialize-serialize_example = deserialize-serialize header_five [] header_five-IsHeader

-- The first 40 bytes of an array of 100.
deserialize_short_example :
    ((40 < 32) × (deserialize (replicate 40 0) (replicate 60 0) ≡ err insufficient_data))
    ⊎ ((32 ≤ 40) × (100 < 124) × (deserialize (replicate 40 0) (replicate 60 0) ≡ panic))
    ⊎ ((32 ≤ 40)
        × (124 ≤ 100)
        × (deserialize (replicate 40 0) (replicate 60 0) ≡ err invalid_length))
deserialize_short_example = deserialize_short (replicate 40 0) (replicate 60 0) (omega arith)

payment-IsTransaction : IsTransaction payment
payment-IsTransaction = record {
  from = refl;
  to = refl;
  kind = omega arith;
  nonce = omega arith;
  gas_price = omega arith;
  gas_limit = omega arith;
  value = omega arith;
  timestamp = omega arith;
}

-- The same payment, signed: the signature is not hashed.
transaction_hash_binds_example :
    SameContent payment (record payment { signature = replicate 65 1 })
    ⊎ Collision (sample_crypto owner).keccak256
unfolding transaction_hash
transaction_hash_binds_example =
    transaction_hash_binds (sample_crypto owner) payment
      (record payment { signature = replicate 65 1 }) payment-IsTransaction
      (record {
        from = refl;
        to = refl;
        kind = omega arith;
        nonce = omega arith;
        gas_price = omega arith;
        gas_limit = omega arith;
        value = omega arith;
        timestamp = omega arith;
      })
      refl

sample_crypto-Signs : (key : Bytes) → Signs (sample_crypto owner) key owner
sample_crypto-Signs key = record {
  sized = λ d sig h. rw (← some-eq h) refl;
  recovers = λ d sig h. refl;
}

abbrev signed_payment : Transaction
signed_payment = signed_transaction (sample_crypto owner) payment (replicate 65 1)

verify_transaction_signature-sign_example :
    SameContent signed_payment payment
    × (signed_payment.hash ≡ transaction_hash (sample_crypto owner) signed_payment)
    × (verify_transaction_signature (sample_crypto owner) signed_payment ≡ bytes_eq owner owner)
unfolding sign_transaction
verify_transaction_signature-sign_example =
    verify_transaction_signature-sign (sample_crypto owner) (1 ∷ []) owner
      (sample_crypto-Signs (1 ∷ [])) payment signed_payment refl

abbrev signed_five : Block
signed_five = signed_block (sample_crypto owner) block_five (replicate 65 1)

-- A scheme that recovers the owner from every digest.
verify_block_signature-sign_example :
    ((sample_crypto owner).sign_digest (header_hash (sample_crypto owner) header_five) (1 ∷ [])
      ≡ some (signed_five.header.signature))
    × ((sample_crypto owner).recover
          (header_hash (sample_crypto owner) signed_five.header)
          (signed_five.header.signature)
        ≡ some owner)
    × ((header_hash (sample_crypto owner) signed_five.header
          ≢ header_hash (sample_crypto owner) header_five)
        ⊎ Collision (sample_crypto owner).keccak256)
unfolding sign_block signed_block verify_block_signature bytes_eq
verify_block_signature-sign_example =
    verify_block_signature-sign (sample_crypto owner) block_five signed_five (1 ∷ []) refl refl refl
