-- ===== src/Block.antt =====
-- internal/core/blockchain/types.go: transactions, headers and blocks. `now` stands for
-- time.Now().Unix(), `sum256` for SHA-256.
pub mod Encoding
pub mod RoundTrip
pub mod Identity
use v2v_blockchain.Prelude.{
  ℕ, suc, ◌+◌, ◌-◌, ◌%◌, ◌^◌, Bool, true, false, Option, none, some, List, [], ◌∷◌, ◌++◌, map,
  length, ltb, ◌==◌, if◌then◌else◌, map_option, Outcome, ok, err, panic, ◌>>=◌, or_panic,
}
use v2v_blockchain.Prelude.Int.{ℤ}
use v2v_blockchain.Prelude.Eq.{bytes_eq}
use v2v_blockchain.Bytes.{Bytes, Hash, Address, empty_hash}
use v2v_blockchain.Crypto.{Crypto}
use v2v_blockchain.Merkle.{calculate_merkle_root}
use Encoding.{to_be, from_be, u64_of, i64_of, slice}

pub record BlockHeader : Type 0 where
  pub hash : Hash
  pub prev_hash : Hash
  pub timestamp : ℤ
  pub merkle_root : Hash
  pub validator : Address
  pub signature : Bytes
  pub tx_count : ℕ
  pub height : ℕ
  pub nonce : ℕ

-- `kind` is the `Type` field, a uint8.
pub record Transaction : Type 0 where
  pub hash : Hash
  pub from : Address
  pub to : Address
  pub kind : ℕ
  pub nonce : ℕ
  pub gas_price : ℕ
  pub gas_limit : ℕ
  pub value : ℕ
  pub payload : Bytes
  pub signature : Bytes
  pub timestamp : ℤ

pub record Block : Type 0 where
  pub header : BlockHeader
  pub transactions : List Transaction

unfoldable pub serialize_without_hash : BlockHeader → Bytes
unfolding to_be u64_of
serialize_without_hash h =
    h.prev_hash
    ++ (to_be 8 (u64_of h.timestamp)
        ++ (h.merkle_root
            ++ (h.validator
                ++ (h.signature ++ (to_be 4 h.tx_count ++ (to_be 8 h.height ++ to_be 8 h.nonce))))))

unfoldable pub serialize : BlockHeader → Bytes
unfolding serialize_without_hash
serialize h = h.hash ++ serialize_without_hash h

pub data HeaderError : Type 0 where
  insufficient_data invalid_length : HeaderError

-- Deserialize. `spare` is what the array of `data` holds behind it, up to the capacity, which slicing
-- reaches into.
unfoldable pub deserialize : Bytes → Bytes → Outcome HeaderError BlockHeader
deserialize bytes spare = if ltb (length bytes) 32 then err insufficient_data else (do
  hash ← or_panic (slice (bytes ++ spare) 0 32)
  prev_hash ← or_panic (slice (bytes ++ spare) 32 64)
  timestamp ← or_panic (slice (bytes ++ spare) 64 72)
  merkle_root ← or_panic (slice (bytes ++ spare) 72 104)
  validator ← or_panic (slice (bytes ++ spare) 104 124)
  let sig_len = length bytes - 144
  if ltb (length bytes) 144 then err invalid_length else do
    signature ← or_panic (slice (bytes ++ spare) 124 (124 + sig_len))
    let offset = 124 + sig_len
    tx_count ← or_panic (slice (bytes ++ spare) offset (offset + 4))
    height ← or_panic (slice (bytes ++ spare) (offset + 4) (offset + 12))
    nonce ← or_panic (slice (bytes ++ spare) (offset + 12) (offset + 20))
    ok (record {
      hash = hash;
      prev_hash = prev_hash;
      timestamp = i64_of (from_be timestamp);
      merkle_root = merkle_root;
      validator = validator;
      signature = signature;
      tx_count = from_be tx_count;
      height = from_be height;
      nonce = from_be nonce;
    }))

-- Transaction.Serialize
unfoldable pub serialize_transaction : Transaction → Bytes
unfolding to_be u64_of
serialize_transaction tx =
    tx.from
    ++ (tx.to
        ++ (to_be 1 tx.kind
            ++ (to_be 8 tx.nonce
                ++ (to_be 8 tx.gas_price
                    ++ (to_be 8 tx.gas_limit
                        ++ (to_be 8 tx.value
                            ++ (to_be 4 (length tx.payload % 2 ^ 32)
                                ++ (tx.payload ++ to_be 8 (u64_of tx.timestamp)))))))))

module _ (c : Crypto) where
  -- BlockHeader.CalculateHash
  unfoldable pub header_hash : BlockHeader → Hash
  unfolding serialize_without_hash
  header_hash h = c.keccak256 (serialize_without_hash h)

  -- Transaction.CalculateHash
  unfoldable pub transaction_hash : Transaction → Hash
  unfolding serialize_transaction
  transaction_hash tx = c.keccak256 (serialize_transaction tx)

  matches_address : Address → Option Address → Bool
  matches_address addr none = false
  matches_address addr (some recovered) = bytes_eq addr recovered

  -- Block.VerifySignature
  unfoldable pub verify_block_signature : Block → Bool
  unfolding matches_address
  verify_block_signature b =
      let h = b.header in
      if length h.signature == 0
      then false
      else matches_address h.validator (c.recover (header_hash h) h.signature)

  -- Transaction.VerifySignature
  unfoldable pub verify_transaction_signature : Transaction → Bool
  unfolding matches_address
  verify_transaction_signature tx =
      if length tx.signature == 0
      then false
      else matches_address tx.from (c.recover (transaction_hash tx) tx.signature)

  with_hash : BlockHeader → BlockHeader
  unfolding header_hash
  with_hash h = record h { hash = header_hash h }

  unfoldable pub signed_block : Block → Bytes → Block
  unfolding with_hash
  signed_block b sig = record b { header = with_hash (record (b.header) { signature = sig }) }

  -- Block.Sign; `none` is the error of ToECDSA or Sign.
  unfoldable pub sign_block : Block → Bytes → Option Block
  sign_block b key = map_option (signed_block b) (c.sign_digest (header_hash b.header) key)

  pub signed_transaction : Transaction → Bytes → Transaction
  signed_transaction tx sig = record tx { hash = transaction_hash tx; signature = sig }

  -- Transaction.Sign. The hash is set also when signing fails; then the caller has the error.
  unfoldable pub sign_transaction : Transaction → Bytes → Option Transaction
  sign_transaction tx key =
      map_option (signed_transaction tx) (c.sign_digest (transaction_hash tx) key)

  module _ (sum256 : Bytes → Hash) (now : ℤ) where
    unfoldable pub new_block : ℕ → Hash → Address → List Transaction → Block
    unfolding with_hash transaction_hash
    new_block height prev_hash validator txs = record {
      header = with_hash (record {
        hash = empty_hash;
        prev_hash = prev_hash;
        timestamp = now;
        merkle_root = calculate_merkle_root sum256 (map (transaction_hash) txs);
        validator = validator;
        signature = [];
        tx_count = length txs % 2 ^ 32;
        height = height;
        nonce = 0;
      });
      transactions = txs;
    }

    unfoldable pub new_genesis_block : Address → Block
    unfolding new_block
    new_genesis_block validator = new_block 0 empty_hash validator []

sum_sizes : List Transaction → ℕ
unfolding serialize_transaction
sum_sizes [] = 0
sum_sizes (tx ∷ txs) = length (serialize_transaction tx) + length tx.signature + sum_sizes txs

unfoldable pub block_size : Block → ℕ
unfolding serialize sum_sizes
block_size b = length (serialize b.header) + sum_sizes b.transactions
