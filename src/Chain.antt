-- ===== src/Chain.antt =====
-- internal/core/blockchain/storage.go and chain.go: the stored blocks and the chain.
pub mod Storage
pub mod Adding
pub mod Forks
use v2v_blockchain.Prelude.{
  ℕ, ◌+◌, ◌%◌, ◌^◌, ◌<◌, Bool, true, false, not, ◌&&◌, Option, none, some, List, [], ◌∷◌, map,
  length, ltb, ◌==◌, if◌then◌else◌, Outcome, ok, err, panic, blocked, ◌>>=◌, ◌>>◌, reject_if,
}
use v2v_blockchain.Prelude.Eq.{bytes_eq}
use v2v_blockchain.Prelude.Lock.{Lock, free, reading, writing, can_lock, can_read}
use v2v_blockchain.Bytes.{Bytes, Hash, Address}
use v2v_blockchain.Crypto.{Crypto}
use v2v_blockchain.Merkle.{calculate_merkle_root}
use v2v_blockchain.Block.{
  BlockHeader, Transaction, Block, header_hash, verify_block_signature, transaction_hash,
  verify_transaction_signature, block_size, new_block,
}
use Storage.{
  Database, BlockCodec, StorageError, get_block, get_transaction, put_block, set_latest_height,
}

pub data ChainError : Type 0 where
  block_exists invalid_height invalid_prev_hash invalid_hash invalid_signature : ChainError
  transaction_exists invalid_transaction_hash invalid_transaction_signature : ChainError
  invalid_merkle_root block_too_large too_many_transactions : ChainError
  storage_failed : StorageError → ChainError

-- A limit that is zero, or negative in the configuration, is no limit.
pub record Blockchain (Db : Type 0) : Type 0 where
  pub max_block_size : ℕ
  pub max_tx_per_block : ℕ
  pub db : Db
  pub latest_hash : Hash
  pub latest_height : ℕ
  pub mu : Lock

module _ {Db : Type 0} (c : Crypto) (sum256 : Bytes → Hash) (d : Database Db)
    (codec : BlockCodec) where
  -- What a getter answers under RLock. The chain is as before when it has returned.
  unfoldable pub read_locked {ℓ} :
      {A : Type ℓ} → Blockchain Db → Outcome StorageError A → Outcome StorageError A
  read_locked bc answer = if can_read bc.mu then answer else blocked

  unfoldable pub get_block_by_hash : Hash → Blockchain Db → Outcome StorageError Block
  get_block_by_hash hash bc = read_locked bc (get_block d codec hash bc.db)

  unfoldable pub lookup_transaction : Hash → Blockchain Db → Outcome StorageError Transaction
  lookup_transaction hash bc = read_locked bc (get_transaction d codec hash bc.db)

  -- if _, err := lookup; err == nil { return exists }
  unfoldable pub reject_found {ℓ} :
      {A : Type ℓ} → Outcome StorageError A → ChainError → Outcome ChainError (Unit {0})
  reject_found (ok a) exists = err exists
  reject_found (err e) exists = ok tt
  reject_found panic exists = panic
  reject_found blocked exists = blocked

  unfoldable pub validate_transaction : Transaction → Blockchain Db → Outcome ChainError (Unit {0})
  validate_transaction tx bc = do
    reject_found (lookup_transaction tx.hash bc) transaction_exists
    reject_if (not (bytes_eq (transaction_hash c tx) tx.hash)) invalid_transaction_hash
    reject_if (ltb 0 (length tx.signature) && not (verify_transaction_signature c tx))
        invalid_transaction_signature

  unfoldable pub validate_transactions :
      List Transaction → Blockchain Db → Outcome ChainError (Unit {0})
  validate_transactions [] bc = ok tt
  validate_transactions (tx ∷ txs) bc = validate_transaction tx bc >> validate_transactions txs bc

  unfoldable pub validate_block : Block → Blockchain Db → Outcome ChainError (Unit {0})
  validate_block b bc =
      let h = b.header in
      do
        reject_found (get_block_by_hash h.hash bc) block_exists
        reject_if (not (h.height == (bc.latest_height + 1) % 2 ^ 64)) invalid_height
        reject_if (ltb 1 h.height && not (bytes_eq h.prev_hash bc.latest_hash)) invalid_prev_hash
        reject_if (not (bytes_eq (header_hash c h) h.hash)) invalid_hash
        reject_if (ltb 0 (length h.signature) && not (verify_block_signature c b)) invalid_signature
        validate_transactions b.transactions bc
        reject_if
            (not (
              bytes_eq
                (calculate_merkle_root sum256 (map (λ tx. transaction_hash c tx) b.transactions))
                h.merkle_root))
            invalid_merkle_root
        reject_if (ltb 0 bc.max_block_size && ltb bc.max_block_size (block_size b)) block_too_large
        reject_if (ltb 0 bc.max_tx_per_block && ltb bc.max_tx_per_block (length b.transactions))
            too_many_transactions

  unfoldable pub after_height :
      Block
      → Outcome StorageError Db
      → Blockchain Db
      → Outcome ChainError (Unit {0}) × Blockchain Db
  after_height b (ok db) bc =
      (ok tt, record bc { db = db; latest_hash = b.header.hash; latest_height = b.header.height })
  after_height b (err e) bc = (err (storage_failed e), bc)
  after_height b panic bc = (panic, bc)
  after_height b blocked bc = (blocked, bc)

  -- storeBlock: the block, then the latest height, which may fail with the block already stored.
  unfoldable pub store_block :
      Block
      → Outcome StorageError Db
      → Blockchain Db
      → Outcome ChainError (Unit {0}) × Blockchain Db
  store_block b (ok db) bc =
      after_height b (set_latest_height d b.header.height db) (record bc { db = db })
  store_block b (err e) bc = (err (storage_failed e), bc)
  store_block b panic bc = (panic, bc)
  store_block b blocked bc = (blocked, bc)

  unfoldable pub after_validation :
      Block
      → Outcome ChainError (Unit {0})
      → Blockchain Db
      → Outcome ChainError (Unit {0}) × Blockchain Db
  after_validation b (ok u) bc = store_block b (put_block d codec b bc.db) bc
  after_validation b (err e) bc = (err e, bc)
  after_validation b panic bc = (panic, bc)
  after_validation b blocked bc = (blocked, bc)

  unfoldable pub unlock :
      Outcome ChainError (Unit {0}) × Blockchain Db → Outcome ChainError (Unit {0}) × Blockchain Db
  unlock (ok u, bc) = (ok u, record bc { mu = free })
  unlock (err e, bc) = (err e, record bc { mu = free })
  unlock (panic, bc) = (panic, record bc { mu = free })
  unlock (blocked, bc) = (blocked, bc)

  unfoldable pub add_block : Block → Blockchain Db → Outcome ChainError (Unit {0}) × Blockchain Db
  add_block b bc =
      let held = record bc { mu = writing } in
      if can_lock bc.mu
      then unlock (after_validation b (validate_block b held) held)
      else (blocked, bc)
