-- ===== src/Chain/Storage.antt =====
-- internal/core/blockchain/storage.go: blocks and transactions in the key-value store. The store,
-- behind the interface of internal/infra/storage/leveldb.go, and encoding/json are parameters.
pub mod RoundTrip
use v2v_blockchain.Prelude.{
  ℕ, ◌%◌, ◌^◌, Bool, true, false, Option, none, some, List, [], ◌∷◌, ◌++◌, length, take, replicate,
  ◌==◌, if◌then◌else◌, Outcome, ok, err, panic, ◌>>=◌,
}
use v2v_blockchain.Bytes.{Bytes, Hash}
use v2v_blockchain.Block.{BlockHeader, Transaction, Block}
use v2v_blockchain.Block.Encoding.{to_be, from_be}

pub data StorageError : Type 0 where
  not_found failed invalid_height_data bad_encoding : StorageError

-- Get (`some none` for a missing key) and WriteBatch, which writes the entries in their order; `none`
-- is an error of the store.
pub record Database (Db : Type 0) : Type 0 where
  pub get : Bytes → Db → Option (Option Bytes)
  pub write_batch : List (Bytes × Bytes) → Db → Option Db

-- json.Marshal and json.Unmarshal at the stored types; `none` is an error.
pub record BlockCodec : Type 0 where
  pub encode_header : BlockHeader → Bytes
  pub decode_header : Bytes → Option BlockHeader
  pub encode_body : Hash → List Transaction → Bytes
  pub decode_body : Bytes → Option (Hash × List Transaction)
  pub encode_transaction : Transaction → Bytes
  pub decode_transaction : Bytes → Option Transaction

-- The prefixes b, h, n, t and m, and the key of the latest height.
unfoldable pub body_key : Hash → Bytes
body_key hash = 98 ∷ hash

unfoldable pub header_key : Hash → Bytes
header_key hash = 104 ∷ hash

unfoldable pub height_key : ℕ → Bytes
height_key height = 110 ∷ to_be 8 height

unfoldable pub transaction_key : Hash → Bytes
transaction_key hash = 116 ∷ hash

unfoldable pub latest_height_key : Bytes
latest_height_key =
    109 ∷ 108 ∷ 97 ∷ 116 ∷ 101 ∷ 115 ∷ 116 ∷ 95 ∷ 104 ∷ 101 ∷ 105 ∷ 103 ∷ 104 ∷ 116 ∷ []

unfoldable pub found_or : {A : Type 0} → StorageError → Option A → Outcome StorageError A
found_or missing none = err missing
found_or missing (some a) = ok a

-- copy(hash[:], stored): the first 32 bytes, filled up with zeros.
unfoldable pub to_hash : Bytes → Hash
to_hash stored = take 32 (stored ++ replicate 32 0)

module _ (codec : BlockCodec) where
  unfoldable pub transaction_entries : List Transaction → List (Bytes × Bytes)
  transaction_entries [] = []
  transaction_entries (tx ∷ txs) =
      (transaction_key tx.hash, codec.encode_transaction tx) ∷ transaction_entries txs

  -- The batch of PutBlock.
  unfoldable pub block_entries : Block → List (Bytes × Bytes)
  block_entries b =
      (header_key b.header.hash, codec.encode_header b.header)
      ∷ (body_key b.header.hash, codec.encode_body b.header.hash b.transactions)
      ∷ (height_key b.header.height, b.header.hash)
      ∷ transaction_entries b.transactions

module _ {Db : Type 0} (d : Database Db) where
  -- Get: ErrNotFound, or another error of the store.
  unfoldable pub fetch : Bytes → Db → Outcome StorageError Bytes
  fetch key db = found_or failed (d.get key db) >>= found_or not_found

  unfoldable pub set_latest_height : ℕ → Db → Outcome StorageError Db
  set_latest_height height db =
      found_or failed (d.write_batch ((latest_height_key, to_be 8 height) ∷ []) db)

  -- The height that a missing key stands for is 0.
  unfoldable pub read_height : Option Bytes → Outcome StorageError ℕ
  read_height none = ok 0
  read_height (some stored) =
      if length stored == 8 then ok (from_be stored) else err invalid_height_data

  unfoldable pub get_latest_height : Db → Outcome StorageError ℕ
  get_latest_height db = found_or failed (d.get latest_height_key db) >>= read_height

  module _ (codec : BlockCodec) where
    unfoldable pub put_block : Block → Db → Outcome StorageError Db
    put_block b db = found_or failed (d.write_batch (block_entries codec b) db)

    unfoldable pub get_block : Hash → Db → Outcome StorageError Block
    get_block hash db = do
      body_bytes ← fetch (body_key hash) db
      body ← found_or bad_encoding (codec.decode_body body_bytes)
      header_bytes ← fetch (header_key hash) db
      header ← found_or bad_encoding (codec.decode_header header_bytes)
      ok (record { header = header; transactions = body.1 })

    unfoldable pub get_block_by_height : ℕ → Db → Outcome StorageError Block
    get_block_by_height height db =
        fetch (height_key height) db >>= λ stored. get_block (to_hash stored) db

    unfoldable pub get_transaction : Hash → Db → Outcome StorageError Transaction
    get_transaction hash db = fetch (transaction_key hash) db >>= λ stored.
        found_or bad_encoding (codec.decode_transaction stored)
