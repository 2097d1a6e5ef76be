-- ===== src/Chain/Storage/RoundTrip.antt =====
-- storage.go: PutBlock followed by GetBlock and GetBlockByHeight.
use v2v_blockchain.Prelude.{
  ℕ, ◌≡◌, refl, true, false, Option, none, some, List, [], ◌∷◌, ◌++◌, length, take, replicate,
  take-append, if◌then◌else◌, ◌==◌, ok,
}
use mathlib.Core.Path.{subst}
use v2v_blockchain.Prelude.Eq.{bytes_eq, bytes_eq_iff}
use v2v_blockchain.Bytes.{Bytes}
use v2v_blockchain.Block.{Transaction, Block}
use v2v_blockchain.Block.Encoding.{to_be}
use v2v_blockchain.Chain.Storage.{
  Database, BlockCodec, found_or, fetch, to_hash, body_key, header_key, height_key, transaction_key,
  transaction_entries, block_entries, put_block, get_block, get_block_by_height,
}

-- What a batch writes under a key: its last entry for the key.
unfoldable pub later_or : Option Bytes → Option Bytes → Option Bytes
later_or (some w) earlier = some w
later_or none earlier = earlier

unfoldable pub written : List (Bytes × Bytes) → Bytes → Option Bytes
unfolding later_or
written [] key = none
written ((k, v) ∷ entries) key =
    later_or (written entries key) (if bytes_eq k key then some v else none)

-- What LevelDB documents: after a batch, a key has the value that the batch wrote last, if any.
pub record Keeps {Db : Type 0} (d : Database Db) : Type 0 where
  pub reads_written :
      (entries : List (Bytes × Bytes)) (db db' : Db) (key v : Bytes)
      → d.write_batch entries db ≡ some db'
      → written entries key ≡ some v
      → d.get key db' ≡ some (some v)

module _ (codec : BlockCodec) where
  no_transaction_key :
      (first : ℕ) (key : Bytes) (txs : List Transaction)
      → (116 == first) ≡ false
      → written (transaction_entries codec txs) (first ∷ key) ≡ none
  unfolding written later_or transaction_entries transaction_key bytes_eq
  no_transaction_key first key [] other = refl
  no_transaction_key first key (tx ∷ txs) other =
      rw (no_transaction_key first key txs other, other) refl

  bytes_eq_refl : (bytes : Bytes) → bytes_eq bytes bytes ≡ true
  bytes_eq_refl bytes = (bytes_eq_iff bytes bytes).1 refl

  body_written :
      (b : Block)
      → written (block_entries codec b) (body_key b.header.hash)
        ≡ some (codec.encode_body b.header.hash b.transactions)
  unfolding written later_or block_entries body_key header_key height_key bytes_eq
  body_written b =
      rw (no_transaction_key 98 b.header.hash b.transactions refl, bytes_eq_refl b.header.hash) refl

  header_written :
      (b : Block)
      → written (block_entries codec b) (header_key b.header.hash)
        ≡ some (codec.encode_header b.header)
  unfolding written later_or block_entries body_key header_key height_key bytes_eq
  header_written b =
      rw (no_transaction_key 104 b.header.hash b.transactions refl, bytes_eq_refl b.header.hash)
        refl

  height_written :
      (b : Block)
      → written (block_entries codec b) (height_key b.header.height) ≡ some b.header.hash
  unfolding written later_or block_entries body_key header_key height_key bytes_eq
  height_written b =
      rw
        (
          no_transaction_key 110 (to_be 8 b.header.height) b.transactions refl,
          bytes_eq_refl (to_be 8 b.header.height),
        )
        refl

  module _ {Db : Type 0} (d : Database Db) where
    -- Where the store takes PutBlock's batch and keeps what it takes, and JSON reads back this block's
    -- header and transactions, PutBlock succeeds, and the block is found both by its hash, of 32
    -- bytes, and by its height, whatever the store held before.
    pub get_block-put_block :
        (b : Block) (db db' : Db)
        → Keeps d
        → length b.header.hash ≡ 32
        → codec.decode_header (codec.encode_header b.header) ≡ some b.header
        → codec.decode_body (codec.encode_body b.header.hash b.transactions)
          ≡ some (b.header.hash, b.transactions)
        → d.write_batch (block_entries codec b) db ≡ some db'
        → (put_block d codec b db ≡ ok db')
          × (get_block d codec b.header.hash db' ≡ ok b)
          × (get_block_by_height d codec b.header.height db' ≡ ok b)
    unfolding put_block get_block get_block_by_height fetch found_or to_hash
    get_block-put_block b db db' keeps sized header_back body_back stored =
        let body = keeps.reads_written _ db db' _ _ stored (body_written b) in
        let header = keeps.reads_written _ db db' _ _ stored (header_written b) in
        let height = keeps.reads_written _ db db' _ _ stored (height_written b) in
        let found : get_block d codec b.header.hash db' ≡ ok b =
          rw (body, body_back, header, header_back) refl in
        let whole : take 32 (b.header.hash ++ replicate 32 0) ≡ b.header.hash =
          subst (λ n. take n (b.header.hash ++ replicate 32 0) ≡ b.header.hash) sized
            (take-append b.header.hash (replicate 32 0)) in
        (rw stored refl, found, rw (height, whole) found)
