-- ===== src/Chain/Adding.antt =====
-- chain.go: AddBlock asks for the chain's lock again while it holds it.
use v2v_blockchain.Prelude.{◌≡◌, refl, false, inl, inr, Bool-cases, blocked}
use v2v_blockchain.Prelude.Lock.{writing, can_lock, can_read}
use v2v_blockchain.Bytes.{Bytes, Hash}
use v2v_blockchain.Crypto.{Crypto}
use v2v_blockchain.Block.{Block}
use v2v_blockchain.Chain.{
  Blockchain, read_locked, get_block_by_hash, reject_found, validate_block, after_validation,
  unlock, add_block,
}
use v2v_blockchain.Chain.Storage.{Database, BlockCodec}

module _ {Db : Type 0} (c : Crypto) (sum256 : Bytes → Hash) (d : Database Db)
    (codec : BlockCodec) where
  -- validateBlock first looks for the block under RLock.
  validate_block-blocked :
      (b : Block) (bc : Blockchain Db)
      → can_read bc.mu ≡ false
      → validate_block c sum256 d codec b bc ≡ blocked
  unfolding validate_block get_block_by_hash read_locked reject_found
  validate_block-blocked b bc held = rw held refl

  -- AddBlock never returns: whatever the block, the chain and the store, it waits for ever, nothing is
  -- stored, the latest block stays, and the lock is not free afterwards.
  pub add_block-blocked :
      (b : Block) (bc : Blockchain Db)
      → ((add_block c sum256 d codec b bc).0 ≡ blocked)
        × ((add_block c sum256 d codec b bc).1.db ≡ bc.db)
        × ((add_block c sum256 d codec b bc).1.latest_hash ≡ bc.latest_hash)
        × ((add_block c sum256 d codec b bc).1.latest_height ≡ bc.latest_height)
        × (can_lock (add_block c sum256 d codec b bc).1.mu ≡ false)
  unfolding add_block after_validation unlock
  add_block-blocked b bc = elim (Bool-cases (can_lock bc.mu)) [
    | inl unlocked ↦
        rw (unlocked, validate_block-blocked b (record bc { mu = writing }) refl)
          (refl, refl, refl, refl, refl)
    | inr held ↦ rw held (refl, refl, refl, refl, held)
  ]
