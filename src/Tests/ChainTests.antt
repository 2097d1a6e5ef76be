-- ===== src/Tests/ChainTests.antt =====
-- storage.go and chain.go over a store that logs its writes.
use v2v_blockchain.Prelude.{
  ◌+◌, ◌^◌, ◌≤◌, ◌<◌, ◌↔◌, ◌⊎◌, true, arith, ◌≡◌, refl, false, some, List, [], ◌∷◌, ◌++◌, ok,
  blocked, some-eq,
}
use mathlib.Core.Path.{subst}
use v2v_blockchain.Prelude.Lock.{free, can_lock}
use v2v_blockchain.Bytes.{Bytes, empty_hash}
use v2v_blockchain.Chain.{Blockchain, add_block}
use v2v_blockchain.Chain.Adding.{add_block-blocked}
use v2v_blockchain.Chain.Forks.{ForkDetector, default_fork_config, is_confirmed}
use v2v_blockchain.Chain.Forks.Confirmed.{is_confirmed_lem}
use v2v_blockchain.Chain.Storage.{
  Database, BlockCodec, block_entries, put_block, get_block, get_block_by_height,
}
use v2v_blockchain.Chain.Storage.RoundTrip.{later_or, written, Keeps, get_block-put_block}
use v2v_blockchain.Tests.Samples.{
  sample_crypto, sample_digest, owner, header_five, payment, block_five,
}

abbrev log_database : Database (List (Bytes × Bytes))
log_database = record {
  get = λ key log. some (written log key);
  write_batch = λ entries log. some (log ++ entries);
}

written-append :
    (log entries : List (Bytes × Bytes)) (key v : Bytes)
    → written entries key ≡ some v
    → written (log ++ entries) key ≡ some v
unfolding written later_or
written-append [] entries key v h = h
written-append ((k, w) ∷ log) entries key v h = rw (written-append log entries key v h) refl

log_database-Keeps : Keeps log_database
log_database-Keeps = record {
  reads_written = λ entries db db' key v stored last.
      subst (λ log. some (written log key) ≡ some (some v)) (some-eq stored)
        (rw (written-append db entries key v last) refl);
}

-- An encoding of one block's parts only.
abbrev one_codec : BlockCodec
one_codec = record {
  encode_header = λ header. 1 ∷ [];
  decode_header = λ bytes. some header_five;
  encode_body = λ hash txs. 2 ∷ [];
  decode_body = λ bytes. some (header_five.hash, payment ∷ []);
  encode_transaction = λ tx. 3 ∷ [];
  decode_transaction = λ bytes. some payment;
}

abbrev stored_five : List (Bytes × Bytes)
stored_five = block_entries one_codec block_five

get_block-put_block_example :
    (put_block log_database one_codec block_five [] ≡ ok stored_five)
    × (get_block log_database one_codec header_five.hash stored_five ≡ ok block_five)
    × (get_block_by_height log_database one_codec 5 stored_five ≡ ok block_five)
get_block-put_block_example =
    get_block-put_block one_codec log_database block_five [] stored_five log_database-Keeps refl
      refl refl refl

abbrev empty_chain : Blockchain (List (Bytes × Bytes))
empty_chain = record {
  max_block_size = 0;
  max_tx_per_block = 0;
  db = [];
  latest_hash = empty_hash;
  latest_height = 0;
  mu = free;
}

add_block-blocked_example :
    ((add_block (sample_crypto owner) sample_digest log_database one_codec block_five empty_chain).0
      ≡ blocked)
    × ((add_block
          (sample_crypto owner)
          sample_digest
          log_database
          one_codec
          block_five
          empty_chain).1.db
        ≡ [])
    × ((add_block
          (sample_crypto owner)
          sample_digest
          log_database
          one_codec
          block_five
          empty_chain).1.latest_hash
        ≡ empty_hash)
    × ((add_block
          (sample_crypto owner)
          sample_digest
          log_database
          one_codec
          block_five
          empty_chain).1.latest_height
        ≡ 0)
    × (can_lock
          (add_block
            (sample_crypto owner)
            sample_digest
            log_database
            one_codec
            block_five
            empty_chain).1.mu
        ≡ false)
add_block-blocked_example =
    add_block-blocked (sample_crypto owner) sample_digest log_database one_codec block_five
      empty_chain

abbrev no_forks_seen : ForkDetector
no_forks_seen = record { forks = []; config = default_fork_config }

-- The latest height is 10, and the block asked for is of height 11.
is_confirmed_lem_example :
    (is_confirmed 10 11 no_forks_seen ≡ true) ↔ ((17 ≤ 10) ⊎ ((10 < 11) × (17 ≤ 10 + 2 ^ 64)))
is_confirmed_lem_example = is_confirmed_lem 10 11 no_forks_seen (omega arith) (omega arith)
