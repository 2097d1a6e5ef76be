-- ===== src/Tests/PoolTests.antt =====
-- pool.go: a transaction that is added, taken and still there.
use v2v_blockchain.Prelude.{
  if◌then◌else◌, Bool, ℕ, ◌≡◌, ◌≤◌, ◌⊎◌, refl, true, List, [], ◌∷◌, length, All, none-some, arith,
}
use v2v_blockchain.Prelude.Int.{pos}
use v2v_blockchain.Prelude.Eq.{bytes_eq, bytes_Eq}
use v2v_blockchain.Prelude.GoMap.{get, put}
use v2v_blockchain.Bytes.{Hash}
use v2v_blockchain.Block.{Transaction, transaction_hash}
use v2v_blockchain.TxPool.{
  TxItem, less, Heaps, TxPool, default_tx_pool_config, new_tx_pool, has_tx, get_pending, is_found,
  or_empty, validate_tx, add_validated, add_tx, store_item, enqueue, take_queue, take_from,
}
use v2v_blockchain.TxPool.Bounds.{
  IsPool, Call, add, take_pending, run_call, run_calls, run_calls-IsPool,
}
use v2v_blockchain.TxPool.Draining.{get_pending-Drains}
use v2v_blockchain.Tests.Samples.{sample_crypto, owner, payment}

-- A queue that is kept in order; Pop takes its first item.
abbrev insert_before : (TxItem → TxItem → Bool) → TxItem → List TxItem → List TxItem
insert_before before item [] = item ∷ []
insert_before before item (x ∷ xs) =
    let rest = insert_before before item xs in if before item x then item ∷ x ∷ xs else x ∷ rest

abbrev ordered_heaps : Heaps
ordered_heaps = record { push = insert_before; pop = λ before x xs. (x, xs) }

abbrev empty_pool : TxPool
empty_pool = new_tx_pool default_tx_pool_config

empty_pool-IsPool : IsPool (sample_crypto owner) empty_pool
unfolding new_tx_pool get
empty_pool-IsPool = record { bounded = omega arith; valid = λ hash item e. absurd (none-some e) }

abbrev sealed : Transaction
sealed = record payment { hash = transaction_hash (sample_crypto owner) payment }

-- Taken once, the transaction is not returned again, and is still pending.
abbrev one_taken : List Call
one_taken = add (pos 5) sealed (pos 7) ∷ take_pending 3 ∷ []

run_calls-IsPool_example :
    IsPool
      (sample_crypto owner)
      (run_calls ordered_heaps (sample_crypto owner) one_taken empty_pool)
run_calls-IsPool_example =
    run_calls-IsPool ordered_heaps (sample_crypto owner) one_taken empty_pool empty_pool-IsPool

get_pending-Drains_example :
    let (txs, q) =
      get_pending ordered_heaps 3
        (run_calls ordered_heaps (sample_crypto owner) one_taken empty_pool) in
    (length txs ≤ 3)
    × All
        (λ tx.
          has_tx tx.hash (run_calls ordered_heaps (sample_crypto owner) one_taken empty_pool)
          ≡ true)
        txs
    × ((hash : Hash)
        → has_tx hash q
          ≡ has_tx hash (run_calls ordered_heaps (sample_crypto owner) one_taken empty_pool))
    × ((length txs ≡ 3) ⊎ ((n : ℕ) → (get_pending ordered_heaps n q).0 ≡ []))
get_pending-Drains_example =
    get_pending-Drains ordered_heaps (λ x xs. refl) 3
      (run_calls ordered_heaps (sample_crypto owner) one_taken empty_pool)

still_pending :
    (has_tx sealed.hash (run_calls ordered_heaps (sample_crypto owner) one_taken empty_pool) ≡ true)
    × ((get_pending ordered_heaps 3
          (run_calls ordered_heaps (sample_crypto owner) one_taken empty_pool)).0
        ≡ [])
unfolding run_calls run_call add_tx add_validated validate_tx store_item enqueue or_empty
    new_tx_pool has_tx is_found get put get_pending take_queue take_from transaction_hash bytes_eq
still_pending = (refl, refl)

-- The later transaction has the higher priority within its queue and is returned first.
abbrev urgent : Transaction
urgent = record payment {
  nonce = 2;
  payload = 1 ∷ [];
  hash = transaction_hash (sample_crypto owner) (record payment { nonce = 2; payload = 1 ∷ [] });
}

urgent_first :
    (get_pending ordered_heaps 2 (
      run_calls ordered_heaps
        (sample_crypto owner)
        (add (pos 5) sealed (pos 7) ∷ add (pos 6) urgent (pos 9) ∷ [])
        empty_pool)).0
    ≡ urgent ∷ sealed ∷ []
unfolding run_calls run_call add_tx add_validated validate_tx store_item enqueue or_empty
    new_tx_pool has_tx is_found get put get_pending take_queue take_from transaction_hash bytes_eq
    less
urgent_first = refl
