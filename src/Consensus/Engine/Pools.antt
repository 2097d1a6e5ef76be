-- ===== src/Consensus/Engine/Pools.antt =====
-- pbft.go: the transaction pools, SubmitTransaction and GetPendingTransactions.
use v2v_blockchain.Prelude.{
  ℕ, zero, suc, ◌≡◌, ◌⊎◌, ◌≤◌, ◌<◌, ◌+◌, ◌-◌, refl, ap, Bool, true, false, List, [], ◌∷◌, ◌++◌, inl,
  inr, length, take, drop, arith, if◌then◌else◌, ok, length-take, take-append-drop, length-append,
}
use Prim.Native.Nat.{min}
use v2v_blockchain.Block.{Transaction}
use v2v_blockchain.Consensus.Engine.{Engine, in_pool, submit_transaction, get_pending_transactions}

module _ {ℓ} {A : Type ℓ} where
  -- Dropping as many elements as were taken leaves the rest.
  take-append-rest : (n : ℕ) (xs : List A) → take n xs ++ drop (length (take n xs)) xs ≡ xs
  take-append-rest zero xs = refl
  take-append-rest (suc n) [] = refl
  take-append-rest (suc n) (x ∷ xs) = ap (◌∷◌ x) (take-append-rest n xs)

  -- What was asked for is there, or nothing is left.
  full_or_empty :
      (n : ℕ) (xs : List A) → (n - length (take n xs) ≡ 0) ⊎ (drop (length (take n xs)) xs ≡ [])
  full_or_empty zero xs = inl refl
  full_or_empty (suc n) [] = inr refl
  full_or_empty (suc n) (x ∷ xs) = elim (full_or_empty n xs) [
    | inl full ↦ inl (omega (arith, full))
    | inr empty ↦ inr empty
  ]

module _ {Chain : Type 0} (max : ℕ) (e : Engine Chain) where
  -- GetPendingTransactions takes transactions from the front of the high priority pool and then from
  -- the front of the normal one, `max` together at most and fewer only if no more are there. With
  -- what it leaves they are the pools that it found, nothing lost, repeated or reordered; and it takes
  -- none of the normal pool before the high priority pool is empty.
  pub get_pending_transactions_lem :
      (high : List Transaction) × (low : List Transaction) × ((get_pending_transactions max e).0
        ≡ high ++ low)
      × (high ++ (get_pending_transactions max e).1.high_priority_pool ≡ e.high_priority_pool)
      × (low ++ (get_pending_transactions max e).1.request_pool ≡ e.request_pool)
      × ((low ≡ []) ⊎ ((get_pending_transactions max e).1.high_priority_pool ≡ []))
      × (length (high ++ low) ≡ min max (length e.high_priority_pool + length e.request_pool))
  unfolding get_pending_transactions
  get_pending_transactions_lem =
      let high = take max e.high_priority_pool in
      let low = take (max - length high) e.request_pool in
      (
        high,
        low,
        refl,
        take-append-rest max e.high_priority_pool,
        take-append-drop (max - length high) e.request_pool,
        elim (full_or_empty max e.high_priority_pool) [
          | inl full ↦ inl (rw full refl)
          | inr empty ↦ inr empty
        ],
        omega (
          arith,
          length-append high low,
          length-take max e.high_priority_pool,
          length-take (max - length high) e.request_pool,
        ),
      )

-- Asked for more than a list holds, `take` gives the list, and `drop` nothing.
module _ {ℓ} {A : Type ℓ} where
  take_whole : (n : ℕ) (xs : List A) → length xs ≤ n → take n xs ≡ xs
  take_whole zero [] h = refl
  take_whole zero (x ∷ xs) h = absurd (omega (arith, h))
  take_whole (suc n) [] h = refl
  take_whole (suc n) (x ∷ xs) h = ap (◌∷◌ x) (take_whole n xs (omega (arith, h)))

  drop_whole : (n : ℕ) (xs : List A) → length xs ≤ n → drop n xs ≡ []
  drop_whole zero [] h = refl
  drop_whole zero (x ∷ xs) h = absurd (omega (arith, h))
  drop_whole (suc n) [] h = refl
  drop_whole (suc n) (x ∷ xs) h = drop_whole n xs (omega (arith, h))

-- Asked for as many transactions as the pools hold, GetPendingTransactions empties them.
get_pending_transactions_all :
    {Chain : Type 0} (max : ℕ) (e : Engine Chain)
    → length e.high_priority_pool + length e.request_pool ≤ max
    → ((get_pending_transactions max e).0 ≡ e.high_priority_pool ++ e.request_pool)
      × ((get_pending_transactions max e).1.high_priority_pool ≡ [])
      × ((get_pending_transactions max e).1.request_pool ≡ [])
unfolding get_pending_transactions
get_pending_transactions_all max e room =
    let high = take_whole max e.high_priority_pool (omega arith) in
    let low = take_whole (max - length e.high_priority_pool) e.request_pool (omega arith) in
    (
      rw (high, low) refl,
      rw high (drop_whole (length e.high_priority_pool) e.high_priority_pool (omega arith)),
      rw high (drop_whole (max - length e.high_priority_pool) e.request_pool (omega arith)),
    )

-- A transaction that the normal pool does not hold is accepted by SubmitTransaction, at the end of the
-- pool that it is for, and GetPendingTransactions, asked for more transactions than the pools held,
-- returns it with all that they held, the high priority ones first, and leaves both pools empty.
pub get_pending_transactions-submit_transaction :
    {Chain : Type 0} (max : ℕ) (e : Engine Chain) (tx : Transaction) (high_priority : Bool)
    → in_pool tx.hash e.request_pool ≡ false
    → length e.high_priority_pool + length e.request_pool < max
    → let (r, e') = submit_transaction tx high_priority e in
      let (txs, e'') = get_pending_transactions max e' in
      (r ≡ ok tt)
      × (txs ≡ (
          if high_priority
          then (e.high_priority_pool ++ tx ∷ []) ++ e.request_pool
          else e.high_priority_pool ++ (e.request_pool ++ tx ∷ [])))
      × (e''.high_priority_pool ≡ [])
      × (e''.request_pool ≡ [])
unfolding submit_transaction
get_pending_transactions-submit_transaction max e tx true fresh room =
    let e' = record e { high_priority_pool = e.high_priority_pool ++ tx ∷ [] } in
    let (txs, high, low) =
      get_pending_transactions_all max e'
        (omega (arith, length-append e.high_priority_pool (tx ∷ []))) in
    rw fresh (refl, txs, high, low)
get_pending_transactions-submit_transaction max e tx false fresh room =
    let e' = record e { request_pool = e.request_pool ++ tx ∷ [] } in
    let (txs, high, low) =
      get_pending_transactions_all max e' (omega (arith, length-append e.request_pool (tx ∷ []))) in
    rw fresh (refl, txs, high, low)
