-- ===== src/TxPool/Bounds.antt =====
-- pool.go: what the pool holds after any calls.
use v2v_blockchain.Prelude.{
  ℕ, suc, ◌≡◌, ◌≤◌, ◌<◌, refl, ap, sym, ◌∙◌, false, not, ◌&&◌, Option, none, some, List, [], ◌∷◌,
  length, leb, ◌==◌, if◌then◌else◌, inl, inr, Bool-cases, none-some, some-eq, arith,
}
use mathlib.Core.Path.{subst}
use v2v_blockchain.Prelude.Int.{ℤ, ltb_ℤ, ◌-ℤ◌}
use v2v_blockchain.Prelude.Eq.{bytes_eq, bytes_eq_iff, bytes_Eq}
use v2v_blockchain.Prelude.GoMap.{GoMap, get, put, delete, size, get-put, get-delete}
use v2v_blockchain.Bytes.{Hash}
use v2v_blockchain.Crypto.{Crypto}
use v2v_blockchain.Block.{Transaction, transaction_hash, verify_transaction_signature}
use v2v_blockchain.TxPool.{
  TxItem, TxPool, TxPoolError, Heaps, has_tx, store_item, enqueue, remove_item, remove_tx,
  remove_expired, cleanup_expired, get_pending, validate_tx, add_validated, add_tx,
}

-- A transaction that AddTx lets in under its hash.
pub record IsValid (c : Crypto) (hash : Hash) (tx : Transaction) : Type 0 where
  pub keyed : tx.hash ≡ hash
  pub hashed : transaction_hash c tx ≡ hash
  pub signed : (not (length tx.signature == 0) && not (verify_transaction_signature c tx)) ≡ false

pub record IsPool (c : Crypto) (p : TxPool) : Type 0 where
  pub bounded : size p.pending ≤ p.config.max_size
  pub valid :
      (hash : Hash) (item : TxItem) → get p.pending hash ≡ some item → IsValid c hash item.tx

size-put : (m : GoMap Hash TxItem) (k : Hash) (v : TxItem) → size (put m k v) ≤ suc (size m)
unfolding put
size-put [] k v = omega arith
size-put ((i, x) ∷ m) k v = ground (arith, size-put m k v)

size-delete : (m : GoMap Hash TxItem) (k : Hash) → size (delete m k) ≤ size m
unfolding delete
size-delete [] k = omega arith
size-delete ((i, x) ∷ m) k = ground (arith, size-delete m k)

-- The pool's pending transactions and limit decide.
same-IsPool :
    (c : Crypto) (p q : TxPool)
    → q.pending ≡ p.pending
    → q.config ≡ p.config
    → IsPool c p
    → IsPool c q
same-IsPool c p q pending config h = record {
  bounded = rw (pending, config) h.bounded;
  valid = λ hash item e. h.valid hash item (sym (ap (λ m. get m hash) pending) ∙ e);
}

remove_item-IsPool :
    (c : Crypto) (hash : Hash) (o : Option TxItem) (p : TxPool)
    → IsPool c p
    → IsPool c (remove_item hash o p)
unfolding remove_item
remove_item-IsPool c hash none p h = h
remove_item-IsPool c hash (some item) p h = record {
  bounded = omega (arith, h.bounded, size-delete p.pending hash);
  valid = λ k x e. left k x (sym (get-delete p.pending hash k) ∙ e);
}
  where
    left :
        (k : Hash) (x : TxItem)
        → (if bytes_eq hash k then none else get p.pending k) ≡ some x
        → IsValid c k x.tx
    left k x e = elim (Bool-cases (bytes_eq hash k)) [
      | inl same ↦ absurd (none-some (rw same at e))
      | inr other ↦ h.valid k x (rw other at e)
    ]

remove_expired-IsPool :
    (c : Crypto) (now : ℤ) (items : GoMap Hash TxItem) (p : TxPool)
    → IsPool c p
    → IsPool c (remove_expired now items p)
unfolding remove_expired
remove_expired-IsPool c now [] p h = h
remove_expired-IsPool c now ((hash, item) ∷ items) p h =
    elim (Bool-cases (ltb_ℤ p.config.max_tx_lifetime (◌-ℤ◌ now item.added_at))) [
      | inl old ↦ rw old (
          remove_expired-IsPool c now items (remove_item hash (some item) p)
            (remove_item-IsPool c hash (some item) p h))
      | inr recent ↦ rw recent (remove_expired-IsPool c now items p h)
    ]

store_item-IsPool :
    (c : Crypto) (item : TxItem) (p : TxPool)
    → IsPool c p
    → size p.pending < p.config.max_size
    → IsValid c item.tx.hash item.tx
    → IsPool c (store_item item p)
unfolding store_item
store_item-IsPool c item p h room valid = record {
  bounded = omega (arith, room, size-put p.pending item.tx.hash item);
  valid = λ k x e. put_in k x (sym (get-put p.pending item.tx.hash k item) ∙ e);
}
  where
    put_in :
        (k : Hash) (x : TxItem)
        → (if bytes_eq item.tx.hash k then some item else get p.pending k) ≡ some x
        → IsValid c k x.tx
    put_in k x e = elim (Bool-cases (bytes_eq item.tx.hash k)) [
      | inl same ↦
          let found : item ≡ x = some-eq (rw same at e) in
          let key : item.tx.hash ≡ k = (bytes_eq_iff item.tx.hash k).0 same in
          subst (λ t. IsValid c k t.tx) found (subst (λ j. IsValid c j item.tx) key valid)
      | inr other ↦ h.valid k x (rw other at e)
    ]

validate_tx-IsValid :
    (c : Crypto) (tx : Transaction) (p : TxPool) → validate_tx c tx p ≡ none → IsValid c tx.hash tx
unfolding validate_tx
validate_tx-IsValid c tx p h = elim (Bool-cases (bytes_eq (transaction_hash c tx) tx.hash)) [
  | inr wrong ↦ absurd (none-some (sym (rw wrong at h)))
  | inl hashed ↦
      let h' = rw hashed at h in
      elim (Bool-cases
        (not (length tx.signature == 0) && not (verify_transaction_signature c tx))) [
          | inl forged ↦ absurd (none-some (sym (rw forged at h')))
          | inr signed ↦ record {
            keyed = refl;
            hashed = (bytes_eq_iff (transaction_hash c tx) tx.hash).0 hashed;
            signed = signed;
          }
        ]
]

module _ (heaps : Heaps) where
  enqueue-same :
      (item : TxItem) (p : TxPool)
      → ((enqueue heaps item p).pending ≡ p.pending) × ((enqueue heaps item p).config ≡ p.config)
  unfolding enqueue
  enqueue-same item p = ground arith

  module _ (c : Crypto) where
    add_validated-IsPool :
        (now : ℤ) (tx : Transaction) (priority : ℤ) (o : Option TxPoolError) (p : TxPool)
        → (o ≡ none → IsValid c tx.hash tx)
        → size p.pending < p.config.max_size
        → IsPool c p
        → IsPool c (add_validated heaps c now tx priority o p).1
    unfolding add_validated
    add_validated-IsPool now tx priority (some e) p valid room h = h
    add_validated-IsPool now tx priority none p valid room h =
        let item : TxItem = record { tx = tx; added_at = now; priority = priority } in
        let stored = store_item item p in
        same-IsPool c stored (enqueue heaps item stored) (enqueue-same item stored).0
          (enqueue-same item stored).1 (store_item-IsPool c item p h room (valid refl))

    add_tx-IsPool :
        (now : ℤ) (tx : Transaction) (priority : ℤ) (p : TxPool)
        → IsPool c p
        → IsPool c (add_tx heaps c now tx priority p).1
    unfolding add_tx
    add_tx-IsPool now tx priority p h = elim (Bool-cases (has_tx tx.hash p)) [
      | inl known ↦ rw known h
      | inr new ↦ rw new (elim (Bool-cases (leb p.config.max_size (size p.pending))) [
        | inl full ↦ rw full h
        | inr room ↦ rw room (
            add_validated-IsPool now tx priority (validate_tx c tx p) p (validate_tx-IsValid c tx p)
              (ground (arith, room)) h)
      ])
    ]

-- One call of the pool.
pub data Call : Type 0 where
  add : ℤ → Transaction → ℤ → Call
  remove : Hash → Call
  take_pending : ℕ → Call
  clean_up : ℤ → Call

module _ (heaps : Heaps) (c : Crypto) where
  unfoldable pub run_call : Call → TxPool → TxPool
  run_call (add now tx priority) p = (add_tx heaps c now tx priority p).1
  run_call (remove hash) p = remove_tx hash p
  run_call (take_pending max) p = (get_pending heaps max p).1
  run_call (clean_up now) p = cleanup_expired now p

  unfoldable pub run_calls : List Call → TxPool → TxPool
  run_calls [] p = p
  run_calls (call ∷ calls) p = run_calls calls (run_call call p)

  run_call-IsPool : (call : Call) (p : TxPool) → IsPool c p → IsPool c (run_call call p)
  unfolding run_call remove_tx get_pending cleanup_expired
  run_call-IsPool (add now tx priority) p h = add_tx-IsPool heaps c now tx priority p h
  run_call-IsPool (remove hash) p h = remove_item-IsPool c hash (get p.pending hash) p h
  run_call-IsPool (take_pending max) p h = same-IsPool c p _ refl refl h
  run_call-IsPool (clean_up now) p h = remove_expired-IsPool c now p.pending p h

  -- After any calls of a pool in which it held already, and so of a new one, whatever the heaps do,
  -- there are never more pending transactions than the limit; and whatever is pending under a hash has
  -- that hash, its content hashes to it, and its signature is the sender's where it has one.
  pub run_calls-IsPool :
      (calls : List Call) (p : TxPool) → IsPool c p → IsPool c (run_calls calls p)
  unfolding run_calls
  run_calls-IsPool [] p h = h
  run_calls-IsPool (call ∷ calls) p h =
      run_calls-IsPool calls (run_call call p) (run_call-IsPool call p h)
