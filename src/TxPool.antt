-- ===== src/TxPool.antt =====
-- internal/core/txpool/pool.go: the pool of pending transactions. A time is its nanoseconds, an int64
-- priority an integer; container/heap, with the queues' Less, is the parameter `heaps`.
pub mod Bounds
pub mod Draining
use v2v_blockchain.Prelude.{
  ℕ, zero, suc, Bool, true, false, not, Option, none, some, List, [], ◌∷◌, ◌++◌, length, ltb, leb,
  ◌==◌, if◌then◌else◌, map_option, ◌-◌, ◌&&◌,
}
use v2v_blockchain.Prelude.Int.{ℤ, pos, ltb_ℤ, ◌-ℤ◌}
use v2v_blockchain.Prelude.Eq.{numbers_Eq, bytes_eq, bytes_Eq}
use v2v_blockchain.Prelude.GoMap.{GoMap, get, put, delete, size}
use v2v_blockchain.Bytes.{Hash, Address}
use v2v_blockchain.Crypto.{Crypto}
use v2v_blockchain.Block.{Transaction, transaction_hash, verify_transaction_signature}

pub data TxPoolError : Type 0 where
  tx_already_exists tx_pool_full invalid_tx : TxPoolError

-- A negative limit behaves as 0 does. `price_bump` is not read.
pub record TxPoolConfig : Type 0 where
  pub max_size : ℕ
  pub max_tx_per_account : ℕ
  pub price_bump : ℕ
  pub max_tx_lifetime : ℤ

abbrev pub default_tx_pool_config : TxPoolConfig
default_tx_pool_config = record {
  max_size = 5000;
  max_tx_per_account = 100;
  price_bump = 10;
  max_tx_lifetime = pos 1800000000000;
}

pub record TxItem : Type 0 where
  pub tx : Transaction
  pub added_at : ℤ
  pub priority : ℤ

-- Less: higher priority first, then by timestamp.
unfoldable pub less : TxItem → TxItem → Bool
less a b =
    if ltb_ℤ b.priority a.priority
    then true
    else if ltb_ℤ a.priority b.priority
    then false
    else ltb_ℤ a.added_at b.added_at

-- heap.Push, and heap.Pop of a queue that is not empty, for the queue's Less. (The queue's other
-- methods are the ones of a slice.)
pub record Heaps : Type 0 where
  pub push : (TxItem → TxItem → Bool) → TxItem → List TxItem → List TxItem
  pub pop : (TxItem → TxItem → Bool) → TxItem → List TxItem → TxItem × List TxItem

pub record TxPool : Type 0 where
  pub config : TxPoolConfig
  pub pending : GoMap Hash TxItem
  pub all : GoMap Address (GoMap ℕ TxItem)
  pub high_priority : List TxItem
  pub normal_queue : List TxItem
  pub low_priority : List TxItem

unfoldable pub new_tx_pool : TxPoolConfig → TxPool
new_tx_pool config = record {
  config = config;
  pending = [];
  all = [];
  high_priority = [];
  normal_queue = [];
  low_priority = [];
}

unfoldable pub is_found : Option TxItem → Bool
is_found none = false
is_found (some item) = true

unfoldable pub has_tx : Hash → TxPool → Bool
has_tx hash p = is_found (get p.pending hash)

unfoldable pub get_tx : Hash → TxPool → Option Transaction
get_tx hash p = map_option (λ item. item.tx) (get p.pending hash)

-- A sender's transactions; reading a missing map finds it empty.
unfoldable pub or_empty : Option (GoMap ℕ TxItem) → GoMap ℕ TxItem
or_empty none = []
or_empty (some txs) = txs

unfoldable pub store_item : TxItem → TxPool → TxPool
store_item item p =
    let tx = item.tx in
    record p {
      pending = put p.pending tx.hash item;
      all = put p.all tx.from (put (or_empty (get p.all tx.from)) tx.nonce item);
    }

-- A sender without transactions is forgotten.
unfoldable pub put_or_drop :
    Address → GoMap ℕ TxItem → GoMap Address (GoMap ℕ TxItem) → GoMap Address (GoMap ℕ TxItem)
put_or_drop sender txs senders =
    if size txs == 0 then delete senders sender else put senders sender txs

unfoldable pub forget :
    Transaction
    → Option (GoMap ℕ TxItem)
    → GoMap Address (GoMap ℕ TxItem)
    → GoMap Address (GoMap ℕ TxItem)
forget tx none senders = senders
forget tx (some txs) senders = put_or_drop tx.from (delete txs tx.nonce) senders

unfoldable pub remove_item : Hash → Option TxItem → TxPool → TxPool
remove_item hash none p = p
remove_item hash (some item) p = record p {
  pending = delete p.pending hash;
  all = forget item.tx (get p.all item.tx.from) p.all;
}

unfoldable pub remove_tx : Hash → TxPool → TxPool
remove_tx hash p = remove_item hash (get p.pending hash) p

-- The loop of cleanupExpired.
unfoldable pub remove_expired : ℤ → GoMap Hash TxItem → TxPool → TxPool
remove_expired now [] p = p
remove_expired now ((hash, item) ∷ items) p = remove_expired now items (
    if ltb_ℤ p.config.max_tx_lifetime (◌-ℤ◌ now item.added_at)
    then remove_item hash (some item) p
    else p)

unfoldable pub cleanup_expired : ℤ → TxPool → TxPool
cleanup_expired now p = remove_expired now p.pending p

unfoldable pub validate_tx : Crypto → Transaction → TxPool → Option TxPoolError
validate_tx c tx p =
    if not (bytes_eq (transaction_hash c tx) tx.hash)
    then some invalid_tx
    else if not (length tx.signature == 0) && not (verify_transaction_signature c tx)
    then some invalid_tx
    else if leb p.config.max_tx_per_account (size (or_empty (get p.all tx.from)))
    then some tx_pool_full
    else none

module _ (heaps : Heaps) where
  unfoldable pub enqueue : TxItem → TxPool → TxPool
  enqueue item p =
      if not (ltb_ℤ item.priority (pos 10))
      then record p { high_priority = heaps.push less item p.high_priority }
      else if not (ltb_ℤ item.priority (pos 5))
      then record p { normal_queue = heaps.push less item p.normal_queue }
      else record p { low_priority = heaps.push less item p.low_priority }

  -- One loop of GetPending, for the room that is left in the result and fuel for every item.
  unfoldable pub take_from :
      ℕ → GoMap Hash TxItem → ℕ → List TxItem → List Transaction × List TxItem
  take_from zero pending room q = ([], q)
  take_from (suc n) pending room [] = ([], [])
  take_from (suc n) pending zero q = ([], q)
  take_from (suc n) pending (suc room) (x ∷ xs) =
      let (item, rest) = heaps.pop less x xs in
      let (txs, left) = take_from n pending room rest in
      let skipped = take_from n pending (suc room) rest in
      if is_found (get pending item.tx.hash) then (item.tx ∷ txs, left) else skipped

  unfoldable pub take_queue : GoMap Hash TxItem → ℕ → List TxItem → List Transaction × List TxItem
  take_queue pending room q = take_from (length q) pending room q

  -- GetPending, for a maximum that is not negative.
  unfoldable pub get_pending : ℕ → TxPool → List Transaction × TxPool
  get_pending max p =
      let (high, high_left) = take_queue p.pending max p.high_priority in
      let (normal, normal_left) = take_queue p.pending (max - length high) p.normal_queue in
      let (low, low_left) =
        take_queue p.pending (max - length high - length normal) p.low_priority in
      (
        high ++ normal ++ low,
        record p { high_priority = high_left; normal_queue = normal_left; low_priority = low_left },
      )

  module _ (c : Crypto) where
    unfoldable pub add_validated :
        ℤ → Transaction → ℤ → Option TxPoolError → TxPool → Option TxPoolError × TxPool
    add_validated now tx priority (some e) p = (some e, p)
    add_validated now tx priority none p =
        let item : TxItem = record { tx = tx; added_at = now; priority = priority } in
        (none, enqueue item (store_item item p))

    -- AddTx; none is no error.
    unfoldable pub add_tx : ℤ → Transaction → ℤ → TxPool → Option TxPoolError × TxPool
    add_tx now tx priority p =
        if has_tx tx.hash p
        then (some tx_already_exists, p)
        else if leb p.config.max_size (size p.pending)
        then (some tx_pool_full, p)
        else add_validated now tx priority (validate_tx c tx p) p
