-- ===== src/TxPool/Draining.antt =====
-- pool.go: what GetPending returns, and what it leaves behind.
use v2v_blockchain.Prelude.{
  ℕ, zero, suc, ◌≡◌, ◌≤◌, ◌-◌, ◌+◌, refl, ap, ◌∙◌, true, List, [], ◌∷◌, ◌++◌, length, length-append,
  inl, inr, Bool-cases, ◌⊎◌, arith, All,
}
use v2v_blockchain.Prelude.Eq.{bytes_Eq}
use v2v_blockchain.Prelude.GoMap.{GoMap, get}
use v2v_blockchain.Bytes.{Hash}
use v2v_blockchain.Block.{Transaction}
use v2v_blockchain.TxPool.{
  less, TxItem, TxPool, Heaps, is_found, has_tx, take_from, take_queue, get_pending,
}

-- heap.Pop takes one item out.
abbrev pub PopsOne : Heaps → Type 0
PopsOne heaps = (x : TxItem) (xs : List TxItem) → length (heaps.pop less x xs).1 ≡ length xs

abbrev IsPending : GoMap Hash TxItem → Transaction → Type 0
IsPending pending tx = is_found (get pending tx.hash) ≡ true

-- What one queue gives for the room in the result: no more than the room, only pending transactions,
-- and all of it unless the room is used up.
record Takes (pending : GoMap Hash TxItem) (room : ℕ) (r : List Transaction × List TxItem)
    : Type 0 where
  within : length r.0 ≤ room
  found : All (IsPending pending) r.0
  rest : (length r.0 ≡ room) ⊎ (r.1 ≡ [])

All-append :
    (P : Transaction → Type 0) (xs ys : List Transaction) → All P xs → All P ys → All P (xs ++ ys)
All-append P [] ys h k = k
All-append P (x ∷ xs) ys (h, hs) k = (h, All-append P xs ys hs k)

module _ (heaps : Heaps) (pops : PopsOne heaps) where
  take_from-Takes :
      (n : ℕ) (pending : GoMap Hash TxItem) (room : ℕ) (q : List TxItem)
      → length q ≤ n
      → Takes pending room (take_from heaps n pending room q)
  unfolding take_from
  take_from-Takes zero pending room [] h = record {
    within = omega arith;
    found = tt;
    rest = inr refl;
  }
  take_from-Takes zero pending room (x ∷ xs) h = absurd (omega (arith, h))
  take_from-Takes (suc n) pending room [] h = record {
    within = omega arith;
    found = tt;
    rest = inr refl;
  }
  take_from-Takes (suc n) pending zero (x ∷ xs) h = record {
    within = omega arith;
    found = tt;
    rest = inl refl;
  }
  take_from-Takes (suc n) pending (suc room) (x ∷ xs) h =
      let (item, rest) = heaps.pop less x xs in
      let fits : length rest ≤ n = omega (arith, h, pops x xs) in
      let taken = take_from-Takes n pending room rest fits in
      let skipped = take_from-Takes n pending (suc room) rest fits in
      elim (Bool-cases (is_found (get pending item.tx.hash))) [
        | inl here ↦ rw here (record {
          within = omega (arith, taken.within);
          found = (here, taken.found);
          rest = elim taken.rest [ inl used ↦ inl (ap suc used) | inr empty ↦ inr empty ];
        })
        | inr gone ↦ rw gone skipped
      ]

  take_queue-Takes :
      (pending : GoMap Hash TxItem) (room : ℕ) (q : List TxItem)
      → Takes pending room (take_queue heaps pending room q)
  unfolding take_queue
  take_queue-Takes pending room q = take_from-Takes (length q) pending room q (omega arith)

  -- A pool without queued items.
  empty_queues :
      (n : ℕ) (p : TxPool)
      → p.high_priority ≡ []
      → p.normal_queue ≡ []
      → p.low_priority ≡ []
      → (get_pending heaps n p).0 ≡ []
  unfolding get_pending take_queue take_from
  empty_queues n p high normal low = rw (high, normal, low) refl

  -- Room that is used up at one queue stays used up.
  either_full :
      (max a b c : ℕ) (left left' left'' : List TxItem)
      → a ≤ max
      → b ≤ max - a
      → c ≤ max - a - b
      → (a ≡ max) ⊎ (left ≡ [])
      → (b ≡ max - a) ⊎ (left' ≡ [])
      → (c ≡ max - a - b) ⊎ (left'' ≡ [])
      → (a + (b + c) ≡ max) ⊎ ((left ≡ []) × (left' ≡ []) × (left'' ≡ []))
  either_full max a b c left left' left'' u v w (inl e) f g = inl (omega (arith, e, v, w))
  either_full max a b c left left' left'' u v w (inr e) (inl f) g = inl (omega (arith, u, f, w))
  either_full max a b c left left' left'' u v w (inr e) (inr f) (inl g) =
      inl (omega (arith, u, v, g))
  either_full max a b c left left' left'' u v w (inr e) (inr f) (inr g) = inr (e, f, g)

  -- GetPending returns at most as many transactions as asked for, each of them pending in the pool, and
  -- leaves what is pending as it was. If it returns fewer than asked for, the queues are empty: every
  -- later GetPending returns none, though the same transactions are pending still. heap.Pop is taken to
  -- take one item out of a queue.
  pub get_pending-Drains :
      (max : ℕ) (p : TxPool)
      → let (txs, q) = get_pending heaps max p in
        (length txs ≤ max)
        × All (λ tx. has_tx tx.hash p ≡ true) txs
        × ((hash : Hash) → has_tx hash q ≡ has_tx hash p)
        × ((length txs ≡ max) ⊎ ((n : ℕ) → (get_pending heaps n q).0 ≡ []))
  unfolding get_pending has_tx
  get_pending-Drains max p =
      let (high, high_left) = take_queue heaps p.pending max p.high_priority in
      let (normal, normal_left) = take_queue heaps p.pending (max - length high) p.normal_queue in
      let (low, low_left) =
        take_queue heaps p.pending (max - length high - length normal) p.low_priority in
      let h = take_queue-Takes p.pending max p.high_priority in
      let m = take_queue-Takes p.pending (max - length high) p.normal_queue in
      let l = take_queue-Takes p.pending (max - length high - length normal) p.low_priority in
      let q : TxPool = record p {
        high_priority = high_left;
        normal_queue = normal_left;
        low_priority = low_left;
      } in
      let total : length (high ++ normal ++ low) ≡ length high + (length normal + length low) =
        omega (arith, length-append (high ++ normal) low, length-append high normal) in
      (
        omega (arith, total, h.within, m.within, l.within),
        All-append (IsPending p.pending) (high ++ normal) low
            (All-append (IsPending p.pending) high normal h.found m.found) l.found,
        λ hash. refl,
        elim (either_full max (length high) (length normal) (length low) high_left normal_left
            low_left h.within m.within l.within h.rest m.rest l.rest) [
              | inl full ↦ inl (total ∙ full)
              | inr (e, f, g) ↦ inr (λ n. empty_queues n q e f g)
            ],
      )
