-- ===== src/Block/RoundTrip.antt =====
-- types.go: Deserialize reads back what Serialize writes.
use mathlib.Core.List.{append-nil}
use v2v_blockchain.Prelude.{
  ℕ, ◌+◌, ◌-◌, ◌^◌, ◌<◌, ◌≤◌, ◌≡◌, refl, sym, true, false, some, [], ◌++◌, length, length-append,
  ltb, leb, Bool-cases, arith, ◌⊎◌, inl, inr, Outcome, ok, err, panic, or_panic, ◌>>=◌, Option,
  none,
}
use v2v_blockchain.Bytes.{Bytes}
use v2v_blockchain.Block.{
  BlockHeader, HeaderError, insufficient_data, invalid_length, serialize, deserialize,
}
use v2v_blockchain.Block.Encoding.{
  to_be, u64_of, slice, length-to_be, from_be-to_be, IsInt64, i64_of-u64_of, u64_of-lt, slice-skip,
  slice-head, slice-append, slice_inside, slice_outside,
}

-- What Go's types say of a header.
pub record IsHeader (h : BlockHeader) : Type 0 where
  pub hash : length h.hash ≡ 32
  pub prev_hash : length h.prev_hash ≡ 32
  pub timestamp : IsInt64 h.timestamp
  pub merkle_root : length h.merkle_root ≡ 32
  pub validator : length h.validator ≡ 20
  pub tx_count : h.tx_count < 2 ^ 32
  pub height : h.height < 2 ^ 64
  pub nonce : h.nonce < 2 ^ 64

module _ (h : BlockHeader) (v : IsHeader h) where
  counts : Bytes
  counts = to_be 4 h.tx_count ++ (to_be 8 h.height ++ to_be 8 h.nonce)

  length-counts : length counts ≡ 20
  unfolding counts
  length-counts = omega (
    arith,
    length-append (to_be 4 h.tx_count) (to_be 8 h.height ++ to_be 8 h.nonce),
    length-append (to_be 8 h.height) (to_be 8 h.nonce),
    length-to_be 4 h.tx_count,
    length-to_be 8 h.height,
    length-to_be 8 h.nonce,
  )

  after_validator : Bytes
  after_validator = h.signature ++ counts

  after_root : Bytes
  after_root = h.validator ++ after_validator

  after_time : Bytes
  after_time = h.merkle_root ++ after_root

  after_prev : Bytes
  after_prev = to_be 8 (u64_of h.timestamp) ++ after_time

  length-after_prev : length after_prev ≡ 80 + length h.signature
  unfolding after_prev after_time after_root after_validator
  length-after_prev = omega (
    arith,
    length-append (to_be 8 (u64_of h.timestamp))
        (h.merkle_root ++ (h.validator ++ (h.signature ++ counts))),
    length-append h.merkle_root (h.validator ++ (h.signature ++ counts)),
    length-append h.validator (h.signature ++ counts),
    length-append h.signature counts,
    length-to_be 8 (u64_of h.timestamp),
    length-counts,
    v.merkle_root,
    v.validator,
  )

  whole : serialize h ≡ h.hash ++ (h.prev_hash ++ after_prev)
  unfolding serialize after_prev after_time after_root after_validator counts
  whole = refl

  pub length-serialize : length (serialize h) ≡ 144 + length h.signature
  length-serialize = rw whole (
      omega (
        arith,
        length-append h.hash (h.prev_hash ++ after_prev),
        length-append h.prev_hash after_prev,
        length-after_prev,
        v.hash,
        v.prev_hash,
      ))

  -- A slice behind the first two hashes.
  behind_hashes :
      (a b a' b' : ℕ) {x : Bytes}
      → a' ≡ 64 + a
      → b' ≡ 64 + b
      → slice after_prev a b ≡ some x
      → slice (serialize h) a' b' ≡ some x
  behind_hashes a b a' b' p q s = rw whole (
      slice-skip h.hash (h.prev_hash ++ after_prev) (32 + a) (32 + b) a' b' (omega (arith, v.hash))
        (omega (arith, v.hash))
        (slice-skip h.prev_hash after_prev a b (32 + a) (32 + b) (omega (arith, v.prev_hash))
          (omega (arith, v.prev_hash)) s))

  -- A slice behind the validator.
  behind_validator :
      (a b a' b' : ℕ) {x : Bytes}
      → a' ≡ 124 + a
      → b' ≡ 124 + b
      → slice after_validator a b ≡ some x
      → slice (serialize h) a' b' ≡ some x
  unfolding after_prev after_time after_root
  behind_validator a b a' b' p q s =
      behind_hashes (60 + a) (60 + b) a' b' (omega arith) (omega arith) (
        slice-skip (to_be 8 (u64_of h.timestamp)) after_time (52 + a) (52 + b) (60 + a) (60 + b)
          (omega (arith, length-to_be 8 (u64_of h.timestamp)))
          (omega (arith, length-to_be 8 (u64_of h.timestamp)))
          (slice-skip h.merkle_root after_root (20 + a) (20 + b) (52 + a) (52 + b)
            (omega (arith, v.merkle_root)) (omega (arith, v.merkle_root))
            (slice-skip h.validator after_validator a b (20 + a) (20 + b)
              (omega (arith, v.validator)) (omega (arith, v.validator)) s)))

  behind_signature :
      (a b a' b' : ℕ) {x : Bytes}
      → a' ≡ 124 + length h.signature + a
      → b' ≡ 124 + length h.signature + b
      → slice counts a b ≡ some x
      → slice (serialize h) a' b' ≡ some x
  unfolding after_validator
  behind_signature a b a' b' p q s =
      behind_validator (length h.signature + a) (length h.signature + b) a' b' (omega arith)
        (omega arith)
        (slice-skip h.signature counts a b (length h.signature + a) (length h.signature + b)
          (omega arith) (omega arith) s)

  hash_slice : slice (serialize h) 0 32 ≡ some h.hash
  hash_slice = rw whole (slice-head h.hash (h.prev_hash ++ after_prev) 32 (sym v.hash))

  prev_slice : slice (serialize h) 32 64 ≡ some h.prev_hash
  prev_slice = rw whole (
      slice-skip h.hash (h.prev_hash ++ after_prev) 0 32 32 64 (omega (arith, v.hash))
        (omega (arith, v.hash)) (slice-head h.prev_hash after_prev 32 (sym v.prev_hash)))

  time_slice : slice (serialize h) 64 72 ≡ some (to_be 8 (u64_of h.timestamp))
  unfolding after_prev
  time_slice = behind_hashes 0 8 64 72 refl refl (
      slice-head (to_be 8 (u64_of h.timestamp)) after_time 8
        (sym (length-to_be 8 (u64_of h.timestamp))))

  root_slice : slice (serialize h) 72 104 ≡ some h.merkle_root
  unfolding after_prev after_time
  root_slice = behind_hashes 8 40 72 104 refl refl (
      slice-skip (to_be 8 (u64_of h.timestamp)) after_time 0 32 8 40
        (omega (arith, length-to_be 8 (u64_of h.timestamp)))
        (omega (arith, length-to_be 8 (u64_of h.timestamp)))
        (slice-head h.merkle_root after_root 32 (sym v.merkle_root)))

  validator_slice : slice (serialize h) 104 124 ≡ some h.validator
  unfolding after_prev after_time after_root
  validator_slice = behind_hashes 40 60 104 124 refl refl (
      slice-skip (to_be 8 (u64_of h.timestamp)) after_time 32 52 40 60
        (omega (arith, length-to_be 8 (u64_of h.timestamp)))
        (omega (arith, length-to_be 8 (u64_of h.timestamp)))
        (slice-skip h.merkle_root after_root 0 20 32 52 (omega (arith, v.merkle_root))
          (omega (arith, v.merkle_root))
          (slice-head h.validator after_validator 20 (sym v.validator))))

  signature_slice :
      (n : ℕ) → n ≡ length h.signature → slice (serialize h) 124 (124 + n) ≡ some h.signature
  unfolding after_validator
  signature_slice n e =
      behind_validator 0 n 124 (124 + n) refl refl (slice-head h.signature counts n e)

  count_slice :
      (o : ℕ)
      → o ≡ 124 + length h.signature
      → slice (serialize h) o (o + 4) ≡ some (to_be 4 h.tx_count)
  unfolding counts
  count_slice o e = behind_signature 0 4 o (o + 4) (omega arith) (omega arith) (
      slice-head (to_be 4 h.tx_count) (to_be 8 h.height ++ to_be 8 h.nonce) 4
        (sym (length-to_be 4 h.tx_count)))

  height_slice :
      (o : ℕ)
      → o ≡ 124 + length h.signature
      → slice (serialize h) (o + 4) (o + 12) ≡ some (to_be 8 h.height)
  unfolding counts
  height_slice o e = behind_signature 4 12 (o + 4) (o + 12) (omega arith) (omega arith) (
      slice-skip (to_be 4 h.tx_count) (to_be 8 h.height ++ to_be 8 h.nonce) 0 8 4 12
        (omega (arith, length-to_be 4 h.tx_count)) (omega (arith, length-to_be 4 h.tx_count))
        (slice-head (to_be 8 h.height) (to_be 8 h.nonce) 8 (sym (length-to_be 8 h.height))))

  nonce_slice :
      (o : ℕ)
      → o ≡ 124 + length h.signature
      → slice (serialize h) (o + 12) (o + 20) ≡ some (to_be 8 h.nonce)
  unfolding counts
  nonce_slice o e = behind_signature 12 20 (o + 12) (o + 20) (omega arith) (omega arith) (
      slice-skip (to_be 4 h.tx_count) (to_be 8 h.height ++ to_be 8 h.nonce) 8 16 12 20
        (omega (arith, length-to_be 4 h.tx_count)) (omega (arith, length-to_be 4 h.tx_count))
        (slice-skip (to_be 8 h.height) (to_be 8 h.nonce) 0 8 8 16
          (omega (arith, length-to_be 8 h.height)) (omega (arith, length-to_be 8 h.height))
          (rw (append-nil (to_be 8 h.nonce)) at
            (slice-head (to_be 8 h.nonce) [] 8 (sym (length-to_be 8 h.nonce))))))

-- A header whose fields have Go's sizes and ranges is read back whole from its serialization,
-- whatever the length of its signature and whatever stands behind it in the array.
pub deserialize-serialize :
    (h : BlockHeader) (spare : Bytes) → IsHeader h → deserialize (serialize h) spare ≡ ok h
unfolding deserialize
deserialize-serialize h spare v =
    let n = length (serialize h) - 144 in
    let e : n ≡ length h.signature = omega (arith, length-serialize h v) in
    let offset : 124 + n ≡ 124 + length h.signature = omega arith in
    let long : ltb (length (serialize h)) 32 ≡ false = ground (arith, length-serialize h v) in
    let enough : ltb (length (serialize h)) 144 ≡ false = ground (arith, length-serialize h v) in
    rw (
      long,
      slice-append (serialize h) spare 0 32 (omega arith) (hash_slice h v),
      slice-append (serialize h) spare 32 64 (omega arith) (prev_slice h v),
      slice-append (serialize h) spare 64 72 (omega arith) (time_slice h v),
      slice-append (serialize h) spare 72 104 (omega arith) (root_slice h v),
      slice-append (serialize h) spare 104 124 (omega arith) (validator_slice h v),
      enough,
      slice-append (serialize h) spare 124 (124 + n) (omega arith) (signature_slice h v n e),
      slice-append (serialize h) spare (124 + n) (124 + n + 4) (omega arith)
          (count_slice h v (124 + n) offset),
      slice-append (serialize h) spare (124 + n + 4) (124 + n + 12) (omega arith)
          (height_slice h v (124 + n) offset),
      slice-append (serialize h) spare (124 + n + 12) (124 + n + 20) (omega arith)
          (nonce_slice h v (124 + n) offset),
      from_be-to_be 8 (u64_of h.timestamp) (u64_of-lt h.timestamp v.timestamp),
      i64_of-u64_of h.timestamp v.timestamp,
      from_be-to_be 4 h.tx_count v.tx_count,
      from_be-to_be 8 h.height v.height,
      from_be-to_be 8 h.nonce v.nonce,
    )

-- Some slice of the fixed part is out of range.
panics :
    (bytes : Bytes)
    → length bytes < 124
    → (f : Bytes → Bytes → Bytes → Bytes → Outcome HeaderError BlockHeader)
    → (or_panic (slice bytes 32 64) >>= λ a. or_panic (slice bytes 64 72) >>= λ b.
        or_panic (slice bytes 72 104) >>= λ c. or_panic (slice bytes 104 124) >>= λ d. f a b c d)
      ≡ panic
panics bytes h f =
    let fourth = slice_outside bytes 104 124 h in
    go (slice bytes 32 64) (slice bytes 64 72) (slice bytes 72 104) (slice bytes 104 124) fourth
  where
    go :
        (p q r s : Option Bytes)
        → s ≡ none
        → (or_panic p >>= λ a.
            or_panic q >>= λ b. or_panic r >>= λ c. or_panic s >>= λ d. f a b c d)
          ≡ panic
    go none q r s e = refl
    go (some a) none r s e = refl
    go (some a) (some b) none s e = refl
    go (some a) (some b) (some c) s e = rw e refl

-- On fewer than 144 bytes Deserialize never returns a header. It returns an error on fewer than 32
-- bytes; from 32 bytes on it panics exactly if the capacity of the slice is below 124, and else returns
-- an error: its length check stands behind the slices that it should guard. (So it panics on 32 to 123
-- bytes that fill their array.)
pub deserialize_short :
    (bytes spare : Bytes)
    → length bytes < 144
    → ((length bytes < 32) × (deserialize bytes spare ≡ err insufficient_data))
      ⊎ ((32 ≤ length bytes)
          × (length bytes + length spare < 124)
          × (deserialize bytes spare ≡ panic))
      ⊎ ((32 ≤ length bytes)
          × (124 ≤ length bytes + length spare)
          × (deserialize bytes spare ≡ err invalid_length))
unfolding deserialize
deserialize_short bytes spare h = elim (Bool-cases (ltb (length bytes) 32)) [
  | inl tiny ↦ inl (ground arith, rw tiny refl)
  | inr start ↦
      let array = bytes ++ spare in
      let size : length array ≡ length bytes + length spare = length-append bytes spare in
      let hash = slice_inside array 0 32 (ground (arith, size)) in
      elim (Bool-cases (leb 124 (length bytes + length spare))) [
        | inl long ↦
            let below : ltb (length bytes) 144 ≡ true = ground arith in
            inr (
              inr (
                ground arith,
                ground arith,
                rw (
                  start,
                  hash,
                  slice_inside array 32 64 (ground (arith, size)),
                  slice_inside array 64 72 (ground (arith, size)),
                  slice_inside array 72 104 (ground (arith, size)),
                  slice_inside array 104 124 (ground (arith, size)),
                  below,
                ),
              ))
        | inr short ↦ inr (
            inl (
              ground arith,
              ground arith,
              rw (start, hash) (panics array (ground (arith, size)) _),
            ))
      ]
]
