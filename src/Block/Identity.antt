-- ===== src/Block/Identity.antt =====
-- types.go: what a transaction hash and a block hash bind, and what the signatures cover.
use v2v_blockchain.Prelude.{
  ℕ, ◌%◌, ◌^◌, ◌<◌, ◌≡◌, ◌≢◌, refl, sym, ◌∙◌, ap, ◌⊎◌, inl, inr, true, Option, none, some, [], ◌++◌,
  length, length-append, append-injective, Bool-cases, map_option-eq-some, ◌==◌, arith,
}
use mathlib.Core.Path.{subst}
use v2v_blockchain.Prelude.Int.{ℤ}
use v2v_blockchain.Prelude.Eq.{bytes_eq, bytes_eq_iff}
use v2v_blockchain.Bytes.{Bytes, Hash, Address, Collision}
use v2v_blockchain.Crypto.{Crypto}
use v2v_blockchain.Block.{
  BlockHeader, Block, Transaction, serialize_without_hash, serialize_transaction, header_hash,
  transaction_hash, sign_block, sign_transaction, verify_transaction_signature, matches_address,
  with_hash, signed_transaction, signed_block, verify_block_signature,
}
use v2v_blockchain.Block.Encoding.{
  to_be, u64_of, length-to_be, to_be-injective, IsInt64, i64_of, i64_of-u64_of, u64_of-lt,
}

-- What Go's types say of a transaction.
pub record IsTransaction (tx : Transaction) : Type 0 where
  pub from : length tx.from ≡ 20
  pub to : length tx.to ≡ 20
  pub kind : tx.kind < 2 ^ 8
  pub nonce : tx.nonce < 2 ^ 64
  pub gas_price : tx.gas_price < 2 ^ 64
  pub gas_limit : tx.gas_limit < 2 ^ 64
  pub value : tx.value < 2 ^ 64
  pub timestamp : IsInt64 tx.timestamp

-- All fields but the hash and the signature.
pub record SameContent (a b : Transaction) : Type 0 where
  pub from : a.from ≡ b.from
  pub to : a.to ≡ b.to
  pub kind : a.kind ≡ b.kind
  pub nonce : a.nonce ≡ b.nonce
  pub gas_price : a.gas_price ≡ b.gas_price
  pub gas_limit : a.gas_limit ≡ b.gas_limit
  pub value : a.value ≡ b.value
  pub payload : a.payload ≡ b.payload
  pub timestamp : a.timestamp ≡ b.timestamp

-- One numeric field, then the rest.
peel_number :
    (n v w : ℕ) (b d : Bytes)
    → v < 256 ^ n
    → w < 256 ^ n
    → to_be n v ++ b ≡ to_be n w ++ d
    → (v ≡ w) × (b ≡ d)
peel_number n v w b d hv hw e =
    let (p, q) =
      append-injective (to_be n v) b (to_be n w) d (length-to_be n v ∙ sym (length-to_be n w)) e in
    (to_be-injective n v w hv hw p, q)

u64_of-injective : (s t : ℤ) → IsInt64 s → IsInt64 t → u64_of s ≡ u64_of t → s ≡ t
u64_of-injective s t hs ht e = sym (i64_of-u64_of s hs) ∙ ap i64_of e ∙ i64_of-u64_of t ht

-- The payload and the time stand at the end; the time takes eight bytes.
peel_payload :
    (p q : Bytes) (s t : ℤ)
    → IsInt64 s
    → IsInt64 t
    → p ++ to_be 8 (u64_of s) ≡ q ++ to_be 8 (u64_of t)
    → (p ≡ q) × (s ≡ t)
peel_payload p q s t hs ht e =
    let same : length p ≡ length q = omega (
      arith,
      ap length e,
      length-append p (to_be 8 (u64_of s)),
      length-append q (to_be 8 (u64_of t)),
      length-to_be 8 (u64_of s),
      length-to_be 8 (u64_of t),
    ) in
    let (front, back) = append-injective p (to_be 8 (u64_of s)) q (to_be 8 (u64_of t)) same e in
    (
      front,
      u64_of-injective s t hs ht
          (to_be-injective 8 (u64_of s) (u64_of t) (u64_of-lt s hs) (u64_of-lt t ht) back),
    )

-- The serialization that is hashed determines every field but the hash and the signature.
serialize_transaction-injective :
    (a b : Transaction)
    → IsTransaction a
    → IsTransaction b
    → serialize_transaction a ≡ serialize_transaction b
    → SameContent a b
unfolding serialize_transaction
serialize_transaction-injective a b va vb e =
    let (from, e₁) = append-injective a.from _ b.from _ (va.from ∙ sym vb.from) e in
    let (to, e₂) = append-injective a.to _ b.to _ (va.to ∙ sym vb.to) e₁ in
    let (kind, e₃) =
      peel_number 1 a.kind b.kind _ _ (omega (arith, va.kind)) (omega (arith, vb.kind)) e₂ in
    let (nonce, e₄) = peel_number 8 a.nonce b.nonce _ _ va.nonce vb.nonce e₃ in
    let (gas_price, e₅) = peel_number 8 a.gas_price b.gas_price _ _ va.gas_price vb.gas_price e₄ in
    let (gas_limit, e₆) = peel_number 8 a.gas_limit b.gas_limit _ _ va.gas_limit vb.gas_limit e₅ in
    let (value, e₇) = peel_number 8 a.value b.value _ _ va.value vb.value e₆ in
    let (size, e₈) =
      peel_number 4 (length a.payload % 2 ^ 32) (length b.payload % 2 ^ 32) _ _ (omega arith)
        (omega arith) e₇ in
    let (payload, timestamp) =
      peel_payload a.payload b.payload a.timestamp b.timestamp va.timestamp vb.timestamp e₈ in
    record {
      from = from;
      to = to;
      kind = kind;
      nonce = nonce;
      gas_price = gas_price;
      gas_limit = gas_limit;
      value = value;
      payload = payload;
      timestamp = timestamp;
    }

collide : (digest : Bytes → Hash) (a b : Bytes) → digest a ≡ digest b → (a ≡ b) ⊎ Collision digest
collide digest a b e = elim (Bool-cases (bytes_eq a b)) [
  | inl same ↦ inl ((bytes_eq_iff a b).0 same)
  | inr other ↦
      inr
        (record { left = a; right = b; differ = λ p. ground (arith, bytes_eq_iff a b); agree = e })
]

-- The address of a key, and what go-ethereum documents of it: a signature has 65 bytes, and the
-- address is recovered from it and the digest that was signed.
pub record Signs (c : Crypto) (key : Bytes) (addr : Address) : Type 0 where
  pub sized : (d : Hash) (sig : Bytes) → c.sign_digest d key ≡ some sig → length sig ≡ 65
  pub recovers :
      (d : Hash) (sig : Bytes) → c.sign_digest d key ≡ some sig → c.recover d sig ≡ some addr

module _ (c : Crypto) where
  signed_content : (tx : Transaction) (sig : Bytes) → SameContent (signed_transaction c tx sig) tx
  unfolding signed_transaction
  signed_content tx sig = record {
    from = refl;
    to = refl;
    kind = refl;
    nonce = refl;
    gas_price = refl;
    gas_limit = refl;
    value = refl;
    payload = refl;
    timestamp = refl;
  }

  hash_kept :
      (tx : Transaction) (sig : Bytes)
      → (signed_transaction c tx sig).hash ≡ transaction_hash c (signed_transaction c tx sig)
  unfolding signed_transaction transaction_hash
  hash_kept tx sig = refl

  verifies :
      (key : Bytes) (addr : Address)
      → Signs c key addr
      → (tx : Transaction) (sig : Bytes) → c.sign_digest (transaction_hash c tx) key ≡ some sig
      → verify_transaction_signature c (signed_transaction c tx sig) ≡ bytes_eq tx.from addr
  unfolding verify_transaction_signature signed_transaction matches_address
  verifies key addr signs tx sig made = ground (
    arith,
    signs.sized (transaction_hash c tx) sig made,
    signs.recovers (transaction_hash c tx) sig made,
    hash_kept tx sig,
  )

  -- Two transactions, with fields of Go's sizes, that have one hash agree in every field that is
  -- hashed, or they give a collision of Keccak-256.
  pub transaction_hash_binds :
      (a b : Transaction)
      → IsTransaction a
      → IsTransaction b
      → transaction_hash c a ≡ transaction_hash c b
      → SameContent a b ⊎ Collision c.keccak256
  unfolding transaction_hash
  transaction_hash_binds a b va vb e =
      elim (collide c.keccak256 (serialize_transaction a) (serialize_transaction b) e) [
        | inl same ↦ inl (serialize_transaction-injective a b va vb same)
        | inr collision ↦ inr collision
      ]

  -- Sign keeps the content of a transaction, sets its hash, and the result verifies exactly if the
  -- sender is the address of the key.
  pub verify_transaction_signature-sign :
      (key : Bytes) (addr : Address)
      → Signs c key addr
      → (tx signed : Transaction) → sign_transaction c tx key ≡ some signed
      → SameContent signed tx
        × (signed.hash ≡ transaction_hash c signed)
        × (verify_transaction_signature c signed ≡ bytes_eq tx.from addr)
  unfolding sign_transaction
  verify_transaction_signature-sign key addr signs tx signed h =
      let (sig, made, e) =
        map_option-eq-some (signed_transaction c tx) (c.sign_digest (transaction_hash c tx) key)
          h in
      subst
        (λ (t : Transaction).
          SameContent t tx
          × (t.hash ≡ transaction_hash c t)
          × (verify_transaction_signature c t ≡ bytes_eq tx.from addr))
        e (signed_content tx sig, hash_kept tx sig, verifies key addr signs tx sig made)

  longer :
      (h : BlockHeader) (sig : Bytes) (digest : Hash)
      → h.signature ≡ []
      → 0 < length sig
      → serialize_without_hash (record h { hash = digest; signature = sig })
        ≢ serialize_without_hash h
  unfolding serialize_without_hash
  longer h sig digest unsigned sized e =
      let tail = to_be 4 h.tx_count ++ (to_be 8 h.height ++ to_be 8 h.nonce) in
      let time = to_be 8 (u64_of h.timestamp) in
      let e₁ = (append-injective h.prev_hash _ h.prev_hash _ refl e).1 in
      let e₂ = (append-injective time _ time _ refl e₁).1 in
      let e₃ = (append-injective h.merkle_root _ h.merkle_root _ refl e₂).1 in
      let e₄ = (append-injective h.validator _ h.validator _ refl e₃).1 in
      absurd (
        omega (
          arith,
          ap length e₄,
          length-append sig tail,
          length-append h.signature tail,
          ap length unsigned,
        ))

  matches_address-eq :
      (addr : Address) (o : Option Address) → matches_address c addr o ≡ true → o ≡ some addr
  unfolding matches_address
  matches_address-eq addr none h = cc
  matches_address-eq addr (some a) h = ap some (sym ((bytes_eq_iff addr a).0 h))

  verify_block_signature-recover :
      (b : Block)
      → verify_block_signature c b ≡ true
      → (0 < length b.header.signature)
        × (c.recover (header_hash c b.header) b.header.signature ≡ some b.header.validator)
  unfolding verify_block_signature
  verify_block_signature-recover b h = elim (Bool-cases (length b.header.signature == 0)) [
    | inl empty ↦ absurd (ground arith)
    | inr sized ↦ (ground arith, matches_address-eq b.header.validator _ (rw sized at h))
  ]

  other_digest :
      (h : BlockHeader) (sig : Bytes)
      → h.signature ≡ []
      → 0 < length sig
      → (header_hash c (with_hash c (record h { signature = sig })) ≢ header_hash c h)
        ⊎ Collision c.keccak256
  unfolding with_hash
  other_digest h sig unsigned sized =
      let signed = with_hash c (record h { signature = sig }) in
      elim (Bool-cases (bytes_eq (header_hash c signed) (header_hash c h))) [
        | inl same ↦
            unfold header_hash in
            elim (collide c.keccak256 (serialize_without_hash signed) (serialize_without_hash h)
              ((bytes_eq_iff _ _).0 same)) [
                | inl equal ↦ absurd (
                    longer h sig (header_hash c (record h { signature = sig })) unsigned sized
                      equal)
                | inr collision ↦ inr collision
              ]
        | inr differ ↦
            inl (λ p. ground (arith, bytes_eq_iff (header_hash c signed) (header_hash c h)))
      ]

  signed_verifies :
      (b : Block) (sig : Bytes)
      → b.header.signature ≡ []
      → verify_block_signature c (signed_block c b sig) ≡ true
      → ((signed_block c b sig).header.signature ≡ sig)
        × (c.recover
              (header_hash c (signed_block c b sig).header)
              (signed_block c b sig).header.signature
            ≡ some (signed_block c b sig).header.validator)
        × ((header_hash c (signed_block c b sig).header ≢ header_hash c b.header)
            ⊎ Collision c.keccak256)
  unfolding signed_block
  signed_verifies b sig unsigned accepted =
      let (sized, recovered) = verify_block_signature-recover (signed_block c b sig) accepted in
      (refl, recovered, other_digest b.header sig unsigned sized)

  -- A block that Sign has signed, and that had no signature before, verifies only if the signature
  -- recovers the validator from another digest than the one it was made for (or Keccak-256
  -- collides): VerifySignature hashes the signature too, Sign does not.
  pub verify_block_signature-sign :
      (b signed : Block) (key : Bytes)
      → b.header.signature ≡ []
      → sign_block c b key ≡ some signed
      → verify_block_signature c signed ≡ true
      → (c.sign_digest (header_hash c b.header) key ≡ some signed.header.signature)
        × (c.recover (header_hash c signed.header) signed.header.signature
            ≡ some signed.header.validator)
        × ((header_hash c signed.header ≢ header_hash c b.header) ⊎ Collision c.keccak256)
  unfolding sign_block
  verify_block_signature-sign b signed key unsigned h accepted =
      let (sig, made, e) =
        map_option-eq-some (signed_block c b) (c.sign_digest (header_hash c b.header) key) h in
      let (same, recovered, other) = signed_verifies b sig unsigned (rw (← e) at accepted) in
      (rw (← e, same) made, rw (← e) recovered, rw (← e) other)
