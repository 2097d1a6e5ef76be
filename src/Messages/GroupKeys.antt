-- ===== src/Messages/GroupKeys.antt =====
-- message/service.go: the keys of the platoons, and the XOR encryption with them and with the secret
-- that EncryptMessage derives.
use v2v_blockchain.Prelude.{
  ℕ, zero, suc, ◌≡◌, ◌<◌, ◌+◌, ◌*◌, ◌/◌, ◌%◌, ◌^◌, refl, ◌∙◌, Option, none, some, err, [], ◌∷◌,
  ◌++◌, length, length-take, take, get_elem?, get_elem?-lt, All, Outcome, ok, ◌>>=◌, or_panic,
  or_fail, arith,
}
use native.Mathlib.Nat.{pow-suc}
use v2v_blockchain.Prelude.Eq.{bytes_Eq, bytes_eq_iff}
use v2v_blockchain.Prelude.GoMap.{GoMap, get, put, get-put}
use v2v_blockchain.Bytes.{Bytes}
use v2v_blockchain.Crypto.{Crypto}

pub data CryptError : Type 0 where
  no_group_key generation_failed bad_public_key : CryptError

-- Key pairs of go-ethereum: the public half, FromECDSAPub, and UnmarshalPubkey, whose error is `none`.
pub record KeyPairs (Private Public : Type 0) : Type 0 where
  pub public_key : Private → Public
  pub from_ecdsa_pub : Public → Bytes
  pub unmarshal_pubkey : Bytes → Option Public

-- a ^ b on the last `n` bits.
xor_bits : ℕ → ℕ → ℕ → ℕ
xor_bits zero a b = 0
xor_bits (suc n) a b = (a % 2 + b % 2) % 2 + 2 * xor_bits n (a / 2) (b / 2)

unfoldable pub xor_byte : ℕ → ℕ → ℕ
unfolding xor_bits
xor_byte a b = xor_bits 8 a b

-- for i := range text { out[i] = text[i] ^ key[i%len(key)] }; an empty key panics, unless the text is
-- empty too.
unfoldable pub xor_from : Bytes → ℕ → Bytes → Outcome CryptError Bytes
xor_from key i [] = ok []
xor_from key i (b ∷ text) = do
  k ← or_panic (get_elem? key (i % length key))
  rest ← xor_from key (suc i) text
  ok (xor_byte b k ∷ rest)

unfoldable pub xor_with : Bytes → Bytes → Outcome CryptError Bytes
xor_with key text = xor_from key 0 text

abbrev pub GroupKeys : Type 0
GroupKeys = GoMap Bytes Bytes

pub record EncryptedMessage : Type 0 where
  pub ciphertext : Bytes
  pub nonce : Bytes
  pub ephemeral_pub_key : Bytes

module _ (c : Crypto) where
  -- The key is the digest of the platoon's id and "_group_key".
  unfoldable pub group_key : Bytes → Bytes
  group_key platoon_id =
      take 32
        (c.keccak256 (platoon_id ++ 95 ∷ 103 ∷ 114 ∷ 111 ∷ 117 ∷ 112 ∷ 95 ∷ 107 ∷ 101 ∷ 121 ∷ []))

  unfoldable pub generate_key : Bytes → GroupKeys → Bytes × GroupKeys
  generate_key platoon_id keys = let key = group_key platoon_id in (key, put keys platoon_id key)

  -- EncryptForGroup, and DecryptForGroup, which is the same; the error is that there is no key.
  unfoldable pub crypt_for_group : Bytes → Bytes → GroupKeys → Outcome CryptError Bytes
  crypt_for_group platoon_id text keys =
      or_fail (get keys platoon_id) no_group_key >>= λ key. xor_with key text

  module _ {Private Public : Type 0} (keys : KeyPairs Private Public) where
    encrypt_with : Bytes → Bytes → Bytes → Outcome CryptError EncryptedMessage
    encrypt_with ephemeral payload receiver_pub_key =
        let secret = c.keccak256 (ephemeral ++ receiver_pub_key) in
        do
          ciphertext ← xor_with secret payload
          ok (record {
            ciphertext = ciphertext;
            nonce = take 16 secret;
            ephemeral_pub_key = ephemeral;
          })

    -- EncryptMessage, for what GenerateKey answers; `none` is its error.
    unfoldable pub encrypt_message :
        Option Private → Bytes → Bytes → Outcome CryptError EncryptedMessage
    unfolding encrypt_with
    encrypt_message generated payload receiver_pub_key =
        or_fail generated generation_failed >>= λ ephemeral.
        encrypt_with (keys.from_ecdsa_pub (keys.public_key ephemeral)) payload receiver_pub_key

    -- DecryptMessage
    unfoldable pub decrypt_message : EncryptedMessage → Private → Outcome CryptError Bytes
    decrypt_message encrypted priv_key =
        or_fail (keys.unmarshal_pubkey encrypted.ephemeral_pub_key) bad_public_key >>= λ ephemeral.
        xor_with
          (c.keccak256
            (keys.from_ecdsa_pub ephemeral ++ keys.from_ecdsa_pub (keys.public_key priv_key)))
          encrypted.ciphertext

xor_bits-xor_bits : (n a b : ℕ) → a < 2 ^ n → xor_bits n (xor_bits n a b) b ≡ a
unfolding xor_bits
xor_bits-xor_bits zero a b h = omega arith
xor_bits-xor_bits (suc n) a b h =
    let half : a / 2 < 2 ^ n = omega (arith, pow-suc 2 n) in
    let rest = xor_bits n (a / 2) (b / 2) in
    let again : ((a % 2 + b % 2) % 2 + 2 * rest) / 2 ≡ rest = omega arith in
    rw again (omega (arith, xor_bits-xor_bits n (a / 2) (b / 2) half))

xor_byte-xor_byte : (a b : ℕ) → a < 256 → xor_byte (xor_byte a b) b ≡ a
unfolding xor_byte
xor_byte-xor_byte a b h = xor_bits-xor_bits 8 a b h

-- Every entry of a byte string is a byte.
abbrev pub AreBytes : Bytes → Type 0
AreBytes bytes = All (λ b. b < 256) bytes

xor_from-xor_from :
    (key : Bytes) (i : ℕ) (text : Bytes)
    → 0 < length key
    → AreBytes text
    → (out : Bytes) × (xor_from key i text ≡ ok out) × (xor_from key i out ≡ ok text)
unfolding xor_from
xor_from-xor_from key i [] h all = ([], refl, refl)
xor_from-xor_from key i (b ∷ text) h (small, rest) =
    let (k, at) = get_elem?-lt key (i % length key) (grind arith) in
    let (out, forth, back) = xor_from-xor_from key (suc i) text h rest in
    (xor_byte b k ∷ out, rw (at, forth) refl, rw (at, back, xor_byte-xor_byte b k small) refl)

-- Keccak-256 digests are 32 bytes long.
abbrev pub Sized : Crypto → Type 0
Sized c = (input : Bytes) → length (c.keccak256 input) ≡ 32

module _ (c : Crypto) (sized : Sized c) where
  group_key-long : (platoon_id : Bytes) → 0 < length (group_key c platoon_id)
  unfolding group_key
  group_key-long platoon_id = omega (arith, length-take 32 (c.keccak256 _), sized _)

  -- After GenerateKey for a platoon, EncryptForGroup encrypts every text for it, without a panic, and
  -- DecryptForGroup gives the text back.
  pub crypt_for_group-generate_key :
      (platoon_id text : Bytes) (keys : GroupKeys)
      → AreBytes text
      → (out : Bytes) × (crypt_for_group c platoon_id text (generate_key c platoon_id keys).1
          ≡ ok out)
        × (crypt_for_group c platoon_id out (generate_key c platoon_id keys).1 ≡ ok text)
  unfolding crypt_for_group generate_key xor_with
  crypt_for_group-generate_key platoon_id text keys all =
      let key = group_key c platoon_id in
      let found : get (put keys platoon_id key) platoon_id ≡ some key =
        get-put keys platoon_id platoon_id key
        ∙ rw ((bytes_eq_iff platoon_id platoon_id).1 refl) refl in
      let (out, forth, back) = xor_from-xor_from key 0 text (group_key-long platoon_id) all in
      (out, rw found forth, rw found back)

  -- UnmarshalPubkey reads what FromECDSAPub wrote.
  abbrev pub ReadsKeys : {Private Public : Type 0} → KeyPairs Private Public → Type 0
  ReadsKeys {Private} {Public} keys =
      (key : Public) → keys.unmarshal_pubkey (keys.from_ecdsa_pub key) ≡ some key

  module _ {Private Public : Type 0} (keys : KeyPairs Private Public) where
    -- What EncryptMessage yields for the key pair that was generated.
    abbrev pub Encrypts :
        Option Private → Private → Bytes → Outcome CryptError EncryptedMessage → Type 0
    Encrypts none receiver payload r = r ≡ err generation_failed
    Encrypts (some ephemeral) receiver payload r =
        (sent : EncryptedMessage) × (r ≡ ok sent)
        × (decrypt_message c keys sent receiver ≡ ok payload)
        × (xor_with
              (c.keccak256
                (sent.ephemeral_pub_key ++ keys.from_ecdsa_pub (keys.public_key receiver)))
              sent.ciphertext
            ≡ ok payload)

    -- EncryptMessage for a receiver's public key fails exactly where GenerateKey fails, and never
    -- panics. Else DecryptMessage with the receiver's private key gives the payload back; and so does
    -- XOR with the digest of the ephemeral key in the message and the receiver's public key, for
    -- anybody who has the message and that public key. (UnmarshalPubkey reads what FromECDSAPub wrote,
    -- and digests are 32 bytes long.)
    pub decrypt_message-encrypt_message :
        (generated : Option Private) (receiver : Private) (payload : Bytes)
        → ReadsKeys keys
        → AreBytes payload
        → Encrypts generated receiver payload (
            encrypt_message c keys generated payload
              (keys.from_ecdsa_pub (keys.public_key receiver)))
    unfolding encrypt_message decrypt_message xor_with
    decrypt_message-encrypt_message none receiver payload reads all = refl
    decrypt_message-encrypt_message (some ephemeral) receiver payload reads all =
        let sender_key = keys.from_ecdsa_pub (keys.public_key ephemeral) in
        let input = sender_key ++ keys.from_ecdsa_pub (keys.public_key receiver) in
        let secret = c.keccak256 input in
        let (out, forth, back) =
          xor_from-xor_from secret 0 payload (omega (arith, sized input)) all in
        (
          record { ciphertext = out; nonce = take 16 secret; ephemeral_pub_key = sender_key },
          rw forth refl,
          rw (reads (keys.public_key ephemeral)) back,
          back,
        )
