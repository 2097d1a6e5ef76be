-- ===== src/Consensus/Message/Signed.antt =====
-- consensus/types.go: PBFTMessage.Sign followed by PBFTMessage.Verify.
use v2v_blockchain.Prelude.{
  ◌≡◌, ◌⊎◌, ◌≢◌, refl, ◌∙◌, true, some, inl, inr, Bool-cases, err, map_option-eq-some,
}
use v2v_blockchain.Prelude.Eq.{bytes_eq, bytes_eq_iff}
use v2v_blockchain.Bytes.{Bytes, Hash, empty_hash, is_empty, Collision}
use v2v_blockchain.Crypto.{Crypto}
use v2v_blockchain.Consensus.Message.{
  PbftMessage, Codec, digest_mismatch, serialize_for_sign, calculate_digest, with_digest, attach,
  sign_message, verify_message,
}

module _ (c : Crypto) (codec : Codec) where
  filled_digest :
      (m : PbftMessage) (sig : Bytes)
      → is_empty m.digest ≡ true
      → ((d d' : Hash)
          → codec.for_sign m.kind m.view m.seq_number m.sender m.payload d m.timestamp
            ≡ codec.for_sign m.kind m.view m.seq_number m.sender m.payload d' m.timestamp
          → d ≡ d')
      → calculate_digest c codec m ≢ empty_hash
      → (verify_message c codec
            (attach c codec (record m { digest = calculate_digest c codec m }) sig)
          ≡ err digest_mismatch)
        ⊎ Collision c.keccak256
  unfolding verify_message calculate_digest serialize_for_sign
  filled_digest m sig unset apart set =
      let d = calculate_digest c codec m in
      let again = calculate_digest c codec (record m { digest = d }) in
      elim (Bool-cases (bytes_eq again d)) [
        | inr differ ↦ inl (rw differ refl)
        | inl same ↦ inr (record {
          left = serialize_for_sign c codec (record m { digest = d });
          right = serialize_for_sign c codec m;
          differ =
              λ equal. set (apart d m.digest equal ∙ (bytes_eq_iff m.digest empty_hash).0 unset);
          agree = (bytes_eq_iff again d).0 same;
        })
      ]

  -- Sign computes the digest of the message with an unset digest, and Verify that of the message with
  -- the digest filled in. Where a message with an unset digest is signed, JSON keeps different digests
  -- apart, and the digest is not the one that stands for unset: Verify refuses the signed message for
  -- its digest, unless Keccak-256 has a collision.
  pub verify_message-sign_message :
      (m signed : PbftMessage) (key : Bytes)
      → is_empty m.digest ≡ true
      → ((d d' : Hash)
          → codec.for_sign m.kind m.view m.seq_number m.sender m.payload d m.timestamp
            ≡ codec.for_sign m.kind m.view m.seq_number m.sender m.payload d' m.timestamp
          → d ≡ d')
      → calculate_digest c codec m ≢ empty_hash
      → sign_message c codec m key ≡ some signed
      → (verify_message c codec signed ≡ err digest_mismatch) ⊎ Collision c.keccak256
  unfolding sign_message with_digest calculate_digest serialize_for_sign
  verify_message-sign_message m signed key unset apart set h =
      let filled = record m { digest = calculate_digest c codec m } in
      let (sig, made, e) =
        map_option-eq-some (attach c codec filled)
          (c.sign_digest (calculate_digest c codec filled) key) (rw unset at h) in
      rw (← e) (filled_digest m sig unset apart set)
