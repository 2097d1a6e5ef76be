-- ===== src/Consensus/ViewChange/Authentic.antt =====
-- pbft.go: whose messages can change the engine at all.
use v2v_blockchain.Prelude.{
  ◌≡◌, ◌⊎◌, refl, true, Option, none, some, inl, inr, Bool-cases, Option-cases, ◌==◌, ==_iff,
  Outcome, ok, err, panic, blocked,
}
use v2v_blockchain.Prelude.Int.{ℤ}
use v2v_blockchain.Prelude.Eq.{bytes_eq, bytes_eq_iff}
use v2v_blockchain.Bytes.{Address}
use v2v_blockchain.Block.{Block}
use v2v_blockchain.Crypto.{Crypto}
use v2v_blockchain.Consensus.Message.{
  PbftMessage, PrePreparePayload, Codec, VerifyError, verify_message, check_sender,
  calculate_digest,
}
use v2v_blockchain.Consensus.ValidatorSet.{is_validator, get_primary}
use v2v_blockchain.Consensus.Engine.{Engine, Handler}
use v2v_blockchain.Consensus.Handlers
use v2v_blockchain.Consensus.Handlers.{ChainCalls}
use v2v_blockchain.Consensus.ViewChange.{verified, handle_message}

module _ {Chain : Type 0} (c : Crypto) (codec : Codec) (calls : ChainCalls Chain) (now : ℤ) where
  check_sender_ok :
      (sender : Address) (o : Option Address)
      → check_sender c codec sender o ≡ ok tt
      → o ≡ some sender
  unfolding check_sender
  check_sender_ok sender none h = absurd (cc h)
  check_sender_ok sender (some a) h = elim (Bool-cases (bytes_eq a sender)) [
    | inl same ↦ rw ((bytes_eq_iff a sender).0 same) refl
    | inr other ↦ absurd (cc (rw other at h))
  ]

  verify_message-recover :
      (m : PbftMessage)
      → verify_message c codec m ≡ ok tt
      → c.recover (calculate_digest c codec m) m.signature ≡ some m.sender
  unfolding verify_message
  verify_message-recover m h = elim (Bool-cases (bytes_eq (calculate_digest c codec m) m.digest)) [
    | inr differ ↦ absurd (cc (rw differ at h))
    | inl same ↦ check_sender_ok m.sender _ (rw same at h)
  ]

  verified_or_unchanged :
      (handler : Handler Chain) (m : PbftMessage) (r : Outcome VerifyError (Unit {0}))
      (e : Engine Chain)
      → ((verified c codec calls now handler m r e).1 ≡ e)
        ⊎ ((r ≡ ok tt) × (is_validator e.validators m.sender ≡ true))
  unfolding verified
  verified_or_unchanged handler m (ok u) e =
      elim (Bool-cases (is_validator e.validators m.sender)) [
        | inl known ↦ inr (refl, known)
        | inr other ↦ inl (rw other refl)
      ]
  verified_or_unchanged handler m (err x) e = inl refl
  verified_or_unchanged handler m panic e = inl refl
  verified_or_unchanged handler m blocked e = inl refl

  -- HandleMessage leaves the engine exactly as it was unless the message's signature recovers its
  -- sender from its digest, and that sender is a validator.
  pub handle_message-authentic :
      (handler : Handler Chain) (m : PbftMessage) (e : Engine Chain)
      → ((handle_message c codec calls now handler m e).1 ≡ e)
        ⊎ ((c.recover (calculate_digest c codec m) m.signature ≡ some m.sender)
            × (is_validator e.validators m.sender ≡ true))
  unfolding handle_message
  handle_message-authentic handler m e =
      elim (verified_or_unchanged handler m (verify_message c codec m) e) [
        | inl same ↦ inl same
        | inr (accepted, known) ↦ inr (verify_message-recover m accepted, known)
      ]

  on_pre_prepare_payload_or_unchanged :
      (handler : Handler Chain) (m : PbftMessage) (p : Option PrePreparePayload) (e : Engine Chain)
      → ((Handlers.on_pre_prepare_payload c codec calls now handler m p e).1 ≡ e)
        ⊎ ((q : PrePreparePayload) × (block : Block) × (p ≡ some q) × (q.block_data ≡ some block))
  unfolding Handlers.on_pre_prepare_payload
  on_pre_prepare_payload_or_unchanged handler m none e = inl refl
  on_pre_prepare_payload_or_unchanged handler m (some q) e = elim (Option-cases q.block_data) [
    | inl missing ↦ inl (simp missing refl)
    | inr (block, found) ↦ inr (q, block, refl, found)
  ]

  from_primary_or_unchanged :
      (handler : Handler Chain) (m : PbftMessage) (a : Option Address) (e : Engine Chain)
      → ((Handlers.from_primary c codec calls now handler m a e).1 ≡ e)
        ⊎ ((q : PrePreparePayload) × (block : Block) × (a ≡ some m.sender)
            × (codec.decode_pre_prepare m.payload ≡ some q)
            × (q.block_data ≡ some block))
  unfolding Handlers.from_primary
  from_primary_or_unchanged handler m none e = inl refl
  from_primary_or_unchanged handler m (some a) e = elim (Bool-cases (bytes_eq m.sender a)) [
    | inr other ↦ inl (rw other refl)
    | inl same ↦
        elim (on_pre_prepare_payload_or_unchanged handler m (codec.decode_pre_prepare m.payload)
          e) [
            | inl unchanged ↦ inl (rw same unchanged)
            | inr (q, block, decoded, found) ↦
                inr (q, block, rw ((bytes_eq_iff m.sender a).0 same) refl, decoded, found)
          ]
  ]

  -- handlePrePrepare leaves the engine exactly as it was unless the message is of the engine's view,
  -- comes from the primary of the validator set, and carries a block.
  pub handle_pre_prepare-authentic :
      (handler : Handler Chain) (m : PbftMessage) (e : Engine Chain)
      → ((Handlers.handle_pre_prepare c codec calls now handler m e).1 ≡ e)
        ⊎ ((q : PrePreparePayload) × (block : Block) × (m.view ≡ e.view.number)
            × (get_primary e.validators ≡ some m.sender)
            × (codec.decode_pre_prepare m.payload ≡ some q)
            × (q.block_data ≡ some block))
  unfolding Handlers.handle_pre_prepare
  handle_pre_prepare-authentic handler m e = elim (Bool-cases (m.view == e.view.number)) [
    | inr other ↦ inl (rw other refl)
    | inl same ↦ elim (from_primary_or_unchanged handler m (get_primary e.validators) e) [
      | inl unchanged ↦ inl (rw same unchanged)
      | inr (q, block, leads, decoded, found) ↦
          inr (q, block, (==_iff m.view e.view.number).0 same, leads, decoded, found)
    ]
  ]
