-- ===== src/Consensus/Invariant/Votes.antt =====
-- pbft.go: handlePrepare, handleCommit and commitBlock keep the invariant of the recorded messages.
use v2v_blockchain.Prelude.{
  ℕ, ◌≡◌, true, Option, none, some, inl, inr, Bool-cases, Option-cases, ltb, Outcome, ok, err,
  panic, blocked,
}
use v2v_blockchain.Prelude.Int.{ℤ}
use v2v_blockchain.Prelude.Eq.{bytes_eq, bytes_Eq, numbers_Eq}
use v2v_blockchain.Prelude.Lock.{writing, can_lock, can_read}
use v2v_blockchain.Prelude.GoMap.{get}
use v2v_blockchain.Bytes.{Hash}
use v2v_blockchain.Block.{Block}
use v2v_blockchain.Crypto.{Crypto}
use v2v_blockchain.Consensus.Message.{PbftMessage, PrePreparePayload, Codec}
use v2v_blockchain.Consensus.State.{
  ConsensusState, prepared, committed, rank, new_consensus_state, add_prepare_msg, add_commit_msg,
  has_prepared, has_committed,
}
use v2v_blockchain.Consensus.ValidatorSet.{quorum, is_validator}
use v2v_blockchain.Consensus.Engine.{Engine, Handler, with_states_lock, put_state}
use v2v_blockchain.Consensus.Handlers
use v2v_blockchain.Consensus.Handlers.{ChainCalls, state_or_new}
use v2v_blockchain.Consensus.Invariant.{
  StateOk, EngineOk, new_consensus_state-StateOk, add_prepare_msg-StateOk, add_commit_msg-StateOk,
  prepared-StateOk, committed-StateOk,
}
use v2v_blockchain.Consensus.Invariant.Keeps.{
  Keeps, HandlerOk, release-EngineOk, put_state-EngineOk, broadcast_commit-Keeps,
}

module _ {Chain : Type 0} (c : Crypto) (codec : Codec) (calls : ChainCalls Chain) (now : ℤ) where
  record_prepare-Keeps :
      (handler : Handler Chain) (m : PbftMessage) (s : ConsensusState) (e : Engine Chain)
      → HandlerOk handler
      → is_validator e.validators m.sender ≡ true
      → StateOk e.validators s
      → EngineOk e
      → EngineOk (Handlers.record_prepare c codec calls now handler m s e).1
  unfolding Handlers.record_prepare
  record_prepare-Keeps handler m s e h known one v =
      let s' = add_prepare_msg m s in
      let added = add_prepare_msg-StateOk e.validators s one m known in
      let stored = put_state-EngineOk s' m.seq_number e v added in
      elim (Bool-cases (ltb (rank s'.state) (rank prepared))) [
        | inr late ↦ rw late stored
        | inl early ↦ elim (Bool-cases (has_prepared (quorum e.validators) s')) [
          | inr few ↦ rw (early, few) stored
          | inl many ↦
              rw (early, many)
                (broadcast_commit-Keeps c codec calls now handler m.seq_number s'.block_hash h
                  (put_state (record s' { state = prepared }) m.seq_number e)
                  (put_state-EngineOk _ m.seq_number e v
                    (prepared-StateOk e.validators s' added many)))
        ]
      ]

  check_prepare-Keeps :
      (handler : Handler Chain) (m : PbftMessage) (s : ConsensusState) (hash : Option Hash)
      (e : Engine Chain)
      → HandlerOk handler
      → is_validator e.validators m.sender ≡ true
      → StateOk e.validators s
      → EngineOk e
      → EngineOk (Handlers.check_prepare c codec calls now handler m s hash e).1
  unfolding Handlers.check_prepare
  check_prepare-Keeps handler m s none e h known one v = v
  check_prepare-Keeps handler m s (some hash) e h known one v =
      elim (Bool-cases (bytes_eq hash s.block_hash)) [
        | inl same ↦ rw same (record_prepare-Keeps handler m s e h known one v)
        | inr other ↦ rw other v
      ]

  require_pre_prepare-Keeps :
      (handler : Handler Chain) (m : PbftMessage) (s : ConsensusState) (p : Option PbftMessage)
      (e : Engine Chain)
      → HandlerOk handler
      → is_validator e.validators m.sender ≡ true
      → StateOk e.validators s
      → EngineOk e
      → EngineOk (Handlers.require_pre_prepare c codec calls now handler m s p e).1
  unfolding Handlers.require_pre_prepare
  require_pre_prepare-Keeps handler m s none e h known one v = v
  require_pre_prepare-Keeps handler m s (some p) e h known one v =
      check_prepare-Keeps handler m s (codec.decode_hash m.payload) e h known one v

  -- The state is there from now on, and is the one that was looked up.
  prepare_body-Keeps :
      (handler : Handler Chain) (m : PbftMessage) (e : Engine Chain)
      → HandlerOk handler
      → is_validator e.validators m.sender ≡ true
      → EngineOk e
      → EngineOk (Handlers.prepare_body c codec calls now handler m e).1
  unfolding Handlers.prepare_body Handlers.ensure_state put_state
  prepare_body-Keeps handler m e h known v = elim (Option-cases (get e.states m.seq_number)) [
    | inl missing ↦
        let fresh = new_consensus_state m.view m.seq_number in
        let fresh_ok = new_consensus_state-StateOk e.validators m.view m.seq_number in
        rw (missing, Handlers.ensure_state)
          (require_pre_prepare-Keeps handler m fresh fresh.pre_prepare_msg
            (put_state fresh m.seq_number e) h known fresh_ok
            (put_state-EngineOk fresh m.seq_number e v fresh_ok))
    | inr (s, found) ↦
        rw (found, Handlers.ensure_state)
          (require_pre_prepare-Keeps handler m s s.pre_prepare_msg e h known (v _ s found) v)
  ]

  pub handle_prepare-Keeps :
      (handler : Handler Chain) (m : PbftMessage) (e : Engine Chain)
      → HandlerOk handler
      → is_validator e.validators m.sender ≡ true
      → EngineOk e
      → EngineOk (Handlers.handle_prepare c codec calls now handler m e).1
  unfolding Handlers.handle_prepare with_states_lock
  handle_prepare-Keeps handler m e h known v = elim (Bool-cases (can_lock e.states_mu)) [
    | inl free_lock ↦ rw free_lock (
        release-EngineOk _ _
          (prepare_body-Keeps handler m (record e { states_mu = writing }) h known v))
    | inr held ↦ rw held v
  ]

  after_add_block-Keeps :
      (block : Block) (r : Outcome (Unit {0}) Chain)
      → Keeps (Handlers.after_add_block c codec calls now block r)
  unfolding Handlers.after_add_block Handlers.deliver
  after_add_block-Keeps block (ok chain) e v = elim (Bool-cases e.commit_handler_set) [
    | inl set ↦ rw set v
    | inr unset ↦ rw unset v
  ]
  after_add_block-Keeps block (err x) e v = v
  after_add_block-Keeps block panic e v = v
  after_add_block-Keeps block blocked e v = v

  add_payload_block-Keeps :
      (p : Option PrePreparePayload) → Keeps (Handlers.add_payload_block c codec calls now p)
  unfolding Handlers.add_payload_block
  add_payload_block-Keeps none e v = v
  add_payload_block-Keeps (some p) e v = elim (Option-cases p.block_data) [
    | inl missing ↦ simp missing v
    | inr (block, found) ↦
        simp found (after_add_block-Keeps block (calls.add_block block e.chain) e v)
  ]

  commit_state-Keeps :
      (s : Option ConsensusState) → Keeps (Handlers.commit_state c codec calls now s)
  unfolding Handlers.commit_state
  commit_state-Keeps none e v = v
  commit_state-Keeps (some s) e v = elim (Option-cases s.pre_prepare_msg) [
    | inl missing ↦ simp missing v
    | inr (m, found) ↦ simp found (add_payload_block-Keeps (codec.decode_pre_prepare m.payload) e v)
  ]

  pub commit_block-Keeps : (seq : ℕ) → Keeps (Handlers.commit_block c codec calls now seq)
  unfolding Handlers.commit_block
  commit_block-Keeps seq e v = elim (Bool-cases (can_read e.states_mu)) [
    | inl free_lock ↦ rw free_lock (commit_state-Keeps (get e.states seq) e v)
    | inr held ↦ rw held v
  ]

  record_commit-Keeps :
      (m : PbftMessage) (s : ConsensusState) (e : Engine Chain)
      → is_validator e.validators m.sender ≡ true
      → StateOk e.validators s
      → EngineOk e
      → EngineOk (Handlers.record_commit c codec calls now m s e).1
  unfolding Handlers.record_commit
  record_commit-Keeps m s e known one v =
      let s' = add_commit_msg m s in
      let added = add_commit_msg-StateOk e.validators s one m known in
      let stored = put_state-EngineOk s' m.seq_number e v added in
      elim (Bool-cases (ltb (rank s'.state) (rank committed))) [
        | inr late ↦ rw late stored
        | inl early ↦ elim (Bool-cases (has_committed (quorum e.validators) s')) [
          | inr few ↦ rw (early, few) stored
          | inl many ↦
              rw (early, many)
                (commit_block-Keeps m.seq_number
                  (put_state (record s' { state = committed }) m.seq_number e)
                  (put_state-EngineOk _ m.seq_number e v
                    (committed-StateOk e.validators s' added many)))
        ]
      ]

  check_commit-Keeps :
      (m : PbftMessage) (s : ConsensusState) (hash : Option Hash) (e : Engine Chain)
      → is_validator e.validators m.sender ≡ true
      → StateOk e.validators s
      → EngineOk e
      → EngineOk (Handlers.check_commit c codec calls now m s hash e).1
  unfolding Handlers.check_commit
  check_commit-Keeps m s none e known one v = v
  check_commit-Keeps m s (some hash) e known one v =
      elim (Bool-cases (bytes_eq hash s.block_hash)) [
        | inl same ↦ rw same (record_commit-Keeps m s e known one v)
        | inr other ↦ rw other v
      ]

  commit_body-Keeps :
      (m : PbftMessage) (e : Engine Chain)
      → is_validator e.validators m.sender ≡ true
      → EngineOk e
      → EngineOk (Handlers.commit_body c codec calls now m e).1
  unfolding Handlers.commit_body
  commit_body-Keeps m e known v = elim (Option-cases (get e.states m.seq_number)) [
    | inl missing ↦ rw (missing, Handlers.commit_body) v
    | inr (s, found) ↦
        rw (found, Handlers.commit_body)
          (check_commit-Keeps m s (codec.decode_hash m.payload) e known (v m.seq_number s found) v)
  ]

  pub handle_commit-Keeps :
      (m : PbftMessage) (e : Engine Chain)
      → is_validator e.validators m.sender ≡ true
      → EngineOk e
      → EngineOk (Handlers.handle_commit c codec calls now m e).1
  unfolding Handlers.handle_commit with_states_lock
  handle_commit-Keeps m e known v = elim (Bool-cases (can_lock e.states_mu)) [
    | inl free_lock ↦
        rw free_lock
          (release-EngineOk _ _ (commit_body-Keeps m (record e { states_mu = writing }) known v))
    | inr held ↦ rw held v
  ]
