-- ===== src/Consensus/Handlers.antt =====
-- internal/core/consensus/pbft.go: the handlers of the protocol's messages.
pub mod Quorums
use v2v_blockchain.Prelude.{
  ℕ, zero, suc, ◌+◌, ◌<◌, ◌≡◌, Bool, true, false, not, ◌&&◌, ◌||◌, Option, none, some, List, [],
  ◌∷◌, ◌++◌, map, length, ltb, leb, ◌==◌, if◌then◌else◌, Outcome, ok, err, panic, blocked,
}
use v2v_blockchain.Prelude.Int.{ℤ}
use v2v_blockchain.Prelude.Eq.{bytes_eq, bytes_Eq, numbers_Eq}
use v2v_blockchain.Prelude.Lock.{Lock, free, can_lock, can_read}
use v2v_blockchain.Prelude.GoMap.{GoMap, get, put, size}
use v2v_blockchain.Bytes.{Bytes, Hash, Address, empty_hash}
use v2v_blockchain.Block.{Block, Transaction, sign_block}
use v2v_blockchain.Crypto.{Crypto}
use v2v_blockchain.Consensus.Message.{
  MessageType, request, pre_prepare, prepare, commit, view_change, new_view, checkpoint,
  PbftMessage, PrePreparePayload, Proof, ViewChangePayload, NewViewPayload, Codec, VerifyError,
  verify_message,
}
use v2v_blockchain.Consensus.State.{
  ConsensusState, ViewChangeState, NodeState, prepared, committed, rank, new_consensus_state,
  add_prepare_msg, add_commit_msg, has_prepared, has_committed, new_view_change_state,
  add_view_change,
}
use v2v_blockchain.Consensus.ValidatorSet.{
  ValidatorSet, quorum, get_primary, is_validator, update_view,
}
use v2v_blockchain.Consensus.Engine.{
  Engine, View, NodeRole, primary, replica, follower, PbftError, verification_failed,
  not_a_validator, unknown_message_type, view_mismatch, not_from_primary, bad_payload, block_is_nil,
  no_pre_prepare, hash_mismatch, no_consensus_state, cannot_commit, add_block_failed, sign_failed,
  only_primary, no_transactions, not_expected_primary, insufficient_proofs, Step, Handler,
  with_states_lock, with_vc_lock, put_state, get_pending_transactions, send, broadcast_prepare,
  broadcast_commit,
}

-- What the engine calls of the blockchain: AddBlock, with the chain that it leaves where it succeeds,
-- and GetLatestHeight and CreateBlock, which are taken to return.
pub record ChainCalls (Chain : Type 0) : Type 0 where
  pub add_block : Block → Chain → Outcome (Unit {0}) Chain
  pub latest_height : Chain → ℕ
  pub create_block : List Transaction → Address → Chain → Block

abbrev pub state_or_new : Option ConsensusState → ℕ → ℕ → ConsensusState
state_or_new none view seq = new_consensus_state view seq
state_or_new (some s) view seq = s

unfoldable pub takes_part : NodeRole → Bool
takes_part primary = true
takes_part replica = true
takes_part _ = false

module _ {Chain : Type 0} (c : Crypto) (codec : Codec) (calls : ChainCalls Chain) (now : ℤ) where
  unfoldable pub accept_pre_prepare : PbftMessage → Hash → Engine Chain → Engine Chain
  accept_pre_prepare m hash e =
      let s = state_or_new (get e.states m.seq_number) m.view m.seq_number in
      put_state (record s { pre_prepare_msg = some m; block_hash = hash }) m.seq_number e

  -- The statesMu section of handlePrePrepare, and what follows it.
  unfoldable pub store_pre_prepare : Handler Chain → PbftMessage → Hash → Step Chain
  store_pre_prepare handler m hash e =
      if can_lock e.states_mu
      then (let e' = accept_pre_prepare m hash e in
          if takes_part e.role
          then broadcast_prepare c codec now handler m.seq_number hash e'
          else (ok tt, e'))
      else (blocked, e)

  unfoldable pub on_pre_prepare_payload :
      Handler Chain → PbftMessage → Option PrePreparePayload → Step Chain
  on_pre_prepare_payload handler m none e = (err bad_payload, e)
  on_pre_prepare_payload handler m (some p) e = elim p.block_data [
    | none ↦ (err block_is_nil, e)
    | some block ↦ store_pre_prepare handler m p.block_hash e
  ]

  unfoldable pub from_primary : Handler Chain → PbftMessage → Option Address → Step Chain
  from_primary handler m none e = (panic, e)
  from_primary handler m (some primary_node) e =
      if bytes_eq m.sender primary_node
      then on_pre_prepare_payload handler m (codec.decode_pre_prepare m.payload) e
      else (err not_from_primary, e)

  unfoldable pub handle_pre_prepare : Handler Chain → PbftMessage → Step Chain
  handle_pre_prepare handler m e =
      if m.view == e.view.number
      then from_primary handler m (get_primary e.validators) e
      else (err view_mismatch, e)

  unfoldable pub record_prepare : Handler Chain → PbftMessage → ConsensusState → Step Chain
  record_prepare handler m s e =
      let s' = add_prepare_msg m s in
      if ltb (rank s'.state) (rank prepared) && has_prepared (quorum e.validators) s'
      then broadcast_commit c codec now handler m.seq_number s'.block_hash
          (put_state (record s' { state = prepared }) m.seq_number e)
      else (ok tt, put_state s' m.seq_number e)

  unfoldable pub check_prepare :
      Handler Chain → PbftMessage → ConsensusState → Option Hash → Step Chain
  check_prepare handler m s none e = (err bad_payload, e)
  check_prepare handler m s (some hash) e =
      if bytes_eq hash s.block_hash then record_prepare handler m s e else (err hash_mismatch, e)

  unfoldable pub require_pre_prepare :
      Handler Chain → PbftMessage → ConsensusState → Option PbftMessage → Step Chain
  require_pre_prepare handler m s none e = (err no_pre_prepare, e)
  require_pre_prepare handler m s (some p) e =
      check_prepare handler m s (codec.decode_hash m.payload) e

  unfoldable pub ensure_state : PbftMessage → Engine Chain → Engine Chain
  ensure_state m e = elim (get e.states m.seq_number) [
    | none ↦ put_state (new_consensus_state m.view m.seq_number) m.seq_number e
    | some s ↦ e
  ]

  -- The whole handler runs under the lock, the local handler of the commit message too.
  unfoldable pub prepare_body : Handler Chain → PbftMessage → Step Chain
  prepare_body handler m e =
      let s = state_or_new (get e.states m.seq_number) m.view m.seq_number in
      require_pre_prepare handler m s s.pre_prepare_msg (ensure_state m e)

  unfoldable pub handle_prepare : Handler Chain → PbftMessage → Step Chain
  handle_prepare handler m = with_states_lock (prepare_body handler m)

  unfoldable pub deliver : Block → Engine Chain → Engine Chain
  deliver block e =
      if e.commit_handler_set then record e { delivered = e.delivered ++ block ∷ [] } else e

  unfoldable pub after_add_block : Block → Outcome (Unit {0}) Chain → Step Chain
  after_add_block block (ok chain) e =
      (ok tt, deliver block (record e { chain = chain; blocks_committed = e.blocks_committed + 1 }))
  after_add_block block (err x) e = (err add_block_failed, e)
  after_add_block block panic e = (panic, e)
  after_add_block block blocked e = (blocked, e)

  unfoldable pub add_payload_block : Option PrePreparePayload → Step Chain
  add_payload_block none e = (err bad_payload, e)
  add_payload_block (some p) e = elim p.block_data [
    | none ↦ (panic, e)
    | some block ↦ after_add_block block (calls.add_block block e.chain) e
  ]

  unfoldable pub commit_state : Option ConsensusState → Step Chain
  commit_state none e = (err cannot_commit, e)
  commit_state (some s) e = elim s.pre_prepare_msg [
    | none ↦ (err cannot_commit, e)
    | some m ↦ add_payload_block (codec.decode_pre_prepare m.payload) e
  ]

  -- commitBlock reads the states under RLock.
  unfoldable pub commit_block : ℕ → Step Chain
  commit_block seq e =
      if can_read e.states_mu then commit_state (get e.states seq) e else (blocked, e)

  unfoldable pub record_commit : PbftMessage → ConsensusState → Step Chain
  record_commit m s e =
      let s' = add_commit_msg m s in
      if ltb (rank s'.state) (rank committed) && has_committed (quorum e.validators) s'
      then commit_block m.seq_number (put_state (record s' { state = committed }) m.seq_number e)
      else (ok tt, put_state s' m.seq_number e)

  unfoldable pub check_commit : PbftMessage → ConsensusState → Option Hash → Step Chain
  check_commit m s none e = (err bad_payload, e)
  check_commit m s (some hash) e =
      if bytes_eq hash s.block_hash then record_commit m s e else (err hash_mismatch, e)

  unfoldable pub commit_body : PbftMessage → Step Chain
  commit_body m e = elim (get e.states m.seq_number) [
    | none ↦ (err no_consensus_state, e)
    | some s ↦ check_commit m s (codec.decode_hash m.payload) e
  ]

  unfoldable pub handle_commit : PbftMessage → Step Chain
  handle_commit m = with_states_lock (commit_body m)
