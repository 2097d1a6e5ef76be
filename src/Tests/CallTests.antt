-- ===== src/Tests/CallTests.antt =====
-- pbft.go: single calls on a small engine.
use v2v_blockchain.Prelude.{
  ◌≤◌, ◌≡◌, ◌⊎◌, refl, true, none, some, List, [], ◌∷◌, ◌++◌, length, replicate, ok, err, blocked,
  arith,
}
use v2v_blockchain.Prelude.Int.{pos}
use v2v_blockchain.Prelude.Eq.{bytes_eq, bytes_Eq, numbers_Eq}
use v2v_blockchain.Prelude.Lock.{writing}
use v2v_blockchain.Prelude.GoMap.{get, put}
use v2v_blockchain.Bytes.{empty_hash, Collision}
use v2v_blockchain.Block.{Block, Transaction}
use v2v_blockchain.Consensus.Message.{
  commit, new_view, PbftMessage, PrePreparePayload, NewViewPayload, digest_mismatch,
  serialize_for_sign, calculate_digest, with_digest, sign_message, verify_message,
}
use v2v_blockchain.Consensus.Message.Signed.{verify_message-sign_message}
use v2v_blockchain.Consensus.State.{ConsensusState, committed, idle, add_commit_msg, has_committed}
use v2v_blockchain.Consensus.ValidatorSet.{
  ValidatorSet, quorum, is_validator, get_primary, update_view,
}
use v2v_blockchain.Consensus.Engine.{
  Engine, not_expected_primary, in_pool, submit_transaction, get_pending_transactions,
}
use v2v_blockchain.Consensus.Engine.Pools.{
  get_pending_transactions_lem, get_pending_transactions-submit_transaction,
}
use v2v_blockchain.Consensus.Handlers
use v2v_blockchain.Consensus.Handlers.Quorums.{handle_commit-chain, handle_commit-quorum}
use v2v_blockchain.Consensus.ViewChange.{handle_message, node_handler, handle_new_view}
use v2v_blockchain.Consensus.ViewChange.NewView.{handle_new_view-view, handle_new_view-wrong_sender}
use v2v_blockchain.Consensus.ViewChange.Authentic.{
  handle_message-authentic, handle_pre_prepare-authentic,
}
use v2v_blockchain.Consensus.Run.Depth.{node_handler_enough}
use v2v_blockchain.Tests.Samples.{
  sample_crypto, sample_digest, sample_codec, sample_calls, sample_engine, sample_message,
  only_owner, owner, other_owner, payment,
}

abbrev unsigned : PbftMessage
unsigned = record (sample_message commit empty_hash) { signature = [] }

abbrev signed : PbftMessage
signed = record (sample_message commit (sample_digest empty_hash)) { signature = replicate 65 1 }

verify_message-sign_message_example :
    (verify_message (sample_crypto owner) sample_codec signed ≡ err digest_mismatch)
    ⊎ Collision sample_digest
unfolding sign_message with_digest calculate_digest serialize_for_sign bytes_eq
verify_message-sign_message_example =
    verify_message-sign_message (sample_crypto owner) sample_codec unsigned signed (1 ∷ []) refl
      (λ d d' same. same) (λ same. cc same) refl

abbrev busy : Engine (List Block)
busy = record (sample_engine only_owner) {
  high_priority_pool = payment ∷ payment ∷ [];
  request_pool = record payment { value = 8; hash = replicate 32 1 } ∷ [];
}

get_pending_transactions_lem_example :
    (high : List Transaction) × (low : List Transaction) × ((get_pending_transactions 1 busy).0
      ≡ high ++ low)
    × (high ++ (get_pending_transactions 1 busy).1.high_priority_pool ≡ busy.high_priority_pool)
    × (low ++ (get_pending_transactions 1 busy).1.request_pool ≡ busy.request_pool)
    × ((low ≡ []) ⊎ ((get_pending_transactions 1 busy).1.high_priority_pool ≡ []))
    × (length (high ++ low) ≡ 1)
get_pending_transactions_lem_example = get_pending_transactions_lem 1 busy

get_pending_transactions-submit_transaction_example :
    let (r, e') = submit_transaction payment true busy in
    let (txs, e'') = get_pending_transactions 4 e' in
    (r ≡ ok tt)
    × (txs ≡ (busy.high_priority_pool ++ payment ∷ []) ++ busy.request_pool)
    × (e''.high_priority_pool ≡ [])
    × (e''.request_pool ≡ [])
unfolding in_pool bytes_eq
get_pending_transactions-submit_transaction_example =
    get_pending_transactions-submit_transaction 4 busy payment true refl (omega arith)

abbrev vote : PbftMessage
vote = sample_message commit (sample_digest empty_hash)

abbrev waiting : ConsensusState
waiting = record {
  view = 0;
  seq_number = 1;
  block_hash = replicate 32 9;
  pre_prepare_msg = some vote;
  prepare_msgs = [];
  commit_msgs = [];
  state = idle;
}

abbrev one_short : Engine (List Block)
one_short = record (sample_engine only_owner) { states = (1, waiting) ∷ [] }

handle_commit-chain_example :
    ((Handlers.handle_commit
        (sample_crypto owner)
        sample_codec
        sample_calls
        (pos 0)
        vote
        one_short).1.chain
      ≡ [])
    × ((Handlers.handle_commit
          (sample_crypto owner)
          sample_codec
          sample_calls
          (pos 0)
          vote
          one_short).1.blocks_committed
        ≡ 0)
    × ((Handlers.handle_commit
          (sample_crypto owner)
          sample_codec
          sample_calls
          (pos 0)
          vote
          one_short).1.delivered
        ≡ [])
handle_commit-chain_example =
    handle_commit-chain (sample_crypto owner) sample_codec sample_calls (pos 0) vote one_short

handle_commit-quorum_example :
    ((Handlers.handle_commit
        (sample_crypto owner)
        sample_codec
        sample_calls
        (pos 0)
        vote
        one_short).0
      ≡ blocked)
    × (get
          (Handlers.handle_commit
            (sample_crypto owner)
            sample_codec
            sample_calls
            (pos 0)
            vote
            one_short).1.states
          1
        ≡ some (record (add_commit_msg vote waiting) { state = committed }))
    × ((Handlers.handle_commit
          (sample_crypto owner)
          sample_codec
          sample_calls
          (pos 0)
          vote
          one_short).1.states_mu
        ≡ writing)
unfolding get has_committed add_commit_msg quorum put bytes_eq
handle_commit-quorum_example =
    handle_commit-quorum (sample_crypto owner) sample_codec sample_calls (pos 0) vote one_short
      waiting refl refl refl refl refl

abbrev two : ValidatorSet
two = record { validators = owner ∷ other_owner ∷ []; primary_idx = 0; view_number = 0 }

abbrev announcement : PbftMessage
announcement = sample_message new_view (sample_digest empty_hash)

abbrev one_of_two : Engine (List Block)
one_of_two = sample_engine two

handle_new_view-view_example :
    let e' =
      (handle_new_view
        (sample_crypto owner)
        sample_codec
        sample_calls
        (pos 0)
        announcement
        one_of_two).1 in
    (e'.view ≡ one_of_two.view)
    ⊎ ((p : NewViewPayload) × (sample_codec.decode_new_view announcement.payload ≡ some p)
        × (get_primary (update_view two p.new_view_number) ≡ some announcement.sender)
        × (quorum two ≤ length p.view_change_proofs)
        × (e'.view ≡ record {
          number = p.new_view_number;
          primary_node = announcement.sender;
          timestamp = pos 0;
        }))
handle_new_view-view_example =
    handle_new_view-view (sample_crypto owner) sample_codec sample_calls (pos 0) announcement
      one_of_two

-- The primary of view 1 is the second validator, and the first one announces the view.
handle_new_view-wrong_sender_example :
    let (r, e') =
      handle_new_view
        (sample_crypto owner)
        sample_codec
        sample_calls
        (pos 0)
        announcement
        one_of_two in
    (r ≡ err not_expected_primary) × (e'.validators.view_number ≡ 1) × (e'.view ≡ one_of_two.view)
unfolding get_primary update_view
handle_new_view-wrong_sender_example =
    handle_new_view-wrong_sender (sample_crypto owner) sample_codec sample_calls (pos 0)
      announcement one_of_two (record { new_view_number = 1; view_change_proofs = [] }) other_owner
      refl refl (λ same. cc same)

handle_message-authentic_example :
    ((handle_message (sample_crypto owner) sample_codec sample_calls (pos 0) none vote one_short).1
      ≡ one_short)
    ⊎ (((sample_crypto owner).recover
            (calculate_digest (sample_crypto owner) sample_codec vote)
            vote.signature
          ≡ some owner)
        × (is_validator only_owner owner ≡ true))
handle_message-authentic_example =
    handle_message-authentic (sample_crypto owner) sample_codec sample_calls (pos 0) none vote
      one_short

handle_pre_prepare-authentic_example :
    ((Handlers.handle_pre_prepare
        (sample_crypto owner)
        sample_codec
        sample_calls
        (pos 0)
        none
        vote
        one_short).1
      ≡ one_short)
    ⊎ ((q : PrePreparePayload) × (block : Block) × (vote.view ≡ one_short.view.number)
        × (get_primary only_owner ≡ some owner)
        × (sample_codec.decode_pre_prepare vote.payload ≡ some q)
        × (q.block_data ≡ some block))
handle_pre_prepare-authentic_example =
    handle_pre_prepare-authentic (sample_crypto owner) sample_codec sample_calls (pos 0) none vote
      one_short

node_handler_enough_example :
    handle_message
      (sample_crypto owner)
      sample_codec
      sample_calls
      (pos 0)
      (node_handler (sample_crypto owner) sample_codec sample_calls (pos 0) 5)
      vote
      one_short
    ≡ handle_message
        (sample_crypto owner)
        sample_codec
        sample_calls
        (pos 0)
        (node_handler (sample_crypto owner) sample_codec sample_calls (pos 0) 2)
        vote
        one_short
node_handler_enough_example =
    node_handler_enough (sample_crypto owner) sample_codec sample_calls (pos 0) 3 vote one_short
