-- ===== src/Tests/RunTests.antt =====
-- pbft.go: a run in which a sequence number is committed, and single calls.
use v2v_blockchain.Prelude.{◌<◌, ◌≡◌, refl, some, List, [], ◌∷◌, length, replicate}
use v2v_blockchain.Prelude.Int.{pos}
use v2v_blockchain.Prelude.Eq.{bytes_eq, bytes_Eq, numbers_Eq}
use v2v_blockchain.Prelude.GoMap.{get, put, keys}
use v2v_blockchain.Prelude.Distinct.{contains}
use v2v_blockchain.Prelude.Overlap.{common}
use v2v_blockchain.Bytes.{empty_hash}
use v2v_blockchain.Block.{Block}
use v2v_blockchain.Consensus.Message.{
  pre_prepare, commit, PbftMessage, serialize_for_sign, calculate_digest, verify_message,
  check_sender,
}
use v2v_blockchain.Consensus.State.{
  ConsensusState, committed, new_consensus_state, add_commit_msg, has_committed,
}
use v2v_blockchain.Consensus.ValidatorSet.{quorum, fault_tolerance, is_validator, get_primary}
use v2v_blockchain.Consensus.Engine.{Engine, with_states_lock, release, put_state}
use v2v_blockchain.Consensus.Handlers
use v2v_blockchain.Consensus.ViewChange.{dispatch, verified, handle_message, node_handler}
use v2v_blockchain.Consensus.Invariant.{EngineOk}
use v2v_blockchain.Consensus.Run.{Run, begin, receive}
use v2v_blockchain.Consensus.Run.Certificates.{Run-EngineOk, committed-overlap}
use v2v_blockchain.Tests.Samples.{
  sample_crypto, sample_digest, sample_codec, sample_calls, sample_engine, sample_message,
  only_owner, owner,
}

abbrev proposal : PbftMessage
proposal = sample_message pre_prepare (sample_digest empty_hash)

abbrev vote : PbftMessage
vote = sample_message commit (sample_digest empty_hash)

abbrev before : Engine (List Block)
before = sample_engine only_owner

unfoldable step_on : PbftMessage → Engine (List Block) → Engine (List Block)
step_on m e =
    (handle_message (sample_crypto owner) sample_codec sample_calls (pos 0)
      (node_handler (sample_crypto owner) sample_codec sample_calls (pos 0) 0) m e).1

abbrev proposed : Engine (List Block)
proposed = step_on proposal before

abbrev voted : Engine (List Block)
voted = step_on vote proposed

abbrev committed_one : ConsensusState
committed_one = record {
  view = 0;
  seq_number = 1;
  block_hash = replicate 32 9;
  pre_prepare_msg = some proposal;
  prepare_msgs = [];
  commit_msgs = (owner, vote) ∷ [];
  state = committed;
}

voted-Run : Run (sample_crypto owner) sample_codec sample_calls before voted
unfolding step_on
voted-Run = receive (pos 0) 0 vote (receive (pos 0) 0 proposal begin)

Run-EngineOk_example : EngineOk voted
Run-EngineOk_example =
    Run-EngineOk (sample_crypto owner) sample_codec sample_calls before voted refl voted-Run

voted_committed : get voted.states 1 ≡ some committed_one
unfolding step_on handle_message node_handler verified dispatch verify_message check_sender
    calculate_digest serialize_for_sign is_validator contains bytes_eq Handlers.handle_pre_prepare
    Handlers.from_primary Handlers.on_pre_prepare_payload Handlers.store_pre_prepare
    Handlers.accept_pre_prepare Handlers.takes_part Handlers.handle_commit Handlers.commit_body
    Handlers.check_commit Handlers.record_commit Handlers.commit_block get_primary with_states_lock
    release put_state new_consensus_state add_commit_msg has_committed quorum get put
voted_committed = refl

committed-overlap_example :
    fault_tolerance voted.validators
    < length (common (keys committed_one.commit_msgs) (keys committed_one.commit_msgs))
committed-overlap_example =
    committed-overlap (sample_crypto owner) sample_codec sample_calls before before voted voted 1
      committed_one committed_one refl refl voted-Run voted-Run refl voted_committed voted_committed
      refl refl
