-- ===== src/Consensus/Invariant.antt =====
-- pbft.go: what the handlers keep true of the recorded messages, whatever arrives.
pub mod Keeps
pub mod Votes
pub mod Views
use v2v_blockchain.Prelude.{
  ℕ, zero, suc, ◌+◌, ◌<◌, ◌≤◌, ◌≡◌, refl, sym, ◌∙◌, Bool, true, false, ◌&&◌, Option, none, some,
  List, [], ◌∷◌, inl, inr, Bool-cases, Option-cases, arith, ltb, leb, ◌==◌, if◌then◌else◌, Outcome,
  ok, err, panic, blocked, some-eq, ==_iff,
}
use mathlib.Core.Path.{subst}
use v2v_blockchain.Prelude.Int.{ℤ}
use v2v_blockchain.Prelude.Eq.{bytes_eq, bytes_Eq, numbers_Eq}
use v2v_blockchain.Prelude.Distinct.{contains, Distinct, Within}
use v2v_blockchain.Prelude.Lock.{Lock, free, reading, writing, can_lock}
use v2v_blockchain.Prelude.GoMap.{
  GoMap, get, put, keys, size, get-put, put-Distinct, put-Within, size-put-le,
}
use v2v_blockchain.Bytes.{Bytes, Hash, Address}
use v2v_blockchain.Block.{Block, Transaction, sign_block}
use v2v_blockchain.Crypto.{Crypto}
use v2v_blockchain.Consensus.Message.{
  MessageType, request, pre_prepare, prepare, commit, view_change, new_view, checkpoint, unknown,
  PbftMessage, PrePreparePayload, ViewChangePayload, NewViewPayload, Codec, VerifyError,
  verify_message, sign_message,
}
use v2v_blockchain.Consensus.State.{
  ConsensusState, ViewChangeState, NodeState, prepared, committed, rank, new_consensus_state,
  add_prepare_msg, add_commit_msg, has_prepared, has_committed,
}
use v2v_blockchain.Consensus.ValidatorSet.{
  ValidatorSet, quorum, is_validator, update_view, get_primary,
}
use v2v_blockchain.Consensus.Engine.{
  Engine, PbftError, Step, Handler, release, with_states_lock, with_vc_lock, put_state, broadcast,
  wrap, handle_locally, send_signed, send, broadcast_prepare, broadcast_commit,
}
use v2v_blockchain.Consensus.Handlers.{ChainCalls, state_or_new}

-- The messages recorded for one sequence number: at most one of each kind from each sender, all from
-- validators; and a state that is called prepared or committed has had its quorum.
pub record StateOk (vs : ValidatorSet) (s : ConsensusState) : Type 0 where
  pub prepares_distinct : Distinct (keys s.prepare_msgs)
  pub prepares_within : Within (keys s.prepare_msgs) vs.validators
  pub commits_distinct : Distinct (keys s.commit_msgs)
  pub commits_within : Within (keys s.commit_msgs) vs.validators
  pub prepared_quorum : rank s.state ≡ 2 → has_prepared (quorum vs) s ≡ true
  pub committed_quorum : rank s.state ≡ 3 → has_committed (quorum vs) s ≡ true

abbrev pub StatesOk : ValidatorSet → GoMap ℕ ConsensusState → Type 0
StatesOk vs states = (seq : ℕ) (s : ConsensusState) → get states seq ≡ some s → StateOk vs s

abbrev pub EngineOk : {Chain : Type 0} → Engine Chain → Type 0
EngineOk e = StatesOk e.validators e.states

module _ (vs : ValidatorSet) where
  pub new_consensus_state-StateOk : (view seq : ℕ) → StateOk vs (new_consensus_state view seq)
  unfolding new_consensus_state
  new_consensus_state-StateOk view seq = record {
    prepares_distinct = tt;
    prepares_within = tt;
    commits_distinct = tt;
    commits_within = tt;
    prepared_quorum = λ h. absurd (omega arith);
    committed_quorum = λ h. absurd (omega arith);
  }

  module _ (s : ConsensusState) (v : StateOk vs s) where
    pub accept-StateOk :
        (m : PbftMessage) (hash : Hash)
        → StateOk vs (record s { pre_prepare_msg = some m; block_hash = hash })
    unfolding has_prepared has_committed
    accept-StateOk m hash = record {
      prepares_distinct = v.prepares_distinct;
      prepares_within = v.prepares_within;
      commits_distinct = v.commits_distinct;
      commits_within = v.commits_within;
      prepared_quorum = λ h. ground (arith, v.prepared_quorum h);
      committed_quorum = v.committed_quorum;
    }

    pub add_prepare_msg-StateOk :
        (m : PbftMessage) → is_validator vs m.sender ≡ true → StateOk vs (add_prepare_msg m s)
    unfolding add_prepare_msg has_prepared has_committed is_validator
    add_prepare_msg-StateOk m known = record {
      prepares_distinct = put-Distinct s.prepare_msgs m.sender m v.prepares_distinct;
      prepares_within = put-Within s.prepare_msgs m.sender m vs.validators known v.prepares_within;
      commits_distinct = v.commits_distinct;
      commits_within = v.commits_within;
      prepared_quorum =
          λ h. ground (arith, v.prepared_quorum h, size-put-le s.prepare_msgs m.sender m);
      committed_quorum = v.committed_quorum;
    }

    pub add_commit_msg-StateOk :
        (m : PbftMessage) → is_validator vs m.sender ≡ true → StateOk vs (add_commit_msg m s)
    unfolding add_commit_msg has_prepared has_committed is_validator
    add_commit_msg-StateOk m known = record {
      prepares_distinct = v.prepares_distinct;
      prepares_within = v.prepares_within;
      commits_distinct = put-Distinct s.commit_msgs m.sender m v.commits_distinct;
      commits_within = put-Within s.commit_msgs m.sender m vs.validators known v.commits_within;
      prepared_quorum = v.prepared_quorum;
      committed_quorum =
          λ h. ground (arith, v.committed_quorum h, size-put-le s.commit_msgs m.sender m);
    }

    pub prepared-StateOk :
        has_prepared (quorum vs) s ≡ true → StateOk vs (record s { state = prepared })
    unfolding has_prepared has_committed
    prepared-StateOk h = record {
      prepares_distinct = v.prepares_distinct;
      prepares_within = v.prepares_within;
      commits_distinct = v.commits_distinct;
      commits_within = v.commits_within;
      prepared_quorum = λ r. h;
      committed_quorum = λ r. absurd (omega arith);
    }

    pub committed-StateOk :
        has_committed (quorum vs) s ≡ true → StateOk vs (record s { state = committed })
    unfolding has_prepared has_committed
    committed-StateOk h = record {
      prepares_distinct = v.prepares_distinct;
      prepares_within = v.prepares_within;
      commits_distinct = v.commits_distinct;
      commits_within = v.commits_within;
      prepared_quorum = λ r. absurd (omega arith);
      committed_quorum = λ r. h;
    }

  pub put-StatesOk :
      (states : GoMap ℕ ConsensusState) (seq : ℕ) (s : ConsensusState)
      → StatesOk vs states
      → StateOk vs s
      → StatesOk vs (put states seq s)
  put-StatesOk states seq s all one j t h = elim (Bool-cases (seq == j)) [
    | inl same ↦ subst (StateOk vs) (some-eq (sym (rw (get-put states seq j s, same) refl) ∙ h)) one
    | inr other ↦ all j t (sym (rw (get-put states seq j s, other) refl) ∙ h)
  ]
