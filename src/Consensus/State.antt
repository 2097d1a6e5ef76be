-- ===== src/Consensus/State.antt =====
-- internal/core/consensus/types.go: the state of one sequence number, and of a view change.
use v2v_blockchain.Prelude.{ℕ, ◌-◌, Bool, false, Option, none, some, [], leb}
use v2v_blockchain.Prelude.Eq.{bytes_Eq}
use v2v_blockchain.Prelude.GoMap.{GoMap, put, size}
use v2v_blockchain.Bytes.{Hash, Address, empty_hash}
use v2v_blockchain.Consensus.Message.{PbftMessage}

pub data NodeState : Type 0 where
  idle pre_prepared prepared committed view_changing : NodeState

-- The number behind the name, for `<` and `>=`.
abbrev pub rank : NodeState → ℕ
rank idle = 0
rank pre_prepared = 1
rank prepared = 2
rank committed = 3
rank view_changing = 4

-- PreparedProof and CommittedProof are never set nor read.
pub record ConsensusState : Type 0 where
  pub view : ℕ
  pub seq_number : ℕ
  pub block_hash : Hash
  pub pre_prepare_msg : Option PbftMessage
  pub prepare_msgs : GoMap Address PbftMessage
  pub commit_msgs : GoMap Address PbftMessage
  pub state : NodeState

unfoldable pub new_consensus_state : ℕ → ℕ → ConsensusState
new_consensus_state view seq = record {
  view = view;
  seq_number = seq;
  block_hash = empty_hash;
  pre_prepare_msg = none;
  prepare_msgs = [];
  commit_msgs = [];
  state = idle;
}

unfoldable pub add_prepare_msg : PbftMessage → ConsensusState → ConsensusState
add_prepare_msg m cs = record cs { prepare_msgs = put cs.prepare_msgs m.sender m }

unfoldable pub add_commit_msg : PbftMessage → ConsensusState → ConsensusState
add_commit_msg m cs = record cs { commit_msgs = put cs.commit_msgs m.sender m }

-- `quorum` is at least 1, so quorum - 1 does not go below zero.
unfoldable pub has_prepared : ℕ → ConsensusState → Bool
has_prepared quorum cs = elim cs.pre_prepare_msg [
  | none ↦ false
  | some m ↦ leb (quorum - 1) (size cs.prepare_msgs)
]

unfoldable pub has_committed : ℕ → ConsensusState → Bool
has_committed quorum cs = leb quorum (size cs.commit_msgs)

pub record ViewChangeState : Type 0 where
  pub new_view_number : ℕ
  pub view_changes : GoMap Address PbftMessage

abbrev pub new_view_change_state : ℕ → ViewChangeState
new_view_change_state view = record { new_view_number = view; view_changes = [] }

unfoldable pub add_view_change : PbftMessage → ViewChangeState → ViewChangeState
add_view_change m vcs = record vcs { view_changes = put vcs.view_changes m.sender m }
