-- ===== src/Consensus/Run/Certificates.antt =====
-- pbft.go: what a state called prepared or committed stands for, in every run.
use v2v_blockchain.Prelude.{ℕ, ◌≡◌, ◌≤◌, ◌<◌, ◌+◌, ◌*◌, ◌/◌, refl, sym, some, [], length, arith}
use mathlib.Core.Path.{subst}
use v2v_blockchain.Prelude.Distinct.{Within}
use v2v_blockchain.Prelude.Overlap.{common}
use v2v_blockchain.Prelude.Eq.{bytes_Eq, numbers_Eq}
use v2v_blockchain.Prelude.GoMap.{get, keys, length-keys}
use v2v_blockchain.Crypto.{Crypto}
use v2v_blockchain.Consensus.Message.{Codec}
use v2v_blockchain.Consensus.State.{ConsensusState, committed, has_committed}
use v2v_blockchain.Consensus.ValidatorSet.{quorum, fault_tolerance}
use v2v_blockchain.Consensus.Quorum.{quorum-overlap}
use v2v_blockchain.Consensus.Engine.{Engine}
use v2v_blockchain.Consensus.Handlers.{ChainCalls}
use v2v_blockchain.Consensus.Invariant.{StatesOk, EngineOk}
use v2v_blockchain.Consensus.Invariant.Views.{
  handle_message-Keeps, node_handler-HandlerOk, initiate_view_change-Keeps, propose_block-Keeps,
  submit_transaction-Keeps,
}
use v2v_blockchain.Consensus.Run.{Run, begin, receive, time_out, propose, submit}

module _ {Chain : Type 0} (c : Crypto) (codec : Codec) (calls : ChainCalls Chain) where
  -- Every engine that a run from an engine without recorded states reaches has, for each sequence
  -- number: at most one prepare and one commit message from each sender, all of them from validators;
  -- a pre-prepare and quorum - 1 prepare messages where the state is prepared; and a quorum of commit
  -- messages where it is committed. The messages, their order, the local handler's depth and the
  -- outcomes of the steps, which may fail, panic or block, are arbitrary.
  pub Run-EngineOk :
      (start e : Engine Chain) → start.states ≡ [] → Run c codec calls start e → EngineOk e
  unfolding get
  Run-EngineOk start e empty begin =
      subst (StatesOk start.validators) (sym empty) (λ seq s found. absurd (cc found))
  Run-EngineOk start e empty (receive now depth m run) =
      handle_message-Keeps c codec calls now _ m (node_handler-HandlerOk c codec calls now depth) _
        (Run-EngineOk start _ empty run)
  Run-EngineOk start e empty (time_out now depth run) =
      initiate_view_change-Keeps c codec calls now _
        (node_handler-HandlerOk c codec calls now depth) _ (Run-EngineOk start _ empty run)
  Run-EngineOk start e empty (propose now depth run) =
      propose_block-Keeps c codec calls now _ (node_handler-HandlerOk c codec calls now depth) _
        (Run-EngineOk start _ empty run)
  Run-EngineOk start e empty (submit tx high_priority run) =
      submit_transaction-Keeps tx high_priority _ (Run-EngineOk start _ empty run)

  committed_senders :
      (e : Engine Chain) (seq : ℕ) (s : ConsensusState)
      → EngineOk e
      → get e.states seq ≡ some s
      → s.state ≡ committed
      → quorum e.validators ≤ length (keys s.commit_msgs)
  unfolding has_committed
  committed_senders e seq s v found done =
      ground (arith, (v seq s found).committed_quorum (rw done refl), length-keys s.commit_msgs)

  -- Where the engines of two nodes with the same validators both reach committed for a sequence
  -- number, each by a run from an engine without recorded states, more than f = FaultTolerance()
  -- validators have a commit message for that sequence number recorded at both nodes.
  pub committed-overlap :
      (start1 start2 e1 e2 : Engine Chain) (seq : ℕ) (s1 s2 : ConsensusState)
      → start1.states ≡ []
      → start2.states ≡ []
      → Run c codec calls start1 e1
      → Run c codec calls start2 e2
      → e2.validators.validators ≡ e1.validators.validators
      → get e1.states seq ≡ some s1
      → get e2.states seq ≡ some s2
      → s1.state ≡ committed
      → s2.state ≡ committed
      → fault_tolerance e1.validators < length (common (keys s1.commit_msgs) (keys s2.commit_msgs))
  unfolding quorum
  committed-overlap start1 start2 e1 e2 seq s1 s2 empty1 empty2 run1 run2 same found1 found2 done1
        done2 =
      let v1 = Run-EngineOk start1 e1 empty1 run1 in
      let v2 = Run-EngineOk start2 e2 empty2 run2 in
      let q1 = committed_senders e1 seq s1 v1 found1 done1 in
      let q2 = committed_senders e2 seq s2 v2 found2 done2 in
      quorum-overlap e1.validators (keys s1.commit_msgs) (keys s2.commit_msgs)
        (v1 seq s1 found1).commits_distinct (v2 seq s2 found2).commits_distinct
        (v1 seq s1 found1).commits_within
        (subst (Within (keys s2.commit_msgs)) same (v2 seq s2 found2).commits_within) q1
        (subst (λ vs. length vs * 2 / 3 + 1 ≤ length (keys s2.commit_msgs)) same q2)
