-- ===== src/Consensus/Run.antt =====
-- internal/core/consensus/pbft.go: the runs of one engine, as the calls that the node makes of it.
-- AddValidator and RemoveValidator, which the node never calls while it runs, are not steps.
pub mod Certificates
pub mod Depth
use v2v_blockchain.Prelude.{ℕ, Bool}
use v2v_blockchain.Prelude.Int.{ℤ}
use v2v_blockchain.Block.{Transaction}
use v2v_blockchain.Crypto.{Crypto}
use v2v_blockchain.Consensus.Message.{PbftMessage, Codec}
use v2v_blockchain.Consensus.Engine.{Engine, submit_transaction}
use v2v_blockchain.Consensus.Handlers.{ChainCalls}
use v2v_blockchain.Consensus.ViewChange.{
  handle_message, node_handler, initiate_view_change, propose_block,
}

-- `now` is the time of the step, and `depth` bounds how deep the local handler's calls nest.
pub data Run {Chain : Type 0} (c : Crypto) (codec : Codec) (calls : ChainCalls Chain)
    (start : Engine Chain) : Engine Chain → Type 0 where
  begin : Run c codec calls start start
  receive :
      {e : Engine Chain} (now : ℤ) (depth : ℕ) (m : PbftMessage)
      → Run c codec calls start e
      → Run c codec calls start
          (handle_message c codec calls now (node_handler c codec calls now depth) m e).1
  time_out :
      {e : Engine Chain} (now : ℤ) (depth : ℕ)
      → Run c codec calls start e
      → Run c codec calls start
          (initiate_view_change c codec calls now (node_handler c codec calls now depth) e).1
  propose :
      {e : Engine Chain} (now : ℤ) (depth : ℕ)
      → Run c codec calls start e
      → Run c codec calls start
          (propose_block c codec calls now (node_handler c codec calls now depth) e).1
  submit :
      {e : Engine Chain} (tx : Transaction) (high_priority : Bool)
      → Run c codec calls start e
      → Run c codec calls start (submit_transaction tx high_priority e).1
