-- ===== src/Consensus/Engine.antt =====
-- internal/core/consensus/pbft.go: the engine's state, its transaction pools, and the messages that
-- it signs and sends. `now` stands for time.Now().Unix(). The metrics other than the block count,
-- the timers and the log are left out.
pub mod Pools
use v2v_blockchain.Prelude.{
  ℕ, zero, suc, ◌+◌, ◌-◌, ◌<◌, ◌%◌, ◌^◌, Bool, true, false, ◌||◌, Option, none, some, List, [], ◌∷◌,
  ◌++◌, length, take, drop, ltb, leb, ◌==◌, if◌then◌else◌, Outcome, ok, err, panic, blocked,
  or_panic, ◌>>=◌,
}
use v2v_blockchain.Prelude.Int.{ℤ}
use v2v_blockchain.Prelude.Eq.{bytes_eq, bytes_Eq, numbers_Eq}
use v2v_blockchain.Prelude.Lock.{Lock, free, reading, writing, can_lock}
use v2v_blockchain.Prelude.GoMap.{GoMap, get, put}
use v2v_blockchain.Bytes.{Bytes, Hash, Address, empty_hash}
use v2v_blockchain.Block.{Block, Transaction}
use v2v_blockchain.Crypto.{Crypto}
use v2v_blockchain.Consensus.Message.{
  MessageType, PbftMessage, Codec, VerifyError, commit, prepare, sign_message,
}
use v2v_blockchain.Consensus.State.{ConsensusState, ViewChangeState, new_consensus_state}
use v2v_blockchain.Consensus.ValidatorSet.{ValidatorSet, is_validator}

pub data NodeRole : Type 0 where
  unknown primary replica follower : NodeRole

pub record View : Type 0 where
  pub number : ℕ
  pub primary_node : Address
  pub timestamp : ℤ

-- `delivered` is what was handed to the block commit handler, whose errors are only logged.
-- `sent` is what was handed to the broadcast function, oldest first; it stays empty while no
-- function is set. `chain` is the blockchain, which the engine only calls.
pub record Engine (Chain : Type 0) : Type 0 where
  pub address : Address
  pub private_key : Bytes
  pub role : NodeRole
  pub chain : Chain
  pub validators : ValidatorSet
  pub view : View
  pub states : GoMap ℕ ConsensusState
  pub states_mu : Lock
  pub vc_mu : Lock
  pub last_checkpoint : ℕ
  pub view_change_state : Option ViewChangeState
  pub request_pool : List Transaction
  pub high_priority_pool : List Transaction
  pub max_tx_per_block : ℕ
  pub blocks_committed : ℕ
  pub commit_handler_set : Bool
  pub delivered : List Block
  pub broadcast_set : Bool
  pub sent : List PbftMessage

pub data PbftError : Type 0 where
  verification_failed : VerifyError → PbftError
  not_a_validator unknown_message_type view_mismatch not_from_primary bad_payload : PbftError
  block_is_nil no_pre_prepare hash_mismatch no_consensus_state cannot_commit add_block_failed :
      PbftError
  sign_failed only_primary no_transactions not_expected_primary insufficient_proofs : PbftError
  already_in_pool : PbftError
  failed_locally : PbftError → PbftError

-- A method returns its outcome and the state that it leaves, after an error too.
abbrev pub Step : Type 0 → Type 0
Step Chain = Engine Chain → Outcome PbftError (Unit {0}) × Engine Chain

-- The local message handler, nil before SetMessageHandler.
abbrev pub Handler : Type 0 → Type 0
Handler Chain = Option (PbftMessage → Step Chain)

unfoldable pub in_pool : Hash → List Transaction → Bool
in_pool h [] = false
in_pool h (tx ∷ pool) = bytes_eq tx.hash h || in_pool h pool

module _ {Chain : Type 0} where
  -- mu.Lock(); defer mu.Unlock(). A call that is blocked for good never gives its lock back.
  unfoldable pub release :
      Outcome PbftError (Unit {0}) × Engine Chain → Outcome PbftError (Unit {0}) × Engine Chain
  release (ok u, e) = (ok u, record e { states_mu = free })
  release (err x, e) = (err x, record e { states_mu = free })
  release (panic, e) = (panic, record e { states_mu = free })
  release (blocked, e) = (blocked, e)

  unfoldable pub with_states_lock : Step Chain → Step Chain
  with_states_lock body e =
      if can_lock e.states_mu
      then release (body (record e { states_mu = writing }))
      else (blocked, e)

  unfoldable pub release_vc :
      Outcome PbftError (Unit {0}) × Engine Chain → Outcome PbftError (Unit {0}) × Engine Chain
  release_vc (ok u, e) = (ok u, record e { vc_mu = free })
  release_vc (err x, e) = (err x, record e { vc_mu = free })
  release_vc (panic, e) = (panic, record e { vc_mu = free })
  release_vc (blocked, e) = (blocked, e)

  unfoldable pub with_vc_lock : Step Chain → Step Chain
  with_vc_lock body e =
      if can_lock e.vc_mu then release_vc (body (record e { vc_mu = writing })) else (blocked, e)

  unfoldable pub put_state : ConsensusState → ℕ → Engine Chain → Engine Chain
  put_state s seq e = record e { states = put e.states seq s }

  unfoldable pub submit_transaction : Transaction → Bool → Step Chain
  submit_transaction tx high_priority e =
      if in_pool tx.hash e.request_pool
      then (err already_in_pool, e)
      else if high_priority
      then (ok tt, record e { high_priority_pool = e.high_priority_pool ++ tx ∷ [] })
      else (ok tt, record e { request_pool = e.request_pool ++ tx ∷ [] })

  -- GetPendingTransactions, for a non-negative `max` (make panics on a negative capacity).
  unfoldable pub get_pending_transactions : ℕ → Engine Chain → List Transaction × Engine Chain
  get_pending_transactions max e =
      let high = take max e.high_priority_pool in
      let remaining = max - length high in
      (
        high ++ take remaining e.request_pool,
        record e {
          high_priority_pool = drop (length high) e.high_priority_pool;
          request_pool = drop remaining e.request_pool;
        },
      )

  unfoldable pub broadcast : PbftMessage → Engine Chain → Engine Chain
  broadcast m e = if e.broadcast_set then record e { sent = e.sent ++ m ∷ [] } else e

  unfoldable pub wrap :
      Outcome PbftError (Unit {0}) × Engine Chain → Outcome PbftError (Unit {0}) × Engine Chain
  wrap (ok u, e) = (ok u, e)
  wrap (err x, e) = (err (failed_locally x), e)
  wrap (panic, e) = (panic, e)
  wrap (blocked, e) = (blocked, e)

  unfoldable pub handle_locally : Handler Chain → PbftMessage → Step Chain
  handle_locally none m e = (ok tt, e)
  handle_locally (some handler) m e = wrap (handler m e)

  -- Sign, broadcast, then call the local handler. A failed broadcast is only logged.
  unfoldable pub send_signed : Handler Chain → Option PbftMessage → Step Chain
  send_signed handler none e = (err sign_failed, e)
  send_signed handler (some m) e = handle_locally handler m (broadcast m e)

  module _ (c : Crypto) (codec : Codec) (now : ℤ) (handler : Handler Chain) where
    unfoldable pub send : MessageType → ℕ → ℕ → Bytes → Step Chain
    send kind view seq payload e =
        send_signed handler
          (sign_message c codec
            (record {
              kind = kind;
              view = view;
              seq_number = seq;
              sender = e.address;
              payload = payload;
              digest = empty_hash;
              signature = [];
              timestamp = now;
            })
            e.private_key)
          e

    unfoldable pub broadcast_prepare : ℕ → Hash → Step Chain
    broadcast_prepare seq hash e = send prepare e.view.number seq (codec.encode_hash hash) e

    unfoldable pub broadcast_commit : ℕ → Hash → Step Chain
    broadcast_commit seq hash e = send commit e.view.number seq (codec.encode_hash hash) e
