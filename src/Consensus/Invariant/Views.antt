-- ===== src/Consensus/Invariant/Views.antt =====
-- pbft.go: view changes, proposals and HandleMessage keep the invariant of the recorded messages.
use v2v_blockchain.Prelude.{
  ℕ, zero, suc, ◌≡◌, Bool, true, Option, none, some, List, [], ◌∷◌, length, inl, inr, Bool-cases,
  Option-cases, ltb, leb, Outcome, ok, err, panic, blocked,
}
use v2v_blockchain.Prelude.Int.{ℤ}
use v2v_blockchain.Prelude.Eq.{bytes_eq, bytes_Eq, numbers_Eq}
use v2v_blockchain.Prelude.Lock.{can_lock, can_read}
use v2v_blockchain.Prelude.GoMap.{size}
use v2v_blockchain.Bytes.{Address}
use v2v_blockchain.Block.{Block, Transaction}
use v2v_blockchain.Crypto.{Crypto}
use v2v_blockchain.Consensus.Message.{
  MessageType, request, pre_prepare, prepare, commit, view_change, new_view, checkpoint, unknown,
  PbftMessage, ViewChangePayload, NewViewPayload, Codec, VerifyError, verify_message,
}
use v2v_blockchain.Consensus.State.{ConsensusState, ViewChangeState, add_view_change}
use v2v_blockchain.Consensus.ValidatorSet.{
  ValidatorSet, quorum, is_validator, update_view, get_primary,
}
use v2v_blockchain.Consensus.Engine.{
  Engine, PbftError, Handler, in_pool, submit_transaction, get_pending_transactions, broadcast,
}
use v2v_blockchain.Consensus.Handlers.{ChainCalls}
use v2v_blockchain.Consensus.Invariant.{StateOk, EngineOk}
use v2v_blockchain.Consensus.Invariant.Keeps.{
  Keeps, HandlerOk, handle_locally-Keeps, broadcast-EngineOk, with_vc_lock-Keeps, send-Keeps,
  handle_pre_prepare-Keeps,
}
use v2v_blockchain.Consensus.Invariant.Votes.{handle_prepare-Keeps, handle_commit-Keeps}
use v2v_blockchain.Consensus.ViewChange
use v2v_blockchain.Consensus.ViewChange.{dispatch, verified, handle_message, node_handler}

-- UpdateView leaves the members, and so the quorum, alone.
update_view-StateOk :
    (vs : ValidatorSet) (number : ℕ) (s : ConsensusState)
    → StateOk vs s
    → StateOk (update_view vs number) s
unfolding update_view quorum
update_view-StateOk vs number s v = record {
  prepares_distinct = v.prepares_distinct;
  prepares_within = v.prepares_within;
  commits_distinct = v.commits_distinct;
  commits_within = v.commits_within;
  prepared_quorum = v.prepared_quorum;
  committed_quorum = v.committed_quorum;
}

module _ {Chain : Type 0} where
  update_view-EngineOk :
      (number : ℕ) (e : Engine Chain)
      → EngineOk e
      → EngineOk (record e { validators = update_view e.validators number })
  update_view-EngineOk number e v seq s found =
      update_view-StateOk e.validators number s (v seq s found)

module _ {Chain : Type 0} (c : Crypto) (codec : Codec) (calls : ChainCalls Chain) (now : ℤ) where
  lead_new_view-Keeps :
      (handler : Handler Chain) (vcs : ViewChangeState) (a : Option Address)
      → HandlerOk handler
      → Keeps (ViewChange.lead_new_view c codec calls now handler vcs a)
  unfolding ViewChange.lead_new_view ViewChange.broadcast_new_view
  lead_new_view-Keeps handler vcs none h e v = v
  lead_new_view-Keeps handler vcs (some a) h e v = elim (Bool-cases (bytes_eq a e.address)) [
    | inl own ↦ rw own (send-Keeps c codec calls now handler new_view _ 0 _ h e v)
    | inr other ↦ rw other v
  ]

  on_view_change_payload-Keeps :
      (handler : Handler Chain) (m : PbftMessage) (p : Option ViewChangePayload)
      → HandlerOk handler
      → Keeps (ViewChange.on_view_change_payload c codec calls now handler m p)
  unfolding ViewChange.on_view_change_payload
  on_view_change_payload-Keeps handler m none h e v = v
  on_view_change_payload-Keeps handler m (some p) h e v =
      let vcs =
        add_view_change m
          (ViewChange.vc_state c codec calls now e.view_change_state p.new_view_number) in
      elim (Bool-cases (leb (quorum e.validators) (size vcs.view_changes))) [
        | inl many ↦ rw many (
            lead_new_view-Keeps handler vcs
              (get_primary (update_view e.validators p.new_view_number)) h _
              (update_view-EngineOk p.new_view_number (record e { view_change_state = some vcs })
                v))
        | inr few ↦ rw few v
      ]

  handle_view_change-Keeps :
      (handler : Handler Chain) (m : PbftMessage)
      → HandlerOk handler
      → Keeps (ViewChange.handle_view_change c codec calls now handler m)
  unfolding ViewChange.handle_view_change
  handle_view_change-Keeps handler m h e v =
      with_vc_lock-Keeps _
        (on_view_change_payload-Keeps handler m (codec.decode_view_change m.payload) h) e v

  clear_view_change-Keeps : Keeps (ViewChange.clear_view_change c codec calls now)
  unfolding ViewChange.clear_view_change
  clear_view_change-Keeps e v = elim (Bool-cases (can_lock e.vc_mu)) [
    | inl unlocked ↦ rw unlocked v
    | inr held ↦ rw held v
  ]

  check_new_view-Keeps :
      (m : PbftMessage) (p : NewViewPayload) (a : Option Address)
      → Keeps (ViewChange.check_new_view c codec calls now m p a)
  unfolding ViewChange.check_new_view ViewChange.enter_view
  check_new_view-Keeps m p none e v = v
  check_new_view-Keeps m p (some a) e v = elim (Bool-cases (bytes_eq m.sender a)) [
    | inr other ↦ rw other v
    | inl same ↦ elim (Bool-cases (ltb (length p.view_change_proofs) (quorum e.validators))) [
      | inl few ↦ rw (same, few) v
      | inr many ↦
          rw (same, many)
            (clear_view_change-Keeps (ViewChange.enter_view c codec calls now p.new_view_number a e)
              v)
    ]
  ]

  handle_new_view-Keeps : (m : PbftMessage) → Keeps (ViewChange.handle_new_view c codec calls now m)
  unfolding ViewChange.handle_new_view ViewChange.on_new_view_payload
  handle_new_view-Keeps m e v = elim (Option-cases (codec.decode_new_view m.payload)) [
    | inl bad ↦ rw bad v
    | inr (p, good) ↦ rw good (
        check_new_view-Keeps m p _
          (record e { validators = update_view e.validators p.new_view_number })
          (update_view-EngineOk p.new_view_number e v))
  ]

  dispatch-Keeps :
      (handler : Handler Chain) (kind : MessageType) (m : PbftMessage) (e : Engine Chain)
      → HandlerOk handler
      → is_validator e.validators m.sender ≡ true
      → EngineOk e
      → EngineOk (dispatch c codec calls now handler kind m e).1
  unfolding dispatch
  dispatch-Keeps handler pre_prepare m e h known v =
      handle_pre_prepare-Keeps c codec calls now handler m h e v
  dispatch-Keeps handler prepare m e h known v =
      handle_prepare-Keeps c codec calls now handler m e h known v
  dispatch-Keeps handler commit m e h known v = handle_commit-Keeps c codec calls now m e known v
  dispatch-Keeps handler view_change m e h known v = handle_view_change-Keeps handler m h e v
  dispatch-Keeps handler new_view m e h known v = handle_new_view-Keeps m e v
  dispatch-Keeps handler request m e h known v = v
  dispatch-Keeps handler checkpoint m e h known v = v
  dispatch-Keeps handler (unknown n) m e h known v = v

  verified-Keeps :
      (handler : Handler Chain) (m : PbftMessage) (r : Outcome VerifyError (Unit {0}))
      → HandlerOk handler
      → Keeps (verified c codec calls now handler m r)
  unfolding verified
  verified-Keeps handler m (ok u) h e v = elim (Bool-cases (is_validator e.validators m.sender)) [
    | inl known ↦ rw known (dispatch-Keeps handler m.kind m e h known v)
    | inr other ↦ rw other v
  ]
  verified-Keeps handler m (err x) h e v = v
  verified-Keeps handler m panic h e v = v
  verified-Keeps handler m blocked h e v = v

  -- HandleMessage leaves a good engine good, whatever message arrives and whatever local handler of
  -- that kind is set; errors, panics and blocked calls included.
  pub handle_message-Keeps :
      (handler : Handler Chain) (m : PbftMessage)
      → HandlerOk handler
      → Keeps (handle_message c codec calls now handler m)
  unfolding handle_message
  handle_message-Keeps handler m h e v = verified-Keeps handler m (verify_message c codec m) h e v

  pub node_handler-HandlerOk : (depth : ℕ) → HandlerOk (node_handler c codec calls now depth)
  unfolding node_handler
  node_handler-HandlerOk zero = tt
  node_handler-HandlerOk (suc depth) = λ m.
      handle_message-Keeps (node_handler c codec calls now depth) m (node_handler-HandlerOk depth)

  -- The engine's own steps.
  record_own-Keeps :
      (vcs : ViewChangeState) (r : Outcome PbftError (Unit {0}))
      → Keeps (ViewChange.record_own c codec calls now vcs r)
  unfolding ViewChange.record_own
  record_own-Keeps vcs (ok u) e v = v
  record_own-Keeps vcs (err x) e v = v
  record_own-Keeps vcs panic e v = v
  record_own-Keeps vcs blocked e v = v

  initiate_with-Keeps :
      (handler : Handler Chain) (view : ℕ) (m : Option PbftMessage)
      → HandlerOk handler
      → Keeps (ViewChange.initiate_with c codec calls now handler view m)
  unfolding ViewChange.initiate_with
  initiate_with-Keeps handler view none h e v = v
  initiate_with-Keeps handler view (some m) h e v =
      record_own-Keeps _ _ _
        (handle_locally-Keeps handler m h (broadcast m e) (broadcast-EngineOk m e v))

  pub initiate_view_change-Keeps :
      (handler : Handler Chain)
      → HandlerOk handler
      → Keeps (ViewChange.initiate_view_change c codec calls now handler)
  unfolding ViewChange.initiate_view_change ViewChange.announce_view_change
  initiate_view_change-Keeps handler h e v = elim (Bool-cases (can_read e.states_mu)) [
    | inl unlocked ↦ rw unlocked (initiate_with-Keeps handler _ _ h e v)
    | inr held ↦ rw held v
  ]

  propose_signed-Keeps :
      (handler : Handler Chain) (block : Option Block)
      → HandlerOk handler
      → Keeps (ViewChange.propose_signed c codec calls now handler block)
  unfolding ViewChange.propose_signed
  propose_signed-Keeps handler none h e v = v
  propose_signed-Keeps handler (some block) h e v =
      send-Keeps c codec calls now handler pre_prepare _ _ _ h e v

  propose_transactions-Keeps :
      (handler : Handler Chain) (txs : List Transaction)
      → HandlerOk handler
      → Keeps (ViewChange.propose_transactions c codec calls now handler txs)
  unfolding ViewChange.propose_transactions
  propose_transactions-Keeps handler [] h e v = v
  propose_transactions-Keeps handler (tx ∷ txs) h e v = propose_signed-Keeps handler _ h e v

  pub propose_block-Keeps :
      (handler : Handler Chain)
      → HandlerOk handler
      → Keeps (ViewChange.propose_block c codec calls now handler)
  unfolding ViewChange.propose_block get_pending_transactions
  propose_block-Keeps handler h e v =
      elim (Bool-cases (ViewChange.is_primary c codec calls now e.role)) [
        | inl leads ↦ rw leads (propose_transactions-Keeps handler _ h _ v)
        | inr follows ↦ rw follows v
      ]

module _ {Chain : Type 0} where
  pub submit_transaction-Keeps :
      (tx : Transaction) (high_priority : Bool)
      → Keeps {Chain = Chain} (submit_transaction tx high_priority)
  unfolding submit_transaction
  submit_transaction-Keeps tx high_priority e v =
      elim (Bool-cases (in_pool tx.hash e.request_pool)) [
        | inl known ↦ rw known v
        | inr fresh ↦ elim (Bool-cases high_priority) [
          | inl high ↦ rw (fresh, high) v
          | inr low ↦ rw (fresh, low) v
        ]
      ]
