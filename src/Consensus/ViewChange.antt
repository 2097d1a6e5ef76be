-- ===== src/Consensus/ViewChange.antt =====
-- internal/core/consensus/pbft.go: view changes, block proposals, and the dispatch of messages.
pub mod NewView
pub mod Authentic
use v2v_blockchain.Prelude.{
  ℕ, zero, suc, ◌+◌, ◌-◌, ◌%◌, ◌^◌, ◌<◌, ◌≡◌, Bool, true, false, not, ◌&&◌, ◌||◌, Option, none,
  some, List, [], ◌∷◌, ◌++◌, map, length, ltb, leb, ◌==◌, if◌then◌else◌, Outcome, ok, err, panic,
  blocked,
}
use v2v_blockchain.Prelude.Int.{ℤ}
use v2v_blockchain.Prelude.Eq.{bytes_eq}
use v2v_blockchain.Prelude.Lock.{Lock, free, can_lock, can_read}
use v2v_blockchain.Prelude.GoMap.{GoMap, size}
use v2v_blockchain.Bytes.{Bytes, Hash, Address, empty_hash}
use v2v_blockchain.Block.{Block, Transaction, sign_block}
use v2v_blockchain.Crypto.{Crypto}
use v2v_blockchain.Consensus.Message.{
  MessageType, request, pre_prepare, prepare, commit, view_change, new_view, checkpoint, unknown,
  PbftMessage, PrePreparePayload, Proof, ViewChangePayload, NewViewPayload, Codec, VerifyError,
  verify_message, sign_message,
}
use v2v_blockchain.Consensus.State.{
  ConsensusState, ViewChangeState, prepared, rank, new_view_change_state, add_view_change,
}
use v2v_blockchain.Consensus.ValidatorSet.{
  ValidatorSet, quorum, get_primary, is_validator, update_view,
}
use v2v_blockchain.Consensus.Engine.{
  Engine, View, NodeRole, primary, replica, PbftError, verification_failed, not_a_validator,
  unknown_message_type, bad_payload, sign_failed, only_primary, no_transactions,
  not_expected_primary, insufficient_proofs, Step, Handler, with_vc_lock, get_pending_transactions,
  broadcast, handle_locally, send,
}
use v2v_blockchain.Consensus.Handlers.{
  ChainCalls, handle_pre_prepare, handle_prepare, handle_commit,
}

abbrev pub proof_of_message : PbftMessage → Proof
proof_of_message m = record {
  view = m.view;
  seq_number = m.seq_number;
  block_hash = empty_hash;
  signatures = m.signature ∷ [];
}

unfoldable pub values {ℓ κ} : {K : Type ℓ} {V : Type κ} → GoMap K V → List V
values [] = []
values ((k, v) ∷ m) = v ∷ values m

-- The proofs of initiateViewChange: the states that are prepared or further.
unfoldable pub prepared_proofs : GoMap ℕ ConsensusState → List Proof
prepared_proofs [] = []
prepared_proofs ((seq, s) ∷ states) =
    let rest = prepared_proofs states in
    if leb (rank prepared) (rank s.state)
    then record {
      view = s.view;
      seq_number = s.seq_number;
      block_hash = s.block_hash;
      signatures = [];
    }
      ∷ rest
    else rest

module _ {Chain : Type 0} (c : Crypto) (codec : Codec) (calls : ChainCalls Chain) (now : ℤ) where
  unfoldable pub broadcast_new_view : Handler Chain → ViewChangeState → Step Chain
  broadcast_new_view handler vcs e =
      send c codec now handler new_view vcs.new_view_number 0
        (codec.encode_new_view (record {
          new_view_number = vcs.new_view_number;
          view_change_proofs = map proof_of_message (values vcs.view_changes);
        }))
        e

  -- The view change state that a message is added to.
  unfoldable pub vc_state : Option ViewChangeState → ℕ → ViewChangeState
  vc_state none view = new_view_change_state view
  vc_state (some vcs) view = if vcs.new_view_number == view then vcs else new_view_change_state view

  unfoldable pub lead_new_view : Handler Chain → ViewChangeState → Option Address → Step Chain
  lead_new_view handler vcs none e = (panic, e)
  lead_new_view handler vcs (some new_primary) e =
      if bytes_eq new_primary e.address then broadcast_new_view handler vcs e else (ok tt, e)

  unfoldable pub on_view_change_payload :
      Handler Chain → PbftMessage → Option ViewChangePayload → Step Chain
  on_view_change_payload handler m none e = (err bad_payload, e)
  on_view_change_payload handler m (some p) e =
      let vcs = add_view_change m (vc_state e.view_change_state p.new_view_number) in
      let e' = record e { view_change_state = some vcs } in
      let validators = update_view e.validators p.new_view_number in
      if leb (quorum e.validators) (size vcs.view_changes)
      then lead_new_view handler vcs (get_primary validators)
          (record e' { validators = validators })
      else (ok tt, e')

  -- The whole handler runs under vcMu, the local handler of the new-view message too.
  unfoldable pub handle_view_change : Handler Chain → PbftMessage → Step Chain
  handle_view_change handler m =
      with_vc_lock (λ e. on_view_change_payload handler m (codec.decode_view_change m.payload) e)

  unfoldable pub role_after : Address → Engine Chain → NodeRole
  role_after new_primary e =
      if bytes_eq new_primary e.address
      then primary
      else if is_validator e.validators e.address
      then replica
      else e.role

  unfoldable pub enter_view : ℕ → Address → Engine Chain → Engine Chain
  enter_view number new_primary e = record e {
    view = record { number = number; primary_node = new_primary; timestamp = now };
    role = role_after new_primary e;
  }

  -- Clearing the view change state takes vcMu.
  unfoldable pub clear_view_change : Step Chain
  clear_view_change e =
      if can_lock e.vc_mu then (ok tt, record e { view_change_state = none }) else (blocked, e)

  unfoldable pub check_new_view : PbftMessage → NewViewPayload → Option Address → Step Chain
  check_new_view m p none e = (panic, e)
  check_new_view m p (some new_primary) e =
      if bytes_eq m.sender new_primary
      then (if ltb (length p.view_change_proofs) (quorum e.validators)
          then (err insufficient_proofs, e)
          else clear_view_change (enter_view p.new_view_number new_primary e))
      else (err not_expected_primary, e)

  unfoldable pub on_new_view_payload : PbftMessage → Option NewViewPayload → Step Chain
  on_new_view_payload m none e = (err bad_payload, e)
  on_new_view_payload m (some p) e =
      let validators = update_view e.validators p.new_view_number in
      check_new_view m p (get_primary validators) (record e { validators = validators })

  unfoldable pub handle_new_view : PbftMessage → Step Chain
  handle_new_view m = on_new_view_payload m (codec.decode_new_view m.payload)

  -- The own message is recorded at the end, after an error of the local handler too, which is only
  -- logged.
  unfoldable pub record_own : ViewChangeState → Outcome PbftError (Unit {0}) → Step Chain
  record_own vcs (ok u) e = (ok tt, record e { view_change_state = some vcs })
  record_own vcs (err x) e = (ok tt, record e { view_change_state = some vcs })
  record_own vcs panic e = (panic, e)
  record_own vcs blocked e = (blocked, e)

  -- initiateViewChange from the signed message on; a failure to sign is only logged.
  unfoldable pub initiate_with :
      Handler Chain
      → ℕ
      → Option PbftMessage
      → Engine Chain
      → Outcome PbftError (Unit {0}) × Engine Chain
  initiate_with handler view none e = (ok tt, e)
  initiate_with handler view (some m) e =
      let (r, e') = handle_locally handler m (broadcast m e) in
      record_own (add_view_change m (new_view_change_state view)) r e'

  unfoldable pub announce_view_change : Handler Chain → Step Chain
  announce_view_change handler e =
      let view = (e.view.number + 1) % 2 ^ 64 in
      initiate_with handler view
        (sign_message c codec
          (record {
            kind = view_change;
            view = e.view.number;
            seq_number = 0;
            sender = e.address;
            payload = codec.encode_view_change (record {
              new_view_number = view;
              last_stable_checkpoint = e.last_checkpoint;
              prepared_proofs = prepared_proofs e.states;
            });
            digest = empty_hash;
            signature = [];
            timestamp = now;
          })
          e.private_key)
        e

  -- The states are read under RLock.
  unfoldable pub initiate_view_change : Handler Chain → Step Chain
  initiate_view_change handler e =
      if can_read e.states_mu then announce_view_change handler e else (blocked, e)

  unfoldable pub propose_signed : Handler Chain → Option Block → Step Chain
  propose_signed handler none e = (err sign_failed, e)
  propose_signed handler (some block) e =
      send c codec now handler pre_prepare e.view.number
        ((calls.latest_height e.chain + 1) % 2 ^ 64)
        (codec.encode_pre_prepare (record {
          block_hash = block.header.hash;
          block_data = some block;
          validator = e.address;
        }))
        e

  unfoldable pub propose_transactions : Handler Chain → List Transaction → Step Chain
  propose_transactions handler [] e = (err no_transactions, e)
  propose_transactions handler (tx ∷ txs) e =
      propose_signed handler
        (sign_block c (calls.create_block (tx ∷ txs) e.address e.chain) e.private_key) e

  unfoldable pub is_primary : NodeRole → Bool
  is_primary primary = true
  is_primary _ = false

  unfoldable pub propose_block : Handler Chain → Step Chain
  propose_block handler e =
      if is_primary e.role
      then (let (txs, e') = get_pending_transactions e.max_tx_per_block e in
          propose_transactions handler txs e')
      else (err only_primary, e)

  -- The switch of HandleMessage.
  unfoldable pub dispatch : Handler Chain → MessageType → PbftMessage → Step Chain
  dispatch handler pre_prepare m e = handle_pre_prepare c codec calls now handler m e
  dispatch handler prepare m e = handle_prepare c codec calls now handler m e
  dispatch handler commit m e = handle_commit c codec calls now m e
  dispatch handler view_change m e = handle_view_change handler m e
  dispatch handler new_view m e = handle_new_view m e
  dispatch handler _ m e = (err unknown_message_type, e)

  unfoldable pub verified :
      Handler Chain → PbftMessage → Outcome VerifyError (Unit {0}) → Step Chain
  verified handler m (ok u) e =
      if is_validator e.validators m.sender
      then dispatch handler m.kind m e
      else (err not_a_validator, e)
  verified handler m (err x) e = (err (verification_failed x), e)
  verified handler m panic e = (panic, e)
  verified handler m blocked e = (blocked, e)

  unfoldable pub handle_message : Handler Chain → PbftMessage → Step Chain
  handle_message handler m e = verified handler m (verify_message c codec m) e

  -- cmd/v2v-node/start.go sets HandleMessage itself as the local handler. The number bounds how
  -- deep such calls nest.
  unfoldable pub node_handler : ℕ → Handler Chain
  node_handler zero = none
  node_handler (suc depth) = some (handle_message (node_handler depth))
