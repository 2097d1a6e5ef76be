-- ===== src/Consensus/Run/Depth.antt =====
-- pbft.go, cmd/v2v-node/start.go: how deep the local handler's calls nest. A pre-prepare message makes
-- the node send a prepare message, which makes it send a commit message, and each is handled locally.
use v2v_blockchain.Prelude.{
  ℕ, suc, ◌≡◌, refl, sym, Option, none, some, inl, inr, Bool-cases, Option-cases, Outcome, ok, err,
  panic, blocked,
}
use mathlib.Core.Path.{subst}
use v2v_blockchain.Prelude.Int.{ℤ}
use v2v_blockchain.Prelude.Eq.{bytes_eq}
use v2v_blockchain.Bytes.{Bytes, Hash, Address, empty_hash}
use v2v_blockchain.Crypto.{Crypto}
use v2v_blockchain.Consensus.Message.{
  MessageType, request, pre_prepare, prepare, commit, view_change, new_view, checkpoint, unknown,
  PbftMessage, PrePreparePayload, ViewChangePayload, Codec, VerifyError, sign_message, with_digest,
  attach, calculate_digest, verify_message,
}
use v2v_blockchain.Consensus.State.{ConsensusState, ViewChangeState}
use v2v_blockchain.Consensus.Engine.{
  Engine, Step, Handler, with_states_lock, with_vc_lock, broadcast, handle_locally, send_signed,
  send, broadcast_prepare, broadcast_commit,
}
use v2v_blockchain.Consensus.Handlers
use v2v_blockchain.Consensus.Handlers.{ChainCalls, state_or_new}
use v2v_blockchain.Consensus.ViewChange
use v2v_blockchain.Consensus.ViewChange.{dispatch, verified, handle_message, node_handler}

module _ {Chain : Type 0} (c : Crypto) (codec : Codec) (calls : ChainCalls Chain) (now : ℤ) where
  -- Two local handlers that do the same on the messages of one kind.
  abbrev Agree : MessageType → (f g : PbftMessage → Step Chain) → Type 0
  Agree kind f g = (m : PbftMessage) (e : Engine Chain) → m.kind ≡ kind → f m e ≡ g m e

  with_digest-kind : (m : PbftMessage) → (with_digest c codec m).kind ≡ m.kind
  unfolding with_digest
  with_digest-kind m = elim (Bool-cases (bytes_eq m.digest empty_hash)) [
    | inl unset ↦ rw unset refl
    | inr set ↦ rw set refl
  ]

  signed_agrees :
      (f g : PbftMessage → Step Chain) (m : PbftMessage) (key : Bytes) (e : Engine Chain)
      → Agree m.kind f g
      → send_signed (some f) (sign_message c codec m key) e
        ≡ send_signed (some g) (sign_message c codec m key) e
  unfolding sign_message send_signed handle_locally
  signed_agrees f g m key e agree =
      let d = with_digest c codec m in
      elim (Option-cases (c.sign_digest (calculate_digest c codec d) key)) [
        | inl failed ↦ rw failed refl
        | inr (sig, signed) ↦ rw signed (
            let same =
              agree (attach c codec d sig) (broadcast (attach c codec d sig) e)
                (with_digest-kind m) in
            rw same refl)
      ]

  send_agrees :
      (f g : PbftMessage → Step Chain) (kind : MessageType) (view seq : ℕ) (payload : Bytes)
      (e : Engine Chain)
      → Agree kind f g
      → send c codec now (some f) kind view seq payload e
        ≡ send c codec now (some g) kind view seq payload e
  unfolding send
  send_agrees f g kind view seq payload e agree = signed_agrees f g _ e.private_key e agree

  -- handlePrepare uses its local handler on commit messages only.
  module _ (f g : PbftMessage → Step Chain) (agree : Agree commit f g) where
    record_prepare_agrees :
        (m : PbftMessage) (s : ConsensusState) (e : Engine Chain)
        → Handlers.record_prepare c codec calls now (some f) m s e
          ≡ Handlers.record_prepare c codec calls now (some g) m s e
    unfolding Handlers.record_prepare broadcast_commit
    record_prepare_agrees m s e = rw (send_agrees f g commit _ m.seq_number _ _ agree) refl

    check_prepare_agrees :
        (m : PbftMessage) (s : ConsensusState) (hash : Option Hash) (e : Engine Chain)
        → Handlers.check_prepare c codec calls now (some f) m s hash e
          ≡ Handlers.check_prepare c codec calls now (some g) m s hash e
    unfolding Handlers.check_prepare
    check_prepare_agrees m s none e = refl
    check_prepare_agrees m s (some hash) e = rw (record_prepare_agrees m s e) refl

    require_pre_prepare_agrees :
        (m : PbftMessage) (s : ConsensusState) (p : Option PbftMessage) (e : Engine Chain)
        → Handlers.require_pre_prepare c codec calls now (some f) m s p e
          ≡ Handlers.require_pre_prepare c codec calls now (some g) m s p e
    unfolding Handlers.require_pre_prepare
    require_pre_prepare_agrees m s none e = refl
    require_pre_prepare_agrees m s (some p) e = check_prepare_agrees m s _ e

    handle_prepare_agrees :
        (m : PbftMessage) (e : Engine Chain)
        → Handlers.handle_prepare c codec calls now (some f) m e
          ≡ Handlers.handle_prepare c codec calls now (some g) m e
    unfolding Handlers.handle_prepare with_states_lock Handlers.prepare_body
    handle_prepare_agrees m e = rw (require_pre_prepare_agrees m _ _ _) refl

  -- handlePrePrepare uses its local handler on prepare messages only.
  module _ (f g : PbftMessage → Step Chain) (agree : Agree prepare f g) where
    store_pre_prepare_agrees :
        (m : PbftMessage) (hash : Hash) (e : Engine Chain)
        → Handlers.store_pre_prepare c codec calls now (some f) m hash e
          ≡ Handlers.store_pre_prepare c codec calls now (some g) m hash e
    unfolding Handlers.store_pre_prepare broadcast_prepare
    store_pre_prepare_agrees m hash e = rw (send_agrees f g prepare _ m.seq_number _ _ agree) refl

    on_pre_prepare_payload_agrees :
        (m : PbftMessage) (p : Option PrePreparePayload) (e : Engine Chain)
        → Handlers.on_pre_prepare_payload c codec calls now (some f) m p e
          ≡ Handlers.on_pre_prepare_payload c codec calls now (some g) m p e
    unfolding Handlers.on_pre_prepare_payload
    on_pre_prepare_payload_agrees m none e = refl
    on_pre_prepare_payload_agrees m (some p) e = elim (Option-cases p.block_data) [
      | inl missing ↦ simp missing refl
      | inr (block, found) ↦ simp found (store_pre_prepare_agrees m p.block_hash e)
    ]

    from_primary_agrees :
        (m : PbftMessage) (a : Option Address) (e : Engine Chain)
        → Handlers.from_primary c codec calls now (some f) m a e
          ≡ Handlers.from_primary c codec calls now (some g) m a e
    unfolding Handlers.from_primary
    from_primary_agrees m none e = refl
    from_primary_agrees m (some a) e = rw (on_pre_prepare_payload_agrees m _ e) refl

    handle_pre_prepare_agrees :
        (m : PbftMessage) (e : Engine Chain)
        → Handlers.handle_pre_prepare c codec calls now (some f) m e
          ≡ Handlers.handle_pre_prepare c codec calls now (some g) m e
    unfolding Handlers.handle_pre_prepare
    handle_pre_prepare_agrees m e = rw (from_primary_agrees m _ e) refl

  -- handleViewChange uses its local handler on new-view messages only.
  module _ (f g : PbftMessage → Step Chain) (agree : Agree new_view f g) where
    lead_new_view_agrees :
        (vcs : ViewChangeState) (a : Option Address) (e : Engine Chain)
        → ViewChange.lead_new_view c codec calls now (some f) vcs a e
          ≡ ViewChange.lead_new_view c codec calls now (some g) vcs a e
    unfolding ViewChange.lead_new_view ViewChange.broadcast_new_view
    lead_new_view_agrees vcs none e = refl
    lead_new_view_agrees vcs (some a) e = rw (send_agrees f g new_view _ 0 _ e agree) refl

    on_view_change_payload_agrees :
        (m : PbftMessage) (p : Option ViewChangePayload) (e : Engine Chain)
        → ViewChange.on_view_change_payload c codec calls now (some f) m p e
          ≡ ViewChange.on_view_change_payload c codec calls now (some g) m p e
    unfolding ViewChange.on_view_change_payload
    on_view_change_payload_agrees m none e = refl
    on_view_change_payload_agrees m (some p) e = rw (lead_new_view_agrees _ _ _) refl

    handle_view_change_agrees :
        (m : PbftMessage) (e : Engine Chain)
        → ViewChange.handle_view_change c codec calls now (some f) m e
          ≡ ViewChange.handle_view_change c codec calls now (some g) m e
    unfolding ViewChange.handle_view_change with_vc_lock
    handle_view_change_agrees m e = rw (on_view_change_payload_agrees m _ _) refl

  -- HandleMessage verifies the message, and then does what the switch does.
  verified_agrees :
      (h h' : Handler Chain) (m : PbftMessage) (r : Outcome VerifyError (Unit {0}))
      (e : Engine Chain)
      → dispatch c codec calls now h m.kind m e ≡ dispatch c codec calls now h' m.kind m e
      → verified c codec calls now h m r e ≡ verified c codec calls now h' m r e
  unfolding verified
  verified_agrees h h' m (ok u) e same = rw same refl
  verified_agrees h h' m (err x) e same = refl
  verified_agrees h h' m panic e same = refl
  verified_agrees h h' m blocked e same = refl

  handle_message_agrees :
      (h h' : Handler Chain) (m : PbftMessage) (kind : MessageType) (e : Engine Chain)
      → m.kind ≡ kind
      → dispatch c codec calls now h kind m e ≡ dispatch c codec calls now h' kind m e
      → handle_message c codec calls now h m e ≡ handle_message c codec calls now h' m e
  unfolding handle_message
  handle_message_agrees h h' m kind e k same = verified_agrees h h' m (verify_message c codec m) e (
      subst (λ k'. dispatch c codec calls now h k' m e ≡ dispatch c codec calls now h' k' m e)
        (sym k) same)

  module _ (h h' : Handler Chain) where
    commit_agrees :
        Agree commit (handle_message c codec calls now h) (handle_message c codec calls now h')
    unfolding dispatch
    commit_agrees m e k = handle_message_agrees h h' m commit e k refl

    new_view_agrees :
        Agree new_view (handle_message c codec calls now h) (handle_message c codec calls now h')
    unfolding dispatch
    new_view_agrees m e k = handle_message_agrees h h' m new_view e k refl

    prepare_agrees :
        Agree prepare
          (handle_message c codec calls now (some (handle_message c codec calls now h)))
          (handle_message c codec calls now (some (handle_message c codec calls now h')))
    unfolding dispatch
    prepare_agrees m e k =
        handle_message_agrees _ _ m prepare e k (handle_prepare_agrees _ _ commit_agrees m e)

  twice : Handler Chain → PbftMessage → Step Chain
  twice h = handle_message c codec calls now (some (handle_message c codec calls now h))

  kind_agrees :
      (h h' : Handler Chain) (kind : MessageType) (m : PbftMessage) (e : Engine Chain)
      → dispatch c codec calls now (some (twice h)) kind m e
        ≡ dispatch c codec calls now (some (twice h')) kind m e
  unfolding dispatch twice
  kind_agrees h h' pre_prepare m e = handle_pre_prepare_agrees _ _ (prepare_agrees h h') m e
  kind_agrees h h' prepare m e = handle_prepare_agrees _ _ (commit_agrees _ _) m e
  kind_agrees h h' view_change m e = handle_view_change_agrees _ _ (new_view_agrees _ _) m e
  kind_agrees h h' commit m e = refl
  kind_agrees h h' new_view m e = refl
  kind_agrees h h' request m e = refl
  kind_agrees h h' checkpoint m e = refl
  kind_agrees h h' (unknown n) m e = refl

  -- The local handler's calls nest two deep at most: whatever the message and the engine, with a
  -- greater depth HandleMessage gives the same outcome and the same engine as with depth 2.
  pub node_handler_enough :
      (extra : ℕ) (m : PbftMessage) (e : Engine Chain)
      → handle_message c codec calls now (node_handler c codec calls now (suc (suc extra))) m e
        ≡ handle_message c codec calls now (node_handler c codec calls now 2) m e
  unfolding node_handler twice
  node_handler_enough extra m e =
      handle_message_agrees _ _ m m.kind e refl
        (kind_agrees (node_handler c codec calls now extra) none m.kind m e)
