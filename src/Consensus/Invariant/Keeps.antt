-- ===== src/Consensus/Invariant/Keeps.antt =====
-- pbft.go: every handler keeps the invariant of the recorded messages.
use v2v_blockchain.Prelude.{
  ℕ, ◌≡◌, refl, Option, none, some, inl, inr, Bool-cases, Option-cases, ◌==◌, Outcome, ok, err,
  panic, blocked,
}
use v2v_blockchain.Prelude.Int.{ℤ}
use v2v_blockchain.Prelude.Eq.{bytes_eq, bytes_Eq, numbers_Eq}
use v2v_blockchain.Prelude.Lock.{writing, can_lock}
use v2v_blockchain.Prelude.GoMap.{get}
use v2v_blockchain.Bytes.{Bytes, Hash, Address}
use v2v_blockchain.Crypto.{Crypto}
use v2v_blockchain.Consensus.Message.{
  MessageType, prepare, commit, PbftMessage, PrePreparePayload, Codec,
}
use v2v_blockchain.Consensus.State.{ConsensusState}
use v2v_blockchain.Consensus.ValidatorSet.{get_primary}
use v2v_blockchain.Consensus.Engine.{
  Engine, PbftError, Step, Handler, release, with_states_lock, release_vc, with_vc_lock, put_state,
  broadcast, wrap, handle_locally, send_signed, send, broadcast_prepare, broadcast_commit,
}
use v2v_blockchain.Consensus.Handlers
use v2v_blockchain.Consensus.Handlers.{ChainCalls, state_or_new}
use v2v_blockchain.Consensus.Invariant.{
  StateOk, EngineOk, new_consensus_state-StateOk, accept-StateOk, put-StatesOk,
}

-- A step, or a local handler, that leaves a good engine good.
abbrev pub Keeps : {Chain : Type 0} → Step Chain → Type 0
Keeps {Chain} step = (e : Engine Chain) → EngineOk e → EngineOk (step e).1

abbrev pub HandlerOk : {Chain : Type 0} → Handler Chain → Type 0
HandlerOk none = Unit
HandlerOk (some handler) = (m : PbftMessage) → Keeps (handler m)

module _ {Chain : Type 0} where
  wrap-engine : (r : Outcome PbftError (Unit {0})) (e : Engine Chain) → (wrap (r, e)).1 ≡ e
  unfolding wrap
  wrap-engine (ok u) e = refl
  wrap-engine (err x) e = refl
  wrap-engine panic e = refl
  wrap-engine blocked e = refl

  pub handle_locally-Keeps :
      (handler : Handler Chain) (m : PbftMessage)
      → HandlerOk handler
      → Keeps (handle_locally handler m)
  unfolding handle_locally
  handle_locally-Keeps none m h e v = v
  handle_locally-Keeps (some handler) m h e v =
      let (r, e') = handler m e in rw (wrap-engine r e') (h m e v)

  pub broadcast-EngineOk :
      (m : PbftMessage) (e : Engine Chain) → EngineOk e → EngineOk (broadcast m e)
  unfolding broadcast
  broadcast-EngineOk m e v = elim (Bool-cases e.broadcast_set) [
    | inl set ↦ rw set v
    | inr unset ↦ rw unset v
  ]

  send_signed-Keeps :
      (handler : Handler Chain) (m : Option PbftMessage)
      → HandlerOk handler
      → Keeps (send_signed handler m)
  unfolding send_signed
  send_signed-Keeps handler none h e v = v
  send_signed-Keeps handler (some m) h e v =
      handle_locally-Keeps handler m h (broadcast m e) (broadcast-EngineOk m e v)

  pub release-EngineOk :
      (r : Outcome PbftError (Unit {0})) (e : Engine Chain)
      → EngineOk e
      → EngineOk (release (r, e)).1
  unfolding release
  release-EngineOk (ok u) e v = v
  release-EngineOk (err x) e v = v
  release-EngineOk panic e v = v
  release-EngineOk blocked e v = v

  pub with_states_lock-Keeps : (body : Step Chain) → Keeps body → Keeps (with_states_lock body)
  unfolding with_states_lock
  with_states_lock-Keeps body keeps e v = elim (Bool-cases (can_lock e.states_mu)) [
    | inl free_lock ↦
        let (r, e') = body (record e { states_mu = writing }) in
        rw free_lock (release-EngineOk r e' (keeps (record e { states_mu = writing }) v))
    | inr held ↦ rw held v
  ]

  release_vc-EngineOk :
      (r : Outcome PbftError (Unit {0})) (e : Engine Chain)
      → EngineOk e
      → EngineOk (release_vc (r, e)).1
  unfolding release_vc
  release_vc-EngineOk (ok u) e v = v
  release_vc-EngineOk (err x) e v = v
  release_vc-EngineOk panic e v = v
  release_vc-EngineOk blocked e v = v

  pub with_vc_lock-Keeps : (body : Step Chain) → Keeps body → Keeps (with_vc_lock body)
  unfolding with_vc_lock
  with_vc_lock-Keeps body keeps e v = elim (Bool-cases (can_lock e.vc_mu)) [
    | inl free_lock ↦
        let (r, e') = body (record e { vc_mu = writing }) in
        rw free_lock (release_vc-EngineOk r e' (keeps (record e { vc_mu = writing }) v))
    | inr held ↦ rw held v
  ]

  pub put_state-EngineOk :
      (s : ConsensusState) (seq : ℕ) (e : Engine Chain)
      → EngineOk e
      → StateOk e.validators s
      → EngineOk (put_state s seq e)
  unfolding put_state
  put_state-EngineOk s seq e v one = put-StatesOk e.validators e.states seq s v one

  pub state_or_new-StateOk :
      (e : Engine Chain) (view seq : ℕ)
      → EngineOk e
      → StateOk e.validators (state_or_new (get e.states seq) view seq)
  state_or_new-StateOk e view seq v = elim (Option-cases (get e.states seq)) [
    | inl missing ↦ rw missing (new_consensus_state-StateOk e.validators view seq)
    | inr (s, found) ↦ rw found (v seq s found)
  ]

module _ {Chain : Type 0} (c : Crypto) (codec : Codec) (calls : ChainCalls Chain) (now : ℤ) where
  pub send-Keeps :
      (handler : Handler Chain) (kind : MessageType) (view seq : ℕ) (payload : Bytes)
      → HandlerOk handler
      → Keeps (send c codec now handler kind view seq payload)
  unfolding send
  send-Keeps handler kind view seq payload h e v = send_signed-Keeps handler _ h e v

  broadcast_prepare-Keeps :
      (handler : Handler Chain) (seq : ℕ) (hash : Hash)
      → HandlerOk handler
      → Keeps (broadcast_prepare c codec now handler seq hash)
  unfolding broadcast_prepare
  broadcast_prepare-Keeps handler seq hash h e v =
      send-Keeps handler prepare e.view.number seq (codec.encode_hash hash) h e v

  pub broadcast_commit-Keeps :
      (handler : Handler Chain) (seq : ℕ) (hash : Hash)
      → HandlerOk handler
      → Keeps (broadcast_commit c codec now handler seq hash)
  unfolding broadcast_commit
  broadcast_commit-Keeps handler seq hash h e v =
      send-Keeps handler commit e.view.number seq (codec.encode_hash hash) h e v

  accept_pre_prepare-EngineOk :
      (m : PbftMessage) (hash : Hash) (e : Engine Chain)
      → EngineOk e
      → EngineOk (Handlers.accept_pre_prepare c codec calls now m hash e)
  unfolding Handlers.accept_pre_prepare
  accept_pre_prepare-EngineOk m hash e v =
      put_state-EngineOk _ m.seq_number e v
        (accept-StateOk e.validators _ (state_or_new-StateOk e m.view m.seq_number v) m hash)

  store_pre_prepare-Keeps :
      (handler : Handler Chain) (m : PbftMessage) (hash : Hash)
      → HandlerOk handler
      → Keeps (Handlers.store_pre_prepare c codec calls now handler m hash)
  unfolding Handlers.store_pre_prepare
  store_pre_prepare-Keeps handler m hash h e v =
      let accepted = accept_pre_prepare-EngineOk m hash e v in
      elim (Bool-cases (can_lock e.states_mu)) [
        | inr held ↦ rw held v
        | inl unlocked ↦ elim (Bool-cases (Handlers.takes_part e.role)) [
          | inl part ↦
              rw (unlocked, part)
                (broadcast_prepare-Keeps handler m.seq_number hash h
                  (Handlers.accept_pre_prepare c codec calls now m hash e) accepted)
          | inr no_part ↦ rw (unlocked, no_part) accepted
        ]
      ]

  on_pre_prepare_payload-Keeps :
      (handler : Handler Chain) (m : PbftMessage) (p : Option PrePreparePayload)
      → HandlerOk handler
      → Keeps (Handlers.on_pre_prepare_payload c codec calls now handler m p)
  unfolding Handlers.on_pre_prepare_payload
  on_pre_prepare_payload-Keeps handler m none h e v = v
  on_pre_prepare_payload-Keeps handler m (some p) h e v = elim (Option-cases p.block_data) [
    | inl missing ↦ simp missing v
    | inr (block, found) ↦ simp found (store_pre_prepare-Keeps handler m p.block_hash h e v)
  ]

  from_primary-Keeps :
      (handler : Handler Chain) (m : PbftMessage) (a : Option Address)
      → HandlerOk handler
      → Keeps (Handlers.from_primary c codec calls now handler m a)
  unfolding Handlers.from_primary
  from_primary-Keeps handler m none h e v = v
  from_primary-Keeps handler m (some a) h e v = elim (Bool-cases (bytes_eq m.sender a)) [
    | inl same ↦
        rw same (on_pre_prepare_payload-Keeps handler m (codec.decode_pre_prepare m.payload) h e v)
    | inr other ↦ rw other v
  ]

  pub handle_pre_prepare-Keeps :
      (handler : Handler Chain) (m : PbftMessage)
      → HandlerOk handler
      → Keeps (Handlers.handle_pre_prepare c codec calls now handler m)
  unfolding Handlers.handle_pre_prepare
  handle_pre_prepare-Keeps handler m h e v = elim (Bool-cases (m.view == e.view.number)) [
    | inl same ↦ rw same (from_primary-Keeps handler m (get_primary e.validators) h e v)
    | inr other ↦ rw other v
  ]
