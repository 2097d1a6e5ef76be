-- ===== src/Consensus/Handlers/Quorums.antt =====
-- pbft.go: what handleCommit does when a quorum is reached.
use v2v_blockchain.Prelude.{
  ℕ, ◌≡◌, refl, true, false, ◌&&◌, Option, none, some, inl, inr, Bool-cases, Option-cases, ltb,
  ◌==◌, ==_iff, Outcome, ok, err, panic, blocked,
}
use v2v_blockchain.Prelude.Int.{ℤ}
use v2v_blockchain.Prelude.Eq.{bytes_eq, bytes_eq_iff, numbers_Eq}
use v2v_blockchain.Prelude.Lock.{writing, can_lock, can_read}
use v2v_blockchain.Prelude.GoMap.{get, get-put}
use v2v_blockchain.Bytes.{Hash}
use v2v_blockchain.Crypto.{Crypto}
use v2v_blockchain.Consensus.Message.{PbftMessage, Codec}
use v2v_blockchain.Consensus.State.{ConsensusState, committed, rank, add_commit_msg, has_committed}
use v2v_blockchain.Consensus.ValidatorSet.{quorum}
use v2v_blockchain.Consensus.Engine.{Engine, PbftError, with_states_lock, release, put_state}
use v2v_blockchain.Consensus.Handlers

module _ {Chain : Type 0} (c : Crypto) (codec : Codec) (calls : Handlers.ChainCalls Chain)
    (now : ℤ) where
  -- commitBlock takes a read lock on the states, so it never gets further while handleCommit holds
  -- the write lock.
  commit_block_locked :
      (seq : ℕ) (e : Engine Chain)
      → can_read e.states_mu ≡ false
      → Handlers.commit_block c codec calls now seq e ≡ (blocked, e)
  unfolding Handlers.commit_block
  commit_block_locked seq e held = rw held refl

  -- What commitBlock would have changed.
  abbrev Untouched : Engine Chain → Engine Chain → Type 0
  Untouched e e' =
      (e'.chain ≡ e.chain)
      × (e'.blocks_committed ≡ e.blocks_committed)
      × (e'.delivered ≡ e.delivered)

  record_commit-Untouched :
      (m : PbftMessage) (s : ConsensusState) (e : Engine Chain)
      → can_read e.states_mu ≡ false
      → Untouched e (Handlers.record_commit c codec calls now m s e).1
  unfolding Handlers.record_commit put_state
  record_commit-Untouched m s e held =
      let s' = add_commit_msg m s in
      elim (Bool-cases
        (ltb (rank s'.state) (rank committed) && has_committed (quorum e.validators) s')) [
          | inr short ↦ rw short (refl, refl, refl)
          | inl reached ↦
              rw
                (
                  reached,
                  commit_block_locked m.seq_number
                      (put_state (record s' { state = committed }) m.seq_number e) held,
                )
                (refl, refl, refl)
        ]

  check_commit-Untouched :
      (m : PbftMessage) (s : ConsensusState) (hash : Option Hash) (e : Engine Chain)
      → can_read e.states_mu ≡ false
      → Untouched e (Handlers.check_commit c codec calls now m s hash e).1
  unfolding Handlers.check_commit
  check_commit-Untouched m s none e held = (refl, refl, refl)
  check_commit-Untouched m s (some hash) e held = elim (Bool-cases (bytes_eq hash s.block_hash)) [
    | inl same ↦ rw same (record_commit-Untouched m s e held)
    | inr other ↦ rw other (refl, refl, refl)
  ]

  commit_body-Untouched :
      (m : PbftMessage) (e : Engine Chain)
      → can_read e.states_mu ≡ false
      → Untouched e (Handlers.commit_body c codec calls now m e).1
  unfolding Handlers.commit_body
  commit_body-Untouched m e held = elim (Option-cases (get e.states m.seq_number)) [
    | inl missing ↦ rw (missing, Handlers.commit_body) (refl, refl, refl)
    | inr (s, found) ↦ rw (found, Handlers.commit_body) (check_commit-Untouched m s _ e held)
  ]

  release-Untouched :
      (start : Engine Chain) (r : Outcome PbftError (Unit {0})) (e : Engine Chain)
      → Untouched start e
      → Untouched start (release (r, e)).1
  unfolding release
  release-Untouched start (ok u) e same = same
  release-Untouched start (err x) e same = same
  release-Untouched start panic e same = same
  release-Untouched start blocked e same = same

  -- handleCommit never adds a block: whatever the engine and the message, the chain, the number of
  -- committed blocks and the blocks handed to the commit handler stay as they were.
  pub handle_commit-chain :
      (m : PbftMessage) (e : Engine Chain)
      → ((Handlers.handle_commit c codec calls now m e).1.chain ≡ e.chain)
        × ((Handlers.handle_commit c codec calls now m e).1.blocks_committed ≡ e.blocks_committed)
        × ((Handlers.handle_commit c codec calls now m e).1.delivered ≡ e.delivered)
  unfolding Handlers.handle_commit with_states_lock
  handle_commit-chain m e = elim (Bool-cases (can_lock e.states_mu)) [
    | inl unlocked ↦
        rw unlocked (
          release-Untouched e _ _ (commit_body-Untouched m (record e { states_mu = writing }) refl))
    | inr held ↦ rw held (refl, refl, refl)
  ]

  record_commit-quorum :
      (m : PbftMessage) (s : ConsensusState) (e : Engine Chain)
      → can_read e.states_mu ≡ false
      → ltb (rank s.state) (rank committed) ≡ true
      → has_committed (quorum e.validators) (add_commit_msg m s) ≡ true
      → Handlers.record_commit c codec calls now m s e
        ≡ (blocked, put_state (record (add_commit_msg m s) { state = committed }) m.seq_number e)
  unfolding Handlers.record_commit put_state add_commit_msg
  record_commit-quorum m s e held early many =
      rw (early, many) (commit_block_locked m.seq_number _ held)

  commit_body-quorum :
      (m : PbftMessage) (e : Engine Chain) (s : ConsensusState)
      → can_read e.states_mu ≡ false
      → get e.states m.seq_number ≡ some s
      → codec.decode_hash m.payload ≡ some s.block_hash
      → ltb (rank s.state) (rank committed) ≡ true
      → has_committed (quorum e.validators) (add_commit_msg m s) ≡ true
      → Handlers.commit_body c codec calls now m e
        ≡ (blocked, put_state (record (add_commit_msg m s) { state = committed }) m.seq_number e)
  unfolding Handlers.commit_body Handlers.check_commit
  commit_body-quorum m e s held found decoded early many =
      let same : bytes_eq s.block_hash s.block_hash ≡ true =
        (bytes_eq_iff s.block_hash s.block_hash).1 refl in
      rw (found, Handlers.commit_body)
        (rw decoded (rw same (record_commit-quorum m s e held early many)))

  -- The commit message that completes the quorum blocks for good, where nobody else holds the lock of
  -- the states, the sequence number has a state that is not committed yet, and the message names its
  -- block: the state is called committed, and then commitBlock waits for the lock that handleCommit
  -- holds and never gives back.
  pub handle_commit-quorum :
      (m : PbftMessage) (e : Engine Chain) (s : ConsensusState)
      → can_lock e.states_mu ≡ true
      → get e.states m.seq_number ≡ some s
      → codec.decode_hash m.payload ≡ some s.block_hash
      → ltb (rank s.state) (rank committed) ≡ true
      → has_committed (quorum e.validators) (add_commit_msg m s) ≡ true
      → ((Handlers.handle_commit c codec calls now m e).0 ≡ blocked)
        × (get (Handlers.handle_commit c codec calls now m e).1.states m.seq_number
            ≡ some (record (add_commit_msg m s) { state = committed }))
        × ((Handlers.handle_commit c codec calls now m e).1.states_mu ≡ writing)
  unfolding Handlers.handle_commit with_states_lock release put_state
  handle_commit-quorum m e s unlocked found decoded early many =
      let done = record (add_commit_msg m s) { state = committed } in
      let own : (m.seq_number == m.seq_number) ≡ true = (==_iff m.seq_number m.seq_number).1 refl in
      let blocks =
        commit_body-quorum m (record e { states_mu = writing }) s refl found decoded early many in
      rw (unlocked, blocks)
        (refl, rw (get-put e.states m.seq_number m.seq_number done, own) refl, refl)
