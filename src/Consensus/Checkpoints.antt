-- ===== src/Consensus/Checkpoints.antt =====
-- internal/core/consensus/checkpoint.go: checkpoints of the chain. What GetBlockByHeight answers is an
-- argument. The proof of a checkpoint is never set.
use v2v_blockchain.Prelude.{
  ℕ, ◌≡◌, refl, ap, ◌∙◌, Option, none, some, List, [], ◌∷◌, ◌++◌, length, ltb, ◌==◌, if◌then◌else◌,
  Outcome, ok, err, panic, blocked, arith,
}
use v2v_blockchain.Prelude.Int.{ℤ}
use v2v_blockchain.Prelude.Eq.{numbers_Eq}
use v2v_blockchain.Prelude.GoMap.{GoMap, get, put, get-put}
use v2v_blockchain.Bytes.{Hash}
use v2v_blockchain.Block.{Block}
use v2v_blockchain.Chain.Storage.{StorageError}

pub record Checkpoint : Type 0 where
  pub seq_number : ℕ
  pub block_hash : Hash
  pub timestamp : ℤ

-- `requests` is the buffer of the channel.
pub record CheckpointManager : Type 0 where
  pub checkpoints : GoMap ℕ Checkpoint
  pub last_stable : ℕ
  pub requests : List ℕ

unfoldable pub new_checkpoint_manager : CheckpointManager
new_checkpoint_manager = record { checkpoints = []; last_stable = 0; requests = [] }

-- The buffer has room for ten; a request beyond is dropped.
unfoldable pub request_checkpoint : ℕ → CheckpointManager → CheckpointManager
request_checkpoint seq cm =
    if ltb (length cm.requests) 10 then record cm { requests = cm.requests ++ seq ∷ [] } else cm

unfoldable pub get_checkpoint : ℕ → CheckpointManager → Option Checkpoint
get_checkpoint seq cm = get cm.checkpoints seq

-- `none` is a nil pointer.
unfoldable pub get_last_stable_checkpoint : CheckpointManager → Option Checkpoint
get_last_stable_checkpoint cm = get cm.checkpoints cm.last_stable

unfoldable pub keep_from : ℕ → GoMap ℕ Checkpoint → GoMap ℕ Checkpoint
keep_from stable [] = []
keep_from stable ((seq, cp) ∷ cps) =
    let rest = keep_from stable cps in if ltb seq stable then rest else (seq, cp) ∷ rest

unfoldable pub collect_old : ℕ → CheckpointManager → CheckpointManager
collect_old stable cm = record cm {
  checkpoints = keep_from stable cm.checkpoints;
  last_stable = stable;
}

unfoldable pub checkpoint_of : ℤ → ℕ → Block → Checkpoint
checkpoint_of now seq block = record {
  seq_number = seq;
  block_hash = block.header.hash;
  timestamp = now;
}

unfoldable pub create_checkpoint :
    ℤ → ℕ → Outcome StorageError Block → CheckpointManager → Outcome (Unit {0}) CheckpointManager
create_checkpoint now seq (ok block) cm = ok (
    collect_old seq
      (record cm { checkpoints = put cm.checkpoints seq (checkpoint_of now seq block) }))
create_checkpoint now seq (err e) cm = ok cm
create_checkpoint now seq panic cm = panic
create_checkpoint now seq blocked cm = blocked

-- One round of the loop: a request is taken from the channel, if there is one.
unfoldable pub next_request :
    ℤ
    → (ℕ → Outcome StorageError Block)
    → List ℕ
    → CheckpointManager
    → Outcome (Unit {0}) CheckpointManager
next_request now block_at [] cm = ok cm
next_request now block_at (seq ∷ rest) cm =
    create_checkpoint now seq (block_at seq) (record cm { requests = rest })

get-keep_from :
    (stable : ℕ) (cps : GoMap ℕ Checkpoint) (j : ℕ)
    → get (keep_from stable cps) j ≡ (if ltb j stable then none else get cps j)
unfolding keep_from get
get-keep_from stable [] j = ground arith
get-keep_from stable ((seq, cp) ∷ cps) j = ground (arith, get-keep_from stable cps j)

-- What the manager holds under a number after a checkpoint has been created.
abbrev pub Kept : CheckpointManager → ℕ → Checkpoint → CheckpointManager → Type 0
Kept cm seq cp cm' =
    (get_last_stable_checkpoint cm' ≡ some cp)
    × (cm'.last_stable ≡ seq)
    × ((j : ℕ)
        → get_checkpoint j cm'
          ≡ (if ltb j seq then none else if seq == j then some cp else get_checkpoint j cm))

-- Creating a checkpoint for a block of the chain makes it the last stable one, whether its number is
-- above or below that of the last; all with smaller numbers are dropped, and those with greater ones
-- stay.
pub create_checkpoint-Kept :
    (now : ℤ) (seq : ℕ) (block : Block) (cm : CheckpointManager)
    → (cm' : CheckpointManager) × (create_checkpoint now seq (ok block) cm ≡ ok cm')
      × Kept cm seq (checkpoint_of now seq block) cm'
unfolding create_checkpoint collect_old get_checkpoint get_last_stable_checkpoint
create_checkpoint-Kept now seq block cm =
    let cp = checkpoint_of now seq block in
    let after = put cm.checkpoints seq cp in
    let lookup : (j : ℕ)
        → get (keep_from seq after) j
          ≡ (if ltb j seq then none else if seq == j then some cp else get cm.checkpoints j) =
      λ j.
        get-keep_from seq after j
        ∙ ap (λ o. if ltb j seq then none else o) (get-put cm.checkpoints seq j cp) in
    (_, refl, (lookup seq ∙ ground arith, refl, lookup))
