-- ===== src/Chain/Forks.antt =====
-- internal/core/blockchain/fork.go: detected forks. HandleReorganization only looks for the common
-- ancestor and writes a log, and is left out. The detector's own lock is held by one call at a time.
pub mod Confirmed
use v2v_blockchain.Prelude.{
  ℕ, ◌+◌, ◌-◌, ◌%◌, ◌^◌, suc, Bool, true, false, not, ◌&&◌, Option, none, some, List, [], ◌∷◌, ◌++◌,
  map, length, ltb, leb, ◌==◌, if◌then◌else◌, Outcome, ok, err, panic, blocked,
}
use v2v_blockchain.Prelude.Int.{ℤ, pos}
use v2v_blockchain.Prelude.Eq.{numbers_Eq, bytes_eq}
use v2v_blockchain.Prelude.GoMap.{GoMap, get, put}
use v2v_blockchain.Bytes.{Bytes, Hash, empty_hash}
use v2v_blockchain.Crypto.{Crypto}
use v2v_blockchain.Block.{Block}
use v2v_blockchain.Chain.{Blockchain, read_locked, get_block_by_hash}
use v2v_blockchain.Chain.Storage.{Database, BlockCodec, StorageError, get_block_by_height}

-- `children` is never set.
pub record Fork : Type 0 where
  pub height : ℕ
  pub hash : Hash
  pub parent_hash : Hash
  pub timestamp : ℤ
  pub difficulty : ℕ
  pub is_main_chain : Bool

-- A negative limit is not modelled.
pub record ForkConfig : Type 0 where
  pub max_fork_depth : ℕ
  pub confirmation_depth : ℕ
  pub reorg_limit : ℕ

abbrev pub default_fork_config : ForkConfig
default_fork_config = record { max_fork_depth = 100; confirmation_depth = 6; reorg_limit = 50 }

pub record ForkDetector : Type 0 where
  pub forks : GoMap ℕ (List Fork)
  pub config : ForkConfig

pub data ForkError : Type 0 where
  no_forks : ForkError
  no_main_block : StorageError → ForkError

unfoldable pub config_or_default : Option ForkConfig → ForkConfig
config_or_default none = default_fork_config
config_or_default (some config) = config

unfoldable pub new_fork_detector : Option ForkConfig → ForkDetector
new_fork_detector config = record { forks = []; config = config_or_default config }

unfoldable pub forks_or_none : Option (List Fork) → List Fork
forks_or_none none = []
forks_or_none (some forks) = forks

unfoldable pub get_forks_at_height : ℕ → ForkDetector → List Fork
get_forks_at_height height fd = forks_or_none (get fd.forks height)

unfoldable pub add_fork : Fork → ForkDetector → ForkDetector
add_fork fork fd = record fd {
  forks = put fd.forks fork.height (get_forks_at_height fork.height fd ++ fork ∷ []);
}

unfoldable pub clear_forks : ForkDetector → ForkDetector
clear_forks fd = record fd { forks = [] }

unfoldable pub join_forks : GoMap ℕ (List Fork) → List Fork
join_forks [] = []
join_forks ((height, forks) ∷ rest) = forks ++ join_forks rest

unfoldable pub get_all_forks : ForkDetector → List Fork
get_all_forks fd = join_forks fd.forks

-- a - b on uint64
unfoldable pub sub_u64 : ℕ → ℕ → ℕ
sub_u64 a b = (a + 2 ^ 64 - b) % 2 ^ 64

-- IsConfirmed, for the latest height of the main chain.
unfoldable pub is_confirmed : ℕ → ℕ → ForkDetector → Bool
is_confirmed latest height fd = leb fd.config.confirmation_depth (sub_u64 latest height)

-- int(latestHeight-height) > MaxForkDepth; the conversion is negative from 2^63 on.
unfoldable pub is_too_old : ℕ → ℕ → ForkConfig → Bool
is_too_old latest height config =
    let depth = sub_u64 latest height in ltb config.max_fork_depth depth && ltb depth (2 ^ 63)

unfoldable pub keep_young : ℕ → ForkConfig → GoMap ℕ (List Fork) → ℕ × GoMap ℕ (List Fork)
keep_young latest config [] = (0, [])
keep_young latest config ((height, forks) ∷ rest) =
    let (pruned, kept) = keep_young latest config rest in
    if is_too_old latest height config then (suc pruned, kept) else (pruned, (height, forks) ∷ kept)

unfoldable pub prune_old_forks : ℕ → ForkDetector → ℕ × ForkDetector
prune_old_forks latest fd =
    let (pruned, kept) = keep_young latest fd.config fd.forks in
    (pruned, record fd { forks = kept })

-- The fork that a block makes beside the main chain's.
unfoldable pub fork_of : Block → Fork
fork_of block = record {
  height = block.header.height;
  hash = block.header.hash;
  parent_hash = block.header.prev_hash;
  timestamp = block.header.timestamp;
  difficulty = 1;
  is_main_chain = false;
}

unfoldable pub compare_existing :
    Block
    → Outcome StorageError Block
    → ForkDetector
    → Outcome ForkError (Option Fork) × ForkDetector
compare_existing block (ok existing) fd =
    if not (bytes_eq existing.header.hash block.header.hash)
    then (ok (some (fork_of block)), add_fork (fork_of block) fd)
    else (ok none, fd)
compare_existing block (err e) fd = (ok none, fd)
compare_existing block panic fd = (panic, fd)
compare_existing block blocked fd = (blocked, fd)

-- What the parent's lookup answers is ignored, when it does.
unfoldable pub after_parent :
    Outcome StorageError Block
    → Block
    → Outcome StorageError Block
    → ForkDetector
    → Outcome ForkError (Option Fork) × ForkDetector
after_parent (ok parent) block existing fd = compare_existing block existing fd
after_parent (err e) block existing fd = compare_existing block existing fd
after_parent panic block existing fd = (panic, fd)
after_parent blocked block existing fd = (blocked, fd)

-- calculateChainScore
unfoldable pub chain_score : Hash → ℕ
chain_score hash = 1

-- sort.Slice by descending score is the parameter `sort`.
unfoldable pub first_fork : List (Fork × ℕ) → Outcome ForkError Fork
first_fork [] = panic
first_fork ((fork, score) ∷ rest) = ok fork

unfoldable pub best_fork :
    (List (Fork × ℕ) → List (Fork × ℕ))
    → ℕ
    → List Fork
    → Outcome StorageError Block
    → Outcome ForkError Fork
best_fork sort height forks (ok main) =
    let main_fork : Fork = record {
      height = height;
      hash = main.header.hash;
      parent_hash = empty_hash;
      timestamp = pos 0;
      difficulty = 0;
      is_main_chain = false;
    } in
    first_fork (
      sort (
        (main_fork, chain_score main.header.hash)
        ∷ map (λ fork. (fork, chain_score fork.hash)) forks))
best_fork sort height forks (err e) = err (no_main_block e)
best_fork sort height forks panic = panic
best_fork sort height forks blocked = blocked

module _ {Db : Type 0} (c : Crypto) (sum256 : Bytes → Hash) (d : Database Db) (codec : BlockCodec)
    (main_chain : Blockchain Db) where
  unfoldable pub read_block_by_height : ℕ → Outcome StorageError Block
  read_block_by_height height =
      read_locked c sum256 d codec main_chain (get_block_by_height d codec height main_chain.db)

  unfoldable pub detect_fork : Block → ForkDetector → Outcome ForkError (Option Fork) × ForkDetector
  detect_fork block fd =
      if sub_u64 block.header.height 1 == 0
      then (ok none, fd)
      else after_parent (get_block_by_hash c sum256 d codec block.header.prev_hash main_chain) block
          (read_block_by_height block.header.height) fd

  unfoldable pub resolve_fork :
      (List (Fork × ℕ) → List (Fork × ℕ)) → ℕ → ForkDetector → Outcome ForkError Fork
  resolve_fork sort height fd =
      let forks = get_forks_at_height height fd in
      if length forks == 0
      then err no_forks
      else best_fork sort height forks (read_block_by_height height)
