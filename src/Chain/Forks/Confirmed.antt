-- ===== src/Chain/Forks/Confirmed.antt =====
-- fork.go: IsConfirmed, with the uint64 subtraction that it makes.
use v2v_blockchain.Prelude.{ℕ, ◌+◌, ◌^◌, ◌≡◌, ◌≤◌, ◌<◌, ◌↔◌, ◌⊎◌, true, arith}
use v2v_blockchain.Chain.Forks.{ForkDetector, is_confirmed, sub_u64}

-- IsConfirmed answers yes for a height that is at least the confirmation depth below the latest height,
-- and also for every height above the latest one by at most 2^64 less the depth: the subtraction wraps
-- around, so blocks that the main chain does not have yet count as confirmed. For all others it
-- answers no. (Both heights are uint64 numbers.)
pub is_confirmed_lem :
    (latest height : ℕ) (fd : ForkDetector)
    → latest < 2 ^ 64
    → height < 2 ^ 64
    → (is_confirmed latest height fd ≡ true) ↔ (
        (height + fd.config.confirmation_depth ≤ latest)
        ⊎ ((latest < height) × (height + fd.config.confirmation_depth ≤ latest + 2 ^ 64)))
unfolding is_confirmed sub_u64
is_confirmed_lem latest height fd a b = ground arith
