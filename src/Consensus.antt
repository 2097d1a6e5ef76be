-- ===== src/Consensus.antt =====
-- internal/core/consensus: the PBFT engine, its messages and its validator set.
pub mod Message
pub mod State
pub mod Engine
pub mod Handlers
pub mod ViewChange
pub mod Invariant
pub mod Run
pub mod ValidatorSet
pub mod Quorum
pub mod Checkpoints
