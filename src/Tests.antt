-- ===== src/Tests.antt =====
-- Runs of the definitions on small inputs, and each theorem with hypotheses at one of them.
pub mod Samples
mod MerkleTests
mod BlockTests
mod ConsensusTests
mod RunTests
mod CallTests
mod ChainTests
mod MessageTests
mod PlatoonTests
mod PoolTests
