-- ===== src/Consensus/Quorum.antt =====
-- types.go of consensus: what a quorum guarantees.
use v2v_blockchain.Prelude.{◌+◌, ◌*◌, ◌≤◌, ◌<◌, List, length, arith}
use v2v_blockchain.Prelude.Eq.{bytes_Eq}
use v2v_blockchain.Prelude.Distinct.{Distinct, Within}
use v2v_blockchain.Prelude.Overlap.{common, length-common}
use v2v_blockchain.Bytes.{Address}
use v2v_blockchain.Consensus.ValidatorSet.{ValidatorSet, quorum, fault_tolerance}

-- Two quorums of different senders among the validators share more than f = FaultTolerance()
-- validators, whatever their number: one that is not faulty is in both.
pub quorum-overlap :
    (vs : ValidatorSet) (xs ys : List Address)
    → Distinct xs
    → Distinct ys
    → Within xs vs.validators
    → Within ys vs.validators
    → quorum vs ≤ length xs
    → quorum vs ≤ length ys
    → fault_tolerance vs < length (common xs ys)
unfolding quorum fault_tolerance
quorum-overlap vs xs ys dx dy wx wy qx qy =
    omega (arith, length-common xs ys vs.validators dx dy wx wy)

-- In a non-empty set the validators that are not faulty are enough for a quorum, and a quorum is
-- 2f + 1 or up to two more than that.
pub quorum_bounds :
    (vs : ValidatorSet)
    → 0 < length vs.validators
    → (quorum vs + fault_tolerance vs ≤ length vs.validators)
      × (2 * fault_tolerance vs + 1 ≤ quorum vs)
      × (quorum vs ≤ 2 * fault_tolerance vs + 3)
unfolding quorum fault_tolerance
quorum_bounds vs h = omega arith
