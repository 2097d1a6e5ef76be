-- ===== src/Tests/ConsensusTests.antt =====
-- The validator set, the pools, signatures of messages and single handler calls.
use v2v_blockchain.Consensus.Checkpoints.{
  CheckpointManager, new_checkpoint_manager, create_checkpoint, checkpoint_of, Kept,
  create_checkpoint-Kept,
}
use v2v_blockchain.Prelude.Int.{pos}
use v2v_blockchain.Prelude.{
  suc, ◌<◌, ◌≤◌, ◌+◌, ◌*◌, ◌≡◌, ◌⊎◌, refl, true, false, not, ◌&&◌, ◌||◌, List, [], ◌∷◌, length,
  replicate, ok, err, arith,
}
use v2v_blockchain.Prelude.Eq.{bytes_eq, bytes_Eq}
use v2v_blockchain.Prelude.Distinct.{Distinct, Within, contains}
use v2v_blockchain.Prelude.Overlap.{common}
use v2v_blockchain.Bytes.{Address}
use v2v_blockchain.Consensus.ValidatorSet.{
  ValidatorSet, quorum, fault_tolerance, is_validator, add_validator, remove_validator,
  already_exists, not_found,
}
use v2v_blockchain.Consensus.ValidatorSet.Members.{add_validator_lem, remove_validator_lem}
use v2v_blockchain.Consensus.Quorum.{quorum-overlap, quorum_bounds}
use v2v_blockchain.Tests.Samples.{owner, other_owner, block_five}

abbrev third : Address
third = replicate 20 7

abbrev fourth : Address
fourth = replicate 20 8

abbrev four : ValidatorSet
four = record {
  validators = owner ∷ other_owner ∷ third ∷ fourth ∷ [];
  primary_idx = 0;
  view_number = 0;
}

four-Distinct : Distinct four.validators
unfolding contains bytes_eq
four-Distinct = (refl, (refl, (refl, (refl, tt))))

remove_validator_lem_example :
    ((is_validator four owner ≡ false) × (remove_validator four owner ≡ err not_found))
    ⊎ ((vs : ValidatorSet) × (remove_validator four owner ≡ ok vs)
        × (is_validator four owner ≡ true)
        × Distinct vs.validators
        × (suc (length vs.validators) ≡ length four.validators)
        × ((a : Address) → is_validator vs a ≡ (is_validator four a && not (bytes_eq owner a)))
        × (vs.view_number ≡ four.view_number))
remove_validator_lem_example = remove_validator_lem four owner four-Distinct

add_validator_lem_example :
    ((is_validator four (replicate 20 9) ≡ true)
      × (add_validator four (replicate 20 9) ≡ err already_exists))
    ⊎ ((vs : ValidatorSet) × (add_validator four (replicate 20 9) ≡ ok vs)
        × (is_validator four (replicate 20 9) ≡ false)
        × Distinct vs.validators
        × ((a : Address) → is_validator vs a ≡ (is_validator four a || bytes_eq (replicate 20 9) a))
        × (vs.view_number ≡ four.view_number))
add_validator_lem_example = add_validator_lem four (replicate 20 9) four-Distinct

abbrev first_three : List Address
first_three = owner ∷ other_owner ∷ third ∷ []

abbrev last_three : List Address
last_three = other_owner ∷ third ∷ fourth ∷ []

first_three-Within : Within first_three four.validators
unfolding contains bytes_eq
first_three-Within = (refl, (refl, (refl, tt)))

last_three-Within : Within last_three four.validators
unfolding contains bytes_eq
last_three-Within = (refl, (refl, (refl, tt)))

quorum-overlap_example : fault_tolerance four < length (common first_three last_three)
unfolding contains bytes_eq quorum
quorum-overlap_example =
    quorum-overlap four first_three last_three (refl, (refl, (refl, tt))) (refl, (refl, (refl, tt)))
      first_three-Within last_three-Within (omega arith) (omega arith)

quorum_bounds_example :
    (quorum four + fault_tolerance four ≤ length four.validators)
    × (2 * fault_tolerance four + 1 ≤ quorum four)
    × (quorum four ≤ 2 * fault_tolerance four + 3)
quorum_bounds_example = quorum_bounds four (omega arith)

create_checkpoint-Kept_example :
    (cm : CheckpointManager) × (create_checkpoint (pos 9) 5 (ok block_five) new_checkpoint_manager
      ≡ ok cm)
    × Kept new_checkpoint_manager 5 (checkpoint_of (pos 9) 5 block_five) cm
create_checkpoint-Kept_example = create_checkpoint-Kept (pos 9) 5 block_five new_checkpoint_manager
