-- ===== src/Platoons/WellFormed/Successors.antt =====
-- platoon/service.go: the leader that handleLeaderLeaving chooses.
use v2v_blockchain.Prelude.{
  ◌≡◌, ap, ◌∙◌, true, false, some, List, [], ◌∷◌, length, ltb, inl, inr, Bool-cases, none-some,
  arith,
}
use mathlib.Core.Path.{subst}
use v2v_blockchain.Prelude.Eq.{bytes_eq, bytes_eq_iff, bytes_Eq}
use v2v_blockchain.Prelude.Distinct.{contains}
use v2v_blockchain.Bytes.{Address}
use v2v_blockchain.Platoons.{Platoon, leader, validator, vehicles, set_role}
use v2v_blockchain.Platoons.Members.{vehicles-set_role}
use v2v_blockchain.Platoons.Service.{first_other}
use v2v_blockchain.Platoons.Service.Leaving.{hand_over, successor}
use v2v_blockchain.Platoons.WellFormed.{IsWellFormed}
use v2v_blockchain.Platoons.WellFormed.Validators.{set_role-IsWellFormed}

-- A successor is a validator other than the leader.
first_other_lem :
    (leader_id : Address) (vs : List Address) (w : Address)
    → first_other leader_id vs ≡ some w
    → (contains vs w ≡ true) × (bytes_eq w leader_id ≡ false)
unfolding first_other contains
first_other_lem leader_id [] w h = cc
first_other_lem leader_id (v ∷ vs) w h = elim (Bool-cases (bytes_eq v leader_id)) [
  | inl same ↦
      let (in_rest, other) = first_other_lem leader_id vs w (rw same at h) in
      (ground (arith, in_rest), other)
  | inr differs ↦
      let e : v ≡ w = cc (rw differs at h) in
      (ground (arith, (bytes_eq_iff v w).1 e), subst (λ a. bytes_eq a leader_id ≡ false) e differs)
]

pub successor_lem :
    (p : Platoon) (w : Address)
    → successor p ≡ some w
    → (contains p.validators w ≡ true) × (bytes_eq w p.leader_id ≡ false)
unfolding successor
successor_lem p w found = elim (Bool-cases (ltb 1 (length p.validators))) [
  | inl several ↦ first_other_lem p.leader_id p.validators w (rw several at found)
  | inr few ↦ absurd (none-some (rw few at found))
]

-- With the leadership handed over, a platoon is well-formed still.
pub hand_over-IsWellFormed :
    (p : Platoon) (w : Address)
    → IsWellFormed p
    → successor p ≡ some w
    → let q = hand_over w p in
      IsWellFormed q × (vehicles q.members ≡ vehicles p.members) × (bytes_eq w p.leader_id ≡ false)
unfolding hand_over
hand_over-IsWellFormed p w h found =
    let (in_validators, other) = successor_lem p w found in
    let p1 : Platoon = record p { members = set_role p.leader_id validator p.members } in
    let h1 = set_role-IsWellFormed p.leader_id validator p h in
    let h2 = set_role-IsWellFormed w leader p1 h1 in
    let same : vehicles (set_role w leader p1.members) ≡ vehicles p.members =
      vehicles-set_role w leader p1.members ∙ vehicles-set_role p.leader_id validator p.members in
    (
      record {
        sound = record {
          distinct_members = h2.sound.distinct_members;
          within_limit = h2.sound.within_limit;
          limit = h2.sound.limit;
          numbered = h2.sound.numbered;
          distinct_validators = h2.sound.distinct_validators;
          validators_are_members = h2.sound.validators_are_members;
        };
        leader_is_member =
            ap (λ vs. contains vs w) same ∙ h.sound.validators_are_members w in_validators;
      },
      same,
      other,
    )
