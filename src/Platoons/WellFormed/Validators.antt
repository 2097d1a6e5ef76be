-- ===== src/Platoons/WellFormed/Validators.antt =====
-- platoon/types.go: changes of roles and validators keep a platoon well-formed.
use v2v_blockchain.Prelude.{
  ◌≡◌, refl, ap, sym, ◌∙◌, true, false, length, inl, inr, Bool-cases, arith,
}
use mathlib.Core.Path.{subst}
use v2v_blockchain.Prelude.Eq.{bytes_eq_iff, bytes_Eq}
use v2v_blockchain.Prelude.Distinct.{
  contains, Distinct, contains-append, append-Distinct, contains-without_first_iff,
  without_first-Distinct,
}
use v2v_blockchain.Bytes.{Address}
use v2v_blockchain.Platoons.{
  Platoon, MemberRole, validator, follower, vehicles, is_platoon_validator, set_role,
  add_platoon_validator, remove_platoon_validator,
}
use v2v_blockchain.Platoons.Members.{length-vehicles, vehicles-set_role, set_role-Numbered}
use v2v_blockchain.Platoons.WellFormed.{IsSound, IsWellFormed, Yields, Yields-map}

-- What setting a role leaves as it was.
set_role-IsSound :
    (v : Address) (role : MemberRole) (p : Platoon)
    → IsSound p
    → IsSound (record p { members = set_role v role p.members })
set_role-IsSound v role p h =
    let same = vehicles-set_role v role p.members in
    record {
      distinct_members = subst Distinct (sym same) h.distinct_members;
      within_limit = omega (
        arith,
        h.within_limit,
        length-vehicles p.members,
        length-vehicles (set_role v role p.members),
        ap length same,
      );
      limit = h.limit;
      numbered = set_role-Numbered v role 0 p.members h.numbered;
      distinct_validators = h.distinct_validators;
      validators_are_members = λ a e. ap (λ vs. contains vs a) same ∙ h.validators_are_members a e;
    }

pub set_role-IsWellFormed :
    (v : Address) (role : MemberRole) (p : Platoon)
    → IsWellFormed p
    → IsWellFormed (record p { members = set_role v role p.members })
set_role-IsWellFormed v role p h = record {
  sound = set_role-IsSound v role p h.sound;
  leader_is_member =
      ap (λ vs. contains vs p.leader_id) (vehicles-set_role v role p.members) ∙ h.leader_is_member;
}

-- AddValidator of a member keeps a platoon sound.
add_validator-IsSound :
    (v : Address) (p : Platoon)
    → IsSound p
    → contains (vehicles p.members) v ≡ true
    → Yields
        (λ q. IsSound q × (vehicles q.members ≡ vehicles p.members) × (q.leader_id ≡ p.leader_id))
        (add_platoon_validator v p)
unfolding add_platoon_validator is_platoon_validator
add_validator-IsSound v p h member = elim (Bool-cases (contains p.validators v)) [
  | inl old ↦ rw old tt
  | inr new ↦
      let s = set_role-IsSound v validator p h in
      rw new (
        record {
          distinct_members = s.distinct_members;
          within_limit = s.within_limit;
          limit = s.limit;
          numbered = s.numbered;
          distinct_validators = append-Distinct p.validators v h.distinct_validators new;
          validators_are_members = λ a e.
              ap (λ vs. contains vs a) (vehicles-set_role v validator p.members)
              ∙ ground (
                arith,
                e,
                contains-append p.validators v a,
                h.validators_are_members a,
                bytes_eq_iff v a,
                member,
              );
        },
        vehicles-set_role v validator p.members,
        refl,
      )
]

pub add_validator-IsWellFormed :
    (v : Address) (p : Platoon)
    → IsWellFormed p
    → contains (vehicles p.members) v ≡ true
    → Yields IsWellFormed (add_platoon_validator v p)
add_validator-IsWellFormed v p h member =
    Yields-map (add_platoon_validator v p)
      (λ q y. record {
        sound = y.0;
        leader_is_member =
            ap (λ vs. contains vs q.leader_id) y.1
            ∙ ap (contains (vehicles p.members)) y.2
            ∙ h.leader_is_member;
      })
      (add_validator-IsSound v p h.sound member)

-- RemoveValidator keeps a platoon sound, and takes out that validator and no other.
pub remove_validator-IsSound :
    (v : Address) (p : Platoon)
    → IsSound p
    → Yields
        (λ q.
          IsSound q
          × (vehicles q.members ≡ vehicles p.members)
          × (q.leader_id ≡ p.leader_id)
          × (q.status ≡ p.status)
          × (contains q.validators v ≡ false))
        (remove_platoon_validator v p)
unfolding remove_platoon_validator is_platoon_validator
remove_validator-IsSound v p h = elim (Bool-cases (contains p.validators v)) [
  | inr missing ↦ rw missing tt
  | inl found ↦
      let s = set_role-IsSound v follower p h in
      let cut =
        λ (a : Address). contains-without_first_iff v p.validators a h.distinct_validators in
      rw found (
        record {
          distinct_members = s.distinct_members;
          within_limit = s.within_limit;
          limit = s.limit;
          numbered = s.numbered;
          distinct_validators = without_first-Distinct v p.validators h.distinct_validators;
          validators_are_members = λ a e.
              ap (λ vs. contains vs a) (vehicles-set_role v follower p.members)
              ∙ ground (arith, e, cut a, h.validators_are_members a);
        },
        vehicles-set_role v follower p.members,
        refl,
        refl,
        ground (arith, cut v, bytes_eq_iff v v),
      )
]

pub remove_validator-IsWellFormed :
    (v : Address) (p : Platoon)
    → IsWellFormed p
    → Yields IsWellFormed (remove_platoon_validator v p)
remove_validator-IsWellFormed v p h =
    Yields-map (remove_platoon_validator v p)
      (λ q y. record {
        sound = y.0;
        leader_is_member =
            ap (λ vs. contains vs q.leader_id) y.1
            ∙ ap (contains (vehicles p.members)) y.2
            ∙ h.leader_is_member;
      })
      (remove_validator-IsSound v p h.sound)
