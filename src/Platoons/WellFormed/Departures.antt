-- ===== src/Platoons/WellFormed/Departures.antt =====
-- platoon/service.go: the platoon that a vehicle which leaves, the leader or another, leaves behind.
use v2v_blockchain.Prelude.{
  suc, ◌≡◌, refl, ap, sym, ◌∙◌, true, false, not, ◌&&◌, List, [], ◌∷◌, length, leb, ◌==◌,
  if◌then◌else◌, inl, inr, Bool-cases, arith, ok,
}
use v2v_blockchain.Prelude.Int.{ℤ}
use v2v_blockchain.Prelude.Eq.{bytes_eq, bytes_eq_iff, bytes_Eq}
use v2v_blockchain.Prelude.Distinct.{contains}
use v2v_blockchain.Bytes.{Address}
use v2v_blockchain.Platoons.{
  Platoon, understaffed, PlatoonMember, vehicles, has_member, is_platoon_validator, remove_member,
  swap_out, number_from, remove_platoon_validator,
}
use v2v_blockchain.Platoons.Members.{Leaves, length-vehicles, swap_out-Leaves}
use v2v_blockchain.Platoons.Service.{or_same, is_exactly_active}
use v2v_blockchain.Platoons.Service.Leaving.{drop_validator, mark_understaffed}
use v2v_blockchain.Platoons.WellFormed.{IsSound, IsWellFormed}
use v2v_blockchain.Platoons.WellFormed.Validators.{remove_validator-IsSound}

-- What a platoon has become when a vehicle has left it, and who leads it then.
pub record Departs (v leader_id : Address) (p q : Platoon) : Type 0 where
  pub leads : q.leader_id ≡ leader_id
  pub well_formed : IsWellFormed q
  pub others :
      (a : Address)
      → contains (vehicles q.members) a ≡ (contains (vehicles p.members) a && not (bytes_eq v a))
  pub shorter : suc (length q.members) ≡ length p.members
  pub not_validator : contains q.validators v ≡ false
  pub status :
      q.status
      ≡ (if leb (length q.members) 3 && is_exactly_active p.status then understaffed else p.status)
  pub not_empty : (length q.members == 0) ≡ false

-- The same with the validator's role gone already.
drop_validator-IsSound :
    (v : Address) (p : Platoon)
    → IsSound p
    → let q = drop_validator v p in
      IsSound q
      × (vehicles q.members ≡ vehicles p.members)
      × (q.leader_id ≡ p.leader_id)
      × (q.status ≡ p.status)
      × (contains q.validators v ≡ false)
unfolding drop_validator or_same remove_platoon_validator is_platoon_validator
drop_validator-IsSound v p h = elim (Bool-cases (contains p.validators v)) [
  | inl found ↦ let dropped = remove_validator-IsSound v p h in rw found (rw found at dropped)
  | inr missing ↦ rw missing (h, refl, refl, refl, missing)
]

contains-nonempty :
    (ms : List PlatoonMember) (a : Address)
    → contains (vehicles ms) a ≡ true
    → (length ms == 0) ≡ false
unfolding contains
contains-nonempty [] a h = cc
contains-nonempty (m ∷ ms) a h = ground arith

removed-IsSound :
    (now : ℤ) (v : Address) (p : Platoon)
    → IsSound p
    → contains p.validators v ≡ false
    → Leaves p.members v (number_from 0 (swap_out v p.members))
    → IsSound (record p { members = number_from 0 (swap_out v p.members); updated_at = now })
removed-IsSound now v p h gone left = record {
  distinct_members = left.distinct;
  within_limit = omega (arith, h.within_limit, left.shorter);
  limit = h.limit;
  numbered = left.numbered;
  distinct_validators = h.distinct_validators;
  validators_are_members =
      λ a e. left.others a ∙ ground (arith, e, gone, h.validators_are_members a, bytes_eq_iff v a);
}

mark_understaffed-fields :
    (p : Platoon)
    → IsWellFormed p
    → let q = mark_understaffed p in
      (q.leader_id ≡ p.leader_id)
      × (q.members ≡ p.members)
      × (q.validators ≡ p.validators)
      × (q.status ≡ (
          if leb (length p.members) 3 && is_exactly_active p.status
          then understaffed
          else p.status))
      × IsWellFormed q
unfolding mark_understaffed
mark_understaffed-fields p h =
    elim (Bool-cases (leb (length p.members) 3 && is_exactly_active p.status)) [
      | inl few ↦ rw few (
        refl,
        refl,
        refl,
        refl,
        record {
          sound = record {
            distinct_members = h.sound.distinct_members;
            within_limit = h.sound.within_limit;
            limit = h.sound.limit;
            numbered = h.sound.numbered;
            distinct_validators = h.sound.distinct_validators;
            validators_are_members = h.sound.validators_are_members;
          };
          leader_is_member = h.leader_is_member;
        },
      )
      | inr enough ↦ rw enough (refl, refl, refl, refl, h)
    ]

-- A member that is not the leader leaves.
pub remove_member-Departs :
    (now : ℤ) (v : Address) (p : Platoon)
    → IsWellFormed p
    → contains (vehicles p.members) v ≡ true
    → bytes_eq p.leader_id v ≡ false
    → (q : Platoon) × (remove_member now v (drop_validator v p) ≡ ok q)
      × Departs v p.leader_id p (mark_understaffed q)
unfolding remove_member has_member
remove_member-Departs now v p h member other =
    let d = drop_validator v p in
    let (sound, vehicles_same, leader_same, status_same, gone) =
      drop_validator-IsSound v p h.sound in
    let found : contains (vehicles d.members) v ≡ true =
      ap (λ vs. contains vs v) vehicles_same ∙ member in
    let left = swap_out-Leaves v d.members sound.distinct_members found in
    let q : Platoon = record d {
      members = number_from 0 (swap_out v d.members);
      updated_at = now;
    } in
    let others : (a : Address)
        → contains (vehicles q.members) a
          ≡ (contains (vehicles p.members) a && not (bytes_eq v a)) =
      λ a. left.others a ∙ ap (λ vs. contains vs a && not (bytes_eq v a)) vehicles_same in
    let well_formed : IsWellFormed q = record {
      sound = removed-IsSound now v d sound gone left;
      leader_is_member =
          ap (contains (vehicles q.members)) leader_same
          ∙ others p.leader_id
          ∙ ground (
            arith,
            h.leader_is_member,
            other,
            bytes_eq_iff p.leader_id v,
            bytes_eq_iff v p.leader_id,
          );
    } in
    let (leads, members, validators, status, marked) = mark_understaffed-fields q well_formed in
    (
      q,
      rw found refl,
      record {
        leads = leads ∙ leader_same;
        well_formed = marked;
        others = λ a. ap (λ ms. contains (vehicles ms) a) members ∙ others a;
        shorter = omega (
          arith,
          ap length members,
          left.shorter,
          length-vehicles d.members,
          length-vehicles p.members,
          ap length vehicles_same,
        );
        not_validator = ap (λ vs. contains vs v) validators ∙ gone;
        status =
            status
            ∙ ap (λ t. if leb (length q.members) 3 && is_exactly_active t then understaffed else t)
                status_same
            ∙ ap
                (λ ms.
                  if leb (length ms) 3 && is_exactly_active p.status
                  then understaffed
                  else p.status)
                (sym members);
        not_empty =
            ap (λ ms. length ms == 0) members
            ∙ contains-nonempty q.members q.leader_id well_formed.leader_is_member;
      },
    )
