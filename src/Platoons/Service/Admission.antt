-- ===== src/Platoons/Service/Admission.antt =====
-- platoon/service.go: the operations that make platoons and let vehicles in.
use v2v_blockchain.Prelude.{
  ◌≡◌, ◌≤◌, refl, ap, ◌∙◌, true, ◌&&◌, ◌||◌, Option, none, some, [], ltb, inl, inr, Bool-cases,
  Option-cases, arith, Outcome, ok, err, panic, blocked,
}
use v2v_blockchain.Prelude.Int.{ℤ}
use v2v_blockchain.Prelude.Eq.{bytes_eq, bytes_eq_iff, bytes_Eq}
use v2v_blockchain.Prelude.Float64.{ltb_f64, f64_zero, f64_five}
use v2v_blockchain.Prelude.Distinct.{contains}
use v2v_blockchain.Bytes.{Bytes, Address}
use v2v_blockchain.Platoons.{
  if_valid, Platoon, PlatoonParams, PlatoonError, MemberRole, none_role, validator, follower,
  active, PlatoonStatus, can_form_consensus, leader, validate, new_platoon, vehicles, add_member,
  add_platoon_validator,
}
use v2v_blockchain.Platoons.WellFormed.{IsSound, IsWellFormed, Yields, Joins, add_member-Joins}
use v2v_blockchain.Platoons.WellFormed.Validators.{add_validator-IsWellFormed}
use v2v_blockchain.Platoons.Service.{is_forming, or_same}
use v2v_blockchain.Platoons.Service.Creating.{then_validator, with_leader, built}
use v2v_blockchain.Platoons.Service.Joining.{activate, join_as}

abbrev Limited : PlatoonParams → Option PlatoonError → Type 0
Limited params none = params.max_vehicles ≤ 100
Limited params (some e) = Unit

validate-Limited : (params : PlatoonParams) → Limited params (validate params)
unfolding validate
validate-Limited params = elim (Bool-cases (ltb params.max_vehicles 4)) [
  | inl few ↦ rw few tt
  | inr enough ↦ rw enough (elim (Bool-cases (ltb 100 params.max_vehicles)) [
    | inl many ↦ rw many tt
    | inr limited ↦ rw limited (elim (Bool-cases (ltb_f64 params.target_speed f64_zero)) [
      | inl negative ↦ rw negative tt
      | inr speed ↦ rw speed (elim (Bool-cases (ltb_f64 params.safe_distance f64_five)) [
        | inl short ↦ rw short tt
        | inr distance ↦ rw distance (ground (arith, limited))
      ])
    ])
  ])
]

-- The platoon that NewPlatoon yields is sound and has no members.
abbrev Empty : Address → Platoon → Type 0
Empty leader_id p = IsSound p × (p.members ≡ []) × (p.leader_id ≡ leader_id)

pub new_platoon-Empty :
    (now : ℤ) (id : Bytes) (leader_id : Address) (params : PlatoonParams)
    → Yields (Empty leader_id) (new_platoon now id leader_id params)
unfolding new_platoon if_valid
new_platoon-Empty now id leader_id params = elim (Option-cases (validate params)) [
  | inr (e, bad) ↦ rw bad tt
  | inl good ↦
      let limited : params.max_vehicles ≤ 100 = rw good at (validate-Limited params) in
      rw good (
        record {
          distinct_members = tt;
          within_limit = omega arith;
          limit = limited;
          numbered = tt;
          distinct_validators = tt;
          validators_are_members = λ a e. e;
        },
        refl,
        refl,
      )
]

then_validator-IsWellFormed :
    (v : Address) (p : Platoon) (r : Outcome PlatoonError Platoon)
    → p.leader_id ≡ v
    → Yields (Joins v p) r
    → Yields IsWellFormed (then_validator v r)
unfolding then_validator
then_validator-IsWellFormed v p (err e) l h = tt
then_validator-IsWellFormed v p panic l h = tt
then_validator-IsWellFormed v p blocked l h = tt
then_validator-IsWellFormed v p (ok q) l h =
    let member : contains (vehicles q.members) v ≡ true =
      h.members v ∙ ground (arith, bytes_eq_iff v v) in
    add_validator-IsWellFormed v q
      (record {
        sound = h.sound;
        leader_is_member = ap (contains (vehicles q.members)) (h.leader ∙ l) ∙ member;
      })
      member

pub built-IsWellFormed :
    (now : ℤ) (leader_id : Address) (name : Bytes) (r : Outcome PlatoonError Platoon)
    → Yields (Empty leader_id) r
    → Yields IsWellFormed (built now leader_id name r)
unfolding built with_leader
built-IsWellFormed now leader_id name (err e) h = tt
built-IsWellFormed now leader_id name panic h = tt
built-IsWellFormed now leader_id name blocked h = tt
built-IsWellFormed now leader_id name (ok p) h =
    let (sound, empty, led) = h in
    let named : Platoon = record p { name = name } in
    let sound' : IsSound named = record {
      distinct_members = sound.distinct_members;
      within_limit = sound.within_limit;
      limit = sound.limit;
      numbered = sound.numbered;
      distinct_validators = sound.distinct_validators;
      validators_are_members = sound.validators_are_members;
    } in
    then_validator-IsWellFormed leader_id named (add_member now leader_id leader named) led
      (add_member-Joins now leader_id leader named sound')

pub with_status-IsWellFormed :
    (status : PlatoonStatus) (dissolved_at updated_at : ℤ) (p : Platoon)
    → IsWellFormed p
    → IsWellFormed
        (record p { status = status; dissolved_at = dissolved_at; updated_at = updated_at })
with_status-IsWellFormed status dissolved_at updated_at p h = record {
  sound = record {
    distinct_members = h.sound.distinct_members;
    within_limit = h.sound.within_limit;
    limit = h.sound.limit;
    numbered = h.sound.numbered;
    distinct_validators = h.sound.distinct_validators;
    validators_are_members = h.sound.validators_are_members;
  };
  leader_is_member = h.leader_is_member;
}

pub activate-IsWellFormed : (p : Platoon) → IsWellFormed p → IsWellFormed (activate p)
unfolding activate
activate-IsWellFormed p h = elim (Bool-cases (is_forming p.status && can_form_consensus p)) [
  | inl ready ↦ rw ready (with_status-IsWellFormed active p.dissolved_at p.updated_at p h)
  | inr waiting ↦ rw waiting h
]

pub or_same-IsWellFormed :
    (p : Platoon) (o : Outcome PlatoonError Platoon)
    → IsWellFormed p
    → Yields IsWellFormed o
    → IsWellFormed (or_same p o)
unfolding or_same
or_same-IsWellFormed p (ok q) h y = y
or_same-IsWellFormed p (err e) h y = h
or_same-IsWellFormed p panic h y = h
or_same-IsWellFormed p blocked h y = h

-- A vehicle that has been added becomes a validator, or it does not.
pub join_as-IsWellFormed :
    (role : MemberRole) (v : Address) (p q : Platoon)
    → IsWellFormed p
    → Joins v p q
    → IsWellFormed (join_as role v q)
unfolding join_as or_same
join_as-IsWellFormed role v p q h joins = joined role
  where
    member : contains (vehicles q.members) v ≡ true
    member = joins.members v ∙ ground (arith, bytes_eq_iff v v)

    with_member : IsWellFormed q
    with_member = record {
      sound = joins.sound;
      leader_is_member =
          ap (contains (vehicles q.members)) joins.leader
          ∙ joins.members p.leader_id
          ∙ ap (λ b. b || bytes_eq v p.leader_id) h.leader_is_member;
    }

    joined : (role : MemberRole) → IsWellFormed (join_as role v q)
    joined validator =
        or_same-IsWellFormed q (add_platoon_validator v q) with_member
          (add_validator-IsWellFormed v q with_member member)
    joined none_role = with_member
    joined leader = with_member
    joined follower = with_member
