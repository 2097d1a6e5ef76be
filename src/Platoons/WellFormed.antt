-- ===== src/Platoons/WellFormed.antt =====
-- platoon/types.go: what stays true of a platoon while its members and validators change.
pub mod Validators
pub mod Departures
pub mod Successors
use v2v_blockchain.Prelude.{
  ℕ, suc, ◌≡◌, ◌≤◌, ◌<◌, refl, ap, sym, ◌∙◌, Bool, true, false, not, ◌&&◌, ◌||◌, Option, none, some,
  List, [], ◌∷◌, ◌++◌, length, length-append, leb, inl, inr, Bool-cases, arith, Outcome, ok, err,
  panic, blocked,
}
use mathlib.Core.Path.{subst}
use v2v_blockchain.Prelude.Int.{ℤ}
use v2v_blockchain.Prelude.Eq.{bytes_eq, bytes_eq_iff, bytes_Eq}
use v2v_blockchain.Prelude.Distinct.{
  contains, Distinct, contains-append, append-Distinct, without_first, contains-without_first_iff,
  without_first-Distinct,
}
use v2v_blockchain.Bytes.{Address}
use v2v_blockchain.Platoons.{
  Platoon, PlatoonMember, PlatoonError, MemberRole, validator, follower, vehicles, has_member,
  is_platoon_validator, is_blacklisted, add_member, remove_member, set_role, swap_out, number_from,
  add_platoon_validator, remove_platoon_validator,
}
use v2v_blockchain.Platoons.Members.{
  Numbered, Leaves, length-vehicles, vehicles-append, append-Numbered, vehicles-set_role,
  set_role-Numbered, swap_out-Leaves,
}

-- No vehicle is a member twice and there are at most as many as the parameters allow; members stand at
-- the positions 0, 1, 2 and so on; no validator is listed twice, and each is a member.
pub record IsSound (p : Platoon) : Type 0 where
  pub distinct_members : Distinct (vehicles p.members)
  pub within_limit : length p.members ≤ p.params.max_vehicles
  pub limit : p.params.max_vehicles ≤ 100
  pub numbered : Numbered 0 p.members
  pub distinct_validators : Distinct p.validators
  pub validators_are_members :
      (a : Address) → contains p.validators a ≡ true → contains (vehicles p.members) a ≡ true

-- And the leader is a member.
pub record IsWellFormed (p : Platoon) : Type 0 where
  pub sound : IsSound p
  pub leader_is_member : contains (vehicles p.members) p.leader_id ≡ true

-- A property of the platoon that an operation yields, where it yields one.
abbrev pub Yields : (Platoon → Type 0) → Outcome PlatoonError Platoon → Type 0
Yields P (ok q) = P q
Yields P _ = Unit

pub Yields-map :
    {P Q : Platoon → Type 0} (o : Outcome PlatoonError Platoon)
    → ((q : Platoon) → P q → Q q)
    → Yields P o
    → Yields Q o
Yields-map (ok q) f y = f q y
Yields-map (err e) f y = tt
Yields-map panic f y = tt
Yields-map blocked f y = tt

-- The members after AddMember.
pub record Joins (v : Address) (p q : Platoon) : Type 0 where
  pub sound : IsSound q
  pub members :
      (a : Address)
      → contains (vehicles q.members) a ≡ (contains (vehicles p.members) a || bytes_eq v a)
  pub count : length q.members ≡ suc (length p.members)
  pub leader : q.leader_id ≡ p.leader_id
  pub validators : q.validators ≡ p.validators

append-Joins :
    (m : PlatoonMember) (p q : Platoon)
    → IsSound p
    → contains (vehicles p.members) m.vehicle_id ≡ false
    → length p.members < p.params.max_vehicles
    → m.position ≡ length p.members
    → q.members ≡ p.members ++ m ∷ []
    → q.params ≡ p.params
    → q.leader_id ≡ p.leader_id
    → q.validators ≡ p.validators
    → Joins m.vehicle_id p q
append-Joins m p q h new room position members params leader_id validators =
    let gained : vehicles q.members ≡ vehicles p.members ++ m.vehicle_id ∷ [] =
      ap vehicles members ∙ vehicles-append p.members m in
    let held : (a : Address)
        → contains (vehicles q.members) a
          ≡ (contains (vehicles p.members) a || bytes_eq m.vehicle_id a) =
      λ a. ap (λ vs. contains vs a) gained ∙ contains-append (vehicles p.members) m.vehicle_id a in
    let count : length q.members ≡ suc (length p.members) =
      omega (arith, ap length members, length-append p.members (m ∷ [])) in
    record {
      sound = record {
        distinct_members =
            subst Distinct (sym gained)
              (append-Distinct (vehicles p.members) m.vehicle_id h.distinct_members new);
        within_limit = omega (arith, count, room, ap (λ x. x.max_vehicles) params);
        limit = omega (arith, h.limit, ap (λ x. x.max_vehicles) params);
        numbered =
            subst (Numbered 0) (sym members)
              (append-Numbered 0 p.members m h.numbered (omega (arith, position)));
        distinct_validators = subst Distinct (sym validators) h.distinct_validators;
        validators_are_members = λ a e.
            let old = h.validators_are_members a (sym (ap (λ vs. contains vs a) validators) ∙ e) in
            held a ∙ ap (λ b. b || bytes_eq m.vehicle_id a) old;
      };
      members = held;
      count = count;
      leader = leader_id;
      validators = validators;
    }

-- AddMember on a sound platoon, where it does not fail: the vehicle was no member, and the platoon
-- gains it and no other, stays sound and keeps its leader and validators.
pub add_member-Joins :
    (now : ℤ) (v : Address) (role : MemberRole) (p : Platoon)
    → IsSound p
    → Yields (Joins v p) (add_member now v role p)
unfolding add_member has_member is_blacklisted
add_member-Joins now v role p h = elim (Bool-cases (contains (vehicles p.members) v)) [
  | inl old ↦ rw old tt
  | inr new ↦ rw new (elim (Bool-cases (contains p.blacklist v)) [
    | inl listed ↦ rw listed tt
    | inr unlisted ↦ rw unlisted (elim (Bool-cases (leb p.params.max_vehicles (length p.members))) [
      | inl full ↦ rw full tt
      | inr room ↦ rw room (
          append-Joins
            (record {
              vehicle_id = v;
              role = role;
              joined_at = now;
              position = length p.members;
              last_seen_at = now;
            })
            p _ h new (ground (arith, room)) refl refl refl refl refl)
    ])
  ])
]
