-- ===== src/Platoons/Service/Admitting.antt =====
-- platoon/service.go: what approving a join request does.
use v2v_blockchain.Prelude.{
  ◌≡◌, refl, ap, sym, ◌∙◌, Bool, true, false, ◌&&◌, ◌||◌, some, length, ltb, leb, if◌then◌else◌,
  inl, inr, Bool-cases, arith, Outcome, ok, err, panic, blocked, ◌⊎◌,
}
use mathlib.Core.Path.{subst}
use v2v_blockchain.Prelude.Int.{ℤ}
use v2v_blockchain.Prelude.Eq.{bytes_eq, bytes_eq_iff, bytes_Eq}
use v2v_blockchain.Prelude.GoMap.{get}
use v2v_blockchain.Prelude.Distinct.{contains, contains-append}
use v2v_blockchain.Bytes.{Bytes, Address}
use v2v_blockchain.Chain.Storage.{Database}
use v2v_blockchain.Platoons.{
  already_member, blacklisted, platoon_full, Platoon, PlatoonError, MemberRole, validator, active,
  vehicles, has_member, is_blacklisted, add_member, add_platoon_validator, is_platoon_validator,
  can_form_consensus,
}
use v2v_blockchain.Platoons.Members.{vehicles-set_role}
use v2v_blockchain.Platoons.WellFormed.{IsWellFormed, Yields, Joins, add_member-Joins}
use v2v_blockchain.Platoons.Service.{
  get_platoon, is_pending, member_joined, PlatoonService, PlatoonCodec, JoinRequest, approved,
  is_forming, or_same, save, save_request, announced, store_platoon,
}
use v2v_blockchain.Platoons.Service.Joining.{
  process_join_request, process_request, process_found, activate, joining_role, join_as, admit,
  admit_added, decide,
}
use v2v_blockchain.Platoons.Service.Settling.{Settles, announced-Settles, of_vehicle}
use v2v_blockchain.Platoons.Service.Admission.{join_as-IsWellFormed, activate-IsWellFormed}

-- The platoon that a vehicle has been let into.
pub record Admits (v : Address) (p q : Platoon) : Type 0 where
  pub id : q.id ≡ p.id
  pub well_formed : IsWellFormed q
  pub members :
      (a : Address)
      → contains (vehicles q.members) a ≡ (contains (vehicles p.members) a || bytes_eq v a)
  pub validators :
      (a : Address)
      → contains q.validators a
        ≡ (contains p.validators a || (ltb (length p.validators) 7 && bytes_eq v a))
  pub status :
      q.status ≡ (if is_forming p.status && leb 4 (length q.validators) then active else p.status)

-- Where the vehicle is not added: it is a member or on the blacklist already, or there is no room.
abbrev pub refuses : Address → Platoon → Bool
refuses v p = has_member p v || is_blacklisted p v || leb p.params.max_vehicles (length p.members)

-- The error then.
abbrev pub refusal : Address → Platoon → PlatoonError
refusal v p =
    if has_member p v
    then already_member
    else if is_blacklisted p v
    then blacklisted
    else platoon_full

abbrev Added : MemberRole → Address → Platoon → Outcome PlatoonError Platoon → Type 0
Added role v p (ok q) = (refuses v p ≡ false) × (q.status ≡ p.status) × (q.id ≡ p.id)
Added role v p (err e) = (refuses v p ≡ true) × (e ≡ refusal v p)
Added role v p _ = ⊥

add_member-Added :
    (now : ℤ) (role : MemberRole) (v : Address) (p : Platoon)
    → Added role v p (add_member now v role p)
unfolding add_member
add_member-Added now role v p = elim (Bool-cases (has_member p v)) [
  | inl old ↦ rw old (ground (arith, old), ground (arith, old))
  | inr new ↦ rw new (elim (Bool-cases (is_blacklisted p v)) [
    | inl listed ↦ rw listed (ground (arith, listed), ground (arith, new, listed))
    | inr unlisted ↦ rw unlisted (elim (Bool-cases (leb p.params.max_vehicles (length p.members))) [
      | inl full ↦ rw full (ground (arith, full), ground (arith, new, unlisted))
      | inr room ↦ rw room (ground (arith, new, unlisted, room), refl, refl)
    ])
  ])
]

is_validator_role : MemberRole → Bool
is_validator_role validator = true
is_validator_role _ = false

-- A vehicle that is no validator is made one, or its role is another.
join_as-fields :
    (role : MemberRole) (v : Address) (q : Platoon)
    → contains q.validators v ≡ false
    → let r = join_as role v q in
      (vehicles r.members ≡ vehicles q.members)
      × (r.status ≡ q.status)
      × (r.id ≡ q.id)
      × ((a : Address)
          → contains r.validators a
            ≡ (contains q.validators a || (is_validator_role role && bytes_eq v a)))
unfolding join_as or_same add_platoon_validator is_platoon_validator is_validator_role
join_as-fields validator v q new =
    rw new (vehicles-set_role v validator q.members, refl, refl, contains-append q.validators v)
join_as-fields role v q new = (refl, refl, refl, λ a. ground arith)

joining_role_iff : (p : Platoon) → is_validator_role (joining_role p) ≡ ltb (length p.validators) 7
unfolding joining_role is_validator_role
joining_role_iff p = elim (Bool-cases (ltb (length p.validators) 7)) [
  | inl few ↦ rw few refl
  | inr many ↦ rw many refl
]

activate-fields :
    (p : Platoon)
    → let q = activate p in
      (vehicles q.members ≡ vehicles p.members)
      × (q.validators ≡ p.validators)
      × (q.id ≡ p.id)
      × (q.status
          ≡ (if is_forming p.status && leb 4 (length q.validators) then active else p.status))
unfolding activate can_form_consensus
activate-fields p = elim (Bool-cases (is_forming p.status && leb 4 (length p.validators))) [
  | inl ready ↦ rw ready (refl, refl, refl, sym (ap (λ b. if b then active else p.status) ready))
  | inr waiting ↦
      rw waiting (refl, refl, refl, sym (ap (λ b. if b then active else p.status) waiting))
]

module _ {Db : Type 0} (d : Database Db) (codec : PlatoonCodec) (now : ℤ) where
  -- The request, marked before anything is tried.
  abbrev pub marked : JoinRequest → Address → PlatoonService Db → PlatoonService Db
  marked req processor s =
      save_request
        (record req { status = approved; processed_at = now; processed_by = some processor }) s

  -- What approving a request yields.
  abbrev pub Decided :
      JoinRequest
      → Address
      → Platoon
      → PlatoonService Db
      → Outcome PlatoonError (Unit {0}) × PlatoonService Db
      → Type 0
  Decided req processor p s r =
      ((refuses req.vehicle_id p ≡ true)
        × (r ≡ (err (refusal req.vehicle_id p), marked req processor s)))
      ⊎ ((refuses req.vehicle_id p ≡ false)
          × (q : Platoon) × Admits req.vehicle_id p q
          × Settles d codec req.platoon_id p.id (of_vehicle member_joined p.id req.vehicle_id now) q
              (marked req processor s) r)

  admit-Admits :
      (req : JoinRequest) (p : Platoon) (q : Platoon)
      → IsWellFormed p
      → contains p.validators req.vehicle_id ≡ false
      → q.status ≡ p.status
      → q.id ≡ p.id
      → Joins req.vehicle_id p q
      → Admits req.vehicle_id p (activate (join_as (joining_role p) req.vehicle_id q))
  admit-Admits req p q h new status id joins =
      let v = req.vehicle_id in
      let j = join_as (joining_role p) v q in
      let (vehicles_j, status_j, id_j, validators_j) =
        join_as-fields (joining_role p) v q (ap (λ vs. contains vs v) joins.validators ∙ new) in
      let (vehicles_r, validators_r, id_r, status_r) = activate-fields j in
      record {
        id = id_r ∙ id_j ∙ id;
        well_formed = activate-IsWellFormed j (join_as-IsWellFormed (joining_role p) v p q h joins);
        members = λ a. ap (λ vs. contains vs a) (vehicles_r ∙ vehicles_j) ∙ joins.members a;
        validators = λ a.
            ap (λ vs. contains vs a) validators_r
            ∙ validators_j a
            ∙ ap (λ vs. contains vs a || (is_validator_role (joining_role p) && bytes_eq v a))
                joins.validators
            ∙ ap (λ b. contains p.validators a || (b && bytes_eq v a)) (joining_role_iff p);
        status =
            status_r
            ∙ ap (λ t. if is_forming t && leb 4 (length (activate j).validators) then active else t)
                (status_j ∙ status);
      }

  admit_added-Decided :
      (req : JoinRequest) (processor : Address) (p : Platoon) (s : PlatoonService Db)
      (o : Outcome PlatoonError Platoon)
      → IsWellFormed p
      → Added (joining_role p) req.vehicle_id p o
      → Yields (Joins req.vehicle_id p) o
      → Decided req processor p s
          (admit_added d codec now req (joining_role p) o (marked req processor s))
  unfolding admit_added admit has_member
  admit_added-Decided req processor p s (err e) h (refused, reason) joins =
      inl (refused, rw reason refl)
  admit_added-Decided req processor p s panic h added joins = absurd added
  admit_added-Decided req processor p s blocked h added joins = absurd added
  admit_added-Decided req processor p s (ok q) h (accepted, status, id) joins =
      let v = req.vehicle_id in
      let stranger : contains (vehicles p.members) v ≡ false = ground (arith, accepted) in
      let new : contains p.validators v ≡ false =
        ground (arith, stranger, h.sound.validators_are_members v) in
      let admitted = activate (join_as (joining_role p) v q) in
      let admits = admit-Admits req p q h new status id joins in
      let s' = marked req processor s in
      inr (
        accepted,
        admitted,
        admits,
        subst
            (λ i.
              Settles d codec req.platoon_id p.id (of_vehicle member_joined p.id v now) admitted s'
                (announced i (of_vehicle member_joined i v now)
                  (store_platoon d codec admitted (save req.platoon_id admitted s'))))
            (sym admits.id)
            (announced-Settles d codec req.platoon_id p.id (of_vehicle member_joined p.id v now)
              admitted s'),
      )

  decide-Decided :
      (req : JoinRequest) (processor : Address) (p : Platoon) (s : PlatoonService Db)
      → IsWellFormed p
      → Decided req processor p s (decide d codec now req true processor p s)
  unfolding decide
  decide-Decided req processor p s h =
      admit_added-Decided req processor p s (add_member now req.vehicle_id (joining_role p) p) h
        (add_member-Added now (joining_role p) req.vehicle_id p)
        (add_member-Joins now req.vehicle_id (joining_role p) p h.sound)

  -- Where the leader of a well-formed platoon that GetPlatoon finds approves a pending join request, the
  -- request is marked as approved first, and it stays so. ProcessJoinRequest then refuses exactly if the
  -- vehicle is a member or on the blacklist already or the platoon is full, with that error, and nothing
  -- else changes. Else the vehicle and nobody else is added, as a validator exactly if there were fewer
  -- than seven; a forming platoon becomes active with its fourth validator; and the platoon is
  -- well-formed and is saved in the map. If storing it succeeds, the call succeeds, and that the vehicle
  -- joined is in the history and with the handlers; if storing fails, the call fails with that error,
  -- though the vehicle is in the platoon in the map.
  pub process_join_request-Decided :
      (id : Bytes) (req : JoinRequest) (processor : Address) (p : Platoon) (s t : PlatoonService Db)
      → get s.join_requests id ≡ some req
      → is_pending req.status ≡ true
      → get_platoon d codec req.platoon_id s ≡ (some p, t)
      → p.leader_id ≡ processor
      → IsWellFormed p
      → Decided req processor p t (process_join_request d codec now id true processor s)
  unfolding process_join_request process_request process_found
  process_join_request-Decided id req processor p s t requested waiting found leads h =
      let own : bytes_eq p.leader_id processor ≡ true =
        (bytes_eq_iff p.leader_id processor).1 leads in
      let processed : process_found d codec now req true processor (some p) t
          ≡ decide d codec now req true processor p t =
        rw own refl in
      let after : process_request d codec now (some req) true processor s
          ≡ process_found d codec now req true processor (some p) t =
        rw waiting (ap (λ x. process_found d codec now req true processor x.0 x.1) found) in
      subst (Decided req processor p t)
        (sym
          (ap (λ o. process_request d codec now o true processor s) requested ∙ after ∙ processed))
        (decide-Decided req processor p t h)
