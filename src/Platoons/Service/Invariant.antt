-- ===== src/Platoons/Service/Invariant.antt =====
-- platoon/service.go: every operation of the service keeps all platoons well-formed.
use v2v_blockchain.Prelude.{
  ◌≡◌, refl, Bool, true, false, Option, none, some, inl, inr, Bool-cases, Outcome, ok, err, panic,
  blocked,
}
use v2v_blockchain.Prelude.Int.{ℤ}
use v2v_blockchain.Prelude.Eq.{bytes_eq, bytes_Eq}
use v2v_blockchain.Bytes.{Bytes, Address}
use v2v_blockchain.Chain.Storage.{Database}
use v2v_blockchain.Platoons.{
  Platoon, PlatoonParams, PlatoonError, MemberRole, new_platoon, add_member,
}
use v2v_blockchain.Platoons.WellFormed.{IsWellFormed, Yields, Joins, add_member-Joins}
use v2v_blockchain.Platoons.Service.{
  PlatoonService, PlatoonCodec, JoinRequest, Action, is_pending, save_request, get_platoon,
}
use v2v_blockchain.Platoons.Service.Joining.{
  activate, joining_role, join_as, admit, admit_added, decide, process_found, process_request,
}
use v2v_blockchain.Platoons.Service.Creating.{built, initial_status, register, create_platoon}
use v2v_blockchain.Platoons.Service.Admission.{
  new_platoon-Empty, built-IsWellFormed, with_status-IsWellFormed, activate-IsWellFormed,
  join_as-IsWellFormed,
}
use v2v_blockchain.Platoons.Service.Storing.{
  HoldsWellFormed, HoldsWellFormed-same, StoreLaws, get_platoon-IsWellFormed,
  stored-HoldsWellFormed,
}

module _ {Db : Type 0} (d : Database Db) (codec : PlatoonCodec) (laws : StoreLaws d codec)
    (now : ℤ) where
  -- An action keeps the platoons well-formed.
  abbrev pub Keeps : Action Db → PlatoonService Db → Type 0
  Keeps act s = HoldsWellFormed d codec s → HoldsWellFormed d codec (act s).1

  -- An action on a platoon that GetPlatoon looks up keeps them, if it does for a well-formed one.
  pub looked_up :
      (act : Option Platoon → Action Db) (id : Bytes) (s : PlatoonService Db)
      → ((o : Option Platoon) (t : PlatoonService Db)
          → ((p : Platoon) → o ≡ some p → IsWellFormed p)
          → Keeps (act o) t)
      → HoldsWellFormed d codec s
      → let (o, t) = get_platoon d codec id s in HoldsWellFormed d codec (act o t).1
  looked_up act id s keeps holds =
      let (o, t) = get_platoon d codec id s in
      let (holds', good) = get_platoon-IsWellFormed d codec id s holds in keeps o t good holds'

  register-Keeps :
      (id : Bytes) (leader_id : Address) (r : Outcome PlatoonError Platoon) (s : PlatoonService Db)
      → Yields IsWellFormed r
      → Keeps (register d codec now id leader_id r) s
  unfolding register initial_status
  register-Keeps id leader_id (err e) s h holds = holds
  register-Keeps id leader_id panic s h holds = holds
  register-Keeps id leader_id blocked s h holds = holds
  register-Keeps id leader_id (ok p) s h holds =
      (stored-HoldsWellFormed d codec laws id id _ (initial_status p) s
        (with_status-IsWellFormed _ p.dissolved_at p.updated_at p h) holds).0

  pub create_platoon-Keeps :
      (id : Bytes) (leader_id : Address) (params : PlatoonParams) (name : Bytes)
      (s : PlatoonService Db)
      → Keeps (create_platoon d codec now id leader_id params name) s
  unfolding create_platoon
  create_platoon-Keeps id leader_id params name s =
      register-Keeps id leader_id (built now leader_id name (new_platoon now id leader_id params)) s
        (built-IsWellFormed now leader_id name (new_platoon now id leader_id params)
          (new_platoon-Empty now id leader_id params))

  admit_added-Keeps :
      (req : JoinRequest) (role : MemberRole) (p : Platoon) (r : Outcome PlatoonError Platoon)
      (s : PlatoonService Db)
      → IsWellFormed p
      → Yields (Joins req.vehicle_id p) r
      → Keeps (admit_added d codec now req role r) s
  unfolding admit_added admit
  admit_added-Keeps req role p (err e) s h joins holds = holds
  admit_added-Keeps req role p panic s h joins holds = holds
  admit_added-Keeps req role p blocked s h joins holds = holds
  admit_added-Keeps req role p (ok q) s h joins holds =
      let member = join_as role req.vehicle_id q in
      (stored-HoldsWellFormed d codec laws (activate member).id req.platoon_id _ (activate member) s
        (activate-IsWellFormed member (join_as-IsWellFormed role req.vehicle_id p q h joins))
        holds).0

  decide-Keeps :
      (req : JoinRequest) (accepts : Bool) (processor : Address) (p : Platoon)
      (s : PlatoonService Db)
      → IsWellFormed p
      → Keeps (decide d codec now req accepts processor p) s
  unfolding decide save_request
  decide-Keeps req false processor p s h holds = HoldsWellFormed-same d codec s _ refl refl holds
  decide-Keeps req true processor p s h holds =
      admit_added-Keeps req (joining_role p) p (add_member now req.vehicle_id (joining_role p) p) _
        h (add_member-Joins now req.vehicle_id (joining_role p) p h.sound)
        (HoldsWellFormed-same d codec s _ refl refl holds)

  process_found-Keeps :
      (req : JoinRequest) (accepts : Bool) (processor : Address) (o : Option Platoon)
      (s : PlatoonService Db)
      → ((p : Platoon) → o ≡ some p → IsWellFormed p)
      → Keeps (process_found d codec now req accepts processor o) s
  unfolding process_found
  process_found-Keeps req accepts processor none s good holds = holds
  process_found-Keeps req accepts processor (some p) s good holds =
      elim (Bool-cases (bytes_eq p.leader_id processor)) [
        | inl same ↦ rw same (decide-Keeps req accepts processor p s (good p refl) holds)
        | inr other ↦ rw other holds
      ]

  pub process_request-Keeps :
      (o : Option JoinRequest) (accepts : Bool) (processor : Address) (s : PlatoonService Db)
      → Keeps (process_request d codec now o accepts processor) s
  unfolding process_request
  process_request-Keeps none accepts processor s holds = holds
  process_request-Keeps (some req) accepts processor s holds =
      elim (Bool-cases (is_pending req.status)) [
        | inl open_request ↦ rw open_request (
            looked_up (process_found d codec now req accepts processor) req.platoon_id s
              (process_found-Keeps req accepts processor) holds)
        | inr closed ↦ rw closed holds
      ]
