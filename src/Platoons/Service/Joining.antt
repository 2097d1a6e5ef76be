-- ===== src/Platoons/Service/Joining.antt =====
-- platoon/service.go: SubmitJoinRequest and ProcessJoinRequest.
use v2v_blockchain.Prelude.{
  Bool, true, false, not, ◌&&◌, Option, none, some, [], length, ltb, leb, if◌then◌else◌, Outcome,
  ok, err, panic, blocked,
}
use v2v_blockchain.Prelude.Int.{ℤ, pos}
use v2v_blockchain.Prelude.Eq.{bytes_eq, bytes_Eq}
use v2v_blockchain.Prelude.GoMap.{get}
use v2v_blockchain.Bytes.{Bytes, Address}
use v2v_blockchain.Chain.Storage.{Database}
use v2v_blockchain.Platoons.{
  active, MemberRole, validator, follower, Platoon, PlatoonError, already_member, blacklisted,
  platoon_full, platoon_not_found, not_accepting, request_not_found, already_processed, only_leader,
  is_active, has_member, is_blacklisted, add_member, add_platoon_validator, can_form_consensus,
}
use v2v_blockchain.Platoons.Service.{
  JoinRequest, Action, PlatoonCodec, is_pending, is_forming, or_same, save, save_request, announced,
  store_platoon, get_platoon, pending, approved, rejected, member_joined,
}

unfoldable pub activate : Platoon → Platoon
activate p = if is_forming p.status && can_form_consensus p then record p { status = active } else p

-- The seventh validator is the last that joins as one.
unfoldable pub joining_role : Platoon → MemberRole
joining_role p = if ltb (length p.validators) 7 then validator else follower

unfoldable pub join_as : MemberRole → Address → Platoon → Platoon
join_as validator v p = or_same p (add_platoon_validator v p)
join_as _ v p = p

module _ {Db : Type 0} (d : Database Db) (codec : PlatoonCodec) (now : ℤ) where
  unfoldable pub submit_to : Bytes → Bytes → Address → Bytes → Option Platoon → Action Db
  submit_to id platoon_id v destination none s = (err platoon_not_found, s)
  submit_to id platoon_id v destination (some p) s =
      if not (is_active p) && not (is_forming p.status)
      then (err not_accepting, s)
      else if has_member p v
      then (err already_member, s)
      else if is_blacklisted p v
      then (err blacklisted, s)
      else if leb p.params.max_vehicles (length p.members)
      then (err platoon_full, s)
      else (
        ok tt,
        save_request
            (record {
              id = id;
              platoon_id = platoon_id;
              vehicle_id = v;
              destination = destination;
              requested_at = now;
              status = pending;
              processed_at = pos 0;
              processed_by = none;
            })
            s,
      )

  unfoldable pub submit_join_request : Bytes → Bytes → Address → Bytes → Action Db
  submit_join_request id platoon_id v destination s =
      let (p, s') = get_platoon d codec platoon_id s in submit_to id platoon_id v destination p s'

  -- AddMember has succeeded.
  unfoldable pub admit : JoinRequest → MemberRole → Platoon → Action Db
  admit req role p s =
      let q = activate (join_as role req.vehicle_id p) in
      announced q.id
        (record {
          kind = member_joined;
          platoon_id = q.id;
          vehicle_id = some req.vehicle_id;
          timestamp = now;
          values = [];
        })
        (store_platoon d codec q (save req.platoon_id q s))

  unfoldable pub admit_added : JoinRequest → MemberRole → Outcome PlatoonError Platoon → Action Db
  admit_added req role (ok p) s = admit req role p s
  admit_added req role (err e) s = (err e, s)
  admit_added req role panic s = (panic, s)
  admit_added req role blocked s = (blocked, s)

  -- The request is marked before the member is added.
  unfoldable pub decide : JoinRequest → Bool → Address → Platoon → Action Db
  decide req true processor p s =
      admit_added req (joining_role p) (add_member now req.vehicle_id (joining_role p) p) (
        save_request
          (record req { status = approved; processed_at = now; processed_by = some processor }) s)
  decide req false processor p s = (
    ok tt,
    save_request
        (record req { status = rejected; processed_at = now; processed_by = some processor }) s,
  )

  unfoldable pub process_found : JoinRequest → Bool → Address → Option Platoon → Action Db
  process_found req accepts processor none s = (err platoon_not_found, s)
  process_found req accepts processor (some p) s =
      if bytes_eq p.leader_id processor
      then decide req accepts processor p s
      else (err only_leader, s)

  unfoldable pub process_request : Option JoinRequest → Bool → Address → Action Db
  process_request none accepts processor s = (err request_not_found, s)
  process_request (some req) accepts processor s =
      let (p, s') = get_platoon d codec req.platoon_id s in
      if is_pending req.status
      then process_found req accepts processor p s'
      else (err already_processed, s)

  unfoldable pub process_join_request : Bytes → Bool → Address → Action Db
  process_join_request id accepts processor s =
      process_request (get s.join_requests id) accepts processor s
