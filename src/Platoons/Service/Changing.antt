-- ===== src/Platoons/Service/Changing.antt =====
-- platoon/service.go: DissolvePlatoon, AppointValidator, DemoteValidator and checkTimeouts.
use v2v_blockchain.Prelude.{
  Bool, true, false, not, ◌&&◌, Option, none, some, [], ◌∷◌, length, leb, if◌then◌else◌, Outcome,
  ok, err, panic, blocked,
}
use v2v_blockchain.Prelude.Int.{ℤ}
use v2v_blockchain.Prelude.Eq.{bytes_eq, bytes_Eq}
use v2v_blockchain.Prelude.GoMap.{GoMap}
use v2v_blockchain.Bytes.{Bytes, Address}
use v2v_blockchain.Chain.Storage.{Database}
use v2v_blockchain.Platoons.{
  PlatoonStatus, dissolved, Platoon, PlatoonError, platoon_not_found, only_leader, not_a_member,
  already_dissolved, only_validator, already_validator, is_active, has_member, is_platoon_validator,
  add_platoon_validator, remove_platoon_validator, is_timed_out,
}
use v2v_blockchain.Platoons.Service.{
  PlatoonService, Action, PlatoonCodec, or_same, save, noted, announced, store_platoon, get_platoon,
  platoon_dissolved, validator_added, validator_removed,
}

unfoldable pub is_dissolved : PlatoonStatus → Bool
is_dissolved dissolved = true
is_dissolved _ = false

-- "timeout"
abbrev pub timeout_reason : Bytes
timeout_reason = 116 ∷ 105 ∷ 109 ∷ 101 ∷ 111 ∷ 117 ∷ 116 ∷ []

module _ {Db : Type 0} (d : Database Db) (codec : PlatoonCodec) (now : ℤ) where
  unfoldable pub dissolve_found : Bytes → Bytes → Option Platoon → Action Db
  dissolve_found id reason none s = (err platoon_not_found, s)
  dissolve_found id reason (some p) s =
      let q = record p { status = dissolved; dissolved_at = now; updated_at = now } in
      if is_dissolved p.status
      then (err already_dissolved, s)
      else announced id
          (record {
            kind = platoon_dissolved;
            platoon_id = id;
            vehicle_id = none;
            timestamp = now;
            values = reason ∷ [];
          })
          (store_platoon d codec q (save id q s))

  unfoldable pub dissolve_platoon : Bytes → Bytes → Action Db
  dissolve_platoon id reason s =
      let (p, s') = get_platoon d codec id s in dissolve_found id reason p s'

  unfoldable pub appoint_found : Bytes → Address → Address → Option Platoon → Action Db
  appoint_found id v appointer none s = (err platoon_not_found, s)
  appoint_found id v appointer (some p) s =
      let q = or_same p (add_platoon_validator v p) in
      if not (bytes_eq p.leader_id appointer)
      then (err only_leader, s)
      else if not (has_member p v)
      then (err not_a_member, s)
      else if is_platoon_validator p v
      then (err already_validator, s)
      else noted id
          (record {
            kind = validator_added;
            platoon_id = id;
            vehicle_id = some v;
            timestamp = now;
            values = [];
          })
          (store_platoon d codec q (save id q s))

  unfoldable pub appoint_validator : Bytes → Address → Address → Action Db
  appoint_validator id v appointer s =
      let (p, s') = get_platoon d codec id s in appoint_found id v appointer p s'

  unfoldable pub demote_removed : Bytes → Address → Outcome PlatoonError Platoon → Action Db
  demote_removed id v (ok q) s =
      noted id
        (record {
          kind = validator_removed;
          platoon_id = id;
          vehicle_id = some v;
          timestamp = now;
          values = [];
        })
        (store_platoon d codec q (save id q s))
  demote_removed id v (err e) s = (err e, s)
  demote_removed id v panic s = (panic, s)
  demote_removed id v blocked s = (blocked, s)

  unfoldable pub demote_found : Bytes → Address → Address → Option Platoon → Action Db
  demote_found id v demoter none s = (err platoon_not_found, s)
  demote_found id v demoter (some p) s =
      if not (bytes_eq p.leader_id demoter)
      then (err only_leader, s)
      else if leb (length p.validators) 1
      then (err only_validator, s)
      else demote_removed id v (remove_platoon_validator v p) s

  unfoldable pub demote_validator : Bytes → Address → Address → Action Db
  demote_validator id v demoter s =
      let (p, s') = get_platoon d codec id s in demote_found id v demoter p s'

  -- The loop of checkTimeouts; the error of DissolvePlatoon is ignored.
  unfoldable pub dissolve_timed_out : GoMap Bytes Platoon → PlatoonService Db → PlatoonService Db
  dissolve_timed_out [] s = s
  dissolve_timed_out ((key, p) ∷ platoons) s =
      dissolve_timed_out platoons (
        if is_active p && is_timed_out now p then (dissolve_platoon p.id timeout_reason s).1 else s)

  unfoldable pub check_timeouts : PlatoonService Db → PlatoonService Db
  check_timeouts s = dissolve_timed_out s.platoons s
