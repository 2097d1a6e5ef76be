-- ===== src/Platoons/Service/Leaving.antt =====
-- platoon/service.go: LeavePlatoon and handleLeaderLeaving.
use v2v_blockchain.Prelude.{
  not, ◌&&◌, Option, none, some, [], ◌∷◌, length, ltb, leb, ◌==◌, if◌then◌else◌, Outcome, ok, err,
  panic, blocked,
}
use v2v_blockchain.Prelude.Int.{ℤ}
use v2v_blockchain.Prelude.Eq.{bytes_eq}
use v2v_blockchain.Bytes.{Bytes, Address}
use v2v_blockchain.Chain.Storage.{Database}
use v2v_blockchain.Platoons.{
  Platoon, PlatoonError, platoon_not_found, not_a_member, no_replacement, leader, validator,
  understaffed, has_member, is_platoon_validator, remove_member, set_role, remove_platoon_validator,
}
use v2v_blockchain.Platoons.Service.{
  PlatoonService, Action, PlatoonCodec, Happening, leader_changed, member_left, first_other,
  or_same, is_exactly_active, record_history, emit_event, save, store_platoon, announced,
  get_platoon,
}
use v2v_blockchain.Platoons.Service.Changing.{dissolve_platoon}

-- The next leader, and the roles of both.
unfoldable pub hand_over : Address → Platoon → Platoon
hand_over v p = record p {
  leader_id = v;
  members = set_role v leader (set_role p.leader_id validator p.members);
}

unfoldable pub successor : Platoon → Option Address
successor p = if ltb 1 (length p.validators) then first_other p.leader_id p.validators else none

unfoldable pub drop_validator : Address → Platoon → Platoon
drop_validator v p =
    if is_platoon_validator p v then or_same p (remove_platoon_validator v p) else p

unfoldable pub mark_understaffed : Platoon → Platoon
mark_understaffed p =
    if leb (length p.members) 3 && is_exactly_active p.status
    then record p { status = understaffed }
    else p

-- "last_member_left"
abbrev pub last_member_left : Bytes
last_member_left =
    108 ∷ 97 ∷ 115 ∷ 116 ∷ 95 ∷ 109 ∷ 101 ∷ 109 ∷ 98 ∷ 101 ∷ 114 ∷ 95 ∷ 108 ∷ 101 ∷ 102 ∷ 116 ∷ []

module _ {Db : Type 0} (d : Database Db) (codec : PlatoonCodec) (now : ℤ) where
  unfoldable pub announce_leader : Address → Platoon → PlatoonService Db → PlatoonService Db
  announce_leader v p s =
      let h : Happening = record {
        kind = leader_changed;
        platoon_id = p.id;
        vehicle_id = none;
        timestamp = now;
        values = p.leader_id ∷ v ∷ [];
      } in
      emit_event h (record_history p.id h s)

  unfoldable pub left : Bytes → Address → Platoon → Action Db
  left id v p s =
      if length p.members == 0
      then dissolve_platoon d codec now id last_member_left (save id p s)
      else announced id
          (record {
            kind = member_left;
            platoon_id = id;
            vehicle_id = some v;
            timestamp = now;
            values = [];
          })
          (store_platoon d codec p (save id p s))

  unfoldable pub leave_removed :
      Bytes → Address → Platoon → Outcome PlatoonError Platoon → Action Db
  leave_removed id v p (ok q) s = left id v (mark_understaffed q) s
  leave_removed id v p (err e) s = (err e, save id p s)
  leave_removed id v p panic s = (panic, save id p s)
  leave_removed id v p blocked s = (blocked, save id p s)

  -- The vehicle is a member, and not the leader any more.
  unfoldable pub leave_member : Bytes → Address → Platoon → Action Db
  leave_member id v p s =
      let q = drop_validator v p in leave_removed id v q (remove_member now v q) s

  unfoldable pub leave_leader : Bytes → Address → Platoon → Option Address → Action Db
  leave_leader id v p none s = (err no_replacement, s)
  leave_leader id v p (some w) s = leave_member id v (hand_over w p) (announce_leader w p s)

  unfoldable pub leave_found : Bytes → Address → Option Platoon → Action Db
  leave_found id v none s = (err platoon_not_found, s)
  leave_found id v (some p) s =
      if not (has_member p v)
      then (err not_a_member, s)
      else if bytes_eq p.leader_id v
      then leave_leader id v p (successor p) s
      else leave_member id v p s

  unfoldable pub leave_platoon : Bytes → Address → Action Db
  leave_platoon id v s = let (p, s') = get_platoon d codec id s in leave_found id v p s'
