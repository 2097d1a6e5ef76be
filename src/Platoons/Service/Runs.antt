-- ===== src/Platoons/Service/Runs.antt =====
-- platoon/service.go: runs of the service, any calls in any order.
use v2v_blockchain.Prelude.{
  ◌≡◌, refl, sym, Bool, ◌&&◌, Option, none, some, List, [], ◌∷◌, inl, inr, Bool-cases, Outcome,
}
use mathlib.Core.Path.{subst}
use v2v_blockchain.Prelude.Int.{ℤ}
use v2v_blockchain.Prelude.Eq.{bytes_Eq}
use v2v_blockchain.Prelude.GoMap.{GoMap, get}
use v2v_blockchain.Bytes.{Bytes, Address}
use v2v_blockchain.Chain.Storage.{Database}
use v2v_blockchain.Platoons.{Platoon, PlatoonParams, PlatoonError, is_active, is_timed_out}
use v2v_blockchain.Platoons.WellFormed.{IsWellFormed}
use v2v_blockchain.Platoons.Service.{
  member_left, Happening, PlatoonService, PlatoonCodec, get_platoon, record_history, emit_event,
}
use v2v_blockchain.Platoons.Service.Changing.{
  dissolve_found, dissolve_platoon, appoint_found, appoint_validator, demote_found,
  demote_validator, dissolve_timed_out, check_timeouts, timeout_reason,
}
use v2v_blockchain.Platoons.Service.Creating.{create_platoon}
use v2v_blockchain.Platoons.Service.Joining.{submit_join_request, process_join_request}
use v2v_blockchain.Platoons.Service.Leaving.{announce_leader, leave_found, leave_platoon}
use v2v_blockchain.Platoons.Service.Departing.{leave_found-Left}
use v2v_blockchain.Platoons.Service.Settling.{Settles, Settles-announced, of_vehicle}
use v2v_blockchain.Platoons.Service.Changes.{
  submit_to-same, dissolve_found-Keeps, appoint_found-Keeps, demote_found-Keeps,
}
use v2v_blockchain.Platoons.Service.Storing.{
  HoldsWellFormed, HoldsWellFormed-same, StoreLaws, get_platoon-IsWellFormed,
  stored-HoldsWellFormed,
}
use v2v_blockchain.Platoons.Service.Invariant.{
  Keeps, looked_up, create_platoon-Keeps, process_request-Keeps,
}

-- One call of the service at a time, with the id that it makes where it makes one.
pub data Call : Type 0 where
  create : Bytes → Address → PlatoonParams → Bytes → Call
  submit : Bytes → Bytes → Address → Bytes → Call
  process : Bytes → Bool → Address → Call
  leave : Bytes → Address → Call
  dissolve : Bytes → Bytes → Call
  appoint : Bytes → Address → Address → Call
  demote : Bytes → Address → Address → Call
  look_up : Bytes → Call
  time_out : Call

module _ {Db : Type 0} (d : Database Db) (codec : PlatoonCodec) where
  unfoldable pub run_call : ℤ → Call → PlatoonService Db → PlatoonService Db
  run_call now (create id leader_id params name) s =
      (create_platoon d codec now id leader_id params name s).1
  run_call now (submit id platoon_id v destination) s =
      (submit_join_request d codec now id platoon_id v destination s).1
  run_call now (process id accepts processor) s =
      (process_join_request d codec now id accepts processor s).1
  run_call now (leave id v) s = (leave_platoon d codec now id v s).1
  run_call now (dissolve id reason) s = (dissolve_platoon d codec now id reason s).1
  run_call now (appoint id v appointer) s = (appoint_validator d codec now id v appointer s).1
  run_call now (demote id v demoter) s = (demote_validator d codec now id v demoter s).1
  run_call now (look_up id) s = (get_platoon d codec id s).1
  run_call now time_out s = check_timeouts d codec now s

  unfoldable pub run_calls : List (ℤ × Call) → PlatoonService Db → PlatoonService Db
  run_calls [] s = s
  run_calls ((now, call) ∷ calls) s = run_calls calls (run_call now call s)

  module _ (laws : StoreLaws d codec) (now : ℤ) where
    Settles-HoldsWellFormed :
        (id : Bytes) (h : Happening) (q : Platoon) (s : PlatoonService Db)
        (r : Outcome PlatoonError (Unit {0}) × PlatoonService Db)
        → IsWellFormed q
        → HoldsWellFormed d codec s
        → Settles d codec id id h q s r
        → HoldsWellFormed d codec r.1
    Settles-HoldsWellFormed id h q s r good holds settles =
        subst (λ x. HoldsWellFormed d codec x.1)
          (sym (Settles-announced d codec id id h q s r settles))
          (stored-HoldsWellFormed d codec laws id id h q s good holds).0

    leave_found-Keeps :
        (id : Bytes) (v : Address) (o : Option Platoon) (s : PlatoonService Db)
        → ((p : Platoon) → o ≡ some p → IsWellFormed p)
        → Keeps d codec laws now (leave_found d codec now id v o) s
    unfolding leave_found announce_leader record_history emit_event
    leave_found-Keeps id v none s good holds = holds
    leave_found-Keeps id v (some p) s good holds =
        elim (leave_found-Left d codec now id v p s (good p refl)) [
          | inl (stranger, e) ↦ subst (λ x. HoldsWellFormed d codec x.1) (sym e) holds
          | inr (inl (leads, alone, e)) ↦ subst (λ x. HoldsWellFormed d codec x.1) (sym e) holds
          | inr (inr (inl (other, q, departs, settles))) ↦
              Settles-HoldsWellFormed id (of_vehicle member_left id v now) q s
                (leave_found d codec now id v (some p) s) departs.well_formed holds settles
          | inr (inr (inr (leads, w, found, q, departs, settles))) ↦
              Settles-HoldsWellFormed id (of_vehicle member_left id v now) q
                (announce_leader d codec now w p s) (leave_found d codec now id v (some p) s)
                departs.well_formed (HoldsWellFormed-same d codec s _ refl refl holds) settles
        ]

    dissolve_platoon-Keeps :
        (id reason : Bytes) (s : PlatoonService Db)
        → Keeps d codec laws now (dissolve_platoon d codec now id reason) s
    unfolding dissolve_platoon
    dissolve_platoon-Keeps id reason s holds =
        looked_up d codec laws now (dissolve_found d codec now id reason) id s
          (dissolve_found-Keeps d codec laws now id reason) holds

    dissolve_timed_out-HoldsWellFormed :
        (platoons : GoMap Bytes Platoon) (s : PlatoonService Db)
        → HoldsWellFormed d codec s
        → HoldsWellFormed d codec (dissolve_timed_out d codec now platoons s)
    unfolding dissolve_timed_out
    dissolve_timed_out-HoldsWellFormed [] s holds = holds
    dissolve_timed_out-HoldsWellFormed ((key, p) ∷ platoons) s holds =
        elim (Bool-cases (is_active p && is_timed_out now p)) [
          | inl late ↦ rw late (
              dissolve_timed_out-HoldsWellFormed platoons
                (dissolve_platoon d codec now p.id timeout_reason s).1
                (dissolve_platoon-Keeps p.id timeout_reason s holds))
          | inr fine ↦ rw fine (dissolve_timed_out-HoldsWellFormed platoons s holds)
        ]

    run_call-HoldsWellFormed :
        (call : Call) (s : PlatoonService Db)
        → HoldsWellFormed d codec s
        → HoldsWellFormed d codec (run_call now call s)
    unfolding run_call submit_join_request process_join_request leave_platoon appoint_validator
        demote_validator check_timeouts
    run_call-HoldsWellFormed (create id leader_id params name) s holds =
        create_platoon-Keeps d codec laws now id leader_id params name s holds
    run_call-HoldsWellFormed (submit id platoon_id v destination) s holds =
        let (o, t) = get_platoon d codec platoon_id s in
        let (platoons, db) = submit_to-same d codec laws now id platoon_id v destination o t in
        HoldsWellFormed-same d codec t _ platoons db
          (get_platoon-IsWellFormed d codec platoon_id s holds).0
    run_call-HoldsWellFormed (process id accepts processor) s holds =
        process_request-Keeps d codec laws now (get s.join_requests id) accepts processor s holds
    run_call-HoldsWellFormed (leave id v) s holds =
        looked_up d codec laws now (leave_found d codec now id v) id s (leave_found-Keeps id v)
          holds
    run_call-HoldsWellFormed (dissolve id reason) s holds = dissolve_platoon-Keeps id reason s holds
    run_call-HoldsWellFormed (appoint id v appointer) s holds =
        looked_up d codec laws now (appoint_found d codec now id v appointer) id s
          (appoint_found-Keeps d codec laws now id v appointer) holds
    run_call-HoldsWellFormed (demote id v demoter) s holds =
        looked_up d codec laws now (demote_found d codec now id v demoter) id s
          (demote_found-Keeps d codec laws now id v demoter) holds
    run_call-HoldsWellFormed (look_up id) s holds = (get_platoon-IsWellFormed d codec id s holds).0
    run_call-HoldsWellFormed time_out s holds =
        dissolve_timed_out-HoldsWellFormed s.platoons s holds

  run_calls-HoldsWellFormed :
      (laws : StoreLaws d codec) (calls : List (ℤ × Call)) (s : PlatoonService Db)
      → HoldsWellFormed d codec s
      → HoldsWellFormed d codec (run_calls calls s)
  unfolding run_calls
  run_calls-HoldsWellFormed laws [] s holds = holds
  run_calls-HoldsWellFormed laws ((now, call) ∷ calls) s holds =
      run_calls-HoldsWellFormed laws calls (run_call now call s)
        (run_call-HoldsWellFormed laws now call s holds)

  -- Through any calls of the service, whatever times and ids they come with and whether or not the
  -- store and encoding/json fail, every platoon that GetPlatoon finds afterwards is well-formed, if
  -- all were at the start: no vehicle is a member twice, there are at most as many members as the
  -- parameters allow and at most 100, members are numbered by their places, no validator is listed
  -- twice, and the validators and the leader are members. The store reads what was written last, and
  -- encoding/json decodes the members, validators, leader and limit that it encoded.
  pub run_calls-IsWellFormed :
      (laws : StoreLaws d codec) (calls : List (ℤ × Call)) (s : PlatoonService Db)
      → HoldsWellFormed d codec s
      → (id : Bytes) (p : Platoon) → (get_platoon d codec id (run_calls calls s)).0 ≡ some p
      → IsWellFormed p
  run_calls-IsWellFormed laws calls s holds id p =
      (get_platoon-IsWellFormed d codec id (run_calls calls s)
          (run_calls-HoldsWellFormed laws calls s holds)).1
        p
