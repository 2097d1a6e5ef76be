-- ===== src/Platoons/Service.antt =====
-- internal/service/platoon/service.go: the platoons of a node, their join requests, history and
-- events. The ids that crypto/rand makes are arguments. A platoon that is found is changed in place,
-- so what was changed before an error stays.
pub mod Queries
pub mod Founding
pub mod Admitting
pub mod Creating
pub mod Joining
pub mod Changing
pub mod Leaving
pub mod Settling
pub mod Storing
pub mod Admission
pub mod Invariant
pub mod Departing
pub mod Changes
pub mod Runs
use v2v_blockchain.Prelude.{
  ℕ, ◌<◌, Bool, true, false, not, ◌&&◌, ◌||◌, Option, none, some, List, [], ◌∷◌, ◌++◌, length, ltb,
  leb, ◌==◌, if◌then◌else◌, map_option, Outcome, ok, err, panic, blocked,
}
use v2v_blockchain.Prelude.Int.{ℤ, pos}
use v2v_blockchain.Prelude.Eq.{bytes_eq, bytes_Eq}
use v2v_blockchain.Prelude.GoMap.{GoMap, get, put}
use v2v_blockchain.Bytes.{Bytes, Address}
use v2v_blockchain.Chain.Storage.{Database}
use v2v_blockchain.Platoons.{
  PlatoonStatus, active, forming, dissolved, understaffed, MemberRole, leader, validator, follower,
  PlatoonParams, Platoon, PlatoonError, already_member, blacklisted, platoon_full,
  platoon_not_found, not_accepting, request_not_found, already_processed, only_leader, not_a_member,
  no_replacement, already_dissolved, only_validator, store_failed, already_validator, validate,
  new_platoon, is_active, has_member, is_blacklisted, is_platoon_validator, add_member,
  remove_member, set_role, add_platoon_validator, remove_platoon_validator, can_form_consensus,
  is_timed_out,
}

pub data JoinStatus : Type 0 where
  pending approved rejected expired : JoinStatus

pub record JoinRequest : Type 0 where
  pub id : Bytes
  pub platoon_id : Bytes
  pub vehicle_id : Address
  pub destination : Bytes
  pub requested_at : ℤ
  pub status : JoinStatus
  pub processed_at : ℤ
  pub processed_by : Option Address

pub data EventType : Type 0 where
  platoon_created platoon_dissolved member_joined member_left leader_changed : EventType
  validator_added validator_removed params_updated vehicle_blacklisted : EventType

-- An event and a history entry, with the values that they carry: the leaders before and after, or
-- the reason. (The source turns the leaders' addresses into text.)
pub record Happening : Type 0 where
  pub kind : EventType
  pub platoon_id : Bytes
  pub vehicle_id : Option Address
  pub timestamp : ℤ
  pub values : List Bytes

-- `emitted` is what was handed to the event handlers, each in a goroutine of its own.
pub record PlatoonService (Db : Type 0) : Type 0 where
  pub db : Db
  pub platoons : GoMap Bytes Platoon
  pub join_requests : GoMap Bytes JoinRequest
  pub history : GoMap Bytes (List Happening)
  pub emitted : List Happening

abbrev pub Action : Type 0 → Type 0
Action Db = PlatoonService Db → Outcome PlatoonError (Unit {0}) × PlatoonService Db

-- json.Marshal and json.Unmarshal of a platoon; `none` is an error.
pub record PlatoonCodec : Type 0 where
  pub encode : Platoon → Option Bytes
  pub decode : Bytes → Option Platoon

unfoldable pub platoon_key : Bytes → Bytes
platoon_key id = 112 ∷ id

unfoldable pub entries_of : Option (List Happening) → List Happening
entries_of none = []
entries_of (some entries) = entries

unfoldable pub is_pending : JoinStatus → Bool
is_pending pending = true
is_pending _ = false

unfoldable pub is_forming : PlatoonStatus → Bool
is_forming forming = true
is_forming _ = false

unfoldable pub is_exactly_active : PlatoonStatus → Bool
is_exactly_active active = true
is_exactly_active _ = false

-- The first validator that is not the leader.
unfoldable pub first_other : Address → List Address → Option Address
first_other leader_id [] = none
first_other leader_id (v ∷ vs) =
    let rest = first_other leader_id vs in if bytes_eq v leader_id then rest else some v

-- A platoon that an error leaves as it was.
unfoldable pub or_same : Platoon → Outcome PlatoonError Platoon → Platoon
or_same p (ok q) = q
or_same p _ = p

module _ {Db : Type 0} where
  unfoldable pub record_history : Bytes → Happening → PlatoonService Db → PlatoonService Db
  record_history id h s = record s {
    history = put s.history id (entries_of (get s.history id) ++ h ∷ []);
  }

  unfoldable pub emit_event : Happening → PlatoonService Db → PlatoonService Db
  emit_event h s = record s { emitted = s.emitted ++ h ∷ [] }

  -- The change of the platoon that the map holds under a key.
  unfoldable pub save : Bytes → Platoon → PlatoonService Db → PlatoonService Db
  save id p s = record s { platoons = put s.platoons id p }

  unfoldable pub save_request : JoinRequest → PlatoonService Db → PlatoonService Db
  save_request req s = record s { join_requests = put s.join_requests req.id req }

  -- Storing, and where it succeeds the entry in the history.
  unfoldable pub noted :
      Bytes
      → Happening
      → Outcome PlatoonError (Unit {0}) × PlatoonService Db
      → Outcome PlatoonError (Unit {0}) × PlatoonService Db
  noted id h (ok u, s) = (ok tt, record_history id h s)
  noted id h (r, s) = (r, s)

  -- The same with an event.
  unfoldable pub announced :
      Bytes
      → Happening
      → Outcome PlatoonError (Unit {0}) × PlatoonService Db
      → Outcome PlatoonError (Unit {0}) × PlatoonService Db
  announced id h (ok u, s) = (ok tt, emit_event h (record_history id h s))
  announced id h (r, s) = (r, s)

  module _ (d : Database Db) (codec : PlatoonCodec) where
    unfoldable pub write_encoded : Platoon → Option Bytes → Db → Option Db
    write_encoded p none db = none
    write_encoded p (some bytes) db = d.write_batch ((platoon_key p.id, bytes) ∷ []) db

    unfoldable pub after_store :
        Option Db → PlatoonService Db → Outcome PlatoonError (Unit {0}) × PlatoonService Db
    after_store none s = (err store_failed, s)
    after_store (some db) s = (ok tt, record s { db = db })

    unfoldable pub store_platoon : Platoon → Action Db
    store_platoon p s = after_store (write_encoded p (codec.encode p) s.db) s

    unfoldable pub decode_found : Option (Option Bytes) → Option Platoon
    decode_found none = none
    decode_found (some none) = none
    decode_found (some (some bytes)) = codec.decode bytes

    unfoldable pub cache_loaded :
        Bytes → Option Platoon → PlatoonService Db → Option Platoon × PlatoonService Db
    cache_loaded id none s = (none, s)
    cache_loaded id (some p) s = (some p, save id p s)

    unfoldable pub find_platoon :
        Bytes → Option Platoon → PlatoonService Db → Option Platoon × PlatoonService Db
    find_platoon id (some p) s = (some p, s)
    find_platoon id none s = cache_loaded id (decode_found (d.get (platoon_key id) s.db)) s

    unfoldable pub get_platoon : Bytes → PlatoonService Db → Option Platoon × PlatoonService Db
    get_platoon id s = find_platoon id (get s.platoons id) s
