-- ===== src/Tests/PlatoonTests.antt =====
-- platoon/: a platoon that is founded, over a store that is a function and an encoding of small
-- platoons.
use v2v_blockchain.Prelude.{
  ℕ, ◌≡◌, refl, sym, Bool, true, false, Option, none, some, List, [], ◌∷◌, if◌then◌else◌, some-eq,
  none-some,
}
use mathlib.Core.Path.{subst}
use v2v_blockchain.Prelude.Int.{ℤ, pos}
use v2v_blockchain.Prelude.Eq.{bytes_eq, bytes_Eq}
use v2v_blockchain.Prelude.Distinct.{contains, without_first}
use v2v_blockchain.Prelude.GoMap.{get, put}
use v2v_blockchain.Platoons.Service.Creating.{
  create_platoon, register, built, with_leader, then_validator, initial_status,
}
use v2v_blockchain.Platoons.Service.Joining.{
  submit_join_request, submit_to, process_join_request, process_request, process_found, decide,
  admit_added, admit, activate, joining_role, join_as,
}
use v2v_blockchain.Prelude.Float64.{ltb_f64}
use v2v_blockchain.Prelude.MoveLast.{move_last, behind_first}
use v2v_blockchain.Bytes.{Bytes, Address}
use v2v_blockchain.Chain.Storage.{Database}
use v2v_blockchain.Platoons.{
  Platoon, PlatoonMember, MemberRole, validator, forming, default_platoon_params, new_platoon,
  if_valid, validate, add_member, has_member, is_blacklisted, is_platoon_validator,
  add_platoon_validator, remove_platoon_validator, set_role, remove_member, swap_out, number_from,
  can_form_consensus, is_active, is_active_status,
}
use v2v_blockchain.Platoons.WellFormed.{IsWellFormed}
use v2v_blockchain.Platoons.Service.{
  pending, JoinRequest, PlatoonService, PlatoonCodec, get_platoon, find_platoon, decode_found,
  record_history, emit_event, save, save_request, store_platoon, after_store, write_encoded,
  announced, platoon_key, entries_of, is_pending, is_forming, is_exactly_active, or_same,
}
use v2v_blockchain.Platoons.Service.Leaving.{
  leave_found, leave_platoon, leave_member, leave_removed, left, drop_validator, mark_understaffed,
}
use v2v_blockchain.Platoons.Service.Founding.{Created, create_platoon-Created}
use v2v_blockchain.Platoons.Service.Admitting.{Decided, process_join_request-Decided}
use v2v_blockchain.Platoons.Service.Storing.{StoreLaws, HoldsWellFormed}
use v2v_blockchain.Platoons.Service.Runs.{
  Call, create, submit, process, leave, run_calls, run_calls-IsWellFormed, run_call,
}

-- A store is what it holds under each key; it takes one entry at a time.
abbrev Held : Type 0
Held = Bytes → Option Bytes

abbrev write_one : List (Bytes × Bytes) → Held → Option Held
write_one ((k, v) ∷ []) held = some (λ j. if bytes_eq k j then some v else held j)
write_one _ held = none

abbrev held_database : Database Held
held_database = record { get = λ key held. some (held key); write_batch = write_one }

-- A platoon of one validator, with addresses of one number.
abbrev small_platoon : ℕ → ℕ → ℕ → ℕ → ℕ → ℕ → ℕ → Platoon
small_platoon limit l x y joined place seen = record {
  id = 80 ∷ [];
  name = [];
  status = forming;
  params = record default_platoon_params { max_vehicles = limit };
  leader_id = l ∷ [];
  members =
      record {
        vehicle_id = y ∷ [];
        role = validator;
        joined_at = pos joined;
        position = place;
        last_seen_at = pos seen;
      }
      ∷ [];
  validators = (x ∷ []) ∷ [];
  created_at = pos joined;
  updated_at = pos joined;
  dissolved_at = pos 0;
  blacklist = [];
  last_activity_at = pos joined;
  timeout_secs = 300;
}

abbrev encode_member : ℕ → ℕ → ℕ → Address → MemberRole → ℤ → ℕ → ℤ → Option Bytes
encode_member limit l x (y ∷ []) validator (pos joined) place (pos seen) =
    some (limit ∷ l ∷ x ∷ y ∷ joined ∷ place ∷ seen ∷ [])
encode_member limit l x _ _ _ _ _ = none

abbrev encode_parts : ℕ → Address → List Address → List PlatoonMember → Option Bytes
encode_parts limit (l ∷ []) ((x ∷ []) ∷ []) (m ∷ []) =
    encode_member limit l x m.vehicle_id m.role m.joined_at m.position m.last_seen_at
encode_parts limit _ _ _ = none

abbrev decode_parts : Bytes → Option Platoon
decode_parts (limit ∷ l ∷ x ∷ y ∷ joined ∷ place ∷ seen ∷ []) =
    some (small_platoon limit l x y joined place seen)
decode_parts _ = none

abbrev small_codec : PlatoonCodec
small_codec = record {
  encode = λ p. encode_parts p.params.max_vehicles p.leader_id p.validators p.members;
  decode = decode_parts;
}

-- The parts of a platoon that are read back.
abbrev Parts : ℕ → Address → List Address → List PlatoonMember → Platoon → Type 0
Parts limit l vs ms q =
    (q.members ≡ ms) × (q.validators ≡ vs) × (q.leader_id ≡ l) × (q.params.max_vehicles ≡ limit)

decode-encode_member :
    (limit l x : ℕ) (v : Address) (role : MemberRole) (joined : ℤ) (place : ℕ) (seen : ℤ)
    (b : Bytes) (q : Platoon)
    → encode_member limit l x v role joined place seen ≡ some b
    → decode_parts b ≡ some q
    → Parts limit
        (l ∷ [])
        ((x ∷ []) ∷ [])
        (record {
          vehicle_id = v;
          role = role;
          joined_at = joined;
          position = place;
          last_seen_at = seen;
        }
          ∷ [])
        q
decode-encode_member limit l x (y ∷ []) validator (pos joined) place (pos seen) b q h e =
    let found : small_platoon limit l x y joined place seen ≡ q =
      some-eq (subst (λ t. decode_parts t ≡ some q) (sym (some-eq h)) e) in
    subst
      (Parts limit (l ∷ []) ((x ∷ []) ∷ []) (small_platoon limit l x y joined place seen).members)
      found (refl, refl, refl, refl)
decode-encode_member limit l x v role joined place seen b q h e = absurd (none-some h)

decode-encode_parts :
    (limit : ℕ) (l : Address) (vs : List Address) (ms : List PlatoonMember) (b : Bytes)
    (q : Platoon)
    → encode_parts limit l vs ms ≡ some b
    → decode_parts b ≡ some q
    → Parts limit l vs ms q
decode-encode_parts limit (l ∷ []) ((x ∷ []) ∷ []) (m ∷ []) b q h e =
    decode-encode_member limit l x m.vehicle_id m.role m.joined_at m.position m.last_seen_at b q h e
decode-encode_parts limit l vs ms b q h e = absurd (none-some h)

small_laws : StoreLaws held_database small_codec
small_laws = record {
  read_written = λ k j v db db' h.
      subst (λ held. some (held j) ≡ (if bytes_eq k j then some (some v) else some (db j)))
        (some-eq h) (some_if (bytes_eq k j) v (db j));
  read_back = λ p q b h e.
      let (members, validators, leader_id, limit) =
        decode-encode_parts p.params.max_vehicles p.leader_id p.validators p.members b q h e in
      record { members = members; validators = validators; leader_id = leader_id; params = limit };
}
  where
    some_if :
        (c : Bool) (v : Bytes) (o : Option Bytes)
        → some (if c then some v else o) ≡ (if c then some (some v) else some o)
    some_if true v o = refl
    some_if false v o = refl

abbrev empty_service : PlatoonService Held
empty_service = record {
  db = λ key. none;
  platoons = [];
  join_requests = [];
  history = [];
  emitted = [];
}

empty_service-HoldsWellFormed : HoldsWellFormed held_database small_codec empty_service
unfolding get decode_found
empty_service-HoldsWellFormed = record {
  held = λ id p h. absurd (none-some h);
  stored = λ key p h. absurd (none-some h);
}

abbrev first_vehicle : Address
first_vehicle = 1 ∷ []

abbrev second_vehicle : Address
second_vehicle = 2 ∷ []

-- The second vehicle joins and leaves.
abbrev short_ride : List (ℤ × Call)
short_ride =
    (pos 100, create (80 ∷ []) first_vehicle default_platoon_params [])
    ∷ (pos 101, submit (81 ∷ []) (80 ∷ []) second_vehicle [])
    ∷ (pos 102, process (81 ∷ []) true first_vehicle)
    ∷ (pos 103, leave (80 ∷ []) second_vehicle)
    ∷ []

abbrev after_ride : Platoon
after_ride = record (small_platoon 100 1 1 1 100 0 100) {
  updated_at = pos 103;
  last_activity_at = pos 102;
}

after_ride_found :
    (get_platoon held_database small_codec
      (80 ∷ [])
      (run_calls held_database small_codec short_ride empty_service)).0
    ≡ some after_ride
unfolding new_platoon if_valid validate add_member has_member is_blacklisted is_platoon_validator
    add_platoon_validator remove_platoon_validator set_role remove_member swap_out number_from
    can_form_consensus is_active is_active_status find_platoon decode_found record_history
    emit_event save save_request store_platoon after_store write_encoded announced platoon_key
    entries_of is_pending is_forming is_exactly_active or_same create_platoon register built
    with_leader then_validator initial_status submit_join_request submit_to process_join_request
    process_request process_found decide admit_added admit activate joining_role join_as
    leave_platoon leave_found leave_member leave_removed left drop_validator mark_understaffed
    run_calls run_call ltb_f64 contains without_first move_last behind_first get put bytes_eq
    get_platoon
after_ride_found = refl

after_ride-IsWellFormed : IsWellFormed after_ride
after_ride-IsWellFormed =
    run_calls-IsWellFormed held_database small_codec small_laws short_ride empty_service
      empty_service-HoldsWellFormed (80 ∷ []) after_ride after_ride_found

run_calls-IsWellFormed_example : IsWellFormed after_ride
run_calls-IsWellFormed_example =
    run_calls-IsWellFormed held_database small_codec small_laws short_ride empty_service
      empty_service-HoldsWellFormed (80 ∷ []) after_ride after_ride_found

abbrev second_request : JoinRequest
second_request = record {
  id = 81 ∷ [];
  platoon_id = 80 ∷ [];
  vehicle_id = second_vehicle;
  destination = [];
  requested_at = pos 110;
  status = pending;
  processed_at = pos 0;
  processed_by = none;
}

-- A service that holds the platoon, with a request to join it.
abbrev riding : PlatoonService Held
riding = record empty_service {
  platoons = (80 ∷ [], after_ride) ∷ [];
  join_requests = (81 ∷ [], second_request) ∷ [];
}

after_ride_held : get_platoon held_database small_codec (80 ∷ []) riding ≡ (some after_ride, riding)
unfolding get_platoon find_platoon get bytes_eq
after_ride_held = refl

second_request_held : get riding.join_requests (81 ∷ []) ≡ some second_request
unfolding get bytes_eq
second_request_held = refl

second_request_pending : is_pending second_request.status ≡ true
unfolding is_pending
second_request_pending = refl

create_platoon-Created_example :
    Created held_database small_codec
      (pos 100)
      (80 ∷ [])
      first_vehicle
      default_platoon_params
      []
      (validate default_platoon_params)
      empty_service
      (create_platoon held_database small_codec
        (pos 100)
        (80 ∷ [])
        first_vehicle
        default_platoon_params
        []
        empty_service)
create_platoon-Created_example =
    create_platoon-Created held_database small_codec (pos 100) (80 ∷ []) first_vehicle
      default_platoon_params [] empty_service

process_join_request-Decided_example :
    Decided held_database small_codec
      (pos 110)
      second_request
      first_vehicle
      after_ride
      riding
      (process_join_request held_database small_codec (pos 110) (81 ∷ []) true first_vehicle riding)
process_join_request-Decided_example =
    process_join_request-Decided held_database small_codec (pos 110) (81 ∷ []) second_request
      first_vehicle after_ride riding riding second_request_held second_request_pending
      after_ride_held refl after_ride-IsWellFormed
