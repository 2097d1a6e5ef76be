-- ===== src/Platoons.antt =====
-- internal/service/platoon/types.go: platoons, their members and validators. `now` stands for
-- time.Now().Unix(). A string is its bytes.
pub mod Members
pub mod WellFormed
pub mod Service
use v2v_blockchain.Prelude.{
  ℕ, zero, suc, ◌+◌, ◌-◌, ◌*◌, Bool, true, false, ◌||◌, Option, none, some, List, [], ◌∷◌, ◌++◌,
  length, ltb, leb, ◌==◌, if◌then◌else◌, Outcome, ok, err,
}
use v2v_blockchain.Prelude.Int.{ℤ, pos, ltb_ℤ}
use v2v_blockchain.Prelude.Eq.{bytes_eq, bytes_Eq}
use v2v_blockchain.Prelude.Distinct.{contains, without_first}
use v2v_blockchain.Prelude.MoveLast.{move_last}
use v2v_blockchain.Prelude.Float64.{Float64, ltb_f64, f64_zero, f64_five, f64_twenty, f64_thirty}
use v2v_blockchain.Bytes.{Bytes, Address}
use v2v_blockchain.Messages.{sub_i64}

pub data PlatoonStatus : Type 0 where
  inactive active forming dissolving dissolved understaffed : PlatoonStatus

pub data MemberRole : Type 0 where
  none_role leader validator follower : MemberRole

-- A negative maximum behaves as 0 does: it is refused, and a platoon with it is full.
pub record PlatoonParams : Type 0 where
  pub max_vehicles : ℕ
  pub target_speed : Float64
  pub safe_distance : Float64
  pub lane_id : ℤ
  pub route_id : Bytes
  pub emergency_mode : Bool

abbrev pub default_platoon_params : PlatoonParams
default_platoon_params = record {
  max_vehicles = 100;
  target_speed = f64_thirty;
  safe_distance = f64_twenty;
  lane_id = pos 0;
  route_id = [];
  emergency_mode = false;
}

pub data PlatoonError : Type 0 where
  too_few_vehicles too_many_vehicles negative_speed short_distance : PlatoonError
  already_member blacklisted platoon_full member_not_found : PlatoonError
  already_validator validator_not_found : PlatoonError
  platoon_not_found not_accepting request_not_found already_processed only_leader : PlatoonError
  not_a_member no_replacement already_dissolved only_validator store_failed : PlatoonError

-- Validate; none is no error.
unfoldable pub validate : PlatoonParams → Option PlatoonError
validate p =
    if ltb p.max_vehicles 4
    then some too_few_vehicles
    else if ltb 100 p.max_vehicles
    then some too_many_vehicles
    else if ltb_f64 p.target_speed f64_zero
    then some negative_speed
    else if ltb_f64 p.safe_distance f64_five
    then some short_distance
    else none

-- The status of a member is always "active", and is not read.
pub record PlatoonMember : Type 0 where
  pub vehicle_id : Address
  pub role : MemberRole
  pub joined_at : ℤ
  pub position : ℕ
  pub last_seen_at : ℤ

-- `block_height` is never set.
pub record Platoon : Type 0 where
  pub id : Bytes
  pub name : Bytes
  pub status : PlatoonStatus
  pub params : PlatoonParams
  pub leader_id : Address
  pub members : List PlatoonMember
  pub validators : List Address
  pub created_at : ℤ
  pub updated_at : ℤ
  pub dissolved_at : ℤ
  pub blacklist : List Address
  pub last_activity_at : ℤ
  pub timeout_secs : ℕ

-- A platoon, unless its parameters were refused.
unfoldable pub if_valid : Option PlatoonError → Platoon → Outcome PlatoonError Platoon
if_valid none p = ok p
if_valid (some e) p = err e

unfoldable pub new_platoon : ℤ → Bytes → Address → PlatoonParams → Outcome PlatoonError Platoon
new_platoon now id leader_id params = if_valid (validate params) (record {
  id = id;
  name = [];
  status = forming;
  params = params;
  leader_id = leader_id;
  members = [];
  validators = [];
  created_at = now;
  updated_at = now;
  dissolved_at = pos 0;
  blacklist = [];
  last_activity_at = now;
  timeout_secs = 300;
})

unfoldable pub is_active_status : PlatoonStatus → Bool
is_active_status active = true
is_active_status understaffed = true
is_active_status _ = false

unfoldable pub is_active : Platoon → Bool
is_active p = is_active_status p.status

-- The vehicles of the members, in their order.
abbrev pub vehicles : List PlatoonMember → List Address
vehicles [] = []
vehicles (m ∷ ms) = m.vehicle_id ∷ vehicles ms

unfoldable pub has_member : Platoon → Address → Bool
has_member p v = contains (vehicles p.members) v

unfoldable pub is_blacklisted : Platoon → Address → Bool
is_blacklisted p v = contains p.blacklist v

unfoldable pub is_platoon_validator : Platoon → Address → Bool
is_platoon_validator p v = contains p.validators v

unfoldable pub add_member : ℤ → Address → MemberRole → Platoon → Outcome PlatoonError Platoon
add_member now v role p =
    if has_member p v
    then err already_member
    else if is_blacklisted p v
    then err blacklisted
    else if leb p.params.max_vehicles (length p.members)
    then err platoon_full
    else ok (record p {
      members =
          p.members
          ++ record {
            vehicle_id = v;
            role = role;
            joined_at = now;
            position = length p.members;
            last_seen_at = now;
          }
            ∷ [];
      updated_at = now;
      last_activity_at = now;
    })

-- Swapping with the last member and truncating, at the first member of the vehicle.
unfoldable pub swap_out : Address → List PlatoonMember → List PlatoonMember
swap_out v [] = []
swap_out v (m ∷ ms) =
    let rest = swap_out v ms in if bytes_eq m.vehicle_id v then move_last ms else m ∷ rest

-- for j, m := range members { m.Position = j }
unfoldable pub number_from : ℕ → List PlatoonMember → List PlatoonMember
number_from j [] = []
number_from j (m ∷ ms) = record m { position = j } ∷ number_from (suc j) ms

unfoldable pub remove_member : ℤ → Address → Platoon → Outcome PlatoonError Platoon
remove_member now v p =
    if has_member p v
    then ok (record p { members = number_from 0 (swap_out v p.members); updated_at = now })
    else err member_not_found

-- The role of the first member of the vehicle is set, if there is one.
unfoldable pub set_role : Address → MemberRole → List PlatoonMember → List PlatoonMember
set_role v role [] = []
set_role v role (m ∷ ms) =
    let rest = set_role v role ms in
    if bytes_eq m.vehicle_id v then record m { role = role } ∷ ms else m ∷ rest

unfoldable pub add_platoon_validator : Address → Platoon → Outcome PlatoonError Platoon
add_platoon_validator v p =
    if is_platoon_validator p v
    then err already_validator
    else ok
        (record p { validators = p.validators ++ v ∷ []; members = set_role v validator p.members })

unfoldable pub remove_platoon_validator : Address → Platoon → Outcome PlatoonError Platoon
remove_platoon_validator v p =
    if is_platoon_validator p v
    then ok (record p {
      validators = without_first v p.validators;
      members = set_role v follower p.members;
    })
    else err validator_not_found

unfoldable pub add_to_blacklist : Address → Platoon → Platoon
add_to_blacklist v p =
    if is_blacklisted p v then p else record p { blacklist = p.blacklist ++ v ∷ [] }

unfoldable pub can_form_consensus : Platoon → Bool
can_form_consensus p = leb 4 (length p.validators)

unfoldable pub update_activity : ℤ → Platoon → Platoon
update_activity now p = record p { last_activity_at = now }

unfoldable pub is_timed_out : ℤ → Platoon → Bool
is_timed_out now p = ltb_ℤ (pos p.timeout_secs) (sub_i64 now p.last_activity_at)
