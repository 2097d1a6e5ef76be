-- ===== src/Platoons/Service/Creating.antt =====
-- platoon/service.go: CreatePlatoon.
use v2v_blockchain.Prelude.{some, [], length, ltb, if◌then◌else◌, Outcome, ok, err, panic, blocked}
use v2v_blockchain.Prelude.Int.{ℤ}
use v2v_blockchain.Prelude.Eq.{bytes_Eq}
use v2v_blockchain.Bytes.{Bytes, Address}
use v2v_blockchain.Chain.Storage.{Database}
use v2v_blockchain.Platoons.{
  active, forming, leader, PlatoonParams, Platoon, PlatoonError, new_platoon, add_member,
  add_platoon_validator,
}
use v2v_blockchain.Platoons.Service.{
  Action, PlatoonCodec, save, announced, store_platoon, platoon_created,
}

unfoldable pub then_validator :
    Address → Outcome PlatoonError Platoon → Outcome PlatoonError Platoon
then_validator v (ok p) = add_platoon_validator v p
then_validator v r = r

-- The platoon that CreatePlatoon builds: its leader is added as a member and as a validator.
unfoldable pub with_leader : ℤ → Address → Bytes → Platoon → Outcome PlatoonError Platoon
with_leader now leader_id name p =
    then_validator leader_id (add_member now leader_id leader (record p { name = name }))

unfoldable pub initial_status : Platoon → Platoon
initial_status p = record p { status = if ltb (length p.members) 4 then forming else active }

unfoldable pub built :
    ℤ → Address → Bytes → Outcome PlatoonError Platoon → Outcome PlatoonError Platoon
built now leader_id name (ok p) = with_leader now leader_id name p
built now leader_id name r = r

module _ {Db : Type 0} (d : Database Db) (codec : PlatoonCodec) (now : ℤ) where
  unfoldable pub register : Bytes → Address → Outcome PlatoonError Platoon → Action Db
  register id leader_id (ok p) s =
      let q = initial_status p in
      announced id
        (record {
          kind = platoon_created;
          platoon_id = id;
          vehicle_id = some leader_id;
          timestamp = now;
          values = [];
        })
        (store_platoon d codec q (save id q s))
  register id leader_id (err e) s = (err e, s)
  register id leader_id panic s = (panic, s)
  register id leader_id blocked s = (blocked, s)

  unfoldable pub create_platoon : Bytes → Address → PlatoonParams → Bytes → Action Db
  create_platoon id leader_id params name =
      register id leader_id (built now leader_id name (new_platoon now id leader_id params))
