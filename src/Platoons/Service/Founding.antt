-- ===== src/Platoons/Service/Founding.antt =====
-- platoon/service.go: the platoon that CreatePlatoon makes.
use v2v_blockchain.Prelude.{
  ◌≡◌, refl, true, false, Option, none, some, [], ◌∷◌, leb, inl, inr, Option-cases, arith, Outcome,
  ok, err, panic, blocked,
}
use v2v_blockchain.Prelude.Int.{ℤ}
use v2v_blockchain.Prelude.Eq.{bytes_eq, bytes_eq_iff, bytes_Eq}
use v2v_blockchain.Prelude.Distinct.{contains}
use v2v_blockchain.Bytes.{Bytes, Address}
use v2v_blockchain.Platoons.{
  Platoon, PlatoonParams, PlatoonError, validator, forming, validate, if_valid, new_platoon,
  add_member, has_member, is_blacklisted, add_platoon_validator, is_platoon_validator, set_role,
}
use v2v_blockchain.Chain.Storage.{Database}
use v2v_blockchain.Platoons.Service.{PlatoonService, PlatoonCodec, platoon_created}
use v2v_blockchain.Platoons.Service.Settling.{Settles, announced-Settles, of_vehicle}
use v2v_blockchain.Platoons.Service.Creating.{
  built, with_leader, then_validator, initial_status, register, create_platoon,
}

-- A new platoon has one member and one validator, its leader, whose role is the validator's.
pub record Founds (new_id : Bytes) (leader : Address) (wanted : PlatoonParams) (title : Bytes)
    (now : ℤ) (p : Platoon) : Type 0 where
  pub id : p.id ≡ new_id
  pub name : p.name ≡ title
  pub params : p.params ≡ wanted
  pub members :
      p.members
      ≡ record {
        vehicle_id = leader;
        role = validator;
        joined_at = now;
        position = 0;
        last_seen_at = now;
      }
        ∷ []
  pub validators : p.validators ≡ leader ∷ []
  pub leads : p.leader_id ≡ leader
  pub status : p.status ≡ forming
  pub blacklist : p.blacklist ≡ []

-- The platoon that is built, or the reason why its parameters are refused.
Built :
    Bytes
    → Address
    → PlatoonParams
    → Bytes
    → ℤ
    → Option PlatoonError
    → Outcome PlatoonError Platoon
    → Type 0
Built id leader_id params name now (some e) r = r ≡ err e
Built id leader_id params name now none (ok p) =
    Founds id leader_id params name now (initial_status p)
Built id leader_id params name now none _ = ⊥

validate-limit :
    (params : PlatoonParams) → validate params ≡ none → leb params.max_vehicles 0 ≡ false
unfolding validate
validate-limit params h = ground (arith, h)

built-Built :
    (now : ℤ) (id : Bytes) (leader_id : Address) (params : PlatoonParams) (name : Bytes)
    → Built id leader_id params name now
        (validate params)
        (built now leader_id name (new_platoon now id leader_id params))
unfolding built with_leader then_validator new_platoon if_valid add_member has_member is_blacklisted
    add_platoon_validator is_platoon_validator set_role initial_status contains Built
built-Built now id leader_id params name = elim (Option-cases (validate params)) [
  | inr (e, refused) ↦ rw refused refl
  | inl valid ↦
      let own : bytes_eq leader_id leader_id ≡ true = (bytes_eq_iff leader_id leader_id).1 refl in
      let room = validate-limit params valid in
      rw valid (
        rw room (
          rw own (record {
            id = refl;
            name = refl;
            params = refl;
            members = refl;
            validators = refl;
            leads = refl;
            status = refl;
            blacklist = refl;
          })))
]

module _ {Db : Type 0} (d : Database Db) (codec : PlatoonCodec) (now : ℤ) where
  -- What CreatePlatoon yields, for what Validate answers.
  abbrev pub Created :
      Bytes
      → Address
      → PlatoonParams
      → Bytes
      → Option PlatoonError
      → PlatoonService Db
      → Outcome PlatoonError (Unit {0}) × PlatoonService Db
      → Type 0
  Created id leader_id params name (some e) s r = r ≡ (err e, s)
  Created id leader_id params name none s r =
      (p : Platoon) × Founds id leader_id params name now p
      × Settles d codec id id (of_vehicle platoon_created id leader_id now) p s r

  register-Created :
      (id : Bytes) (leader_id : Address) (params : PlatoonParams) (name : Bytes)
      (o : Option PlatoonError) (r : Outcome PlatoonError Platoon) (s : PlatoonService Db)
      → Built id leader_id params name now o r
      → Created id leader_id params name o s (register d codec now id leader_id r s)
  unfolding register Built
  register-Created id leader_id params name (some e) r s h = rw h refl
  register-Created id leader_id params name none (ok p) s h = (
    initial_status p,
    h,
    announced-Settles d codec id id (of_vehicle platoon_created id leader_id now) (initial_status p)
        s,
  )
  register-Created id leader_id params name none (err e) s h = absurd h
  register-Created id leader_id params name none panic s h = absurd h
  register-Created id leader_id params name none blocked s h = absurd h

  -- CreatePlatoon refuses exactly the parameters that Validate refuses, with its error and nothing
  -- changed. Else it saves a platoon in the map under the new id, with the name and parameters given,
  -- which is forming, has nobody on its blacklist, and has the leader as its one member, at position
  -- 0, and its one validator; that member's role is the validator's, not the leader's. If storing it
  -- succeeds, the call succeeds, and that it was created is in the history and with the handlers; if
  -- storing fails, the call fails with that error, though the platoon is in the map.
  pub create_platoon-Created :
      (id : Bytes) (leader_id : Address) (params : PlatoonParams) (name : Bytes)
      (s : PlatoonService Db)
      → Created id leader_id params name
          (validate params)
          s
          (create_platoon d codec now id leader_id params name s)
  unfolding create_platoon
  create_platoon-Created id leader_id params name s =
      register-Created id leader_id params name (validate params)
        (built now leader_id name (new_platoon now id leader_id params)) s
        (built-Built now id leader_id params name)
