-- ===== src/Platoons/Service/Changes.antt =====
-- platoon/service.go: the operations that dissolve platoons and change their validators.
use v2v_blockchain.Prelude.{
  ◌≡◌, refl, Option, none, some, length, leb, inl, inr, Bool-cases, arith, Outcome, ok, err, panic,
  blocked,
}
use v2v_blockchain.Prelude.Int.{ℤ}
use v2v_blockchain.Prelude.Eq.{bytes_eq, bytes_Eq}
use v2v_blockchain.Prelude.Distinct.{contains}
use v2v_blockchain.Bytes.{Bytes, Address}
use v2v_blockchain.Chain.Storage.{Database}
use v2v_blockchain.Platoons.{
  Platoon, PlatoonError, has_member, is_platoon_validator, add_platoon_validator,
  remove_platoon_validator, dissolved, vehicles,
}
use v2v_blockchain.Platoons.WellFormed.{IsWellFormed, Yields}
use v2v_blockchain.Platoons.WellFormed.Validators.{
  add_validator-IsWellFormed, remove_validator-IsWellFormed,
}
use v2v_blockchain.Platoons.Service.{PlatoonService, PlatoonCodec, or_same, save_request}
use v2v_blockchain.Platoons.Service.Changing.{
  is_dissolved, dissolve_found, appoint_found, demote_removed, demote_found,
}
use v2v_blockchain.Platoons.Service.Joining.{submit_to}
use v2v_blockchain.Platoons.Service.Admission.{with_status-IsWellFormed, or_same-IsWellFormed}
use v2v_blockchain.Platoons.Service.Storing.{StoreLaws, stored-HoldsWellFormed}
use v2v_blockchain.Platoons.Service.Invariant.{Keeps}

module _ {Db : Type 0} (d : Database Db) (codec : PlatoonCodec) (laws : StoreLaws d codec)
    (now : ℤ) where
  pub submit_to-same :
      (id platoon_id : Bytes) (v : Address) (destination : Bytes) (o : Option Platoon)
      (s : PlatoonService Db)
      → let t = (submit_to d codec now id platoon_id v destination o s).1 in
        (t.platoons ≡ s.platoons) × (t.db ≡ s.db)
  unfolding submit_to save_request
  submit_to-same id platoon_id v destination none s = (refl, refl)
  submit_to-same id platoon_id v destination (some p) s = ground arith

  pub dissolve_found-Keeps :
      (id reason : Bytes) (o : Option Platoon) (s : PlatoonService Db)
      → ((p : Platoon) → o ≡ some p → IsWellFormed p)
      → Keeps d codec laws now (dissolve_found d codec now id reason o) s
  unfolding dissolve_found
  dissolve_found-Keeps id reason none s good holds = holds
  dissolve_found-Keeps id reason (some p) s good holds = elim (Bool-cases (is_dissolved p.status)) [
    | inl over ↦ rw over holds
    | inr open_still ↦
        rw open_still
          (stored-HoldsWellFormed d codec laws id id _ _ s
            (with_status-IsWellFormed dissolved now now p (good p refl)) holds).0
  ]

  pub appoint_found-Keeps :
      (id : Bytes) (v appointer : Address) (o : Option Platoon) (s : PlatoonService Db)
      → ((p : Platoon) → o ≡ some p → IsWellFormed p)
      → Keeps d codec laws now (appoint_found d codec now id v appointer o) s
  unfolding appoint_found has_member
  appoint_found-Keeps id v appointer none s good holds = holds
  appoint_found-Keeps id v appointer (some p) s good holds =
      elim (Bool-cases (bytes_eq p.leader_id appointer)) [
        | inr other ↦ rw other holds
        | inl leads ↦ rw leads (elim (Bool-cases (contains (vehicles p.members) v)) [
          | inr stranger ↦ rw stranger holds
          | inl member ↦ rw member (elim (Bool-cases (is_platoon_validator p v)) [
            | inl old ↦ rw old holds
            | inr new ↦
                let q = or_same p (add_platoon_validator v p) in
                let h =
                  or_same-IsWellFormed p (add_platoon_validator v p) (good p refl)
                    (add_validator-IsWellFormed v p (good p refl) member) in
                rw new (stored-HoldsWellFormed d codec laws id id _ q s h holds).1
          ])
        ])
      ]

  demote_removed-Keeps :
      (id : Bytes) (v : Address) (r : Outcome PlatoonError Platoon) (s : PlatoonService Db)
      → Yields IsWellFormed r
      → Keeps d codec laws now (demote_removed d codec now id v r) s
  unfolding demote_removed
  demote_removed-Keeps id v (ok q) s h holds =
      (stored-HoldsWellFormed d codec laws id id _ q s h holds).1
  demote_removed-Keeps id v (err e) s h holds = holds
  demote_removed-Keeps id v panic s h holds = holds
  demote_removed-Keeps id v blocked s h holds = holds

  pub demote_found-Keeps :
      (id : Bytes) (v demoter : Address) (o : Option Platoon) (s : PlatoonService Db)
      → ((p : Platoon) → o ≡ some p → IsWellFormed p)
      → Keeps d codec laws now (demote_found d codec now id v demoter o) s
  unfolding demote_found
  demote_found-Keeps id v demoter none s good holds = holds
  demote_found-Keeps id v demoter (some p) s good holds =
      elim (Bool-cases (bytes_eq p.leader_id demoter)) [
        | inr other ↦ rw other holds
        | inl leads ↦ rw leads (elim (Bool-cases (leb (length p.validators) 1)) [
          | inl only ↦ rw only holds
          | inr several ↦ rw several (
              demote_removed-Keeps id v (remove_platoon_validator v p) s
                (remove_validator-IsWellFormed v p (good p refl)) holds)
        ])
      ]
