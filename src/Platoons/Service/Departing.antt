-- ===== src/Platoons/Service/Departing.antt =====
-- platoon/service.go: what LeavePlatoon does, whoever leaves.
use v2v_blockchain.Prelude.{
  ◌≡◌, refl, ap, sym, ◌∙◌, true, false, not, ◌&&◌, none, some, length, inl, inr, Bool-cases,
  Option-cases, false-true, ◌≢◌, Outcome, err, ◌⊎◌,
}
use mathlib.Core.Path.{subst}
use v2v_blockchain.Prelude.Int.{ℤ}
use v2v_blockchain.Prelude.Eq.{bytes_eq, bytes_eq_iff, bytes_Eq}
use v2v_blockchain.Prelude.Distinct.{contains}
use v2v_blockchain.Bytes.{Bytes, Address}
use v2v_blockchain.Chain.Storage.{Database}
use v2v_blockchain.Platoons.{
  Platoon, PlatoonError, not_a_member, no_replacement, has_member, vehicles,
}
use v2v_blockchain.Platoons.Members.{length-vehicles}
use v2v_blockchain.Platoons.WellFormed.{IsWellFormed}
use v2v_blockchain.Platoons.WellFormed.Departures.{Departs, remove_member-Departs}
use v2v_blockchain.Platoons.WellFormed.Successors.{hand_over-IsWellFormed}
use v2v_blockchain.Platoons.Service.{PlatoonService, PlatoonCodec, member_left}
use v2v_blockchain.Platoons.Service.Settling.{Settles, announced-Settles, of_vehicle}
use v2v_blockchain.Platoons.Service.Leaving.{
  announce_leader, left, leave_removed, leave_member, leave_leader, leave_found, mark_understaffed,
  hand_over, successor,
}

-- The roles and the leader may change before a vehicle departs.
Departs-hand_over :
    (v w : Address) (p q : Platoon)
    → vehicles (hand_over w p).members ≡ vehicles p.members
    → Departs v w (hand_over w p) q
    → Departs v w p q
unfolding hand_over
Departs-hand_over v w p q same h = record {
  leads = h.leads;
  well_formed = h.well_formed;
  others = λ a. h.others a ∙ ap (λ vs. contains vs a && not (bytes_eq v a)) same;
  shorter =
      h.shorter
      ∙ sym (length-vehicles (hand_over w p).members)
      ∙ ap length same
      ∙ length-vehicles p.members;
  not_validator = h.not_validator;
  status = h.status;
  not_empty = h.not_empty;
}

module _ {Db : Type 0} (d : Database Db) (codec : PlatoonCodec) (now : ℤ) where
  leave_member-Settles :
      (id : Bytes) (v : Address) (p : Platoon) (s : PlatoonService Db)
      → IsWellFormed p
      → contains (vehicles p.members) v ≡ true
      → bytes_eq p.leader_id v ≡ false
      → (q : Platoon) × Departs v p.leader_id p q
        × Settles d codec id id
            (of_vehicle member_left id v now)
            q
            s
            (leave_member d codec now id v p s)
  unfolding leave_member leave_removed left
  leave_member-Settles id v p s h member other =
      let (q, removed, departs) = remove_member-Departs now v p h member other in
      let left_platoon = mark_understaffed q in
      (
        mark_understaffed q,
        departs,
        rw (removed, leave_removed)
            (rw (departs.not_empty, left)
              (announced-Settles d codec id id (of_vehicle member_left id v now) left_platoon s)),
      )

  -- What LeavePlatoon yields for a platoon it has found.
  abbrev pub Left :
      Bytes
      → Address
      → Platoon
      → PlatoonService Db
      → Outcome PlatoonError (Unit {0}) × PlatoonService Db
      → Type 0
  Left id v p s r =
      ((has_member p v ≡ false) × (r ≡ (err not_a_member, s)))
      ⊎ ((p.leader_id ≡ v) × (successor p ≡ none) × (r ≡ (err no_replacement, s)))
      ⊎ ((p.leader_id ≢ v)
          × (q : Platoon) × Departs v p.leader_id p q
          × Settles d codec id id (of_vehicle member_left id v now) q s r)
      ⊎ ((p.leader_id ≡ v)
          × (w : Address) × (successor p ≡ some w)
          × (q : Platoon) × Departs v w p q
          × Settles d codec id id (of_vehicle member_left id v now) q
              (announce_leader d codec now w p s) r)

  pub leave_found-Left :
      (id : Bytes) (v : Address) (p : Platoon) (s : PlatoonService Db)
      → IsWellFormed p
      → Left id v p s (leave_found d codec now id v (some p) s)
  unfolding leave_found leave_leader has_member hand_over
  leave_found-Left id v p s h = elim (Bool-cases (contains (vehicles p.members) v)) [
    | inr stranger ↦ inl (stranger, rw stranger refl)
    | inl member ↦ rw member (elim (Bool-cases (bytes_eq p.leader_id v)) [
      | inr other ↦
          let (q, departs, settles) = leave_member-Settles id v p s h member other in
          inr (
            inr (
              inl (
                λ e. absurd (false-true (sym other ∙ (bytes_eq_iff p.leader_id v).1 e)),
                q,
                departs,
                rw other settles,
              )))
      | inl leads ↦
          let same : p.leader_id ≡ v = (bytes_eq_iff p.leader_id v).0 leads in
          rw leads (elim (Option-cases (successor p)) [
            | inl alone ↦ inr (inl (same, alone, rw alone refl))
            | inr (w, found) ↦
                let (well_formed, vs, other) = hand_over-IsWellFormed p w h found in
                let (q, departs, settles) =
                  leave_member-Settles id v (hand_over w p) (announce_leader d codec now w p s)
                    well_formed (ap (λ xs. contains xs v) vs ∙ member)
                    (subst (λ a. bytes_eq w a ≡ false) same other) in
                inr (
                  inr (
                    inr
                      (same, w, found, q, Departs-hand_over v w p q vs departs, rw found settles)))
          ])
    ])
  ]
