-- ===== src/Platoons/Members.antt =====
-- platoon/types.go: the members that AddMember, RemoveMember and the changes of roles leave.
use v2v_blockchain.Prelude.{
  ℕ, suc, ◌+◌, ◌≡◌, refl, ap, sym, ◌∙◌, true, not, ◌&&◌, some, List, [], ◌∷◌, ◌++◌, length, inl,
  inr, Bool-cases, arith,
}
use mathlib.Core.Path.{subst}
use v2v_blockchain.Prelude.Eq.{bytes_eq, bytes_Eq}
use v2v_blockchain.Prelude.Distinct.{contains, Distinct}
use v2v_blockchain.Prelude.MoveLast.{behind_first, move_last}
use v2v_blockchain.Bytes.{Address}
use v2v_blockchain.Consensus.ValidatorSet.{swap_remove, cons_option}
use v2v_blockchain.Consensus.ValidatorSet.Members.{Removes, swap_remove-Removes}
use v2v_blockchain.Platoons.{PlatoonMember, MemberRole, vehicles, swap_out, number_from, set_role}

-- The members stand at the positions from a number on.
abbrev pub Numbered : ℕ → List PlatoonMember → Type 0
Numbered j [] = Unit
Numbered j (m ∷ ms) = (m.position ≡ j) × Numbered (suc j) ms

pub length-vehicles : (ms : List PlatoonMember) → length (vehicles ms) ≡ length ms
length-vehicles [] = refl
length-vehicles (m ∷ ms) = ap suc (length-vehicles ms)

pub vehicles-append :
    (ms : List PlatoonMember) (m : PlatoonMember)
    → vehicles (ms ++ m ∷ []) ≡ vehicles ms ++ m.vehicle_id ∷ []
vehicles-append [] m = refl
vehicles-append (n ∷ ms) m = ap (λ vs. n.vehicle_id ∷ vs) (vehicles-append ms m)

pub append-Numbered :
    (j : ℕ) (ms : List PlatoonMember) (m : PlatoonMember)
    → Numbered j ms
    → m.position ≡ length ms + j
    → Numbered j (ms ++ m ∷ [])
append-Numbered j [] m h e = (omega (arith, e), tt)
append-Numbered j (n ∷ ms) m h e = (h.0, append-Numbered (suc j) ms m h.1 (omega (arith, e)))

pub vehicles-set_role :
    (v : Address) (role : MemberRole) (ms : List PlatoonMember)
    → vehicles (set_role v role ms) ≡ vehicles ms
unfolding set_role
vehicles-set_role v role [] = refl
vehicles-set_role v role (m ∷ ms) = elim (Bool-cases (bytes_eq m.vehicle_id v)) [
  | inl same ↦ rw same refl
  | inr other ↦ rw other (ap (λ vs. m.vehicle_id ∷ vs) (vehicles-set_role v role ms))
]

pub set_role-Numbered :
    (v : Address) (role : MemberRole) (j : ℕ) (ms : List PlatoonMember)
    → Numbered j ms
    → Numbered j (set_role v role ms)
unfolding set_role
set_role-Numbered v role j [] h = tt
set_role-Numbered v role j (m ∷ ms) h = elim (Bool-cases (bytes_eq m.vehicle_id v)) [
  | inl same ↦ rw same h
  | inr other ↦ rw other (h.0, set_role-Numbered v role (suc j) ms h.1)
]

pub vehicles-number_from :
    (j : ℕ) (ms : List PlatoonMember) → vehicles (number_from j ms) ≡ vehicles ms
unfolding number_from
vehicles-number_from j [] = refl
vehicles-number_from j (m ∷ ms) = ap (λ vs. m.vehicle_id ∷ vs) (vehicles-number_from (suc j) ms)

pub number_from-Numbered : (j : ℕ) (ms : List PlatoonMember) → Numbered j (number_from j ms)
unfolding number_from
number_from-Numbered j [] = tt
number_from-Numbered j (m ∷ ms) = (refl, number_from-Numbered (suc j) ms)

vehicles-behind_first :
    (m : PlatoonMember) (ms : List PlatoonMember)
    → vehicles (behind_first m ms) ≡ behind_first m.vehicle_id (vehicles ms)
unfolding behind_first
vehicles-behind_first m [] = refl
vehicles-behind_first m (l ∷ ms) = refl

vehicles-move_last : (ms : List PlatoonMember) → vehicles (move_last ms) ≡ move_last (vehicles ms)
unfolding move_last
vehicles-move_last [] = refl
vehicles-move_last (m ∷ ms) =
    vehicles-behind_first m (move_last ms) ∙ ap (behind_first m.vehicle_id) (vehicles-move_last ms)

-- RemoveMember takes a vehicle out of the members as RemoveValidator takes one out of a validator
-- set.
vehicles-swap_out :
    (v : Address) (ms : List PlatoonMember)
    → contains (vehicles ms) v ≡ true
    → swap_remove (vehicles ms) v ≡ some (vehicles (swap_out v ms))
unfolding swap_out swap_remove cons_option contains
vehicles-swap_out v [] h = cc h
vehicles-swap_out v (m ∷ ms) h = elim (Bool-cases (bytes_eq m.vehicle_id v)) [
  | inl same ↦ rw same (ap some (sym (vehicles-move_last ms)))
  | inr other ↦ rw other (ap (cons_option m.vehicle_id) (vehicles-swap_out v ms (rw other at h)))
]

pub record Leaves (ms : List PlatoonMember) (v : Address) (left : List PlatoonMember) : Type 0 where
  pub distinct : Distinct (vehicles left)
  pub shorter : suc (length left) ≡ length ms
  pub others :
      (a : Address) → contains (vehicles left) a ≡ (contains (vehicles ms) a && not (bytes_eq v a))
  pub numbered : Numbered 0 left

pub swap_out-Leaves :
    (v : Address) (ms : List PlatoonMember)
    → Distinct (vehicles ms)
    → contains (vehicles ms) v ≡ true
    → Leaves ms v (number_from 0 (swap_out v ms))
swap_out-Leaves v ms d h =
    let r : Removes (vehicles ms) v (some (vehicles (swap_out v ms))) =
      subst (Removes (vehicles ms) v) (vehicles-swap_out v ms h)
        (swap_remove-Removes (vehicles ms) v d) in
    let same = vehicles-number_from 0 (swap_out v ms) in
    record {
      distinct = subst Distinct (sym same) r.1;
      shorter =
          ap suc (sym (length-vehicles (number_from 0 (swap_out v ms))) ∙ ap length same)
          ∙ r.2
          ∙ length-vehicles ms;
      others = λ a. ap (λ vs. contains vs a) same ∙ r.3 a;
      numbered = number_from-Numbered 0 (swap_out v ms);
    }
