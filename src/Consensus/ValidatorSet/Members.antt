-- ===== src/Consensus/ValidatorSet/Members.antt =====
-- types.go of consensus: who is a validator after AddValidator and RemoveValidator.
use v2v_blockchain.Prelude.{
  suc, ◌≡◌, refl, true, false, not, ◌&&◌, ◌||◌, Option, none, some, List, [], ◌∷◌, ◌++◌, length,
  arith, ok, err, inl, inr, ◌⊎◌, Bool-cases,
}
use v2v_blockchain.Prelude.Eq.{bytes_eq, bytes_eq_iff, bytes_Eq}
use v2v_blockchain.Prelude.Distinct.{contains, Distinct, contains-append, append-Distinct}
use v2v_blockchain.Prelude.MoveLast.{contains-move_last, length-move_last, move_last-Distinct}
use v2v_blockchain.Bytes.{Address}
use v2v_blockchain.Consensus.ValidatorSet.{
  ValidatorSet, already_exists, not_found, is_validator, add_validator, remove_validator,
  swap_remove, cons_option,
}

-- The entries that `swap_remove` leaves, when there is no entry twice.
abbrev pub Removes : List Address → Address → Option (List Address) → Type 0
Removes xs addr none = contains xs addr ≡ false
Removes xs addr (some rest) =
    (contains xs addr ≡ true)
    × Distinct rest
    × (suc (length rest) ≡ length xs)
    × ((a : Address) → contains rest a ≡ (contains xs a && not (bytes_eq addr a)))

not-contains :
    (xs : List Address) (addr a : Address)
    → contains xs addr ≡ false
    → contains xs a ≡ (contains xs a && not (bytes_eq addr a))
not-contains xs addr a n = ground (arith, bytes_eq_iff addr a)

Removes-cons :
    (x : Address) (xs : List Address) (addr : Address) (o : Option (List Address))
    → Distinct (x ∷ xs)
    → bytes_eq x addr ≡ false
    → Removes xs addr o
    → Removes (x ∷ xs) addr (cons_option x o)
unfolding contains cons_option
Removes-cons x xs addr none d ne r = ground arith
Removes-cons x xs addr (some rest) d ne r = (
  ground arith,
  (ground (arith, r.3 x), r.1),
  omega arith,
  λ a. ground (arith, r.3 a, bytes_eq_iff x addr, bytes_eq_iff x a, bytes_eq_iff addr a),
)

pub swap_remove-Removes :
    (xs : List Address) (addr : Address) → Distinct xs → Removes xs addr (swap_remove xs addr)
unfolding swap_remove contains
swap_remove-Removes [] addr d = refl
swap_remove-Removes (x ∷ xs) addr d = elim (Bool-cases (bytes_eq x addr)) [
  | inl same ↦ rw same (
    ground arith,
    move_last-Distinct xs d.1,
    omega (arith, length-move_last xs),
    λ a.
        let e : x ≡ addr = (bytes_eq_iff x addr).0 same in
        ground (arith, contains-move_last xs a, bytes_eq_iff addr a),
  )
  | inr other ↦
      rw (other)
        (Removes-cons x xs addr (swap_remove xs addr) d other (swap_remove-Removes xs addr d.1))
]

-- RemoveValidator, in a set without repetitions, fails exactly for an address that is no validator;
-- else it takes out that address and no other, the set shrinks by one and stays without repetitions,
-- and the view number stays.
pub remove_validator_lem :
    (vs : ValidatorSet) (addr : Address)
    → Distinct vs.validators
    → ((is_validator vs addr ≡ false) × (remove_validator vs addr ≡ err not_found))
      ⊎ ((vs' : ValidatorSet) × (remove_validator vs addr ≡ ok vs')
          × (is_validator vs addr ≡ true)
          × Distinct vs'.validators
          × (suc (length vs'.validators) ≡ length vs.validators)
          × ((a : Address) → is_validator vs' a ≡ (is_validator vs a && not (bytes_eq addr a)))
          × (vs'.view_number ≡ vs.view_number))
unfolding remove_validator is_validator
remove_validator_lem vs addr d =
    go (swap_remove vs.validators addr) refl (swap_remove-Removes vs.validators addr d)
  where
    go :
        (o : Option (List Address))
        → swap_remove vs.validators addr ≡ o
        → Removes vs.validators addr o
        → ((is_validator vs addr ≡ false) × (remove_validator vs addr ≡ err not_found))
          ⊎ ((vs' : ValidatorSet) × (remove_validator vs addr ≡ ok vs')
              × (is_validator vs addr ≡ true)
              × Distinct vs'.validators
              × (suc (length vs'.validators) ≡ length vs.validators)
              × ((a : Address) → is_validator vs' a ≡ (is_validator vs a && not (bytes_eq addr a)))
              × (vs'.view_number ≡ vs.view_number))
    go none e r = inl (r, rw (e, remove_validator) refl)
    go (some rest) e r =
        inr
          (record vs { validators = rest }, rw (e, remove_validator) refl, r.0, r.1, r.2, r.3, refl)

-- AddValidator, in a set without repetitions, fails exactly for an address that is a validator already,
-- and else adds that address and no other; the set stays without repetitions, and the view number
-- stays.
pub add_validator_lem :
    (vs : ValidatorSet) (addr : Address)
    → Distinct vs.validators
    → ((is_validator vs addr ≡ true) × (add_validator vs addr ≡ err already_exists))
      ⊎ ((vs' : ValidatorSet) × (add_validator vs addr ≡ ok vs')
          × (is_validator vs addr ≡ false)
          × Distinct vs'.validators
          × ((a : Address) → is_validator vs' a ≡ (is_validator vs a || bytes_eq addr a))
          × (vs'.view_number ≡ vs.view_number))
unfolding add_validator is_validator
add_validator_lem vs addr d = elim (Bool-cases (contains vs.validators addr)) [
  | inl old ↦ inl (old, rw old refl)
  | inr new ↦ inr (
    record vs { validators = vs.validators ++ addr ∷ [] },
    rw new refl,
    new,
    append-Distinct vs.validators addr d new,
    contains-append vs.validators addr,
    refl,
  )
]
