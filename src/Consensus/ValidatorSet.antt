-- ===== src/Consensus/ValidatorSet.antt =====
-- internal/core/consensus/types.go: ValidatorSet.
pub mod Members
use v2v_blockchain.Prelude.{
  ℕ, zero, suc, ◌+◌, ◌-◌, ◌*◌, ◌/◌, ◌%◌, ◌^◌, ◌<◌, ◌≡◌, ◌≢◌, refl, Bool, true, false, not, ◌&&◌,
  Option, none, some, List, [], ◌∷◌, ◌++◌, length, get_elem?, arith, ltb, ◌==◌, if◌then◌else◌,
  Outcome, ok, err, panic, or_panic,
}
use v2v_blockchain.Prelude.Eq.{bytes_eq, bytes_eq_iff, bytes_Eq}
use v2v_blockchain.Prelude.Distinct.{contains, Distinct}
use v2v_blockchain.Prelude.MoveLast.{behind_first, move_last}
use v2v_blockchain.Bytes.{Bytes, Address, empty_address}

pub record ValidatorSet : Type 0 where
  pub validators : List Address
  pub primary_idx : ℕ
  pub view_number : ℕ

pub data ValidatorError : Type 0 where
  already_exists not_found : ValidatorError

unfoldable pub quorum : ValidatorSet → ℕ
quorum vs = length vs.validators * 2 / 3 + 1

-- Go's `/` truncates towards zero, so the empty set tolerates 0 faults, as here.
unfoldable pub fault_tolerance : ValidatorSet → ℕ
fault_tolerance vs = (length vs.validators - 1) / 3

-- int(viewNumber) % n as an index. From 2^63 on the conversion is negative: the remainder is then
-- negative, and the index panics, or zero.
view_index : ℕ → ℕ → Option ℕ
view_index view n =
    if ltb view (2 ^ 63) then some (view % n) else if (2 ^ 64 - view) % n == 0 then some 0 else none

at_index : List Address → Option ℕ → Option Address
at_index vs none = none
at_index vs (some i) = get_elem? vs i

-- GetPrimary; `none` is a panic.
unfoldable pub get_primary : ValidatorSet → Option Address
unfolding view_index at_index
get_primary vs = elim vs.validators [
  | [] ↦ some empty_address
  | v ∷ rest ↦ at_index vs.validators (view_index vs.view_number (length vs.validators))
]

unfoldable pub is_validator : ValidatorSet → Address → Bool
unfolding contains
is_validator vs addr = contains vs.validators addr

unfoldable pub update_view : ValidatorSet → ℕ → ValidatorSet
update_view vs view = record vs { view_number = view }

unfoldable pub add_validator : ValidatorSet → Address → Outcome ValidatorError ValidatorSet
unfolding is_validator
add_validator vs addr =
    if is_validator vs addr
    then err already_exists
    else ok (record vs { validators = vs.validators ++ addr ∷ [] })

unfoldable pub cons_option : Address → Option (List Address) → Option (List Address)
cons_option x none = none
cons_option x (some xs) = some (x ∷ xs)

-- The loop of RemoveValidator: xs[i] = xs[len(xs)-1]; xs = xs[:len(xs)-1] at the first match.
unfoldable pub swap_remove : List Address → Address → Option (List Address)
swap_remove [] addr = none
swap_remove (x ∷ xs) addr =
    let rest = swap_remove xs addr in
    if bytes_eq x addr then some (move_last xs) else cons_option x rest

unfoldable pub remove_validator : ValidatorSet → Address → Outcome ValidatorError ValidatorSet
unfolding swap_remove cons_option
remove_validator vs addr = elim (swap_remove vs.validators addr) [
  | none ↦ err not_found
  | some rest ↦ ok (record vs { validators = rest })
]
