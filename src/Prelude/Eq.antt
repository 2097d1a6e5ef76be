-- ===== src/Prelude/Eq.antt =====
-- Go's `==` on comparable types, on numbers and on byte arrays (hashes and addresses).
use Prim.Native.Nat.{ℕ}
use mathlib.Core.Path.{◌≡◌}
use mathlib.Core.Logic.{◌↔◌}
use mathlib.Core.Bool.{Bool, true, false, ◌&&◌}
use mathlib.Core.List.{List, [], ◌∷◌}
use native.Mathlib.Omega.{arith}
use package.v2v_blockchain.Prelude.Tests.{◌==◌ as nat_eq, ==_iff}

-- A type whose values Go compares with `==`, which decides whether they are equal.
pub record Comparable {ℓ} (K : Type ℓ) : Type ℓ where
  pub same : K → K → Bool
  pub same_iff : (x y : K) → (same x y ≡ true) ↔ (x ≡ y)

infix 50 ◌==◌
abbrev pub ◌==◌ {ℓ} : {K : Type ℓ} → ⦃c : Comparable K⦄ → K → K → Bool
◌==◌ ⦃c = c⦄ x y = c.same x y

unfoldable pub bytes_eq : List ℕ → List ℕ → Bool
bytes_eq [] [] = true
bytes_eq [] (y ∷ ys) = false
bytes_eq (x ∷ xs) [] = false
bytes_eq (x ∷ xs) (y ∷ ys) = nat_eq x y && bytes_eq xs ys

pub bytes_eq_iff : (a b : List ℕ) → (bytes_eq a b ≡ true) ↔ (a ≡ b)
unfolding bytes_eq
bytes_eq_iff [] [] = ground arith
bytes_eq_iff [] (y ∷ ys) = ground arith
bytes_eq_iff (x ∷ xs) [] = ground arith
bytes_eq_iff (x ∷ xs) (y ∷ ys) = ground (arith, bytes_eq_iff xs ys)

instance abbrev pub numbers_Eq : Comparable ℕ
numbers_Eq = record { same = nat_eq; same_iff = ==_iff }

instance abbrev pub bytes_Eq : Comparable (List ℕ)
bytes_Eq = record { same = bytes_eq; same_iff = bytes_eq_iff }
