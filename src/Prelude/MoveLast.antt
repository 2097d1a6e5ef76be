-- ===== src/Prelude/MoveLast.antt =====
-- A slice whose last entry takes the place of the first: xs[0] = xs[n-1]; xs = xs[:n-1].
use Prim.Native.Nat.{suc}
use mathlib.Core.Path.{◌≡◌, refl, ap, ◌∙◌}
use mathlib.Core.Bool.{false, ◌||◌}
use mathlib.Core.List.{List, [], ◌∷◌}
use native.Mathlib.Omega.{arith}
use package.v2v_blockchain.Prelude.Lists.{length}
use package.v2v_blockchain.Prelude.Eq.{Comparable, ◌==◌}
use package.v2v_blockchain.Prelude.Distinct.{contains, Distinct}

module _ {ℓ} {A : Type ℓ} where
  unfoldable pub behind_first : A → List A → List A
  behind_first x [] = x ∷ []
  behind_first x (l ∷ rest) = l ∷ x ∷ rest

  -- The last entry moves to the front of those before it.
  unfoldable pub move_last : List A → List A
  unfolding behind_first
  move_last [] = []
  move_last (x ∷ xs) = behind_first x (move_last xs)

  length-behind_first : (x : A) (xs : List A) → length (behind_first x xs) ≡ suc (length xs)
  unfolding behind_first
  length-behind_first x [] = refl
  length-behind_first x (l ∷ xs) = refl

  pub length-move_last : (xs : List A) → length (move_last xs) ≡ length xs
  unfolding move_last
  length-move_last [] = refl
  length-move_last (x ∷ xs) =
      omega (arith, length-behind_first x (move_last xs), length-move_last xs)

module _ {ℓ} {A : Type ℓ} ⦃e : Comparable A⦄ where
  contains-behind_first :
      (x : A) (xs : List A) (a : A) → contains (behind_first x xs) a ≡ (x == a || contains xs a)
  unfolding contains behind_first
  contains-behind_first x [] a = refl
  contains-behind_first x (l ∷ xs) a = ground arith

  pub contains-move_last : (xs : List A) (a : A) → contains (move_last xs) a ≡ contains xs a
  unfolding contains move_last
  contains-move_last [] a = refl
  contains-move_last (x ∷ xs) a =
      contains-behind_first x (move_last xs) a ∙ ap (λ b. x == a || b) (contains-move_last xs a)

  behind_first-Distinct :
      (x : A) (xs : List A) → contains xs x ≡ false → Distinct xs → Distinct (behind_first x xs)
  unfolding contains behind_first
  behind_first-Distinct x [] n d = (refl, tt)
  behind_first-Distinct x (l ∷ xs) n d = ground (arith, e.same_iff l x, e.same_iff x l)

  pub move_last-Distinct : (xs : List A) → Distinct xs → Distinct (move_last xs)
  unfolding contains move_last
  move_last-Distinct [] d = d
  move_last-Distinct (x ∷ xs) d =
      behind_first-Distinct x (move_last xs) (contains-move_last xs x ∙ d.0)
        (move_last-Distinct xs d.1)
