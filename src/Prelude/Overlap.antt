-- ===== src/Prelude/Overlap.antt =====
-- The entries that two slices share, and how many there must be.
use Prim.Native.Nat.{◌+◌, ◌≤◌}
use mathlib.Core.Path.{◌≡◌, refl}
use mathlib.Core.Bool.{◌||◌}
use mathlib.Core.List.{List, [], ◌∷◌}
use native.Mathlib.Omega.{arith}
use package.v2v_blockchain.Prelude.Tests.{if◌then◌else◌}
use package.v2v_blockchain.Prelude.Lists.{length}
use package.v2v_blockchain.Prelude.Eq.{Comparable}
use package.v2v_blockchain.Prelude.Distinct.{contains, Distinct, Within, Distinct-length}

module _ {ℓ} {A : Type ℓ} ⦃e : Comparable A⦄ where
  -- Those of the first slice that stand in the second.
  abbrev pub common : List A → List A → List A
  common [] ys = []
  common (x ∷ xs) ys = let rest = common xs ys in if contains ys x then x ∷ rest else rest

  union : List A → List A → List A
  union [] ys = ys
  union (x ∷ xs) ys = let rest = union xs ys in if contains ys x then rest else x ∷ rest

  contains-union :
      (xs ys : List A) (a : A) → contains (union xs ys) a ≡ (contains xs a || contains ys a)
  unfolding contains union
  contains-union [] ys a = refl
  contains-union (x ∷ xs) ys a = ground (arith, contains-union xs ys a, e.same_iff x a)

  union-Distinct : (xs ys : List A) → Distinct xs → Distinct ys → Distinct (union xs ys)
  unfolding union
  union-Distinct [] ys dx dy = dy
  union-Distinct (x ∷ xs) ys dx dy =
      ground (arith, contains-union xs ys x, union-Distinct xs ys dx.1 dy)

  union-Within : (xs ys vs : List A) → Within xs vs → Within ys vs → Within (union xs ys) vs
  unfolding union
  union-Within [] ys vs wx wy = wy
  union-Within (x ∷ xs) ys vs wx wy = ground (arith, union-Within xs ys vs wx.1 wy)

  length-union :
      (xs ys : List A) → length (union xs ys) + length (common xs ys) ≡ length xs + length ys
  unfolding union
  length-union [] ys = omega arith
  length-union (x ∷ xs) ys = ground (arith, length-union xs ys)

  -- Two selections from the same slice overlap in what their sizes exceed the slice by.
  pub length-common :
      (xs ys vs : List A)
      → Distinct xs
      → Distinct ys
      → Within xs vs
      → Within ys vs
      → length xs + length ys ≤ length vs + length (common xs ys)
  length-common xs ys vs dx dy wx wy = omega (
    arith,
    length-union xs ys,
    Distinct-length (union xs ys) vs (union-Distinct xs ys dx dy) (union-Within xs ys vs wx wy),
  )
