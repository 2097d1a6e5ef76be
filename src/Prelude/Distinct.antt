-- ===== src/Prelude/Distinct.antt =====
-- Membership tests on slices, slices with no value twice, and how large such a slice can be.
use Prim.Native.Nat.{suc, ◌≤◌}
use mathlib.Core.Path.{◌≡◌, refl}
use mathlib.Core.Bool.{Bool, true, false, not, ◌&&◌, ◌||◌}
use mathlib.Core.List.{List, [], ◌∷◌, ◌++◌}
use native.Mathlib.Omega.{arith}
use package.v2v_blockchain.Prelude.Tests.{if◌then◌else◌}
use package.v2v_blockchain.Prelude.Lists.{length}
use package.v2v_blockchain.Prelude.Eq.{Comparable, ◌==◌}

module _ {ℓ} {A : Type ℓ} ⦃e : Comparable A⦄ where
  -- for _, v := range xs { if v == a { return true } }; return false
  unfoldable pub contains : List A → A → Bool
  contains [] a = false
  contains (x ∷ xs) a = x == a || contains xs a

  abbrev pub Distinct : List A → Type 0
  Distinct [] = Unit
  Distinct (x ∷ xs) = (contains xs x ≡ false) × Distinct xs

  -- Every entry of the first slice stands in the second.
  abbrev pub Within : List A → List A → Type 0
  Within [] ys = Unit
  Within (x ∷ xs) ys = (contains ys x ≡ true) × Within xs ys

  -- Cutting an entry out: append(xs[:i], xs[i+1:]...) at its first place.
  unfoldable pub without_first : A → List A → List A
  without_first a [] = []
  without_first a (x ∷ xs) = if x == a then xs else x ∷ without_first a xs

  length-without_first :
      (a : A) (xs : List A) → contains xs a ≡ true → length xs ≡ suc (length (without_first a xs))
  unfolding contains without_first
  length-without_first a [] h = ground arith
  length-without_first a (x ∷ xs) h = ground (arith, length-without_first a xs)

  contains-without_first :
      (a b : A) (xs : List A)
      → (a == b) ≡ false
      → contains xs b ≡ true
      → contains (without_first a xs) b ≡ true
  unfolding contains without_first
  contains-without_first a b [] n h = h
  contains-without_first a b (x ∷ xs) n h =
      ground
        (arith, contains-without_first a b xs n, e.same_iff x a, e.same_iff x b, e.same_iff a b)

  Within-without_first :
      (a : A) (xs ys : List A)
      → contains xs a ≡ false
      → Within xs ys
      → Within xs (without_first a ys)
  unfolding contains
  Within-without_first a [] ys n h = tt
  Within-without_first a (x ∷ xs) ys n h = (
    contains-without_first a x ys (ground (arith, e.same_iff x a, e.same_iff a x)) h.0,
    Within-without_first a xs ys (ground arith) h.1,
  )

  -- The pigeonhole principle.
  pub Distinct-length : (xs ys : List A) → Distinct xs → Within xs ys → length xs ≤ length ys
  Distinct-length [] ys d w = omega arith
  Distinct-length (x ∷ xs) ys d w = omega (
    arith,
    length-without_first x ys w.0,
    Distinct-length xs (without_first x ys) d.1 (Within-without_first x xs ys d.0 w.1),
  )

  pub contains-append :
      (xs : List A) (a b : A) → contains (xs ++ a ∷ []) b ≡ (contains xs b || a == b)
  unfolding contains
  contains-append [] a b = ground arith
  contains-append (x ∷ xs) a b = ground (arith, contains-append xs a b)

  pub append-Distinct :
      (xs : List A) (a : A) → Distinct xs → contains xs a ≡ false → Distinct (xs ++ a ∷ [])
  unfolding contains
  append-Distinct [] a d n = (refl, tt)
  append-Distinct (x ∷ xs) a d n =
      ground
        (arith, append-Distinct xs a d.1, contains-append xs a x, e.same_iff a x, e.same_iff x a)

  -- Where no entry stands twice, cutting one out leaves all others.
  pub contains-without_first_iff :
      (a : A) (xs : List A) (b : A)
      → Distinct xs
      → contains (without_first a xs) b ≡ (contains xs b && not (a == b))
  unfolding contains without_first
  contains-without_first_iff a [] b d = refl
  contains-without_first_iff a (x ∷ xs) b d =
      ground (
        arith,
        contains-without_first_iff a xs b d.1,
        e.same_iff x a,
        e.same_iff x b,
        e.same_iff a b,
      )

  pub without_first-Distinct : (a : A) (xs : List A) → Distinct xs → Distinct (without_first a xs)
  unfolding contains without_first
  without_first-Distinct a [] d = tt
  without_first-Distinct a (x ∷ xs) d =
      ground (arith, without_first-Distinct a xs d.1, contains-without_first_iff a xs x d.1)
