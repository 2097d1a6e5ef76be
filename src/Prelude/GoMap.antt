-- ===== src/Prelude/GoMap.antt =====
-- Go maps as association lists with distinct keys. A loop over a map takes the order of the list.
use Prim.Native.Nat.{ℕ, ◌≤◌}
use mathlib.Core.Path.{◌≡◌, refl}
use mathlib.Core.Bool.{true}
use mathlib.Core.Option.{Option, none, some}
use mathlib.Core.List.{List, [], ◌∷◌}
use native.Mathlib.Omega.{arith}
use package.v2v_blockchain.Prelude.Tests.{if◌then◌else◌}
use package.v2v_blockchain.Prelude.Lists.{length}
use package.v2v_blockchain.Prelude.Eq.{Comparable, ◌==◌}
use package.v2v_blockchain.Prelude.Distinct.{contains, Distinct, Within}

abbrev pub GoMap {ℓ κ} : Type ℓ → Type κ → Type (ℓ ⊔ κ)
GoMap K V = List (K × V)

module _ {ℓ κ} {K : Type ℓ} {V : Type κ} where
  abbrev pub keys : GoMap K V → List K
  keys [] = []
  keys ((k, v) ∷ m) = k ∷ keys m

  -- `len(m)`
  abbrev pub size : GoMap K V → ℕ
  size m = length m

  pub length-keys : (m : GoMap K V) → length (keys m) ≡ size m
  length-keys [] = refl
  length-keys ((k, v) ∷ m) = omega (arith, length-keys m)

module _ {ℓ κ} {K : Type ℓ} {V : Type κ} ⦃e : Comparable K⦄ where
  -- `v, exists := m[k]`
  unfoldable pub get : GoMap K V → K → Option V
  get [] k = none
  get ((j, v) ∷ m) k = if j == k then some v else get m k

  -- `m[k] = v`
  unfoldable pub put : GoMap K V → K → V → GoMap K V
  put [] k v = (k, v) ∷ []
  put ((j, w) ∷ m) k v = let rest = put m k v in if j == k then (j, v) ∷ m else (j, w) ∷ rest

  -- `delete(m, k)`
  unfoldable pub delete : GoMap K V → K → GoMap K V
  delete [] k = []
  delete ((j, w) ∷ m) k = let rest = delete m k in if j == k then rest else (j, w) ∷ rest

  pub get-put :
      (m : GoMap K V) (k j : K) (v : V) → get (put m k v) j ≡ (if k == j then some v else get m j)
  unfolding get put
  get-put [] k j v = refl
  get-put ((i, w) ∷ m) k j v =
      ground (arith, get-put m k j v, e.same_iff i k, e.same_iff i j, e.same_iff k j)

  pub get-delete :
      (m : GoMap K V) (k j : K) → get (delete m k) j ≡ (if k == j then none else get m j)
  unfolding get delete
  get-delete [] k j = ground arith
  get-delete ((i, w) ∷ m) k j =
      ground (arith, get-delete m k j, e.same_iff i k, e.same_iff i j, e.same_iff k j)

  pub contains-put :
      (m : GoMap K V) (k j : K) (v : V)
      → contains (keys (put m k v)) j ≡ (if k == j then true else contains (keys m) j)
  unfolding put contains
  contains-put [] k j v = ground arith
  contains-put ((i, w) ∷ m) k j v =
      ground (arith, contains-put m k j v, e.same_iff i k, e.same_iff i j, e.same_iff k j)

  pub put-Distinct :
      (m : GoMap K V) (k : K) (v : V) → Distinct (keys m) → Distinct (keys (put m k v))
  unfolding put contains
  put-Distinct [] k v d = (refl, tt)
  put-Distinct ((i, w) ∷ m) k v d =
      ground (arith, put-Distinct m k v d.1, contains-put m k i v, e.same_iff i k, e.same_iff k i)

  pub put-Within :
      (m : GoMap K V) (k : K) (v : V) (vs : List K)
      → contains vs k ≡ true
      → Within (keys m) vs
      → Within (keys (put m k v)) vs
  unfolding put
  put-Within [] k v vs h w = (h, tt)
  put-Within ((i, x) ∷ m) k v vs h w = ground (arith, put-Within m k v vs h w.1)

  -- A new key makes the map larger by one, an old one leaves its size.
  pub size-put-le : (m : GoMap K V) (k : K) (v : V) → size m ≤ size (put m k v)
  unfolding put
  size-put-le [] k v = omega arith
  size-put-le ((i, x) ∷ m) k v = ground (arith, size-put-le m k v)
