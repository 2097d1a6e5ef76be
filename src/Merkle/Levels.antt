-- ===== src/Merkle/Levels.antt =====
-- One level of the trees of merkle.go and types.go: the padding to an even length, the pairs, and
-- where the sibling of an entry stands.
use v2v_blockchain.Prelude.{
  ℕ, zero, suc, ◌+◌, ◌-◌, ◌*◌, ◌/◌, ◌%◌, ◌<◌, ◌≡◌, refl, ap, Option, none, some, List, [], ◌∷◌, map,
  length, get_elem?, arith,
}
use v2v_blockchain.Merkle.{get_last?, append_option, pad_even, join_pairs}

module _ {ℓ} {A : Type ℓ} where
  -- The next level in one recursion: an entry without a neighbour is joined with itself.
  unfoldable pub next_level : (A → A → A) → List A → List A
  next_level join [] = []
  next_level join (x ∷ []) = join x x ∷ []
  next_level join (x ∷ y ∷ xs) = join x y ∷ next_level join xs

  append_option-cons :
      (x : A) (xs : List A) (o : Option A) → append_option (x ∷ xs) o ≡ x ∷ append_option xs o
  unfolding append_option
  append_option-cons x xs none = refl
  append_option-cons x xs (some y) = refl

  pub pad_even-cons : (x y : A) (xs : List A) → pad_even (x ∷ y ∷ xs) ≡ x ∷ y ∷ pad_even xs
  unfolding pad_even
  pad_even-cons x y [] = refl
  pad_even-cons x y (z ∷ zs) = ground (
    arith,
    append_option-cons x (y ∷ z ∷ zs) (get_last? (z ∷ zs)),
    append_option-cons y (z ∷ zs) (get_last? (z ∷ zs)),
  )

  pub join_pairs-pad_even :
      (join : A → A → A) (xs : List A) → join_pairs join (pad_even xs) ≡ next_level join xs
  unfolding join_pairs next_level
  join_pairs-pad_even join [] = unfold pad_even in refl
  join_pairs-pad_even join (x ∷ []) = unfold pad_even in refl
  join_pairs-pad_even join (x ∷ y ∷ xs) =
      rw pad_even-cons (ap (◌∷◌ (join x y)) (join_pairs-pad_even join xs))

  pub length-next_level :
      (join : A → A → A) (xs : List A) → length (next_level join xs) * 2 ≡ length xs + length xs % 2
  unfolding next_level
  length-next_level join [] = refl
  length-next_level join (x ∷ []) = refl
  length-next_level join (x ∷ y ∷ xs) = omega (arith, length-next_level join xs)

  parent :
      (join : A → A → A) (x y : A) (xs : List A) (i : ℕ) {o : Option A}
      → get_elem? (next_level join xs) (i / 2) ≡ o
      → get_elem? (next_level join (x ∷ y ∷ xs)) (suc (suc i) / 2) ≡ o
  unfolding next_level
  parent join x y xs i h = let e : suc (suc i) / 2 ≡ suc (i / 2) = omega arith in rw e h

  padded :
      (x y : A) (xs : List A) {i j : ℕ} {o : Option A}
      → i ≡ suc (suc j)
      → get_elem? (pad_even xs) j ≡ o
      → get_elem? (pad_even (x ∷ y ∷ xs)) i ≡ o
  padded x y xs e h = rw (pad_even-cons, e) h

  -- An even index has its sibling on the right.
  pub sibling_right :
      (join : A → A → A) (xs : List A) (i : ℕ)
      → i % 2 ≡ 0
      → i < length xs
      → (a : A) × (b : A) × (get_elem? xs i ≡ some a)
        × (get_elem? (pad_even xs) (i + 1) ≡ some b)
        × (get_elem? (next_level join xs) (i / 2) ≡ some (join a b))
  unfolding next_level
  sibling_right join [] i e h = absurd (omega arith)
  sibling_right join (x ∷ []) zero e h = (x, x, refl, unfold pad_even in refl, refl)
  sibling_right join (x ∷ []) (suc i) e h = absurd (omega arith)
  sibling_right join (x ∷ y ∷ xs) zero e h = (x, y, refl, rw pad_even-cons refl, refl)
  sibling_right join (x ∷ y ∷ xs) (suc zero) e h = absurd (omega arith)
  sibling_right join (x ∷ y ∷ xs) (suc (suc i)) e h =
      let (a, b, here, next, up) = sibling_right join xs i (omega arith) (omega arith) in
      (a, b, here, padded x y xs (omega arith) next, parent join x y xs i up)

  -- An odd index has its sibling on the left.
  pub sibling_left :
      (join : A → A → A) (xs : List A) (i : ℕ)
      → i % 2 ≡ 1
      → i < length xs
      → (a : A) × (b : A) × (get_elem? xs i ≡ some b)
        × (get_elem? (pad_even xs) (i - 1) ≡ some a)
        × (get_elem? (next_level join xs) (i / 2) ≡ some (join a b))
  unfolding next_level
  sibling_left join [] i e h = absurd (omega arith)
  sibling_left join (x ∷ xs) zero e h = absurd (omega arith)
  sibling_left join (x ∷ []) (suc i) e h = absurd (omega arith)
  sibling_left join (x ∷ y ∷ xs) (suc zero) e h = (x, y, refl, rw pad_even-cons refl, refl)
  sibling_left join (x ∷ y ∷ xs) (suc (suc i)) e h =
      let (a, b, here, next, up) = sibling_left join xs i (omega arith) (omega arith) in
      (a, b, here, padded x y xs (omega arith) next, parent join x y xs i up)

module _ {ℓ κ} {A : Type ℓ} {B : Type κ} where
  -- A map that respects the joins goes through a level.
  pub map-next_level :
      (f : A → B) (join : A → A → A) (join' : B → B → B)
      → ((a b : A) → f (join a b) ≡ join' (f a) (f b))
      → (xs : List A) → map f (next_level join xs) ≡ next_level join' (map f xs)
  unfolding next_level
  map-next_level f join join' h [] = refl
  map-next_level f join join' h (x ∷ []) = rw h
  map-next_level f join join' h (x ∷ y ∷ xs) = rw (h, map-next_level f join join' h xs)
