-- ===== src/Block/Encoding.antt =====
-- types.go: big-endian numbers (encoding/binary), slices of byte strings, and the two readings of
-- 64 bits.
use v2v_blockchain.Prelude.{
  ℕ, zero, suc, ◌+◌, ◌-◌, ◌*◌, ◌/◌, ◌%◌, ◌^◌, ◌<◌, ◌≤◌, ◌≡◌, refl, ap, sym, ◌∙◌, Option, none, some,
  [], ◌∷◌, ◌++◌, length, length-append, take, drop, take-append, leb, ltb, if◌then◌else◌, arith,
  Bool-cases, inl, inr, none-some, true,
}
use v2v_blockchain.Prelude.Int.{ℤ, pos, negsuc}
use v2v_blockchain.Bytes.{Bytes}
use native.Mathlib.Nat.{pow-suc}

-- The last `n` bytes of a number, most significant first.
unfoldable pub to_be : ℕ → ℕ → Bytes
to_be zero v = []
to_be (suc n) v = to_be n (v / 256) ++ (v % 256) ∷ []

from_be_onto : ℕ → Bytes → ℕ
from_be_onto acc [] = acc
from_be_onto acc (b ∷ bytes) = from_be_onto (acc * 256 + b) bytes

unfoldable pub from_be : Bytes → ℕ
unfolding from_be_onto
from_be bytes = from_be_onto 0 bytes

-- uint64(t) and int64(v)
unfoldable pub u64_of : ℤ → ℕ
u64_of (pos n) = n
u64_of (negsuc n) = 2 ^ 64 - suc n

unfoldable pub i64_of : ℕ → ℤ
i64_of v = if ltb v (2 ^ 63) then pos v else negsuc (2 ^ 64 - v - 1)

-- xs[from:to]; `none` where `to` is beyond the data.
-- data[from:to], for the array behind `data` up to its capacity, which bounds a slice expression;
-- beyond it is a panic.
unfoldable pub slice : Bytes → ℕ → ℕ → Option Bytes
slice xs from to = if leb to (length xs) then some (take (to - from) (drop from xs)) else none

pub length-to_be : (n v : ℕ) → length (to_be n v) ≡ n
unfolding to_be
length-to_be zero v = refl
length-to_be (suc n) v =
    omega (arith, length-append (to_be n (v / 256)) ((v % 256) ∷ []), length-to_be n (v / 256))

from_be_onto-append :
    (acc : ℕ) (xs : Bytes) (b : ℕ) → from_be_onto acc (xs ++ b ∷ []) ≡ from_be_onto acc xs * 256 + b
unfolding from_be_onto
from_be_onto-append acc [] b = refl
from_be_onto-append acc (x ∷ xs) b = from_be_onto-append (acc * 256 + x) xs b

-- Reading back the bytes of a number that fits.
pub from_be-to_be : (n v : ℕ) → v < 256 ^ n → from_be (to_be n v) ≡ v
unfolding from_be to_be
from_be-to_be zero v h = omega arith
from_be-to_be (suc n) v h =
    let small : v / 256 < 256 ^ n = omega (arith, pow-suc 256 n) in
    omega
      (arith, from_be_onto-append 0 (to_be n (v / 256)) (v % 256), from_be-to_be n (v / 256) small)

i64_of-u64_of_pos : (n : ℕ) → n < 2 ^ 63 → i64_of (u64_of (pos n)) ≡ pos n
unfolding i64_of u64_of
i64_of-u64_of_pos n h = ground arith

i64_of-u64_of_neg : (n : ℕ) → n < 2 ^ 63 → i64_of (u64_of (negsuc n)) ≡ negsuc n
unfolding i64_of u64_of
i64_of-u64_of_neg n h = ground arith

pub to_be-injective : (n v w : ℕ) → v < 256 ^ n → w < 256 ^ n → to_be n v ≡ to_be n w → v ≡ w
to_be-injective n v w hv hw e = sym (from_be-to_be n v hv) ∙ ap from_be e ∙ from_be-to_be n w hw

-- The range of int64.
abbrev pub IsInt64 : ℤ → Type 0
IsInt64 (pos n) = n < 2 ^ 63
IsInt64 (negsuc n) = n < 2 ^ 63

pub i64_of-u64_of : (t : ℤ) → IsInt64 t → i64_of (u64_of t) ≡ t
i64_of-u64_of (pos n) h = i64_of-u64_of_pos n h
i64_of-u64_of (negsuc n) h = i64_of-u64_of_neg n h

pub u64_of-lt : (t : ℤ) → IsInt64 t → u64_of t < 256 ^ 8
unfolding u64_of
u64_of-lt (pos n) h = omega arith
u64_of-lt (negsuc n) h = omega arith

drop-skip : (pre rest : Bytes) (a : ℕ) → drop (length pre + a) (pre ++ rest) ≡ drop a rest
drop-skip [] rest a = let e : 0 + a ≡ a = omega arith in rw e
drop-skip (x ∷ pre) rest a =
    let e : suc (length pre) + a ≡ suc (length pre + a) = omega arith in rw e (drop-skip pre rest a)

-- A slice behind a prefix, and the slice at the start.
pub slice-skip :
    (pre rest : Bytes) (a b a' b' : ℕ) {x : Bytes}
    → a' ≡ length pre + a
    → b' ≡ length pre + b
    → slice rest a b ≡ some x
    → slice (pre ++ rest) a' b' ≡ some x
unfolding slice
slice-skip pre rest a b a' b' p q h = ground (
  arith,
  length-append pre rest,
  drop-skip pre rest a,
  (let e : length pre + b - (length pre + a) ≡ b - a = omega arith in e),
)

pub slice-head : (x rest : Bytes) (b : ℕ) → b ≡ length x → slice (x ++ rest) 0 b ≡ some x
unfolding slice
slice-head x rest b e = ground (arith, length-append x rest, take-append x rest)

take-drop_append :
    (a n : ℕ) (xs ys : Bytes) → a + n ≤ length xs → take n (drop a (xs ++ ys)) ≡ take n (drop a xs)
take-drop_append a zero xs ys h = refl
take-drop_append zero (suc n) [] ys h = absurd (omega (arith, h))
take-drop_append zero (suc n) (x ∷ xs) ys h =
    ap (λ zs. x ∷ zs) (take-drop_append zero n xs ys (omega (arith, h)))
take-drop_append (suc a) (suc n) [] ys h = absurd (omega (arith, h))
take-drop_append (suc a) (suc n) (x ∷ xs) ys h = take-drop_append a (suc n) xs ys (omega (arith, h))

-- A slice within the length does not depend on what follows it.
pub slice-append :
    (xs ys : Bytes) (a b : ℕ) {x : Bytes}
    → a ≤ b
    → slice xs a b ≡ some x
    → slice (xs ++ ys) a b ≡ some x
unfolding slice
slice-append xs ys a b order h = elim (Bool-cases (leb b (length xs))) [
  | inl inside ↦
      let longer : leb b (length (xs ++ ys)) ≡ true = ground (arith, length-append xs ys, inside) in
      let fits : a + (b - a) ≤ length xs = ground (arith, inside, order) in
      rw longer (ap some (take-drop_append a (b - a) xs ys fits) ∙ (rw inside at h))
  | inr outside ↦ absurd (none-some (rw outside at h))
]

pub slice_inside :
    (xs : Bytes) (from to : ℕ)
    → to ≤ length xs
    → slice xs from to ≡ some (take (to - from) (drop from xs))
unfolding slice
slice_inside xs from to h = ground arith

pub slice_outside : (xs : Bytes) (from to : ℕ) → length xs < to → slice xs from to ≡ none
unfolding slice
slice_outside xs from to h = ground arith
