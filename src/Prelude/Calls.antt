-- ===== src/Prelude/Calls.antt =====
-- How a Go call ends: with a value, with an error, with a run-time panic, or never, because the
-- goroutine waits for a lock that it holds itself.
use mathlib.Core.Path.{◌≡◌, refl}
use mathlib.Core.Bool.{Bool, true, false}
use mathlib.Core.Option.{Option, none, some}

pub data Outcome {ℓ κ} (E : Type ℓ) (A : Type κ) : Type (ℓ ⊔ κ) where
  ok : A → Outcome E A
  err : E → Outcome E A
  panic : Outcome E A
  blocked : Outcome E A

infixl 5 ◌>>=◌ ◌>>◌
abbrev pub ◌>>=◌ {ℓ κ μ} :
    {E : Type ℓ} {A : Type κ} {B : Type μ} → Outcome E A → (A → Outcome E B) → Outcome E B
ok a >>= f = f a
err e >>= f = err e
panic >>= f = panic
blocked >>= f = blocked

abbrev pub ◌>>◌ {ℓ κ} : {E : Type ℓ} {B : Type κ} → Outcome E (Unit {0}) → Outcome E B → Outcome E B
m >> k = m >>= λ _. k

-- `if fails { return e }`
abbrev pub reject_if {ℓ} : {E : Type ℓ} → Bool → E → Outcome E (Unit {0})
reject_if true e = err e
reject_if false e = ok tt

-- An index out of range panics.
abbrev pub or_panic {ℓ κ} : {E : Type ℓ} {A : Type κ} → Option A → Outcome E A
or_panic none = panic
or_panic (some a) = ok a

abbrev pub or_fail {ℓ κ} : {E : Type ℓ} {A : Type κ} → Option A → E → Outcome E A
or_fail none e = err e
or_fail (some a) e = ok a

-- Where two calls in a row return a value, the first one did.
pub >>=-eq-ok {ℓ κ μ} :
    {E : Type ℓ} {First : Type κ} {Last : Type μ} {last : Last} (call : Outcome E First)
    (next : First → Outcome E Last)
    → call >>= next ≡ ok last
    → (first : First) × (call ≡ ok first) × (next first ≡ ok last)
>>=-eq-ok (ok first) next returned = (first, refl, returned)
>>=-eq-ok blocked next returned = cc
>>=-eq-ok panic next returned = cc
>>=-eq-ok (err failure) next returned = cc

pub or_panic-eq-ok {ℓ κ} :
    {E : Type ℓ} {A : Type κ} (o : Option A) {a : A} → or_panic {E = E} o ≡ ok a → o ≡ some a
or_panic-eq-ok none h = cc
or_panic-eq-ok (some b) h = cc

pub ok-injective {ℓ κ} :
    {E : Type ℓ} {A : Type κ} {a b : A} → ◌≡◌ {A = Outcome E A} (ok a) (ok b) → a ≡ b
ok-injective h = cc
