-- ===== src/Prelude/Results.antt =====
-- How a call of Go code ends: it returns a value, it returns an error, or it panics.
use mathlib.Core.Path.{◌≡◌, refl}
use mathlib.Core.Bool.{Bool, true, false}

pub data Run {ℓ} (E : Type 0) (A : Type ℓ) : Type ℓ where
  ok : A → Run E A
  err : E → Run E A
  panic : Run E A

infixl 5 ◌>>=◌ ◌>>◌
abbrev pub ◌>>=◌ {ℓ κ} : {E : Type 0} {A : Type ℓ} {B : Type κ} → Run E A → (A → Run E B) → Run E B
panic >>= next = panic
err e >>= next = err e
ok a >>= next = next a

abbrev pub ◌>>◌ {ℓ} : {E : Type 0} {B : Type ℓ} → Run E (Unit {0}) → Run E B → Run E B
first >> next = first >>= λ _. next

-- An early return of an error, unless the test holds.
abbrev pub guard : {E : Type 0} → Bool → E → Run E (Unit {0})
guard false error = err error
guard true error = ok tt

module _ {ℓ κ} {E : Type 0} {A : Type ℓ} {B : Type κ} where
  pub >>=-eq-ok :
      (first : Run E A) (next : A → Run E B) {b : B}
      → (first >>= next) ≡ ok b
      → (a : A) × (first ≡ ok a) × (next a ≡ ok b)
  >>=-eq-ok panic next h = cc
  >>=-eq-ok (err e) next h = cc
  >>=-eq-ok (ok a) next h = (a, refl, h)

pub guard-eq-ok : {E : Type 0} (t : Bool) (e : E) {u : Unit {0}} → guard t e ≡ ok u → t ≡ true
guard-eq-ok true e h = refl
guard-eq-ok false e h = cc

pub ok-injective {ℓ} : {E : Type 0} {A : Type ℓ} {a b : A} → ◌≡◌ {A = Run E A} (ok a) (ok b) → a ≡ b
ok-injective h = cc

-- Two continuations that agree on what the first call returns.
pub >>=-cong {ℓ κ} :
    {E : Type 0} {A : Type ℓ} {B : Type κ} (first : Run E A) (f g : A → Run E B)
    → ((a : A) → first ≡ ok a → f a ≡ g a)
    → (first >>= f) ≡ (first >>= g)
>>=-cong (ok a) f g h = h a refl
>>=-cong (err e) f g h = refl
>>=-cong panic f g h = refl
