-- ===== src/Prelude/Outcome.antt =====
-- A call that returns or raises; each component has its own type of errors.
use mathlib.Core.Path.{◌≡◌, refl, subst, ap}
use mathlib.Core.Bool.{Bool, true, false}
use mathlib.Core.Option.{Option, none, some}

pub data Result {ℓ} (E : Type 0) (A : Type ℓ) : Type ℓ where
  ok : A → Result E A
  err : E → Result E A

infixl 5 ◌>>=◌ ◌>>◌
abbrev pub ◌>>=◌ {ℓ κ} :
    {E : Type 0} {A : Type ℓ} {B : Type κ} → Result E A → (A → Result E B) → Result E B
err raised >>= next = err raised
ok returned >>= next = next returned

-- `if not test: raise error`
abbrev pub require : {E : Type 0} → Bool → E → Result E (Unit {0})
require false error = err error
require true error = ok tt

-- `if test: raise error`
abbrev pub refuse : {E : Type 0} → Bool → E → Result E (Unit {0})
refuse false error = ok tt
refuse true error = err error

abbrev pub ◌>>◌ {ℓ} : {E : Type 0} {B : Type ℓ} → Result E (Unit {0}) → Result E B → Result E B
first >> second = first >>= λ _. second

-- `if value is None: raise error`
abbrev pub some_or {ℓ} : {E : Type 0} {A : Type ℓ} → Option A → E → Result E A
some_or none error = err error
some_or (some value) error = ok value

pub >>=-eq-ok {ℓ κ} :
    {E : Type 0} {A : Type ℓ} {B : Type κ} (call : Result E A) (next : A → Result E B) {value : B}
    → (call >>= next) ≡ ok value
    → (returned : A) × (call ≡ ok returned) × (next returned ≡ ok value)
>>=-eq-ok (err raised) next h = cc
>>=-eq-ok (ok returned) next h = (returned, refl, h)

module _ {ℓ} {E : Type 0} {A : Type ℓ} where
  pub ok-injective : {a b : A} → ◌≡◌ {A = Result E A} (ok a) (ok b) → a ≡ b
  ok-injective h = cc

  pub err≢ok : {e : E} {a : A} → ◌≡◌ {A = Result E A} (err e) (ok a) → ⊥
  err≢ok h = cc

-- The tests that a block has passed.
pub refused-false :
    {E : Type 0} (test : Bool) (error : E) {u : Unit {0}} → refuse test error ≡ ok u → test ≡ false
refused-false false error h = refl
refused-false true error h = absurd (err≢ok h)

pub required-true :
    {E : Type 0} (test : Bool) (error : E) {u : Unit {0}} → require test error ≡ ok u → test ≡ true
required-true false error h = absurd (err≢ok h)
required-true true error h = refl

pub some_or-some {ℓ} :
    {E : Type 0} {A : Type ℓ} (o : Option A) (error : E) {a : A}
    → some_or o error ≡ ok a
    → o ≡ some a
some_or-some none error h = absurd (err≢ok h)
some_or-some (some value) error h = ap some (ok-injective h)

-- What holds of the result if the call returns.
abbrev pub Ensures {ℓ κ} : {E : Type 0} {A : Type ℓ} → (A → Type κ) → Result E A → Type κ
Ensures P (ok a) = P a
Ensures P (err e) = Unit

module _ {ℓ κ μ} {E : Type 0} {A : Type ℓ} {B : Type κ} (P : B → Type μ) where
  -- The rest of a block may use that the first step returned.
  pub Ensures-bind :
      (m : Result E A) (f : A → Result E B)
      → ((a : A) → m ≡ ok a → Ensures P (f a))
      → Ensures P (m >>= f)
  Ensures-bind (ok a) f h = h a refl
  Ensures-bind (err e) f h = tt

module _ {ℓ μ} {E : Type 0} {A : Type ℓ} (P : A → Type μ) where
  pub Ensures-at : (m : Result E A) {a : A} → m ≡ ok a → Ensures P m → P a
  Ensures-at (ok b) h p = subst P (ok-injective h) p
  Ensures-at (err e) h p = absurd (err≢ok h)
