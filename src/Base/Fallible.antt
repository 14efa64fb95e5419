-- ===== src/Base/Fallible.antt =====
-- Fallible code: a value or an error, with `do`. `E` is the error type of the component.
use mathlib.Core.Path.{◌≡◌, refl}
use mathlib.Core.Bool.{Bool, true, false}
use mathlib.Core.Option.{Option, none, some}

pub data Result (E A : Type 0) : Type 0 where
  ok : A → Result E A
  err : E → Result E A

infixl 5 ◌>>=◌ ◌>>◌
abbrev pub ◌>>=◌ : {E A B : Type 0} → Result E A → (A → Result E B) → Result E B
err reason >>= next = err reason
ok value >>= next = next value

abbrev pub ◌>>◌ : {E B : Type 0} → Result E (Unit {0}) → Result E B → Result E B
check >> next = check >>= λ _. next

-- `require!(test, error)`.
abbrev pub require : {E : Type 0} → Bool → E → Result E (Unit {0})
require false reason = err reason
require true reason = ok tt

-- `value.ok_or(error)`.
abbrev pub ok_or : {E A : Type 0} → Option A → E → Result E A
ok_or (some value) reason = ok value
ok_or none reason = err reason

module _ {E A B : Type 0} where
  -- What a successful bind says of its parts, where these stay shut.
  pub >>=-eq-ok :
      (first : Result E A) (next : A → Result E B) {final : B}
      → (first >>= next) ≡ ok final
      → (value : A) × (first ≡ ok value) × (next value ≡ ok final)
  >>=-eq-ok (err reason) next h = cc
  >>=-eq-ok (ok value) next h = (value, refl, h)

  pub ok_or-eq-ok :
      (o : Option A) (reason : E) (next : A → Result E B) {final : B}
      → (ok_or o reason >>= next) ≡ ok final
      → (value : A) × (o ≡ some value) × (next value ≡ ok final)
  ok_or-eq-ok none reason next h = cc
  ok_or-eq-ok (some value) reason next h = (value, refl, h)

pub require-eq-ok :
    {E B : Type 0} (test : Bool) (reason : E) (next : Result E B) {final : B}
    → (require test reason >> next) ≡ ok final
    → (test ≡ true) × (next ≡ ok final)
require-eq-ok false reason next h = cc
require-eq-ok true reason next h = (refl, h)

pub ok-injective : {E A : Type 0} {a b : A} → ◌≡◌ {A = Result E A} (ok a) (ok b) → a ≡ b
ok-injective h = cc

-- The same inversions, handed to the rest of a proof, which names what they yield.
pub on_bind :
    {E A B C : Type 0} (m : Result E A) (f : A → Result E B) {b : B}
    → (m >>= f) ≡ ok b
    → ((a : A) → m ≡ ok a → f a ≡ ok b → C)
    → C
on_bind (ok a) f h k = k a refl h
on_bind (err e) f h k = absurd (cc)

pub on_ok_or :
    {E A B C : Type 0} (o : Option A) (e : E) (f : A → Result E B) {b : B}
    → (ok_or o e >>= f) ≡ ok b
    → ((a : A) → o ≡ some a → f a ≡ ok b → C)
    → C
on_ok_or (some a) e f h k = k a refl h
on_ok_or none e f h k = absurd (cc)

pub on_require :
    {E B C : Type 0} (t : Bool) (e : E) (r : Result E B) {b : B}
    → (require t e >> r) ≡ ok b
    → (t ≡ true → r ≡ ok b → C)
    → C
on_require true e r h k = k refl h
on_require false e r h k = absurd (cc)
