-- ===== src/Prelude/Results.antt =====
-- Code that may stop with an error or a panic, as values with `do`.
use mathlib.Core.Path.{◌≡◌, refl}
use mathlib.Core.Logic.{◌⊎◌, inl, inr}
use mathlib.Core.Bool.{Bool, true, false}
use mathlib.Core.Option.{Option, none, some}

-- `Result<A, E>`; a panic is an error that nothing catches.
pub data Result (E A : Type 0) : Type 0 where
  ok : A → Result E A
  err : E → Result E A

infixl 5 ◌>>=◌ ◌>>◌
abbrev pub ◌>>=◌ : {E A B : Type 0} → Result E A → (A → Result E B) → Result E B
ok a >>= f = f a
err e >>= f = err e

abbrev pub ◌>>◌ : {E B : Type 0} → Result E (Unit {0}) → Result E B → Result E B
m >> k = m >>= λ _. k

-- `assert!(test, message)` and `ensure!(test, error)`.
abbrev pub ensure : {E : Type 0} → Bool → E → Result E (Unit {0})
ensure true e = ok tt
ensure false e = err e

-- `assert_eq!` and `assert!` on a decided equation.
abbrev pub require : {E P : Type 0} → Dec P → E → Result E (Unit {0})
require (yes p) e = ok tt
require (no p) e = err e

-- `assert_ne!`
abbrev pub refuse : {E P : Type 0} → Dec P → E → Result E (Unit {0})
refuse (yes p) e = err e
refuse (no p) e = ok tt

-- `expect` and `ok_or`
abbrev pub or_err : {E A : Type 0} → Option A → E → Result E A
or_err none e = err e
or_err (some a) e = ok a

pub Result-cases :
    {E A : Type 0} (r : Result E A) → ((a : A) × (r ≡ ok a)) ⊎ ((e : E) × (r ≡ err e))
Result-cases (ok a) = inl (a, refl)
Result-cases (err e) = inr (e, refl)

-- Inversion of a successful bind, where its parts stay shut.
pub >>=-eq-ok :
    {E A B : Type 0} {y : B} (m : Result E A) (k : A → Result E B)
    → (m >>= k) ≡ ok y
    → (x : A) × (m ≡ ok x) × (k x ≡ ok y)
>>=-eq-ok (err e) k eq = cc
>>=-eq-ok (ok x) k eq = (x, refl, eq)

-- What a successful check says, and what is left behind it.
module _ {E B : Type 0} where
  pub ensure-eq-ok :
      (t : Bool) (e : E) (k : Unit {0} → Result E B) {b : B}
      → (ensure t e >>= k) ≡ ok b
      → (t ≡ true) × (k tt ≡ ok b)
  ensure-eq-ok true e k h = (refl, h)
  ensure-eq-ok false e k h = cc

  pub require-eq-ok :
      {P : Type 0} (d : Dec P) (e : E) (k : Unit {0} → Result E B) {b : B}
      → (require d e >>= k) ≡ ok b
      → P × (k tt ≡ ok b)
  require-eq-ok (yes p) e k h = (p, h)
  require-eq-ok (no p) e k h = cc

  pub refuse-eq-ok :
      {P : Type 0} (d : Dec P) (e : E) (k : Unit {0} → Result E B) {b : B}
      → (refuse d e >>= k) ≡ ok b
      → (¬ P) × (k tt ≡ ok b)
  refuse-eq-ok (yes p) e k h = cc
  refuse-eq-ok (no p) e k h = (p, h)

  pub or_err-eq-ok :
      {A : Type 0} (o : Option A) (e : E) (k : A → Result E B) {b : B}
      → (or_err o e >>= k) ≡ ok b
      → (a : A) × (o ≡ some a) × (k a ≡ ok b)
  or_err-eq-ok (some a) e k h = (a, refl, h)
  or_err-eq-ok none e k h = cc

pub ok-injective : {E A : Type 0} {a b : A} → ◌≡◌ {A = Result E A} (ok a) (ok b) → a ≡ b
ok-injective h = cc

pub require_of : {E P : Type 0} (d : Dec P) (e : E) → P → require d e ≡ ok tt
require_of (yes p) e h = refl
require_of (no p) e h = absurd (p h)

pub or_err-eq-some : {E A : Type 0} {a : A} (o : Option A) (e : E) → or_err o e ≡ ok a → o ≡ some a
or_err-eq-some none e h = cc
or_err-eq-some (some b) e h = cc
