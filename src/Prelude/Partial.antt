-- ===== src/Prelude/Partial.antt =====
-- Code that may abort: chains of `Option`, and a property of what they give where they give something.
use mathlib.Core.Bool.{Bool, true, false}
use tcpoudp.Prelude.Tests.{if◌then◌else◌}
use mathlib.Core.Option.{Option, none, some}
use mathlib.Core.Path.{◌≡◌, refl}

infixl 5 ◌>>=◌
abbrev pub ◌>>=◌ {ℓ κ} : {A : Type ℓ} {B : Type κ} → Option A → (A → Option B) → Option B
none >>= f = none
some a >>= f = f a

-- Whatever it gives has the property.
abbrev pub Holds {ℓ κ} : {A : Type ℓ} → (A → Type κ) → Option A → Type κ
Holds P none = Unit
Holds P (some a) = P a

module _ {ℓ κ} {A : Type ℓ} {B : Type κ} where
  pub Holds-bind {μ ν} :
      (P : A → Type μ) (Q : B → Type ν) (m : Option A) (f : A → Option B)
      → Holds P m
      → ((a : A) → P a → Holds Q (f a))
      → Holds Q (m >>= f)
  Holds-bind P Q none f p q = tt
  Holds-bind P Q (some a) f p q = q a p

  -- The same where nothing need be known of what comes first.
  pub Holds-then {ν} :
      (Q : B → Type ν) (m : Option A) (f : A → Option B)
      → ((a : A) → Holds Q (f a))
      → Holds Q (m >>= f)
  Holds-then Q none f q = tt
  Holds-then Q (some a) f q = q a

pub Holds-if {ℓ κ} :
    {A : Type ℓ} (P : A → Type κ) (b : Bool) (x y : Option A)
    → Holds P x
    → Holds P y
    → Holds P (if b then x else y)
Holds-if P true x y p q = p
Holds-if P false x y p q = q

-- The end of a loop on fuel: it aborts, it has come to the end of the fuel, or it gives a value.
pub data Attempt {ℓ} (A : Type ℓ) : Type ℓ where
  aborts spins : Attempt A
  gives : A → Attempt A

-- The value, where there is one.
abbrev pub given {ℓ} : {A : Type ℓ} → Attempt A → Option A
given aborts = none
given spins = none
given (gives a) = some a

abbrev pub is_spin {ℓ} : {A : Type ℓ} → Attempt A → Bool
is_spin aborts = false
is_spin spins = true
is_spin (gives a) = false

pub given-if {ℓ} :
    {A : Type ℓ} (b : Bool) (x y : Attempt A)
    → given (if b then x else y) ≡ (if b then given x else given y)
given-if true x y = refl
given-if false x y = refl

-- What gives a value does not spin.
pub is_spin-given {ℓ} : {A : Type ℓ} (x : Attempt A) (a : A) → given x ≡ some a → is_spin x ≡ false
is_spin-given aborts a e = refl
is_spin-given spins a e = absurd (cc)
is_spin-given (gives b) a e = refl

abbrev pub attempt {ℓ} : {A : Type ℓ} → Option A → Attempt A
attempt none = aborts
attempt (some a) = gives a
