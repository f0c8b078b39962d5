-- ===== src/Common/Outcomes.antt =====
-- What a run of code with loops and indexing comes to.
use mathlib.Core.Path.{◌≡◌, refl, subst}
use mathlib.Core.Bool.{Bool, true, false}
use stream_gateway.Common.Tests.{if◌then◌else◌}
use mathlib.Core.Option.{Option, none, some}

-- `panic` is a Rust panic, as of an index out of bounds; `out_of_fuel` is a loop that was cut off.
pub data Exec {ℓ} (A : Type ℓ) : Type ℓ where
  ret : A → Exec A
  panic : Exec A
  out_of_fuel : Exec A

infixl 5 ◌>>=◌
abbrev pub ◌>>=◌ {ℓ κ} : {A : Type ℓ} {B : Type κ} → Exec A → (A → Exec B) → Exec B
ret a >>= f = f a
panic >>= f = panic
out_of_fuel >>= f = out_of_fuel

-- An index that is out of bounds panics.
abbrev pub or_panic {ℓ} : {A : Type ℓ} → Option A → Exec A
or_panic none = panic
or_panic (some a) = ret a

abbrev Ran {ℓ} : {A : Type ℓ} → Exec A → Type 0
Ran (ret a) = Unit
Ran panic = ⊥
Ran out_of_fuel = ⊥

-- The run ends in a value.
pub record Returns {ℓ} {A : Type ℓ} (m : Exec A) : Type 0 where
  pub ran : Ran m

pub Returns-ret {ℓ} : {A : Type ℓ} (a : A) → Returns (ret a)
Returns-ret a = record { ran = tt }

-- The value of a run that ends in one.
pub Returns-eq-ret {ℓ} : {A : Type ℓ} (m : Exec A) → Returns m → (a : A) × (m ≡ ret a)
Returns-eq-ret (ret a) r = (a, refl)
Returns-eq-ret panic r = absurd r.ran
Returns-eq-ret out_of_fuel r = absurd r.ran

pub Returns-bind {ℓ κ} :
    {A : Type ℓ} {B : Type κ} (m : Exec A) (f : A → Exec B)
    → Returns m
    → ((a : A) → m ≡ ret a → Returns (f a))
    → Returns (m >>= f)
Returns-bind (ret a) f r h = h a refl
Returns-bind panic f r h = absurd r.ran
Returns-bind out_of_fuel f r h = absurd r.ran

ret-injective {ℓ} : {A : Type ℓ} {a b : A} → ◌≡◌ {A = Exec A} (ret a) (ret b) → a ≡ b
ret-injective e = cc

-- Every value that the run ends in has the property.
pub record Holds {ℓ} {A : Type ℓ} (P : A → Type 0) (m : Exec A) : Type ℓ where
  pub of : (a : A) → m ≡ ret a → P a

module _ {ℓ} {A : Type ℓ} {P : A → Type 0} where
  pub Holds-ret : (a : A) → P a → Holds P (ret a)
  Holds-ret a p = record { of = λ b e. subst P (ret-injective e) p }

  pub Holds-bind {κ} :
      {B : Type κ} (m : Exec B) (f : B → Exec A)
      → ((b : B) → m ≡ ret b → Holds P (f b))
      → Holds P (m >>= f)
  Holds-bind (ret b) f h = h b refl
  Holds-bind panic f h = record { of = λ a e. absurd (cc) }
  Holds-bind out_of_fuel f h = record { of = λ a e. absurd (cc) }

  pub Holds-if :
      (b : Bool) (x y : Exec A)
      → (b ≡ true → Holds P x)
      → (b ≡ false → Holds P y)
      → Holds P (if b then x else y)
  Holds-if true x y p q = p refl
  Holds-if false x y p q = q refl
