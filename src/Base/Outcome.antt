-- ===== src/Base/Outcome.antt =====
-- How a piece of C ends: with a value, by a fault (undefined behaviour), or by ending the process;
-- and the rules for calls that return.
use mathlib.Core.Path.{◌≡◌, refl, subst}
use mathlib.Core.Bool.{Bool, true, false}
use mathlib.Core.Option.{Option, none, some}
use hanlin.Base.Tests.{if◌then◌else◌}

-- What C leaves undefined.
pub data Fault : Type 0 where
  out_of_bounds null_dereference use_after_free buffer_overflow integer_overflow : Fault

-- `exit` is a call of exit() or a kernel panic; `out_of_fuel` is the model's own bound on a loop.
pub data Run {ℓ} (A : Type ℓ) : Type ℓ where
  ok : A → Run A
  fault : Fault → Run A
  exit out_of_fuel : Run A

infixl 5 ◌>>=◌ ◌>>◌
abbrev pub ◌>>=◌ {ℓ κ} : {A : Type ℓ} {B : Type κ} → Run A → (A → Run B) → Run B
ok a >>= f = f a
fault e >>= f = fault e
exit >>= f = exit
out_of_fuel >>= f = out_of_fuel

abbrev pub ◌>>◌ {ℓ} : {B : Type ℓ} → Run (Unit {0}) → Run B → Run B
m >> k = m >>= λ _. k

abbrev pub or_fault {ℓ} : {A : Type ℓ} → Option A → Fault → Run A
or_fault (some a) e = ok a
or_fault none e = fault e

-- The run returns, and its value satisfies `P`.
pub data Returns {ℓ κ} {A : Type ℓ} (P : A → Type κ) : Run A → Type (ℓ ⊔ κ) where
  returns : {a : A} → P a → Returns P (ok a)

module _ {ℓ κ} {A : Type ℓ} {P : A → Type κ} where
  pub Returns-value : {m : Run A} → Returns P m → (value : A) × (m ≡ ok value) × P value
  Returns-value (returns {a = value} holds) = (value, refl, holds)

  pub Returns-if :
      (test : Bool) {yes_run no_run : Run A}
      → (test ≡ true → Returns P yes_run)
      → (test ≡ false → Returns P no_run)
      → Returns P (if test then yes_run else no_run)
  Returns-if true on_true on_false = on_true refl
  Returns-if false on_true on_false = on_false refl

  pub Returns-weaken {λ'} :
      {Weaker : A → Type λ'} {m : Run A}
      → Returns P m
      → ((value : A) → P value → Weaker value)
      → Returns Weaker m
  Returns-weaken (returns {a = value} holds) weaker = returns (weaker value holds)

  pub Returns->>= {λ' μ} :
      {B : Type μ} {After : B → Type λ'} {first : Run A} {next : A → Run B}
      → Returns P first
      → ((value : A) → P value → Returns After (next value))
      → Returns After (first >>= next)
  Returns->>= (returns {a = value} holds) go_on = go_on value holds

-- If the run returns, its value satisfies `P`.
abbrev pub Ensures {ℓ κ} : {A : Type ℓ} → (A → Type κ) → Run A → Type (ℓ ⊔ κ)
Ensures {A} P m = (a : A) → m ≡ ok a → P a

module _ {ℓ κ ℓ' κ'} {A : Type ℓ} {B : Type ℓ'} where
  pub Ensures->>= :
      (P : A → Type κ) (Q : B → Type κ') (m : Run A) (f : A → Run B)
      → Ensures P m
      → ((a : A) → P a → Ensures Q (f a))
      → Ensures Q (m >>= f)
  Ensures->>= P Q (ok a) f h k = k a (h a refl)
  Ensures->>= P Q (fault e) f h k = λ b r. cc
  Ensures->>= P Q exit f h k = λ b r. cc
  Ensures->>= P Q out_of_fuel f h k = λ b r. cc

pub ok-injective {ℓ} : {A : Type ℓ} {a b : A} → ok a ≡ ok b → a ≡ b
ok-injective h = cc

pub Returns-ok {ℓ κ} : {A : Type ℓ} {P : A → Type κ} {m : Run A} → Returns P m → Ensures P m
Returns-ok {P} (returns p) b h = subst P (ok-injective h) p

pub or_fault-some {ℓ} :
    {A : Type ℓ} {o : Option A} {a : A} (e : Fault)
    → o ≡ some a
    → Returns (λ b. b ≡ a) (or_fault o e)
or_fault-some e h = rw h (returns refl)
