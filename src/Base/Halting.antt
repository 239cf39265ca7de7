-- ===== src/Base/Halting.antt =====
-- Runs that may end by a fault, but not for want of fuel.
use mathlib.Core.Path.{◌≡◌, refl}
use mathlib.Core.Logic.{◌≢◌}
use mathlib.Core.Option.{Option, none, some}
use mathlib.Core.Bool.{Bool, true, false}
use sufary.Base.Tests.{if◌then◌else◌}
use sufary.Base.Run.{
  Fault, Run, done, stop, assertion, out_of_bounds, buffer_overflow, out_of_fuel, exit_failure,
  assert, or_fault, ◌>>=◌,
}

-- The run ends with a value that satisfies `P`, or by a fault of the program.
pub data Finishes {ℓ} {A : Type ℓ} (P : A → Type 0) : Run A → Type ℓ where
  finished : (a : A) → P a → Finishes P (done a)
  failed : (f : Fault) → f ≢ out_of_fuel → Finishes P (stop f)

abbrev pub Halts {ℓ} : {A : Type ℓ} → Run A → Type ℓ
Halts = Finishes (λ _. Unit)

abbrev pub halted {ℓ} : {A : Type ℓ} (a : A) → Halts (done a)
halted a = finished a tt

pub Halts-ne {ℓ} : {A : Type ℓ} (r : Run A) → Halts r → r ≢ stop out_of_fuel
Halts-ne _ (finished a _) e = cc
Halts-ne _ (failed f ne) e = ne cc

pub Finishes-bind {ℓ κ} :
    {A : Type ℓ} {B : Type κ} {P : A → Type 0} {Q : B → Type 0} (r : Run A) (k : A → Run B)
    → Finishes P r
    → ((a : A) → P a → Finishes Q (k a))
    → Finishes Q (r >>= k)
Finishes-bind _ k (finished a p) next = next a p
Finishes-bind _ k (failed f ne) next = failed f ne

pub Finishes-if {ℓ} :
    {A : Type ℓ} {P : A → Type 0} (b : Bool) (x y : Run A)
    → (b ≡ true → Finishes P x)
    → (b ≡ false → Finishes P y)
    → Finishes P (if b then x else y)
Finishes-if true x y h k = h refl
Finishes-if false x y h k = k refl

module _ {ℓ} {A : Type ℓ} {P : A → Type 0} where
  pub out_of_bounds-Finishes : Finishes P (stop out_of_bounds)
  out_of_bounds-Finishes = failed out_of_bounds (λ e. cc)

  pub assertion-Finishes : Finishes P (stop assertion)
  assertion-Finishes = failed assertion (λ e. cc)

  pub buffer_overflow-Finishes : Finishes P (stop buffer_overflow)
  buffer_overflow-Finishes = failed buffer_overflow (λ e. cc)

  pub exit_failure-Finishes : Finishes P (stop exit_failure)
  exit_failure-Finishes = failed exit_failure (λ e. cc)

pub or_fault-Halts {ℓ} : {A : Type ℓ} (o : Option A) → Halts (or_fault o)
or_fault-Halts none = out_of_bounds-Finishes
or_fault-Halts (some a) = halted a

pub assert-Halts : (b : Bool) → Halts (assert b)
assert-Halts true = halted tt
assert-Halts false = assertion-Finishes
