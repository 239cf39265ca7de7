-- ===== src/Base/Run.antt =====
-- Runs of the C code: a value, or what stops the run. A failed `assert` aborts, a read outside the
-- mapped memory is undefined behaviour, and so is a write past a fixed buffer. `exit_failure` is
-- `exit(EXIT_FAILURE)`.
use mathlib.Core.Option.{Option, none, some}
use mathlib.Core.Path.{◌≡◌}
use mathlib.Core.Bool.{Bool, true, false}

pub data Fault : Type 0 where
  assertion : Fault
  out_of_bounds : Fault
  buffer_overflow : Fault
  out_of_fuel : Fault
  exit_failure : Fault

pub data Run {ℓ} (A : Type ℓ) : Type ℓ where
  done : A → Run A
  stop : Fault → Run A

infixl 5 ◌>>=◌ ◌>>◌
abbrev pub ◌>>=◌ {ℓ κ} : {A : Type ℓ} {B : Type κ} → Run A → (A → Run B) → Run B
done a >>= f = f a
stop e >>= f = stop e

abbrev pub ◌>>◌ {ℓ} : {B : Type ℓ} → Run (Unit {0}) → Run B → Run B
m >> k = m >>= λ _. k

abbrev pub assert : Bool → Run (Unit {0})
assert true = done tt
assert false = stop assertion

-- the value that a bounds-checked read found
abbrev pub or_fault {ℓ} : {A : Type ℓ} → Option A → Run A
or_fault none = stop out_of_bounds
or_fault (some a) = done a

-- the run ends normally, with a value that satisfies `P`
abbrev pub Ends {ℓ κ} : {A : Type ℓ} → Run A → (A → Type κ) → Type (ℓ ⊔ κ)
Ends {A = A} r P = (a : A) × (r ≡ done a) × P a

-- a run that ends, and what follows it
pub Ends-bind {ℓ κ μ} :
    {A B : Type ℓ} {P : A → Type κ} {Q : B → Type μ} (r : Run A) (k : A → Run B)
    → Ends r P
    → ((a : A) → P a → Ends (k a) Q)
    → Ends (r >>= k) Q
Ends-bind r k (a, e, p) next = rw e (next a p)
