-- ===== src/Base/Maybe.antt =====
-- Runs that may leave C's defined behaviour. `none` is a fault: an access outside the memory that
-- the code owns, a failed `c_assert`, a call of `abort()`, or a loop that does not end.
use mathlib.Core.Path.{◌≡◌}
use mathlib.Core.Bool.{Bool, true, false}
use mathlib.Core.Option.{Option, none, some}

infixl 5 ◌>>=◌ ◌>>◌
abbrev pub ◌>>=◌ {ℓ κ} : {A : Type ℓ} {B : Type κ} → Option A → (A → Option B) → Option B
some a >>= f = f a
none >>= f = none

abbrev pub ◌>>◌ {ℓ} : {B : Type ℓ} → Option (Unit {0}) → Option B → Option B
m >> k = m >>= λ _. k

-- `c_assert(b)`, and the check that the C language leaves to the program.
abbrev pub assert : Bool → Option (Unit {0})
assert true = some tt
assert false = none

pub some_inj {ℓ} : {A : Type ℓ} {a b : A} → some a ≡ some b → a ≡ b
some_inj e = cc
