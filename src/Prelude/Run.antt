-- ===== src/Prelude/Run.antt =====
-- Results of code that can panic or fail to return. A loop takes fuel, its number of rounds:
-- `out_of_fuel` is a run that needs more.
use mathlib.Core.Option.{Option, none, some}
use mathlib.Core.Bool.{Bool, true, false}

pub data Run {ℓ} (A : Type ℓ) : Type ℓ where
  returns : A → Run A
  panics out_of_fuel : Run A

abbrev pub bind {ℓ κ} : {A : Type ℓ} {B : Type κ} → Run A → (A → Run B) → Run B
bind (returns a) f = f a
bind panics f = panics
bind out_of_fuel f = out_of_fuel

-- an operation that may panic, within a run
abbrev pub or_panic {ℓ} : {A : Type ℓ} → Option A → Run A
or_panic none = panics
or_panic (some a) = returns a

abbrev pub check : Bool → Run (Unit {0})
check true = returns tt
check false = panics
