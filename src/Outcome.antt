-- ===== src/Outcome.antt =====
-- The outcome of code that may stop the machine, or loop: assertions, aborts and `while` loops of cmd/vm.
use valutron.Prelude.{Option, none, some}

-- `dies`: a failed assertion or a null pointer. `runs_on`: the fuel of a loop was not enough.
pub data Outcome (A : Type 0) : Type 0 where
  done : A → Outcome A
  dies : Outcome A
  runs_on : Outcome A

infixl 5 ◌>>=◌
abbrev pub ◌>>=◌ : {A B : Type 0} → Outcome A → (A → Outcome B) → Outcome B
done a >>= f = f a
dies >>= f = dies
runs_on >>= f = runs_on

abbrev pub or_dies : {A : Type 0} → Option A → Outcome A
or_dies none = dies
or_dies (some a) = done a
