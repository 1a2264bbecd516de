-- ===== src/Prelude/Outcome.antt =====
-- How a call ends: it returns, an exception leaves it, or its behaviour is undefined.

use mathlib.Core.Path.{◌≡◌, refl}
use mathlib.Core.Logic.{◌⊎◌, inl, inr}

-- The exceptions that the code tells apart, by the class that is thrown.
pub data Exn : Type 0 where
  out_of_range invalid_argument json_exception system_error process_error bson_exception : Exn
  no_python ini_parser_error inotify_exception : Exn

-- A call with no effect on the program's state.
pub data Try {ℓ} (A : Type ℓ) : Type ℓ where
  returns : A → Try A
  raises : Exn → Try A

-- A call that changes a state: the state that it leaves, also where an exception leaves it.
pub data Outcome {ℓ} (A : Type ℓ) : Type ℓ where
  done : A → Outcome A
  throws : Exn → A → Outcome A
  undefined : Outcome A

infixl 5 ◌>>=◌
abbrev pub ◌>>=◌ {ℓ} : {A : Type ℓ} → Outcome A → (A → Outcome A) → Outcome A
done a >>= f = f a
throws e a >>= f = throws e a
undefined >>= f = undefined

-- To split on a call and keep the equation.
pub Try-cases :
    {A : Type 0} (t : Try A) → ((e : Exn) × (t ≡ raises e)) ⊎ ((a : A) × (t ≡ returns a))
Try-cases (returns a) = inr (a, refl)
Try-cases (raises e) = inl (e, refl)
