-- ===== src/Base/Errors.antt =====
-- `Result<T, E>` and its `?`, and actions that may fail on a state that they change.
use mathlib.Core.Path.{◌≡◌, refl}
use mathlib.Core.Option.{Option, none, some}

pub data Result (E : Type 0) (A : Type 0) : Type 0 where
  ok : A → Result E A
  err : E → Result E A

module _ {E : Type 0} where
  -- The rest of a block behind `?`.
  abbrev pub and_then : {A B : Type 0} → Result E A → (A → Result E B) → Result E B
  and_then (ok a) f = f a
  and_then (err e) f = err e

  -- `Option::ok_or`.
  abbrev pub ok_or : {A : Type 0} → Option A → E → Result E A
  ok_or none e = err e
  ok_or (some a) e = ok a

  -- `Result::ok`.
  abbrev pub to_option : {A : Type 0} → Result E A → Option A
  to_option (ok a) = some a
  to_option (err e) = none

  pub and_then_assoc :
      {A B C : Type 0} (r : Result E A) (f : A → Result E B) (g : B → Result E C)
      → and_then (and_then r f) g ≡ and_then r (λ a. and_then (f a) g)
  and_then_assoc (ok a) f g = refl
  and_then_assoc (err e) f g = refl
