-- ===== src/Base/Endings.antt =====
-- Actions that run out of no fuel of their own: from an object with `I` each of them returns one
-- with `I` or throws an error that the program knows.
use mathlib.Core.Bool.{Bool, true, false}
use mathlib.Core.Option.{Option, none, some}
use mathlib.Core.List.{List, [], ◌∷◌}
use mathlib.Core.Logic.{◌≢◌}
use mathlib.Core.Path.{refl}
use Prim.Native.Nat.{ℕ}
use Prim.Native.String.{String}
use web_assembly_interpreter.Base.Tests.{if◌then◌else◌, switch, ◌==◌}
use web_assembly_interpreter.Base.Errors.{
  Error, Result, ok, err, trap, runtime_error, out_of_range, out_of_fuel,
}
use web_assembly_interpreter.Base.Monad.{
  Action, pure, throw, gets, lift, check, require, modify, and_then, ◌>>=◌,
}

pub data IsOwn : Error → Type 0 where
  own_trap : {message : String} → IsOwn (trap message)
  own_runtime_error : {message : String} → IsOwn (runtime_error message)
  own_out_of_range : {message : String} → IsOwn (out_of_range message)

pub IsOwn-not_fuel : (e : Error) → IsOwn e → e ≢ out_of_fuel
IsOwn-not_fuel _ own_trap = λ h. cc
IsOwn-not_fuel _ own_runtime_error = λ h. cc
IsOwn-not_fuel _ own_out_of_range = λ h. cc

pub IsOwn-of_not_fuel : (e : Error) → e ≢ out_of_fuel → IsOwn e
IsOwn-of_not_fuel (trap message) h = own_trap
IsOwn-of_not_fuel (runtime_error message) h = own_runtime_error
IsOwn-of_not_fuel (out_of_range message) h = own_out_of_range
IsOwn-of_not_fuel out_of_fuel h = absurd (h refl)

-- The same for a computation that reads nothing.
pub data IsSettled {A : Type 0} : Result A → Type 0 where
  settled_ok : {a : A} → IsSettled (ok a)
  settled_err : {e : Error} → IsOwn e → IsSettled (err e)

pub data Ordinary {A S : Type 0} (I : S → Type 0) : Result (A × S) → Type 0 where
  stands : {a : A} {s : S} → I s → Ordinary I (ok (a, s))
  refused : {e : Error} → IsOwn e → Ordinary I (err e)

pub record Steady {S A : Type 0} (I : S → Type 0) (m : Action S A) : Type 0 where
  pub at : (s : S) → I s → Ordinary I (m s)

module _ {A : Type 0} where
  pub IsSettled-if :
      (b : Bool) (x y : Result A) → IsSettled x → IsSettled y → IsSettled (if b then x else y)
  IsSettled-if true x y h k = h
  IsSettled-if false x y h k = k

module _ {S A : Type 0} {I : S → Type 0} where
  pub Steady-pure : (a : A) → Steady I (pure a)
  unfolding pure
  Steady-pure a = record { at = λ s h. stands h }

  pub Steady-throw : (e : Error) → IsOwn e → Steady I (throw {A = A} e)
  unfolding throw
  Steady-throw e own = record { at = λ s h. refused own }

  pub Steady-gets : (f : S → A) → Steady I (gets f)
  unfolding gets
  Steady-gets f = record { at = λ s h. stands h }

  pub Steady-require : (e : Error) (o : Option A) → IsOwn e → Steady I (require e o)
  unfolding require
  Steady-require e none own = record { at = λ s h. refused own }
  Steady-require e (some a) own = record { at = λ s h. stands h }

  pub Steady-lift : (r : Result A) → IsSettled r → Steady I (lift r)
  unfolding lift
  Steady-lift (ok a) h = record { at = λ s i. stands i }
  Steady-lift (err e) (settled_err own) = record { at = λ s i. refused own }

  pub Steady-if :
      (b : Bool) (m n : Action S A) → Steady I m → Steady I n → Steady I (if b then m else n)
  Steady-if true m n h k = h
  Steady-if false m n h k = k

-- Every case of a `switch` is steady.
infixr 20 ◌▹▹◌
pub data SteadyCases {S A : Type 0} (I : S → Type 0) : List (ℕ × Action S A) → Type 0 where
  no_cases : SteadyCases I []
  ◌▹▹◌ :
      {n : ℕ} {m : Action S A} {cases : List (ℕ × Action S A)}
      → Steady I m
      → SteadyCases I cases
      → SteadyCases I ((n, m) ∷ cases)

module _ {S A : Type 0} {I : S → Type 0} where
  pub Steady-switch :
      (n : ℕ) {cases : List (ℕ × Action S A)} {otherwise : Action S A}
      → SteadyCases I cases
      → Steady I otherwise
      → Steady I (switch n cases otherwise)
  unfolding switch
  Steady-switch n no_cases k = k
  Steady-switch n (◌▹▹◌ {n = c} {m} {cases} h hs) k =
      Steady-if (n == c) m _ h (Steady-switch n hs k)

module _ {S : Type 0} {I : S → Type 0} where
  pub Steady-check : (b : Bool) (e : Error) → IsOwn e → Steady I (check b e)
  unfolding check
  Steady-check true e own = record { at = λ s h. stands h }
  Steady-check false e own = record { at = λ s h. refused own }

  pub Steady-modify : (f : S → S) → ((s : S) → I s → I (f s)) → Steady I (modify f)
  unfolding modify
  Steady-modify f k = record { at = λ s h. stands (k s h) }

  pub Ordinary-and_then :
      {A B : Type 0} (r : Result (A × S)) (f : A → Action S B)
      → Ordinary I r
      → ((a : A) → Steady I (f a))
      → Ordinary I (and_then r f)
  Ordinary-and_then (ok (a, t)) f (stands i) k = (k a).at t i
  Ordinary-and_then (err e) f (refused own) k = refused own

  pub Steady-bind :
      {A B : Type 0} (m : Action S A) (f : A → Action S B)
      → Steady I m
      → ((a : A) → Steady I (f a))
      → Steady I (m >>= f)
  unfolding ◌>>=◌
  Steady-bind m f km kf = record { at = λ s i. Ordinary-and_then (m s) f (km.at s i) kf }

pub ruleset steady_rules = (
  Steady-pure, Steady-throw, Steady-gets, Steady-require, Steady-lift, Steady-if, Steady-check,
  Steady-bind, Steady-switch, no_cases, ◌▹▹◌, own_trap, own_runtime_error, own_out_of_range,
)
