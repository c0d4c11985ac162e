-- ===== src/Base/Monad.antt =====
-- Methods that read and change an object and may throw.
use mathlib.Core.Bool.{Bool, true, false}
use mathlib.Core.Option.{Option, none, some}
use web_assembly_interpreter.Base.Errors.{Error, Result, ok, err}

abbrev pub Action : Type 0 → Type 0 → Type 0
Action S A = S → Result (A × S)

module _ {S A : Type 0} where
  unfoldable pub pure : A → Action S A
  pure a s = ok (a, s)

  unfoldable pub throw : Error → Action S A
  throw e s = err e

  unfoldable pub gets : (S → A) → Action S A
  gets f s = ok (f s, s)

  unfoldable pub lift : Result A → Action S A
  lift (ok a) s = ok (a, s)
  lift (err e) s = err e

  -- `v.at(i)` and other partial reads: a missing value throws.
  unfoldable pub require : Error → Option A → Action S A
  require e none s = err e
  require e (some a) s = ok (a, s)

-- `if (!b) throw e;`
unfoldable pub check : {S : Type 0} → Bool → Error → Action S (Unit {0})
check true e s = ok (tt, s)
check false e s = err e

module _ {S A B : Type 0} where
  abbrev pub and_then : Result (A × S) → (A → Action S B) → Result (B × S)
  and_then (ok (a, s)) f = f a s
  and_then (err e) f = err e

  infixl 5 ◌>>=◌ ◌>>◌
  unfoldable pub ◌>>=◌ : Action S A → (A → Action S B) → Action S B
  unfolding pure throw gets lift require check
  ◌>>=◌ m f s = and_then (m s) f

  abbrev pub ◌>>◌ : Action S A → Action S B → Action S B
  m >> n = m >>= λ _. n

unfoldable pub modify : {S : Type 0} → (S → S) → Action S (Unit {0})
modify f s = ok (tt, f s)

-- An action on a part of an object.
module _ {S T A : Type 0} where
  abbrev pub put_back : (T → S → S) → S → Result (A × T) → Result (A × S)
  put_back put s (ok (a, t)) = ok (a, put t s)
  put_back put s (err e) = err e

  unfoldable pub zoom : (S → T) → (T → S → S) → Action T A → Action S A
  zoom get put m s = put_back put s (m (get s))
