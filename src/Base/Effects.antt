-- ===== src/Base/Effects.antt =====
-- What every run of an action that returns does to the object: rules for each way to build one.
use mathlib.Core.Bool.{Bool, true, false}
use mathlib.Core.Option.{Option, none, some}
use mathlib.Core.List.{List, [], ◌∷◌}
use Prim.Native.Nat.{ℕ}
use web_assembly_interpreter.Base.Tests.{if◌then◌else◌, switch, ◌==◌}
use web_assembly_interpreter.Base.Errors.{Error, Result, ok, err}
use web_assembly_interpreter.Base.Monad.{
  Action, pure, throw, gets, lift, check, require, and_then, ◌>>=◌,
}

-- A relation between the object before and after, with no condition on a throw.
pub data Ensures {A S : Type 0} (P : S → Type 0) : Result (A × S) → Type 0 where
  returns : {a : A} {s : S} → P s → Ensures P (ok (a, s))
  throws : {e : Error} → Ensures P (err e)

pub Ensures-ok : {A S : Type 0} {P : S → Type 0} {a : A} {s : S} → Ensures P (ok (a, s)) → P s
Ensures-ok (returns h) = h

pub record Keeps {S A : Type 0} (R : S → S → Type 0) (m : Action S A) : Type 0 where
  pub at : (s : S) → Ensures (R s) (m s)

pub record IsPreorder {S : Type 0} (R : S → S → Type 0) : Type 0 where
  pub stay : (s : S) → R s s
  pub chain : (s t u : S) → R s t → R t u → R s u

module _ {S : Type 0} {R : S → S → Type 0} ⦃p : IsPreorder R⦄ where
  pub Keeps-pure : {A : Type 0} (a : A) → Keeps R (pure {A = A} a)
  unfolding pure
  Keeps-pure a = record { at = λ s. returns (p.stay s) }

  pub Keeps-throw : {A : Type 0} (e : Error) → Keeps R (throw {A = A} e)
  unfolding throw
  Keeps-throw e = record { at = λ s. throws }

  pub Keeps-gets : {A : Type 0} (f : S → A) → Keeps R (gets f)
  unfolding gets
  Keeps-gets f = record { at = λ s. returns (p.stay s) }

  pub Keeps-require : {A : Type 0} (e : Error) (o : Option A) → Keeps R (require e o)
  unfolding require
  Keeps-require e none = record { at = λ s. throws }
  Keeps-require e (some a) = record { at = λ s. returns (p.stay s) }

  pub Keeps-lift : {A : Type 0} (r : Result A) → Keeps R (lift r)
  unfolding lift
  Keeps-lift (ok a) = record { at = λ s. returns (p.stay s) }
  Keeps-lift (err e) = record { at = λ s. throws }

  pub Keeps-check : (b : Bool) (e : Error) → Keeps R (check b e)
  unfolding check
  Keeps-check true e = record { at = λ s. returns (p.stay s) }
  Keeps-check false e = record { at = λ s. throws }

  pub Ensures-and_then :
      {A B : Type 0} (s : S) (r : Result (A × S)) (f : A → Action S B)
      → Ensures (R s) r
      → ((a : A) → Keeps R (f a))
      → Ensures (R s) (and_then r f)
  Ensures-and_then s (ok (a, t)) f h k = weaken (f a t) (Ensures-ok h) ((k a).at t)
    where
      weaken : {B : Type 0} (r : Result (B × S)) → R s t → Ensures (R t) r → Ensures (R s) r
      weaken (ok (b, u)) h₁ (returns h₂) = returns (p.chain s t u h₁ h₂)
      weaken (err e) h₁ h₂ = throws
  Ensures-and_then s (err e) f h k = throws

  pub Keeps-bind :
      {A B : Type 0} (m : Action S A) (f : A → Action S B)
      → Keeps R m
      → ((a : A) → Keeps R (f a))
      → Keeps R (m >>= f)
  unfolding ◌>>=◌
  Keeps-bind m f km kf = record { at = λ s. Ensures-and_then s (m s) f (km.at s) kf }

module _ {S A : Type 0} {R : S → S → Type 0} where
  pub Keeps-if :
      (b : Bool) (m n : Action S A) → Keeps R m → Keeps R n → Keeps R (if b then m else n)
  Keeps-if true m n km kn = km
  Keeps-if false m n km kn = kn

-- Every case of a `switch` keeps the relation.
infixr 20 ◌▹◌
pub data KeepsCases {S A : Type 0} (R : S → S → Type 0) : List (ℕ × Action S A) → Type 0 where
  end_cases : KeepsCases R []
  ◌▹◌ :
      {n : ℕ} {m : Action S A} {cases : List (ℕ × Action S A)}
      → Keeps R m
      → KeepsCases R cases
      → KeepsCases R ((n, m) ∷ cases)

module _ {S A : Type 0} {R : S → S → Type 0} where
  pub Keeps-switch :
      (n : ℕ) {cases : List (ℕ × Action S A)} {otherwise : Action S A}
      → KeepsCases R cases
      → Keeps R otherwise
      → Keeps R (switch n cases otherwise)
  unfolding switch
  Keeps-switch n end_cases k = k
  Keeps-switch n (◌▹◌ {n = c} {m} {cases} h hs) k = Keeps-if (n == c) m _ h (Keeps-switch n hs k)

-- A stronger relation is kept by fewer actions.
pub Ensures-mono :
    {A S : Type 0} {P Q : S → Type 0} (r : Result (A × S))
    → ((s : S) → P s → Q s)
    → Ensures P r
    → Ensures Q r
Ensures-mono (ok (a, s)) f (returns h) = returns (f s h)
Ensures-mono (err e) f h = throws

pub Keeps-mono :
    {S A : Type 0} {R Q : S → S → Type 0} (m : Action S A)
    → ((s t : S) → R s t → Q s t)
    → Keeps R m
    → Keeps Q m
Keeps-mono m f k = record { at = λ s. Ensures-mono (m s) (f s) (k.at s) }

pub ruleset keeps_rules = (
  Keeps-pure, Keeps-throw, Keeps-gets, Keeps-lift, Keeps-check, Keeps-require, Keeps-if, Keeps-bind,
)
