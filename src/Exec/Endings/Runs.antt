-- ===== src/Exec/Endings/Runs.antt =====
-- A call of a function throws errors of the program's own, and no other.
use web_assembly_interpreter.Base.{
  Bool, Error, IsOwn, IsOwn-not_fuel, IsSettled, IsSettled-if, List, Ordinary, Result, [], ap,
  arith, err, false, if◌then◌else◌, length, ok, out_of_fuel, own_runtime_error, own_trap, refl,
  refused, replicate, settled_err, settled_ok, stands, trap, true, ℕ, ◌++◌, ◌==◌, ◌∙◌, ◌∷◌, ◌≡◌,
  ◌≢◌,
}
use web_assembly_interpreter.Exec.Adequacy.{execute_function-adequate}
use web_assembly_interpreter.Exec.Derivation.{
  Configuration, Ends, by_host, calling, entered, gives_back, gives_up, goes_on, no_function,
  not_entered, resumes, running, stops,
}
use web_assembly_interpreter.Exec.Endings.Round.{step-Steady}
use web_assembly_interpreter.Exec.Machine.{Machine, Next}
use web_assembly_interpreter.Exec.Run.{
  Host, HostResult, Outcome, declared_locals, done, enter_code, execute_function, exhausted, failed,
  host_outcome, host_returned, host_thrown, host_trapped, push_call_results, start_machine,
}
use web_assembly_interpreter.Exec.Settled.{IsInside}
use web_assembly_interpreter.Exec.Step.{step}
use web_assembly_interpreter.Module.{Code, FunctionType, LocalDecl}
use web_assembly_interpreter.Numeric.Float.{FloatUnit}
use web_assembly_interpreter.Store.{Store, zero_value}
use web_assembly_interpreter.Types.{
  Value, ValueType, externref, f32, f64, funcref, i32, i64, unknown,
}
use mathlib.Core.Path.{subst}

module _ {W : Type 0} where
  -- A host that throws an error throws one of its own.
  abbrev pub HostIsOwn : Host W → Type 0
  HostIsOwn host =
      (id : ℕ) (args : List Value) (w : W) (s : Store) (e : Error)
      → (host id args (w, s)).0 ≡ host_thrown e
      → e ≢ out_of_fuel

  -- How a run fails, if it fails.
  abbrev pub FailsOwn : Outcome W → Type 0
  FailsOwn (done values w s) = Unit
  FailsOwn (failed e w s) = e ≢ out_of_fuel
  FailsOwn exhausted = Unit

  abbrev StartsInside : Configuration W → Type 0
  StartsInside (calling index args w s) = Unit
  StartsInside (running w m) = IsInside m

  host-FailsOwn :
      (host : Host W)
      → HostIsOwn host
      → (id : ℕ) (args : List Value) (w : W) (s : Store)
      → FailsOwn (host_outcome (host id args (w, s)))
  host-FailsOwn host own id args w s = cases (host id args (w, s)) refl
    where
      cases : (r : HostResult × (W × Store)) → host id args (w, s) ≡ r → FailsOwn (host_outcome r)
      cases (host_returned values, (v, t)) at = tt
      cases (host_trapped message, (v, t)) at = λ e. cc
      cases (host_thrown e, (v, t)) at =
          own id args w s e (ap (λ (r : HostResult × (W × Store)). r.0) at)

zeros-IsSettled : (ds : List LocalDecl) → IsSettled (declared_locals ds)
unfolding declared_locals zero_value
zeros-IsSettled [] = settled_ok
zeros-IsSettled (d ∷ ds) =
    IsSettled-if _ _ _ (zeros-IsSettled ds)
      (joined (zero_value d.type) (zero-IsSettled d.type) (declared_locals ds) (zeros-IsSettled ds))
  where
    zero-IsSettled : (t : ValueType) → IsSettled (zero_value t)
    zero-IsSettled i32 = settled_ok
    zero-IsSettled i64 = settled_ok
    zero-IsSettled f32 = settled_ok
    zero-IsSettled f64 = settled_ok
    zero-IsSettled funcref = settled_ok
    zero-IsSettled externref = settled_ok
    zero-IsSettled (unknown b) = settled_err own_runtime_error

    joined :
        (z : Result Value)
        → IsSettled z
        → (r : Result (List Value)) → IsSettled r
        → IsSettled (elim z [
          | err e ↦ err e
          | ok zero_of_type ↦ elim r [
            | err e ↦ err e
            | ok others ↦ ok (replicate d.count zero_of_type ++ others)
          ]
        ])
    joined (err e) (settled_err own) r k = settled_err own
    joined (ok v) h (err e) (settled_err own) = settled_err own
    joined (ok v) h (ok vs) k = settled_ok

data EntersInside : Result Machine → Type 0 where
  inside : {m : Machine} → IsInside m → EntersInside (ok m)
  outside : {e : Error} → IsOwn e → EntersInside (err e)

enter_code-Inside :
    (f : FunctionType) (c : Code) (args : List Value) (s : Store)
    → EntersInside (enter_code f c args s)
unfolding enter_code start_machine
enter_code-Inside f c args s =
    by_count (length f.params == length args) (declared_locals c.locals) (zeros-IsSettled c.locals)
  where
    by_count :
        (b : Bool) (r : Result (List Value))
        → IsSettled r
        → EntersInside (
            if b
            then elim r [ ok zeros ↦ ok (start_machine s f c (args ++ zeros)) | err e ↦ err e ]
            else err (trap "Incorrect number of arguments"))
    by_count true (ok zeros) h = inside (record { inside = omega arith })
    by_count true (err e) (settled_err own) = outside own
    by_count false r h = outside own_trap

entry-own : {r : Result Machine} {e : Error} → EntersInside r → r ≡ err e → e ≢ out_of_fuel
entry-own {r = r} {e} h at = shown r h at
  where
    error : Result Machine → Error
    error (ok m) = e
    error (err y) = y

    shown : (r : Result Machine) → EntersInside r → r ≡ err e → e ≢ out_of_fuel
    shown (ok m) h at = cc
    shown (err x) (outside o) at = λ f. IsOwn-not_fuel x o (ap error at ∙ f)

entry-IsInside : {r : Result Machine} {m : Machine} → EntersInside r → r ≡ ok m → IsInside m
entry-IsInside {r = r} {m} h at = kept r h at
  where
    machine : Result Machine → Machine
    machine (ok n) = n
    machine (err y) = m

    kept : (r : Result Machine) → EntersInside r → r ≡ ok m → IsInside m
    kept (ok n) (inside i) at = subst IsInside (ap machine at) i
    kept (err x) h at = cc

module _ {W : Type 0} (unit : FloatUnit) (host : Host W) (own : HostIsOwn host) where
  step-IsInside :
      (m m' : Machine) (next : Next) → step unit m ≡ ok (next, m') → IsInside m → IsInside m'
  step-IsInside m m' next at h = kept (step unit m) at ((step-Steady unit).at m h)
    where
      kept : (r : Result (Next × Machine)) → r ≡ ok (next, m') → Ordinary IsInside r → IsInside m'
      kept (ok (k, n)) e (stands i) = subst IsInside (ap second e) i
        where
          second : Result (Next × Machine) → Machine
          second (ok (k, n)) = n
          second (err e) = m'
      kept (err e) at o = cc

  step-own : (m : Machine) (e : Error) → step unit m ≡ err e → IsInside m → e ≢ out_of_fuel
  step-own m e at h = shown (step unit m) at ((step-Steady unit).at m h)
    where
      shown : (r : Result (Next × Machine)) → r ≡ err e → Ordinary IsInside r → e ≢ out_of_fuel
      shown (ok (k, n)) at o = cc
      shown (err x) at (refused o) = λ f. IsOwn-not_fuel x o (ap error at ∙ f)
        where
          error : Result (Next × Machine) → Error
          error (ok p) = e
          error (err y) = y

  Ends-FailsOwn :
      {c : Configuration W} {o : Outcome W} → Ends unit host c o → StartsInside c → FailsOwn o
  unfolding push_call_results
  Ends-FailsOwn (no_function missing) h = λ e. cc
  Ends-FailsOwn (by_host f id at body) h = host-FailsOwn host own id _ _ _
  Ends-FailsOwn (not_entered f code at body fails) h = entry-own (enter_code-Inside _ _ _ _) fails
  Ends-FailsOwn (entered f code at body starts rest) h =
      Ends-FailsOwn rest (entry-IsInside (enter_code-Inside _ _ _ _) starts)
  Ends-FailsOwn (stops at) h = step-own _ _ at h
  Ends-FailsOwn (goes_on at rest) h = Ends-FailsOwn rest (step-IsInside _ _ _ at h)
  Ends-FailsOwn (gives_back at) h = tt
  Ends-FailsOwn (resumes at callee rest) h =
      Ends-FailsOwn rest (record { inside = (step-IsInside _ _ _ at h).inside })
  Ends-FailsOwn (gives_up at callee) h = Ends-FailsOwn callee tt

  -- A call of any function, on any fuel, that fails, fails with an error of the program's own (a
  -- trap, a runtime error or a read out of range) and never because a loop inside an instruction
  -- ran out of fuel, if the host's callbacks throw no such error.
  pub execute_function-FailsOwn :
      (fuel index : ℕ) (args : List Value) (w : W) (s : Store)
      → FailsOwn (execute_function unit host fuel index args w s)
  execute_function-FailsOwn fuel index args w s =
      by_outcome (execute_function unit host fuel index args w s) refl
    where
      derived :
          (o : Outcome W)
          → execute_function unit host fuel index args w s ≡ o
          → o ≢ exhausted
          → FailsOwn o
      derived o at ends =
          Ends-FailsOwn
            ((execute_function-adequate unit host index args w s o).0 (fuel, (at, ends))) tt

      by_outcome : (o : Outcome W) → execute_function unit host fuel index args w s ≡ o → FailsOwn o
      by_outcome (done values v t) at = tt
      by_outcome (failed e v t) at = derived (failed e v t) at (λ h. cc)
      by_outcome exhausted at = tt
