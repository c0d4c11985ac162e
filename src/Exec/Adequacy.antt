-- ===== src/Exec/Adequacy.antt =====
-- The code on fuel against the rules with none.
use web_assembly_interpreter.Base.{
  List, Option, Result, ap, arith, err, get_elem?, none, ok, refl, some, suc, sym, zero, ℕ, ◌+◌,
  ◌∙◌, ◌≡◌, ◌≢◌,
}
use web_assembly_interpreter.Exec.Derivation.{
  Configuration, Ends, by_host, calling, entered, gives_back, gives_up, goes_on, no_function,
  not_entered, resumes, running, stops,
}
use web_assembly_interpreter.Exec.Fuel.{execute_function-fuel, run_loop-fuel}
use web_assembly_interpreter.Exec.Machine.{Machine, Next, call, finished, go}
use web_assembly_interpreter.Exec.Run.{
  Host, HostResult, Outcome, after_call, after_step, done, enter_code, enter_function,
  execute_function, exhausted, failed, host_outcome, host_returned, host_thrown, host_trapped,
  push_call_results, run_entered, run_loop,
}
use web_assembly_interpreter.Exec.Step.{step}
use web_assembly_interpreter.Module.{Code}
use web_assembly_interpreter.Numeric.Float.{FloatUnit}
use web_assembly_interpreter.Store.{FunctionBody, FunctionInstance, Store, host_code, wasm_code}
use web_assembly_interpreter.Types.{Value}
use mathlib.Core.Path.{subst}
use mathlib.Core.Logic.{◌↔◌}

module _ {W : Type 0} (unit : FloatUnit) (host : Host W) where
  abbrev pub on_fuel : ℕ → Configuration W → Outcome W
  on_fuel fuel (calling index args w s) = execute_function unit host fuel index args w s
  on_fuel fuel (running w m) = run_loop unit host fuel w m

  host_outcome-ends : (r : HostResult × (W × Store)) → host_outcome r ≢ exhausted
  host_outcome-ends (host_returned values, (w, s)) = λ e. cc
  host_outcome-ends (host_trapped message, (w, s)) = λ e. cc
  host_outcome-ends (host_thrown error, (w, s)) = λ e. cc

  Ends-not_exhausted : {c : Configuration W} {o : Outcome W} → Ends unit host c o → o ≢ exhausted
  Ends-not_exhausted (no_function missing) = λ e. cc
  Ends-not_exhausted (by_host f id at body) = host_outcome-ends _
  Ends-not_exhausted (not_entered f code at body fails) = λ e. cc
  Ends-not_exhausted (entered f code at body starts rest) = Ends-not_exhausted rest
  Ends-not_exhausted (stops at) = λ e. cc
  Ends-not_exhausted (goes_on at rest) = Ends-not_exhausted rest
  Ends-not_exhausted (gives_back at) = λ e. cc
  Ends-not_exhausted (resumes at callee rest) = Ends-not_exhausted rest
  Ends-not_exhausted (gives_up at callee) = λ e. cc

  -- From the code to the rules.
  module _ (fuel : ℕ)
      (runs : (w : W) (m : Machine)
        → run_loop unit host fuel w m ≢ exhausted
        → Ends unit host (running w m) (run_loop unit host fuel w m))
      (executes : (index : ℕ) (args : List Value) (w : W) (s : Store)
        → execute_function unit host fuel index args w s ≢ exhausted
        → Ends unit host
            (calling index args w s)
            (execute_function unit host fuel index args w s)) where
    call-Ends :
        (w : W) (m m' : Machine) (index : ℕ) (args : List Value)
        → step unit m ≡ ok (call index args, m')
        → (o : Outcome W) → (o ≢ exhausted → Ends unit host (calling index args w m'.store) o)
        → after_call (run_loop unit host fuel) m' o ≢ exhausted
        → Ends unit host (running w m) (after_call (run_loop unit host fuel) m' o)
    call-Ends w m m' index args at (done values w' s) callee ends =
        resumes at (callee (λ e. cc)) (runs w' (push_call_results values s m') ends)
    call-Ends w m m' index args at (failed e w' s) callee ends = gives_up at (callee (λ e. cc))
    call-Ends w m m' index args at exhausted callee ends = absurd (ends refl)

    step-Ends :
        (w : W) (m : Machine) (r : Result (Next × Machine))
        → step unit m ≡ r
        → after_step (run_loop unit host fuel) (execute_function unit host fuel) w m.store r
          ≢ exhausted
        → Ends unit host
            (running w m)
            (after_step (run_loop unit host fuel) (execute_function unit host fuel) w m.store r)
    step-Ends w m (err e) at ends = stops at
    step-Ends w m (ok (go, m')) at ends = goes_on at (runs w m' ends)
    step-Ends w m (ok (finished values, m')) at ends = gives_back at
    step-Ends w m (ok (call index args, m')) at ends =
        call-Ends w m m' index args at (execute_function unit host fuel index args w m'.store)
          (executes index args w m'.store) ends

    entry-Ends :
        (index : ℕ) (args : List Value) (w : W) (s : Store) (f : FunctionInstance) (code : Code)
        → get_elem? s.functions index ≡ some f
        → f.body ≡ wasm_code code
        → (r : Result Machine) → enter_code f.signature code args s ≡ r
        → run_entered (run_loop unit host fuel) w s r ≢ exhausted
        → Ends unit host (calling index args w s) (run_entered (run_loop unit host fuel) w s r)
    entry-Ends index args w s f code at body (ok m) starts ends =
        entered f code at body starts (runs w m ends)
    entry-Ends index args w s f code at body (err e) starts ends = not_entered f code at body starts

    body-Ends :
        (index : ℕ) (args : List Value) (w : W) (s : Store) (f : FunctionInstance)
        → get_elem? s.functions index ≡ some f
        → (b : FunctionBody) → f.body ≡ b
        → elim b [
          | host_code id ↦ host_outcome (host id args (w, s))
          | wasm_code code ↦
              run_entered (run_loop unit host fuel) w s (enter_code f.signature code args s)
        ]
          ≢ exhausted
        → Ends unit host (calling index args w s) (elim b [
          | host_code id ↦ host_outcome (host id args (w, s))
          | wasm_code code ↦
              run_entered (run_loop unit host fuel) w s (enter_code f.signature code args s)
        ])
    body-Ends index args w s f at (host_code id) body ends = by_host f id at body
    body-Ends index args w s f at (wasm_code code) body ends =
        entry-Ends index args w s f code at body (enter_code f.signature code args s) refl ends

    function-Ends :
        (index : ℕ) (args : List Value) (w : W) (s : Store) (o : Option FunctionInstance)
        → get_elem? s.functions index ≡ o
        → enter_function host (run_loop unit host fuel) o args w s ≢ exhausted
        → Ends unit host
            (calling index args w s)
            (enter_function host (run_loop unit host fuel) o args w s)
    unfolding enter_function
    function-Ends index args w s none at ends = no_function at
    function-Ends index args w s (some f) at ends = body-Ends index args w s f at f.body refl ends

  mutual
    unfolding execute_function

    execute-Ends :
        (fuel index : ℕ) (args : List Value) (w : W) (s : Store)
        → execute_function unit host fuel index args w s ≢ exhausted
        → Ends unit host (calling index args w s) (execute_function unit host fuel index args w s)
    execute-Ends zero index args w s ends = absurd (ends refl)
    execute-Ends (suc fuel) index args w s ends =
        function-Ends fuel (loop-Ends fuel) (execute-Ends fuel) index args w s
          (get_elem? s.functions index) refl ends

    loop-Ends :
        (fuel : ℕ) (w : W) (m : Machine)
        → run_loop unit host fuel w m ≢ exhausted
        → Ends unit host (running w m) (run_loop unit host fuel w m)
    loop-Ends zero w m ends = absurd (ends refl)
    loop-Ends (suc fuel) w m ends =
        step-Ends fuel (loop-Ends fuel) (execute-Ends fuel) w m (step unit m) refl ends

  -- From the rules to the code.
  swap : (a b : ℕ) → a + b ≡ b + a
  swap a b = omega arith

  reached :
      (fuel more : ℕ) (c : Configuration W) (o : Outcome W)
      → o ≢ exhausted
      → on_fuel fuel c ≡ o
      → on_fuel (fuel + more) c ≡ o
  reached fuel more (calling index args w s) o ends at =
      execute_function-fuel unit host fuel more index args w s (λ e. ends (sym at ∙ e)) ∙ at
  reached fuel more (running w m) o ends at =
      run_loop-fuel unit host fuel more w m (λ e. ends (sym at ∙ e)) ∙ at

  reached' :
      (fuel more : ℕ) (c : Configuration W) (o : Outcome W)
      → o ≢ exhausted
      → on_fuel fuel c ≡ o
      → on_fuel (more + fuel) c ≡ o
  reached' fuel more c o ends at =
      subst (λ n. on_fuel n c ≡ o) (swap fuel more) (reached fuel more c o ends at)

  resumed :
      (n k : ℕ) (w : W) (m : Machine) {w' : W} {m' : Machine} {index : ℕ} {args values : List Value}
      {s : Store} {o : Outcome W}
      → step unit m ≡ ok (call index args, m')
      → execute_function unit host n index args w m'.store ≡ done values w' s
      → run_loop unit host k w' (push_call_results values s m') ≡ o
      → o ≢ exhausted
      → run_loop unit host (suc (n + k)) w m ≡ o
  unfolding execute_function
  resumed n k w m {w'} {m'} {index} {args} {values} {s} {o} at h j ends = rw at (
      ap (after_call (run_loop unit host (n + k)) m')
        (reached n k (calling index args w m'.store) (done values w' s) (λ e. cc) h)
      ∙ reached' k n (running w' (push_call_results values s m')) o ends j)

  Ends-on_fuel :
      {c : Configuration W} {o : Outcome W} → Ends unit host c o → (fuel : ℕ) × (on_fuel fuel c ≡ o)
  unfolding execute_function enter_function
  Ends-on_fuel (no_function missing) = (1, rw missing refl)
  Ends-on_fuel (by_host f id at body) = (1, rw at (rw body refl))
  Ends-on_fuel (not_entered f code at body fails) = (1, rw at (rw body (rw fails refl)))
  Ends-on_fuel (entered f code at body starts rest) =
      let (n, h) = Ends-on_fuel rest in (suc n, rw at (rw body (rw starts h)))
  Ends-on_fuel (stops at) = (1, rw at refl)
  Ends-on_fuel (goes_on at rest) = let (n, h) = Ends-on_fuel rest in (suc n, rw at h)
  Ends-on_fuel (gives_back at) = (1, rw at refl)
  Ends-on_fuel (resumes at callee rest) =
      let (n, h) = Ends-on_fuel callee in
      let (k, j) = Ends-on_fuel rest in
      (suc (n + k), resumed n k _ _ at h j (Ends-not_exhausted rest))
  Ends-on_fuel (gives_up at callee) = let (n, h) = Ends-on_fuel callee in (suc n, rw at (rw h refl))

  -- The code and the rules agree: a call ends in `o` on some fuel, `o` other than out of fuel,
  -- exactly where the rules, which have no fuel, derive `o` for it.
  pub execute_function-adequate :
      (index : ℕ) (args : List Value) (w : W) (s : Store) (o : Outcome W)
      → ((fuel : ℕ) × ((execute_function unit host fuel index args w s ≡ o) × (o ≢ exhausted)))
        ↔ Ends unit host (calling index args w s) o
  execute_function-adequate index args w s o = (
    λ (fuel, (at, ends)).
        subst (Ends unit host (calling index args w s)) at
          (execute-Ends fuel index args w s (λ e. ends (sym at ∙ e))),
    λ h. let (fuel, at) = Ends-on_fuel h in (fuel, (at, Ends-not_exhausted h)),
  )
