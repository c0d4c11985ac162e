-- ===== src/Exec/Fuel.antt =====
-- Runs of a function on different fuel.
use web_assembly_interpreter.Base.{
  List, Option, Result, ap, arith, err, get_elem?, none, ok, refl, some, suc, sym, zero, ℕ, ◌+◌,
  ◌≡◌, ◌≢◌,
}
use web_assembly_interpreter.Exec.Machine.{Machine, Next, call, finished, go}
use web_assembly_interpreter.Exec.Run.{
  Host, Outcome, after_call, after_step, done, enter_code, enter_function, execute_function,
  exhausted, failed, host_outcome, push_call_results, run_entered, run_loop,
}
use web_assembly_interpreter.Exec.Step.{step}
use web_assembly_interpreter.Numeric.Float.{FloatUnit}
use web_assembly_interpreter.Store.{FunctionInstance, Store, host_code, wasm_code}
use web_assembly_interpreter.Types.{Value}
use mathlib.Core.Path.{subst}

module _ {W : Type 0} where
  -- `p` is what `o` comes to with more fuel.
  abbrev Refines : Outcome W → Outcome W → Type 0
  Refines (done values w s) p = p ≡ done values w s
  Refines (failed e w s) p = p ≡ failed e w s
  Refines exhausted p = Unit

  Refines-refl : (o : Outcome W) → Refines o o
  Refines-refl (done values w s) = refl
  Refines-refl (failed e w s) = refl
  Refines-refl exhausted = tt

module _ {W : Type 0} (loop loop' : W → Machine → Outcome W)
    (execute execute' : ℕ → List Value → W → Store → Outcome W)
    (hl : (w : W) (m : Machine) → Refines (loop w m) (loop' w m))
    (he : (i : ℕ) (args : List Value) (w : W) (s : Store)
      → Refines (execute i args w s) (execute' i args w s)) where
  after_call-Refines :
      (m : Machine) (o p : Outcome W)
      → Refines o p
      → Refines (after_call loop m o) (after_call loop' m p)
  after_call-Refines m (done values w s) p h =
      subst (λ p. Refines (loop w (push_call_results values s m)) (after_call loop' m p)) (sym h)
        (hl w (push_call_results values s m))
  after_call-Refines m (failed e w s) p h = ap (after_call loop' m) h
  after_call-Refines m exhausted p h = tt

  after_step-Refines :
      (w : W) (s : Store) (r : Result (Next × Machine))
      → Refines (after_step loop execute w s r) (after_step loop' execute' w s r)
  after_step-Refines w s (err e) = refl
  after_step-Refines w s (ok (go, m)) = hl w m
  after_step-Refines w s (ok (finished values, m)) = refl
  after_step-Refines w s (ok (call i args, m)) =
      after_call-Refines m (execute i args w m.store) (execute' i args w m.store)
        (he i args w m.store)

  run_entered-Refines :
      (w : W) (s : Store) (r : Result Machine)
      → Refines (run_entered loop w s r) (run_entered loop' w s r)
  run_entered-Refines w s (ok m) = hl w m
  run_entered-Refines w s (err e) = refl

  enter-Refines :
      (host : Host W) (o : Option FunctionInstance) (args : List Value) (w : W) (s : Store)
      → Refines (enter_function host loop o args w s) (enter_function host loop' o args w s)
  unfolding enter_function
  enter-Refines host none args w s = refl
  enter-Refines host (some f) args w s =
      elim f.body
        as (λ b.
          Refines
            (elim b [
              | host_code id ↦ host_outcome (host id args (w, s))
              | wasm_code code ↦ run_entered loop w s (enter_code f.signature code args s)
            ])
            (elim b [
              | host_code id ↦ host_outcome (host id args (w, s))
              | wasm_code code ↦ run_entered loop' w s (enter_code f.signature code args s)
            ])) [
              | host_code id ↦ Refines-refl (host_outcome (host id args (w, s)))
              | wasm_code code ↦ run_entered-Refines w s (enter_code f.signature code args s)
            ]

suc-add : (a b : ℕ) → suc (a + b) ≡ suc a + b
suc-add a b = omega arith

module _ {W : Type 0} (unit : FloatUnit) (host : Host W) where
  mutual
    unfolding execute_function

    execute-Refines :
        (fuel more index : ℕ) (args : List Value) (w : W) (s : Store)
        → Refines
            (execute_function unit host fuel index args w s)
            (execute_function unit host (fuel + more) index args w s)
    execute-Refines zero more index args w s = tt
    execute-Refines (suc fuel) more index args w s =
        subst
          (λ n.
            Refines (execute_function unit host (suc fuel) index args w s)
              (execute_function unit host n index args w s))
          (suc-add fuel more)
          (enter-Refines _ _ _ _ (loop-Refines fuel more) (execute-Refines fuel more) host
            (get_elem? s.functions index) args w s)

    loop-Refines :
        (fuel more : ℕ) (w : W) (m : Machine)
        → Refines (run_loop unit host fuel w m) (run_loop unit host (fuel + more) w m)
    loop-Refines zero more w m = tt
    loop-Refines (suc fuel) more w m =
        subst (λ n. Refines (run_loop unit host (suc fuel) w m) (run_loop unit host n w m))
          (suc-add fuel more)
          (after_step-Refines _ _ _ _ (loop-Refines fuel more) (execute-Refines fuel more) w m.store
            (step unit m))

  settle : (o p : Outcome W) → o ≢ exhausted → Refines o p → p ≡ o
  settle (done values w t) p h r = r
  settle (failed e w t) p h r = r
  settle exhausted p h r = absurd (h refl)

  -- A call that ends on some fuel, by a return or a throw, ends the same way, with the same
  -- results or error, the same host state and the same store, on any larger fuel.
  pub execute_function-fuel :
      (fuel more index : ℕ) (args : List Value) (w : W) (s : Store)
      → execute_function unit host fuel index args w s ≢ exhausted
      → execute_function unit host (fuel + more) index args w s
        ≡ execute_function unit host fuel index args w s
  execute_function-fuel fuel more index args w s ends =
      settle _ _ ends (execute-Refines fuel more index args w s)

  -- The same for the rounds of one activation.
  pub run_loop-fuel :
      (fuel more : ℕ) (w : W) (m : Machine)
      → run_loop unit host fuel w m ≢ exhausted
      → run_loop unit host (fuel + more) w m ≡ run_loop unit host fuel w m
  run_loop-fuel fuel more w m ends = settle _ _ ends (loop-Refines fuel more w m)
