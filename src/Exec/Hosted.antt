-- ===== src/Exec/Hosted.antt =====
-- Runs of a function, and a condition on the host's state.
use web_assembly_interpreter.Base.{List, refl, ℕ, ◌≡◌, ◌≢◌}
use web_assembly_interpreter.Exec.Adequacy.{execute_function-adequate}
use web_assembly_interpreter.Exec.Derivation.{
  Configuration, Ends, by_host, calling, entered, gives_back, gives_up, goes_on, no_function,
  not_entered, resumes, running, stops,
}
use web_assembly_interpreter.Exec.Run.{
  Host, HostResult, Outcome, done, execute_function, exhausted, failed, host_outcome, host_returned,
  host_thrown, host_trapped,
}
use web_assembly_interpreter.Numeric.Float.{FloatUnit}
use web_assembly_interpreter.Store.{Store}
use web_assembly_interpreter.Types.{Value}

module _ {W : Type 0} (P : W → Type 0) where
  -- The host's state, where a run ends.
  abbrev pub LeavesState : Outcome W → Type 0
  LeavesState (done values w s) = P w
  LeavesState (failed e w s) = P w
  LeavesState exhausted = Unit

  abbrev StartsState : Configuration W → Type 0
  StartsState (calling index args w s) = P w
  StartsState (running w m) = P w

  host_outcome-State : (r : HostResult × (W × Store)) → P r.1.0 → LeavesState (host_outcome r)
  host_outcome-State (host_returned values, (w, s)) h = h
  host_outcome-State (host_trapped message, (w, s)) h = h
  host_outcome-State (host_thrown error, (w, s)) h = h

module _ {W : Type 0} (P : W → Type 0) (unit : FloatUnit) (host : Host W)
    (keeps : (id : ℕ) (args : List Value) (w : W) (s : Store)
      → P w
      → P (host id args (w, s)).1.0) where
  Ends-LeavesState :
      {c : Configuration W} {o : Outcome W} → Ends unit host c o → StartsState P c → LeavesState P o
  Ends-LeavesState (no_function missing) h = h
  Ends-LeavesState (by_host f id at body) h = host_outcome-State P _ (keeps id _ _ _ h)
  Ends-LeavesState (not_entered f code at body fails) h = h
  Ends-LeavesState (entered f code at body starts rest) h = Ends-LeavesState rest h
  Ends-LeavesState (stops at) h = h
  Ends-LeavesState (goes_on at rest) h = Ends-LeavesState rest h
  Ends-LeavesState (gives_back at) h = h
  Ends-LeavesState (resumes at callee rest) h = Ends-LeavesState rest (Ends-LeavesState callee h)
  Ends-LeavesState (gives_up at callee) h = Ends-LeavesState callee h

  pub execute_function-LeavesState :
      (fuel index : ℕ) (args : List Value) (w : W) (s : Store)
      → P w
      → LeavesState P (execute_function unit host fuel index args w s)
  execute_function-LeavesState fuel index args w s h =
      by_outcome (execute_function unit host fuel index args w s) refl
    where
      derived :
          (o : Outcome W)
          → execute_function unit host fuel index args w s ≡ o
          → o ≢ exhausted
          → LeavesState P o
      derived o at ends =
          Ends-LeavesState
            ((execute_function-adequate unit host index args w s o).0 (fuel, (at, ends))) h

      by_outcome :
          (o : Outcome W) → execute_function unit host fuel index args w s ≡ o → LeavesState P o
      by_outcome (done values v t) at = derived (done values v t) at (λ e. cc)
      by_outcome (failed e v t) at = derived (failed e v t) at (λ e. cc)
      by_outcome exhausted at = tt
