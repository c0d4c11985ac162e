-- ===== src/Runner/Runs.antt =====
-- Runs of a function with the runner as its host.
use web_assembly_interpreter.Base.{List, ℕ}
use web_assembly_interpreter.Exec.Hosted.{LeavesState, execute_function-LeavesState}
use web_assembly_interpreter.Exec.Run.{execute_function}
use web_assembly_interpreter.Exec.Safety.{LeavesExtended, execute_function-Extends}
use web_assembly_interpreter.Numeric.Float.{FloatUnit}
use web_assembly_interpreter.Runner.Host.{runner_host}
use web_assembly_interpreter.Runner.Kept.{IsSound}
use web_assembly_interpreter.Runner.Safety.{runner_host-IsSafe}
use web_assembly_interpreter.Runner.World.{Setting, System, WasiState}
use web_assembly_interpreter.Store.{Store}
use web_assembly_interpreter.Types.{Value}

module _ {S : Type 0} (unit : FloatUnit) (os : System S) (setting : Setting) where
  runner-IsSound :
      (id : ℕ) (args : List Value) (w : WasiState S) (s : Store)
      → IsSound w
      → IsSound (runner_host os setting id args (w, s)).1.0
  runner-IsSound id args w s = (runner_host-IsSafe os setting id args w s).sound

  -- Running any function of any store with the runner as its host, on any fuel and however it ends,
  -- leaves a store that extends the one it began with, and a sound table of open files if it began
  -- with one.
  pub execute_function-IsSound :
      (fuel index : ℕ) (args : List Value) (w : WasiState S) (s : Store)
      → IsSound w
      → LeavesExtended s (execute_function unit (runner_host os setting) fuel index args w s)
        × LeavesState IsSound (execute_function unit (runner_host os setting) fuel index args w s)
  execute_function-IsSound fuel index args w s h = (
    execute_function-Extends unit (runner_host os setting)
        (λ id args w s. (runner_host-IsSafe os setting id args w s).store.extends) fuel index args w
        s,
    execute_function-LeavesState IsSound unit (runner_host os setting) runner-IsSound fuel index
        args w s h,
  )
