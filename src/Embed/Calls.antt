-- ===== src/Embed/Calls.antt =====
-- What an invocation leaves behind, and which errors leave it.
use web_assembly_interpreter.Base.{
  Bool, Error, List, Option, String, [], false, none, out_of_fuel, out_of_range, refl,
  runtime_error, some, trap, true, ℕ, ◌≡◌,
}
use web_assembly_interpreter.Embed.Invoke.{
  ExecutionResult, Instance, Invocation, answered, escaped, invocation_of, invoke, invoke_export,
  unanswered,
}
use web_assembly_interpreter.Embed.Registry.{find_key}
use web_assembly_interpreter.Exec.Run.{Host, Outcome, done, execute_function, exhausted, failed}
use web_assembly_interpreter.Exec.Safety.{HostExtends, LeavesExtended, execute_function-Extends}
use web_assembly_interpreter.Module.{
  ExternalKind, function_kind, global_kind, memory_kind, other_kind, table_kind,
}
use web_assembly_interpreter.Numeric.Float.{FloatUnit}
use web_assembly_interpreter.Store.{Store}
use web_assembly_interpreter.Store.Extends.{Extends}
use web_assembly_interpreter.Types.{Value}

abbrev pub is_trap : Error → Bool
is_trap (trap message) = true
is_trap e = false

abbrev pub is_function : Option (ExternalKind × ℕ) → Bool
is_function (some (function_kind, index)) = true
is_function _ = false

module _ {W : Type 0} (unit : FloatUnit) (host : Host W) (fuel : ℕ) (i : Instance)
    (args : List Value) (w : W) where
  -- What an invocation of what a name stands for must have come from: values from a call that is
  -- done, a trap from a call that traps or from a name that is no function's, any other error from
  -- a call that fails with it, and nothing from a call on too little fuel. The store extends the
  -- old one.
  pub data IsAccount : Option (ExternalKind × ℕ) → Invocation W → Type 0 where
    values_of :
        {index : ℕ} {values : List Value} {v : W} {t : Store} {r : ExecutionResult}
        → execute_function unit host fuel index args w i.store ≡ done values v t
        → r.trapped ≡ false
        → r.values ≡ values
        → Extends i.store t
        → IsAccount (some (function_kind, index)) (answered r v t)
    trap_of :
        {index : ℕ} {message : String} {v : W} {t : Store} {r : ExecutionResult}
        → execute_function unit host fuel index args w i.store ≡ failed (trap message) v t
        → r.trapped ≡ true
        → r.trap_message ≡ message
        → r.values ≡ []
        → Extends i.store t
        → IsAccount (some (function_kind, index)) (answered r v t)
    error_of :
        {index : ℕ} {e : Error} {v : W} {t : Store}
        → execute_function unit host fuel index args w i.store ≡ failed e v t
        → is_trap e ≡ false
        → Extends i.store t
        → IsAccount (some (function_kind, index)) (escaped e v t)
    no_end :
        {index : ℕ}
        → execute_function unit host fuel index args w i.store ≡ exhausted
        → IsAccount (some (function_kind, index)) unanswered
    no_function :
        {found : Option (ExternalKind × ℕ)} {r : ExecutionResult}
        → is_function found ≡ false
        → r.trapped ≡ true
        → r.values ≡ []
        → IsAccount found (answered r w i.store)

  outcome-IsAccount :
      (index : ℕ) (o : Outcome W)
      → execute_function unit host fuel index args w i.store ≡ o
      → LeavesExtended i.store o
      → IsAccount (some (function_kind, index)) (invocation_of unit host fuel o)
  outcome-IsAccount index (done values v t) at h = values_of at refl refl h
  outcome-IsAccount index (failed (trap message) v t) at h = trap_of at refl refl refl h
  outcome-IsAccount index (failed (runtime_error message) v t) at h = error_of at refl h
  outcome-IsAccount index (failed (out_of_range message) v t) at h = error_of at refl h
  outcome-IsAccount index (failed out_of_fuel v t) at h = error_of at refl h
  outcome-IsAccount index exhausted at h = no_end at

  export-IsAccount :
      (polite : HostExtends host) (o : Option (ExternalKind × ℕ))
      → IsAccount o (invoke_export unit host fuel i args w o)
  export-IsAccount polite none = no_function refl refl refl
  export-IsAccount polite (some (function_kind, index)) =
      outcome-IsAccount index _ refl
        (execute_function-Extends unit host polite fuel index args w i.store)
  export-IsAccount polite (some (table_kind, index)) = no_function refl refl refl
  export-IsAccount polite (some (memory_kind, index)) = no_function refl refl refl
  export-IsAccount polite (some (global_kind, index)) = no_function refl refl refl
  export-IsAccount polite (some (other_kind b, index)) = no_function refl refl refl

  -- If every host callback extends the store, invoking any name with any arguments tells how the
  -- call ended: a result with values and no trap comes from a call of the exported function that is
  -- done with them, a result with a trap and no values from a call that traps with its message or
  -- from a name that no function is exported under, and an error escapes where the call fails with
  -- it and it is no trap. The store that is left extends the instance's, and is the same where no
  -- function is called.
  pub invoke-IsAccount :
      (polite : HostExtends host) (export_name : List ℕ)
      → IsAccount (find_key export_name i.export_table) (invoke unit host fuel i export_name args w)
  unfolding invoke
  invoke-IsAccount polite export_name =
      export-IsAccount polite (find_key export_name i.export_table)
