-- ===== src/Embed/Invoke.antt =====
-- src/interpreter.cpp: `load`, `invoke` and `memory`. An instance is what `load` leaves behind.
use web_assembly_interpreter.Base.{
  Bool, Error, List, Option, String, [], err, false, none, ok, out_of_fuel, out_of_range,
  runtime_error, some, trap, true, ℕ, ◌∷◌,
}
use web_assembly_interpreter.Embed.Instantiate.{
  ExportTable, build_export_table, empty_store, instantiate_store,
}
use web_assembly_interpreter.Embed.Registry.{Registry, find_key}
use web_assembly_interpreter.Exec.Run.{Host, Outcome, done, execute_function, exhausted, failed}
use web_assembly_interpreter.Loader.Parse.{parse_module}
use web_assembly_interpreter.Module.{ExternalKind, Module, function_kind}
use web_assembly_interpreter.Numeric.Float.{FloatUnit}
use web_assembly_interpreter.Store.{Store}
use web_assembly_interpreter.Types.{Value}

pub record Instance : Type 0 where
  pub wasm_module : Module
  pub store : Store
  pub export_table : ExportTable

-- What `load` leaves behind: an instance, with the host's state, or an error.
pub data Loaded (W : Type 0) : Type 0 where
  loaded : Instance → W → Loaded W
  load_failed : Error → Loaded W
  load_exhausted : Loaded W

pub record ExecutionResult : Type 0 where
  pub trapped : Bool
  pub trap_message : String
  pub values : List Value

-- A trap comes back as a result; any other exception leaves `invoke`.
pub data Invocation (W : Type 0) : Type 0 where
  answered : ExecutionResult → W → Store → Invocation W
  escaped : Error → W → Store → Invocation W
  unanswered : Invocation W

abbrev pub returned_values : List Value → ExecutionResult
returned_values vs = record { trapped = false; trap_message = ""; values = vs }

abbrev pub trapped_with : String → ExecutionResult
trapped_with message = record { trapped = true; trap_message = message; values = [] }

module _ {W : Type 0} (unit : FloatUnit) (host : Host W) (fuel : ℕ) where
  -- the start function, behind the rest of `instantiate`
  unfoldable pub run_start : Module → ExportTable → W → Store → Loaded W
  run_start m exports w s = elim m.start_function [
    | none ↦ loaded (record { wasm_module = m; store = s; export_table = exports }) w
    | some index ↦ elim (execute_function unit host fuel index [] w s) [
      | done values v t ↦ loaded (record { wasm_module = m; store = t; export_table = exports }) v
      | failed e v t ↦ load_failed e
      | exhausted ↦ load_exhausted
    ]
  ]

  unfoldable pub instantiate : Registry → Module → W → Loaded W
  instantiate r m w = elim (instantiate_store r m (empty_store m.types)) [
    | ok (_, s) ↦ run_start m (build_export_table m.exports []) w s
    | err e ↦ load_failed e
  ]

  unfoldable pub load : Registry → List ℕ → W → Loaded W
  load r wasm_binary w = elim (parse_module wasm_binary) [
    | ok m ↦ instantiate r m w
    | err e ↦ load_failed e
  ]

  abbrev pub invocation_of : Outcome W → Invocation W
  invocation_of (done values w s) = answered (returned_values values) w s
  invocation_of (failed (trap message) w s) = answered (trapped_with message) w s
  invocation_of (failed (runtime_error message) w s) = escaped (runtime_error message) w s
  invocation_of (failed (out_of_range message) w s) = escaped (out_of_range message) w s
  invocation_of (failed out_of_fuel w s) = escaped out_of_fuel w s
  invocation_of exhausted = unanswered

  abbrev pub invoke_export : Instance → List Value → W → Option (ExternalKind × ℕ) → Invocation W
  invoke_export i args w none = answered (trapped_with "Export not found: ") w i.store
  invoke_export i args w (some (function_kind, index)) =
      invocation_of (execute_function unit host fuel index args w i.store)
  invoke_export i args w (some (other, index)) =
      answered (trapped_with "Export is not a function: ") w i.store

  unfoldable pub invoke : Instance → List ℕ → List Value → W → Invocation W
  invoke i export_name args w = invoke_export i args w (find_key export_name i.export_table)

-- the bytes of the first memory
unfoldable pub memory_view : Store → List ℕ
memory_view s = elim s.memories [ [] ↦ [] | m ∷ ms ↦ m.contents ]
