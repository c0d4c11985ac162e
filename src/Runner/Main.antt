-- ===== src/Runner/Main.antt =====
-- examples/run_wat_module.cpp: `main`, without what it prints. The file's bytes come from a
-- parameter.
use web_assembly_interpreter.Base.{
  Error, List, Result, [], err, if◌then◌else◌, length, none, ok, runtime_error, some, ℕ, ◌==◌, ◌∷◌,
}
use web_assembly_interpreter.Embed.Invoke.{
  ExecutionResult, Invocation, answered, escaped, invoke, load, load_exhausted, load_failed, loaded,
  unanswered,
}
use web_assembly_interpreter.Embed.Registry.{Registry, register_host_function}
use web_assembly_interpreter.Loader.Parse.{parse_module}
use web_assembly_interpreter.Module.{Module}
use web_assembly_interpreter.Numeric.Float.{FloatUnit}
use web_assembly_interpreter.Runner.Host.{register_all, runner_host, wasi_module}
use web_assembly_interpreter.Runner.Modules.{
  detect_default_export, export_function_type, validate_arguments,
}
use web_assembly_interpreter.Runner.Options.{
  NumberParsers, Options, bad_options, parse_options, parsed, usage,
}
use web_assembly_interpreter.Runner.World.{Setting, System, WasiState, start_state}
use web_assembly_interpreter.Types.{i32}

-- How the program ends.
pub data Ending : Type 0 where
  usage_shown : Ending
  failed_with : Error → Ending
  not_run : Ending
  finished_with : ExecutionResult → Ending
  out_of_steps : Ending

-- "the export that is asked for, or the default one"
unfoldable pub choose_export : Options → Module → Result (List ℕ)
choose_export options m = elim options.export_name [
  | some name ↦ ok name
  | none ↦
      if length (detect_default_export m) == 0
      then err (runtime_error "module exports no functions")
      else ok (detect_default_export m)
]

-- the checks of the export before anything is loaded
unfoldable pub check_call : Options → Module → Result (List ℕ)
check_call options m = elim (choose_export options m) [
  | err e ↦ err e
  | ok name ↦ elim (export_function_type m name) [
    | none ↦ err (runtime_error "export is not a function")
    | some signature ↦ elim (validate_arguments signature options.call_args) [
      | err e ↦ err e
      | ok u ↦ ok name
    ]
  ]
]

-- The registry of a new interpreter: `fd_write` and `proc_exit`, under the numbers 0 and 1.
abbrev pub fd_write_name : List ℕ
fd_write_name = 0x66 ∷ 0x64 ∷ 0x5F ∷ 0x77 ∷ 0x72 ∷ 0x69 ∷ 0x74 ∷ 0x65 ∷ []

abbrev pub proc_exit_name : List ℕ
proc_exit_name = 0x70 ∷ 0x72 ∷ 0x6F ∷ 0x63 ∷ 0x5F ∷ 0x65 ∷ 0x78 ∷ 0x69 ∷ 0x74 ∷ []

unfoldable pub default_registry : Registry
default_registry =
    register_host_function wasi_module proc_exit_name (record { params = i32 ∷ []; results = [] }) 1
      (register_host_function wasi_module fd_write_name
        (record { params = i32 ∷ i32 ∷ i32 ∷ i32 ∷ []; results = i32 ∷ [] }) 0
        (record { host_functions = []; host_memories = []; host_tables = []; host_globals = [] }))

module _ {S : Type 0} (unit : FloatUnit) (os : System S) (preopen : List ℕ) where
  abbrev pub setting_of : Options → Setting
  setting_of options = record {
    args = options.wasi_args;
    env = options.wasi_env;
    preopen_host_path_string = preopen;
  }

  abbrev pub ending_of : Invocation (WasiState S) → Ending
  ending_of (answered r w s) = finished_with r
  ending_of (escaped e w s) = failed_with e
  ending_of unanswered = out_of_steps

  -- Loading, with the callbacks registered, and the call.
  unfoldable pub load_and_call : ℕ → Options → Result (List ℕ) → List ℕ → S → Ending
  load_and_call fuel options (err e) wasm_bytes s = failed_with e
  load_and_call fuel options (ok name) wasm_bytes s =
      let host = runner_host os (setting_of options) in
      elim (load unit host fuel (register_all os (setting_of options) default_registry) wasm_bytes
        (start_state s)) [
          | loaded i w ↦
              if options.skip_invoke
              then not_run
              else ending_of (invoke unit host fuel i name options.call_args w)
          | load_failed e ↦ failed_with e
          | load_exhausted ↦ out_of_steps
        ]

  -- With `--no-run` no export is looked for; the name that is passed on is not used.
  unfoldable pub run_bytes : ℕ → Options → List ℕ → S → Ending
  run_bytes fuel options wasm_bytes s = elim (parse_module wasm_bytes) [
    | err e ↦ failed_with e
    | ok m ↦
        load_and_call fuel options (if options.skip_invoke then ok [] else check_call options m)
          wasm_bytes s
  ]

  unfoldable pub main :
      NumberParsers → (List ℕ → S → Result (List ℕ)) → ℕ → List (List ℕ) → S → Ending
  main parsers read_file fuel args s = elim (parse_options parsers args) [
    | usage ↦ usage_shown
    | bad_options e ↦ failed_with e
    | parsed options ↦ elim (read_file options.module_path s) [
      | err e ↦ failed_with e
      | ok wasm_bytes ↦ run_bytes fuel options wasm_bytes s
    ]
  ]
