-- ===== src/Exec/Run.antt =====
-- src/interpreter.cpp: `execute_function`: entering a function, and the loop, on fuel.
-- A host callback is answered by a parameter, from its number, its arguments and the store.
use web_assembly_interpreter.Base.{
  Error, List, Option, Result, String, [], err, false, get_elem?, if◌then◌else◌, length, map, none,
  ok, replicate, reverse, some, suc, trap, zero, ℕ, ◌++◌, ◌-◌, ◌==◌, ◌∷◌,
}
use web_assembly_interpreter.Exec.Machine.{
  ControlFrame, Machine, Next, call, finished, function_frame, go,
}
use web_assembly_interpreter.Exec.Step.{step}
use web_assembly_interpreter.Module.{Code, FunctionType, LocalDecl}
use web_assembly_interpreter.Numeric.Float.{FloatUnit}
use web_assembly_interpreter.Reader.{reader_at}
use web_assembly_interpreter.Stack.{call_result, entry}
use web_assembly_interpreter.Store.{FunctionInstance, Store, host_code, wasm_code, zero_value}
use web_assembly_interpreter.Types.{Value}

pub data HostResult : Type 0 where
  host_returned : List Value → HostResult
  host_trapped : String → HostResult
  host_thrown : Error → HostResult

-- A callback changes the store and whatever state `W` the embedder keeps.
abbrev pub Host : Type 0 → Type 0
Host W = ℕ → List Value → W × Store → HostResult × (W × Store)

-- A function returns or throws, and the host's state and the store are as they were left; or the
-- fuel is used up.
pub data Outcome (W : Type 0) : Type 0 where
  done : List Value → W → Store → Outcome W
  failed : Error → W → Store → Outcome W
  exhausted : Outcome W

-- The zeros of the declared locals. The type of an empty declaration is not looked at.
unfoldable pub declared_locals : List LocalDecl → Result (List Value)
declared_locals [] = ok []
declared_locals (d ∷ ds) =
    let rest = declared_locals ds in
    if d.count == 0 then rest else elim (zero_value d.type) [
      | err e ↦ err e
      | ok zero_of_type ↦ elim rest [
        | err e ↦ err e
        | ok others ↦ ok (replicate d.count zero_of_type ++ others)
      ]
    ]

abbrev pub body_frame : FunctionType → Code → ControlFrame
body_frame signature code = record {
  kind = function_frame;
  signature = signature.results;
  start_pc = 0;
  end_pc = length code.body - 1;
  end_next_pc = length code.body;
  else_pc = none;
  else_body_pc = none;
  stack_height = 0;
  executing_else = false;
}

unfoldable pub start_machine : Store → FunctionType → Code → List Value → Machine
start_machine s signature code locals = record {
  store = s;
  reader = reader_at code.body 0;
  stack = [];
  locals = locals;
  frames = body_frame signature code ∷ [];
  results = signature.results;
}

-- a function with code: the check of the arguments, the locals, the first frame
unfoldable pub enter_code : FunctionType → Code → List Value → Store → Result Machine
enter_code signature code args s =
    if length signature.params == length args
    then elim (declared_locals code.locals) [
      | ok zeros ↦ ok (start_machine s signature code (args ++ zeros))
      | err e ↦ err e
    ]
    else err (trap "Incorrect number of arguments")

-- the results of a call, on the caller's stack
unfoldable pub push_call_results : List Value → Store → Machine → Machine
push_call_results values s m = record m {
  store = s;
  stack = reverse (map (λ v. entry v call_result) values) ++ m.stack;
}

module _ {W : Type 0} where
  abbrev pub host_outcome : HostResult × (W × Store) → Outcome W
  host_outcome (host_returned values, (w, s)) = done values w s
  host_outcome (host_trapped message, (w, s)) = failed (trap message) w s
  host_outcome (host_thrown e, (w, s)) = failed e w s

  abbrev pub run_entered : (W → Machine → Outcome W) → W → Store → Result Machine → Outcome W
  run_entered loop w s (ok m) = loop w m
  run_entered loop w s (err e) = failed e w s

  unfoldable pub enter_function :
      Host W
      → (W → Machine → Outcome W)
      → Option FunctionInstance
      → List Value
      → W
      → Store
      → Outcome W
  enter_function host loop none args w s = failed (trap "Function index out of range") w s
  enter_function host loop (some f) args w s = elim f.body [
    | host_code id ↦ host_outcome (host id args (w, s))
    | wasm_code code ↦ run_entered loop w s (enter_code f.signature code args s)
  ]

  abbrev pub after_call : (W → Machine → Outcome W) → Machine → Outcome W → Outcome W
  after_call loop m (done values w s) = loop w (push_call_results values s m)
  after_call loop m (failed e w s) = failed e w s
  after_call loop m exhausted = exhausted

  abbrev pub after_step :
      (W → Machine → Outcome W)
      → (ℕ → List Value → W → Store → Outcome W)
      → W
      → Store
      → Result (Next × Machine)
      → Outcome W
  after_step loop execute w s (err e) = failed e w s
  after_step loop execute w s (ok (go, m)) = loop w m
  after_step loop execute w s (ok (finished values, m)) = done values w m.store
  after_step loop execute w s (ok (call index args, m)) =
      after_call loop m (execute index args w m.store)

-- A round of the loop and a call each spend one unit of fuel.
unfoldable mutual
  pub execute_function :
      {W : Type 0} → FloatUnit → Host W → ℕ → ℕ → List Value → W → Store → Outcome W
  execute_function unit host zero index args w s = exhausted
  execute_function unit host (suc fuel) index args w s =
      enter_function host (run_loop unit host fuel) (get_elem? s.functions index) args w s

  pub run_loop : {W : Type 0} → FloatUnit → Host W → ℕ → W → Machine → Outcome W
  run_loop unit host zero w m = exhausted
  run_loop unit host (suc fuel) w m =
      after_step (run_loop unit host fuel) (execute_function unit host fuel) w m.store (step unit m)
