-- ===== src/Tests/Runs.antt =====
-- Properties of rounds and runs at concrete inputs.
use web_assembly_interpreter.Base.{
  Error, List, [], arith, err, get_elem?, gets, length, map, modify, none, ok, out_of_fuel,
  out_of_range, pure, refl, require, runtime_error, some, trap, true, ℕ, ◌>>=◌, ◌∷◌, ◌≡◌, ◌≢◌, ◌≤◌,
  ◌⊎◌,
}
use web_assembly_interpreter.Embed.Instantiate.{
  apply_data_segments, apply_element_segments, empty_store, for_each, instantiate_functions,
  instantiate_globals, instantiate_memories, instantiate_store, instantiate_tables,
  prepare_data_segments, resolve_imports,
}
use web_assembly_interpreter.Embed.Wasi.{wasi_host}
use web_assembly_interpreter.Exec.Adequacy.{execute_function-adequate}
use web_assembly_interpreter.Exec.Derivation.{Ends, calling}
use web_assembly_interpreter.Exec.Endings.Round.{step-ends}
use web_assembly_interpreter.Exec.Endings.Runs.{FailsOwn, HostIsOwn, execute_function-FailsOwn}
use web_assembly_interpreter.Exec.Machine.{Machine, Next}
use web_assembly_interpreter.Exec.Run.{
  Host, Outcome, done, enter_function, execute_function, exhausted, failed, host_thrown,
  start_machine,
}
use web_assembly_interpreter.Exec.Step.{dispatch, step}
use web_assembly_interpreter.Exec.Typing.{Obeys, numeric_signature}
use web_assembly_interpreter.Exec.Typing.Table.{dispatch-Obeys}
use web_assembly_interpreter.Module.{FunctionType, Module, empty_module, same_signature}
use web_assembly_interpreter.Runner.Modules.{
  check_types, function_type, search_imports, validate_arguments,
}
use web_assembly_interpreter.Runner.Signatures.{function_type-agrees}
use web_assembly_interpreter.Runner.Validated.{validate_arguments-fits}
use web_assembly_interpreter.Samples.{
  add_code, add_type, no_floats, no_imports, sample_store, set_machine,
}
use web_assembly_interpreter.Stack.{default, entry}
use web_assembly_interpreter.Store.{FunctionInstance, Store, host_code, wasm_code}
use web_assembly_interpreter.Types.{
  Value, byte_of_value_type, int32, same_type, same_types, type_of,
}
use mathlib.Core.Logic.{◌↔◌}

abbrev two_numbers : List Value
two_numbers = int32 1 ∷ int32 2 ∷ []

abbrev three : Outcome (Unit {0})
three = done (int32 3 ∷ []) (tt {0}) sample_store

execute_function-adequate_example :
    ((fuel : ℕ) × ((execute_function no_floats wasi_host fuel 0 two_numbers (tt {0}) sample_store
          ≡ three)
        × (three ≢ exhausted)))
    ↔ Ends no_floats wasi_host (calling 0 two_numbers (tt {0}) sample_store) three
execute_function-adequate_example =
    execute_function-adequate no_floats wasi_host 0 two_numbers (tt {0}) sample_store three

-- two numbers on the stack
abbrev sum_machine : Machine
sum_machine = record (start_machine sample_store add_type add_code two_numbers) {
  stack = entry (int32 2) default ∷ entry (int32 1) default ∷ [];
}

dispatch-Obeys_example :
    Obeys (numeric_signature 0x6A) sum_machine (dispatch no_floats 0x6A sum_machine)
dispatch-Obeys_example = dispatch-Obeys no_floats 0x6A sum_machine (omega arith) (omega arith)

step-ends_example :
    ((next : Next) × ((n : Machine) × ((step no_floats set_machine ≡ ok (next, n))
          × (n.reader.offset ≤ length n.reader.bytes))))
    ⊎ ((e : Error) × ((step no_floats set_machine ≡ err e) × (e ≢ out_of_fuel)))
unfolding start_machine
step-ends_example = step-ends no_floats set_machine (omega arith)

-- a host whose callbacks throw, and a store whose only function is one of them
abbrev throwing_host : Host (Unit {0})
throwing_host id args ws = (host_thrown (runtime_error "no device"), ws)

throwing_host-IsOwn : HostIsOwn throwing_host
throwing_host-IsOwn id args w s (trap message) at = λ e. cc
throwing_host-IsOwn id args w s (runtime_error message) at = λ e. cc
throwing_host-IsOwn id args w s (out_of_range message) at = λ e. cc
throwing_host-IsOwn id args w s out_of_fuel at = cc

abbrev throwing_store : Store
throwing_store = record sample_store {
  functions = record { signature = add_type; body = host_code 0 } ∷ [];
}

throwing_run :
    execute_function no_floats throwing_host 20 0 two_numbers (tt {0}) throwing_store
    ≡ failed (runtime_error "no device") (tt {0}) throwing_store
unfolding execute_function enter_function
throwing_run = refl

execute_function-FailsOwn_example :
    FailsOwn (execute_function no_floats throwing_host 20 0 two_numbers (tt {0}) throwing_store)
execute_function-FailsOwn_example =
    execute_function-FailsOwn no_floats throwing_host throwing_host-IsOwn 20 0 two_numbers (tt {0})
      throwing_store

-- a module with the function `f(a, b) = a + b` in it, as an instance
abbrev add_module : Module
add_module = record empty_module {
  types = add_type ∷ [];
  functions = 0 ∷ [];
  codes = add_code ∷ [];
}

abbrev add_store : Store
add_store = record (empty_store (add_type ∷ [])) {
  functions = record { signature = add_type; body = wasm_code add_code } ∷ [];
}

add_instance :
    instantiate_store no_imports add_module (empty_store add_module.types) ≡ ok (tt, add_store)
unfolding instantiate_store resolve_imports for_each instantiate_functions instantiate_globals
    instantiate_memories instantiate_tables prepare_data_segments apply_data_segments
    apply_element_segments gets require modify pure ◌>>=◌
add_instance = refl

function_type-agrees_example :
    ((function_type add_module 0 ≡ none) × (get_elem? add_store.functions 0 ≡ none))
    ⊎ ((t : FunctionType) × ((f : FunctionInstance) × ((function_type add_module 0 ≡ some t)
            × ((get_elem? add_store.functions 0 ≡ some f)
                × (same_signature t f.signature ≡ true)))))
function_type-agrees_example = function_type-agrees no_imports add_module add_store add_instance 0

add_type_named : function_type add_module 0 ≡ some add_type
unfolding function_type search_imports
add_type_named = refl

two_numbers_valid : validate_arguments add_type two_numbers ≡ ok tt
unfolding validate_arguments check_types same_type type_of byte_of_value_type
two_numbers_valid = refl

validate_arguments-fits_example :
    (f : FunctionInstance) × ((get_elem? add_store.functions 0 ≡ some f)
      × (same_types f.signature.params (map type_of two_numbers) ≡ true))
validate_arguments-fits_example =
    validate_arguments-fits no_imports add_module add_store add_instance 0 add_type two_numbers
      add_type_named two_numbers_valid
