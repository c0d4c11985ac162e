-- ===== src/Tests.antt =====
-- Concrete runs of a small program, and the properties at concrete inputs.
mod Numbers
mod Runs
mod Runner
use web_assembly_interpreter.Base.{
  Error, List, [], arith, check, err, false, gets, length, lift, min, modify, none, ok, out_of_fuel,
  pure, refl, require, some, switch, throw, zoom, ℕ, ◌-◌, ◌>>=◌, ◌^◌, ◌∷◌, ◌≡◌, ◌≢◌, ◌≤◌, ◌⊎◌,
}
use web_assembly_interpreter.Control.{BlockInfo, analyze_block}
use web_assembly_interpreter.Control.Analysis.{IsAnalysed, analyze_block-IsAnalysed}
use web_assembly_interpreter.Embed.Calls.{IsAccount, invoke-IsAccount}
use web_assembly_interpreter.Embed.Invoke.{Instance, invoke, memory_view}
use web_assembly_interpreter.Embed.Keys.{IsNulFree, find_key-register_host_function}
use web_assembly_interpreter.Embed.Polite.{wasi_host-Extends}
use web_assembly_interpreter.Embed.Registry.{
  find_key, make_host_key, register_host_function, same_bytes,
}
use web_assembly_interpreter.Embed.Wasi.{
  errno, errno_success, fd_write, finish_write, gather, wasi_host, write_vectors,
}
use web_assembly_interpreter.Embed.Written.{fd_write-count}
use web_assembly_interpreter.Exec.Effect.{Develops}
use web_assembly_interpreter.Exec.Flow.{call_op, end_frame, end_op, finish_frame}
use web_assembly_interpreter.Exec.Jump.{branch-after}
use web_assembly_interpreter.Exec.Machine.{
  ControlFrame, Machine, block_frame, branch, go, on_reader, on_stack, on_store, set_frames,
}
use web_assembly_interpreter.Exec.Numbers.{binary, int_arith}
use web_assembly_interpreter.Exec.Run.{
  declared_locals, done, enter_code, enter_function, execute_function, push_call_results,
  start_machine,
}
use web_assembly_interpreter.Exec.Safety.{LeavesExtended, execute_function-Extends, step-Develops}
use web_assembly_interpreter.Exec.Step.{control_op, dispatch, numeric_op, step, variable_op}
use web_assembly_interpreter.Exec.Variables.{global_at, global_set, local_get, write_global}
use web_assembly_interpreter.Loader.Ends.{parse_module-ends}
use web_assembly_interpreter.Loader.Parse.{parse_module}
use web_assembly_interpreter.Memory.{read_value}
use web_assembly_interpreter.Module.{Module, empty_module, function_kind}
use web_assembly_interpreter.Numeric.Word.{int_add}
use web_assembly_interpreter.Reader.{
  add_group, ensure_available, leb_unsigned_loop, read_leb_unsigned, read_u8, read_varuint32,
  reader_at,
}
use web_assembly_interpreter.Samples.{
  add_binary, add_code, add_type, mutable_global, no_floats, no_imports, sample_store, set_code,
  set_machine, small_memory,
}
use web_assembly_interpreter.Stack.{
  default, entry, expect_i32, pop_arguments, pop_i32, pop_results, pop_stack_value, pop_value, push,
  push_as, push_results, resize_stack,
}
use web_assembly_interpreter.Store.{Store}
use web_assembly_interpreter.Types.{Value, i32, int32}

abbrev two_numbers : List Value
two_numbers = int32 1 ∷ int32 2 ∷ []

-- The call of `f(1, 2)` through the function that calls it.
run_call :
    execute_function no_floats wasi_host 20 1 two_numbers tt sample_store
    ≡ done (int32 3 ∷ []) (tt {0}) sample_store
unfolding execute_function enter_function enter_code start_machine declared_locals step dispatch
    control_op variable_op numeric_op int_arith binary int_add local_get call_op end_op finish_frame
    end_frame on_reader on_stack zoom read_u8 ensure_available read_varuint32 read_leb_unsigned
    leb_unsigned_loop add_group gets pure throw lift require check ◌>>=◌ modify switch push push_as
    pop_value pop_stack_value pop_i32 expect_i32 pop_arguments pop_results push_results
    push_call_results set_frames
run_call = refl

set_step :
    step no_floats set_machine
    ≡ ok (
      go,
      record set_machine {
        reader = reader_at set_code.body 2;
        stack = [];
        store = record sample_store { globals = record mutable_global { value = int32 7 } ∷ [] };
      },
    )
unfolding start_machine step dispatch variable_op global_set global_at write_global on_reader
    on_stack on_store zoom read_u8 ensure_available read_varuint32 read_leb_unsigned
    leb_unsigned_loop add_group gets pure throw lift require check ◌>>=◌ modify switch pop_value
    pop_stack_value
set_step = refl

execute_function-Extends_example :
    LeavesExtended sample_store
      (execute_function no_floats wasi_host 20 1 two_numbers tt sample_store)
execute_function-Extends_example =
    execute_function-Extends no_floats wasi_host wasi_host-Extends 20 1 two_numbers tt sample_store

step-Develops_example : Develops set_machine (record set_machine {
  reader = reader_at set_code.body 2;
  stack = [];
  store = record sample_store { globals = record mutable_global { value = int32 7 } ∷ [] };
})
step-Develops_example = step-Develops no_floats set_machine _ go set_step

parse_module-ends_example : parse_module add_binary ≢ err out_of_fuel
parse_module-ends_example = parse_module-ends add_binary

abbrev add_module : Module
add_module = record empty_module {
  types = add_type ∷ [];
  functions = 0 ∷ [];
  exports = record { name = 0x66 ∷ []; kind = function_kind; index = 0 } ∷ [];
  codes = add_code ∷ [];
}

abbrev if_code : List ℕ
if_code = 0x04 ∷ 0x40 ∷ 0x01 ∷ 0x05 ∷ 0x41 ∷ 0x0B ∷ 0x1A ∷ 0x0B ∷ 0x0B ∷ []

analyze_block-IsAnalysed_example :
    ((info : BlockInfo) × ((analyze_block if_code 2 ≡ ok info) × IsAnalysed if_code 2 info))
    ⊎ ((e : Error) × ((analyze_block if_code 2 ≡ err e) × (e ≢ out_of_fuel)))
analyze_block-IsAnalysed_example = analyze_block-IsAnalysed if_code 2

abbrev sample_instance : Instance
sample_instance = record {
  wasm_module = add_module;
  store = sample_store;
  export_table = (0x66 ∷ [], (function_kind, 1)) ∷ [];
}

invoke-IsAccount_example :
    IsAccount no_floats wasi_host 20 sample_instance two_numbers
      (tt {0})
      (find_key (0x66 ∷ []) sample_instance.export_table)
      (invoke no_floats wasi_host 20 sample_instance (0x66 ∷ []) two_numbers (tt {0}))
invoke-IsAccount_example =
    invoke-IsAccount no_floats wasi_host 20 sample_instance two_numbers (tt {0}) wasi_host-Extends
      (0x66 ∷ [])

-- a block with a result, left from inside with two values too many on the stack
abbrev block_target : ControlFrame
block_target = record {
  kind = block_frame;
  signature = i32 ∷ [];
  start_pc = 1;
  end_pc = 1;
  end_next_pc = 2;
  else_pc = none;
  else_body_pc = none;
  stack_height = 1;
  executing_else = false;
}

abbrev block_machine : Machine
block_machine = record set_machine {
  stack =
      entry (int32 9) default
      ∷ entry (int32 8) default
      ∷ entry (int32 7) default
      ∷ entry (int32 6) default
      ∷ [];
  frames = block_target ∷ [];
}

branch-after_example :
    branch 0 block_machine
    ≡ ok (
      false,
      record block_machine {
        stack = entry (int32 9) default ∷ entry (int32 6) default ∷ [];
        frames = [];
        reader = reader_at set_code.body 2;
      },
    )
unfolding resize_stack start_machine
branch-after_example =
    branch-after 0 block_machine block_target [] refl tt (omega arith) (omega arith)

letter_IsNulFree : IsNulFree (0x61 ∷ [])
letter_IsNulFree = (λ e. absurd (omega (arith, e)), tt)

find_key-register_host_function_example :
    find_key
      (make_host_key (0x61 ∷ []) (0x62 ∷ []))
      (register_host_function (0x61 ∷ []) (0x62 ∷ []) add_type 7 no_imports).host_functions
    ≡ some (record { signature = add_type; callback = 7 })
unfolding make_host_key same_bytes
find_key-register_host_function_example =
    find_key-register_host_function (0x61 ∷ []) (0x62 ∷ []) (0x61 ∷ []) (0x62 ∷ []) add_type 7
      no_imports letter_IsNulFree letter_IsNulFree

-- Two bytes at 4, named by a vector at 8, go to the standard output; the count goes to 16.
abbrev message_store : Store
message_store = record sample_store {
  memories =
      record small_memory {
        contents =
            0 ∷ 0 ∷ 0 ∷ 0 ∷ 72 ∷ 105 ∷ 0 ∷ 0 ∷ 4 ∷ 0 ∷ 0 ∷ 0 ∷ 2 ∷ 0 ∷ 0 ∷ 0 ∷ 9 ∷ 9 ∷ 9 ∷ 9 ∷ [];
      }
      ∷ [];
}

abbrev write_arguments : List Value
write_arguments = int32 1 ∷ int32 8 ∷ int32 1 ∷ int32 16 ∷ []

message_small : length (memory_view message_store) ≤ 2 ^ 32
unfolding memory_view
message_small = omega arith

write_succeeds : (fd_write write_arguments message_store).result ≡ errno errno_success
unfolding fd_write write_vectors finish_write gather read_value
write_succeeds = refl

fd_write-count_example :
    read_value 4 (memory_view (fd_write write_arguments message_store).store) 16
    ≡ min (length (fd_write write_arguments message_store).written) (2 ^ 32 - 1)
fd_write-count_example =
    fd_write-count message_store 1 8 1 16 (omega arith) message_small write_succeeds
