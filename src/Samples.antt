-- ===== src/Samples.antt =====
-- A small program for the tests: `f(a, b) = a + b`, exported as "f".
use web_assembly_interpreter.Base.{List, [], some, true, ℕ, ◌∷◌}
use web_assembly_interpreter.Embed.Registry.{Registry}
use web_assembly_interpreter.Exec.Machine.{Machine}
use web_assembly_interpreter.Exec.Run.{start_machine}
use web_assembly_interpreter.Memory.{MemoryInstance}
use web_assembly_interpreter.Module.{Code, FunctionType}
use web_assembly_interpreter.Numeric.Float.{FloatUnit, infinity}
use web_assembly_interpreter.Stack.{default, entry}
use web_assembly_interpreter.Store.{GlobalInstance, Store, wasm_code}
use web_assembly_interpreter.Types.{i32, int32}

abbrev pub add_binary : List ℕ
add_binary =
    0x00 ∷ 0x61 ∷ 0x73 ∷ 0x6D ∷ 0x01 ∷ 0x00 ∷ 0x00 ∷ 0x00 ∷ 0x01 ∷ 0x07 ∷ 0x01 ∷ 0x60 ∷ 0x02 ∷ 0x7F
    ∷ 0x7F ∷ 0x01 ∷ 0x7F ∷ 0x03 ∷ 0x02 ∷ 0x01 ∷ 0x00 ∷ 0x07 ∷ 0x05 ∷ 0x01 ∷ 0x01 ∷ 0x66 ∷ 0x00
    ∷ 0x00 ∷ 0x0A ∷ 0x09 ∷ 0x01 ∷ 0x07 ∷ 0x00 ∷ 0x20 ∷ 0x00 ∷ 0x20 ∷ 0x01 ∷ 0x6A ∷ 0x0B ∷ []

abbrev pub no_imports : Registry
no_imports = record { host_functions = []; host_memories = []; host_tables = []; host_globals = [] }

-- A float unit for programs that use no floats.
abbrev pub no_floats : FloatUnit
no_floats = record {
  quiet_nan = infinity;
  plus = λ f a b. a;
  minus = λ f a b. a;
  times = λ f a b. a;
  divide = λ f a b. a;
  sqrt = λ f a. a;
  ceil = λ f a. a;
  floor = λ f a. a;
  trunc = λ f a. a;
  nearbyint = λ f a. a;
  of_integer = λ f n. 0;
  demote = λ a. a;
  promote = λ a. a;
}

-- `f(a, b) = a + b`, and a function that calls it.
abbrev pub add_type : FunctionType
add_type = record { params = i32 ∷ i32 ∷ []; results = i32 ∷ [] }

abbrev pub add_code : Code
add_code = record { locals = []; body = 0x20 ∷ 0x00 ∷ 0x20 ∷ 0x01 ∷ 0x6A ∷ 0x0B ∷ [] }

abbrev pub call_code : Code
call_code = record { locals = []; body = 0x20 ∷ 0x00 ∷ 0x20 ∷ 0x01 ∷ 0x10 ∷ 0x00 ∷ 0x0B ∷ [] }

abbrev pub small_memory : MemoryInstance
small_memory = record {
  type = record { limits = record { min_size = 0; max_size = some 2 } };
  contents = 1 ∷ 2 ∷ 3 ∷ 4 ∷ 5 ∷ 6 ∷ 7 ∷ 8 ∷ [];
}

abbrev pub mutable_global : GlobalInstance
mutable_global = record { type = record { value_type = i32; is_mutable = true }; value = int32 5 }

abbrev pub sample_store : Store
sample_store = record {
  types = add_type ∷ [];
  functions =
      record { signature = add_type; body = wasm_code add_code }
      ∷ record { signature = add_type; body = wasm_code call_code }
      ∷ [];
  globals = mutable_global ∷ [];
  memories = small_memory ∷ [];
  tables = [];
  data_segments = [];
}

-- `global.set 0` with 7 on the stack
abbrev pub set_code : Code
set_code = record { locals = []; body = 0x24 ∷ 0x00 ∷ 0x0B ∷ [] }

abbrev pub set_machine : Machine
set_machine = record (start_machine sample_store add_type set_code []) {
  stack = entry (int32 7) default ∷ [];
}
