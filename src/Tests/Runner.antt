-- ===== src/Tests/Runner.antt =====
-- The runner's host at concrete inputs: a system with one file, whose state counts what is opened.
use web_assembly_interpreter.Base.{
  List, [], arith, false, get_elem?, length, none, refl, some, suc, true, ℕ, ◌*◌, ◌++◌, ◌+◌, ◌<◌,
  ◌^◌, ◌∷◌, ◌≡◌, ◌≤◌, ◌⊎◌,
}
use web_assembly_interpreter.Embed.Wasi.{errno_success}
use web_assembly_interpreter.Exec.Hosted.{LeavesState}
use web_assembly_interpreter.Exec.Run.{execute_function, host_returned}
use web_assembly_interpreter.Exec.Safety.{LeavesExtended}
use web_assembly_interpreter.Memory.{write_value}
use web_assembly_interpreter.Runner.Accessor.{available, data_at, store_u32}
use web_assembly_interpreter.Runner.Arguments.{strings_get, total_size}
use web_assembly_interpreter.Runner.Confined.{elsewhere, execute_function-confined}
use web_assembly_interpreter.Runner.Host.{read_slots, run_callback, runner_host}
use web_assembly_interpreter.Runner.Kept.{IsSound}
use web_assembly_interpreter.Runner.Layout.{LaidOut, strings_get-LaidOut}
use web_assembly_interpreter.Runner.Opening.{IsOpened, IsRefused, path_open-atomic}
use web_assembly_interpreter.Runner.Paths.{
  install, open_bytes, open_canonical, open_relative, path_open, starts_with, strip_separators,
}
use web_assembly_interpreter.Runner.Runs.{execute_function-IsSound}
use web_assembly_interpreter.Runner.Safety.{IsSafe, runner_host-IsSafe}
use web_assembly_interpreter.Runner.World.{
  Setting, System, View, WasiState, enoent, not_opened, opened, put_file, resolved, start_state,
}
use web_assembly_interpreter.Samples.{no_floats, sample_store, small_memory}
use web_assembly_interpreter.Store.{Store, host_code}
use web_assembly_interpreter.Types.{Value, i32, int32, int64}

abbrev home : List ℕ
home = 0x2F ∷ 0x77 ∷ 0x2F ∷ []

-- any path under the directory is itself, and opens as the next stream
abbrev one_file : System ℕ
one_file = record {
  read_stdin = λ n s. (([], false), s);
  fread = λ file n s. ((7 ∷ 8 ∷ [], false), s);
  fclose = λ file s. s;
  fseek = λ file offset origin s. (none, s);
  ftell = λ file s. (some 0, s);
  weakly_canonical = λ path s. (resolved (home ++ path), s);
  fopen = λ path s. (opened s, suc s);
  system_clock = λ s. (5, s);
  steady_clock = λ s. (6, s);
  random_device = λ s. (1, s);
  mt19937_64 = λ seed i. seed + i;
}

abbrev no_arguments : Setting
no_arguments = record { args = []; env = []; preopen_host_path_string = home }

-- `path_open(3, 0, 4, 1, 0, 1, 0, 0, 4)`: the byte 5 of the memory names the file
abbrev open_arguments : List Value
open_arguments =
    int32 3 ∷ int32 0 ∷ int32 4 ∷ int32 1 ∷ int32 0 ∷ int64 1 ∷ int64 0 ∷ int32 0 ∷ int32 4 ∷ []

abbrev one_open : WasiState ℕ
one_open = record {
  files = (4, record { file = some 9; readable = true; seekable = true }) ∷ [];
  next_fd = 5;
  system = 10;
}

-- The file takes the descriptor 4, which is written to the memory at 4.
open_run : runner_host one_file no_arguments 14 open_arguments (start_state 9, sample_store) ≡ (
  host_returned (int32 0 ∷ []),
  (
    one_open,
    record sample_store {
      memories = record small_memory { contents = 1 ∷ 2 ∷ 3 ∷ 4 ∷ 4 ∷ 0 ∷ 0 ∷ 0 ∷ [] } ∷ [];
    },
  ),
)
unfolding runner_host run_callback read_slots start_state path_open data_at available
    strip_separators open_bytes open_relative open_canonical starts_with install put_file store_u32
    write_value
open_run = refl

start-IsSound : IsSound {S = ℕ} (start_state 9)
unfolding start_state
start-IsSound = record { next = omega arith; table = tt }

runner_host-IsSafe_example :
    IsSafe
      (start_state 9)
      sample_store
      (runner_host one_file no_arguments 14 open_arguments (start_state 9, sample_store))
runner_host-IsSafe_example =
    runner_host-IsSafe one_file no_arguments 14 open_arguments (start_state 9) sample_store

-- a store whose only function is `path_open`
abbrev open_store : Store
open_store = record sample_store {
  functions =
      record { signature = record { params = []; results = i32 ∷ [] }; body = host_code 14 } ∷ [];
}

execute_function-IsSound_example :
    LeavesExtended open_store (
      execute_function no_floats
        (runner_host one_file no_arguments)
        3
        0
        open_arguments
        (start_state 9)
        open_store)
    × LeavesState IsSound (
        execute_function no_floats
          (runner_host one_file no_arguments)
          3
          0
          open_arguments
          (start_state 9)
          open_store)
execute_function-IsSound_example =
    execute_function-IsSound no_floats one_file no_arguments 3 0 open_arguments (start_state 9)
      open_store start-IsSound

execute_function-confined_example :
    execute_function no_floats
      (runner_host
        (elsewhere no_arguments (λ path s. (not_opened enoent, s)) one_file)
        no_arguments)
      3
      0
      open_arguments
      (start_state 9)
      open_store
    ≡ execute_function no_floats
        (runner_host one_file no_arguments)
        3
        0
        open_arguments
        (start_state 9)
        open_store
execute_function-confined_example =
    execute_function-confined one_file no_arguments (λ path s. (not_opened enoent, s)) no_floats 3 0
      open_arguments (start_state 9) open_store

-- one argument, `a`, for six bytes at the address 0
abbrev one_string : List (List ℕ)
one_string = (0x61 ∷ []) ∷ []

abbrev eight_bytes : View (Unit {0})
eight_bytes = record { memory = 1 ∷ 2 ∷ 3 ∷ 4 ∷ 5 ∷ 6 ∷ 7 ∷ 8 ∷ []; host = start_state (tt {0}) }

one_string_sized : total_size one_string 0 ≡ some 2
unfolding total_size
one_string_sized = refl

strings_get-LaidOut_example :
    ((strings_get one_string 0 4 eight_bytes).0 ≡ errno_success)
    × (LaidOut (strings_get one_string 0 4 eight_bytes).1.memory one_string 0 4
        × ((j : ℕ)
            → (j < 0) ⊎ ((0 + 4 * length one_string ≤ j) × (j < 4))
            → get_elem? (strings_get one_string 0 4 eight_bytes).1.memory j
              ≡ get_elem? eight_bytes.memory j))
strings_get-LaidOut_example =
    strings_get-LaidOut one_string 0 4 2 eight_bytes (omega arith) one_string_sized (omega arith)
      (omega arith) (omega arith)

-- the host at its start, over the bytes of the sample
abbrev first_view : View ℕ
first_view = record { memory = small_memory.contents; host = start_state 9 }

small_start : first_view.host.next_fd < 2 ^ 32
unfolding start_state
small_start = omega arith

path_open-atomic_example :
    IsOpened first_view 4 (path_open one_file no_arguments 3 4 1 1 4 first_view)
    ⊎ IsRefused one_file first_view (path_open one_file no_arguments 3 4 1 1 4 first_view)
path_open-atomic_example =
    path_open-atomic one_file no_arguments 3 4 1 1 4 first_view start-IsSound small_start
