-- ===== src/Runner/Host.antt =====
-- examples/run_wat_module.cpp: the callbacks of `WasiPreview1Host` on arguments and the store, and
-- `register_all`.
use web_assembly_interpreter.Base.{
  Bool, List, Result, String, [], err, false, get_elem?, get_or, if◌then◌else◌, leb, length, none,
  not, ok, runtime_error, some, suc, true, ℕ, ◌&&◌, ◌-◌, ◌==◌, ◌∷◌,
}
use web_assembly_interpreter.Embed.Registry.{Registry, register_host_function}
use web_assembly_interpreter.Embed.Wasi.{errno, errno_fault, wasi_host, with_memory}
use web_assembly_interpreter.Exec.Run.{Host, HostResult, host_thrown, host_trapped}
use web_assembly_interpreter.Runner.Arguments.{sizes_get, strings_get}
use web_assembly_interpreter.Runner.Descriptors.{
  fd_close, fd_fdstat_get, fd_prestat_dir_name, fd_prestat_get, fd_read, fd_seek,
}
use web_assembly_interpreter.Runner.Devices.{clock_time_get, random_get}
use web_assembly_interpreter.Runner.Paths.{path_open}
use web_assembly_interpreter.Runner.World.{Answer, Setting, System, View, WasiState}
use web_assembly_interpreter.Store.{Store}
use web_assembly_interpreter.Types.{Value, ValueType, i32, i64, int32, int64}

-- How a callback reads a parameter: `as<int32_t>`, `as<int64_t>`, or not at all.
pub data Slot : Type 0 where
  as_int32 as_int64 unread : Slot

abbrev pub read_slot : Slot → Value → Result ℕ
read_slot as_int32 (int32 n) = ok n
read_slot as_int32 v = err (runtime_error "Value is not i32")
read_slot as_int64 (int64 n) = ok n
read_slot as_int64 v = err (runtime_error "Value is not i64")
read_slot unread v = ok 0

-- The parameters, in order; the first that is of another type throws.
unfoldable pub read_slots : List Slot → List Value → Result (List ℕ)
read_slots (slot ∷ slots) (v ∷ vs) =
    let rest = read_slots slots vs in
    elim (read_slot slot v) [
      | err e ↦ err e
      | ok n ↦ elim rest [ err e ↦ err e | ok ns ↦ ok (n ∷ ns) ]
    ]
read_slots _ _ = ok []

-- What every callback does before its own work: the number of arguments, the data pointer for those
-- that look at it, and the arguments' types.
pub record Callback (S : Type 0) : Type 0 where
  pub name : List ℕ
  pub params : List ValueType
  pub slots : List Slot
  pub wrong_count : String
  pub needs_memory : Bool
  pub work : List ℕ → View S → Answer S

abbrev pub first_bytes : Store → List ℕ
first_bytes s = elim s.memories [ [] ↦ [] | m ∷ ms ↦ m.contents ]

abbrev pub with_first_bytes : Store → List ℕ → Store
with_first_bytes s bytes = elim s.memories [ [] ↦ s | m ∷ ms ↦ with_memory s m bytes ]

module _ {S : Type 0} where
  abbrev pub view_of : WasiState S → Store → View S
  view_of w s = record { memory = first_bytes s; host = w }

  abbrev pub reply_with : Store → Answer S → HostResult × (WasiState S × Store)
  reply_with s (e, v) = (errno e, (v.host, with_first_bytes s v.memory))

  unfoldable pub run_callback :
      Callback S → List Value → WasiState S → Store → HostResult × (WasiState S × Store)
  run_callback c args w s =
      if not (length args == length c.slots)
      then (host_trapped c.wrong_count, (w, s))
      else if c.needs_memory && length (first_bytes s) == 0
      then (errno errno_fault, (w, s))
      else elim (read_slots c.slots args) [
        | err e ↦ (host_thrown e, (w, s))
        | ok ns ↦ reply_with s (c.work ns (view_of w s))
      ]

-- "wasi_snapshot_preview1"
abbrev pub wasi_module : List ℕ
wasi_module =
    0x77 ∷ 0x61 ∷ 0x73 ∷ 0x69 ∷ 0x5F ∷ 0x73 ∷ 0x6E ∷ 0x61 ∷ 0x70 ∷ 0x73 ∷ 0x68 ∷ 0x6F ∷ 0x74 ∷ 0x5F
    ∷ 0x70 ∷ 0x72 ∷ 0x65 ∷ 0x76 ∷ 0x69 ∷ 0x65 ∷ 0x77 ∷ 0x31 ∷ []

-- the parameter at a place
abbrev pub arg : List ℕ → ℕ → ℕ
arg ns i = get_or ns i 0

abbrev two_i32 : List ValueType
two_i32 = i32 ∷ i32 ∷ []

abbrev two_slots : List Slot
two_slots = as_int32 ∷ as_int32 ∷ []

abbrev four_slots : List Slot
four_slots = as_int32 ∷ as_int32 ∷ as_int32 ∷ as_int32 ∷ []

module _ {S : Type 0} (os : System S) (setting : Setting) where
  abbrev pub args_sizes_get_callback : Callback S
  args_sizes_get_callback = record {
    name =
        0x61 ∷ 0x72 ∷ 0x67 ∷ 0x73 ∷ 0x5F ∷ 0x73 ∷ 0x69 ∷ 0x7A ∷ 0x65 ∷ 0x73 ∷ 0x5F ∷ 0x67 ∷ 0x65
        ∷ 0x74 ∷ [];
    params = two_i32;
    slots = two_slots;
    wrong_count = "wasi::args_sizes_get expects 2 arguments";
    needs_memory = false;
    work = λ ns. sizes_get setting.args (arg ns 0) (arg ns 1);
  }

  abbrev pub args_get_callback : Callback S
  args_get_callback = record {
    name = 0x61 ∷ 0x72 ∷ 0x67 ∷ 0x73 ∷ 0x5F ∷ 0x67 ∷ 0x65 ∷ 0x74 ∷ [];
    params = two_i32;
    slots = two_slots;
    wrong_count = "wasi::args_get expects 2 arguments";
    needs_memory = true;
    work = λ ns. strings_get setting.args (arg ns 0) (arg ns 1);
  }

  abbrev pub environ_sizes_get_callback : Callback S
  environ_sizes_get_callback = record {
    name =
        0x65 ∷ 0x6E ∷ 0x76 ∷ 0x69 ∷ 0x72 ∷ 0x6F ∷ 0x6E ∷ 0x5F ∷ 0x73 ∷ 0x69 ∷ 0x7A ∷ 0x65 ∷ 0x73
        ∷ 0x5F ∷ 0x67 ∷ 0x65 ∷ 0x74 ∷ [];
    params = two_i32;
    slots = two_slots;
    wrong_count = "wasi::environ_sizes_get expects 2 arguments";
    needs_memory = false;
    work = λ ns. sizes_get setting.env (arg ns 0) (arg ns 1);
  }

  abbrev pub environ_get_callback : Callback S
  environ_get_callback = record {
    name = 0x65 ∷ 0x6E ∷ 0x76 ∷ 0x69 ∷ 0x72 ∷ 0x6F ∷ 0x6E ∷ 0x5F ∷ 0x67 ∷ 0x65 ∷ 0x74 ∷ [];
    params = two_i32;
    slots = two_slots;
    wrong_count = "wasi::environ_get expects 2 arguments";
    needs_memory = true;
    work = λ ns. strings_get setting.env (arg ns 0) (arg ns 1);
  }

  abbrev pub clock_time_get_callback : Callback S
  clock_time_get_callback = record {
    name =
        0x63 ∷ 0x6C ∷ 0x6F ∷ 0x63 ∷ 0x6B ∷ 0x5F ∷ 0x74 ∷ 0x69 ∷ 0x6D ∷ 0x65 ∷ 0x5F ∷ 0x67 ∷ 0x65
        ∷ 0x74 ∷ [];
    params = i32 ∷ i64 ∷ i32 ∷ [];
    slots = as_int32 ∷ unread ∷ as_int32 ∷ [];
    wrong_count = "wasi::clock_time_get expects 3 arguments";
    needs_memory = false;
    work = λ ns. clock_time_get os (arg ns 0) (arg ns 2);
  }

  abbrev pub random_get_callback : Callback S
  random_get_callback = record {
    name = 0x72 ∷ 0x61 ∷ 0x6E ∷ 0x64 ∷ 0x6F ∷ 0x6D ∷ 0x5F ∷ 0x67 ∷ 0x65 ∷ 0x74 ∷ [];
    params = two_i32;
    slots = two_slots;
    wrong_count = "wasi::random_get expects 2 arguments";
    needs_memory = true;
    work = λ ns. random_get os (arg ns 0) (arg ns 1);
  }

  abbrev pub fd_read_callback : Callback S
  fd_read_callback = record {
    name = 0x66 ∷ 0x64 ∷ 0x5F ∷ 0x72 ∷ 0x65 ∷ 0x61 ∷ 0x64 ∷ [];
    params = i32 ∷ i32 ∷ i32 ∷ i32 ∷ [];
    slots = four_slots;
    wrong_count = "wasi::fd_read expects 4 arguments";
    needs_memory = true;
    work = λ ns. fd_read os (arg ns 0) (arg ns 1) (arg ns 2) (arg ns 3);
  }

  abbrev pub fd_close_callback : Callback S
  fd_close_callback = record {
    name = 0x66 ∷ 0x64 ∷ 0x5F ∷ 0x63 ∷ 0x6C ∷ 0x6F ∷ 0x73 ∷ 0x65 ∷ [];
    params = i32 ∷ [];
    slots = as_int32 ∷ [];
    wrong_count = "wasi::fd_close expects 1 argument";
    needs_memory = false;
    work = λ ns. fd_close os (arg ns 0);
  }

  abbrev pub fd_seek_callback : Callback S
  fd_seek_callback = record {
    name = 0x66 ∷ 0x64 ∷ 0x5F ∷ 0x73 ∷ 0x65 ∷ 0x65 ∷ 0x6B ∷ [];
    params = i32 ∷ i64 ∷ i32 ∷ i32 ∷ [];
    slots = as_int32 ∷ as_int64 ∷ as_int32 ∷ as_int32 ∷ [];
    wrong_count = "wasi::fd_seek expects 4 arguments";
    needs_memory = true;
    work = λ ns. fd_seek os (arg ns 0) (arg ns 1) (arg ns 2) (arg ns 3);
  }

  abbrev pub fd_fdstat_get_callback : Callback S
  fd_fdstat_get_callback = record {
    name =
        0x66 ∷ 0x64 ∷ 0x5F ∷ 0x66 ∷ 0x64 ∷ 0x73 ∷ 0x74 ∷ 0x61 ∷ 0x74 ∷ 0x5F ∷ 0x67 ∷ 0x65 ∷ 0x74
        ∷ [];
    params = two_i32;
    slots = two_slots;
    wrong_count = "wasi::fd_fdstat_get expects 2 arguments";
    needs_memory = true;
    work = λ ns. fd_fdstat_get (arg ns 0) (arg ns 1);
  }

  abbrev pub fd_prestat_get_callback : Callback S
  fd_prestat_get_callback = record {
    name =
        0x66 ∷ 0x64 ∷ 0x5F ∷ 0x70 ∷ 0x72 ∷ 0x65 ∷ 0x73 ∷ 0x74 ∷ 0x61 ∷ 0x74 ∷ 0x5F ∷ 0x67 ∷ 0x65
        ∷ 0x74 ∷ [];
    params = two_i32;
    slots = two_slots;
    wrong_count = "wasi::fd_prestat_get expects 2 arguments";
    needs_memory = true;
    work = λ ns. fd_prestat_get (arg ns 0) (arg ns 1);
  }

  abbrev pub fd_prestat_dir_name_callback : Callback S
  fd_prestat_dir_name_callback = record {
    name =
        0x66 ∷ 0x64 ∷ 0x5F ∷ 0x70 ∷ 0x72 ∷ 0x65 ∷ 0x73 ∷ 0x74 ∷ 0x61 ∷ 0x74 ∷ 0x5F ∷ 0x64 ∷ 0x69
        ∷ 0x72 ∷ 0x5F ∷ 0x6E ∷ 0x61 ∷ 0x6D ∷ 0x65 ∷ [];
    params = i32 ∷ i32 ∷ i32 ∷ [];
    slots = as_int32 ∷ as_int32 ∷ as_int32 ∷ [];
    wrong_count = "wasi::fd_prestat_dir_name expects 3 arguments";
    needs_memory = true;
    work = λ ns. fd_prestat_dir_name (arg ns 0) (arg ns 1) (arg ns 2);
  }

  abbrev pub path_open_callback : Callback S
  path_open_callback = record {
    name = 0x70 ∷ 0x61 ∷ 0x74 ∷ 0x68 ∷ 0x5F ∷ 0x6F ∷ 0x70 ∷ 0x65 ∷ 0x6E ∷ [];
    params = i32 ∷ i32 ∷ i32 ∷ i32 ∷ i32 ∷ i64 ∷ i64 ∷ i32 ∷ i32 ∷ [];
    slots =
        as_int32 ∷ unread ∷ as_int32 ∷ as_int32 ∷ unread ∷ as_int64 ∷ unread ∷ unread ∷ as_int32
        ∷ [];
    wrong_count = "wasi::path_open expects 9 arguments";
    needs_memory = true;
    work = λ ns. path_open os setting (arg ns 0) (arg ns 2) (arg ns 3) (arg ns 5) (arg ns 8);
  }

  -- in the order of `register_all`
  abbrev pub callbacks : List (Callback S)
  callbacks =
      args_sizes_get_callback ∷ args_get_callback ∷ environ_sizes_get_callback
      ∷ environ_get_callback ∷ clock_time_get_callback ∷ random_get_callback ∷ fd_read_callback
      ∷ fd_close_callback ∷ fd_seek_callback ∷ fd_fdstat_get_callback ∷ fd_prestat_get_callback
      ∷ fd_prestat_dir_name_callback ∷ path_open_callback ∷ []

  -- The callbacks that `Interpreter` registers itself have the numbers 0 and 1, and these those
  -- from 2 on.
  unfoldable pub runner_host : Host (WasiState S)
  runner_host id args (w, s) =
      if leb id 1 then wasi_host id args (w, s) else elim (get_elem? callbacks (id - 2)) [
        | none ↦ (host_trapped "", (w, s))
        | some c ↦ run_callback c args w s
      ]

  unfoldable pub register_from : ℕ → List (Callback S) → Registry → Registry
  register_from id [] r = r
  register_from id (c ∷ cs) r = register_from (suc id) cs (
      register_host_function wasi_module c.name (record { params = c.params; results = i32 ∷ [] })
        id r)

  unfoldable pub register_all : Registry → Registry
  register_all r = register_from 2 callbacks r
