-- ===== src/Runner/Devices.antt =====
-- examples/run_wat_module.cpp: clock_time_get and random_get.
use web_assembly_interpreter.Base.{
  List, [], if◌then◌else◌, length, ltb, overwrite, suc, take, zero, ℕ, ◌++◌, ◌+◌, ◌-◌, ◌/◌, ◌==◌,
}
use web_assembly_interpreter.Embed.Wasi.{errno_fault, errno_success}
use web_assembly_interpreter.Reader.Leb.{remaining}
use web_assembly_interpreter.Runner.Accessor.{store_u64}
use web_assembly_interpreter.Runner.Descriptors.{le_bytes}
use web_assembly_interpreter.Runner.World.{Answer, System, View, answer, errno_nosys, set_system}

module _ {S : Type 0} (os : System S) where
  unfoldable pub clock_time_get : ℕ → ℕ → View S → Answer S
  clock_time_get clock_id result_ptr v =
      let (realtime, s) = os.system_clock v.host.system in
      let (monotonic, t) = os.steady_clock v.host.system in
      if clock_id == 0
      then store_u64 result_ptr realtime (set_system v s) (answer errno_success)
      else if clock_id == 1
      then store_u64 result_ptr monotonic (set_system v t) (answer errno_success)
      else answer errno_nosys v

  -- The loop, for `n` words: each gives its low bytes, as many as are still wanted and 8 at most.
  unfoldable pub random_bytes : ℕ → ℕ → ℕ → ℕ → List ℕ
  random_bytes zero seed i remaining = []
  random_bytes (suc n) seed i remaining =
      take remaining (le_bytes 8 (os.mt19937_64 seed i))
      ++ random_bytes n seed (suc i) (remaining - 8)

  -- As many words as there are eights of bytes, rounded up.
  unfoldable pub random_get : ℕ → ℕ → View S → Answer S
  random_get buf_ptr buf_len v =
      let (seed, s) = os.random_device v.host.system in
      if ltb (length v.memory) (buf_ptr + buf_len)
      then answer errno_fault v
      else answer errno_success (
          set_system
            (record v {
              memory = overwrite v.memory buf_ptr (random_bytes ((buf_len + 7) / 8) seed 0 buf_len);
            })
            s)
