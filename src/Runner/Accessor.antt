-- ===== src/Runner/Accessor.antt =====
-- examples/run_wat_module.cpp: `MemoryAccessor`. A store that does not fit answers the fault error at
-- once, as each of its callers does; a callback goes on with `k` otherwise.
use web_assembly_interpreter.Base.{
  Bool, List, Option, drop, if◌then◌else◌, leb, length, none, not, overwrite, some, take, ℕ, ◌&&◌,
  ◌+◌, ◌==◌,
}
use web_assembly_interpreter.Embed.Wasi.{errno_fault}
use web_assembly_interpreter.Memory.{read_value, write_value}
use web_assembly_interpreter.Runner.World.{Answer, View, answer}

-- Whether `size` bytes at `offset` are there. The data pointer of an empty memory is null.
unfoldable pub available : List ℕ → ℕ → ℕ → Bool
available memory offset size = not (length memory == 0) && leb (offset + size) (length memory)

module _ {S : Type 0} where
  unfoldable pub store_u32 : ℕ → ℕ → View S → (View S → Answer S) → Answer S
  store_u32 offset value v k =
      if available v.memory offset 4
      then k (record v { memory = write_value 4 v.memory offset value })
      else answer errno_fault v

  unfoldable pub store_u64 : ℕ → ℕ → View S → (View S → Answer S) → Answer S
  store_u64 offset value v k =
      if available v.memory offset 8
      then k (record v { memory = write_value 8 v.memory offset value })
      else answer errno_fault v

  -- `memcpy` of the bytes
  unfoldable pub store_bytes : ℕ → List ℕ → View S → (View S → Answer S) → Answer S
  store_bytes offset bytes v k =
      if available v.memory offset (length bytes)
      then k (record v { memory = overwrite v.memory offset bytes })
      else answer errno_fault v

unfoldable pub load_u32 : List ℕ → ℕ → Option ℕ
load_u32 memory offset =
    if available memory offset 4 then some (read_value 4 memory offset) else none

-- `data(offset, length)`, as the bytes it points to
unfoldable pub data_at : List ℕ → ℕ → ℕ → Option (List ℕ)
data_at memory offset size =
    if available memory offset size then some (take size (drop offset memory)) else none
