-- ===== src/Runner/Arguments.antt =====
-- examples/run_wat_module.cpp: args_sizes_get, args_get, environ_sizes_get and environ_get. The two
-- pairs run the same code, on `args_` and on `env_`.
use web_assembly_interpreter.Base.{
  List, Option, [], if◌then◌else◌, leb, length, none, some, take, ℕ, ◌%◌, ◌+◌, ◌-◌, ◌^◌, ◌∷◌,
}
use web_assembly_interpreter.Embed.Wasi.{errno_success}
use web_assembly_interpreter.Runner.Accessor.{store_bytes, store_u32}
use web_assembly_interpreter.Runner.World.{Answer, View, answer, errno_inval}
use web_assembly_interpreter.Stack.{entry}

-- The loop over the sizes, with the sum in 32 bits; `none` where a string is too long.
unfoldable pub total_size : List (List ℕ) → ℕ → Option ℕ
total_size [] total = some total
total_size (entry ∷ entries) total =
    let rest = total_size entries ((total + (length entry + 1)) % 2 ^ 32) in
    if leb (2 ^ 32 - 1) (length entry) then none else rest

module _ {S : Type 0} where
  unfoldable pub sizes_get : List (List ℕ) → ℕ → ℕ → View S → Answer S
  sizes_get entries count_ptr buf_size_ptr v = elim (total_size entries 0) [
    | none ↦ answer errno_inval v
    | some total ↦
        store_u32 count_ptr (length entries) v
          λ v₁. store_u32 buf_size_ptr total v₁ λ v₂. answer errno_success v₂
  ]

  -- The loop: the pointer, the bytes and a zero for each entry. `slot` is `argv_ptr + i * 4`.
  unfoldable pub strings_get : List (List ℕ) → ℕ → ℕ → View S → Answer S
  strings_get [] slot buf_ptr v = answer errno_success v
  strings_get (entry ∷ entries) slot buf_ptr v =
      let size = length entry % 2 ^ 32 in
      store_u32 slot buf_ptr v λ v₁. store_bytes buf_ptr (take size entry) v₁ λ v₂.
        store_bytes ((buf_ptr + size) % 2 ^ 32) (0 ∷ []) v₂
          λ v₃. strings_get entries ((slot + 4) % 2 ^ 32) ((buf_ptr + (size + 1)) % 2 ^ 32) v₃
