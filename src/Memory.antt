-- ===== src/Memory.antt =====
-- src/interpreter.cpp: `MemoryInstance`, the address check and little-endian access.
pub mod Size
pub mod Access
pub mod Overwrite
use web_assembly_interpreter.Base.{
  Bool, List, Option, Result, err, false, get_or, if◌then◌else◌, length, ltb, none, ok, replicate,
  set, some, suc, take, trap, zero, ℕ, ◌%◌, ◌*◌, ◌++◌, ◌+◌, ◌-◌, ◌/◌, ◌^◌,
}
use web_assembly_interpreter.Module.{MemoryType}

abbrev pub page_size : ℕ
page_size = 65536

pub record MemArg : Type 0 where
  pub align : ℕ
  pub offset : ℕ

pub record MemoryInstance : Type 0 where
  pub type : MemoryType
  pub contents : List ℕ

unfoldable pub new_memory : MemoryType → MemoryInstance
new_memory t = record { type = t; contents = replicate (t.limits.min_size * page_size) 0 }

unfoldable pub size_in_pages : MemoryInstance → ℕ
size_in_pages m = length m.contents / page_size % 2 ^ 32

-- `type.limits.max && size > *type.limits.max`
abbrev pub over_maximum : Option ℕ → ℕ → Bool
over_maximum none n = false
over_maximum (some high) n = ltb high n

-- `data.resize(n, 0)`
abbrev pub resize_bytes : ℕ → List ℕ → List ℕ
resize_bytes n xs = take n xs ++ replicate (n - length xs) 0

-- `none` is the answer `false`: nothing has changed.
unfoldable pub grow : ℕ → MemoryInstance → Option MemoryInstance
grow delta m =
    let new_pages = size_in_pages m + delta in
    if ltb (2 ^ 32 - 1) new_pages
    then none
    else if over_maximum m.type.limits.max_size new_pages
    then none
    else some (record m { contents = resize_bytes (new_pages * page_size) m.contents })

-- The sum is of 64 bits, so it does not wrap; the address comes back as 32 bits.
unfoldable pub checked_address : ℕ → MemArg → ℕ → MemoryInstance → Result ℕ
checked_address base arg width m =
    let address = base + arg.offset in
    if ltb (length m.contents) (address + width)
    then err (trap "Memory access out of bounds")
    else ok (address % 2 ^ 32)

-- `std::memcpy` of `n` bytes, lowest first
unfoldable pub read_value : ℕ → List ℕ → ℕ → ℕ
read_value zero bs address = 0
read_value (suc n) bs address = get_or bs address 0 % 256 + 256 * read_value n bs (suc address)

unfoldable pub write_value : ℕ → List ℕ → ℕ → ℕ → List ℕ
write_value zero bs address v = bs
write_value (suc n) bs address v = write_value n (set bs address (v % 256)) (suc address) (v / 256)
