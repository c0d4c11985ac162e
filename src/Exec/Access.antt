-- ===== src/Exec/Access.antt =====
-- src/interpreter.cpp: loads, stores, memory.size and memory.grow (opcodes 0x28 to 0x40).
use web_assembly_interpreter.Base.{
  Action, Option, [], get_elem?, gets, if◌then◌else◌, leb, lift, modify, none, pure, require, set,
  some, switch, trap, ℕ, ◌>>=◌, ◌>>◌, ◌^◌, ◌∷◌,
}
use web_assembly_interpreter.Control.{read_memarg}
use web_assembly_interpreter.Exec.Machine.{Machine, on_reader, on_stack, on_store}
use web_assembly_interpreter.Memory.{
  MemoryInstance, checked_address, grow, read_value, size_in_pages, write_value,
}
use web_assembly_interpreter.Numeric.Word.{extend_s, minus_one}
use web_assembly_interpreter.Reader.{read_varuint32}
use web_assembly_interpreter.Stack.{
  OperandStack, load_result, pop_f32, pop_f64, pop_i32, pop_i64, push, push_as,
  should_use_second_value_for_store,
}
use web_assembly_interpreter.Store.{Store}
use web_assembly_interpreter.Types.{Value, float32, float64, int32, int64}

unfoldable pub load_memory : ℕ → Action Machine MemoryInstance
load_memory index = do
  memories ← gets (λ m. m.store.memories)
  require (trap "Memory index out of bounds") (get_elem? memories index)

unfoldable pub put_memory : ℕ → MemoryInstance → Action Store (Unit {0})
put_memory index memory = modify (λ s. record s { memories = set s.memories index memory })

-- A load of `width` bytes, and what it makes of them.
unfoldable pub load_op : ℕ → (ℕ → Value) → Action Machine (Unit {0})
load_op width make = do
  memarg ← on_reader read_memarg
  address ← on_stack pop_i32
  memory ← load_memory 0
  effective ← lift (checked_address address memarg width memory)
  on_stack (push_as load_result (make (read_value width memory.contents effective)))

-- The address and the value, in the order that `should_use_second_value_for_store` picks.
unfoldable pub pop_store_operands : Action OperandStack ℕ → Action OperandStack (ℕ × ℕ)
pop_store_operands pop_number = do
  use_second_as_value ← gets should_use_second_value_for_store
  let swapped : Action OperandStack (ℕ × ℕ) = (do
    address ← pop_i32
    value ← pop_number
    pure (address, value))
  let in_order : Action OperandStack (ℕ × ℕ) = (do
    value ← pop_number
    address ← pop_i32
    pure (address, value))
  if use_second_as_value then swapped else in_order

-- A store of the low `width` bytes.
unfoldable pub store_op : ℕ → Action OperandStack ℕ → Action Machine (Unit {0})
store_op width pop_number = do
  memarg ← on_reader read_memarg
  operands ← on_stack (pop_store_operands pop_number)
  memory ← load_memory 0
  effective ← lift (checked_address operands.0 memarg width memory)
  on_store (
      put_memory 0
        (record memory { contents = write_value width memory.contents effective operands.1 }))

unfoldable pub memory_size : Action Machine (Unit {0})
memory_size = do
  on_reader read_varuint32
  memory ← load_memory 0
  on_stack (push (int32 (size_in_pages memory)))

unfoldable pub finish_grow : MemoryInstance → Option MemoryInstance → Action Machine (Unit {0})
finish_grow memory none = on_stack (push (int32 (minus_one 32)))
finish_grow memory (some memory') = do
  on_store (put_memory 0 memory')
  on_stack (push (int32 (size_in_pages memory)))

-- A negative delta, or a size that is refused, answers -1 and changes nothing.
unfoldable pub memory_grow : Action Machine (Unit {0})
unfolding finish_grow
memory_grow = do
  on_reader read_varuint32
  delta ← on_stack pop_i32
  memory ← load_memory 0
  finish_grow memory (if leb (2 ^ 31) delta then none else grow delta memory)

-- the switch cases
unfoldable pub access_op : ℕ → Action Machine (Unit {0})
access_op op =
    switch op
      ((0x28, load_op 4 int32)
        ∷ (0x29, load_op 8 int64)
        ∷ (0x2A, load_op 4 float32)
        ∷ (0x2B, load_op 8 float64)
        ∷ (0x2C, load_op 1 (λ v. int32 (extend_s 8 32 v)))
        ∷ (0x2D, load_op 1 int32)
        ∷ (0x2E, load_op 2 (λ v. int32 (extend_s 16 32 v)))
        ∷ (0x2F, load_op 2 int32)
        ∷ (0x30, load_op 1 (λ v. int64 (extend_s 8 64 v)))
        ∷ (0x31, load_op 1 int64)
        ∷ (0x32, load_op 2 (λ v. int64 (extend_s 16 64 v)))
        ∷ (0x33, load_op 2 int64)
        ∷ (0x34, load_op 4 (λ v. int64 (extend_s 32 64 v)))
        ∷ (0x35, load_op 4 int64)
        ∷ (0x36, store_op 4 pop_i32)
        ∷ (0x37, store_op 8 pop_i64)
        ∷ (0x38, store_op 4 pop_f32)
        ∷ (0x39, store_op 8 pop_f64)
        ∷ (0x3A, store_op 1 pop_i32)
        ∷ (0x3B, store_op 2 pop_i32)
        ∷ (0x3C, store_op 1 pop_i64)
        ∷ (0x3D, store_op 2 pop_i64)
        ∷ (0x3E, store_op 4 pop_i64)
        ∷ (0x3F, memory_size)
        ∷ [])
      memory_grow
