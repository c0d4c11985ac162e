-- ===== src/Exec/Bulk.antt =====
-- src/interpreter.cpp: bulk memory and table instructions (prefix 0xFC, codes 0x08 to 0x11).
use web_assembly_interpreter.Base.{
  Action, List, String, check, drop, get_elem?, gets, if◌then◌else◌, leb, length, lift, ltb, modify,
  not, overwrite, replicate, require, set, take, trap, true, ℕ, ◌%◌, ◌++◌, ◌+◌, ◌-◌, ◌>>=◌, ◌>>◌,
  ◌^◌, ◌||◌,
}
use web_assembly_interpreter.Exec.Access.{put_memory}
use web_assembly_interpreter.Exec.Flow.{require_non_negative, table_at}
use web_assembly_interpreter.Exec.Machine.{Machine, on_reader, on_stack, on_store}
use web_assembly_interpreter.Exec.Variables.{put_table}
use web_assembly_interpreter.Memory.{MemoryInstance, over_maximum}
use web_assembly_interpreter.Numeric.Word.{minus_one}
use web_assembly_interpreter.Reader.{read_varuint32}
use web_assembly_interpreter.Stack.{load_result, pop_i32, pop_reference, push, push_as}
use web_assembly_interpreter.Store.{DataSegmentInstance, Store}
use web_assembly_interpreter.Types.{int32, same_type}

unfoldable pub memory_at : ℕ → String → Action Machine MemoryInstance
memory_at index message = do
  memories ← gets (λ m. m.store.memories)
  require (trap message) (get_elem? memories index)

unfoldable pub segment_at : ℕ → String → Action Machine DataSegmentInstance
segment_at index message = do
  segments ← gets (λ m. m.store.data_segments)
  require (trap message) (get_elem? segments index)

-- `count` elements from position `from` on
abbrev pub slice : {A : Type 0} → ℕ → ℕ → List A → List A
slice from count xs = take count (drop from xs)

unfoldable pub memory_init : Action Machine (Unit {0})
memory_init = do
  data_index ← on_reader read_varuint32
  memory_index ← on_reader read_varuint32
  memory ← memory_at memory_index "memory.init memory index out of bounds"
  segment ← segment_at data_index "memory.init data index out of bounds"
  size_value ← on_stack pop_i32
  src_value ← on_stack pop_i32
  dest_value ← on_stack pop_i32
  size ← lift (require_non_negative size_value "memory.init size must be non-negative")
  src ← lift (require_non_negative src_value "memory.init source offset must be non-negative")
  dest ← lift (require_non_negative dest_value "memory.init destination must be non-negative")
  check (not segment.dropped) (trap "memory.init on dropped data segment")
  check (leb (src + size) (length segment.bytes)) (trap "memory.init source out of bounds")
  check (leb (dest + size) (length memory.contents)) (trap "memory.init destination out of bounds")
  on_store (
      put_memory memory_index (record memory {
        contents = overwrite memory.contents dest (slice src size segment.bytes);
      }))

unfoldable pub mark_dropped : ℕ → DataSegmentInstance → Action Store (Unit {0})
mark_dropped index segment = modify (λ s. record s {
  data_segments = set s.data_segments index (record segment { dropped = true });
})

unfoldable pub data_drop : Action Machine (Unit {0})
data_drop = do
  data_index ← on_reader read_varuint32
  segment ← segment_at data_index "data.drop index out of bounds"
  on_store (mark_dropped data_index segment)

-- `memmove` and `memcpy` both write what the source held before.
unfoldable pub memory_copy : Action Machine (Unit {0})
memory_copy = do
  dest_index ← on_reader read_varuint32
  src_index ← on_reader read_varuint32
  dest_memory ← memory_at dest_index "memory.copy memory index out of bounds"
  src_memory ← memory_at src_index "memory.copy memory index out of bounds"
  size_value ← on_stack pop_i32
  src_value ← on_stack pop_i32
  dest_value ← on_stack pop_i32
  size ← lift (require_non_negative size_value "memory.copy size must be non-negative")
  src ← lift (require_non_negative src_value "memory.copy source must be non-negative")
  dest ← lift (require_non_negative dest_value "memory.copy destination must be non-negative")
  check (leb (src + size) (length src_memory.contents)) (trap "memory.copy out of bounds")
  check (leb (dest + size) (length dest_memory.contents)) (trap "memory.copy out of bounds")
  on_store (
      put_memory dest_index (record dest_memory {
        contents = overwrite dest_memory.contents dest (slice src size src_memory.contents);
      }))

unfoldable pub memory_fill : Action Machine (Unit {0})
memory_fill = do
  memory_index ← on_reader read_varuint32
  memory ← memory_at memory_index "memory.fill memory index out of bounds"
  size_value ← on_stack pop_i32
  fill_value ← on_stack pop_i32
  dest_value ← on_stack pop_i32
  size ← lift (require_non_negative size_value "memory.fill size must be non-negative")
  dest ← lift (require_non_negative dest_value "memory.fill destination must be non-negative")
  check (leb (dest + size) (length memory.contents)) (trap "memory.fill out of bounds")
  on_store (
      put_memory memory_index (record memory {
        contents = overwrite memory.contents dest (replicate size (fill_value % 256));
      }))

-- Within one table the elements go through a copy, so both cases write what was there before.
unfoldable pub table_copy : Action Machine (Unit {0})
table_copy = do
  dest_index ← on_reader read_varuint32
  src_index ← on_reader read_varuint32
  dest_table ← table_at dest_index "table.copy table index out of bounds"
  src_table ← table_at src_index "table.copy table index out of bounds"
  count_value ← on_stack pop_i32
  count ← lift (require_non_negative count_value "table.copy count must be non-negative")
  src_value ← on_stack pop_i32
  src ← lift (require_non_negative src_value "table.copy source offset must be non-negative")
  dest_value ← on_stack pop_i32
  dest ← lift (require_non_negative dest_value "table.copy destination offset must be non-negative")
  check (same_type dest_table.value_type src_table.value_type) (trap "table.copy type mismatch")
  check (leb (src + count) (length src_table.elements)) (trap "table.copy out of bounds")
  check (leb (dest + count) (length dest_table.elements)) (trap "table.copy out of bounds")
  on_store (
      put_table dest_index dest_table
        (overwrite dest_table.elements dest (slice src count src_table.elements)))

-- The host is taken to find the memory. A size that is refused answers -1.
unfoldable pub table_grow : Action Machine (Unit {0})
table_grow = do
  table_index ← on_reader read_varuint32
  table ← table_at table_index "table.grow table index out of bounds"
  delta_value ← on_stack pop_i32
  delta ← lift (require_non_negative delta_value "table.grow delta must be non-negative")
  value ← on_stack (pop_reference table.value_type)
  let previous = length table.elements % 2 ^ 32
  let new_size = previous + delta
  let refuse : Action Machine (Unit {0}) = on_stack (push (int32 (minus_one 32)))
  let extend : Action Machine (Unit {0}) = (do
    on_store (put_table table_index table (table.elements ++ replicate delta value))
    on_stack (push (int32 previous)))
  if ltb (2 ^ 32 - 1) new_size || over_maximum table.type.limits.max_size new_size
      then refuse
      else extend

unfoldable pub table_size : Action Machine (Unit {0})
table_size = do
  table_index ← on_reader read_varuint32
  table ← table_at table_index "table.size table index out of bounds"
  on_stack (push_as load_result (int32 (length table.elements % 2 ^ 32)))

unfoldable pub table_fill : Action Machine (Unit {0})
table_fill = do
  table_index ← on_reader read_varuint32
  table ← table_at table_index "table.fill table index out of bounds"
  count_value ← on_stack pop_i32
  count ← lift (require_non_negative count_value "table.fill count must be non-negative")
  value ← on_stack (pop_reference table.value_type)
  offset_value ← on_stack pop_i32
  offset ← lift (require_non_negative offset_value "table.fill offset must be non-negative")
  check (leb (offset + count) (length table.elements)) (trap "table.fill out of bounds")
  on_store (put_table table_index table (overwrite table.elements offset (replicate count value)))
