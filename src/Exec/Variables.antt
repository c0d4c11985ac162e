-- ===== src/Exec/Variables.antt =====
-- src/interpreter.cpp: drop, select, locals, globals, table reads and writes, references
-- (opcodes 0x1A to 0x26 and 0xD0 to 0xD2).
use web_assembly_interpreter.Base.{
  Action, List, String, [], check, get_elem?, gets, if◌then◌else◌, length, lift, ltb, modify, none,
  pure, require, set, some, switch, throw, trap, ℕ, ◌==◌, ◌>>=◌, ◌>>◌, ◌∷◌,
}
use web_assembly_interpreter.Exec.Flow.{require_non_negative, table_at}
use web_assembly_interpreter.Exec.Machine.{Machine, on_reader, on_stack, on_store}
use web_assembly_interpreter.Numeric.Word.{bool_value}
use web_assembly_interpreter.Reader.{read_varuint32, read_varuint7}
use web_assembly_interpreter.Stack.{
  load_result, pop_any_reference_entry, pop_i32, pop_reference, pop_value, push, push_as,
}
use web_assembly_interpreter.Store.{GlobalInstance, Store, TableInstance}
use web_assembly_interpreter.Types.{Value, extern_ref, func_ref, int32, is_null_ref}

unfoldable pub drop_op : Action Machine (Unit {0})
drop_op = do on_stack pop_value; pure tt

unfoldable pub select : Action Machine (Unit {0})
select = do
  condition ← on_stack pop_i32
  value₂ ← on_stack pop_value
  value₁ ← on_stack pop_value
  on_stack (push (if condition == 0 then value₂ else value₁))

unfoldable pub local_get : Action Machine (Unit {0})
local_get = do
  index ← on_reader read_varuint32
  locals ← gets (λ m. m.locals)
  value ← require (trap "local.get index out of bounds") (get_elem? locals index)
  on_stack (push value)

abbrev pub set_local : ℕ → Value → Action Machine (Unit {0})
set_local index value = modify (λ m. record m { locals = set m.locals index value })

unfoldable pub local_set : Action Machine (Unit {0})
local_set = do
  index ← on_reader read_varuint32
  locals ← gets (λ m. m.locals)
  require (trap "local.set index out of bounds") (get_elem? locals index)
  value ← on_stack pop_value
  set_local index value

unfoldable pub local_tee : Action Machine (Unit {0})
local_tee = do
  index ← on_reader read_varuint32
  locals ← gets (λ m. m.locals)
  require (trap "local.tee index out of bounds") (get_elem? locals index)
  value ← on_stack pop_value
  set_local index value
  on_stack (push value)

unfoldable pub global_at : ℕ → String → Action Machine GlobalInstance
global_at index message = do
  globals ← gets (λ m. m.store.globals)
  require (trap message) (get_elem? globals index)

unfoldable pub global_get_op : Action Machine (Unit {0})
global_get_op = do
  index ← on_reader read_varuint32
  global ← global_at index "global.get index out of bounds"
  on_stack (push global.value)

-- Writes the value of a global, if the global is mutable.
unfoldable pub write_global : ℕ → GlobalInstance → Value → Action Store (Unit {0})
write_global index global value =
    modify (λ s. record s { globals = set s.globals index (record global { value = value }) })

unfoldable pub global_set : Action Machine (Unit {0})
global_set = do
  index ← on_reader read_varuint32
  global ← global_at index "global.set index out of bounds"
  check global.type.is_mutable (trap "Attempt to modify immutable global")
  value ← on_stack pop_value
  on_store (write_global index global value)

unfoldable pub table_get : Action Machine (Unit {0})
table_get = do
  table_index ← on_reader read_varuint32
  table ← table_at table_index "table.get table index out of bounds"
  position ← on_stack pop_i32
  element_index ← lift (require_non_negative position "table.get offset must be non-negative")
  element ← require (trap "table.get out of bounds") (get_elem? table.elements element_index)
  on_stack (push_as load_result element)

unfoldable pub put_table : ℕ → TableInstance → List Value → Action Store (Unit {0})
put_table index table elements =
    modify (λ s. record s { tables = set s.tables index (record table { elements = elements }) })

unfoldable pub table_set : Action Machine (Unit {0})
table_set = do
  table_index ← on_reader read_varuint32
  table ← table_at table_index "table.set table index out of bounds"
  value ← on_stack (pop_reference table.value_type)
  position ← on_stack pop_i32
  element_index ← lift (require_non_negative position "table.set offset must be non-negative")
  require (trap "table.set out of bounds") (get_elem? table.elements element_index)
  on_store (put_table table_index table (set table.elements element_index value))

unfoldable pub ref_null_op : Action Machine (Unit {0})
ref_null_op = do
  heap_type ← on_reader read_varuint7
  value ←
      switch heap_type ((0x70, pure (func_ref none)) ∷ (0x6F, pure (extern_ref none)) ∷ [])
        (throw (trap "Unsupported heap type for ref.null"))
  on_stack (push value)

unfoldable pub ref_is_null : Action Machine (Unit {0})
ref_is_null = do
  e ← on_stack pop_any_reference_entry
  on_stack (push_as e.origin (int32 (bool_value (is_null_ref e.value))))

unfoldable pub ref_func_op : Action Machine (Unit {0})
ref_func_op = do
  index ← on_reader read_varuint32
  functions ← gets (λ m. m.store.functions)
  check (ltb index (length functions)) (trap "ref.func function index out of bounds")
  on_stack (push (func_ref (some index)))
