-- ===== src/Exec/Endings/Writes.antt =====
-- Instructions run out of no fuel: writes, numbers, and a round of the loop.
use web_assembly_interpreter.Base.{
  Action, List, Option, Steady, Steady-bind, Steady-lift, String, none, some, ℕ,
}
use web_assembly_interpreter.Exec.Access.{finish_grow, memory_grow, put_memory, store_op}
use web_assembly_interpreter.Exec.Bulk.{
  data_drop, mark_dropped, memory_at, memory_copy, memory_fill, memory_init, segment_at, table_copy,
  table_fill, table_grow,
}
use web_assembly_interpreter.Exec.Endings.{global_at-Steady, load_memory-Steady, table_at-Steady}
use web_assembly_interpreter.Exec.Machine.{on_store}
use web_assembly_interpreter.Exec.Settled.{
  IsInside, StackSteady, Steady-on_reader, Steady-on_stack, Steady-on_store, address-IsSettled,
  machine_rules, memarg-Reads, operands-Steady,
}
use web_assembly_interpreter.Exec.Variables.{global_set, put_table, table_set, write_global}
use web_assembly_interpreter.Memory.{MemoryInstance}
use web_assembly_interpreter.Stack.{OperandStack}
use web_assembly_interpreter.Store.{DataSegmentInstance, GlobalInstance, TableInstance}
use web_assembly_interpreter.Types.{Value}

memory_at-Steady : (i : ℕ) (e : String) → Steady IsInside (memory_at i e)
unfolding memory_at
memory_at-Steady i e = search machine_rules

segment_at-Steady : (i : ℕ) (e : String) → Steady IsInside (segment_at i e)
unfolding segment_at
segment_at-Steady i e = search machine_rules

put_memory-Steady : (i : ℕ) (m : MemoryInstance) → Steady IsInside (on_store (put_memory i m))
unfolding put_memory
put_memory-Steady i m = Steady-on_store _

put_table-Steady :
    (i : ℕ) (t : TableInstance) (vs : List Value) → Steady IsInside (on_store (put_table i t vs))
unfolding put_table
put_table-Steady i t vs = Steady-on_store _

mark_dropped-Steady :
    (i : ℕ) (g : DataSegmentInstance) → Steady IsInside (on_store (mark_dropped i g))
unfolding mark_dropped
mark_dropped-Steady i g = Steady-on_store _

write_global-Steady :
    (i : ℕ) (g : GlobalInstance) (v : Value) → Steady IsInside (on_store (write_global i g v))
unfolding write_global
write_global-Steady i g v = Steady-on_store _

ruleset write_rules = (
  machine_rules, memory_at-Steady, segment_at-Steady, put_memory-Steady, put_table-Steady,
  mark_dropped-Steady, write_global-Steady, load_memory-Steady, table_at-Steady, global_at-Steady,
)

pub store_op-Steady :
    (w : ℕ) (pop : Action OperandStack ℕ) → StackSteady pop → Steady IsInside (store_op w pop)
unfolding store_op
store_op-Steady w pop h = Steady-bind _ _ (Steady-on_reader _ memarg-Reads) λ arg.
    Steady-bind _ _ (Steady-on_stack _ (operands-Steady pop h)) λ operands.
      Steady-bind _ _ (load_memory-Steady 0) λ m.
        Steady-bind _ _ (Steady-lift _ (address-IsSettled _ arg w m)) λ a. put_memory-Steady 0 _

finish_grow-Steady :
    (m : MemoryInstance) (o : Option MemoryInstance) → Steady IsInside (finish_grow m o)
unfolding finish_grow
finish_grow-Steady m none = search write_rules
finish_grow-Steady m (some n) = search write_rules

pub memory_grow-Steady : Steady IsInside memory_grow
unfolding memory_grow
memory_grow-Steady = search (write_rules, finish_grow-Steady) depth 16

pub memory_init-Steady : Steady IsInside memory_init
unfolding memory_init
memory_init-Steady = search write_rules depth 40

pub data_drop-Steady : Steady IsInside data_drop
unfolding data_drop
data_drop-Steady = search write_rules depth 40

pub memory_copy-Steady : Steady IsInside memory_copy
unfolding memory_copy
memory_copy-Steady = search write_rules depth 40

pub memory_fill-Steady : Steady IsInside memory_fill
unfolding memory_fill
memory_fill-Steady = search write_rules depth 40

pub table_copy-Steady : Steady IsInside table_copy
unfolding table_copy
table_copy-Steady = search write_rules depth 40

pub table_grow-Steady : Steady IsInside table_grow
unfolding table_grow
table_grow-Steady = search write_rules depth 40

pub table_fill-Steady : Steady IsInside table_fill
unfolding table_fill
table_fill-Steady = search write_rules depth 40

pub table_set-Steady : Steady IsInside table_set
unfolding table_set
table_set-Steady = search write_rules depth 40

pub global_set-Steady : Steady IsInside global_set
unfolding global_set
global_set-Steady = search write_rules depth 40
