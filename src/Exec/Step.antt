-- ===== src/Exec/Step.antt =====
-- src/interpreter.cpp: the switch of `execute_function`, and one round of its loop. A group of
-- opcodes is picked by its range; within it the opcode picks the case.
use web_assembly_interpreter.Base.{
  Action, Bool, [], gets, if◌then◌else◌, leb, length, pure, switch, throw, trap, ℕ, ◌&&◌, ◌-◌, ◌==◌,
  ◌>>=◌, ◌∷◌,
}
use web_assembly_interpreter.Exec.Access.{access_op}
use web_assembly_interpreter.Exec.Bulk.{
  data_drop, memory_copy, memory_fill, memory_init, table_copy, table_fill, table_grow, table_size,
}
use web_assembly_interpreter.Exec.Flow.{
  br, br_if, br_table, call_indirect, call_op, else_op, end_op, enter_block, return_op,
}
use web_assembly_interpreter.Exec.Machine.{Machine, Next, go, on_reader}
use web_assembly_interpreter.Exec.Numbers.{
  constant, convert, float_arith, float_compare, int_arith, int_compare, truncate_saturating,
}
use web_assembly_interpreter.Exec.Variables.{
  drop_op, global_get_op, global_set, local_get, local_set, local_tee, ref_func_op, ref_is_null,
  ref_null_op, select, table_get, table_set,
}
use web_assembly_interpreter.Numeric.Float.{FloatUnit, double, single}
use web_assembly_interpreter.Reader.{
  read_f32, read_f64, read_u8, read_varint32, read_varint64, read_varuint32,
}
use web_assembly_interpreter.Stack.{pop_f32, pop_f64, pop_i32, pop_i64}
use web_assembly_interpreter.Types.{float32, float64, int32, int64}

abbrev pub then_go : Action Machine (Unit {0}) → Action Machine Next
then_go m = m >>= λ _. pure go

abbrev pub in_range : ℕ → ℕ → ℕ → Bool
in_range low high op = leb low op && leb op high

unfoldable pub control_op : ℕ → Action Machine Next
control_op op =
    switch op
      ((0x00, throw (trap "Unreachable executed"))
        ∷ (0x01, pure go)
        ∷ (0x02, enter_block op)
        ∷ (0x03, enter_block op)
        ∷ (0x04, enter_block op)
        ∷ (0x05, else_op)
        ∷ (0x0B, end_op)
        ∷ (0x0C, br)
        ∷ (0x0D, br_if)
        ∷ (0x0E, br_table)
        ∷ (0x0F, return_op)
        ∷ (0x10, call_op)
        ∷ (0x11, call_indirect)
        ∷ [])
      (throw (trap "Unsupported opcode encountered: "))

unfoldable pub variable_op : ℕ → Action Machine (Unit {0})
variable_op op =
    switch op
      ((0x1A, drop_op)
        ∷ (0x1B, select)
        ∷ (0x1C, throw (trap "typed select not supported"))
        ∷ (0x20, local_get)
        ∷ (0x21, local_set)
        ∷ (0x22, local_tee)
        ∷ (0x23, global_get_op)
        ∷ (0x24, global_set)
        ∷ (0x25, table_get)
        ∷ (0x26, table_set)
        ∷ (0xD0, ref_null_op)
        ∷ (0xD1, ref_is_null)
        ∷ (0xD2, ref_func_op)
        ∷ [])
      (throw (trap "Unsupported opcode encountered: "))

unfoldable pub constant_op : ℕ → Action Machine (Unit {0})
constant_op op =
    switch op
      ((0x41, constant read_varint32 int32)
        ∷ (0x42, constant read_varint64 int64)
        ∷ (0x43, constant read_f32 float32)
        ∷ [])
      (constant read_f64 float64)

unfoldable pub prefixed_op : ℕ → Action Machine (Unit {0})
prefixed_op code =
    if leb code 0x07
    then truncate_saturating code
    else switch code
        ((0x08, memory_init)
          ∷ (0x09, data_drop)
          ∷ (0x0A, memory_copy)
          ∷ (0x0B, memory_fill)
          ∷ (0x0C, throw (trap "table.init is not supported"))
          ∷ (0x0D, throw (trap "elem.drop is not supported"))
          ∷ (0x0E, table_copy)
          ∷ (0x0F, table_grow)
          ∷ (0x10, table_size)
          ∷ (0x11, table_fill)
          ∷ [])
        (throw (trap "Unsupported 0xFC prefixed opcode: "))

module _ (unit : FloatUnit) where
  unfoldable pub numeric_op : ℕ → Action Machine (Unit {0})
  numeric_op op =
      if leb op 0x5A
      then int_compare op
      else if leb op 0x60
      then float_compare (op - 0x5B) pop_f32 single
      else if leb op 0x66
      then float_compare (op - 0x61) pop_f64 double
      else if leb op 0x78
      then int_arith (op - 0x67) 32 pop_i32 int32
      else if leb op 0x8A
      then int_arith (op - 0x79) 64 pop_i64 int64
      else if leb op 0x98
      then float_arith unit (op - 0x8B) single pop_f32 float32
      else if leb op 0xA6
      then float_arith unit (op - 0x99) double pop_f64 float64
      else convert unit op

  unfoldable pub dispatch : ℕ → Action Machine Next
  dispatch op =
      if leb op 0x11
      then control_op op
      else if leb op 0x26
      then then_go (variable_op op)
      else if in_range 0x28 0x40 op
      then then_go (access_op op)
      else if in_range 0x41 0x44 op
      then then_go (constant_op op)
      else if in_range 0x45 0xC4 op
      then then_go (numeric_op op)
      else if op == 0xFC
      then (on_reader read_varuint32 >>= λ code. then_go (prefixed_op code))
      else then_go (variable_op op)

  -- One round of the loop.
  unfoldable pub step : Action Machine Next
  step = do
    ended ← gets (λ m. leb (length m.reader.bytes) m.reader.offset)
    let round : Action Machine Next = (do op ← on_reader read_u8; dispatch op)
    if ended then throw (trap "Reached end of code without function end") else round
