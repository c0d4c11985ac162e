-- ===== src/Exec/Flow.antt =====
-- src/interpreter.cpp: the control instructions (opcodes 0x00 to 0x11).
use web_assembly_interpreter.Base.{
  Action, List, Option, Result, String, [], check, err, false, get_elem?, get_or, gets,
  if◌then◌else◌, leb, length, lift, ltb, modify, none, not, ok, out_of_range, pure, require, some,
  throw, trap, true, ℕ, ◌&&◌, ◌-◌, ◌==◌, ◌>>=◌, ◌>>◌, ◌^◌, ◌∷◌,
}
use web_assembly_interpreter.Control.{
  BlockInfo, BrTableImmediate, analyze_block, parse_block_signature, read_br_table,
}
use web_assembly_interpreter.Exec.Machine.{
  ControlFrame, FrameKind, Machine, Next, block_frame, branch, call, extract_values, finished,
  function_frame, go, if_frame, loop_frame, on_reader, on_stack, set_frames,
}
use web_assembly_interpreter.Module.{same_signature}
use web_assembly_interpreter.Reader.{read_varuint32, set_offset}
use web_assembly_interpreter.Stack.{
  StackValue, pop_arguments, pop_i32, pop_results, push_results, resize_stack,
}
use web_assembly_interpreter.Store.{TableInstance}
use web_assembly_interpreter.Types.{ValueType, funcref, funcref_index, is_null_ref, same_type}

unfoldable pub frame_kind : ℕ → FrameKind
frame_kind op = if op == 0x02 then block_frame else if op == 0x03 then loop_frame else if_frame

unfoldable pub new_frame : FrameKind → List ValueType → BlockInfo → ℕ → ControlFrame
new_frame kind signature info height = record {
  kind = kind;
  signature = signature;
  start_pc = info.body_start;
  end_pc = info.end_pc;
  end_next_pc = info.end_next_pc;
  else_pc = info.else_pc;
  else_body_pc = info.else_body_pc;
  stack_height = height;
  executing_else = false;
}

abbrev pub push_frame : ControlFrame → Action Machine (Unit {0})
push_frame f = modify (λ m. record m { frames = f ∷ m.frames })

-- the branch of `if` on a zero: the `else` part, or the `end`
unfoldable pub enter_else : ControlFrame → Option ℕ → Action Machine (Unit {0})
enter_else frame (some pc) = do
  on_reader (set_offset pc)
  push_frame (record frame { executing_else = true })
enter_else frame none = do on_reader (set_offset frame.end_pc); push_frame frame

unfoldable pub enter_if : ControlFrame → Action Machine (Unit {0})
enter_if frame = do
  condition ← on_stack pop_i32
  height ← gets (λ m. length m.stack)
  let frame' = record frame { stack_height = height }
  let otherwise = enter_else frame' frame'.else_body_pc
  if condition == 0 then otherwise else push_frame frame'

-- block, loop and if
unfoldable pub enter_block : ℕ → Action Machine Next
enter_block op = do
  types ← gets (λ m. m.store.types)
  signature ← on_reader (parse_block_signature types)
  body_start ← gets (λ m. m.reader.offset)
  code ← gets (λ m. m.reader.bytes)
  info ← lift (analyze_block code body_start)
  height ← gets (λ m. length m.stack)
  let frame = new_frame (frame_kind op) signature info height
  if op == 0x04 then enter_if frame else push_frame frame
  pure go

unfoldable pub jump_over_else : FrameKind → ControlFrame → Action Machine Next
jump_over_else if_frame frame = do on_reader (set_offset frame.end_pc); pure go
jump_over_else kind frame = throw (trap "Unexpected else")

unfoldable pub else_frame : List ControlFrame → Action Machine Next
else_frame [] = throw (trap "Unexpected else")
else_frame (frame ∷ outer) = jump_over_else frame.kind frame

unfoldable pub else_op : Action Machine Next
else_op = do frames ← gets (λ m. m.frames); else_frame frames

unfoldable pub finish_frame : FrameKind → ControlFrame → List StackValue → Action Machine Next
finish_frame function_frame frame results = pure (finished (extract_values results))
finish_frame kind frame results = do on_reader (set_offset frame.end_next_pc); pure go

unfoldable pub end_frame : List ControlFrame → Action Machine Next
end_frame [] = throw (trap "Control stack underflow on end")
end_frame (frame ∷ outer) = do
  set_frames outer
  results ← on_stack (pop_results (length frame.signature))
  on_stack (modify (resize_stack frame.stack_height))
  on_stack (push_results results)
  finish_frame frame.kind frame results

unfoldable pub end_op : Action Machine Next
end_op = do frames ← gets (λ m. m.frames); end_frame frames

-- A branch out of the function returns what its signature names.
unfoldable pub branch_or_return : ℕ → Action Machine Next
branch_or_return depth = do
  returning ← branch depth
  let leave : Action Machine Next = (do
    types ← gets (λ m. m.results)
    results ← on_stack (pop_results (length types))
    pure (finished (extract_values results)))
  if returning then leave else pure go

unfoldable pub br : Action Machine Next
br = do depth ← on_reader read_varuint32; branch_or_return depth

unfoldable pub br_if : Action Machine Next
br_if = do
  depth ← on_reader read_varuint32
  condition ← on_stack pop_i32
  let taken = branch_or_return depth
  if condition == 0 then pure go else taken

-- A negative index, as one out of range, takes the default.
unfoldable pub br_table_target : BrTableImmediate → ℕ → ℕ
br_table_target table index =
    if ltb index (2 ^ 31) && ltb index (length table.targets)
    then get_or table.targets index 0
    else table.default_target

unfoldable pub br_table : Action Machine Next
br_table = do
  table ← on_reader read_br_table
  index ← on_stack pop_i32
  branch_or_return (br_table_target table index)

unfoldable pub return_op : Action Machine Next
return_op = do frames ← gets (λ m. m.frames); branch_or_return (length frames - 1)

-- The callee's arguments come off the stack, as many as its signature has.
unfoldable pub call_op : Action Machine Next
call_op = do
  index ← on_reader read_varuint32
  functions ← gets (λ m. m.store.functions)
  callee ← require (out_of_range "vector::at") (get_elem? functions index)
  arguments ← on_stack (pop_arguments (length callee.signature.params))
  pure (call index arguments)

unfoldable pub require_non_negative : ℕ → String → Result ℕ
require_non_negative v what = if leb (2 ^ 31) v then err (trap what) else ok v

unfoldable pub table_at : ℕ → String → Action Machine TableInstance
table_at index message = do
  tables ← gets (λ m. m.store.tables)
  require (trap message) (get_elem? tables index)

unfoldable pub call_indirect : Action Machine Next
call_indirect = do
  index ← on_reader read_varuint32
  table_index ← on_reader read_varuint32
  table ← table_at table_index "Table index out of bounds"
  position ← on_stack pop_i32
  check (same_type table.value_type funcref)
      (trap "call_indirect on table without funcref elements")
  entry_index ←
      lift (require_non_negative position "call_indirect table index must be non-negative")
  element ←
      require (trap "call_indirect index out of bounds") (get_elem? table.elements entry_index)
  check (not (is_null_ref element)) (trap "call_indirect to uninitialized table element")
  target ← lift (funcref_index element)
  types ← gets (λ m. m.store.types)
  expected ← require (trap "call_indirect type index out of range") (get_elem? types index)
  functions ← gets (λ m. m.store.functions)
  callee ← require (out_of_range "vector::at") (get_elem? functions target)
  check (same_signature expected callee.signature) (trap "call_indirect signature mismatch")
  arguments ← on_stack (pop_arguments (length callee.signature.params))
  pure (call target arguments)
