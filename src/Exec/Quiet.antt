-- ===== src/Exec/Quiet.antt =====
-- Control, variable, load and numeric instructions, and the store.
pub mod Numeric
use web_assembly_interpreter.Base.{
  Keeps, Keeps-bind, Keeps-pure, Keeps-switch, Keeps-throw, List, Option, String, [], end_cases,
  none, some, ℕ, ◌∷◌, ◌▹◌,
}
use web_assembly_interpreter.Control.Same.{varuint7-SameBytes}
use web_assembly_interpreter.Exec.Access.{load_memory, load_op, memory_size}
use web_assembly_interpreter.Exec.Bulk.{table_size}
use web_assembly_interpreter.Exec.Effect.{
  Quiet, Quiet-IsPreorder, Quiet-on_reader, Quiet-on_stack, Quiet-push_frame, Quiet-set_local,
  quiet_rules,
}
use web_assembly_interpreter.Exec.Flow.{
  br, br_if, br_table, branch_or_return, call_indirect, call_op, else_frame, else_op, end_frame,
  end_op, enter_block, enter_else, enter_if, finish_frame, jump_over_else, return_op, table_at,
}
use web_assembly_interpreter.Exec.Machine.{
  ControlFrame, FrameKind, branch, branch_to, function_frame, if_frame, leave_frame, loop_frame,
}
use web_assembly_interpreter.Exec.Step.{control_op}
use web_assembly_interpreter.Exec.Variables.{
  drop_op, global_at, global_get_op, local_get, local_set, local_tee, ref_func_op, ref_is_null,
  ref_null_op, select, table_get,
}
use web_assembly_interpreter.Stack.{StackValue}
use web_assembly_interpreter.Types.{Value}

load_memory-Quiet : (i : ℕ) → Keeps Quiet (load_memory i)
unfolding load_memory
load_memory-Quiet i = search quiet_rules

table_at-Quiet : (i : ℕ) (e : String) → Keeps Quiet (table_at i e)
unfolding table_at
table_at-Quiet i e = search quiet_rules

global_at-Quiet : (i : ℕ) (e : String) → Keeps Quiet (global_at i e)
unfolding global_at
global_at-Quiet i e = search quiet_rules

leave_frame-Quiet :
    (k : FrameKind) (f : ControlFrame) (fs : List ControlFrame) → Keeps Quiet (leave_frame k f fs)
unfolding leave_frame
leave_frame-Quiet loop_frame f fs = search quiet_rules
leave_frame-Quiet _ f fs = search quiet_rules

branch_to-Quiet : (fs : List ControlFrame) → Keeps Quiet (branch_to fs)
unfolding branch_to
branch_to-Quiet [] = search quiet_rules
branch_to-Quiet (f ∷ fs) = search (quiet_rules, leave_frame-Quiet) depth 12

branch-Quiet : (depth : ℕ) → Keeps Quiet (branch depth)
unfolding branch
branch-Quiet depth = search (quiet_rules, branch_to-Quiet)

branch_or_return-Quiet : (depth : ℕ) → Keeps Quiet (branch_or_return depth)
unfolding branch_or_return
branch_or_return-Quiet depth = search (quiet_rules, branch-Quiet)

enter_else-Quiet : (f : ControlFrame) (pc : Option ℕ) → Keeps Quiet (enter_else f pc)
unfolding enter_else
enter_else-Quiet f (some pc) = search (quiet_rules, Quiet-push_frame)
enter_else-Quiet f none = search (quiet_rules, Quiet-push_frame)

enter_if-Quiet : (f : ControlFrame) → Keeps Quiet (enter_if f)
unfolding enter_if
enter_if-Quiet f = search (quiet_rules, Quiet-push_frame, enter_else-Quiet)

enter_block-Quiet : (op : ℕ) → Keeps Quiet (enter_block op)
unfolding enter_block
enter_block-Quiet op = search (quiet_rules, Quiet-push_frame, enter_if-Quiet) depth 20

else_op-Quiet : Keeps Quiet else_op
unfolding else_op
else_op-Quiet = search (quiet_rules, else_frame-Quiet)
  where
    jump-Quiet : (k : FrameKind) (f : ControlFrame) → Keeps Quiet (jump_over_else k f)
    jump-Quiet if_frame f = unfold jump_over_else in search quiet_rules
    jump-Quiet _ f = unfold jump_over_else in search quiet_rules

    else_frame-Quiet : (fs : List ControlFrame) → Keeps Quiet (else_frame fs)
    else_frame-Quiet [] = unfold else_frame in search quiet_rules
    else_frame-Quiet (f ∷ fs) = unfold else_frame in jump-Quiet f.kind f

finish_frame-Quiet :
    (k : FrameKind) (f : ControlFrame) (rs : List StackValue) → Keeps Quiet (finish_frame k f rs)
unfolding finish_frame
finish_frame-Quiet function_frame f rs = search quiet_rules
finish_frame-Quiet _ f rs = search quiet_rules

end_frame-Quiet : (fs : List ControlFrame) → Keeps Quiet (end_frame fs)
unfolding end_frame
end_frame-Quiet [] = search quiet_rules
end_frame-Quiet (f ∷ fs) = search (quiet_rules, finish_frame-Quiet) depth 16

end_op-Quiet : Keeps Quiet end_op
unfolding end_op
end_op-Quiet = search (quiet_rules, end_frame-Quiet)

br-Quiet : Keeps Quiet br
unfolding br
br-Quiet = search (quiet_rules, branch_or_return-Quiet)

br_if-Quiet : Keeps Quiet br_if
unfolding br_if
br_if-Quiet = search (quiet_rules, branch_or_return-Quiet) depth 10

br_table-Quiet : Keeps Quiet br_table
unfolding br_table
br_table-Quiet = search (quiet_rules, branch_or_return-Quiet) depth 10

return_op-Quiet : Keeps Quiet return_op
unfolding return_op
return_op-Quiet = search (quiet_rules, branch_or_return-Quiet)

call_op-Quiet : Keeps Quiet call_op
unfolding call_op
call_op-Quiet = search quiet_rules depth 12

call_indirect-Quiet : Keeps Quiet call_indirect
unfolding call_indirect
call_indirect-Quiet = search (quiet_rules, table_at-Quiet) depth 40

-- The control instructions.
pub control_op-Quiet : (op : ℕ) → Keeps Quiet (control_op op)
unfolding control_op
control_op-Quiet op =
    Keeps-switch op
      (Keeps-throw _
        ▹ Keeps-pure _
        ▹ enter_block-Quiet op
        ▹ enter_block-Quiet op
        ▹ enter_block-Quiet op
        ▹ else_op-Quiet
        ▹ end_op-Quiet
        ▹ br-Quiet
        ▹ br_if-Quiet
        ▹ br_table-Quiet
        ▹ return_op-Quiet
        ▹ call_op-Quiet
        ▹ call_indirect-Quiet
        ▹ end_cases)
      (Keeps-throw _)

pub drop_op-Quiet : Keeps Quiet drop_op
unfolding drop_op
drop_op-Quiet = search quiet_rules

pub select-Quiet : Keeps Quiet select
unfolding select
select-Quiet = search quiet_rules depth 12

pub local_get-Quiet : Keeps Quiet local_get
unfolding local_get
local_get-Quiet = search quiet_rules depth 12

pub local_set-Quiet : Keeps Quiet local_set
unfolding local_set
local_set-Quiet = search (quiet_rules, Quiet-set_local) depth 12

pub local_tee-Quiet : Keeps Quiet local_tee
unfolding local_tee
local_tee-Quiet = search (quiet_rules, Quiet-set_local) depth 14

pub global_get_op-Quiet : Keeps Quiet global_get_op
unfolding global_get_op
global_get_op-Quiet = search (quiet_rules, global_at-Quiet) depth 12

pub table_get-Quiet : Keeps Quiet table_get
unfolding table_get
table_get-Quiet = search (quiet_rules, table_at-Quiet) depth 14

pub ref_null_op-Quiet : Keeps Quiet ref_null_op
unfolding ref_null_op
ref_null_op-Quiet = Keeps-bind _ _ (Quiet-on_reader _ varuint7-SameBytes) λ h.
    Keeps-bind _ _ (Keeps-switch h (Keeps-pure _ ▹ Keeps-pure _ ▹ end_cases) (Keeps-throw _))
      λ v. Quiet-on_stack _

pub ref_is_null-Quiet : Keeps Quiet ref_is_null
unfolding ref_is_null
ref_is_null-Quiet = search quiet_rules depth 12

pub ref_func_op-Quiet : Keeps Quiet ref_func_op
unfolding ref_func_op
ref_func_op-Quiet = search quiet_rules depth 14

pub load_op-Quiet : (w : ℕ) (make : ℕ → Value) → Keeps Quiet (load_op w make)
unfolding load_op
load_op-Quiet w make = search (quiet_rules, load_memory-Quiet) depth 14

pub memory_size-Quiet : Keeps Quiet memory_size
unfolding memory_size
memory_size-Quiet = search (quiet_rules, load_memory-Quiet) depth 12

pub table_size-Quiet : Keeps Quiet table_size
unfolding table_size
table_size-Quiet = search (quiet_rules, table_at-Quiet) depth 12
