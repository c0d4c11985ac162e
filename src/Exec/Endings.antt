-- ===== src/Exec/Endings.antt =====
-- Instructions run out of no fuel: control, variables, loads and references.
pub mod Writes
pub mod Round
pub mod Runs
use web_assembly_interpreter.Base.{
  List, Option, Steady, Steady-bind, Steady-pure, Steady-switch, Steady-throw, String, [], no_cases,
  none, own_trap, some, ℕ, ◌∷◌, ◌▹▹◌,
}
use web_assembly_interpreter.Exec.Access.{load_memory, load_op, memory_size}
use web_assembly_interpreter.Exec.Bulk.{table_size}
use web_assembly_interpreter.Exec.Flow.{
  br, br_if, br_table, branch_or_return, call_indirect, call_op, else_frame, else_op, end_frame,
  end_op, enter_block, enter_else, enter_if, finish_frame, jump_over_else, return_op, table_at,
}
use web_assembly_interpreter.Exec.Machine.{
  ControlFrame, FrameKind, branch, branch_to, function_frame, if_frame, leave_frame, loop_frame,
}
use web_assembly_interpreter.Exec.Settled.{
  IsInside, Steady-on_reader, Steady-on_stack, machine_rules, push-Steady,
}
use web_assembly_interpreter.Exec.Step.{control_op}
use web_assembly_interpreter.Exec.Variables.{
  drop_op, global_at, global_get_op, local_get, local_set, local_tee, ref_func_op, ref_is_null,
  ref_null_op, select, table_get,
}
use web_assembly_interpreter.Loader.Total.{varuint7-Reads}
use web_assembly_interpreter.Stack.{StackValue}
use web_assembly_interpreter.Types.{Value}

pub load_memory-Steady : (i : ℕ) → Steady IsInside (load_memory i)
unfolding load_memory
load_memory-Steady i = search machine_rules

pub table_at-Steady : (i : ℕ) (e : String) → Steady IsInside (table_at i e)
unfolding table_at
table_at-Steady i e = search machine_rules

pub global_at-Steady : (i : ℕ) (e : String) → Steady IsInside (global_at i e)
unfolding global_at
global_at-Steady i e = search machine_rules

leave_frame-Steady :
    (k : FrameKind) (f : ControlFrame) (fs : List ControlFrame)
    → Steady IsInside (leave_frame k f fs)
unfolding leave_frame
leave_frame-Steady loop_frame f fs = search machine_rules
leave_frame-Steady _ f fs = search machine_rules

branch_to-Steady : (fs : List ControlFrame) → Steady IsInside (branch_to fs)
unfolding branch_to
branch_to-Steady [] = search machine_rules
branch_to-Steady (f ∷ fs) = search (machine_rules, leave_frame-Steady) depth 12

branch-Steady : (depth : ℕ) → Steady IsInside (branch depth)
unfolding branch
branch-Steady depth = search (machine_rules, branch_to-Steady)

branch_or_return-Steady : (depth : ℕ) → Steady IsInside (branch_or_return depth)
unfolding branch_or_return
branch_or_return-Steady depth = search (machine_rules, branch-Steady) depth 12

enter_else-Steady : (f : ControlFrame) (pc : Option ℕ) → Steady IsInside (enter_else f pc)
unfolding enter_else
enter_else-Steady f (some pc) = search machine_rules
enter_else-Steady f none = search machine_rules

enter_if-Steady : (f : ControlFrame) → Steady IsInside (enter_if f)
unfolding enter_if
enter_if-Steady f = search (machine_rules, enter_else-Steady)

enter_block-Steady : (op : ℕ) → Steady IsInside (enter_block op)
unfolding enter_block
enter_block-Steady op = search (machine_rules, enter_if-Steady) depth 20

else_op-Steady : Steady IsInside else_op
unfolding else_op
else_op-Steady = search (machine_rules, else_frame-Steady)
  where
    jump-Steady : (k : FrameKind) (f : ControlFrame) → Steady IsInside (jump_over_else k f)
    jump-Steady if_frame f = unfold jump_over_else in search machine_rules
    jump-Steady _ f = unfold jump_over_else in search machine_rules

    else_frame-Steady : (fs : List ControlFrame) → Steady IsInside (else_frame fs)
    else_frame-Steady [] = unfold else_frame in search machine_rules
    else_frame-Steady (f ∷ fs) = unfold else_frame in jump-Steady f.kind f

finish_frame-Steady :
    (k : FrameKind) (f : ControlFrame) (rs : List StackValue)
    → Steady IsInside (finish_frame k f rs)
unfolding finish_frame
finish_frame-Steady function_frame f rs = search machine_rules
finish_frame-Steady _ f rs = search machine_rules

end_frame-Steady : (fs : List ControlFrame) → Steady IsInside (end_frame fs)
unfolding end_frame
end_frame-Steady [] = search machine_rules
end_frame-Steady (f ∷ fs) = search (machine_rules, finish_frame-Steady) depth 16

end_op-Steady : Steady IsInside end_op
unfolding end_op
end_op-Steady = search (machine_rules, end_frame-Steady)

br-Steady : Steady IsInside br
unfolding br
br-Steady = search (machine_rules, branch_or_return-Steady)

br_if-Steady : Steady IsInside br_if
unfolding br_if
br_if-Steady = search (machine_rules, branch_or_return-Steady) depth 10

br_table-Steady : Steady IsInside br_table
unfolding br_table
br_table-Steady = search (machine_rules, branch_or_return-Steady) depth 10

return_op-Steady : Steady IsInside return_op
unfolding return_op
return_op-Steady = search (machine_rules, branch_or_return-Steady)

call_op-Steady : Steady IsInside call_op
unfolding call_op
call_op-Steady = search machine_rules depth 12

call_indirect-Steady : Steady IsInside call_indirect
unfolding call_indirect
call_indirect-Steady = search (machine_rules, table_at-Steady) depth 40

-- The control instructions.
pub control_op-Steady : (op : ℕ) → Steady IsInside (control_op op)
unfolding control_op
control_op-Steady op =
    Steady-switch op
      (Steady-throw _ own_trap
        ▹▹ Steady-pure _
        ▹▹ enter_block-Steady op
        ▹▹ enter_block-Steady op
        ▹▹ enter_block-Steady op
        ▹▹ else_op-Steady
        ▹▹ end_op-Steady
        ▹▹ br-Steady
        ▹▹ br_if-Steady
        ▹▹ br_table-Steady
        ▹▹ return_op-Steady
        ▹▹ call_op-Steady
        ▹▹ call_indirect-Steady
        ▹▹ no_cases)
      (Steady-throw _ own_trap)

pub drop_op-Steady : Steady IsInside drop_op
unfolding drop_op
drop_op-Steady = search machine_rules

pub select-Steady : Steady IsInside select
unfolding select
select-Steady = search machine_rules depth 12

pub local_get-Steady : Steady IsInside local_get
unfolding local_get
local_get-Steady = search machine_rules depth 12

pub local_set-Steady : Steady IsInside local_set
unfolding local_set
local_set-Steady = search machine_rules depth 12

pub local_tee-Steady : Steady IsInside local_tee
unfolding local_tee
local_tee-Steady = search machine_rules depth 14

pub global_get_op-Steady : Steady IsInside global_get_op
unfolding global_get_op
global_get_op-Steady = search (machine_rules, global_at-Steady) depth 12

pub table_get-Steady : Steady IsInside table_get
unfolding table_get
table_get-Steady = search (machine_rules, table_at-Steady) depth 14

pub ref_null_op-Steady : Steady IsInside ref_null_op
unfolding ref_null_op
ref_null_op-Steady = Steady-bind _ _ (Steady-on_reader _ varuint7-Reads) λ h.
    Steady-bind _ _
      (Steady-switch h (Steady-pure _ ▹▹ Steady-pure _ ▹▹ no_cases) (Steady-throw _ own_trap))
      λ v. Steady-on_stack _ (push-Steady v)

pub ref_is_null-Steady : Steady IsInside ref_is_null
unfolding ref_is_null
ref_is_null-Steady = search machine_rules depth 12

pub ref_func_op-Steady : Steady IsInside ref_func_op
unfolding ref_func_op
ref_func_op-Steady = search machine_rules depth 14

pub load_op-Steady : (w : ℕ) (make : ℕ → Value) → Steady IsInside (load_op w make)
unfolding load_op
load_op-Steady w make = search (machine_rules, load_memory-Steady) depth 14

pub memory_size-Steady : Steady IsInside memory_size
unfolding memory_size
memory_size-Steady = search (machine_rules, load_memory-Steady) depth 12

pub table_size-Steady : Steady IsInside table_size
unfolding table_size
table_size-Steady = search (machine_rules, table_at-Steady) depth 12
