-- ===== src/Exec/Machine.antt =====
-- src/interpreter.cpp: the state of `execute_function`, and `branch`.
use web_assembly_interpreter.Base.{
  Action, Bool, List, Option, [], drop, false, gets, length, map, modify, pure, throw, trap, true,
  zoom, ℕ, ◌>>=◌, ◌>>◌, ◌∷◌,
}
use web_assembly_interpreter.Reader.{Reader, set_offset}
use web_assembly_interpreter.Stack.{
  OperandStack, StackValue, pop_results, push_results, resize_stack,
}
use web_assembly_interpreter.Store.{Store}
use web_assembly_interpreter.Types.{Value, ValueType}

pub data FrameKind : Type 0 where
  function_frame block_frame loop_frame if_frame : FrameKind

-- `signature` is the list of result types.
pub record ControlFrame : Type 0 where
  pub kind : FrameKind
  pub signature : List ValueType
  pub start_pc : ℕ
  pub end_pc : ℕ
  pub end_next_pc : ℕ
  pub else_pc : Option ℕ
  pub else_body_pc : Option ℕ
  pub stack_height : ℕ
  pub executing_else : Bool

-- One activation, with the store that all activations share. The control stack is a list,
-- innermost frame first. `results` is the signature of the function.
pub record Machine : Type 0 where
  pub store : Store
  pub reader : Reader
  pub stack : OperandStack
  pub locals : List Value
  pub frames : List ControlFrame
  pub results : List ValueType

-- What a round of the loop comes to: the next round, a return, or a call.
pub data Next : Type 0 where
  go : Next
  finished : List Value → Next
  call : ℕ → List Value → Next

module _ {A : Type 0} where
  unfoldable pub on_reader : Action Reader A → Action Machine A
  unfolding zoom
  on_reader = zoom (λ m. m.reader) (λ r m. record m { reader = r })

  unfoldable pub on_stack : Action OperandStack A → Action Machine A
  unfolding zoom
  on_stack = zoom (λ m. m.stack) (λ s m. record m { stack = s })

  unfoldable pub on_store : Action Store A → Action Machine A
  unfolding zoom
  on_store = zoom (λ m. m.store) (λ s m. record m { store = s })

abbrev pub extract_values : List StackValue → List Value
extract_values = map (λ e. e.value)

unfoldable pub set_frames : List ControlFrame → Action Machine (Unit {0})
set_frames fs = modify (λ m. record m { frames = fs })

abbrev pub is_function_frame : FrameKind → Bool
is_function_frame function_frame = true
is_function_frame _ = false

-- Goes back to the start of a loop, and leaves any other frame for good.
unfoldable pub leave_frame : FrameKind → ControlFrame → List ControlFrame → Action Machine Bool
leave_frame loop_frame target outer = do
  on_reader (set_offset target.start_pc)
  set_frames (target ∷ outer)
  pure false
leave_frame kind target outer = do
  set_frames outer
  on_reader (set_offset target.end_next_pc)
  pure (is_function_frame kind)

unfoldable pub branch_to : List ControlFrame → Action Machine Bool
branch_to [] = throw (trap "Branch depth exceeds control stack")
branch_to (target ∷ outer) = do
  results ← on_stack (pop_results (length target.signature))
  on_stack (modify (resize_stack target.stack_height))
  on_stack (push_results results)
  leave_frame target.kind target outer

-- The target is `depth` frames out; nothing is left of the list if there are not that many.
unfoldable pub branch : ℕ → Action Machine Bool
branch depth = do frames ← gets (λ m. m.frames); branch_to (drop depth frames)
