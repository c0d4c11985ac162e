-- ===== src/Exec/Jump.antt =====
-- Where a branch goes, and what it leaves on the stack.
use web_assembly_interpreter.Base.{
  List, [], ap, arith, drop, gets, length, le→ltb, modify, ok, pure, refl, reverse, suc, take, zero,
  zoom, ℕ, ◌++◌, ◌>>=◌, ◌∙◌, ◌∷◌, ◌≡◌, ◌≤◌,
}
use web_assembly_interpreter.Exec.Machine.{
  ControlFrame, FrameKind, Machine, block_frame, branch, branch_to, function_frame, if_frame,
  is_function_frame, leave_frame, loop_frame, on_reader, on_stack, set_frames,
}
use web_assembly_interpreter.Reader.{Reader, reader_at, set_offset}
use web_assembly_interpreter.Stack.{
  OperandStack, StackValue, pop_results, pop_stack_value, push_results, resize_stack,
}
use mathlib.Core.List.{reverse-append}

-- The results of a pop, pushed again, are the top of the stack as it was.
pop_results-take :
    (n : ℕ) (s : OperandStack)
    → n ≤ length s
    → (es : List StackValue) × ((pop_results n s ≡ ok (es, drop n s)) × (reverse es ≡ take n s))
unfolding pop_results pop_stack_value ◌>>=◌ pure
pop_results-take zero s h = ([], (refl, refl))
pop_results-take (suc n) [] h = absurd (omega arith)
pop_results-take (suc n) (e ∷ s) h =
    let (es, (pop_eq, same)) = pop_results-take n s (omega arith) in
    (
      es ++ e ∷ [],
      (rw pop_eq refl, reverse-append es (e ∷ []) ∙ ap (λ (t : List StackValue). e ∷ t) same),
    )

set_offset-inside :
    (i : ℕ) (r : Reader) → i ≤ length r.bytes → set_offset i r ≡ ok (tt, reader_at r.bytes i)
unfolding set_offset
set_offset-inside i r h = rw (le→ltb (length r.bytes) i h) refl

-- The frame is kept by a branch to a loop, and left by any other.
abbrev pub frames_after : FrameKind → ControlFrame → List ControlFrame → List ControlFrame
frames_after loop_frame target outer = target ∷ outer
frames_after kind target outer = outer

abbrev pub pc_after : FrameKind → ControlFrame → ℕ
pc_after loop_frame target = target.start_pc
pc_after kind target = target.end_next_pc

-- How many values a branch passes: those that the frame results in, and none to a loop, whose
-- parameters are not kept in its frame.
abbrev pub label_arity : FrameKind → ControlFrame → ℕ
label_arity loop_frame target = 0
label_arity kind target = length target.signature

abbrev pub after_branch : ControlFrame → List ControlFrame → Machine → Machine
after_branch target outer m =
    let n = label_arity target.kind target in
    record m {
      stack = take n m.stack ++ resize_stack target.stack_height (drop n m.stack);
      frames = frames_after target.kind target outer;
      reader = reader_at m.reader.bytes (pc_after target.kind target);
    }

leave_frame-go :
    (kind : FrameKind) (target : ControlFrame) (outer : List ControlFrame) (m : Machine)
    → pc_after kind target ≤ length m.reader.bytes
    → leave_frame kind target outer m
      ≡ ok (
        is_function_frame kind,
        record m {
          frames = frames_after kind target outer;
          reader = reader_at m.reader.bytes (pc_after kind target);
        },
      )
unfolding leave_frame on_reader zoom set_frames modify ◌>>=◌ pure
leave_frame-go function_frame target outer m h =
    rw (set_offset-inside target.end_next_pc m.reader h) refl
leave_frame-go block_frame target outer m h =
    rw (set_offset-inside target.end_next_pc m.reader h) refl
leave_frame-go loop_frame target outer m h = rw (set_offset-inside target.start_pc m.reader h) refl
leave_frame-go if_frame target outer m h = rw (set_offset-inside target.end_next_pc m.reader h) refl

-- No loop that has results.
abbrev pub IsPlain : FrameKind → ControlFrame → Type 0
IsPlain loop_frame target = target.signature ≡ []
IsPlain kind target = Unit

label_arity-length :
    (kind : FrameKind) (target : ControlFrame)
    → IsPlain kind target
    → length target.signature ≡ label_arity kind target
label_arity-length function_frame target no_results = refl
label_arity-length block_frame target no_results = refl
label_arity-length loop_frame target no_results = ap length no_results
label_arity-length if_frame target no_results = refl

branch-passes :
    (n depth : ℕ) (m : Machine) (target : ControlFrame) (outer : List ControlFrame)
    → length target.signature ≡ n
    → drop depth m.frames ≡ target ∷ outer
    → n ≤ length m.stack
    → pc_after target.kind target ≤ length m.reader.bytes
    → branch depth m
      ≡ ok (
        is_function_frame target.kind,
        record m {
          stack = take n m.stack ++ resize_stack target.stack_height (drop n m.stack);
          frames = frames_after target.kind target outer;
          reader = reader_at m.reader.bytes (pc_after target.kind target);
        },
      )
unfolding branch branch_to on_stack zoom modify push_results gets ◌>>=◌ pure
branch-passes n depth m target outer arity there enough inside =
    let (es, (pop_eq, same)) = pop_results-take n m.stack enough in
    rw (there, arity, pop_eq, same) (leave_frame-go target.kind target outer _ inside)

-- A branch to the frame that is `depth` frames out, not to a loop that has results, with as many
-- values on the stack as the branch passes and its target in the code: to a loop it passes none, and
-- to any other frame the frame's results. They stay on top, in order, over a stack that is cut or
-- filled to the frame's height; a loop starts again with its frame, and any other frame is left with
-- those inside it.
pub branch-after :
    (depth : ℕ) (m : Machine) (target : ControlFrame) (outer : List ControlFrame)
    → drop depth m.frames ≡ target ∷ outer
    → IsPlain target.kind target
    → label_arity target.kind target ≤ length m.stack
    → pc_after target.kind target ≤ length m.reader.bytes
    → branch depth m ≡ ok (is_function_frame target.kind, after_branch target outer m)
branch-after depth m target outer there no_results enough inside =
    branch-passes (label_arity target.kind target) depth m target outer
      (label_arity-length target.kind target no_results) there enough inside
