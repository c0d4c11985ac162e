-- ===== src/Exec/Quiet/Numeric.antt =====
-- The numeric instructions and constants, and the store.
use web_assembly_interpreter.Base.{
  Action, Keeps, Keeps-bind, Keeps-if, Keeps-switch, Result, end_cases, ℕ, ◌▹◌,
}
use web_assembly_interpreter.Control.Same.{
  SameBytes, SameBytes-IsPreorder, read_f32-SameBytes, read_f64-SameBytes, varint32-SameBytes,
  varint64-SameBytes,
}
use web_assembly_interpreter.Exec.Effect.{
  Quiet, Quiet-IsPreorder, Quiet-on_reader, Quiet-on_stack, quiet_rules,
}
use web_assembly_interpreter.Exec.Numbers.{
  binary, binary_checked, constant, convert, float_arith, float_compare, int_arith, int_compare,
  truncate_saturating, unary, unary_checked,
}
use web_assembly_interpreter.Exec.Step.{constant_op, numeric_op}
use web_assembly_interpreter.Numeric.Float.{FloatUnit, Format}
use web_assembly_interpreter.Reader.{Reader}
use web_assembly_interpreter.Stack.{OperandStack}
use web_assembly_interpreter.Types.{Value}

module _ (pop : Action OperandStack ℕ) where
  unary-Quiet : (make : ℕ → Value) → Keeps Quiet (unary pop make)
  unfolding unary
  unary-Quiet make = search quiet_rules

  binary-Quiet : (make : ℕ → ℕ → Value) → Keeps Quiet (binary pop make)
  unfolding binary
  binary-Quiet make = search quiet_rules depth 12

  binary_checked-Quiet :
      (make : ℕ → Value) (op : ℕ → ℕ → Result ℕ) → Keeps Quiet (binary_checked pop make op)
  unfolding binary_checked
  binary_checked-Quiet make op = search quiet_rules depth 12

  unary_checked-Quiet :
      (make : ℕ → Value) (op : ℕ → Result ℕ) → Keeps Quiet (unary_checked pop make op)
  unfolding unary_checked
  unary_checked-Quiet make op = search quiet_rules depth 12

ruleset shapes = (
  Keeps-switch, ◌▹◌, end_cases, unary-Quiet, binary-Quiet, binary_checked-Quiet,
  unary_checked-Quiet,
)

int_compare-Quiet : (op : ℕ) → Keeps Quiet (int_compare op)
unfolding int_compare
int_compare-Quiet op = search shapes depth 60

float_compare-Quiet :
    (k : ℕ) (pop : Action OperandStack ℕ) (f : Format) → Keeps Quiet (float_compare k pop f)
unfolding float_compare
float_compare-Quiet k pop f = search shapes depth 60

int_arith-Quiet :
    (k w : ℕ) (pop : Action OperandStack ℕ) (make : ℕ → Value)
    → Keeps Quiet (int_arith k w pop make)
unfolding int_arith
int_arith-Quiet k w pop make = search shapes depth 60

pub truncate_saturating-Quiet : (k : ℕ) → Keeps Quiet (truncate_saturating k)
unfolding truncate_saturating
truncate_saturating-Quiet k = search shapes depth 60

constant-Quiet :
    (read : Action Reader ℕ) (make : ℕ → Value)
    → Keeps SameBytes read
    → Keeps Quiet (constant read make)
unfolding constant
constant-Quiet read make k = Keeps-bind _ _ (Quiet-on_reader _ k) λ n. Quiet-on_stack _

pub constant_op-Quiet : (op : ℕ) → Keeps Quiet (constant_op op)
unfolding constant_op
constant_op-Quiet op =
    Keeps-switch op
      (constant-Quiet _ _ varint32-SameBytes
        ▹ constant-Quiet _ _ varint64-SameBytes
        ▹ constant-Quiet _ _ read_f32-SameBytes
        ▹ end_cases)
      (constant-Quiet _ _ read_f64-SameBytes)

module _ (unit : FloatUnit) where
  float_arith-Quiet :
      (k : ℕ) (f : Format) (pop : Action OperandStack ℕ) (make : ℕ → Value)
      → Keeps Quiet (float_arith unit k f pop make)
  unfolding float_arith
  float_arith-Quiet k f pop make = search shapes depth 60

  convert-Quiet : (op : ℕ) → Keeps Quiet (convert unit op)
  unfolding convert
  convert-Quiet op = search shapes depth 80

  pub numeric_op-Quiet : (op : ℕ) → Keeps Quiet (numeric_op unit op)
  unfolding numeric_op
  numeric_op-Quiet op =
      search
        (
          Keeps-if, int_compare-Quiet, float_compare-Quiet, int_arith-Quiet, float_arith-Quiet,
          convert-Quiet,
        )
        depth 40
