-- ===== src/Exec/Endings/Round.antt =====
-- A round of the loop runs out of no fuel of its own.
use web_assembly_interpreter.Base.{
  Action, Error, IsOwn-not_fuel, IsSettled, Ordinary, Result, Steady, Steady-bind, Steady-if,
  Steady-lift, Steady-switch, err, inl, inr, length, no_cases, ok, out_of_fuel, refl, refused,
  stands, steady_rules, ℕ, ◌≡◌, ◌≢◌, ◌≤◌, ◌⊎◌, ◌▹▹◌,
}
use web_assembly_interpreter.Exec.Access.{access_op}
use web_assembly_interpreter.Exec.Endings.{
  control_op-Steady, drop_op-Steady, global_get_op-Steady, load_op-Steady, local_get-Steady,
  local_set-Steady, local_tee-Steady, memory_size-Steady, ref_func_op-Steady, ref_is_null-Steady,
  ref_null_op-Steady, select-Steady, table_get-Steady, table_size-Steady,
}
use web_assembly_interpreter.Exec.Endings.Writes.{
  data_drop-Steady, global_set-Steady, memory_copy-Steady, memory_fill-Steady, memory_grow-Steady,
  memory_init-Steady, store_op-Steady, table_copy-Steady, table_fill-Steady, table_grow-Steady,
  table_set-Steady,
}
use web_assembly_interpreter.Exec.Machine.{Machine, Next}
use web_assembly_interpreter.Exec.Numbers.{
  binary, binary_checked, constant, convert, float_arith, float_compare, int_arith, int_compare,
  truncate_saturating, unary, unary_checked,
}
use web_assembly_interpreter.Exec.Settled.{
  IsInside, StackSteady, Steady-on_reader, Steady-on_stack, pop_f32-Steady, pop_f64-Steady,
  pop_i32-Steady, pop_i64-Steady, push-Steady, settled_rules,
}
use web_assembly_interpreter.Exec.Step.{
  constant_op, dispatch, numeric_op, prefixed_op, step, variable_op,
}
use web_assembly_interpreter.Loader.Total.{
  f32-Reads, f64-Reads, u8-Reads, varint32-Reads, varint64-Reads, varuint32-Reads,
}
use web_assembly_interpreter.Numeric.Convert.{trunc_checked, trunc_s, trunc_u}
use web_assembly_interpreter.Numeric.Float.{FloatUnit, Format}
use web_assembly_interpreter.Numeric.Word.{div_s, div_u, rem_s, rem_u}
use web_assembly_interpreter.Reader.{Reader}
use web_assembly_interpreter.Reader.Total.{Reads}
use web_assembly_interpreter.Stack.{OperandStack}
use web_assembly_interpreter.Types.{Value}

div-IsSettled :
    (w a b : ℕ)
    → (IsSettled (div_s w a b) × IsSettled (div_u a b))
      × (IsSettled (rem_s w a b) × IsSettled (rem_u a b))
unfolding div_s div_u rem_s rem_u
div-IsSettled w a b =
    ((search settled_rules, search settled_rules), (search settled_rules, search settled_rules))

trunc-IsSettled :
    (w : ℕ) (f : Format) (a : ℕ) → IsSettled (trunc_s w f a) × IsSettled (trunc_u w f a)
unfolding trunc_s trunc_u trunc_checked
trunc-IsSettled w f a = (search settled_rules, search settled_rules)

-- an instruction that obeys a signature ends
module _ (pop : Action OperandStack ℕ) (h : StackSteady pop) where
  unary-Steady : (make : ℕ → Value) → Steady IsInside (unary pop make)
  unfolding unary
  unary-Steady make = Steady-bind _ _ (Steady-on_stack _ h) λ n. Steady-on_stack _ (push-Steady _)

  binary-Steady : (make : ℕ → ℕ → Value) → Steady IsInside (binary pop make)
  unfolding binary
  binary-Steady make =
      Steady-bind _ _ (Steady-on_stack _ h)
        λ b. Steady-bind _ _ (Steady-on_stack _ h) λ a. Steady-on_stack _ (push-Steady _)

  binary_checked-Steady :
      (make : ℕ → Value) (op : ℕ → ℕ → Result ℕ)
      → ((a b : ℕ) → IsSettled (op a b))
      → Steady IsInside (binary_checked pop make op)
  unfolding binary_checked
  binary_checked-Steady make op settled = Steady-bind _ _ (Steady-on_stack _ h) λ b.
      Steady-bind _ _ (Steady-on_stack _ h)
        λ a. Steady-bind _ _ (Steady-lift _ (settled a b)) λ n. Steady-on_stack _ (push-Steady _)

  unary_checked-Steady :
      (make : ℕ → Value) (op : ℕ → Result ℕ)
      → ((a : ℕ) → IsSettled (op a))
      → Steady IsInside (unary_checked pop make op)
  unfolding unary_checked
  unary_checked-Steady make op settled =
      Steady-bind _ _ (Steady-on_stack _ h)
        λ a. Steady-bind _ _ (Steady-lift _ (settled a)) λ n. Steady-on_stack _ (push-Steady _)

div_s-IsSettled : (w a b : ℕ) → IsSettled (div_s w a b)
div_s-IsSettled w a b = (div-IsSettled w a b).0.0

div_u-IsSettled : (a b : ℕ) → IsSettled (div_u a b)
div_u-IsSettled a b = (div-IsSettled 0 a b).0.1

rem_s-IsSettled : (w a b : ℕ) → IsSettled (rem_s w a b)
rem_s-IsSettled w a b = (div-IsSettled w a b).1.0

rem_u-IsSettled : (a b : ℕ) → IsSettled (rem_u a b)
rem_u-IsSettled a b = (div-IsSettled 0 a b).1.1

trunc_s-IsSettled : (w : ℕ) (f : Format) (a : ℕ) → IsSettled (trunc_s w f a)
trunc_s-IsSettled w f a = (trunc-IsSettled w f a).0

trunc_u-IsSettled : (w : ℕ) (f : Format) (a : ℕ) → IsSettled (trunc_u w f a)
trunc_u-IsSettled w f a = (trunc-IsSettled w f a).1

ruleset shape_rules = (
  Steady-switch, ◌▹▹◌, no_cases, unary-Steady, binary-Steady, binary_checked-Steady,
  unary_checked-Steady, pop_i32-Steady, pop_i64-Steady, pop_f32-Steady, pop_f64-Steady,
  div_s-IsSettled, div_u-IsSettled, rem_s-IsSettled, rem_u-IsSettled, trunc_s-IsSettled,
  trunc_u-IsSettled,
)

int_compare-Steady : (op : ℕ) → Steady IsInside (int_compare op)
unfolding int_compare
int_compare-Steady op = search shape_rules depth 60

truncate_saturating-Steady : (k : ℕ) → Steady IsInside (truncate_saturating k)
unfolding truncate_saturating
truncate_saturating-Steady k = search shape_rules depth 60

module _ (pop : Action OperandStack ℕ) (h : StackSteady pop) where
  float_compare-Steady : (k : ℕ) (f : Format) → Steady IsInside (float_compare k pop f)
  unfolding float_compare
  float_compare-Steady k f = search (shape_rules, binary-Steady pop h) depth 60

  int_arith-Steady : (k w : ℕ) (make : ℕ → Value) → Steady IsInside (int_arith k w pop make)
  unfolding int_arith
  int_arith-Steady k w make =
      search
        (
          Steady-switch,
          ◌▹▹◌,
          no_cases,
          unary-Steady pop h,
          binary-Steady pop h,
          binary_checked-Steady pop h,
          div_s-IsSettled,
          div_u-IsSettled,
          rem_s-IsSettled,
          rem_u-IsSettled,
        )
        depth 60

constant-Steady :
    (read : Action Reader ℕ) (make : ℕ → Value)
    → Reads 0 read
    → Steady IsInside (constant read make)
unfolding constant
constant-Steady read make h =
    Steady-bind _ _ (Steady-on_reader _ h) λ n. Steady-on_stack _ (push-Steady _)

constant_op-Steady : (op : ℕ) → Steady IsInside (constant_op op)
unfolding constant_op
constant_op-Steady op =
    search
      (
        Steady-switch, ◌▹▹◌, no_cases, constant-Steady, varint32-Reads, varint64-Reads, f32-Reads,
        f64-Reads,
      )
      depth 20

variable_op-Steady : (op : ℕ) → Steady IsInside (variable_op op)
unfolding variable_op
variable_op-Steady op =
    search
      (
        steady_rules, drop_op-Steady, select-Steady, local_get-Steady, local_set-Steady,
        local_tee-Steady, global_get_op-Steady, global_set-Steady, table_get-Steady,
        table_set-Steady, ref_null_op-Steady, ref_is_null-Steady, ref_func_op-Steady,
      )
      depth 40

access_op-Steady : (op : ℕ) → Steady IsInside (access_op op)
unfolding access_op
access_op-Steady op =
    search
      (
        Steady-switch, ◌▹▹◌, no_cases, load_op-Steady, store_op-Steady, memory_size-Steady,
        memory_grow-Steady, pop_i32-Steady, pop_i64-Steady, pop_f32-Steady, pop_f64-Steady,
      )
      depth 60

prefixed_op-Steady : (code : ℕ) → Steady IsInside (prefixed_op code)
unfolding prefixed_op
prefixed_op-Steady code =
    search
      (
        steady_rules, truncate_saturating-Steady, memory_init-Steady, data_drop-Steady,
        memory_copy-Steady, memory_fill-Steady, table_copy-Steady, table_grow-Steady,
        table_size-Steady, table_fill-Steady,
      )
      depth 40

module _ (unit : FloatUnit) where
  float_arith-Steady :
      (k : ℕ) (f : Format) (pop : Action OperandStack ℕ) (h : StackSteady pop) (make : ℕ → Value)
      → Steady IsInside (float_arith unit k f pop make)
  unfolding float_arith
  float_arith-Steady k f pop h make =
      search (Steady-switch, ◌▹▹◌, no_cases, unary-Steady pop h, binary-Steady pop h) depth 60

  convert-Steady : (op : ℕ) → Steady IsInside (convert unit op)
  unfolding convert
  convert-Steady op = search shape_rules depth 80 fits 20000

  numeric_op-Steady : (op : ℕ) → Steady IsInside (numeric_op unit op)
  unfolding numeric_op
  numeric_op-Steady op =
      search
        (
          Steady-if, int_compare-Steady, float_compare-Steady, int_arith-Steady, float_arith-Steady,
          convert-Steady, pop_i32-Steady, pop_i64-Steady, pop_f32-Steady, pop_f64-Steady,
        )
        depth 40

  dispatch-Steady : (op : ℕ) → Steady IsInside (dispatch unit op)
  unfolding dispatch
  dispatch-Steady op =
      search
        (
          steady_rules, Steady-on_reader, control_op-Steady, variable_op-Steady, access_op-Steady,
          constant_op-Steady, numeric_op-Steady, prefixed_op-Steady, varuint32-Reads,
        )
        depth 30

  pub step-Steady : Steady IsInside (step unit)
  unfolding step
  step-Steady = search (steady_rules, Steady-on_reader, u8-Reads, dispatch-Steady) depth 20

  -- A round of the loop, from a position within the code, never runs out of the fuel of the loops
  -- inside it (immediates, the search for the end of a block): it goes on with a position within
  -- the code, or throws an error of the program's own.
  pub step-ends :
      (m : Machine)
      → m.reader.offset ≤ length m.reader.bytes
      → ((next : Next) × ((n : Machine) × ((step unit m ≡ ok (next, n))
              × (n.reader.offset ≤ length n.reader.bytes))))
        ⊎ ((e : Error) × ((step unit m ≡ err e) × (e ≢ out_of_fuel)))
  step-ends m h = cases (step unit m) refl (step-Steady.at m (record { inside = h }))
    where
      cases :
          (r : Result (Next × Machine))
          → step unit m ≡ r
          → Ordinary IsInside r
          → ((next : Next) × ((n : Machine) × ((step unit m ≡ ok (next, n))
                  × (n.reader.offset ≤ length n.reader.bytes))))
            ⊎ ((e : Error) × ((step unit m ≡ err e) × (e ≢ out_of_fuel)))
      cases (ok (next, n)) at (stands i) = inl (next, (n, (at, i.inside)))
      cases (err e) at (refused own) = inr (e, (at, IsOwn-not_fuel e own))
