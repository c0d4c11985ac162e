-- ===== src/Stack.antt =====
-- src/interpreter.cpp: `OperandStack` and the pops. The stack is a list, last pushed first.
use web_assembly_interpreter.Base.{
  Action, Bool, List, Result, [], drop, err, false, if◌then◌else◌, length, lift, not, ok, pure,
  replicate, reverse, suc, throw, trap, true, zero, ℕ, ◌&&◌, ◌++◌, ◌-◌, ◌>>=◌, ◌||◌, ◌∷◌,
}
use web_assembly_interpreter.Types.{
  Value, ValueType, default_value, externref, float32, float64, funcref, int32, int64, same_type,
  type_of,
}

pub data ValueOrigin : Type 0 where
  default call_result load_result : ValueOrigin

pub record StackValue : Type 0 where
  pub value : Value
  pub origin : ValueOrigin

abbrev pub entry : Value → ValueOrigin → StackValue
entry v o = record { value = v; origin = o }

abbrev pub OperandStack : Type 0
OperandStack = List StackValue

unfoldable pub push_as : ValueOrigin → Value → Action OperandStack (Unit {0})
push_as o v s = ok (tt, entry v o ∷ s)

unfoldable pub push : Value → Action OperandStack (Unit {0})
unfolding push_as
push v = push_as default v

-- `entries.resize(n)`: drops from the top, or adds default entries.
unfoldable pub resize_stack : ℕ → OperandStack → OperandStack
resize_stack n s = replicate (n - length s) (entry default_value default) ++ drop (length s - n) s

unfoldable pub pop_stack_value : Action OperandStack StackValue
pop_stack_value [] = err (trap "Operand stack underflow")
pop_stack_value (e ∷ s) = ok (e, s)

unfoldable pub pop_value : Action OperandStack Value
unfolding pop_stack_value ◌>>=◌
pop_value = do e ← pop_stack_value; pure e.value

unfoldable pub expect_i32 : Value → Result ℕ
expect_i32 (int32 n) = ok n
expect_i32 _ = err (trap "Expected i32 on stack")

unfoldable pub expect_i64 : Value → Result ℕ
expect_i64 (int64 n) = ok n
expect_i64 _ = err (trap "Expected i64 on stack")

unfoldable pub expect_f32 : Value → Result ℕ
expect_f32 (float32 n) = ok n
expect_f32 _ = err (trap "Expected f32 on stack")

unfoldable pub expect_f64 : Value → Result ℕ
expect_f64 (float64 n) = ok n
expect_f64 _ = err (trap "Expected f64 on stack")

unfoldable pub pop_i32 : Action OperandStack ℕ
unfolding pop_value expect_i32
pop_i32 = do v ← pop_value; lift (expect_i32 v)

unfoldable pub pop_i64 : Action OperandStack ℕ
unfolding pop_value expect_i64
pop_i64 = do v ← pop_value; lift (expect_i64 v)

unfoldable pub pop_f32 : Action OperandStack ℕ
unfolding pop_value expect_f32
pop_f32 = do v ← pop_value; lift (expect_f32 v)

unfoldable pub pop_f64 : Action OperandStack ℕ
unfolding pop_value expect_f64
pop_f64 = do v ← pop_value; lift (expect_f64 v)

unfoldable pub pop_reference : ValueType → Action OperandStack Value
unfolding pop_value
pop_reference expected = do
  v ← pop_value
  if same_type (type_of v) expected then pure v else throw (trap "Expected reference of type ")

unfoldable pub pop_any_reference_entry : Action OperandStack StackValue
unfolding pop_stack_value
pop_any_reference_entry = do
  e ← pop_stack_value
  if same_type (type_of e.value) funcref || same_type (type_of e.value) externref
      then pure e
      else throw (trap "Expected reference value on stack")

-- The results of a block or a call, first one first.
unfoldable pub pop_results : ℕ → Action OperandStack (List StackValue)
unfolding pop_stack_value ◌>>=◌
pop_results zero = pure []
pop_results (suc n) = do e ← pop_stack_value; es ← pop_results n; pure (es ++ e ∷ [])

unfoldable pub push_results : List StackValue → Action OperandStack (Unit {0})
push_results es s = ok (tt, reverse es ++ s)

-- the arguments of a call, popped in reverse
unfoldable pub pop_arguments : ℕ → Action OperandStack (List Value)
unfolding pop_value ◌>>=◌
pop_arguments zero = pure []
pop_arguments (suc n) = do v ← pop_value; vs ← pop_arguments n; pure (vs ++ v ∷ [])

unfoldable pub is_value_origin : ValueOrigin → Bool
is_value_origin default = false
is_value_origin call_result = true
is_value_origin load_result = true

-- Whether a store takes the second entry for the value and the top for the address.
unfoldable pub should_use_second_value_for_store : OperandStack → Bool
unfolding is_value_origin
should_use_second_value_for_store (top ∷ second ∷ s) =
    is_value_origin second.origin && not (is_value_origin top.origin)
should_use_second_value_for_store _ = false
