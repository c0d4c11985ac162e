-- ===== src/Exec/Numbers.antt =====
-- src/interpreter.cpp: constants and the numeric instructions (opcodes 0x41 to 0xC4, and the
-- saturating conversions 0xFC 0x00 to 0x07).
use web_assembly_interpreter.Base.{
  Action, Result, [], bit_and, bit_or, bit_xor, lift, not, pos, switch, ℕ, ◌>>=◌, ◌||◌, ◌∷◌,
}
use web_assembly_interpreter.Exec.Machine.{Machine, on_reader, on_stack}
use web_assembly_interpreter.Numeric.Convert.{
  trunc_s, trunc_sat_signed, trunc_sat_unsigned, trunc_u,
}
use web_assembly_interpreter.Numeric.Float.{
  FloatUnit, Format, copysign, double, fabs, float_eq, float_neg, less, single, wasm_fmax,
  wasm_fmin, wasm_nearest,
}
use web_assembly_interpreter.Numeric.Word.{
  bool_value, clz, ctz, div_s, div_u, eqz, extend_s, ge_s, ge_u, gt_s, gt_u, int_add, int_eq,
  int_mul, int_ne, int_sub, le_s, le_u, lt_s, lt_u, popcnt, rem_s, rem_u, rotl, rotr, shl, shr_s,
  shr_u, to_signed, wrap,
}
use web_assembly_interpreter.Reader.{Reader}
use web_assembly_interpreter.Stack.{OperandStack, pop_f32, pop_f64, pop_i32, pop_i64, push}
use web_assembly_interpreter.Types.{Value, float32, float64, int32, int64}

abbrev pub Instruction : Type 0
Instruction = Action Machine (Unit {0})

-- The shapes: which operands come off the stack, and what goes back.
unfoldable pub unary : Action OperandStack ℕ → (ℕ → Value) → Instruction
unary pop_number make = do value ← on_stack pop_number; on_stack (push (make value))

unfoldable pub binary : Action OperandStack ℕ → (ℕ → ℕ → Value) → Instruction
binary pop_number make = do
  rhs ← on_stack pop_number
  lhs ← on_stack pop_number
  on_stack (push (make lhs rhs))

unfoldable pub binary_checked :
    Action OperandStack ℕ → (ℕ → Value) → (ℕ → ℕ → Result ℕ) → Instruction
binary_checked pop_number make op = do
  rhs ← on_stack pop_number
  lhs ← on_stack pop_number
  result ← lift (op lhs rhs)
  on_stack (push (make result))

unfoldable pub unary_checked : Action OperandStack ℕ → (ℕ → Value) → (ℕ → Result ℕ) → Instruction
unary_checked pop_number make op = do
  value ← on_stack pop_number
  result ← lift (op value)
  on_stack (push (make result))

unfoldable pub constant : Action Reader ℕ → (ℕ → Value) → Instruction
constant read make = do n ← on_reader read; on_stack (push (make n))

-- comparisons of integers (0x45 to 0x5A)
unfoldable pub int_compare : ℕ → Instruction
int_compare op =
    switch op
      ((0x45, unary pop_i32 (λ a. int32 (eqz a)))
        ∷ (0x46, binary pop_i32 (λ a b. int32 (int_eq a b)))
        ∷ (0x47, binary pop_i32 (λ a b. int32 (int_ne a b)))
        ∷ (0x48, binary pop_i32 (λ a b. int32 (lt_s 32 a b)))
        ∷ (0x49, binary pop_i32 (λ a b. int32 (lt_u a b)))
        ∷ (0x4A, binary pop_i32 (λ a b. int32 (gt_s 32 a b)))
        ∷ (0x4B, binary pop_i32 (λ a b. int32 (gt_u a b)))
        ∷ (0x4C, binary pop_i32 (λ a b. int32 (le_s 32 a b)))
        ∷ (0x4D, binary pop_i32 (λ a b. int32 (le_u a b)))
        ∷ (0x4E, binary pop_i32 (λ a b. int32 (ge_s 32 a b)))
        ∷ (0x4F, binary pop_i32 (λ a b. int32 (ge_u a b)))
        ∷ (0x50, unary pop_i64 (λ a. int32 (eqz a)))
        ∷ (0x51, binary pop_i64 (λ a b. int32 (int_eq a b)))
        ∷ (0x52, binary pop_i64 (λ a b. int32 (int_ne a b)))
        ∷ (0x53, binary pop_i64 (λ a b. int32 (lt_s 64 a b)))
        ∷ (0x54, binary pop_i64 (λ a b. int32 (lt_u a b)))
        ∷ (0x55, binary pop_i64 (λ a b. int32 (gt_s 64 a b)))
        ∷ (0x56, binary pop_i64 (λ a b. int32 (gt_u a b)))
        ∷ (0x57, binary pop_i64 (λ a b. int32 (le_s 64 a b)))
        ∷ (0x58, binary pop_i64 (λ a b. int32 (le_u a b)))
        ∷ (0x59, binary pop_i64 (λ a b. int32 (ge_s 64 a b)))
        ∷ [])
      (binary pop_i64 (λ a b. int32 (ge_u a b)))

-- comparisons of floats: `eq`, `ne`, `lt`, `gt`, `le`, `ge`, in this order
unfoldable pub float_compare : ℕ → Action OperandStack ℕ → Format → Instruction
float_compare k pop_number f =
    switch k
      ((0, binary pop_number (λ a b. int32 (bool_value (float_eq f a b))))
        ∷ (1, binary pop_number (λ a b. int32 (bool_value (not (float_eq f a b)))))
        ∷ (2, binary pop_number (λ a b. int32 (bool_value (less f a b))))
        ∷ (3, binary pop_number (λ a b. int32 (bool_value (less f b a))))
        ∷ (4, binary pop_number (λ a b. int32 (bool_value (less f a b || float_eq f a b))))
        ∷ [])
      (binary pop_number (λ a b. int32 (bool_value (less f b a || float_eq f a b))))

-- arithmetic of integers of `w` bits: `clz` to `rotr`, in the order of the opcodes
unfoldable pub int_arith : ℕ → ℕ → Action OperandStack ℕ → (ℕ → Value) → Instruction
int_arith k w pop_number make =
    switch k
      ((0, unary pop_number (λ a. make (clz w a)))
        ∷ (1, unary pop_number (λ a. make (ctz w a)))
        ∷ (2, unary pop_number (λ a. make (popcnt w a)))
        ∷ (3, binary pop_number (λ a b. make (int_add w a b)))
        ∷ (4, binary pop_number (λ a b. make (int_sub w a b)))
        ∷ (5, binary pop_number (λ a b. make (int_mul w a b)))
        ∷ (6, binary_checked pop_number make (div_s w))
        ∷ (7, binary_checked pop_number make div_u)
        ∷ (8, binary_checked pop_number make (rem_s w))
        ∷ (9, binary_checked pop_number make rem_u)
        ∷ (10, binary pop_number (λ a b. make (bit_and a b)))
        ∷ (11, binary pop_number (λ a b. make (bit_or a b)))
        ∷ (12, binary pop_number (λ a b. make (bit_xor a b)))
        ∷ (13, binary pop_number (λ a b. make (shl w a b)))
        ∷ (14, binary pop_number (λ a b. make (shr_s w a b)))
        ∷ (15, binary pop_number (λ a b. make (shr_u w a b)))
        ∷ (16, binary pop_number (λ a b. make (rotl w a b)))
        ∷ [])
      (binary pop_number (λ a b. make (rotr w a b)))

module _ (unit : FloatUnit) where
  -- `abs` to `copysign`, in the order of the opcodes
  unfoldable pub float_arith : ℕ → Format → Action OperandStack ℕ → (ℕ → Value) → Instruction
  float_arith k f pop_number make =
      switch k
        ((0, unary pop_number (λ a. make (fabs f a)))
          ∷ (1, unary pop_number (λ a. make (float_neg f a)))
          ∷ (2, unary pop_number (λ a. make (unit.ceil f a)))
          ∷ (3, unary pop_number (λ a. make (unit.floor f a)))
          ∷ (4, unary pop_number (λ a. make (unit.trunc f a)))
          ∷ (5, unary pop_number (λ a. make (wasm_nearest unit f a)))
          ∷ (6, unary pop_number (λ a. make (unit.sqrt f a)))
          ∷ (7, binary pop_number (λ a b. make (unit.plus f a b)))
          ∷ (8, binary pop_number (λ a b. make (unit.minus f a b)))
          ∷ (9, binary pop_number (λ a b. make (unit.times f a b)))
          ∷ (10, binary pop_number (λ a b. make (unit.divide f a b)))
          ∷ (11, binary pop_number (λ a b. make (wasm_fmin unit f a b)))
          ∷ (12, binary pop_number (λ a b. make (wasm_fmax unit f a b)))
          ∷ [])
        (binary pop_number (λ a b. make (copysign f a b)))

  -- conversions (0xA7 to 0xC4)
  unfoldable pub convert : ℕ → Instruction
  convert op =
      switch op
        ((0xA7, unary pop_i64 (λ a. int32 (wrap a)))
          ∷ (0xA8, unary_checked pop_f32 int32 (trunc_s 32 single))
          ∷ (0xA9, unary_checked pop_f32 int32 (trunc_u 32 single))
          ∷ (0xAA, unary_checked pop_f64 int32 (trunc_s 32 double))
          ∷ (0xAB, unary_checked pop_f64 int32 (trunc_u 32 double))
          ∷ (0xAC, unary pop_i32 (λ a. int64 (extend_s 32 64 a)))
          ∷ (0xAD, unary pop_i32 int64)
          ∷ (0xAE, unary_checked pop_f32 int64 (trunc_s 64 single))
          ∷ (0xAF, unary_checked pop_f32 int64 (trunc_u 64 single))
          ∷ (0xB0, unary_checked pop_f64 int64 (trunc_s 64 double))
          ∷ (0xB1, unary_checked pop_f64 int64 (trunc_u 64 double))
          ∷ (0xB2, unary pop_i32 (λ a. float32 (unit.of_integer single (to_signed 32 a))))
          ∷ (0xB3, unary pop_i32 (λ a. float32 (unit.of_integer single (pos a))))
          ∷ (0xB4, unary pop_i64 (λ a. float32 (unit.of_integer single (to_signed 64 a))))
          ∷ (0xB5, unary pop_i64 (λ a. float32 (unit.of_integer single (pos a))))
          ∷ (0xB6, unary pop_f64 (λ a. float32 (unit.demote a)))
          ∷ (0xB7, unary pop_i32 (λ a. float64 (unit.of_integer double (to_signed 32 a))))
          ∷ (0xB8, unary pop_i32 (λ a. float64 (unit.of_integer double (pos a))))
          ∷ (0xB9, unary pop_i64 (λ a. float64 (unit.of_integer double (to_signed 64 a))))
          ∷ (0xBA, unary pop_i64 (λ a. float64 (unit.of_integer double (pos a))))
          ∷ (0xBB, unary pop_f32 (λ a. float64 (unit.promote a)))
          ∷ (0xBC, unary pop_f32 int32)
          ∷ (0xBD, unary pop_f64 int64)
          ∷ (0xBE, unary pop_i32 float32)
          ∷ (0xBF, unary pop_i64 float64)
          ∷ (0xC0, unary pop_i32 (λ a. int32 (extend_s 8 32 a)))
          ∷ (0xC1, unary pop_i32 (λ a. int32 (extend_s 16 32 a)))
          ∷ (0xC2, unary pop_i64 (λ a. int64 (extend_s 8 64 a)))
          ∷ (0xC3, unary pop_i64 (λ a. int64 (extend_s 16 64 a)))
          ∷ [])
        (unary pop_i64 (λ a. int64 (extend_s 32 64 a)))

-- 0xFC 0x00 to 0x07
unfoldable pub truncate_saturating : ℕ → Instruction
truncate_saturating code =
    switch code
      ((0, unary pop_f32 (λ a. int32 (trunc_sat_signed 32 single a)))
        ∷ (1, unary pop_f32 (λ a. int32 (trunc_sat_unsigned 32 single a)))
        ∷ (2, unary pop_f64 (λ a. int32 (trunc_sat_signed 32 double a)))
        ∷ (3, unary pop_f64 (λ a. int32 (trunc_sat_unsigned 32 double a)))
        ∷ (4, unary pop_f32 (λ a. int64 (trunc_sat_signed 64 single a)))
        ∷ (5, unary pop_f32 (λ a. int64 (trunc_sat_unsigned 64 single a)))
        ∷ (6, unary pop_f64 (λ a. int64 (trunc_sat_signed 64 double a)))
        ∷ [])
      (unary pop_f64 (λ a. int64 (trunc_sat_unsigned 64 double a)))
