-- ===== src/Exec/Typing/Table.antt =====
-- The numeric instructions, opcode by opcode.
use web_assembly_interpreter.Base.{
  ==_iff, Bool-cases, arith, false, inl, inr, ltb, ltb→le, ltb→lt, refl, suc, switch, ℕ, ◌+◌, ◌<◌,
  ◌==◌, ◌≡◌, ◌≤◌,
}
use web_assembly_interpreter.Exec.Machine.{Machine}
use web_assembly_interpreter.Exec.Numbers.{
  convert, float_arith, float_compare, int_arith, int_compare,
}
use web_assembly_interpreter.Exec.Step.{dispatch, numeric_op}
use web_assembly_interpreter.Exec.Typing.{Obeys, numeric_signature}
use web_assembly_interpreter.Exec.Typing.Shapes.{
  HasSignature, binary-HasSignature, binary_checked-HasSignature, pop_f32-Pops, pop_f64-Pops,
  pop_i32-Pops, pop_i64-Pops, unary-HasSignature, unary_checked-HasSignature,
}
use web_assembly_interpreter.Numeric.Float.{FloatUnit}
use web_assembly_interpreter.Types.{type_of}
use mathlib.Core.Path.{subst}

-- `P` of `n` numbers in a row.
infixr 20 ◌⊳◌
data Every (P : ℕ → Type 0) : ℕ → ℕ → Type 0 where
  none_left : {low : ℕ} → Every P low 0
  ◌⊳◌ : {low n : ℕ} → P low → Every P (suc low) n → Every P low (suc n)

every : {P : ℕ → Type 0} {low n : ℕ} → Every P low n → (k : ℕ) → low ≤ k → k < low + n → P k
every none_left k le lt = absurd (omega arith)
every {P} {low} (h ⊳ rest) k le lt = elim (Bool-cases (low == k)) [
  | inl e ↦ subst P ((==_iff low k).0 e) h
  | inr e ↦ every rest k (next low k e le) (omega arith)
]
  where
    next : (low k : ℕ) → (low == k) ≡ false → low ≤ k → suc low ≤ k
    next low k e le = ground arith

below : {A : Type 0} (k bound : ℕ) → (k < bound → A) → (bound ≤ k → A) → A
below k bound f g = elim (Bool-cases (ltb k bound)) [
  | inl h ↦ f (ltb→lt k bound h)
  | inr h ↦ g (ltb→le k bound h)
]

ruleset signature_rules = (
  ◌⊳◌, none_left, unary-HasSignature, binary-HasSignature, unary_checked-HasSignature,
  binary_checked-HasSignature, pop_i32-Pops, pop_i64-Pops, pop_f32-Pops, pop_f64-Pops, refl,
)

module _ (unit : FloatUnit) where
  abbrev Signed : ℕ → Type 0
  Signed op = HasSignature (numeric_signature op) (dispatch unit op)

  int_compare_signatures : Every Signed 0x45 22
  unfolding dispatch numeric_op int_compare numeric_signature switch type_of
  int_compare_signatures = search signature_rules depth 200

  float_compare_signatures : Every Signed 0x5B 12
  unfolding dispatch numeric_op float_compare numeric_signature switch type_of
  float_compare_signatures = search signature_rules depth 200

  int_arith_i32_signatures : Every Signed 0x67 18
  unfolding dispatch numeric_op int_arith numeric_signature switch type_of
  int_arith_i32_signatures = search signature_rules depth 200

  int_arith_i64_signatures : Every Signed 0x79 18
  unfolding dispatch numeric_op int_arith numeric_signature switch type_of
  int_arith_i64_signatures = search signature_rules depth 200

  float_arith_f32_signatures : Every Signed 0x8B 14
  unfolding dispatch numeric_op float_arith numeric_signature switch type_of
  float_arith_f32_signatures = search signature_rules depth 200

  float_arith_f64_signatures : Every Signed 0x99 14
  unfolding dispatch numeric_op float_arith numeric_signature switch type_of
  float_arith_f64_signatures = search signature_rules depth 200

  convert_signatures : Every Signed 0xA7 30
  unfolding dispatch numeric_op convert numeric_signature switch type_of
  convert_signatures = search signature_rules depth 200 fits 20000

  -- Every numeric instruction, on every machine: with operands of the types its WebAssembly
  -- signature names on top of the stack, it replaces them by one value of the signature's result
  -- type, changes nothing else and goes on, or, if it is an integer division or remainder or a
  -- truncation of a float, may throw; with any other stack it traps.
  pub dispatch-Obeys :
      (op : ℕ) (m : Machine)
      → 0x45 ≤ op
      → op ≤ 0xC4
      → Obeys (numeric_signature op) m (dispatch unit op m)
  dispatch-Obeys op m low high = signed.at m
    where
      signed : Signed op
      signed = below op 0x5B (every int_compare_signatures op low) λ h₁.
          below op 0x67 (every float_compare_signatures op h₁) λ h₂.
            below op 0x79 (every int_arith_i32_signatures op h₂) λ h₃.
              below op 0x8B (every int_arith_i64_signatures op h₃) λ h₄.
                below op 0x99 (every float_arith_f32_signatures op h₄) λ h₅.
                  below op 0xA7 (every float_arith_f64_signatures op h₅)
                    λ h₆. every convert_signatures op h₆ (omega (arith, high))
