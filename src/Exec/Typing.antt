-- ===== src/Exec/Typing.antt =====
-- The types of the numeric instructions (opcodes 0x45 to 0xC4), as WebAssembly gives them, and what
-- it is for an instruction to obey one.
pub mod Shapes
pub mod Table
use web_assembly_interpreter.Base.{
  Bool, Error, List, Result, String, [], err, false, if◌then◌else◌, leb, ok, switch, trap, true, ℕ,
  ◌∷◌, ◌≡◌,
}
use web_assembly_interpreter.Exec.Machine.{Machine, Next, go}
use web_assembly_interpreter.Stack.{OperandStack, default, entry}
use web_assembly_interpreter.Types.{Value, ValueType, f32, f64, i32, i64, type_of}

-- The operands, the top of the stack first.
pub record Signature : Type 0 where
  pub operands : List ValueType
  pub result : ValueType
  pub may_trap : Bool

abbrev pub unop : ValueType → ValueType → Signature
unop t u = record { operands = t ∷ []; result = u; may_trap = false }

abbrev pub binop : ValueType → ValueType → Signature
binop t u = record { operands = t ∷ t ∷ []; result = u; may_trap = false }

abbrev pub trapping : Signature → Signature
trapping g = record g { may_trap = true }

-- the wrapping, truncating, extending, rounding and reinterpreting conversions
abbrev conversion_signature : ℕ → Signature
conversion_signature op =
    switch op
      ((0xA7, unop i64 i32)
        ∷ (0xA8, trapping (unop f32 i32))
        ∷ (0xA9, trapping (unop f32 i32))
        ∷ (0xAA, trapping (unop f64 i32))
        ∷ (0xAB, trapping (unop f64 i32))
        ∷ (0xAC, unop i32 i64)
        ∷ (0xAD, unop i32 i64)
        ∷ (0xAE, trapping (unop f32 i64))
        ∷ (0xAF, trapping (unop f32 i64))
        ∷ (0xB0, trapping (unop f64 i64))
        ∷ (0xB1, trapping (unop f64 i64))
        ∷ (0xB2, unop i32 f32)
        ∷ (0xB3, unop i32 f32)
        ∷ (0xB4, unop i64 f32)
        ∷ (0xB5, unop i64 f32)
        ∷ (0xB6, unop f64 f32)
        ∷ (0xB7, unop i32 f64)
        ∷ (0xB8, unop i32 f64)
        ∷ (0xB9, unop i64 f64)
        ∷ (0xBA, unop i64 f64)
        ∷ (0xBB, unop f32 f64)
        ∷ (0xBC, unop f32 i32)
        ∷ (0xBD, unop f64 i64)
        ∷ (0xBE, unop i32 f32)
        ∷ (0xBF, unop i64 f64)
        ∷ (0xC0, unop i32 i32)
        ∷ (0xC1, unop i32 i32)
        ∷ [])
      (unop i64 i64)

-- Ranges of opcodes, each up to and with its bound, from 0x45.
abbrev ranged : ℕ → List (ℕ × Signature) → Signature → Signature
ranged op [] otherwise = otherwise
ranged op ((bound, g) ∷ ranges) otherwise = if leb op bound then g else ranged op ranges otherwise

unfoldable pub numeric_signature : ℕ → Signature
unfolding switch
numeric_signature op =
    ranged op
      ((0x45, unop i32 i32)
        ∷ (0x4F, binop i32 i32)
        ∷ (0x50, unop i64 i32)
        ∷ (0x5A, binop i64 i32)
        ∷ (0x60, binop f32 i32)
        ∷ (0x66, binop f64 i32)
        ∷ (0x69, unop i32 i32)
        ∷ (0x6C, binop i32 i32)
        ∷ (0x70, trapping (binop i32 i32))
        ∷ (0x78, binop i32 i32)
        ∷ (0x7B, unop i64 i64)
        ∷ (0x7E, binop i64 i64)
        ∷ (0x82, trapping (binop i64 i64))
        ∷ (0x8A, binop i64 i64)
        ∷ (0x91, unop f32 f32)
        ∷ (0x98, binop f32 f32)
        ∷ (0x9F, unop f64 f64)
        ∷ (0xA6, binop f64 f64)
        ∷ [])
      (conversion_signature op)

-- The stack begins with values of these types, and `rest` is under them.
abbrev pub StartsWith : List ValueType → OperandStack → OperandStack → Type 0
StartsWith [] s rest = s ≡ rest
StartsWith (t ∷ ts) [] rest = ⊥
StartsWith (t ∷ ts) (e ∷ s) rest = (type_of e.value ≡ t) × StartsWith ts s rest

-- What an instruction of a signature does to a machine: on operands of its types it puts a value of
-- its result type in their place, or throws, if it is one that may trap; on any other stack it
-- traps.
pub data Obeys (g : Signature) (m : Machine) : Result (Next × Machine) → Type 0 where
  applies :
      (rest : OperandStack) (v : Value)
      → StartsWith g.operands m.stack rest
      → type_of v ≡ g.result
      → Obeys g m (ok (go, record m { stack = entry v default ∷ rest }))
  may_throw :
      {e : Error} (rest : OperandStack)
      → g.may_trap ≡ true
      → StartsWith g.operands m.stack rest
      → Obeys g m (err e)
  ill_typed :
      {message : String}
      → ((rest : OperandStack) → ¬ StartsWith g.operands m.stack rest)
      → Obeys g m (err (trap message))
