-- ===== src/Numeric/Float.antt =====
-- src/interpreter.cpp: float instructions, on IEEE 754 patterns (binary32, binary64). What only
-- looks at a pattern is computed here; what rounds is the host's, a parameter.
use web_assembly_interpreter.Base.{
  Bool, if◌then◌else◌, ltb, ltb_ℤ, neg, not, pos, ℕ, ℤ, ◌%◌, ◌&&◌, ◌*◌, ◌+◌, ◌-◌, ◌/◌, ◌==◌, ◌^◌,
  ◌||◌,
}

pub record Format : Type 0 where
  pub fraction_bits : ℕ
  pub exponent_bits : ℕ

abbrev pub single : Format
single = record { fraction_bits = 23; exponent_bits = 8 }

abbrev pub double : Format
double = record { fraction_bits = 52; exponent_bits = 11 }

-- the place of the sign bit
abbrev pub sign_place : Format → ℕ
sign_place f = 2 ^ (f.fraction_bits + f.exponent_bits)

abbrev pub infinity : Format → ℕ
infinity f = (2 ^ f.exponent_bits - 1) * 2 ^ f.fraction_bits

unfoldable pub magnitude : Format → ℕ → ℕ
magnitude f a = a % sign_place f

unfoldable pub signbit : Format → ℕ → Bool
signbit f a = not (a / sign_place f == 0)

unfoldable pub isnan : Format → ℕ → Bool
unfolding magnitude
isnan f a = ltb (infinity f) (magnitude f a)

unfoldable pub isinf : Format → ℕ → Bool
unfolding magnitude
isinf f a = magnitude f a == infinity f

unfoldable pub is_zero : Format → ℕ → Bool
unfolding magnitude
is_zero f a = magnitude f a == 0

-- Numbers that are no NaN are ordered as their signed magnitudes.
unfoldable pub order_key : Format → ℕ → ℤ
unfolding magnitude signbit
order_key f a = if signbit f a then neg (magnitude f a) else pos (magnitude f a)

unfoldable pub less : Format → ℕ → ℕ → Bool
unfolding order_key isnan
less f a b = not (isnan f a) && not (isnan f b) && ltb_ℤ (order_key f a) (order_key f b)

abbrev eq_ℤ : ℤ → ℤ → Bool
eq_ℤ a b = not (ltb_ℤ a b) && not (ltb_ℤ b a)

unfoldable pub float_eq : Format → ℕ → ℕ → Bool
unfolding order_key isnan
float_eq f a b = not (isnan f a) && not (isnan f b) && eq_ℤ (order_key f a) (order_key f b)

unfoldable pub fabs : Format → ℕ → ℕ
unfolding magnitude
fabs f a = magnitude f a

unfoldable pub float_neg : Format → ℕ → ℕ
unfolding magnitude signbit
float_neg f a = if signbit f a then magnitude f a else magnitude f a + sign_place f

unfoldable pub copysign : Format → ℕ → ℕ → ℕ
unfolding magnitude signbit
copysign f a b = if signbit f b then magnitude f a + sign_place f else magnitude f a

-- The operations that round, of the host's `float` and `double`.
pub record FloatUnit : Type 0 where
  pub quiet_nan : Format → ℕ
  pub plus : Format → ℕ → ℕ → ℕ
  pub minus : Format → ℕ → ℕ → ℕ
  pub times : Format → ℕ → ℕ → ℕ
  pub divide : Format → ℕ → ℕ → ℕ
  pub sqrt : Format → ℕ → ℕ
  pub ceil : Format → ℕ → ℕ
  pub floor : Format → ℕ → ℕ
  pub trunc : Format → ℕ → ℕ
  pub nearbyint : Format → ℕ → ℕ
  pub of_integer : Format → ℤ → ℕ
  pub demote : ℕ → ℕ
  pub promote : ℕ → ℕ

module _ (unit : FloatUnit) where
  unfoldable pub wasm_fmin : Format → ℕ → ℕ → ℕ
  wasm_fmin f a b =
      if isnan f a || isnan f b
      then unit.quiet_nan f
      else if is_zero f a && is_zero f b
      then (if signbit f a || signbit f b then sign_place f else 0)
      else if less f a b
      then a
      else b

  unfoldable pub wasm_fmax : Format → ℕ → ℕ → ℕ
  wasm_fmax f a b =
      if isnan f a || isnan f b
      then unit.quiet_nan f
      else if is_zero f a && is_zero f b
      then (if signbit f a && signbit f b then sign_place f else 0)
      else if less f b a
      then a
      else b

  unfoldable pub wasm_nearest : Format → ℕ → ℕ
  wasm_nearest f a = if isnan f a || isinf f a || is_zero f a then a else unit.nearbyint f a
