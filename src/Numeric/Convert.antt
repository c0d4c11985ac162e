-- ===== src/Numeric/Convert.antt =====
-- src/interpreter.cpp: `trunc_f32_s` ... `trunc_f64_u_to_i64` and `trunc_sat_signed`,
-- `trunc_sat_unsigned`. `long double` is taken to hold every 64-bit integer.
use web_assembly_interpreter.Base.{
  Bool, Result, err, if◌then◌else◌, leb, ltb, ltb_ℤ, neg, negsuc, not, ok, pos, trap, ℕ, ℤ, ◌%◌,
  ◌*◌, ◌+◌, ◌-◌, ◌/◌, ◌^◌, ◌||◌,
}
use web_assembly_interpreter.Numeric.Float.{Format, isinf, isnan, sign_place, signbit}
use web_assembly_interpreter.Numeric.Word.{minus_one, of_signed, sign_bound}

-- What `std::trunc` makes of a number that is no NaN: an integer, or an infinity.
pub data Truncated : Type 0 where
  finite : ℤ → Truncated
  infinite : Bool → Truncated

abbrev pub biased_exponent : Format → ℕ → ℕ
biased_exponent f a = a % sign_place f / 2 ^ f.fraction_bits

-- the integer part of the magnitude
unfoldable pub integer_part : Format → ℕ → ℕ
integer_part f a =
    let bias = 2 ^ (f.exponent_bits - 1) - 1 in
    let e = biased_exponent f a in
    let significand = 2 ^ f.fraction_bits + a % 2 ^ f.fraction_bits in
    if ltb e bias
    then 0
    else if leb (e - bias) f.fraction_bits
    then significand / 2 ^ (f.fraction_bits - (e - bias))
    else significand * 2 ^ (e - bias - f.fraction_bits)

unfoldable pub truncated : Format → ℕ → Truncated
truncated f a =
    if isinf f a
    then infinite (signbit f a)
    else finite (if signbit f a then neg (integer_part f a) else pos (integer_part f a))

-- `t < min`, `t > max`
unfoldable pub below : ℤ → Truncated → Bool
below min_value (finite n) = ltb_ℤ n min_value
below min_value (infinite negative) = negative

unfoldable pub above : ℤ → Truncated → Bool
above max_value (finite n) = ltb_ℤ max_value n
above max_value (infinite negative) = not negative

-- `static_cast<Int>` of a truncated number in range
abbrev pub cast_truncated : ℕ → Truncated → ℕ
cast_truncated w (finite n) = of_signed w n
cast_truncated w (infinite negative) = 0

abbrev pub min_signed : ℕ → ℤ
min_signed w = negsuc (2 ^ (w - 1) - 1)

abbrev pub max_signed : ℕ → ℤ
max_signed w = pos (2 ^ (w - 1) - 1)

abbrev pub max_unsigned : ℕ → ℤ
max_unsigned w = pos (2 ^ w - 1)

unfoldable pub trunc_checked : ℤ → ℤ → ℕ → Format → ℕ → Result ℕ
trunc_checked low high w f a =
    let t = truncated f a in
    if isnan f a
    then err (trap "Invalid conversion from NaN")
    else if below low t || above high t
    then err (trap "Integer overflow during truncation")
    else ok (cast_truncated w t)

unfoldable pub trunc_s : ℕ → Format → ℕ → Result ℕ
unfolding trunc_checked
trunc_s w f a = trunc_checked (min_signed w) (max_signed w) w f a

unfoldable pub trunc_u : ℕ → Format → ℕ → Result ℕ
unfolding trunc_checked
trunc_u w f a = trunc_checked (pos 0) (max_unsigned w) w f a

-- `<=` and `>=` send the ends to themselves
unfoldable pub trunc_sat_signed : ℕ → Format → ℕ → ℕ
trunc_sat_signed w f a =
    let t = truncated f a in
    if isnan f a
    then 0
    else if not (above (min_signed w) t)
    then sign_bound w
    else if not (below (max_signed w) t)
    then sign_bound w - 1
    else cast_truncated w t

unfoldable pub trunc_sat_unsigned : ℕ → Format → ℕ → ℕ
trunc_sat_unsigned w f a =
    let t = truncated f a in
    if isnan f a
    then 0
    else if not (above (pos 0) t)
    then 0
    else if not (below (max_unsigned w) t)
    then minus_one w
    else cast_truncated w t
