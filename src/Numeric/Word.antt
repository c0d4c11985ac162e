-- ===== src/Numeric/Word.antt =====
-- src/interpreter.cpp: i32 and i64 arithmetic, on bit patterns of `w` bits. Signed `+`, `-`, `*`
-- are taken to wrap, as the instructions want (C++ leaves their overflow undefined).
use web_assembly_interpreter.Base.{
  Bool, Result, bit_and, err, if◌then◌else◌, leb, ltb, ltb_ℤ, negsuc, not, ok, pos, quot, rem, suc,
  trap, zero, ℕ, ℤ, ◌%◌, ◌&&◌, ◌*◌, ◌+◌, ◌-◌, ◌/◌, ◌==◌, ◌^◌,
}

abbrev pub sign_bound : ℕ → ℕ
sign_bound w = 2 ^ (w - 1)

-- the signed number that a pattern stands for, and back
unfoldable pub to_signed : ℕ → ℕ → ℤ
to_signed w a = if ltb a (sign_bound w) then pos a else negsuc (2 ^ w - a - 1)

unfoldable pub of_signed : ℕ → ℤ → ℕ
of_signed w (pos n) = n % 2 ^ w
of_signed w (negsuc n) = 2 ^ w - 1 - n % 2 ^ w

abbrev pub bool_value : Bool → ℕ
bool_value b = if b then 1 else 0

unfoldable pub eqz : ℕ → ℕ
eqz a = bool_value (a == 0)

-- `eq`, `ne` and the unsigned orders
unfoldable pub int_eq : ℕ → ℕ → ℕ
int_eq a b = bool_value (a == b)

unfoldable pub int_ne : ℕ → ℕ → ℕ
int_ne a b = bool_value (not (a == b))

unfoldable pub lt_u : ℕ → ℕ → ℕ
lt_u a b = bool_value (ltb a b)

unfoldable pub gt_u : ℕ → ℕ → ℕ
gt_u a b = bool_value (ltb b a)

unfoldable pub le_u : ℕ → ℕ → ℕ
le_u a b = bool_value (leb a b)

unfoldable pub ge_u : ℕ → ℕ → ℕ
ge_u a b = bool_value (leb b a)

-- the signed orders
unfoldable pub lt_s : ℕ → ℕ → ℕ → ℕ
unfolding to_signed
lt_s w a b = bool_value (ltb_ℤ (to_signed w a) (to_signed w b))

unfoldable pub gt_s : ℕ → ℕ → ℕ → ℕ
unfolding to_signed
gt_s w a b = bool_value (ltb_ℤ (to_signed w b) (to_signed w a))

unfoldable pub le_s : ℕ → ℕ → ℕ → ℕ
unfolding to_signed
le_s w a b = bool_value (not (ltb_ℤ (to_signed w b) (to_signed w a)))

unfoldable pub ge_s : ℕ → ℕ → ℕ → ℕ
unfolding to_signed
ge_s w a b = bool_value (not (ltb_ℤ (to_signed w a) (to_signed w b)))

unfoldable pub int_add : ℕ → ℕ → ℕ → ℕ
int_add w a b = (a + b) % 2 ^ w

unfoldable pub int_sub : ℕ → ℕ → ℕ → ℕ
int_sub w a b = (a + 2 ^ w - b) % 2 ^ w

unfoldable pub int_mul : ℕ → ℕ → ℕ → ℕ
int_mul w a b = a * b % 2 ^ w

-- the pattern of -1, and of the least signed number
abbrev pub minus_one : ℕ → ℕ
minus_one w = 2 ^ w - 1

unfoldable pub div_s : ℕ → ℕ → ℕ → Result ℕ
div_s w a b =
    if b == 0
    then err (trap "Integer divide by zero")
    else if a == sign_bound w && b == minus_one w
    then err (trap "Integer overflow")
    else ok (of_signed w (quot (to_signed w a) (to_signed w b)))

unfoldable pub div_u : ℕ → ℕ → Result ℕ
div_u a b = if b == 0 then err (trap "Integer divide by zero") else ok (a / b)

unfoldable pub rem_s : ℕ → ℕ → ℕ → Result ℕ
rem_s w a b =
    if b == 0
    then err (trap "Integer remainder by zero")
    else if a == sign_bound w && b == minus_one w
    then ok 0
    else ok (of_signed w (rem (to_signed w a) (to_signed w b)))

unfoldable pub rem_u : ℕ → ℕ → Result ℕ
rem_u a b = if b == 0 then err (trap "Integer remainder by zero") else ok (a % b)

-- `& 31` and `& 63` of a shift count, for `w` a power of two
abbrev pub shift_count : ℕ → ℕ → ℕ
shift_count w b = bit_and b (w - 1)

unfoldable pub shl : ℕ → ℕ → ℕ → ℕ
shl w a b = a * 2 ^ shift_count w b % 2 ^ w

unfoldable pub shr_u : ℕ → ℕ → ℕ → ℕ
shr_u w a b = a / 2 ^ shift_count w b

-- `>>` of a negative number shifts ones in
unfoldable pub shr_s : ℕ → ℕ → ℕ → ℕ
shr_s w a b =
    let k = shift_count w b in
    if ltb a (sign_bound w) then a / 2 ^ k else a / 2 ^ k + (2 ^ w - 2 ^ (w - k))

-- `std::rotl` and `std::rotr` by a count below `w`
unfoldable pub rotate_left : ℕ → ℕ → ℕ → ℕ
rotate_left w a k = a % 2 ^ (w - k) * 2 ^ k + a / 2 ^ (w - k)

unfoldable pub rotate_right : ℕ → ℕ → ℕ → ℕ
rotate_right w a k = a % 2 ^ k * 2 ^ (w - k) + a / 2 ^ k

unfoldable pub rotl : ℕ → ℕ → ℕ → ℕ
unfolding rotate_left
rotl w a b = rotate_left w a (shift_count w b)

unfoldable pub rotr : ℕ → ℕ → ℕ → ℕ
unfolding rotate_right
rotr w a b = rotate_right w a (shift_count w b)

-- `std::countl_zero`, `std::countr_zero` and `std::popcount` of `w` bits
unfoldable pub clz : ℕ → ℕ → ℕ
clz zero a = 0
clz (suc w) a = let more = clz w a in if ltb a (2 ^ w) then suc more else 0

unfoldable pub ctz : ℕ → ℕ → ℕ
ctz zero a = 0
ctz (suc w) a = let more = ctz w (a / 2) in if a % 2 == 0 then suc more else 0

unfoldable pub popcnt : ℕ → ℕ → ℕ
popcnt zero a = 0
popcnt (suc w) a = a % 2 + popcnt w (a / 2)

-- `static_cast<intW_t>(static_cast<intV_t>(value))`: the sign of the low `v` bits spreads to `w`
unfoldable pub extend_s : ℕ → ℕ → ℕ → ℕ
extend_s v w a =
    let low = a % 2 ^ v in if ltb low (sign_bound v) then low else low + (2 ^ w - 2 ^ v)

-- `i32.wrap_i64`; `i64.extend_i32_u` leaves the pattern alone
unfoldable pub wrap : ℕ → ℕ
wrap a = a % 2 ^ 32
