-- ===== src/Base/Bits.antt =====
-- Bit operations as arithmetic: masks of one byte, and `|` of a number with shifted bits above it.
use Prim.Native.Nat.{
  ℕ, zero, suc, ◌+◌, ◌*◌, ◌/◌, ◌%◌, ◌^◌, ◌≤◌, ◌<◌, max, bit_and, bit_or, digits, bit_or-bitwise,
}
use mathlib.Core.Path.{◌≡◌, refl, ap}
use mathlib.Core.Bool.{Bool, true, ◌&&◌}
use native.Mathlib.Nat.{pow-suc}
use native.Mathlib.Omega.{arith}
use web_assembly_interpreter.Base.Tests.{◌==◌, ==_iff}

-- A check of a property of bytes, one value after the other.
every_byte : (ℕ → Bool) → ℕ → Bool
every_byte check zero = true
every_byte check (suc top) = every_byte check top && check top

check_at :
    (check : ℕ → Bool) (top byte : ℕ) → byte < top → every_byte check top ≡ true → check byte ≡ true
unfolding every_byte
check_at check zero byte inside all = absurd (omega arith)
check_at check (suc top) byte inside all = ground (arith, check_at check top byte)

low_table : every_byte (λ b. bit_and b 0x7F == b % 128) 256 ≡ true
unfolding every_byte
low_table = refl

top_table : every_byte (λ b. bit_and b 0x80 == b / 128 * 128) 256 ≡ true
unfolding every_byte
top_table = refl

pub low_seven : (b : ℕ) → b < 256 → bit_and b 0x7F ≡ b % 128
low_seven b h = (==_iff _ _).0 (check_at _ 256 b h low_table)

pub top_bit : (b : ℕ) → b < 256 → bit_and b 0x80 ≡ b / 128 * 128
top_bit b h = (==_iff _ _).0 (check_at _ 256 b h top_table)

-- `|` digit by digit
abbrev or_digits : ℕ → ℕ → ℕ → ℕ
or_digits n a b = digits (λ b. b) max n a b

or_digits_fuel : (n m a b : ℕ) → a ≤ n → a ≤ m → or_digits n a b ≡ or_digits m a b
or_digits_fuel zero zero a b h k = refl
or_digits_fuel zero (suc m) zero b h k = refl
or_digits_fuel zero (suc m) (suc a) b h k = absurd (omega arith)
or_digits_fuel (suc n) zero zero b h k = refl
or_digits_fuel (suc n) zero (suc a) b h k = absurd (omega arith)
or_digits_fuel (suc n) (suc m) zero b h k = refl
or_digits_fuel (suc n) (suc m) (suc a) b h k =
    omega (arith, or_digits_fuel n m (suc a / 2) (b / 2) (omega arith) (omega arith))

zero-bit_or : (b : ℕ) → bit_or 0 b ≡ b
zero-bit_or b = bit_or-bitwise 0 b

bit_or-lowest : (a b : ℕ) → bit_or a b ≡ bit_or (a / 2) (b / 2) * 2 + max (a % 2) (b % 2)
bit_or-lowest zero b = omega (arith, zero-bit_or b, zero-bit_or (b / 2))
bit_or-lowest (suc a) b = omega (
  arith,
  bit_or-bitwise (suc a) b,
  bit_or-bitwise (suc a / 2) (b / 2),
  or_digits_fuel a (suc a / 2) (suc a / 2) (b / 2) (omega arith) (omega arith),
)

double_shift : (b k : ℕ) → b * 2 ^ suc k ≡ 2 * (b * 2 ^ k)
double_shift b k = omega (arith, ap (λ (t : ℕ). b * t) (pow-suc 2 k))

-- Bits above position `k` join a number below it as a sum.
pub bit_or-above : (k a b : ℕ) → a < 2 ^ k → bit_or a (b * 2 ^ k) ≡ a + b * 2 ^ k
bit_or-above zero a b h = ground (arith, zero-bit_or (b * 2 ^ 0))
bit_or-above (suc k) a b h = ground (
  arith,
  bit_or-lowest a (b * 2 ^ suc k),
  double_shift b k,
  pow-suc 2 k,
  bit_or-above k (a / 2) b,
)
