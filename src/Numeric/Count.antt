-- ===== src/Numeric/Count.antt =====
-- Counting and rotating bits.
use web_assembly_interpreter.Base.{
  ==_iff, Bool-cases, ap, arith, false, inl, inr, ltb, ltb→le, ltb→lt, suc, sym, true, zero, ℕ, ◌%◌,
  ◌*◌, ◌+◌, ◌-◌, ◌/◌, ◌<◌, ◌==◌, ◌^◌, ◌∙◌, ◌≡◌, ◌≢◌, ◌≤◌,
}
use web_assembly_interpreter.Numeric.Convert.{below}
use web_assembly_interpreter.Numeric.Float.{less}
use web_assembly_interpreter.Numeric.Word.{
  clz, ctz, rotate_left, rotate_right, rotl, rotr, shift_count,
}
use native.Mathlib.Nat.{
  add_comm, add-mul-div_right, add-mul-mod_self_right, div-add-mod', div-eq_of_lt,
  div-lt_iff_lt-mul, mod-eq_of_lt, pow-suc,
}
use native.Mathlib.Numerals.{unary_clauses}

-- The leading zeros of a number of `w` bits that is not 0 are fewer than `w`, and its highest one
-- stands right below them.
pub clz-highest :
    (w a : ℕ)
    → a < 2 ^ w
    → 0 < a
    → (clz w a < w) × ((2 ^ (w - clz w a) ≤ 2 * a) × (a < 2 ^ (w - clz w a)))
unfolding clz
clz-highest zero a h nz = absurd (omega arith)
clz-highest (suc w) a h nz = elim (Bool-cases (ltb a (2 ^ w))) [
  | inl short ↦
      let (below, (low, high)) = clz-highest w a (ltb→lt _ _ short) nz in
      rw short (omega arith, (simp unary_clauses low, simp unary_clauses high))
  | inr long ↦ rw long (
    omega arith,
    (
      simp unary_clauses (omega (arith, pow-suc 2 w, ltb→le _ _ long)),
      simp unary_clauses (omega (arith, pow-suc 2 w, h)),
    ),
  )
]

doubled : (a b k : ℕ) → a % 2 ≡ 0 → a / 2 ≡ (2 * b + 1) * 2 ^ k → a ≡ (2 * b + 1) * 2 ^ suc k
doubled a b k even half =
    let twice : (2 * b + 1) * 2 ^ suc k ≡ 2 * ((2 * b + 1) * 2 ^ k) =
      omega (arith, ap (λ (t : ℕ). (2 * b + 1) * t) (pow-suc 2 k)) in
    omega (arith, even, half, twice)

pub pow_two_pos : (n : ℕ) → 0 < 2 ^ n
pow_two_pos zero = omega arith
pow_two_pos (suc n) = omega (arith, pow_two_pos n, pow-suc 2 n)

pow_split : (k d : ℕ) → 2 ^ (k + d) ≡ 2 ^ k * 2 ^ d
pow_split zero d =
    let same : 2 ^ (0 + d) ≡ 2 ^ d = ap (λ (t : ℕ). 2 ^ t) (omega arith) in omega (arith, same)
pow_split (suc k) d =
    let same : 2 ^ (suc k + d) ≡ 2 ^ suc (k + d) = ap (λ (t : ℕ). 2 ^ t) (omega arith) in
    let left : 2 ^ suc k * 2 ^ d ≡ 2 * (2 ^ k * 2 ^ d) =
      omega (arith, ap (λ (t : ℕ). t * 2 ^ d) (pow-suc 2 k)) in
    omega (arith, same, pow-suc 2 (k + d), pow_split k d, left)

true_not_false : true ≢ false
true_not_false e = cc

-- A number of `w` bits that is not 0 is an odd number times the power of two that its trailing zeros
-- count, and they are fewer than `w`.
pub ctz-lowest :
    (w a : ℕ) → a < 2 ^ w → 0 < a → (b : ℕ) × ((a ≡ (2 * b + 1) * 2 ^ ctz w a) × (ctz w a < w))
unfolding ctz
ctz-lowest zero a h nz = absurd (omega arith)
ctz-lowest (suc w) a h nz = elim (Bool-cases (a % 2 == 0)) [
  | inl even ↦
      let half : a % 2 ≡ 0 = (==_iff _ _).0 even in
      let (b, (odd, less)) =
        ctz-lowest w (a / 2) (omega (arith, pow-suc 2 w, h)) (omega (arith, half, nz)) in
      rw even (b, (doubled a b (ctz w (a / 2)) half odd, omega arith))
  | inr odd ↦
      let one : a % 2 ≢ 0 = λ e. true_not_false (sym ((==_iff (a % 2) 0).1 e) ∙ odd) in
      rw odd (a / 2, (omega (arith, one), omega arith))
]

-- Two halves, swapped and swapped back.
swapped_back :
    (a p q : ℕ)
    → 0 < p
    → 0 < q
    → a < p * q
    → (a % q * p + a / q) % p * q + (a % q * p + a / q) / p ≡ a
swapped_back a p q hp hq h =
    let high : a / q < p = (div-lt_iff_lt-mul hq).1 h in
    let x : ℕ = a % q * p + a / q in
    let low_part : x % p ≡ a / q =
      ap (λ (t : ℕ). t % p) (add_comm (a % q * p) (a / q))
      ∙ add-mul-mod_self_right (a / q) (a % q) p
      ∙ mod-eq_of_lt high in
    let high_part : x / p ≡ a % q =
      ap (λ (t : ℕ). t / p) (add_comm (a % q * p) (a / q))
      ∙ add-mul-div_right (a / q) (a % q) hp
      ∙ omega (arith, div-eq_of_lt high) in
    ap (λ (t : ℕ). t * q + x / p) low_part
    ∙ ap (λ (t : ℕ). a / q * q + t) high_part
    ∙ div-add-mod' a q

-- Rotating a number of `w` bits left and then right by the same count gives it back, if the masked
-- count is at most `w`.
pub rotr-rotl : (w a b : ℕ) → shift_count w b ≤ w → a < 2 ^ w → rotr w (rotl w a b) b ≡ a
unfolding rotr rotl rotate_left rotate_right
rotr-rotl w a b h small =
    let k = shift_count w b in
    let whole : 2 ^ w ≡ 2 ^ k * 2 ^ (w - k) =
      ap (λ (t : ℕ). 2 ^ t) (omega (arith, h)) ∙ pow_split k (w - k) in
    swapped_back a (2 ^ k) (2 ^ (w - k)) (pow_two_pos k) (pow_two_pos (w - k))
      (omega (arith, whole, small))
