-- ===== src/Numeric/Division.antt =====
-- Signed division: when it traps, and how quotient and remainder belong together.
use web_assembly_interpreter.Base.{
  ==_iff, Bool-cases, ap, arith, err, false, inl, inr, ltb, ltb→le, ltb→lt, neg, ok, pos, quot,
  refl, rem, suc, sym, trap, true, zero, ℕ, ◌%◌, ◌&&◌, ◌*◌, ◌+◌, ◌-◌, ◌/◌, ◌<◌, ◌==◌, ◌^◌, ◌∙◌, ◌≡◌,
  ◌≤◌, ◌⊎◌,
}
use web_assembly_interpreter.Numeric.Count.{pow_two_pos}
use web_assembly_interpreter.Numeric.Word.{
  div_s, minus_one, of_signed, rem_s, sign_bound, to_signed,
}
use native.Mathlib.Nat.{
  add-mul-mod_self_left, div-add-mod, div-le_self, mod-eq_of_lt, mod-lt, mod_self, pow-suc,
}

-- Residues of the quotient and the remainder are as good as the numbers.
of_residues : (n x y b a c : ℕ) → x * b + y ≡ n * c + a → a < n → (x % n * b + y % n) % n ≡ a
of_residues n x y b a c e small =
    let z : ℕ = x % n * b + y % n in
    let spread : n * (x / n * b + y / n) + z ≡ x * b + y =
      omega (arith, ap (λ (t : ℕ). t * b) (div-add-mod x n), div-add-mod y n) in
    sym (add-mul-mod_self_left z n (x / n * b + y / n))
    ∙ ap (λ (t : ℕ). t % n) (omega (arith, spread, e))
    ∙ add-mul-mod_self_left a n c
    ∙ mod-eq_of_lt small

zero_residue : (n : ℕ) → 0 < n → 0 % n ≡ (n - 0) % n
zero_residue n h = mod-eq_of_lt h ∙ sym (ap (λ (t : ℕ). t % n) (omega arith) ∙ mod_self n)

of_signed-neg : (w m : ℕ) → m < 2 ^ w → of_signed w (neg m) ≡ (2 ^ w - m) % 2 ^ w
unfolding of_signed
of_signed-neg w zero h = zero_residue (2 ^ w) h
of_signed-neg w (suc m) h =
    ground (arith, mod-eq_of_lt {n = m} {m = 2 ^ w}, mod-eq_of_lt {n = 2 ^ w - suc m} {m = 2 ^ w})

of_signed-pos : (w m : ℕ) → of_signed w (pos m) ≡ m % 2 ^ w
unfolding of_signed
of_signed-pos w m = refl

pn_equation :
    (n m s c b a : ℕ) → c * m + s ≡ a → b + c ≡ n → m ≤ b → (n - m) * b + s ≡ n * (b - m) + a
pn_equation n m s c b a e whole le =
    let d = b - m in
    let b_is : b ≡ m + d = omega (arith, le) in
    let n_is : n ≡ m + d + c = omega (arith, whole, le) in
    let rest_is : n - m ≡ d + c = omega (arith, whole, le) in
    omega (
      arith,
      e,
      ap (λ (t : ℕ). t * b) rest_is,
      ap (λ (t : ℕ). (d + c) * t) b_is,
      ap (λ (t : ℕ). t * d) n_is,
    )

np_equation :
    (n m s b a c : ℕ)
    → b * m + s ≡ c
    → a + c ≡ n
    → m ≤ n
    → s ≤ n
    → (n - m) * b + (n - s) ≡ n * b + a
np_equation n m s b a c e whole le₁ le₂ =
    let back : (n - m) + m ≡ n = omega (arith, le₁) in
    omega (arith, e, whole, le₂, ap (λ (t : ℕ). t * b) back)

nn_equation :
    (n m s c b a d : ℕ)
    → c * m + s ≡ d
    → a + d ≡ n
    → b + c ≡ n
    → s ≤ n
    → m * b + (n - s) ≡ n * m + a
nn_equation n m s c b a d e whole both le = omega (arith, e, whole, le, ap (λ (t : ℕ). m * t) both)

-- The four cases of the signs, for numbers with magnitudes `A` and `B`.
module _ (n a b : ℕ) (small_a : a < n) (small_b : b < n) where
  case_pp : 0 < b → (a / b % n * b + a % b % n) % n ≡ a
  case_pp h = of_residues n (a / b) (a % b) b a 0 (omega (arith, div-add-mod a b)) small_a

  case_pn : a / (n - b) + (n - b) ≤ n → ((n - a / (n - b)) % n * b + a % (n - b) % n) % n ≡ a
  case_pn le =
      of_residues n (n - a / (n - b)) (a % (n - b)) b a (b - a / (n - b))
        (pn_equation n (a / (n - b)) (a % (n - b)) (n - b) b a (div-add-mod a (n - b))
          (omega (arith, small_b)) (omega (arith, le, small_b)))
        small_a

  case_np :
      0 < b
      → (n - a) / b ≤ n
      → (n - a) % b ≤ n
      → ((n - (n - a) / b) % n * b + (n - (n - a) % b) % n) % n ≡ a
  case_np h q r =
      of_residues n (n - (n - a) / b) (n - (n - a) % b) b a b
        (np_equation n ((n - a) / b) ((n - a) % b) b a (n - a) (div-add-mod (n - a) b)
          (omega (arith, small_a)) q r)
        small_a

  case_nn :
      (n - a) % (n - b) ≤ n → ((n - a) / (n - b) % n * b + (n - (n - a) % (n - b)) % n) % n ≡ a
  case_nn r =
      of_residues n ((n - a) / (n - b)) (n - (n - a) % (n - b)) b a ((n - a) / (n - b))
        (nn_equation n ((n - a) / (n - b)) ((n - a) % (n - b)) (n - b) b a (n - a)
          (div-add-mod (n - a) (n - b)) (omega (arith, small_a)) (omega (arith, small_b)) r)
        small_a

both_tests : (a b x y : ℕ) → (a == x && b == y) ≡ true → (a ≡ x) × (b ≡ y)
both_tests a b x y h = ground arith

not_zero : (b : ℕ) → (b == 0) ≡ false → 0 < b
not_zero b h = ground arith

pub two_halves : (w : ℕ) → 0 < w → (2 ^ w ≡ 2 * 2 ^ (w - 1)) × (0 < 2 ^ (w - 1))
two_halves zero h = absurd (omega arith)
two_halves (suc w) h =
    let same : 2 ^ (suc w - 1) ≡ 2 ^ w = ap (λ (t : ℕ). 2 ^ t) (omega arith) in
    (omega (arith, same, pow-suc 2 w), omega (arith, same, pow_two_pos w))

module _ (w a b : ℕ) (hw : 0 < w) (ha : a < 2 ^ w) (hb : b < 2 ^ w) (nz : 0 < b) where
  Law : Type 0
  Law =
      (of_signed w (quot (to_signed w a) (to_signed w b)) * b
          + of_signed w (rem (to_signed w a) (to_signed w b)))
        % 2 ^ w
      ≡ a

  signed_law : Law
  unfolding Law to_signed of_signed
  signed_law =
      let (halves, some_half) = two_halves w hw in
      let b_size : suc (2 ^ w - b - 1) ≡ 2 ^ w - b = omega (arith, hb) in
      let a_size : suc (2 ^ w - a - 1) ≡ 2 ^ w - a = omega (arith, ha) in
      elim (Bool-cases (ltb a (sign_bound w))) [
        | inl sa ↦ elim (Bool-cases (ltb b (sign_bound w))) [
          | inl sb ↦ rw (sa, sb) (case_pp (2 ^ w) a b ha hb nz)
          | inr sb ↦
              let small : a / (2 ^ w - b) ≤ a = div-le_self a (2 ^ w - b) in
              rw (sa, sb, b_size, of_signed-neg w (a / (2 ^ w - b)) (omega (arith, small, ha)))
                (case_pn (2 ^ w) a b ha hb
                  (omega (arith, small, halves, ltb→lt _ _ sa, ltb→le _ _ sb)))
        ]
        | inr sa ↦ elim (Bool-cases (ltb b (sign_bound w))) [
          | inl sb ↦
              let small : (2 ^ w - a) / b ≤ 2 ^ w - a = div-le_self (2 ^ w - a) b in
              let below : (2 ^ w - a) % b < b = mod-lt (2 ^ w - a) nz in
              let a_pos : 0 < a = omega (arith, some_half, ltb→le _ _ sa) in
              rw
                (
                  sa,
                  sb,
                  a_size,
                  of_signed-neg w ((2 ^ w - a) / b) (omega (arith, small, ha, a_pos)),
                  of_signed-neg w ((2 ^ w - a) % b) (omega (arith, below, hb)),
                )
                (case_np (2 ^ w) a b ha hb nz (omega (arith, small)) (omega (arith, below, hb)))
          | inr sb ↦
              let below : (2 ^ w - a) % (2 ^ w - b) < 2 ^ w - b =
                mod-lt (2 ^ w - a) (omega (arith, hb)) in
              rw
                (
                  sa,
                  sb,
                  a_size,
                  b_size,
                  of_signed-neg w ((2 ^ w - a) % (2 ^ w - b)) (omega (arith, below, hb)),
                )
                (case_nn (2 ^ w) a b ha hb (omega (arith, below)))
        ]
      ]

-- A signed division of two numbers of `w` bits, `w` positive, traps on the divisor 0 and on the least number
-- divided by -1, and on nothing else; the remainder traps on the divisor 0 only. Where there is a
-- quotient, quotient times divisor plus remainder is the dividend, modulo 2^w.
pub div_s-rem_s :
    (w a b : ℕ)
    → 0 < w
    → a < 2 ^ w
    → b < 2 ^ w
    → ((b ≡ 0)
        × ((div_s w a b ≡ err (trap "Integer divide by zero"))
            × (rem_s w a b ≡ err (trap "Integer remainder by zero"))))
      ⊎ (((a ≡ sign_bound w) × (b ≡ minus_one w))
            × ((div_s w a b ≡ err (trap "Integer overflow")) × (rem_s w a b ≡ ok 0))
          ⊎ ((q : ℕ) × ((r : ℕ) × ((div_s w a b ≡ ok q)
                  × ((rem_s w a b ≡ ok r) × ((q * b + r) % 2 ^ w ≡ a))))))
unfolding div_s rem_s Law
div_s-rem_s w a b hw ha hb = elim (Bool-cases (b == 0)) [
  | inl null ↦ inl ((==_iff b 0).0 null, rw null (refl, refl))
  | inr some_divisor ↦ elim (Bool-cases (a == sign_bound w && b == minus_one w)) [
    | inl over ↦ inr (
        inl (both_tests a b _ _ over, (rw (some_divisor, over) refl, rw (some_divisor, over) refl)))
    | inr fits ↦ inr (
        inr (
          of_signed w (quot (to_signed w a) (to_signed w b)),
          (
            of_signed w (rem (to_signed w a) (to_signed w b)),
            (
              rw (some_divisor, fits) refl,
              (rw (some_divisor, fits) refl, signed_law w a b hw ha hb (not_zero b some_divisor)),
            ),
          ),
        ))
  ]
]
