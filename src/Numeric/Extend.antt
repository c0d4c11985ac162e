-- ===== src/Numeric/Extend.antt =====
-- Sign extension, and the number that a pattern stands for.
use web_assembly_interpreter.Base.{
  Bool-cases, ap, arith, inl, inr, le→ltb, ltb, ltb→le, ltb→lt, lt→ltb, negsuc, refl, ℕ, ◌%◌, ◌*◌,
  ◌+◌, ◌-◌, ◌<◌, ◌^◌, ◌≡◌, ◌≤◌,
}
use web_assembly_interpreter.Numeric.Count.{pow_two_pos}
use web_assembly_interpreter.Numeric.Division.{two_halves}
use web_assembly_interpreter.Numeric.Word.{extend_s, sign_bound, to_signed}
use native.Mathlib.Nat.{mod-lt, pow-le-pow_right}

-- The number that the low `v` bits of a pattern stand for is the one that its sign extension to `w`
-- bits stands for, for `v` between 1 and `w`.
pub to_signed-extend_s :
    (v w a : ℕ) → 0 < v → v ≤ w → to_signed w (extend_s v w a) ≡ to_signed v (a % 2 ^ v)
unfolding extend_s to_signed
to_signed-extend_s v w a hv le =
    let low : ℕ = a % 2 ^ v in
    let below : low < 2 ^ v = mod-lt a (pow_two_pos v) in
    let v_halves : 2 ^ v ≡ 2 * 2 ^ (v - 1) = (two_halves v hv).0 in
    let w_halves : 2 ^ w ≡ 2 * 2 ^ (w - 1) = (two_halves w (omega (arith, hv, le))).0 in
    let wider : 2 ^ (v - 1) ≤ 2 ^ (w - 1) =
      pow-le-pow_right (omega arith) (omega (arith, hv, le)) in
    elim (Bool-cases (ltb low (sign_bound v))) [
      | inl plus ↦ rw (plus, lt→ltb low (sign_bound w) (omega (arith, ltb→lt _ _ plus, wider))) refl
      | inr minus ↦
          let high : 2 ^ (v - 1) ≤ low = ltb→le _ _ minus in
          let big : sign_bound w ≤ low + (2 ^ w - 2 ^ v) =
            omega (arith, high, v_halves, w_halves, wider) in
          let same : 2 ^ w - (low + (2 ^ w - 2 ^ v)) - 1 ≡ 2 ^ v - low - 1 =
            omega (arith, below, v_halves, w_halves, wider) in
          rw (minus, le→ltb (low + (2 ^ w - 2 ^ v)) (sign_bound w) big) (ap negsuc same)
    ]
