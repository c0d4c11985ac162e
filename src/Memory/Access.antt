-- ===== src/Memory/Access.antt =====
-- What a checked address promises, and little-endian access at one.
use web_assembly_interpreter.Base.{
  Bool-cases, List, [], ap, arith, err, get_elem?, get_elem?-set_ne, get_elem?-set_self, get_or,
  get_or_of_some, inl, inr, length, length-set, ltb, ltb→le, ltb→lt, ok, refl, set, suc, sym, trap,
  zero, ℕ, ◌%◌, ◌*◌, ◌+◌, ◌/◌, ◌<◌, ◌^◌, ◌∙◌, ◌∷◌, ◌≡◌, ◌≢◌, ◌≤◌, ◌⊎◌,
}
use web_assembly_interpreter.Memory.{
  MemArg, MemoryInstance, checked_address, read_value, write_value,
}
use native.Mathlib.Nat.{add-mul-mod_self_left, div-add-mod, mod-eq_of_lt, mod-lt, pow-suc}

-- In a memory of at most 2^32 bytes, an access of at least one byte gets the sum of base and offset,
-- with no wrap, exactly when all of its bytes lie in the memory, and else traps.
pub checked_address-cases :
    (base width : ℕ) (arg : MemArg) (m : MemoryInstance)
    → length m.contents ≤ 2 ^ 32
    → 0 < width
    → ((base + arg.offset + width ≤ length m.contents)
        × (checked_address base arg width m ≡ ok (base + arg.offset)))
      ⊎ ((length m.contents < base + arg.offset + width)
          × (checked_address base arg width m ≡ err (trap "Memory access out of bounds")))
unfolding checked_address
checked_address-cases base width arg m small some_bytes =
    elim (Bool-cases (ltb (length m.contents) (base + arg.offset + width))) [
      | inl over ↦ inr (ltb→lt _ _ over, rw over refl)
      | inr fits ↦
          let le : base + arg.offset + width ≤ length m.contents = ltb→le _ _ fits in
          let whole : (base + arg.offset) % 2 ^ 32 ≡ base + arg.offset =
            omega (arith, le, small, some_bytes) in
          inl (le, rw fits (ap ok whole))
    ]

get_or-set_self : (bs : List ℕ) (a v : ℕ) → a < length bs → get_or (set bs a v) a 0 ≡ v
get_or-set_self bs a v h = get_or_of_some (set bs a v) a 0 (get_elem?-set_self bs a v h)

-- A write of `n` bytes leaves every byte outside of them as it was.
pub write_value-outside :
    (n : ℕ) (bs : List ℕ) (a v i : ℕ)
    → (i < a) ⊎ (a + n ≤ i)
    → get_elem? (write_value n bs a v) i ≡ get_elem? bs i
unfolding write_value
write_value-outside zero bs a v i h = refl
write_value-outside (suc n) bs a v i h =
    write_value-outside n (set bs a (v % 256)) (suc a) (v / 256) i (shift h)
    ∙ get_elem?-set_ne bs a i (v % 256) (apart h)
  where
    shift : (i < a) ⊎ (a + suc n ≤ i) → (i < suc a) ⊎ (suc a + n ≤ i)
    shift (inl h) = inl (omega arith)
    shift (inr h) = inr (omega arith)

    apart : (i < a) ⊎ (a + suc n ≤ i) → a ≢ i
    apart (inl h) e = absurd (omega arith)
    apart (inr h) e = absurd (omega arith)

pub get_or_same :
    (xs ys : List ℕ) (i : ℕ) → get_elem? xs i ≡ get_elem? ys i → get_or xs i 0 ≡ get_or ys i 0
get_or_same [] [] i e = refl
get_or_same [] (y ∷ ys) zero e = cc
get_or_same [] (y ∷ ys) (suc i) e = get_or_same [] ys i e
get_or_same (x ∷ xs) [] zero e = cc
get_or_same (x ∷ xs) [] (suc i) e = get_or_same xs [] i e
get_or_same (x ∷ xs) (y ∷ ys) zero e = cc
get_or_same (x ∷ xs) (y ∷ ys) (suc i) e = get_or_same xs ys i e

pow_pos : (n : ℕ) → 0 < 256 ^ n
pow_pos zero = omega arith
pow_pos (suc n) = omega (arith, pow_pos n, pow-suc 256 n)

byte_split : (v p : ℕ) → 0 < p → v % 256 + 256 * (v / 256 % p) ≡ v % (256 * p)
byte_split v p h =
    let x = v % 256 + 256 * (v / 256 % p) in
    let high : 256 * p * (v / 256 / p) + 256 * (v / 256 % p) ≡ 256 * (v / 256) =
      omega (arith, ap (λ (t : ℕ). 256 * t) (div-add-mod (v / 256) p)) in
    let whole : v ≡ x + 256 * p * (v / 256 / p) = omega (arith, high) in
    let below : x < 256 * p = omega (arith, mod-lt (v / 256) h) in
    sym (
      ap (λ (t : ℕ). t % (256 * p)) whole
      ∙ add-mul-mod_self_left x (256 * p) (v / 256 / p)
      ∙ mod-eq_of_lt below)

-- What is read back after a write of `n` bytes that fits in the memory is the value, modulo 256^n.
pub read_value-write_value :
    (n : ℕ) (bs : List ℕ) (a v : ℕ)
    → a + n ≤ length bs
    → read_value n (write_value n bs a v) a ≡ v % 256 ^ n
unfolding read_value write_value
read_value-write_value zero bs a v h = omega arith
read_value-write_value (suc n) bs a v h =
    let later = write_value n (set bs a (v % 256)) (suc a) (v / 256) in
    let first : get_or later a 0 ≡ v % 256 =
      get_or_same later (set bs a (v % 256)) a
        (write_value-outside n (set bs a (v % 256)) (suc a) (v / 256) a (inl (omega arith)))
      ∙ get_or-set_self bs a (v % 256) (omega arith) in
    let others : read_value n later (suc a) ≡ v / 256 % 256 ^ n =
      read_value-write_value n (set bs a (v % 256)) (suc a) (v / 256)
        (omega (arith, length-set bs a (v % 256), h)) in
    ground (arith, first, others, byte_split v (256 ^ n) (pow_pos n), pow-suc 256 n)
