-- ===== src/Reader/Leb.antt =====
-- Unsigned LEB128: what the loop reads back.
use web_assembly_interpreter.Base.{
  Bool-cases, List, [], ap, arith, bit_and, bit_or-above, drop, get_elem?-drop, get_or_of_some,
  if◌then◌else◌, inl, inr, length, low_seven, lt-length_of_some, ltb, ltb→lt, ok, suc, top_bit,
  zero, ℕ, ◌%◌, ◌*◌, ◌++◌, ◌+◌, ◌/◌, ◌<◌, ◌>>=◌, ◌^◌, ◌∷◌, ◌≡◌,
}
use web_assembly_interpreter.Reader.{
  Reader, add_group, leb_unsigned_loop, read_leb_unsigned, read_u8, read_varuint32, reader_at,
}
use native.Mathlib.Nat.{pow-suc}
use native.Mathlib.Numerals.{towards_suc}
use native.Mathlib.Nat.{div-add-mod, mod-eq_of_lt}

-- The bytes of `v`, lowest seven bits first, for `v` below `128 ^ (k + 1)`.
unfoldable pub leb128 : ℕ → ℕ → List ℕ
leb128 zero v = v ∷ []
leb128 (suc k) v =
    let later = leb128 k (v / 128) in if ltb v 128 then v ∷ [] else (v % 128 + 128) ∷ later

-- What is left of the bytes from the cursor on.
abbrev pub remaining : Reader → List ℕ
remaining r = drop r.offset r.bytes

module _ (bs : List ℕ) (i b : ℕ) (rest : List ℕ) (h : drop i bs ≡ b ∷ rest) where
  read_u8_next : read_u8 (reader_at bs i) ≡ ok (b, reader_at bs (suc i))
  unfolding read_u8
  read_u8_next =
      let here = (get_elem?-drop bs i b rest h).0 in
      ground (arith, lt-length_of_some bs i here, get_or_of_some bs i 0 here)

  remaining_next : drop (suc i) bs ≡ rest
  remaining_next = (get_elem?-drop bs i b rest h).1

add_group_lem :
    (w acc byte g s : ℕ)
    → acc < 2 ^ s
    → bit_and byte 0x7F ≡ g
    → acc + g * 2 ^ s < 2 ^ w
    → add_group w acc byte s ≡ acc + g * 2 ^ s
unfolding add_group
add_group_lem w acc byte g s ha hg fits =
    ground (arith, bit_or-above s acc g, mod-eq_of_lt {n = g * 2 ^ s} {m = 2 ^ w})

shift_seven : (s : ℕ) → 2 ^ (s + 7) ≡ 128 * 2 ^ s
shift_seven s = simp towards_suc (omega arith)

-- The lowest group of `v` and the others, in place.
split_group : (v s : ℕ) → v * 2 ^ s ≡ v % 128 * 2 ^ s + v / 128 * 2 ^ (s + 7)
split_group v s = omega (
  arith,
  ap (λ (t : ℕ). t * 2 ^ s) (div-add-mod v 128),
  ap (λ (t : ℕ). v / 128 * t) (shift_seven s),
)

-- One round on a last byte, and on a byte with the continuation bit over the group `g`.
module _ (f w m acc s : ℕ) (bs : List ℕ) (i g : ℕ) (rest : List ℕ) (small : g < 128)
    (below : acc < 2 ^ s) (fits : acc + g * 2 ^ s < 2 ^ w) where
  last_round :
      drop i bs ≡ g ∷ rest
      → leb_unsigned_loop (suc f) w m acc s (reader_at bs i)
        ≡ ok (acc + g * 2 ^ s, reader_at bs (suc i))
  unfolding leb_unsigned_loop ◌>>=◌
  last_round h =
      ground (arith, read_u8_next bs i g rest h, low_seven g, top_bit g, add_group_lem w acc g g s)

  inner_round :
      drop i bs ≡ (g + 128) ∷ rest
      → s + 7 < m
      → leb_unsigned_loop (suc f) w m acc s (reader_at bs i)
        ≡ leb_unsigned_loop f w m (acc + g * 2 ^ s) (s + 7) (reader_at bs (suc i))
  unfolding leb_unsigned_loop ◌>>=◌
  inner_round h more = ground (
    arith,
    read_u8_next bs i (g + 128) rest h,
    low_seven (g + 128),
    top_bit (g + 128),
    add_group_lem w acc (g + 128) g s,
  )

unsigned_loop-leb128 :
    (k f w m v acc s : ℕ) (bs : List ℕ) (i : ℕ) (rest : List ℕ)
    → v < 128 ^ suc k
    → acc < 2 ^ s
    → acc + v * 2 ^ s < 2 ^ w
    → k < f
    → s + 7 * k < m
    → drop i bs ≡ leb128 k v ++ rest
    → leb_unsigned_loop f w m acc s (reader_at bs i)
      ≡ ok (acc + v * 2 ^ s, reader_at bs (i + length (leb128 k v)))
unfolding leb128
unsigned_loop-leb128 k zero w m v acc s bs i rest hv ha fits hf hm h = absurd (omega arith)
unsigned_loop-leb128 zero (suc f) w m v acc s bs i rest hv ha fits hf hm h =
    ground (arith, last_round f w m acc s bs i v rest (omega arith) ha fits h)
unsigned_loop-leb128 (suc k) (suc f) w m v acc s bs i rest hv ha fits hf hm h =
    elim (Bool-cases (ltb v 128)) [
      | inl short ↦
          let h' : drop i bs ≡ v ∷ rest = rw short at h in
          rw short (
            ground (
              arith,
              last_round f w m acc s bs i v rest (omega (arith, ltb→lt _ _ short)) ha fits h',
            ))
      | inr long ↦
          let h' : drop i bs ≡ (v % 128 + 128) ∷ (leb128 k (v / 128) ++ rest) = rw long at h in
          rw long (
            ground (
              arith,
              split_group v s,
              shift_seven s,
              inner_round f w m acc s bs i (v % 128) (leb128 k (v / 128) ++ rest) (omega arith) ha
                  (omega (arith, split_group v s)) h' (omega arith),
              unsigned_loop-leb128 k f w m (v / 128) (acc + v % 128 * 2 ^ s) (s + 7) bs (suc i) rest
                  (omega (arith, pow-suc 128 k)) (grind (arith, shift_seven s))
                  (omega (arith, split_group v s)) (omega arith) (omega arith)
                  (remaining_next bs i (v % 128 + 128) _ h'),
            ))
    ]

-- `read_varuint32` reads back every 32-bit number from its LEB128 bytes, wherever they stand and
-- whatever follows them, and stops right behind them.
pub read_varuint32-leb128 :
    (v : ℕ) (r : Reader) (rest : List ℕ)
    → v < 2 ^ 32
    → remaining r ≡ leb128 4 v ++ rest
    → read_varuint32 r ≡ ok (v, reader_at r.bytes (r.offset + length (leb128 4 v)))
unfolding read_varuint32 read_leb_unsigned
read_varuint32-leb128 v r rest h bytes = ground (
  arith,
  unsigned_loop-leb128 4 33 32 32 v 0 0 r.bytes r.offset rest (omega arith) (omega arith)
      (omega arith) (omega arith) (omega arith) bytes,
)
