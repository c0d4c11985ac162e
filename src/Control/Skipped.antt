-- ===== src/Control/Skipped.antt =====
-- What `skip_immediate` passes over, opcode by opcode.
use web_assembly_interpreter.Base.{
  Action, Bool, List, arith, bit_and, false, get_elem?, if◌then◌else◌, inl, inr, leb, length, ok,
  pure, refl, some, suc, switch, true, zero, ℕ, ◌&&◌, ◌+◌, ◌==◌, ◌>>=◌, ◌||◌, ◌≡◌, ◌≤◌,
}
use web_assembly_interpreter.Control.{
  BlockType, has_index, plain, read_block_type, read_br_table, read_memarg, skip_block_type,
  skip_immediate, skip_prefixed,
}
use web_assembly_interpreter.Control.Extent.{
  Leb, Yields, Yields-bind, Yields-if, Yields-mono, further, index-Yields, read_u32-Yields,
  read_u8-Yields, signed-Yields, unsigned-Yields, varuint32-Yields,
}
use web_assembly_interpreter.Control.Instruction.{
  AreLebs, Immediate, Stands, block_type, fixed, immediate, indices, last_byte, prefixed,
  prefixed_indices, short_block_type, vector,
}
use web_assembly_interpreter.Loader.Parts.{read_vector, repeat}
use web_assembly_interpreter.Reader.{
  Reader, read_f32, read_f64, read_leb_signed, read_leb_unsigned, read_u32, read_u8, read_varint32,
  read_varint64, read_varuint32, read_varuint7, reader_at,
}

-- skips, and what they leave behind
abbrev pub Skips : List ℕ → Immediate → ℕ → Action Reader (Unit {0}) → Type 0
Skips bs shape i m = Yields bs (λ u j. Stands bs shape i j) (m (reader_at bs i))

-- one number, and nothing else
skip_one-Skips :
    {A : Type 0} (bs : List ℕ) (i : ℕ) (m : Action Reader A)
    → Yields bs (Leb bs i) (m (reader_at bs i))
    → Skips bs (indices 1) i (m >>= λ _. pure tt)
unfolding pure
skip_one-Skips bs i m h =
    Yields-bind bs (Leb bs i) (λ u j. Stands bs (indices 1) i j) m _ (reader_at bs i) h
      λ n j _ l. (refl, (j, (l, refl)))

skip_two-Skips :
    {A : Type 0} (bs : List ℕ) (i : ℕ) (f : ℕ → ℕ → A)
    → Yields bs
        (λ u j. Stands bs (indices 2) i j)
        ((read_varuint32 >>= λ a. (read_varuint32 >>= λ b. pure (f a b))) (reader_at bs i))
unfolding pure
skip_two-Skips bs i f =
    Yields-bind bs (Leb bs i) (λ u j. Stands bs (indices 2) i j) read_varuint32 _ (reader_at bs i)
      (varuint32-Yields bs i)
      λ a j _ l.
        Yields-bind bs (Leb bs j) (λ u k. Stands bs (indices 2) i k) read_varuint32 _
          (reader_at bs j) (varuint32-Yields bs j) λ b k _ l'. (refl, (j, (l, (k, (l', refl)))))

-- a test that the code and the description share
Skips-if :
    {X : Type 0} (shape : X → Immediate) (bs : List ℕ) (i : ℕ) (b : Bool) (x y : X)
    (m k : Action Reader (Unit {0}))
    → Skips bs (shape x) i m
    → Skips bs (shape y) i k
    → Skips bs (shape (if b then x else y)) i (if b then m else k)
Skips-if shape bs i true x y m k h g = h
Skips-if shape bs i false x y m k h g = g

prefixed-Skips :
    (bs : List ℕ) (i n : ℕ) → Skips bs (indices (prefixed_indices n)) i (skip_prefixed n)
unfolding skip_prefixed pure
prefixed-Skips bs i n =
    Skips-if indices bs i (n == 0x08 || n == 0x0A || n == 0x0C || n == 0x0E) 2 _ _ _
      (skip_two-Skips bs i (λ _ _. tt))
      (Skips-if indices bs i (n == 0x09 || n == 0x0B || n == 0x0D || (leb 0x0F n && leb n 0x11)) 1 0
        _ _ (skip_one-Skips bs i read_varuint32 (varuint32-Yields bs i)) (refl, refl))

-- a byte that may be the whole block type
short_test :
    (bs : List ℕ) (i j b : ℕ) (c : Bool) (k : Action Reader BlockType)
    → get_elem? bs i ≡ some b
    → j ≡ suc i
    → (c ≡ true → short_block_type b ≡ true)
    → Yields bs (λ t j. Stands bs block_type i j) (k (reader_at bs j))
    → Yields bs
        (λ t j. Stands bs block_type i j)
        ((if c then pure (plain b) else k) (reader_at bs j))
unfolding pure
short_test bs i j b true k at next e h = (refl, inl (b, (at, (e refl, next))))
short_test bs i j b false k at next e h = h

pub block_type-Skips : (bs : List ℕ) (i : ℕ) → Skips bs block_type i skip_block_type
unfolding skip_block_type read_block_type switch pure
block_type-Skips bs i =
    Yields-bind bs (λ t j. Stands bs block_type i j) (λ u j. Stands bs block_type i j)
      read_block_type _ (reader_at bs i)
      (Yields-bind bs (λ b j. (get_elem? bs i ≡ some b) × (j ≡ suc i))
        (λ t j. Stands bs block_type i j) read_u8 _ (reader_at bs i) (read_u8-Yields bs i)
        λ b j _ (at, next).
          short_test bs i j b (b == 0x40) _ at next (λ e. ground (arith, e))
            (short_test bs i j b (b == 0x7F) _ at next (λ e. ground (arith, e))
              (short_test bs i j b (b == 0x7E) _ at next (λ e. ground (arith, e))
                (short_test bs i j b (b == 0x7D) _ at next (λ e. ground (arith, e))
                  (short_test bs i j b (b == 0x7C) _ at next (λ e. ground (arith, e))
                    (Yields-bind bs (Leb bs i) (λ t k. Stands bs block_type i k) _ _
                      (reader_at bs j)
                      (Yields-if bs (Leb bs i) (bit_and b 0x80 == 0) _ _ (reader_at bs j)
                        (λ low. (refl, last_byte at low next))
                        (λ high. further bs i b j _ at high next (index-Yields bs 5 _ 7 j)))
                      λ n k _ l. (refl, inr l)))))))
      λ t j _ h. (refl, h)

repeat-Yields :
    (bs : List ℕ) (n i : ℕ)
    → Yields bs (λ xs j. AreLebs bs n i j) (repeat n read_varuint32 (reader_at bs i))
unfolding repeat pure
repeat-Yields bs zero i = (refl, refl)
repeat-Yields bs (suc n) i =
    Yields-bind bs (Leb bs i) (λ xs j. AreLebs bs (suc n) i j) read_varuint32 _ (reader_at bs i)
      (varuint32-Yields bs i)
      λ a j _ l.
        Yields-bind bs (λ xs k. AreLebs bs n j k) (λ xs k. AreLebs bs (suc n) i k)
          (repeat n read_varuint32) _ (reader_at bs j) (repeat-Yields bs n j)
          λ xs k _ ls. (refl, (j, (l, ls)))

vector-Skips : (bs : List ℕ) (i : ℕ) → Skips bs vector i (read_br_table >>= λ _. pure tt)
unfolding read_br_table read_vector pure
vector-Skips bs i =
    Yields-bind bs (λ t j. Stands bs vector i j) (λ u j. Stands bs vector i j) read_br_table _
      (reader_at bs i)
      (Yields-bind bs
        (λ xs j.
          (n : ℕ) × ((k : ℕ) × ((read_varuint32 (reader_at bs i) ≡ ok (n, reader_at bs k))
              × AreLebs bs n k j)))
        (λ t j. Stands bs vector i j) (read_vector read_varuint32) _ (reader_at bs i)
        (Yields-bind bs (Leb bs i)
          (λ xs j.
            (n : ℕ) × ((k : ℕ) × ((read_varuint32 (reader_at bs i) ≡ ok (n, reader_at bs k))
                × AreLebs bs n k j)))
          read_varuint32 _ (reader_at bs i) (varuint32-Yields bs i)
          λ n k at _.
            Yields-mono bs (λ xs j. AreLebs bs n k j) _ _ (λ xs j ls. (n, (k, (at, ls))))
              (repeat-Yields bs n k))
        λ xs j _ (n, (k, (at, ls))).
          Yields-bind bs (Leb bs j) (λ t l. Stands bs vector i l) read_varuint32 _ (reader_at bs j)
            (varuint32-Yields bs j) λ d l _ h. (refl, (n, (k, (at, (j, (ls, h)))))))
      λ t j _ h. (refl, h)

read_prefixed-Skips :
    (bs : List ℕ) (i : ℕ) → Skips bs prefixed i (read_varuint32 >>= λ n. skip_prefixed n)
read_prefixed-Skips bs i =
    Yields-bind bs (Leb bs i) (λ u j. Stands bs prefixed i j) read_varuint32 _ (reader_at bs i)
      (varuint32-Yields bs i)
      λ n k at _.
        Yields-mono bs (λ u j. AreLebs bs (prefixed_indices n) k j) _ _
          (λ u j ls. (n, (k, (at, ls)))) (prefixed-Skips bs k n)

float32-Skips : (bs : List ℕ) (i : ℕ) → Skips bs (fixed 4) i (read_f32 >>= λ _. pure tt)
unfolding read_f32 pure
float32-Skips bs i =
    Yields-bind bs (λ b j. (j ≡ i + 4) × (j ≤ length bs)) (λ u j. Stands bs (fixed 4) i j) read_u32
      _ (reader_at bs i) (read_u32-Yields bs i) λ b j _ h. (refl, h)

float64-Skips : (bs : List ℕ) (i : ℕ) → Skips bs (fixed 8) i (read_f64 >>= λ _. pure tt)
unfolding read_f64 pure
float64-Skips bs i =
    Yields-bind bs (λ b j. (j ≡ i + 8) × (j ≤ length bs)) (λ u j. Stands bs (fixed 8) i j) read_f64
      _ (reader_at bs i)
      (Yields-bind bs (λ b j. (j ≡ i + 4) × (j ≤ length bs)) (λ b j. (j ≡ i + 8) × (j ≤ length bs))
        read_u32 _ (reader_at bs i) (read_u32-Yields bs i)
        λ lo j _ (e, _).
          Yields-bind bs (λ b k. (k ≡ j + 4) × (k ≤ length bs))
            (λ b k. (k ≡ i + 8) × (k ≤ length bs)) read_u32 _ (reader_at bs j)
            (read_u32-Yields bs j) λ hi k _ (e', le). (refl, (omega (arith, e, e'), le)))
      λ b j _ h. (refl, h)

varint32-Yields : (bs : List ℕ) (i : ℕ) → Yields bs (Leb bs i) (read_varint32 (reader_at bs i))
unfolding read_varint32 read_leb_signed
varint32-Yields bs i = signed-Yields bs 33 32 32 0 0 i

varint64-Yields : (bs : List ℕ) (i : ℕ) → Yields bs (Leb bs i) (read_varint64 (reader_at bs i))
unfolding read_varint64 read_leb_signed
varint64-Yields bs i = signed-Yields bs 65 64 64 0 0 i

varuint7-Yields : (bs : List ℕ) (i : ℕ) → Yields bs (Leb bs i) (read_varuint7 (reader_at bs i))
unfolding read_varuint7 read_leb_unsigned
varuint7-Yields bs i = unsigned-Yields bs 8 32 7 0 0 i

memarg-Skips : (bs : List ℕ) (i : ℕ) → Skips bs (indices 2) i (read_memarg >>= λ _. pure tt)
unfolding read_memarg pure
memarg-Skips bs i =
    Yields-bind bs (λ t j. Stands bs (indices 2) i j) (λ u j. Stands bs (indices 2) i j) read_memarg
      _ (reader_at bs i) (skip_two-Skips bs i (λ a o. record { align = a; offset = o }))
      λ t j _ h. (refl, h)

-- The immediate of an opcode is skipped.
pub skip_immediate-Skips : (bs : List ℕ) (i op : ℕ) → Skips bs (immediate op) i (skip_immediate op)
unfolding skip_immediate switch pure
skip_immediate-Skips bs i op =
    Skips-if (λ x. x) bs i (leb 0x02 op && leb op 0x04) _ _ _ _ (block_type-Skips bs i)
      (Skips-if (λ x. x) bs i (has_index op) _ _ _ _
        (skip_one-Skips bs i read_varuint32 (varuint32-Yields bs i))
        (Skips-if (λ x. x) bs i (leb 0x28 op && leb op 0x3E) _ _ _ _ (memarg-Skips bs i)
          (Skips-if (λ x. x) bs i (op == 0x0E) _ _ _ _ (vector-Skips bs i)
            (Skips-if (λ x. x) bs i (op == 0x11) _ _ _ _ (skip_two-Skips bs i (λ _ _. tt))
              (Skips-if (λ x. x) bs i (op == 0x41) _ _ _ _
                (skip_one-Skips bs i read_varint32 (varint32-Yields bs i))
                (Skips-if (λ x. x) bs i (op == 0x42) _ _ _ _
                  (skip_one-Skips bs i read_varint64 (varint64-Yields bs i))
                  (Skips-if (λ x. x) bs i (op == 0x43) _ _ _ _ (float32-Skips bs i)
                    (Skips-if (λ x. x) bs i (op == 0x44) _ _ _ _ (float64-Skips bs i)
                      (Skips-if (λ x. x) bs i (op == 0xD0) _ _ _ _
                        (skip_one-Skips bs i read_varuint7 (varuint7-Yields bs i))
                        (Skips-if (λ x. x) bs i (op == 0xFC) _ _ _ _ (read_prefixed-Skips bs i)
                          (refl, refl)))))))))))
