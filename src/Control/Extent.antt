-- ===== src/Control/Extent.antt =====
-- What the reads of immediates pass over.
use web_assembly_interpreter.Base.{
  Action, Bool, Bool-cases, List, Result, and_then, ap, arith, bit_and, err, false, get_elem?,
  get_elem?-some, get_or, get_or_of_some, if◌then◌else◌, inl, inr, leb, length, ltb, ltb→le, ok,
  pure, refl, some, suc, sym, throw, true, zero, ℕ, ◌+◌, ◌==◌, ◌>>=◌, ◌∙◌, ◌≡◌, ◌≤◌,
}
use web_assembly_interpreter.Control.{block_index_loop}
use web_assembly_interpreter.Control.Instruction.{IsLeb, last_byte, more_bytes}
use web_assembly_interpreter.Reader.{
  Reader, leb_signed_loop, leb_unsigned_loop, read_leb_unsigned, read_u32, read_u8, read_varuint32,
  reader_at,
}
use mathlib.Core.Path.{subst}

-- The answer, if there is one, is over the same bytes, with a value and a position that `P` relates.
abbrev pub Yields : {A : Type 0} → List ℕ → (A → ℕ → Type 0) → Result (A × Reader) → Type 0
Yields bs P (ok (a, t)) = (t.bytes ≡ bs) × P a t.offset
Yields bs P (err e) = Unit

module _ {A B : Type 0} (bs : List ℕ) where
  pub Yields-bind :
      (P : A → ℕ → Type 0) (Q : B → ℕ → Type 0) (m : Action Reader A) (f : A → Action Reader B)
      (r : Reader)
      → Yields bs P (m r)
      → ((a : A) (j : ℕ)
          → m r ≡ ok (a, reader_at bs j)
          → P a j
          → Yields bs Q (f a (reader_at bs j)))
      → Yields bs Q ((m >>= f) r)
  unfolding ◌>>=◌
  Yields-bind P Q m f r h k = next (m r) refl h
    where
      next : (x : Result (A × Reader)) → m r ≡ x → Yields bs P x → Yields bs Q (and_then x f)
      next (ok (a, t)) at (same, p) =
          subst (λ b. Yields bs Q (f a (reader_at b t.offset))) (sym same)
            (k a t.offset (at ∙ ap (λ b. ok (a, reader_at b t.offset)) same) p)
      next (err e) at h = tt

module _ {A : Type 0} (bs : List ℕ) where
  pub Yields-if :
      (P : A → ℕ → Type 0) (b : Bool) (m k : Action Reader A) (r : Reader)
      → (b ≡ true → Yields bs P (m r))
      → (b ≡ false → Yields bs P (k r))
      → Yields bs P ((if b then m else k) r)
  Yields-if P true m k r h i = h refl
  Yields-if P false m k r h i = i refl

pub Yields-mono :
    {A : Type 0} (bs : List ℕ) (P Q : A → ℕ → Type 0) (x : Result (A × Reader))
    → ((a : A) (j : ℕ) → P a j → Q a j)
    → Yields bs P x
    → Yields bs Q x
Yields-mono bs P Q (ok (a, t)) h (same, p) = (same, h a t.offset p)
Yields-mono bs P Q (err e) h p = tt

pub read_u8-Yields :
    (bs : List ℕ) (i : ℕ)
    → Yields bs (λ b j. (get_elem? bs i ≡ some b) × (j ≡ suc i)) (read_u8 (reader_at bs i))
unfolding read_u8
read_u8-Yields bs i = elim (Bool-cases (ltb (length bs) (i + 1))) [
  | inl over ↦ rw over tt
  | inr fits ↦ rw fits (refl, (there (ltb→le _ _ fits), refl))
]
  where
    there : i + 1 ≤ length bs → get_elem? bs i ≡ some (get_or bs i 0)
    there h =
        let (y, at) = get_elem?-some bs i (omega (arith, h)) in
        at ∙ ap some (sym (get_or_of_some bs i 0 at))

pub read_u32-Yields :
    (bs : List ℕ) (i : ℕ)
    → Yields bs (λ b j. (j ≡ i + 4) × (j ≤ length bs)) (read_u32 (reader_at bs i))
unfolding read_u32
read_u32-Yields bs i = elim (Bool-cases (ltb (length bs) (i + 4))) [
  | inl over ↦ rw over tt
  | inr fits ↦ rw fits (refl, (omega arith, omega (arith, ltb→le _ _ fits)))
]

abbrev pub Leb : {A : Type 0} → List ℕ → ℕ → A → ℕ → Type 0
Leb bs i a j = IsLeb bs i j

-- a byte with the high bit, and what stands behind it
pub further :
    {A : Type 0} (bs : List ℕ) (i b j : ℕ) (x : Result (A × Reader))
    → get_elem? bs i ≡ some b
    → (bit_and b 0x80 == 0) ≡ false
    → j ≡ suc i
    → Yields bs (Leb bs j) x
    → Yields bs (Leb bs i) x
further bs i b j x at high next =
    Yields-mono bs (Leb bs j) (Leb bs i) x
      (λ a k h. more_bytes at high (subst (λ n. IsLeb bs n k) next h))

pub unsigned-Yields :
    (bs : List ℕ) (f w m acc s i : ℕ)
    → Yields bs (Leb bs i) (leb_unsigned_loop f w m acc s (reader_at bs i))
unfolding leb_unsigned_loop throw pure
unsigned-Yields bs zero w m acc s i = tt
unsigned-Yields bs (suc f) w m acc s i =
    Yields-bind bs (λ b j. (get_elem? bs i ≡ some b) × (j ≡ suc i)) (Leb bs i) read_u8 _
      (reader_at bs i) (read_u8-Yields bs i)
      λ b j _ (at, next).
        Yields-if bs (Leb bs i) (bit_and b 0x80 == 0) _ _ (reader_at bs j)
          (λ low. (refl, last_byte at low next))
          (λ high.
            Yields-if bs (Leb bs i) (leb m (s + 7)) _ _ (reader_at bs j) (λ _. tt)
              (λ _. further bs i b j _ at high next (unsigned-Yields bs f w m _ (s + 7) j)))

pub signed-Yields :
    (bs : List ℕ) (f w m acc s i : ℕ)
    → Yields bs (Leb bs i) (leb_signed_loop f w m acc s (reader_at bs i))
unfolding leb_signed_loop throw pure
signed-Yields bs zero w m acc s i = tt
signed-Yields bs (suc f) w m acc s i =
    Yields-bind bs (λ b j. (get_elem? bs i ≡ some b) × (j ≡ suc i)) (Leb bs i) read_u8 _
      (reader_at bs i) (read_u8-Yields bs i)
      λ b j _ (at, next).
        Yields-if bs (Leb bs i) (bit_and b 0x80 == 0) _ _ (reader_at bs j)
          (λ low. (refl, last_byte at low next))
          (λ high.
            Yields-if bs (Leb bs i) (leb m (s + 7)) _ _ (reader_at bs j) (λ _. tt)
              (λ _. further bs i b j _ at high next (signed-Yields bs f w m _ (s + 7) j)))

pub index-Yields :
    (bs : List ℕ) (f acc s i : ℕ) → Yields bs (Leb bs i) (block_index_loop f acc s (reader_at bs i))
unfolding block_index_loop throw pure
index-Yields bs zero acc s i = tt
index-Yields bs (suc f) acc s i =
    Yields-bind bs (λ b j. (get_elem? bs i ≡ some b) × (j ≡ suc i)) (Leb bs i) read_u8 _
      (reader_at bs i) (read_u8-Yields bs i)
      λ b j _ (at, next).
        Yields-if bs (Leb bs i) (bit_and b 0x80 == 0) _ _ (reader_at bs j)
          (λ low. (refl, last_byte at low next))
          (λ high.
            Yields-if bs (Leb bs i) (ltb 32 (s + 7)) _ _ (reader_at bs j) (λ _. tt)
              (λ _. further bs i b j _ at high next (index-Yields bs f _ (s + 7) j)))

pub varuint32-Yields :
    (bs : List ℕ) (i : ℕ) → Yields bs (Leb bs i) (read_varuint32 (reader_at bs i))
unfolding read_varuint32 read_leb_unsigned
varuint32-Yields bs i = unsigned-Yields bs 33 32 32 0 0 i
