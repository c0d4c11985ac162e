-- ===== src/Reader/Advance.antt =====
-- The cursor and the bytes after a read.
use web_assembly_interpreter.Base.{
  Bool-cases, Ensures, IsPreorder, Keeps, Keeps-bind, Keeps-if, Keeps-pure, Keeps-throw, arith,
  false, get_or, inl, inr, length, ltb, ltb→le, ok, refl, returns, suc, throws, true, zero, ℕ, ◌+◌,
  ◌<◌, ◌∙◌, ◌≡◌, ◌≤◌, ◌⊎◌,
}
use web_assembly_interpreter.Reader.{
  Reader, leb_signed_loop, leb_unsigned_loop, read_leb_signed, read_leb_unsigned, read_u32, read_u8,
  reader_at,
}

pub record Advances (r r' : Reader) : Type 0 where
  pub same : r'.bytes ≡ r.bytes
  pub forward : r.offset ≤ r'.offset
  pub inside : r.offset ≤ length r.bytes → r'.offset ≤ length r.bytes

instance pub Advances-IsPreorder : IsPreorder Advances
Advances-IsPreorder = record {
  stay = λ s. record { same = refl; forward = omega arith; inside = λ h. h };
  chain = λ s t u h k. record {
    same = k.same ∙ h.same;
    forward = omega (arith, h.forward, k.forward);
    inside = λ p. rw (← h.same) (k.inside (rw h.same (h.inside p)));
  };
}

-- A read of one byte that returns moves the cursor by one, and the byte was there.
pub read_u8-some :
    (r : Reader) (b : ℕ) (r' : Reader)
    → read_u8 r ≡ ok (b, r')
    → (r.offset < length r.bytes)
      × (r' ≡ reader_at r.bytes (suc r.offset))
      × (b ≡ get_or r.bytes r.offset 0)
unfolding read_u8
read_u8-some r b r' h = ground arith

pub read_u8-Advances : Keeps Advances read_u8
unfolding read_u8
read_u8-Advances = record { at = λ r. go r (Bool-cases (ltb (length r.bytes) (r.offset + 1))) }
  where
    go :
        (r : Reader)
        → (ltb (length r.bytes) (r.offset + 1) ≡ true)
          ⊎ (ltb (length r.bytes) (r.offset + 1) ≡ false)
        → Ensures (Advances r) (read_u8 r)
    go r (inl h) = rw h throws
    go r (inr h) = rw h (
        returns (record {
          same = refl;
          forward = omega arith;
          inside = λ _. omega (arith, ltb→le _ _ h);
        }))

pub read_u32-Advances : Keeps Advances read_u32
unfolding read_u32
read_u32-Advances = record { at = λ r. go r (Bool-cases (ltb (length r.bytes) (r.offset + 4))) }
  where
    go :
        (r : Reader)
        → (ltb (length r.bytes) (r.offset + 4) ≡ true)
          ⊎ (ltb (length r.bytes) (r.offset + 4) ≡ false)
        → Ensures (Advances r) (read_u32 r)
    go r (inl h) = rw h throws
    go r (inr h) = rw h (
        returns (record {
          same = refl;
          forward = omega arith;
          inside = λ _. omega (arith, ltb→le _ _ h);
        }))

leb_unsigned_loop-Advances : (f w m acc s : ℕ) → Keeps Advances (leb_unsigned_loop f w m acc s)
unfolding leb_unsigned_loop
leb_unsigned_loop-Advances zero w m acc s = Keeps-throw _
leb_unsigned_loop-Advances (suc f) w m acc s = Keeps-bind _ _ read_u8-Advances λ b.
    Keeps-if _ _ _ (Keeps-pure _)
      (Keeps-if _ _ _ (Keeps-throw _) (leb_unsigned_loop-Advances f w m _ (s + 7)))

leb_signed_loop-Advances : (f w m acc s : ℕ) → Keeps Advances (leb_signed_loop f w m acc s)
unfolding leb_signed_loop
leb_signed_loop-Advances zero w m acc s = Keeps-throw _
leb_signed_loop-Advances (suc f) w m acc s = Keeps-bind _ _ read_u8-Advances λ b.
    Keeps-if _ _ _ (Keeps-pure _)
      (Keeps-if _ _ _ (Keeps-throw _) (leb_signed_loop-Advances f w m _ (s + 7)))

-- Every LEB128 read, of either sign and any width, leaves the bytes alone, and moves the cursor
-- neither back nor past the end of the bytes.
pub read_leb-Advances :
    (w m : ℕ) → Keeps Advances (read_leb_unsigned w m) × Keeps Advances (read_leb_signed w m)
unfolding read_leb_unsigned read_leb_signed
read_leb-Advances w m =
    (leb_unsigned_loop-Advances (m + 1) w m 0 0, leb_signed_loop-Advances (m + 1) w m 0 0)
