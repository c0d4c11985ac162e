-- ===== src/Reader/Total.antt =====
-- Reads on enough fuel, and how many bytes they take.
use web_assembly_interpreter.Base.{
  Action, Bool, Bool-cases, Error, List, Result, String, [], and_then, arith, err, false, gets,
  if◌then◌else◌, inl, inr, leb, length, ltb, ltb→le, ok, out_of_fuel, pure, refl, runtime_error,
  suc, switch, throw, true, zero, ℕ, ◌*◌, ◌+◌, ◌<◌, ◌==◌, ◌>>=◌, ◌∙◌, ◌∷◌, ◌≡◌, ◌≢◌, ◌≤◌, ◌⊎◌,
}
use web_assembly_interpreter.Loader.Parts.{drop_reader, read_within}
use web_assembly_interpreter.Reader.{
  Reader, leb_signed_loop, leb_unsigned_loop, read_leb_signed, read_leb_unsigned, read_u32, read_u8,
  reader_at,
}

pub record Moves (n : ℕ) (r r' : Reader) : Type 0 where
  pub same : r'.bytes ≡ r.bytes
  pub forward : r.offset + n ≤ r'.offset
  pub inside : r'.offset ≤ length r.bytes

pub data Answers (n : ℕ) (r : Reader) {A : Type 0} : Result (A × Reader) → Type 0 where
  answers : {a : A} {r' : Reader} → Moves n r r' → Answers n r (ok (a, r'))
  refuses : {e : Error} → e ≢ out_of_fuel → Answers n r (err e)

pub record Reads (n : ℕ) {A : Type 0} (m : Action Reader A) : Type 0 where
  pub at : (r : Reader) → r.offset ≤ length r.bytes → Answers n r (m r)

pub Answers-and_then :
    {A B : Type 0} (j k : ℕ) (r : Reader) (x : Result (A × Reader)) (f : A → Action Reader B)
    → Answers j r x
    → ((a : A) → Reads k (f a))
    → Answers (j + k) r (and_then x f)
Answers-and_then j k r (ok (a, t)) f (answers h) g =
    extend (f a t) ((g a).at t (rw h.same h.inside))
  where
    extend : {B : Type 0} (y : Result (B × Reader)) → Answers k t y → Answers (j + k) r y
    extend (ok (b, u)) (answers h') = answers (record {
      same = h'.same ∙ h.same;
      forward = omega (arith, h.forward, h'.forward);
      inside = rw⁻¹ h.same h'.inside;
    })
    extend (err e) (refuses ne) = refuses ne
Answers-and_then j k r (err e) f (refuses ne) g = refuses ne

Answers-mono :
    {A : Type 0} (j k : ℕ) (r : Reader) (x : Result (A × Reader))
    → k ≤ j
    → Answers j r x
    → Answers k r x
Answers-mono j k r (ok (a, t)) le (answers h) =
    answers (record { same = h.same; forward = omega (arith, h.forward, le); inside = h.inside })
Answers-mono j k r (err e) le (refuses ne) = refuses ne

module _ {A B : Type 0} where
  pub Reads-bind :
      (n : ℕ) (m : Action Reader A) (f : A → Action Reader B)
      → Reads n m
      → ((a : A) → Reads 0 (f a))
      → Reads n (m >>= f)
  unfolding ◌>>=◌
  Reads-bind n m f h g = record {
    at = λ r p.
        Answers-mono (n + 0) n r _ (omega arith) (Answers-and_then n 0 r (m r) f (h.at r p) g);
  }

module _ {A : Type 0} where
  pub Reads-mono : (n : ℕ) (m : Action Reader A) → Reads n m → Reads 0 m
  Reads-mono n m h = record { at = λ r p. Answers-mono n 0 r (m r) (omega arith) (h.at r p) }

  pub Reads-pure : (a : A) → Reads 0 (pure a)
  unfolding pure
  Reads-pure a = record {
    at = λ r p. answers (record { same = refl; forward = omega arith; inside = p });
  }

  pub Reads-throw : (n : ℕ) (message : String) → Reads n (throw {A = A} (runtime_error message))
  unfolding throw
  Reads-throw n message = record { at = λ r p. refuses (λ e. cc) }

  pub Reads-gets : (f : Reader → A) → Reads 0 (gets f)
  unfolding gets
  Reads-gets f = record {
    at = λ r p. answers (record { same = refl; forward = omega arith; inside = p });
  }

  pub Reads-if :
      (n : ℕ) (b : Bool) (m k : Action Reader A)
      → Reads n m
      → Reads n k
      → Reads n (if b then m else k)
  Reads-if n true m k h g = h
  Reads-if n false m k h g = g

  -- A second reader leaves the first alone.
  pub Reads-within : (bs : List ℕ) (m : Action Reader A) → Reads 0 m → Reads 0 (read_within bs m)
  unfolding read_within
  Reads-within bs m h = record {
    at = λ r p. go r p (m (reader_at bs 0)) (h.at (reader_at bs 0) (omega arith));
  }
    where
      go :
          (r : Reader)
          → r.offset ≤ length r.bytes
          → (x : Result (A × Reader)) → Answers 0 (reader_at bs 0) x
          → Answers 0 r (drop_reader r x)
      go r p (ok (a, t)) h = answers (record { same = refl; forward = omega arith; inside = p })
      go r p (err e) (refuses ne) = refuses ne

  pub Reads-if_by :
      (n : ℕ) (b : Bool) (m k : Action Reader A)
      → (b ≡ true → Reads n m)
      → (b ≡ false → Reads n k)
      → Reads n (if b then m else k)
  Reads-if_by n true m k h g = h refl
  Reads-if_by n false m k h g = g refl

  infixr 20 ◌▸◌
  pub data ReadsCases : List (ℕ × Action Reader A) → Type 0 where
    no_more : ReadsCases []
    ◌▸◌ :
        {n : ℕ} {m : Action Reader A} {cases : List (ℕ × Action Reader A)}
        → Reads 0 m
        → ReadsCases cases
        → ReadsCases ((n, m) ∷ cases)

module _ {A : Type 0} where
  pub Reads-switch :
      (n : ℕ) {cases : List (ℕ × Action Reader A)} {otherwise : Action Reader A}
      → ReadsCases cases
      → Reads 0 otherwise
      → Reads 0 (switch n cases otherwise)
  unfolding switch
  Reads-switch n no_more k = k
  Reads-switch n (◌▸◌ {n = c} {m} h hs) k = Reads-if 0 (n == c) m _ h (Reads-switch n hs k)

pub read_u8-Reads : Reads 1 read_u8
unfolding read_u8
read_u8-Reads = record { at = λ r p. go r p (Bool-cases (ltb (length r.bytes) (r.offset + 1))) }
  where
    go :
        (r : Reader)
        → r.offset ≤ length r.bytes
        → (ltb (length r.bytes) (r.offset + 1) ≡ true)
          ⊎ (ltb (length r.bytes) (r.offset + 1) ≡ false)
        → Answers 1 r (read_u8 r)
    go r p (inl h) = rw h (refuses (λ e. cc))
    go r p (inr h) = rw h (
        answers
          (record { same = refl; forward = omega arith; inside = omega (arith, ltb→le _ _ h) }))

pub read_u32-Reads : Reads 4 read_u32
unfolding read_u32
read_u32-Reads = record { at = λ r p. go r p (Bool-cases (ltb (length r.bytes) (r.offset + 4))) }
  where
    go :
        (r : Reader)
        → r.offset ≤ length r.bytes
        → (ltb (length r.bytes) (r.offset + 4) ≡ true)
          ⊎ (ltb (length r.bytes) (r.offset + 4) ≡ false)
        → Answers 4 r (read_u32 r)
    go r p (inl h) = rw h (refuses (λ e. cc))
    go r p (inr h) = rw h (
        answers
          (record { same = refl; forward = omega arith; inside = omega (arith, ltb→le _ _ h) }))

pub leb→gt : (a b : ℕ) → leb a b ≡ false → b < a
leb→gt a b h = ground arith

-- A read, and what follows it wherever it ends.
pub Answers-then :
    {A B : Type 0} (n : ℕ) (r : Reader) (x : Result (A × Reader)) (f : A → Action Reader B)
    (Q : Result (B × Reader) → Type 0)
    → Answers n r x
    → ((a : A) (t : Reader) → Moves n r t → Q (f a t))
    → ((e : Error) → e ≢ out_of_fuel → Q (err e))
    → Q (and_then x f)
Answers-then n r (ok (a, t)) f Q (answers h) k j = k a t h
Answers-then n r (err e) f Q (refuses ne) k j = j e ne

-- A round that goes on has not reached `m` bits, so the fuel lasts.
leb_unsigned_loop-Reads :
    (f w m acc s : ℕ) → m < s + 7 * f → (s ≡ 0) ⊎ (s < m) → Reads 1 (leb_unsigned_loop f w m acc s)
unfolding leb_unsigned_loop
leb_unsigned_loop-Reads zero w m acc s h (inl start) = absurd (omega arith)
leb_unsigned_loop-Reads zero w m acc s h (inr more) = absurd (omega arith)
leb_unsigned_loop-Reads (suc f) w m acc s h first = Reads-bind 1 _ _ read_u8-Reads λ b.
    Reads-if 0 _ _ _ (Reads-pure _) (
      Reads-if_by 0 (leb m (s + 7)) _ _ (λ over. Reads-throw 0 _)
        λ more.
          Reads-mono 1 _
            (leb_unsigned_loop-Reads f w m _ (s + 7) (omega arith) (inr (leb→gt m (s + 7) more))))

leb_signed_loop-Reads :
    (f w m acc s : ℕ) → m < s + 7 * f → (s ≡ 0) ⊎ (s < m) → Reads 1 (leb_signed_loop f w m acc s)
unfolding leb_signed_loop
leb_signed_loop-Reads zero w m acc s h (inl start) = absurd (omega arith)
leb_signed_loop-Reads zero w m acc s h (inr more) = absurd (omega arith)
leb_signed_loop-Reads (suc f) w m acc s h first = Reads-bind 1 _ _ read_u8-Reads λ b.
    Reads-if 0 _ _ _ (Reads-pure _) (
      Reads-if_by 0 (leb m (s + 7)) _ _ (λ over. Reads-throw 0 _)
        λ more.
          Reads-mono 1 _
            (leb_signed_loop-Reads f w m _ (s + 7) (omega arith) (inr (leb→gt m (s + 7) more))))

pub leb-Reads : (w m : ℕ) → Reads 1 (read_leb_unsigned w m) × Reads 1 (read_leb_signed w m)
unfolding read_leb_unsigned read_leb_signed
leb-Reads w m = (
  leb_unsigned_loop-Reads (m + 1) w m 0 0 (omega arith) (inl refl),
  leb_signed_loop-Reads (m + 1) w m 0 0 (omega arith) (inl refl),
)
