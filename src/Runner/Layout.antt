-- ===== src/Runner/Layout.antt =====
-- What args_get and environ_get leave in the memory.
use web_assembly_interpreter.Base.{
  List, [], ap, arith, false, get_elem?, inl, inr, leb, length, length-overwrite, none, overwrite,
  refl, some, suc, sym, take, true, ℕ, ◌%◌, ◌*◌, ◌+◌, ◌-◌, ◌<◌, ◌^◌, ◌∙◌, ◌∷◌, ◌≡◌, ◌≤◌, ◌⊎◌,
}
use web_assembly_interpreter.Embed.Wasi.{errno_success}
use web_assembly_interpreter.Memory.{read_value, write_value}
use web_assembly_interpreter.Memory.Access.{read_value-write_value, write_value-outside}
use web_assembly_interpreter.Memory.Overwrite.{
  get_elem?-overwrite_inside, get_elem?-overwrite_outside, read_value-same,
}
use web_assembly_interpreter.Memory.Size.{length-write_value}
use web_assembly_interpreter.Runner.Accessor.{available, store_bytes, store_u32}
use web_assembly_interpreter.Runner.Arguments.{strings_get, total_size}
use web_assembly_interpreter.Runner.World.{Answer, View}
use mathlib.Core.Path.{subst}
use native.Mathlib.Nat.{mod-eq_of_lt}

-- the bytes of the strings, with a zero each
abbrev pub block_size : List (List ℕ) → ℕ
block_size [] = 0
block_size (e ∷ es) = length e + 1 + block_size es

-- The pointers from `slot` on lead to the strings from `buf` on, each behind the one before and with
-- a zero behind it.
abbrev pub LaidOut : List ℕ → List (List ℕ) → ℕ → ℕ → Type 0
LaidOut memory [] slot buf = Unit
LaidOut memory (e ∷ es) slot buf =
    (read_value 4 memory slot ≡ buf)
    × (((i : ℕ) → i < length e → get_elem? memory (buf + i) ≡ get_elem? e i)
        × ((get_elem? memory (buf + length e) ≡ some 0)
            × LaidOut memory es (slot + 4) (buf + (length e + 1))))

available-fits :
    (bs : List ℕ) (o n : ℕ) → 0 < length bs → o + n ≤ length bs → available bs o n ≡ true
unfolding available
available-fits bs o n p h = ground arith

module _ {S : Type 0} where
  store_u32-fits :
      (o x : ℕ) (v : View S) (k : View S → Answer S)
      → o + 4 ≤ length v.memory
      → store_u32 o x v k ≡ k (record v { memory = write_value 4 v.memory o x })
  unfolding store_u32
  store_u32-fits o x v k h = rw (available-fits v.memory o 4 (omega (arith, h)) h) refl

  store_bytes-fits :
      (o : ℕ) (bs : List ℕ) (v : View S) (k : View S → Answer S)
      → 0 < length v.memory
      → o + length bs ≤ length v.memory
      → store_bytes o bs v k ≡ k (record v { memory = overwrite v.memory o bs })
  unfolding store_bytes
  store_bytes-fits o bs v k p h = rw (available-fits v.memory o (length bs) p h) refl

-- one string in the memory
abbrev one_string : List ℕ → List ℕ → ℕ → ℕ → List ℕ
one_string memory e slot buf =
    overwrite (overwrite (write_value 4 memory slot buf) buf e) (buf + length e) (0 ∷ [])

length-one_string :
    (memory e : List ℕ) (slot buf : ℕ) → length (one_string memory e slot buf) ≡ length memory
length-one_string memory e slot buf =
    length-overwrite (overwrite (write_value 4 memory slot buf) buf e) (buf + length e) (0 ∷ [])
    ∙ length-overwrite (write_value 4 memory slot buf) buf e
    ∙ length-write_value 4 memory slot buf

take_all : (xs : List ℕ) → take (length xs) xs ≡ xs
take_all [] = refl
take_all (x ∷ xs) = ap (λ l. x ∷ l) (take_all xs)

module _ {S : Type 0} (e : List ℕ) (es : List (List ℕ)) (slot buf : ℕ) (v : View S)
    (room : slot + 4 ≤ buf) (fits : buf + (length e + 1) ≤ length v.memory)
    (addressable : buf + (length e + 1) < 2 ^ 32) where
  -- the first round of the loop, with the wrapped sums written as they are
  round : ℕ → ℕ → ℕ → ℕ → Answer S
  round size zero_at slot' buf' = store_u32 slot buf v λ v₁.
      store_bytes buf (take size e) v₁
        λ v₂. store_bytes zero_at (0 ∷ []) v₂ λ v₃. strings_get es slot' buf' v₃

  small : (n : ℕ) → n < 2 ^ 32 → n % 2 ^ 32 ≡ n
  small n h = mod-eq_of_lt h

  strings_get-first :
      strings_get (e ∷ es) slot buf v
      ≡ strings_get es
          (slot + 4)
          (buf + (length e + 1))
          (record v { memory = one_string v.memory e slot buf })
  unfolding strings_get round
  strings_get-first =
      ap (λ n. round n ((buf + n) % 2 ^ 32) ((slot + 4) % 2 ^ 32) ((buf + (n + 1)) % 2 ^ 32))
        (small (length e) (omega (arith, addressable)))
      ∙ ap (λ n. round (length e) n ((slot + 4) % 2 ^ 32) ((buf + (length e + 1)) % 2 ^ 32))
          (small (buf + length e) (omega (arith, addressable)))
      ∙ ap (λ n. round (length e) (buf + length e) n ((buf + (length e + 1)) % 2 ^ 32))
          (small (slot + 4) (omega (arith, addressable, room)))
      ∙ ap (λ n. round (length e) (buf + length e) (slot + 4) n)
          (small (buf + (length e + 1)) addressable)
      ∙ store_u32-fits slot buf v _ (omega (arith, room, fits))
      ∙ ap
          (λ (bs : List ℕ).
            store_bytes buf bs (record v { memory = write_value 4 v.memory slot buf })
              λ v₂.
                store_bytes (buf + length e) (0 ∷ []) v₂
                  λ v₃. strings_get es (slot + 4) (buf + (length e + 1)) v₃)
          (take_all e)
      ∙ store_bytes-fits buf e _ _ (omega (arith, fits, length-write_value 4 v.memory slot buf))
          (omega (arith, fits, length-write_value 4 v.memory slot buf))
      ∙ store_bytes-fits (buf + length e) (0 ∷ []) _ _
          (omega (
            arith,
            fits,
            length-write_value 4 v.memory slot buf,
            length-overwrite (write_value 4 v.memory slot buf) buf e,
          ))
          (omega (
            arith,
            fits,
            length-write_value 4 v.memory slot buf,
            length-overwrite (write_value 4 v.memory slot buf) buf e,
          ))

  -- what the round writes, and what it leaves
  first-outside :
      (j : ℕ)
      → (j < slot) ⊎ ((slot + 4 ≤ j) × (j < buf))
      → get_elem? (one_string v.memory e slot buf) j ≡ get_elem? v.memory j
  first-outside j h =
      get_elem?-overwrite_outside _ (buf + length e) (0 ∷ []) j (inl (below h))
      ∙ get_elem?-overwrite_outside _ buf e j (inl (under h))
      ∙ write_value-outside 4 v.memory slot buf j (apart h)
    where
      under : (j < slot) ⊎ ((slot + 4 ≤ j) × (j < buf)) → j < buf
      under (inl h) = omega (arith, h, room)
      under (inr h) = h.1

      below : (j < slot) ⊎ ((slot + 4 ≤ j) × (j < buf)) → j < buf + length e
      below h = omega (arith, under h)

      apart : (j < slot) ⊎ ((slot + 4 ≤ j) × (j < buf)) → (j < slot) ⊎ (slot + 4 ≤ j)
      apart (inl h) = inl h
      apart (inr h) = inr h.0

  first-pointer : read_value 4 (one_string v.memory e slot buf) slot ≡ buf
  first-pointer =
      read_value-same 4 _ (write_value 4 v.memory slot buf) slot (λ j le lt.
        get_elem?-overwrite_outside _ (buf + length e) (0 ∷ []) j (inl (omega arith))
        ∙ get_elem?-overwrite_outside _ buf e j (inl (omega arith)))
      ∙ read_value-write_value 4 v.memory slot buf (omega arith)
      ∙ small buf (omega (arith, addressable))

  first-bytes :
      (i : ℕ) → i < length e → get_elem? (one_string v.memory e slot buf) (buf + i) ≡ get_elem? e i
  first-bytes i h =
      get_elem?-overwrite_outside _ (buf + length e) (0 ∷ []) (buf + i) (inl (omega arith))
      ∙ get_elem?-overwrite_inside (write_value 4 v.memory slot buf) buf e i (buf + i)
          (omega (arith, fits, length-write_value 4 v.memory slot buf)) h refl

  first-zero : get_elem? (one_string v.memory e slot buf) (buf + length e) ≡ some 0
  first-zero =
      get_elem?-overwrite_inside _ (buf + length e) (0 ∷ []) 0 (buf + length e)
        (omega (
          arith,
          fits,
          length-write_value 4 v.memory slot buf,
          length-overwrite (write_value 4 v.memory slot buf) buf e,
        ))
        (omega arith) (omega arith)

-- The answer is a success with the strings laid out, and all other bytes are as they were.
record Filled {S : Type 0} (entries : List (List ℕ)) (slot buf : ℕ) (v : View S) (a : Answer S)
    : Type 0 where
  succeeds : a.0 ≡ errno_success
  laid_out : LaidOut a.1.memory entries slot buf
  frame :
      (j : ℕ)
      → (j < slot) ⊎ ((slot + 4 * length entries ≤ j) × (j < buf))
      → get_elem? a.1.memory j ≡ get_elem? v.memory j

strings_get-Filled :
    {S : Type 0} (entries : List (List ℕ)) (slot buf : ℕ) (v : View S)
    → slot + 4 * length entries ≤ buf
    → buf + block_size entries ≤ length v.memory
    → buf + block_size entries < 2 ^ 32
    → Filled entries slot buf v (strings_get entries slot buf v)
unfolding strings_get
strings_get-Filled [] slot buf v room fits addressable = record {
  succeeds = refl;
  laid_out = tt;
  frame = λ j h. refl;
}
strings_get-Filled (e ∷ es) slot buf v room fits addressable =
    subst (Filled (e ∷ es) slot buf v)
      (sym (strings_get-first e es slot buf v (omega arith) (omega arith) (omega arith)))
      (extended (
        strings_get-Filled es (slot + 4) (buf + (length e + 1))
          (record v { memory = one_string v.memory e slot buf }) (omega arith)
          (omega (arith, fits, length-one_string v.memory e slot buf)) (omega arith)))
  where
    extended :
        {a : Answer _}
        → Filled es
            (slot + 4)
            (buf + (length e + 1))
            (record v { memory = one_string v.memory e slot buf })
            a
        → Filled (e ∷ es) slot buf v a
    extended {a} h = record {
      succeeds = h.succeeds;
      laid_out = (
        read_value-same 4 a.1.memory (one_string v.memory e slot buf) slot
              (λ j le lt. h.frame j (inl (omega arith)))
            ∙ first-pointer e es slot buf v (omega arith) (omega arith) (omega arith),
        (
          λ i lt.
              h.frame (buf + i) (inr (omega arith, omega arith))
              ∙ first-bytes e es slot buf v (omega arith) (omega arith) (omega arith) i lt,
          (
            h.frame (buf + length e) (inr (omega arith, omega arith))
                ∙ first-zero e es slot buf v (omega arith) (omega arith) (omega arith),
            h.laid_out,
          ),
        ),
      );
      frame = λ j outside.
          h.frame j (later outside)
          ∙ first-outside e es slot buf v (omega arith) (omega arith) (omega arith) j (now outside);
    }
      where
        later :
            {j : ℕ}
            → (j < slot) ⊎ ((slot + 4 * suc (length es) ≤ j) × (j < buf))
            → (j < slot + 4) ⊎ ((slot + 4 + 4 * length es ≤ j) × (j < buf + (length e + 1)))
        later (inl h) = inl (omega arith)
        later (inr (h, k)) = inr (omega arith, omega arith)

        now :
            {j : ℕ}
            → (j < slot) ⊎ ((slot + 4 * suc (length es) ≤ j) × (j < buf))
            → (j < slot) ⊎ ((slot + 4 ≤ j) × (j < buf))
        now (inl h) = inl h
        now (inr (h, k)) = inr (omega arith, k)

total_size-block_size :
    (entries : List (List ℕ)) (total : ℕ)
    → total + block_size entries < 2 ^ 32
    → total_size entries total ≡ some (total + block_size entries)
unfolding total_size
total_size-block_size [] total h = ap some (omega arith)
total_size-block_size (e ∷ es) total h = rw (short (length e) (omega (arith, h))) (
    ap (total_size es) (mod-eq_of_lt (omega (arith, h)))
    ∙ total_size-block_size es (total + (length e + 1)) (omega (arith, h))
    ∙ ap some (omega arith))
  where
    short : (n : ℕ) → n + 1 < 2 ^ 32 → leb (2 ^ 32 - 1) n ≡ false
    short n h = ground arith

-- The size that args_sizes_get computes is enough for args_get, and likewise for the environment:
-- with that many bytes behind the pointers, all within the memory and below 2^32, the strings are
-- laid out there, each with a zero behind it and its pointer in its place, and every byte before the
-- pointers, or between them and the strings, is as it was.
pub strings_get-LaidOut :
    {S : Type 0} (entries : List (List ℕ)) (slot buf total : ℕ) (v : View S)
    → block_size entries < 2 ^ 32
    → total_size entries 0 ≡ some total
    → slot + 4 * length entries ≤ buf
    → buf + total ≤ length v.memory
    → buf + total < 2 ^ 32
    → ((strings_get entries slot buf v).0 ≡ errno_success)
      × (LaidOut (strings_get entries slot buf v).1.memory entries slot buf
          × ((j : ℕ)
              → (j < slot) ⊎ ((slot + 4 * length entries ≤ j) × (j < buf))
              → get_elem? (strings_get entries slot buf v).1.memory j ≡ get_elem? v.memory j))
strings_get-LaidOut entries slot buf total v countable sized room fits addressable =
    let exact : total ≡ block_size entries =
      some-inj (sym sized ∙ total_size-block_size entries 0 (omega (arith, countable)))
      ∙ omega arith in
    let h =
      strings_get-Filled entries slot buf v room (omega (arith, fits, exact))
        (omega (arith, addressable, exact)) in
    (h.succeeds, (h.laid_out, h.frame))
  where
    some-inj : {a b : ℕ} → some a ≡ some b → a ≡ b
    some-inj {a} e = ap (λ o. elim o [ none ↦ a | some x ↦ x ]) e
