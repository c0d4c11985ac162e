-- ===== src/Memory/Overwrite.antt =====
-- Runs of bytes written at once, and numbers read from places that a write leaves alone.
use web_assembly_interpreter.Base.{
  List, [], arith, get_elem?, get_or, inl, inr, length, overwrite, refl, suc, zero, ℕ, ◌+◌, ◌<◌,
  ◌∷◌, ◌≡◌, ◌≤◌, ◌⊎◌,
}
use web_assembly_interpreter.Memory.{read_value}
use web_assembly_interpreter.Memory.Access.{get_or_same}

module _ {A : Type 0} where
  -- What a run that fits holds afterwards, and what the rest holds.
  pub get_elem?-overwrite_inside :
      (xs : List A) (at : ℕ) (src : List A) (i j : ℕ)
      → at + length src ≤ length xs
      → i < length src
      → j ≡ at + i
      → get_elem? (overwrite xs at src) j ≡ get_elem? src i
  get_elem?-overwrite_inside xs at [] i j fits h e = absurd (omega arith)
  get_elem?-overwrite_inside [] at (s ∷ src) i j fits h e = absurd (omega arith)
  get_elem?-overwrite_inside (x ∷ xs) zero (s ∷ src) zero zero fits h e = refl
  get_elem?-overwrite_inside (x ∷ xs) zero (s ∷ src) zero (suc j) fits h e = absurd (omega arith)
  get_elem?-overwrite_inside (x ∷ xs) zero (s ∷ src) (suc i) zero fits h e = absurd (omega arith)
  get_elem?-overwrite_inside (x ∷ xs) zero (s ∷ src) (suc i) (suc j) fits h e =
      get_elem?-overwrite_inside xs zero src i j (omega arith) (omega arith) (omega arith)
  get_elem?-overwrite_inside (x ∷ xs) (suc at) (s ∷ src) i zero fits h e = absurd (omega arith)
  get_elem?-overwrite_inside (x ∷ xs) (suc at) (s ∷ src) i (suc j) fits h e =
      get_elem?-overwrite_inside xs at (s ∷ src) i j (omega arith) h (omega arith)

  pub get_elem?-overwrite_outside :
      (xs : List A) (at : ℕ) (src : List A) (j : ℕ)
      → (j < at) ⊎ (at + length src ≤ j)
      → get_elem? (overwrite xs at src) j ≡ get_elem? xs j
  get_elem?-overwrite_outside xs at [] j h = refl
  get_elem?-overwrite_outside [] at (s ∷ src) j h = refl
  get_elem?-overwrite_outside (x ∷ xs) zero (s ∷ src) zero (inl h) = absurd (omega arith)
  get_elem?-overwrite_outside (x ∷ xs) zero (s ∷ src) zero (inr h) = absurd (omega arith)
  get_elem?-overwrite_outside (x ∷ xs) zero (s ∷ src) (suc j) (inl h) = absurd (omega arith)
  get_elem?-overwrite_outside (x ∷ xs) zero (s ∷ src) (suc j) (inr h) =
      get_elem?-overwrite_outside xs zero src j (inr (omega arith))
  get_elem?-overwrite_outside (x ∷ xs) (suc at) (s ∷ src) zero h = refl
  get_elem?-overwrite_outside (x ∷ xs) (suc at) (s ∷ src) (suc j) (inl h) =
      get_elem?-overwrite_outside xs at (s ∷ src) j (inl (omega arith))
  get_elem?-overwrite_outside (x ∷ xs) (suc at) (s ∷ src) (suc j) (inr h) =
      get_elem?-overwrite_outside xs at (s ∷ src) j (inr (omega arith))

-- A number is read alike where its bytes are alike.
pub read_value-same :
    (n : ℕ) (bs cs : List ℕ) (a : ℕ)
    → ((j : ℕ) → a ≤ j → j < a + n → get_elem? bs j ≡ get_elem? cs j)
    → read_value n bs a ≡ read_value n cs a
unfolding read_value
read_value-same zero bs cs a h = refl
read_value-same (suc n) bs cs a h =
    let first : get_or bs a 0 ≡ get_or cs a 0 =
      get_or_same bs cs a (h a (omega arith) (omega arith)) in
    let others : read_value n bs (suc a) ≡ read_value n cs (suc a) =
      read_value-same n bs cs (suc a) (λ j le lt. h j (omega arith) (omega arith)) in
    rw first (rw others refl)
