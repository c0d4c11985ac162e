-- ===== src/Base/Related.antt =====
-- Two lists of the same length, related element by element.
use Prim.Native.Nat.{ℕ, zero, suc}
use mathlib.Core.Path.{◌≡◌}
use mathlib.Core.List.{List, [], ◌∷◌}
use mathlib.Core.Option.{some, some-injective}
use web_assembly_interpreter.Base.Lists.{get_elem?, set}

module _ {A : Type 0} (R : A → A → Type 0) where
  abbrev pub Pointwise : List A → List A → Type 0
  Pointwise [] [] = Unit
  Pointwise [] (y ∷ ys) = ⊥
  Pointwise (x ∷ xs) [] = ⊥
  Pointwise (x ∷ xs) (y ∷ ys) = R x y × Pointwise xs ys

  pub Pointwise-refl : ((x : A) → R x x) → (xs : List A) → Pointwise xs xs
  Pointwise-refl r [] = tt
  Pointwise-refl r (x ∷ xs) = (r x, Pointwise-refl r xs)

  pub Pointwise-trans :
      ((x y z : A) → R x y → R y z → R x z)
      → (xs ys zs : List A) → Pointwise xs ys
      → Pointwise ys zs
      → Pointwise xs zs
  Pointwise-trans t [] [] [] h k = tt
  Pointwise-trans t [] [] (z ∷ zs) h k = absurd k
  Pointwise-trans t [] (y ∷ ys) zs h k = absurd h
  Pointwise-trans t (x ∷ xs) [] zs h k = absurd h
  Pointwise-trans t (x ∷ xs) (y ∷ ys) [] h k = absurd k
  Pointwise-trans t (x ∷ xs) (y ∷ ys) (z ∷ zs) h k =
      (t x y z h.0 k.0, Pointwise-trans t xs ys zs h.1 k.1)

  -- A write at `i` keeps the lists related, if the new element is related to the one there.
  pub Pointwise-set :
      ((x : A) → R x x)
      → (xs : List A) (i : ℕ) (x y : A) → get_elem? xs i ≡ some x
      → R x y
      → Pointwise xs (set xs i y)
  Pointwise-set r [] i x y e h = tt
  Pointwise-set r (z ∷ xs) zero x y e h = (same z x e h, Pointwise-refl r xs)
    where
      same : (z x : A) → some z ≡ some x → R x y → R z y
      same z x e h = let q : z ≡ x = some-injective z x e in rw q h
  Pointwise-set r (z ∷ xs) (suc i) x y e h = (r z, Pointwise-set r xs i x y e h)
