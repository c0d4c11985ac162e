-- ===== src/Embed/Keys.antt =====
-- The host's maps: what is found under a key after a registration.
use web_assembly_interpreter.Base.{
  Bool, Bool-cases, List, [], ap, arith, false, if◌then◌else◌, inl, inr, refl, some, sym, true, ℕ,
  ◌&&◌, ◌==◌, ◌∙◌, ◌∷◌, ◌≡◌, ◌≢◌,
}
use web_assembly_interpreter.Embed.Registry.{
  Registry, assign_key, find_key, make_host_key, register_host_function, same_bytes,
}
use web_assembly_interpreter.Module.{FunctionType}

same_bytes_refl : (k : List ℕ) → same_bytes k k ≡ true
unfolding same_bytes
same_bytes_refl [] = refl
same_bytes_refl (b ∷ bs) = ground (arith, same_bytes_refl bs)

same_bytes_sound : (j k : List ℕ) → same_bytes j k ≡ true → j ≡ k
unfolding same_bytes
same_bytes_sound [] [] h = refl
same_bytes_sound [] (b ∷ bs) h = cc
same_bytes_sound (a ∷ as') [] h = cc
same_bytes_sound (a ∷ as') (b ∷ bs) h = ground (arith, same_bytes_sound as' bs)

apart : (j k i : List ℕ) → same_bytes k i ≡ false → same_bytes j i ≡ true → same_bytes j k ≡ false
apart j k i ne here = elim (Bool-cases (same_bytes j k)) [
  | inl there ↦
      let both : k ≡ i = sym (same_bytes_sound j k there) ∙ same_bytes_sound j i here in
      absurd (true_is_false (sym (same_bytes_refl k) ∙ ap (same_bytes k) both ∙ ne))
  | inr differ ↦ differ
]
  where
    true_is_false : true ≡ false → ⊥
    true_is_false e = cc

module _ {A : Type 0} where
  pick : (c : Bool) (x y z : A) → (if c then x else y) ≡ (if c then x else (if c then z else y))
  pick true x y z = refl
  pick false x y z = refl

  exchange :
      (c d : Bool) (x y z : A)
      → (c ≡ true → d ≡ false)
      → (if c then z else (if d then x else y)) ≡ (if d then x else (if c then z else y))
  exchange true d x y z h = rw (h refl) refl
  exchange false d x y z h = refl

module _ {A : Type 0} where
  -- An assignment under `k`, seen under any key `j`.
  find_key-assign_key :
      (j k : List ℕ) (a : A) (entries : List (List ℕ × A))
      → find_key j (assign_key k a entries)
        ≡ (if same_bytes j k then some a else find_key j entries)
  unfolding find_key assign_key
  find_key-assign_key j k a [] = refl
  find_key-assign_key j k a ((i, b) ∷ entries) = elim (Bool-cases (same_bytes k i)) [
    | inl old ↦ rw (old, same_bytes_sound k i old) (pick (same_bytes j i) _ _ _)
    | inr other ↦
        rw (other, find_key-assign_key j k a entries)
          (exchange (same_bytes j i) (same_bytes j k) _ _ _ (apart j k i other))
  ]

-- A name without a NUL byte.
abbrev pub IsNulFree : List ℕ → Type 0
IsNulFree [] = Unit
IsNulFree (b ∷ bs) = (b ≢ 0) × IsNulFree bs

and_assoc : (a b c : Bool) → (a && (b && c)) ≡ ((a && b) && c)
and_assoc true b c = refl
and_assoc false b c = refl

-- Two keys are the same where both names are.
same_bytes-make_host_key :
    (j m a b : List ℕ)
    → IsNulFree j
    → IsNulFree m
    → same_bytes (make_host_key j a) (make_host_key m b) ≡ (same_bytes j m && same_bytes a b)
unfolding make_host_key same_bytes
same_bytes-make_host_key [] [] a b h k = refl
same_bytes-make_host_key [] (d ∷ m) a b h (ne, k) = rw (no_nul d ne) refl
  where
    no_nul : (d : ℕ) → d ≢ 0 → (0 == d) ≡ false
    no_nul d ne = ground arith
same_bytes-make_host_key (c ∷ j) [] a b (ne, h) k = rw (no_nul c ne) refl
  where
    no_nul : (c : ℕ) → c ≢ 0 → (c == 0) ≡ false
    no_nul c ne = ground arith
same_bytes-make_host_key (c ∷ j) (d ∷ m) a b (ne, h) (ne', k) =
    rw (same_bytes-make_host_key j m a b h k) (and_assoc (c == d) (same_bytes j m) (same_bytes a b))

-- A host function that is registered under names, the first with no NUL byte, is found under these
-- names with its signature and callback, in place of an earlier one, and under any other module and
-- field name, the module's with no NUL byte, what was found before is found again.
pub find_key-register_host_function :
    (module_name name module_sought name_sought : List ℕ) (signature : FunctionType) (callback : ℕ)
    (r : Registry)
    → IsNulFree module_name
    → IsNulFree module_sought
    → find_key
        (make_host_key module_sought name_sought)
        (register_host_function module_name name signature callback r).host_functions
      ≡ (if same_bytes module_sought module_name && same_bytes name_sought name
          then some (record { signature = signature; callback = callback })
          else find_key (make_host_key module_sought name_sought) r.host_functions)
unfolding register_host_function
find_key-register_host_function m n m' n' signature callback r free free' =
    find_key-assign_key (make_host_key m' n') (make_host_key m n) _ r.host_functions
    ∙ ap
        (λ (b : Bool).
          if b
          then some (record { signature = signature; callback = callback })
          else find_key (make_host_key m' n') r.host_functions)
        (same_bytes-make_host_key m' m n' n free' free)
