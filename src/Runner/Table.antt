-- ===== src/Runner/Table.antt =====
-- The table of open files, as an invariant.
use web_assembly_interpreter.Base.{
  Bool-cases, List, [], ap, arith, false, if◌then◌else◌, inl, inr, none, refl, some, sym, true, ℕ,
  ◌++◌, ◌+◌, ◌<◌, ◌==◌, ◌∷◌, ◌≡◌, ◌≢◌, ◌≤◌, ◌⊎◌,
}
use web_assembly_interpreter.Runner.World.{FileHandle, erase_file, find_file, put_file}
use mathlib.Core.Path.{subst}

-- Every descriptor is from 4 on and below `next`, has a stream, and stands once.
abbrev pub IsTable : ℕ → List (ℕ × FileHandle) → Type 0
IsTable next [] = Unit
IsTable next ((k, h) ∷ files) =
    (4 ≤ k) × ((k < next) × ((h.file ≢ none) × ((find_file k files ≡ none) × IsTable next files)))

pub IsTable-mono :
    (next more : ℕ) (files : List (ℕ × FileHandle))
    → next ≤ more
    → IsTable next files
    → IsTable more files
IsTable-mono next more [] le h = tt
IsTable-mono next more ((k, g) ∷ files) le (low, (high, (file, (once, rest)))) =
    (low, (omega (arith, high, le), (file, (once, IsTable-mono next more files le rest))))

-- The next descriptor is in no entry.
pub next-fresh :
    (next fd : ℕ) (files : List (ℕ × FileHandle))
    → next ≤ fd
    → IsTable next files
    → find_file fd files ≡ none
unfolding find_file
next-fresh next fd [] le h = refl
next-fresh next fd ((k, g) ∷ files) le (low, (high, (file, (once, rest)))) =
    rw (ne→== fd k (omega (arith, high, le))) (next-fresh next fd files le rest)
  where
    ne→== : (a b : ℕ) → b < a → (a == b) ≡ false
    ne→== a b h = ground arith

-- A new entry at the end.
pub put_file-new :
    (fd : ℕ) (h : FileHandle) (files : List (ℕ × FileHandle))
    → find_file fd files ≡ none
    → put_file fd h files ≡ files ++ (fd, h) ∷ []
unfolding find_file put_file
put_file-new fd h [] new = refl
put_file-new fd h ((k, g) ∷ files) new = elim (Bool-cases (fd == k)) [
  | inl same ↦
      absurd
        (some_ne_none (subst (λ b. (if b then some g else find_file fd files) ≡ none) same new))
  | inr other ↦ rw other (
      ap (λ l. (k, g) ∷ l)
        (put_file-new fd h files
          (subst (λ b. (if b then some g else find_file fd files) ≡ none) other new)))
]
  where
    some_ne_none : {g : FileHandle} → some g ≢ none
    some_ne_none e = cc

find_file-append :
    (k fd : ℕ) (h : FileHandle) (files : List (ℕ × FileHandle))
    → find_file k files ≡ none
    → (k == fd) ≡ false
    → find_file k (files ++ (fd, h) ∷ []) ≡ none
unfolding find_file
find_file-append k fd h [] absent ne = rw ne refl
find_file-append k fd h ((j, g) ∷ files) absent ne = elim (Bool-cases (k == j)) [
  | inl same ↦ cc
  | inr other ↦ rw other (
      find_file-append k fd h files
        (subst (λ b. (if b then some g else find_file k files) ≡ none) other absent) ne)
]

IsTable-append :
    (next : ℕ) (h : FileHandle) (files : List (ℕ × FileHandle))
    → 4 ≤ next
    → h.file ≢ none
    → IsTable next files
    → IsTable (next + 1) (files ++ (next, h) ∷ [])
unfolding find_file
IsTable-append next h [] low file t = (low, (omega arith, (file, (refl, tt))))
IsTable-append next h ((k, g) ∷ files) low file (low', (high, (file', (once, rest)))) = (
  low',
  (
    omega (arith, high),
    (
      file',
      (
        find_file-append k next h files once (lt→ne k next high),
        IsTable-append next h files low file rest,
      ),
    ),
  ),
)
  where
    lt→ne : (a b : ℕ) → a < b → (a == b) ≡ false
    lt→ne a b h = ground arith

pub put_file-IsTable :
    (next : ℕ) (h : FileHandle) (files : List (ℕ × FileHandle))
    → 4 ≤ next
    → h.file ≢ none
    → IsTable next files
    → IsTable (next + 1) (put_file next h files)
put_file-IsTable next h files low file t =
    subst (IsTable (next + 1))
      (sym (put_file-new next h files (next-fresh next next files (omega arith) t)))
      (IsTable-append next h files low file t)

find_file-erase :
    (k fd : ℕ) (files : List (ℕ × FileHandle))
    → find_file k files ≡ none
    → find_file k (erase_file fd files) ≡ none
unfolding find_file erase_file
find_file-erase k fd [] absent = refl
find_file-erase k fd ((j, g) ∷ files) absent = elim (Bool-cases (k == j)) [
  | inl same ↦
      absurd (clash (subst (λ b. (if b then some g else find_file k files) ≡ none) same absent))
  | inr other ↦
      let rest : find_file k files ≡ none =
        subst (λ b. (if b then some g else find_file k files) ≡ none) other absent in
      elim (Bool-cases (fd == j)) [
        | inl gone ↦ rw gone rest
        | inr kept ↦ rw kept (rw other (find_file-erase k fd files rest))
      ]
]
  where
    clash : {g : FileHandle} → some g ≢ none
    clash e = cc

pub erase_file-IsTable :
    (next fd : ℕ) (files : List (ℕ × FileHandle))
    → IsTable next files
    → IsTable next (erase_file fd files)
unfolding erase_file
erase_file-IsTable next fd [] t = tt
erase_file-IsTable next fd ((k, g) ∷ files) (low, (high, (file, (once, rest)))) =
    elim (Bool-cases (fd == k)) [
      | inl gone ↦ rw gone rest
      | inr kept ↦ rw kept (
        low,
        (high, (file, (find_file-erase k fd files once, erase_file-IsTable next fd files rest))),
      )
    ]

-- An entry is found under its descriptor, and the others as before.
pub find_file-put_file :
    (k fd : ℕ) (h : FileHandle) (files : List (ℕ × FileHandle))
    → find_file k (put_file fd h files) ≡ (if k == fd then some h else find_file k files)
unfolding find_file put_file
find_file-put_file k fd h [] = refl
find_file-put_file k fd h ((j, g) ∷ files) = elim (Bool-cases (fd == j)) [
  | inl same ↦ elim (Bool-cases (k == fd)) [
    | inl found ↦ rw same (rw (through k fd j found same) (rw found refl))
    | inr other ↦ rw same (rw (apart k fd j other same) (rw other refl))
  ]
  | inr differs ↦
      rw differs (by_head differs (find_file-put_file k fd h files) (Bool-cases (k == j)))
]
  where
    through : (a b c : ℕ) → (a == b) ≡ true → (b == c) ≡ true → (a == c) ≡ true
    through a b c h k = ground arith

    apart : (a b c : ℕ) → (a == b) ≡ false → (b == c) ≡ true → (a == c) ≡ false
    apart a b c h k = ground arith

    elsewhere : (a b c : ℕ) → (b == c) ≡ false → (a == c) ≡ true → (a == b) ≡ false
    elsewhere a b c h k = ground arith

    by_head :
        (fd == j) ≡ false
        → find_file k (put_file fd h files) ≡ (if k == fd then some h else find_file k files)
        → ((k == j) ≡ true) ⊎ ((k == j) ≡ false)
        → (if k == j then some g else find_file k (put_file fd h files))
          ≡ (if k == fd then some h else if k == j then some g else find_file k files)
    by_head d e (inl found) = rw found (rw (elsewhere k fd j d found) refl)
    by_head d e (inr other) = rw other e

-- A new entry can be taken out again.
pub erase_file-put_file :
    (fd : ℕ) (h : FileHandle) (files : List (ℕ × FileHandle))
    → find_file fd files ≡ none
    → erase_file fd (put_file fd h files) ≡ files
unfolding find_file put_file erase_file
erase_file-put_file fd h [] absent = rw (self fd) refl
  where
    self : (n : ℕ) → (n == n) ≡ true
    self n = ground arith
erase_file-put_file fd h ((j, g) ∷ files) absent = elim (Bool-cases (fd == j)) [
  | inl same ↦ cc
  | inr other ↦
      let rest : find_file fd files ≡ none =
        subst (λ b. (if b then some g else find_file fd files) ≡ none) other absent in
      rw other (rw other (ap (λ l. (j, g) ∷ l) (erase_file-put_file fd h files rest)))
]
