-- ===== src/Runner/Opening.antt =====
-- What `path_open` does to the memory and to the table of open files.
use web_assembly_interpreter.Base.{
  Bool, List, Option, ap, arith, bit_and, false, get_elem?, if◌then◌else◌, inl, inr, length, none,
  not, refl, some, true, ℕ, ◌+◌, ◌<◌, ◌==◌, ◌^◌, ◌∙◌, ◌≡◌, ◌≢◌, ◌≤◌, ◌⊎◌,
}
use web_assembly_interpreter.Embed.Wasi.{errno_badf, errno_fault, errno_success}
use web_assembly_interpreter.Memory.{read_value}
use web_assembly_interpreter.Memory.Access.{read_value-write_value, write_value-outside}
use web_assembly_interpreter.Runner.Accessor.{available, data_at, store_u32}
use web_assembly_interpreter.Runner.Descriptors.{right_fd_read}
use web_assembly_interpreter.Runner.Kept.{IsSound}
use web_assembly_interpreter.Runner.Paths.{
  install, open_bytes, open_canonical, open_relative, path_open, starts_with, strip_separators,
}
use web_assembly_interpreter.Runner.Table.{erase_file-put_file, find_file-put_file, next-fresh}
use web_assembly_interpreter.Runner.World.{
  Answer, FileHandle, HostErrno, Opened, Resolved, Setting, System, View, answer, eacces, eisdir,
  enoent, enotdir, errno_from_host, errno_isdir, errno_notcapable, find_file, no_error, not_opened,
  not_resolved, opened, other_errno, preopen_fd, resolved, set_system,
}
use native.Mathlib.Nat.{mod-eq_of_lt}

-- the handle of an opened stream
abbrev pub open_handle : ℕ → FileHandle
open_handle file = record { file = some file; readable = true; seekable = true }

-- Success, with the stream under the next descriptor, which stands in the memory at `p`.
pub record IsOpened {S : Type 0} (v : View S) (p : ℕ) (a : Answer S) : Type 0 where
  pub succeeds : a.0 ≡ errno_success
  pub stored : read_value 4 a.1.memory p ≡ v.host.next_fd
  pub frame : (j : ℕ) → (j < p) ⊎ (p + 4 ≤ j) → get_elem? a.1.memory j ≡ get_elem? v.memory j
  pub file : ℕ
  pub table :
      (k : ℕ)
      → find_file k a.1.host.files
        ≡ (if k == v.host.next_fd then some (open_handle file) else find_file k v.host.files)
  pub later : a.1.host.next_fd ≡ v.host.next_fd + 1

-- The system reports that a path does not open, or does not resolve, with no error to tell.
abbrev pub FailsSilently : {S : Type 0} → System S → Type 0
FailsSilently {S} os =
    (place : List ℕ) × ((s : S) × (((os.fopen place s).0 ≡ not_opened no_error)
        ⊎ ((os.weakly_canonical place s).0 ≡ not_resolved no_error)))

pub record IsRefused {S : Type 0} (os : System S) (v : View S) (a : Answer S) : Type 0 where
  pub fails : (a.0 ≢ errno_success) ⊎ FailsSilently os
  pub memory : a.1.memory ≡ v.memory
  pub table : a.1.host.files ≡ v.host.files

abbrev Atomic : {S : Type 0} → System S → View S → ℕ → Answer S → Type 0
Atomic os v p a = IsOpened v p a ⊎ IsRefused os v a

available-within : (bs : List ℕ) (o : ℕ) → available bs o 4 ≡ true → o + 4 ≤ length bs
unfolding available
available-within bs o h = ground arith

module _ {S : Type 0} (os : System S) (setting : Setting) where
  install-cases :
      (b : Bool) (file p : ℕ) (v : View S)
      → available v.memory p 4 ≡ b
      → find_file v.host.next_fd v.host.files ≡ none
      → v.host.next_fd < 2 ^ 32
      → Atomic os v p (install os setting file p v)
  unfolding install store_u32
  install-cases false file p v e absent small = rw e (
      inr (record {
        fails = inl (λ h. absurd (omega (arith, h)));
        memory = refl;
        table = erase_file-put_file v.host.next_fd (open_handle file) v.host.files absent;
      }))
  install-cases true file p v e absent small = rw e (
      inl (record {
        succeeds = refl;
        stored =
            read_value-write_value 4 v.memory p v.host.next_fd (available-within v.memory p e)
            ∙ mod-eq_of_lt small;
        frame = write_value-outside 4 v.memory p v.host.next_fd;
        file = file;
        table = λ k. find_file-put_file k v.host.next_fd (open_handle file) v.host.files;
        later = refl;
      }))

  refused :
      (u v : View S) (p e : ℕ)
      → (e ≢ errno_success) ⊎ FailsSilently os
      → v.memory ≡ u.memory
      → v.host.files ≡ u.host.files
      → Atomic os u p (answer e v)
  refused u v p e fails memory table =
      inr (record { fails = fails; memory = memory; table = table })

  either :
      {u : View S} {p : ℕ} (b : Bool) {x y : Answer S}
      → Atomic os u p x
      → Atomic os u p y
      → Atomic os u p (if b then x else y)
  either true h k = h
  either false h k = k

  -- the errors other than `no_error` have a number that is no success
  host_errno-fails :
      (e : HostErrno)
      → (e ≡ no_error → FailsSilently os)
      → (errno_from_host e ≢ errno_success) ⊎ FailsSilently os
  unfolding errno_from_host
  host_errno-fails no_error h = inr (h refl)
  host_errno-fails eacces h = inl (λ k. absurd (omega (arith, k)))
  host_errno-fails eisdir h = inl (λ k. absurd (omega (arith, k)))
  host_errno-fails enoent h = inl (λ k. absurd (omega (arith, k)))
  host_errno-fails enotdir h = inl (λ k. absurd (omega (arith, k)))
  host_errno-fails other_errno h = inl (λ k. absurd (omega (arith, k)))

  module _ (v : View S) (p : ℕ) (absent : find_file v.host.next_fd v.host.files ≡ none)
      (small : v.host.next_fd < 2 ^ 32) where
    canonical-cases :
        (place : List ℕ) (s₁ : S) (outcome : Opened) (s₂ : S)
        → (os.fopen place s₁).0 ≡ outcome
        → Atomic os v p (elim outcome [
          | opened file ↦ install os setting file p (set_system v s₂)
          | not_opened e ↦ answer (errno_from_host e) (set_system v s₂)
        ])
    canonical-cases place s₁ (opened file) s₂ e =
        again (install-cases _ file p (set_system v s₂) refl absent small)
      where
        again : {a : Answer S} → Atomic os (set_system v s₂) p a → Atomic os v p a
        again (inl h) = inl (record {
          succeeds = h.succeeds;
          stored = h.stored;
          frame = h.frame;
          file = h.file;
          table = h.table;
          later = h.later;
        })
        again (inr h) = inr (record { fails = h.fails; memory = h.memory; table = h.table })
    canonical-cases place s₁ (not_opened n) s₂ e =
        refused v _ p _ (host_errno-fails n (λ h. (place, (s₁, inl (e ∙ ap not_opened h))))) refl
          refl

    resolved-cases :
        (place : List ℕ) (s₁ : S) (outcome : Resolved) (s₂ : S)
        → (os.weakly_canonical place s₁).0 ≡ outcome
        → Atomic os v p (elim outcome [
          | not_resolved e ↦ answer (errno_from_host e) (set_system v s₂)
          | resolved canonical ↦
              if starts_with setting.preopen_host_path_string canonical
              then open_canonical os setting canonical p (set_system v s₂)
              else answer errno_notcapable (set_system v s₂)
        ])
    unfolding open_canonical
    resolved-cases place s₁ (not_resolved n) s₂ e =
        refused v _ p _ (host_errno-fails n (λ h. (place, (s₁, inr (e ∙ ap not_resolved h))))) refl
          refl
    resolved-cases place s₁ (resolved canonical) s₂ e =
        either (starts_with setting.preopen_host_path_string canonical)
          (canonical-cases canonical s₂ _ _ refl)
          (refused v (set_system v s₂) p errno_notcapable (inl (λ h. absurd (omega (arith, h))))
            refl refl)

    opened-cases :
        (rights : ℕ) (bytes : Option (List ℕ))
        → Atomic os v p (elim bytes [
          | none ↦ answer errno_fault v
          | some bytes ↦ open_bytes os setting (strip_separators bytes) rights p v
        ])
    unfolding open_bytes open_relative
    opened-cases rights none =
        refused v v p errno_fault (inl (λ h. absurd (omega (arith, h)))) refl refl
    opened-cases rights (some bytes) =
        either (length (strip_separators bytes) == 0)
          (refused v v p errno_isdir (inl (λ h. absurd (omega (arith, h)))) refl refl)
          (either (bit_and rights right_fd_read == 0)
            (refused v v p errno_notcapable (inl (λ h. absurd (omega (arith, h)))) refl refl)
            (resolved-cases (strip_separators bytes) v.host.system _ _ refl))

  -- On a sound table with a next descriptor below 2^32, path_open either opens a stream or changes
  -- neither the memory nor the table. In the first case it succeeds, the stream is found under the
  -- next descriptor, every other descriptor finds what it found, the next descriptor is one more, the
  -- memory holds the descriptor at the address given for it, and every byte outside of the four is as
  -- it was. In the second it does not succeed, unless the system refuses some path with no error.
  pub path_open-atomic :
      (dirfd path_ptr path_len rights_base result_ptr : ℕ) (v : View S)
      → IsSound v.host
      → v.host.next_fd < 2 ^ 32
      → IsOpened v result_ptr
          (path_open os setting dirfd path_ptr path_len rights_base result_ptr v)
        ⊎ IsRefused os v (path_open os setting dirfd path_ptr path_len rights_base result_ptr v)
  unfolding path_open
  path_open-atomic dirfd path_ptr path_len rights_base result_ptr v sound small =
      either (not (dirfd == preopen_fd))
        (refused v v result_ptr errno_badf (inl (λ h. absurd (omega (arith, h)))) refl refl)
        (opened-cases v result_ptr
          (next-fresh v.host.next_fd v.host.next_fd v.host.files (omega arith) sound.table) small
          rights_base (data_at v.memory path_ptr path_len))
