-- ===== src/Runner/Kept.antt =====
-- What every callback of the runner keeps: the size of the memory and the table of open files.
pub mod Streams
use web_assembly_interpreter.Base.{
  Bool, List, Option, [], false, if◌then◌else◌, length, length-overwrite, none, refl, some, true, ℕ,
  ◌∙◌, ◌∷◌, ◌≡◌, ◌≤◌,
}
use web_assembly_interpreter.Embed.Wasi.{errno_badf, errno_fault, errno_success}
use web_assembly_interpreter.Memory.Size.{length-write_value}
use web_assembly_interpreter.Runner.Accessor.{store_bytes, store_u32, store_u64}
use web_assembly_interpreter.Runner.Arguments.{sizes_get, strings_get, total_size}
use web_assembly_interpreter.Runner.Descriptors.{
  describe_fd, fd_fdstat_get, fd_prestat_dir_name, fd_prestat_get, fdstat_bytes,
}
use web_assembly_interpreter.Runner.Table.{IsTable}
use web_assembly_interpreter.Runner.World.{Answer, View, WasiState, answer, errno_inval, set_system}
use web_assembly_interpreter.Stack.{entry}

pub record IsSound {S : Type 0} (w : WasiState S) : Type 0 where
  pub next : 4 ≤ w.next_fd
  pub table : IsTable w.next_fd w.files

pub record Behaves {S : Type 0} (v v' : View S) : Type 0 where
  pub size : length v'.memory ≡ length v.memory
  pub sound : IsSound v.host → IsSound v'.host

-- An answer that keeps what `u` has.
pub record Keeping {S : Type 0} (u : View S) (a : Answer S) : Type 0 where
  pub behaves : Behaves u a.1

module _ {S : Type 0} where
  pub Behaves-refl : (v : View S) → Behaves v v
  Behaves-refl v = record { size = refl; sound = λ h. h }

  pub Behaves-write :
      (u v : View S) (bytes : List ℕ)
      → length bytes ≡ length v.memory
      → Behaves u v
      → Behaves u (record v { memory = bytes })
  Behaves-write u v bytes e h = record { size = e ∙ h.size; sound = h.sound }

  pub Behaves-system : (u v : View S) (s : S) → Behaves u v → Behaves u (set_system v s)
  Behaves-system u v s h = record {
    size = h.size;
    sound = λ i. record { next = (h.sound i).next; table = (h.sound i).table };
  }

  pub Keeping-answer : (u v : View S) (e : ℕ) → Behaves u v → Keeping u (answer e v)
  Keeping-answer u v e h = record { behaves = h }

  pub Keeping-if :
      (u : View S) (b : Bool) (x y : Answer S)
      → Keeping u x
      → Keeping u y
      → Keeping u (if b then x else y)
  Keeping-if u true x y h k = h
  Keeping-if u false x y h k = k

  module _ (u v : View S) (k : View S → Answer S) (h : Behaves u v)
      (go_on : (v' : View S) → Behaves u v' → Keeping u (k v')) where
    pub store_u32-Keeping : (offset value : ℕ) → Keeping u (store_u32 offset value v k)
    unfolding store_u32
    store_u32-Keeping offset value =
        Keeping-if u _ _ _
          (go_on _ (Behaves-write u v _ (length-write_value 4 v.memory offset value) h))
          (Keeping-answer u v errno_fault h)

    pub store_u64-Keeping : (offset value : ℕ) → Keeping u (store_u64 offset value v k)
    unfolding store_u64
    store_u64-Keeping offset value =
        Keeping-if u _ _ _
          (go_on _ (Behaves-write u v _ (length-write_value 8 v.memory offset value) h))
          (Keeping-answer u v errno_fault h)

    pub store_bytes-Keeping :
        (offset : ℕ) (bytes : List ℕ) → Keeping u (store_bytes offset bytes v k)
    unfolding store_bytes
    store_bytes-Keeping offset bytes =
        Keeping-if u _ _ _
          (go_on _ (Behaves-write u v _ (length-overwrite v.memory offset bytes) h))
          (Keeping-answer u v errno_fault h)

  answers-Keeping : (u : View S) (e : ℕ) (v : View S) → Behaves u v → Keeping u (answer e v)
  answers-Keeping u e v h = Keeping-answer u v e h

  -- args_sizes_get, args_get, environ_sizes_get and environ_get
  pub sizes_get-Keeping :
      (entries : List (List ℕ)) (p q : ℕ) (v : View S) → Keeping v (sizes_get entries p q v)
  unfolding sizes_get
  sizes_get-Keeping entries p q v = by_total (total_size entries 0)
    where
      by_total :
          (o : Option ℕ)
          → Keeping v (elim o [
            | none ↦ answer errno_inval v
            | some total ↦
                store_u32 p
                  (length entries)
                  v
                  λ v₁. store_u32 q total v₁ λ v₂. answer errno_success v₂
          ])
      by_total none = Keeping-answer v v errno_inval (Behaves-refl v)
      by_total (some total) =
          store_u32-Keeping v v _ (Behaves-refl v)
            (λ v₁ h₁. store_u32-Keeping v v₁ _ h₁ (answers-Keeping v errno_success) q total) p
            (length entries)

  strings-Keeping :
      (u : View S) (entries : List (List ℕ)) (slot buf : ℕ) (v : View S)
      → Behaves u v
      → Keeping u (strings_get entries slot buf v)
  unfolding strings_get
  strings-Keeping u [] slot buf v h = Keeping-answer u v errno_success h
  strings-Keeping u (entry ∷ entries) slot buf v h =
      store_u32-Keeping u v _ h
        (λ v₁ h₁.
          store_bytes-Keeping u v₁ _ h₁
            (λ v₂ h₂.
              store_bytes-Keeping u v₂ _ h₂ (λ v₃ h₃. strings-Keeping u entries _ _ v₃ h₃) _ _)
            _ _)
        slot buf

  pub strings_get-Keeping :
      (entries : List (List ℕ)) (slot buf : ℕ) (v : View S)
      → Keeping v (strings_get entries slot buf v)
  strings_get-Keeping entries slot buf v = strings-Keeping v entries slot buf v (Behaves-refl v)

  pub fdstat-Keeping : (fd p : ℕ) (v : View S) → Keeping v (fd_fdstat_get fd p v)
  unfolding fd_fdstat_get
  fdstat-Keeping fd p v = by_fd (describe_fd fd v.host.files)
    where
      by_fd :
          (o : Option (ℕ × ℕ))
          → Keeping v (elim o [
            | none ↦ answer errno_badf v
            | some (filetype, rights) ↦
                store_bytes p (fdstat_bytes filetype rights) v (answer errno_success)
          ])
      by_fd none = Keeping-answer v v errno_badf (Behaves-refl v)
      by_fd (some (filetype, rights)) =
          store_bytes-Keeping v v _ (Behaves-refl v) (answers-Keeping v errno_success) p _

  pub prestat-Keeping : (fd p : ℕ) (v : View S) → Keeping v (fd_prestat_get fd p v)
  unfolding fd_prestat_get
  prestat-Keeping fd p v =
      Keeping-if v _ _ _
        (store_bytes-Keeping v v _ (Behaves-refl v) (answers-Keeping v errno_success) p _)
        (Keeping-answer v v errno_badf (Behaves-refl v))

  pub dir_name-Keeping : (fd p n : ℕ) (v : View S) → Keeping v (fd_prestat_dir_name fd p n v)
  unfolding fd_prestat_dir_name
  dir_name-Keeping fd p n v = Keeping-if v _ _ _ (Keeping-answer v v errno_badf (Behaves-refl v)) (
      Keeping-if v _ _ _ (Keeping-answer v v errno_inval (Behaves-refl v))
        (store_bytes-Keeping v v _ (Behaves-refl v) (answers-Keeping v errno_success) p _))
