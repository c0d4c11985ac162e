-- ===== src/Embed/Written.antt =====
-- What `fd_write` reports of the bytes it wrote.
use web_assembly_interpreter.Base.{
  Bool, List, String, [], ap, arith, drop, false, if◌then◌else◌, length, length-append, ltb, ltb→le,
  min, not, refl, set, suc, take, true, zero, ℕ, ◌%◌, ◌*◌, ◌++◌, ◌+◌, ◌-◌, ◌<◌, ◌==◌, ◌^◌, ◌||◌,
  ◌∙◌, ◌∷◌, ◌≡◌, ◌≢◌, ◌≤◌,
}
use web_assembly_interpreter.Embed.Invoke.{memory_view}
use web_assembly_interpreter.Embed.Wasi.{
  FdWrite, Gathered, errno, errno_badf, errno_fault, errno_success, fd_write, fd_write_args,
  finish_write, gather, refuse_descriptor, with_memory, write_vectors,
}
use web_assembly_interpreter.Exec.Run.{host_trapped}
use web_assembly_interpreter.Memory.{MemoryInstance, read_value, write_value}
use web_assembly_interpreter.Memory.Access.{read_value-write_value}
use web_assembly_interpreter.Store.{Store}
use web_assembly_interpreter.Types.{Value, int32}
use native.Mathlib.Nat.{mod-eq_of_lt}

-- The count in the first memory, after a write that reports success.
abbrev Counts : ℕ → FdWrite → Type 0
Counts nwritten w =
    w.result ≡ errno errno_success
    → read_value 4 (memory_view w.store) nwritten ≡ min (length w.written) (2 ^ 32 - 1)

Counts-if :
    (n : ℕ) (b : Bool) (x y : FdWrite)
    → (b ≡ true → Counts n x)
    → (b ≡ false → Counts n y)
    → Counts n (if b then x else y)
Counts-if n true x y h k = h refl
Counts-if n false x y h k = k refl

fault_not_success : errno errno_fault ≢ errno errno_success
fault_not_success e = cc

refused_not_success : errno errno_badf ≢ errno errno_success
refused_not_success e = cc

trap_not_success : {t : String} → host_trapped t ≢ errno errno_success
trap_not_success e = cc

take-length : (n : ℕ) (xs : List ℕ) → n ≤ length xs → length (take n xs) ≡ n
take-length zero xs h = refl
take-length (suc n) [] h = absurd (omega arith)
take-length (suc n) (x ∷ xs) h = ap suc (take-length n xs (omega arith))

drop-length : (n : ℕ) (xs : List ℕ) → n ≤ length xs → length (drop n xs) + n ≡ length xs
drop-length zero xs h = omega arith
drop-length (suc n) [] h = absurd (omega arith)
drop-length (suc n) (x ∷ xs) h = omega (arith, drop-length n xs (omega arith))

slice-length :
    (ptr len : ℕ) (bytes : List ℕ)
    → ptr + len ≤ length bytes
    → length (take len (drop ptr bytes)) ≡ len
slice-length ptr len bytes h =
    take-length len (drop ptr bytes) (omega (arith, drop-length ptr bytes (omega (arith, h))))

abbrev Tallies : Gathered → Type 0
Tallies g = g.total_written ≡ length g.out

Tallies-if :
    (b : Bool) (g h : Gathered)
    → Tallies g
    → (b ≡ false → Tallies h)
    → Tallies (if◌then◌else◌ {A = Gathered} b g h)
Tallies-if true g h p k = p
Tallies-if false g h p k = k refl

-- The count is that of the bytes, if it starts so and the sum cannot wrap around.
gather-Tallies :
    (n offset : ℕ) (bytes out : List ℕ) (total : ℕ)
    → length bytes ≤ 2 ^ 32
    → total ≡ length out
    → total + n * 2 ^ 32 < 2 ^ 64
    → Tallies (gather n offset bytes out total)
unfolding gather
gather-Tallies zero offset bytes out total small same room = same
gather-Tallies (suc n) offset bytes out total small same room =
    let ptr = read_value 4 bytes offset in
    let len = read_value 4 bytes (offset + 4) in
    Tallies-if (ltb (length bytes) (offset + 8)) _ _ same (λ _.
      Tallies-if (ltb (length bytes) (ptr + len)) _ _ same (λ fits.
        let inside : ptr + len ≤ length bytes = ltb→le _ _ fits in
        let kept : (total + len) % 2 ^ 64 ≡ total + len =
          mod-eq_of_lt (omega (arith, inside, small, room)) in
        gather-Tallies n (offset + 8) bytes (out ++ take len (drop ptr bytes))
          ((total + len) % 2 ^ 64) small
          (kept
            ∙ omega (
              arith,
              same,
              length-append out (take len (drop ptr bytes)),
              slice-length ptr len bytes inside,
            ))
          (omega (arith, kept, inside, small, room))))

module _ (s : Store) (m : MemoryInstance) (ms : List MemoryInstance)
    (first : s.memories ≡ m ∷ ms) where
  finish-Counts :
      (nwritten : ℕ) (g : Gathered) → Tallies g → Counts nwritten (finish_write s m nwritten g)
  unfolding finish_write memory_view
  finish-Counts nwritten g tallies =
      Counts-if nwritten (not g.completed) _ _ (λ faulty h. absurd (fault_not_success h))
        λ complete.
          Counts-if nwritten (ltb (length m.contents) (nwritten + 4)) _ _
            (λ over h. absurd (fault_not_success h))
            λ fits h.
              let n : ℕ = min g.total_written (2 ^ 32 - 1) % 2 ^ 32 in
              let kept : memory_view (with_memory s m (write_value 4 m.contents nwritten n))
                  ≡ write_value 4 m.contents nwritten n =
                ap
                  (λ (l : List MemoryInstance). memory_view (record s {
                    memories =
                        set l 0 (record m { contents = write_value 4 m.contents nwritten n });
                  }))
                  first in
              ap (λ (bs : List ℕ). read_value 4 bs nwritten) kept
              ∙ read_value-write_value 4 m.contents nwritten n (ltb→le _ _ fits)
              ∙ ap (λ k. k % 2 ^ 32) (mod-eq_of_lt (least g.total_written))
              ∙ mod-eq_of_lt (least g.total_written)
              ∙ ap (λ k. min k (2 ^ 32 - 1)) tallies
    where
      least : (k : ℕ) → min k (2 ^ 32 - 1) < 2 ^ 32
      least k = omega arith

  vectors-Counts :
      (fd iovs_ptr iovs_len nwritten : ℕ)
      → iovs_len < 2 ^ 32
      → length m.contents ≤ 2 ^ 32
      → Counts nwritten (write_vectors s m fd iovs_ptr iovs_len nwritten)
  unfolding write_vectors refuse_descriptor
  vectors-Counts fd iovs_ptr iovs_len nwritten few small =
      Counts-if nwritten (fd == 1 || fd == 2) _ _
        (λ e.
          finish-Counts nwritten (gather iovs_len iovs_ptr m.contents [] 0)
            (gather-Tallies iovs_len iovs_ptr m.contents [] 0 small refl (omega (arith, few))))
        (λ e h. absurd (refused_not_success h))

args-Counts :
    (s : Store) (ms : List MemoryInstance)
    → s.memories ≡ ms
    → (fd iovs_ptr iovs_len nwritten : ℕ) → iovs_len < 2 ^ 32
    → length (elim ms [ [] ↦ [] | m ∷ ms ↦ m.contents ]) ≤ 2 ^ 32
    → Counts nwritten (fd_write_args s ms fd iovs_ptr iovs_len nwritten)
args-Counts s [] e fd iovs_ptr iovs_len nwritten few small = λ h. absurd (trap_not_success h)
args-Counts s (m ∷ ms) e fd iovs_ptr iovs_len nwritten few small =
    Counts-if nwritten (length m.contents == 0) _ _ (λ empty h. absurd (trap_not_success h))
      (λ some_bytes. vectors-Counts s m ms e fd iovs_ptr iovs_len nwritten few small)

abbrev pub write_args : ℕ → ℕ → ℕ → ℕ → List Value
write_args fd iovs_ptr iovs_len nwritten =
    int32 fd ∷ int32 iovs_ptr ∷ int32 iovs_len ∷ int32 nwritten ∷ []

-- After an `fd_write` of fewer than 2^32 vectors that reports success, the first memory, of at most
-- 2^32 bytes, holds at the address given for it the number of bytes that were written to the stream,
-- at most 2^32 - 1: the 64-bit count that is kept beside the stream does not wrap around.
pub fd_write-count :
    (s : Store) (fd iovs_ptr iovs_len nwritten : ℕ)
    → iovs_len < 2 ^ 32
    → length (memory_view s) ≤ 2 ^ 32
    → (fd_write (write_args fd iovs_ptr iovs_len nwritten) s).result ≡ errno errno_success
    → read_value 4
        (memory_view (fd_write (write_args fd iovs_ptr iovs_len nwritten) s).store)
        nwritten
      ≡ min (length (fd_write (write_args fd iovs_ptr iovs_len nwritten) s).written) (2 ^ 32 - 1)
unfolding fd_write memory_view
fd_write-count s fd iovs_ptr iovs_len nwritten few small =
    args-Counts s s.memories refl fd iovs_ptr iovs_len nwritten few small
