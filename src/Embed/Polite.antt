-- ===== src/Embed/Polite.antt =====
-- What the WASI shim does to the store.
use web_assembly_interpreter.Base.{
  Bool, Bool-cases, List, Result, [], err, false, if◌then◌else◌, inl, inr, leb, length, ltb, not,
  ok, refl, true, ℕ, ◌+◌, ◌==◌, ◌||◌, ◌∷◌, ◌≡◌,
}
use web_assembly_interpreter.Embed.Invoke.{memory_view}
use web_assembly_interpreter.Embed.Wasi.{
  FdWrite, Gathered, fd_write, fd_write_args, fd_write_decoded, finish_write, four_i32, gather,
  refuse_descriptor, wasi_host, with_memory, write_vectors,
}
use web_assembly_interpreter.Memory.{MemoryInstance, write_value}
use web_assembly_interpreter.Memory.Size.{length-write_value}
use web_assembly_interpreter.Store.{Store}
use web_assembly_interpreter.Store.Extends.{
  Extends, Extends-refl, Extends-set_memory, MemoryExtends-same_length,
}
use web_assembly_interpreter.Types.{Value}

-- The store is extended, and its first memory has as many bytes as before.
pub record Leaves (s t : Store) : Type 0 where
  pub extends : Extends s t
  pub size : length (memory_view t) ≡ length (memory_view s)

pub Leaves-refl : (s : Store) → Leaves s s
Leaves-refl s = record { extends = Extends-refl s; size = refl }

store-if :
    (s : Store) (b : Bool) (x y : FdWrite)
    → Leaves s x.store
    → Leaves s y.store
    → Leaves s (if b then x else y).store
store-if s true x y h k = h
store-if s false x y h k = k

module _ (s : Store) (m : MemoryInstance) (ms : List MemoryInstance)
    (first : s.memories ≡ m ∷ ms) where
  write_first-Leaves : (n a v : ℕ) → Leaves s (with_memory s m (write_value n m.contents a v))
  unfolding memory_view
  write_first-Leaves n a v = record {
    extends =
        Extends-set_memory s 0 m (record m { contents = write_value n m.contents a v })
          (rw first refl)
          (MemoryExtends-same_length m (write_value n m.contents a v)
            (length-write_value n m.contents a v));
    size = rw first (length-write_value n m.contents a v);
  }

  finish-Leaves : (nwritten : ℕ) (g : Gathered) → Leaves s (finish_write s m nwritten g).store
  unfolding finish_write
  finish-Leaves nwritten g = store-if s (not g.completed) _ _ (Leaves-refl s) (
      store-if s (ltb (length m.contents) (nwritten + 4)) _ _ (Leaves-refl s)
        (write_first-Leaves 4 nwritten _))

  refuse-Leaves : (nwritten : ℕ) → Leaves s (refuse_descriptor s m nwritten).store
  unfolding refuse_descriptor
  refuse-Leaves nwritten = elim (Bool-cases (leb (nwritten + 4) (length m.contents))) [
    | inl fits ↦ rw fits (write_first-Leaves 4 nwritten 0)
    | inr over ↦ rw over (Leaves-refl s)
  ]

  vectors-Leaves :
      (fd iovs_ptr iovs_len nwritten : ℕ)
      → Leaves s (write_vectors s m fd iovs_ptr iovs_len nwritten).store
  unfolding write_vectors
  vectors-Leaves fd iovs_ptr iovs_len nwritten =
      store-if s (fd == 1 || fd == 2) _ _
        (finish-Leaves nwritten (gather iovs_len iovs_ptr m.contents [] 0)) (refuse-Leaves nwritten)

args-Leaves :
    (s : Store) (ms : List MemoryInstance)
    → s.memories ≡ ms
    → (fd iovs_ptr iovs_len nwritten : ℕ)
    → Leaves s (fd_write_args s ms fd iovs_ptr iovs_len nwritten).store
args-Leaves s [] e fd iovs_ptr iovs_len nwritten = Leaves-refl s
args-Leaves s (m ∷ ms) e fd iovs_ptr iovs_len nwritten =
    store-if s (length m.contents == 0) _ _ (Leaves-refl s)
      (vectors-Leaves s m ms e fd iovs_ptr iovs_len nwritten)

decoded-Leaves :
    (s : Store) (r : Result (ℕ × (ℕ × (ℕ × ℕ)))) → Leaves s (fd_write_decoded s r).store
decoded-Leaves s (ok (fd, (iovs_ptr, (iovs_len, nwritten)))) =
    args-Leaves s s.memories refl fd iovs_ptr iovs_len nwritten
decoded-Leaves s (err e) = Leaves-refl s

fd_write-Leaves : (args : List Value) (s : Store) → Leaves s (fd_write args s).store
unfolding fd_write
fd_write-Leaves args s =
    store-if s (length args == 4) _ _ (decoded-Leaves s (four_i32 args)) (Leaves-refl s)

-- The WASI callbacks, on any arguments, leave a store that extends the one they were given, with a
-- first memory of the same size.
pub wasi_host-Leaves :
    {W : Type 0} (id : ℕ) (args : List Value) (w : W) (s : Store)
    → Leaves s (wasi_host id args (w, s)).1.1
unfolding wasi_host
wasi_host-Leaves id args w s = elim (Bool-cases (id == 0)) [
  | inl is_write ↦ rw is_write (fd_write-Leaves args s)
  | inr other ↦ rw other (Leaves-refl s)
]

pub wasi_host-Extends :
    {W : Type 0} (id : ℕ) (args : List Value) (w : W) (s : Store)
    → Extends s (wasi_host id args (w, s)).1.1
wasi_host-Extends id args w s = (wasi_host-Leaves id args w s).extends
