-- ===== src/Exec/Writes.antt =====
-- The instructions that write the store.
use web_assembly_interpreter.Base.{
  Action, Bool, Bool-cases, Ensures, Error, Keeps, List, Option, and_then, arith, false, get_elem?,
  gets, if◌then◌else◌, inl, inr, leb, length, length-append, length-overwrite, length-replicate,
  length-set, ltb, ltb→le, none, refl, replicate, require, some, sym, throws, true, ℕ, ◌%◌, ◌++◌,
  ◌+◌, ◌-◌, ◌>>=◌, ◌>>◌, ◌^◌, ◌||◌, ◌≡◌, ◌⊎◌,
}
use web_assembly_interpreter.Control.Same.{
  SameBytes, SameBytes-IsPreorder, read_memarg-SameBytes, varuint32-SameBytes,
}
use web_assembly_interpreter.Exec.Access.{
  finish_grow, load_memory, memory_grow, put_memory, store_op,
}
use web_assembly_interpreter.Exec.Bulk.{
  data_drop, mark_dropped, memory_at, memory_copy, memory_fill, memory_init, segment_at, slice,
  table_copy, table_fill, table_grow,
}
use web_assembly_interpreter.Exec.Effect.{
  Develops, Develops-IsPreorder, Develops_of_quiet, From, From-check, From-Keeps, From-lift,
  From-on_store, From-on_store_then, From-quiet, From-require, Quiet-on_reader, Quiet-on_stack,
}
use web_assembly_interpreter.Exec.Flow.{table_at}
use web_assembly_interpreter.Exec.Machine.{Machine, on_reader, on_stack, on_store}
use web_assembly_interpreter.Exec.Variables.{
  global_at, global_set, put_table, table_set, write_global,
}
use web_assembly_interpreter.Memory.{MemoryInstance, grow, over_maximum}
use web_assembly_interpreter.Memory.Size.{grow-IsSized, grow-type, length-write_value}
use web_assembly_interpreter.Numeric.Word.{minus_one}
use web_assembly_interpreter.Reader.{Reader, read_varuint32}
use web_assembly_interpreter.Stack.{OperandStack, push}
use web_assembly_interpreter.Store.{Store, TableInstance}
use web_assembly_interpreter.Store.Extends.{
  Extends-set_global, Extends-set_memory, Extends-set_segment, Extends-set_table, MemoryExtends,
  MemoryExtends-same_length, TableExtends, TableExtends-same_length,
}
use web_assembly_interpreter.Types.{Value, int32}

-- A read of the store that may find nothing: what it finds is in the store at the start.
at-From :
    {X B : Type 0} {s₀ : Store} (part : Store → List X) (i : ℕ) (e : Error)
    (f : X → Action Machine B)
    → ((x : X) → get_elem? (part s₀) i ≡ some x → From s₀ (f x))
    → From s₀ ((gets (λ m. part m.store) >>= λ xs. require e (get_elem? xs i)) >>= f)
unfolding ◌>>=◌
at-From {X} {B} {s₀} part i e f h = record {
  at = λ s q. go s q (get_elem? (part s.store) i) (rw q refl);
}
  where
    go :
        (s : Machine)
        → s.store ≡ s₀
        → (o : Option X) → o ≡ get_elem? (part s₀) i
        → Ensures (Develops s) (and_then (require e o s) f)
    go s q none p = throws
    go s q (some x) p = (h x (sym p)).at s q

-- A read of the code, and a pop.
module _ {A B : Type 0} {s₀ : Store} where
  code-From :
      (m : Action Reader A) (f : A → Action Machine B)
      → Keeps SameBytes m
      → ((a : A) → From s₀ (f a))
      → From s₀ (on_reader m >>= f)
  code-From m f k h = From-quiet _ _ (Quiet-on_reader m k) h

  pop-From :
      (m : Action OperandStack A) (f : A → Action Machine B)
      → ((a : A) → From s₀ (f a))
      → From s₀ (on_stack m >>= f)
  pop-From m f h = From-quiet _ _ (Quiet-on_stack m) h

index-From :
    {B : Type 0} {s₀ : Store} (f : ℕ → Action Machine B)
    → ((i : ℕ) → From s₀ (f i))
    → From s₀ (on_reader read_varuint32 >>= f)
index-From f h = code-From _ f varuint32-SameBytes h

module _ (s₀ : Store) where
  pub global_set-From : From s₀ global_set
  unfolding global_set global_at write_global
  global_set-From = index-From _ λ i.
      at-From (λ s. s.globals) i _ _
        λ g found. From-check _ _ _ λ allowed. pop-From _ _ λ v. From-on_store _ (
          Extends-set_global s₀ i g (record g { value = v }) found
            (record { type = refl; constant = λ immutable. cc }))

  put_table-From :
      (i : ℕ) (t : TableInstance) (vs : List Value)
      → get_elem? s₀.tables i ≡ some t
      → length vs ≡ length t.elements
      → From s₀ (on_store (put_table i t vs))
  unfolding put_table
  put_table-From i t vs found e = From-on_store _ (
      Extends-set_table s₀ i t (record t { elements = vs }) found (TableExtends-same_length t vs e))

  put_memory-From :
      (i : ℕ) (m : MemoryInstance) (bs : List ℕ)
      → get_elem? s₀.memories i ≡ some m
      → length bs ≡ length m.contents
      → From s₀ (on_store (put_memory i (record m { contents = bs })))
  unfolding put_memory
  put_memory-From i m bs found e = From-on_store _ (
      Extends-set_memory s₀ i m (record m { contents = bs }) found
        (MemoryExtends-same_length m bs e))

  pub table_set-From : From s₀ table_set
  unfolding table_set table_at
  table_set-From = index-From _ λ i.
      at-From (λ s. s.tables) i _ _
        λ t found. pop-From _ _ λ v. pop-From _ _ λ p.
          From-lift _ _ λ k _.
            From-require _ _ _ λ old _. put_table-From i t _ found (length-set t.elements k v)

  pub table_fill-From : From s₀ table_fill
  unfolding table_fill table_at
  table_fill-From = index-From _ λ i.
      at-From (λ s. s.tables) i _ _
        λ t found. pop-From _ _ λ c. From-lift _ _ λ count _. pop-From _ _ λ v. pop-From _ _ λ o.
          From-lift _ _ λ offset _. From-check _ _ _ λ fits.
            put_table-From i t _ found (length-overwrite t.elements offset (replicate count v))

  pub table_copy-From : From s₀ table_copy
  unfolding table_copy table_at
  table_copy-From = index-From _ λ i. index-From _ λ j.
      at-From (λ s. s.tables) i _ _
        λ t found.
          at-From (λ s. s.tables) j _ _
            λ u _. pop-From _ _ λ c. From-lift _ _ λ count _. pop-From _ _ λ a.
              From-lift _ _ λ src _. pop-From _ _ λ b. From-lift _ _ λ dest _.
                From-check _ _ _ λ same. From-check _ _ _ λ in_src. From-check _ _ _ λ in_dest.
                  put_table-From i t _ found
                    (length-overwrite t.elements dest (slice src count u.elements))

  pub store_op-From : (w : ℕ) (pop : Action OperandStack ℕ) → From s₀ (store_op w pop)
  unfolding store_op load_memory
  store_op-From w pop = code-From _ _ read_memarg-SameBytes λ arg. pop-From _ _ λ operands.
      at-From (λ s. s.memories) 0 _ _
        λ m found. From-lift _ _ λ address _.
          put_memory-From 0 m _ found (length-write_value w m.contents address operands.1)

  pub memory_init-From : From s₀ memory_init
  unfolding memory_init memory_at segment_at
  memory_init-From = index-From _ λ j. index-From _ λ i.
      at-From (λ s. s.memories) i _ _
        λ m found.
          at-From (λ s. s.data_segments) j _ _
            λ g _. pop-From _ _ λ a. pop-From _ _ λ b. pop-From _ _ λ c. From-lift _ _ λ size _.
              From-lift _ _ λ src _. From-lift _ _ λ dest _. From-check _ _ _ λ kept.
                From-check _ _ _ λ in_src. From-check _ _ _ λ in_dest.
                  put_memory-From i m _ found
                    (length-overwrite m.contents dest (slice src size g.bytes))

  pub memory_copy-From : From s₀ memory_copy
  unfolding memory_copy memory_at
  memory_copy-From = index-From _ λ i. index-From _ λ j.
      at-From (λ s. s.memories) i _ _
        λ m found.
          at-From (λ s. s.memories) j _ _
            λ n _. pop-From _ _ λ a. pop-From _ _ λ b. pop-From _ _ λ c. From-lift _ _ λ size _.
              From-lift _ _ λ src _. From-lift _ _ λ dest _. From-check _ _ _ λ in_src.
                From-check _ _ _ λ in_dest.
                  put_memory-From i m _ found
                    (length-overwrite m.contents dest (slice src size n.contents))

  pub memory_fill-From : From s₀ memory_fill
  unfolding memory_fill memory_at
  memory_fill-From = index-From _ λ i.
      at-From (λ s. s.memories) i _ _
        λ m found. pop-From _ _ λ a. pop-From _ _ λ v. pop-From _ _ λ c. From-lift _ _ λ size _.
          From-lift _ _ λ dest _. From-check _ _ _ λ fits.
            put_memory-From i m _ found
              (length-overwrite m.contents dest (replicate size (v % 256)))

  pub data_drop-From : From s₀ data_drop
  unfolding data_drop segment_at mark_dropped
  data_drop-From = index-From _ λ i.
      at-From (λ s. s.data_segments) i _ _
        λ g found. From-on_store _ (
          Extends-set_segment s₀ i g (record g { dropped = true }) found
            (record { bytes = refl; dropped = λ h. refl }))

  finish_grow-From :
      (m : MemoryInstance) (o : Option MemoryInstance)
      → get_elem? s₀.memories 0 ≡ some m
      → ((m' : MemoryInstance) → o ≡ some m' → MemoryExtends m m')
      → From s₀ (finish_grow m o)
  unfolding finish_grow put_memory
  finish_grow-From m none found h = From-Keeps _ (Develops_of_quiet _ (Quiet-on_stack _))
  finish_grow-From m (some m') found h =
      From-on_store_then _ _ (Extends-set_memory s₀ 0 m m' found (h m' refl))
        (λ u. Quiet-on_stack _)

  pub memory_grow-From : From s₀ memory_grow
  unfolding memory_grow load_memory
  memory_grow-From = index-From _ λ i. pop-From _ _ λ delta.
      at-From (λ s. s.memories) 0 _ _
        λ m found. finish_grow-From m _ found (λ m' e. go delta m m' (leb (2 ^ 31) delta) e)
    where
      go :
          (delta : ℕ) (m m' : MemoryInstance) (b : Bool)
          → (if b then none else grow delta m) ≡ some m'
          → MemoryExtends m m'
      go delta m m' true e = cc
      go delta m m' false e = record {
        type = grow-type delta m m' e;
        size = λ sized. grow-IsSized delta m m' sized e;
      }

  -- `table.grow` adds to the end, within 32 bits and the maximum.
  grown_table :
      (t : TableInstance) (delta : ℕ) (v : Value)
      → (ltb (2 ^ 32 - 1) (length t.elements % 2 ^ 32 + delta)
          || over_maximum t.type.limits.max_size (length t.elements % 2 ^ 32 + delta))
        ≡ false
      → TableExtends t (record t { elements = t.elements ++ replicate delta v })
  grown_table t delta v fits =
      let more : length (t.elements ++ replicate delta v) ≡ length t.elements + delta =
        omega (arith, length-append t.elements (replicate delta v), length-replicate delta v) in
      record {
        type = refl;
        value_type = refl;
        size = omega (arith, more);
        within = λ p.
            let counted : length t.elements % 2 ^ 32 ≡ length t.elements =
              omega (arith, p.countable) in
            let tests : (ltb (2 ^ 32 - 1) (length t.elements % 2 ^ 32 + delta) ≡ false)
                × (over_maximum t.type.limits.max_size (length t.elements % 2 ^ 32 + delta)
                    ≡ false) =
              or_false _ _ fits in
            record {
              countable = omega (arith, more, counted, ltb→le _ _ tests.0);
              within = rw (more, ← counted) tests.1;
            };
      }
    where
      or_false : (a b : Bool) → (a || b) ≡ false → (a ≡ false) × (b ≡ false)
      or_false false b h = (refl, h)
      or_false true b h = cc

  pub table_grow-From : From s₀ table_grow
  unfolding table_grow table_at put_table
  table_grow-From = index-From _ λ i.
      at-From (λ s. s.tables) i _ _
        λ t found.
          pop-From _ _
            λ d. From-lift _ _ λ delta _. pop-From _ _ λ v. go i t found delta v (Bool-cases _)
    where
      go :
          (i : ℕ) (t : TableInstance)
          → get_elem? s₀.tables i ≡ some t
          → (delta : ℕ) (v : Value)
          → let n = length t.elements % 2 ^ 32 + delta in
            let over = ltb (2 ^ 32 - 1) n || over_maximum t.type.limits.max_size n in
            (over ≡ true) ⊎ (over ≡ false)
            → From s₀ (
                if over then on_stack (push (int32 (minus_one 32))) else (do
                  on_store (put_table i t (t.elements ++ replicate delta v))
                  on_stack (push (int32 (length t.elements % 2 ^ 32)))))
      go i t found delta v (inl over) =
          rw over (From-Keeps _ (Develops_of_quiet _ (Quiet-on_stack _)))
      go i t found delta v (inr fits) = rw fits (
          From-on_store_then _ _
            (Extends-set_table s₀ i t (record t { elements = t.elements ++ replicate delta v })
              found (grown_table t delta v fits))
            (λ u. Quiet-on_stack _))
