-- ===== src/Memory/Size.antt =====
-- The size of a memory: whole pages, few enough to count in 32 bits, within the declared maximum.
use web_assembly_interpreter.Base.{
  List, arith, false, length, length-append, length-replicate, length-set, length-take, refl,
  replicate, set, some, suc, take, zero, ℕ, ◌%◌, ◌*◌, ◌+◌, ◌-◌, ◌/◌, ◌<◌, ◌^◌, ◌∙◌, ◌≡◌, ◌≤◌,
}
use web_assembly_interpreter.Memory.{
  MemoryInstance, grow, over_maximum, page_size, resize_bytes, size_in_pages, write_value,
}

pub record IsSized (m : MemoryInstance) : Type 0 where
  pub whole : length m.contents % page_size ≡ 0
  pub addressable : length m.contents < 2 ^ 48
  pub within : over_maximum m.type.limits.max_size (length m.contents / page_size) ≡ false

pub length-write_value : (n : ℕ) (bs : List ℕ) (a v : ℕ) → length (write_value n bs a v) ≡ length bs
unfolding write_value
length-write_value zero bs a v = refl
length-write_value (suc n) bs a v =
    length-write_value n (set bs a (v % 256)) (suc a) (v / 256) ∙ length-set bs a (v % 256)

length-resize_bytes : (n : ℕ) (bs : List ℕ) → length (resize_bytes n bs) ≡ n
length-resize_bytes n bs = omega (
  arith,
  length-append (take n bs) (replicate (n - length bs) 0),
  length-take n bs,
  length-replicate {A = ℕ} (n - length bs) 0,
)

module _ (delta : ℕ) (m m' : MemoryInstance) (sized : IsSized m)
    (grown : grow delta m ≡ some m') where
  -- What `grow` answers: the type it had, and `delta` more pages.
  grow_shape :
      (m'.type ≡ m.type)
      × (length m'.contents ≡ length m.contents + delta * page_size)
      × (length m'.contents < 2 ^ 48)
      × (over_maximum m.type.limits.max_size (length m.contents / page_size + delta) ≡ false)
  unfolding grow size_in_pages
  grow_shape =
      let pages = length m.contents / page_size % 2 ^ 32 in
      ground (
        arith,
        sized.whole,
        sized.addressable,
        length-resize_bytes ((pages + delta) * page_size) m.contents,
      )

  -- A well-sized memory that grows is well sized and no shorter.
  pub grow-IsSized : IsSized m' × (length m.contents ≤ length m'.contents)
  grow-IsSized =
      let (same, size, small, fits) = grow_shape in
      let pages : length m'.contents / page_size ≡ length m.contents / page_size + delta =
        omega (arith, sized.whole, size) in
      (
        record {
          whole = omega (arith, sized.whole, size);
          addressable = small;
          within = rw (same, pages) fits;
        },
        omega (arith, size),
      )

pub grow-type : (delta : ℕ) (m m' : MemoryInstance) → grow delta m ≡ some m' → m'.type ≡ m.type
unfolding grow
grow-type delta m m' grown = ground arith
