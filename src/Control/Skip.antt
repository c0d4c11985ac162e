-- ===== src/Control/Skip.antt =====
-- The end of skipping the immediates of an instruction.
use web_assembly_interpreter.Base.{
  arith, inl, inr, ltb, ltb→le, refl, suc, zero, ℕ, ◌*◌, ◌+◌, ◌<◌, ◌≡◌, ◌≤◌, ◌⊎◌,
}
use web_assembly_interpreter.Control.{
  block_index_loop, read_block_type, read_br_table, read_memarg, skip_block_type, skip_immediate,
  skip_prefixed,
}
use web_assembly_interpreter.Loader.Total.{
  f64-Reads, read_steps, total_rules, u8-Reads, vector-Reads,
}
use web_assembly_interpreter.Reader.Total.{
  Reads, Reads-bind, Reads-if, Reads-if_by, Reads-pure, Reads-switch, Reads-throw, no_more, ◌▸◌,
}

block_index_loop-Reads :
    (f acc s : ℕ) → 32 < s + 7 * f → (s ≡ 7) ⊎ (s ≤ 32) → Reads 0 (block_index_loop f acc s)
unfolding block_index_loop
block_index_loop-Reads zero acc s h (inl start) = absurd (omega arith)
block_index_loop-Reads zero acc s h (inr more) = absurd (omega arith)
block_index_loop-Reads (suc f) acc s h first = Reads-bind 0 _ _ u8-Reads λ b.
    Reads-if 0 _ _ _ (Reads-pure _) (
      Reads-if_by 0 (ltb 32 (s + 7)) _ _ (λ over. Reads-throw 0 _)
        λ more. block_index_loop-Reads f _ (s + 7) (omega arith) (inr (ltb→le 32 (s + 7) more)))

pub block_type-Reads : Reads 0 read_block_type
unfolding read_block_type
block_type-Reads = Reads-bind 0 _ _ u8-Reads λ first.
    Reads-switch first
      (Reads-pure _ ▸ Reads-pure _ ▸ Reads-pure _ ▸ Reads-pure _ ▸ Reads-pure _ ▸ no_more)
      (Reads-bind 0 _ _
        (Reads-if 0 _ _ _ (Reads-pure _) (block_index_loop-Reads 5 _ 7 (omega arith) (inl refl)))
        λ i. Reads-pure _)

pub skip_block_type-Reads : Reads 0 skip_block_type
unfolding skip_block_type
skip_block_type-Reads = search (read_steps, block_type-Reads)

skip_prefixed-Reads : (code : ℕ) → Reads 0 (skip_prefixed code)
unfolding skip_prefixed
skip_prefixed-Reads code = search total_rules

pub skip_immediate-Reads : (op : ℕ) → Reads 0 (skip_immediate op)
unfolding skip_immediate read_memarg read_br_table
skip_immediate-Reads op =
    search (total_rules, f64-Reads, vector-Reads, skip_block_type-Reads, skip_prefixed-Reads) depth
      60
