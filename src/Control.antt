-- ===== src/Control.antt =====
-- src/interpreter.cpp: block types, immediates, and the search for the end of a block.
pub mod Same
pub mod Skip
pub mod Block
pub mod Instruction
pub mod Extent
pub mod Skipped
pub mod Nesting
pub mod Analysis
use web_assembly_interpreter.Base.{
  Action, Bool, List, Option, Result, [], bit_and, err, get_elem?, gets, if◌then◌else◌, leb, length,
  lift, ltb, none, ok, out_of_fuel, pure, runtime_error, some, suc, switch, throw, zero, ℕ, ◌&&◌,
  ◌+◌, ◌-◌, ◌==◌, ◌>>=◌, ◌>>◌, ◌^◌, ◌||◌, ◌∷◌,
}
use web_assembly_interpreter.Loader.Parts.{read_vector}
use web_assembly_interpreter.Memory.{MemArg}
use web_assembly_interpreter.Module.{FunctionType}
use web_assembly_interpreter.Reader.{
  Reader, add_group, eof, read_f32, read_f64, read_u8, read_varint32, read_varint64, read_varuint32,
  read_varuint7, reader_at, set_offset,
}
use web_assembly_interpreter.Types.{ValueType, f32, f64, i32, i64}

pub record BlockInfo : Type 0 where
  pub body_start : ℕ
  pub end_pc : ℕ
  pub end_next_pc : ℕ
  pub else_pc : Option ℕ
  pub else_body_pc : Option ℕ

-- the answer of `read_block_type`: one byte, or the index of a type
pub data BlockType : Type 0 where
  plain : ℕ → BlockType
  type_index : ℕ → BlockType

-- the loop over the bytes of an index, on fuel
unfoldable pub block_index_loop : ℕ → ℕ → ℕ → Action Reader ℕ
block_index_loop zero result shift = throw out_of_fuel
block_index_loop (suc fuel) result shift = do
  byte ← read_u8
  let result' = add_group 32 result byte shift
  let again = block_index_loop fuel result' (shift + 7)
  if bit_and byte 0x80 == 0
      then pure result'
      else (if ltb 32 (shift + 7)
          then throw (runtime_error "Block type index too large")
          else again)

unfoldable pub read_block_type : Action Reader BlockType
read_block_type = do
  first ← read_u8
  let single_byte : Action Reader BlockType = pure (plain first)
  let index : Action Reader BlockType = (do
    result ←
        (if bit_and first 0x80 == 0
          then pure (bit_and first 0x7F)
          else block_index_loop 5 (bit_and first 0x7F) 7)
    pure (type_index result))
  switch first
      ((0x40, single_byte)
        ∷ (0x7F, single_byte)
        ∷ (0x7E, single_byte)
        ∷ (0x7D, single_byte)
        ∷ (0x7C, single_byte)
        ∷ [])
      index

-- The result types of a block. An index is an `int32_t`, so one from 2^31 on is negative.
unfoldable pub block_results : List FunctionType → BlockType → Result (List ValueType)
block_results types (plain b) =
    switch b
      ((0x40, ok [])
        ∷ (0x7F, ok (i32 ∷ []))
        ∷ (0x7E, ok (i64 ∷ []))
        ∷ (0x7D, ok (f32 ∷ []))
        ∷ (0x7C, ok (f64 ∷ []))
        ∷ [])
      (err (runtime_error "Unsupported block value type: "))
block_results types (type_index i) =
    if leb (2 ^ 31) i
    then err (runtime_error "Block type index out of range")
    else elim (get_elem? types i) [
      | none ↦ err (runtime_error "Block type index out of range")
      | some type ↦ ok type.results
    ]

unfoldable pub parse_block_signature : List FunctionType → Action Reader (List ValueType)
parse_block_signature types = do raw ← read_block_type; lift (block_results types raw)

unfoldable pub skip_block_type : Action Reader (Unit {0})
skip_block_type = do read_block_type; pure tt

unfoldable pub read_memarg : Action Reader MemArg
read_memarg = do
  align ← read_varuint32
  offset ← read_varuint32
  pure (record { align = align; offset = offset })

pub record BrTableImmediate : Type 0 where
  pub targets : List ℕ
  pub default_target : ℕ

unfoldable pub read_br_table : Action Reader BrTableImmediate
read_br_table = do
  targets ← read_vector read_varuint32
  default_target ← read_varuint32
  pure (record { targets = targets; default_target = default_target })

abbrev pub skip_index : Action Reader (Unit {0})
skip_index = read_varuint32 >>= λ _. pure tt

abbrev pub skip_two_indices : Action Reader (Unit {0})
skip_two_indices = read_varuint32 >>= λ _. skip_index

-- the immediates behind the prefix 0xFC
unfoldable pub skip_prefixed : ℕ → Action Reader (Unit {0})
skip_prefixed code =
    if code == 0x08 || code == 0x0A || code == 0x0C || code == 0x0E
    then skip_two_indices
    else if code == 0x09 || code == 0x0B || code == 0x0D || (leb 0x0F code && leb code 0x11)
    then skip_index
    else pure tt

abbrev pub has_index : ℕ → Bool
has_index op =
    op == 0x0C
    || op == 0x0D
    || op == 0x10
    || (leb 0x20 op && leb op 0x26)
    || op == 0x3F
    || op == 0x40
    || op == 0xD2

unfoldable pub skip_immediate : ℕ → Action Reader (Unit {0})
skip_immediate op =
    if leb 0x02 op && leb op 0x04
    then skip_block_type
    else if has_index op
    then skip_index
    else if leb 0x28 op && leb op 0x3E
    then (read_memarg >>= λ _. pure tt)
    else switch op
        ((0x0E, do read_br_table; pure tt)
          ∷ (0x11, skip_two_indices)
          ∷ (0x41, do read_varint32; pure tt)
          ∷ (0x42, do read_varint64; pure tt)
          ∷ (0x43, do read_f32; pure tt)
          ∷ (0x44, do read_f64; pure tt)
          ∷ (0xD0, do read_varuint7; pure tt)
          ∷ (0xFC, do code ← read_varuint32; skip_prefixed code)
          ∷ [])
        (pure tt)

-- The loop of `analyze_block`, on fuel. `depth` counts the blocks that are open.
unfoldable pub analyze_loop : ℕ → ℕ → BlockInfo → Action Reader BlockInfo
analyze_loop zero depth info = throw out_of_fuel
analyze_loop (suc fuel) depth info = do
  done ← gets eof
  opcode_offset ← gets (λ r. r.offset)
  let nested : Action Reader BlockInfo = (do skip_block_type; analyze_loop fuel (suc depth) info)
  let at_else : Action Reader BlockInfo = (do
    next ← gets (λ r. r.offset)
    analyze_loop fuel depth (
        if depth == 1
        then record info { else_pc = some opcode_offset; else_body_pc = some next }
        else info))
  let at_end : Action Reader BlockInfo = (do
    next ← gets (λ r. r.offset)
    let inner = analyze_loop fuel (depth - 1) info
    if depth == 1 then pure (record info { end_pc = opcode_offset; end_next_pc = next }) else inner)
  let other = λ (opcode : ℕ). (do skip_immediate opcode; analyze_loop fuel depth info)
  let round : Action Reader BlockInfo = (do
    opcode ← read_u8
    switch opcode
        ((0x02, nested) ∷ (0x03, nested) ∷ (0x04, nested) ∷ (0x05, at_else) ∷ (0x0B, at_end) ∷ [])
        (other opcode))
  if done then throw (runtime_error "Unexpected end of code while analyzing block") else round

-- A round takes a byte at least, so one more round than there are bytes is enough.
unfoldable pub analyze_block : List ℕ → ℕ → Result BlockInfo
analyze_block code body_start =
    let start : BlockInfo = record {
      body_start = body_start;
      end_pc = 0;
      end_next_pc = 0;
      else_pc = none;
      else_body_pc = none;
    } in
    let run : Action Reader BlockInfo = (do
      set_offset body_start
      analyze_loop (length code + 1) 1 start) in
    elim (run (reader_at code 0)) [ ok (info, r) ↦ ok info | err e ↦ err e ]
