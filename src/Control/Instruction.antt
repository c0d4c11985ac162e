-- ===== src/Control/Instruction.antt =====
-- Instructions as byte ranges, apart from the reader: the immediates of each opcode, and sequences
-- with blocks in them. What is between two positions is given by the bytes there.
use web_assembly_interpreter.Base.{
  Bool, List, Option, bit_and, false, get_elem?, if◌then◌else◌, leb, length, none, ok, some, suc,
  true, zero, ℕ, ◌&&◌, ◌+◌, ◌==◌, ◌||◌, ◌≡◌, ◌≤◌, ◌⊎◌,
}
use web_assembly_interpreter.Reader.{read_varuint32, reader_at}

-- A LEB128 number: bytes with the high bit, and a last one without.
pub data IsLeb (code : List ℕ) : ℕ → ℕ → Type 0 where
  last_byte :
      {i j b : ℕ}
      → get_elem? code i ≡ some b
      → (bit_and b 0x80 == 0) ≡ true
      → j ≡ suc i
      → IsLeb code i j
  more_bytes :
      {i j b : ℕ}
      → get_elem? code i ≡ some b
      → (bit_and b 0x80 == 0) ≡ false
      → IsLeb code (suc i) j
      → IsLeb code i j

-- so many LEB128 numbers
abbrev pub AreLebs : List ℕ → ℕ → ℕ → ℕ → Type 0
AreLebs code zero i j = i ≡ j
AreLebs code (suc n) i j = (k : ℕ) × (IsLeb code i k × AreLebs code n k j)

pub data Immediate : Type 0 where
  nothing block_type vector prefixed : Immediate
  indices : ℕ → Immediate
  fixed : ℕ → Immediate

-- The immediates of the opcodes.
abbrev pub immediate : ℕ → Immediate
immediate op =
    if leb 0x02 op && leb op 0x04
    then block_type
    else if op == 0x0C
        || op == 0x0D
        || op == 0x10
        || (leb 0x20 op && leb op 0x26)
        || op == 0x3F
        || op == 0x40
        || op == 0xD2
    then indices 1
    else if leb 0x28 op && leb op 0x3E
    then indices 2
    else if op == 0x0E
    then vector
    else if op == 0x11
    then indices 2
    else if op == 0x41
    then indices 1
    else if op == 0x42
    then indices 1
    else if op == 0x43
    then fixed 4
    else if op == 0x44
    then fixed 8
    else if op == 0xD0
    then indices 1
    else if op == 0xFC
    then prefixed
    else nothing

-- How many indices stand behind the number of a prefixed instruction.
abbrev pub prefixed_indices : ℕ → ℕ
prefixed_indices n =
    if n == 0x08 || n == 0x0A || n == 0x0C || n == 0x0E
    then 2
    else if n == 0x09 || n == 0x0B || n == 0x0D || (leb 0x0F n && leb n 0x11)
    then 1
    else 0

-- no result, or one of a number type
abbrev pub short_block_type : ℕ → Bool
short_block_type b = b == 0x40 || b == 0x7F || b == 0x7E || b == 0x7D || b == 0x7C

-- The immediate stands from `i` to `j`. The count of a vector and the number behind the prefix are
-- what `read_varuint32` reads there.
abbrev pub Stands : List ℕ → Immediate → ℕ → ℕ → Type 0
Stands code nothing i j = i ≡ j
Stands code block_type i j =
    ((b : ℕ) × ((get_elem? code i ≡ some b) × ((short_block_type b ≡ true) × (j ≡ suc i))))
    ⊎ IsLeb code i j
Stands code (indices n) i j = AreLebs code n i j
Stands code (fixed n) i j = (j ≡ i + n) × (j ≤ length code)
Stands code vector i j =
    (n : ℕ) × ((k : ℕ) × ((read_varuint32 (reader_at code i) ≡ ok (n, reader_at code k))
        × ((k' : ℕ) × (AreLebs code n k k' × IsLeb code k' j))))
Stands code prefixed i j =
    (n : ℕ) × ((k : ℕ) × ((read_varuint32 (reader_at code i) ≡ ok (n, reader_at code k))
        × AreLebs code (prefixed_indices n) k j))

abbrev pub is_opener : ℕ → Bool
is_opener b = b == 0x02 || b == 0x03 || b == 0x04

-- the first, or else the second
abbrev pub or_else : Option ℕ → Option ℕ → Option ℕ
or_else none o = o
or_else (some p) o = some p

-- Instructions from one position to another, each block in them with its `end`; the last `else`
-- that is in no such block, if there is one.
pub data IsSequence (code : List ℕ) : ℕ → ℕ → Option ℕ → Type 0 where
  empty : {i : ℕ} → IsSequence code i i none
  simple :
      {i j k b : ℕ} {o : Option ℕ}
      → get_elem? code i ≡ some b
      → is_opener b ≡ false
      → (b == 0x05) ≡ false
      → (b == 0x0B) ≡ false
      → Stands code (immediate b) (suc i) j
      → IsSequence code j k o
      → IsSequence code i k o
  alternative :
      {i k : ℕ} {o p : Option ℕ}
      → get_elem? code i ≡ some 0x05
      → IsSequence code (suc i) k o
      → p ≡ or_else o (some i)
      → IsSequence code i k p
  block :
      {i j e k b : ℕ} {inner o : Option ℕ}
      → get_elem? code i ≡ some b
      → is_opener b ≡ true
      → Stands code block_type (suc i) j
      → IsSequence code j e inner
      → get_elem? code e ≡ some 0x0B
      → IsSequence code (suc e) k o
      → IsSequence code i k o
