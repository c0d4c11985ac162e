-- ===== src/Control/Same.antt =====
-- The bytes behind reads and jumps.
use web_assembly_interpreter.Base.{
  Action, Bool, Ensures, IsPreorder, Keeps, Keeps-bind, Keeps-if, Keeps-mono, Keeps-pure,
  Keeps-switch, Keeps-throw, List, end_cases, err, false, if◌then◌else◌, keeps_rules, length, ltb,
  ok, out_of_range, refl, returns, suc, throws, true, zero, ℕ, ◌+◌, ◌∙◌, ◌≡◌, ◌▹◌,
}
use web_assembly_interpreter.Control.{
  block_index_loop, parse_block_signature, read_block_type, read_br_table, read_memarg,
}
use web_assembly_interpreter.Loader.Parts.{read_vector, repeat}
use web_assembly_interpreter.Module.{FunctionType}
use web_assembly_interpreter.Reader.{
  Reader, read_f32, read_f64, read_u32, read_u8, read_varint32, read_varint64, read_varuint32,
  read_varuint7, set_offset,
}
use web_assembly_interpreter.Reader.Advance.{
  Advances, read_leb-Advances, read_u32-Advances, read_u8-Advances,
}

abbrev pub SameBytes : Reader → Reader → Type 0
SameBytes r r' = r'.bytes ≡ r.bytes

instance pub SameBytes-IsPreorder : IsPreorder SameBytes
SameBytes-IsPreorder = record { stay = λ s. refl; chain = λ s t u h k. k ∙ h }

abbrev pub same_of_advances : (r r' : Reader) → Advances r r' → SameBytes r r'
same_of_advances r r' h = h.same

pub read_u8-SameBytes : Keeps SameBytes read_u8
read_u8-SameBytes = Keeps-mono _ same_of_advances read_u8-Advances

read_u32-SameBytes : Keeps SameBytes read_u32
read_u32-SameBytes = Keeps-mono _ same_of_advances read_u32-Advances

pub varuint32-SameBytes : Keeps SameBytes read_varuint32
unfolding read_varuint32
varuint32-SameBytes = Keeps-mono _ same_of_advances (read_leb-Advances 32 32).0

pub varuint7-SameBytes : Keeps SameBytes read_varuint7
unfolding read_varuint7
varuint7-SameBytes = Keeps-mono _ same_of_advances (read_leb-Advances 32 7).0

pub varint32-SameBytes : Keeps SameBytes read_varint32
unfolding read_varint32
varint32-SameBytes = Keeps-mono _ same_of_advances (read_leb-Advances 32 32).1

pub varint64-SameBytes : Keeps SameBytes read_varint64
unfolding read_varint64
varint64-SameBytes = Keeps-mono _ same_of_advances (read_leb-Advances 64 64).1

pub read_f32-SameBytes : Keeps SameBytes read_f32
unfolding read_f32
read_f32-SameBytes = read_u32-SameBytes

pub read_f64-SameBytes : Keeps SameBytes read_f64
unfolding read_f64
read_f64-SameBytes = search (keeps_rules, read_u32-SameBytes)

pub set_offset-SameBytes : (i : ℕ) → Keeps SameBytes (set_offset i)
unfolding set_offset
set_offset-SameBytes i = record { at = λ r. go r (ltb (length r.bytes) i) }
  where
    go :
        (r : Reader) (b : Bool)
        → Ensures (SameBytes r) (
            if b
            then err (out_of_range "BinaryReader::set_offset")
            else ok (tt {0}, record r { offset = i }))
    go r true = throws
    go r false = returns refl

repeat-SameBytes :
    {A : Type 0} (n : ℕ) (m : Action Reader A) → Keeps SameBytes m → Keeps SameBytes (repeat n m)
unfolding repeat
repeat-SameBytes zero m k = Keeps-pure _
repeat-SameBytes (suc n) m k =
    Keeps-bind _ _ k λ x. Keeps-bind _ _ (repeat-SameBytes n m k) λ xs. Keeps-pure _

ruleset reader_rules = (
  keeps_rules, read_u8-SameBytes, varuint32-SameBytes, varuint7-SameBytes, varint32-SameBytes,
  varint64-SameBytes, read_f32-SameBytes, read_f64-SameBytes, set_offset-SameBytes,
  repeat-SameBytes,
)

pub read_memarg-SameBytes : Keeps SameBytes read_memarg
unfolding read_memarg
read_memarg-SameBytes = search reader_rules

pub read_br_table-SameBytes : Keeps SameBytes read_br_table
unfolding read_br_table read_vector
read_br_table-SameBytes = search reader_rules

block_index_loop-SameBytes : (f acc s : ℕ) → Keeps SameBytes (block_index_loop f acc s)
unfolding block_index_loop
block_index_loop-SameBytes zero acc s = Keeps-throw _
block_index_loop-SameBytes (suc f) acc s = Keeps-bind _ _ read_u8-SameBytes λ b.
    Keeps-if _ _ _ (Keeps-pure _)
      (Keeps-if _ _ _ (Keeps-throw _) (block_index_loop-SameBytes f _ (s + 7)))

block_type-SameBytes : Keeps SameBytes read_block_type
unfolding read_block_type
block_type-SameBytes = Keeps-bind _ _ read_u8-SameBytes λ first.
    Keeps-switch first
      (Keeps-pure _ ▹ Keeps-pure _ ▹ Keeps-pure _ ▹ Keeps-pure _ ▹ Keeps-pure _ ▹ end_cases)
      (Keeps-bind _ _ (Keeps-if _ _ _ (Keeps-pure _) (block_index_loop-SameBytes 5 _ 7))
        λ i. Keeps-pure _)

pub block_signature-SameBytes :
    (types : List FunctionType) → Keeps SameBytes (parse_block_signature types)
unfolding parse_block_signature
block_signature-SameBytes types = search (keeps_rules, block_type-SameBytes)
