-- ===== src/Tests/Numbers.antt =====
-- The properties of reads, numbers and memories at concrete inputs.
use web_assembly_interpreter.Base.{
  [], arith, err, get_elem?, inr, length, ok, refl, some, trap, ℕ, ◌%◌, ◌*◌, ◌+◌, ◌-◌, ◌<◌, ◌^◌,
  ◌∷◌, ◌≡◌, ◌≤◌, ◌⊎◌,
}
use web_assembly_interpreter.Memory.{
  MemArg, MemoryInstance, checked_address, grow, page_size, read_value, resize_bytes, size_in_pages,
  write_value,
}
use web_assembly_interpreter.Memory.Access.{
  checked_address-cases, read_value-write_value, write_value-outside,
}
use web_assembly_interpreter.Memory.Size.{IsSized, grow-IsSized}
use web_assembly_interpreter.Numeric.Count.{clz-highest, ctz-lowest, rotr-rotl}
use web_assembly_interpreter.Numeric.Division.{div_s-rem_s}
use web_assembly_interpreter.Numeric.Extend.{to_signed-extend_s}
use web_assembly_interpreter.Numeric.Word.{
  clz, ctz, div_s, extend_s, minus_one, rem_s, rotl, rotr, sign_bound, to_signed,
}
use web_assembly_interpreter.Reader.{read_varuint32, reader_at}
use web_assembly_interpreter.Reader.Leb.{leb128, read_varuint32-leb128}
use web_assembly_interpreter.Samples.{small_memory}

read_varuint32-leb128_example :
    read_varuint32 (reader_at (0xE5 ∷ 0x8E ∷ 0x26 ∷ 0x0B ∷ []) 0)
    ≡ ok (624485, reader_at (0xE5 ∷ 0x8E ∷ 0x26 ∷ 0x0B ∷ []) 3)
unfolding leb128
read_varuint32-leb128_example =
    read_varuint32-leb128 624485 (reader_at (0xE5 ∷ 0x8E ∷ 0x26 ∷ 0x0B ∷ []) 0) (0x0B ∷ [])
      (omega arith) refl

abbrev at_three : MemArg
at_three = record { align = 0; offset = 3 }

checked_address-cases_example :
    ((1 + 3 + 4 ≤ 8) × (checked_address 1 at_three 4 small_memory ≡ ok 4))
    ⊎ ((8 < 1 + 3 + 4)
        × (checked_address 1 at_three 4 small_memory ≡ err (trap "Memory access out of bounds")))
checked_address-cases_example =
    checked_address-cases 1 4 at_three small_memory (omega arith) (omega arith)

read_value-write_value_example :
    read_value 4 (write_value 4 small_memory.contents 2 0xDEADBEEF) 2 ≡ 0xDEADBEEF % 256 ^ 4
read_value-write_value_example =
    read_value-write_value 4 small_memory.contents 2 0xDEADBEEF (omega arith)

write_value-outside_example :
    get_elem? (write_value 4 small_memory.contents 2 0xDEADBEEF) 6 ≡ some 7
write_value-outside_example =
    write_value-outside 4 small_memory.contents 2 0xDEADBEEF 6 (inr (omega arith))

abbrev empty_memory : MemoryInstance
empty_memory = record {
  type = record { limits = record { min_size = 0; max_size = some 2 } };
  contents = [];
}

empty_memory-IsSized : IsSized empty_memory
empty_memory-IsSized = record { whole = refl; addressable = omega arith; within = refl }

abbrev one_page : MemoryInstance
one_page = record empty_memory { contents = resize_bytes page_size [] }

grow_one : grow 1 empty_memory ≡ some one_page
unfolding grow size_in_pages
grow_one = refl

grow-IsSized_example : IsSized one_page × (0 ≤ length one_page.contents)
grow-IsSized_example = grow-IsSized 1 empty_memory one_page empty_memory-IsSized grow_one

clz-highest_example :
    (clz 32 1000 < 32) × ((2 ^ (32 - clz 32 1000) ≤ 2 * 1000) × (1000 < 2 ^ (32 - clz 32 1000)))
clz-highest_example = clz-highest 32 1000 (omega arith) (omega arith)

ctz-lowest_example : (b : ℕ) × ((1000 ≡ (2 * b + 1) * 2 ^ ctz 32 1000) × (ctz 32 1000 < 32))
ctz-lowest_example = ctz-lowest 32 1000 (omega arith) (omega arith)

rotr-rotl_example : rotr 32 (rotl 32 0xDEADBEEF 9) 9 ≡ 0xDEADBEEF
rotr-rotl_example = rotr-rotl 32 0xDEADBEEF 9 (omega arith) (omega arith)

-- -7 divided by 2
abbrev dividend : ℕ
dividend = 2 ^ 32 - 7

abbrev divisor : ℕ
divisor = 2

div_s-rem_s_example :
    ((divisor ≡ 0)
      × ((div_s 32 dividend divisor ≡ err (trap "Integer divide by zero"))
          × (rem_s 32 dividend divisor ≡ err (trap "Integer remainder by zero"))))
    ⊎ (((dividend ≡ sign_bound 32) × (divisor ≡ minus_one 32))
          × ((div_s 32 dividend divisor ≡ err (trap "Integer overflow"))
              × (rem_s 32 dividend divisor ≡ ok 0))
        ⊎ ((q : ℕ) × ((r : ℕ) × ((div_s 32 dividend divisor ≡ ok q)
                × ((rem_s 32 dividend divisor ≡ ok r) × ((q * divisor + r) % 2 ^ 32 ≡ dividend))))))
div_s-rem_s_example = div_s-rem_s 32 dividend divisor (omega arith) (omega arith) (omega arith)

to_signed-extend_s_example : to_signed 32 (extend_s 8 32 0xFF) ≡ to_signed 8 (0xFF % 2 ^ 8)
to_signed-extend_s_example = to_signed-extend_s 8 32 0xFF (omega arith) (omega arith)
