-- ===== src/Reader.antt =====
-- include/wasm/binary_reader.hpp: a cursor over bytes, fixed-width reads and LEB128.
pub mod Advance
pub mod Leb
pub mod Total
use web_assembly_interpreter.Base.{
  Action, Bool, List, bit_and, bit_or, err, get_or, if◌then◌else◌, leb, length, ltb, modify, not,
  ok, out_of_fuel, out_of_range, pure, runtime_error, suc, throw, zero, ℕ, ◌%◌, ◌&&◌, ◌*◌, ◌+◌, ◌-◌,
  ◌==◌, ◌>>=◌, ◌>>◌, ◌^◌,
}

-- A float is read as its bit pattern.
pub record Reader : Type 0 where
  pub bytes : List ℕ
  pub offset : ℕ

abbrev pub reader_at : List ℕ → ℕ → Reader
reader_at bs i = record { bytes = bs; offset = i }

unfoldable pub eof : Reader → Bool
eof r = leb (length r.bytes) r.offset

unfoldable pub set_offset : ℕ → Action Reader (Unit {0})
set_offset i r =
    if ltb (length r.bytes) i
    then err (out_of_range "BinaryReader::set_offset")
    else ok (tt, record r { offset = i })

unfoldable pub ensure_available : ℕ → Action Reader (Unit {0})
ensure_available count r =
    if ltb (length r.bytes) (r.offset + count)
    then err (out_of_range "BinaryReader::ensure_available")
    else ok (tt, r)

unfoldable pub skip_bytes : ℕ → Action Reader (Unit {0})
unfolding ensure_available ◌>>=◌
skip_bytes count = do ensure_available count; modify (λ r. record r { offset = r.offset + count })

-- `data_[offset_++]`
abbrev next_byte : Action Reader ℕ
next_byte r = ok (get_or r.bytes r.offset 0, record r { offset = suc r.offset })

unfoldable pub read_u8 : Action Reader ℕ
unfolding ensure_available ◌>>=◌
read_u8 = do ensure_available 1; next_byte

unfoldable pub read_u32 : Action Reader ℕ
unfolding ensure_available ◌>>=◌
read_u32 = do
  ensure_available 4
  b₀ ← next_byte
  b₁ ← next_byte
  b₂ ← next_byte
  b₃ ← next_byte
  pure (bit_or (bit_or (bit_or b₀ (b₁ * 2 ^ 8)) (b₂ * 2 ^ 16)) (b₃ * 2 ^ 24))

-- `result |= static_cast<T>(byte & 0x7F) << shift`, for a type of `width` bits
unfoldable pub add_group : ℕ → ℕ → ℕ → ℕ → ℕ
add_group width result byte shift = bit_or result (bit_and byte 0x7F * 2 ^ shift % 2 ^ width)

-- The loop of `read_leb_unsigned<T>`, on fuel.
unfoldable pub leb_unsigned_loop : ℕ → ℕ → ℕ → ℕ → ℕ → Action Reader ℕ
leb_unsigned_loop zero width max_bits result shift = throw out_of_fuel
leb_unsigned_loop (suc fuel) width max_bits result shift = do
  byte ← read_u8
  let result' = add_group width result byte shift
  let again = leb_unsigned_loop fuel width max_bits result' (shift + 7)
  if bit_and byte 0x80 == 0
      then pure result'
      else (if leb max_bits (shift + 7) then throw (runtime_error "LEB128 overflow") else again)

-- Each round adds 7 to `shift`, and a round that reaches `max_bits` is the last.
unfoldable pub read_leb_unsigned : ℕ → ℕ → Action Reader ℕ
read_leb_unsigned width max_bits = leb_unsigned_loop (max_bits + 1) width max_bits 0 0

-- `static_cast<T>(-1) << shift`
abbrev pub high_ones : ℕ → ℕ → ℕ
high_ones width shift = 2 ^ width - 2 ^ shift

unfoldable pub sign_extend : ℕ → ℕ → ℕ → ℕ → ℕ → ℕ
sign_extend width max_bits result byte shift =
    if ltb shift max_bits && not (bit_and byte 0x40 == 0)
    then bit_or result (high_ones width shift)
    else result

-- The loop of `read_leb_signed<T>`. The result is the pattern of a signed number.
unfoldable pub leb_signed_loop : ℕ → ℕ → ℕ → ℕ → ℕ → Action Reader ℕ
leb_signed_loop zero width max_bits result shift = throw out_of_fuel
leb_signed_loop (suc fuel) width max_bits result shift = do
  byte ← read_u8
  let result' = add_group width result byte shift
  let again = leb_signed_loop fuel width max_bits result' (shift + 7)
  if bit_and byte 0x80 == 0
      then pure (sign_extend width max_bits result' byte (shift + 7))
      else (if leb max_bits (shift + 7) then throw (runtime_error "LEB128 overflow") else again)

unfoldable pub read_leb_signed : ℕ → ℕ → Action Reader ℕ
read_leb_signed width max_bits = leb_signed_loop (max_bits + 1) width max_bits 0 0

unfoldable pub read_varuint1 : Action Reader ℕ
read_varuint1 = read_leb_unsigned 32 1

unfoldable pub read_varuint7 : Action Reader ℕ
read_varuint7 = read_leb_unsigned 32 7

unfoldable pub read_varuint32 : Action Reader ℕ
read_varuint32 = read_leb_unsigned 32 32

unfoldable pub read_varint7 : Action Reader ℕ
read_varint7 = read_leb_signed 32 7

unfoldable pub read_varint32 : Action Reader ℕ
read_varint32 = read_leb_signed 32 32

unfoldable pub read_varint64 : Action Reader ℕ
read_varint64 = read_leb_signed 64 64

unfoldable pub read_f32 : Action Reader ℕ
read_f32 = read_u32

unfoldable pub read_f64 : Action Reader ℕ
read_f64 = do lo ← read_u32; hi ← read_u32; pure (bit_or lo (hi * 2 ^ 32))
