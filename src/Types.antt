-- ===== src/Types.antt =====
-- include/wasm/types.hpp: value types and values. A number is its bit pattern, a float too.
use web_assembly_interpreter.Base.{
  Bool, List, Option, Result, [], err, false, none, ok, runtime_error, some, switch, true, ℕ, ◌%◌,
  ◌&&◌, ◌==◌, ◌^◌, ◌∷◌,
}

pub data ValueType : Type 0 where
  i32 i64 f32 f64 funcref externref : ValueType
  -- `static_cast<ValueType>` makes a value of the enum from any byte
  unknown : ℕ → ValueType

unfoldable pub value_type_of_byte : ℕ → ValueType
value_type_of_byte b =
    switch b
      ((0x7F, i32)
        ∷ (0x7E, i64)
        ∷ (0x7D, f32)
        ∷ (0x7C, f64)
        ∷ (0x70, funcref)
        ∷ (0x6F, externref)
        ∷ [])
      (unknown b)

unfoldable pub byte_of_value_type : ValueType → ℕ
byte_of_value_type i32 = 0x7F
byte_of_value_type i64 = 0x7E
byte_of_value_type f32 = 0x7D
byte_of_value_type f64 = 0x7C
byte_of_value_type funcref = 0x70
byte_of_value_type externref = 0x6F
byte_of_value_type (unknown b) = b

-- `==` on the enum
unfoldable pub same_type : ValueType → ValueType → Bool
unfolding byte_of_value_type
same_type t u = byte_of_value_type t == byte_of_value_type u

-- `==` on `std::vector<ValueType>`
unfoldable pub same_types : List ValueType → List ValueType → Bool
unfolding same_type
same_types [] [] = true
same_types (t ∷ ts) (u ∷ us) = same_type t u && same_types ts us
same_types _ _ = false

-- The tagged union `Value`. A reference is null or holds `storage.ref`.
pub data Value : Type 0 where
  int32 int64 float32 float64 : ℕ → Value
  func_ref extern_ref : Option ℕ → Value

unfoldable pub type_of : Value → ValueType
type_of (int32 n) = i32
type_of (int64 n) = i64
type_of (float32 n) = f32
type_of (float64 n) = f64
type_of (func_ref r) = funcref
type_of (extern_ref r) = externref

-- `Value()`, which also fills a vector that is resized
abbrev pub default_value : Value
default_value = int32 0

unfoldable pub is_null_ref : Value → Bool
is_null_ref (func_ref none) = true
is_null_ref (extern_ref none) = true
is_null_ref _ = false

unfoldable pub funcref_index : Value → Result ℕ
funcref_index (func_ref (some i)) = ok (i % 2 ^ 32)
funcref_index _ = err (runtime_error "Value is not a non-null funcref")

-- `Value::as<int32_t>`
unfoldable pub as_i32 : Value → Result ℕ
as_i32 (int32 n) = ok n
as_i32 _ = err (runtime_error "Value is not i32")
