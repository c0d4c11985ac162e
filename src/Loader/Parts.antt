-- ===== src/Loader/Parts.antt =====
-- src/module_loader.cpp: the pieces that the sections share. `reserve` and `resize` are taken to
-- find their memory.
use web_assembly_interpreter.Base.{
  Action, List, Result, String, [], bit_and, drop, err, if◌then◌else◌, length, ltb, none, not, ok,
  pure, runtime_error, some, suc, switch, take, throw, zero, ℕ, ◌+◌, ◌==◌, ◌>>=◌, ◌>>◌, ◌∷◌,
}
use web_assembly_interpreter.Module.{
  ConstantExpression, FunctionType, GlobalType, Limits, f32_const, f64_const, global_get, i32_const,
  i64_const, ref_func_expr, ref_null,
}
use web_assembly_interpreter.Reader.{
  Reader, read_f32, read_f64, read_u8, read_varint32, read_varint64, read_varint7, read_varuint1,
  read_varuint32, read_varuint7, reader_at,
}
use web_assembly_interpreter.Types.{
  ValueType, extern_ref, float32, float64, func_ref, int32, int64, value_type_of_byte,
}

-- A loop that reads `count` elements one after the other.
unfoldable pub repeat : {S A : Type 0} → ℕ → Action S A → Action S (List A)
repeat zero m = pure []
repeat (suc n) m = do x ← m; xs ← repeat n m; pure (x ∷ xs)

-- A count, and as many elements.
unfoldable pub read_vector : {A : Type 0} → Action Reader A → Action Reader (List A)
read_vector m = do count ← read_varuint32; repeat count m

-- A second reader over bytes of its own.
module _ {S A : Type 0} where
  abbrev pub drop_reader : S → Result (A × Reader) → Result (A × S)
  drop_reader s (ok (a, r)) = ok (a, s)
  drop_reader s (err e) = err e

  unfoldable pub read_within : List ℕ → Action Reader A → Action S A
  read_within bs m s = drop_reader s (m (reader_at bs 0))

-- `data.subspan(offset, size)` behind a check of the bounds
unfoldable pub subspan : String → ℕ → Action Reader (List ℕ)
subspan message size r =
    if ltb (length r.bytes) (r.offset + size)
    then err (runtime_error message)
    else ok (take size (drop r.offset r.bytes), r)

unfoldable pub read_value_type : Action Reader ValueType
read_value_type = do b ← read_varint7; pure (value_type_of_byte b)

unfoldable pub read_limits : Action Reader Limits
read_limits = do
  flags ← read_varuint1
  low ← read_varuint32
  let unbounded : Action Reader Limits = pure (record { min_size = low; max_size = none })
  let bounded : Action Reader Limits = (do
    high ← read_varuint32
    pure (record { min_size = low; max_size = some high }))
  if bit_and flags 1 == 0 then unbounded else bounded

unfoldable pub read_name : Action Reader (List ℕ)
read_name = do
  size ← read_varuint32
  subspan "Name exceeds section bounds" size
  repeat size read_u8

unfoldable pub read_global_type : Action Reader GlobalType
read_global_type = do
  type ← read_value_type
  mutability ← read_varuint1
  pure (record { value_type = type; is_mutable = not (mutability == 0) })

unfoldable pub read_function_type : Action Reader FunctionType
read_function_type = do
  form ← read_varuint7
  let body : Action Reader FunctionType = (do
    params ← read_vector read_value_type
    results ← read_vector read_value_type
    pure (record { params = params; results = results }))
  if form == 0x60 then body else throw (runtime_error "Expected function type form 0x60")

-- the cases of the switch in `parse_constant_expression`
unfoldable pub read_null_reference : Action Reader ConstantExpression
read_null_reference = do
  heap_type ← read_varuint7
  switch heap_type
      ((0x70, pure (ref_null (func_ref none))) ∷ (0x6F, pure (ref_null (extern_ref none))) ∷ [])
      (throw (runtime_error "Unsupported heap type for ref.null constant: "))

unfoldable pub read_constant : ℕ → Action Reader ConstantExpression
read_constant opcode =
    switch opcode
      ((0x41, do n ← read_varint32; pure (i32_const (int32 n)))
        ∷ (0x42, do n ← read_varint64; pure (i64_const (int64 n)))
        ∷ (0x43, do n ← read_f32; pure (f32_const (float32 n)))
        ∷ (0x44, do n ← read_f64; pure (f64_const (float64 n)))
        ∷ (0x23, do i ← read_varuint32; pure (global_get i))
        ∷ (0xD0, read_null_reference)
        ∷ (0xD2, do i ← read_varuint32; pure (ref_func_expr i))
        ∷ [])
      (throw (runtime_error "Unsupported constant expression opcode"))

unfoldable pub parse_constant_expression : Action Reader ConstantExpression
parse_constant_expression = do
  opcode ← read_u8
  expr ← read_constant opcode
  end ← read_u8
  if end == 0x0B then pure expr else throw (runtime_error "Constant expression missing end opcode")
