-- ===== src/Store.antt =====
-- src/interpreter.cpp: what an instantiated module owns: functions, globals, memories, tables and
-- data segments, with the types of `module_`.
pub mod Extends
use web_assembly_interpreter.Base.{Bool, List, Result, err, none, ok, runtime_error, ℕ}
use web_assembly_interpreter.Memory.{MemoryInstance}
use web_assembly_interpreter.Module.{
  Code, FunctionType, GlobalType, TableType, ref_extern, ref_func, ref_other,
}
use web_assembly_interpreter.Types.{
  Value, ValueType, extern_ref, externref, f32, f64, float32, float64, func_ref, funcref, i32, i64,
  int32, int64, unknown,
}

pub record GlobalInstance : Type 0 where
  pub type : GlobalType
  pub value : Value

pub record TableInstance : Type 0 where
  pub type : TableType
  pub value_type : ValueType
  pub elements : List Value

pub record DataSegmentInstance : Type 0 where
  pub bytes : List ℕ
  pub is_passive : Bool
  pub dropped : Bool

-- A host callback goes by a number; the embedder's code answers it.
pub data FunctionBody : Type 0 where
  wasm_code : Code → FunctionBody
  host_code : ℕ → FunctionBody

pub record FunctionInstance : Type 0 where
  pub signature : FunctionType
  pub body : FunctionBody

pub record Store : Type 0 where
  pub types : List FunctionType
  pub functions : List FunctionInstance
  pub globals : List GlobalInstance
  pub memories : List MemoryInstance
  pub tables : List TableInstance
  pub data_segments : List DataSegmentInstance

unfoldable pub zero_value : ValueType → Result Value
zero_value i32 = ok (int32 0)
zero_value i64 = ok (int64 0)
zero_value f32 = ok (float32 0)
zero_value f64 = ok (float64 0)
zero_value funcref = ok (func_ref none)
zero_value externref = ok (extern_ref none)
zero_value (unknown b) = err (runtime_error "Unsupported value type for zero initialization")

unfoldable pub table_value_type : TableType → Result ValueType
table_value_type t = elim t.element_type [
  | ref_func ↦ ok funcref
  | ref_extern ↦ ok externref
  | ref_other b ↦ err (runtime_error "Unsupported table reference type")
]

unfoldable pub make_null_reference : ValueType → Result Value
make_null_reference funcref = ok (func_ref none)
make_null_reference externref = ok (extern_ref none)
make_null_reference _ = err (runtime_error "make_null_reference called with non-reference type")
