-- ===== src/Module.antt =====
-- include/wasm/module.hpp: what a module file declares.
use web_assembly_interpreter.Base.{Bool, List, Option, [], none, switch, ℕ, ◌&&◌, ◌∷◌}
use web_assembly_interpreter.Types.{Value, ValueType, same_types}

pub record Limits : Type 0 where
  pub min_size : ℕ
  pub max_size : Option ℕ

pub data RefType : Type 0 where
  ref_func ref_extern : RefType
  ref_other : ℕ → RefType

unfoldable pub ref_type_of_byte : ℕ → RefType
ref_type_of_byte b = switch b ((0x70, ref_func) ∷ (0x6F, ref_extern) ∷ []) (ref_other b)

pub record TableType : Type 0 where
  pub element_type : RefType
  pub limits : Limits

pub record MemoryType : Type 0 where
  pub limits : Limits

pub record GlobalType : Type 0 where
  pub value_type : ValueType
  pub is_mutable : Bool

pub record FunctionType : Type 0 where
  pub params : List ValueType
  pub results : List ValueType

-- `params` and `results` both agree
unfoldable pub same_signature : FunctionType → FunctionType → Bool
unfolding same_types
same_signature f g = same_types f.params g.params && same_types f.results g.results

pub data ExternalKind : Type 0 where
  function_kind table_kind memory_kind global_kind : ExternalKind
  other_kind : ℕ → ExternalKind

unfoldable pub external_kind_of_byte : ℕ → ExternalKind
external_kind_of_byte b =
    switch b ((0, function_kind) ∷ (1, table_kind) ∷ (2, memory_kind) ∷ (3, global_kind) ∷ [])
      (other_kind b)

-- `ConstantExpression`: the kinds that carry a value differ only in how it was read.
pub data ConstantExpression : Type 0 where
  i32_const i64_const f32_const f64_const ref_null : Value → ConstantExpression
  global_get : ℕ → ConstantExpression
  ref_func_expr : ℕ → ConstantExpression

pub data ImportDesc : Type 0 where
  import_function : ℕ → ImportDesc
  import_table : TableType → ImportDesc
  import_memory : MemoryType → ImportDesc
  import_global : GlobalType → ImportDesc

-- A name is its list of bytes.
pub record Import : Type 0 where
  pub module_name : List ℕ
  pub name : List ℕ
  pub desc : ImportDesc

pub record Export : Type 0 where
  pub name : List ℕ
  pub kind : ExternalKind
  pub index : ℕ

pub record LocalDecl : Type 0 where
  pub count : ℕ
  pub type : ValueType

pub record Code : Type 0 where
  pub locals : List LocalDecl
  pub body : List ℕ

pub record Global : Type 0 where
  pub type : GlobalType
  pub init : ConstantExpression

pub record ElementSegment : Type 0 where
  pub table_index : ℕ
  pub offset : ConstantExpression
  pub func_indices : List ℕ

pub record DataSegment : Type 0 where
  pub memory_index : ℕ
  pub has_memory_index : Bool
  pub is_passive : Bool
  pub offset : ConstantExpression
  pub bytes : List ℕ

pub record Module : Type 0 where
  pub types : List FunctionType
  pub imports : List Import
  pub functions : List ℕ
  pub tables : List TableType
  pub memories : List MemoryType
  pub globals : List Global
  pub exports : List Export
  pub start_function : Option ℕ
  pub elements : List ElementSegment
  pub codes : List Code
  pub data_segments : List DataSegment

abbrev pub empty_module : Module
empty_module = record {
  types = [];
  imports = [];
  functions = [];
  tables = [];
  memories = [];
  globals = [];
  exports = [];
  start_function = none;
  elements = [];
  codes = [];
  data_segments = [];
}
