-- ===== src/Embed/Instantiate.antt =====
-- src/interpreter.cpp: `instantiate` and its steps. Each adds to the store, or throws.
use web_assembly_interpreter.Base.{
  Action, Bool, List, Option, Result, String, [], check, err, false, get_elem?, gets, if◌then◌else◌,
  leb, length, lift, ltb, map, modify, none, not, ok, out_of_range, overwrite, pure, replicate,
  require, runtime_error, some, throw, trap, true, ℕ, ◌%◌, ◌&&◌, ◌*◌, ◌++◌, ◌+◌, ◌/◌, ◌==◌, ◌>>=◌,
  ◌>>◌, ◌||◌, ◌∷◌,
}
use web_assembly_interpreter.Embed.Registry.{
  Registry, emplace_key, evaluate_constant_expression, find_key, make_host_key,
}
use web_assembly_interpreter.Exec.Access.{put_memory}
use web_assembly_interpreter.Exec.Variables.{put_table}
use web_assembly_interpreter.Memory.{MemoryInstance, new_memory, over_maximum, page_size}
use web_assembly_interpreter.Module.{
  Code, ConstantExpression, DataSegment, ElementSegment, Export, ExternalKind, FunctionType, Global,
  GlobalType, ImportDesc, Limits, MemoryType, Module, RefType, TableType, import_function,
  import_global, import_memory, import_table, ref_extern, ref_func, ref_other, same_signature,
}
use web_assembly_interpreter.Store.{
  FunctionInstance, GlobalInstance, Store, TableInstance, host_code, make_null_reference,
  table_value_type, wasm_code,
}
use web_assembly_interpreter.Types.{Value, ValueType, func_ref, funcref, int32, same_type, type_of}

abbrev pub add_function : FunctionInstance → Action Store (Unit {0})
add_function f = modify (λ s. record s { functions = s.functions ++ f ∷ [] })

abbrev pub add_global : GlobalInstance → Action Store (Unit {0})
add_global g = modify (λ s. record s { globals = s.globals ++ g ∷ [] })

abbrev pub add_memory : MemoryInstance → Action Store (Unit {0})
add_memory m = modify (λ s. record s { memories = s.memories ++ m ∷ [] })

abbrev pub add_table : TableInstance → Action Store (Unit {0})
add_table t = modify (λ s. record s { tables = s.tables ++ t ∷ [] })

abbrev pub no_result : Action Store (Unit {0})
no_result = pure tt

unfoldable pub for_each :
    {A : Type 0} → (A → Action Store (Unit {0})) → List A → Action Store (Unit {0})
for_each f [] = no_result
for_each f (x ∷ xs) = f x >>= λ _. for_each f xs

abbrev pub same_maximum : Option ℕ → Option ℕ → Bool
same_maximum none none = true
same_maximum (some a) (some b) = a == b
same_maximum _ _ = false

abbrev pub same_limits : Limits → Limits → Bool
same_limits a b = a.min_size == b.min_size && same_maximum a.max_size b.max_size

abbrev pub same_ref_type : RefType → RefType → Bool
same_ref_type ref_func ref_func = true
same_ref_type ref_extern ref_extern = true
same_ref_type (ref_other a) (ref_other b) = a == b
same_ref_type _ _ = false

abbrev pub same_bool : Bool → Bool → Bool
same_bool true b = b
same_bool false b = not b

unfoldable pub resolve_function_import : Registry → List ℕ → ℕ → Action Store (Unit {0})
resolve_function_import r key index = do
  types ← gets (λ s. s.types)
  expected ←
      require (runtime_error "Imported function references invalid type index")
        (get_elem? types index)
  found ← require (runtime_error "Missing host function import: ") (find_key key r.host_functions)
  check (same_signature expected found.signature)
      (runtime_error "Host function signature mismatch for import: ")
  add_function (record { signature = found.signature; body = host_code found.callback })

-- The bytes of a registered memory, checked against the limits; none stands for fresh pages.
unfoldable pub import_contents : MemoryType → List ℕ → Result (List ℕ)
import_contents type contents =
    let size = length contents in
    if size == 0
    then ok (new_memory type).contents
    else if not (size % page_size == 0)
    then err
        (runtime_error "Host memory import size must be a multiple of the WebAssembly page size")
    else if ltb size (type.limits.min_size * page_size)
    then err (runtime_error "Host memory import smaller than declared minimum pages for import: ")
    else if over_maximum type.limits.max_size (size / page_size)
    then err (runtime_error "Host memory import exceeds declared maximum pages for import: ")
    else ok contents

unfoldable pub resolve_memory_import : Registry → List ℕ → MemoryType → Action Store (Unit {0})
resolve_memory_import r key type = do
  found ← require (runtime_error "Missing host memory import: ") (find_key key r.host_memories)
  check (same_limits found.type.limits type.limits)
      (runtime_error "Host memory limits mismatch for import: ")
  contents ← lift (import_contents type found.contents)
  add_memory (record { type = type; contents = contents })

abbrev pub all_of_type : ValueType → List Value → Bool
all_of_type t [] = true
all_of_type t (v ∷ vs) = same_type (type_of v) t && all_of_type t vs

unfoldable pub import_elements : TableType → ValueType → Value → List Value → Result (List Value)
import_elements type t null elements =
    let size = length elements in
    if size == 0
    then ok (replicate type.limits.min_size null)
    else if ltb size type.limits.min_size
    then err (runtime_error "Host table import provides fewer elements than minimum for import: ")
    else if over_maximum type.limits.max_size size
    then err (runtime_error "Host table import exceeds maximum entries for import: ")
    else if all_of_type t elements
    then ok elements
    else err (runtime_error "Host table element type mismatch for import: ")

unfoldable pub resolve_table_import : Registry → List ℕ → TableType → Action Store (Unit {0})
resolve_table_import r key type = do
  found ← require (runtime_error "Missing host table import: ") (find_key key r.host_tables)
  check
      (same_ref_type found.type.element_type type.element_type
        && same_limits found.type.limits type.limits)
      (runtime_error "Host table type mismatch for import: ")
  t ← lift (table_value_type type)
  null ← lift (make_null_reference t)
  elements ← lift (import_elements type t null found.elements)
  add_table (record { type = type; value_type = t; elements = elements })

unfoldable pub resolve_global_import : Registry → List ℕ → GlobalType → Action Store (Unit {0})
resolve_global_import r key type = do
  found ← require (runtime_error "Missing host global import: ") (find_key key r.host_globals)
  check
      (same_type found.type.value_type type.value_type
        && same_bool found.type.is_mutable type.is_mutable)
      (runtime_error "Host global type mismatch for import: ")
  check (same_type (type_of found.value) type.value_type)
      (runtime_error "Host global value type mismatch for import: ")
  add_global (record { type = type; value = found.value })

unfoldable pub resolve_import_desc : Registry → List ℕ → ImportDesc → Action Store (Unit {0})
resolve_import_desc r key (import_function index) = resolve_function_import r key index
resolve_import_desc r key (import_memory type) = resolve_memory_import r key type
resolve_import_desc r key (import_table type) = resolve_table_import r key type
resolve_import_desc r key (import_global type) = resolve_global_import r key type

unfoldable pub resolve_imports : Registry → Module → Action Store (Unit {0})
resolve_imports r m =
    for_each (λ i. resolve_import_desc r (make_host_key i.module_name i.name) i.desc) m.imports

-- The i-th declared function has the i-th body; the parser has checked that there are as many.
unfoldable pub instantiate_functions : List ℕ → List Code → Action Store (Unit {0})
instantiate_functions [] codes = no_result
instantiate_functions (index ∷ indices) [] = throw (out_of_range "codes[i]")
instantiate_functions (index ∷ indices) (code ∷ codes) = do
  types ← gets (λ s. s.types)
  signature ← require (runtime_error "Function type index out of range") (get_elem? types index)
  add_function (record { signature = signature; body = wasm_code code })
  instantiate_functions indices codes

unfoldable pub instantiate_globals : List Global → Action Store (Unit {0})
instantiate_globals = for_each (λ g. (do
  globals ← gets (λ s. s.globals)
  value ← lift (evaluate_constant_expression g.init globals)
  add_global (record { type = g.type; value = value })))

unfoldable pub instantiate_memories : List MemoryType → Action Store (Unit {0})
instantiate_memories = for_each (λ t. add_memory (new_memory t))

unfoldable pub instantiate_tables : List TableType → Action Store (Unit {0})
instantiate_tables = for_each (λ type. (do
  t ← lift (table_value_type type)
  null ← lift (make_null_reference t)
  add_table
      (record { type = type; value_type = t; elements = replicate type.limits.min_size null })))

unfoldable pub prepare_data_segments : List DataSegment → Action Store (Unit {0})
prepare_data_segments segments = modify (λ s. record s {
  data_segments =
      map (λ g. record { bytes = g.bytes; is_passive = g.is_passive; dropped = false }) segments;
})

-- the offset of a segment, an i32
unfoldable pub segment_offset : ConstantExpression → String → Action Store ℕ
segment_offset expr message = do
  globals ← gets (λ s. s.globals)
  value ← lift (evaluate_constant_expression expr globals)
  elim value [ int32 n ↦ pure n | _ ↦ throw (runtime_error message) ]

unfoldable pub apply_active_segment : DataSegment → Action Store (Unit {0})
apply_active_segment g = do
  memories ← gets (λ s. s.memories)
  memory ←
      require (runtime_error "Data segment references missing memory")
        (get_elem? memories g.memory_index)
  offset ← segment_offset g.offset "Data segment offset must be i32"
  check (leb (offset + length g.bytes) (length memory.contents)) (trap "Data segment out of bounds")
  put_memory g.memory_index (record memory { contents = overwrite memory.contents offset g.bytes })

unfoldable pub apply_data_segments : List DataSegment → Action Store (Unit {0})
apply_data_segments = for_each (λ g. if g.is_passive then no_result else apply_active_segment g)

unfoldable pub apply_element_segment : ElementSegment → Action Store (Unit {0})
apply_element_segment g = do
  tables ← gets (λ s. s.tables)
  table ←
      require (runtime_error "Element segment references missing table")
        (get_elem? tables g.table_index)
  offset ← segment_offset g.offset "Element segment offset must be i32"
  check (leb (offset + length g.func_indices) (length table.elements))
      (trap "Element segment out of bounds")
  check (length g.func_indices == 0 || same_type table.value_type funcref)
      (runtime_error "Element segment cannot initialize non-funcref table")
  put_table g.table_index table
      (overwrite table.elements offset (map (λ i. func_ref (some i)) g.func_indices))

unfoldable pub apply_element_segments : List ElementSegment → Action Store (Unit {0})
apply_element_segments = for_each apply_element_segment

abbrev pub ExportTable : Type 0
ExportTable = List (List ℕ × (ExternalKind × ℕ))

unfoldable pub build_export_table : List Export → ExportTable → ExportTable
build_export_table [] table = table
build_export_table (e ∷ es) table =
    build_export_table es (emplace_key e.name (e.kind, e.index) table)

abbrev pub empty_store : List FunctionType → Store
empty_store types = record {
  types = types;
  functions = [];
  globals = [];
  memories = [];
  tables = [];
  data_segments = [];
}

-- `instantiate` up to the start function
unfoldable pub instantiate_store : Registry → Module → Action Store (Unit {0})
instantiate_store r m = do
  resolve_imports r m
  instantiate_functions m.functions m.codes
  instantiate_globals m.globals
  instantiate_memories m.memories
  instantiate_tables m.tables
  prepare_data_segments m.data_segments
  apply_data_segments m.data_segments
  apply_element_segments m.elements
