-- ===== src/Loader/Sections.antt =====
-- src/module_loader.cpp: one parser for each section. Each adds to the module what it reads.
use web_assembly_interpreter.Base.{
  Action, List, Option, [], bit_and, drop, false, gets, if◌then◌else◌, none, not, pure,
  runtime_error, some, switch, throw, true, ℕ, ◌&&◌, ◌++◌, ◌-◌, ◌==◌, ◌>>=◌, ◌>>◌, ◌∷◌,
}
use web_assembly_interpreter.Loader.Parts.{
  parse_constant_expression, read_function_type, read_global_type, read_limits, read_name,
  read_value_type, read_vector, read_within, subspan,
}
use web_assembly_interpreter.Module.{
  Code, DataSegment, ElementSegment, Export, ExternalKind, Global, Import, ImportDesc, LocalDecl,
  MemoryType, Module, TableType, external_kind_of_byte, function_kind, global_kind, i32_const,
  import_function, import_global, import_memory, import_table, memory_kind, other_kind, ref_extern,
  ref_func, ref_type_of_byte, table_kind,
}
use web_assembly_interpreter.Reader.{Reader, read_u8, read_varuint32, set_offset, skip_bytes}
use web_assembly_interpreter.Types.{default_value}

unfoldable pub parse_type_section : Module → Action Reader Module
parse_type_section m = do
  types ← read_vector read_function_type
  pure (record m { types = m.types ++ types })

-- the switch of `parse_import_section`
unfoldable pub read_import_desc : ExternalKind → Action Reader ImportDesc
read_import_desc function_kind = do i ← read_varuint32; pure (import_function i)
read_import_desc table_kind = do
  element ← read_u8
  limits ← read_limits
  pure (import_table (record { element_type = ref_type_of_byte element; limits = limits }))
read_import_desc memory_kind = do
  limits ← read_limits
  pure (import_memory (record { limits = limits }))
read_import_desc global_kind = do type ← read_global_type; pure (import_global type)
read_import_desc (other_kind b) = throw (runtime_error "Unsupported import kind")

unfoldable pub read_import : Action Reader Import
read_import = do
  module_name ← read_name
  name ← read_name
  kind ← read_u8
  desc ← read_import_desc (external_kind_of_byte kind)
  pure (record { module_name = module_name; name = name; desc = desc })

unfoldable pub parse_import_section : Module → Action Reader Module
parse_import_section m = do
  imports ← read_vector read_import
  pure (record m { imports = m.imports ++ imports })

unfoldable pub parse_function_section : Module → Action Reader Module
parse_function_section m = do
  indices ← read_vector read_varuint32
  pure (record m { functions = m.functions ++ indices })

unfoldable pub read_table_type : Action Reader TableType
read_table_type = do
  raw ← read_u8
  element ←
      switch raw ((0x70, pure ref_func) ∷ (0x6F, pure ref_extern) ∷ [])
        (throw (runtime_error "Unsupported table element type: "))
  limits ← read_limits
  pure (record { element_type = element; limits = limits })

unfoldable pub parse_table_section : Module → Action Reader Module
parse_table_section m = do
  tables ← read_vector read_table_type
  pure (record m { tables = m.tables ++ tables })

unfoldable pub read_memory_type : Action Reader MemoryType
read_memory_type = do limits ← read_limits; pure (record { limits = limits })

unfoldable pub parse_memory_section : Module → Action Reader Module
parse_memory_section m = do
  memories ← read_vector read_memory_type
  pure (record m { memories = m.memories ++ memories })

unfoldable pub read_global : Action Reader Global
read_global = do
  type ← read_global_type
  init ← parse_constant_expression
  pure (record { type = type; init = init })

unfoldable pub parse_global_section : Module → Action Reader Module
parse_global_section m = do
  globals ← read_vector read_global
  pure (record m { globals = m.globals ++ globals })

unfoldable pub read_export : Action Reader Export
read_export = do
  name ← read_name
  kind ← read_u8
  index ← read_varuint32
  pure (record { name = name; kind = external_kind_of_byte kind; index = index })

unfoldable pub parse_export_section : Module → Action Reader Module
parse_export_section m = do
  exports ← read_vector read_export
  pure (record m { exports = m.exports ++ exports })

unfoldable pub parse_start_section : Module → Action Reader Module
parse_start_section m = do index ← read_varuint32; pure (record m { start_function = some index })

-- The byte behind an offset is taken for an element kind if it is 0 or 1, and else put back.
unfoldable pub read_element_kind : Action Reader (Unit {0})
read_element_kind = do
  kind ← read_u8
  position ← gets (λ r. r.offset)
  if not (kind == 0) && not (kind == 1)
      then set_offset (position - 1)
      else (if kind == 0 then pure tt else throw (runtime_error "Unsupported element kind: "))

-- A segment that is not active is read and dropped.
unfoldable pub read_element_segment : Action Reader (Option ElementSegment)
read_element_segment = do
  flags ← read_varuint32
  let active = bit_and flags 1 == 0
  let passive : Action Reader (Option ElementSegment) = (do
    read_element_kind
    read_vector read_varuint32
    pure none)
  let indexed : Action Reader (Option ElementSegment) = (do
    table ← (if bit_and flags 2 == 0 then pure 0 else read_varuint32)
    offset ← parse_constant_expression
    read_element_kind
    indices ← read_vector read_varuint32
    pure (some (record { table_index = table; offset = offset; func_indices = indices })))
  if not (bit_and flags 4 == 0)
      then throw (runtime_error "Element segments with expressions are not supported")
      else (if active then indexed else passive)

abbrev pub present : {A : Type 0} → List (Option A) → List A
present [] = []
present (none ∷ xs) = present xs
present (some x ∷ xs) = x ∷ present xs

unfoldable pub parse_element_section : Module → Action Reader Module
parse_element_section m = do
  segments ← read_vector read_element_segment
  pure (record m { elements = m.elements ++ present segments })

unfoldable pub read_local_decl : Action Reader LocalDecl
read_local_decl = do
  count ← read_varuint32
  type ← read_value_type
  pure (record { count = count; type = type })

-- The body is what the entry holds behind its locals.
unfoldable pub read_code_entry : Action Reader Code
read_code_entry = do
  locals ← read_vector read_local_decl
  body ← gets (λ r. drop r.offset r.bytes)
  pure (record { locals = locals; body = body })

unfoldable pub read_code : Action Reader Code
read_code = do
  size ← read_varuint32
  entry ← subspan "Code entry exceeds section bounds" size
  code ← read_within entry read_code_entry
  skip_bytes size
  pure code

unfoldable pub parse_code_section : Module → Action Reader Module
parse_code_section m = do
  codes ← read_vector read_code
  pure (record m { codes = m.codes ++ codes })

-- `mode_or_index`: 0 and 2 are active, 1 is passive, and any other is a memory index.
unfoldable pub read_data_segment : Action Reader DataSegment
read_data_segment = do
  mode ← read_varuint32
  let active = λ (memory : ℕ). (do
    offset ← parse_constant_expression
    content ← read_vector read_u8
    pure (record {
      memory_index = memory;
      has_memory_index = true;
      is_passive = false;
      offset = offset;
      bytes = content;
    }))
  let passive : Action Reader DataSegment = (do
    content ← read_vector read_u8
    pure (record {
      memory_index = 0;
      has_memory_index = false;
      is_passive = true;
      offset = i32_const default_value;
      bytes = content;
    }))
  let explicit : Action Reader DataSegment = (do memory ← read_varuint32; active memory)
  switch mode ((0, active 0) ∷ (1, passive) ∷ (2, explicit) ∷ []) (active mode)

unfoldable pub parse_data_section : Module → Action Reader Module
parse_data_section m = do
  segments ← read_vector read_data_segment
  pure (record m { data_segments = m.data_segments ++ segments })

unfoldable pub parse_data_count_section : Module → Action Reader Module
parse_data_count_section m = do read_varuint32; pure m
