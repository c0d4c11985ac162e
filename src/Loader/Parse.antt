-- ===== src/Loader/Parse.antt =====
-- src/module_loader.cpp: the header, the loop over the sections, and `parse_module`.
use web_assembly_interpreter.Base.{
  Action, Bool, List, Result, [], err, false, gets, if◌then◌else◌, length, ok, out_of_fuel, pure,
  runtime_error, suc, switch, throw, true, zero, ℕ, ◌+◌, ◌==◌, ◌>>=◌, ◌>>◌, ◌∷◌,
}
use web_assembly_interpreter.Loader.Parts.{read_within, subspan}
use web_assembly_interpreter.Loader.Sections.{
  parse_code_section, parse_data_count_section, parse_data_section, parse_element_section,
  parse_export_section, parse_function_section, parse_global_section, parse_import_section,
  parse_memory_section, parse_start_section, parse_table_section, parse_type_section,
}
use web_assembly_interpreter.Module.{Module, empty_module}
use web_assembly_interpreter.Reader.{
  Reader, eof, read_u32, read_u8, read_varuint32, reader_at, skip_bytes,
}

abbrev pub wasm_magic : ℕ
wasm_magic = 0x6D736100

abbrev pub wasm_version : ℕ
wasm_version = 1

pub record Section : Type 0 where
  pub id : ℕ
  pub payload : List ℕ

unfoldable pub parse_header : Action Reader (Unit {0})
parse_header = do
  magic ← read_u32
  let rest : Action Reader (Unit {0}) = (do
    version ← read_u32
    if version == wasm_version then pure tt else throw (runtime_error "Unsupported WASM version"))
  if magic == wasm_magic then rest else throw (runtime_error "Invalid WASM magic number")

unfoldable pub read_section : Action Reader Section
read_section = do
  id ← read_u8
  size ← read_varuint32
  payload ← subspan "Section size exceeds module bounds" size
  skip_bytes size
  pure (record { id = id; payload = payload })

-- the switch on the section id
unfoldable pub parse_section : ℕ → Module → Action Reader Module
parse_section id m =
    switch id
      ((0, pure m)
        ∷ (1, parse_type_section m)
        ∷ (2, parse_import_section m)
        ∷ (3, parse_function_section m)
        ∷ (4, parse_table_section m)
        ∷ (5, parse_memory_section m)
        ∷ (6, parse_global_section m)
        ∷ (7, parse_export_section m)
        ∷ (8, parse_start_section m)
        ∷ (9, parse_element_section m)
        ∷ (10, parse_code_section m)
        ∷ (11, parse_data_section m)
        ∷ (12, parse_data_count_section m)
        ∷ [])
      (throw (runtime_error "Unsupported section id: "))

abbrev pub is_empty : List ℕ → Bool
is_empty [] = true
is_empty (b ∷ bs) = false

-- One round of the loop: a section with no payload is passed over.
unfoldable pub parse_next : Module → Action Reader Module
parse_next m = do
  section ← read_section
  if is_empty section.payload
      then pure m
      else read_within section.payload (parse_section section.id m)

-- The loop, on fuel: a round takes a byte at least.
unfoldable pub parse_sections : ℕ → Module → Action Reader Module
parse_sections zero m = throw out_of_fuel
parse_sections (suc fuel) m = do
  done ← gets eof
  let round : Action Reader Module = (do m' ← parse_next m; parse_sections fuel m')
  if done then pure m else round

unfoldable pub parse : Action Reader Module
parse = do
  parse_header
  fuel ← gets (λ r. length r.bytes + 1)
  m ← parse_sections fuel empty_module
  if length m.functions == length m.codes
      then pure m
      else throw (runtime_error "Function and code section size mismatch")

-- `parse_module`
unfoldable pub parse_module : List ℕ → Result Module
parse_module bs = elim (parse (reader_at bs 0)) [ ok (m, r) ↦ ok m | err e ↦ err e ]
