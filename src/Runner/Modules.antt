-- ===== src/Runner/Modules.antt =====
-- examples/run_wat_module.cpp: `ModuleIntrospector`, `detect_default_export` and
-- `validate_arguments`.
use web_assembly_interpreter.Base.{
  Bool, List, Option, Result, [], err, false, get_elem?, if◌then◌else◌, length, none, ok,
  runtime_error, some, true, ℕ, ◌&&◌, ◌+◌, ◌-◌, ◌==◌, ◌||◌, ◌∷◌,
}
use web_assembly_interpreter.Embed.Registry.{same_bytes}
use web_assembly_interpreter.Module.{
  Export, ExternalKind, FunctionType, Import, Module, function_kind, import_function, import_global,
  import_memory, import_table,
}
use web_assembly_interpreter.Types.{Value, ValueType, same_type, type_of}

-- What the loop over the imports comes to: the import that was looked for, or how many there are.
pub data ImportSearch : Type 0 where
  at_import : ℕ → ImportSearch
  passed : ℕ → ImportSearch

unfoldable pub search_imports : List Import → ℕ → ℕ → ImportSearch
search_imports [] index imports_seen = passed imports_seen
search_imports (i ∷ imports) index imports_seen =
    let next = search_imports imports index (imports_seen + 1) in
    let skipped = search_imports imports index imports_seen in
    elim i.desc [
      | import_function t ↦ if index == imports_seen then at_import t else next
      | import_table t ↦ skipped
      | import_memory t ↦ skipped
      | import_global t ↦ skipped
    ]

-- An index that no import takes is no less than their number, so the difference does not wrap.
unfoldable pub function_type : Module → ℕ → Option FunctionType
function_type m index = elim (search_imports m.imports index 0) [
  | at_import t ↦ get_elem? m.types t
  | passed imports_seen ↦ elim (get_elem? m.functions (index - imports_seen)) [
    | none ↦ none
    | some t ↦ get_elem? m.types t
  ]
]

abbrev pub is_function_kind : ExternalKind → Bool
is_function_kind function_kind = true
is_function_kind _ = false

-- The first export of the name that has a type.
unfoldable pub find_export_type : Module → List Export → List ℕ → Option FunctionType
find_export_type m [] name = none
find_export_type m (e ∷ exports) name =
    let rest = find_export_type m exports name in
    if is_function_kind e.kind && same_bytes e.name name
    then elim (function_type m e.index) [ some t ↦ some t | none ↦ rest ]
    else rest

unfoldable pub export_function_type : Module → List ℕ → Option FunctionType
export_function_type m name = find_export_type m m.exports name

abbrev has_export : List Export → List ℕ → Bool
has_export [] name = false
has_export (e ∷ exports) name =
    is_function_kind e.kind && same_bytes e.name name || has_export exports name

abbrev first_export : List Export → List ℕ
first_export [] = []
first_export (e ∷ exports) = if is_function_kind e.kind then e.name else first_export exports

-- "_start" and "main"
abbrev pub start_name : List ℕ
start_name = 0x5F ∷ 0x73 ∷ 0x74 ∷ 0x61 ∷ 0x72 ∷ 0x74 ∷ []

abbrev pub main_name : List ℕ
main_name = 0x6D ∷ 0x61 ∷ 0x69 ∷ 0x6E ∷ []

unfoldable pub detect_default_export : Module → List ℕ
detect_default_export m =
    if has_export m.exports start_name
    then start_name
    else if has_export m.exports main_name
    then main_name
    else first_export m.exports

unfoldable pub check_types : List ValueType → List Value → Result (Unit {0})
check_types (t ∷ ts) (v ∷ vs) =
    let rest = check_types ts vs in
    if same_type t (type_of v) then rest else err (runtime_error "argument type mismatch")
check_types _ _ = ok tt

unfoldable pub validate_arguments : FunctionType → List Value → Result (Unit {0})
validate_arguments signature args =
    if length signature.params == length args
    then check_types signature.params args
    else err (runtime_error "argument count mismatch")
