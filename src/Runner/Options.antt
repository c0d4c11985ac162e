-- ===== src/Runner/Options.antt =====
-- examples/run_wat_module.cpp: `parse_options` and the values of its arguments. A string is its list
-- of bytes.
use web_assembly_interpreter.Base.{
  Bool, Error, List, Option, Result, [], err, false, if◌then◌else◌, length, ltb_ℤ, negsuc, none,
  not, ok, pos, runtime_error, some, true, ℕ, ℤ, ◌&&◌, ◌++◌, ◌-◌, ◌==◌, ◌^◌, ◌∷◌,
}
use web_assembly_interpreter.Embed.Registry.{find_key}
use web_assembly_interpreter.Numeric.Word.{of_signed}
use web_assembly_interpreter.Types.{Value, extern_ref, float32, float64, func_ref, int32, int64}

pub record Options : Type 0 where
  pub module_path : List ℕ
  pub export_name : Option (List ℕ)
  pub call_args : List Value
  pub list_exports : Bool
  pub list_imports : Bool
  pub skip_invoke : Bool
  pub wasi_args : List (List ℕ)
  pub wasi_env : List (List ℕ)

abbrev pub no_options : Options
no_options = record {
  module_path = [];
  export_name = none;
  call_args = [];
  list_exports = false;
  list_imports = false;
  skip_invoke = false;
  wasi_args = [];
  wasi_env = [];
}

-- The C++ library's number parsers, a parameter: the number, or the bits of a float, and how many
-- characters it takes.
pub record NumberParsers : Type 0 where
  pub stoll : List ℕ → Result (ℤ × ℕ)
  pub stof : List ℕ → Result (ℕ × ℕ)
  pub stod : List ℕ → Result (ℕ × ℕ)

-- `consumed != text.size()` after a parse, and what throws in it
unfoldable pub whole_number : {A : Type 0} → List ℕ → Result (A × ℕ) → Result A
whole_number text (err e) = err (runtime_error "failed to parse argument ")
whole_number text (ok (a, consumed)) =
    if consumed == length text then ok a else err (runtime_error "trailing characters in argument ")

unfoldable pub in_i32_range : ℤ → Bool
in_i32_range n = not (ltb_ℤ n (negsuc (2 ^ 31 - 1))) && not (ltb_ℤ (pos (2 ^ 31 - 1)) n)

module _ (parsers : NumberParsers) where
  unfoldable pub make_value_i32 : List ℕ → Result Value
  make_value_i32 text = elim (whole_number text (parsers.stoll text)) [
    | err e ↦ err e
    | ok n ↦
        if in_i32_range n
        then ok (int32 (of_signed 32 n))
        else err (runtime_error "i32 argument out of range: ")
  ]

  unfoldable pub make_value_i64 : List ℕ → Result Value
  make_value_i64 text = elim (whole_number text (parsers.stoll text)) [
    | err e ↦ err e
    | ok n ↦ ok (int64 (of_signed 64 n))
  ]

  unfoldable pub make_value_f32 : List ℕ → Result Value
  make_value_f32 text = elim (whole_number text (parsers.stof text)) [
    | err e ↦ err e
    | ok n ↦ ok (float32 n)
  ]

  unfoldable pub make_value_f64 : List ℕ → Result Value
  make_value_f64 text = elim (whole_number text (parsers.stod text)) [
    | err e ↦ err e
    | ok n ↦ ok (float64 n)
  ]

-- The options that take the next argument.
pub data Awaited : Type 0 where
  invoke_name i32_value i64_value f32_value f64_value wasi_arg_value wasi_env_value : Awaited

-- The outcome: the options, the usage message, or an exception.
pub data ParsedOptions : Type 0 where
  parsed : Options → ParsedOptions
  usage : ParsedOptions
  bad_options : Error → ParsedOptions

-- What an argument is, by its text.
pub data ArgumentKind : Type 0 where
  help null_funcref null_externref exports_flag imports_flag no_run_flag : ArgumentKind
  awaits : Awaited → ArgumentKind
  unrecognized path : ArgumentKind

-- the names of the options
abbrev pub option_table : List (List ℕ × ArgumentKind)
option_table =
    ((0x2D ∷ 0x2D ∷ 0x68 ∷ 0x65 ∷ 0x6C ∷ 0x70 ∷ []), help)
    ∷ ((0x2D ∷ 0x68 ∷ []), help)
    ∷ ((0x2D ∷ 0x2D ∷ 0x69 ∷ 0x6E ∷ 0x76 ∷ 0x6F ∷ 0x6B ∷ 0x65 ∷ []), awaits invoke_name)
    ∷ ((0x2D ∷ 0x2D ∷ 0x61 ∷ 0x72 ∷ 0x67 ∷ 0x2D ∷ 0x69 ∷ 0x33 ∷ 0x32 ∷ []), awaits i32_value)
    ∷ ((0x2D ∷ 0x2D ∷ 0x61 ∷ 0x72 ∷ 0x67 ∷ 0x2D ∷ 0x69 ∷ 0x36 ∷ 0x34 ∷ []), awaits i64_value)
    ∷ ((0x2D ∷ 0x2D ∷ 0x61 ∷ 0x72 ∷ 0x67 ∷ 0x2D ∷ 0x66 ∷ 0x33 ∷ 0x32 ∷ []), awaits f32_value)
    ∷ ((0x2D ∷ 0x2D ∷ 0x61 ∷ 0x72 ∷ 0x67 ∷ 0x2D ∷ 0x66 ∷ 0x36 ∷ 0x34 ∷ []), awaits f64_value)
    ∷ (
      (0x2D ∷ 0x2D ∷ 0x61 ∷ 0x72 ∷ 0x67 ∷ 0x2D ∷ 0x66 ∷ 0x75 ∷ 0x6E ∷ 0x63 ∷ 0x72 ∷ 0x65 ∷ 0x66
          ∷ 0x2D ∷ 0x6E ∷ 0x75 ∷ 0x6C ∷ 0x6C ∷ []),
      null_funcref,
    )
    ∷ (
      (0x2D ∷ 0x2D ∷ 0x61 ∷ 0x72 ∷ 0x67 ∷ 0x2D ∷ 0x65 ∷ 0x78 ∷ 0x74 ∷ 0x65 ∷ 0x72 ∷ 0x6E ∷ 0x72
          ∷ 0x65 ∷ 0x66 ∷ 0x2D ∷ 0x6E ∷ 0x75 ∷ 0x6C ∷ 0x6C ∷ []),
      null_externref,
    )
    ∷ (
      (0x2D ∷ 0x2D ∷ 0x6C ∷ 0x69 ∷ 0x73 ∷ 0x74 ∷ 0x2D ∷ 0x65 ∷ 0x78 ∷ 0x70 ∷ 0x6F ∷ 0x72 ∷ 0x74
          ∷ 0x73 ∷ []),
      exports_flag,
    )
    ∷ (
      (0x2D ∷ 0x2D ∷ 0x6C ∷ 0x69 ∷ 0x73 ∷ 0x74 ∷ 0x2D ∷ 0x69 ∷ 0x6D ∷ 0x70 ∷ 0x6F ∷ 0x72 ∷ 0x74
          ∷ 0x73 ∷ []),
      imports_flag,
    )
    ∷ ((0x2D ∷ 0x2D ∷ 0x6E ∷ 0x6F ∷ 0x2D ∷ 0x72 ∷ 0x75 ∷ 0x6E ∷ []), no_run_flag)
    ∷ (
      (0x2D ∷ 0x2D ∷ 0x77 ∷ 0x61 ∷ 0x73 ∷ 0x69 ∷ 0x2D ∷ 0x61 ∷ 0x72 ∷ 0x67 ∷ []),
      awaits wasi_arg_value,
    )
    ∷ (
      (0x2D ∷ 0x2D ∷ 0x77 ∷ 0x61 ∷ 0x73 ∷ 0x69 ∷ 0x2D ∷ 0x65 ∷ 0x6E ∷ 0x76 ∷ []),
      awaits wasi_env_value,
    )
    ∷ []

-- neither a name of the table nor one with a dash first is the module's path
unfoldable pub argument_kind : List ℕ → ArgumentKind
argument_kind text = elim (find_key text option_table) [
  | some kind ↦ kind
  | none ↦ elim text [ [] ↦ path | c ∷ cs ↦ if c == 0x2D then unrecognized else path ]
]

abbrev pub add_value : Options → Result Value → Result Options
add_value options (ok v) = ok (record options { call_args = options.call_args ++ v ∷ [] })
add_value options (err e) = err e

abbrev pub missing_value : Awaited → Error
missing_value invoke_name = runtime_error "--invoke requires a following name"
missing_value i32_value = runtime_error "--arg-i32 requires a value"
missing_value i64_value = runtime_error "--arg-i64 requires a value"
missing_value f32_value = runtime_error "--arg-f32 requires a value"
missing_value f64_value = runtime_error "--arg-f64 requires a value"
missing_value wasi_arg_value = runtime_error "--wasi-arg requires a value"
missing_value wasi_env_value = runtime_error "--wasi-env requires KEY=VALUE"

module _ (parsers : NumberParsers) where
  -- the argument behind an option
  unfoldable pub take_value : Awaited → List ℕ → Options → Result Options
  take_value invoke_name text options = ok (record options { export_name = some text })
  take_value i32_value text options = add_value options (make_value_i32 parsers text)
  take_value i64_value text options = add_value options (make_value_i64 parsers text)
  take_value f32_value text options = add_value options (make_value_f32 parsers text)
  take_value f64_value text options = add_value options (make_value_f64 parsers text)
  take_value wasi_arg_value text options =
      ok (record options { wasi_args = options.wasi_args ++ text ∷ [] })
  take_value wasi_env_value text options =
      ok (record options { wasi_env = options.wasi_env ++ text ∷ [] })

  -- The loop; `awaited` is an option whose value comes next.
  unfoldable pub parse_loop : Option Awaited → List (List ℕ) → Options → ParsedOptions
  parse_loop none [] options =
      if length options.module_path == 0
      then bad_options (runtime_error "missing module path")
      else parsed options
  parse_loop (some awaited) [] options = bad_options (missing_value awaited)
  parse_loop (some awaited) (text ∷ args) options =
      let rest = parse_loop none args in
      elim (take_value awaited text options) [ ok options' ↦ rest options' | err e ↦ bad_options e ]
  parse_loop none (text ∷ args) options =
      let rest = parse_loop none args in
      let rest_after = λ (a : Awaited). parse_loop (some a) args options in
      elim (argument_kind text) [
        | help ↦ usage
        | null_funcref ↦
            rest (record options { call_args = options.call_args ++ func_ref none ∷ [] })
        | null_externref ↦
            rest (record options { call_args = options.call_args ++ extern_ref none ∷ [] })
        | exports_flag ↦ rest (record options { list_exports = true })
        | imports_flag ↦ rest (record options { list_imports = true })
        | no_run_flag ↦ rest (record options { skip_invoke = true })
        | awaits a ↦ rest_after a
        | unrecognized ↦ bad_options (runtime_error "unrecognized option ")
        | path ↦
            if length options.module_path == 0
            then rest (record options { module_path = text })
            else bad_options (runtime_error "multiple modules specified: ")
      ]

  -- the arguments behind the program's name
  unfoldable pub parse_options : List (List ℕ) → ParsedOptions
  parse_options args = if length args == 0 then usage else parse_loop none args no_options
