-- ===== src/Embed/Registry.antt =====
-- src/interpreter.cpp: the host's registrations, under the key of a module name and a field name.
-- `evaluate_constant_expression` is here too.
use web_assembly_interpreter.Base.{
  Bool, List, Option, Result, [], err, false, get_elem?, if◌then◌else◌, none, ok, runtime_error,
  some, true, ℕ, ◌&&◌, ◌++◌, ◌==◌, ◌∷◌,
}
use web_assembly_interpreter.Module.{
  ConstantExpression, FunctionType, GlobalType, MemoryType, TableType, f32_const, f64_const,
  global_get, i32_const, i64_const, ref_func_expr, ref_null,
}
use web_assembly_interpreter.Store.{GlobalInstance}
use web_assembly_interpreter.Types.{Value, func_ref, same_type, type_of}

pub record HostFunctionRecord : Type 0 where
  pub signature : FunctionType
  pub callback : ℕ

pub record HostMemoryRecord : Type 0 where
  pub type : MemoryType
  pub contents : List ℕ

pub record HostTableRecord : Type 0 where
  pub type : TableType
  pub elements : List Value

pub record HostGlobalRecord : Type 0 where
  pub type : GlobalType
  pub value : Value

unfoldable pub same_bytes : List ℕ → List ℕ → Bool
same_bytes [] [] = true
same_bytes (a ∷ as') (b ∷ bs) = a == b && same_bytes as' bs
same_bytes _ _ = false

-- `module + '\0' + name`
unfoldable pub make_host_key : List ℕ → List ℕ → List ℕ
make_host_key module_name name = module_name ++ 0 ∷ name

-- An `unordered_map` from keys, as a list of entries.
module _ {A : Type 0} where
  unfoldable pub find_key : List ℕ → List (List ℕ × A) → Option A
  find_key key [] = none
  find_key key ((k, a) ∷ entries) = if same_bytes key k then some a else find_key key entries

  -- `map[key] = value`
  unfoldable pub assign_key : List ℕ → A → List (List ℕ × A) → List (List ℕ × A)
  assign_key key a [] = (key, a) ∷ []
  assign_key key a ((k, b) ∷ entries) =
      let rest = assign_key key a entries in
      if same_bytes key k then (k, a) ∷ entries else (k, b) ∷ rest

  -- `map.emplace(key, value)`, which leaves an entry that is there
  unfoldable pub emplace_key : List ℕ → A → List (List ℕ × A) → List (List ℕ × A)
  emplace_key key a entries = elim (find_key key entries) [
    | none ↦ entries ++ (key, a) ∷ []
    | some b ↦ entries
  ]

pub record Registry : Type 0 where
  pub host_functions : List (List ℕ × HostFunctionRecord)
  pub host_memories : List (List ℕ × HostMemoryRecord)
  pub host_tables : List (List ℕ × HostTableRecord)
  pub host_globals : List (List ℕ × HostGlobalRecord)

unfoldable pub register_host_function : List ℕ → List ℕ → FunctionType → ℕ → Registry → Registry
register_host_function module_name name type callback r = record r {
  host_functions =
      assign_key (make_host_key module_name name) (record { signature = type; callback = callback })
        r.host_functions;
}

unfoldable pub register_host_memory : List ℕ → List ℕ → MemoryType → List ℕ → Registry → Registry
register_host_memory module_name name type contents r = record r {
  host_memories =
      assign_key (make_host_key module_name name) (record { type = type; contents = contents })
        r.host_memories;
}

unfoldable pub register_host_table : List ℕ → List ℕ → TableType → List Value → Registry → Registry
register_host_table module_name name type elements r = record r {
  host_tables =
      assign_key (make_host_key module_name name) (record { type = type; elements = elements })
        r.host_tables;
}

unfoldable pub register_host_global :
    List ℕ → List ℕ → GlobalType → Value → Registry → Result Registry
register_host_global module_name name type value r =
    if same_type (type_of value) type.value_type
    then ok (record r {
      host_globals =
          assign_key (make_host_key module_name name) (record { type = type; value = value })
            r.host_globals;
    })
    else err (runtime_error "Host global value type mismatch for import: ")

unfoldable pub evaluate_constant_expression :
    ConstantExpression → List GlobalInstance → Result Value
evaluate_constant_expression (i32_const v) globals = ok v
evaluate_constant_expression (i64_const v) globals = ok v
evaluate_constant_expression (f32_const v) globals = ok v
evaluate_constant_expression (f64_const v) globals = ok v
evaluate_constant_expression (ref_null v) globals = ok v
evaluate_constant_expression (ref_func_expr i) globals = ok (func_ref (some i))
evaluate_constant_expression (global_get i) globals = elim (get_elem? globals i) [
  | none ↦ err (runtime_error "Constant expression global index out of bounds")
  | some g ↦ ok g.value
]
