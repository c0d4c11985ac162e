-- ===== src/Embed/Functions/Instance.antt =====
-- `instantiate`, phase by phase, and the functions.
use web_assembly_interpreter.Base.{
  ==_iff, Action, Ensures, Ensures-ok, List, Option, String, [], get_elem?, gets, modify, none, ok,
  pure, refl, require, runtime_error, some, sym, throw, throws, true, ℕ, ◌++◌, ◌>>=◌, ◌∷◌, ◌≡◌,
}
use web_assembly_interpreter.Embed.Functions.{
  Adds, Adds-bind, Adds-if, Adds-last, AllMade, Gains, Gains-then, Origin, Stays-bind,
  Stays-for_each, Stays-gets, Stays-lift, Stays-modify, Stays-pure, Stays-throw, add_global-Stays,
  add_memory-Stays, add_table-Stays, declared_origins, function_import-Adds, imported_origins,
  registered, stay_rules,
}
use web_assembly_interpreter.Embed.Instantiate.{
  add_function, apply_active_segment, apply_data_segments, apply_element_segment,
  apply_element_segments, empty_store, for_each, instantiate_functions, instantiate_globals,
  instantiate_memories, instantiate_store, instantiate_tables, prepare_data_segments,
  resolve_global_import, resolve_import_desc, resolve_imports, resolve_memory_import,
  resolve_table_import, segment_offset,
}
use web_assembly_interpreter.Embed.Registry.{Registry, find_key, make_host_key}
use web_assembly_interpreter.Exec.Access.{put_memory}
use web_assembly_interpreter.Exec.Variables.{put_table}
use web_assembly_interpreter.Memory.{MemoryInstance, new_memory}
use web_assembly_interpreter.Module.{
  Code, ConstantExpression, DataSegment, ElementSegment, FunctionType, GlobalType, Import,
  ImportDesc, MemoryType, Module, TableType, import_function, import_global, import_memory,
  import_table, same_signature,
}
use web_assembly_interpreter.Store.{Store, TableInstance, wasm_code}
use web_assembly_interpreter.Types.{
  Value, ValueType, byte_of_value_type, extern_ref, float32, float64, func_ref, int32, int64,
  same_type, same_types,
}
use mathlib.Core.Path.{subst}

resolve_memory-Stays :
    (r : Registry) (key : List ℕ) (t : MemoryType) → Adds [] (resolve_memory_import r key t)
unfolding resolve_memory_import
resolve_memory-Stays r key t = search (stay_rules, add_memory-Stays) depth 20

resolve_table-Stays :
    (r : Registry) (key : List ℕ) (t : TableType) → Adds [] (resolve_table_import r key t)
unfolding resolve_table_import
resolve_table-Stays r key t = search (stay_rules, add_table-Stays) depth 20

resolve_global-Stays :
    (r : Registry) (key : List ℕ) (t : GlobalType) → Adds [] (resolve_global_import r key t)
unfolding resolve_global_import
resolve_global-Stays r key t = search (stay_rules, add_global-Stays) depth 20

imports-Adds :
    (r : Registry) (imports : List Import)
    → Adds
        (imported_origins r imports)
        (for_each (λ i. resolve_import_desc r (make_host_key i.module_name i.name) i.desc) imports)
unfolding for_each resolve_import_desc
imports-Adds r [] = Stays-pure tt
imports-Adds r (i ∷ imports) = by_desc i.desc (imports-Adds r imports)
  where
    rest : Action Store (Unit {0})
    rest = for_each (λ i. resolve_import_desc r (make_host_key i.module_name i.name) i.desc) imports

    by_desc :
        (d : ImportDesc)
        → Adds (imported_origins r imports) rest
        → Adds
            (elim d [
              | import_function t ↦
                  (t, registered (find_key (make_host_key i.module_name i.name) r.host_functions))
                  ∷ imported_origins r imports
              | import_table t ↦ imported_origins r imports
              | import_memory t ↦ imported_origins r imports
              | import_global t ↦ imported_origins r imports
            ])
            (resolve_import_desc r (make_host_key i.module_name i.name) d >>= λ u. rest)
    by_desc (import_function t) h = Adds-bind (_ ∷ []) _ _ _ (function_import-Adds r _ t) (λ u. h)
    by_desc (import_table t) h = Adds-bind [] _ _ _ (resolve_table-Stays r _ t) (λ u. h)
    by_desc (import_memory t) h = Adds-bind [] _ _ _ (resolve_memory-Stays r _ t) (λ u. h)
    by_desc (import_global t) h = Adds-bind [] _ _ _ (resolve_global-Stays r _ t) (λ u. h)

same_types_refl : (ts : List ValueType) → same_types ts ts ≡ true
unfolding same_types same_type
same_types_refl [] = refl
same_types_refl (t ∷ ts) =
    rw ((==_iff (byte_of_value_type t) (byte_of_value_type t)).1 refl) (same_types_refl ts)

same_signature_refl : (t : FunctionType) → same_signature t t ≡ true
unfolding same_signature
same_signature_refl t = rw (same_types_refl t.params) (same_types_refl t.results)

-- A declared function.
declared-Adds :
    (indices : List ℕ) (codes : List Code)
    → Adds (declared_origins indices codes) (instantiate_functions indices codes)
unfolding instantiate_functions gets require modify ◌>>=◌
declared-Adds [] codes = Stays-pure tt
declared-Adds (index ∷ indices) [] = record { at = λ s. unfold throw in throws }
declared-Adds (index ∷ indices) (code ∷ codes) = record {
  at = λ s. by_type s (get_elem? s.types index) refl (declared-Adds indices codes);
}
  where
    by_type :
        (s : Store) (o : Option FunctionType)
        → get_elem? s.types index ≡ o
        → Adds (declared_origins indices codes) (instantiate_functions indices codes)
        → Ensures (Gains (declared_origins (index ∷ indices) (code ∷ codes)) s) (
            (require (runtime_error "Function type index out of range") o >>= λ signature.
            (add_function (record { signature = signature; body = wasm_code code }) >>= λ u.
            instantiate_functions indices codes))
              s)
    by_type s none at h = throws
    by_type s (some t) at h =
        Gains-then ((index, some (wasm_code code)) ∷ []) (declared_origins indices codes) s _ _
          (record {
            types = refl;
            added = record { signature = t; body = wasm_code code } ∷ [];
            functions = refl;
            made =
                (record { type = t; named = at; agrees = same_signature_refl t; body = refl }, tt);
          })
          (h.at _)

put_memory-Stays : (i : ℕ) (m : MemoryInstance) → Adds [] (put_memory i m)
unfolding put_memory
put_memory-Stays i m = Stays-modify _ (λ s. (refl, refl))

put_table-Stays : (i : ℕ) (t : TableInstance) (vs : List Value) → Adds [] (put_table i t vs)
unfolding put_table
put_table-Stays i t vs = Stays-modify _ (λ s. (refl, refl))

offset-Stays : (e : ConstantExpression) (message : String) → Adds [] (segment_offset e message)
unfolding segment_offset
offset-Stays e message =
    Stays-bind _ _ (Stays-gets _) λ globals. Stays-bind _ _ (Stays-lift _) by_value
  where
    by_value :
        (v : Value) → Adds [] (elim v [ int32 n ↦ pure n | _ ↦ throw (runtime_error message) ])
    by_value (int32 n) = Stays-pure n
    by_value (int64 n) = Stays-throw _
    by_value (float32 n) = Stays-throw _
    by_value (float64 n) = Stays-throw _
    by_value (func_ref r) = Stays-throw _
    by_value (extern_ref r) = Stays-throw _

data_segment-Stays : (g : DataSegment) → Adds [] (apply_active_segment g)
unfolding apply_active_segment
data_segment-Stays g = search (stay_rules, offset-Stays, put_memory-Stays) depth 20

element_segment-Stays : (g : ElementSegment) → Adds [] (apply_element_segment g)
unfolding apply_element_segment
element_segment-Stays g = search (stay_rules, offset-Stays, put_table-Stays) depth 20

-- what the functions of an instance are made of
abbrev pub origins : Registry → Module → List Origin
origins r m = imported_origins r m.imports ++ declared_origins m.functions m.codes

instance-Adds : (r : Registry) (m : Module) → Adds (origins r m) (instantiate_store r m)
unfolding instantiate_store resolve_imports instantiate_globals instantiate_memories
    instantiate_tables prepare_data_segments apply_data_segments apply_element_segments
instance-Adds r m =
    Adds-bind (imported_origins r m.imports) (declared_origins m.functions m.codes) _ _
      (imports-Adds r m.imports)
      λ u.
        Adds-last (declared_origins m.functions m.codes) _ _ (declared-Adds m.functions m.codes)
          λ u.
            Stays-bind _ _ (Stays-for_each _ m.globals λ g. search (stay_rules, add_global-Stays))
              λ u.
                Stays-bind _ _ (Stays-for_each _ m.memories λ t. add_memory-Stays (new_memory t))
                  λ u.
                    Stays-bind _ _
                      (Stays-for_each _ m.tables λ t. search (stay_rules, add_table-Stays))
                      λ u. Stays-bind _ _ (Stays-modify _ (λ s. (refl, refl))) λ u.
                        Stays-bind _ _
                          (Stays-for_each _ m.data_segments
                            λ g. Adds-if [] _ _ _ (Stays-pure tt) (data_segment-Stays g))
                          λ u. Stays-for_each _ m.elements element_segment-Stays

pub instantiate_store-AllMade :
    (r : Registry) (m : Module) (s : Store)
    → instantiate_store r m (empty_store m.types) ≡ ok (tt, s)
    → (s.types ≡ m.types) × AllMade m.types (origins r m) s.functions
instantiate_store-AllMade r m s at =
    let g = Ensures-ok (
      subst (Ensures (Gains _ (empty_store m.types))) at
        ((instance-Adds r m).at (empty_store m.types))) in
    (g.types, subst (AllMade m.types _) (sym g.functions) g.made)
