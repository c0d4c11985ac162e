-- ===== src/Embed/Functions/Indices.antt =====
-- The functions of an instance, against the type indices of the module.
use web_assembly_interpreter.Base.{
  List, [], ap, get_elem?, none, ok, refl, some, suc, sym, true, zero, ℕ, ◌++◌, ◌∙◌, ◌∷◌, ◌≡◌,
}
use web_assembly_interpreter.Embed.Functions.{
  AllMade, Origin, declared_origins, imported_origins, registered,
}
use web_assembly_interpreter.Embed.Functions.Instance.{instantiate_store-AllMade, origins}
use web_assembly_interpreter.Embed.Instantiate.{empty_store, instantiate_store}
use web_assembly_interpreter.Embed.Registry.{Registry, find_key, make_host_key}
use web_assembly_interpreter.Module.{
  Code, FunctionType, Import, ImportDesc, Module, import_function, import_global, import_memory,
  import_table, same_signature,
}
use web_assembly_interpreter.Store.{FunctionInstance, Store}

-- The type indices of the imported functions.
abbrev pub imported : List Import → List ℕ
imported [] = []
imported (i ∷ imports) = elim i.desc [
  | import_function t ↦ t ∷ imported imports
  | import_table t ↦ imported imports
  | import_memory t ↦ imported imports
  | import_global t ↦ imported imports
]

-- A function of the type that the index names.
pub record HasType (types : List FunctionType) (index : ℕ) (f : FunctionInstance) : Type 0 where
  pub type : FunctionType
  pub named : get_elem? types index ≡ some type
  pub agrees : same_signature type f.signature ≡ true

-- the type indices
abbrev indices : List Origin → List ℕ
indices [] = []
indices (o ∷ os) = o.0 ∷ indices os

indices-append : (os ps : List Origin) → indices (os ++ ps) ≡ indices os ++ indices ps
indices-append [] ps = refl
indices-append (o ∷ os) ps = ap (λ l. o.0 ∷ l) (indices-append os ps)

indices-imported_origins :
    (r : Registry) (imports : List Import) → indices (imported_origins r imports) ≡ imported imports
indices-imported_origins r [] = refl
indices-imported_origins r (i ∷ imports) = by_desc i.desc (indices-imported_origins r imports)
  where
    by_desc :
        (d : ImportDesc)
        → indices (imported_origins r imports) ≡ imported imports
        → indices (elim d [
          | import_function t ↦
              (t, registered (find_key (make_host_key i.module_name i.name) r.host_functions))
              ∷ imported_origins r imports
          | import_table t ↦ imported_origins r imports
          | import_memory t ↦ imported_origins r imports
          | import_global t ↦ imported_origins r imports
        ])
          ≡ (elim d [
            | import_function t ↦ t ∷ imported imports
            | import_table t ↦ imported imports
            | import_memory t ↦ imported imports
            | import_global t ↦ imported imports
          ])
    by_desc (import_function t) h = ap (λ l. t ∷ l) h
    by_desc (import_table t) h = h
    by_desc (import_memory t) h = h
    by_desc (import_global t) h = h

indices-declared_origins :
    (ts : List ℕ) (codes : List Code) → indices (declared_origins ts codes) ≡ ts
indices-declared_origins [] codes = refl
indices-declared_origins (t ∷ ts) [] = ap (λ l. t ∷ l) (indices-declared_origins ts [])
indices-declared_origins (t ∷ ts) (code ∷ codes) =
    ap (λ l. t ∷ l) (indices-declared_origins ts codes)

indices-origins :
    (r : Registry) (m : Module) → indices (origins r m) ≡ imported m.imports ++ m.functions
indices-origins r m =
    indices-append (imported_origins r m.imports) (declared_origins m.functions m.codes)
    ∙ ap (λ l. l ++ indices (declared_origins m.functions m.codes))
        (indices-imported_origins r m.imports)
    ∙ ap (λ l. imported m.imports ++ l) (indices-declared_origins m.functions m.codes)

AllMade-none :
    (types : List FunctionType) (os : List Origin) (fs : List FunctionInstance) (k : ℕ)
    → AllMade types os fs
    → get_elem? (indices os) k ≡ none
    → get_elem? fs k ≡ none
AllMade-none types [] [] k h at = refl
AllMade-none types [] (f ∷ fs) k h at = absurd h
AllMade-none types (o ∷ os) [] k h at = absurd h
AllMade-none types (o ∷ os) (f ∷ fs) zero h at = cc
AllMade-none types (o ∷ os) (f ∷ fs) (suc k) (t, h) at = AllMade-none types os fs k h at

AllMade-some :
    (types : List FunctionType) (os : List Origin) (fs : List FunctionInstance) (k i : ℕ)
    → AllMade types os fs
    → get_elem? (indices os) k ≡ some i
    → (f : FunctionInstance) × ((get_elem? fs k ≡ some f) × HasType types i f)
AllMade-some types [] fs k i h at = cc
AllMade-some types (o ∷ os) [] k i h at = absurd h
AllMade-some types (o ∷ os) (f ∷ fs) zero i (t, h) at = (
  f,
  (
    refl,
    record {
      type = t.type;
      named = ap (get_elem? types) (sym (some-inj at)) ∙ t.named;
      agrees = t.agrees;
    },
  ),
)
  where
    some-inj : some o.0 ≡ some i → o.0 ≡ i
    some-inj e = ap (λ p. elim p [ none ↦ o.0 | some x ↦ x ]) e
AllMade-some types (o ∷ os) (f ∷ fs) (suc k) i (t, h) at = AllMade-some types os fs k i h at

-- An instance has no function at an index behind the last.
pub instance-none :
    (r : Registry) (m : Module) (s : Store)
    → instantiate_store r m (empty_store m.types) ≡ ok (tt, s)
    → (k : ℕ) → get_elem? (imported m.imports ++ m.functions) k ≡ none
    → get_elem? s.functions k ≡ none
instance-none r m s at k e =
    AllMade-none m.types (origins r m) s.functions k (instantiate_store-AllMade r m s at).1
      (ap (λ l. get_elem? l k) (indices-origins r m) ∙ e)

-- An instance has a function of the type that stands at an index.
pub instance-some :
    (r : Registry) (m : Module) (s : Store)
    → instantiate_store r m (empty_store m.types) ≡ ok (tt, s)
    → (k i : ℕ) → get_elem? (imported m.imports ++ m.functions) k ≡ some i
    → (f : FunctionInstance) × ((get_elem? s.functions k ≡ some f) × HasType m.types i f)
instance-some r m s at k i e =
    AllMade-some m.types (origins r m) s.functions k i (instantiate_store-AllMade r m s at).1
      (ap (λ l. get_elem? l k) (indices-origins r m) ∙ e)
