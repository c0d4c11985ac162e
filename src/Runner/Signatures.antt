-- ===== src/Runner/Signatures.antt =====
-- `ModuleIntrospector::function_type` against the instance.
use web_assembly_interpreter.Base.{
  ==_iff, List, Option, [], ap, arith, false, get_elem?, get_elem?-append_left,
  get_elem?-append_right, if◌then◌else◌, inl, inr, length, none, ok, refl, some, suc, sym, true,
  zero, ℕ, ◌++◌, ◌+◌, ◌-◌, ◌==◌, ◌∙◌, ◌∷◌, ◌≡◌, ◌≤◌, ◌⊎◌,
}
use web_assembly_interpreter.Embed.Functions.Indices.{imported, instance-none, instance-some}
use web_assembly_interpreter.Embed.Instantiate.{empty_store, instantiate_store}
use web_assembly_interpreter.Embed.Registry.{Registry}
use web_assembly_interpreter.Module.{
  FunctionType, Import, ImportDesc, Module, import_function, import_global, import_memory,
  import_table, same_signature,
}
use web_assembly_interpreter.Runner.Modules.{
  ImportSearch, at_import, function_type, passed, search_imports,
}
use web_assembly_interpreter.Store.{FunctionInstance, Store}
use mathlib.Core.Path.{subst}

-- What the search among the imports comes to, against the list of their type indices.
data SearchCase (indices : List ℕ) (k seen : ℕ) : ImportSearch → Type 0 where
  hit : {t : ℕ} → get_elem? indices k ≡ some t → SearchCase indices k seen (at_import t)
  miss :
      {n : ℕ}
      → n ≡ seen + length indices
      → length indices ≤ k
      → SearchCase indices k seen (passed n)

shifted :
    (t : ℕ) (indices : List ℕ) (k seen : ℕ) (r : ImportSearch)
    → SearchCase indices k (seen + 1) r
    → SearchCase (t ∷ indices) (suc k) seen r
shifted t indices k seen _ (hit at) = hit at
shifted t indices k seen _ (miss n le) = miss (omega (arith, n)) (omega (arith, le))

search_imports-SearchCase :
    (imports : List Import) (k seen : ℕ)
    → SearchCase (imported imports) k seen (search_imports imports (seen + k) seen)
unfolding search_imports
search_imports-SearchCase [] k seen = miss (omega arith) (omega arith)
search_imports-SearchCase (i ∷ imports) k seen =
    by_desc i.desc (search_imports-SearchCase imports k seen) k
      (λ j. search_imports-SearchCase imports j (seen + 1))
  where
    at_function :
        (t k : ℕ)
        → ((j : ℕ)
            → SearchCase
                (imported imports)
                j
                (seen + 1)
                (search_imports imports (seen + 1 + j) (seen + 1)))
        → SearchCase
            (t ∷ imported imports)
            k
            seen
            (if seen + k == seen then at_import t else search_imports imports (seen + k) (seen + 1))
    at_function t zero h = rw ((==_iff (seen + 0) seen).1 (omega arith)) (hit refl)
    at_function t (suc j) h = rw (differ j) (
        shifted t (imported imports) j seen _ (
          subst
            (λ n. SearchCase (imported imports) j (seen + 1) (search_imports imports n (seen + 1)))
            (moved j) (h j)))
      where
        differ : (j : ℕ) → (seen + suc j == seen) ≡ false
        differ j = ground arith

        moved : (j : ℕ) → seen + 1 + j ≡ seen + suc j
        moved j = omega arith

    by_desc :
        (d : ImportDesc)
        → SearchCase (imported imports) k seen (search_imports imports (seen + k) seen)
        → (n : ℕ)
        → ((j : ℕ)
            → SearchCase
                (imported imports)
                j
                (seen + 1)
                (search_imports imports (seen + 1 + j) (seen + 1)))
        → SearchCase
            (elim d [
              | import_function t ↦ t ∷ imported imports
              | import_table t ↦ imported imports
              | import_memory t ↦ imported imports
              | import_global t ↦ imported imports
            ])
            k
            seen
            (elim d [
              | import_function t ↦
                  if seen + k == seen
                  then at_import t
                  else search_imports imports (seen + k) (seen + 1)
              | import_table t ↦ search_imports imports (seen + k) seen
              | import_memory t ↦ search_imports imports (seen + k) seen
              | import_global t ↦ search_imports imports (seen + k) seen
            ])
    by_desc (import_function t) h n h' = at_function t k h'
    by_desc (import_table t) h n h' = h
    by_desc (import_memory t) h n h' = h
    by_desc (import_global t) h n h' = h

-- The type that an index of the list names.
abbrev named_type : List FunctionType → Option ℕ → Option FunctionType
named_type types none = none
named_type types (some t) = get_elem? types t

function_type-imported :
    (m : Module) (k : ℕ)
    → function_type m k ≡ named_type m.types (get_elem? (imported m.imports ++ m.functions) k)
unfolding function_type
function_type-imported m k = by_search (search_imports m.imports k 0) (
    subst (λ n. SearchCase (imported m.imports) k 0 (search_imports m.imports n 0)) (from_zero k)
      (search_imports-SearchCase m.imports k 0))
  where
    from_zero : (k : ℕ) → 0 + k ≡ k
    from_zero k = omega arith

    declared :
        (o : Option ℕ)
        → (elim o [ none ↦ none | some t ↦ get_elem? m.types t ]) ≡ named_type m.types o
    declared none = refl
    declared (some t) = refl

    by_search :
        (r : ImportSearch)
        → SearchCase (imported m.imports) k 0 r
        → (elim r [
          | at_import t ↦ get_elem? m.types t
          | passed seen ↦ elim (get_elem? m.functions (k - seen)) [
            | none ↦ none
            | some t ↦ get_elem? m.types t
          ]
        ])
          ≡ named_type m.types (get_elem? (imported m.imports ++ m.functions) k)
    by_search (at_import t) (hit at) =
        ap (named_type m.types) (sym (get_elem?-append_left (imported m.imports) m.functions k at))
    by_search (passed n) (miss count le) =
        declared (get_elem? m.functions (k - n))
        ∙ ap (named_type m.types) (
            sym (
              get_elem?-append_right (imported m.imports) m.functions k (k - n)
                (omega (arith, count, le))))

-- For a module that is instantiated, what the introspector says of a function index is what the
-- instance has there: no type for an index that has no function, and for any other index a type
-- with which the function's signature agrees.
pub function_type-agrees :
    (r : Registry) (m : Module) (s : Store)
    → instantiate_store r m (empty_store m.types) ≡ ok (tt, s)
    → (k : ℕ)
    → ((function_type m k ≡ none) × (get_elem? s.functions k ≡ none))
      ⊎ ((t : FunctionType) × ((f : FunctionInstance) × ((function_type m k ≡ some t)
              × ((get_elem? s.functions k ≡ some f) × (same_signature t f.signature ≡ true)))))
function_type-agrees r m s at k = by_index (get_elem? (imported m.imports ++ m.functions) k) refl
  where
    by_index :
        (o : Option ℕ)
        → get_elem? (imported m.imports ++ m.functions) k ≡ o
        → ((function_type m k ≡ none) × (get_elem? s.functions k ≡ none))
          ⊎ ((t : FunctionType) × ((f : FunctionInstance) × ((function_type m k ≡ some t)
                  × ((get_elem? s.functions k ≡ some f) × (same_signature t f.signature ≡ true)))))
    by_index none e =
        inl (function_type-imported m k ∙ ap (named_type m.types) e, instance-none r m s at k e)
    by_index (some i) e =
        let (f, (there, h)) = instance-some r m s at k i e in
        inr (
          h.type,
          (
            f,
            (function_type-imported m k ∙ ap (named_type m.types) e ∙ h.named, (there, h.agrees)),
          ),
        )
