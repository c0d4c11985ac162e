-- ===== src/Embed/Functions.antt =====
-- The functions that an instance has, against those that its module declares.
pub mod Instance
pub mod Indices
use web_assembly_interpreter.Base.{
  Action, Bool, Ensures, Error, List, Option, Result, [], and_then, ap, check, err, false,
  get_elem?, gets, if◌then◌else◌, lift, modify, none, ok, pure, refl, require, returns,
  runtime_error, some, sym, throw, throws, true, ℕ, ◌++◌, ◌>>=◌, ◌∙◌, ◌∷◌, ◌≡◌,
}
use web_assembly_interpreter.Embed.Instantiate.{
  add_function, add_global, add_memory, add_table, for_each, resolve_function_import,
}
use web_assembly_interpreter.Embed.Registry.{HostFunctionRecord, Registry, find_key, make_host_key}
use web_assembly_interpreter.Memory.{MemoryInstance}
use web_assembly_interpreter.Module.{
  Code, FunctionType, Import, import_function, import_global, import_memory, import_table,
  same_signature,
}
use web_assembly_interpreter.Store.{
  FunctionBody, FunctionInstance, GlobalInstance, Store, TableInstance, host_code, wasm_code,
}
use web_assembly_interpreter.Types.{same_types}
use mathlib.Core.Path.{subst}
use mathlib.Core.List.{append_assoc, append-nil}

-- What an imported or a declared function is made of: the index of its type, and its body, if there
-- is one for it.
abbrev pub Origin : Type 0
Origin = ℕ × Option FunctionBody

-- the callback that the host has registered under a key
abbrev pub registered : Option HostFunctionRecord → Option FunctionBody
registered none = none
registered (some h) = some (host_code h.callback)

-- The imported functions: a type each, and the callback that is registered under the two names.
abbrev pub imported_origins : Registry → List Import → List Origin
imported_origins r [] = []
imported_origins r (i ∷ imports) = elim i.desc [
  | import_function t ↦
      (t, registered (find_key (make_host_key i.module_name i.name) r.host_functions))
      ∷ imported_origins r imports
  | import_table t ↦ imported_origins r imports
  | import_memory t ↦ imported_origins r imports
  | import_global t ↦ imported_origins r imports
]

-- The declared functions: the body at the same place in the code section, each.
abbrev pub declared_origins : List ℕ → List Code → List Origin
declared_origins [] codes = []
declared_origins (t ∷ ts) [] = (t, none) ∷ declared_origins ts []
declared_origins (t ∷ ts) (code ∷ codes) = (t, some (wasm_code code)) ∷ declared_origins ts codes

-- A function with the type that the index names and with the body.
pub record IsMade (types : List FunctionType) (origin : Origin) (f : FunctionInstance)
    : Type 0 where
  pub type : FunctionType
  pub named : get_elem? types origin.0 ≡ some type
  pub agrees : same_signature type f.signature ≡ true
  pub body : origin.1 ≡ some f.body

abbrev pub AllMade : List FunctionType → List Origin → List FunctionInstance → Type 0
AllMade types [] [] = Unit
AllMade types (o ∷ os) (f ∷ fs) = IsMade types o f × AllMade types os fs
AllMade types _ _ = ⊥

AllMade-append :
    (types : List FunctionType) (is : List Origin) (fs : List FunctionInstance) (js : List Origin)
    (gs : List FunctionInstance)
    → AllMade types is fs
    → AllMade types js gs
    → AllMade types (is ++ js) (fs ++ gs)
AllMade-append types [] [] js gs h k = k
AllMade-append types [] (f ∷ fs) js gs h k = absurd h
AllMade-append types (i ∷ is) [] js gs h k = absurd h
AllMade-append types (i ∷ is) (f ∷ fs) js gs (t, h) k = (t, AllMade-append types is fs js gs h k)

-- The store gets functions of the origins `js`, and nothing else of it that counts here changes.
pub record Gains (js : List Origin) (s s' : Store) : Type 0 where
  pub types : s'.types ≡ s.types
  pub added : List FunctionInstance
  pub functions : s'.functions ≡ s.functions ++ added
  pub made : AllMade s.types js added

pub record Adds (js : List Origin) {A : Type 0} (m : Action Store A) : Type 0 where
  pub at : (s : Store) → Ensures (Gains js s) (m s)

Gains-chain :
    (js ks : List Origin) (s t u : Store) → Gains js s t → Gains ks t u → Gains (js ++ ks) s u
Gains-chain js ks s t u h k = record {
  types = k.types ∙ h.types;
  added = h.added ++ k.added;
  functions =
      k.functions ∙ ap (λ l. l ++ k.added) h.functions ∙ append_assoc s.functions h.added k.added;
  made =
      AllMade-append s.types js h.added ks k.added h.made
        (subst (λ types. AllMade types ks k.added) h.types k.made);
}

pub Gains-then :
    (js ks : List Origin) {B : Type 0} (s t : Store) (r : Result (B × Store))
    → Gains js s t
    → Ensures (Gains ks t) r
    → Ensures (Gains (js ++ ks) s) r
Gains-then js ks s t (ok (b, u)) g (returns i) = returns (Gains-chain js ks s t u g i)
Gains-then js ks s t (err e) g i = throws

pub Adds-bind :
    (js ks : List Origin) {A B : Type 0} (m : Action Store A) (f : A → Action Store B)
    → Adds js m
    → ((a : A) → Adds ks (f a))
    → Adds (js ++ ks) (m >>= f)
unfolding ◌>>=◌
Adds-bind js ks {A} {B} m f h k = record { at = λ s. next s (m s) (h.at s) }
  where
    next :
        (s : Store) (r : Result (A × Store))
        → Ensures (Gains js s) r
        → Ensures (Gains (js ++ ks) s) (and_then r f)
    next s (ok (a, t)) (returns g) = Gains-then js ks s t (f a t) g ((k a).at t)
    next s (err e) g = throws

-- Nothing is gained.
pub Gains-none : (s t : Store) → t.types ≡ s.types → t.functions ≡ s.functions → Gains [] s t
Gains-none s t same_types same_functions = record {
  types = same_types;
  added = [];
  functions = same_functions ∙ sym (append-nil s.functions);
  made = tt;
}

module _ {A : Type 0} where
  pub Stays-pure : (a : A) → Adds [] (pure a)
  unfolding pure
  Stays-pure a = record { at = λ s. returns (Gains-none s s refl refl) }

  pub Stays-throw : (e : Error) → Adds [] (throw {A = A} e)
  unfolding throw
  Stays-throw e = record { at = λ s. throws }

  pub Stays-gets : (f : Store → A) → Adds [] (gets f)
  unfolding gets
  Stays-gets f = record { at = λ s. returns (Gains-none s s refl refl) }

  pub Stays-require : (e : Error) (o : Option A) → Adds [] (require e o)
  unfolding require
  Stays-require e none = record { at = λ s. throws }
  Stays-require e (some a) = record { at = λ s. returns (Gains-none s s refl refl) }

  pub Stays-lift : (r : Result A) → Adds [] (lift r)
  unfolding lift
  Stays-lift (ok a) = record { at = λ s. returns (Gains-none s s refl refl) }
  Stays-lift (err e) = record { at = λ s. throws }

  pub Adds-if :
      (js : List Origin) (b : Bool) (m k : Action Store A)
      → Adds js m
      → Adds js k
      → Adds js (if b then m else k)
  Adds-if js true m k h i = h
  Adds-if js false m k h i = i

pub Stays-check : (b : Bool) (e : Error) → Adds [] (check b e)
unfolding check
Stays-check true e = record { at = λ s. returns (Gains-none s s refl refl) }
Stays-check false e = record { at = λ s. throws }

pub Stays-bind :
    {A B : Type 0} (m : Action Store A) (f : A → Action Store B)
    → Adds [] m
    → ((a : A) → Adds [] (f a))
    → Adds [] (m >>= f)
Stays-bind m f h k = Adds-bind [] [] m f h k

pub Stays-modify :
    (f : Store → Store)
    → ((s : Store) → ((f s).types ≡ s.types) × ((f s).functions ≡ s.functions))
    → Adds [] (modify f)
unfolding modify
Stays-modify f h = record { at = λ s. returns (Gains-none s (f s) (h s).0 (h s).1) }

pub Stays-for_each :
    {A : Type 0} (f : A → Action Store (Unit {0})) (xs : List A)
    → ((x : A) → Adds [] (f x))
    → Adds [] (for_each f xs)
unfolding for_each
Stays-for_each f [] h = Stays-pure tt
Stays-for_each f (x ∷ xs) h = Stays-bind _ _ (h x) λ u. Stays-for_each f xs h

pub ruleset stay_rules = (
  Stays-pure, Stays-throw, Stays-gets, Stays-require, Stays-lift, Stays-check, Stays-bind, Adds-if,
)

pub add_global-Stays : (g : GlobalInstance) → Adds [] (add_global g)
add_global-Stays g = Stays-modify _ (λ s. (refl, refl))

pub add_memory-Stays : (m : MemoryInstance) → Adds [] (add_memory m)
add_memory-Stays m = Stays-modify _ (λ s. (refl, refl))

pub add_table-Stays : (t : TableInstance) → Adds [] (add_table t)
add_table-Stays t = Stays-modify _ (λ s. (refl, refl))

-- An imported function.
pub function_import-Adds :
    (r : Registry) (key : List ℕ) (index : ℕ)
    → Adds
        ((index, registered (find_key key r.host_functions)) ∷ [])
        (resolve_function_import r key index)
unfolding resolve_function_import ◌>>=◌ gets require check modify
function_import-Adds r key index = record {
  at = λ s. by_type s (get_elem? s.types index) refl (find_key key r.host_functions);
}
  where
    by_check :
        (s : Store) (t : FunctionType) (h : HostFunctionRecord)
        → get_elem? s.types index ≡ some t
        → (b : Bool) → same_signature t h.signature ≡ b
        → Ensures (Gains ((index, some (host_code h.callback)) ∷ []) s) (
            (check b (runtime_error "Host function signature mismatch for import: ") >>= λ u.
            add_function (record { signature = h.signature; body = host_code h.callback }))
              s)
    by_check s t h at true agrees = returns (record {
      types = refl;
      added = record { signature = h.signature; body = host_code h.callback } ∷ [];
      functions = refl;
      made = (record { type = t; named = at; agrees = agrees; body = refl }, tt);
    })
    by_check s t h at false agrees = throws

    by_type :
        (s : Store) (o : Option FunctionType)
        → get_elem? s.types index ≡ o
        → (p : Option HostFunctionRecord)
        → Ensures (Gains ((index, registered p) ∷ []) s) (
            (require (runtime_error "Imported function references invalid type index") o
                >>= λ expected.
                    (require (runtime_error "Missing host function import: ") p >>= λ found.
                    (check
                        (same_signature expected found.signature)
                        (runtime_error "Host function signature mismatch for import: ")
                      >>= λ u. add_function (record {
                        signature = found.signature;
                        body = host_code found.callback;
                      }))))
              s)
    by_type s none at p = throws
    by_type s (some t) at none = throws
    by_type s (some t) at (some h) = by_check s t h at (same_signature t h.signature) refl

pub Adds-last :
    (js : List Origin) {A B : Type 0} (m : Action Store A) (f : A → Action Store B)
    → Adds js m
    → ((a : A) → Adds [] (f a))
    → Adds js (m >>= f)
Adds-last js m f h k = subst (λ l. Adds l (m >>= f)) (append-nil js) (Adds-bind js [] m f h k)
