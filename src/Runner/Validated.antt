-- ===== src/Runner/Validated.antt =====
-- `validate_arguments` against the function that a call reaches.
use web_assembly_interpreter.Base.{
  ==_iff, Bool, Error, List, Result, [], ap, arith, err, false, get_elem?, if◌then◌else◌, inl, inr,
  length, map, none, ok, refl, some, sym, true, ℕ, ◌&&◌, ◌==◌, ◌∙◌, ◌∷◌, ◌≡◌,
}
use web_assembly_interpreter.Embed.Instantiate.{empty_store, instantiate_store}
use web_assembly_interpreter.Embed.Registry.{Registry}
use web_assembly_interpreter.Module.{FunctionType, Module, same_signature}
use web_assembly_interpreter.Runner.Modules.{check_types, function_type, validate_arguments}
use web_assembly_interpreter.Runner.Signatures.{function_type-agrees}
use web_assembly_interpreter.Store.{FunctionInstance, Store}
use web_assembly_interpreter.Types.{
  Value, ValueType, byte_of_value_type, same_type, same_types, type_of,
}
use mathlib.Core.Path.{subst}

and_parts : (a b : Bool) → (a && b) ≡ true → (a ≡ true) × (b ≡ true)
and_parts true b h = (refl, h)
and_parts false b h = cc

same_types-through :
    (ts us vs : List ValueType)
    → same_types ts us ≡ true
    → same_types ts vs ≡ true
    → same_types us vs ≡ true
unfolding same_types same_type
same_types-through [] [] [] h k = refl
same_types-through [] [] (v ∷ vs) h k = cc
same_types-through [] (u ∷ us) vs h k = cc
same_types-through (t ∷ ts) [] vs h k = cc
same_types-through (t ∷ ts) (u ∷ us) [] h k = cc
same_types-through (t ∷ ts) (u ∷ us) (v ∷ vs) h k =
    let (a, b) = and_parts _ _ h in
    let (c, d) = and_parts _ _ k in
    rw
      ((==_iff (byte_of_value_type u) (byte_of_value_type v)).1 (
        sym ((==_iff (byte_of_value_type t) (byte_of_value_type u)).0 a)
        ∙ (==_iff (byte_of_value_type t) (byte_of_value_type v)).0 c))
      (same_types-through ts us vs b d)

-- the branch that an `if` with a throw in it has taken
taken :
    (b : Bool) (r : Result (Unit {0})) (e : Error)
    → (if b then r else err e) ≡ ok tt
    → (b ≡ true) × (r ≡ ok tt)
taken true r e h = (refl, h)
taken false r e h = cc

check_types-same_types :
    (ts : List ValueType) (vs : List Value)
    → length ts ≡ length vs
    → check_types ts vs ≡ ok tt
    → same_types ts (map type_of vs) ≡ true
unfolding check_types same_types
check_types-same_types [] [] n h = refl
check_types-same_types [] (v ∷ vs) n h = absurd (omega (arith, n))
check_types-same_types (t ∷ ts) [] n h = absurd (omega (arith, n))
check_types-same_types (t ∷ ts) (v ∷ vs) n h =
    let (same, rest) = taken (same_type t (type_of v)) (check_types ts vs) _ h in
    rw same (check_types-same_types ts vs (omega (arith, n)) rest)

validate-same_types :
    (t : FunctionType) (args : List Value)
    → validate_arguments t args ≡ ok tt
    → same_types t.params (map type_of args) ≡ true
unfolding validate_arguments
validate-same_types t args h =
    let (same, rest) = taken (length t.params == length args) (check_types t.params args) _ h in
    check_types-same_types t.params args ((==_iff (length t.params) (length args)).0 same) rest

-- For a module that is instantiated: arguments that pass the check against the type that the
-- introspector gives for an index are as many as the parameters of the function that the instance
-- has there, and of their types.
pub validate_arguments-fits :
    (r : Registry) (m : Module) (s : Store)
    → instantiate_store r m (empty_store m.types) ≡ ok (tt, s)
    → (k : ℕ) (t : FunctionType) (args : List Value) → function_type m k ≡ some t
    → validate_arguments t args ≡ ok tt
    → (f : FunctionInstance) × ((get_elem? s.functions k ≡ some f)
        × (same_types f.signature.params (map type_of args) ≡ true))
unfolding same_signature
validate_arguments-fits r m s at k t args named valid = elim (function_type-agrees r m s at k) [
  | inl (unnamed, absent) ↦ cc
  | inr (u, (f, (named', (there, agrees)))) ↦ (
    f,
    (
      there,
      same_types-through t.params f.signature.params (map type_of args)
          (subst (λ x. same_types x.params f.signature.params ≡ true)
            (some-inj (sym named' ∙ named)) (and_parts _ _ agrees).0)
          (validate-same_types t args valid),
    ),
  )
]
  where
    some-inj : {a b : FunctionType} → some a ≡ some b → a ≡ b
    some-inj {a} e = ap (λ o. elim o [ none ↦ a | some x ↦ x ]) e
