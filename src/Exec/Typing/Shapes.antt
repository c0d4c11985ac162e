-- ===== src/Exec/Typing/Shapes.antt =====
-- The pops and the shapes of numeric instructions, and the types of their operands.
use web_assembly_interpreter.Base.{
  Action, List, Result, String, [], and_then, err, lift, ok, pure, put_back, refl, sym, trap, zoom,
  ℕ, ◌>>=◌, ◌∙◌, ◌∷◌, ◌≡◌, ◌≢◌,
}
use web_assembly_interpreter.Exec.Machine.{Machine, Next, go, on_stack}
use web_assembly_interpreter.Exec.Numbers.{
  Instruction, binary, binary_checked, unary, unary_checked,
}
use web_assembly_interpreter.Exec.Step.{then_go}
use web_assembly_interpreter.Exec.Typing.{
  Obeys, Signature, StartsWith, applies, binop, ill_typed, may_throw, trapping, unop,
}
use web_assembly_interpreter.Stack.{
  OperandStack, StackValue, expect_f32, expect_f64, expect_i32, expect_i64, pop_f32, pop_f64,
  pop_i32, pop_i64, pop_stack_value, pop_value, push, push_as,
}
use web_assembly_interpreter.Types.{
  Value, ValueType, extern_ref, f32, f64, float32, float64, func_ref, i32, i64, int32, int64,
  type_of,
}
use mathlib.Core.Path.{subst}

-- A test of a value's type lets the values of one type through.
pub data Tested (t : ValueType) (v : Value) : Result ℕ → Type 0 where
  passes : (n : ℕ) → type_of v ≡ t → Tested t v (ok n)
  fails_test : {message : String} → type_of v ≢ t → Tested t v (err (trap message))

pub expect_i32-Tested : (v : Value) → Tested i32 v (expect_i32 v)
unfolding expect_i32 type_of
expect_i32-Tested (int32 n) = passes n refl
expect_i32-Tested (int64 n) = fails_test (λ e. cc)
expect_i32-Tested (float32 n) = fails_test (λ e. cc)
expect_i32-Tested (float64 n) = fails_test (λ e. cc)
expect_i32-Tested (func_ref r) = fails_test (λ e. cc)
expect_i32-Tested (extern_ref r) = fails_test (λ e. cc)

pub expect_i64-Tested : (v : Value) → Tested i64 v (expect_i64 v)
unfolding expect_i64 type_of
expect_i64-Tested (int64 n) = passes n refl
expect_i64-Tested (int32 n) = fails_test (λ e. cc)
expect_i64-Tested (float32 n) = fails_test (λ e. cc)
expect_i64-Tested (float64 n) = fails_test (λ e. cc)
expect_i64-Tested (func_ref r) = fails_test (λ e. cc)
expect_i64-Tested (extern_ref r) = fails_test (λ e. cc)

pub expect_f32-Tested : (v : Value) → Tested f32 v (expect_f32 v)
unfolding expect_f32 type_of
expect_f32-Tested (float32 n) = passes n refl
expect_f32-Tested (int32 n) = fails_test (λ e. cc)
expect_f32-Tested (int64 n) = fails_test (λ e. cc)
expect_f32-Tested (float64 n) = fails_test (λ e. cc)
expect_f32-Tested (func_ref r) = fails_test (λ e. cc)
expect_f32-Tested (extern_ref r) = fails_test (λ e. cc)

pub expect_f64-Tested : (v : Value) → Tested f64 v (expect_f64 v)
unfolding expect_f64 type_of
expect_f64-Tested (float64 n) = passes n refl
expect_f64-Tested (int32 n) = fails_test (λ e. cc)
expect_f64-Tested (int64 n) = fails_test (λ e. cc)
expect_f64-Tested (float32 n) = fails_test (λ e. cc)
expect_f64-Tested (func_ref r) = fails_test (λ e. cc)
expect_f64-Tested (extern_ref r) = fails_test (λ e. cc)

-- A pop takes off the top, if it is of the type.
pub data PopCase (t : ValueType) : OperandStack → Result (ℕ × OperandStack) → Type 0 where
  popped :
      {e : StackValue} {s : OperandStack} (n : ℕ)
      → type_of e.value ≡ t
      → PopCase t (e ∷ s) (ok (n, s))
  empty_stack : {message : String} → PopCase t [] (err (trap message))
  other_type :
      {e : StackValue} {s : OperandStack} {message : String}
      → type_of e.value ≢ t
      → PopCase t (e ∷ s) (err (trap message))

Tested-PopCase :
    (t : ValueType) (e : StackValue) (s : OperandStack) (r : Result ℕ)
    → Tested t e.value r
    → PopCase t (e ∷ s) (lift r s)
unfolding lift
Tested-PopCase t e s (ok n) (passes _ h) = popped n h
Tested-PopCase t e s (err _) (fails_test h) = other_type h

pub record Pops (t : ValueType) (pop : Action OperandStack ℕ) : Type 0 where
  pub at : (s : OperandStack) → PopCase t s (pop s)

pops :
    (t : ValueType) (expect : Value → Result ℕ)
    → ((v : Value) → Tested t v (expect v))
    → Pops t (pop_value >>= λ v. lift (expect v))
unfolding pop_value pop_stack_value pure
pops t expect h = record { at = by_stack }
  where
    by_stack : (s : OperandStack) → PopCase t s ((pop_value >>= λ v. lift (expect v)) s)
    by_stack [] = empty_stack
    by_stack (e ∷ s) = Tested-PopCase t e s (expect e.value) (h e.value)

pub pop_i32-Pops : Pops i32 pop_i32
unfolding pop_i32
pop_i32-Pops = pops i32 expect_i32 expect_i32-Tested

pub pop_i64-Pops : Pops i64 pop_i64
unfolding pop_i64
pop_i64-Pops = pops i64 expect_i64 expect_i64-Tested

pub pop_f32-Pops : Pops f32 pop_f32
unfolding pop_f32
pop_f32-Pops = pops f32 expect_f32 expect_f32-Tested

pub pop_f64-Pops : Pops f64 pop_f64
unfolding pop_f64
pop_f64-Pops = pops f64 expect_f64 expect_f64-Tested

-- A round that runs an instruction of the signature.
pub record HasSignature (g : Signature) (m : Action Machine Next) : Type 0 where
  pub at : (s : Machine) → Obeys g s (m s)

-- the type of the top, or of `e` where there is none
abbrev top_type : OperandStack → StackValue → ValueType
top_type [] e = type_of e.value
top_type (d ∷ s) e = type_of d.value

-- An instruction that starts with a pop, by what is on top.
pop-then :
    {t : ValueType} {pop : Action OperandStack ℕ} (p : Pops t pop) (m : Machine)
    (f : ℕ → Instruction) (Q : Result (Unit {0} × Machine) → Type 0)
    → ((e : StackValue) (s : OperandStack) (n : ℕ)
        → m.stack ≡ e ∷ s
        → type_of e.value ≡ t
        → Q (f n (record m { stack = s })))
    → (((e : StackValue) (s : OperandStack) → m.stack ≡ e ∷ s → type_of e.value ≢ t)
        → (message : String) → Q (err (trap message)))
    → Q ((on_stack pop >>= f) m)
unfolding on_stack zoom ◌>>=◌
pop-then {t} {pop} p m f Q h k = cases m.stack refl (pop m.stack) (p.at m.stack)
  where
    cases :
        (s : OperandStack)
        → m.stack ≡ s
        → (r : Result (ℕ × OperandStack)) → PopCase t s r
        → Q (and_then (put_back (λ s m. record m { stack = s }) m r) f)
    cases _ at _ (popped {e} {s} n typed) = h e s n at typed
    cases _ at _ empty_stack = k (λ e s at'. cc) _
    cases _ at _ (other_type {e} {s} other) =
        k (λ d s' at' typed. other (subst (λ l. top_type l e ≡ t) (sym at' ∙ at) typed)) _

module _ {t : ValueType} where
  starts :
      (m : Machine) (e : StackValue) (s : OperandStack)
      → m.stack ≡ e ∷ s
      → type_of e.value ≡ t
      → StartsWith (t ∷ []) m.stack s
  starts m e s at typed = rw at (typed, refl)

  starts₂ :
      (m : Machine) (e d : StackValue) (s s' : OperandStack)
      → m.stack ≡ e ∷ s
      → s ≡ d ∷ s'
      → type_of e.value ≡ t
      → type_of d.value ≡ t
      → StartsWith (t ∷ t ∷ []) m.stack s'
  starts₂ m e d s s' at next typed typed' = rw at (rw next (typed, (typed', refl)))

  no_start :
      (m : Machine) (ts : List ValueType)
      → ((e : StackValue) (s : OperandStack) → m.stack ≡ e ∷ s → type_of e.value ≢ t)
      → (rest : OperandStack) → ¬ StartsWith (t ∷ ts) m.stack rest
  no_start m ts other rest = cases m.stack refl
    where
      cases : (s : OperandStack) → m.stack ≡ s → ¬ StartsWith (t ∷ ts) s rest
      cases [] at h = h
      cases (e ∷ s) at h = other e s at h.0

  no_second :
      (m : Machine) (e : StackValue) (s : OperandStack)
      → m.stack ≡ e ∷ s
      → ((d : StackValue) (s' : OperandStack) → s ≡ d ∷ s' → type_of d.value ≢ t)
      → (rest : OperandStack) → ¬ StartsWith (t ∷ t ∷ []) m.stack rest
  no_second m e s at other rest = rw at (λ h. no_start (record m { stack = s }) [] other rest h.1)

module _ {t u : ValueType} {pop : Action OperandStack ℕ} (p : Pops t pop) where
  pub unary-HasSignature :
      (make : ℕ → Value)
      → ((n : ℕ) → type_of (make n) ≡ u)
      → HasSignature (unop t u) (then_go (unary pop make))
  unfolding unary on_stack zoom push push_as ◌>>=◌ pure
  unary-HasSignature make typed = record {
    at = λ m.
        pop-then p m (λ n. on_stack (push (make n)))
          (λ r. Obeys (unop t u) m (and_then r (λ _. pure go)))
          (λ e s n at h. applies s (make n) (starts m e s at h) (typed n))
          (λ other message. ill_typed (no_start m [] other));
  }

  pub binary-HasSignature :
      (make : ℕ → ℕ → Value)
      → ((a b : ℕ) → type_of (make a b) ≡ u)
      → HasSignature (binop t u) (then_go (binary pop make))
  unfolding binary on_stack zoom push push_as ◌>>=◌ pure
  binary-HasSignature make typed = record {
    at = λ m.
        pop-then p m _ (λ r. Obeys (binop t u) m (and_then r (λ _. pure go)))
          (λ e s b at h.
            pop-then p (record m { stack = s }) _
              (λ r. Obeys (binop t u) m (and_then r (λ _. pure go)))
              (λ d s' a at' h'. applies s' (make a b) (starts₂ m e d s s' at at' h h') (typed a b))
              (λ other message. ill_typed (no_second m e s at other)))
          (λ other message. ill_typed (no_start m (t ∷ []) other));
  }

  pub unary_checked-HasSignature :
      (make : ℕ → Value) (op : ℕ → Result ℕ)
      → ((n : ℕ) → type_of (make n) ≡ u)
      → HasSignature (trapping (unop t u)) (then_go (unary_checked pop make op))
  unfolding unary_checked on_stack zoom push push_as ◌>>=◌ pure lift
  unary_checked-HasSignature make op typed = record {
    at = λ m.
        pop-then p m _ (λ r. Obeys (trapping (unop t u)) m (and_then r (λ _. pure go)))
          (λ e s n at h. answer m s (starts m e s at h) (op n))
          (λ other message. ill_typed (no_start m [] other));
  }
    where
      answer :
          (m : Machine) (s : OperandStack)
          → StartsWith (t ∷ []) m.stack s
          → (r : Result ℕ)
          → Obeys (trapping (unop t u)) m (
              and_then
                ((lift r >>= λ n. on_stack (push (make n))) (record m { stack = s }))
                (λ _. pure go))
      answer m s at (ok n) = applies s (make n) at (typed n)
      answer m s at (err e) = may_throw s refl at

  pub binary_checked-HasSignature :
      (make : ℕ → Value) (op : ℕ → ℕ → Result ℕ)
      → ((n : ℕ) → type_of (make n) ≡ u)
      → HasSignature (trapping (binop t u)) (then_go (binary_checked pop make op))
  unfolding binary_checked on_stack zoom push push_as ◌>>=◌ pure lift
  binary_checked-HasSignature make op typed = record {
    at = λ m.
        pop-then p m _ (λ r. Obeys (trapping (binop t u)) m (and_then r (λ _. pure go)))
          (λ e s b at h.
            pop-then p (record m { stack = s }) _
              (λ r. Obeys (trapping (binop t u)) m (and_then r (λ _. pure go)))
              (λ d s' a at' h'. answer m s' (starts₂ m e d s s' at at' h h') (op a b))
              (λ other message. ill_typed (no_second m e s at other)))
          (λ other message. ill_typed (no_start m (t ∷ []) other));
  }
    where
      answer :
          (m : Machine) (s : OperandStack)
          → StartsWith (t ∷ t ∷ []) m.stack s
          → (r : Result ℕ)
          → Obeys (trapping (binop t u)) m (
              and_then
                ((lift r >>= λ n. on_stack (push (make n))) (record m { stack = s }))
                (λ _. pure go))
      answer m s at (ok n) = applies s (make n) at (typed n)
      answer m s at (err e) = may_throw s refl at
