-- ===== src/Exec/Settled.antt =====
-- The parts of instructions that the machine's own state plays no role in: none of them runs out of
-- fuel.
use web_assembly_interpreter.Base.{
  Action, Bool-cases, IsOwn-not_fuel, IsOwn-of_not_fuel, IsSettled, IsSettled-if, List, Option,
  Ordinary, Result, Steady, Steady-bind, Steady-gets, Steady-if, Steady-lift, Steady-modify,
  Steady-pure, String, [], arith, err, false, get_elem?, inl, inr, length, lift, ltb, ltb→le,
  modify, none, ok, own_out_of_range, own_runtime_error, own_trap, put_back, refl, refused,
  runtime_error, settled_err, settled_ok, some, stands, steady_rules, suc, switch, true, zero, zoom,
  ℕ, ◌∷◌, ◌≡◌, ◌≤◌, ◌⊎◌,
}
use web_assembly_interpreter.Control.{
  BlockType, analyze_block, block_results, parse_block_signature, plain, read_br_table, read_memarg,
  type_index,
}
use web_assembly_interpreter.Control.Block.{analyze_block-IsBlock}
use web_assembly_interpreter.Control.Skip.{block_type-Reads}
use web_assembly_interpreter.Exec.Access.{pop_store_operands}
use web_assembly_interpreter.Exec.Flow.{push_frame, require_non_negative}
use web_assembly_interpreter.Exec.Machine.{
  ControlFrame, Machine, on_reader, on_stack, on_store, set_frames,
}
use web_assembly_interpreter.Exec.Typing.Shapes.{
  Tested, expect_f32-Tested, expect_f64-Tested, expect_i32-Tested, expect_i64-Tested, fails_test,
  passes,
}
use web_assembly_interpreter.Exec.Variables.{set_local}
use web_assembly_interpreter.Loader.Total.{
  total_rules, varuint32-Reads, varuint7-Reads, vector-Reads,
}
use web_assembly_interpreter.Memory.{MemArg, MemoryInstance, checked_address}
use web_assembly_interpreter.Module.{FunctionType}
use web_assembly_interpreter.Reader.{Reader, set_offset}
use web_assembly_interpreter.Reader.Total.{Answers, Reads, Reads-bind, answers, refuses}
use web_assembly_interpreter.Stack.{
  OperandStack, StackValue, ValueOrigin, default, pop_any_reference_entry, pop_arguments, pop_f32,
  pop_f64, pop_i32, pop_i64, pop_reference, pop_results, pop_stack_value, pop_value, push, push_as,
  push_results, resize_stack,
}
use web_assembly_interpreter.Store.{Store}
use web_assembly_interpreter.Types.{
  Value, ValueType, extern_ref, f32, f64, float32, float64, func_ref, funcref_index, i32, i64,
  int32, int64,
}

-- The code position stays within the code.
pub record IsInside (m : Machine) : Type 0 where
  pub inside : m.reader.offset ≤ length m.reader.bytes

module _ {A : Type 0} where
  pub Steady-on_reader : (m : Action Reader A) → Reads 0 m → Steady IsInside (on_reader m)
  unfolding on_reader zoom
  Steady-on_reader m h = record { at = λ s i. go s (m s.reader) (h.at s.reader i.inside) }
    where
      go :
          (s : Machine) (r : Result (A × Reader))
          → Answers 0 s.reader r
          → Ordinary IsInside (put_back (λ r m. record m { reader = r }) s r)
      go s (ok (a, r)) (answers h) = stands (record { inside = rw h.same h.inside })
      go s (err e) (refuses ne) = refused (IsOwn-of_not_fuel e ne)

  -- The operand stack has nothing to keep.
  pub Steady-on_stack :
      (m : Action OperandStack A) → Steady (λ s. Unit {0}) m → Steady IsInside (on_stack m)
  unfolding on_stack zoom
  Steady-on_stack m h = record { at = λ s i. go s i (m s.stack) (h.at s.stack tt) }
    where
      go :
          (s : Machine)
          → IsInside s
          → (r : Result (A × OperandStack)) → Ordinary (λ s. Unit {0}) r
          → Ordinary IsInside (put_back (λ t m. record m { stack = t }) s r)
      go s i (ok (a, t)) (stands h) = stands (record { inside = i.inside })
      go s i (err e) (refused own) = refused own

pub Steady-on_store : (f : Store → Store) → Steady IsInside (on_store (modify f))
unfolding on_store zoom modify
Steady-on_store f = record { at = λ s i. stands (record { inside = i.inside }) }

pub Steady-set_frames : (fs : List ControlFrame) → Steady IsInside (set_frames fs)
unfolding set_frames modify
Steady-set_frames fs = record { at = λ s i. stands (record { inside = i.inside }) }

pub Steady-push_frame : (f : ControlFrame) → Steady IsInside (push_frame f)
unfolding modify
Steady-push_frame f = record { at = λ s i. stands (record { inside = i.inside }) }

pub Steady-set_local : (n : ℕ) (v : Value) → Steady IsInside (set_local n v)
unfolding modify
Steady-set_local n v = record { at = λ s i. stands (record { inside = i.inside }) }

abbrev pub StackSteady : {A : Type 0} → Action OperandStack A → Type 0
StackSteady m = Steady (λ s. Unit {0}) m

pub push_as-Steady : (o : ValueOrigin) (v : Value) → StackSteady (push_as o v)
unfolding push_as
push_as-Steady o v = record { at = λ s h. stands tt }

pub push-Steady : (v : Value) → StackSteady (push v)
unfolding push
push-Steady v = push_as-Steady default v

pub push_results-Steady : (es : List StackValue) → StackSteady (push_results es)
unfolding push_results
push_results-Steady es = record { at = λ s h. stands tt }

pub resize-Steady : (n : ℕ) → StackSteady (modify (resize_stack n))
resize-Steady n = Steady-modify _ (λ s h. tt)

pop_entry-Steady : StackSteady pop_stack_value
unfolding pop_stack_value
pop_entry-Steady = record { at = go }
  where
    go : (s : OperandStack) → Unit {0} → Ordinary (λ s. Unit {0}) (pop_stack_value s)
    go [] h = refused own_trap
    go (e ∷ s) h = stands tt

pub pop_value-Steady : StackSteady pop_value
unfolding pop_value
pop_value-Steady = search (steady_rules, pop_entry-Steady)

-- `v` is of the type or the test throws.
Tested-IsSettled : (t : ValueType) (v : Value) (r : Result ℕ) → Tested t v r → IsSettled r
Tested-IsSettled t v _ (passes n h) = settled_ok
Tested-IsSettled t v _ (fails_test h) = settled_err own_trap

pub pop_i32-Steady : StackSteady pop_i32
unfolding pop_i32
pop_i32-Steady =
    Steady-bind _ _ pop_value-Steady
      λ v. Steady-lift _ (Tested-IsSettled i32 v _ (expect_i32-Tested v))

pub pop_i64-Steady : StackSteady pop_i64
unfolding pop_i64
pop_i64-Steady =
    Steady-bind _ _ pop_value-Steady
      λ v. Steady-lift _ (Tested-IsSettled i64 v _ (expect_i64-Tested v))

pub pop_f32-Steady : StackSteady pop_f32
unfolding pop_f32
pop_f32-Steady =
    Steady-bind _ _ pop_value-Steady
      λ v. Steady-lift _ (Tested-IsSettled f32 v _ (expect_f32-Tested v))

pub pop_f64-Steady : StackSteady pop_f64
unfolding pop_f64
pop_f64-Steady =
    Steady-bind _ _ pop_value-Steady
      λ v. Steady-lift _ (Tested-IsSettled f64 v _ (expect_f64-Tested v))

pub pop_reference-Steady : (t : ValueType) → StackSteady (pop_reference t)
unfolding pop_reference
pop_reference-Steady t = search (steady_rules, pop_value-Steady)

pub pop_any_reference-Steady : StackSteady pop_any_reference_entry
unfolding pop_any_reference_entry
pop_any_reference-Steady = search (steady_rules, pop_entry-Steady)

pub pop_results-Steady : (n : ℕ) → StackSteady (pop_results n)
unfolding pop_results
pop_results-Steady zero = Steady-pure _
pop_results-Steady (suc n) =
    Steady-bind _ _ pop_entry-Steady λ e. Steady-bind _ _ (pop_results-Steady n) λ es. Steady-pure _

pub pop_arguments-Steady : (n : ℕ) → StackSteady (pop_arguments n)
unfolding pop_arguments
pop_arguments-Steady zero = Steady-pure _
pop_arguments-Steady (suc n) =
    Steady-bind _ _ pop_value-Steady
      λ v. Steady-bind _ _ (pop_arguments-Steady n) λ vs. Steady-pure _

pub operands-Steady :
    (pop : Action OperandStack ℕ) → StackSteady pop → StackSteady (pop_store_operands pop)
unfolding pop_store_operands
operands-Steady pop h = Steady-bind _ _ (Steady-gets _) λ second.
    Steady-if _ _ _ (Steady-bind _ _ pop_i32-Steady λ a. Steady-bind _ _ h λ v. Steady-pure _)
      (Steady-bind _ _ h λ v. Steady-bind _ _ pop_i32-Steady λ a. Steady-pure _)

pub ruleset settled_rules = (IsSettled-if, settled_ok, settled_err, own_trap, own_runtime_error)

pub non_negative-IsSettled : (v : ℕ) (what : String) → IsSettled (require_non_negative v what)
unfolding require_non_negative
non_negative-IsSettled v what = search settled_rules

pub address-IsSettled :
    (base : ℕ) (arg : MemArg) (w : ℕ) (m : MemoryInstance)
    → IsSettled (checked_address base arg w m)
unfolding checked_address
address-IsSettled base arg w m = search settled_rules

pub funcref_index-IsSettled : (v : Value) → IsSettled (funcref_index v)
unfolding funcref_index
funcref_index-IsSettled (func_ref (some i)) = settled_ok
funcref_index-IsSettled (func_ref none) = settled_err own_runtime_error
funcref_index-IsSettled (extern_ref r) = settled_err own_runtime_error
funcref_index-IsSettled (int32 n) = settled_err own_runtime_error
funcref_index-IsSettled (int64 n) = settled_err own_runtime_error
funcref_index-IsSettled (float32 n) = settled_err own_runtime_error
funcref_index-IsSettled (float64 n) = settled_err own_runtime_error

pub analyze_block-IsSettled : (code : List ℕ) (start : ℕ) → IsSettled (analyze_block code start)
analyze_block-IsSettled code start = elim (analyze_block-IsBlock code start) [
  | inl (info, (found_at, is_block)) ↦ rw found_at settled_ok
  | inr (e, (fails, ne)) ↦ rw fails (settled_err (IsOwn-of_not_fuel e ne))
]

pub block_results-IsSettled :
    (types : List FunctionType) (b : BlockType) → IsSettled (block_results types b)
unfolding block_results switch
block_results-IsSettled types (plain b) = search settled_rules depth 20
block_results-IsSettled types (type_index i) =
    IsSettled-if _ _ _ (settled_err own_runtime_error) (at_type (get_elem? types i))
  where
    at_type :
        (o : Option FunctionType)
        → IsSettled (elim o [
          | none ↦ err (runtime_error "Block type index out of range")
          | some type ↦ ok type.results
        ])
    at_type none = settled_err own_runtime_error
    at_type (some type) = settled_ok

-- Reads of immediates, and jumps.
pub Steady-set_offset : (n : ℕ) → Steady IsInside (on_reader (set_offset n))
unfolding on_reader zoom set_offset
Steady-set_offset n = record { at = λ s i. go s i (Bool-cases (ltb (length s.reader.bytes) n)) }
  where
    go :
        (s : Machine)
        → IsInside s
        → (ltb (length s.reader.bytes) n ≡ true) ⊎ (ltb (length s.reader.bytes) n ≡ false)
        → Ordinary IsInside (on_reader (set_offset n) s)
    go s i (inl h) = rw h (refused own_out_of_range)
    go s i (inr h) = rw h (stands (record { inside = ltb→le _ _ h }))

pub memarg-Reads : Reads 0 read_memarg
unfolding read_memarg
memarg-Reads = search total_rules

pub br_table-Reads : Reads 0 read_br_table
unfolding read_br_table
br_table-Reads = search (total_rules, vector-Reads)

lift-Reads : {A : Type 0} (r : Result A) → IsSettled r → Reads 0 (lift r)
unfolding lift
lift-Reads (ok a) h = record {
  at = λ r p. answers (record { same = refl; forward = omega arith; inside = p });
}
lift-Reads (err e) (settled_err own) = record { at = λ r p. refuses (IsOwn-not_fuel e own) }

pub block_signature-Reads : (types : List FunctionType) → Reads 0 (parse_block_signature types)
unfolding parse_block_signature
block_signature-Reads types =
    Reads-bind 0 _ _ block_type-Reads λ b. lift-Reads _ (block_results-IsSettled types b)

pub ruleset machine_rules = (
  steady_rules, Steady-on_reader, Steady-on_stack, Steady-on_store, Steady-set_frames,
  Steady-push_frame, Steady-set_local, Steady-set_offset, push_as-Steady, push-Steady,
  push_results-Steady, resize-Steady, pop_value-Steady, pop_i32-Steady, pop_i64-Steady,
  pop_f32-Steady, pop_f64-Steady, pop_reference-Steady, pop_any_reference-Steady,
  pop_results-Steady, pop_arguments-Steady, operands-Steady, non_negative-IsSettled,
  address-IsSettled, funcref_index-IsSettled, analyze_block-IsSettled, varuint32-Reads,
  varuint7-Reads, memarg-Reads, br_table-Reads, block_signature-Reads,
)
