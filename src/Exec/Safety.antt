-- ===== src/Exec/Safety.antt =====
-- Rounds and runs of a function, and the store.
use web_assembly_interpreter.Base.{
  Action, Ensures, Ensures-ok, Keeps, Keeps-bind, Keeps-gets, Keeps-if, Keeps-pure, Keeps-switch,
  Keeps-throw, List, Option, Result, arith, end_cases, err, get_elem?, none, ok, refl, returns,
  some, suc, zero, ℕ, ◌≡◌, ◌▹◌,
}
use web_assembly_interpreter.Control.Same.{
  SameBytes, SameBytes-IsPreorder, read_u8-SameBytes, varuint32-SameBytes,
}
use web_assembly_interpreter.Exec.Access.{access_op, load_op, memory_grow, memory_size, store_op}
use web_assembly_interpreter.Exec.Effect.{
  Develops, Develops-IsPreorder, Develops_of_From, Develops_of_quiet, Quiet-on_reader,
}
use web_assembly_interpreter.Exec.Machine.{Machine, Next, call, finished, go, on_reader}
use web_assembly_interpreter.Exec.Quiet.{
  control_op-Quiet, drop_op-Quiet, global_get_op-Quiet, load_op-Quiet, local_get-Quiet,
  local_set-Quiet, local_tee-Quiet, memory_size-Quiet, ref_func_op-Quiet, ref_is_null-Quiet,
  ref_null_op-Quiet, select-Quiet, table_get-Quiet, table_size-Quiet,
}
use web_assembly_interpreter.Exec.Quiet.Numeric.{
  constant_op-Quiet, numeric_op-Quiet, truncate_saturating-Quiet,
}
use web_assembly_interpreter.Exec.Run.{
  Host, HostResult, Outcome, after_call, after_step, done, enter_code, enter_function,
  execute_function, exhausted, failed, host_outcome, host_returned, host_thrown, host_trapped,
  push_call_results, run_entered, run_loop, start_machine,
}
use web_assembly_interpreter.Exec.Step.{
  constant_op, control_op, dispatch, numeric_op, prefixed_op, step, then_go, variable_op,
}
use web_assembly_interpreter.Exec.Writes.{
  data_drop-From, global_set-From, memory_copy-From, memory_fill-From, memory_grow-From,
  memory_init-From, store_op-From, table_copy-From, table_fill-From, table_grow-From,
  table_set-From,
}
use web_assembly_interpreter.Module.{Code, FunctionType}
use web_assembly_interpreter.Numeric.Float.{FloatUnit}
use web_assembly_interpreter.Reader.{Reader}
use web_assembly_interpreter.Stack.{OperandStack}
use web_assembly_interpreter.Store.{FunctionInstance, Store, host_code, wasm_code}
use web_assembly_interpreter.Store.Extends.{Extends, Extends-refl, Extends-trans}
use web_assembly_interpreter.Types.{Value}
use mathlib.Core.Path.{subst}

variable_op-Develops : (op : ℕ) → Keeps Develops (variable_op op)
unfolding variable_op
variable_op-Develops op =
    Keeps-switch op
      (Develops_of_quiet _ drop_op-Quiet
        ▹ Develops_of_quiet _ select-Quiet
        ▹ Keeps-throw _
        ▹ Develops_of_quiet _ local_get-Quiet
        ▹ Develops_of_quiet _ local_set-Quiet
        ▹ Develops_of_quiet _ local_tee-Quiet
        ▹ Develops_of_quiet _ global_get_op-Quiet
        ▹ Develops_of_From _ global_set-From
        ▹ Develops_of_quiet _ table_get-Quiet
        ▹ Develops_of_From _ table_set-From
        ▹ Develops_of_quiet _ ref_null_op-Quiet
        ▹ Develops_of_quiet _ ref_is_null-Quiet
        ▹ Develops_of_quiet _ ref_func_op-Quiet
        ▹ end_cases)
      (Keeps-throw _)

load-Develops : (w : ℕ) (make : ℕ → Value) → Keeps Develops (load_op w make)
load-Develops w make = Develops_of_quiet _ (load_op-Quiet w make)

store-Develops : (w : ℕ) (pop : Action OperandStack ℕ) → Keeps Develops (store_op w pop)
store-Develops w pop = Develops_of_From _ (λ s. store_op-From s w pop)

memory_size-Develops : Keeps Develops memory_size
memory_size-Develops = Develops_of_quiet _ memory_size-Quiet

memory_grow-Develops : Keeps Develops memory_grow
memory_grow-Develops = Develops_of_From _ memory_grow-From

access_op-Develops : (op : ℕ) → Keeps Develops (access_op op)
unfolding access_op
access_op-Develops op =
    search
      (
        Keeps-switch, ◌▹◌, end_cases, load-Develops, store-Develops, memory_size-Develops,
        memory_grow-Develops,
      )
      depth 60

prefixed_op-Develops : (code : ℕ) → Keeps Develops (prefixed_op code)
unfolding prefixed_op
prefixed_op-Develops code = Keeps-if _ _ _ (Develops_of_quiet _ (truncate_saturating-Quiet code)) (
    Keeps-switch code
      (Develops_of_From _ memory_init-From
        ▹ Develops_of_From _ data_drop-From
        ▹ Develops_of_From _ memory_copy-From
        ▹ Develops_of_From _ memory_fill-From
        ▹ Keeps-throw _
        ▹ Keeps-throw _
        ▹ Develops_of_From _ table_copy-From
        ▹ Develops_of_From _ table_grow-From
        ▹ Develops_of_quiet _ table_size-Quiet
        ▹ Develops_of_From _ table_fill-From
        ▹ end_cases)
      (Keeps-throw _))

then_go-Develops : (m : Action Machine (Unit {0})) → Keeps Develops m → Keeps Develops (then_go m)
then_go-Develops m k = Keeps-bind _ _ k λ u. Keeps-pure _

code-Develops :
    {A : Type 0} (m : Action Reader A) → Keeps SameBytes m → Keeps Develops (on_reader m)
code-Develops m k = Develops_of_quiet _ (Quiet-on_reader m k)

control-Develops : (op : ℕ) → Keeps Develops (control_op op)
control-Develops op = Develops_of_quiet _ (control_op-Quiet op)

constant-Develops : (op : ℕ) → Keeps Develops (constant_op op)
constant-Develops op = Develops_of_quiet _ (constant_op-Quiet op)

module _ (unit : FloatUnit) where
  numeric-Develops : (op : ℕ) → Keeps Develops (numeric_op unit op)
  numeric-Develops op = Develops_of_quiet _ (numeric_op-Quiet unit op)

  dispatch-Develops : (op : ℕ) → Keeps Develops (dispatch unit op)
  unfolding dispatch
  dispatch-Develops op =
      search
        (
          Keeps-if, Keeps-bind, then_go-Develops, control-Develops, variable_op-Develops,
          access_op-Develops, constant-Develops, numeric-Develops, prefixed_op-Develops,
          code-Develops, varuint32-SameBytes,
        )
        depth 30

  step-Keeps : Keeps Develops (step unit)
  unfolding step
  step-Keeps =
      search
        (
          Keeps-if, Keeps-bind, Keeps-throw, Keeps-gets, dispatch-Develops, code-Develops,
          read_u8-SameBytes,
        )
        depth 20

  -- One round of the interpreter's loop that does not throw keeps the code, the number of locals
  -- and the signature of the activation, and develops the store: types and functions stay; an
  -- immutable global keeps its value, and globals, memories, tables and data segments their number
  -- and types; a well-sized memory or table stays well sized and does not shrink; a dropped segment
  -- stays dropped.
  pub step-Develops : (m n : Machine) (next : Next) → step unit m ≡ ok (next, n) → Develops m n
  step-Develops m n next h = Ensures-ok (subst (Ensures (Develops m)) h ((step-Keeps).at m))

module _ {W : Type 0} where
  -- What a run leaves behind, however it ends.
  abbrev pub LeavesExtended : Store → Outcome W → Type 0
  LeavesExtended s (done values w t) = Extends s t
  LeavesExtended s (failed e w t) = Extends s t
  LeavesExtended s exhausted = Unit

  abbrev pub HostExtends : Host W → Type 0
  HostExtends host =
      (id : ℕ) (args : List Value) (w : W) (s : Store) → Extends s (host id args (w, s)).1.1

  LeavesExtended-trans :
      (s t : Store) (o : Outcome W) → Extends s t → LeavesExtended t o → LeavesExtended s o
  LeavesExtended-trans s t (done values w u) h k = Extends-trans s t u h k
  LeavesExtended-trans s t (failed e w u) h k = Extends-trans s t u h k
  LeavesExtended-trans s t exhausted h k = tt

  host_outcome-Extends :
      (s : Store) (p : HostResult × (W × Store))
      → Extends s p.1.1
      → LeavesExtended s (host_outcome p)
  host_outcome-Extends s (host_returned values, (w, t)) h = h
  host_outcome-Extends s (host_trapped message, (w, t)) h = h
  host_outcome-Extends s (host_thrown e, (w, t)) h = h

enter_code-store :
    (f : FunctionType) (c : Code) (args : List Value) (s : Store) (m : Machine)
    → enter_code f c args s ≡ ok m
    → m.store ≡ s
unfolding enter_code start_machine
enter_code-store f c args s m e = ground arith

module _ {W : Type 0} (unit : FloatUnit) (host : Host W) (polite : HostExtends host) where
  after_step-Extends :
      (loop : W → Machine → Outcome W) (execute : ℕ → List Value → W → Store → Outcome W)
      → ((w : W) (m : Machine) → LeavesExtended m.store (loop w m))
      → ((i : ℕ) (args : List Value) (w : W) (s : Store) → LeavesExtended s (execute i args w s))
      → (w : W) (m : Machine) (r : Result (Next × Machine)) → Ensures (Develops m) r
      → LeavesExtended m.store (after_step loop execute w m.store r)
  after_step-Extends loop execute hl he w m (err e) h = Extends-refl m.store
  after_step-Extends loop execute hl he w m (ok (go, n)) (returns d) =
      LeavesExtended-trans m.store n.store _ d.store (hl w n)
  after_step-Extends loop execute hl he w m (ok (finished vs, n)) (returns d) = d.store
  after_step-Extends loop execute hl he w m (ok (call i args, n)) (returns d) =
      LeavesExtended-trans m.store n.store _ d.store
        (calls n (execute i args w n.store) (he i args w n.store))
    where
      calls :
          (n : Machine) (o : Outcome W)
          → LeavesExtended n.store o
          → LeavesExtended n.store (after_call loop n o)
      calls n (done vs v t) h =
          unfold push_call_results in
          LeavesExtended-trans n.store t _ h (hl v (push_call_results vs t n))
      calls n (failed e v t) h = h
      calls n exhausted h = tt

  enter-Extends :
      (loop : W → Machine → Outcome W)
      → ((w : W) (m : Machine) → LeavesExtended m.store (loop w m))
      → (o : Option FunctionInstance) (args : List Value) (w : W) (s : Store)
      → LeavesExtended s (enter_function host loop o args w s)
  unfolding enter_function
  enter-Extends loop hl none args w s = Extends-refl s
  enter-Extends loop hl (some f) args w s =
      elim f.body
        as (λ b. LeavesExtended s (elim b [
          | host_code id ↦ host_outcome (host id args (w, s))
          | wasm_code code ↦ run_entered loop w s (enter_code f.signature code args s)
        ])) [
          | host_code id ↦ host_outcome-Extends s (host id args (w, s)) (polite id args w s)
          | wasm_code code ↦ entered code (enter_code f.signature code args s) refl
        ]
    where
      entered :
          (code : Code) (r : Result Machine)
          → enter_code f.signature code args s ≡ r
          → LeavesExtended s (run_entered loop w s r)
      entered code (ok m) e =
          let same : m.store ≡ s = enter_code-store f.signature code args s m e in
          subst (λ t. LeavesExtended t (loop w m)) same (hl w m)
      entered code (err e) p = Extends-refl s

  mutual
    unfolding execute_function

    execute-Extends :
        (fuel index : ℕ) (args : List Value) (w : W) (s : Store)
        → LeavesExtended s (execute_function unit host fuel index args w s)
    execute-Extends zero index args w s = tt
    execute-Extends (suc fuel) index args w s =
        enter-Extends _ (loop-Extends fuel) (get_elem? s.functions index) args w s

    loop-Extends :
        (fuel : ℕ) (w : W) (m : Machine) → LeavesExtended m.store (run_loop unit host fuel w m)
    loop-Extends zero w m = tt
    loop-Extends (suc fuel) w m =
        after_step-Extends _ _ (loop-Extends fuel) (execute-Extends fuel) w m (step unit m)
          ((step-Keeps unit).at m)

  -- A function call leaves a store that extends the one it started from, whether it returns or
  -- throws and however deep its calls go, if every host callback does so: types and functions
  -- stay, immutable globals keep their values, well-sized memories and tables stay so and do not
  -- shrink, and dropped segments stay dropped.
  pub execute_function-Extends :
      (fuel index : ℕ) (args : List Value) (w : W) (s : Store)
      → LeavesExtended s (execute_function unit host fuel index args w s)
  execute_function-Extends fuel index args w s = execute-Extends fuel index args w s
