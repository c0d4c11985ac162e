-- ===== src/Exec/Derivation.antt =====
-- What a run of a function comes to, with no fuel: one rule for each way a call or a round of the
-- loop goes.
use web_assembly_interpreter.Base.{Error, List, err, get_elem?, none, ok, some, trap, ℕ, ◌≡◌}
use web_assembly_interpreter.Exec.Machine.{Machine, call, finished, go}
use web_assembly_interpreter.Exec.Run.{
  Host, Outcome, done, enter_code, failed, host_outcome, push_call_results,
}
use web_assembly_interpreter.Exec.Step.{step}
use web_assembly_interpreter.Module.{Code}
use web_assembly_interpreter.Numeric.Float.{FloatUnit}
use web_assembly_interpreter.Store.{FunctionInstance, Store, host_code, wasm_code}
use web_assembly_interpreter.Types.{Value}

-- A call, or an activation in the middle of its code, with the host's state.
pub data Configuration (W : Type 0) : Type 0 where
  calling : ℕ → List Value → W → Store → Configuration W
  running : W → Machine → Configuration W

module _ {W : Type 0} (unit : FloatUnit) (host : Host W) where
  pub data Ends : Configuration W → Outcome W → Type 0 where
    no_function :
        {index : ℕ} {args : List Value} {w : W} {s : Store}
        → get_elem? s.functions index ≡ none
        → Ends (calling index args w s) (failed (trap "Function index out of range") w s)
    by_host :
        {index : ℕ} {args : List Value} {w : W} {s : Store} (f : FunctionInstance) (id : ℕ)
        → get_elem? s.functions index ≡ some f
        → f.body ≡ host_code id
        → Ends (calling index args w s) (host_outcome (host id args (w, s)))
    not_entered :
        {index : ℕ} {args : List Value} {w : W} {s : Store} {e : Error} (f : FunctionInstance)
        (code : Code)
        → get_elem? s.functions index ≡ some f
        → f.body ≡ wasm_code code
        → enter_code f.signature code args s ≡ err e
        → Ends (calling index args w s) (failed e w s)
    entered :
        {index : ℕ} {args : List Value} {w : W} {s : Store} {m : Machine} {o : Outcome W}
        (f : FunctionInstance) (code : Code)
        → get_elem? s.functions index ≡ some f
        → f.body ≡ wasm_code code
        → enter_code f.signature code args s ≡ ok m
        → Ends (running w m) o
        → Ends (calling index args w s) o
    stops :
        {w : W} {m : Machine} {e : Error}
        → step unit m ≡ err e
        → Ends (running w m) (failed e w m.store)
    goes_on :
        {w : W} {m m' : Machine} {o : Outcome W}
        → step unit m ≡ ok (go, m')
        → Ends (running w m') o
        → Ends (running w m) o
    gives_back :
        {w : W} {m m' : Machine} {values : List Value}
        → step unit m ≡ ok (finished values, m')
        → Ends (running w m) (done values w m'.store)
    resumes :
        {w w' : W} {m m' : Machine} {index : ℕ} {args values : List Value} {s : Store}
        {o : Outcome W}
        → step unit m ≡ ok (call index args, m')
        → Ends (calling index args w m'.store) (done values w' s)
        → Ends (running w' (push_call_results values s m')) o
        → Ends (running w m) o
    gives_up :
        {w w' : W} {m m' : Machine} {index : ℕ} {args : List Value} {e : Error} {s : Store}
        → step unit m ≡ ok (call index args, m')
        → Ends (calling index args w m'.store) (failed e w' s)
        → Ends (running w m) (failed e w' s)
