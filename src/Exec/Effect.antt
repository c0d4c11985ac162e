-- ===== src/Exec/Effect.antt =====
-- What an instruction does to the activation and to the store.
use web_assembly_interpreter.Base.{
  Action, Bool, Ensures, Ensures-and_then, Ensures-mono, Error, IsPreorder, Keeps, Keeps-mono, List,
  Option, Result, and_then, check, err, false, gets, if◌then◌else◌, keeps_rules, length, length-set,
  lift, modify, none, ok, put_back, refl, require, returns, some, sym, throws, true, ℕ, ◌>>=◌, ◌∙◌,
  ◌≡◌,
}
use web_assembly_interpreter.Control.Same.{
  SameBytes, SameBytes-IsPreorder, block_signature-SameBytes, read_br_table-SameBytes,
  read_memarg-SameBytes, set_offset-SameBytes, varuint32-SameBytes, varuint7-SameBytes,
}
use web_assembly_interpreter.Exec.Flow.{push_frame}
use web_assembly_interpreter.Exec.Machine.{
  ControlFrame, Machine, on_reader, on_stack, on_store, set_frames,
}
use web_assembly_interpreter.Exec.Variables.{set_local}
use web_assembly_interpreter.Reader.{Reader}
use web_assembly_interpreter.Stack.{OperandStack}
use web_assembly_interpreter.Store.{Store}
use web_assembly_interpreter.Store.Extends.{Extends, Extends-refl, Extends-trans}
use web_assembly_interpreter.Types.{Value}
use mathlib.Core.Path.{subst}

-- The code, the number of locals and the signature of an activation stay.
pub record SameActivation (m m' : Machine) : Type 0 where
  pub code : m'.reader.bytes ≡ m.reader.bytes
  pub locals : length m'.locals ≡ length m.locals
  pub results : m'.results ≡ m.results

-- The store stays as it is.
pub record Quiet (m m' : Machine) : Type 0 where
  pub activation : SameActivation m m'
  pub store : m'.store ≡ m.store

-- The store develops.
pub record Develops (m m' : Machine) : Type 0 where
  pub activation : SameActivation m m'
  pub store : Extends m.store m'.store

SameActivation-refl : (m : Machine) → SameActivation m m
SameActivation-refl m = record { code = refl; locals = refl; results = refl }

SameActivation-trans :
    (a b c : Machine) → SameActivation a b → SameActivation b c → SameActivation a c
SameActivation-trans a b c h k = record {
  code = k.code ∙ h.code;
  locals = k.locals ∙ h.locals;
  results = k.results ∙ h.results;
}

instance pub Quiet-IsPreorder : IsPreorder Quiet
Quiet-IsPreorder = record {
  stay = λ m. record { activation = SameActivation-refl m; store = refl };
  chain = λ a b c h k. record {
    activation = SameActivation-trans a b c h.activation k.activation;
    store = k.store ∙ h.store;
  };
}

instance pub Develops-IsPreorder : IsPreorder Develops
Develops-IsPreorder = record {
  stay = λ m. record { activation = SameActivation-refl m; store = Extends-refl m.store };
  chain = λ a b c h k. record {
    activation = SameActivation-trans a b c h.activation k.activation;
    store = Extends-trans a.store b.store c.store h.store k.store;
  };
}

Develops_of_Quiet : (a b : Machine) → Quiet a b → Develops a b
Develops_of_Quiet a b h = record {
  activation = h.activation;
  store = rw h.store (Extends-refl a.store);
}

module _ {A : Type 0} where
  pub Develops_of_quiet : (m : Action Machine A) → Keeps Quiet m → Keeps Develops m
  Develops_of_quiet m = Keeps-mono m Develops_of_Quiet

  pub Quiet-on_reader : (m : Action Reader A) → Keeps SameBytes m → Keeps Quiet (on_reader m)
  unfolding on_reader
  Quiet-on_reader m k = record { at = λ s. go s (m s.reader) (k.at s.reader) }
    where
      go :
          (s : Machine) (r : Result (A × Reader))
          → Ensures (SameBytes s.reader) r
          → Ensures (Quiet s) (put_back (λ r m. record m { reader = r }) s r)
      go s (ok (a, r)) (returns h) =
          returns (record {
            activation = record { code = h; locals = refl; results = refl };
            store = refl;
          })
      go s (err e) h = throws

  -- The relations say nothing of the operand stack.
  pub Quiet-on_stack : (m : Action OperandStack A) → Keeps Quiet (on_stack m)
  unfolding on_stack
  Quiet-on_stack m = record { at = λ s. go s (m s.stack) }
    where
      go :
          (s : Machine) (r : Result (A × OperandStack))
          → Ensures (Quiet s) (put_back (λ t m. record m { stack = t }) s r)
      go s (ok (a, t)) = returns (record {
        activation = record { code = refl; locals = refl; results = refl };
        store = refl;
      })
      go s (err e) = throws

pub Quiet-set_frames : (fs : List ControlFrame) → Keeps Quiet (set_frames fs)
unfolding set_frames modify
Quiet-set_frames fs = record {
  at = λ s.
      returns (record {
        activation = record { code = refl; locals = refl; results = refl };
        store = refl;
      });
}

pub Quiet-push_frame : (f : ControlFrame) → Keeps Quiet (push_frame f)
unfolding modify
Quiet-push_frame f = record {
  at = λ s.
      returns (record {
        activation = record { code = refl; locals = refl; results = refl };
        store = refl;
      });
}

pub Quiet-set_local : (i : ℕ) (v : Value) → Keeps Quiet (set_local i v)
unfolding modify
Quiet-set_local i v = record {
  at = λ s. returns (record {
    activation = record { code = refl; locals = length-set s.locals i v; results = refl };
    store = refl;
  });
}

pub ruleset quiet_rules = (
  keeps_rules, Quiet-IsPreorder, SameBytes-IsPreorder, Quiet-on_stack, Quiet-on_reader,
  Quiet-set_frames, varuint32-SameBytes, varuint7-SameBytes, set_offset-SameBytes,
  read_memarg-SameBytes, read_br_table-SameBytes, block_signature-SameBytes,
)

-- A block of instructions that starts at the store `s₀`.
pub record From {A : Type 0} (s₀ : Store) (m : Action Machine A) : Type 0 where
  pub at : (s : Machine) → s.store ≡ s₀ → Ensures (Develops s) (m s)

pub Develops_of_From :
    {A : Type 0} (m : Action Machine A) → ((s₀ : Store) → From s₀ m) → Keeps Develops m
Develops_of_From m h = record { at = λ s. (h s.store).at s refl }

module _ {A B : Type 0} {s₀ : Store} where
  pub From-quiet :
      (m : Action Machine A) (f : A → Action Machine B)
      → Keeps Quiet m
      → ((a : A) → From s₀ (f a))
      → From s₀ (m >>= f)
  unfolding ◌>>=◌
  From-quiet m f k h = record { at = λ s e. go s e (m s) (k.at s) }
    where
      after :
          (s t : Machine)
          → Quiet s t
          → (r : Result (B × Machine)) → Ensures (Develops t) r
          → Ensures (Develops s) r
      after s t q r =
          Ensures-mono r (λ u d. Develops-IsPreorder.chain s t u (Develops_of_Quiet s t q) d)

      go :
          (s : Machine)
          → s.store ≡ s₀
          → (r : Result (A × Machine)) → Ensures (Quiet s) r
          → Ensures (Develops s) (and_then r f)
      go s e (ok (a, t)) (returns q) = after s t q (f a t) ((h a).at t (q.store ∙ e))
      go s e (err x) q = throws

  pub From-require :
      (e : Error) (o : Option A) (f : A → Action Machine B)
      → ((a : A) → o ≡ some a → From s₀ (f a))
      → From s₀ (require e o >>= f)
  unfolding ◌>>=◌
  From-require e none f h = record { at = λ s q. throws }
  From-require e (some a) f h = record { at = λ s q. (h a refl).at s q }

  pub From-lift :
      (r : Result A) (f : A → Action Machine B)
      → ((a : A) → r ≡ ok a → From s₀ (f a))
      → From s₀ (lift r >>= f)
  unfolding ◌>>=◌
  From-lift (err e) f h = record { at = λ s q. throws }
  From-lift (ok a) f h = record { at = λ s q. (h a refl).at s q }

  From-gets :
      (g : Store → A) (f : A → Action Machine B)
      → From s₀ (f (g s₀))
      → From s₀ (gets (λ m. g m.store) >>= f)
  unfolding ◌>>=◌
  From-gets g f h = record {
    at = λ s q. subst (λ t. Ensures (Develops s) (f (g t) s)) (sym q) (h.at s q);
  }

module _ {B : Type 0} {s₀ : Store} where
  pub From-check :
      (b : Bool) (e : Error) (f : Unit {0} → Action Machine B)
      → (b ≡ true → From s₀ (f tt))
      → From s₀ (check b e >>= f)
  unfolding ◌>>=◌
  From-check true e f h = h refl
  From-check false e f h = record { at = λ s q. throws }

  pub From-Keeps : (m : Action Machine B) → Keeps Develops m → From s₀ m
  From-Keeps m k = record { at = λ s q. k.at s }

  From-if :
      (b : Bool) (m n : Action Machine B) → From s₀ m → From s₀ n → From s₀ (if b then m else n)
  From-if true m n hm hn = hm
  From-if false m n hm hn = hn

-- A write of the store.
pub From-on_store :
    {s₀ : Store} (f : Store → Store) → Extends s₀ (f s₀) → From s₀ (on_store (modify f))
unfolding on_store modify
From-on_store f h = record {
  at = λ s e. returns (record {
    activation = record { code = refl; locals = refl; results = refl };
    store = rw e h;
  });
}

pub From-on_store_then :
    {B : Type 0} {s₀ : Store} (f : Store → Store) (k : Unit {0} → Action Machine B)
    → Extends s₀ (f s₀)
    → ((u : Unit {0}) → Keeps Quiet (k u))
    → From s₀ (on_store (modify f) >>= k)
unfolding ◌>>=◌
From-on_store_then f k h q = record {
  at = λ s e.
      Ensures-and_then s (on_store (modify f) s) k ((From-on_store f h).at s e)
        (λ u. Develops_of_quiet (k u) (q u));
}
