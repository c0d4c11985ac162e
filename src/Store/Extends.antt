-- ===== src/Store/Extends.antt =====
-- How a store may develop: what code can never undo.
use web_assembly_interpreter.Base.{
  IsPreorder, List, Pointwise, Pointwise-refl, Pointwise-set, Pointwise-trans, ap, arith, false,
  get_elem?, length, refl, set, some, true, ℕ, ◌<◌, ◌^◌, ◌∙◌, ◌≡◌, ◌≤◌,
}
use web_assembly_interpreter.Memory.{MemoryInstance, over_maximum}
use web_assembly_interpreter.Memory.Size.{IsSized}
use web_assembly_interpreter.Module.{GlobalType}
use web_assembly_interpreter.Store.{DataSegmentInstance, GlobalInstance, Store, TableInstance}
use web_assembly_interpreter.Types.{Value}

pub record GlobalExtends (g g' : GlobalInstance) : Type 0 where
  pub type : g'.type ≡ g.type
  pub constant : g.type.is_mutable ≡ false → g'.value ≡ g.value

pub record MemoryExtends (m m' : MemoryInstance) : Type 0 where
  pub type : m'.type ≡ m.type
  pub size : IsSized m → IsSized m' × (length m.contents ≤ length m'.contents)

-- A table counts its elements in 32 bits and stays within its declared maximum.
pub record IsBounded (t : TableInstance) : Type 0 where
  pub countable : length t.elements < 2 ^ 32
  pub within : over_maximum t.type.limits.max_size (length t.elements) ≡ false

pub record TableExtends (t t' : TableInstance) : Type 0 where
  pub type : t'.type ≡ t.type
  pub value_type : t'.value_type ≡ t.value_type
  pub size : length t.elements ≤ length t'.elements
  pub within : IsBounded t → IsBounded t'

pub record SegmentExtends (g g' : DataSegmentInstance) : Type 0 where
  pub bytes : g'.bytes ≡ g.bytes
  pub dropped : g.dropped ≡ true → g'.dropped ≡ true

-- Types and functions stay. Globals, memories, tables and segments keep their number and types;
-- an immutable global keeps its value, memories and tables stay well sized and do not shrink, and a
-- dropped segment stays dropped.
pub record Extends (s s' : Store) : Type 0 where
  pub types : s'.types ≡ s.types
  pub functions : s'.functions ≡ s.functions
  pub globals : Pointwise GlobalExtends s.globals s'.globals
  pub memories : Pointwise MemoryExtends s.memories s'.memories
  pub tables : Pointwise TableExtends s.tables s'.tables
  pub data_segments : Pointwise SegmentExtends s.data_segments s'.data_segments

GlobalExtends-refl : (g : GlobalInstance) → GlobalExtends g g
GlobalExtends-refl g = record { type = refl; constant = λ h. refl }

MemoryExtends-refl : (m : MemoryInstance) → MemoryExtends m m
MemoryExtends-refl m = record { type = refl; size = λ h. (h, omega arith) }

TableExtends-refl : (t : TableInstance) → TableExtends t t
TableExtends-refl t = record { type = refl; value_type = refl; size = omega arith; within = λ h. h }

SegmentExtends-refl : (g : DataSegmentInstance) → SegmentExtends g g
SegmentExtends-refl g = record { bytes = refl; dropped = λ h. h }

GlobalExtends-trans :
    (a b c : GlobalInstance) → GlobalExtends a b → GlobalExtends b c → GlobalExtends a c
GlobalExtends-trans a b c h k = record {
  type = k.type ∙ h.type;
  constant = λ e. k.constant (ap (λ (t : GlobalType). t.is_mutable) h.type ∙ e) ∙ h.constant e;
}

MemoryExtends-trans :
    (a b c : MemoryInstance) → MemoryExtends a b → MemoryExtends b c → MemoryExtends a c
MemoryExtends-trans a b c h k = record {
  type = k.type ∙ h.type;
  size = λ p. let (q, le₁) = h.size p in let (r, le₂) = k.size q in (r, omega (arith, le₁, le₂));
}

TableExtends-trans :
    (a b c : TableInstance) → TableExtends a b → TableExtends b c → TableExtends a c
TableExtends-trans a b c h k = record {
  type = k.type ∙ h.type;
  value_type = k.value_type ∙ h.value_type;
  size = omega (arith, h.size, k.size);
  within = λ p. k.within (h.within p);
}

SegmentExtends-trans :
    (a b c : DataSegmentInstance) → SegmentExtends a b → SegmentExtends b c → SegmentExtends a c
SegmentExtends-trans a b c h k = record {
  bytes = k.bytes ∙ h.bytes;
  dropped = λ e. k.dropped (h.dropped e);
}

pub Extends-refl : (s : Store) → Extends s s
Extends-refl s = record {
  types = refl;
  functions = refl;
  globals = Pointwise-refl GlobalExtends GlobalExtends-refl s.globals;
  memories = Pointwise-refl MemoryExtends MemoryExtends-refl s.memories;
  tables = Pointwise-refl TableExtends TableExtends-refl s.tables;
  data_segments = Pointwise-refl SegmentExtends SegmentExtends-refl s.data_segments;
}

pub Extends-trans : (s t u : Store) → Extends s t → Extends t u → Extends s u
Extends-trans s t u h k = record {
  types = k.types ∙ h.types;
  functions = k.functions ∙ h.functions;
  globals =
      Pointwise-trans GlobalExtends GlobalExtends-trans s.globals t.globals u.globals h.globals
        k.globals;
  memories =
      Pointwise-trans MemoryExtends MemoryExtends-trans s.memories t.memories u.memories h.memories
        k.memories;
  tables =
      Pointwise-trans TableExtends TableExtends-trans s.tables t.tables u.tables h.tables k.tables;
  data_segments =
      Pointwise-trans SegmentExtends SegmentExtends-trans s.data_segments t.data_segments
        u.data_segments h.data_segments k.data_segments;
}

instance pub Extends-IsPreorder : IsPreorder Extends
Extends-IsPreorder = record { stay = Extends-refl; chain = Extends-trans }

-- Writes that leave the length as it is.
pub MemoryExtends-same_length :
    (m : MemoryInstance) (bs : List ℕ)
    → length bs ≡ length m.contents
    → MemoryExtends m (record m { contents = bs })
MemoryExtends-same_length m bs e = record {
  type = refl;
  size = λ p. (
    record { whole = rw e p.whole; addressable = rw e p.addressable; within = rw e p.within },
    omega (arith, e),
  );
}

pub TableExtends-same_length :
    (t : TableInstance) (vs : List Value)
    → length vs ≡ length t.elements
    → TableExtends t (record t { elements = vs })
TableExtends-same_length t vs e = record {
  type = refl;
  value_type = refl;
  size = omega (arith, e);
  within = λ p. record { countable = rw e p.countable; within = rw e p.within };
}

-- The four kinds of write.
module _ (s : Store) (i : ℕ) where
  pub Extends-set_global :
      (g g' : GlobalInstance)
      → get_elem? s.globals i ≡ some g
      → GlobalExtends g g'
      → Extends s (record s { globals = set s.globals i g' })
  Extends-set_global g g' e h = record {
    types = refl;
    functions = refl;
    globals = Pointwise-set GlobalExtends GlobalExtends-refl s.globals i g g' e h;
    memories = (Extends-refl s).memories;
    tables = (Extends-refl s).tables;
    data_segments = (Extends-refl s).data_segments;
  }

  pub Extends-set_memory :
      (m m' : MemoryInstance)
      → get_elem? s.memories i ≡ some m
      → MemoryExtends m m'
      → Extends s (record s { memories = set s.memories i m' })
  Extends-set_memory m m' e h = record {
    types = refl;
    functions = refl;
    globals = (Extends-refl s).globals;
    memories = Pointwise-set MemoryExtends MemoryExtends-refl s.memories i m m' e h;
    tables = (Extends-refl s).tables;
    data_segments = (Extends-refl s).data_segments;
  }

  pub Extends-set_table :
      (t t' : TableInstance)
      → get_elem? s.tables i ≡ some t
      → TableExtends t t'
      → Extends s (record s { tables = set s.tables i t' })
  Extends-set_table t t' e h = record {
    types = refl;
    functions = refl;
    globals = (Extends-refl s).globals;
    memories = (Extends-refl s).memories;
    tables = Pointwise-set TableExtends TableExtends-refl s.tables i t t' e h;
    data_segments = (Extends-refl s).data_segments;
  }

  pub Extends-set_segment :
      (g g' : DataSegmentInstance)
      → get_elem? s.data_segments i ≡ some g
      → SegmentExtends g g'
      → Extends s (record s { data_segments = set s.data_segments i g' })
  Extends-set_segment g g' e h = record {
    types = refl;
    functions = refl;
    globals = (Extends-refl s).globals;
    memories = (Extends-refl s).memories;
    tables = (Extends-refl s).tables;
    data_segments = Pointwise-set SegmentExtends SegmentExtends-refl s.data_segments i g g' e h;
  }
