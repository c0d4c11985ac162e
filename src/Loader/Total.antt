-- ===== src/Loader/Total.antt =====
-- The end of the parsers that the sections share.
use web_assembly_interpreter.Base.{
  Action, Bool, Bool-cases, String, arith, drop, err, false, if◌then◌else◌, inl, inr, length, ltb,
  ltb→le, modify, ok, refl, runtime_error, suc, take, true, zero, ℕ, ◌+◌, ◌≡◌, ◌≤◌, ◌⊎◌,
}
use web_assembly_interpreter.Loader.Parts.{
  parse_constant_expression, read_constant, read_function_type, read_global_type, read_limits,
  read_name, read_null_reference, read_value_type, read_vector, repeat, subspan,
}
use web_assembly_interpreter.Reader.{
  Reader, ensure_available, read_f32, read_f64, read_u32, read_u8, read_varint32, read_varint64,
  read_varint7, read_varuint1, read_varuint32, read_varuint7, skip_bytes,
}
use web_assembly_interpreter.Reader.Total.{
  Answers, Reads, Reads-bind, Reads-gets, Reads-if, Reads-mono, Reads-pure, Reads-switch,
  Reads-throw, Reads-within, answers, leb-Reads, no_more, read_u32-Reads, read_u8-Reads, refuses,
  ◌▸◌,
}

pub u8-Reads : Reads 0 read_u8
u8-Reads = Reads-mono 1 _ read_u8-Reads

pub u32-Reads : Reads 0 read_u32
u32-Reads = Reads-mono 4 _ read_u32-Reads

pub varuint1-Reads : Reads 0 read_varuint1
unfolding read_varuint1
varuint1-Reads = Reads-mono 1 _ (leb-Reads 32 1).0

pub varuint7-Reads : Reads 0 read_varuint7
unfolding read_varuint7
varuint7-Reads = Reads-mono 1 _ (leb-Reads 32 7).0

pub varuint32-Reads : Reads 0 read_varuint32
unfolding read_varuint32
varuint32-Reads = Reads-mono 1 _ (leb-Reads 32 32).0

pub varint7-Reads : Reads 0 read_varint7
unfolding read_varint7
varint7-Reads = Reads-mono 1 _ (leb-Reads 32 7).1

pub varint32-Reads : Reads 0 read_varint32
unfolding read_varint32
varint32-Reads = Reads-mono 1 _ (leb-Reads 32 32).1

pub varint64-Reads : Reads 0 read_varint64
unfolding read_varint64
varint64-Reads = Reads-mono 1 _ (leb-Reads 64 64).1

pub f32-Reads : Reads 0 read_f32
unfolding read_f32
f32-Reads = u32-Reads

pub subspan-Reads : (message : String) (size : ℕ) → Reads 0 (subspan message size)
unfolding subspan
subspan-Reads message size = record { at = λ r p. go r p (ltb (length r.bytes) (r.offset + size)) }
  where
    go :
        (r : Reader)
        → r.offset ≤ length r.bytes
        → (b : Bool)
        → Answers 0 r
            (if b then err (runtime_error message) else ok (take size (drop r.offset r.bytes), r))
    go r p true = refuses (λ e. cc)
    go r p false = answers (record { same = refl; forward = omega arith; inside = p })

pub skip_bytes-Reads : (size : ℕ) → Reads 0 (skip_bytes size)
unfolding skip_bytes ensure_available modify
skip_bytes-Reads size = record {
  at = λ r p. go r p (Bool-cases (ltb (length r.bytes) (r.offset + size)));
}
  where
    go :
        (r : Reader)
        → r.offset ≤ length r.bytes
        → (ltb (length r.bytes) (r.offset + size) ≡ true)
          ⊎ (ltb (length r.bytes) (r.offset + size) ≡ false)
        → Answers 0 r (skip_bytes size r)
    go r p (inl h) = rw h (refuses (λ e. cc))
    go r p (inr h) = rw h (
        answers
          (record { same = refl; forward = omega arith; inside = omega (arith, ltb→le _ _ h) }))

pub ruleset read_steps = (
  Reads-bind, Reads-if, Reads-pure, Reads-throw, Reads-gets, Reads-switch, Reads-within, no_more,
  ◌▸◌,
)

pub ruleset total_rules = (
  read_steps, u8-Reads, u32-Reads, varuint1-Reads, varuint7-Reads, varuint32-Reads, varint7-Reads,
  varint32-Reads, varint64-Reads, f32-Reads, subspan-Reads, skip_bytes-Reads,
)

pub f64-Reads : Reads 0 read_f64
unfolding read_f64
f64-Reads = search total_rules

pub repeat-Reads : {A : Type 0} (n : ℕ) (m : Action Reader A) → Reads 0 m → Reads 0 (repeat n m)
unfolding repeat
repeat-Reads zero m h = Reads-pure _
repeat-Reads (suc n) m h =
    Reads-bind 0 _ _ h λ x. Reads-bind 0 _ _ (repeat-Reads n m h) λ xs. Reads-pure _

pub vector-Reads : {A : Type 0} (m : Action Reader A) → Reads 0 m → Reads 0 (read_vector m)
unfolding read_vector
vector-Reads m h = Reads-bind 0 _ _ varuint32-Reads λ n. repeat-Reads n m h

pub value_type-Reads : Reads 0 read_value_type
unfolding read_value_type
value_type-Reads = search total_rules

pub limits-Reads : Reads 0 read_limits
unfolding read_limits
limits-Reads = search total_rules depth 20

pub name-Reads : Reads 0 read_name
unfolding read_name
name-Reads = search (total_rules, repeat-Reads)

pub global_type-Reads : Reads 0 read_global_type
unfolding read_global_type
global_type-Reads = search (total_rules, value_type-Reads)

pub function_type-Reads : Reads 0 read_function_type
unfolding read_function_type
function_type-Reads = search (total_rules, vector-Reads, value_type-Reads) depth 20

null_reference-Reads : Reads 0 read_null_reference
unfolding read_null_reference
null_reference-Reads = search total_rules depth 20

constant-Reads : (opcode : ℕ) → Reads 0 (read_constant opcode)
unfolding read_constant
constant-Reads opcode = search (total_rules, f64-Reads, null_reference-Reads) depth 40

pub constant_expression-Reads : Reads 0 parse_constant_expression
unfolding parse_constant_expression
constant_expression-Reads = search (total_rules, constant-Reads) depth 20
