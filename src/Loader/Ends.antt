-- ===== src/Loader/Ends.antt =====
-- The end of loading, within the fuel of `parse_module`.
use web_assembly_interpreter.Base.{
  Action, Bool-cases, List, Result, and_then, arith, err, false, get_or, gets, inl, inr, length,
  le→ltb, ltb, ltb→le, not, ok, out_of_fuel, pure, refl, suc, throw, true, zero, ℕ, ◌&&◌, ◌+◌, ◌-◌,
  ◌<◌, ◌==◌, ◌>>=◌, ◌∙◌, ◌≡◌, ◌≢◌, ◌≤◌, ◌⊎◌,
}
use web_assembly_interpreter.Loader.Parse.{
  parse, parse_header, parse_module, parse_next, parse_section, parse_sections, read_section,
}
use web_assembly_interpreter.Loader.Sections.{
  parse_code_section, parse_data_count_section, parse_data_section, parse_element_section,
  parse_export_section, parse_function_section, parse_global_section, parse_import_section,
  parse_memory_section, parse_start_section, parse_table_section, parse_type_section, read_code,
  read_code_entry, read_data_segment, read_element_kind, read_element_segment, read_export,
  read_global, read_import, read_import_desc, read_local_decl, read_memory_type, read_table_type,
}
use web_assembly_interpreter.Loader.Total.{
  constant_expression-Reads, function_type-Reads, global_type-Reads, limits-Reads, name-Reads,
  repeat-Reads, total_rules, value_type-Reads, vector-Reads,
}
use web_assembly_interpreter.Module.{
  ExternalKind, Module, empty_module, function_kind, global_kind, memory_kind, other_kind,
  table_kind,
}
use web_assembly_interpreter.Reader.{Reader, ensure_available, eof, read_u8, reader_at, set_offset}
use web_assembly_interpreter.Reader.Total.{
  Answers, Answers-and_then, Reads, Reads-bind, Reads-if, Reads-pure, Reads-throw, Reads-within,
  answers, read_u8-Reads, refuses,
}

ruleset part_rules = (
  total_rules, vector-Reads, value_type-Reads, limits-Reads, name-Reads, global_type-Reads,
  function_type-Reads, constant_expression-Reads, repeat-Reads,
)

import_desc-Reads : (kind : ExternalKind) → Reads 0 (read_import_desc kind)
unfolding read_import_desc
import_desc-Reads function_kind = search part_rules
import_desc-Reads table_kind = search part_rules
import_desc-Reads memory_kind = search part_rules
import_desc-Reads global_kind = search part_rules
import_desc-Reads (other_kind b) = search part_rules

import-Reads : Reads 0 read_import
unfolding read_import
import-Reads = search (part_rules, import_desc-Reads) depth 20

table_type-Reads : Reads 0 read_table_type
unfolding read_table_type
table_type-Reads = search part_rules depth 20

memory_type-Reads : Reads 0 read_memory_type
unfolding read_memory_type
memory_type-Reads = search part_rules

global-Reads : Reads 0 read_global
unfolding read_global
global-Reads = search part_rules

export-Reads : Reads 0 read_export
unfolding read_export
export-Reads = search part_rules

-- Putting the byte back undoes the read of it.
element_kind-Reads : Reads 0 read_element_kind
unfolding read_element_kind read_u8 set_offset ensure_available pure throw
element_kind-Reads = record {
  at = λ r p.
      go r p (Bool-cases (ltb (length r.bytes) (r.offset + 1)))
        (Bool-cases (not (get_or r.bytes r.offset 0 == 0) && not (get_or r.bytes r.offset 0 == 1)));
}
  where
    go :
        (r : Reader)
        → r.offset ≤ length r.bytes
        → (ltb (length r.bytes) (r.offset + 1) ≡ true)
          ⊎ (ltb (length r.bytes) (r.offset + 1) ≡ false)
        → ((not (get_or r.bytes r.offset 0 == 0) && not (get_or r.bytes r.offset 0 == 1)) ≡ true)
          ⊎ ((not (get_or r.bytes r.offset 0 == 0) && not (get_or r.bytes r.offset 0 == 1)) ≡ false)
        → Answers 0 r (read_element_kind r)
    go r p (inl h) k = rw h (refuses (λ e. cc))
    go r p (inr h) (inl other) =
        rw (h, other, le→ltb (length r.bytes) (suc r.offset - 1) (omega arith))
          (answers (record { same = refl; forward = omega arith; inside = omega (arith, p) }))
    go r p (inr h) (inr kind) =
        rw (h, kind)
          (elim (Bool-cases (get_or r.bytes r.offset 0 == 0)) [
            | inl at_zero ↦ rw at_zero (
                answers (record {
                  same = refl;
                  forward = omega arith;
                  inside = omega (arith, ltb→le _ _ h);
                }))
            | inr wrong ↦ rw wrong (refuses (λ e. cc))
          ])

element_segment-Reads : Reads 0 read_element_segment
unfolding read_element_segment
element_segment-Reads = search (part_rules, element_kind-Reads) depth 30

local_decl-Reads : Reads 0 read_local_decl
unfolding read_local_decl
local_decl-Reads = search part_rules

code_entry-Reads : Reads 0 read_code_entry
unfolding read_code_entry
code_entry-Reads = search (part_rules, local_decl-Reads)

code-Reads : Reads 0 read_code
unfolding read_code
code-Reads = search (part_rules, code_entry-Reads) depth 20

data_segment-Reads : Reads 0 read_data_segment
unfolding read_data_segment
data_segment-Reads = search part_rules depth 60

section-Reads : (id : ℕ) (m : Module) → Reads 0 (parse_section id m)
unfolding parse_section parse_type_section parse_import_section parse_function_section
    parse_table_section parse_memory_section parse_global_section parse_export_section
    parse_start_section parse_element_section parse_code_section parse_data_section
    parse_data_count_section
section-Reads id m =
    search
      (
        part_rules, import-Reads, table_type-Reads, memory_type-Reads, global-Reads, export-Reads,
        element_segment-Reads, code-Reads, data_segment-Reads,
      )
      depth 80

read_section-Reads : Reads 1 read_section
unfolding read_section
read_section-Reads = Reads-bind 1 _ _ read_u8-Reads λ id. search part_rules

next-Reads : (m : Module) → Reads 1 (parse_next m)
unfolding parse_next
next-Reads m =
    Reads-bind 1 _ _ read_section-Reads
      λ s. Reads-if 0 _ _ _ (Reads-pure _) (Reads-within _ _ (section-Reads s.id m))

header-Reads : Reads 0 parse_header
unfolding parse_header
header-Reads = search part_rules

module _ (r : Reader) (f : Module → Action Reader Module)
    (rest : (m : Module) (t : Reader)
      → t.offset ≤ length t.bytes
      → length t.bytes - t.offset < length r.bytes - r.offset
      → Answers 0 t (f m t)) where
  round-Answers :
      (x : Result (Module × Reader))
      → r.offset ≤ length r.bytes
      → Answers 1 r x
      → Answers 0 r (and_then x f)
  round-Answers (ok (m, t)) p (answers h) =
      extend (f m t)
        (rest m t (rw h.same h.inside) (rw h.same (omega (arith, h.forward, h.inside))))
    where
      extend : (y : Result (Module × Reader)) → Answers 0 t y → Answers 0 r y
      extend (ok (m', u)) (answers k) = answers (record {
        same = k.same ∙ h.same;
        forward = omega (arith, h.forward, k.forward);
        inside = rw⁻¹ h.same k.inside;
      })
      extend (err e) (refuses ne) = refuses ne
  round-Answers (err e) p (refuses ne) = refuses ne

-- Each round takes a byte, so the loop ends before its fuel does.
sections-Answers :
    (fuel : ℕ) (m : Module) (r : Reader)
    → r.offset ≤ length r.bytes
    → length r.bytes - r.offset < fuel
    → Answers 0 r (parse_sections fuel m r)
unfolding parse_sections ◌>>=◌ gets pure
sections-Answers zero m r p h = absurd (omega arith)
sections-Answers (suc fuel) m r p h = elim (Bool-cases (eof r)) [
  | inl ended ↦ rw ended (answers (record { same = refl; forward = omega arith; inside = p }))
  | inr more ↦ rw more (
      round-Answers r (parse_sections fuel)
        (λ m t q less. sections-Answers fuel m t q (omega (arith, less, h))) (parse_next m r) p
        ((next-Reads m).at r p))
]

fuelled-Reads :
    {B : Type 0} (f : Module → Action Reader B)
    → ((m : Module) → Reads 0 (f m))
    → Reads 0 (do fuel ← gets (λ r. length r.bytes + 1); m ← parse_sections fuel empty_module; f m)
unfolding ◌>>=◌ gets
fuelled-Reads f h = record {
  at = λ r p.
      Answers-and_then 0 0 r (parse_sections (length r.bytes + 1) empty_module r) f
        (sections-Answers (length r.bytes + 1) empty_module r p (omega arith)) h;
}

parse-Reads : Reads 0 parse
unfolding parse
parse-Reads =
    Reads-bind 0 _ _ header-Reads
      λ u. fuelled-Reads _ λ m. Reads-if 0 _ _ _ (Reads-pure m) (Reads-throw 0 _)

-- Parsing any bytes ends within the fuel that the loops are given: it returns a module, or throws
-- an error of the program's own.
pub parse_module-ends : (bs : List ℕ) → parse_module bs ≢ err out_of_fuel
unfolding parse_module
parse_module-ends bs h =
    settle (parse (reader_at bs 0)) (parse-Reads.at (reader_at bs 0) (omega arith)) h
  where
    settle :
        (x : Result (Module × Reader))
        → Answers 0 (reader_at bs 0) x
        → (elim x [ ok (m, r) ↦ ok m | err e ↦ err e ]) ≢ err out_of_fuel
    settle (ok (m, r)) a h = cc
    settle (err e) (refuses ne) h = ne cc
