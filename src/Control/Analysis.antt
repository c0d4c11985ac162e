-- ===== src/Control/Analysis.antt =====
-- `analyze_block` against instructions as byte ranges.
use web_assembly_interpreter.Base.{
  Bool-cases, Error, List, Option, Result, ap, err, get_elem?, inl, inr, length, ltb, none, ok,
  out_of_fuel, refl, some, suc, sym, ℕ, ◌>>◌, ◌∙◌, ◌≡◌, ◌≢◌, ◌⊎◌,
}
use web_assembly_interpreter.Control.{BlockInfo, analyze_block, analyze_loop}
use web_assembly_interpreter.Control.Block.{analyze_block-IsBlock}
use web_assembly_interpreter.Control.Extent.{Yields}
use web_assembly_interpreter.Control.Instruction.{IsSequence, or_else}
use web_assembly_interpreter.Control.Nesting.{Finds, Finds-bind, analyze_loop-Finds, behind}
use web_assembly_interpreter.Reader.{Reader, reader_at, set_offset}
use mathlib.Core.Path.{subst}

-- The instructions from the start to the end that is found are a sequence, whose last `else` is the
-- one that is found.
pub record IsAnalysed (code : List ℕ) (start : ℕ) (info : BlockInfo) : Type 0 where
  pub body : info.body_start ≡ start
  pub sequence : IsSequence code start info.end_pc info.else_pc
  pub ends : get_elem? code info.end_pc ≡ some 0x0B
  pub after : info.end_next_pc ≡ suc info.end_pc
  pub alternative : info.else_body_pc ≡ behind info.else_pc

or_else-none : (o : Option ℕ) → or_else o none ≡ o
or_else-none none = refl
or_else-none (some p) = refl

set_offset-Yields :
    (code : List ℕ) (i : ℕ) (r : Reader)
    → r.bytes ≡ code
    → Yields code (λ u j. j ≡ i) (set_offset i r)
unfolding set_offset
set_offset-Yields code i r same = elim (Bool-cases (ltb (length r.bytes) i)) [
  | inl over ↦ rw over tt
  | inr fits ↦ rw fits (same, refl)
]

start-Finds :
    (code : List ℕ) (start fuel : ℕ) (before : BlockInfo)
    → Finds code 0 start before
        ((set_offset start >> analyze_loop fuel 1 before) (reader_at code 0))
start-Finds code start fuel before =
    Finds-bind code 0 start before (λ u j. j ≡ start) (set_offset start) _ (reader_at code 0)
      (set_offset-Yields code start (reader_at code 0) refl)
      λ u j at.
        subst (λ n. Finds code 0 start before (analyze_loop fuel 1 before (reader_at code n)))
          (sym at) (analyze_loop-Finds code fuel 0 start before)

found-IsAnalysed :
    (code : List ℕ) (start : ℕ) (before info : BlockInfo) (x : Result (BlockInfo × Reader))
    → before.body_start ≡ start
    → before.else_pc ≡ none
    → before.else_body_pc ≡ none
    → (elim x [ ok (info, r) ↦ ok info | err e ↦ err e ]) ≡ ok info
    → Finds code 0 start before x
    → IsAnalysed code start info
found-IsAnalysed code start before info (ok (found, r)) from no_first no_body at h =
    subst (IsAnalysed code start) (ap (λ r. elim r [ ok i ↦ i | err e ↦ found ]) at) (record {
      body = h.body ∙ from;
      sequence =
          subst (IsSequence code start found.end_pc) (sym (same_else h.last_else h.at_else))
            h.closes.0;
      ends = h.closes.1;
      after = h.next;
      alternative =
          h.in_else
          ∙ ap (or_else (behind h.last_else)) no_body
          ∙ or_else-none (behind h.last_else)
          ∙ ap behind (sym (same_else h.last_else h.at_else));
    })
  where
    same_else : (o : Option ℕ) → found.else_pc ≡ or_else o before.else_pc → found.else_pc ≡ o
    same_else o e = e ∙ ap (or_else o) no_first ∙ or_else-none o
found-IsAnalysed code start before info (err e) from no_first no_body at h = cc

analyzed-IsAnalysed :
    (code : List ℕ) (start : ℕ) (info : BlockInfo)
    → analyze_block code start ≡ ok info
    → IsAnalysed code start info
unfolding analyze_block
analyzed-IsAnalysed code start info at =
    found-IsAnalysed code start _ info _ refl refl refl at (start-Finds code start _ _)

-- The search for the end of a block ends within its fuel, with an error of the program's own or with
-- an answer: from the start to the end that it gives, the code is a sequence of instructions, each
-- with the immediates of its opcode and each block in it with its own `end`; an `end` stands behind
-- them; and the `else` is the last one that is in no inner block, if there is one.
pub analyze_block-IsAnalysed :
    (code : List ℕ) (start : ℕ)
    → ((info : BlockInfo) × ((analyze_block code start ≡ ok info) × IsAnalysed code start info))
      ⊎ ((e : Error) × ((analyze_block code start ≡ err e) × (e ≢ out_of_fuel)))
analyze_block-IsAnalysed code start = elim (analyze_block-IsBlock code start) [
  | inl (info, (at, h)) ↦ inl (info, (at, analyzed-IsAnalysed code start info at))
  | inr h ↦ inr h
]
