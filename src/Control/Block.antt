-- ===== src/Control/Block.antt =====
-- What `analyze_block` finds: the `end` of the block, and its `else`.
use web_assembly_interpreter.Base.{
  ==_iff, Action, Bool, Bool-cases, Error, List, Option, Result, ap, arith, err, false, get_elem?,
  get_elem?-some, get_or, get_or_of_some, gets, if◌then◌else◌, inl, inr, leb, length, le→ltb, ltb,
  ltb→le, ltb→lt, none, ok, out_of_fuel, pure, refl, some, suc, switch, sym, throw, true, zero, ℕ,
  ◌+◌, ◌-◌, ◌<◌, ◌==◌, ◌>>=◌, ◌>>◌, ◌∙◌, ◌≡◌, ◌≢◌, ◌≤◌, ◌⊎◌,
}
use web_assembly_interpreter.Control.{
  BlockInfo, analyze_block, analyze_loop, skip_block_type, skip_immediate,
}
use web_assembly_interpreter.Control.Skip.{skip_block_type-Reads, skip_immediate-Reads}
use web_assembly_interpreter.Reader.{Reader, ensure_available, eof, read_u8, reader_at, set_offset}
use web_assembly_interpreter.Reader.Total.{Answers-then, Moves, Reads, leb→gt}
use mathlib.Core.Path.{subst}

-- The `else` of a block, if any: an opcode in the block, before position `stop`.
abbrev pub IsElse : List ℕ → ℕ → ℕ → Option ℕ → Option ℕ → Type 0
IsElse code start stop none none = Unit
IsElse code start stop (some p) (some q) =
    (start ≤ p) × ((p < stop) × ((get_elem? code p ≡ some 0x05) × (q ≡ suc p)))
IsElse code start stop _ _ = ⊥

pub record IsBlock (code : List ℕ) (start : ℕ) (info : BlockInfo) : Type 0 where
  pub body : info.body_start ≡ start
  pub inside : start ≤ info.end_pc
  pub ends : get_elem? code info.end_pc ≡ some 0x0B
  pub after : info.end_next_pc ≡ suc info.end_pc
  pub alternative : IsElse code start info.end_pc info.else_pc info.else_body_pc

IsElse-mono :
    (code : List ℕ) (start i j : ℕ) (p q : Option ℕ)
    → i ≤ j
    → IsElse code start i p q
    → IsElse code start j p q
IsElse-mono code start i j none none le h = tt
IsElse-mono code start i j (some p) (some q) le (a, (b, (c, d))) =
    (a, (omega (arith, b, le), (c, d)))
IsElse-mono code start i j none (some q) le h = h
IsElse-mono code start i j (some p) none le h = h

data Found (code : List ℕ) (start : ℕ) : Result (BlockInfo × Reader) → Type 0 where
  found :
      {info : BlockInfo} {r : Reader} → IsBlock code start info → Found code start (ok (info, r))
  missed : {e : Error} → e ≢ out_of_fuel → Found code start (err e)

Found-if :
    (code : List ℕ) (start : ℕ) (b : Bool) (m k : Action Reader BlockInfo) (r : Reader)
    → (b ≡ true → Found code start (m r))
    → (b ≡ false → Found code start (k r))
    → Found code start ((if b then m else k) r)
Found-if code start true m k r h g = h refl
Found-if code start false m k r h g = g refl

read_u8-inside :
    (bs : List ℕ) (i : ℕ)
    → i < length bs
    → read_u8 (reader_at bs i) ≡ ok (get_or bs i 0, reader_at bs (suc i))
unfolding read_u8 ensure_available ◌>>=◌
read_u8-inside bs i h = rw (le→ltb (length bs) (i + 1) (omega arith)) refl

get_elem?-get_or :
    (bs : List ℕ) (i b : ℕ) → i < length bs → (get_or bs i 0 == b) ≡ true → get_elem? bs i ≡ some b
get_elem?-get_or bs i b h e =
    let (y, there) = get_elem?-some bs i h in
    let same : y ≡ b = sym (get_or_of_some bs i 0 there) ∙ (==_iff (get_or bs i 0) b).0 e in
    there ∙ ap some same

module _ (bs : List ℕ) (start : ℕ) where
  -- The state of the loop at position `i`.
  record IsOpen (i : ℕ) (info : BlockInfo) : Type 0 where
    body : info.body_start ≡ start
    behind : start ≤ i
    within : i ≤ length bs
    alternative : IsElse bs start i info.else_pc info.else_body_pc

  IsOpen-later :
      (i j : ℕ) (info : BlockInfo) → i ≤ j → j ≤ length bs → IsOpen i info → IsOpen j info
  IsOpen-later i j info le small o = record {
    body = o.body;
    behind = omega (arith, o.behind, le);
    within = small;
    alternative = IsElse-mono bs start i j info.else_pc info.else_body_pc le o.alternative;
  }

  -- One round at an opcode, when what follows it is known.
  module _ (fuel i : ℕ) (info : BlockInfo) (o : IsOpen i info) (here : i < length bs)
      (rest : (depth : ℕ) (info : BlockInfo) (j : ℕ)
        → IsOpen j info
        → i < j
        → Found bs start (analyze_loop fuel depth info (reader_at bs j))) where
    go_on :
        (depth : ℕ) (t : Reader)
        → Moves 0 (reader_at bs (suc i)) t
        → Found bs start (analyze_loop fuel depth info t)
    go_on depth t h =
        subst (λ b. Found bs start (analyze_loop fuel depth info (reader_at b t.offset)))
          (sym h.same)
          (rest depth info t.offset
            (IsOpen-later i t.offset info (omega (arith, h.forward)) h.inside o)
            (omega (arith, h.forward)))

    skipped-Found :
        (m : Action Reader (Unit {0})) (depth : ℕ)
        → Reads 0 m
        → Found bs start ((m >> analyze_loop fuel depth info) (reader_at bs (suc i)))
    unfolding ◌>>=◌
    skipped-Found m depth reads =
        Answers-then 0 (reader_at bs (suc i)) (m (reader_at bs (suc i)))
          (λ u. analyze_loop fuel depth info) (Found bs start)
          (reads.at (reader_at bs (suc i)) (omega (arith, here))) (λ u t h. go_on depth t h)
          (λ e ne. missed ne)

    after : IsOpen (suc i) info
    after = IsOpen-later i (suc i) info (omega arith) (omega (arith, here)) o

    else-Found :
        (depth : ℕ)
        → get_elem? bs i ≡ some 0x05
        → Found bs start (
            analyze_loop fuel depth
              (if depth == 1
                then record info { else_pc = some i; else_body_pc = some (suc i) }
                else info)
              (reader_at bs (suc i)))
    else-Found depth at_else = elim (Bool-cases (depth == 1)) [
      | inl outermost ↦ rw outermost (
          rest depth (record info { else_pc = some i; else_body_pc = some (suc i) }) (suc i)
            (record {
              body = o.body;
              behind = omega (arith, o.behind);
              within = omega (arith, here);
              alternative = (o.behind, (omega arith, (at_else, refl)));
            })
            (omega arith))
      | inr nested ↦ rw nested (rest depth info (suc i) after (omega arith))
    ]

    round-Found : (depth : ℕ) → Found bs start (analyze_loop (suc fuel) depth info (reader_at bs i))
    unfolding analyze_loop ◌>>=◌ gets eof switch pure throw
    round-Found depth =
        Found-if bs start (leb (length bs) i) _ _ (reader_at bs i) (λ ended. missed (λ e. cc))
          λ more. rw (read_u8-inside bs i here) (
            Found-if bs start (get_or bs i 0 == 2) _ _ (reader_at bs (suc i))
              (λ e. skipped-Found skip_block_type (suc depth) skip_block_type-Reads)
              λ _.
                Found-if bs start (get_or bs i 0 == 3) _ _ (reader_at bs (suc i))
                  (λ e. skipped-Found skip_block_type (suc depth) skip_block_type-Reads)
                  λ _.
                    Found-if bs start (get_or bs i 0 == 4) _ _ (reader_at bs (suc i))
                      (λ e. skipped-Found skip_block_type (suc depth) skip_block_type-Reads)
                      λ _.
                        Found-if bs start (get_or bs i 0 == 5) _ _ (reader_at bs (suc i))
                          (λ e. else-Found depth (get_elem?-get_or bs i 5 here e))
                          λ _.
                            Found-if bs start (get_or bs i 0 == 11) _ _ (reader_at bs (suc i))
                              (λ e.
                                Found-if bs start (depth == 1) _ _ (reader_at bs (suc i))
                                  (λ _. found (record {
                                    body = o.body;
                                    inside = o.behind;
                                    ends = get_elem?-get_or bs i 11 here e;
                                    after = refl;
                                    alternative = o.alternative;
                                  }))
                                  (λ _. rest (depth - 1) info (suc i) after (omega arith)))
                              (λ _.
                                skipped-Found (skip_immediate (get_or bs i 0)) depth
                                  (skip_immediate-Reads _)))

  at_end-Found :
      (fuel depth : ℕ) (info : BlockInfo) (i : ℕ)
      → length bs ≤ i
      → Found bs start (analyze_loop (suc fuel) depth info (reader_at bs i))
  unfolding analyze_loop ◌>>=◌ gets eof throw
  at_end-Found fuel depth info i h =
      Found-if bs start (leb (length bs) i) _ _ (reader_at bs i) (λ ended. missed (λ e. cc))
        (λ more. absurd (omega (arith, h, leb→gt (length bs) i more)))

  analyze_loop-Found :
      (fuel depth : ℕ) (info : BlockInfo) (i : ℕ)
      → IsOpen i info
      → length bs - i < fuel
      → Found bs start (analyze_loop fuel depth info (reader_at bs i))
  analyze_loop-Found zero depth info i o h = absurd (omega arith)
  analyze_loop-Found (suc fuel) depth info i o h = elim (Bool-cases (ltb i (length bs))) [
    | inl here ↦
        round-Found fuel i info o (ltb→lt _ _ here)
          (λ depth' info' j o' later.
            analyze_loop-Found fuel depth' info' j o' (omega (arith, h, o'.within)))
          depth
    | inr ended ↦ at_end-Found fuel depth info i (ltb→le _ _ ended)
  ]

abbrev block_only : Result (BlockInfo × Reader) → Result BlockInfo
block_only x = elim x [ ok (info, r) ↦ ok info | err e ↦ err e ]

Found-block_only :
    (code : List ℕ) (start : ℕ) (x : Result (BlockInfo × Reader))
    → Found code start x
    → ((info : BlockInfo) × ((block_only x ≡ ok info) × IsBlock code start info))
      ⊎ ((e : Error) × ((block_only x ≡ err e) × (e ≢ out_of_fuel)))
Found-block_only code start (ok (info, r)) (found h) = inl (info, (refl, h))
Found-block_only code start (err e) (missed ne) = inr (e, (refl, ne))

abbrev unknown_block : ℕ → BlockInfo
unknown_block start = record {
  body_start = start;
  end_pc = 0;
  end_next_pc = 0;
  else_pc = none;
  else_body_pc = none;
}

start-Found :
    (code : List ℕ) (start : ℕ)
    → Found code start (
        (set_offset start >> analyze_loop (length code + 1) 1 (unknown_block start))
          (reader_at code 0))
unfolding set_offset ◌>>=◌
start-Found code start = elim (Bool-cases (ltb (length code) start)) [
  | inl over ↦ rw over (missed (λ e. cc))
  | inr fits ↦ rw fits (
      analyze_loop-Found code start (length code + 1) 1 (unknown_block start) start
        (record { body = refl; behind = omega arith; within = ltb→le _ _ fits; alternative = tt })
        (omega arith))
]

-- The search for the end of a block from a position in the code ends within its fuel: it finds an
-- `end` opcode at or behind the position, with the position behind it, and an `else` opcode before
-- it or none; or it throws an error of the program's own.
pub analyze_block-IsBlock :
    (code : List ℕ) (start : ℕ)
    → ((info : BlockInfo) × ((analyze_block code start ≡ ok info) × IsBlock code start info))
      ⊎ ((e : Error) × ((analyze_block code start ≡ err e) × (e ≢ out_of_fuel)))
unfolding analyze_block
analyze_block-IsBlock code start = Found-block_only code start _ (start-Found code start)
