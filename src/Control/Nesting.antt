-- ===== src/Control/Nesting.antt =====
-- The loop of `analyze_block` against instructions as byte ranges.
use web_assembly_interpreter.Base.{
  ==_iff, Action, Bool, List, Option, Result, and_then, ap, arith, err, false, get_elem?, gets,
  if◌then◌else◌, leb, length, none, ok, pure, refl, some, suc, switch, sym, throw, true, zero, ℕ,
  ◌-◌, ◌==◌, ◌>>=◌, ◌>>◌, ◌∙◌, ◌≡◌,
}
use web_assembly_interpreter.Control.{BlockInfo, analyze_loop, skip_block_type, skip_immediate}
use web_assembly_interpreter.Control.Extent.{Yields, read_u8-Yields}
use web_assembly_interpreter.Control.Instruction.{
  IsSequence, Stands, alternative, block, block_type, empty, immediate, is_opener, or_else, simple,
}
use web_assembly_interpreter.Control.Skipped.{block_type-Skips, skip_immediate-Skips}
use web_assembly_interpreter.Reader.{Reader, eof, read_u8, reader_at}
use mathlib.Core.Path.{subst}

abbrev pub behind : Option ℕ → Option ℕ
behind none = none
behind (some p) = some (suc p)

-- The end of the block that is `depth` blocks out of the innermost open one, and its last `else`.
abbrev pub Closes : List ℕ → ℕ → ℕ → ℕ → Option ℕ → Type 0
Closes code zero i e o = IsSequence code i e o × (get_elem? code e ≡ some 0x0B)
Closes code (suc depth) i e o =
    (k : ℕ) × ((inner : Option ℕ) × (IsSequence code i k inner
        × ((get_elem? code k ≡ some 0x0B) × Closes code depth (suc k) e o)))

-- What the loop makes of `before`.
pub record Reaches (code : List ℕ) (depth i : ℕ) (before after : BlockInfo) : Type 0 where
  pub last_else : Option ℕ
  pub closes : Closes code depth i after.end_pc last_else
  pub next : after.end_next_pc ≡ suc after.end_pc
  pub body : after.body_start ≡ before.body_start
  pub at_else : after.else_pc ≡ or_else last_else before.else_pc
  pub in_else : after.else_body_pc ≡ or_else (behind last_else) before.else_body_pc

abbrev pub Finds : List ℕ → ℕ → ℕ → BlockInfo → Result (BlockInfo × Reader) → Type 0
Finds code depth i before (ok (info, r)) = Reaches code depth i before info
Finds code depth i before (err e) = Unit

module _ (code : List ℕ) where
  Finds-if :
      (depth i : ℕ) (before : BlockInfo) (b : Bool) (m k : Action Reader BlockInfo) (r : Reader)
      → (b ≡ true → Finds code depth i before (m r))
      → (b ≡ false → Finds code depth i before (k r))
      → Finds code depth i before ((if b then m else k) r)
  Finds-if depth i before true m k r h g = h refl
  Finds-if depth i before false m k r h g = g refl

  pub Finds-bind :
      {A : Type 0} (depth i : ℕ) (before : BlockInfo) (P : A → ℕ → Type 0) (m : Action Reader A)
      (f : A → Action Reader BlockInfo) (r : Reader)
      → Yields code P (m r)
      → ((a : A) (j : ℕ) → P a j → Finds code depth i before (f a (reader_at code j)))
      → Finds code depth i before ((m >>= f) r)
  unfolding ◌>>=◌
  Finds-bind {A} depth i before P m f r h k = next (m r) h
    where
      next : (x : Result (A × Reader)) → Yields code P x → Finds code depth i before (and_then x f)
      next (ok (a, t)) (same, p) =
          subst (λ b. Finds code depth i before (f a (reader_at b t.offset))) (sym same)
            (k a t.offset p)
      next (err e) h = tt

  Finds-later :
      (d i d' i' : ℕ) (before : BlockInfo) (x : Result (BlockInfo × Reader))
      → ((e : ℕ) (o : Option ℕ) → Closes code d i e o → Closes code d' i' e o)
      → Finds code d i before x
      → Finds code d' i' before x
  Finds-later d i d' i' before (ok (info, r)) f h = record {
    last_else = h.last_else;
    closes = f info.end_pc h.last_else h.closes;
    next = h.next;
    body = h.body;
    at_else = h.at_else;
    in_else = h.in_else;
  }
  Finds-later d i d' i' before (err e) f h = tt

  -- one byte
  Finds-byte :
      (depth i : ℕ) (before : BlockInfo) (f : ℕ → Action Reader BlockInfo)
      → ((b : ℕ)
          → get_elem? code i ≡ some b
          → Finds code depth i before (f b (reader_at code (suc i))))
      → Finds code depth i before ((read_u8 >>= f) (reader_at code i))
  Finds-byte depth i before f h =
      Finds-bind depth i before (λ b j. (get_elem? code i ≡ some b) × (j ≡ suc i)) read_u8 f
        (reader_at code i) (read_u8-Yields code i)
        λ b j (at, next).
          subst (λ n. Finds code depth i before (f b (reader_at code n))) (sym next) (h b at)

  -- more in front of the innermost open block
  Closes-prepend :
      (depth i j : ℕ)
      → ((k : ℕ) (o : Option ℕ) → IsSequence code j k o → IsSequence code i k o)
      → (e : ℕ) (o : Option ℕ) → Closes code depth j e o
      → Closes code depth i e o
  Closes-prepend zero i j f e o (s, at) = (f e o s, at)
  Closes-prepend (suc depth) i j f e o (k, (inner, (s, rest))) = (k, (inner, (f k inner s, rest)))

  Closes-block :
      (depth i j b : ℕ)
      → get_elem? code i ≡ some b
      → is_opener b ≡ true
      → Stands code block_type (suc i) j
      → (e : ℕ) (o : Option ℕ) → Closes code (suc depth) j e o
      → Closes code depth i e o
  Closes-block depth i j b at opens type e o (k, (inner, (s, (stop, rest)))) =
      Closes-prepend depth i (suc k) (λ l p t. block at opens type s stop t) e o rest

  or_else-again : (o p : Option ℕ) (i : ℕ) → or_else o (some i) ≡ or_else (or_else o (some i)) p
  or_else-again none p i = refl
  or_else-again (some q) p i = refl

  behind-again :
      (o p : Option ℕ) (i : ℕ)
      → or_else (behind o) (some (suc i)) ≡ or_else (behind (or_else o (some i))) p
  behind-again none p i = refl
  behind-again (some q) p i = refl

  -- an `else` of the outermost block, and one further inside
  outer-else :
      (i : ℕ) (before : BlockInfo) (x : Result (BlockInfo × Reader))
      → get_elem? code i ≡ some 0x05
      → Finds code 0 (suc i) (record before { else_pc = some i; else_body_pc = some (suc i) }) x
      → Finds code 0 i before x
  outer-else i before (ok (info, r)) at h = record {
    last_else = or_else h.last_else (some i);
    closes = (alternative at h.closes.0 refl, h.closes.1);
    next = h.next;
    body = h.body;
    at_else = h.at_else ∙ or_else-again h.last_else before.else_pc i;
    in_else = h.in_else ∙ behind-again h.last_else before.else_body_pc i;
  }
  outer-else i before (err e) at h = tt

  inner-else :
      (depth i : ℕ)
      → get_elem? code i ≡ some 0x05
      → (e : ℕ) (o : Option ℕ) → Closes code (suc depth) (suc i) e o
      → Closes code (suc depth) i e o
  inner-else depth i at e o (k, (inner, (s, rest))) =
      (k, (or_else inner (some i), (alternative at s refl, rest)))

  else-Finds :
      (fuel depth i : ℕ) (info : BlockInfo)
      → ((info : BlockInfo)
          → Finds code depth
              (suc i)
              info
              (analyze_loop fuel (suc depth) info (reader_at code (suc i))))
      → get_elem? code i ≡ some 0x05
      → Finds code depth i info (
          analyze_loop fuel
            (suc depth)
            (if suc depth == 1
              then record info { else_pc = some i; else_body_pc = some (suc i) }
              else info)
            (reader_at code (suc i)))
  else-Finds fuel zero i info rest at = outer-else i info _ at (rest _)
  else-Finds fuel (suc depth) i info rest at =
      rw (deeper depth)
        (Finds-later (suc depth) (suc i) (suc depth) i info _ (inner-else depth i at) (rest info))
    where
      deeper : (depth : ℕ) → (suc (suc depth) == 1) ≡ false
      deeper depth = ground arith

  end-Finds :
      (fuel depth i : ℕ) (info : BlockInfo)
      → ((depth : ℕ)
          → Finds code depth
              (suc i)
              info
              (analyze_loop fuel (suc depth) info (reader_at code (suc i))))
      → get_elem? code i ≡ some 0x0B
      → Finds code depth i info (
          (if suc depth == 1
              then pure (record info { end_pc = i; end_next_pc = suc i })
              else analyze_loop fuel (suc depth - 1) info)
            (reader_at code (suc i)))
  unfolding pure
  end-Finds fuel zero i info rest at = record {
    last_else = none;
    closes = (empty, at);
    next = refl;
    body = refl;
    at_else = refl;
    in_else = refl;
  }
  end-Finds fuel (suc depth) i info rest at = rw (deeper depth) (
      subst (λ n. Finds code (suc depth) i info (analyze_loop fuel n info (reader_at code (suc i))))
        (shallower depth)
        (Finds-later depth (suc i) (suc depth) i info _ (λ e o c. (i, (none, (empty, (at, c)))))
          (rest depth)))
    where
      deeper : (depth : ℕ) → (suc (suc depth) == 1) ≡ false
      deeper depth = ground arith

      shallower : (depth : ℕ) → suc depth ≡ suc (suc depth) - 1
      shallower depth = omega arith

  -- what the loop finds from any position and depth, on less fuel
  abbrev LoopFinds : ℕ → Type 0
  LoopFinds fuel =
      (depth i : ℕ) (info : BlockInfo)
      → Finds code depth i info (analyze_loop fuel (suc depth) info (reader_at code i))

  opener-Finds :
      (fuel depth i b : ℕ) (info : BlockInfo)
      → LoopFinds fuel
      → get_elem? code i ≡ some b
      → is_opener b ≡ true
      → Finds code depth i info
          ((skip_block_type >> analyze_loop fuel (suc (suc depth)) info) (reader_at code (suc i)))
  opener-Finds fuel depth i b info rest at opens =
      Finds-bind depth i info (λ u j. Stands code block_type (suc i) j) skip_block_type _
        (reader_at code (suc i)) (block_type-Skips code (suc i))
        λ u j type.
          Finds-later (suc depth) j depth i info _ (Closes-block depth i j b at opens type)
            (rest (suc depth) j info)

  simple-Finds :
      (fuel depth i b : ℕ) (info : BlockInfo)
      → LoopFinds fuel
      → get_elem? code i ≡ some b
      → is_opener b ≡ false
      → (b == 0x05) ≡ false
      → (b == 0x0B) ≡ false
      → Finds code depth i info
          ((skip_immediate b >> analyze_loop fuel (suc depth) info) (reader_at code (suc i)))
  simple-Finds fuel depth i b info rest at not_opener not_else not_end =
      Finds-bind depth i info (λ u j. Stands code (immediate b) (suc i) j) (skip_immediate b) _
        (reader_at code (suc i)) (skip_immediate-Skips code (suc i) b)
        λ u j stands.
          Finds-later depth j depth i info _
            (Closes-prepend depth i j λ k o s. simple at not_opener not_else not_end stands s)
            (rest depth j info)

  -- one round of the loop
  round-Finds : (fuel : ℕ) → LoopFinds fuel → LoopFinds (suc fuel)
  unfolding analyze_loop switch eof gets throw ◌>>=◌
  round-Finds fuel rest depth i info =
      Finds-if depth i info (leb (length code) i) _ _ (reader_at code i) (λ _. tt)
        λ _. Finds-byte depth i info _ λ b at.
          let test = Finds-if depth i info in
          test (b == 0x02) _ _ _ (λ e. opener-Finds fuel depth i b info rest at (ground (arith, e)))
            λ n2.
              test (b == 0x03) _ _ _
                (λ e. opener-Finds fuel depth i b info rest at (ground (arith, e)))
                λ n3.
                  test (b == 0x04) _ _ _
                    (λ e. opener-Finds fuel depth i b info rest at (ground (arith, e)))
                    λ n4.
                      test (b == 0x05) _ _ _
                        (λ e.
                          else-Finds fuel depth i info (rest depth (suc i)) (is_byte b 0x05 e at))
                        λ n5.
                          test (b == 0x0B) _ _ _
                            (λ e.
                              end-Finds fuel depth i info (λ d. rest d (suc i) info)
                                (is_byte b 0x0B e at))
                            (λ n11.
                              simple-Finds fuel depth i b info rest at (rw (n2, n3, n4) refl) n5
                                n11)
    where
      is_byte : (b n : ℕ) → (b == n) ≡ true → get_elem? code i ≡ some b → get_elem? code i ≡ some n
      is_byte b n e at = at ∙ ap some ((==_iff b n).0 e)

  pub analyze_loop-Finds : (fuel : ℕ) → LoopFinds fuel
  unfolding analyze_loop throw
  analyze_loop-Finds zero depth i info = tt
  analyze_loop-Finds (suc fuel) depth i info =
      round-Finds fuel (analyze_loop-Finds fuel) depth i info
