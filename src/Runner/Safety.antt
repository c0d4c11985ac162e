-- ===== src/Runner/Safety.antt =====
-- The callbacks on the store, and runs of modules with the runner as their host.
use web_assembly_interpreter.Base.{
  Bool, Bool-cases, List, Option, Result, [], ap, err, false, get_elem?, if◌then◌else◌, inl, inr,
  leb, length, none, not, ok, refl, some, suc, true, zero, ℕ, ◌&&◌, ◌-◌, ◌==◌, ◌∷◌, ◌≡◌,
}
use web_assembly_interpreter.Embed.Invoke.{memory_view}
use web_assembly_interpreter.Embed.Polite.{Leaves, Leaves-refl, wasi_host-Leaves}
use web_assembly_interpreter.Embed.Wasi.{
  errno, errno_fault, fd_write, proc_exit, wasi_host, with_memory,
}
use web_assembly_interpreter.Exec.Run.{HostResult, host_thrown, host_trapped}
use web_assembly_interpreter.Memory.{MemoryInstance}
use web_assembly_interpreter.Runner.Host.{
  Callback, callbacks, first_bytes, read_slots, reply_with, run_callback, runner_host, view_of,
}
use web_assembly_interpreter.Runner.Kept.{
  IsSound, Keeping, dir_name-Keeping, fdstat-Keeping, prestat-Keeping, sizes_get-Keeping,
  strings_get-Keeping,
}
use web_assembly_interpreter.Runner.Kept.Streams.{
  clock-Keeping, fd_close-Keeping, fd_read-Keeping, fd_seek-Keeping, path_open-Keeping,
  random-Keeping,
}
use web_assembly_interpreter.Runner.World.{Setting, System, View, WasiState}
use web_assembly_interpreter.Store.{Store}
use web_assembly_interpreter.Store.Extends.{Extends-set_memory, MemoryExtends-same_length}
use web_assembly_interpreter.Types.{Value}
use mathlib.Core.Path.{subst}

-- What a callback leaves.
pub record IsSafe {S : Type 0} (w : WasiState S) (s : Store)
    (r : HostResult × (WasiState S × Store)) : Type 0 where
  pub sound : IsSound w → IsSound r.1.0
  pub store : Leaves s r.1.1

pub record WorkKeeps {S : Type 0} (c : Callback S) : Type 0 where
  pub at : (ns : List ℕ) (v : View S) → Keeping v (c.work ns v)

first-Leaves :
    (s : Store) (ms : List MemoryInstance) (bytes : List ℕ)
    → s.memories ≡ ms
    → length bytes ≡ length (elim ms [ [] ↦ [] | m ∷ ms ↦ m.contents ])
    → Leaves s (elim ms [ [] ↦ s | m ∷ ms ↦ with_memory s m bytes ])
unfolding memory_view
first-Leaves s [] bytes at same = Leaves-refl s
first-Leaves s (m ∷ ms) bytes at same = record {
  extends =
      Extends-set_memory s 0 m (record m { contents = bytes }) (rw at refl)
        (MemoryExtends-same_length m bytes same);
  size = rw at same;
}

module _ {S : Type 0} where
  IsSafe-stay : (w : WasiState S) (s : Store) (r : HostResult) → IsSafe w s (r, (w, s))
  IsSafe-stay w s r = record { sound = λ h. h; store = Leaves-refl s }

  IsSafe-if :
      (w : WasiState S) (s : Store) (b : Bool) (x y : HostResult × (WasiState S × Store))
      → IsSafe w s x
      → IsSafe w s y
      → IsSafe w s (if b then x else y)
  IsSafe-if w s true x y h k = h
  IsSafe-if w s false x y h k = k

  run_callback-IsSafe :
      (c : Callback S)
      → WorkKeeps c
      → (args : List Value) (w : WasiState S) (s : Store) → IsSafe w s (run_callback c args w s)
  unfolding run_callback
  run_callback-IsSafe c h args w s =
      IsSafe-if w s (not (length args == length c.slots)) _ _
        (IsSafe-stay w s (host_trapped c.wrong_count))
        (IsSafe-if w s (c.needs_memory && length (first_bytes s) == 0) _ _
          (IsSafe-stay w s (errno errno_fault)) (by_slots (read_slots c.slots args)))
    where
      by_slots :
          (r : Result (List ℕ))
          → IsSafe w s (elim r [
            | err e ↦ (host_thrown e, (w, s))
            | ok ns ↦ reply_with s (c.work ns (view_of w s))
          ])
      by_slots (err e) = IsSafe-stay w s _
      by_slots (ok ns) =
          let b = ((h.at ns (view_of w s)).behaves) in
          record { sound = b.sound; store = first-Leaves s s.memories _ refl b.size }

abbrev AllKeep : {S : Type 0} → List (Callback S) → Type 0
AllKeep [] = Unit
AllKeep (c ∷ cs) = WorkKeeps c × AllKeep cs

module _ {S : Type 0} (os : System S) (setting : Setting) where
  nth-Keeps :
      (cs : List (Callback S))
      → AllKeep cs
      → (i : ℕ) (c : Callback S) → get_elem? cs i ≡ some c
      → WorkKeeps c
  nth-Keeps [] all i c at = cc
  nth-Keeps (d ∷ cs) (h, all) zero c at = subst WorkKeeps (some-inj at) h
    where
      some-inj : {a b : Callback S} → some a ≡ some b → a ≡ b
      some-inj {a} e = ap (λ o. elim o [ none ↦ a | some x ↦ x ]) e
  nth-Keeps (d ∷ cs) (h, all) (suc i) c at = nth-Keeps cs all i c at

  callbacks-Keep : AllKeep (callbacks os setting)
  callbacks-Keep = (
    record { at = λ ns v. sizes_get-Keeping setting.args _ _ v },
    (
      record { at = λ ns v. strings_get-Keeping setting.args _ _ v },
      (
        record { at = λ ns v. sizes_get-Keeping setting.env _ _ v },
        (
          record { at = λ ns v. strings_get-Keeping setting.env _ _ v },
          (
            record { at = λ ns v. clock-Keeping os _ _ v },
            (
              record { at = λ ns v. random-Keeping os _ _ v },
              (
                record { at = λ ns v. fd_read-Keeping os _ _ _ _ v },
                (
                  record { at = λ ns v. fd_close-Keeping os _ v },
                  (
                    record { at = λ ns v. fd_seek-Keeping os _ _ _ _ v },
                    (
                      record { at = λ ns v. fdstat-Keeping _ _ v },
                      (
                        record { at = λ ns v. prestat-Keeping _ _ v },
                        (
                          record { at = λ ns v. dir_name-Keeping _ _ _ v },
                          (record { at = λ ns v. path_open-Keeping os setting _ _ _ _ _ v }, tt),
                        ),
                      ),
                    ),
                  ),
                ),
              ),
            ),
          ),
        ),
      ),
    ),
  )

  -- Every callback of the runner, on any arguments, leaves a store that extends the one it was
  -- given, with a first memory of the same size, and keeps the table of open files sound: if each
  -- descriptor was from 4 on, below the next one to give, with a stream, and once, so it is after.
  pub runner_host-IsSafe :
      (id : ℕ) (args : List Value) (w : WasiState S) (s : Store)
      → IsSafe w s (runner_host os setting id args (w, s))
  unfolding runner_host wasi_host
  runner_host-IsSafe id args w s = elim (Bool-cases (leb id 1)) [
    | inl own ↦
        rw own (record { sound = own_sound (id == 0); store = wasi_host-Leaves id args w s })
    | inr other ↦ rw other (by_number (get_elem? (callbacks os setting) (id - 2)) refl)
  ]
    where
      own_sound :
          (b : Bool)
          → IsSound w
          → IsSound
              (if◌then◌else◌ {A = HostResult × (WasiState S × Store)} b
                ((fd_write args s).result, (w, (fd_write args s).store))
                (proc_exit args, (w, s))).1.0
      own_sound true h = h
      own_sound false h = h

      by_number :
          (o : Option (Callback S))
          → get_elem? (callbacks os setting) (id - 2) ≡ o
          → IsSafe w s
              (elim o [ none ↦ (host_trapped "", (w, s)) | some c ↦ run_callback c args w s ])
      by_number none at = IsSafe-stay w s _
      by_number (some c) at =
          run_callback-IsSafe c (nth-Keeps (callbacks os setting) callbacks-Keep (id - 2) c at) args
            w s
