-- ===== src/Runner/Confined.antt =====
-- Files outside the preopened directory.
use web_assembly_interpreter.Base.{
  Bool, List, [], ap, bit_and, false, get_elem?, if◌then◌else◌, leb, length, none, not, refl, some,
  true, ℕ, ◌-◌, ◌==◌, ◌∷◌, ◌≡◌,
}
use web_assembly_interpreter.Embed.Wasi.{errno_badf, errno_fault, wasi_host}
use web_assembly_interpreter.Exec.Run.{Host, execute_function, host_trapped}
use web_assembly_interpreter.Numeric.Float.{FloatUnit}
use web_assembly_interpreter.Runner.Accessor.{data_at}
use web_assembly_interpreter.Runner.Descriptors.{
  after_read, fd_close, fd_read, fd_seek, read_fd, read_standard, read_stream, read_vectors,
  right_fd_read, seek, tell,
}
use web_assembly_interpreter.Runner.Devices.{clock_time_get, random_bytes, random_get}
use web_assembly_interpreter.Runner.Host.{
  Callback, arg, args_get_callback, args_sizes_get_callback, callbacks, clock_time_get_callback,
  environ_get_callback, environ_sizes_get_callback, fd_close_callback, fd_fdstat_get_callback,
  fd_prestat_dir_name_callback, fd_prestat_get_callback, fd_read_callback, fd_seek_callback,
  path_open_callback, random_get_callback, run_callback, runner_host,
}
use web_assembly_interpreter.Runner.Paths.{
  install, open_bytes, open_canonical, open_relative, path_open, starts_with, strip_separators,
}
use web_assembly_interpreter.Runner.World.{
  Answer, Opened, Resolved, Setting, System, View, WasiState, answer, errno_from_host, errno_isdir,
  errno_notcapable, not_opened, not_resolved, opened, preopen_fd, resolved, set_system,
}
use web_assembly_interpreter.Store.{Store}
use web_assembly_interpreter.Types.{Value}

-- The same system, but for what opening a file outside the directory does.
abbrev pub elsewhere : {S : Type 0} → Setting → (List ℕ → S → Opened × S) → System S → System S
elsewhere setting other os = record os {
  fopen = λ path s.
      if starts_with setting.preopen_host_path_string path then os.fopen path s else other path s;
}

module _ {S : Type 0} (os : System S) (setting : Setting) (other : List ℕ → S → Opened × S) where
  open_canonical-elsewhere :
      (path : List ℕ) (p : ℕ) (v : View S)
      → starts_with setting.preopen_host_path_string path ≡ true
      → open_canonical (elsewhere setting other os) setting path p v
        ≡ open_canonical os setting path p v
  unfolding open_canonical install
  open_canonical-elsewhere path p v inside =
      ap (λ b. after_fopen (if b then os.fopen path v.host.system else other path v.host.system))
        inside
    where
      after_fopen : Opened × S → Answer S
      after_fopen (outcome, s) = elim outcome [
        | opened file ↦ install os setting file p (set_system v s)
        | not_opened e ↦ answer (errno_from_host e) (set_system v s)
      ]

  relative-elsewhere :
      (path : List ℕ) (p : ℕ) (v : View S)
      → open_relative (elsewhere setting other os) setting path p v
        ≡ open_relative os setting path p v
  unfolding open_relative
  relative-elsewhere path p v = by_outcome (os.weakly_canonical path v.host.system).0
    where
      by_prefix :
          (canonical : List ℕ) (b : Bool)
          → starts_with setting.preopen_host_path_string canonical ≡ b
          → (u : View S)
          → (if b
              then open_canonical (elsewhere setting other os) setting canonical p u
              else answer errno_notcapable u)
            ≡ (if b then open_canonical os setting canonical p u else answer errno_notcapable u)
      by_prefix canonical true inside u = open_canonical-elsewhere canonical p u inside
      by_prefix canonical false inside u = refl

      by_outcome :
          (o : Resolved)
          → (elim o [
            | not_resolved e ↦
                answer (errno_from_host e) (set_system v (os.weakly_canonical path v.host.system).1)
            | resolved canonical ↦
                if starts_with setting.preopen_host_path_string canonical
                then open_canonical
                    (elsewhere setting other os)
                    setting
                    canonical
                    p
                    (set_system v (os.weakly_canonical path v.host.system).1)
                else answer errno_notcapable
                    (set_system v (os.weakly_canonical path v.host.system).1)
          ])
            ≡ (elim o [
              | not_resolved e ↦
                  answer
                    (errno_from_host e)
                    (set_system v (os.weakly_canonical path v.host.system).1)
              | resolved canonical ↦
                  if starts_with setting.preopen_host_path_string canonical
                  then open_canonical os setting canonical p
                      (set_system v (os.weakly_canonical path v.host.system).1)
                  else answer errno_notcapable
                      (set_system v (os.weakly_canonical path v.host.system).1)
            ])
      by_outcome (not_resolved e) = refl
      by_outcome (resolved canonical) = by_prefix canonical _ refl _

  path_open-elsewhere :
      (dirfd a n rights p : ℕ) (v : View S)
      → path_open (elsewhere setting other os) setting dirfd a n rights p v
        ≡ path_open os setting dirfd a n rights p v
  unfolding path_open open_bytes
  path_open-elsewhere dirfd a n rights p v =
      ap
        (λ (f : List ℕ → Answer S).
          if not (dirfd == preopen_fd) then answer errno_badf v else elim (data_at v.memory a n) [
            | none ↦ answer errno_fault v
            | some bytes ↦
                if length (strip_separators bytes) == 0
                then answer errno_isdir v
                else if bit_and rights right_fd_read == 0
                then answer errno_notcapable v
                else f (strip_separators bytes)
          ])
        (λ i path. relative-elsewhere path p v i)

  callbacks-elsewhere : callbacks (elsewhere setting other os) setting ≡ callbacks os setting
  unfolding clock_time_get random_get random_bytes fd_read read_vectors read_fd read_standard
      read_stream fd_close fd_seek seek tell after_read path_open
  callbacks-elsewhere =
      ap
        (λ (f : ℕ → ℕ → ℕ → ℕ → ℕ → View S → Answer S).
          args_sizes_get_callback os setting
          ∷ args_get_callback os setting
          ∷ environ_sizes_get_callback os setting
          ∷ environ_get_callback os setting
          ∷ clock_time_get_callback os setting
          ∷ random_get_callback os setting
          ∷ fd_read_callback os setting
          ∷ fd_close_callback os setting
          ∷ fd_seek_callback os setting
          ∷ fd_fdstat_get_callback os setting
          ∷ fd_prestat_get_callback os setting
          ∷ fd_prestat_dir_name_callback os setting
          ∷ record (path_open_callback os setting) {
            work = λ ns. f (arg ns 0) (arg ns 2) (arg ns 3) (arg ns 5) (arg ns 8);
          }
          ∷ [])
        (λ i dirfd a n rights p v. path_open-elsewhere dirfd a n rights p v i)

  runner_host-elsewhere : runner_host (elsewhere setting other os) setting ≡ runner_host os setting
  unfolding runner_host
  runner_host-elsewhere =
      ap {B = Host (WasiState S)}
        (λ (cs : List (Callback S)) (id : ℕ) (args : List Value) (ws : WasiState S × Store).
          if leb id 1 then wasi_host id args ws else elim (get_elem? cs (id - 2)) [
            | none ↦ (host_trapped "", ws)
            | some c ↦ run_callback c args ws.0 ws.1
          ])
        callbacks-elsewhere

  -- No run of any function with the runner as its host depends on what opening a file outside the
  -- preopened directory would do: with any other behaviour of `fopen` on the paths that do not
  -- start with the directory's, and its separator, the outcome is the same, on any fuel.
  pub execute_function-confined :
      (unit : FloatUnit) (fuel index : ℕ) (args : List Value) (w : WasiState S) (s : Store)
      → execute_function unit (runner_host (elsewhere setting other os) setting) fuel index args w s
        ≡ execute_function unit (runner_host os setting) fuel index args w s
  execute_function-confined unit fuel index args w s =
      ap (λ host. execute_function unit host fuel index args w s) runner_host-elsewhere
