-- ===== src/Runner/Paths.antt =====
-- examples/run_wat_module.cpp: path_open.
use web_assembly_interpreter.Base.{
  Bool, List, [], bit_and, false, if◌then◌else◌, length, none, not, some, true, ℕ, ◌&&◌, ◌+◌, ◌==◌,
  ◌||◌, ◌∷◌,
}
use web_assembly_interpreter.Embed.Wasi.{errno_badf, errno_fault, errno_success}
use web_assembly_interpreter.Runner.Accessor.{available, data_at, store_u32}
use web_assembly_interpreter.Runner.Descriptors.{right_fd_read}
use web_assembly_interpreter.Runner.World.{
  Answer, FileHandle, Setting, System, View, answer, erase_file, errno_from_host, errno_isdir,
  errno_notcapable, not_opened, not_resolved, opened, preopen_fd, put_file, resolved, set_files,
  set_system,
}

-- leading '/' and '\' are taken off
unfoldable pub strip_separators : List ℕ → List ℕ
strip_separators [] = []
strip_separators (c ∷ cs) =
    let rest = strip_separators cs in if c == 0x2F || c == 0x5C then rest else c ∷ cs

-- `compare(0, prefix.size(), prefix) == 0`
unfoldable pub starts_with : List ℕ → List ℕ → Bool
starts_with [] path = true
starts_with (p ∷ ps) [] = false
starts_with (p ∷ ps) (c ∷ cs) = p == c && starts_with ps cs

module _ {S : Type 0} (os : System S) (setting : Setting) where
  -- an opened stream takes the next descriptor, and gives it up where the result does not fit
  unfoldable pub install : ℕ → ℕ → View S → Answer S
  install file result_ptr v =
      let fd = v.host.next_fd in
      let handle : FileHandle = record { file = some file; readable = true; seekable = true } in
      let installed : View S = record v {
        host = record v.host { files = put_file fd handle v.host.files; next_fd = fd + 1 };
      } in
      if available v.memory result_ptr 4
      then store_u32 result_ptr fd installed (answer errno_success)
      else answer errno_fault (
          set_files (set_system installed (os.fclose file v.host.system))
            (erase_file fd installed.host.files))

  unfoldable pub open_canonical : List ℕ → ℕ → View S → Answer S
  open_canonical path result_ptr v =
      let (outcome, s) = os.fopen path v.host.system in
      elim outcome [
        | opened file ↦ install file result_ptr (set_system v s)
        | not_opened e ↦ answer (errno_from_host e) (set_system v s)
      ]

  unfoldable pub open_relative : List ℕ → ℕ → View S → Answer S
  open_relative path result_ptr v =
      let (outcome, s) = os.weakly_canonical path v.host.system in
      elim outcome [
        | not_resolved e ↦ answer (errno_from_host e) (set_system v s)
        | resolved canonical ↦
            if starts_with setting.preopen_host_path_string canonical
            then open_canonical canonical result_ptr (set_system v s)
            else answer errno_notcapable (set_system v s)
      ]

  unfoldable pub open_bytes : List ℕ → ℕ → ℕ → View S → Answer S
  open_bytes path rights_base result_ptr v =
      if length path == 0
      then answer errno_isdir v
      else if bit_and rights_base right_fd_read == 0
      then answer errno_notcapable v
      else open_relative path result_ptr v

  unfoldable pub path_open : ℕ → ℕ → ℕ → ℕ → ℕ → View S → Answer S
  path_open dirfd path_ptr path_len rights_base result_ptr v =
      if not (dirfd == preopen_fd)
      then answer errno_badf v
      else elim (data_at v.memory path_ptr path_len) [
        | none ↦ answer errno_fault v
        | some bytes ↦ open_bytes (strip_separators bytes) rights_base result_ptr v
      ]
