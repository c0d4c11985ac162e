-- ===== src/Runner/Descriptors.antt =====
-- examples/run_wat_module.cpp: fd_read, fd_close, fd_seek, fd_fdstat_get, fd_prestat_get and
-- fd_prestat_dir_name. A descriptor is the pattern of an `int32_t`.
use web_assembly_interpreter.Base.{
  Bool, List, Option, [], if◌then◌else◌, leb, length, ltb, none, not, overwrite, replicate, some,
  suc, switch, true, zero, ℕ, ◌%◌, ◌&&◌, ◌++◌, ◌+◌, ◌==◌, ◌^◌, ◌||◌, ◌∷◌,
}
use web_assembly_interpreter.Embed.Wasi.{errno_badf, errno_fault, errno_success}
use web_assembly_interpreter.Memory.{write_value}
use web_assembly_interpreter.Runner.Accessor.{load_u32, store_bytes, store_u32, store_u64}
use web_assembly_interpreter.Runner.World.{
  Answer, FileHandle, SeekOrigin, System, View, answer, erase_file, errno_from_host, errno_inval,
  errno_io, find_file, preopen_fd, preopen_guest_path, seek_cur, seek_end, seek_set, set_files,
  set_system,
}

-- `fd <= 2`
unfoldable pub is_standard : ℕ → Bool
is_standard fd = leb fd 2 || leb (2 ^ 31) fd

-- What `read_fd` answers: an error number, and how many bytes it counts.
pub record ReadOutcome (S : Type 0) : Type 0 where
  pub error : ℕ
  pub bytes_read : ℕ
  pub view : View S

-- the handle, if its stream is there and the flag is set
unfoldable pub usable_file : Option FileHandle → (FileHandle → Bool) → Option ℕ
usable_file none flag = none
usable_file (some h) flag = if flag h then h.file else none

module _ {S : Type 0} (os : System S) where
  -- what was read, in memory at `dest`
  abbrev pub received : View S → ℕ → List ℕ → S → View S
  received v dest bytes s = set_system (record v { memory = overwrite v.memory dest bytes }) s

  unfoldable pub read_standard : ℕ → ℕ → View S → ReadOutcome S
  read_standard dest size v =
      let ((bytes, bad), s) = os.read_stdin size v.host.system in
      record {
        error = (if bad then errno_io else errno_success);
        bytes_read = length bytes % 2 ^ 32;
        view = received v dest bytes s;
      }

  -- On an error of the stream the count stays 0, whatever was read.
  unfoldable pub read_stream : ℕ → ℕ → ℕ → View S → ReadOutcome S
  read_stream file dest size v =
      let ((bytes, in_error), s) = os.fread file size v.host.system in
      if ltb (length bytes) size && in_error
      then record { error = errno_io; bytes_read = 0; view = received v dest bytes s }
      else record {
        error = errno_success;
        bytes_read = length bytes % 2 ^ 32;
        view = received v dest bytes s;
      }

  unfoldable pub read_fd : ℕ → ℕ → ℕ → View S → ReadOutcome S
  read_fd fd dest size v =
      if size == 0
      then record { error = errno_success; bytes_read = 0; view = v }
      else if fd == 0
      then read_standard dest size v
      else elim (usable_file (find_file fd v.host.files) (λ h. h.readable)) [
        | none ↦ record { error = errno_badf; bytes_read = 0; view = v }
        | some file ↦ read_stream file dest size v
      ]

  -- the end of a vector: an error or a short read stops
  unfoldable pub after_read : ℕ → ℕ → ℕ → (ℕ → View S → Answer S) → ReadOutcome S → Answer S
  after_read nread_ptr size total next r =
      if not (r.error == errno_success)
      then store_u32 nread_ptr (total + r.bytes_read) r.view (answer r.error)
      else if ltb r.bytes_read size
      then store_u32 nread_ptr (total + r.bytes_read) r.view (answer errno_success)
      else next (total + r.bytes_read) r.view

  unfoldable pub read_vectors : ℕ → ℕ → ℕ → ℕ → ℕ → View S → Answer S
  read_vectors zero fd entry_offset nread_ptr total v =
      store_u32 nread_ptr total v (answer errno_success)
  read_vectors (suc n) fd entry_offset nread_ptr total v =
      let next = read_vectors n fd ((entry_offset + 8) % 2 ^ 32) nread_ptr in
      elim (load_u32 v.memory entry_offset) [
        | none ↦ answer errno_fault v
        | some buf_ptr ↦ elim (load_u32 v.memory ((entry_offset + 4) % 2 ^ 32)) [
          | none ↦ answer errno_fault v
          | some buf_len ↦
              if buf_len == 0
              then next total v
              else if ltb (length v.memory) (buf_ptr + buf_len)
              then answer errno_fault v
              else after_read nread_ptr buf_len total next (read_fd fd buf_ptr buf_len v)
        ]
      ]

  unfoldable pub fd_read : ℕ → ℕ → ℕ → ℕ → View S → Answer S
  fd_read fd iovs_ptr iovs_len nread_ptr v = read_vectors iovs_len fd iovs_ptr nread_ptr 0 v

  abbrev pub close_stream : Option ℕ → S → S
  close_stream none s = s
  close_stream (some file) s = os.fclose file s

  unfoldable pub fd_close : ℕ → View S → Answer S
  fd_close fd v =
      if is_standard fd then answer errno_success v else elim (find_file fd v.host.files) [
        | none ↦ answer errno_badf v
        | some h ↦ answer errno_success (
            set_files (set_system v (close_stream h.file v.host.system))
              (erase_file fd v.host.files))
      ]

  abbrev pub seek_origin : ℕ → Option SeekOrigin
  seek_origin whence =
      switch whence ((0, some seek_set) ∷ (1, some seek_cur) ∷ (2, some seek_end) ∷ []) none

  unfoldable pub tell : ℕ → ℕ → View S → Answer S
  tell file result_ptr v =
      let (position, s) = os.ftell file v.host.system in
      elim position [
        | none ↦ answer errno_io (set_system v s)
        | some p ↦ store_u64 result_ptr p (set_system v s) (answer errno_success)
      ]

  unfoldable pub seek : ℕ → ℕ → SeekOrigin → ℕ → View S → Answer S
  seek file offset origin result_ptr v =
      let (failure, s) = os.fseek file offset origin v.host.system in
      elim failure [
        | some e ↦ answer (errno_from_host e) (set_system v s)
        | none ↦ tell file result_ptr (set_system v s)
      ]

  unfoldable pub fd_seek : ℕ → ℕ → ℕ → ℕ → View S → Answer S
  fd_seek fd offset whence result_ptr v =
      if is_standard fd
      then answer errno_inval v
      else elim (usable_file (find_file fd v.host.files) (λ h. h.seekable)) [
        | none ↦ answer errno_badf v
        | some file ↦ elim (seek_origin whence) [
          | none ↦ answer errno_inval v
          | some origin ↦ seek file offset origin result_ptr v
        ]
      ]

-- a file type, and the rights a descriptor has and hands on
abbrev pub right_fd_read : ℕ
right_fd_read = 1

abbrev pub right_fd_write : ℕ
right_fd_write = 2

abbrev pub right_path_open : ℕ
right_path_open = 0x2000

-- `kRightFdRead | kRightFdSeek | kRightFdTell`
abbrev pub rights_of_file : ℕ
rights_of_file = 0x45

abbrev pub le_bytes : ℕ → ℕ → List ℕ
le_bytes n v = write_value n (replicate n 0) 0 v

unfoldable pub fdstat_bytes : ℕ → ℕ → List ℕ
fdstat_bytes filetype rights =
    filetype ∷ 0 ∷ 0 ∷ 0 ∷ 0 ∷ 0 ∷ 0 ∷ 0 ∷ (le_bytes 8 rights ++ le_bytes 8 rights)

-- the file type and the rights of a descriptor
unfoldable pub describe_fd : ℕ → List (ℕ × FileHandle) → Option (ℕ × ℕ)
describe_fd fd files =
    if fd == 0
    then some (2, right_fd_read)
    else if fd == 1 || fd == 2
    then some (2, right_fd_write)
    else if fd == preopen_fd
    then some (3, right_path_open)
    else elim (usable_file (find_file fd files) (λ h. true)) [
      | none ↦ none
      | some file ↦ some (4, rights_of_file)
    ]

module _ {S : Type 0} where
  unfoldable pub fd_fdstat_get : ℕ → ℕ → View S → Answer S
  fd_fdstat_get fd result_ptr v = elim (describe_fd fd v.host.files) [
    | none ↦ answer errno_badf v
    | some (filetype, rights) ↦
        store_bytes result_ptr (fdstat_bytes filetype rights) v (answer errno_success)
  ]

  unfoldable pub fd_prestat_get : ℕ → ℕ → View S → Answer S
  fd_prestat_get fd result_ptr v =
      if fd == preopen_fd
      then store_bytes result_ptr (0 ∷ 0 ∷ 0 ∷ 0 ∷ le_bytes 4 (length preopen_guest_path)) v
          (answer errno_success)
      else answer errno_badf v

  unfoldable pub fd_prestat_dir_name : ℕ → ℕ → ℕ → View S → Answer S
  fd_prestat_dir_name fd path_ptr path_len v =
      if not (fd == preopen_fd)
      then answer errno_badf v
      else if ltb path_len (length preopen_guest_path)
      then answer errno_inval v
      else store_bytes path_ptr preopen_guest_path v (answer errno_success)
