-- ===== src/Runner/World.antt =====
-- examples/run_wat_module.cpp: the state of `WasiPreview1Host`, and what it takes from the operating
-- system, a parameter.
use web_assembly_interpreter.Base.{Bool, List, Option, [], if◌then◌else◌, none, some, ℕ, ◌==◌, ◌∷◌}
use web_assembly_interpreter.Embed.Wasi.{errno_success}

-- The errors of the C library that `errno_from_host` tells apart.
pub data HostErrno : Type 0 where
  no_error eacces eisdir enoent enotdir other_errno : HostErrno

pub data SeekOrigin : Type 0 where
  seek_set seek_cur seek_end : SeekOrigin

pub data Opened : Type 0 where
  opened : ℕ → Opened
  not_opened : HostErrno → Opened

pub data Resolved : Type 0 where
  resolved : List ℕ → Resolved
  not_resolved : HostErrno → Resolved

-- The C and C++ libraries, on a state `S`: an open stream goes by a number. A read answers the bytes
-- it got and whether the stream is in error.
pub record System (S : Type 0) : Type 0 where
  pub read_stdin : ℕ → S → (List ℕ × Bool) × S
  pub fread : ℕ → ℕ → S → (List ℕ × Bool) × S
  pub fclose : ℕ → S → S
  pub fseek : ℕ → ℕ → SeekOrigin → S → Option HostErrno × S
  pub ftell : ℕ → S → Option ℕ × S
  -- `weakly_canonical` of a path under the preopened directory
  pub weakly_canonical : List ℕ → S → Resolved × S
  pub fopen : List ℕ → S → Opened × S
  pub system_clock : S → ℕ × S
  pub steady_clock : S → ℕ × S
  pub random_device : S → ℕ × S
  -- the numbers that `mt19937_64` gives for a seed
  pub mt19937_64 : ℕ → ℕ → ℕ

pub record FileHandle : Type 0 where
  pub file : Option ℕ
  pub readable : Bool
  pub seekable : Bool

-- The fields of the host that do not change.
pub record Setting : Type 0 where
  pub args : List (List ℕ)
  pub env : List (List ℕ)
  pub preopen_host_path_string : List ℕ

abbrev pub preopen_fd : ℕ
preopen_fd = 3

-- "."
abbrev pub preopen_guest_path : List ℕ
preopen_guest_path = 0x2E ∷ []

-- The fields that change. `files` is the `unordered_map`, as a list of entries. A counter that
-- leaves the range of `int32_t` has no meaning in C++, so it is not wrapped here.
pub record WasiState (S : Type 0) : Type 0 where
  pub files : List (ℕ × FileHandle)
  pub next_fd : ℕ
  pub system : S

unfoldable pub start_state : {S : Type 0} → S → WasiState S
start_state system = record { files = []; next_fd = 4; system = system }

-- What a callback works on: the bytes of the first memory, and the host.
pub record View (S : Type 0) : Type 0 where
  pub memory : List ℕ
  pub host : WasiState S

-- A callback answers an error number.
abbrev pub Answer : Type 0 → Type 0
Answer S = ℕ × View S

abbrev pub errno_acces : ℕ
errno_acces = 2

abbrev pub errno_inval : ℕ
errno_inval = 28

abbrev pub errno_io : ℕ
errno_io = 29

abbrev pub errno_isdir : ℕ
errno_isdir = 31

abbrev pub errno_noent : ℕ
errno_noent = 44

abbrev pub errno_nosys : ℕ
errno_nosys = 52

abbrev pub errno_notdir : ℕ
errno_notdir = 54

abbrev pub errno_notcapable : ℕ
errno_notcapable = 76

unfoldable pub errno_from_host : HostErrno → ℕ
errno_from_host no_error = errno_success
errno_from_host eacces = errno_acces
errno_from_host eisdir = errno_isdir
errno_from_host enoent = errno_noent
errno_from_host enotdir = errno_notdir
errno_from_host other_errno = errno_io

-- the table of open files: `find`, `operator[]` and `erase`
unfoldable pub find_file : ℕ → List (ℕ × FileHandle) → Option FileHandle
find_file fd [] = none
find_file fd ((k, h) ∷ files) = if fd == k then some h else find_file fd files

unfoldable pub put_file : ℕ → FileHandle → List (ℕ × FileHandle) → List (ℕ × FileHandle)
put_file fd h [] = (fd, h) ∷ []
put_file fd h ((k, g) ∷ files) =
    let rest = put_file fd h files in if fd == k then (k, h) ∷ files else (k, g) ∷ rest

unfoldable pub erase_file : ℕ → List (ℕ × FileHandle) → List (ℕ × FileHandle)
erase_file fd [] = []
erase_file fd ((k, g) ∷ files) =
    let rest = erase_file fd files in if fd == k then files else (k, g) ∷ rest

module _ {S : Type 0} where
  abbrev pub set_system : View S → S → View S
  set_system v s = record v { host = record v.host { system = s } }

  abbrev pub set_files : View S → List (ℕ × FileHandle) → View S
  set_files v files = record v { host = record v.host { files = files } }

  abbrev pub answer : ℕ → View S → Answer S
  answer e v = (e, v)
