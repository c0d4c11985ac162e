-- ===== src/Embed/Wasi.antt =====
-- src/interpreter.cpp: the WASI shim: `fd_write` and `proc_exit`. What goes to a stream is returned.
use web_assembly_interpreter.Base.{
  Bool, List, Result, [], drop, err, false, if◌then◌else◌, leb, length, ltb, min, not, ok,
  runtime_error, set, suc, take, true, zero, ℕ, ◌%◌, ◌++◌, ◌+◌, ◌-◌, ◌==◌, ◌^◌, ◌||◌, ◌∷◌,
}
use web_assembly_interpreter.Exec.Run.{Host, HostResult, host_returned, host_thrown, host_trapped}
use web_assembly_interpreter.Memory.{MemoryInstance, read_value, write_value}
use web_assembly_interpreter.Store.{Store}
use web_assembly_interpreter.Types.{Value, int32}

pub record FdWrite : Type 0 where
  pub result : HostResult
  pub store : Store
  pub written : List ℕ

abbrev pub errno : ℕ → HostResult
errno n = host_returned (int32 n ∷ [])

abbrev pub errno_success : ℕ
errno_success = 0

abbrev pub errno_badf : ℕ
errno_badf = 8

abbrev pub errno_fault : ℕ
errno_fault = 21

-- writes the first memory back
abbrev pub with_memory : Store → MemoryInstance → List ℕ → Store
with_memory s m contents = record s {
  memories = set s.memories 0 (record m { contents = contents });
}

-- What the loop over the vectors leaves: whether it came to its end, what was written to the
-- stream, and the `uint64_t` count of it.
pub record Gathered : Type 0 where
  pub completed : Bool
  pub out : List ℕ
  pub total_written : ℕ

-- The loop over the vectors, which ends at one that leaves the memory. What was written before stays
-- written.
unfoldable pub gather : ℕ → ℕ → List ℕ → List ℕ → ℕ → Gathered
gather zero offset bytes out total = record { completed = true; out = out; total_written = total }
gather (suc n) offset bytes out total =
    let ptr = read_value 4 bytes offset in
    let len = read_value 4 bytes (offset + 4) in
    let written = out ++ take len (drop ptr bytes) in
    let rest = gather n (offset + 8) bytes written ((total + len) % 2 ^ 64) in
    let fault : Gathered = record { completed = false; out = out; total_written = total } in
    if ltb (length bytes) (offset + 8)
    then fault
    else if ltb (length bytes) (ptr + len)
    then fault
    else rest

unfoldable pub finish_write : Store → MemoryInstance → ℕ → Gathered → FdWrite
finish_write s m nwritten g =
    let fault : FdWrite = record { result = errno errno_fault; store = s; written = g.out } in
    if not g.completed
    then fault
    else if ltb (length m.contents) (nwritten + 4)
    then fault
    else record {
      result = errno errno_success;
      store =
          with_memory s m
            (write_value 4 m.contents nwritten (min g.total_written (2 ^ 32 - 1) % 2 ^ 32));
      written = g.out;
    }

-- a descriptor that is neither 1 nor 2: the count is set to 0 where it fits
unfoldable pub refuse_descriptor : Store → MemoryInstance → ℕ → FdWrite
refuse_descriptor s m nwritten = record {
  result = errno errno_badf;
  store =
      (if leb (nwritten + 4) (length m.contents)
        then with_memory s m (write_value 4 m.contents nwritten 0)
        else s);
  written = [];
}

unfoldable pub write_vectors : Store → MemoryInstance → ℕ → ℕ → ℕ → ℕ → FdWrite
write_vectors s m fd iovs_ptr iovs_len nwritten =
    if fd == 1 || fd == 2
    then finish_write s m nwritten (gather iovs_len iovs_ptr m.contents [] 0)
    else refuse_descriptor s m nwritten

abbrev pub no_write : HostResult → Store → FdWrite
no_write r s = record { result = r; store = s; written = [] }

-- A memory with no bytes counts as none: the data pointer of an empty vector is null.
abbrev pub fd_write_args : Store → List MemoryInstance → ℕ → ℕ → ℕ → ℕ → FdWrite
fd_write_args s [] fd iovs_ptr iovs_len nwritten =
    no_write (host_trapped "wasi::fd_write requires linear memory") s
fd_write_args s (m ∷ ms) fd iovs_ptr iovs_len nwritten =
    if length m.contents == 0
    then no_write (host_trapped "wasi::fd_write requires linear memory") s
    else write_vectors s m fd iovs_ptr iovs_len nwritten

abbrev pub four_i32 : List Value → Result (ℕ × (ℕ × (ℕ × ℕ)))
four_i32 (int32 a ∷ int32 b ∷ int32 c ∷ int32 d ∷ []) = ok (a, (b, (c, d)))
four_i32 _ = err (runtime_error "Value is not i32")

abbrev pub fd_write_decoded : Store → Result (ℕ × (ℕ × (ℕ × ℕ))) → FdWrite
fd_write_decoded s (ok (fd, (iovs_ptr, (iovs_len, nwritten)))) =
    fd_write_args s s.memories fd iovs_ptr iovs_len nwritten
fd_write_decoded s (err e) = no_write (host_thrown e) s

unfoldable pub fd_write : List Value → Store → FdWrite
fd_write args s =
    if length args == 4
    then fd_write_decoded s (four_i32 args)
    else no_write (host_trapped "wasi::fd_write expects 4 arguments") s

unfoldable pub proc_exit : List Value → HostResult
proc_exit (int32 code ∷ []) = host_trapped "wasi::proc_exit"
proc_exit (v ∷ []) = host_thrown (runtime_error "Value is not i32")
proc_exit _ = host_trapped "wasi::proc_exit expects 1 argument"

-- `register_default_wasi_preview1`, with 0 for `fd_write` and 1 for `proc_exit`
unfoldable pub wasi_host : {W : Type 0} → Host W
wasi_host id args (w, s) =
    if id == 0
    then ((fd_write args s).result, (w, (fd_write args s).store))
    else (proc_exit args, (w, s))
