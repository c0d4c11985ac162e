-- ===== src/Runner/Kept/Streams.antt =====
-- The callbacks on streams, paths, clocks and random numbers.
use web_assembly_interpreter.Base.{
  Bool, List, Option, arith, false, if◌then◌else◌, length, length-overwrite, ltb, none, not, refl,
  some, suc, true, zero, ℕ, ◌%◌, ◌&&◌, ◌+◌, ◌==◌, ◌^◌,
}
use web_assembly_interpreter.Embed.Wasi.{errno_badf, errno_fault, errno_success}
use web_assembly_interpreter.Runner.Accessor.{data_at, load_u32, store_u64}
use web_assembly_interpreter.Runner.Descriptors.{
  ReadOutcome, after_read, close_stream, fd_close, fd_read, fd_seek, read_fd, read_standard,
  read_stream, read_vectors, received, seek, seek_origin, tell, usable_file,
}
use web_assembly_interpreter.Runner.Devices.{clock_time_get, random_get}
use web_assembly_interpreter.Runner.Kept.{
  Behaves, Behaves-refl, Behaves-system, Behaves-write, Keeping, Keeping-answer, Keeping-if,
  store_u32-Keeping, store_u64-Keeping,
}
use web_assembly_interpreter.Runner.Paths.{
  install, open_bytes, open_canonical, open_relative, path_open, starts_with, strip_separators,
}
use web_assembly_interpreter.Runner.Table.{erase_file-IsTable, put_file-IsTable}
use web_assembly_interpreter.Runner.World.{
  Answer, FileHandle, HostErrno, Opened, Resolved, SeekOrigin, Setting, System, View, answer,
  erase_file, errno_from_host, errno_inval, errno_io, errno_isdir, errno_nosys, errno_notcapable,
  find_file, not_opened, not_resolved, opened, put_file, resolved, set_files, set_system,
}

module _ {S : Type 0} (os : System S) where
  received-Behaves :
      (u v : View S) (dest : ℕ) (bytes : List ℕ) (s : S)
      → Behaves u v
      → Behaves u (received os v dest bytes s)
  received-Behaves u v dest bytes s h =
      Behaves-system u _ s (Behaves-write u v _ (length-overwrite v.memory dest bytes) h)

  view-if :
      (u : View S) (b : Bool) (x y : ReadOutcome S)
      → Behaves u x.view
      → Behaves u y.view
      → Behaves u (if◌then◌else◌ {A = ReadOutcome S} b x y).view
  view-if u true x y h k = h
  view-if u false x y h k = k

  stream-Behaves :
      (u v : View S) (file dest size : ℕ)
      → Behaves u v
      → Behaves u (read_stream os file dest size v).view
  unfolding read_stream
  stream-Behaves u v file dest size h =
      view-if u
        (ltb (length (os.fread file size v.host.system).0.0) size
          && (os.fread file size v.host.system).0.1)
        _ _ (received-Behaves u v dest _ _ h) (received-Behaves u v dest _ _ h)

  read_fd-Behaves :
      (u v : View S) (fd dest size : ℕ) → Behaves u v → Behaves u (read_fd os fd dest size v).view
  unfolding read_fd read_standard
  read_fd-Behaves u v fd dest size h = view-if u (size == 0) _ _ h (
      view-if u (fd == 0) _ _ (received-Behaves u v dest _ _ h)
        (by_file (usable_file (find_file fd v.host.files) (λ g. g.readable))))
    where
      by_file :
          (o : Option ℕ)
          → Behaves u
              (elim o as (λ x. ReadOutcome S) [
                | none ↦ record { error = errno_badf; bytes_read = 0; view = v }
                | some file ↦ read_stream os file dest size v
              ]).view
      by_file none = h
      by_file (some file) = stream-Behaves u v file dest size h

  after_read-Keeping :
      (u : View S) (p size total : ℕ) (next : ℕ → View S → Answer S) (r : ReadOutcome S)
      → Behaves u r.view
      → ((n : ℕ) (v : View S) → Behaves u v → Keeping u (next n v))
      → Keeping u (after_read os p size total next r)
  unfolding after_read
  after_read-Keeping u p size total next r h k =
      Keeping-if u (not (r.error == errno_success)) _ _
        (store_u32-Keeping u r.view _ h (λ v i. Keeping-answer u v r.error i) p
          (total + r.bytes_read))
        (Keeping-if u (ltb r.bytes_read size) _ _
          (store_u32-Keeping u r.view _ h (λ v i. Keeping-answer u v errno_success i) p
            (total + r.bytes_read))
          (k (total + r.bytes_read) r.view h))

  vectors-Keeping :
      (u : View S) (n fd place p total : ℕ) (v : View S)
      → Behaves u v
      → Keeping u (read_vectors os n fd place p total v)
  unfolding read_vectors
  vectors-Keeping u zero fd place p total v h =
      store_u32-Keeping u v _ h (λ v i. Keeping-answer u v errno_success i) p total
  vectors-Keeping u (suc n) fd place p total v h =
      by_entry (λ t v' i. vectors-Keeping u n fd ((place + 8) % 2 ^ 32) p t v' i)
        (load_u32 v.memory place) (load_u32 v.memory ((place + 4) % 2 ^ 32))
    where
      by_entry :
          ((t : ℕ) (v' : View S)
            → Behaves u v'
            → Keeping u (read_vectors os n fd ((place + 8) % 2 ^ 32) p t v'))
          → (a b : Option ℕ)
          → Keeping u (elim a [
            | none ↦ answer errno_fault v
            | some buf_ptr ↦ elim b [
              | none ↦ answer errno_fault v
              | some buf_len ↦
                  if buf_len == 0
                  then read_vectors os n fd ((place + 8) % 2 ^ 32) p total v
                  else if ltb (length v.memory) (buf_ptr + buf_len)
                  then answer errno_fault v
                  else after_read os p buf_len total
                      (read_vectors os n fd ((place + 8) % 2 ^ 32) p)
                      (read_fd os fd buf_ptr buf_len v)
            ]
          ])
      by_entry rec none b = Keeping-answer u v errno_fault h
      by_entry rec (some ptr) none = Keeping-answer u v errno_fault h
      by_entry rec (some ptr) (some size) = Keeping-if u _ _ _ (rec total v h) (
          Keeping-if u _ _ _ (Keeping-answer u v errno_fault h)
            (after_read-Keeping u p size total _ _ (read_fd-Behaves u v fd ptr size h) rec))

  pub fd_read-Keeping : (fd iovs n p : ℕ) (v : View S) → Keeping v (fd_read os fd iovs n p v)
  unfolding fd_read
  fd_read-Keeping fd iovs n p v = vectors-Keeping v n fd iovs p 0 v (Behaves-refl v)

  pub fd_close-Keeping : (fd : ℕ) (v : View S) → Keeping v (fd_close os fd v)
  unfolding fd_close
  fd_close-Keeping fd v =
      Keeping-if v _ _ _ (Keeping-answer v v errno_success (Behaves-refl v))
        (by_file (find_file fd v.host.files))
    where
      by_file :
          (o : Option FileHandle)
          → Keeping v (elim o [
            | none ↦ answer errno_badf v
            | some h ↦ answer errno_success (
                set_files
                  (set_system v (close_stream os h.file v.host.system))
                  (erase_file fd v.host.files))
          ])
      by_file none = Keeping-answer v v errno_badf (Behaves-refl v)
      by_file (some h) = record {
        behaves = record {
          size = refl;
          sound = λ i. record {
            next = i.next;
            table = erase_file-IsTable v.host.next_fd fd v.host.files i.table;
          };
        };
      }

  tell-Keeping : (u v : View S) (file p : ℕ) → Behaves u v → Keeping u (tell os file p v)
  unfolding tell
  tell-Keeping u v file p h = by_position (os.ftell file v.host.system).0
    where
      by_position :
          (o : Option ℕ)
          → Keeping u (elim o [
            | none ↦ answer errno_io (set_system v (os.ftell file v.host.system).1)
            | some q ↦
                store_u64 p q (set_system v (os.ftell file v.host.system).1) (answer errno_success)
          ])
      by_position none = Keeping-answer u _ errno_io (Behaves-system u v _ h)
      by_position (some q) =
          store_u64-Keeping u _ _ (Behaves-system u v _ h)
            (λ v i. Keeping-answer u v errno_success i) p q

  seek-Keeping :
      (v : View S) (file offset : ℕ) (origin : SeekOrigin) (p : ℕ)
      → Keeping v (seek os file offset origin p v)
  unfolding seek
  seek-Keeping v file offset origin p = by_failure (os.fseek file offset origin v.host.system).0
    where
      by_failure :
          (o : Option HostErrno)
          → Keeping v (elim o [
            | some e ↦
                answer
                  (errno_from_host e)
                  (set_system v (os.fseek file offset origin v.host.system).1)
            | none ↦ tell os file p (set_system v (os.fseek file offset origin v.host.system).1)
          ])
      by_failure none = tell-Keeping v _ file p (Behaves-system v v _ (Behaves-refl v))
      by_failure (some e) = Keeping-answer v _ _ (Behaves-system v v _ (Behaves-refl v))

  pub fd_seek-Keeping :
      (fd offset whence p : ℕ) (v : View S) → Keeping v (fd_seek os fd offset whence p v)
  unfolding fd_seek
  fd_seek-Keeping fd offset whence p v =
      Keeping-if v _ _ _ (Keeping-answer v v errno_inval (Behaves-refl v)) (
        by_file (usable_file (find_file fd v.host.files) (λ h. h.seekable)) (seek_origin os whence))
    where
      by_file :
          (o : Option ℕ) (w : Option SeekOrigin)
          → Keeping v (elim o [
            | none ↦ answer errno_badf v
            | some file ↦ elim w [
              | none ↦ answer errno_inval v
              | some origin ↦ seek os file offset origin p v
            ]
          ])
      by_file none w = Keeping-answer v v errno_badf (Behaves-refl v)
      by_file (some file) none = Keeping-answer v v errno_inval (Behaves-refl v)
      by_file (some file) (some origin) = seek-Keeping v file offset origin p

  pub clock-Keeping : (id p : ℕ) (v : View S) → Keeping v (clock_time_get os id p v)
  unfolding clock_time_get
  clock-Keeping id p v =
      Keeping-if v (id == 0) _ _
        (timed (os.system_clock v.host.system).1 (os.system_clock v.host.system).0)
        (Keeping-if v (id == 1) _ _
          (timed (os.steady_clock v.host.system).1 (os.steady_clock v.host.system).0)
          (Keeping-answer v v errno_nosys (Behaves-refl v)))
    where
      timed : (s : S) (t : ℕ) → Keeping v (store_u64 p t (set_system v s) (answer errno_success))
      timed s t =
          store_u64-Keeping v _ _ (Behaves-system v v s (Behaves-refl v))
            (λ v i. Keeping-answer _ v errno_success i) p t

  pub random-Keeping : (p n : ℕ) (v : View S) → Keeping v (random_get os p n v)
  unfolding random_get
  random-Keeping p n v = Keeping-if v _ _ _ (Keeping-answer v v errno_fault (Behaves-refl v)) (
      Keeping-answer v _ errno_success (
        Behaves-system v _ _
          (Behaves-write v v _ (length-overwrite v.memory p _) (Behaves-refl v))))

module _ {S : Type 0} (os : System S) (setting : Setting) where
  installed-Behaves :
      (u v : View S) (file : ℕ)
      → Behaves u v
      → Behaves u (record v {
        host = record v.host {
          files =
              put_file v.host.next_fd
                (record { file = some file; readable = true; seekable = true })
                v.host.files;
          next_fd = v.host.next_fd + 1;
        };
      })
  installed-Behaves u v file h = record {
    size = h.size;
    sound = λ i.
        let j = h.sound i in
        record {
          next = omega (arith, j.next);
          table = put_file-IsTable v.host.next_fd _ v.host.files j.next (λ e. cc) j.table;
        };
  }

  install-Keeping :
      (u v : View S) (file p : ℕ) → Behaves u v → Keeping u (install os setting file p v)
  unfolding install
  install-Keeping u v file p h =
      let i = installed-Behaves u v file h in
      Keeping-if u _ _ _
        (store_u32-Keeping u _ _ i (λ v i. Keeping-answer u v errno_success i) p v.host.next_fd)
        (Keeping-answer u _ errno_fault (record {
          size = i.size;
          sound = λ j. record {
            next = (i.sound j).next;
            table = erase_file-IsTable _ v.host.next_fd _ (i.sound j).table;
          };
        }))

  canonical-Keeping :
      (u v : View S) (path : List ℕ) (p : ℕ)
      → Behaves u v
      → Keeping u (open_canonical os setting path p v)
  unfolding open_canonical
  canonical-Keeping u v path p h = by_outcome (os.fopen path v.host.system).0
    where
      by_outcome :
          (o : Opened)
          → Keeping u (elim o [
            | opened file ↦ install os setting file p (set_system v (os.fopen path v.host.system).1)
            | not_opened e ↦
                answer (errno_from_host e) (set_system v (os.fopen path v.host.system).1)
          ])
      by_outcome (opened file) = install-Keeping u _ file p (Behaves-system u v _ h)
      by_outcome (not_opened e) = Keeping-answer u _ _ (Behaves-system u v _ h)

  relative-Keeping :
      (v : View S) (path : List ℕ) (p : ℕ) → Keeping v (open_relative os setting path p v)
  unfolding open_relative
  relative-Keeping v path p = by_outcome (os.weakly_canonical path v.host.system).0
    where
      by_outcome :
          (o : Resolved)
          → Keeping v (elim o [
            | not_resolved e ↦
                answer (errno_from_host e) (set_system v (os.weakly_canonical path v.host.system).1)
            | resolved canonical ↦
                if starts_with setting.preopen_host_path_string canonical
                then open_canonical os setting canonical p
                    (set_system v (os.weakly_canonical path v.host.system).1)
                else answer errno_notcapable
                    (set_system v (os.weakly_canonical path v.host.system).1)
          ])
      by_outcome (not_resolved e) = Keeping-answer v _ _ (Behaves-system v v _ (Behaves-refl v))
      by_outcome (resolved canonical) =
          let b = Behaves-system v v _ (Behaves-refl v) in
          Keeping-if v _ _ _ (canonical-Keeping v _ canonical p b)
            (Keeping-answer v _ errno_notcapable b)

  pub path_open-Keeping :
      (dirfd p n rights r : ℕ) (v : View S) → Keeping v (path_open os setting dirfd p n rights r v)
  unfolding path_open open_bytes
  path_open-Keeping dirfd p n rights r v =
      Keeping-if v _ _ _ (Keeping-answer v v errno_badf (Behaves-refl v))
        (by_bytes (data_at v.memory p n))
    where
      by_bytes :
          (o : Option (List ℕ))
          → Keeping v (elim o [
            | none ↦ answer errno_fault v
            | some bytes ↦ open_bytes os setting (strip_separators bytes) rights r v
          ])
      by_bytes none = Keeping-answer v v errno_fault (Behaves-refl v)
      by_bytes (some bytes) = Keeping-if v _ _ _ (Keeping-answer v v errno_isdir (Behaves-refl v)) (
          Keeping-if v _ _ _ (Keeping-answer v v errno_notcapable (Behaves-refl v))
            (relative-Keeping v _ r))
