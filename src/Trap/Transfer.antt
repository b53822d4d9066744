-- ===== src/Trap/Transfer.antt =====
-- SYS_READFILE and SYS_WRITEFILE in kernel/src/trap.rs: bytes between a process and a file.
use beyond_os1k.Base.{
  ℕ, zero, suc, ◌+◌, ◌<◌, ◌≤◌, ◌≡◌, ◌≢◌, refl, sym, ap, ◌∙◌, ◌⊎◌, inl, inr, arith, true, some, List,
  [], ◌∷◌, map, get_elem?, set, length, take, take-append, length-take, get_elem?-set_self,
  get_elem?-lt, ◌==◌, if◌then◌else◌, eq→==, ne→==, ok, >>=-eq-ok, >>=-keeps, ok-injective, slice,
  slice-ok, copy_into-ok, overlay, length-overlay, Bool, ◌>>=◌, some-injective,
}
use mathlib.Core.Path.{subst}
use beyond_os1k.Base.Utf8.{is_utf8}
use beyond_os1k.SpinLock.{SpinLock, new, lock, drop_guard}
use beyond_os1k.Virtio.Device.{Device}
use beyond_os1k.Timer.{Sbi}
use beyond_os1k.Tar.Files.{File, has_name, position, fs_lookup, pack}
use beyond_os1k.Tar.Fs.{Fs, store_sectors, fs_flush}
use beyond_os1k.Trap.{
  TrapFrame, Kernel, Progress, returned, bytes, put_bytes, overwrite, read_call, write_call,
  file_call, handle_syscall,
}

-- A write through the slice at `p` changes no byte elsewhere.
put_bytes-outside :
    (memory : ℕ → ℕ) (p : ℕ) (bs : List ℕ) (a : ℕ)
    → (a < p) ⊎ (p + length bs ≤ a)
    → put_bytes memory p bs a ≡ memory a
put_bytes-outside memory p [] a h = refl
put_bytes-outside memory p (b ∷ bs) a h =
    put_bytes-outside (λ x. if x == p then b else memory x) (p + 1) bs a (beyond h)
    ∙ rw (ne→== a p (apart h)) refl
  where
    beyond : (a < p) ⊎ (p + suc (length bs) ≤ a) → (a < p + 1) ⊎ (p + 1 + length bs ≤ a)
    beyond (inl h) = inl (omega arith)
    beyond (inr h) = inr (omega arith)

    apart : (a < p) ⊎ (p + suc (length bs) ≤ a) → a ≢ p
    apart (inl h) = omega arith
    apart (inr h) = omega arith

bytes-put_bytes :
    (memory : ℕ → ℕ) (p : ℕ) (bs : List ℕ) → bytes (put_bytes memory p bs) p (length bs) ≡ bs
bytes-put_bytes memory p [] = refl
bytes-put_bytes memory p (b ∷ bs) =
    let memory' : ℕ → ℕ = λ x. if x == p then b else memory x in
    ap (λ x. x ∷ bytes (put_bytes memory' (p + 1) bs) (p + 1) (length bs))
      (put_bytes-outside memory' (p + 1) bs p (inl (omega arith)) ∙ rw (eq→== p p refl) refl)
    ∙ ap (λ xs. b ∷ xs) (bytes-put_bytes memory' (p + 1) bs)

length-bytes : (memory : ℕ → ℕ) (p n : ℕ) → length (bytes memory p n) ≡ n
length-bytes memory p zero = refl
length-bytes memory p (suc n) = ap suc (length-bytes memory (p + 1) n)

module _ {S : Type 0} (device : Device S) (fuel : ℕ) where
  -- `fs_flush` leaves FILES alone.
  fs_flush-files :
      (fs : Fs S) (fl : List File) {fs' : Fs S}
      → fs_flush device fuel (record fs { files = new fl }) ≡ ok fs'
      → fs'.files ≡ new fl
  unfolding fs_flush lock drop_guard
  fs_flush-files fs fl = >>=-keeps Kept (lock fs.disk) (λ disk _.
      >>=-keeps Kept (pack (map (λ _. 0) disk.value) 0 fl) (λ packed _.
        >>=-keeps Kept (store_sectors device fuel 5 0 packed fs.blk)
          (λ x _ done. same (ok-injective done))))
    where
      Kept : Fs S → Type 0
      Kept fs' = fs'.files ≡ new fl

      same : {fs1 fs2 : Fs S} → fs1 ≡ fs2 → fs2.files ≡ fs1.files
      same e = sym (ap (λ (fs : Fs S). fs.files) e)

slice-head : (n : ℕ) (xs : List ℕ) → n ≤ length xs → slice xs 0 n ≡ ok (take n xs)
slice-head n xs h = slice-ok xs 0 n (omega arith) h ∙ ap (λ m. ok (take m xs)) (omega arith)

-- The call names the file at `i`: its name is text, and the lookup finds it there.
pub record Names {S C : Type 0} (f : TrapFrame) (k : Kernel S C) (fl : List File) (i : ℕ)
    (file : File) : Type 0 where
  pub files : k.fs.files ≡ new fl
  pub text : is_utf8 (bytes k.memory f.a0 f.a1) ≡ true
  pub found : position (has_name (bytes k.memory f.a0 f.a1)) fl ≡ some i
  pub file_at : get_elem? fl i ≡ some file
  pub fits : f.a3 ≤ length file.data_bytes

module _ {S C : Type 0} (device : Device S) (fuel : ℕ) (sbi : Sbi C) where
  handle_syscall-read :
      (f : TrapFrame) (k : Kernel S C)
      → f.a7 ≡ 4
      → handle_syscall device fuel sbi f k ≡ file_call device fuel f k
  unfolding handle_syscall
  handle_syscall-read f k e = rw (
    ne→== f.a7 1 (omega arith),
    ne→== f.a7 2 (omega arith),
    ne→== f.a7 3 (omega arith),
    eq→== f.a7 4 e,
  )

  handle_syscall-write :
      (f : TrapFrame) (k : Kernel S C)
      → f.a7 ≡ 5
      → handle_syscall device fuel sbi f k ≡ file_call device fuel f k
  unfolding handle_syscall
  handle_syscall-write f k e = rw (
    ne→== f.a7 1 (omega arith),
    ne→== f.a7 2 (omega arith),
    ne→== f.a7 3 (omega arith),
    ne→== f.a7 4 (omega arith),
    eq→== f.a7 5 e,
  )

  file_call-read :
      (f : TrapFrame) (k : Kernel S C) (fl : List File) (i : ℕ) (file : File)
      → Names f k fl i file
      → f.a7 ≡ 4
      → file_call device fuel f k
        ≡ ok (
            returned
              (record f { a0 = f.a3 })
              (record k {
                fs = record k.fs { files = new fl };
                memory = put_bytes k.memory f.a2 (take f.a3 file.data_bytes);
              }))
  unfolding file_call read_call fs_lookup lock drop_guard
  file_call-read f k fl i file names four =
      rw (names.files, names.text, names.found)
        (rw (ne→== f.a7 5 (omega arith), names.file_at, slice-head f.a3 file.data_bytes names.fits)
          refl)

  -- Where the name of the call is that of the file at `i` and the buffer is no longer than the
  -- array of the file, SYS_READFILE returns the length of the buffer. The buffer then holds
  -- the first bytes of the file; no other byte of memory, no file and no other state changes.
  pub readfile_lem :
      (f : TrapFrame) (k : Kernel S C) (fl : List File) (i : ℕ) (file : File)
      → Names f k fl i file
      → f.a7 ≡ 4
      → (memory : ℕ → ℕ) × (handle_syscall device fuel sbi f k
          ≡ ok (returned (record f { a0 = f.a3 }) (record k { memory = memory })))
        × (bytes memory f.a2 f.a3 ≡ take f.a3 file.data_bytes)
        × ((a : ℕ) → (a < f.a2) ⊎ (f.a2 + f.a3 ≤ a) → memory a ≡ k.memory a)
  readfile_lem f k fl i file names four =
      let read = take f.a3 file.data_bytes in
      let long : length read ≡ f.a3 = omega (arith, length-take f.a3 file.data_bytes, names.fits) in
      (
        put_bytes k.memory f.a2 read,
        handle_syscall-read f k four
            ∙ file_call-read f k fl i file names four
            ∙ ap
                (λ (l : SpinLock (List File)). ok (
                  returned (record f { a0 = f.a3 })
                    (record k {
                      fs = record k.fs { files = l };
                      memory = put_bytes k.memory f.a2 read;
                    })))
                (sym names.files),
        subst (λ n. bytes (put_bytes k.memory f.a2 read) f.a2 n ≡ read) long
            (bytes-put_bytes k.memory f.a2 read),
        λ a out. put_bytes-outside k.memory f.a2 read a (rw long out),
      )

  file_call-write :
      (f : TrapFrame) (k : Kernel S C) (fl : List File) (i : ℕ) (file : File)
      → Names f k fl i file
      → f.a7 ≡ 5
      → file_call device fuel f k ≡ (
          fs_flush device fuel (record k.fs {
            files = new (
                set fl i (record file {
                  data_bytes = overlay file.data_bytes 0 (bytes k.memory f.a2 f.a3);
                  size = length (bytes k.memory f.a2 f.a3);
                }));
          })
          >>= λ fs. ok (returned (record f { a0 = f.a3 }) (record k { fs = fs })))
  unfolding file_call write_call overwrite fs_lookup lock drop_guard
  file_call-write f k fl i file names five =
      rw (names.files, names.text, names.found)
        (rw
          (
            eq→== f.a7 5 five,
            names.file_at,
            copy_into-ok file.data_bytes 0 (length (bytes k.memory f.a2 f.a3))
                (bytes k.memory f.a2 f.a3) (omega arith)
                (omega (arith, length-bytes k.memory f.a2 f.a3, names.fits)),
          )
          refl)

position-set :
    (p : File → Bool) (fl : List File) (i : ℕ) (file file' : File)
    → get_elem? fl i ≡ some file
    → p file' ≡ p file
    → position p (set fl i file') ≡ position p fl
position-set p [] i file file' at same = refl
position-set p (x ∷ fl) zero file file' at same = rw (same ∙ ap p (sym (some-injective at))) refl
position-set p (x ∷ fl) (suc i) file file' at same =
    rw (position-set p fl i file file' at same) refl

-- `overwrite` keeps the name of a file.
abbrev overwritten : File → List ℕ → File
overwritten file buf = record file { data_bytes = overlay file.data_bytes 0 buf; size = length buf }

has_name-overwritten :
    (name : List ℕ) (file : File) (buf : List ℕ)
    → has_name name (overwritten file buf) ≡ has_name name file
unfolding has_name
has_name-overwritten name file buf = refl

module _ {S C : Type 0} (device : Device S) (fuel : ℕ) (sbi : Sbi C) where
  -- Where the name of a SYS_WRITEFILE is that of the file at `i`, the buffer is no longer than the
  -- array of the file, and the call ends without a panic of the flush, it returns the length of
  -- the buffer. A later SYS_READFILE of as many bytes under the same name, whatever is in memory
  -- by then, ends without a panic and puts the bytes that were written into its buffer.
  pub writefile-readfile :
      (f : TrapFrame) (k : Kernel S C) (fl : List File) (i : ℕ) (file : File)
      → Names f k fl i file
      → f.a7 ≡ 5
      → {result : Progress S C} → handle_syscall device fuel sbi f k ≡ ok result
      → (k' : Kernel S C) × (result ≡ returned (record f { a0 = f.a3 }) k')
        × ((g : TrapFrame) (memory : ℕ → ℕ)
            → g.a7 ≡ 4
            → g.a3 ≡ f.a3
            → bytes memory g.a0 g.a1 ≡ bytes k.memory f.a0 f.a1
            → (memory' : ℕ → ℕ) × (handle_syscall device fuel sbi g (record k' { memory = memory })
                ≡ ok (returned (record g { a0 = g.a3 }) (record k' { memory = memory' })))
              × (bytes memory' g.a2 g.a3 ≡ bytes k.memory f.a2 f.a3))
  writefile-readfile f k fl i file names five done =
      let buf = bytes k.memory f.a2 f.a3 in
      let file' = overwritten file buf in
      let name = bytes k.memory f.a0 f.a1 in
      let size = length-bytes k.memory f.a2 f.a3 in
      let head = length-overlay file.data_bytes 0 buf (omega (arith, size, names.fits)) in
      let written =
        handle_syscall-write device fuel sbi f k five
        ∙ file_call-write device fuel sbi f k fl i file names five in
      let (fs, flushed, end) =
        >>=-eq-ok (fs_flush device fuel (record k.fs { files = new (set fl i file') })) _
          (sym written ∙ done) in
      let kept = fs_flush-files device fuel k.fs (set fl i file') flushed in
      (
        record k { fs = fs },
        sym (ok-injective end),
        λ g memory four long same.
            let there : Names g (record k { fs = fs; memory = memory }) (set fl i file') i file' =
              record {
                files = kept;
                text = ap is_utf8 same ∙ names.text;
                found =
                    ap (λ n. position (has_name n) (set fl i file')) same
                    ∙ position-set (has_name name) fl i file file' names.file_at
                        (has_name-overwritten name file buf)
                    ∙ names.found;
                file_at = get_elem?-set_self fl i file' (get_elem?-lt fl i names.file_at);
                fits = omega (arith, size, head, names.fits);
              } in
            let (memory', e, read, _) =
              readfile_lem device fuel sbi g (record k { fs = fs; memory = memory })
                (set fl i file') i file' there four in
            (
              memory',
              e,
              read
                  ∙ ap (λ n. take n (overlay file.data_bytes 0 buf)) (long ∙ sym size)
                  ∙ take-append buf _,
            ),
      )
