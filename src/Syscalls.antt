-- ===== src/Syscalls.antt =====
-- kernel/sys/syscall.c, with read and write of kernel/fs/vfs.c: the calls that work on an open file.
pub mod Found
pub mod Reading
pub mod Vectors
pub mod Dup
pub mod Outside
mod Tests
use night_os.Base.{
  ℕ, ◌+◌, ◌-◌, ◌%◌, ◌^◌, Bool, true, false, not, ◌&&◌, ◌||◌, Option, none, some, List, [], ◌∷◌, ltb,
  ◌==◌, if◌then◌else◌, add64, sub64, Run, ok, fault, ◌>>=◌,
}
use Prim.Native.Nat.{bit_and}
use night_os.Base.Int.{ℤ, pos, negsuc, ltb_ℤ, int_bits, of_int_bits}
use night_os.Paging.{check_user}
use night_os.Descriptors.{FileHandle, FdTable, handle_at, put_handle, open_fd, Drivers}

-- the flags of a mode, kinds of files, places for `sys_lseek`, and error numbers, as in Linux
abbrev pub o_wronly : ℕ
o_wronly = 1

abbrev pub o_append : ℕ
o_append = 1024

abbrev pub file_type_virtual_device : ℕ
file_type_virtual_device = 4

abbrev pub file_type_named_pipe : ℕ
file_type_named_pipe = 6

abbrev pub seek_set : ℕ
seek_set = 0

abbrev pub seek_cur : ℕ
seek_cur = 1

abbrev pub seek_end : ℕ
seek_end = 2

abbrev pub failed : ℤ
failed = negsuc 0

abbrev pub e_fault : ℤ
e_fault = negsuc 13

abbrev pub e_inval : ℤ
e_inval = negsuc 21

abbrev pub e_notty : ℤ
e_notty = negsuc 24

abbrev pub e_spipe : ℤ
e_spipe = negsuc 28

-- `handle->offset += n`, where `n` is an `int`
unfoldable pub advance : ℤ → FileHandle → FileHandle
advance (pos n) h = record h { offset = add64 h.offset n }
advance (negsuc n) h = record h { offset = sub64 h.offset (n + 1) }

-- the sum of two `int`s
abbrev pub add_int : ℤ → ℤ → ℤ
add_int a b = of_int_bits ((int_bits a + int_bits b) % 2 ^ 32)

-- the test of `fd` against `capacity`, and `handles[fd]` where it passes
unfoldable pub find_handle : ℤ → FdTable → Run (Option FileHandle)
find_handle fd t = if ltb_ℤ (pos t.capacity) fd then ok none else handle_at fd t

-- `sys_dup`
unfoldable pub copy_handle : ℤ → FileHandle → FdTable → Run FdTable
copy_handle fd h t = do
  o ← handle_at fd t
  elim o [
    | none ↦ fault
    | some new ↦ put_handle fd (some (record new { offset = h.offset; flags = h.flags })) t
  ]

unfoldable pub sys_dup : ℤ → FdTable → Run (ℤ × FdTable)
sys_dup fd t = do
  o ← find_handle fd t
  elim o [
    | none ↦ ok (failed, t)
    | some h ↦ do (fd, t) ← open_fd h.file_node h.flags t; t ← copy_handle fd h t; ok (fd, t)
  ]

module _ {World : Type 0} (d : Drivers World) where
  -- `CHECK_PTR`
  abbrev pub check_ptr : ℕ → World → Bool
  check_ptr ptr w = ltb ptr (2 ^ 64 - 2 ^ 41) && check_user ptr (d.page_tables w)

  -- `read` and `write`; a write can move the handle
  unfoldable pub read : FileHandle → ℕ → ℕ → World → Run (ℤ × World)
  read h buffer length w =
      if bit_and h.mode o_wronly == 0
      then d.read_op h.file_node buffer h.offset length w
      else ok (failed, w)

  abbrev pub at_end : FileHandle → World → FileHandle
  at_end h w =
      if bit_and h.mode o_append == 0 then h else record h { offset = d.size h.file_node w }

  unfoldable pub write : FileHandle → ℕ → ℕ → World → Run (ℤ × FileHandle × World)
  write h buffer length w = do
    (n, x) ← d.write_op h.file_node buffer ((at_end h w).offset) length w
    ok (n, at_end h w, x)

  -- the handle of the caller, where the check of the pointer passed
  unfoldable pub read_at : ℤ → FileHandle → ℕ → ℕ → FdTable → World → Run (ℤ × FdTable × World)
  read_at fd h buffer size t w = do
    (n, w) ← read h buffer size w
    t ← put_handle fd (some (advance n h)) t
    ok (n, t, w)

  unfoldable pub write_at : ℤ → FileHandle → ℕ → ℕ → FdTable → World → Run (ℤ × FdTable × World)
  write_at fd h buffer size t w = do
    (n, h, w) ← write h buffer size w
    t ← put_handle fd (some (advance n h)) t
    ok (n, t, w)

  -- `sys_read`, which reads the slot before it tests `fd`
  unfoldable pub read_found :
      ℤ → Option FileHandle → ℕ → ℕ → FdTable → World → Run (ℤ × FdTable × World)
  read_found fd none buffer size t w = ok (failed, t, w)
  read_found fd (some h) buffer size t w =
      if check_ptr buffer w then read_at fd h buffer size t w else ok (failed, t, w)

  unfoldable pub sys_read : ℤ → ℕ → ℕ → FdTable → World → Run (ℤ × FdTable × World)
  sys_read fd buffer size t w = handle_at fd t >>= λ o.
      if ltb_ℤ (pos t.capacity) fd then ok (failed, t, w) else read_found fd o buffer size t w

  -- `sys_write`
  unfoldable pub sys_write : ℤ → ℕ → ℕ → FdTable → World → Run (ℤ × FdTable × World)
  sys_write fd buffer size t w = do
    o ← find_handle fd t
    elim o [
      | none ↦ ok (failed, t, w)
      | some h ↦ if check_ptr buffer w then write_at fd h buffer size t w else ok (failed, t, w)
    ]

  -- `sys_lseek`; the offset is the bit pattern of a `long`, and the result is cut to an `int`
  unfoldable pub seek : ℕ → ℕ → FileHandle → World → FileHandle
  seek offset whence h w =
      if whence == seek_set
      then record h { offset = offset }
      else if whence == seek_cur
      then record h { offset = add64 h.offset offset }
      else if whence == seek_end
      then record h { offset = add64 (d.size h.file_node w) offset }
      else h

  abbrev pub is_pipe : FileHandle → Bool
  is_pipe h =
      d.file_type h.file_node == file_type_virtual_device
      || d.file_type h.file_node == file_type_named_pipe

  unfoldable pub sys_lseek : ℤ → ℕ → ℕ → FdTable → World → Run (ℤ × FdTable)
  sys_lseek fd offset whence t w = do
    o ← find_handle fd t
    elim o [
      | none ↦ ok (failed, t)
      | some h ↦ if is_pipe h then ok (e_spipe, t) else do
        t ← put_handle fd (some (seek offset whence h w)) t
        ok (of_int_bits ((seek offset whence h w).offset % 2 ^ 32), t)
    ]

  -- the handle that `sys_pread64` and `sys_pwrite64` make
  abbrev pub temp_handle : ℕ → FileHandle → FileHandle
  temp_handle offset h = record {
    file_node = h.file_node;
    mode = h.mode;
    offset = offset;
    flags = 0;
  }

  -- `sys_pread64`
  unfoldable pub sys_pread64 : ℤ → ℕ → ℕ → ℕ → FdTable → World → Run (ℤ × World)
  sys_pread64 fd buffer size offset t w = do
    o ← find_handle fd t
    elim o [
      | none ↦ ok (failed, w)
      | some h ↦
          if check_ptr buffer w then read (temp_handle offset h) buffer size w else ok (failed, w)
    ]

  -- `sys_pwrite64`
  unfoldable pub sys_pwrite64 : ℤ → ℕ → ℕ → ℕ → FdTable → World → Run (ℤ × World)
  sys_pwrite64 fd buffer size offset t w = do
    o ← find_handle fd t
    elim o [
      | none ↦ ok (failed, w)
      | some h ↦
          if not (check_ptr buffer w)
          then ok (failed, w)
          else do (n, h, w) ← write (temp_handle offset h) buffer size w; ok (n, w)
    ]

  -- the loops of `sys_readv` and `sys_writev`, over the vector at `iov`, with the total so far
  unfoldable pub readv_loop : List (ℕ × ℕ) → ℤ → FileHandle → World → Run (ℤ × FileHandle × World)
  readv_loop [] total h w = ok (total, h, w)
  readv_loop ((base, len) ∷ iov) total h w =
      read h base len w >>= λ (n, w). readv_loop iov (add_int total n) (advance n h) w

  unfoldable pub writev_loop : List (ℕ × ℕ) → ℤ → FileHandle → World → Run (ℤ × FileHandle × World)
  writev_loop [] total h w = ok (total, h, w)
  writev_loop ((base, len) ∷ iov) total h w =
      write h base len w >>= λ (n, h, w). writev_loop iov (add_int total n) (advance n h) w

  -- `sys_readv` and `sys_writev`, with the address of the vector and what it holds
  unfoldable pub sys_readv : ℤ → ℕ → List (ℕ × ℕ) → FdTable → World → Run (ℤ × FdTable × World)
  sys_readv fd ptr iov t w = do
    o ← find_handle fd t
    elim o [
      | none ↦ ok (failed, t, w)
      | some h ↦
          if not (check_ptr ptr w)
          then ok (e_inval, t, w)
          else do (n, h, w) ← readv_loop iov (pos 0) h w; t ← put_handle fd (some h) t; ok (n, t, w)
    ]

  unfoldable pub sys_writev : ℤ → ℕ → List (ℕ × ℕ) → FdTable → World → Run (ℤ × FdTable × World)
  sys_writev fd ptr iov t w = do
    o ← find_handle fd t
    elim o [
      | none ↦ ok (failed, t, w)
      | some h ↦ if not (check_ptr ptr w) then ok (e_inval, t, w) else do
        (n, h, w) ← writev_loop iov (pos 0) h w
        t ← put_handle fd (some h) t
        ok (n, t, w)
    ]

  -- `sys_ioctl`
  unfoldable pub sys_ioctl : ℤ → ℕ → ℕ → FdTable → World → Run (ℤ × World)
  sys_ioctl fd operation args t w = if not (check_ptr args w) then ok (e_fault, w) else do
    o ← find_handle fd t
    elim o [
      | none ↦ ok (failed, w)
      | some h ↦ elim (d.ioctl_op h.file_node) [
        | none ↦ ok (e_notty, w)
        | some f ↦ f operation args w
      ]
    ]
