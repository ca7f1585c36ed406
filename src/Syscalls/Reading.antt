-- ===== src/Syscalls/Reading.antt =====
-- kernel/sys/syscall.c: sys_read against sys_lseek and sys_pread64, and on a handle that cannot be
-- read.
use night_os.Base.{
  ℕ, ◌≡◌, refl, ap, ◌∙◌, true, false, some, get_elem?, ◌==◌, sub64, ok, ◌>>=◌, bind-eq,
}
use Prim.Native.Nat.{bit_and}
use night_os.Base.Int.{pos}
use night_os.Descriptors.{FileHandle, FdTable, Drivers}
use night_os.Descriptors.Slots.{get_elem?-set_self}
use night_os.Descriptors.Inv.{IsValid}
use night_os.Syscalls.{
  advance, check_ptr, read, sys_read, sys_pread64, failed, o_wronly, is_pipe, seek, seek_set,
  sys_lseek,
}
use night_os.Syscalls.Found.{
  moved, moved-moved, moved-IsValid, sys_read-in_use, sys_pread64-in_use, sys_lseek-in_use,
}

module _ {World : Type 0} (d : Drivers World) where
  -- For a slot of a valid table that holds a handle of a file which is no pipe or virtual device,
  -- and a buffer that CHECK_PTR accepts, sys_lseek to an offset from the start and then sys_read is
  -- sys_pread64 at the offset, and leaves the handle that many bytes behind it.
  pub lseek-read :
      {t : FdTable} (v : IsValid t) (i : ℕ) (h : FileHandle) (buffer size offset : ℕ) (w : World)
      → get_elem? t.handles i ≡ some (some h)
      → is_pipe d h ≡ false
      → check_ptr d buffer w ≡ true
      → (sys_lseek d (pos i) offset seek_set t w >>= λ (_, t). sys_read d (pos i) buffer size t w)
        ≡ (sys_pread64 d (pos i) buffer size offset t w >>= λ (n, w).
            ok (n, moved i (advance n (record h { offset = offset })) t, w))
  unfolding seek read
  lseek-read {t} v i h buffer size offset w e p c =
      let at = record h { offset = offset } in
      rw (sys_lseek-in_use d v i h offset seek_set w e p) (
        rw (sys_pread64-in_use d v i h buffer size offset w e c) (
          sys_read-in_use d (moved-IsValid v i h at e) i at buffer size w
            (get_elem?-set_self t.handles i (some h) (some at) e) c
          ∙ bind-eq (read d at buffer size w) _ _
              λ (n, x). ap (λ u. ok (n, u, x)) (moved-moved i at (advance n at) t)))

  -- For a slot of a valid table that holds a handle opened with O_WRONLY, and a buffer that CHECK_PTR
  -- accepts, sys_read returns -1 and moves the offset of the handle back by one byte.
  pub sys_read-write_only :
      {t : FdTable} (v : IsValid t) (i : ℕ) (h : FileHandle) (buffer size : ℕ) (w : World)
      → get_elem? t.handles i ≡ some (some h)
      → (bit_and h.mode o_wronly == 0) ≡ false
      → check_ptr d buffer w ≡ true
      → sys_read d (pos i) buffer size t w
        ≡ ok (failed, moved i (record h { offset = sub64 h.offset 1 }) t, w)
  unfolding read advance
  sys_read-write_only {t} v i h buffer size w e m c =
      rw (sys_read-in_use d v i h buffer size w e c) (rw (m) refl)
