-- ===== src/Syscalls/Found.antt =====
-- kernel/sys/syscall.c: the calls on a slot that holds a handle, and what they leave in it.
use night_os.Base.{
  ℕ, ◌%◌, ◌^◌, ◌≡◌, refl, sym, ap, ◌∙◌, true, false, some, List, arith, length-set, get_elem?, set,
  le→ltb, ok, ◌>>=◌, bind-eq,
}
use night_os.Base.Int.{pos, ltb_ℤ, of_int_bits}
use night_os.Descriptors.{FileHandle, FdTable, handle_at, put_handle, Drivers}
use night_os.Descriptors.Slots.{set-set, count-set_over, load-some, store-some, get_elem?-lt}
use night_os.Descriptors.Inv.{IsValid}
use night_os.Syscalls.{
  find_handle, advance, check_ptr, read, read_found, read_at, sys_read, sys_pread64, temp_handle,
  seek, is_pipe, sys_lseek, readv_loop, sys_readv,
}

-- the table with another handle in a slot
abbrev pub moved : ℕ → FileHandle → FdTable → FdTable
moved i h t = record t { handles = set t.handles i (some h) }

pub handle_at-in_use :
    (i : ℕ) (h : FileHandle) (t : FdTable)
    → get_elem? t.handles i ≡ some (some h)
    → handle_at (pos i) t ≡ ok (some h)
unfolding handle_at
handle_at-in_use i h t e = load-some i t.handles (some h) e

pub put_handle-in_use :
    (i : ℕ) (h new : FileHandle) (t : FdTable)
    → get_elem? t.handles i ≡ some (some h)
    → put_handle (pos i) (some new) t ≡ ok (moved i new t)
unfolding put_handle
put_handle-in_use i h new t e = rw (store-some i t.handles (some h) (some new) e) refl

-- a valid table has no slot above its capacity
pub passes :
    {t : FdTable} (v : IsValid t) (i : ℕ) (h : FileHandle)
    → get_elem? t.handles i ≡ some (some h)
    → ltb_ℤ (pos t.capacity) (pos i) ≡ false
passes {t} v i h e =
    let below = get_elem?-lt t.handles i (some h) e in
    le→ltb t.capacity i (omega (arith, below, v.sized))

pub find_handle-in_use :
    {t : FdTable} (v : IsValid t) (i : ℕ) (h : FileHandle)
    → get_elem? t.handles i ≡ some (some h)
    → find_handle (pos i) t ≡ ok (some h)
unfolding find_handle
find_handle-in_use {t} v i h e = rw (passes v i h e) (handle_at-in_use i h t e)

module _ {World : Type 0} (d : Drivers World) where
  pub sys_read-in_use :
      {t : FdTable} (v : IsValid t) (i : ℕ) (h : FileHandle) (buffer size : ℕ) (w : World)
      → get_elem? t.handles i ≡ some (some h)
      → check_ptr d buffer w ≡ true
      → sys_read d (pos i) buffer size t w
        ≡ (read d h buffer size w >>= λ (n, w). ok (n, moved i (advance n h) t, w))
  unfolding sys_read read_found read_at
  sys_read-in_use {t} v i h buffer size w e c = rw (handle_at-in_use i h t e) (
      rw (passes v i h e) (
        rw (c) (
          bind-eq (read d h buffer size w) _ _
            λ (n, x). rw (put_handle-in_use i h (advance n h) t e) refl)))

  pub sys_pread64-in_use :
      {t : FdTable} (v : IsValid t) (i : ℕ) (h : FileHandle) (buffer size offset : ℕ) (w : World)
      → get_elem? t.handles i ≡ some (some h)
      → check_ptr d buffer w ≡ true
      → sys_pread64 d (pos i) buffer size offset t w ≡ read d (temp_handle d offset h) buffer size w
  unfolding sys_pread64
  sys_pread64-in_use {t} v i h buffer size offset w e c =
      rw (find_handle-in_use v i h e) (rw (c) refl)

  pub sys_lseek-in_use :
      {t : FdTable} (v : IsValid t) (i : ℕ) (h : FileHandle) (offset whence : ℕ) (w : World)
      → get_elem? t.handles i ≡ some (some h)
      → is_pipe d h ≡ false
      → sys_lseek d (pos i) offset whence t w
        ≡ ok (
          of_int_bits ((seek d offset whence h w).offset % 2 ^ 32),
          moved i (seek d offset whence h w) t,
        )
  unfolding sys_lseek
  sys_lseek-in_use {t} v i h offset whence w e p =
      rw (find_handle-in_use v i h e)
        (rw (p) (rw (put_handle-in_use i h (seek d offset whence h w) t e) refl))

  pub sys_readv-in_use :
      {t : FdTable} (v : IsValid t) (i : ℕ) (h : FileHandle) (ptr : ℕ) (iov : List (ℕ × ℕ))
      (w : World)
      → get_elem? t.handles i ≡ some (some h)
      → check_ptr d ptr w ≡ true
      → sys_readv d (pos i) ptr iov t w
        ≡ (readv_loop d iov (pos 0) h w >>= λ (n, h, w). ok (n, moved i h t, w))
  unfolding sys_readv
  sys_readv-in_use {t} v i h ptr iov w e c = rw (find_handle-in_use v i h e) (
      rw (c) (
        bind-eq (readv_loop d iov (pos 0) h w) _ _
          λ (n, new, x). rw (put_handle-in_use i h new t e) refl))

-- a change of one handle keeps the table valid
pub moved-IsValid :
    {t : FdTable} (v : IsValid t) (i : ℕ) (h new : FileHandle)
    → get_elem? t.handles i ≡ some (some h)
    → IsValid (moved i new t)
moved-IsValid {t} v i h new e = record {
  sized = length-set t.handles i (some new) ∙ v.sized;
  counted = v.counted ∙ ap pos (sym (count-set_over t.handles i h new e));
}

-- two changes of the same handle
pub moved-moved :
    (i : ℕ) (h new : FileHandle) (t : FdTable) → moved i new (moved i h t) ≡ moved i new t
moved-moved i h new t =
    ap (λ hs. record t { handles = hs }) (set-set t.handles i (some h) (some new))
