-- ===== src/Syscalls/Vectors.antt =====
-- kernel/sys/syscall.c: sys_readv against sys_read of one buffer after the other.
use night_os.Base.{
  ℕ, ◌≡◌, sym, ap, ◌∙◌, true, some, List, [], ◌∷◌, get_elem?, Run, ok, ◌>>=◌, bind-eq, bind_assoc,
}
use night_os.Base.Int.{ℤ, pos}
use night_os.Descriptors.{FileHandle, FdTable, Drivers}
use night_os.Descriptors.Slots.{get_elem?-set_self, set-same}
use night_os.Descriptors.Inv.{IsValid}
use night_os.Syscalls.{advance, add_int, check_ptr, read, sys_read, readv_loop, sys_readv}
use night_os.Syscalls.Found.{moved, moved-moved, moved-IsValid, sys_read-in_use, sys_readv-in_use}

module _ {World : Type 0} (d : Drivers World) where
  -- one `sys_read` after the other, with the total so far
  unfoldable pub read_each : List (ℕ × ℕ) → ℤ → ℤ → FdTable → World → Run (ℤ × FdTable × World)
  read_each [] total fd t w = ok (total, t, w)
  read_each ((base, len) ∷ iov) total fd t w =
      sys_read d fd base len t w >>= λ (n, t, w). read_each iov (add_int total n) fd t w

  -- CHECK_PTR accepts every buffer, whatever the calls before it did
  unfoldable pub AreUser : List (ℕ × ℕ) → Type 0
  AreUser [] = Unit
  AreUser ((base, len) ∷ iov) = ((w : World) → check_ptr d base w ≡ true) × AreUser iov

  readv_loop-each :
      (iov : List (ℕ × ℕ)) (total : ℤ) (t : FdTable) (v : IsValid t) (i : ℕ) (h : FileHandle)
      (w : World)
      → AreUser iov
      → get_elem? t.handles i ≡ some (some h)
      → (readv_loop d iov total h w >>= λ (n, h, w). ok (n, moved i h t, w))
        ≡ read_each iov total (pos i) t w
  unfolding readv_loop read_each AreUser
  readv_loop-each [] total t v i h w user e =
      ap (λ hs. ok (total, record t { handles = hs }, w)) (set-same t.handles i (some h) e)
  readv_loop-each ((base, len) ∷ iov) total t v i h w (here, user) e =
      bind_assoc (read d h base len w) _ _
      ∙ bind-eq (read d h base len w) _ _ (λ (n, x).
        let next = advance n h in
        bind-eq (readv_loop d iov (add_int total n) next x) _ _
          (λ (m, g, y). ap (λ u. ok (m, u, y)) (sym (moved-moved i next g t)))
        ∙ readv_loop-each iov (add_int total n) (moved i next t) (moved-IsValid v i h next e) i next
            x user (get_elem?-set_self t.handles i (some h) (some next) e))
      ∙ sym (
          ap (λ r. r >>= λ (n, t, w). read_each iov (add_int total n) (pos i) t w)
            (sys_read-in_use d v i h base len w e (here w))
          ∙ bind_assoc (read d h base len w) _ _)

  -- For a slot of a valid table that holds a handle, a vector that CHECK_PTR accepts, and buffers
  -- that it accepts at any time, sys_readv returns what sys_read of each buffer in turn returns in
  -- total, and leaves the same table.
  pub sys_readv-read_each :
      {t : FdTable} (v : IsValid t) (i : ℕ) (h : FileHandle) (ptr : ℕ) (iov : List (ℕ × ℕ))
      (w : World)
      → get_elem? t.handles i ≡ some (some h)
      → check_ptr d ptr w ≡ true
      → AreUser iov
      → sys_readv d (pos i) ptr iov t w ≡ read_each iov (pos 0) (pos i) t w
  sys_readv-read_each {t} v i h ptr iov w e c user =
      sys_readv-in_use d v i h ptr iov w e c ∙ readv_loop-each iov (pos 0) t v i h w user e
