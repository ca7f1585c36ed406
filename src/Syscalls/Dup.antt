-- ===== src/Syscalls/Dup.antt =====
-- kernel/sys/syscall.c: sys_dup.
use night_os.Base.{
  ℕ, ◌≡◌, refl, ap, ◌∙◌, ◌⊎◌, inl, inr, none, some, arith, get_elem?, Run, ok, fault,
}
use native.Mathlib.Decide.{dec_lt}
use night_os.Base.Int.{ℤ, pos, suc_ℤ}
use night_os.Descriptors.{FileHandle, FdTable, handle_at, opened}
use night_os.Descriptors.Slots.{count, set-set, count-le, IsFirstFree, get_elem?-set_self}
use night_os.Descriptors.Inv.{IsValid, with_handle, open_fd-free, open_fd-full}
use night_os.Syscalls.{copy_handle, sys_dup}
use night_os.Syscalls.Found.{handle_at-in_use, put_handle-in_use, find_handle-in_use}

-- the handle that `sys_dup` makes of one
abbrev pub duplicate : FileHandle → FileHandle
duplicate h = record { file_node = h.file_node; mode = h.flags; offset = h.offset; flags = h.flags }

-- what `sys_dup` of a handle does in a table
abbrev pub Duplicated : FileHandle → FdTable → Run (ℤ × FdTable) → Type 0
Duplicated h t r =
    ((count t.handles ≡ t.capacity) × (r ≡ fault))
    ⊎ ((j : ℕ) × IsFirstFree j t.handles × (r ≡ ok (pos j, with_handle j (duplicate h) t)))

copy_handle-opened :
    (j : ℕ) (h : FileHandle) (t : FdTable)
    → get_elem? t.handles j ≡ some none
    → copy_handle (pos j) h (with_handle j (opened h.file_node h.flags) t)
      ≡ ok (with_handle j (duplicate h) t)
unfolding copy_handle
copy_handle-opened j h t e =
    let new = opened h.file_node h.flags in
    let there = get_elem?-set_self t.handles j none (some new) e in
    rw (handle_at-in_use j new (with_handle j new t) there) (
      put_handle-in_use j new (duplicate h) (with_handle j new t) there
      ∙ ap (λ hs. ok (record t { handles = hs; length = suc_ℤ t.length }))
          (set-set t.handles j (some new) (some (duplicate h))))

-- sys_dup of a slot of a valid table that holds a handle: if all slots are in use it accesses
-- handles[-1], which faults, and otherwise it returns the lowest free slot, which then holds a
-- handle of its own of the same file, at the same offset and with the same flags, whose mode is the
-- flags of the first and not its mode.
pub sys_dup-Duplicated :
    {t : FdTable} (v : IsValid t) (i : ℕ) (h : FileHandle)
    → get_elem? t.handles i ≡ some (some h)
    → Duplicated h t (sys_dup (pos i) t)
unfolding sys_dup copy_handle handle_at
sys_dup-Duplicated {t} v i h e =
    rw (find_handle-in_use v i h e) (elim (dec_lt (count t.handles) t.capacity) [
      | yes lt ↦
          let (j, run, first) = open_fd-free v h.file_node h.flags lt in
          inr (j, first, rw (run) (rw (copy_handle-opened j h t first.0) refl))
      | no ge ↦
          let full : count t.handles ≡ t.capacity =
            omega (arith, ge, count-le t.handles, v.sized) in
          inl (full, rw (open_fd-full v h.file_node h.flags full) refl)
    ])
