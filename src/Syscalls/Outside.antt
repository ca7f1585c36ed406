-- ===== src/Syscalls/Outside.antt =====
-- kernel/sys/syscall.c: sys_read and sys_write of a number beyond the table.
use night_os.Base.{
  ℕ, ◌<◌, ◌≤◌, ◌≡◌, refl, ◌⊎◌, inl, inr, arith, le→ltb, lt→ltb, get_elem?-ge, Run, ok, fault,
}
use native.Mathlib.Decide.{dec_lt}
use night_os.Base.Int.{ℤ, pos}
use night_os.Descriptors.{FdTable, handle_at, Drivers}
use night_os.Descriptors.Slots.{load-none}
use night_os.Descriptors.Inv.{IsValid}
use night_os.Syscalls.{find_handle, sys_read, sys_write, failed}

handle_at-outside :
    {t : FdTable} (v : IsValid t) (i : ℕ) → t.capacity ≤ i → handle_at (pos i) t ≡ fault
unfolding handle_at
handle_at-outside {t} v i le =
    load-none i t.handles (get_elem?-ge t.handles i (omega (arith, le, v.sized)))

module _ {World : Type 0} (d : Drivers World) where
  -- what `sys_write` of a number that is no slot of the table does
  abbrev pub Refused : ℕ → FdTable → World → Run (ℤ × FdTable × World) → Type 0
  Refused i t w r = ((i ≡ t.capacity) × (r ≡ fault)) ⊎ ((t.capacity < i) × (r ≡ ok (failed, t, w)))

  -- For a number that is no slot of a valid table, sys_read accesses the array outside its bounds;
  -- sys_write does so for the number that is the capacity, and for the larger ones it returns -1
  -- and changes nothing.
  pub beyond-Refused :
      {t : FdTable} (v : IsValid t) (i buffer size : ℕ) (w : World)
      → t.capacity ≤ i
      → (sys_read d (pos i) buffer size t w ≡ fault)
        × Refused i t w (sys_write d (pos i) buffer size t w)
  unfolding sys_read sys_write find_handle
  beyond-Refused {t} v i buffer size w le =
      let out = handle_at-outside v i le in
      (
        rw (out) refl,
        elim (dec_lt t.capacity i) [
          | yes lt ↦ inr (lt, rw (lt→ltb t.capacity i lt) refl)
          | no ge ↦
              inl (
                omega (arith, ge, le),
                rw (le→ltb t.capacity i (omega (arith, ge))) (rw (out) refl),
              )
        ],
      )
