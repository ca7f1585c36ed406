-- ===== src/Descriptors/Reach.antt =====
-- kernel/proc/process.c: every table of open files that a process can have.
use night_os.Base.{ℕ, ◌≡◌, refl, sym, ap, ◌∙◌, inl, inr, some, set, length-set, ok}
use night_os.Base.Int.{ℤ, pos, negsuc}
use night_os.Descriptors.{
  FileHandle, FdTable, new_table, opened, open_fd, handle_at, put_handle, Drivers, close_fd,
}
use night_os.Descriptors.Slots.{store-some, count-set_over, loaded}
use night_os.Descriptors.Inv.{
  IsValid, Opened, open_fd-Opened, new_table-IsValid, with_handle, with_handle-IsValid,
  without_handle-IsValid,
}
use night_os.Descriptors.Close.{close_fd-Closed}
use mathlib.Core.Path.{subst}

module _ {World : Type 0} (d : Drivers World) where
  -- The tables that calls of `process_open_fd` and `process_close_fd`, and changes of a handle in its
  -- slot, lead to from a new one.
  pub data Reach (capacity : ℕ) : FdTable → Type 0 where
    created : Reach capacity (new_table capacity)
    opening :
        (t t' : FdTable) (node mode : ℕ) (fd : ℤ)
        → Reach capacity t
        → open_fd node mode t ≡ ok (fd, t')
        → Reach capacity t'
    closing :
        (t t' : FdTable) (fd : ℤ) (w w' : World)
        → Reach capacity t
        → close_fd d fd t w ≡ ok (t', w')
        → Reach capacity t'
    changing :
        (t t' : FdTable) (fd : ℤ) (h new : FileHandle)
        → Reach capacity t
        → handle_at fd t ≡ ok (some h)
        → put_handle fd (some new) t ≡ ok t'
        → Reach capacity t'

  KeepsTo : ℕ → FdTable → Type 0
  KeepsTo capacity t = IsValid t × (t.capacity ≡ capacity)

  after_opening :
      (capacity node mode : ℕ) (t t' : FdTable) (fd : ℤ) (r : ℤ × FdTable)
      → KeepsTo capacity t
      → Opened node mode t r
      → r ≡ (fd, t')
      → KeepsTo capacity t'
  unfolding KeepsTo
  after_opening capacity node mode t t' fd (x, u) k (inl (full, q, same)) e =
      subst (KeepsTo capacity) (cc (same, e)) k
  after_opening capacity node mode t t' fd (x, u) (v, c) (inr (i, q, first, same)) e =
      let next : with_handle i (opened node mode) t ≡ t' = cc (same, e) in
      subst (KeepsTo capacity) next (with_handle-IsValid v i (opened node mode) first.0, c)

  after_changing :
      (capacity : ℕ) (t t' : FdTable) (fd : ℤ) (h new : FileHandle)
      → KeepsTo capacity t
      → handle_at fd t ≡ ok (some h)
      → put_handle fd (some new) t ≡ ok t'
      → KeepsTo capacity t'
  unfolding KeepsTo handle_at put_handle
  after_changing capacity t t' (negsuc i) h new k l s = cc l
  after_changing capacity t t' (pos i) h new (v, c) l s =
      let here = loaded i t.handles (some h) l in
      let run = store-some i t.handles (some h) (some new) here in
      let put : put_handle (pos i) (some new) t
          ≡ ok (record t { handles = set t.handles i (some new) }) =
        rw (run) refl in
      let kept : IsValid (record t { handles = set t.handles i (some new) }) = record {
        sized = length-set t.handles i (some new) ∙ v.sized;
        counted = v.counted ∙ ap pos (sym (count-set_over t.handles i h new here));
      } in
      let next : record t { handles = set t.handles i (some new) } ≡ t' = cc (put, s) in
      subst (KeepsTo capacity) next (kept, c)

  -- In every table that a process can have, the array has as many slots as the table was made with,
  -- and `length` is the number of handles in it.
  pub Reach-IsValid :
      (capacity : ℕ) (t : FdTable) → Reach capacity t → IsValid t × (t.capacity ≡ capacity)
  unfolding KeepsTo
  Reach-IsValid capacity _ created = (new_table-IsValid capacity, refl)
  Reach-IsValid capacity _ (opening t t' node mode fd r e) =
      let k = Reach-IsValid capacity t r in
      let (x, run, o) = open_fd-Opened k.0 node mode in
      after_opening capacity node mode t t' fd x k o (cc (run, e))
  Reach-IsValid capacity _ (closing t t' fd w w' r e) =
      let (v, c) = Reach-IsValid capacity t r in
      let k = close_fd-Closed d fd t w t' w' e in
      subst (KeepsTo capacity) (sym k.emptied)
        (without_handle-IsValid v k.slot k.handle k.in_use, c)
  Reach-IsValid capacity _ (changing t t' fd h new r l s) =
      after_changing capacity t t' fd h new (Reach-IsValid capacity t r) l s
