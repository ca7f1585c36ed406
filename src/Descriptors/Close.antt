-- ===== src/Descriptors/Close.antt =====
-- kernel/proc/process.c, kernel/sys/syscall.c: process_close_fd and sys_close.
use night_os.Base.{
  ℕ, suc, ◌+◌, ◌<◌, ◌≡◌, refl, sym, ap, ◌∙◌, ap₂, inl, inr, Option, none, some, arith, get_elem?,
  lt→ltb, Run, ok, fault, blocked, out_of_fuel, ◌>>=◌,
}
use night_os.Base.Int.{ℤ, pos, negsuc, suc_ℤ, pred_ℤ}
use night_os.Descriptors.{
  FileHandle, FdTable, opened, open_fd, handle_at, put_handle, Drivers, close_node, close_fd,
}
use night_os.Descriptors.Slots.{count, load-some, load-none, store-some}
use night_os.Descriptors.{sys_close}
use night_os.Descriptors.Slots.{get_elem?-set_self, get_elem?-lt, set-set_back}
use night_os.Descriptors.Inv.{Opened, open_fd-Opened, IsValid, with_handle, without_handle}
use night_os.Base.Int.{int_bits, of_int_bits}
use night_os.Base.{◌^◌, ◌%◌}
use mathlib.Core.Path.{subst}

-- the conversion of a slot number to `int` leaves it
int_slot : (i : ℕ) → i < 2 ^ 31 → of_int_bits (int_bits (pos i)) ≡ pos i
int_slot i lt =
    let small : i % 2 ^ 32 ≡ i = omega (arith, lt) in
    rw (small) (rw (lt→ltb i (2 ^ 31) lt, of_int_bits) refl)

-- what `process_open_fd` wrote is undone by emptying the slot
pred-suc : (l : ℤ) (n : ℕ) → l ≡ pos n → pred_ℤ (suc_ℤ l) ≡ l
pred-suc l n e = let next : n + 1 ≡ suc n = omega arith in rw (e) (ap (λ m. pred_ℤ (pos m)) next)

without_handle-with_handle :
    {t : FdTable} (v : IsValid t) (i : ℕ) (h : FileHandle)
    → get_elem? t.handles i ≡ some none
    → without_handle i (with_handle i h t) ≡ t
without_handle-with_handle {t} v i h e =
    ap₂ (λ l hs. record { capacity = t.capacity; length = l; handles = hs })
      (pred-suc t.length (count t.handles) v.counted) (set-set_back t.handles i none (some h) e)

-- where `process_open_fd` returned a slot, what it did
opened_slot :
    (node mode i : ℕ) (t t' : FdTable) (r : ℤ × FdTable)
    → Opened node mode t r
    → r ≡ (pos i, t')
    → (get_elem? t.handles i ≡ some none) × (t' ≡ with_handle i (opened node mode) t)
opened_slot node mode i t t' (fd, u) (inl (full, q, same)) e = cc (q, e)
opened_slot node mode i t t' (fd, u) (inr (j, q, first, same)) e =
    let here : j ≡ i = cc (q, e) in
    subst (λ i. (get_elem? t.handles i ≡ some none) × (t' ≡ with_handle i (opened node mode) t))
      here (first.0, cc (same, e))

module _ {World : Type 0} (d : Drivers World) where
  -- a call of `process_close_fd` that returned
  pub record Closed (fd : ℤ) (t : FdTable) (w : World) (t' : FdTable) (w' : World) : Type 0 where
    pub slot : ℕ
    pub handle : FileHandle
    pub is_slot : fd ≡ pos slot
    pub in_use : get_elem? t.handles slot ≡ some (some handle)
    pub emptied : t' ≡ without_handle slot t
    pub signalled : close_node d handle.file_node w ≡ ok w'

  pub close_fd-in_use :
      (i : ℕ) (t : FdTable) (w : World) (h : FileHandle)
      → get_elem? t.handles i ≡ some (some h)
      → close_fd d (pos i) t w ≡ (close_node d h.file_node w >>= λ w. ok (without_handle i t, w))
  unfolding close_fd handle_at put_handle
  close_fd-in_use i t w h e =
      rw (load-some i t.handles (some h) e) (rw (store-some i t.handles (some h) none e) refl)

  pub close_fd-free :
      (i : ℕ) (t : FdTable) (w : World)
      → get_elem? t.handles i ≡ some none
      → close_fd d (pos i) t w ≡ fault
  unfolding close_fd handle_at
  close_fd-free i t w e = rw (load-some i t.handles none e) refl

  pub close_fd-outside :
      (i : ℕ) (t : FdTable) (w : World)
      → get_elem? t.handles i ≡ none
      → close_fd d (pos i) t w ≡ fault
  unfolding close_fd handle_at
  close_fd-outside i t w e = rw (load-none i t.handles e) refl

  signalled_first :
      (r : Run World) (t t' : FdTable) (w' : World)
      → ◌>>=◌ {Y = FdTable × World} r (λ w. ok (t, w)) ≡ ok (t', w')
      → (r ≡ ok w') × (t' ≡ t)
  signalled_first (ok w) t t' w' e = (cc e, cc e)
  signalled_first fault t t' w' e = cc e
  signalled_first blocked t t' w' e = cc e
  signalled_first out_of_fuel t t' w' e = cc e

  pub close_fd-Closed :
      (fd : ℤ) (t : FdTable) (w : World) (t' : FdTable) (w' : World)
      → close_fd d fd t w ≡ ok (t', w')
      → Closed fd t w t' w'
  unfolding close_fd handle_at
  close_fd-Closed (negsuc i) t w t' w' e = cc e
  close_fd-Closed (pos i) t w t' w' e = go (get_elem? t.handles i) refl
    where
      go : (o : Option (Option FileHandle)) → get_elem? t.handles i ≡ o → Closed (pos i) t w t' w'
      go none q = cc (close_fd-outside i t w q, e)
      go (some none) q = cc (close_fd-free i t w q, e)
      go (some (some h)) q =
          let (ran, same) =
            signalled_first (close_node d h.file_node w) (without_handle i t) t' w'
              (sym (close_fd-in_use i t w h q) ∙ e) in
          record {
            slot = i;
            handle = h;
            is_slot = refl;
            in_use = q;
            emptied = same;
            signalled = ran;
          }

  -- On a valid table of fewer than 2^31 slots, where process_open_fd returned a slot and the driver's
  -- function for closing the file, if there is one, returns, sys_close of that slot returns 0 and the
  -- table as it was before the call of process_open_fd.
  pub sys_close-open_fd :
      {t : FdTable} (v : IsValid t) (node mode i : ℕ) (t' : FdTable) (w w' : World)
      → t.capacity < 2 ^ 31
      → open_fd node mode t ≡ ok (pos i, t')
      → close_node d node w ≡ ok w'
      → sys_close d (pos i) t' w ≡ ok (pos 0, t, w')
  unfolding sys_close
  sys_close-open_fd {t} v node mode i t' w w' lt e c =
      let (r, run, o) = open_fd-Opened v node mode in
      let (free, same) = opened_slot node mode i t t' r o (cc (run, e)) in
      let below = get_elem?-lt t.handles i none free in
      let new = get_elem?-set_self t.handles i none (some (opened node mode)) free in
      rw (int_slot i (omega (arith, lt, below, v.sized))) (
        rw (same) (
          rw (close_fd-in_use i (with_handle i (opened node mode) t) w (opened node mode) new)
            (rw (c) (rw (without_handle-with_handle v i (opened node mode) free) refl))))
