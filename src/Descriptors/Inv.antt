-- ===== src/Descriptors/Inv.antt =====
-- kernel/proc/process.c: what holds of every table that calls of process_open_fd and process_close_fd
-- lead to.
use night_os.Base.{
  ℕ, zero, suc, ◌<◌, ◌≡◌, refl, sym, ap, ◌∙◌, ◌⊎◌, inl, inr, none, some, arith, length, get_elem?,
  set, replicate, length-set, length-replicate, le→ltb, lt→ltb, ok, Returns,
}
use native.Mathlib.Decide.{dec_lt}
use night_os.Base.Int.{ℤ, pos, negsuc, suc_ℤ, pred_ℤ}
use night_os.Descriptors.{FileHandle, FdTable, new_table, first_free, opened, open_fd}
use night_os.Descriptors.Slots.{
  count, count-le, store-some, count-set_used, count-set_free, IsFirstFree, first_free-IsFirstFree,
}

-- the array has as many slots as `capacity` says, and `length` is the number of handles in it
pub record IsValid (t : FdTable) : Type 0 where
  pub sized : length t.handles ≡ t.capacity
  pub counted : t.length ≡ pos (count t.handles)

count-replicate : (n : ℕ) → count (replicate n none) ≡ 0
unfolding count
count-replicate zero = refl
count-replicate (suc n) = count-replicate n

pub new_table-IsValid : (capacity : ℕ) → IsValid (new_table capacity)
new_table-IsValid capacity = record {
  sized = length-replicate capacity none;
  counted = ap pos (sym (count-replicate capacity));
}

-- the table with a handle in a free slot
abbrev pub with_handle : ℕ → FileHandle → FdTable → FdTable
with_handle i h t = record t { handles = set t.handles i (some h); length = suc_ℤ t.length }

pub with_handle-IsValid :
    {t : FdTable} (v : IsValid t) (i : ℕ) (h : FileHandle)
    → get_elem? t.handles i ≡ some none
    → IsValid (with_handle i h t)
with_handle-IsValid {t} v i h e = record {
  sized = length-set t.handles i (some h) ∙ v.sized;
  counted = rw (v.counted) (rw (count-set_used t.handles i h e) (ap pos (omega arith)));
}

-- the table with a slot emptied
abbrev pub without_handle : ℕ → FdTable → FdTable
without_handle i t = record t { handles = set t.handles i none; length = pred_ℤ t.length }

pub without_handle-IsValid :
    {t : FdTable} (v : IsValid t) (i : ℕ) (h : FileHandle)
    → get_elem? t.handles i ≡ some (some h)
    → IsValid (without_handle i t)
without_handle-IsValid {t} v i h e = record {
  sized = length-set t.handles i none ∙ v.sized;
  counted = rw (v.counted) (rw (sym (count-set_free t.handles i h e)) refl);
}

-- what `process_open_fd` of a valid table does, in its two cases
pub open_fd-full :
    {t : FdTable} (v : IsValid t) (node mode : ℕ)
    → count t.handles ≡ t.capacity
    → open_fd node mode t ≡ ok (negsuc 0, t)
unfolding open_fd
open_fd-full {t} v node mode full =
    rw (v.counted) (rw (le→ltb (count t.handles) t.capacity (omega (arith, full))) refl)

pub open_fd-free :
    {t : FdTable} (v : IsValid t) (node mode : ℕ)
    → count t.handles < t.capacity
    → (i : ℕ) × (open_fd node mode t ≡ ok (pos i, with_handle i (opened node mode) t))
      × IsFirstFree i t.handles
unfolding open_fd
open_fd-free {t} v node mode lt =
    let (i, run, first) = first_free-IsFirstFree t.handles (omega (arith, lt, v.sized)) in
    let run' = ap (λ n. first_free n 0 t.handles) (sym v.sized) ∙ run in
    let put = store-some i t.handles none (some (opened node mode)) first.0 in
    (
      i,
      rw (v.counted) (rw (lt→ltb (count t.handles) t.capacity lt) (rw (run') (rw (put) refl))),
      first,
    )

-- the result of `process_open_fd` on a table
abbrev pub Opened : ℕ → ℕ → FdTable → ℤ × FdTable → Type 0
Opened node mode t (fd, t') =
    ((count t.handles ≡ t.capacity) × (fd ≡ negsuc 0) × (t' ≡ t))
    ⊎ ((i : ℕ) × (fd ≡ pos i) × IsFirstFree i t.handles × (t' ≡ with_handle i (opened node mode) t))

-- process_open_fd on a valid table returns: if all slots are in use it returns -1 and changes
-- nothing, and otherwise it returns the lowest free slot, in which there is then a handle of the
-- file with this mode at offset 0, the other slots as they were.
pub open_fd-Opened :
    {t : FdTable} (v : IsValid t) (node mode : ℕ)
    → Returns (open_fd node mode t) (Opened node mode t)
open_fd-Opened {t} v node mode = elim (dec_lt (count t.handles) t.capacity) [
  | yes lt ↦
      let (i, run, first) = open_fd-free v node mode lt in
      ((pos i, with_handle i (opened node mode) t), run, inr (i, refl, first, refl))
  | no ge ↦
      let full : count t.handles ≡ t.capacity = omega (arith, ge, count-le t.handles, v.sized) in
      ((negsuc 0, t), open_fd-full v node mode full, inl (full, refl, refl))
]
