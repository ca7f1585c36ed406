-- ===== src/Descriptors.antt =====
-- kernel/proc/process.c, kernel/fs/vfs.h: the table of open files of a process. A file is a number; a
-- slot is none where the array holds NULL, and an access outside the array, or through NULL, is a
-- fault. A handle is in one slot only, so that its fields stand in the slot.
pub mod Slots
pub mod Inv
pub mod Close
pub mod Reach
pub mod Release
mod Tests
use night_os.Base.{
  ℕ, zero, suc, ◌+◌, ◌%◌, Bool, true, false, not, Option, none, some, List, [], ◌∷◌, get_elem?, set,
  replicate, ltb, leb, if◌then◌else◌, Run, ok, fault, out_of_fuel, ◌>>=◌,
}
use night_os.Base.Int.{ℤ, pos, negsuc, ltb_ℤ, suc_ℤ, pred_ℤ, int_bits, of_int_bits}
use night_os.Paging.{Machine}

-- `file_handle_t`
pub record FileHandle : Type 0 where
  pub file_node : ℕ
  pub mode : ℕ
  pub offset : ℕ
  pub flags : ℕ

abbrev pub Slots : Type 0
Slots = List (Option FileHandle)

-- `fd_table_t`
pub record FdTable : Type 0 where
  pub capacity : ℕ
  pub length : ℤ
  pub handles : Slots

-- the table that a new process gets, with the memory of its array cleared
abbrev pub new_table : ℕ → FdTable
new_table capacity = record {
  capacity = capacity;
  length = pos 0;
  handles = replicate capacity none;
}

-- `handles[i]`, read and written
unfoldable pub load : ℕ → Slots → Run (Option FileHandle)
load i hs = elim (get_elem? hs i) [ none ↦ fault | some h ↦ ok h ]

unfoldable pub store : ℕ → Option FileHandle → Slots → Run Slots
store i h hs = elim (get_elem? hs i) [ none ↦ fault | some old ↦ ok (set hs i h) ]

-- the loop of `process_open_fd`, with the rounds that are left
unfoldable pub first_free : ℕ → ℕ → Slots → Run ℕ
first_free zero i hs = ok 0
first_free (suc rounds) i hs =
    load i hs >>= λ h. elim h [ none ↦ ok i | some old ↦ first_free rounds (i + 1) hs ]

-- the handle that `process_open_fd` makes
abbrev pub opened : ℕ → ℕ → FileHandle
opened node mode = record { file_node = node; mode = mode; offset = 0; flags = 0 }

-- `process_open_fd`
unfoldable pub open_fd : ℕ → ℕ → FdTable → Run (ℤ × FdTable)
open_fd node mode t = if not (ltb_ℤ t.length (pos t.capacity)) then ok (negsuc 0, t) else do
  index ← first_free t.capacity 0 t.handles
  hs ← store index (some (opened node mode)) t.handles
  ok (pos index, record t { handles = hs; length = suc_ℤ t.length })

-- `handles[fd]`, where `fd` is signed
unfoldable pub handle_at : ℤ → FdTable → Run (Option FileHandle)
handle_at (pos i) t = load i t.handles
handle_at (negsuc i) t = fault

unfoldable pub put_handle : ℤ → Option FileHandle → FdTable → Run FdTable
put_handle (pos i) h t = store i h t.handles >>= λ hs. ok (record t { handles = hs })
put_handle (negsuc i) h t = fault

-- The functions of the drivers that the files name, over a state `World` of the rest of the system.
-- `close_op` and `ioctl_op` are none where the file names no such function. `file_type`, `size` and
-- `page_tables` are fields of the file and the page tables of the process.
pub record Drivers (World : Type 0) : Type 0 where
  pub read_op : ℕ → ℕ → ℕ → ℕ → World → Run (ℤ × World)
  pub write_op : ℕ → ℕ → ℕ → ℕ → World → Run (ℤ × World)
  pub close_op : ℕ → Option (World → Run World)
  pub ioctl_op : ℕ → Option (ℕ → ℕ → World → Run (ℤ × World))
  pub file_type : ℕ → ℕ
  pub size : ℕ → World → ℕ
  pub page_tables : World → Machine

module _ {World : Type 0} (d : Drivers World) where
  -- the call of the driver in `process_close_fd`
  unfoldable pub close_node : ℕ → World → Run World
  close_node node w = elim (d.close_op node) [ none ↦ ok w | some f ↦ f w ]

  -- `process_close_fd`, whose argument is an `int`
  unfoldable pub close_fd : ℤ → FdTable → World → Run (FdTable × World)
  close_fd fd t w = do
    o ← handle_at fd t
    elim o [
      | none ↦ fault
      | some h ↦ do
        w ← close_node h.file_node w
        t ← put_handle fd none t
        ok (record t { length = pred_ℤ t.length }, w)
    ]

  -- `sys_close`
  unfoldable pub sys_close : ℤ → FdTable → World → Run (ℤ × FdTable × World)
  sys_close fd t w = do (t, w) ← close_fd (of_int_bits (int_bits fd)) t w; ok (pos 0, t, w)

  -- the loop of `process_execve` that closes the files, with the rounds that are left
  unfoldable pub close_all : ℕ → ℕ → FdTable → World → Run (FdTable × World)
  close_all zero i t w = ok (t, w)
  close_all (suc rounds) i t w = close_fd (pos i) t w >>= λ (t, w). close_all rounds (i + 1) t w

  -- that part of `process_execve`
  unfoldable pub close_files : FdTable → World → Run (FdTable × World)
  close_files t w = if ltb_ℤ (pos 0) t.length then close_all t.capacity 0 t w else ok (t, w)

-- the loop of `process_exit` and of `process_terminate`: the handles that it frees, and the array
-- that it leaves
unfoldable pub release_loop : ℕ → ℕ → ℤ → ℕ → Slots → Run (List FileHandle × Slots)
release_loop zero i length capacity hs = out_of_fuel
release_loop (suc fuel) i length capacity hs =
    if not (ltb_ℤ (pos 0) length) then ok ([], hs) else do
      o ← load i hs
      elim o [
        | none ↦ release_loop fuel (i + 1) length capacity hs
        | some h ↦ do
          hs ← store i none hs
          let rest = release_loop fuel (i + 1) (pred_ℤ length) capacity hs
          if ltb capacity (i + 1)
              then ok (h ∷ [], hs)
              else (rest >>= λ (freed, hs). ok (h ∷ freed, hs))
      ]

-- that part of the two functions; the table itself is freed if files were open
unfoldable pub release : FdTable → Run (List FileHandle × Slots)
release t = release_loop (t.capacity + 1) 0 t.length t.capacity t.handles
