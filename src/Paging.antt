-- ===== src/Paging.antt =====
-- kernel/arch/amd64/memmgr.c: the page tables of x86-64. The physical memory is given by frames of
-- 512 words, and a page table is read through the identity map, which adds `KERNEL_MEMORY` to a
-- physical address. Interrupts and the locks are left out, since a call runs to its end, and the
-- TLB is too.
pub mod Words
pub mod Tables
pub mod Grow
pub mod Descend
pub mod Leaf
pub mod Map
pub mod Lookup
pub mod Create
pub mod Unmap
mod Tests
use Prim.Native.Nat.{bit_and, bit_or}
use night_os.Base.{
  ℕ, zero, suc, ◌+◌, ◌-◌, ◌*◌, ◌/◌, ◌%◌, ◌^◌, Bool, true, false, ◌&&◌, ◌||◌, not, Option, none,
  some, ltb, leb, ◌==◌, if◌then◌else◌, to_int, of_int, Run, ok, ◌>>=◌,
}
use night_os.Frames.{Frames, kalloc_frame, kfree_frame}

pub record Machine : Type 0 where
  pub frames : Frames
  pub memory : ℕ → ℕ → ℕ
  pub pml : ℕ

-- `KERNEL_MEMORY`, `LOW_MEMORY` and `PAGE_MASK`
abbrev pub kernel_memory : ℕ
kernel_memory = 33554429 * 2 ^ 39

abbrev pub low_memory : ℕ
low_memory = 2 ^ 39 - 1

abbrev pub page_mask : ℕ
page_mask = (2 ^ 52 - 1) * 2 ^ 12

-- `PML4_INDEX`, `PDP_INDEX`, `PD_INDEX` and `PT_INDEX`
abbrev pub pml4_index : ℕ → ℕ
pml4_index addr = addr / 2 ^ 39 % 512

abbrev pub pdp_index : ℕ → ℕ
pdp_index addr = addr / 2 ^ 30 % 512

abbrev pub pd_index : ℕ → ℕ
pd_index addr = addr / 2 ^ 21 % 512

abbrev pub pt_index : ℕ → ℕ
pt_index addr = addr / 2 ^ 12 % 512

-- the tests for `PAGE_PRESENT`, `PAGE_USER` and `PAGE_LARGE`
abbrev pub is_present : ℕ → Bool
is_present w = not (bit_and w (2 ^ 0) == 0)

abbrev pub is_user : ℕ → Bool
is_user w = not (bit_and w (2 ^ 2) == 0)

abbrev pub is_large : ℕ → Bool
is_large w = not (bit_and w (2 ^ 7) == 0)

-- `memmgr_get_from_virtual`
pub get_from_virtual : ℕ → ℕ
get_from_virtual addr = bit_and addr low_memory

-- `memmgr_get_from_physical`
unfoldable pub get_from_physical : ℕ → ℕ
get_from_physical addr = if addr == 2 ^ 12 then 2 ^ 12 else bit_or addr kernel_memory

-- the frame that a pointer into the identity map reads
pub frame_at : ℕ → ℕ
frame_at pointer = get_from_virtual pointer / 2 ^ 12

-- the table that an entry leads to
pub table_at : ℕ → ℕ
table_at entry = frame_at (get_from_physical (bit_and entry page_mask))

pub root : Machine → ℕ
root m = frame_at (get_from_physical m.pml)

abbrev pub set_entry : ℕ → ℕ → ℕ → Machine → Machine
set_entry f i w m = record m { memory = λ g j. if (g == f) && (j == i) then w else m.memory g j }

-- `memset(table, 0, 0x1000)`
abbrev pub clear_frame : ℕ → Machine → Machine
clear_frame f m = record m { memory = λ g j. if g == f then 0 else m.memory g j }

pub alloc : Machine → Run (ℕ × Machine)
alloc m = do (a, frames) ← kalloc_frame m.frames; ok (a, record m { frames = frames })

-- The part for one level, which `memmgr_create_or_get_page` and `memmgr_map_frame_to_virtual` repeat:
-- the next table, or `none` where they return because it is missing and not to be created.
pub next_table : Bool → ℕ → ℕ → ℕ → Machine → Run (Option ℕ × Machine)
next_table create flags f i m =
    if m.memory f i == 0
    then (if create
        then (do
          (a, m) ← alloc m
          let m = set_entry f i (bit_or (bit_or (bit_or a 1) 2) flags) m
          let t = frame_at (bit_or a kernel_memory)
          ok (some t, clear_frame t m))
        else ok (none, m))
    else ok (some (table_at (m.memory f i)), m)

-- the part for the page itself
pub leaf : Bool → ℕ → ℕ → ℕ → Machine → Run (ℕ × Machine)
leaf create flags f i m =
    if m.memory f i == 0
    then (if create
        then (do
          (a, m) ← alloc m
          let m = set_entry f i (bit_or (bit_or (bit_or a 1) 2) flags) m
          ok (bit_and (m.memory f i) page_mask, m))
        else ok (0, m))
    else ok (bit_and (m.memory f i) page_mask, m)

-- how `memmgr_create_or_get_page` goes on with a table, if it got one
abbrev pub with_table : Option ℕ × Machine → (ℕ → Machine → Run (ℕ × Machine)) → Run (ℕ × Machine)
with_table (none, m) further = ok (0, m)
with_table (some t, m) further = further t m

-- `memmgr_create_or_get_page`
pub create_or_get_page : ℕ → ℕ → Bool → Machine → Run (ℕ × Machine)
create_or_get_page addr flags create m = do
  let pml4 = root m
  r ← next_table create flags pml4 (pml4_index addr) m
  with_table r λ pdp m. do
    r ← next_table create flags pdp (pdp_index addr) m
    with_table r λ pd m. if is_large (m.memory pdp (pdp_index addr)) then ok (0, m) else do
      r ← next_table create flags pd (pd_index addr) m
      with_table r λ pt m.
          if is_large (m.memory pd (pd_index addr))
          then ok (0, m)
          else leaf create flags pt (pt_index addr) m

-- `memmgr_get_page_physical`
pub get_page_physical : ℕ → Machine → Run (ℕ × Machine)
get_page_physical addr m = do
  (phys, m) ← create_or_get_page addr 0 false m
  ok (if phys == 0 then 0 else phys + addr % 4096, m)

-- one level of `memmgr_map_frame_to_virtual`
pub map_table : ℕ → ℕ → ℕ → Machine → Run (ℕ × Machine)
map_table flags f i m = do r ← next_table true flags f i m; with_table r λ t m. ok (t, m)

-- `memmgr_map_frame_to_virtual`
pub map_frame_to_virtual : ℕ → ℕ → ℕ → Machine → Run Machine
map_frame_to_virtual frame addr flags m = do
  let table_flags = bit_and flags (2 ^ 6 - 1)
  let pml4 = root m
  (pdp, m) ← map_table table_flags pml4 (pml4_index addr) m
  (pd, m) ← map_table table_flags pdp (pdp_index addr) m
  (pt, m) ← map_table table_flags pd (pd_index addr) m
  let entry = bit_or (bit_or (bit_or frame 1) 2) (of_int (to_int flags))
  ok (set_entry pt (pt_index addr) entry m)

-- how one level of `memmgr_create_or_get_raw` ends: it returns null or a page, or it has a table
pub data Raw : Type 0 where
  null : Raw
  done : ℕ → Raw
  table : ℕ → Raw

-- One level, where a missing entry is to become that of a new table, with the word that `word`
-- makes of its address, or that of the frame given.
pub raw_table : Bool → Bool → (ℕ → ℕ) → ℕ → ℕ → ℕ → ℕ → Machine → Run (Raw × Machine)
raw_table create deeper word flags frame f i m =
    if m.memory f i == 0
    then (if create
        then (if deeper
            then (do
              (a, m) ← alloc m
              let t = frame_at (bit_or a kernel_memory)
              ok (table t, clear_frame t (set_entry f i (word a) m)))
            else (let m' =
                  clear_frame (frame_at (bit_or frame kernel_memory))
                    (set_entry f i (bit_or frame flags) m) in
                ok (done (bit_and (m'.memory f i) page_mask), m')))
        else ok (null, m))
    else ok (table (table_at (m.memory f i)), m)

-- how `memmgr_create_or_get_raw` goes on
abbrev pub with_raw : Raw × Machine → (ℕ → Machine → Run (ℕ × Machine)) → Run (ℕ × Machine)
with_raw (null, m) further = ok (0, m)
with_raw (done page, m) further = ok (page, m)
with_raw (table t, m) further = further t m

-- the part for the page itself
pub raw_leaf : Bool → ℕ → ℕ → ℕ → ℕ → Machine → Run (ℕ × Machine)
raw_leaf create flags frame f i m =
    if m.memory f i == 0
    then (if create
        then (let m' = set_entry f i (bit_or frame flags) m in
            ok (bit_and (m'.memory f i) page_mask, m'))
        else ok (0, m))
    else ok (bit_and (m.memory f i) page_mask, m)

-- `memmgr_create_or_get_raw`
pub create_or_get_raw : ℕ → ℕ → ℕ → Bool → ℕ → Machine → Run (ℕ × Machine)
create_or_get_raw addr frame flags create level m = do
  let word = λ (a : ℕ). bit_or (bit_or (bit_or a 1) 2) flags
  let pml4 = root m
  r ← raw_table create (leb level 3) (λ a. bit_or a flags) flags frame pml4 (pml4_index addr) m
  with_raw r λ pdp m. do
    r ← raw_table create (leb level 2) word flags frame pdp (pdp_index addr) m
    with_raw r λ pd m. if is_large (m.memory pdp (pdp_index addr)) then ok (0, m) else do
      r ← raw_table create (leb level 1) word flags frame pd (pd_index addr) m
      with_raw r λ pt m.
          if is_large (m.memory pd (pd_index addr))
          then ok (0, m)
          else raw_leaf create flags frame pt (pt_index addr) m

-- the test of a pointer to a table for null, in the functions below
unfoldable pub is_null : ℕ → Bool
is_null entry = get_from_physical (bit_and entry page_mask) == 0

-- `memmgr_check_user`
unfoldable pub check_user : ℕ → Machine → Bool
check_user addr m =
    let e4 = m.memory (root m) (pml4_index addr) in
    let e3 = m.memory (table_at e4) (pdp_index addr) in
    let e2 = m.memory (table_at e3) (pd_index addr) in
    let e1 = m.memory (table_at e2) (pt_index addr) in
    if not (is_user e4) || is_null e4
    then false
    else if is_large e4
    then true
    else if not (is_user e3) || is_null e3
    then false
    else if is_large e3
    then true
    else if not (is_user e2) || is_null e2
    then false
    else if is_large e2
    then true
    else is_user e1

-- `memmgr_get_page_level`; 255 is its -1.
pub get_page_level : ℕ → Machine → ℕ
get_page_level addr m =
    let e4 = m.memory (root m) (pml4_index addr) in
    let e3 = m.memory (table_at e4) (pdp_index addr) in
    let e2 = m.memory (table_at e3) (pd_index addr) in
    if is_null e4
    then 255
    else if is_large e4
    then 3
    else if is_null e3
    then 255
    else if is_large e3
    then 2
    else if is_null e2
    then 255
    else if is_large e2
    then 1
    else 0

-- the frame of an entry given back, in `memmgr_delete_page`
pub release_page : ℕ → Machine → Machine
release_page entry m =
    if is_present entry
    then record m { frames = kfree_frame (bit_and entry page_mask) m.frames }
    else m

-- `memmgr_delete_page`
pub delete_page : ℕ → Machine → Machine
delete_page addr m =
    let e4 = m.memory (root m) (pml4_index addr) in
    let e3 = m.memory (table_at e4) (pdp_index addr) in
    let e2 = m.memory (table_at e3) (pd_index addr) in
    let e1 = m.memory (table_at e2) (pt_index addr) in
    if is_null e4 || is_large e4
    then m
    else if is_null e3 || is_large e3
    then m
    else if is_null e2 || is_large e2
    then m
    else set_entry (table_at e2) (pt_index addr) 0 (release_page e1 m)

-- the loop of `munmap`, for the rounds that are left
pub munmap_loop : ℕ → ℕ → ℕ → Machine → Machine
munmap_loop addr zero i m = m
munmap_loop addr (suc rounds) i m =
    let page = (addr + 4096 * i) % 2 ^ 64 in
    munmap_loop addr rounds (i + 1) (if check_user page m then delete_page page m else m)

-- the pages of a length, in `mmap` and `munmap`
abbrev pub page_count : ℕ → ℕ
page_count len = if len % 4096 == 0 then len / 4096 else len / 4096 + 1

-- `munmap`
pub munmap : ℕ → ℕ → Machine → Machine
munmap addr len m = munmap_loop (addr / 4096 * 4096) (page_count len) 1 m
